-- ===== src/Shrubs/Insert.antt =====
-- `insert_batch_devices` against a rebuild of the tree from all leaves.
use unified_attestation.Prelude.{
  ℕ, zero, suc, ◌+◌, ◌/◌, ◌%◌, ◌≤◌, ◌≡◌, ◌≢◌, refl, ap, sym, ◌∙◌, some, List, [], ◌∷◌, ◌++◌,
  append_assoc, append-nil, length, length-append, get_elem?, ◌==◌, arith, if◌then◌else◌, inl, inr,
  Bool-cases, Bool,
}
use mathlib.Core.Path.{subst}
use unified_attestation.Outcome.{Result, ok, ◌>>=◌, expect}
use unified_attestation.Shrubs.{
  Hasher, is_empty, pair_hashes, put_root, carried_root, should_insert_root, last_index,
  insert_shrubs_tree, insert_from, insert_batch_devices, create_batch_devices,
}
use unified_attestation.Shrubs.Layers.{
  last_even, get_elem?-last_index, length-pair_hashes, root_list, roots, root_list-cons,
  create_batch_devices-roots,
}
use unified_attestation.Shrubs.Exponents.{
  bits, bits_fuel, bits-ne-nil, bits_odd, exponents_of_two-bits,
}
use unified_attestation.Shrubs.Carry.{
  odd_last, odd_last-even, odd_last-odd, get_elem?-append, put_root_end, put_root_at, bits_lower,
  Follows, should_insert-Follows, bits_rest_even, Follows-next,
}

module _ {F : Type 0} (hasher : Hasher F) where
  abbrev ph : List F → List F
  ph = pair_hashes hasher

  abbrev nodes : List F → List F
  nodes = root_list hasher

  -- `Aligned o v n`: the new layer `n` is the old layer `o` without its unpaired element, then `v`.
  data Aligned : List F → List F → List F → Type 0 where
    even : (v : List F) → Aligned [] v v
    odd : (t : F) (v : List F) → Aligned (t ∷ []) (t ∷ v) (t ∷ v)
    pair : (a b : F) {o v n : List F} → Aligned o v n → Aligned (a ∷ b ∷ o) v (a ∷ b ∷ n)

  -- One layer up, the layers are aligned again, behind the old root where one is carried over.
  Aligned-pair_hashes :
      {o v n : List F} → Aligned o v n → Aligned (ph o) (odd_last (ph o) ++ ph v) (ph n)
  unfolding pair_hashes odd_last
  Aligned-pair_hashes (even v) = even _
  Aligned-pair_hashes (odd t v) = even _
  Aligned-pair_hashes (pair a b (even v)) = odd _ _
  Aligned-pair_hashes (pair a b (odd t v)) = odd _ _
  Aligned-pair_hashes (pair a b (pair c d r)) = pair _ _ (Aligned-pair_hashes r)

  Aligned-done : {o v n : List F} → Aligned o v n → v ≡ [] → n ≡ o
  Aligned-done (even v) e = e
  Aligned-done (odd t v) e = cc
  Aligned-done (pair a b r) e = ap (λ t. a ∷ b ∷ t) (Aligned-done r e)

  nodes-skip :
      (a b w : F) (n : List F) (rest : List F)
      → nodes n ≡ w ∷ rest
      → nodes (a ∷ b ∷ n) ≡ w ∷ nodes (ph (a ∷ b ∷ n))
  unfolding last_even
  nodes-skip a b w [] rest h = absurd (unfold roots in cc)
  nodes-skip a b w (c ∷ n) rest h =
      root_list-cons hasher a (b ∷ c ∷ n)
      ∙ ap (λ t. t ∷ nodes (ph (a ∷ b ∷ c ∷ n))) (cc (root_list-cons hasher c n))

  -- The root of the layer is the one of the part that is inserted.
  Aligned-nodes :
      {o v n : List F}
      → Aligned o v n
      → (x : F) (xs : List F) → v ≡ x ∷ xs
      → nodes n ≡ last_even x xs ∷ nodes (ph n)
  Aligned-nodes (even v) x xs e =
      subst (λ u. nodes u ≡ last_even x xs ∷ nodes (ph u)) (sym e) (root_list-cons hasher x xs)
  Aligned-nodes (odd t v) x xs e =
      subst (λ u. nodes u ≡ last_even x xs ∷ nodes (ph u)) (sym e) (root_list-cons hasher x xs)
  Aligned-nodes (pair a b {n = n} r) x xs e =
      nodes-skip a b (last_even x xs) n (nodes (ph n)) (Aligned-nodes r x xs e)

  put_root-nodes :
      (done o : List F) (v : F)
      → put_root (done ++ nodes o) (length done) v ≡ (done ++ v ∷ []) ++ nodes (ph o)
  unfolding pair_hashes roots
  put_root-nodes done [] v = put_root_end done v ∙ sym (append-nil _)
  put_root-nodes done (x ∷ xs) v = rw (root_list-cons hasher x xs) (
      put_root_at done (last_even x xs) (nodes (ph (x ∷ xs))) v
      ∙ sym (append_assoc done (v ∷ []) (nodes (ph (x ∷ xs)))))

  nodes-second :
      (o : List F) (x : F) (xs : List F)
      → ph o ≡ x ∷ xs
      → get_elem? (nodes o) 1 ≡ some (last_even x xs)
  nodes-second [] x xs h = absurd (unfold pair_hashes in cc)
  nodes-second (a ∷ o) x xs h = rw (root_list-cons hasher a o) (
      subst (λ u. get_elem? (nodes u) 0 ≡ some (last_even x xs)) (sym h)
        (rw (root_list-cons hasher x xs)))

  carried_from :
      (done o p : List F)
      → ph o ≡ p
      → carried_root (length p % 2 == 1) (done ++ nodes o) (length done) ≡ ok (odd_last p)
  unfolding carried_root odd_last
  carried_from done o [] h = refl
  carried_from done o (x ∷ xs) h = elim (Bool-cases (length (x ∷ xs) % 2 == 1)) [
    | inl one ↦
        rw (one, get_elem?-append done (nodes o) 1, nodes-second o x xs h)
          (ap ok (sym (odd_last-odd x xs (ground arith))))
    | inr zero_bit ↦ rw zero_bit (ap ok (sym (odd_last-even (x ∷ xs) (ground arith))))
  ]

  insert_next :
      (fuel : ℕ) (t_root temp : List F) (level : ℕ) (exps : List ℕ) (ll : ℕ) (r : Result (List F))
      → (temp ≡ [] → ok t_root ≡ r)
      → ((x : F) (xs : List F)
          → temp ≡ x ∷ xs
          → insert_shrubs_tree hasher fuel t_root temp level exps ll ≡ r)
      → (if is_empty temp
          then ok t_root
          else insert_shrubs_tree hasher fuel t_root temp level exps ll)
        ≡ r
  insert_next fuel t_root [] level exps ll r stop go = stop refl
  insert_next fuel t_root (x ∷ xs) level exps ll r stop go = go x xs refl

  -- One call of `insert_shrubs_tree`, by the value of its first test.
  abbrev insert_body : Bool → ℕ → List F → List F → ℕ → List ℕ → ℕ → Result (List F)
  insert_body should_insert fuel t_root vect level exps ll = do
    carried ← carried_root should_insert t_root level
    let temp = carried ++ ph vect
    node ← expect (get_elem? vect (last_index (length vect)))
    let t_root' = put_root t_root level node
    let ll' = if should_insert then ll + 1 else ll
    if is_empty temp
        then ok t_root'
        else insert_shrubs_tree hasher fuel t_root' temp (level + 1) exps ll'

  insert_shrubs_tree_step :
      (fuel : ℕ) (done o : List F) (x : F) (xs : List F) (exps : List ℕ) (ll : ℕ)
      → Follows exps ll (length done) (length o)
      → (let temp = odd_last (ph o) ++ ph (x ∷ xs) in
          let t_root = (done ++ last_even x xs ∷ []) ++ nodes (ph o) in
          let ll' = if length (ph o) % 2 == 1 then ll + 1 else ll in
          insert_shrubs_tree hasher (suc fuel) (done ++ nodes o) (x ∷ xs) (length done) exps ll ≡ (
            if is_empty temp
            then ok t_root
            else insert_shrubs_tree hasher fuel t_root temp (length done + 1) exps ll'))
  unfolding insert_shrubs_tree
  insert_shrubs_tree_step fuel done o x xs exps ll f =
      ap (λ b. insert_body b fuel (done ++ nodes o) (x ∷ xs) (length done) exps ll) test
      ∙ rw
          (
            carried_from done o (ph o) refl,
            get_elem?-last_index x xs,
            put_root-nodes done o (last_even x xs),
          )
          refl
    where
      test : should_insert_root (length done) exps ll ≡ (length (ph o) % 2 == 1)
      test =
          rw (length-pair_hashes hasher o)
            (should_insert-Follows exps ll (length done) (length o) f)

  Aligned-length : {o v n : List F} → Aligned o v n → length v ≤ length n
  Aligned-length (even v) = omega arith
  Aligned-length (odd t v) = omega arith
  Aligned-length (pair a b r) = omega (arith, Aligned-length r)

  insert_shrubs_tree-nodes :
      (fuel : ℕ) (done o : List F) (x : F) (xs n : List F) (exps : List ℕ) (ll : ℕ)
      → Aligned o (x ∷ xs) n
      → length n ≤ fuel
      → Follows exps ll (length done) (length o)
      → insert_shrubs_tree hasher fuel (done ++ nodes o) (x ∷ xs) (length done) exps ll
        ≡ ok (done ++ nodes n)
  insert_shrubs_tree-nodes zero done o x xs n exps ll al h f =
      absurd (omega (arith, Aligned-length al))
  insert_shrubs_tree-nodes (suc fuel) done o x xs n exps ll al h f =
      insert_shrubs_tree_step fuel done o x xs exps ll f
      ∙ insert_next fuel _ (odd_last (ph o) ++ ph (x ∷ xs)) (length done + 1) exps _ _
          (λ e.
            ap (λ t. ok ((done ++ last_even x xs ∷ []) ++ nodes t)) (sym (Aligned-done up e))
            ∙ whole)
          (λ y ys e.
            subst
              (λ v.
                insert_shrubs_tree hasher fuel (done' ++ nodes (ph o)) v (length done + 1) exps ll'
                ≡ ok (done ++ nodes n))
              (sym e)
              (subst
                (λ k.
                  insert_shrubs_tree hasher fuel (done' ++ nodes (ph o)) (y ∷ ys) k exps ll'
                  ≡ ok (done ++ nodes n))
                one_more
                (insert_shrubs_tree-nodes fuel done' (ph o) y ys (ph n) exps ll'
                    (subst (λ v. Aligned (ph o) v (ph n)) e up)
                    (omega (arith, length-pair_hashes hasher n, Aligned-length al)) follows
                  ∙ whole)))
    where
      done' : List F
      done' = done ++ last_even x xs ∷ []

      ll' : ℕ
      ll' = if length (ph o) % 2 == 1 then ll + 1 else ll

      one_more : length done' ≡ length done + 1
      one_more = length-append done (last_even x xs ∷ [])

      follows : Follows exps ll' (length done') (length (ph o))
      follows =
          rw (one_more, length-pair_hashes hasher o)
            (Follows-next exps ll (length done) (length o) f)

      up : Aligned (ph o) (odd_last (ph o) ++ ph (x ∷ xs)) (ph n)
      up = Aligned-pair_hashes al

      whole : ok ((done ++ last_even x xs ∷ []) ++ nodes (ph n)) ≡ ok (done ++ nodes n)
      whole = rw (Aligned-nodes al x xs refl, append_assoc)

  -- A tree of `old` leaves, split behind its last even position.
  Aligned-append : (old : List F) (new : List F) → Aligned old (odd_last old ++ new) (old ++ new)
  unfolding odd_last
  Aligned-append [] new = even new
  Aligned-append (t ∷ []) new = odd t new
  Aligned-append (a ∷ b ∷ old) new = pair a b (Aligned-append old new)

  insert_odd :
      (a : F) (o new : List F)
      → length (a ∷ o) % 2 ≡ 1
      → insert_from hasher
          (length (a ∷ o) + length new)
          (nodes (a ∷ o))
          new
          (0 ∷ bits (length (a ∷ o) / 2) 1 (length (a ∷ o) / 2))
        ≡ ok (nodes ((a ∷ o) ++ new))
  unfolding insert_from
  insert_odd a o new h = rw (ap (λ t. get_elem? t 0) (root_list-cons hasher a o)) (
      insert_shrubs_tree-nodes _ [] (a ∷ o) (last_even a o) new ((a ∷ o) ++ new) _ 1
        (subst (λ v. Aligned (a ∷ o) (v ++ new) ((a ∷ o) ++ new)) (odd_last-odd a o h)
          (Aligned-append (a ∷ o) new))
        (omega (arith, length-append (a ∷ o) new)) refl)

  insert_even :
      (a : F) (o : List F) (y : F) (ys : List F) (e : ℕ) (exps : List ℕ)
      → length (a ∷ o) % 2 ≡ 0
      → suc e ∷ exps ≡ bits (length (a ∷ o) / 2) 1 (length (a ∷ o) / 2)
      → insert_from hasher
          (length (a ∷ o) + length (y ∷ ys))
          (nodes (a ∷ o))
          (y ∷ ys)
          (suc e ∷ exps)
        ≡ ok (nodes ((a ∷ o) ++ (y ∷ ys)))
  unfolding insert_from
  insert_even a o y ys e exps h b =
      insert_shrubs_tree-nodes _ [] (a ∷ o) y ys ((a ∷ o) ++ (y ∷ ys)) _ 0
        (subst (λ v. Aligned (a ∷ o) (v ++ (y ∷ ys)) ((a ∷ o) ++ (y ∷ ys)))
          (odd_last-even (a ∷ o) h) (Aligned-append (a ∷ o) (y ∷ ys)))
        (omega (arith, length-append (a ∷ o) (y ∷ ys))) b

  insert_by :
      (a : F) (o : List F) (y : F) (ys : List F) (exps : List ℕ)
      → length (a ∷ o) % 2 ≡ 0
      → exps ≡ bits (length (a ∷ o) / 2) 1 (length (a ∷ o) / 2)
      → insert_from hasher (length (a ∷ o) + length (y ∷ ys)) (nodes (a ∷ o)) (y ∷ ys) exps
        ≡ ok (nodes ((a ∷ o) ++ (y ∷ ys)))
  insert_by a o y ys [] h b = absurd (bits-ne-nil _ 1 _ (omega arith) (omega arith) (sym b))
  insert_by a o y ys (zero ∷ exps) h b =
      absurd (omega (arith, bits_lower _ 1 _ 0 (sym (ap (λ t. get_elem? t 0) b))))
  insert_by a o y ys (suc e ∷ exps) h b = insert_even a o y ys e exps h b

  -- Inserting into the tree of the old leaves gives the tree of all leaves.
  insert_batch_devices-nodes :
      (a : F) (o : List F) (y : F) (ys : List F)
      → insert_batch_devices hasher (nodes (a ∷ o)) (a ∷ o) (y ∷ ys)
        ≡ ok (nodes ((a ∷ o) ++ (y ∷ ys)))
  unfolding insert_batch_devices
  insert_batch_devices-nodes a o y ys =
      rw (exponents_of_two-bits (length (a ∷ o))) (elim (Bool-cases (length (a ∷ o) % 2 == 1)) [
        | inl one ↦
            let h : length (a ∷ o) % 2 ≡ 1 = ground arith in
            rw
              (
                bits_odd (length o) 0 (length (a ∷ o)) h,
                bits_fuel (length o) (length (a ∷ o) / 2) 1 (length (a ∷ o) / 2) (omega arith)
                    (omega arith),
              )
              (insert_odd a o (y ∷ ys) h)
        | inr zero_bit ↦
            let h : length (a ∷ o) % 2 ≡ 0 = ground arith in
            insert_by a o y ys _ h (bits_rest_even (length (a ∷ o)) 0 h)
      ])

  -- After any first batch and any next one, neither of them empty, the root list that
  -- `insert_batch_devices` updates is the one that `create_batch_devices` builds from all leaves.
  pub insert_batch_devices-eq-create :
      (old_leaves new_leaves root : List F)
      → old_leaves ≢ []
      → new_leaves ≢ []
      → create_batch_devices hasher [] old_leaves ≡ ok root
      → insert_batch_devices hasher root old_leaves new_leaves
        ≡ create_batch_devices hasher [] (old_leaves ++ new_leaves)
  insert_batch_devices-eq-create [] new root p q c = absurd (p refl)
  insert_batch_devices-eq-create (a ∷ o) [] root p q c = absurd (q refl)
  insert_batch_devices-eq-create (a ∷ o) (y ∷ ys) root p q c =
      let e : root ≡ nodes (a ∷ o) = cc (create_batch_devices-roots hasher [] (a ∷ o)) in
      rw (e, create_batch_devices-roots hasher [] ((a ∷ o) ++ (y ∷ ys)))
        (insert_batch_devices-nodes a o y ys)
