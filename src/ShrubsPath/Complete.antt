-- ===== src/ShrubsPath/Complete.antt =====
-- The path that the verifier looks up against the membership check of the attester's circuit.
use native.Mathlib.Nat.{pow-suc, one-le-pow}
use mathlib.Core.Path.{subst}
use unified_attestation.Prelude.{
  ℕ, zero, suc, ◌+◌, ◌*◌, ◌/◌, ◌^◌, ◌≤◌, ◌<◌, ◌≡◌, ◌≢◌, refl, ap, sym, ◌∙◌, List, [], ◌∷◌, ◌++◌,
  ◌==◌, arith, if◌then◌else◌, inl, inr, Bool-cases, Bool, true, false, length, get_elem?, some,
  none, Option, le→leb, lt→leb, ==_refl,
}
use unified_attestation.Outcome.{Result, ok}
use unified_attestation.Shrubs.{Hasher, pair_hashes, create_batch_devices}
use unified_attestation.Shrubs.Layers.{length-pair_hashes, root_list, create_batch_devices-roots}
use unified_attestation.ShrubsPath.{
  AuthPath, sibling_index, sibling_tag, prepend, unzip_path, boundary_test, climb, find_shrubs_path,
  find_interval_index, find_device_shrubs_path_tag, climb_path, any_root, membership,
}
use unified_attestation.ShrubsPath.Intervals.{
  pair_hashes-split, layer, subtree_root, Located, alone, inside, find_interval_index-Located,
}

module _ {F : Type 0} where
  abbrev All {κ} : (F → Type κ) → List F → Type κ
  All P [] = Unit {κ}
  All P (x ∷ xs) = P x × All P xs

  All-append : (P : F → Type 0) (xs ys : List F) → All P (xs ++ ys) → All P xs × All P ys
  All-append P [] ys h = (tt, h)
  All-append P (x ∷ xs) ys h = let (a, b) = All-append P xs ys h.1 in ((h.0, a), b)

  All-get :
      (P : F → Type 0) (xs : List F) (i : ℕ) (x : F) → All P xs → get_elem? xs i ≡ some x → P x
  All-get P [] i x h g = absurd (cc)
  All-get P (y ∷ xs) zero x h g = let e : y ≡ x = cc in rw e at h.0
  All-get P (y ∷ xs) (suc i) x h g = All-get P xs i x h.1 g

  get_elem?-below : (xs : List F) (i : ℕ) → i < length xs → (x : F) × (get_elem? xs i ≡ some x)
  get_elem?-below [] i h = elim h [ ]
  get_elem?-below (x ∷ xs) zero h = (x, refl)
  get_elem?-below (x ∷ xs) (suc i) h = get_elem?-below xs i (omega arith)

  below-get_elem? : (xs : List F) (i : ℕ) (x : F) → get_elem? xs i ≡ some x → i < length xs
  below-get_elem? [] i x g = absurd (cc)
  below-get_elem? (y ∷ xs) zero x g = omega arith
  below-get_elem? (y ∷ xs) (suc i) x g = omega (arith, below-get_elem? xs i x g)

module _ {F : Type 0} (hasher : Hasher F) where
  open hasher use {hash, eq, eq_iff}

  abbrev ph : List F → List F
  ph = pair_hashes hasher

  -- The node above a leaf and its sibling, as the circuit hashes them.
  abbrev parent : F → F → Bool → F
  parent leaf sibling right = if right then hash leaf sibling else hash sibling leaf

  pair_hashes-parent :
      (xs : List F) (i : ℕ) (x s : F)
      → get_elem? xs i ≡ some x
      → get_elem? xs (sibling_index i) ≡ some s
      → get_elem? (ph xs) (i / 2) ≡ some (parent x s (sibling_tag i))
  unfolding pair_hashes
  pair_hashes-parent [] i x s g h = absurd (cc)
  pair_hashes-parent (a ∷ []) zero x s g h = absurd (cc)
  pair_hashes-parent (a ∷ []) (suc i) x s g h = absurd (cc)
  pair_hashes-parent (a ∷ b ∷ xs) zero x s g h = ground arith
  pair_hashes-parent (a ∷ b ∷ xs) (suc zero) x s g h = ground arith
  pair_hashes-parent (a ∷ b ∷ xs) (suc (suc i)) x s g h =
      subst (λ t. get_elem? (hash a b ∷ ph xs) (suc (suc i) / 2) ≡ some (parent x s t))
        (sym same_tag)
        (rw half (
          pair_hashes-parent xs i x s g
            (subst (λ k. get_elem? (a ∷ b ∷ xs) k ≡ some s) same_sibling h)))
    where
      half : suc (suc i) / 2 ≡ suc (i / 2)
      half = omega arith

      same_tag : sibling_tag (suc (suc i)) ≡ sibling_tag i
      same_tag = ground arith

      same_sibling : sibling_index (suc (suc i)) ≡ suc (suc (sibling_index i))
      same_sibling = ground arith

  any_root-get_elem? :
      (root : List F) (i : ℕ) (x : F) → get_elem? root i ≡ some x → any_root hasher x root ≡ true
  unfolding any_root
  any_root-get_elem? [] i x g = absurd (cc)
  any_root-get_elem? (r ∷ root) zero x g = let e : x ≡ r = cc in rw ((eq_iff x r).1 e)
  any_root-get_elem? (r ∷ root) (suc i) x g = ground (arith, any_root-get_elem? root i x g)

  only : (top : F) (i : ℕ) (x : F) → get_elem? (top ∷ []) i ≡ some x → top ≡ x
  only top zero x g = cc
  only top (suc i) x g = absurd (cc)

  sibling :
      (leaves : List F) (m value : ℕ)
      → length leaves ≡ 2 ^ suc m
      → value < length leaves
      → (s : F) × (get_elem? leaves (sibling_index value) ≡ some s)
  sibling leaves m value q v =
      get_elem?-below leaves (sibling_index value) (ground (arith, pow-suc 2 m))

  -- A path leads from the leaf to a root, and only the first root has none.
  abbrev Good : List F → F → F → Option (AuthPath F) → Type 0
  Good root r0 leaf none = leaf ≡ r0
  Good root r0 leaf (some (path, tag)) =
      (length path ≡ length tag) × (any_root hasher (climb_path hasher leaf path tag) root ≡ true)

  -- No node above the leaves has the value of the first root.
  abbrev pub CollisionFree : F → List F → Type 0
  CollisionFree r0 leaves = (i : ℕ) → All (λ x. x ≢ r0) (layer hasher (suc i) leaves)

  module _ (root : List F) (r0 : F) (g0 : get_elem? root 0 ≡ some r0) where
    Found : F → Result (Option (AuthPath F)) → Type 0
    Found leaf r = (o : Option (AuthPath F)) × (r ≡ ok o) × Good root r0 leaf o

    stop_here :
        (leaf s : F) (right : Bool) (i : ℕ)
        → get_elem? root i ≡ some (parent leaf s right)
        → Good root r0 leaf (some (s ∷ [], right ∷ []))
    unfolding climb_path
    stop_here leaf s right i g = (refl, any_root-get_elem? root i _ g)

    Good-prepend :
        (leaf s : F) (right : Bool) (o : Option (AuthPath F))
        → parent leaf s right ≢ r0
        → Good root r0 (parent leaf s right) o
        → Good root r0 leaf (prepend s right o)
    unfolding climb_path
    Good-prepend leaf s right none n g = absurd (n g)
    Good-prepend leaf s right (some (path, tag)) n g = (ap suc g.0, g.1)

    climb-Found :
        (temp : List F) (next_j val : ℕ) (leaf s above : F) (right : Bool)
        (sub : Result (Option (AuthPath F)))
        → get_elem? temp val ≡ some (parent leaf s right)
        → get_elem? root next_j ≡ some above
        → 2 ≤ length temp
        → parent leaf s right ≢ r0
        → Found (parent leaf s right) sub
        → Found leaf (climb hasher root temp next_j val s right sub)
    unfolding climb Found
    climb-Found temp next_j val leaf s above right sub gv ga two n (o, e, good) =
        rw
          (
            le→leb 2 (length temp) two,
            lt→leb (length temp) val (below-get_elem? temp val _ gv),
            lt→leb (length root) next_j (below-get_elem? root next_j above ga),
            gv,
            ga,
          )
          (elim (Bool-cases (eq (parent leaf s right) above)) [
            | inl same ↦
                let a : above ≡ parent leaf s right = sym ((eq_iff _ above).0 same) in
                rw same (_, refl, stop_here leaf s right next_j (ga ∙ ap some a))
            | inr differ ↦
                rw (differ, e) (prepend s right o, refl, Good-prepend leaf s right o n good)
          ])

    boundary :
        (leaves : List F) (value : ℕ) (leaf : F)
        → 2 ≤ length leaves
        → get_elem? leaves value ≡ some leaf
        → boundary_test hasher root leaves value ≡ ok (eq r0 leaf)
    unfolding boundary_test
    boundary leaves value leaf two g = rw (le→leb 2 (length leaves) two, g0, g)

    -- One call of `find_shrubs_path` on a leaf with a sibling.
    find_shrubs_path_step :
        (fuel j value : ℕ) (leaves : List F) (leaf s : F)
        → 2 ≤ length leaves
        → get_elem? leaves value ≡ some leaf
        → get_elem? leaves (sibling_index value) ≡ some s
        → Found leaf (
            climb hasher root
              (ph leaves)
              (j + 1)
              (value / 2)
              s
              (sibling_tag value)
              (find_shrubs_path hasher fuel root (ph leaves) (j + 1) (value / 2)))
        → Found leaf (find_shrubs_path hasher (suc fuel) root leaves j value)
    unfolding find_shrubs_path Found
    find_shrubs_path_step fuel j value leaves leaf s two g gs found =
        let some_leaves : (length leaves == 0) ≡ false = ground arith in
        rw (boundary leaves value leaf two g) (elim (Bool-cases (eq r0 leaf)) [
          | inl same ↦ rw same (none, refl, sym ((eq_iff r0 leaf).0 same))
          | inr differ ↦
              rw
                (
                  differ,
                  some_leaves,
                  lt→leb (length leaves) value (below-get_elem? leaves value leaf g),
                  gs,
                )
                found
        ])

    last_climb :
        (temp : List F) (next_j val : ℕ) (leaf s top : F) (right : Bool)
        (sub : Result (Option (AuthPath F)))
        → temp ≡ top ∷ []
        → get_elem? temp val ≡ some (parent leaf s right)
        → get_elem? root next_j ≡ some top
        → Found leaf (climb hasher root temp next_j val s right sub)
    unfolding climb Found
    last_climb temp next_j val leaf s top right sub e gv t =
        let here : top ≡ parent leaf s right = only top val _ (rw e at gv) in
        rw e (_, refl, stop_here leaf s right next_j (t ∙ ap some here))

    find_shrubs_path-Found :
        (m fuel j value : ℕ) (leaves : List F) (leaf top : F)
        → length leaves ≡ 2 ^ suc m
        → length leaves ≤ fuel
        → get_elem? leaves value ≡ some leaf
        → layer hasher (suc m) leaves ≡ top ∷ []
        → get_elem? root (j + suc m) ≡ some top
        → CollisionFree r0 leaves
        → Found leaf (find_shrubs_path hasher fuel root leaves j value)
    find_shrubs_path-Found m zero j value leaves leaf top q f g l t c =
        absurd (omega (arith, pow-suc 2 m, one-le-pow m 2))
    find_shrubs_path-Found zero (suc fuel) j value leaves leaf top q f g l t c =
        let v : value < length leaves = below-get_elem? leaves value leaf g in
        let (s, gs) = sibling leaves zero value q v in
        find_shrubs_path_step fuel j value leaves leaf s (omega (arith, pow-suc 2 0)) g gs (
          last_climb (ph leaves) (j + 1) (value / 2) leaf s top (sibling_tag value) _
            (unfold layer in l) (pair_hashes-parent leaves value leaf s g gs) t)
    find_shrubs_path-Found (suc m) (suc fuel) j value leaves leaf top q f g l t c =
        let v : value < length leaves = below-get_elem? leaves value leaf g in
        let (s, gs) = sibling leaves (suc m) value q v in
        let gv = pair_hashes-parent leaves value leaf s g gs in
        let (above, ga) =
          get_elem?-below root (j + 1)
            (omega (arith, below-get_elem? root (j + suc (suc m)) top t)) in
        let half : length (ph leaves) ≡ 2 ^ suc m =
          omega (arith, length-pair_hashes hasher leaves, q, pow-suc 2 (suc m)) in
        let wide : 2 ≤ length (ph leaves) = omega (arith, half, pow-suc 2 m, one-le-pow m 2) in
        let same : j + suc (suc m) ≡ j + 1 + suc m = omega arith in
        find_shrubs_path_step fuel j value leaves leaf s
          (omega (arith, length-pair_hashes hasher leaves)) g gs
          (climb-Found (ph leaves) (j + 1) (value / 2) leaf s above (sibling_tag value) _ gv ga wide
            (All-get (λ x. x ≢ r0) (ph leaves) (value / 2) _ (unfold layer in c 0) gv)
            (find_shrubs_path-Found m fuel (j + 1) (value / 2) (ph leaves) _ top half
              (omega (arith, length-pair_hashes hasher leaves)) gv (unfold layer in l)
              (rw same at t) (λ i. unfold layer in c (suc i))))

  layer-nil : (i : ℕ) → layer hasher i [] ≡ []
  unfolding layer pair_hashes
  layer-nil zero = refl
  layer-nil (suc i) = layer-nil i

  -- The layers of a subtree are parts of the layers of the tree.
  CollisionFree-subtree :
      (r0 : F) (m k : ℕ) (before here after : List F)
      → length before ≡ k * 2 ^ suc m
      → length here ≡ 2 ^ m
      → CollisionFree r0 (before ++ (here ++ after))
      → CollisionFree r0 here
  unfolding layer pair_hashes
  CollisionFree-subtree r0 zero k before [] after p q c i = absurd (omega arith)
  CollisionFree-subtree r0 zero k before (x ∷ []) after p q c i = rw (layer-nil i) tt
  CollisionFree-subtree r0 zero k before (x ∷ y ∷ xs) after p q c i = absurd (omega arith)
  CollisionFree-subtree r0 (suc m) k before here after p q c zero =
      let (split, p', q') = pair_hashes-split hasher m k before here after p q in
      let both = All-append (λ x. x ≢ r0) (ph before) _ (rw split at (c 0)) in
      (All-append (λ x. x ≢ r0) (ph here) (ph after) both.1).0
  CollisionFree-subtree r0 (suc m) k before here after p q c (suc i) =
      let (split, p', q') = pair_hashes-split hasher m k before here after p q in
      CollisionFree-subtree r0 m k (ph before) (ph here) (ph after) p' q'
        (subst (λ t. (i : ℕ) → All (λ x. x ≢ r0) (layer hasher (suc i) t)) split (λ n. c (suc n))) i

  Accepted : List F → F → Result (Option (List F) × Option (List Bool)) → Type 0
  Accepted root leaf r =
      (path : Option (List F)) × (tag : Option (List Bool)) × (r ≡ ok (path, tag))
      × (membership hasher root leaf path tag ≡ ok true)

  Good-Accepted :
      (root : List F) (r0 leaf : F) (o : Option (AuthPath F))
      → get_elem? root 0 ≡ some r0
      → Good root r0 leaf o
      → Accepted root leaf (ok (unzip_path o))
  unfolding Accepted membership
  Good-Accepted root r0 leaf none g good = (none, none, refl, rw (g, (eq_iff leaf r0).1 good))
  Good-Accepted root r0 leaf (some (path, tag)) g (l, a) =
      (some path, some tag, refl, rw (l, ==_refl (length tag)) (ap ok a))

  from_location :
      (leaves : List F) (r0 leaf : F) (o : Option (List F × ℕ))
      → get_elem? (root_list hasher leaves) 0 ≡ some r0
      → CollisionFree r0 leaves
      → find_interval_index hasher leaves leaf ≡ ok o
      → Located hasher leaves leaf o
      → Accepted
          (root_list hasher leaves)
          leaf
          (find_device_shrubs_path_tag hasher (root_list hasher leaves) leaves leaf)
  unfolding find_device_shrubs_path_tag Found
  from_location leaves r0 leaf o g0 c e (alone g) =
      rw (e, find_device_shrubs_path_tag)
        (Good-Accepted (root_list hasher leaves) leaf leaf none g refl)
  from_location leaves r0 leaf o g0 c e (inside m k i before here after w p q r g) =
      let (top, l, t) = subtree_root hasher (suc m) k before here after p q r in
      let whole : get_elem? (root_list hasher leaves) (0 + suc m) ≡ some top =
        ap (get_elem? (root_list hasher leaves)) (omega arith)
        ∙ subst (λ u. get_elem? (root_list hasher u) (suc m) ≡ some top) w t in
      let free : CollisionFree r0 here =
        CollisionFree-subtree r0 (suc m) k before here after p q
          (subst (CollisionFree r0) (sym w) c) in
      let (found, ef, good) =
        find_shrubs_path-Found (root_list hasher leaves) r0 g0 m (length here) 0 i here leaf top q
          (omega arith) g l whole free in
      rw (e, ef, find_device_shrubs_path_tag)
        (Good-Accepted (root_list hasher leaves) r0 leaf found g0 good)

  -- For every leaf of a tree that `create_batch_devices` built, `find_device_shrubs_path_tag`
  -- ends without a panic and its answer satisfies the membership constraints of the circuit: a
  -- path of equally many tags that leads from the leaf to a root, or no path for a leaf that is
  -- the first root, which the circuit then compares with that root. The condition is that no node
  -- above the leaves has the value of the first root.
  pub find_device_shrubs_path_tag-membership :
      (leaves root : List F) (leaf r0 : F) (index : ℕ)
      → create_batch_devices hasher [] leaves ≡ ok root
      → get_elem? root 0 ≡ some r0
      → CollisionFree r0 leaves
      → get_elem? leaves index ≡ some leaf
      → (path : Option (List F)) × (tag : Option (List Bool)) × (find_device_shrubs_path_tag hasher
            root leaves leaf
          ≡ ok (path, tag))
        × (membership hasher root leaf path tag ≡ ok true)
  unfolding Accepted
  find_device_shrubs_path_tag-membership leaves root leaf r0 index built g0 c g =
      let e : root ≡ root_list hasher leaves = cc (create_batch_devices-roots hasher [] leaves) in
      let (o, f, located) = find_interval_index-Located hasher leaves leaf index g in
      rw e (from_location leaves r0 leaf o (rw e at g0) c f located)
