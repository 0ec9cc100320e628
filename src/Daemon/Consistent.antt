-- ===== src/Daemon/Consistent.antt =====
-- verifier/src/hydra_daemon.rs: the state of the verifier stays consistent with the accumulator.
use unified_attestation.Prelude.{
  ◌↔◌, ℕ, zero, suc, ◌+◌, ◌<◌, ◌≤◌, ◌==◌, ◌≡◌, ◌≢◌, refl, sym, ap, ◌∙◌, Bool, true, false, Option,
  none, some, List, [], ◌∷◌, ◌++◌, length, get_elem?, set, take, arith, length-append, length-set,
  length-take, append-nil, ◌⊎◌, inl, inr, Bool-cases, Option-cases,
}
use unified_attestation.Outcome.{ok}
use unified_attestation.Crypto.{Crypto}
use unified_attestation.Shrubs.{create_loop, create_batch_devices}
use unified_attestation.Shrubs.Layers.{create_batch_devices-roots}
use unified_attestation.Shrubs.Insert.{insert_batch_devices-eq-create}
use unified_attestation.Shrubs.Owner.{affected_indices_lem, affected_indices-positive, contains}
use unified_attestation.Messages.Typed.{DeviceClientInfor, ResponseDeviceInfor}
use unified_attestation.Daemon.{
  AttesterSession, VerifierState, Batch, zero_based, replicate, mark, unmarked,
  affected_old_indices, new_state, queue_attester, leaves_of, after_batch, batch_of, batch_root,
  run_batch, process_batch, store_response, queued, batched, responded, Reachable, start, next,
}

zero_based_total : (xs : List ℕ) → contains 0 xs ≡ false → (ys : List ℕ) × (zero_based xs ≡ ok ys)
unfolding contains
zero_based_total [] h = ([], refl)
zero_based_total (zero ∷ xs) h = absurd cc
zero_based_total (suc x ∷ xs) h =
    let (ys, e) = zero_based_total xs (ground arith) in (x ∷ ys, rw e refl)

affected_old_total :
    (old inserted : ℕ) → 0 < inserted → (xs : List ℕ) × (affected_old_indices old inserted ≡ ok xs)
unfolding affected_old_indices
affected_old_total zero ins h = ([], refl)
affected_old_total (suc n) ins h =
    let (xs, e, k) = affected_indices_lem (suc n) ins (omega arith) h in
    let (ys, e') =
      zero_based_total xs (affected_indices-positive (suc n) ins xs (omega arith) h e) in
    (ys, rw (e, e') refl)

pub length-replicate : (n : ℕ) → length (replicate n) ≡ n
length-replicate zero = refl
length-replicate (suc n) = ap suc (length-replicate n)

pub length-mark : (xs : List ℕ) (flags : List Bool) → length (mark xs flags) ≡ length flags
length-mark [] flags = refl
length-mark (x ∷ xs) flags = length-mark xs (set flags x true) ∙ length-set flags x true

unmarked_total :
    {A : Type 0} (i : ℕ) (items : List A) (flags : List Bool)
    → length items ≤ length flags
    → (xs : List (ℕ × A)) × (unmarked i items flags ≡ ok xs)
unmarked_total i [] flags h = ([], refl)
unmarked_total i (a ∷ items) [] h = absurd (omega arith)
unmarked_total i (a ∷ items) (true ∷ flags) h = unmarked_total (i + 1) items flags (omega arith)
unmarked_total i (a ∷ items) (false ∷ flags) h =
    let (xs, e) = unmarked_total (i + 1) items flags (omega arith) in ((i, a) ∷ xs, rw e refl)

module _ (c : Crypto) where
  -- The roots are those of a tree of the active attesters' leaves, in their order, and a batch
  -- timer runs exactly while attesters wait.
  pub record IsVerifierState (st : VerifierState c) : Type 0 where
    pub leaves_eq : st.old_leaves ≡ leaves_of c st.active
    pub created : st.has_created_tree ≡ true → st.old_leaves ≢ []
    pub not_created : st.has_created_tree ≡ false → st.old_leaves ≡ []
    pub root_eq : create_batch_devices c.hasher [] st.old_leaves ≡ ok st.root
    pub timer : (st.batch_timer_running ≡ false) ↔ (st.pending ≡ [])

module _ {c : Crypto} where
  new_state-IsVerifierState : IsVerifierState c (new_state c)
  unfolding new_state create_batch_devices create_loop
  new_state-IsVerifierState = record {
    leaves_eq = refl;
    created = λ h. absurd (cc h);
    not_created = λ h. refl;
    root_eq = refl;
    timer = (λ h. refl, λ h. refl);
  }

  queue_attester-IsVerifierState :
      (socket : ℕ) (dev_infor : DeviceClientInfor c) (addr : List ℕ) (st : VerifierState c)
      → IsVerifierState c st
      → IsVerifierState c (queue_attester c socket dev_infor addr st).0
  unfolding queue_attester
  queue_attester-IsVerifierState socket dev_infor addr st h = record {
    leaves_eq = h.leaves_eq;
    created = h.created;
    not_created = h.not_created;
    root_eq = h.root_eq;
    timer = (λ e. absurd (cc e), λ e. absurd (nonempty st.pending _ e));
  }
    where
      nonempty : {A : Type 0} (xs : List A) (x : A) → (xs ++ (x ∷ []) ≡ []) → ⊥
      nonempty [] x e = cc
      nonempty (y ∷ xs) x e = cc

  leaves_of-set :
      (sessions : List (AttesterSession c)) (i : ℕ) (item : AttesterSession c)
      (response : ResponseDeviceInfor c)
      → get_elem? sessions i ≡ some item
      → leaves_of c (set sessions i (record item { response = some response }))
        ≡ leaves_of c sessions
  leaves_of-set [] i item r h = refl
  leaves_of-set (s ∷ ss) zero item r h =
      let same : s ≡ item = cc in ap (λ i. i.merkle_leaf ∷ leaves_of c ss) (sym same)
  leaves_of-set (s ∷ ss) (suc i) item r h =
      ap (λ t. s.merkle_leaf ∷ t) (leaves_of-set ss i item r h)

  map-append :
      (xs ys : List (AttesterSession c)) → leaves_of c (xs ++ ys) ≡ leaves_of c xs ++ leaves_of c ys
  map-append [] ys = refl
  map-append (x ∷ xs) ys = ap (λ t. x.merkle_leaf ∷ t) (map-append xs ys)

  leaves_of-nonempty : (xs : List (AttesterSession c)) → xs ≢ [] → leaves_of c xs ≢ []
  leaves_of-nonempty [] h e = h refl
  leaves_of-nonempty (x ∷ xs) h e = cc

  batch_root_lem :
      (st : VerifierState c)
      → IsVerifierState c st
      → st.pending ≢ []
      → (root : List c.Scalar) × (batch_root c st (leaves_of c st.pending) ≡ ok root)
        × (create_batch_devices c.hasher [] (st.old_leaves ++ leaves_of c st.pending) ≡ ok root)
  unfolding batch_root
  batch_root_lem st h some_pending =
      let all = st.old_leaves ++ leaves_of c st.pending in
      let made = create_batch_devices-roots c.hasher [] all in
      elim (Bool-cases st.has_created_tree) [
        | inl t ↦
            let same =
              insert_batch_devices-eq-create c.hasher st.old_leaves (leaves_of c st.pending) st.root
                (h.created t) (leaves_of-nonempty st.pending some_pending) h.root_eq in
            (_, rw t (same ∙ made), made)
        | inr f ↦ (_, rw f made, made)
      ]

  -- What a batch leaves behind: the attesters that waited are active, after those that were.
  pub record Batched (st st' : VerifierState c) : Type 0 where
    pub consistent : IsVerifierState c st'
    pub active_eq : st'.active ≡ st.active ++ st.pending
    pub pending_eq : st'.pending ≡ []

  run_batch_lem :
      (verifier_pk : c.VerifyingKey) (st : VerifierState c)
      → IsVerifierState c st
      → st.pending ≢ []
      → (st' : VerifierState c) × (batch : Option (Batch c)) × (run_batch c verifier_pk st
          ≡ ok (st', batch))
        × Batched st st'
  unfolding run_batch
  run_batch_lem verifier_pk st h some_pending =
      let (root, e1, made) = batch_root_lem st h some_pending in
      let (affected, e2) =
        affected_old_total (length st.active) (length st.pending)
          (positive st.pending some_pending) in
      let (unaffected, e3) =
        unmarked_total 0 (take (length st.active) (st.active ++ st.pending))
          (mark affected (replicate (length st.active))) (enough affected) in
      (
        after_batch c st root,
        some (batch_of c verifier_pk st root affected unaffected),
        rw (e1, e2, e3) refl,
        record {
          consistent = record {
            leaves_eq = rw h.leaves_eq (sym (map-append st.active st.pending));
            created = λ t.
                nonempty st.old_leaves (leaves_of c st.pending)
                  (leaves_of-nonempty st.pending some_pending);
            not_created = λ e. absurd cc;
            root_eq = made;
            timer = (λ e. refl, λ e. refl);
          };
          active_eq = refl;
          pending_eq = refl;
        },
      )
    where
      positive : {A : Type 0} (xs : List A) → xs ≢ [] → 0 < length xs
      positive [] h = absurd (h refl)
      positive (x ∷ xs) h = omega arith

      nonempty : {A : Type 0} (xs ys : List A) → ys ≢ [] → xs ++ ys ≢ []
      nonempty [] ys h e = h e
      nonempty (x ∷ xs) ys h e = cc

      enough :
          (affected : List ℕ)
          → length (take (length st.active) (st.active ++ st.pending))
            ≤ length (mark affected (replicate (length st.active)))
      enough affected = omega (
        arith,
        length-append st.active st.pending,
        length-take (length st.active) (st.active ++ st.pending)
            (omega (arith, length-append st.active st.pending)),
        length-mark affected (replicate (length st.active)),
        length-replicate (length st.active),
      )

  -- On a consistent state the part of a batch that runs under the lock never panics; what is
  -- computed and sent after it is not part of this. It leaves a consistent state: the attesters
  -- that waited are active, after those that were, nobody waits, and the roots, which a later batch
  -- computes by inserting into the tree, are those of a tree of all the leaves.
  pub process_batch-Batched :
      (verifier_pk : c.VerifyingKey) (st : VerifierState c)
      → IsVerifierState c st
      → (st' : VerifierState c) × (batch : Option (Batch c)) × (process_batch c verifier_pk st
          ≡ ok (st', batch))
        × Batched st st'
  unfolding process_batch
  process_batch-Batched verifier_pk st h = elim (list_cases st.pending) [
    | inl none_pending ↦ (
      record st { batch_timer_running = false },
      none,
      rw none_pending refl,
      record {
        consistent = record {
          leaves_eq = h.leaves_eq;
          created = h.created;
          not_created = h.not_created;
          root_eq = h.root_eq;
          timer = (λ e. none_pending, λ e. refl);
        };
        active_eq = rw (none_pending, append-nil) refl;
        pending_eq = none_pending;
      },
    )
    | inr (some_pending, counted) ↦
        let (st', batch, e, b) = run_batch_lem verifier_pk st h some_pending in
        (st', batch, rw counted e, b)
  ]
    where
      list_cases : {A : Type 0} (xs : List A) → (xs ≡ []) ⊎ ((xs ≢ []) × ((length xs == 0) ≡ false))
      list_cases [] = inl refl
      list_cases (x ∷ xs) = inr ((λ e. cc), ground arith)

  store_response-IsVerifierState :
      (i : ℕ) (r : ResponseDeviceInfor c) (st : VerifierState c)
      → IsVerifierState c st
      → IsVerifierState c (store_response c i r st)
  unfolding store_response
  store_response-IsVerifierState i r st h = elim (Option-cases (get_elem? st.active i)) [
    | inl e ↦ rw e h
    | inr (item, e) ↦ rw e (record {
      leaves_eq = h.leaves_eq ∙ sym (leaves_of-set st.active i item r e);
      created = h.created;
      not_created = h.not_created;
      root_eq = h.root_eq;
      timer = h.timer;
    })
  ]

  pub Reachable-IsVerifierState : (st : VerifierState c) → Reachable c st → IsVerifierState c st
  Reachable-IsVerifierState _ start = new_state-IsVerifierState
  Reachable-IsVerifierState _ (next {st = st} r (queued socket dev addr)) =
      queue_attester-IsVerifierState socket dev addr st (Reachable-IsVerifierState st r)
  Reachable-IsVerifierState st' (next {st = st} r (batched k e)) =
      let (st'', batch, e', b) = process_batch-Batched k st (Reachable-IsVerifierState st r) in
      let same : st' ≡ st'' = cc in rw same b.consistent
  Reachable-IsVerifierState _ (next {st = st} r (responded i response)) =
      store_response-IsVerifierState i response st (Reachable-IsVerifierState st r)
