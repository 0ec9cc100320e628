-- ===== src/Delivery/Groups.antt =====
-- verifier/src/hydra_daemon.rs: which of the three groups of a batch an attester is in.
use unified_attestation.Prelude.{
  ℕ, zero, suc, ◌+◌, ◌<◌, ◌≤◌, ◌==◌, ==_iff, ◌≡◌, ◌⊎◌, inl, inr, sym, ap, ◌∙◌, true, false, Option,
  none, some, List, [], ◌∷◌, ◌++◌, length, length-append, get_elem?, take, arith, Bool-cases, leb,
  leb→le,
}
use unified_attestation.Outcome.{ok_inj, Result, ok, ok->>=}
use unified_attestation.Crypto.{Crypto}
use unified_attestation.Shrubs.{find_owner_root}
use unified_attestation.Shrubs.Owner.{contains, affected_indices_lem, owner_stays-or-changes}
use unified_attestation.Daemon.{
  replicate, mark, unmarked, range, zero_based, AttesterSession, VerifierState, Batch, run_batch,
  batch_root, leaves_of, after_batch, batch_of, affected_old_indices, process_batch,
}
use unified_attestation.Daemon.Consistent.{length-mark, length-replicate}
use unified_attestation.Delivery.Everyone.{
  In, In-snapshots_at, In-range, In-unmarked, mark-In, replicate-false, get_elem?-length,
  length-get_elem?, get_elem?-take,
}

pair_inj :
    {A B : Type 0} {a a' : A} {b b' : B}
    → ◌≡◌ {A = Result (A × Option B)} (ok (a, some b)) (ok (a', some b'))
    → (a ≡ a') × (b ≡ b')
pair_inj h = let same = ok_inj h in (ap (λ p. p.0) same, some_inj (ap (λ p. p.1) same))
  where
    some_inj : {B : Type 0} {x y : B} → some x ≡ some y → x ≡ y
    some_inj h = cc

contains→In :
    (xs ys : List ℕ) (i : ℕ) → zero_based xs ≡ ok ys → contains (suc i) xs ≡ true → In i ys
unfolding contains
contains→In [] ys i h inside = absurd cc
contains→In (zero ∷ xs) ys i h inside = absurd cc
contains→In (suc x ∷ xs) ys i h inside =
    let (rest, e, made) = ok->>= (zero_based xs) _ h in
    rw (sym (ok_inj made)) (elim (Bool-cases (x == i)) [
      | inl here ↦ inl (sym ((==_iff x i).0 here))
      | inr other ↦
          let further : contains (suc i) xs ≡ true = ground (arith, other, inside) in
          inr (contains→In xs rest i e further)
    ])

In→contains :
    (xs ys : List ℕ) (i : ℕ) → zero_based xs ≡ ok ys → In i ys → contains (suc i) xs ≡ true
unfolding contains
In→contains [] ys i h inside = absurd (rw (sym (ok_inj h)) at inside)
In→contains (zero ∷ xs) ys i h inside = absurd cc
In→contains (suc x ∷ xs) ys i h inside =
    let (rest, e, made) = ok->>= (zero_based xs) _ h in
    let there : In i (x ∷ rest) = rw (sym (ok_inj made)) at inside in
    elim there [
      | inl here ↦ rw here (ground arith)
      | inr later ↦ let further = In→contains xs rest i e later in ground (arith, further)
    ]

-- The root that owns the attester's leaf, by its index counted from 1, before the insertion and
-- after it.
abbrev pub OwnerStays : ℕ → ℕ → ℕ → Type 0
OwnerStays old_total inserted i =
    find_owner_root (suc i) old_total ≡ find_owner_root (suc i) (old_total + inserted)

affected_old_indices-OwnerStays :
    (old inserted i : ℕ) (affected : List ℕ)
    → i < old
    → 0 < inserted
    → affected_old_indices old inserted ≡ ok affected
    → (¬ OwnerStays old inserted i × In i affected) ⊎ (OwnerStays old inserted i × ¬ In i affected)
unfolding affected_old_indices
affected_old_indices-OwnerStays zero inserted i affected old new h = absurd (omega arith)
affected_old_indices-OwnerStays (suc n) inserted i affected old new h =
    let (xs, e, exactly) = affected_indices_lem (suc n) inserted (omega arith) new in
    let (xs', e', zeroed) = ok->>= _ zero_based h in
    let same : xs' ≡ xs = ok_inj (sym e' ∙ e) in
    let based : zero_based xs ≡ ok affected = rw same at zeroed in
    let changes = exactly (suc i) (omega arith) (omega arith) in
    elim (owner_stays-or-changes (suc i) (suc n) (suc n + inserted) (omega arith) (omega arith)
      (omega arith)) [
        | inl stays ↦
            inr (stays, λ inside. changes.0 (In→contains xs affected i based inside) stays)
        | inr moves ↦ inl (moves, contains→In xs affected i based (changes.1 moves))
      ]

module _ {c : Crypto} where
  record Ran (verifier_pk : c.VerifyingKey) (st st' : VerifierState c) (batch : Batch c)
      : Type 0 where
    pub root : List c.Scalar
    pub affected : List ℕ
    pub unaffected : List (ℕ × AttesterSession c)
    pub affected_eq : affected_old_indices (length st.active) (length st.pending) ≡ ok affected
    pub skipped :
        unmarked 0
          (take (length st.active) (st.active ++ st.pending))
          (mark affected (replicate (length st.active)))
        ≡ ok unaffected
    pub state_eq : after_batch c st root ≡ st'
    pub batch_eq : batch_of c verifier_pk st root affected unaffected ≡ batch

  run_batch-Ran :
      (verifier_pk : c.VerifyingKey) (st st' : VerifierState c) (batch : Batch c)
      → run_batch c verifier_pk st ≡ ok (st', some batch)
      → Ran verifier_pk st st' batch
  unfolding run_batch
  run_batch-Ran verifier_pk st st' batch h =
      let (root, e1, h1) = ok->>= (batch_root c st (leaves_of c st.pending)) _ h in
      let (affected, e2, h2) =
        ok->>= (affected_old_indices (length st.active) (length st.pending)) _ h1 in
      let (unaffected, e3, h3) =
        ok->>= (unmarked 0 (take (length st.active) (st.active ++ st.pending)) _) _ h2 in
      let same = pair_inj h3 in
      record {
        root = root;
        affected = affected;
        unaffected = unaffected;
        affected_eq = e2;
        skipped = e3;
        state_eq = same.0;
        batch_eq = same.1;
      }

  -- The attester is new, or its leaf has another owner root than before the batch.
  abbrev pub PathIsNew : VerifierState c → ℕ → Type 0
  PathIsNew st i =
      (length st.active ≤ i)
      ⊎ ((i < length st.active) × (¬ OwnerStays (length st.active) (length st.pending) i))

  -- The attester was active before, and its leaf has the owner root it had.
  abbrev pub PathStays : VerifierState c → ℕ → Type 0
  PathStays st i = (i < length st.active) × OwnerStays (length st.active) (length st.pending) i

  -- An attester that is new, one whose owner root is another one now, and one whose stays.
  abbrev pub Grouped : VerifierState c → ℕ × AttesterSession c → Batch c → Type 0
  Grouped st p batch =
      ((length st.active ≤ p.0) × In p batch.new_sessions)
      ⊎ (((p.0 < length st.active)
            × (¬ OwnerStays (length st.active) (length st.pending) p.0)
            × In p batch.affected_old)
          ⊎ ((p.0 < length st.active)
              × OwnerStays (length st.active) (length st.pending) p.0
              × In p batch.unaffected_old))

  In-unaffected :
      (st : VerifierState c) (affected : List ℕ) (unaffected : List (ℕ × AttesterSession c)) (i : ℕ)
      (item : AttesterSession c)
      → unmarked 0
          (take (length st.active) (st.active ++ st.pending))
          (mark affected (replicate (length st.active)))
        ≡ ok unaffected
      → get_elem? (st.active ++ st.pending) i ≡ some item
      → i < length st.active
      → ¬ In i affected
      → In (i, item) unaffected
  In-unaffected st affected unaffected i item skipped here old out =
      let flags = mark affected (replicate (length st.active)) in
      let all = st.active ++ st.pending in
      let count : length flags ≡ length st.active =
        length-mark affected (replicate (length st.active)) ∙ length-replicate (length st.active) in
      let (flag, e) = get_elem?-length flags i (omega (arith, count, old)) in
      elim (Bool-cases flag) [
        | inl marked ↦
            elim (mark-In affected (replicate (length st.active)) i (e ∙ ap some marked)) [
              | inl listed ↦ absurd (out listed)
              | inr never ↦ absurd (replicate-false (length st.active) i never)
            ]
        | inr unflagged ↦ rw (zero_plus i) at (
            In-unmarked 0 (take (length st.active) all) flags i item unaffected
              (get_elem?-take (length st.active) all i old ∙ here) (e ∙ ap some unflagged) skipped)
      ]
    where
      zero_plus : (n : ℕ) → 0 + n ≡ n
      zero_plus n = omega arith

  run_batch-Grouped :
      (verifier_pk : c.VerifyingKey) (st st' : VerifierState c) (batch : Batch c) (i : ℕ)
      (item : AttesterSession c)
      → 0 < length st.pending
      → run_batch c verifier_pk st ≡ ok (st', some batch)
      → get_elem? st'.active i ≡ some item
      → Grouped st (i, item) batch
  run_batch-Grouped verifier_pk st st' batch i item waiting h here =
      let ran = run_batch-Ran verifier_pk st st' batch h in
      let all = st.active ++ st.pending in
      let there : get_elem? all i ≡ some item =
        ap (λ (s : VerifierState c). get_elem? s.active i) ran.state_eq ∙ here in
      let news = range (length st.active) (length st.pending) in
      rw (sym ran.batch_eq) (elim (Bool-cases (leb (length st.active) i)) [
        | inl new ↦ inl (
          leb→le _ _ new,
          In-snapshots_at all news i item
              (In-range (length st.active) (length st.pending) i (leb→le _ _ new) (
                omega
                  (arith, length-get_elem? all i item there, length-append st.active st.pending)))
              there,
        )
        | inr old ↦
            let before = older (length st.active) i old in
            elim (affected_old_indices-OwnerStays (length st.active) (length st.pending) i
              ran.affected before waiting ran.affected_eq) [
                | inl (moves, listed) ↦
                    inr (inl (before, moves, In-snapshots_at all ran.affected i item listed there))
                | inr (stays, out) ↦ inr (
                    inr (
                      before,
                      stays,
                      In-unaffected st ran.affected ran.unaffected i item ran.skipped there before
                          out,
                    ))
              ]
      ])
    where
      older : (n i : ℕ) → leb n i ≡ false → i < n
      older n i h = ground arith

  -- Of the attesters that are active after a batch, each is in the group of the batch that its
  -- index and its owner root say.
  pub process_batch-Grouped :
      (verifier_pk : c.VerifyingKey) (st st' : VerifierState c) (batch : Batch c) (i : ℕ)
      (item : AttesterSession c)
      → process_batch c verifier_pk st ≡ ok (st', some batch)
      → get_elem? st'.active i ≡ some item
      → Grouped st (i, item) batch
  unfolding process_batch
  process_batch-Grouped verifier_pk st st' batch i item h here =
      elim (Bool-cases (length st.pending == 0)) [
        | inl empty ↦
            let never = ok_inj (rw empty at h) in absurd (none-ne-some (ap (λ p. p.1) never))
        | inr waiting ↦
            run_batch-Grouped verifier_pk st st' batch i item (positive (length st.pending) waiting)
              (rw waiting at h) here
      ]
    where
      positive : (n : ℕ) → (n == 0) ≡ false → 0 < n
      positive n h = ground arith

      none-ne-some : {A : Type 0} {a : A} → none ≡ some a → ⊥
      none-ne-some h = cc
