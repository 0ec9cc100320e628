-- ===== src/Registers/Bank.antt =====
-- evidence-verify/src/eventlog_rs/mod.rs (replay) against a bank of measurement registers: each
-- starts at 32 zeros, and each entry of the log extends its own register by its first digest.
use unified_attestation.Prelude.{
  ℕ, ◌≡◌, inl, inr, refl, ap, ◌∙◌, Bool, false, ◌||◌, Option, none, some, List, [], ◌∷◌, ◌++◌,
  append_assoc, get_elem?, ◌==◌, if◌then◌else◌, arith, Bool-cases, Option-cases,
}
use unified_attestation.Outcome.{ok, ok->>=}
use unified_attestation.Bytes.{Bytes}
use unified_attestation.EventLog.{EventlogEntry, ElDigest}
use unified_attestation.EventLog.Format.{AllOf}
use unified_attestation.Registers.{
  Digester, NatMap, find, file_entry, file_entries, zeros, validate_digest,
  validate_event_log_digests, replay_set, replay_sets, replay_measurement_registry,
}

-- The log has an entry for the register.
unfoldable pub occurs : ℕ → List EventlogEntry → Bool
occurs i [] = false
occurs i (e ∷ es) = i == e.target_measurement_registry || occurs i es

module _ (h : Digester) where
  unfoldable pub extended : Bytes → EventlogEntry → Bytes
  extended value e = elim (get_elem? e.digests 0) [
    | none ↦ value
    | some d ↦ h.sha256 (value ++ d.digest)
  ]

  unfoldable pub after : (ℕ → Bytes) → EventlogEntry → ℕ → Bytes
  after before e i = if i == e.target_measurement_registry then extended (before i) e else before i

  -- The registers after a log, from the registers before it.
  unfoldable pub bank_from : (ℕ → Bytes) → List EventlogEntry → ℕ → Bytes
  bank_from before [] = before
  bank_from before (e ∷ es) = bank_from (after before e) es

  unfoldable pub bank : List EventlogEntry → ℕ → Bytes
  bank = bank_from (λ i. zeros 32)

-- The entries of one register, in the order of the log.
unfoldable select : ℕ → List EventlogEntry → List EventlogEntry
select i [] = []
select i (e ∷ es) = if i == e.target_measurement_registry then e ∷ select i es else select i es

abbrev HasDigest : EventlogEntry → Type 0
HasDigest e = (d : ElDigest) × (get_elem? e.digests 0 ≡ some d)

validate_digest-HasDigest : (e : EventlogEntry) → validate_digest e ≡ ok tt → HasDigest e
unfolding validate_digest
validate_digest-HasDigest e h = elim (Option-cases (get_elem? e.digests 0)) [
  | inl missing ↦ let failed = rw (missing, validate_digest) at h in absurd cc
  | inr found ↦ found
]

validate_event_log_digests-HasDigest :
    (log : List EventlogEntry) → validate_event_log_digests log ≡ ok tt → AllOf HasDigest log
unfolding validate_event_log_digests
validate_event_log_digests-HasDigest [] h = tt
validate_event_log_digests-HasDigest (e ∷ log) h =
    let split = ok->>= (validate_digest e) _ h in
    (validate_digest-HasDigest e split.1, validate_event_log_digests-HasDigest log split.2)

-- The logs of the map behind the entries of a further log.
abbrev joined : Option (List EventlogEntry) → List EventlogEntry → Option (List EventlogEntry)
joined found [] = found
joined none (e ∷ es) = some (e ∷ es)
joined (some logs) (e ∷ es) = some (logs ++ (e ∷ es))

joined-one :
    (found : Option (List EventlogEntry)) (e : EventlogEntry) (es : List EventlogEntry)
    → joined (joined found (e ∷ [])) es ≡ joined found (e ∷ es)
joined-one none e [] = refl
joined-one none e (x ∷ es) = refl
joined-one (some logs) e [] = refl
joined-one (some logs) e (x ∷ es) = ap some (append_assoc logs (e ∷ []) (x ∷ es))

find-file_entry :
    (i : ℕ) (e : EventlogEntry) (m : NatMap (List EventlogEntry))
    → find i (file_entry e m) ≡ joined (find i m) (select i (e ∷ []))
unfolding file_entry select
find-file_entry i e [] = ground arith
find-file_entry i e ((j, logs) ∷ m) = ground (arith, find-file_entry i e m)

find-file_entries :
    (i : ℕ) (m : NatMap (List EventlogEntry)) (log : List EventlogEntry)
    → find i (file_entries m log) ≡ joined (find i m) (select i log)
unfolding file_entries
find-file_entries i m [] = unfold select in refl
find-file_entries i m (e ∷ log) = elim (Bool-cases (i == e.target_measurement_registry)) [
  | inl mine ↦
      find-file_entries i (file_entry e m) log
      ∙ ap (λ f. joined f (select i log)) (find-file_entry i e m)
      ∙ unfold select in rw mine (joined-one (find i m) e (select i log))
  | inr other ↦
      find-file_entries i (file_entry e m) log
      ∙ ap (λ f. joined f (select i log)) (find-file_entry i e m)
      ∙ unfold select in rw other refl
]

abbrev AllSets : NatMap (List EventlogEntry) → Type 0
AllSets [] = Unit
AllSets ((j, logs) ∷ m) = AllOf HasDigest logs × AllSets m

AllOf-append :
    (es : List EventlogEntry) (e : EventlogEntry)
    → AllOf HasDigest es
    → HasDigest e
    → AllOf HasDigest (es ++ (e ∷ []))
AllOf-append [] e hs h = (h, tt)
AllOf-append (x ∷ es) e (hx, hs) h = (hx, AllOf-append es e hs h)

file_entry-AllSets :
    (e : EventlogEntry) (m : NatMap (List EventlogEntry))
    → HasDigest e
    → AllSets m
    → AllSets (file_entry e m)
unfolding file_entry
file_entry-AllSets e [] h hs = ((h, tt), tt)
file_entry-AllSets e ((j, logs) ∷ m) h (hl, hs) =
    elim (Bool-cases (e.target_measurement_registry == j)) [
      | inl mine ↦ rw mine (AllOf-append logs e hl h, hs)
      | inr other ↦ rw other (hl, file_entry-AllSets e m h hs)
    ]

file_entries-AllSets :
    (m : NatMap (List EventlogEntry)) (log : List EventlogEntry)
    → AllOf HasDigest log
    → AllSets m
    → AllSets (file_entries m log)
unfolding file_entries
file_entries-AllSets m [] h hs = hs
file_entries-AllSets m (e ∷ log) (he, h) hs =
    file_entries-AllSets (file_entry e m) log h (file_entry-AllSets e m he hs)

module _ (h : Digester) where
  unfoldable replayed : Bytes → List EventlogEntry → Bytes
  replayed value [] = value
  replayed value (e ∷ es) = replayed (extended h value e) es

  extended_found :
      (value : Bytes) (e : EventlogEntry) (d : ElDigest)
      → get_elem? e.digests 0 ≡ some d
      → extended h value e ≡ h.sha256 (value ++ d.digest)
  unfolding extended
  extended_found value e d found = rw (found, extended) refl

  replay_set-replayed :
      (value : Bytes) (es : List EventlogEntry)
      → AllOf HasDigest es
      → replay_set h value es ≡ ok (replayed value es)
  unfolding replay_set replayed
  replay_set-replayed value [] good = refl
  replay_set-replayed value (e ∷ es) ((d, found), good) =
      rw (found, extended_found value e d found)
        (replay_set-replayed (h.sha256 (value ++ d.digest)) es good)

  unfoldable values_of : NatMap (List EventlogEntry) → NatMap Bytes
  values_of [] = []
  values_of ((j, logs) ∷ m) = (j, replayed (zeros 32) logs) ∷ values_of m

  replay_sets-values_of :
      (m : NatMap (List EventlogEntry)) → AllSets m → replay_sets h m ≡ ok (values_of m)
  unfolding replay_sets values_of
  replay_sets-values_of [] good = refl
  replay_sets-values_of ((j, logs) ∷ m) (gl, good) =
      rw (replay_set-replayed (zeros 32) logs gl, replay_sets-values_of m good) refl

  find-values_of :
      (i : ℕ) (m : NatMap (List EventlogEntry))
      → find i (values_of m)
        ≡ elim (find i m) [ none ↦ none | some logs ↦ some (replayed (zeros 32) logs) ]
  unfolding values_of
  find-values_of i [] = refl
  find-values_of i ((j, logs) ∷ m) = elim (Bool-cases (i == j)) [
    | inl mine ↦ rw mine refl
    | inr other ↦ rw other (find-values_of i m)
  ]

  bank_from-replayed :
      (before : ℕ → Bytes) (log : List EventlogEntry) (i : ℕ)
      → bank_from h before log i ≡ replayed (before i) (select i log)
  unfolding bank_from after replayed select
  bank_from-replayed before [] i = refl
  bank_from-replayed before (e ∷ log) i = elim (Bool-cases (i == e.target_measurement_registry)) [
    | inl mine ↦ bank_from-replayed (after h before e) log i ∙ rw mine refl
    | inr other ↦ bank_from-replayed (after h before e) log i ∙ rw other refl
  ]

joined-select :
    {A : Type 0} (f : List EventlogEntry → A) (i : ℕ) (log : List EventlogEntry)
    → elim (joined none (select i log)) [ none ↦ none | some logs ↦ some (f logs) ]
      ≡ (if occurs i log then some (f (select i log)) else none)
unfolding select occurs
joined-select f i [] = refl
joined-select f i (e ∷ log) = elim (Bool-cases (i == e.target_measurement_registry)) [
  | inl mine ↦ rw mine refl
  | inr other ↦ rw other (joined-select f i log)
]

-- The replay of a log whose entries all have a first digest that is not empty gives a map. The
-- map holds exactly the registers that have an entry in the log, each with the value that a bank
-- of registers has after the log.
pub replay_measurement_registry-bank :
    (h : Digester) (log : List EventlogEntry)
    → validate_event_log_digests log ≡ ok tt
    → (m : NatMap Bytes) × (replay_measurement_registry h log ≡ ok m)
      × ((i : ℕ) → find i m ≡ (if occurs i log then some (bank h log i) else none))
unfolding replay_measurement_registry bank
replay_measurement_registry-bank h log good =
    let m = file_entries [] log in
    let sets = file_entries-AllSets [] log (validate_event_log_digests-HasDigest log good) tt in
    (
      values_of h m,
      replay_sets-values_of h m sets,
      λ i.
          find-values_of h i m
          ∙ rw (find-file_entries i [] log, bank_from-replayed h (λ j. zeros 32) log i)
              (joined-select (replayed h (zeros 32)) i log),
    )
