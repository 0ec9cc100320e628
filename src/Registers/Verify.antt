-- ===== src/Registers/Verify.antt =====
-- evidence-verify/src/virtcca/event_log.rs (event_verify): which logs are accepted.
use unified_attestation.Prelude.{
  ℕ, ◌+◌, ◌≡◌, inl, inr, refl, sym, ap, ◌∙◌, Bool, true, false, ◌&&◌, Option, none, some, List, [],
  ◌∷◌, ◌++◌, length, get_elem?, ◌==◌, ==_iff, ==_refl, if◌then◌else◌, Bool-cases,
}
use unified_attestation.Outcome.{
  ok_inj, ok, err, ok->>=, guard, context, log_mismatch, no_reference, Error,
}
use unified_attestation.Bytes.{Bytes}
use unified_attestation.EventLog.{EventlogEntry, parse}
use unified_attestation.Registers.{
  Digester, bytes_eq, find, zeros, NatMap, validate_event_log_digests, register_matches,
  compare_rtmr_with_event_log, firmware_log_state, ReportKey, check_event_references, event_verify,
}
use unified_attestation.Registers.Bank.{
  occurs, extended, after, bank_from, bank, replay_measurement_registry-bank,
}

pub &&-true : (a b : Bool) → (a && b) ≡ true → (a ≡ true) × (b ≡ true)
&&-true true b h = (refl, h)
&&-true false b h = absurd cc

pub bytes_eq→≡ : (a b : Bytes) → bytes_eq a b ≡ true → a ≡ b
bytes_eq→≡ [] [] h = refl
bytes_eq→≡ [] (y ∷ b) h = absurd cc
bytes_eq→≡ (x ∷ a) [] h = absurd cc
bytes_eq→≡ (x ∷ a) (y ∷ b) h =
    let both = &&-true _ _ h in
    ap (λ z. z ∷ a) ((==_iff x y).0 both.0) ∙ ap (λ t. y ∷ t) (bytes_eq→≡ a b both.1)

pub bytes_eq_refl : (a : Bytes) → bytes_eq a a ≡ true
bytes_eq_refl [] = refl
bytes_eq_refl (x ∷ a) = rw (==_refl x) (bytes_eq_refl a)

module _ (h : Digester) where
  length-extended :
      (value : Bytes) (e : EventlogEntry) → length value ≡ 32 → length (extended h value e) ≡ 32
  unfolding extended
  length-extended value e n =
      elim (get_elem? e.digests 0)
        as (λ o. length (elim o [ none ↦ value | some d ↦ h.sha256 (value ++ d.digest) ]) ≡ 32) [
          | none ↦ n
          | some d ↦ h.sha256_32 (value ++ d.digest)
        ]

  length-after :
      (before : ℕ → Bytes) (e : EventlogEntry) (j : ℕ)
      → length (before j) ≡ 32
      → length (after h before e j) ≡ 32
  unfolding after
  length-after before e j n = elim (Bool-cases (j == e.target_measurement_registry)) [
    | inl mine ↦ rw mine (length-extended (before j) e n)
    | inr other ↦ rw other n
  ]

  length-bank_from :
      (before : ℕ → Bytes) (log : List EventlogEntry) (i : ℕ)
      → ((j : ℕ) → length (before j) ≡ 32)
      → length (bank_from h before log i) ≡ 32
  unfolding bank_from
  length-bank_from before [] i start = start i
  length-bank_from before (e ∷ log) i start =
      length-bank_from (after h before e) log i (λ j. length-after before e j (start j))

  length-bank : (log : List EventlogEntry) (i : ℕ) → length (bank h log i) ≡ 32
  unfolding bank
  length-bank log i = length-bank_from (λ j. zeros 32) log i (λ j. refl)

  -- Register i + 1 of the log is that of the report.
  abbrev Matches : List EventlogEntry → (ℕ → Bytes) → ℕ → Type 0
  Matches log event_log_hash i =
      (occurs (i + 1) log ≡ true) × (bank h log (i + 1) ≡ event_log_hash i)

  -- The registers 1, 2 and 3 of the log are those of the report.
  pub record Agrees (log : List EventlogEntry) (event_log_hash : ℕ → Bytes) : Type 0 where
    pub first : Matches log event_log_hash 0
    pub second : Matches log event_log_hash 1
    pub third : Matches log event_log_hash 2

  round : List EventlogEntry → (ℕ → Bytes) → ℕ → Bool
  round log event_log_hash i =
      register_matches (if occurs (i + 1) log then some (bank h log (i + 1)) else none)
        (event_log_hash i)

  round→Matches :
      (log : List EventlogEntry) (event_log_hash : ℕ → Bytes) (i : ℕ)
      → round log event_log_hash i ≡ true
      → Matches log event_log_hash i
  unfolding round register_matches
  round→Matches log hashes i e = elim (Bool-cases (occurs (i + 1) log)) [
    | inl there ↦
        let lengths = &&-true _ _ (rw there at e) in
        let equal = &&-true _ _ lengths.1 in (there, bytes_eq→≡ _ _ equal.1)
    | inr missing ↦ let never = rw missing at e in absurd cc
  ]

  Matches→round :
      (log : List EventlogEntry) (event_log_hash : ℕ → Bytes) (i : ℕ)
      → Matches log event_log_hash i
      → round log event_log_hash i ≡ true
  unfolding round register_matches
  Matches→round log hashes i (there, equal) =
      rw (there, sym equal, length-bank log (i + 1), bytes_eq_refl (bank h log (i + 1))) refl

  -- The replay's map, read at a register.
  abbrev Holds : List EventlogEntry → NatMap Bytes → Type 0
  Holds log m = (i : ℕ) → find i m ≡ (if occurs i log then some (bank h log i) else none)

  compare-round :
      (log : List EventlogEntry) (event_log_hash : ℕ → Bytes) (m : NatMap Bytes)
      → Holds log m
      → compare_rtmr_with_event_log m event_log_hash
        ≡ (round log event_log_hash 0 && (round log event_log_hash 1 && round log event_log_hash 2))
  unfolding compare_rtmr_with_event_log round
  compare-round log hashes m holds = rw (holds 1, holds 2, holds 3) refl

  compare→Agrees :
      (log : List EventlogEntry) (event_log_hash : ℕ → Bytes) (m : NatMap Bytes)
      → Holds log m
      → compare_rtmr_with_event_log m event_log_hash ≡ true
      → Agrees log event_log_hash
  compare→Agrees log hashes m holds e =
      let rest = &&-true _ _ (sym (compare-round log hashes m holds) ∙ e) in
      let last = &&-true _ _ rest.1 in
      record {
        first = round→Matches log hashes 0 rest.0;
        second = round→Matches log hashes 1 last.0;
        third = round→Matches log hashes 2 last.1;
      }

  Agrees→compare :
      (log : List EventlogEntry) (event_log_hash : ℕ → Bytes) (m : NatMap Bytes)
      → Holds log m
      → Agrees log event_log_hash
      → compare_rtmr_with_event_log m event_log_hash ≡ true
  Agrees→compare log hashes m holds agrees =
      compare-round log hashes m holds
      ∙ rw
          (
            Matches→round log hashes 0 agrees.first,
            Matches→round log hashes 1 agrees.second,
            Matches→round log hashes 2 agrees.third,
          )
          refl

pub guard→true : (b : Bool) (e : Error) → guard b e ≡ ok tt → b ≡ true
guard→true true e h = refl
guard→true false e h = absurd cc

pub context→some : {A : Type 0} (o : Option A) (e : Error) {a : A} → context e o ≡ ok a → o ≡ some a
context→some none e h = absurd cc
context→some (some x) e h = cc

-- A log that is not empty and that is accepted parses; each of its entries has a first digest
-- that is not empty; the registers 1, 2 and 3 of the report are those that a bank of registers
-- has after the log, and each has an entry in it; the reference file is there; and the report
-- compares the firmware that the log names with that file.
pub event_verify-bank :
    (h : Digester) (b : ℕ) (event_log : Bytes) (event_log_hash : ℕ → Bytes)
    (file : Option (Bytes → Bool)) (report : List (ReportKey × Bool))
    → event_verify h (b ∷ event_log) event_log_hash file ≡ ok report
    → (log : List EventlogEntry) × (refs : Bytes → Bool) × (parse (b ∷ event_log) ≡ ok log)
      × (validate_event_log_digests log ≡ ok tt)
      × Agrees h log event_log_hash
      × (file ≡ some refs)
      × (report ≡ check_event_references (firmware_log_state h log) refs)
unfolding event_verify
event_verify-bank h b event_log hashes file report e =
    let parsed = ok->>= (parse (b ∷ event_log)) _ e in
    let valid = ok->>= (validate_event_log_digests parsed.0) _ parsed.2 in
    let (m, replayed, holds) = replay_measurement_registry-bank h parsed.0 valid.1 in
    let compared =
      ok->>= (guard (compare_rtmr_with_event_log m hashes) log_mismatch) _
        (rw replayed at valid.2) in
    let read = ok->>= (context no_reference file) _ compared.2 in
    let same = guard→true (compare_rtmr_with_event_log m hashes) _ compared.1 in
    (
      parsed.0,
      read.0,
      parsed.1,
      valid.1,
      compare→Agrees h parsed.0 hashes m holds same,
      context→some file _ read.1,
      sym (ok_inj read.2),
    )

-- A log that is not empty and that parses, whose entries all have a first digest that is not empty,
-- and whose registers are not those of the report, is refused, with the error that says so.
pub event_verify-log_mismatch :
    (h : Digester) (b : ℕ) (event_log : Bytes) (event_log_hash : ℕ → Bytes)
    (file : Option (Bytes → Bool)) (log : List EventlogEntry)
    → parse (b ∷ event_log) ≡ ok log
    → validate_event_log_digests log ≡ ok tt
    → ¬ Agrees h log event_log_hash
    → event_verify h (b ∷ event_log) event_log_hash file ≡ err log_mismatch
unfolding event_verify
event_verify-log_mismatch h b event_log hashes file log parsed valid different =
    let (m, replayed, holds) = replay_measurement_registry-bank h log valid in
    elim (Bool-cases (compare_rtmr_with_event_log m hashes)) [
      | inl same ↦ absurd (different (compare→Agrees h log hashes m holds same))
      | inr other ↦ rw (parsed, valid, replayed, other) refl
    ]

-- A log that parses, whose entries all have a first digest that is not empty, and whose registers
-- are those of the report is accepted if the reference file can be read.
pub event_verify-Agrees :
    (h : Digester) (b : ℕ) (event_log : Bytes) (event_log_hash : ℕ → Bytes) (refs : Bytes → Bool)
    (log : List EventlogEntry)
    → parse (b ∷ event_log) ≡ ok log
    → validate_event_log_digests log ≡ ok tt
    → Agrees h log event_log_hash
    → event_verify h (b ∷ event_log) event_log_hash (some refs)
      ≡ ok (check_event_references (firmware_log_state h log) refs)
unfolding event_verify
event_verify-Agrees h b event_log hashes refs log parsed valid agrees =
    let (m, replayed, holds) = replay_measurement_registry-bank h log valid in
    rw (parsed, valid, replayed, Agrees→compare h log hashes m holds agrees) refl
