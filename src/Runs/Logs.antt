-- ===== src/Runs/Logs.antt =====
-- Runs of the event log: a header with one digest size, and an entry for each of the registers 1,
-- 2 and 3.
use unified_attestation.Prelude.{
  ℕ, ◌≡◌, ◌≢◌, refl, Bool, true, none, some, List, [], ◌∷◌, ◌++◌, map, length, if◌then◌else◌, arith,
}
use unified_attestation.Outcome.{ok, err, panic, stuck, log_mismatch}
use unified_attestation.Bytes.{Bytes}
use unified_attestation.EventLog.{
  EventlogEntry, parse, parse_loop, read_le, from_le, slice, read_header, read_sizes, read_digest,
  read_digests, size_of, read_sized, read_entry,
}
use unified_attestation.EventLog.Format.{
  RawDigest, RawEntry, RawHeader, IsHeader, IsEntry, IsDigest, at_end, header_bytes, entries_bytes,
  entry_of, kept,
}
use unified_attestation.EventLog.RoundTrip.{parse-entries_bytes}
use unified_attestation.EventLog.Total.{parse-ne-stuck, parse-panic}
use unified_attestation.Registers.{
  Digester, NatMap, find, zeros, validate_digest, validate_event_log_digests,
  replay_measurement_registry, firmware_log_state, check_event_references, event_verify,
}
use unified_attestation.Registers.Bank.{
  occurs, extended, after, bank_from, bank, replay_measurement_registry-bank,
}
use unified_attestation.Registers.Verify.{
  Agrees, event_verify-bank, event_verify-log_mismatch, event_verify-Agrees,
}

abbrev two_bytes : RawDigest
two_bytes = record { algorithm = 0xb; digest = 7 ∷ 8 ∷ [] }

abbrev raw_entry : ℕ → RawEntry
raw_entry i = record { registry = i; event_type = 0xd; digests = two_bytes ∷ []; desc = 103 ∷ [] }

abbrev raw_header : RawHeader
raw_header = record { registry = 0; specification = zeros 48; sizes = (0xb, 2) ∷ []; vendor = [] }

abbrev raw_entries : List RawEntry
raw_entries = raw_entry 1 ∷ raw_entry 2 ∷ raw_entry 3 ∷ []

raw_header-IsHeader : IsHeader raw_header
raw_header-IsHeader = record {
  registry_u32 = omega arith;
  specification_48 = refl;
  count_u32 = omega arith;
  sizes_ok = ((omega arith, omega arith), tt);
  vendor_u8 = omega arith;
}

two_bytes-IsDigest : IsDigest (kept [] raw_header.sizes) two_bytes
unfolding kept size_of
two_bytes-IsDigest = record { algorithm_u16 = omega arith; sized = refl }

first-IsEntry : IsEntry (kept [] raw_header.sizes) (raw_entry 1)
first-IsEntry = record {
  registry_u32 = omega arith;
  type_u32 = omega arith;
  action = refl;
  goes_on = refl;
  count_u32 = omega arith;
  digests_ok = (two_bytes-IsDigest, tt);
  desc_u32 = omega arith;
}

second-IsEntry : IsEntry (kept [] raw_header.sizes) (raw_entry 2)
second-IsEntry = record {
  registry_u32 = omega arith;
  type_u32 = omega arith;
  action = refl;
  goes_on = refl;
  count_u32 = omega arith;
  digests_ok = (two_bytes-IsDigest, tt);
  desc_u32 = omega arith;
}

third-IsEntry : IsEntry (kept [] raw_header.sizes) (raw_entry 3)
third-IsEntry = record {
  registry_u32 = omega arith;
  type_u32 = omega arith;
  action = refl;
  goes_on = refl;
  count_u32 = omega arith;
  digests_ok = (two_bytes-IsDigest, tt);
  desc_u32 = omega arith;
}

parse-entries_bytes_example :
    parse (header_bytes raw_header ++ (entries_bytes raw_entries ++ []))
    ≡ ok (map entry_of raw_entries)
parse-entries_bytes_example =
    parse-entries_bytes raw_header raw_entries [] raw_header-IsHeader
      (first-IsEntry, (second-IsEntry, (third-IsEntry, tt))) at_end

abbrev log_tail : Bytes
log_tail =
    0
    ∷ 0
    ∷ 0
    ∷ 3
    ∷ 0
    ∷ 0
    ∷ 0
    ∷ (zeros 48
        ++ (1 ∷ 0 ∷ 0 ∷ 0 ∷ 11 ∷ 0 ∷ 2 ∷ 0 ∷ 0 ∷ 1 ∷ 0 ∷ 0 ∷ 0 ∷ 13 ∷ 0 ∷ 0 ∷ 0 ∷ 1 ∷ 0 ∷ 0 ∷ 0 ∷ 11
            ∷ 0 ∷ 7 ∷ 8 ∷ 1 ∷ 0 ∷ 0 ∷ 0 ∷ 103 ∷ 2 ∷ 0 ∷ 0 ∷ 0 ∷ 13 ∷ 0 ∷ 0 ∷ 0 ∷ 1 ∷ 0 ∷ 0 ∷ 0 ∷ 11
            ∷ 0 ∷ 7 ∷ 8 ∷ 1 ∷ 0 ∷ 0 ∷ 0 ∷ 103 ∷ 3 ∷ 0 ∷ 0 ∷ 0 ∷ 13 ∷ 0 ∷ 0 ∷ 0 ∷ 1 ∷ 0 ∷ 0 ∷ 0 ∷ 11
            ∷ 0 ∷ 7 ∷ 8 ∷ 1 ∷ 0 ∷ 0 ∷ 0 ∷ 103 ∷ []))

abbrev log : List EventlogEntry
log = map entry_of raw_entries

log_parsed : parse (0 ∷ log_tail) ≡ ok log
unfolding parse parse_loop read_le from_le slice read_header read_sizes read_digest read_digests
    size_of read_sized read_entry
log_parsed = refl

parse-ne-stuck_example : parse (0 ∷ log_tail) ≢ stuck
parse-ne-stuck_example = parse-ne-stuck (0 ∷ log_tail)

-- A digest of 32 bytes, of which the first counts the message.
abbrev counter : Digester
counter = record { sha256 = λ m. length m ∷ zeros 31; sha256_32 = λ m. refl; hex_encode = λ d. d }

log_valid : validate_event_log_digests log ≡ ok tt
unfolding validate_event_log_digests validate_digest
log_valid = refl

replay_measurement_registry-bank_example :
    (m : NatMap Bytes) × (replay_measurement_registry counter log ≡ ok m)
    × ((i : ℕ) → find i m ≡ (if occurs i log then some (bank counter log i) else none))
replay_measurement_registry-bank_example = replay_measurement_registry-bank counter log log_valid

abbrev reported : ℕ → Bytes
reported i = 34 ∷ zeros 31

log-Agrees : Agrees counter log reported
unfolding occurs bank bank_from after extended
log-Agrees = record { first = (refl, refl); second = (refl, refl); third = (refl, refl) }

abbrev all_known : Bytes → Bool
all_known hash = true

event_verify-Agrees_example :
    event_verify counter (0 ∷ log_tail) reported (some all_known)
    ≡ ok (check_event_references (firmware_log_state counter log) all_known)
event_verify-Agrees_example =
    event_verify-Agrees counter 0 log_tail reported all_known log log_parsed log_valid log-Agrees

log_accepted :
    event_verify counter (0 ∷ log_tail) reported (some all_known)
    ≡ ok (check_event_references (firmware_log_state counter log) all_known)
log_accepted =
    event_verify-Agrees counter 0 log_tail reported all_known log log_parsed log_valid log-Agrees

event_verify-bank_example :
    (l : List EventlogEntry) × (refs : Bytes → Bool) × (parse (0 ∷ log_tail) ≡ ok l)
    × (validate_event_log_digests l ≡ ok tt)
    × Agrees counter l reported
    × (some all_known ≡ some refs)
    × (check_event_references (firmware_log_state counter log) all_known
        ≡ check_event_references (firmware_log_state counter l) refs)
event_verify-bank_example =
    event_verify-bank counter 0 log_tail reported (some all_known)
      (check_event_references (firmware_log_state counter log) all_known) log_accepted

abbrev other_report : ℕ → Bytes
other_report i = zeros 32

log_differs : ¬ Agrees counter log other_report
unfolding occurs bank bank_from after extended
log_differs agrees = absurd (differ agrees.first.1)
  where
    differ : (34 ∷ zeros 31) ≡ zeros 32 → ⊥
    differ e = cc

event_verify-log_mismatch_example :
    event_verify counter (0 ∷ log_tail) other_report none ≡ err log_mismatch
event_verify-log_mismatch_example =
    event_verify-log_mismatch counter 0 log_tail other_report none log log_parsed log_valid
      log_differs

parse-panic_example : parse (1 ∷ 2 ∷ 3 ∷ []) ≡ panic
parse-panic_example = parse-panic 1 (2 ∷ 3 ∷ []) (omega arith)
