-- ===== src/Registers.antt =====
-- evidence-verify/src/eventlog_rs/mod.rs (replay) and evidence-verify/src/virtcca/event_log.rs: the
-- measurement registers that an event log claims, and the firmware that it names. A text is its
-- bytes; the reference file is a test of its lines, or none where it cannot be read.
pub mod Bank
pub mod Verify
use unified_attestation.Prelude.{
  ℕ, zero, suc, ◌+◌, ◌*◌, ◌%◌, ◌≡◌, Bool, true, false, ◌&&◌, ◌||◌, Option, none, some, List, [],
  ◌∷◌, ◌++◌, length, get_elem?, leb, ◌==◌, if◌then◌else◌,
}
use unified_attestation.Outcome.{
  Error, Result, ok, err, panic, ◌>>=◌, context, expect, guard, no_digest, empty_digest,
  log_mismatch, no_reference,
}
use unified_attestation.Bytes.{Bytes, is_utf8}
use unified_attestation.Messages.{starts_with}
use unified_attestation.EventLog.{ElDigest, EventlogEntry, parse}

-- SHA-256 and `hex::encode`, of other crates.
pub record Digester : Type 0 where
  pub sha256 : Bytes → Bytes
  pub sha256_32 : (message : Bytes) → length (sha256 message) ≡ 32
  pub hex_encode : Bytes → Bytes

abbrev pub bytes_eq : Bytes → Bytes → Bool
bytes_eq [] [] = true
bytes_eq [] (b ∷ bs) = false
bytes_eq (a ∷ as') [] = false
bytes_eq (a ∷ as') (b ∷ bs) = a == b && bytes_eq as' bs

-- A `HashMap` whose keys are numbers: a list in which each key stands once.
abbrev pub NatMap : Type 0 → Type 0
NatMap A = List (ℕ × A)

module _ {A : Type 0} where
  abbrev pub find : ℕ → NatMap A → Option A
  find i [] = none
  find i ((j, a) ∷ m) = if i == j then some a else find i m

-- The loop that files an entry under its register.
unfoldable pub file_entry :
    EventlogEntry → NatMap (List EventlogEntry) → NatMap (List EventlogEntry)
file_entry e [] = (e.target_measurement_registry, e ∷ []) ∷ []
file_entry e ((j, logs) ∷ m) =
    if e.target_measurement_registry == j
    then (j, logs ++ (e ∷ [])) ∷ m
    else (j, logs) ∷ file_entry e m

unfoldable pub file_entries :
    NatMap (List EventlogEntry) → List EventlogEntry → NatMap (List EventlogEntry)
file_entries m [] = m
file_entries m (e ∷ log) = file_entries (file_entry e m) log

abbrev pub zeros : ℕ → Bytes
zeros zero = []
zeros (suc n) = 0 ∷ zeros n

-- `event_entry.digests.first()` must be there and must not be empty.
unfoldable pub validate_digest : EventlogEntry → Result (Unit {0})
validate_digest e = elim (get_elem? e.digests 0) [
  | none ↦ err no_digest
  | some d ↦ if length d.digest == 0 then err empty_digest else ok tt
]

unfoldable pub validate_event_log_digests : List EventlogEntry → Result (Unit {0})
validate_event_log_digests [] = ok tt
validate_event_log_digests (e ∷ log) = do done ← validate_digest e; validate_event_log_digests log

module _ (h : Digester) where
  -- The loop over the entries of one register; `digests[0]` panics where there is none.
  unfoldable pub replay_set : Bytes → List EventlogEntry → Result Bytes
  replay_set mr_value [] = ok mr_value
  replay_set mr_value (e ∷ log_set) = do
    digest ← expect (get_elem? e.digests 0)
    replay_set (h.sha256 (mr_value ++ digest.digest)) log_set

  unfoldable pub replay_sets : NatMap (List EventlogEntry) → Result (NatMap Bytes)
  replay_sets [] = ok []
  replay_sets ((j, log_set) ∷ m) = do
    mr_value ← replay_set (zeros 32) log_set
    values ← replay_sets m
    ok ((j, mr_value) ∷ values)

  unfoldable pub replay_measurement_registry : List EventlogEntry → Result (NatMap Bytes)
  replay_measurement_registry log = replay_sets (file_entries [] log)

-- One round of the comparison.
unfoldable pub register_matches : Option Bytes → Bytes → Bool
register_matches none hash = false
register_matches (some rtmr) hash = length rtmr == 32 && (length hash == 32 && bytes_eq rtmr hash)

-- `event_log_hash` is an array of four, read at 0, 1 and 2.
unfoldable pub compare_rtmr_with_event_log : NatMap Bytes → (ℕ → Bytes) → Bool
compare_rtmr_with_event_log replayed event_log_hash =
    register_matches (find 1 replayed) (event_log_hash 0)
    && (register_matches (find 2 replayed) (event_log_hash 1)
        && register_matches (find 3 replayed) (event_log_hash 2))

abbrev pub contains_text : Bytes → Bytes → Bool
contains_text [] pattern' = starts_with [] pattern'
contains_text (b ∷ text) pattern' = starts_with (b ∷ text) pattern' || contains_text text pattern'

-- "grub_cmd:"
abbrev pub grub_cmd : Bytes
grub_cmd = 103 ∷ 114 ∷ 117 ∷ 98 ∷ 95 ∷ 99 ∷ 109 ∷ 100 ∷ 58 ∷ []

pub data FirmwareKey : Type 0 where
  grub_cfg kernel initramfs : FirmwareKey

-- "grub.cfg", "/vmlinuz-" and "/initramfs-"
abbrev pub pattern_of : FirmwareKey → Bytes
pattern_of grub_cfg = 103 ∷ 114 ∷ 117 ∷ 98 ∷ 46 ∷ 99 ∷ 102 ∷ 103 ∷ []
pattern_of kernel = 47 ∷ 118 ∷ 109 ∷ 108 ∷ 105 ∷ 110 ∷ 117 ∷ 122 ∷ 45 ∷ []
pattern_of initramfs = 47 ∷ 105 ∷ 110 ∷ 105 ∷ 116 ∷ 114 ∷ 97 ∷ 109 ∷ 102 ∷ 115 ∷ 45 ∷ []

-- The map `state_hash` has a field for each of its three keys; `grub_image_count` is a `u8`.
pub record FirmwareState : Type 0 where
  pub grub_image_count : ℕ
  pub grub_image_list : List Bytes
  pub grub_cfg_hash : Option Bytes
  pub kernel_hash : Option Bytes
  pub initramfs_hash : Option Bytes

-- `.digests.first().filter(|digest| !digest.digest.is_empty())`
unfoldable pub first_digest : EventlogEntry → Option Bytes
first_digest e = elim (get_elem? e.digests 0) [
  | none ↦ none
  | some d ↦ if length d.digest == 0 then none else some d.digest
]

-- 0x80000003 is "EV_EFI_BOOT_SERVICES_APPLICATION".
abbrev pub boot_application : ℕ
boot_application = 0x8000_0003

module _ (h : Digester) where
  unfoldable pub note_image : EventlogEntry → FirmwareState → FirmwareState
  note_image e st = elim (first_digest e) [
    | none ↦ st
    | some d ↦ record st {
      grub_image_count = (st.grub_image_count + 1) % 256;
      grub_image_list = st.grub_image_list ++ (h.hex_encode d ∷ []);
    }
  ]

  -- One of the three keys: the first entry whose description has its pattern counts.
  unfoldable pub note_hash : FirmwareKey → EventlogEntry → Option Bytes → Option Bytes
  note_hash key e (some hash) = some hash
  note_hash key e none =
      if contains_text e.event_desc (pattern_of key)
      then elim (first_digest e) [ none ↦ none | some d ↦ some (h.hex_encode d) ]
      else none

  unfoldable pub note_hashes : EventlogEntry → FirmwareState → FirmwareState
  note_hashes e st = record st {
    grub_cfg_hash = note_hash grub_cfg e st.grub_cfg_hash;
    kernel_hash = note_hash kernel e st.kernel_hash;
    initramfs_hash = note_hash initramfs e st.initramfs_hash;
  }

  abbrev pub has_all : FirmwareState → Bool
  has_all st = is_found st.grub_cfg_hash && (is_found st.kernel_hash && is_found st.initramfs_hash)
    where
      is_found : Option Bytes → Bool
      is_found none = false
      is_found (some hash) = true

  -- `continue` and `break` of the loop over the log.
  unfoldable pub firmware_loop : FirmwareState → List EventlogEntry → FirmwareState
  firmware_loop st [] = st
  firmware_loop st (e ∷ log) =
      let image = firmware_loop (note_image e st) log in
      let skipped = firmware_loop st log in
      let noted = note_hashes e st in
      let goes_on = firmware_loop noted log in
      if e.event_type_id == boot_application
      then image
      else if is_utf8 e.event_desc
      then if contains_text e.event_desc grub_cmd
        then skipped
        else if has_all noted
        then noted
        else goes_on
      else skipped

  unfoldable pub firmware_log_state : List EventlogEntry → FirmwareState
  firmware_log_state log =
      firmware_loop
        (record {
          grub_image_count = 0;
          grub_image_list = [];
          grub_cfg_hash = none;
          kernel_hash = none;
          initramfs_hash = none;
        })
        log

-- The keys of the report: `Image[i]`, or the name of a hash.
pub data ReportKey : Type 0 where
  image : ℕ → ReportKey
  firmware : FirmwareKey → ReportKey

unfoldable pub report_images : (Bytes → Bool) → ℕ → List Bytes → List (ReportKey × Bool)
report_images refs i [] = []
report_images refs i (hash ∷ hashes) = (image i, refs hash) ∷ report_images refs (i + 1) hashes

unfoldable pub report_hash : (Bytes → Bool) → FirmwareKey → Option Bytes → List (ReportKey × Bool)
report_hash refs key none = []
report_hash refs key (some hash) = (firmware key, refs hash) ∷ []

unfoldable pub check_event_references : FirmwareState → (Bytes → Bool) → List (ReportKey × Bool)
check_event_references st refs =
    report_images refs 0 st.grub_image_list
    ++ (report_hash refs grub_cfg st.grub_cfg_hash
        ++ (report_hash refs kernel st.kernel_hash ++ report_hash refs initramfs st.initramfs_hash))

module _ (h : Digester) where
  unfoldable pub event_verify :
      Bytes → (ℕ → Bytes) → Option (Bytes → Bool) → Result (List (ReportKey × Bool))
  event_verify [] event_log_hash file = ok []
  event_verify (b ∷ event_log) event_log_hash file = do
    log ← parse (b ∷ event_log)
    done ← validate_event_log_digests log
    replayed ← replay_measurement_registry h log
    matched ← guard (compare_rtmr_with_event_log replayed event_log_hash) log_mismatch
    refs ← context no_reference file
    ok (check_event_references (firmware_log_state h log) refs)
