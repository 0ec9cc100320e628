-- ===== src/Ima.antt =====
-- evidence-verify/src/ima (mod.rs, virtcca.rs, itrustee.rs): the verification of an IMA log. The
-- crate ima-measurements parses it; the files of reference digests, and the paths that a build
-- feature selects, come from outside. A text is its bytes.
pub mod Flags
pub mod Paths
use unified_attestation.Prelude.{
  ℕ, zero, suc, ◌+◌, ◌-◌, ◌≡◌, Bool, true, false, ◌&&◌, ◌||◌, Option, none, some, List, [], ◌∷◌,
  ◌++◌, length, get_elem?, leb, ltb, ◌==◌, if◌then◌else◌, not,
}
use unified_attestation.Outcome.{
  Result, ok, err, panic, ◌>>=◌, context, expect, guard, io, no_records, bad_event, bad_index,
  bad_log, no_log_hash, log_mismatch,
}
use unified_attestation.Bytes.{Bytes}
use unified_attestation.Registers.{Digester, bytes_eq}

-- The events of the crate: a file's digest and name, or another kind.
pub data EventData : Type 0 where
  ima_ng : (digest name : Bytes) → EventData
  other : EventData

pub record ImaEvent : Type 0 where
  pub pcr_index : ℕ
  pub data_of : EventData

-- The crate's parser: the events of a log, and the SHA-256 value of a register after them.
pub record ImaParser : Type 0 where
  pub events : Bytes → Option (List ImaEvent)
  pub pcr_sha256 : Bytes → ℕ → Option Bytes

-- The files: whether a path exists, and a test of the lines of one that can be read.
pub record RefFiles : Type 0 where
  pub exists : Bytes → Bool
  pub file_reader : Bytes → Option (Bytes → Bool)

-- The directory and the default file, which a build feature selects.
pub record RefPaths : Type 0 where
  pub ima_base_dir : Bytes
  pub ima_reference_file : Bytes

-- The JSON object of the result: a list in which each name stands once.
abbrev pub Detail : Type 0
Detail = List (Bytes × Bool)

abbrev pub flag_of : Bytes → Detail → Option Bool
flag_of name [] = none
flag_of name ((n, flag) ∷ detail) = if bytes_eq name n then some flag else flag_of name detail

unfoldable pub insert_flag : Bytes → Bool → Detail → Detail
insert_flag name flag [] = (name, flag) ∷ []
insert_flag name flag ((n, old) ∷ detail) =
    if bytes_eq name n then (n, flag) ∷ detail else (n, old) ∷ insert_flag name flag detail

-- "boot_aggregate"
abbrev pub boot_aggregate : Bytes
boot_aggregate = 98 ∷ 111 ∷ 111 ∷ 116 ∷ 95 ∷ 97 ∷ 103 ∷ 103 ∷ 114 ∷ 101 ∷ 103 ∷ 97 ∷ 116 ∷ 101 ∷ []

module _ (h : Digester) where
  -- The loop of `verify_ima_events`.
  unfoldable pub verify_loop : (Bytes → Bool) → Detail → List EventData → Result Detail
  verify_loop ima_refs detail [] = ok detail
  verify_loop ima_refs detail (other ∷ events) = err bad_event
  verify_loop ima_refs detail (ima_ng digest name ∷ events) =
      let skipped = verify_loop ima_refs detail events in
      let flagged =
        verify_loop ima_refs (insert_flag name (ima_refs (h.hex_encode digest)) detail) events in
      if bytes_eq name boot_aggregate then skipped else flagged

abbrev pub data_list : List ImaEvent → List EventData
data_list [] = []
data_list (e ∷ events) = e.data_of ∷ data_list events

module _ (h : Digester) where
  unfoldable pub verify_ima_events : List ImaEvent → (Bytes → Bool) → Result Detail
  verify_ima_events events ima_refs =
      let checked = verify_loop h ima_refs [] (data_list events) in
      if ltb (length events) 2 then err no_records else checked

-- "digest_list_file" and "/"
abbrev pub digest_list_file_name : Bytes
digest_list_file_name =
    100 ∷ 105 ∷ 103 ∷ 101 ∷ 115 ∷ 116 ∷ 95 ∷ 108 ∷ 105 ∷ 115 ∷ 116 ∷ 95 ∷ 102 ∷ 105 ∷ 108 ∷ 101 ∷ []

abbrev pub slash : Bytes
slash = 47 ∷ []

abbrev pub app_path_of : RefPaths → Bytes → Bytes
app_path_of paths app_id =
    paths.ima_base_dir ++ (slash ++ (app_id ++ (slash ++ digest_list_file_name)))

-- `0-9`, `A-F`, `a-f`.
unfoldable pub is_ascii_hexdigit : ℕ → Bool
is_ascii_hexdigit c = (leb 48 c && leb c 57) || ((leb 65 c && leb c 70) || (leb 97 c && leb c 102))

abbrev pub all_of : (ℕ → Bool) → Bytes → Bool
all_of test [] = true
all_of test (c ∷ cs) = test c && all_of test cs

-- `s.matches('-').count()`
abbrev pub count_of : ℕ → Bytes → ℕ
count_of c [] = 0
count_of c (b ∷ bs) = if b == c then suc (count_of c bs) else count_of c bs

unfoldable pub is_valid_rim_hex : Bytes → Bool
is_valid_rim_hex s =
    (length s == 64 || (length s == 96 || length s == 128)) && all_of is_ascii_hexdigit s

-- 45 is '-'.
unfoldable pub is_valid_uuid : Bytes → Bool
is_valid_uuid uuid =
    length uuid == 36
    && (count_of 45 uuid == 4 && all_of (λ c. is_ascii_hexdigit c || c == 45) uuid)

-- `get_ima_reference_file_path` of both implementations, with the test of the identifier.
unfoldable pub get_ima_reference_file_path :
    (Bytes → Bool) → RefPaths → (Bytes → Bool) → Option Bytes → Bytes
get_ima_reference_file_path is_valid paths exists none = paths.ima_reference_file
get_ima_reference_file_path is_valid paths exists (some app_id) =
    if is_valid app_id
    then if exists (app_path_of paths app_id)
      then app_path_of paths app_id
      else paths.ima_reference_file
    else paths.ima_reference_file

module _ (h : Digester) (parser : ImaParser) (paths : RefPaths) (files : RefFiles) where
  -- The end of both implementations.
  unfoldable pub check_references : (Bytes → Bool) → List ImaEvent → Option Bytes → Result Detail
  check_references is_valid events app_id = do
    let ref_path = get_ima_reference_file_path is_valid paths files.exists app_id
    ima_refs ← context io (files.file_reader ref_path)
    verify_ima_events h events ima_refs

  -- The virtCCA implementation, behind the parser. `events[1]` is there, and a register that no
  -- event extended is a panic.
  unfoldable pub virtcca_events : Bytes → List ImaEvent → List Bytes → Option Bytes → Result Detail
  virtcca_events ima_log events cvm_rem app_id = do
    enough ← guard (not (ltb (length events) 2)) no_records
    second ← expect (get_elem? events 1)
    in_range ← guard (not (ltb second.pcr_index 1 || ltb 4 second.pcr_index)) bad_index
    pcr_value ← expect (parser.pcr_sha256 ima_log second.pcr_index)
    log_hash ← expect (get_elem? cvm_rem (second.pcr_index - 1))
    same ← guard (bytes_eq (h.hex_encode pcr_value) (h.hex_encode log_hash)) log_mismatch
    check_references is_valid_rim_hex events app_id

  unfoldable pub virtcca_ima_verify : Bytes → List Bytes → Option Bytes → Result Detail
  virtcca_ima_verify [] cvm_rem app_id = ok []
  virtcca_ima_verify (b ∷ ima_log) cvm_rem app_id = do
    events ← context bad_log (parser.events (b ∷ ima_log))
    virtcca_events (b ∷ ima_log) events cvm_rem app_id

  unfoldable pub itrustee_ima_verify : Bytes → List Bytes → Option Bytes → Result Detail
  itrustee_ima_verify [] ima_log_hash app_id = ok []
  itrustee_ima_verify (b ∷ ima_log) ima_log_hash app_id = do
    events ← context bad_log (parser.events (b ∷ ima_log))
    enough ← guard (not (ltb (length events) 2)) no_records
    expected ← context no_log_hash (get_elem? ima_log_hash 0)
    same ← guard (bytes_eq (h.sha256 (b ∷ ima_log)) expected) log_mismatch
    check_references is_valid_uuid events app_id
