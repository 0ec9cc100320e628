-- ===== src/EventLog.antt =====
-- evidence-verify/src/eventlog_rs (mod.rs, enums.rs, bios_eventlog.rs): the parsers of the event
-- logs. `data` and `index` are the bytes from `index` on; a slice out of range panics.
pub mod Format
pub mod RoundTrip
pub mod Total
use Prim.Native.String.{String}
use unified_attestation.Prelude.{
  ℕ, zero, suc, ◌+◌, ◌*◌, Bool, true, false, ◌||◌, Option, none, some, List, [], ◌∷◌, ◌++◌, length,
  take, drop, leb, ◌==◌, if◌then◌else◌,
}
use unified_attestation.Outcome.{Error, Result, ok, err, panic, stuck, ◌>>=◌, context, digest_size}
use unified_attestation.Bytes.{Bytes}
use unified_attestation.Wire.{Reader}

-- A number of the log, least significant byte first.
unfoldable pub from_le : Bytes → ℕ
from_le [] = 0
from_le (b ∷ bs) = b + 256 * from_le bs

-- `data[index..index + n]`, and `index += n`.
unfoldable pub slice : ℕ → Reader Bytes
slice n s = if leb n (length s) then ok (take n s, drop n s) else panic

unfoldable pub read_le : ℕ → Reader ℕ
read_le n s = do (bytes, s) ← slice n s; ok (from_le bytes, s)

-- A name of the tables `EVENTLOG_TYPES` and `TCG_ALGORITHMS`, or the number that is in none.
pub data Name : Type 0 where
  named : String → Name
  unknown : ℕ → Name

pub data NameTable : Type 0 where
  none_left : NameTable
  entry : ℕ → String → NameTable → NameTable

abbrev pub name_of : NameTable → ℕ → Name
name_of none_left n = unknown n
name_of (entry k name table) n = if k == n then named name else name_of table n

abbrev pub tcg_algorithms : NameTable
tcg_algorithms = entry 0x1 "TPM_ALG_RSA" (
    entry 0x3 "TPM_ALG_TDES" (
      entry 0x4 "TPM_ALG_SHA1" (
        entry 0xb "TPM_ALG_SHA256"
          (entry 0xc "TPM_ALG_SHA384" (entry 0xd "TPM_ALG_SHA512" none_left)))))

-- 0x3 is "EV_NO_ACTION".
abbrev pub no_action : ℕ
no_action = 0x3

pub record ElDigest : Type 0 where
  pub algorithm : Name
  pub digest : Bytes

-- The type's name is a function of `event_type_id`.
pub record EventlogEntry : Type 0 where
  pub target_measurement_registry : ℕ
  pub event_type_id : ℕ
  pub digests : List ElDigest
  pub event_desc : Bytes

-- `digest_size_map`; the entry that was inserted last counts.
abbrev pub SizeMap : Type 0
SizeMap = List (ℕ × ℕ)

unfoldable pub size_of : SizeMap → ℕ → Option ℕ
size_of [] n = none
size_of ((k, size) ∷ sizes) n = if k == n then some size else size_of sizes n

-- `for _ in 0..algo_number`
unfoldable pub read_sizes : ℕ → SizeMap → Reader SizeMap
read_sizes zero sizes s = ok (sizes, s)
read_sizes (suc count) sizes s = do
  (algorithm, s) ← read_le 2 s
  (size, s) ← read_le 2 s
  read_sizes count ((algorithm, size) ∷ sizes) s

-- An "EV_NO_ACTION" record, behind its type: the sizes of the digests. A vendor field that is
-- longer than the data only ends the loop.
unfoldable pub read_header : SizeMap → Reader SizeMap
read_header sizes s = do
  (algo_number, s) ← read_le 4 (drop 48 s)
  (sizes, s) ← read_sizes algo_number sizes s
  (vendor_size, s) ← read_le 1 s
  ok (sizes, drop vendor_size s)

unfoldable pub read_digest : SizeMap → Reader ElDigest
read_digest sizes s = do
  (algorithm, s) ← read_le 2 s
  size ← context digest_size (size_of sizes algorithm)
  (digest, s) ← slice size s
  ok (record { algorithm = name_of tcg_algorithms algorithm; digest = digest }, s)

-- `for _ in 0..digest_count`
unfoldable pub read_digests : SizeMap → ℕ → Reader (List ElDigest)
read_digests sizes zero s = ok ([], s)
read_digests sizes (suc count) s = do
  (digest, s) ← read_digest sizes s
  (digests, s) ← read_digests sizes count s
  ok (digest ∷ digests, s)

unfoldable pub read_sized : Reader Bytes
read_sized s = do (size, s) ← read_le 4 s; slice size s

-- The rest of an entry, behind its type.
unfoldable pub read_entry : SizeMap → ℕ → ℕ → Reader EventlogEntry
read_entry sizes registry event_type s = do
  (digest_count, s) ← read_le 4 s
  (digests, s) ← read_digests sizes digest_count s
  (event_desc, s) ← read_sized s
  ok (
    record {
      target_measurement_registry = registry;
      event_type_id = event_type;
      digests = digests;
      event_desc = event_desc;
    },
    s,
  )

abbrev pub is_stop : ℕ → Bool
is_stop flag = flag == 0xffff_ffff_ffff_ffff || flag == 0

-- The `while` of `try_from`. Fuel: each round takes at least the 8 bytes of the stop flag.
unfoldable pub parse_loop : ℕ → SizeMap → Bytes → Result (List EventlogEntry)
parse_loop fuel sizes [] = ok []
parse_loop zero sizes (b ∷ bs) = stuck
parse_loop (suc fuel) sizes (b ∷ bs) = do
  (stop_flag, ahead) ← read_le 8 (b ∷ bs)
  (registry, s) ← read_le 4 (b ∷ bs)
  (event_type, s) ← read_le 4 s
  let header = read_header sizes s >>= λ r. parse_loop fuel r.0 r.1
  let found = read_entry sizes registry event_type s
  let entry_then_rest = found >>= λ r. parse_loop fuel sizes r.1 >>= λ rest. ok (r.0 ∷ rest)
  if event_type == no_action then header else if is_stop stop_flag then ok [] else entry_then_rest

unfoldable pub parse : Bytes → Result (List EventlogEntry)
parse log_bytes = parse_loop (length log_bytes) [] log_bytes

-- The log of a conventional BIOS.
pub record BiosEventlogEntry : Type 0 where
  pub pcr_index : ℕ
  pub event_type : ℕ
  pub digest : Bytes
  pub event_data : Bytes

unfoldable pub parse_bios_loop : ℕ → Bytes → Result (List BiosEventlogEntry)
parse_bios_loop fuel [] = ok []
parse_bios_loop zero (b ∷ bs) = stuck
parse_bios_loop (suc fuel) (b ∷ bs) = do
  (stop_flag, ahead) ← read_le 8 (b ∷ bs)
  (pcr_index, s) ← read_le 4 (b ∷ bs)
  (event_type, s) ← read_le 4 s
  let found = do
    (digest, s) ← slice 20 s
    (event_data, s) ← read_sized s
    rest ← parse_bios_loop fuel s
    let item : BiosEventlogEntry = record {
      pcr_index = pcr_index;
      event_type = event_type;
      digest = digest;
      event_data = event_data;
    }
    ok (item ∷ rest)
  if is_stop stop_flag then ok [] else found

unfoldable pub parse_bios : Bytes → Result (List BiosEventlogEntry)
parse_bios log_bytes = parse_bios_loop (length log_bytes) log_bytes
