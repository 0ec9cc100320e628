-- ===== src/EventLog/Format.antt =====
-- evidence-verify/src/eventlog_rs/mod.rs against the layout of a crypto-agile TCG event log: a
-- header record that lists the sizes of the digests, entries, and an end.
use unified_attestation.Prelude.{
  ℕ, ◌+◌, ◌*◌, ◌/◌, ◌%◌, ◌^◌, ◌<◌, ◌≡◌, false, some, List, [], ◌∷◌, ◌++◌, map, length, ◌==◌,
}
use unified_attestation.Bytes.{Bytes}
use unified_attestation.EventLog.{
  name_of, tcg_algorithms, no_action, ElDigest, EventlogEntry, SizeMap, size_of, is_stop,
}

-- Numbers of two and four bytes.
unfoldable pub le16 : ℕ → Bytes
le16 x = x % 256 ∷ x / 2 ^ 8 % 256 ∷ []

unfoldable pub le32 : ℕ → Bytes
le32 x = x % 256 ∷ x / 2 ^ 8 % 256 ∷ x / 2 ^ 16 % 256 ∷ x / 2 ^ 24 % 256 ∷ []

pub record RawDigest : Type 0 where
  pub algorithm : ℕ
  pub digest : Bytes

pub record RawEntry : Type 0 where
  pub registry : ℕ
  pub event_type : ℕ
  pub digests : List RawDigest
  pub desc : Bytes

pub record RawHeader : Type 0 where
  pub registry : ℕ
  pub specification : Bytes
  pub sizes : List (ℕ × ℕ)
  pub vendor : Bytes

unfoldable pub sizes_bytes : List (ℕ × ℕ) → Bytes
sizes_bytes [] = []
sizes_bytes ((algorithm, size) ∷ sizes) = le16 algorithm ++ (le16 size ++ sizes_bytes sizes)

unfoldable pub digests_bytes : List RawDigest → Bytes
digests_bytes [] = []
digests_bytes (d ∷ ds) = le16 d.algorithm ++ (d.digest ++ digests_bytes ds)

unfoldable pub entry_bytes : RawEntry → Bytes
entry_bytes e =
    le32 e.registry
    ++ (le32 e.event_type
        ++ (le32 (length e.digests)
            ++ (digests_bytes e.digests ++ (le32 (length e.desc) ++ e.desc))))

unfoldable pub entries_bytes : List RawEntry → Bytes
entries_bytes [] = []
entries_bytes (e ∷ es) = entry_bytes e ++ entries_bytes es

unfoldable pub header_bytes : RawHeader → Bytes
header_bytes h =
    le32 h.registry
    ++ (le32 no_action
        ++ (h.specification
            ++ (le32 (length h.sizes)
                ++ (sizes_bytes h.sizes ++ ((length h.vendor ∷ []) ++ h.vendor)))))

-- The end: nothing, or a record that begins with eight bytes of 0 or of 255.
pub data IsEnd : Bytes → Type 0 where
  at_end : IsEnd []
  zeros : (rest : Bytes) → IsEnd (le32 0 ++ (le32 0 ++ rest))
  ones : (rest : Bytes) → IsEnd (le32 0xffff_ffff ++ (le32 0xffff_ffff ++ rest))

-- The sizes as the parser keeps them: the last one first.
unfoldable pub kept : SizeMap → List (ℕ × ℕ) → SizeMap
kept sizes [] = sizes
kept sizes (x ∷ xs) = kept (x ∷ sizes) xs

abbrev pub AllOf : {A : Type 0} → (A → Type 0) → List A → Type 0
AllOf P [] = Unit
AllOf P (x ∷ xs) = P x × AllOf P xs

abbrev pub IsSize : ℕ × ℕ → Type 0
IsSize (algorithm, size) = (algorithm < 2 ^ 16) × (size < 2 ^ 16)

pub record IsDigest (sizes : SizeMap) (d : RawDigest) : Type 0 where
  pub algorithm_u16 : d.algorithm < 2 ^ 16
  pub sized : size_of sizes d.algorithm ≡ some (length d.digest)

pub record IsEntry (sizes : SizeMap) (e : RawEntry) : Type 0 where
  pub registry_u32 : e.registry < 2 ^ 32
  pub type_u32 : e.event_type < 2 ^ 32
  pub action : (e.event_type == no_action) ≡ false
  pub goes_on : is_stop (e.registry + 2 ^ 32 * e.event_type) ≡ false
  pub count_u32 : length e.digests < 2 ^ 32
  pub digests_ok : AllOf (IsDigest sizes) e.digests
  pub desc_u32 : length e.desc < 2 ^ 32

pub record IsHeader (h : RawHeader) : Type 0 where
  pub registry_u32 : h.registry < 2 ^ 32
  pub specification_48 : length h.specification ≡ 48
  pub count_u32 : length h.sizes < 2 ^ 32
  pub sizes_ok : AllOf IsSize h.sizes
  pub vendor_u8 : length h.vendor < 256

abbrev pub named_digest : RawDigest → ElDigest
named_digest d = record { algorithm = name_of tcg_algorithms d.algorithm; digest = d.digest }

abbrev pub entry_of : RawEntry → EventlogEntry
entry_of e = record {
  target_measurement_registry = e.registry;
  event_type_id = e.event_type;
  digests = map named_digest e.digests;
  event_desc = e.desc;
}
