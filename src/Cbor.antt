-- ===== src/Cbor.antt =====
-- The values of the crate ciborium that evidence-verify/src/virtcca matches on, and the wrappers
-- of its accessors (Decode) in evidence-verify/src/virtcca/ccatoken.rs. A text is its bytes.
use unified_attestation.Prelude.{
  ℕ, zero, suc, Bool, false, ◌||◌, Option, none, some, List, [], ◌∷◌, length, ◌==◌, if◌then◌else◌,
}
use unified_attestation.Outcome.{
  Result, ok, err, ◌>>=◌, context, not_bytes, not_text, not_num, not_array, bad_size, bad_count,
}
use unified_attestation.Bytes.{Bytes}

-- An `i128`, within the range that CBOR has.
pub data ℤ : Type 0 where
  pos negsuc : ℕ → ℤ

-- `simple` is every kind that the code accepts nowhere: Booleans, null and floating point.
mutual
  pub data Value : Type 0 where
    integer : ℤ → Value
    bytes text : Bytes → Value
    simple : Value
    array : Values → Value
    tag : ℕ → Value → Value
    map_of : Entries → Value

  pub data Values : Type 0 where
    nil : Values
    cons : Value → Values → Values

  pub data Entries : Type 0 where
    end : Entries
    entry : Value → Value → Entries → Entries

abbrev pub as_bytes : Value → Option Bytes
as_bytes (bytes b) = some b
as_bytes _ = none

abbrev pub as_text : Value → Option Bytes
as_text (text b) = some b
as_text _ = none

abbrev pub as_integer : Value → Option ℤ
as_integer (integer i) = some i
as_integer _ = none

abbrev pub as_array : Value → Option Values
as_array (array vs) = some vs
as_array _ = none

abbrev pub to_list : Values → List Value
to_list nil = []
to_list (cons v vs) = v ∷ to_list vs

abbrev pub contains : List ℕ → ℕ → Bool
contains [] n = false
contains (m ∷ sizes) n = m == n || contains sizes n

-- Every size is right where none is asked for.
unfoldable pub of_size : List ℕ → Bytes → Result Bytes
of_size [] b = ok b
of_size (n ∷ sizes) b = if contains (n ∷ sizes) (length b) then ok b else err bad_size

unfoldable pub get_vec : Value → List ℕ → Result Bytes
get_vec v size = do tmp ← context not_bytes (as_bytes v); of_size size tmp

-- `trim_end_matches` of the character 0.
abbrev pub trim_end : Bytes → Bytes
trim_end [] = []
trim_end (b ∷ bs) = keep b (trim_end bs)
  where
    keep : ℕ → Bytes → Bytes
    keep zero [] = []
    keep zero (c ∷ cs) = zero ∷ c ∷ cs
    keep (suc b') cs = suc b' ∷ cs

unfoldable pub get_string : Value → Result Bytes
get_string v = do tmp ← context not_text (as_text v); ok (trim_end tmp)

unfoldable pub get_num : Value → Result ℤ
get_num v = context not_num (as_integer v)

unfoldable pub get_array : Value → ℕ → Result (List Value)
get_array v array_size = do
  tmp ← context not_array (as_array v)
  if length (to_list tmp) == array_size then ok (to_list tmp) else err bad_count

-- The loop over the entries of a map: an entry whose key is no integer ends it.
module _ {A : Type 0} (set_entry : ℤ → Value → A → Result A) (bad_key : Result A) where
  unfoldable pub set_entries : Entries → A → Result A
  set_entries end token = ok token
  set_entries (entry (integer i) v rest) token = do
    changed ← set_entry i v token
    set_entries rest changed
  set_entries (entry (bytes b) v rest) token = bad_key
  set_entries (entry (text b) v rest) token = bad_key
  set_entries (entry simple v rest) token = bad_key
  set_entries (entry (array vs) v rest) token = bad_key
  set_entries (entry (tag t m) v rest) token = bad_key
  set_entries (entry (map_of es) v rest) token = bad_key
