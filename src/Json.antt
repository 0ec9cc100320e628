-- ===== src/Json.antt =====
-- The values of the crate serde_json that the verifier reads and writes. A text is its bytes; an
-- object is a list in which each key stands once, as far as `insert` makes it.
use unified_attestation.Prelude.{ℕ, ◌≡◌, refl, Bool, Option, none, some, [], ◌∷◌, if◌then◌else◌}
use Prim.Native.String.{String}
use Prim.Native.Char.{code}
use unified_attestation.Bytes.{Bytes}
use unified_attestation.Registers.{bytes_eq}

-- The bytes of an ASCII text.
abbrev pub ascii : String → Bytes
ascii String.[] = []
ascii (String.◌∷◌ c s) = code c ∷ ascii s

-- `float` is a number that is no natural one, as it is written.
mutual
  pub data Json : Type 0 where
    null : Json
    boolean : Bool → Json
    number : ℕ → Json
    float string : Bytes → Json
    array : Items → Json
    object : Fields → Json

  pub data Items : Type 0 where
    nil : Items
    cons : Json → Items → Items

  pub data Fields : Type 0 where
    end : Fields
    field : Bytes → Json → Fields → Fields

abbrev pub get_field : Bytes → Fields → Option Json
get_field key end = none
get_field key (field k v fields) = if bytes_eq k key then some v else get_field key fields

unfoldable pub insert : Bytes → Json → Fields → Fields
insert key v end = field key v end
insert key v (field k u fields) =
    if bytes_eq k key then field k v fields else field k u (insert key v fields)

-- `value.get(key)`
abbrev pub get : Bytes → Json → Option Json
get key (object fields) = get_field key fields
get key _ = none

abbrev pub as_str : Option Json → Option Bytes
as_str (some (string s)) = some s
as_str _ = none

abbrev pub as_bool : Option Json → Option Bool
as_bool (some (boolean b)) = some b
as_bool _ = none

abbrev pub as_object : Json → Option Fields
as_object (object fields) = some fields
as_object _ = none

abbrev pub items_count : Items → ℕ
items_count nil = 0
items_count (cons v vs) = ℕ.suc (items_count vs)

-- `v.as_array().map(|a| a.len())`
abbrev pub array_size : Option Json → Option ℕ
array_size (some (array vs)) = some (items_count vs)
array_size _ = none

abbrev pub unwrap_or {ℓ} : {A : Type ℓ} → A → Option A → A
unwrap_or a none = a
unwrap_or a (some b) = b

ascii_lem : ascii "tee" ≡ 116 ∷ 101 ∷ 101 ∷ []
ascii_lem = refl
