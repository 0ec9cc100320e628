-- ===== src/Wire.antt =====
-- hydra-toolkit/src/lib.rs, "Wire codec helpers": a cursor is the bytes that are left, `&mut out`
-- the bytes written so far. A string is its bytes; a `usize` has 64 bits, and a vector takes at
-- most `isize::MAX` bytes: `vec!` and `with_capacity` panic beyond.
pub mod Fields
use unified_attestation.Prelude.{
  ℕ, zero, suc, ◌+◌, ◌*◌, ◌^◌, Bool, true, false, Option, none, some, List, [], ◌∷◌, ◌++◌, length,
  take, drop, leb, ltb, if◌then◌else◌,
}
use unified_attestation.Outcome.{
  Result, ok, err, panic, ◌>>=◌, context, read_fixed_bytes, read_length_prefixed, utf8,
  invalid_bool, invalid_option_tag, serialize, deserialize_scalar, deserialize_proof,
  deserialize_vk, deserialize_signature, deserialize_public_key,
}
use unified_attestation.Bytes.{Bytes, be32, be64, from_be, Duration, new_duration, is_utf8}
use unified_attestation.Crypto.{Crypto, Codec}

abbrev pub Reader {ℓ} : Type ℓ → Type ℓ
Reader A = Bytes → Result (A × Bytes)

unfoldable pub append_len_bytes : Bytes → Bytes → Bytes
append_len_bytes out bytes = (out ++ be64 (length bytes)) ++ bytes

unfoldable pub read_exact : ℕ → Reader Bytes
read_exact n s = if leb n (length s) then ok (take n s, drop n s) else err read_fixed_bytes

unfoldable pub read_u64 : Reader ℕ
read_u64 s = do (bytes, s) ← read_exact 8 s; ok (from_be 0 bytes, s)

unfoldable pub read_u32 : Reader ℕ
read_u32 s = do (bytes, s) ← read_exact 4 s; ok (from_be 0 bytes, s)

-- `read_exact(..)?[0]` on an array of one byte.
unfoldable pub read_byte : Reader ℕ
read_byte s = do (bytes, s) ← read_exact 1 s; ok (from_be 0 bytes, s)

-- `vec![..; len]` and `Vec::with_capacity(len)` of items of `size` bytes.
unfoldable pub allocate : ℕ → ℕ → Result (Unit {0})
allocate size len = if ltb (size * len) (2 ^ 63) then ok tt else panic

unfoldable pub read_len_bytes : Reader Bytes
read_len_bytes s = do
  (len, s) ← read_u64 s
  done ← allocate 1 len
  if leb len (length s) then ok (take len s, drop len s) else err read_length_prefixed

unfoldable pub read_string : Reader Bytes
read_string s = do (bytes, s) ← read_len_bytes s; if is_utf8 bytes then ok (bytes, s) else err utf8

unfoldable pub append_duration : Bytes → Duration → Bytes
append_duration out d = (out ++ be64 d.secs) ++ be32 d.nanos

unfoldable pub read_duration : Reader Duration
read_duration s = do
  (secs, s) ← read_u64 s
  (nanos, s) ← read_u32 s
  d ← new_duration secs nanos
  ok (d, s)

-- `for _ in 0..len { values.push(read(cursor)?) }`
unfoldable pub read_times {ℓ} : {A : Type ℓ} → Reader A → ℕ → Reader (List A)
read_times read zero s = ok ([], s)
read_times read (suc len) s = do (x, s) ← read s; (xs, s) ← read_times read len s; ok (x ∷ xs, s)

abbrev pub bool_byte : Bool → ℕ
bool_byte false = 0
bool_byte true = 1

abbrev pub bool_bytes : List Bool → Bytes
bool_bytes [] = []
bool_bytes (b ∷ bs) = bool_byte b ∷ bool_bytes bs

unfoldable pub append_bool_vec : Bytes → List Bool → Bytes
append_bool_vec out values = (out ++ be64 (length values)) ++ bool_bytes values

abbrev pub to_bool : ℕ → Result Bool
to_bool zero = ok false
to_bool (suc zero) = ok true
to_bool (suc (suc n)) = err (invalid_bool (suc (suc n)))

unfoldable pub read_bool : Reader Bool
read_bool s = do (b, s) ← read_byte s; value ← to_bool b; ok (value, s)

unfoldable pub read_bool_vec : Reader (List Bool)
read_bool_vec s = do (len, s) ← read_u64 s; done ← allocate 1 len; read_times read_bool len s

-- The tag of an option on the wire: 0 is none, 1 is some.
abbrev pub read_tagged {ℓ} : {A : Type ℓ} → Reader A → ℕ → Reader (Option A)
read_tagged read zero s = ok (none, s)
read_tagged read (suc zero) s = do (x, s) ← read s; ok (some x, s)
read_tagged read (suc (suc n)) s = err (invalid_option_tag (suc (suc n)))

unfoldable pub read_option {ℓ} : {A : Type ℓ} → Reader A → Reader (Option A)
read_option read s = do (tag, s) ← read_byte s; read_tagged read tag s

unfoldable pub append_option_bool_vec : Bytes → Option (List Bool) → Bytes
append_option_bool_vec out (some values) = append_bool_vec (out ++ (1 ∷ [])) values
append_option_bool_vec out none = out ++ (0 ∷ [])

unfoldable pub read_option_bool_vec : Reader (Option (List Bool))
read_option_bool_vec = read_option read_bool_vec

module _ (c : Crypto) where
  unfoldable pub encode_scalar : c.Scalar → Result Bytes
  encode_scalar x = context serialize (c.scalar.serialize x)

  unfoldable pub decode_scalar : Bytes → Result c.Scalar
  decode_scalar bytes = context deserialize_scalar (c.scalar.deserialize bytes)

  unfoldable pub append_scalar : Bytes → c.Scalar → Result Bytes
  append_scalar out x = do bytes ← encode_scalar x; ok (append_len_bytes out bytes)

  unfoldable pub read_scalar : Reader c.Scalar
  read_scalar s = do (bytes, s) ← read_len_bytes s; x ← decode_scalar bytes; ok (x, s)

  unfoldable pub append_scalars : Bytes → List c.Scalar → Result Bytes
  append_scalars out [] = ok out
  append_scalars out (x ∷ xs) = do out ← append_scalar out x; append_scalars out xs

  unfoldable pub append_scalar_vec : Bytes → List c.Scalar → Result Bytes
  append_scalar_vec out values = append_scalars (out ++ be64 (length values)) values

  -- A field element takes 32 bytes of memory.
  unfoldable pub read_scalar_vec : Reader (List c.Scalar)
  read_scalar_vec s = do (len, s) ← read_u64 s; done ← allocate 32 len; read_times read_scalar len s

  unfoldable pub append_signature : Bytes → c.Signature → Bytes
  append_signature out x = append_len_bytes out (c.to_der x)

  unfoldable pub decode_signature : Bytes → Result c.Signature
  decode_signature bytes = context deserialize_signature (c.from_der bytes)

  unfoldable pub read_signature : Reader c.Signature
  read_signature s = do (bytes, s) ← read_len_bytes s; x ← decode_signature bytes; ok (x, s)

  unfoldable pub append_verifying_key : Bytes → c.VerifyingKey → Bytes
  append_verifying_key out k = append_len_bytes out (c.to_encoded_point k)

  unfoldable pub read_verifying_key : Reader c.VerifyingKey
  read_verifying_key s = do
    (bytes, s) ← read_len_bytes s
    k ← context deserialize_public_key (c.from_sec1_bytes bytes)
    ok (k, s)

  unfoldable pub append_proof : Bytes → c.Proof → Result Bytes
  append_proof out x = do
    bytes ← context serialize (c.proof.serialize x)
    ok (append_len_bytes out bytes)

  unfoldable pub read_proof : Reader c.Proof
  read_proof s = do
    (bytes, s) ← read_len_bytes s
    x ← context deserialize_proof (c.proof.deserialize bytes)
    ok (x, s)

  unfoldable pub append_ark_vk : Bytes → c.ArkVerifyingKey → Result Bytes
  append_ark_vk out x = do
    bytes ← context serialize (c.ark_vk.serialize x)
    ok (append_len_bytes out bytes)

  unfoldable pub read_ark_vk : Reader c.ArkVerifyingKey
  read_ark_vk s = do
    (bytes, s) ← read_len_bytes s
    x ← context deserialize_vk (c.ark_vk.deserialize bytes)
    ok (x, s)
