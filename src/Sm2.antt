-- ===== src/Sm2.antt =====
-- evidence-verify/src/csv/report.rs (keys and signatures) and evidence-verify/src/csv/sm2.rs: the
-- SM2 signatures of Hygon. The points of the curve and SM3 are openssl's, parameters here.
use unified_attestation.Prelude.{
  ℕ, ◌+◌, ◌*◌, ◌%◌, ◌/◌, Bool, false, ◌&&◌, Option, [], ◌∷◌, ◌++◌, length, take, drop, leb, ltb,
  ◌==◌, not, if◌then◌else◌,
}
use mathlib.Core.List.{reverse}
use unified_attestation.Outcome.{Result, ok, panic, ◌>>=◌, context, guard, bad_signature, bad_key}
use unified_attestation.Bytes.{Bytes, from_be}
use unified_attestation.EventLog.{from_le}

-- `&raw[offset..offset + n]`
unfoldable pub slice_at : ℕ → ℕ → Bytes → Result Bytes
slice_at offset n raw =
    if leb (offset + n) (length raw) then ok (take n (drop offset raw)) else panic

unfoldable pub u32_at_le : Bytes → ℕ → Result ℕ
u32_at_le input offset = do word ← slice_at offset 4 input; ok (from_le word)

unfoldable pub first_ecc_len_reversed : Bytes → Result Bytes
first_ecc_len_reversed input = do first ← slice_at 0 32 input; ok (reverse first)

-- The fields of an `EccPubKey`: the coordinates and the user.
pub record PubKey : Type 0 where
  pub qx : Bytes
  pub qy : Bytes
  pub user_id : Bytes

unfoldable pub pub_key_of : Bytes → Result PubKey
pub_key_of key_bytes = do
  x_field ← slice_at 4 72 key_bytes
  x ← first_ecc_len_reversed x_field
  y_field ← slice_at 76 72 key_bytes
  y ← first_ecc_len_reversed y_field
  raw ← slice_at 148 256 key_bytes
  let n = from_le (take 2 raw)
  user ← slice_at 2 (if leb n 254 then n else 254) raw
  ok (record { qx = x; qy = y; user_id = user })

-- `r` and `s` of an `EccSignature`, as numbers.
unfoldable pub signature_of : Bytes → Result (ℕ × ℕ)
signature_of signature_bytes = do
  r_field ← slice_at 0 72 signature_bytes
  r ← first_ecc_len_reversed r_field
  s_field ← slice_at 72 72 signature_bytes
  s ← first_ecc_len_reversed s_field
  ok (from_be 0 r, from_be 0 s)

-- `mul_x` is the first coordinate of s times the generator plus t times a key.
pub record Sm2 : Type 0 where
  pub sm3 : Bytes → Bytes
  pub on_curve : PubKey → Bool
  pub mul_x : ℕ → PubKey → ℕ → Option ℕ

-- SM2_A, SM2_B, SM2_GX and SM2_GY
abbrev pub sm2_curve : Bytes
sm2_curve =
    0xff ∷ 0xff ∷ 0xff ∷ 0xfe ∷ 0xff ∷ 0xff ∷ 0xff ∷ 0xff ∷ 0xff ∷ 0xff ∷ 0xff ∷ 0xff ∷ 0xff ∷ 0xff
    ∷ 0xff ∷ 0xff ∷ 0xff ∷ 0xff ∷ 0xff ∷ 0xff ∷ 0x00 ∷ 0x00 ∷ 0x00 ∷ 0x00 ∷ 0xff ∷ 0xff ∷ 0xff
    ∷ 0xff ∷ 0xff ∷ 0xff ∷ 0xff ∷ 0xfc ∷ 0x28 ∷ 0xe9 ∷ 0xfa ∷ 0x9e ∷ 0x9d ∷ 0x9f ∷ 0x5e ∷ 0x34
    ∷ 0x4d ∷ 0x5a ∷ 0x9e ∷ 0x4b ∷ 0xcf ∷ 0x65 ∷ 0x09 ∷ 0xa7 ∷ 0xf3 ∷ 0x97 ∷ 0x89 ∷ 0xf5 ∷ 0x15
    ∷ 0xab ∷ 0x8f ∷ 0x92 ∷ 0xdd ∷ 0xbc ∷ 0xbd ∷ 0x41 ∷ 0x4d ∷ 0x94 ∷ 0x0e ∷ 0x93 ∷ 0x32 ∷ 0xc4
    ∷ 0xae ∷ 0x2c ∷ 0x1f ∷ 0x19 ∷ 0x81 ∷ 0x19 ∷ 0x5f ∷ 0x99 ∷ 0x04 ∷ 0x46 ∷ 0x6a ∷ 0x39 ∷ 0xc9
    ∷ 0x94 ∷ 0x8f ∷ 0xe3 ∷ 0x0b ∷ 0xbf ∷ 0xf2 ∷ 0x66 ∷ 0x0b ∷ 0xe1 ∷ 0x71 ∷ 0x5a ∷ 0x45 ∷ 0x89
    ∷ 0x33 ∷ 0x4c ∷ 0x74 ∷ 0xc7 ∷ 0xbc ∷ 0x37 ∷ 0x36 ∷ 0xa2 ∷ 0xf4 ∷ 0xf6 ∷ 0x77 ∷ 0x9c ∷ 0x59
    ∷ 0xbd ∷ 0xce ∷ 0xe3 ∷ 0x6b ∷ 0x69 ∷ 0x21 ∷ 0x53 ∷ 0xd0 ∷ 0xa9 ∷ 0x87 ∷ 0x7c ∷ 0xc6 ∷ 0x2a
    ∷ 0x47 ∷ 0x40 ∷ 0x02 ∷ 0xdf ∷ 0x32 ∷ 0xe5 ∷ 0x21 ∷ 0x39 ∷ 0xf0 ∷ 0xa0 ∷ []

abbrev pub sm2_order : ℕ
sm2_order = 0xfffffffeffffffffffffffffffffffff7203df6b21c6052b53bbf40939d54123

abbrev pub in_range : ℕ → Bool
in_range n = not (n == 0) && ltb n sm2_order

module _ (c : Sm2) where
  -- `user_id` gives at most 254 bytes, so that the bail on a longer one is left out.
  unfoldable pub sm2_message_digest : Bytes → PubKey → Bytes
  sm2_message_digest msg key =
      let bits = length key.user_id * 8 in
      let entl = bits / 256 % 256 ∷ bits % 256 ∷ [] in
      let za = c.sm3 (entl ++ (key.user_id ++ (sm2_curve ++ (key.qx ++ key.qy)))) in
      c.sm3 (za ++ msg)

  unfoldable pub verify_sm2_digest : PubKey → Bytes → ℕ → ℕ → Result Bool
  verify_sm2_digest key digest r s =
      if in_range r && (in_range s && not ((r + s) % sm2_order == 0))
      then (do
        x ← context bad_key (c.mul_x s key ((r + s) % sm2_order))
        ok ((from_be 0 digest + x) % sm2_order == r))
      else ok false

  unfoldable pub verify_signature : Bytes → ℕ × ℕ → PubKey → Result (Unit {0})
  verify_signature msg signature key = do
    point ← guard (c.on_curve key) bad_key
    verified ← verify_sm2_digest key (sm2_message_digest msg key) signature.0 signature.1
    guard verified bad_signature
