-- ===== src/Crypto.antt =====
-- What the modelled code takes from other crates (k256, ecdsa, ark-serialize, ark-groth16,
-- num-bigint, arkworks-native-gadgets): types and operations without a definition here, and the
-- documented behaviour that some theorems rely on.
use unified_attestation.Prelude.{ℕ, ◌<◌, ◌^◌, ◌≡◌, Bool, true, Option, some, List, length, arith}
use unified_attestation.Bytes.{Bytes}
use unified_attestation.Shrubs.{Hasher}

-- `serialize_uncompressed` and `deserialize_uncompressed` of a type.
pub record Codec (A : Type 0) : Type 0 where
  pub serialize : A → Option Bytes
  pub deserialize : Bytes → Option A

pub record Crypto : Type 1 where
  pub Scalar : Type 0
  pub Proof : Type 0
  pub ArkVerifyingKey : Type 0
  pub Signature : Type 0
  pub VerifyingKey : Type 0
  pub SigningKey : Type 0
  pub scalar : Codec Scalar
  pub proof : Codec Proof
  pub ark_vk : Codec ArkVerifyingKey
  pub to_der : Signature → Bytes
  pub from_der : Bytes → Option Signature
  pub to_encoded_point : VerifyingKey → Bytes
  pub from_sec1_bytes : Bytes → Option VerifyingKey
  pub sign : SigningKey → Bytes → Signature
  pub verify : VerifyingKey → Bytes → Signature → Bool
  pub verifying_key : SigningKey → VerifyingKey
  pub to_bytes : SigningKey → Bytes
  pub from_bytes_be : Bytes → Scalar
  pub from_u64 : ℕ → Scalar
  pub to_string : Scalar → Bytes
  pub hasher : Hasher Scalar
  pub groth16_verify : ArkVerifyingKey → List Scalar → Proof → Option Bool

-- A length that the Rust runtime can allocate.
abbrev pub IsSmall : Bytes → Type 0
IsSmall b = length b < 2 ^ 63

-- What these crates serialize is far below 4 GB: a scalar, a key, a signature, a proof.
abbrev pub IsShort : Bytes → Type 0
IsShort b = length b < 2 ^ 32

pub IsShort-IsSmall : (b : Bytes) → IsShort b → IsSmall b
IsShort-IsSmall b h = omega arith

-- Serialization succeeds and deserialization inverts it.
abbrev pub RoundTrips : {A : Type 0} → Codec A → Type 0
RoundTrips {A} codec =
    (x : A)
    → (b : Bytes) × (codec.serialize x ≡ some b) × (codec.deserialize b ≡ some x) × IsShort b

pub record CodecLaws (c : Crypto) : Type 0 where
  pub scalar_law : RoundTrips c.scalar
  pub proof_law : RoundTrips c.proof
  pub ark_vk_law : RoundTrips c.ark_vk
  pub der_law : (s : c.Signature) → c.from_der (c.to_der s) ≡ some s
  pub der_short : (s : c.Signature) → IsShort (c.to_der s)
  pub point_law : (k : c.VerifyingKey) → c.from_sec1_bytes (c.to_encoded_point k) ≡ some k
  pub point_short : (k : c.VerifyingKey) → IsShort (c.to_encoded_point k)

-- A signature verifies under the key of its signer.
abbrev pub Verifies : Crypto → Type 0
Verifies c = (k : c.SigningKey) (m : Bytes) → c.verify (c.verifying_key k) m (c.sign k m) ≡ true
