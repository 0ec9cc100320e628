-- ===== src/Runs/Toy.antt =====
-- A concrete instance of the parameters, small enough to compute with: every type is the numbers,
-- and a value is serialized as one item.
use unified_attestation.Prelude.{
  ℕ, ◌+◌, ◌*◌, refl, Option, some, none, [], ◌∷◌, length, ◌==◌, ==_iff, ==_refl, arith,
}
use unified_attestation.Bytes.{Bytes}
use unified_attestation.Shrubs.{Hasher}
use unified_attestation.Crypto.{Codec, Crypto, CodecLaws, Verifies}

abbrev pub adder : Hasher ℕ
adder = record { hash = λ a b. 1000 + 3 * a + b; eq = ◌==◌; eq_iff = ==_iff }

abbrev pub only : Bytes → Option ℕ
only [] = none
only (x ∷ xs) = some x

abbrev pub one_item : Codec ℕ
one_item = record { serialize = λ x. some (x ∷ []); deserialize = only }

abbrev pub toy : Crypto
toy = record {
  Scalar = ℕ;
  Proof = ℕ;
  ArkVerifyingKey = ℕ;
  Signature = ℕ;
  VerifyingKey = ℕ;
  SigningKey = ℕ;
  scalar = one_item;
  proof = one_item;
  ark_vk = one_item;
  to_der = λ s. s ∷ [];
  from_der = only;
  to_encoded_point = λ k. k ∷ [];
  from_sec1_bytes = only;
  sign = λ k m. k + length m;
  verify = λ k m s. s == k + length m;
  verifying_key = λ k. k;
  to_bytes = λ k. k ∷ [];
  from_bytes_be = length;
  from_u64 = λ n. n;
  to_string = λ x. x ∷ [];
  hasher = adder;
  groth16_verify = λ vk inputs proof. some (vk == proof);
}

pub toy_laws : CodecLaws toy
toy_laws = record {
  scalar_law = λ x. (x ∷ [], refl, refl, omega arith);
  proof_law = λ x. (x ∷ [], refl, refl, omega arith);
  ark_vk_law = λ x. (x ∷ [], refl, refl, omega arith);
  der_law = λ s. refl;
  der_short = λ s. omega arith;
  point_law = λ k. refl;
  point_short = λ k. omega arith;
}

pub toy_verifies : Verifies toy
toy_verifies k m = ==_refl (k + length m)
