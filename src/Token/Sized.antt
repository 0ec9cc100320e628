-- ===== src/Token/Sized.antt =====
-- evidence-verify/src/virtcca/ccatoken.rs: the sizes of the fields of a CvmToken.
use unified_attestation.Prelude.{
  ℕ, zero, suc, ◌∙◌, ◌+◌, ◌≡◌, inl, inr, refl, some, List, [], ◌∷◌, length, set, length-set, arith,
}
use unified_attestation.Outcome.{context, bad_cbor, not_integer}
use unified_attestation.Bytes.{Bytes}
use unified_attestation.EventLog.Format.{AllOf}
use unified_attestation.Cbor.{ℤ, Value, map_of, get_vec, get_array}
use unified_attestation.Token.{
  CvmToken, new_cvm_token, rim_sizes, cvm_label, CvmLabel, cvm_challenge, cvm_rpv, cvm_rim, cvm_rem,
  cvm_hash_alg, cvm_pub_key, cvm_pub_key_hash_alg, set_rems, set_cvm, set_cvm_entry, cvm_of, Cbor,
  decode_cvm_token,
}
use unified_attestation.Token.Post.{
  Yields, >>=-Post, context-Post, set_entries-Post, label-Post, OfSize, get_vec-OfSize,
  get_array-Post, copied-Post, string-Post,
}

-- A measurement is not set, or has one of its sizes.
abbrev pub measurement_sizes : List ℕ
measurement_sizes = 0 ∷ 32 ∷ 48 ∷ 64 ∷ []

pub record IsCvmToken (token : CvmToken) : Type 0 where
  pub challenge_64 : length token.challenge ≡ 64
  pub rpv_64 : length token.rpv ≡ 64
  pub rim_sized : OfSize measurement_sizes token.rim
  pub rem_4 : length token.rem ≡ 4
  pub rem_sized : AllOf (OfSize measurement_sizes) token.rem
  pub pub_key_sized : OfSize (0 ∷ 133 ∷ 550 ∷ []) token.pub_key

AllOf-set :
    {A : Type 0} (P : A → Type 0) (xs : List A) (i : ℕ) (v : A)
    → AllOf P xs
    → P v
    → AllOf P (set xs i v)
AllOf-set P [] i v h p = tt
AllOf-set P (x ∷ xs) zero v h p = (p, h.1)
AllOf-set P (x ∷ xs) (suc i) v h p = (h.0, AllOf-set P xs i v h.1 p)

abbrev IsRems : List Bytes → Type 0
IsRems rem = (length rem ≡ 4) × AllOf (OfSize measurement_sizes) rem

set_rems-IsRems :
    (i : ℕ) (vs : List Value) (rem : List Bytes) → IsRems rem → Yields IsRems (set_rems i vs rem)
unfolding set_rems
set_rems-IsRems i [] rem h = h
set_rems-IsRems i (v ∷ vs) rem h =
    >>=-Post ⊥ (OfSize rim_sizes) IsRems (get_vec v rim_sizes) _
      (get_vec-OfSize ⊥ v 32 (48 ∷ 64 ∷ []))
      (λ b sized.
        set_rems-IsRems (i + 1) vs (set rem i b)
          (length-set rem i b ∙ h.0, AllOf-set (OfSize measurement_sizes) rem i b h.1 (inr sized)))

set_cvm-IsCvmToken :
    (label : CvmLabel) (v : Value) (token : CvmToken)
    → IsCvmToken token
    → Yields IsCvmToken (set_cvm label v token)
unfolding set_cvm
set_cvm-IsCvmToken cvm_challenge v token h =
    copied-Post ⊥ IsCvmToken v token.challenge 64 _ h.challenge_64 (λ b n. ground arith)
set_cvm-IsCvmToken cvm_rpv v token h =
    copied-Post ⊥ IsCvmToken v token.rpv 64 _ h.rpv_64 (λ b n. ground arith)
set_cvm-IsCvmToken cvm_rim v token h =
    >>=-Post ⊥ (OfSize rim_sizes) IsCvmToken (get_vec v rim_sizes) _
      (get_vec-OfSize ⊥ v 32 (48 ∷ 64 ∷ [])) (λ b n. ground arith)
set_cvm-IsCvmToken cvm_rem v token h =
    >>=-Post ⊥ (λ vs. length vs ≡ 4) IsCvmToken (get_array v 4) _ (get_array-Post ⊥ v 4)
      (λ vs n.
        >>=-Post ⊥ IsRems IsCvmToken (set_rems 0 vs token.rem) _
          (set_rems-IsRems 0 vs token.rem (h.rem_4, h.rem_sized)) (λ rems r. ground arith))
set_cvm-IsCvmToken cvm_hash_alg v token h = string-Post ⊥ IsCvmToken v _ (λ b. ground arith)
set_cvm-IsCvmToken cvm_pub_key v token h =
    >>=-Post ⊥ (OfSize (133 ∷ 550 ∷ [])) IsCvmToken (get_vec v (133 ∷ 550 ∷ [])) _
      (get_vec-OfSize ⊥ v 133 (550 ∷ [])) (λ b n. ground arith)
set_cvm-IsCvmToken cvm_pub_key_hash_alg v token h = string-Post ⊥ IsCvmToken v _ (λ b. ground arith)

new_cvm_token-IsCvmToken : IsCvmToken new_cvm_token
new_cvm_token-IsCvmToken = record {
  challenge_64 = refl;
  rpv_64 = refl;
  rim_sized = inl refl;
  rem_4 = refl;
  rem_sized = (inl refl, (inl refl, (inl refl, (inl refl, tt))));
  pub_key_sized = inl refl;
}

set_cvm_entry-IsCvmToken :
    (i : ℤ) (v : Value) (token : CvmToken)
    → IsCvmToken token
    → Yields IsCvmToken (set_cvm_entry i v token)
unfolding set_cvm_entry
set_cvm_entry-IsCvmToken i v token h =
    label-Post ⊥ IsCvmToken (cvm_label i) _ (λ label. set_cvm-IsCvmToken label v token h)

cvm_of-IsCvmToken : (v : Value) → Yields IsCvmToken (cvm_of v)
unfolding cvm_of
cvm_of-IsCvmToken (map_of contents) =
    set_entries-Post ⊥ IsCvmToken set_cvm_entry not_integer set_cvm_entry-IsCvmToken contents
      new_cvm_token new_cvm_token-IsCvmToken
cvm_of-IsCvmToken _ = tt

-- Whatever bytes are given, the token of a virtual machine is decoded or refused without a panic;
-- one that is decoded has a challenge and a personalization value of 64 bytes, four extensible
-- measurements, and each measurement, the key included, is unset or has one of its sizes.
pub decode_cvm_token-IsCvmToken :
    (cbor : Cbor) (raw_payload : Bytes) → Yields IsCvmToken (decode_cvm_token cbor raw_payload)
unfolding decode_cvm_token
decode_cvm_token-IsCvmToken cbor raw =
    >>=-Post ⊥ (λ p. cbor.bytes_from raw ≡ some p) IsCvmToken
      (context bad_cbor (cbor.bytes_from raw)) _ (context-Post ⊥ bad_cbor (cbor.bytes_from raw))
      (λ p read.
        >>=-Post ⊥ (λ value. cbor.value_from p ≡ some value) IsCvmToken
          (context bad_cbor (cbor.value_from p)) _ (context-Post ⊥ bad_cbor (cbor.value_from p))
          (λ value parsed. cvm_of-IsCvmToken value))
