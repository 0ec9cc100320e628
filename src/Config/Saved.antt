-- ===== src/Config/Saved.antt =====
-- attester/src/lib.rs: the device configuration in its file.
use unified_attestation.Prelude.{
  ◌*◌, ◌^◌, ◌<◌, ◌≡◌, refl, ap, ◌∙◌, Bool, true, Option, none, some, List, [], ◌∷◌, ◌++◌,
  append_assoc, append-nil, length, ◌==◌, arith,
}
use unified_attestation.Outcome.{Error, guard, ok}
use unified_attestation.Bytes.{Bytes, be64, be32, IsDuration}
use unified_attestation.Crypto.{Crypto, CodecLaws, IsSmall}
use unified_attestation.Wire.{
  append_len_bytes, append_duration, append_verifying_key, append_signature, append_option_bool_vec,
  read_option_bool_vec, append_bool_vec, bool_bytes,
}
use unified_attestation.Wire.Fields.{
  Appends, read_len_bytes_lem, read_verifying_key_lem, read_duration_lem, read_signature_lem,
  read_bool_vec_lem, append_scalar-Appends, append_scalar_vec-Appends, read_option-none,
  read_option-some,
}
use unified_attestation.Messages.RoundTrip.{OptionAll}
use unified_attestation.Config.{
  KeyReader, DeviceConfigInfor, append_option_scalar_vec, read_option_scalar_vec,
  append_option_signature, read_option_signature, save_device_config_infor,
  load_device_config_infor,
}

-- A configuration as its types keep it.
pub record IsConfig {c : Crypto} (v : DeviceConfigInfor c) : Type 0 where
  pub timestamp_ok : IsDuration v.timestamp
  pub period_ok : IsDuration v.period
  pub path_small : OptionAll (λ path. 32 * length path < 2 ^ 63) v.merkle_path
  pub tag_small : OptionAll (λ (tag : List Bool). length tag < 2 ^ 63) v.merkle_tag

-- A secret key has 32 bytes, from which it is read back.
pub record KeyLaws (c : Crypto) (from_bytes : KeyReader c) : Type 0 where
  pub key_32 : (k : c.SigningKey) → length (c.to_bytes k) ≡ 32
  pub key_law : (k : c.SigningKey) → from_bytes (c.to_bytes k) ≡ some k

checked : (sk : Bytes) → length sk ≡ 32 → (e : Error) → guard (length sk == 32) e ≡ ok tt
checked sk h e = rw h refl

module _ {c : Crypto} (laws : CodecLaws c) where
  path-Appends :
      (path : Option (List c.Scalar))
      → OptionAll (λ p. 32 * length p < 2 ^ 63) path
      → Appends laws (λ out. append_option_scalar_vec c out path) (read_option_scalar_vec c) path
  unfolding append_option_scalar_vec read_option_scalar_vec
  path-Appends none h = (0 ∷ [], λ out. refl, λ rest. read_option-none _ rest)
  path-Appends (some path) h =
      let (b, w, r) = append_scalar_vec-Appends laws path h in
      (
        1 ∷ b,
        λ out. w (out ++ (1 ∷ [])) ∙ ap ok (append_assoc out (1 ∷ []) b),
        λ rest. read_option-some _ (b ++ rest) rest (r rest),
      )

  tag-Appends :
      (tag : Option (List Bool))
      → OptionAll (λ (t : List Bool). length t < 2 ^ 63) tag
      → (b : Bytes) × ((out : Bytes) → append_option_bool_vec out tag ≡ out ++ b)
        × ((rest : Bytes) → read_option_bool_vec (b ++ rest) ≡ ok (tag, rest))
  unfolding append_option_bool_vec read_option_bool_vec append_bool_vec
  tag-Appends none h = (0 ∷ [], λ out. refl, λ rest. read_option-none _ rest)
  tag-Appends (some tag) h =
      let b = be64 (length tag) ++ bool_bytes tag in
      (
        1 ∷ b,
        λ out. simp append_assoc refl,
        λ rest. rw (append_assoc (be64 (length tag)) (bool_bytes tag) rest) (
            read_option-some _ (be64 (length tag) ++ (bool_bytes tag ++ rest)) rest
              (read_bool_vec_lem tag h rest)),
      )

  sig-Appends :
      (sig : Option c.Signature)
      → (b : Bytes) × ((out : Bytes) → append_option_signature c out sig ≡ out ++ b)
        × ((rest : Bytes) → read_option_signature c (b ++ rest) ≡ ok (sig, rest))
  unfolding append_option_signature read_option_signature append_signature append_len_bytes
  sig-Appends none = (0 ∷ [], λ out. refl, λ rest. read_option-none _ rest)
  sig-Appends (some sig) =
      let der = c.to_der sig in
      (
        1 ∷ (be64 (length der) ++ der),
        λ out. simp append_assoc refl,
        λ rest. rw (append_assoc (be64 (length der)) der rest) (
            read_option-some _ (be64 (length der) ++ (der ++ rest)) rest
              (read_signature_lem laws sig rest)),
      )

  -- A device configuration that is saved is loaded as it was, its secret key included. The
  -- libraries' serializations round-trip, a secret key has 32 bytes and is read back from them,
  -- the configuration is as its types keep it, and the file can be written.
  pub load-save_device_config_infor :
      (from_bytes : KeyReader c) (v : DeviceConfigInfor c)
      → KeyLaws c from_bytes
      → IsConfig v
      → (file : Bytes) × (save_device_config_infor c true true v ≡ ok file)
        × (load_device_config_infor c from_bytes (some file) ≡ ok v)
  unfolding save_device_config_infor load_device_config_infor append_len_bytes append_verifying_key
      append_duration
  load-save_device_config_infor from_bytes v keys h =
      let sk = c.to_bytes v.signing_key in
      let pk = c.to_encoded_point v.verifying_key in
      let (b1, w1, r1) = append_scalar-Appends laws v.measured_value in
      let (b2, w2, r2) = append_scalar-Appends laws v.merkle_leaf in
      let (b3, w3, r3) = path-Appends v.merkle_path h.path_small in
      let (b4, w4, r4) = tag-Appends v.merkle_tag h.tag_small in
      let (b5, w5, r5) = append_scalar-Appends laws v.authorized_infor in
      let (b6, w6, r6) = sig-Appends v.signature in
      let small : IsSmall sk = omega (arith, keys.key_32 v.signing_key) in
      let out0 = ((be64 (length sk) ++ sk) ++ be64 (length pk)) ++ pk in
      let out1 = (((out0 ++ b1) ++ be64 v.timestamp.secs) ++ be32 v.timestamp.nanos) in
      let out2 = ((out1 ++ be64 v.period.secs) ++ be32 v.period.nanos) in
      (
        ((((out2 ++ b2) ++ b3) ++ b4) ++ b5) ++ b6,
        rw (w1, w2, w3, w4, w5, w6) refl,
        simp
            (
              append_assoc,
              read_len_bytes_lem sk small,
              checked sk (keys.key_32 v.signing_key),
              keys.key_law v.signing_key,
              read_verifying_key_lem laws v.verifying_key,
              r1,
              read_duration_lem v.timestamp h.timestamp_ok,
              read_duration_lem v.period h.period_ok,
              r2,
              r3,
              r4,
              r5,
              rw append-nil at (r6 []),
            )
            refl,
      )
