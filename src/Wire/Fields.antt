-- ===== src/Wire/Fields.antt =====
-- hydra-toolkit/src/lib.rs, the codec helpers: reading a field back after it was written.
use unified_attestation.Prelude.{
  append-nil, ℕ, ◌*◌, ◌^◌, ◌<◌, ◌≡◌, refl, sym, ap, Bool, true, false, none, some, List, [], ◌∷◌,
  ◌++◌, append_assoc, length, take-append, drop-append, length-append, arith,
}
use unified_attestation.Outcome.{Result, ok}
use unified_attestation.Bytes.{
  Bytes, be32, be64, from_be, from_be-be32, from_be-be64, Duration, IsDuration, new_duration_lem,
  is_utf8,
}
use unified_attestation.Crypto.{Crypto, CodecLaws, IsSmall, IsShort-IsSmall}
use unified_attestation.Wire.{
  Reader, read_exact, read_u64, read_u32, read_byte, allocate, read_len_bytes, read_string,
  read_duration, read_times, bool_byte, bool_bytes, read_bool, read_bool_vec, read_option,
  append_len_bytes, append_scalar, encode_scalar, decode_scalar, read_scalar, append_scalars,
  append_scalar_vec, read_scalar_vec, append_proof, read_proof, append_ark_vk, read_ark_vk,
  read_signature, decode_signature, read_verifying_key,
}

-- A reader takes these bytes off the front, whatever follows.
abbrev pub Reads {ℓ} : {A : Type ℓ} → Reader A → Bytes → A → Type ℓ
Reads r bs a = (rest : Bytes) → r (bs ++ rest) ≡ ok (a, rest)

pub read_exact-append : (xs rest : Bytes) → read_exact (length xs) (xs ++ rest) ≡ ok (xs, rest)
unfolding read_exact
read_exact-append xs rest = rw (take-append, drop-append) (ground (arith, length-append xs rest))

pub read_u64-be64 : (x : ℕ) → x < 2 ^ 64 → Reads read_u64 (be64 x) x
unfolding read_u64
read_u64-be64 x h rest = rw (length_be64 x rest) (ap (λ y. ok (y, rest)) (from_be-be64 x h))
  where
    length_be64 : (x : ℕ) (rest : Bytes) → read_exact 8 (be64 x ++ rest) ≡ ok (be64 x, rest)
    length_be64 x rest = unfold be64 in read_exact-append (be64 x) rest

pub read_u32-be32 : (x : ℕ) → x < 2 ^ 32 → Reads read_u32 (be32 x) x
unfolding read_u32
read_u32-be32 x h rest = rw (length_be32 x rest) (ap (λ y. ok (y, rest)) (from_be-be32 x h))
  where
    length_be32 : (x : ℕ) (rest : Bytes) → read_exact 4 (be32 x ++ rest) ≡ ok (be32 x, rest)
    length_be32 x rest = unfold be32 in read_exact-append (be32 x) rest

pub allocate_lem : (size len : ℕ) → size * len < 2 ^ 63 → allocate size len ≡ ok tt
unfolding allocate
allocate_lem size len h = ground arith

pub read_len_bytes_lem :
    (xs : Bytes)
    → IsSmall xs
    → (rest : Bytes) → read_len_bytes (be64 (length xs) ++ (xs ++ rest)) ≡ ok (xs, rest)
unfolding read_len_bytes
read_len_bytes_lem xs h rest =
    rw
      (
        read_u64-be64 (length xs) (omega arith) (xs ++ rest),
        allocate_lem 1 (length xs) (omega arith),
        take-append,
        drop-append,
      )
      (ground (arith, length-append xs rest))

pub read_string_lem :
    (xs : Bytes)
    → IsSmall xs
    → is_utf8 xs ≡ true
    → (rest : Bytes) → read_string (be64 (length xs) ++ (xs ++ rest)) ≡ ok (xs, rest)
unfolding read_string
read_string_lem xs h u rest = rw (read_len_bytes_lem xs h rest, u) refl

pub read_duration_lem :
    (d : Duration)
    → IsDuration d
    → (rest : Bytes) → read_duration (be64 d.secs ++ (be32 d.nanos ++ rest)) ≡ ok (d, rest)
unfolding read_duration
read_duration_lem d h rest =
    rw
      (
        read_u64-be64 d.secs h.secs_u64 (be32 d.nanos ++ rest),
        read_u32-be32 d.nanos small rest,
        new_duration_lem d h,
      )
      refl
  where
    small : d.nanos < 2 ^ 32
    small = omega (arith, h.nanos_small)

pub read_byte_lem : (b : ℕ) (rest : Bytes) → read_byte (b ∷ rest) ≡ ok (b, rest)
unfolding read_byte from_be
read_byte_lem b rest = rw (read_exact-append (b ∷ []) rest) (ap (λ y. ok (y, rest)) (omega arith))

pub read_bool_lem : (b : Bool) (rest : Bytes) → read_bool (bool_byte b ∷ rest) ≡ ok (b, rest)
unfolding read_bool
read_bool_lem false rest = rw (read_byte_lem 0 rest) refl
read_bool_lem true rest = rw (read_byte_lem 1 rest) refl

pub read_bools :
    (bs : List Bool) (rest : Bytes)
    → read_times read_bool (length bs) (bool_bytes bs ++ rest) ≡ ok (bs, rest)
unfolding read_times
read_bools [] rest = refl
read_bools (b ∷ bs) rest = rw (read_bool_lem b (bool_bytes bs ++ rest), read_bools bs rest) refl

pub read_bool_vec_lem :
    (bs : List Bool)
    → length bs < 2 ^ 63
    → (rest : Bytes) → read_bool_vec (be64 (length bs) ++ (bool_bytes bs ++ rest)) ≡ ok (bs, rest)
unfolding read_bool_vec
read_bool_vec_lem bs h rest =
    rw
      (
        read_u64-be64 (length bs) (omega arith) (bool_bytes bs ++ rest),
        allocate_lem 1 (length bs) (omega arith),
      )
      (read_bools bs rest)

module _ {ℓ} {A : Type ℓ} (read : Reader A) where
  pub read_option-none : (rest : Bytes) → read_option read (0 ∷ rest) ≡ ok (none, rest)
  unfolding read_option
  read_option-none rest = rw (read_byte_lem 0 rest) refl

  pub read_option-some :
      (bs rest : Bytes) {a : A}
      → read bs ≡ ok (a, rest)
      → read_option read (1 ∷ bs) ≡ ok (some a, rest)
  unfolding read_option
  read_option-some bs rest h = rw (read_byte_lem 1 bs, h) refl

-- The bytes of a flattened list of fields, and reading them.
abbrev pub fields : List Bytes → Bytes
fields [] = []
fields (x ∷ xs) = be64 (length x) ++ (x ++ fields xs)

abbrev pub AllSmall : List Bytes → Type 0
AllSmall [] = Unit {0}
AllSmall (x ∷ xs) = IsSmall x × AllSmall xs

pub read_fields :
    (xs : List Bytes)
    → AllSmall xs
    → (rest : Bytes) → read_times read_len_bytes (length xs) (fields xs ++ rest) ≡ ok (xs, rest)
unfolding read_times
read_fields [] h rest = refl
read_fields (x ∷ xs) (hx, hxs) rest =
    rw
      (
        append_assoc (be64 (length x)) (x ++ fields xs) rest,
        append_assoc x (fields xs) rest,
        read_len_bytes_lem x hx (fields xs ++ rest),
        read_fields xs hxs rest,
      )
      refl

module _ {c : Crypto} (laws : CodecLaws c) where
  pub read_signature_lem :
      (s : c.Signature) (rest : Bytes)
      → read_signature c (be64 (length (c.to_der s)) ++ (c.to_der s ++ rest)) ≡ ok (s, rest)
  unfolding read_signature decode_signature
  read_signature_lem s rest =
      rw
        (
          read_len_bytes_lem (c.to_der s) (IsShort-IsSmall (c.to_der s) (laws.der_short s)) rest,
          laws.der_law s,
        )
        refl

  pub read_verifying_key_lem :
      (k : c.VerifyingKey) (rest : Bytes)
      → read_verifying_key c
          (be64 (length (c.to_encoded_point k)) ++ (c.to_encoded_point k ++ rest))
        ≡ ok (k, rest)
  unfolding read_verifying_key
  read_verifying_key_lem k rest =
      rw
        (
          read_len_bytes_lem (c.to_encoded_point k)
              (IsShort-IsSmall (c.to_encoded_point k) (laws.point_short k)) rest,
          laws.point_law k,
        )
        refl

  -- Writing a field after `out` succeeds, and reading takes it off again.
  abbrev pub Appends {ℓ} : {A : Type ℓ} → (Bytes → Result Bytes) → Reader A → A → Type ℓ
  Appends append read a =
      (b : Bytes) × ((out : Bytes) → append out ≡ ok (out ++ b)) × Reads read b a

  pub append_scalar-Appends :
      (x : c.Scalar) → Appends (λ out. append_scalar c out x) (read_scalar c) x
  unfolding append_scalar encode_scalar append_len_bytes read_scalar decode_scalar
  append_scalar-Appends x =
      let (b, w, r, short) = laws.scalar_law x in
      (
        be64 (length b) ++ b,
        λ out. rw w (ap ok (append_assoc out (be64 (length b)) b)),
        λ rest.
            rw
              (
                append_assoc (be64 (length b)) b rest,
                read_len_bytes_lem b (IsShort-IsSmall b short) rest,
                r,
              )
              refl,
      )

  pub append_proof-Appends : (x : c.Proof) → Appends (λ out. append_proof c out x) (read_proof c) x
  unfolding append_proof append_len_bytes read_proof
  append_proof-Appends x =
      let (b, w, r, short) = laws.proof_law x in
      (
        be64 (length b) ++ b,
        λ out. rw w (ap ok (append_assoc out (be64 (length b)) b)),
        λ rest.
            rw
              (
                append_assoc (be64 (length b)) b rest,
                read_len_bytes_lem b (IsShort-IsSmall b short) rest,
                r,
              )
              refl,
      )

  pub append_ark_vk-Appends :
      (x : c.ArkVerifyingKey) → Appends (λ out. append_ark_vk c out x) (read_ark_vk c) x
  unfolding append_ark_vk append_len_bytes read_ark_vk
  append_ark_vk-Appends x =
      let (b, w, r, short) = laws.ark_vk_law x in
      (
        be64 (length b) ++ b,
        λ out. rw w (ap ok (append_assoc out (be64 (length b)) b)),
        λ rest.
            rw
              (
                append_assoc (be64 (length b)) b rest,
                read_len_bytes_lem b (IsShort-IsSmall b short) rest,
                r,
              )
              refl,
      )

  append_scalars-Appends :
      (xs : List c.Scalar)
      → Appends (λ out. append_scalars c out xs) (read_times (read_scalar c) (length xs)) xs
  unfolding append_scalars read_times
  append_scalars-Appends [] = ([], λ out. ap ok (sym (append-nil out)), λ rest. refl)
  append_scalars-Appends (x ∷ xs) =
      let (b, w, r) = append_scalar-Appends x in
      let (bs, ws, rs) = append_scalars-Appends xs in
      (
        b ++ bs,
        λ out. rw (w out, ws (out ++ b)) (ap ok (append_assoc out b bs)),
        λ rest. rw (append_assoc b bs rest, r (bs ++ rest), rs rest) refl,
      )

  pub append_scalar_vec-Appends :
      (xs : List c.Scalar)
      → 32 * length xs < 2 ^ 63
      → Appends (λ out. append_scalar_vec c out xs) (read_scalar_vec c) xs
  unfolding append_scalar_vec read_scalar_vec
  append_scalar_vec-Appends xs h =
      let (bs, ws, rs) = append_scalars-Appends xs in
      (
        be64 (length xs) ++ bs,
        λ out. rw (ws (out ++ be64 (length xs))) (ap ok (append_assoc out (be64 (length xs)) bs)),
        λ rest.
            rw
              (
                append_assoc (be64 (length xs)) bs rest,
                read_u64-be64 (length xs) (omega arith) (bs ++ rest),
                allocate_lem 32 (length xs) h,
              )
              (rs rest),
      )
