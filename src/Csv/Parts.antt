-- ===== src/Csv/Parts.antt =====
-- evidence-verify/src/csv/report.rs: the parts of a certificate or a report, as keys and signatures.
use unified_attestation.Prelude.{
  ℕ, zero, suc, ◌+◌, ◌*◌, ◌≤◌, ◌≡◌, inl, inr, refl, sym, ap, ◌∙◌, [], ◌∷◌, ◌++◌, length, take, drop,
  leb, leb→le, Bool-cases, if◌then◌else◌, arith,
}
use mathlib.Core.List.{reverse, reverse-cons}
use unified_attestation.Outcome.{ok, ok->>=, ok_inj}
use unified_attestation.Bytes.{Bytes, from_be}
use unified_attestation.EventLog.{from_le}
use unified_attestation.Sm2.{slice_at, first_ecc_len_reversed, PubKey, pub_key_of, signature_of}

-- The bytes of `raw` from `offset` on, `n` of them.
abbrev pub part : ℕ → ℕ → Bytes → Bytes
part offset n raw = take n (drop offset raw)

pub slice_at→part :
    (offset n : ℕ) (raw out : Bytes)
    → slice_at offset n raw ≡ ok out
    → (offset + n ≤ length raw) × (out ≡ part offset n raw)
unfolding slice_at
slice_at→part offset n raw out h = elim (Bool-cases (leb (offset + n) (length raw))) [
  | inl inside ↦ (leb→le _ _ inside, sym (ok_inj (rw inside at h)))
  | inr outside ↦ absurd (cc (rw outside at h))
]

drop-nil : (n : ℕ) → drop {A = ℕ} n [] ≡ []
drop-nil zero = refl
drop-nil (suc n) = refl

drop-drop : (a b : ℕ) (xs : Bytes) → drop a (drop b xs) ≡ drop (b + a) xs
drop-drop a zero xs = ap (λ n. drop n xs) (omega arith)
drop-drop a (suc b) [] = drop-nil a ∙ sym (drop-nil (suc b + a))
drop-drop a (suc b) (x ∷ xs) =
    let index : suc b + a ≡ suc (b + a) = omega arith in rw index (drop-drop a b xs)

take-take : (n m : ℕ) (xs : Bytes) → n ≤ m → take n (take m xs) ≡ take n xs
take-take zero m xs h = refl
take-take (suc n) zero xs h = absurd (omega arith)
take-take (suc n) (suc m) [] h = refl
take-take (suc n) (suc m) (x ∷ xs) h = ap (λ t. x ∷ t) (take-take n m xs (omega arith))

drop-of_take :
    (n a m : ℕ) (xs : Bytes) → a + n ≤ m → take n (drop a (take m xs)) ≡ take n (drop a xs)
drop-of_take n zero m xs h = take-take n m xs (omega arith)
drop-of_take n (suc a) zero xs h = absurd (omega arith)
drop-of_take n (suc a) (suc m) [] h = refl
drop-of_take n (suc a) (suc m) (x ∷ xs) h = drop-of_take n a m xs (omega arith)

pub part-part : (a n b m : ℕ) (xs : Bytes) → a + n ≤ m → part a n (part b m xs) ≡ part (b + a) n xs
part-part a n b m xs h = drop-of_take n a m (drop b xs) h ∙ ap (λ t. take n t) (drop-drop a b xs)

from_be-snoc : (acc b : ℕ) (xs : Bytes) → from_be acc (xs ++ (b ∷ [])) ≡ from_be acc xs * 256 + b
unfolding from_be
from_be-snoc acc b [] = refl
from_be-snoc acc b (x ∷ xs) = from_be-snoc (acc * 256 + x) b xs

-- The reversed bytes, read in the other order.
from_be-reverse : (xs : Bytes) → from_be 0 (reverse xs) ≡ from_le xs
unfolding from_be from_le
from_be-reverse [] = refl
from_be-reverse (x ∷ xs) =
    ap (from_be 0) (reverse-cons x xs)
    ∙ (from_be-snoc 0 x (reverse xs) ∙ omega (arith, from_be-reverse xs))

-- A field of 72 bytes holds 32, in reverse.
field→reverse :
    (offset : ℕ) (raw field out : Bytes)
    → slice_at offset 72 raw ≡ ok field
    → first_ecc_len_reversed field ≡ ok out
    → out ≡ reverse (part offset 32 raw)
unfolding first_ecc_len_reversed
field→reverse offset raw field out f h =
    let (first, e, h1) = ok->>= (slice_at 0 32 field) _ h in
    let at_offset : offset + 0 ≡ offset = omega arith in
    sym (ok_inj h1)
    ∙ ap reverse (
        (slice_at→part 0 32 field first e).1
        ∙ (ap (part 0 32) (slice_at→part offset 72 raw field f).1
            ∙ (part-part 0 32 offset 72 raw (omega arith) ∙ ap (λ o. part o 32 raw) at_offset)))

-- The key that 404 bytes hold.
pub record KeyIn (key_bytes : Bytes) (key : PubKey) : Type 0 where
  pub qx_of : key.qx ≡ reverse (part 4 32 key_bytes)
  pub qy_of : key.qy ≡ reverse (part 76 32 key_bytes)
  pub user_id_of :
      key.user_id
      ≡ part 150
          (if leb (from_le (part 148 2 key_bytes)) 254 then from_le (part 148 2 key_bytes) else 254)
          key_bytes

least_254 : (n : ℕ) → 2 + (if leb n 254 then n else 254) ≤ 256
least_254 n = ground arith

pub pub_key_of→KeyIn :
    (key_bytes : Bytes) (key : PubKey) → pub_key_of key_bytes ≡ ok key → KeyIn key_bytes key
unfolding pub_key_of
pub_key_of→KeyIn key_bytes key h =
    let (x_field, e1, h1) = ok->>= (slice_at 4 72 key_bytes) _ h in
    let (x, e2, h2) = ok->>= (first_ecc_len_reversed x_field) _ h1 in
    let (y_field, e3, h3) = ok->>= (slice_at 76 72 key_bytes) _ h2 in
    let (y, e4, h4) = ok->>= (first_ecc_len_reversed y_field) _ h3 in
    let (raw, e5, h5) = ok->>= (slice_at 148 256 key_bytes) _ h4 in
    let (user, e6, h6) = ok->>= (slice_at 2 _ raw) _ h5 in
    let raw_is = (slice_at→part 148 256 key_bytes raw e5).1 in
    let n : ℕ = from_le (part 148 2 key_bytes) in
    let length_is : from_le (take 2 raw) ≡ n =
      ap from_le (ap (take 2) raw_is ∙ take-take 2 256 (drop 148 key_bytes) (omega arith)) in
    record {
      qx_of = sym (ap (λ k. k.qx) (ok_inj h6)) ∙ field→reverse 4 key_bytes x_field x e1 e2;
      qy_of = sym (ap (λ k. k.qy) (ok_inj h6)) ∙ field→reverse 76 key_bytes y_field y e3 e4;
      user_id_of =
          sym (ap (λ k. k.user_id) (ok_inj h6))
          ∙ ((slice_at→part 2 _ raw user e6).1
              ∙ (ap (λ m. part 2 (if leb m 254 then m else 254) raw) length_is
                  ∙ (ap (part 2 (if leb n 254 then n else 254)) raw_is
                      ∙ part-part 2 (if leb n 254 then n else 254) 148 256 key_bytes
                          (least_254 n))));
    }

pub signature_of→r_s :
    (offset : ℕ) (raw bytes : Bytes) (r s : ℕ)
    → slice_at offset 144 raw ≡ ok bytes
    → signature_of bytes ≡ ok (r, s)
    → (r ≡ from_le (part offset 32 raw)) × (s ≡ from_le (part (offset + 72) 32 raw))
unfolding signature_of
signature_of→r_s offset raw bytes r s b h =
    let (r_field, e1, h1) = ok->>= (slice_at 0 72 bytes) _ h in
    let (r', e2, h2) = ok->>= (first_ecc_len_reversed r_field) _ h1 in
    let (s_field, e3, h3) = ok->>= (slice_at 72 72 bytes) _ h2 in
    let (s', e4, h4) = ok->>= (first_ecc_len_reversed s_field) _ h3 in
    let bytes_are = (slice_at→part offset 144 raw bytes b).1 in
    let at_offset : offset + 0 ≡ offset = omega arith in
    (
      sym (ap (λ p. p.0) (ok_inj h4))
          ∙ (ap (from_be 0) (field→reverse 0 bytes r_field r' e1 e2)
              ∙ (from_be-reverse (part 0 32 bytes)
                  ∙ ap from_le (
                      ap (part 0 32) bytes_are
                      ∙ (part-part 0 32 offset 144 raw (omega arith)
                          ∙ ap (λ o. part o 32 raw) at_offset)))),
      sym (ap (λ p. p.1) (ok_inj h4))
          ∙ (ap (from_be 0) (field→reverse 72 bytes s_field s' e3 e4)
              ∙ (from_be-reverse (part 72 32 bytes)
                  ∙ ap from_le
                      (ap (part 72 32) bytes_are ∙ part-part 72 32 offset 144 raw (omega arith)))),
    )
