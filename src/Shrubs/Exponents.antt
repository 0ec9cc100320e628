-- ===== src/Shrubs/Exponents.antt =====
-- `exponents_of_two`: the positions of the one bits, lowest first.
use Prim.Native.Nat.{min, digits, bit_and, bit_and-bitwise}
use unified_attestation.Prelude.{
  ℕ, zero, suc, ◌+◌, ◌-◌, ◌*◌, ◌/◌, ◌%◌, ◌≤◌, ◌<◌, ◌≡◌, ◌≢◌, refl, ap, sym, ◌∙◌, List, [], ◌∷◌,
  ◌++◌, append_assoc, append-nil, ◌==◌, arith, if◌then◌else◌, inl, inr, Bool-cases,
}
use unified_attestation.Outcome.{ok}
use unified_attestation.Shrubs.{trailing_zeros, exponents_loop, exponents_of_two}

-- The meaning of `&` on the numbers: a recursion on binary digits with the first argument as fuel.
abbrev and_of : ℕ → ℕ → ℕ → ℕ
and_of = digits (λ b. zero) min

and_of_fuel : (n m a b : ℕ) → a ≤ n → a ≤ m → and_of n a b ≡ and_of m a b
and_of_fuel zero zero a b p q = refl
and_of_fuel (suc n) zero zero b p q = refl
and_of_fuel zero (suc m) zero b p q = refl
and_of_fuel (suc n) (suc m) zero b p q = refl
and_of_fuel zero m (suc a) b p q = absurd (omega arith)
and_of_fuel (suc n) zero (suc a) b p q = absurd (omega arith)
and_of_fuel (suc n) (suc m) (suc a) b p q =
    omega (arith, and_of_fuel n m (suc a / 2) (b / 2) (omega arith) (omega arith))

bit_and_digit : (a b : ℕ) → bit_and a b ≡ bit_and (a / 2) (b / 2) * 2 + min (a % 2) (b % 2)
bit_and_digit zero b = omega (arith, bit_and-bitwise 0 b, bit_and-bitwise 0 (b / 2))
bit_and_digit (suc a) b = omega (
  arith,
  bit_and-bitwise (suc a) b,
  bit_and-bitwise (suc a / 2) (b / 2),
  and_of_fuel a (suc a / 2) (suc a / 2) (b / 2) (omega arith) (omega arith),
)

bit_and_self : (fuel x : ℕ) → x ≤ fuel → bit_and x x ≡ x
bit_and_self fuel zero h = refl
bit_and_self zero (suc x) h = absurd (omega arith)
bit_and_self (suc fuel) (suc x) h =
    omega (arith, bit_and_digit (suc x) (suc x), bit_and_self fuel (suc x / 2) (omega arith))

-- The one bits of `m`, where bit 0 counts as `e`.
unfoldable pub bits : ℕ → ℕ → ℕ → List ℕ
bits zero e m = []
bits (suc fuel) e m = let rest = bits fuel (e + 1) (m / 2) in if m % 2 == 1 then e ∷ rest else rest

pub bits-zero : (fuel e : ℕ) → bits fuel e 0 ≡ []
unfolding bits
bits-zero zero e = refl
bits-zero (suc fuel) e = bits-zero fuel (e + 1)

pub bits_fuel : (f g e m : ℕ) → m ≤ f → m ≤ g → bits f e m ≡ bits g e m
unfolding bits
bits_fuel f g e zero p q = bits-zero f e ∙ sym (bits-zero g e)
bits_fuel zero g e (suc m) p q = absurd (omega arith)
bits_fuel (suc f) zero e (suc m) p q = absurd (omega arith)
bits_fuel (suc f) (suc g) e (suc m) p q =
    rw (bits_fuel f g (e + 1) (suc m / 2) (omega arith) (omega arith))

bit_and-le_right : (fuel a b : ℕ) → a ≤ fuel → bit_and a b ≤ b
bit_and-le_right fuel zero b h = omega (arith, bit_and-bitwise 0 b)
bit_and-le_right zero (suc a) b h = absurd (omega arith)
bit_and-le_right (suc fuel) (suc a) b h =
    omega (arith, bit_and_digit (suc a) b, bit_and-le_right fuel (suc a / 2) (b / 2) (omega arith))

clear_odd : (x : ℕ) → x % 2 ≡ 1 → bit_and x (x - 1) ≡ x - 1
clear_odd x h =
    omega (arith, bit_and_digit x (x - 1), bit_and_self (x / 2) (x / 2) (omega arith), half)
  where
    half : bit_and (x / 2) ((x - 1) / 2) ≡ bit_and (x / 2) (x / 2)
    half = ap (bit_and (x / 2)) (omega arith)

clear_even : (x : ℕ) → 0 < x → x % 2 ≡ 0 → bit_and x (x - 1) ≡ bit_and (x / 2) (x / 2 - 1) * 2
clear_even x p h = omega (arith, bit_and_digit x (x - 1), half)
  where
    half : bit_and (x / 2) ((x - 1) / 2) ≡ bit_and (x / 2) (x / 2 - 1)
    half = ap (bit_and (x / 2)) (omega arith)

pub bits_odd : (fuel e m : ℕ) → m % 2 ≡ 1 → bits (suc fuel) e m ≡ e ∷ bits fuel (e + 1) (m / 2)
unfolding bits
bits_odd fuel e m h = ground arith

pub bits_even : (fuel e m : ℕ) → m % 2 ≡ 0 → bits (suc fuel) e m ≡ bits fuel (e + 1) (m / 2)
unfolding bits
bits_even fuel e m h = ground arith

zeros_even :
    (fuel x : ℕ) → x % 2 ≡ 0 → trailing_zeros (suc fuel) x ≡ trailing_zeros fuel (x / 2) + 1
unfolding trailing_zeros
zeros_even fuel x h = ground arith

zeros_odd : (fuel x : ℕ) → x % 2 ≡ 1 → trailing_zeros (suc fuel) x ≡ 0
unfolding trailing_zeros
zeros_odd fuel x h = ground arith

cons_eq : {a b : ℕ} {xs ys : List ℕ} → a ≡ b → xs ≡ ys → a ∷ xs ≡ b ∷ ys
cons_eq p q = λ i. p i ∷ q i

bits_step_odd :
    (fuel e x : ℕ)
    → x % 2 ≡ 1
    → bits (suc fuel) e x
      ≡ (e + trailing_zeros (suc fuel) x) ∷ bits (suc fuel) e (bit_and x (x - 1))
bits_step_odd fuel e x o =
    rw
      (
        bits_odd fuel e x o,
        zeros_odd fuel x o,
        clear_odd x o,
        bits_even fuel e (x - 1) (omega arith),
      )
      (cons_eq (omega arith) (ap (bits fuel (e + 1)) (omega arith)))

bits_step_even :
    (fuel e x : ℕ)
    → 0 < x
    → x % 2 ≡ 0
    → bits fuel (e + 1) (x / 2)
      ≡ (e + 1 + trailing_zeros fuel (x / 2)) ∷ bits fuel (e + 1) (bit_and (x / 2) (x / 2 - 1))
    → bits (suc fuel) e x
      ≡ (e + trailing_zeros (suc fuel) x) ∷ bits (suc fuel) e (bit_and x (x - 1))
bits_step_even fuel e x p z ih =
    rw
      (
        bits_even fuel e x z,
        zeros_even fuel x z,
        clear_even x p z,
        bits_even fuel e (bit_and (x / 2) (x / 2 - 1) * 2) (omega arith),
        ih,
      )
      (cons_eq (omega arith) (ap (bits fuel (e + 1)) (omega arith)))

-- The lowest one bit is the first of `bits`, and `x & (x - 1)` has the others.
bits_step :
    (fuel e x : ℕ)
    → 0 < x
    → x ≤ fuel
    → bits fuel e x ≡ (e + trailing_zeros fuel x) ∷ bits fuel e (bit_and x (x - 1))
bits_step zero e x p h = absurd (omega arith)
bits_step (suc fuel) e x p h = elim (Bool-cases (x % 2 == 1)) [
  | inl odd ↦ bits_step_odd fuel e x (ground arith)
  | inr even ↦
      let z : x % 2 ≡ 0 = ground arith in
      bits_step_even fuel e x p z (bits_step fuel (e + 1) (x / 2) (omega arith) (omega arith))
]

pub bits-ne-nil : (fuel e m : ℕ) → 0 < m → m ≤ fuel → bits fuel e m ≢ []
bits-ne-nil fuel e m p h e' = cc (bits_step fuel e m p h)

bits_step-suc :
    (x : ℕ)
    → bits (suc x) 0 (suc x)
      ≡ trailing_zeros (suc x) (suc x) ∷ bits (bit_and (suc x) x) 0 (bit_and (suc x) x)
bits_step-suc x =
    let below : bit_and (suc x) x ≤ suc x = omega (arith, bit_and-le_right (suc x) (suc x) x) in
    let drop_one : suc x - 1 ≡ x = omega arith in
    bits_step (suc x) 0 (suc x) (omega arith) (omega arith)
    ∙ cons_eq (omega arith) (
        ap (λ t. bits (suc x) 0 (bit_and (suc x) t)) drop_one
        ∙ bits_fuel (suc x) (bit_and (suc x) x) 0 (bit_and (suc x) x) below (omega arith))

exponents_loop-bits :
    (fuel x : ℕ) (exps : List ℕ) → x ≤ fuel → exponents_loop fuel x exps ≡ ok (exps ++ bits x 0 x)
unfolding exponents_loop
exponents_loop-bits fuel zero exps h = rw (bits-zero, append-nil)
exponents_loop-bits zero (suc x) exps h = absurd (omega arith)
exponents_loop-bits (suc fuel) (suc x) exps h =
    exponents_loop-bits fuel (bit_and (suc x) x) _
      (omega (arith, bit_and-le_right (suc x) (suc x) x))
    ∙ ap ok (append_assoc exps _ _)
    ∙ ap (λ t. ok (exps ++ t)) (sym (bits_step-suc x))

-- `exponents_of_two` ends and gives the positions of the one bits, lowest first.
pub exponents_of_two-bits : (x : ℕ) → exponents_of_two x ≡ ok (bits x 0 x)
unfolding exponents_of_two
exponents_of_two-bits x = exponents_loop-bits x x [] (omega arith)
