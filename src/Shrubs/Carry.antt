-- ===== src/Shrubs/Carry.antt =====
-- hydra-toolkit/src/shurbstree.rs, `insert_shrubs_tree`: which leaf is carried over, where a root
-- is put, and how the positions of the one bits say it.
use unified_attestation.Prelude.{
  ℕ, zero, suc, ◌+◌, ◌/◌, ◌%◌, ◌≤◌, ◌<◌, ◌≡◌, refl, ap, sym, ◌∙◌, Option, none, some, List, [], ◌∷◌,
  ◌++◌, append-nil, length, length-append, get_elem?, set, drop, ◌==◌, arith, if◌then◌else◌, inl,
  inr, Bool-cases, Bool, false, Option-cases, le→ltb, lt→ltb,
}
use unified_attestation.Shrubs.{put_root, should_insert_root}
use unified_attestation.Shrubs.Layers.{last_even}
use unified_attestation.Shrubs.Exponents.{bits, bits_fuel, bits_odd, bits_even, bits-zero}

module _ {F : Type 0} where
  -- The element that has no partner in its layer.
  unfoldable pub odd_last : List F → List F
  odd_last [] = []
  odd_last (a ∷ []) = a ∷ []
  odd_last (a ∷ b ∷ rest) = odd_last rest

  pub odd_last-even : (xs : List F) → length xs % 2 ≡ 0 → odd_last xs ≡ []
  unfolding odd_last
  odd_last-even [] h = refl
  odd_last-even (a ∷ []) h = absurd (omega arith)
  odd_last-even (a ∷ b ∷ rest) h = odd_last-even rest (omega arith)

  pub odd_last-odd :
      (x : F) (xs : List F) → length (x ∷ xs) % 2 ≡ 1 → odd_last (x ∷ xs) ≡ last_even x xs ∷ []
  unfolding odd_last last_even
  odd_last-odd a [] h = refl
  odd_last-odd a (b ∷ []) h = absurd (omega arith)
  odd_last-odd a (b ∷ c ∷ rest) h = odd_last-odd c rest (omega arith)

  pub get_elem?-append :
      (xs ys : List F) (i : ℕ) → get_elem? (xs ++ ys) (length xs + i) ≡ get_elem? ys i
  get_elem?-append [] ys i = ap (get_elem? ys) (omega arith)
  get_elem?-append (x ∷ xs) ys i =
      let e : length (x ∷ xs) + i ≡ suc (length xs + i) = omega arith in
      rw e (get_elem?-append xs ys i)

  set-append :
      (xs : List F) (y : F) (ys : List F) (v : F) → set (xs ++ y ∷ ys) (length xs) v ≡ xs ++ v ∷ ys
  set-append [] y ys v = refl
  set-append (x ∷ xs) y ys v = ap (λ t. x ∷ t) (set-append xs y ys v)

module _ {F : Type 0} where
  pub put_root_end :
      (done : List F) (v : F) → put_root (done ++ []) (length done) v ≡ done ++ v ∷ []
  put_root_end done v = rw (append-nil, le→ltb (length done) (length done) (omega arith))

  pub put_root_at :
      (done : List F) (y : F) (ys : List F) (v : F)
      → put_root (done ++ y ∷ ys) (length done) v ≡ done ++ v ∷ ys
  put_root_at done y ys v =
      let inside : length done < length (done ++ y ∷ ys) =
        omega (arith, length-append done (y ∷ ys)) in
      rw (lt→ltb (length done) (length (done ++ y ∷ ys)) inside) (set-append done y ys v)

-- The exponents from `ll` on are the one bits above this layer.
get_elem?-drop : (exps : List ℕ) (ll : ℕ) → get_elem? exps ll ≡ get_elem? (drop ll exps) 0
get_elem?-drop exps zero = refl
get_elem?-drop [] (suc ll) = refl
get_elem?-drop (x ∷ exps) (suc ll) = get_elem?-drop exps ll

drop-suc : (exps : List ℕ) (ll : ℕ) → drop (suc ll) exps ≡ drop 1 (drop ll exps)
drop-suc [] zero = refl
drop-suc (x ∷ exps) zero = refl
drop-suc [] (suc ll) = refl
drop-suc (x ∷ exps) (suc ll) = drop-suc exps ll

pub bits_lower : (fuel e m x : ℕ) → get_elem? (bits fuel e m) 0 ≡ some x → e ≤ x
unfolding bits
bits_lower zero e m x h = cc
bits_lower (suc fuel) e m x h = ground (arith, bits_lower fuel (e + 1) (m / 2) x)

abbrev starts_at : ℕ → Option ℕ → Bool
starts_at e o = elim o [ none ↦ false | some x ↦ e == x ]

starts_at-bits :
    (fuel e m : ℕ) → m ≤ fuel → starts_at e (get_elem? (bits fuel e m) 0) ≡ (m % 2 == 1)
unfolding bits
starts_at-bits zero e m h = ground arith
starts_at-bits (suc fuel) e m h = elim (Bool-cases (m % 2 == 1)) [
  | inl odd ↦ rw odd (ground arith)
  | inr even ↦ rw even (elim (Option-cases (get_elem? (bits fuel (e + 1) (m / 2)) 0)) [
    | inl nothing ↦ rw nothing
    | inr (x, found) ↦ rw found (ground (arith, bits_lower fuel (e + 1) (m / 2) x found))
  ])
]

-- `exps` from `ll` on has the one bits of the old layers above, `m` elements being in this one.
abbrev pub Follows : List ℕ → ℕ → ℕ → ℕ → Type 0
Follows exps ll level m = drop ll exps ≡ bits (m / 2) (level + 1) (m / 2)

pub should_insert-Follows :
    (exps : List ℕ) (ll level m : ℕ)
    → Follows exps ll level m
    → should_insert_root level exps ll ≡ (m / 2 % 2 == 1)
should_insert-Follows exps ll level m h =
    ap (starts_at (level + 1)) (get_elem?-drop exps ll ∙ ap (λ t. get_elem? t 0) h)
    ∙ starts_at-bits (m / 2) (level + 1) (m / 2) (omega arith)

bits_rest_odd : (m e : ℕ) → m % 2 ≡ 1 → drop 1 (bits m e m) ≡ bits (m / 2) (e + 1) (m / 2)
bits_rest_odd zero e h = absurd (omega arith)
bits_rest_odd (suc k) e h =
    rw (bits_odd k e (suc k) h)
      (bits_fuel k (suc k / 2) (e + 1) (suc k / 2) (omega arith) (omega arith))

pub bits_rest_even : (m e : ℕ) → m % 2 ≡ 0 → bits m e m ≡ bits (m / 2) (e + 1) (m / 2)
bits_rest_even zero e h = bits-zero 0 e ∙ sym (bits-zero 0 (e + 1))
bits_rest_even (suc k) e h =
    bits_even k e (suc k) h
    ∙ bits_fuel k (suc k / 2) (e + 1) (suc k / 2) (omega arith) (omega arith)

pub Follows-next :
    (exps : List ℕ) (ll level m : ℕ)
    → Follows exps ll level m
    → Follows exps (if m / 2 % 2 == 1 then ll + 1 else ll) (level + 1) (m / 2)
Follows-next exps ll level m h = elim (Bool-cases (m / 2 % 2 == 1)) [
  | inl one ↦
      let e : ll + 1 ≡ suc ll = omega arith in
      rw (one, e)
        (drop-suc exps ll ∙ ap (drop 1) h ∙ bits_rest_odd (m / 2) (level + 1) (ground arith))
  | inr zero_bit ↦ rw zero_bit (h ∙ bits_rest_even (m / 2) (level + 1) (ground arith))
]
