-- ===== src/ShrubsPath/Intervals.antt =====
-- `largest_power_two_leq` and `find_interval_index`: where the leaf lies in the row of perfect
-- subtrees, and that the top of its subtree is a root.
use native.Mathlib.Nat.{pow-suc, one-le-pow}
use unified_attestation.Prelude.{
  ℕ, zero, suc, ◌+◌, ◌-◌, ◌*◌, ◌/◌, ◌%◌, ◌^◌, ◌≤◌, ◌<◌, ◌≡◌, refl, ap, sym, ◌∙◌, List, [], ◌∷◌,
  ◌++◌, ltb, leb, ◌==◌, arith, if◌then◌else◌, inl, inr, Bool-cases, Bool, true, false, length,
  get_elem?, take, drop, some, none, Option, le→leb, length-take, take-append-drop,
}
use unified_attestation.Outcome.{ok}
use unified_attestation.Shrubs.{Hasher, pair_hashes, position}
use unified_attestation.Shrubs.Layers.{
  last_even, roots, length-pair_hashes, root_list, root_list-cons,
}
use unified_attestation.ShrubsPath.{
  power_loop, largest_power_two_leq, interval_loop, find_interval_index,
}

power_loop_lem :
    (fuel n k : ℕ)
    → 2 ^ k ≤ n
    → n < fuel + 2 ^ k
    → (m : ℕ) × (power_loop fuel n (2 ^ k) ≡ ok (2 ^ m)) × (2 ^ m ≤ n) × (n < 2 ^ suc m)
unfolding power_loop
power_loop_lem zero n k p h = absurd (omega arith)
power_loop_lem (suc fuel) n k p h = elim (Bool-cases (leb (2 ^ k) (n / 2))) [
  | inl more ↦
      let (m, e, lo, hi) =
        power_loop_lem fuel n (suc k) (ground (arith, pow-suc 2 k))
          (omega (arith, pow-suc 2 k, one-le-pow k 2)) in
      (m, rw (more, ← pow-suc 2 k) e, lo, hi)
  | inr stop ↦ (k, rw stop, p, ground (arith, pow-suc 2 k))
]

-- `largest_power_two_leq` ends, with the power of two that is right below its argument.
largest_power_two_leq_lem :
    (n : ℕ)
    → 0 < n
    → (m : ℕ) × (largest_power_two_leq n ≡ ok (2 ^ m)) × (2 ^ m ≤ n) × (n < 2 ^ suc m)
unfolding largest_power_two_leq
largest_power_two_leq_lem n p =
    let nz : (n == 0) ≡ false = ground arith in
    let (m, e, lo, hi) = power_loop_lem n n 0 p (omega arith) in (m, rw nz e, lo, hi)

module _ {F : Type 0} where
  get_elem?-drop : (s i : ℕ) (xs : List F) → get_elem? (drop s xs) i ≡ get_elem? xs (s + i)
  get_elem?-drop zero i xs = ap (get_elem? xs) (omega arith)
  get_elem?-drop (suc s) i [] = refl
  get_elem?-drop (suc s) i (x ∷ xs) =
      let e : suc s + i ≡ suc (s + i) = omega arith in rw e (get_elem?-drop s i xs)

  get_elem?-take : (n i : ℕ) (xs : List F) → i < n → get_elem? (take n xs) i ≡ get_elem? xs i
  get_elem?-take zero i xs h = elim h [ ]
  get_elem?-take (suc n) i [] h = refl
  get_elem?-take (suc n) zero (x ∷ xs) h = refl
  get_elem?-take (suc n) (suc i) (x ∷ xs) h = get_elem?-take n i xs (omega arith)

  length-drop : (n : ℕ) (xs : List F) → length (drop n xs) ≡ length xs - n
  length-drop zero xs = omega arith
  length-drop (suc n) [] = omega arith
  length-drop (suc n) (x ∷ xs) = omega (arith, length-drop n xs)

  singleton : (xs : List F) (x : F) → length xs ≡ 1 → get_elem? xs 0 ≡ some x → xs ≡ x ∷ []
  singleton [] x h g = cc
  singleton (y ∷ []) x h g = cc
  singleton (y ∷ z ∷ xs) x h g = absurd (omega arith)

if_ok {ℓ} : {A : Type ℓ} (b : Bool) (x y : A) → (if b then ok x else ok y) ≡ ok (if b then x else y)
if_ok true x y = refl
if_ok false x y = refl

pow_mono : (a b : ℕ) → a ≤ b → 2 ^ a ≤ 2 ^ b
pow_mono zero b h = one-le-pow b 2 (omega arith)
pow_mono (suc a) zero h = absurd (omega arith)
pow_mono (suc a) (suc b) h = omega (arith, pow-suc 2 a, pow-suc 2 b, pow_mono a b (omega arith))

below : (n : ℕ) → n < 2 ^ n
below zero = omega arith
below (suc n) = omega (arith, below n, pow-suc 2 n)

pow_lt : (a b n : ℕ) → 2 ^ a ≤ n → n < 2 ^ b → a < b
pow_lt a b n p q = elim (Bool-cases (ltb a b)) [
  | inl less ↦ ground arith
  | inr more ↦ absurd (omega (arith, pow_mono b a (ground arith)))
]

-- A multiple of a power of two is one of each lower power.
multiple_of_lower : (b a k s : ℕ) → a ≤ b → s ≡ k * 2 ^ b → (j : ℕ) × (s ≡ j * 2 ^ a)
multiple_of_lower zero a k s h e = let z : a ≡ 0 = omega arith in (k, rw z e)
multiple_of_lower (suc b) a k s h e = elim (Bool-cases (a == suc b)) [
  | inl same ↦ let z : a ≡ suc b = ground arith in (k, rw z e)
  | inr lower ↦
      multiple_of_lower b a (k * 2) s (ground arith)
        (omega (arith, e, ap (λ (t : ℕ). k * t) (pow-suc 2 b)))
]

module _ {F : Type 0} (hasher : Hasher F) where
  abbrev ph : List F → List F
  ph = pair_hashes hasher

  pub pair_hashes-append : (xs ys : List F) → length xs % 2 ≡ 0 → ph (xs ++ ys) ≡ ph xs ++ ph ys
  unfolding pair_hashes
  pair_hashes-append [] ys h = refl
  pair_hashes-append (a ∷ []) ys h = absurd (omega arith)
  pair_hashes-append (a ∷ b ∷ xs) ys h =
      ap (λ t. hasher.hash a b ∷ t) (pair_hashes-append xs ys (omega arith))

  -- The layer `i` steps above the leaves.
  unfoldable pub layer : ℕ → List F → List F
  layer zero xs = xs
  layer (suc i) xs = layer i (ph xs)

  first_root :
      (xs : List F) (x : F)
      → length xs % 2 ≡ 0
      → get_elem? (root_list hasher (xs ++ x ∷ [])) 0 ≡ some x
  first_root [] x h = rw (root_list-cons hasher x []) (unfold last_even in refl)
  first_root (a ∷ []) x h = absurd (omega arith)
  first_root (a ∷ b ∷ xs) x h = skip xs (first_root xs x (omega arith))
    where
      skip :
          (ys : List F)
          → get_elem? (root_list hasher (ys ++ x ∷ [])) 0 ≡ some x
          → get_elem? (root_list hasher (a ∷ b ∷ (ys ++ x ∷ []))) 0 ≡ some x
      skip [] e = rw (root_list-cons hasher a (b ∷ x ∷ [])) (unfold last_even in refl)
      skip (c ∷ ys) e =
          rw (root_list-cons hasher a (b ∷ c ∷ (ys ++ x ∷ [])))
            (unfold last_even in (rw (root_list-cons hasher c (ys ++ x ∷ [])) at e))

  root_list-suc :
      (xs : List F) (m : ℕ)
      → get_elem? (root_list hasher xs) (suc m) ≡ get_elem? (root_list hasher (ph xs)) m
  unfolding pair_hashes roots
  root_list-suc [] m = refl
  root_list-suc (x ∷ xs) m = ap (λ t. get_elem? t (suc m)) (root_list-cons hasher x xs)

  -- One layer up, the subtrees stay apart.
  pub pair_hashes-split :
      (m k : ℕ) (before here after : List F)
      → length before ≡ k * 2 ^ suc (suc m)
      → length here ≡ 2 ^ suc m
      → (ph (before ++ (here ++ after)) ≡ ph before ++ (ph here ++ ph after))
        × (length (ph before) ≡ k * 2 ^ suc m)
        × (length (ph here) ≡ 2 ^ m)
  pair_hashes-split m k before here after p q = (
    pair_hashes-append before (here ++ after) (omega (arith, doubled))
        ∙ ap (λ t. ph before ++ t) (pair_hashes-append here after (omega (arith, q, pow-suc 2 m))),
    omega (arith, length-pair_hashes hasher before, doubled),
    omega (arith, length-pair_hashes hasher here, q, pow-suc 2 m),
  )
    where
      doubled : length before ≡ k * 2 ^ suc m * 2
      doubled = omega (arith, p, ap (λ (t : ℕ). k * t) (pow-suc 2 (suc m)))

  -- The top of a perfect subtree of `2 ^ m` leaves, with fewer behind it and an even number of such
  -- subtrees before it, is root `m`.
  pub subtree_root :
      (m k : ℕ) (before here after : List F)
      → length before ≡ k * 2 ^ suc m
      → length here ≡ 2 ^ m
      → length after < 2 ^ m
      → (top : F) × (layer m here ≡ top ∷ [])
        × (get_elem? (root_list hasher (before ++ (here ++ after))) m ≡ some top)
  unfolding layer
  subtree_root zero k before (x ∷ []) [] p q r =
      (x, refl, first_root before x (omega (arith, p, pow-suc 2 0)))
  subtree_root zero k before (x ∷ y ∷ xs) after p q r = absurd (omega arith)
  subtree_root zero k before [] after p q r = absurd (omega arith)
  subtree_root zero k before here (y ∷ ys) p q r = absurd (omega arith)
  subtree_root (suc m) k before here after p q r =
      let (split, p', q') = pair_hashes-split m k before here after p q in
      let (top, l, g) =
        subtree_root m k (ph before) (ph here) (ph after) p' q'
          (omega (arith, length-pair_hashes hasher after, pow-suc 2 m)) in
      (
        top,
        l,
        root_list-suc (before ++ (here ++ after)) m
            ∙ ap (λ t. get_elem? (root_list hasher t) m) split
            ∙ g,
      )

  -- A leaf found in its subtree, or as the last leaf of an odd number of them.
  pub data Located (arr : List F) (target : F) : Option (List F × ℕ) → Type 0 where
    alone : get_elem? (root_list hasher arr) 0 ≡ some target → Located arr target none
    inside :
        (m k i : ℕ) (before here after : List F)
        → before ++ (here ++ after) ≡ arr
        → length before ≡ k * 2 ^ suc (suc m)
        → length here ≡ 2 ^ suc m
        → length after < 2 ^ suc m
        → get_elem? here i ≡ some target
        → Located arr target (some (here, i))

  -- The target stands in the subtree of `2 ^ m` leaves at `start`.
  at_interval :
      (arr : List F) (target : F) (index start remaining k m : ℕ)
      → get_elem? arr index ≡ some target
      → start ≤ index
      → index < start + 2 ^ m
      → start + remaining ≡ length arr
      → 2 ^ m ≤ remaining
      → remaining < 2 ^ suc m
      → start ≡ k * 2 ^ suc m
      → Located arr target
          (if 2 ^ m == 1 then none else some (take (2 ^ m) (drop start arr), index - start))
  at_interval arr target index start remaining k zero g s i e lo hi d = alone (rw whole first)
    where
      first : get_elem? (root_list hasher (take start arr ++ target ∷ [])) 0 ≡ some target
      first =
          first_root (take start arr) target
            (omega (arith, length-take start arr (omega arith), pow-suc 2 0))

      same : index ≡ start + 0
      same = omega arith

      last : drop start arr ≡ target ∷ []
      last =
          singleton (drop start arr) target (omega (arith, length-drop start arr, pow-suc 2 0))
            (get_elem?-drop start 0 arr ∙ (rw same at g))

      whole : arr ≡ take start arr ++ target ∷ []
      whole = sym (take-append-drop start arr) ∙ ap (λ t. take start arr ++ t) last
  at_interval arr target index start remaining k (suc m) g s i e lo hi d = rw many (
      inside m k (index - start) (take start arr) (take (2 ^ suc m) rest) (drop (2 ^ suc m) rest)
        (ap (λ t. take start arr ++ t) (take-append-drop (2 ^ suc m) rest)
          ∙ take-append-drop start arr)
        (length-take start arr (omega arith) ∙ d)
        (length-take (2 ^ suc m) rest (omega (arith, length-drop start arr)))
        (omega (arith, length-drop (2 ^ suc m) rest, length-drop start arr, pow-suc 2 (suc m)))
        (get_elem?-take (2 ^ suc m) (index - start) rest (omega arith)
          ∙ get_elem?-drop start (index - start) arr
          ∙ (rw same at g)))
    where
      rest : List F
      rest = drop start arr

      many : (2 ^ suc m == 1) ≡ false
      many = ground (arith, pow-suc 2 m, one-le-pow m 2)

      same : index ≡ start + (index - start)
      same = omega arith

  interval_loop-Located :
      (fuel : ℕ) (arr : List F) (target : F) (index start remaining K j : ℕ)
      → get_elem? arr index ≡ some target
      → index < length arr
      → start ≤ index
      → start + remaining ≡ length arr
      → remaining < 2 ^ K
      → start ≡ j * 2 ^ K
      → remaining ≤ fuel
      → (o : Option (List F × ℕ)) × (interval_loop fuel arr index start remaining ≡ ok o)
        × Located arr target o
  unfolding interval_loop
  interval_loop-Located fuel arr target index start zero K j g i s e r d f = absurd (omega arith)
  interval_loop-Located zero arr target index start (suc r) K j g i s e b d f = absurd (omega arith)
  interval_loop-Located (suc fuel) arr target index start (suc r) K j g i s e b d f =
      let (m, el, lo, hi) = largest_power_two_leq_lem (suc r) (omega arith) in
      let (k, dk) = multiple_of_lower K (suc m) j start (pow_lt m K (suc r) lo b) d in
      rw (el, le→leb start index s)
        (elim (Bool-cases (ltb index (start + 2 ^ m))) [
          | inl here ↦ rw here (
            _,
            if_ok (2 ^ m == 1) none _,
            at_interval arr target index start (suc r) k m g s (ground arith) e lo hi dk,
          )
          | inr later ↦ rw later (
              interval_loop-Located fuel arr target index (start + 2 ^ m) (suc r - 2 ^ m) m
                (k * 2 + 1) g i (ground arith) (omega arith) (omega (arith, pow-suc 2 m))
                (omega (arith, dk, ap (λ (t : ℕ). k * t) (pow-suc 2 m)))
                (omega (arith, one-le-pow m 2)))
        ])

  position-get_elem? :
      (arr : List F) (target : F) (index : ℕ)
      → get_elem? arr index ≡ some target
      → (i : ℕ) × (position hasher arr target ≡ some i)
        × (get_elem? arr i ≡ some target)
        × (i < length arr)
  unfolding position
  position-get_elem? [] target index g = absurd (cc)
  position-get_elem? (x ∷ xs) target zero g =
      let same : x ≡ target = cc in rw ((hasher.eq_iff x target).1 same) (0, refl, g, omega arith)
  position-get_elem? (x ∷ xs) target (suc index) g = elim (Bool-cases (hasher.eq x target)) [
    | inl same ↦ rw same (0, refl, ap some ((hasher.eq_iff x target).0 same), omega arith)
    | inr differ ↦
        let (i, e, gi, l) = position-get_elem? xs target index g in
        let next : i + 1 ≡ suc i = omega arith in
        rw (differ, e) (i + 1, refl, rw next gi, omega arith)
  ]

  -- A leaf of the tree is located by `find_interval_index`, which ends.
  pub find_interval_index-Located :
      (arr : List F) (target : F) (index : ℕ)
      → get_elem? arr index ≡ some target
      → (o : Option (List F × ℕ)) × (find_interval_index hasher arr target ≡ ok o)
        × Located arr target o
  unfolding find_interval_index
  find_interval_index-Located arr target index g =
      let (i, e, gi, l) = position-get_elem? arr target index g in
      rw (e, find_interval_index)
        (interval_loop-Located (length arr) arr target i 0 (length arr) (length arr) 0 gi l
          (omega arith) (omega arith) (below (length arr)) (omega arith) (omega arith))
