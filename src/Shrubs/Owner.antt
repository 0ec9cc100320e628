-- ===== src/Shrubs/Owner.antt =====
-- `find_owner_root` and `affected_indices`.
use native.Mathlib.Nat.{div-div-eq-div-mul, div-mul-le_self}
use native.Mathlib.Numerals.{towards_suc}
use unified_attestation.Prelude.{
  ℕ, zero, suc, ◌+◌, ◌-◌, ◌*◌, ◌/◌, ◌%◌, ◌^◌, ◌≤◌, ◌<◌, ◌≡◌, ◌≢◌, ◌⊎◌, refl, sym, ap, ◌∙◌, List, [],
  ◌∷◌, ◌++◌, ltb, leb, ◌==◌, arith, if◌then◌else◌, inl, inr, Bool-cases, Bool, true, false, le→leb,
  not, ◌↔◌, ◌||◌, ◌&&◌,
}
use unified_attestation.Outcome.{Result, ok}
use unified_attestation.Shrubs.{
  Root, same_root, root_block, owner_loop, find_owner_root, affected_loop, affected_indices,
}

-- The root owns the leaf, inside the tree, and spans `2 ^ level` leaves.
pub record Owns (r : Root) (index total : ℕ) : Type 0 where
  pub from_left : r.left ≤ index
  pub to_right : index ≤ r.right
  pub in_tree : r.right ≤ total
  pub span : r.right + 1 ≡ r.left + 2 ^ r.level

half_odd : (q bs : ℕ) → q % 2 ≡ 1 → (q - 1) * bs ≡ q / 2 * (bs * 2)
half_odd q bs h = let e : q - 1 ≡ q / 2 * 2 = omega arith in omega (arith, ap (λ (t : ℕ). t * bs) e)

half_even : (q bs : ℕ) → q % 2 ≡ 0 → q * bs ≡ q / 2 * (bs * 2)
half_even q bs h = let e : q ≡ q / 2 * 2 = omega arith in omega (arith, ap (λ (t : ℕ). t * bs) e)

-- A leaf that the root of a layer does not own lies in the next layer.
next_layer :
    (q bs index : ℕ)
    → index ≤ q * bs
    → (leb ((root_block q - 1) * bs + 1) index && leb index (root_block q * bs)) ≡ false
    → index ≤ q / 2 * (bs * 2)
unfolding root_block
next_layer q bs index h t = elim (Bool-cases (q % 2 == 1)) [
  | inl one ↦ ground (arith, half_odd q bs, one)
  | inr zero_bit ↦ omega (arith, half_even q bs (ground arith))
]

root_block_bounds : (q : ℕ) → 0 < q → (0 < root_block q) × (root_block q ≤ q)
unfolding root_block
root_block_bounds q p = ground arith

span_block : (r bs : ℕ) → 0 < r → r * bs + 1 ≡ (r - 1) * bs + 1 + bs
span_block zero bs p = absurd (omega arith)
span_block (suc k) bs p = let e : suc k - 1 ≡ k = omega arith in rw e (omega arith)

mul_mono : (a b c : ℕ) → a ≤ b → a * c ≤ b * c
mul_mono a b c h = grind arith

pos_of_product : (q bs index : ℕ) → 1 ≤ index → index ≤ q * bs → 0 < q
pos_of_product zero bs index p h = absurd (omega arith)
pos_of_product (suc q) bs index p h = omega arith

abbrev Owned : ℕ → ℕ → Result Root → Type 0
Owned index total r = (root : Root) × (r ≡ ok root) × Owns root index total

module _ (index total level bs : ℕ) (p : 1 ≤ index) (h : index ≤ total / bs * bs) where
  block : ℕ
  block = root_block (total / bs)

  layer_pos : 0 < total / bs
  layer_pos = pos_of_product (total / bs) bs index p h

  block_fits : block * bs ≤ total
  unfolding block
  block_fits = omega (
    arith,
    mul_mono (root_block (total / bs)) (total / bs) bs (root_block_bounds (total / bs) layer_pos).1,
    div-mul-le_self total bs,
  )

  fits : bs ≤ total
  fits = omega (arith, mul_mono 1 (total / bs) bs layer_pos, div-mul-le_self total bs)

  -- The test that leaves the loop does not pass before an owner is found.
  goes_on : index ≤ total / bs / 2 * (bs * 2) → ltb (total / 2) bs ≡ true → ⊥
  goes_on n t = elim (Bool-cases (ltb (total / bs) 2)) [
    | inl small ↦
        let none_left : total / bs / 2 ≡ 0 = ground arith in
        omega (arith, ap (λ (t : ℕ). t * (bs * 2)) none_left)
    | inr large ↦ ground (arith, mul_mono 2 (total / bs) bs, div-mul-le_self total bs)
  ]

  found :
      bs ≡ 2 ^ level
      → (leb ((block - 1) * bs + 1) index && leb index (block * bs)) ≡ true
      → Owns (record { level = level; left = (block - 1) * bs + 1; right = block * bs }) index total
  found e t = record {
    from_left = ground arith;
    to_right = ground arith;
    in_tree = block_fits;
    span =
        rw (← e)
          (span_block block bs (unfold block in (root_block_bounds (total / bs) layer_pos).0));
  }

owner_loop_lem :
    (fuel index total level bs : ℕ)
    → 1 ≤ index
    → 0 < bs
    → bs ≡ 2 ^ level
    → total < fuel + bs
    → index ≤ total / bs * bs
    → Owned index total (owner_loop fuel index total level bs)
unfolding owner_loop block
owner_loop_lem zero index total level bs p b e f h =
    absurd (omega (arith, fits index total level bs p h))
owner_loop_lem (suc fuel) index total level bs p b e f h =
    rw (le→leb bs total (fits index total level bs p h), not_zero)
      (elim (Bool-cases (leb ((r - 1) * bs + 1) index && leb index (r * bs))) [
        | inl t ↦ rw t (_, refl, found index total level bs p h e t)
        | inr t ↦
            let n : index ≤ total / bs / 2 * (bs * 2) = next_layer (total / bs) bs index h t in
            rw t (elim (Bool-cases (ltb (total / 2) bs)) [
              | inl stop ↦ absurd (goes_on index total level bs p h n stop)
              | inr more ↦ rw more (
                  owner_loop_lem fuel index total (level + 1) (bs * 2) p (omega arith) doubled
                    (omega arith) (rw (← div-div-eq-div-mul total bs 2) n))
            ])
      ])
  where
    r : ℕ
    r = root_block (total / bs)

    not_zero : (total / bs == 0) ≡ false
    not_zero = ground (arith, layer_pos index total level bs p h)

    doubled : bs * 2 ≡ 2 ^ (level + 1)
    doubled = simp towards_suc (omega (arith, e))

-- Every leaf of the tree has an owner: `find_owner_root` returns a root that spans the leaf, is
-- inside the tree and has the width of its level. The `unreachable!` is not reached.
pub find_owner_root-Owns :
    (index total : ℕ)
    → 1 ≤ index
    → index ≤ total
    → (root : Root) × (find_owner_root index total ≡ ok root) × Owns root index total
unfolding find_owner_root
find_owner_root-Owns index total p h =
    rw (le→leb 1 index p, le→leb index total h)
      (owner_loop_lem (total + 1) index total 0 1 p (omega arith) refl (omega arith) (omega arith))

unfoldable pub contains : ℕ → List ℕ → Bool
contains j [] = false
contains j (x ∷ xs) = x == j || contains j xs

contains-append : (j x : ℕ) (xs : List ℕ) → contains j (xs ++ (x ∷ [])) ≡ (contains j xs || x == j)
unfolding contains
contains-append j x [] = ground arith
contains-append j x (y ∷ xs) = ground (arith, contains-append j x xs)

same_root_iff : (a b : Root) → (same_root a b ≡ true) ↔ (a ≡ b)
same_root_iff a b = ground arith

abbrev same_owner : Result Root → Result Root → Bool
same_owner (ok a) (ok b) = same_root a b
same_owner _ _ = true

unfoldable pub owner_changes : ℕ → ℕ → ℕ → Bool
owner_changes old new j = not (same_owner (find_owner_root j old) (find_owner_root j new))

abbrev collected : ℕ → ℕ → List ℕ → (ℕ → Bool) → ℕ → Bool
collected index left acc changes j =
    contains j acc || (leb index j && (ltb j (index + left) && changes j))

collected_step :
    (index left j : ℕ) (acc : List ℕ) (changes : ℕ → Bool) (b : Bool)
    → changes index ≡ not b
    → collected (index + 1) left (if b then acc else acc ++ (index ∷ [])) changes j
      ≡ collected index (suc left) acc changes j
collected_step index left j acc changes true h = ground arith
collected_step index left j acc changes false h = rw (contains-append j index acc) (ground arith)

affected_loop_lem :
    (left index old new : ℕ) (acc : List ℕ)
    → 1 ≤ index
    → index + left ≤ old + 1
    → old ≤ new
    → (xs : List ℕ) × (affected_loop left index old new acc ≡ ok xs)
      × ((j : ℕ) → contains j xs ≡ collected index left acc (owner_changes old new) j)
unfolding affected_loop
affected_loop_lem zero index old new acc p h k = (acc, refl, λ j. ground arith)
affected_loop_lem (suc left) index old new acc p h k =
    let (ro, eo, oo) = find_owner_root-Owns index old p (omega arith) in
    let (rn, en, on) = find_owner_root-Owns index new p (omega arith) in
    let acc' : List ℕ = if same_root ro rn then acc else acc ++ (index ∷ []) in
    let (xs, e, c) =
      affected_loop_lem left (index + 1) old new acc' (omega arith) (omega arith) k in
    (
      xs,
      rw (eo, en) e,
      λ j.
          c j
          ∙ collected_step index left j acc (owner_changes old new) (same_root ro rn)
              (unfold owner_changes in rw (eo, en)),
    )

not_zero : (n : ℕ) → 0 < n → (n == 0) ≡ false
not_zero n p = ground arith

in_range :
    (changes : ℕ → Bool) (j old : ℕ) → 1 ≤ j → j ≤ old → collected 1 old [] changes j ≡ changes j
unfolding contains
in_range changes j old p q = ground arith

ne_iff : (a b : Root) → (not (same_root a b) ≡ true) ↔ (◌≡◌ {A = Result Root} (ok a) (ok b) → ⊥)
ne_iff a b = elim (Bool-cases (same_root a b)) [
  | inl same ↦
      let e : a ≡ b = (same_root_iff a b).0 same in rw same ((λ h. cc), (λ h. absurd (h (ap ok e))))
  | inr differ ↦
      rw differ ((λ h e. let ab : a ≡ b = cc in cc ((same_root_iff a b).1 ab)), (λ h. refl))
]

owner_changes_iff :
    (old new j : ℕ)
    → 1 ≤ j
    → j ≤ old
    → old ≤ new
    → (owner_changes old new j ≡ true) ↔ (find_owner_root j old ≢ find_owner_root j new)
unfolding owner_changes
owner_changes_iff old new j p q k =
    let (ro, eo, oo) = find_owner_root-Owns j old p q in
    let (rn, en, on) = find_owner_root-Owns j new p (omega arith) in rw (eo, en) (ne_iff ro rn)

-- `affected_indices` returns, for a tree with leaves and an insertion, and a 1-based index of the
-- old tree is in the result exactly when its owner root in the new tree is another one.
pub affected_indices_lem :
    (old_total inserted : ℕ)
    → 0 < old_total
    → 0 < inserted
    → (xs : List ℕ) × (affected_indices old_total inserted ≡ ok xs)
      × ((j : ℕ)
          → 1 ≤ j
          → j ≤ old_total
          → (contains j xs ≡ true)
            ↔ (find_owner_root j old_total ≢ find_owner_root j (old_total + inserted)))
unfolding affected_indices
affected_indices_lem old ins p q =
    let (xs, e, c) =
      affected_loop_lem old 1 old (old + ins) [] (omega arith) (omega arith) (omega arith) in
    (
      xs,
      rw (not_zero old p, not_zero ins q) e,
      λ j a b.
          let here : contains j xs ≡ owner_changes old (old + ins) j =
            c j ∙ in_range (owner_changes old (old + ins)) j old a b in
          rw here (owner_changes_iff old (old + ins) j a b (omega arith)),
    )

-- The indices are 1-based.
pub affected_indices-positive :
    (old_total inserted : ℕ) (xs : List ℕ)
    → 0 < old_total
    → 0 < inserted
    → affected_indices old_total inserted ≡ ok xs
    → contains 0 xs ≡ false
unfolding affected_indices contains
affected_indices-positive old ins xs p q h =
    let (ys, e, k) =
      affected_loop_lem old 1 old (old + ins) [] (omega arith) (omega arith) (omega arith) in
    let same : xs ≡ ys = cc (rw (not_zero old p, not_zero ins q, e) at h) in rw same (k 0)

pub owner_stays-or-changes :
    (j old new : ℕ)
    → 1 ≤ j
    → j ≤ old
    → old ≤ new
    → (find_owner_root j old ≡ find_owner_root j new)
      ⊎ (find_owner_root j old ≢ find_owner_root j new)
owner_stays-or-changes j old new p q k =
    let (ro, eo, oo) = find_owner_root-Owns j old p q in
    let (rn, en, on) = find_owner_root-Owns j new p (omega arith) in
    elim (Bool-cases (same_root ro rn)) [
      | inl same ↦ inl (eo ∙ (ap ok ((same_root_iff ro rn).0 same) ∙ sym en))
      | inr differ ↦ inr (rw (eo, en) ((ne_iff ro rn).0 (ap not differ)))
    ]
