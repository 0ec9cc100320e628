-- ===== src/Delivery/Everyone.antt =====
-- verifier/src/hydra_daemon.rs: the lists of indices and of snapshots of a batch, and what is in
-- them.
use unified_attestation.Prelude.{
  ℕ, zero, suc, ◌+◌, ◌<◌, ◌≤◌, ◌==◌, ==_iff, ◌≡◌, ◌≢◌, ◌⊎◌, inl, inr, refl, sym, ap, Bool, true,
  false, Option, none, some, List, [], ◌∷◌, length, get_elem?, set, take, arith, Bool-cases,
}
use unified_attestation.Outcome.{ok_inj, ok, ok->>=}
use unified_attestation.Daemon.{replicate, mark, snapshots_at, push_snapshot, unmarked, range}

abbrev pub In : {A : Type 0} → A → List A → Type 0
In x [] = ⊥
In x (y ∷ ys) = (x ≡ y) ⊎ In x ys

In-push_snapshot :
    {A : Type 0} (p : ℕ × A) (j : ℕ) (o : Option A) (xs : List (ℕ × A))
    → In p xs
    → In p (push_snapshot j o xs)
In-push_snapshot p j none xs h = h
In-push_snapshot p j (some a) xs h = inr h

pub In-snapshots_at :
    {A : Type 0} (active : List A) (is : List ℕ) (i : ℕ) (a : A)
    → In i is
    → get_elem? active i ≡ some a
    → In (i, a) (snapshots_at active is)
In-snapshots_at active [] i a h e = h
In-snapshots_at active (j ∷ is) i a (inl here) e = rw (sym here, e) (inl refl)
In-snapshots_at active (j ∷ is) i a (inr there) e =
    In-push_snapshot (i, a) j (get_elem? active j) _ (In-snapshots_at active is i a there e)

pub In-range : (start n i : ℕ) → start ≤ i → i < start + n → In i (range start n)
In-range start zero i h k = absurd (omega arith)
In-range start (suc n) i h k = elim (Bool-cases (i == start)) [
  | inl same ↦ inl ((==_iff i start).0 same)
  | inr other ↦ inr (In-range (start + 1) n i (ground arith) (omega arith))
]

pub In-unmarked :
    {A : Type 0} (start : ℕ) (items : List A) (flags : List Bool) (i : ℕ) (a : A)
    (xs : List (ℕ × A))
    → get_elem? items i ≡ some a
    → get_elem? flags i ≡ some false
    → unmarked start items flags ≡ ok xs
    → In (start + i, a) xs
In-unmarked start [] flags i a xs e f h = absurd cc
In-unmarked start (y ∷ items) [] i a xs e f h = absurd cc
In-unmarked start (y ∷ items) (true ∷ flags) zero a xs e f h = absurd cc
In-unmarked start (y ∷ items) (false ∷ flags) zero a xs e f h =
    let (rest, r, made) = ok->>= (unmarked (start + 1) items flags) _ h in
    let same : y ≡ a = cc in
    let index : start + 0 ≡ start = omega arith in rw (sym (ok_inj made), index, same) (inl refl)
In-unmarked start (y ∷ items) (true ∷ flags) (suc i) a xs e f h =
    let index : start + suc i ≡ start + 1 + i = omega arith in
    rw index (In-unmarked (start + 1) items flags i a xs e f h)
In-unmarked start (y ∷ items) (false ∷ flags) (suc i) a xs e f h =
    let (rest, r, made) = ok->>= (unmarked (start + 1) items flags) _ h in
    let index : start + suc i ≡ start + 1 + i = omega arith in
    let later : In (start + suc i, a) rest =
      rw index (In-unmarked (start + 1) items flags i a rest e f r) in
    rw (sym (ok_inj made)) (inr later)

get_elem?-set :
    (flags : List Bool) (i j : ℕ)
    → get_elem? (set flags j true) i ≡ some true
    → (i ≡ j) ⊎ (get_elem? flags i ≡ some true)
get_elem?-set [] i j h = absurd cc
get_elem?-set (x ∷ flags) zero zero h = inl refl
get_elem?-set (x ∷ flags) (suc i) zero h = inr h
get_elem?-set (x ∷ flags) zero (suc j) h = inr h
get_elem?-set (x ∷ flags) (suc i) (suc j) h = elim (get_elem?-set flags i j h) [
  | inl same ↦ inl (ap suc same)
  | inr old ↦ inr old
]

pub mark-In :
    (is : List ℕ) (flags : List Bool) (i : ℕ)
    → get_elem? (mark is flags) i ≡ some true
    → In i is ⊎ (get_elem? flags i ≡ some true)
mark-In [] flags i h = inr h
mark-In (j ∷ is) flags i h = elim (mark-In is (set flags j true) i h) [
  | inl later ↦ inl (inr later)
  | inr now ↦ elim (get_elem?-set flags i j now) [ inl same ↦ inl (inl same) | inr old ↦ inr old ]
]

pub replicate-false : (n i : ℕ) → get_elem? (replicate n) i ≢ some true
replicate-false zero i h = cc
replicate-false (suc n) zero h = cc
replicate-false (suc n) (suc i) h = replicate-false n i h

pub get_elem?-length :
    {A : Type 0} (xs : List A) (i : ℕ) → i < length xs → (a : A) × (get_elem? xs i ≡ some a)
get_elem?-length [] i h = absurd (omega arith)
get_elem?-length (x ∷ xs) zero h = (x, refl)
get_elem?-length (x ∷ xs) (suc i) h = get_elem?-length xs i (omega arith)

pub length-get_elem? :
    {A : Type 0} (xs : List A) (i : ℕ) (a : A) → get_elem? xs i ≡ some a → i < length xs
length-get_elem? [] i a h = absurd cc
length-get_elem? (x ∷ xs) zero a h = omega arith
length-get_elem? (x ∷ xs) (suc i) a h = omega (arith, length-get_elem? xs i a h)

pub get_elem?-take :
    {A : Type 0} (n : ℕ) (xs : List A) (i : ℕ) → i < n → get_elem? (take n xs) i ≡ get_elem? xs i
get_elem?-take zero xs i h = absurd (omega arith)
get_elem?-take (suc n) [] i h = refl
get_elem?-take (suc n) (x ∷ xs) zero h = refl
get_elem?-take (suc n) (x ∷ xs) (suc i) h = get_elem?-take n xs i (omega arith)
