-- ===== src/Runs/Accumulator.antt =====
-- Runs of the accumulator on concrete leaves.
use unified_attestation.Prelude.{
  ℕ, zero, suc, ◌+◌, ◌≤◌, ◌≡◌, ◌≢◌, ◌↔◌, refl, List, [], ◌∷◌, ◌++◌, Option, Bool, true, arith,
}
use unified_attestation.Outcome.{ok}
use unified_attestation.Shrubs.{
  Root, find_owner_root, owner_loop, root_block, affected_loop, affected_indices, exponents_of_two,
  exponents_loop, trailing_zeros, create_loop, create_batch_devices, insert_batch_devices,
  pair_hashes,
}
use unified_attestation.Shrubs.Insert.{insert_batch_devices-eq-create}
use unified_attestation.Shrubs.Owner.{Owns, find_owner_root-Owns, contains, affected_indices_lem}
use unified_attestation.ShrubsPath.{find_device_shrubs_path_tag, membership}
use unified_attestation.ShrubsPath.Complete.{CollisionFree, find_device_shrubs_path_tag-membership}
use unified_attestation.ShrubsPath.Intervals.{layer}
use unified_attestation.Runs.Toy.{adder}

abbrev two : List ℕ
two = 1 ∷ 2 ∷ []

abbrev three : List ℕ
three = 1 ∷ 2 ∷ 3 ∷ []

affected_of_five : affected_indices 5 2 ≡ ok (1 ∷ 2 ∷ 5 ∷ [])
unfolding affected_indices affected_loop find_owner_root owner_loop root_block
affected_of_five = refl

exponents_of_six : exponents_of_two 6 ≡ ok (1 ∷ 2 ∷ [])
unfolding exponents_of_two exponents_loop trailing_zeros
exponents_of_six = refl

three_built : create_batch_devices adder [] three ≡ ok (3 ∷ 1005 ∷ [])
unfolding create_batch_devices create_loop pair_hashes
three_built = refl

nonempty : (x : ℕ) (xs : List ℕ) → x ∷ xs ≢ []
nonempty x xs e = cc

insert_batch_devices-eq-create_example :
    insert_batch_devices adder (3 ∷ 1005 ∷ []) three two
    ≡ create_batch_devices adder [] (three ++ two)
insert_batch_devices-eq-create_example =
    insert_batch_devices-eq-create adder three two (3 ∷ 1005 ∷ []) (nonempty 1 _) (nonempty 1 _)
      three_built

find_owner_root-Owns_example : (root : Root) × (find_owner_root 2 5 ≡ ok root) × Owns root 2 5
find_owner_root-Owns_example = find_owner_root-Owns 2 5 (omega arith) (omega arith)

affected_indices_lem_example :
    (xs : List ℕ) × (affected_indices 5 2 ≡ ok xs)
    × ((j : ℕ)
        → 1 ≤ j
        → j ≤ 5
        → (contains j xs ≡ true) ↔ (find_owner_root j 5 ≢ find_owner_root j (5 + 2)))
affected_indices_lem_example = affected_indices_lem 5 2 (omega arith) (omega arith)

pub no_layer : (i : ℕ) → layer adder i [] ≡ []
unfolding layer pair_hashes
no_layer zero = refl
no_layer (suc i) = no_layer i

three_free : CollisionFree adder 3 three
unfolding layer pair_hashes
three_free zero = ((λ e. absurd (omega (arith, e))), tt)
three_free (suc i) = rw (no_layer i) tt

find_device_shrubs_path_tag-membership_example :
    (path : Option (List ℕ)) × (tag : Option (List Bool)) × (find_device_shrubs_path_tag adder
        (3 ∷ 1005 ∷ [])
        three
        2
      ≡ ok (path, tag))
    × (membership adder (3 ∷ 1005 ∷ []) 2 path tag ≡ ok true)
find_device_shrubs_path_tag-membership_example =
    find_device_shrubs_path_tag-membership adder three (3 ∷ 1005 ∷ []) 2 3 1 three_built refl
      three_free refl
