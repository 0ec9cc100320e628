-- ===== src/Shrubs/Layers.antt =====
-- The layers of the tree that the root list stands for, and `create_batch_devices` over them.
use unified_attestation.Prelude.{
  ℕ, zero, suc, ◌/◌, ◌≤◌, ◌≡◌, refl, ap, sym, ◌∙◌, some, List, [], ◌∷◌, ◌++◌, append_assoc,
  append-nil, length, get_elem?, arith, if◌then◌else◌,
}
use unified_attestation.Outcome.{ok}
use unified_attestation.Shrubs.{
  Hasher, last_index, is_empty, pair_hashes, create_loop, create_batch_devices,
}

last_index_step : (n : ℕ) → last_index (suc (suc (suc n))) ≡ suc (suc (last_index (suc n)))
last_index_step n = ground arith

module _ {F : Type 0} where
  -- The element at the largest even index.
  unfoldable pub last_even : F → List F → F
  last_even a [] = a
  last_even a (b ∷ []) = a
  last_even a (b ∷ c ∷ rest) = last_even c rest

  pub get_elem?-last_index :
      (a : F) (xs : List F)
      → get_elem? (a ∷ xs) (last_index (length (a ∷ xs))) ≡ some (last_even a xs)
  unfolding last_even
  get_elem?-last_index a [] = refl
  get_elem?-last_index a (b ∷ []) = refl
  get_elem?-last_index a (b ∷ c ∷ rest) =
      rw (last_index_step (length rest)) (get_elem?-last_index c rest)

module _ {F : Type 0} (hasher : Hasher F) where
  pub length-pair_hashes : (xs : List F) → length (pair_hashes hasher xs) ≡ length xs / 2
  unfolding pair_hashes
  length-pair_hashes [] = refl
  length-pair_hashes (a ∷ []) = refl
  length-pair_hashes (a ∷ b ∷ rest) = omega (arith, length-pair_hashes rest)

  -- The root of each layer, from the leaves up.
  unfoldable pub roots : ℕ → List F → List F
  roots zero xs = []
  roots (suc fuel) [] = []
  roots (suc fuel) (x ∷ xs) = last_even x xs ∷ roots fuel (pair_hashes hasher (x ∷ xs))

  pub roots-nil : (fuel : ℕ) → roots fuel [] ≡ []
  unfolding roots
  roots-nil zero = refl
  roots-nil (suc fuel) = refl

  pub roots_fuel : (f g : ℕ) (xs : List F) → length xs ≤ f → length xs ≤ g → roots f xs ≡ roots g xs
  unfolding roots
  roots_fuel f g [] p q = roots-nil f ∙ sym (roots-nil g)
  roots_fuel zero g (x ∷ xs) p q = absurd (omega arith)
  roots_fuel (suc f) zero (x ∷ xs) p q = absurd (omega arith)
  roots_fuel (suc f) (suc g) (x ∷ xs) p q =
      ap (λ t. last_even x xs ∷ t)
        (roots_fuel f g (pair_hashes hasher (x ∷ xs)) (omega (arith, length-pair_hashes (x ∷ xs)))
          (omega (arith, length-pair_hashes (x ∷ xs))))

  skip_empty :
      (fuel : ℕ) (root temp : List F)
      → (if is_empty temp then ok root else create_loop hasher fuel root temp)
        ≡ create_loop hasher fuel root temp
  unfolding create_loop
  skip_empty fuel root [] = refl
  skip_empty fuel root (x ∷ xs) = refl

  pub create_loop-roots :
      (fuel : ℕ) (root xs : List F)
      → length xs ≤ fuel
      → create_loop hasher fuel root xs ≡ ok (root ++ roots fuel xs)
  unfolding create_loop roots
  create_loop-roots fuel root [] h = rw (roots-nil fuel, append-nil)
  create_loop-roots zero root (x ∷ xs) h = absurd (omega arith)
  create_loop-roots (suc fuel) root (x ∷ xs) h = rw (get_elem?-last_index x xs) (
      skip_empty fuel (root ++ last_even x xs ∷ []) (pair_hashes hasher (x ∷ xs))
      ∙ create_loop-roots fuel (root ++ last_even x xs ∷ []) (pair_hashes hasher (x ∷ xs))
          (omega (arith, length-pair_hashes (x ∷ xs)))
      ∙ ap ok (append_assoc root (last_even x xs ∷ []) _))

  -- `create_batch_devices` ends and pushes the root of each layer.
  pub create_batch_devices-roots :
      (root leaves : List F)
      → create_batch_devices hasher root leaves ≡ ok (root ++ roots (length leaves) leaves)
  unfolding create_batch_devices
  create_batch_devices-roots root leaves =
      create_loop-roots (length leaves) root leaves (omega arith)

  abbrev pub root_list : List F → List F
  root_list xs = roots (length xs) xs

  pub root_list-cons :
      (x : F) (xs : List F)
      → root_list (x ∷ xs) ≡ last_even x xs ∷ root_list (pair_hashes hasher (x ∷ xs))
  unfolding roots
  root_list-cons x xs =
      ap (λ t. last_even x xs ∷ t)
        (roots_fuel (length xs) _ (pair_hashes hasher (x ∷ xs))
          (omega (arith, length-pair_hashes (x ∷ xs))) (omega arith))
