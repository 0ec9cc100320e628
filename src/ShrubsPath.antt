-- ===== src/ShrubsPath.antt =====
-- hydra-toolkit/src/shurbstree.rs: the lookup of an authentication path, with
-- `find_device_shrubs_path_tag` of hydra-toolkit/src/lib.rs and the membership check of the
-- circuit in attester/src/lib.rs that consumes the path.
pub mod Complete
pub mod Intervals
use unified_attestation.Prelude.{
  ℕ, zero, suc, ◌+◌, ◌-◌, ◌*◌, ◌/◌, ◌%◌, Bool, true, false, ◌&&◌, ◌||◌, Option, none, some, List,
  [], ◌∷◌, length, get_elem?, take, drop, ltb, leb, ◌==◌, if◌then◌else◌,
}
use unified_attestation.Outcome.{Result, ok, panic, stuck, expect, ◌>>=◌}
use unified_attestation.Shrubs.{Hasher, pair_hashes, position}

-- `while p <= n / 2 { p <<= 1 }`
unfoldable pub power_loop : ℕ → ℕ → ℕ → Result ℕ
power_loop zero n p = stuck
power_loop (suc fuel) n p =
    let next = power_loop fuel n (p * 2) in if leb p (n / 2) then next else ok p

unfoldable pub largest_power_two_leq : ℕ → Result ℕ
largest_power_two_leq n = if n == 0 then panic else power_loop n n 1

-- The siblings and the direction tags, from the leaf up.
abbrev pub AuthPath : Type 0 → Type 0
AuthPath F = List F × List Bool

abbrev pub sibling_index : ℕ → ℕ
sibling_index value = if value % 2 == 1 then value - 1 else value + 1

-- The tag that is pushed: `true` where the sibling is on the right.
abbrev pub sibling_tag : ℕ → Bool
sibling_tag value = if value % 2 == 1 then false else true

module _ {F : Type 0} where
  -- The `while remaining > 0` of `find_interval_index`.
  unfoldable pub interval_loop : ℕ → List F → ℕ → ℕ → ℕ → Result (Option (List F × ℕ))
  interval_loop fuel arr target_index start zero = ok none
  interval_loop zero arr target_index start (suc r) = stuck
  interval_loop (suc fuel) arr target_index start (suc r) = do
    interval_len ← largest_power_two_leq (suc r)
    let end = start + interval_len
    let next = interval_loop fuel arr target_index end (suc r - interval_len)
    if leb start target_index && ltb target_index end
        then if interval_len == 1
          then ok none
          else ok (some (take interval_len (drop start arr), target_index - start))
        else next

  abbrev pub prepend : F → Bool → Option (AuthPath F) → Option (AuthPath F)
  prepend sibling tag none = none
  prepend sibling tag (some (path, index)) = some (sibling ∷ path, tag ∷ index)

  -- `(Some(path), Some(tag))`, or `(None, None)`.
  abbrev pub unzip_path : Option (AuthPath F) → Option (List F) × Option (List Bool)
  unzip_path none = (none, none)
  unzip_path (some (path, tag)) = (some path, some tag)

module _ {F : Type 0} (hasher : Hasher F) where
  open hasher use {hash, eq}

  unfoldable pub find_interval_index : List F → F → Result (Option (List F × ℕ))
  find_interval_index arr target = elim (position hasher arr target) [
    | none ↦ ok none
    | some target_index ↦ interval_loop (length arr) arr target_index 0 (length arr)
  ]

  -- `leaves.len() >= 2 && root[0] == leaves[value]`, with both index panics.
  unfoldable pub boundary_test : List F → List F → ℕ → Result Bool
  boundary_test root leaves value =
      if leb 2 (length leaves)
      then (do
        first ← expect (get_elem? root 0)
        leaf ← expect (get_elem? leaves value)
        ok (eq first leaf))
      else ok false

  -- What follows the sibling: stop below a root of the next layer, or go on with `sub`.
  unfoldable pub climb :
      List F
      → List F
      → ℕ
      → ℕ
      → F
      → Bool
      → Result (Option (AuthPath F))
      → Result (Option (AuthPath F))
  climb root temp next_j val sibling tag sub =
      if leb 2 (length temp)
      then if leb (length temp) val || leb (length root) next_j then ok none else (do
        node ← expect (get_elem? temp val)
        above ← expect (get_elem? root next_j)
        if eq node above
            then ok (some (sibling ∷ [], tag ∷ []))
            else (do found ← sub; ok (prepend sibling tag found)))
      else ok (some (sibling ∷ [], tag ∷ []))

  unfoldable pub find_shrubs_path : ℕ → List F → List F → ℕ → ℕ → Result (Option (AuthPath F))
  find_shrubs_path zero root leaves j value = stuck
  find_shrubs_path (suc fuel) root leaves j value = do
    at_boundary ← boundary_test root leaves value
    let temp = pair_hashes hasher leaves
    let sub = find_shrubs_path fuel root temp (j + 1) (value / 2)
    if at_boundary || (length leaves == 0 || leb (length leaves) value)
        then ok none
        else elim (get_elem? leaves (sibling_index value)) [
          | none ↦ ok none
          | some sibling ↦ climb root temp (j + 1) (value / 2) sibling (sibling_tag value) sub
        ]

  unfoldable pub find_device_shrubs_path_tag :
      List F → List F → F → Result (Option (List F) × Option (List Bool))
  find_device_shrubs_path_tag root leaves leaf = do
    interval ← find_interval_index leaves leaf
    elim interval [
      | none ↦ ok (none, none)
      | some (vect, index) ↦ (do
        found ← find_shrubs_path (length vect) root vect 0 index
        ok (unzip_path found))
    ]

  -- The loop of the circuit over `tag_values`; the lengths were compared before.
  unfoldable pub climb_path : F → List F → List Bool → F
  climb_path leaf [] tag = leaf
  climb_path leaf (sibling ∷ path) [] = leaf
  climb_path leaf (sibling ∷ path) (right ∷ tag) =
      climb_path (if right then hash leaf sibling else hash sibling leaf) path tag

  unfoldable pub any_root : F → List F → Bool
  any_root leaf [] = false
  any_root leaf (root_i ∷ root) = eq leaf root_i || any_root leaf root

  -- The constraints of `generate_constraints` on the leaf: whether they are satisfied.
  unfoldable pub membership : List F → F → Option (List F) → Option (List Bool) → Result Bool
  membership root leaf (some path) (some tag) =
      if length path == length tag then ok (any_root (climb_path leaf path tag) root) else ok false
  membership root leaf none none = do first ← expect (get_elem? root 0); ok (eq leaf first)
  membership root leaf none (some tag) = ok false
  membership root leaf (some path) none = ok false
