-- ===== src/Shrubs.antt =====
-- hydra-toolkit/src/shurbstree.rs, and the functions of hydra-toolkit/src/lib.rs that call it: the
-- shrubs accumulator. A `usize` is a number, a slice or a vector a list.
pub mod Carry
pub mod Exponents
pub mod Insert
pub mod Layers
pub mod Owner
use Prim.Native.Nat.{bit_and}
use unified_attestation.Prelude.{
  ℕ, zero, suc, ◌+◌, ◌-◌, ◌*◌, ◌/◌, ◌%◌, ◌≡◌, ◌↔◌, Bool, true, false, ◌&&◌, Option, none, some,
  List, [], ◌∷◌, ◌++◌, length, get_elem?, set, ltb, leb, ◌==◌, if◌then◌else◌,
}
use unified_attestation.Outcome.{Result, ok, panic, stuck, expect, ◌>>=◌}

-- The Poseidon hasher and the equality of field elements, which the source takes from libraries.
pub record Hasher (F : Type 0) : Type 0 where
  pub hash : F → F → F
  pub eq : F → F → Bool
  pub eq_iff : (a b : F) → (eq a b ≡ true) ↔ (a ≡ b)

pub record Root : Type 0 where
  pub level : ℕ
  pub left : ℕ
  pub right : ℕ

-- The block of the layer that is a root: the last one with an odd number.
unfoldable pub root_block : ℕ → ℕ
root_block layer_count = if layer_count % 2 == 1 then layer_count else layer_count - 1

-- The `while` of `find_owner_root`; reaching its end is the `unreachable!`.
unfoldable pub owner_loop : ℕ → ℕ → ℕ → ℕ → ℕ → Result Root
owner_loop zero index total level block_size = stuck
owner_loop (suc fuel) index total level block_size =
    let block = root_block (total / block_size) in
    let left = (block - 1) * block_size + 1 in
    let right = block * block_size in
    let next = owner_loop fuel index total (level + 1) (block_size * 2) in
    if leb block_size total
    then if total / block_size == 0
      then panic
      else if leb left index && leb index right
      then ok (record { level = level; left = left; right = right })
      else if ltb (total / 2) block_size
      then panic
      else next
    else panic

unfoldable pub find_owner_root : ℕ → ℕ → Result Root
find_owner_root index total =
    if leb 1 index && leb index total then owner_loop (total + 1) index total 0 1 else panic

abbrev pub same_root : Root → Root → Bool
same_root a b = a.level == b.level && (a.left == b.left && a.right == b.right)

-- The `for` over `1..=old_total`, with `left` rounds to go from `index`.
unfoldable pub affected_loop : ℕ → ℕ → ℕ → ℕ → List ℕ → Result (List ℕ)
affected_loop zero index old_total new_total affected = ok affected
affected_loop (suc left) index old_total new_total affected = do
  old_root ← find_owner_root index old_total
  new_root ← find_owner_root index new_total
  affected_loop left (index + 1) old_total new_total
      (if same_root old_root new_root then affected else affected ++ (index ∷ []))

unfoldable pub affected_indices : ℕ → ℕ → Result (List ℕ)
affected_indices old_total inserted =
    if old_total == 0
    then panic
    else if inserted == 0
    then ok []
    else affected_loop old_total 1 old_total (old_total + inserted) []

-- `x.trailing_zeros()` of a number that is not 0.
unfoldable pub trailing_zeros : ℕ → ℕ → ℕ
trailing_zeros zero x = 0
trailing_zeros (suc fuel) x =
    let rest = trailing_zeros fuel (x / 2) in if x % 2 == 1 then 0 else rest + 1

unfoldable pub exponents_loop : ℕ → ℕ → List ℕ → Result (List ℕ)
exponents_loop fuel zero exps = ok exps
exponents_loop zero (suc x) exps = stuck
exponents_loop (suc fuel) (suc x) exps =
    exponents_loop fuel (bit_and (suc x) x) (exps ++ (trailing_zeros (suc x) (suc x) ∷ []))

unfoldable pub exponents_of_two : ℕ → Result (List ℕ)
exponents_of_two x = exponents_loop x x []

-- `len - 2` or `len - 1`, by the parity; the callers exclude `len = 0`, where it would underflow.
abbrev pub last_index : ℕ → ℕ
last_index len = if len % 2 == 0 then len - 2 else len - 1

abbrev pub is_empty {ℓ} : {A : Type ℓ} → List A → Bool
is_empty [] = true
is_empty (x ∷ xs) = false

-- `ll < exps.len() && k + 2 == exps[ll]`; `level` is the source's `k + 1`.
abbrev pub should_insert_root : ℕ → List ℕ → ℕ → Bool
should_insert_root level exps ll = elim (get_elem? exps ll) [
  | none ↦ false
  | some e ↦ level + 1 == e
]

module _ {F : Type 0} where
  -- The write of `vect[last_i]` at `k`, or the push.
  abbrev pub put_root : List F → ℕ → F → List F
  put_root t_root level node =
      if ltb level (length t_root) then set t_root level node else t_root ++ (node ∷ [])

  unfoldable pub carried_root : Bool → List F → ℕ → Result (List F)
  carried_root false t_root level = ok []
  carried_root true t_root level = do node ← expect (get_elem? t_root (level + 1)); ok (node ∷ [])

module _ {F : Type 0} (hasher : Hasher F) where
  open hasher use {hash, eq}

  -- `par_chunks_exact(2)` and its `map`; an odd last element has no pair.
  unfoldable pub pair_hashes : List F → List F
  pair_hashes [] = []
  pair_hashes (a ∷ []) = []
  pair_hashes (a ∷ b ∷ rest) = hash a b ∷ pair_hashes rest

  -- `create_batch_devices`: fuel for each layer.
  unfoldable pub create_loop : ℕ → List F → List F → Result (List F)
  create_loop fuel root [] = ok root
  create_loop zero root (x ∷ xs) = stuck
  create_loop (suc fuel) root (x ∷ xs) = do
    node ← expect (get_elem? (x ∷ xs) (last_index (length (x ∷ xs))))
    let temp = pair_hashes (x ∷ xs)
    let next = create_loop fuel (root ++ (node ∷ [])) temp
    if is_empty temp then ok (root ++ (node ∷ [])) else next

  unfoldable pub create_batch_devices : List F → List F → Result (List F)
  create_batch_devices root leaves = create_loop (length leaves) root leaves

  -- `insert_shrubs_tree`: fuel for each layer; an empty `vect` underflows at `last_i`.
  unfoldable pub insert_shrubs_tree : ℕ → List F → List F → ℕ → List ℕ → ℕ → Result (List F)
  insert_shrubs_tree zero t_root vect level exps ll = stuck
  insert_shrubs_tree (suc fuel) t_root vect level exps ll = do
    let should_insert = should_insert_root level exps ll
    carried ← carried_root should_insert t_root level
    let temp = carried ++ pair_hashes vect
    node ← expect (get_elem? vect (last_index (length vect)))
    let t_root' = put_root t_root level node
    let ll' = if should_insert then ll + 1 else ll
    let next = insert_shrubs_tree fuel t_root' temp (level + 1) exps ll'
    if is_empty temp then ok t_root' else next

  -- `exps[0] == 0`, by the number of the first exponent.
  unfoldable pub insert_from : ℕ → List F → List F → List ℕ → Result (List F)
  insert_from fuel root new_leaves [] = panic
  insert_from fuel root new_leaves (zero ∷ exps) = do
    first ← expect (get_elem? root 0)
    insert_shrubs_tree fuel root (first ∷ new_leaves) 0 (0 ∷ exps) 1
  insert_from fuel root new_leaves (suc e ∷ exps) =
      insert_shrubs_tree fuel root new_leaves 0 (suc e ∷ exps) 0

  unfoldable pub insert_batch_devices : List F → List F → List F → Result (List F)
  insert_batch_devices root old_leaves new_leaves = do
    exps ← exponents_of_two (length old_leaves)
    insert_from (length old_leaves + length new_leaves) root new_leaves exps

  -- `arr.iter().position(|x| x == target)`
  unfoldable pub position : List F → F → Option ℕ
  position [] target = none
  position (x ∷ xs) target =
      let later = position xs target in
      if eq x target then some 0 else elim later [ none ↦ none | some i ↦ some (i + 1) ]
