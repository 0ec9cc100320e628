-- ===== src/Daemon.antt =====
-- verifier/src/hydra_daemon.rs: the state of the verifier behind its lock, queueing an attester,
-- and the part of a batch that runs under the lock. A socket is a number that names it.
pub mod Consistent
use unified_attestation.Prelude.{
  ℕ, zero, suc, ◌+◌, ◌==◌, ◌≡◌, Bool, true, false, Option, none, some, List, [], ◌∷◌, ◌++◌, map,
  length, get_elem?, set, take, if◌then◌else◌,
}
use unified_attestation.Outcome.{Result, ok, panic, ◌>>=◌}
use unified_attestation.Bytes.{Bytes}
use unified_attestation.Crypto.{Crypto}
use unified_attestation.Shrubs.{create_batch_devices, insert_batch_devices, affected_indices}
use unified_attestation.Messages.Typed.{DeviceClientInfor, ResponseDeviceInfor, PublicContext}

module _ (c : Crypto) where
  pub record AttesterSession : Type 0 where
    pub socket : ℕ
    pub dev_infor : DeviceClientInfor c
    pub merkle_leaf : c.Scalar
    pub response : Option (ResponseDeviceInfor c)
    pub attester_addr : Bytes

  pub record VerifierState : Type 0 where
    pub root : List c.Scalar
    pub old_leaves : List c.Scalar
    pub pending : List AttesterSession
    pub active : List AttesterSession
    pub has_created_tree : Bool
    pub batch_timer_running : Bool

  -- What the lock is released with: who gets a new path, who only the new roots, who is new.
  pub record Batch : Type 0 where
    pub affected_old : List (ℕ × AttesterSession)
    pub unaffected_old : List (ℕ × AttesterSession)
    pub new_sessions : List (ℕ × AttesterSession)
    pub root : List c.Scalar
    pub leaves : List c.Scalar
    pub public_context : PublicContext c

-- `.map(|index| index - 1)`, which overflows at 0.
abbrev pub zero_based : List ℕ → Result (List ℕ)
zero_based [] = ok []
zero_based (zero ∷ xs) = panic
zero_based (suc i ∷ xs) = zero_based xs >>= λ ys. ok (i ∷ ys)

abbrev pub replicate : ℕ → List Bool
replicate zero = []
replicate (suc n) = false ∷ replicate n

-- The loop that sets `needs_path_refresh`; `get_mut` out of range does nothing.
abbrev pub mark : List ℕ → List Bool → List Bool
mark [] flags = flags
mark (i ∷ is) flags = mark is (set flags i true)

abbrev pub range : ℕ → ℕ → List ℕ
range start zero = []
range start (suc n) = start ∷ range (start + 1) n

module _ {A : Type 0} where
  abbrev pub push_snapshot : ℕ → Option A → List (ℕ × A) → List (ℕ × A)
  push_snapshot i none xs = xs
  push_snapshot i (some a) xs = (i, a) ∷ xs

  -- `.filter_map(|index| active.get(index).cloned().map(|item| (index, item)))`
  abbrev pub snapshots_at : List A → List ℕ → List (ℕ × A)
  snapshots_at active [] = []
  snapshots_at active (i ∷ is) = push_snapshot i (get_elem? active i) (snapshots_at active is)

  -- `.enumerate().filter(|(index, _)| !needs_path_refresh[*index])`
  abbrev pub unmarked : ℕ → List A → List Bool → Result (List (ℕ × A))
  unmarked i [] flags = ok []
  unmarked i (a ∷ rest) [] = panic
  unmarked i (a ∷ rest) (true ∷ flags) = unmarked (i + 1) rest flags
  unmarked i (a ∷ rest) (false ∷ flags) = unmarked (i + 1) rest flags >>= λ xs. ok ((i, a) ∷ xs)

-- Old attesters with another owner root; `affected_indices` is not called without any.
unfoldable pub affected_old_indices : ℕ → ℕ → Result (List ℕ)
affected_old_indices zero inserted = ok []
affected_old_indices (suc n) inserted = do
  indices ← affected_indices (suc n) inserted
  zero_based indices

module _ (c : Crypto) where
  unfoldable pub new_state : VerifierState c
  new_state = record {
    root = [];
    old_leaves = [];
    pending = [];
    active = [];
    has_created_tree = false;
    batch_timer_running = false;
  }

  -- The new state, and whether a batch timer is to be started.
  unfoldable pub queue_attester :
      ℕ → DeviceClientInfor c → Bytes → VerifierState c → VerifierState c × Bool
  queue_attester socket dev_infor attester_addr st =
      let session : AttesterSession c = record {
        socket = socket;
        dev_infor = dev_infor;
        merkle_leaf = dev_infor.merkle_leaf;
        response = none;
        attester_addr = attester_addr;
      } in
      (
        record st { pending = st.pending ++ (session ∷ []); batch_timer_running = true },
        if st.batch_timer_running then false else true,
      )

  abbrev pub leaves_of : List (AttesterSession c) → List c.Scalar
  leaves_of sessions = map (λ s. s.merkle_leaf) sessions

  -- The roots after the batch: an insertion, or the first tree.
  unfoldable pub batch_root : VerifierState c → List c.Scalar → Result (List c.Scalar)
  batch_root st batch_leaves =
      if st.has_created_tree
      then insert_batch_devices c.hasher st.root st.old_leaves batch_leaves
      else create_batch_devices c.hasher [] (st.old_leaves ++ batch_leaves)

  abbrev pub after_batch : VerifierState c → List c.Scalar → VerifierState c
  after_batch st root = record {
    root = root;
    old_leaves = st.old_leaves ++ leaves_of st.pending;
    pending = [];
    active = st.active ++ st.pending;
    has_created_tree = true;
    batch_timer_running = false;
  }

  -- The snapshots that the lock is released with, `st` being the state before the batch.
  abbrev pub batch_of :
      c.VerifyingKey
      → VerifierState c
      → List c.Scalar
      → List ℕ
      → List (ℕ × AttesterSession c)
      → Batch c
  batch_of verifier_pk st root affected_old unaffected_old =
      let active = st.active ++ st.pending in
      record {
        affected_old = snapshots_at active affected_old;
        unaffected_old = unaffected_old;
        new_sessions = snapshots_at active (range (length st.active) (length st.pending));
        root = root;
        leaves = st.old_leaves ++ leaves_of st.pending;
        public_context = record { root = root; verifier_pk = verifier_pk };
      }

  unfoldable pub run_batch :
      c.VerifyingKey → VerifierState c → Result (VerifierState c × Option (Batch c))
  run_batch verifier_pk st = do
    let old_total = length st.active
    root ← batch_root st (leaves_of st.pending)
    let active = st.active ++ st.pending
    affected_old ← affected_old_indices old_total (length st.pending)
    let needs_path_refresh = mark affected_old (replicate old_total)
    unaffected_old ← unmarked 0 (take old_total active) needs_path_refresh
    ok (after_batch st root, some (batch_of verifier_pk st root affected_old unaffected_old))

  unfoldable pub process_batch :
      c.VerifyingKey → VerifierState c → Result (VerifierState c × Option (Batch c))
  process_batch verifier_pk st =
      let batch = run_batch verifier_pk st in
      if length st.pending == 0 then ok (record st { batch_timer_running = false }, none) else batch

  -- `state.active.get_mut(index)` and the response it stores.
  unfoldable pub store_response : ℕ → ResponseDeviceInfor c → VerifierState c → VerifierState c
  store_response index response st =
      let stored = λ (item : AttesterSession c).
        set st.active index (record item { response = some response }) in
      record st {
        active = elim (get_elem? st.active index) [ none ↦ st.active | some item ↦ stored item ];
      }

  -- What happens to the state behind its lock.
  pub data Step : VerifierState c → VerifierState c → Type 0 where
    queued :
        {st : VerifierState c} (socket : ℕ) (dev_infor : DeviceClientInfor c) (addr : Bytes)
        → Step st (queue_attester socket dev_infor addr st).0
    batched :
        {st st' : VerifierState c} {batch : Option (Batch c)} (verifier_pk : c.VerifyingKey)
        → process_batch verifier_pk st ≡ ok (st', batch)
        → Step st st'
    responded :
        {st : VerifierState c} (index : ℕ) (response : ResponseDeviceInfor c)
        → Step st (store_response index response st)

  pub data Reachable : VerifierState c → Type 0 where
    start : Reachable new_state
    next : {st st' : VerifierState c} → Reachable st → Step st st' → Reachable st'
