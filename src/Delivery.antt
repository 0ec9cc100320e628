-- ===== src/Delivery.antt =====
-- verifier/src/hydra_daemon.rs: what a batch sends once its lock is released. The effects are a
-- list of attempts in their order: a failure of the network or of a file is only printed. The
-- clock and the random numbers of each response come from outside, by the attester's index.
pub mod Everyone
pub mod Groups
pub mod Received
pub mod Proven
use unified_attestation.Prelude.{ℕ, Bool, Option, none, some, List, [], ◌∷◌, ◌++◌, map}
use unified_attestation.Outcome.{Result, ok, err, panic, stuck, ◌>>=◌}
use unified_attestation.Bytes.{Bytes, Duration}
use unified_attestation.Crypto.{Crypto}
use unified_attestation.Sealing.{Sealing, encode_encrypted_verifier_response}
use unified_attestation.Messages.Typed.{
  ResponseDeviceInfor, PublicContext, encode_public_context_message,
}
use unified_attestation.Daemon.{AttesterSession, Batch}
use unified_attestation.Authorization.{build_attester_response}

module _ (c : Crypto) where
  pub record ComputedResponse : Type 0 where
    pub index : ℕ
    pub socket : ℕ
    pub attester_addr : Bytes
    pub response : ResponseDeviceInfor c
    pub encrypted : Bytes

  -- A response stored in the state and in a file, a frame to an attester's socket, or one to a
  -- relying party's address.
  pub data Action : Type 0 where
    persist_and_store : ℕ → ResponseDeviceInfor c → Action
    send_response : (socket : ℕ) → Bytes → Action
    send_context : (socket : ℕ) → Bytes → Action
    publish : (addr : Bytes) → Bytes → Action

-- What one response takes from outside.
pub record Draw (x : Sealing) : Type 0 where
  pub now : Duration
  pub ephemeral_secret : x.EphemeralSecret
  pub nonce : Bytes

-- A `Result` that is matched on: a panic is no value of it.
abbrev pub caught : {A : Type 0} → Result A → Result (Option A)
caught (ok a) = ok (some a)
caught (err e) = ok none
caught panic = panic
caught stuck = stuck

-- `.par_iter().map(..).collect()`: a panic of one is a panic of all.
abbrev pub caught_all : {A B : Type 0} → (A → Result B) → List A → Result (List (Option B))
caught_all f [] = ok []
caught_all f (a ∷ as') = do b ← caught (f a); bs ← caught_all f as'; ok (b ∷ bs)

module _ (c : Crypto) where
  -- The loop under the lock, and the loop that sends.
  unfoldable pub store_actions : List (Option (ComputedResponse c)) → List (Action c)
  store_actions [] = []
  store_actions (none ∷ computed) = store_actions computed
  store_actions (some r ∷ computed) = persist_and_store r.index r.response ∷ store_actions computed

  unfoldable pub send_actions : List (Option (ComputedResponse c)) → List (Action c)
  send_actions [] = []
  send_actions (none ∷ computed) = send_actions computed
  send_actions (some r ∷ computed) = send_response r.socket r.encrypted ∷ send_actions computed

  -- The same message for each, or none where it cannot be built.
  unfoldable pub send_context_only_refreshes :
      List (ℕ × AttesterSession c) → PublicContext c → Result (List (Action c))
  send_context_only_refreshes snapshots public_context = do
    message ← caught (encode_public_context_message c public_context)
    ok (elim message [ none ↦ [] | some m ↦ map (λ s. send_context s.1.socket m) snapshots ])

  unfoldable pub publish_public_context_to_all :
      List Bytes → PublicContext c → Result (List (Action c))
  publish_public_context_to_all addrs public_context = do
    message ← caught (encode_public_context_message c public_context)
    ok (elim message [ none ↦ [] | some m ↦ map (λ addr. publish addr m) addrs ])

  -- What was done before a panic stays done.
  abbrev pub Effects : Type 0
  Effects = List (Action c) × Result (Unit {0})

  abbrev pub and_then : Result (List (Action c)) → Effects → Effects
  and_then (ok actions) (more, result) = (actions ++ more, result)
  and_then (err e) rest = ([], err e)
  and_then panic rest = ([], panic)
  and_then stuck rest = ([], stuck)

module _ (c : Crypto) (x : Sealing) where
  unfoldable pub build_encrypted_attester_response :
      Draw x
      → ℕ
      → AttesterSession c
      → List c.Scalar
      → List c.Scalar
      → c.SigningKey
      → PublicContext c
      → Result (ComputedResponse c)
  build_encrypted_attester_response draw index item root leaves verifier_key public_context = do
    dev_res ← build_attester_response c draw.now item root leaves verifier_key
    encrypted ←
        encode_encrypted_verifier_response c x draw.ephemeral_secret draw.nonce dev_res
          public_context item.dev_infor.verifying_key
    ok (record {
      index = index;
      socket = item.socket;
      attester_addr = item.attester_addr;
      response = dev_res;
      encrypted = encrypted;
    })

  unfoldable pub compute_store_and_send_responses :
      (ℕ → Draw x)
      → List (ℕ × AttesterSession c)
      → List c.Scalar
      → List c.Scalar
      → c.SigningKey
      → PublicContext c
      → Result (List (Action c))
  compute_store_and_send_responses draws snapshots root leaves verifier_key public_context = do
    computed ←
        caught_all
          (λ s.
            build_encrypted_attester_response (draws s.0) s.0 s.1 root leaves verifier_key
              public_context)
          snapshots
    ok (store_actions c computed ++ send_actions c computed)

  unfoldable pub send_batch : (ℕ → Draw x) → c.SigningKey → List Bytes → Batch c → Effects c
  send_batch draws verifier_key relying_party_addrs batch =
      let respond = λ (snapshots : List (ℕ × AttesterSession c)).
        compute_store_and_send_responses draws snapshots batch.root batch.leaves verifier_key
          batch.public_context in
      and_then c (respond batch.affected_old) (
        and_then c (send_context_only_refreshes c batch.unaffected_old batch.public_context) (
          and_then c (publish_public_context_to_all c relying_party_addrs batch.public_context)
            (and_then c (respond batch.new_sessions) ([], ok tt))))
