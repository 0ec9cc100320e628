-- ===== src/Runs/Devices.antt =====
-- Runs of the authorization of a device.
use unified_attestation.Prelude.{
  ℕ, zero, suc, ◌≡◌, refl, List, [], ◌∷◌, some, none, true, get_elem?, arith,
}
use unified_attestation.Outcome.{ok}
use unified_attestation.Bytes.{Bytes, Duration}
use unified_attestation.Shrubs.{create_loop, create_batch_devices, pair_hashes}
use unified_attestation.ShrubsPath.Intervals.{layer}
use unified_attestation.ShrubsPath.Complete.{CollisionFree}
use unified_attestation.Messages.Typed.{EvidenceReply, ResponseDeviceInfor}
use unified_attestation.Authorization.{
  point_scalar, generate_device_merkle_leaf, generate_device_client_infor,
  generate_device_authoried_infor, build_attester_response, generate_constraints,
  verifier_compute_sig,
}
use unified_attestation.Authorization.Circuit.{generate_constraints-build_attester_response}
use unified_attestation.Runs.Accumulator.{no_layer}
use unified_attestation.Runs.Toy.{toy}

abbrev pub moment : Duration
moment = record { secs = 100; nanos = 5 }

abbrev pub measure : Bytes
measure = 7 ∷ 8 ∷ []

abbrev pub tree : List ℕ
tree = 4022 ∷ 9 ∷ 8 ∷ []

pub tree_built : create_batch_devices toy.hasher [] tree ≡ ok (8 ∷ 13075 ∷ [])
unfolding create_batch_devices create_loop pair_hashes
tree_built = refl

pub tree_free : CollisionFree toy.hasher 8 tree
unfolding layer pair_hashes
tree_free zero = ((λ e. absurd (omega (arith, e))), tt)
tree_free (suc i) = rw (no_layer i) tt

pub leaf_in_tree : get_elem? tree 0 ≡ some (generate_device_merkle_leaf toy measure 5)
unfolding generate_device_merkle_leaf point_scalar
leaf_in_tree = refl

generate_constraints-build_attester_response_example :
    (res : ResponseDeviceInfor toy) × (build_attester_response toy moment
        (record {
          socket = 0;
          dev_infor = generate_device_client_infor toy measure moment 5;
          merkle_leaf = generate_device_merkle_leaf toy measure 5;
          response = none;
          attester_addr = [];
        })
        (8 ∷ 13075 ∷ [])
        tree
        9
      ≡ ok res)
    × (generate_constraints toy
          (toy.from_bytes_be (toy.to_bytes 5))
          (toy.from_bytes_be measure)
          (point_scalar toy (toy.verifying_key 5))
          (8 ∷ 13075 ∷ [])
          (generate_device_authoried_infor toy
            (generate_device_client_infor toy measure moment 5)
            res)
          (toy.from_u64 res.timestamp.secs)
          (toy.from_u64 res.period.secs)
          res.shrubs_path
          res.shrubs_tag
        ≡ ok true)
generate_constraints-build_attester_response_example =
    generate_constraints-build_attester_response toy measure [] moment moment 5 9 0 0 none tree
      (8 ∷ 13075 ∷ []) 8 tree_built refl tree_free leaf_in_tree

abbrev answered : ResponseDeviceInfor toy
answered = record {
  verifying_key = 5;
  attester_addr = [];
  timestamp = moment;
  period = moment;
  sig = none;
  shrubs_path = none;
  shrubs_tag = none;
}

abbrev endorsed : EvidenceReply toy
endorsed = record {
  proof = 6;
  vk = 6;
  sig = verifier_compute_sig toy 9 answered 4;
  pk = 5;
  timestamp = moment;
  period = moment;
  authorized_infor = 4;
  timestamp_attester = moment;
  period_attester = moment;
  proof_timestamp_period_signature = 2;
}
