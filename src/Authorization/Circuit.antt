-- ===== src/Authorization/Circuit.antt =====
-- attester/src/lib.rs, the circuit: what the verifier sends to a device of the tree satisfies it.
use unified_attestation.Prelude.{ℕ, ◌≡◌, refl, true, Option, some, List, [], get_elem?}
use unified_attestation.Outcome.{ok}
use unified_attestation.Bytes.{Bytes, Duration}
use unified_attestation.Crypto.{Crypto}
use unified_attestation.Shrubs.{create_batch_devices}
use unified_attestation.ShrubsPath.Complete.{CollisionFree, find_device_shrubs_path_tag-membership}
use unified_attestation.Messages.Typed.{ResponseDeviceInfor}
use unified_attestation.Daemon.{AttesterSession}
use unified_attestation.Authorization.{
  respond_with, point_scalar, generate_device_merkle_leaf, generate_device_client_infor,
  new_device_client_infor, generate_device_authoried_infor, build_attester_response, set_signature,
  generate_constraints,
}

module _ (c : Crypto) where
  -- The verifier answers a device whose leaf is in the tree, and the device satisfies the circuit
  -- with the answer: its own key and measurement, the roots, the path and tags it was sent, and
  -- the authorized information that the verifier signed. A leaf that is the first root, which is
  -- sent no path, is included: there the circuit compares it with that root. The condition is that
  -- no node above the leaves has the value of the first root.
  pub generate_constraints-build_attester_response :
      (measure addr : Bytes) (now sent_at : Duration) (key verifier_key : c.SigningKey)
      (socket index : ℕ) (response : Option (ResponseDeviceInfor c)) (leaves root : List c.Scalar)
      (r0 : c.Scalar)
      → create_batch_devices c.hasher [] leaves ≡ ok root
      → get_elem? root 0 ≡ some r0
      → CollisionFree c.hasher r0 leaves
      → get_elem? leaves index ≡ some (generate_device_merkle_leaf c measure key)
      → (res : ResponseDeviceInfor c) × (build_attester_response c now
            (record {
              socket = socket;
              dev_infor = generate_device_client_infor c measure sent_at key;
              merkle_leaf = generate_device_merkle_leaf c measure key;
              response = response;
              attester_addr = addr;
            })
            root
            leaves
            verifier_key
          ≡ ok res)
        × (generate_constraints c
              (c.from_bytes_be (c.to_bytes key))
              (c.from_bytes_be measure)
              (point_scalar c (c.verifying_key key))
              root
              (generate_device_authoried_infor c
                (generate_device_client_infor c measure sent_at key)
                res)
              (c.from_u64 res.timestamp.secs)
              (c.from_u64 res.period.secs)
              res.shrubs_path
              res.shrubs_tag
            ≡ ok true)
  unfolding build_attester_response respond_with generate_constraints generate_device_client_infor
      new_device_client_infor generate_device_merkle_leaf generate_device_authoried_infor
      set_signature
  generate_constraints-build_attester_response measure addr now sent_at key verifier_key socket
        index response leaves root r0 built first free here =
      let leaf = generate_device_merkle_leaf c measure key in
      let (path, tag, e, m) =
        find_device_shrubs_path_tag-membership c.hasher leaves root leaf r0 index built first free
          here in
      let item : AttesterSession c = record {
        socket = socket;
        dev_infor = generate_device_client_infor c measure sent_at key;
        merkle_leaf = leaf;
        response = response;
        attester_addr = addr;
      } in
      (
        respond_with c now item verifier_key path tag,
        rw e refl,
        rw (m, (c.hasher.eq_iff _ _).1 refl) refl,
      )
