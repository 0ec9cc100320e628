-- ===== src/Delivery/Proven.antt =====
-- verifier/src/hydra_daemon.rs, hydra-toolkit/src/lib.rs and attester/src/lib.rs: from the leaf in
-- the tree, over the encrypted response, to the circuit.
use unified_attestation.Prelude.{
  ℕ, ◌-◌, ◌*◌, ◌^◌, ◌<◌, ◌≡◌, refl, sym, ◌∙◌, true, Option, some, List, [], length, get_elem?,
}
use unified_attestation.Outcome.{ok_inj, ok}
use unified_attestation.Bytes.{Bytes, Duration}
use unified_attestation.Crypto.{Crypto, CodecLaws}
use unified_attestation.Shrubs.{create_batch_devices}
use unified_attestation.ShrubsPath.Complete.{CollisionFree}
use unified_attestation.Sealing.{Sealing, SealingLaws, decode_encrypted_verifier_response}
use unified_attestation.Sealing.RoundTrip.{decode-encode_encrypted_verifier_response}
use unified_attestation.Messages.Typed.{ResponseDeviceInfor, PublicContext}
use unified_attestation.Daemon.{AttesterSession}
use unified_attestation.Authorization.{
  point_scalar, generate_device_merkle_leaf, generate_device_client_infor, new_device_client_infor,
  generate_device_authoried_infor, build_attester_response, generate_constraints,
  encode_verifier_response,
}
use unified_attestation.Authorization.Circuit.{generate_constraints-build_attester_response}
use unified_attestation.Authorization.Response.{IsResponse}
use unified_attestation.Delivery.{Draw, ComputedResponse, build_encrypted_attester_response}

module _ {c : Crypto} where
  -- A device as the verifier has it in a session.
  abbrev pub session_of :
      Bytes
      → Bytes
      → Duration
      → c.SigningKey
      → ℕ
      → Option (ResponseDeviceInfor c)
      → AttesterSession c
  session_of measure addr sent_at key socket response = record {
    socket = socket;
    dev_infor = generate_device_client_infor c measure sent_at key;
    merkle_leaf = generate_device_merkle_leaf c measure key;
    response = response;
    attester_addr = addr;
  }

module _ {c : Crypto} {x : Sealing} (laws : CodecLaws c) (sealing : SealingLaws c x) where
  -- The verifier computes and encrypts a response for a device whose leaf is in the tree; the
  -- device decrypts it with its own key, to that response and the public context; and with them
  -- it satisfies the circuit, also where its leaf is the first root and has no path. The
  -- conditions are those of the two parts: no node above the leaves has the value of the first
  -- root, the libraries behave as they document, the response is as its types keep it, and what is
  -- encrypted is within AES-GCM's limit.
  pub generate_constraints-decode_encrypted :
      (measure addr plaintext : Bytes) (draw : Draw x) (sent_at : Duration)
      (key verifier_key : c.SigningKey) (socket i index : ℕ) (old : Option (ResponseDeviceInfor c))
      (leaves root : List c.Scalar) (r0 : c.Scalar) (res : ResponseDeviceInfor c)
      (ctx : PublicContext c)
      → create_batch_devices c.hasher [] leaves ≡ ok root
      → get_elem? root 0 ≡ some r0
      → CollisionFree c.hasher r0 leaves
      → get_elem? leaves index ≡ some (generate_device_merkle_leaf c measure key)
      → build_attester_response c draw.now
          (session_of measure addr sent_at key socket old)
          root
          leaves
          verifier_key
        ≡ ok res
      → length draw.nonce ≡ 12
      → IsResponse res
      → 32 * length ctx.root < 2 ^ 63
      → encode_verifier_response c res ctx ≡ ok plaintext
      → length plaintext < 2 ^ 36 - 32
      → (r : ComputedResponse c) × (build_encrypted_attester_response c x draw i
            (session_of measure addr sent_at key socket old)
            root
            leaves
            verifier_key
            ctx
          ≡ ok r)
        × (decode_encrypted_verifier_response c x r.encrypted key ≡ ok (res, ctx))
        × (generate_constraints c
              (c.from_bytes_be (c.to_bytes key))
              (c.from_bytes_be measure)
              (point_scalar c (c.verifying_key key))
              root
              (generate_device_authoried_infor c
                (generate_device_client_infor c measure sent_at key)
                res)
              (c.from_u64 res.timestamp.secs)
              (c.from_u64 res.period.secs)
              res.shrubs_path
              res.shrubs_tag
            ≡ ok true)
  unfolding build_encrypted_attester_response generate_device_client_infor new_device_client_infor
  generate_constraints-decode_encrypted measure addr plaintext draw sent_at key verifier_key socket
        i index old leaves root r0 res ctx built first free here made twelve good room wrote short =
      let (res', made', holds) =
        generate_constraints-build_attester_response c measure addr draw.now sent_at key
          verifier_key socket index old leaves root r0 built first free here in
      let same : res' ≡ res = ok_inj (sym made' ∙ made) in
      let (bytes, sealed, opened) =
        decode-encode_encrypted_verifier_response sealing laws draw.ephemeral_secret draw.nonce
          plaintext key res ctx twelve good room wrote short in
      (
        record {
          index = i;
          socket = socket;
          attester_addr = addr;
          response = res;
          encrypted = bytes;
        },
        rw (made, sealed) refl,
        opened,
        rw same at holds,
      )
