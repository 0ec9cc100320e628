-- ===== src/Messages/Typed.antt =====
-- hydra-toolkit/src/lib.rs: the messages in memory, with keys, scalars and signatures of their
-- types, and their way to the wire and back.
use unified_attestation.Prelude.{Bool, Option, List, [], length, drop, if◌then◌else◌}
use unified_attestation.Outcome.{
  guard, Result, ok, err, ◌>>=◌, context, deserialize_public_key, wrong_message, bad_signature,
}
use unified_attestation.Bytes.{Bytes, Duration}
use unified_attestation.Crypto.{Crypto}
use unified_attestation.Wire.{
  append_duration, read_duration, encode_scalar, decode_scalar, append_scalar, read_scalar,
  append_scalar_vec, read_scalar_vec, append_signature, decode_signature, read_signature,
  append_verifying_key, read_verifying_key, append_proof, read_proof, append_ark_vk, read_ark_vk,
}
use unified_attestation.Messages.{
  DeviceClientInforWire, SignedDeviceClientInforWire, encode_device_client_infor_wire, tag_pubc,
  tag_evid, starts_with, encode_typed_message,
}

module _ (c : Crypto) where
  pub record DeviceClientInfor : Type 0 where
    pub verifying_key : c.VerifyingKey
    pub measured_value : Bytes
    pub merkle_leaf : c.Scalar
    pub timestamp : Duration
    pub period : Duration

  pub record PublicContext : Type 0 where
    pub root : List c.Scalar
    pub verifier_pk : c.VerifyingKey

  pub record ResponseDeviceInfor : Type 0 where
    pub verifying_key : c.VerifyingKey
    pub attester_addr : Bytes
    pub timestamp : Duration
    pub period : Duration
    pub sig : Option c.Signature
    pub shrubs_path : Option (List c.Scalar)
    pub shrubs_tag : Option (List Bool)

  pub record EvidenceReply : Type 0 where
    pub proof : c.Proof
    pub vk : c.ArkVerifyingKey
    pub sig : c.Signature
    pub pk : c.VerifyingKey
    pub timestamp : Duration
    pub period : Duration
    pub authorized_infor : c.Scalar
    pub timestamp_attester : Duration
    pub period_attester : Duration
    pub proof_timestamp_period_signature : c.Signature

module _ (c : Crypto) where
  unfoldable pub device_client_infor_to_wire : DeviceClientInfor c → Result DeviceClientInforWire
  device_client_infor_to_wire value = do
    merkle_leaf ← encode_scalar c value.merkle_leaf
    ok (record {
      verifying_key = c.to_encoded_point value.verifying_key;
      measured_value = value.measured_value;
      merkle_leaf = merkle_leaf;
      timestamp = value.timestamp;
      period = value.period;
    })

  unfoldable pub device_client_infor_from_wire :
      DeviceClientInforWire → Result (DeviceClientInfor c)
  device_client_infor_from_wire wire = do
    verifying_key ← context deserialize_public_key (c.from_sec1_bytes wire.verifying_key)
    merkle_leaf ← decode_scalar c wire.merkle_leaf
    ok (record {
      verifying_key = verifying_key;
      measured_value = wire.measured_value;
      merkle_leaf = merkle_leaf;
      timestamp = wire.timestamp;
      period = wire.period;
    })

  unfoldable pub encode_device_client_infor : DeviceClientInfor c → Result Bytes
  encode_device_client_infor value = do
    wire ← device_client_infor_to_wire value
    ok (encode_device_client_infor_wire wire)

  unfoldable pub sign_device_client_infor : DeviceClientInfor c → c.SigningKey → Result c.Signature
  sign_device_client_infor value key = do
    message ← encode_device_client_infor value
    ok (c.sign key message)

  unfoldable pub sign_device_client_infor_to_wire :
      DeviceClientInfor c → c.SigningKey → Result SignedDeviceClientInforWire
  sign_device_client_infor_to_wire value key = do
    signature ← sign_device_client_infor value key
    device ← device_client_infor_to_wire value
    ok (record { device = device; signature = c.to_der signature })

  unfoldable pub verify_signed_device_client_infor_wire :
      SignedDeviceClientInforWire → Result (DeviceClientInfor c)
  verify_signed_device_client_infor_wire signed = do
    verifying_key ← context deserialize_public_key (c.from_sec1_bytes signed.device.verifying_key)
    signature ← decode_signature c signed.signature
    let message = encode_device_client_infor_wire signed.device
    done ← guard (c.verify verifying_key message signature) bad_signature
    device_client_infor_from_wire signed.device

  unfoldable pub encode_public_context : PublicContext c → Result Bytes
  encode_public_context value = do
    out ← append_scalar_vec c [] value.root
    ok (append_verifying_key c out value.verifier_pk)

  unfoldable pub decode_public_context : Bytes → Result (PublicContext c)
  decode_public_context s = do
    (root, s) ← read_scalar_vec c s
    (verifier_pk, s) ← read_verifying_key c s
    ok (record { root = root; verifier_pk = verifier_pk })

  unfoldable pub encode_evidence_bundle : EvidenceReply c → c.Signature → Result Bytes
  encode_evidence_bundle reply device_signature = do
    out ← append_proof c [] reply.proof
    out ← append_ark_vk c out reply.vk
    let out = append_signature c out reply.sig
    let out = append_verifying_key c out reply.pk
    let out = append_duration out reply.timestamp
    let out = append_duration out reply.period
    out ← append_scalar c out reply.authorized_infor
    let out = append_duration out reply.timestamp_attester
    let out = append_duration out reply.period_attester
    let out = append_signature c out reply.proof_timestamp_period_signature
    ok (append_signature c out device_signature)

  unfoldable pub decode_evidence_bundle : Bytes → Result (EvidenceReply c × c.Signature)
  decode_evidence_bundle s = do
    (proof, s) ← read_proof c s
    (vk, s) ← read_ark_vk c s
    (sig, s) ← read_signature c s
    (pk, s) ← read_verifying_key c s
    (timestamp, s) ← read_duration s
    (period, s) ← read_duration s
    (authorized_infor, s) ← read_scalar c s
    (timestamp_attester, s) ← read_duration s
    (period_attester, s) ← read_duration s
    (proof_timestamp_period_signature, s) ← read_signature c s
    (device_signature, s) ← read_signature c s
    let reply : EvidenceReply c = record {
      proof = proof;
      vk = vk;
      sig = sig;
      pk = pk;
      timestamp = timestamp;
      period = period;
      authorized_infor = authorized_infor;
      timestamp_attester = timestamp_attester;
      period_attester = period_attester;
      proof_timestamp_period_signature = proof_timestamp_period_signature;
    }
    ok (reply, device_signature)

  unfoldable pub encode_public_context_message : PublicContext c → Result Bytes
  encode_public_context_message value = do
    payload ← encode_public_context value
    ok (encode_typed_message tag_pubc payload)

  unfoldable pub decode_public_context_message : Bytes → Result (PublicContext c)
  decode_public_context_message bytes =
      if starts_with bytes tag_pubc
      then decode_public_context (drop (length tag_pubc) bytes)
      else err wrong_message

  unfoldable pub encode_evidence_message : EvidenceReply c → c.Signature → Result Bytes
  encode_evidence_message reply device_signature = do
    payload ← encode_evidence_bundle reply device_signature
    ok (encode_typed_message tag_evid payload)

  unfoldable pub decode_evidence_message : Bytes → Result (EvidenceReply c × c.Signature)
  decode_evidence_message bytes =
      if starts_with bytes tag_evid
      then decode_evidence_bundle (drop (length tag_evid) bytes)
      else err wrong_message
