-- ===== src/Runs/Configured.antt =====
-- Runs of a device's configuration, its file and the evidence made from it.
use unified_attestation.Prelude.{
  ℕ, ◌≤◌, ◌≡◌, refl, ap, [], ◌∷◌, ◌++◌, some, none, true, arith, length, ==_refl,
}
use unified_attestation.Outcome.{Result, ok, err, panic, stuck}
use unified_attestation.Bytes.{be64, be32, Bytes, IsDuration}
use unified_attestation.Crypto.{Crypto, CodecLaws}
use unified_attestation.Registers.{zeros}
use unified_attestation.Messages.{tcp_send_frame, max_tcp_frame_len}
use unified_attestation.Messages.Typed.{
  encode_evidence_bundle, EvidenceReply, encode_evidence_message,
}
use unified_attestation.ShrubsPath.{membership, any_root, climb_path}
use unified_attestation.Wire.{
  append_proof, append_ark_vk, append_signature, append_len_bytes, append_duration,
  append_verifying_key, append_scalar, encode_scalar,
}
use unified_attestation.Authorization.{
  generate_verifier_authoried_infor, new_device_client_infor, generate_constraints,
  generate_device_client_infor, point_scalar,
}
use unified_attestation.Evidence.{
  new_evidence_reply, sign_proof_timestamp_period, proof_timestamp_period_signing_bytes,
  to_signing_bytes_all_fields,
}
use unified_attestation.Config.{
  DeviceConfigInfor, new_device_config_infor, save_device_config_infor, load_device_config_infor,
  new_circuit, circuit_holds, Prover, Complete, generate_device_evidence_from_config,
}
use unified_attestation.Config.Saved.{IsConfig, KeyLaws, load-save_device_config_infor}
use unified_attestation.Config.Proof.{handle-generate_device_evidence_from_config}
use unified_attestation.RelyingParty.{success, RpState, handle}
use unified_attestation.Runs.Toy.{toy, toy_laws, toy_verifies, only}
use unified_attestation.Runs.Devices.{measure, moment}
use unified_attestation.Runs.Parties.{at, at_small, bytes_of, world}
use unified_attestation.Runs.Sealed.{roots, response, context}

-- Secret keys of 32 bytes.
abbrev wide : Crypto
wide = record toy { to_bytes = λ k. k ∷ zeros 31 }

wide_laws : CodecLaws wide
wide_laws = record {
  scalar_law = toy_laws.scalar_law;
  proof_law = toy_laws.proof_law;
  ark_vk_law = toy_laws.ark_vk_law;
  der_law = toy_laws.der_law;
  der_short = toy_laws.der_short;
  point_law = toy_laws.point_law;
  point_short = toy_laws.point_short;
}

wide_keys : KeyLaws wide only
wide_keys = record { key_32 = λ k. refl; key_law = λ k. refl }

abbrev kept_config : DeviceConfigInfor wide
kept_config = record {
  signing_key = 5;
  verifying_key = 5;
  measured_value = 7;
  timestamp = at 100;
  period = at 20;
  merkle_leaf = 11;
  merkle_path = some (9 ∷ 8 ∷ []);
  merkle_tag = some (true ∷ true ∷ []);
  authorized_infor = 4;
  signature = some 27;
}

kept_config-IsConfig : IsConfig kept_config
kept_config-IsConfig = record {
  timestamp_ok = at_small 100 (omega arith);
  period_ok = at_small 20 (omega arith);
  path_small = omega arith;
  tag_small = omega arith;
}

load-save_device_config_infor_example :
    (file : Bytes) × (save_device_config_infor wide true true kept_config ≡ ok file)
    × (load_device_config_infor wide only (some file) ≡ ok kept_config)
load-save_device_config_infor_example =
    load-save_device_config_infor wide_laws only kept_config wide_keys kept_config-IsConfig

-- A prover whose keys and proofs are its random number.
abbrev prover : Prover toy
prover = record {
  Random = ℕ;
  ProvingKey = ℕ;
  circuit_specific_setup = λ circuit r. some (r, r);
  prove = λ key circuit r. some key;
}

prover-Complete : Complete toy prover
prover-Complete circuit r1 r2 holds = (r1, r1, r1, refl, refl, ap some (==_refl r1))

abbrev config : DeviceConfigInfor toy
config = new_device_config_infor toy 5 (generate_device_client_infor toy measure moment 5) response

config_holds :
    circuit_holds toy (new_circuit toy config roots config.merkle_path config.merkle_tag) ≡ ok true
unfolding circuit_holds generate_constraints membership new_circuit new_device_config_infor any_root
    climb_path generate_device_client_infor new_device_client_infor point_scalar
    generate_verifier_authoried_infor
config_holds = refl

config_signed : config.signature ≡ some 27
unfolding new_device_config_infor
config_signed = refl

config_key : config.verifying_key ≡ toy.verifying_key config.signing_key
unfolding new_device_config_infor
config_key = refl

config_time : IsDuration config.timestamp
unfolding new_device_config_infor
config_time = at_small 100 (omega arith)

config_period : IsDuration config.period
unfolding new_device_config_infor
config_period = record { secs_u64 = omega arith; nanos_small = omega arith }

abbrev no_reply : EvidenceReply toy × ℕ
no_reply = (
  record {
    proof = 0;
    vk = 0;
    sig = 0;
    pk = 0;
    timestamp = moment;
    period = moment;
    authorized_infor = 0;
    timestamp_attester = moment;
    period_attester = moment;
    proof_timestamp_period_signature = 0;
  },
  0,
)

abbrev made_of : Result (EvidenceReply toy × ℕ) → EvidenceReply toy × ℕ
made_of (ok r) = r
made_of (err e) = no_reply
made_of panic = no_reply
made_of stuck = no_reply

abbrev evidence : EvidenceReply toy × ℕ
evidence = made_of (generate_device_evidence_from_config toy prover 6 7 (at 110) roots config)

evidence_made :
    generate_device_evidence_from_config toy prover 6 7 (at 110) roots config
    ≡ ok (evidence.0, evidence.1)
unfolding generate_device_evidence_from_config new_device_config_infor new_evidence_reply
    sign_proof_timestamp_period proof_timestamp_period_signing_bytes to_signing_bytes_all_fields
evidence_made = refl

abbrev evidence_bytes : Bytes
evidence_bytes = bytes_of (encode_evidence_message toy evidence.0 evidence.1)

evidence_encoded : encode_evidence_message toy evidence.0 evidence.1 ≡ ok evidence_bytes
unfolding encode_evidence_message encode_evidence_bundle append_proof append_ark_vk append_scalar
    encode_scalar
evidence_encoded = refl

evidence_short : length evidence_bytes ≤ max_tcp_frame_len
unfolding encode_evidence_message encode_evidence_bundle append_proof append_ark_vk append_scalar
    encode_scalar append_signature append_len_bytes append_duration append_verifying_key be64 be32
evidence_short = omega arith

abbrev caching : RpState toy
caching = record { cached = some context; saved = none; sent = []; events = [] }

handle-generate_device_evidence_from_config_example :
    (handle toy world (tcp_send_frame evidence_bytes ++ []) caching).0.sent ≡ success ∷ []
handle-generate_device_evidence_from_config_example =
    handle-generate_device_evidence_from_config toy_laws prover 6 7 world caching (at 110) (at 200)
      config 27 evidence.1 evidence.0 context evidence_bytes [] toy_verifies prover-Complete
      config_key config_signed config_holds evidence_made evidence_encoded evidence_short
      (at_small 110 (omega arith)) config_time config_period refl (omega arith) (omega arith) refl
      refl
