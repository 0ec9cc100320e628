-- ===== src/Runs/Wire.antt =====
-- Runs of the codec and of the relying party.
use unified_attestation.Prelude.{ℕ, ◌<◌, ◌≡◌, refl, [], ◌∷◌, ◌++◌, some, true, false, arith}
use unified_attestation.Outcome.{ok}
use unified_attestation.Bytes.{
  Bytes, Duration, IsDuration, is_utf8, utf8_scan, utf8_step, utf8_first,
}
use unified_attestation.Messages.{
  SignedDeviceClientInforWire, EncryptedMessage, ResponseDeviceInforWire, tcp_send_frame,
  tcp_read_frame, encode_signed_device_client_infor_message,
  decode_signed_device_client_infor_message,
}
use unified_attestation.Messages.Typed.{
  DeviceClientInfor, PublicContext, EvidenceReply, sign_device_client_infor_to_wire,
  verify_signed_device_client_infor_wire,
}
use unified_attestation.Messages.RoundTrip.{IsResponseWire}
use unified_attestation.Messages.Signed.{
  IsDevice, verify-sign_device_client_infor, tcp_read_frame-tcp_send_frame,
}
use unified_attestation.Messages.Evidence.{IsReply}
use unified_attestation.Runs.Toy.{toy, toy_laws, toy_verifies}

abbrev moment : ℕ → Duration
moment s = record { secs = s; nanos = 5 }

moment_small : (s : ℕ) → s < 1000 → IsDuration (moment s)
moment_small s h = record { secs_u64 = omega arith; nanos_small = omega arith }

abbrev text : Bytes
text = 0x61 ∷ 0xe2 ∷ 0x82 ∷ 0xac ∷ []

text_utf8 : is_utf8 text ≡ true
unfolding is_utf8 utf8_scan utf8_step utf8_first
text_utf8 = refl

abbrev cipher : EncryptedMessage
cipher = record { ephemeral_public_key = 7 ∷ []; nonce = 1 ∷ 2 ∷ []; ciphertext = [] }

abbrev response : ResponseDeviceInforWire
response = record {
  verifying_key = 2 ∷ 3 ∷ [];
  attester_addr = text;
  timestamp = moment 100;
  period = moment 20;
  sig = some (4 ∷ []);
  shrubs_path = some ((1 ∷ []) ∷ [] ∷ []);
  shrubs_tag = some (true ∷ false ∷ []);
}

response_ok : IsResponseWire response
response_ok = record {
  key_small = omega arith;
  addr_small = omega arith;
  addr_utf8 = text_utf8;
  timestamp_ok = moment_small 100 (omega arith);
  period_ok = moment_small 20 (omega arith);
  sig_small = omega arith;
  path_small = (omega arith, (omega arith, (omega arith, tt)));
  tag_small = omega arith;
}

tcp_read_frame-tcp_send_frame_example :
    tcp_read_frame (tcp_send_frame text ++ (9 ∷ [])) ≡ ok (text, 9 ∷ [])
tcp_read_frame-tcp_send_frame_example = tcp_read_frame-tcp_send_frame text (9 ∷ []) (omega arith)

abbrev device : DeviceClientInfor toy
device = record {
  verifying_key = 5;
  measured_value = text;
  merkle_leaf = 11;
  timestamp = moment 100;
  period = moment 20;
}

device_ok : IsDevice {c = toy} device
device_ok = record {
  value_small = omega arith;
  value_utf8 = text_utf8;
  timestamp_ok = moment_small 100 (omega arith);
  period_ok = moment_small 20 (omega arith);
}

verify-sign_device_client_infor_example :
    (signed : SignedDeviceClientInforWire) × (sign_device_client_infor_to_wire toy device 5
      ≡ ok signed)
    × ((rest : Bytes)
        → decode_signed_device_client_infor_message
            (encode_signed_device_client_infor_message signed ++ rest)
          ≡ ok signed)
    × (verify_signed_device_client_infor_wire toy signed ≡ ok device)
verify-sign_device_client_infor_example =
    verify-sign_device_client_infor toy_laws toy_verifies device 5 device_ok refl

abbrev shared : PublicContext toy
shared = record { root = 3 ∷ 1005 ∷ []; verifier_pk = 8 }

abbrev reply : EvidenceReply toy
reply = record {
  proof = 6;
  vk = 6;
  sig = 1;
  pk = 5;
  timestamp = moment 100;
  period = moment 20;
  authorized_infor = 4;
  timestamp_attester = moment 110;
  period_attester = moment 120;
  proof_timestamp_period_signature = 2;
}

reply_ok : IsReply {c = toy} reply
reply_ok = record {
  timestamp_ok = moment_small 100 (omega arith);
  period_ok = moment_small 20 (omega arith);
  timestamp_attester_ok = moment_small 110 (omega arith);
  period_attester_ok = moment_small 120 (omega arith);
}
