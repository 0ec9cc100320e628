-- ===== src/Messages.antt =====
-- hydra-toolkit/src/lib.rs: the messages between attester, verifier and relying party, their
-- in-memory and wire forms, and the TCP frames that carry them.
pub mod Evidence
pub mod RoundTrip
pub mod Signed
pub mod Typed
use unified_attestation.Prelude.{
  ℕ, ◌≡◌, ◌≤◌, ◌<◌, ◌^◌, ◌*◌, Bool, true, false, Option, none, some, List, [], ◌∷◌, ◌++◌, length,
  take, drop, leb, ltb, ◌==◌, if◌then◌else◌,
}
use unified_attestation.Outcome.{
  Error, guard, Result, ok, err, ◌>>=◌, context, serialize, deserialize_public_key, wrong_message,
  frame_length, frame_too_large, frame_payload, bad_signature,
}
use unified_attestation.Bytes.{Bytes, be64, from_be, Duration, IsDuration, is_utf8}
use unified_attestation.Crypto.{Crypto, IsSmall}
use unified_attestation.Wire.{
  Reader, append_len_bytes, read_len_bytes, read_string, append_duration, read_duration, read_u64,
  read_times, allocate, read_option, append_option_bool_vec, read_option_bool_vec, encode_scalar,
  decode_scalar, append_scalar, read_scalar, append_scalar_vec, read_scalar_vec, append_signature,
  decode_signature, read_signature, append_verifying_key, read_verifying_key, append_proof,
  read_proof, append_ark_vk, read_ark_vk,
}

pub record DeviceClientInforWire : Type 0 where
  pub verifying_key : Bytes
  pub measured_value : Bytes
  pub merkle_leaf : Bytes
  pub timestamp : Duration
  pub period : Duration

pub record SignedDeviceClientInforWire : Type 0 where
  pub device : DeviceClientInforWire
  pub signature : Bytes

pub record EncryptedMessage : Type 0 where
  pub ephemeral_public_key : Bytes
  pub nonce : Bytes
  pub ciphertext : Bytes

pub record ResponseDeviceInforWire : Type 0 where
  pub verifying_key : Bytes
  pub attester_addr : Bytes
  pub timestamp : Duration
  pub period : Duration
  pub sig : Option Bytes
  pub shrubs_path : Option (List Bytes)
  pub shrubs_tag : Option (List Bool)

unfoldable pub encode_device_client_infor_wire : DeviceClientInforWire → Bytes
encode_device_client_infor_wire value =
    let out = append_len_bytes [] value.verifying_key in
    let out = append_len_bytes out value.measured_value in
    let out = append_len_bytes out value.merkle_leaf in
    let out = append_duration out value.timestamp in append_duration out value.period

unfoldable pub decode_device_client_infor_wire : Bytes → Result DeviceClientInforWire
decode_device_client_infor_wire s = do
  (verifying_key, s) ← read_len_bytes s
  (measured_value, s) ← read_string s
  (merkle_leaf, s) ← read_len_bytes s
  (timestamp, s) ← read_duration s
  (period, s) ← read_duration s
  ok (record {
    verifying_key = verifying_key;
    measured_value = measured_value;
    merkle_leaf = merkle_leaf;
    timestamp = timestamp;
    period = period;
  })

unfoldable pub encode_signed_device_client_infor_wire : SignedDeviceClientInforWire → Bytes
encode_signed_device_client_infor_wire value =
    let out = append_len_bytes [] (encode_device_client_infor_wire value.device) in
    append_len_bytes out value.signature

unfoldable pub decode_signed_device_client_infor_wire : Bytes → Result SignedDeviceClientInforWire
decode_signed_device_client_infor_wire s = do
  (bytes, s) ← read_len_bytes s
  device ← decode_device_client_infor_wire bytes
  (signature, s) ← read_len_bytes s
  ok (record { device = device; signature = signature })

unfoldable pub encode_encrypted_message : EncryptedMessage → Bytes
encode_encrypted_message value =
    let out = append_len_bytes [] value.ephemeral_public_key in
    let out = append_len_bytes out value.nonce in append_len_bytes out value.ciphertext

unfoldable pub decode_encrypted_message : Bytes → Result EncryptedMessage
decode_encrypted_message s = do
  (ephemeral_public_key, s) ← read_len_bytes s
  (nonce, s) ← read_len_bytes s
  (ciphertext, s) ← read_len_bytes s
  ok (record {
    ephemeral_public_key = ephemeral_public_key;
    nonce = nonce;
    ciphertext = ciphertext;
  })

unfoldable pub append_sig : Bytes → Option Bytes → Bytes
append_sig out (some sig) = append_len_bytes (out ++ (1 ∷ [])) sig
append_sig out none = out ++ (0 ∷ [])

unfoldable pub append_items : Bytes → List Bytes → Bytes
append_items out [] = out
append_items out (item ∷ path) = append_items (append_len_bytes out item) path

unfoldable pub append_path : Bytes → Option (List Bytes) → Bytes
append_path out (some path) = append_items ((out ++ (1 ∷ [])) ++ be64 (length path)) path
append_path out none = out ++ (0 ∷ [])

-- A `Vec<u8>` takes 24 bytes of memory.
unfoldable pub read_path : Reader (List Bytes)
read_path s = do (len, s) ← read_u64 s; done ← allocate 24 len; read_times read_len_bytes len s

unfoldable pub encode_response_device_infor_wire : ResponseDeviceInforWire → Bytes
encode_response_device_infor_wire value =
    let out = append_len_bytes [] value.verifying_key in
    let out = append_len_bytes out value.attester_addr in
    let out = append_duration out value.timestamp in
    let out = append_duration out value.period in
    let out = append_sig out value.sig in
    let out = append_path out value.shrubs_path in append_option_bool_vec out value.shrubs_tag

unfoldable pub decode_response_device_infor_wire : Bytes → Result ResponseDeviceInforWire
decode_response_device_infor_wire s = do
  (verifying_key, s) ← read_len_bytes s
  (attester_addr, s) ← read_string s
  (timestamp, s) ← read_duration s
  (period, s) ← read_duration s
  (sig, s) ← read_option read_len_bytes s
  (shrubs_path, s) ← read_option read_path s
  (shrubs_tag, s) ← read_option_bool_vec s
  ok (record {
    verifying_key = verifying_key;
    attester_addr = attester_addr;
    timestamp = timestamp;
    period = period;
    sig = sig;
    shrubs_path = shrubs_path;
    shrubs_tag = shrubs_tag;
  })

abbrev pub tag_dinf : Bytes
tag_dinf = 0x44 ∷ 0x49 ∷ 0x4e ∷ 0x46 ∷ []

abbrev pub tag_pubc : Bytes
tag_pubc = 0x50 ∷ 0x55 ∷ 0x42 ∷ 0x43 ∷ []

abbrev pub tag_evid : Bytes
tag_evid = 0x45 ∷ 0x56 ∷ 0x49 ∷ 0x44 ∷ []

abbrev pub starts_with : Bytes → Bytes → Bool
starts_with bytes [] = true
starts_with [] (t ∷ tag) = false
starts_with (b ∷ bytes) (t ∷ tag) = if b == t then starts_with bytes tag else false

abbrev pub encode_typed_message : Bytes → Bytes → Bytes
encode_typed_message kind payload = kind ++ payload

unfoldable pub encode_signed_device_client_infor_message : SignedDeviceClientInforWire → Bytes
encode_signed_device_client_infor_message value =
    encode_typed_message tag_dinf (encode_signed_device_client_infor_wire value)

unfoldable pub decode_signed_device_client_infor_message :
    Bytes → Result SignedDeviceClientInforWire
decode_signed_device_client_infor_message bytes =
    if starts_with bytes tag_dinf
    then decode_signed_device_client_infor_wire (drop (length tag_dinf) bytes)
    else err wrong_message

-- The bytes that `tcp_send_frame` writes, and what `tcp_read_frame` takes off a stream whose
-- bytes are `s` and then its end.
abbrev pub max_tcp_frame_len : ℕ
max_tcp_frame_len = 512 * 1024 * 1024

-- `read_exact` of the stream.
abbrev pub take_bytes : Error → ℕ → Reader Bytes
take_bytes e n s = if leb n (length s) then ok (take n s, drop n s) else err e

unfoldable pub tcp_send_frame : Bytes → Bytes
tcp_send_frame payload = be64 (length payload) ++ payload

unfoldable pub tcp_read_frame : Reader Bytes
tcp_read_frame s = do
  (len_buf, s) ← take_bytes frame_length 8 s
  let len = from_be 0 len_buf
  done ← guard (leb len max_tcp_frame_len) frame_too_large
  take_bytes frame_payload len s
