-- ===== src/Runs/Sealed.antt =====
-- Runs of the encrypted responses, of what a batch sends, and of the device's configuration.
use unified_attestation.Prelude.{
  ℕ, ◌+◌, ◌-◌, ◌<◌, ◌≡◌, refl, ap, ◌∙◌, List, [], ◌∷◌, ◌++◌, some, none, true, arith, length,
  length-append, take, take-append,
}
use unified_attestation.Outcome.{ok}
use unified_attestation.Bytes.{is_utf8, Bytes, be64, be32}
use unified_attestation.Registers.{zeros}
use unified_attestation.Messages.Typed.{encode_public_context, ResponseDeviceInfor, PublicContext}
use unified_attestation.Authorization.{
  encode_response_device_infor, response_device_infor_to_wire, new_response_device_infor,
  set_signature, verifier_compute_sig, generate_device_authoried_infor, new_device_client_infor,
  point_scalar, build_attester_response, respond_with, generate_device_client_infor,
  generate_device_merkle_leaf, encode_verifier_response,
}
use unified_attestation.Authorization.Response.{IsResponse}
use unified_attestation.Sealing.{
  Sealing, SealingLaws, encode_encrypted_verifier_response, decode_encrypted_verifier_response,
}
use unified_attestation.Sealing.RoundTrip.{decode-encode_encrypted_verifier_response}
use unified_attestation.Wire.{
  encode_scalar, append_scalar_vec, append_scalars, append_scalar, append_len_bytes,
  append_verifying_key, append_duration, append_option_bool_vec, append_bool_vec,
}
use unified_attestation.Messages.{
  encode_response_device_infor_wire, append_sig, append_path, append_items,
}
use unified_attestation.Shrubs.{position, pair_hashes}
use unified_attestation.ShrubsPath.{
  interval_loop, largest_power_two_leq, power_loop, boundary_test, climb,
  find_device_shrubs_path_tag, find_shrubs_path, find_interval_index,
}
use unified_attestation.Daemon.{AttesterSession}
use unified_attestation.Runs.Toy.{toy, toy_laws, only}
use unified_attestation.Runs.Devices.{measure, moment, tree}
use unified_attestation.Runs.Parties.{at_small, bytes_of}

-- The exchange adds its two keys, and the cipher only appends a tag.
abbrev pub open_sealing : Sealing
open_sealing = record {
  EphemeralSecret = ℕ;
  SecretKey = ℕ;
  PublicKey = ℕ;
  Cipher = ℕ;
  public_key = λ e. e;
  to_sec1_bytes = λ p. p ∷ [];
  from_sec1_bytes = only;
  from_slice = only;
  ephemeral_agreement = λ e p. (e + p) ∷ [];
  diffie_hellman = λ s p. (p + s) ∷ [];
  expand = λ shared info. some shared;
  new_cipher = λ key. some (length key);
  encrypt = λ cipher nonce plaintext. some (plaintext ++ zeros 16);
  decrypt = λ cipher nonce ciphertext. some (take (length ciphertext - 16) ciphertext);
}

untag :
    (plaintext : Bytes)
    → take (length (plaintext ++ zeros 16) - 16) (plaintext ++ zeros 16) ≡ plaintext
untag plaintext =
    ap (λ n. take n (plaintext ++ zeros 16)) shorter ∙ take-append plaintext (zeros 16)
  where
    shorter : length (plaintext ++ zeros 16) - 16 ≡ length plaintext
    shorter = omega (arith, length-append plaintext (zeros 16))

pub open_laws : SealingLaws toy open_sealing
open_laws = record {
  sec1_law = λ p. refl;
  sec1_short = λ p. omega arith;
  device_keys = λ key. (key, key, refl, refl, λ e. refl);
  expand_law = λ shared info. (shared, length shared, refl, refl);
  cipher_law = λ cipher nonce plaintext twelve short.
      (plaintext ++ zeros 16, refl, ap some (untag plaintext), length-append plaintext (zeros 16));
}

abbrev pub roots : List ℕ
roots = 8 ∷ 13075 ∷ []

abbrev pub session : AttesterSession toy
session = record {
  socket = 4;
  dev_infor = generate_device_client_infor toy measure moment 5;
  merkle_leaf = generate_device_merkle_leaf toy measure 5;
  response = none;
  attester_addr = [];
}

abbrev pub response : ResponseDeviceInfor toy
response = record {
  verifying_key = 5;
  attester_addr = [];
  timestamp = moment;
  period = record { secs = 8640000; nanos = 0 };
  sig = some 27;
  shrubs_path = some (9 ∷ []);
  shrubs_tag = some (true ∷ []);
}

pub response_built : build_attester_response toy moment session roots tree 9 ≡ ok response
unfolding build_attester_response respond_with find_device_shrubs_path_tag find_shrubs_path
    find_interval_index generate_device_merkle_leaf new_response_device_infor set_signature
    verifier_compute_sig generate_device_authoried_infor generate_device_client_infor
    new_device_client_infor point_scalar be64 position interval_loop largest_power_two_leq
    power_loop boundary_test climb pair_hashes
response_built = refl

pub response-IsResponse : IsResponse response
unfolding is_utf8
response-IsResponse = record {
  timestamp_ok = at_small 100 (omega arith);
  period_ok = record { secs_u64 = omega arith; nanos_small = omega arith };
  addr_small = omega arith;
  addr_utf8 = refl;
  path_small = omega arith;
  tag_small = omega arith;
}

abbrev pub context : PublicContext toy
context = record { root = roots; verifier_pk = 9 }

abbrev pub plaintext : Bytes
plaintext = bytes_of (encode_verifier_response toy response context)

pub plaintext_written : encode_verifier_response toy response context ≡ ok plaintext
unfolding encode_verifier_response encode_response_device_infor response_device_infor_to_wire
    encode_scalar encode_public_context append_scalar_vec append_scalars append_scalar
plaintext_written = refl

pub plaintext_short : length plaintext < 1000
unfolding encode_verifier_response encode_response_device_infor response_device_infor_to_wire
    encode_scalar encode_public_context append_scalar_vec append_scalars append_scalar
    append_len_bytes append_verifying_key encode_response_device_infor_wire append_duration
    append_sig append_path append_items append_option_bool_vec append_bool_vec be64 be32
plaintext_short = omega arith

decode-encode_encrypted_verifier_response_example :
    (bytes : Bytes) × (encode_encrypted_verifier_response toy open_sealing 3
        (zeros 12)
        response
        context
        5
      ≡ ok bytes)
    × (decode_encrypted_verifier_response toy open_sealing bytes 5 ≡ ok (response, context))
decode-encode_encrypted_verifier_response_example =
    decode-encode_encrypted_verifier_response open_laws toy_laws 3 (zeros 12) plaintext 5 response
      context refl response-IsResponse (omega arith) plaintext_written
      (omega (arith, plaintext_short))
