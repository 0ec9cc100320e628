-- ===== src/Runs/Tokens.antt =====
-- Runs of the verification of virtCCA's evidence, with and without a token of the platform.
use unified_attestation.Prelude.{
  ◌≤◌, length, ◌≡◌, refl, true, false, Option, some, none, [], ◌∷◌, ◌==◌, if◌then◌else◌,
}
use unified_attestation.Outcome.{ok, panic}
use unified_attestation.Bytes.{Bytes}
use unified_attestation.Registers.{Digester, zeros}
use unified_attestation.Ima.{ImaParser}
use unified_attestation.Cbor.{
  set_entries, get_vec, of_size, Value, tag, map_of, entry, end, integer, pos, bytes,
}
use unified_attestation.Token.{
  cvm_of, set_cvm_entry, cvm_label, set_cvm, clone_from_slice, Cbor, new_cvm_token,
  new_platform_token, decode_cvm_token, decode_platform_token, platform_of,
}
use unified_attestation.Token.Post.{Yields}
use unified_attestation.Token.Sized.{IsCvmToken, decode_cvm_token-IsCvmToken}
use unified_attestation.Token.Platform.{decode_platform_token-panic}
use unified_attestation.Keys.{
  detect_cert_path, cert_paths, read_cert, verify_cert, pkey_of, verify_cose_sign1, pkey_to_cosekey,
  cose_key_of, Openssl, Cose, rsa, verify_dev_cert_chain,
}
use unified_attestation.Virtcca.{
  tagged_map, set_evidence_entry, evidence_label, set_evidence, decode_platform,
  verify_platform_token, verify_cvm_token, verify_ima_log, verify_event_log,
  parse_claim_from_evidence, payload_of, Evidence, TeeClaim, Host, decode, read_dev_cert, verify,
  evaluate,
}
use unified_attestation.Virtcca.Accepts.{Accepted, evaluate-Accepted}
use unified_attestation.Virtcca.Unbound.{verify-dev_cert}

-- A key of 133 bytes, and a challenge of 64.
abbrev key_bytes : Bytes
key_bytes = 4 ∷ zeros 132

abbrev challenge_bytes : Bytes
challenge_bytes = 7 ∷ zeros 63

abbrev cvm_map : Value
cvm_map = map_of (
    entry (integer (pos 10)) (bytes challenge_bytes)
      (entry (integer (pos 44237)) (bytes key_bytes) end))

-- 0 is the evidence without a platform, 1 the machine's payload, and the rest a platform's
-- payload with a configuration.
abbrev value_of : Bytes → Option Value
value_of [] = none
value_of (b ∷ bs) =
    if b == 0
    then some (tag 399 (map_of (entry (integer (pos 44241)) (bytes (1 ∷ [])) end)))
    else if b == 1
    then some cvm_map
    else some (map_of (entry (integer (pos 2401)) (bytes (5 ∷ [])) end))

abbrev cbor : Cbor
cbor = record { value_from = value_of; bytes_from = λ b. some b }

decode_cvm_token-IsCvmToken_example : Yields IsCvmToken (decode_cvm_token cbor (1 ∷ []))
decode_cvm_token-IsCvmToken_example = decode_cvm_token-IsCvmToken cbor (1 ∷ [])

no_entries : platform_of (map_of end) ≡ ok new_platform_token
unfolding platform_of set_entries
no_entries = refl

decode_platform_token-panic_example : decode_platform_token cbor (2 ∷ []) ≡ panic
decode_platform_token-panic_example =
    decode_platform_token-panic cbor (2 ∷ []) end end 5 [] new_platform_token refl no_entries

-- Every key verifies everything, and a certificate is its bytes.
abbrev openssl : Openssl
openssl = record {
  Cert = Bytes;
  PKey = Bytes;
  EcKey = Bytes;
  from_pem = λ b. some b;
  from_x509_der = λ b. some b;
  public_key = λ cert. some cert;
  verified_by = λ cert key. some true;
  id = λ key. rsa;
  rsa_n_e = λ key. some (key, key);
  ec_key = λ key. none;
  curve_name = λ key. none;
  uncompressed = λ key. none;
  public_key_from_der = λ key. some key;
  from_point_521 = λ key. none;
  hash = λ alg key. none;
}

abbrev cose : Cose
cose = record {
  Alg = Bytes;
  init_decoder = λ raw. some (record { raw = raw; alg = some []; payload = raw });
  key = λ raw parts alg. true;
  decode = λ raw parts alg. true;
}

abbrev plain_hex : Digester
plain_hex = record { sha256 = λ m. zeros 32; sha256_32 = λ m. refl; hex_encode = λ d. d }

abbrev no_events : ImaParser
no_events = record { events = λ ima_log. none; pcr_sha256 = λ ima_log i. none }

-- The evidence is the device certificate alone.
abbrev host : Host
host = record {
  openssl = openssl;
  cose = cose;
  cbor = cbor;
  from_slice = λ dev_cert.
      some (record { evidence = 0 ∷ []; dev_cert = dev_cert; ima_log = none; event_log = none });
  base64_url_decode = λ b. some b;
  cert_files = λ path. some [];
  digester = plain_hex;
  ima_parser = no_events;
  ref_paths = record { ima_base_dir = []; ima_reference_file = [] };
  ref_files = record { exists = λ path. true; file_reader = λ path. none };
  event_refs = none;
}

abbrev claim : TeeClaim
claim = record {
  payload = record {
    challenge = challenge_bytes;
    rpv = zeros 64;
    rim = [];
    rems = [] ∷ [] ∷ [] ∷ [] ∷ [];
    is_platform = false;
    measure_value = [];
  };
  ima = [];
  event_log = [];
}

evaluated : evaluate host (7 ∷ 0 ∷ []) (9 ∷ []) ≡ ok claim
unfolding evaluate verify decode tagged_map set_entries set_evidence_entry evidence_label
    set_evidence get_vec of_size decode_cvm_token cvm_of set_cvm_entry cvm_label set_cvm
    clone_from_slice decode_platform read_dev_cert verify_platform_token verify_dev_cert_chain
    detect_cert_path cert_paths read_cert verify_cert verify_cvm_token pkey_of verify_cose_sign1
    pkey_to_cosekey cose_key_of verify_ima_log verify_event_log parse_claim_from_evidence payload_of
evaluated = refl

evaluate-Accepted_example :
    (challenge : Bytes) × (host.base64_url_decode (7 ∷ 0 ∷ []) ≡ some challenge)
    × (1 ≤ length challenge)
    × (length challenge ≤ 64)
    × Accepted host challenge (9 ∷ []) claim
evaluate-Accepted_example = evaluate-Accepted host (7 ∷ 0 ∷ []) (9 ∷ []) claim evaluated

abbrev plain : Evidence Bytes
plain = record {
  cvm_envelop = record { raw = 1 ∷ []; alg = some []; payload = 1 ∷ [] };
  cvm_token = record new_cvm_token { challenge = challenge_bytes; pub_key = key_bytes };
  platform_envelop = record { raw = []; alg = none; payload = [] };
  platform_token = new_platform_token;
  is_platform = false;
}

plain_decoded : decode host (0 ∷ []) ≡ ok plain
unfolding decode tagged_map set_entries set_evidence_entry evidence_label set_evidence get_vec
    of_size decode_cvm_token cvm_of set_cvm_entry cvm_label set_cvm clone_from_slice decode_platform
plain_decoded = refl

chained : (cert : Bytes) → verify_dev_cert_chain openssl host.cert_files cert ≡ ok tt
unfolding verify_dev_cert_chain detect_cert_path cert_paths read_cert verify_cert
chained cert = refl

read : (cert : Bytes) → read_dev_cert host false cert ≡ ok cert
unfolding read_dev_cert
read cert = refl

verify-dev_cert_example : verify host (7 ∷ []) (9 ∷ []) ≡ verify host (7 ∷ []) (8 ∷ [])
verify-dev_cert_example =
    verify-dev_cert host (7 ∷ []) (9 ∷ []) (8 ∷ []) (8 ∷ [])
      (record { evidence = 0 ∷ []; dev_cert = 9 ∷ []; ima_log = none; event_log = none }) plain
      (9 ∷ []) (8 ∷ []) refl refl plain_decoded refl (read (9 ∷ [])) (read (8 ∷ []))
      (chained (9 ∷ [])) (chained (8 ∷ []))
