-- ===== src/Virtcca.antt =====
-- evidence-verify/src/virtcca/mod.rs: the evidence of virtCCA, decoded and verified. JSON, base64
-- and the files of references come from outside; the build has the feature ima-verifier, and not
-- no_as.
pub mod Accepts
pub mod Unbound
use unified_attestation.Prelude.{
  ℕ, Bool, true, false, ◌&&◌, Option, none, some, List, [], ◌∷◌, map, length, get_elem?, take, leb,
  ltb, ◌==◌, if◌then◌else◌, not,
}
use unified_attestation.Outcome.{
  Result, ok, err, panic, ◌>>=◌, context, guard, bad_base64, bad_json, bad_cbor, bad_cose, bad_tag,
  bad_certificate, bad_size, bad_challenge, not_tag, not_map, not_integer, unknown_label,
}
use unified_attestation.Bytes.{Bytes}
use unified_attestation.Registers.{Digester, bytes_eq, ReportKey, event_verify}
use unified_attestation.Ima.{ImaParser, RefFiles, RefPaths, Detail, virtcca_ima_verify}
use unified_attestation.Cbor.{ℤ, pos, negsuc, Value, tag, map_of, Entries, get_vec, set_entries}
use unified_attestation.Token.{
  CvmToken, PlatformToken, SwComp, new_cvm_token, new_platform_token, Cbor, decode_cvm_token,
  decode_platform_token,
}
use unified_attestation.Keys.{
  Openssl, Cose, Envelop, CertPath, verify_dev_cert_chain, pkey_of, verfiy_cvm_challenge,
  verify_cose_sign1,
}

pub record VirtccaEvidence : Type 0 where
  pub evidence : Bytes
  pub dev_cert : Bytes
  pub ima_log : Option Bytes
  pub event_log : Option Bytes

pub record Evidence (Alg : Type 0) : Type 0 where
  pub cvm_envelop : Envelop Alg
  pub cvm_token : CvmToken
  pub platform_envelop : Envelop Alg
  pub platform_token : PlatformToken
  pub is_platform : Bool

abbrev pub new_envelop : {Alg : Type 0} → Envelop Alg
new_envelop = record { raw = []; alg = none; payload = [] }

abbrev pub new_evidence : {Alg : Type 0} → Evidence Alg
new_evidence = record {
  cvm_envelop = new_envelop;
  cvm_token = new_cvm_token;
  platform_envelop = new_envelop;
  platform_token = new_platform_token;
  is_platform = false;
}

-- The JSON objects of the result; their texts are the hexadecimal digits of the token's fields.
pub record Payload : Type 0 where
  pub challenge : Bytes
  pub rpv : Bytes
  pub rim : Bytes
  pub rems : List Bytes
  pub is_platform : Bool
  pub measure_value : List SwComp

pub record TeeClaim : Type 0 where
  pub payload : Payload
  pub ima : Detail
  pub event_log : List (ReportKey × Bool)

-- Other crates and the files: `from_slice` is serde_json's for the evidence.
pub record Host : Type 1 where
  pub openssl : Openssl
  pub cose : Cose
  pub cbor : Cbor
  pub from_slice : Bytes → Option VirtccaEvidence
  pub base64_url_decode : Bytes → Option Bytes
  pub cert_files : CertPath → Option Bytes
  pub digester : Digester
  pub ima_parser : ImaParser
  pub ref_paths : RefPaths
  pub ref_files : RefFiles
  pub event_refs : Option (Bytes → Bool)

pub data EvidenceLabel : Type 0 where
  cvm_token_label platform_token_label : EvidenceLabel

unfoldable pub evidence_label : ℤ → Option EvidenceLabel
evidence_label (negsuc n) = none
evidence_label (pos n) =
    if n == 44241
    then some cvm_token_label
    else if n == 44234
    then some platform_token_label
    else none

unfoldable pub set_evidence :
    {Alg : Type 0} → EvidenceLabel → Value → Evidence Alg → Result (Evidence Alg)
set_evidence cvm_token_label v evidence = do
  token ← get_vec v []
  ok (record evidence { cvm_envelop = record new_envelop { raw = token } })
set_evidence platform_token_label v evidence = do
  token ← get_vec v []
  ok (record evidence { is_platform = true; platform_envelop = record new_envelop { raw = token } })

unfoldable pub set_evidence_entry :
    {Alg : Type 0} → ℤ → Value → Evidence Alg → Result (Evidence Alg)
set_evidence_entry i v evidence = elim (evidence_label i) [
  | none ↦ err unknown_label
  | some label ↦ set_evidence label v evidence
]

unfoldable pub tagged_map : Value → Result Entries
tagged_map (tag t (map_of contents)) = if t == 399 then ok contents else err bad_tag
tagged_map (tag t m) = if t == 399 then err not_map else err bad_tag
tagged_map _ = err not_tag

-- `rem[i]` of an array of four.
abbrev pub rem_at : List Bytes → ℕ → Bytes
rem_at rem i = elim (get_elem? rem i) [ none ↦ [] | some r ↦ r ]

module _ (w : Host) where
  -- The platform's envelope is decoded where there is one.
  unfoldable pub decode_platform : Bool → Evidence w.cose.Alg → Result (Evidence w.cose.Alg)
  decode_platform false evidence = ok evidence
  decode_platform true evidence = do
    envelop ← context bad_cose (w.cose.init_decoder evidence.platform_envelop.raw)
    token ← decode_platform_token w.cbor envelop.payload
    ok (record evidence { platform_envelop = envelop; platform_token = token })

  unfoldable pub decode : Bytes → Result (Evidence w.cose.Alg)
  decode raw_evidence = do
    val ← context bad_cbor (w.cbor.value_from raw_evidence)
    contents ← tagged_map val
    labelled ← set_entries set_evidence_entry (err not_integer) contents new_evidence
    envelop ← context bad_cose (w.cose.init_decoder labelled.cvm_envelop.raw)
    token ← decode_cvm_token w.cbor envelop.payload
    decode_platform labelled.is_platform
        (record labelled { cvm_envelop = envelop; cvm_token = token })

  unfoldable pub verify_platform_token : Evidence w.cose.Alg → w.openssl.Cert → Result (Unit {0})
  verify_platform_token evidence dev_cert = do
    chained ← verify_dev_cert_chain w.openssl w.cert_files dev_cert
    if evidence.is_platform
        then (do
          pkey ← context bad_certificate (w.openssl.public_key dev_cert)
          verify_cose_sign1 w.openssl w.cose evidence.platform_envelop pkey)
        else ok tt

  -- `challenge[0..len]` panics where the token's challenge is shorter.
  unfoldable pub verify_cvm_token : Evidence w.cose.Alg → Bytes → Result (Unit {0})
  verify_cvm_token evidence challenge = do
    token_challenge ←
        if leb (length challenge) (length evidence.cvm_token.challenge)
        then ok (take (length challenge) evidence.cvm_token.challenge)
        else panic
    same ← guard (bytes_eq challenge token_challenge) bad_challenge
    bound ←
        if evidence.is_platform
        then verfiy_cvm_challenge w.openssl evidence.cvm_token.pub_key_hash_alg
            evidence.platform_token.challenge evidence.cvm_token.pub_key
        else ok tt
    pkey ← pkey_of w.openssl evidence.cvm_token.pub_key
    verify_cose_sign1 w.openssl w.cose evidence.cvm_envelop pkey

  unfoldable pub payload_of : Evidence w.cose.Alg → Payload
  payload_of evidence = record {
    challenge = w.digester.hex_encode evidence.cvm_token.challenge;
    rpv = w.digester.hex_encode evidence.cvm_token.rpv;
    rim = w.digester.hex_encode evidence.cvm_token.rim;
    rems = map w.digester.hex_encode evidence.cvm_token.rem;
    is_platform = evidence.is_platform;
    measure_value = evidence.platform_token.sw_components;
  }

  unfoldable pub parse_claim_from_evidence :
      Evidence w.cose.Alg → Detail → List (ReportKey × Bool) → TeeClaim
  parse_claim_from_evidence evidence ima event_log = record {
    payload = payload_of evidence;
    ima = ima;
    event_log = event_log;
  }

  unfoldable pub verify_ima_log : CvmToken → Option Bytes → Result Detail
  verify_ima_log token none = ok []
  verify_ima_log token (some ima_log) =
      virtcca_ima_verify w.digester w.ima_parser w.ref_paths w.ref_files ima_log token.rem
        (some (w.digester.hex_encode token.rim))

  unfoldable pub verify_event_log : CvmToken → Option Bytes → Result (List (ReportKey × Bool))
  verify_event_log token none = ok []
  verify_event_log token (some event_log) =
      event_verify w.digester event_log (rem_at token.rem) w.event_refs

  unfoldable pub read_dev_cert : Bool → Bytes → Result w.openssl.Cert
  read_dev_cert is_platform dev_cert =
      context bad_certificate
        (if is_platform then w.openssl.from_pem dev_cert else w.openssl.from_x509_der dev_cert)

  unfoldable pub verify : Bytes → Bytes → Result TeeClaim
  verify user_data evidence = do
    virtcca_ev ← context bad_json (w.from_slice evidence)
    decoded ← decode virtcca_ev.evidence
    dev_cert ← read_dev_cert decoded.is_platform virtcca_ev.dev_cert
    platform ← verify_platform_token decoded dev_cert
    cvm ← verify_cvm_token decoded user_data
    ima ← verify_ima_log decoded.cvm_token virtcca_ev.ima_log
    event_log ← verify_event_log decoded.cvm_token virtcca_ev.event_log
    ok (parse_claim_from_evidence decoded ima event_log)

  unfoldable pub parse_evidence : Bytes → Result Payload
  parse_evidence evidence = do
    virtcca_ev ← context bad_json (w.from_slice evidence)
    decoded ← decode virtcca_ev.evidence
    ok (payload_of decoded)

  unfoldable pub evaluate : Bytes → Bytes → Result TeeClaim
  evaluate user_data evidence = do
    challenge ← context bad_base64 (w.base64_url_decode user_data)
    sized ← guard (not (length challenge == 0) && leb (length challenge) 64) bad_size
    verify challenge evidence
