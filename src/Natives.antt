-- ===== src/Natives.antt =====
-- verifier/src/cca_native.rs, csv_native.rs, itrustee_native.rs and virtcca_native.rs: what the
-- verifier itself checks of evidence, or reads out of it, before an appraiser sees it. The crates
-- ccatoken and csv-rs, JSON and the files of certificates are parameters. A text is its bytes.
pub mod Bound
use unified_attestation.Prelude.{
  ℕ, zero, suc, ◌+◌, ◌/◌, ◌%◌, Bool, true, false, ◌&&◌, ◌||◌, Option, none, some, List, [], ◌∷◌,
  ◌++◌, length, take, leb, ltb, ◌==◌, not, if◌then◌else◌,
}
use unified_attestation.Outcome.{
  Result, ok, err, ◌>>=◌, context, guard, io, bad_json, bad_token, bad_report, bad_nonce, bad_chain,
  bad_certificate, utf8, claim_untrusted, no_field,
}
use unified_attestation.Bytes.{Bytes, is_utf8}
use unified_attestation.Registers.{bytes_eq, zeros}
use unified_attestation.Cbor.{trim_end}
use unified_attestation.Policy.{any_of}
use unified_attestation.Components.{is_empty}
use unified_attestation.Json.{
  Json, null, string, object, array, Items, nil, cons, Fields, end, field, insert, get, as_str,
  array_size, unwrap_or, ascii,
}

-- `v.resize(n, 0)`
unfoldable pub resize : ℕ → Bytes → Bytes
resize n b = take n (b ++ zeros n)

pub record CcaSwComponent : Type 0 where
  pub mval : Bytes
  pub signer_id : Bytes
  pub mtyp : Json
  pub version : Json

-- A token that ccatoken has decoded. `affirming` is the tier of the realm's instance identity.
pub record CcaToken : Type 0 where
  pub affirming : Bool
  pub challenge : Bytes
  pub rim : Bytes
  pub perso : Bytes
  pub inst_id : Bytes
  pub impl_id : Bytes
  pub lifecycle : ℕ
  pub sw_components : List CcaSwComponent

-- `verify` and `appraise` use the stores of trust anchors and of reference values.
pub record CcaCrate : Type 0 where
  pub decode : Bytes → Option CcaToken
  pub verify : CcaToken → Option CcaToken
  pub appraise : CcaToken → Option CcaToken

pub record CcaVerificationResult : Type 0 where
  pub realm_initial_measurement : Option Bytes
  pub realm_personalization_value : Option Bytes
  pub cca_platform_instance_id : Option Bytes
  pub cca_platform_implementation_id : Option Bytes
  pub cca_platform_lifecycle : Option Bytes
  pub cca_platform_sw_components : Option Items

-- `{:x}` of a number below 16, and `0x{:04x}` of one below 65536.
unfoldable pub hex_digit : ℕ → ℕ
hex_digit n = if ltb n 10 then n + 48 else n + 87

unfoldable pub hex_u16 : ℕ → Bytes
hex_u16 n =
    48
    ∷ 120
    ∷ hex_digit (n / 4096)
    ∷ hex_digit (n / 256 % 16)
    ∷ hex_digit (n / 16 % 16)
    ∷ hex_digit (n % 16)
    ∷ []

unfoldable pub lifecycle_text : ℕ → Bytes
lifecycle_text n =
    if n == 0x6000 || n == 0x6001
    then ascii "secured"
    else if n == 0x3000 || n == 0x3001
    then ascii "recoverable"
    else if leb n 0xff
    then ascii "not_secured"
    else hex_u16 n

module _ (hex_encode : Bytes → Bytes) where
  -- `None` where there are no bytes.
  abbrev pub hex_of : Bytes → Option Bytes
  hex_of [] = none
  hex_of (b ∷ bs) = some (hex_encode (b ∷ bs))

  abbrev pub sw_component_json : CcaSwComponent → Json
  sw_component_json c = object (
      field (ascii "measurement") (string (hex_encode c.mval)) (
        field (ascii "signer_id") (string (hex_encode c.signer_id))
          (field (ascii "measurement_type") c.mtyp (field (ascii "version") c.version end))))

  abbrev pub sw_components_json : List CcaSwComponent → Items
  sw_components_json [] = nil
  sw_components_json (c ∷ cs) = cons (sw_component_json c) (sw_components_json cs)

  unfoldable pub cca_result : CcaToken → CcaVerificationResult
  cca_result e = record {
    realm_initial_measurement = hex_of e.rim;
    realm_personalization_value = hex_of e.perso;
    cca_platform_instance_id = some (hex_encode e.inst_id);
    cca_platform_implementation_id = some (hex_encode e.impl_id);
    cca_platform_lifecycle = some (lifecycle_text e.lifecycle);
    cca_platform_sw_components =
        if is_empty e.sw_components then none else some (sw_components_json e.sw_components);
  }

  unfoldable pub cca_verify : CcaCrate → Bytes → Bytes → Result CcaVerificationResult
  cca_verify cca token expected_report_data = do
    decoded ← context bad_token (cca.decode token)
    verified ← context bad_token (cca.verify decoded)
    appraised ← context bad_token (cca.appraise verified)
    passed ← guard appraised.affirming bad_token
    same ← guard (bytes_eq expected_report_data appraised.challenge) bad_nonce
    ok (cca_result appraised)

-- A report that csv-rs has parsed, its certificates, and the evidence that carries them.
pub record CsvCrate : Type 1 where
  pub Cert : Type 0
  pub TeeInfo : Type 0
  pub report_data : TeeInfo → Bytes
  pub measure : TeeInfo → Bytes
  pub vm_version : TeeInfo → Bytes
  pub nodbg : TeeInfo → ℕ
  pub noks : TeeInfo → ℕ
  pub hrk : Option Cert
  pub signs : Cert → Cert → Bool
  pub signs_report : Cert → TeeInfo → Bool
  pub decode_hsk_cek : Bytes → Option (Cert × Cert)
  pub cached : Bytes → Option Bytes
  pub fetch : Bytes → Option Bytes

pub record CsvPolicy : Type 0 where
  pub enabled : Bool
  pub allow_kds_fetch : Bool
  pub trusted_chip_ids : List Bytes

-- `CsvVerifier::load`
unfoldable pub load_csv : CsvPolicy → Option CsvPolicy
load_csv policy = if not policy.enabled then none else some policy

pub record CsvVerificationResult : Type 0 where
  pub chip_id : Option Bytes
  pub measurement : Option Bytes
  pub vm_version : Option Bytes
  pub policy_nodbg : Option ℕ
  pub policy_noks : Option ℕ

module _ (csv : CsvCrate) where
  -- The evidence as JSON gives it; `report` is none where it is no attestation report.
  pub record CsvEvidence : Type 0 where
    pub report : Option csv.TeeInfo
    pub hsk_cek : Option (csv.Cert × csv.Cert)
    pub pek : csv.Cert
    pub serial_number : Bytes

  unfoldable pub verify_chain : csv.TeeInfo → csv.Cert → csv.Cert → csv.Cert → Result (Unit {0})
  verify_chain report hsk cek pek = do
    hrk ← context bad_certificate csv.hrk
    self ← guard (csv.signs hrk hrk) bad_chain
    hsk_signed ← guard (csv.signs hrk hsk) bad_chain
    cek_signed ← guard (csv.signs hsk cek) bad_chain
    pek_signed ← guard (csv.signs cek pek) bad_chain
    guard (csv.signs_report pek report) bad_chain

  -- From the cache, or else from the key server, if that is allowed.
  unfoldable pub load_hsk_cek : CsvPolicy → Bytes → Result Bytes
  load_hsk_cek policy chip_id = elim (csv.cached chip_id) [
    | some b ↦ ok b
    | none ↦ if policy.allow_kds_fetch then context io (csv.fetch chip_id) else err io
  ]

  unfoldable pub hsk_cek_of :
      CsvPolicy → Bytes → Option (csv.Cert × csv.Cert) → Result (csv.Cert × csv.Cert)
  hsk_cek_of policy chip_id (some certs) = ok certs
  hsk_cek_of policy chip_id none = do
    cert_data ← load_hsk_cek policy chip_id
    context bad_certificate (csv.decode_hsk_cek cert_data)

  unfoldable pub is_listed_chip : CsvPolicy → Bytes → Bool
  is_listed_chip policy chip_id =
      is_empty policy.trusted_chip_ids || any_of (λ x. bytes_eq x chip_id) policy.trusted_chip_ids

  unfoldable pub csv_result : (Bytes → Bytes) → csv.TeeInfo → Bytes → CsvVerificationResult
  csv_result hex_encode tee chip = record {
    chip_id = some chip;
    measurement = hex_of hex_encode (csv.measure tee);
    vm_version = some (hex_encode (csv.vm_version tee));
    policy_nodbg = some (csv.nodbg tee);
    policy_noks = some (csv.noks tee);
  }

  unfoldable pub csv_verify :
      (Bytes → Bytes) → CsvPolicy → Option CsvEvidence → Bytes → Result CsvVerificationResult
  csv_verify hex_encode policy evidence expected_report_data = do
    parsed ← context bad_json evidence
    report ← context bad_report parsed.report
    readable ← guard (is_utf8 parsed.serial_number) utf8
    certs ← hsk_cek_of policy (trim_end parsed.serial_number) parsed.hsk_cek
    chained ← verify_chain report certs.0 certs.1 parsed.pek
    same ← guard (bytes_eq (resize 64 expected_report_data) (csv.report_data report)) bad_nonce
    listed ← guard (is_listed_chip policy (trim_end parsed.serial_number)) claim_untrusted
    ok (csv_result hex_encode report (trim_end parsed.serial_number))

pub record ItrusteeVerificationResult : Type 0 where
  pub uuid : Option Bytes
  pub ta_img : Option Bytes
  pub ta_mem : Option Bytes
  pub hash_alg : Option Bytes
  pub version : Option Bytes

pub record VirtccaVerificationResult : Type 0 where
  pub token_size : ℕ
  pub cert_size : ℕ
  pub ima_log_size : Option ℕ
  pub event_log_size : Option ℕ

-- `payload.and_then(|p| p.get(key)).and_then(|v| v.as_str())`
abbrev pub payload_field : Option Json → Bytes → Option Bytes
payload_field none key = none
payload_field (some payload) key = as_str (get key payload)

module _ (from_slice : Bytes → Option Json) where
  unfoldable pub itrustee_claims : Bytes → Result ItrusteeVerificationResult
  itrustee_claims evidence = do
    ev ← context bad_json (from_slice evidence)
    report_str ← context no_field (as_str (get (ascii "report") ev))
    report ← context bad_json (from_slice report_str)
    ok (record {
      uuid = payload_field (get (ascii "payload") report) (ascii "uuid");
      ta_img = payload_field (get (ascii "payload") report) (ascii "ta_img");
      ta_mem = payload_field (get (ascii "payload") report) (ascii "ta_mem");
      hash_alg = payload_field (get (ascii "payload") report) (ascii "hash_alg");
      version = payload_field (get (ascii "payload") report) (ascii "version");
    })

  unfoldable pub virtcca_claims : Bytes → Result VirtccaVerificationResult
  virtcca_claims evidence = do
    ev ← context bad_json (from_slice evidence)
    ok (record {
      token_size = unwrap_or 0 (array_size (get (ascii "evidence") ev));
      cert_size = unwrap_or 0 (array_size (get (ascii "dev_cert") ev));
      ima_log_size = array_size (get (ascii "ima_log") ev);
      event_log_size = array_size (get (ascii "event_log") ev);
    })
