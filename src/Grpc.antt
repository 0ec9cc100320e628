-- ===== src/Grpc.antt =====
-- verifier/src/grpc.rs and verifier/src/ear.rs: the kinds of TEE, the trust vector of each, and
-- what the host injects into the evidence for the appraiser.
pub mod Trust
use unified_attestation.Prelude.{
  ℕ, ◌+◌, Bool, true, false, Option, none, some, List, [], ◌∷◌, ◌==◌, get_elem?, not, if◌then◌else◌,
}
use unified_attestation.Outcome.{
  Result, ok, err, panic, stuck, ◌>>=◌, context, guard, bad_json, bad_base64, no_field, no_object,
  no_nonce, no_wasm, no_tee_type, tee_mismatch, bad_collateral, cannot_sign, serialize,
}
use unified_attestation.Bytes.{Bytes}
use unified_attestation.Registers.{bytes_eq}
use unified_attestation.Policy.{
  Claim, cca_realm_initial_measurement, subject, mr_td, mr_seam, mr_config_id, tcb_status, Claims,
  CcaPolicy, TdxPolicy, enforce_cca_policy, enforce_tdx_policy,
}
use unified_attestation.Components.{
  Wasm, WasmHost, RegistryState, EvaluateOutcome, register, evaluate, is_empty,
}
use unified_attestation.Json.{
  Json, number, string, array, object, Items, Fields, insert, get, as_str, as_bool, as_object,
  unwrap_or, ascii,
}
use unified_attestation.Natives.{
  CcaCrate, CcaVerificationResult, cca_verify, CsvCrate, CsvPolicy, CsvEvidence,
  CsvVerificationResult, csv_verify, ItrusteeVerificationResult, itrustee_claims,
  VirtccaVerificationResult, virtcca_claims, resize,
}

pub data TeeType : Type 0 where
  unspecified mock cca cca_hydra csv csv_hydra tdx tdx_hydra : TeeType
  itrustee itrustee_hydra virtcca virtcca_hydra : TeeType

-- The pairs that the code names together; the rest has no family.
pub data Family : Type 0 where
  no_family cca_family csv_family tdx_family itrustee_family virtcca_family : Family

unfoldable pub family : TeeType → Family
family unspecified = no_family
family mock = no_family
family cca = cca_family
family cca_hydra = cca_family
family csv = csv_family
family csv_hydra = csv_family
family tdx = tdx_family
family tdx_hydra = tdx_family
family itrustee = itrustee_family
family itrustee_hydra = itrustee_family
family virtcca = virtcca_family
family virtcca_hydra = virtcca_family

unfoldable pub tee_type_str : TeeType → Bytes
tee_type_str unspecified = ascii "unspecified"
tee_type_str mock = ascii "mock"
tee_type_str cca = ascii "cca"
tee_type_str cca_hydra = ascii "cca-hydra"
tee_type_str csv = ascii "csv"
tee_type_str csv_hydra = ascii "csv-hydra"
tee_type_str tdx = ascii "tdx"
tee_type_str tdx_hydra = ascii "tdx-hydra"
tee_type_str itrustee = ascii "itrustee"
tee_type_str itrustee_hydra = ascii "itrustee-hydra"
tee_type_str virtcca = ascii "virtcca"
tee_type_str virtcca_hydra = ascii "virtcca-hydra"

pub record TrustVector : Type 0 where
  pub instance_identity : ℕ
  pub configuration : ℕ
  pub executables : ℕ

abbrev pub affirming : TrustVector
affirming = record { instance_identity = 2; configuration = 2; executables = 2 }

unfoldable pub executables_of : Option Bytes → ℕ
executables_of none = 1
executables_of (some s) =
    if bytes_eq s (ascii "UpToDate")
    then 2
    else if bytes_eq s (ascii "SWHardeningNeeded")
    then 1
    else if bytes_eq s (ascii "ConfigurationAndSWHardeningNeeded")
    then 1
    else if bytes_eq s (ascii "OutOfDate")
    then 0
    else if bytes_eq s (ascii "Revoked")
    then 0
    else 1

unfoldable pub configuration_of : Option Bytes → ℕ
configuration_of none = 0
configuration_of (some s) =
    if bytes_eq s (ascii "secured")
    then 2
    else if bytes_eq s (ascii "secured_no_debug")
    then 2
    else if bytes_eq s (ascii "not_secured")
    then 1
    else if bytes_eq s (ascii "recoverable")
    then 1
    else 0

unfoldable pub trust_vector_by : Family → Bool → Option Bytes → Option Bytes → TrustVector
trust_vector_by tdx_family nonce_bound cca_lifecycle tcb = record {
  instance_identity = 2;
  configuration = 2;
  executables = executables_of tcb;
}
trust_vector_by cca_family nonce_bound cca_lifecycle tcb = record {
  instance_identity = if nonce_bound then 2 else 0;
  configuration = configuration_of cca_lifecycle;
  executables = 2;
}
trust_vector_by csv_family nonce_bound cca_lifecycle tcb = record {
  instance_identity = if nonce_bound then 2 else 0;
  configuration = 2;
  executables = 2;
}
trust_vector_by no_family nonce_bound cca_lifecycle tcb = affirming
trust_vector_by itrustee_family nonce_bound cca_lifecycle tcb = affirming
trust_vector_by virtcca_family nonce_bound cca_lifecycle tcb = affirming

unfoldable pub trust_vector_for : TeeType → Bool → Option Bytes → Option Bytes → TrustVector
trust_vector_for tee nonce_bound cca_lifecycle tcb =
    trust_vector_by (family tee) nonce_bound cca_lifecycle tcb

-- `if let Some(v) = .. { obj.insert(key, v) }`
unfoldable pub insert_str : Bytes → Option Bytes → Fields → Fields
insert_str key none obj = obj
insert_str key (some v) obj = insert key (string v) obj

unfoldable pub insert_number : Bytes → Option ℕ → Fields → Fields
insert_number key none obj = obj
insert_number key (some n) obj = insert key (number n) obj

unfoldable pub insert_items : Bytes → Option Items → Fields → Fields
insert_items key none obj = obj
insert_items key (some vs) obj = insert key (array vs) obj

unfoldable pub inject_cca_claims : CcaVerificationResult → Fields → Fields
inject_cca_claims r obj =
    let rim = insert_str (ascii "cca_realm_initial_measurement") r.realm_initial_measurement obj in
    let pv =
      insert_str (ascii "cca_realm_personalization_value") r.realm_personalization_value rim in
    let iid = insert_str (ascii "cca_platform_instance_id") r.cca_platform_instance_id pv in
    let impl =
      insert_str (ascii "cca_platform_implementation_id") r.cca_platform_implementation_id iid in
    let lc = insert_str (ascii "cca_platform_lifecycle") r.cca_platform_lifecycle impl in
    insert_items (ascii "cca_platform_sw_components") r.cca_platform_sw_components lc

unfoldable pub inject_csv_claims : CsvVerificationResult → Fields → Fields
inject_csv_claims r obj =
    let chip = insert_str (ascii "chip_id") r.chip_id obj in
    let measured = insert_str (ascii "measurement") r.measurement chip in
    let versioned = insert_str (ascii "vm_version") r.vm_version measured in
    let nodbg = insert_number (ascii "policy_nodbg") r.policy_nodbg versioned in
    insert_number (ascii "policy_noks") r.policy_noks nodbg

unfoldable pub inject_itrustee_claims : ItrusteeVerificationResult → Fields → Fields
inject_itrustee_claims r obj =
    let uuid = insert_str (ascii "itrustee_uuid") r.uuid obj in
    let img = insert_str (ascii "itrustee_ta_img") r.ta_img uuid in
    let mem = insert_str (ascii "itrustee_ta_mem") r.ta_mem img in
    let alg = insert_str (ascii "itrustee_hash_alg") r.hash_alg mem in
    insert_str (ascii "itrustee_version") r.version alg

unfoldable pub inject_virtcca_claims : VirtccaVerificationResult → Fields → Fields
inject_virtcca_claims r obj =
    let token = insert (ascii "virtcca_token_size") (number r.token_size) obj in
    let cert = insert (ascii "virtcca_cert_size") (number r.cert_size) token in
    let ima = insert_number (ascii "virtcca_ima_log_size") r.ima_log_size cert in
    insert_number (ascii "virtcca_event_log_size") r.event_log_size ima
