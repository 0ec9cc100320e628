-- ===== src/Service.antt =====
-- verifier/src/grpc.rs and verifier/src/ear.rs: the service that verifies evidence and signs the
-- result. Other crates, the clock and the collateral of TDX come from outside.
pub mod Checked
pub mod Issued
use unified_attestation.Prelude.{
  ℕ, ◌+◌, Bool, true, false, Option, none, some, List, [], ◌∷◌, ◌==◌, get_elem?, not, if◌then◌else◌,
}
use unified_attestation.Outcome.{
  Result, ok, err, panic, stuck, ◌>>=◌, context, guard, bad_json, bad_base64, no_field, no_object,
  no_nonce, no_wasm, no_tee_type, tee_mismatch, bad_collateral, cannot_sign, serialize,
}
use unified_attestation.Bytes.{Bytes}
use unified_attestation.Registers.{bytes_eq}
use unified_attestation.Policy.{
  Claim, cca_realm_initial_measurement, subject, mr_td, mr_seam, mr_config_id, tcb_status, Claims,
  CcaPolicy, TdxPolicy, enforce_cca_policy, enforce_tdx_policy,
}
use unified_attestation.Components.{
  Wasm, WasmHost, RegistryState, EvaluateOutcome, register, evaluate, is_empty,
}
use unified_attestation.Json.{
  Json, number, string, array, object, Items, Fields, insert, get, as_str, as_bool, as_object,
  unwrap_or, ascii,
}
use unified_attestation.Natives.{
  CcaCrate, CcaVerificationResult, cca_verify, CsvCrate, CsvPolicy, CsvEvidence,
  CsvVerificationResult, csv_verify, ItrusteeVerificationResult, itrustee_claims,
  VirtccaVerificationResult, virtcca_claims, resize,
}
use unified_attestation.Grpc.{
  TeeType, unspecified, Family, no_family, cca_family, csv_family, tdx_family, itrustee_family,
  virtcca_family, family, tee_type_str, TrustVector, trust_vector_for, inject_cca_claims,
  inject_csv_claims, inject_itrustee_claims, inject_virtcca_claims,
}

pub data WasmField : Type 0 where
  wasm_component wasm_component_id : Bytes → WasmField

-- A request; `tee_type` is none where `TeeType::try_from` fails.
pub record VerifyRequest : Type 0 where
  pub tee_type : Option TeeType
  pub nonce : Bytes
  pub wasm : Option WasmField
  pub evidence : Bytes

pub record VerifyResponse : Type 0 where
  pub ear : Bytes
  pub wasm_component_id : Bytes

-- The claims of the token; the issuer, the developer and the profile are constants.
pub record EarClaims : Type 0 where
  pub iat : ℕ
  pub exp : ℕ
  pub eat_nonce : Bytes
  pub tee_type : Bytes
  pub component_id : Bytes
  pub submods : Json
  pub trust_vector : TrustVector

-- Other crates: JSON, base64 in its two alphabets, hexadecimal digits, the collateral of a quote
-- as JSON, the signature of the token.
pub record Crates : Type 1 where
  pub wasm : Wasm
  pub cca : CcaCrate
  pub csv : CsvCrate
  pub csv_evidence : Bytes → Option (CsvEvidence csv)
  pub from_slice : Bytes → Option Json
  pub to_vec : Json → Option Bytes
  pub base64_decode : Bytes → Option Bytes
  pub base64_encode : Bytes → Bytes
  pub base64_url_encode : Bytes → Bytes
  pub hex_encode : Bytes → Bytes
  pub hex_decode : Bytes → Option Bytes
  pub get_collateral : Bytes → Option Bytes
  pub sign : EarClaims → Option Bytes

-- `cca_verifier` is whether both stores are configured, `csv_verifier` what `load_csv` gave.
pub record AppState : Type 0 where
  pub host : WasmHost
  pub cca_policy : CcaPolicy
  pub tdx_policy : TdxPolicy
  pub cca_verifier : Bool
  pub csv_verifier : Option CsvPolicy

-- What one request meets: a new identifier, whether its file can be written, and the clock, whose
-- readings within the request are taken as one.
pub record Moment : Type 0 where
  pub uuid : Bytes
  pub persisted : Bool
  pub now_secs : ℕ

-- The claims that the policies read.
abbrev pub claim_key : Claim → Bytes
claim_key cca_realm_initial_measurement = ascii "cca_realm_initial_measurement"
claim_key subject = ascii "subject"
claim_key mr_td = ascii "mr_td"
claim_key mr_seam = ascii "mr_seam"
claim_key mr_config_id = ascii "mr_config_id"
claim_key tcb_status = ascii "tcb_status"

abbrev pub claims_of : Json → Claims
claims_of json claim = as_str (get (claim_key claim) json)

unfoldable pub enforce_policy : AppState → Family → Json → Result (Unit {0})
enforce_policy app cca_family claims = enforce_cca_policy app.cca_policy (claims_of claims)
enforce_policy app tdx_family claims = enforce_tdx_policy app.tdx_policy (claims_of claims)
enforce_policy app csv_family claims = ok tt
enforce_policy app itrustee_family claims = ok tt
enforce_policy app virtcca_family claims = ok tt
enforce_policy app no_family claims = ok tt

abbrev pub is_unspecified : TeeType → Bool
is_unspecified unspecified = true
is_unspecified _ = false

-- The tests before any processing.
unfoldable pub checked_tee : VerifyRequest → Result TeeType
checked_tee req = do
  tee ← context no_tee_type req.tee_type
  specified ← guard (not (is_unspecified tee)) no_tee_type
  nonced ← guard (not (is_empty req.nonce)) no_nonce
  ok tee

module _ (c : Crates) where
  unfoldable pub component_of :
      AppState
      → RegistryState c.wasm
      → RegistryState c.wasm
      → Moment
      → Option WasmField
      → Result (RegistryState c.wasm × Bytes)
  component_of app now later at none = err no_wasm
  component_of app now later at (some (wasm_component_id id)) = ok (later, id)
  component_of app now later at (some (wasm_component component_bytes)) =
      register c.wasm app.host now later component_bytes at.uuid at.persisted

  unfoldable pub extract_b64_field : Bytes → Bytes → Result Bytes
  extract_b64_field evidence key = do
    v ← context bad_json (c.from_slice evidence)
    s ← context no_field (as_str (get key v))
    context bad_base64 (c.base64_decode s)

  -- The evidence for the appraiser, and the life cycle that a CCA token states.
  unfoldable pub cca_evidence : Bool → VerifyRequest → Result (Bytes × Option Bytes)
  cca_evidence false req = do
    ev ← context bad_json (c.from_slice req.evidence)
    written ← context serialize (c.to_vec ev)
    ok (written, none)
  cca_evidence true req = do
    ev ← context bad_json (c.from_slice req.evidence)
    cca_token ← extract_b64_field req.evidence (ascii "cca_token_b64")
    result ← cca_verify c.hex_encode c.cca cca_token (resize 64 req.nonce)
    obj ← context no_object (as_object ev)
    written ← context serialize (c.to_vec (object (inject_cca_claims result obj)))
    ok (written, result.cca_platform_lifecycle)

  unfoldable pub csv_evidence_of : Option CsvPolicy → VerifyRequest → Result Bytes
  csv_evidence_of none req = do
    ev ← context bad_json (c.from_slice req.evidence)
    context serialize (c.to_vec ev)
  csv_evidence_of (some policy) req = do
    ev ← context bad_json (c.from_slice req.evidence)
    csv_evidence ← extract_b64_field req.evidence (ascii "csv_evidence_b64")
    result ← csv_verify c.csv c.hex_encode policy (c.csv_evidence csv_evidence) req.nonce
    obj ← context no_object (as_object ev)
    context serialize (c.to_vec (object (inject_csv_claims result obj)))

  -- Evidence whose report cannot be read passes as it is.
  unfoldable pub injected : {A : Type 0} → (A → Fields → Fields) → Result A → Json → Result Bytes
  injected inject (ok result) ev = do
    obj ← context no_object (as_object ev)
    context serialize (c.to_vec (object (inject result obj)))
  injected inject (err e) ev = context serialize (c.to_vec ev)
  injected inject panic ev = panic
  injected inject stuck ev = stuck

  unfoldable pub inject_tdx_collateral : Bytes → ℕ → Result Bytes
  inject_tdx_collateral evidence now_secs = do
    v ← context bad_json (c.from_slice evidence)
    obj ← context no_object (as_object v)
    quote_b64 ← context no_field (as_str (get (ascii "quote_b64") (object obj)))
    quote_bytes ← context bad_base64 (c.base64_decode quote_b64)
    collateral ← context bad_collateral (c.get_collateral quote_bytes)
    let with_collateral = insert (ascii "collateral_b64") (string (c.base64_encode collateral)) obj
    context serialize
        (c.to_vec (object (insert (ascii "now_secs") (number now_secs) with_collateral)))

  unfoldable pub evidence_for_wasm :
      AppState → Family → VerifyRequest → ℕ → Result (Bytes × Option Bytes)
  evidence_for_wasm app cca_family req now_secs = cca_evidence app.cca_verifier req
  evidence_for_wasm app csv_family req now_secs = do
    ev ← csv_evidence_of app.csv_verifier req
    ok (ev, none)
  evidence_for_wasm app itrustee_family req now_secs = do
    ev ← context bad_json (c.from_slice req.evidence)
    written ← injected inject_itrustee_claims (itrustee_claims c.from_slice req.evidence) ev
    ok (written, none)
  evidence_for_wasm app virtcca_family req now_secs = do
    ev ← context bad_json (c.from_slice req.evidence)
    written ← injected inject_virtcca_claims (virtcca_claims c.from_slice req.evidence) ev
    ok (written, none)
  evidence_for_wasm app tdx_family req now_secs = do
    ev ← inject_tdx_collateral req.evidence now_secs
    ok (ev, none)
  evidence_for_wasm app no_family req now_secs = ok (req.evidence, none)

  abbrev pub first_decoded : List Bytes → Option Bytes
  first_decoded [] = none
  first_decoded (s ∷ list) = c.hex_decode s

  -- The first listed `mr_config_id`, for TDX only.
  unfoldable pub expected_init : AppState → Family → Option Bytes
  expected_init app tdx_family = first_decoded app.tdx_policy.trusted_mr_config_id_hex
  expected_init app _ = none

  unfoldable pub ear_claims : TeeType → Bytes → EvaluateOutcome → Option Bytes → ℕ → EarClaims
  ear_claims tee nonce outcome cca_lifecycle now_secs = record {
    iat = now_secs;
    exp = now_secs + 3600;
    eat_nonce = c.base64_url_encode nonce;
    tee_type = tee_type_str tee;
    component_id = outcome.component_id;
    submods = outcome.claims;
    trust_vector =
        trust_vector_for tee (unwrap_or false (as_bool (get (ascii "nonce_bound") outcome.claims)))
          cca_lifecycle (as_str (get (ascii "tcb_status") outcome.claims));
  }

  -- From the second step on.
  unfoldable pub appraise :
      AppState → RegistryState c.wasm → TeeType → Bytes → VerifyRequest → ℕ → Result VerifyResponse
  appraise app state tee component_id req now_secs = do
    prepared ← evidence_for_wasm app (family tee) req now_secs
    outcome ←
        evaluate c.wasm state component_id prepared.0 (some req.nonce)
          (expected_init app (family tee))
    same_tee ←
        guard
          (bytes_eq (unwrap_or (ascii "unknown") (as_str (get (ascii "tee_type") outcome.claims)))
            (tee_type_str tee))
          tee_mismatch
    enforced ← enforce_policy app (family tee) outcome.claims
    ear ← context cannot_sign (c.sign (ear_claims tee req.nonce outcome prepared.1 now_secs))
    ok (record { ear = ear; wasm_component_id = outcome.component_id })

  unfoldable pub then_appraise :
      AppState
      → TeeType
      → VerifyRequest
      → ℕ
      → RegistryState c.wasm
      → Result (RegistryState c.wasm × Bytes)
      → RegistryState c.wasm × Result VerifyResponse
  then_appraise app tee req now_secs later (ok (state, id)) =
      (state, appraise app state tee id req now_secs)
  then_appraise app tee req now_secs later (err e) = (later, err e)
  then_appraise app tee req now_secs later panic = (later, panic)
  then_appraise app tee req now_secs later stuck = (later, stuck)

  -- The whole handler, and the registry after it.
  unfoldable pub verify :
      AppState
      → RegistryState c.wasm
      → RegistryState c.wasm
      → Moment
      → VerifyRequest
      → RegistryState c.wasm × Result VerifyResponse
  verify app now later at req = elim (checked_tee req) [
    | ok tee ↦ then_appraise app tee req at.now_secs later (component_of app now later at req.wasm)
    | err e ↦ (later, err e)
    | panic ↦ (later, panic)
    | stuck ↦ (later, stuck)
  ]
