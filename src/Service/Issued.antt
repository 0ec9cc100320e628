-- ===== src/Service/Issued.antt =====
-- verifier/src/grpc.rs: what holds of each request for which a token is issued.
use unified_attestation.Prelude.{ℕ, ◌+◌, ◌↔◌, false, Option, none, some}
use unified_attestation.Outcome.{ok}
use unified_attestation.Bytes.{Bytes}
use unified_attestation.Components.{EvaluateOutcome, is_empty}
use unified_attestation.Json.{get, as_str, as_bool, unwrap_or, ascii}
use unified_attestation.Grpc.{TeeType, family, affirming, tee_type_str}
use unified_attestation.Grpc.Trust.{Affirms}
use unified_attestation.Prelude.{◌≡◌}
use unified_attestation.Components.Registered.{Origin}
use unified_attestation.Service.{
  EarClaims, wasm_component_id, VerifyRequest, VerifyResponse, Crates, AppState, is_unspecified,
  evidence_for_wasm, expected_init,
}
use unified_attestation.Service.Checked.{Enforced, HostChecked}

-- What a token says: when it was issued and for how long, the nonce and the kind of TEE of the
-- request, the component and its answer, and a trust vector that affirms all three parts only where
-- they are affirmed.
pub record Says (c : Crates) (tee : TeeType) (nonce : Bytes) (outcome : EvaluateOutcome)
    (cca_lifecycle : Option Bytes) (now_secs : ℕ) (claims : EarClaims) : Type 0 where
  pub iat_is : claims.iat ≡ now_secs
  pub exp_is : claims.exp ≡ now_secs + 3600
  pub eat_nonce_is : claims.eat_nonce ≡ c.base64_url_encode nonce
  pub tee_type_is : claims.tee_type ≡ tee_type_str tee
  pub component_id_is : claims.component_id ≡ outcome.component_id
  pub submods_is : claims.submods ≡ outcome.claims
  pub affirms :
      (claims.trust_vector ≡ affirming)
      ↔ Affirms
          (family tee)
          (unwrap_or false (as_bool (get (ascii "nonce_bound") outcome.claims)))
          cca_lifecycle
          (as_str (get (ascii "tcb_status") outcome.claims))

-- The request `req`, answered at the time `now_secs` with `response`.
pub record Issued (c : Crates) (app : AppState) (req : VerifyRequest) (now_secs : ℕ)
    (response : VerifyResponse) : Type 0 where
  pub tee : TeeType
  pub asked : req.tee_type ≡ some tee
  pub specified : is_unspecified tee ≡ false
  pub nonced : is_empty req.nonce ≡ false
  pub prepared : Bytes × Option Bytes
  pub prepares : evidence_for_wasm c app (family tee) req now_secs ≡ ok prepared
  pub checked : HostChecked c app (family tee) req
  pub outcome : EvaluateOutcome
  pub component : c.wasm.Component
  pub sha : Bytes
  pub raw : Bytes
  pub origin : Origin c.wasm app.host sha component
  pub called :
      c.wasm.call_evaluate component prepared.0 (some req.nonce) (expected_init c app (family tee))
      ≡ some raw
  pub answered : c.wasm.from_str raw ≡ some outcome.claims
  pub no_error : get (ascii "error") outcome.claims ≡ none
  pub passed : as_str (get (ascii "verification") outcome.claims) ≡ some (ascii "passed")
  pub same_tee : as_str (get (ascii "tee_type") outcome.claims) ≡ some (tee_type_str tee)
  pub enforced : Enforced app (family tee) outcome.claims
  pub claims : EarClaims
  pub says : Says c tee req.nonce outcome prepared.1 now_secs claims
  pub signed : c.sign claims ≡ some response.ear
  pub named : outcome.component_id ≡ response.wasm_component_id
