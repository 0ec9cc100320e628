-- ===== src/Service/Checked.antt =====
-- verifier/src/grpc.rs: what the tests of a request that pass say.
use unified_attestation.Prelude.{ℕ, Bool, true, false, Option, none, some, []}
use unified_attestation.Outcome.{ok, context, bad_json, bad_base64, no_field}
use unified_attestation.Bytes.{Bytes}
use unified_attestation.Registers.{bytes_eq}
use unified_attestation.Policy.{
  cca_realm_initial_measurement, subject, mr_td, mr_seam, mr_config_id, tcb_status,
}
use unified_attestation.Json.{Json, get, as_str, unwrap_or, ascii}
use unified_attestation.Natives.{cca_verify, CsvPolicy, CsvEvidence, csv_verify, resize}
use unified_attestation.Cbor.{trim_end}
use unified_attestation.Grpc.{
  TeeType, unspecified, Family, no_family, cca_family, csv_family, tdx_family, itrustee_family,
  virtcca_family, tee_type_str,
}
use unified_attestation.Prelude.{◌≡◌, ◌⊎◌, inl, inr, refl, ap}
use unified_attestation.Outcome.{ok->>=}
use unified_attestation.Registers.Verify.{bytes_eq→≡, context→some}
use unified_attestation.Policy.{eq_ignore_ascii_case}
use unified_attestation.Delivery.Everyone.{In}
use unified_attestation.Policy.Trusted.{
  Trusted, enforce_cca_policy-Trusted, enforce_tdx_policy-Trusted,
}
use unified_attestation.Natives.{CcaToken}
use unified_attestation.Natives.Bound.{CsvChained, cca_verify-challenge, csv_verify-CsvChained}
use unified_attestation.Grpc.{
  mock, cca, cca_hydra, csv, csv_hydra, tdx, tdx_hydra, itrustee, itrustee_hydra, virtcca,
  virtcca_hydra,
}
use unified_attestation.Service.{
  VerifyRequest, Crates, AppState, claims_of, enforce_policy, extract_b64_field, cca_evidence,
  csv_evidence_of, evidence_for_wasm,
}

-- The claims satisfy the policy for their family.
abbrev pub Enforced : AppState → Family → Json → Type 0
Enforced app cca_family claims =
    Trusted eq_ignore_ascii_case (claims_of claims cca_realm_initial_measurement)
      app.cca_policy.trusted_rim_hex
    × Trusted bytes_eq (claims_of claims subject) app.cca_policy.trusted_subjects
Enforced app tdx_family claims =
    Trusted eq_ignore_ascii_case (claims_of claims mr_td) app.tdx_policy.trusted_mr_td_hex
    × (Trusted eq_ignore_ascii_case (claims_of claims mr_seam) app.tdx_policy.trusted_mr_seam_hex
        × (Trusted eq_ignore_ascii_case (claims_of claims mr_config_id)
              app.tdx_policy.trusted_mr_config_id_hex
            × Trusted bytes_eq (claims_of claims tcb_status) app.tdx_policy.accept_tcb_status))
Enforced app csv_family claims = Unit
Enforced app itrustee_family claims = Unit
Enforced app virtcca_family claims = Unit
Enforced app no_family claims = Unit

pub enforce_policy→Enforced :
    (app : AppState) (f : Family) (claims : Json)
    → enforce_policy app f claims ≡ ok tt
    → Enforced app f claims
unfolding enforce_policy
enforce_policy→Enforced app cca_family claims h =
    (enforce_cca_policy-Trusted app.cca_policy (claims_of claims)).0 h
enforce_policy→Enforced app tdx_family claims h =
    (enforce_tdx_policy-Trusted app.tdx_policy (claims_of claims)).0 h
enforce_policy→Enforced app csv_family claims h = tt
enforce_policy→Enforced app itrustee_family claims h = tt
enforce_policy→Enforced app virtcca_family claims h = tt
enforce_policy→Enforced app no_family claims h = tt

-- The claim is the kind that was asked for, which is never "unknown".
pub says_tee :
    (said : Option Bytes) (tee : TeeType)
    → bytes_eq (unwrap_or (ascii "unknown") said) (tee_type_str tee) ≡ true
    → said ≡ some (tee_type_str tee)
unfolding tee_type_str
says_tee (some s) tee h = ap some (bytes_eq→≡ s (tee_type_str tee) h)
says_tee none unspecified h = absurd cc
says_tee none mock h = absurd cc
says_tee none cca h = absurd cc
says_tee none cca_hydra h = absurd cc
says_tee none csv h = absurd cc
says_tee none csv_hydra h = absurd cc
says_tee none tdx h = absurd cc
says_tee none tdx_hydra h = absurd cc
says_tee none itrustee h = absurd cc
says_tee none itrustee_hydra h = absurd cc
says_tee none virtcca h = absurd cc
says_tee none virtcca_hydra h = absurd cc

module _ (c : Crates) where
  -- The field `key` of the request's evidence holds the bytes, in base64.
  abbrev pub Carried : VerifyRequest → Bytes → Bytes → Type 0
  Carried req key carried =
      (v : Json) × (s : Bytes) × (c.from_slice req.evidence ≡ some v)
      × (as_str (get key v) ≡ some s)
      × (c.base64_decode s ≡ some carried)

  extract_b64_field→Carried :
      (req : VerifyRequest) (key carried : Bytes)
      → extract_b64_field c req.evidence key ≡ ok carried
      → Carried req key carried
  unfolding extract_b64_field
  extract_b64_field→Carried req key carried h =
      let (v, j, h1) = ok->>= (context bad_json (c.from_slice req.evidence)) _ h in
      let (s, f, h2) = ok->>= (context no_field (as_str (get key v))) _ h1 in
      (
        v,
        s,
        context→some (c.from_slice req.evidence) bad_json j,
        context→some (as_str (get key v)) no_field f,
        context→some (c.base64_decode s) bad_base64 h2,
      )

  -- A CCA token and a CSV report that the host itself has checked come with the evidence, and hold
  -- the nonce, in 64 bytes.
  abbrev pub HostChecked : AppState → Family → VerifyRequest → Type 0
  HostChecked app cca_family req =
      (app.cca_verifier ≡ false)
      ⊎ ((token : Bytes) × Carried req (ascii "cca_token_b64") token
          × (decoded verified appraised : CcaToken) × (c.cca.decode token ≡ some decoded)
          × (c.cca.verify decoded ≡ some verified)
          × (c.cca.appraise verified ≡ some appraised)
          × (appraised.affirming ≡ true)
          × (appraised.challenge ≡ resize 64 req.nonce))
  HostChecked app csv_family req =
      (app.csv_verifier ≡ none)
      ⊎ ((policy : CsvPolicy) × (carried : Bytes) × (parsed : CsvEvidence c.csv)
          × (report : c.csv.TeeInfo) × (hsk cek : c.csv.Cert) × (app.csv_verifier ≡ some policy)
          × Carried req (ascii "csv_evidence_b64") carried
          × (c.csv_evidence carried ≡ some parsed)
          × (parsed.report ≡ some report)
          × CsvChained c.csv report hsk cek parsed.pek
          × (c.csv.report_data report ≡ resize 64 req.nonce)
          × ((policy.trusted_chip_ids ≡ [])
              ⊎ In (trim_end parsed.serial_number) policy.trusted_chip_ids))
  HostChecked app tdx_family req = Unit
  HostChecked app itrustee_family req = Unit
  HostChecked app virtcca_family req = Unit
  HostChecked app no_family req = Unit

  cca_evidence→HostChecked :
      (app : AppState) (b : Bool) (req : VerifyRequest) (prepared : Bytes × Option Bytes)
      → app.cca_verifier ≡ b
      → cca_evidence c b req ≡ ok prepared
      → HostChecked app cca_family req
  unfolding cca_evidence
  cca_evidence→HostChecked app false req prepared e h = inl e
  cca_evidence→HostChecked app true req prepared e h =
      let (ev, j, h1) = ok->>= (context bad_json (c.from_slice req.evidence)) _ h in
      let (token, t, h2) = ok->>= (extract_b64_field c req.evidence (ascii "cca_token_b64")) _ h1 in
      let (result, v, h3) =
        ok->>= (cca_verify c.hex_encode c.cca token (resize 64 req.nonce)) _ h2 in
      let (decoded, verified, appraised, d, v', a, passed, same, r) =
        cca_verify-challenge c.hex_encode c.cca token (resize 64 req.nonce) result v in
      inr (
        token,
        extract_b64_field→Carried req (ascii "cca_token_b64") token t,
        decoded,
        verified,
        appraised,
        d,
        v',
        a,
        passed,
        same,
      )

  csv_evidence→HostChecked :
      (app : AppState) (o : Option CsvPolicy) (req : VerifyRequest) (prepared : Bytes)
      → app.csv_verifier ≡ o
      → csv_evidence_of c o req ≡ ok prepared
      → HostChecked app csv_family req
  unfolding csv_evidence_of
  csv_evidence→HostChecked app none req prepared e h = inl e
  csv_evidence→HostChecked app (some policy) req prepared e h =
      let (ev, j, h1) = ok->>= (context bad_json (c.from_slice req.evidence)) _ h in
      let (carried, t, h2) =
        ok->>= (extract_b64_field c req.evidence (ascii "csv_evidence_b64")) _ h1 in
      let (result, v, h3) =
        ok->>= (csv_verify c.csv c.hex_encode policy (c.csv_evidence carried) req.nonce) _ h2 in
      let (parsed, report, certs, p, r, k, chained, bound, listed, made) =
        csv_verify-CsvChained c.csv c.hex_encode policy (c.csv_evidence carried) req.nonce result
          v in
      inr (
        policy,
        carried,
        parsed,
        report,
        certs.0,
        certs.1,
        e,
        extract_b64_field→Carried req (ascii "csv_evidence_b64") carried t,
        p,
        r,
        chained,
        bound,
        listed,
      )

  pub evidence_for_wasm→HostChecked :
      (app : AppState) (f : Family) (req : VerifyRequest) (now_secs : ℕ)
      (prepared : Bytes × Option Bytes)
      → evidence_for_wasm c app f req now_secs ≡ ok prepared
      → HostChecked app f req
  unfolding evidence_for_wasm
  evidence_for_wasm→HostChecked app cca_family req now_secs prepared h =
      cca_evidence→HostChecked app app.cca_verifier req prepared refl h
  evidence_for_wasm→HostChecked app csv_family req now_secs prepared h =
      let (ev, e, h1) = ok->>= (csv_evidence_of c app.csv_verifier req) _ h in
      csv_evidence→HostChecked app app.csv_verifier req ev refl e
  evidence_for_wasm→HostChecked app tdx_family req now_secs prepared h = tt
  evidence_for_wasm→HostChecked app itrustee_family req now_secs prepared h = tt
  evidence_for_wasm→HostChecked app virtcca_family req now_secs prepared h = tt
  evidence_for_wasm→HostChecked app no_family req now_secs prepared h = tt
