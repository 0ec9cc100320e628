-- ===== src/Runs/Served.antt =====
-- Runs of the verifier's service: a component that is registered, and a token that is issued.
use unified_attestation.Prelude.{◌≡◌, ◌↔◌, ◌⊎◌, refl, true, false, some, none, [], ◌∷◌}
use unified_attestation.Outcome.{ok}
use unified_attestation.Bytes.{Bytes, is_utf8}
use unified_attestation.Registers.{zeros}
use unified_attestation.Delivery.Everyone.{In}
use unified_attestation.Cbor.{trim_end}
use unified_attestation.Json.{Json, object, string, boolean, field, end, ascii}
use unified_attestation.Components.{
  Wasm, WasmHost, RegistryState, no_components, register, is_trusted, prepare, commit, put,
}
use unified_attestation.Components.Registered.{IsRegistry, Later, same, registered}
use unified_attestation.Components.Stable.{Later-IsRegistry, register-same_id}
use unified_attestation.Natives.{
  resize, CcaCrate, CsvCrate, CsvPolicy, CsvEvidence, CsvVerificationResult, hsk_cek_of, csv_verify,
  csv_result, verify_chain, is_listed_chip,
}
use unified_attestation.Natives.Bound.{CsvChained, csv_verify-CsvChained}
use unified_attestation.Grpc.{cca, tdx, family, affirming, trust_vector_for}
use unified_attestation.Grpc.Trust.{Affirms, trust_vector_for-Affirms}
use unified_attestation.Service.{
  VerifyRequest, VerifyResponse, wasm_component, Crates, AppState, Moment, appraise, verify,
}
use unified_attestation.Service.Issued.{Issued}

-- The answer of every component.
abbrev answer : Json
answer = object (
    field (ascii "verification") (string (ascii "passed")) (
      field (ascii "tee_type") (string (ascii "cca")) (
        field (ascii "nonce_bound") (boolean true)
          (field (ascii "cca_realm_initial_measurement") (string (ascii "AB")) end))))

-- A component, its hash and its text are its bytes.
abbrev wasm : Wasm
wasm = record {
  Component = Bytes;
  sha256_hex = λ b. b;
  from_binary = λ b. some b;
  call_evaluate = λ component evidence report_data init_data. some component;
  from_str = λ raw. some answer;
}

abbrev host : WasmHost
host = record { allow_unsigned = false; trusted_hashes = (1 ∷ []) ∷ (2 ∷ []) ∷ [] }

abbrev one_component : RegistryState wasm
one_component = record {
  by_id = (7 ∷ [], 1 ∷ []) ∷ [];
  by_hash = (1 ∷ [], 7 ∷ []) ∷ [];
  compiled = (7 ∷ [], 1 ∷ []) ∷ [];
}

first :
    register wasm host (no_components wasm) (no_components wasm) (1 ∷ []) (7 ∷ []) true
    ≡ ok (one_component, 7 ∷ [])
unfolding register is_trusted prepare commit put
first = refl

-- A request that had looked while the registry was empty.
second :
    register wasm host (no_components wasm) one_component (1 ∷ []) (8 ∷ []) true
    ≡ ok (one_component, 7 ∷ [])
unfolding register is_trusted prepare commit put
second = refl

abbrev reached : Later wasm host (no_components wasm) one_component
reached =
    registered (no_components wasm) (no_components wasm) (1 ∷ []) (7 ∷ []) (7 ∷ []) true same refl
      first

Later-IsRegistry_example : IsRegistry wasm host one_component
Later-IsRegistry_example = Later-IsRegistry wasm host one_component reached

register-same_id_example : (◌≡◌ {A = Bytes} (7 ∷ []) (7 ∷ [])) × (one_component ≡ one_component)
register-same_id_example =
    register-same_id wasm host (no_components wasm) (no_components wasm) one_component
      (no_components wasm) one_component one_component (1 ∷ []) (7 ∷ []) (8 ∷ []) (7 ∷ []) (7 ∷ [])
      true true same first same reached second

trust_vector_for-Affirms_example :
    (trust_vector_for tdx true none (some (ascii "UpToDate")) ≡ affirming)
    ↔ Affirms (family tdx) true none (some (ascii "UpToDate"))
trust_vector_for-Affirms_example = trust_vector_for-Affirms tdx true none (some (ascii "UpToDate"))

-- Every key signs everything, and a report is its data.
abbrev csv_crate : CsvCrate
csv_crate = record {
  Cert = Bytes;
  TeeInfo = Bytes;
  report_data = λ report. report;
  measure = λ report. report;
  vm_version = λ report. [];
  nodbg = λ report. 1;
  noks = λ report. 0;
  hrk = some [];
  signs = λ issuer cert. true;
  signs_report = λ issuer report. true;
  decode_hsk_cek = λ b. none;
  cached = λ chip. none;
  fetch = λ chip. none;
}

abbrev chip_policy : CsvPolicy
chip_policy = record { enabled = true; allow_kds_fetch = false; trusted_chip_ids = (65 ∷ []) ∷ [] }

abbrev csv_parsed : CsvEvidence csv_crate
csv_parsed = record {
  report = some (5 ∷ zeros 63);
  hsk_cek = some ([], []);
  pek = [];
  serial_number = 65 ∷ 0 ∷ 0 ∷ [];
}

abbrev csv_accepted : CsvVerificationResult
csv_accepted = csv_result csv_crate (λ b. b) (5 ∷ zeros 63) (65 ∷ [])

csv_verified :
    csv_verify csv_crate (λ b. b) chip_policy (some csv_parsed) (5 ∷ []) ≡ ok csv_accepted
unfolding csv_verify is_utf8 hsk_cek_of verify_chain resize is_listed_chip
csv_verified = refl

csv_verify-CsvChained_example :
    (parsed : CsvEvidence csv_crate) × (report : Bytes) × (certs : Bytes × Bytes) × (some csv_parsed
      ≡ some parsed)
    × (parsed.report ≡ some report)
    × (hsk_cek_of csv_crate chip_policy (trim_end parsed.serial_number) parsed.hsk_cek ≡ ok certs)
    × CsvChained csv_crate report certs.0 certs.1 parsed.pek
    × (csv_crate.report_data report ≡ resize 64 (5 ∷ []))
    × ((chip_policy.trusted_chip_ids ≡ [])
        ⊎ In (trim_end parsed.serial_number) chip_policy.trusted_chip_ids)
    × (csv_accepted ≡ csv_result csv_crate (λ b. b) report (trim_end parsed.serial_number))
csv_verify-CsvChained_example =
    csv_verify-CsvChained csv_crate (λ b. b) chip_policy (some csv_parsed) (5 ∷ []) csv_accepted
      csv_verified

-- The token is its challenge.
abbrev cca_crate : CcaCrate
cca_crate = record {
  decode = λ token. some (record {
    affirming = true;
    challenge = token;
    rim = 171 ∷ [];
    perso = [];
    inst_id = [];
    impl_id = [];
    lifecycle = 0x3000;
    sw_components = [];
  });
  verify = λ token. some token;
  appraise = λ token. some token;
}

-- Every evidence holds the nonce 5 in 64 bytes, and the token is the answer's component.
abbrev crates : Crates
crates = record {
  wasm = wasm;
  cca = cca_crate;
  csv = csv_crate;
  csv_evidence = λ b. none;
  from_slice = λ b. some (object (field (ascii "cca_token_b64") (string (5 ∷ zeros 63)) end));
  to_vec = λ json. some (3 ∷ []);
  base64_decode = λ b. some b;
  base64_encode = λ b. b;
  base64_url_encode = λ b. b;
  hex_encode = λ b. b;
  hex_decode = λ b. some b;
  get_collateral = λ quote. none;
  sign = λ claims. some claims.component_id;
}

abbrev app : AppState
app = record {
  host = host;
  cca_policy = record { trusted_subjects = []; trusted_rim_hex = ascii "ab" ∷ [] };
  tdx_policy = record {
    trusted_mr_td_hex = [];
    trusted_mr_seam_hex = [];
    trusted_mr_config_id_hex = [];
    accept_tcb_status = [];
  };
  cca_verifier = true;
  csv_verifier = none;
}

abbrev at : Moment
at = record { uuid = 7 ∷ []; persisted = true; now_secs = 100 }

abbrev request : VerifyRequest
request = record {
  tee_type = some cca;
  nonce = 5 ∷ [];
  wasm = some (wasm_component (1 ∷ []));
  evidence = 4 ∷ [];
}

abbrev response : VerifyResponse
response = record { ear = 7 ∷ []; wasm_component_id = 7 ∷ [] }
