-- ===== src/Components.antt =====
-- verifier/src/wasm_host.rs: the components that appraise evidence: their whitelist, their
-- registry, and a call of one. The crates wasmtime, sha2, hex and uuid are parameters. Other
-- requests may run between the two locks of `register`, which is why it has two parts.
pub mod Registered
pub mod Stable
use unified_attestation.Prelude.{
  ℕ, Bool, true, false, ◌&&◌, ◌||◌, Option, none, some, List, [], ◌∷◌, map, not, if◌then◌else◌,
}
use unified_attestation.Outcome.{
  Result, ok, err, ◌>>=◌, context, guard, io, untrusted_component, bad_component, unknown_component,
  bad_instance, bad_json, reported_error, not_passed,
}
use unified_attestation.Bytes.{Bytes}
use unified_attestation.Registers.{bytes_eq}
use unified_attestation.Policy.{any_of, to_ascii_lowercase}
use unified_attestation.Json.{Json, get, as_str, unwrap_or, ascii}

-- A `HashMap` whose keys are texts.
abbrev pub TextMap : Type 0 → Type 0
TextMap A = List (Bytes × A)

module _ {A : Type 0} where
  abbrev pub lookup : Bytes → TextMap A → Option A
  lookup key [] = none
  lookup key ((k, a) ∷ m) = if bytes_eq k key then some a else lookup key m

  unfoldable pub put : Bytes → A → TextMap A → TextMap A
  put key a [] = (key, a) ∷ []
  put key a ((k, b) ∷ m) = if bytes_eq k key then (k, a) ∷ m else (k, b) ∷ put key a m

-- `WasmConfig`, without the directory.
pub record WasmConfig : Type 0 where
  pub allow_unsigned : Bool
  pub trusted_component_hashes : List Bytes

-- The sandbox: a component out of its bytes, and the text that its call gives, with the expected
-- report data and initial data.
pub record Wasm : Type 1 where
  pub Component : Type 0
  pub sha256_hex : Bytes → Bytes
  pub from_binary : Bytes → Option Component
  pub call_evaluate : Component → Bytes → Option Bytes → Option Bytes → Option Bytes
  pub from_str : Bytes → Option Json

pub record WasmHost : Type 0 where
  pub allow_unsigned : Bool
  pub trusted_hashes : List Bytes

abbrev pub is_empty : {A : Type 0} → List A → Bool
is_empty [] = true
is_empty (x ∷ xs) = false

abbrev pub is_none : {A : Type 0} → Option A → Bool
is_none none = true
is_none (some a) = false

-- A host without a whitelist is refused.
unfoldable pub new_wasm_host : WasmConfig → Result WasmHost
new_wasm_host config = do
  anchored ←
      guard (config.allow_unsigned || not (is_empty config.trusted_component_hashes))
        untrusted_component
  ok (record {
    allow_unsigned = config.allow_unsigned;
    trusted_hashes = map (map to_ascii_lowercase) config.trusted_component_hashes;
  })

pub record EvaluateOutcome : Type 0 where
  pub component_id : Bytes
  pub claims : Json

module _ (wasm : Wasm) where
  pub record RegistryState : Type 0 where
    pub by_id : TextMap Bytes
    pub by_hash : TextMap Bytes
    pub compiled : TextMap wasm.Component

  abbrev pub no_components : RegistryState
  no_components = record { by_id = []; by_hash = []; compiled = [] }

  -- A component that is compiled, under a new identifier, and whose file is written.
  pub record Prepared : Type 0 where
    pub sha : Bytes
    pub id : Bytes
    pub component : wasm.Component

  unfoldable pub is_trusted : WasmHost → Bytes → Bool
  is_trusted host sha = host.allow_unsigned || any_of (λ h. bytes_eq h sha) host.trusted_hashes

  -- What follows on the read lock: `uuid` is the new identifier, `persisted` is whether the file
  -- could be written.
  unfoldable pub prepare : Bytes → Bytes → Bytes → Bool → Result Prepared
  prepare sha component_bytes uuid persisted = do
    component ← context bad_component (wasm.from_binary component_bytes)
    written ← guard persisted io
    ok (record { sha = sha; id = uuid; component = component })

  -- Under the write lock: who came first keeps its identifier.
  unfoldable pub commit : RegistryState → Prepared → RegistryState × Bytes
  commit state new = elim (lookup new.sha state.by_hash) [
    | some existing ↦ (state, existing)
    | none ↦ (
      record {
        by_id = put new.id new.sha state.by_id;
        by_hash = put new.sha new.id state.by_hash;
        compiled = put new.id new.component state.compiled;
      },
      new.id,
    )
  ]

  -- `now` is the state under the read lock, `later` that under the write lock.
  unfoldable pub register :
      WasmHost
      → RegistryState
      → RegistryState
      → Bytes
      → Bytes
      → Bool
      → Result (RegistryState × Bytes)
  register host now later component_bytes uuid persisted = do
    trusted ← guard (is_trusted host (wasm.sha256_hex component_bytes)) untrusted_component
    elim (lookup (wasm.sha256_hex component_bytes) now.by_hash) [
      | some id ↦ ok (later, id)
      | none ↦ do
        new ← prepare (wasm.sha256_hex component_bytes) component_bytes uuid persisted
        ok (commit later new)
    ]

  unfoldable pub evaluate :
      RegistryState → Bytes → Bytes → Option Bytes → Option Bytes → Result EvaluateOutcome
  evaluate state component_id evidence expected_report_data expected_init_data_hash = do
    component ← context unknown_component (lookup component_id state.compiled)
    raw ←
        context bad_instance
          (wasm.call_evaluate component evidence expected_report_data expected_init_data_hash)
    claims ← context bad_json (wasm.from_str raw)
    clean ← guard (is_none (get (ascii "error") claims)) reported_error
    passed ←
        guard
          (bytes_eq (unwrap_or (ascii "missing") (as_str (get (ascii "verification") claims)))
            (ascii "passed"))
          not_passed
    ok (record { component_id = component_id; claims = claims })
