-- ===== src/Components/Stable.antt =====
-- verifier/src/wasm_host.rs: a component keeps its identifier, and only whitelisted ones are called.
use unified_attestation.Prelude.{
  ◌≡◌, inl, inr, refl, sym, ap, ◌∙◌, Bool, true, Option, none, some, Bool-cases,
}
use unified_attestation.Outcome.{
  ok, ok->>=, ok_inj, context, guard, unknown_component, bad_instance, bad_json, reported_error,
  not_passed,
}
use unified_attestation.Bytes.{Bytes}
use unified_attestation.Registers.{bytes_eq}
use unified_attestation.Registers.Verify.{bytes_eq→≡, bytes_eq_refl, guard→true, context→some}
use unified_attestation.Json.{get, as_str, unwrap_or, ascii}
use unified_attestation.Components.{
  lookup, Wasm, WasmHost, EvaluateOutcome, RegistryState, no_components, register, evaluate,
  is_none,
}
use unified_attestation.Components.Registered.{
  lookup-put_same, lookup-put_older, Origin, IsRegistry, Later, same, registered, start-IsRegistry,
  joined-IsRegistry, Registration, cached, found, added, register-Registration,
}

module _ (wasm : Wasm) (host : WasmHost) where
  Registration-IsRegistry :
      (now later after : RegistryState wasm) (sha uuid id : Bytes)
      → IsRegistry wasm host later
      → lookup uuid later.by_id ≡ none
      → Registration wasm host now later after sha uuid id
      → IsRegistry wasm host after
  Registration-IsRegistry now later after sha uuid id known fresh (cached e kept) = rw kept known
  Registration-IsRegistry now later after sha uuid id known fresh (found e kept) = rw kept known
  Registration-IsRegistry now later after sha uuid id known fresh
        (added new missing e origin s i j) =
      rw e (
        joined-IsRegistry wasm host later new known (ap (λ k. lookup k later.by_id) i ∙ fresh)
          origin)

  Later→IsRegistry :
      {first state : RegistryState wasm}
      → IsRegistry wasm host first
      → Later wasm host first state
      → IsRegistry wasm host state
  Later→IsRegistry known same = known
  Later→IsRegistry known
        (registered {after} now later component_bytes uuid id persisted reached fresh h) =
      Registration-IsRegistry now later after (wasm.sha256_hex component_bytes) uuid id
        (Later→IsRegistry known reached) fresh
        (register-Registration wasm host now later after component_bytes uuid id persisted h)

  Registration-by_hash :
      (now later after : RegistryState wasm) (sha uuid id k old : Bytes)
      → Registration wasm host now later after sha uuid id
      → lookup k later.by_hash ≡ some old
      → lookup k after.by_hash ≡ some old
  Registration-by_hash now later after sha uuid id k old (cached e kept) h = rw kept h
  Registration-by_hash now later after sha uuid id k old (found e kept) h = rw kept h
  Registration-by_hash now later after sha uuid id k old (added new missing e origin s i j) h =
      rw e (elim (Bool-cases (bytes_eq new.sha k)) [
        | inr older ↦ lookup-put_older new.sha k new.id later.by_hash older ∙ h
        | inl equal ↦
            let never =
              sym missing
              ∙ (ap (λ t. lookup t later.by_hash) (sym s ∙ bytes_eq→≡ new.sha k equal) ∙ h) in
            absurd cc
      ])

  -- A hash that is known stays known, with its identifier.
  Later-by_hash :
      {first state : RegistryState wasm} (k old : Bytes)
      → Later wasm host first state
      → lookup k first.by_hash ≡ some old
      → lookup k state.by_hash ≡ some old
  Later-by_hash k old same h = h
  Later-by_hash k old
        (registered {after} now later component_bytes uuid id persisted reached fresh r) h =
      Registration-by_hash now later after (wasm.sha256_hex component_bytes) uuid id k old
        (register-Registration wasm host now later after component_bytes uuid id persisted r)
        (Later-by_hash k old reached h)

  -- The hash that was asked for is known after the request.
  Registration-known :
      (now later after : RegistryState wasm) (sha uuid id : Bytes)
      → Later wasm host now later
      → Registration wasm host now later after sha uuid id
      → lookup sha after.by_hash ≡ some id
  Registration-known now later after sha uuid id reached (cached e kept) =
      rw kept (Later-by_hash sha id reached e)
  Registration-known now later after sha uuid id reached (found e kept) = rw kept e
  Registration-known now later after sha uuid id reached (added new missing e origin s i j) = rw e (
      lookup-put_same new.sha sha new.id later.by_hash (rw s (bytes_eq_refl sha))
      ∙ ap some (i ∙ sym j))

-- Whatever requests have run since the start of the host, interleaved at its locks, each with an
-- identifier that is not in use: each compiled component has a hash on record and was built from
-- bytes with that hash, which the whitelist has unless it is switched off; and each hash on record
-- leads to an identifier that leads back to it and to a compiled component.
pub Later-IsRegistry :
    (wasm : Wasm) (host : WasmHost) (state : RegistryState wasm)
    → Later wasm host (no_components wasm) state
    → IsRegistry wasm host state
Later-IsRegistry wasm host state reached =
    Later→IsRegistry wasm host (start-IsRegistry wasm host) reached

-- A component that has been registered gets the same identifier from every later request with the
-- same bytes that succeeds, also if that request had looked the component up before it was there;
-- for requests that see a state under the write lock which is later than that under the read lock.
pub register-same_id :
    (wasm : Wasm) (host : WasmHost) (now later after now2 later2 after2 : RegistryState wasm)
    (component_bytes uuid uuid2 id id2 : Bytes) (persisted persisted2 : Bool)
    → Later wasm host now later
    → register wasm host now later component_bytes uuid persisted ≡ ok (after, id)
    → Later wasm host after later2
    → Later wasm host now2 later2
    → register wasm host now2 later2 component_bytes uuid2 persisted2 ≡ ok (after2, id2)
    → (id2 ≡ id) × (after2 ≡ later2)
register-same_id wasm host now later after now2 later2 after2 component_bytes uuid uuid2 id id2
      persisted persisted2 reached first between seen second =
    let known = Later-by_hash wasm host (wasm.sha256_hex component_bytes) id between (
      Registration-known wasm host now later after (wasm.sha256_hex component_bytes) uuid id reached
        (register-Registration wasm host now later after component_bytes uuid id persisted
          first)) in
    again known (
      register-Registration wasm host now2 later2 after2 component_bytes uuid2 id2 persisted2
        second)
  where
    again :
        lookup (wasm.sha256_hex component_bytes) later2.by_hash ≡ some id
        → Registration wasm host now2 later2 after2 (wasm.sha256_hex component_bytes) uuid2 id2
        → (id2 ≡ id) × (after2 ≡ later2)
    again known (cached e kept) =
        let e2 =
          sym (Later-by_hash wasm host (wasm.sha256_hex component_bytes) id2 seen e) ∙ known in
        (cc, kept)
    again known (found e kept) = let e2 = sym e ∙ known in (cc, kept)
    again known (added new missing e origin s i j) = let never = sym missing ∙ known in absurd cc

is_none→≡ : {A : Type 0} (o : Option A) → is_none o ≡ true → o ≡ none
is_none→≡ none h = refl
is_none→≡ (some a) h = absurd cc

says_passed :
    (said : Option Bytes)
    → bytes_eq (unwrap_or (ascii "missing") said) (ascii "passed") ≡ true
    → said ≡ some (ascii "passed")
says_passed none h = absurd cc
says_passed (some s) h = ap some (bytes_eq→≡ s (ascii "passed") h)

-- The claims that `evaluate` gives, in a state that requests have led to, are those of a component
-- that was built from bytes whose hash the whitelist has, unless it is switched off; they are its
-- answer to this evidence and these expected values, hold no error, and say "passed".
pub evaluate-Origin :
    (wasm : Wasm) (host : WasmHost) (state : RegistryState wasm) (component_id evidence : Bytes)
    (report_data init_data : Option Bytes) (outcome : EvaluateOutcome)
    → Later wasm host (no_components wasm) state
    → evaluate wasm state component_id evidence report_data init_data ≡ ok outcome
    → (component : wasm.Component) × (sha : Bytes) × (raw : Bytes) × Origin wasm host sha component
      × (wasm.call_evaluate component evidence report_data init_data ≡ some raw)
      × (wasm.from_str raw ≡ some outcome.claims)
      × (get (ascii "error") outcome.claims ≡ none)
      × (as_str (get (ascii "verification") outcome.claims) ≡ some (ascii "passed"))
unfolding evaluate
evaluate-Origin wasm host state component_id evidence report_data init_data outcome reached h =
    let (component, c, h1) =
      ok->>= (context unknown_component (lookup component_id state.compiled)) _ h in
    let (raw, r, h2) =
      ok->>= (context bad_instance (wasm.call_evaluate component evidence report_data init_data)) _
        h1 in
    let (claims, j, h3) = ok->>= (context bad_json (wasm.from_str raw)) _ h2 in
    let (u, clean, h4) =
      ok->>= (guard (is_none (get (ascii "error") claims)) reported_error) _ h3 in
    let (u', passed, h5) =
      ok->>=
        (guard
          (bytes_eq (unwrap_or (ascii "missing") (as_str (get (ascii "verification") claims)))
            (ascii "passed"))
          not_passed)
        _ h4 in
    let (sha, i, origin) =
      (Later-IsRegistry wasm host state reached).compiled_known component_id component
        (context→some _ _ c) in
    let claimed : claims ≡ outcome.claims = ap (λ o. o.claims) (ok_inj h5) in
    (
      component,
      sha,
      raw,
      origin,
      context→some _ _ r,
      context→some _ _ j ∙ ap some claimed,
      ap (get (ascii "error")) (sym claimed) ∙ is_none→≡ _ (guard→true _ reported_error clean),
      ap (λ c. as_str (get (ascii "verification") c)) (sym claimed)
          ∙ says_passed (as_str (get (ascii "verification") claims))
              (guard→true _ not_passed passed),
    )
