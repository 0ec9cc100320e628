-- ===== src/Components/Registered.antt =====
-- verifier/src/wasm_host.rs: what the registry holds, whatever requests have run.
use unified_attestation.Prelude.{
  ◌≡◌, ◌⊎◌, inl, inr, refl, sym, ap, ◌∙◌, Bool, true, false, none, some, [], ◌∷◌, if◌then◌else◌,
  Bool-cases, Option-cases,
}
use unified_attestation.Outcome.{
  ok, ok->>=, ok_inj, context, guard, io, untrusted_component, bad_component,
}
use unified_attestation.Bytes.{Bytes}
use unified_attestation.Registers.{bytes_eq}
use unified_attestation.Registers.Verify.{bytes_eq→≡, bytes_eq_refl, guard→true, context→some}
use unified_attestation.Delivery.Everyone.{In}
use unified_attestation.Policy.Trusted.{any_of-In}
use unified_attestation.Components.{
  TextMap, lookup, put, Wasm, WasmHost, RegistryState, no_components, Prepared, is_trusted, prepare,
  commit, register,
}

-- Two keys that differ are not both equal to a third.
bytes_eq_apart : (i j k : Bytes) → bytes_eq i j ≡ false → bytes_eq i k ≡ true → bytes_eq j k ≡ false
bytes_eq_apart i j k apart e = elim (Bool-cases (bytes_eq j k)) [
  | inr other ↦ other
  | inl equal ↦
      let one : i ≡ j = bytes_eq→≡ i k e ∙ sym (bytes_eq→≡ j k equal) in
      let self = bytes_eq_refl j in let never = rw one at apart in absurd cc
]

lookup-put :
    {A : Type 0} (j k : Bytes) (a : A) (m : TextMap A)
    → lookup k (put j a m) ≡ (if bytes_eq j k then some a else lookup k m)
unfolding put
lookup-put j k a [] = refl
lookup-put j k a ((i, b) ∷ m) = elim (Bool-cases (bytes_eq i j)) [
  | inl e ↦ elim (Bool-cases (bytes_eq j k)) [
    | inl f ↦ rw (e, bytes_eq→≡ i j e, f) refl
    | inr f ↦ rw (e, bytes_eq→≡ i j e, f) refl
  ]
  | inr e ↦ elim (Bool-cases (bytes_eq i k)) [
    | inl f ↦ rw (e, f, bytes_eq_apart i j k e f) refl
    | inr f ↦ rw (e, f) (lookup-put j k a m)
  ]
]

-- The key that is written, and any other.
pub lookup-put_same :
    {A : Type 0} (j k : Bytes) (a : A) (m : TextMap A)
    → bytes_eq j k ≡ true
    → lookup k (put j a m) ≡ some a
lookup-put_same j k a m e = lookup-put j k a m ∙ rw e refl

pub lookup-put_older :
    {A : Type 0} (j k : Bytes) (a : A) (m : TextMap A)
    → bytes_eq j k ≡ false
    → lookup k (put j a m) ≡ lookup k m
lookup-put_older j k a m e = lookup-put j k a m ∙ rw e refl

pub some_inj : {A : Type 0} {x y : A} → some x ≡ some y → x ≡ y
some_inj h = cc

module _ (wasm : Wasm) (host : WasmHost) where
  -- The hash is in the whitelist, unless that is switched off.
  abbrev pub Whitelisted : Bytes → Type 0
  Whitelisted sha = (host.allow_unsigned ≡ true) ⊎ In sha host.trusted_hashes

  -- The bytes of a component.
  pub record Origin (sha : Bytes) (component : wasm.Component) : Type 0 where
    pub binary : Bytes
    pub hashed : wasm.sha256_hex binary ≡ sha
    pub built : wasm.from_binary binary ≡ some component
    pub whitelisted : Whitelisted sha

  pub record IsRegistry (state : RegistryState wasm) : Type 0 where
    pub compiled_known :
        (id : Bytes) (component : wasm.Component)
        → lookup id state.compiled ≡ some component
        → (sha : Bytes) × (lookup id state.by_id ≡ some sha) × Origin sha component
    pub hash_known :
        (sha id : Bytes)
        → lookup sha state.by_hash ≡ some id
        → (component : wasm.Component) × (lookup id state.by_id ≡ some sha)
          × (lookup id state.compiled ≡ some component)

  -- The states that requests lead to, each with an identifier that is new.
  pub data Later (first : RegistryState wasm) : RegistryState wasm → Type 0 where
    same : Later first first
    registered :
        {after : RegistryState wasm} (now later : RegistryState wasm)
        (component_bytes uuid id : Bytes) (persisted : Bool)
        → Later first later
        → lookup uuid later.by_id ≡ none
        → register wasm host now later component_bytes uuid persisted ≡ ok (after, id)
        → Later first after

  is_trusted→Whitelisted : (sha : Bytes) → is_trusted wasm host sha ≡ true → Whitelisted sha
  unfolding is_trusted
  is_trusted→Whitelisted sha h = elim (Bool-cases host.allow_unsigned) [
    | inl open_host ↦ inl open_host
    | inr checked ↦
        let (t, inside, equal) =
          any_of-In (λ t. bytes_eq t sha) host.trusted_hashes (rw checked at h) in
        inr (rw (sym (bytes_eq→≡ t sha equal)) inside)
  ]

  pub start-IsRegistry : IsRegistry (no_components wasm)
  start-IsRegistry = record {
    compiled_known = λ id component h. absurd cc;
    hash_known = λ sha id h. absurd cc;
  }

  prepare→Origin :
      (sha component_bytes uuid : Bytes) (persisted : Bool) (new : Prepared wasm)
      → wasm.sha256_hex component_bytes ≡ sha
      → is_trusted wasm host sha ≡ true
      → prepare wasm sha component_bytes uuid persisted ≡ ok new
      → Origin new.sha new.component × (new.sha ≡ sha) × (new.id ≡ uuid)
  unfolding prepare
  prepare→Origin sha component_bytes uuid persisted new hashed trusted h =
      let (component, b, h1) =
        ok->>= (context bad_component (wasm.from_binary component_bytes)) _ h in
      let (u, w, h2) = ok->>= (guard persisted io) _ h1 in
      rw (sym (ok_inj h2)) (
        record {
          binary = component_bytes;
          hashed = hashed;
          built = context→some _ _ b;
          whitelisted = is_trusted→Whitelisted sha trusted;
        },
        refl,
        refl,
      )

  -- A new component joins the registry.
  abbrev pub joined : RegistryState wasm → Prepared wasm → RegistryState wasm
  joined state new = record {
    by_id = put new.id new.sha state.by_id;
    by_hash = put new.sha new.id state.by_hash;
    compiled = put new.id new.component state.compiled;
  }

  fresh_apart :
      (state : RegistryState wasm) (new : Prepared wasm) (id sha : Bytes)
      → lookup new.id state.by_id ≡ none
      → lookup id state.by_id ≡ some sha
      → bytes_eq new.id id ≡ false
  fresh_apart state new id sha fresh i = elim (Bool-cases (bytes_eq new.id id)) [
    | inr apart ↦ apart
    | inl equal ↦
        let never = sym fresh ∙ (ap (λ k. lookup k state.by_id) (bytes_eq→≡ new.id id equal) ∙ i) in
        absurd cc
  ]

  pub joined-IsRegistry :
      (state : RegistryState wasm) (new : Prepared wasm)
      → IsRegistry state
      → lookup new.id state.by_id ≡ none
      → Origin new.sha new.component
      → IsRegistry (joined state new)
  joined-IsRegistry state new known fresh origin = record {
    compiled_known = λ id component h. elim (Bool-cases (bytes_eq new.id id)) [
      | inl mine ↦
          let e =
            some_inj (sym (lookup-put_same new.id id new.component state.compiled mine) ∙ h) in
          (new.sha, lookup-put_same new.id id new.sha state.by_id mine, rw (sym e) origin)
      | inr older ↦
          let (sha, i, o) =
            known.compiled_known id component
              (sym (lookup-put_older new.id id new.component state.compiled older) ∙ h) in
          (sha, lookup-put_older new.id id new.sha state.by_id older ∙ i, o)
    ];
    hash_known = λ sha id h. elim (Bool-cases (bytes_eq new.sha sha)) [
      | inl mine ↦
          let e = some_inj (sym (lookup-put_same new.sha sha new.id state.by_hash mine) ∙ h) in
          let mine_id : bytes_eq new.id id ≡ true = rw (sym e) (bytes_eq_refl new.id) in
          (
            new.component,
            lookup-put_same new.id id new.sha state.by_id mine_id
                ∙ ap some (bytes_eq→≡ new.sha sha mine),
            lookup-put_same new.id id new.component state.compiled mine_id,
          )
      | inr older ↦
          let (component, i, c) =
            known.hash_known sha id
              (sym (lookup-put_older new.sha sha new.id state.by_hash older) ∙ h) in
          let apart = fresh_apart state new id sha fresh i in
          (
            component,
            lookup-put_older new.id id new.sha state.by_id apart ∙ i,
            lookup-put_older new.id id new.component state.compiled apart ∙ c,
          )
    ];
  }

  commit-joined :
      (state : RegistryState wasm) (new : Prepared wasm)
      → lookup new.sha state.by_hash ≡ none
      → commit wasm state new ≡ (joined state new, new.id)
  unfolding commit
  commit-joined state new e = rw (e, commit) refl

  commit-existing :
      (state : RegistryState wasm) (new : Prepared wasm) (id : Bytes)
      → lookup new.sha state.by_hash ≡ some id
      → commit wasm state new ≡ (state, id)
  unfolding commit
  commit-existing state new id e = rw (e, commit) refl

  -- A request that succeeds found the component in one of the two states, which leaves the
  -- registry as it is, or adds it.
  pub data Registration (now later after : RegistryState wasm) (sha uuid id : Bytes) : Type 0 where
    cached :
        lookup sha now.by_hash ≡ some id → after ≡ later → Registration now later after sha uuid id
    found :
        lookup sha later.by_hash ≡ some id
        → after ≡ later
        → Registration now later after sha uuid id
    added :
        (new : Prepared wasm)
        → lookup sha later.by_hash ≡ none
        → after ≡ joined later new
        → Origin new.sha new.component
        → new.sha ≡ sha
        → new.id ≡ uuid
        → id ≡ uuid
        → Registration now later after sha uuid id

  committed-Registration :
      (now later after : RegistryState wasm) (sha uuid id : Bytes) (new : Prepared wasm)
      → Origin new.sha new.component
      → new.sha ≡ sha
      → new.id ≡ uuid
      → commit wasm later new ≡ (after, id)
      → Registration now later after sha uuid id
  committed-Registration now later after sha uuid id new origin s u h =
      elim (Option-cases (lookup new.sha later.by_hash)) [
        | inl missing ↦
            let e = sym (commit-joined later new missing) ∙ h in
            added new (ap (λ k. lookup k later.by_hash) (sym s) ∙ missing) (sym (ap (λ p. p.0) e))
              origin s u (sym (ap (λ p. p.1) e) ∙ u)
        | inr (existing, e) ↦
            let r = sym (commit-existing later new existing e) ∙ h in
            found (ap (λ k. lookup k later.by_hash) (sym s) ∙ (e ∙ ap some (ap (λ p. p.1) r)))
              (sym (ap (λ p. p.0) r))
      ]

  pub register-Registration :
      (now later after : RegistryState wasm) (component_bytes uuid id : Bytes) (persisted : Bool)
      → register wasm host now later component_bytes uuid persisted ≡ ok (after, id)
      → Registration now later after (wasm.sha256_hex component_bytes) uuid id
  unfolding register
  register-Registration now later after component_bytes uuid id persisted h =
      let sha = wasm.sha256_hex component_bytes in
      let (u, t, h1) = ok->>= (guard (is_trusted wasm host sha) untrusted_component) _ h in
      elim (Option-cases (lookup sha now.by_hash)) [
        | inr (existing, e) ↦
            let r = ok_inj (rw e at h1) in
            cached (e ∙ ap some (ap (λ p. p.1) r)) (sym (ap (λ p. p.0) r))
        | inl missing ↦
            let (new, p, h2) =
              ok->>= (prepare wasm sha component_bytes uuid persisted) _ (rw missing at h1) in
            let (origin, s, i) =
              prepare→Origin sha component_bytes uuid persisted new refl
                (guard→true (is_trusted wasm host sha) untrusted_component t) p in
            committed-Registration now later after sha uuid id new origin s i (ok_inj h2)
      ]
