-- ===== src/Policy/Trusted.antt =====
-- verifier/src/grpc.rs: what the policies let through.
use unified_attestation.Prelude.{
  ◌≡◌, ◌↔◌, ◌⊎◌, inl, inr, refl, sym, Bool, true, Option, none, some, List, [], ◌∷◌, Bool-cases,
}
use unified_attestation.Outcome.{ok, ok->>=}
use unified_attestation.Bytes.{Bytes}
use unified_attestation.Registers.{bytes_eq}
use unified_attestation.Delivery.Everyone.{In}
use unified_attestation.Policy.{
  cca_realm_initial_measurement, subject, mr_td, mr_seam, mr_config_id, tcb_status, Claims,
  CcaPolicy, TdxPolicy, eq_ignore_ascii_case, any_of, match_listed, match_hex, enforce_cca_policy,
  enforce_tdx_policy,
}

-- The claim is there and equals an entry of the list.
pub record Listed (eq : Bytes → Bytes → Bool) (claim : Option Bytes) (list : List Bytes)
    : Type 0 where
  pub value : Bytes
  pub entry : Bytes
  pub claimed : claim ≡ some value
  pub inside : In entry list
  pub equal : eq entry value ≡ true

abbrev pub Trusted : (Bytes → Bytes → Bool) → Option Bytes → List Bytes → Type 0
Trusted eq claim list = (list ≡ []) ⊎ Listed eq claim list

pub any_of-In :
    (test : Bytes → Bool) (list : List Bytes)
    → any_of test list ≡ true
    → (s : Bytes) × In s list × (test s ≡ true)
any_of-In test [] h = absurd cc
any_of-In test (s ∷ list) h = elim (Bool-cases (test s)) [
  | inl holds ↦ (s, inl refl, holds)
  | inr fails ↦
      let (t, inside, holds) = any_of-In test list (rw fails at h) in (t, inr inside, holds)
]

In-any_of :
    (test : Bytes → Bool) (list : List Bytes) (s : Bytes)
    → In s list
    → test s ≡ true
    → any_of test list ≡ true
In-any_of test [] s h holds = absurd h
In-any_of test (t ∷ list) s (inl same) holds = rw (sym same, holds) refl
In-any_of test (t ∷ list) s (inr inside) holds = elim (Bool-cases (test t)) [
  | inl first ↦ rw first refl
  | inr later ↦ rw later (In-any_of test list s inside holds)
]

match_listed→Trusted :
    (eq : Bytes → Bytes → Bool) (claim : Option Bytes) (list : List Bytes)
    → match_listed eq claim list ≡ ok tt
    → Trusted eq claim list
unfolding match_listed
match_listed→Trusted eq claim [] h = inl refl
match_listed→Trusted eq none (s ∷ list) h = absurd cc
match_listed→Trusted eq (some v) (s ∷ list) h =
    elim (Bool-cases (any_of (λ t. eq t v) (s ∷ list))) [
      | inl found ↦
          let (entry, inside, equal) = any_of-In (λ t. eq t v) (s ∷ list) found in
          inr (record { value = v; entry = entry; claimed = refl; inside = inside; equal = equal })
      | inr missing ↦ let failed = rw missing at h in absurd cc
    ]

Trusted→match_listed :
    (eq : Bytes → Bytes → Bool) (claim : Option Bytes) (list : List Bytes)
    → Trusted eq claim list
    → match_listed eq claim list ≡ ok tt
unfolding match_listed
Trusted→match_listed eq claim [] h = refl
Trusted→match_listed eq claim (s ∷ list) (inl empty) = absurd cc
Trusted→match_listed eq claim (s ∷ list) (inr l) =
    rw (l.claimed, In-any_of (λ t. eq t l.value) (s ∷ list) l.entry l.inside l.equal) refl

-- The policy for CCA lets exactly those claims through of which the realm's initial measurement
-- is listed, up to the case of its letters, and the subject is listed, a list that is empty
-- allowing every claim.
pub enforce_cca_policy-Trusted :
    (policy : CcaPolicy) (claims : Claims)
    → (enforce_cca_policy policy claims ≡ ok tt) ↔ (
        Trusted eq_ignore_ascii_case (claims cca_realm_initial_measurement) policy.trusted_rim_hex
        × Trusted bytes_eq (claims subject) policy.trusted_subjects)
unfolding enforce_cca_policy
enforce_cca_policy-Trusted policy claims = (
  λ h.
      let (u, e, rest) =
        ok->>=
          (match_listed eq_ignore_ascii_case (claims cca_realm_initial_measurement)
            policy.trusted_rim_hex)
          _ h in
      (match_listed→Trusted _ _ _ e, match_listed→Trusted _ _ _ rest),
  λ t. rw (Trusted→match_listed _ _ _ t.0) (Trusted→match_listed _ _ _ t.1),
)

-- The policy for TDX lets exactly those claims through of which the three measurements are
-- listed, up to the case of their letters, and the status of the TCB is listed, a list that is
-- empty allowing every claim.
pub enforce_tdx_policy-Trusted :
    (policy : TdxPolicy) (claims : Claims)
    → (enforce_tdx_policy policy claims ≡ ok tt) ↔ (
        Trusted eq_ignore_ascii_case (claims mr_td) policy.trusted_mr_td_hex
        × (Trusted eq_ignore_ascii_case (claims mr_seam) policy.trusted_mr_seam_hex
            × (Trusted eq_ignore_ascii_case (claims mr_config_id) policy.trusted_mr_config_id_hex
                × Trusted bytes_eq (claims tcb_status) policy.accept_tcb_status)))
unfolding enforce_tdx_policy match_hex
enforce_tdx_policy-Trusted policy claims = (
  λ h.
      let (u, e1, h1) = ok->>= (match_hex (claims mr_td) policy.trusted_mr_td_hex) _ h in
      let (v, e2, h2) = ok->>= (match_hex (claims mr_seam) policy.trusted_mr_seam_hex) _ h1 in
      let (w, e3, h3) =
        ok->>= (match_hex (claims mr_config_id) policy.trusted_mr_config_id_hex) _ h2 in
      (
        match_listed→Trusted _ _ _ e1,
        (
          match_listed→Trusted _ _ _ e2,
          (match_listed→Trusted _ _ _ e3, match_listed→Trusted _ _ _ h3),
        ),
      ),
  λ (td, (seam, (config, tcb))).
      rw
        (
          Trusted→match_listed _ _ _ td,
          Trusted→match_listed _ _ _ seam,
          Trusted→match_listed _ _ _ config,
        )
        (Trusted→match_listed _ _ _ tcb),
)
