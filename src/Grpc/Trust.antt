-- ===== src/Grpc/Trust.antt =====
-- verifier/src/grpc.rs (trust_vector_for): when the trust vector affirms everything.
use unified_attestation.Prelude.{
  ℕ, ◌≡◌, ◌↔◌, ◌⊎◌, inl, inr, refl, ap, Bool, true, false, Option, none, some, if◌then◌else◌,
  Bool-cases, arith,
}
use unified_attestation.Bytes.{Bytes}
use unified_attestation.Registers.{bytes_eq}
use unified_attestation.Registers.Verify.{bytes_eq→≡}
use unified_attestation.Json.{ascii}
use unified_attestation.Grpc.{
  TeeType, Family, no_family, cca_family, csv_family, tdx_family, itrustee_family, virtcca_family,
  family, affirming, executables_of, configuration_of, trust_vector_by, trust_vector_for,
}

-- What the code asks of each family.
abbrev pub Affirms : Family → Bool → Option Bytes → Option Bytes → Type 0
Affirms tdx_family nonce_bound cca_lifecycle tcb = tcb ≡ some (ascii "UpToDate")
Affirms cca_family nonce_bound cca_lifecycle tcb =
    (nonce_bound ≡ true)
    × ((cca_lifecycle ≡ some (ascii "secured")) ⊎ (cca_lifecycle ≡ some (ascii "secured_no_debug")))
Affirms csv_family nonce_bound cca_lifecycle tcb = nonce_bound ≡ true
Affirms itrustee_family nonce_bound cca_lifecycle tcb = Unit
Affirms virtcca_family nonce_bound cca_lifecycle tcb = Unit
Affirms no_family nonce_bound cca_lifecycle tcb = Unit

executables_of-two : (tcb : Option Bytes) → executables_of tcb ≡ 2 → tcb ≡ some (ascii "UpToDate")
unfolding executables_of
executables_of-two none h = absurd (omega (arith, h))
executables_of-two (some s) h = elim (Bool-cases (bytes_eq s (ascii "UpToDate"))) [
  | inl e ↦ ap some (bytes_eq→≡ s (ascii "UpToDate") e)
  | inr other ↦ let left = rw other at h in absurd (ground arith)
]

configuration_of-two :
    (lifecycle : Option Bytes)
    → configuration_of lifecycle ≡ 2
    → (lifecycle ≡ some (ascii "secured")) ⊎ (lifecycle ≡ some (ascii "secured_no_debug"))
unfolding configuration_of
configuration_of-two none h = absurd (omega (arith, h))
configuration_of-two (some s) h = elim (Bool-cases (bytes_eq s (ascii "secured"))) [
  | inl e ↦ inl (ap some (bytes_eq→≡ s (ascii "secured") e))
  | inr a ↦ elim (Bool-cases (bytes_eq s (ascii "secured_no_debug"))) [
    | inl e ↦ inr (ap some (bytes_eq→≡ s (ascii "secured_no_debug") e))
    | inr b ↦ let left = rw (a, b) at h in absurd (ground arith)
  ]
]

bound_two : (b : Bool) → if◌then◌else◌ {A = ℕ} b 2 0 ≡ 2 → b ≡ true
bound_two true h = refl
bound_two false h = absurd (omega (arith, h))

affirming→Affirms :
    (f : Family) (nonce_bound : Bool) (cca_lifecycle tcb : Option Bytes)
    → trust_vector_by f nonce_bound cca_lifecycle tcb ≡ affirming
    → Affirms f nonce_bound cca_lifecycle tcb
unfolding trust_vector_by
affirming→Affirms tdx_family b lc tcb h = executables_of-two tcb (ap (λ v. v.executables) h)
affirming→Affirms cca_family b lc tcb h = (
  bound_two b (ap (λ v. v.instance_identity) h),
  configuration_of-two lc (ap (λ v. v.configuration) h),
)
affirming→Affirms csv_family b lc tcb h = bound_two b (ap (λ v. v.instance_identity) h)
affirming→Affirms itrustee_family b lc tcb h = tt
affirming→Affirms virtcca_family b lc tcb h = tt
affirming→Affirms no_family b lc tcb h = tt

Affirms→affirming :
    (f : Family) (nonce_bound : Bool) (cca_lifecycle tcb : Option Bytes)
    → Affirms f nonce_bound cca_lifecycle tcb
    → trust_vector_by f nonce_bound cca_lifecycle tcb ≡ affirming
unfolding trust_vector_by executables_of configuration_of
Affirms→affirming tdx_family b lc tcb h = rw h refl
Affirms→affirming cca_family b lc tcb (n, inl e) = rw (n, e) refl
Affirms→affirming cca_family b lc tcb (n, inr e) = rw (n, e) refl
Affirms→affirming csv_family b lc tcb h = rw h refl
Affirms→affirming itrustee_family b lc tcb h = refl
Affirms→affirming virtcca_family b lc tcb h = refl
Affirms→affirming no_family b lc tcb h = refl

-- The trust vector affirms all its three parts exactly when: for TDX, the status of the TCB is
-- "UpToDate"; for CCA, the nonce is bound and the life cycle is "secured" or "secured_no_debug";
-- for CSV, the nonce is bound; for every other kind, iTrustee and virtCCA included, always, whether
-- or not the nonce is bound.
pub trust_vector_for-Affirms :
    (tee : TeeType) (nonce_bound : Bool) (cca_lifecycle tcb : Option Bytes)
    → (trust_vector_for tee nonce_bound cca_lifecycle tcb ≡ affirming)
      ↔ Affirms (family tee) nonce_bound cca_lifecycle tcb
unfolding trust_vector_for
trust_vector_for-Affirms tee nonce_bound cca_lifecycle tcb = (
  affirming→Affirms (family tee) nonce_bound cca_lifecycle tcb,
  Affirms→affirming (family tee) nonce_bound cca_lifecycle tcb,
)
