-- ===== src/Runs/Policies.antt =====
-- Runs of the policies, on claims that agree up to the case of a letter.
use unified_attestation.Prelude.{◌≡◌, ◌↔◌, some, [], ◌∷◌}
use unified_attestation.Outcome.{ok}
use unified_attestation.Registers.{bytes_eq}
use unified_attestation.Policy.{
  CcaPolicy, TdxPolicy, Claims, mr_td, mr_seam, mr_config_id, tcb_status, eq_ignore_ascii_case,
  enforce_tdx_policy,
}
use unified_attestation.Policy.Trusted.{Trusted, enforce_tdx_policy-Trusted}

-- "a1" for every claim, and lists with "A1".
abbrev claims : Claims
claims claim = some (97 ∷ 49 ∷ [])

abbrev cca_policy : CcaPolicy
cca_policy = record { trusted_subjects = []; trusted_rim_hex = (65 ∷ 49 ∷ []) ∷ [] }

abbrev tdx_policy : TdxPolicy
tdx_policy = record {
  trusted_mr_td_hex = (65 ∷ 49 ∷ []) ∷ [];
  trusted_mr_seam_hex = [];
  trusted_mr_config_id_hex = [];
  accept_tcb_status = (97 ∷ 49 ∷ []) ∷ [];
}

enforce_tdx_policy-Trusted_example : (enforce_tdx_policy tdx_policy claims ≡ ok tt) ↔ (
    Trusted eq_ignore_ascii_case (claims mr_td) tdx_policy.trusted_mr_td_hex
    × (Trusted eq_ignore_ascii_case (claims mr_seam) tdx_policy.trusted_mr_seam_hex
        × (Trusted eq_ignore_ascii_case (claims mr_config_id) tdx_policy.trusted_mr_config_id_hex
            × Trusted bytes_eq (claims tcb_status) tdx_policy.accept_tcb_status)))
enforce_tdx_policy-Trusted_example = enforce_tdx_policy-Trusted tdx_policy claims
