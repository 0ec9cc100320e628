-- ===== src/Policy.antt =====
-- verifier/src/grpc.rs and verifier/src/config.rs: the policies that the verifier enforces on the
-- claims of an appraiser. The claims are their string fields; a text is its bytes.
pub mod Trusted
use unified_attestation.Prelude.{
  ℕ, ◌+◌, Bool, true, false, ◌&&◌, ◌||◌, Option, none, some, List, [], ◌∷◌, map, leb, if◌then◌else◌,
}
use unified_attestation.Outcome.{Result, ok, err, ◌>>=◌, claim_missing, claim_untrusted}
use unified_attestation.Bytes.{Bytes}
use unified_attestation.Registers.{bytes_eq}

-- The fields of the claims that the policies read.
pub data Claim : Type 0 where
  cca_realm_initial_measurement subject mr_td mr_seam mr_config_id tcb_status : Claim

-- `claims.get(..).and_then(|v| v.as_str())`
abbrev pub Claims : Type 0
Claims = Claim → Option Bytes

pub record CcaPolicy : Type 0 where
  pub trusted_subjects : List Bytes
  pub trusted_rim_hex : List Bytes

pub record TdxPolicy : Type 0 where
  pub trusted_mr_td_hex : List Bytes
  pub trusted_mr_seam_hex : List Bytes
  pub trusted_mr_config_id_hex : List Bytes
  pub accept_tcb_status : List Bytes

unfoldable pub to_ascii_lowercase : ℕ → ℕ
to_ascii_lowercase c = if leb 65 c && leb c 90 then c + 32 else c

unfoldable pub eq_ignore_ascii_case : Bytes → Bytes → Bool
eq_ignore_ascii_case a b = bytes_eq (map to_ascii_lowercase a) (map to_ascii_lowercase b)

abbrev pub any_of : (Bytes → Bool) → List Bytes → Bool
any_of test [] = false
any_of test (s ∷ list) = test s || any_of test list

-- A list that is empty is not checked; otherwise the claim must be there and be in the list.
unfoldable pub match_listed : (Bytes → Bytes → Bool) → Option Bytes → List Bytes → Result (Unit {0})
match_listed eq claim [] = ok tt
match_listed eq none (s ∷ list) = err claim_missing
match_listed eq (some v) (s ∷ list) =
    if any_of (λ t. eq t v) (s ∷ list) then ok tt else err claim_untrusted

unfoldable pub match_hex : Option Bytes → List Bytes → Result (Unit {0})
match_hex = match_listed eq_ignore_ascii_case

unfoldable pub enforce_cca_policy : CcaPolicy → Claims → Result (Unit {0})
enforce_cca_policy policy claims = do
  rim ←
      match_listed eq_ignore_ascii_case (claims cca_realm_initial_measurement)
        policy.trusted_rim_hex
  match_listed bytes_eq (claims subject) policy.trusted_subjects

unfoldable pub enforce_tdx_policy : TdxPolicy → Claims → Result (Unit {0})
enforce_tdx_policy policy claims = do
  td ← match_hex (claims mr_td) policy.trusted_mr_td_hex
  seam ← match_hex (claims mr_seam) policy.trusted_mr_seam_hex
  config ← match_hex (claims mr_config_id) policy.trusted_mr_config_id_hex
  match_listed bytes_eq (claims tcb_status) policy.accept_tcb_status
