-- ===== src/Virtcca/Unbound.antt =====
-- evidence-verify/src/virtcca/mod.rs: what the device certificate says about a token.
use unified_attestation.Prelude.{◌≡◌, refl, Bool, false, some, if◌then◌else◌}
use unified_attestation.Outcome.{Result, ok}
use unified_attestation.Bytes.{Bytes}
use unified_attestation.Keys.{verify_dev_cert_chain}
use unified_attestation.Virtcca.{
  VirtccaEvidence, Evidence, Host, decode, verify_platform_token, read_dev_cert, verify,
}

if-plain :
    {A : Type 0} (b : Bool) (call no_call : Result A)
    → b ≡ false
    → (if b then call else no_call) ≡ no_call
if-plain b call no_call plain = rw plain refl

verify_platform_token-plain :
    (w : Host) (evidence : Evidence w.cose.Alg) (cert : w.openssl.Cert)
    → evidence.is_platform ≡ false
    → verify_dev_cert_chain w.openssl w.cert_files cert ≡ ok tt
    → verify_platform_token w evidence cert ≡ ok tt
unfolding verify_platform_token
verify_platform_token-plain w evidence cert plain chained =
    rw chained (if-plain evidence.is_platform _ (ok tt) plain)

-- Evidence without a token of the platform is not bound to its device certificate: with any other
-- certificate that can be read and has a valid chain in its place, verification has the same
-- outcome for every challenge.
pub verify-dev_cert :
    (w : Host) (user_data evidence exchanged other_cert : Bytes) (ev : VirtccaEvidence)
    (decoded : Evidence w.cose.Alg) (cert any_cert : w.openssl.Cert)
    → w.from_slice evidence ≡ some ev
    → w.from_slice exchanged ≡ some (record ev { dev_cert = other_cert })
    → decode w ev.evidence ≡ ok decoded
    → decoded.is_platform ≡ false
    → read_dev_cert w decoded.is_platform ev.dev_cert ≡ ok cert
    → read_dev_cert w decoded.is_platform other_cert ≡ ok any_cert
    → verify_dev_cert_chain w.openssl w.cert_files cert ≡ ok tt
    → verify_dev_cert_chain w.openssl w.cert_files any_cert ≡ ok tt
    → verify w user_data evidence ≡ verify w user_data exchanged
unfolding verify
verify-dev_cert w user_data evidence exchanged other_cert ev decoded cert any_cert e1 e2 d plain r1
      r2 c1 c2 =
    rw
      (
        e1,
        e2,
        d,
        r1,
        r2,
        verify_platform_token-plain w decoded cert plain c1,
        verify_platform_token-plain w decoded any_cert plain c2,
      )
      refl
