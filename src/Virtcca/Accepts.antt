-- ===== src/Virtcca/Accepts.antt =====
-- evidence-verify/src/virtcca/mod.rs: what the evidence that is accepted satisfies.
use unified_attestation.Prelude.{
  ℕ, ◌≤◌, ◌≡◌, ◌⊎◌, inl, inr, refl, sym, ap, Bool, true, false, ◌&&◌, some, List, length, take, leb,
  leb→le, ◌==◌, not, if◌then◌else◌, Bool-cases, arith,
}
use unified_attestation.Outcome.{
  bad_cose, bad_cbor, not_integer, Result, ok, err, ok->>=, ok_inj, context, guard, bad_base64,
  bad_json, bad_size, bad_challenge, bad_certificate,
}
use unified_attestation.Bytes.{Bytes}
use unified_attestation.Registers.{bytes_eq, ReportKey}
use unified_attestation.Registers.Verify.{&&-true, bytes_eq→≡, guard→true, context→some}
use unified_attestation.Ima.{Detail}
use unified_attestation.Token.{decode_cvm_token, decode_platform_token}
use unified_attestation.Token.Sized.{IsCvmToken, decode_cvm_token-IsCvmToken}
use unified_attestation.Keys.{verify_dev_cert_chain, pkey_of, verfiy_cvm_challenge}
use unified_attestation.Virtcca.{
  VirtccaEvidence, Evidence, TeeClaim, Host, decode, decode_platform, verify_platform_token,
  verify_cvm_token, parse_claim_from_evidence, verify_ima_log, verify_event_log, read_dev_cert,
  verify, evaluate, tagged_map, set_evidence_entry, new_evidence,
}
use unified_attestation.Cbor.{set_entries}
use unified_attestation.Keys.Verified.{
  Chained, Sealed, Bound, verify_dev_cert_chain→Chained, verify_cose_sign1→Sealed,
  verfiy_cvm_challenge→Bound,
}

-- A token for the platform is signed by the device's key, and names the hash of the other key.
abbrev pub Platform : (w : Host) → Evidence w.cose.Alg → w.openssl.Cert → Type 0
Platform w evidence dev_cert =
    (key : w.openssl.PKey) × (w.openssl.public_key dev_cert ≡ some key)
    × Sealed w.openssl w.cose evidence.platform_envelop key
    × Bound w.openssl evidence.cvm_token evidence.platform_token

-- What `decode` and `verify` have looked at.
pub record Accepted (w : Host) (user_data evidence : Bytes) (claim : TeeClaim) : Type 0 where
  pub virtcca_ev : VirtccaEvidence
  pub decoded : Evidence w.cose.Alg
  pub dev_cert : w.openssl.Cert
  pub key : w.openssl.PKey
  pub parsed : w.from_slice evidence ≡ some virtcca_ev
  pub decodes : decode w virtcca_ev.evidence ≡ ok decoded
  pub cert_read : read_dev_cert w decoded.is_platform virtcca_ev.dev_cert ≡ ok dev_cert
  pub chained : Chained w.openssl w.cert_files dev_cert
  pub token_sized : IsCvmToken decoded.cvm_token
  pub challenged : take (length user_data) decoded.cvm_token.challenge ≡ user_data
  pub platform : (decoded.is_platform ≡ false) ⊎ Platform w decoded dev_cert
  pub key_of : pkey_of w.openssl decoded.cvm_token.pub_key ≡ ok key
  pub signed : Sealed w.openssl w.cose decoded.cvm_envelop key
  pub ima : Detail
  pub event_log : List (ReportKey × Bool)
  pub ima_accepted : verify_ima_log w decoded.cvm_token virtcca_ev.ima_log ≡ ok ima
  pub log_accepted : verify_event_log w decoded.cvm_token virtcca_ev.event_log ≡ ok event_log
  pub claimed : claim ≡ parse_claim_from_evidence w decoded ima event_log

if-true :
    {A : Type 0} (b : Bool) (call : Result A) (no_call out : A)
    → (if b then call else ok no_call) ≡ ok out
    → (b ≡ false) ⊎ ((b ≡ true) × (call ≡ ok out))
if-true true call no_call out h = inr (refl, h)
if-true false call no_call out h = inl refl

decode_platform-cvm_token :
    (w : Host) (b : Bool) (evidence out : Evidence w.cose.Alg)
    → decode_platform w b evidence ≡ ok out
    → evidence.cvm_token ≡ out.cvm_token
unfolding decode_platform
decode_platform-cvm_token w false evidence out h = ap (λ e. e.cvm_token) (ok_inj h)
decode_platform-cvm_token w true evidence out h =
    let (envelop, e, h1) =
      ok->>= (context bad_cose (w.cose.init_decoder evidence.platform_envelop.raw)) _ h in
    let (token, t, h2) = ok->>= (decode_platform_token w.cbor envelop.payload) _ h1 in
    ap (λ e. e.cvm_token) (ok_inj h2)

decode-IsCvmToken :
    (w : Host) (raw : Bytes) (out : Evidence w.cose.Alg)
    → decode w raw ≡ ok out
    → IsCvmToken out.cvm_token
unfolding decode
decode-IsCvmToken w raw out h =
    let (val, e, h1) = ok->>= (context bad_cbor (w.cbor.value_from raw)) _ h in
    let (contents, m, h2) = ok->>= (tagged_map val) _ h1 in
    let (labelled, l, h3) =
      ok->>= (set_entries set_evidence_entry (err not_integer) contents new_evidence) _ h2 in
    let (envelop, c, h4) =
      ok->>= (context bad_cose (w.cose.init_decoder labelled.cvm_envelop.raw)) _ h3 in
    let (token, t, h5) = ok->>= (decode_cvm_token w.cbor envelop.payload) _ h4 in
    let sized : IsCvmToken token = rw t at (decode_cvm_token-IsCvmToken w.cbor envelop.payload) in
    rw (sym (decode_platform-cvm_token w labelled.is_platform _ out h5)) sized

-- What `verify_cvm_token` has looked at.
record CvmVerified (w : Host) (evidence : Evidence w.cose.Alg) (challenge : Bytes) : Type 0 where
  challenged : take (length challenge) evidence.cvm_token.challenge ≡ challenge
  bound :
      (evidence.is_platform ≡ false)
      ⊎ ((evidence.is_platform ≡ true) × Bound w.openssl evidence.cvm_token evidence.platform_token)
  key : w.openssl.PKey
  key_of : pkey_of w.openssl evidence.cvm_token.pub_key ≡ ok key
  signed : Sealed w.openssl w.cose evidence.cvm_envelop key

verify_cvm_token→CvmVerified :
    (w : Host) (evidence : Evidence w.cose.Alg) (challenge : Bytes)
    → verify_cvm_token w evidence challenge ≡ ok tt
    → CvmVerified w evidence challenge
unfolding verify_cvm_token
verify_cvm_token→CvmVerified w evidence challenge h =
    elim (Bool-cases (leb (length challenge) (length evidence.cvm_token.challenge))) [
      | inr long ↦ let failed = rw long at h in absurd cc
      | inl fits ↦
          let h0 = rw fits at h in
          let (u, same, h1) =
            ok->>=
              (guard (bytes_eq challenge (take (length challenge) evidence.cvm_token.challenge))
                bad_challenge)
              _ h0 in
          let (u', bound, h2) =
            ok->>=
              (if evidence.is_platform
                then verfiy_cvm_challenge w.openssl evidence.cvm_token.pub_key_hash_alg
                    evidence.platform_token.challenge evidence.cvm_token.pub_key
                else ok tt)
              _ h1 in
          let (key, k, h3) = ok->>= (pkey_of w.openssl evidence.cvm_token.pub_key) _ h2 in
          record {
            challenged = sym (bytes_eq→≡ _ _ (guard→true _ bad_challenge same));
            bound = elim (if-true _ _ _ _ bound) [
              | inl plain ↦ inl plain
              | inr (there, b) ↦ inr (
                there,
                verfiy_cvm_challenge→Bound w.openssl evidence.cvm_token evidence.platform_token b,
              )
            ];
            key = key;
            key_of = k;
            signed = verify_cose_sign1→Sealed w.openssl w.cose evidence.cvm_envelop key h3;
          }
    ]

verify_platform_token→Chained :
    (w : Host) (evidence : Evidence w.cose.Alg) (dev_cert : w.openssl.Cert)
    → verify_platform_token w evidence dev_cert ≡ ok tt
    → Chained w.openssl w.cert_files dev_cert
      × ((evidence.is_platform ≡ false)
          ⊎ ((key : w.openssl.PKey) × (w.openssl.public_key dev_cert ≡ some key)
              × Sealed w.openssl w.cose evidence.platform_envelop key))
unfolding verify_platform_token
verify_platform_token→Chained w evidence dev_cert h =
    let (u, chained, h1) = ok->>= (verify_dev_cert_chain w.openssl w.cert_files dev_cert) _ h in
    (
      verify_dev_cert_chain→Chained w.openssl w.cert_files dev_cert chained,
      elim (if-true _ _ _ _ h1) [
        | inl plain ↦ inl plain
        | inr (there, s) ↦
            let (key, k, sealed) =
              ok->>= (context bad_certificate (w.openssl.public_key dev_cert)) _ s in
            inr (
              key,
              context→some _ _ k,
              verify_cose_sign1→Sealed w.openssl w.cose evidence.platform_envelop key sealed,
            )
      ],
    )

platform_of :
    (w : Host) (evidence : Evidence w.cose.Alg) (dev_cert : w.openssl.Cert)
    → (evidence.is_platform ≡ false)
      ⊎ ((key : w.openssl.PKey) × (w.openssl.public_key dev_cert ≡ some key)
          × Sealed w.openssl w.cose evidence.platform_envelop key)
    → (evidence.is_platform ≡ false)
      ⊎ ((evidence.is_platform ≡ true) × Bound w.openssl evidence.cvm_token evidence.platform_token)
    → (evidence.is_platform ≡ false) ⊎ Platform w evidence dev_cert
platform_of w evidence dev_cert (inl plain) bound = inl plain
platform_of w evidence dev_cert (inr sealed) (inl plain) = inl plain
platform_of w evidence dev_cert (inr (key, k, sealed)) (inr (there, bound)) =
    inr (key, k, sealed, bound)

verify-Accepted :
    (w : Host) (user_data evidence : Bytes) (claim : TeeClaim)
    → verify w user_data evidence ≡ ok claim
    → Accepted w user_data evidence claim
unfolding verify
verify-Accepted w user_data evidence claim h =
    let (ev, e, h1) = ok->>= (context bad_json (w.from_slice evidence)) _ h in
    let (decoded, d, h2) = ok->>= (decode w ev.evidence) _ h1 in
    let (dev_cert, c, h3) = ok->>= (read_dev_cert w decoded.is_platform ev.dev_cert) _ h2 in
    let (u, platform, h4) = ok->>= (verify_platform_token w decoded dev_cert) _ h3 in
    let (u', cvm, h5) = ok->>= (verify_cvm_token w decoded user_data) _ h4 in
    let (ima, i, h6) = ok->>= (verify_ima_log w decoded.cvm_token ev.ima_log) _ h5 in
    let (log, l, h7) = ok->>= (verify_event_log w decoded.cvm_token ev.event_log) _ h6 in
    let verified = verify_cvm_token→CvmVerified w decoded user_data cvm in
    let chained = verify_platform_token→Chained w decoded dev_cert platform in
    record {
      virtcca_ev = ev;
      decoded = decoded;
      dev_cert = dev_cert;
      key = verified.key;
      parsed = context→some _ _ e;
      decodes = d;
      cert_read = c;
      chained = chained.0;
      token_sized = decode-IsCvmToken w ev.evidence decoded d;
      challenged = verified.challenged;
      platform = platform_of w decoded dev_cert chained.1 verified.bound;
      key_of = verified.key_of;
      signed = verified.signed;
      ima = ima;
      event_log = log;
      ima_accepted = i;
      log_accepted = l;
      claimed = sym (ok_inj h7);
    }

not_zero : (n : ℕ) → not (n == 0) ≡ true → 1 ≤ n
not_zero n h = ground arith

-- Evidence that is accepted comes with a challenge of 1 to 64 bytes, and the token of the virtual
-- machine starts with it; its device certificate is signed by the intermediate one, and that by
-- the root, which signs itself, these two read from the files for its kind of key; where there is
-- a token of the platform, the device's key signs it and it names the hash of the machine's key;
-- that key signs the machine's token; and the logs that are there are accepted against the
-- token's measurements.
pub evaluate-Accepted :
    (w : Host) (user_data evidence : Bytes) (claim : TeeClaim)
    → evaluate w user_data evidence ≡ ok claim
    → (challenge : Bytes) × (w.base64_url_decode user_data ≡ some challenge)
      × (1 ≤ length challenge)
      × (length challenge ≤ 64)
      × Accepted w challenge evidence claim
unfolding evaluate
evaluate-Accepted w user_data evidence claim h =
    let (challenge, c, h1) = ok->>= (context bad_base64 (w.base64_url_decode user_data)) _ h in
    let (u, sized, h2) =
      ok->>= (guard (not (length challenge == 0) && leb (length challenge) 64) bad_size) _ h1 in
    let bounds =
      &&-true (not (length challenge == 0)) (leb (length challenge) 64)
        (guard→true (not (length challenge == 0) && leb (length challenge) 64) bad_size sized) in
    (
      challenge,
      context→some _ _ c,
      not_zero (length challenge) bounds.0,
      leb→le (length challenge) 64 bounds.1,
      verify-Accepted w challenge evidence claim h2,
    )
