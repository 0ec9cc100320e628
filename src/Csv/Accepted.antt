-- ===== src/Csv/Accepted.antt =====
-- evidence-verify/src/csv (mod.rs, sm2.rs): what the evidence that is accepted satisfies.
use unified_attestation.Prelude.{
  ℕ, ◌≤◌, ◌≡◌, ◌⊎◌, inl, inr, sym, ap, ◌∙◌, true, false, Option, none, some, length, take, ltb,
  ◌==◌, not, Bool-cases, arith,
}
use unified_attestation.Outcome.{
  ok, ok->>=, ok_inj, context, guard, bad_json, bad_base64, bad_size, bad_nonce, bad_mode,
  ima_not_supported, bad_mac,
}
use unified_attestation.Bytes.{Bytes}
use unified_attestation.Registers.{bytes_eq}
use unified_attestation.Registers.Verify.{bytes_eq→≡, guard→true, context→some}
use unified_attestation.Components.{is_none}
use unified_attestation.Sm2.{slice_at}
use unified_attestation.Csv.{
  CsvReport, HygonCsvEvidence, CsvHost, CsvClaim, parse_report, chip_id_to_string,
  normalize_hsk_cek_cert, verify_hsk_cert, verify_csv_cert_with_root_issuer,
  verify_csv_cert_with_csv_issuer, verify_loaded, verify_cert_chain_if_available,
  verify_session_mac_if_available, verify_report_signature, challenge_to_nonce, evaluate_csv,
  verify_parsed, all_zero,
}
use unified_attestation.Csv.Parts.{part, slice_at→part, part-part}
use unified_attestation.Csv.Fields.{ParsedFrom, parse_report→ParsedFrom}
use unified_attestation.Csv.Signed.{
  not-true, CertsSigned, certs→CertsSigned, ReportSigned, verify_report_signature→ReportSigned,
}

normalized :
    (file out : Bytes)
    → normalize_hsk_cek_cert file ≡ ok out
    → (2916 ≤ length file) × (out ≡ part 0 2916 file)
unfolding normalize_hsk_cek_cert
normalized file out h = elim (Bool-cases (ltb (length file) 2916)) [
  | inl short ↦ absurd (cc (rw short at h))
  | inr enough ↦ (not_short (length file) enough, sym (ok_inj (rw enough at h)))
]
  where
    not_short : (n : ℕ) → ltb n 2916 ≡ false → 2916 ≤ n
    not_short n h = ground arith

module _ (w : CsvHost) where
  -- What was found for the chip that the report names starts with two certificates; the root signs
  -- the first, that the second, and that the certificate in the report.
  pub record Chained (report : CsvReport) : Type 0 where
    pub chip : Bytes
    pub file : Bytes
    pub chip_of : chip_id_to_string report.chip_id ≡ ok chip
    pub found : w.hsk_cek chip ≡ ok (some file)
    pub long_enough : 2916 ≤ length file
    pub signed : CertsSigned w (part 0 832 file) (part 832 2084 file) report.pek_cert

  loaded_chain :
      (report : CsvReport) (chip : Bytes) (found : Option Bytes)
      → chip_id_to_string report.chip_id ≡ ok chip
      → w.hsk_cek chip ≡ ok found
      → verify_loaded w report.pek_cert found ≡ ok true
      → Chained report
  unfolding verify_loaded
  loaded_chain report chip none c f h = let never = ok_inj h in absurd cc
  loaded_chain report chip (some file) c f h =
      let (hsk_cek, n, h1) = ok->>= (normalize_hsk_cek_cert file) _ h in
      let (hsk, k, h2) = ok->>= (slice_at 0 832 hsk_cek) _ h1 in
      let (cek, e, h3) = ok->>= (slice_at 832 2084 hsk_cek) _ h2 in
      let (u, by_root, h4) = ok->>= (verify_hsk_cert w hsk) _ h3 in
      let (u', by_hsk, h5) = ok->>= (verify_csv_cert_with_root_issuer w cek hsk) _ h4 in
      let (u2, by_cek, h6) = ok->>= (verify_csv_cert_with_csv_issuer w report.pek_cert cek) _ h5 in
      let (fits, cut) = normalized file hsk_cek n in
      let hsk_is : hsk ≡ part 0 832 file =
        (slice_at→part 0 832 hsk_cek hsk k).1
        ∙ (ap (part 0 832) cut ∙ part-part 0 832 0 2916 file (omega arith)) in
      let cek_is : cek ≡ part 832 2084 file =
        (slice_at→part 832 2084 hsk_cek cek e).1
        ∙ (ap (part 832 2084) cut ∙ part-part 832 2084 0 2916 file (omega arith)) in
      record {
        chip = chip;
        file = file;
        chip_of = c;
        found = f;
        long_enough = fits;
        signed =
            rw (hsk_is, cek_is) at
              (certs→CertsSigned w hsk cek report.pek_cert by_root by_hsk by_cek);
      }

  chain_true :
      (report : CsvReport) → verify_cert_chain_if_available w report ≡ ok true → Chained report
  unfolding verify_cert_chain_if_available
  chain_true report h =
      let (chip, c, h1) = ok->>= (chip_id_to_string report.chip_id) _ h in
      let (found, f, h2) = ok->>= (w.hsk_cek chip) _ h1 in loaded_chain report chip found c f h2

  mac_true :
      (report : CsvReport)
      → verify_session_mac_if_available w report ≡ ok true
      → w.hmac_sm3 report.mnonce (part 336 2180 report.raw) ≡ report.mac
  unfolding verify_session_mac_if_available
  mac_true report h = elim (Bool-cases (all_zero report.reserved2)) [
    | inl unused ↦ let never = ok_inj (rw unused at h) in absurd cc
    | inr used ↦
        let (input, i, h1) = ok->>= (slice_at 336 2180 report.raw) _ (rw used at h) in
        let (u, same, h2) =
          ok->>= (guard (bytes_eq (w.hmac_sm3 report.mnonce input) report.mac) bad_mac) _ h1 in
        ap (w.hmac_sm3 report.mnonce) (sym (slice_at→part 336 2180 report.raw input i).1)
        ∙ bytes_eq→≡ (w.hmac_sm3 report.mnonce input) report.mac (guard→true _ bad_mac same)
  ]

  -- What `verify_parsed` has looked at.
  pub record Verified (parsed : CsvReport) (nonce : Bytes) (claim : CsvClaim) : Type 0 where
    pub reported : claim.parsed ≡ parsed
    pub bound : parsed.mnonce ≡ nonce
    pub session_mac :
        (claim.session_mac ≡ false)
        ⊎ (w.hmac_sm3 parsed.mnonce (part 336 2180 parsed.raw) ≡ parsed.mac)
    pub signed : ReportSigned w parsed
    pub chained : (claim.cert_chain ≡ false) ⊎ Chained parsed

  verify_parsed→Verified :
      (mode : Bytes) (parsed : CsvReport) (nonce : Bytes) (claim : CsvClaim)
      → verify_parsed w mode parsed nonce ≡ ok claim
      → Verified parsed nonce claim
  unfolding verify_parsed
  verify_parsed→Verified mode parsed nonce claim h =
      let (u, bound, h1) = ok->>= (guard (bytes_eq parsed.mnonce nonce) bad_nonce) _ h in
      let (mac, a, h2) = ok->>= (verify_session_mac_if_available w parsed) _ h1 in
      let (u', signed, h3) = ok->>= (verify_report_signature w parsed) _ h2 in
      let (chained, k, h4) = ok->>= (verify_cert_chain_if_available w parsed) _ h3 in
      let chain_of = ap (λ d. d.cert_chain) (ok_inj h4) in
      let mac_of = ap (λ d. d.session_mac) (ok_inj h4) in
      record {
        reported = sym (ap (λ d. d.parsed) (ok_inj h4));
        bound =
            bytes_eq→≡ parsed.mnonce nonce
              (guard→true (bytes_eq parsed.mnonce nonce) bad_nonce bound);
        session_mac = elim (Bool-cases mac) [
          | inr unset ↦ inl (sym mac_of ∙ unset)
          | inl verified ↦ inr (mac_true parsed (a ∙ ap ok verified))
        ];
        signed = verify_report_signature→ReportSigned w parsed signed;
        chained = elim (Bool-cases chained) [
          | inr no_chain ↦ inl (sym chain_of ∙ no_chain)
          | inl verified ↦ inr (chain_true parsed (k ∙ ap ok verified))
        ];
      }

-- Evidence of the mode that is asked for is accepted only if its nonce, and the nonce unmasked from
-- its report, are the first 16 bytes of the hash of a challenge that is not empty, and the two numbers
-- of the report's signature, read at their places in it, satisfy the equation of SM2 for its first
-- 180 bytes and the key of the certificate in the report. That certificate is tied to the root only
-- where the claim `cert_chain` is set: then the root so signs the first certificate that was found
-- for the chip, that the second, and that the one in the report, each with its usage. Where the
-- claim `session_mac` is set, the MAC in the report is that of the bytes from the certificate up to
-- it, with the nonce as the key.
pub evaluate_csv-Verified :
    (w : CsvHost) (expected_mode user_data evidence : Bytes) (claim : CsvClaim)
    → evaluate_csv w expected_mode user_data evidence ≡ ok claim
    → (ev : HygonCsvEvidence) × (challenge nonce report_bytes : Bytes) × (parsed : CsvReport)
      × (w.from_slice evidence ≡ some ev)
      × (ev.mode ≡ expected_mode)
      × (w.url_safe_decode user_data ≡ some challenge)
      × ((length challenge == 0) ≡ false)
      × (nonce ≡ take 16 (w.digester.sha256 challenge))
      × (w.url_safe_decode ev.nonce ≡ some nonce)
      × (w.standard_decode ev.report ≡ some report_bytes)
      × ParsedFrom report_bytes parsed
      × Verified w parsed nonce claim
unfolding evaluate_csv challenge_to_nonce
evaluate_csv-Verified w mode user_data evidence claim h =
    let (ev, j, h1) = ok->>= (context bad_json (w.from_slice evidence)) _ h in
    let (u1, m, h2) = ok->>= (guard (bytes_eq ev.mode mode) bad_mode) _ h1 in
    let (u2, i, h3) = ok->>= (guard (is_none ev.ima_log) ima_not_supported) _ h2 in
    let (nonce, n, h4) = ok->>= (challenge_to_nonce w user_data) _ h3 in
    let (carried, c, h5) = ok->>= (context bad_base64 (w.url_safe_decode ev.nonce)) _ h4 in
    let (u3, same, h6) = ok->>= (guard (bytes_eq carried nonce) bad_nonce) _ h5 in
    let (report_bytes, b, h7) = ok->>= (context bad_base64 (w.standard_decode ev.report)) _ h6 in
    let (parsed, p, h8) = ok->>= (parse_report report_bytes) _ h7 in
    let (challenge, d, n1) = ok->>= (context bad_base64 (w.url_safe_decode user_data)) _ n in
    let (u4, there, n2) = ok->>= (guard (not (length challenge == 0)) bad_size) _ n1 in
    (
      ev,
      challenge,
      nonce,
      report_bytes,
      parsed,
      context→some (w.from_slice evidence) bad_json j,
      bytes_eq→≡ ev.mode mode (guard→true (bytes_eq ev.mode mode) bad_mode m),
      context→some (w.url_safe_decode user_data) bad_base64 d,
      not-true (length challenge == 0) (guard→true (not (length challenge == 0)) bad_size there),
      sym (ok_inj n2),
      context→some (w.url_safe_decode ev.nonce) bad_base64 c
          ∙ ap some (bytes_eq→≡ carried nonce (guard→true (bytes_eq carried nonce) bad_nonce same)),
      context→some (w.standard_decode ev.report) bad_base64 b,
      parse_report→ParsedFrom report_bytes parsed p,
      verify_parsed→Verified w ev.mode parsed nonce claim h8,
    )
