-- ===== src/Natives/Bound.antt =====
-- verifier/src/cca_native.rs and csv_native.rs: what a token and a report that are accepted satisfy.
use unified_attestation.Prelude.{
  ◌≡◌, ◌⊎◌, inl, inr, refl, sym, true, ◌||◌, Option, some, List, [], ◌∷◌,
}
use unified_attestation.Outcome.{
  ok, ok->>=, ok_inj, context, guard, bad_json, bad_token, bad_report, bad_nonce, bad_chain,
  bad_certificate, utf8, claim_untrusted,
}
use unified_attestation.Bytes.{Bytes, is_utf8}
use unified_attestation.Registers.{bytes_eq}
use unified_attestation.Registers.Verify.{bytes_eq→≡, guard→true, context→some}
use unified_attestation.Delivery.Everyone.{In}
use unified_attestation.Cbor.{trim_end}
use unified_attestation.Policy.{any_of}
use unified_attestation.Policy.Trusted.{any_of-In}
use unified_attestation.Components.{is_empty}
use unified_attestation.Natives.{
  resize, CcaToken, CcaCrate, CcaVerificationResult, cca_result, cca_verify, CsvCrate, CsvPolicy,
  CsvVerificationResult, CsvEvidence, verify_chain, hsk_cek_of, is_listed_chip, csv_result,
  csv_verify,
}

-- A CCA token that is accepted has been decoded, verified against the trust anchors and appraised
-- against the reference values; its realm is affirmed, and its challenge is the expected value.
pub cca_verify-challenge :
    (hex_encode : Bytes → Bytes) (cca : CcaCrate) (token expected_report_data : Bytes)
    (result : CcaVerificationResult)
    → cca_verify hex_encode cca token expected_report_data ≡ ok result
    → (decoded verified appraised : CcaToken) × (cca.decode token ≡ some decoded)
      × (cca.verify decoded ≡ some verified)
      × (cca.appraise verified ≡ some appraised)
      × (appraised.affirming ≡ true)
      × (appraised.challenge ≡ expected_report_data)
      × (result ≡ cca_result hex_encode appraised)
unfolding cca_verify
cca_verify-challenge hex_encode cca token expected result h =
    let (decoded, d, h1) = ok->>= (context bad_token (cca.decode token)) _ h in
    let (verified, v, h2) = ok->>= (context bad_token (cca.verify decoded)) _ h1 in
    let (appraised, a, h3) = ok->>= (context bad_token (cca.appraise verified)) _ h2 in
    let (u, passed, h4) = ok->>= (guard appraised.affirming bad_token) _ h3 in
    let (u', same, h5) = ok->>= (guard (bytes_eq expected appraised.challenge) bad_nonce) _ h4 in
    (
      decoded,
      verified,
      appraised,
      context→some _ _ d,
      context→some _ _ v,
      context→some _ _ a,
      guard→true _ bad_token passed,
      sym (bytes_eq→≡ expected appraised.challenge (guard→true _ bad_nonce same)),
      sym (ok_inj h5),
    )

-- Each key signs the next, from the root that signs itself down to the report.
pub record CsvChained (csv : CsvCrate) (report : csv.TeeInfo) (hsk cek pek : csv.Cert)
    : Type 0 where
  pub hrk : csv.Cert
  pub embedded : csv.hrk ≡ some hrk
  pub self_signed : csv.signs hrk hrk ≡ true
  pub hsk_signed : csv.signs hrk hsk ≡ true
  pub cek_signed : csv.signs hsk cek ≡ true
  pub pek_signed : csv.signs cek pek ≡ true
  pub report_signed : csv.signs_report pek report ≡ true

verify_chain→CsvChained :
    (csv : CsvCrate) (report : csv.TeeInfo) (hsk cek pek : csv.Cert)
    → verify_chain csv report hsk cek pek ≡ ok tt
    → CsvChained csv report hsk cek pek
unfolding verify_chain
verify_chain→CsvChained csv report hsk cek pek h =
    let (hrk, e, h1) = ok->>= (context bad_certificate csv.hrk) _ h in
    let (u1, s1, h2) = ok->>= (guard (csv.signs hrk hrk) bad_chain) _ h1 in
    let (u2, s2, h3) = ok->>= (guard (csv.signs hrk hsk) bad_chain) _ h2 in
    let (u3, s3, h4) = ok->>= (guard (csv.signs hsk cek) bad_chain) _ h3 in
    let (u4, s4, h5) = ok->>= (guard (csv.signs cek pek) bad_chain) _ h4 in
    record {
      hrk = hrk;
      embedded = context→some _ _ e;
      self_signed = guard→true _ bad_chain s1;
      hsk_signed = guard→true _ bad_chain s2;
      cek_signed = guard→true _ bad_chain s3;
      pek_signed = guard→true _ bad_chain s4;
      report_signed = guard→true _ bad_chain h5;
    }

In-≡ : (x y : Bytes) (xs : List Bytes) → x ≡ y → In x xs → In y xs
In-≡ x y xs e inside = rw (sym e) inside

is_listed_chip→In :
    (csv : CsvCrate) (policy : CsvPolicy) (chip_id : Bytes)
    → is_listed_chip csv policy chip_id ≡ true
    → (policy.trusted_chip_ids ≡ []) ⊎ In chip_id policy.trusted_chip_ids
unfolding is_listed_chip
is_listed_chip→In csv policy chip_id h = listed policy.trusted_chip_ids h
  where
    listed :
        (chips : List Bytes)
        → (is_empty chips || any_of (λ x. bytes_eq x chip_id) chips) ≡ true
        → (chips ≡ []) ⊎ In chip_id chips
    listed [] e = inl refl
    listed (c ∷ chips) e =
        let (t, inside, equal) = any_of-In (λ x. bytes_eq x chip_id) (c ∷ chips) e in
        inr (In-≡ t chip_id (c ∷ chips) (bytes_eq→≡ t chip_id equal) inside)

-- A CSV report that is accepted is at the end of a chain of signatures from the embedded root, the
-- two certificates between coming with the evidence or for the chip; its 64 bytes of report data
-- are the expected value, cut or filled up with zeros; and the chip is listed, if the list is not
-- empty.
pub csv_verify-CsvChained :
    (csv : CsvCrate) (hex_encode : Bytes → Bytes) (policy : CsvPolicy)
    (evidence : Option (CsvEvidence csv)) (expected_report_data : Bytes)
    (result : CsvVerificationResult)
    → csv_verify csv hex_encode policy evidence expected_report_data ≡ ok result
    → (parsed : CsvEvidence csv) × (report : csv.TeeInfo) × (certs : csv.Cert × csv.Cert)
      × (evidence ≡ some parsed)
      × (parsed.report ≡ some report)
      × (hsk_cek_of csv policy (trim_end parsed.serial_number) parsed.hsk_cek ≡ ok certs)
      × CsvChained csv report certs.0 certs.1 parsed.pek
      × (csv.report_data report ≡ resize 64 expected_report_data)
      × ((policy.trusted_chip_ids ≡ [])
          ⊎ In (trim_end parsed.serial_number) policy.trusted_chip_ids)
      × (result ≡ csv_result csv hex_encode report (trim_end parsed.serial_number))
unfolding csv_verify
csv_verify-CsvChained csv hex_encode policy evidence expected result h =
    let (parsed, p, h1) = ok->>= (context bad_json evidence) _ h in
    let (report, r, h2) = ok->>= (context bad_report parsed.report) _ h1 in
    let (u, t, h3) = ok->>= (guard (is_utf8 parsed.serial_number) utf8) _ h2 in
    let (certs, c, h4) =
      ok->>= (hsk_cek_of csv policy (trim_end parsed.serial_number) parsed.hsk_cek) _ h3 in
    let (u', chained, h5) = ok->>= (verify_chain csv report certs.0 certs.1 parsed.pek) _ h4 in
    let (u2, same, h6) =
      ok->>= (guard (bytes_eq (resize 64 expected) (csv.report_data report)) bad_nonce) _ h5 in
    let (u3, listed, h7) =
      ok->>= (guard (is_listed_chip csv policy (trim_end parsed.serial_number)) claim_untrusted) _
        h6 in
    (
      parsed,
      report,
      certs,
      context→some _ _ p,
      context→some _ _ r,
      c,
      verify_chain→CsvChained csv report certs.0 certs.1 parsed.pek chained,
      sym (bytes_eq→≡ (resize 64 expected) (csv.report_data report) (guard→true _ bad_nonce same)),
      is_listed_chip→In csv policy (trim_end parsed.serial_number)
          (guard→true _ claim_untrusted listed),
      sym (ok_inj h7),
    )
