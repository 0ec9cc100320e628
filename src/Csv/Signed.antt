-- ===== src/Csv/Signed.antt =====
-- evidence-verify/src/csv (mod.rs, sm2.rs): what a signature that verifies says of the bytes that
-- are signed, of the signature's bytes and of the key's.
use unified_attestation.Prelude.{
  ℕ, ◌+◌, ◌*◌, ◌/◌, ◌%◌, ◌≤◌, ◌≡◌, inl, inr, sym, ap, ◌∙◌, Bool, true, false, ◌&&◌, some, ◌∷◌, ◌++◌,
  length, take, ltb, ◌==◌, ==_iff, not, Bool-cases, refl, arith,
}
use unified_attestation.Outcome.{
  ok, ok->>=, ok_inj, context, guard, bad_signature, bad_key, bad_usage,
}
use unified_attestation.Bytes.{Bytes, from_be}
use unified_attestation.EventLog.{from_le}
use unified_attestation.Registers.Verify.{&&-true, guard→true, context→some}
use unified_attestation.Sm2.{
  slice_at, u32_at_le, PubKey, pub_key_of, signature_of, Sm2, sm2_curve, sm2_order, in_range,
  sm2_message_digest, verify_sm2_digest, verify_signature,
}
use unified_attestation.Csv.{
  CsvReport, CsvHost, check_usage, hrk_pubkey, verify_signed, verify_hsk_cert,
  verify_csv_cert_with_root_issuer, verify_csv_cert_with_csv_issuer, verify_report_signature,
}
use unified_attestation.Csv.Parts.{part, slice_at→part, KeyIn, pub_key_of→KeyIn, signature_of→r_s}

-- The equation of SM2, for numbers within the order of the group: the hash of the message stands
-- behind the hash of the user, the curve and the key.
pub record Sm2Signed (c : Sm2) (msg : Bytes) (r s : ℕ) (key : PubKey) : Type 0 where
  pub on_curve : c.on_curve key ≡ true
  pub r_range : ((r == 0) ≡ false) × (ltb r sm2_order ≡ true)
  pub s_range : ((s == 0) ≡ false) × (ltb s sm2_order ≡ true)
  pub t_nonzero : ((r + s) % sm2_order == 0) ≡ false
  pub x : ℕ
  pub x_of : c.mul_x s key ((r + s) % sm2_order) ≡ some x
  pub equal :
      (from_be 0 (
            c.sm3 (
              c.sm3 (
                length key.user_id * 8 / 256 % 256
                ∷ length key.user_id * 8 % 256
                ∷ (key.user_id ++ (sm2_curve ++ (key.qx ++ key.qy))))
              ++ msg))
          + x)
        % sm2_order
      ≡ r

pub not-true : (b : Bool) → not b ≡ true → b ≡ false
not-true true h = absurd cc
not-true false h = refl

in_range→ : (n : ℕ) → in_range n ≡ true → ((n == 0) ≡ false) × (ltb n sm2_order ≡ true)
in_range→ n h =
    let both = &&-true (not (n == 0)) (ltb n sm2_order) h in (not-true (n == 0) both.0, both.1)

verify_signature→Sm2Signed :
    (c : Sm2) (msg : Bytes) (r s : ℕ) (key : PubKey)
    → verify_signature c msg (r, s) key ≡ ok tt
    → Sm2Signed c msg r s key
unfolding verify_signature verify_sm2_digest sm2_message_digest
verify_signature→Sm2Signed c msg r s key h =
    let (u, curve, h1) = ok->>= (guard (c.on_curve key) bad_key) _ h in
    let (verified, v, h2) =
      ok->>= (verify_sm2_digest c key (sm2_message_digest c msg key) r s) _ h1 in
    let yes_verified = guard→true verified bad_signature h2 in
    elim (Bool-cases (in_range r && (in_range s && not ((r + s) % sm2_order == 0)))) [
      | inr outside ↦ let left = ok_inj (rw outside at v) in absurd cc
      | inl inside ↦
          let (x, m, e) =
            ok->>= (context bad_key (c.mul_x s key ((r + s) % sm2_order))) _ (rw inside at v) in
          let ranges = &&-true (in_range r) _ inside in
          let rest = &&-true (in_range s) _ ranges.1 in
          record {
            on_curve = guard→true (c.on_curve key) bad_key curve;
            r_range = in_range→ r ranges.0;
            s_range = in_range→ s rest.0;
            t_nonzero = not-true ((r + s) % sm2_order == 0) rest.1;
            x = x;
            x_of = context→some _ bad_key m;
            equal =
                (==_iff ((from_be 0 (sm2_message_digest c msg key) + x) % sm2_order) r).0
                  (ok_inj e ∙ yes_verified);
          }
    ]

-- The first `signed_size` bytes of `raw` are signed with the key in `key_bytes`: the signature's
-- two numbers stand in `raw`, the least byte first, at `offset` and 72 bytes later.
pub record SignedBy (c : Sm2) (signed_size offset : ℕ) (raw key_bytes : Bytes) : Type 0 where
  pub long_enough : (offset + 144 ≤ length raw) × (signed_size ≤ length raw)
  pub key : PubKey
  pub key_in : KeyIn key_bytes key
  pub signed :
      Sm2Signed c
        (take signed_size raw)
        (from_le (part offset 32 raw))
        (from_le (part (offset + 72) 32 raw))
        key

module _ (w : CsvHost) where
  signature→SignedBy :
      (signed_size offset r s : ℕ) (raw key_bytes signature_bytes msg : Bytes) (key : PubKey)
      → pub_key_of key_bytes ≡ ok key
      → slice_at offset 144 raw ≡ ok signature_bytes
      → signature_of signature_bytes ≡ ok (r, s)
      → slice_at 0 signed_size raw ≡ ok msg
      → verify_signature w.sm2 msg (r, s) key ≡ ok tt
      → SignedBy w.sm2 signed_size offset raw key_bytes
  signature→SignedBy size offset r s raw key_bytes bytes msg key k b rs m h =
      let (r_is, s_is) = signature_of→r_s offset raw bytes r s b rs in
      let (msg_fits, msg_is) = slice_at→part 0 size raw msg m in
      record {
        long_enough = ((slice_at→part offset 144 raw bytes b).0, omega (arith, msg_fits));
        key = key;
        key_in = pub_key_of→KeyIn key_bytes key k;
        signed =
            rw (sym r_is, sym s_is, sym msg_is) (verify_signature→Sm2Signed w.sm2 msg r s key h);
      }

  verify_signed→SignedBy :
      (signed_size offset : ℕ) (cert issuer_key : Bytes)
      → verify_signed w signed_size offset cert issuer_key ≡ ok tt
      → SignedBy w.sm2 signed_size offset cert issuer_key
  unfolding verify_signed
  verify_signed→SignedBy size offset cert issuer_key h =
      let (key, k, h1) = ok->>= (pub_key_of issuer_key) _ h in
      let (bytes, b, h2) = ok->>= (slice_at offset 144 cert) _ h1 in
      let (signature, s, h3) = ok->>= (signature_of bytes) _ h2 in
      let (msg, m, h4) = ok->>= (slice_at 0 size cert) _ h3 in
      signature→SignedBy size offset signature.0 signature.1 cert issuer_key bytes msg key k b s m
        h4

  -- The first 180 bytes of the report, signed with the key of the certificate in it.
  abbrev pub ReportSigned : CsvReport → Type 0
  ReportSigned report = SignedBy w.sm2 180 192 report.raw (part 16 404 report.pek_cert)

  pub verify_report_signature→ReportSigned :
      (report : CsvReport) → verify_report_signature w report ≡ ok tt → ReportSigned report
  unfolding verify_report_signature
  verify_report_signature→ReportSigned report h =
      let (msg, m, h1) = ok->>= (slice_at 0 180 report.raw) _ h in
      let (bytes, b, h2) = ok->>= (slice_at 192 144 report.raw) _ h1 in
      let (signature, s, h3) = ok->>= (signature_of bytes) _ h2 in
      let (key_bytes, k, h4) = ok->>= (slice_at 16 404 report.pek_cert) _ h3 in
      let (key, o, h5) = ok->>= (pub_key_of key_bytes) _ h4 in
      rw (slice_at→part 16 404 report.pek_cert key_bytes k).1 at (
        signature→SignedBy 180 192 signature.0 signature.1 report.raw key_bytes bytes msg key o b s
          m h5)

  check_usage→usage :
      (cert : Bytes) (offset usage : ℕ)
      → check_usage cert offset usage ≡ ok tt
      → (u32_at_le cert offset ≡ ok usage) × (from_le (part offset 4 cert) ≡ usage)
  unfolding check_usage u32_at_le
  check_usage→usage cert offset usage h =
      let (found, f, h1) = ok->>= (u32_at_le cert offset) _ h in
      let (word, e, h2) = ok->>= (slice_at offset 4 cert) _ f in
      let same : found ≡ usage = (==_iff found usage).0 (guard→true _ bad_usage h1) in
      (f ∙ ap ok same, ap from_le (sym (slice_at→part offset 4 cert word e).1) ∙ (ok_inj h2 ∙ same))

  -- The three certificates: the root's, which signs `hsk`; `cek`, which `hsk` signs; and `pek`,
  -- which `cek` signs. The numbers are the usages of the keys and of the signatures.
  pub record CertsSigned (hsk cek pek : Bytes) : Type 0 where
    pub hsk_usage : from_le (part 36 4 hsk) ≡ 0x13
    pub by_root : SignedBy w.sm2 576 576 hsk hrk_pubkey
    pub cek_usage : from_le (part 8 4 cek) ≡ 0x1004
    pub cek_sig1_usage : from_le (part 1044 4 cek) ≡ 0x13
    pub cek_sig2_usage : from_le (part 1564 4 cek) ≡ 0x1000
    pub by_hsk : SignedBy w.sm2 1044 1052 cek (part 64 404 hsk)
    pub pek_usage : from_le (part 8 4 pek) ≡ 0x1002
    pub pek_sig1_usage : from_le (part 1044 4 pek) ≡ 0x1004
    pub by_cek : SignedBy w.sm2 1044 1052 pek (part 16 404 cek)

  pub certs→CertsSigned :
      (hsk cek pek : Bytes)
      → verify_hsk_cert w hsk ≡ ok tt
      → verify_csv_cert_with_root_issuer w cek hsk ≡ ok tt
      → verify_csv_cert_with_csv_issuer w pek cek ≡ ok tt
      → CertsSigned hsk cek pek
  unfolding verify_hsk_cert verify_csv_cert_with_root_issuer verify_csv_cert_with_csv_issuer
  certs→CertsSigned hsk cek pek root sub last =
      let (a1, a2, a3) = ok->>= (check_usage hsk 36 0x13) _ root in
      let (b1, b2, b3) = ok->>= (check_usage cek 8 0x1004) _ sub in
      let (c1, c2, c3) = ok->>= (check_usage cek 1044 0x13) _ b3 in
      let (d1, d2, d3) = ok->>= (check_usage cek 1564 0x1000) _ c3 in
      let (hsk_key, k, e) = ok->>= (slice_at 64 404 hsk) _ d3 in
      let (found, f, by_hsk) = ok->>= (u32_at_le cek 1044) _ e in
      let found_is : found ≡ 0x13 = ok_inj (sym f ∙ (check_usage→usage cek 1044 0x13 c2).0) in
      let (g1, g2, g3) = ok->>= (check_usage pek 8 0x1002) _ last in
      let (i1, i2, i3) = ok->>= (check_usage pek 1044 0x1004) _ g3 in
      let (cek_key, l, j) = ok->>= (slice_at 16 404 cek) _ i3 in
      let (n1, n2, by_cek) = ok->>= (check_usage cek 8 0x1004) _ j in
      record {
        hsk_usage = (check_usage→usage hsk 36 0x13 a2).1;
        by_root = verify_signed→SignedBy 576 576 hsk hrk_pubkey a3;
        cek_usage = (check_usage→usage cek 8 0x1004 b2).1;
        cek_sig1_usage = (check_usage→usage cek 1044 0x13 c2).1;
        cek_sig2_usage = (check_usage→usage cek 1564 0x1000 d2).1;
        by_hsk =
            rw (slice_at→part 64 404 hsk hsk_key k).1 at
              (verify_signed→SignedBy 1044 1052 cek hsk_key (rw found_is at by_hsk));
        pek_usage = (check_usage→usage pek 8 0x1002 g2).1;
        pek_sig1_usage = (check_usage→usage pek 1044 0x1004 i2).1;
        by_cek =
            rw (slice_at→part 16 404 cek cek_key l).1 at
              (verify_signed→SignedBy 1044 1052 pek cek_key by_cek);
      }
