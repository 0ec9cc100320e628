-- ===== src/Csv/Fields.antt =====
-- evidence-verify/src/csv/report.rs (CsvReport::parse): where the fields of a report come from.
use unified_attestation.Prelude.{
  ℕ, ◌≡◌, inl, inr, refl, sym, ap, ◌∙◌, length, take, ltb, Bool-cases,
}
use Prim.Native.Nat.{bit_xor}
use unified_attestation.Outcome.{Result, ok, ok->>=, ok_inj}
use unified_attestation.Bytes.{Bytes}
use unified_attestation.EventLog.{from_le}
use unified_attestation.Sm2.{slice_at, u32_at_le}
use unified_attestation.Csv.{CsvReport, xor_u32_chunks, unmasked, parse_fields, parse_report}
use unified_attestation.Csv.Parts.{part, slice_at→part}

-- The first 2548 bytes are kept. The data, the measurement, the nonce, the certificate and the chip
-- are masked with the number at byte 188; the MAC is not.
pub record ParsedFrom (report_bytes : Bytes) (report : CsvReport) : Type 0 where
  pub raw_is : report.raw ≡ take 2548 report_bytes
  pub anonce_is : report.anonce ≡ from_le (part 188 4 report.raw)
  pub user_data_is : report.user_data ≡ xor_u32_chunks report.anonce (part 64 64 report.raw)
  pub measure_is : report.measure ≡ xor_u32_chunks report.anonce (part 144 32 report.raw)
  pub mnonce_is : report.mnonce ≡ xor_u32_chunks report.anonce (part 128 16 report.raw)
  pub pek_cert_is : report.pek_cert ≡ xor_u32_chunks report.anonce (part 336 2084 report.raw)
  pub chip_id_is : report.chip_id ≡ xor_u32_chunks report.anonce (part 2420 64 report.raw)
  pub reserved2_is : report.reserved2 ≡ part 2484 32 report.raw
  pub mac_is : report.mac ≡ part 2516 32 report.raw

unmasked→xor :
    (key offset n : ℕ) (raw out : Bytes)
    → unmasked key offset n raw ≡ ok out
    → out ≡ xor_u32_chunks key (part offset n raw)
unfolding unmasked
unmasked→xor key offset n raw out h =
    let (field, f, h1) = ok->>= (slice_at offset n raw) _ h in
    sym (ok_inj h1) ∙ ap (xor_u32_chunks key) (slice_at→part offset n raw field f).1

u32_at_le→from_le :
    (raw : Bytes) (offset n : ℕ) → u32_at_le raw offset ≡ ok n → n ≡ from_le (part offset 4 raw)
unfolding u32_at_le
u32_at_le→from_le raw offset n h =
    let (word, f, h1) = ok->>= (slice_at offset 4 raw) _ h in
    sym (ok_inj h1) ∙ ap from_le (slice_at→part offset 4 raw word f).1

-- The steps of the parser, each with its value.
record Steps (raw : Bytes) (report : CsvReport) : Type 0 where
  pub key : ℕ
  pub policy : ℕ
  pub usage : ℕ
  pub algo : ℕ
  pub user : Bytes
  pub nonce : Bytes
  pub measured : Bytes
  pub pek : Bytes
  pub chip : Bytes
  pub reserved : Bytes
  pub mac : Bytes
  pub key_of : u32_at_le raw 188 ≡ ok key
  pub user_of : unmasked key 64 64 raw ≡ ok user
  pub measured_of : unmasked key 144 32 raw ≡ ok measured
  pub nonce_of : unmasked key 128 16 raw ≡ ok nonce
  pub pek_of : unmasked key 336 2084 raw ≡ ok pek
  pub chip_of : unmasked key 2420 64 raw ≡ ok chip
  pub reserved_of : slice_at 2484 32 raw ≡ ok reserved
  pub mac_of : slice_at 2516 32 raw ≡ ok mac
  pub made :
      ◌≡◌ {A = Result CsvReport}
        (ok (record {
          raw = raw;
          user_data = user;
          mnonce = nonce;
          measure = measured;
          policy = bit_xor policy key;
          sig_usage = bit_xor usage key;
          sig_algo = bit_xor algo key;
          anonce = key;
          pek_cert = pek;
          chip_id = chip;
          reserved2 = reserved;
          mac = mac;
        }))
        (ok report)

parse_fields→Steps :
    (raw : Bytes) (report : CsvReport) → parse_fields raw ≡ ok report → Steps raw report
unfolding parse_fields
parse_fields→Steps raw report h =
    let (key, e1, h1) = ok->>= (u32_at_le raw 188) _ h in
    let (policy, e2, h2) = ok->>= (u32_at_le raw 176) _ h1 in
    let (usage, e3, h3) = ok->>= (u32_at_le raw 180) _ h2 in
    let (algo, e4, h4) = ok->>= (u32_at_le raw 184) _ h3 in
    let (user, e5, h5) = ok->>= (unmasked key 64 64 raw) _ h4 in
    let (nonce, e6, h6) = ok->>= (unmasked key 128 16 raw) _ h5 in
    let (measured, e7, h7) = ok->>= (unmasked key 144 32 raw) _ h6 in
    let (pek, e8, h8) = ok->>= (unmasked key 336 2084 raw) _ h7 in
    let (chip, e9, h9) = ok->>= (unmasked key 2420 64 raw) _ h8 in
    let (reserved, e10, h10) = ok->>= (slice_at 2484 32 raw) _ h9 in
    let (mac, e11, h11) = ok->>= (slice_at 2516 32 raw) _ h10 in
    record {
      key = key;
      policy = policy;
      usage = usage;
      algo = algo;
      user = user;
      nonce = nonce;
      measured = measured;
      pek = pek;
      chip = chip;
      reserved = reserved;
      mac = mac;
      key_of = e1;
      user_of = e5;
      measured_of = e7;
      nonce_of = e6;
      pek_of = e8;
      chip_of = e9;
      reserved_of = e10;
      mac_of = e11;
      made = h11;
    }

Steps→ParsedFrom :
    (report_bytes raw : Bytes) (report : CsvReport)
    → raw ≡ take 2548 report_bytes
    → Steps raw report
    → ParsedFrom report_bytes report
Steps→ParsedFrom report_bytes raw report cut s =
    let same = ok_inj s.made in
    let raw_is : raw ≡ report.raw = ap (λ r. r.raw) same in
    let key_is : s.key ≡ report.anonce = ap (λ r. r.anonce) same in
    let unmasked_is : (offset n : ℕ)
        → xor_u32_chunks s.key (part offset n raw)
          ≡ xor_u32_chunks report.anonce (part offset n report.raw) =
      λ offset n.
        ap (λ k. xor_u32_chunks k (part offset n raw)) key_is
        ∙ ap (λ b. xor_u32_chunks report.anonce (part offset n b)) raw_is in
    record {
      raw_is = sym raw_is ∙ cut;
      anonce_is =
          sym key_is
          ∙ (u32_at_le→from_le raw 188 s.key s.key_of ∙ ap (λ b. from_le (part 188 4 b)) raw_is);
      user_data_is =
          sym (ap (λ r. r.user_data) same)
          ∙ (unmasked→xor s.key 64 64 raw s.user s.user_of ∙ unmasked_is 64 64);
      measure_is =
          sym (ap (λ r. r.measure) same)
          ∙ (unmasked→xor s.key 144 32 raw s.measured s.measured_of ∙ unmasked_is 144 32);
      mnonce_is =
          sym (ap (λ r. r.mnonce) same)
          ∙ (unmasked→xor s.key 128 16 raw s.nonce s.nonce_of ∙ unmasked_is 128 16);
      pek_cert_is =
          sym (ap (λ r. r.pek_cert) same)
          ∙ (unmasked→xor s.key 336 2084 raw s.pek s.pek_of ∙ unmasked_is 336 2084);
      chip_id_is =
          sym (ap (λ r. r.chip_id) same)
          ∙ (unmasked→xor s.key 2420 64 raw s.chip s.chip_of ∙ unmasked_is 2420 64);
      reserved2_is =
          sym (ap (λ r. r.reserved2) same)
          ∙ ((slice_at→part 2484 32 raw s.reserved s.reserved_of).1 ∙ ap (part 2484 32) raw_is);
      mac_is =
          sym (ap (λ r. r.mac) same)
          ∙ ((slice_at→part 2516 32 raw s.mac s.mac_of).1 ∙ ap (part 2516 32) raw_is);
    }

pub parse_report→ParsedFrom :
    (report_bytes : Bytes) (report : CsvReport)
    → parse_report report_bytes ≡ ok report
    → ParsedFrom report_bytes report
unfolding parse_report
parse_report→ParsedFrom report_bytes report h = elim (Bool-cases (ltb (length report_bytes) 2548)) [
  | inl short ↦ absurd (cc (rw short at h))
  | inr enough ↦
      Steps→ParsedFrom report_bytes (take 2548 report_bytes) report refl
        (parse_fields→Steps (take 2548 report_bytes) report (rw enough at h))
]
