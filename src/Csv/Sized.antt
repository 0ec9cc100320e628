-- ===== src/Csv/Sized.antt =====
-- evidence-verify/src/csv/report.rs (CsvReport::parse): no report panics, and each field has its
-- size.
use unified_attestation.Prelude.{
  ℕ, zero, suc, ◌+◌, ◌*◌, ◌-◌, ◌≤◌, ◌≡◌, refl, false, [], ◌∷◌, length, take, drop, length-take,
  le→leb, ltb, Bool-cases, inl, inr, arith,
}
use unified_attestation.Outcome.{Result, ok, ◌>>=◌}
use unified_attestation.Bytes.{Bytes}
use unified_attestation.EventLog.{from_le}
use unified_attestation.EventLog.Format.{le32}
use unified_attestation.Token.Post.{Yields, >>=-Post}
use unified_attestation.Sm2.{slice_at, u32_at_le}
use unified_attestation.Csv.{CsvReport, xor_u32_chunks, unmasked, parse_fields, parse_report}

pub record IsCsvReport (report : CsvReport) : Type 0 where
  pub raw_2548 : length report.raw ≡ 2548
  pub user_data_64 : length report.user_data ≡ 64
  pub mnonce_16 : length report.mnonce ≡ 16
  pub measure_32 : length report.measure ≡ 32
  pub pek_2084 : length report.pek_cert ≡ 2084
  pub chip_64 : length report.chip_id ≡ 64
  pub reserved_32 : length report.reserved2 ≡ 32
  pub mac_32 : length report.mac ≡ 32

length-drop : (n : ℕ) (xs : Bytes) → length (drop n xs) ≡ length xs - n
length-drop zero xs = omega arith
length-drop (suc n) [] = omega arith
length-drop (suc n) (x ∷ xs) = omega (arith, length-drop n xs)

abbrev HasLength : ℕ → Bytes → Type 0
HasLength n b = length b ≡ n

slice_at-HasLength :
    (offset n : ℕ) (raw : Bytes)
    → offset + n ≤ length raw
    → Yields (HasLength n) (slice_at offset n raw)
unfolding slice_at
slice_at-HasLength offset n raw h =
    rw (le→leb (offset + n) (length raw) h)
      (length-take n (drop offset raw) (omega (arith, length-drop offset raw)))

length-xor : (key m : ℕ) (b : Bytes) → length b ≡ 4 * m → length (xor_u32_chunks key b) ≡ 4 * m
unfolding xor_u32_chunks le32
length-xor key zero [] h = refl
length-xor key (suc m) [] h = absurd (omega (arith, h))
length-xor key m (a ∷ []) h = absurd (omega (arith, h))
length-xor key m (a ∷ b ∷ []) h = absurd (omega (arith, h))
length-xor key m (a ∷ b ∷ c ∷ []) h = absurd (omega (arith, h))
length-xor key zero (a ∷ b ∷ c ∷ d ∷ rest) h = absurd (omega (arith, h))
length-xor key (suc m) (a ∷ b ∷ c ∷ d ∷ rest) h =
    omega (arith, length-xor key m rest (omega (arith, h)))

unmasked-HasLength :
    (key offset m : ℕ) (raw : Bytes)
    → offset + 4 * m ≤ length raw
    → Yields (HasLength (4 * m)) (unmasked key offset (4 * m) raw)
unfolding unmasked
unmasked-HasLength key offset m raw h =
    >>=-Post ⊥ (HasLength (4 * m)) (HasLength (4 * m)) (slice_at offset (4 * m) raw) _
      (slice_at-HasLength offset (4 * m) raw h) (λ b n. length-xor key m b n)

-- A field within the report, and what follows.
module _ (raw : Bytes) (full : length raw ≡ 2548) where
  field-Yields :
      {B : Type 0} (Q : B → Type 0) (offset n : ℕ) (f : Bytes → Result B)
      → offset + n ≤ 2548
      → ((b : Bytes) → length b ≡ n → Yields Q (f b))
      → Yields Q (slice_at offset n raw >>= f)
  field-Yields Q offset n f h next =
      >>=-Post ⊥ (HasLength n) Q (slice_at offset n raw) f
        (slice_at-HasLength offset n raw (omega (arith, full, h))) next

  word-Yields :
      {B : Type 0} (Q : B → Type 0) (offset : ℕ) (f : ℕ → Result B)
      → offset + 4 ≤ 2548
      → ((k : ℕ) → Yields Q (f k))
      → Yields Q (u32_at_le raw offset >>= f)
  unfolding u32_at_le
  word-Yields Q offset f h next =
      >>=-Post ⊥ (λ (k : ℕ). Unit {0}) Q (u32_at_le raw offset) f
        (field-Yields (λ (k : ℕ). Unit {0}) offset 4 (λ word. ok (from_le word)) h (λ b n. tt))
        (λ k _. next k)

  masked-Yields :
      {B : Type 0} (Q : B → Type 0) (key offset m : ℕ) (f : Bytes → Result B)
      → offset + 4 * m ≤ 2548
      → ((b : Bytes) → length b ≡ 4 * m → Yields Q (f b))
      → Yields Q (unmasked key offset (4 * m) raw >>= f)
  masked-Yields Q key offset m f h next =
      >>=-Post ⊥ (HasLength (4 * m)) Q (unmasked key offset (4 * m) raw) f
        (unmasked-HasLength key offset m raw (omega (arith, full, h))) next

  parse_fields-IsCsvReport : Yields IsCsvReport (parse_fields raw)
  unfolding parse_fields
  parse_fields-IsCsvReport = word-Yields IsCsvReport 188 _ (omega arith) λ key.
      word-Yields IsCsvReport 176 _ (omega arith) λ policy.
        word-Yields IsCsvReport 180 _ (omega arith) λ usage.
          word-Yields IsCsvReport 184 _ (omega arith) λ algo.
            masked-Yields IsCsvReport key 64 16 _ (omega arith) λ user u.
              masked-Yields IsCsvReport key 128 4 _ (omega arith) λ nonce n.
                masked-Yields IsCsvReport key 144 8 _ (omega arith) λ measured m.
                  masked-Yields IsCsvReport key 336 521 _ (omega arith) λ pek p.
                    masked-Yields IsCsvReport key 2420 16 _ (omega arith) λ chip c.
                      field-Yields IsCsvReport 2484 32 _ (omega arith) λ reserved r.
                        field-Yields IsCsvReport 2516 32 _ (omega arith) λ mac a. record {
                          raw_2548 = full;
                          user_data_64 = u;
                          mnonce_16 = n;
                          measure_32 = m;
                          pek_2084 = p;
                          chip_64 = c;
                          reserved_32 = r;
                          mac_32 = a;
                        }

-- Whatever bytes are given, a CSV report is parsed or refused without a panic, and each field of
-- one that is parsed has its size.
pub parse_report-IsCsvReport : (raw : Bytes) → Yields IsCsvReport (parse_report raw)
unfolding parse_report
parse_report-IsCsvReport raw = elim (Bool-cases (ltb (length raw) 2548)) [
  | inl short ↦ rw short tt
  | inr enough ↦ rw enough (
      parse_fields-IsCsvReport (take 2548 raw)
        (length-take 2548 raw (not_short (length raw) enough)))
]
  where
    not_short : (n : ℕ) → ltb n 2548 ≡ false → 2548 ≤ n
    not_short n h = ground arith
