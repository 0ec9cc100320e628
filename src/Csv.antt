-- ===== src/Csv.antt =====
-- evidence-verify/src/csv (mod.rs, report.rs): the evidence of Hygon CSV. Base64, JSON and the
-- search for the certificates of a chip come from outside. A text is its bytes.
pub mod Accepted
pub mod Fields
pub mod Parts
pub mod Signed
pub mod Sized
use unified_attestation.Prelude.{
  ℕ, zero, suc, ◌+◌, Bool, true, false, ◌&&◌, Option, none, some, List, [], ◌∷◌, ◌++◌, length, take,
  leb, ltb, ◌==◌, not, if◌then◌else◌,
}
use Prim.Native.Nat.{bit_xor}
use unified_attestation.Outcome.{
  Result, ok, err, ◌>>=◌, context, guard, bad_json, bad_base64, bad_size, bad_nonce, bad_mode,
  ima_not_supported, bad_mac, bad_usage, report_length, cert_length, empty_chip, utf8, bad_key,
  Error,
}
use unified_attestation.Bytes.{Bytes, is_utf8}
use unified_attestation.EventLog.{from_le}
use unified_attestation.EventLog.Format.{le32}
use unified_attestation.Registers.{bytes_eq, zeros, Digester}
use unified_attestation.Json.{ascii}
use unified_attestation.Components.{is_none}
use unified_attestation.Sm2.{
  slice_at, u32_at_le, PubKey, pub_key_of, signature_of, Sm2, verify_signature,
}

pub record CsvReport : Type 0 where
  pub raw : Bytes
  pub user_data : Bytes
  pub mnonce : Bytes
  pub measure : Bytes
  pub policy : ℕ
  pub sig_usage : ℕ
  pub sig_algo : ℕ
  pub anonce : ℕ
  pub pek_cert : Bytes
  pub chip_id : Bytes
  pub reserved2 : Bytes
  pub mac : Bytes

unfoldable pub xor_u32_chunks : ℕ → Bytes → Bytes
xor_u32_chunks key (a ∷ b ∷ c ∷ d ∷ rest) =
    le32 (bit_xor (from_le (a ∷ b ∷ c ∷ d ∷ [])) key) ++ xor_u32_chunks key rest
xor_u32_chunks key _ = []

-- A field of the report, unmasked.
unfoldable pub unmasked : ℕ → ℕ → ℕ → Bytes → Result Bytes
unmasked key offset n raw = do field ← slice_at offset n raw; ok (xor_u32_chunks key field)

-- The fields of a report of the right length.
unfoldable pub parse_fields : Bytes → Result CsvReport
parse_fields raw = do
  key ← u32_at_le raw 188
  policy_word ← u32_at_le raw 176
  usage_word ← u32_at_le raw 180
  algo_word ← u32_at_le raw 184
  user ← unmasked key 64 64 raw
  nonce ← unmasked key 128 16 raw
  measured ← unmasked key 144 32 raw
  pek ← unmasked key 336 2084 raw
  chip ← unmasked key 2420 64 raw
  reserved ← slice_at 2484 32 raw
  mac ← slice_at 2516 32 raw
  ok (record {
    raw = raw;
    user_data = user;
    mnonce = nonce;
    measure = measured;
    policy = bit_xor policy_word key;
    sig_usage = bit_xor usage_word key;
    sig_algo = bit_xor algo_word key;
    anonce = key;
    pek_cert = pek;
    chip_id = chip;
    reserved2 = reserved;
    mac = mac;
  })

unfoldable pub parse_report : Bytes → Result CsvReport
parse_report raw = if ltb (length raw) 2548 then err report_length else parse_fields (take 2548 raw)

pub record HygonCsvEvidence : Type 0 where
  pub mode : Bytes
  pub report : Bytes
  pub nonce : Bytes
  pub ima_log : Option Bytes

-- `hsk_cek` is the first candidate file that exists, or what the key server gave: none where there
-- is neither, and an error where the file cannot be read.
pub record CsvHost : Type 0 where
  pub sm2 : Sm2
  pub digester : Digester
  pub hmac_sm3 : Bytes → Bytes → Bytes
  pub from_slice : Bytes → Option HygonCsvEvidence
  pub url_safe_decode : Bytes → Option Bytes
  pub standard_decode : Bytes → Option Bytes
  pub hsk_cek : Bytes → Result (Option Bytes)

-- The fields that the verification sets; the rest are those of the report.
pub record CsvClaim : Type 0 where
  pub mode : Bytes
  pub parsed : CsvReport
  pub session_mac : Bool
  pub cert_chain : Bool

abbrev pub until_zero : Bytes → Bytes
until_zero [] = []
until_zero (zero ∷ bs) = []
until_zero (suc b ∷ bs) = suc b ∷ until_zero bs

abbrev pub all_zero : Bytes → Bool
all_zero [] = true
all_zero (b ∷ bs) = b == 0 && all_zero bs

unfoldable pub chip_id_to_string : Bytes → Result Bytes
chip_id_to_string chip_id = do
  readable ← guard (is_utf8 (until_zero chip_id)) utf8
  named ← guard (not (length (until_zero chip_id) == 0)) empty_chip
  ok (until_zero chip_id)

unfoldable pub normalize_hsk_cek_cert : Bytes → Result Bytes
normalize_hsk_cek_cert hsk_cek =
    if ltb (length hsk_cek) 2916 then err cert_length else ok (take 2916 hsk_cek)

unfoldable pub check_usage : Bytes → ℕ → ℕ → Result (Unit {0})
check_usage cert offset usage = do found ← u32_at_le cert offset; guard (found == usage) bad_usage

unfoldable pub hrk_pubkey : Bytes
hrk_pubkey =
    le32 3
    ++ ((0x2d ∷ 0xf6 ∷ 0xc2 ∷ 0x92 ∷ 0x1d ∷ 0xf2 ∷ 0xf5 ∷ 0x2a ∷ 0x50 ∷ 0x1f ∷ 0xcd ∷ 0x85 ∷ 0xe7
          ∷ 0x35 ∷ 0x09 ∷ 0xc8 ∷ 0x75 ∷ 0x3a ∷ 0x56 ∷ 0x09 ∷ 0xdb ∷ 0x02 ∷ 0xd7 ∷ 0xf3 ∷ 0x4c ∷ 0xf1
          ∷ 0xa4 ∷ 0x62 ∷ 0x4d ∷ 0xe1 ∷ 0x62 ∷ 0xbe ∷ 0x00 ∷ [])
        ++ (zeros 39
            ++ ((0x46 ∷ 0xb9 ∷ 0x1e ∷ 0xb4 ∷ 0x68 ∷ 0x4d ∷ 0x74 ∷ 0x38 ∷ 0x47 ∷ 0x88 ∷ 0xbe ∷ 0xb9
                  ∷ 0x10 ∷ 0x0c ∷ 0x64 ∷ 0x4a ∷ 0x38 ∷ 0x95 ∷ 0x4e ∷ 0x16 ∷ 0x97 ∷ 0x8b ∷ 0x4f
                  ∷ 0x58 ∷ 0x15 ∷ 0x70 ∷ 0xbb ∷ 0x57 ∷ 0x3a ∷ 0x12 ∷ 0xab ∷ 0x3b ∷ 0x00 ∷ [])
                ++ (zeros 39 ++ (13 ∷ 0 ∷ [] ++ (ascii "HYGON-SSD-HRK" ++ zeros 241))))))

module _ (w : CsvHost) where
  -- The first `signed_size` bytes of a certificate, its signature at `offset`, the issuer's key.
  unfoldable pub verify_signed : ℕ → ℕ → Bytes → Bytes → Result (Unit {0})
  verify_signed signed_size offset cert issuer_key = do
    key ← pub_key_of issuer_key
    signature_bytes ← slice_at offset 144 cert
    signature ← signature_of signature_bytes
    msg ← slice_at 0 signed_size cert
    verify_signature w.sm2 msg signature key

  unfoldable pub verify_hsk_cert : Bytes → Result (Unit {0})
  verify_hsk_cert cert = do usage ← check_usage cert 36 0x13; verify_signed 576 576 cert hrk_pubkey

  -- `sig1_usage` is 0x13 here, so that the second signature is never taken.
  unfoldable pub verify_csv_cert_with_root_issuer : Bytes → Bytes → Result (Unit {0})
  verify_csv_cert_with_root_issuer cert issuer = do
    usage ← check_usage cert 8 0x1004
    sig1 ← check_usage cert 1044 0x13
    sig2 ← check_usage cert 1564 0x1000
    issuer_key ← slice_at 64 404 issuer
    found ← u32_at_le cert 1044
    verify_signed 1044 (if found == 0x1000 then 1572 else 1052) cert issuer_key

  unfoldable pub verify_csv_cert_with_csv_issuer : Bytes → Bytes → Result (Unit {0})
  verify_csv_cert_with_csv_issuer cert issuer = do
    usage ← check_usage cert 8 0x1002
    sig1 ← check_usage cert 1044 0x1004
    issuer_key ← slice_at 16 404 issuer
    issuer_usage ← check_usage issuer 8 0x1004
    verify_signed 1044 1052 cert issuer_key

  unfoldable pub verify_loaded : Bytes → Option Bytes → Result Bool
  verify_loaded pek none = ok false
  verify_loaded pek (some found) = do
    hsk_cek ← normalize_hsk_cek_cert found
    hsk ← slice_at 0 832 hsk_cek
    cek ← slice_at 832 2084 hsk_cek
    by_root ← verify_hsk_cert hsk
    by_hsk ← verify_csv_cert_with_root_issuer cek hsk
    by_cek ← verify_csv_cert_with_csv_issuer pek cek
    ok true

  unfoldable pub verify_cert_chain_if_available : CsvReport → Result Bool
  verify_cert_chain_if_available report = do
    chip_id ← chip_id_to_string report.chip_id
    found ← w.hsk_cek chip_id
    verify_loaded report.pek_cert found

  unfoldable pub verify_session_mac_if_available : CsvReport → Result Bool
  verify_session_mac_if_available report = if all_zero report.reserved2 then ok false else (do
    input ← slice_at 336 2180 report.raw
    same ← guard (bytes_eq (w.hmac_sm3 report.mnonce input) report.mac) bad_mac
    ok true)

  unfoldable pub verify_report_signature : CsvReport → Result (Unit {0})
  verify_report_signature report = do
    msg ← slice_at 0 180 report.raw
    signature_bytes ← slice_at 192 144 report.raw
    signature ← signature_of signature_bytes
    key_bytes ← slice_at 16 404 report.pek_cert
    key ← pub_key_of key_bytes
    verify_signature w.sm2 msg signature key

  unfoldable pub challenge_to_nonce : Bytes → Result Bytes
  challenge_to_nonce user_data = do
    challenge ← context bad_base64 (w.url_safe_decode user_data)
    there ← guard (not (length challenge == 0)) bad_size
    ok (take 16 (w.digester.sha256 challenge))

  -- What is left once the report is parsed.
  unfoldable pub verify_parsed : Bytes → CsvReport → Bytes → Result CsvClaim
  verify_parsed ev_mode parsed expected_nonce = do
    bound ← guard (bytes_eq parsed.mnonce expected_nonce) bad_nonce
    mac_verified ← verify_session_mac_if_available parsed
    signed ← verify_report_signature parsed
    chain_verified ← verify_cert_chain_if_available parsed
    ok (record {
      mode = ev_mode;
      parsed = parsed;
      session_mac = mac_verified;
      cert_chain = chain_verified;
    })

  unfoldable pub evaluate_csv : Bytes → Bytes → Bytes → Result CsvClaim
  evaluate_csv expected_mode user_data evidence = do
    ev ← context bad_json (w.from_slice evidence)
    same_mode ← guard (bytes_eq ev.mode expected_mode) bad_mode
    no_ima ← guard (is_none ev.ima_log) ima_not_supported
    expected_nonce ← challenge_to_nonce user_data
    evidence_nonce ← context bad_base64 (w.url_safe_decode ev.nonce)
    same_nonce ← guard (bytes_eq evidence_nonce expected_nonce) bad_nonce
    report_bytes ← context bad_base64 (w.standard_decode ev.report)
    parsed ← parse_report report_bytes
    verify_parsed ev.mode parsed expected_nonce
