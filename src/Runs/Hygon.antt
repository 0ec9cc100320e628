-- ===== src/Runs/Hygon.antt =====
-- A run of the verification of Hygon's evidence, without certificates of the chip.
use unified_attestation.Prelude.{
  ◌≡◌, refl, true, false, some, none, [], ◌∷◌, ◌++◌, take, length, ◌==◌,
}
use unified_attestation.Outcome.{ok}
use unified_attestation.Bytes.{Bytes, from_be, is_utf8}
use unified_attestation.EventLog.{from_le}
use unified_attestation.EventLog.Format.{le32}
use unified_attestation.Registers.{Digester, zeros}
use unified_attestation.Sm2.{
  Sm2, u32_at_le, slice_at, first_ecc_len_reversed, pub_key_of, signature_of, verify_signature,
  verify_sm2_digest, sm2_message_digest,
}
use unified_attestation.Csv.{
  CsvReport, HygonCsvEvidence, CsvHost, CsvClaim, parse_report, evaluate_csv, challenge_to_nonce,
  parse_fields, unmasked, xor_u32_chunks, verify_parsed, verify_session_mac_if_available,
  verify_report_signature, verify_cert_chain_if_available, chip_id_to_string, verify_loaded,
}
use unified_attestation.Csv.Sized.{IsCsvReport, parse_report-IsCsvReport}
use unified_attestation.Token.Post.{Yields}
use unified_attestation.Csv.Fields.{ParsedFrom}
use unified_attestation.Csv.Accepted.{Verified, evaluate_csv-Verified}

-- The mask is 0, the signature is (1, 1), the chip is "A".
abbrev report_bytes : Bytes
report_bytes = zeros 192 ++ ((1 ∷ zeros 71) ++ ((1 ∷ zeros 71) ++ (zeros 2084 ++ (65 ∷ zeros 127))))

abbrev one_point : Sm2
one_point = record { sm3 = λ m. zeros 32; on_curve = λ key. true; mul_x = λ s key t. some 1 }

abbrev zero_hash : Digester
zero_hash = record { sha256 = λ m. zeros 32; sha256_32 = λ m. refl; hex_encode = λ d. d }

abbrev hygon : HygonCsvEvidence
hygon = record { mode = 117 ∷ []; report = []; nonce = zeros 16; ima_log = none }

abbrev host : CsvHost
host = record {
  sm2 = one_point;
  digester = zero_hash;
  hmac_sm3 = λ key m. [];
  from_slice = λ b. some hygon;
  url_safe_decode = λ b. some b;
  standard_decode = λ b. some report_bytes;
  hsk_cek = λ chip. ok none;
}

abbrev parsed : CsvReport
parsed = record {
  raw = report_bytes;
  user_data = zeros 64;
  mnonce = zeros 16;
  measure = zeros 32;
  policy = 0;
  sig_usage = 0;
  sig_algo = 0;
  anonce = 0;
  pek_cert = zeros 2084;
  chip_id = 65 ∷ zeros 63;
  reserved2 = zeros 32;
  mac = zeros 32;
}

abbrev claim : CsvClaim
claim = record { mode = 117 ∷ []; parsed = parsed; session_mac = false; cert_chain = false }

evaluated : evaluate_csv host (117 ∷ []) (9 ∷ []) [] ≡ ok claim
unfolding evaluate_csv challenge_to_nonce parse_report parse_fields u32_at_le slice_at from_le
    unmasked xor_u32_chunks le32 verify_parsed verify_session_mac_if_available
    verify_report_signature signature_of first_ecc_len_reversed from_be pub_key_of verify_signature
    verify_sm2_digest sm2_message_digest verify_cert_chain_if_available chip_id_to_string is_utf8
    verify_loaded
evaluated = refl

evaluate_csv-Verified_example :
    (ev : HygonCsvEvidence) × (challenge nonce bytes : Bytes) × (report : CsvReport) × (some hygon
      ≡ some ev)
    × (ev.mode ≡ 117 ∷ [])
    × (some (9 ∷ []) ≡ some challenge)
    × ((length challenge == 0) ≡ false)
    × (nonce ≡ take 16 (zero_hash.sha256 challenge))
    × (some ev.nonce ≡ some nonce)
    × (host.standard_decode ev.report ≡ some bytes)
    × ParsedFrom bytes report
    × Verified host report nonce claim
evaluate_csv-Verified_example = evaluate_csv-Verified host (117 ∷ []) (9 ∷ []) [] claim evaluated

parse_report-IsCsvReport_example : Yields IsCsvReport (parse_report report_bytes)
parse_report-IsCsvReport_example = parse_report-IsCsvReport report_bytes
