-- ===== src/Runs/Measured.antt =====
-- Runs of the verification of an IMA log.
use unified_attestation.Prelude.{
  ◌≡◌, refl, Bool, true, false, ◌==◌, some, none, List, [], ◌∷◌, length,
}
use unified_attestation.Outcome.{ok}
use unified_attestation.Bytes.{Bytes}
use unified_attestation.Registers.{Digester, zeros}
use unified_attestation.Ima.{
  ImaEvent, ima_ng, ImaParser, RefFiles, RefPaths, Detail, flag_of, boot_aggregate, data_list,
  verify_loop, verify_ima_events, virtcca_ima_verify, virtcca_events, check_references,
  get_ima_reference_file_path, is_valid_uuid, insert_flag,
}
use unified_attestation.Ima.Flags.{last_flag, verify_ima_events-last_flag}
use unified_attestation.Ima.Paths.{
  InRefDir, VirtccaAccepted, get_ima_reference_file_path-is_valid_uuid,
  virtcca_ima_verify-VirtccaAccepted,
}

abbrev plain_hex : Digester
plain_hex = record { sha256 = λ m. length m ∷ zeros 31; sha256_32 = λ m. refl; hex_encode = λ d. d }

-- One file twice, first with a digest that is no reference.
abbrev measured : List ImaEvent
measured =
    record { pcr_index = 4; data_of = ima_ng (1 ∷ []) boot_aggregate }
    ∷ record { pcr_index = 4; data_of = ima_ng (2 ∷ []) (97 ∷ []) }
    ∷ record { pcr_index = 4; data_of = ima_ng (3 ∷ []) (97 ∷ []) }
    ∷ []

abbrev three_known : Bytes → Bool
three_known [] = false
three_known (c ∷ cs) = c == 3

abbrev measured_detail : Detail
measured_detail = (97 ∷ [], true) ∷ []

measured_verified : verify_ima_events plain_hex measured three_known ≡ ok measured_detail
unfolding verify_ima_events verify_loop insert_flag
measured_verified = refl

verify_ima_events-last_flag_example :
    flag_of (97 ∷ []) measured_detail
    ≡ last_flag plain_hex three_known (97 ∷ []) (data_list measured)
verify_ima_events-last_flag_example =
    verify_ima_events-last_flag plain_hex three_known (97 ∷ []) measured measured_detail
      measured_verified

abbrev one_log : ImaParser
one_log = record { events = λ ima_log. some measured; pcr_sha256 = λ ima_log i. some (7 ∷ []) }

abbrev ref_paths : RefPaths
ref_paths = record { ima_base_dir = 47 ∷ 101 ∷ []; ima_reference_file = 47 ∷ 102 ∷ [] }

abbrev ref_files : RefFiles
ref_files = record { exists = λ path. true; file_reader = λ path. some three_known }

abbrev rems : List Bytes
rems = [] ∷ [] ∷ [] ∷ (7 ∷ []) ∷ []

log_measured :
    virtcca_ima_verify plain_hex one_log ref_paths ref_files (1 ∷ []) rems none ≡ ok measured_detail
unfolding virtcca_ima_verify virtcca_events check_references verify_ima_events verify_loop
    insert_flag
log_measured = refl

virtcca_ima_verify-VirtccaAccepted_example :
    VirtccaAccepted plain_hex one_log ref_paths ref_files (1 ∷ []) rems none
virtcca_ima_verify-VirtccaAccepted_example =
    virtcca_ima_verify-VirtccaAccepted 1 [] rems none measured_detail log_measured

abbrev all_exist : Bytes → Bool
all_exist path = true

get_ima_reference_file_path-is_valid_uuid_example :
    InRefDir ref_paths
      (some (46 ∷ 46 ∷ []))
      (get_ima_reference_file_path is_valid_uuid ref_paths all_exist (some (46 ∷ 46 ∷ [])))
get_ima_reference_file_path-is_valid_uuid_example =
    get_ima_reference_file_path-is_valid_uuid ref_paths all_exist (some (46 ∷ 46 ∷ []))
