-- ===== src/Ima/Paths.antt =====
-- evidence-verify/src/ima (virtcca.rs, itrustee.rs): which file of references is read, and which
-- register is compared.
use unified_attestation.Prelude.{
  ℕ, ◌-◌, ◌≡◌, ◌≢◌, ◌≤◌, ◌<◌, inl, inr, refl, sym, ap, ◌∙◌, Bool, true, false, ◌&&◌, ◌||◌, not,
  Option, none, some, List, [], ◌∷◌, length, get_elem?, ltb, ◌==◌, arith, Bool-cases,
}
use unified_attestation.Outcome.{
  ok, ok->>=, guard, context, expect, bad_log, bad_index, no_records, log_mismatch, io,
}
use unified_attestation.Bytes.{Bytes}
use unified_attestation.Registers.{Digester, bytes_eq}
use unified_attestation.Registers.Verify.{&&-true, guard→true, context→some, bytes_eq→≡}
use unified_attestation.Ima.{
  ImaEvent, ImaParser, RefFiles, RefPaths, Detail, app_path_of, is_ascii_hexdigit, all_of, count_of,
  is_valid_rim_hex, is_valid_uuid, get_ima_reference_file_path, check_references, virtcca_events,
  virtcca_ima_verify,
}

-- No byte of the identifier is '/' or '.'.
abbrev pub IsPlain : Bytes → Type 0
IsPlain [] = Unit
IsPlain (c ∷ cs) = ((c ≢ 47) × (c ≢ 46)) × IsPlain cs

all_of-IsPlain :
    (test : ℕ → Bool) (s : Bytes)
    → test 47 ≡ false
    → test 46 ≡ false
    → all_of test s ≡ true
    → IsPlain s
all_of-IsPlain test [] no_slash no_dot h = tt
all_of-IsPlain test (c ∷ cs) no_slash no_dot h =
    let both = &&-true _ _ h in
    (
      (
        λ e. differ (sym (ap test e ∙ no_slash) ∙ both.0),
        λ e. differ (sym (ap test e ∙ no_dot) ∙ both.0),
      ),
      all_of-IsPlain test cs no_slash no_dot both.1,
    )
  where
    differ : false ≡ true → ⊥
    differ e = cc

-- The default file, or the file in the directory of the given identifier, without '/' and '.'.
pub data InRefDir (paths : RefPaths) (given : Option Bytes) : Bytes → Type 0 where
  default_file : InRefDir paths given paths.ima_reference_file
  app_file :
      (app_id : Bytes)
      → given ≡ some app_id
      → IsPlain app_id
      → 35 < length app_id
      → length app_id < 129
      → InRefDir paths given (app_path_of paths app_id)

get_ima_reference_file_path-InRefDir :
    (is_valid : Bytes → Bool) (paths : RefPaths) (exists : Bytes → Bool) (app_id : Option Bytes)
    → ((id : Bytes) → is_valid id ≡ true → IsPlain id × ((35 < length id) × (length id < 129)))
    → InRefDir paths app_id (get_ima_reference_file_path is_valid paths exists app_id)
unfolding get_ima_reference_file_path
get_ima_reference_file_path-InRefDir is_valid paths exists none h = default_file
get_ima_reference_file_path-InRefDir is_valid paths exists (some app_id) h =
    elim (Bool-cases (is_valid app_id)) [
      | inl valid ↦ elim (Bool-cases (exists (app_path_of paths app_id))) [
        | inl there ↦
            let (plain, (low, high)) = h app_id valid in
            rw (valid, there) (app_file app_id refl plain low high)
        | inr missing ↦ rw (valid, missing) default_file
      ]
      | inr invalid ↦ rw invalid default_file
    ]

rim_hex-IsPlain :
    (id : Bytes) → is_valid_rim_hex id ≡ true → IsPlain id × ((35 < length id) × (length id < 129))
unfolding is_valid_rim_hex is_ascii_hexdigit
rim_hex-IsPlain id h =
    let both =
      &&-true (length id == 64 || (length id == 96 || length id == 128))
        (all_of is_ascii_hexdigit id) h in
    (
      all_of-IsPlain is_ascii_hexdigit id refl refl both.1,
      (ground (arith, both.0), ground (arith, both.0)),
    )

uuid-IsPlain :
    (id : Bytes) → is_valid_uuid id ≡ true → IsPlain id × ((35 < length id) × (length id < 129))
unfolding is_valid_uuid is_ascii_hexdigit
uuid-IsPlain id h =
    let allowed : ℕ → Bool = λ c. is_ascii_hexdigit c || c == 45 in
    let both = &&-true (length id == 36) (count_of 45 id == 4 && all_of allowed id) h in
    let rest = &&-true (count_of 45 id == 4) (all_of allowed id) both.1 in
    (all_of-IsPlain allowed id refl refl rest.1, (ground (arith, both.0), ground (arith, both.0)))

-- The references of an iTrustee log come out of the default file, or out of the file in the
-- directory of the given identifier, and then this has 36 to 128 bytes and neither '/' nor '.':
-- no identifier leads out of the directory.
pub get_ima_reference_file_path-is_valid_uuid :
    (paths : RefPaths) (exists : Bytes → Bool) (app_id : Option Bytes)
    → InRefDir paths app_id (get_ima_reference_file_path is_valid_uuid paths exists app_id)
get_ima_reference_file_path-is_valid_uuid paths exists app_id =
    get_ima_reference_file_path-InRefDir is_valid_uuid paths exists app_id uuid-IsPlain

module _ (h : Digester) (parser : ImaParser) (paths : RefPaths) (files : RefFiles) where
  -- What holds where the virtCCA log is accepted.
  pub record VirtccaAccepted (ima_log : Bytes) (cvm_rem : List Bytes) (app_id : Option Bytes)
      : Type 0 where
    pub events : List ImaEvent
    pub second : ImaEvent
    pub pcr_value : Bytes
    pub log_hash : Bytes
    pub parsed : parser.events ima_log ≡ some events
    pub has_second : get_elem? events 1 ≡ some second
    pub at_least_1 : 1 ≤ second.pcr_index
    pub at_most_4 : second.pcr_index ≤ 4
    pub measured : parser.pcr_sha256 ima_log second.pcr_index ≡ some pcr_value
    pub reported : get_elem? cvm_rem (second.pcr_index - 1) ≡ some log_hash
    pub same_hex : h.hex_encode pcr_value ≡ h.hex_encode log_hash
    pub ref_path : Bytes
    pub in_dir : InRefDir paths app_id ref_path
    pub refs : Bytes → Bool
    pub read : files.file_reader ref_path ≡ some refs

expect→some : {A : Type 0} (o : Option A) {a : A} → expect o ≡ ok a → o ≡ some a
expect→some none h = absurd cc
expect→some (some x) h = cc

in_range→le : (n : ℕ) → not (ltb n 1 || ltb 4 n) ≡ true → (1 ≤ n) × (n ≤ 4)
in_range→le n h = (ground arith, ground arith)

module _ {h : Digester} {parser : ImaParser} {paths : RefPaths} {files : RefFiles} where
  -- A virtCCA log that is not empty and that is accepted parses; the register of its second event
  -- is one of 1 to 4; the value of this register after the log has the same hexadecimal text as
  -- the reported one; and the references come out of the default file, or out of the file in the
  -- directory of the given identifier, which has 36 to 128 bytes and neither '/' nor '.'.
  pub virtcca_ima_verify-VirtccaAccepted :
      (b : ℕ) (ima_log : Bytes) (cvm_rem : List Bytes) (app_id : Option Bytes) (out : Detail)
      → virtcca_ima_verify h parser paths files (b ∷ ima_log) cvm_rem app_id ≡ ok out
      → VirtccaAccepted h parser paths files (b ∷ ima_log) cvm_rem app_id
  unfolding virtcca_ima_verify virtcca_events check_references
  virtcca_ima_verify-VirtccaAccepted b ima_log cvm_rem app_id out e =
      let (events, e1, m1) = ok->>= (context bad_log (parser.events (b ∷ ima_log))) _ e in
      let (u1, e2, m2) = ok->>= (guard (not (ltb (length events) 2)) no_records) _ m1 in
      let (second, e3, m3) = ok->>= (expect (get_elem? events 1)) _ m2 in
      let (u2, e4, m4) =
        ok->>= (guard (not (ltb second.pcr_index 1 || ltb 4 second.pcr_index)) bad_index) _ m3 in
      let (pcr_value, e5, m5) =
        ok->>= (expect (parser.pcr_sha256 (b ∷ ima_log) second.pcr_index)) _ m4 in
      let (log_hash, e6, m6) = ok->>= (expect (get_elem? cvm_rem (second.pcr_index - 1))) _ m5 in
      let (u3, e7, m7) =
        ok->>= (guard (bytes_eq (h.hex_encode pcr_value) (h.hex_encode log_hash)) log_mismatch) _
          m6 in
      let path = get_ima_reference_file_path is_valid_rim_hex paths files.exists app_id in
      let (refs, e8, m8) = ok->>= (context io (files.file_reader path)) _ m7 in
      let range = in_range→le second.pcr_index (guard→true _ bad_index e4) in
      record {
        events = events;
        second = second;
        pcr_value = pcr_value;
        log_hash = log_hash;
        parsed = context→some (parser.events (b ∷ ima_log)) bad_log e1;
        has_second = expect→some (get_elem? events 1) e3;
        at_least_1 = range.0;
        at_most_4 = range.1;
        measured = expect→some (parser.pcr_sha256 (b ∷ ima_log) second.pcr_index) e5;
        reported = expect→some (get_elem? cvm_rem (second.pcr_index - 1)) e6;
        same_hex = bytes_eq→≡ _ _ (guard→true _ log_mismatch e7);
        ref_path = path;
        in_dir =
            get_ima_reference_file_path-InRefDir is_valid_rim_hex paths files.exists app_id
              rim_hex-IsPlain;
        refs = refs;
        read = context→some (files.file_reader path) io e8;
      }
