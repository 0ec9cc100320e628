-- ===== src/Token/Platform.antt =====
-- evidence-verify/src/virtcca/ccatoken.rs: the sizes of the fields of a PlatformToken, and the
-- tokens whose copies panic.
use unified_attestation.Prelude.{ℕ, ◌≡◌, refl, ap, some, List, [], ◌∷◌, ◌++◌, length, arith}
use unified_attestation.Outcome.{Result, ok, err, panic, ◌>>=◌, ok->>=, ok_inj, not_integer, Error}
use unified_attestation.Bytes.{Bytes}
use unified_attestation.EventLog.Format.{AllOf}
use unified_attestation.Cbor.{
  ℤ, pos, Value, integer, bytes, map_of, Entries, end, entry, of_size, get_vec, get_num, get_array,
  set_entries,
}
use unified_attestation.Token.{
  SwComp, PlatformToken, new_sw_comp, new_platform_token, clone_from_slice, SwLabel, sw_type,
  sw_version, sw_measurement, sw_signer, sw_algo, sw_label, set_sw, set_sw_entry, decode_sw_comp,
  PlatformLabel, profile_label, challenge_label, implementation_label, instance_label, config_label,
  lifestyle_label, sw_components_label, verification_service_label, hash_algo_label, platform_label,
  push_sw_comps, set_platform, set_platform_entry, platform_of, Cbor, decode_platform_token,
}
use unified_attestation.Token.Post.{
  Post, >>=-Post, set_entries-Post, label-Post, get_num-Post, get_array-Post, copied-Post,
  string-Post,
}

pub record IsSwComp (sw_comp : SwComp) : Type 0 where
  pub measurement_32 : length sw_comp.measurement ≡ 32
  pub no_signer : sw_comp.signer ≡ []

pub record IsPlatformToken (token : PlatformToken) : Type 0 where
  pub challenge_32 : length token.challenge ≡ 32
  pub implementation_32 : length token.implementation ≡ 32
  pub instance_33 : length token.instance_id ≡ 33
  pub no_config : token.config ≡ []
  pub comps_sized : AllOf IsSwComp token.sw_components

empty_length : (b : Bytes) → length b ≡ 0 → b ≡ []
empty_length [] h = refl
empty_length (x ∷ b) h = absurd (omega (arith, h))

clone_from_slice-panic :
    (old : Bytes) (b : ℕ) (bs : Bytes) → old ≡ [] → clone_from_slice old (b ∷ bs) ≡ panic
unfolding clone_from_slice
clone_from_slice-panic old b bs e = rw e (ground arith)

clone_from_slice-empty : (old : Bytes) → old ≡ [] → clone_from_slice old [] ≡ ok []
unfolding clone_from_slice
clone_from_slice-empty old e = rw e refl

-- An array that is empty takes no bytes: the copy succeeds only where there are none.
empty-Post :
    {B : Type 0} (Q : B → Type 0) (v : Value) (old : Bytes) (f : Bytes → Result B)
    → old ≡ []
    → Post (Unit {0}) Q (f [])
    → Post (Unit {0}) Q (get_vec v [] >>= λ tmp. clone_from_slice old tmp >>= f)
unfolding get_vec of_size
empty-Post Q (bytes []) old f e next = rw (clone_from_slice-empty old e) next
empty-Post Q (bytes (b ∷ bs)) old f e next = rw (clone_from_slice-panic old b bs e) tt
empty-Post Q _ old f e next = tt

set_sw-IsSwComp :
    (label : SwLabel) (v : Value) (c : SwComp)
    → IsSwComp c
    → Post (Unit {0}) IsSwComp (set_sw label v c)
unfolding set_sw
set_sw-IsSwComp sw_type v c h = string-Post Unit IsSwComp v _ (λ b. ground arith)
set_sw-IsSwComp sw_version v c h = string-Post Unit IsSwComp v _ (λ b. ground arith)
set_sw-IsSwComp sw_measurement v c h =
    copied-Post Unit IsSwComp v c.measurement 32 _ h.measurement_32 (λ b n. ground arith)
set_sw-IsSwComp sw_signer v c h = empty-Post IsSwComp v c.signer _ h.no_signer (ground arith)
set_sw-IsSwComp sw_algo v c h = string-Post Unit IsSwComp v _ (λ b. ground arith)

set_sw_entry-IsSwComp :
    (i : ℤ) (v : Value) (c : SwComp) → IsSwComp c → Post (Unit {0}) IsSwComp (set_sw_entry i v c)
unfolding set_sw_entry
set_sw_entry-IsSwComp i v c h =
    label-Post Unit IsSwComp (sw_label i) _ (λ label. set_sw-IsSwComp label v c h)

decode_sw_comp-IsSwComp : (v : Value) → Post (Unit {0}) IsSwComp (decode_sw_comp v)
unfolding decode_sw_comp
decode_sw_comp-IsSwComp (map_of contents) =
    set_entries-Post Unit IsSwComp set_sw_entry not_integer set_sw_entry-IsSwComp contents
      new_sw_comp (record { measurement_32 = refl; no_signer = refl })
decode_sw_comp-IsSwComp _ = tt

AllOf-append :
    {A : Type 0} (P : A → Type 0) (xs : List A) (y : A)
    → AllOf P xs
    → P y
    → AllOf P (xs ++ (y ∷ []))
AllOf-append P [] y h p = (p, tt)
AllOf-append P (x ∷ xs) y h p = (h.0, AllOf-append P xs y h.1 p)

push_sw_comps-IsSwComp :
    (vs : List Value) (comps : List SwComp)
    → AllOf IsSwComp comps
    → Post (Unit {0}) (AllOf IsSwComp) (push_sw_comps vs comps)
unfolding push_sw_comps
push_sw_comps-IsSwComp [] comps h = h
push_sw_comps-IsSwComp (v ∷ vs) comps h =
    >>=-Post Unit IsSwComp (AllOf IsSwComp) (decode_sw_comp v) _ (decode_sw_comp-IsSwComp v)
      (λ c sized.
        push_sw_comps-IsSwComp vs (comps ++ (c ∷ [])) (AllOf-append IsSwComp comps c h sized))

set_platform-IsPlatformToken :
    (label : PlatformLabel) (v : Value) (token : PlatformToken)
    → IsPlatformToken token
    → Post (Unit {0}) IsPlatformToken (set_platform label v token)
unfolding set_platform
set_platform-IsPlatformToken profile_label v token h =
    string-Post Unit IsPlatformToken v _ (λ b. ground arith)
set_platform-IsPlatformToken challenge_label v token h =
    copied-Post Unit IsPlatformToken v token.challenge 32 _ h.challenge_32 (λ b n. ground arith)
set_platform-IsPlatformToken implementation_label v token h =
    copied-Post Unit IsPlatformToken v token.implementation 32 _ h.implementation_32
      (λ b n. ground arith)
set_platform-IsPlatformToken instance_label v token h =
    copied-Post Unit IsPlatformToken v token.instance_id 33 _ h.instance_33 (λ b n. ground arith)
set_platform-IsPlatformToken config_label v token h =
    empty-Post IsPlatformToken v token.config _ h.no_config (ground arith)
set_platform-IsPlatformToken lifestyle_label v token h =
    >>=-Post Unit (λ (n : ℤ). Unit {0}) IsPlatformToken (get_num v) _ (get_num-Post Unit v)
      (λ n _. ground arith)
set_platform-IsPlatformToken sw_components_label v token h =
    >>=-Post Unit (λ vs. length vs ≡ 6) IsPlatformToken (get_array v 6) _ (get_array-Post Unit v 6)
      (λ vs n.
        >>=-Post Unit (AllOf IsSwComp) IsPlatformToken (push_sw_comps vs token.sw_components) _
          (push_sw_comps-IsSwComp vs token.sw_components h.comps_sized)
          (λ comps sized. ground arith))
set_platform-IsPlatformToken verification_service_label v token h =
    string-Post Unit IsPlatformToken v _ (λ b. ground arith)
set_platform-IsPlatformToken hash_algo_label v token h =
    string-Post Unit IsPlatformToken v _ (λ b. ground arith)

set_platform_entry-IsPlatformToken :
    (i : ℤ) (v : Value) (token : PlatformToken)
    → IsPlatformToken token
    → Post (Unit {0}) IsPlatformToken (set_platform_entry i v token)
unfolding set_platform_entry
set_platform_entry-IsPlatformToken i v token h =
    label-Post Unit IsPlatformToken (platform_label i) _
      (λ label. set_platform-IsPlatformToken label v token h)

platform_of-IsPlatformToken : (value : Value) → Post (Unit {0}) IsPlatformToken (platform_of value)
unfolding platform_of
platform_of-IsPlatformToken (map_of contents) =
    set_entries-Post Unit IsPlatformToken set_platform_entry not_integer
      set_platform_entry-IsPlatformToken contents new_platform_token
      (record {
        challenge_32 = refl;
        implementation_32 = refl;
        instance_33 = refl;
        no_config = refl;
        comps_sized = tt;
      })
platform_of-IsPlatformToken _ = tt

-- The entries of one map, then those of another.
abbrev pub and_entries : Entries → Entries → Entries
and_entries end later = later
and_entries (entry k v rest) later = entry k v (and_entries rest later)

set_entries-and_entries :
    {A : Type 0} (step : ℤ → Value → A → Result A) (e : Error) (es later : Entries) (t t' : A)
    → set_entries step (err e) es t ≡ ok t'
    → set_entries step (err e) (and_entries es later) t ≡ set_entries step (err e) later t'
unfolding set_entries
set_entries-and_entries step e end later t t' h = ap (set_entries step (err e) later) (ok_inj h)
set_entries-and_entries step e (entry (integer i) v rest) later t t' h =
    let (t1, changed, others) = ok->>= (step i v t) _ h in
    rw changed (set_entries-and_entries step e rest later t1 t' others)
set_entries-and_entries step e (entry _ v rest) later t t' h = absurd cc

set_config-panic :
    (b : ℕ) (bs : Bytes) (token : PlatformToken)
    → token.config ≡ []
    → set_platform_entry (pos 2401) (bytes (b ∷ bs)) token ≡ panic
unfolding set_platform_entry platform_label set_platform get_vec of_size
set_config-panic b bs token e = rw (clone_from_slice-panic token.config b bs e) refl

-- A token of the platform whose configuration is not empty panics: the payload is a map in which
-- an entry with the label of the configuration, and bytes that are not empty, follows on entries
-- that are decoded by themselves.
pub decode_platform_token-panic :
    (cbor : Cbor) (raw_payload : Bytes) (before after : Entries) (b : ℕ) (bs : Bytes)
    (token : PlatformToken)
    → cbor.value_from raw_payload
      ≡ some (map_of (and_entries before (entry (integer (pos 2401)) (bytes (b ∷ bs)) after)))
    → platform_of (map_of before) ≡ ok token
    → decode_platform_token cbor raw_payload ≡ panic
unfolding decode_platform_token platform_of set_entries
decode_platform_token-panic cbor raw before after b bs token parsed decoded =
    let sized : IsPlatformToken token =
      rw decoded at (platform_of-IsPlatformToken (map_of before)) in
    rw
      (
        parsed,
        set_entries-and_entries set_platform_entry not_integer before
            (entry (integer (pos 2401)) (bytes (b ∷ bs)) after) new_platform_token token decoded,
        set_config-panic b bs token sized.no_config,
      )
      refl
