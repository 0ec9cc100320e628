-- ===== src/Token.antt =====
-- evidence-verify/src/virtcca/ccatoken.rs: the tokens of virtCCA, decoded from CBOR. The crate
-- ciborium reads the bytes; a label that stands twice is set twice.
pub mod Platform
pub mod Post
pub mod Sized
use unified_attestation.Prelude.{
  ℕ, zero, suc, ◌+◌, Option, none, some, List, [], ◌∷◌, ◌++◌, length, set, ◌==◌, if◌then◌else◌,
}
use unified_attestation.Outcome.{
  Result, ok, err, panic, ◌>>=◌, context, bad_cbor, not_map, not_integer, unknown_label,
}
use unified_attestation.Bytes.{Bytes}
use unified_attestation.Registers.{zeros}
use unified_attestation.Cbor.{
  ℤ, pos, negsuc, Value, integer, bytes, text, simple, array, tag, map_of, Entries, get_vec,
  get_string, get_num, get_array, set_entries,
}

pub record CvmToken : Type 0 where
  pub challenge : Bytes
  pub rpv : Bytes
  pub rim : Bytes
  pub rem : List Bytes
  pub hash_alg : Bytes
  pub pub_key : Bytes
  pub pub_key_hash_alg : Bytes

pub record SwComp : Type 0 where
  pub firware_name : Bytes
  pub measurement : Bytes
  pub firware_version : Bytes
  pub signer : Bytes
  pub hash_algorithm : Bytes

pub record PlatformToken : Type 0 where
  pub profile : Bytes
  pub challenge : Bytes
  pub implementation : Bytes
  pub instance_id : Bytes
  pub config : Bytes
  pub lifecycle : ℤ
  pub sw_components : List SwComp
  pub sw_comp_cnts : ℤ
  pub verification_service : Bytes
  pub hash_algo : Bytes

abbrev pub new_cvm_token : CvmToken
new_cvm_token = record {
  challenge = zeros 64;
  rpv = zeros 64;
  rim = [];
  rem = [] ∷ [] ∷ [] ∷ [] ∷ [];
  hash_alg = [];
  pub_key = [];
  pub_key_hash_alg = [];
}

abbrev pub new_sw_comp : SwComp
new_sw_comp = record {
  firware_name = [];
  measurement = zeros 32;
  firware_version = [];
  signer = [];
  hash_algorithm = [];
}

abbrev pub new_platform_token : PlatformToken
new_platform_token = record {
  profile = [];
  challenge = zeros 32;
  implementation = zeros 32;
  instance_id = zeros 33;
  config = [];
  lifecycle = pos 0;
  sw_components = [];
  sw_comp_cnts = pos 0;
  verification_service = [];
  hash_algo = [];
}

-- The slice's method panics unless both have the same length.
unfoldable pub clone_from_slice : Bytes → Bytes → Result Bytes
clone_from_slice old src = if length old == length src then ok src else panic

pub data CvmLabel : Type 0 where
  cvm_challenge cvm_rpv cvm_rim cvm_rem cvm_hash_alg cvm_pub_key cvm_pub_key_hash_alg : CvmLabel

unfoldable pub cvm_label : ℤ → Option CvmLabel
cvm_label (negsuc n) = none
cvm_label (pos n) =
    if n == 10
    then some cvm_challenge
    else if n == 44235
    then some cvm_rpv
    else if n == 44238
    then some cvm_rim
    else if n == 44239
    then some cvm_rem
    else if n == 44236
    then some cvm_hash_alg
    else if n == 44237
    then some cvm_pub_key
    else if n == 44240
    then some cvm_pub_key_hash_alg
    else none

-- The three sizes of a measurement.
abbrev pub rim_sizes : List ℕ
rim_sizes = 32 ∷ 48 ∷ 64 ∷ []

unfoldable pub set_rems : ℕ → List Value → List Bytes → Result (List Bytes)
set_rems i [] rem = ok rem
set_rems i (v ∷ vs) rem = do
  measured ← get_vec v rim_sizes
  set_rems (i + 1) vs (set rem i measured)

-- `set_challenge`, `set_rpv` and so on, by the label.
unfoldable pub set_cvm : CvmLabel → Value → CvmToken → Result CvmToken
set_cvm cvm_challenge v token = do
  tmp ← get_vec v (64 ∷ [])
  copied ← clone_from_slice token.challenge tmp
  ok (record token { challenge = copied })
set_cvm cvm_rpv v token = do
  tmp ← get_vec v (64 ∷ [])
  copied ← clone_from_slice token.rpv tmp
  ok (record token { rpv = copied })
set_cvm cvm_rim v token = do tmp ← get_vec v rim_sizes; ok (record token { rim = tmp })
set_cvm cvm_rem v token = do
  tmp ← get_array v 4
  rems ← set_rems 0 tmp token.rem
  ok (record token { rem = rems })
set_cvm cvm_hash_alg v token = do tmp ← get_string v; ok (record token { hash_alg = tmp })
set_cvm cvm_pub_key v token = do
  tmp ← get_vec v (133 ∷ 550 ∷ [])
  ok (record token { pub_key = tmp })
set_cvm cvm_pub_key_hash_alg v token = do
  tmp ← get_string v
  ok (record token { pub_key_hash_alg = tmp })

unfoldable pub set_cvm_entry : ℤ → Value → CvmToken → Result CvmToken
set_cvm_entry i v token = elim (cvm_label i) [
  | none ↦ err unknown_label
  | some label ↦ set_cvm label v token
]

unfoldable pub cvm_of : Value → Result CvmToken
cvm_of (map_of contents) = set_entries set_cvm_entry (err not_integer) contents new_cvm_token
cvm_of _ = err not_map

pub data SwLabel : Type 0 where
  sw_type sw_version sw_measurement sw_signer sw_algo : SwLabel

unfoldable pub sw_label : ℤ → Option SwLabel
sw_label (negsuc n) = none
sw_label (pos n) =
    if n == 1
    then some sw_type
    else if n == 4
    then some sw_version
    else if n == 2
    then some sw_measurement
    else if n == 5
    then some sw_signer
    else if n == 6
    then some sw_algo
    else none

unfoldable pub set_sw : SwLabel → Value → SwComp → Result SwComp
set_sw sw_type v sw_comp = do tmp ← get_string v; ok (record sw_comp { firware_name = tmp })
set_sw sw_version v sw_comp = do tmp ← get_string v; ok (record sw_comp { firware_version = tmp })
set_sw sw_measurement v sw_comp = do
  tmp ← get_vec v (32 ∷ [])
  copied ← clone_from_slice sw_comp.measurement tmp
  ok (record sw_comp { measurement = copied })
set_sw sw_signer v sw_comp = do
  tmp ← get_vec v []
  copied ← clone_from_slice sw_comp.signer tmp
  ok (record sw_comp { signer = copied })
set_sw sw_algo v sw_comp = do tmp ← get_string v; ok (record sw_comp { hash_algorithm = tmp })

unfoldable pub set_sw_entry : ℤ → Value → SwComp → Result SwComp
set_sw_entry i v sw_comp = elim (sw_label i) [
  | none ↦ err unknown_label
  | some label ↦ set_sw label v sw_comp
]

unfoldable pub decode_sw_comp : Value → Result SwComp
decode_sw_comp (map_of contents) = set_entries set_sw_entry (err not_integer) contents new_sw_comp
decode_sw_comp _ = err not_map

pub data PlatformLabel : Type 0 where
  profile_label challenge_label implementation_label instance_label config_label : PlatformLabel
  lifestyle_label sw_components_label verification_service_label hash_algo_label : PlatformLabel

unfoldable pub platform_label : ℤ → Option PlatformLabel
platform_label (negsuc n) = none
platform_label (pos n) =
    if n == 265
    then some profile_label
    else if n == 10
    then some challenge_label
    else if n == 2396
    then some implementation_label
    else if n == 256
    then some instance_label
    else if n == 2401
    then some config_label
    else if n == 2395
    then some lifestyle_label
    else if n == 2399
    then some sw_components_label
    else if n == 2400
    then some verification_service_label
    else if n == 2402
    then some hash_algo_label
    else none

unfoldable pub push_sw_comps : List Value → List SwComp → Result (List SwComp)
push_sw_comps [] comps = ok comps
push_sw_comps (v ∷ vs) comps = do
  sw_comp ← decode_sw_comp v
  push_sw_comps vs (comps ++ (sw_comp ∷ []))

unfoldable pub set_platform : PlatformLabel → Value → PlatformToken → Result PlatformToken
set_platform profile_label v token = do tmp ← get_string v; ok (record token { profile = tmp })
set_platform challenge_label v token = do
  tmp ← get_vec v (32 ∷ [])
  copied ← clone_from_slice token.challenge tmp
  ok (record token { challenge = copied })
set_platform implementation_label v token = do
  tmp ← get_vec v (32 ∷ [])
  copied ← clone_from_slice token.implementation tmp
  ok (record token { implementation = copied })
set_platform instance_label v token = do
  tmp ← get_vec v (33 ∷ [])
  copied ← clone_from_slice token.instance_id tmp
  ok (record token { instance_id = copied })
set_platform config_label v token = do
  tmp ← get_vec v []
  copied ← clone_from_slice token.config tmp
  ok (record token { config = copied })
set_platform lifestyle_label v token = do tmp ← get_num v; ok (record token { lifecycle = tmp })
set_platform sw_components_label v token = do
  tmp ← get_array v 6
  comps ← push_sw_comps tmp token.sw_components
  ok (record token { sw_components = comps })
set_platform verification_service_label v token = do
  tmp ← get_string v
  ok (record token { verification_service = tmp })
set_platform hash_algo_label v token = do tmp ← get_string v; ok (record token { hash_algo = tmp })

unfoldable pub set_platform_entry : ℤ → Value → PlatformToken → Result PlatformToken
set_platform_entry i v token = elim (platform_label i) [
  | none ↦ err unknown_label
  | some label ↦ set_platform label v token
]

unfoldable pub platform_of : Value → Result PlatformToken
platform_of (map_of contents) =
    set_entries set_platform_entry (err not_integer) contents new_platform_token
platform_of _ = err not_map

-- `ciborium::de::from_reader`, of another crate: into a value, and into bytes.
pub record Cbor : Type 0 where
  pub value_from : Bytes → Option Value
  pub bytes_from : Bytes → Option Bytes

module _ (cbor : Cbor) where
  -- The payload is bytes that hold the map.
  unfoldable pub decode_cvm_token : Bytes → Result CvmToken
  decode_cvm_token raw_payload = do
    payload ← context bad_cbor (cbor.bytes_from raw_payload)
    value ← context bad_cbor (cbor.value_from payload)
    cvm_of value

  unfoldable pub decode_platform_token : Bytes → Result PlatformToken
  decode_platform_token raw_payload = do
    value ← context bad_cbor (cbor.value_from raw_payload)
    platform_of value
