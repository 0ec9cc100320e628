-- ===== src/Messages/RoundTrip.antt =====
-- hydra-toolkit/src/lib.rs: decoding a message gives back what was encoded.
use unified_attestation.Prelude.{
  ◌≡◌, refl, ◌∙◌, sym, ◌<◌, ◌^◌, ◌*◌, Bool, true, Option, none, some, List, [], ◌∷◌, ◌++◌,
  append_assoc, append-nil, length, arith,
}
use unified_attestation.Outcome.{ok}
use unified_attestation.Bytes.{Bytes, be64, IsDuration, is_utf8}
use unified_attestation.Crypto.{IsSmall}
use unified_attestation.Wire.{
  append_len_bytes, append_duration, append_bool_vec, append_option_bool_vec, read_len_bytes,
  read_option, read_option_bool_vec, read_bool_vec, bool_bytes,
}
use unified_attestation.Wire.Fields.{
  read_len_bytes_lem, read_string_lem, read_duration_lem, read_option-none, read_option-some,
  read_bool_vec_lem, fields, AllSmall, read_fields, read_u64-be64, allocate_lem,
}
use unified_attestation.Messages.{
  DeviceClientInforWire, SignedDeviceClientInforWire, EncryptedMessage, ResponseDeviceInforWire,
  encode_device_client_infor_wire, decode_device_client_infor_wire,
  encode_signed_device_client_infor_wire, decode_signed_device_client_infor_wire,
  encode_encrypted_message, decode_encrypted_message, append_sig, append_items, append_path,
  read_path, encode_response_device_infor_wire, decode_response_device_infor_wire,
}

pub record IsDeviceWire (v : DeviceClientInforWire) : Type 0 where
  pub key_small : IsSmall v.verifying_key
  pub value_small : IsSmall v.measured_value
  pub value_utf8 : is_utf8 v.measured_value ≡ true
  pub leaf_small : IsSmall v.merkle_leaf
  pub timestamp_ok : IsDuration v.timestamp
  pub period_ok : IsDuration v.period

pub decode-encode_device_client_infor_wire :
    (v : DeviceClientInforWire)
    → IsDeviceWire v
    → (rest : Bytes)
    → decode_device_client_infor_wire (encode_device_client_infor_wire v ++ rest) ≡ ok v
unfolding decode_device_client_infor_wire encode_device_client_infor_wire append_len_bytes
    append_duration
decode-encode_device_client_infor_wire v h rest =
    simp
      (
        append_assoc,
        read_len_bytes_lem v.verifying_key h.key_small,
        read_string_lem v.measured_value h.value_small h.value_utf8,
        read_len_bytes_lem v.merkle_leaf h.leaf_small,
        read_duration_lem v.timestamp h.timestamp_ok,
        read_duration_lem v.period h.period_ok,
      )
      refl

-- An encrypted message is decoded to what was encoded, whatever bytes follow it, when its three
-- fields have lengths that the runtime can allocate.
pub decode-encode_encrypted_message :
    (v : EncryptedMessage)
    → IsSmall v.ephemeral_public_key
    → IsSmall v.nonce
    → IsSmall v.ciphertext
    → (rest : Bytes) → decode_encrypted_message (encode_encrypted_message v ++ rest) ≡ ok v
unfolding decode_encrypted_message encode_encrypted_message append_len_bytes
decode-encode_encrypted_message v h1 h2 h3 rest =
    simp
      (
        append_assoc,
        read_len_bytes_lem v.ephemeral_public_key h1,
        read_len_bytes_lem v.nonce h2,
        read_len_bytes_lem v.ciphertext h3,
      )
      refl

pub record IsSignedWire (v : SignedDeviceClientInforWire) : Type 0 where
  pub device_ok : IsDeviceWire v.device
  pub device_small : IsSmall (encode_device_client_infor_wire v.device)
  pub signature_small : IsSmall v.signature

pub decode-encode_signed_device_client_infor_wire :
    (v : SignedDeviceClientInforWire)
    → IsSignedWire v
    → (rest : Bytes)
    → decode_signed_device_client_infor_wire (encode_signed_device_client_infor_wire v ++ rest)
      ≡ ok v
unfolding decode_signed_device_client_infor_wire encode_signed_device_client_infor_wire
    append_len_bytes
decode-encode_signed_device_client_infor_wire v h rest =
    simp
      (
        append_assoc,
        read_len_bytes_lem (encode_device_client_infor_wire v.device) h.device_small,
        read_len_bytes_lem v.signature h.signature_small,
        device,
      )
      refl
  where
    device :
        decode_device_client_infor_wire (encode_device_client_infor_wire v.device) ≡ ok v.device
    device = rw append-nil at (decode-encode_device_client_infor_wire v.device h.device_ok [])

append_items-fields : (out : Bytes) (path : List Bytes) → append_items out path ≡ out ++ fields path
unfolding append_items append_len_bytes
append_items-fields out [] = sym (append-nil out)
append_items-fields out (x ∷ path) =
    append_items-fields ((out ++ be64 (length x)) ++ x) path ∙ simp append_assoc refl

abbrev pub OptionAll {ℓ} : {A : Type ℓ} → (A → Type 0) → Option A → Type 0
OptionAll P none = Unit {0}
OptionAll P (some a) = P a

abbrev sig_bytes : Option Bytes → Bytes
sig_bytes none = 0 ∷ []
sig_bytes (some sig) = 1 ∷ (be64 (length sig) ++ sig)

abbrev path_bytes : Option (List Bytes) → Bytes
path_bytes none = 0 ∷ []
path_bytes (some path) = 1 ∷ (be64 (length path) ++ fields path)

abbrev tag_bytes : Option (List Bool) → Bytes
tag_bytes none = 0 ∷ []
tag_bytes (some tag) = 1 ∷ (be64 (length tag) ++ bool_bytes tag)

append_sig_lem : (out : Bytes) (sig : Option Bytes) → append_sig out sig ≡ out ++ sig_bytes sig
unfolding append_sig append_len_bytes
append_sig_lem out none = refl
append_sig_lem out (some sig) = simp append_assoc refl

append_path_lem :
    (out : Bytes) (path : Option (List Bytes)) → append_path out path ≡ out ++ path_bytes path
unfolding append_path
append_path_lem out none = refl
append_path_lem out (some path) =
    append_items-fields ((out ++ (1 ∷ [])) ++ be64 (length path)) path ∙ simp append_assoc refl

append_tag_lem :
    (out : Bytes) (tag : Option (List Bool)) → append_option_bool_vec out tag ≡ out ++ tag_bytes tag
unfolding append_option_bool_vec append_bool_vec
append_tag_lem out none = refl
append_tag_lem out (some tag) = simp append_assoc refl

read_sig_lem :
    (sig : Option Bytes)
    → OptionAll IsSmall sig
    → (rest : Bytes) → read_option read_len_bytes (sig_bytes sig ++ rest) ≡ ok (sig, rest)
read_sig_lem none h rest = read_option-none read_len_bytes rest
read_sig_lem (some sig) h rest =
    rw (append_assoc (be64 (length sig)) sig rest)
      (read_option-some read_len_bytes _ rest (read_len_bytes_lem sig h rest))

abbrev pub IsPath : List Bytes → Type 0
IsPath path = (24 * length path < 2 ^ 63) × AllSmall path

read_path_lem :
    (path : Option (List Bytes))
    → OptionAll IsPath path
    → (rest : Bytes) → read_option read_path (path_bytes path ++ rest) ≡ ok (path, rest)
unfolding read_path
read_path_lem none h rest = read_option-none read_path rest
read_path_lem (some path) (h, hs) rest =
    rw (append_assoc (be64 (length path)) (fields path) rest)
      (read_option-some read_path _ rest body)
  where
    body : read_path (be64 (length path) ++ (fields path ++ rest)) ≡ ok (path, rest)
    body =
        rw
          (
            read_u64-be64 (length path) (omega arith) (fields path ++ rest),
            allocate_lem 24 (length path) h,
          )
          (read_fields path hs rest)

read_tag_lem :
    (tag : Option (List Bool))
    → OptionAll (λ t. length t < 2 ^ 63) tag
    → (rest : Bytes) → read_option_bool_vec (tag_bytes tag ++ rest) ≡ ok (tag, rest)
unfolding read_option_bool_vec
read_tag_lem none h rest = read_option-none read_bool_vec rest
read_tag_lem (some tag) h rest =
    rw (append_assoc (be64 (length tag)) (bool_bytes tag) rest)
      (read_option-some read_bool_vec _ rest (read_bool_vec_lem tag h rest))

pub record IsResponseWire (v : ResponseDeviceInforWire) : Type 0 where
  pub key_small : IsSmall v.verifying_key
  pub addr_small : IsSmall v.attester_addr
  pub addr_utf8 : is_utf8 v.attester_addr ≡ true
  pub timestamp_ok : IsDuration v.timestamp
  pub period_ok : IsDuration v.period
  pub sig_small : OptionAll IsSmall v.sig
  pub path_small : OptionAll IsPath v.shrubs_path
  pub tag_small : OptionAll (λ t. length t < 2 ^ 63) v.shrubs_tag

-- The verifier's response in its wire form, with or without signature, path and tags, is decoded
-- to what was encoded, whatever bytes follow it, when its fields are as their types keep them:
-- lengths that the runtime can allocate, UTF-8 text, and durations.
pub decode-encode_response_device_infor_wire :
    (v : ResponseDeviceInforWire)
    → IsResponseWire v
    → (rest : Bytes)
    → decode_response_device_infor_wire (encode_response_device_infor_wire v ++ rest) ≡ ok v
unfolding decode_response_device_infor_wire encode_response_device_infor_wire append_len_bytes
    append_duration
decode-encode_response_device_infor_wire v h rest =
    simp
      (
        append_sig_lem,
        append_path_lem,
        append_tag_lem,
        append_assoc,
        read_len_bytes_lem v.verifying_key h.key_small,
        read_string_lem v.attester_addr h.addr_small h.addr_utf8,
        read_duration_lem v.timestamp h.timestamp_ok,
        read_duration_lem v.period h.period_ok,
        read_sig_lem v.sig h.sig_small,
        read_path_lem v.shrubs_path h.path_small,
        read_tag_lem v.shrubs_tag h.tag_small,
      )
      refl
