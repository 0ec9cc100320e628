-- ===== src/Sealing.antt =====
-- hydra-toolkit/src/lib.rs: the verifier's response, encrypted for the key of one attester. The
-- random ephemeral key and nonce come from outside.
pub mod RoundTrip
use unified_attestation.Prelude.{
  ◌+◌, ◌-◌, ◌^◌, ◌<◌, ◌≡◌, Option, some, List, [], ◌∷◌, length, ◌==◌, if◌then◌else◌,
}
use unified_attestation.Outcome.{
  Result, ok, panic, ◌>>=◌, context, device_public_key, ephemeral_public_key, secret_key,
  derive_key, create_cipher, encrypt_response, decrypt_response,
}
use unified_attestation.Bytes.{Bytes}
use unified_attestation.Crypto.{Crypto, IsShort}
use unified_attestation.Messages.{
  EncryptedMessage, encode_encrypted_message, decode_encrypted_message,
}
use unified_attestation.Messages.Typed.{ResponseDeviceInfor, PublicContext}
use unified_attestation.Authorization.{encode_verifier_response, decode_verifier_response}

-- The Diffie-Hellman exchange of k256, and the crates hkdf and aes-gcm.
pub record Sealing : Type 1 where
  pub EphemeralSecret : Type 0
  pub SecretKey : Type 0
  pub PublicKey : Type 0
  pub Cipher : Type 0
  pub public_key : EphemeralSecret → PublicKey
  pub to_sec1_bytes : PublicKey → Bytes
  pub from_sec1_bytes : Bytes → Option PublicKey
  pub from_slice : Bytes → Option SecretKey
  pub ephemeral_agreement : EphemeralSecret → PublicKey → Bytes
  pub diffie_hellman : SecretKey → PublicKey → Bytes
  pub expand : (shared_secret info : Bytes) → Option Bytes
  pub new_cipher : Bytes → Option Cipher
  pub encrypt : Cipher → (nonce plaintext : Bytes) → Option Bytes
  pub decrypt : Cipher → (nonce ciphertext : Bytes) → Option Bytes

-- "hydra verifier response encryption"
abbrev pub hkdf_info : Bytes
hkdf_info =
    104 ∷ 121 ∷ 100 ∷ 114 ∷ 97 ∷ 32 ∷ 118 ∷ 101 ∷ 114 ∷ 105 ∷ 102 ∷ 105 ∷ 101 ∷ 114 ∷ 32 ∷ 114 ∷ 101
    ∷ 115 ∷ 112 ∷ 111 ∷ 110 ∷ 115 ∷ 101 ∷ 32 ∷ 101 ∷ 110 ∷ 99 ∷ 114 ∷ 121 ∷ 112 ∷ 116 ∷ 105 ∷ 111
    ∷ 110 ∷ []

module _ (x : Sealing) where
  unfoldable pub derive_aes_key : Bytes → Result Bytes
  derive_aes_key shared_secret = context derive_key (x.expand shared_secret hkdf_info)

  -- `Nonce::from_slice` panics on another length than 12.
  unfoldable pub nonce_of : Bytes → Result Bytes
  nonce_of nonce = if length nonce == 12 then ok nonce else panic

module _ (c : Crypto) (x : Sealing) where
  unfoldable pub encrypt_for_device_pubkey :
      x.EphemeralSecret → Bytes → Bytes → c.VerifyingKey → Result EncryptedMessage
  encrypt_for_device_pubkey ephemeral_secret nonce plaintext device_pubkey = do
    recipient ← context device_public_key (x.from_sec1_bytes (c.to_encoded_point device_pubkey))
    key ← derive_aes_key x (x.ephemeral_agreement ephemeral_secret recipient)
    cipher ← context create_cipher (x.new_cipher key)
    nonce ← nonce_of x nonce
    ciphertext ← context encrypt_response (x.encrypt cipher nonce plaintext)
    ok (record {
      ephemeral_public_key = x.to_sec1_bytes (x.public_key ephemeral_secret);
      nonce = nonce;
      ciphertext = ciphertext;
    })

  unfoldable pub decrypt_for_device_key : EncryptedMessage → c.SigningKey → Result Bytes
  decrypt_for_device_key encrypted device_key = do
    ephemeral ← context ephemeral_public_key (x.from_sec1_bytes encrypted.ephemeral_public_key)
    secret ← context secret_key (x.from_slice (c.to_bytes device_key))
    key ← derive_aes_key x (x.diffie_hellman secret ephemeral)
    cipher ← context create_cipher (x.new_cipher key)
    nonce ← nonce_of x encrypted.nonce
    context decrypt_response (x.decrypt cipher nonce encrypted.ciphertext)

  unfoldable pub encode_encrypted_verifier_response :
      x.EphemeralSecret
      → Bytes
      → ResponseDeviceInfor c
      → PublicContext c
      → c.VerifyingKey
      → Result Bytes
  encode_encrypted_verifier_response ephemeral_secret nonce dev_res public_context device_pubkey =
      do
        plaintext ← encode_verifier_response c dev_res public_context
        encrypted ← encrypt_for_device_pubkey ephemeral_secret nonce plaintext device_pubkey
        ok (encode_encrypted_message encrypted)

  unfoldable pub decode_encrypted_verifier_response :
      Bytes → c.SigningKey → Result (ResponseDeviceInfor c × PublicContext c)
  decode_encrypted_verifier_response bytes device_key = do
    encrypted ← decode_encrypted_message bytes
    plaintext ← decrypt_for_device_key encrypted device_key
    decode_verifier_response c plaintext

  -- What the crates document. The two sides of the exchange agree on a secret; HKDF yields a key of 32 bytes,
  -- which AES-256 takes; AES-GCM adds a tag of 16 bytes, and the same key and nonce decrypt
  -- what they encrypted.
  pub record SealingLaws : Type 0 where
    pub sec1_law : (p : x.PublicKey) → x.from_sec1_bytes (x.to_sec1_bytes p) ≡ some p
    pub sec1_short : (p : x.PublicKey) → IsShort (x.to_sec1_bytes p)
    pub device_keys :
        (key : c.SigningKey)
        → (public : x.PublicKey) × (secret : x.SecretKey) × (x.from_sec1_bytes
              (c.to_encoded_point (c.verifying_key key))
            ≡ some public)
          × (x.from_slice (c.to_bytes key) ≡ some secret)
          × ((e : x.EphemeralSecret)
              → x.ephemeral_agreement e public ≡ x.diffie_hellman secret (x.public_key e))
    pub expand_law :
        (shared info : Bytes)
        → (key : Bytes) × (cipher : x.Cipher) × (x.expand shared info ≡ some key)
          × (x.new_cipher key ≡ some cipher)
    pub cipher_law :
        (cipher : x.Cipher) (nonce plaintext : Bytes)
        → length nonce ≡ 12
        → length plaintext < 2 ^ 36 - 32
        → (ciphertext : Bytes) × (x.encrypt cipher nonce plaintext ≡ some ciphertext)
          × (x.decrypt cipher nonce ciphertext ≡ some plaintext)
          × (length ciphertext ≡ length plaintext + 16)
