-- ===== src/Sealing/RoundTrip.antt =====
-- hydra-toolkit/src/lib.rs: what is encrypted for an attester, the attester decrypts.
use unified_attestation.Prelude.{◌-◌, ◌*◌, ◌^◌, ◌<◌, ◌≡◌, refl, append-nil, length, [], arith}
use unified_attestation.Outcome.{ok}
use unified_attestation.Bytes.{Bytes}
use unified_attestation.Crypto.{Crypto, CodecLaws, IsShort-IsSmall}
use unified_attestation.Messages.{
  EncryptedMessage, encode_encrypted_message, decode_encrypted_message,
}
use unified_attestation.Messages.RoundTrip.{decode-encode_encrypted_message}
use unified_attestation.Messages.Typed.{ResponseDeviceInfor, PublicContext}
use unified_attestation.Authorization.{encode_verifier_response}
use unified_attestation.Authorization.Response.{IsResponse, decode-encode_verifier_response}
use unified_attestation.Sealing.{
  Sealing, SealingLaws, hkdf_info, derive_aes_key, nonce_of, encrypt_for_device_pubkey,
  decrypt_for_device_key, encode_encrypted_verifier_response, decode_encrypted_verifier_response,
}

module _ {c : Crypto} {x : Sealing} (sealing : SealingLaws c x) where
  -- A plaintext within AES-GCM's limit that is encrypted for the public key of an attester is
  -- decrypted with the attester's key, whatever the ephemeral key and the nonce of 12 bytes.
  -- The message can be decoded from the wire.
  pub decrypt-encrypt_for_device_pubkey :
      (e : x.EphemeralSecret) (nonce plaintext : Bytes) (key : c.SigningKey)
      → length nonce ≡ 12
      → length plaintext < 2 ^ 36 - 32
      → (message : EncryptedMessage) × (encrypt_for_device_pubkey c x e nonce plaintext
            (c.verifying_key key)
          ≡ ok message)
        × (decrypt_for_device_key c x message key ≡ ok plaintext)
        × (decode_encrypted_message (encode_encrypted_message message) ≡ ok message)
  unfolding encrypt_for_device_pubkey decrypt_for_device_key derive_aes_key nonce_of
  decrypt-encrypt_for_device_pubkey e nonce plaintext key twelve short =
      let (public, secret, p, s, agree) = sealing.device_keys key in
      let ephemeral = x.public_key e in
      let (aes, cipher, k, n) = sealing.expand_law (x.diffie_hellman secret ephemeral) hkdf_info in
      let (ciphertext, enc, dec, size) = sealing.cipher_law cipher nonce plaintext twelve short in
      let message : EncryptedMessage = record {
        ephemeral_public_key = x.to_sec1_bytes ephemeral;
        nonce = nonce;
        ciphertext = ciphertext;
      } in
      let decoded =
        decode-encode_encrypted_message message
          (IsShort-IsSmall (x.to_sec1_bytes ephemeral) (sealing.sec1_short ephemeral))
          (omega (arith, twelve)) (omega (arith, size, short)) [] in
      (
        message,
        rw (p, agree e, k, n, twelve, enc) refl,
        rw (sealing.sec1_law ephemeral, s, k, n, twelve, dec) refl,
        rw append-nil at decoded,
      )

  module _ (laws : CodecLaws c) where
    -- The encrypted response that the verifier makes for an attester's public key is decoded by
    -- the attester to the same response and public context, whatever the ephemeral key and the
    -- nonce. The libraries behave as they document, the response is as its types keep it, and
    -- what is encrypted is within AES-GCM's limit.
    pub decode-encode_encrypted_verifier_response :
        (e : x.EphemeralSecret) (nonce plaintext : Bytes) (key : c.SigningKey)
        (v : ResponseDeviceInfor c) (ctx : PublicContext c)
        → length nonce ≡ 12
        → IsResponse v
        → 32 * length ctx.root < 2 ^ 63
        → encode_verifier_response c v ctx ≡ ok plaintext
        → length plaintext < 2 ^ 36 - 32
        → (bytes : Bytes) × (encode_encrypted_verifier_response c x e nonce v ctx
              (c.verifying_key key)
            ≡ ok bytes)
          × (decode_encrypted_verifier_response c x bytes key ≡ ok (v, ctx))
    unfolding encode_encrypted_verifier_response decode_encrypted_verifier_response
    decode-encode_encrypted_verifier_response e nonce plaintext key v ctx twelve good room wrote
          short =
        let (message, enc, dec, decoded) =
          decrypt-encrypt_for_device_pubkey e nonce plaintext key twelve short in
        let read =
          decode-encode_verifier_response laws v ctx plaintext [] good room wrote
            (omega (arith, short)) in
        (
          encode_encrypted_message message,
          rw (wrote, enc) refl,
          rw (decoded, dec) (rw append-nil at read),
        )
