-- ===== src/Keys.antt =====
-- evidence-verify/src/virtcca/mod.rs: keys, certificate chains and COSE signatures. The crates
-- openssl and cose are parameters; a certificate's file is its bytes, or none where it cannot be
-- read.
pub mod Verified
use unified_attestation.Prelude.{
  ℕ, suc, ◌+◌, ◌/◌, Bool, Option, none, some, List, [], ◌∷◌, length, take, drop, ◌==◌,
  if◌then◌else◌,
}
use unified_attestation.Outcome.{
  Result, ok, err, ◌>>=◌, context, guard, io, bad_certificate, bad_chain, bad_key, bad_alg,
  bad_challenge, bad_signature,
}
use unified_attestation.Bytes.{Bytes}
use unified_attestation.Registers.{bytes_eq}

pub data KeyId : Type 0 where
  rsa ec other_id : KeyId

pub data Curve : Type 0 where
  secp521r1 other_curve : Curve

pub data HashAlg : Type 0 where
  sha256 sha384 sha512 : HashAlg

-- What the code calls of openssl.
pub record Openssl : Type 1 where
  pub Cert : Type 0
  pub PKey : Type 0
  pub EcKey : Type 0
  pub from_pem : Bytes → Option Cert
  pub from_x509_der : Bytes → Option Cert
  pub public_key : Cert → Option PKey
  pub verified_by : Cert → PKey → Option Bool
  pub id : PKey → KeyId
  pub rsa_n_e : PKey → Option (Bytes × Bytes)
  pub ec_key : PKey → Option EcKey
  pub curve_name : EcKey → Option Curve
  pub uncompressed : EcKey → Option Bytes
  pub public_key_from_der : Bytes → Option PKey
  pub from_point_521 : Bytes → Option PKey
  pub hash : HashAlg → Bytes → Option Bytes

pub data KeyParts : Type 0 where
  rsa_parts : (n e : Bytes) → KeyParts
  p_521_parts : (x y : Bytes) → KeyParts

-- A COSE_Sign1 envelope: its bytes, and what `init_decoder` reads out of them.
pub record Envelop (Alg : Type 0) : Type 0 where
  pub raw : Bytes
  pub alg : Option Alg
  pub payload : Bytes

-- What the code calls of cose. The key is for verification and has the algorithm of the header.
pub record Cose : Type 1 where
  pub Alg : Type 0
  pub init_decoder : Bytes → Option (Envelop Alg)
  pub key : Bytes → KeyParts → Alg → Bool
  pub decode : Bytes → KeyParts → Alg → Bool

pub data CertPath : Type 0 where
  rsa_root_cert rsa_sub_cert eccp_root_cert eccp_sub_cert : CertPath

-- An uncompressed point is 4, x and y.
unfoldable pub split_point : Bytes → Result KeyParts
split_point [] = err bad_key
split_point (b ∷ coordinates) =
    if b == 4
    then ok (
        p_521_parts (take (length coordinates / 2) coordinates)
          (drop (length coordinates / 2) coordinates))
    else err bad_key

unfoldable pub on_p_521 : Option Curve → Option Bytes → Result KeyParts
on_p_521 (some secp521r1) encoded = do point ← context bad_key encoded; split_point point
on_p_521 (some other_curve) encoded = err bad_key
on_p_521 none encoded = err bad_key

-- "sha-256", "sha-384" and "sha-512"
abbrev pub alg_name : HashAlg → Bytes
alg_name sha256 = 115 ∷ 104 ∷ 97 ∷ 45 ∷ 50 ∷ 53 ∷ 54 ∷ []
alg_name sha384 = 115 ∷ 104 ∷ 97 ∷ 45 ∷ 51 ∷ 56 ∷ 52 ∷ []
alg_name sha512 = 115 ∷ 104 ∷ 97 ∷ 45 ∷ 53 ∷ 49 ∷ 50 ∷ []

unfoldable pub hash_alg_of : Bytes → Result HashAlg
hash_alg_of name =
    if bytes_eq name (alg_name sha256)
    then ok sha256
    else if bytes_eq name (alg_name sha384)
    then ok sha384
    else if bytes_eq name (alg_name sha512)
    then ok sha512
    else err bad_alg

module _ (o : Openssl) where
  unfoldable pub cose_key_of : KeyId → o.PKey → Result KeyParts
  cose_key_of rsa pkey = do parts ← context bad_key (o.rsa_n_e pkey); ok (rsa_parts parts.0 parts.1)
  cose_key_of ec pkey = do
    ec_key ← context bad_key (o.ec_key pkey)
    on_p_521 (o.curve_name ec_key) (o.uncompressed ec_key)
  cose_key_of other_id pkey = err bad_key

  unfoldable pub pkey_to_cosekey : o.PKey → Result KeyParts
  pkey_to_cosekey pkey = cose_key_of (o.id pkey) pkey

  unfoldable pub cert_paths : KeyId → Result (CertPath × CertPath)
  cert_paths rsa = ok (rsa_root_cert, rsa_sub_cert)
  cert_paths ec = ok (eccp_root_cert, eccp_sub_cert)
  cert_paths other_id = err bad_certificate

  unfoldable pub detect_cert_path : o.Cert → Result (CertPath × CertPath)
  detect_cert_path dev_cert = do
    pubkey ← context bad_certificate (o.public_key dev_cert)
    cert_paths (o.id pubkey)

  -- `cert.verify(&issuer.public_key()?)?` must be true.
  unfoldable pub verify_cert : o.Cert → o.Cert → Result (Unit {0})
  verify_cert cert issuer = do
    pkey ← context bad_certificate (o.public_key issuer)
    ret ← context bad_certificate (o.verified_by cert pkey)
    guard ret bad_chain

  unfoldable pub read_cert : (CertPath → Option Bytes) → CertPath → Result o.Cert
  read_cert files path = do
    file ← context io (files path)
    context bad_certificate (o.from_pem file)

  unfoldable pub verify_dev_cert_chain : (CertPath → Option Bytes) → o.Cert → Result (Unit {0})
  verify_dev_cert_chain files dev_cert = do
    paths ← detect_cert_path dev_cert
    sub_cert ← read_cert files paths.1
    root_cert ← read_cert files paths.0
    dev ← verify_cert dev_cert sub_cert
    sub ← verify_cert sub_cert root_cert
    verify_cert root_cert root_cert

  -- The point in `pub_key` must start with 4.
  unfoldable pub raw_ec_public_key_to_pkey : Bytes → Result o.PKey
  raw_ec_public_key_to_pkey [] = err bad_key
  raw_ec_public_key_to_pkey (b ∷ coordinates) =
      if b == 4 then context bad_key (o.from_point_521 (b ∷ coordinates)) else err bad_key

  unfoldable pub pkey_of : Bytes → Result o.PKey
  pkey_of pub_key = elim (o.public_key_from_der pub_key) [
    | some pkey ↦ ok pkey
    | none ↦ raw_ec_public_key_to_pkey pub_key
  ]

  unfoldable pub verfiy_cvm_challenge : Bytes → Bytes → Bytes → Result (Unit {0})
  verfiy_cvm_challenge pub_key_hash_alg challenge raw_pub_key = do
    digest ← hash_alg_of pub_key_hash_alg
    calculated_challenge ← context bad_key (o.hash digest raw_pub_key)
    guard (bytes_eq calculated_challenge challenge) bad_challenge

  module _ (cose : Cose) where
    unfoldable pub verify_cose_sign1 : Envelop cose.Alg → o.PKey → Result (Unit {0})
    verify_cose_sign1 envelop pkey = do
      cose_key ← pkey_to_cosekey pkey
      alg ← context bad_alg envelop.alg
      taken ← guard (cose.key envelop.raw cose_key alg) bad_key
      guard (cose.decode envelop.raw cose_key alg) bad_signature
