-- ===== src/Keys/Verified.antt =====
-- evidence-verify/src/virtcca/mod.rs: what the chains, signatures and keys that are accepted satisfy.
use unified_attestation.Prelude.{◌≡◌, ap, ◌∙◌, true, Option, some}
use unified_attestation.Outcome.{
  ok, ok->>=, context, guard, bad_challenge, bad_certificate, bad_chain, bad_key, bad_alg,
  bad_signature,
}
use unified_attestation.Bytes.{Bytes}
use unified_attestation.Registers.Verify.{bytes_eq→≡, guard→true, context→some}
use unified_attestation.Token.{CvmToken, PlatformToken}
use unified_attestation.Keys.{
  Openssl, Cose, Envelop, CertPath, KeyParts, HashAlg, detect_cert_path, read_cert, verify_cert,
  verify_dev_cert_chain, pkey_to_cosekey, hash_alg_of, verfiy_cvm_challenge, verify_cose_sign1,
}

-- The issuer's key verifies the certificate.
pub record SignedBy (o : Openssl) (cert issuer : o.Cert) : Type 0 where
  pub key : o.PKey
  pub key_of : o.public_key issuer ≡ some key
  pub verified : o.verified_by cert key ≡ some true

-- The certificates in the two files that the kind of the key selects.
pub record Chained (o : Openssl) (files : CertPath → Option Bytes) (cert : o.Cert) : Type 0 where
  pub root_path : CertPath
  pub sub_path : CertPath
  pub sub : o.Cert
  pub root : o.Cert
  pub selected : detect_cert_path o cert ≡ ok (root_path, sub_path)
  pub sub_read : read_cert o files sub_path ≡ ok sub
  pub root_read : read_cert o files root_path ≡ ok root
  pub by_sub : SignedBy o cert sub
  pub by_root : SignedBy o sub root
  pub self_signed : SignedBy o root root

verify_cert→SignedBy :
    (o : Openssl) (cert issuer : o.Cert)
    → verify_cert o cert issuer ≡ ok tt
    → SignedBy o cert issuer
unfolding verify_cert
verify_cert→SignedBy o cert issuer h =
    let (key, e, rest) = ok->>= (context bad_certificate (o.public_key issuer)) _ h in
    let (ret, v, passed) = ok->>= (context bad_certificate (o.verified_by cert key)) _ rest in
    record {
      key = key;
      key_of = context→some _ _ e;
      verified = context→some _ _ v ∙ ap some (guard→true ret bad_chain passed);
    }

pub verify_dev_cert_chain→Chained :
    (o : Openssl) (files : CertPath → Option Bytes) (cert : o.Cert)
    → verify_dev_cert_chain o files cert ≡ ok tt
    → Chained o files cert
unfolding verify_dev_cert_chain
verify_dev_cert_chain→Chained o files cert h =
    let (paths, e, h1) = ok->>= (detect_cert_path o cert) _ h in
    let (sub, s, h2) = ok->>= (read_cert o files paths.1) _ h1 in
    let (root, r, h3) = ok->>= (read_cert o files paths.0) _ h2 in
    let (u, by_sub, h4) = ok->>= (verify_cert o cert sub) _ h3 in
    let (u', by_root, self) = ok->>= (verify_cert o sub root) _ h4 in
    record {
      root_path = paths.0;
      sub_path = paths.1;
      sub = sub;
      root = root;
      selected = e;
      sub_read = s;
      root_read = r;
      by_sub = verify_cert→SignedBy o cert sub by_sub;
      by_root = verify_cert→SignedBy o sub root by_root;
      self_signed = verify_cert→SignedBy o root root self;
    }

-- The envelope's signature verifies under the key.
pub record Sealed (o : Openssl) (cose : Cose) (envelop : Envelop cose.Alg) (pkey : o.PKey)
    : Type 0 where
  pub parts : KeyParts
  pub alg : cose.Alg
  pub key_parts : pkey_to_cosekey o pkey ≡ ok parts
  pub alg_of : envelop.alg ≡ some alg
  pub decoded : cose.decode envelop.raw parts alg ≡ true

pub verify_cose_sign1→Sealed :
    (o : Openssl) (cose : Cose) (envelop : Envelop cose.Alg) (pkey : o.PKey)
    → verify_cose_sign1 o cose envelop pkey ≡ ok tt
    → Sealed o cose envelop pkey
unfolding verify_cose_sign1
verify_cose_sign1→Sealed o cose envelop pkey h =
    let (parts, e, h1) = ok->>= (pkey_to_cosekey o pkey) _ h in
    let (alg, a, h2) = ok->>= (context bad_alg envelop.alg) _ h1 in
    let (u, k, h3) = ok->>= (guard (cose.key envelop.raw parts alg) bad_key) _ h2 in
    record {
      parts = parts;
      alg = alg;
      key_parts = e;
      alg_of = context→some _ _ a;
      decoded = guard→true (cose.decode envelop.raw parts alg) bad_signature h3;
    }

-- The challenge of the platform's token is the hash of the key in the other token.
pub record Bound (o : Openssl) (cvm : CvmToken) (platform : PlatformToken) : Type 0 where
  pub alg : HashAlg
  pub named : hash_alg_of cvm.pub_key_hash_alg ≡ ok alg
  pub hashed : o.hash alg cvm.pub_key ≡ some platform.challenge

pub verfiy_cvm_challenge→Bound :
    (o : Openssl) (cvm : CvmToken) (platform : PlatformToken)
    → verfiy_cvm_challenge o cvm.pub_key_hash_alg platform.challenge cvm.pub_key ≡ ok tt
    → Bound o cvm platform
unfolding verfiy_cvm_challenge
verfiy_cvm_challenge→Bound o cvm platform h =
    let (alg, n, h1) = ok->>= (hash_alg_of cvm.pub_key_hash_alg) _ h in
    let (calculated, c, h2) = ok->>= (context bad_key (o.hash alg cvm.pub_key)) _ h1 in
    record {
      alg = alg;
      named = n;
      hashed =
          context→some _ _ c
          ∙ ap some (bytes_eq→≡ calculated platform.challenge (guard→true _ bad_challenge h2));
    }
