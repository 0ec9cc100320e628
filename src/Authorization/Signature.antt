-- ===== src/Authorization/Signature.antt =====
-- verifier/src/lib.rs and relying-party/src/lib.rs: signer and checker agree on the message.
use unified_attestation.Prelude.{◌≡◌, refl, true}
use unified_attestation.Crypto.{Crypto, Verifies}
use unified_attestation.Messages.Typed.{EvidenceReply, ResponseDeviceInfor}
use unified_attestation.RelyingParty.{rely_party_verifier_sig, verifier_signature}
use unified_attestation.Authorization.{verifier_compute_sig}

-- The relying party's check of the verifier's signature passes on a reply that carries the
-- signature of a response and the response's key, authorized information, and seconds of its
-- timestamp and period, when it has the verifier's key and a key verifies what it signs.
pub rely_party_verifier_sig-verifier_compute_sig :
    {c : Crypto}
    → Verifies c
    → (key : c.SigningKey) (response : ResponseDeviceInfor c) (reply : EvidenceReply c)
    → reply.pk ≡ response.verifying_key
    → reply.timestamp.secs ≡ response.timestamp.secs
    → reply.period.secs ≡ response.period.secs
    → reply.sig ≡ verifier_compute_sig c key response reply.authorized_infor
    → rely_party_verifier_sig c reply (c.verifying_key key) ≡ verifier_signature true
unfolding rely_party_verifier_sig verifier_compute_sig
rely_party_verifier_sig-verifier_compute_sig {c} verifies key response reply pk ts per sig =
    rw (sig, pk, ts, per, verifies key) refl
