-- ===== src/Messages/Evidence.antt =====
-- hydra-toolkit/src/lib.rs: the public context and the evidence bundle on the wire.
use unified_attestation.Prelude.{◌≡◌, refl, ◌<◌, ◌^◌, ◌*◌, [], ◌++◌, append_assoc, length}
use unified_attestation.Outcome.{ok}
use unified_attestation.Bytes.{Bytes, be64, IsDuration}
use unified_attestation.Crypto.{Crypto, CodecLaws}
use unified_attestation.Wire.{
  append_len_bytes, append_duration, append_signature, append_verifying_key,
}
use unified_attestation.Wire.Fields.{
  read_duration_lem, read_signature_lem, read_verifying_key_lem, append_scalar-Appends,
  append_scalar_vec-Appends, append_proof-Appends, append_ark_vk-Appends,
}
use unified_attestation.Messages.{tag_pubc, tag_evid}
use unified_attestation.Messages.Typed.{
  PublicContext, EvidenceReply, encode_public_context, decode_public_context,
  encode_evidence_bundle, decode_evidence_bundle, encode_public_context_message,
  decode_public_context_message, encode_evidence_message, decode_evidence_message,
}

module _ {c : Crypto} (laws : CodecLaws c) where
  pub public_context_lem :
      (v : PublicContext c)
      → 32 * length v.root < 2 ^ 63
      → (bs : Bytes) × (encode_public_context c v ≡ ok bs)
        × ((rest : Bytes) → decode_public_context c (bs ++ rest) ≡ ok v)
  unfolding encode_public_context decode_public_context append_verifying_key append_len_bytes
  public_context_lem v h =
      let (b, w, r) = append_scalar_vec-Appends laws v.root h in
      let k = c.to_encoded_point v.verifier_pk in
      (
        (b ++ be64 (length k)) ++ k,
        rw (w []) refl,
        λ rest. simp (append_assoc, r, read_verifying_key_lem laws v.verifier_pk) refl,
      )

  -- Where the libraries' serializations round-trip, a public context with room for its roots in
  -- memory is encoded under the tag `PUBC`, and decoded to the same roots and key, whatever bytes
  -- follow it.
  pub decode-encode_public_context_message :
      (v : PublicContext c)
      → 32 * length v.root < 2 ^ 63
      → (bs : Bytes) × (encode_public_context_message c v ≡ ok (tag_pubc ++ bs))
        × ((rest : Bytes) → decode_public_context_message c (tag_pubc ++ (bs ++ rest)) ≡ ok v)
  unfolding encode_public_context_message decode_public_context_message
  decode-encode_public_context_message v h =
      let (bs, w, r) = public_context_lem v h in (bs, rw w refl, r)

-- The durations of a reply, as their type keeps them.
pub record IsReply {c : Crypto} (v : EvidenceReply c) : Type 0 where
  pub timestamp_ok : IsDuration v.timestamp
  pub period_ok : IsDuration v.period
  pub timestamp_attester_ok : IsDuration v.timestamp_attester
  pub period_attester_ok : IsDuration v.period_attester

module _ {c : Crypto} (laws : CodecLaws c) where
  evidence_bundle_lem :
      (v : EvidenceReply c) (s : c.Signature)
      → IsReply v
      → (bs : Bytes) × (encode_evidence_bundle c v s ≡ ok bs)
        × ((rest : Bytes) → decode_evidence_bundle c (bs ++ rest) ≡ ok (v, s))
  unfolding encode_evidence_bundle decode_evidence_bundle append_verifying_key append_signature
      append_len_bytes append_duration
  evidence_bundle_lem v s h =
      let (b1, w1, r1) = append_proof-Appends laws v.proof in
      let (b2, w2, r2) = append_ark_vk-Appends laws v.vk in
      let (b3, w3, r3) = append_scalar-Appends laws v.authorized_infor in
      let out = append_signature c (b1 ++ b2) v.sig in
      let out = append_verifying_key c out v.pk in
      let out = append_duration (append_duration out v.timestamp) v.period ++ b3 in
      let out = append_duration (append_duration out v.timestamp_attester) v.period_attester in
      let out = append_signature c out v.proof_timestamp_period_signature in
      (
        append_signature c out s,
        simp (w1, w2, w3) refl,
        λ rest.
            simp
              (
                append_assoc,
                r1,
                r2,
                r3,
                read_signature_lem laws,
                read_verifying_key_lem laws,
                read_duration_lem v.timestamp h.timestamp_ok,
                read_duration_lem v.period h.period_ok,
                read_duration_lem v.timestamp_attester h.timestamp_attester_ok,
                read_duration_lem v.period_attester h.period_attester_ok,
              )
              refl,
      )

  -- Where the libraries' serializations round-trip, an evidence reply whose durations are as
  -- their type keeps them is encoded, with a signature, under the tag `EVID`, and decoded to the
  -- same reply and signature, whatever bytes follow it.
  pub decode-encode_evidence_message :
      (v : EvidenceReply c) (s : c.Signature)
      → IsReply v
      → (bs : Bytes) × (encode_evidence_message c v s ≡ ok (tag_evid ++ bs))
        × ((rest : Bytes) → decode_evidence_message c (tag_evid ++ (bs ++ rest)) ≡ ok (v, s))
  unfolding encode_evidence_message decode_evidence_message
  decode-encode_evidence_message v s h =
      let (bs, w, r) = evidence_bundle_lem v s h in (bs, rw w refl, r)
