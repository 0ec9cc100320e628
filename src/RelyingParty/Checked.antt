-- ===== src/RelyingParty/Checked.antt =====
-- relying-party/src/lib.rs, and the signed bytes of hydra-toolkit/src/lib.rs: what the checks of an
-- evidence reply that pass say of its times and of the bytes under its signatures.
use unified_attestation.Prelude.{
  ℕ, ◌+◌, ◌*◌, ◌/◌, ◌%◌, ◌^◌, ◌<◌, ◌≡◌, refl, sym, ap, ◌∙◌, true, Option, some, List, [], ◌∷◌, ◌++◌,
  append_assoc, append-nil, length, ltb, Bool-cases, inl, inr, arith,
}
use unified_attestation.Outcome.{
  Result, ok, err, panic, stuck, ok->>=, ok_inj, context, expect_ok, overflow, io, expired,
  bad_signature, serialize,
}
use unified_attestation.Bytes.{Bytes, be64, Duration, IsDuration, checked_add, later}
use unified_attestation.Crypto.{Crypto}
use unified_attestation.Messages.Typed.{EvidenceReply}
use unified_attestation.Evidence.{
  append_field, serialize_ark, serialize_duration, to_signing_bytes_all_fields, name_proof, name_vk,
  name_sig, name_pk, name_timestamp, name_period, name_authorized_infor, name_timestamp_attester,
  name_period_attester, name_proof_timestamp_period_signature,
}
use unified_attestation.Registers.Verify.{guard→true, context→some}
use unified_attestation.RelyingParty.{
  check_freshness, reply_signing_bytes, verify_evidence_reply_attester_signature,
  verify_evidence_reply_proof_timestamp_period_signature,
}

-- The nanoseconds of a duration.
abbrev pub nanoseconds : Duration → ℕ
nanoseconds d = d.secs * 1_000_000_000 + d.nanos

later_sum :
    (secs nanos period_secs period_nanos now_secs now_nanos : ℕ)
    → now_nanos < 1_000_000_000
    → later
        (record {
          secs = secs + period_secs + (nanos + period_nanos) / 1_000_000_000;
          nanos = (nanos + period_nanos) % 1_000_000_000;
        })
        (record { secs = now_secs; nanos = now_nanos })
      ≡ true
    → now_secs * 1_000_000_000 + now_nanos
      < (secs * 1_000_000_000 + nanos) + (period_secs * 1_000_000_000 + period_nanos)
later_sum secs nanos period_secs period_nanos now_secs now_nanos small h = ground arith

pub check_freshness→now :
    (clock : Option Duration) (timestamp period : Duration)
    → check_freshness clock timestamp period ≡ ok tt
    → (now : Duration) × (clock ≡ some now)
      × (IsDuration now → nanoseconds now < nanoseconds timestamp + nanoseconds period)
unfolding check_freshness checked_add
check_freshness→now clock timestamp period h =
    let (expires_at, e, h1) = ok->>= (context overflow (checked_add timestamp period)) _ h in
    let (now, n, h2) = ok->>= (context io clock) _ h1 in
    let sum = context→some (checked_add timestamp period) overflow e in
    (
      now,
      context→some clock io n,
      λ sized.
          later_sum timestamp.secs timestamp.nanos period.secs period.nanos now.secs now.nanos
            sized.nanos_small (added timestamp period expires_at now sum (guard→true _ expired h2)),
    )
  where
    added :
        (timestamp period expires_at now : Duration)
        → checked_add timestamp period ≡ some expires_at
        → later expires_at now ≡ true
        → later
            (record {
              secs =
                  timestamp.secs + period.secs + (timestamp.nanos + period.nanos) / 1_000_000_000;
              nanos = (timestamp.nanos + period.nanos) % 1_000_000_000;
            })
            now
          ≡ true
    added timestamp period expires_at now sum h =
        elim (Bool-cases (
          ltb (timestamp.secs + period.secs + (timestamp.nanos + period.nanos) / 1_000_000_000)
            (2 ^ 64))) [
              | inl fits ↦ let same = rw fits at sum in cc
              | inr never ↦ let same = rw never at sum in absurd cc
            ]

-- A sequence of named fields, each name and each value with its length in front.
abbrev pub framed : List (Bytes × Bytes) → Bytes
framed [] = []
framed ((field_name, value) ∷ fields) =
    be64 (length field_name) ++ (field_name ++ (be64 (length value) ++ (value ++ framed fields)))

append_field-framed :
    (out field_name value : Bytes) (fields : List (Bytes × Bytes))
    → append_field out field_name value ++ framed fields
      ≡ out ++ framed ((field_name, value) ∷ fields)
unfolding append_field
append_field-framed out field_name value fields = simp append_assoc refl

append_fields : Bytes → List (Bytes × Bytes) → Bytes
append_fields out [] = out
append_fields out ((field_name, value) ∷ fields) =
    append_fields (append_field out field_name value) fields

append_fields-framed :
    (fields : List (Bytes × Bytes)) (out : Bytes) → append_fields out fields ≡ out ++ framed fields
unfolding append_fields
append_fields-framed [] out = sym (append-nil out)
append_fields-framed ((field_name, value) ∷ fields) out =
    append_fields-framed fields (append_field out field_name value)
    ∙ append_field-framed out field_name value fields

expect_ok-ok : {A : Type 0} (r : Result A) (a : A) → expect_ok r ≡ ok a → r ≡ ok a
expect_ok-ok (ok x) a h = h
expect_ok-ok (err e) a h = absurd cc
expect_ok-ok panic a h = absurd cc
expect_ok-ok stuck a h = absurd cc

module _ (c : Crypto) where
  -- The reply's key signs the proof and the attester's time and period.
  pub record ProofSigned (reply : EvidenceReply c) : Type 0 where
    pub proof_bytes : Bytes
    pub proof_of : c.proof.serialize reply.proof ≡ some proof_bytes
    pub verified :
        c.verify reply.pk
          (framed (
            (name_proof, proof_bytes)
            ∷ (name_timestamp_attester, serialize_duration reply.timestamp_attester)
            ∷ (name_period_attester, serialize_duration reply.period_attester)
            ∷ []))
          reply.proof_timestamp_period_signature
        ≡ true

  -- The reply's key signs all ten fields of the reply.
  pub record ReplySigned (reply : EvidenceReply c) (signature : c.Signature) : Type 0 where
    pub proof_bytes : Bytes
    pub vk_bytes : Bytes
    pub authorized_infor_bytes : Bytes
    pub proof_of : c.proof.serialize reply.proof ≡ some proof_bytes
    pub vk_of : c.ark_vk.serialize reply.vk ≡ some vk_bytes
    pub authorized_infor_of :
        c.scalar.serialize reply.authorized_infor ≡ some authorized_infor_bytes
    pub verified :
        c.verify reply.pk
          (framed (
            (name_proof, proof_bytes)
            ∷ (name_vk, vk_bytes)
            ∷ (name_sig, c.to_der reply.sig)
            ∷ (name_pk, c.to_encoded_point reply.pk)
            ∷ (name_timestamp, serialize_duration reply.timestamp)
            ∷ (name_period, serialize_duration reply.period)
            ∷ (name_authorized_infor, authorized_infor_bytes)
            ∷ (name_timestamp_attester, serialize_duration reply.timestamp_attester)
            ∷ (name_period_attester, serialize_duration reply.period_attester)
            ∷ (
              name_proof_timestamp_period_signature,
              c.to_der reply.proof_timestamp_period_signature,
            )
            ∷ []))
          signature
        ≡ true

module _ {c : Crypto} where
  pub check→ProofSigned :
      (reply : EvidenceReply c)
      → verify_evidence_reply_proof_timestamp_period_signature c reply ≡ ok tt
      → ProofSigned c reply
  unfolding verify_evidence_reply_proof_timestamp_period_signature reply_signing_bytes append_fields
  check→ProofSigned reply h =
      let (msg, m, h1) = ok->>= (reply_signing_bytes c reply) _ h in
      let (bytes, b, h2) = ok->>= (serialize_ark c.proof reply.proof) _ m in
      let fields =
        (name_proof, bytes)
        ∷ (name_timestamp_attester, serialize_duration reply.timestamp_attester)
        ∷ (name_period_attester, serialize_duration reply.period_attester)
        ∷ [] in
      let msg_is : msg ≡ framed fields = sym (ok_inj h2) ∙ append_fields-framed fields [] in
      record {
        proof_bytes = bytes;
        proof_of = context→some (c.proof.serialize reply.proof) serialize b;
        verified =
            ap (λ m. c.verify reply.pk m reply.proof_timestamp_period_signature) (sym msg_is)
            ∙ guard→true _ bad_signature h1;
      }

  pub check→ReplySigned :
      (reply : EvidenceReply c) (signature : c.Signature)
      → verify_evidence_reply_attester_signature c reply signature ≡ ok tt
      → ReplySigned c reply signature
  unfolding verify_evidence_reply_attester_signature to_signing_bytes_all_fields append_fields
  check→ReplySigned reply signature h =
      let (msg, e, h1) = ok->>= (expect_ok (to_signing_bytes_all_fields c reply)) _ h in
      let m = expect_ok-ok (to_signing_bytes_all_fields c reply) msg e in
      let (bytes, b, m1) = ok->>= (serialize_ark c.proof reply.proof) _ m in
      let (vk_bytes, v, m2) = ok->>= (serialize_ark c.ark_vk reply.vk) _ m1 in
      let (authorized, a, m3) = ok->>= (serialize_ark c.scalar reply.authorized_infor) _ m2 in
      let fields =
        (name_proof, bytes)
        ∷ (name_vk, vk_bytes)
        ∷ (name_sig, c.to_der reply.sig)
        ∷ (name_pk, c.to_encoded_point reply.pk)
        ∷ (name_timestamp, serialize_duration reply.timestamp)
        ∷ (name_period, serialize_duration reply.period)
        ∷ (name_authorized_infor, authorized)
        ∷ (name_timestamp_attester, serialize_duration reply.timestamp_attester)
        ∷ (name_period_attester, serialize_duration reply.period_attester)
        ∷ (name_proof_timestamp_period_signature, c.to_der reply.proof_timestamp_period_signature)
        ∷ [] in
      let msg_is : msg ≡ framed fields = sym (ok_inj m3) ∙ append_fields-framed fields [] in
      record {
        proof_bytes = bytes;
        vk_bytes = vk_bytes;
        authorized_infor_bytes = authorized;
        proof_of = context→some (c.proof.serialize reply.proof) serialize b;
        vk_of = context→some (c.ark_vk.serialize reply.vk) serialize v;
        authorized_infor_of = context→some (c.scalar.serialize reply.authorized_infor) serialize a;
        verified =
            ap (λ m. c.verify reply.pk m signature) (sym msg_is) ∙ guard→true _ bad_signature h1;
      }
