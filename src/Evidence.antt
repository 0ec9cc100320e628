-- ===== src/Evidence.antt =====
-- hydra-toolkit/src/lib.rs: what an attester signs when it makes an evidence reply, and the
-- public inputs of its proof. Field names are their ASCII bytes.
use unified_attestation.Prelude.{◌*◌, List, [], ◌∷◌, ◌++◌, length}
use unified_attestation.Outcome.{Result, ok, ◌>>=◌, context, expect_ok, serialize}
use unified_attestation.Bytes.{Bytes, be32, be64, Duration}
use unified_attestation.Crypto.{Crypto, Codec}
use unified_attestation.Messages.Typed.{EvidenceReply}

abbrev pub name_proof : Bytes
name_proof = 112 ∷ 114 ∷ 111 ∷ 111 ∷ 102 ∷ []

abbrev pub name_vk : Bytes
name_vk = 118 ∷ 107 ∷ []

abbrev pub name_sig : Bytes
name_sig = 115 ∷ 105 ∷ 103 ∷ []

abbrev pub name_pk : Bytes
name_pk = 112 ∷ 107 ∷ []

abbrev pub name_timestamp : Bytes
name_timestamp = 116 ∷ 105 ∷ 109 ∷ 101 ∷ 115 ∷ 116 ∷ 97 ∷ 109 ∷ 112 ∷ []

abbrev pub name_period : Bytes
name_period = 112 ∷ 101 ∷ 114 ∷ 105 ∷ 111 ∷ 100 ∷ []

abbrev pub name_authorized_infor : Bytes
name_authorized_infor =
    97 ∷ 117 ∷ 116 ∷ 104 ∷ 111 ∷ 114 ∷ 105 ∷ 122 ∷ 101 ∷ 100 ∷ 95 ∷ 105 ∷ 110 ∷ 102 ∷ 111 ∷ 114 ∷ []

abbrev pub name_timestamp_attester : Bytes
name_timestamp_attester =
    116 ∷ 105 ∷ 109 ∷ 101 ∷ 115 ∷ 116 ∷ 97 ∷ 109 ∷ 112 ∷ 95 ∷ 97 ∷ 116 ∷ 116 ∷ 101 ∷ 115 ∷ 116 ∷ 101
    ∷ 114 ∷ []

abbrev pub name_period_attester : Bytes
name_period_attester =
    112 ∷ 101 ∷ 114 ∷ 105 ∷ 111 ∷ 100 ∷ 95 ∷ 97 ∷ 116 ∷ 116 ∷ 101 ∷ 115 ∷ 116 ∷ 101 ∷ 114 ∷ []

abbrev pub name_proof_timestamp_period_signature : Bytes
name_proof_timestamp_period_signature =
    112 ∷ 114 ∷ 111 ∷ 111 ∷ 102 ∷ 95 ∷ 116 ∷ 105 ∷ 109 ∷ 101 ∷ 115 ∷ 116 ∷ 97 ∷ 109 ∷ 112 ∷ 95 ∷ 112
    ∷ 101 ∷ 114 ∷ 105 ∷ 111 ∷ 100 ∷ 95 ∷ 115 ∷ 105 ∷ 103 ∷ 110 ∷ 97 ∷ 116 ∷ 117 ∷ 114 ∷ 101 ∷ []

unfoldable pub append_field : Bytes → Bytes → Bytes → Bytes
append_field out field_name field_data =
    (((out ++ be64 (length field_name)) ++ field_name) ++ be64 (length field_data)) ++ field_data

abbrev pub serialize_duration : Duration → Bytes
serialize_duration d = be64 d.secs ++ be32 d.nanos

abbrev pub serialize_ark : {A : Type 0} → Codec A → A → Result Bytes
serialize_ark codec x = context serialize (codec.serialize x)

module _ (c : Crypto) where
  unfoldable pub gen_public_inputs : EvidenceReply c → List c.Scalar → List c.Scalar
  gen_public_inputs reply root =
      c.from_bytes_be (c.to_encoded_point reply.pk)
      ∷ (root
          ++ (reply.authorized_infor
              ∷ c.from_u64 reply.timestamp.secs
              ∷ c.from_u64 reply.period.secs
              ∷ []))

  unfoldable pub to_signing_bytes_all_fields : EvidenceReply c → Result Bytes
  to_signing_bytes_all_fields reply = do
    proof_bytes ← serialize_ark c.proof reply.proof
    let out = append_field [] name_proof proof_bytes
    vk_bytes ← serialize_ark c.ark_vk reply.vk
    let out = append_field out name_vk vk_bytes
    let out = append_field out name_sig (c.to_der reply.sig)
    let out = append_field out name_pk (c.to_encoded_point reply.pk)
    let out = append_field out name_timestamp (serialize_duration reply.timestamp)
    let out = append_field out name_period (serialize_duration reply.period)
    authorized_infor_bytes ← serialize_ark c.scalar reply.authorized_infor
    let out = append_field out name_authorized_infor authorized_infor_bytes
    let out = append_field out name_timestamp_attester (serialize_duration reply.timestamp_attester)
    let out = append_field out name_period_attester (serialize_duration reply.period_attester)
    let proof_sig_der = c.to_der reply.proof_timestamp_period_signature
    ok (append_field out name_proof_timestamp_period_signature proof_sig_der)

  unfoldable pub proof_timestamp_period_signing_bytes : c.Proof → Duration → Duration → Result Bytes
  proof_timestamp_period_signing_bytes proof timestamp_attester period_attester = do
    proof_bytes ← serialize_ark c.proof proof
    let out = append_field [] name_proof proof_bytes
    let out = append_field out name_timestamp_attester (serialize_duration timestamp_attester)
    ok (append_field out name_period_attester (serialize_duration period_attester))

  unfoldable pub sign_proof_timestamp_period :
      c.SigningKey → c.Proof → Duration → Duration → Result c.Signature
  sign_proof_timestamp_period key proof timestamp_attester period_attester = do
    msg ← proof_timestamp_period_signing_bytes proof timestamp_attester period_attester
    ok (c.sign key msg)

  -- `EVIDENCE_REPLY_ATTESTER_PERIOD_SECS`
  abbrev pub attester_period : Duration
  attester_period = record { secs = 2 * 60; nanos = 0 }

  -- `now` is the clock.
  unfoldable pub new_evidence_reply :
      Duration
      → c.Proof
      → c.ArkVerifyingKey
      → c.Signature
      → c.VerifyingKey
      → Duration
      → Duration
      → c.Scalar
      → c.SigningKey
      → Result (EvidenceReply c)
  new_evidence_reply now proof vk sig pk timestamp period authorized_infor key = do
    signature ← expect_ok (sign_proof_timestamp_period key proof now attester_period)
    ok (record {
      proof = proof;
      vk = vk;
      sig = sig;
      pk = pk;
      timestamp = timestamp;
      period = period;
      authorized_infor = authorized_infor;
      timestamp_attester = now;
      period_attester = attester_period;
      proof_timestamp_period_signature = signature;
    })
