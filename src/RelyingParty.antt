-- ===== src/RelyingParty.antt =====
-- relying-party/src/lib.rs and relying-party/src/hydra_listener.rs: the checks of an evidence
-- reply, and the handler of one connection. The clock, and whether a file or a socket can be
-- written, come from outside. What is printed is a list of events, an acknowledgement its case.
pub mod Accepts
pub mod Checked
pub mod Honest
use unified_attestation.Prelude.{
  ℕ, Bool, true, false, Option, none, some, List, [], ◌∷◌, ◌++◌, if◌then◌else◌,
}
use unified_attestation.Outcome.{
  Error, Result, ok, err, panic, stuck, ◌>>=◌, context, guard, expect_ok, overflow, expired,
  bad_signature, unknown_message, missing_context, io,
}
use unified_attestation.Bytes.{Bytes, be64, Duration, checked_add, later}
use unified_attestation.Crypto.{Crypto}
use unified_attestation.Messages.{tcp_read_frame, starts_with, tag_pubc, tag_evid}
use unified_attestation.Messages.Typed.{
  PublicContext, EvidenceReply, decode_public_context_message, decode_evidence_message,
  encode_public_context,
}
use unified_attestation.Evidence.{
  gen_public_inputs, to_signing_bytes_all_fields, append_field, serialize_ark, serialize_duration,
  name_proof, name_timestamp_attester, name_period_attester,
}

pub data Event : Type 0 where
  attester_signature verifier_signature proof_verified : Bool → Event
  proof_error : Event

pub data Ack : Type 0 where
  success failed missing_public_context : Ack
  error : Error → Ack

abbrev pub ack : Bool → Ack
ack verified = if verified then success else failed

-- What a call depends on besides its arguments.
pub record World : Type 0 where
  pub now : Option Duration
  pub saves : Bool
  pub sends : Bool

-- `timestamp_attester + period_attester` must lie after the clock's time.
unfoldable pub check_freshness : Option Duration → Duration → Duration → Result (Unit {0})
check_freshness clock timestamp period = do
  expires_at ← context overflow (checked_add timestamp period)
  now ← context io clock
  guard (later expires_at now) expired

abbrev pub proof_event : Option Bool → Event
proof_event none = proof_error
proof_event (some res) = proof_verified res

abbrev pub verdict : Option Bool → Bool
verdict none = false
verdict (some res) = res

module _ (c : Crypto) where
  unfoldable pub verify_evidence_reply_attester_freshness :
      Option Duration → EvidenceReply c → Result (Unit {0})
  verify_evidence_reply_attester_freshness clock reply =
      check_freshness clock reply.timestamp_attester reply.period_attester

  unfoldable pub reply_signing_bytes : EvidenceReply c → Result Bytes
  reply_signing_bytes reply = do
    proof_bytes ← serialize_ark c.proof reply.proof
    let out = append_field [] name_proof proof_bytes
    let out = append_field out name_timestamp_attester (serialize_duration reply.timestamp_attester)
    ok (append_field out name_period_attester (serialize_duration reply.period_attester))

  unfoldable pub verify_evidence_reply_proof_timestamp_period_signature :
      EvidenceReply c → Result (Unit {0})
  verify_evidence_reply_proof_timestamp_period_signature reply = do
    msg ← reply_signing_bytes reply
    guard (c.verify reply.pk msg reply.proof_timestamp_period_signature) bad_signature

  unfoldable pub verify_evidence_reply_attester_signature :
      EvidenceReply c → c.Signature → Result (Unit {0})
  verify_evidence_reply_attester_signature reply signature = do
    msg ← expect_ok (to_signing_bytes_all_fields c reply)
    guard (c.verify reply.pk msg signature) bad_signature

  unfoldable pub rely_party_verifier_sig : EvidenceReply c → c.VerifyingKey → Event
  rely_party_verifier_sig reply verifier_pk =
      let msg = c.to_encoded_point reply.pk in
      let msg = msg ++ c.to_string reply.authorized_infor in
      let msg = msg ++ be64 reply.timestamp.secs in
      let msg = msg ++ be64 reply.period.secs in
      verifier_signature (c.verify verifier_pk msg reply.sig)

  unfoldable pub rely_party_verification :
      List c.Scalar → EvidenceReply c → c.Signature → c.VerifyingKey → Result (Bool × List Event)
  rely_party_verification root reply signature verifier_pk = do
    let public_inputs = gen_public_inputs c reply root
    msg ← expect_ok (to_signing_bytes_all_fields c reply)
    let res = c.groth16_verify reply.vk public_inputs reply.proof
    ok (
      verdict res,
      attester_signature (c.verify reply.pk msg signature)
          ∷ rely_party_verifier_sig reply verifier_pk
          ∷ proof_event res
          ∷ [],
    )

  -- The cached context, the file `public_context.bin`, and, latest first, what was sent.
  pub record RpState : Type 0 where
    pub cached : Option (PublicContext c)
    pub saved : Option Bytes
    pub sent : List Ack
    pub events : List Event

module _ (c : Crypto) where
  abbrev pub Step : Type 0
  Step = RpState c × Result (Unit {0})

  -- `?` on a call that leaves the state alone.
  abbrev pub attempt {ℓ} : {A : Type ℓ} → RpState c → Result A → (A → Step) → Step
  attempt st (ok a) k = k a
  attempt st (err e) k = (st, err e)
  attempt st panic k = (st, panic)
  attempt st stuck k = (st, stuck)

  abbrev pub send_ack : World → RpState c → Ack → Result (Unit {0}) → Step
  send_ack w st a result =
      if w.sends then (record st { sent = a ∷ st.sent }, result) else (st, err io)

  unfoldable pub on_public_context : World → Bytes → RpState c → Step
  on_public_context w message st = attempt st (decode_public_context_message c message) λ ctx.
      attempt st (encode_public_context c ctx) λ bytes.
        if w.saves
        then (record st { cached = some ctx; saved = some bytes }, ok tt)
        else (st, err io)

  unfoldable pub verify_with :
      World → RpState c → EvidenceReply c → c.Signature → Option (PublicContext c) → Step
  verify_with w st reply sig none = send_ack w st missing_public_context (err missing_context)
  verify_with w st reply sig (some ctx) =
      attempt st (rely_party_verification c ctx.root reply sig ctx.verifier_pk)
        λ out. send_ack w (record st { events = out.1 ++ st.events }) (ack out.0) (ok tt)

  unfoldable pub on_evidence : World → Bytes → RpState c → Step
  on_evidence w message st = attempt st (decode_evidence_message c message) λ msg.
      attempt st (verify_evidence_reply_attester_freshness c w.now msg.0) λ fresh.
        attempt st (verify_evidence_reply_proof_timestamp_period_signature c msg.0) λ proven.
          attempt st (verify_evidence_reply_attester_signature c msg.0 msg.1)
            λ signed. verify_with w st msg.0 msg.1 st.cached

  unfoldable pub dispatch : World → Bytes → RpState c → Step
  dispatch w message st =
      if starts_with message tag_pubc
      then on_public_context w message st
      else if starts_with message tag_evid
      then on_evidence w message st
      else (st, err unknown_message)

  -- `stream` holds the bytes that the peer sends.
  unfoldable pub handle : World → Bytes → RpState c → Step
  handle w stream st = attempt st (tcp_read_frame stream) λ frame. dispatch w frame.0 st
