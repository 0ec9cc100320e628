-- ===== src/RelyingParty/Accepts.antt =====
-- relying-party/src/lib.rs and relying-party/src/hydra_listener.rs: when evidence is accepted.
use unified_attestation.Prelude.{
  Bool-cases, inl, inr, ◌+◌, ◌<◌, ◌≡◌, refl, ap, sym, ◌∙◌, Bool, true, false, Option, none, some,
  List, ◌∷◌, length, if◌then◌else◌, arith,
}
use unified_attestation.Outcome.{Error, Result, ok, err, panic, stuck, ◌>>=◌, expect_ok}
use unified_attestation.Bytes.{Bytes, Duration, IsDuration}
use unified_attestation.Crypto.{Crypto}
use unified_attestation.Messages.{tcp_read_frame, starts_with, tag_pubc, tag_evid}
use unified_attestation.Messages.Typed.{
  PublicContext, EvidenceReply, decode_public_context_message, decode_evidence_message,
  encode_public_context,
}
use unified_attestation.Evidence.{gen_public_inputs, to_signing_bytes_all_fields}
use unified_attestation.RelyingParty.{
  Ack, success, missing_public_context, ack, World, RpState, Step, attempt, send_ack, handle,
  dispatch, on_evidence, on_public_context, verify_with, rely_party_verification, verdict,
  verify_evidence_reply_attester_freshness, verify_evidence_reply_attester_signature,
  verify_evidence_reply_proof_timestamp_period_signature,
}
use unified_attestation.RelyingParty.Checked.{
  nanoseconds, check_freshness→now, ProofSigned, check→ProofSigned, ReplySigned, check→ReplySigned,
}

module _ (c : Crypto) where
  -- What stands behind an acceptance.
  pub record Accepted (w : World) (stream : Bytes) (st : RpState c) : Type 0 where
    pub message : Bytes
    pub rest : Bytes
    pub reply : EvidenceReply c
    pub signature : c.Signature
    pub ctx : PublicContext c
    pub frame_eq : tcp_read_frame stream ≡ ok (message, rest)
    pub decode_eq : decode_evidence_message c message ≡ ok (reply, signature)
    pub now : Duration
    pub clock_eq : w.now ≡ some now
    pub not_expired :
        nanoseconds now < nanoseconds reply.timestamp_attester + nanoseconds reply.period_attester
    pub proof_signed : ProofSigned c reply
    pub reply_signed : ReplySigned c reply signature
    pub cached_eq : st.cached ≡ some ctx
    pub proven :
        c.groth16_verify reply.vk (gen_public_inputs c reply ctx.root) reply.proof ≡ some true

longer : (a : Ack) (sent : List Ack) → sent ≡ a ∷ sent → ⊥
longer a sent e = omega (arith, ap length e)

ack_success : (b : Bool) → ack b ≡ success → b ≡ true
ack_success true h = refl
ack_success false h = absurd cc

verdict-true : (r : Option Bool) → verdict r ≡ true → r ≡ some true
verdict-true none h = absurd cc
verdict-true (some b) h = ap some h

with_value :
    {A B : Type 0} {b : Bool} (f : A → B) (m : Result A) (out : Bool × B)
    → (m >>= λ x. ok (b, f x)) ≡ ok out
    → out.0 ≡ true
    → b ≡ true
with_value f (ok x) out e h = cc
with_value f (err x) out e h = cc
with_value f panic out e h = cc
with_value f stuck out e h = cc

module _ {c : Crypto} where
  attempt_success :
      {A : Type 0} (st : RpState c) (m : Result A) (k : A → Step c) (a : Ack)
      → (attempt c st m k).0.sent ≡ a ∷ st.sent
      → (x : A) × (m ≡ ok x) × ((k x).0.sent ≡ a ∷ st.sent)
  attempt_success st (ok x) k a h = (x, refl, h)
  attempt_success st (err e) k a h = absurd (longer a st.sent h)
  attempt_success st panic k a h = absurd (longer a st.sent h)
  attempt_success st stuck k a h = absurd (longer a st.sent h)

  context_never_acknowledged :
      (w : World) (message : Bytes) (st : RpState c) (a : Ack)
      → (on_public_context c w message st).0.sent ≡ a ∷ st.sent
      → ⊥
  unfolding on_public_context
  context_never_acknowledged w message st a h =
      let (ctx, e, h1) = attempt_success st (decode_public_context_message c message) _ a h in
      let (bytes, e1, h2) = attempt_success st (encode_public_context c ctx) _ a h1 in
      elim (Bool-cases w.saves) [
        | inl t ↦ longer a st.sent (rw t at h2)
        | inr f ↦ longer a st.sent (rw f at h2)
      ]

  send_ack_success :
      (w : World) (st : RpState c) (a : Ack) (r : Result (Unit {0})) (sent : List Ack)
      → st.sent ≡ sent
      → (send_ack c w st a r).0.sent ≡ success ∷ sent
      → a ≡ success
  send_ack_success w st a r sent e h = elim (Bool-cases w.sends) [
    | inl t ↦ cc (rw t at h)
    | inr f ↦ absurd (longer success sent (sym e ∙ (rw f at h)))
  ]

  accepted_with :
      (w : World) (st : RpState c) (reply : EvidenceReply c) (sig : c.Signature)
      (cached : Option (PublicContext c))
      → (verify_with c w st reply sig cached).0.sent ≡ success ∷ st.sent
      → (ctx : PublicContext c) × (cached ≡ some ctx)
        × (c.groth16_verify reply.vk (gen_public_inputs c reply ctx.root) reply.proof ≡ some true)
  unfolding verify_with rely_party_verification
  accepted_with w st reply sig none h = absurd different
    where
      different : ⊥
      different = cc (send_ack_success w st missing_public_context _ st.sent refl h)
  accepted_with w st reply sig (some ctx) h =
      let verified = rely_party_verification c ctx.root reply sig ctx.verifier_pk in
      let (out, e, h1) = attempt_success st verified _ success h in
      (
        ctx,
        refl,
        verdict-true _ (
            with_value _ (expect_ok (to_signing_bytes_all_fields c reply)) out e
              (ack_success out.0 (send_ack_success w _ (ack out.0) _ st.sent refl h1))),
      )

  branch_success :
      (st : RpState c) (p q : Bool) (x y : Step c) (e : Error)
      → (x.0.sent ≡ success ∷ st.sent → ⊥)
      → (if p then x else if q then y else (st, err e)).0.sent ≡ success ∷ st.sent
      → (q ≡ true) × (y.0.sent ≡ success ∷ st.sent)
  branch_success st true q x y e never h = absurd (never h)
  branch_success st false true x y e never h = (refl, h)
  branch_success st false false x y e never h = absurd (longer success st.sent h)

  evidence_kind :
      (w : World) (st : RpState c) (message : Bytes)
      → (dispatch c w message st).0.sent ≡ success ∷ st.sent
      → (starts_with message tag_evid ≡ true)
        × ((on_evidence c w message st).0.sent ≡ success ∷ st.sent)
  unfolding dispatch
  evidence_kind w st message h =
      branch_success st (starts_with message tag_pubc) (starts_with message tag_evid) _ _ _
        (context_never_acknowledged w message st success) h

  -- When the handler of a connection answers "verification success", the peer sent an evidence
  -- message; by the clock, less time had passed than the reply's attester time and period together;
  -- the reply's own key verifies the one signature over the proof and these two durations, and the
  -- other over all ten fields; a public context was cached; and the Groth16 proof verified under the
  -- verifying key in the reply for the cached roots. A reading of the clock is as its type keeps it.
  pub handle-Accepted :
      (w : World) (stream : Bytes) (st : RpState c)
      → ((now : Duration) → w.now ≡ some now → IsDuration now)
      → (handle c w stream st).0.sent ≡ success ∷ st.sent
      → Accepted c w stream st
  unfolding handle on_evidence verify_evidence_reply_attester_freshness
  handle-Accepted w stream st sized h =
      let (frame, e0, h0) = attempt_success st (tcp_read_frame stream) _ success h in
      let (is_evidence, h1) = evidence_kind w st frame.0 h0 in
      let (msg, e1, h2) = attempt_success st (decode_evidence_message c frame.0) _ success h1 in
      let (u, e2, h3) =
        attempt_success st (verify_evidence_reply_attester_freshness c w.now msg.0) _ success h2 in
      let (u, e3, h4) =
        attempt_success st (verify_evidence_reply_proof_timestamp_period_signature c msg.0) _
          success h3 in
      let (u, e4, h5) =
        attempt_success st (verify_evidence_reply_attester_signature c msg.0 msg.1) _ success h4 in
      let (now, clock, unexpired) =
        check_freshness→now w.now msg.0.timestamp_attester msg.0.period_attester e2 in
      let (ctx, e5, e6) = accepted_with w st msg.0 msg.1 st.cached h5 in
      record {
        message = frame.0;
        rest = frame.1;
        reply = msg.0;
        signature = msg.1;
        ctx = ctx;
        frame_eq = e0;
        decode_eq = e1;
        now = now;
        clock_eq = clock;
        not_expired = unexpired (sized now clock);
        proof_signed = check→ProofSigned msg.0 e3;
        reply_signed = check→ReplySigned msg.0 msg.1 e4;
        cached_eq = e5;
        proven = e6;
      }
