-- ===== src/RelyingParty/Honest.antt =====
-- relying-party/src/lib.rs and relying-party/src/hydra_listener.rs: the evidence of an honest
-- attester is accepted, and what the verdict rests on.
use unified_attestation.Prelude.{
  ◌+◌, ◌*◌, ◌^◌, ◌<◌, ◌≤◌, ◌≡◌, refl, ap, sym, ◌∙◌, Bool, true, false, Option, some, List, [], ◌∷◌,
  ◌++◌, length, append-nil, arith,
}
use unified_attestation.Outcome.{ok_inj, Error, Result, ok, ◌>>=◌, context, expect_ok}
use unified_attestation.Bytes.{Bytes, Duration, IsDuration, checked_add}
use unified_attestation.Crypto.{Crypto, CodecLaws, Verifies}
use unified_attestation.Messages.{
  tcp_send_frame, max_tcp_frame_len, starts_with, tag_pubc, tag_evid,
}
use unified_attestation.Messages.Typed.{
  PublicContext, EvidenceReply, decode_evidence_message, encode_evidence_message,
}
use unified_attestation.Messages.Signed.{tcp_read_frame-tcp_send_frame}
use unified_attestation.Messages.Evidence.{IsReply, decode-encode_evidence_message}
use unified_attestation.Evidence.{
  gen_public_inputs, to_signing_bytes_all_fields, proof_timestamp_period_signing_bytes,
  sign_proof_timestamp_period, new_evidence_reply, attester_period,
}
use unified_attestation.RelyingParty.{
  Event, success, World, RpState, handle, dispatch, on_evidence, verify_with,
  rely_party_verification, verdict, verify_evidence_reply_attester_freshness,
  verify_evidence_reply_attester_signature, verify_evidence_reply_proof_timestamp_period_signature,
  reply_signing_bytes, check_freshness,
}

abbrev Gives {ℓ} : {A : Type ℓ} → Result A → Type ℓ
Gives {A} m = (x : A) × (m ≡ ok x)

Gives-bind :
    {A B : Type 0} (m : Result A) (k : A → Result B)
    → Gives m
    → ((x : A) → Gives (k x))
    → Gives (m >>= k)
Gives-bind m k (x, e) h = let (y, e') = h x in (y, rw e e')

serialize-Gives : (b : Bytes) (o : Option Bytes) (e : Error) → o ≡ some b → Gives (context e o)
serialize-Gives b o e h = (b, rw h refl)

with_message :
    {B : Type 0} (v : Bool) (m : Result Bytes) (f : Bytes → B)
    → Gives m
    → (b : B) × (◌>>=◌ {B = Bool × B} (expect_ok m) (λ x. ok (v, f x)) ≡ ok (v, b))
with_message v m f (x, e) = (f x, rw e refl)

check_freshness_lem :
    (made now : Duration)
    → IsDuration made
    → made.secs + 121 < 2 ^ 64
    → now.secs < made.secs + 120
    → check_freshness (some now) made (record { secs = 2 * 60; nanos = 0 }) ≡ ok tt
unfolding check_freshness checked_add
check_freshness_lem made now h late soon = ground (arith, h.nanos_small)

module _ {c : Crypto} (laws : CodecLaws c) where
  pub to_signing_bytes_total :
      (reply : EvidenceReply c) → (msg : Bytes) × (to_signing_bytes_all_fields c reply ≡ ok msg)
  unfolding to_signing_bytes_all_fields
  to_signing_bytes_total reply =
      Gives-bind _ _ (serialize-Gives _ _ _ ((laws.proof_law reply.proof).1)) λ b1.
        Gives-bind _ _ (serialize-Gives _ _ _ ((laws.ark_vk_law reply.vk).1)) λ b2.
          Gives-bind _ _ (serialize-Gives _ _ _ ((laws.scalar_law reply.authorized_infor).1))
            λ b3. (_, refl)

  -- Where the libraries' serializations round-trip, the verdict on evidence is that of the
  -- Groth16 verification alone: it is the same for every signature of the reply, every signature
  -- of the verifier and every verifier's key.
  pub rely_party_verification-verdict :
      (root : List c.Scalar) (reply : EvidenceReply c) (sig signature : c.Signature)
      (verifier_pk : c.VerifyingKey)
      → (events : List Event) × (rely_party_verification c root
            (record reply { sig = sig })
            signature
            verifier_pk
          ≡ ok (
            verdict (c.groth16_verify reply.vk (gen_public_inputs c reply root) reply.proof),
            events,
          ))
  unfolding rely_party_verification gen_public_inputs
  rely_party_verification-verdict root reply sig signature verifier_pk =
      with_message _ _ _ (to_signing_bytes_total (record reply { sig = sig }))

  -- What the attester signs is what the relying party checks.
  reply_signing_bytes_lem :
      (reply : EvidenceReply c)
      → reply_signing_bytes c reply
        ≡ proof_timestamp_period_signing_bytes c reply.proof reply.timestamp_attester
            reply.period_attester
  unfolding reply_signing_bytes proof_timestamp_period_signing_bytes
  reply_signing_bytes_lem reply = refl

  -- A reply as its constructor leaves it.
  abbrev Honest :
      c.SigningKey
      → Duration
      → Duration
      → Duration
      → c.Proof
      → c.ArkVerifyingKey
      → EvidenceReply c
      → Type 0
  Honest key made timestamp period proof vk reply =
      (reply.pk ≡ c.verifying_key key)
      × (reply.timestamp_attester ≡ made)
      × (reply.period_attester ≡ attester_period c)
      × (reply.timestamp ≡ timestamp)
      × (reply.period ≡ period)
      × (reply.proof ≡ proof)
      × (reply.vk ≡ vk)
      × ((m : Bytes) × (proof_timestamp_period_signing_bytes c proof made (attester_period c)
            ≡ ok m)
          × (reply.proof_timestamp_period_signature ≡ c.sign key m))

  new_evidence_reply-Honest :
      (made timestamp period : Duration) (proof : c.Proof) (vk : c.ArkVerifyingKey)
      (sig : c.Signature) (infor : c.Scalar) (key : c.SigningKey) (reply : EvidenceReply c)
      → new_evidence_reply c made proof vk sig (c.verifying_key key) timestamp period infor key
        ≡ ok reply
      → Honest key made timestamp period proof vk reply
  unfolding new_evidence_reply sign_proof_timestamp_period
  new_evidence_reply-Honest made timestamp period proof vk sig infor key reply h =
      let (m, e) = signing_bytes proof made in
      let same = ok_inj (rw e at h) in
      (
        sym (ap (λ r. r.pk) same),
        sym (ap (λ r. r.timestamp_attester) same),
        sym (ap (λ r. r.period_attester) same),
        sym (ap (λ r. r.timestamp) same),
        sym (ap (λ r. r.period) same),
        sym (ap (λ r. r.proof) same),
        sym (ap (λ r. r.vk) same),
        (m, e, sym (ap (λ r. r.proof_timestamp_period_signature) same)),
      )
    where
      signing_bytes :
          (proof : c.Proof) (made : Duration)
          → Gives (proof_timestamp_period_signing_bytes c proof made (attester_period c))
      signing_bytes proof made =
          unfold proof_timestamp_period_signing_bytes in
          Gives-bind _ _ (serialize-Gives _ _ _ ((laws.proof_law proof).1)) λ b. (_, refl)

  evidence_tag :
      (reply : EvidenceReply c) (sig : c.Signature) (bs : Bytes)
      → IsReply reply
      → encode_evidence_message c reply sig ≡ ok bs
      → (starts_with bs tag_pubc ≡ false)
        × (starts_with bs tag_evid ≡ true)
        × (decode_evidence_message c bs ≡ ok (reply, sig))
  evidence_tag reply sig bs good h =
      let (payload, e, r) = decode-encode_evidence_message laws reply sig good in
      let same = ok_inj (sym h ∙ e) in
      (rw same refl, rw same refl, rw same (rw append-nil at (r [])))

  two_minutes : IsDuration (attester_period c)
  two_minutes = record { secs_u64 = omega arith; nanos_small = omega arith }

  module _ (verifies : Verifies c) where
    -- Evidence that an honest attester makes passes the checks of the relying party: at a time
    -- before its 120 seconds have passed, a handler that has a public context cached and can
    -- answer sends "verification success" if the Groth16 proof verifies for the cached roots. The
    -- libraries' serializations round-trip, a key verifies what it signs, the durations are as
    -- their type keeps them, and the message fits into a frame.
    pub handle-new_evidence_reply :
        (w : World) (st : RpState c) (made now timestamp period : Duration) (proof : c.Proof)
        (vk : c.ArkVerifyingKey) (sig : c.Signature) (infor : c.Scalar) (key : c.SigningKey)
        (reply : EvidenceReply c) (msg bs rest : Bytes) (ctx : PublicContext c)
        → new_evidence_reply c made proof vk sig (c.verifying_key key) timestamp period infor key
          ≡ ok reply
        → to_signing_bytes_all_fields c reply ≡ ok msg
        → encode_evidence_message c reply (c.sign key msg) ≡ ok bs
        → length bs ≤ max_tcp_frame_len
        → IsDuration made
        → IsDuration timestamp
        → IsDuration period
        → w.now ≡ some now
        → made.secs + 121 < 2 ^ 64
        → now.secs < made.secs + 120
        → w.sends ≡ true
        → st.cached ≡ some ctx
        → c.groth16_verify vk (gen_public_inputs c reply ctx.root) proof ≡ some true
        → (handle c w (tcp_send_frame bs ++ rest) st).0.sent ≡ success ∷ st.sent
    unfolding handle dispatch on_evidence verify_with gen_public_inputs
    handle-new_evidence_reply w st made now timestamp period proof vk sig infor key reply msg bs
          rest ctx e1 e2 e3 small d1 d2 d3 clock late soon sends cached proven =
        let (pk, ta, pa, tt', tp, pf, pv, (m, em, sg)) =
          new_evidence_reply-Honest made timestamp period proof vk sig infor key reply e1 in
        let good : IsReply reply = record {
          timestamp_ok = rw tt' d2;
          period_ok = rw tp d3;
          timestamp_attester_ok = rw ta d1;
          period_attester_ok = rw pa two_minutes;
        } in
        let (not_context, is_evidence, decoded) = evidence_tag reply (c.sign key msg) bs good e3 in
        let fresh : verify_evidence_reply_attester_freshness c w.now reply ≡ ok tt =
          unfold verify_evidence_reply_attester_freshness in
          rw (clock, ta, pa) (check_freshness_lem made now d1 late soon) in
        let proof_sig : verify_evidence_reply_proof_timestamp_period_signature c reply ≡ ok tt =
          unfold verify_evidence_reply_proof_timestamp_period_signature in
          rw (reply_signing_bytes_lem reply, pf, ta, pa, em, pk, sg, verifies key m) refl in
        let reply_sig : verify_evidence_reply_attester_signature c reply (c.sign key msg) ≡ ok tt =
          unfold verify_evidence_reply_attester_signature in rw (e2, pk, verifies key msg) refl in
        let (events, judged) =
          rely_party_verification-verdict ctx.root reply reply.sig (c.sign key msg)
            ctx.verifier_pk in
        let groth : c.groth16_verify reply.vk (gen_public_inputs c reply ctx.root) reply.proof
            ≡ some true =
          rw (pv, pf) proven in
        rw
          (
            tcp_read_frame-tcp_send_frame bs rest small,
            not_context,
            is_evidence,
            decoded,
            fresh,
            proof_sig,
            reply_sig,
            cached,
            judged,
            groth,
            sends,
          )
          refl
