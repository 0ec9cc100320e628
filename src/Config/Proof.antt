-- ===== src/Config/Proof.antt =====
-- attester/src/lib.rs, hydra-toolkit/src/lib.rs and relying-party/src/hydra_listener.rs: from the
-- verifier's response to the relying party's acceptance.
use unified_attestation.Prelude.{
  ◌+◌, ◌^◌, ◌<◌, ◌≤◌, ◌≡◌, refl, sym, ap, ◌∙◌, true, some, List, [], ◌∷◌, ◌++◌, length,
}
use unified_attestation.Outcome.{ok_inj, Result, ok, expect}
use unified_attestation.Bytes.{Bytes, Duration, IsDuration}
use unified_attestation.Crypto.{Crypto, CodecLaws, Verifies}
use unified_attestation.Messages.{tcp_send_frame, max_tcp_frame_len}
use unified_attestation.Messages.Typed.{
  ResponseDeviceInfor, PublicContext, EvidenceReply, encode_evidence_message,
}
use unified_attestation.Evidence.{
  append_field, name_proof, name_timestamp_attester, name_period_attester, serialize_duration,
  attester_period, sign_proof_timestamp_period, proof_timestamp_period_signing_bytes,
  gen_public_inputs, new_evidence_reply, to_signing_bytes_all_fields,
}
use unified_attestation.Authorization.{
  point_scalar, generate_verifier_authoried_infor, generate_device_authoried_infor,
  generate_device_client_infor, new_device_client_infor, generate_constraints,
}
use unified_attestation.RelyingParty.{success, World, RpState, handle}
use unified_attestation.RelyingParty.Honest.{to_signing_bytes_total, handle-new_evidence_reply}
use unified_attestation.Config.{
  DeviceConfigInfor, new_device_config_infor, new_circuit, circuit_holds, circuit_inputs, Prover,
  generate_device_evidence_from_config, Complete,
}

module _ {c : Crypto} where
  -- The circuit of a configuration that was made of a device's key and measurement and of the
  -- verifier's response holds exactly when the constraints hold for the information that the
  -- verifier authorized.
  circuit_holds-new :
      (measure : Bytes) (sent_at : Duration) (key : c.SigningKey) (res : ResponseDeviceInfor c)
      (root : List c.Scalar)
      → circuit_holds c (
          new_circuit c
            (new_device_config_infor c key (generate_device_client_infor c measure sent_at key) res)
            root
            res.shrubs_path
            res.shrubs_tag)
        ≡ generate_constraints c
            (c.from_bytes_be (c.to_bytes key))
            (c.from_bytes_be measure)
            (point_scalar c (c.verifying_key key))
            root
            (generate_device_authoried_infor c
              (generate_device_client_infor c measure sent_at key)
              res)
            (c.from_u64 res.timestamp.secs)
            (c.from_u64 res.period.secs)
            res.shrubs_path
            res.shrubs_tag
  unfolding circuit_holds new_circuit new_device_config_infor generate_device_client_infor
      new_device_client_infor generate_device_authoried_infor generate_verifier_authoried_infor
  circuit_holds-new measure sent_at key res root = refl

  -- The public inputs that the relying party computes are those of the circuit, in its order.
  gen_public_inputs-circuit_inputs :
      (reply : EvidenceReply c) (config : DeviceConfigInfor c) (root : List c.Scalar)
      → reply.pk ≡ config.verifying_key
      → reply.authorized_infor ≡ config.authorized_infor
      → reply.timestamp ≡ config.timestamp
      → reply.period ≡ config.period
      → gen_public_inputs c reply root
        ≡ circuit_inputs c (new_circuit c config root config.merkle_path config.merkle_tag)
  unfolding gen_public_inputs circuit_inputs new_circuit point_scalar
  gen_public_inputs-circuit_inputs reply config root pk infor ts per = rw (pk, infor, ts, per) refl

module _ {c : Crypto} (laws : CodecLaws c) where
  new_evidence_reply-total :
      (now : Duration) (proof : c.Proof) (vk : c.ArkVerifyingKey) (sig : c.Signature)
      (config : DeviceConfigInfor c)
      → (reply : EvidenceReply c) × (new_evidence_reply c now proof vk sig config.verifying_key
            config.timestamp config.period config.authorized_infor config.signing_key
          ≡ ok reply)
        × (reply.pk ≡ config.verifying_key)
        × (reply.authorized_infor ≡ config.authorized_infor)
        × (reply.timestamp ≡ config.timestamp)
        × (reply.period ≡ config.period)
  unfolding new_evidence_reply sign_proof_timestamp_period proof_timestamp_period_signing_bytes
  new_evidence_reply-total now proof vk sig config =
      let (b, w, r, short) = laws.proof_law proof in
      let period = attester_period c in
      let out =
        append_field
          (append_field (append_field [] name_proof b) name_timestamp_attester
            (serialize_duration now))
          name_period_attester (serialize_duration period) in
      let reply : EvidenceReply c = record {
        proof = proof;
        vk = vk;
        sig = sig;
        pk = config.verifying_key;
        timestamp = config.timestamp;
        period = config.period;
        authorized_infor = config.authorized_infor;
        timestamp_attester = now;
        period_attester = period;
        proof_timestamp_period_signature = c.sign config.signing_key out;
      } in
      (reply, rw w refl, refl, refl, refl, refl)

  -- What generating evidence gives, with its parts.
  record Generated (p : Prover c) (now : Duration) (root : List c.Scalar)
      (config : DeviceConfigInfor c) (sig : c.Signature)
      (out : Result (EvidenceReply c × c.Signature)) : Type 0 where
    pub reply : EvidenceReply c
    pub proof : c.Proof
    pub vk : c.ArkVerifyingKey
    pub msg : Bytes
    pub made :
        new_evidence_reply c now proof vk sig config.verifying_key config.timestamp config.period
          config.authorized_infor config.signing_key
        ≡ ok reply
    pub signed : to_signing_bytes_all_fields c reply ≡ ok msg
    pub proven : c.groth16_verify vk (gen_public_inputs c reply root) proof ≡ some true
    pub out_eq : out ≡ ok (reply, c.sign config.signing_key msg)

  generate-Generated :
      (p : Prover c) (r1 r2 : p.Random) (now : Duration) (root : List c.Scalar)
      (config : DeviceConfigInfor c) (sig : c.Signature)
      → Complete c p
      → config.signature ≡ some sig
      → circuit_holds c (new_circuit c config root config.merkle_path config.merkle_tag) ≡ ok true
      → Generated p now root config sig
          (generate_device_evidence_from_config c p r1 r2 now root config)
  unfolding generate_device_evidence_from_config
  generate-Generated p r1 r2 now root config sig complete has_sig holds =
      let circuit = new_circuit c config root config.merkle_path config.merkle_tag in
      let (pkk, vk, proof, setup, proved, verifies) = complete circuit r1 r2 holds in
      let (reply, made, pk, infor, ts, per) = new_evidence_reply-total now proof vk sig config in
      let (msg, signed) = to_signing_bytes_total laws reply in
      let first : expect config.signature ≡ ok sig = ap expect has_sig in
      let same = gen_public_inputs-circuit_inputs reply config root pk infor ts per in
      record {
        reply = reply;
        proof = proof;
        vk = vk;
        msg = msg;
        made = made;
        signed = signed;
        proven = rw same verifies;
        out_eq = rw (setup, proved, first, made, signed) refl;
      }

  -- A configuration whose circuit holds for the roots, and that has the verifier's signature,
  -- gives evidence: neither its setup nor its proof panics. Groth16 is complete, and the
  -- libraries' serializations round-trip.
  pub generate_device_evidence_from_config-circuit_holds :
      (p : Prover c) (r1 r2 : p.Random) (now : Duration) (root : List c.Scalar)
      (config : DeviceConfigInfor c) (sig : c.Signature)
      → Complete c p
      → config.signature ≡ some sig
      → circuit_holds c (new_circuit c config root config.merkle_path config.merkle_tag) ≡ ok true
      → (reply : EvidenceReply c) × (signature : c.Signature)
        × (generate_device_evidence_from_config c p r1 r2 now root config ≡ ok (reply, signature))
  generate_device_evidence_from_config-circuit_holds p r1 r2 now root config sig complete has_sig
        holds =
      let g = generate-Generated p r1 r2 now root config sig complete has_sig holds in
      (g.reply, c.sign config.signing_key g.msg, g.out_eq)

  -- Evidence that is made of a configuration whose circuit holds is accepted by a relying party
  -- that has the circuit's roots cached: at a time before the reply's 120 seconds have passed, a
  -- handler that can answer sends "verification success". Groth16 is complete, the libraries'
  -- serializations round-trip, a key verifies what it signs, the public key of the configuration
  -- is that of its secret key, the durations are as their type keeps them, and the message is
  -- encoded and fits into a frame.
  pub handle-generate_device_evidence_from_config :
      (p : Prover c) (r1 r2 : p.Random) (w : World) (st : RpState c) (made now : Duration)
      (config : DeviceConfigInfor c) (sig signature : c.Signature) (reply : EvidenceReply c)
      (ctx : PublicContext c) (bs rest : Bytes)
      → Verifies c
      → Complete c p
      → config.verifying_key ≡ c.verifying_key config.signing_key
      → config.signature ≡ some sig
      → circuit_holds c (new_circuit c config ctx.root config.merkle_path config.merkle_tag)
        ≡ ok true
      → generate_device_evidence_from_config c p r1 r2 made ctx.root config ≡ ok (reply, signature)
      → encode_evidence_message c reply signature ≡ ok bs
      → length bs ≤ max_tcp_frame_len
      → IsDuration made
      → IsDuration config.timestamp
      → IsDuration config.period
      → w.now ≡ some now
      → made.secs + 121 < 2 ^ 64
      → now.secs < made.secs + 120
      → w.sends ≡ true
      → st.cached ≡ some ctx
      → (handle c w (tcp_send_frame bs ++ rest) st).0.sent ≡ success ∷ st.sent
  handle-generate_device_evidence_from_config p r1 r2 w st made now config sig signature reply ctx
        bs rest verifies complete key has_sig holds generated encoded small d1 d2 d3 clock late soon
        sends cached =
      let g = generate-Generated p r1 r2 made ctx.root config sig complete has_sig holds in
      let same : (reply, signature) ≡ (g.reply, c.sign config.signing_key g.msg) =
        ok_inj (sym generated ∙ g.out_eq) in
      let encoded' : encode_evidence_message c g.reply (c.sign config.signing_key g.msg) ≡ ok bs =
        sym (ap (λ (m : EvidenceReply c × c.Signature). encode_evidence_message c m.0 m.1) same)
        ∙ encoded in
      handle-new_evidence_reply laws verifies w st made now config.timestamp config.period g.proof
        g.vk sig config.authorized_infor config.signing_key g.reply g.msg bs rest ctx
        (rw key at g.made) g.signed encoded' small d1 d2 d3 clock late soon sends cached g.proven
