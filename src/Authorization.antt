-- ===== src/Authorization.antt =====
-- The authorization of a device: hydra-toolkit/src/lib.rs (leaf, authorized information, the
-- verifier's response on the wire), verifier/src/lib.rs, the request handler and the response of
-- verifier/src/hydra_daemon.rs, and the circuit of attester/src/lib.rs as a test of its inputs.
-- The clock and the measurement file come from outside.
pub mod Signature
pub mod Circuit
pub mod Response
use unified_attestation.Prelude.{
  ℕ, ◌&&◌, ◌++◌, Bool, true, false, Option, none, some, List, [], ◌∷◌, if◌then◌else◌,
}
use unified_attestation.Outcome.{
  Result, ok, err, panic, stuck, ◌>>=◌, context, deserialize_public_key, unknown_message,
}
use unified_attestation.Bytes.{Bytes, be64, Duration}
use unified_attestation.Crypto.{Crypto}
use unified_attestation.Wire.{
  append_len_bytes, read_len_bytes, encode_scalar, decode_scalar, decode_signature,
}
use unified_attestation.Messages.{
  ResponseDeviceInforWire, encode_response_device_infor_wire, decode_response_device_infor_wire,
  starts_with, tag_dinf, decode_signed_device_client_infor_message, tcp_read_frame,
}
use unified_attestation.Messages.Typed.{
  DeviceClientInfor, ResponseDeviceInfor, PublicContext, encode_public_context,
  decode_public_context, verify_signed_device_client_infor_wire,
}
use unified_attestation.ShrubsPath.{find_device_shrubs_path_tag, membership}
use unified_attestation.RelyingParty.{check_freshness}
use unified_attestation.Daemon.{AttesterSession, VerifierState, queue_attester}

-- `Option::map` with a call that can fail.
abbrev pub each_ok : {A B : Type 0} → (A → Result B) → List A → Result (List B)
each_ok f [] = ok []
each_ok f (a ∷ as') = do b ← f a; bs ← each_ok f as'; ok (b ∷ bs)

abbrev pub option_ok : {A B : Type 0} → (A → Result B) → Option A → Result (Option B)
option_ok f none = ok none
option_ok f (some a) = f a >>= λ b. ok (some b)

module _ (c : Crypto) where
  unfoldable pub point_scalar : c.VerifyingKey → c.Scalar
  point_scalar k = c.from_bytes_be (c.to_encoded_point k)

  -- `measure` is the measurement file.
  unfoldable pub generate_device_merkle_leaf : Bytes → c.SigningKey → c.Scalar
  generate_device_merkle_leaf measure key =
      let sk = c.from_bytes_be (c.to_bytes key) in
      let pk = point_scalar (c.verifying_key key) in
      let ar = c.from_bytes_be measure in c.hasher.hash (c.hasher.hash ar sk) pk

  -- 8,640,000 seconds.
  abbrev pub long_period : Duration
  long_period = record { secs = 8640000; nanos = 0 }

  unfoldable pub new_device_client_infor :
      Bytes → Duration → c.VerifyingKey → c.Scalar → DeviceClientInfor c
  new_device_client_infor measure now vk leaf = record {
    verifying_key = vk;
    measured_value = measure;
    merkle_leaf = leaf;
    timestamp = now;
    period = long_period;
  }

  unfoldable pub generate_device_client_infor :
      Bytes → Duration → c.SigningKey → DeviceClientInfor c
  generate_device_client_infor measure now key =
      new_device_client_infor measure now (c.verifying_key key)
        (generate_device_merkle_leaf measure key)

  unfoldable pub new_response_device_infor : Duration → c.VerifyingKey → ResponseDeviceInfor c
  new_response_device_infor now pk = record {
    verifying_key = pk;
    attester_addr = [];
    timestamp = now;
    period = long_period;
    sig = none;
    shrubs_path = none;
    shrubs_tag = none;
  }

  unfoldable pub set_signature : c.Signature → ResponseDeviceInfor c → ResponseDeviceInfor c
  set_signature sig value = record value { sig = some sig }

  unfoldable pub generate_verifier_authoried_infor :
      c.Scalar → c.Scalar → c.Scalar → c.Scalar → c.Scalar
  generate_verifier_authoried_infor ar pk time peri =
      let temp_1 = c.hasher.hash pk ar in
      let temp_2 = c.hasher.hash temp_1 time in c.hasher.hash temp_2 peri

  unfoldable pub generate_device_authoried_infor :
      DeviceClientInfor c → ResponseDeviceInfor c → c.Scalar
  generate_device_authoried_infor device time =
      let pk = point_scalar device.verifying_key in
      let ar = c.from_bytes_be device.measured_value in
      let temp_1 = c.hasher.hash pk ar in
      let temp_2 = c.hasher.hash temp_1 (c.from_u64 time.timestamp.secs) in
      c.hasher.hash temp_2 (c.from_u64 time.period.secs)

  unfoldable pub verifier_compute_sig :
      c.SigningKey → ResponseDeviceInfor c → c.Scalar → c.Signature
  verifier_compute_sig verifier_key device_time device_author_infor =
      let msg = c.to_encoded_point device_time.verifying_key in
      let msg = msg ++ c.to_string device_author_infor in
      let msg = msg ++ be64 device_time.timestamp.secs in
      let msg = msg ++ be64 device_time.period.secs in c.sign verifier_key msg

  unfoldable pub response_device_infor_to_wire :
      ResponseDeviceInfor c → Result ResponseDeviceInforWire
  response_device_infor_to_wire value = do
    shrubs_path ← option_ok (each_ok (encode_scalar c)) value.shrubs_path
    sig ← option_ok (λ s. ok (c.to_der s)) value.sig
    ok (record {
      verifying_key = c.to_encoded_point value.verifying_key;
      attester_addr = value.attester_addr;
      timestamp = value.timestamp;
      period = value.period;
      sig = sig;
      shrubs_path = shrubs_path;
      shrubs_tag = value.shrubs_tag;
    })

  unfoldable pub response_device_infor_from_wire :
      ResponseDeviceInforWire → Result (ResponseDeviceInfor c)
  response_device_infor_from_wire wire = do
    shrubs_path ← option_ok (each_ok (decode_scalar c)) wire.shrubs_path
    verifying_key ← context deserialize_public_key (c.from_sec1_bytes wire.verifying_key)
    sig ← option_ok (decode_signature c) wire.sig
    ok (record {
      verifying_key = verifying_key;
      attester_addr = wire.attester_addr;
      timestamp = wire.timestamp;
      period = wire.period;
      sig = sig;
      shrubs_path = shrubs_path;
      shrubs_tag = wire.shrubs_tag;
    })

  unfoldable pub encode_response_device_infor : ResponseDeviceInfor c → Result Bytes
  encode_response_device_infor value = do
    wire ← response_device_infor_to_wire value
    ok (encode_response_device_infor_wire wire)

  unfoldable pub decode_response_device_infor : Bytes → Result (ResponseDeviceInfor c)
  decode_response_device_infor bytes = do
    wire ← decode_response_device_infor_wire bytes
    response_device_infor_from_wire wire

  unfoldable pub encode_verifier_response : ResponseDeviceInfor c → PublicContext c → Result Bytes
  encode_verifier_response dev_res public_context = do
    dev_res_bytes ← encode_response_device_infor dev_res
    let out = append_len_bytes [] dev_res_bytes
    context_bytes ← encode_public_context c public_context
    ok (append_len_bytes out context_bytes)

  unfoldable pub decode_verifier_response : Bytes → Result (ResponseDeviceInfor c × PublicContext c)
  decode_verifier_response s = do
    (dev_res_bytes, s) ← read_len_bytes s
    (context_bytes, s) ← read_len_bytes s
    dev_res ← decode_response_device_infor dev_res_bytes
    public_context ← decode_public_context c context_bytes
    ok (dev_res, public_context)

  unfoldable pub verify_device_client_infor_freshness :
      Option Duration → DeviceClientInfor c → Result (Unit {0})
  verify_device_client_infor_freshness clock value =
      check_freshness clock value.timestamp value.period

  -- What an accepted connection of the daemon does before it queues the attester.
  unfoldable pub accept_request : Option Duration → Bytes → Result (DeviceClientInfor c)
  accept_request clock stream = do
    (message, rest) ← tcp_read_frame stream
    let known = do
      signed ← decode_signed_device_client_infor_message message
      device ← verify_signed_device_client_infor_wire c signed
      fresh ← verify_device_client_infor_freshness clock device
      ok device
    if starts_with message tag_dinf then known else err unknown_message

  unfoldable pub handle_request :
      Option Duration → ℕ → Bytes → Bytes → VerifierState c → VerifierState c × Result Bool
  handle_request clock socket peer_addr stream st = elim (accept_request clock stream) [
    | ok device ↦ let (st', start) = queue_attester c socket device peer_addr st in (st', ok start)
    | err e ↦ (st, err e)
    | panic ↦ (st, panic)
    | stuck ↦ (st, stuck)
  ]

  -- The response to an attester, before it is encrypted, once its path and tags are found.
  unfoldable pub respond_with :
      Duration
      → AttesterSession c
      → c.SigningKey
      → Option (List c.Scalar)
      → Option (List Bool)
      → ResponseDeviceInfor c
  respond_with now item verifier_key path tag =
      let fresh = new_response_device_infor now item.dev_infor.verifying_key in
      let dev_res : ResponseDeviceInfor c = elim item.response [ none ↦ fresh | some r ↦ r ] in
      let dev_res : ResponseDeviceInfor c = record dev_res {
        attester_addr = item.attester_addr;
        shrubs_path = path;
        shrubs_tag = tag;
      } in
      let infor = generate_device_authoried_infor item.dev_infor dev_res in
      set_signature (verifier_compute_sig verifier_key dev_res infor) dev_res

  unfoldable pub build_attester_response :
      Duration
      → AttesterSession c
      → List c.Scalar
      → List c.Scalar
      → c.SigningKey
      → Result (ResponseDeviceInfor c)
  build_attester_response now item root leaves verifier_key = do
    (path, tag) ← find_device_shrubs_path_tag c.hasher root leaves item.merkle_leaf
    ok (respond_with now item verifier_key path tag)

  -- Whether the constraints of the circuit hold; `pk`, `root`, `output`, `time` and `period` are
  -- its public inputs.
  unfoldable pub generate_constraints :
      c.Scalar
      → c.Scalar
      → c.Scalar
      → List c.Scalar
      → c.Scalar
      → c.Scalar
      → c.Scalar
      → Option (List c.Scalar)
      → Option (List Bool)
      → Result Bool
  generate_constraints sk ar pk root output time period path tag = do
    let m = c.hasher.hash ar sk
    let leaf = c.hasher.hash m pk
    in_tree ← membership c.hasher root leaf path tag
    let result_1 = c.hasher.hash pk ar
    let result_2 = c.hasher.hash result_1 time
    let result = c.hasher.hash result_2 period
    ok (in_tree && c.hasher.eq output result)
