-- ===== src/Config.antt =====
-- attester/src/lib.rs: the device configuration that an attester keeps in a file, the circuit's
-- inputs, and the evidence that is made from it. Its codec helpers are copies of those of
-- hydra-toolkit/src/lib.rs. The file system, the clock and the random numbers come from outside.
pub mod Saved
pub mod Proof
use unified_attestation.Prelude.{
  ℕ, ◌≡◌, Bool, true, false, Option, none, some, List, [], ◌∷◌, ◌++◌, length, ◌==◌, if◌then◌else◌,
}
use unified_attestation.Outcome.{
  Result, ok, err, panic, ◌>>=◌, context, expect, expect_ok, guard, io, secret_key,
  secret_key_length,
}
use unified_attestation.Bytes.{Bytes, Duration}
use unified_attestation.Crypto.{Crypto}
use unified_attestation.Wire.{
  Reader, append_len_bytes, read_len_bytes, append_duration, read_duration, append_scalar,
  read_scalar, append_scalar_vec, read_scalar_vec, append_option_bool_vec, read_option_bool_vec,
  append_signature, read_signature, append_verifying_key, read_verifying_key, read_option,
}
use unified_attestation.Messages.Typed.{DeviceClientInfor, ResponseDeviceInfor, EvidenceReply}
use unified_attestation.Evidence.{new_evidence_reply, to_signing_bytes_all_fields}
use unified_attestation.Authorization.{
  point_scalar, generate_verifier_authoried_infor, generate_constraints,
}

-- `SigningKey::from_bytes` of k256.
abbrev pub KeyReader : Crypto → Type 0
KeyReader c = Bytes → Option c.SigningKey

module _ (c : Crypto) where
  pub record DeviceConfigInfor : Type 0 where
    pub signing_key : c.SigningKey
    pub verifying_key : c.VerifyingKey
    pub measured_value : c.Scalar
    pub timestamp : Duration
    pub period : Duration
    pub merkle_leaf : c.Scalar
    pub merkle_path : Option (List c.Scalar)
    pub merkle_tag : Option (List Bool)
    pub authorized_infor : c.Scalar
    pub signature : Option c.Signature

  unfoldable pub new_device_config_infor :
      c.SigningKey → DeviceClientInfor c → ResponseDeviceInfor c → DeviceConfigInfor
  new_device_config_infor key dev_cli dec_res =
      let pk = point_scalar c (c.verifying_key key) in
      let ar = c.from_bytes_be dev_cli.measured_value in
      let time = c.from_u64 dec_res.timestamp.secs in
      let peri = c.from_u64 dec_res.period.secs in
      record {
        signing_key = key;
        verifying_key = c.verifying_key key;
        measured_value = ar;
        timestamp = dec_res.timestamp;
        period = dec_res.period;
        merkle_leaf = dev_cli.merkle_leaf;
        merkle_path = dec_res.shrubs_path;
        merkle_tag = dec_res.shrubs_tag;
        authorized_infor = generate_verifier_authoried_infor c ar pk time peri;
        signature = dec_res.sig;
      }

  unfoldable pub append_option_scalar_vec : Bytes → Option (List c.Scalar) → Result Bytes
  append_option_scalar_vec out (some values) = append_scalar_vec c (out ++ (1 ∷ [])) values
  append_option_scalar_vec out none = ok (out ++ (0 ∷ []))

  unfoldable pub read_option_scalar_vec : Reader (Option (List c.Scalar))
  read_option_scalar_vec = read_option (read_scalar_vec c)

  unfoldable pub append_option_signature : Bytes → Option c.Signature → Bytes
  append_option_signature out (some sig) = append_signature c (out ++ (1 ∷ [])) sig
  append_option_signature out none = out ++ (0 ∷ [])

  unfoldable pub read_option_signature : Reader (Option c.Signature)
  read_option_signature = read_option (read_signature c)

  -- The content of the file, or an error. `dir` and `writes` tell whether the directory can be made
  -- and the file written.
  unfoldable pub save_device_config_infor : (dir writes : Bool) → DeviceConfigInfor → Result Bytes
  save_device_config_infor dir writes value = do
    done ← guard dir io
    let out = append_len_bytes [] (c.to_bytes value.signing_key)
    let out = append_verifying_key c out value.verifying_key
    out ← append_scalar c out value.measured_value
    let out = append_duration out value.timestamp
    let out = append_duration out value.period
    out ← append_scalar c out value.merkle_leaf
    out ← append_option_scalar_vec out value.merkle_path
    let out = append_option_bool_vec out value.merkle_tag
    out ← append_scalar c out value.authorized_infor
    let out = append_option_signature out value.signature
    done ← guard writes io
    ok out

  -- `file` is the content, where it can be read.
  unfoldable pub load_device_config_infor : KeyReader c → Option Bytes → Result DeviceConfigInfor
  load_device_config_infor from_bytes file = do
    s ← context io file
    (sk_bytes, s) ← read_len_bytes s
    done ← guard (length sk_bytes == 32) (secret_key_length (length sk_bytes))
    signing_key ← context secret_key (from_bytes sk_bytes)
    (verifying_key, s) ← read_verifying_key c s
    (measured_value, s) ← read_scalar c s
    (timestamp, s) ← read_duration s
    (period, s) ← read_duration s
    (merkle_leaf, s) ← read_scalar c s
    (merkle_path, s) ← read_option_scalar_vec s
    (merkle_tag, s) ← read_option_bool_vec s
    (authorized_infor, s) ← read_scalar c s
    (signature, s) ← read_option_signature s
    ok (record {
      signing_key = signing_key;
      verifying_key = verifying_key;
      measured_value = measured_value;
      timestamp = timestamp;
      period = period;
      merkle_leaf = merkle_leaf;
      merkle_path = merkle_path;
      merkle_tag = merkle_tag;
      authorized_infor = authorized_infor;
      signature = signature;
    })

  pub record AttestationCircuit : Type 0 where
    pub pk : c.Scalar
    pub sk : c.Scalar
    pub ar : c.Scalar
    pub time : c.Scalar
    pub period : c.Scalar
    pub output : c.Scalar
    pub root : List c.Scalar
    pub path : Option (List c.Scalar)
    pub tag : Option (List Bool)

  unfoldable pub new_circuit :
      DeviceConfigInfor
      → List c.Scalar
      → Option (List c.Scalar)
      → Option (List Bool)
      → AttestationCircuit
  new_circuit device_config root path tag = record {
    pk = point_scalar c device_config.verifying_key;
    sk = c.from_bytes_be (c.to_bytes device_config.signing_key);
    ar = device_config.measured_value;
    time = c.from_u64 device_config.timestamp.secs;
    period = c.from_u64 device_config.period.secs;
    output = device_config.authorized_infor;
    root = root;
    path = path;
    tag = tag;
  }

  -- Whether the constraints hold for the circuit's values.
  unfoldable pub circuit_holds : AttestationCircuit → Result Bool
  circuit_holds x =
      generate_constraints c x.sk x.ar x.pk x.root x.output x.time x.period x.path x.tag

  -- The values of `new_input`, in the order of their allocation.
  unfoldable pub circuit_inputs : AttestationCircuit → List c.Scalar
  circuit_inputs x = x.pk ∷ (x.root ++ (x.output ∷ x.time ∷ x.period ∷ []))

  -- `GrothSetup`, for given random numbers.
  pub record Prover : Type 1 where
    pub Random : Type 0
    pub ProvingKey : Type 0
    pub circuit_specific_setup :
        AttestationCircuit → Random → Option (ProvingKey × c.ArkVerifyingKey)
    pub prove : ProvingKey → AttestationCircuit → Random → Option c.Proof

module _ (c : Crypto) (p : Prover c) where
  unfoldable pub generate_device_evidence_from_config :
      p.Random
      → p.Random
      → Duration
      → List c.Scalar
      → DeviceConfigInfor c
      → Result (EvidenceReply c × c.Signature)
  generate_device_evidence_from_config setup_random prove_random now root dev_config = do
    let circuit = new_circuit c dev_config root dev_config.merkle_path dev_config.merkle_tag
    (pkk, vk) ← expect (p.circuit_specific_setup circuit setup_random)
    proof ← expect (p.prove pkk circuit prove_random)
    signature ← expect dev_config.signature
    evidence_reply ←
        new_evidence_reply c now proof vk signature dev_config.verifying_key dev_config.timestamp
          dev_config.period dev_config.authorized_infor dev_config.signing_key
    msg ← expect_ok (to_signing_bytes_all_fields c evidence_reply)
    ok (evidence_reply, c.sign dev_config.signing_key msg)

  -- The completeness of Groth16: where the constraints hold, the proof that is made with the
  -- circuit's own keys verifies for the circuit's public inputs.
  abbrev pub Complete : Type 0
  Complete =
      (circuit : AttestationCircuit c) (r1 r2 : p.Random)
      → circuit_holds c circuit ≡ ok true
      → (pkk : p.ProvingKey) × (vk : c.ArkVerifyingKey) × (proof : c.Proof)
        × (p.circuit_specific_setup circuit r1 ≡ some (pkk, vk))
        × (p.prove pkk circuit r2 ≡ some proof)
        × (c.groth16_verify vk (circuit_inputs c circuit) proof ≡ some true)
