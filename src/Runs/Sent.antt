-- ===== src/Runs/Sent.antt =====
-- Runs of what a batch sends.
use unified_attestation.Prelude.{
  ℕ, ◌≡◌, ◌⊎◌, inl, refl, List, [], ◌∷◌, ◌++◌, some, none, true, arith, get_elem?,
}
use unified_attestation.Outcome.{Result, ok, err, panic, stuck}
use unified_attestation.Bytes.{Bytes}
use unified_attestation.Registers.{zeros}
use unified_attestation.Messages.Typed.{encode_public_context, encode_public_context_message}
use unified_attestation.Shrubs.{create_batch_devices, create_loop, position, pair_hashes}
use unified_attestation.ShrubsPath.{
  interval_loop, largest_power_two_leq, power_loop, boundary_test, climb,
  find_device_shrubs_path_tag, find_shrubs_path, find_interval_index,
}
use unified_attestation.Wire.{append_scalar_vec, append_scalars, append_scalar, encode_scalar}
use unified_attestation.Authorization.{
  set_signature, build_attester_response, respond_with, encode_verifier_response,
  encode_response_device_infor, response_device_infor_to_wire, generate_constraints,
  generate_device_client_infor, generate_device_authoried_infor, point_scalar,
}
use unified_attestation.Sealing.{
  encode_encrypted_verifier_response, encrypt_for_device_pubkey, derive_aes_key, nonce_of,
  decode_encrypted_verifier_response,
}
use unified_attestation.Daemon.{
  AttesterSession, Batch, queue_attester, new_state, batch_root, affected_old_indices, run_batch,
  process_batch, after_batch, batch_of,
}
use unified_attestation.Delivery.{
  Action, send_response, send_context, publish, Draw, ComputedResponse,
  build_encrypted_attester_response, compute_store_and_send_responses, send_context_only_refreshes,
  publish_public_context_to_all, send_batch,
}
use unified_attestation.Delivery.Everyone.{In}
use unified_attestation.Delivery.Received.{send_batch-InBatch, send_batch-published_first}
use unified_attestation.Delivery.Groups.{PathIsNew, PathStays}
use unified_attestation.Delivery.Proven.{generate_constraints-decode_encrypted}
use unified_attestation.Runs.Toy.{toy, toy_laws}
use unified_attestation.Runs.Devices.{measure, moment, tree, tree_built, tree_free, leaf_in_tree}
use unified_attestation.Runs.Parties.{bytes_of, waiting, device}
use unified_attestation.Runs.Sealed.{
  open_sealing, open_laws, roots, session, response, context, plaintext, response_built,
  response-IsResponse, plaintext_written, plaintext_short,
}

abbrev draw : ℕ → Draw open_sealing
draw i = record { now = moment; ephemeral_secret = 3; nonce = zeros 12 }

generate_constraints-decode_encrypted_example :
    (r : ComputedResponse toy) × (build_encrypted_attester_response toy open_sealing
        (draw 0)
        0
        session
        roots
        tree
        9
        context
      ≡ ok r)
    × (decode_encrypted_verifier_response toy open_sealing r.encrypted 5 ≡ ok (response, context))
    × (generate_constraints toy
          (toy.from_bytes_be (toy.to_bytes 5))
          (toy.from_bytes_be measure)
          (point_scalar toy (toy.verifying_key 5))
          roots
          (generate_device_authoried_infor toy
            (generate_device_client_infor toy measure moment 5)
            response)
          (toy.from_u64 response.timestamp.secs)
          (toy.from_u64 response.period.secs)
          response.shrubs_path
          response.shrubs_tag
        ≡ ok true)
generate_constraints-decode_encrypted_example =
    generate_constraints-decode_encrypted toy_laws open_laws measure [] plaintext (draw 0) moment 5
      9 4 0 0 none tree roots 8 response context tree_built refl tree_free leaf_in_tree
      response_built refl response-IsResponse (omega arith) plaintext_written
      (omega (arith, plaintext_short))

abbrev first_batch : Batch toy
first_batch = batch_of toy 8 waiting (11 ∷ []) [] []

abbrev newcomer : AttesterSession toy
newcomer = record {
  socket = 0;
  dev_infor = device;
  merkle_leaf = 11;
  response = none;
  attester_addr = [];
}

first_batch_ran :
    process_batch toy 8 waiting ≡ ok (after_batch toy waiting (11 ∷ []), some first_batch)
unfolding process_batch run_batch batch_root affected_old_indices create_batch_devices create_loop
    pair_hashes queue_attester new_state
first_batch_ran = refl

newcomer_active : get_elem? (after_batch toy waiting (11 ∷ [])).active 0 ≡ some newcomer
unfolding queue_attester new_state
newcomer_active = refl

abbrev no_response : ComputedResponse toy
no_response = record {
  index = 0;
  socket = 0;
  attester_addr = [];
  response = response;
  encrypted = [];
}

abbrev computed_of : Result (ComputedResponse toy) → ComputedResponse toy
computed_of (ok r) = r
computed_of (err e) = no_response
computed_of panic = no_response
computed_of stuck = no_response

abbrev answer : ComputedResponse toy
answer = computed_of (
    build_encrypted_attester_response toy open_sealing (draw 0) 0 newcomer first_batch.root
      first_batch.leaves 8 first_batch.public_context)

answer_built :
    build_encrypted_attester_response toy open_sealing
      (draw 0)
      0
      newcomer
      first_batch.root
      first_batch.leaves
      8
      first_batch.public_context
    ≡ ok answer
unfolding build_encrypted_attester_response build_attester_response respond_with
    find_device_shrubs_path_tag find_shrubs_path find_interval_index position interval_loop
    largest_power_two_leq power_loop boundary_test climb pair_hashes
    encode_encrypted_verifier_response encrypt_for_device_pubkey derive_aes_key nonce_of
    encode_verifier_response encode_response_device_infor response_device_infor_to_wire
    queue_attester new_state encode_public_context append_scalar_vec append_scalars append_scalar
    encode_scalar set_signature
answer_built = refl

abbrev news : Bytes
news = bytes_of (encode_public_context_message toy first_batch.public_context)

news_encoded : encode_public_context_message toy first_batch.public_context ≡ ok news
unfolding encode_public_context_message encode_public_context append_scalar_vec append_scalars
    append_scalar encode_scalar
news_encoded = refl

abbrev party : Bytes
party = 49 ∷ []

batch_sent : (send_batch toy open_sealing draw 8 (party ∷ []) first_batch).1 ≡ ok tt
unfolding send_batch compute_store_and_send_responses send_context_only_refreshes
    publish_public_context_to_all encode_public_context_message build_encrypted_attester_response
    build_attester_response respond_with find_device_shrubs_path_tag find_shrubs_path
    find_interval_index position interval_loop largest_power_two_leq power_loop boundary_test climb
    pair_hashes encode_encrypted_verifier_response encrypt_for_device_pubkey derive_aes_key nonce_of
    encode_verifier_response encode_response_device_infor response_device_infor_to_wire
    queue_attester new_state encode_public_context append_scalar_vec append_scalars append_scalar
    encode_scalar set_signature
batch_sent = refl

send_batch-InBatch_example :
    (PathIsNew waiting 0
      × In
          (send_response 0 answer.encrypted)
          (send_batch toy open_sealing draw 8 (party ∷ []) first_batch).0)
    ⊎ (PathStays waiting 0
        × In (send_context 0 news) (send_batch toy open_sealing draw 8 (party ∷ []) first_batch).0)
send_batch-InBatch_example =
    send_batch-InBatch 8 waiting (after_batch toy waiting (11 ∷ [])) first_batch 0 newcomer draw 8
      (party ∷ []) answer news first_batch_ran newcomer_active batch_sent answer_built news_encoded

newcomer_new : In (0, newcomer) first_batch.new_sessions
unfolding queue_attester new_state
newcomer_new = inl refl

send_batch-published_first_example :
    (before : List (Action toy)) × (after : List (Action toy)) × ((send_batch toy open_sealing draw
        8
        (party ∷ [])
        first_batch).0
      ≡ before ++ after)
    × In (publish party news) before
    × In (send_response 0 answer.encrypted) after
send_batch-published_first_example =
    send_batch-published_first draw 8 (party ∷ []) first_batch news party 0 newcomer answer
      batch_sent news_encoded (inl refl) newcomer_new answer_built
