-- ===== src/Runs/Parties.antt =====
-- Runs of the relying party and of the verifier's daemon.
use unified_attestation.Prelude.{
  ℕ, ◌+◌, ◌<◌, ◌≤◌, ◌≡◌, refl, List, [], ◌∷◌, ◌++◌, some, none, Option, true, arith, length,
}
use unified_attestation.Outcome.{Result, ok, err, panic, stuck}
use unified_attestation.Bytes.{Bytes, Duration, IsDuration, be64, be32}
use unified_attestation.Wire.{
  append_len_bytes, append_duration, append_signature, append_verifying_key, append_scalar,
  append_proof, append_ark_vk, encode_scalar,
}
use unified_attestation.Messages.{max_tcp_frame_len, tcp_send_frame}
use unified_attestation.Messages.Typed.{
  DeviceClientInfor, PublicContext, EvidenceReply, encode_evidence_message, encode_evidence_bundle,
}
use unified_attestation.Evidence.{
  gen_public_inputs, append_field, to_signing_bytes_all_fields,
  proof_timestamp_period_signing_bytes, sign_proof_timestamp_period, new_evidence_reply,
}
use unified_attestation.RelyingParty.{
  success, Event, World, RpState, handle, rely_party_verification, verdict,
}
use unified_attestation.RelyingParty.Accepts.{Accepted, handle-Accepted}
use unified_attestation.RelyingParty.Honest.{
  handle-new_evidence_reply, rely_party_verification-verdict,
}
use unified_attestation.Daemon.{
  VerifierState, Batch, new_state, queue_attester, process_batch, start, next, queued,
}
use unified_attestation.Daemon.Consistent.{
  IsVerifierState, Batched, Reachable-IsVerifierState, process_batch-Batched,
}
use unified_attestation.Runs.Toy.{toy, toy_laws, toy_verifies}

abbrev pub at : ℕ → Duration
at s = record { secs = s; nanos = 5 }

pub at_small : (s : ℕ) → s < 1000 → IsDuration (at s)
at_small s h = record { secs_u64 = omega arith; nanos_small = omega arith }

abbrev pub bytes_of : Result Bytes → Bytes
bytes_of (ok b) = b
bytes_of (err e) = []
bytes_of panic = []
bytes_of stuck = []

abbrev honest : EvidenceReply toy
honest = record {
  proof = 6;
  vk = 6;
  sig = 1;
  pk = 5;
  timestamp = at 100;
  period = at 20;
  authorized_infor = 4;
  timestamp_attester = at 110;
  period_attester = record { secs = 120; nanos = 0 };
  proof_timestamp_period_signature = 116;
}

honest_made : new_evidence_reply toy (at 110) 6 6 1 5 (at 100) (at 20) 4 5 ≡ ok honest
unfolding new_evidence_reply sign_proof_timestamp_period proof_timestamp_period_signing_bytes
    append_field be64 be32
honest_made = refl

abbrev signed_bytes : Bytes
signed_bytes = bytes_of (to_signing_bytes_all_fields toy honest)

honest_signed : to_signing_bytes_all_fields toy honest ≡ ok signed_bytes
unfolding to_signing_bytes_all_fields
honest_signed = refl

abbrev sent_bytes : Bytes
sent_bytes = bytes_of (encode_evidence_message toy honest (5 + length signed_bytes))

honest_encoded :
    (signature : ℕ)
    → encode_evidence_message toy honest signature
      ≡ ok (bytes_of (encode_evidence_message toy honest signature))
unfolding encode_evidence_message encode_evidence_bundle append_proof append_ark_vk append_scalar
    encode_scalar
honest_encoded signature = refl

sent_short : length sent_bytes ≤ max_tcp_frame_len
unfolding encode_evidence_message encode_evidence_bundle append_proof append_ark_vk append_scalar
    encode_scalar append_signature append_verifying_key append_duration append_len_bytes be64 be32
sent_short = omega arith

abbrev shared : PublicContext toy
shared = record { root = 3 ∷ 1005 ∷ []; verifier_pk = 8 }

abbrev ready : RpState toy
ready = record { cached = some shared; saved = none; sent = []; events = [] }

abbrev pub world : World
world = record { now = some (at 200); saves = true; sends = true }

honest_accepted : (handle toy world (tcp_send_frame sent_bytes ++ []) ready).0.sent ≡ success ∷ []
honest_accepted =
    handle-new_evidence_reply toy_laws toy_verifies world ready (at 110) (at 200) (at 100) (at 20) 6
      6 1 4 5 honest signed_bytes sent_bytes [] shared honest_made honest_signed (honest_encoded _)
      sent_short (at_small 110 (omega arith)) (at_small 100 (omega arith))
      (at_small 20 (omega arith)) refl (omega arith) (omega arith) refl refl refl

handle-new_evidence_reply_example :
    (handle toy world (tcp_send_frame sent_bytes ++ []) ready).0.sent ≡ success ∷ []
handle-new_evidence_reply_example =
    handle-new_evidence_reply toy_laws toy_verifies world ready (at 110) (at 200) (at 100) (at 20) 6
      6 1 4 5 honest signed_bytes sent_bytes [] shared honest_made honest_signed (honest_encoded _)
      sent_short (at_small 110 (omega arith)) (at_small 100 (omega arith))
      (at_small 20 (omega arith)) refl (omega arith) (omega arith) refl refl refl

clock_sized : (now : Duration) → world.now ≡ some now → IsDuration now
clock_sized now h = let same : at 200 ≡ now = cc in rw same at (at_small 200 (omega arith))

handle-Accepted_example : Accepted toy world (tcp_send_frame sent_bytes ++ []) ready
handle-Accepted_example =
    handle-Accepted world (tcp_send_frame sent_bytes ++ []) ready clock_sized honest_accepted

rely_party_verification-verdict_example :
    (events : List Event) × (rely_party_verification toy (3 ∷ []) (record honest { sig = 77 }) 1 9
      ≡ ok (verdict (toy.groth16_verify 6 (gen_public_inputs toy honest (3 ∷ [])) 6), events))
rely_party_verification-verdict_example =
    rely_party_verification-verdict toy_laws (3 ∷ []) honest 77 1 9

abbrev pub device : DeviceClientInfor toy
device = record {
  verifying_key = 5;
  measured_value = [];
  merkle_leaf = 11;
  timestamp = at 100;
  period = at 20;
}

abbrev pub waiting : VerifierState toy
waiting = (queue_attester toy 0 device [] (new_state toy)).0

waiting-IsVerifierState : IsVerifierState toy waiting
waiting-IsVerifierState = Reachable-IsVerifierState waiting (next start (queued 0 device []))

process_batch-Batched_example :
    (st : VerifierState toy) × (batch : Option (Batch toy)) × (process_batch toy 8 waiting
      ≡ ok (st, batch))
    × Batched waiting st
process_batch-Batched_example = process_batch-Batched 8 waiting waiting-IsVerifierState
