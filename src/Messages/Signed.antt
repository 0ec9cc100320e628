-- ===== src/Messages/Signed.antt =====
-- hydra-toolkit/src/lib.rs: a device submission that its attester signs, and the frame around it.
use unified_attestation.Prelude.{
  ℕ, ◌≡◌, refl, ◌≤◌, ◌<◌, ◌^◌, true, ◌++◌, append_assoc, length, take-append, drop-append,
  length-append, arith, le→leb,
}
use unified_attestation.Outcome.{ok, frame_length, frame_payload, Error}
use unified_attestation.Bytes.{Bytes, be32, be64, from_be-be64, IsDuration, is_utf8}
use unified_attestation.Crypto.{Crypto, CodecLaws, Verifies, IsSmall, IsShort, IsShort-IsSmall}
use unified_attestation.Wire.{
  append_len_bytes, append_duration, encode_scalar, decode_scalar, decode_signature,
}
use unified_attestation.Messages.{
  DeviceClientInforWire, SignedDeviceClientInforWire, encode_device_client_infor_wire,
  encode_signed_device_client_infor_message, decode_signed_device_client_infor_message,
  tcp_send_frame, tcp_read_frame, take_bytes, max_tcp_frame_len,
}
use unified_attestation.Messages.Typed.{
  DeviceClientInfor, device_client_infor_to_wire, device_client_infor_from_wire,
  encode_device_client_infor, sign_device_client_infor, sign_device_client_infor_to_wire,
  verify_signed_device_client_infor_wire,
}
use unified_attestation.Messages.RoundTrip.{
  IsDeviceWire, IsSignedWire, decode-encode_signed_device_client_infor_wire,
}

take_bytes-append :
    (e : Error) (xs rest : Bytes) → take_bytes e (length xs) (xs ++ rest) ≡ ok (xs, rest)
take_bytes-append e xs rest = rw (take-append, drop-append) (ground (arith, length-append xs rest))

-- `tcp_read_frame` gives back the payload of `tcp_send_frame`, and leaves what follows it on the
-- stream, when the payload is no longer than the 512 MiB that a frame may have.
pub tcp_read_frame-tcp_send_frame :
    (payload rest : Bytes)
    → length payload ≤ max_tcp_frame_len
    → tcp_read_frame (tcp_send_frame payload ++ rest) ≡ ok (payload, rest)
unfolding tcp_read_frame tcp_send_frame
tcp_read_frame-tcp_send_frame payload rest h =
    rw
      (
        append_assoc (be64 (length payload)) payload rest,
        header,
        from_be-be64 (length payload) (omega arith),
        le→leb _ _ h,
      )
      (take_bytes-append frame_payload payload rest)
  where
    header :
        take_bytes frame_length 8 (be64 (length payload) ++ (payload ++ rest))
        ≡ ok (be64 (length payload), payload ++ rest)
    header = unfold be64 in take_bytes-append frame_length (be64 (length payload)) (payload ++ rest)

-- A submission as the attester makes it.
pub record IsDevice {c : Crypto} (v : DeviceClientInfor c) : Type 0 where
  pub value_small : length v.measured_value < 2 ^ 62
  pub value_utf8 : is_utf8 v.measured_value ≡ true
  pub timestamp_ok : IsDuration v.timestamp
  pub period_ok : IsDuration v.period

length-be64 : (x : ℕ) → length (be64 x) ≡ 8
unfolding be64
length-be64 x = refl

length-be32 : (x : ℕ) → length (be32 x) ≡ 4
unfolding be32
length-be32 x = refl

length_lem :
    (w : DeviceClientInforWire)
    → IsShort w.verifying_key
    → length w.measured_value < 2 ^ 62
    → IsShort w.merkle_leaf
    → IsSmall (encode_device_client_infor_wire w)
unfolding encode_device_client_infor_wire append_len_bytes append_duration
length_lem w h1 h2 h3 = simp (length-append, length-be64, length-be32) (omega arith)

message_lem :
    (signed : SignedDeviceClientInforWire)
    → IsSignedWire signed
    → (rest : Bytes)
    → decode_signed_device_client_infor_message
        (encode_signed_device_client_infor_message signed ++ rest)
      ≡ ok signed
unfolding decode_signed_device_client_infor_message encode_signed_device_client_infor_message
message_lem signed good rest = decode-encode_signed_device_client_infor_wire signed good rest

module _ {c : Crypto} (laws : CodecLaws c) where
  ToWire : (v : DeviceClientInfor c) → IsDevice v → Type 0
  ToWire v h =
      (w : DeviceClientInforWire) × (device_client_infor_to_wire c v ≡ ok w)
      × (device_client_infor_from_wire c w ≡ ok v)
      × (w.verifying_key ≡ c.to_encoded_point v.verifying_key)
      × IsDeviceWire w
      × IsSmall (encode_device_client_infor_wire w)

  device_client_infor_to_wire_lem : (v : DeviceClientInfor c) (h : IsDevice v) → ToWire v h
  unfolding ToWire device_client_infor_to_wire device_client_infor_from_wire encode_scalar
      decode_scalar
  device_client_infor_to_wire_lem v h =
      let (b, w, r, short) = laws.scalar_law v.merkle_leaf in
      let wire : DeviceClientInforWire = record {
        verifying_key = c.to_encoded_point v.verifying_key;
        measured_value = v.measured_value;
        merkle_leaf = b;
        timestamp = v.timestamp;
        period = v.period;
      } in
      (
        wire,
        rw w refl,
        rw (laws.point_law v.verifying_key, r) refl,
        refl,
        record {
          key_small = IsShort-IsSmall _ (laws.point_short v.verifying_key);
          value_small = omega (arith, h.value_small);
          value_utf8 = h.value_utf8;
          leaf_small = IsShort-IsSmall b short;
          timestamp_ok = h.timestamp_ok;
          period_ok = h.period_ok;
        },
        length_lem wire (laws.point_short v.verifying_key) h.value_small short,
      )

  -- The verifier accepts the submission that an attester signs with the key it names, after the
  -- way over the wire, and gets the attester's fields. The libraries' serializations round-trip,
  -- a key verifies what it signs, the durations are as their type keeps them, and the measured
  -- value is UTF-8 of less than 2^62 bytes.
  pub verify-sign_device_client_infor :
      Verifies c
      → (v : DeviceClientInfor c) (key : c.SigningKey) → IsDevice v
      → v.verifying_key ≡ c.verifying_key key
      → (signed : SignedDeviceClientInforWire) × (sign_device_client_infor_to_wire c v key
          ≡ ok signed)
        × ((rest : Bytes)
            → decode_signed_device_client_infor_message
                (encode_signed_device_client_infor_message signed ++ rest)
              ≡ ok signed)
        × (verify_signed_device_client_infor_wire c signed ≡ ok v)
  unfolding sign_device_client_infor_to_wire sign_device_client_infor encode_device_client_infor
      verify_signed_device_client_infor_wire decode_signature ToWire
  verify-sign_device_client_infor verifies v key h own =
      let (w, e, d, k, good, small) = device_client_infor_to_wire_lem v h in
      let signed : SignedDeviceClientInforWire = record {
        device = w;
        signature = c.to_der (c.sign key (encode_device_client_infor_wire w));
      } in
      (
        signed,
        rw e refl,
        message_lem signed (record {
          device_ok = good;
          device_small = small;
          signature_small = IsShort-IsSmall _ (laws.der_short _);
        }),
        rw (k, laws.point_law v.verifying_key, laws.der_law _, accepted w) d,
      )
    where
      accepted :
          (w : DeviceClientInforWire)
          → (let m = encode_device_client_infor_wire w in
              c.verify v.verifying_key m (c.sign key m) ≡ true)
      accepted w = rw own (verifies key (encode_device_client_infor_wire w))
