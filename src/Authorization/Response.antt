-- ===== src/Authorization/Response.antt =====
-- hydra-toolkit/src/lib.rs: the verifier's response and its public context on the wire.
use unified_attestation.Prelude.{
  ◌*◌, ◌^◌, ◌<◌, ◌≡◌, refl, sym, ◌∙◌, Bool, Option, none, some, List, [], ◌∷◌, ◌++◌, append_assoc,
  append-nil, length, length-append, true, arith,
}
use unified_attestation.Outcome.{ok_inj, ok}
use unified_attestation.Bytes.{Bytes, be64, IsDuration, is_utf8}
use unified_attestation.Crypto.{Crypto, CodecLaws, IsSmall, IsShort-IsSmall}
use unified_attestation.Wire.{append_len_bytes, encode_scalar, decode_scalar, decode_signature}
use unified_attestation.Wire.Fields.{read_len_bytes_lem, AllSmall}
use unified_attestation.Messages.{ResponseDeviceInforWire, encode_response_device_infor_wire}
use unified_attestation.Messages.RoundTrip.{
  IsPath, OptionAll, IsResponseWire, decode-encode_response_device_infor_wire,
}
use unified_attestation.Messages.Typed.{ResponseDeviceInfor, PublicContext}
use unified_attestation.Messages.Evidence.{public_context_lem}
use unified_attestation.Authorization.{
  each_ok, option_ok, response_device_infor_to_wire, response_device_infor_from_wire,
  encode_response_device_infor, decode_response_device_infor, encode_verifier_response,
  decode_verifier_response,
}

-- A response as its types keep it: durations, UTF-8 text, and vectors with room in memory.
pub record IsResponse {c : Crypto} (v : ResponseDeviceInfor c) : Type 0 where
  pub timestamp_ok : IsDuration v.timestamp
  pub period_ok : IsDuration v.period
  pub addr_small : IsSmall v.attester_addr
  pub addr_utf8 : is_utf8 v.attester_addr ≡ true
  pub path_small : OptionAll (λ path. 32 * length path < 2 ^ 63) v.shrubs_path
  pub tag_small : OptionAll (λ (tag : List Bool). length tag < 2 ^ 63) v.shrubs_tag

module _ {c : Crypto} (laws : CodecLaws c) where
  each_scalar :
      (xs : List c.Scalar)
      → (bs : List Bytes) × (each_ok (encode_scalar c) xs ≡ ok bs)
        × (each_ok (decode_scalar c) bs ≡ ok xs)
        × (length bs ≡ length xs)
        × AllSmall bs
  unfolding encode_scalar decode_scalar
  each_scalar [] = ([], refl, refl, refl, tt)
  each_scalar (x ∷ xs) =
      let (b, w, r, short) = laws.scalar_law x in
      let (bs, ws, rs, same, small) = each_scalar xs in
      (b ∷ bs, rw (w, ws) refl, rw (r, rs) refl, rw same refl, (IsShort-IsSmall b short, small))

  option_ok-scalars :
      (path : Option (List c.Scalar))
      → OptionAll (λ p. 32 * length p < 2 ^ 63) path
      → (bs : Option (List Bytes)) × (option_ok (each_ok (encode_scalar c)) path ≡ ok bs)
        × (option_ok (each_ok (decode_scalar c)) bs ≡ ok path)
        × OptionAll IsPath bs
  option_ok-scalars none h = (none, refl, refl, tt)
  option_ok-scalars (some path) h =
      let (bs, w, r, same, small) = each_scalar path in
      (some bs, rw w refl, rw r refl, (omega (arith, same), small))

  option_ok-der :
      (sig : Option c.Signature)
      → (bs : Option Bytes) × (option_ok (λ s. ok (c.to_der s)) sig ≡ ok bs)
        × (option_ok (decode_signature c) bs ≡ ok sig)
        × OptionAll IsSmall bs
  unfolding decode_signature
  option_ok-der none = (none, refl, refl, tt)
  option_ok-der (some s) = (
    some (c.to_der s),
    refl,
    rw (laws.der_law s) refl,
    IsShort-IsSmall (c.to_der s) (laws.der_short s),
  )

  response_lem :
      (v : ResponseDeviceInfor c)
      → IsResponse v
      → (bs : Bytes) × (encode_response_device_infor c v ≡ ok bs)
        × ((rest : Bytes) → decode_response_device_infor c (bs ++ rest) ≡ ok v)
  unfolding encode_response_device_infor decode_response_device_infor response_device_infor_to_wire
      response_device_infor_from_wire
  response_lem v h =
      let (path, w1, r1, small1) = option_ok-scalars v.shrubs_path h.path_small in
      let (sig, w2, r2, small2) = option_ok-der v.sig in
      let wire : ResponseDeviceInforWire = record {
        verifying_key = c.to_encoded_point v.verifying_key;
        attester_addr = v.attester_addr;
        timestamp = v.timestamp;
        period = v.period;
        sig = sig;
        shrubs_path = path;
        shrubs_tag = v.shrubs_tag;
      } in
      let good : IsResponseWire wire = record {
        key_small =
            IsShort-IsSmall (c.to_encoded_point v.verifying_key) (laws.point_short v.verifying_key);
        addr_small = h.addr_small;
        addr_utf8 = h.addr_utf8;
        timestamp_ok = h.timestamp_ok;
        period_ok = h.period_ok;
        sig_small = small2;
        path_small = small1;
        tag_small = h.tag_small;
      } in
      (
        encode_response_device_infor_wire wire,
        rw (w1, w2) refl,
        λ rest.
            rw
              (
                decode-encode_response_device_infor_wire wire good rest,
                r1,
                laws.point_law v.verifying_key,
                r2,
              )
              refl,
      )

  -- The verifier's response and its public context are encoded, and decoded to the same response
  -- and context, whatever bytes follow them. The libraries' serializations round-trip, the
  -- response is as its types keep it, the roots have room in memory, and the runtime can allocate
  -- what was encoded.
  pub decode-encode_verifier_response :
      (v : ResponseDeviceInfor c) (ctx : PublicContext c) (bs rest : Bytes)
      → IsResponse v
      → 32 * length ctx.root < 2 ^ 63
      → encode_verifier_response c v ctx ≡ ok bs
      → IsSmall bs
      → decode_verifier_response c (bs ++ rest) ≡ ok (v, ctx)
  unfolding encode_verifier_response decode_verifier_response append_len_bytes
  decode-encode_verifier_response v ctx bs rest good room e small =
      let (b1, w1, r1) = response_lem v good in
      let (b2, w2, r2) = public_context_lem laws ctx room in
      let out = ((be64 (length b1) ++ b1) ++ be64 (length b2)) ++ b2 in
      let wrote : encode_verifier_response c v ctx ≡ ok out = rw (w1, w2) refl in
      let same = ok_inj (sym e ∙ wrote) in
      let (small1, small2) = parts b1 b2 (rw same at small) in
      rw same (
        simp
          (
            append_assoc,
            read_len_bytes_lem b1 small1,
            read_len_bytes_lem b2 small2,
            rw append-nil at (r1 []),
            rw append-nil at (r2 []),
          )
          refl)
    where
      parts :
          (b1 b2 : Bytes)
          → IsSmall (((be64 (length b1) ++ b1) ++ be64 (length b2)) ++ b2)
          → IsSmall b1 × IsSmall b2
      parts b1 b2 h =
          let n1 = length-append ((be64 (length b1) ++ b1) ++ be64 (length b2)) b2 in
          let n2 = length-append (be64 (length b1) ++ b1) (be64 (length b2)) in
          let n3 = length-append (be64 (length b1)) b1 in
          (omega (arith, n1, n2, n3, h), omega (arith, n1, h))
