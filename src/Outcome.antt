-- ===== src/Outcome.antt =====
-- What a call of the program gives: a value, an `anyhow` error, or a panic of the Rust runtime.
-- `stuck` is no outcome of the program: the fuel of a recursion of the model ran out.
use unified_attestation.Prelude.{◌≡◌, refl, ℕ, Option, none, some, Bool, true, false}

-- One constructor for each error that the modelled code raises itself.
pub data Error : Type 0 where
  read_fixed_bytes read_length_prefixed utf8 : Error
  serialize deserialize_scalar deserialize_proof deserialize_vk : Error
  deserialize_signature deserialize_public_key : Error
  invalid_bool invalid_option_tag : ℕ → Error
  digest_size no_digest empty_digest log_mismatch no_reference no_records bad_event bad_index :
      Error
  device_public_key ephemeral_public_key secret_key derive_key create_cipher encrypt_response
        decrypt_response :
      Error
  wrong_message frame_length frame_too_large frame_payload : Error
  expired overflow bad_signature unknown_message missing_context : Error
  bad_log no_log_hash claim_missing claim_untrusted : Error
  secret_key_length : ℕ → Error
  bad_cbor bad_cose not_bytes not_text not_num not_array not_map not_integer not_tag bad_tag : Error
  bad_size bad_count unknown_label : Error
  bad_base64 bad_json bad_certificate bad_chain bad_key bad_alg bad_challenge : Error
  untrusted_component bad_component unknown_component bad_instance reported_error not_passed : Error
  bad_token bad_report bad_nonce no_object no_field no_nonce no_wasm no_tee_type : Error
  tee_mismatch bad_collateral cannot_sign : Error
  bad_mode ima_not_supported bad_mac bad_usage report_length cert_length empty_chip : Error
  io : Error

pub data Result {ℓ} (A : Type ℓ) : Type ℓ where
  ok : A → Result A
  err : Error → Result A
  panic : Result A
  stuck : Result A

-- The first outcome that is no value ends the call.
infixl 5 ◌>>=◌
abbrev pub ◌>>=◌ {κ ℓ} : {A : Type κ} {B : Type ℓ} → Result A → (A → Result B) → Result B
panic >>= next = panic
stuck >>= next = stuck
err e >>= next = err e
ok a >>= next = next a

-- `bail!` unless the test holds.
abbrev pub guard : Bool → Error → Result (Unit {0})
guard true e = ok tt
guard false e = err e

-- `.context(e)` on an option or on a library's `Result`.
abbrev pub context {ℓ} : {A : Type ℓ} → Error → Option A → Result A
context e none = err e
context e (some a) = ok a

-- An index or an `unwrap` that must succeed: the runtime panics where it does not.
abbrev pub expect {ℓ} : {A : Type ℓ} → Option A → Result A
expect none = panic
expect (some a) = ok a

-- `.expect(..)` on a result.
abbrev pub expect_ok {ℓ} : {A : Type ℓ} → Result A → Result A
expect_ok (ok a) = ok a
expect_ok (err e) = panic
expect_ok panic = panic
expect_ok stuck = stuck

-- A chain that gives a value has a value at each step.
pub ok->>= :
    {A B : Type 0} {out : B} (call : Result A) (next : A → Result B)
    → call >>= next ≡ ok out
    → (found : A) × (call ≡ ok found) × (next found ≡ ok out)
ok->>= panic next h = absurd cc
ok->>= stuck next h = absurd cc
ok->>= (err e) next h = absurd cc
ok->>= (ok a) next h = (a, refl, h)

pub ok_inj {ℓ} : {A : Type ℓ} {x y : A} → ok x ≡ ok y → x ≡ y
ok_inj h = cc
