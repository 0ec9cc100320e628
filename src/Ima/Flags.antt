-- ===== src/Ima/Flags.antt =====
-- evidence-verify/src/ima/mod.rs: the flag that each file of an IMA log gets.
use unified_attestation.Prelude.{
  ◌≡◌, inl, inr, refl, sym, ap, ◌∙◌, Bool, true, false, Option, none, some, List, [], ◌∷◌, length,
  ltb, if◌then◌else◌, Bool-cases,
}
use unified_attestation.Outcome.{ok_inj, ok}
use unified_attestation.Bytes.{Bytes}
use unified_attestation.Registers.{Digester, bytes_eq}
use unified_attestation.Registers.Verify.{bytes_eq→≡, bytes_eq_refl}
use unified_attestation.Ima.{
  EventData, ima_ng, other, ImaEvent, Detail, flag_of, insert_flag, boot_aggregate, verify_loop,
  data_list, verify_ima_events,
}

abbrev pub or_else : Option Bool → Option Bool → Option Bool
or_else none old = old
or_else (some flag) old = some flag

module _ (h : Digester) where
  -- The flag that one event gives a file; `boot_aggregate` gives none.
  unfoldable pub own_flag : (Bytes → Bool) → Bytes → Bytes → Bytes → Option Bool
  own_flag ima_refs name digest n =
      if bytes_eq n boot_aggregate
      then none
      else if bytes_eq name n
      then some (ima_refs (h.hex_encode digest))
      else none

  -- The flag of a file by the last event with its name.
  unfoldable pub last_flag : (Bytes → Bool) → Bytes → List EventData → Option Bool
  last_flag ima_refs name [] = none
  last_flag ima_refs name (other ∷ events) = last_flag ima_refs name events
  last_flag ima_refs name (ima_ng digest n ∷ events) =
      or_else (last_flag ima_refs name events) (own_flag ima_refs name digest n)

if-same :
    {A : Type 0} (b : Bool) (x y z : A)
    → (if b then x else y) ≡ (if b then x else if b then z else y)
if-same true x y z = refl
if-same false x y z = refl

-- Two names that differ are not both the name that is looked for.
if-swap :
    (name n k : Bytes) (x y z : Option Bool)
    → bytes_eq n k ≡ false
    → (if bytes_eq name k then y else if bytes_eq name n then x else z)
      ≡ (if bytes_eq name n then x else if bytes_eq name k then y else z)
if-swap name n k x y z differ = elim (Bool-cases (bytes_eq name n)) [
  | inl first ↦ elim (Bool-cases (bytes_eq name k)) [
    | inl second ↦
        let clash : bytes_eq n k ≡ true =
          rw (sym (bytes_eq→≡ name n first), sym (bytes_eq→≡ name k second)) (bytes_eq_refl name) in
        absurd cc
    | inr none_left ↦ rw (first, none_left) refl
  ]
  | inr none_left ↦ rw none_left refl
]

flag_of-insert_flag :
    (name n : Bytes) (flag : Bool) (detail : Detail)
    → flag_of name (insert_flag n flag detail)
      ≡ (if bytes_eq name n then some flag else flag_of name detail)
unfolding insert_flag
flag_of-insert_flag name n flag [] = refl
flag_of-insert_flag name n flag ((k, old) ∷ detail) = elim (Bool-cases (bytes_eq n k)) [
  | inl same ↦
      rw (same, sym (bytes_eq→≡ n k same))
        (if-same (bytes_eq name n) (some flag) (flag_of name detail) (some old))
  | inr differ ↦
      rw (differ, flag_of-insert_flag name n flag detail)
        (if-swap name n k (some flag) (some old) (flag_of name detail) differ)
]

or_else_assoc : (x y z : Option Bool) → or_else x (or_else y z) ≡ or_else (or_else x y) z
or_else_assoc none y z = refl
or_else_assoc (some flag) y z = refl

module _ (h : Digester) where
  or_else-own_flag :
      (refs : Bytes → Bool) (name digest n : Bytes) (old : Option Bool)
      → bytes_eq n boot_aggregate ≡ false
      → or_else (own_flag h refs name digest n) old
        ≡ (if bytes_eq name n then some (refs (h.hex_encode digest)) else old)
  unfolding own_flag
  or_else-own_flag refs name digest n old checked = elim (Bool-cases (bytes_eq name n)) [
    | inl same ↦ rw (own_flag, checked, same) refl
    | inr differ ↦ rw (own_flag, checked, differ) refl
  ]

  verify_loop-last_flag :
      (refs : Bytes → Bool) (name : Bytes) (detail out : Detail) (events : List EventData)
      → verify_loop h refs detail events ≡ ok out
      → flag_of name out ≡ or_else (last_flag h refs name events) (flag_of name detail)
  unfolding verify_loop last_flag own_flag
  verify_loop-last_flag refs name detail out [] e = ap (flag_of name) (sym (ok_inj e))
  verify_loop-last_flag refs name detail out (other ∷ events) e = absurd cc
  verify_loop-last_flag refs name detail out (ima_ng digest n ∷ events) e =
      elim (Bool-cases (bytes_eq n boot_aggregate)) [
        | inl skipped ↦
            verify_loop-last_flag refs name detail out events (rw skipped at e)
            ∙ rw skipped (or_else_assoc (last_flag h refs name events) none (flag_of name detail))
        | inr checked ↦
            verify_loop-last_flag refs name (insert_flag n (refs (h.hex_encode digest)) detail) out
              events (rw checked at e)
            ∙ rw
                (
                  flag_of-insert_flag name n (refs (h.hex_encode digest)) detail,
                  sym (or_else-own_flag refs name digest n (flag_of name detail) checked),
                )
                (or_else_assoc (last_flag h refs name events) (own_flag h refs name digest n)
                  (flag_of name detail))
      ]

  -- The result of a log that is accepted has, for each name, the flag of the last event with this
  -- name: whether the file's digest is a reference. A name without an event, and
  -- `boot_aggregate`, has none.
  pub verify_ima_events-last_flag :
      (refs : Bytes → Bool) (name : Bytes) (events : List ImaEvent) (out : Detail)
      → verify_ima_events h events refs ≡ ok out
      → flag_of name out ≡ last_flag h refs name (data_list events)
  unfolding verify_ima_events
  verify_ima_events-last_flag refs name events out e = elim (Bool-cases (ltb (length events) 2)) [
    | inl few ↦ let failed = rw few at e in absurd cc
    | inr enough ↦
        verify_loop-last_flag refs name [] out (data_list events) (rw enough at e)
        ∙ or_else-none (last_flag h refs name (data_list events))
  ]
    where
      or_else-none : (o : Option Bool) → or_else o none ≡ o
      or_else-none none = refl
      or_else-none (some flag) = refl
