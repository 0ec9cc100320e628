-- ===== src/Token/Post.antt =====
-- evidence-verify/src/virtcca/ccatoken.rs (Decode): what its calls give, as a rule for each.
use unified_attestation.Prelude.{
  ℕ, ◌≡◌, inl, inr, refl, sym, true, Option, none, some, List, [], ◌∷◌, length, ◌==◌, ==_iff,
  ==_refl, Bool-cases,
}
use unified_attestation.Outcome.{
  Result, ok, err, panic, stuck, ◌>>=◌, context, not_array, not_bytes, unknown_label, Error,
}
use unified_attestation.Bytes.{Bytes}
use unified_attestation.Delivery.Everyone.{In}
use unified_attestation.Cbor.{
  ℤ, Value, integer, bytes, text, simple, array, tag, map_of, Entries, end, entry, as_bytes,
  as_array, to_list, contains, of_size, get_vec, get_string, get_num, get_array, set_entries,
}
use unified_attestation.Token.{clone_from_slice}

-- A value has the property; an error is allowed, and a panic where `Panics` holds.
abbrev pub Post : {A : Type 0} → Type 0 → (A → Type 0) → Result A → Type 0
Post Panics P (ok a) = P a
Post Panics P (err e) = Unit
Post Panics P panic = Panics
Post Panics P stuck = ⊥

-- The call gives a value with the property, or an error.
abbrev pub Yields : {A : Type 0} → (A → Type 0) → Result A → Type 0
Yields P r = Post ⊥ P r

module _ (Panics : Type 0) where
  pub >>=-Post :
      {A B : Type 0} (P : A → Type 0) (Q : B → Type 0) (m : Result A) (f : A → Result B)
      → Post Panics P m
      → ((a : A) → P a → Post Panics Q (f a))
      → Post Panics Q (m >>= f)
  >>=-Post P Q (ok a) f h g = g a h
  >>=-Post P Q (err e) f h g = tt
  >>=-Post P Q panic f h g = h
  >>=-Post P Q stuck f h g = h

  pub context-Post :
      {A : Type 0} (e : Error) (o : Option A) → Post Panics (λ a. o ≡ some a) (context e o)
  context-Post e none = tt
  context-Post e (some a) = refl

  pub set_entries-Post :
      {A : Type 0} (P : A → Type 0) (step : ℤ → Value → A → Result A) (e : Error)
      → ((i : ℤ) (v : Value) (t : A) → P t → Post Panics P (step i v t))
      → (es : Entries) (t : A) → P t
      → Post Panics P (set_entries step (err e) es t)
  unfolding set_entries
  set_entries-Post P step e keeps end t h = h
  set_entries-Post P step e keeps (entry (integer i) v rest) t h =
      >>=-Post P P (step i v t) _ (keeps i v t h)
        (λ t' h'. set_entries-Post P step e keeps rest t' h')
  set_entries-Post P step e keeps (entry (bytes b) v rest) t h = tt
  set_entries-Post P step e keeps (entry (text b) v rest) t h = tt
  set_entries-Post P step e keeps (entry simple v rest) t h = tt
  set_entries-Post P step e keeps (entry (array vs) v rest) t h = tt
  set_entries-Post P step e keeps (entry (tag n m) v rest) t h = tt
  set_entries-Post P step e keeps (entry (map_of es) v rest) t h = tt

  -- An entry is set by its label, if that is known.
  pub label-Post :
      {L A : Type 0} (P : A → Type 0) (o : Option L) (f : L → Result A)
      → ((label : L) → Post Panics P (f label))
      → Post Panics P (elim o [ none ↦ err unknown_label | some label ↦ f label ])
  label-Post P none f next = tt
  label-Post P (some label) f next = next label

contains→In : (sizes : List ℕ) (n : ℕ) → contains sizes n ≡ true → In n sizes
contains→In [] n h = absurd cc
contains→In (m ∷ sizes) n h = elim (Bool-cases (m == n)) [
  | inl same ↦ inl (sym ((==_iff m n).0 same))
  | inr other_size ↦ inr (contains→In sizes n (rw other_size at h))
]

-- The bytes that a list of sizes allows.
abbrev pub OfSize : List ℕ → Bytes → Type 0
OfSize sizes b = In (length b) sizes

module _ (Panics : Type 0) where
  pub get_vec-OfSize :
      (v : Value) (n : ℕ) (sizes : List ℕ)
      → Post Panics (OfSize (n ∷ sizes)) (get_vec v (n ∷ sizes))
  unfolding get_vec of_size
  get_vec-OfSize v n sizes =
      >>=-Post Panics (λ (b : Bytes). as_bytes v ≡ some b) (OfSize (n ∷ sizes))
        (context not_bytes (as_bytes v)) _ (context-Post Panics not_bytes (as_bytes v))
        (λ b h. elim (Bool-cases (contains (n ∷ sizes) (length b))) [
          | inl fits ↦ rw fits (contains→In (n ∷ sizes) (length b) fits)
          | inr odd ↦ rw odd tt
        ])

  pub get_string-Post : (v : Value) → Post Panics (λ (b : Bytes). Unit {0}) (get_string v)
  unfolding get_string
  get_string-Post (text b) = tt
  get_string-Post _ = tt

  pub get_num-Post : (v : Value) → Post Panics (λ (n : ℤ). Unit {0}) (get_num v)
  unfolding get_num
  get_num-Post (integer i) = tt
  get_num-Post _ = tt

  pub get_array-Post : (v : Value) (n : ℕ) → Post Panics (λ vs. length vs ≡ n) (get_array v n)
  unfolding get_array
  get_array-Post v n =
      >>=-Post Panics (λ tmp. as_array v ≡ some tmp) (λ vs. length vs ≡ n)
        (context not_array (as_array v)) _ (context-Post Panics not_array (as_array v))
        (λ tmp h. elim (Bool-cases (length (to_list tmp) == n)) [
          | inl fits ↦ rw fits ((==_iff (length (to_list tmp)) n).0 fits)
          | inr odd ↦ rw odd tt
        ])

  pub clone_from_slice-Post :
      (old src : Bytes) (n : ℕ)
      → length old ≡ n
      → OfSize (n ∷ []) src
      → Post Panics (λ b. length b ≡ n) (clone_from_slice old src)
  unfolding clone_from_slice
  clone_from_slice-Post old src n e (inl same) = rw (e, same, ==_refl n) same
  clone_from_slice-Post old src n e (inr none_left) = absurd none_left

  -- Bytes of one size, copied into an array of that size, and what follows.
  pub copied-Post :
      {B : Type 0} (Q : B → Type 0) (v : Value) (old : Bytes) (n : ℕ) (f : Bytes → Result B)
      → length old ≡ n
      → ((b : Bytes) → length b ≡ n → Post Panics Q (f b))
      → Post Panics Q (get_vec v (n ∷ []) >>= λ tmp. clone_from_slice old tmp >>= f)
  copied-Post Q v old n f e next =
      >>=-Post Panics (OfSize (n ∷ [])) Q (get_vec v (n ∷ [])) _ (get_vec-OfSize v n [])
        (λ tmp sized.
          >>=-Post Panics (λ b. length b ≡ n) Q (clone_from_slice old tmp) f
            (clone_from_slice-Post old tmp n e sized) next)

  -- A field that is a text may have any value.
  pub string-Post :
      {B : Type 0} (Q : B → Type 0) (v : Value) (f : Bytes → Result B)
      → ((b : Bytes) → Post Panics Q (f b))
      → Post Panics Q (get_string v >>= f)
  string-Post Q v f next =
      >>=-Post Panics (λ (b : Bytes). Unit {0}) Q (get_string v) f (get_string-Post v)
        (λ b _. next b)
