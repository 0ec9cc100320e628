-- ===== src/EventLog/Total.antt =====
-- evidence-verify/src/eventlog_rs/mod.rs: the parsers end, whatever bytes they are given.
use unified_attestation.Prelude.{
  ℕ, zero, suc, ◌+◌, ◌≤◌, ◌<◌, ◌≡◌, refl, ◌≢◌, Bool, true, false, List, [], ◌∷◌, length, drop, leb,
  leb→le, lt→leb, ◌==◌, if◌then◌else◌, arith, inl, inr, Bool-cases, Option-cases,
}
use unified_attestation.Outcome.{Result, ok, err, panic, stuck, ◌>>=◌}
use unified_attestation.Bytes.{Bytes}
use unified_attestation.EventLog.{
  slice, read_le, SizeMap, size_of, read_sizes, read_header, read_digest, read_digests, read_sized,
  read_entry, is_stop, no_action, parse_loop, parse, parse_bios_loop, parse_bios,
}

-- The call ends, and leaves at most `n` bytes.
abbrev Within : {A : Type 0} → ℕ → Result (A × Bytes) → Type 0
Within n (ok (a, s)) = length s ≤ n
Within n (err e) = Unit
Within n panic = Unit
Within n stuck = ⊥

abbrev Ends : {A : Type 0} → Result A → Type 0
Ends (ok a) = Unit
Ends (err e) = Unit
Ends panic = Unit
Ends stuck = ⊥

length-drop-le : {A : Type 0} (n : ℕ) (xs : List A) → length (drop n xs) ≤ length xs
length-drop-le zero xs = omega arith
length-drop-le (suc n) [] = omega arith
length-drop-le (suc n) (x ∷ xs) = omega (arith, length-drop-le n xs)

length-drop :
    {A : Type 0} (n : ℕ) (xs : List A) → n ≤ length xs → length (drop n xs) + n ≤ length xs
length-drop zero xs h = omega arith
length-drop (suc n) [] h = absurd (omega arith)
length-drop (suc n) (x ∷ xs) h = omega (arith, length-drop n xs (omega arith))

>>=-Within :
    {A B : Type 0} (n k : ℕ) (m : Result (A × Bytes)) (f : A × Bytes → Result (B × Bytes))
    → Within k m
    → ((a : A) (s : Bytes) → length s ≤ k → Within n (f (a, s)))
    → Within n (m >>= f)
>>=-Within n k (ok (a, s)) f h g = g a s h
>>=-Within n k (err e) f h g = tt
>>=-Within n k panic f h g = tt
>>=-Within n k stuck f h g = h

>>=-Ends :
    {A B : Type 0} (k : ℕ) (m : Result (A × Bytes)) (f : A × Bytes → Result B)
    → Within k m
    → ((a : A) (s : Bytes) → length s ≤ k → Ends (f (a, s)))
    → Ends (m >>= f)
>>=-Ends k (ok (a, s)) f h g = g a s h
>>=-Ends k (err e) f h g = tt
>>=-Ends k panic f h g = tt
>>=-Ends k stuck f h g = h

Ends-then :
    {A B : Type 0} (m : Result A) (f : A → Result B)
    → Ends m
    → ((a : A) → Ends (f a))
    → Ends (m >>= f)
Ends-then (ok a) f h g = g a
Ends-then (err e) f h g = tt
Ends-then panic f h g = tt
Ends-then stuck f h g = h

slice-Within : (n : ℕ) (s : Bytes) (k : ℕ) → length s ≤ k + n → Within k (slice n s)
unfolding slice
slice-Within n s k h = elim (Bool-cases (leb n (length s))) [
  | inl fits ↦ rw fits (omega (arith, length-drop n s (leb→le _ _ fits)))
  | inr short ↦ rw short tt
]

read_le-Within : (n : ℕ) (s : Bytes) (k : ℕ) → length s ≤ k + n → Within k (read_le n s)
unfolding read_le
read_le-Within n s k h =
    >>=-Within k k (slice n s) _ (slice-Within n s k h) (λ bytes s' small. small)

read_sizes-Within :
    (count : ℕ) (sizes : SizeMap) (s : Bytes) (k : ℕ)
    → length s ≤ k
    → Within k (read_sizes count sizes s)
unfolding read_sizes
read_sizes-Within zero sizes s k h = h
read_sizes-Within (suc count) sizes s k h =
    >>=-Within k k (read_le 2 s) _ (read_le-Within 2 s k (omega arith)) λ algorithm s1 h1.
      >>=-Within k k (read_le 2 s1) _ (read_le-Within 2 s1 k (omega arith))
        λ size s2 h2. read_sizes-Within count ((algorithm, size) ∷ sizes) s2 k h2

read_header-Within :
    (sizes : SizeMap) (s : Bytes) (k : ℕ) → length s ≤ k → Within k (read_header sizes s)
unfolding read_header
read_header-Within sizes s k h =
    >>=-Within k k (read_le 4 (drop 48 s)) _
      (read_le-Within 4 (drop 48 s) k (omega (arith, length-drop-le 48 s)))
      λ count s1 h1.
        >>=-Within k k (read_sizes count sizes s1) _ (read_sizes-Within count sizes s1 k h1)
          λ sizes' s2 h2.
            >>=-Within k k (read_le 1 s2) _ (read_le-Within 1 s2 k (omega arith))
              λ vendor s3 h3. omega (arith, length-drop-le vendor s3)

read_digest-Within :
    (sizes : SizeMap) (s : Bytes) (k : ℕ) → length s ≤ k → Within k (read_digest sizes s)
unfolding read_digest
read_digest-Within sizes s k h =
    >>=-Within k k (read_le 2 s) _ (read_le-Within 2 s k (omega arith)) λ algorithm s1 h1.
      elim (Option-cases (size_of sizes algorithm)) [
        | inl missing ↦ rw missing tt
        | inr (size, found) ↦ rw found (
            >>=-Within k k (slice size s1) _ (slice-Within size s1 k (omega arith))
              (λ digest s2 h2. h2))
      ]

read_digests-Within :
    (sizes : SizeMap) (count : ℕ) (s : Bytes) (k : ℕ)
    → length s ≤ k
    → Within k (read_digests sizes count s)
unfolding read_digests
read_digests-Within sizes zero s k h = h
read_digests-Within sizes (suc count) s k h =
    >>=-Within k k (read_digest sizes s) _ (read_digest-Within sizes s k h) λ d s1 h1.
      >>=-Within k k (read_digests sizes count s1) _ (read_digests-Within sizes count s1 k h1)
        λ ds s2 h2. h2

read_sized-Within : (s : Bytes) (k : ℕ) → length s ≤ k → Within k (read_sized s)
unfolding read_sized
read_sized-Within s k h =
    >>=-Within k k (read_le 4 s) _ (read_le-Within 4 s k (omega arith))
      λ size s1 h1. slice-Within size s1 k (omega arith)

read_entry-Within :
    (sizes : SizeMap) (registry event_type : ℕ) (s : Bytes) (k : ℕ)
    → length s ≤ k
    → Within k (read_entry sizes registry event_type s)
unfolding read_entry
read_entry-Within sizes registry event_type s k h =
    >>=-Within k k (read_le 4 s) _ (read_le-Within 4 s k (omega arith)) λ count s1 h1.
      >>=-Within k k (read_digests sizes count s1) _ (read_digests-Within sizes count s1 k h1)
        λ ds s2 h2. >>=-Within k k (read_sized s2) _ (read_sized-Within s2 k h2) λ desc s3 h3. h3

if-Ends : {A : Type 0} (b : Bool) (x y : Result A) → Ends x → Ends y → Ends (if b then x else y)
if-Ends true x y hx hy = hx
if-Ends false x y hx hy = hy

parse_loop-Ends :
    (fuel : ℕ) (sizes : SizeMap) (s : Bytes) → length s ≤ fuel → Ends (parse_loop fuel sizes s)
unfolding parse_loop
parse_loop-Ends fuel sizes [] h = tt
parse_loop-Ends zero sizes (b ∷ bs) h = absurd (omega arith)
parse_loop-Ends (suc fuel) sizes (b ∷ bs) h =
    >>=-Ends (suc fuel) (read_le 8 (b ∷ bs)) _ (read_le-Within 8 (b ∷ bs) (suc fuel) (omega arith))
      λ flag ahead h0.
        >>=-Ends fuel (read_le 4 (b ∷ bs)) _ (read_le-Within 4 (b ∷ bs) fuel (omega arith))
          λ registry s1 h1.
            >>=-Ends fuel (read_le 4 s1) _ (read_le-Within 4 s1 fuel (omega arith))
              λ event_type s2 h2.
                if-Ends (event_type == no_action) _ _
                  (>>=-Ends fuel (read_header sizes s2) _ (read_header-Within sizes s2 fuel h2)
                    (λ sizes' s3 h3. parse_loop-Ends fuel sizes' s3 h3))
                  (if-Ends (is_stop flag) (ok []) _ tt (
                    >>=-Ends fuel (read_entry sizes registry event_type s2) _
                      (read_entry-Within sizes registry event_type s2 fuel h2)
                      (λ item s3 h3.
                        Ends-then (parse_loop fuel sizes s3) _ (parse_loop-Ends fuel sizes s3 h3)
                          (λ rest. tt))))

Ends-ne-stuck : {A : Type 0} (m : Result A) → Ends m → m ≢ stuck
Ends-ne-stuck (ok a) h e = cc
Ends-ne-stuck (err e') h e = cc
Ends-ne-stuck panic h e = cc
Ends-ne-stuck stuck h e = h

-- The parser of the event log ends on every input: its loop does not run longer than the input
-- has bytes.
pub parse-ne-stuck : (log_bytes : Bytes) → parse log_bytes ≢ stuck
unfolding parse
parse-ne-stuck log_bytes =
    Ends-ne-stuck _ (parse_loop-Ends (length log_bytes) [] log_bytes (omega arith))

parse_bios_loop-Ends : (fuel : ℕ) (s : Bytes) → length s ≤ fuel → Ends (parse_bios_loop fuel s)
unfolding parse_bios_loop
parse_bios_loop-Ends fuel [] h = tt
parse_bios_loop-Ends zero (b ∷ bs) h = absurd (omega arith)
parse_bios_loop-Ends (suc fuel) (b ∷ bs) h =
    >>=-Ends (suc fuel) (read_le 8 (b ∷ bs)) _ (read_le-Within 8 (b ∷ bs) (suc fuel) (omega arith))
      λ flag ahead h0.
        >>=-Ends fuel (read_le 4 (b ∷ bs)) _ (read_le-Within 4 (b ∷ bs) fuel (omega arith))
          λ pcr s1 h1.
            >>=-Ends fuel (read_le 4 s1) _ (read_le-Within 4 s1 fuel (omega arith))
              λ event_type s2 h2. if-Ends (is_stop flag) (ok []) _ tt (
                >>=-Ends fuel (slice 20 s2) _ (slice-Within 20 s2 fuel (omega arith))
                  λ digest s3 h3.
                    >>=-Ends fuel (read_sized s3) _ (read_sized-Within s3 fuel h3) λ item s4 h4.
                      Ends-then (parse_bios_loop fuel s4) _ (parse_bios_loop-Ends fuel s4 h4)
                        (λ rest. tt))

-- The parser of a conventional BIOS log ends on every input.
pub parse_bios-ne-stuck : (log_bytes : Bytes) → parse_bios log_bytes ≢ stuck
unfolding parse_bios
parse_bios-ne-stuck log_bytes =
    Ends-ne-stuck _ (parse_bios_loop-Ends (length log_bytes) log_bytes (omega arith))

-- A log that is not empty and has fewer than eight bytes makes the parser panic, not fail.
pub parse-panic : (b : ℕ) (bs : Bytes) → length (b ∷ bs) < 8 → parse (b ∷ bs) ≡ panic
unfolding parse parse_loop read_le slice
parse-panic b bs short = rw (lt→leb 8 (length (b ∷ bs)) short) refl
