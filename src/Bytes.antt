-- ===== src/Bytes.antt =====
-- Bytes, the big-endian integers of the wire format, `Duration` and UTF-8. A byte is a number.
use unified_attestation.Prelude.{
  ℕ, zero, suc, ◌+◌, ◌*◌, ◌/◌, ◌%◌, ◌^◌, ◌<◌, ◌≡◌, refl, List, [], ◌∷◌, Bool, true, false, ◌&&◌,
  leb, ltb, ◌==◌, if◌then◌else◌, Option, none, some, arith,
}
use unified_attestation.Outcome.{Result, ok, panic}

abbrev pub Bytes : Type 0
Bytes = List ℕ

-- `x.to_be_bytes()` of a `u32` and of a `u64`, and `from_be_bytes`.
unfoldable pub be32 : ℕ → Bytes
be32 x = x / 2 ^ 24 % 256 ∷ x / 2 ^ 16 % 256 ∷ x / 2 ^ 8 % 256 ∷ x % 256 ∷ []

unfoldable pub be64 : ℕ → Bytes
be64 x =
    x / 2 ^ 56 % 256
    ∷ x / 2 ^ 48 % 256
    ∷ x / 2 ^ 40 % 256
    ∷ x / 2 ^ 32 % 256
    ∷ x / 2 ^ 24 % 256
    ∷ x / 2 ^ 16 % 256
    ∷ x / 2 ^ 8 % 256
    ∷ x % 256
    ∷ []

unfoldable pub from_be : ℕ → Bytes → ℕ
from_be acc [] = acc
from_be acc (b ∷ bs) = from_be (acc * 256 + b) bs

pub from_be-be32 : (x : ℕ) → x < 2 ^ 32 → from_be 0 (be32 x) ≡ x
unfolding from_be be32
from_be-be32 x h = omega arith

pub from_be-be64 : (x : ℕ) → x < 2 ^ 64 → from_be 0 (be64 x) ≡ x
unfolding from_be be64
from_be-be64 x h = omega arith

-- `std::time::Duration`
pub record Duration : Type 0 where
  pub secs : ℕ
  pub nanos : ℕ

abbrev pub nanos_per_sec : ℕ
nanos_per_sec = 1_000_000_000

-- What the type of the source keeps.
pub record IsDuration (d : Duration) : Type 0 where
  pub secs_u64 : d.secs < 2 ^ 64
  pub nanos_small : d.nanos < nanos_per_sec

-- `Duration::new` carries whole seconds over, and panics where they overflow.
unfoldable pub new_duration : ℕ → ℕ → Result Duration
new_duration secs nanos =
    let carried = secs + nanos / nanos_per_sec in
    if ltb nanos nanos_per_sec
    then ok (record { secs = secs; nanos = nanos })
    else if ltb carried (2 ^ 64)
    then ok (record { secs = carried; nanos = nanos % nanos_per_sec })
    else panic

-- `Duration::checked_add`, and the order of durations.
unfoldable pub checked_add : Duration → Duration → Option Duration
checked_add a b =
    let nanos = a.nanos + b.nanos in
    let secs = a.secs + b.secs + nanos / nanos_per_sec in
    if ltb secs (2 ^ 64) then some (record { secs = secs; nanos = nanos % nanos_per_sec }) else none

abbrev pub later : Duration → Duration → Bool
later a b = if a.secs == b.secs then ltb b.nanos a.nanos else ltb b.secs a.secs

-- The check of `String::from_utf8`: how many bytes are to follow, and the range of the next one.
abbrev pub Utf8State : Type 0
Utf8State = ℕ × ℕ × ℕ

abbrev pub within : ℕ → ℕ → ℕ → Bool
within lo hi b = leb lo b && leb b hi

unfoldable pub utf8_first : ℕ → Option Utf8State
utf8_first b =
    if ltb b 0x80
    then some (0, 0, 0)
    else if within 0xc2 0xdf b
    then some (1, 0x80, 0xbf)
    else if b == 0xe0
    then some (2, 0xa0, 0xbf)
    else if b == 0xed
    then some (2, 0x80, 0x9f)
    else if within 0xe1 0xef b
    then some (2, 0x80, 0xbf)
    else if b == 0xf0
    then some (3, 0x90, 0xbf)
    else if within 0xf1 0xf3 b
    then some (3, 0x80, 0xbf)
    else if b == 0xf4
    then some (3, 0x80, 0x8f)
    else none

unfoldable pub utf8_step : Utf8State → ℕ → Option Utf8State
unfolding utf8_first
utf8_step (zero, lo, hi) b = utf8_first b
utf8_step (suc more, lo, hi) b = if within lo hi b then some (more, 0x80, 0xbf) else none

unfoldable pub utf8_scan : Option Utf8State → Bytes → Bool
utf8_scan none bs = false
utf8_scan (some (more, lo, hi)) [] = more == 0
utf8_scan (some s) (b ∷ bs) = utf8_scan (utf8_step s b) bs

unfoldable pub is_utf8 : Bytes → Bool
unfolding utf8_scan utf8_step
is_utf8 = utf8_scan (some (0, 0, 0))

utf8_examples :
    (is_utf8 (0x61 ∷ 0xe2 ∷ 0x82 ∷ 0xac ∷ []) ≡ true)
    × (is_utf8 (0xed ∷ 0xa0 ∷ 0x80 ∷ []) ≡ false)
    × (is_utf8 (0xe2 ∷ 0x82 ∷ []) ≡ false)
unfolding is_utf8
utf8_examples = (refl, refl, refl)

pub new_duration_lem : (d : Duration) → IsDuration d → new_duration d.secs d.nanos ≡ ok d
unfolding new_duration
new_duration_lem d h = ground arith
