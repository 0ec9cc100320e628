-- ===== src/EventLog/RoundTrip.antt =====
-- evidence-verify/src/eventlog_rs/mod.rs: the parser reads the layout of a crypto-agile TCG event log.
use unified_attestation.Prelude.{
  ℕ, zero, suc, ◌+◌, ◌*◌, ◌^◌, ◌≤◌, ◌<◌, ◌≡◌, refl, sym, ap, ◌∙◌, List, [], ◌∷◌, ◌++◌, map,
  append_assoc, length, drop, take-append, drop-append, length-append, ◌==◌, if◌then◌else◌, arith,
}
use unified_attestation.Outcome.{Result, ok, ◌>>=◌}
use unified_attestation.Bytes.{Bytes}
use unified_attestation.EventLog.{
  from_le, slice, read_le, no_action, EventlogEntry, SizeMap, read_sizes, read_header, read_digest,
  read_digests, read_sized, read_entry, is_stop, parse_loop, parse,
}
use unified_attestation.EventLog.Format.{
  le16, le32, RawDigest, RawEntry, RawHeader, sizes_bytes, digests_bytes, entry_bytes,
  entries_bytes, header_bytes, IsEnd, at_end, zeros, ones, kept, AllOf, IsSize, IsDigest, IsEntry,
  IsHeader, named_digest, entry_of,
}

pub slice-append : (xs rest : Bytes) → slice (length xs) (xs ++ rest) ≡ ok (xs, rest)
unfolding slice
slice-append xs rest = rw (take-append, drop-append) (ground (arith, length-append xs rest))

read_le-le16 : (x : ℕ) (rest : Bytes) → x < 2 ^ 16 → read_le 2 (le16 x ++ rest) ≡ ok (x, rest)
unfolding read_le from_le le16
read_le-le16 x rest h = rw (slice-append (le16 x) rest) (ap (λ (y : ℕ). ok (y, rest)) (omega arith))

read_le-le32 : (x : ℕ) (rest : Bytes) → x < 2 ^ 32 → read_le 4 (le32 x ++ rest) ≡ ok (x, rest)
unfolding read_le from_le le32
read_le-le32 x rest h = rw (slice-append (le32 x) rest) (ap (λ (y : ℕ). ok (y, rest)) (omega arith))

-- The two numbers that begin a record, read as one.
read_le-two :
    (a b : ℕ) (rest : Bytes)
    → a < 2 ^ 32
    → b < 2 ^ 32
    → read_le 8 (le32 a ++ (le32 b ++ rest)) ≡ ok (a + 2 ^ 32 * b, rest)
unfolding read_le from_le le32
read_le-two a b rest ha hb =
    rw (slice-append (le32 a ++ le32 b) rest) (ap (λ (y : ℕ). ok (y, rest)) (omega arith))

read_sizes_lem :
    (xs : List (ℕ × ℕ)) (sizes : SizeMap) (rest : Bytes)
    → AllOf IsSize xs
    → read_sizes (length xs) sizes (sizes_bytes xs ++ rest) ≡ ok (kept sizes xs, rest)
unfolding read_sizes sizes_bytes kept
read_sizes_lem [] sizes rest h = refl
read_sizes_lem ((a, n) ∷ xs) sizes rest ((ha, hn), hs) =
    simp
      (
        append_assoc,
        read_le-le16 a (le16 n ++ (sizes_bytes xs ++ rest)) ha,
        read_le-le16 n (sizes_bytes xs ++ rest) hn,
      )
      (read_sizes_lem xs ((a, n) ∷ sizes) rest hs)

read_digests_lem :
    (sizes : SizeMap) (ds : List RawDigest) (rest : Bytes)
    → AllOf (IsDigest sizes) ds
    → read_digests sizes (length ds) (digests_bytes ds ++ rest) ≡ ok (map named_digest ds, rest)
unfolding read_digests digests_bytes read_digest
read_digests_lem sizes [] rest h = refl
read_digests_lem sizes (d ∷ ds) rest (h, hs) =
    simp
      (
        append_assoc,
        read_le-le16 d.algorithm (d.digest ++ (digests_bytes ds ++ rest)) h.algorithm_u16,
        h.sized,
        slice-append d.digest (digests_bytes ds ++ rest),
        read_digests_lem sizes ds rest hs,
      )
      refl

read_sized_lem :
    (xs rest : Bytes)
    → length xs < 2 ^ 32
    → read_sized (le32 (length xs) ++ (xs ++ rest)) ≡ ok (xs, rest)
unfolding read_sized
read_sized_lem xs rest h = rw (read_le-le32 (length xs) (xs ++ rest) h) (slice-append xs rest)

read_entry_lem :
    (sizes : SizeMap) (e : RawEntry) (rest : Bytes)
    → IsEntry sizes e
    → read_entry sizes e.registry e.event_type (
        le32 (length e.digests)
        ++ (digests_bytes e.digests ++ (le32 (length e.desc) ++ (e.desc ++ rest))))
      ≡ ok (entry_of e, rest)
unfolding read_entry
read_entry_lem sizes e rest h =
    simp
      (
        read_le-le32 (length e.digests)
            (digests_bytes e.digests ++ (le32 (length e.desc) ++ (e.desc ++ rest))) h.count_u32,
        read_digests_lem sizes e.digests (le32 (length e.desc) ++ (e.desc ++ rest)) h.digests_ok,
        read_sized_lem e.desc rest h.desc_u32,
      )
      refl

abbrev after_header : ℕ → SizeMap → Bytes → Result (List EventlogEntry)
after_header fuel sizes s = read_header sizes s >>= λ r. parse_loop fuel r.0 r.1

abbrev after_entry : ℕ → SizeMap → ℕ → ℕ → Bytes → Result (List EventlogEntry)
after_entry fuel sizes registry event_type s = read_entry sizes registry event_type s >>= λ r.
    parse_loop fuel sizes r.1 >>= λ rest. ok (r.0 ∷ rest)

parse_loop_step :
    (fuel : ℕ) (sizes : SizeMap) (a b : ℕ) (tail : Bytes)
    → a < 2 ^ 32
    → b < 2 ^ 32
    → parse_loop (suc fuel) sizes (le32 a ++ (le32 b ++ tail)) ≡ (
        if b == no_action
        then after_header fuel sizes tail
        else if is_stop (a + 2 ^ 32 * b)
        then ok []
        else after_entry fuel sizes a b tail)
unfolding parse_loop le32
parse_loop_step fuel sizes a b tail ha hb =
    rw (read_le-two a b tail ha hb, read_le-le32 a (le32 b ++ tail) ha, read_le-le32 b tail hb) refl

length-le32 : (x : ℕ) → length (le32 x) ≡ 4
unfolding le32
length-le32 x = refl

parse_loop-IsEnd :
    (fuel : ℕ) (sizes : SizeMap) (s : Bytes)
    → IsEnd s
    → length s ≤ fuel
    → parse_loop fuel sizes s ≡ ok []
parse_loop-IsEnd fuel sizes _ at_end h = unfold parse_loop in refl
parse_loop-IsEnd zero sizes _ (zeros rest) h =
    absurd (omega (arith, length-append (le32 0) (le32 0 ++ rest), length-le32 0))
parse_loop-IsEnd (suc fuel) sizes _ (zeros rest) h =
    parse_loop_step fuel sizes 0 0 rest (omega arith) (omega arith)
parse_loop-IsEnd zero sizes _ (ones rest) h = absurd (
    omega
      (arith, length-append (le32 0xffff_ffff) (le32 0xffff_ffff ++ rest), length-le32 0xffff_ffff))
parse_loop-IsEnd (suc fuel) sizes _ (ones rest) h =
    parse_loop_step fuel sizes 0xffff_ffff 0xffff_ffff rest (omega arith) (omega arith)

drop_48 : (xs rest : Bytes) → length xs ≡ 48 → drop 48 (xs ++ rest) ≡ rest
drop_48 xs rest h = ap (λ n. drop n (xs ++ rest)) (sym h) ∙ drop-append xs rest

read_byte : (x : ℕ) (rest : Bytes) → read_le 1 (x ∷ rest) ≡ ok (x, rest)
unfolding read_le from_le
read_byte x rest = rw (slice-append (x ∷ []) rest) (ap (λ (y : ℕ). ok (y, rest)) (omega arith))

read_header_lem :
    (h : RawHeader) (rest : Bytes)
    → IsHeader h
    → read_header [] (
        h.specification
        ++ (le32 (length h.sizes)
            ++ (sizes_bytes h.sizes ++ ((length h.vendor ∷ []) ++ (h.vendor ++ rest)))))
      ≡ ok (kept [] h.sizes, rest)
unfolding read_header
read_header_lem h rest good =
    let tail = sizes_bytes h.sizes ++ ((length h.vendor ∷ []) ++ (h.vendor ++ rest)) in
    rw
      (
        drop_48 h.specification (le32 (length h.sizes) ++ tail) good.specification_48,
        read_le-le32 (length h.sizes) tail good.count_u32,
        read_sizes_lem h.sizes [] ((length h.vendor ∷ []) ++ (h.vendor ++ rest)) good.sizes_ok,
        read_byte (length h.vendor) (h.vendor ++ rest),
        drop-append h.vendor rest,
      )
      refl

length-entry_bytes : (e : RawEntry) → 0 < length (entry_bytes e)
unfolding entry_bytes
length-entry_bytes e = omega (
  arith,
  length-append (le32 e.registry) (
      le32 e.event_type
      ++ (le32 (length e.digests)
          ++ (digests_bytes e.digests ++ (le32 (length e.desc) ++ e.desc)))),
  length-le32 e.registry,
)

-- What follows the type of an entry.
abbrev entry_tail : RawEntry → Bytes → Bytes
entry_tail e rest =
    le32 (length e.digests)
    ++ (digests_bytes e.digests ++ (le32 (length e.desc) ++ (e.desc ++ rest)))

entry_bytes-append :
    (e : RawEntry) (rest : Bytes)
    → entry_bytes e ++ rest ≡ le32 e.registry ++ (le32 e.event_type ++ entry_tail e rest)
unfolding entry_bytes
entry_bytes-append e rest = simp append_assoc refl

parse_loop-entries :
    (fuel : ℕ) (sizes : SizeMap) (es : List RawEntry) (end : Bytes)
    → AllOf (IsEntry sizes) es
    → IsEnd end
    → length (entries_bytes es ++ end) ≤ fuel
    → parse_loop fuel sizes (entries_bytes es ++ end) ≡ ok (map entry_of es)
unfolding entries_bytes
parse_loop-entries fuel sizes [] end h e n = parse_loop-IsEnd fuel sizes end e n
parse_loop-entries zero sizes (x ∷ es) end h e n = absurd (
    omega (
      arith,
      length-append (entry_bytes x ++ entries_bytes es) end,
      length-append (entry_bytes x) (entries_bytes es),
      length-entry_bytes x,
    ))
parse_loop-entries (suc fuel) sizes (x ∷ es) end (h, hs) e n =
    let rest = entries_bytes es ++ end in
    let shorter : length rest ≤ fuel = omega (
      arith,
      ap length (append_assoc (entry_bytes x) (entries_bytes es) end),
      length-append (entry_bytes x) rest,
      length-entry_bytes x,
    ) in
    rw
      (
        append_assoc (entry_bytes x) (entries_bytes es) end,
        entry_bytes-append x rest,
        parse_loop_step fuel sizes x.registry x.event_type (entry_tail x rest) h.registry_u32
            h.type_u32,
        h.action,
        h.goes_on,
        read_entry_lem sizes x rest h,
        parse_loop-entries fuel sizes es end hs e shorter,
      )
      refl

header_bytes-append :
    (h : RawHeader) (rest : Bytes)
    → header_bytes h ++ rest
      ≡ le32 h.registry
        ++ (le32 no_action
            ++ (h.specification
                ++ (le32 (length h.sizes)
                    ++ (sizes_bytes h.sizes ++ ((length h.vendor ∷ []) ++ (h.vendor ++ rest))))))
unfolding header_bytes
header_bytes-append h rest = simp append_assoc refl

length-header_bytes : (h : RawHeader) → 0 < length (header_bytes h)
unfolding header_bytes
length-header_bytes h = omega (
  arith,
  length-append (le32 h.registry) (
      le32 no_action
      ++ (h.specification
          ++ (le32 (length h.sizes)
              ++ (sizes_bytes h.sizes ++ ((length h.vendor ∷ []) ++ h.vendor))))),
  length-le32 h.registry,
)

parse_loop-header_bytes :
    (fuel : ℕ) (h : RawHeader) (es : List RawEntry) (end : Bytes)
    → IsHeader h
    → AllOf (IsEntry (kept [] h.sizes)) es
    → IsEnd end
    → length (header_bytes h ++ (entries_bytes es ++ end)) ≤ fuel
    → parse_loop fuel [] (header_bytes h ++ (entries_bytes es ++ end)) ≡ ok (map entry_of es)
parse_loop-header_bytes zero h es end good hs e n = absurd (
    omega (
      arith,
      ap length (header_bytes-append h (entries_bytes es ++ end)),
      length-append (le32 h.registry) _,
      length-le32 h.registry,
    ))
parse_loop-header_bytes (suc fuel) h es end good hs e n =
    let rest = entries_bytes es ++ end in
    let shorter : length rest ≤ fuel = omega (
      arith,
      ap length (header_bytes-append h rest),
      length-append (header_bytes h) rest,
      length-header_bytes h,
    ) in
    rw
      (
        header_bytes-append h rest,
        parse_loop_step fuel [] h.registry no_action _ good.registry_u32 (omega arith),
        read_header_lem h rest good,
      )
      (parse_loop-entries fuel (kept [] h.sizes) es end hs e shorter)

-- The parser reads a log in this layout: a header record, entries whose digests have the sizes of
-- the header, and an end. It gives back the registry, type, digests and description of each
-- entry, in order, and no other entry. No entry has the header's type, or begins with eight bytes
-- of 0 or of 255, and every number fits into its field.
pub parse-entries_bytes :
    (h : RawHeader) (es : List RawEntry) (end : Bytes)
    → IsHeader h
    → AllOf (IsEntry (kept [] h.sizes)) es
    → IsEnd end
    → parse (header_bytes h ++ (entries_bytes es ++ end)) ≡ ok (map entry_of es)
unfolding parse
parse-entries_bytes h es end good hs e =
    parse_loop-header_bytes (length (header_bytes h ++ (entries_bytes es ++ end))) h es end good hs
      e (omega arith)
