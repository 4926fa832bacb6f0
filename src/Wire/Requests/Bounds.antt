-- ===== src/Wire/Requests/Bounds.antt =====
-- How far the decoders read.
use gosamba.Prelude.{
  ℕ, zero, suc, ◌+◌, ◌-◌, ◌*◌, ◌≤◌, ◌≡◌, refl, true, false, ◌||◌, ltb, arith, inl, inr, Bool-cases,
}
use gosamba.Wire.{Bytes, slice, uint16, uint32}
use gosamba.Wire.Header.Bounds.{
  SameUpTo, slice-SameUpTo, uint16-SameUpTo, uint32-SameUpTo, uint64-SameUpTo,
}
use gosamba.Wire.Requests.{
  lock_at, locks_from, decode_lock_request, decode_read_request, decode_write_request,
  decode_close_request, decode_flush_request,
}

-- The same length, and the same bytes below it.
abbrev pub SameBody : Bytes → Bytes → Type 0
SameBody b c = SameUpTo b.len b c

lock_at-SameUpTo :
    (m : ℕ) (b c : Bytes)
    → SameUpTo m b c
    → (i : ℕ) → 24 + i * 24 + 24 ≤ m
    → lock_at b i ≡ lock_at c i
unfolding lock_at
lock_at-SameUpTo m b c s i h =
    rw
      (
        uint64-SameUpTo m b c s (24 + i * 24) (omega arith),
        uint64-SameUpTo m b c s (24 + i * 24 + 8) (omega arith),
        uint32-SameUpTo m b c s (24 + i * 24 + 16) (omega arith),
      )
      refl

locks_from-SameUpTo :
    (m : ℕ) (b c : Bytes)
    → SameUpTo m b c
    → (i n : ℕ) → 24 + (i + n) * 24 ≤ m
    → locks_from b i n ≡ locks_from c i n
unfolding locks_from
locks_from-SameUpTo m b c s i zero h = refl
locks_from-SameUpTo m b c s i (suc n) h =
    rw
      (
        lock_at-SameUpTo m b c s i (omega arith),
        locks_from-SameUpTo m b c s (suc i) n (omega arith),
      )
      refl

-- Two LOCK bodies of one length with the same bytes decode alike, for every lock count that the body
-- claims: no element is read past the end of the body.
pub decode_lock_request-SameBody :
    (b c : Bytes) → SameBody b c → decode_lock_request b ≡ decode_lock_request c
unfolding decode_lock_request
decode_lock_request-SameBody b c s = elim (Bool-cases (ltb b.len 48)) [
  | inl e ↦ let f : ltb c.len 48 ≡ true = ground arith in rw (e, f) refl
  | inr e ↦
      let f : ltb c.len 48 ≡ false = ground arith in
      let size : 48 ≤ b.len = ground arith in
      let n = uint16-SameUpTo b.len b c s 2 (omega arith) in
      elim (Bool-cases (ltb b.len (24 + uint16 b 2 * 24))) [
        | inl g ↦
            let g' : ltb c.len (24 + uint16 c 2 * 24) ≡ true = ground arith in
            rw (e, f, g, g', uint16-SameUpTo b.len b c s 0 (omega arith), n) refl
        | inr g ↦
            let g' : ltb c.len (24 + uint16 c 2 * 24) ≡ false = ground arith in
            let all : locks_from b 0 (uint16 b 2) ≡ locks_from c 0 (uint16 b 2) =
              locks_from-SameUpTo b.len b c s 0 (uint16 b 2) (ground arith) in
            rw
              (
                e,
                f,
                g,
                g',
                all,
                uint16-SameUpTo b.len b c s 0 (omega arith),
                n,
                uint32-SameUpTo b.len b c s 4 (omega arith),
                slice-SameUpTo b.len b c s 8 16 (omega arith),
              )
              refl
      ]
]

-- Two READ bodies of one length with the same bytes decode alike.
pub decode_read_request-SameBody :
    (b c : Bytes) → SameBody b c → decode_read_request b ≡ decode_read_request c
unfolding decode_read_request
decode_read_request-SameBody b c s = elim (Bool-cases (ltb b.len 48)) [
  | inl e ↦ let f : ltb c.len 48 ≡ true = ground arith in rw (e, f) refl
  | inr e ↦
      let f : ltb c.len 48 ≡ false = ground arith in
      let size : 48 ≤ b.len = ground arith in
      rw
        (
          e,
          f,
          uint16-SameUpTo b.len b c s 0 (omega arith),
          uint32-SameUpTo b.len b c s 4 (omega arith),
          uint64-SameUpTo b.len b c s 8 (omega arith),
          uint32-SameUpTo b.len b c s 32 (omega arith),
          slice-SameUpTo b.len b c s 16 16 (omega arith),
        )
        refl
]

-- Two WRITE bodies of one length with the same bytes decode alike, whatever data offset and length
-- they claim: the data is never read past the end of the body.
pub decode_write_request-SameBody :
    (b c : Bytes) → SameBody b c → decode_write_request b ≡ decode_write_request c
unfolding decode_write_request
decode_write_request-SameBody b c s = elim (Bool-cases (ltb b.len 48)) [
  | inl e ↦ let f : ltb c.len 48 ≡ true = ground arith in rw (e, f) refl
  | inr e ↦
      let f : ltb c.len 48 ≡ false = ground arith in
      let size : 48 ≤ b.len = ground arith in
      let off = uint16-SameUpTo b.len b c s 2 (omega arith) in
      let n = uint32-SameUpTo b.len b c s 4 (omega arith) in
      let head = uint16-SameUpTo b.len b c s 0 (omega arith) in
      let place = uint64-SameUpTo b.len b c s 8 (omega arith) in
      let flags = uint32-SameUpTo b.len b c s 44 (omega arith) in
      let id = slice-SameUpTo b.len b c s 16 16 (omega arith) in
      elim (Bool-cases (ltb (uint16 b 2) 64 || ltb b.len (uint16 b 2 - 64 + uint32 b 4))) [
        | inl g ↦
            let g' : (ltb (uint16 c 2) 64 || ltb c.len (uint16 c 2 - 64 + uint32 c 4)) ≡ true =
              rw (← off, ← n, ← s.0) g in
            rw (e, f, g, g', head, place, flags, id, n) refl
        | inr g ↦
            let g' : (ltb (uint16 c 2) 64 || ltb c.len (uint16 c 2 - 64 + uint32 c 4)) ≡ false =
              rw (← off, ← n, ← s.0) g in
            let bytes : slice b (uint16 b 2 - 64) (uint32 b 4)
                ≡ slice c (uint16 c 2 - 64) (uint32 c 4) =
              rw (← off, ← n)
                (slice-SameUpTo b.len b c s (uint16 b 2 - 64) (uint32 b 4) (ground arith)) in
            rw (e, f, g, g', head, place, flags, id, bytes, n) refl
      ]
]

-- Two CLOSE bodies of one length with the same bytes decode alike, and so do two FLUSH bodies.
pub close_flush-SameBody :
    (b c : Bytes)
    → SameBody b c
    → (decode_close_request b ≡ decode_close_request c)
      × (decode_flush_request b ≡ decode_flush_request c)
unfolding decode_close_request decode_flush_request
close_flush-SameBody b c s = elim (Bool-cases (ltb b.len 24)) [
  | inl e ↦ let f : ltb c.len 24 ≡ true = ground arith in (rw (e, f) refl, rw (e, f) refl)
  | inr e ↦
      let f : ltb c.len 24 ≡ false = ground arith in
      let size : 24 ≤ b.len = ground arith in
      let head = uint16-SameUpTo b.len b c s 0 (omega arith) in
      let id = slice-SameUpTo b.len b c s 8 16 (omega arith) in
      (
        rw (e, f, head, uint16-SameUpTo b.len b c s 2 (omega arith), id) refl,
        rw (e, f, head, id) refl,
      )
]
