-- ===== src/Wire/Requests/Locks.antt =====
-- The layout of a LOCK body in MS-SMB2 2.2.26, and its decoding.
use gosamba.Prelude.{
  ℕ, zero, suc, ◌+◌, ◌*◌, ◌^◌, ◌<◌, ◌≤◌, ◌≡◌, ◌∙◌, ap, sym, refl, false, ◌==◌, ltb, List, [], ◌∷◌,
  ◌++◌, arith, inr, length,
}
use gosamba.Wire.{Bytes, slice, uint16, uint32, uint64, nth, le32, le64}
use gosamba.Wire.Header.RoundTrip.{le32-value, le64-value}
use gosamba.Wire.Requests.{lock_at, locks_from, decode_lock_request}
use gosamba.Locks.Request.{LockElement}

abbrev pub IsElement : LockElement → Type 0
IsElement el = (el.offset < 2 ^ 64) × (el.len < 2 ^ 64) × (el.flags < 2 ^ 32)

-- The element's 20 bytes: offset, length and flags, each little-endian; 4 reserved bytes follow.
abbrev pub element_bytes : LockElement → List ℕ
element_bytes el = le64 el.offset ++ (le64 el.len ++ le32 el.flags)

-- The elements stand in the body one after the other, from place `i` of the array on.
abbrev pub Spells : Bytes → ℕ → List LockElement → Type 0
Spells body i [] = Unit
Spells body i (el ∷ els) =
    IsElement el × (slice body (24 + i * 24) 20 ≡ element_bytes el) × Spells body (suc i) els

slice_at : (b : Bytes) (k n i : ℕ) → i < n → nth i (slice b k n) ≡ b.at (k + i)
unfolding slice
slice_at b k zero i h = absurd (omega arith)
slice_at b k (suc n) zero h = ap b.at (omega arith)
slice_at b k (suc n) (suc i) h =
    let e : suc k + i ≡ k + suc i = omega arith in slice_at b (suc k) n i (omega arith) ∙ ap b.at e

module _ (b : Bytes) (k : ℕ) (bytes : List ℕ) (spelt : slice b k 20 ≡ bytes) where
  byte : (i : ℕ) → i < 20 → b.at (k + i) ≡ nth i bytes
  byte i h = sym (slice_at b k 20 i h) ∙ ap (nth i) spelt

  word :
      (i j : ℕ)
      → j ≡ k + i
      → i + 4 ≤ 20
      → uint32 b j
        ≡ nth i bytes
          + 256 * nth (i + 1) bytes
          + 65536 * nth (i + 2) bytes
          + 16777216 * nth (i + 3) bytes
  unfolding uint32
  word i j e h =
      let at : (d : ℕ) → d < 4 → b.at (j + d) ≡ nth (i + d) bytes = λ d hd.
        let e' : j + d ≡ k + (i + d) = omega arith in ap b.at e' ∙ byte (i + d) (omega arith) in
      rw
        (
          ap b.at e ∙ byte i (omega arith),
          at 1 (omega arith),
          at 2 (omega arith),
          at 3 (omega arith),
        )
        refl

lock_at-Spells :
    (b : Bytes) (i : ℕ) (el : LockElement)
    → IsElement el
    → slice b (24 + i * 24) 20 ≡ element_bytes el
    → lock_at b i ≡ el
unfolding lock_at uint64
lock_at-Spells b i el v e =
    let w = word b (24 + i * 24) (element_bytes el) e in
    let start : uint64 b (24 + i * 24) ≡ el.offset =
      unfold uint64 in
      rw (w 0 (24 + i * 24) (omega arith) (omega arith), w 4 (24 + i * 24 + 4) refl (omega arith))
        (le64-value el.offset v.0) in
    let extent : uint64 b (24 + i * 24 + 8) ≡ el.len =
      unfold uint64 in
      rw
        (
          w 8 (24 + i * 24 + 8) refl (omega arith),
          w 12 (24 + i * 24 + 8 + 4) (omega arith) (omega arith),
        )
        (le64-value el.len v.1) in
    let bits : uint32 b (24 + i * 24 + 16) ≡ el.flags =
      w 16 (24 + i * 24 + 16) refl (omega arith) ∙ le32-value el.flags v.2 in
    λ t. record { offset = start t; len = extent t; flags = bits t }

locks_from-Spells :
    (b : Bytes) (i : ℕ) (els : List LockElement)
    → Spells b i els
    → locks_from b i (length els) ≡ els
unfolding locks_from
locks_from-Spells b i [] s = refl
locks_from-Spells b i (el ∷ els) s =
    rw (lock_at-Spells b i el s.0 s.1, locks_from-Spells b (suc i) els s.2) refl

-- A LOCK body of structure size 48 with the count of at least one element, that many elements spelt
-- out from offset 24 on and room for them, decodes to exactly those elements in their order, with
-- the sequence number and the file id that the body names.
pub decode_lock_request-Spells :
    (b : Bytes) (els : List LockElement)
    → uint16 b 0 ≡ 48
    → uint16 b 2 ≡ length els
    → 0 < length els
    → 24 + length els * 24 ≤ b.len
    → Spells b 0 els
    → decode_lock_request b
      ≡ inr (record { lock_sequence_index = uint32 b 4; file_id = slice b 8 16; locks = els })
unfolding decode_lock_request
decode_lock_request-Spells b els size count some_ room s =
    let long : ltb b.len 48 ≡ false = ground arith in
    let fits : ltb b.len (24 + length els * 24) ≡ false = ground arith in
    let positive : (length els == 0) ≡ false = ground arith in
    rw (long, size, count, positive, fits, locks_from-Spells b 0 els s) refl
