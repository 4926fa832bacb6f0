-- ===== src/Locks/Range.antt =====
-- One byte range of internal/parent/lock_ranges.go, and when two ranges share a byte.
use gosamba.Prelude.{
  ℕ, ◌+◌, ◌-◌, ◌%◌, ◌^◌, ◌≤◌, ◌<◌, ◌≡◌, ◌↔◌, Bool, true, false, ◌&&◌, ◌||◌, arith, ltb, ◌==◌,
  if◌then◌else◌,
}
use Prim.Native.Nat.{max}
use gosamba.Prelude.Assoc.{Key}

-- `fileKey`: device and inode.
pub record FileKey : Type 0 where
  pub dev : ℕ
  pub ino : ℕ

abbrev pub file_key_eq : FileKey → FileKey → Bool
file_key_eq a b = a.dev == b.dev && a.ino == b.ino

pub file_key_eq_iff : (a b : FileKey) → (file_key_eq a b ≡ true) ↔ (a ≡ b)
file_key_eq_iff a b = ground arith

instance abbrev pub file_key : Key FileKey
file_key = record { beq = file_key_eq; beq_iff = file_key_eq_iff }

-- `lockKind`
pub data LockKind : Type 0 where
  unlock shared exclusive : LockKind

-- `lockRange`. The owner, a `*Open`, is the handle's identity.
pub record LockRange : Type 0 where
  pub owner : ℕ
  pub start : ℕ
  pub len : ℕ
  pub is_exclusive : Bool

unfoldable pub kind_of : LockRange → LockKind
kind_of r = if r.is_exclusive then exclusive else shared

abbrev pub max_u64 : ℕ
max_u64 = 2 ^ 64 - 1

-- `start + length` wraps in Go; a wrapped end saturates.
unfoldable pub range_end : ℕ → ℕ → ℕ
range_end start len = let e = (start + len) % 2 ^ 64 in if ltb e start then max_u64 else e

unfoldable pub ranges_overlap : ℕ → ℕ → ℕ → ℕ → Bool
unfolding range_end
ranges_overlap a_start a_len b_start b_len =
    if a_len == 0 || b_len == 0
    then false
    else ltb a_start (range_end b_start b_len) && ltb b_start (range_end a_start a_len)

unfoldable pub same_range : LockRange → ℕ → ℕ → Bool
same_range r start len = r.start == start && r.len == len

-- The bytes that a range covers. A file offset never reaches the last 64-bit value.
abbrev pub Covers : ℕ → ℕ → ℕ → Type 0
Covers start len b = (start ≤ b) × (b < start + len) × (b < max_u64)

-- A saturated end is past exactly the covered bytes.
pub range_end_iff :
    (start len b : ℕ)
    → start < 2 ^ 64
    → len < 2 ^ 64
    → 0 < len
    → start ≤ b
    → (b < range_end start len) ↔ Covers start len b
unfolding range_end
range_end_iff start len b hs hl pos h = (λ k. ground arith, λ k. ground arith)

-- `rangesOverlap` answers true exactly if some byte lies in both ranges, for all 64-bit ranges,
-- those whose end wraps included.
pub ranges_overlap_iff :
    (a_start a_len b_start b_len : ℕ)
    → a_start < 2 ^ 64
    → a_len < 2 ^ 64
    → b_start < 2 ^ 64
    → b_len < 2 ^ 64
    → (ranges_overlap a_start a_len b_start b_len ≡ true)
      ↔ ((b : ℕ) × Covers a_start a_len b × Covers b_start b_len b)
unfolding ranges_overlap
ranges_overlap_iff a_start a_len b_start b_len ha hal hb hbl =
    (λ h. (max a_start b_start, ground arith, ground arith), λ (b, ca, cb). ground arith)

pub ranges_overlap_comm : (a al b bl : ℕ) → ranges_overlap a al b bl ≡ ranges_overlap b bl a al
unfolding ranges_overlap
ranges_overlap_comm a al b bl = ground arith
