-- ===== src/Wire/Header/Bounds.antt =====
-- Which buffers the header decoder accepts, and how far it reads.
use gosamba.Prelude.{ℕ, zero, suc, ◌+◌, ◌<◌, ◌≤◌, ◌≡◌, ◌↔◌, refl, arith, inr}
use gosamba.Wire.{Bytes, slice, uint16, uint32, uint64}
use gosamba.Wire.Header.{Header, decode_header, read_header, is_smb2}

-- The two buffers have the same length and the same first `n` bytes.
abbrev pub SameUpTo : ℕ → Bytes → Bytes → Type 0
SameUpTo n b c = (b.len ≡ c.len) × ((i : ℕ) → i < n → b.at i ≡ c.at i)

pub slice-SameUpTo :
    (m : ℕ) (b c : Bytes) → SameUpTo m b c → (k n : ℕ) → k + n ≤ m → slice b k n ≡ slice c k n
unfolding slice
slice-SameUpTo m b c s k zero h = refl
slice-SameUpTo m b c s k (suc n) h =
    rw (s.1 k (omega arith), slice-SameUpTo m b c s (suc k) n (omega arith)) refl

pub uint16-SameUpTo :
    (m : ℕ) (b c : Bytes) → SameUpTo m b c → (k : ℕ) → k + 2 ≤ m → uint16 b k ≡ uint16 c k
unfolding uint16
uint16-SameUpTo m b c s k h = rw (s.1 k (omega arith), s.1 (k + 1) (omega arith)) refl

pub uint32-SameUpTo :
    (m : ℕ) (b c : Bytes) → SameUpTo m b c → (k : ℕ) → k + 4 ≤ m → uint32 b k ≡ uint32 c k
unfolding uint32
uint32-SameUpTo m b c s k h =
    rw
      (
        s.1 k (omega arith),
        s.1 (k + 1) (omega arith),
        s.1 (k + 2) (omega arith),
        s.1 (k + 3) (omega arith),
      )
      refl

pub uint64-SameUpTo :
    (m : ℕ) (b c : Bytes) → SameUpTo m b c → (k : ℕ) → k + 8 ≤ m → uint64 b k ≡ uint64 c k
unfolding uint64
uint64-SameUpTo m b c s k h =
    rw (uint32-SameUpTo m b c s k (omega arith), uint32-SameUpTo m b c s (k + 4) (omega arith)) refl

read_header-SameUpTo : (b c : Bytes) → SameUpTo 64 b c → read_header b ≡ read_header c
unfolding read_header
read_header-SameUpTo b c s =
    rw
      (
        uint16-SameUpTo 64 b c s 6 (omega arith),
        uint32-SameUpTo 64 b c s 8 (omega arith),
        uint16-SameUpTo 64 b c s 12 (omega arith),
        uint16-SameUpTo 64 b c s 14 (omega arith),
        uint32-SameUpTo 64 b c s 16 (omega arith),
        uint32-SameUpTo 64 b c s 20 (omega arith),
        uint64-SameUpTo 64 b c s 24 (omega arith),
        uint32-SameUpTo 64 b c s 36 (omega arith),
        uint64-SameUpTo 64 b c s 40 (omega arith),
        slice-SameUpTo 64 b c s 48 16 (omega arith),
      )
      refl

is_smb2-SameUpTo : (b c : Bytes) → SameUpTo 64 b c → is_smb2 b ≡ is_smb2 c
unfolding is_smb2
is_smb2-SameUpTo b c s =
    rw (s.1 0 (omega arith), s.1 1 (omega arith), s.1 2 (omega arith), s.1 3 (omega arith)) refl

-- Buffers of one length with the same first 64 bytes decode alike, whatever follows: the decoder
-- reads the header and nothing past it.
pub decode_header-SameUpTo : (b c : Bytes) → SameUpTo 64 b c → decode_header b ≡ decode_header c
unfolding decode_header
decode_header-SameUpTo b c s =
    rw
      (
        is_smb2-SameUpTo b c s,
        uint16-SameUpTo 64 b c s 4 (omega arith),
        read_header-SameUpTo b c s,
        s.0,
      )
      refl

-- A buffer decodes exactly if it has at least 64 bytes, starts with the protocol id 0xFE 'S' 'M' 'B'
-- and has structure size 64; the header is then the one that its bytes spell.
pub decode_header_iff :
    (b : Bytes) (h : Header)
    → (decode_header b ≡ inr h) ↔ (
        (64 ≤ b.len)
        × ((b.at 0 ≡ 0xFE) × (b.at 1 ≡ 0x53) × (b.at 2 ≡ 0x4D) × (b.at 3 ≡ 0x42))
        × (uint16 b 4 ≡ 64)
        × (read_header b ≡ h))
unfolding decode_header is_smb2
decode_header_iff b h = (λ e. ground arith, λ e. ground arith)
