-- ===== src/Wire.antt =====
-- Byte buffers as the codecs of internal/smb2 use them: a Go []byte of fixed length, the calls of
-- encoding/binary on it, and the errors of internal/smb2/header.go.
pub mod Header
pub mod Requests
pub mod Buffers
pub mod Contexts
use gosamba.Prelude.{
  ℕ, zero, suc, ◌+◌, ◌-◌, ◌*◌, ◌/◌, ◌%◌, Bool, ◌&&◌, ltb, leb, if◌then◌else◌, List, [], ◌∷◌, length,
  ◌⊎◌,
}

-- A byte is a number below 256. What `at` gives past the length stands for nothing in the source.
pub record Bytes : Type 0 where
  pub len : ℕ
  pub at : ℕ → ℕ

pub data WireError : Type 0 where
  short_buffer bad_protocol_id bad_structure_size invalid_parameter : WireError

abbrev pub Decoded {ℓ} : Type ℓ → Type ℓ
Decoded A = WireError ⊎ A

abbrev pub nth : ℕ → List ℕ → ℕ
nth i [] = 0
nth zero (x ∷ xs) = x
nth (suc i) (x ∷ xs) = nth i xs

-- `copy(b[k:], bs)` where `bs` fits.
unfoldable pub copy : ℕ → List ℕ → Bytes → Bytes
copy k bs b = record b {
  at = λ i. if leb k i && ltb i (k + length bs) then nth (i - k) bs else b.at i;
}

-- `b[k : k+n]`
unfoldable pub slice : Bytes → ℕ → ℕ → List ℕ
slice b k zero = []
slice b k (suc n) = b.at k ∷ slice b (suc k) n

abbrev pub le16 : ℕ → List ℕ
le16 v = v % 256 ∷ v / 256 % 256 ∷ []

abbrev pub le32 : ℕ → List ℕ
le32 v = v % 256 ∷ v / 256 % 256 ∷ v / 65536 % 256 ∷ v / 16777216 % 256 ∷ []

abbrev pub le64 : ℕ → List ℕ
le64 v =
    v % 256
    ∷ v / 256 % 256
    ∷ v / 65536 % 256
    ∷ v / 16777216 % 256
    ∷ v / 4294967296 % 256
    ∷ v / 1099511627776 % 256
    ∷ v / 281474976710656 % 256
    ∷ v / 72057594037927936 % 256
    ∷ []

abbrev pub put_uint16 : ℕ → ℕ → Bytes → Bytes
put_uint16 k v = copy k (le16 v)

abbrev pub put_uint32 : ℕ → ℕ → Bytes → Bytes
put_uint32 k v = copy k (le32 v)

abbrev pub put_uint64 : ℕ → ℕ → Bytes → Bytes
put_uint64 k v = copy k (le64 v)

unfoldable pub uint16 : Bytes → ℕ → ℕ
uint16 b k = b.at k + 256 * b.at (k + 1)

unfoldable pub uint32 : Bytes → ℕ → ℕ
uint32 b k = b.at k + 256 * b.at (k + 1) + 65536 * b.at (k + 2) + 16777216 * b.at (k + 3)

unfoldable pub uint64 : Bytes → ℕ → ℕ
unfolding uint32
uint64 b k = uint32 b k + 4294967296 * uint32 b (k + 4)
