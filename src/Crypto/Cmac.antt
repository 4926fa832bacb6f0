-- ===== src/Crypto/Cmac.antt =====
-- AES-CMAC: internal/smb3/cmac.go. The block cipher under a key is an argument; a block is 16 bytes.
pub mod Chunks
pub mod Sized
use gosamba.Prelude.{
  ℕ, zero, suc, ◌+◌, ◌-◌, ◌*◌, ◌/◌, ◌%◌, Bool, not, ◌&&◌, ◌==◌, ltb, if◌then◌else◌, List, [], ◌∷◌,
  ◌++◌, length, take, drop, replicate, bit_and, bit_or, bit_xor,
}

abbrev pub cmac_chunk : ℕ
cmac_chunk = 4096

abbrev pub zero_block : List ℕ
zero_block = replicate 16 0

-- `subtle.XORBytes`, as long as the shorter one.
unfoldable pub xor_bytes : List ℕ → List ℕ → List ℕ
xor_bytes [] ys = []
xor_bytes (x ∷ xs) [] = []
xor_bytes (x ∷ xs) (y ∷ ys) = bit_xor x y ∷ xor_bytes xs ys

abbrev pub top_bit : ℕ → Bool
top_bit x = not (bit_and x 0x80 == 0)

abbrev pub overflow : List ℕ → ℕ
overflow [] = 0
overflow (x ∷ xs) = if top_bit x then 1 else 0

-- Each byte takes the top bit of the byte behind it.
unfoldable pub left_shift : List ℕ → List ℕ
left_shift [] = []
left_shift (x ∷ xs) = bit_or (x * 2 % 256) (overflow xs) ∷ left_shift xs

-- `b[15] ^= 0x87`
abbrev pub xor_last : List ℕ → List ℕ
xor_last b = take 15 b ++ xor_bytes (drop 15 b) (0x87 ∷ [])

unfoldable pub subkey : List ℕ → List ℕ
subkey b = if overflow b == 1 then xor_last (left_shift b) else left_shift b

unfoldable pub prefix_len : List ℕ → ℕ
prefix_len msg =
    if ltb 0 (length msg) && (length msg % 16 == 0) then length msg - 16 else length msg / 16 * 16

module _ (encrypt : List ℕ → List ℕ) where
  -- `cbc.CryptBlocks` on `n` blocks: the last ciphertext block, which is the state it carries on.
  unfoldable pub crypt_blocks : ℕ → List ℕ → List ℕ → List ℕ
  crypt_blocks zero x s = x
  crypt_blocks (suc n) x s = crypt_blocks n (encrypt (xor_bytes (take 16 s) x)) (drop 16 s)

  -- The loop over the prefix in pieces of `cmac_chunk` bytes; the fuel bounds their number.
  unfoldable pub cbc_chunks : ℕ → List ℕ → List ℕ → List ℕ
  cbc_chunks zero x s = x
  cbc_chunks (suc k) x s =
      let size = if ltb cmac_chunk (length s) then cmac_chunk else length s in
      let rest = cbc_chunks k (crypt_blocks (size / 16) x (take size s)) (drop size s) in
      if length s == 0 then x else rest

  -- The last block before the prefix is added: complete, or padded with 0x80 and zeros.
  unfoldable pub last_block : List ℕ → List ℕ
  last_block msg =
      let k1 = subkey (encrypt zero_block) in
      let complete = ltb 0 (length msg) && (length msg % 16 == 0) in
      if complete
      then xor_bytes (drop (length msg - 16) msg) k1
      else xor_bytes (take 16 (drop (length msg / 16 * 16) msg ++ 0x80 ∷ zero_block)) (subkey k1)

  -- One piece more than the length suggests is enough fuel.
  unfoldable pub cmac : List ℕ → List ℕ
  cmac msg =
      let prefix = take (prefix_len msg) msg in
      let x = cbc_chunks (suc (length prefix / cmac_chunk)) zero_block prefix in
      encrypt (xor_bytes (last_block msg) x)
