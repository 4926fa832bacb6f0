-- ===== src/Crypto/Cmac/Sized.antt =====
-- The length of the CMAC of internal/smb3/cmac.go.
use gosamba.Prelude.{
  ℕ, zero, suc, ◌-◌, ◌*◌, ◌/◌, ◌%◌, ◌≤◌, ◌≡◌, ◌∙◌, refl, ◌&&◌, ◌==◌, ltb, List, [], ◌∷◌, ◌++◌,
  length, take, drop, arith, inl, inr, Bool-cases, length-drop, length-take, length-append,
}
use gosamba.Crypto.Cmac.{
  xor_bytes, left_shift, xor_last, overflow, subkey, crypt_blocks, cmac, last_block, prefix_len,
  zero_block,
}
use gosamba.Crypto.Cmac.Chunks.{cmac-whole}

-- A cipher that takes a block to a block.
abbrev pub IsBlockCipher : (List ℕ → List ℕ) → Type 0
IsBlockCipher encrypt = (b : List ℕ) → length b ≡ 16 → length (encrypt b) ≡ 16

length-xor_bytes :
    (n : ℕ) (xs ys : List ℕ) → length xs ≡ n → length ys ≡ n → length (xor_bytes xs ys) ≡ n
unfolding xor_bytes
length-xor_bytes n [] ys h k = h
length-xor_bytes n (x ∷ xs) [] h k = absurd (omega (arith, h, k))
length-xor_bytes zero (x ∷ xs) (y ∷ ys) h k = absurd (omega (arith, h))
length-xor_bytes (suc n) (x ∷ xs) (y ∷ ys) h k =
    let rest = length-xor_bytes n xs ys (omega (arith, h)) (omega (arith, k)) in omega (arith, rest)

length-left_shift : (b : List ℕ) → length (left_shift b) ≡ length b
unfolding left_shift
length-left_shift [] = refl
length-left_shift (x ∷ b) = omega (arith, length-left_shift b)

length-xor_last : (b : List ℕ) → length b ≡ 16 → length (xor_last b) ≡ 16
length-xor_last b h =
    let last =
      length-xor_bytes 1 (drop 15 b) (0x87 ∷ []) (omega (arith, length-drop 15 b, h)) refl in
    omega (
      arith,
      h,
      last,
      length-take 15 b,
      length-append (take 15 b) (xor_bytes (drop 15 b) (0x87 ∷ [])),
    )

length-subkey : (b : List ℕ) → length b ≡ 16 → length (subkey b) ≡ 16
unfolding subkey
length-subkey b h =
    let shifted : length (left_shift b) ≡ 16 = length-left_shift b ∙ h in
    elim (Bool-cases (overflow b == 1)) [
      | inl e ↦ rw e (length-xor_last (left_shift b) shifted)
      | inr e ↦ rw e shifted
    ]

module _ (encrypt : List ℕ → List ℕ) (cipher : IsBlockCipher encrypt) where
  length-crypt_blocks :
      (n : ℕ) (x s : List ℕ)
      → length x ≡ 16
      → n * 16 ≤ length s
      → length (crypt_blocks encrypt n x s) ≡ 16
  unfolding crypt_blocks
  length-crypt_blocks zero x s h room = h
  length-crypt_blocks (suc n) x s h room =
      length-crypt_blocks n (encrypt (xor_bytes (take 16 s) x)) (drop 16 s)
        (cipher (xor_bytes (take 16 s) x)
          (length-xor_bytes 16 (take 16 s) x (omega (arith, room, length-take 16 s)) h))
        (omega (arith, room, length-drop 16 s))

  length-last_block : (msg : List ℕ) → length (last_block encrypt msg) ≡ 16
  unfolding last_block
  length-last_block msg =
      let k1 = subkey (encrypt zero_block) in
      let one : length k1 ≡ 16 = length-subkey (encrypt zero_block) (cipher zero_block refl) in
      let padded = drop (length msg / 16 * 16) msg ++ 0x80 ∷ zero_block in
      elim (Bool-cases (ltb 0 (length msg) && (length msg % 16 == 0))) [
        | inl e ↦
            let some_ : 16 ≤ length msg = ground arith in
            rw e (
              length-xor_bytes 16 (drop (length msg - 16) msg) k1
                (omega (arith, some_, length-drop (length msg - 16) msg)) one)
        | inr e ↦ rw e (
            length-xor_bytes 16 (take 16 padded) (subkey k1)
              (omega (
                arith,
                length-take 16 padded,
                length-append (drop (length msg / 16 * 16) msg) (0x80 ∷ zero_block),
              ))
              (length-subkey k1 one))
      ]

  prefix_fits : (msg : List ℕ) → prefix_len msg / 16 * 16 ≤ length msg
  unfolding prefix_len
  prefix_fits msg = elim (Bool-cases (ltb 0 (length msg) && (length msg % 16 == 0))) [
    | inl e ↦ rw e (omega arith)
    | inr e ↦ rw e (omega arith)
  ]

  pub length-cmac : (msg : List ℕ) → length (cmac encrypt msg) ≡ 16
  length-cmac msg =
      let x = crypt_blocks encrypt (prefix_len msg / 16) zero_block msg in
      rw (cmac-whole encrypt msg) (
        cipher (xor_bytes (last_block encrypt msg) x) (
          length-xor_bytes 16 (last_block encrypt msg) x (length-last_block msg)
            (length-crypt_blocks (prefix_len msg / 16) zero_block msg refl (prefix_fits msg))))
