-- ===== src/Crypto/Cmac/Chunks.antt =====
-- Encrypting the prefix in pieces and in one go.
use gosamba.Prelude.{
  ℕ, zero, suc, ◌+◌, ◌-◌, ◌*◌, ◌/◌, ◌%◌, ◌≤◌, ◌≡◌, ◌∙◌, ap, refl, sym, ◌&&◌, ◌==◌, ltb, List, [],
  ◌∷◌, length, take, drop, arith, inl, inr, Bool-cases, length-drop, length-take, subst,
}
use gosamba.Crypto.Cmac.{
  xor_bytes, crypt_blocks, cbc_chunks, cmac, last_block, prefix_len, zero_block,
}

take-take : (m n : ℕ) (s : List ℕ) → m ≤ n → take m (take n s) ≡ take m s
take-take zero n s h = refl
take-take (suc m) zero s h = absurd (omega arith)
take-take (suc m) (suc n) [] h = refl
take-take (suc m) (suc n) (x ∷ s) h = ap (◌∷◌ x) (take-take m n s (omega arith))

take_nil : (n : ℕ) → take {A = ℕ} n [] ≡ []
take_nil zero = refl
take_nil (suc n) = refl

drop_nil : (n : ℕ) → drop {A = ℕ} n [] ≡ []
drop_nil zero = refl
drop_nil (suc n) = refl

drop-take : (m n : ℕ) (s : List ℕ) → drop m (take (m + n) s) ≡ take n (drop m s)
drop-take zero n s = ap (λ k. take k s) (omega arith)
drop-take (suc m) n [] = let e : suc m + n ≡ suc (m + n) = omega arith in rw e (sym (take_nil n))
drop-take (suc m) n (x ∷ s) =
    let e : suc m + n ≡ suc (m + n) = omega arith in rw e (drop-take m n s)

drop-drop : (m n : ℕ) (s : List ℕ) → drop n (drop m s) ≡ drop (m + n) s
drop-drop zero n s = ap (λ k. drop k s) (omega arith)
drop-drop (suc m) n [] = let e : suc m + n ≡ suc (m + n) = omega arith in rw e (drop_nil n)
drop-drop (suc m) n (x ∷ s) =
    let e : suc m + n ≡ suc (m + n) = omega arith in rw e (drop-drop m n s)

module _ (encrypt : List ℕ → List ℕ) where
  -- Whole blocks are taken from the front: what stands behind them does not matter.
  crypt_blocks-take :
      (n : ℕ) (x s : List ℕ)
      → crypt_blocks encrypt n x (take (n * 16) s) ≡ crypt_blocks encrypt n x s
  unfolding crypt_blocks
  crypt_blocks-take zero x s = refl
  crypt_blocks-take (suc n) x s =
      let e : suc n * 16 ≡ 16 + n * 16 = omega arith in
      rw (e, take-take 16 (16 + n * 16) s (omega arith), drop-take 16 (n * 16) s)
        (crypt_blocks-take n (encrypt (xor_bytes (take 16 s) x)) (drop 16 s))

  crypt_blocks-add :
      (m n : ℕ) (x s : List ℕ)
      → crypt_blocks encrypt (m + n) x s
        ≡ crypt_blocks encrypt n (crypt_blocks encrypt m x s) (drop (m * 16) s)
  unfolding crypt_blocks
  crypt_blocks-add zero n x s =
      let e : 0 + n ≡ n = omega arith in ap (λ k. crypt_blocks encrypt k x s) e
  crypt_blocks-add (suc m) n x s =
      let e : suc m + n ≡ suc (m + n) = omega arith in
      let f : suc m * 16 ≡ 16 + m * 16 = omega arith in
      rw (e, f, ← drop-drop 16 (m * 16) s)
        (crypt_blocks-add m n (encrypt (xor_bytes (take 16 s) x)) (drop 16 s))

  -- One piece of whole blocks, then the rest.
  piece :
      (size : ℕ) (x s : List ℕ)
      → length s % 16 ≡ 0
      → size % 16 ≡ 0
      → size ≤ length s
      → crypt_blocks encrypt
          (length (drop size s) / 16)
          (crypt_blocks encrypt (size / 16) x (take size s))
          (drop size s)
        ≡ crypt_blocks encrypt (length s / 16) x s
  piece size x s hs hz le =
      let whole : size ≡ size / 16 * 16 = omega arith in
      let front : crypt_blocks encrypt (size / 16) x (take size s)
          ≡ crypt_blocks encrypt (size / 16) x s =
        subst
          (λ z.
            crypt_blocks encrypt (size / 16) x (take z s) ≡ crypt_blocks encrypt (size / 16) x s)
          (sym whole) (crypt_blocks-take (size / 16) x s) in
      let sum : length s / 16 ≡ size / 16 + (length s - size) / 16 = omega arith in
      let back : drop (size / 16 * 16) s ≡ drop size s = ap (λ z. drop z s) (sym whole) in
      rw
        (
          front,
          length-drop size s,
          sum,
          crypt_blocks-add (size / 16) ((length s - size) / 16) x s,
          back,
        )
        refl

  -- With fuel for the length, the pieces give what all the blocks at once give.
  cbc_chunks-whole :
      (k : ℕ) (x s : List ℕ)
      → length s ≤ k * 4096
      → length s % 16 ≡ 0
      → cbc_chunks encrypt k x s ≡ crypt_blocks encrypt (length s / 16) x s
  unfolding cbc_chunks
  cbc_chunks-whole zero x s h m =
      let e : length s / 16 ≡ 0 = omega arith in rw e (unfold crypt_blocks in refl)
  cbc_chunks-whole (suc k) x s h m = elim (Bool-cases (length s == 0)) [
    | inl z ↦ let e : length s / 16 ≡ 0 = ground arith in rw (z, e) (unfold crypt_blocks in refl)
    | inr z ↦ elim (Bool-cases (ltb 4096 (length s))) [
      | inl big ↦
          rw (z, big)
            (cbc_chunks-whole k (crypt_blocks encrypt 256 x (take 4096 s)) (drop 4096 s)
                (ground (arith, length-drop 4096 s)) (ground (arith, length-drop 4096 s))
              ∙ piece 4096 x s m refl (ground arith))
      | inr small ↦
          rw (z, small)
            (cbc_chunks-whole k (crypt_blocks encrypt (length s / 16) x (take (length s) s))
                (drop (length s) s) (ground (arith, length-drop (length s) s))
                (ground (arith, length-drop (length s) s))
              ∙ piece (length s) x s m m (omega arith))
    ]
  ]

  length-prefix :
      (msg : List ℕ)
      → (length (take (prefix_len msg) msg) ≡ prefix_len msg) × (prefix_len msg % 16 ≡ 0)
  unfolding prefix_len
  length-prefix msg = elim (Bool-cases (ltb 0 (length msg) && length msg % 16 == 0)) [
    | inl e ↦ rw e (omega (arith, length-take (length msg - 16) msg), ground arith)
    | inr e ↦ rw e (omega (arith, length-take (length msg / 16 * 16) msg), omega arith)
  ]

  -- For every block cipher and message, the code's CMAC, which encrypts the prefix in pieces of 4096
  -- bytes, is the CMAC that chains all the blocks of the prefix at once.
  pub cmac-whole :
      (msg : List ℕ)
      → cmac encrypt msg
        ≡ encrypt (
            xor_bytes
              (last_block encrypt msg)
              (crypt_blocks encrypt (prefix_len msg / 16) zero_block msg))
  unfolding cmac
  cmac-whole msg =
      let (l, m) = length-prefix msg in
      let prefix = take (prefix_len msg) msg in
      let chunks =
        cbc_chunks-whole (suc (length prefix / 4096)) zero_block prefix (omega arith)
          (ground arith) in
      let whole : prefix_len msg ≡ prefix_len msg / 16 * 16 = omega arith in
      let front : crypt_blocks encrypt (prefix_len msg / 16) zero_block prefix
          ≡ crypt_blocks encrypt (prefix_len msg / 16) zero_block msg =
        subst
          (λ z.
            crypt_blocks encrypt (prefix_len msg / 16) zero_block (take z msg)
            ≡ crypt_blocks encrypt (prefix_len msg / 16) zero_block msg)
          (sym whole) (crypt_blocks-take (prefix_len msg / 16) zero_block msg) in
      let same : crypt_blocks encrypt (length prefix / 16) zero_block prefix
          ≡ crypt_blocks encrypt (prefix_len msg / 16) zero_block msg =
        ap (λ z. crypt_blocks encrypt (z / 16) zero_block prefix) l ∙ front in
      ap (λ y. encrypt (xor_bytes (last_block encrypt msg) y)) (chunks ∙ same)
