-- ===== src/Crypto/Ccm/Counter.antt =====
-- The counter mode is its own inverse.
use gosamba.Prelude.{
  ℕ, zero, suc, ◌+◌, ◌-◌, ◌*◌, ◌/◌, ◌%◌, ◌^◌, ◌≤◌, ◌≡◌, refl, ap, List, [], ◌∷◌, ◌++◌, length, take,
  drop, arith, length-take, length-drop, length-append, take-length_append, drop-length_append,
  take-append-drop, append-nil, ◌⊎◌, inl, inr,
}
use Prim.Native.Nat.{min}
use gosamba.Prelude.Bits.{bit_xor_twice}
use gosamba.Crypto.Cmac.{xor_bytes}
use gosamba.Crypto.Ccm.{counter_block, ctr_blocks, ctr_xor}

pub length-xor_bytes : (xs ys : List ℕ) → length (xor_bytes xs ys) ≡ min (length xs) (length ys)
unfolding xor_bytes
length-xor_bytes [] ys = omega arith
length-xor_bytes (x ∷ xs) [] = omega arith
length-xor_bytes (x ∷ xs) (y ∷ ys) = omega (arith, length-xor_bytes xs ys)

pub xor_bytes_twice : (xs ys : List ℕ) → length xs ≤ length ys → xor_bytes (xor_bytes xs ys) ys ≡ xs
unfolding xor_bytes
xor_bytes_twice [] ys h = refl
xor_bytes_twice (x ∷ xs) [] h = absurd (omega arith)
xor_bytes_twice (x ∷ xs) (y ∷ ys) h =
    rw (bit_xor_twice x y, xor_bytes_twice xs ys (omega arith)) refl

take_all : (n : ℕ) (xs : List ℕ) → length xs ≤ n → take n xs ≡ xs
take_all zero [] h = refl
take_all zero (x ∷ xs) h = absurd (omega arith)
take_all (suc n) [] h = refl
take_all (suc n) (x ∷ xs) h = ap (◌∷◌ x) (take_all n xs (omega arith))

nil_of_length : (xs : List ℕ) → length xs ≡ 0 → xs ≡ []
nil_of_length [] h = refl
nil_of_length (x ∷ xs) h = absurd (omega arith)

-- A front of `n` elements, or a shorter one with nothing behind it.
split_front :
    (n : ℕ) (xs ys : List ℕ)
    → (length xs ≡ n) ⊎ ((length xs ≤ n) × (length ys ≡ 0))
    → (take n (xs ++ ys) ≡ xs) × (drop n (xs ++ ys) ≡ ys)
split_front n xs ys (inl e) = (take-length_append n xs ys e, drop-length_append n xs ys e)
split_front n xs ys (inr (h, z)) =
    let nil : ys ≡ [] = nil_of_length ys z in
    rw (nil, append-nil xs)
      (take_all n xs h, nil_of_length (drop n xs) (omega (arith, length-drop n xs)))

module _ (encrypt : List ℕ → List ℕ) (sized : (b : List ℕ) → length (encrypt b) ≡ 16) where
  pub length-ctr_blocks :
      (n : ℕ) (nonce : List ℕ) (k : ℕ) (s : List ℕ)
      → length (ctr_blocks encrypt n nonce k s) ≡ min (length s) (n * 16)
  unfolding ctr_blocks
  length-ctr_blocks zero nonce k s = omega arith
  length-ctr_blocks (suc n) nonce k s =
      let ks = encrypt (counter_block nonce ((k + 1) % 2 ^ 32)) in
      omega (
        arith,
        length-append (xor_bytes (take 16 s) ks) (ctr_blocks encrypt n nonce (suc k) (drop 16 s)),
        length-xor_bytes (take 16 s) ks,
        sized (counter_block nonce ((k + 1) % 2 ^ 32)),
        length-take 16 s,
        length-drop 16 s,
        length-ctr_blocks n nonce (suc k) (drop 16 s),
      )

  ctr_blocks_twice :
      (n : ℕ) (nonce : List ℕ) (k : ℕ) (s : List ℕ)
      → length s ≤ n * 16
      → ctr_blocks encrypt n nonce k (ctr_blocks encrypt n nonce k s) ≡ s
  unfolding ctr_blocks
  ctr_blocks_twice zero nonce k [] h = refl
  ctr_blocks_twice zero nonce k (x ∷ s) h = absurd (omega arith)
  ctr_blocks_twice (suc n) nonce k s h =
      let ks = encrypt (counter_block nonce ((k + 1) % 2 ^ 32)) in
      let c = xor_bytes (take 16 s) ks in
      let rest = ctr_blocks encrypt n nonce (suc k) (drop 16 s) in
      let block : length ks ≡ 16 = sized (counter_block nonce ((k + 1) % 2 ^ 32)) in
      let front : length c ≡ min (length s) 16 =
        omega (arith, length-xor_bytes (take 16 s) ks, length-take 16 s) in
      let back : length rest ≡ min (length s - 16) (n * 16) =
        omega (arith, length-ctr_blocks n nonce (suc k) (drop 16 s), length-drop 16 s) in
      let (first, second) = split_front 16 c rest (ground arith) in
      rw
        (
          first,
          second,
          xor_bytes_twice (take 16 s) ks (omega (arith, length-take 16 s)),
          ctr_blocks_twice n nonce (suc k) (drop 16 s) (omega (arith, length-drop 16 s)),
        )
        (take-append-drop 16 s)

  pub length-ctr_xor : (nonce s : List ℕ) → length (ctr_xor encrypt nonce s) ≡ length s
  unfolding ctr_xor
  length-ctr_xor nonce s = omega (arith, length-ctr_blocks ((length s + 15) / 16) nonce 0 s)

  pub ctr_xor_twice : (nonce s : List ℕ) → ctr_xor encrypt nonce (ctr_xor encrypt nonce s) ≡ s
  ctr_xor_twice nonce s =
      let e = length-ctr_xor nonce s in
      unfold ctr_xor in rw e (ctr_blocks_twice ((length s + 15) / 16) nonce 0 s (omega arith))
