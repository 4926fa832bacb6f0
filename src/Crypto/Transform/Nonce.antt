-- ===== src/Crypto/Transform/Nonce.antt =====
-- The nonces of different values of the counter.
use gosamba.Prelude.{
  ℕ, zero, suc, ◌-◌, ◌%◌, ◌^◌, ◌<◌, ◌≤◌, ◌≡◌, ◌≢◌, ◌∙◌, ap, refl, sym, List, [], ◌∷◌, ◌++◌, length,
  take, arith,
}
use gosamba.Wire.{le64, nth}
use gosamba.Wire.Header.RoundTrip.{le64-value}
use gosamba.Crypto.Transform.{next_nonce}

le64-injective :
    (x y : ℕ)
    → x < 2 ^ 64
    → y < 2 ^ 64
    → ((i : ℕ) → i < 8 → nth i (le64 x) ≡ nth i (le64 y))
    → x ≡ y
le64-injective x y hx hy same = omega (
  arith,
  same 0 (omega arith),
  same 1 (omega arith),
  same 2 (omega arith),
  same 3 (omega arith),
  same 4 (omega arith),
  same 5 (omega arith),
  same 6 (omega arith),
  same 7 (omega arith),
  le64-value x hx,
  le64-value y hy,
)

nth-take : (n i : ℕ) (xs : List ℕ) → i < n → nth i (take n xs) ≡ nth i xs
nth-take zero i xs h = absurd (omega arith)
nth-take (suc n) i [] h = refl
nth-take (suc n) zero (x ∷ xs) h = refl
nth-take (suc n) (suc i) (x ∷ xs) h = nth-take n i xs (omega arith)

nth-append : (i : ℕ) (xs ys : List ℕ) → i < length xs → nth i (xs ++ ys) ≡ nth i xs
nth-append i [] ys h = absurd (omega arith)
nth-append zero (x ∷ xs) ys h = refl
nth-append (suc i) (x ∷ xs) ys h = nth-append i xs ys (omega arith)

-- Two nonces of at least 8 bytes that are drawn at different values of the counter below 2^64 - 1
-- are different.
pub next_nonce-distinct :
    (c d n : ℕ) (prefix : List ℕ)
    → 8 ≤ n
    → c < 2 ^ 64 - 1
    → d < 2 ^ 64 - 1
    → c ≢ d
    → (next_nonce c prefix n).1 ≢ (next_nonce d prefix n).1
unfolding next_nonce
next_nonce-distinct c d n prefix large hc hd ne e =
    let x : ℕ = suc c % 2 ^ 64 in
    let y : ℕ = suc d % 2 ^ 64 in
    let same : (i : ℕ) → i < 8 → nth i (le64 x) ≡ nth i (le64 y) = λ i h.
      sym (nth-append i (le64 x) prefix h)
      ∙ sym (nth-take n i (le64 x ++ prefix) (omega arith))
      ∙ ap (nth i) e
      ∙ nth-take n i (le64 y ++ prefix) (omega arith)
      ∙ nth-append i (le64 y) prefix h in
    let equal : x ≡ y = le64-injective x y (omega arith) (omega arith) same in ne (omega arith)
