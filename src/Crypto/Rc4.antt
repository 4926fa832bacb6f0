-- ===== src/Crypto/Rc4.antt =====
-- RC4 as internal/parent/session.go has it: `rc4xor`.
use gosamba.Prelude.{ℕ, zero, suc, ◌+◌, ◌%◌, ◌≡◌, refl, List, [], ◌∷◌, length, bit_xor}
use gosamba.Prelude.Bits.{bit_xor_twice}
use gosamba.Wire.{nth}

abbrev pub set : ℕ → ℕ → List ℕ → List ℕ
set i v [] = []
set zero v (x ∷ xs) = v ∷ xs
set (suc i) v (x ∷ xs) = x ∷ set i v xs

-- `s[i], s[j] = s[j], s[i]`
unfoldable pub swap : ℕ → ℕ → List ℕ → List ℕ
swap i j s = set j (nth i s) (set i (nth j s) s)

abbrev pub count_up : ℕ → ℕ → List ℕ
count_up zero i = []
count_up (suc n) i = i ∷ count_up n (suc i)

-- The turns left, the index and `j`.
unfoldable pub key_schedule : ℕ → List ℕ → ℕ → ℕ → List ℕ → List ℕ
key_schedule zero key i j s = s
key_schedule (suc n) key i j s =
    let j' = (j + nth i s + nth (i % length key) key) % 256 in
    key_schedule n key (suc i) j' (swap i j' s)

unfoldable pub rc4_loop : ℕ → ℕ → List ℕ → List ℕ → List ℕ
rc4_loop i j s [] = []
rc4_loop i j s (x ∷ xs) =
    let i' = (i + 1) % 256 in
    let j' = (j + nth i' s) % 256 in
    let s' = swap i' j' s in
    bit_xor x (nth ((nth i' s' + nth j' s') % 256) s') ∷ rc4_loop i' j' s' xs

unfoldable pub rc4xor : List ℕ → List ℕ → List ℕ
rc4xor key xs = rc4_loop 0 0 (key_schedule 256 key 0 0 (count_up 256 0)) xs

rc4_loop_twice : (i j : ℕ) (s xs : List ℕ) → rc4_loop i j s (rc4_loop i j s xs) ≡ xs
unfolding rc4_loop
rc4_loop_twice i j s [] = refl
rc4_loop_twice i j s (x ∷ xs) =
    let i' = (i + 1) % 256 in
    let j' = (j + nth i' s) % 256 in
    let s' = swap i' j' s in
    let k = nth ((nth i' s' + nth j' s') % 256) s' in
    λ t. bit_xor_twice x k t ∷ rc4_loop_twice i' j' s' xs t

-- The key stream depends on the key alone: a second pass undoes the first.
pub rc4xor_twice : (key xs : List ℕ) → rc4xor key (rc4xor key xs) ≡ xs
unfolding rc4xor
rc4xor_twice key xs = rc4_loop_twice 0 0 (key_schedule 256 key 0 0 (count_up 256 0)) xs
