-- ===== src/Crypto/Kdf/Counted.antt =====
-- The derived key against the counter mode of SP800-108.
use gosamba.Prelude.{
  ℕ, zero, suc, ◌+◌, ◌*◌, ◌/◌, ◌%◌, ◌^◌, ◌≤◌, ◌≡◌, refl, ap, sym, ◌∙◌, ltb, false, true, List, [],
  ◌∷◌, ◌++◌, length, take, some, arith, length-append, length-take, append-nil, append_assoc, ◌-◌,
  ◌<◌,
}
use gosamba.Crypto.Kdf.{kdf_input, kdf_loop, kdf}

-- The blocks of the counters from `i` on, one behind the other.
pub blocks : (ℕ → List ℕ) → ℕ → ℕ → List ℕ
blocks block zero i = []
blocks block (suc n) i = block i ++ blocks block n (i + 1)

-- A number of 32 bits, big-endian.
abbrev pub word : ℕ → List ℕ
word n = n / 16777216 % 256 ∷ n / 65536 % 256 ∷ n / 256 % 256 ∷ n % 256 ∷ []

-- What SP800-108 hashes for a counter: the counter, the label, a zero byte, the context and the length.
abbrev pub prf_input : ℕ → List ℕ → List ℕ → ℕ → List ℕ
prf_input i label context bits = word i ++ (label ++ (0 ∷ (context ++ word bits)))

-- A MAC of 32 bytes.
abbrev pub Is32 : (List ℕ → List ℕ) → Type 0
Is32 mac = (msg : List ℕ) → length (mac msg) ≡ 32

blocks-length :
    (block : ℕ → List ℕ) (n i : ℕ)
    → ((j : ℕ) → length (block j) ≡ 32)
    → length (blocks block n i) ≡ n * 32
unfolding blocks
blocks-length block zero i w = omega arith
blocks-length block (suc n) i w =
    omega (
      arith,
      length-append (block i) (blocks block n (i + 1)),
      w i,
      blocks-length block n (i + 1) w,
    )

loop-blocks :
    (mac : List ℕ → List ℕ) (label context : List ℕ) (bits n fuel k : ℕ) (out : List ℕ)
    → Is32 mac
    → bits ≤ 2 ^ 32 - 256
    → k + n ≡ (bits + 255) / 256
    → n < fuel
    → length out ≡ k * 32
    → kdf_loop mac label context bits fuel (k + 1) out
      ≡ some (take (bits / 8) (out ++ blocks (λ i. mac (kdf_input i label context bits)) n (k + 1)))
unfolding kdf_loop blocks
loop-blocks mac label context bits n zero k out w room whole fuel size = absurd (omega arith)
loop-blocks mac label context bits zero (suc f) k out w room whole fuel size =
    let stop : ltb (length out % 2 ^ 32 * 8 % 2 ^ 32) bits ≡ false =
      ground (arith, whole, size, room) in
    rw stop (ap (λ o. some (take (bits / 8) o)) (sym (append-nil out)))
loop-blocks mac label context bits (suc n) (suc f) k out w room whole fuel size =
    let block = mac (kdf_input (k + 1) label context bits) in
    let go : ltb (length out % 2 ^ 32 * 8 % 2 ^ 32) bits ≡ true =
      ground (arith, whole, size, room) in
    let next_ : (k + 1 + 1) % 2 ^ 32 ≡ k + 1 + 1 = omega (arith, whole, room) in
    let grown : length (out ++ block) ≡ (k + 1) * 32 =
      omega (arith, length-append out block, w (kdf_input (k + 1) label context bits), size) in
    let rest =
      loop-blocks mac label context bits n f (k + 1) (out ++ block) w room (omega (arith, whole))
        (omega (arith, fuel)) grown in
    let behind = blocks (λ i. mac (kdf_input i label context bits)) n (k + 1 + 1) in
    rw go (
      ap (λ i. kdf_loop mac label context bits f i (out ++ block)) next_
      ∙ (rest ∙ ap (λ o. some (take (bits / 8) o)) (append_assoc out block behind)))

-- Where HMAC gives 32 bytes and the length is at most 2^32 - 256 bits, the derivation ends, with the
-- first bytes of the blocks of SP800-108 in counter mode, as many as the length asks for. A block is
-- the MAC of the counter from 1 on, the label, a zero byte, the context and the length.
pub kdf-blocks :
    (hmac : List ℕ → List ℕ → List ℕ) (key label context : List ℕ) (bits : ℕ)
    → Is32 (hmac key)
    → bits ≤ 2 ^ 32 - 256
    → (derived : List ℕ) × (kdf hmac key label context bits ≡ some derived)
      × (derived
          ≡ take
              (bits / 8)
              (blocks (λ i. hmac key (prf_input i label context bits)) ((bits + 255) / 256) 1))
      × (length derived ≡ bits / 8)
unfolding kdf kdf_input
kdf-blocks hmac key label context bits w room =
    let n = (bits + 255) / 256 in
    let block : ℕ → List ℕ = λ i. hmac key (kdf_input i label context bits) in
    let derived = take (bits / 8) (blocks block n 1) in
    let size = length-take (bits / 8) (blocks block n 1) in
    let all = blocks-length block n 1 (λ j. w (kdf_input j label context bits)) in
    (
      derived,
      loop-blocks (hmac key) label context bits n (suc n) 0 [] w room (omega arith) (omega arith)
          refl,
      refl,
      omega (arith, size, all),
    )
