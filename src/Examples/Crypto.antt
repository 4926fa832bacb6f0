-- ===== src/Examples/Crypto.antt =====
-- Frames, signatures and CMAC with toy primitives.
use gosamba.Crypto.Kdf.{kdf}
use gosamba.Crypto.Kdf.Counted.{blocks, prf_input, kdf-blocks}
use gosamba.Prelude.{
  ℕ, ◌+◌, ◌-◌, ◌%◌, ◌≡◌, ◌≢◌, ap, refl, inr, true, List, [], ◌∷◌, ◌++◌, length, take, replicate,
  some, map, arith, length-append, take-length_append,
}
use gosamba.Wire.{Bytes}
use gosamba.Crypto.Transform.{Aead, encrypt_transform, next_nonce}
use gosamba.Crypto.Transform.RoundTrip.{IsAead, reopened, encrypt_transform-RoundTrip}
use gosamba.Crypto.Transform.Nonce.{next_nonce-distinct}
use gosamba.Crypto.Sign.{Primitives, sign_message, verify_message}
use gosamba.Crypto.Sign.Verified.{IsSized, sign_message-verify_message}

-- The plaintext with a tag of zeros.
abbrev clear_aead : Aead
clear_aead = record {
  nonce_len = 12;
  seal = λ nonce p aad. p ++ replicate 16 0;
  open_ = λ nonce ct aad. some (take (length ct - 16) ct);
}

clear_aead-IsAead : IsAead clear_aead
clear_aead-IsAead = record {
  opens = λ nonce p aad e.
      let n : length p ≡ length (p ++ replicate 16 0) - 16 =
        omega (arith, length-append p (replicate 16 0)) in
      ap some (take-length_append (length (p ++ replicate 16 0) - 16) p (replicate 16 0) n);
  adds = λ nonce p aad. length-append p (replicate 16 0);
}

encrypt_transform-RoundTrip_example :
    reopened clear_aead
      (encrypt_transform (some clear_aead) (replicate 8 3) 41 77 (1 ∷ 2 ∷ 3 ∷ [])).1
    ≡ inr (1 ∷ 2 ∷ 3 ∷ [], 77)
encrypt_transform-RoundTrip_example =
    encrypt_transform-RoundTrip clear_aead (replicate 8 3) 41 77 (1 ∷ 2 ∷ 3 ∷ []) clear_aead-IsAead
      (omega arith) (omega arith) refl (omega arith)

next_nonce-distinct_example :
    (next_nonce 41 (replicate 8 3) 12).1 ≢ (next_nonce 42 (replicate 8 3) 12).1
next_nonce-distinct_example =
    next_nonce-distinct 41 42 12 (replicate 8 3) (omega arith) (omega arith) (omega arith)
      (omega arith)

-- Each byte plus one.
abbrev shift : List ℕ → List ℕ
shift = map (λ x. (x + 1) % 256)

abbrev toys : Primitives
toys = record {
  hmac = λ key msg. replicate 32 (length msg % 256);
  encrypt = λ key. shift;
  seal = λ key nonce aad. replicate 16 (length aad % 256);
}

abbrev message : Bytes
message = record { len = 70; at = λ i. i }

length-shift : (b : List ℕ) → length (shift b) ≡ length b
length-shift [] = refl
length-shift (x ∷ b) = omega (arith, length-shift b)

toys-IsSized : IsSized toys (9 ∷ [])
toys-IsSized = record {
  hmac_size = λ m. refl;
  cipher = λ b h. omega (arith, length-shift b, h);
  tag_size = λ n a h. refl;
}

-- By AES-CMAC.
sign_message-verify_message_example :
    verify_message toys 1 (9 ∷ []) (sign_message toys 1 (9 ∷ []) message) ≡ true
sign_message-verify_message_example =
    sign_message-verify_message toys 1 (9 ∷ []) message toys-IsSized (omega arith)

-- A key of 128 bits, with a stand-in for HMAC.
kdf-blocks_example :
    (derived : List ℕ) × (kdf (λ k m. replicate 32 (length m)) [] (1 ∷ []) (2 ∷ []) 128
      ≡ some derived)
    × (derived
        ≡ take 16 (blocks (λ i. replicate 32 (length (prf_input i (1 ∷ []) (2 ∷ []) 128))) 1 1))
    × (length derived ≡ 16)
kdf-blocks_example =
    kdf-blocks (λ k m. replicate 32 (length m)) [] (1 ∷ []) (2 ∷ []) 128 (λ m. refl) (omega arith)
