-- ===== src/Crypto/Sign/Verified.antt =====
-- Signing a message and verifying it.
use gosamba.Prelude.{
  ℕ, zero, suc, ◌-◌, ◌≤◌, ◌≡◌, ◌↔◌, refl, true, false, ltb, List, length, replicate, arith,
  length-take, Bool-cases, inl, inr, ◌==◌, ◌++◌, bit_and,
}
use gosamba.Prelude.Assoc.{same_bytes_iff}
use gosamba.Wire.{Bytes, copy, slice, nth, le32, le64, uint32, uint64}
use gosamba.Crypto.Cmac.Sized.{IsBlockCipher, length-cmac}
use gosamba.Wire.Header.RoundTrip.{slice-copy}
use gosamba.Crypto.Sign.{
  all_bytes, hmac_sha256_sign, gmac_sign, sign_algo_aes_gmac, sign_algo_hmac_sha256, Primitives,
  compute_mac, clear_signature, set_signed, sign_message, verify_message,
}

nth-zeros : (i n : ℕ) → nth i (replicate n 0) ≡ 0
nth-zeros i zero = refl
nth-zeros zero (suc n) = refl
nth-zeros (suc i) (suc n) = nth-zeros i n

-- Clearing the signature of a signed message gives what was signed.
cleared :
    (b : Bytes) (sig : List ℕ)
    → length sig ≡ 16
    → clear_signature (copy 48 sig (set_signed (clear_signature b)))
      ≡ set_signed (clear_signature b)
unfolding copy set_signed
cleared b sig e =
    let at : (i : ℕ)
        → (clear_signature (copy 48 sig (set_signed (clear_signature b)))).at i
          ≡ (set_signed (clear_signature b)).at i =
      λ i. unfold copy set_signed in ground (arith, nth-zeros (i - 48) 16) in
    λ t. record { len = b.len; at = λ i. at i t }

-- Under the key, HMAC gives 32 bytes, AES a block for a block, and GCM a tag of 16 bytes for a nonce of
-- 12.
pub record IsSized (p : Primitives) (key : List ℕ) : Type 0 where
  pub hmac_size : (msg : List ℕ) → length (p.hmac key msg) ≡ 32
  pub cipher : IsBlockCipher (p.encrypt key)
  pub tag_size : (nonce aad : List ℕ) → length nonce ≡ 12 → length (p.seal key nonce aad) ≡ 16

-- Each of the three algorithms gives 16 bytes.
length-compute_mac :
    (p : Primitives) (algo : ℕ) (key : List ℕ) (msg : Bytes)
    → IsSized p key
    → length (compute_mac p algo key msg) ≡ 16
unfolding compute_mac gmac_sign hmac_sha256_sign
length-compute_mac p algo key msg sized =
    let nonce = le64 (uint64 msg 24) ++ le32 (bit_and (uint32 msg 16) 3) in
    let tag = p.seal key nonce (all_bytes msg) in
    let code = p.hmac key (all_bytes msg) in
    elim (Bool-cases (algo == sign_algo_aes_gmac)) [
      | inl e ↦ rw e (omega (arith, length-take 16 tag, sized.tag_size nonce (all_bytes msg) refl))
      | inr e ↦ elim (Bool-cases (algo == sign_algo_hmac_sha256)) [
        | inl f ↦ rw (e, f) (omega (arith, length-take 16 code, sized.hmac_size (all_bytes msg)))
        | inr f ↦ rw (e, f) (length-cmac (p.encrypt key) sized.cipher (all_bytes msg))
      ]
    ]

-- Where HMAC, AES and GCM give under the key what they give by their definition in length, a message of
-- at least 64 bytes is accepted by VerifyMessage as SignMessage leaves it, under the same key and
-- algorithm.
pub sign_message-verify_message :
    (p : Primitives) (algo : ℕ) (key : List ℕ) (msg : Bytes)
    → IsSized p key
    → 64 ≤ msg.len
    → verify_message p algo key (sign_message p algo key msg) ≡ true
unfolding sign_message verify_message
sign_message-verify_message p algo key msg sized room =
    let b : Bytes = set_signed (clear_signature msg) in
    let e = length-compute_mac p algo key b sized in
    let long : ltb msg.len 64 ≡ false = ground arith in
    let size : ltb (copy 48 (compute_mac p algo key b) b).len 64 ≡ false =
      unfold copy set_signed in long in
    rw
      (
        long,
        size,
        cleared msg (compute_mac p algo key b) e,
        slice-copy 48 16 (compute_mac p algo key b) b e,
      )
      ((same_bytes_iff (compute_mac p algo key b) (compute_mac p algo key b)).1 refl)

-- A message is accepted exactly if it has 64 bytes and its signature field is the code computed over
-- the message with that field cleared.
pub verify_message_iff :
    (p : Primitives) (algo : ℕ) (key : List ℕ) (msg : Bytes)
    → (verify_message p algo key msg ≡ true)
      ↔ ((64 ≤ msg.len) × (compute_mac p algo key (clear_signature msg) ≡ slice msg 48 16))
unfolding verify_message
verify_message_iff p algo key msg =
    let same = same_bytes_iff (compute_mac p algo key (clear_signature msg)) (slice msg 48 16) in
    (λ h. (ground arith, same.0 (ground arith)), λ h. ground (arith, same.1 h.1))
