-- ===== src/Crypto/Ccm.antt =====
-- AES-CCM: internal/smb3/ccm.go. The block cipher under a key is an argument.
pub mod Counter
pub mod Sealed
use gosamba.Prelude.{
  ℕ, zero, suc, ◌+◌, ◌-◌, ◌*◌, ◌/◌, ◌%◌, ◌^◌, Bool, true, false, not, ◌&&◌, ◌==◌, ltb,
  if◌then◌else◌, List, [], ◌∷◌, ◌++◌, length, take, drop, replicate, bit_and, bit_or, bit_xor, ◌⊎◌,
  inl, inr, Option, none, some,
}
use gosamba.Crypto.Cmac.{xor_bytes}
use gosamba.Crypto.Transform.{Aead}

abbrev pub ccm_nonce_size : ℕ
ccm_nonce_size = 11

abbrev pub ccm_tag_size : ℕ
ccm_tag_size = 16

abbrev pub ccm_l : ℕ
ccm_l = 4

pub data CcmError : Type 0 where
  bad_nonce_length ciphertext_too_short authentication_failed : CcmError

-- `binary.BigEndian.PutUint32`
abbrev pub be32 : ℕ → List ℕ
be32 v = v / 16777216 % 256 ∷ v / 65536 % 256 ∷ v / 256 % 256 ∷ v % 256 ∷ []

-- `append(stream, 0)` until the length is a multiple of 16.
abbrev pub pad16 : List ℕ → List ℕ
pad16 s = s ++ replicate ((16 - length s % 16) % 16) 0

-- The length of the associated data in front of it.
unfoldable pub aad_prefix : ℕ → List ℕ
aad_prefix n =
    if ltb n 0xFF00
    then n / 256 % 256 ∷ n % 256 ∷ []
    else 0xFF ∷ 0xFE ∷ n / 16777216 % 256 ∷ n / 65536 % 256 ∷ n / 256 % 256 ∷ n % 256 ∷ []

unfoldable pub first_block : List ℕ → ℕ → ℕ → List ℕ
first_block nonce plaintext_len aad_len =
    let flags = if ltb 0 aad_len then 0x40 else 0 in
    bit_or (bit_or flags ((ccm_tag_size - 2) / 2 * 8)) (ccm_l - 1)
    ∷ (nonce ++ be32 (plaintext_len % 2 ^ 32))

-- The counter block: only L-1 in the flags, and the counter in the last 4 bytes.
unfoldable pub counter_block : List ℕ → ℕ → List ℕ
counter_block nonce counter = (ccm_l - 1) ∷ (nonce ++ be32 counter)

-- `v |= a[i] ^ b[i]` over two lists.
unfoldable pub differences : ℕ → List ℕ → List ℕ → ℕ
differences v (x ∷ xs) (y ∷ ys) = differences (bit_or v (bit_xor x y)) xs ys
differences v xs ys = v

unfoldable pub ct_eq : List ℕ → List ℕ → Bool
ct_eq a b = if not (length a == length b) then false else differences 0 a b == 0

module _ (encrypt : List ℕ → List ℕ) where
  -- `mac[i] ^= s[i]` and `Encrypt(mac, mac)`, block by block.
  unfoldable pub absorb : ℕ → List ℕ → List ℕ → List ℕ
  absorb zero mac s = mac
  absorb (suc n) mac s = absorb n (encrypt (xor_bytes mac (take 16 s))) (drop 16 s)

  unfoldable pub absorb_aad : List ℕ → List ℕ → List ℕ
  absorb_aad mac aad =
      let stream = pad16 (aad_prefix (length aad) ++ aad) in
      if ltb 0 (length aad) then absorb (length stream / 16) mac stream else mac

  -- The whole blocks, then the rest in a block padded with zeros.
  unfoldable pub absorb_plaintext : List ℕ → List ℕ → List ℕ
  absorb_plaintext mac plaintext =
      let full = length plaintext / 16 * 16 in
      let mac' = absorb (length plaintext / 16) mac plaintext in
      if ltb 0 (length plaintext - full)
      then encrypt (xor_bytes mac' (take 16 (drop full plaintext ++ replicate 16 0)))
      else mac'

  unfoldable pub compute_tag : List ℕ → List ℕ → List ℕ → List ℕ
  compute_tag nonce plaintext aad =
      let mac = encrypt (first_block nonce (length plaintext) (length aad)) in
      absorb_plaintext (absorb_aad mac aad) plaintext

  -- `n` blocks from block `k` on; the counter is a uint32 that starts at 1.
  unfoldable pub ctr_blocks : ℕ → List ℕ → ℕ → List ℕ → List ℕ
  ctr_blocks zero nonce k s = []
  ctr_blocks (suc n) nonce k s =
      xor_bytes (take 16 s) (encrypt (counter_block nonce ((k + 1) % 2 ^ 32)))
      ++ ctr_blocks n nonce (suc k) (drop 16 s)

  unfoldable pub ctr_xor : List ℕ → List ℕ → List ℕ
  ctr_xor nonce s = ctr_blocks ((length s + 15) / 16) nonce 0 s

  unfoldable pub ctr_encrypt_tag : List ℕ → List ℕ → List ℕ
  ctr_encrypt_tag nonce tag = xor_bytes (take 16 tag) (encrypt (counter_block nonce 0))

  -- A nonce of another length is a panic in the source; the result is then not used.
  unfoldable pub seal : List ℕ → List ℕ → List ℕ → List ℕ
  seal nonce plaintext aad =
      ctr_xor nonce plaintext
      ++ take ccm_tag_size (ctr_encrypt_tag nonce (compute_tag nonce plaintext aad))

  unfoldable pub open_ : List ℕ → List ℕ → List ℕ → CcmError ⊎ List ℕ
  open_ nonce ciphertext aad =
      let ct_len = length ciphertext - ccm_tag_size in
      let pt = ctr_xor nonce (take ct_len ciphertext) in
      let expected = ctr_encrypt_tag nonce (compute_tag nonce pt aad) in
      if not (length nonce == ccm_nonce_size)
      then inl bad_nonce_length
      else if ltb (length ciphertext) ccm_tag_size
      then inl ciphertext_too_short
      else if not (ct_eq (drop ct_len ciphertext) (take ccm_tag_size expected))
      then inl authentication_failed
      else inr pt

abbrev pub to_option : CcmError ⊎ List ℕ → Option (List ℕ)
to_option (inl e) = none
to_option (inr pt) = some pt

-- `newCCM` for a cipher with blocks of 16 bytes.
unfoldable pub new_ccm : (List ℕ → List ℕ) → Aead
new_ccm encrypt = record {
  nonce_len = ccm_nonce_size;
  seal = seal encrypt;
  open_ = λ nonce ciphertext aad. to_option (open_ encrypt nonce ciphertext aad);
}
