-- ===== src/Crypto/Transform.antt =====
-- The encrypted transform frames of internal/smb3/encrypt.go. The AEAD that `aeadFor` returns, or its
-- error, is an argument.
pub mod RoundTrip
pub mod Nonce
use gosamba.Prelude.{
  ℕ, suc, ◌+◌, ◌-◌, ◌%◌, ◌^◌, Bool, not, ◌&&◌, ◌||◌, ◌==◌, leb, ltb, if◌then◌else◌, List, [], ◌∷◌,
  ◌++◌, length, take, drop, Option, none, some, inl, inr, ◌⊎◌, bit_and,
}
use gosamba.Wire.{
  Bytes, copy, slice, uint16, uint32, uint64, put_uint16, put_uint32, put_uint64, le64,
}

abbrev pub transform_header_size : ℕ
transform_header_size = 52

abbrev pub transform_flag_encrypted : ℕ
transform_flag_encrypted = 0x0001

abbrev pub transform_aad_start : ℕ
transform_aad_start = 20

abbrev pub transform_aad_len : ℕ
transform_aad_len = 32

-- 0xFD 'S' 'M' 'B'
abbrev pub transform_protocol_id : List ℕ
transform_protocol_id = 0xFD ∷ 0x53 ∷ 0x4D ∷ 0x42 ∷ []

pub data TransformError : Type 0 where
  err_short_transform err_bad_transform_id not_encrypted err_short_transform_body no_aead
        unusable_nonce err_transform_decrypt :
      TransformError

abbrev pub Transformed {ℓ} : Type ℓ → Type ℓ
Transformed A = TransformError ⊎ A

-- `cipher.AEAD` for one key: `seal nonce plaintext aad` is the ciphertext and the 16 bytes of the tag.
pub record Aead : Type 0 where
  pub nonce_len : ℕ
  pub seal : List ℕ → List ℕ → List ℕ → List ℕ
  pub open_ : List ℕ → List ℕ → List ℕ → Option (List ℕ)

unfoldable pub cipher_key_bits : ℕ → ℕ
cipher_key_bits cipher = if cipher == 0x0003 || cipher == 0x0004 then 256 else 128

-- The counter after the call, and the nonce of `n` bytes.
unfoldable pub next_nonce : ℕ → List ℕ → ℕ → ℕ × List ℕ
next_nonce counter prefix n = let c = suc counter % 2 ^ 64 in (c, take n (le64 c ++ prefix))

unfoldable pub is_transform : Bytes → Bool
is_transform b =
    leb 4 b.len && (b.at 0 == 0xFD) && (b.at 1 == 0x53) && (b.at 2 == 0x4D) && (b.at 3 == 0x42)

abbrev pub opened_as : ℕ → Option (List ℕ) → Transformed (List ℕ × ℕ)
opened_as sess_id none = inl err_transform_decrypt
opened_as sess_id (some pt) = inr (pt, sess_id)

-- `ct` is the ciphertext with the tag behind it.
unfoldable pub open_frame : Aead → Bytes → Transformed (List ℕ × ℕ)
open_frame a frame =
    let ct = slice frame 52 (frame.len - transform_header_size) ++ slice frame 4 16 in
    opened_as (uint64 frame 44)
      (a.open_ (slice frame 20 a.nonce_len) ct (slice frame transform_aad_start transform_aad_len))

abbrev pub open_with : Option Aead → Bytes → Transformed (List ℕ × ℕ)
open_with none frame = inl no_aead
open_with (some a) frame = open_frame a frame

unfoldable pub decrypt_transform : Option Aead → Bytes → Transformed (List ℕ × ℕ)
decrypt_transform aead frame =
    if ltb frame.len transform_header_size
    then inl err_short_transform
    else if not (is_transform frame)
    then inl err_bad_transform_id
    else if bit_and (uint16 frame 42) transform_flag_encrypted == 0
    then inl not_encrypted
    else if ltb (frame.len - transform_header_size) (uint32 frame 36)
    then inl err_short_transform_body
    else open_with aead frame

-- The header before the tag is known: a zeroed buffer of 52 bytes, filled.
unfoldable pub transform_header : List ℕ → ℕ → ℕ → Bytes
transform_header nonce size sess_id =
    let b = copy 0 transform_protocol_id (record { len = 52; at = λ i. 0 }) in
    let b = copy 20 nonce b in
    let b = put_uint32 36 size b in
    let b = put_uint16 42 transform_flag_encrypted b in put_uint64 44 sess_id b

-- The ciphertext follows the header and the tag moves to offset 4.
unfoldable pub place : Bytes → List ℕ → Bytes
place header sealed =
    let tag_off = length sealed - 16 in
    let b = copy 52 (take tag_off sealed) (record header { len = 52 + tag_off }) in
    copy 4 (drop tag_off sealed) b

unfoldable pub seal_frame : Aead → List ℕ → ℕ → List ℕ → Bytes
seal_frame a nonce sess_id plaintext =
    let header = transform_header nonce (length plaintext % 2 ^ 32) sess_id in
    place header (a.seal nonce plaintext (slice header transform_aad_start transform_aad_len))

-- With the nonce counter before and after.
unfoldable pub encrypt_transform : Option Aead → List ℕ → ℕ → ℕ → List ℕ → ℕ × Transformed Bytes
encrypt_transform none prefix counter sess_id plaintext = (counter, inl no_aead)
encrypt_transform (some a) prefix counter sess_id plaintext =
    let (counter', nonce) = next_nonce counter prefix a.nonce_len in
    if ltb 16 a.nonce_len || ltb a.nonce_len 8
    then (counter, inl unusable_nonce)
    else (counter', inr (seal_frame a nonce sess_id plaintext))
