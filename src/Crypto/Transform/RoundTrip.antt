-- ===== src/Crypto/Transform/RoundTrip.antt =====
-- Encrypting a message and decrypting the frame.
use gosamba.Prelude.{
  ℕ, zero, suc, ◌+◌, ◌-◌, ◌%◌, ◌^◌, ◌<◌, ◌≤◌, ◌≡◌, ◌∙◌, ap, refl, true, false, ◌||◌, ltb, List, [],
  ◌∷◌, ◌++◌, length, take, drop, some, inl, inr, ◌⊎◌, arith, length-take, length-drop,
  take-append-drop, length-append,
}
use gosamba.Wire.{Bytes, copy, slice, uint16, uint32, uint64, le64, le32}
use gosamba.Wire.Header.RoundTrip.{slice-copy, le32-value, le64-value}
use gosamba.Crypto.Transform.{
  Aead, Transformed, next_nonce, is_transform, open_frame, decrypt_transform, transform_header,
  place, seal_frame, encrypt_transform,
}

-- What an AEAD promises: opening what was sealed gives the plaintext back, and sealing adds 16 bytes.
pub record IsAead (a : Aead) : Type 0 where
  pub opens :
      (nonce p aad : List ℕ)
      → length nonce ≡ a.nonce_len
      → a.open_ nonce (a.seal nonce p aad) aad ≡ some p
  pub adds : (nonce p aad : List ℕ) → length (a.seal nonce p aad) ≡ length p + 16

copy_apart :
    (k : ℕ) (bs : List ℕ) (b : Bytes) (i : ℕ)
    → (i < k) ⊎ (k + length bs ≤ i)
    → (copy k bs b).at i ≡ b.at i
unfolding copy
copy_apart k bs b i h = ground arith

slice_apart :
    (k : ℕ) (bs : List ℕ) (b : Bytes) (j n : ℕ)
    → (j + n ≤ k) ⊎ (k + length bs ≤ j)
    → slice (copy k bs b) j n ≡ slice b j n
unfolding slice
slice_apart k bs b j zero h = refl
slice_apart k bs b j (suc n) h =
    rw (copy_apart k bs b j (ground arith), slice_apart k bs b (suc j) n (ground arith)) refl

slice_relen :
    (f : ℕ → ℕ) (l m j n : ℕ)
    → slice (record { len = l; at = f }) j n ≡ slice (record { len = m; at = f }) j n
unfolding slice
slice_relen f l m j zero = refl
slice_relen f l m j (suc n) = ap (◌∷◌ (f j)) (slice_relen f l m (suc j) n)

module _ (header : Bytes) (sealed : List ℕ) (n : ℕ) (sized : length sealed ≡ n + 16) where
  tag_length : length (drop (length sealed - 16) sealed) ≡ 16
  tag_length = omega (arith, length-drop (length sealed - 16) sealed)

  body_length : length (take (length sealed - 16) sealed) ≡ n
  body_length = omega (arith, length-take (length sealed - 16) sealed)

  len-place : (place header sealed).len ≡ 52 + n
  unfolding place copy
  len-place = omega arith

  body_of_place : slice (place header sealed) 52 n ++ slice (place header sealed) 4 16 ≡ sealed
  unfolding place
  body_of_place =
      let ct = take (length sealed - 16) sealed in
      let tag = drop (length sealed - 16) sealed in
      let b : Bytes = copy 52 ct (record header { len = 52 + (length sealed - 16) }) in
      rw
        (
          slice_apart 4 tag b 52 n (inr (omega (arith, tag_length))),
          slice-copy 52 n ct _ body_length,
          slice-copy 4 16 tag b tag_length,
        )
        (take-append-drop (length sealed - 16) sealed)

  at-place : (i : ℕ) → 20 ≤ i → i < 52 → (place header sealed).at i ≡ header.at i
  unfolding place
  at-place i low high =
      copy_apart 4 (drop (length sealed - 16) sealed) _ i (inr (omega (arith, tag_length)))
      ∙ copy_apart 52 (take (length sealed - 16) sealed) _ i (inl high)

  slice-place : (j m : ℕ) → 20 ≤ j → j + m ≤ 52 → slice (place header sealed) j m ≡ slice header j m
  unfolding place
  slice-place j m low high =
      slice_apart 4 (drop (length sealed - 16) sealed) _ j m (inr (omega (arith, tag_length)))
      ∙ slice_apart 52 (take (length sealed - 16) sealed) _ j m (inl high)
      ∙ slice_relen header.at _ header.len j m

  uint32-place : (j : ℕ) → 20 ≤ j → j + 4 ≤ 52 → uint32 (place header sealed) j ≡ uint32 header j
  unfolding uint32
  uint32-place j low high =
      rw
        (
          at-place j low (omega arith),
          at-place (j + 1) (omega arith) (omega arith),
          at-place (j + 2) (omega arith) (omega arith),
          at-place (j + 3) (omega arith) (omega arith),
        )
        refl

  uint16-place : (j : ℕ) → 20 ≤ j → j + 2 ≤ 52 → uint16 (place header sealed) j ≡ uint16 header j
  unfolding uint16
  uint16-place j low high =
      rw (at-place j low (omega arith), at-place (j + 1) (omega arith) (omega arith)) refl

module _ (nonce : List ℕ) (size sess_id : ℕ) where
  nonce-transform_header :
      (n : ℕ) → length nonce ≡ n → n ≤ 16 → slice (transform_header nonce size sess_id) 20 n ≡ nonce
  unfolding transform_header
  nonce-transform_header n e small =
      slice_apart 44 (le64 sess_id) _ 20 n (inl (omega arith))
      ∙ slice_apart 42 (1 ∷ 0 ∷ []) _ 20 n (inl (omega arith))
      ∙ slice_apart 36 (le32 size) _ 20 n (inl (omega arith))
      ∙ slice-copy 20 n nonce _ e

  size-transform_header : size < 2 ^ 32 → uint32 (transform_header nonce size sess_id) 36 ≡ size
  unfolding transform_header uint32 copy
  size-transform_header h = le32-value size h

  flags-transform_header : uint16 (transform_header nonce size sess_id) 42 ≡ 1
  unfolding transform_header uint16 copy
  flags-transform_header = refl

  sess_id-transform_header :
      sess_id < 2 ^ 64 → uint64 (transform_header nonce size sess_id) 44 ≡ sess_id
  unfolding transform_header uint64 uint32 copy
  sess_id-transform_header h = le64-value sess_id h

  is_transform-place :
      (sealed : List ℕ) → is_transform (place (transform_header nonce size sess_id) sealed) ≡ true
  unfolding transform_header is_transform place copy
  is_transform-place sealed = ground arith

accepted :
    (a : Aead) (frame : Bytes)
    → ltb frame.len 52 ≡ false
    → is_transform frame ≡ true
    → uint16 frame 42 ≡ 1
    → ltb (frame.len - 52) (uint32 frame 36) ≡ false
    → decrypt_transform (some a) frame ≡ open_frame a frame
unfolding decrypt_transform
accepted a frame long id flag whole = rw (long, id, flag, whole) refl

opened_frame :
    (a : Aead) (frame : Bytes) (n sess_id : ℕ) (nonce aad ct pt : List ℕ)
    → frame.len ≡ 52 + n
    → slice frame 20 a.nonce_len ≡ nonce
    → slice frame 20 32 ≡ aad
    → slice frame 52 n ++ slice frame 4 16 ≡ ct
    → uint64 frame 44 ≡ sess_id
    → a.open_ nonce ct aad ≡ some pt
    → open_frame a frame ≡ inr (pt, sess_id)
unfolding open_frame
opened_frame a frame n sess_id nonce aad ct pt l en ea ec ei eo =
    let body : frame.len - 52 ≡ n = omega arith in rw (body, en, ea, ec, ei, eo) refl

module _ (a : Aead) (laws : IsAead a) (small : a.nonce_len ≤ 16) (nonce : List ℕ)
    (sized : length nonce ≡ a.nonce_len) (sess_id : ℕ) (id_fits : sess_id < 2 ^ 64)
    (pt : List ℕ) where
  opened : decrypt_transform (some a) (seal_frame a nonce sess_id pt) ≡ inr (pt, sess_id)
  unfolding seal_frame
  opened =
      let header : Bytes = transform_header nonce (length pt % 2 ^ 32) sess_id in
      let sealed : List ℕ = a.seal nonce pt (slice header 20 32) in
      let n : length sealed ≡ length pt + 16 = laws.adds nonce pt (slice header 20 32) in
      let len : (place header sealed).len ≡ 52 + length pt =
        len-place header sealed (length pt) n in
      let size : uint32 (place header sealed) 36 ≡ length pt % 2 ^ 32 =
        uint32-place header sealed (length pt) n 36 (omega arith) (omega arith)
        ∙ size-transform_header nonce (length pt % 2 ^ 32) sess_id (omega arith) in
      let id : uint64 (place header sealed) 44 ≡ sess_id =
        unfold uint64 in
        rw
          (
            uint32-place header sealed (length pt) n 44 (omega arith) (omega arith),
            uint32-place header sealed (length pt) n 48 (omega arith) (omega arith),
          )
          (sess_id-transform_header nonce (length pt % 2 ^ 32) sess_id id_fits) in
      accepted a (place header sealed) (ground (arith, len))
        (is_transform-place nonce (length pt % 2 ^ 32) sess_id sealed)
        (uint16-place header sealed (length pt) n 42 (omega arith) (omega arith)
          ∙ flags-transform_header nonce (length pt % 2 ^ 32) sess_id)
        (ground (arith, len, size))
      ∙ opened_frame a (place header sealed) (length pt) sess_id nonce (slice header 20 32) sealed
          pt len
          (slice-place header sealed (length pt) n 20 a.nonce_len (omega arith) (omega arith)
            ∙ nonce-transform_header nonce (length pt % 2 ^ 32) sess_id a.nonce_len sized small)
          (slice-place header sealed (length pt) n 20 32 (omega arith) (omega arith))
          (body_of_place header sealed (length pt) n) id
          (laws.opens nonce pt (slice header 20 32) sized)

abbrev pub reopened : Aead → Transformed Bytes → Transformed (List ℕ × ℕ)
reopened a (inl e) = inl e
reopened a (inr frame) = decrypt_transform (some a) frame

length-nonce :
    (counter : ℕ) (prefix : List ℕ) (n : ℕ)
    → n ≤ 8 + length prefix
    → length (next_nonce counter prefix n).1 ≡ n
unfolding next_nonce
length-nonce counter prefix n h = omega (
  arith,
  length-take n (le64 (suc counter % 2 ^ 64) ++ prefix),
  length-append (le64 (suc counter % 2 ^ 64)) prefix,
)

-- With an AEAD that opens what it sealed, whose nonces have 8 to 16 bytes, and a prefix of 8 bytes: a
-- message of any length that EncryptTransform wraps is unwrapped by DecryptTransform to the same
-- message and session id, and the frame is always produced.
pub encrypt_transform-RoundTrip :
    (a : Aead) (prefix : List ℕ) (counter sess_id : ℕ) (pt : List ℕ)
    → IsAead a
    → 8 ≤ a.nonce_len
    → a.nonce_len ≤ 16
    → length prefix ≡ 8
    → sess_id < 2 ^ 64
    → reopened a (encrypt_transform (some a) prefix counter sess_id pt).1 ≡ inr (pt, sess_id)
unfolding encrypt_transform
encrypt_transform-RoundTrip a prefix counter sess_id pt laws large small eight id_fits =
    let usable : (ltb 16 a.nonce_len || ltb a.nonce_len 8) ≡ false = ground arith in
    rw usable (
      opened a laws small (next_nonce counter prefix a.nonce_len).1
        (length-nonce counter prefix a.nonce_len (omega arith)) sess_id id_fits pt)
