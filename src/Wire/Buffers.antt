-- ===== src/Wire/Buffers.antt =====
-- The decoders of internal/smb2 whose request names a buffer by its offset and length: session.go,
-- set_info.go, query_info.go and tree.go; and those of change_notify.go and the tree disconnect.
pub mod Bounds
use gosamba.Prelude.{
  ℕ, ◌+◌, ◌-◌, ◌*◌, Bool, not, ◌||◌, ◌==◌, ltb, if◌then◌else◌, List, [], ◌∷◌, Option, none, some,
  inl, inr, ◌⊎◌,
}
use gosamba.Wire.{
  Bytes, WireError, short_buffer, bad_structure_size, Decoded, slice, uint16, uint32, uint64,
}

-- The `n` bytes at the absolute offset `off_abs`, `none` where they do not lie in the body. The
-- offset counts from the 64-byte header; a negative one is refused.
unfoldable pub buffer_at : Bytes → ℕ → ℕ → Option (List ℕ)
buffer_at body off_abs n =
    if ltb off_abs 64 || ltb body.len (off_abs - 64 + n)
    then none
    else some (slice body (off_abs - 64) n)

-- An empty buffer is not looked up.
unfoldable pub buffer_of : Bytes → ℕ → ℕ → Option (List ℕ)
unfolding buffer_at
buffer_of body off_abs n = if n == 0 then some [] else buffer_at body off_abs n

-- The two tests that every decoder starts with.
abbrev pub checked {ℓ} : {A : Type ℓ} → Bytes → ℕ → ℕ → Decoded A → Decoded A
checked body min_len size rest =
    if ltb body.len min_len
    then inl short_buffer
    else if not (uint16 body 0 == size)
    then inl bad_structure_size
    else rest

abbrev pub with_buffer {ℓ} : {A : Type ℓ} → Option (List ℕ) → (List ℕ → A) → Decoded A
with_buffer none make = inl short_buffer
with_buffer (some bytes) make = inr (make bytes)

pub record SessionSetupRequest : Type 0 where
  pub flags : ℕ
  pub security_mode : ℕ
  pub capabilities : ℕ
  pub channel : ℕ
  pub previous_session_id : ℕ
  pub security_buffer : List ℕ

unfoldable pub decode_session_setup_request : Bytes → Decoded SessionSetupRequest
decode_session_setup_request body = checked body 24 25 (
    with_buffer (buffer_of body (uint16 body 12) (uint16 body 14)) (λ bytes. record {
      flags = body.at 2;
      security_mode = body.at 3;
      capabilities = uint32 body 4;
      channel = uint32 body 8;
      previous_session_id = uint64 body 16;
      security_buffer = bytes;
    }))

pub record SetInfoRequest : Type 0 where
  pub info_type : ℕ
  pub file_info_class : ℕ
  pub buffer_length : ℕ
  pub additional_info : ℕ
  pub file_id : List ℕ
  pub buffer : List ℕ

unfoldable pub decode_set_info_request : Bytes → Decoded SetInfoRequest
decode_set_info_request body = checked body 32 33 (
    with_buffer (buffer_of body (uint16 body 8) (uint32 body 4)) (λ bytes. record {
      info_type = body.at 2;
      file_info_class = body.at 3;
      buffer_length = uint32 body 4;
      additional_info = uint32 body 12;
      file_id = slice body 16 16;
      buffer = bytes;
    }))

pub record QueryInfoRequest : Type 0 where
  pub info_type : ℕ
  pub file_info_class : ℕ
  pub output_buffer_len : ℕ
  pub additional_info : ℕ
  pub flags : ℕ
  pub file_id : List ℕ
  pub input_buffer : List ℕ

-- A buffer outside the body is dropped without an error.
abbrev pub or_empty : Option (List ℕ) → List ℕ
or_empty none = []
or_empty (some bytes) = bytes

unfoldable pub decode_query_info_request : Bytes → Decoded QueryInfoRequest
decode_query_info_request body = checked body 40 41 (
    inr (record {
      info_type = body.at 2;
      file_info_class = body.at 3;
      output_buffer_len = uint32 body 4;
      additional_info = uint32 body 16;
      flags = uint32 body 20;
      file_id = slice body 24 16;
      input_buffer = or_empty (buffer_of body (uint16 body 8) (uint32 body 12));
    }))

pub record TreeConnectRequest : Type 0 where
  pub flags : ℕ
  pub path : List ℕ

-- `decodeUTF16LE`, up to the code units: an odd last byte is dropped.
unfoldable pub utf16_units : List ℕ → List ℕ
utf16_units [] = []
utf16_units (a ∷ []) = []
utf16_units (a ∷ b ∷ bs) = (a + 256 * b) ∷ utf16_units bs

-- The path as UTF-16 code units.
unfoldable pub decode_tree_connect_request : Bytes → Decoded TreeConnectRequest
decode_tree_connect_request body = checked body 8 9 (
    with_buffer (buffer_of body (uint16 body 4) (uint16 body 6))
      (λ bytes. record { flags = uint16 body 2; path = utf16_units bytes }))

pub record TreeDisconnectRequest : Type 0 where

unfoldable pub decode_tree_disconnect_request : Bytes → Decoded TreeDisconnectRequest
decode_tree_disconnect_request body = checked body 4 4 (inr (record {}))

pub record ChangeNotifyRequest : Type 0 where
  pub flags : ℕ
  pub output_buffer_length : ℕ
  pub file_id : List ℕ
  pub completion_filter : ℕ

unfoldable pub decode_change_notify_request : Bytes → Decoded ChangeNotifyRequest
decode_change_notify_request body = checked body 32 32 (
    inr (record {
      flags = uint16 body 2;
      output_buffer_length = uint32 body 4;
      file_id = slice body 8 16;
      completion_filter = uint32 body 24;
    }))
