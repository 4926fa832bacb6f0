-- ===== src/Wire/Requests.antt =====
-- The request decoders of internal/smb2: lock.go, read.go, write.go, close.go and flush.go.
pub mod Bounds
pub mod Locks
use gosamba.Prelude.{
  ℕ, zero, suc, ◌+◌, ◌-◌, ◌*◌, Bool, not, ◌||◌, ◌==◌, ltb, if◌then◌else◌, List, [], ◌∷◌, inl, inr,
  ◌⊎◌,
}
use gosamba.Wire.{
  Bytes, WireError, short_buffer, bad_structure_size, invalid_parameter, Decoded, slice, uint16,
  uint32, uint64,
}
use gosamba.Locks.Request.{LockElement}

pub record LockRequest : Type 0 where
  pub lock_sequence_index : ℕ
  pub file_id : List ℕ
  pub locks : List LockElement

-- Element `i` of the array, and the `n` elements from it on.
unfoldable pub lock_at : Bytes → ℕ → LockElement
lock_at body i =
    let base = 24 + i * 24 in
    record {
      offset = uint64 body base;
      len = uint64 body (base + 8);
      flags = uint32 body (base + 16);
    }

unfoldable pub locks_from : Bytes → ℕ → ℕ → List LockElement
locks_from body i zero = []
locks_from body i (suc n) = lock_at body i ∷ locks_from body (suc i) n

unfoldable pub decode_lock_request : Bytes → Decoded LockRequest
decode_lock_request body =
    if ltb body.len 48
    then inl short_buffer
    else if not (uint16 body 0 == 48)
    then inl bad_structure_size
    else if uint16 body 2 == 0
    then inl invalid_parameter
    else if ltb body.len (24 + uint16 body 2 * 24)
    then inl short_buffer
    else inr (record {
      lock_sequence_index = uint32 body 4;
      file_id = slice body 8 16;
      locks = locks_from body 0 (uint16 body 2);
    })

pub record ReadRequest : Type 0 where
  pub len : ℕ
  pub offset : ℕ
  pub file_id : List ℕ
  pub minimum_count : ℕ

unfoldable pub decode_read_request : Bytes → Decoded ReadRequest
decode_read_request body =
    if ltb body.len 48
    then inl short_buffer
    else if not (uint16 body 0 == 49)
    then inl bad_structure_size
    else inr (record {
      len = uint32 body 4;
      offset = uint64 body 8;
      file_id = slice body 16 16;
      minimum_count = uint32 body 32;
    })

pub record WriteRequest : Type 0 where
  pub len : ℕ
  pub offset : ℕ
  pub file_id : List ℕ
  pub flags : ℕ
  pub data_bytes : List ℕ

abbrev pub write_request : Bytes → List ℕ → WriteRequest
write_request body bytes = record {
  len = uint32 body 4;
  offset = uint64 body 8;
  file_id = slice body 16 16;
  flags = uint32 body 44;
  data_bytes = bytes;
}

-- The data starts at `uint16 body 2 - 64` in the body, a negative offset being refused.
unfoldable pub decode_write_request : Bytes → Decoded WriteRequest
decode_write_request body =
    if ltb body.len 48
    then inl short_buffer
    else if not (uint16 body 0 == 49)
    then inl bad_structure_size
    else if not (ltb 0 (uint32 body 4))
    then inr (write_request body [])
    else if ltb (uint16 body 2) 64 || ltb body.len (uint16 body 2 - 64 + uint32 body 4)
    then inl short_buffer
    else inr (write_request body (slice body (uint16 body 2 - 64) (uint32 body 4)))

pub record CloseRequest : Type 0 where
  pub flags : ℕ
  pub file_id : List ℕ

unfoldable pub decode_close_request : Bytes → Decoded CloseRequest
decode_close_request body =
    if ltb body.len 24
    then inl short_buffer
    else if not (uint16 body 0 == 24)
    then inl bad_structure_size
    else inr (record { flags = uint16 body 2; file_id = slice body 8 16 })

pub record FlushRequest : Type 0 where
  pub file_id : List ℕ

unfoldable pub decode_flush_request : Bytes → Decoded FlushRequest
decode_flush_request body =
    if ltb body.len 24
    then inl short_buffer
    else if not (uint16 body 0 == 24)
    then inl bad_structure_size
    else inr (record { file_id = slice body 8 16 })
