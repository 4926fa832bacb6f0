-- ===== src/CopyChunk.antt =====
-- Server-side copy: the decoding and the validation of a request in internal/smb2/ioctl.go and
-- internal/parent/copychunk.go, and the resume keys of a connection. The copy itself is file I/O.
pub mod Valid
pub mod Keys
use gosamba.Prelude.{
  ℕ, zero, suc, ◌+◌, ◌-◌, ◌*◌, ◌%◌, ◌^◌, Bool, true, false, not, ◌&&◌, ◌||◌, ◌==◌, ltb,
  if◌then◌else◌, List, [], ◌∷◌, Option, none, some, ◌⊎◌, inl, inr,
}
use gosamba.Wire.{Bytes, slice, uint32, uint64}

abbrev pub max_copy_chunk_count : ℕ
max_copy_chunk_count = 256

abbrev pub max_copy_chunk_size : ℕ
max_copy_chunk_size = 2 ^ 20

abbrev pub max_copy_chunk_total : ℕ
max_copy_chunk_total = 16 * 2 ^ 20

abbrev pub max_file_offset : ℕ
max_file_offset = 2 ^ 63 - 1

abbrev pub status_invalid_parameter : ℕ
status_invalid_parameter = 0xC000000D

abbrev pub status_invalid_view_size : ℕ
status_invalid_view_size = 0xC000001F

pub record SrvCopyChunk : Type 0 where
  pub source_offset : ℕ
  pub target_offset : ℕ
  pub len : ℕ

pub record SrvCopyChunkCopy : Type 0 where
  pub source_key : List ℕ
  pub chunks : List SrvCopyChunk

pub data CopyError : Type 0 where
  copy_short_buffer copy_chunk_limit : CopyError

unfoldable pub chunk_at : Bytes → ℕ → SrvCopyChunk
chunk_at b off = record {
  source_offset = uint64 b off;
  target_offset = uint64 b (off + 8);
  len = uint32 b (off + 16);
}

unfoldable pub chunks_at : Bytes → ℕ → ℕ → List SrvCopyChunk
chunks_at b off zero = []
chunks_at b off (suc n) = chunk_at b off ∷ chunks_at b (off + 24) n

-- A request has a header of 32 bytes and 24 bytes for each chunk.
unfoldable pub decode_srv_copy_chunk_copy : Bytes → ℕ → CopyError ⊎ SrvCopyChunkCopy
decode_srv_copy_chunk_copy b max_chunks =
    let count = uint32 b 24 in
    if ltb b.len 32
    then inl copy_short_buffer
    else if count == 0
    then inl copy_chunk_limit
    else if ltb max_chunks count
    then inl copy_chunk_limit
    else if ltb b.len (32 + count * 24)
    then inl copy_short_buffer
    else inr (record { source_key = slice b 0 24; chunks = chunks_at b 32 count })

-- The first pass, with the total so far; `none` where every chunk passes.
unfoldable pub over_limits : ℕ → List SrvCopyChunk → Option ℕ
over_limits total [] = none
over_limits total (ch ∷ chunks) =
    let total' = (total + ch.len) % 2 ^ 64 in
    let rest = over_limits total' chunks in
    if ch.len == 0 || ltb max_copy_chunk_size ch.len
    then some status_invalid_parameter
    else if ltb max_copy_chunk_total total'
    then some status_invalid_parameter
    else rest

-- The second pass: 64-bit sums, as Go computes them.
unfoldable pub out_of_range : ℕ → List SrvCopyChunk → Option ℕ
out_of_range src_size [] = none
out_of_range src_size (ch ∷ chunks) =
    let rest = out_of_range src_size chunks in
    let src_end = (ch.source_offset + ch.len) % 2 ^ 64 in
    let dst_end = (ch.target_offset + ch.len) % 2 ^ 64 in
    if ltb max_file_offset ch.source_offset || ltb max_file_offset ch.target_offset
    then some status_invalid_parameter
    else if ltb max_file_offset src_end || ltb max_file_offset dst_end
    then some status_invalid_parameter
    else if ltb src_size src_end
    then some status_invalid_view_size
    else rest

abbrev pub or_else : Option ℕ → Option ℕ → Option ℕ
or_else none b = b
or_else (some s) b = some s

-- The status to fail with, if any.
unfoldable pub validate_copy_chunks : List SrvCopyChunk → ℕ → Option ℕ
validate_copy_chunks chunks src_size = or_else (over_limits 0 chunks) (out_of_range src_size chunks)

unfoldable pub chunks_overlap : List SrvCopyChunk → Bool
chunks_overlap [] = false
chunks_overlap (ch ∷ chunks) =
    let rest = chunks_overlap chunks in
    if ltb ch.source_offset ((ch.target_offset + ch.len) % 2 ^ 64)
      && ltb ch.target_offset ((ch.source_offset + ch.len) % 2 ^ 64)
    then true
    else rest
