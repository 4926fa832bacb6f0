-- ===== src/Wire/Header.antt =====
-- The SMB2 header codec of internal/smb2/header.go.
pub mod RoundTrip
pub mod Bounds
use gosamba.Prelude.{
  ℕ, ◌+◌, Bool, true, false, not, ◌||◌, ◌==◌, ltb, if◌then◌else◌, List, [], ◌∷◌, inl, inr, bit_or,
  ◌⊎◌,
}
use gosamba.Wire.{
  Bytes, WireError, short_buffer, bad_protocol_id, bad_structure_size, Decoded, copy, slice, uint16,
  uint32, uint64, put_uint16, put_uint32, put_uint64,
}

abbrev pub header_size : ℕ
header_size = 64

abbrev pub header_structure_size : ℕ
header_structure_size = 64

abbrev pub flag_async_command : ℕ
flag_async_command = 0x00000002

-- 0xFE 'S' 'M' 'B'
abbrev pub protocol_id : List ℕ
protocol_id = 0xFE ∷ 0x53 ∷ 0x4D ∷ 0x42 ∷ []

pub record Header : Type 0 where
  pub credit_charge : ℕ
  pub status : ℕ
  pub command : ℕ
  pub credit_response : ℕ
  pub flags : ℕ
  pub next_command : ℕ
  pub message_id : ℕ
  pub tree_id : ℕ
  pub session_id : ℕ
  pub signature : List ℕ

unfoldable pub is_smb2 : Bytes → Bool
is_smb2 b =
    not
      (not (b.at 0 == 0xFE) || not (b.at 1 == 0x53) || not (b.at 2 == 0x4D) || not (b.at 3 == 0x42))

unfoldable pub read_header : Bytes → Header
read_header b = record {
  credit_charge = uint16 b 6;
  status = uint32 b 8;
  command = uint16 b 12;
  credit_response = uint16 b 14;
  flags = uint32 b 16;
  next_command = uint32 b 20;
  message_id = uint64 b 24;
  tree_id = uint32 b 36;
  session_id = uint64 b 40;
  signature = slice b 48 16;
}

unfoldable pub decode_header : Bytes → Decoded Header
decode_header b =
    if ltb b.len header_size
    then inl short_buffer
    else if not (is_smb2 b)
    then inl bad_protocol_id
    else if not (uint16 b 4 == header_structure_size)
    then inl bad_structure_size
    else inr (read_header b)

unfoldable pub encode_header : Bytes → Header → Decoded Bytes
encode_header out h =
    if ltb out.len header_size
    then inl short_buffer
    else let b = copy 0 protocol_id out in
      let b = put_uint16 4 header_structure_size b in
      let b = put_uint16 6 h.credit_charge b in
      let b = put_uint32 8 h.status b in
      let b = put_uint16 12 h.command b in
      let b = put_uint16 14 h.credit_response b in
      let b = put_uint32 16 h.flags b in
      let b = put_uint32 20 h.next_command b in
      let b = put_uint64 24 h.message_id b in
      let b = put_uint32 32 0 b in
      let b = put_uint32 36 h.tree_id b in
      let b = put_uint64 40 h.session_id b in inr (copy 48 h.signature b)

unfoldable pub encode_async_header : Bytes → Header → ℕ → Decoded Bytes
encode_async_header out h async_id =
    if ltb out.len header_size
    then inl short_buffer
    else let b = copy 0 protocol_id out in
      let b = put_uint16 4 header_structure_size b in
      let b = put_uint16 6 h.credit_charge b in
      let b = put_uint32 8 h.status b in
      let b = put_uint16 12 h.command b in
      let b = put_uint16 14 h.credit_response b in
      let b = put_uint32 16 (bit_or h.flags flag_async_command) b in
      let b = put_uint32 20 h.next_command b in
      let b = put_uint64 24 h.message_id b in
      let b = put_uint64 32 async_id b in
      let b = put_uint64 40 h.session_id b in inr (copy 48 h.signature b)
