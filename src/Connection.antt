-- ===== src/Connection.antt =====
-- The walk along the messages of one inbound frame in internal/parent/conn.go, and the test that keeps
-- SESSION_SETUP off the worker pool.
pub mod Serial
use gosamba.Prelude.{
  ℕ, zero, suc, Bool, true, false, ◌||◌, ◌==◌, ltb, if◌then◌else◌, List, [], ◌∷◌, length, take,
  drop, inl, inr,
}
use gosamba.Wire.{Bytes, Decoded, nth}
use gosamba.Wire.Header.{Header, decode_header, header_size}

abbrev pub command_session_setup : ℕ
command_session_setup = 0x0001

-- A slice with its bytes.
abbrev pub bytes_of : List ℕ → Bytes
bytes_of xs = record { len = length xs; at = λ i. nth i xs }

-- `smb2.DecodeHeader(frame[off : off+smb2.HeaderSize])`, from the bytes at `off` on.
unfoldable pub header_at : List ℕ → Decoded Header
header_at rest = decode_header (bytes_of (take header_size rest))

-- What follows a message: the walk ends there or breaks off, or goes on behind it.
pub data Next : Type 0 where
  ends breaks_off : Next
  goes_on : ℕ → Next

unfoldable pub next_of : Header → List ℕ → Next
next_of hdr rest =
    if hdr.next_command == 0
    then ends
    else if ltb hdr.next_command header_size
    then breaks_off
    else if ltb (length rest) hdr.next_command
    then breaks_off
    else goes_on hdr.next_command

-- A message of the chain with its bytes.
abbrev pub Message : Type 0
Message = Header × List ℕ

abbrev pub then_walk : Message → List Message × Bool → List Message × Bool
then_walk m (ms, ok) = (m ∷ ms, ok)

-- `serveFrame`: the messages that it dispatches while their handlers keep the connection, and whether
-- the walk reached the end of the chain. Every message is at least a byte, which bounds their number.
unfoldable pub serve_frame : ℕ → List ℕ → List Message × Bool
serve_frame zero rest = ([], true)
serve_frame (suc fuel) [] = ([], true)
serve_frame (suc fuel) (b ∷ bs) =
    let rest = b ∷ bs in
    if ltb (length rest) header_size then ([], false) else elim (header_at rest) [
      | inl e ↦ ([], false)
      | inr hdr ↦ elim (next_of hdr rest) [
        | ends ↦ ((hdr, rest) ∷ [], true)
        | breaks_off ↦ ([], false)
        | goes_on n ↦ then_walk (hdr, take n rest) (serve_frame fuel (drop n rest))
      ]
    ]

unfoldable pub frame_needs_serial_execution : ℕ → List ℕ → Bool
frame_needs_serial_execution zero rest = true
frame_needs_serial_execution (suc fuel) [] = true
frame_needs_serial_execution (suc fuel) (b ∷ bs) =
    let rest = b ∷ bs in
    if ltb (length rest) header_size then true else elim (header_at rest) [
      | inl e ↦ true
      | inr hdr ↦ if hdr.command == command_session_setup then true else elim (next_of hdr rest) [
        | ends ↦ false
        | breaks_off ↦ true
        | goes_on n ↦ frame_needs_serial_execution fuel (drop n rest)
      ]
    ]
