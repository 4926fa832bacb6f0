-- ===== src/Transport.antt =====
-- NBSS framing: internal/transport/nbss.go. A reader is the bytes that the peer sends before it
-- closes the connection, and a writer takes a whole frame at once.
pub mod Framing
use gosamba.Prelude.{
  ℕ, zero, suc, ◌+◌, ◌-◌, ◌*◌, ◌/◌, ◌%◌, Bool, not, ◌==◌, ltb, if◌then◌else◌, List, [], ◌∷◌, ◌++◌,
  length, take, drop, replicate, inl, inr, ◌⊎◌,
}

abbrev pub max_frame_size : ℕ
max_frame_size = 16777216

abbrev pub frame_type_session_message : ℕ
frame_type_session_message = 0x00

abbrev pub frame_header_size : ℕ
frame_header_size = 4

-- `end_of_stream` is what io.ReadFull reports when the bytes run out.
pub data FrameError : Type 0 where
  err_unsupported_frame_type err_frame_too_large buffer_too_small end_of_stream : FrameError

abbrev pub Framed {ℓ} : Type ℓ → Type ℓ
Framed A = FrameError ⊎ A

-- `io.ReadFull` of `n` bytes: what is read and what is left.
unfoldable pub read_full : ℕ → List ℕ → Framed (List ℕ × List ℕ)
read_full n s = if ltb (length s) n then inl end_of_stream else inr (take n s, drop n s)

-- After the type byte 0: the 24-bit length, the limit and the payload.
unfoldable pub read_payload : ℕ → ℕ → List ℕ → Framed (List ℕ × List ℕ)
read_payload max_size n s =
    if ltb max_size n
    then inl err_frame_too_large
    else if n == 0
    then inr ([], s)
    else read_full n s

unfoldable pub read_frame : ℕ → List ℕ → Framed (List ℕ × List ℕ)
read_frame max_size (t ∷ a ∷ b ∷ c ∷ s) =
    if not (t == frame_type_session_message)
    then inl err_unsupported_frame_type
    else read_payload max_size (a * 65536 + b * 256 + c) s
read_frame max_size s = inl end_of_stream

unfoldable pub put_frame_header : List ℕ → Framed (List ℕ)
put_frame_header buf =
    let n = length buf - frame_header_size in
    if ltb (length buf) frame_header_size
    then inl buffer_too_small
    else if ltb 0xFFFFFF n
    then inl err_frame_too_large
    else inr (frame_type_session_message ∷ n / 65536 % 256 ∷ n / 256 % 256 ∷ n % 256 ∷ drop 4 buf)

-- The bytes that reach the writer.
unfoldable pub write_frame : List ℕ → Framed (List ℕ)
write_frame payload =
    if ltb 0xFFFFFF (length payload)
    then inl err_frame_too_large
    else put_frame_header (replicate frame_header_size 0 ++ payload)
