-- ===== src/Wire/Buffers/Bounds.antt =====
-- How far the decoders read, for any offset and length that the request names.
use gosamba.Prelude.{
  ℕ, ◌+◌, ◌-◌, ◌≤◌, ◌≡◌, ◌≢◌, refl, true, false, ◌||◌, ltb, arith, inl, inr, Bool-cases,
}
use gosamba.Wire.{Bytes, slice, uint16, uint32, Decoded}
use gosamba.Wire.Header.Bounds.{slice-SameUpTo, uint16-SameUpTo, uint32-SameUpTo, uint64-SameUpTo}
use gosamba.Wire.Requests.Bounds.{SameBody}
use gosamba.Wire.Buffers.{
  SessionSetupRequest, buffer_at, buffer_of, checked, decode_session_setup_request,
  decode_set_info_request, decode_query_info_request, decode_tree_connect_request,
  decode_change_notify_request,
}

buffer_at-SameBody :
    (b c : Bytes) → SameBody b c → (off n : ℕ) → buffer_at b off n ≡ buffer_at c off n
unfolding buffer_at
buffer_at-SameBody b c s off n = elim (Bool-cases (ltb off 64 || ltb b.len (off - 64 + n))) [
  | inl e ↦
      let f : (ltb off 64 || ltb c.len (off - 64 + n)) ≡ true = ground (arith, s.0) in
      rw (e, f) refl
  | inr e ↦
      let f : (ltb off 64 || ltb c.len (off - 64 + n)) ≡ false = ground (arith, s.0) in
      rw (e, f, slice-SameUpTo b.len b c s (off - 64) n (ground arith)) refl
]

pub buffer_of-SameBody :
    (b c : Bytes) → SameBody b c → (off n : ℕ) → buffer_of b off n ≡ buffer_of c off n
unfolding buffer_of
buffer_of-SameBody b c s off n = rw (buffer_at-SameBody b c s off n) refl

-- The rest of a decoder is compared only where the body has the minimal length.
checked-SameBody :
    {A : Type 0} (b c : Bytes) (min_len size : ℕ) (x y : Decoded A)
    → SameBody b c
    → 2 ≤ min_len
    → (min_len ≤ b.len → x ≡ y)
    → checked b min_len size x ≡ checked c min_len size y
checked-SameBody b c min_len size x y s two e = elim (Bool-cases (ltb b.len min_len)) [
  | inl h ↦ let f : ltb c.len min_len ≡ true = ground (arith, s.0) in rw (h, f) refl
  | inr h ↦
      let f : ltb c.len min_len ≡ false = ground (arith, s.0) in
      let long : min_len ≤ b.len = ground arith in
      rw (h, f, uint16-SameUpTo b.len b c s 0 (omega arith), e long) refl
]

decode_session_setup_request-SameBody :
    (b c : Bytes) → SameBody b c → decode_session_setup_request b ≡ decode_session_setup_request c
unfolding decode_session_setup_request
decode_session_setup_request-SameBody b c s =
    checked-SameBody b c 24 25 _ _ s (omega arith) (λ long.
      rw
        (
          buffer_of-SameBody b c s (uint16 b 12) (uint16 b 14),
          uint16-SameUpTo b.len b c s 12 (omega arith),
          uint16-SameUpTo b.len b c s 14 (omega arith),
          s.1 2 (omega arith),
          s.1 3 (omega arith),
          uint32-SameUpTo b.len b c s 4 (omega arith),
          uint32-SameUpTo b.len b c s 8 (omega arith),
          uint64-SameUpTo b.len b c s 16 (omega arith),
        )
        refl)

decode_set_info_request-SameBody :
    (b c : Bytes) → SameBody b c → decode_set_info_request b ≡ decode_set_info_request c
unfolding decode_set_info_request
decode_set_info_request-SameBody b c s = checked-SameBody b c 32 33 _ _ s (omega arith) (λ long.
    rw
      (
        buffer_of-SameBody b c s (uint16 b 8) (uint32 b 4),
        uint16-SameUpTo b.len b c s 8 (omega arith),
        s.1 2 (omega arith),
        s.1 3 (omega arith),
        uint32-SameUpTo b.len b c s 4 (omega arith),
        uint32-SameUpTo b.len b c s 12 (omega arith),
        slice-SameUpTo b.len b c s 16 16 (omega arith),
      )
      refl)

decode_query_info_request-SameBody :
    (b c : Bytes) → SameBody b c → decode_query_info_request b ≡ decode_query_info_request c
unfolding decode_query_info_request
decode_query_info_request-SameBody b c s = checked-SameBody b c 40 41 _ _ s (omega arith) (λ long.
    rw
      (
        buffer_of-SameBody b c s (uint16 b 8) (uint32 b 12),
        uint16-SameUpTo b.len b c s 8 (omega arith),
        uint32-SameUpTo b.len b c s 12 (omega arith),
        s.1 2 (omega arith),
        s.1 3 (omega arith),
        uint32-SameUpTo b.len b c s 4 (omega arith),
        uint32-SameUpTo b.len b c s 16 (omega arith),
        uint32-SameUpTo b.len b c s 20 (omega arith),
        slice-SameUpTo b.len b c s 24 16 (omega arith),
      )
      refl)

decode_tree_connect_request-SameBody :
    (b c : Bytes) → SameBody b c → decode_tree_connect_request b ≡ decode_tree_connect_request c
unfolding decode_tree_connect_request
decode_tree_connect_request-SameBody b c s = checked-SameBody b c 8 9 _ _ s (omega arith) (λ long.
    rw
      (
        buffer_of-SameBody b c s (uint16 b 4) (uint16 b 6),
        uint16-SameUpTo b.len b c s 4 (omega arith),
        uint16-SameUpTo b.len b c s 6 (omega arith),
        uint16-SameUpTo b.len b c s 2 (omega arith),
      )
      refl)

decode_change_notify_request-SameBody :
    (b c : Bytes) → SameBody b c → decode_change_notify_request b ≡ decode_change_notify_request c
unfolding decode_change_notify_request
decode_change_notify_request-SameBody b c s =
    checked-SameBody b c 32 32 _ _ s (omega arith) (λ long.
      rw
        (
          uint16-SameUpTo b.len b c s 2 (omega arith),
          uint32-SameUpTo b.len b c s 4 (omega arith),
          slice-SameUpTo b.len b c s 8 16 (omega arith),
          uint32-SameUpTo b.len b c s 24 (omega arith),
        )
        refl)

-- Two bodies of one length with the same bytes decode alike as SESSION_SETUP, SET_INFO, QUERY_INFO,
-- TREE_CONNECT and CHANGE_NOTIFY requests, whatever buffer offset and length they name: nothing past
-- the end of the body is read.
pub buffers-SameBody :
    (b c : Bytes)
    → SameBody b c
    → (decode_session_setup_request b ≡ decode_session_setup_request c)
      × (decode_set_info_request b ≡ decode_set_info_request c)
      × (decode_query_info_request b ≡ decode_query_info_request c)
      × (decode_tree_connect_request b ≡ decode_tree_connect_request c)
      × (decode_change_notify_request b ≡ decode_change_notify_request c)
buffers-SameBody b c s = (
  decode_session_setup_request-SameBody b c s,
  decode_set_info_request-SameBody b c s,
  decode_query_info_request-SameBody b c s,
  decode_tree_connect_request-SameBody b c s,
  decode_change_notify_request-SameBody b c s,
)

-- A SESSION_SETUP request that is accepted with a buffer carries exactly the bytes that its offset
-- and length name, and they lie inside the body.
pub session_setup_buffer :
    (b : Bytes) (r : SessionSetupRequest)
    → decode_session_setup_request b ≡ inr r
    → uint16 b 14 ≢ 0
    → (64 ≤ uint16 b 12)
      × (uint16 b 12 - 64 + uint16 b 14 ≤ b.len)
      × (r.security_buffer ≡ slice b (uint16 b 12 - 64) (uint16 b 14))
unfolding decode_session_setup_request buffer_of buffer_at
session_setup_buffer b r e n = ground arith
