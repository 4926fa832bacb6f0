-- ===== src/Examples/Protocol.antt =====
-- A header, a LOCK body, frames and a negotiation.
use gosamba.Prelude.{◌+◌, ◌/◌, ◌^◌, ◌≡◌, refl, inr, true, [], ◌∷◌, none, some, arith, ◌-◌}
use gosamba.Wire.{Bytes, copy}
use gosamba.Wire.Header.{Header, encode_header, decode_header}
use gosamba.Wire.Header.RoundTrip.{IsHeader, reread, encode_header-RoundTrip}
use gosamba.Wire.Header.Bounds.{decode_header-SameUpTo}
use gosamba.Transport.{read_frame, read_full, read_payload}
use gosamba.Transport.Framing.{received, write_frames, write_frames-RoundTrip}
use gosamba.Negotiate.{NegotiateRequest, select}
use gosamba.Negotiate.Chosen.{SelectOutcome, select-SelectOutcome}

abbrev zeros : Bytes
zeros = record { len = 64; at = λ i. 0 }

-- The same buffer, with something else past its end.
abbrev other_tail : Bytes
other_tail = record { len = 64; at = λ i. i / 64 }

-- The protocol id and the structure size, over a buffer.
abbrev header_on : Bytes → Bytes
header_on b = copy 0 (0xFE ∷ 0x53 ∷ 0x4D ∷ 0x42 ∷ 64 ∷ 0 ∷ []) b

-- A WRITE of two bytes that stand at 48 in the body.
abbrev write_on : Bytes → Bytes
write_on b = copy 48 (5 ∷ 6 ∷ []) (copy 0 (49 ∷ 0 ∷ 112 ∷ 0 ∷ 2 ∷ 0 ∷ 0 ∷ 0 ∷ []) b)

abbrev request_header : Header
request_header = record {
  credit_charge = 1;
  status = 0;
  command = 10;
  credit_response = 64;
  flags = 8;
  next_command = 0;
  message_id = 2 ^ 63 + 5;
  tree_id = 7;
  session_id = 2 ^ 64 - 1;
  signature = 1 ∷ 2 ∷ 3 ∷ 4 ∷ 5 ∷ 6 ∷ 7 ∷ 8 ∷ 9 ∷ 10 ∷ 11 ∷ 12 ∷ 13 ∷ 14 ∷ 15 ∷ 16 ∷ [];
}

request_header-IsHeader : IsHeader request_header
request_header-IsHeader = record {
  credit_charge = omega arith;
  status = omega arith;
  command = omega arith;
  credit_response = omega arith;
  flags = omega arith;
  next_command = omega arith;
  message_id = omega arith;
  tree_id = omega arith;
  session_id = omega arith;
  signature = refl;
}

encode_header-RoundTrip_example : reread (encode_header zeros request_header) ≡ inr request_header
encode_header-RoundTrip_example =
    encode_header-RoundTrip zeros request_header (omega arith) request_header-IsHeader

decode_header-SameUpTo_example :
    decode_header (header_on zeros) ≡ decode_header (header_on other_tail)
unfolding copy
decode_header-SameUpTo_example =
    decode_header-SameUpTo (header_on zeros) (header_on other_tail) (refl, λ i h. ground arith)

write_frames-RoundTrip_example :
    received 100 5 (write_frames ((1 ∷ 2 ∷ []) ∷ [] ∷ (3 ∷ []) ∷ []))
    ≡ (1 ∷ 2 ∷ []) ∷ [] ∷ (3 ∷ []) ∷ []
write_frames-RoundTrip_example =
    write_frames-RoundTrip 100 5 ((1 ∷ 2 ∷ []) ∷ [] ∷ (3 ∷ []) ∷ []) (omega arith)
      ((omega arith, omega arith), ((omega arith, omega arith), ((omega arith, omega arith), tt)))

one_frame : read_frame 100 (0 ∷ 0 ∷ 0 ∷ 2 ∷ 8 ∷ 9 ∷ 0 ∷ []) ≡ inr (8 ∷ 9 ∷ [], 0 ∷ [])
unfolding read_frame read_payload read_full
one_frame = refl

-- A client of 3.0.2 and 3.1.1 that offers the two 128-bit ciphers.
abbrev client : NegotiateRequest
client = record {
  capabilities = 0;
  dialects = 0x0302 ∷ 0x0311 ∷ [];
  hash_algorithms = 1 ∷ [];
  encryption = some (1 ∷ 2 ∷ []);
  signing_caps = none;
}

select-SelectOutcome_example : SelectOutcome client true (select client true)
select-SelectOutcome_example = select-SelectOutcome client true
