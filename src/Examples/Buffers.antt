-- ===== src/Examples/Buffers.antt =====
-- A SESSION_SETUP request with a buffer of three bytes.
use gosamba.Prelude.{ℕ, ◌≡◌, refl, inr, [], ◌∷◌}
use gosamba.Wire.{Bytes, copy, slice, uint16, uint32, uint64}
use gosamba.Wire.Buffers.{SessionSetupRequest, buffer_of, buffer_at, decode_session_setup_request}

abbrev setup_on : (ℕ → ℕ) → Bytes
setup_on f =
    copy 24 (7 ∷ 8 ∷ 9 ∷ [])
      (copy 12 (88 ∷ 0 ∷ 3 ∷ 0 ∷ []) (copy 0 (25 ∷ 0 ∷ 0 ∷ 1 ∷ []) (record { len = 27; at = f })))

abbrev setup : Bytes
setup = setup_on (λ i. 0)

abbrev setup_request : SessionSetupRequest
setup_request = record {
  flags = 0;
  security_mode = 1;
  capabilities = 0;
  channel = 0;
  previous_session_id = 0;
  security_buffer = 7 ∷ 8 ∷ 9 ∷ [];
}

setup_decodes : decode_session_setup_request setup ≡ inr setup_request
unfolding decode_session_setup_request buffer_of buffer_at copy slice uint16 uint32 uint64
setup_decodes = refl

setup_length : uint16 setup 14 ≡ 3
unfolding uint16 copy
setup_length = refl
