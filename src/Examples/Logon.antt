-- ===== src/Examples/Logon.antt =====
-- A user who logs on with an NTLM response, and a guest who takes the session over.
use gosamba.Prelude.{
  ℕ, ◌≡◌, ◌↔◌, refl, true, false, List, [], ◌∷◌, ◌++◌, replicate, none, some, inr, arith,
}
use gosamba.Prelude.Text.{codes}
use gosamba.Prelude.Assoc.{same_bytes, get?, nat_key}
use gosamba.Wire.{Bytes, le16, le32, slice, nth}
use gosamba.Connection.{bytes_of}
use gosamba.Dispatch.{Policy, for_frame, dispatch_gate, resolve_related}
use gosamba.Ntlm.{
  AvPair, AuthenticateMessage, signature, encode_av_list, decode_av_list, utf16le, decode_utf16le,
  decode_authenticate,
}
use gosamba.Ntlm.Challenge.{ChallengeMessage, encode_challenge, Reads, encode_challenge-Reads}
use gosamba.Ntlm.Text.{utf8, replaced, decode_utf16le-utf16le}
use gosamba.Ntlm.Fields.{WellFormed, HasRoom, message_of, decode_authenticate_iff}
use gosamba.Sessions.{Session, new_session}
use gosamba.Sessions.Handler.{
  SetupHandler, SetupState, Handshake, no_handshake, accepted, session_at, guest_system_user,
}
use gosamba.Sessions.Setup.{session_flags, as_guest, handle_type3}
use gosamba.Sessions.Setup.Proven.{IsProven, IsGuest, handle_type3-accepts}
use gosamba.Sessions.Setup.Guests.{handle_type3-guest-dispatch_gate}
use gosamba.Wire.Header.{Header}

abbrev pairs : List AvPair
pairs = record { id = 6; value = 2 ∷ 0 ∷ 0 ∷ 0 ∷ [] } ∷ record { id = 1; value = [] } ∷ []

-- A letter and an emoji.
decode_utf16le-utf16le_example :
    decode_utf16le (utf16le (0x61 ∷ 0x1F600 ∷ [])) ≡ utf8 (replaced (0x61 ∷ 0x1F600 ∷ []))
decode_utf16le-utf16le_example =
    decode_utf16le-utf16le (0x61 ∷ 0x1F600 ∷ []) (omega arith, (omega arith, tt))

-- What the server sends to a client that starts.
abbrev challenge : ChallengeMessage
challenge = record {
  target_name = codes "GOSAMBA";
  flags = 0xE28A8215;
  challenge = replicate 8 0x5A;
  target_info = pairs;
}

encode_challenge-Reads_example : Reads challenge (encode_challenge challenge)
unfolding utf16le gosamba.Ntlm.utf16le_rune encode_av_list
encode_challenge-Reads_example =
    encode_challenge-Reads challenge refl (omega arith) (omega arith) (omega arith)
      ((omega arith, omega arith, omega arith), ((omega arith, omega arith, omega arith), tt))

-- The response of 24 bytes and the name `a` behind the fixed part.
abbrev type3 : List ℕ
type3 =
    signature
    ++ (le32 3
        ++ (replicate 8 0
            ++ (le16 24
                ++ (le16 24
                    ++ (le32 64
                        ++ (replicate 8 0
                            ++ (le16 1
                                ++ (le16 1
                                    ++ (le32 88
                                        ++ (replicate 20 0
                                            ++ (replicate 16 7
                                                ++ (replicate 8 1 ++ codes "a"))))))))))))

decode_authenticate_iff_example :
    (decode_authenticate (bytes_of type3) ≡ inr (message_of (bytes_of type3))) ↔ (
      WellFormed (bytes_of type3)
      × (message_of (bytes_of type3) ≡ message_of (bytes_of type3))
      × (((message_of (bytes_of type3)).has_mic ≡ true) ↔ HasRoom (bytes_of type3)))
decode_authenticate_iff_example =
    decode_authenticate_iff (bytes_of type3) (message_of (bytes_of type3))

abbrev handler : SetupHandler
handler = record {
  host = 1;
  client_guid = replicate 16 2;
  dialect = 0x0311;
  cipher = 2;
  preauth = none;
  users =
      record {
        name = codes "a";
        nt_hash = replicate 16 3;
        system_user = [];
        system_uid = 1000;
        system_gid = 1000;
        allow_shares = codes "*" ∷ [];
      }
      ∷ [];
  shares = record { name = codes "pub"; path = codes "/"; read_only = true; guest_ok = true } ∷ [];
  require_encryption = true;
  equal_fold = same_bytes;
  library = record { hmac_md5 = λ k m. replicate 16 7; to_upper = λ s. s; utf16_units = λ s. s };
  hmac_sha256 = λ k m. replicate 32 4;
  sha512 = λ m. replicate 64 5;
  nobody = none;
}

abbrev started : SetupState
started = record {
  server = record {
    heap = (5, new_session 5) ∷ [];
    hosts =
        (
          1,
          record {
            client_guid = replicate 16 2;
            sessions = record { by_id = (5, new_session 5) ∷ []; half_open = (5, tt) ∷ [] };
          },
        )
        ∷ [];
    by_id = [];
    released = [];
  };
  handshakes = (5, no_handshake) ∷ [];
}

logs_on : (handle_type3 handler 5 0 type3 [] started).1 ≡ accepted 4 true
unfolding handle_type3 gosamba.Sessions.Handler.session_at get? decode_authenticate
    gosamba.Ntlm.read_field gosamba.Ntlm.smallest_from gosamba.Ntlm.smallest_payload_offset
    gosamba.Ntlm.text_of gosamba.Ntlm.carries_mic gosamba.Ntlm.decode_fields gosamba.Wire.uint16
    gosamba.Wire.uint32 gosamba.Wire.slice gosamba.Sessions.Handler.find_user new_session
    gosamba.Sessions.Handler.resolve_user gosamba.Sessions.Handler.handshake_of
    gosamba.Sessions.Handler.prove_user gosamba.Sessions.Handler.mic_passes
    gosamba.Sessions.Setup.admit_user gosamba.Sessions.Handler.exported_key
    gosamba.Sessions.Setup.session_flags gosamba.Sessions.Handler.folded
    gosamba.Ntlm.Response.verify_ntlmv2 gosamba.Ntlm.Response.nt_proof
    gosamba.Ntlm.Response.mic_required gosamba.Ntlm.Response.msv_av_flags
logs_on = refl

handle_type3-accepts_example :
    (((handle_type3 handler 5 0 type3 [] started).1 ≡ accepted (session_flags handler) true)
      ↔ IsProven handler 5 type3 started)
    × (((handle_type3 handler 5 0 type3 [] started).1 ≡ accepted 1 false)
        ↔ IsGuest handler 5 type3 started)
handle_type3-accepts_example = handle_type3-accepts handler 5 0 type3 [] started

-- The session set up, with an open, and a message of nobody.
abbrev owned : Session
owned = record (new_session 5) {
  user_name = codes "a";
  authenticated = true;
  signing_key = replicate 16 9;
  opens = (replicate 16 1, record { identity = 11; file_id = replicate 16 1; tree = none }) ∷ [];
}

abbrev set_up : SetupState
set_up = record started {
  server = record {
    heap = (5, owned) ∷ [];
    hosts =
        (
          1,
          record {
            client_guid = replicate 16 2;
            sessions = record { by_id = (5, owned) ∷ []; half_open = [] };
          },
        )
        ∷ [];
    by_id = (5, 1) ∷ [];
    released = [];
  };
}

abbrev nobody : List ℕ
nobody = signature ++ (le32 3 ++ replicate 52 0)

taken_over : IsGuest handler 5 nobody set_up
unfolding gosamba.Sessions.Handler.session_at get? decode_authenticate gosamba.Ntlm.read_field
    gosamba.Ntlm.smallest_from gosamba.Ntlm.smallest_payload_offset gosamba.Ntlm.text_of
    gosamba.Ntlm.carries_mic gosamba.Ntlm.decode_fields gosamba.Wire.uint16 gosamba.Wire.uint32
    gosamba.Wire.slice gosamba.Sessions.Handler.find_user new_session
    gosamba.Sessions.Handler.has_guest_share
taken_over = record {
  session = owned;
  on_connection = refl;
  auth = message_of (bytes_of nobody);
  message = refl;
  unknown = refl;
  name = refl;
  share = refl;
}

abbrev policy : Policy
policy = record {
  require_encryption = true;
  require_signing = true;
  signing_algo = 0;
  primitives = record {
    hmac = λ k m. replicate 32 1;
    encrypt = λ k b. b;
    seal = λ k n a. replicate 16 2;
  };
}

-- A READ in the clear.
abbrev header : Header
header = record {
  credit_charge = 1;
  status = 0;
  command = 8;
  credit_response = 1;
  flags = 0;
  next_command = 0;
  message_id = 3;
  tree_id = 1;
  session_id = 5;
  signature = replicate 16 0;
}

handle_type3-guest-dispatch_gate_example :
    (session_at handler 5 (handle_type3 handler 5 0 nobody [] set_up).0.server
      ≡ some (as_guest (guest_system_user handler) owned))
    × (dispatch_gate policy
          (for_frame false)
          (session_at handler 5 (handle_type3 handler 5 0 nobody [] set_up).0.server)
          header
          (bytes_of [])
          (bytes_of [])
        ≡ resolve_related (for_frame false) header (bytes_of []))
unfolding new_session taken_over
handle_type3-guest-dispatch_gate_example =
    handle_type3-guest-dispatch_gate handler 5 nobody [] set_up taken_over policy (for_frame false)
      header (bytes_of []) (bytes_of [])
