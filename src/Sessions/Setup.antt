-- ===== src/Sessions/Setup.antt =====
-- The last leg of SESSION_SETUP in internal/parent/session.go: handleType3, which checks an NTLM
-- AUTHENTICATE message and sets the session up. The response is given by its status and flags.
pub mod Proof
pub mod Users
pub mod Proven
pub mod Guests
pub mod Found
use gosamba.Prelude.{
  ℕ, zero, suc, ◌+◌, Bool, true, false, not, ◌&&◌, ◌||◌, ◌==◌, if◌then◌else◌, List, [], ◌∷◌, ◌++◌,
  length, take, replicate, bit_and, Option, none, some, ◌⊎◌, inl, inr,
}
use gosamba.Prelude.Assoc.{Map, get?, put, nat_key, or_nil}
use gosamba.Prelude.Text.{codes}
use gosamba.Config.{UserConfig, ShareConfig, is_empty}
use gosamba.Connection.{bytes_of}
use gosamba.Crypto.Kdf.{kdf, new_preauth_hash, update}
use gosamba.Crypto.Rc4.{rc4xor}
use gosamba.Crypto.Transform.{cipher_key_bits}
use gosamba.Negotiate.{dialect300, dialect302, dialect311}
use gosamba.Ntlm.{AuthenticateMessage, Parsed, decode_authenticate, negotiate_key_exch}
use gosamba.Ntlm.Response.{Library, verify_ntlmv2, mic_required, verify_mic, authenticate_len}
use gosamba.Sessions.{Session}
use gosamba.Sessions.Table.{mark_authenticated}
use gosamba.Sessions.Index.{Host, Server, register, supersede}
use gosamba.Sessions.Handler.{
  Handshake, no_handshake, SetupState, SetupHandler, SetupAnswer, find_user, has_guest_share,
  ids_or, guest_system_user, or_guest, resolve_user, known, session_on, session_at, or_new,
  handshake_of, fork_preauth, forked, folded, exported_key, mic_passes, key_with_mic, prove_user,
  drops, logon_failure, accepted,
}

-- `smb3.KDF`, which ends at these lengths.
abbrev pub derived : SetupHandler → List ℕ → List ℕ → List ℕ → ℕ → List ℕ
derived h key label context bits = or_nil (kdf h.hmac_sha256 key label context bits)

-- A label or a context with its final zero.
abbrev pub zero_ended : List ℕ → List ℕ
zero_ended s = s ++ (0 ∷ [])

unfoldable pub signing_key_of : SetupHandler → List ℕ → List ℕ → List ℕ
signing_key_of h preauth key =
    if h.dialect == dialect311
    then derived h key (zero_ended (codes "SMBSigningKey")) preauth 128
    else if h.dialect == dialect300 || h.dialect == dialect302
    then derived h key (zero_ended (codes "SMB2AESCMAC")) (zero_ended (codes "SmbSign")) 128
    else key

-- The keys of the older dialects stay as they were.
unfoldable pub with_keys : SetupHandler → List ℕ → List ℕ → Handshake → Handshake
with_keys h preauth key hs =
    let bits = cipher_key_bits h.cipher in
    if h.dialect == dialect311
    then record hs {
      s2c_cipher_key = derived h key (zero_ended (codes "SMBS2CCipherKey")) preauth bits;
      c2s_cipher_key = derived h key (zero_ended (codes "SMBC2SCipherKey")) preauth bits;
      application_key = derived h key (zero_ended (codes "SMBAppKey")) preauth 128;
    }
    else if h.dialect == dialect300 || h.dialect == dialect302
    then record hs {
      s2c_cipher_key =
          derived h key (zero_ended (codes "SMB2AESCCM")) (zero_ended (codes "ServerOut")) 128;
      c2s_cipher_key =
          derived h key (zero_ended (codes "SMB2AESCCM")) (zero_ended (codes "ServerIn ")) 128;
      application_key =
          derived h key (zero_ended (codes "SMB2APP")) (zero_ended (codes "SmbRpc")) 128;
    }
    else hs

abbrev pub mark : ℕ → ℕ → Option Host → Map ℕ Host → Map ℕ Host
mark host id none hosts = hosts
mark host id (some t) hosts =
    put host (record t { sessions = mark_authenticated id t.sessions }) hosts

-- The session is set up and registered, and the one that it replaces is closed.
unfoldable pub establish : SetupHandler → ℕ → ℕ → Session → Server → Server
establish h id prev_id s v =
    let v = record v {
      heap = put id s v.heap;
      hosts = mark h.host id (get? h.host v.hosts) v.hosts;
    } in
    (supersede h.equal_fold prev_id s h.client_guid (register id h.host v)).0

abbrev pub settled : Handshake → Handshake
settled hs = record hs { negotiate_message = []; challenge_message = [] }

unfoldable pub session_flags : SetupHandler → ℕ
session_flags h = if h.require_encryption && not (h.cipher == 0) then 4 else 0

abbrev pub as_guest : UserConfig → Session → Session
as_guest user s = record s { user_name = user.name; is_guest = true; authenticated = true }

abbrev pub as_user : UserConfig → List ℕ → Session → Session
as_user user key s = record s {
  user_name = user.name;
  is_guest = false;
  authenticated = true;
  signing_key = key;
}

-- Behind the fold of the request.
unfoldable pub admit_user :
    SetupHandler
    → ℕ
    → ℕ
    → Session
    → Handshake
    → UserConfig
    → SetupState
    → Option (List ℕ)
    → SetupState × SetupAnswer
admit_user h id prev_id s hs user st none = (st, logon_failure)
admit_user h id prev_id s hs user st (some key) =
    let preauth = forked none hs.preauth in
    (
      record {
        server = establish h id prev_id (as_user user (signing_key_of h preauth key) s) st.server;
        handshakes = put id (settled (with_keys h preauth key hs)) st.handshakes;
      },
      accepted (session_flags h) true,
    )

abbrev pub with_user :
    SetupHandler
    → ℕ
    → ℕ
    → Session
    → AuthenticateMessage
    → List ℕ
    → List ℕ
    → SetupState
    → Option (UserConfig × Bool)
    → SetupState × SetupAnswer
with_user h id prev_id s auth type3 request st none = (st, logon_failure)
with_user h id prev_id s auth type3 request st (some (user, guest)) =
    let old = handshake_of id st in
    let hs = record old { preauth = some (folded h request old) } in
    let st = record st { handshakes = put id hs st.handshakes } in
    if guest
    then (
      record {
        server = establish h id prev_id (as_guest user s) st.server;
        handshakes = put id (settled hs) st.handshakes;
      },
      accepted 1 false,
    )
    else admit_user h id prev_id s hs user st (prove_user h hs user auth type3)

abbrev pub with_message :
    SetupHandler
    → ℕ
    → ℕ
    → Session
    → List ℕ
    → List ℕ
    → SetupState
    → Parsed AuthenticateMessage
    → SetupState × SetupAnswer
with_message h id prev_id s type3 request st (inl e) = (st, drops)
with_message h id prev_id s type3 request st (inr auth) =
    with_user h id prev_id s auth type3 request st (resolve_user h auth.user_name)

abbrev pub with_session :
    SetupHandler → ℕ → ℕ → List ℕ → List ℕ → SetupState → Option Session → SetupState × SetupAnswer
with_session h id prev_id type3 request st none = (st, drops)
with_session h id prev_id type3 request st (some s) =
    with_message h id prev_id s type3 request st (decode_authenticate (bytes_of type3))

-- `handleType3` for the session id of the header.
unfoldable pub handle_type3 :
    SetupHandler → ℕ → ℕ → List ℕ → List ℕ → SetupState → SetupState × SetupAnswer
handle_type3 h id prev_id type3 request st =
    with_session h id prev_id type3 request st (session_at h id st.server)
