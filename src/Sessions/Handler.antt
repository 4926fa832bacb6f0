-- ===== src/Sessions/Handler.antt =====
-- What handleType3 of internal/parent/session.go reads and decides before it sets a session up: the
-- handler, the handshake of a session, the user and the proof.
use gosamba.Prelude.{
  ℕ, Bool, true, false, not, ◌&&◌, ◌||◌, ◌==◌, if◌then◌else◌, List, [], ◌∷◌, length, take,
  replicate, bit_and, Option, none, some,
}
use gosamba.Prelude.Assoc.{Map, get?, nat_key}
use gosamba.Prelude.Text.{codes}
use gosamba.Config.{UserConfig, ShareConfig, is_empty}
use gosamba.Connection.{bytes_of}
use gosamba.Crypto.Kdf.{new_preauth_hash, update}
use gosamba.Crypto.Rc4.{rc4xor}
use gosamba.Negotiate.{dialect311}
use gosamba.Ntlm.{AuthenticateMessage, negotiate_key_exch}
use gosamba.Ntlm.Response.{Library, verify_ntlmv2, mic_required, verify_mic, authenticate_len}
use gosamba.Sessions.{Session}
use gosamba.Sessions.Index.{Host, Server}

-- What a Session keeps for its handshake, and the keys that dispatching does not read.
pub record Handshake : Type 0 where
  pub challenge : List ℕ
  pub negotiate_message : List ℕ
  pub challenge_message : List ℕ
  pub preauth : Option (List ℕ)
  pub s2c_cipher_key : List ℕ
  pub c2s_cipher_key : List ℕ
  pub application_key : List ℕ

abbrev pub no_handshake : Handshake
no_handshake = record {
  challenge = replicate 8 0;
  negotiate_message = [];
  challenge_message = [];
  preauth = none;
  s2c_cipher_key = [];
  c2s_cipher_key = [];
  application_key = [];
}

-- The server, and the handshakes of its sessions by their ids.
pub record SetupState : Type 0 where
  pub server : Server
  pub handshakes : Map ℕ Handshake

-- `SessionSetupHandler` with what it reads of its connection, and the library: strings.EqualFold, the
-- hashes, and the ids of the user `nobody`.
pub record SetupHandler : Type 0 where
  pub host : ℕ
  pub client_guid : List ℕ
  pub dialect : ℕ
  pub cipher : ℕ
  pub preauth : Option (List ℕ)
  pub users : List UserConfig
  pub shares : List ShareConfig
  pub require_encryption : Bool
  pub equal_fold : List ℕ → List ℕ → Bool
  pub library : Library
  pub hmac_sha256 : List ℕ → List ℕ → List ℕ
  pub sha512 : List ℕ → List ℕ
  pub nobody : Option (ℕ × ℕ)

-- An error that ends the connection, a LOGON_FAILURE, or a success with its session flags, signed
-- or not.
pub data SetupAnswer : Type 0 where
  drops logon_failure : SetupAnswer
  accepted : ℕ → Bool → SetupAnswer

unfoldable pub find_user : (List ℕ → List ℕ → Bool) → List UserConfig → List ℕ → Option UserConfig
find_user equal_fold [] name = none
find_user equal_fold (u ∷ users) name =
    let rest = find_user equal_fold users name in if equal_fold u.name name then some u else rest

unfoldable pub has_guest_share : List ShareConfig → Bool
has_guest_share [] = false
has_guest_share (s ∷ shares) = s.guest_ok || has_guest_share shares

abbrev pub ids_or : Option (ℕ × ℕ) → ℕ × ℕ
ids_or none = (65534, 65534)
ids_or (some ids) = ids

unfoldable pub guest_system_user : SetupHandler → UserConfig
guest_system_user h = record {
  name = codes "guest";
  nt_hash = replicate 16 0;
  system_user = codes "nobody";
  system_uid = (ids_or h.nobody).0;
  system_gid = (ids_or h.nobody).1;
  allow_shares = codes "*" ∷ [];
}

abbrev pub or_guest : SetupHandler → List ℕ → Option UserConfig → Option (UserConfig × Bool)
or_guest h name (some u) = some (u, false)
or_guest h name none =
    if (is_empty name || h.equal_fold name (codes "GUEST")) && has_guest_share h.shares
    then some (guest_system_user h, true)
    else none

unfoldable pub resolve_user : SetupHandler → List ℕ → Option (UserConfig × Bool)
resolve_user h name = or_guest h name (find_user h.equal_fold h.users name)

-- The session of an id on the handler's connection.
abbrev pub known : Option Session → Option Session → Option Session
known none found = none
known (some entry) found = found

abbrev pub session_on : ℕ → Option Host → Map ℕ Session → Option Session
session_on id none heap = none
session_on id (some host) heap = known (get? id host.sessions.by_id) (get? id heap)

unfoldable pub session_at : SetupHandler → ℕ → Server → Option Session
session_at h id v = session_on id (get? h.host v.hosts) v.heap

abbrev pub or_new : Option Handshake → Handshake
or_new none = no_handshake
or_new (some hs) = hs

unfoldable pub handshake_of : ℕ → SetupState → Handshake
handshake_of id st = or_new (get? id st.handshakes)

unfoldable pub fork_preauth : Option (List ℕ) → List ℕ
fork_preauth none = new_preauth_hash
fork_preauth (some base) = base

abbrev pub forked : Option (List ℕ) → Option (List ℕ) → List ℕ
forked base none = fork_preauth base
forked base (some state) = state

-- The request joins the chain under 3.1.1 alone.
unfoldable pub folded : SetupHandler → List ℕ → Handshake → List ℕ
folded h request hs =
    let state = forked h.preauth hs.preauth in
    if h.dialect == dialect311 then update h.sha512 request state else state

unfoldable pub exported_key : AuthenticateMessage → List ℕ → List ℕ
exported_key auth sbk =
    if not (bit_and auth.flags negotiate_key_exch == 0)
      && length auth.encrypted_random_session_key == 16
    then rc4xor sbk auth.encrypted_random_session_key
    else sbk

-- `verifyMIC`, whether it passes.
unfoldable pub mic_passes : Library → Handshake → AuthenticateMessage → List ℕ → List ℕ → Bool
mic_passes lib hs auth type3 key =
    if not (mic_required auth.nt_response)
    then true
    else if not auth.has_mic
    then false
    else if length hs.negotiate_message == 0 || length hs.challenge_message == 0
    then false
    else verify_mic lib key hs.negotiate_message hs.challenge_message
        (take (authenticate_len (bytes_of type3)) type3) auth.mic

abbrev pub key_with_mic :
    Library → Handshake → AuthenticateMessage → List ℕ → Option (List ℕ) → Option (List ℕ)
key_with_mic lib hs auth type3 none = none
key_with_mic lib hs auth type3 (some sbk) =
    let key = exported_key auth sbk in if mic_passes lib hs auth type3 key then some key else none

-- The session key of a user who proves the password.
unfoldable pub prove_user :
    SetupHandler → Handshake → UserConfig → AuthenticateMessage → List ℕ → Option (List ℕ)
prove_user h hs user auth type3 = key_with_mic h.library hs auth type3 (
    verify_ntlmv2 h.library user.nt_hash auth.user_name auth.domain_name hs.challenge
      auth.nt_response)
