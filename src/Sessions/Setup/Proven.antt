-- ===== src/Sessions/Setup/Proven.antt =====
-- Who is set up by handleType3 in internal/parent/session.go, and with what proof.
use gosamba.Prelude.{
  ℕ, ◌≡◌, ◌↔◌, refl, subst, inl, inr, true, false, ◌||◌, List, Option, none, some,
}
use gosamba.Prelude.Assoc.{nat_key}
use gosamba.Config.{UserConfig, is_empty}
use gosamba.Prelude.Text.{codes}
use gosamba.Connection.{bytes_of}
use gosamba.Ntlm.{AuthenticateMessage, Parsed, decode_authenticate}
use gosamba.Sessions.{Session}
use gosamba.Sessions.Handler.{
  find_user, has_guest_share, or_guest, SetupState, SetupHandler, accepted, resolve_user,
  session_at, handshake_of, exported_key,
}
use gosamba.Sessions.Setup.{session_flags, with_message, with_session, handle_type3}
use gosamba.Sessions.Setup.Proof.{ProvesPassword, HasMic, base_key}
use gosamba.Sessions.Setup.Users.{user_iff, guest_iff, resolved_user, resolved_guest}

-- The session of the header's id, a message that decodes, and its user with the proof.
pub record IsProven (h : SetupHandler) (id : ℕ) (type3 : List ℕ) (st : SetupState) : Type 0 where
  pub session : Session
  pub on_connection : session_at h id st.server ≡ some session
  pub auth : AuthenticateMessage
  pub message : decode_authenticate (bytes_of type3) ≡ inr auth
  pub user : UserConfig
  pub configured : find_user h.equal_fold h.users auth.user_name ≡ some user
  pub password : ProvesPassword h.library (handshake_of id st).challenge user auth
  pub mic :
      HasMic h.library
        (handshake_of id st)
        auth
        type3
        (exported_key auth (base_key h.library (handshake_of id st).challenge user auth))

-- The session of the header's id, a message that decodes without a configured user, whose name is
-- empty or GUEST, and a share for guests.
pub record IsGuest (h : SetupHandler) (id : ℕ) (type3 : List ℕ) (st : SetupState) : Type 0 where
  pub session : Session
  pub on_connection : session_at h id st.server ≡ some session
  pub auth : AuthenticateMessage
  pub message : decode_authenticate (bytes_of type3) ≡ inr auth
  pub unknown : find_user h.equal_fold h.users auth.user_name ≡ none
  pub name : (is_empty auth.user_name || h.equal_fold auth.user_name (codes "GUEST")) ≡ true
  pub share : has_guest_share h.shares ≡ true

same_message :
    {m : Parsed AuthenticateMessage} {a b : AuthenticateMessage}
    → ◌≡◌ {A = Parsed AuthenticateMessage} m (inr a)
    → ◌≡◌ {A = Parsed AuthenticateMessage} m (inr b)
    → a ≡ b
same_message e f = cc

-- What the two records say of the message that decodes.
proven_for :
    (h : SetupHandler) (id : ℕ) (type3 : List ℕ) (st : SetupState) (auth : AuthenticateMessage)
    → decode_authenticate (bytes_of type3) ≡ inr auth
    → IsProven h id type3 st
    → (user : UserConfig) × (or_guest h auth.user_name
          (find_user h.equal_fold h.users auth.user_name)
        ≡ some (user, false))
      × ProvesPassword h.library (handshake_of id st).challenge user auth
      × HasMic h.library
          (handshake_of id st)
          auth
          type3
          (exported_key auth (base_key h.library (handshake_of id st).challenge user auth))
proven_for h id type3 st auth f p = subst For (same_message p.message f) whole
  where
    For : AuthenticateMessage → Type 0
    For auth =
        (user : UserConfig) × (or_guest h auth.user_name
            (find_user h.equal_fold h.users auth.user_name)
          ≡ some (user, false))
        × ProvesPassword h.library (handshake_of id st).challenge user auth
        × HasMic h.library (handshake_of id st) auth type3
            (exported_key auth (base_key h.library (handshake_of id st).challenge user auth))

    whole : For p.auth
    whole = (
      p.user,
      (resolved_user h p.auth.user_name (find_user h.equal_fold h.users p.auth.user_name) p.user).1
          p.configured,
      p.password,
      p.mic,
    )

guest_for :
    (h : SetupHandler) (id : ℕ) (type3 : List ℕ) (st : SetupState) (auth : AuthenticateMessage)
    → decode_authenticate (bytes_of type3) ≡ inr auth
    → IsGuest h id type3 st
    → (find_user h.equal_fold h.users auth.user_name ≡ none)
      × ((is_empty auth.user_name || h.equal_fold auth.user_name (codes "GUEST")) ≡ true)
      × (has_guest_share h.shares ≡ true)
guest_for h id type3 st auth f p = subst For (same_message p.message f) (p.unknown, p.name, p.share)
  where
    For : AuthenticateMessage → Type 0
    For auth =
        (find_user h.equal_fold h.users auth.user_name ≡ none)
        × ((is_empty auth.user_name || h.equal_fold auth.user_name (codes "GUEST")) ≡ true)
        × (has_guest_share h.shares ≡ true)

decoded :
    (h : SetupHandler) (id prev_id : ℕ) (s : Session) (type3 request : List ℕ) (st : SetupState)
    (m : Parsed AuthenticateMessage)
    → session_at h id st.server ≡ some s
    → decode_authenticate (bytes_of type3) ≡ m
    → (((with_message h id prev_id s type3 request st m).1 ≡ accepted (session_flags h) true)
        ↔ IsProven h id type3 st)
      × (((with_message h id prev_id s type3 request st m).1 ≡ accepted 1 false)
          ↔ IsGuest h id type3 st)
unfolding resolve_user
decoded h id prev_id s type3 request st (inl err) e f =
    ((λ g. cc, λ p. let c = p.message in cc), (λ g. cc, λ p. let c = p.message in cc))
decoded h id prev_id s type3 request st (inr auth) e f =
    let found = find_user h.equal_fold h.users auth.user_name in
    let u = user_iff h id prev_id s auth type3 request st (or_guest h auth.user_name found) in
    let v = guest_iff h id prev_id s auth type3 request st (or_guest h auth.user_name found) in
    let r = resolved_guest h auth.user_name found in
    (
      (
        λ g.
            let (user, named, password, mic) = u.0 g in
            record {
              session = s;
              on_connection = e;
              auth = auth;
              message = f;
              user = user;
              configured = (resolved_user h auth.user_name found user).0 named;
              password = password;
              mic = mic;
            },
        λ p. u.1 (proven_for h id type3 st auth f p),
      ),
      (
        λ g.
            let (unknown, name, share) = r.0 (v.0 g) in
            record {
              session = s;
              on_connection = e;
              auth = auth;
              message = f;
              unknown = unknown;
              name = name;
              share = share;
            },
        λ p. v.1 (r.1 (guest_for h id type3 st auth f p)),
      ),
    )

-- The AUTHENTICATE leg answers with a signed success exactly if its session is on the connection, the
-- message decodes, its name is that of a configured user, the response proves the user's password
-- over the challenge of the session, and its MIC is right where it asserts one. It answers with the
-- success of a guest exactly if there is no such user, the name is empty or GUEST and some share is
-- for guests.
pub handle_type3-accepts :
    (h : SetupHandler) (id prev_id : ℕ) (type3 request : List ℕ) (st : SetupState)
    → (((handle_type3 h id prev_id type3 request st).1 ≡ accepted (session_flags h) true)
        ↔ IsProven h id type3 st)
      × (((handle_type3 h id prev_id type3 request st).1 ≡ accepted 1 false)
          ↔ IsGuest h id type3 st)
unfolding handle_type3
handle_type3-accepts h id prev_id type3 request st = at (session_at h id st.server) refl
  where
    at :
        (found : Option Session)
        → session_at h id st.server ≡ found
        → (((with_session h id prev_id type3 request st found).1 ≡ accepted (session_flags h) true)
            ↔ IsProven h id type3 st)
          × (((with_session h id prev_id type3 request st found).1 ≡ accepted 1 false)
              ↔ IsGuest h id type3 st)
    at none e = (
      (λ g. cc, λ p. let c = p.on_connection in cc),
      (λ g. cc, λ p. let c = p.on_connection in cc),
    )
    at (some s) e =
        decoded h id prev_id s type3 request st (decode_authenticate (bytes_of type3)) e refl
