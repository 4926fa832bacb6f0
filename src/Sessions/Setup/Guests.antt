-- ===== src/Sessions/Setup/Guests.antt =====
-- What a guest's success leaves behind: handleType3 in internal/parent/session.go on a session that
-- may be set up already, and the checks of internal/parent/dispatch.go after it.
use gosamba.Prelude.{
  ℕ, ◌≡◌, refl, ap, ◌∙◌, inl, inr, ◌==◌, Bool-cases, true, List, Option, none, some, arith,
}
use gosamba.Prelude.Assoc.{Map, get?, put, get?-put, nat_key}
use gosamba.Wire.{Bytes}
use gosamba.Wire.Header.{Header}
use gosamba.Dispatch.{checked_sender, Policy, Chain, dispatch_gate, resolve_related}
use gosamba.Dispatch.Gate.{checked-passes}
use gosamba.Sessions.{Session}
use gosamba.Sessions.Table.{mark_authenticated}
use gosamba.Sessions.Index.{Host, Server, register, supersede}
use gosamba.Sessions.Handler.{
  SetupHandler, SetupState, or_guest, resolve_user, guest_system_user, known, session_on,
  session_at,
}
use gosamba.Sessions.Setup.{
  mark, establish, as_guest, with_user, with_message, with_session, handle_type3,
}
use gosamba.Sessions.Setup.Proven.{IsGuest}

get?-put_same : {V : Type 0} (k : ℕ) (v : V) (m : Map ℕ V) → get? k (put k v m) ≡ some v
get?-put_same k v m = ground (arith, get?-put k k v m)

known-put :
    (id : ℕ) (s s' : Session) (entry : Option Session) (heap : Map ℕ Session)
    → known entry (get? id heap) ≡ some s
    → known entry (get? id (put id s' heap)) ≡ some s'
known-put id s s' none heap k = cc
known-put id s s' (some entry) heap k = get?-put_same id s' heap

-- The session stays on the connection, as the one that is set up.
marked-finds :
    (host id : ℕ) (s s' : Session) (found : Option Host) (hosts : Map ℕ Host) (heap : Map ℕ Session)
    → session_on id found heap ≡ some s
    → get? host hosts ≡ found
    → session_on id (get? host (mark host id (get? host hosts) hosts)) (put id s' heap) ≡ some s'
unfolding mark_authenticated
marked-finds host id s s' none hosts heap there e =
    absurd (let bad : ◌≡◌ {A = Option Session} none (some s) = there in cc)
marked-finds host id s s' (some t) hosts heap there e =
    let marked : Host = record t { sessions = mark_authenticated id t.sessions } in
    let at = get?-put_same host marked hosts in
    rw (e, at) (known-put id s s' (get? id t.sessions.by_id) heap there)

establish-finds :
    (h : SetupHandler) (id : ℕ) (s s' : Session) (v : Server)
    → session_at h id v ≡ some s
    → session_at h id (establish h id 0 s' v) ≡ some s'
unfolding session_at establish register supersede
establish-finds h id s s' v there =
    let found = marked-finds h.host id s s' (get? h.host v.hosts) v.hosts v.heap there refl in
    elim (Bool-cases (id == 0)) [ inl none_ ↦ rw none_ found | inr some_ ↦ rw some_ found ]

guest-passes :
    (p : Policy) (c : Chain) (s : Session) (hdr : Header) (body frame : Bytes)
    → s.authenticated ≡ true
    → s.is_guest ≡ true
    → dispatch_gate p c (some s) hdr body frame ≡ resolve_related c hdr body
unfolding dispatch_gate checked_sender
guest-passes p c s hdr body frame known_ guest = rw known_ (
    checked-passes p c s hdr frame (resolve_related c hdr body)
      (λ keys. absurd (ground (arith, keys.0))))

guest-finds :
    (h : SetupHandler) (id : ℕ) (type3 request : List ℕ) (st : SetupState)
    (g : IsGuest h id type3 st)
    → session_at h id (handle_type3 h id 0 type3 request st).0.server
      ≡ some (as_guest (guest_system_user h) g.session)
unfolding handle_type3 resolve_user
guest-finds h id type3 request st g =
    let auth = g.auth in
    let name = auth.user_name in
    let guest : or_guest h name none ≡ some (guest_system_user h, true) =
      rw (g.name, g.share) refl in
    let e : with_session h id 0 type3 request st (session_at h id st.server)
        ≡ with_user h id 0 g.session auth type3 request st (some (guest_system_user h, true)) =
      ap (with_session h id 0 type3 request st) g.on_connection
      ∙ (ap (with_message h id 0 g.session type3 request st) g.message
          ∙ (ap (λ u. with_user h id 0 g.session auth type3 request st (or_guest h name u))
                g.unknown
              ∙ ap (with_user h id 0 g.session auth type3 request st) guest)) in
    ap (λ r. session_at h id r.0.server) e
    ∙ establish-finds h id g.session (as_guest (guest_system_user h) g.session) st.server
        g.on_connection

-- Where the last leg of SESSION_SETUP takes its sender for a guest, without a previous session to
-- close, the session of the header's id is on the connection as a guest's with its opens, and every
-- later message on it goes on to its chain, whatever the policy asks of its encryption and signature
-- and whoever had set the session up before.
pub handle_type3-guest-dispatch_gate :
    (h : SetupHandler) (id : ℕ) (type3 request : List ℕ) (st : SetupState)
    (g : IsGuest h id type3 st) (p : Policy) (c : Chain) (hdr : Header) (body frame : Bytes)
    → (session_at h id (handle_type3 h id 0 type3 request st).0.server
        ≡ some (as_guest (guest_system_user h) g.session))
      × (dispatch_gate p c
            (session_at h id (handle_type3 h id 0 type3 request st).0.server)
            hdr
            body
            frame
          ≡ resolve_related c hdr body)
handle_type3-guest-dispatch_gate h id type3 request st g p c hdr body frame =
    let at = guest-finds h id type3 request st g in
    (
      at,
      ap (λ found. dispatch_gate p c found hdr body frame) at
          ∙ guest-passes p c (as_guest (guest_system_user h) g.session) hdr body frame refl refl,
    )
