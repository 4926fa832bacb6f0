-- ===== src/Sessions/Setup/Users.antt =====
-- The user of an AUTHENTICATE message, and the answer to it: handleType3 in
-- internal/parent/session.go.
use gosamba.Prelude.{
  ℕ, ◌≡◌, ◌≢◌, ◌↔◌, refl, sym, subst, inl, inr, Bool, true, false, ◌&&◌, ◌||◌, List, Option, none,
  some, arith, Bool-cases,
}
use gosamba.Prelude.Assoc.{put, nat_key}
use gosamba.Config.{UserConfig, is_empty}
use gosamba.Prelude.Text.{codes}
use gosamba.Ntlm.{AuthenticateMessage}
use gosamba.Sessions.{Session}
use gosamba.Sessions.Handler.{
  has_guest_share, or_guest, guest_system_user, Handshake, SetupState, SetupHandler, accepted,
  handshake_of, folded, exported_key, prove_user,
}
use gosamba.Sessions.Setup.{session_flags, admit_user, with_user}
use gosamba.Sessions.Setup.Proof.{ProvesPassword, HasMic, base_key, prove_user_iff}

admit_user_iff :
    (h : SetupHandler) (id prev_id : ℕ) (s : Session) (hs : Handshake) (user : UserConfig)
    (st : SetupState) (found : Option (List ℕ))
    → ((admit_user h id prev_id s hs user st found).1 ≡ accepted (session_flags h) true)
      ↔ ((key : List ℕ) × (found ≡ some key))
unfolding admit_user
admit_user_iff h id prev_id s hs user st none =
    (λ g. cc, λ r. let bad : ◌≡◌ {A = Option (List ℕ)} none (some r.0) = r.1 in cc)
admit_user_iff h id prev_id s hs user st (some key) = (λ g. (key, refl), λ r. refl)

admit_user-signed :
    (h : SetupHandler) (id prev_id : ℕ) (s : Session) (hs : Handshake) (user : UserConfig)
    (st : SetupState) (found : Option (List ℕ))
    → (admit_user h id prev_id s hs user st found).1 ≢ accepted 1 false
unfolding admit_user
admit_user-signed h id prev_id s hs user st none g = cc
admit_user-signed h id prev_id s hs user st (some key) g = cc

abbrev Proof : SetupHandler → Handshake → AuthenticateMessage → List ℕ → UserConfig → Type 0
Proof h hs auth type3 user =
    ProvesPassword h.library hs.challenge user auth
    × HasMic h.library hs auth type3 (exported_key auth (base_key h.library hs.challenge user auth))

found_user :
    {b c : Bool} {u v : UserConfig}
    → ◌≡◌ {A = Option (UserConfig × Bool)} (some (u, b)) (some (v, c))
    → u ≡ v
found_user e = cc

-- A user with the proof, behind the resolution of the name.
pub user_iff :
    (h : SetupHandler) (id prev_id : ℕ) (s : Session) (auth : AuthenticateMessage)
    (type3 request : List ℕ) (st : SetupState) (found : Option (UserConfig × Bool))
    → ((with_user h id prev_id s auth type3 request st found).1 ≡ accepted (session_flags h) true)
      ↔ ((user : UserConfig) × (found ≡ some (user, false))
          × ProvesPassword h.library (handshake_of id st).challenge user auth
          × HasMic h.library
              (handshake_of id st)
              auth
              type3
              (exported_key auth (base_key h.library (handshake_of id st).challenge user auth)))
user_iff h id prev_id s auth type3 request st none = (
  λ g. cc,
  λ r. let bad : ◌≡◌ {A = Option (UserConfig × Bool)} none (some (r.0, false)) = r.1 in cc,
)
user_iff h id prev_id s auth type3 request st (some (user, true)) = (
  λ g. cc,
  λ r.
      let bad : ◌≡◌ {A = Option (UserConfig × Bool)} (some (user, true)) (some (r.0, false)) =
        r.1 in
      cc,
)
user_iff h id prev_id s auth type3 request st (some (user, false)) =
    let old = handshake_of id st in
    let hs : Handshake = record old { preauth = some (folded h request old) } in
    let st' : SetupState = record st { handshakes = put id hs st.handshakes } in
    let a = admit_user_iff h id prev_id s hs user st' (prove_user h hs user auth type3) in
    (
      λ g.
          let (key, e) = a.0 g in
          let (p, m, k) = (prove_user_iff h hs user auth type3 key).0 e in (user, refl, p, m),
      λ r.
          let same : r.0 ≡ user = found_user (sym r.1) in
          let (p, m) = subst (Proof h old auth type3) same (r.2, r.3) in
          let key = exported_key auth (base_key h.library old.challenge user auth) in
          a.1 (key, (prove_user_iff h hs user auth type3 key).1 (p, m, refl)),
    )

pub guest_iff :
    (h : SetupHandler) (id prev_id : ℕ) (s : Session) (auth : AuthenticateMessage)
    (type3 request : List ℕ) (st : SetupState) (found : Option (UserConfig × Bool))
    → ((with_user h id prev_id s auth type3 request st found).1 ≡ accepted 1 false)
      ↔ ((user : UserConfig) × (found ≡ some (user, true)))
guest_iff h id prev_id s auth type3 request st none = (
  λ g. cc,
  λ r. let bad : ◌≡◌ {A = Option (UserConfig × Bool)} none (some (r.0, true)) = r.1 in cc,
)
guest_iff h id prev_id s auth type3 request st (some (user, true)) = (λ g. (user, refl), λ r. refl)
guest_iff h id prev_id s auth type3 request st (some (user, false)) =
    let old = handshake_of id st in
    let hs : Handshake = record old { preauth = some (folded h request old) } in
    let st' : SetupState = record st { handshakes = put id hs st.handshakes } in
    (
      λ g.
          absurd (admit_user-signed h id prev_id s hs user st' (prove_user h hs user auth type3) g),
      λ r.
          let bad : ◌≡◌ {A = Option (UserConfig × Bool)} (some (user, false)) (some (r.0, true)) =
            r.1 in
          cc,
    )

pub resolved_user :
    (h : SetupHandler) (name : List ℕ) (found : Option UserConfig) (user : UserConfig)
    → (or_guest h name found ≡ some (user, false)) ↔ (found ≡ some user)
resolved_user h name (some u) user = (λ e. cc, λ e. cc)
resolved_user h name none user =
    elim (Bool-cases
      ((is_empty name || h.equal_fold name (codes "GUEST")) && has_guest_share h.shares)) [
        | inl yes_ ↦ rw yes_ (λ e. cc, λ e. cc)
        | inr no_ ↦ rw no_ (λ e. cc, λ e. cc)
      ]

pub resolved_guest :
    (h : SetupHandler) (name : List ℕ) (found : Option UserConfig)
    → ((user : UserConfig) × (or_guest h name found ≡ some (user, true))) ↔ (
        (found ≡ none)
        × ((is_empty name || h.equal_fold name (codes "GUEST")) ≡ true)
        × (has_guest_share h.shares ≡ true))
resolved_guest h name (some u) = (λ r. let e = r.1 in cc, λ r. let e = r.0 in cc)
resolved_guest h name none =
    elim (Bool-cases
      ((is_empty name || h.equal_fold name (codes "GUEST")) && has_guest_share h.shares)) [
        | inl yes_ ↦
            rw yes_ (λ r. (refl, ground arith, ground arith), λ r. (guest_system_user h, refl))
        | inr no_ ↦ rw no_ (
          λ r. let e = r.1 in cc,
          λ r. let a = r.1 in let b = r.2 in absurd (ground (arith, a, b)),
        )
      ]
