-- ===== src/Sessions/Setup/Proof.antt =====
-- The proof of a user: verifyMIC and the keys of handleType3 in internal/parent/session.go.
use gosamba.Prelude.{
  ℕ, ◌≤◌, ◌≡◌, ◌≢◌, ◌↔◌, refl, sym, ap, inl, inr, true, false, ◌==◌, ltb, List, [], ◌∷◌, length,
  take, drop, Option, none, some, arith, Bool-cases,
}
use gosamba.Prelude.Assoc.{nat_key, same_bytes, same_bytes_iff}
use gosamba.Config.{UserConfig}
use gosamba.Connection.{bytes_of}
use gosamba.Ntlm.{AuthenticateMessage}
use gosamba.Ntlm.Response.{
  Library, nt_proof, ntowfv2, verify_ntlmv2, mic_required, verify_mic, authenticate_len,
}
use gosamba.Sessions.Handler.{
  Handshake, SetupHandler, exported_key, mic_passes, key_with_mic, prove_user,
}

-- The response proves the user's password over the server's challenge.
abbrev pub ProvesPassword : Library → List ℕ → UserConfig → AuthenticateMessage → Type 0
ProvesPassword lib challenge user auth =
    (24 ≤ length auth.nt_response)
    × (take 16 auth.nt_response
        ≡ nt_proof lib user.nt_hash auth.user_name auth.domain_name challenge
            (drop 16 auth.nt_response))

-- Where the response asserts a MIC, the message has one, and it is that of the handshake's messages
-- under the exported key.
abbrev pub HasMic : Library → Handshake → AuthenticateMessage → List ℕ → List ℕ → Type 0
HasMic lib hs auth type3 key =
    mic_required auth.nt_response ≡ true
    → (auth.has_mic ≡ true)
      × ((hs.negotiate_message ≢ []) × (hs.challenge_message ≢ []))
      × (verify_mic lib key hs.negotiate_message hs.challenge_message
            (take (authenticate_len (bytes_of type3)) type3) auth.mic
          ≡ true)

-- The session base key of the proof.
unfoldable pub base_key : Library → List ℕ → UserConfig → AuthenticateMessage → List ℕ
base_key lib challenge user auth =
    lib.hmac_md5 (ntowfv2 lib user.nt_hash auth.user_name auth.domain_name) (
      nt_proof lib user.nt_hash auth.user_name auth.domain_name challenge
        (drop 16 auth.nt_response))

some_inj : {x y : List ℕ} → ◌≡◌ {A = Option (List ℕ)} (some x) (some y) → x ≡ y
some_inj e = cc

verify_ntlmv2_iff :
    (lib : Library) (challenge : List ℕ) (user : UserConfig) (auth : AuthenticateMessage)
    (key : List ℕ)
    → (verify_ntlmv2 lib user.nt_hash auth.user_name auth.domain_name challenge auth.nt_response
        ≡ some key)
      ↔ (ProvesPassword lib challenge user auth × (key ≡ base_key lib challenge user auth))
unfolding verify_ntlmv2 base_key
verify_ntlmv2_iff lib challenge user auth key =
    let nt = auth.nt_response in
    let expected =
      nt_proof lib user.nt_hash auth.user_name auth.domain_name challenge (drop 16 nt) in
    let same = same_bytes_iff (take 16 nt) expected in
    elim (Bool-cases (ltb (length nt) 24)) [
      | inl short ↦ rw short (λ h. cc, λ r. let long = r.0.0 in absurd (ground arith))
      | inr long ↦ elim (Bool-cases (same_bytes (take 16 nt) expected)) [
        | inl e ↦
            rw (long, e) (λ h. ((ground arith, same.0 e), sym (some_inj h)), λ r. ap some (sym r.1))
        | inr d ↦ rw (long, d) (λ h. cc, λ r. let e = same.1 r.0.1 in cc)
      ]
    ]

nonempty_iff : (xs : List ℕ) → ((length xs == 0) ≡ false) ↔ (xs ≢ [])
nonempty_iff [] = (λ h. absurd (ground arith), λ h. absurd (h refl))
nonempty_iff (x ∷ xs) = (λ h e. cc, λ h. ground arith)

mic_passes_iff :
    (lib : Library) (hs : Handshake) (auth : AuthenticateMessage) (type3 key : List ℕ)
    → (mic_passes lib hs auth type3 key ≡ true) ↔ HasMic lib hs auth type3 key
unfolding mic_passes
mic_passes_iff lib hs auth type3 key =
    let n = nonempty_iff hs.negotiate_message in
    let c = nonempty_iff hs.challenge_message in
    elim (Bool-cases (mic_required auth.nt_response)) [
      | inr free ↦ rw free (λ h k. cc, λ m. refl)
      | inl asked ↦ rw asked (
        λ h k. (ground arith, (n.0 (ground arith), c.0 (ground arith)), ground arith),
        λ m.
            let (has, (neg, chal), ok) = m refl in
            let a = n.1 neg in let b = c.1 chal in ground (arith, has, a, b, ok),
      )
    ]

keyed_iff :
    (lib : Library) (hs : Handshake) (auth : AuthenticateMessage) (type3 base key : List ℕ)
    → (key_with_mic lib hs auth type3 (some base) ≡ some key)
      ↔ (HasMic lib hs auth type3 (exported_key auth base) × (key ≡ exported_key auth base))
keyed_iff lib hs auth type3 base key =
    let i = mic_passes_iff lib hs auth type3 (exported_key auth base) in
    elim (Bool-cases (mic_passes lib hs auth type3 (exported_key auth base))) [
      | inl ok ↦ rw ok (λ g. (i.0 ok, sym (some_inj g)), λ r. ap some (sym r.1))
      | inr bad ↦ rw bad (λ g. cc, λ r. let ok = i.1 r.0 in cc)
    ]

pub prove_user_iff :
    (h : SetupHandler) (hs : Handshake) (user : UserConfig) (auth : AuthenticateMessage)
    (type3 key : List ℕ)
    → (prove_user h hs user auth type3 ≡ some key) ↔ (
        ProvesPassword h.library hs.challenge user auth
        × HasMic h.library hs auth type3
            (exported_key auth (base_key h.library hs.challenge user auth))
        × (key ≡ exported_key auth (base_key h.library hs.challenge user auth)))
unfolding prove_user
prove_user_iff h hs user auth type3 key =
    at
      (verify_ntlmv2 h.library user.nt_hash auth.user_name auth.domain_name hs.challenge
        auth.nt_response)
      refl
  where
    at :
        (found : Option (List ℕ))
        → verify_ntlmv2 h.library user.nt_hash auth.user_name auth.domain_name hs.challenge
            auth.nt_response
          ≡ found
        → (key_with_mic h.library hs auth type3 found ≡ some key) ↔ (
            ProvesPassword h.library hs.challenge user auth
            × HasMic h.library hs auth type3
                (exported_key auth (base_key h.library hs.challenge user auth))
            × (key ≡ exported_key auth (base_key h.library hs.challenge user auth)))
    at none e = (
      λ g. cc,
      λ r.
          let there =
            (verify_ntlmv2_iff h.library hs.challenge user auth
                (base_key h.library hs.challenge user auth)).1
              (r.0, refl) in
          cc,
    )
    at (some sbk) e =
        let (proof, same) = (verify_ntlmv2_iff h.library hs.challenge user auth sbk).0 e in
        let base = base_key h.library hs.challenge user auth in
        let i = keyed_iff h.library hs auth type3 base key in
        rw same (λ g. (proof, (i.0 g).0, (i.0 g).1), λ r. i.1 (r.1, r.2))
