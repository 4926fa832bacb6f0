-- ===== src/Dispatch/Gate.antt =====
-- What the sender of a message has shown before a handler runs.
use gosamba.Prelude.{
  ℕ, ◌≡◌, ◌≢◌, ◌↔◌, All, [], ◌∷◌, refl, inl, inr, true, false, not, ◌&&◌, ◌||◌, ltb, ◌<◌,
  if◌then◌else◌, length, Option, none, some, arith, Bool-cases, subst, sym, ap, ◌∙◌,
}
use gosamba.Wire.{Bytes}
use gosamba.Wire.Header.{Header}
use gosamba.Crypto.Sign.{verify_message}
use gosamba.Sessions.{Session}
use gosamba.Dispatch.{
  Policy, Chain, Verdict, refuses, runs, has_flag, flag_signed, encryption_exempt, checked_sender,
  dispatch_gate, resolve_related,
}

-- A session with keys: guests have none.
abbrev pub HasKeys : Session → Type 0
HasKeys s = (s.is_guest ≡ false) × (0 < length s.signing_key)

-- None of LOGOFF, TREE_CONNECT, TREE_DISCONNECT, CANCEL, ECHO and OPLOCK_BREAK, which may come in the
-- clear.
abbrev pub NeedsEncryption : ℕ → Type 0
NeedsEncryption cmd = All (λ n. cmd ≢ n) (2 ∷ 3 ∷ 4 ∷ 12 ∷ 13 ∷ 18 ∷ [])

encryption_exempt_iff : (cmd : ℕ) → (encryption_exempt cmd ≡ false) ↔ NeedsEncryption cmd
unfolding encryption_exempt
encryption_exempt_iff cmd = (
  λ h. (
    ground arith,
    (ground arith, (ground arith, (ground arith, (ground arith, (ground arith, tt))))),
  ),
  λ w. let (a, (b, (c, (d, (e, (f, end)))))) = w in ground (arith, a, b, c, d, e, f),
)

-- What the policy asks of a message on a session with keys.
pub record Meets (p : Policy) (c : Chain) (s : Session) (hdr : Header) (frame : Bytes)
    : Type 0 where
  pub encrypted : p.require_encryption ≡ true → NeedsEncryption hdr.command → c.encrypt_chain ≡ true
  pub signed :
      c.encrypt_chain ≡ false
      → (p.require_signing || has_flag hdr.flags flag_signed) ≡ true
      → (has_flag hdr.flags flag_signed ≡ true)
        × (verify_message p.primitives p.signing_algo s.signing_key frame ≡ true)

-- The session and the sender are as the policy wants them.
pub record Trusted (p : Policy) (c : Chain) (found : Option Session) (hdr : Header) (frame : Bytes)
    : Type 0 where
  pub session : Session
  pub on_connection : found ≡ some session
  pub authenticated : session.authenticated ≡ true
  pub meets : HasKeys session → Meets p c session hdr frame

-- The verdict is that of the chain, or a refusal.
abbrev IsRun : Verdict → Type 0
IsRun (refuses s k) = ⊥
IsRun (runs c b) = Unit

checked-Meets :
    (p : Policy) (c : Chain) (s : Session) (hdr : Header) (frame : Bytes) (rest : Verdict)
    → IsRun (checked_sender p c s hdr frame rest)
    → HasKeys s
    → Meets p c s hdr frame
unfolding checked_sender
checked-Meets p c s hdr frame rest h keys =
    let pos = keys.1 in
    record {
      encrypted = λ r x.
          let needs = (encryption_exempt_iff hdr.command).1 x in ground (arith, keys.0, needs);
      signed = λ clear r. (ground (arith, keys.0), ground (arith, keys.0));
    }

pub checked-passes :
    (p : Policy) (c : Chain) (s : Session) (hdr : Header) (frame : Bytes) (rest : Verdict)
    → (HasKeys s → Meets p c s hdr frame)
    → checked_sender p c s hdr frame rest ≡ rest
unfolding checked_sender
checked-passes p c s hdr frame rest m =
    elim (Bool-cases (not s.is_guest && ltb 0 (length s.signing_key))) [
      | inr plain ↦ rw plain refl
      | inl keyed ↦
          let meets = m (ground arith, ground arith) in
          let g = meets.signed in
          let e : p.require_encryption ≡ true
              → encryption_exempt hdr.command ≡ false
              → c.encrypt_chain ≡ true =
            λ r x. meets.encrypted r ((encryption_exempt_iff hdr.command).0 x) in
          ground (arith, e, g)
    ]

checked-rest :
    (p : Policy) (c : Chain) (s : Session) (hdr : Header) (frame : Bytes) (rest : Verdict)
    → IsRun (checked_sender p c s hdr frame rest)
    → checked_sender p c s hdr frame rest ≡ rest
unfolding checked_sender
checked-rest p c s hdr frame rest h = ground arith

-- A handler runs exactly if the session is on the connection and authenticated, its message, where
-- the session has keys, is encrypted if the policy asks for that and the command is not exempt, and
-- is signed with a signature that verifies if it came in the clear and the policy asks for one or it
-- claims one, and its chain does not make it inherit a failure. Every other message is refused.
pub dispatch_gate-runs_iff :
    (p : Policy) (c : Chain) (found : Option Session) (hdr : Header) (body frame : Bytes)
    (c' : Chain) (body' : Bytes)
    → (dispatch_gate p c found hdr body frame ≡ runs c' body')
      ↔ (Trusted p c found hdr frame × (resolve_related c hdr body ≡ runs c' body'))
unfolding dispatch_gate
dispatch_gate-runs_iff p c none hdr body frame c' body' =
    (λ h. absurd (ground arith), λ t. absurd (ground (arith, t.0.on_connection)))
dispatch_gate-runs_iff p c (some s) hdr body frame c' body' = (there, back)
  where
    there :
        (if not s.authenticated
            then refuses 0xC0000022 false
            else checked_sender p c s hdr frame (resolve_related c hdr body))
          ≡ runs c' body'
        → Trusted p c (some s) hdr frame × (resolve_related c hdr body ≡ runs c' body')
    there h =
        let known : s.authenticated ≡ true = ground arith in
        let ran : checked_sender p c s hdr frame (resolve_related c hdr body) ≡ runs c' body' =
          ground arith in
        let run : IsRun (checked_sender p c s hdr frame (resolve_related c hdr body)) = rw ran tt in
        (
          record {
            session = s;
            on_connection = refl;
            authenticated = known;
            meets = checked-Meets p c s hdr frame (resolve_related c hdr body) run;
          },
          sym (checked-rest p c s hdr frame (resolve_related c hdr body) run) ∙ ran,
        )

    back :
        Trusted p c (some s) hdr frame × (resolve_related c hdr body ≡ runs c' body')
        → (if not s.authenticated
            then refuses 0xC0000022 false
            else checked_sender p c s hdr frame (resolve_related c hdr body))
          ≡ runs c' body'
    back (t, e) =
        let same : t.session ≡ s = ground (arith, t.on_connection) in
        let known : s.authenticated ≡ true = rw same at t.authenticated in
        let m : HasKeys s → Meets p c s hdr frame =
          subst (λ x. HasKeys x → Meets p c x hdr frame) same t.meets in
        let v = resolve_related c hdr body in
        ap (λ b. if not b then refuses 0xC0000022 false else checked_sender p c s hdr frame v) known
        ∙ (checked-passes p c s hdr frame v m ∙ e)
