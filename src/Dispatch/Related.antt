-- ===== src/Dispatch/Related.antt =====
-- The handle that a related chain hands from its CREATE to its CLOSE.
use gosamba.Prelude.{
  ℕ, ◌≡◌, ◌≢◌, refl, Bool, true, false, not, ◌&&◌, ◌==◌, if◌then◌else◌, List, length, Option, some,
  arith, ap, ◌∙◌,
}
use gosamba.Wire.{Bytes, slice, copy}
use gosamba.Wire.Header.{Header}
use gosamba.Wire.Header.RoundTrip.{slice-copy}
use gosamba.Sessions.{Session}
use gosamba.Dispatch.Gate.{Trusted, HasKeys, Meets, checked-passes, dispatch_gate-runs_iff}
use gosamba.Dispatch.{
  Policy, Chain, Verdict, refuses, runs, has_flag, flag_related_ops, command_create, command_close,
  resolve_related, dispatch_gate, checked_sender, has_previous_handle_sentinel,
  file_id_offset_in_body, substitute_previous_handle_file_id,
}

-- A related CLOSE of the previous handle.
abbrev pub closes_previous : Header → Bytes → Bool
closes_previous hdr body =
    has_flag hdr.flags flag_related_ops
    && has_previous_handle_sentinel hdr.command body
    && hdr.command == command_close

-- One member of a chain and what it leaves: a refusal sets the status, and a handler any status. A
-- CREATE alone may put another handle in place of the one that the chain has.
pub data Member (p : Policy) (found : Option Session) : Chain → Chain → Type 0 where
  is_refused :
      (c : Chain) (hdr : Header) (body frame : Bytes) (status : ℕ) (goes_on : Bool)
      → dispatch_gate p c found hdr body frame ≡ refuses status goes_on
      → Member p found c (record c { last_chain_status = status })
  is_run :
      (c : Chain) (hdr : Header) (body frame : Bytes) (c' : Chain) (body' : Bytes) (status : ℕ)
      → dispatch_gate p c found hdr body frame ≡ runs c' body'
      → hdr.command ≢ command_create
      → closes_previous hdr body ≡ false
      → Member p found c (record c' { last_chain_status = status })

pub data Members (p : Policy) (found : Option Session) (s : Chain) : Chain → Type 0 where
  here : Members p found s s
  next : {c d : Chain} → Members p found s c → Member p found c d → Members p found s d

-- The chain holds the handle that a CREATE made.
abbrev pub Holds : List ℕ → Chain → Type 0
Holds id c = (c.has_last_created ≡ true) × (c.last_created_file_id ≡ id)

runs-fst : {c d : Chain} {b e : Bytes} → runs c b ≡ runs d e → c ≡ d
runs-fst {c} h = ap (chain_of c) h
  where
    chain_of : Chain → Verdict → Chain
    chain_of c (refuses s g) = c
    chain_of c (runs d b) = d

resolve-keeps :
    (c : Chain) (hdr : Header) (body : Bytes) (c' : Chain) (body' : Bytes)
    → resolve_related c hdr body ≡ runs c' body'
    → closes_previous hdr body ≡ false
    → c ≡ c'
unfolding resolve_related
resolve-keeps c hdr body c' body' h open_ = ground (arith, h, open_)

Member-Holds :
    {p : Policy} {found : Option Session} {c d : Chain} {id : List ℕ}
    → Member p found c d
    → Holds id c
    → Holds id d
Member-Holds (is_refused c hdr body frame status goes_on e) k = k
Member-Holds {p} {found} (is_run c hdr body frame c' body' status e ne open_) k =
    let r = (dispatch_gate-runs_iff p c found hdr body frame c' body').0 e in
    let same = resolve-keeps c hdr body c' body' r.1 open_ in rw same at k

Members-Holds :
    {p : Policy} {found : Option Session} {c d : Chain} {id : List ℕ}
    → Members p found c d
    → Holds id c
    → Holds id d
Members-Holds here k = k
Members-Holds (next ms m) k = Member-Holds m (Members-Holds ms k)

-- The message as the handler gets it.
abbrev pub names : List ℕ → Bytes → Bytes
names id body = copy 8 id body

resolve-closes :
    (c : Chain) (hdr : Header) (body : Bytes) (id : List ℕ)
    → Holds id c
    → closes_previous hdr body ≡ true
    → resolve_related c hdr body ≡ runs (record c { has_last_created = false }) (names id body)
unfolding resolve_related substitute_previous_handle_file_id file_id_offset_in_body
resolve-closes c hdr body id k closes =
    let related : has_flag hdr.flags flag_related_ops ≡ true = ground arith in
    let sentinel : has_previous_handle_sentinel hdr.command body ≡ true = ground arith in
    let close : (hdr.command == 6) ≡ true = ground arith in
    rw (related, sentinel, close, k.0, k.1) (ground arith)

-- After a CREATE of a related chain made a handle, and any members but another CREATE or a CLOSE of
-- that handle, each refused or run with any status, a trusted related CLOSE of the previous handle
-- runs on that handle, whatever the last status is, and takes the handle out of the chain.
pub dispatch_gate-closes :
    (p : Policy) (found : Option Session) (c d : Chain) (id : List ℕ) (hdr : Header)
    (body frame : Bytes)
    → Holds id c
    → length id ≡ 16
    → Members p found c d
    → Trusted p d found hdr frame
    → closes_previous hdr body ≡ true
    → (dispatch_gate p d found hdr body frame
        ≡ runs (record d { has_last_created = false }) (names id body))
      × (slice (names id body) 8 16 ≡ id)
dispatch_gate-closes p found c d id hdr body frame k len ms t closes = (
  (dispatch_gate-runs_iff p d found hdr body frame (record d { has_last_created = false })
        (names id body)).1
      (t, resolve-closes d hdr body id (Members-Holds ms k) closes),
  slice-copy 8 16 id body len,
)

-- A related operation on the previous handle, other than a CLOSE of a handle that the chain has, does
-- not run after a failure: it answers with the status of the failure.
pub dispatch_gate-inherits :
    (p : Policy) (c : Chain) (s : Session) (hdr : Header) (body frame : Bytes)
    → s.authenticated ≡ true
    → (HasKeys s → Meets p c s hdr frame)
    → has_flag hdr.flags flag_related_ops ≡ true
    → has_previous_handle_sentinel hdr.command body ≡ true
    → c.last_chain_status ≢ 0
    → (c.has_last_created && hdr.command == command_close) ≡ false
    → dispatch_gate p c (some s) hdr body frame ≡ refuses c.last_chain_status true
unfolding dispatch_gate resolve_related
dispatch_gate-inherits p c s hdr body frame known m related sentinel failed open_ =
    let bad : (c.last_chain_status == 0) ≡ false = ground arith in
    let inherits : resolve_related c hdr body ≡ refuses c.last_chain_status true =
      rw (related, sentinel, bad, open_) refl in
    ap
      (λ b.
        if not b
        then refuses 0xC0000022 false
        else checked_sender p c s hdr frame (resolve_related c hdr body))
      known
    ∙ (checked-passes p c s hdr frame (resolve_related c hdr body) m ∙ inherits)
