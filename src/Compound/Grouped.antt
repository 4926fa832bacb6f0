-- ===== src/Compound/Grouped.antt =====
-- The frames that a flush sends against the responses that it was given.
use gosamba.Prelude.{
  ℕ, zero, suc, ◌≤◌, ◌≡◌, ◌≢◌, ◌⊎◌, refl, ap, ◌∙◌, subst, inl, inr, Bool, true, false,
  if◌then◌else◌, List, [], ◌∷◌, ◌++◌, length, All, Option, none, some, arith, Bool-cases,
}
use gosamba.Compound.{
  PendingMsg, Signing, Sent, in_clear, encrypted, sign_response, members, concat, same_session,
  goes_with, span, groups, seal_and_send, send_compound, send_groups, flush,
}

-- The bytes of a frame: one response as it is, signed where it goes in the clear, or the members.
abbrev pub payload : Signing → PendingMsg → List PendingMsg → List ℕ
payload g m [] = if m.encrypt then m.msg else sign_response g m.session m.msg
payload g m (k ∷ ms) = concat (members g (m ∷ k ∷ ms))

-- A frame of responses of one session: all are to be encrypted for it, or none is to be encrypted.
abbrev pub Carries : Signing → Sent → PendingMsg → List PendingMsg → Type 0
Carries g (in_clear b) m ms =
    All (λ k. (k.session ≡ m.session) × (k.encrypt ≡ false)) (m ∷ ms) × (b ≡ payload g m ms)
Carries g (encrypted s b) m ms =
    All (λ k. (k.session ≡ s) × (k.encrypt ≡ true)) (m ∷ ms) × (b ≡ payload g m ms)

-- The frame could take none of the responses behind it.
abbrev pub Full : PendingMsg → List PendingMsg → Type 0
Full m [] = Unit
Full m (k ∷ ms) = (k.session ≢ m.session) ⊎ (k.encrypt ≢ m.encrypt)

-- The frames carry the responses, each once and in order, in runs that are as long as they may be.
pub data Sends (g : Signing) : List Sent → List PendingMsg → Type 0 where
  nothing : Sends g [] []
  frame :
      (s : Sent) (m : PendingMsg) (ms : List PendingMsg) (sent : List Sent) (rest : List PendingMsg)
      → Carries g s m ms
      → Full m rest
      → Sends g sent rest
      → Sends g (s ∷ sent) (m ∷ (ms ++ rest))

-- The same session and the same decision on encryption.
Alike : PendingMsg → PendingMsg → Type 0
Alike m k = (k.session ≡ m.session) × (k.encrypt ≡ m.encrypt)

same_session-eq : (a b : Option ℕ) → same_session a b ≡ true → a ≡ b
same_session-eq none none h = refl
same_session-eq none (some t) h = cc
same_session-eq (some s) none h = cc
same_session-eq (some s) (some t) h = ap some (ground arith)

same_session_refl : (a : Option ℕ) → same_session a a ≡ true
same_session_refl none = refl
same_session_refl (some s) = ground arith

goes_with-Alike : (m k : PendingMsg) → goes_with m k ≡ true → Alike m k
unfolding Alike
goes_with-Alike m k h =
    let s : same_session k.session m.session ≡ true = ground arith in
    (same_session-eq k.session m.session s, ground arith)

goes_with-Full : (m k : PendingMsg) (ms : List PendingMsg) → goes_with m k ≡ false → Full m (k ∷ ms)
goes_with-Full m k ms h = elim (Bool-cases (same_session k.session m.session)) [
  | inr other ↦ inl (λ e.
      let same : same_session k.session m.session ≡ true = rw e (same_session_refl m.session) in
      ground arith)
  | inl same ↦ inr (λ e. ground arith)
]

span-append :
    (first : PendingMsg) (ms : List PendingMsg) → (span first ms).0 ++ (span first ms).1 ≡ ms
unfolding span
span-append first [] = refl
span-append first (m ∷ ms) = elim (Bool-cases (goes_with first m)) [
  | inl e ↦ rw e (ap (◌∷◌ m) (span-append first ms))
  | inr e ↦ rw e refl
]

span-length : (first : PendingMsg) (ms : List PendingMsg) → length (span first ms).1 ≤ length ms
unfolding span
span-length first [] = omega arith
span-length first (m ∷ ms) = ground (arith, span-length first ms)

span-Alike : (first : PendingMsg) (ms : List PendingMsg) → All (Alike first) (span first ms).0
unfolding span
span-Alike first [] = tt
span-Alike first (m ∷ ms) = elim (Bool-cases (goes_with first m)) [
  | inl e ↦ rw e (goes_with-Alike first m e, span-Alike first ms)
  | inr e ↦ rw e tt
]

span-Full : (first : PendingMsg) (ms : List PendingMsg) → Full first (span first ms).1
unfolding span
span-Full first [] = tt
span-Full first (m ∷ ms) = elim (Bool-cases (goes_with first m)) [
  | inl e ↦ rw e (span-Full first ms)
  | inr e ↦ rw e (goes_with-Full first m ms e)
]

-- Where the first of a group is to be encrypted, or not, all are.
each-Alike :
    (m : PendingMsg) (b : Bool) (ms : List PendingMsg)
    → m.encrypt ≡ b
    → All (Alike m) ms
    → All (λ k. (k.session ≡ m.session) × (k.encrypt ≡ b)) ms
unfolding Alike
each-Alike m b [] e w = tt
each-Alike m b (k ∷ ms) e (here, w) = ((here.0, here.1 ∙ e), each-Alike m b ms e w)

sent-Carries :
    (g : Signing) (m : PendingMsg) (ms : List PendingMsg) (b : Bool) (x y : List ℕ)
    → m.encrypt ≡ b
    → All (Alike m) ms
    → (if b then x else y) ≡ payload g m ms
    → Carries g (if b then encrypted m.session x else in_clear y) m ms
sent-Carries g m ms true x y e w p = (((refl, e), each-Alike m true ms e w), p)
sent-Carries g m ms false x y e w p = (((refl, e), each-Alike m false ms e w), p)

either_way : (b : Bool) (x : List ℕ) → (if b then x else x) ≡ x
either_way true x = refl
either_way false x = refl

send_compound-Carries :
    (g : Signing) (m : PendingMsg) (ms : List PendingMsg)
    → All (Alike m) ms
    → Carries g (send_compound g m ms) m ms
unfolding send_compound seal_and_send
send_compound-Carries g m [] w =
    sent-Carries g m [] m.encrypt m.msg (sign_response g m.session m.msg) refl w refl
send_compound-Carries g m (k ∷ ms) w =
    let out = concat (members g (m ∷ k ∷ ms)) in
    sent-Carries g m (k ∷ ms) m.encrypt out out refl w (either_way m.encrypt out)

groups-Sends :
    (g : Signing) (fuel : ℕ) (ms : List PendingMsg)
    → length ms ≤ fuel
    → Sends g (send_groups g (groups fuel ms)) ms
unfolding groups
groups-Sends g zero [] h = nothing
groups-Sends g zero (m ∷ ms) h = absurd (omega arith)
groups-Sends g (suc fuel) [] h = nothing
groups-Sends g (suc fuel) (m ∷ ms) h =
    let group = (span m ms).0 in
    let rest = (span m ms).1 in
    let sent = send_groups g (groups fuel rest) in
    subst (λ all. Sends g (send_compound g m group ∷ sent) (m ∷ all)) (span-append m ms)
      (frame (send_compound g m group) m group sent rest
        (send_compound-Carries g m group (span-Alike m ms)) (span-Full m ms)
        (groups-Sends g fuel rest (omega (arith, span-length m ms))))

-- A flush sends every response once and in order. The responses of a frame are of one session, are
-- all to be encrypted, for that session, or all not, and are what the frame's bytes carry, and the
-- response behind a frame has another session or the other decision.
pub flush-Sends : (g : Signing) (msgs : List PendingMsg) → Sends g (flush g msgs) msgs
unfolding flush
flush-Sends g msgs = groups-Sends g (length msgs) msgs (omega arith)
