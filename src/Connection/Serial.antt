-- ===== src/Connection/Serial.antt =====
-- What the test on a frame says of the walk along it.
use gosamba.Prelude.{
  ℕ, zero, suc, ◌≤◌, ◌<◌, ◌≡◌, ◌↔◌, refl, inl, inr, Bool, true, false, ◌==◌, ltb, if◌then◌else◌,
  List, [], ◌∷◌, length, take, drop, All, arith, Bool-cases, length-drop,
}
use gosamba.Wire.{Decoded}
use gosamba.Wire.Header.{Header}
use gosamba.Connection.{
  header_at, next_of, Next, ends, breaks_off, goes_on, Message, then_walk, serve_frame,
  frame_needs_serial_execution, command_session_setup,
}

-- No SESSION_SETUP among the messages.
abbrev pub NoSetup : List Message → Type 0
NoSetup = All (λ m. (m.0.command == command_session_setup) ≡ false)

-- The last message says that it is the last.
abbrev pub Closed : List Message → Type 0
Closed [] = ⊥
Closed ((hdr, bytes) ∷ []) = hdr.next_command ≡ 0
Closed (m ∷ n ∷ ms) = Closed (n ∷ ms)

-- The frame may run beside others.
abbrev pub Concurrent : List Message × Bool → Type 0
Concurrent (ms, ok) = (ok ≡ true) × NoSetup ms × Closed ms

next-ends : (hdr : Header) (rest : List ℕ) → next_of hdr rest ≡ ends → hdr.next_command ≡ 0
unfolding next_of
next-ends hdr rest h = ground arith

next-goes_on :
    (hdr : Header) (rest : List ℕ) (n : ℕ)
    → next_of hdr rest ≡ goes_on n
    → (64 ≤ n) × (n ≤ length rest) × (hdr.next_command ≡ n)
unfolding next_of
next-goes_on hdr rest n h = (ground arith, ground arith, ground arith)

-- The two walks behind one header, from what follows the message.
abbrev Agree : Bool → List Message × Bool → Type 0
Agree serial walk = (serial ≡ false) ↔ Concurrent walk

cons-Concurrent :
    (hdr : Header) (bytes : List ℕ) (walk : List Message × Bool)
    → (hdr.next_command ≡ 0 → ⊥)
    → (hdr.command == command_session_setup) ≡ false
    → Concurrent (then_walk (hdr, bytes) walk) ↔ Concurrent walk
cons-Concurrent hdr bytes ([], ok) more plain = (λ c. absurd (more c.2), λ c. elim c.2 [ ])
cons-Concurrent hdr bytes (m ∷ ms, ok) more plain =
    (λ c. (c.0, c.1.1, c.2), λ c. (c.0, (plain, c.1), c.2))

cons-setup :
    (hdr : Header) (bytes : List ℕ) (walk : List Message × Bool)
    → (hdr.command == command_session_setup) ≡ true
    → Concurrent (then_walk (hdr, bytes) walk)
    → ⊥
cons-setup hdr bytes (ms, ok) setup c = absurd (ground (arith, c.1.0))

abbrev serial_behind : ℕ → List ℕ → Bool → Next → Bool
serial_behind fuel rest setup x = if setup then true else elim x [
  | ends ↦ false
  | breaks_off ↦ true
  | goes_on n ↦ frame_needs_serial_execution fuel (drop n rest)
]

abbrev walk_behind : ℕ → List ℕ → Header → Next → List Message × Bool
walk_behind fuel rest hdr x = elim x [
  | ends ↦ ((hdr, rest) ∷ [], true)
  | breaks_off ↦ ([], false)
  | goes_on n ↦ then_walk (hdr, take n rest) (serve_frame fuel (drop n rest))
]

behind-Agree :
    (fuel : ℕ) (rest : List ℕ) (hdr : Header) (x : Next) (setup : Bool)
    → next_of hdr rest ≡ x
    → (hdr.command == command_session_setup) ≡ setup
    → ((b : List ℕ)
        → length b < fuel
        → Agree (frame_needs_serial_execution fuel b) (serve_frame fuel b))
    → length rest < suc fuel
    → Agree (serial_behind fuel rest setup x) (walk_behind fuel rest hdr x)
behind-Agree fuel rest hdr ends true e s go h =
    (λ q. absurd (ground arith), λ c. absurd (ground (arith, c.1.0)))
behind-Agree fuel rest hdr ends false e s go h =
    (λ q. (refl, (s, tt), next-ends hdr rest e), λ c. refl)
behind-Agree fuel rest hdr breaks_off true e s go h =
    (λ q. absurd (ground arith), λ c. elim c.2 [ ])
behind-Agree fuel rest hdr breaks_off false e s go h =
    (λ q. absurd (ground arith), λ c. elim c.2 [ ])
behind-Agree fuel rest hdr (goes_on n) true e s go h = (
  λ q. absurd (ground arith),
  λ c. absurd (cons-setup hdr (take n rest) (serve_frame fuel (drop n rest)) s c),
)
behind-Agree fuel rest hdr (goes_on n) false e s go h =
    let (big, fits, next_) = next-goes_on hdr rest n e in
    let i = go (drop n rest) (omega (arith, length-drop n rest, big, fits)) in
    let k =
      cons-Concurrent hdr (take n rest) (serve_frame fuel (drop n rest))
        (λ z. omega (arith, z, big, next_)) s in
    (λ q. k.1 (i.0 q), λ c. i.1 (k.0 c))

header-Agree :
    (fuel : ℕ) (rest : List ℕ) (found : Decoded Header)
    → ((b : List ℕ)
        → length b < fuel
        → Agree (frame_needs_serial_execution fuel b) (serve_frame fuel b))
    → length rest < suc fuel
    → Agree
        (elim found [
          | inl e ↦ true
          | inr hdr ↦
              serial_behind fuel rest (hdr.command == command_session_setup) (next_of hdr rest)
        ])
        (elim found [
          | inl e ↦ ([], false)
          | inr hdr ↦ walk_behind fuel rest hdr (next_of hdr rest)
        ])
header-Agree fuel rest (inl e) go h = (λ q. absurd (ground arith), λ c. elim c.2 [ ])
header-Agree fuel rest (inr hdr) go h =
    behind-Agree fuel rest hdr (next_of hdr rest) (hdr.command == command_session_setup) refl refl
      go h

serial-Agree :
    (fuel : ℕ) (rest : List ℕ)
    → length rest < fuel
    → Agree (frame_needs_serial_execution fuel rest) (serve_frame fuel rest)
unfolding frame_needs_serial_execution serve_frame
serial-Agree zero rest h = absurd (omega arith)
serial-Agree (suc fuel) [] h = (λ q. absurd (ground arith), λ c. elim c.2 [ ])
serial-Agree (suc fuel) (b ∷ bs) h = elim (Bool-cases (ltb (length (b ∷ bs)) 64)) [
  | inl short ↦ rw short (λ q. absurd (ground arith), λ c. elim c.2 [ ])
  | inr long ↦ rw long (header-Agree fuel (b ∷ bs) (header_at (b ∷ bs)) (serial-Agree fuel) h)
]

-- A frame runs beside others exactly if the walk along it meets no SESSION_SETUP, no message that it
-- would drop the connection for, and a last message that says so; and the walk then ends.
pub frame_needs_serial_execution-Concurrent :
    (frame : List ℕ)
    → (frame_needs_serial_execution (suc (length frame)) frame ≡ false)
      ↔ Concurrent (serve_frame (suc (length frame)) frame)
frame_needs_serial_execution-Concurrent frame =
    serial-Agree (suc (length frame)) frame (omega arith)
