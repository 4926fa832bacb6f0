-- ===== src/Transport/Framing.antt =====
-- Sequences of frames on one connection.
use gosamba.Prelude.{
  ℕ, zero, suc, ◌+◌, ◌*◌, ◌/◌, ◌%◌, ◌<◌, ◌≤◌, ◌≡◌, refl, ap, false, ◌==◌, ltb, List, [], ◌∷◌, ◌++◌,
  length, take-append-drop, length-take, All, take-length_append, drop-length_append, length-append,
  arith, inl, inr, Bool-cases,
}
use gosamba.Transport.{Framed, read_full, read_payload, read_frame, put_frame_header, write_frame}

-- The 24-bit length of the header, read back.
length-value : (n : ℕ) → n < 16777216 → n / 65536 % 256 * 65536 + n / 256 % 256 * 256 + n % 256 ≡ n
length-value n h = omega arith

abbrev pub frame : List ℕ → List ℕ
frame p = 0 ∷ length p / 65536 % 256 ∷ length p / 256 % 256 ∷ length p % 256 ∷ p

write_frame-frame : (p : List ℕ) → length p < 16777216 → write_frame p ≡ inr (frame p)
unfolding write_frame put_frame_header
write_frame-frame p h = ground arith

read_full-append : (n : ℕ) (p s : List ℕ) → length p ≡ n → read_full n (p ++ s) ≡ inr (p, s)
unfolding read_full
read_full-append n p s e =
    let enough : ltb (length (p ++ s)) n ≡ false = ground (arith, length-append p s) in
    rw (enough, take-length_append n p s e, drop-length_append n p s e) refl

read_payload-append :
    (max_size n : ℕ) (p s : List ℕ)
    → length p ≡ n
    → n ≤ max_size
    → read_payload max_size n (p ++ s) ≡ inr (p, s)
unfolding read_payload
read_payload-append max_size n [] s e h = ground arith
read_payload-append max_size n (x ∷ p) s e h =
    let small : ltb max_size n ≡ false = ground arith in
    let some_ : (n == 0) ≡ false = ground arith in
    rw (small, some_) (read_full-append n (x ∷ p) s e)

pub read_frame-frame :
    (max_size : ℕ) (p s : List ℕ)
    → length p < 16777216
    → length p ≤ max_size
    → read_frame max_size (frame p ++ s) ≡ inr (p, s)
unfolding read_frame
read_frame-frame max_size p s h m =
    rw (length-value (length p) h) (read_payload-append max_size (length p) p s refl m)

-- Reading frame after frame until an error or the end; the fuel bounds their number.
unfoldable pub read_frames : ℕ → ℕ → List ℕ → List (List ℕ)
read_frames max_size zero s = []
read_frames max_size (suc k) s =
    let next = read_frame max_size s in
    elim next [ inl e ↦ [] | inr (payload, rest) ↦ payload ∷ read_frames max_size k rest ]

-- Writing payload after payload on one connection.
unfoldable pub write_frames : List (List ℕ) → Framed (List ℕ)
write_frames [] = inr []
write_frames (p ∷ ps) =
    let rest = write_frames ps in
    elim (write_frame p) [
      | inl e ↦ inl e
      | inr b ↦ elim rest [ inl e ↦ inl e | inr bs ↦ inr (b ++ bs) ]
    ]

abbrev pub received : ℕ → ℕ → Framed (List ℕ) → List (List ℕ)
received max_size k (inl e) = []
received max_size k (inr s) = read_frames max_size k s

abbrev pub Fits : ℕ → List ℕ → Type 0
Fits max_size p = (length p < 16777216) × (length p ≤ max_size)

abbrev frames : List (List ℕ) → List ℕ
frames [] = []
frames (p ∷ ps) = frame p ++ frames ps

write_frames-frames :
    (max_size : ℕ) (ps : List (List ℕ)) → All (Fits max_size) ps → write_frames ps ≡ inr (frames ps)
unfolding write_frames
write_frames-frames max_size [] h = refl
write_frames-frames max_size (p ∷ ps) h =
    ground (arith, write_frame-frame p h.0.0, write_frames-frames max_size ps h.1)

no_frame : (max_size k : ℕ) → read_frames max_size k [] ≡ []
unfolding read_frames read_frame
no_frame max_size zero = refl
no_frame max_size (suc k) = refl

read_frames-frames :
    (max_size k : ℕ) (ps : List (List ℕ))
    → length ps ≤ k
    → All (Fits max_size) ps
    → read_frames max_size k (frames ps) ≡ ps
unfolding read_frames
read_frames-frames max_size k [] e h = no_frame max_size k
read_frames-frames max_size zero (p ∷ ps) e h = absurd (omega arith)
read_frames-frames max_size (suc k) (p ∷ ps) e h =
    let first = read_frame-frame max_size p (frames ps) h.0.0 h.0.1 in
    ground (arith, first, read_frames-frames max_size k ps (omega arith) h.1)

-- Any sequence of messages below 2^24 bytes that respect the reader's limit, each written by
-- WriteFrame on one connection, is read back by ReadFrame message by message, in order, with nothing
-- after the last one, whenever the reader may read at least as many frames.
pub write_frames-RoundTrip :
    (max_size k : ℕ) (ps : List (List ℕ))
    → length ps ≤ k
    → All (Fits max_size) ps
    → received max_size k (write_frames ps) ≡ ps
write_frames-RoundTrip max_size k ps e h =
    rw (write_frames-frames max_size ps h) (read_frames-frames max_size k ps e h)

read_full-bound :
    (n : ℕ) (s p rest : List ℕ) → read_full n s ≡ inr (p, rest) → (length p ≤ n) × (s ≡ p ++ rest)
unfolding read_full
read_full-bound n s p rest e = elim (Bool-cases (ltb (length s) n)) [
  | inl h ↦ absurd (ground arith)
  | inr h ↦ ground (arith, take-append-drop n s, length-take n s)
]

read_payload-bound :
    (max_size n : ℕ) (s p rest : List ℕ)
    → read_payload max_size n s ≡ inr (p, rest)
    → (length p ≤ max_size) × (s ≡ p ++ rest)
unfolding read_payload
read_payload-bound max_size n s p rest e = elim (Bool-cases (ltb max_size n)) [
  | inl h ↦ absurd (ground arith)
  | inr h ↦ elim (Bool-cases (n == 0)) [
    | inl z ↦ ground arith
    | inr z ↦
        let f : read_full n s ≡ inr (p, rest) = ground arith in
        ground (arith, read_full-bound n s p rest f)
  ]
]

-- A payload that ReadFrame returns is no longer than the limit, and the stream is the 4 bytes of the
-- header, the payload and what is left to read.
pub read_frame-bound :
    (max_size : ℕ) (s p rest : List ℕ)
    → read_frame max_size s ≡ inr (p, rest)
    → (length p ≤ max_size)
      × ((t : ℕ) × (a : ℕ) × (b : ℕ) × (c : ℕ) × (s ≡ t ∷ a ∷ b ∷ c ∷ (p ++ rest)))
unfolding read_frame
read_frame-bound max_size [] p rest e = absurd (ground arith)
read_frame-bound max_size (t ∷ []) p rest e = absurd (ground arith)
read_frame-bound max_size (t ∷ a ∷ []) p rest e = absurd (ground arith)
read_frame-bound max_size (t ∷ a ∷ b ∷ []) p rest e = absurd (ground arith)
read_frame-bound max_size (t ∷ a ∷ b ∷ c ∷ s) p rest e = elim (Bool-cases (t == 0)) [
  | inr h ↦ absurd (ground arith)
  | inl h ↦
      let f : read_payload max_size (a * 65536 + b * 256 + c) s ≡ inr (p, rest) = ground arith in
      let (small, split) = read_payload-bound max_size (a * 65536 + b * 256 + c) s p rest f in
      (small, (t, a, b, c, ap (λ u. t ∷ a ∷ b ∷ c ∷ u) split))
]
