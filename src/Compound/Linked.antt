-- ===== src/Compound/Linked.antt =====
-- How the members of a compounded frame name one another.
use gosamba.Prelude.{
  ℕ, zero, suc, ◌+◌, ◌-◌, ◌%◌, ◌^◌, ◌≤◌, ◌<◌, ◌≡◌, refl, ap, ◌∙◌, inl, inr, true, false, not, ◌==◌,
  ltb, if◌then◌else◌, List, [], ◌∷◌, ◌++◌, length, take, drop, replicate, All, Option, none, some,
  arith, Bool-cases, length-drop, length-take, length-append, length-replicate,
}
use gosamba.Wire.{Bytes, slice, copy, nth, uint32, le32}
use gosamba.Connection.{bytes_of}
use gosamba.Crypto.Sign.{sign_message, set_signed, clear_signature, compute_mac, all_bytes}
use gosamba.Compound.{
  PendingMsg, Signing, pad_to8, compound_member_len, signed_with, sign_response, put_next, member,
  members,
}

-- The NextCommand field of a message.
abbrev pub next_field : List ℕ → ℕ
next_field msg = uint32 (bytes_of msg) 20

-- Each member but the last names the start of the next one, 8-byte aligned, and the last names none.
abbrev pub AreLinked : List (List ℕ) → Type 0
AreLinked [] = Unit
AreLinked (b ∷ []) = next_field b ≡ 0
AreLinked (b ∷ c ∷ bs) = (next_field b ≡ length b) × (length b % 8 ≡ 0) × AreLinked (c ∷ bs)

-- A response with a header, whose length fits the field.
abbrev pub Fits : PendingMsg → Type 0
Fits m = (64 ≤ length m.msg) × (length m.msg < 2 ^ 32 - 8)

length-slice : (b : Bytes) (k n : ℕ) → length (slice b k n) ≡ n
unfolding slice
length-slice b k zero = refl
length-slice b k (suc n) = ap suc (length-slice b (suc k) n)

nth-slice : (b : Bytes) (k n i : ℕ) → i < n → nth i (slice b k n) ≡ b.at (k + i)
unfolding slice
nth-slice b k zero i h = absurd (omega arith)
nth-slice b k (suc n) zero h = ap b.at (omega arith)
nth-slice b k (suc n) (suc i) h = nth-slice b (suc k) n i (omega arith) ∙ ap b.at (omega arith)

nth-take : (k j : ℕ) (xs ys : List ℕ) → k ≤ length xs → nth (k + j) (take k xs ++ ys) ≡ nth j ys
nth-take zero j xs ys h = ap (λ i. nth i ys) (omega arith)
nth-take (suc k) j [] ys h = absurd (omega arith)
nth-take (suc k) j (x ∷ xs) ys h =
    let e : suc k + j ≡ suc (k + j) = omega arith in
    ap (λ i. nth i (x ∷ (take k xs ++ ys))) e ∙ nth-take k j xs ys (omega arith)

-- Signing leaves the length and the NextCommand field.
abbrev Kept : List ℕ → List ℕ → Type 0
Kept msg out = (length out ≡ length msg) × (next_field out ≡ next_field msg)

copy-below : (k : ℕ) (bs : List ℕ) (b : Bytes) (i : ℕ) → i < k → (copy k bs b).at i ≡ b.at i
unfolding copy
copy-below k bs b i h = ground arith

sign_message-len :
    (g : Signing) (key : List ℕ) (b : Bytes) → (sign_message g.primitives g.algo key b).len ≡ b.len
unfolding sign_message copy set_signed
sign_message-len g key b = elim (Bool-cases (ltb b.len 64)) [
  | inl short ↦ rw short refl
  | inr long ↦ rw long refl
]

sign_message-at :
    (g : Signing) (key : List ℕ) (b : Bytes) (i : ℕ)
    → 64 ≤ b.len
    → 20 ≤ i
    → i < 48
    → (sign_message g.primitives g.algo key b).at i ≡ b.at i
unfolding sign_message set_signed
sign_message-at g key b i room low high =
    let cleared : Bytes = clear_signature b in
    let short : ltb b.len 64 ≡ false = ground arith in
    let one = copy-below 48 (replicate 16 0) b i high in
    let two =
      copy-below 48 (compute_mac g.primitives g.algo key (set_signed cleared)) (set_signed cleared)
        i high in
    let mid : (set_signed cleared).at i ≡ cleared.at i = ground arith in
    rw short (two ∙ (mid ∙ one))

signed_with-Kept :
    (g : Signing) (key msg : List ℕ) → 64 ≤ length msg → Kept msg (signed_with g key msg)
unfolding signed_with
signed_with-Kept g key msg room = elim (Bool-cases (length key == 0)) [
  | inl absent ↦ rw absent (refl, refl)
  | inr present ↦
      let b : Bytes = sign_message g.primitives g.algo key (bytes_of msg) in
      let n = sign_message-len g key (bytes_of msg) in
      let at : (i : ℕ) → 20 ≤ i → i < 48 → nth i (all_bytes b) ≡ nth i msg = λ i low high.
        nth-slice b 0 b.len i (omega (arith, n))
        ∙ (ap b.at (omega arith) ∙ sign_message-at g key (bytes_of msg) i room low high) in
      rw present (
        length-slice b 0 b.len ∙ n,
        unfold uint32 in
            ground (
              arith,
              at 20 (omega arith) (omega arith),
              at 21 (omega arith) (omega arith),
              at 22 (omega arith) (omega arith),
              at 23 (omega arith) (omega arith),
            ),
      )
]

sign_response-Kept :
    (g : Signing) (session : Option ℕ) (msg : List ℕ)
    → 64 ≤ length msg
    → Kept msg (sign_response g session msg)
sign_response-Kept g none msg room = (refl, refl)
sign_response-Kept g (some s) msg room = signed_with-Kept g (g.key_of s) msg room

put_next-length : (v : ℕ) (msg : List ℕ) → 24 ≤ length msg → length (put_next v msg) ≡ length msg
unfolding put_next
put_next-length v msg h = omega (
  arith,
  length-append (take 20 msg) (le32 v ++ drop 24 msg),
  length-take 20 msg,
  length-append (le32 v) (drop 24 msg),
  length-drop 24 msg,
)

put_next-next_field :
    (v : ℕ) (msg : List ℕ) → 24 ≤ length msg → v < 2 ^ 32 → next_field (put_next v msg) ≡ v
unfolding put_next uint32
put_next-next_field v msg h small =
    let at : (j : ℕ) → nth (20 + j) (put_next v msg) ≡ nth j (le32 v ++ drop 24 msg) =
      λ j. unfold put_next in nth-take 20 j msg (le32 v ++ drop 24 msg) (omega arith) in
    omega (arith, at 0, at 1, at 2, at 3)

pad_to8-aligned : (n : ℕ) → (pad_to8 n % 8 ≡ 0) × (n ≤ pad_to8 n) × (pad_to8 n ≤ n + 7)
unfolding pad_to8
pad_to8-aligned n = (ground arith, ground arith, ground arith)

-- What a member is made of: the response padded to `n` bytes, with its NextCommand.
abbrev placed : PendingMsg → ℕ → ℕ → List ℕ
placed m n next = put_next next (m.msg ++ replicate (n - length m.msg) 0)

placed-length :
    (m : PendingMsg) (n next : ℕ)
    → 64 ≤ length m.msg
    → length m.msg ≤ n
    → length (placed m n next) ≡ n
placed-length m n next room fits =
    let whole = m.msg ++ replicate (n - length m.msg) 0 in
    let size : length whole ≡ n =
      length-append m.msg (replicate (n - length m.msg) 0)
      ∙ omega (arith, length-replicate {A = ℕ} (n - length m.msg) 0) in
    put_next-length next whole (omega (arith, size)) ∙ size

placed-next_field :
    (m : PendingMsg) (n next : ℕ)
    → 64 ≤ length m.msg
    → next < 2 ^ 32
    → next_field (placed m n next) ≡ next
placed-next_field m n next room small =
    let pad = replicate (n - length m.msg) 0 in
    put_next-next_field next (m.msg ++ pad) (omega (arith, length-append m.msg pad)) small

sealed-Kept :
    (g : Signing) (m : PendingMsg) (msg : List ℕ)
    → 64 ≤ length msg
    → Kept msg (if not m.encrypt then sign_response g m.session msg else msg)
sealed-Kept g m msg room = elim (Bool-cases m.encrypt) [
  | inl sealed ↦ rw sealed (refl, refl)
  | inr clear ↦ rw clear (sign_response-Kept g m.session msg room)
]

member-last : (g : Signing) (m : PendingMsg) → Fits m → next_field (member g m true) ≡ 0
unfolding member compound_member_len
member-last g m (room, small) =
    let msg = placed m (length m.msg) 0 in
    let n = placed-length m (length m.msg) 0 room (omega arith) in
    (sealed-Kept g m msg (omega (arith, n))).1
    ∙ placed-next_field m (length m.msg) 0 room (omega arith)

member-inner :
    (g : Signing) (m : PendingMsg)
    → Fits m
    → (next_field (member g m false) ≡ length (member g m false))
      × (length (member g m false) % 8 ≡ 0)
unfolding member compound_member_len
member-inner g m (room, small) =
    let n = pad_to8 (length m.msg) in
    let (aligned, above, near) = pad_to8-aligned (length m.msg) in
    let msg = placed m n (n % 2 ^ 32) in
    let size = placed-length m n (n % 2 ^ 32) room above in
    let kept = sealed-Kept g m msg (omega (arith, size, above)) in
    let field = placed-next_field m n (n % 2 ^ 32) room (omega arith) in
    let whole : n % 2 ^ 32 ≡ n = omega (arith, near) in
    (omega (arith, kept.0, kept.1, size, field, whole), omega (arith, kept.0, size, aligned))

-- Where every response has a header and its length fits the field, the members of a compounded frame
-- are linked, signed or not: each but the last is 8-byte aligned and its NextCommand is its length,
-- and the NextCommand of the last is zero.
pub members-AreLinked :
    (g : Signing) (ms : List PendingMsg) → All Fits ms → AreLinked (members g ms)
unfolding members
members-AreLinked g [] w = tt
members-AreLinked g (m ∷ []) w = member-last g m w.0
members-AreLinked g (m ∷ k ∷ []) w =
    let (field, aligned) = member-inner g m w.0 in
    (field, aligned, members-AreLinked g (k ∷ []) w.1)
members-AreLinked g (m ∷ k ∷ l ∷ ms) w =
    let (field, aligned) = member-inner g m w.0 in
    (field, aligned, members-AreLinked g (k ∷ l ∷ ms) w.1)
