-- ===== src/Locks/Manager/Wake.antt =====
-- A request that parks takes the release channel before its attempt: the releases after that.
use gosamba.Prelude.{
  ℕ, ◌<◌, ◌^◌, ◌≡◌, refl, ◌⊎◌, inl, inr, Option, none, some, List, [], ◌∷◌, arith, All, Some,
  Bool-cases, ltb,
}
use gosamba.Locks.Range.{FileKey, LockKind, LockRange}
use gosamba.Locks.Table.{RangeTable, ranges_at}
use gosamba.Locks.Table
use gosamba.Locks.Table.Runs.{In}
use gosamba.Locks.Table.Loss.{Keeps, apply-loss, release_owner-loss}
use gosamba.Locks.Manager.{
  LockTable, publish, apply, release_owner, release_signal, signal_from, close_released,
}
use gosamba.Locks.Manager.Published.{IsSound, apply-IsSound, release_owner-IsSound}

-- What other connections do while a request is parked.
pub data Call : Type 0 where
  applies : FileKey → ℕ → ℕ → ℕ → LockKind → Call
  releases : FileKey → ℕ → Call
  signals : Call

abbrev pub IsCall : Call → Type 0
IsCall (applies key owner start len kind) = (start < 2 ^ 64) × (len < 2 ^ 64)
IsCall (releases key owner) = Unit
IsCall signals = Unit

unfoldable pub step : LockTable → Call → LockTable
step l (applies key owner start len kind) = (apply l key owner start len kind).0
step l (releases key owner) = release_owner l key owner
step l signals = (release_signal l).0

unfoldable pub run : LockTable → List Call → LockTable
run l [] = l
run l (c ∷ cs) = run (step l c) cs

abbrev pub IsClosed : ℕ → LockTable → Type 0
IsClosed c l = Some (λ d. d ≡ c) l.closed

close-keeps :
    (c : ℕ) (o : Option ℕ) (ds : List ℕ)
    → Some (λ d. d ≡ c) ds
    → Some (λ d. d ≡ c) (close_released o ds)
close-keeps c none ds i = i
close-keeps c (some d) ds i = inr i

-- The waiter on `c` is woken, or is still subscribed and nothing was lost since `t`.
abbrev Parked : RangeTable → ℕ → LockTable → Type 0
Parked t c l = IsClosed c l ⊎ ((l.released ≡ some c) × Keeps t l.t)

publish-Parked :
    (c : ℕ) (l : LockTable) (t t' : RangeTable)
    → (t'.n < l.t.n) ⊎ Keeps l.t t'
    → Parked t c l
    → Parked t c (publish (record l { t = t' }) l.t.n)
unfolding publish
publish-Parked c l t t' loss p = elim (Bool-cases (ltb t'.n l.t.n)) [
  | inl less ↦ rw less (
      inl (elim p [
        | inl closed ↦ close-keeps c l.released l.closed closed
        | inr (here, _) ↦ rw here (inl refl)
      ]))
  | inr more ↦ rw more (elim p [
    | inl closed ↦ inl closed
    | inr (here, kept) ↦ elim loss [
      | inl less ↦ absurd (ground arith)
      | inr keeps ↦ inr (here, λ j r i. keeps j r (kept j r i))
    ]
  ])
]

signal-Parked :
    (t : RangeTable) (c : ℕ) (l : LockTable) (o : Option ℕ)
    → l.released ≡ o
    → Parked t c l
    → Parked t c (signal_from l o).0
signal-Parked t c l none e (inl closed) = inl closed
signal-Parked t c l none e (inr (here, kept)) = cc
signal-Parked t c l (some d) e p = p

signal_t : (l : LockTable) (o : Option ℕ) → (signal_from l o).0.t ≡ l.t
signal_t l none = refl
signal_t l (some c) = refl

signal_released :
    (l : LockTable) (o : Option ℕ)
    → l.released ≡ o
    → (signal_from l o).0.released ≡ some (signal_from l o).1
signal_released l none e = refl
signal_released l (some c) e = e

signal-IsSound : (l : LockTable) (o : Option ℕ) → IsSound l → IsSound (signal_from l o).0
signal-IsSound l none s = record { valid = s.valid; published = s.published }
signal-IsSound l (some c) s = s

step-Parked :
    (t : RangeTable) (c : ℕ) (l : LockTable) (e : Call)
    → IsSound l
    → Parked t c l
    → Parked t c (step l e)
unfolding step apply release_owner release_signal
step-Parked t c l (applies key owner start len kind) s p =
    publish-Parked c l t (Table.apply l.t key owner start len kind).0
      (apply-loss l.t key owner start len kind s.valid) p
step-Parked t c l (releases key owner) s p =
    publish-Parked c l t (Table.release_owner l.t key owner)
      (release_owner-loss l.t key owner s.valid) p
step-Parked t c l signals s p = signal-Parked t c l l.released refl p

step-IsSound : (l : LockTable) (e : Call) → IsCall e → IsSound l → IsSound (step l e)
unfolding step release_signal
step-IsSound l (applies key owner start len kind) w s =
    apply-IsSound l key owner start len kind w.0 w.1 s
step-IsSound l (releases key owner) w s = release_owner-IsSound l key owner s
step-IsSound l signals w s = signal-IsSound l l.released s

run-Parked :
    (t : RangeTable) (c : ℕ) (l : LockTable) (cs : List Call)
    → All IsCall cs
    → IsSound l
    → Parked t c l
    → Parked t c (run l cs)
unfolding run
run-Parked t c l [] w s p = p
run-Parked t c l (e ∷ cs) w s p =
    run-Parked t c (step l e) cs w.1 (step-IsSound l e w.0 s) (step-Parked t c l e s p)

-- A subscriber whose channel is not yet closed has missed nothing: whatever calls follow
-- `releaseSignal`, if a range tracked then is gone, the channel has been closed.
pub release_wakes :
    (l : LockTable) (cs : List Call) (key : FileKey) (r : LockRange)
    → IsSound l
    → All IsCall cs
    → In r (ranges_at key l.t)
    → ¬ In r (ranges_at key (run (release_signal l).0 cs).t)
    → IsClosed (release_signal l).1 (run (release_signal l).0 cs)
unfolding release_signal
release_wakes l cs key r s w i gone =
    let (l', c) = signal_from l l.released in
    let start : Parked l.t c l' =
      inr (signal_released l l.released refl, λ j x h. rw (signal_t l l.released) h) in
    elim (run-Parked l.t c l' cs w (signal-IsSound l l.released s) start) [
      | inl closed ↦ closed
      | inr (_, kept) ↦ absurd (gone (kept key r i))
    ]
