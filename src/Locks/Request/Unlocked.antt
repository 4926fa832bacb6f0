-- ===== src/Locks/Request/Unlocked.antt =====
-- The first half of `restoreLocks`: what is left after every added range is unlocked.
use gosamba.Prelude.{
  ℕ, ◌<◌, ◌≡◌, refl, inl, inr, true, false, List, [], ◌∷◌, arith, Bool-cases, All, not_both,
}
use gosamba.Locks.Range.{FileKey, file_key_eq_iff, unlock, LockRange, same_range}
use gosamba.Locks.Table.{
  RangeTable, ranges_at, retain, apply, keeps_unlock, counterpart, has_counterpart, ranges_diff,
}
use gosamba.Locks.Table.Lookup.{ranges_at-retain}
use gosamba.Locks.Table.Invariant.{IsWord}
use gosamba.Locks.Table.Runs.{In}
use gosamba.Locks.Request.Members.{In-filter_inv}
use gosamba.Locks.Request.Frame.{Frame, apply-Frame}

-- `unlock_all` on the table alone.
unfoldable pub unlock_ranges : RangeTable → FileKey → ℕ → List LockRange → RangeTable
unlock_ranges t key owner [] = t
unlock_ranges t key owner (r ∷ rs) =
    unlock_ranges (apply t key owner r.start r.len unlock).0 key owner rs

abbrev pub Survives : ℕ → LockRange → LockRange → Type 0
Survives owner r d = keeps_unlock owner d.start d.len r ≡ true

unlock_eq :
    (t : RangeTable) (key : FileKey) (owner start len : ℕ)
    → 0 < len
    → (apply t key owner start len unlock).0 ≡ retain t key (keeps_unlock owner start len)
unfolding apply
unlock_eq t key owner start len h = ground arith

In-unlock :
    (t : RangeTable) (key : FileKey) (owner : ℕ) (d r : LockRange)
    → 0 < d.len
    → In r (ranges_at key (apply t key owner d.start d.len unlock).0)
    → In r (ranges_at key t) × Survives owner r d
In-unlock t key owner d r pos i =
    In-filter_inv (keeps_unlock owner d.start d.len) r (ranges_at key t) (
      rw
        (
          unlock_eq t key owner d.start d.len pos,
          ranges_at-retain t key (keeps_unlock owner d.start d.len) key,
          (file_key_eq_iff key key).1 refl,
        )
        at i)

pub unlock_ranges-Frame :
    (t0 t : RangeTable) (key : FileKey) (owner : ℕ) (ds : List LockRange)
    → All IsWord ds
    → Frame key owner t0 t
    → Frame key owner t0 (unlock_ranges t key owner ds)
unfolding unlock_ranges
unlock_ranges-Frame t0 t key owner [] w f = f
unlock_ranges-Frame t0 t key owner (d ∷ ds) w f =
    unlock_ranges-Frame t0 (apply t key owner d.start d.len unlock).0 key owner ds w.1
      (apply-Frame t0 t key owner d.start d.len unlock w.0.0 w.0.1 f)

pub In-unlock_ranges :
    (t : RangeTable) (key : FileKey) (owner : ℕ) (ds : List LockRange) (r : LockRange)
    → All IsWord ds
    → In r (ranges_at key (unlock_ranges t key owner ds))
    → In r (ranges_at key t) × All (Survives owner r) ds
unfolding unlock_ranges
In-unlock_ranges t key owner [] r w i = (i, tt)
In-unlock_ranges t key owner (d ∷ ds) r w i =
    let (j, later) =
      In-unlock_ranges (apply t key owner d.start d.len unlock).0 key owner ds r w.1 i in
    let (k, now) = In-unlock t key owner d r w.0.2 j in (k, (now, later))

pub ranges_diff-IsWord : (a b : List LockRange) → All IsWord a → All IsWord (ranges_diff a b)
unfolding ranges_diff
ranges_diff-IsWord [] b w = tt
ranges_diff-IsWord (r ∷ a) b w = elim (Bool-cases (has_counterpart r b)) [
  | inl e ↦ rw e (ranges_diff-IsWord a b w.1)
  | inr e ↦ rw e (w.0, ranges_diff-IsWord a b w.1)
]

self-unlock :
    (owner : ℕ) (x r : LockRange)
    → x ≡ r
    → r.owner ≡ owner
    → keeps_unlock owner x.start x.len r ≡ false
unfolding keeps_unlock same_range
self-unlock owner x r same e = ground arith

-- A range that survives the unlocking of the difference has a counterpart.
pub Survives-has_counterpart :
    (owner : ℕ) (r : LockRange) (a b : List LockRange)
    → r.owner ≡ owner
    → In r a
    → All (Survives owner r) (ranges_diff a b)
    → has_counterpart r b ≡ true
unfolding ranges_diff
Survives-has_counterpart owner r [] b o i s = elim i [ ]
Survives-has_counterpart owner r (x ∷ a) b o (inl e) s = elim (Bool-cases (has_counterpart x b)) [
  | inl here ↦ rw (← e) here
  | inr gone ↦ absurd (not_both _ (rw (gone) at s).0 (self-unlock owner x r e o))
]
Survives-has_counterpart owner r (x ∷ a) b o (inr i) s = elim (Bool-cases (has_counterpart x b)) [
  | inl here ↦ Survives-has_counterpart owner r a b o i (rw (here) at s)
  | inr gone ↦ Survives-has_counterpart owner r a b o i (rw (gone) at s).1
]

counterpart→eq : (r o : LockRange) → r.owner ≡ o.owner → counterpart r o ≡ true → o ≡ r
unfolding counterpart same_range
counterpart→eq r o e h = ground arith

pub has_counterpart-In :
    (owner : ℕ) (r : LockRange) (b : List LockRange)
    → r.owner ≡ owner
    → All (λ o. o.owner ≡ owner) b
    → has_counterpart r b ≡ true
    → In r b
unfolding has_counterpart
has_counterpart-In owner r [] e all h = cc
has_counterpart-In owner r (o ∷ b) e all h = elim (Bool-cases (counterpart r o)) [
  | inl same ↦ inl (counterpart→eq r o (ground (arith, all.0)) same)
  | inr other ↦ inr (has_counterpart-In owner r b e all.1 (rw other at h))
]
