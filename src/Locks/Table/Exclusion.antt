-- ===== src/Locks/Table/Exclusion.antt =====
-- The scan of `apply` and the clash of two handles' ranges.
use gosamba.Prelude.{
  ℕ, suc, ◌+◌, ◌≡◌, inl, inr, Bool, true, false, not, ◌&&◌, ◌||◌, List, [], ◌∷◌, arith, All, Some,
  Apart, Bool-cases, count, ◌==◌, bool_eq,
}
use gosamba.Locks.Range.{LockRange, ranges_overlap, same_range, ranges_overlap_comm}
use gosamba.Locks.Table.{scan_apply, Scan, held, refused, owned}
use gosamba.Locks.Table.Lookup.{entry}

-- Both cannot be held at once.
abbrev pub clash : LockRange → LockRange → Bool
clash a b =
    not (b.owner == a.owner)
    && (ranges_overlap a.start a.len b.start b.len && (a.is_exclusive || b.is_exclusive))

pub clash_comm : (a b : LockRange) → clash a b ≡ clash b a
clash_comm a b = ground (arith, ranges_overlap_comm a.start a.len b.start b.len)

abbrev pub ClashesWithNone : LockRange → List LockRange → Type 0
ClashesWithNone a = All (λ b. clash a b ≡ false)

-- No two of a file's ranges clash.
abbrev pub IsExclusive : List LockRange → Type 0
IsExclusive = Apart clash

-- The same range in the same mode.
abbrev pub twin : ℕ → ℕ → ℕ → Bool → LockRange → Bool
twin owner start len excl r =
    r.owner == owner && (same_range r start len && bool_eq r.is_exclusive excl)

pub twin_comm :
    (a b : LockRange)
    → twin a.owner a.start a.len a.is_exclusive b ≡ twin b.owner b.start b.len b.is_exclusive a
unfolding same_range
twin_comm a b = ground arith

abbrev pub twins : LockRange → LockRange → Bool
twins a = twin a.owner a.start a.len a.is_exclusive

-- What each end of the scan says about the file's ranges.
abbrev pub Scanned : ℕ → ℕ → ℕ → Bool → ℕ → List LockRange → Scan → Type 0
Scanned owner start len excl k rs held = Some (λ r. twin owner start len excl r ≡ true) rs
Scanned owner start len excl k rs refused =
    Some (λ r. clash (entry owner start len excl) r ≡ true) rs
Scanned owner start len excl k rs (owned m) =
    (m ≡ k + count (λ r. r.owner == owner) rs)
    × ClashesWithNone (entry owner start len excl) rs
    × All (λ r. twin owner start len excl r ≡ false) rs

Scanned-cons :
    (owner start len : ℕ) (excl : Bool) (k k' : ℕ) (r : LockRange) (rs : List LockRange) (s : Scan)
    → (k + count (λ r. r.owner == owner) (r ∷ rs) ≡ k' + count (λ r. r.owner == owner) rs)
    → clash (entry owner start len excl) r ≡ false
    → twin owner start len excl r ≡ false
    → Scanned owner start len excl k' rs s
    → Scanned owner start len excl k (r ∷ rs) s
Scanned-cons owner start len excl k k' r rs held e c w h = inr h
Scanned-cons owner start len excl k k' r rs refused e c w h = inr h
Scanned-cons owner start len excl k k' r rs (owned m) e c w h =
    (omega (arith, h.0), (c, h.1), (w, h.2))

pub scan_apply-Scanned :
    (owner start len : ℕ) (excl : Bool) (k : ℕ) (rs : List LockRange)
    → Scanned owner start len excl k rs (scan_apply owner start len excl k rs)
unfolding scan_apply
scan_apply-Scanned owner start len excl k [] = (omega arith, tt, tt)
scan_apply-Scanned owner start len excl k (r ∷ rs) =
    let e = entry owner start len excl in
    elim (Bool-cases (r.owner == owner)) [
      | inl mine ↦ elim (Bool-cases (same_range r start len && bool_eq r.is_exclusive excl)) [
        | inl same ↦ rw (mine, same) (inl (ground arith))
        | inr other ↦
            rw (mine, other)
              (Scanned-cons owner start len excl k (suc k) r rs _ (ground arith) (ground arith)
                (ground arith) (scan_apply-Scanned owner start len excl (suc k) rs))
      ]
      | inr theirs ↦ elim (Bool-cases (ranges_overlap start len r.start r.len)) [
        | inr apart ↦
            rw (theirs, apart)
              (Scanned-cons owner start len excl k k r rs _ (ground arith) (ground arith)
                (ground arith) (scan_apply-Scanned owner start len excl k rs))
        | inl over ↦ elim (Bool-cases (excl || r.is_exclusive)) [
          | inl strong ↦ rw (theirs, over, strong) (inl (ground arith))
          | inr weak ↦
              rw (theirs, over, weak)
                (Scanned-cons owner start len excl k k r rs _ (ground arith) (ground arith)
                  (ground arith) (scan_apply-Scanned owner start len excl k rs))
        ]
      ]
    ]
