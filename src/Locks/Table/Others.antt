-- ===== src/Locks/Table/Others.antt =====
-- A call of one handle and the ranges of the others.
use gosamba.Prelude.{
  ℕ, ◌≡◌, refl, ap, inl, inr, Bool, true, false, not, List, [], ◌∷◌, ◌++◌, if◌then◌else◌, arith,
  Bool-cases, ◌==◌, filter, append-nil, filter-append, ◌∙◌,
}
use gosamba.Locks.Range.{
  FileKey, file_key, file_key_eq, file_key_eq_iff, LockKind, unlock, shared, exclusive, LockRange,
}
use gosamba.Locks.Table.{
  RangeTable, ranges_at, retain, grant, Scan, scan_apply, request, apply, release_owner,
  keeps_unlock, Applied, dispatch_kind,
}
use gosamba.Locks.Table.Lookup.{entry, ranges_at-retain, Grants, grant-Grants, apply_cases}

abbrev pub not_owned_by : ℕ → LockRange → Bool
not_owned_by owner r = not (r.owner == owner)

-- The ranges of all handles but one.
abbrev pub others : ℕ → List LockRange → List LockRange
others owner = filter (not_owned_by owner)

others-filter :
    (owner : ℕ) (keep : LockRange → Bool) (rs : List LockRange)
    → ((r : LockRange) → not_owned_by owner r ≡ true → keep r ≡ true)
    → others owner (filter keep rs) ≡ others owner rs
others-filter owner keep [] h = refl
others-filter owner keep (r ∷ rs) h = ground (arith, h r, others-filter owner keep rs h)

others-append :
    (owner start len : ℕ) (excl : Bool) (rs : List LockRange)
    → others owner (rs ++ entry owner start len excl ∷ []) ≡ others owner rs
others-append owner start len excl rs = ground (
  arith,
  filter-append (not_owned_by owner) rs (entry owner start len excl ∷ []),
  append-nil (others owner rs),
)

at_key :
    (t t' : RangeTable) (key j : FileKey) (new : List LockRange)
    (f : List LockRange → List LockRange)
    → ranges_at j t' ≡ (if file_key_eq key j then new else ranges_at j t)
    → f new ≡ f (ranges_at key t)
    → f (ranges_at j t') ≡ f (ranges_at j t)
at_key t t' key j new f e h = elim (Bool-cases (file_key_eq key j)) [
  | inl same ↦ rw (e, same) (h ∙ ap (λ k. f (ranges_at k t)) ((file_key_eq_iff key j).0 same))
  | inr other ↦ rw (e, other)
]

-- Dropping some of one handle's ranges.
retain-others :
    (t : RangeTable) (key j : FileKey) (owner : ℕ) (keep : LockRange → Bool)
    → ((r : LockRange) → not_owned_by owner r ≡ true → keep r ≡ true)
    → others owner (ranges_at j (retain t key keep)) ≡ others owner (ranges_at j t)
retain-others t key j owner keep h =
    at_key t (retain t key keep) key j (filter keep (ranges_at key t)) (others owner)
      (ranges_at-retain t key keep j) (others-filter owner keep (ranges_at key t) h)

Grants-others :
    (t : RangeTable) (key j : FileKey) (owner start len : ℕ) (excl : Bool) (scan : Scan)
    (r : Applied)
    → Grants t key owner start len excl scan r
    → others owner (ranges_at j r.0) ≡ others owner (ranges_at j t)
Grants-others t key j owner start len excl scan r (inl (same, _)) = rw same
Grants-others t key j owner start len excl scan r (inr (k, e, _, room, place, at, u, n)) =
    at_key t r.0 key j (ranges_at key t ++ entry owner start len excl ∷ []) (others owner) (at j)
      (others-append owner start len excl (ranges_at key t))

request-others :
    (t : RangeTable) (key j : FileKey) (owner start len : ℕ) (excl : Bool)
    → others owner (ranges_at j (request t key owner start len excl).0)
      ≡ others owner (ranges_at j t)
unfolding request
request-others t key j owner start len excl =
    let scan = scan_apply owner start len excl 0 (ranges_at key t) in
    Grants-others t key j owner start len excl scan (grant t key owner start len excl scan)
      (grant-Grants t key owner start len excl scan)

keeps_unlock-others :
    (owner start len : ℕ) (r : LockRange)
    → not_owned_by owner r ≡ true
    → keeps_unlock owner start len r ≡ true
unfolding keeps_unlock
keeps_unlock-others owner start len r h = ground arith

-- `apply` by one handle, in any mode and with any result, leaves every range of every other handle
-- in place, in order, on every file.
pub apply-others :
    (t : RangeTable) (key j : FileKey) (owner start len : ℕ) (kind : LockKind)
    → others owner (ranges_at j (apply t key owner start len kind).0) ≡ others owner (ranges_at j t)
apply-others t key j owner start len kind =
    apply_cases (λ r. others owner (ranges_at j r.0) ≡ others owner (ranges_at j t)) t key owner
      start len kind refl λ pos. dispatched kind
  where
    dispatched :
        (k : LockKind)
        → others owner (ranges_at j (dispatch_kind t key owner start len k).0)
          ≡ others owner (ranges_at j t)
    dispatched unlock =
        retain-others t key j owner (keeps_unlock owner start len)
          (keeps_unlock-others owner start len)
    dispatched shared = request-others t key j owner start len false
    dispatched exclusive = request-others t key j owner start len true

pub release_owner-others :
    (t : RangeTable) (key j : FileKey) (owner : ℕ)
    → others owner (ranges_at j (release_owner t key owner)) ≡ others owner (ranges_at j t)
unfolding release_owner
release_owner-others t key j owner = retain-others t key j owner (not_owned_by owner) (λ r h. h)
