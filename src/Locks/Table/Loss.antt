-- ===== src/Locks/Table/Loss.antt =====
-- How one call changes the total count and the tracked ranges.
use gosamba.Prelude.{
  ℕ, ◌<◌, ◌≤◌, ◌≡◌, refl, ◌⊎◌, inl, inr, Bool, true, false, not, List, [], ◌∷◌, ◌++◌, arith, length,
  filter, Bool-cases, ◌==◌, length-filter_le,
}
use gosamba.Prelude.Assoc.{Map, get?, total}
use gosamba.Locks.Range.{
  FileKey, file_key, file_key_eq, file_key_eq_iff, LockKind, unlock, shared, exclusive, LockRange,
}
use gosamba.Locks.Table.{
  RangeTable, or_nil, ranges_at, retain, grant, Scan, scan_apply, request, apply, release_owner,
  keeps_unlock, Applied, dispatch_kind,
}
use gosamba.Locks.Table.Lookup.{entry, ranges_at-retain, Grants, grant-Grants, apply_cases}
use gosamba.Locks.Table.Invariant.{IsValid}
use gosamba.Locks.Table.Runs.{In}

-- Every range of every file is still tracked.
abbrev pub Keeps : RangeTable → RangeTable → Type 0
Keeps t t' = (j : FileKey) (r : LockRange) → In r (ranges_at j t) → In r (ranges_at j t')

filter-dichotomy :
    (keep : LockRange → Bool) (rs : List LockRange)
    → (filter keep rs ≡ rs) ⊎ (length (filter keep rs) < length rs)
filter-dichotomy keep [] = inl refl
filter-dichotomy keep (r ∷ rs) = ground (arith, filter-dichotomy keep rs, length-filter_le keep rs)

length-le-total :
    (key : FileKey) (m : Map FileKey (List LockRange))
    → length (or_nil (get? key m)) ≤ total length m
unfolding get?
length-le-total key [] = omega arith
length-le-total key ((j, rs) ∷ m) = ground (arith, length-le-total key m)

retain-fewer :
    (t : RangeTable) (key : FileKey) (keep : LockRange → Bool)
    → IsValid t
    → length (filter keep (ranges_at key t)) < length (ranges_at key t)
    → (retain t key keep).n < t.n
unfolding retain ranges_at
retain-fewer t key keep v less = omega (arith, length-le-total key t.locks, v.counted)

retain-loss :
    (t : RangeTable) (key : FileKey) (keep : LockRange → Bool)
    → IsValid t
    → ((retain t key keep).n < t.n) ⊎ Keeps t (retain t key keep)
retain-loss t key keep v = elim (filter-dichotomy keep (ranges_at key t)) [
  | inl same ↦ inr (λ j r i. elim (Bool-cases (file_key_eq key j)) [
    | inl e ↦ rw (ranges_at-retain t key keep j, e, same, (file_key_eq_iff key j).0 e) i
    | inr e ↦ rw (ranges_at-retain t key keep j, e) i
  ])
  | inr less ↦ inl (retain-fewer t key keep v less)
]

In-append : (r e : LockRange) (rs : List LockRange) → In r rs → In r (rs ++ e ∷ [])
In-append r e [] i = elim i [ ]
In-append r e (x ∷ rs) (inl i) = inl i
In-append r e (x ∷ rs) (inr i) = inr (In-append r e rs i)

Grants-Keeps :
    (t : RangeTable) (key : FileKey) (owner start len : ℕ) (excl : Bool) (scan : Scan) (r : Applied)
    → Grants t key owner start len excl scan r
    → Keeps t r.0
Grants-Keeps t key owner start len excl scan r (inl (same, _)) j x i = rw same i
Grants-Keeps t key owner start len excl scan r (inr (k, e, _, room, place, at, u, n)) j x i =
    elim (Bool-cases (file_key_eq key j)) [
      | inl same ↦
          rw (at j, same, (file_key_eq_iff key j).0 same)
            (In-append x (entry owner start len excl) (ranges_at j t) i)
      | inr other ↦ rw (at j, other) i
    ]

request-Keeps :
    (t : RangeTable) (key : FileKey) (owner start len : ℕ) (excl : Bool)
    → Keeps t (request t key owner start len excl).0
unfolding request
request-Keeps t key owner start len excl =
    let scan = scan_apply owner start len excl 0 (ranges_at key t) in
    Grants-Keeps t key owner start len excl scan (grant t key owner start len excl scan)
      (grant-Grants t key owner start len excl scan)

pub apply-loss :
    (t : RangeTable) (key : FileKey) (owner start len : ℕ) (kind : LockKind)
    → IsValid t
    → ((apply t key owner start len kind).0.n < t.n) ⊎ Keeps t (apply t key owner start len kind).0
apply-loss t key owner start len kind v =
    apply_cases (λ r. (r.0.n < t.n) ⊎ Keeps t r.0) t key owner start len kind (inr (λ j r i. i))
      λ pos. dispatched kind
  where
    dispatched :
        (k : LockKind)
        → ((dispatch_kind t key owner start len k).0.n < t.n)
          ⊎ Keeps t (dispatch_kind t key owner start len k).0
    dispatched unlock = retain-loss t key (keeps_unlock owner start len) v
    dispatched shared = inr (request-Keeps t key owner start len false)
    dispatched exclusive = inr (request-Keeps t key owner start len true)

pub release_owner-loss :
    (t : RangeTable) (key : FileKey) (owner : ℕ)
    → IsValid t
    → ((release_owner t key owner).n < t.n) ⊎ Keeps t (release_owner t key owner)
unfolding release_owner
release_owner-loss t key owner v = retain-loss t key (λ r. not (r.owner == owner)) v
