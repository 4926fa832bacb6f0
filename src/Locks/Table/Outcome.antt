-- ===== src/Locks/Table/Outcome.antt =====
-- How a request for a lock ends.
use gosamba.Prelude.{
  ℕ, ◌<◌, ◌≤◌, ◌≡◌, subst, ◌⊎◌, inl, inr, Bool, true, false, List, [], ◌∷◌, ◌++◌, if◌then◌else◌,
  arith, All, Some, count, ◌==◌, length, none, some, ◌∙◌,
}
use gosamba.Locks.Range.{
  FileKey, file_key, file_key_eq, LockKind, shared, exclusive, LockRange, same_range,
}
use gosamba.Locks.Table.{
  RangeTable, max_lock_ranges_per_file, max_lock_ranges_per_owner, ranges_at, grant, Scan,
  scan_apply, request, apply, Applied, err_lock_conflict, err_lock_limit,
}
use gosamba.Locks.Table.Lookup.{entry, Grants, grant-Grants}
use gosamba.Locks.Table.Exclusion.{
  clash, clash_comm, IsExclusive, ClashesWithNone, twin, Scanned, scan_apply-Scanned,
}
use gosamba.Locks.Table.Invariant.{owned_by, IsValid}

abbrev pub mode : Bool → LockKind
mode excl = if excl then exclusive else shared

abbrev pub Holds : LockRange → List LockRange → Type 0
Holds e = Some (λ r. twin e.owner e.start e.len e.is_exclusive r ≡ true)

clash_of_twin :
    (e r b : LockRange)
    → twin e.owner e.start e.len e.is_exclusive r ≡ true
    → clash r b ≡ false
    → clash e b ≡ false
unfolding same_range
clash_of_twin e r b h c = rw (same) c
  where
    same : e ≡ r
    same = ground arith

All-clash_of_twin :
    (e r : LockRange) (rs : List LockRange)
    → twin e.owner e.start e.len e.is_exclusive r ≡ true
    → ClashesWithNone r rs
    → ClashesWithNone e rs
All-clash_of_twin e r [] h c = tt
All-clash_of_twin e r (b ∷ rs) h c = (clash_of_twin e r b h c.0, All-clash_of_twin e r rs h c.1)

clash_before :
    (e r : LockRange) (rs : List LockRange) → Holds e rs → ClashesWithNone r rs → clash e r ≡ false
clash_before e r [] h c = elim h [ ]
clash_before e r (b ∷ rs) (inl h) c = clash_of_twin e b r h (clash_comm b r ∙ c.0)
clash_before e r (b ∷ rs) (inr h) c = clash_before e r rs h c.1

-- A handle that holds a range already clashes with nobody over it.
Holds-ClashesWithNone :
    (e : LockRange) (rs : List LockRange) → IsExclusive rs → Holds e rs → ClashesWithNone e rs
Holds-ClashesWithNone e [] x h = elim h [ ]
Holds-ClashesWithNone e (r ∷ rs) x (inl h) = (ground arith, All-clash_of_twin e r rs h x.0)
Holds-ClashesWithNone e (r ∷ rs) x (inr h) =
    (clash_before e r rs h x.0, Holds-ClashesWithNone e rs x.1 h)

-- The handle has no such range yet.
abbrev pub Lacks : LockRange → List LockRange → Type 0
Lacks e = All (λ r. twin e.owner e.start e.len e.is_exclusive r ≡ false)

-- The range is added behind those of its file, and no other file changes.
abbrev pub Adds : RangeTable → FileKey → LockRange → RangeTable → Type 0
Adds t key e t' =
    (j : FileKey)
    → ranges_at j t' ≡ (if file_key_eq key j then ranges_at key t ++ e ∷ [] else ranges_at j t)

-- The four ways in which a request for a lock ends: held already, added, in conflict, or over a limit.
abbrev pub LockOutcome : RangeTable → FileKey → LockRange → Applied → Type 0
LockOutcome t key e (t', err) =
    ((err ≡ none) × (t' ≡ t) × ClashesWithNone e (ranges_at key t) × Holds e (ranges_at key t))
    ⊎ (((err ≡ none)
          × ClashesWithNone e (ranges_at key t)
          × Lacks e (ranges_at key t)
          × (length (ranges_at key t) < max_lock_ranges_per_file)
          × (count (owned_by e.owner) (ranges_at key t) < max_lock_ranges_per_owner)
          × Adds t key e t')
        ⊎ (((err ≡ some err_lock_conflict)
              × (t' ≡ t)
              × Some (λ r. clash e r ≡ true) (ranges_at key t))
            ⊎ ((err ≡ some err_lock_limit)
                × (t' ≡ t)
                × ClashesWithNone e (ranges_at key t)
                × Lacks e (ranges_at key t)
                × ((max_lock_ranges_per_file ≤ length (ranges_at key t))
                    ⊎ (max_lock_ranges_per_owner ≤ count (owned_by e.owner) (ranges_at key t))))))

Grants-LockOutcome :
    (t : RangeTable) (key : FileKey) (owner start len : ℕ) (excl : Bool) (scan : Scan) (r : Applied)
    → IsExclusive (ranges_at key t)
    → Scanned owner start len excl 0 (ranges_at key t) scan
    → Grants t key owner start len excl scan r
    → LockOutcome t key (entry owner start len excl) r
Grants-LockOutcome t key owner start len excl scan r x s (inl (same, inl (e, none_))) =
    let at = subst (Scanned owner start len excl 0 (ranges_at key t)) e s in
    inl (none_, same, Holds-ClashesWithNone (entry owner start len excl) (ranges_at key t) x at, at)
Grants-LockOutcome t key owner start len excl scan r x s (inl (same, inr (inl (e, f)))) =
    inr (inr (inl (f, same, subst (Scanned owner start len excl 0 (ranges_at key t)) e s)))
Grants-LockOutcome t key owner start len excl scan r x s (inl (same, inr (inr (k, e, f, full)))) =
    let at = subst (Scanned owner start len excl 0 (ranges_at key t)) e s in
    inr (
      inr (
        inr (f, same, at.1, at.2, elim full [ inl h ↦ inl h | inr h ↦ inr (omega (arith, at.0)) ])))
Grants-LockOutcome t key owner start len excl scan r x s (inr (k, e, f, room, place, at, u, n)) =
    let seen = subst (Scanned owner start len excl 0 (ranges_at key t)) e s in
    inr (inl (f, seen.1, seen.2, omega (arith, room), omega (arith, place, seen.0), at))

request-LockOutcome :
    (t : RangeTable) (key : FileKey) (owner start len : ℕ) (excl : Bool)
    → IsExclusive (ranges_at key t)
    → LockOutcome t key (entry owner start len excl) (request t key owner start len excl)
unfolding request
request-LockOutcome t key owner start len excl x =
    let scan = scan_apply owner start len excl 0 (ranges_at key t) in
    Grants-LockOutcome t key owner start len excl scan (grant t key owner start len excl scan) x
      (scan_apply-Scanned owner start len excl 0 (ranges_at key t))
      (grant-Grants t key owner start len excl scan)

lt_ne : (n : ℕ) → 0 < n → (n == 0) ≡ false
lt_ne n h = ground arith

-- In a valid table, a request for a non-empty range ends in one of four ways. Where the handle has
-- the range already, it is granted and nothing changes. Where it has not, no range of another handle
-- clashes and neither the file nor the handle is full, it is granted and the range is added to the
-- file's, with every other range kept. Where some range clashes it is refused as a conflict, and where
-- none does and the file or the handle is full, for the limit, and a refusal changes nothing.
pub apply-LockOutcome :
    (t : RangeTable) (key : FileKey) (owner start len : ℕ) (excl : Bool)
    → IsValid t
    → 0 < len
    → LockOutcome t key (entry owner start len excl) (apply t key owner start len (mode excl))
unfolding apply
apply-LockOutcome t key owner start len true v pos =
    rw (lt_ne len pos) (request-LockOutcome t key owner start len true (v.files key).exclusion)
apply-LockOutcome t key owner start len false v pos =
    rw (lt_ne len pos) (request-LockOutcome t key owner start len false (v.files key).exclusion)
