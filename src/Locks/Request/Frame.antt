-- ===== src/Locks/Request/Frame.antt =====
-- A LOCK request of one handle beside the other handles' ranges and the other files.
use gosamba.Prelude.{ℕ, ◌<◌, ◌^◌, ◌≡◌, refl, ◌∙◌, inl, inr, Bool, true, false}
use gosamba.Locks.Range.{FileKey, file_key_eq, LockKind, unlock, shared, exclusive}
use gosamba.Locks.Table.{
  RangeTable, ranges_at, request, apply, keeps_unlock, dispatch_kind, Scan, scan_apply, grant,
  Applied,
}
use gosamba.Locks.Table.Lookup.{ranges_at-retain, Grants, grant-Grants, apply_cases}
use gosamba.Locks.Table.Invariant.{IsValid, apply-IsValid}
use gosamba.Locks.Table.Others.{others, apply-others}

Grants-elsewhere :
    (t : RangeTable) (key j : FileKey) (owner start len : ℕ) (excl : Bool) (scan : Scan)
    (r : Applied)
    → file_key_eq key j ≡ false
    → Grants t key owner start len excl scan r
    → ranges_at j r.0 ≡ ranges_at j t
Grants-elsewhere t key j owner start len excl scan r ne (inl (same, _)) = rw same
Grants-elsewhere t key j owner start len excl scan r ne (inr (k, e, _, room, place, at, u, n)) =
    rw (at j, ne)

request-elsewhere :
    (t : RangeTable) (key j : FileKey) (owner start len : ℕ) (excl : Bool)
    → file_key_eq key j ≡ false
    → ranges_at j (request t key owner start len excl).0 ≡ ranges_at j t
unfolding request
request-elsewhere t key j owner start len excl ne =
    let scan = scan_apply owner start len excl 0 (ranges_at key t) in
    Grants-elsewhere t key j owner start len excl scan (grant t key owner start len excl scan) ne
      (grant-Grants t key owner start len excl scan)

apply-elsewhere :
    (t : RangeTable) (key j : FileKey) (owner start len : ℕ) (kind : LockKind)
    → file_key_eq key j ≡ false
    → ranges_at j (apply t key owner start len kind).0 ≡ ranges_at j t
apply-elsewhere t key j owner start len kind ne =
    apply_cases (λ r. ranges_at j r.0 ≡ ranges_at j t) t key owner start len kind refl
      λ pos. dispatched kind
  where
    dispatched :
        (k : LockKind) → ranges_at j (dispatch_kind t key owner start len k).0 ≡ ranges_at j t
    dispatched unlock = rw (ranges_at-retain t key (keeps_unlock owner start len) j, ne)
    dispatched shared = request-elsewhere t key j owner start len false ne
    dispatched exclusive = request-elsewhere t key j owner start len true ne

-- From `t0` to `t` only the ranges of `owner` on the file `key` may have changed.
pub record Frame (key : FileKey) (owner : ℕ) (t0 t : RangeTable) : Type 0 where
  pub valid : IsValid t
  pub spared : (j : FileKey) → others owner (ranges_at j t) ≡ others owner (ranges_at j t0)
  pub elsewhere : (j : FileKey) → file_key_eq key j ≡ false → ranges_at j t ≡ ranges_at j t0

pub Frame-refl : (key : FileKey) (owner : ℕ) (t : RangeTable) → IsValid t → Frame key owner t t
Frame-refl key owner t v = record { valid = v; spared = λ j. refl; elsewhere = λ j ne. refl }

pub apply-Frame :
    (t0 t : RangeTable) (key : FileKey) (owner start len : ℕ) (kind : LockKind)
    → start < 2 ^ 64
    → len < 2 ^ 64
    → Frame key owner t0 t
    → Frame key owner t0 (apply t key owner start len kind).0
apply-Frame t0 t key owner start len kind hs hl f = record {
  valid = apply-IsValid t key owner start len kind hs hl f.valid;
  spared = λ j. apply-others t key j owner start len kind ∙ f.spared j;
  elsewhere = λ j ne. apply-elsewhere t key j owner start len kind ne ∙ f.elsewhere j ne;
}
