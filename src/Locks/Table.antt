-- ===== src/Locks/Table.antt =====
-- `rangeTable` of internal/parent/lock_ranges.go: the ranges of every file, and their total.
pub mod Lookup
pub mod Exclusion
pub mod Invariant
pub mod Conflict
pub mod Others
pub mod Outcome
pub mod Runs
pub mod Loss
use gosamba.Prelude.{
  ℕ, suc, ◌+◌, ◌-◌, ◌≡◌, Bool, true, false, not, ◌&&◌, ◌||◌, Option, none, some, List, [], ◌∷◌,
  ◌++◌, leb, ◌==◌, bool_eq, if◌then◌else◌, length, filter,
}
use gosamba.Prelude.Assoc.{Map, get?, put, delete}
pub use gosamba.Prelude.Assoc.{or_nil}
use gosamba.Locks.Range.{
  FileKey, file_key, LockKind, unlock, shared, exclusive, LockRange, ranges_overlap, same_range,
}

pub record RangeTable : Type 0 where
  pub locks : Map FileKey (List LockRange)
  pub n : ℕ

abbrev pub new_range_table : RangeTable
new_range_table = record { locks = []; n = 0 }

abbrev pub max_lock_ranges_per_file : ℕ
max_lock_ranges_per_file = 4096

abbrev pub max_lock_ranges_per_owner : ℕ
max_lock_ranges_per_owner = 1024

-- `errLockConflict`, `errLockLimit`, `errLockRange`, and what `fstat` may return.
pub data LockError : Type 0 where
  err_lock_conflict err_lock_limit err_lock_range err_stat : LockError

unfoldable pub ranges_at : FileKey → RangeTable → List LockRange
ranges_at key t = or_nil (get? key t.locks)

-- `if len(out) == 0 { delete } else { store }`
unfoldable pub store :
    FileKey → List LockRange → Map FileKey (List LockRange) → Map FileKey (List LockRange)
store key [] m = delete key m
store key (r ∷ rs) m = put key (r ∷ rs) m

-- The loop body of `conflict`: whether the range forbids the I/O.
unfoldable pub forbids : ℕ → ℕ → ℕ → Bool → LockRange → Bool
forbids owner start len write r =
    if r.owner == owner
    then false
    else if not (ranges_overlap start len r.start r.len)
    then false
    else (write || r.is_exclusive)

unfoldable pub scan_conflict : ℕ → ℕ → ℕ → Bool → List LockRange → Bool
scan_conflict owner start len write [] = false
scan_conflict owner start len write (r ∷ rs) =
    if forbids owner start len write r then true else scan_conflict owner start len write rs

unfoldable pub conflict : RangeTable → FileKey → ℕ → ℕ → ℕ → Bool → Bool
conflict t key owner start len write =
    if len == 0 then false else scan_conflict owner start len write (ranges_at key t)

-- How the loop over the file's ranges ends when a lock is asked for.
pub data Scan : Type 0 where
  held : Scan
  refused : Scan
  owned : ℕ → Scan

unfoldable pub scan_apply : ℕ → ℕ → ℕ → Bool → ℕ → List LockRange → Scan
scan_apply owner start len excl k [] = owned k
scan_apply owner start len excl k (r ∷ rs) =
    let mine = scan_apply owner start len excl (suc k) rs in
    let rest = scan_apply owner start len excl k rs in
    if r.owner == owner
    then (if same_range r start len && bool_eq r.is_exclusive excl then held else mine)
    else if not (ranges_overlap start len r.start r.len)
    then rest
    else if excl || r.is_exclusive
    then refused
    else rest

-- The new table, and the error if there is one.
abbrev pub Applied : Type 0
Applied = RangeTable × Option LockError

unfoldable pub grant : RangeTable → FileKey → ℕ → ℕ → ℕ → Bool → Scan → Applied
grant t key owner start len excl held = (t, none)
grant t key owner start len excl refused = (t, some err_lock_conflict)
grant t key owner start len excl (owned k) =
    let rs = ranges_at key t in
    if leb max_lock_ranges_per_file (length rs) || leb max_lock_ranges_per_owner k
    then (t, some err_lock_limit)
    else (
      record {
        locks =
            put key
              (rs ++ record { owner = owner; start = start; len = len; is_exclusive = excl } ∷ [])
              t.locks;
        n = t.n + 1;
      },
      none,
    )

unfoldable pub keeps_unlock : ℕ → ℕ → ℕ → LockRange → Bool
keeps_unlock owner start len r = not (r.owner == owner && same_range r start len)

-- Drops the ranges that fail the test.
unfoldable pub retain : RangeTable → FileKey → (LockRange → Bool) → RangeTable
retain t key keep =
    let rs = ranges_at key t in
    let out = filter keep rs in
    record { locks = store key out t.locks; n = t.n - (length rs - length out) }

unfoldable pub request : RangeTable → FileKey → ℕ → ℕ → ℕ → Bool → Applied
request t key owner start len excl =
    grant t key owner start len excl (scan_apply owner start len excl 0 (ranges_at key t))

abbrev pub dispatch_kind : RangeTable → FileKey → ℕ → ℕ → ℕ → LockKind → Applied
dispatch_kind t key owner start len unlock = (retain t key (keeps_unlock owner start len), none)
dispatch_kind t key owner start len shared = request t key owner start len false
dispatch_kind t key owner start len exclusive = request t key owner start len true

unfoldable pub apply : RangeTable → FileKey → ℕ → ℕ → ℕ → LockKind → Applied
apply t key owner start len kind =
    if len == 0 then (t, none) else dispatch_kind t key owner start len kind

unfoldable pub release_owner : RangeTable → FileKey → ℕ → RangeTable
release_owner t key owner = retain t key (λ r. not (r.owner == owner))

-- The ranges of `a` that have no counterpart in `b`.
unfoldable pub counterpart : LockRange → LockRange → Bool
counterpart r o = same_range o r.start r.len && bool_eq o.is_exclusive r.is_exclusive

unfoldable pub has_counterpart : LockRange → List LockRange → Bool
has_counterpart r [] = false
has_counterpart r (o ∷ b) = if counterpart r o then true else has_counterpart r b

unfoldable pub ranges_diff : List LockRange → List LockRange → List LockRange
ranges_diff [] b = []
ranges_diff (r ∷ a) b = if has_counterpart r b then ranges_diff a b else r ∷ ranges_diff a b
