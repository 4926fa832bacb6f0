-- ===== src/Locks/Manager.antt =====
-- `lockTable` of internal/parent/lock_ranges.go: the table behind its mutex, the published count and
-- the channel that wakes parked requests; and the lock manager of internal/parent/lock_darwin.go,
-- which finds a handle's file by `fstat`. Each method holds the mutex, so a call is one step.
pub mod Published
pub mod Wake
use gosamba.Prelude.{
  ℕ, suc, ◌+◌, Bool, true, false, ◌&&◌, ◌||◌, Option, none, some, List, [], ◌∷◌, leb, ltb, ◌==◌,
  if◌then◌else◌, length, filter, count,
}
use gosamba.Locks.Range.{FileKey, LockKind, LockRange}
use gosamba.Locks.Table.{
  RangeTable, new_range_table, LockError, err_stat, ranges_at, max_lock_ranges_per_file,
  max_lock_ranges_per_owner,
}
use gosamba.Locks.Table

-- Channels are numbered in the order of their creation; `closed` lists those that were closed.
pub record LockTable : Type 0 where
  pub t : RangeTable
  pub n : ℕ
  pub released : Option ℕ
  pub closed : List ℕ
  pub next_channel : ℕ

abbrev pub new_lock_table : LockTable
new_lock_table = record {
  t = new_range_table;
  n = 0;
  released = none;
  closed = [];
  next_channel = 0;
}

-- `close(l.released)` of a channel that exists.
abbrev pub close_released : Option ℕ → List ℕ → List ℕ
close_released none closed = closed
close_released (some c) closed = c ∷ closed

-- With the table already changed, and its count before the change.
unfoldable pub publish : LockTable → ℕ → LockTable
publish l before =
    if ltb l.t.n before
    then record l { n = l.t.n; released = none; closed = close_released l.released l.closed }
    else record l { n = l.t.n }

unfoldable pub apply : LockTable → FileKey → ℕ → ℕ → ℕ → LockKind → LockTable × Option LockError
apply l key owner start len kind =
    let (t', err) = Table.apply l.t key owner start len kind in
    (publish (record l { t = t' }) l.t.n, err)

unfoldable pub release_owner : LockTable → FileKey → ℕ → LockTable
release_owner l key owner = publish (record l { t = Table.release_owner l.t key owner }) l.t.n

unfoldable pub empty : LockTable → Bool
empty l = l.n == 0

unfoldable pub conflict : LockTable → FileKey → ℕ → ℕ → ℕ → Bool → Bool
unfolding empty
conflict l key owner start len write =
    if empty l then false else Table.conflict l.t key owner start len write

unfoldable pub snapshot : LockTable → FileKey → ℕ → List LockRange
snapshot l key owner = filter (λ r. r.owner == owner) (ranges_at key l.t)

unfoldable pub at_capacity : LockTable → FileKey → ℕ → Bool
at_capacity l key owner =
    let rs = ranges_at key l.t in
    if leb max_lock_ranges_per_file (length rs)
    then true
    else leb max_lock_ranges_per_owner (count (λ r. r.owner == owner) rs)

abbrev pub signal_from : LockTable → Option ℕ → LockTable × ℕ
signal_from l none =
    (record l { released = some l.next_channel; next_channel = suc l.next_channel }, l.next_channel)
signal_from l (some c) = (l, c)

-- The channel that the next release closes, created if there is none.
unfoldable pub release_signal : LockTable → LockTable × ℕ
release_signal l = signal_from l l.released

-- A handle with an open file: its identity, and what `fstat` of its descriptor returns.
pub record Handle : Type 0 where
  pub id : ℕ
  pub key : Option FileKey

unfoldable pub apply_lock : LockTable → Handle → ℕ → ℕ → LockKind → LockTable × Option LockError
apply_lock l h offset len kind = elim h.key [
  | none ↦ (l, some err_stat)
  | some key ↦ apply l key h.id offset len kind
]

unfoldable pub release_all : LockTable → Handle → LockTable
release_all l h = elim h.key [ none ↦ l | some key ↦ release_owner l key h.id ]

unfoldable pub conflicts_with : LockTable → Handle → ℕ → ℕ → Bool → Bool
unfolding empty
conflicts_with l h offset len write =
    if len == 0 || empty l
    then false
    else elim h.key [ none ↦ false | some key ↦ conflict l key h.id offset len write ]

unfoldable pub snapshot_ranges : LockTable → Handle → List LockRange
snapshot_ranges l h = elim h.key [ none ↦ [] | some key ↦ snapshot l key h.id ]
