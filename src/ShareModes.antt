-- ===== src/ShareModes.antt =====
-- Share modes: the process-wide table of internal/parent/sharemode.go. Each method holds the mutex.
pub mod Conflict
pub mod Sweep
pub mod Invariant
pub mod Admit
pub mod Dispose
pub mod Renamed
pub mod Runs
pub mod Waiters
use gosamba.Prelude.{
  ℕ, zero, suc, ◌+◌, Bool, true, false, not, ◌&&◌, ◌||◌, Option, none, some, List, [], ◌∷◌, ◌++◌,
  ◌==◌, bool_eq, if◌then◌else◌, length, filter, any, bit_and,
}
use gosamba.Prelude.Assoc.{Map, get?, put, delete, or_nil, nat_key}
use gosamba.Locks.Range.{FileKey, file_key, file_key_eq}
use gosamba.Access.{
  has_bits, only_bits, share_access_read, share_access_write, share_access_delete,
  sharing_read_access, sharing_write_access, sharing_delete_access, sharing_attr_only_access,
}

-- One live open's part in a file's share state. The owner is the handle's identity.
pub record ShareModeEntry : Type 0 where
  pub owner : ℕ
  pub reads : Bool
  pub writes : Bool
  pub deletes : Bool
  pub attr_only : Bool
  pub sharing : ℕ

unfoldable pub new_share_mode_entry : ℕ → ℕ → ℕ → ShareModeEntry
new_share_mode_entry owner desired share = record {
  owner = owner;
  reads = has_bits desired sharing_read_access;
  writes = has_bits desired sharing_write_access;
  deletes = has_bits desired sharing_delete_access;
  attr_only = only_bits desired sharing_attr_only_access;
  sharing = share;
}

unfoldable pub share_conflict : ShareModeEntry → ShareModeEntry → Bool
share_conflict existing incoming =
    if not (bool_eq existing.attr_only incoming.attr_only)
    then false
    else if incoming.reads && not (has_bits existing.sharing share_access_read)
    then true
    else if incoming.writes && not (has_bits existing.sharing share_access_write)
    then true
    else if incoming.deletes && not (has_bits existing.sharing share_access_delete)
    then true
    else if existing.reads && not (has_bits incoming.sharing share_access_read)
    then true
    else if existing.writes && not (has_bits incoming.sharing share_access_write)
    then true
    else if existing.deletes && not (has_bits incoming.sharing share_access_delete)
    then true
    else false

-- A parked CREATE: its channel is a number.
pub record ShareWaiter : Type 0 where
  pub key : FileKey
  pub channel : ℕ

-- `closed` lists the channels that a wake closed; `next_channel` numbers the next one.
pub record ShareModeTable : Type 0 where
  pub by_file : Map FileKey (List ShareModeEntry)
  pub owners : Map ℕ FileKey
  pub waiters : Map FileKey (List ShareWaiter)
  pub closed : List ℕ
  pub next_channel : ℕ

abbrev pub new_share_mode_table : ShareModeTable
new_share_mode_table = record {
  by_file = [];
  owners = [];
  waiters = [];
  closed = [];
  next_channel = 0;
}

unfoldable pub entries_at : FileKey → ShareModeTable → List ShareModeEntry
entries_at key t = or_nil (get? key t.by_file)

unfoldable pub waiters_at : FileKey → ShareModeTable → List ShareWaiter
waiters_at key t = or_nil (get? key t.waiters)

unfoldable pub store :
    FileKey
    → List ShareModeEntry
    → Map FileKey (List ShareModeEntry)
    → Map FileKey (List ShareModeEntry)
store key [] m = delete key m
store key (e ∷ es) m = put key (e ∷ es) m

-- What `fstat` says of each handle's descriptor, `none` where the handle has none.
abbrev pub Stat : Type 0
Stat = ℕ → Option FileKey

abbrev pub same_file : FileKey → Option FileKey → Bool
same_file key none = false
same_file key (some k) = file_key_eq k key

unfoldable pub entry_live : Stat → FileKey → ShareModeEntry → Bool
entry_live stat key e = same_file key (stat e.owner)

unfoldable pub scan_check : Stat → FileKey → ShareModeEntry → List ShareModeEntry → Bool
scan_check stat key probe [] = true
scan_check stat key probe (e ∷ es) =
    let rest = scan_check stat key probe es in
    if not (entry_live stat key e) then rest else if share_conflict e probe then false else rest

-- The probe of `checkLocked` has no owner; 0 stands for the nil handle and is not read.
unfoldable pub check_locked : Stat → ShareModeTable → FileKey → ℕ → ℕ → Bool
check_locked stat t key desired share =
    scan_check stat key (new_share_mode_entry 0 desired share) (entries_at key t)

-- `delete(t.owners, e.owner)` for the dead entries.
unfoldable pub sweep_owners :
    (ShareModeEntry → Bool) → List ShareModeEntry → Map ℕ FileKey → Map ℕ FileKey
sweep_owners live [] owners = owners
sweep_owners live (e ∷ es) owners =
    sweep_owners live es (if live e then owners else delete e.owner owners)

abbrev pub conflicts_with_any : ShareModeEntry → List ShareModeEntry → Bool
conflicts_with_any incoming = any (λ e. share_conflict e incoming)

-- The table without the dead entries of the file.
unfoldable pub swept : Stat → ShareModeTable → FileKey → ShareModeTable
swept stat t key = record t {
  by_file = store key (filter (entry_live stat key) (entries_at key t)) t.by_file;
  owners = sweep_owners (entry_live stat key) (entries_at key t) t.owners;
}

unfoldable pub admit : Stat → ShareModeTable → FileKey → ShareModeEntry → ShareModeTable × Bool
admit stat t key incoming =
    let kept = filter (entry_live stat key) (entries_at key t) in
    let owners = sweep_owners (entry_live stat key) (entries_at key t) t.owners in
    if conflicts_with_any incoming kept
    then (record t { by_file = store key kept t.by_file; owners = owners }, false)
    else (
      record t {
        by_file = store key (kept ++ incoming ∷ []) t.by_file;
        owners = put incoming.owner key owners;
      },
      true,
    )

abbrev pub is_some {ℓ} : {A : Type ℓ} → Option A → Bool
is_some none = false
is_some (some a) = true

unfoldable pub acquire_locked : Stat → ShareModeTable → FileKey → ℕ → ℕ → ℕ → ShareModeTable × Bool
acquire_locked stat t key o desired share =
    if is_some (get? o t.owners)
    then (t, true)
    else admit stat t key (new_share_mode_entry o desired share)

abbrev pub channels : List ShareWaiter → List ℕ
channels [] = []
channels (w ∷ ws) = w.channel ∷ channels ws

unfoldable pub wake_locked : ShareModeTable → FileKey → ShareModeTable
wake_locked t key = record t {
  waiters = delete key t.waiters;
  closed = channels (waiters_at key t) ++ t.closed;
}

unfoldable pub release_at : ShareModeTable → ℕ → Option FileKey → ShareModeTable
release_at t o none = t
release_at t o (some key) =
    wake_locked
      (record t {
        owners = delete o t.owners;
        by_file = store key (filter (λ e. not (e.owner == o)) (entries_at key t)) t.by_file;
      })
      key

unfoldable pub release : ShareModeTable → ℕ → ShareModeTable
release t o = release_at t o (get? o t.owners)

-- The first entry of `from` becomes an entry of `to`.
unfoldable pub rename_first : ℕ → ℕ → List ShareModeEntry → List ShareModeEntry
rename_first from to [] = []
rename_first from to (e ∷ es) =
    if e.owner == from then record e { owner = to } ∷ es else e ∷ rename_first from to es

unfoldable pub transfer_at : ShareModeTable → ℕ → ℕ → Option FileKey → ShareModeTable
transfer_at t from to none = t
transfer_at t from to (some key) = record t {
  owners = put to key (delete from t.owners);
  by_file = put key (rename_first from to (entries_at key t)) t.by_file;
}

unfoldable pub transfer : ShareModeTable → ℕ → ℕ → ShareModeTable
transfer t from to = if from == to then t else transfer_at t from to (get? from t.owners)

unfoldable pub register_waiter_locked : ShareModeTable → FileKey → ShareModeTable × ShareWaiter
register_waiter_locked t key =
    let w : ShareWaiter = record { key = key; channel = t.next_channel } in
    (
      record t {
        waiters = put key (waiters_at key t ++ w ∷ []) t.waiters;
        next_channel = suc t.next_channel;
      },
      w,
    )

abbrev pub or_wait : FileKey → ShareModeTable × Bool → ShareModeTable × Option ShareWaiter
or_wait key (t, true) = (t, none)
or_wait key (t, false) = let (t', w) = register_waiter_locked t key in (t', some w)

-- No waiter means that the reservation was made.
unfoldable pub acquire_or_wait :
    Stat → ShareModeTable → FileKey → ℕ → ℕ → ℕ → ShareModeTable × Option ShareWaiter
acquire_or_wait stat t key o desired share = or_wait key (acquire_locked stat t key o desired share)

unfoldable pub drop_first : ℕ → List ShareWaiter → List ShareWaiter
drop_first c [] = []
drop_first c (w ∷ ws) = if w.channel == c then ws else w ∷ drop_first c ws

unfoldable pub store_waiters :
    FileKey → List ShareWaiter → Map FileKey (List ShareWaiter) → Map FileKey (List ShareWaiter)
store_waiters key [] m = delete key m
store_waiters key (w ∷ ws) m = put key (w ∷ ws) m

unfoldable pub unwait : ShareModeTable → ShareWaiter → ShareModeTable
unwait t w =
    let ws = waiters_at w.key t in
    if any (λ x. x.channel == w.channel) ws
    then record t { waiters = store_waiters w.key (drop_first w.channel ws) t.waiters }
    else t
