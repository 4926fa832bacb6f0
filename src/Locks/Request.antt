-- ===== src/Locks/Request.antt =====
-- One LOCK request of internal/parent/lock.go: its elements, their validation, and the all-or-nothing
-- application with its rollback.
pub mod Decode
pub mod Members
pub mod Frame
pub mod Unlocked
pub mod Relocked
pub mod Restore
pub mod Atomic
use Prim.Native.Nat.{bit_and}
use gosamba.Prelude.{
  ℕ, zero, suc, ◌+◌, ◌-◌, ◌^◌, Bool, true, false, not, ◌&&◌, ◌||◌, Option, none, some, List, [],
  ◌∷◌, ltb, ◌==◌, if◌then◌else◌, length,
}
use gosamba.Locks.Range.{LockKind, unlock, shared, exclusive, LockRange, kind_of}
use gosamba.Locks.Table.{
  LockError, err_lock_conflict, err_lock_limit, err_lock_range, err_stat, ranges_diff,
}
use gosamba.Locks.Manager.{LockTable, Handle, apply_lock, snapshot_ranges}

-- `smb2.LockElement`
pub record LockElement : Type 0 where
  pub offset : ℕ
  pub len : ℕ
  pub flags : ℕ

abbrev pub lock_flag_shared_lock : ℕ
lock_flag_shared_lock = 0x00000001

abbrev pub lock_flag_exclusive_lock : ℕ
lock_flag_exclusive_lock = 0x00000002

abbrev pub lock_flag_unlock : ℕ
lock_flag_unlock = 0x00000004

abbrev pub lock_flag_fail_immediately : ℕ
lock_flag_fail_immediately = 0x00000010

-- `flags & mask != 0`
unfoldable pub has_flag : ℕ → ℕ → Bool
has_flag flags mask = not (bit_and flags mask == 0)

pub record LockOp : Type 0 where
  pub el : LockElement
  pub kind : LockKind

abbrev pub is_unlock : LockKind → Bool
is_unlock unlock = true
is_unlock shared = false
is_unlock exclusive = false

unfoldable pub blocking : LockOp → Bool
unfolding has_flag
blocking o = not (is_unlock o.kind) && not (has_flag o.el.flags lock_flag_fail_immediately)

-- The `switch` over an element's flags.
unfoldable pub kind_of_flags : ℕ → Option LockKind
unfolding has_flag
kind_of_flags flags =
    if has_flag flags lock_flag_unlock
    then some unlock
    else if has_flag flags lock_flag_shared_lock
    then some shared
    else if has_flag flags lock_flag_exclusive_lock
    then some exclusive
    else none

abbrev pub max_int64 : ℕ
max_int64 = 2 ^ 63 - 1

abbrev pub prepend {ℓ} : {A : Type ℓ} → A → Option (List A) → Option (List A)
prepend a none = none
prepend a (some as_) = some (a ∷ as_)

abbrev pub decode_element :
    LockElement → Option LockKind → Option (List LockOp) → Option (List LockOp)
decode_element el none rest = none
decode_element el (some kind) rest =
    if ltb max_int64 el.offset then none else prepend (record { el = el; kind = kind }) rest

unfoldable pub decode_lock_ops : List LockElement → Option (List LockOp)
decode_lock_ops [] = some []
decode_lock_ops (el ∷ els) = decode_element el (kind_of_flags el.flags) (decode_lock_ops els)

-- The NTSTATUS values that a LOCK is answered with.
pub data LockStatus : Type 0 where
  status_success status_lock_not_granted status_insufficient_resources : LockStatus
  status_invalid_parameter status_internal_error : LockStatus

unfoldable pub lock_status : LockError → LockStatus
lock_status err_lock_conflict = status_lock_not_granted
lock_status err_lock_limit = status_insufficient_resources
lock_status err_lock_range = status_invalid_parameter
lock_status err_stat = status_internal_error

-- Rollback ignores errors, apart from its log.
unfoldable pub unlock_all : LockTable → Handle → List LockRange → LockTable
unlock_all l h [] = l
unlock_all l h (r ∷ rs) = unlock_all (apply_lock l h r.start r.len unlock).0 h rs

unfoldable pub relock_all : LockTable → Handle → List LockRange → LockTable
relock_all l h [] = l
relock_all l h (r ∷ rs) = relock_all (apply_lock l h r.start r.len (kind_of r)).0 h rs

unfoldable pub restore_locks : LockTable → Handle → List LockRange → LockTable
restore_locks l h snap = relock_all (unlock_all l h (ranges_diff (snapshot_ranges l h) snap)) h snap

-- The table afterwards, and the index and error of the element that failed.
abbrev pub Result : Type 0
Result = LockTable × Option (ℕ × LockError)

-- `undo` is what the failing branch does with the table.
unfoldable pub apply_ops : (LockTable → LockTable) → Handle → ℕ → LockTable → List LockOp → Result
apply_ops undo h i l [] = (l, none)
apply_ops undo h i l (op ∷ ops) =
    let (l', err) = apply_lock l h op.el.offset op.el.len op.kind in
    let rest = apply_ops undo h (suc i) l' ops in
    elim err [ none ↦ rest | some e ↦ (undo l', some (i, e)) ]

unfoldable pub apply_lock_ops : LockTable → Handle → List LockOp → Result
apply_lock_ops l h ops =
    let many = ltb 1 (length ops) in
    let snap = if many then snapshot_ranges l h else [] in
    apply_ops (λ l'. if many then restore_locks l' h snap else l') h 0 l ops

-- What `handleLock` does with a decoded request: the answer, or the request is parked.
pub data Reply : Type 0 where
  answers : LockStatus → Reply
  parks : Reply

-- The request's handle: unknown, without a file, or open. `can_park` tells whether `startLockWait`
-- finds fewer than the cap of parked requests.
pub data Target : Type 0 where
  unknown no_file : Target
  open_file : Handle → Target

unfoldable pub op_blocking : ℕ → List LockOp → Bool
op_blocking i [] = false
op_blocking zero (op ∷ ops) = blocking op
op_blocking (suc i) (op ∷ ops) = op_blocking i ops

abbrev pub is_conflict : LockError → Bool
is_conflict err_lock_conflict = true
is_conflict err_lock_limit = false
is_conflict err_lock_range = false
is_conflict err_stat = false

unfoldable pub reply_of : Bool → List LockOp → Option (ℕ × LockError) → Reply
reply_of can_park ops none = answers status_success
reply_of can_park ops (some (i, e)) =
    if is_conflict e && (op_blocking i ops && can_park) then parks else answers (lock_status e)

abbrev pub apply_decoded : Bool → LockTable → Handle → Option (List LockOp) → LockTable × Reply
apply_decoded can_park l h none = (l, answers status_invalid_parameter)
apply_decoded can_park l h (some ops) =
    let (l', r) = apply_lock_ops l h ops in (l', reply_of can_park ops r)

unfoldable pub handle_lock : Bool → LockTable → Target → List LockElement → LockTable × Reply
handle_lock can_park l unknown els = (l, answers status_invalid_parameter)
handle_lock can_park l no_file els = (l, answers status_invalid_parameter)
handle_lock can_park l (open_file h) els = apply_decoded can_park l h (decode_lock_ops els)
