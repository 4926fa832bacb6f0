-- ===== src/Examples/LockRequest.antt =====
-- LOCK requests of several elements: grants, refusals and their rollback.
use gosamba.Prelude.{ℕ, ◌≡◌, refl, true, List, [], ◌∷◌, some, arith}
use gosamba.Prelude.Assoc.{get?, put, delete}
use gosamba.Locks.Range.{FileKey, exclusive, same_range, ranges_overlap}
use gosamba.Locks.Table.{
  ranges_at, request, scan_apply, grant, retain, store, keeps_unlock, new_range_table,
}
use gosamba.Locks.Table
use gosamba.Locks.Table.Invariant.{IsValid, new_range_table-IsValid}
use gosamba.Locks.Manager.{
  LockTable, new_lock_table, Handle, apply_lock, snapshot_ranges, snapshot, publish,
}
use gosamba.Locks.Manager
use gosamba.Locks.Manager.Published.{apply-IsSound}
use gosamba.Locks.Request.{
  LockElement, open_file, handle_lock, answers, status_lock_not_granted, decode_lock_ops,
  kind_of_flags, apply_lock_ops, apply_ops, reply_of, op_blocking, blocking, lock_status,
}
use gosamba.Locks.Request.Decode.{handle_lock-atomic}
use gosamba.Locks.Request.Atomic.{IsRestored}

abbrev file : FileKey
file = record { dev = 1; ino = 42 }

-- Client 1 holds bytes 20 to 30.
abbrev held_locks : LockTable
held_locks = (Manager.apply new_lock_table file 1 20 10 exclusive).0

held_locks-IsValid : IsValid held_locks.t
held_locks-IsValid =
    (apply-IsSound new_lock_table file 1 20 10 exclusive (omega arith) (omega arith)
      (record { valid = new_range_table-IsValid; published = refl })).valid

abbrev client : Handle
client = record { id = 2; key = some file }

abbrev element : ℕ → ℕ → ℕ → LockElement
element offset len flags = record { offset = offset; len = len; flags = flags }

-- The second element meets client 1's lock, and must fail at once.
abbrev elements : List LockElement
elements = element 0 10 0x12 ∷ element 25 10 0x12 ∷ []

refused :
    (handle_lock true held_locks (open_file client) elements).1 ≡ answers status_lock_not_granted
unfolding handle_lock decode_lock_ops kind_of_flags apply_lock_ops apply_ops reply_of op_blocking
    blocking lock_status apply_lock snapshot_ranges snapshot Manager.apply publish Table.apply
    request scan_apply grant ranges_at get? put retain store delete keeps_unlock same_range
    ranges_overlap
refused = refl

handle_lock-atomic_example :
    IsRestored held_locks.t (handle_lock true held_locks (open_file client) elements).0.t
handle_lock-atomic_example =
    handle_lock-atomic true held_locks (open_file client) elements held_locks-IsValid (omega arith)
      (λ e. cc refused)
