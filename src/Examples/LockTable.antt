-- ===== src/Examples/LockTable.antt =====
-- Two clients on one file: the lock table and its theorems on concrete histories.
use gosamba.Prelude.{◌≡◌, refl, inl, inr, true, false, List, [], ◌∷◌, some, arith}
use gosamba.Prelude.Assoc.{get?, put, delete}
use gosamba.Locks.Range.{FileKey, unlock, shared, exclusive, ranges_overlap, same_range}
use gosamba.Locks.Table.{
  RangeTable, new_range_table, ranges_at, scan_apply, request, grant, retain, store, keeps_unlock,
  Applied, err_lock_conflict, scan_conflict, forbids,
}
use gosamba.Locks.Table
use gosamba.Locks.Table.Lookup.{entry}
use gosamba.Locks.Table.Outcome.{LockOutcome, apply-LockOutcome}
use gosamba.Locks.Table.Runs.{Call, applies, run, step, In, mutual_exclusion, run-IsValid}
use gosamba.Locks.Table.Invariant.{IsValid, new_range_table-IsValid}
use gosamba.Locks.Manager.{
  LockTable, new_lock_table, release_signal, Handle, conflicts_with, publish,
}
use gosamba.Locks.Manager
use gosamba.Locks.Manager.Published.{IsSound, apply-IsSound}
use gosamba.Locks.Manager.Wake
use gosamba.Locks.Manager.Wake.{release_wakes, IsClosed}

abbrev file : FileKey
file = record { dev = 1; ino = 42 }

abbrev two_readers : List Call
two_readers = applies file 1 0 10 shared ∷ applies file 2 5 10 shared ∷ []

abbrev reader_then_writer : List Call
reader_then_writer = applies file 1 0 10 shared ∷ applies file 2 5 10 exclusive ∷ []

abbrev one_writer : List Call
one_writer = applies file 1 0 10 exclusive ∷ []

two_readers_granted :
    ranges_at file (run new_range_table two_readers) ≡ entry 1 0 10 false ∷ entry 2 5 10 false ∷ []
unfolding run step Table.apply request scan_apply grant ranges_at get? put same_range ranges_overlap
two_readers_granted = refl

writer_refused : ranges_at file (run new_range_table reader_then_writer) ≡ entry 1 0 10 false ∷ []
unfolding run step Table.apply request scan_apply grant ranges_at get? put same_range ranges_overlap
writer_refused = refl

mutual_exclusion_example : (false ≡ false) × (false ≡ false)
mutual_exclusion_example =
    mutual_exclusion two_readers file (entry 1 0 10 false) (entry 2 5 10 false) 7 (omega arith)
      (rw two_readers_granted (inl refl)) (rw two_readers_granted (inr (inl refl))) (omega arith)
      (omega arith) (omega arith)

written-IsValid : IsValid (run new_range_table one_writer)
written-IsValid = run-IsValid one_writer (omega arith)

apply-LockOutcome_example :
    LockOutcome
      (run new_range_table one_writer)
      file
      (entry 2 5 10 false)
      (Table.apply (run new_range_table one_writer) file 2 5 10 shared)
apply-LockOutcome_example =
    apply-LockOutcome (run new_range_table one_writer) file 2 5 10 false written-IsValid
      (omega arith)

abbrev locked : LockTable
locked = (Manager.apply new_lock_table file 1 0 10 exclusive).0

locked-IsSound : IsSound locked
locked-IsSound =
    apply-IsSound new_lock_table file 1 0 10 exclusive (omega arith) (omega arith)
      (record { valid = new_range_table-IsValid; published = refl })

abbrev reader : Handle
reader = record { id = 2; key = some file }

-- The writer unlocks while the reader waits.
abbrev unlocking : List Wake.Call
unlocking = Wake.applies file 1 0 10 unlock ∷ []

locked_holds : In (entry 1 0 10 true) (ranges_at file locked.t)
unfolding Manager.apply publish Table.apply request scan_apply grant ranges_at get? put
locked_holds = inl refl

unlocked_gone :
    ¬ In (entry 1 0 10 true) (ranges_at file (Wake.run (release_signal locked).0 unlocking).t)
unfolding Wake.run Wake.step release_signal Manager.apply publish Table.apply request scan_apply
    grant ranges_at get? put retain store delete keeps_unlock same_range
unlocked_gone i = i

release_wakes_example : IsClosed 0 (Wake.run (release_signal locked).0 unlocking)
unfolding release_signal Manager.apply publish Table.apply request scan_apply grant ranges_at get?
    put
release_wakes_example =
    release_wakes locked unlocking file (entry 1 0 10 true) locked-IsSound (omega arith)
      locked_holds unlocked_gone
