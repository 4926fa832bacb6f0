-- ===== src/Examples/ShareModes.antt =====
-- A reader that denies writing, a writer that waits for it, and a second reader.
use gosamba.Prelude.{◌≡◌, refl, ◌≢◌, inl, inr, false, [], ◌∷◌, none, some, Elem, arith}
use gosamba.Prelude.Assoc.{get?, put, delete, nat_key}
use gosamba.Locks.Range.{FileKey}
use gosamba.Access.{has_bits, only_bits, and_not}
use gosamba.ShareModes.{
  ShareModeTable, ShareWaiter, new_share_mode_table, new_share_mode_entry, share_conflict,
  entries_at, Stat, acquire_locked, admit, acquire_or_wait, register_waiter_locked, release, store,
  sweep_owners, entry_live,
}
use gosamba.ShareModes.Runs.{Reach, here, next, acquires, Reach-compatible}
use gosamba.ShareModes.Waiters.{release_wakes_waiter}
use gosamba.ShareModes.Waiters

abbrev file : FileKey
file = record { dev = 1; ino = 7 }

-- Every handle is open on the file.
abbrev all_open : Stat
all_open o = some file

-- Handle 1 reads and shares reading and deleting.
abbrev read_held : ShareModeTable
read_held = (acquire_or_wait all_open new_share_mode_table file 1 0x80000000 5).0

abbrev two_readers : ShareModeTable
two_readers = (acquire_or_wait all_open read_held file 2 0x80000000 7).0

abbrev writer_parked : ShareModeTable
writer_parked = (acquire_or_wait all_open read_held file 3 0x40000000 7).0

abbrev writer : ShareWaiter
writer = record { key = file; channel = 0 }

read_held-Reach : Reach new_share_mode_table read_held
read_held-Reach = next here (acquires new_share_mode_table all_open file 1 0x80000000 5)

two_readers-Reach : Reach new_share_mode_table two_readers
two_readers-Reach = next read_held-Reach (acquires read_held all_open file 2 0x80000000 7)

two_readers_entries :
    entries_at file two_readers
    ≡ new_share_mode_entry 1 0x80000000 5 ∷ new_share_mode_entry 2 0x80000000 7 ∷ []
unfolding entries_at acquire_or_wait acquire_locked admit entry_live get? put delete store
    sweep_owners new_share_mode_entry share_conflict has_bits only_bits and_not
two_readers_entries = refl

writer_waits : (acquire_or_wait all_open read_held file 3 0x40000000 7).1 ≡ some writer
unfolding acquire_or_wait acquire_locked admit entries_at entry_live get? put delete store
    sweep_owners new_share_mode_entry share_conflict has_bits only_bits and_not
    register_waiter_locked
writer_waits = refl

reader_holds : get? 1 writer_parked.owners ≡ some file
unfolding acquire_or_wait acquire_locked admit entries_at entry_live get? put delete store
    sweep_owners new_share_mode_entry share_conflict has_bits only_bits and_not
    register_waiter_locked
reader_holds = refl

distinct : (new_share_mode_entry 1 0x80000000 5).owner ≢ (new_share_mode_entry 2 0x80000000 7).owner
unfolding new_share_mode_entry
distinct = omega arith

fresh : get? 3 read_held.owners ≡ none
unfolding acquire_or_wait acquire_locked admit entries_at entry_live get? put delete store
    sweep_owners new_share_mode_entry share_conflict has_bits only_bits and_not
fresh = refl

Reach-compatible_example :
    share_conflict (new_share_mode_entry 1 0x80000000 5) (new_share_mode_entry 2 0x80000000 7)
    ≡ false
Reach-compatible_example =
    Reach-compatible two_readers file (new_share_mode_entry 1 0x80000000 5)
      (new_share_mode_entry 2 0x80000000 7) two_readers-Reach (rw two_readers_entries (inl refl))
      (rw two_readers_entries (inr (inl refl))) distinct

release_wakes_waiter_example : Elem 0 (release writer_parked 1).closed
release_wakes_waiter_example =
    release_wakes_waiter all_open read_held writer_parked file 3 0x40000000 7 1 writer writer_waits
      Waiters.here reader_holds
