-- ===== src/Durable/Reconnect/Paths.antt =====
-- The share-mode reservations on every path of handleDurableReconnect in internal/parent/durable.go.
use gosamba.Prelude.{ℕ, ◌≡◌, ◌≢◌, true, List, none, some}
use gosamba.Prelude.Assoc.{get?}
use gosamba.Durable.{DurableKey, DurableEntry, durable_key, expired}
use gosamba.Durable.Attached.{MayReconnect}
use gosamba.Durable.Reconnect.{Server, Reply, object_name_not_found}
use gosamba.Durable.Reconnect.Reserved.{reserved, HolderAfter}

-- What a reconnect by a key does to the reservations: where it may take the entry over, the saved
-- open's moves to the fresh open, or is given up; where the entry is past its deadline, the
-- reservation of its open alone is given up; and every other reconnect changes nothing at all.
pub data Reservations (now : ℕ) (share user : List ℕ) (fresh : ℕ) (k : DurableKey) (s : Server)
    : Server × Reply → Type 0 where
  taken_over :
      (e : DurableEntry) (r : Server × Reply)
      → get? k s.table ≡ some e
      → MayReconnect now share user e
      → HolderAfter e.handle fresh (reserved e.handle s.shares) r
      → Reservations now share user fresh k s r
  evicted :
      (e : DurableEntry) (after : Server)
      → get? k s.table ≡ some e
      → expired now e ≡ true
      → reserved e.handle after.shares ≡ none
      → ((x : ℕ) → e.handle ≢ x → reserved x after.shares ≡ reserved x s.shares)
      → Reservations now share user fresh k s (after, object_name_not_found)
  left :
      ((e : DurableEntry) → get? k s.table ≡ some e → MayReconnect now share user e → ⊥)
      → Reservations now share user fresh k s (s, object_name_not_found)
