-- ===== src/Durable.antt =====
-- Durable handles: the table of internal/parent/durable.go. Each method holds the mutex.
pub mod Owned
pub mod Attached
pub mod Reconnect
use gosamba.Prelude.{
  ℕ, ◌+◌, ◌≡◌, ◌↔◌, Bool, true, false, not, ◌&&◌, ◌==◌, ltb, if◌then◌else◌, List, [], ◌∷◌, ◌++◌,
  length, Option, none, some, arith,
}
use gosamba.Prelude.Assoc.{Key, Map, get?, put, delete, same_bytes, same_bytes_iff}

-- `durableKey`: the GUID of the client and of the CREATE.
pub record DurableKey : Type 0 where
  pub client_guid : List ℕ
  pub create_guid : List ℕ

abbrev pub durable_key_eq : DurableKey → DurableKey → Bool
durable_key_eq a b =
    same_bytes a.client_guid b.client_guid && same_bytes a.create_guid b.create_guid

pub durable_key_eq_iff : (a b : DurableKey) → (durable_key_eq a b ≡ true) ↔ (a ≡ b)
durable_key_eq_iff a b =
    ground (
      arith,
      same_bytes_iff a.client_guid b.client_guid,
      same_bytes_iff a.create_guid b.create_guid,
    )

instance abbrev pub durable_key : Key DurableKey
durable_key = record { beq = durable_key_eq; beq_iff = durable_key_eq_iff }

-- `durableEntry`: the open is the handle's identity, and `none` is the zero time of a deadline that
-- is not counting down. A moment is a number of nanoseconds.
pub record DurableEntry : Type 0 where
  pub handle : ℕ
  pub deadline : Option ℕ
  pub timeout : ℕ
  pub share_name : List ℕ
  pub user_name : List ℕ

abbrev pub DurableTable : Type 0
DurableTable = Map DurableKey DurableEntry

abbrev pub is_none : Option ℕ → Bool
is_none none = true
is_none (some d) = false

abbrev pub past : ℕ → Option ℕ → Bool
past now none = false
past now (some d) = ltb d now

unfoldable pub attached : DurableEntry → Bool
attached e = is_none e.deadline

unfoldable pub expired : ℕ → DurableEntry → Bool
expired now e = not (attached e) && past now e.deadline

-- `prev.open != open`, where there is a previous entry.
unfoldable pub superseded : ℕ → Option DurableEntry → Bool
superseded handle none = false
superseded handle (some prev) = not (prev.handle == handle)

abbrev pub held : Option DurableEntry → Bool
held none = false
held (some prev) = attached prev

-- The open of a superseded entry whose connection is gone.
unfoldable pub abandoned : ℕ → Option DurableEntry → List ℕ
abandoned handle none = []
abandoned handle (some prev) =
    if not (prev.handle == handle) && not (attached prev) then prev.handle ∷ [] else []

abbrev pub fresh_entry : ℕ → ℕ → List ℕ → List ℕ → DurableEntry
fresh_entry handle timeout share user = record {
  handle = handle;
  deadline = none;
  timeout = timeout;
  share_name = share;
  user_name = user;
}

-- The table, the opens that the call released, and its answer. A timeout that is not positive is 0.
unfoldable pub register :
    DurableKey → ℕ → ℕ → List ℕ → List ℕ → DurableTable → DurableTable × List ℕ × Bool
register k handle timeout share user t =
    let prev = get? k t in
    if timeout == 0
    then (delete k t, abandoned handle prev, false)
    else if superseded handle prev && held prev
    then (t, [], false)
    else (put k (fresh_entry handle timeout share user) t, abandoned handle prev, true)

unfoldable pub detach_at : ℕ → DurableKey → Option DurableEntry → DurableTable → DurableTable
detach_at now k none t = t
detach_at now k (some e) t =
    if attached e then put k (record e { deadline = some (now + e.timeout) }) t else t

unfoldable pub detach : ℕ → DurableKey → DurableTable → DurableTable
detach now k t = detach_at now k (get? k t) t

-- The table, the opens that the call released, and the open that it hands over.
abbrev pub Reclaimed : Type 0
Reclaimed = DurableTable × List ℕ × Option ℕ

unfoldable pub reclaim_at : ℕ → DurableKey → Option DurableEntry → DurableTable → Reclaimed
reclaim_at now k none t = (t, [], none)
reclaim_at now k (some e) t =
    if expired now e then (delete k t, e.handle ∷ [], none) else (delete k t, [], some e.handle)

unfoldable pub reclaim : ℕ → DurableKey → DurableTable → Reclaimed
reclaim now k t = reclaim_at now k (get? k t) t

unfoldable pub reclaim_checked_at :
    ℕ → DurableKey → List ℕ → List ℕ → Bool → Option DurableEntry → DurableTable → Reclaimed
reclaim_checked_at now k share user require_detached none t = (t, [], none)
reclaim_checked_at now k share user require_detached (some e) t =
    if expired now e
    then (delete k t, e.handle ∷ [], none)
    else if require_detached && attached e
    then (t, [], none)
    else if not (same_bytes e.share_name share)
    then (t, [], none)
    else if not (same_bytes e.user_name user)
    then (t, [], none)
    else (delete k t, [], some e.handle)

unfoldable pub reclaim_checked : ℕ → DurableKey → List ℕ → List ℕ → Bool → DurableTable → Reclaimed
reclaim_checked now k share user require_detached t =
    reclaim_checked_at now k share user require_detached (get? k t) t

unfoldable pub reclaim_for_reconnect : ℕ → DurableKey → List ℕ → List ℕ → DurableTable → Reclaimed
reclaim_for_reconnect now k share user t = reclaim_checked now k share user true t

unfoldable pub live_at : ℕ → Option DurableEntry → Bool
live_at now none = false
live_at now (some e) = not (expired now e)

unfoldable pub has : ℕ → DurableKey → DurableTable → Bool
has now k t = live_at now (get? k t)

unfoldable pub remove : DurableKey → DurableTable → DurableTable
remove k t = delete k t

-- The table without the expired entries, and their opens; the count is their number.
unfoldable pub expire : ℕ → DurableTable → DurableTable × List ℕ
expire now [] = ([], [])
expire now ((k, e) ∷ t) =
    let (t', released) = expire now t in
    if expired now e then (t', e.handle ∷ released) else ((k, e) ∷ t', released)
