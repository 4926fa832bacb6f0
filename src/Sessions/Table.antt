-- ===== src/Sessions/Table.antt =====
-- `SessionTable` of internal/parent/session.go: the sessions of one connection, and those of them
-- whose handshake is not complete.
use gosamba.Prelude.{ℕ, suc, leb, if◌then◌else◌, [], length, Option, none, some}
use gosamba.Prelude.Assoc.{Map, get?, put, delete, nat_key}
use gosamba.Sessions.{Session, new_session}

abbrev pub max_half_open_sessions : ℕ
max_half_open_sessions = 64

-- `half_open` is a set.
pub record SessionTable : Type 0 where
  pub by_id : Map ℕ Session
  pub half_open : Map {0, 0} ℕ Unit

abbrev pub new_session_table : SessionTable
new_session_table = record { by_id = []; half_open = [] }

-- `next_id` is the process-wide counter: the id allocated last. 2 ^ 64 ids do not run out.
unfoldable pub new : ℕ → SessionTable → ℕ × SessionTable × ℕ
new next_id t =
    let id = suc next_id in (id, record t { by_id = put id (new_session id) t.by_id }, id)

unfoldable pub new_half_open : ℕ → SessionTable → ℕ × SessionTable × Option ℕ
new_half_open next_id t =
    if leb max_half_open_sessions (length t.half_open)
    then (next_id, t, none)
    else let id = suc next_id in
      (
        id,
        record { by_id = put id (new_session id) t.by_id; half_open = put id tt t.half_open },
        some id,
      )

unfoldable pub mark_authenticated : ℕ → SessionTable → SessionTable
mark_authenticated id t = record t { half_open = delete id t.half_open }

unfoldable pub half_open_count : SessionTable → ℕ
half_open_count t = length t.half_open

unfoldable pub remove : ℕ → SessionTable → SessionTable
remove id t = record { by_id = delete id t.by_id; half_open = delete id t.half_open }

unfoldable pub get : ℕ → SessionTable → Option Session
get id t = get? id t.by_id
