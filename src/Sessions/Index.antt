-- ===== src/Sessions/Index.antt =====
-- The server-wide index of authenticated sessions in internal/parent/sessionindex.go, and how a
-- reconnecting client closes its previous session. The index holds its mutex in each method, and
-- drops it before the owner's connection closes the session.
pub mod Supersede
use gosamba.Prelude.{
  ℕ, Bool, true, false, not, ◌&&◌, ◌||◌, ◌==◌, bool_eq, if◌then◌else◌, List, [], ◌∷◌, ◌++◌, Option,
  none, some, length,
}
use gosamba.Prelude.Assoc.{Map, get?, put, delete, nat_key, same_bytes}
use gosamba.Sessions.{Session, SessionOpen, take_all_opens}
use gosamba.Sessions.Table.{SessionTable, remove}

-- `sessionHost`, as far as it is read: the connection's ClientGuid and its session table.
pub record Host : Type 0 where
  pub client_guid : List ℕ
  pub sessions : SessionTable

-- The sessions behind their pointers, by the id that is never used twice; the connections; the index,
-- which names the host of each session; and the opens given up, in order. `register` keys an entry by
-- its session's id, so an entry's session is the one of its key.
pub record Server : Type 0 where
  pub heap : Map ℕ Session
  pub hosts : Map ℕ Host
  pub by_id : Map ℕ ℕ
  pub released : List SessionOpen

unfoldable pub register : ℕ → ℕ → Server → Server
register id host v = if id == 0 then v else record v { by_id = put id host v.by_id }

unfoldable pub unregister : ℕ → Server → Server
unregister id v = record v { by_id = delete id v.by_id }

unfoldable pub drop_host : ℕ → Map ℕ ℕ → Map ℕ ℕ
drop_host host [] = []
drop_host host ((id, h) ∷ m) =
    let rest = drop_host host m in if h == host then rest else (id, h) ∷ rest

unfoldable pub unregister_host : ℕ → Server → Server
unregister_host host v = record v { by_id = drop_host host v.by_id }

abbrev pub session_of : Option ℕ → ℕ → Map ℕ Session → Option Session
session_of none id heap = none
session_of (some host) id heap = get? id heap

unfoldable pub get : ℕ → Server → Option Session
get id v = session_of (get? id v.by_id) id v.heap

unfoldable pub len : Server → ℕ
len v = length v.by_id

-- A host without a connection has the zero GUID.
abbrev pub guid_of : Option Host → List ℕ
guid_of none = 0 ∷ 0 ∷ 0 ∷ 0 ∷ 0 ∷ 0 ∷ 0 ∷ 0 ∷ 0 ∷ 0 ∷ 0 ∷ 0 ∷ 0 ∷ 0 ∷ 0 ∷ 0 ∷ []
guid_of (some h) = h.client_guid

-- `equal_fold` is `strings.EqualFold`.
unfoldable pub may_supersede :
    (List ℕ → List ℕ → Bool) → Option Session → List ℕ → Session → List ℕ → Bool
may_supersede equal_fold none host_guid by by_guid = false
may_supersede equal_fold (some prev) host_guid by by_guid =
    if not prev.authenticated || not by.authenticated
    then false
    else if not (bool_eq prev.is_guest by.is_guest)
    then false
    else if not (equal_fold prev.user_name by.user_name)
    then false
    else if by.is_guest && not (same_bytes host_guid by_guid)
    then false
    else true

abbrev pub forget : ℕ → ℕ → Option Host → Map ℕ Host → Map ℕ Host
forget id host none hosts = hosts
forget id host (some h) hosts = put host (record h { sessions = remove id h.sessions }) hosts

abbrev pub close_at : ℕ → Option Session → Server → Server
close_at id none v = v
close_at id (some s) v =
    let (s', opens) = take_all_opens s in
    record v { heap = put id s' v.heap; released = v.released ++ opens }

-- `closeSession`: off the owner's table first, then its opens are taken and released.
unfoldable pub close_session : ℕ → ℕ → Server → Server
close_session host id v =
    let v = record v { hosts = forget id host (get? host v.hosts) v.hosts } in
    close_at id (get? id v.heap) v

unfoldable pub supersede_at :
    (List ℕ → List ℕ → Bool) → ℕ → Session → List ℕ → Server → Option ℕ → Server × Bool
supersede_at equal_fold prev_id by by_guid v none = (v, false)
supersede_at equal_fold prev_id by by_guid v (some host) =
    let prev = get? prev_id v.heap in
    if not (may_supersede equal_fold prev (guid_of (get? host v.hosts)) by by_guid)
    then (v, false)
    else (close_session host prev_id (record v { by_id = delete prev_id v.by_id }), true)

unfoldable pub supersede : (List ℕ → List ℕ → Bool) → ℕ → Session → List ℕ → Server → Server × Bool
supersede equal_fold prev_id by by_guid v =
    if prev_id == 0 || prev_id == by.id
    then (v, false)
    else supersede_at equal_fold prev_id by by_guid v (get? prev_id v.by_id)
