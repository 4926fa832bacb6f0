-- ===== src/Examples/Sessions.antt =====
-- A session with two opens, and a client that comes back on another connection.
use gosamba.Prelude.{true, [], ◌∷◌, replicate, none}
use gosamba.Prelude.Assoc.{get?, put, nat_key, bytes_key, same_bytes}
use gosamba.Sessions.{
  Session, SessionOpen, new_session, add_open, add_open_to_tree, add_tree, remove_open,
  take_all_opens,
}
use gosamba.Sessions.Opens.{
  History, Reach, here, next, adds, tears_down, accept, IsBalanced, Reach-IsBalanced,
}
use gosamba.Sessions.Index.{Server, supersede}
use gosamba.Sessions.Index.Supersede.{Outcome, supersede-Outcome}

abbrev first : SessionOpen
first = record { identity = 11; file_id = replicate 16 1; tree = none }

abbrev start : History
start = record { session = new_session 5; accepted = []; taken = []; displaced = [] }

abbrev opened : History
opened = accept start first (add_open first start.session)

abbrev torn_down : History
torn_down = record opened { session = (take_all_opens opened.session).0; taken = 11 ∷ [] }

torn_down-Reach : Reach start torn_down
unfolding new_session add_open get? take_all_opens put gosamba.Sessions.all_opens
torn_down-Reach = next (next here (adds start first)) (tears_down opened)

Reach-IsBalanced_example : IsBalanced torn_down
Reach-IsBalanced_example = Reach-IsBalanced 5 torn_down-Reach

abbrev old : Session
old = record (new_session 5) { user_name = 0x61 ∷ []; authenticated = true }

abbrev new_one : Session
new_one = record (new_session 6) { user_name = 0x61 ∷ []; authenticated = true }

abbrev server : Server
server = record {
  heap = (5, old) ∷ [];
  hosts =
      (
        1,
        record {
          client_guid = replicate 16 2;
          sessions = record { by_id = (5, old) ∷ []; half_open = [] };
        },
      )
      ∷ [];
  by_id = (5, 1) ∷ [];
  released = [];
}

supersede-Outcome_example :
    Outcome same_bytes 5 new_one
      (replicate 16 2)
      server
      (supersede same_bytes 5 new_one (replicate 16 2) server)
supersede-Outcome_example = supersede-Outcome same_bytes 5 new_one (replicate 16 2) server
