-- ===== src/Examples/Durable.antt =====
-- A durable open of one client: its connection ends, the timeout runs, the client comes back.
use gosamba.Prelude.{◌≡◌, refl, true, false, List, [], ◌∷◌, replicate, none, some, arith, ℕ}
use gosamba.Prelude.Assoc.{get?, put, delete, nat_key}
use gosamba.Locks.Range.{FileKey}
use gosamba.Durable.{
  DurableKey, DurableEntry, DurableTable, durable_key, superseded, register, detach, detach_at,
  reclaim_for_reconnect, attached, expired, expire, abandoned,
}
use gosamba.Durable.Owned.{
  World, new_world, Reach, here, next, registers, detaches, expires, IsOwned, Reach-IsOwned,
}
use gosamba.Durable.Attached.{MayReconnect, Outcome, reclaim_for_reconnect-Outcome}
use gosamba.Durable.Reconnect.{Open, Server, Surroundings, DurableReconnect, LeaseRequest}
use gosamba.Prelude.{arith}

abbrev guid : List ℕ
guid = replicate 16 3

abbrev key : DurableKey
key = record { client_guid = guid; create_guid = replicate 16 9 }

-- "docs" and "ann"
abbrev docs : List ℕ
docs = 0x64 ∷ 0x6F ∷ 0x63 ∷ 0x73 ∷ []

abbrev ann : List ℕ
ann = 0x61 ∷ 0x6E ∷ 0x6E ∷ []

abbrev entry : DurableEntry
entry = record { handle = 7; deadline = none; timeout = 60; share_name = docs; user_name = ann }

abbrev waiting : DurableEntry
waiting = record entry { deadline = some 160 }

abbrev held_table : DurableTable
held_table = (key, entry) ∷ []

abbrev waiting_table : DurableTable
waiting_table = (key, waiting) ∷ []

abbrev registered : World
registered = record {
  table = (register key 7 60 docs ann []).0;
  released = (register key 7 60 docs ann []).1;
  handed = [];
  accepted = 7 ∷ [];
}

abbrev swept : World
swept = record {
  table = (expire 161 (detach 100 key registered.table)).0;
  released = (expire 161 (detach 100 key registered.table)).1;
  handed = [];
  accepted = 7 ∷ [];
}

swept-Reach : Reach new_world swept
unfolding register expire detach detach_at get? put delete abandoned attached expired superseded
swept-Reach =
    next (next (next here (registers new_world key 7 60 docs ann)) (detaches registered 100 key))
      (expires (record registered { table = detach 100 key registered.table }) 161)

Reach-IsOwned_example : IsOwned swept
Reach-IsOwned_example = Reach-IsOwned swept-Reach

reclaim_for_reconnect-Outcome_example :
    Outcome 120 key docs ann waiting_table (reclaim_for_reconnect 120 key docs ann waiting_table)
reclaim_for_reconnect-Outcome_example = reclaim_for_reconnect-Outcome 120 key docs ann waiting_table

held_at : get? key held_table ≡ some entry
unfolding get?
held_at = refl

held_attached : attached entry ≡ true
unfolding attached
held_attached = refl

abbrev file : FileKey
file = record { dev = 1; ino = 5 }

abbrev saved : ℕ → Open
saved o = record {
  identity = o;
  file_id = replicate 16 9;
  path = 0x2F ∷ 0x61 ∷ [];
  link_path = [];
  is_dir = false;
  has_file = true;
  granted_access = 1;
  delete_on_close = false;
  is_durable = true;
  durable_key = key;
}

-- Handle 7 denies every sharing.
abbrev server : Server
server = record {
  table = waiting_table;
  shares = record {
    by_file = [];
    owners = (7, file) ∷ [];
    waiters = [];
    closed = [];
    next_channel = 0;
  };
  closed = [];
  opens = [];
}

abbrev rec_ : DurableReconnect
rec_ = record { v2 = true; file_id = replicate 16 0; guid = replicate 16 9 }

abbrev lease : LeaseRequest
lease = record { v2 = true; key = replicate 16 4; state = 7 }

abbrev env : Surroundings
env = record {
  now = 120;
  fresh = 8;
  opens_read_write = true;
  opens_read_only = true;
  session_lives = true;
}

waiting_at : get? key waiting_table ≡ some waiting
unfolding get?
waiting_at = refl

waiting-MayReconnect : MayReconnect 120 docs ann waiting
unfolding attached expired
waiting-MayReconnect = record {
  detached = refl;
  in_time = refl;
  same_share = refl;
  same_user = refl;
}
