-- ===== src/Durable/Reconnect/Reserved.antt =====
-- The share-mode reservation across a reconnect.
use gosamba.Prelude.{
  ℕ, ◌≡◌, ◌≢◌, refl, sym, subst, ◌∙◌, inl, inr, false, ◌==◌, List, Option, none, some, arith,
  Bool-cases,
}
use gosamba.Prelude.Assoc.{get?, delete, get?-put, get?-delete, nat_key}
use gosamba.Locks.Range.{FileKey}
use gosamba.ShareModes.{ShareModeTable, release, release_at, wake_locked, transfer, transfer_at}
use gosamba.ShareModes.Runs.{released_owner}
use gosamba.Durable.{DurableKey, DurableEntry, durable_key}
use gosamba.Durable.Attached.{MayReconnect, reclaim_for_reconnect-hands}
use gosamba.Durable.Reconnect.{
  Open, Server, Surroundings, Reply, object_name_not_found, user_session_deleted, created,
  DurableReconnect, LeaseRequest, release_open_keep_share_mode, release_open, release_all,
  replacement, reopens, publish_reconnect, adopt, answered, handle_durable_reconnect,
  durable_lookup_key,
}

-- The file that a handle has a reservation on.
abbrev pub reserved : ℕ → ShareModeTable → Option FileKey
reserved o t = get? o t.owners

pub release-others :
    (t : ShareModeTable) (o x : ℕ) → o ≢ x → reserved x (release t o) ≡ reserved x t
unfolding release release_at wake_locked
release-others t o x ne = at (reserved o t)
  where
    at : (found : Option FileKey) → reserved x (release_at t o found) ≡ reserved x t
    at none = refl
    at (some key) = ground (arith, get?-delete o x t.owners)

transfer-moves :
    (t : ShareModeTable) (from to : ℕ)
    → from ≢ to
    → reserved to t ≡ none
    → (reserved to (transfer t from to) ≡ reserved from t)
      × (reserved from (transfer t from to) ≡ none)
unfolding transfer transfer_at
transfer-moves t from to ne free =
    let other : (from == to) ≡ false = ground arith in rw other (at (reserved from t) refl)
  where
    at :
        (found : Option FileKey)
        → reserved from t ≡ found
        → (reserved to (transfer_at t from to found) ≡ found)
          × (reserved from (transfer_at t from to found) ≡ none)
    at none e = (free, e)
    at (some key) e = (
      ground (arith, get?-put to to key (delete from t.owners)),
      ground (arith, get?-put to from key (delete from t.owners), get?-delete from from t.owners),
    )

pub keep_share_mode : (o : Open) (s : Server) → (release_open_keep_share_mode o s).shares ≡ s.shares
unfolding release_open_keep_share_mode
keep_share_mode o s = ground arith

pub released-none : (t : ShareModeTable) (o : ℕ) → reserved o (release t o) ≡ none
unfolding release
released-none t o = released_owner t o (reserved o t) refl

-- Who holds the reservation of the saved open after the answer.
abbrev pub HolderAfter : ℕ → ℕ → Option FileKey → Server × Reply → Type 0
HolderAfter saved fresh before (s, created o echo) =
    (reserved saved s.shares ≡ none) × (reserved fresh s.shares ≡ before)
HolderAfter saved fresh before (s, object_name_not_found) =
    (reserved saved s.shares ≡ none) × (reserved fresh s.shares ≡ none)
HolderAfter saved fresh before (s, user_session_deleted) =
    (reserved saved s.shares ≡ none) × (reserved fresh s.shares ≡ none)

refused-HolderAfter :
    (saved fresh : ℕ) (before : Option FileKey) (s : Server)
    → saved ≢ fresh
    → reserved fresh s.shares ≡ none
    → HolderAfter saved fresh before
        (record s { shares = release s.shares saved }, object_name_not_found)
refused-HolderAfter saved fresh before s ne free =
    (released-none s.shares saved, release-others s.shares saved fresh ne ∙ free)

publish_reconnect-HolderAfter :
    (timeout : ℕ) (share user : List ℕ) (rec : DurableReconnect) (lr : Option LeaseRequest)
    (env : Surroundings) (o : Open) (saved : ℕ) (before : Option FileKey) (s : Server)
    → saved ≢ o.identity
    → reserved saved s.shares ≡ none
    → reserved o.identity s.shares ≡ before
    → HolderAfter saved o.identity before (publish_reconnect timeout share user rec lr env o s)
unfolding publish_reconnect release_open
publish_reconnect-HolderAfter timeout share user rec lr env o saved before s ne gone moved =
    elim (Bool-cases env.session_lives) [
      | inl lives ↦ rw lives (gone, moved)
      | inr dead ↦
          let after : Server = record s { shares = release s.shares o.identity } in
          rw (dead, keep_share_mode o after)
            (
              release-others s.shares o.identity saved (λ e. ne (sym e)) ∙ gone,
              released-none s.shares o.identity,
            )
    ]

pub adopt-HolderAfter :
    (timeout : ℕ) (share user : List ℕ) (rec : DurableReconnect) (lr : Option LeaseRequest)
    (env : Surroundings) (k : DurableKey) (saved : Open) (s : Server)
    → saved.identity ≢ env.fresh
    → reserved env.fresh s.shares ≡ none
    → HolderAfter saved.identity env.fresh
        (reserved saved.identity s.shares)
        (adopt timeout share user rec lr env k saved s)
unfolding adopt replacement
adopt-HolderAfter timeout share user rec lr env k saved s ne free =
    let s' = release_open_keep_share_mode saved s in
    let same : s'.shares ≡ s.shares = keep_share_mode saved s in
    elim (Bool-cases (reopens env saved)) [
      | inr no_ ↦ rw no_ (
          refused-HolderAfter saved.identity env.fresh (reserved saved.identity s.shares) s' ne
            (rw same free))
      | inl yes_ ↦
          let (moved, gone) = transfer-moves s.shares saved.identity env.fresh ne free in
          rw (yes_, same)
            (publish_reconnect-HolderAfter timeout share user rec lr env
              (replacement k env.fresh saved) saved.identity (reserved saved.identity s.shares)
              (record s' { shares = transfer s.shares saved.identity env.fresh }) ne gone moved)
    ]

-- A reconnect that may take over the entry of its key leaves the saved open without a reservation,
-- whatever the file system and the session do meanwhile. A fresh open that the client is told of
-- holds what the saved one held, and on every other answer it holds nothing.
pub handle_durable_reconnect-HolderAfter :
    (open_of : ℕ → Open) (client_guid : List ℕ) (timeout : ℕ) (share user : List ℕ)
    (rec : DurableReconnect) (lr : Option LeaseRequest) (env : Surroundings) (s : Server)
    (e : DurableEntry)
    → let k : DurableKey = record {
      client_guid = client_guid;
      create_guid = durable_lookup_key rec;
    } in
      get? k s.table ≡ some e
      → MayReconnect env.now share user e
      → (open_of e.handle).identity ≡ e.handle
      → e.handle ≢ env.fresh
      → reserved env.fresh s.shares ≡ none
      → HolderAfter e.handle env.fresh
          (reserved e.handle s.shares)
          (handle_durable_reconnect open_of client_guid timeout share user rec lr env s)
unfolding handle_durable_reconnect answered release_all
handle_durable_reconnect-HolderAfter open_of client_guid timeout share user rec lr env s e h m i ne
      free =
    let k : DurableKey = record {
      client_guid = client_guid;
      create_guid = durable_lookup_key rec;
    } in
    let after = record s { table = delete k s.table } in
    let done : HolderAfter e.handle env.fresh (reserved e.handle s.shares)
        (adopt timeout share user rec lr env k (open_of e.handle) after) =
      subst
        (λ h.
          HolderAfter h env.fresh (reserved h s.shares)
            (adopt timeout share user rec lr env k (open_of e.handle) after))
        i
        (adopt-HolderAfter timeout share user rec lr env k (open_of e.handle) after (rw i ne)
          free) in
    rw (reclaim_for_reconnect-hands env.now k share user s.table e h m) done
