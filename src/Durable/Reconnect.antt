-- ===== src/Durable/Reconnect.antt =====
-- `handleDurableReconnect` of internal/parent/durable.go: the saved open leaves the table, a fresh
-- descriptor on the same path takes its place, and the share-mode reservation moves.
pub mod Reserved
pub mod Paths
use gosamba.Prelude.{
  ℕ, ◌≡◌, ◌==◌, Bool, true, false, not, if◌then◌else◌, List, [], ◌∷◌, ◌++◌, take, replicate, Option,
  none, some, bit_and,
}
use gosamba.Prelude.Assoc.{delete}
use gosamba.Wire.{le32}
use gosamba.ShareModes.{ShareModeTable, release, transfer}
use gosamba.Durable.{DurableKey, DurableTable, Reclaimed, reclaim_for_reconnect, register}

-- The part of `Open` that a reconnect reads or writes; `identity` is the pointer.
pub record Open : Type 0 where
  pub identity : ℕ
  pub file_id : List ℕ
  pub path : List ℕ
  pub link_path : List ℕ
  pub is_dir : Bool
  pub has_file : Bool
  pub granted_access : ℕ
  pub delete_on_close : Bool
  pub is_durable : Bool
  pub durable_key : DurableKey

-- `durableReconnect` and `leaseRequest`, where the request carried them.
pub record DurableReconnect : Type 0 where
  pub v2 : Bool
  pub file_id : List ℕ
  pub guid : List ℕ

pub record LeaseRequest : Type 0 where
  pub v2 : Bool
  pub key : List ℕ
  pub state : ℕ

abbrev pub CreateContext : Type 0
CreateContext = List ℕ × List ℕ

-- `durableWriteAccess`: the granted rights that need a writable descriptor.
abbrev pub durable_write_access : ℕ
durable_write_access = 0x50000006

unfoldable pub durable_lookup_key : DurableReconnect → List ℕ
durable_lookup_key rec = if rec.v2 then rec.guid else rec.file_id

-- The lease key, the granted state, and zeros up to 32 or 52 bytes.
unfoldable pub encode_rq_ls_response : List ℕ → ℕ → Bool → List ℕ
encode_rq_ls_response key granted v2 = key ++ le32 granted ++ replicate (if v2 then 32 else 12) 0

abbrev pub encode_dhnq_response : List ℕ
encode_dhnq_response = replicate 8 0

-- "RqLs" and "DHnQ"
abbrev pub tag_rq_ls : List ℕ
tag_rq_ls = 0x52 ∷ 0x71 ∷ 0x4C ∷ 0x73 ∷ []

abbrev pub tag_dhnq : List ℕ
tag_dhnq = 0x44 ∷ 0x48 ∷ 0x6E ∷ 0x51 ∷ []

unfoldable pub lease_echo : Option LeaseRequest → List CreateContext
lease_echo none = []
lease_echo (some lr) = (tag_rq_ls, encode_rq_ls_response lr.key 0 lr.v2) ∷ []

unfoldable pub reconnect_echo : DurableReconnect → Option LeaseRequest → List CreateContext
reconnect_echo rec lr = if rec.v2 then lease_echo lr else (tag_dhnq, encode_dhnq_response) ∷ []

-- The tables of the process, the opens whose locks were released and descriptor closed, and the
-- opens of the session.
pub record Server : Type 0 where
  pub table : DurableTable
  pub shares : ShareModeTable
  pub closed : List ℕ
  pub opens : List Open

-- What the file system and the session say during the call: whether the path opens for writing, for
-- reading, and whether the session still takes the handle. `fresh` is the identity of the new open.
pub record Surroundings : Type 0 where
  pub now : ℕ
  pub fresh : ℕ
  pub opens_read_write : Bool
  pub opens_read_only : Bool
  pub session_lives : Bool

pub data Reply : Type 0 where
  object_name_not_found user_session_deleted : Reply
  created : Open → List CreateContext → Reply

-- `releaseOpenKeepShareMode`: without a file there is nothing to release.
unfoldable pub release_open_keep_share_mode : Open → Server → Server
release_open_keep_share_mode o s =
    if o.has_file then record s { closed = o.identity ∷ s.closed } else s

unfoldable pub release_open : Open → Server → Server
release_open o s =
    release_open_keep_share_mode o (record s { shares = release s.shares o.identity })

unfoldable pub release_all : (ℕ → Open) → List ℕ → Server → Server
release_all open_of [] s = s
release_all open_of (o ∷ os) s = release_all open_of os (release_open (open_of o) s)

unfoldable pub replacement : DurableKey → ℕ → Open → Open
replacement k fresh saved = record {
  identity = fresh;
  file_id = saved.file_id;
  path = saved.path;
  link_path = saved.link_path;
  is_dir = saved.is_dir;
  has_file = not saved.is_dir;
  granted_access = saved.granted_access;
  delete_on_close = saved.delete_on_close;
  is_durable = true;
  durable_key = k;
}

-- Whether the path opens again with the rights that were granted.
unfoldable pub reopens : Surroundings → Open → Bool
reopens env saved =
    if saved.is_dir
    then true
    else if env.opens_read_write
    then true
    else if not (bit_and saved.granted_access durable_write_access == 0)
    then false
    else env.opens_read_only

-- The reservation has moved; the session takes the open, or has ended.
unfoldable pub publish_reconnect :
    (timeout : ℕ) (share user : List ℕ)
    → DurableReconnect
    → Option LeaseRequest
    → Surroundings
    → Open
    → Server
    → Server × Reply
publish_reconnect timeout share user rec lr env o s =
    if not env.session_lives
    then (release_open o s, user_session_deleted)
    else let (t, abandoned, durable) =
        register o.durable_key o.identity timeout share user s.table in
      let o' = record o { is_durable = durable } in
      (record s { table = t; opens = o' ∷ s.opens }, created o' (reconnect_echo rec lr))

unfoldable pub adopt :
    (timeout : ℕ) (share user : List ℕ)
    → DurableReconnect
    → Option LeaseRequest
    → Surroundings
    → DurableKey
    → Open
    → Server
    → Server × Reply
adopt timeout share user rec lr env k saved s =
    let s = release_open_keep_share_mode saved s in
    if reopens env saved
    then publish_reconnect timeout share user rec lr env (replacement k env.fresh saved)
        (record s { shares = transfer s.shares saved.identity env.fresh })
    else (record s { shares = release s.shares saved.identity }, object_name_not_found)

unfoldable pub answered :
    (ℕ → Open)
    → (timeout : ℕ) (share user : List ℕ) → DurableReconnect
    → Option LeaseRequest
    → Surroundings
    → DurableKey
    → Server
    → Reclaimed
    → Server × Reply
answered open_of timeout share user rec lr env k s (t, released, none) =
    (release_all open_of released (record s { table = t }), object_name_not_found)
answered open_of timeout share user rec lr env k s (t, released, some saved) =
    adopt timeout share user rec lr env k (open_of saved)
      (release_all open_of released (record s { table = t }))

-- `open_of` reads the open behind an identity. The caller answers OBJECT_NAME_NOT_FOUND where the
-- function returns false.
unfoldable pub handle_durable_reconnect :
    (ℕ → Open)
    → (client_guid : List ℕ) (timeout : ℕ) (share user : List ℕ) → DurableReconnect
    → Option LeaseRequest
    → Surroundings
    → Server
    → Server × Reply
handle_durable_reconnect open_of client_guid timeout share user rec lr env s =
    let k : DurableKey = record {
      client_guid = client_guid;
      create_guid = durable_lookup_key rec;
    } in
    answered open_of timeout share user rec lr env k s
      (reclaim_for_reconnect env.now k share user s.table)
