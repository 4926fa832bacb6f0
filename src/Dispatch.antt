-- ===== src/Dispatch.antt =====
-- The front of the command dispatcher in internal/parent/dispatch.go: what a message has to pass
-- before a handler runs, the handles that the members of a related chain hand on, and the choice of
-- the handler. The handlers stand in components of their own, or are file system calls.
pub mod Gate
pub mod Related
pub mod Async
use gosamba.Prelude.{
  ℕ, ◌+◌, Bool, true, false, not, ◌&&◌, ◌||◌, ◌==◌, ltb, if◌then◌else◌, List, [], ◌∷◌, length,
  replicate, Option, none, some, bit_and,
}
use gosamba.Prelude.Assoc.{same_bytes}
use gosamba.Wire.{Bytes, slice, copy}
use gosamba.Wire.Header.{Header}
use gosamba.Crypto.Sign.{Primitives, verify_message}
use gosamba.Sessions.{Session}

abbrev pub command_logoff : ℕ
command_logoff = 0x0002

abbrev pub command_tree_connect : ℕ
command_tree_connect = 0x0003

abbrev pub command_tree_disconnect : ℕ
command_tree_disconnect = 0x0004

abbrev pub command_create : ℕ
command_create = 0x0005

abbrev pub command_close : ℕ
command_close = 0x0006

abbrev pub command_cancel : ℕ
command_cancel = 0x000C

abbrev pub command_echo : ℕ
command_echo = 0x000D

abbrev pub command_oplock_break : ℕ
command_oplock_break = 0x0012

abbrev pub flag_related_ops : ℕ
flag_related_ops = 0x00000004

abbrev pub flag_signed : ℕ
flag_signed = 0x00000008

abbrev pub status_success : ℕ
status_success = 0

abbrev pub status_access_denied : ℕ
status_access_denied = 0xC0000022

abbrev pub status_user_session_deleted : ℕ
status_user_session_deleted = 0xC0000203

unfoldable pub encryption_exempt : ℕ → Bool
encryption_exempt cmd =
    cmd == command_tree_connect
    || cmd == command_tree_disconnect
    || cmd == command_logoff
    || cmd == command_echo
    || cmd == command_cancel
    || cmd == command_oplock_break

-- `fileIDOffsetInBody`, `none` for -1.
unfoldable pub file_id_offset_in_body : ℕ → Option ℕ
file_id_offset_in_body cmd =
    if cmd == command_close || cmd == 0x0007 || cmd == 0x000B || cmd == 0x000A
    then some 8
    else if cmd == 0x0008 || cmd == 0x0009 || cmd == 0x0011
    then some 16
    else if cmd == 0x0010
    then some 24
    else if cmd == 0x000E || cmd == 0x000F
    then some 8
    else none

abbrev pub previous_handle_file_id : List ℕ
previous_handle_file_id = replicate 16 0xFF

-- The FileId slot holds the sentinel.
unfoldable pub sentinel_at : Option ℕ → Bytes → Bool
sentinel_at none body = false
sentinel_at (some off) body =
    if ltb body.len (off + 16)
    then false
    else same_bytes (slice body off 16) previous_handle_file_id

unfoldable pub has_previous_handle_sentinel : ℕ → Bytes → Bool
has_previous_handle_sentinel cmd body = sentinel_at (file_id_offset_in_body cmd) body

-- The state that the members of one frame's chain share.
pub record Chain : Type 0 where
  pub last_created_file_id : List ℕ
  pub has_last_created : Bool
  pub last_chain_status : ℕ
  pub encrypt_chain : Bool

-- `forFrame`
unfoldable pub for_frame : Bool → Chain
for_frame encrypted = record {
  last_created_file_id = replicate 16 0;
  has_last_created = false;
  last_chain_status = status_success;
  encrypt_chain = encrypted;
}

abbrev pub substituted : Option ℕ → List ℕ → Bytes → Bytes
substituted none id body = body
substituted (some off) id body = copy off id body

unfoldable pub substitute_previous_handle_file_id : Chain → ℕ → Bytes → Bytes
substitute_previous_handle_file_id c cmd body =
    if not c.has_last_created
    then body
    else if has_previous_handle_sentinel cmd body
    then substituted (file_id_offset_in_body cmd) c.last_created_file_id body
    else body

-- The connection's policy, and what it verifies signatures with.
pub record Policy : Type 0 where
  pub require_encryption : Bool
  pub require_signing : Bool
  pub signing_algo : ℕ
  pub primitives : Primitives

-- A refusal: its status, and whether the connection goes on.
pub data Verdict : Type 0 where
  refuses : ℕ → Bool → Verdict
  runs : Chain → Bytes → Verdict

abbrev pub has_flag : ℕ → ℕ → Bool
has_flag flags f = not (bit_and flags f == 0)

-- A related operation on the previous handle inherits a failure, but a CLOSE of a handle that the
-- chain opened runs, and uses the handle up.
unfoldable pub resolve_related : Chain → Header → Bytes → Verdict
resolve_related c hdr body =
    let sentinel = has_previous_handle_sentinel hdr.command body in
    let closes_live_handle = sentinel && c.has_last_created && hdr.command == command_close in
    if not (has_flag hdr.flags flag_related_ops)
    then runs c body
    else if sentinel && not (c.last_chain_status == status_success) && not closes_live_handle
    then refuses c.last_chain_status true
    else runs (if closes_live_handle then record c { has_last_created = false } else c)
        (substitute_previous_handle_file_id c hdr.command body)

-- The checks on the sender, with what follows them.
unfoldable pub checked_sender : Policy → Chain → Session → Header → Bytes → Verdict → Verdict
checked_sender p c s hdr frame rest =
    let signed = has_flag hdr.flags flag_signed in
    if not s.is_guest && ltb 0 (length s.signing_key)
    then (if p.require_encryption && not c.encrypt_chain && not (encryption_exempt hdr.command)
        then refuses status_access_denied true
        else if not c.encrypt_chain
        then (if p.require_signing || signed
            then (if not signed
                  || not (verify_message p.primitives p.signing_algo s.signing_key frame)
                then refuses status_access_denied false
                else rest)
            else rest)
        else rest)
    else rest

-- `Dispatch`, up to the choice of the handler. `session` is what the connection's table has under the
-- id of the header.
unfoldable pub dispatch_gate : Policy → Chain → Option Session → Header → Bytes → Bytes → Verdict
dispatch_gate p c none hdr body frame = refuses status_user_session_deleted false
dispatch_gate p c (some s) hdr body frame =
    if not s.authenticated
    then refuses status_access_denied false
    else checked_sender p c s hdr frame (resolve_related c hdr body)

-- What serves a command.
pub data Handler : Type 0 where
  tree_connect tree_disconnect create read write flush set_info close query_directory query_info
        ioctl logoff change_notify lock cancel :
      Handler
  -- An answer with a fixed status.
  answers : ℕ → Handler

unfoldable pub route : ℕ → Handler
route cmd =
    if cmd == command_tree_connect
    then tree_connect
    else if cmd == command_tree_disconnect
    then tree_disconnect
    else if cmd == command_create
    then create
    else if cmd == 0x0008
    then read
    else if cmd == 0x0009
    then write
    else if cmd == 0x0007
    then flush
    else if cmd == 0x0011
    then set_info
    else if cmd == command_close
    then close
    else if cmd == 0x000E
    then query_directory
    else if cmd == 0x0010
    then query_info
    else if cmd == 0x000B
    then ioctl
    else if cmd == command_logoff
    then logoff
    else if cmd == command_echo
    then answers status_success
    else if cmd == 0x000F
    then change_notify
    else if cmd == 0x000A
    then lock
    else if cmd == command_cancel
    then cancel
    else if cmd == command_oplock_break
    then answers 0xC00000E3
    else answers 0xC00000BB
