-- ===== src/Lib.antt =====
-- gosamba, an SMB2/SMB3 file server in Go: a model of its protocol core.
--
-- The server accepts connections (internal/parent/conn.go), reads NBSS frames
-- (internal/transport), decodes SMB2 messages (internal/smb2), decrypts and verifies them
-- (internal/smb3), and dispatches each command to a handler (internal/parent/dispatch.go). The
-- handlers of all connections share tables that are guarded by mutexes: byte-range locks, share
-- modes, sessions and durable handles.
--
-- Files and the code they model:
--
-- - Prelude: names and lemmas that the modules share. Prelude/Assoc models Go's map[K]V as an
--   association list.
-- - Locks/Range: fileKey, lockRange, rangeEnd and rangesOverlap of
--   internal/parent/lock_ranges.go.
-- - Locks/Table: rangeTable of internal/parent/lock_ranges.go (apply, releaseOwner, conflict,
--   rangesDiff). A handle, a *Open in the source, is a number. Its children: Lookup, what is read
--   after each write; Exclusion, the scan and the clash relation; Invariant and Runs, the
--   invariant and histories; Outcome, Others and Loss, what a call changes and what it leaves;
--   Conflict, the READ and WRITE test.
-- - Locks/Manager: lockTable of the same file with its published count and its release channel,
--   and the lock manager of internal/parent/lock_darwin.go. Every method holds the mutex, so a
--   call is one step. Channels are numbers, and the closed ones are listed.
-- - Locks/Request: decodeLockOps, applyLockOps, restoreLocks, lockStatus and the answer of
--   handleLock in internal/parent/lock.go. Its children: Decode, validation and the answers;
--   Members, Frame, Unlocked, Relocked, Restore and Atomic, the rollback.
-- - Access: the access-mask constants of internal/smb2/create.go and
--   internal/parent/maxaccess.go, and maximalAccess. The answers of faccessat are arguments.
-- - ShareModes: shareModeTable of internal/parent/sharemode.go. Its children: Conflict, the
--   sharing rule; Sweep, the removal of dead entries; Invariant, Admit, Dispose and Renamed, the
--   invariant and each operation; Runs, histories; Waiters, parked CREATEs.
-- - Wire: byte buffers with the calls of encoding/binary that the codecs make. Wire/Header:
--   internal/smb2/header.go, with RoundTrip and Bounds. Wire/Requests: the LOCK, READ, WRITE,
--   CLOSE and FLUSH decoders of internal/smb2, with Bounds (no read past the body) and Locks (the
--   layout of a LOCK body). Wire/Buffers: the SESSION_SETUP, SET_INFO, QUERY_INFO, TREE_CONNECT,
--   TREE_DISCONNECT and CHANGE_NOTIFY decoders, with Bounds.
-- - Transport: internal/transport/nbss.go. Transport/Framing: sequences of frames on one
--   connection.
-- - Negotiate: the constants of internal/smb2/negotiate.go, Select of internal/smb2/selection.go
--   and grantCredits of internal/parent/credits.go. Its children: Best, the scans; Chosen,
--   Select; Credits.
-- - Crypto/Transform: internal/smb3/encrypt.go, with RoundTrip and Nonce. Crypto/Cmac:
--   internal/smb3/cmac.go, with Chunks and Sized. Crypto/Sign: internal/smb3/sign.go, with
--   Verified.
-- - Crypto/Ccm: internal/smb3/ccm.go, with Counter (the key stream) and Sealed. Crypto/Ciphers:
--   newAEAD of internal/smb3/encrypt.go and internal/smb3/aeadcache.go, with Cached.
-- - Crypto/Kdf: internal/smb3/kdf.go and internal/smb2/preauth.go, with Counted (the blocks of
--   the derived key).
-- - Crypto/Rc4: rc4xor of internal/parent/session.go.
-- - Wire/Contexts: the create-context list of internal/smb2/create.go and parseDurableContexts of
--   internal/parent/durable.go, with Reread.
-- - Sessions: Session of internal/parent/session.go, with Opens (the ownership of a session's
--   opens); Sessions/Table: SessionTable of the same file; Sessions/Index:
--   internal/parent/sessionindex.go, with Supersede. Sessions/Handler and Sessions/Setup:
--   handleType3 of internal/parent/session.go, first the choice of the user and the proof, then
--   what sets the session up, with Proof and Users (a user's proof and the choice of the user),
--   Proven (who is set up), Guests (what a guest's success leaves behind) and Found (the users of
--   a configuration).
-- - Ntlm: the messages and AV pairs of internal/ntlm, with Pairs, Text (names in UTF-16) and
--   Fields (the payload of an AUTHENTICATE message) and Challenge (EncodeChallenge);
--   Ntlm/Response: internal/ntlm/ntlmv2.go and internal/ntlm/mic.go.
-- - Config: internal/config/config.go, merge.go and validate.go, and NTHash of
--   internal/userdb/nthash.go, with Checks (the error monad), Entries (the shares and users that
--   pass), Validated and Loaded.
-- - Durable: DurableTable of internal/parent/durable.go. Its children: Owned, histories of the
--   table; Attached, detaching and reclaiming; Reconnect, handleDurableReconnect, with Reserved
--   (the reservation of an open that is taken over) and Paths (every other reconnect too).
-- - Dispatch: the front of Dispatch in internal/parent/dispatch.go. Its children: Gate, the
--   checks on the sender; Related, the handles of a related chain.
-- - Dispatch/Async: the table of asynchronous requests in internal/parent/dispatch.go, with Once.
--   A registration and its channel are one number.
-- - Connection: the walk along a frame in internal/parent/conn.go, with Serial (which frames run
--   beside others).
-- - Compound: internal/parent/compound.go, with Grouped (the responses and the bytes of the
--   frames of a flush) and Linked (the members of a frame). A Session is a number; the reserved
--   NBSS headroom of a buffer is left out.
-- - CopyChunk: the request and the checks of internal/parent/copychunk.go and its decoder in
--   internal/smb2/ioctl.go, with Valid; CopyChunk/Keys: resumeKeyTable, with Revoked.
-- - Vfs: Resolve, ResolveSecure and ResolveLink of internal/vfs/path.go, with Under (the prefix
--   test), Walk (the way up from a path), Confined (what the checks let through) and Followed
--   (links).
-- - Search: internal/parent/wildcard.go, with Matched, the grammar of patterns.
-- - Examples: tests on concrete inputs, and applications to them.
--
-- Numbers are natural numbers; the wrap-around of the 64-bit addition in rangeEnd is written out.
-- The code's int counters hold lengths of lists. The loops are recursions on lists, so no fuel is
-- needed there; the number of frames to read from a stream is an argument, and CMAC's loop over
-- pieces has one unit of fuel for each piece and one more. The walk over create contexts has one
-- unit of fuel for each byte, as each entry is at least a byte on; the scan of a search pattern
-- has (n + 1)(p + 1) turns for a name of n and a pattern of p runes, and no answer where they run
-- out; a folding orbit has at most four runes. The walks along a frame have one unit of fuel for
-- each byte and one more, as each message is at least 64 bytes; the grouping of responses has one
-- for each response. Reading an AV list has one unit of fuel for each byte and one more, as a
-- pair takes at least four bytes.
--
-- A session, an open and a connection are named by a number in place of the pointer, a moment by
-- its nanoseconds. Maps are walked in the order of their association lists where Go's order is
-- open; no result depends on it but the order of releases. Receivers that may be nil in the
-- source are taken to be there.
--
-- An int of a system id is its two's complement pattern, and the nil and the empty allow_shares
-- are told apart as absent and empty. A SESSION_SETUP answer is its status and its flags. The key
-- of RC4 has 16 bytes.
--
-- The random bytes of a resume key are an argument of issue, and a history issues no key that the
-- table has already, as 24 random bytes do not repeat.
--
-- A key derivation has one unit of fuel for each 256 bits of output and one more. The walk up
-- from an absolute path has one unit of fuel for each byte of the path and one more, as
-- filepath.Dir gives its argument or a shorter path there; a walk that runs out has no answer.
-- The root of a share is taken to be absolute, as Resolve asks.
--
-- Parameters: path/filepath and the answers of Lstat and EvalSymlinks at one moment,
-- strings.EqualFold and unicode.SimpleFold, the answers of the file system and the end of a
-- session during a reconnect, strings.ToUpper and strings.ToLower, utf16.Encode,
-- time.ParseDuration, net.SplitHostPort, strconv.Atoi, the lookups of os/user, HMAC, MD4,
-- SHA-512, AES, GCM and the AEAD of a session are arguments of the definitions that use them, as
-- are the bytes of the process's random nonce prefix; what fstat returns for a handle is a field
-- of the handle in the lock manager and a function argument of each call in the share modes, and
-- whether a blocking LOCK may still park is an argument of handle_lock. In one LOCK request the
-- calls of the lock manager follow one another with no call of another connection between them.
--
-- Not modelled: files, sockets, goroutines and timers, the operating system's own locks, and the
-- parts that PROJECT.json lists so.
pub mod Prelude
pub mod Access
pub mod Compound
pub mod Config
pub mod Connection
pub mod CopyChunk
pub mod Crypto
pub mod Dispatch
pub mod Durable
pub mod Locks
pub mod Negotiate
pub mod Ntlm
pub mod Search
pub mod Sessions
pub mod ShareModes
pub mod Transport
pub mod Vfs
pub mod Wire
pub mod Examples
