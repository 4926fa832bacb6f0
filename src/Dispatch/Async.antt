-- ===== src/Dispatch/Async.antt =====
-- The outstanding asynchronous requests of a connection in internal/parent/dispatch.go: CHANGE_NOTIFY
-- watches and parked LOCKs, and what completes them. Each function holds the table's mutex.
pub mod Once
use gosamba.Prelude.{
  ℕ, suc, ◌%◌, ◌^◌, Bool, true, false, not, ◌&&◌, ◌||◌, ◌==◌, ltb, if◌then◌else◌, List, [], ◌∷◌,
  length, any, bit_and, bit_or, Option, none, some,
}
use gosamba.Prelude.Assoc.{Map, get?, put, delete, nat_key}

abbrev pub max_pre_cancelled : ℕ
max_pre_cancelled = 256

abbrev pub status_notify_cleanup : ℕ
status_notify_cleanup = 0x0000010B

-- `notifyReg`; its channel is the registration's own number.
pub record NotifyReg : Type 0 where
  pub handle : ℕ
  pub status : ℕ
  pub cancelled : Bool

-- `asyncTable`: the registrations behind their pointers, those that a MessageId names, the cancels
-- that came first, the ids given out, and the channels closed.
pub record AsyncTable : Type 0 where
  pub heap : Map ℕ NotifyReg
  pub regs : Map ℕ ℕ
  pub pre_cancelled : Map ℕ ℕ
  pub next_id : ℕ
  pub closed : List ℕ

abbrev pub new_async_table : AsyncTable
new_async_table = record { heap = []; regs = []; pre_cancelled = []; next_id = 0; closed = [] }

unfoldable pub next_async_id : AsyncTable → AsyncTable × ℕ
next_async_id t = let id = suc t.next_id % 2 ^ 64 in (record t { next_id = id }, id)

-- `reg.cancelled = true`, its status, and `close(reg.cancel)`.
unfoldable pub complete : ℕ → ℕ → NotifyReg → AsyncTable → AsyncTable
complete r status reg t = record t {
  heap = put r (record reg { status = status; cancelled = true }) t.heap;
  closed = r ∷ t.closed;
}

abbrev pub fresh_reg : ℕ → NotifyReg
fresh_reg handle = record { handle = handle; status = 0; cancelled = false }

-- A registration `r` that the caller just made.
unfoldable pub register_at : ℕ → ℕ → ℕ → Option ℕ → AsyncTable → AsyncTable
register_at msg r handle (some status) t =
    complete r status (fresh_reg handle) (record t { pre_cancelled = delete msg t.pre_cancelled })
register_at msg r handle none t = record t {
  heap = put r (fresh_reg handle) t.heap;
  regs = put msg r t.regs;
}

unfoldable pub register_notify : ℕ → ℕ → ℕ → AsyncTable → AsyncTable
register_notify msg r handle t = register_at msg r handle (get? msg t.pre_cancelled) t

unfoldable pub unregister_notify : ℕ → AsyncTable → AsyncTable
unregister_notify msg t = record t { regs = delete msg t.regs }

-- A registration that is not cancelled yet is completed, and the answer says so.
unfoldable pub complete_once : ℕ → ℕ → Option NotifyReg → AsyncTable → AsyncTable × Bool
complete_once r status none t = (t, false)
complete_once r status (some reg) t =
    if reg.cancelled then (t, false) else (complete r status reg t, true)

unfoldable pub cancel_at : ℕ → ℕ → Option ℕ → AsyncTable → AsyncTable × Bool
cancel_at msg status none t =
    if ltb (length t.pre_cancelled) max_pre_cancelled
    then (record t { pre_cancelled = put msg status t.pre_cancelled }, false)
    else (t, false)
cancel_at msg status (some r) t = complete_once r status (get? r t.heap) t

unfoldable pub cancel_notify : ℕ → ℕ → AsyncTable → AsyncTable × Bool
cancel_notify msg status t = cancel_at msg status (get? msg t.regs) t

-- Whether the registration stands for one of the handles.
abbrev pub on_handles : (ℕ → Bool) → Option NotifyReg → Bool
on_handles in_set none = false
on_handles in_set (some reg) = in_set reg.handle

unfoldable pub cleanup_all : (ℕ → Bool) → Map ℕ ℕ → AsyncTable → AsyncTable
cleanup_all in_set [] t = t
cleanup_all in_set ((msg, r) ∷ regs) t =
    let found = get? r t.heap in
    let done = (complete_once r status_notify_cleanup found t).0 in
    cleanup_all in_set regs (if on_handles in_set found then done else t)

unfoldable pub cancel_notifies_for_opens : List ℕ → AsyncTable → AsyncTable
cancel_notifies_for_opens opens t = cleanup_all (λ h. any (λ o. o == h) opens) t.regs t

unfoldable pub cancel_all_notifies : AsyncTable → AsyncTable
cancel_all_notifies t = cleanup_all (λ h. true) t.regs t

-- `notifyFilterAllows`, for the actions 1 to 5 of internal/smb2/change_notify.go.
unfoldable pub notify_filter_allows : ℕ → ℕ → Bool
notify_filter_allows filter action =
    if filter == 0
    then true
    else if action == 1 || action == 2 || action == 4 || action == 5
    then not (bit_and filter 0x3 == 0)
    else if action == 3
    then not (bit_and filter 0x1C == 0)
    else false
