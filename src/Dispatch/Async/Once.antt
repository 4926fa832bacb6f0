-- ===== src/Dispatch/Async/Once.antt =====
-- How often a request is completed.
use gosamba.Prelude.{
  ℕ, ◌≡◌, refl, ap, ◌∙◌, inl, inr, Bool, true, false, ◌==◌, ==_iff, if◌then◌else◌, List, [], ◌∷◌,
  count, Option, none, some, arith, Bool-cases,
}
use gosamba.Prelude.Assoc.{Map, get?, nat_key, get?-put}
use gosamba.Dispatch.Async.{
  NotifyReg, AsyncTable, new_async_table, complete, fresh_reg, register_at, register_notify,
  unregister_notify, complete_once, cancel_at, cancel_notify, on_handles, cleanup_all,
  cancel_notifies_for_opens, cancel_all_notifies, status_notify_cleanup,
}

-- How often the channel of a registration was closed.
abbrev pub closes : ℕ → AsyncTable → ℕ
closes r t = count (λ x. x == r) t.closed

abbrev pub marked : Option NotifyReg → ℕ
marked none = 0
marked (some reg) = if reg.cancelled then 1 else 0

-- A channel is closed once if its registration is marked as cancelled, and else not at all.
abbrev pub ClosedOnce : AsyncTable → Type 0
ClosedOnce t = (r : ℕ) → closes r t ≡ marked (get? r t.heap)

-- One call; a registration is new when it is registered.
pub data Step : AsyncTable → AsyncTable → Type 0 where
  registers :
      (t : AsyncTable) (msg r handle : ℕ)
      → get? r t.heap ≡ none
      → Step t (register_notify msg r handle t)
  unregisters : (t : AsyncTable) (msg : ℕ) → Step t (unregister_notify msg t)
  cancels : (t : AsyncTable) (msg status : ℕ) → Step t (cancel_notify msg status t).0
  cleans_up : (t : AsyncTable) (opens : List ℕ) → Step t (cancel_notifies_for_opens opens t)
  ends : (t : AsyncTable) → Step t (cancel_all_notifies t)

pub data Reach (s : AsyncTable) : AsyncTable → Type 0 where
  here : Reach s s
  next : {t u : AsyncTable} → Reach s t → Step t u → Reach s u

complete-ClosedOnce :
    (r status : ℕ) (reg : NotifyReg) (t : AsyncTable)
    → marked (get? r t.heap) ≡ 0
    → ClosedOnce t
    → ClosedOnce (complete r status reg t)
unfolding complete
complete-ClosedOnce r status reg t free v x =
    let done : NotifyReg = record reg { status = status; cancelled = true } in
    ground (arith, v x, v r, get?-put r x done t.heap, ==_iff r x)

complete_once-ClosedOnce :
    (r status : ℕ) (found : Option NotifyReg) (t : AsyncTable)
    → get? r t.heap ≡ found
    → ClosedOnce t
    → ClosedOnce (complete_once r status found t).0
unfolding complete_once
complete_once-ClosedOnce r status none t e v = v
complete_once-ClosedOnce r status (some reg) t e v = elim (Bool-cases reg.cancelled) [
  | inl done ↦ simp done v
  | inr open_ ↦ simp open_ (complete-ClosedOnce r status reg t (ap marked e ∙ ground arith) v)
]

register_at-ClosedOnce :
    (msg r handle : ℕ) (found : Option ℕ) (t : AsyncTable)
    → get? r t.heap ≡ none
    → ClosedOnce t
    → ClosedOnce (register_at msg r handle found t)
unfolding register_at
register_at-ClosedOnce msg r handle (some status) t e v =
    complete-ClosedOnce r status (fresh_reg handle) _ (ap marked e) v
register_at-ClosedOnce msg r handle none t e v =
    λ x. ground (arith, v x, v r, ap marked e, get?-put r x (fresh_reg handle) t.heap, ==_iff r x)

cancel_at-ClosedOnce :
    (msg status : ℕ) (found : Option ℕ) (t : AsyncTable)
    → ClosedOnce t
    → ClosedOnce (cancel_at msg status found t).0
unfolding cancel_at
cancel_at-ClosedOnce msg status none t v = λ x. ground (arith, v x)
cancel_at-ClosedOnce msg status (some r) t v =
    complete_once-ClosedOnce r status (get? r t.heap) t refl v

if_ClosedOnce :
    (b : Bool) (t u : AsyncTable) → ClosedOnce t → ClosedOnce u → ClosedOnce (if b then t else u)
if_ClosedOnce true t u v w = v
if_ClosedOnce false t u v w = w

cleanup_all-ClosedOnce :
    (in_set : ℕ → Bool) (regs : Map ℕ ℕ) (t : AsyncTable)
    → ClosedOnce t
    → ClosedOnce (cleanup_all in_set regs t)
unfolding cleanup_all
cleanup_all-ClosedOnce in_set [] t v = v
cleanup_all-ClosedOnce in_set ((msg, r) ∷ regs) t v =
    let done = complete_once-ClosedOnce r status_notify_cleanup (get? r t.heap) t refl v in
    cleanup_all-ClosedOnce in_set regs _
      (if_ClosedOnce (on_handles in_set (get? r t.heap)) _ t done v)

Step-ClosedOnce : {t u : AsyncTable} → Step t u → ClosedOnce t → ClosedOnce u
unfolding register_notify unregister_notify cancel_notify cancel_notifies_for_opens
    cancel_all_notifies
Step-ClosedOnce (registers t msg r handle free) v =
    register_at-ClosedOnce msg r handle (get? msg t.pre_cancelled) t free v
Step-ClosedOnce (unregisters t msg) v = v
Step-ClosedOnce (cancels t msg status) v = cancel_at-ClosedOnce msg status (get? msg t.regs) t v
Step-ClosedOnce (cleans_up t opens) v = cleanup_all-ClosedOnce _ t.regs t v
Step-ClosedOnce (ends t) v = cleanup_all-ClosedOnce _ t.regs t v

-- However cancels, closing handles and the end of the connection interleave with the requests, the
-- channel of a request is closed at most once, and exactly if the request is marked as cancelled.
pub Reach-ClosedOnce : {t : AsyncTable} → Reach new_async_table t → ClosedOnce t
unfolding get?
Reach-ClosedOnce here = λ r. refl
Reach-ClosedOnce (next r s) = Step-ClosedOnce s (Reach-ClosedOnce r)
