-- ===== src/Locks/Request/Atomic.antt =====
-- `applyLockOps` when an element fails.
use gosamba.Prelude.{
  ℕ, suc, ◌<◌, ◌^◌, ◌≡◌, refl, sym, ap, ◌∙◌, inl, inr, Bool, true, false, List, [], ◌∷◌, arith, All,
  none, some, lt→ltb, length, Option-cases,
}
use gosamba.Locks.Range.{FileKey, LockKind, unlock, shared, exclusive, LockRange}
use gosamba.Locks.Table.{
  RangeTable, ranges_at, LockError, Applied, request, grant, scan_apply, Scan, dispatch_kind,
  ranges_diff,
}
use gosamba.Locks.Table
use gosamba.Locks.Table.Lookup.{Grants, grant-Grants, apply_cases}
use gosamba.Locks.Table.Invariant.{IsValid}
use gosamba.Locks.Manager.{LockTable, Handle, apply_lock, snapshot_ranges}
use gosamba.Locks.Request.{LockOp, restore_locks, apply_ops, apply_lock_ops, unlock_all, relock_all}
use gosamba.Locks.Request.Frame.{Frame, Frame-refl, apply-Frame}
use gosamba.Locks.Request.Restore.{SameRanges, apply_lock_t, apply_lock_e, restore_locks-SameRanges}

-- Offsets and lengths are 64-bit words.
abbrev pub IsOp : LockOp → Type 0
IsOp op = (op.el.offset < 2 ^ 64) × (op.el.len < 2 ^ 64)

pub SameRanges-refl : (t : RangeTable) → SameRanges t t
SameRanges-refl t j r = (λ i. i, λ i. i)

-- A table that is well formed and tracks the ranges of `t0`.
abbrev pub IsRestored : RangeTable → RangeTable → Type 0
IsRestored t0 t = IsValid t × SameRanges t0 t

Grants-error :
    (t : RangeTable) (key : FileKey) (owner start len : ℕ) (excl : Bool) (scan : Scan) (r : Applied)
    (e : LockError)
    → Grants t key owner start len excl scan r
    → r.1 ≡ some e
    → r.0 ≡ t
Grants-error t key owner start len excl scan r e (inl (same, _)) h = same
Grants-error t key owner start len excl scan r e (inr (k, _, ok, _, _, _, _, _)) h = cc

request_error :
    (t : RangeTable) (key : FileKey) (owner start len : ℕ) (excl : Bool) (e : LockError)
    → (request t key owner start len excl).1 ≡ some e
    → (request t key owner start len excl).0 ≡ t
unfolding request
request_error t key owner start len excl e h =
    let scan = scan_apply owner start len excl 0 (ranges_at key t) in
    Grants-error t key owner start len excl scan (grant t key owner start len excl scan) e
      (grant-Grants t key owner start len excl scan) h

-- A call of `apply` that fails leaves the table as it was.
pub apply_error :
    (t : RangeTable) (key : FileKey) (owner start len : ℕ) (kind : LockKind) (e : LockError)
    → (Table.apply t key owner start len kind).1 ≡ some e
    → (Table.apply t key owner start len kind).0 ≡ t
apply_error t key owner start len kind e =
    apply_cases (λ r. r.1 ≡ some e → r.0 ≡ t) t key owner start len kind (λ h. refl)
      λ pos. dispatched kind
  where
    dispatched :
        (k : LockKind)
        → (dispatch_kind t key owner start len k).1 ≡ some e
        → (dispatch_kind t key owner start len k).0 ≡ t
    dispatched unlock h = cc
    dispatched shared h = request_error t key owner start len false e h
    dispatched exclusive h = request_error t key owner start len true e h

-- A handle without a key tracks nothing, and its calls change nothing.
module _ (h : Handle) (at : h.key ≡ none) where
  unlock_all_none : (l : LockTable) (rs : List LockRange) → unlock_all l h rs ≡ l
  unfolding unlock_all apply_lock
  unlock_all_none l [] = refl
  unlock_all_none l (r ∷ rs) = ground (arith, unlock_all_none l rs)

  relock_all_none : (l : LockTable) (rs : List LockRange) → relock_all l h rs ≡ l
  unfolding relock_all apply_lock
  relock_all_none l [] = refl
  relock_all_none l (r ∷ rs) = ground (arith, relock_all_none l rs)

  restore_none : (l : LockTable) (snap : List LockRange) → restore_locks l h snap ≡ l
  unfolding restore_locks
  restore_none l snap =
      relock_all_none (unlock_all l h (ranges_diff (snapshot_ranges l h) snap)) snap
      ∙ unlock_all_none l (ranges_diff (snapshot_ranges l h) snap)

  ops_none :
      (undo : LockTable → LockTable) (same : (l : LockTable) → undo l ≡ l) (i : ℕ) (l : LockTable)
      (ops : List LockOp)
      → (apply_ops undo h i l ops).0 ≡ l
  unfolding apply_ops apply_lock
  ops_none undo same i l [] = refl
  ops_none undo same i l (op ∷ ops) = ground (arith, same l)

many_eq :
    (l : LockTable) (h : Handle) (op op' : LockOp) (ops : List LockOp)
    → apply_lock_ops l h (op ∷ op' ∷ ops)
      ≡ apply_ops (λ l'. restore_locks l' h (snapshot_ranges l h)) h 0 l (op ∷ op' ∷ ops)
unfolding apply_lock_ops
many_eq l h op op' ops = rw (lt→ltb 1 (suc (suc (length ops))) (omega arith))

keyless :
    (h : Handle) (at : h.key ≡ none) (l : LockTable) (ops : List LockOp)
    → (apply_lock_ops l h ops).0 ≡ l
unfolding apply_lock_ops
keyless h at l [] = ops_none h at (λ l'. l') (λ l'. refl) 0 l []
keyless h at l (op ∷ []) = ops_none h at (λ l'. l') (λ l'. refl) 0 l (op ∷ [])
keyless h at l (op ∷ op' ∷ ops) =
    ap (λ r. r.0) (many_eq l h op op' ops)
    ∙ ops_none h at (λ l'. restore_locks l' h (snapshot_ranges l h))
        (λ l'. restore_none h at l' (snapshot_ranges l h)) 0 l (op ∷ op' ∷ ops)

module _ (h : Handle) (key : FileKey) (at : h.key ≡ some key) (l0 : LockTable)
    (v0 : IsValid l0.t) where
  apply_lock_error :
      (l : LockTable) (offset len : ℕ) (kind : LockKind) (x : LockError)
      → (apply_lock l h offset len kind).1 ≡ some x
      → (apply_lock l h offset len kind).0.t ≡ l.t
  apply_lock_error l offset len kind x bad =
      apply_lock_t h key at l offset len kind
      ∙ apply_error l.t key h.id offset len kind x
          (sym (apply_lock_e h key at l offset len kind) ∙ bad)

  many_ops :
      (i : ℕ) (l : LockTable) (ops : List LockOp) (k : ℕ) (e : LockError)
      → All IsOp ops
      → Frame key h.id l0.t l.t
      → (apply_ops (λ l'. restore_locks l' h (snapshot_ranges l0 h)) h i l ops).1 ≡ some (k, e)
      → IsRestored l0.t (apply_ops (λ l'. restore_locks l' h (snapshot_ranges l0 h)) h i l ops).0.t
  unfolding apply_ops
  many_ops i l [] k e w f fail = cc
  many_ops i l (op ∷ ops) k e w f fail =
      let f' : Frame key h.id l0.t (apply_lock l h op.el.offset op.el.len op.kind).0.t =
        rw (apply_lock_t h key at l op.el.offset op.el.len op.kind)
          (apply-Frame l0.t l.t key h.id op.el.offset op.el.len op.kind w.0.0 w.0.1 f) in
      elim (Option-cases (apply_lock l h op.el.offset op.el.len op.kind).1) [
        | inl ok ↦
            rw (ok, apply_ops)
              (many_ops (suc i) (apply_lock l h op.el.offset op.el.len op.kind).0 ops k e w.1 f'
                (rw (ok, apply_ops) at fail))
        | inr (x, bad) ↦
            rw (bad, apply_ops)
              (restore_locks-SameRanges h key l0 (apply_lock l h op.el.offset op.el.len op.kind).0
                at v0 f')
      ]

  -- A request of one element has nothing to undo.
  one_op :
      (op : LockOp) (k : ℕ) (e : LockError)
      → (apply_ops (λ l'. l') h 0 l0 (op ∷ [])).1 ≡ some (k, e)
      → IsRestored l0.t (apply_ops (λ l'. l') h 0 l0 (op ∷ [])).0.t
  unfolding apply_ops
  one_op op k e fail = elim (Option-cases (apply_lock l0 h op.el.offset op.el.len op.kind).1) [
    | inl ok ↦ cc (rw (ok, apply_ops) at fail)
    | inr (x, bad) ↦ rw (bad, apply_ops, unchanged x bad) (v0, SameRanges-refl l0.t)
  ]
    where
      unchanged :
          (x : LockError)
          → (apply_lock l0 h op.el.offset op.el.len op.kind).1 ≡ some x
          → (apply_lock l0 h op.el.offset op.el.len op.kind).0.t ≡ l0.t
      unchanged x bad = apply_lock_error l0 op.el.offset op.el.len op.kind x bad

  with_key :
      (ops : List LockOp) (k : ℕ) (e : LockError)
      → All IsOp ops
      → (apply_lock_ops l0 h ops).1 ≡ some (k, e)
      → IsRestored l0.t (apply_lock_ops l0 h ops).0.t
  unfolding apply_lock_ops apply_ops
  with_key [] k e w fail = cc
  with_key (op ∷ []) k e w fail = one_op op k e fail
  with_key (op ∷ op' ∷ ops) k e w fail = rw (many_eq l0 h op op' ops) (
      many_ops 0 l0 (op ∷ op' ∷ ops) k e w (Frame-refl key h.id l0.t v0)
        (rw (many_eq l0 h op op' ops) at fail))

-- When an element of a LOCK request fails, the table is well formed and tracks, on every file,
-- exactly the ranges that it tracked before the request, those of the requesting handle included.
pub apply_lock_ops-atomic :
    (l : LockTable) (h : Handle) (ops : List LockOp) (k : ℕ) (e : LockError)
    → IsValid l.t
    → All IsOp ops
    → (apply_lock_ops l h ops).1 ≡ some (k, e)
    → IsRestored l.t (apply_lock_ops l h ops).0.t
apply_lock_ops-atomic l h ops k e v w fail = elim (Option-cases h.key) [
  | inl none_ ↦ rw (keyless h none_ l ops) (v, SameRanges-refl l.t)
  | inr (key, at) ↦ with_key h key at l v ops k e w fail
]
