-- ===== src/Locks/Request/Decode.antt =====
-- `decodeLockOps`, and the answers of `handleLock`.
use gosamba.Prelude.{
  ℕ, ◌<◌, ◌^◌, ◌≡◌, refl, ◌≢◌, inl, inr, ◌↔◌, Bool, List, [], ◌∷◌, arith, All, Option, none, some,
  Option-cases,
}
use gosamba.Locks.Range.{LockKind}
use gosamba.Locks.Table.{LockError}
use gosamba.Locks.Table.Invariant.{IsValid}
use gosamba.Locks.Manager.{LockTable}
use gosamba.Locks.Request.{
  LockElement, LockOp, kind_of_flags, decode_lock_ops, decode_element, handle_lock, answers, Target,
  unknown, no_file, open_file, status_success, apply_lock_ops, reply_of, apply_decoded,
}
use gosamba.Locks.Request.Atomic.{IsOp, IsRestored, apply_lock_ops-atomic, SameRanges-refl}

-- The ops are the elements, in order, each with the kind that its flags select and an offset that
-- fits a signed file offset.
abbrev pub Decodes : List LockElement → List LockOp → Type 0
Decodes [] [] = Unit
Decodes [] (op ∷ ops) = ⊥
Decodes (el ∷ els) [] = ⊥
Decodes (el ∷ els) (op ∷ ops) =
    ((op.el ≡ el) × (kind_of_flags el.flags ≡ some op.kind) × (op.el.offset < 2 ^ 63))
    × Decodes els ops

cons_of_element :
    (el : LockElement) (k : Option LockKind) (rest : Option (List LockOp)) (ops : List LockOp)
    → decode_element el k rest ≡ some ops
    → (op : LockOp) × (tail : List LockOp) × (ops ≡ op ∷ tail)
      × (rest ≡ some tail)
      × (op.el ≡ el)
      × (k ≡ some op.kind)
      × (op.el.offset < 2 ^ 63)
cons_of_element el none rest ops h = cc
cons_of_element el (some kind) none ops h = ground arith
cons_of_element el (some kind) (some tail) ops h =
    (record { el = el; kind = kind }, tail, ground arith, refl, refl, refl, ground arith)

element_of_cons :
    (el : LockElement) (k : Option LockKind) (rest : Option (List LockOp)) (op : LockOp)
    (tail : List LockOp)
    → op.el ≡ el
    → k ≡ some op.kind
    → op.el.offset < 2 ^ 63
    → rest ≡ some tail
    → decode_element el k rest ≡ some (op ∷ tail)
element_of_cons el k rest op tail e f h g = rw (f, g) (ground arith)

decode_lock_ops-Decodes :
    (els : List LockElement) (ops : List LockOp) → decode_lock_ops els ≡ some ops → Decodes els ops
unfolding decode_lock_ops
decode_lock_ops-Decodes [] [] h = tt
decode_lock_ops-Decodes [] (op ∷ ops) h = cc
decode_lock_ops-Decodes (el ∷ els) ops h =
    let (op, tail, e, r, a, b, c) =
      cons_of_element el (kind_of_flags el.flags) (decode_lock_ops els) ops h in
    rw e ((a, b, c), decode_lock_ops-Decodes els tail r)

Decodes-decode_lock_ops :
    (els : List LockElement) (ops : List LockOp) → Decodes els ops → decode_lock_ops els ≡ some ops
unfolding decode_lock_ops
Decodes-decode_lock_ops [] [] d = refl
Decodes-decode_lock_ops [] (op ∷ ops) d = elim d [ ]
Decodes-decode_lock_ops (el ∷ els) [] d = elim d [ ]
Decodes-decode_lock_ops (el ∷ els) (op ∷ ops) ((a, b, c), d) =
    element_of_cons el (kind_of_flags el.flags) (decode_lock_ops els) op ops a b c
      (Decodes-decode_lock_ops els ops d)

-- `decodeLockOps` returns the ops exactly if they are the elements in order, every element selects
-- its kind by its flags and every offset is at most 2^63-1; in all other cases it refuses.
pub decode_lock_ops_iff :
    (els : List LockElement) (ops : List LockOp)
    → (decode_lock_ops els ≡ some ops) ↔ Decodes els ops
decode_lock_ops_iff els ops = (decode_lock_ops-Decodes els ops, Decodes-decode_lock_ops els ops)

Decodes-IsOp :
    (els : List LockElement) (ops : List LockOp)
    → All (λ el. el.len < 2 ^ 64) els
    → Decodes els ops
    → All IsOp ops
Decodes-IsOp [] [] w d = tt
Decodes-IsOp [] (op ∷ ops) w d = elim d [ ]
Decodes-IsOp (el ∷ els) [] w d = elim d [ ]
Decodes-IsOp (el ∷ els) (op ∷ ops) w ((a, b, c), d) =
    ((omega arith, rw a w.0), Decodes-IsOp els ops w.1 d)

reply_not_success :
    (can_park : Bool) (ops : List LockOp) (r : Option (ℕ × LockError))
    → reply_of can_park ops r ≢ answers status_success
    → (k : ℕ) × (e : LockError) × (r ≡ some (k, e))
unfolding reply_of
reply_not_success can_park ops none ne = absurd (ne refl)
reply_not_success can_park ops (some (k, e)) ne = (k, e, refl)

-- Whatever `handleLock` answers but success, and when it parks the request, the table is well formed
-- and tracks exactly the ranges that it tracked before.
pub handle_lock-atomic :
    (can_park : Bool) (l : LockTable) (target : Target) (els : List LockElement)
    → IsValid l.t
    → All (λ el. el.len < 2 ^ 64) els
    → (handle_lock can_park l target els).1 ≢ answers status_success
    → IsRestored l.t (handle_lock can_park l target els).0.t
unfolding handle_lock
handle_lock-atomic can_park l unknown els v w ne = (v, SameRanges-refl l.t)
handle_lock-atomic can_park l no_file els v w ne = (v, SameRanges-refl l.t)
handle_lock-atomic can_park l (open_file h) els v w ne = elim (Option-cases (decode_lock_ops els)) [
  | inl bad ↦ rw bad (v, SameRanges-refl l.t)
  | inr (ops, good) ↦ rw good (applied ops good (rw good at ne))
]
  where
    applied :
        (ops : List LockOp)
        → decode_lock_ops els ≡ some ops
        → (apply_decoded can_park l h (some ops)).1 ≢ answers status_success
        → IsRestored l.t (apply_decoded can_park l h (some ops)).0.t
    applied ops good ne' =
        let (k, e, r) = reply_not_success can_park ops (apply_lock_ops l h ops).1 ne' in
        apply_lock_ops-atomic l h ops k e v
          (Decodes-IsOp els ops w (decode_lock_ops-Decodes els ops good)) r
