-- ===== src/Locks/Manager/Published.antt =====
-- The published count and the unlocked fast path of `conflict`, against the table.
use gosamba.Prelude.{
  ℕ, ◌≡◌, refl, sym, ◌∙◌, inl, inr, Bool, true, false, none, some, List, [], ◌∷◌, arith, length,
  Bool-cases, ◌==◌, ◌<◌, ◌^◌, ltb,
}
use gosamba.Prelude.Assoc.{Map, get?, total}
use gosamba.Locks.Range.{FileKey, file_key, LockKind, LockRange}
use gosamba.Locks.Table.{RangeTable, LockError, or_nil, ranges_at, scan_conflict}
use gosamba.Locks.Table
use gosamba.Locks.Table.Invariant.{IsValid, apply-IsValid, release_owner-IsValid}
use gosamba.Locks.Manager.{
  LockTable, publish, apply, release_owner, conflict, Handle, conflicts_with,
}

-- The table is well formed, and the count beside the mutex is the table's.
pub record IsSound (l : LockTable) : Type 0 where
  pub valid : IsValid l.t
  pub published : l.n ≡ l.t.n

publish_t : (l : LockTable) (before : ℕ) → (publish l before).t ≡ l.t
unfolding publish
publish_t l before = ground arith

publish-IsSound : (l : LockTable) (before : ℕ) → IsValid l.t → IsSound (publish l before)
unfolding publish
publish-IsSound l before v = elim (Bool-cases (ltb l.t.n before)) [
  | inl e ↦ rw e (record { valid = v; published = refl })
  | inr e ↦ rw e (record { valid = v; published = refl })
]

-- `apply`, `releaseOwner` and `releaseSignal` keep the table well formed and its count published.
pub apply-IsSound :
    (l : LockTable) (key : FileKey) (owner start len : ℕ) (kind : LockKind)
    → start < 2 ^ 64
    → len < 2 ^ 64
    → IsSound l
    → IsSound (apply l key owner start len kind).0
unfolding apply
apply-IsSound l key owner start len kind hs hl s =
    publish-IsSound (record l { t = (Table.apply l.t key owner start len kind).0 }) l.t.n
      (apply-IsValid l.t key owner start len kind hs hl s.valid)

pub release_owner-IsSound :
    (l : LockTable) (key : FileKey) (owner : ℕ) → IsSound l → IsSound (release_owner l key owner)
unfolding release_owner
release_owner-IsSound l key owner s =
    publish-IsSound (record l { t = Table.release_owner l.t key owner }) l.t.n
      (release_owner-IsValid l.t key owner s.valid)

total-zero :
    (key : FileKey) (m : Map FileKey (List LockRange))
    → total length m ≡ 0
    → or_nil (get? key m) ≡ []
unfolding get?
total-zero key [] h = refl
total-zero key ((j, []) ∷ m) h = ground (arith, total-zero key m)
total-zero key ((j, r ∷ rs) ∷ m) h = absurd (omega arith)

conflict_of_empty :
    (t : RangeTable) (key : FileKey) (owner start len : ℕ) (write : Bool)
    → IsValid t
    → t.n ≡ 0
    → Table.conflict t key owner start len write ≡ false
unfolding Table.conflict ranges_at scan_conflict
conflict_of_empty t key owner start len write v h =
    ground (arith, total-zero key t.locks (sym v.counted ∙ h))

-- `conflict` answers as the table's own scan does, though it skips the scan when the published count
-- is zero.
pub conflict-eq :
    (l : LockTable) (key : FileKey) (owner start len : ℕ) (write : Bool)
    → IsSound l
    → conflict l key owner start len write ≡ Table.conflict l.t key owner start len write
unfolding conflict
conflict-eq l key owner start len write s = elim (Bool-cases (l.n == 0)) [
  | inl e ↦
      rw e (
        sym (conflict_of_empty l.t key owner start len write s.valid (ground (arith, s.published))))
  | inr e ↦ rw e
]

conflict-zero :
    (t : RangeTable) (key : FileKey) (owner start len : ℕ) (write : Bool)
    → (len == 0) ≡ true
    → Table.conflict t key owner start len write ≡ false
unfolding Table.conflict
conflict-zero t key owner start len write h = rw h

-- The manager's check for READ and WRITE is the table's conflict test on the handle's file, whichever
-- of its shortcuts it takes; a handle whose `fstat` fails meets no conflict.
pub conflicts_with-eq :
    (l : LockTable) (h : Handle) (offset len : ℕ) (write : Bool)
    → IsSound l
    → ((key : FileKey)
        → h.key ≡ some key
        → conflicts_with l h offset len write ≡ Table.conflict l.t key h.id offset len write)
      × (h.key ≡ none → conflicts_with l h offset len write ≡ false)
unfolding conflicts_with
conflicts_with-eq l h offset len write s = (on_file, λ e. ground arith)
  where
    on_file :
        (key : FileKey)
        → h.key ≡ some key
        → conflicts_with l h offset len write ≡ Table.conflict l.t key h.id offset len write
    on_file key e = ground (
      arith,
      conflict-zero l.t key h.id offset len write,
      conflict_of_empty l.t key h.id offset len write s.valid,
      conflict-eq l key h.id offset len write s,
      s.published,
    )
