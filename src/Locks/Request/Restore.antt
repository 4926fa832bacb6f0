-- ===== src/Locks/Request/Restore.antt =====
-- `restoreLocks`: a handle's ranges and the snapshot.
use gosamba.Prelude.{
  ℕ, ◌≡◌, refl, ap, ◌∙◌, inl, inr, ◌↔◌, List, [], ◌∷◌, arith, Bool-cases, ◌==◌, All, some,
  All-filter, ==_iff,
}
use gosamba.Locks.Range.{
  FileKey, file_key_eq, file_key_eq_iff, LockKind, unlock, LockRange, kind_of,
}
use gosamba.Locks.Table.{RangeTable, ranges_at, ranges_diff}
use gosamba.Locks.Table
use gosamba.Locks.Table.Invariant.{IsWord, IsValid, owned_by}
use gosamba.Locks.Table.Others.{not_owned_by}
use gosamba.Locks.Table.Runs.{In, All-In}
use gosamba.Locks.Manager.{LockTable, Handle, publish, apply, apply_lock, snapshot, snapshot_ranges}
use gosamba.Locks.Request.{unlock_all, relock_all, restore_locks}
use gosamba.Locks.Request.Members.{mine, In-filter, In-filter_inv}
use gosamba.Locks.Request.Frame.{Frame}
use gosamba.Locks.Request.Unlocked.{
  unlock_ranges, unlock_ranges-Frame, In-unlock_ranges, ranges_diff-IsWord,
  Survives-has_counterpart, has_counterpart-In,
}
use gosamba.Locks.Request.Relocked.{
  relock_ranges, relock_ranges-AllRelocked, IsPrior, HoldsNoMore, AllRelocked,
}

publish_t : (l : LockTable) (before : ℕ) → (publish l before).t ≡ l.t
unfolding publish
publish_t l before = ground arith

-- The same ranges on every file, in whatever order.
abbrev pub SameRanges : RangeTable → RangeTable → Type 0
SameRanges t t' = (j : FileKey) (r : LockRange) → In r (ranges_at j t') ↔ In r (ranges_at j t)

module _ (h : Handle) (key : FileKey) (at : h.key ≡ some key) where
  pub apply_lock_t :
      (l : LockTable) (offset len : ℕ) (kind : LockKind)
      → (apply_lock l h offset len kind).0.t ≡ (Table.apply l.t key h.id offset len kind).0
  unfolding apply_lock apply
  apply_lock_t l offset len kind =
      rw (at, apply_lock)
        (publish_t (record l { t = (Table.apply l.t key h.id offset len kind).0 }) l.t.n)

  pub apply_lock_e :
      (l : LockTable) (offset len : ℕ) (kind : LockKind)
      → (apply_lock l h offset len kind).1 ≡ (Table.apply l.t key h.id offset len kind).1
  unfolding apply_lock apply
  apply_lock_e l offset len kind = rw (at, apply_lock)

  snapshot_ranges-mine : (l : LockTable) → snapshot_ranges l h ≡ mine h.id (ranges_at key l.t)
  unfolding snapshot_ranges snapshot
  snapshot_ranges-mine l = rw (at, snapshot_ranges)

  unlock_all_t :
      (l : LockTable) (rs : List LockRange) → (unlock_all l h rs).t ≡ unlock_ranges l.t key h.id rs
  unfolding unlock_all unlock_ranges
  unlock_all_t l [] = refl
  unlock_all_t l (r ∷ rs) =
      unlock_all_t (apply_lock l h r.start r.len unlock).0 rs
      ∙ ap (λ t. unlock_ranges t key h.id rs) (apply_lock_t l r.start r.len unlock)

  relock_all_t :
      (l : LockTable) (rs : List LockRange) → (relock_all l h rs).t ≡ relock_ranges l.t key h.id rs
  unfolding relock_all relock_ranges
  relock_all_t l [] = refl
  relock_all_t l (r ∷ rs) =
      relock_all_t (apply_lock l h r.start r.len (kind_of r)).0 rs
      ∙ ap (λ t. relock_ranges t key h.id rs) (apply_lock_t l r.start r.len (kind_of r))

  restore_t :
      (l : LockTable) (snap : List LockRange)
      → (restore_locks l h snap).t
        ≡ relock_ranges
            (unlock_ranges l.t key h.id (ranges_diff (mine h.id (ranges_at key l.t)) snap))
            key
            h.id
            snap
  unfolding restore_locks
  restore_t l snap =
      relock_all_t (unlock_all l h (ranges_diff (snapshot_ranges l h) snap)) snap
      ∙ ap (λ t. relock_ranges t key h.id snap)
          (unlock_all_t l (ranges_diff (snapshot_ranges l h) snap)
            ∙ ap (λ m. unlock_ranges l.t key h.id (ranges_diff m snap)) (snapshot_ranges-mine l))

All-owner : (owner : ℕ) (rs : List LockRange) → All (λ o. o.owner ≡ owner) (mine owner rs)
All-owner owner [] = tt
All-owner owner (r ∷ rs) = elim (Bool-cases (r.owner == owner)) [
  | inl e ↦ rw e (ground arith, All-owner owner rs)
  | inr e ↦ rw e (All-owner owner rs)
]

All-IsPrior :
    (key : FileKey) (owner : ℕ) (t0 : RangeTable) (xs : List LockRange)
    → ((r : LockRange) → In r xs → IsPrior key owner t0 r)
    → All (IsPrior key owner t0) xs
All-IsPrior key owner t0 [] h = tt
All-IsPrior key owner t0 (r ∷ rs) h =
    (h r (inl refl), All-IsPrior key owner t0 rs (λ x i. h x (inr i)))

module _ (key : FileKey) (owner : ℕ) (t0 t : RangeTable) (v0 : IsValid t0)
    (f : Frame key owner t0 t) where
  snap : List LockRange
  snap = mine owner (ranges_at key t0)

  added : List LockRange
  added = ranges_diff (mine owner (ranges_at key t)) (mine owner (ranges_at key t0))

  added-IsWord :
      All IsWord (ranges_diff (mine owner (ranges_at key t)) (mine owner (ranges_at key t0)))
  added-IsWord =
      ranges_diff-IsWord (mine owner (ranges_at key t)) (mine owner (ranges_at key t0))
        (All-filter IsWord (owned_by owner) (ranges_at key t) (f.valid.files key).words)

  -- After the unlocking the handle holds nothing that the snapshot lacks.
  unlocked_no_more : HoldsNoMore key owner t0 (unlock_ranges t key owner added)
  unfolding added
  unlocked_no_more r o i =
      let (j, s) = In-unlock_ranges t key owner added r added-IsWord i in
      let here = In-filter (owned_by owner) r (ranges_at key t) j ((==_iff r.owner owner).1 o) in
      let other =
        Survives-has_counterpart owner r (mine owner (ranges_at key t))
          (mine owner (ranges_at key t0)) o here s in
      (In-filter_inv (owned_by owner) r (ranges_at key t0) (
        has_counterpart-In owner r (mine owner (ranges_at key t0)) o
          (All-owner owner (ranges_at key t0)) other)).0

  prior : All (IsPrior key owner t0) (mine owner (ranges_at key t0))
  prior = All-IsPrior key owner t0 (mine owner (ranges_at key t0)) λ r i.
      let (j, o) = In-filter_inv (owned_by owner) r (ranges_at key t0) i in
      ((==_iff r.owner owner).0 o, j, All-In IsWord r (ranges_at key t0) (v0.files key).words j)

  restored : RangeTable
  restored =
      relock_ranges (unlock_ranges t key owner added) key owner (mine owner (ranges_at key t0))

  restored-AllRelocked :
      AllRelocked key owner t0
        (unlock_ranges t key owner added)
        restored
        (mine owner (ranges_at key t0))
  unfolding restored added
  restored-AllRelocked =
      relock_ranges-AllRelocked key owner t0 (unlock_ranges t key owner added)
        (mine owner (ranges_at key t0)) v0 (unlock_ranges-Frame t0 t key owner added added-IsWord f)
        unlocked_no_more prior

  at_file : (r : LockRange) → In r (ranges_at key restored) ↔ In r (ranges_at key t0)
  at_file r = elim (Bool-cases (r.owner == owner)) [
    | inl e ↦ (
      λ i. restored-AllRelocked.no_more r ((==_iff r.owner owner).0 e) i,
      λ i.
          All-In (λ x. In x (ranges_at key restored)) r (mine owner (ranges_at key t0))
            restored-AllRelocked.back (In-filter (owned_by owner) r (ranges_at key t0) i e),
    )
    | inr e ↦ (
      λ i.
          (In-filter_inv (not_owned_by owner) r (ranges_at key t0) (
            rw (restored-AllRelocked.frame.spared key) at
              (In-filter (not_owned_by owner) r (ranges_at key restored) i (ground arith)))).0,
      λ i.
          (In-filter_inv (not_owned_by owner) r (ranges_at key restored) (
            rw (← restored-AllRelocked.frame.spared key) at
              (In-filter (not_owned_by owner) r (ranges_at key t0) i (ground arith)))).0,
    )
  ]

  -- The restored table is well formed and tracks exactly the ranges of `t0`.
  restored-SameRanges : IsValid restored × SameRanges t0 restored
  restored-SameRanges = (
    restored-AllRelocked.frame.valid,
    λ j r. elim (Bool-cases (file_key_eq key j)) [
      | inl e ↦ rw (← (file_key_eq_iff key j).0 e) (at_file r)
      | inr e ↦ rw (restored-AllRelocked.frame.elsewhere j e) (λ i. i, λ i. i)
    ],
  )

-- Rolling back to the snapshot taken in `l0` gives a well-formed table with the ranges of `l0`.
pub restore_locks-SameRanges :
    (h : Handle) (key : FileKey) (l0 l : LockTable)
    → h.key ≡ some key
    → IsValid l0.t
    → Frame key h.id l0.t l.t
    → IsValid (restore_locks l h (snapshot_ranges l0 h)).t
      × SameRanges l0.t (restore_locks l h (snapshot_ranges l0 h)).t
unfolding restored added
restore_locks-SameRanges h key l0 l at v0 f =
    rw (restore_t h key at l (snapshot_ranges l0 h), snapshot_ranges-mine h key at l0)
      (restored-SameRanges key h.id l0.t l.t v0 f)
