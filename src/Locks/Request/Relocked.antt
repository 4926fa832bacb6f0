-- ===== src/Locks/Request/Relocked.antt =====
-- The second half of `restoreLocks`: locking again every range that was held before.
use gosamba.Prelude.{
  ℕ, ◌<◌, ◌≤◌, ◌≡◌, refl, subst, ◌⊎◌, inl, inr, true, false, List, [], ◌∷◌, ◌++◌, arith, ◌==◌, All,
  Some, length, count, length-filter, Apart-filter, All-filter, not_both, ◌≢◌, ap,
}
use gosamba.Locks.Range.{FileKey, file_key_eq_iff, LockRange, kind_of}
use gosamba.Locks.Table.{
  RangeTable, ranges_at, apply, request, grant, Scan, scan_apply, Applied, max_lock_ranges_per_file,
  max_lock_ranges_per_owner,
}
use gosamba.Locks.Table.Lookup.{Grants, grant-Grants}
use gosamba.Locks.Table.Exclusion.{clash, twins, Scanned, scan_apply-Scanned}
use gosamba.Locks.Table.Invariant.{IsWord, IsValid, owned_by}
use gosamba.Locks.Table.Others.{not_owned_by}
use gosamba.Locks.Table.Runs.{In, In-apart}
use gosamba.Locks.Request.Members.{
  mine, In-filter, In-filter_inv, twins→eq, length_of_subset, length-mine-others,
}
use gosamba.Locks.Request.Frame.{Frame, apply-Frame}

-- Everything that `owner` holds in `t` it held in `t0`.
abbrev pub HoldsNoMore : FileKey → ℕ → RangeTable → RangeTable → Type 0
HoldsNoMore key owner t0 t =
    (r : LockRange) → r.owner ≡ owner → In r (ranges_at key t) → In r (ranges_at key t0)

-- `r` is held, nothing was dropped, and still nothing is held that was not held in `t0`.
record Relocked (key : FileKey) (owner : ℕ) (t0 t t' : RangeTable) (r : LockRange) : Type 0 where
  back : In r (ranges_at key t')
  kept : (x : LockRange) → In x (ranges_at key t) → In x (ranges_at key t')
  no_more : HoldsNoMore key owner t0 t'

Some-In :
    (P : LockRange → Type 0) (rs : List LockRange) → Some P rs → (x : LockRange) × In x rs × P x
Some-In P [] s = absurd s
Some-In P (r ∷ rs) (inl p) = (r, inl refl, p)
Some-In P (r ∷ rs) (inr s) = let (x, i, p) = Some-In P rs s in (x, inr i, p)

In-last : (r : LockRange) (rs : List LockRange) → In r (rs ++ r ∷ [])
In-last r [] = inl refl
In-last r (x ∷ rs) = inr (In-last r rs)

In-first : (r e : LockRange) (rs : List LockRange) → In r rs → In r (rs ++ e ∷ [])
In-first r e [] i = elim i [ ]
In-first r e (x ∷ rs) (inl i) = inl i
In-first r e (x ∷ rs) (inr i) = inr (In-first r e rs i)

In-append_inv : (r e : LockRange) (rs : List LockRange) → In r (rs ++ e ∷ []) → In r rs ⊎ (e ≡ r)
In-append_inv r e [] (inl i) = inr i
In-append_inv r e [] (inr i) = elim i [ ]
In-append_inv r e (x ∷ rs) (inl i) = inl (inl i)
In-append_inv r e (x ∷ rs) (inr i) = elim (In-append_inv r e rs i) [
  | inl j ↦ inl (inr j)
  | inr h ↦ inr h
]

clash_owner :
    (a b : LockRange) → clash a b ≡ true → (a.owner ≢ b.owner) × ((b.owner == a.owner) ≡ false)
clash_owner a b h = (λ e. ground arith, ground arith)

module _ (key : FileKey) (t0 t : RangeTable) (r : LockRange) (v0 : IsValid t0)
    (f : Frame key r.owner t0 t) (fewer : HoldsNoMore key r.owner t0 t)
    (held0 : In r (ranges_at key t0)) where
  -- No other handle's range clashes with `r`, since none did in `t0`.
  no_clash : ¬ Some (λ b. clash r b ≡ true) (ranges_at key t)
  no_clash s =
      let (b, i, c) = Some-In (λ b. clash r b ≡ true) (ranges_at key t) s in
      let (ne, ob) = clash_owner r b c in
      let kept = In-filter (not_owned_by r.owner) b (ranges_at key t) i (ground arith) in
      let old =
        (In-filter_inv (not_owned_by r.owner) b (ranges_at key t0) (rw (f.spared key) at kept)).0 in
      not_both (clash r b) c (In-apart r b (ranges_at key t0) (v0.files key).exclusion held0 old ne)

  mine_fewer :
      (x : LockRange)
      → In x (r ∷ mine r.owner (ranges_at key t))
      → In x (mine r.owner (ranges_at key t0))
  mine_fewer x (inl e) =
      rw (← e) (In-filter (owned_by r.owner) r (ranges_at key t0) held0 (ground arith))
  mine_fewer x (inr i) =
      let (j, o) = In-filter_inv (owned_by r.owner) x (ranges_at key t) i in
      In-filter (owned_by r.owner) x (ranges_at key t0) (fewer x (ground arith) j) o

  -- A range that is missing leaves room for itself.
  room :
      All (λ x. twins r x ≡ false) (ranges_at key t)
      → length (mine r.owner (ranges_at key t)) < length (mine r.owner (ranges_at key t0))
  room missing =
      length_of_subset (r ∷ mine r.owner (ranges_at key t)) (mine r.owner (ranges_at key t0))
        (
          All-filter (λ x. twins r x ≡ false) (owned_by r.owner) (ranges_at key t) missing,
          Apart-filter twins (owned_by r.owner) (ranges_at key t) (f.valid.files key).distinct,
        )
        mine_fewer

  not_full :
      All (λ x. twins r x ≡ false) (ranges_at key t)
      → ¬ (
          (max_lock_ranges_per_file ≤ length (ranges_at key t))
          ⊎ (max_lock_ranges_per_owner ≤ count (owned_by r.owner) (ranges_at key t)))
  not_full missing full = omega (
    arith,
    room missing,
    length-mine-others r.owner (ranges_at key t),
    length-mine-others r.owner (ranges_at key t0),
    ap length (f.spared key),
    length-filter (owned_by r.owner) (ranges_at key t),
    length-filter (owned_by r.owner) (ranges_at key t0),
    (v0.files key).owner_bound r.owner,
    (v0.files key).file_bound,
    full,
  )

  Grants-Relocked :
      (scan : Scan) (a : Applied)
      → Scanned r.owner r.start r.len r.is_exclusive 0 (ranges_at key t) scan
      → Grants t key r.owner r.start r.len r.is_exclusive scan a
      → Relocked key r.owner t0 t a.0 r
  Grants-Relocked scan a s (inl (same, inl (e, _))) = rw same (record {
    back = held_twin (subst (Scanned r.owner r.start r.len r.is_exclusive 0 (ranges_at key t)) e s);
    kept = λ x i. i;
    no_more = fewer;
  })
    where
      held_twin : Some (λ x. twins r x ≡ true) (ranges_at key t) → In r (ranges_at key t)
      held_twin h =
          let (x, i, e) = Some-In (λ x. twins r x ≡ true) (ranges_at key t) h in
          rw (twins→eq r x e) i
  Grants-Relocked scan a s (inl (same, inr (inl (e, _)))) =
      absurd
        (no_clash (subst (Scanned r.owner r.start r.len r.is_exclusive 0 (ranges_at key t)) e s))
  Grants-Relocked scan a s (inl (same, inr (inr (k, e, _, full)))) =
      let seen = subst (Scanned r.owner r.start r.len r.is_exclusive 0 (ranges_at key t)) e s in
      absurd (not_full seen.2 (elim full [ inl h ↦ inl h | inr h ↦ inr (omega (arith, seen.0)) ]))
  Grants-Relocked scan a s (inr (k, e, _, _, _, at, _, _)) =
      let new : ranges_at key a.0 ≡ ranges_at key t ++ r ∷ [] =
        rw (at key, (file_key_eq_iff key key).1 refl) in
      record {
        back = rw new (In-last r (ranges_at key t));
        kept = λ x i. rw new (In-first x r (ranges_at key t) i);
        no_more = λ x o i. elim (In-append_inv x r (ranges_at key t) (rw new at i)) [
          | inl old ↦ fewer x o old
          | inr last ↦ rw (← last) held0
        ];
      }

  request-Relocked :
      Relocked key r.owner t0 t (request t key r.owner r.start r.len r.is_exclusive).0 r
  unfolding request
  request-Relocked =
      let scan = scan_apply r.owner r.start r.len r.is_exclusive 0 (ranges_at key t) in
      Grants-Relocked scan (grant t key r.owner r.start r.len r.is_exclusive scan)
        (scan_apply-Scanned r.owner r.start r.len r.is_exclusive 0 (ranges_at key t))
        (grant-Grants t key r.owner r.start r.len r.is_exclusive scan)

apply-kind_of :
    (t : RangeTable) (key : FileKey) (r : LockRange)
    → 0 < r.len
    → apply t key r.owner r.start r.len (kind_of r)
      ≡ request t key r.owner r.start r.len r.is_exclusive
unfolding apply kind_of
apply-kind_of t key r h = ground arith

-- `relock_all` on the table alone.
unfoldable pub relock_ranges : RangeTable → FileKey → ℕ → List LockRange → RangeTable
relock_ranges t key owner [] = t
relock_ranges t key owner (r ∷ rs) =
    relock_ranges (apply t key owner r.start r.len (kind_of r)).0 key owner rs

-- A range to put back: held by `owner` before, and well formed.
abbrev pub IsPrior : FileKey → ℕ → RangeTable → LockRange → Type 0
IsPrior key owner t0 r = (r.owner ≡ owner) × In r (ranges_at key t0) × IsWord r

relock_one :
    (key : FileKey) (owner : ℕ) (t0 t : RangeTable) (r : LockRange)
    → IsValid t0
    → Frame key owner t0 t
    → HoldsNoMore key owner t0 t
    → IsPrior key owner t0 r
    → Relocked key owner t0 t (apply t key owner r.start r.len (kind_of r)).0 r
relock_one key owner t0 t r v0 f fewer (e, i, w) =
    subst (λ o. Relocked key o t0 t (apply t key o r.start r.len (kind_of r)).0 r) e
      (rw (apply-kind_of t key r w.2) (request-Relocked key t0 t r v0 (rw e f) (rw e fewer) i))

-- What `relock_ranges` reaches.
pub record AllRelocked (key : FileKey) (owner : ℕ) (t0 t t' : RangeTable) (rs : List LockRange)
    : Type 0 where
  pub frame : Frame key owner t0 t'
  pub back : All (λ r. In r (ranges_at key t')) rs
  pub kept : (x : LockRange) → In x (ranges_at key t) → In x (ranges_at key t')
  pub no_more : HoldsNoMore key owner t0 t'

pub relock_ranges-AllRelocked :
    (key : FileKey) (owner : ℕ) (t0 t : RangeTable) (rs : List LockRange)
    → IsValid t0
    → Frame key owner t0 t
    → HoldsNoMore key owner t0 t
    → All (IsPrior key owner t0) rs
    → AllRelocked key owner t0 t (relock_ranges t key owner rs) rs
unfolding relock_ranges
relock_ranges-AllRelocked key owner t0 t [] v0 f fewer p = record {
  frame = f;
  back = tt;
  kept = λ x i. i;
  no_more = fewer;
}
relock_ranges-AllRelocked key owner t0 t (r ∷ rs) v0 f fewer p =
    let one = relock_one key owner t0 t r v0 f fewer p.0 in
    let t' = (apply t key owner r.start r.len (kind_of r)).0 in
    let f' = apply-Frame t0 t key owner r.start r.len (kind_of r) p.0.2.0 p.0.2.1 f in
    let all = relock_ranges-AllRelocked key owner t0 t' rs v0 f' one.no_more p.1 in
    record {
      frame = all.frame;
      back = (all.kept r one.back, all.back);
      kept = λ x i. all.kept x (one.kept x i);
      no_more = all.no_more;
    }
