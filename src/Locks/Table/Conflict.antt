-- ===== src/Locks/Table/Conflict.antt =====
-- `conflict`, the test that READ and WRITE make, against its meaning in bytes.
use gosamba.Prelude.{
  ℕ, ◌<◌, ◌^◌, ◌≡◌, ◌↔◌, ◌≢◌, inl, inr, Bool, true, ◌||◌, List, [], ◌∷◌, arith, All, Some,
  Bool-cases, ◌==◌,
}
use gosamba.Locks.Range.{FileKey, LockRange, ranges_overlap_iff, Covers}
use gosamba.Locks.Table.{RangeTable, ranges_at, forbids, scan_conflict, conflict}
use gosamba.Locks.Table.Invariant.{IsWord, IsValid}

-- Another handle's range shares a byte with the I/O, and the I/O writes or the range is exclusive.
abbrev pub Forbids : ℕ → ℕ → ℕ → Bool → LockRange → Type 0
Forbids owner start len write r =
    (r.owner ≢ owner)
    × ((b : ℕ) × Covers start len b × Covers r.start r.len b)
    × ((write || r.is_exclusive) ≡ true)

forbids_iff :
    (owner start len : ℕ) (write : Bool) (r : LockRange)
    → start < 2 ^ 64
    → len < 2 ^ 64
    → IsWord r
    → (forbids owner start len write r ≡ true) ↔ Forbids owner start len write r
unfolding forbids
forbids_iff owner start len write r hs hl w =
    let over = ranges_overlap_iff start len r.start r.len hs hl w.0 w.1 in
    (
      λ h. (ground arith, over.0 (ground arith), ground arith),
      λ (other, share, strong). ground (arith, over.1 share),
    )

scan_conflict_iff :
    (owner start len : ℕ) (write : Bool) (rs : List LockRange)
    → start < 2 ^ 64
    → len < 2 ^ 64
    → All IsWord rs
    → (scan_conflict owner start len write rs ≡ true) ↔ Some (Forbids owner start len write) rs
unfolding scan_conflict
scan_conflict_iff owner start len write [] hs hl w = (λ h. cc, λ h. absurd h)
scan_conflict_iff owner start len write (r ∷ rs) hs hl w =
    let this = forbids_iff owner start len write r hs hl w.0 in
    let rest = scan_conflict_iff owner start len write rs hs hl w.1 in
    elim (Bool-cases (forbids owner start len write r)) [
      | inl e ↦ (λ h. inl (this.0 e), λ h. rw e)
      | inr e ↦ rw e (
        λ h. inr (rest.0 h),
        elim [ inl h ↦ absurd (ground (arith, this.1 h)) | inr h ↦ rest.1 h ],
      )
    ]

-- `conflict` answers true exactly if a range of another handle on the file shares a byte with the
-- I/O and the I/O is a write or that range is exclusive, for every table that the operations keep.
pub conflict_iff :
    (t : RangeTable) (key : FileKey) (owner start len : ℕ) (write : Bool)
    → IsValid t
    → start < 2 ^ 64
    → len < 2 ^ 64
    → (conflict t key owner start len write ≡ true)
      ↔ Some (Forbids owner start len write) (ranges_at key t)
unfolding conflict
conflict_iff t key owner start len write v hs hl =
    let scan =
      scan_conflict_iff owner start len write (ranges_at key t) hs hl (v.files key).words in
    elim (Bool-cases (len == 0)) [
      | inl e ↦ rw e (λ h. cc, λ h. absurd (nothing (ranges_at key t) (ground arith) h))
      | inr e ↦ rw e scan
    ]
  where
    nothing : (rs : List LockRange) → len ≡ 0 → Some (Forbids owner start len write) rs → ⊥
    nothing [] z h = h
    nothing (r ∷ rs) z (inl (o, (b, c, d), s)) = omega arith
    nothing (r ∷ rs) z (inr h) = nothing rs z h
