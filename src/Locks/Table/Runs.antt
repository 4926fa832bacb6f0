-- ===== src/Locks/Table/Runs.antt =====
-- Histories of the table: any sequence of `apply` and `releaseOwner` from the empty table.
use gosamba.Prelude.{ℕ, ◌<◌, ◌^◌, ◌≡◌, ◌≢◌, inl, inr, false, List, [], ◌∷◌, arith, All, Some, ◌∙◌}
use gosamba.Locks.Range.{FileKey, LockKind, LockRange, ranges_overlap_iff, Covers}
use gosamba.Locks.Table.{RangeTable, new_range_table, ranges_at, apply, release_owner}
use gosamba.Locks.Table.Exclusion.{clash, clash_comm, IsExclusive}
use gosamba.Locks.Table.Invariant.{
  IsWord, IsValid, apply-IsValid, release_owner-IsValid, new_range_table-IsValid,
}

pub data Call : Type 0 where
  applies : FileKey → ℕ → ℕ → ℕ → LockKind → Call
  releases : FileKey → ℕ → Call

-- Offsets and lengths are 64-bit words.
abbrev pub IsCall : Call → Type 0
IsCall (applies key owner start len kind) = (start < 2 ^ 64) × (len < 2 ^ 64)
IsCall (releases key owner) = Unit

unfoldable pub step : RangeTable → Call → RangeTable
step t (applies key owner start len kind) = (apply t key owner start len kind).0
step t (releases key owner) = release_owner t key owner

unfoldable pub run : RangeTable → List Call → RangeTable
run t [] = t
run t (c ∷ cs) = run (step t c) cs

step-IsValid : (t : RangeTable) (c : Call) → IsCall c → IsValid t → IsValid (step t c)
unfolding step
step-IsValid t (applies key owner start len kind) w v =
    apply-IsValid t key owner start len kind w.0 w.1 v
step-IsValid t (releases key owner) w v = release_owner-IsValid t key owner v

run_from-IsValid :
    (t : RangeTable) (cs : List Call) → All IsCall cs → IsValid t → IsValid (run t cs)
unfolding run
run_from-IsValid t [] w v = v
run_from-IsValid t (c ∷ cs) w v = run_from-IsValid (step t c) cs w.1 (step-IsValid t c w.0 v)

-- After any history of 64-bit calls the table is well formed: `n` counts the tracked ranges, no
-- file has a clash or a duplicate, and the caps per file and per handle hold.
pub run-IsValid : (cs : List Call) → All IsCall cs → IsValid (run new_range_table cs)
run-IsValid cs w = run_from-IsValid new_range_table cs w new_range_table-IsValid

abbrev pub In : LockRange → List LockRange → Type 0
In a = Some (λ r. r ≡ a)

pub All-In {κ} :
    (P : LockRange → Type κ) (a : LockRange) (rs : List LockRange) → All P rs → In a rs → P a
All-In P a [] h i = elim i [ ]
All-In P a (r ∷ rs) h (inl e) = rw (← e) h.0
All-In P a (r ∷ rs) h (inr i) = All-In P a rs h.1 i

pub In-apart :
    (a b : LockRange) (rs : List LockRange)
    → IsExclusive rs
    → In a rs
    → In b rs
    → a.owner ≢ b.owner
    → clash a b ≡ false
In-apart a b [] x i j ne = elim i [ ]
In-apart a b (r ∷ rs) x (inl e) (inl f) ne = absurd (ne (ground arith))
In-apart a b (r ∷ rs) x (inl e) (inr j) ne = rw (← e) (All-In (λ y. clash r y ≡ false) b rs x.0 j)
In-apart a b (r ∷ rs) x (inr i) (inl f) ne =
    clash_comm a b ∙ rw (← f) (All-In (λ y. clash r y ≡ false) a rs x.0 i)
In-apart a b (r ∷ rs) x (inr i) (inr j) ne = In-apart a b rs x.1 i j ne

-- After any history of 64-bit calls, two ranges of different handles on one file that share a byte
-- are both shared locks.
pub mutual_exclusion :
    (cs : List Call) (key : FileKey) (a b : LockRange) (byte : ℕ)
    → All IsCall cs
    → In a (ranges_at key (run new_range_table cs))
    → In b (ranges_at key (run new_range_table cs))
    → a.owner ≢ b.owner
    → Covers a.start a.len byte
    → Covers b.start b.len byte
    → (a.is_exclusive ≡ false) × (b.is_exclusive ≡ false)
mutual_exclusion cs key a b byte w i j ne ca cb =
    let files = (run-IsValid cs w).files key in
    let wa = All-In IsWord a (ranges_at key (run new_range_table cs)) files.words i in
    let wb = All-In IsWord b (ranges_at key (run new_range_table cs)) files.words j in
    let over =
      (ranges_overlap_iff a.start a.len b.start b.len wa.0 wa.1 wb.0 wb.1).1 (byte, ca, cb) in
    let apart = In-apart a b (ranges_at key (run new_range_table cs)) files.exclusion i j ne in
    ground (arith, over, apart)
