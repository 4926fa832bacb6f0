-- ===== src/Locks/Table/Invariant.antt =====
-- The invariant of `rangeTable`, call by call.
use gosamba.Prelude.{
  ℕ, ◌+◌, ◌<◌, ◌≤◌, ◌^◌, ◌≡◌, refl, subst, inl, inr, Bool, true, false, not, List, [], ◌∷◌, ◌++◌,
  if◌then◌else◌, arith, All, All-append, All-filter, Bool-cases, count, ◌==◌, filter, Apart,
  Apart-filter, Apart-append, length, length-filter_le, length-append, count-append,
  count-filter_le, ==_iff,
}
use gosamba.Prelude.Assoc.{UniqueKeys, total, get?}
use gosamba.Locks.Range.{
  FileKey, file_key, file_key_eq, LockKind, unlock, shared, exclusive, LockRange,
}
use gosamba.Locks.Table.{
  RangeTable, new_range_table, max_lock_ranges_per_file, max_lock_ranges_per_owner, ranges_at,
  retain, grant, Scan, owned, scan_apply, request, apply, release_owner, keeps_unlock, Applied,
  dispatch_kind,
}
use gosamba.Locks.Table.Lookup.{
  entry, ranges_at-retain, retain-UniqueKeys, retain-total, Grants, grant-Grants, apply_cases,
}
use gosamba.Locks.Table.Exclusion.{
  clash, clash_comm, IsExclusive, ClashesWithNone, twins, twin, twin_comm, Scanned,
  scan_apply-Scanned,
}

abbrev pub IsWord : LockRange → Type 0
IsWord r = (r.start < 2 ^ 64) × (r.len < 2 ^ 64) × (0 < r.len)

abbrev pub owned_by : ℕ → LockRange → Bool
owned_by owner r = r.owner == owner

pub record IsValidList (rs : List LockRange) : Type 0 where
  pub exclusion : IsExclusive rs
  pub distinct : Apart twins rs
  pub words : All IsWord rs
  pub file_bound : length rs ≤ max_lock_ranges_per_file
  pub owner_bound : (owner : ℕ) → count (owned_by owner) rs ≤ max_lock_ranges_per_owner

pub record IsValid (t : RangeTable) : Type 0 where
  pub unique : UniqueKeys t.locks
  pub counted : t.n ≡ total length t.locks
  pub files : (key : FileKey) → IsValidList (ranges_at key t)

filter-IsValidList :
    (keep : LockRange → Bool) (rs : List LockRange) → IsValidList rs → IsValidList (filter keep rs)
filter-IsValidList keep rs v = record {
  exclusion = Apart-filter clash keep rs v.exclusion;
  distinct = Apart-filter twins keep rs v.distinct;
  words = All-filter IsWord keep rs v.words;
  file_bound = omega (arith, length-filter_le keep rs, v.file_bound);
  owner_bound =
      λ owner. omega (arith, count-filter_le keep (owned_by owner) rs, v.owner_bound owner);
}

append-IsValidList :
    (owner start len : ℕ) (excl : Bool) (rs : List LockRange)
    → IsValidList rs
    → IsWord (entry owner start len excl)
    → length rs + 1 ≤ max_lock_ranges_per_file
    → count (owned_by owner) rs + 1 ≤ max_lock_ranges_per_owner
    → ClashesWithNone (entry owner start len excl) rs
    → All (λ r. twin owner start len excl r ≡ false) rs
    → IsValidList (rs ++ entry owner start len excl ∷ [])
append-IsValidList owner start len excl rs v w room place c d =
    let e = entry owner start len excl in
    record {
      exclusion = Apart-append clash clash_comm e rs v.exclusion c;
      distinct = Apart-append twins twin_comm e rs v.distinct d;
      words = All-append IsWord rs (e ∷ []) v.words (w, tt);
      file_bound = omega (arith, length-append rs (e ∷ []));
      owner_bound = λ o.
          ground (arith, count-append (owned_by o) rs (e ∷ []), v.owner_bound o, ==_iff owner o);
    }

-- A property of every file's list, through an assignment to one of them.
at_one_key :
    (P : List LockRange → Type 0) (t t' : RangeTable) (key : FileKey) (new : List LockRange)
    → ((j : FileKey) → ranges_at j t' ≡ (if file_key_eq key j then new else ranges_at j t))
    → P new
    → ((j : FileKey) → P (ranges_at j t))
    → (j : FileKey) → P (ranges_at j t')
at_one_key P t t' key new e p h j = elim (Bool-cases (file_key_eq key j)) [
  | inl same ↦ rw (e j, same) p
  | inr other ↦ rw (e j, other) (h j)
]

retain-IsValid :
    (t : RangeTable) (key : FileKey) (keep : LockRange → Bool)
    → IsValid t
    → IsValid (retain t key keep)
retain-IsValid t key keep v = record {
  unique = retain-UniqueKeys t key keep v.unique;
  counted = retain-total t key keep v.unique v.counted;
  files =
      at_one_key IsValidList t (retain t key keep) key (filter keep (ranges_at key t))
        (ranges_at-retain t key keep) (filter-IsValidList keep (ranges_at key t) (v.files key))
        v.files;
}

Grants-IsValid :
    (t : RangeTable) (key : FileKey) (owner start len : ℕ) (excl : Bool) (scan : Scan) (r : Applied)
    → IsWord (entry owner start len excl)
    → IsValid t
    → Scanned owner start len excl 0 (ranges_at key t) scan
    → Grants t key owner start len excl scan r
    → IsValid r.0
Grants-IsValid t key owner start len excl scan r w v s (inl (same, _)) = rw same v
Grants-IsValid t key owner start len excl scan r w v s (inr (k, e, _, room, place, at, u, n)) =
    record {
      unique = u v.unique;
      counted = n v.counted;
      files =
          at_one_key IsValidList t r.0 key (ranges_at key t ++ entry owner start len excl ∷ []) at
            (append-IsValidList owner start len excl (ranges_at key t) (v.files key) w room
              (omega (arith, scanned.0)) scanned.1 scanned.2)
            v.files;
    }
  where
    scanned : Scanned owner start len excl 0 (ranges_at key t) (owned k)
    scanned = subst (Scanned owner start len excl 0 (ranges_at key t)) e s

request-IsValid :
    (t : RangeTable) (key : FileKey) (owner start len : ℕ) (excl : Bool)
    → IsWord (entry owner start len excl)
    → IsValid t
    → IsValid (request t key owner start len excl).0
unfolding request
request-IsValid t key owner start len excl w v =
    let scan = scan_apply owner start len excl 0 (ranges_at key t) in
    Grants-IsValid t key owner start len excl scan (grant t key owner start len excl scan) w v
      (scan_apply-Scanned owner start len excl 0 (ranges_at key t))
      (grant-Grants t key owner start len excl scan)

-- Every call of `apply` with 64-bit arguments keeps the invariant, whether it succeeds or fails.
pub apply-IsValid :
    (t : RangeTable) (key : FileKey) (owner start len : ℕ) (kind : LockKind)
    → start < 2 ^ 64
    → len < 2 ^ 64
    → IsValid t
    → IsValid (apply t key owner start len kind).0
apply-IsValid t key owner start len kind hs hl v =
    apply_cases (λ r. IsValid r.0) t key owner start len kind v λ pos. dispatched kind pos
  where
    dispatched : (k : LockKind) → 0 < len → IsValid (dispatch_kind t key owner start len k).0
    dispatched unlock pos = retain-IsValid t key (keeps_unlock owner start len) v
    dispatched shared pos = request-IsValid t key owner start len false (hs, hl, pos) v
    dispatched exclusive pos = request-IsValid t key owner start len true (hs, hl, pos) v

pub release_owner-IsValid :
    (t : RangeTable) (key : FileKey) (owner : ℕ) → IsValid t → IsValid (release_owner t key owner)
unfolding release_owner
release_owner-IsValid t key owner v = retain-IsValid t key (λ r. not (r.owner == owner)) v

pub new_range_table-IsValid : IsValid new_range_table
unfolding ranges_at get?
new_range_table-IsValid = record {
  unique = tt;
  counted = refl;
  files = λ key. record {
    exclusion = tt;
    distinct = tt;
    words = tt;
    file_bound = omega arith;
    owner_bound = λ o. omega arith;
  };
}
