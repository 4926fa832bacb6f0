-- ===== src/Locks/Table/Lookup.antt =====
-- What `ranges_at` reads after each write of `rangeTable`, and the total that `n` counts.
use gosamba.Prelude.{
  ℕ, ◌+◌, ◌≤◌, ◌<◌, ◌≡◌, refl, ◌⊎◌, inl, inr, Bool, Option, none, some, List, [], ◌∷◌, ◌++◌,
  if◌then◌else◌, arith, length, filter, length-append, length-filter_le, Bool-cases, leb, ◌==◌,
}
use gosamba.Prelude.Assoc.{
  Map, get?, put, get?-put, get?-delete, UniqueKeys, put-UniqueKeys, delete-UniqueKeys, total,
  weight, total-put, total-delete,
}
use gosamba.Locks.Range.{FileKey, file_key, file_key_eq, LockRange, LockKind}
use gosamba.Locks.Table.{
  RangeTable, or_nil, ranges_at, store, retain, grant, apply, dispatch_kind, Scan, held, refused,
  owned, Applied, err_lock_conflict, err_lock_limit, max_lock_ranges_per_file,
  max_lock_ranges_per_owner,
}

abbrev pub entry : ℕ → ℕ → ℕ → Bool → LockRange
entry owner start len excl = record { owner = owner; start = start; len = len; is_exclusive = excl }

get?-store :
    (key j : FileKey) (rs : List LockRange) (m : Map FileKey (List LockRange))
    → or_nil (get? j (store key rs m)) ≡ (if file_key_eq key j then rs else or_nil (get? j m))
unfolding store
get?-store key j [] m = ground (arith, get?-delete key j m)
get?-store key j (r ∷ rs) m = ground (arith, get?-put key j (r ∷ rs) m)

store-UniqueKeys :
    (key : FileKey) (rs : List LockRange) (m : Map FileKey (List LockRange))
    → UniqueKeys m
    → UniqueKeys (store key rs m)
unfolding store
store-UniqueKeys key [] m u = delete-UniqueKeys key m u
store-UniqueKeys key (r ∷ rs) m u = put-UniqueKeys key (r ∷ rs) m u

weight-or_nil : (o : Option (List LockRange)) → weight length o ≡ length (or_nil o)
weight-or_nil none = refl
weight-or_nil (some rs) = refl

total-store :
    (key : FileKey) (rs : List LockRange) (m : Map FileKey (List LockRange))
    → UniqueKeys m
    → total length (store key rs m) + length (or_nil (get? key m)) ≡ total length m + length rs
unfolding store
total-store key [] m u = omega (arith, total-delete length key m u, weight-or_nil (get? key m))
total-store key (r ∷ rs) m u =
    omega (arith, total-put length key (r ∷ rs) m, weight-or_nil (get? key m))

module _ (t : RangeTable) (key : FileKey) where
  pub ranges_at-retain :
      (keep : LockRange → Bool) (j : FileKey)
      → ranges_at j (retain t key keep)
        ≡ (if file_key_eq key j then filter keep (ranges_at key t) else ranges_at j t)
  unfolding ranges_at retain
  ranges_at-retain keep j = get?-store key j (filter keep (or_nil (get? key t.locks))) t.locks

  pub retain-UniqueKeys :
      (keep : LockRange → Bool) → UniqueKeys t.locks → UniqueKeys (retain t key keep).locks
  unfolding retain
  retain-UniqueKeys keep u = store-UniqueKeys key (filter keep (ranges_at key t)) t.locks u

  pub retain-total :
      (keep : LockRange → Bool)
      → UniqueKeys t.locks
      → t.n ≡ total length t.locks
      → (retain t key keep).n ≡ total length (retain t key keep).locks
  unfolding retain ranges_at
  retain-total keep u e = omega (
    arith,
    total-store key (filter keep (or_nil (get? key t.locks))) t.locks u,
    length-filter_le keep (or_nil (get? key t.locks)),
  )

  -- How a grant ends: nothing changes, or the range is appended and there was room.
  abbrev pub Grants : ℕ → ℕ → ℕ → Bool → Scan → Applied → Type 0
  Grants owner start len excl scan (t', e) =
      ((t' ≡ t)
        × (((scan ≡ held) × (e ≡ none))
            ⊎ (((scan ≡ refused) × (e ≡ some err_lock_conflict))
                ⊎ ((k : ℕ) × (scan ≡ owned k)
                    × (e ≡ some err_lock_limit)
                    × ((max_lock_ranges_per_file ≤ length (ranges_at key t))
                        ⊎ (max_lock_ranges_per_owner ≤ k))))))
      ⊎ ((k : ℕ) × (scan ≡ owned k)
          × (e ≡ none)
          × (length (ranges_at key t) + 1 ≤ max_lock_ranges_per_file)
          × (k + 1 ≤ max_lock_ranges_per_owner)
          × ((j : FileKey)
              → ranges_at j t' ≡ (
                  if file_key_eq key j
                  then ranges_at key t ++ entry owner start len excl ∷ []
                  else ranges_at j t))
          × (UniqueKeys t.locks → UniqueKeys t'.locks)
          × (t.n ≡ total length t.locks → t'.n ≡ total length t'.locks))

  granted : (owner start len : ℕ) (excl : Bool) → RangeTable
  granted owner start len excl = record {
    locks = put key (ranges_at key t ++ entry owner start len excl ∷ []) t.locks;
    n = t.n + 1;
  }

  ranges_at-granted :
      (owner start len : ℕ) (excl : Bool) (j : FileKey)
      → ranges_at j (granted owner start len excl) ≡ (
          if file_key_eq key j
          then ranges_at key t ++ entry owner start len excl ∷ []
          else ranges_at j t)
  unfolding granted ranges_at
  ranges_at-granted owner start len excl j =
      ground (
        arith,
        get?-put key j (or_nil (get? key t.locks) ++ entry owner start len excl ∷ []) t.locks,
      )

  granted-total :
      (owner start len : ℕ) (excl : Bool)
      → t.n ≡ total length t.locks
      → (granted owner start len excl).n ≡ total length (granted owner start len excl).locks
  unfolding granted ranges_at
  granted-total owner start len excl e =
      let old = or_nil (get? key t.locks) in
      let new = old ++ entry owner start len excl ∷ [] in
      omega (
        arith,
        total-put length key new t.locks,
        weight-or_nil (get? key t.locks),
        length-append old (entry owner start len excl ∷ []),
      )

  pub grant-Grants :
      (owner start len : ℕ) (excl : Bool) (scan : Scan)
      → Grants owner start len excl scan (grant t key owner start len excl scan)
  unfolding grant granted
  grant-Grants owner start len excl held = inl (refl, inl (refl, refl))
  grant-Grants owner start len excl refused = inl (refl, inr (inl (refl, refl)))
  grant-Grants owner start len excl (owned k) =
      elim (Bool-cases (leb max_lock_ranges_per_file (length (ranges_at key t)))) [
        | inl full ↦ rw full (inl (refl, inr (inr (k, refl, refl, inl (ground arith)))))
        | inr room ↦ elim (Bool-cases (leb max_lock_ranges_per_owner k)) [
          | inl full ↦ rw (room, full) (inl (refl, inr (inr (k, refl, refl, inr (ground arith)))))
          | inr place ↦
              rw (room, place)
                (inr (
                  k,
                  refl,
                  refl,
                  ground arith,
                  ground arith,
                  ranges_at-granted owner start len excl,
                  λ u. put-UniqueKeys key _ t.locks u,
                  granted-total owner start len excl,
                ))
        ]
      ]

-- `apply` returns at once for an empty range.
pub apply_cases {κ} :
    (P : Applied → Type κ) (t : RangeTable) (key : FileKey) (owner start len : ℕ) (kind : LockKind)
    → P (t, none)
    → (0 < len → P (dispatch_kind t key owner start len kind))
    → P (apply t key owner start len kind)
unfolding apply
apply_cases P t key owner start len kind empty more = elim (Bool-cases (len == 0)) [
  | inl e ↦ rw e empty
  | inr e ↦ rw e (more (ground arith))
]
