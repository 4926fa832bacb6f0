-- ===== src/ShareModes/Admit.antt =====
-- `acquireLocked`: the invariant, and which opens it admits.
use gosamba.Prelude.{
  ℕ, ◌≡◌, refl, ◌⊎◌, inl, inr, Bool, true, false, ◌==◌, ==_iff, ==_refl, arith, if◌then◌else◌, [],
  ◌∷◌, ◌++◌, none, some, filter, All, Apart-append, Bool-cases, Elem, Some, All-Elem, All-of_Elem,
  Elem-append_inv, any-append, All-of_any-false, Some-of_any, ◌∙◌, Option-cases,
}
use gosamba.Prelude.Assoc.{get?, put, get?-put, nat_key}
use gosamba.Locks.Range.{FileKey, file_key, file_key_eq, file_key_eq_iff}
use gosamba.ShareModes.{
  ShareModeEntry, ShareModeTable, new_share_mode_entry, share_conflict, entries_at, store, Stat,
  entry_live, sweep_owners, conflicts_with_any, swept, admit, acquire_locked,
}
use gosamba.ShareModes.Conflict.{share_conflict_comm}
use gosamba.ShareModes.Sweep.{get?-sweep_owners, same_owner, of_owner}
use gosamba.ShareModes.Invariant.{IsValid, entries_at-store, Change, Change-IsValid, swept-IsValid}

-- One entry is appended to a file of a well-formed table.
module _ (s s' : ShareModeTable) (key : FileKey) (e : ShareModeEntry) (v : IsValid s)
    (fresh : get? e.owner s.owners ≡ none) (clear : conflicts_with_any e (entries_at key s) ≡ false)
    (at : (j : FileKey)
      → entries_at j s'
        ≡ (if file_key_eq key j then entries_at key s ++ e ∷ [] else entries_at j s))
    (own : s'.owners ≡ put e.owner key s.owners) where
  owner_after : (o : ℕ) → get? o s'.owners ≡ (if e.owner == o then some key else get? o s.owners)
  owner_after o = rw own (get?-put e.owner o key s.owners)

  -- Every entry is another handle's.
  other_owner :
      (j : FileKey) (x : ShareModeEntry) → Elem x (entries_at j s) → (e.owner == x.owner) ≡ false
  other_owner j x i = ground (arith, v.registered j x i, fresh, ==_iff e.owner x.owner)

  apart_from_new : All (λ y. share_conflict e y ≡ false) (entries_at key s)
  apart_from_new =
      All-of_Elem (λ y. share_conflict e y ≡ false) (entries_at key s)
        λ y i.
          share_conflict_comm e y
          ∙ All-Elem (λ y. share_conflict y e ≡ false) y (entries_at key s)
              (All-of_any-false (λ y. share_conflict y e) (entries_at key s) clear) i

  registered_after :
      (x : ShareModeEntry) → Elem x (entries_at key s ++ e ∷ []) → get? x.owner s'.owners ≡ some key
  registered_after x i = elim (Elem-append_inv x (entries_at key s) (e ∷ []) i) [
    | inl old ↦ ground (arith, owner_after x.owner, v.registered key x old)
    | inr (inl new) ↦ ground (arith, owner_after x.owner)
    | inr (inr more) ↦ absurd more
  ]

  append-Change : Change s s' key (entries_at key s ++ e ∷ [])
  append-Change = record {
    at = at;
    compatible =
        Apart-append share_conflict share_conflict_comm e (entries_at key s) (v.compatible key)
          apart_from_new;
    single =
        Apart-append same_owner (λ a b. ground arith) e (entries_at key s) (v.single key)
          (All-of_Elem (λ y. same_owner e y ≡ false) (entries_at key s) (other_owner key));
    registered = registered_after;
    elsewhere =
        λ j x ne i. ground (arith, owner_after x.owner, other_owner j x i, v.registered j x i);
    present = λ o h. ground (
      arith,
      owner_after o,
      v.present key o,
      any-append (of_owner o) (entries_at key s) (e ∷ []),
    );
    owned = λ j o ne h. ground (arith, owner_after o, file_key_eq_iff key j);
  }

  pub append-IsValid : IsValid s'
  append-IsValid = Change-IsValid s s' key (entries_at key s ++ e ∷ []) v append-Change

swept_at :
    (stat : Stat) (t : ShareModeTable) (key : FileKey)
    → entries_at key (swept stat t key) ≡ filter (entry_live stat key) (entries_at key t)
unfolding swept
swept_at stat t key =
    entries_at-store t (swept stat t key) key (filter (entry_live stat key) (entries_at key t)) refl
      key
    ∙ ground (arith, file_key_eq_iff key key)

swept_elsewhere :
    (stat : Stat) (t : ShareModeTable) (key j : FileKey)
    → file_key_eq key j ≡ false
    → entries_at j (swept stat t key) ≡ entries_at j t
unfolding swept
swept_elsewhere stat t key j ne =
    entries_at-store t (swept stat t key) key (filter (entry_live stat key) (entries_at key t)) refl
      j
    ∙ ground arith

fresh_swept :
    (stat : Stat) (t : ShareModeTable) (key : FileKey) (o : ℕ)
    → get? o t.owners ≡ none
    → get? o (swept stat t key).owners ≡ none
unfolding swept
fresh_swept stat t key o fresh =
    ground (arith, get?-sweep_owners (entry_live stat key) (entries_at key t) t.owners o)

-- The table with the reservation recorded.
recorded : Stat → ShareModeTable → FileKey → ShareModeEntry → ShareModeTable
recorded stat t key e = record t {
  by_file = store key (filter (entry_live stat key) (entries_at key t) ++ e ∷ []) t.by_file;
  owners = put e.owner key (sweep_owners (entry_live stat key) (entries_at key t) t.owners);
}

own :
    (stat : Stat) (t : ShareModeTable) (key : FileKey) (e : ShareModeEntry)
    → (recorded stat t key e).owners ≡ put e.owner key (swept stat t key).owners
unfolding recorded swept
own stat t key e = refl

recorded_at :
    (stat : Stat) (t : ShareModeTable) (key : FileKey) (e : ShareModeEntry) (j : FileKey)
    → entries_at j (recorded stat t key e) ≡ (
        if file_key_eq key j
        then entries_at key (swept stat t key) ++ e ∷ []
        else entries_at j (swept stat t key))
unfolding recorded
recorded_at stat t key e j =
    let kept = filter (entry_live stat key) (entries_at key t) in
    ground (
      arith,
      swept_at stat t key,
      entries_at-store t (recorded stat t key e) key (kept ++ e ∷ []) refl j,
      swept_elsewhere stat t key j,
    )

recorded_here :
    (stat : Stat) (t : ShareModeTable) (key : FileKey) (e : ShareModeEntry)
    → entries_at key (recorded stat t key e)
      ≡ filter (entry_live stat key) (entries_at key t) ++ e ∷ []
recorded_here stat t key e =
    ground (arith, recorded_at stat t key e key, swept_at stat t key, file_key_eq_iff key key)

recorded-IsValid :
    (stat : Stat) (t : ShareModeTable) (key : FileKey) (e : ShareModeEntry)
    → IsValid t
    → get? e.owner t.owners ≡ none
    → conflicts_with_any e (filter (entry_live stat key) (entries_at key t)) ≡ false
    → IsValid (recorded stat t key e)
unfolding recorded
recorded-IsValid stat t key e v fresh clear =
    append-IsValid (swept stat t key) (recorded stat t key e) key e (swept-IsValid stat t key v)
      (fresh_swept stat t key e.owner fresh) (rw (swept_at stat t key) clear)
      (recorded_at stat t key e) (own stat t key e)

-- The two ends of `acquireLocked` for a handle without a reservation.
abbrev pub Admitted :
    Stat → ShareModeTable → FileKey → ShareModeEntry → ShareModeTable × Bool → Type 0
Admitted stat t key e (t', granted) =
    let live_entries = filter (entry_live stat key) (entries_at key t) in
    ((granted ≡ true)
      × All (λ x. share_conflict x e ≡ false) live_entries
      × (entries_at key t' ≡ live_entries ++ e ∷ [])
      × (get? e.owner t'.owners ≡ some key))
    ⊎ ((granted ≡ false)
        × Some (λ x. share_conflict x e ≡ true) live_entries
        × (entries_at key t' ≡ live_entries)
        × (get? e.owner t'.owners ≡ none))

admit-IsValid :
    (stat : Stat) (t : ShareModeTable) (key : FileKey) (e : ShareModeEntry)
    → IsValid t
    → get? e.owner t.owners ≡ none
    → IsValid (admit stat t key e).0
unfolding admit
admit-IsValid stat t key e v fresh =
    elim (Bool-cases (conflicts_with_any e (filter (entry_live stat key) (entries_at key t)))) [
      | inl found ↦ rw found (unfold swept in swept-IsValid stat t key v)
      | inr clear ↦ rw clear (unfold recorded in recorded-IsValid stat t key e v fresh clear)
    ]

pub acquire_locked-IsValid :
    (stat : Stat) (t : ShareModeTable) (key : FileKey) (o desired share : ℕ)
    → IsValid t
    → IsValid (acquire_locked stat t key o desired share).0
unfolding acquire_locked new_share_mode_entry
acquire_locked-IsValid stat t key o desired share v = elim (Option-cases (get? o t.owners)) [
  | inl fresh ↦ rw fresh (admit-IsValid stat t key (new_share_mode_entry o desired share) v fresh)
  | inr (k, e) ↦ rw e v
]

admit-Admitted :
    (stat : Stat) (t : ShareModeTable) (key : FileKey) (e : ShareModeEntry)
    → get? e.owner t.owners ≡ none
    → Admitted stat t key e (admit stat t key e)
unfolding admit
admit-Admitted stat t key e fresh =
    let live_entries = filter (entry_live stat key) (entries_at key t) in
    elim (Bool-cases (conflicts_with_any e (filter (entry_live stat key) (entries_at key t)))) [
      | inl found ↦ rw found (
          inr (
            refl,
            Some-of_any (λ x. share_conflict x e) (filter (entry_live stat key) (entries_at key t))
                found,
            unfold swept in swept_at stat t key,
            unfold swept in fresh_swept stat t key e.owner fresh,
          ))
      | inr clear ↦ rw clear (
          inl (
            refl,
            All-of_any-false (λ x. share_conflict x e)
                (filter (entry_live stat key) (entries_at key t)) clear,
            unfold recorded in recorded_here stat t key e,
            ground (
              arith,
              get?-put e.owner e.owner key
                  (sweep_owners (entry_live stat key) (entries_at key t) t.owners),
              ==_refl e.owner,
            ),
          ))
    ]

-- `acquireLocked` for a handle without a reservation: it is admitted exactly if it conflicts with no
-- live reservation of the file, and then its entry is recorded behind them; a refused open records
-- nothing. Either way the dead entries of the file are gone.
pub acquire_locked-Admitted :
    (stat : Stat) (t : ShareModeTable) (key : FileKey) (o desired share : ℕ)
    → get? o t.owners ≡ none
    → Admitted stat t key
        (new_share_mode_entry o desired share)
        (acquire_locked stat t key o desired share)
unfolding acquire_locked
acquire_locked-Admitted stat t key o desired share fresh = rw fresh (
    admit-Admitted stat t key (new_share_mode_entry o desired share)
      (unfold new_share_mode_entry in fresh))
