-- ===== src/ShareModes/Renamed.antt =====
-- `transfer`: a reservation moves to another handle.
use gosamba.Prelude.{
  ℕ, ◌≡◌, refl, ◌⊎◌, inl, inr, true, false, ◌==◌, ==_iff, arith, if◌then◌else◌, List, [], ◌∷◌,
  Option, none, some, any, All, Apart, Bool-cases, Elem, All-Elem, All-of_Elem, ◌∙◌,
}
use gosamba.Prelude.Assoc.{get?, put, delete, get?-put, get?-delete, nat_key}
use gosamba.Locks.Range.{FileKey, file_key, file_key_eq, file_key_eq_iff}
use gosamba.ShareModes.{
  ShareModeEntry, ShareModeTable, share_conflict, entries_at, rename_first, transfer_at, transfer,
}
use gosamba.ShareModes.Sweep.{same_owner, of_owner}
use gosamba.ShareModes.Invariant.{IsValid, Change, Change-IsValid}

abbrev pub renamed : ℕ → ShareModeEntry → ShareModeEntry
renamed to e = record e { owner = to }

conflict-renamed :
    (to : ℕ) (a b : ShareModeEntry)
    → (share_conflict a (renamed to b) ≡ share_conflict a b)
      × (share_conflict (renamed to a) b ≡ share_conflict a b)
unfolding share_conflict
conflict-renamed to a b = (refl, refl)

module _ (from to : ℕ) where
  All-conflict_rename :
      (x : ShareModeEntry) (es : List ShareModeEntry)
      → All (λ y. share_conflict x y ≡ false) es
      → All (λ y. share_conflict x y ≡ false) (rename_first from to es)
  unfolding rename_first
  All-conflict_rename x [] a = tt
  All-conflict_rename x (e ∷ es) a = elim (Bool-cases (e.owner == from)) [
    | inl h ↦ rw h ((conflict-renamed to x e).0 ∙ a.0, a.1)
    | inr h ↦ rw h (a.0, All-conflict_rename x es a.1)
  ]

  All-conflict_renamed :
      (x : ShareModeEntry) (es : List ShareModeEntry)
      → All (λ y. share_conflict x y ≡ false) es
      → All (λ y. share_conflict (renamed to x) y ≡ false) es
  All-conflict_renamed x [] a = tt
  All-conflict_renamed x (e ∷ es) a =
      ((conflict-renamed to x e).1 ∙ a.0, All-conflict_renamed x es a.1)

  Apart-conflict_rename :
      (es : List ShareModeEntry)
      → Apart share_conflict es
      → Apart share_conflict (rename_first from to es)
  unfolding rename_first
  Apart-conflict_rename [] a = tt
  Apart-conflict_rename (e ∷ es) a = elim (Bool-cases (e.owner == from)) [
    | inl h ↦ rw h (All-conflict_renamed e es a.0, a.1)
    | inr h ↦ rw h (All-conflict_rename e es a.0, Apart-conflict_rename es a.1)
  ]

  -- The new owner is nobody's, so the entries stay apart by owner.
  All-owner_rename :
      (x : ShareModeEntry) (es : List ShareModeEntry)
      → (x.owner == to) ≡ false
      → All (λ y. same_owner x y ≡ false) es
      → All (λ y. same_owner x y ≡ false) (rename_first from to es)
  unfolding rename_first
  All-owner_rename x [] ne a = tt
  All-owner_rename x (e ∷ es) ne a = elim (Bool-cases (e.owner == from)) [
    | inl h ↦ rw h (ne, a.1)
    | inr h ↦ rw h (a.0, All-owner_rename x es ne a.1)
  ]

  fresh_apart :
      (e : ShareModeEntry) (es : List ShareModeEntry)
      → All (λ y. (y.owner == to) ≡ false) es
      → All (λ y. same_owner (renamed to e) y ≡ false) es
  fresh_apart e [] a = tt
  fresh_apart e (x ∷ es) a = (ground (arith, a.0), fresh_apart e es a.1)

  Apart-owner_rename :
      (es : List ShareModeEntry)
      → All (λ y. (y.owner == to) ≡ false) es
      → Apart same_owner es
      → Apart same_owner (rename_first from to es)
  unfolding rename_first
  Apart-owner_rename [] f a = tt
  Apart-owner_rename (e ∷ es) f a = elim (Bool-cases (e.owner == from)) [
    | inl h ↦ rw h (fresh_apart e es f.1, a.1)
    | inr h ↦ rw h (All-owner_rename e es f.0 a.0, Apart-owner_rename es f.1 a.1)
  ]

  -- An entry afterwards is the renamed one, or an old one of another handle.
  Elem-rename_inv :
      (x : ShareModeEntry) (es : List ShareModeEntry)
      → Apart same_owner es
      → Elem x (rename_first from to es)
      → (x.owner ≡ to) ⊎ (Elem x es × ((x.owner == from) ≡ false))
  unfolding rename_first
  Elem-rename_inv x [] a i = elim i [ ]
  Elem-rename_inv x (e ∷ es) a i = elim (Bool-cases (e.owner == from)) [
    | inl h ↦ elim (rw h at i) [
      | inl same ↦ inl (ground arith)
      | inr more ↦
          inr (inr more, ground (arith, All-Elem (λ y. same_owner e y ≡ false) x es a.0 more))
    ]
    | inr h ↦ elim (rw h at i) [
      | inl same ↦ inr (inl same, ground arith)
      | inr more ↦ elim (Elem-rename_inv x es a.1 more) [
        | inl new ↦ inl new
        | inr (old, ne) ↦ inr (inr old, ne)
      ]
    ]
  ]

  any-rename_new :
      (es : List ShareModeEntry)
      → any (of_owner from) es ≡ true
      → any (of_owner to) (rename_first from to es) ≡ true
  unfolding rename_first
  any-rename_new [] h = h
  any-rename_new (e ∷ es) h = ground (arith, any-rename_new es)

  any-rename_other :
      (o : ℕ) (es : List ShareModeEntry)
      → (from == o) ≡ false
      → any (of_owner o) es ≡ true
      → any (of_owner o) (rename_first from to es) ≡ true
  unfolding rename_first
  any-rename_other o [] ne h = h
  any-rename_other o (e ∷ es) ne h = ground (arith, any-rename_other o es ne)

entries_at-put :
    (t t' : ShareModeTable) (key : FileKey) (es : List ShareModeEntry)
    → t'.by_file ≡ put key es t.by_file
    → (j : FileKey) → entries_at j t' ≡ (if file_key_eq key j then es else entries_at j t)
unfolding entries_at
entries_at-put t t' key es e j = rw e (ground (arith, get?-put key j es t.by_file))

transfer-Change :
    (t : ShareModeTable) (from to : ℕ) (key : FileKey)
    → IsValid t
    → get? to t.owners ≡ none
    → get? from t.owners ≡ some key
    → Change t (transfer_at t from to (some key)) key (rename_first from to (entries_at key t))
unfolding transfer_at
transfer-Change t from to key v free mine = record {
  at = at;
  compatible = Apart-conflict_rename from to (entries_at key t) (v.compatible key);
  single = Apart-owner_rename from to (entries_at key t) not_to (v.single key);
  registered = λ x i. elim (Elem-rename_inv from to x (entries_at key t) (v.single key) i) [
    | inl new ↦ ground (arith, owners x.owner)
    | inr (old, ne) ↦ ground (arith, owners x.owner, v.registered key x old)
  ];
  elsewhere = λ j x ne i. ground (arith, owners x.owner, v.registered j x i, file_key_eq_iff key j);
  present = λ o h. elim (Bool-cases (to == o)) [
    | inl same ↦
        rw (← (==_iff to o).0 same)
          (any-rename_new from to (entries_at key t) (v.present key from mine))
    | inr other ↦
        any-rename_other from to o (entries_at key t) (ground (arith, owners o))
          (v.present key o (ground (arith, owners o)))
  ];
  owned = λ j o ne h. ground (arith, owners o, file_key_eq_iff key j);
}
  where
    owners :
        (o : ℕ)
        → get? o (put to key (delete from t.owners))
          ≡ (if to == o then some key else if from == o then none else get? o t.owners)
    owners o = ground (arith, get?-put to o key (delete from t.owners), get?-delete from o t.owners)

    not_to : All (λ y. (y.owner == to) ≡ false) (entries_at key t)
    not_to =
        All-of_Elem (λ y. (y.owner == to) ≡ false) (entries_at key t)
          λ y i. ground (arith, v.registered key y i, ==_iff y.owner to)

    at :
        (j : FileKey)
        → entries_at j (transfer_at t from to (some key))
          ≡ (if file_key_eq key j then rename_first from to (entries_at key t) else entries_at j t)
    at j =
        entries_at-put t (transfer_at t from to (some key)) key
          (rename_first from to (entries_at key t)) refl j

transfer_at-IsValid :
    (t : ShareModeTable) (from to : ℕ) (k : Option FileKey)
    → get? from t.owners ≡ k
    → get? to t.owners ≡ none
    → IsValid t
    → IsValid (transfer_at t from to k)
unfolding transfer_at
transfer_at-IsValid t from to none e free v = v
transfer_at-IsValid t from to (some key) e free v =
    Change-IsValid t (transfer_at t from to (some key)) key
      (rename_first from to (entries_at key t)) v (transfer-Change t from to key v free e)

pub transfer-IsValid :
    (t : ShareModeTable) (from to : ℕ)
    → get? to t.owners ≡ none
    → IsValid t
    → IsValid (transfer t from to)
unfolding transfer
transfer-IsValid t from to free v = elim (Bool-cases (from == to)) [
  | inl e ↦ rw e v
  | inr e ↦ rw e (transfer_at-IsValid t from to (get? from t.owners) refl free v)
]
