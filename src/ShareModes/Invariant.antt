-- ===== src/ShareModes/Invariant.antt =====
-- The invariant of the table, under any answers of `fstat`.
use gosamba.Prelude.{
  ℕ, ◌≡◌, refl, inl, inr, Bool, true, false, arith, if◌then◌else◌, List, some, any, filter, Apart,
  Apart-filter, Bool-cases, Elem, Elem-filter_inv, Elem-of_any,
}
use gosamba.Prelude.Assoc.{get?, nat_key}
use gosamba.Locks.Range.{FileKey, file_key, file_key_eq, file_key_eq_iff}
use gosamba.ShareModes.{
  ShareModeEntry, ShareModeTable, share_conflict, entries_at, store, Stat, entry_live, sweep_owners,
  swept,
}
use gosamba.ShareModes.Sweep.{
  get?-store, dead_of, get?-sweep_owners, same_owner, of_owner, live-no_dead, any-filter_live,
}

pub record IsValid (t : ShareModeTable) : Type 0 where
  pub compatible : (key : FileKey) → Apart share_conflict (entries_at key t)
  pub single : (key : FileKey) → Apart same_owner (entries_at key t)
  pub registered :
      (key : FileKey) (e : ShareModeEntry)
      → Elem e (entries_at key t)
      → get? e.owner t.owners ≡ some key
  pub present :
      (key : FileKey) (o : ℕ)
      → get? o t.owners ≡ some key
      → any (of_owner o) (entries_at key t) ≡ true

-- The entries of each file after a `store`.
pub entries_at-store :
    (t t' : ShareModeTable) (key : FileKey) (es : List ShareModeEntry)
    → t'.by_file ≡ store key es t.by_file
    → (j : FileKey) → entries_at j t' ≡ (if file_key_eq key j then es else entries_at j t)
unfolding entries_at
entries_at-store t t' key es e j = rw e (get?-store key j es t.by_file)

-- One file's entries and the owners change: what keeps the table well formed.
pub record Change (t t' : ShareModeTable) (key : FileKey) (es : List ShareModeEntry) : Type 0 where
  pub at : (j : FileKey) → entries_at j t' ≡ (if file_key_eq key j then es else entries_at j t)
  pub compatible : Apart share_conflict es
  pub single : Apart same_owner es
  pub registered : (e : ShareModeEntry) → Elem e es → get? e.owner t'.owners ≡ some key
  pub elsewhere :
      (j : FileKey) (e : ShareModeEntry)
      → file_key_eq key j ≡ false
      → Elem e (entries_at j t)
      → get? e.owner t'.owners ≡ some j
  pub present : (o : ℕ) → get? o t'.owners ≡ some key → any (of_owner o) es ≡ true
  pub owned :
      (j : FileKey) (o : ℕ)
      → file_key_eq key j ≡ false
      → get? o t'.owners ≡ some j
      → get? o t.owners ≡ some j

pub Change-IsValid :
    (t t' : ShareModeTable) (key : FileKey) (es : List ShareModeEntry)
    → IsValid t
    → Change t t' key es
    → IsValid t'
Change-IsValid t t' key es v c = record {
  compatible = λ j. elim (Bool-cases (file_key_eq key j)) [
    | inl e ↦ rw (c.at j, e) c.compatible
    | inr e ↦ rw (c.at j, e) (v.compatible j)
  ];
  single = λ j. elim (Bool-cases (file_key_eq key j)) [
    | inl e ↦ rw (c.at j, e) c.single
    | inr e ↦ rw (c.at j, e) (v.single j)
  ];
  registered = λ j x i. elim (Bool-cases (file_key_eq key j)) [
    | inl e ↦ rw (← (file_key_eq_iff key j).0 e) (c.registered x (rw (c.at j, e) at i))
    | inr e ↦ c.elsewhere j x e (rw (c.at j, e) at i)
  ];
  present = λ j o h. elim (Bool-cases (file_key_eq key j)) [
    | inl e ↦ rw (c.at j, e) (c.present o (rw (← (file_key_eq_iff key j).0 e) at h))
    | inr e ↦ rw (c.at j, e) (v.present j o (c.owned j o e h))
  ];
}

-- A handle with an entry on another file has no entry on this one.
pub no_entry_here :
    (t : ShareModeTable) (key j : FileKey) (p : ShareModeEntry → Bool) (o : ℕ)
    → IsValid t
    → ((e : ShareModeEntry) → p e ≡ true → e.owner ≡ o)
    → file_key_eq key j ≡ false
    → get? o t.owners ≡ some j
    → any p (entries_at key t) ≡ false
no_entry_here t key j p o v owner ne h = elim (Bool-cases (any p (entries_at key t))) [
  | inr none_ ↦ none_
  | inl found ↦
      let (e, i, k) = Elem-of_any p (entries_at key t) found in
      absurd (other (rw (owner e k) at (v.registered key e i)))
]
  where
    other : get? o t.owners ≡ some key → ⊥
    other g = ground (arith, file_key_eq_iff key j)

swept-Change :
    (stat : Stat) (t : ShareModeTable) (key : FileKey)
    → IsValid t
    → Change t (swept stat t key) key (filter (entry_live stat key) (entries_at key t))
unfolding swept
swept-Change stat t key v = record {
  at = entries_at-store t (swept stat t key) key (filter live (entries_at key t)) refl;
  compatible = Apart-filter share_conflict live (entries_at key t) (v.compatible key);
  single = Apart-filter same_owner live (entries_at key t) (v.single key);
  registered = λ e i.
      let (i', h) = Elem-filter_inv live e (entries_at key t) i in
      rw
        (
          get?-sweep_owners live (entries_at key t) t.owners e.owner,
          live-no_dead live e (entries_at key t) (v.single key) i' h,
        )
        (v.registered key e i');
  elsewhere = λ j e ne i.
      rw
        (
          get?-sweep_owners live (entries_at key t) t.owners e.owner,
          no_entry_here t key j (dead_of live e.owner) e.owner v (λ x h. ground arith) ne
              (v.registered j e i),
        )
        (v.registered j e i);
  present = λ o h.
      let (alive, k) = swept_owner (entries_at key t) o key h in
      any-filter_live live o (entries_at key t) (v.single key) alive (v.present key o k);
  owned = λ j o ne h. (swept_owner (entries_at key t) o j h).1;
}
  where
    live : ShareModeEntry → Bool
    live = entry_live stat key

    swept_owner :
        (es : List ShareModeEntry) (o : ℕ) (j : FileKey)
        → get? o (sweep_owners live es t.owners) ≡ some j
        → (any (dead_of live o) es ≡ false) × (get? o t.owners ≡ some j)
    swept_owner es o j h = ground (arith, get?-sweep_owners live es t.owners o)

pub swept-IsValid :
    (stat : Stat) (t : ShareModeTable) (key : FileKey) → IsValid t → IsValid (swept stat t key)
swept-IsValid stat t key v =
    Change-IsValid t (swept stat t key) key (filter (entry_live stat key) (entries_at key t)) v
      (swept-Change stat t key v)
