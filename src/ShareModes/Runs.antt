-- ===== src/ShareModes/Runs.antt =====
-- Histories of the table, for any interleaving of the connections' calls.
use gosamba.Prelude.{
  ℕ, ◌≡◌, refl, ◌≢◌, inl, inr, Bool, true, false, ◌==◌, arith, List, [], ◌∷◌, Option, none, some,
  any, Apart, Elem, All-Elem, Elem-of_any, Bool-cases, ◌∙◌,
}
use gosamba.Prelude.Assoc.{get?, get?-delete, nat_key}
use gosamba.Locks.Range.{FileKey, file_key}
use gosamba.ShareModes.{
  ShareModeEntry, ShareModeTable, ShareWaiter, new_share_mode_table, share_conflict, entries_at,
  Stat, acquire_locked, acquire_or_wait, or_wait, register_waiter_locked, release, release_at,
  wake_locked, transfer, unwait, waiters_at,
}
use gosamba.ShareModes.Conflict.{share_conflict_comm}
use gosamba.ShareModes.Sweep.{of_owner}
use gosamba.ShareModes.Invariant.{IsValid}
use gosamba.ShareModes.Admit.{acquire_locked-IsValid}
use gosamba.ShareModes.Dispose.{release-IsValid}
use gosamba.ShareModes.Renamed.{transfer-IsValid}

-- One call. `fstat` may answer anything at each call, and a handle that takes over a reservation is
-- new.
pub data Step : ShareModeTable → ShareModeTable → Type 0 where
  acquires :
      (t : ShareModeTable) (stat : Stat) (key : FileKey) (o desired share : ℕ)
      → Step t (acquire_or_wait stat t key o desired share).0
  releases : (t : ShareModeTable) (o : ℕ) → Step t (release t o)
  transfers :
      (t : ShareModeTable) (from to : ℕ) → get? to t.owners ≡ none → Step t (transfer t from to)
  unwaits : (t : ShareModeTable) (w : ShareWaiter) → Step t (unwait t w)

pub data Reach (s : ShareModeTable) : ShareModeTable → Type 0 where
  here : Reach s s
  next : {t u : ShareModeTable} → Reach s t → Step t u → Reach s u

-- The waiters play no part in the invariant.
same_files :
    (t t' : ShareModeTable) → t'.by_file ≡ t.by_file → t'.owners ≡ t.owners → IsValid t → IsValid t'
unfolding entries_at
same_files t t' e f v = record {
  compatible = rw e v.compatible;
  single = rw e v.single;
  registered = rw (e, f) v.registered;
  present = rw (e, f) v.present;
}

or_wait-IsValid :
    (key : FileKey) (r : ShareModeTable × Bool) → IsValid r.0 → IsValid (or_wait key r).0
unfolding register_waiter_locked
or_wait-IsValid key (t, true) v = v
or_wait-IsValid key (t, false) v = same_files t _ refl refl v

unwait-IsValid : (t : ShareModeTable) (w : ShareWaiter) → IsValid t → IsValid (unwait t w)
unfolding unwait
unwait-IsValid t w v = elim (Bool-cases (any (λ x. x.channel == w.channel) (waiters_at w.key t))) [
  | inl e ↦ rw e (same_files t _ refl refl v)
  | inr e ↦ rw e v
]

Step-IsValid : {t u : ShareModeTable} → Step t u → IsValid t → IsValid u
unfolding acquire_or_wait
Step-IsValid (acquires t stat key o desired share) v =
    or_wait-IsValid key (acquire_locked stat t key o desired share)
      (acquire_locked-IsValid stat t key o desired share v)
Step-IsValid (releases t o) v = release-IsValid t o v
Step-IsValid (transfers t from to free) v = transfer-IsValid t from to free v
Step-IsValid (unwaits t w) v = unwait-IsValid t w v

-- Every history keeps the table well formed: the entries of a file are compatible, a handle has one
-- entry on one file, and the reverse index names exactly the handles that have an entry.
pub Reach-IsValid : {t : ShareModeTable} → Reach new_share_mode_table t → IsValid t
unfolding entries_at get?
Reach-IsValid here = record {
  compatible = λ key. tt;
  single = λ key. tt;
  registered = λ key e i. elim i [ ];
  present = λ key o h. cc;
}
Reach-IsValid (next r s) = Step-IsValid s (Reach-IsValid r)

Apart-Elem :
    (a b : ShareModeEntry) (es : List ShareModeEntry)
    → Apart share_conflict es
    → Elem a es
    → Elem b es
    → a.owner ≢ b.owner
    → share_conflict a b ≡ false
Apart-Elem a b [] x i j ne = elim i [ ]
Apart-Elem a b (e ∷ es) x (inl p) (inl q) ne = absurd (ne (ground arith))
Apart-Elem a b (e ∷ es) x (inl p) (inr j) ne =
    rw (← p) (All-Elem (λ y. share_conflict e y ≡ false) b es x.0 j)
Apart-Elem a b (e ∷ es) x (inr i) (inl q) ne =
    share_conflict_comm a b ∙ rw (← q) (All-Elem (λ y. share_conflict e y ≡ false) a es x.0 i)
Apart-Elem a b (e ∷ es) x (inr i) (inr j) ne = Apart-Elem a b es x.1 i j ne

-- After any history, no two handles hold conflicting reservations on one file.
pub Reach-compatible :
    (t : ShareModeTable) (key : FileKey) (a b : ShareModeEntry)
    → Reach new_share_mode_table t
    → Elem a (entries_at key t)
    → Elem b (entries_at key t)
    → a.owner ≢ b.owner
    → share_conflict a b ≡ false
Reach-compatible t key a b r i j ne =
    Apart-Elem a b (entries_at key t) ((Reach-IsValid r).compatible key) i j ne

pub released_owner :
    (t : ShareModeTable) (o : ℕ) (k : Option FileKey)
    → get? o t.owners ≡ k
    → get? o (release_at t o k).owners ≡ none
unfolding release_at wake_locked
released_owner t o none e = e
released_owner t o (some key) e = ground (arith, get?-delete o o t.owners)

no_entry :
    (t : ShareModeTable) (o : ℕ) (key : FileKey)
    → IsValid t
    → get? o t.owners ≡ none
    → any (of_owner o) (entries_at key t) ≡ false
no_entry t o key v free = elim (Bool-cases (any (of_owner o) (entries_at key t))) [
  | inr none_ ↦ none_
  | inl found ↦
      let (e, i, h) = Elem-of_any (of_owner o) (entries_at key t) found in
      ground (arith, v.registered key e i)
]

-- After any history, releasing a handle leaves it without a reservation and without an entry on any
-- file, whether or not it had one.
pub release_frees :
    (t : ShareModeTable) (o : ℕ)
    → Reach new_share_mode_table t
    → (get? o (release t o).owners ≡ none)
      × ((key : FileKey) → any (of_owner o) (entries_at key (release t o)) ≡ false)
unfolding release
release_frees t o r =
    let free = released_owner t o (get? o t.owners) refl in
    (
      free,
      λ key.
          no_entry (release_at t o (get? o t.owners)) o key
            (unfold release in release-IsValid t o (Reach-IsValid r)) free,
    )
