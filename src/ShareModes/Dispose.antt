-- ===== src/ShareModes/Dispose.antt =====
-- `release` and `transfer`, and the invariant.
use gosamba.Prelude.{
  ℕ, ◌≡◌, refl, true, false, not, ◌==◌, ==_iff, arith, List, [], ◌∷◌, Option, none, some, any,
  filter, Apart-filter, Elem-filter_inv,
}
use gosamba.Prelude.Assoc.{get?, delete, get?-delete, nat_key}
use gosamba.Locks.Range.{FileKey, file_key, file_key_eq_iff}
use gosamba.ShareModes.{
  ShareModeEntry, ShareModeTable, share_conflict, entries_at, release_at, release, wake_locked,
}
use gosamba.ShareModes.Sweep.{same_owner, of_owner}
use gosamba.ShareModes.Invariant.{IsValid, entries_at-store, Change, Change-IsValid}

any-filter_other :
    (o x : ℕ) (es : List ShareModeEntry)
    → (o == x) ≡ false
    → any (of_owner x) es ≡ true
    → any (of_owner x) (filter (λ e. not (e.owner == o)) es) ≡ true
any-filter_other o x [] ne h = h
any-filter_other o x (e ∷ es) ne h = ground (arith, any-filter_other o x es ne)

release-Change :
    (t : ShareModeTable) (o : ℕ) (key : FileKey)
    → IsValid t
    → get? o t.owners ≡ some key
    → Change t (release_at t o (some key)) key (filter (λ e. not (e.owner == o)) (entries_at key t))
unfolding release_at wake_locked
release-Change t o key v mine = record {
  at =
      entries_at-store t (release_at t o (some key)) key
        (filter (λ e. not (e.owner == o)) (entries_at key t)) refl;
  compatible =
      Apart-filter share_conflict (λ e. not (e.owner == o)) (entries_at key t) (v.compatible key);
  single = Apart-filter same_owner (λ e. not (e.owner == o)) (entries_at key t) (v.single key);
  registered = λ e i.
      let (i', h) = Elem-filter_inv (λ e. not (e.owner == o)) e (entries_at key t) i in
      ground (
        arith,
        get?-delete o e.owner t.owners,
        v.registered key e i',
        ==_iff e.owner o,
        ==_iff o e.owner,
      );
  elsewhere = λ j e ne i. ground (
    arith,
    get?-delete o e.owner t.owners,
    v.registered j e i,
    file_key_eq_iff key j,
    ==_iff o e.owner,
  );
  present = λ x h.
      let (ne, k) = kept x key h in any-filter_other o x (entries_at key t) ne (v.present key x k);
  owned = λ j x ne h. (kept x j h).1;
}
  where
    kept :
        (x : ℕ) (j : FileKey)
        → get? x (delete o t.owners) ≡ some j
        → ((o == x) ≡ false) × (get? x t.owners ≡ some j)
    kept x j h = ground (arith, get?-delete o x t.owners)

release_at-IsValid :
    (t : ShareModeTable) (o : ℕ) (k : Option FileKey)
    → get? o t.owners ≡ k
    → IsValid t
    → IsValid (release_at t o k)
unfolding release_at
release_at-IsValid t o none e v = v
release_at-IsValid t o (some key) e v =
    Change-IsValid t (release_at t o (some key)) key
      (filter (λ x. not (x.owner == o)) (entries_at key t)) v (release-Change t o key v e)

pub release-IsValid : (t : ShareModeTable) (o : ℕ) → IsValid t → IsValid (release t o)
unfolding release
release-IsValid t o v = release_at-IsValid t o (get? o t.owners) refl v
