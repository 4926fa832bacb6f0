-- ===== src/CopyChunk/Keys/Revoked.antt =====
-- For whom a resume key resolves, and for how long.
use gosamba.Prelude.{
  ℕ, ◌≡◌, ◌≢◌, refl, sym, ap, subst, inl, inr, false, ◌==◌, List, Option, none, some, arith,
  Bool-cases,
}
use gosamba.Prelude.Assoc.{
  get?, nat_key, bytes_key, get?-put, get?-delete, same_bytes, same_bytes_iff,
}
use gosamba.CopyChunk.Keys.{
  ResumeKeyEntry, ResumeKeyTable, new_resume_key_table, issued_to, revoke, mint, issue_at, issue,
  handle_for, resolve, release, clear,
}

-- A handle has a key exactly if the key's entry names the handle.
pub record IsPaired (t : ResumeKeyTable) : Type 0 where
  pub named :
      (h : ℕ) (key : List ℕ)
      → get? h t.by_open ≡ some key
      → (session : ℕ) × (get? key t.by_key ≡ some (record { handle = h; session = session }))
  pub keyed :
      (key : List ℕ) (e : ResumeKeyEntry)
      → get? key t.by_key ≡ some e
      → get? e.handle t.by_open ≡ some key

revoke-IsPaired :
    (h : ℕ) (found : Option (List ℕ)) (t : ResumeKeyTable)
    → get? h t.by_open ≡ found
    → IsPaired t
    → IsPaired (revoke h found t)
unfolding revoke
revoke-IsPaired h none t e v = v
revoke-IsPaired h (some key) t e v =
    let (s, own) = v.named h key e in
    record {
      named = λ j k f. elim (Bool-cases (h == j)) [
        | inl same ↦ absurd (ground (arith, f, get?-delete h j t.by_open))
        | inr other ↦
            let old : get? j t.by_open ≡ some k = ground (arith, f, get?-delete h j t.by_open) in
            let (s', there) = v.named j k old in
            let differs : same_bytes key k ≡ false = elim (Bool-cases (same_bytes key k)) [
              | inr d ↦ d
              | inl d ↦
                  let keys : key ≡ k = (same_bytes_iff key k).0 d in
                  let two : get? key t.by_key ≡ some (record { handle = j; session = s' }) =
                    rw keys there in
                  absurd (ground (arith, own, two, other))
            ] in
            (s', ground (arith, get?-delete key k t.by_key, differs, there))
      ];
      keyed = λ k d f. elim (Bool-cases (same_bytes key k)) [
        | inl same ↦ absurd (ground (arith, f, get?-delete key k t.by_key))
        | inr other ↦
            let old : get? k t.by_key ≡ some d = ground (arith, f, get?-delete key k t.by_key) in
            let back = v.keyed k d old in
            let differs : (h == d.handle) ≡ false = elim (Bool-cases (h == d.handle)) [
              | inr x ↦ x
              | inl x ↦
                  let at : h ≡ d.handle = ground arith in
                  let two : get? h t.by_open ≡ some k = rw at back in
                  let keys : key ≡ k = ground (arith, e, two) in
                  absurd (ground (arith, (same_bytes_iff key k).1 keys, other))
            ] in
            ground (arith, get?-delete h d.handle t.by_open, differs, back)
      ];
    }

revoke-free :
    (h : ℕ) (found : Option (List ℕ)) (t : ResumeKeyTable)
    → get? h t.by_open ≡ found
    → get? h (revoke h found t).by_open ≡ none
unfolding revoke
revoke-free h none t e = e
revoke-free h (some key) t e = ground (arith, get?-delete h h t.by_open)

mint-IsPaired :
    (s h : ℕ) (key : List ℕ) (t : ResumeKeyTable)
    → get? h t.by_open ≡ none
    → get? key t.by_key ≡ none
    → IsPaired t
    → IsPaired (mint s h (some key) t).0
mint-IsPaired s h key t free fresh v =
    let made : ResumeKeyEntry = record { handle = h; session = s } in
    record {
      named = λ j k f. elim (Bool-cases (h == j)) [
        | inl same ↦
            let this : key ≡ k = ground (arith, f, get?-put h j key t.by_open) in
            let at : h ≡ j = ground arith in
            (s, ground (arith, get?-put key k made t.by_key, (same_bytes_iff key k).1 this, at))
        | inr other ↦
            let old : get? j t.by_open ≡ some k = ground (arith, f, get?-put h j key t.by_open) in
            let (s', there) = v.named j k old in
            let differs : same_bytes key k ≡ false = elim (Bool-cases (same_bytes key k)) [
              | inr d ↦ d
              | inl d ↦
                  let keys : k ≡ key = sym ((same_bytes_iff key k).0 d) in
                  let two : get? key t.by_key ≡ some (record { handle = j; session = s' }) =
                    subst (λ x. get? x t.by_key ≡ some (record { handle = j; session = s' })) keys
                      there in
                  absurd (ground (arith, fresh, two))
            ] in
            (s', ground (arith, get?-put key k made t.by_key, differs, there))
      ];
      keyed = λ k d f. elim (Bool-cases (same_bytes key k)) [
        | inl same ↦
            let this : made ≡ d = ground (arith, f, get?-put key k made t.by_key) in
            let keys : key ≡ k = (same_bytes_iff key k).0 same in
            let at : h ≡ d.handle = ap (λ x. x.handle) this in
            ground (arith, get?-put h d.handle key t.by_open, keys, at)
        | inr other ↦
            let old : get? k t.by_key ≡ some d = ground (arith, f, get?-put key k made t.by_key) in
            let back = v.keyed k d old in
            let differs : (h == d.handle) ≡ false = elim (Bool-cases (h == d.handle)) [
              | inr x ↦ x
              | inl x ↦
                  let at : d.handle ≡ h = ground arith in
                  let two : get? h t.by_open ≡ some k =
                    subst (λ x. get? x t.by_open ≡ some k) at back in
                  absurd (ground (arith, free, two))
            ] in
            ground (arith, get?-put h d.handle key t.by_open, differs, back)
      ];
    }

issue_at-IsPaired :
    (s h : ℕ) (key : List ℕ) (found : Option (List ℕ)) (t : ResumeKeyTable)
    → get? h t.by_open ≡ found
    → get? key t.by_key ≡ none
    → IsPaired t
    → IsPaired (issue_at s h (some key) found t).0
unfolding issue_at
issue_at-IsPaired s h key none t e fresh v = mint-IsPaired s h key t e fresh v
issue_at-IsPaired s h key (some old) t e fresh v =
    elim (Bool-cases (issued_to s (get? old t.by_key))) [
      | inl same ↦ rw same v
      | inr other ↦
          let still : get? key (revoke h (some old) t).by_key ≡ none =
            unfold revoke in ground (arith, get?-delete old key t.by_key, fresh) in
          rw other (
            mint-IsPaired s h key (revoke h (some old) t) (revoke-free h (some old) t e) still
              (revoke-IsPaired h (some old) t e v))
    ]

unissued-IsPaired :
    (s h : ℕ) (found : Option (List ℕ)) (t : ResumeKeyTable)
    → get? h t.by_open ≡ found
    → IsPaired t
    → IsPaired (issue_at s h none found t).0
unfolding issue_at
unissued-IsPaired s h none t e v = v
unissued-IsPaired s h (some old) t e v = elim (Bool-cases (issued_to s (get? old t.by_key))) [
  | inl same ↦ rw same v
  | inr other ↦ rw other (revoke-IsPaired h (some old) t e v)
]

-- One call; a key that is made is not one of those in the table, and making one can fail.
pub data Step : ResumeKeyTable → ResumeKeyTable → Type 0 where
  issues :
      (t : ResumeKeyTable) (session handle : ℕ) (key : List ℕ)
      → get? key t.by_key ≡ none
      → Step t (issue session handle (some key) t).0
  fails : (t : ResumeKeyTable) (session handle : ℕ) → Step t (issue session handle none t).0
  releases : (t : ResumeKeyTable) (handle : ℕ) → Step t (release handle t)
  clears : (t : ResumeKeyTable) → Step t clear

pub data Reach (s : ResumeKeyTable) : ResumeKeyTable → Type 0 where
  here : Reach s s
  next : {t u : ResumeKeyTable} → Reach s t → Step t u → Reach s u

empty-IsPaired : IsPaired new_resume_key_table
unfolding get?
empty-IsPaired = record {
  named = λ h key e. absurd (ground arith);
  keyed = λ key e f. absurd (ground arith);
}

Reach-IsPaired : {t : ResumeKeyTable} → Reach new_resume_key_table t → IsPaired t
unfolding issue release
Reach-IsPaired here = empty-IsPaired
Reach-IsPaired (next r (issues t session handle key fresh)) =
    issue_at-IsPaired session handle key (get? handle t.by_open) t refl fresh (Reach-IsPaired r)
Reach-IsPaired (next r (fails t session handle)) =
    unissued-IsPaired session handle (get? handle t.by_open) t refl (Reach-IsPaired r)
Reach-IsPaired (next r (releases t handle)) =
    revoke-IsPaired handle (get? handle t.by_open) t refl (Reach-IsPaired r)
Reach-IsPaired (next r (clears t)) = empty-IsPaired

-- After any history, and the release of a handle on top of it, no key resolves to that handle, for
-- any session.
pub release_revokes :
    {t : ResumeKeyTable} (handle session : ℕ) (key : List ℕ)
    → Reach new_resume_key_table t
    → resolve key session (release handle t) ≢ some handle
unfolding resolve release
release_revokes {t} h s key r =
    let found = get? h t.by_open in
    let u = revoke h found t in
    let v = revoke-IsPaired h found t refl (Reach-IsPaired r) in
    let gone = revoke-free h found t refl in at (get? key u.by_key) refl v gone
  where
    at :
        {u : ResumeKeyTable} (e : Option ResumeKeyEntry)
        → get? key u.by_key ≡ e
        → IsPaired u
        → get? h u.by_open ≡ none
        → handle_for s e ≢ some h
    at none q v gone x = absurd (ground arith)
    at {u} (some e) q v gone x =
        let it : e.handle ≡ h = ground arith in
        let back : get? h u.by_open ≡ some key =
          subst (λ j. get? j u.by_open ≡ some key) it (v.keyed key e q) in
        absurd (ground (arith, gone, back))
