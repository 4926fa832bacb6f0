-- ===== src/Durable/Attached.antt =====
-- The entry of a live connection, and the reconnect within the timeout.
use gosamba.Prelude.{
  ℕ, ◌+◌, ◌≤◌, ◌≡◌, ◌↔◌, refl, inl, inr, true, false, List, [], ◌∷◌, Option, none, some, arith,
  Bool-cases,
}
use gosamba.Prelude.Assoc.{
  get?, put, delete, get?-put, UniqueKeys, put-UniqueKeys, same_bytes, same_bytes_iff,
}
use gosamba.Durable.{
  DurableKey, DurableEntry, DurableTable, Reclaimed, durable_key, durable_key_eq,
  durable_key_eq_iff, attached, expired, detach, detach_at, reclaim_checked, reclaim_checked_at,
  reclaim_for_reconnect, expire,
}

-- What a reconnect asks of the entry.
pub record MayReconnect (now : ℕ) (share user : List ℕ) (e : DurableEntry) : Type 0 where
  pub detached : attached e ≡ false
  pub in_time : expired now e ≡ false
  pub same_share : e.share_name ≡ share
  pub same_user : e.user_name ≡ user

-- The three outcomes of a reconnect on a table.
pub data Outcome (now : ℕ) (k : DurableKey) (share user : List ℕ) (t : DurableTable)
    : Reclaimed → Type 0 where
  hands_over :
      (e : DurableEntry)
      → get? k t ≡ some e
      → MayReconnect now share user e
      → Outcome now k share user t (delete k t, [], some e.handle)
  evicts :
      (e : DurableEntry)
      → get? k t ≡ some e
      → expired now e ≡ true
      → Outcome now k share user t (delete k t, e.handle ∷ [], none)
  leaves :
      ((e : DurableEntry) → get? k t ≡ some e → expired now e ≡ false)
      → ((e : DurableEntry) → get? k t ≡ some e → MayReconnect now share user e → ⊥)
      → Outcome now k share user t (t, [], none)

refused :
    (now : ℕ) (k : DurableKey) (share user : List ℕ) (t : DurableTable) (e : DurableEntry)
    → get? k t ≡ some e
    → expired now e ≡ false
    → (MayReconnect now share user e → ⊥)
    → Outcome now k share user t (t, [], none)
refused now k share user t e h x refuses =
    leaves (λ d g. let same : e ≡ d = ground arith in rw (← same) x)
      (λ d g m. refuses (let same : d ≡ e = ground arith in rw same at m))

reclaim_checked_at-Outcome :
    (now : ℕ) (k : DurableKey) (share user : List ℕ) (t : DurableTable)
    (found : Option DurableEntry)
    → get? k t ≡ found
    → Outcome now k share user t (reclaim_checked_at now k share user true found t)
unfolding reclaim_checked_at
reclaim_checked_at-Outcome now k share user t none h =
    leaves (λ e g. absurd (ground arith)) (λ e g m. absurd (ground arith))
reclaim_checked_at-Outcome now k share user t (some e) h = elim (Bool-cases (expired now e)) [
  | inl x ↦ rw x (evicts e h x)
  | inr x ↦ elim (Bool-cases (attached e)) [
    | inl a ↦
        rw (x, a) (refused now k share user t e h x (λ m. absurd (ground (arith, m.detached))))
    | inr a ↦ elim (Bool-cases (same_bytes e.share_name share)) [
      | inr s ↦
          rw (x, a, s)
            (refused now k share user t e h x
              (λ m. absurd (ground (arith, (same_bytes_iff e.share_name share).1 m.same_share))))
      | inl s ↦ elim (Bool-cases (same_bytes e.user_name user)) [
        | inr u ↦
            rw (x, a, s, u)
              (refused now k share user t e h x
                (λ m. absurd (ground (arith, (same_bytes_iff e.user_name user).1 m.same_user))))
        | inl u ↦
            rw (x, a, s, u)
              (hands_over e h (record {
                detached = a;
                in_time = x;
                same_share = (same_bytes_iff e.share_name share).0 s;
                same_user = (same_bytes_iff e.user_name user).0 u;
              }))
      ]
    ]
  ]
]

pub reclaim_for_reconnect-hands :
    (now : ℕ) (k : DurableKey) (share user : List ℕ) (t : DurableTable) (e : DurableEntry)
    → get? k t ≡ some e
    → MayReconnect now share user e
    → reclaim_for_reconnect now k share user t ≡ (delete k t, [], some e.handle)
unfolding reclaim_for_reconnect reclaim_checked reclaim_checked_at
reclaim_for_reconnect-hands now k share user t e h m =
    rw
      (
        h,
        m.in_time,
        m.detached,
        (same_bytes_iff e.share_name share).1 m.same_share,
        (same_bytes_iff e.user_name user).1 m.same_user,
      )
      refl

-- A reconnect hands an open over, and takes the entry out, exactly where the entry is detached, not
-- past its deadline, and of the same share and user; an expired entry is released and taken out; a
-- refusal of any other kind leaves the table as it is and releases nothing.
pub reclaim_for_reconnect-Outcome :
    (now : ℕ) (k : DurableKey) (share user : List ℕ) (t : DurableTable)
    → Outcome now k share user t (reclaim_for_reconnect now k share user t)
unfolding reclaim_for_reconnect reclaim_checked
reclaim_for_reconnect-Outcome now k share user t =
    reclaim_checked_at-Outcome now k share user t (get? k t) refl

get?-expire :
    (now : ℕ) (k : DurableKey) (e : DurableEntry) (t : DurableTable)
    → get? k t ≡ some e
    → expired now e ≡ false
    → get? k (expire now t).0 ≡ some e
unfolding expire get?
get?-expire now k e [] h x = absurd (ground arith)
get?-expire now k e ((j, d) ∷ t) h x = elim (Bool-cases (durable_key_eq j k)) [
  | inl same ↦
      let this : d ≡ e = ground (arith, same, h) in
      let kept : expired now d ≡ false = rw this x in rw (kept, same, this) refl
  | inr other ↦
      let later : get? k t ≡ some e = rw other at h in ground (arith, get?-expire now k e t later x)
]

get?-expire_past :
    (now : ℕ) (k : DurableKey) (e : DurableEntry) (t : DurableTable)
    → UniqueKeys t
    → get? k t ≡ some e
    → expired now e ≡ true
    → get? k (expire now t).0 ≡ none
unfolding expire get?
get?-expire_past now k e [] u h x = absurd (ground arith)
get?-expire_past now k e ((j, d) ∷ t) u h x = elim (Bool-cases (durable_key_eq j k)) [
  | inl same ↦
      let this : d ≡ e = ground (arith, same, h) in
      let gone : expired now d ≡ true = rw this x in
      let here : j ≡ k = (durable_key_eq_iff j k).0 same in
      rw gone (expire-none now k t (rw (← here) u.0))
  | inr other ↦
      let later : get? k t ≡ some e = rw other at h in
      ground (arith, get?-expire_past now k e t u.1 later x)
]
  where
    expire-none :
        (now : ℕ) (k : DurableKey) (t : DurableTable)
        → get? k t ≡ none
        → get? k (expire now t).0 ≡ none
    expire-none now k [] h = refl
    expire-none now k ((j, e) ∷ t) h = ground (arith, expire-none now k t)

-- Where the connection of an attached entry ends at `gone`, and a sweep runs at `swept`, a reconnect
-- at `now` from the same share and user gets the open exactly up to the end of the timeout.
pub detach-reclaim_iff :
    (gone swept now : ℕ) (k : DurableKey) (e : DurableEntry) (t : DurableTable)
    → UniqueKeys t
    → get? k t ≡ some e
    → attached e ≡ true
    → swept ≤ now
    → ((reclaim_for_reconnect now k e.share_name e.user_name (expire swept (detach gone k t)).0).2
        ≡ some e.handle)
      ↔ (now ≤ gone + e.timeout)
unfolding reclaim_for_reconnect reclaim_checked reclaim_checked_at detach detach_at
detach-reclaim_iff gone swept now k e t u h a le =
    let waiting : DurableEntry = record e { deadline = some (gone + e.timeout) } in
    let found : get? k (put k waiting t) ≡ some waiting =
      ground (arith, get?-put k k waiting t, (durable_key_eq_iff k k).1 refl) in
    let share = (same_bytes_iff e.share_name e.share_name).1 refl in
    let user = (same_bytes_iff e.user_name e.user_name).1 refl in
    rw (h, a)
      (elim (Bool-cases (expired swept waiting)) [
        | inl x ↦
            rw
              (get?-expire_past swept k waiting (put k waiting t) (put-UniqueKeys k waiting t u)
                found x)
              (unfold expired attached in (λ q. absurd (ground arith), λ q. absurd (ground arith)))
        | inr x ↦
            rw (get?-expire swept k waiting (put k waiting t) found x, share, user)
              (unfold expired attached in (λ q. ground arith, λ q. ground arith))
      ])
