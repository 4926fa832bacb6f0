-- ===== src/Durable/Owned.antt =====
-- Which party owns an open: the table, the caller that took it out, or nobody after its release.
use gosamba.Prelude.{
  ℕ, ◌+◌, ◌≤◌, ◌≡◌, refl, inl, inr, Bool, true, false, ◌==◌, if◌then◌else◌, List, [], ◌∷◌, ◌++◌,
  count, count-append, Option, none, some, arith, Bool-cases,
}
use gosamba.Prelude.Assoc.{
  get?, delete, UniqueKeys, put-UniqueKeys, delete-UniqueKeys, total, total-put, total-delete,
}
use gosamba.Durable.{
  DurableKey, DurableEntry, DurableTable, Reclaimed, durable_key, attached, expired, abandoned,
  superseded, register, detach, detach_at, reclaim, reclaim_at, reclaim_checked, reclaim_checked_at,
  remove, expire, fresh_entry,
}

-- The table, what left it, opens released and opens handed to a caller, and the opens that it accepted,
-- as often as it did.
pub record World : Type 0 where
  pub table : DurableTable
  pub released : List ℕ
  pub handed : List ℕ
  pub accepted : List ℕ

abbrev pub new_world : World
new_world = record { table = []; released = []; handed = []; accepted = [] }

abbrev pub is_open : ℕ → DurableEntry → ℕ
is_open o e = if e.handle == o then 1 else 0

-- How often the open is accounted for.
abbrev pub copies : ℕ → World → ℕ
copies o w =
    total (is_open o) w.table + count (λ x. x == o) w.released + count (λ x. x == o) w.handed

abbrev pub taken : Option ℕ → List ℕ
taken none = []
taken (some o) = o ∷ []

abbrev pub after_reclaim : World → Reclaimed → World
after_reclaim w (t, released, got) = record w {
  table = t;
  released = released ++ w.released;
  handed = taken got ++ w.handed;
}

abbrev pub accepts : ℕ → Bool → List ℕ → List ℕ
accepts o true os = o ∷ os
accepts o false os = os

-- One call, of any method with any arguments.
pub data Step : World → World → Type 0 where
  registers :
      (w : World) (k : DurableKey) (handle timeout : ℕ) (share user : List ℕ)
      → Step w (record w {
        table = (register k handle timeout share user w.table).0;
        released = (register k handle timeout share user w.table).1 ++ w.released;
        accepted = accepts handle (register k handle timeout share user w.table).2 w.accepted;
      })
  detaches :
      (w : World) (now : ℕ) (k : DurableKey) → Step w (record w { table = detach now k w.table })
  reclaims :
      (w : World) (now : ℕ) (k : DurableKey) → Step w (after_reclaim w (reclaim now k w.table))
  checks :
      (w : World) (now : ℕ) (k : DurableKey) (share user : List ℕ) (require_detached : Bool)
      → Step w (after_reclaim w (reclaim_checked now k share user require_detached w.table))
  removes : (w : World) (k : DurableKey) → Step w (record w { table = remove k w.table })
  expires :
      (w : World) (now : ℕ)
      → Step w (record w {
        table = (expire now w.table).0;
        released = (expire now w.table).1 ++ w.released;
      })

pub data Reach (s : World) : World → Type 0 where
  here : Reach s s
  next : {v w : World} → Reach s v → Step v w → Reach s w

pub record IsOwned (w : World) : Type 0 where
  pub unique : UniqueKeys w.table
  pub bounded : (o : ℕ) → copies o w ≤ count (λ x. x == o) w.accepted

-- What a call leaves of the copies of an open: none appears.
abbrev Kept : ℕ → World → DurableTable → List ℕ → List ℕ → Type 0
Kept o w t released handed =
    total (is_open o) t + count (λ x. x == o) released + count (λ x. x == o) handed
    ≤ total (is_open o) w.table

weight-at :
    (o : ℕ) (k : DurableKey) (t : DurableTable) (e : DurableEntry)
    → UniqueKeys t
    → get? k t ≡ some e
    → total (is_open o) (delete k t) + is_open o e ≡ total (is_open o) t
weight-at o k t e u h = rw (h) at (total-delete (is_open o) k t u)

reclaim_at-Kept :
    (o now : ℕ) (k : DurableKey) (found : Option DurableEntry) (w : World)
    → UniqueKeys w.table
    → get? k w.table ≡ found
    → let r = reclaim_at now k found w.table in Kept o w r.0 r.1 (taken r.2)
unfolding reclaim_at
reclaim_at-Kept o now k none w u h = omega arith
reclaim_at-Kept o now k (some e) w u h = ground (arith, weight-at o k w.table e u h)

checked-Kept :
    (o now : ℕ) (k : DurableKey) (share user : List ℕ) (require_detached : Bool)
    (found : Option DurableEntry) (w : World)
    → UniqueKeys w.table
    → get? k w.table ≡ found
    → let r = reclaim_checked_at now k share user require_detached found w.table in
      Kept o w r.0 r.1 (taken r.2)
unfolding reclaim_checked_at
checked-Kept o now k share user d none w u h = omega arith
checked-Kept o now k share user d (some e) w u h = ground (arith, weight-at o k w.table e u h)

expire-total :
    (o now : ℕ) (t : DurableTable)
    → total (is_open o) (expire now t).0 + count (λ x. x == o) (expire now t).1
      ≡ total (is_open o) t
unfolding expire
expire-total o now [] = omega arith
expire-total o now ((k, e) ∷ t) = ground (arith, expire-total o now t)

expire-get :
    (now : ℕ) (k : DurableKey) (t : DurableTable) → get? k t ≡ none → get? k (expire now t).0 ≡ none
unfolding expire get?
expire-get now k [] h = refl
expire-get now k ((j, e) ∷ t) h = ground (arith, expire-get now k t)

expire-UniqueKeys : (now : ℕ) (t : DurableTable) → UniqueKeys t → UniqueKeys (expire now t).0
unfolding expire
expire-UniqueKeys now [] u = tt
expire-UniqueKeys now ((k, e) ∷ t) u = elim (Bool-cases (expired now e)) [
  | inl x ↦ rw x (expire-UniqueKeys now t u.1)
  | inr x ↦ rw x (expire-get now k t u.0, expire-UniqueKeys now t u.1)
]

detach_at-copies :
    (o now : ℕ) (k : DurableKey) (found : Option DurableEntry) (t : DurableTable)
    → get? k t ≡ found
    → total (is_open o) (detach_at now k found t) ≡ total (is_open o) t
unfolding detach_at
detach_at-copies o now k none t h = refl
detach_at-copies o now k (some e) t h =
    let e' : DurableEntry = record e { deadline = some (now + e.timeout) } in
    ground (arith, total-put (is_open o) k e' t)

register-copies :
    (o : ℕ) (k : DurableKey) (handle timeout : ℕ) (share user : List ℕ)
    (found : Option DurableEntry) (w : World)
    → UniqueKeys w.table
    → get? k w.table ≡ found
    → let r = register k handle timeout share user w.table in
      total (is_open o) r.0 + count (λ x. x == o) r.1 + count (λ x. x == o) w.accepted
      ≤ total (is_open o) w.table + count (λ x. x == o) (accepts handle r.2 w.accepted)
unfolding register abandoned superseded
register-copies o k handle timeout share user none w u h = ground (
  arith,
  total-put (is_open o) k (fresh_entry handle timeout share user) w.table,
  total-delete (is_open o) k w.table u,
)
register-copies o k handle timeout share user (some prev) w u h = ground (
  arith,
  total-put (is_open o) k (fresh_entry handle timeout share user) w.table,
  weight-at o k w.table prev u h,
)

reclaim_at-UniqueKeys :
    (now : ℕ) (k : DurableKey) (found : Option DurableEntry) (t : DurableTable)
    → UniqueKeys t
    → UniqueKeys (reclaim_at now k found t).0
unfolding reclaim_at
reclaim_at-UniqueKeys now k none t u = u
reclaim_at-UniqueKeys now k (some e) t u = elim (Bool-cases (expired now e)) [
  | inl x ↦ rw x (delete-UniqueKeys k t u)
  | inr x ↦ rw x (delete-UniqueKeys k t u)
]

detach_at-UniqueKeys :
    (now : ℕ) (k : DurableKey) (found : Option DurableEntry) (t : DurableTable)
    → UniqueKeys t
    → UniqueKeys (detach_at now k found t)
unfolding detach_at
detach_at-UniqueKeys now k none t u = u
detach_at-UniqueKeys now k (some e) t u = elim (Bool-cases (attached e)) [
  | inl x ↦ rw x (put-UniqueKeys k (record e { deadline = some (now + e.timeout) }) t u)
  | inr x ↦ rw x u
]

checked-UniqueKeys :
    (now : ℕ) (k : DurableKey) (share user : List ℕ) (d : Bool) (found : Option DurableEntry)
    (t : DurableTable)
    → UniqueKeys t
    → UniqueKeys (reclaim_checked_at now k share user d found t).0
unfolding reclaim_checked_at
checked-UniqueKeys now k share user d none t u = u
checked-UniqueKeys now k share user d (some e) t u = ground (arith, delete-UniqueKeys k t u)

register-UniqueKeys :
    (k : DurableKey) (handle timeout : ℕ) (share user : List ℕ) (t : DurableTable)
    → UniqueKeys t
    → UniqueKeys (register k handle timeout share user t).0
unfolding register
register-UniqueKeys k handle timeout share user t u =
    ground
      (arith, delete-UniqueKeys k t u, put-UniqueKeys k (fresh_entry handle timeout share user) t u)

Step-IsOwned : {v w : World} → Step v w → IsOwned v → IsOwned w
unfolding detach reclaim reclaim_checked remove
Step-IsOwned (registers w k handle timeout share user) v = record {
  unique = register-UniqueKeys k handle timeout share user w.table v.unique;
  bounded = λ o.
      let r = register k handle timeout share user w.table in
      omega (
        arith,
        count-append (λ x. x == o) r.1 w.released,
        register-copies o k handle timeout share user (get? k w.table) w v.unique refl,
        v.bounded o,
      );
}
Step-IsOwned (detaches w now k) v = record {
  unique = detach_at-UniqueKeys now k (get? k w.table) w.table v.unique;
  bounded = λ o. omega (arith, v.bounded o, detach_at-copies o now k (get? k w.table) w.table refl);
}
Step-IsOwned (reclaims w now k) v = record {
  unique = reclaim_at-UniqueKeys now k (get? k w.table) w.table v.unique;
  bounded = λ o.
      let r = reclaim now k w.table in
      omega (
        arith,
        count-append (λ x. x == o) r.1 w.released,
        v.bounded o,
        count-append (λ x. x == o) (taken r.2) w.handed,
        reclaim_at-Kept o now k (get? k w.table) w v.unique refl,
      );
}
Step-IsOwned (checks w now k share user d) v = record {
  unique = checked-UniqueKeys now k share user d (get? k w.table) w.table v.unique;
  bounded = λ o.
      let r = reclaim_checked now k share user d w.table in
      omega (
        arith,
        count-append (λ x. x == o) r.1 w.released,
        v.bounded o,
        count-append (λ x. x == o) (taken r.2) w.handed,
        checked-Kept o now k share user d (get? k w.table) w v.unique refl,
      );
}
Step-IsOwned (removes w k) v = record {
  unique = delete-UniqueKeys k w.table v.unique;
  bounded = λ o. omega (arith, v.bounded o, total-delete (is_open o) k w.table v.unique);
}
Step-IsOwned (expires w now) v = record {
  unique = expire-UniqueKeys now w.table v.unique;
  bounded = λ o. omega (
    arith,
    v.bounded o,
    count-append (λ x. x == o) (expire now w.table).1 w.released,
    expire-total o now w.table,
  );
}

-- After any history of calls from an empty table, an open stands among the entries, the releases and
-- the opens handed over, together, at most as often as the table accepted it, and no key has two
-- entries.
pub Reach-IsOwned : {w : World} → Reach new_world w → IsOwned w
Reach-IsOwned here = record { unique = tt; bounded = λ o. omega arith }
Reach-IsOwned (next r s) = Step-IsOwned s (Reach-IsOwned r)
