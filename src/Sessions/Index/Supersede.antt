-- ===== src/Sessions/Index/Supersede.antt =====
-- When a session is closed for another one, and what that does.
use gosamba.Prelude.{
  ℕ, ◌≡◌, ◌≢◌, ◌↔◌, refl, inl, inr, Bool, true, false, not, ◌==◌, if◌then◌else◌, List, ◌++◌, Option,
  none, some, arith, Bool-cases,
}
use gosamba.Prelude.Assoc.{Map, get?, delete, nat_key, get?-put, get?-delete, same_bytes_iff}
use gosamba.Sessions.{Session, take_all_opens, all_opens}
use gosamba.Sessions.Table.{remove}
use gosamba.Sessions.Index.{
  Host, Server, may_supersede, guid_of, forget, close_session, supersede_at, supersede,
}

-- The identity that closing a session asks for.
pub record SameIdentity (equal_fold : List ℕ → List ℕ → Bool) (prev : Session) (host_guid : List ℕ)
    (by : Session) (by_guid : List ℕ) : Type 0 where
  pub both : (prev.authenticated ≡ true) × (by.authenticated ≡ true)
  pub same_kind : prev.is_guest ≡ by.is_guest
  pub same_name : equal_fold prev.user_name by.user_name ≡ true
  pub same_client : by.is_guest ≡ true → host_guid ≡ by_guid

may_supersede-SameIdentity :
    (f : List ℕ → List ℕ → Bool) (prev : Session) (host_guid : List ℕ) (by : Session)
    (by_guid : List ℕ)
    → (may_supersede f (some prev) host_guid by by_guid ≡ true)
      ↔ SameIdentity f prev host_guid by by_guid
unfolding may_supersede
may_supersede-SameIdentity f prev g by by_guid = (
  λ h. record {
    both = (ground arith, ground arith);
    same_kind = ground arith;
    same_name = ground arith;
    same_client = λ guest. (same_bytes_iff g by_guid).0 (ground arith);
  },
  λ s.
      let both = s.both in
      let kind = s.same_kind in
      let named = s.same_name in
      let client = s.same_client in
      elim (Bool-cases by.is_guest) [
        | inl guest ↦
            ground (arith, (same_bytes_iff g by_guid).1 (client guest), s.both.0, s.both.1)
        | inr named_user ↦ ground (arith, s.both.0, s.both.1)
      ],
)

-- What closing session `id` of `host` leaves behind.
pub record Closed (v : Server) (host id : ℕ) (prev : Session) (w : Server) : Type 0 where
  pub unlisted : get? id w.by_id ≡ none
  pub torn_down : get? id w.heap ≡ some (take_all_opens prev).0
  pub gave_up : w.released ≡ v.released ++ all_opens prev.opens
  pub off_table :
      (h : Host)
      → get? host v.hosts ≡ some h
      → get? host w.hosts ≡ some (record h { sessions = remove id h.sessions })
  pub others_listed : (j : ℕ) → j ≢ id → get? j w.by_id ≡ get? j v.by_id
  pub others_alive : (j : ℕ) → j ≢ id → get? j w.heap ≡ get? j v.heap
  pub other_hosts : (j : ℕ) → j ≢ host → get? j w.hosts ≡ get? j v.hosts

hosts-forget :
    (id host j : ℕ) (found : Option Host) (hosts : Map ℕ Host)
    → j ≢ host
    → get? j (forget id host found hosts) ≡ get? j hosts
hosts-forget id host j none hosts ne = refl
hosts-forget id host j (some h) hosts ne =
    ground (arith, get?-put host j (record h { sessions = remove id h.sessions }) hosts)

host-forget :
    (id host : ℕ) (h : Host) (hosts : Map ℕ Host)
    → get? host hosts ≡ some h
    → get? host (forget id host (get? host hosts) hosts)
      ≡ some (record h { sessions = remove id h.sessions })
host-forget id host h hosts e =
    rw e (ground (arith, get?-put host host (record h { sessions = remove id h.sessions }) hosts))

close_session-Closed :
    (v : Server) (host id : ℕ) (prev : Session)
    → get? id v.heap ≡ some prev
    → Closed v host id prev (close_session host id (record v { by_id = delete id v.by_id }))
unfolding close_session take_all_opens
close_session-Closed v host id prev e = rw e (record {
  unlisted = ground (arith, get?-delete id id v.by_id);
  torn_down = ground (arith, get?-put id id (take_all_opens prev).0 v.heap);
  gave_up = refl;
  off_table = λ h k. host-forget id host h v.hosts k;
  others_listed = λ j ne. ground (arith, get?-delete id j v.by_id);
  others_alive = λ j ne. ground (arith, get?-put id j (take_all_opens prev).0 v.heap);
  other_hosts = λ j ne. hosts-forget id host j (get? host v.hosts) v.hosts ne;
})

-- The session that a PreviousSessionId names, with the host that owns it.
pub record Names (equal_fold : List ℕ → List ℕ → Bool) (prev_id : ℕ) (by : Session)
    (by_guid : List ℕ) (v : Server) (host : ℕ) (prev : Session) : Type 0 where
  pub not_zero : prev_id ≢ 0
  pub not_itself : prev_id ≢ by.id
  pub listed : get? prev_id v.by_id ≡ some host
  pub alive : get? prev_id v.heap ≡ some prev
  pub identity : SameIdentity equal_fold prev (guid_of (get? host v.hosts)) by by_guid

-- A reconnect closes the named session, or changes nothing.
pub data Outcome (equal_fold : List ℕ → List ℕ → Bool) (prev_id : ℕ) (by : Session)
    (by_guid : List ℕ) (v : Server) : Server × Bool → Type 0 where
  closes :
      (host : ℕ) (prev : Session) (w : Server)
      → Names equal_fold prev_id by by_guid v host prev
      → Closed v host prev_id prev w
      → Outcome equal_fold prev_id by by_guid v (w, true)
  ignores :
      ((host : ℕ) (prev : Session) → Names equal_fold prev_id by by_guid v host prev → ⊥)
      → Outcome equal_fold prev_id by by_guid v (v, false)

may_supersede-Outcome :
    (f : List ℕ → List ℕ → Bool) (prev_id : ℕ) (by : Session) (by_guid : List ℕ) (v : Server)
    (host : ℕ) (found : Option Session)
    → prev_id ≢ 0
    → prev_id ≢ by.id
    → get? prev_id v.by_id ≡ some host
    → get? prev_id v.heap ≡ found
    → Outcome f prev_id by by_guid v (
        if not (may_supersede f found (guid_of (get? host v.hosts)) by by_guid)
        then (v, false)
        else (close_session host prev_id (record v { by_id = delete prev_id v.by_id }), true))
may_supersede-Outcome f prev_id by by_guid v host none nz ni li al =
    unfold may_supersede in ignores (λ h p n. absurd (ground (arith, n.alive)))
may_supersede-Outcome f prev_id by by_guid v host (some prev) nz ni li al =
    let iff = may_supersede-SameIdentity f prev (guid_of (get? host v.hosts)) by by_guid in
    elim (Bool-cases (may_supersede f (some prev) (guid_of (get? host v.hosts)) by by_guid)) [
      | inl may ↦ rw may (
          closes host prev _
            (record {
              not_zero = nz;
              not_itself = ni;
              listed = li;
              alive = al;
              identity = iff.0 may;
            })
            (close_session-Closed v host prev_id prev al))
      | inr not_ ↦ rw not_ (
          ignores (λ h p n.
            let same_host : h ≡ host = ground (arith, n.listed) in
            let same_prev : p ≡ prev = ground (arith, n.alive) in
            let s : SameIdentity f prev (guid_of (get? host v.hosts)) by by_guid =
              rw (same_host, same_prev) at n.identity in
            absurd (ground (arith, iff.1 s))))
    ]

supersede_at-Outcome :
    (f : List ℕ → List ℕ → Bool) (prev_id : ℕ) (by : Session) (by_guid : List ℕ) (v : Server)
    (found : Option ℕ)
    → prev_id ≢ 0
    → prev_id ≢ by.id
    → get? prev_id v.by_id ≡ found
    → Outcome f prev_id by by_guid v (supersede_at f prev_id by by_guid v found)
unfolding supersede_at
supersede_at-Outcome f prev_id by by_guid v none nz ni li =
    ignores (λ h p n. absurd (ground (arith, n.listed)))
supersede_at-Outcome f prev_id by by_guid v (some host) nz ni li =
    may_supersede-Outcome f prev_id by by_guid v host (get? prev_id v.heap) nz ni li refl

-- A PreviousSessionId closes a session exactly if it names, and is not zero or the new session's own
-- id, a session in the index whose client was authenticated as the same user, with the same
-- ClientGuid where both are guests. Its opens are given up once, it leaves the index and its
-- connection's table, and no other session or connection changes. In every other case nothing
-- changes.
pub supersede-Outcome :
    (equal_fold : List ℕ → List ℕ → Bool) (prev_id : ℕ) (by : Session) (by_guid : List ℕ)
    (v : Server)
    → Outcome equal_fold prev_id by by_guid v (supersede equal_fold prev_id by by_guid v)
unfolding supersede
supersede-Outcome f prev_id by by_guid v = elim (Bool-cases (prev_id == 0)) [
  | inl zero_ ↦ rw zero_ (ignores (λ h p n. absurd (n.not_zero (ground arith))))
  | inr nz ↦ elim (Bool-cases (prev_id == by.id)) [
    | inl itself ↦ rw (nz, itself) (ignores (λ h p n. absurd (n.not_itself (ground arith))))
    | inr ni ↦
        rw (nz, ni)
          (supersede_at-Outcome f prev_id by by_guid v (get? prev_id v.by_id) (ground arith)
            (ground arith) refl)
  ]
]
