-- ===== src/Sessions/Opens.antt =====
-- Which party owns an open of a session: the session's map, or the caller that took it out.
use gosamba.Prelude.{
  ℕ, ◌+◌, ◌≡◌, refl, inl, inr, Bool, true, false, not, ◌==◌, if◌then◌else◌, List, [], ◌∷◌, ◌++◌,
  count, count-append, Option, none, some, arith, Bool-cases,
}
use gosamba.Prelude.Assoc.{
  get?, put, delete, nat_key, bytes_key, UniqueKeys, put-UniqueKeys, delete-UniqueKeys, total,
  weight, total-put, total-delete,
}
use gosamba.Sessions.{
  Session, SessionOpen, new_session, add_tree, remove_tree, on_tree, split_opens,
  remove_tree_and_opens, all_opens, take_all_opens, add_open, add_open_to_tree, remove_open,
  is_some,
}

-- A session, the opens it accepted, those that callers took out of it, and those whose place a later
-- open under the same FileId took, by identity.
pub record History : Type 0 where
  pub session : Session
  pub accepted : List ℕ
  pub taken : List ℕ
  pub displaced : List ℕ

abbrev pub identities : List SessionOpen → List ℕ
identities [] = []
identities (o ∷ os) = o.identity ∷ identities os

abbrev pub maybe_identity : Option SessionOpen → List ℕ
maybe_identity none = []
maybe_identity (some o) = o.identity ∷ []

abbrev pub accept : History → SessionOpen → Session × Bool → History
accept h o (s, true) = record h {
  session = s;
  accepted = o.identity ∷ h.accepted;
  displaced = maybe_identity (get? o.file_id h.session.opens) ++ h.displaced;
}
accept h o (s, false) = record h { session = s }

-- One call, of any method with any arguments.
pub data Step : History → History → Type 0 where
  adds_tree :
      (h : History) (share : List ℕ) → Step h (record h { session = (add_tree share h.session).0 })
  removes_tree : (h : History) (id : ℕ) → Step h (record h { session = remove_tree id h.session })
  adds : (h : History) (o : SessionOpen) → Step h (accept h o (add_open o h.session))
  adds_to_tree :
      (h : History) (o : SessionOpen) (tree : ℕ)
      → Step h (accept h o (add_open_to_tree o tree h.session))
  removes :
      (h : History) (fid : List ℕ)
      → Step h (record h {
        session = (remove_open fid h.session).0;
        taken = maybe_identity (remove_open fid h.session).1 ++ h.taken;
      })
  disconnects :
      (h : History) (id : ℕ)
      → Step h (record h {
        session = (remove_tree_and_opens id h.session).0;
        taken = identities (remove_tree_and_opens id h.session).1 ++ h.taken;
      })
  tears_down :
      (h : History)
      → Step h (record h {
        session = (take_all_opens h.session).0;
        taken = identities (take_all_opens h.session).1 ++ h.taken;
      })

pub data Reach (s : History) : History → Type 0 where
  here : Reach s s
  next : {g h : History} → Reach s g → Step g h → Reach s h

abbrev pub is_open : ℕ → SessionOpen → ℕ
is_open o e = if e.identity == o then 1 else 0

abbrev pub times : ℕ → List ℕ → ℕ
times o = count (λ x. x == o)

-- Each accepted open is as often in the session, taken out and displaced, together, as it was
-- accepted; a dead session holds none.
pub record IsBalanced (h : History) : Type 0 where
  pub unique : UniqueKeys h.session.opens
  pub balance :
      (o : ℕ)
      → total (is_open o) h.session.opens + times o h.taken + times o h.displaced
        ≡ times o h.accepted
  pub dead_empty : h.session.dead ≡ true → h.session.opens ≡ []

split_opens-total :
    (o id : ℕ) (m : List (List ℕ × SessionOpen))
    → total (is_open o) (split_opens id m).0 + times o (identities (split_opens id m).1)
      ≡ total (is_open o) m
unfolding split_opens
split_opens-total o id [] = omega arith
split_opens-total o id ((fid, e) ∷ m) = ground (arith, split_opens-total o id m)

split_opens-absent :
    (id : ℕ) (fid : List ℕ) (m : List (List ℕ × SessionOpen))
    → get? fid m ≡ none
    → get? fid (split_opens id m).0 ≡ none
unfolding split_opens get?
split_opens-absent id fid [] h = refl
split_opens-absent id fid ((j, e) ∷ m) h = ground (arith, split_opens-absent id fid m)

split_opens-UniqueKeys :
    (id : ℕ) (m : List (List ℕ × SessionOpen)) → UniqueKeys m → UniqueKeys (split_opens id m).0
unfolding split_opens
split_opens-UniqueKeys id [] u = tt
split_opens-UniqueKeys id ((fid, e) ∷ m) u = elim (Bool-cases (on_tree id e.tree)) [
  | inl x ↦ rw x (split_opens-UniqueKeys id m u.1)
  | inr x ↦ rw x (split_opens-absent id fid m u.0, split_opens-UniqueKeys id m u.1)
]

all_opens-total :
    (o : ℕ) (m : List (List ℕ × SessionOpen))
    → times o (identities (all_opens m)) ≡ total (is_open o) m
unfolding all_opens
all_opens-total o [] = omega arith
all_opens-total o ((fid, e) ∷ m) = ground (arith, all_opens-total o m)

maybe-times :
    (x : ℕ) (found : Option SessionOpen) → times x (maybe_identity found) ≡ weight (is_open x) found
maybe-times x none = refl
maybe-times x (some o) = ground arith

accepted-IsBalanced :
    (h : History) (o : SessionOpen)
    → h.session.dead ≡ false
    → IsBalanced h
    → IsBalanced (accept h o (record h.session { opens = put o.file_id o h.session.opens }, true))
accepted-IsBalanced h o alive v = record {
  unique = put-UniqueKeys o.file_id o h.session.opens v.unique;
  balance = λ x.
      let before = get? o.file_id h.session.opens in
      grind (
        arith,
        v.balance x,
        total-put (is_open x) o.file_id o h.session.opens,
        count-append (λ y. y == x) (maybe_identity before) h.displaced,
        maybe-times x before,
      );
  dead_empty = λ d. absurd (ground arith);
}

if_accept :
    (h : History) (o : SessionOpen) (b : Bool) (x y : Session × Bool)
    → (b ≡ true → IsBalanced (accept h o x))
    → (b ≡ false → IsBalanced (accept h o y))
    → IsBalanced (accept h o (if b then x else y))
if_accept h o true x y p q = p refl
if_accept h o false x y p q = q refl

add_open-IsBalanced :
    (h : History) (o : SessionOpen) → IsBalanced h → IsBalanced (accept h o (add_open o h.session))
unfolding add_open
add_open-IsBalanced h o v =
    let grown : Session = record h.session { opens = put o.file_id o h.session.opens } in
    if_accept h o h.session.dead (h.session, false) (grown, true) (λ dead. v)
      (λ alive. accepted-IsBalanced h o alive v)

add_open_to_tree-IsBalanced :
    (h : History) (o : SessionOpen) (tree : ℕ)
    → IsBalanced h
    → IsBalanced (accept h o (add_open_to_tree o tree h.session))
unfolding add_open_to_tree
add_open_to_tree-IsBalanced h o tree v =
    let s = h.session in
    let grown : Session = record s { opens = put o.file_id o s.opens } in
    let there = is_some (get? tree s.trees) in
    if_accept h o s.dead (s, false) (if not there then (s, false) else (grown, true)) (λ dead. v)
      (λ alive.
        if_accept h o (not there) (s, false) (grown, true) (λ gone. v)
          (λ on. accepted-IsBalanced h o alive v))

Step-IsBalanced : {g h : History} → Step g h → IsBalanced g → IsBalanced h
unfolding add_tree remove_tree remove_open remove_tree_and_opens take_all_opens split_opens delete
Step-IsBalanced (adds_tree h share) v = record {
  unique = v.unique;
  balance = v.balance;
  dead_empty = v.dead_empty;
}
Step-IsBalanced (removes_tree h id) v = record {
  unique = v.unique;
  balance = v.balance;
  dead_empty = v.dead_empty;
}
Step-IsBalanced (adds h o) v = add_open-IsBalanced h o v
Step-IsBalanced (adds_to_tree h o tree) v = add_open_to_tree-IsBalanced h o tree v
Step-IsBalanced (removes h fid) v = record {
  unique = delete-UniqueKeys fid h.session.opens v.unique;
  balance = λ x.
      let found = get? fid h.session.opens in
      omega (
        arith,
        v.balance x,
        total-delete (is_open x) fid h.session.opens v.unique,
        count-append (λ y. y == x) (maybe_identity found) h.taken,
        maybe-times x found,
      );
  dead_empty = λ d. rw (v.dead_empty d) refl;
}
Step-IsBalanced (disconnects h id) v = record {
  unique = split_opens-UniqueKeys id h.session.opens v.unique;
  balance = λ x.
      let out = identities (split_opens id h.session.opens).1 in
      omega (
        arith,
        v.balance x,
        split_opens-total x id h.session.opens,
        count-append (λ y. y == x) out h.taken,
      );
  dead_empty = λ d. rw (v.dead_empty d) refl;
}
Step-IsBalanced (tears_down h) v = record {
  unique = tt;
  balance = λ x. omega (
    arith,
    v.balance x,
    all_opens-total x h.session.opens,
    count-append (λ y. y == x) (identities (all_opens h.session.opens)) h.taken,
  );
  dead_empty = λ d. refl;
}

-- After any interleaving of calls on a new session, every open that the session accepted is exactly
-- once either among its opens, or among those handed to a caller for release, or among those whose
-- place a later open under the same FileId took, for each time it was accepted, and a session that
-- was torn down holds no open.
pub Reach-IsBalanced :
    (id : ℕ) {h : History}
    → Reach (record { session = new_session id; accepted = []; taken = []; displaced = [] }) h
    → IsBalanced h
unfolding new_session
Reach-IsBalanced id here = record {
  unique = tt;
  balance = λ o. omega arith;
  dead_empty = λ d. absurd (ground arith);
}
Reach-IsBalanced id (next r s) = Step-IsBalanced s (Reach-IsBalanced id r)
