-- ===== src/Sessions.antt =====
-- Sessions: the trees and opens of one session, and the sessions of one connection, in
-- internal/parent/session.go. Each method holds the mutex of its session or table.
pub mod Opens
pub mod Table
pub mod Index
pub mod Handler
pub mod Setup
use gosamba.Prelude.{
  ℕ, zero, suc, ◌+◌, ◌%◌, ◌^◌, Bool, true, false, not, ◌==◌, leb, if◌then◌else◌, List, [], ◌∷◌,
  length, Option, none, some, ◌⊎◌, inl, inr,
}
use gosamba.Prelude.Assoc.{Map, get?, put, delete, nat_key, bytes_key}

-- What a session keeps of an `Open`: the pointer, and the id of its tree where it has one.
pub record SessionOpen : Type 0 where
  pub identity : ℕ
  pub file_id : List ℕ
  pub tree : Option ℕ

-- `Session`: a tree is kept by its share's name.
pub record Session : Type 0 where
  pub id : ℕ
  pub user_name : List ℕ
  pub is_guest : Bool
  pub authenticated : Bool
  pub signing_key : List ℕ
  pub trees : Map ℕ (List ℕ)
  pub opens : Map (List ℕ) SessionOpen
  pub dead : Bool
  pub next_tree_id : ℕ

unfoldable pub new_session : ℕ → Session
new_session id = record {
  id = id;
  user_name = [];
  is_guest = false;
  authenticated = false;
  signing_key = [];
  trees = [];
  opens = [];
  dead = false;
  next_tree_id = 0;
}

-- The counter starts at 1 and wraps at 32 bits.
unfoldable pub add_tree : List ℕ → Session → Session × ℕ
add_tree share s =
    let last = if s.next_tree_id == 0 then 1 else s.next_tree_id in
    let id = suc last % 2 ^ 32 in (record s { trees = put id share s.trees; next_tree_id = id }, id)

unfoldable pub get_tree : ℕ → Session → Option (List ℕ)
get_tree id s = get? id s.trees

unfoldable pub remove_tree : ℕ → Session → Session
remove_tree id s = record s { trees = delete id s.trees }

abbrev pub on_tree : ℕ → Option ℕ → Bool
on_tree id none = false
on_tree id (some t) = t == id

-- The opens of a tree, and the map without them.
unfoldable pub split_opens :
    ℕ → Map (List ℕ) SessionOpen → Map (List ℕ) SessionOpen × List SessionOpen
split_opens id [] = ([], [])
split_opens id ((fid, o) ∷ m) =
    let (kept, out) = split_opens id m in
    if on_tree id o.tree then (kept, o ∷ out) else ((fid, o) ∷ kept, out)

unfoldable pub remove_tree_and_opens : ℕ → Session → Session × List SessionOpen
remove_tree_and_opens id s =
    let (kept, out) = split_opens id s.opens in
    (record s { trees = delete id s.trees; opens = kept }, out)

unfoldable pub all_opens : Map (List ℕ) SessionOpen → List SessionOpen
all_opens [] = []
all_opens ((fid, o) ∷ m) = o ∷ all_opens m

unfoldable pub take_all_opens : Session → Session × List SessionOpen
take_all_opens s = (record s { dead = true; opens = []; trees = [] }, all_opens s.opens)

unfoldable pub add_open : SessionOpen → Session → Session × Bool
add_open o s = if s.dead then (s, false) else (record s { opens = put o.file_id o s.opens }, true)

abbrev pub is_some {ℓ} : {A : Type ℓ} → Option A → Bool
is_some none = false
is_some (some a) = true

unfoldable pub add_open_to_tree : SessionOpen → ℕ → Session → Session × Bool
add_open_to_tree o tree s =
    if s.dead
    then (s, false)
    else if not (is_some (get? tree s.trees))
    then (s, false)
    else (record s { opens = put o.file_id o s.opens }, true)

unfoldable pub get_open : List ℕ → Session → Option SessionOpen
get_open fid s = get? fid s.opens

unfoldable pub remove_open : List ℕ → Session → Session × Option SessionOpen
remove_open fid s = (record s { opens = delete fid s.opens }, get? fid s.opens)

unfoldable pub open_count : Session → ℕ
open_count s = length s.opens

unfoldable pub tree_count : Session → ℕ
tree_count s = length s.trees
