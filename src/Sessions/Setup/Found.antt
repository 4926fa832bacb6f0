-- ===== src/Sessions/Setup/Found.antt =====
-- The users that internal/config/validate.go lets through, and the search of handleType3 in
-- internal/parent/session.go among them.
use gosamba.Prelude.{
  ℕ, ◌<◌, ◌≡◌, ◌≢◌, ◌↔◌, refl, sym, ap, subst, ◌∙◌, inl, inr, Bool, true, List, [], ◌∷◌, All, some,
  Bool-cases,
}
use gosamba.Config.{UserConfig, Config, System, validate}
use gosamba.Config.Entries.{Distinct, keys, Resolved}
use gosamba.Config.Validated.{validate_iff}
use gosamba.Sessions.Handler.{find_user}

abbrev pub IsAscii : List ℕ → Type 0
IsAscii s = All (λ c. c < 128) s

-- `strings.EqualFold` folds ASCII names exactly if `strings.ToLower` takes them to the same one.
abbrev pub FoldsAscii : (List ℕ → List ℕ → Bool) → (List ℕ → List ℕ) → Type 0
FoldsAscii equal_fold to_lower =
    (a b : List ℕ) → IsAscii a → IsAscii b → (equal_fold a b ≡ true) ↔ (to_lower a ≡ to_lower b)

-- Every spelling of the name finds the user.
abbrev pub IsFound :
    (List ℕ → List ℕ → Bool) → (List ℕ → List ℕ) → List UserConfig → UserConfig → Type 0
IsFound equal_fold to_lower users u =
    (name : List ℕ)
    → IsAscii name
    → to_lower name ≡ to_lower u.name
    → find_user equal_fold users name ≡ some u

-- The key of a user.
abbrev lower_name : (List ℕ → List ℕ) → UserConfig → List ℕ
lower_name to_lower u = to_lower u.name

-- A key that was seen is none of the later ones.
seen-differs {ℓ} :
    {A : Type ℓ} (f : A → List ℕ) (j : List ℕ) (seen : List (List ℕ)) (as_ : List A)
    → ((k : List ℕ) → All (λ i. i ≢ k) seen → j ≢ k)
    → Distinct seen (keys f as_)
    → All (λ a. j ≢ f a) as_
seen-differs f j seen [] h d = tt
seen-differs f j seen (a ∷ as_) h (here, d) =
    (h (f a) here, seen-differs f j (f a ∷ seen) as_ (λ k w. h k w.1) d)

behind :
    (equal_fold : List ℕ → List ℕ → Bool) (to_lower : List ℕ → List ℕ) (u : UserConfig)
    (users vs : List UserConfig)
    → FoldsAscii equal_fold to_lower
    → IsAscii u.name
    → All (λ v. to_lower u.name ≢ to_lower v.name) vs
    → All (IsFound equal_fold to_lower users) vs
    → All (IsFound equal_fold to_lower (u ∷ users)) vs
unfolding find_user
behind equal_fold to_lower u users [] folds ascii w found = tt
behind equal_fold to_lower u users (v ∷ vs) folds ascii (differs, w) (here, found) = (
  λ name plain same. elim (Bool-cases (equal_fold u.name name)) [
    | inl e ↦ absurd (differs ((folds u.name name ascii plain).0 e ∙ same))
    | inr e ↦ rw e (here name plain same)
  ],
  behind equal_fold to_lower u users vs folds ascii w found,
)

Distinct-IsFound :
    (equal_fold : List ℕ → List ℕ → Bool) (to_lower : List ℕ → List ℕ) (seen : List (List ℕ))
    (users : List UserConfig)
    → FoldsAscii equal_fold to_lower
    → All (λ u. IsAscii u.name) users
    → Distinct seen (keys (lower_name to_lower) users)
    → All (IsFound equal_fold to_lower users) users
unfolding find_user
Distinct-IsFound equal_fold to_lower seen [] folds ascii d = tt
Distinct-IsFound equal_fold to_lower seen (u ∷ users) folds (plain_u, ascii) (here, d) =
    let first = to_lower u.name in
    let rest = Distinct-IsFound equal_fold to_lower (first ∷ seen) users folds ascii d in
    let others = seen-differs (lower_name to_lower) first (first ∷ seen) users (λ k w. w.0) d in
    (
      λ name plain same. rw ((folds u.name name plain_u plain).1 (sym same)) refl,
      behind equal_fold to_lower u users users folds plain_u others rest,
    )

Resolved-keys :
    (sys : System) (f : List ℕ → List ℕ) (users ready : List UserConfig)
    → Resolved sys users ready
    → keys (lower_name f) ready ≡ keys (lower_name f) users
Resolved-keys sys f [] ready e = ap (keys (lower_name f)) e
Resolved-keys sys f (u ∷ users) ready (ids, rest, at, e, r) =
    ap (keys (lower_name f)) e ∙ ap (◌∷◌ (f u.name)) (Resolved-keys sys f users rest r)

-- Where Validate accepts a configuration whose users have ASCII names, and EqualFold folds those
-- exactly if ToLower takes them to the same one, SESSION_SETUP finds every user under each ASCII
-- spelling of the name.
pub validate-find_user :
    (sys : System) (cfg ready : Config) (equal_fold : List ℕ → List ℕ → Bool)
    → FoldsAscii equal_fold sys.to_lower
    → All (λ u. IsAscii u.name) ready.users
    → validate sys cfg ≡ inr ready
    → All (IsFound equal_fold sys.to_lower ready.users) ready.users
validate-find_user sys cfg ready equal_fold folds ascii h =
    let (sound, (users, resolved, e)) = (validate_iff sys cfg ready).0 h in
    let at : ready.users ≡ users = ap (λ c. c.users) e in
    let same = Resolved-keys sys sys.to_lower cfg.users users resolved in
    let names : keys (lower_name sys.to_lower) ready.users
        ≡ keys (lower_name sys.to_lower) cfg.users =
      ap (keys (lower_name sys.to_lower)) at ∙ same in
    Distinct-IsFound equal_fold sys.to_lower [] ready.users folds ascii
      (subst (Distinct []) (sym names) sound.user_names)
