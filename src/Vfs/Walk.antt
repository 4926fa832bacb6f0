-- ===== src/Vfs/Walk.antt =====
-- The walk of ResolveSecure in internal/vfs/path.go up to the deepest path that exists.
use gosamba.Prelude.{
  ℕ, zero, suc, ◌<◌, ◌≡◌, ◌≢◌, refl, inl, inr, ◌⊎◌, Bool, true, false, if◌then◌else◌, List, [], ◌∷◌,
  length, Option, some, arith,
}
use gosamba.Prelude.Assoc.{same_bytes, same_bytes_iff}
use gosamba.Vfs.{
  Stat, is_there, is_missing, is_unknown, Os, separator, Ancestor, deepest, unseen, walk_up,
}

-- An absolute path.
abbrev pub IsRooted : List ℕ → Type 0
IsRooted [] = ⊥
IsRooted (c ∷ p) = c ≡ separator

-- path/filepath on absolute paths: what it makes of one is absolute, and a directory name is the path
-- itself or shorter.
pub record IsUnix (os : Os) : Type 0 where
  pub clean_rooted : (p : List ℕ) → IsRooted p → IsRooted (os.clean p)
  pub join_rooted : (root p : List ℕ) → IsRooted root → IsRooted (os.join root p)
  pub dir_rooted : (p : List ℕ) → IsRooted p → IsRooted (os.dir p)
  pub dir_shrinks : (p : List ℕ) → IsRooted p → (os.dir p ≡ p) ⊎ (length (os.dir p) < length p)

-- Where the way up from a path ends: at the first path that exists, or where that cannot be told, at
-- another error or at the top.
pub data Walked (os : Os) : List ℕ → Ancestor → Type 0 where
  stops : (p : List ℕ) → os.lstat p ≡ is_there → Walked os p (deepest p)
  hidden : (p : List ℕ) → os.lstat p ≡ is_unknown → Walked os p unseen
  at_top : (p : List ℕ) → os.lstat p ≡ is_missing → os.dir p ≡ p → Walked os p unseen
  goes_up :
      (p : List ℕ) (a : Ancestor)
      → os.lstat p ≡ is_missing
      → os.dir p ≢ p
      → Walked os (os.dir p) a
      → Walked os p a

abbrev up_at : Os → List ℕ → Option Ancestor → Stat → Bool → Option Ancestor
up_at os path rest s same = elim s [
  | is_there ↦ some (deepest path)
  | is_unknown ↦ some unseen
  | is_missing ↦ if same then some unseen else rest
]

-- The walk, and where it leads.
abbrev Leads : Os → List ℕ → Option Ancestor → Type 0
Leads os path walked = (a : Ancestor) × (walked ≡ some a) × Walked os path a

above :
    (os : Os) (path : List ℕ) (rest : Option Ancestor)
    → os.lstat path ≡ is_missing
    → os.dir path ≢ path
    → Leads os (os.dir path) rest
    → Leads os path rest
above os path rest missing differs (a, e, w) = (a, e, goes_up path a missing differs w)

not_same : (p q : List ℕ) → same_bytes p q ≡ false → p ≢ q
not_same p q e s = let t = (same_bytes_iff p q).1 s in ground (arith, e, t)

up_at-Leads :
    (os : Os) (path : List ℕ) (rest : Option Ancestor) (s : Stat) (same : Bool)
    → os.lstat path ≡ s
    → same_bytes (os.dir path) path ≡ same
    → (os.dir path ≢ path → Leads os (os.dir path) rest)
    → Leads os path (up_at os path rest s same)
up_at-Leads os path rest is_there same e f go = (deepest path, refl, stops path e)
up_at-Leads os path rest is_unknown same e f go = (unseen, refl, hidden path e)
up_at-Leads os path rest is_missing true e f go =
    (unseen, refl, at_top path e ((same_bytes_iff (os.dir path) path).0 f))
up_at-Leads os path rest is_missing false e f go =
    let differs = not_same (os.dir path) path f in above os path rest e differs (go differs)

shorter :
    (os : Os) (path : List ℕ)
    → IsUnix os
    → IsRooted path
    → os.dir path ≢ path
    → length (os.dir path) < length path
shorter os path unix rooted differs = elim (unix.dir_shrinks path rooted) [
  | inl same ↦ absurd (differs same)
  | inr less ↦ less
]

pub walk_up-Leads :
    (os : Os) (fuel : ℕ) (path : List ℕ)
    → IsUnix os
    → IsRooted path
    → length path < fuel
    → Leads os path (walk_up os fuel path)
unfolding walk_up
walk_up-Leads os zero path unix rooted h = absurd (omega arith)
walk_up-Leads os (suc fuel) path unix rooted h =
    up_at-Leads os path (walk_up os fuel (os.dir path)) (os.lstat path)
      (same_bytes (os.dir path) path) refl refl
      (λ differs.
        let less = shorter os path unix rooted differs in
        walk_up-Leads os fuel (os.dir path) unix (unix.dir_rooted path rooted)
          (omega (arith, less)))

-- The way up ends in one place.
pub Walked-unique :
    (os : Os) {path : List ℕ} {a b : Ancestor} → Walked os path a → Walked os path b → a ≡ b
Walked-unique os (stops p e) (stops _ f) = refl
Walked-unique os (stops p e) (hidden _ f) = absurd (ground (arith, e, f))
Walked-unique os (stops p e) (at_top _ f g) = absurd (ground (arith, e, f))
Walked-unique os (stops p e) (goes_up _ b f d w) = absurd (ground (arith, e, f))
Walked-unique os (hidden p e) (stops _ f) = absurd (ground (arith, e, f))
Walked-unique os (hidden p e) (hidden _ f) = refl
Walked-unique os (hidden p e) (at_top _ f g) = refl
Walked-unique os (hidden p e) (goes_up _ b f d w) = absurd (ground (arith, e, f))
Walked-unique os (at_top p e s) (stops _ f) = absurd (ground (arith, e, f))
Walked-unique os (at_top p e s) (hidden _ f) = refl
Walked-unique os (at_top p e s) (at_top _ f g) = refl
Walked-unique os (at_top p e s) (goes_up _ b f d w) = absurd (d s)
Walked-unique os (goes_up p a e d v) (stops _ f) = absurd (ground (arith, e, f))
Walked-unique os (goes_up p a e d v) (hidden _ f) = absurd (ground (arith, e, f))
Walked-unique os (goes_up p a e d v) (at_top _ f g) = absurd (d g)
Walked-unique os (goes_up p a e d v) (goes_up _ b f d' w) = Walked-unique os v w
