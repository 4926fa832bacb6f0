-- ===== src/Examples/Paths.antt =====
-- A new file below the root /s of a share, in a file system with that directory alone.
use gosamba.Prelude.{
  ℕ, ◌≡◌, ◌↔◌, ◌<◌, refl, inl, inr, ◌⊎◌, if◌then◌else◌, List, [], ◌∷◌, ◌++◌, length, some, arith,
}
use gosamba.Prelude.Assoc.{same_bytes}
use gosamba.Vfs.{is_there, is_missing, Os, separator, resolve, resolve_below, resolve_secure}
use gosamba.Vfs.Walk.{IsRooted, IsUnix}
use gosamba.Vfs.Confined.{Secured, Answered, resolve_secure_iff, resolve_secure-Answered}

abbrev root : List ℕ
root = separator ∷ 0x73 ∷ []

-- `\f`
abbrev asked : List ℕ
asked = 0x5C ∷ 0x66 ∷ []

abbrev file : List ℕ
file = separator ∷ 0x73 ∷ separator ∷ 0x66 ∷ []

abbrev short : List ℕ → List ℕ
short [] = []
short (a ∷ []) = a ∷ []
short (a ∷ b ∷ p) = a ∷ b ∷ []

abbrev os : Os
os = record {
  clean = λ p. p;
  join = λ r p. r ++ (separator ∷ p);
  dir = short;
  eval_symlinks = inr;
  lstat = λ p. if same_bytes p root then is_there else is_missing;
}

short-IsRooted : (p : List ℕ) → IsRooted p → IsRooted (short p)
short-IsRooted [] r = r
short-IsRooted (a ∷ []) r = r
short-IsRooted (a ∷ b ∷ p) r = r

append-IsRooted : (root p : List ℕ) → IsRooted root → IsRooted (root ++ (separator ∷ p))
append-IsRooted [] p r = elim r [ ]
append-IsRooted (c ∷ q) p r = r

short-shrinks : (p : List ℕ) → IsRooted p → (short p ≡ p) ⊎ (length (short p) < length p)
short-shrinks [] r = inl refl
short-shrinks (a ∷ []) r = inl refl
short-shrinks (a ∷ b ∷ []) r = inl refl
short-shrinks (a ∷ b ∷ c ∷ p) r = inr (omega arith)

os-IsUnix : IsUnix os
os-IsUnix = record {
  clean_rooted = λ p r. r;
  join_rooted = append-IsRooted;
  dir_rooted = short-IsRooted;
  dir_shrinks = short-shrinks;
}

asked_passes : resolve_secure os root asked ≡ some (inr file)
unfolding resolve_secure resolve resolve_below gosamba.Vfs.check_links gosamba.Vfs.walk_up
    gosamba.Vfs.check_real gosamba.Vfs.contained
asked_passes = refl

resolve_secure_iff_example :
    (resolve_secure os root asked ≡ some (inr file)) ↔ Secured os root asked file
resolve_secure_iff_example = resolve_secure_iff os root asked file os-IsUnix refl

resolve_secure-Answered_example : Answered (resolve_secure os root asked)
resolve_secure-Answered_example = resolve_secure-Answered os root asked os-IsUnix refl
