-- ===== src/Vfs.antt =====
-- The confinement of client paths to the root of a share: internal/vfs/path.go. A path is the list of
-- its bytes; path/filepath and the file system are arguments.
pub mod Under
pub mod Walk
pub mod Confined
pub mod Followed
use gosamba.Prelude.{
  ℕ, zero, suc, Bool, true, false, not, ◌&&◌, ◌||◌, ◌==◌, if◌then◌else◌, List, [], ◌∷◌, ◌++◌,
  length, map, Option, none, some, ◌⊎◌, inl, inr,
}
use gosamba.Prelude.Assoc.{same_bytes}

-- `ErrTraversal` and `ErrDanglingLink`
pub data PathError : Type 0 where
  err_traversal err_dangling_link : PathError

-- What `os.Lstat` answers: the file is there, it does not exist, or another error.
pub data Stat : Type 0 where
  is_there is_missing is_unknown : Stat

-- The errors of `filepath.EvalSymlinks`: those that are `os.ErrNotExist`, and the others.
pub data EvalError : Type 0 where
  not_exist eval_failed : EvalError

-- `filepath.Clean`, `Join`, `Dir` and `EvalSymlinks`, and `os.Lstat`, at one state of the file system.
pub record Os : Type 0 where
  pub clean : List ℕ → List ℕ
  pub join : List ℕ → List ℕ → List ℕ
  pub dir : List ℕ → List ℕ
  pub eval_symlinks : List ℕ → EvalError ⊎ List ℕ
  pub lstat : List ℕ → Stat

abbrev pub separator : ℕ
separator = 0x2F

-- `strings.ReplaceAll(smbPath, "\\", "/")`
abbrev pub to_slash : List ℕ → List ℕ
to_slash = map (λ c. if c == 0x5C then separator else c)

-- `strings.TrimPrefix(p, "/")`
abbrev pub trim_slash : List ℕ → List ℕ
trim_slash [] = []
trim_slash (c ∷ p) = if c == separator then p else c ∷ p

-- `strings.HasPrefix`
abbrev pub has_prefix : List ℕ → List ℕ → Bool
has_prefix p [] = true
has_prefix [] (x ∷ q) = false
has_prefix (c ∷ p) (x ∷ q) = c == x && has_prefix p q

unfoldable pub contained : List ℕ → List ℕ → Bool
contained canon_root p = same_bytes p canon_root || has_prefix p (canon_root ++ (separator ∷ []))

-- The path of a name below a cleaned root.
unfoldable pub resolve_below : Os → List ℕ → List ℕ → PathError ⊎ List ℕ
resolve_below os root [] = inr root
resolve_below os root (c ∷ p) =
    let full = os.clean (os.join root (c ∷ p)) in
    if not (same_bytes full root) && not (has_prefix full (root ++ (separator ∷ [])))
    then inl err_traversal
    else inr full

unfoldable pub resolve : Os → List ℕ → List ℕ → PathError ⊎ List ℕ
resolve os root smb_path = resolve_below os (os.clean root) (trim_slash (to_slash smb_path))

-- The walk up from a path: the deepest path that exists, or none that can be told.
pub data Ancestor : Type 0 where
  deepest : List ℕ → Ancestor
  unseen : Ancestor

-- `none` where the fuel runs out.
unfoldable pub walk_up : Os → ℕ → List ℕ → Option Ancestor
walk_up os zero path = none
walk_up os (suc fuel) path =
    let rest = walk_up os fuel (os.dir path) in
    elim (os.lstat path) [
      | is_there ↦ some (deepest path)
      | is_unknown ↦ some unseen
      | is_missing ↦ if same_bytes (os.dir path) path then some unseen else rest
    ]

-- A path that does not resolve: a dangling link where its directory lies under the root.
unfoldable pub refuse_broken : Os → List ℕ → List ℕ → EvalError → PathError
refuse_broken os canon_root check_path eval_failed = err_traversal
refuse_broken os canon_root check_path not_exist = elim (os.eval_symlinks (os.dir check_path)) [
  | inl e ↦ err_traversal
  | inr parent ↦ if contained canon_root (os.clean parent) then err_dangling_link else err_traversal
]

-- The checks on the deepest path that exists.
unfoldable pub check_real : Os → List ℕ → List ℕ → List ℕ → PathError ⊎ List ℕ
check_real os canon_root lexical check_path = elim (os.eval_symlinks check_path) [
  | inl e ↦ inl (refuse_broken os canon_root check_path e)
  | inr real ↦ if not (contained canon_root (os.clean real)) then inl err_traversal else inr lexical
]

abbrev pub check_ancestor : Os → List ℕ → List ℕ → Option Ancestor → Option (PathError ⊎ List ℕ)
check_ancestor os canon_root lexical none = none
check_ancestor os canon_root lexical (some unseen) = some (inr lexical)
check_ancestor os canon_root lexical (some (deepest path)) =
    some (check_real os canon_root lexical path)

-- Behind the lexical check.
unfoldable pub check_links : Os → List ℕ → List ℕ → Option (PathError ⊎ List ℕ)
check_links os root lexical = elim (os.eval_symlinks root) [
  | inl e ↦ some (inr lexical)
  | inr canon_root ↦
      check_ancestor os (os.clean canon_root) lexical (walk_up os (suc (length lexical)) lexical)
]

-- `ResolveSecure`, for an absolute root: the directory name of an absolute path is the path itself or
-- shorter, which bounds the walk by the length.
unfoldable pub resolve_secure : Os → List ℕ → List ℕ → Option (PathError ⊎ List ℕ)
resolve_secure os root smb_path = elim (resolve os root smb_path) [
  | inl e ↦ some (inl e)
  | inr lexical ↦ check_links os root lexical
]

unfoldable pub resolve_link : Os → List ℕ → List ℕ → PathError ⊎ List ℕ
resolve_link os root path = elim (os.eval_symlinks (os.clean root)) [
  | inl e ↦ inl err_traversal
  | inr canon_root ↦ elim (os.eval_symlinks path) [
    | inl not_exist ↦ inl err_dangling_link
    | inl eval_failed ↦ inl err_traversal
    | inr target ↦
        if not (contained (os.clean canon_root) (os.clean target))
        then inl err_traversal
        else inr (os.clean target)
  ]
]
