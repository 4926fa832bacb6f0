-- ===== src/Vfs/Confined.antt =====
-- What the two checks of ResolveSecure in internal/vfs/path.go let through.
use gosamba.Prelude.{
  ℕ, suc, ◌≡◌, ◌↔◌, refl, ap, sym, subst, ◌∙◌, inl, inr, ◌⊎◌, List, [], ◌∷◌, length, Option, some,
  arith,
}
use gosamba.Vfs.{
  PathError, Os, contained, resolve_below, resolve, trim_slash, to_slash, Ancestor, deepest, unseen,
  walk_up, check_real, check_ancestor, check_links, resolve_secure, EvalError,
}
use gosamba.Vfs.Under.{IsUnder, contained_iff}
use gosamba.Vfs.Walk.{IsRooted, IsUnix, Walked, Walked-unique, walk_up-Leads}

some_inj : {x y : PathError ⊎ List ℕ} → some x ≡ some y → x ≡ y
some_inj e = cc

abbrev links_at : Os → List ℕ → EvalError ⊎ List ℕ → Option (PathError ⊎ List ℕ)
links_at os lexical found = elim found [
  | inl e ↦ some (inr lexical)
  | inr canon ↦
      check_ancestor os (os.clean canon) lexical (walk_up os (suc (length lexical)) lexical)
]

abbrev secure_at : Os → List ℕ → PathError ⊎ List ℕ → Option (PathError ⊎ List ℕ)
secure_at os root found = elim found [
  | inl e ↦ some (inl e)
  | inr lexical ↦ check_links os root lexical
]

abbrev pub Answered : Option (PathError ⊎ List ℕ) → Type 0
Answered x = (answer : PathError ⊎ List ℕ) × (x ≡ some answer)

resolve_below-IsUnder :
    (os : Os) (root p lexical : List ℕ)
    → resolve_below os root p ≡ inr lexical
    → IsUnder root lexical
unfolding resolve_below
resolve_below-IsUnder os root [] lexical e = inl (ground (arith, e))
resolve_below-IsUnder os root (c ∷ p) lexical e =
    (contained_iff root lexical).0 (unfold contained in ground (arith, e))

resolved-IsRooted :
    (os : Os) (root p lexical : List ℕ)
    → IsUnix os
    → IsRooted root
    → resolve_below os root p ≡ inr lexical
    → IsRooted lexical
unfolding resolve_below
resolved-IsRooted os root [] lexical unix rooted e =
    let same : root ≡ lexical = ground (arith, e) in subst IsRooted same rooted
resolved-IsRooted os root (c ∷ p) lexical unix rooted e =
    let same : os.clean (os.join root (c ∷ p)) ≡ lexical = ground (arith, e) in
    subst IsRooted same
      (unix.clean_rooted (os.join root (c ∷ p)) (unix.join_rooted root (c ∷ p) rooted))

check_real_iff :
    (os : Os) (canon lexical q : List ℕ)
    → (check_real os canon lexical q ≡ inr lexical)
      ↔ ((real : List ℕ) × (os.eval_symlinks q ≡ inr real) × IsUnder canon (os.clean real))
unfolding check_real
check_real_iff os canon lexical q = at (os.eval_symlinks q) refl
  where
    at :
        (found : EvalError ⊎ List ℕ)
        → os.eval_symlinks q ≡ found
        → (check_real os canon lexical q ≡ inr lexical)
          ↔ ((real : List ℕ) × (os.eval_symlinks q ≡ inr real) × IsUnder canon (os.clean real))
    at (inl e) f = (λ g. absurd (ground (arith, f, g)), λ r. absurd (ground (arith, f, r.1)))
    at (inr real) f = (
      λ g. (real, f, (contained_iff canon (os.clean real)).0 (ground (arith, f, g))),
      λ r.
          let u = (contained_iff canon (os.clean r.0)).1 r.2 in
          let same : real ≡ r.0 = ground (arith, f, r.1) in ground (arith, f, same, u),
    )

check_real-same :
    (os : Os) (canon lexical q answer : List ℕ)
    → check_real os canon lexical q ≡ inr answer
    → answer ≡ lexical
unfolding check_real
check_real-same os canon lexical q answer h = at (os.eval_symlinks q) refl
  where
    at : (found : EvalError ⊎ List ℕ) → os.eval_symlinks q ≡ found → answer ≡ lexical
    at (inl e) f = absurd (ground (arith, f, h))
    at (inr real) f = ground (arith, f, h)

-- Why the link check lets a path through: the root does not resolve, nothing can be told of the paths
-- on the way up, or the deepest that exists resolves to a path under the resolved root.
pub data Admits (os : Os) (root lexical : List ℕ) : Type 0 where
  no_root : (e : EvalError) → os.eval_symlinks root ≡ inl e → Admits os root lexical
  untold :
      (canon : List ℕ)
      → os.eval_symlinks root ≡ inr canon
      → Walked os lexical unseen
      → Admits os root lexical
  confined :
      (canon q real : List ℕ)
      → os.eval_symlinks root ≡ inr canon
      → Walked os lexical (deepest q)
      → os.eval_symlinks q ≡ inr real
      → IsUnder (os.clean canon) (os.clean real)
      → Admits os root lexical

-- The answer is the path as it was asked for, and there is a reason.
abbrev Lets : Os → List ℕ → List ℕ → List ℕ → Type 0
Lets os root lexical answer = (answer ≡ lexical) × Admits os root lexical

some_path :
    {p q : List ℕ} → ◌≡◌ {A = Option (PathError ⊎ List ℕ)} (some (inr p)) (some (inr q)) → q ≡ p
some_path e = cc

inr_inj : {p q : List ℕ} → ◌≡◌ {A = EvalError ⊎ List ℕ} (inr p) (inr q) → p ≡ q
inr_inj e = cc

deepest_inj : {p q : List ℕ} → deepest p ≡ deepest q → p ≡ q
deepest_inj e = cc

Admits-real :
    (os : Os) (root lexical canon q : List ℕ)
    → os.eval_symlinks root ≡ inr canon
    → Walked os lexical (deepest q)
    → Admits os root lexical
    → (real : List ℕ) × (os.eval_symlinks q ≡ inr real) × IsUnder (os.clean canon) (os.clean real)
Admits-real os root lexical canon q f w (no_root e g) = absurd (ground (arith, f, g))
Admits-real os root lexical canon q f w (untold c g v) =
    let bad : deepest q ≡ unseen = Walked-unique os w v in cc
Admits-real os root lexical canon q f w (confined c q' real g v e u) =
    let one : c ≡ canon = inr_inj (sym g ∙ f) in
    let two : q' ≡ q = deepest_inj (Walked-unique os v w) in
    (
      real,
      ap os.eval_symlinks (sym two) ∙ e,
      subst (λ x. IsUnder (os.clean x) (os.clean real)) one u,
    )

ancestor_iff :
    (os : Os) (root lexical canon answer : List ℕ) (a : Ancestor)
    → os.eval_symlinks root ≡ inr canon
    → Walked os lexical a
    → (check_ancestor os (os.clean canon) lexical (some a) ≡ some (inr answer))
      ↔ Lets os root lexical answer
ancestor_iff os root lexical canon answer unseen f w =
    (λ h. (some_path h, untold canon f w), λ l. ap (λ p. some (inr p)) (sym l.0))
ancestor_iff os root lexical canon answer (deepest q) f w =
    let i = check_real_iff os (os.clean canon) lexical q in
    (
      λ h.
          let at = some_inj h in
          let same = check_real-same os (os.clean canon) lexical q answer at in
          let (real, e, u) = i.0 (at ∙ ap inr same) in (same, confined canon q real f w e u),
      λ l.
          let at = i.1 (Admits-real os root lexical canon q f w l.1) in
          ap some (at ∙ ap inr (sym l.0)),
    )

links_iff :
    (os : Os) (root lexical answer : List ℕ) (found : EvalError ⊎ List ℕ)
    → IsUnix os
    → IsRooted lexical
    → os.eval_symlinks root ≡ found
    → (links_at os lexical found ≡ some (inr answer)) ↔ Lets os root lexical answer
links_iff os root lexical answer (inl e) unix rooted f =
    (λ h. (some_path h, no_root e f), λ l. ap (λ p. some (inr p)) (sym l.0))
links_iff os root lexical answer (inr canon) unix rooted f =
    let (a, run, w) = walk_up-Leads os (suc (length lexical)) lexical unix rooted (omega arith) in
    subst
      (λ x.
        (check_ancestor os (os.clean canon) lexical x ≡ some (inr answer))
        ↔ Lets os root lexical answer)
      (sym run) (ancestor_iff os root lexical canon answer a f w)

-- What is known of an answer that lets a path through.
abbrev pub Secured : Os → List ℕ → List ℕ → List ℕ → Type 0
Secured os root smb_path answer =
    (resolve os root smb_path ≡ inr answer) × IsUnder (os.clean root) answer × Admits os root answer

secure_iff :
    (os : Os) (root smb_path answer : List ℕ) (found : PathError ⊎ List ℕ)
    → IsUnix os
    → IsRooted root
    → resolve os root smb_path ≡ found
    → (secure_at os root found ≡ some (inr answer)) ↔ Secured os root smb_path answer
unfolding check_links
secure_iff os root smb_path answer (inl e) unix rooted f =
    (λ h. absurd (ground (arith, h)), λ s. absurd (ground (arith, f, s.0)))
secure_iff os root smb_path answer (inr lexical) unix rooted f =
    unfold resolve in
    let below = trim_slash (to_slash smb_path) in
    let rooted_ =
      resolved-IsRooted os (os.clean root) below lexical unix (unix.clean_rooted root rooted) f in
    let under = resolve_below-IsUnder os (os.clean root) below lexical f in
    let i = links_iff os root lexical answer (os.eval_symlinks root) unix rooted_ refl in
    (
      λ h.
          let (same, admits) = i.0 h in
          subst (Secured os root smb_path) (sym same) (f, under, admits),
      λ s.
          let same : answer ≡ lexical = ground (arith, f, s.0) in
          i.1 (same, subst (Admits os root) same s.2),
    )

-- Where the root of the share is absolute and path/filepath keeps to its documentation on absolute
-- paths, the check of a path answers with a path exactly if that is the one the name stands for below
-- the root, it lies under the cleaned root, and either the root does not resolve, or the way up from
-- it ends at another error or at the top, or the deepest path on it that exists resolves to one under
-- the resolved root.
pub resolve_secure_iff :
    (os : Os) (root smb_path answer : List ℕ)
    → IsUnix os
    → IsRooted root
    → (resolve_secure os root smb_path ≡ some (inr answer)) ↔ Secured os root smb_path answer
unfolding resolve_secure
resolve_secure_iff os root smb_path answer unix rooted =
    secure_iff os root smb_path answer (resolve os root smb_path) unix rooted refl

ancestor-Answered :
    (os : Os) (canon lexical : List ℕ) (a : Ancestor)
    → Answered (check_ancestor os canon lexical (some a))
ancestor-Answered os canon lexical unseen = (inr lexical, refl)
ancestor-Answered os canon lexical (deepest q) = (check_real os canon lexical q, refl)

links-Answered :
    (os : Os) (lexical : List ℕ) (found : EvalError ⊎ List ℕ)
    → IsUnix os
    → IsRooted lexical
    → Answered (links_at os lexical found)
links-Answered os lexical (inl e) unix rooted = (inr lexical, refl)
links-Answered os lexical (inr canon) unix rooted =
    let (a, run, w) = walk_up-Leads os (suc (length lexical)) lexical unix rooted (omega arith) in
    subst (λ x. Answered (check_ancestor os (os.clean canon) lexical x)) (sym run)
      (ancestor-Answered os (os.clean canon) lexical a)

secure-Answered :
    (os : Os) (root smb_path : List ℕ) (found : PathError ⊎ List ℕ)
    → IsUnix os
    → IsRooted root
    → resolve os root smb_path ≡ found
    → Answered (secure_at os root found)
unfolding check_links resolve
secure-Answered os root smb_path (inl e) unix rooted f = (inl e, refl)
secure-Answered os root smb_path (inr lexical) unix rooted f =
    links-Answered os lexical (os.eval_symlinks root) unix (
      resolved-IsRooted os (os.clean root) (trim_slash (to_slash smb_path)) lexical unix
        (unix.clean_rooted root rooted) f)

-- Where the root of the share is absolute and path/filepath keeps to its documentation on absolute
-- paths, the check of a path ends with an answer.
pub resolve_secure-Answered :
    (os : Os) (root smb_path : List ℕ)
    → IsUnix os
    → IsRooted root
    → Answered (resolve_secure os root smb_path)
unfolding resolve_secure
resolve_secure-Answered os root smb_path unix rooted =
    secure-Answered os root smb_path (resolve os root smb_path) unix rooted refl
