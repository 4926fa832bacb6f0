-- ===== src/Vfs/Followed.antt =====
-- Which links ResolveLink of internal/vfs/path.go follows.
use gosamba.Prelude.{ℕ, ◌≡◌, ◌↔◌, refl, inl, inr, ◌⊎◌, true, List, arith}
use gosamba.Vfs.{Os, contained, resolve_link, EvalError, not_exist, eval_failed}
use gosamba.Vfs.Under.{IsUnder, contained_iff}

-- The target of a link that may be followed.
abbrev pub Followed : Os → List ℕ → List ℕ → List ℕ → Type 0
Followed os root path answer =
    (canon : List ℕ) × (target : List ℕ) × (os.eval_symlinks (os.clean root) ≡ inr canon)
    × (os.eval_symlinks path ≡ inr target)
    × (answer ≡ os.clean target)
    × IsUnder (os.clean canon) answer

resolve_link-Followed :
    (os : Os) (root path answer : List ℕ) (a b : EvalError ⊎ List ℕ)
    → os.eval_symlinks (os.clean root) ≡ a
    → os.eval_symlinks path ≡ b
    → (resolve_link os root path ≡ inr answer) ↔ Followed os root path answer
unfolding resolve_link
resolve_link-Followed os root path answer (inl e) b f g =
    (λ h. absurd (ground (arith, f, h)), λ r. absurd (ground (arith, f, r.2)))
resolve_link-Followed os root path answer (inr canon) (inl not_exist) f g =
    (λ h. absurd (ground (arith, f, g, h)), λ r. absurd (ground (arith, g, r.3)))
resolve_link-Followed os root path answer (inr canon) (inl eval_failed) f g =
    (λ h. absurd (ground (arith, f, g, h)), λ r. absurd (ground (arith, g, r.3)))
resolve_link-Followed os root path answer (inr canon) (inr target) f g = (
  λ h.
      let at : answer ≡ os.clean target = ground (arith, f, g, h) in
      let u : contained (os.clean canon) answer ≡ true = ground (arith, f, g, h) in
      (canon, target, f, g, at, (contained_iff (os.clean canon) answer).0 u),
  λ r.
      let u = (contained_iff (os.clean r.0) answer).1 r.5 in
      let same : canon ≡ r.0 = ground (arith, f, r.2) in
      let goal : target ≡ r.1 = ground (arith, g, r.3) in ground (arith, f, g, same, goal, u, r.4),
)

-- A link is followed exactly if the root and the link resolve and the target, which is the answer,
-- lies under the resolved root.
pub resolve_link_iff :
    (os : Os) (root path answer : List ℕ)
    → (resolve_link os root path ≡ inr answer) ↔ Followed os root path answer
resolve_link_iff os root path answer =
    resolve_link-Followed os root path answer (os.eval_symlinks (os.clean root))
      (os.eval_symlinks path) refl refl
