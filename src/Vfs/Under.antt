-- ===== src/Vfs/Under.antt =====
-- The prefix test on paths.
use gosamba.Prelude.{ℕ, ◌≡◌, ◌↔◌, refl, inl, inr, ◌⊎◌, true, List, [], ◌∷◌, ◌++◌, arith, Bool-cases}
use gosamba.Prelude.Assoc.{same_bytes, same_bytes_iff}
use gosamba.Vfs.{separator, has_prefix, contained}

-- The root itself, or a path behind the root and a separator.
abbrev pub IsUnder : List ℕ → List ℕ → Type 0
IsUnder root p = (p ≡ root) ⊎ ((rest : List ℕ) × (p ≡ (root ++ (separator ∷ [])) ++ rest))

has_prefix_iff : (p q : List ℕ) → (has_prefix p q ≡ true) ↔ ((rest : List ℕ) × (p ≡ q ++ rest))
has_prefix_iff p [] = (λ e. (p, refl), λ r. refl)
has_prefix_iff [] (x ∷ q) = (λ e. absurd (ground arith), λ r. absurd (ground (arith, r.1)))
has_prefix_iff (c ∷ p) (x ∷ q) =
    let i = has_prefix_iff p q in
    (
      λ e. let (rest, f) = i.0 (ground arith) in (rest, ground (arith, f)),
      λ r.
          let tail : p ≡ q ++ r.0 = ground (arith, r.1) in
          let head : c ≡ x = ground (arith, r.1) in
          let behind = i.1 (r.0, tail) in ground (arith, head, behind),
    )

pub contained_iff : (root p : List ℕ) → (contained root p ≡ true) ↔ IsUnder root p
unfolding contained
contained_iff root p =
    let same = same_bytes_iff p root in
    let behind = has_prefix_iff p (root ++ (separator ∷ [])) in
    (
      λ e. elim (Bool-cases (same_bytes p root)) [
        | inl s ↦ inl (same.0 s)
        | inr s ↦ inr (behind.0 (ground (arith, s)))
      ],
      λ u. elim u [
        | inl at ↦ let s = same.1 at in ground (arith, s)
        | inr below ↦ let s = behind.1 below in ground (arith, s)
      ],
    )
