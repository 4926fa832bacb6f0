-- ===== src/Negotiate/Best.antt =====
-- The two scans of `Select`: the server's preference decides.
use gosamba.Prelude.{
  ℕ, ◌≡◌, ◌≢◌, ◌⊎◌, refl, true, false, List, [], ◌∷◌, none, some, inl, inr, arith, Bool-cases,
}
use gosamba.Negotiate.{offers, pick_dialect, pick}

-- `d` is the first of the server's list that the client offers.
abbrev pub Best : List ℕ → List ℕ → ℕ → Type 0
Best [] offered d = ⊥
Best (s ∷ ss) offered d =
    ((offers s offered ≡ true) × (d ≡ s)) ⊎ ((offers s offered ≡ false) × Best ss offered d)

-- No one of the server's list is offered.
abbrev pub NoneOffered : List ℕ → List ℕ → Type 0
NoneOffered [] offered = Unit
NoneOffered (s ∷ ss) offered = (offers s offered ≡ false) × NoneOffered ss offered

pub pick_dialect-Best :
    (ds offered : List ℕ) (d : ℕ) → pick_dialect ds offered ≡ some d → Best ds offered d
unfolding pick_dialect
pick_dialect-Best [] offered d e = absurd (ground arith)
pick_dialect-Best (s ∷ ss) offered d e = elim (Bool-cases (offers s offered)) [
  | inl h ↦ inl (h, ground arith)
  | inr h ↦ inr (h, pick_dialect-Best ss offered d (ground arith))
]

pub pick_dialect-NoneOffered :
    (ds offered : List ℕ) → pick_dialect ds offered ≡ none → NoneOffered ds offered
unfolding pick_dialect
pick_dialect-NoneOffered [] offered e = tt
pick_dialect-NoneOffered (s ∷ ss) offered e = elim (Bool-cases (offers s offered)) [
  | inl h ↦ absurd (ground arith)
  | inr h ↦ (h, pick_dialect-NoneOffered ss offered (ground arith))
]

-- The entries of the server's list are not 0, the value for "nothing chosen".
abbrev pub Positive : List ℕ → Type 0
Positive [] = Unit
Positive (s ∷ ss) = (s ≢ 0) × Positive ss

pub pick-Best :
    (ss offered : List ℕ) → Positive ss → pick ss offered ≢ 0 → Best ss offered (pick ss offered)
unfolding pick
pick-Best [] offered p n = absurd (n refl)
pick-Best (s ∷ ss) offered p n = elim (Bool-cases (offers s offered)) [
  | inl h ↦ inl (h, ground arith)
  | inr h ↦
      let e : pick (s ∷ ss) offered ≡ pick ss offered = ground arith in
      inr (h, rw e (pick-Best ss offered p.1 (ground arith)))
]

pub pick-NoneOffered :
    (ss offered : List ℕ) → Positive ss → pick ss offered ≡ 0 → NoneOffered ss offered
unfolding pick
pick-NoneOffered [] offered p e = tt
pick-NoneOffered (s ∷ ss) offered p e = elim (Bool-cases (offers s offered)) [
  | inl h ↦ absurd (ground arith)
  | inr h ↦ (h, pick-NoneOffered ss offered p.1 (ground arith))
]
