-- ===== src/Prelude/Lists.antt =====
-- Lists measured and indexed by native numbers, under the library's names, with Boolean tests.
use Prim.Native.Nat.{ℕ, zero, suc, ◌+◌, ◌-◌, ◌≤◌, min}
use mathlib.Core.Path.{◌≡◌, refl, ap, ◌∙◌}
use mathlib.Core.Logic.{◌⊎◌, inl, inr}
use mathlib.Core.List.{List, [], ◌∷◌, ◌++◌}
use mathlib.Core.Bool.{Bool, true, false, ◌||◌}
use native.Mathlib.Omega.{arith}
use gosamba.Prelude.Tests.{if◌then◌else◌, Bool-cases}

module _ {ℓ} {A : Type ℓ} where
  abbrev pub length : List A → ℕ
  length [] = 0
  length (x ∷ xs) = suc (length xs)

  abbrev pub take : ℕ → List A → List A
  take zero xs = []
  take (suc n) [] = []
  take (suc n) (x ∷ xs) = x ∷ take n xs

  abbrev pub drop : ℕ → List A → List A
  drop zero xs = xs
  drop (suc n) [] = []
  drop (suc n) (x ∷ xs) = drop n xs

  abbrev pub replicate : ℕ → A → List A
  replicate zero a = []
  replicate (suc n) a = a ∷ replicate n a

  -- The elements that pass a Boolean test, in order.
  abbrev pub filter : (A → Bool) → List A → List A
  filter p [] = []
  filter p (x ∷ xs) = if p x then x ∷ filter p xs else filter p xs

  -- How many elements pass the test.
  abbrev pub count : (A → Bool) → List A → ℕ
  count p [] = 0
  count p (x ∷ xs) = if p x then suc (count p xs) else count p xs

  -- Whether some element passes the test.
  abbrev pub any : (A → Bool) → List A → Bool
  any p [] = false
  any p (x ∷ xs) = p x || any p xs

  -- Every element has the property.
  abbrev pub All {κ} : (A → Type κ) → List A → Type κ
  All P [] = Unit
  All P (x ∷ xs) = P x × All P xs

  -- Some element has it; the element's position is kept.
  abbrev pub Some : (A → Type 0) → List A → Type 0
  Some P [] = ⊥
  Some P (x ∷ xs) = P x ⊎ Some P xs

module _ {ℓ} {A : Type ℓ} where
  pub length-append : (xs ys : List A) → length (xs ++ ys) ≡ length xs + length ys
  length-append [] ys = omega arith
  length-append (x ∷ xs) ys = omega (arith, length-append xs ys)

  pub length-take : (n : ℕ) (xs : List A) → length (take n xs) ≡ min n (length xs)
  length-take zero xs = omega arith
  length-take (suc n) [] = omega arith
  length-take (suc n) (x ∷ xs) = omega (arith, length-take n xs)

  pub length-drop : (n : ℕ) (xs : List A) → length (drop n xs) ≡ length xs - n
  length-drop zero xs = omega arith
  length-drop (suc n) [] = omega arith
  length-drop (suc n) (x ∷ xs) = omega (arith, length-drop n xs)

  pub length-replicate : (n : ℕ) (a : A) → length (replicate n a) ≡ n
  length-replicate zero a = refl
  length-replicate (suc n) a = ap suc (length-replicate n a)

  pub take-append-drop : (n : ℕ) (xs : List A) → take n xs ++ drop n xs ≡ xs
  take-append-drop zero xs = refl
  take-append-drop (suc n) [] = refl
  take-append-drop (suc n) (x ∷ xs) = ap (◌∷◌ x) (take-append-drop n xs)

  pub take-length_append : (n : ℕ) (xs ys : List A) → length xs ≡ n → take n (xs ++ ys) ≡ xs
  take-length_append zero [] ys h = refl
  take-length_append zero (x ∷ xs) ys h = absurd (omega arith)
  take-length_append (suc n) [] ys h = absurd (omega arith)
  take-length_append (suc n) (x ∷ xs) ys h = ap (◌∷◌ x) (take-length_append n xs ys (omega arith))

  pub drop-length_append : (n : ℕ) (xs ys : List A) → length xs ≡ n → drop n (xs ++ ys) ≡ ys
  drop-length_append zero [] ys h = refl
  drop-length_append zero (x ∷ xs) ys h = absurd (omega arith)
  drop-length_append (suc n) [] ys h = absurd (omega arith)
  drop-length_append (suc n) (x ∷ xs) ys h = drop-length_append n xs ys (omega arith)

  pub length-filter : (p : A → Bool) (xs : List A) → length (filter p xs) ≡ count p xs
  length-filter p [] = refl
  length-filter p (x ∷ xs) = ground (arith, length-filter p xs)

  pub count-filter_le : (p q : A → Bool) (xs : List A) → count q (filter p xs) ≤ count q xs
  count-filter_le p q [] = omega arith
  count-filter_le p q (x ∷ xs) = ground (arith, count-filter_le p q xs)

  pub count-le-length : (p : A → Bool) (xs : List A) → count p xs ≤ length xs
  count-le-length p [] = omega arith
  count-le-length p (x ∷ xs) = ground (arith, count-le-length p xs)

  pub count-append : (p : A → Bool) (xs ys : List A) → count p (xs ++ ys) ≡ count p xs + count p ys
  count-append p [] ys = omega arith
  count-append p (x ∷ xs) ys = ground (arith, count-append p xs ys)

  pub length-filter_le : (p : A → Bool) (xs : List A) → length (filter p xs) ≤ length xs
  length-filter_le p [] = omega arith
  length-filter_le p (x ∷ xs) = ground (arith, length-filter_le p xs)

  pub filter-append :
      (p : A → Bool) (xs ys : List A) → filter p (xs ++ ys) ≡ filter p xs ++ filter p ys
  filter-append p [] ys = refl
  filter-append p (x ∷ xs) ys = ground (arith, filter-append p xs ys)

  pub any-append : (p : A → Bool) (xs ys : List A) → any p (xs ++ ys) ≡ (any p xs || any p ys)
  any-append p [] ys = refl
  any-append p (x ∷ xs) ys = ground (arith, any-append p xs ys)

module _ {ℓ κ} {A : Type ℓ} (P : A → Type κ) where
  pub All-append : (xs ys : List A) → All P xs → All P ys → All P (xs ++ ys)
  All-append [] ys hx hy = hy
  All-append (x ∷ xs) ys hx hy = (hx.0, All-append xs ys hx.1 hy)

  pub All-filter : (p : A → Bool) (xs : List A) → All P xs → All P (filter p xs)
  All-filter p [] h = tt
  All-filter p (x ∷ xs) h =
      elim (p x) as (λ b. All P (if b then x ∷ filter p xs else filter p xs)) [
        | true ↦ (h.0, All-filter p xs h.1)
        | false ↦ All-filter p xs h.1
      ]

-- No element stands in the relation to a later one.
abbrev pub Apart {ℓ} : {A : Type ℓ} → (A → A → Bool) → List A → Type 0
Apart rel [] = Unit
Apart rel (x ∷ xs) = All (λ y. rel x y ≡ false) xs × Apart rel xs

module _ {ℓ} {A : Type ℓ} (rel : A → A → Bool) where
  pub Apart-filter : (p : A → Bool) (xs : List A) → Apart rel xs → Apart rel (filter p xs)
  Apart-filter p [] h = tt
  Apart-filter p (x ∷ xs) h =
      elim (p x) as (λ b. Apart rel (if b then x ∷ filter p xs else filter p xs)) [
        | true ↦ (All-filter (λ y. rel x y ≡ false) p xs h.0, Apart-filter p xs h.1)
        | false ↦ Apart-filter p xs h.1
      ]

  -- Appending keeps a symmetric relation apart.
  pub Apart-append :
      ((a b : A) → rel a b ≡ rel b a)
      → (a : A) (xs : List A) → Apart rel xs
      → All (λ y. rel a y ≡ false) xs
      → Apart rel (xs ++ a ∷ [])
  Apart-append symm a [] x h = (tt, tt)
  Apart-append symm a (r ∷ xs) x h = (
    All-append (λ y. rel r y ≡ false) xs (a ∷ []) x.0 (symm r a ∙ h.0, tt),
    Apart-append symm a xs x.1 h.1,
  )

module _ {A : Type 0} where
  -- The element stands in the list.
  abbrev pub Elem : A → List A → Type 0
  Elem a = Some (λ x. x ≡ a)

  pub All-Elem {κ} : (P : A → Type κ) (a : A) (xs : List A) → All P xs → Elem a xs → P a
  All-Elem P a [] h i = elim i [ ]
  All-Elem P a (x ∷ xs) h (inl e) = rw (← e) h.0
  All-Elem P a (x ∷ xs) h (inr i) = All-Elem P a xs h.1 i

  pub All-of_Elem {κ} : (P : A → Type κ) (xs : List A) → ((a : A) → Elem a xs → P a) → All P xs
  All-of_Elem P [] h = tt
  All-of_Elem P (x ∷ xs) h = (h x (inl refl), All-of_Elem P xs (λ a i. h a (inr i)))

  pub Elem-filter_inv :
      (p : A → Bool) (a : A) (xs : List A) → Elem a (filter p xs) → Elem a xs × (p a ≡ true)
  Elem-filter_inv p a [] i = elim i [ ]
  Elem-filter_inv p a (x ∷ xs) i = elim (Bool-cases (p x)) [
    | inl e ↦ elim (rw e at i) [
      | inl same ↦ (inl same, rw (← same) e)
      | inr more ↦ let (i', h) = Elem-filter_inv p a xs more in (inr i', h)
    ]
    | inr e ↦ let (i', h) = Elem-filter_inv p a xs (rw e at i) in (inr i', h)
  ]

  pub Elem-append_inv : (a : A) (xs ys : List A) → Elem a (xs ++ ys) → Elem a xs ⊎ Elem a ys
  Elem-append_inv a [] ys i = inr i
  Elem-append_inv a (x ∷ xs) ys (inl e) = inl (inl e)
  Elem-append_inv a (x ∷ xs) ys (inr i) = elim (Elem-append_inv a xs ys i) [
    | inl j ↦ inl (inr j)
    | inr j ↦ inr j
  ]

  pub Elem-of_any :
      (p : A → Bool) (xs : List A) → any p xs ≡ true → (a : A) × Elem a xs × (p a ≡ true)
  Elem-of_any p [] h = cc
  Elem-of_any p (x ∷ xs) h = elim (Bool-cases (p x)) [
    | inl e ↦ (x, inl refl, e)
    | inr e ↦ let (a, i, k) = Elem-of_any p xs (rw e at h) in (a, inr i, k)
  ]

  pub any_of_Elem : (p : A → Bool) (a : A) (xs : List A) → Elem a xs → p a ≡ true → any p xs ≡ true
  any_of_Elem p a [] i h = elim i [ ]
  any_of_Elem p a (x ∷ xs) (inl e) h = rw (e, h)
  any_of_Elem p a (x ∷ xs) (inr i) h = ground (arith, any_of_Elem p a xs i h)

  pub All-of_any-false : (p : A → Bool) (xs : List A) → any p xs ≡ false → All (λ x. p x ≡ false) xs
  All-of_any-false p [] h = tt
  All-of_any-false p (x ∷ xs) h = (ground arith, All-of_any-false p xs (ground arith))

  pub Some-of_any : (p : A → Bool) (xs : List A) → any p xs ≡ true → Some (λ x. p x ≡ true) xs
  Some-of_any p [] h = cc
  Some-of_any p (x ∷ xs) h = elim (Bool-cases (p x)) [
    | inl e ↦ inl e
    | inr e ↦ inr (Some-of_any p xs (rw e at h))
  ]
