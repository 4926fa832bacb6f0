-- ===== src/Prelude/Assoc.antt =====
-- Go's `map[K]V` as an association list: lookup, assignment, `delete`, and their laws.
use Prim.Native.Nat.{ℕ, ◌+◌}
use mathlib.Core.Path.{◌≡◌, refl}
use mathlib.Core.Logic.{◌↔◌, inl, inr}
use mathlib.Core.List.{List, [], ◌∷◌}
use mathlib.Core.Bool.{Bool, true, false, ◌&&◌}
use mathlib.Core.Option.{Option, none, some}
use native.Mathlib.Omega.{arith}
use gosamba.Prelude.Tests.{if◌then◌else◌, Bool-cases, ◌==◌, ==_iff, ==_refl}

-- Keys are compared by `==`.
pub record Key {ℓ} (K : Type ℓ) : Type ℓ where
  pub beq : K → K → Bool
  pub beq_iff : (a b : K) → (beq a b ≡ true) ↔ (a ≡ b)

abbrev pub Map {ℓ κ} : Type ℓ → Type κ → Type (ℓ ⊔ κ)
Map K V = List (K × V)

instance abbrev pub nat_key : Key ℕ
nat_key = record { beq = ◌==◌; beq_iff = ==_iff }

-- Byte strings and arrays.
abbrev pub same_bytes : List ℕ → List ℕ → Bool
same_bytes [] [] = true
same_bytes [] (y ∷ ys) = false
same_bytes (x ∷ xs) [] = false
same_bytes (x ∷ xs) (y ∷ ys) = x == y && same_bytes xs ys

pub same_bytes_iff : (xs ys : List ℕ) → (same_bytes xs ys ≡ true) ↔ (xs ≡ ys)
same_bytes_iff xs ys = (there xs ys, λ e. rw e (back ys))
  where
    there : (xs ys : List ℕ) → same_bytes xs ys ≡ true → xs ≡ ys
    there [] [] h = refl
    there [] (y ∷ ys) h = absurd (ground arith)
    there (x ∷ xs) [] h = absurd (ground arith)
    there (x ∷ xs) (y ∷ ys) h = ground (arith, ==_iff x y, there xs ys)

    back : (xs : List ℕ) → same_bytes xs xs ≡ true
    back [] = refl
    back (x ∷ xs) = ground (arith, ==_refl x, back xs)

instance abbrev pub bytes_key : Key (List ℕ)
bytes_key = record { beq = same_bytes; beq_iff = same_bytes_iff }

-- A missing key reads as the nil slice.
abbrev pub or_nil {ℓ} : {A : Type ℓ} → Option (List A) → List A
or_nil none = []
or_nil (some xs) = xs

-- The measure of a value that may be missing.
abbrev pub weight {κ} : {V : Type κ} → (V → ℕ) → Option V → ℕ
weight f none = 0
weight f (some v) = f v

module _ {ℓ κ} {K : Type ℓ} {V : Type κ} ⦃e : Key K⦄ where
  unfoldable pub get? : K → Map K V → Option V
  get? k [] = none
  get? k ((j, v) ∷ m) = if e.beq j k then some v else get? k m

  -- `m[k] = v`
  unfoldable pub put : K → V → Map K V → Map K V
  put k v [] = (k, v) ∷ []
  put k v ((j, w) ∷ m) = if e.beq j k then (j, v) ∷ m else (j, w) ∷ put k v m

  -- `delete(m, k)`
  unfoldable pub delete : K → Map K V → Map K V
  delete k [] = []
  delete k ((j, w) ∷ m) = if e.beq j k then delete k m else (j, w) ∷ delete k m

  pub get?-put :
      (k j : K) (v : V) (m : Map K V)
      → get? j (put k v m) ≡ (if e.beq k j then some v else get? j m)
  unfolding get? put
  get?-put k j v [] = refl
  get?-put k j v ((i, w) ∷ m) =
      ground (arith, e.beq_iff k j, e.beq_iff i k, e.beq_iff i j, get?-put k j v m)

  pub get?-delete :
      (k j : K) (m : Map K V) → get? j (delete k m) ≡ (if e.beq k j then none else get? j m)
  unfolding get? delete
  get?-delete k j [] = ground arith
  get?-delete k j ((i, w) ∷ m) =
      ground (arith, e.beq_iff k j, e.beq_iff i k, e.beq_iff i j, get?-delete k j m)

  -- A Go map has each key once.
  abbrev pub UniqueKeys : Map K V → Type κ
  UniqueKeys [] = Unit
  UniqueKeys ((j, v) ∷ m) = (get? j m ≡ none) × UniqueKeys m

  pub delete_absent : (k : K) (m : Map K V) → get? k m ≡ none → delete k m ≡ m
  unfolding get? delete
  delete_absent k [] h = refl
  delete_absent k ((j, w) ∷ m) h = ground (arith, delete_absent k m)

  pub put-UniqueKeys : (k : K) (v : V) (m : Map K V) → UniqueKeys m → UniqueKeys (put k v m)
  unfolding get? put
  put-UniqueKeys k v [] u = (refl, tt)
  put-UniqueKeys k v ((j, w) ∷ m) u = elim (Bool-cases (e.beq j k)) [
    | inl same ↦ rw same u
    | inr other ↦
        rw other
          (ground (arith, get?-put k j v m, e.beq_iff k j, e.beq_iff j k), put-UniqueKeys k v m u.1)
  ]

  pub delete-UniqueKeys : (k : K) (m : Map K V) → UniqueKeys m → UniqueKeys (delete k m)
  unfolding get? delete
  delete-UniqueKeys k [] u = tt
  delete-UniqueKeys k ((j, w) ∷ m) u = elim (Bool-cases (e.beq j k)) [
    | inl same ↦ rw same (delete-UniqueKeys k m u.1)
    | inr other ↦ rw other (ground (arith, get?-delete k j m), delete-UniqueKeys k m u.1)
  ]

  -- A measure of the values, summed over the map.
  abbrev pub total : (V → ℕ) → Map K V → ℕ
  total f [] = 0
  total f ((j, v) ∷ m) = f v + total f m

  pub total-put :
      (f : V → ℕ) (k : K) (v : V) (m : Map K V)
      → total f (put k v m) + weight f (get? k m) ≡ total f m + f v
  unfolding get? put
  total-put f k v [] = omega arith
  total-put f k v ((j, w) ∷ m) = ground (arith, total-put f k v m)

  pub total-delete :
      (f : V → ℕ) (k : K) (m : Map K V)
      → UniqueKeys m
      → total f (delete k m) + weight f (get? k m) ≡ total f m
  unfolding get? delete
  total-delete f k [] u = omega arith
  total-delete f k ((j, w) ∷ m) u =
      ground (arith, total-delete f k m u.1, delete_absent k m, e.beq_iff j k)
