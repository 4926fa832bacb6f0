-- ===== src/Locks/Request/Members.antt =====
-- A file's ranges as a set: membership through filters, and counting by inclusion.
use gosamba.Prelude.{
  ℕ, suc, ◌+◌, ◌≤◌, ◌≡◌, refl, ◌≢◌, inl, inr, Bool, true, false, List, [], ◌∷◌, arith, length,
  filter, Bool-cases, Apart,
}
use gosamba.Locks.Range.{LockRange, same_range}
use gosamba.Locks.Table.Exclusion.{twins}
use gosamba.Locks.Table.Invariant.{owned_by}
use gosamba.Locks.Table.Others.{others}
use gosamba.Locks.Table.Runs.{In, All-In}

-- One handle's ranges.
abbrev pub mine : ℕ → List LockRange → List LockRange
mine owner = filter (owned_by owner)

module _ (p : LockRange → Bool) (r : LockRange) where
  pub In-filter : (rs : List LockRange) → In r rs → p r ≡ true → In r (filter p rs)
  In-filter [] i h = elim i [ ]
  In-filter (x ∷ rs) (inl e) h = rw (e, h) (inl refl)
  In-filter (x ∷ rs) (inr i) h = elim (Bool-cases (p x)) [
    | inl e ↦ rw e (inr (In-filter rs i h))
    | inr e ↦ rw e (In-filter rs i h)
  ]

  pub In-filter_inv : (rs : List LockRange) → In r (filter p rs) → In r rs × (p r ≡ true)
  In-filter_inv [] i = elim i [ ]
  In-filter_inv (x ∷ rs) i = elim (Bool-cases (p x)) [
    | inl e ↦ elim (rw e at i) [
      | inl same ↦ (inl same, rw (← same) e)
      | inr more ↦ let (i', h) = In-filter_inv rs more in (inr i', h)
    ]
    | inr e ↦ let (i', h) = In-filter_inv rs (rw e at i) in (inr i', h)
  ]

pub twins→eq : (a b : LockRange) → twins a b ≡ true → a ≡ b
unfolding same_range
twins→eq a b h = ground arith

without : (x : LockRange) (ys : List LockRange) → In x ys → List LockRange
without x [] i = elim i [ ]
without x (y ∷ ys) (inl e) = ys
without x (y ∷ ys) (inr i) = y ∷ without x ys i

length-without :
    (x : LockRange) (ys : List LockRange) (i : In x ys) → length ys ≡ suc (length (without x ys i))
unfolding without
length-without x [] i = elim i [ ]
length-without x (y ∷ ys) (inl e) = refl
length-without x (y ∷ ys) (inr i) = omega (arith, length-without x ys i)

In-without :
    (x z : LockRange) (ys : List LockRange) (i : In x ys) → In z ys → z ≢ x → In z (without x ys i)
unfolding without
In-without x z [] i j ne = elim i [ ]
In-without x z (y ∷ ys) (inl e) (inl f) ne = absurd (ne (cc))
In-without x z (y ∷ ys) (inl e) (inr j) ne = j
In-without x z (y ∷ ys) (inr i) (inl f) ne = inl f
In-without x z (y ∷ ys) (inr i) (inr j) ne = inr (In-without x z ys i j ne)

twins-ne : (x z : LockRange) → twins x z ≡ false → z ≢ x
unfolding same_range
twins-ne x z h e = ground arith

-- A list without duplicates whose elements all stand in another is no longer than it.
pub length_of_subset :
    (xs ys : List LockRange)
    → Apart twins xs
    → ((x : LockRange) → In x xs → In x ys)
    → length xs ≤ length ys
length_of_subset [] ys a s = omega arith
length_of_subset (x ∷ xs) ys a s =
    let i = s x (inl refl) in
    let shorter : length xs ≤ length (without x ys i) =
      length_of_subset xs (without x ys i) a.1 (λ z j.
        In-without x z ys i (s z (inr j))
          (twins-ne x z (All-In (λ y. twins x y ≡ false) z xs a.0 j))) in
    omega (arith, length-without x ys i, shorter)

pub length-mine-others :
    (owner : ℕ) (rs : List LockRange)
    → length rs ≡ length (mine owner rs) + length (others owner rs)
length-mine-others owner [] = omega arith
length-mine-others owner (r ∷ rs) = ground (arith, length-mine-others owner rs)
