-- ===== src/Search/Matched.antt =====
-- The grammar of search patterns, and the scan that decides it.
use gosamba.Prelude.{
  ℕ, zero, suc, ◌+◌, ◌*◌, ◌≤◌, ◌<◌, ◌≡◌, ◌≢◌, ◌↔◌, ◌⊎◌, refl, ap, subst, inl, inr, Bool, true,
  false, ◌==◌, if◌then◌else◌, List, [], ◌∷◌, length, Option, none, some, arith,
}
use gosamba.Search.{star, Scan, Backtrack, backtrack, step, scan, only_stars, is_nil, enough_steps}

-- An answer, and whether it accepts.
abbrev pub Answers : Option Bool → Type 0 → Type 0
Answers r X = (answer : Bool) × (r ≡ some answer) × ((answer ≡ true) ↔ X)

module _ (same : ℕ → ℕ → Bool) where
  -- The name matches the pattern: a '*' takes any runes, every other rune of the pattern one that it
  -- is the same as.
  pub data Matches : List ℕ → List ℕ → Type 0 where
    ends : Matches [] []
    takes_none : (p n : List ℕ) → Matches p n → Matches (star ∷ p) n
    takes_one :
        (p : List ℕ) (c : ℕ) (n : List ℕ) → Matches (star ∷ p) n → Matches (star ∷ p) (c ∷ n)
    eats :
        (q : ℕ) (p : List ℕ) (c : ℕ) (n : List ℕ)
        → (q == star) ≡ false
        → same q c ≡ true
        → Matches p n
        → Matches (q ∷ p) (c ∷ n)

  -- Some ending of the name matches.
  abbrev EndsIn : List ℕ → List ℕ → Type 0
  EndsIn p n = Matches (star ∷ p) n

  -- What the backtrack point still allows.
  abbrev Later : Backtrack → Type 0
  Later none = ⊥
  Later (some (sp, [])) = ⊥
  Later (some (sp, c ∷ sn)) = EndsIn sp sn

  Ends-cases : (p : List ℕ) (c : ℕ) (n : List ℕ) → EndsIn p (c ∷ n) → Matches p (c ∷ n) ⊎ EndsIn p n
  Ends-cases p c n (takes_none _ _ m) = inl m
  Ends-cases p c n (takes_one _ _ _ m) = inr m
  Ends-cases p c n (eats _ _ _ _ e _ _) = absurd (ground arith)

  -- Two '*' are one.
  Ends-star : (p n : List ℕ) → EndsIn (star ∷ p) n → EndsIn p n
  Ends-star p n (takes_none _ _ m) = m
  Ends-star p (c ∷ n) (takes_one _ _ _ m) = takes_one p c n (Ends-star p n m)
  Ends-star p (c ∷ n) (eats _ _ _ _ e _ _) = absurd (ground arith)

  Ends-eats :
      (q : ℕ) (p : List ℕ) (c : ℕ) (n : List ℕ)
      → (q == star) ≡ false
      → EndsIn (q ∷ p) (c ∷ n)
      → EndsIn p n
  Ends-eats q p c n e (takes_none _ _ (eats _ _ _ _ _ _ m)) = takes_none p n m
  Ends-eats q p c n e (takes_none _ _ (takes_none _ _ _)) = absurd (ground arith)
  Ends-eats q p c n e (takes_none _ _ (takes_one _ _ _ _)) = absurd (ground arith)
  Ends-eats q p c [] e (takes_one _ _ _ (takes_none _ _ (takes_none _ _ _))) = absurd (ground arith)
  Ends-eats q p c (d ∷ n) e (takes_one _ _ _ m) = takes_one p d n (Ends-eats q p d n e m)
  Ends-eats q p c n e (eats _ _ _ _ f _ _) = absurd (ground arith)

  ends-all : (n : List ℕ) → EndsIn [] n
  ends-all [] = takes_none [] [] ends
  ends-all (c ∷ n) = takes_one [] c n (ends-all n)

  only_stars-Matches : (p : List ℕ) → only_stars p ≡ true → Matches p []
  unfolding only_stars
  only_stars-Matches [] h = ends
  only_stars-Matches (q ∷ p) h =
      let e : q ≡ star = ground arith in
      rw e (takes_none p [] (only_stars-Matches p (ground arith)))

  Matches-only_stars : (p : List ℕ) → Matches p [] → only_stars p ≡ true
  unfolding only_stars
  Matches-only_stars [] ends = refl
  Matches-only_stars (q ∷ p) (takes_none _ _ m) = Matches-only_stars p m

  -- The turns that the scan still takes: a rune handed to a '*' may cost the whole pattern again.
  abbrev cost : ℕ → List ℕ → ℕ
  cost size [] = 0
  cost size (c ∷ n) = suc size + cost size n

  abbrev turns : ℕ → List ℕ → List ℕ → Backtrack → ℕ
  turns size p n none = cost size n + length p
  turns size p n (some (sp, sn)) = cost size sn + length p

  -- The last '*' has swallowed no more than the scan has read, and whatever it may still lead to, the
  -- rest of the pattern leads to as well.
  abbrev Keeps : ℕ → List ℕ → List ℕ → Backtrack → Type 0
  Keeps size p n none = length p ≤ size
  Keeps size p n (some (sp, sn)) =
      (length p ≤ size)
      × (length sp ≤ size)
      × (cost size n ≤ cost size sn)
      × (Later (some (sp, sn)) → EndsIn p n)

  -- The scan ends, and says whether the rest matches or the backtrack point leads to a match.
  record Decides (r : Option Bool) (p n : List ℕ) (b : Backtrack) : Type 0 where
    ended : r ≢ none
    accepts : r ≡ some true → Matches p n ⊎ Later b
    finds : Matches p n ⊎ Later b → r ≡ some true

  some_inj : {b : Bool} → ◌≡◌ {A = Option Bool} (some b) (some true) → b ≡ true
  some_inj e = cc

  Matches-eats :
      (q : ℕ) (p : List ℕ) (c : ℕ) (n : List ℕ)
      → (q == star) ≡ false
      → Matches (q ∷ p) (c ∷ n)
      → Matches p n
  Matches-eats q p c n e (eats _ _ _ _ _ _ m) = m
  Matches-eats q p c n e (takes_none _ _ _) = absurd (ground arith)
  Matches-eats q p c n e (takes_one _ _ _ _) = absurd (ground arith)

  Ends-nil : (p : List ℕ) → EndsIn p [] → Matches p []
  Ends-nil p (takes_none _ _ m) = m

  Later-Matches :
      (size : ℕ) (p : List ℕ) (b : Backtrack) → Keeps size p [] b → Later b → Matches p []
  Later-Matches size p none k l = elim l [ ]
  Later-Matches size p (some (sp, sn)) k l = Ends-nil p (k.3 l)

  EndsIn-Later : (p n : List ℕ) → EndsIn p n → Matches p n ⊎ Later (some (p, n))
  EndsIn-Later p [] m = inl (Ends-nil p m)
  EndsIn-Later p (c ∷ n) m = Ends-cases p c n m

  Later-EndsIn : (p n : List ℕ) → Later (some (p, n)) → EndsIn p n
  Later-EndsIn p [] l = elim l [ ]
  Later-EndsIn p (c ∷ n) l = takes_one p c n l

  -- The rest of the loop, as an argument.
  abbrev Rest : ℕ → ℕ → Type 0
  Rest size fuel =
      (p n : List ℕ) (b : Backtrack)
      → Keeps size p n b
      → turns size p n b < fuel
      → Decides (scan same fuel (p, n, b)) p n b

  abbrev after : ℕ → Bool ⊎ Scan → Option Bool
  after fuel (inl answer) = some answer
  after fuel (inr s) = scan same fuel s

  back-Decides :
      (size fuel : ℕ) (p : List ℕ) (c : ℕ) (n : List ℕ) (b : Backtrack)
      → Rest size fuel
      → Keeps size p (c ∷ n) b
      → turns size p (c ∷ n) b < suc fuel
      → (Matches p (c ∷ n) → ⊥)
      → Decides (after fuel (backtrack b)) p (c ∷ n) b
  unfolding backtrack
  back-Decides size fuel p c n none rest k f differs = record {
    ended = λ e. cc;
    accepts = λ h. let no_ : ◌≡◌ {A = Option Bool} (some false) (some true) = h in cc;
    finds = λ m. elim m [ inl x ↦ absurd (differs x) | inr x ↦ elim x [ ] ];
  }
  back-Decides size fuel p c n (some (sp, [])) rest k f differs = absurd (omega (arith, k.2))
  back-Decides size fuel p c n (some (sp, d ∷ sn)) rest k f differs =
      let small = k.1 in
      let r =
        rest sp sn (some (sp, sn)) (k.1, k.1, omega arith, Later-EndsIn sp sn)
          (omega (arith, k.1, f)) in
      record {
        ended = r.ended;
        accepts = λ h. elim (r.accepts h) [
          | inl m ↦ inr (takes_none sp sn m)
          | inr l ↦ inr (Later-EndsIn sp sn l)
        ];
        finds = λ m. elim m [ inl x ↦ absurd (differs x) | inr l ↦ r.finds (EndsIn-Later sp sn l) ];
      }

  star-Decides :
      (size fuel : ℕ) (p : List ℕ) (c : ℕ) (n : List ℕ) (b : Backtrack)
      → Rest size fuel
      → Keeps size (star ∷ p) (c ∷ n) b
      → turns size (star ∷ p) (c ∷ n) b < suc fuel
      → Decides (scan same fuel (p, c ∷ n, some (p, c ∷ n))) (star ∷ p) (c ∷ n) b
  star-Decides size fuel p c n b rest k f =
      let (small, bound) = sizes b k f in
      let r =
        rest p (c ∷ n) (some (p, c ∷ n)) (small, small, omega arith, Later-EndsIn p (c ∷ n))
          bound in
      record {
        ended = r.ended;
        accepts = λ h. elim (r.accepts h) [
          | inl m ↦ inl (takes_none p (c ∷ n) m)
          | inr l ↦ inl (takes_one p c n l)
        ];
        finds = λ m. r.finds (EndsIn-Later p (c ∷ n) (all b k m));
      }
    where
      sizes :
          (b : Backtrack)
          → Keeps size (star ∷ p) (c ∷ n) b
          → turns size (star ∷ p) (c ∷ n) b < suc fuel
          → (length p ≤ size) × (turns size p (c ∷ n) (some (p, c ∷ n)) < fuel)
      sizes none k f = (omega (arith, k), omega (arith, f))
      sizes (some (sp, sn)) k f = (omega (arith, k.0), omega (arith, k.2, f))

      all :
          (b : Backtrack)
          → Keeps size (star ∷ p) (c ∷ n) b
          → Matches (star ∷ p) (c ∷ n) ⊎ Later b
          → EndsIn p (c ∷ n)
      all b k (inl m) = m
      all none k (inr l) = elim l [ ]
      all (some (sp, sn)) k (inr l) = Ends-star p (c ∷ n) (k.3 l)

  eats-Decides :
      (size fuel : ℕ) (q : ℕ) (p : List ℕ) (c : ℕ) (n : List ℕ) (b : Backtrack)
      → Rest size fuel
      → (q == star) ≡ false
      → same q c ≡ true
      → Keeps size (q ∷ p) (c ∷ n) b
      → turns size (q ∷ p) (c ∷ n) b < suc fuel
      → Decides (scan same fuel (p, n, b)) (q ∷ p) (c ∷ n) b
  eats-Decides size fuel q p c n b rest e s k f =
      let r = rest p n b (kept b k) (bound b f) in
      record {
        ended = r.ended;
        accepts = λ h. elim (r.accepts h) [ inl m ↦ inl (eats q p c n e s m) | inr l ↦ inr l ];
        finds = λ m. r.finds (elim m [ inl x ↦ inl (Matches-eats q p c n e x) | inr l ↦ inr l ]);
      }
    where
      kept : (b : Backtrack) → Keeps size (q ∷ p) (c ∷ n) b → Keeps size p n b
      kept none k = omega (arith, k)
      kept (some (sp, sn)) k =
          (omega (arith, k.0), k.1, omega (arith, k.2), λ l. Ends-eats q p c n e (k.3 l))

      bound : (b : Backtrack) → turns size (q ∷ p) (c ∷ n) b < suc fuel → turns size p n b < fuel
      bound none f = omega (arith, f)
      bound (some (sp, sn)) f = omega (arith, f)

  nil-Matches : (c : ℕ) (n : List ℕ) → Matches [] (c ∷ n) → ⊥
  nil-Matches c n m = elim m [ ]

  differs-Matches :
      (q : ℕ) (p : List ℕ) (c : ℕ) (n : List ℕ)
      → (q == star) ≡ false
      → same q c ≡ false
      → Matches (q ∷ p) (c ∷ n)
      → ⊥
  differs-Matches q p c n e s (eats _ _ _ _ _ k _) = cc
  differs-Matches q p c n e s (takes_none _ _ _) = absurd (ground arith)
  differs-Matches q p c n e s (takes_one _ _ _ _) = absurd (ground arith)

  starred-Decides :
      (size fuel : ℕ) (p : List ℕ) (c : ℕ) (n : List ℕ) (b : Backtrack)
      → Rest size fuel
      → Keeps size (star ∷ p) (c ∷ n) b
      → turns size (star ∷ p) (c ∷ n) b < suc fuel
      → Decides
          (after fuel (if is_nil p then inl true else inr (p, c ∷ n, some (p, c ∷ n))))
          (star ∷ p)
          (c ∷ n)
          b
  starred-Decides size fuel [] c n b rest k f = record {
    ended = λ e. cc;
    accepts = λ h. inl (ends-all (c ∷ n));
    finds = λ m. refl;
  }
  starred-Decides size fuel (d ∷ p) c n b rest k f = star-Decides size fuel (d ∷ p) c n b rest k f

  turn-Decides :
      (size fuel : ℕ) (q : ℕ) (p : List ℕ) (c : ℕ) (n : List ℕ) (b : Backtrack) (is_star eq_ : Bool)
      → (q == star) ≡ is_star
      → same q c ≡ eq_
      → Rest size fuel
      → Keeps size (q ∷ p) (c ∷ n) b
      → turns size (q ∷ p) (c ∷ n) b < suc fuel
      → Decides
          (after fuel (
            if is_star
            then (if is_nil p then inl true else inr (p, c ∷ n, some (p, c ∷ n)))
            else if eq_
            then inr (p, n, b)
            else backtrack b))
          (q ∷ p)
          (c ∷ n)
          b
  turn-Decides size fuel q p c n b true eq_ e s rest k f =
      let here : star ≡ q = ground arith in
      subst
        (λ x.
          Keeps size (x ∷ p) (c ∷ n) b
          → turns size (x ∷ p) (c ∷ n) b < suc fuel
          → Decides (after fuel (if is_nil p then inl true else inr (p, c ∷ n, some (p, c ∷ n))))
              (x ∷ p) (c ∷ n) b)
        here (starred-Decides size fuel p c n b rest) k f
  turn-Decides size fuel q p c n b false true e s rest k f =
      eats-Decides size fuel q p c n b rest e s k f
  turn-Decides size fuel q p c n b false false e s rest k f =
      back-Decides size fuel (q ∷ p) c n b rest k f (differs-Matches q p c n e s)

  scan-Decides : (size fuel : ℕ) → Rest size fuel
  unfolding scan step
  scan-Decides size zero p n b k f = absurd (omega arith)
  scan-Decides size (suc fuel) p [] b k f = record {
    ended = λ e. cc;
    accepts = λ h. inl (only_stars-Matches p (some_inj h));
    finds = λ m.
        ap some (Matches-only_stars p (elim m [ inl x ↦ x | inr l ↦ Later-Matches size p b k l ]));
  }
  scan-Decides size (suc fuel) [] (c ∷ n) b k f =
      back-Decides size fuel [] c n b (scan-Decides size fuel) k f (nil-Matches c n)
  scan-Decides size (suc fuel) (q ∷ p) (c ∷ n) b k f =
      turn-Decides size fuel q p c n b (q == star) (same q c) refl refl (scan-Decides size fuel) k f

  cost-enough : (size : ℕ) (n : List ℕ) → cost size n ≡ length n * suc size
  cost-enough size [] = omega arith
  cost-enough size (c ∷ n) = omega (arith, cost-enough size n)

  answer-of : (r : Option Bool) (p n : List ℕ) → Decides r p n none → Answers r (Matches p n)
  answer-of none p n d = absurd (d.ended refl)
  answer-of (some b) p n d = (
    b,
    refl,
    (
      λ h. elim (d.accepts (ap some h)) [ inl m ↦ m | inr l ↦ elim l [ ] ],
      λ m. some_inj (d.finds (inl m)),
    ),
  )

  pub scan-Answers :
      (p n : List ℕ) → Answers (scan same (enough_steps p n) (p, n, none)) (Matches p n)
  scan-Answers p n = answer-of (scan same (enough_steps p n) (p, n, none)) p n (
      scan-Decides (length p) (enough_steps p n) p n none (omega arith)
        (omega (arith, cost-enough (length p) n)))
