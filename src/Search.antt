-- ===== src/Search.antt =====
-- The matcher of search patterns in internal/parent/wildcard.go. A pattern and a name are the lists
-- of the runes that package utf8 reads from them; a byte that is no UTF-8 is a rune of its own past
-- the last code point. The scan only stands between runes.
pub mod Matched
use gosamba.Prelude.{
  ℕ, zero, suc, ◌+◌, ◌-◌, ◌*◌, Bool, true, false, not, ◌&&◌, ◌||◌, ◌==◌, ltb, leb, if◌then◌else◌,
  List, [], ◌∷◌, length, Option, none, some, ◌⊎◌, inl, inr,
}

-- '*' and '?'
abbrev pub star : ℕ
star = 0x2A

abbrev pub question : ℕ
question = 0x3F

abbrev lower_ascii : ℕ → ℕ
lower_ascii a = if leb 0x41 a && leb a 0x5A then a + 0x20 else a

-- The walk along the folding orbit of `a`, which is at most four runes long.
unfoldable pub orbit_has : (ℕ → ℕ) → ℕ → ℕ → ℕ → ℕ → Bool
orbit_has simple_fold a b zero r = false
orbit_has simple_fold a b (suc fuel) r =
    let rest = orbit_has simple_fold a b fuel (simple_fold r) in
    if r == a then false else if r == b then true else rest

-- `simple_fold` is `unicode.SimpleFold`.
unfoldable pub fold_equal : (ℕ → ℕ) → ℕ → ℕ → Bool
fold_equal simple_fold a b =
    if a == b
    then true
    else if ltb a 0x80 && ltb b 0x80
    then lower_ascii a == lower_ascii b
    else orbit_has simple_fold a b 4 (simple_fold a)

-- Where the pattern has a rune that is no '*'.
unfoldable pub rune_matches : (ℕ → ℕ) → Bool → ℕ → ℕ → Bool
rune_matches simple_fold case_sensitive pc nc =
    pc == question || pc == nc || (not case_sensitive && fold_equal simple_fold pc nc)

-- What is left of the pattern must match empty.
unfoldable pub only_stars : List ℕ → Bool
only_stars [] = true
only_stars (c ∷ p) = if not (c == star) then false else only_stars p

abbrev pub is_nil : List ℕ → Bool
is_nil [] = true
is_nil (c ∷ p) = false

-- The backtrack point: the pattern just past the most recent '*', and the name from where that '*'
-- has swallowed up to.
abbrev pub Backtrack : Type 0
Backtrack = Option (List ℕ × List ℕ)

-- Where the loop stands: the rest of the pattern and of the name, and the backtrack point.
abbrev pub Scan : Type 0
Scan = List ℕ × List ℕ × Backtrack

-- After a mismatch the last '*' gets one more rune; it always has one to get.
unfoldable pub backtrack : Backtrack → Bool ⊎ Scan
backtrack none = inl false
backtrack (some (sp, [])) = inl false
backtrack (some (sp, c ∷ sn)) = inr (sp, sn, some (sp, sn))

-- One turn of the loop: the answer, or where it goes on.
unfoldable pub step : (ℕ → ℕ → Bool) → Scan → Bool ⊎ Scan
step same (p, [], b) = inl (only_stars p)
step same ([], c ∷ n, b) = backtrack b
step same (q ∷ p, c ∷ n, b) =
    if q == star
    then (if is_nil p then inl true else inr (p, c ∷ n, some (p, c ∷ n)))
    else if same q c
    then inr (p, n, b)
    else backtrack b

-- The loop; `none` where the turns run out.
unfoldable pub scan : (ℕ → ℕ → Bool) → ℕ → Scan → Option Bool
scan same zero s = none
scan same (suc fuel) s = elim (step same s) [
  | inl answer ↦ some answer
  | inr s' ↦ scan same fuel s'
]

-- Every turn takes a rune of the pattern, or hands one of the name to the last '*' and starts over
-- behind it.
abbrev pub enough_steps : List ℕ → List ℕ → ℕ
enough_steps pattern name = suc (length name) * suc (length pattern)

abbrev pub is_star : List ℕ → Bool
is_star [] = false
is_star (c ∷ []) = c == star
is_star (c ∷ d ∷ p) = false

unfoldable pub match_smb_pattern : (ℕ → ℕ) → List ℕ → List ℕ → Bool → Option Bool
match_smb_pattern simple_fold pattern name case_sensitive =
    let same = rune_matches simple_fold case_sensitive in
    if is_nil pattern || is_star pattern
    then some true
    else scan same (enough_steps pattern name) (pattern, name, none)
