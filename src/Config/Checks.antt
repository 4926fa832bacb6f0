-- ===== src/Config/Checks.antt =====
-- What the success of a check says.
use gosamba.Prelude.{
  ℕ, ◌≡◌, ◌≢◌, ◌↔◌, refl, ap, ◌∙◌, inl, inr, Bool, true, false, not, List, [], ◌∷◌, All, Some,
  Option, none, some, Bool-cases,
}
use gosamba.Prelude.Assoc.{same_bytes, same_bytes_iff}
use gosamba.Config.{ConfigError, Checked, guard, ◌>>=◌, ◌>>◌, or_error, is_one_of, is_empty}

pub >>=-iff {ℓ κ} :
    {A : Type ℓ} {B : Type κ} (m : Checked A) (f : A → Checked B) {x : B}
    → ((m >>= f) ≡ inr x) ↔ ((a : A) × (m ≡ inr a) × (f a ≡ inr x))
>>=-iff {A} {B} (inl e) f {x} =
    (λ h. cc, λ r. let bad : ◌≡◌ {A = Checked A} (inl e) (inr r.0) = r.1 in cc)
>>=-iff {A} {B} (inr a) f {x} = (
  λ h. (a, refl, h),
  λ r.
      let same : ◌≡◌ {A = Checked A} (inr a) (inr r.0) = r.1 in
      let e : a ≡ r.0 = cc in ap f e ∙ r.2,
)

pub guard_iff {ℓ} :
    {B : Type ℓ} (b : Bool) (e : ConfigError) (k : Checked B) {x : B}
    → ((guard b e >> k) ≡ inr x) ↔ ((b ≡ true) × (k ≡ inr x))
guard_iff true e k = (λ h. (refl, h), λ r. r.1)
guard_iff {B} false e k {x} =
    (λ h. let bad : ◌≡◌ {A = Checked B} (inl e) (inr x) = h in cc, λ r. cc (r.0))

pub or_error_iff {ℓ κ} :
    {A : Type ℓ} {B : Type κ} (o : Option A) (e : ConfigError) (f : A → Checked B) {x : B}
    → ((or_error o e >>= f) ≡ inr x) ↔ ((a : A) × (o ≡ some a) × (f a ≡ inr x))
or_error_iff {A} {B} none e f {x} = (
  λ h. let bad : ◌≡◌ {A = Checked B} (inl e) (inr x) = h in cc,
  λ r. let bad : ◌≡◌ {A = Option A} none (some r.0) = r.1 in cc,
)
or_error_iff {A} {B} (some a) e f {x} = (
  λ h. (a, refl, h),
  λ r.
      let same : ◌≡◌ {A = Option A} (some a) (some r.0) = r.1 in
      let q : a ≡ r.0 = cc in ap f q ∙ r.2,
)

pub not_one_of_iff :
    (s : List ℕ) (names : List (List ℕ)) → (not (is_one_of s names) ≡ true) ↔ All (λ n. n ≢ s) names
not_one_of_iff s [] = (λ h. tt, λ h. refl)
not_one_of_iff s (n ∷ names) =
    let i = not_one_of_iff s names in
    let k = same_bytes_iff n s in
    elim (Bool-cases (same_bytes n s)) [
      | inl same ↦ rw same (λ h. cc, λ h. absurd (h.0 (k.0 same)))
      | inr other ↦ rw other (λ h. ((λ e. let t = k.1 e in cc), i.0 h), λ h. i.1 h.1)
    ]

pub one_of_iff :
    (s : List ℕ) (names : List (List ℕ)) → (is_one_of s names ≡ true) ↔ Some (λ n. n ≡ s) names
one_of_iff s [] = (λ h. cc, λ h. elim h [ ])
one_of_iff s (n ∷ names) =
    let i = one_of_iff s names in
    let k = same_bytes_iff n s in
    elim (Bool-cases (same_bytes n s)) [
      | inl same ↦ rw same (λ h. inl (k.0 same), λ h. refl)
      | inr other ↦
          rw other
            (λ h. inr (i.0 h), λ h. elim h [ inl e ↦ let t = k.1 e in cc | inr there ↦ i.1 there ])
    ]

pub is_empty_iff : (s : List ℕ) → (not (is_empty s) ≡ true) ↔ (s ≢ [])
is_empty_iff [] = (λ h. cc, λ h. absurd (h refl))
is_empty_iff (c ∷ s) = (λ h e. cc, λ h. refl)
