-- ===== src/Config/Entries.antt =====
-- Which shares and users pass: the two loops of internal/config/validate.go.
use gosamba.Prelude.{
  ℕ, ◌≡◌, ◌≢◌, ◌↔◌, refl, sym, ap, ◌∙◌, inl, inr, true, not, List, [], ◌∷◌, All, replicate, some,
  Bool-cases,
}
use gosamba.Prelude.Assoc.{same_bytes, same_bytes_iff}
use gosamba.Prelude.Text.{codes}
use gosamba.Config.{
  ShareConfig, UserConfig, System, Checked, guard, ◌>>=◌, ◌>>◌, or_error, is_one_of, is_empty,
  system_ids, validate_shares, validate_users, empty_share_name, reserved_share_name,
  duplicate_share, bad_share_path, empty_user_name, duplicate_user, no_credential,
}
use gosamba.Config.Checks.{>>=-iff, guard_iff, or_error_iff, not_one_of_iff, is_empty_iff}

-- No key stands among those seen, and no two keys are the same.
abbrev pub Distinct : List (List ℕ) → List (List ℕ) → Type 0
Distinct seen [] = Unit
Distinct seen (k ∷ ks) = All (λ j. j ≢ k) seen × Distinct (k ∷ seen) ks

abbrev pub keys {ℓ} : {A : Type ℓ} → (A → List ℕ) → List A → List (List ℕ)
keys f [] = []
keys f (a ∷ as_) = f a ∷ keys f as_

-- A share with a name that clients show, on a directory.
abbrev pub ServesDirectory : System → ShareConfig → Type 0
ServesDirectory sys s =
    (s.name ≢ [])
    × All (λ n. n ≢ s.name) (codes "." ∷ codes ".." ∷ [])
    × (sys.is_dir s.path ≡ some true)

abbrev pub HasCredential : UserConfig → Type 0
HasCredential u = (u.name ≢ []) × (u.nt_hash ≢ replicate 16 0)

-- The users with the ids that their `system_user` resolves to.
abbrev pub Resolved : System → List UserConfig → List UserConfig → Type 0
Resolved sys [] ready = ready ≡ []
Resolved sys (u ∷ us) ready =
    (ids : ℕ × ℕ) × (rest : List UserConfig) × (system_ids sys u.system_user ≡ inr ids)
    × (ready ≡ record u { system_uid = ids.0; system_gid = ids.1 } ∷ rest)
    × Resolved sys us rest

inr_inj : {x y : List UserConfig} → ◌≡◌ {A = Checked (List UserConfig)} (inr x) (inr y) → x ≡ y
inr_inj e = cc

not_same_iff : (h z : List ℕ) → (not (same_bytes h z) ≡ true) ↔ (h ≢ z)
not_same_iff h z =
    let k = same_bytes_iff h z in
    (
      λ e f. let t = k.1 f in cc,
      λ n. elim (Bool-cases (same_bytes h z)) [
        | inl same ↦ absurd (n (k.0 same))
        | inr other ↦ rw other refl
      ],
    )

pub validate_shares_iff :
    (sys : System) (seen : List (List ℕ)) (shares : List ShareConfig)
    → (validate_shares sys seen shares ≡ inr tt)
      ↔ (All (ServesDirectory sys) shares × Distinct seen (keys (λ s. sys.to_lower s.name) shares))
unfolding validate_shares
validate_shares_iff sys seen [] = (λ h. (tt, tt), λ h. refl)
validate_shares_iff sys seen (s ∷ shares) =
    let key = sys.to_lower s.name in
    let i = validate_shares_iff sys (key ∷ seen) shares in
    let named = is_empty_iff s.name in
    let shown = not_one_of_iff s.name (codes "." ∷ codes ".." ∷ []) in
    let fresh = not_one_of_iff key seen in
    let rest = validate_shares sys (key ∷ seen) shares in
    let found : Checked (Unit {0}) =
      or_error (sys.is_dir s.path) bad_share_path >>= λ dir. guard dir bad_share_path >> rest in
    let after_fresh : Checked (Unit {0}) =
      guard (not (is_one_of key seen)) duplicate_share >> found in
    let after_shown : Checked (Unit {0}) =
      guard (not (is_one_of s.name (codes "." ∷ codes ".." ∷ []))) reserved_share_name
      >> after_fresh in
    let g0 = guard_iff (not (is_empty s.name)) empty_share_name after_shown {x = tt} in
    let g1 =
      guard_iff (not (is_one_of s.name (codes "." ∷ codes ".." ∷ []))) reserved_share_name
        after_fresh {x = tt} in
    let g2 = guard_iff (not (is_one_of key seen)) duplicate_share found {x = tt} in
    let g3 =
      or_error_iff (sys.is_dir s.path) bad_share_path (λ dir. guard dir bad_share_path >> rest)
        {x = tt} in
    (
      λ h.
          let (a, h) = g0.0 h in
          let (b, h) = g1.0 h in
          let (c, h) = g2.0 h in
          let (dir, d, h) = g3.0 h in
          let (e, h) = (guard_iff dir bad_share_path rest {x = tt}).0 h in
          let (good, apart) = i.0 h in
          (((named.0 a, shown.0 b, d ∙ ap some e), good), (fresh.0 c, apart)),
      λ r.
          let (a, b, d) = r.0.0 in
          g0.1 (
            named.1 a,
            g1.1 (
              shown.1 b,
              g2.1 (
                fresh.1 r.1.0,
                g3.1 (
                  true,
                  d,
                  (guard_iff true bad_share_path rest {x = tt}).1 (refl, i.1 (r.0.1, r.1.1)),
                ),
              ),
            ),
          ),
    )

pub validate_users_iff :
    (sys : System) (seen : List (List ℕ)) (users : List UserConfig) (ready : List UserConfig)
    → (validate_users sys seen users ≡ inr ready) ↔ (
        All HasCredential users
        × Distinct seen (keys (λ u. sys.to_lower u.name) users)
        × Resolved sys users ready)
unfolding validate_users
validate_users_iff sys seen [] ready = (λ h. (tt, tt, sym (inr_inj h)), λ h. ap inr (sym h.2))
validate_users_iff sys seen (u ∷ users) ready =
    let key = sys.to_lower u.name in
    let made : ℕ × ℕ → UserConfig = λ ids. record u { system_uid = ids.0; system_gid = ids.1 } in
    let named = is_empty_iff u.name in
    let fresh = not_one_of_iff key seen in
    let secret = not_same_iff u.nt_hash (replicate 16 0) in
    let behind : ℕ × ℕ → Checked (List UserConfig) =
      λ ids. validate_users sys (key ∷ seen) users >>= λ rest. inr (made ids ∷ rest) in
    let found : Checked (List UserConfig) = system_ids sys u.system_user >>= behind in
    let after_fresh : Checked (List UserConfig) =
      guard (not (same_bytes u.nt_hash (replicate 16 0))) no_credential >> found in
    let after_named : Checked (List UserConfig) =
      guard (not (is_one_of key seen)) duplicate_user >> after_fresh in
    let g0 = guard_iff (not (is_empty u.name)) empty_user_name after_named {x = ready} in
    let g1 = guard_iff (not (is_one_of key seen)) duplicate_user after_fresh {x = ready} in
    let g2 =
      guard_iff (not (same_bytes u.nt_hash (replicate 16 0))) no_credential found {x = ready} in
    let g3 = >>=-iff (system_ids sys u.system_user) behind {x = ready} in
    (
      λ h.
          let (a, h) = g0.0 h in
          let (b, h) = g1.0 h in
          let (c, h) = g2.0 h in
          let (ids, d, h) = g3.0 h in
          let (rest, e, h) =
            (>>=-iff (validate_users sys (key ∷ seen) users) (λ r. inr (made ids ∷ r))
                {x = ready}).0
              h in
          let (good, apart, resolved) = (validate_users_iff sys (key ∷ seen) users rest).0 e in
          (
            ((named.0 a, secret.0 c), good),
            (fresh.0 b, apart),
            (ids, rest, d, sym (inr_inj h), resolved),
          ),
      λ r.
          let (ids, rest, d, e, resolved) = r.2 in
          let i = (validate_users_iff sys (key ∷ seen) users rest).1 (r.0.1, r.1.1, resolved) in
          g0.1 (
            named.1 r.0.0.0,
            g1.1 (
              fresh.1 r.1.0,
              g2.1 (
                secret.1 r.0.0.1,
                g3.1 (
                  ids,
                  d,
                  (>>=-iff (validate_users sys (key ∷ seen) users) (λ r. inr (made ids ∷ r))
                        {x = ready}).1
                      (rest, i, ap inr (sym e)),
                ),
              ),
            ),
          ),
    )

-- What the server needs of a configuration.
