-- ===== src/Config/Loaded.antt =====
-- The users of a configuration that was merged and validated.
use mathlib.Core.List.{map-append}
use gosamba.Prelude.{ℕ, ◌≡◌, refl, sym, ap, ◌∙◌, inr, List, [], ◌∷◌, ◌++◌, map, All}
use gosamba.Config.{
  Config, System, Cli, File, FileUser, CliUser, UserConfig, Checked, merge, validate, duration,
  file_shares, cli_shares, file_user, file_users, cli_user, cli_users, or_keep, every_share,
  defaults,
}
use gosamba.Config.Checks.{>>=-iff}
use gosamba.Config.Entries.{Resolved, HasCredential}
use gosamba.Config.Validated.{validate_iff}

-- What does not read the ids of the system is as it was.
Resolved-map {ℓ} :
    {A : Type ℓ} (sys : System) (f : UserConfig → A) (us vs : List UserConfig)
    → ((u : UserConfig) (ids : ℕ × ℕ)
        → f (record u { system_uid = ids.0; system_gid = ids.1 }) ≡ f u)
    → Resolved sys us vs
    → map f vs ≡ map f us
Resolved-map sys f [] vs same e = ap (map f) e
Resolved-map sys f (u ∷ us) vs same (ids, rest, found, e, r) =
    ap (map f) e ∙ (λ i. same u ids i ∷ Resolved-map sys f us rest same r i)

Resolved-HasCredential :
    (sys : System) (us vs : List UserConfig)
    → Resolved sys us vs
    → All HasCredential us
    → All HasCredential vs
Resolved-HasCredential sys [] vs e w = rw e tt
Resolved-HasCredential sys (u ∷ us) vs (ids, rest, found, e, r) w =
    rw e (w.0, Resolved-HasCredential sys us rest r w.1)

map-file_users {ℓ} :
    {A : Type ℓ} (f : UserConfig → A) (us : List FileUser)
    → map f (file_users us) ≡ map (λ u. f (file_user u)) us
map-file_users f [] = refl
map-file_users f (u ∷ us) = ap (◌∷◌ (f (file_user u))) (map-file_users f us)

map-cli_users {ℓ} :
    {A : Type ℓ} (sys : System) (f : UserConfig → A) (us : List CliUser)
    → map f (cli_users sys us) ≡ map (λ u. f (cli_user sys u)) us
map-cli_users sys f [] = refl
map-cli_users sys f (u ∷ us) = ap (◌∷◌ (f (cli_user sys u))) (map-cli_users sys f us)

config_inj : {x y : Config} → ◌≡◌ {A = Checked Config} (inr x) (inr y) → x ≡ y
config_inj e = cc

merge-users :
    (sys : System) (cli : Cli) (file : File) (cfg : Config)
    → merge sys cli file ≡ inr cfg
    → cfg.users ≡ file_users file.users ++ cli_users sys cli.users
unfolding merge
merge-users sys cli file cfg h =
    let (from_file, a, h) =
      (>>=-iff (duration sys file.durable_timeout defaults.server.durable_timeout) _ {x = cfg}).0
        h in
    let (timeout, b, h) = (>>=-iff (duration sys cli.durable_timeout from_file) _ {x = cfg}).0 h in
    let (shares, c, h) = (>>=-iff (file_shares sys file.shares) _ {x = cfg}).0 h in
    let (more, d, h) = (>>=-iff (cli_shares sys cli.shares) _ {x = cfg}).0 h in
    ap (λ c. c.users) (sym (config_inj h))

-- `allow_shares` as the file gives it: every share where it is absent.
abbrev pub granted : List FileUser → List (List (List ℕ))
granted [] = []
granted (u ∷ us) = or_keep u.allow_shares every_share ∷ granted us

granted-map : (us : List FileUser) → granted us ≡ map (λ u. or_keep u.allow_shares every_share) us
granted-map [] = refl
granted-map (u ∷ us) = ap (◌∷◌ (or_keep u.allow_shares every_share)) (granted-map us)

-- What a user has of the file or of the command line is kept.
each {ℓ} :
    {A : Type ℓ} (sys : System) (f : UserConfig → A) (cli : Cli) (file : File) (cfg : Config)
    (users : List UserConfig)
    → cfg.users ≡ file_users file.users ++ cli_users sys cli.users
    → ((u : UserConfig) (ids : ℕ × ℕ)
        → f (record u { system_uid = ids.0; system_gid = ids.1 }) ≡ f u)
    → Resolved sys cfg.users users
    → map f users ≡ map (λ u. f (file_user u)) file.users ++ map (λ u. f (cli_user sys u)) cli.users
each sys f cli file cfg users all same resolved =
    Resolved-map sys f cfg.users users same resolved
    ∙ ap (map f) all
    ∙ map-append f (file_users file.users) (cli_users sys cli.users)
    ∙ (λ i. map-file_users f file.users i ++ map-cli_users sys f cli.users i)

-- Where the merge and the validation pass, the users that the server runs with are those of the file
-- and then those of the command line, each with a name and a hash that is not zero. A user of the file
-- has the shares of its `allow_shares`, none where that is empty and all where it is absent, and one
-- of the command line has all.
pub merge-validate-users :
    (sys : System) (cli : Cli) (file : File) (cfg ready : Config)
    → merge sys cli file ≡ inr cfg
    → validate sys cfg ≡ inr ready
    → (map (λ u. u.name) ready.users ≡ map (λ u. u.name) file.users ++ map (λ u. u.name) cli.users)
      × (map (λ u. u.allow_shares) ready.users
          ≡ granted file.users ++ map (λ u. every_share) cli.users)
      × All HasCredential ready.users
merge-validate-users sys cli file cfg ready h k =
    let (sound, (users, resolved, e)) = (validate_iff sys cfg ready).0 k in
    let all = merge-users sys cli file cfg h in
    let at : ready.users ≡ users = ap (λ c. c.users) e in
    let names = each sys (λ u. u.name) cli file cfg users all (λ u ids. refl) resolved in
    let grants = each sys (λ u. u.allow_shares) cli file cfg users all (λ u ids. refl) resolved in
    (
      ap (map (λ u. u.name)) at ∙ names,
      ap (map (λ u. u.allow_shares)) at
          ∙ grants
          ∙ ap (λ g. g ++ map (λ u. every_share) cli.users) (sym (granted-map file.users)),
      rw at (Resolved-HasCredential sys cfg.users users resolved sound.users),
    )
