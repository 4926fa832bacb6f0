-- ===== src/Examples/Config.antt =====
-- A configuration of one share and two users, from the file and from the command line.
use gosamba.Prelude.{
  ℕ, ◌≡◌, ◌↔◌, refl, true, false, List, [], ◌∷◌, ◌++◌, replicate, none, some, inr, All, map,
}
use Prim.Native.String.{String}
use gosamba.Prelude.Text.{codes}
use gosamba.Config.{
  UserConfig, Config, File, Cli, System, Checked, defaults, every_share, merge, validate,
}
use gosamba.Prelude.{◌&&◌, ltb, ◌+◌, if◌then◌else◌, arith}
use gosamba.Prelude.Assoc.{same_bytes, same_bytes_iff}
use gosamba.Sessions.Setup.Found.{FoldsAscii, IsFound, validate-find_user}
use gosamba.Config.Entries.{HasCredential, Resolved}
use gosamba.Config.Validated.{IsSound, validate_iff}
use gosamba.Config.Loaded.{granted, merge-validate-users}

abbrev sys : System
sys = record {
  parse_duration = λ v. none;
  splits = λ v. true;
  to_lower = λ s. s;
  abs = λ p. some p;
  base = λ p. p;
  is_dir = λ p. some true;
  getuid = 1000;
  getgid = 100;
  atoi = λ s. none;
  lookup_user = λ s. none;
  md4 = λ m. replicate 16 1;
  utf16_units = λ s. s;
}

abbrev file : File
file = record {
  listen = none;
  netbios = none;
  mdns = none;
  encryption = none;
  signing = none;
  durable_timeout = none;
  state_dir = none;
  per_user_privdrop = none;
  level = none;
  format = none;
  shares =
      record { name = codes "docs"; path = codes "/docs"; read_only = false; guest_ok = false }
      ∷ [];
  users =
      record {
        name = codes "ann";
        nt_hash = replicate 16 2;
        system_user = [];
        allow_shares = some [];
      }
      ∷ [];
}

abbrev cli : Cli
cli = record {
  listen = none;
  netbios = none;
  mdns = none;
  no_encryption = some true;
  no_signing = none;
  durable_timeout = none;
  state_dir = none;
  per_user_privdrop = none;
  level = none;
  format = none;
  shares = [];
  users = record { name = codes "bob"; password = codes "pw"; system_user = [] } ∷ [];
}

abbrev user : ℕ → ℕ → String → ℕ → List (List ℕ) → UserConfig
user uid gid name hash shares = record {
  name = codes name;
  nt_hash = replicate 16 hash;
  system_user = [];
  system_uid = uid;
  system_gid = gid;
  allow_shares = shares;
}

abbrev with_ids : ℕ → ℕ → Config
with_ids uid gid = record defaults {
  server = record defaults.server { encryption = codes "off" };
  shares =
      record { name = codes "docs"; path = codes "/docs"; read_only = false; guest_ok = false }
      ∷ [];
  users = user uid gid "ann" 2 [] ∷ user uid gid "bob" 1 every_share ∷ [];
}

merged : merge sys cli file ≡ inr (with_ids 0 0)
unfolding merge gosamba.Config.file_shares gosamba.Config.cli_shares gosamba.Config.nt_hash
merged = refl

validated : validate sys (with_ids 0 0) ≡ inr (with_ids 1000 100)
unfolding validate gosamba.Config.validate_shares gosamba.Config.validate_users
    gosamba.Config.system_ids
validated = refl

merge-validate-users_example :
    (map (λ u. u.name) (with_ids 1000 100).users
      ≡ map (λ u. u.name) file.users ++ map (λ u. u.name) cli.users)
    × (map (λ u. u.allow_shares) (with_ids 1000 100).users
        ≡ granted file.users ++ map (λ u. every_share) cli.users)
    × All HasCredential (with_ids 1000 100).users
merge-validate-users_example =
    merge-validate-users sys cli file (with_ids 0 0) (with_ids 1000 100) merged validated

validate_iff_example : (validate sys (with_ids 0 0) ≡ inr (with_ids 1000 100)) ↔ (
    IsSound sys (with_ids 0 0)
    × ((users : List UserConfig) × Resolved sys (with_ids 0 0).users users
        × (with_ids 1000 100 ≡ record (with_ids 0 0) { users = users })))
validate_iff_example = validate_iff sys (with_ids 0 0) (with_ids 1000 100)

-- The letters A to Z in lower case.
abbrev lower : List ℕ → List ℕ
lower s = map (λ c. if ltb 0x40 c && ltb c 0x5B then c + 32 else c) s

abbrev folding : System
folding = record sys { to_lower = lower }

folds : FoldsAscii (λ a b. same_bytes (lower a) (lower b)) lower
folds a b plain_a plain_b = same_bytes_iff (lower a) (lower b)

validated_folding : validate folding (with_ids 0 0) ≡ inr (with_ids 1000 100)
unfolding validate gosamba.Config.validate_shares gosamba.Config.validate_users
    gosamba.Config.system_ids
validated_folding = refl

validate-find_user_example :
    All
      (IsFound (λ a b. same_bytes (lower a) (lower b)) lower (with_ids 1000 100).users)
      (with_ids 1000 100).users
validate-find_user_example =
    validate-find_user folding (with_ids 0 0) (with_ids 1000 100)
      (λ a b. same_bytes (lower a) (lower b)) folds
      (
        (omega arith, (omega arith, (omega arith, tt))),
        ((omega arith, (omega arith, (omega arith, tt))), tt),
      )
      validated_folding
