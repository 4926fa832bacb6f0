-- ===== src/Config.antt =====
-- The configuration of the server: internal/config/config.go, merge.go and validate.go. A string is
-- the list of its bytes, and an int of the system its two's complement pattern.
pub mod Entries
pub mod Validated
pub mod Checks
pub mod Loaded
use gosamba.Prelude.{
  ℕ, zero, suc, ◌*◌, ◌^◌, Bool, true, false, not, ◌&&◌, ◌||◌, ◌==◌, if◌then◌else◌, List, [], ◌∷◌,
  ◌++◌, length, any, replicate, Option, none, some, ◌⊎◌, inl, inr,
}
use gosamba.Prelude.Assoc.{same_bytes}
use gosamba.Prelude.Text.{codes}
use gosamba.Ntlm.Response.{units_le}

pub record ServerConfig : Type 0 where
  pub listen : List ℕ
  pub netbios : Bool
  pub mdns : Bool
  pub encryption : List ℕ
  pub signing : List ℕ
  -- In nanoseconds.
  pub durable_timeout : ℕ
  pub state_dir : List ℕ
  pub per_user_privdrop : Bool

pub record LogConfig : Type 0 where
  pub level : List ℕ
  pub format : List ℕ

pub record ShareConfig : Type 0 where
  pub name : List ℕ
  pub path : List ℕ
  pub read_only : Bool
  pub guest_ok : Bool

pub record UserConfig : Type 0 where
  pub name : List ℕ
  pub nt_hash : List ℕ
  pub system_user : List ℕ
  pub system_uid : ℕ
  pub system_gid : ℕ
  pub allow_shares : List (List ℕ)

pub record Config : Type 0 where
  pub server : ServerConfig
  pub log : LogConfig
  pub shares : List ShareConfig
  pub users : List UserConfig

abbrev pub defaults : Config
defaults = record {
  server = record {
    listen = codes ":445";
    netbios = false;
    mdns = true;
    encryption = codes "required";
    signing = codes "required";
    durable_timeout = 60 * 10 ^ 9;
    state_dir = codes "/var/run/gosamba";
    per_user_privdrop = false;
  };
  log = record { level = codes "info"; format = codes "text" };
  shares = [];
  users = [];
}

-- An `allow_shares` that is absent is `none`, and one that is empty is not.
pub record FileUser : Type 0 where
  pub name : List ℕ
  pub nt_hash : List ℕ
  pub system_user : List ℕ
  pub allow_shares : Option (List (List ℕ))

-- What the file gives: `none` where a key is absent.
pub record File : Type 0 where
  pub listen : Option (List ℕ)
  pub netbios : Option Bool
  pub mdns : Option Bool
  pub encryption : Option (List ℕ)
  pub signing : Option (List ℕ)
  pub durable_timeout : Option (List ℕ)
  pub state_dir : Option (List ℕ)
  pub per_user_privdrop : Option Bool
  pub level : Option (List ℕ)
  pub format : Option (List ℕ)
  pub shares : List ShareConfig
  pub users : List FileUser

pub record CliShare : Type 0 where
  pub path : List ℕ
  pub name : List ℕ

pub record CliUser : Type 0 where
  pub name : List ℕ
  pub password : List ℕ
  pub system_user : List ℕ

pub record Cli : Type 0 where
  pub listen : Option (List ℕ)
  pub netbios : Option Bool
  pub mdns : Option Bool
  pub no_encryption : Option Bool
  pub no_signing : Option Bool
  pub durable_timeout : Option (List ℕ)
  pub state_dir : Option (List ℕ)
  pub per_user_privdrop : Option Bool
  pub level : Option (List ℕ)
  pub format : Option (List ℕ)
  pub shares : List CliShare
  pub users : List CliUser

pub data ConfigError : Type 0 where
  bad_duration no_share_name bad_listen bad_encryption bad_signing bad_level bad_format
        netbios_refused empty_share_name reserved_share_name duplicate_share bad_share_path
        empty_user_name duplicate_user no_credential bad_system_user :
      ConfigError

abbrev pub Checked {ℓ} : Type ℓ → Type ℓ
Checked A = ConfigError ⊎ A

infixl 5 ◌>>=◌ ◌>>◌
abbrev pub ◌>>=◌ {ℓ κ} : {A : Type ℓ} {B : Type κ} → Checked A → (A → Checked B) → Checked B
inl e >>= f = inl e
inr a >>= f = f a

abbrev pub ◌>>◌ {ℓ} : {B : Type ℓ} → Checked (Unit {0}) → Checked B → Checked B
m >> k = m >>= λ _. k

abbrev pub guard : Bool → ConfigError → Checked (Unit {0})
guard true e = inr tt
guard false e = inl e

-- time.ParseDuration, net.SplitHostPort (whether it succeeds), strings.ToLower, filepath.Abs,
-- filepath.Base of a cleaned path, os.Stat (whether it is a directory), os.Getuid and os.Getgid,
-- strconv.Atoi, user.Lookup, MD4 and utf16.Encode.
pub record System : Type 0 where
  pub parse_duration : List ℕ → Option ℕ
  pub splits : List ℕ → Bool
  pub to_lower : List ℕ → List ℕ
  pub abs : List ℕ → Option (List ℕ)
  pub base : List ℕ → List ℕ
  pub is_dir : List ℕ → Option Bool
  pub getuid : ℕ
  pub getgid : ℕ
  pub atoi : List ℕ → Option ℕ
  pub lookup_user : List ℕ → Option (List ℕ × List ℕ)
  pub md4 : List ℕ → List ℕ
  pub utf16_units : List ℕ → List ℕ

-- `if v := ...; v != nil`
abbrev pub or_keep {ℓ} : {A : Type ℓ} → Option A → A → A
or_keep none a = a
or_keep (some v) a = v

abbrev pub is_set : Option Bool → Bool
is_set none = false
is_set (some b) = b

abbrev pub or_error {ℓ} : {A : Type ℓ} → Option A → ConfigError → Checked A
or_error none e = inl e
or_error (some a) e = inr a

abbrev pub duration : System → Option (List ℕ) → ℕ → Checked ℕ
duration sys none d = inr d
duration sys (some v) d = or_error (sys.parse_duration v) bad_duration

-- `userdb.NTHash`
unfoldable pub nt_hash : System → List ℕ → List ℕ
nt_hash sys password = sys.md4 (units_le (sys.utf16_units password))

unfoldable pub default_share_name : System → List ℕ → Checked (List ℕ)
default_share_name sys path = do abs ← or_error (sys.abs path) no_share_name; inr (sys.base abs)

abbrev pub name_or_default : System → List ℕ → List ℕ → Checked (List ℕ)
name_or_default sys [] path = default_share_name sys path
name_or_default sys (c ∷ name) path = inr (c ∷ name)

unfoldable pub file_shares : System → List ShareConfig → Checked (List ShareConfig)
file_shares sys [] = inr []
file_shares sys (s ∷ shares) = do
  name ← name_or_default sys s.name s.path
  rest ← file_shares sys shares
  inr (record s { name = name } ∷ rest)

unfoldable pub cli_shares : System → List CliShare → Checked (List ShareConfig)
cli_shares sys [] = inr []
cli_shares sys (s ∷ shares) = do
  name ← name_or_default sys s.name s.path
  rest ← cli_shares sys shares
  inr (record { name = name; path = s.path; read_only = false; guest_ok = false } ∷ rest)

abbrev pub every_share : List (List ℕ)
every_share = codes "*" ∷ []

abbrev pub file_user : FileUser → UserConfig
file_user u = record {
  name = u.name;
  nt_hash = u.nt_hash;
  system_user = u.system_user;
  system_uid = 0;
  system_gid = 0;
  allow_shares = or_keep u.allow_shares every_share;
}

abbrev pub cli_user : System → CliUser → UserConfig
cli_user sys u = record {
  name = u.name;
  nt_hash = nt_hash sys u.password;
  system_user = u.system_user;
  system_uid = 0;
  system_gid = 0;
  allow_shares = every_share;
}

abbrev pub file_users : List FileUser → List UserConfig
file_users [] = []
file_users (u ∷ us) = file_user u ∷ file_users us

abbrev pub cli_users : System → List CliUser → List UserConfig
cli_users sys [] = []
cli_users sys (u ∷ us) = cli_user sys u ∷ cli_users sys us

-- `Merge`
unfoldable pub merge : System → Cli → File → Checked Config
merge sys cli file = do
  from_file ← duration sys file.durable_timeout defaults.server.durable_timeout
  timeout ← duration sys cli.durable_timeout from_file
  shares ← file_shares sys file.shares
  more_shares ← cli_shares sys cli.shares
  inr (record {
    server = record {
      listen = or_keep cli.listen (or_keep file.listen defaults.server.listen);
      netbios = or_keep cli.netbios (or_keep file.netbios defaults.server.netbios);
      mdns = or_keep cli.mdns (or_keep file.mdns defaults.server.mdns);
      encryption =
          if is_set cli.no_encryption
          then codes "off"
          else or_keep file.encryption defaults.server.encryption;
      signing =
          if is_set cli.no_signing
          then codes "preferred"
          else or_keep file.signing defaults.server.signing;
      durable_timeout = timeout;
      state_dir = or_keep cli.state_dir (or_keep file.state_dir defaults.server.state_dir);
      per_user_privdrop =
          or_keep cli.per_user_privdrop
            (or_keep file.per_user_privdrop defaults.server.per_user_privdrop);
    };
    log = record {
      level = or_keep cli.level (or_keep file.level defaults.log.level);
      format = or_keep cli.format (or_keep file.format defaults.log.format);
    };
    shares = shares ++ more_shares;
    users = file_users file.users ++ cli_users sys cli.users;
  })

-- The text in front of the first `/` and behind it, where there is one: `strings.Cut`.
abbrev pub before : ℕ → List ℕ × List ℕ → List ℕ × List ℕ
before c (u, g) = (c ∷ u, g)

unfoldable pub cut : List ℕ → Option (List ℕ × List ℕ)
cut [] = none
cut (c ∷ spec) =
    if c == 0x2F
    then some ([], spec)
    else elim (cut spec) [ none ↦ none | some p ↦ some (before c p) ]

-- A name is `none`.
unfoldable pub parse_numeric_system_user : System → List ℕ → Checked (Option (ℕ × ℕ))
parse_numeric_system_user sys spec = elim (cut spec) [
  | some (u, g) ↦ do
    uid ← or_error (sys.atoi u) bad_system_user
    gid ← or_error (sys.atoi g) bad_system_user
    inr (some (uid, gid))
  | none ↦ elim (sys.atoi spec) [ none ↦ inr none | some n ↦ inr (some (n, n)) ]
]

unfoldable pub system_ids : System → List ℕ → Checked (ℕ × ℕ)
system_ids sys [] = inr (sys.getuid, sys.getgid)
system_ids sys (c ∷ spec) = do
  numeric ← parse_numeric_system_user sys (c ∷ spec)
  elim numeric [
    | some ids ↦ inr ids
    | none ↦ do
      (u, g) ← or_error (sys.lookup_user (c ∷ spec)) bad_system_user
      uid ← or_error (sys.atoi u) bad_system_user
      gid ← or_error (sys.atoi g) bad_system_user
      inr (uid, gid)
  ]

abbrev pub is_one_of : List ℕ → List (List ℕ) → Bool
is_one_of s names = any (λ n. same_bytes n s) names

abbrev pub is_empty : List ℕ → Bool
is_empty [] = true
is_empty (c ∷ s) = false

unfoldable pub validate_shares : System → List (List ℕ) → List ShareConfig → Checked (Unit {0})
validate_shares sys seen [] = inr tt
validate_shares sys seen (s ∷ shares) = do
  guard (not (is_empty s.name)) empty_share_name
  guard (not (is_one_of s.name (codes "." ∷ codes ".." ∷ []))) reserved_share_name
  guard (not (is_one_of (sys.to_lower s.name) seen)) duplicate_share
  dir ← or_error (sys.is_dir s.path) bad_share_path
  guard dir bad_share_path
  validate_shares sys (sys.to_lower s.name ∷ seen) shares

unfoldable pub validate_users : System → List (List ℕ) → List UserConfig → Checked (List UserConfig)
validate_users sys seen [] = inr []
validate_users sys seen (u ∷ users) = do
  guard (not (is_empty u.name)) empty_user_name
  guard (not (is_one_of (sys.to_lower u.name) seen)) duplicate_user
  guard (not (same_bytes u.nt_hash (replicate 16 0))) no_credential
  (uid, gid) ← system_ids sys u.system_user
  rest ← validate_users sys (sys.to_lower u.name ∷ seen) users
  inr (record u { system_uid = uid; system_gid = gid } ∷ rest)

abbrev pub encryption_modes : List (List ℕ)
encryption_modes = codes "required" ∷ codes "preferred" ∷ codes "off" ∷ []

abbrev pub signing_modes : List (List ℕ)
signing_modes = codes "required" ∷ codes "preferred" ∷ []

abbrev pub log_levels : List (List ℕ)
log_levels = codes "debug" ∷ codes "info" ∷ codes "warn" ∷ codes "error" ∷ []

abbrev pub log_formats : List (List ℕ)
log_formats = codes "text" ∷ codes "json" ∷ []

-- `Validate`: the configuration with the ids of its users.
unfoldable pub validate : System → Config → Checked Config
validate sys cfg = do
  guard (sys.splits cfg.server.listen) bad_listen
  guard (is_one_of cfg.server.encryption encryption_modes) bad_encryption
  guard (is_one_of cfg.server.signing signing_modes) bad_signing
  guard (is_one_of cfg.log.level log_levels) bad_level
  guard (is_one_of cfg.log.format log_formats) bad_format
  guard (not cfg.server.netbios) netbios_refused
  validate_shares sys [] cfg.shares
  users ← validate_users sys [] cfg.users
  inr (record cfg { users = users })
