-- ===== src/Config/Validated.antt =====
-- Which configurations the server starts with.
use gosamba.Prelude.{◌≡◌, ◌↔◌, refl, sym, ap, inr, Bool, true, false, not, List, [], All, Some}
use gosamba.Config.{
  Config, UserConfig, System, Checked, guard, ◌>>=◌, ◌>>◌, is_one_of, validate_shares,
  validate_users, validate, encryption_modes, signing_modes, log_levels, log_formats, bad_listen,
  bad_encryption, bad_signing, bad_level, bad_format, netbios_refused,
}
use gosamba.Config.Checks.{>>=-iff, guard_iff, one_of_iff}
use gosamba.Config.Entries.{
  Distinct, keys, ServesDirectory, HasCredential, Resolved, validate_shares_iff, validate_users_iff,
}

pub record IsSound (sys : System) (cfg : Config) : Type 0 where
  pub splits : sys.splits cfg.server.listen ≡ true
  pub encryption : Some (λ n. n ≡ cfg.server.encryption) encryption_modes
  pub signing : Some (λ n. n ≡ cfg.server.signing) signing_modes
  pub level : Some (λ n. n ≡ cfg.log.level) log_levels
  pub format : Some (λ n. n ≡ cfg.log.format) log_formats
  pub netbios : cfg.server.netbios ≡ false
  pub shares : All (ServesDirectory sys) cfg.shares
  pub share_names : Distinct [] (keys (λ s. sys.to_lower s.name) cfg.shares)
  pub users : All HasCredential cfg.users
  pub user_names : Distinct [] (keys (λ u. sys.to_lower u.name) cfg.users)

config_inj : {x y : Config} → ◌≡◌ {A = Checked Config} (inr x) (inr y) → x ≡ y
config_inj e = cc

not_iff : (b : Bool) → (not b ≡ true) ↔ (b ≡ false)
not_iff true = (λ h. cc, λ h. cc)
not_iff false = (λ h. refl, λ h. refl)

-- A configuration passes exactly if its address splits, its modes are known ones and NetBIOS is off,
-- its shares have names that are not empty, `.` or `..`, distinct in lower case, on directories, its
-- users have names that are not empty, distinct in lower case, and a hash that is not zero, and the
-- `system_user` of each resolves. The result differs in the ids of the users alone.
pub validate_iff :
    (sys : System) (cfg ready : Config)
    → (validate sys cfg ≡ inr ready) ↔ (
        IsSound sys cfg
        × ((users : List UserConfig) × Resolved sys cfg.users users
            × (ready ≡ record cfg { users = users })))
unfolding validate
validate_iff sys cfg ready =
    let encryption = one_of_iff cfg.server.encryption encryption_modes in
    let signing = one_of_iff cfg.server.signing signing_modes in
    let level = one_of_iff cfg.log.level log_levels in
    let format = one_of_iff cfg.log.format log_formats in
    let netbios = not_iff cfg.server.netbios in
    let shares = validate_shares_iff sys [] cfg.shares in
    let made : List UserConfig → Checked Config = λ users. inr (record cfg { users = users }) in
    let last : Checked Config = validate_users sys [] cfg.users >>= made in
    let k6 : Checked Config = validate_shares sys [] cfg.shares >> last in
    let k5 : Checked Config = guard (not cfg.server.netbios) netbios_refused >> k6 in
    let k4 : Checked Config = guard (is_one_of cfg.log.format log_formats) bad_format >> k5 in
    let k3 : Checked Config = guard (is_one_of cfg.log.level log_levels) bad_level >> k4 in
    let k2 : Checked Config =
      guard (is_one_of cfg.server.signing signing_modes) bad_signing >> k3 in
    let k1 : Checked Config =
      guard (is_one_of cfg.server.encryption encryption_modes) bad_encryption >> k2 in
    let g0 = guard_iff (sys.splits cfg.server.listen) bad_listen k1 {x = ready} in
    let g1 =
      guard_iff (is_one_of cfg.server.encryption encryption_modes) bad_encryption k2 {x = ready} in
    let g2 = guard_iff (is_one_of cfg.server.signing signing_modes) bad_signing k3 {x = ready} in
    let g3 = guard_iff (is_one_of cfg.log.level log_levels) bad_level k4 {x = ready} in
    let g4 = guard_iff (is_one_of cfg.log.format log_formats) bad_format k5 {x = ready} in
    let g5 = guard_iff (not cfg.server.netbios) netbios_refused k6 {x = ready} in
    let g6 = >>=-iff (validate_shares sys [] cfg.shares) (λ t. last) {x = ready} in
    let g7 = >>=-iff (validate_users sys [] cfg.users) made {x = ready} in
    (
      λ h.
          let (a, h) = g0.0 h in
          let (b, h) = g1.0 h in
          let (c, h) = g2.0 h in
          let (d, h) = g3.0 h in
          let (e, h) = g4.0 h in
          let (f, h) = g5.0 h in
          let (t, i, h) = g6.0 h in
          let (users, j, h) = g7.0 h in
          let (good, names) = shares.0 i in
          let (known, distinct, resolved) = (validate_users_iff sys [] cfg.users users).0 j in
          (
            record {
              splits = a;
              encryption = encryption.0 b;
              signing = signing.0 c;
              level = level.0 d;
              format = format.0 e;
              netbios = netbios.0 f;
              shares = good;
              share_names = names;
              users = known;
              user_names = distinct;
            },
            (users, resolved, sym (config_inj h)),
          ),
      λ r.
          let v = r.0 in
          let (users, resolved, e) = r.1 in
          let j = (validate_users_iff sys [] cfg.users users).1 (v.users, v.user_names, resolved) in
          g0.1 (
            v.splits,
            g1.1 (
              encryption.1 v.encryption,
              g2.1 (
                signing.1 v.signing,
                g3.1 (
                  level.1 v.level,
                  g4.1 (
                    format.1 v.format,
                    g5.1 (
                      netbios.1 v.netbios,
                      g6.1
                          (tt, shares.1 (v.shares, v.share_names), g7.1 (users, j, ap inr (sym e))),
                    ),
                  ),
                ),
              ),
            ),
          ),
    )
