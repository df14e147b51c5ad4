-- ===== src/Manager/Settings.antt =====
-- crates/fw-web/src/routes/settings.rs: the stored configuration, the fleet's polling interval, the
-- IP whitelist with its lockout check, and the trusted proxies.
pub mod Laws
use linux_host_firewall_mana.Prelude.{
  ℕ, zero, suc, ◌+◌, String, Bool, true, false, not, ◌||◌, Option, none, some, List, [], ◌∷◌, ◌++◌,
  ◌==◌, if◌then◌else◌, Result, ok, err, unwrap_or,
}
use linux_host_firewall_mana.Prelude.Int.{ℤ, pos, negsuc, int_lt, int_eq}
use linux_host_firewall_mana.Prelude.Lists.{any, find, is_empty, update_where}
use linux_host_firewall_mana.Prelude.Text.{concat, trim, is_blank}
use linux_host_firewall_mana.Crates.{Crates, IpAddr, v4, SerdeJson}
use linux_host_firewall_mana.Auth.Rbac.{
  AuthUser, AuthConfig, is_admin, update_ip_whitelist, update_trusted_proxies,
}
use linux_host_firewall_mana.Manager.Tables.{ConfigRow}
use linux_host_firewall_mana.Manager.Db.{ConfigOverride, Db}
use linux_host_firewall_mana.Manager.Handler.{
  AppError, forbidden, bad_request, Answer, admin_only, audit,
}

unfoldable pub config_value : String → List ConfigRow → Option String
config_value key rows = elim (find (λ r. r.key == key) rows) [ none ↦ none | some r ↦ some r.value ]

-- `INSERT … ON CONFLICT (key) DO UPDATE`
unfoldable pub upsert_config : String → String → List ConfigRow → List ConfigRow
upsert_config key value rows =
    if any (λ r. r.key == key) rows
    then update_where (λ r. r.key == key) (λ r. record r { value = value }) rows
    else rows ++ record { key = key; value = value } ∷ []

-- `n.clamp(1, 86_400)`
unfoldable pub clamp_interval : ℤ → ℤ
clamp_interval n = if int_lt n (pos 1) then pos 1 else if int_lt (pos 86400) n then pos 86400 else n

abbrev pub plus_one : ℤ → ℤ
plus_one (pos v) = pos (v + 1)
plus_one (negsuc zero) = pos 0
plus_one (negsuc (suc v)) = negsuc v

-- Rows already at the new interval are left alone.
unfoldable pub propagate_interval : ℤ → List ConfigOverride → List ConfigOverride
propagate_interval n rows =
    update_where (λ o. not (int_eq o.check_in_interval_secs n))
      (λ o. record o { check_in_interval_secs = n; config_version = plus_one o.config_version })
      rows

module _ (j : SerdeJson) where
  unfoldable pub get_config_json : String → List ConfigRow → Option j.Value
  unfolding config_value
  get_config_json key rows = elim (config_value key rows) [ none ↦ none | some s ↦ j.from_str s ]

  abbrev pub interval_of_value : j.Value → Option ℤ
  interval_of_value v = elim (j.get_i64 "check_in_interval_secs" v) [
    | none ↦ none
    | some n ↦ some (clamp_interval n)
  ]

  unfoldable pub global_check_in_interval : List ConfigRow → ℤ
  unfolding get_config_json clamp_interval
  global_check_in_interval rows = elim (get_config_json "settings_polling" rows) [
    | none ↦ pos 900
    | some v ↦ unwrap_or (interval_of_value v) (pos 900)
  ]

  pub record UpdateSettingsRequest : Type 0 where
    pub oidc : Option j.Value
    pub smtp : Option j.Value
    pub polling : Option j.Value
    pub ip_whitelist : Option (List String)
    pub web_tls_strategy : Option String
    pub notification : Option j.Value

  unfoldable pub set_config : String → j.Value → Db → Db
  unfolding upsert_config
  set_config key v db = record db {
    system_config = upsert_config key (j.to_string v) db.system_config;
  }

  unfoldable pub set_section : String → Option j.Value → Db → Db
  unfolding set_config
  set_section key none db = db
  set_section key (some v) db = set_config key v db

  unfoldable pub set_polling : Option j.Value → Db → Db
  unfolding set_config propagate_interval clamp_interval
  set_polling none db = db
  set_polling (some v) db =
      let db' = set_config "settings_polling" v db in
      elim (interval_of_value v) [
        | none ↦ db'
        | some n ↦ record db' {
          host_config_overrides = propagate_interval n db'.host_config_overrides;
        }
      ]

  module _ (c : Crates) (stored : ℕ → ℕ) (now : ℕ) where
    -- The sections in the order in which the handler writes them; the answer, `get_settings`, is left
    -- out.
    unfoldable pub update_settings : AuthUser → UpdateSettingsRequest → Db → Answer Unit
    unfolding set_section set_polling audit
    update_settings auth req db =
        let whitelist : Option j.Value = elim req.ip_whitelist [
          | none ↦ none
          | some l ↦ some (j.of_strings l)
        ] in
        let strategy : Option j.Value = elim req.web_tls_strategy [
          | none ↦ none
          | some s ↦ some (j.of_string s)
        ] in
        let db1 = set_section "ip_whitelist" whitelist db in
        let db2 = set_section "settings_smtp" req.smtp (set_section "settings_oidc" req.oidc db1) in
        let db3 = set_polling req.polling db2 in
        let db4 = set_section "settings_web_tls_strategy" strategy db3 in
        let db5 = set_section "settings_notification" req.notification db4 in
        admin_only auth db
          (ok tt, audit c stored now auth "config_changed" "system" "settings" [] db5)

    -- `update_oidc_config` and `update_smtp_config` drop the request's body.
    unfoldable pub update_config : String → AuthUser → Db → Answer Unit
    unfolding audit
    update_config section auth db =
        admin_only auth db
          (ok tt, audit c stored now auth "config_changed" "settings" section [] db)

-- `ipnet`'s text of a network, and the network of one address.
pub record NetText (c : Crates) : Type 0 where
  pub net_string : c.IpNet → String
  pub single : IpAddr → c.IpNet

module _ (c : Crates) (n : NetText c) where
  unfoldable pub validate_cidr_or_ip : String → Result String String
  unfolding trim
  validate_cidr_or_ip entry =
      let trimmed = trim entry in
      if is_blank trimmed then err entry else elim (c.parse_net trimmed) [
        | some net ↦ ok (n.net_string net)
        | none ↦ elim (c.parse_ip trimmed) [
          | some ip ↦ ok (n.net_string (n.single ip))
          | none ↦ err entry
        ]
      ]

  -- `collect::<Result<Vec<_>, _>>()`
  unfoldable pub validate_entries : List String → Result (List String) String
  unfolding validate_cidr_or_ip
  validate_entries [] = ok []
  validate_entries (entry ∷ entries) =
      let rest = validate_entries entries in
      elim (validate_cidr_or_ip entry) [
        | err bad ↦ err bad
        | ok e ↦ elim rest [ err bad ↦ err bad | ok es ↦ ok (e ∷ es) ]
      ]

  abbrev invalid_entry : String → AppError
  invalid_entry bad = bad_request (
      concat (
        "Invalid IP/CIDR entry: '" ∷ bad
        ∷ "'. Use formats like 10.0.0.0/8, 192.168.1.0/24, or 10.0.0.1" ∷ []))

  unfoldable pub covers : IpAddr → String → Bool
  covers ip entry = elim (c.parse_net entry) [ none ↦ false | some net ↦ c.contains_ip net ip ]

  abbrev pub lockout : IpAddr → AppError
  lockout ip = bad_request (
      concat (
        "Lockout prevention: your IP ("
        ∷ c.ip_string ip
        ∷ ") is not in the new whitelist. Add your IP or subnet to the list before saving, "
        ∷ "or clear the list to allow all IPs."
        ∷ []))

  -- The tables, and the configuration that the authentication middleware reads.
  abbrev pub Live : Type 0
  Live = Db × AuthConfig c

  module _ (j : SerdeJson) (stored : ℕ → ℕ) (now : ℕ) (auth : AuthUser) where
    store_list : String → List String → Db → Db
    unfolding upsert_config
    store_list key entries db = record db {
      system_config = upsert_config key (j.to_string (j.of_strings entries)) db.system_config;
    }

    unfoldable pub save_whitelist : List String → Live → Result (Unit {0}) AppError × Live
    unfolding store_list audit
    save_whitelist entries (db, a) =
        let requester = unwrap_or auth.ip (v4 0) in
        if is_empty entries || any (covers requester) entries
        then (
          ok tt,
          (
            audit c stored now auth "config_changed" "settings" "ip_whitelist" []
                (store_list "ip_whitelist" entries db),
            update_ip_whitelist c entries a,
          ),
        )
        else (err (lockout requester), (db, a))

    unfoldable pub put_ip_whitelist : List String → Live → Result (Unit {0}) AppError × Live
    unfolding validate_entries save_whitelist
    put_ip_whitelist entries live =
        if is_admin auth.role
        then elim (validate_entries entries) [
          | err bad ↦ (err (invalid_entry bad), live)
          | ok validated ↦ save_whitelist validated live
        ]
        else (err (forbidden "Admin role required"), live)

    save_proxies : List String → Live → Result (Unit {0}) AppError × Live
    unfolding store_list
    save_proxies entries (db, a) =
        (ok tt, (store_list "trusted_proxies" entries db, update_trusted_proxies c entries a))

    unfoldable pub put_trusted_proxies : List String → Live → Result (Unit {0}) AppError × Live
    unfolding validate_entries save_proxies
    put_trusted_proxies entries live =
        if is_admin auth.role
        then elim (validate_entries entries) [
          | err bad ↦ (err (invalid_entry bad), live)
          | ok validated ↦ save_proxies validated live
        ]
        else (err (forbidden "Admin role required"), live)
