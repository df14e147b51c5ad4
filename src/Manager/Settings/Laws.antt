-- ===== src/Manager/Settings/Laws.antt =====
-- What the settings of crates/fw-web/src/routes/settings.rs guarantee.
use linux_host_firewall_mana.Prelude.{
  ℕ, String, ◌≡◌, refl, sym, ◌∙◌, ap, Bool, true, false, ◌||◌, some, List, [], ◌∷◌, inl, inr,
  Bool-cases, Option-cases, Result-cases, Result, ok, err, arith, unwrap_or, if◌then◌else◌,
}
use linux_host_firewall_mana.Prelude.Int.{ℤ, pos, negsuc, int_lt, int_eq}
use linux_host_firewall_mana.Prelude.Lists.{any, is_empty}
use linux_host_firewall_mana.Crates.{Crates, IpAddr, v4, SerdeJson}
use linux_host_firewall_mana.Auth.Rbac.{
  AuthUser, AuthConfig, is_admin, is_ip_allowed, parse_nets, update_ip_whitelist,
}
use linux_host_firewall_mana.Manager.Tables.{ConfigRow}
use linux_host_firewall_mana.Manager.Db.{ConfigOverride}
use linux_host_firewall_mana.Manager.Handler.{AppError}
use linux_host_firewall_mana.Manager.Settings.{
  clamp_interval, global_check_in_interval, get_config_json, interval_of_value, propagate_interval,
  plus_one, NetText, validate_entries, covers, save_whitelist, put_ip_whitelist, Live, lockout,
}

-- Between one second and a day.
abbrev pub IsInterval : ℤ → Type 0
IsInterval n = (int_lt n (pos 1) ≡ false) × (int_lt (pos 86400) n ≡ false)

pub clamp_interval-IsInterval : (n : ℤ) → IsInterval (clamp_interval n)
unfolding clamp_interval
clamp_interval-IsInterval (negsuc n) = (refl, refl)
clamp_interval-IsInterval (pos n) = (ground arith, ground arith)

-- The fleet's polling interval lies between one second and a day, whatever is stored.
pub global_check_in_interval-IsInterval :
    (j : SerdeJson) (rows : List ConfigRow) → IsInterval (global_check_in_interval j rows)
unfolding global_check_in_interval
global_check_in_interval-IsInterval j rows =
    elim (Option-cases (get_config_json j "settings_polling" rows)) [
      | inl missing ↦ rw (global_check_in_interval, missing) (refl, refl)
      | inr (v, there) ↦ elim (Option-cases (j.get_i64 "check_in_interval_secs" v)) [
        | inl missing ↦
            rw (global_check_in_interval, there, interval_of_value, missing) (refl, refl)
        | inr (n, given) ↦
            rw (global_check_in_interval, there, interval_of_value, given)
              (clamp_interval-IsInterval n)
      ]
    ]

int_eq-eq : (a b : ℤ) → int_eq a b ≡ true → a ≡ b
int_eq-eq (pos a) (pos b) h = let e : a ≡ b = ground arith in ap pos e
int_eq-eq (negsuc a) (negsuc b) h = let e : a ≡ b = ground arith in ap negsuc e
int_eq-eq (pos a) (negsuc b) h = cc
int_eq-eq (negsuc a) (pos b) h = cc

-- A new polling interval reaches every host: afterwards each row has it, and a row's version grows by
-- one exactly when its interval was another one.
abbrev pub Propagated : ℤ → List ConfigOverride → List ConfigOverride → Type 0
Propagated n [] [] = Unit
Propagated n [] (p ∷ after) = ⊥
Propagated n (o ∷ before) [] = ⊥
Propagated n (o ∷ before) (p ∷ after) =
    (p.check_in_interval_secs ≡ n)
    × (p.config_version ≡ (
        if int_eq o.check_in_interval_secs n then o.config_version else plus_one o.config_version))
    × Propagated n before after

pub propagate_interval-Propagated :
    (n : ℤ) (rows : List ConfigOverride) → Propagated n rows (propagate_interval n rows)
unfolding propagate_interval
propagate_interval-Propagated n [] = tt
propagate_interval-Propagated n (o ∷ rows) = elim (Bool-cases (int_eq o.check_in_interval_secs n)) [
  | inl equal ↦
      rw equal
        (int_eq-eq o.check_in_interval_secs n equal, refl, propagate_interval-Propagated n rows)
  | inr other ↦ rw other (refl, refl, propagate_interval-Propagated n rows)
]

no_ok : {A : Type 0} (e : AppError) → ◌≡◌ {A = Result (Unit {0}) AppError} (err e) (ok tt) → A
no_ok e h = cc

module _ (c : Crates) (n : NetText c) where
  any-parse_nets :
      (ip : IpAddr) (entries : List String)
      → any (λ net. c.contains_ip net ip) (parse_nets c entries) ≡ any (covers c n ip) entries
  unfolding parse_nets covers
  any-parse_nets ip [] = refl
  any-parse_nets ip (entry ∷ entries) = elim (Option-cases (c.parse_net entry)) [
    | inl bad ↦ rw (bad, covers, parse_nets) (any-parse_nets ip entries)
    | inr (net, good) ↦
        rw (good, covers, parse_nets)
          (ap (λ b. c.contains_ip net ip || b) (any-parse_nets ip entries))
  ]

  or_true : (b : Bool) → b || true ≡ true
  or_true true = refl
  or_true false = refl

  -- The whitelist lets in whom its entries cover.
  update_ip_whitelist-allowed :
      (ip : IpAddr) (entries : List String) (a : AuthConfig c)
      → is_empty entries || any (covers c n ip) entries ≡ true
      → is_ip_allowed c (update_ip_whitelist c entries a) ip ≡ true
  unfolding update_ip_whitelist is_ip_allowed parse_nets
  update_ip_whitelist-allowed ip [] a h = refl
  update_ip_whitelist-allowed ip (e ∷ es) a h =
      ap (λ b. is_empty (parse_nets c (e ∷ es)) || b) (any-parse_nets ip (e ∷ es) ∙ h) ∙ or_true _

  module _ (j : SerdeJson) (stored : ℕ → ℕ) (now : ℕ) (auth : AuthUser) where
    abbrev covered : List String → Bool
    covered entries = is_empty entries || any (covers c n (unwrap_or auth.ip (v4 0))) entries

    save_whitelist_ok :
        (entries : List String) (live : Live c n)
        → covered entries ≡ true
        → (save_whitelist c n j stored now auth entries live).1.1
          ≡ update_ip_whitelist c entries live.1
    unfolding save_whitelist
    save_whitelist_ok entries (db, a) inside = rw (save_whitelist, inside) refl

    save_whitelist_err :
        (entries : List String) (live : Live c n)
        → covered entries ≡ false
        → (save_whitelist c n j stored now auth entries live).0
          ≡ err (lockout c n (unwrap_or auth.ip (v4 0)))
    unfolding save_whitelist
    save_whitelist_err entries (db, a) outside = rw (save_whitelist, outside) refl

    save_whitelist-allowed :
        (ip : IpAddr) (entries : List String) (live : Live c n)
        → auth.ip ≡ some ip
        → (save_whitelist c n j stored now auth entries live).0 ≡ ok tt
        → is_ip_allowed c (save_whitelist c n j stored now auth entries live).1.1 ip ≡ true
    save_whitelist-allowed ip entries live from h = elim (Bool-cases (covered entries)) [
      | inr outside ↦ no_ok _ (sym (save_whitelist_err entries live outside) ∙ h)
      | inl inside ↦
          ap (λ a. is_ip_allowed c a ip) (save_whitelist_ok entries live inside)
          ∙ update_ip_whitelist-allowed ip entries live.1 (rw from at inside)
    ]

    put_step :
        (entries es : List String) (live : Live c n)
        → is_admin auth.role ≡ true
        → validate_entries c n entries ≡ ok es
        → put_ip_whitelist c n j stored now auth entries live
          ≡ save_whitelist c n j stored now auth es live
    unfolding put_ip_whitelist
    put_step entries es live boss valid = rw (put_ip_whitelist, boss, valid) refl

    put_ok :
        (entries : List String) (live : Live c n)
        → (put_ip_whitelist c n j stored now auth entries live).0 ≡ ok tt
        → (is_admin auth.role ≡ true) × (es : List String) × (validate_entries c n entries ≡ ok es)
    unfolding put_ip_whitelist
    put_ok entries live h = elim (Bool-cases (is_admin auth.role)) [
      | inr clerk ↦ no_ok _ (rw (put_ip_whitelist, clerk) at h)
      | inl boss ↦ elim (Result-cases (validate_entries c n entries)) [
        | inl (bad, e) ↦ no_ok _ (rw (put_ip_whitelist, boss, e) at h)
        | inr (es, e) ↦ (boss, es, e)
      ]
    ]

    -- The lockout check works for whom the manager sees: an administrator whose update of the
    -- whitelist is accepted still passes the whitelist from the address that the update came from.
    pub put_ip_whitelist-no_lockout :
        (ip : IpAddr) (entries : List String) (live : Live c n)
        → auth.ip ≡ some ip
        → (put_ip_whitelist c n j stored now auth entries live).0 ≡ ok tt
        → is_ip_allowed c (put_ip_whitelist c n j stored now auth entries live).1.1 ip ≡ true
    put_ip_whitelist-no_lockout ip entries live from h =
        let (boss, es, valid) = put_ok entries live h in
        let step = put_step entries es live boss valid in
        ap (λ r. is_ip_allowed c r.1.1 ip) step
        ∙ save_whitelist-allowed ip es live from (sym (ap (λ r. r.0) step) ∙ h)
