-- ===== src/Tests/TrustRuns.antt =====
-- The theorems on login, settings, rule groups, hosts and certificates at concrete requests.
use linux_host_firewall_mana.Prelude.{
  ◌==◌, eq_iff, sym, ◌∙◌, ◌≡◌, refl, String, true, false, none, some, [], ◌∷◌, Result, ok, err,
  arith,
}
use linux_host_firewall_mana.Prelude.Int.{pos}
use linux_host_firewall_mana.Prelude.Lists.{any}
use linux_host_firewall_mana.Crates.{v4, Argon2, Argon2Laws}
use linux_host_firewall_mana.Models.{
  FirewallAction, FirewallDirection, FirewallProtocol, HostHealthStatus,
}
use linux_host_firewall_mana.Auth.Rbac.{
  AuthUser, RefreshTokenRow, admin, can_access_host, is_ip_allowed,
}
use linux_host_firewall_mana.Ca.{CertificateAuthority}
use linux_host_firewall_mana.Ca.Crl.{is_listed, generate_crls}
use linux_host_firewall_mana.Ca.Crl.Laws.{generate_crls-refused}
use linux_host_firewall_mana.Ca.Issuing.{X509, split_pem_chain, with_issuing_ca}
use linux_host_firewall_mana.Ca.Issuing.Laws.{IsFit, with_issuing_ca_ok}
use linux_host_firewall_mana.Manager.Db.{Db}
use linux_host_firewall_mana.Manager.Tables.{UserRow, AuthProvider, Certificate, CertStatus}
use linux_host_firewall_mana.Manager.Handler.{unauthorized}
use linux_host_firewall_mana.Manager.Login.{LoginDraws, LoginRequest, login, refresh_token, logout}
use linux_host_firewall_mana.Manager.Login.Laws.{login-locks, login-refresh_token-refused}
use linux_host_firewall_mana.Manager.Settings.{
  NetText, put_ip_whitelist, global_check_in_interval, Live, covers,
}
use linux_host_firewall_mana.Manager.Settings.Laws.{
  IsInterval, global_check_in_interval-IsInterval, put_ip_whitelist-no_lockout,
}
use linux_host_firewall_mana.Manager.RuleGroups.{CreateRuleInGroupRequest}
use linux_host_firewall_mana.Manager.Hosts.{add_host_to_group}
use linux_host_firewall_mana.Manager.Hosts.Laws.{add_host_to_group-grants}
use linux_host_firewall_mana.Tests.{crates, postgres, postgres_laws}
use linux_host_firewall_mana.Tests.ManagerRuns.{db, boss, clerk, stored}
use linux_host_firewall_mana.Tests.RouteRuns.{json, argon, rcgen, authority, issue}

abbrev ann : UserRow
ann = record {
  id = 2;
  username = "ann";
  display_name = "Ann";
  email = "a";
  role = admin;
  auth_provider = AuthProvider.local;
  password_hash = some "secret";
  mfa_enabled = false;
  is_active = true;
  force_password_reset = false;
  last_login_at = none;
  failed_login_attempts = 4;
  locked_until = none;
}

abbrev attempt : String → LoginRequest
attempt password = record { username = "ann"; password = password; mfa_code = none }

abbrev login_draws : LoginDraws
login_draws = record { salt = "s"; refresh_token = "r"; jti = "j" }

abbrev with_ann : Db
with_ann = record db { users = ann ∷ [] }

login-locks_example :
    login crates argon stored 20 issue login_draws
      (attempt "secret")
      (login crates argon stored 10 issue login_draws (attempt "wrong") with_ann).1
    ≡ (
      err (unauthorized "Account locked"),
      (login crates argon stored 10 issue login_draws (attempt "wrong") with_ann).1,
    )
login-locks_example =
    login-locks crates argon stored issue 10 20 login_draws login_draws (attempt "wrong")
      (attempt "secret") ann with_ann refl refl refl refl (omega arith) refl (omega arith)

abbrev session : RefreshTokenRow
session = record { user_id = 2; token_hash = "z"; expires_at = 99; jti = "j"; revoked = false }

abbrev with_session : Db
with_session = record db { users = ann ∷ []; refresh_tokens = session ∷ [] }

-- Hashes that name their salt.
abbrev salty : Argon2
salty = record argon { hash_with = λ salt password. ok salt }

ok_inj : (a b : String) → ◌≡◌ {A = Result String String} (ok a) (ok b) → a ≡ b
ok_inj a b h = cc

salty_laws : Argon2Laws salty
salty_laws = record {
  salted = λ s s' p p' hash made made'. ok_inj s hash made ∙ sym (ok_inj s' hash made');
}

apart : (a b : String) → (a == b) ≡ false → a ≡ b → ⊥
apart a b other e = let same = (eq_iff a b).1 e in cc

abbrev later_draws : LoginDraws
later_draws = record login_draws { salt = "t" }

abbrev logged_in_db : Db
logged_in_db = (login crates salty stored 10 issue login_draws (attempt "secret") with_session).1

login-refresh_token-refused_example :
    (refresh_token crates salty stored 11 issue later_draws "r" logged_in_db
      ≡ (err (unauthorized "Invalid refresh token"), logged_in_db))
    × ((logout crates salty stored 11 issue later_draws boss "r" logged_in_db).1.refresh_tokens
        ≡ logged_in_db.refresh_tokens)
login-refresh_token-refused_example =
    login-refresh_token-refused crates salty stored issue 10 11 login_draws later_draws boss
      (attempt "secret") "r" "t" with_session salty_laws (apart "s" "t" refl)
      (("z", "r", refl, apart "z" "t" refl), tt) refl

global_check_in_interval-IsInterval_example :
    IsInterval
      (global_check_in_interval json (record { key = "settings_polling"; value = "" } ∷ []))
global_check_in_interval-IsInterval_example =
    global_check_in_interval-IsInterval json (record { key = "settings_polling"; value = "" } ∷ [])

abbrev net_text : NetText crates
net_text = record { net_string = λ n. "10.0.0.0/8"; single = λ ip. (ip, 0) }

abbrev caller : AuthUser
caller = record boss { ip = some (v4 167772161) }

abbrev live : Live crates net_text
live = (db, record { ip_whitelist = []; trusted_proxies = []; db = none })

put_ip_whitelist-no_lockout_example :
    is_ip_allowed crates
      (put_ip_whitelist crates net_text json stored 10 caller ("10.0.0.0/8" ∷ []) live).1.1
      (v4 167772161)
    ≡ true
unfolding put_ip_whitelist covers
put_ip_whitelist-no_lockout_example =
    put_ip_whitelist-no_lockout crates net_text json stored 10 caller (v4 167772161)
      ("10.0.0.0/8" ∷ []) live refl refl

abbrev new_form : CreateRuleInGroupRequest
new_form = record {
  name = "web-ssh";
  description = none;
  action = FirewallAction.allow;
  direction = FirewallDirection.«in»;
  protocol = FirewallProtocol.tcp;
  src_cidr = some "10.0.0.0/8";
  src_port_start = none;
  src_port_end = none;
  dst_cidr = none;
  dst_port_start = some (pos 22);
  dst_port_end = none;
  interface_in = none;
  interface_out = none;
  comment = none;
  log = none;
  priority = none;
  group_order = none;
}

abbrev with_group : Db
with_group = record db {
  rule_groups = record { id = 2; name = "base"; description = ""; created_by = none } ∷ [];
}

abbrev leaf : Certificate
leaf = record {
  id = 1;
  host_id = some 3;
  serial_number = "07";
  common_name = "3";
  status = CertStatus.revoked;
  issued_at = 1;
  expires_at = 100;
  revoked_at = some 5;
  cert_pem = "";
  ca_tier = "leaf";
  issuer_serial = none;
}

-- Nothing is listed before the revocation, and no list comes after it.
generate_crls-refused_example :
    (any (is_listed 20) (leaf ∷ []) ≡ true
      → (e : String) × (generate_crls postgres rcgen 20 authority (leaf ∷ []) [] ≡ (err e, [])))
    × (any (is_listed 20) (leaf ∷ []) ≡ false
        → generate_crls postgres rcgen 20 authority (leaf ∷ []) [] ≡ (ok [], []))
generate_crls-refused_example =
    generate_crls-refused postgres rcgen postgres_laws 20 authority (leaf ∷ []) []

abbrev operated : Db
operated = record db {
  hosts =
      record {
        id = 3;
        fqdn = "web";
        ip_address = "10.0.0.1";
        display_name = "web";
        os_name = none;
        notes = "";
        health_status = HostHealthStatus.pending;
        last_health_at = none;
        agent_version = none;
      }
      ∷ [];
  groups = record { id = 4; name = "mine"; description = "" } ∷ [];
  operator_host_groups = record { user_id = 1; group_id = 4 } ∷ [];
  policy_sets =
      record {
        id = 6;
        name = "set";
        description = "";
        created_by = none;
        default_input_policy = none;
        default_output_policy = none;
      }
      ∷ [];
}

add_host_to_group-grants_example :
    ((add_host_to_group clerk 4 3 operated).0 ≡ ok tt)
    × (can_access_host
          (add_host_to_group clerk 4 3 operated).1.operator_host_groups
          (add_host_to_group clerk 4 3 operated).1.host_groups
          clerk
          3
        ≡ true)
add_host_to_group-grants_example = add_host_to_group-grants clerk 4 3 operated refl refl refl refl

abbrev sub_ca : X509
sub_ca = record {
  issuer = "up";
  subject = "up";
  not_before = 1;
  not_after = 90;
  is_ca = true;
  key_usage = some (true, true);
  subject_pki = "key";
  raw_serial = 4 ∷ [];
  common_name = "sub";
}

abbrev pem : String
pem = "-----END CERTIFICATE-----\n"

abbrev with_sub : CertificateAuthority rcgen
with_sub = record authority {
  issuing =
      some
        (record { issuer = "key"; chain_pems = pem ∷ []; serial_hex = "07"; subject_cn = "sub" });
}

with_issuing_ca_ok_example :
    (spki : String) × (◌≡◌ {A = Result String String} (ok "key") (ok spki))
    × IsFit rcgen (λ s. ok sub_ca) (λ s. ok s) (λ s k. ok k) 10 spki pem []
unfolding with_issuing_ca split_pem_chain
with_issuing_ca_ok_example =
    with_issuing_ca_ok rcgen (λ s. ok sub_ca) (λ s. ok s) (λ s k. ok k) 10 pem "key" pem []
      authority with_sub refl refl
