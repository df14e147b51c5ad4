-- ===== src/Tests.antt =====
-- Concrete data for the tests: a small instance of the third-party crates, a host, and a database.
pub mod AgentRuns
pub mod ManagerRuns
pub mod RouteRuns
pub mod TrustRuns
use linux_host_firewall_mana.Prelude.{
  ℕ, ◌+◌, ◌/◌, ◌^◌, ◌≡◌, refl, ◌↔◌, String, Bool, true, false, not, ◌||◌, ◌&&◌, Option, none, some,
  List, [], ◌∷◌, ◌==◌, nat_eq, if◌then◌else◌, ok, arith,
}
use linux_host_firewall_mana.Prelude.Int.{pos, show_ℕ}
use linux_host_firewall_mana.Crates.{
  IpAddr, v4, is_ipv4, value, Crates, NetLaws, SqlType, Postgres, PostgresLaws,
}
use linux_host_firewall_mana.Prelude.Lists.{any}
use linux_host_firewall_mana.Models.{
  FirewallAction, FirewallDirection, FirewallProtocol, FirewallRule,
}
use linux_host_firewall_mana.Agent.Os.{Event, done, Env}
use linux_host_firewall_mana.Agent.State.{Agent}

abbrev sum : List ℕ → ℕ
sum [] = 0
sum (n ∷ ns) = n + sum ns

abbrev same_family : Bool → Bool → Bool
same_family true b = b
same_family false true = false
same_family false false = true

-- A network as its address and the number of its host bits.
abbrev contains_ip : IpAddr × ℕ → IpAddr → Bool
contains_ip (net, bits) ip =
    same_family (is_ipv4 ip) (is_ipv4 net) && nat_eq (value ip / 2 ^ bits) (value net / 2 ^ bits)

abbrev is_assignable : SqlType → SqlType → Bool
is_assignable SqlType.text_type SqlType.text_type = true
is_assignable SqlType.text_type _ = false
is_assignable _ _ = true

abbrev pub postgres : Postgres
postgres = record {
  is_assignable = is_assignable;
  is_clear = λ column tables. not (any (λ t. t == "excluded") tables);
  nextval = λ now. now;
}

abbrev or_true : (b : Bool) → b || true ≡ true
or_true true = refl
or_true false = refl

pub postgres_laws : PostgresLaws postgres
postgres_laws = record {
  no_inet = refl;
  no_jsonb = refl;
  no_decision = refl;
  ambiguous = λ table. rw (or_true (table == "excluded")) refl;
}

abbrev pub crates : Crates
crates = record {
  postgres = postgres;
  IpNet = IpAddr × ℕ;
  parse_net = λ s.
      if s == "10.0.0.0/8"
      then some (v4 167772160, 24)
      else if s == "10.1.0.0/16"
      then some (v4 167837696, 16)
      else if s == "192.168.0.0/16"
      then some (v4 3232235520, 16)
      else none;
  network = λ n. n.0;
  contains_ip = contains_ip;
  parse_ip = λ s. if s == "10.0.0.1" then some (v4 167772161) else none;
  ip_string = λ ip. "10.0.0.1";
  sha256_hex = λ bytes. show_ℕ (sum bytes);
  uuid_bytes = λ id. id ∷ [];
  uuid_string = show_ℕ;
  shlex_split = λ s. some ("ufw" ∷ s ∷ []);
  parse_url = λ s. ok (record { scheme = "https"; host = some s; port = some 443 });
  json_object = λ o. "{}";
  rfc3339 = show_ℕ;
}

family_iff : (a b : Bool) → (same_family a b ≡ true) ↔ (a ≡ b)
family_iff true true = (λ h. refl, λ h. refl)
family_iff true false = (λ h. cc, λ h. cc)
family_iff false true = (λ h. cc, λ h. cc)
family_iff false false = (λ h. refl, λ h. refl)

holds_iff : (a b : Bool) (x y : ℕ) → ((same_family a b && nat_eq x y) ≡ true) ↔ ((a ≡ b) × (x ≡ y))
holds_iff a b x y =
    let f = family_iff a b in
    (λ h. (f.0 (ground arith), ground arith), λ h. ground (arith, f.1 h.0))

pub crates_laws : NetLaws crates
crates_laws = record {
  host_bits = λ n. n.1;
  contains_iff =
      λ n ip. holds_iff (is_ipv4 ip) (is_ipv4 n.0) (value ip / 2 ^ n.1) (value n.0 / 2 ^ n.1);
}

-- Every command succeeds and prints nothing.
abbrev pub calm : Env
calm = record {
  output = λ h cmd args. done true "" "";
  removed = λ h path. true;
  lock_error = λ h. none;
  path_exists = λ h path. false;
  env_var = λ name. none;
  seconds = λ h. 100;
  now_utc = λ h. 7;
  writable = λ h path. true;
  left = λ h path. none;
  uptime_seconds = λ h. pos 5;
  arch = "x86_64";
  agent_version = "1.0.0";
  agent_binary_hash = none;
}

abbrev pub agent : Agent
agent = record {
  history = [];
  disk = record {
    executed_actions = some "4\n";
    last_good = none;
    last_defaults = none;
    expected_hash = none;
    config_toml = none;
  };
  config = record {
    manager_url = "https://10.0.0.1";
    fqdn = "host";
    host_id = some "3";
    cert_dir = "";
    config_dir = "";
    log_dir = "";
    safe_mode_enabled = true;
    safe_mode_timeout_secs = 60;
    protected_cidrs = "10.0.0.0/8" ∷ [];
    pull = record {
      check_in_interval_secs = 30;
      manager_agent_url = "10.0.0.1";
      config_version = pos 1;
    };
  };
  safe_mode = record {
    last_manager_contact = some 90;
    safe_mode_active = false;
    timeout_secs = 60;
  };
  interval_secs = 30;
  config_version = pos 1;
}

abbrev pub rule : ℕ → FirewallAction → Option String → FirewallRule
rule id action src = record {
  id = id;
  name = "ssh";
  description = "";
  action = action;
  direction = FirewallDirection.«in»;
  protocol = FirewallProtocol.tcp;
  src_cidr = src;
  src_port_start = none;
  src_port_end = none;
  dst_cidr = none;
  dst_port_start = some (pos 22);
  dst_port_end = none;
  interface_in = none;
  interface_out = none;
  comment = "";
  log = false;
  priority = pos 1;
  created_by = none;
  created_at = 0;
  updated_at = 0;
}
