-- ===== src/Models.antt =====
-- crates/fw-core/src/models.rs: the enums with their texts, the firewall rule, and the drift hash.
pub mod Hash
use linux_host_firewall_mana.Prelude.{
  ℕ, String, Bool, true, false, Option, none, some, List, [], ◌∷◌, ◌++◌, map,
}
use linux_host_firewall_mana.Prelude.Int.{ℤ, to_le_bytes}
use linux_host_firewall_mana.Prelude.Text.{as_bytes}
use linux_host_firewall_mana.Crates.{Crates}

pub data FirewallAction : Type 0 where
  allow deny reject limit masquerade : FirewallAction

pub data FirewallDefaultPolicy : Type 0 where
  allow deny reject : FirewallDefaultPolicy

pub data FirewallDirection : Type 0 where
  «in» out forward : FirewallDirection

pub data FirewallProtocol : Type 0 where
  any tcp udp icmp icmpv6 gre esp ah sctp : FirewallProtocol

pub data HostHealthStatus : Type 0 where
  pending healthy degraded unreachable : HostHealthStatus

abbrev pub action_str : FirewallAction → String
action_str FirewallAction.allow = "allow"
action_str FirewallAction.deny = "deny"
action_str FirewallAction.reject = "reject"
action_str limit = "limit"
action_str masquerade = "masquerade"

abbrev pub default_policy_str : FirewallDefaultPolicy → String
default_policy_str FirewallDefaultPolicy.allow = "allow"
default_policy_str FirewallDefaultPolicy.deny = "deny"
default_policy_str FirewallDefaultPolicy.reject = "reject"

abbrev pub direction_str : FirewallDirection → String
direction_str «in» = "in"
direction_str out = "out"
direction_str forward = "forward"

abbrev pub protocol_str : FirewallProtocol → String
protocol_str any = "any"
protocol_str tcp = "tcp"
protocol_str udp = "udp"
protocol_str icmp = "icmp"
protocol_str icmpv6 = "icmpv6"
protocol_str gre = "gre"
protocol_str esp = "esp"
protocol_str ah = "ah"
protocol_str sctp = "sctp"

abbrev pub is_allow : FirewallAction → Bool
is_allow FirewallAction.allow = true
is_allow _ = false

-- Deny or reject.
abbrev pub is_blocking : FirewallAction → Bool
is_blocking FirewallAction.deny = true
is_blocking FirewallAction.reject = true
is_blocking _ = false

abbrev pub is_out : FirewallDirection → Bool
is_out out = true
is_out _ = false

abbrev pub is_any_protocol : FirewallProtocol → Bool
is_any_protocol any = true
is_any_protocol _ = false

-- A uuid is its 128-bit value, a time its nanoseconds since the epoch.
pub record FirewallRule : Type 0 where
  pub id : ℕ
  pub name : String
  pub description : String
  pub action : FirewallAction
  pub direction : FirewallDirection
  pub protocol : FirewallProtocol
  pub src_cidr : Option String
  pub src_port_start : Option ℤ
  pub src_port_end : Option ℤ
  pub dst_cidr : Option String
  pub dst_port_start : Option ℤ
  pub dst_port_end : Option ℤ
  pub interface_in : Option String
  pub interface_out : Option String
  pub comment : String
  pub log : Bool
  pub priority : ℤ
  pub created_by : Option ℕ
  pub created_at : ℕ
  pub updated_at : ℕ

pub record RuleHashParts : Type 0 where
  pub id : ℕ
  pub action : String
  pub direction : String
  pub protocol : String
  pub src_cidr : Option String
  pub dst_cidr : Option String
  pub dst_port_start : Option ℤ

abbrev text_bytes : Option String → List ℕ
text_bytes none = []
text_bytes (some s) = as_bytes s

abbrev port_bytes : Option ℤ → List ℕ
port_bytes none = []
port_bytes (some p) = to_le_bytes p

module _ (c : Crates) where
  -- What one round of the loop feeds the hasher.
  unfoldable pub part_bytes : RuleHashParts → List ℕ
  part_bytes r =
      c.uuid_bytes r.id
      ++ (as_bytes r.action
          ++ (as_bytes r.direction
              ++ (as_bytes r.protocol
                  ++ (text_bytes r.src_cidr
                      ++ (text_bytes r.dst_cidr ++ port_bytes r.dst_port_start)))))

  pub hash_input : List RuleHashParts → List ℕ
  hash_input [] = []
  hash_input (r ∷ rules) = part_bytes r ++ hash_input rules

  unfoldable pub compute_rules_hash : List RuleHashParts → String
  unfolding hash_input
  compute_rules_hash rules = c.sha256_hex (hash_input rules)
