-- ===== src/Agent/Wire.antt =====
-- The messages of crates/fw-agent/src/pull_client.rs and `dto_to_rule` of pull_loop.rs.
use linux_host_firewall_mana.Prelude.{ℕ, String, Bool, Option, none, List, ◌==◌, if◌then◌else◌}
use linux_host_firewall_mana.Prelude.Int.{ℤ}
use linux_host_firewall_mana.Models.{
  FirewallAction, FirewallDirection, FirewallProtocol, FirewallRule, RuleHashParts, action_str,
  direction_str, protocol_str,
}

pub record RuleDto : Type 0 where
  pub id : ℕ
  pub name : String
  pub action : String
  pub direction : String
  pub protocol : String
  pub src_cidr : Option String
  pub src_port_start : Option ℤ
  pub src_port_end : Option ℤ
  pub dst_cidr : Option String
  pub dst_port_start : Option ℤ
  pub dst_port_end : Option ℤ
  pub interface_in : Option String
  pub interface_out : Option String
  pub priority : ℤ
  pub log : Bool

pub record ConfigUpdate : Type 0 where
  pub check_in_interval_secs : ℤ
  pub safe_mode_enabled : Bool
  pub backend_override : Option String
  pub config_version : ℤ

-- The payload is the JSON text; the agent never reads it.
pub record PendingActionDto : Type 0 where
  pub id : ℕ
  pub action_type : String
  pub payload : String
  pub reason : String

pub record OsInfo : Type 0 where
  pub hostname : String
  pub os : String
  pub arch : String
  pub container_runtime : Option String

pub record CheckInRequest : Type 0 where
  pub host_id : ℕ
  pub rules_hash : String
  pub agent_version : String
  pub backend_type : String
  pub os_info : OsInfo
  pub uptime_seconds : ℤ
  pub config_version : ℤ
  pub local_drift : Bool
  pub agent_binary_hash : Option String

pub record CheckInResponse : Type 0 where
  pub rules_changed : Bool
  pub rules : List RuleDto
  pub config : Option ConfigUpdate
  pub pending_actions : List PendingActionDto
  pub default_input_policy : Option String
  pub default_output_policy : Option String

-- An action text that is not known is taken as "allow", an unknown direction as "in" and an unknown
-- protocol as "any".
unfoldable pub parse_action : String → FirewallAction
parse_action s =
    if s == "allow"
    then FirewallAction.allow
    else if s == "deny"
    then FirewallAction.deny
    else if s == "reject"
    then FirewallAction.reject
    else if s == "limit"
    then FirewallAction.limit
    else if s == "masquerade"
    then FirewallAction.masquerade
    else FirewallAction.allow

unfoldable pub parse_direction : String → FirewallDirection
parse_direction s =
    if s == "in"
    then FirewallDirection.«in»
    else if s == "out"
    then FirewallDirection.out
    else if s == "forward"
    then FirewallDirection.forward
    else FirewallDirection.«in»

unfoldable pub parse_protocol : String → FirewallProtocol
parse_protocol s =
    if s == "any"
    then FirewallProtocol.any
    else if s == "tcp"
    then FirewallProtocol.tcp
    else if s == "udp"
    then FirewallProtocol.udp
    else if s == "icmp"
    then FirewallProtocol.icmp
    else if s == "icmpv6"
    then FirewallProtocol.icmpv6
    else if s == "gre"
    then FirewallProtocol.gre
    else if s == "esp"
    then FirewallProtocol.esp
    else if s == "ah"
    then FirewallProtocol.ah
    else if s == "sctp"
    then FirewallProtocol.sctp
    else FirewallProtocol.any

-- At the time of the call.
unfoldable pub dto_to_rule : ℕ → RuleDto → FirewallRule
unfolding parse_action parse_direction parse_protocol
dto_to_rule now dto = record {
  id = dto.id;
  name = dto.name;
  description = "";
  action = parse_action dto.action;
  direction = parse_direction dto.direction;
  protocol = parse_protocol dto.protocol;
  src_cidr = dto.src_cidr;
  src_port_start = dto.src_port_start;
  src_port_end = dto.src_port_end;
  dst_cidr = dto.dst_cidr;
  dst_port_start = dto.dst_port_start;
  dst_port_end = dto.dst_port_end;
  interface_in = dto.interface_in;
  interface_out = dto.interface_out;
  comment = dto.name;
  log = dto.log;
  priority = dto.priority;
  created_by = none;
  created_at = now;
  updated_at = now;
}

-- What the agent hashes of a rule that it applied.
abbrev pub rule_parts : FirewallRule → RuleHashParts
rule_parts r = record {
  id = r.id;
  action = action_str r.action;
  direction = direction_str r.direction;
  protocol = protocol_str r.protocol;
  src_cidr = r.src_cidr;
  dst_cidr = r.dst_cidr;
  dst_port_start = r.dst_port_start;
}
