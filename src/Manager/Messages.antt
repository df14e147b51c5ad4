-- ===== src/Manager/Messages.antt =====
-- The messages of crates/fw-web/src/routes/agent_api.rs, and what the other side decodes of them.
use linux_host_firewall_mana.Prelude.{ℕ, String, Bool, Option, none, some, List}
use linux_host_firewall_mana.Prelude.Int.{ℤ}
use linux_host_firewall_mana.Models.{
  FirewallRule, RuleHashParts, action_str, direction_str, protocol_str,
}
use linux_host_firewall_mana.Agent.Wire
use linux_host_firewall_mana.Agent.Wire.{RuleDto, PendingActionDto}

-- A row of the handler's query: the rule's columns as texts.
pub record RuleRow : Type 0 where
  pub id : ℕ
  pub name : String
  pub action : String
  pub direction : String
  pub protocol : String
  pub src_cidr : Option String
  pub src_port_start : Option ℤ
  pub src_port_end : Option ℤ
  pub dst_cidr : Option String
  pub dst_port_start : Option ℤ
  pub dst_port_end : Option ℤ
  pub interface_in : Option String
  pub interface_out : Option String
  pub priority : ℤ
  pub log : Bool

abbrev pub text_row : FirewallRule → RuleRow
text_row r = record {
  id = r.id;
  name = r.name;
  action = action_str r.action;
  direction = direction_str r.direction;
  protocol = protocol_str r.protocol;
  src_cidr = r.src_cidr;
  src_port_start = r.src_port_start;
  src_port_end = r.src_port_end;
  dst_cidr = r.dst_cidr;
  dst_port_start = r.dst_port_start;
  dst_port_end = r.dst_port_end;
  interface_in = r.interface_in;
  interface_out = r.interface_out;
  priority = r.priority;
  log = r.log;
}

abbrev pub rule_to_dto : RuleRow → RuleDto
rule_to_dto r = record {
  id = r.id;
  name = r.name;
  action = r.action;
  direction = r.direction;
  protocol = r.protocol;
  src_cidr = r.src_cidr;
  src_port_start = r.src_port_start;
  src_port_end = r.src_port_end;
  dst_cidr = r.dst_cidr;
  dst_port_start = r.dst_port_start;
  dst_port_end = r.dst_port_end;
  interface_in = r.interface_in;
  interface_out = r.interface_out;
  priority = r.priority;
  log = r.log;
}

abbrev pub row_parts : RuleRow → RuleHashParts
row_parts r = record {
  id = r.id;
  action = r.action;
  direction = r.direction;
  protocol = r.protocol;
  src_cidr = r.src_cidr;
  dst_cidr = r.dst_cidr;
  dst_port_start = r.dst_port_start;
}

pub record CheckInRequest : Type 0 where
  pub rules_hash : String
  pub agent_version : String
  pub backend_type : String
  pub os_info : Wire.OsInfo
  pub uptime_seconds : ℤ
  pub config_version : ℤ
  pub local_drift : Bool

pub record ConfigUpdate : Type 0 where
  pub check_in_interval_secs : ℤ
  pub push_enabled : Bool
  pub safe_mode_enabled : Bool
  pub backend_override : Option String
  pub config_version : ℤ

pub record CheckInResponse : Type 0 where
  pub rules_changed : Bool
  pub rules : List RuleDto
  pub config : Option ConfigUpdate
  pub pending_actions : List PendingActionDto
  pub default_input_policy : Option String
  pub default_output_policy : Option String

-- What the agent decodes of a request and of a response: `push_enabled` and the host id are fields of
-- one side only, and the other ignores them.
abbrev pub decode_request : Wire.CheckInRequest → CheckInRequest
decode_request r = record {
  rules_hash = r.rules_hash;
  agent_version = r.agent_version;
  backend_type = r.backend_type;
  os_info = r.os_info;
  uptime_seconds = r.uptime_seconds;
  config_version = r.config_version;
  local_drift = r.local_drift;
}

abbrev decode_config : Option ConfigUpdate → Option Wire.ConfigUpdate
decode_config none = none
decode_config (some u) = some (record {
  check_in_interval_secs = u.check_in_interval_secs;
  safe_mode_enabled = u.safe_mode_enabled;
  backend_override = u.backend_override;
  config_version = u.config_version;
})

abbrev pub decode_response : CheckInResponse → Wire.CheckInResponse
decode_response r = record {
  rules_changed = r.rules_changed;
  rules = r.rules;
  config = decode_config r.config;
  pending_actions = r.pending_actions;
  default_input_policy = r.default_input_policy;
  default_output_policy = r.default_output_policy;
}
