-- ===== src/Manager/Preview.antt =====
-- The command previews of crates/fw-web/src/routes/policy_sets.rs, and the preview handlers there
-- and in deployment.rs.
use linux_host_firewall_mana.Prelude.{
  ℕ, String, Option, none, some, List, [], ◌∷◌, map, if◌then◌else◌, unwrap_or,
}
use linux_host_firewall_mana.Prelude.Int.{ℤ, int_eq, show}
use linux_host_firewall_mana.Prelude.Lists.{length}
use linux_host_firewall_mana.Prelude.Text.{concat, is_blank}
use linux_host_firewall_mana.Models.{
  FirewallRule, action_str, is_out, is_any_protocol, protocol_str,
}
use linux_host_firewall_mana.Policy.{rules_for_policy_set}
use linux_host_firewall_mana.Agent.Ufw.{clause}
use linux_host_firewall_mana.Agent.Firewalld.{rich_action, rich_protocol}
use linux_host_firewall_mana.Manager.Db.{Db}

preview_port : Option ℤ → Option ℤ → String
preview_port none end = ""
preview_port (some port) none = concat (" port " ∷ show port ∷ [])
preview_port (some port) (some end) =
    if int_eq port end
    then concat (" port " ∷ show port ∷ [])
    else concat (" port " ∷ show port ∷ ":" ∷ show end ∷ [])

unfoldable pub compile_ufw_command : FirewallRule → String
unfolding preview_port show
compile_ufw_command rule = concat (
    "ufw "
    ∷ action_str rule.action
    ∷ (if is_out rule.direction then " out" else "")
    ∷ (if is_any_protocol rule.protocol
        then ""
        else concat (" proto " ∷ protocol_str rule.protocol ∷ []))
    ∷ clause " from " rule.src_cidr
    ∷ clause " to " rule.dst_cidr
    ∷ preview_port rule.dst_port_start rule.dst_port_end
    ∷ (if is_blank rule.comment then "" else concat (" comment '" ∷ rule.comment ∷ "'" ∷ []))
    ∷ [])

abbrev port_text : Option ℤ → String
port_text none = ""
port_text (some p) = show p

abbrev service : Option ℤ → String
service none = ""
service (some p) = "service"

unfoldable pub compile_firewalld_command : FirewallRule → String
unfolding show
compile_firewalld_command rule = concat (
    "firewall-cmd --permanent --add-rich-rule='rule family=ipv4 source address=\""
    ∷ unwrap_or rule.src_cidr "any"
    ∷ "\" "
    ∷ service rule.dst_port_start
    ∷ " port port=\""
    ∷ port_text rule.dst_port_start
    ∷ "\" protocol=\""
    ∷ rich_protocol rule.protocol
    ∷ "\" "
    ∷ rich_action rule.action
    ∷ "'"
    ∷ [])

pub record PreviewResponse : Type 0 where
  pub ufw_command : List String
  pub firewalld_command : List String
  pub rule_count : ℕ

-- `preview_compilation` and `preview_assignment` give the same three values.
unfoldable pub preview : Db → ℕ → PreviewResponse
preview db set =
    let rules = rules_for_policy_set db.set_rule_groups db.firewall_rules set in
    record {
      ufw_command = map compile_ufw_command rules;
      firewalld_command = map compile_firewalld_command rules;
      rule_count = length rules;
    }
