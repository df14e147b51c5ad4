-- ===== src/Manager/Rules.antt =====
-- crates/fw-web/src/routes/rules.rs: the rules of all groups.
use linux_host_firewall_mana.Prelude.{
  ℕ, String, Bool, false, not, ◌&&◌, Option, none, some, List, [], ◌∷◌, map, ◌==◌, nat_eq,
  if◌then◌else◌, Result, ok, err, unwrap_or,
}
use linux_host_firewall_mana.Prelude.Int.{ℤ}
use linux_host_firewall_mana.Prelude.Lists.{any, find, keep, update_where}
use linux_host_firewall_mana.Crates.{Crates, text}
use linux_host_firewall_mana.Models.{
  FirewallAction, FirewallDirection, FirewallProtocol, FirewallRule,
}
use linux_host_firewall_mana.Policy.{RuleRow, check_rule, check_against_protected_cidrs}
use linux_host_firewall_mana.Auth.Rbac.{AuthUser}
use linux_host_firewall_mana.Manager.Db.{Db}
use linux_host_firewall_mana.Manager.Handler.{
  AppError, not_found, Answer, ensure, writers_only, audit,
}

abbrev pub is_rule : ℕ → RuleRow → Bool
is_rule id r = nat_eq r.rule.id id

-- `SELECT … WHERE id = $1`, or 404.
unfoldable pub get_rule : ℕ → Db → Result FirewallRule AppError
get_rule id db = elim (find (is_rule id) db.firewall_rules) [
  | none ↦ err (not_found "Rule not found")
  | some r ↦ ok r.rule
]

-- `list_flagged_rules`, in the order of the rules that `list_rules` gives.
unfoldable pub flagged_rules : List FirewallRule → List FirewallRule
flagged_rules rules = keep (λ r. (check_rule r).requires_approval) rules

-- A field that is absent, or null, keeps the column's value.
abbrev pub coalesce : {A : Type 0} → Option A → Option A → Option A
coalesce none old = old
coalesce (some a) old = some a

pub record UpdateRuleRequest : Type 0 where
  pub name : Option String
  pub description : Option String
  pub action : Option FirewallAction
  pub direction : Option FirewallDirection
  pub protocol : Option FirewallProtocol
  pub src_cidr : Option String
  pub src_port_start : Option ℤ
  pub src_port_end : Option ℤ
  pub dst_cidr : Option String
  pub dst_port_start : Option ℤ
  pub dst_port_end : Option ℤ
  pub interface_in : Option String
  pub interface_out : Option String
  pub comment : Option String
  pub log : Option Bool
  pub priority : Option ℤ

unfoldable pub changed_rule : ℕ → UpdateRuleRequest → FirewallRule → FirewallRule
changed_rule now req r = record r {
  name = unwrap_or req.name r.name;
  description = unwrap_or req.description r.description;
  action = unwrap_or req.action r.action;
  direction = unwrap_or req.direction r.direction;
  protocol = unwrap_or req.protocol r.protocol;
  src_cidr = coalesce req.src_cidr r.src_cidr;
  src_port_start = coalesce req.src_port_start r.src_port_start;
  src_port_end = coalesce req.src_port_end r.src_port_end;
  dst_cidr = coalesce req.dst_cidr r.dst_cidr;
  dst_port_start = coalesce req.dst_port_start r.dst_port_start;
  dst_port_end = coalesce req.dst_port_end r.dst_port_end;
  interface_in = coalesce req.interface_in r.interface_in;
  interface_out = coalesce req.interface_out r.interface_out;
  comment = unwrap_or req.comment r.comment;
  log = unwrap_or req.log r.log;
  priority = unwrap_or req.priority r.priority;
  updated_at = now;
}

-- Whether another rule has the name that the update gives: `name` is UNIQUE.
unfoldable pub name_taken : ℕ → Option String → List RuleRow → Bool
name_taken id none rules = false
name_taken id (some name) rules = any (λ r. not (is_rule id r) && r.rule.name == name) rules

pub record ValidateRuleResponse : Type 0 where
  pub allowed : Bool
  pub requires_approval : Bool
  pub reason : String
  pub protected_cidr_check : Option String

module _ (c : Crates) where
  unfoldable pub validation : List String → FirewallRule → ValidateRuleResponse
  validation protected_cidrs rule =
      let policy = check_rule rule in
      let cidr_check = check_against_protected_cidrs c rule protected_cidrs in
      record {
        allowed = policy.allowed && cidr_check.allowed;
        requires_approval = policy.requires_approval;
        reason = if not cidr_check.allowed then cidr_check.reason else policy.reason;
        protected_cidr_check = if not cidr_check.allowed then some cidr_check.reason else none;
      }

  -- The networks of every host; the query's DISTINCT changes no answer but which network is named.
  unfoldable pub validate_rule : ℕ → Db → Result ValidateRuleResponse AppError
  unfolding get_rule validation
  validate_rule id db = elim (get_rule id db) [
    | err e ↦ err e
    | ok rule ↦ ok (validation (map (λ p. p.cidr) db.host_protected_cidrs) rule)
  ]

module _ (c : Crates) (stored : ℕ → ℕ) (now : ℕ) (auth : AuthUser) where
  unfoldable pub rule_changed : ℕ → UpdateRuleRequest → FirewallRule → Db → Answer FirewallRule
  unfolding changed_rule audit name_taken
  rule_changed id req old db =
      let rule = changed_rule now req old in
      let db' = record db {
        firewall_rules =
            update_where (is_rule id) (λ r. record r { rule = changed_rule now req r.rule })
              db.firewall_rules;
      } in
      ensure (not (name_taken id req.name db.firewall_rules)) AppError.database db (
        ok rule,
        audit c stored now auth "rule_updated" "rule" (c.uuid_string id)
            (("name", text rule.name) ∷ []) db',
      )

  unfoldable pub update_rule : ℕ → UpdateRuleRequest → Db → Answer FirewallRule
  unfolding rule_changed
  update_rule id req db = writers_only auth db (elim (find (is_rule id) db.firewall_rules) [
    | none ↦ (err (not_found "Rule not found"), db)
    | some r ↦ rule_changed id req r.rule db
  ])

  unfoldable pub delete_rule : ℕ → Db → Answer (Unit {0})
  unfolding audit
  delete_rule id db = writers_only auth db (
      ensure (any (is_rule id) db.firewall_rules) (not_found "Rule not found") db (
        ok tt,
        audit c stored now auth "rule_deleted" "rule" (c.uuid_string id) [] (record db {
          firewall_rules = keep (λ r. not (is_rule id r)) db.firewall_rules;
          rule_policy_decisions = keep (λ p. not (nat_eq p.rule_id id)) db.rule_policy_decisions;
        }),
      ))
