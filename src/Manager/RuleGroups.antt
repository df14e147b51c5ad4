-- ===== src/Manager/RuleGroups.antt =====
-- crates/fw-web/src/routes/rule_groups.rs: named, ordered groups of rules.
pub mod Append
use linux_host_firewall_mana.Prelude.{
  ℕ, zero, suc, ◌+◌, String, Bool, true, false, not, ◌&&◌, ◌||◌, Option, none, some, List, [], ◌∷◌,
  ◌++◌, map, ◌==◌, nat_eq, ltb, if◌then◌else◌, Result, ok, err, unwrap_or,
}
use linux_host_firewall_mana.Prelude.Int.{ℤ, pos, negsuc, int_lt, int_eq, show_ℕ}
use linux_host_firewall_mana.Prelude.Lists.{any, find, keep, length, update_where}
use linux_host_firewall_mana.Prelude.Text.{concat}
use linux_host_firewall_mana.Crates.{
  text_type, inet_type, policy_decision_type, Crates, text, number,
}
use linux_host_firewall_mana.Models.{
  FirewallAction, FirewallDirection, FirewallProtocol, FirewallRule,
}
use linux_host_firewall_mana.Policy.{RuleRow, check_rule}
use linux_host_firewall_mana.Auth.Rbac.{AuthUser}
use linux_host_firewall_mana.Manager.Tables.{
  RuleGroupRow, RulePolicyDecision, PolicyDecision, flagged, auto_approved,
}
use linux_host_firewall_mana.Manager.Db.{Db}
use linux_host_firewall_mana.Manager.Handler.{
  AppError, not_found, conflict, Answer, ensure, writers_only, audit,
}
use linux_host_firewall_mana.Manager.Settings.{plus_one}

abbrev pub has_group_id : ℕ → RuleGroupRow → Bool
has_group_id id g = nat_eq g.id id

abbrev pub in_group : ℕ → RuleRow → Bool
in_group group r = nat_eq r.rule_group_id group

-- `ORDER BY group_order, priority`; rows that tie keep the table's order.
unfoldable pub row_before : RuleRow → RuleRow → Bool
row_before a b =
    int_lt a.group_order b.group_order
    || int_eq a.group_order b.group_order && int_lt a.rule.priority b.rule.priority

unfoldable pub insert_row : RuleRow → List RuleRow → List RuleRow
insert_row a [] = a ∷ []
insert_row a (b ∷ rows) =
    let later = b ∷ insert_row a rows in if row_before b a then later else a ∷ b ∷ rows

unfoldable pub sort_rows : List RuleRow → List RuleRow
unfolding insert_row row_before
sort_rows [] = []
sort_rows (a ∷ rows) = insert_row a (sort_rows rows)

unfoldable pub list_group_rules : ℕ → Db → List FirewallRule
unfolding sort_rows
list_group_rules group db = map (λ r. r.rule) (sort_rows (keep (in_group group) db.firewall_rules))

abbrev pub int_max : ℤ → ℤ → ℤ
int_max a b = if int_lt a b then b else a

-- `COALESCE(MAX(group_order), -1)`
unfoldable pub max_order : List RuleRow → ℤ
max_order [] = negsuc 0
max_order (r ∷ []) = r.group_order
max_order (r ∷ s ∷ rows) = int_max r.group_order (max_order (s ∷ rows))

-- The largest value of an INTEGER column.
abbrev pub int4_max : ℤ
int4_max = pos 2147483647

-- The position of a new rule that names none.
unfoldable pub next_order : ℕ → List RuleRow → ℤ
unfolding max_order
next_order group rules = plus_one (max_order (keep (in_group group) rules))

pub record CreateRuleInGroupRequest : Type 0 where
  pub name : String
  pub description : Option String
  pub action : FirewallAction
  pub direction : FirewallDirection
  pub protocol : FirewallProtocol
  pub src_cidr : Option String
  pub src_port_start : Option ℤ
  pub src_port_end : Option ℤ
  pub dst_cidr : Option String
  pub dst_port_start : Option ℤ
  pub dst_port_end : Option ℤ
  pub interface_in : Option String
  pub interface_out : Option String
  pub comment : Option String
  pub log : Option Bool
  pub priority : Option ℤ
  pub group_order : Option ℤ

-- A decision of `create_rule_in_group`, and its label.
unfoldable pub decision_of : FirewallRule → PolicyDecision
decision_of rule = if (check_rule rule).requires_approval then flagged else auto_approved

abbrev decision_label : FirewallRule → String
decision_label rule = if (check_rule rule).requires_approval then "flagged" else "auto_approved"

module _ (c : Crates) (stored : ℕ → ℕ) (now : ℕ) (auth : AuthUser) where
  -- `id` is the new uuid. The name is UNIQUE. The label of the event is not in the database's type.
  unfoldable pub create_rule_group : ℕ → String → Option String → Db → Answer RuleGroupRow
  unfolding audit
  create_rule_group id name description db =
      let group : RuleGroupRow = record {
        id = id;
        name = name;
        description = unwrap_or description "";
        created_by = some auth.user_id;
      } in
      writers_only auth db (
        ensure (not (any (λ g. g.name == name) db.rule_groups)) AppError.database db (
          ok group,
          audit c stored now auth "rule_group_created" "rule_group" (c.uuid_string id)
              (("name", text name) ∷ []) (record db { rule_groups = db.rule_groups ++ group ∷ [] }),
        ))

  unfoldable pub update_rule_group : ℕ → Option String → Option String → Db → Answer RuleGroupRow
  unfolding audit
  update_rule_group id name description db =
      let change = λ (g : RuleGroupRow). record g {
        name = unwrap_or name g.name;
        description = unwrap_or description g.description;
      } in
      writers_only auth db (elim (find (has_group_id id) db.rule_groups) [
        | none ↦ (err (not_found "Rule group not found"), db)
        | some g ↦
            ensure
              (not (any (λ o. not (has_group_id id o) && o.name == (change g).name) db.rule_groups))
              AppError.database db
              (
                ok (change g),
                audit c stored now auth "rule_group_changed" "rule_group" (c.uuid_string id)
                    (("name", text (change g).name) ∷ [])
                    (record db {
                      rule_groups = update_where (has_group_id id) change db.rule_groups;
                    }),
              )
      ])

  -- `used_by` is the number of sets that include the group; its rules go with it.
  unfoldable pub delete_rule_group : ℕ → Db → Answer (Unit {0})
  unfolding audit
  delete_rule_group id db =
      let used_by = length (keep (λ s. nat_eq s.rule_group_id id) db.set_rule_groups) in
      writers_only auth db (
        ensure (not (ltb 0 used_by))
          (conflict (
            concat (
              "Rule group is used by "
              ∷ show_ℕ used_by
              ∷ " policy set(s); remove it from those sets before deleting"
              ∷ [])))
          db
          (ensure (any (has_group_id id) db.rule_groups) (not_found "Rule group not found") db (
            ok tt,
            audit c stored now auth "rule_group_deleted" "rule_group" (c.uuid_string id) []
                (record db {
                  rule_groups = keep (λ g. not (has_group_id id g)) db.rule_groups;
                  firewall_rules = keep (λ r. not (in_group id r)) db.firewall_rules;
                }),
          )))

  unfoldable pub new_rule : ℕ → CreateRuleInGroupRequest → FirewallRule
  new_rule id req = record {
    id = id;
    name = req.name;
    description = unwrap_or req.description "";
    action = req.action;
    direction = req.direction;
    protocol = req.protocol;
    src_cidr = req.src_cidr;
    src_port_start = req.src_port_start;
    src_port_end = req.src_port_end;
    dst_cidr = req.dst_cidr;
    dst_port_start = req.dst_port_start;
    dst_port_end = req.dst_port_end;
    interface_in = req.interface_in;
    interface_out = req.interface_out;
    comment = unwrap_or req.comment "";
    log = unwrap_or req.log false;
    priority = unwrap_or req.priority (pos 1000);
    created_by = some auth.user_id;
    created_at = now;
    updated_at = now;
  }

  unfoldable pub new_row : ℕ → ℕ → CreateRuleInGroupRequest → List RuleRow → RuleRow
  unfolding new_rule next_order
  new_row id group req rules = record {
    rule = new_rule id req;
    rule_group_id = group;
    group_order = unwrap_or req.group_order (next_order group rules);
  }

  -- The decision is bound as text to a column of the type `policy_decision`; the error is dropped.
  unfoldable pub add_decision :
      RulePolicyDecision → List RulePolicyDecision → List RulePolicyDecision
  add_decision d rows =
      if c.postgres.is_assignable text_type policy_decision_type then rows ++ d ∷ [] else rows

  unfoldable pub rule_created : ℕ → ℕ → CreateRuleInGroupRequest → Db → Db
  unfolding new_row decision_of add_decision audit
  rule_created id group req db =
      let row = new_row id group req db.firewall_rules in
      audit c stored now auth "rule_created" "rule" (c.uuid_string id)
        (("name", text req.name)
          ∷ ("rule_group_id", text (c.uuid_string group))
          ∷ ("policy_decision", text (decision_label row.rule))
          ∷ [])
        (record db {
          firewall_rules = db.firewall_rules ++ row ∷ [];
          rule_policy_decisions =
              add_decision
                (record {
                  rule_id = id;
                  decision = decision_of row.rule;
                  reason = (check_rule row.rule).reason;
                })
                db.rule_policy_decisions;
        })

  -- The name is UNIQUE, the group must exist, and the position must fit an INTEGER column.
  abbrev pub is_creatable : ℕ → ℕ → CreateRuleInGroupRequest → Db → Bool
  is_creatable id group req db =
      any (has_group_id group) db.rule_groups
      && (not (any (λ r. r.rule.name == req.name) db.firewall_rules)
          && not (int_lt int4_max (new_row id group req db.firewall_rules).group_order))

  unfoldable pub create_rule_in_group : ℕ → ℕ → CreateRuleInGroupRequest → Db → Answer FirewallRule
  unfolding rule_created
  create_rule_in_group id group req db = writers_only auth db (
      ensure (is_creatable id group req db) AppError.database db
        (ok (new_rule id req), rule_created id group req db))

  -- The transaction's updates, in the order of the ids.
  unfoldable pub reorder : ℕ → ℕ → List ℕ → List RuleRow → List RuleRow
  reorder group order [] rules = rules
  reorder group order (id ∷ ids) rules = reorder group (order + 1) ids (
      update_where (λ r. in_group group r && nat_eq r.rule.id id)
        (λ r. record r { group_order = pos order }) rules)

  unfoldable pub reorder_group_rules : ℕ → List ℕ → Db → Answer (Unit {0})
  unfolding reorder audit
  reorder_group_rules group ids db = writers_only auth db (
    ok tt,
    audit c stored now auth "rule_group_changed" "rule_group" (c.uuid_string group)
        (("action", text "rules_reordered") ∷ ("count", number (length ids)) ∷ [])
        (record db { firewall_rules = reorder group 0 ids db.firewall_rules }),
  )
