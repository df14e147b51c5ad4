-- ===== src/Manager/Trail/Rules.antt =====
-- The handlers of crates/fw-web/src/routes/rules.rs, rule_groups.rs and policy_sets.rs write the audit
-- log only by `log_event`.
use linux_host_firewall_mana.Prelude.{
  ℕ, String, not, ◌&&◌, Option, List, inl, inr, Option-cases, ◌==◌, nat_eq, ltb, unwrap_or,
}
use linux_host_firewall_mana.Prelude.Int.{ℤ}
use linux_host_firewall_mana.Prelude.Lists.{any, find, keep, length}
use linux_host_firewall_mana.Crates.{Crates}
use linux_host_firewall_mana.Models.{FirewallRule}
use linux_host_firewall_mana.Auth.Rbac.{AuthUser, can_write}
use linux_host_firewall_mana.Manager.Db.{Db}
use linux_host_firewall_mana.Manager.Handler.{audit}
use linux_host_firewall_mana.Manager.Rules.{
  UpdateRuleRequest, update_rule, rule_changed, delete_rule, is_rule, name_taken,
}
use linux_host_firewall_mana.Manager.RuleGroups.{
  CreateRuleInGroupRequest, create_rule_group, update_rule_group, delete_rule_group,
  create_rule_in_group, is_creatable, rule_created, reorder_group_rules, has_group_id,
}
use linux_host_firewall_mana.Manager.PolicySets.{
  CreatePolicySetRequest, UpdatePolicySetRequest, create_policy_set, update_policy_set,
  delete_policy_set, add_group_to_set, is_includable, remove_group_from_set, reorder_groups,
  has_set_id,
}
use linux_host_firewall_mana.Manager.Trail.{same, logs, Extends, ensure-Extends}

module _ (c : Crates) (stored : ℕ → ℕ) (now : ℕ) (auth : AuthUser) where
  rule_changed-Extends :
      (id : ℕ) (req : UpdateRuleRequest) (old : FirewallRule) (db : Db)
      → Extends c stored db (rule_changed c stored now auth id req old db).1
  unfolding rule_changed audit
  rule_changed-Extends id req old db =
      ensure-Extends c stored (not (name_taken id req.name db.firewall_rules)) _ db _
        (logs now _ same)

  pub update_rule-Extends :
      (id : ℕ) (req : UpdateRuleRequest) (db : Db)
      → Extends c stored db (update_rule c stored now auth id req db).1
  unfolding update_rule
  update_rule-Extends id req db =
      ensure-Extends c stored (can_write auth.role) _ db _
        (elim (Option-cases (find (is_rule id) db.firewall_rules)) [
          | inl missing ↦ rw missing same
          | inr (r, there) ↦ rw there (rule_changed-Extends id req r.rule db)
        ])

  pub delete_rule-Extends :
      (id : ℕ) (db : Db) → Extends c stored db (delete_rule c stored now auth id db).1
  unfolding delete_rule audit
  delete_rule-Extends id db =
      ensure-Extends c stored (can_write auth.role) _ db _
        (ensure-Extends c stored (any (is_rule id) db.firewall_rules) _ db _ (logs now _ same))

  pub create_rule_group-Extends :
      (id : ℕ) (name : String) (description : Option String) (db : Db)
      → Extends c stored db (create_rule_group c stored now auth id name description db).1
  unfolding create_rule_group audit
  create_rule_group-Extends id name description db =
      ensure-Extends c stored (can_write auth.role) _ db _ (
        ensure-Extends c stored (not (any (λ g. g.name == name) db.rule_groups)) _ db _
          (logs now _ same))

  pub update_rule_group-Extends :
      (id : ℕ) (name : Option String) (description : Option String) (db : Db)
      → Extends c stored db (update_rule_group c stored now auth id name description db).1
  unfolding update_rule_group audit
  update_rule_group-Extends id name description db =
      ensure-Extends c stored (can_write auth.role) _ db _
        (elim (Option-cases (find (has_group_id id) db.rule_groups)) [
          | inl missing ↦ rw missing same
          | inr (g, there) ↦ rw there (
              ensure-Extends c stored
                (not (
                  any (λ o. not (has_group_id id o) && o.name == unwrap_or name g.name)
                    db.rule_groups))
                _ db _ (logs now _ same))
        ])

  pub delete_rule_group-Extends :
      (id : ℕ) (db : Db) → Extends c stored db (delete_rule_group c stored now auth id db).1
  unfolding delete_rule_group audit
  delete_rule_group-Extends id db = ensure-Extends c stored (can_write auth.role) _ db _ (
      ensure-Extends c stored
        (not (ltb 0 (length (keep (λ s. nat_eq s.rule_group_id id) db.set_rule_groups)))) _ db _
        (ensure-Extends c stored (any (has_group_id id) db.rule_groups) _ db _ (logs now _ same)))

  pub create_rule_in_group-Extends :
      (id group : ℕ) (req : CreateRuleInGroupRequest) (db : Db)
      → Extends c stored db (create_rule_in_group c stored now auth id group req db).1
  unfolding create_rule_in_group rule_created audit
  create_rule_in_group-Extends id group req db =
      ensure-Extends c stored (can_write auth.role) _ db _ (
        ensure-Extends c stored (is_creatable c stored now auth id group req db) _ db _
          (logs now _ same))

  pub reorder_group_rules-Extends :
      (group : ℕ) (ids : List ℕ) (db : Db)
      → Extends c stored db (reorder_group_rules c stored now auth group ids db).1
  unfolding reorder_group_rules audit
  reorder_group_rules-Extends group ids db =
      ensure-Extends c stored (can_write auth.role) _ db _ (logs now _ same)

  pub create_policy_set-Extends :
      (id : ℕ) (req : CreatePolicySetRequest) (db : Db)
      → Extends c stored db (create_policy_set c stored now auth id req db).1
  unfolding create_policy_set audit
  create_policy_set-Extends id req db =
      ensure-Extends c stored (can_write auth.role) _ db _ (logs now _ same)

  pub update_policy_set-Extends :
      (id : ℕ) (req : UpdatePolicySetRequest) (db : Db)
      → Extends c stored db (update_policy_set c stored now auth id req db).1
  unfolding update_policy_set audit
  update_policy_set-Extends id req db =
      ensure-Extends c stored (can_write auth.role) _ db _
        (elim (Option-cases (find (has_set_id id) db.policy_sets)) [
          | inl missing ↦ rw missing same
          | inr (p, there) ↦ rw there (logs now _ same)
        ])

  pub delete_policy_set-Extends :
      (id : ℕ) (db : Db) → Extends c stored db (delete_policy_set c stored now auth id db).1
  unfolding delete_policy_set audit
  delete_policy_set-Extends id db =
      ensure-Extends c stored (can_write auth.role) _ db _
        (ensure-Extends c stored (any (has_set_id id) db.policy_sets) _ db _ (logs now _ same))

  pub add_group_to_set-Extends :
      (id group : ℕ) (order : Option ℤ) (db : Db)
      → Extends c stored db (add_group_to_set c stored now auth id group order db).1
  unfolding add_group_to_set audit
  add_group_to_set-Extends id group order db =
      ensure-Extends c stored (can_write auth.role) _ db _ (
        ensure-Extends c stored (is_includable c stored now auth id group order db) _ db _
          (logs now _ same))

  pub remove_group_from_set-Extends :
      (id group : ℕ) (db : Db)
      → Extends c stored db (remove_group_from_set c stored now auth id group db).1
  unfolding remove_group_from_set audit
  remove_group_from_set-Extends id group db =
      ensure-Extends c stored (can_write auth.role) _ db _ (logs now _ same)

  pub reorder_groups-Extends :
      (id : ℕ) (groups : List ℕ) (db : Db)
      → Extends c stored db (reorder_groups c stored now auth id groups db).1
  unfolding reorder_groups audit
  reorder_groups-Extends id groups db =
      ensure-Extends c stored (can_write auth.role) _ db _ (logs now _ same)
