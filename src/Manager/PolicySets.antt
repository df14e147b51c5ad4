-- ===== src/Manager/PolicySets.antt =====
-- crates/fw-web/src/routes/policy_sets.rs: policy sets and the rule groups that they include.
use linux_host_firewall_mana.Prelude.{
  ℕ, ◌+◌, String, Bool, not, ◌&&◌, Option, none, some, List, [], ◌∷◌, ◌++◌, nat_eq, if◌then◌else◌,
  ok, err, unwrap_or,
}
use linux_host_firewall_mana.Prelude.Int.{ℤ, pos, negsuc, int_lt}
use linux_host_firewall_mana.Prelude.Lists.{any, find, keep, length, update_where}
use linux_host_firewall_mana.Crates.{Crates, text, number}
use linux_host_firewall_mana.Models.{FirewallDefaultPolicy, FirewallRule}
use linux_host_firewall_mana.Policy.{SetGroupRow, rules_for_policy_set}
use linux_host_firewall_mana.Auth.Rbac.{AuthUser}
use linux_host_firewall_mana.Manager.Db.{PolicySetRow, Db}
use linux_host_firewall_mana.Manager.Handler.{
  AppError, not_found, Answer, ensure, writers_only, audit,
}
use linux_host_firewall_mana.Manager.RuleGroups.{int_max, int4_max, has_group_id}
use linux_host_firewall_mana.Manager.Settings.{plus_one}

abbrev pub has_set_id : ℕ → PolicySetRow → Bool
has_set_id id p = nat_eq p.id id

abbrev pub is_included : ℕ → ℕ → SetGroupRow → Bool
is_included set group r = nat_eq r.policy_set_id set && nat_eq r.rule_group_id group

pub record CreatePolicySetRequest : Type 0 where
  pub name : String
  pub description : Option String
  pub default_input_policy : Option FirewallDefaultPolicy
  pub default_output_policy : Option FirewallDefaultPolicy

-- Of a default policy, `none` is absent and `some none` is null.
pub record UpdatePolicySetRequest : Type 0 where
  pub name : Option String
  pub description : Option String
  pub default_input_policy : Option (Option FirewallDefaultPolicy)
  pub default_output_policy : Option (Option FirewallDefaultPolicy)

unfoldable pub changed_set : UpdatePolicySetRequest → PolicySetRow → PolicySetRow
changed_set req p = record p {
  name = unwrap_or req.name p.name;
  description = unwrap_or req.description p.description;
  default_input_policy = unwrap_or req.default_input_policy p.default_input_policy;
  default_output_policy = unwrap_or req.default_output_policy p.default_output_policy;
}

-- `COALESCE(MAX(set_group_order), -1)` over the set's rows.
unfoldable pub max_set_order : List SetGroupRow → ℤ
max_set_order [] = negsuc 0
max_set_order (r ∷ []) = r.set_group_order
max_set_order (r ∷ s ∷ rows) = int_max r.set_group_order (max_set_order (s ∷ rows))

unfoldable pub list_policy_set_rules : ℕ → Db → List FirewallRule
list_policy_set_rules id db = rules_for_policy_set db.set_rule_groups db.firewall_rules id

-- The position that is asked for, or one past the set's last.
unfoldable pub order_in_set : ℕ → Option ℤ → List SetGroupRow → ℤ
unfolding max_set_order
order_in_set set order rows =
    unwrap_or order (plus_one (max_set_order (keep (λ r. nat_eq r.policy_set_id set) rows)))

-- `INSERT … ON CONFLICT (policy_set_id, rule_group_id) DO UPDATE SET set_group_order`
unfoldable pub include_group : ℕ → ℕ → Option ℤ → List SetGroupRow → List SetGroupRow
unfolding order_in_set
include_group set group order rows =
    let at = order_in_set set order rows in
    if any (is_included set group) rows
    then update_where (is_included set group) (λ r. record r { set_group_order = at }) rows
    else rows ++ record { policy_set_id = set; rule_group_id = group; set_group_order = at } ∷ []

unfoldable pub reorder_sets : ℕ → ℕ → List ℕ → List SetGroupRow → List SetGroupRow
reorder_sets set order [] rows = rows
reorder_sets set order (group ∷ groups) rows =
    reorder_sets set (order + 1) groups
      (update_where (is_included set group) (λ r. record r { set_group_order = pos order }) rows)

module _ (c : Crates) (stored : ℕ → ℕ) (now : ℕ) (auth : AuthUser) where
  -- `id` is the new uuid.
  unfoldable pub create_policy_set : ℕ → CreatePolicySetRequest → Db → Answer PolicySetRow
  unfolding audit
  create_policy_set id req db =
      let row : PolicySetRow = record {
        id = id;
        name = req.name;
        description = unwrap_or req.description "";
        created_by = some auth.user_id;
        default_input_policy = req.default_input_policy;
        default_output_policy = req.default_output_policy;
      } in
      writers_only auth db (
        ok row,
        audit c stored now auth "policy_set_created" "policy_set" (c.uuid_string id)
            (("name", text req.name) ∷ []) (record db { policy_sets = db.policy_sets ++ row ∷ [] }),
      )

  unfoldable pub update_policy_set : ℕ → UpdatePolicySetRequest → Db → Answer PolicySetRow
  unfolding changed_set audit
  update_policy_set id req db = writers_only auth db (elim (find (has_set_id id) db.policy_sets) [
    | none ↦ (err (not_found "Policy set not found"), db)
    | some p ↦ (
      ok (changed_set req p),
      audit c stored now auth "policy_set_changed" "policy_set" (c.uuid_string id)
          (("name", text (changed_set req p).name) ∷ [])
          (record db {
            policy_sets = update_where (has_set_id id) (changed_set req) db.policy_sets;
          }),
    )
  ])

  -- What refers to the set goes with it.
  unfoldable pub delete_policy_set : ℕ → Db → Answer (Unit {0})
  unfolding audit
  delete_policy_set id db = writers_only auth db (
      ensure (any (has_set_id id) db.policy_sets) (not_found "Policy set not found") db (
        ok tt,
        audit c stored now auth "policy_set_changed" "policy_set" (c.uuid_string id)
            (("action", text "deleted") ∷ [])
            (record db {
              policy_sets = keep (λ p. not (has_set_id id p)) db.policy_sets;
              set_rule_groups = keep (λ r. not (nat_eq r.policy_set_id id)) db.set_rule_groups;
              host_policy_assignments =
                  keep (λ a. not (nat_eq a.policy_set_id id)) db.host_policy_assignments;
            }),
      ))

  -- Both ids must exist, and the position must fit an INTEGER column.
  abbrev pub is_includable : ℕ → ℕ → Option ℤ → Db → Bool
  is_includable id group order db =
      any (has_set_id id) db.policy_sets
      && (any (has_group_id group) db.rule_groups
          && not (int_lt int4_max (order_in_set id order db.set_rule_groups)))

  unfoldable pub add_group_to_set : ℕ → ℕ → Option ℤ → Db → Answer (Unit {0})
  unfolding include_group audit
  add_group_to_set id group order db = writers_only auth db (
      ensure (is_includable id group order db) AppError.database db (
        ok tt,
        audit c stored now auth "policy_set_changed" "policy_set" (c.uuid_string id)
            (("action", text "rule_group_added")
              ∷ ("rule_group_id", text (c.uuid_string group))
              ∷ [])
            (record db { set_rule_groups = include_group id group order db.set_rule_groups }),
      ))

  unfoldable pub remove_group_from_set : ℕ → ℕ → Db → Answer (Unit {0})
  unfolding audit
  remove_group_from_set id group db = writers_only auth db (
    ok tt,
    audit c stored now auth "policy_set_changed" "policy_set" (c.uuid_string id)
        (("action", text "rule_group_removed") ∷ ("rule_group_id", text (c.uuid_string group)) ∷ [])
        (record db {
          set_rule_groups = keep (λ r. not (is_included id group r)) db.set_rule_groups;
        }),
  )

  unfoldable pub reorder_groups : ℕ → List ℕ → Db → Answer (Unit {0})
  unfolding reorder_sets audit
  reorder_groups id groups db = writers_only auth db (
    ok tt,
    audit c stored now auth "policy_set_changed" "policy_set" (c.uuid_string id)
        (("action", text "rule_groups_reordered") ∷ ("count", number (length groups)) ∷ [])
        (record db { set_rule_groups = reorder_sets id 0 groups db.set_rule_groups }),
  )
