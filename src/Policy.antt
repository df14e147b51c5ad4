-- ===== src/Policy.antt =====
-- crates/fw-core/src/policy.rs: the gate for broad allow rules, the compiled rule list of a policy
-- set, and the check of a rule against protected networks.
pub mod Flagged
pub mod Order
use linux_host_firewall_mana.Prelude.{
  ℕ, ◌≡◌, String, Bool, true, false, not, ◌&&◌, ◌||◌, Option, none, some, List, [], ◌∷◌, ◌++◌, map,
  ◌==◌, nat_eq, is_some, if◌then◌else◌,
}
use linux_host_firewall_mana.Prelude.Int.{ℤ, int_lt, int_eq}
use linux_host_firewall_mana.Prelude.Lists.{keep}
use linux_host_firewall_mana.Prelude.Text.{concat}
use linux_host_firewall_mana.Crates.{Crates, IpAddr, is_ipv4}
use linux_host_firewall_mana.Models.{FirewallRule, is_allow, is_blocking}

pub record PolicyCheckResult : Type 0 where
  pub allowed : Bool
  pub requires_approval : Bool
  pub reason : String

-- No source, or one of the three texts for "anywhere".
unfoldable pub is_broad_src : Option String → Bool
is_broad_src none = true
is_broad_src (some c) = c == "0.0.0.0/0" || c == "::/0" || c == "any"

unfoldable pub check_rule : FirewallRule → PolicyCheckResult
check_rule rule =
    let broad = is_broad_src rule.src_cidr in
    let any_port = not (is_some rule.dst_port_start) && not (is_some rule.dst_port_end) in
    if is_allow rule.action && (broad && any_port)
    then record {
      allowed = true;
      requires_approval = true;
      reason = "Broad allow rule (any source, any port) requires admin approval";
    }
    else record { allowed = true; requires_approval = false; reason = "Auto-approved" }

unfoldable pub check_policy_set_for_flagged : List FirewallRule → List ℕ
check_policy_set_for_flagged rules =
    map (λ r. r.id) (keep (λ r. (check_rule r).requires_approval) rules)

-- A row of `firewall_policy_set_rule_groups`, and of `firewall_rules` with its group's columns.
pub record SetGroupRow : Type 0 where
  pub policy_set_id : ℕ
  pub rule_group_id : ℕ
  pub set_group_order : ℤ

pub record RuleRow : Type 0 where
  pub rule : FirewallRule
  pub rule_group_id : ℕ
  pub group_order : ℤ

-- A joined row with its sort key.
pub record Joined : Type 0 where
  pub set_group_order : ℤ
  pub group_order : ℤ
  pub rule : FirewallRule

-- `ORDER BY psrg.set_group_order, r.group_order, r.priority`
unfoldable pub comes_before : Joined → Joined → Bool
comes_before a b =
    int_lt a.set_group_order b.set_group_order
    || int_eq a.set_group_order b.set_group_order
      && (int_lt a.group_order b.group_order
          || int_eq a.group_order b.group_order && int_lt a.rule.priority b.rule.priority)

unfoldable pub insert : Joined → List Joined → List Joined
insert a [] = a ∷ []
insert a (b ∷ rows) = if comes_before b a then b ∷ insert a rows else a ∷ b ∷ rows

unfoldable pub order_by : List Joined → List Joined
unfolding insert comes_before
order_by [] = []
order_by (a ∷ rows) = insert a (order_by rows)

-- The rules of one included group.
unfoldable pub rows_of_group : SetGroupRow → List RuleRow → List Joined
rows_of_group g [] = []
rows_of_group g (r ∷ rules) =
    let row : Joined = record {
      set_group_order = g.set_group_order;
      group_order = r.group_order;
      rule = r.rule;
    } in
    let rest = rows_of_group g rules in
    if nat_eq r.rule_group_id g.rule_group_id then row ∷ rest else rest

unfoldable pub join_rows : ℕ → List SetGroupRow → List RuleRow → List Joined
unfolding rows_of_group
join_rows set [] rules = []
join_rows set (g ∷ groups) rules =
    let rest = join_rows set groups rules in
    if nat_eq g.policy_set_id set then rows_of_group g rules ++ rest else rest

unfoldable pub rules_for_policy_set : List SetGroupRow → List RuleRow → ℕ → List FirewallRule
unfolding order_by join_rows
rules_for_policy_set groups rules set = map (λ j. j.rule) (order_by (join_rows set groups rules))

unfoldable pub flagged_rule_ids_for_set : List SetGroupRow → List RuleRow → ℕ → List ℕ
unfolding rules_for_policy_set check_policy_set_for_flagged
flagged_rule_ids_for_set groups rules set =
    check_policy_set_for_flagged (rules_for_policy_set groups rules set)

module _ (c : Crates) where
  abbrev pub same_family : c.IpNet → c.IpNet → Bool
  same_family a b =
      if is_ipv4 (c.network a) then is_ipv4 (c.network b) else not (is_ipv4 (c.network b))

  -- One holds the other's network address, within one address family.
  unfoldable pub nets_overlap : c.IpNet → c.IpNet → Bool
  nets_overlap a b =
      same_family a b && (c.contains_ip a (c.network b) || c.contains_ip b (c.network a))

  unfoldable pub cidr_overlaps : String → String → Bool
  cidr_overlaps a b = elim (c.parse_net a) [
    | none ↦ false
    | some net_a ↦ elim (c.parse_net b) [ none ↦ false | some net_b ↦ nets_overlap net_a net_b ]
  ]

  abbrev not_blocking : PolicyCheckResult
  not_blocking = record {
    allowed = true;
    requires_approval = false;
    reason = "Does not block protected CIDRs";
  }

  check_each : String → List String → PolicyCheckResult
  check_each src [] = not_blocking
  check_each src (protected ∷ rest) =
      let next = check_each src rest in
      if cidr_overlaps src protected
      then record {
        allowed = false;
        requires_approval = false;
        reason = concat ("Rule blocks protected CIDR " ∷ protected ∷ " — rejected" ∷ []);
      }
      else next

  check_source : Option String → List String → PolicyCheckResult
  unfolding check_each
  check_source none protected_cidrs = not_blocking
  check_source (some src) protected_cidrs = check_each src protected_cidrs

  unfoldable pub check_against_protected_cidrs : FirewallRule → List String → PolicyCheckResult
  unfolding check_source
  check_against_protected_cidrs rule protected_cidrs =
      if is_blocking rule.action then check_source rule.src_cidr protected_cidrs else not_blocking
