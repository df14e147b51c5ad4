-- ===== src/Policy/Flagged.antt =====
-- The gate for broad allow rules of crates/fw-core/src/policy.rs.
use linux_host_firewall_mana.Prelude.{
  ℕ, ◌≡◌, refl, ◌↔◌, ◌⊎◌, inl, inr, true, Option, none, some, List, [], ◌∷◌, ◌++◌, map, nat_eq,
  arith, eq_iff, String, Bool-cases,
}
use linux_host_firewall_mana.Prelude.Lists.{All}
use linux_host_firewall_mana.Models.{FirewallAction, FirewallRule}
use linux_host_firewall_mana.Policy.{
  is_broad_src, check_rule, check_policy_set_for_flagged, SetGroupRow, RuleRow, Joined,
  comes_before, insert, order_by, rows_of_group, join_rows, rules_for_policy_set,
  flagged_rule_ids_for_set,
}

-- An allow rule for every source and every destination port.
pub record IsBroadAllow (r : FirewallRule) : Type 0 where
  pub action : r.action ≡ FirewallAction.allow
  pub source :
      (r.src_cidr ≡ none)
      ⊎ ((r.src_cidr ≡ some "0.0.0.0/0") ⊎ ((r.src_cidr ≡ some "::/0") ⊎ (r.src_cidr ≡ some "any")))
  pub port_start : r.dst_port_start ≡ none
  pub port_end : r.dst_port_end ≡ none

abbrev BroadSource : Option String → Type 0
BroadSource o = (o ≡ none) ⊎ ((o ≡ some "0.0.0.0/0") ⊎ ((o ≡ some "::/0") ⊎ (o ≡ some "any")))

source_lem : (o : Option String) → (is_broad_src o ≡ true) ↔ BroadSource o
unfolding is_broad_src
source_lem none = (λ h. inl refl, λ h. refl)
source_lem (some s) = (
  λ h. ground (arith, eq_iff s "0.0.0.0/0", eq_iff s "::/0", eq_iff s "any"),
  λ h. ground (arith, eq_iff s "0.0.0.0/0", eq_iff s "::/0", eq_iff s "any"),
)

flagged→broad : (r : FirewallRule) → (check_rule r).requires_approval ≡ true → IsBroadAllow r
unfolding check_rule
flagged→broad r h = record {
  action = ground arith;
  source = (source_lem r.src_cidr).0 (ground arith);
  port_start = ground arith;
  port_end = ground arith;
}

broad→flagged : (r : FirewallRule) → IsBroadAllow r → (check_rule r).requires_approval ≡ true
unfolding check_rule
broad→flagged r b =
    let broad : is_broad_src r.src_cidr ≡ true = (source_lem r.src_cidr).1 b.source in
    ground (arith, b.action, b.port_start, b.port_end)

none_flagged_iff :
    (rules : List FirewallRule)
    → (check_policy_set_for_flagged rules ≡ []) ↔ All (λ r. ¬ IsBroadAllow r) rules
unfolding check_policy_set_for_flagged
none_flagged_iff [] = (λ h. tt, λ h. refl)
none_flagged_iff (r ∷ rules) = elim (Bool-cases (check_rule r).requires_approval) [
  | inl flagged ↦
      (λ h. absurd (no_cons (rw flagged at h)), λ h. absurd (h.0 (flagged→broad r flagged)))
  | inr clear ↦ rw clear (
    λ h. ((λ b. cc (clear, broad→flagged r b)), (none_flagged_iff rules).0 h),
    λ h. (none_flagged_iff rules).1 h.1,
  )
]
  where
    no_cons : {n : ℕ} {ns : List ℕ} → (n ∷ ns) ≡ [] → ⊥
    no_cons h = cc

-- What holds of every row of the join.
module _ (P : Joined → Type 0) where
  All-insert : (a : Joined) (rows : List Joined) → All P (insert a rows) ↔ (P a × All P rows)
  unfolding insert
  All-insert a [] = (λ h. h, λ h. h)
  All-insert a (b ∷ rows) = elim (Bool-cases (comes_before b a)) [
    | inl later ↦ rw later (
      λ h. let (p, ps) = (All-insert a rows).0 h.1 in (p, (h.0, ps)),
      λ h. (h.1.0, (All-insert a rows).1 (h.0, h.1.1)),
    )
    | inr here ↦ rw here (λ h. h, λ h. h)
  ]

  All-order_by : (rows : List Joined) → All P (order_by rows) ↔ All P rows
  unfolding order_by
  All-order_by [] = (λ h. h, λ h. h)
  All-order_by (a ∷ rows) = (
    λ h. let (p, ps) = (All-insert a (order_by rows)).0 h in (p, (All-order_by rows).0 ps),
    λ h. (All-insert a (order_by rows)).1 (h.0, (All-order_by rows).1 h.1),
  )

  All-append_iff : (xs ys : List Joined) → All P (xs ++ ys) ↔ (All P xs × All P ys)
  All-append_iff [] ys = (λ h. (tt, h), λ h. h.1)
  All-append_iff (x ∷ xs) ys = (
    λ h. let (p, q) = (All-append_iff xs ys).0 h.1 in ((h.0, p), q),
    λ h. (h.0.0, (All-append_iff xs ys).1 (h.0.1, h.1)),
  )

  All-rows_of_group :
      (g : SetGroupRow) (rules : List RuleRow)
      → All P (rows_of_group g rules)
        ↔ All
            (λ r.
              r.rule_group_id ≡ g.rule_group_id
              → P (record {
                set_group_order = g.set_group_order;
                group_order = r.group_order;
                rule = r.rule;
              }))
            rules
  unfolding rows_of_group
  All-rows_of_group g [] = (λ h. tt, λ h. tt)
  All-rows_of_group g (r ∷ rules) = elim (Bool-cases (nat_eq r.rule_group_id g.rule_group_id)) [
    | inl same ↦ rw same (
      λ h. ((λ e. h.0), (All-rows_of_group g rules).0 h.1),
      λ h. (h.0 (ground arith), (All-rows_of_group g rules).1 h.1),
    )
    | inr other ↦ rw other (
      λ h. ((λ e. absurd (ground arith)), (All-rows_of_group g rules).0 h),
      λ h. (All-rows_of_group g rules).1 h.1,
    )
  ]

-- Every rule of every group that the set includes satisfies `Q`.
abbrev pub OfSet : (FirewallRule → Type 0) → ℕ → List SetGroupRow → List RuleRow → Type 0
OfSet Q set groups rules =
    All (λ g. g.policy_set_id ≡ set → All (λ r. r.rule_group_id ≡ g.rule_group_id → Q r.rule) rules)
      groups

module _ (Q : FirewallRule → Type 0) where
  All-join_rows :
      (set : ℕ) (groups : List SetGroupRow) (rules : List RuleRow)
      → All (λ j. Q j.rule) (join_rows set groups rules) ↔ OfSet Q set groups rules
  unfolding join_rows
  All-join_rows set [] rules = (λ h. tt, λ h. tt)
  All-join_rows set (g ∷ groups) rules = elim (Bool-cases (nat_eq g.policy_set_id set)) [
    | inl same ↦ rw same (
      λ h.
          let (p, q) = (All-append_iff (λ j. Q j.rule) (rows_of_group g rules) _).0 h in
          (
            (λ e. (All-rows_of_group (λ j. Q j.rule) g rules).0 p),
            (All-join_rows set groups rules).0 q,
          ),
      λ h. (All-append_iff (λ j. Q j.rule) (rows_of_group g rules) _).1 (
        (All-rows_of_group (λ j. Q j.rule) g rules).1 (h.0 (ground arith)),
        (All-join_rows set groups rules).1 h.1,
      ),
    )
    | inr other ↦ rw other (
      λ h. ((λ e. absurd (ground arith)), (All-join_rows set groups rules).0 h),
      λ h. (All-join_rows set groups rules).1 h.1,
    )
  ]

  All-map_rule : (rows : List Joined) → All Q (map (λ j. j.rule) rows) ↔ All (λ j. Q j.rule) rows
  All-map_rule [] = (λ h. h, λ h. h)
  All-map_rule (j ∷ rows) =
      (λ h. (h.0, (All-map_rule rows).0 h.1), λ h. (h.0, (All-map_rule rows).1 h.1))

  -- What the compiled rule list of a set satisfies is what the rules of its groups satisfy.
  pub rules_for_policy_set-All_iff :
      (groups : List SetGroupRow) (rules : List RuleRow) (set : ℕ)
      → All Q (rules_for_policy_set groups rules set) ↔ OfSet Q set groups rules
  unfolding rules_for_policy_set
  rules_for_policy_set-All_iff groups rules set =
      let rows = join_rows set groups rules in
      let a = All-map_rule (order_by rows) in
      let b = All-order_by (λ j. Q j.rule) rows in
      let d = All-join_rows set groups rules in (λ h. d.0 (b.0 (a.0 h)), λ h. a.1 (b.1 (d.1 h)))

-- No rule of a policy set is flagged exactly when no rule of any group that the set includes is an
-- allow rule from anywhere to every destination port, whatever the groups' and the rules' order.
pub flagged_rule_ids_for_set-nil_iff :
    (groups : List SetGroupRow) (rules : List RuleRow) (set : ℕ)
    → (flagged_rule_ids_for_set groups rules set ≡ [])
      ↔ OfSet (λ r. ¬ IsBroadAllow r) set groups rules
unfolding flagged_rule_ids_for_set
flagged_rule_ids_for_set-nil_iff groups rules set =
    let a = none_flagged_iff (rules_for_policy_set groups rules set) in
    let b = rules_for_policy_set-All_iff (λ r. ¬ IsBroadAllow r) groups rules set in
    (λ h. b.0 (a.0 h), λ h. a.1 (b.1 h))
