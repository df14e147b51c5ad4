-- ===== src/Manager/Hosts/Laws.antt =====
-- Access to hosts and the revocation of their certificates (crates/fw-web/src/routes/hosts.rs,
-- groups.rs and certificates.rs).
use linux_host_firewall_mana.Prelude.{
  ℕ, ◌≡◌, refl, ◌∙◌, Bool, true, false, ◌&&◌, ◌||◌, Option, List, [], ◌∷◌, nat_eq, inl, inr,
  Bool-cases, ok, arith,
}
use linux_host_firewall_mana.Prelude.Lists.{any, any-append, is_empty}
use linux_host_firewall_mana.Crates.{Crates}
use linux_host_firewall_mana.Policy.{flagged_rule_ids_for_set}
use linux_host_firewall_mana.Auth.Rbac.{
  AuthUser, OperatorGroup, HostGroup, is_admin, is_break_glass, can_write, can_access_host,
}
use linux_host_firewall_mana.Auth.Rbac.Access.{shares_group, can_access_host_lem}
use linux_host_firewall_mana.Manager.Db.{Db, Assignment}
use linux_host_firewall_mana.Manager.Handler.{audit}
use linux_host_firewall_mana.Manager.PolicySets.{has_set_id}
use linux_host_firewall_mana.Manager.Assign.{is_assignment}
use linux_host_firewall_mana.Manager.Hosts.{
  has_host_id, assign_one, insert_one, add_host_to_group, add_member, is_member, has_host_group,
}

or_true : (b : Bool) → b || true ≡ true
or_true true = refl
or_true false = refl

add_member-adds :
    (group host : ℕ) (rows : List HostGroup)
    → any (is_member group host) (add_member group host rows) ≡ true
unfolding add_member
add_member-adds group host rows = ground (
  arith,
  any-append (is_member group host) rows (record { host_id = host; group_id = group } ∷ []),
)

module _ (c : Crates) (stored : ℕ → ℕ) (now : ℕ) (auth : AuthUser) where
  insert_one-assigned :
      (host set : ℕ) (rows : List Assignment)
      → any (is_assignment host set) (insert_one auth host set rows) ≡ true
  unfolding insert_one
  insert_one-assigned host set rows = ground (
    arith,
    any-append (is_assignment host set) rows (
        record { host_id = host; policy_set_id = set; assigned_by = Option.some auth.user_id }
        ∷ []),
  )

  -- The single-host route assigns a set without asking whether the user may act on the host: any user
  -- who may write gets an unflagged set onto any host.
  pub assign_one-unchecked :
      (host set : ℕ) (db : Db)
      → can_write auth.role ≡ true
      → is_empty (flagged_rule_ids_for_set db.set_rule_groups db.firewall_rules set) ≡ true
      → any (has_host_id host) db.hosts ≡ true
      → any (has_set_id set) db.policy_sets ≡ true
      → ((assign_one c stored now auth host set db).0 ≡ ok tt)
        × (any
              (is_assignment host set)
              (assign_one c stored now auth host set db).1.host_policy_assignments
            ≡ true)
  unfolding assign_one audit
  assign_one-unchecked host set db writer clean there known =
      elim (Bool-cases (is_admin auth.role)) [
        | inl boss ↦
            rw (writer, boss, there, known)
              (refl, insert_one-assigned host set db.host_policy_assignments)
        | inr clerk ↦
            rw (writer, clerk, clean, there, known)
              (refl, insert_one-assigned host set db.host_policy_assignments)
      ]

any-member :
    (group host k : ℕ) (rows : List HostGroup)
    → any (is_member group host) rows ≡ true
    → nat_eq k group ≡ true
    → any (λ hg. nat_eq hg.group_id k && nat_eq hg.host_id host) rows ≡ true
any-member group host k [] h e = h
any-member group host k (hg ∷ rows) h e = elim (Bool-cases (is_member group host hg)) [
  | inr other ↦ ground (arith, any-member group host k rows (rw other at h) e)
  | inl mine ↦ ground (arith, mine, e)
]

shares-member :
    (user group host : ℕ) (operators : List OperatorGroup) (rows : List HostGroup)
    → any (λ o. nat_eq o.user_id user && nat_eq o.group_id group) operators ≡ true
    → any (is_member group host) rows ≡ true
    → shares_group operators rows user host ≡ true
shares-member user group host [] rows h there = h
shares-member user group host (o ∷ operators) rows h there =
    elim (Bool-cases (nat_eq o.user_id user && nat_eq o.group_id group)) [
      | inl mine ↦
          let own = and_left (nat_eq o.user_id user) (nat_eq o.group_id group) mine in
          let same = and_right (nat_eq o.user_id user) (nat_eq o.group_id group) mine in
          rw (own, any-member group host o.group_id rows there same) refl
      | inr other ↦
          let rest = shares-member user group host operators rows (rw other at h) there in
          rw rest (or_true _)
    ]
  where
    and_left : (a b : Bool) → a && b ≡ true → a ≡ true
    and_left true b e = refl
    and_left false b e = e

    and_right : (a b : Bool) → a && b ≡ true → b ≡ true
    and_right true b e = e
    and_right false b e = cc

-- An operator gets access to any host without an administrator: to whoever may write, adding an
-- existing host to an existing group is granted, and when the group is one of the user's own, the user
-- may act on the host from then on.
pub add_host_to_group-grants :
    (auth : AuthUser) (group host : ℕ) (db : Db)
    → can_write auth.role ≡ true
    → any (λ o. nat_eq o.user_id auth.user_id && nat_eq o.group_id group) db.operator_host_groups
      ≡ true
    → any (has_host_id host) db.hosts ≡ true
    → any (has_host_group group) db.groups ≡ true
    → ((add_host_to_group auth group host db).0 ≡ ok tt)
      × (can_access_host
            (add_host_to_group auth group host db).1.operator_host_groups
            (add_host_to_group auth group host db).1.host_groups
            auth
            host
          ≡ true)
unfolding add_host_to_group
add_host_to_group-grants auth group host db writer member there known =
    rw (writer, there, known)
      (
        refl,
        can_access_host_lem db.operator_host_groups (add_member group host db.host_groups) auth host
            ∙ rw
                (
                  writer,
                  shares-member auth.user_id group host db.operator_host_groups
                      (add_member group host db.host_groups) member
                      (add_member-adds group host db.host_groups),
                )
                (or_true (is_admin auth.role || is_break_glass auth.role)),
      )
