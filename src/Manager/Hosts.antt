-- ===== src/Manager/Hosts.antt =====
-- crates/fw-web/src/routes/hosts.rs and groups.rs: hosts, their policy sets and protected networks, and
-- the host groups.
pub mod Laws
use linux_host_firewall_mana.Prelude.{
  ℕ, String, Bool, true, false, not, ◌&&◌, Option, none, some, List, [], ◌∷◌, ◌++◌, map, ◌==◌,
  nat_eq, if◌then◌else◌, Result, ok, err, unwrap_or,
}
use linux_host_firewall_mana.Prelude.Lists.{any, find, is_empty, keep, update_where}
use linux_host_firewall_mana.Prelude.Text.{concat, join}
use linux_host_firewall_mana.Crates.{text_type, inet_type, policy_decision_type, Crates, text}
use linux_host_firewall_mana.Models.{HostHealthStatus, pending, healthy, degraded, unreachable}
use linux_host_firewall_mana.Policy.{flagged_rule_ids_for_set}
use linux_host_firewall_mana.Auth.Rbac.{AuthUser, HostGroup, is_admin}
use linux_host_firewall_mana.Manager.Tables.{GroupRow, ProtectedCidr, Certificate}
use linux_host_firewall_mana.Manager.Db.{HostRow, Assignment, PolicySetRow, Db}
use linux_host_firewall_mana.Manager.Handler.{
  AppError, not_found, conflict, Answer, ensure, admin_only, writers_only, audit,
}
use linux_host_firewall_mana.Manager.PolicySets.{has_set_id}
use linux_host_firewall_mana.Manager.Assign.{is_assignment}

abbrev pub has_host_id : ℕ → HostRow → Bool
has_host_id id h = nat_eq h.id id

abbrev pub is_cert_of : ℕ → Certificate → Bool
is_cert_of id cert = elim cert.host_id [ none ↦ false | some h ↦ nat_eq h id ]

unfoldable pub parse_health_status : String → HostHealthStatus
parse_health_status s =
    if s == "healthy"
    then healthy
    else if s == "degraded"
    then degraded
    else if s == "unreachable"
    then unreachable
    else pending

-- The host whose waiting check-in is woken, or 404.
unfoldable pub force_check_in : ℕ → Db → Result ℕ AppError
force_check_in id db =
    if any (has_host_id id) db.hosts then ok id else err (not_found "Host not found")

unfoldable pub get_host_policy_sets : ℕ → Db → List Assignment
get_host_policy_sets id db = keep (λ a. nat_eq a.host_id id) db.host_policy_assignments

unfoldable pub get_protected_cidrs : ℕ → Db → List ProtectedCidr
get_protected_cidrs id db = keep (λ p. nat_eq p.host_id id) db.host_protected_cidrs

-- `RETURNING *` gives an INET address, which does not decode as the `String` of `Host`: the update is
-- answered with an error.
unfoldable pub update_host : AuthUser → ℕ → Option String → Option String → Db → Answer HostRow
update_host auth id display_name notes db =
    let change = λ (h : HostRow). record h {
      display_name = unwrap_or display_name h.display_name;
      notes = unwrap_or notes h.notes;
    } in
    writers_only auth db (elim (find (has_host_id id) db.hosts) [
      | none ↦ (err (not_found "Host not found"), db)
      | some h ↦ (
        err AppError.database,
        record db { hosts = update_where (has_host_id id) change db.hosts },
      )
    ])

-- `ON CONFLICT (host_id, cidr) DO NOTHING`
unfoldable pub insert_cidr : ProtectedCidr → List ProtectedCidr → List ProtectedCidr
insert_cidr p rows =
    if any (λ q. nat_eq q.host_id p.host_id && q.cidr == p.cidr) rows then rows else rows ++ p ∷ []

-- The address is bound as text to an INET column.
unfoldable pub add_protected_cidr :
    Crates → AuthUser → ℕ → String → Option String → Db → Answer (Unit {0})
unfolding insert_cidr
add_protected_cidr c auth id cidr label db = admin_only auth db (
    ensure (c.postgres.is_assignable text_type inet_type && any (has_host_id id) db.hosts)
      AppError.database db
      (
        ok tt,
        record db {
          host_protected_cidrs =
              insert_cidr
                (record {
                  host_id = id;
                  cidr = cidr;
                  label = unwrap_or label "";
                  created_by = some auth.user_id;
                })
                db.host_protected_cidrs;
        },
      ))

-- `ON CONFLICT (host_id, policy_set_id) DO NOTHING`
unfoldable pub insert_one : AuthUser → ℕ → ℕ → List Assignment → List Assignment
insert_one auth host set rows =
    if any (is_assignment host set) rows
    then rows
    else rows
      ++ record { host_id = host; policy_set_id = set; assigned_by = some auth.user_id } ∷ []

module _ (c : Crates) (stored : ℕ → ℕ) (now : ℕ) (auth : AuthUser) where
  -- What belongs to the host goes with it.
  unfoldable pub delete_host : ℕ → Db → Answer (Unit {0})
  unfolding audit
  delete_host id db = admin_only auth db (
    ok tt,
    audit c stored now auth "host_removed" "host" (c.uuid_string id) [] (record db {
      hosts = keep (λ h. not (has_host_id id h)) db.hosts;
      agent_check_ins = keep (λ r. not (nat_eq r.host_id id)) db.agent_check_ins;
      host_policy_assignments = keep (λ r. not (nat_eq r.host_id id)) db.host_policy_assignments;
      drift_snapshots = keep (λ r. not (nat_eq r.host_id id)) db.drift_snapshots;
      host_config_overrides = keep (λ r. not (nat_eq r.host_id id)) db.host_config_overrides;
      pending_actions = keep (λ r. not (nat_eq r.host_id id)) db.pending_actions;
      host_groups = keep (λ r. not (nat_eq r.host_id id)) db.host_groups;
      host_protected_cidrs = keep (λ r. not (nat_eq r.host_id id)) db.host_protected_cidrs;
      certificates = keep (λ r. not (is_cert_of id r)) db.certificates;
    }),
  )

  -- The gate for flagged rules, for all but admins.
  abbrev flagged_gate : ℕ → Db → Answer (Unit {0}) → Answer (Unit {0})
  flagged_gate set db rest =
      let flagged = flagged_rule_ids_for_set db.set_rule_groups db.firewall_rules set in
      if not (is_admin auth.role) && not (is_empty flagged)
      then (
        err (
            conflict (
              concat (
                "Policy set contains flagged rules requiring admin approval: "
                ∷ join ", " (map c.uuid_string flagged)
                ∷ []))),
        db,
      )
      else rest

  -- Host and set must exist.
  unfoldable pub assign_one : ℕ → ℕ → Db → Answer (Unit {0})
  unfolding insert_one audit
  assign_one host set db = writers_only auth db (
      flagged_gate set db (
        ensure (any (has_host_id host) db.hosts && any (has_set_id set) db.policy_sets)
          AppError.database db
          (
            ok tt,
            audit c stored now auth "policy_assigned" "host" (c.uuid_string host)
                (("policy_set_id", text (c.uuid_string set)) ∷ [])
                (record db {
                  host_policy_assignments = insert_one auth host set db.host_policy_assignments;
                }),
          )))

  unfoldable pub unassign_one : ℕ → ℕ → Db → Answer (Unit {0})
  unfolding audit
  unassign_one host set db = writers_only auth db (
    ok tt,
    audit c stored now auth "policy_unassigned" "host" (c.uuid_string host)
        (("policy_set_id", text (c.uuid_string set)) ∷ [])
        (record db {
          host_policy_assignments =
              keep (λ a. not (is_assignment host set a)) db.host_policy_assignments;
        }),
  )

-- Host groups: no handler writes an audit record.
abbrev pub has_host_group : ℕ → GroupRow → Bool
has_host_group id g = nat_eq g.id id

abbrev pub is_member : ℕ → ℕ → HostGroup → Bool
is_member group host hg = nat_eq hg.host_id host && nat_eq hg.group_id group

-- `id` is the new uuid. The name is UNIQUE.
unfoldable pub create_group : AuthUser → ℕ → String → Option String → Db → Answer GroupRow
create_group auth id name description db =
    let row : GroupRow = record { id = id; name = name; description = unwrap_or description "" } in
    writers_only auth db (
      ensure (not (any (λ g. g.name == name) db.groups)) AppError.database db
        (ok row, record db { groups = db.groups ++ row ∷ [] }))

unfoldable pub delete_group : AuthUser → ℕ → Db → Answer (Unit {0})
delete_group auth id db = admin_only auth db (
  ok tt,
  record db {
    groups = keep (λ g. not (has_host_group id g)) db.groups;
    host_groups = keep (λ hg. not (nat_eq hg.group_id id)) db.host_groups;
    operator_host_groups = keep (λ o. not (nat_eq o.group_id id)) db.operator_host_groups;
  },
)

unfoldable pub add_member : ℕ → ℕ → List HostGroup → List HostGroup
add_member group host rows =
    if any (is_member group host) rows
    then rows
    else rows ++ record { host_id = host; group_id = group } ∷ []

-- Host and group must exist.
unfoldable pub add_host_to_group : AuthUser → ℕ → ℕ → Db → Answer (Unit {0})
unfolding add_member
add_host_to_group auth group host db = writers_only auth db (
    ensure (any (has_host_id host) db.hosts && any (has_host_group group) db.groups)
      AppError.database db
      (ok tt, record db { host_groups = add_member group host db.host_groups }))

unfoldable pub remove_host_from_group : AuthUser → ℕ → ℕ → Db → Answer (Unit {0})
remove_host_from_group auth group host db =
    writers_only auth db
      (ok tt, record db { host_groups = keep (λ hg. not (is_member group host hg)) db.host_groups })
