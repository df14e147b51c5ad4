-- ===== src/Manager/Assign.antt =====
-- crates/fw-web/src/routes/deployment.rs: assigning a policy set to hosts, and taking it away.
pub mod Gate
pub mod Errors
pub mod Unassign
use linux_host_firewall_mana.Prelude.{
  ℕ, ◌+◌, String, Bool, true, false, not, ◌&&◌, Option, none, some, List, [], ◌∷◌, ◌++◌, map,
  nat_eq, ltb, if◌then◌else◌, Result, ok, err,
}
use linux_host_firewall_mana.Prelude.Lists.{length, is_empty, any, keep}
use linux_host_firewall_mana.Prelude.Text.{concat, join}
use linux_host_firewall_mana.Crates.{Crates, Json, text}
use linux_host_firewall_mana.Policy.{flagged_rule_ids_for_set}
use linux_host_firewall_mana.Audit.{AuditEvent, log_event}
use linux_host_firewall_mana.Auth.Rbac.{
  UserRole, AuthUser, HostGroup, is_admin, can_write, can_access_host,
}
use linux_host_firewall_mana.Manager.Db.{Assignment, Db}
pub use linux_host_firewall_mana.Manager.Handler.{AppError, forbidden, conflict, bad_request}

pub record AssignRequest : Type 0 where
  pub policy_set_id : ℕ
  pub host_ids : List ℕ
  pub group_ids : List ℕ

pub record AssignResponse : Type 0 where
  pub policy_set_id : ℕ
  pub assigned_count : ℕ
  pub host_ids : List ℕ

-- `SELECT host_id FROM host_groups WHERE group_id = ANY($1)`
unfoldable pub hosts_of_groups : List ℕ → List HostGroup → List ℕ
hosts_of_groups group_ids rows =
    map (λ hg. hg.host_id) (keep (λ hg. any (λ g. nat_eq g hg.group_id) group_ids) rows)

-- `sort` and `dedup` in one: insertion without a second copy.
unfoldable pub insert_id : ℕ → List ℕ → List ℕ
insert_id a [] = a ∷ []
insert_id a (b ∷ ids) =
    let later = b ∷ insert_id a ids in
    if ltb a b then a ∷ b ∷ ids else if nat_eq a b then b ∷ ids else later

unfoldable pub sort_dedup : List ℕ → List ℕ
unfolding insert_id
sort_dedup [] = []
sort_dedup (a ∷ ids) = insert_id a (sort_dedup ids)

unfoldable pub resolve_host_ids : Db → List ℕ → List ℕ → List ℕ
unfolding hosts_of_groups sort_dedup
resolve_host_ids db host_ids group_ids =
    sort_dedup (host_ids ++ hosts_of_groups group_ids db.host_groups)

abbrev pub is_assignment : ℕ → ℕ → Assignment → Bool
is_assignment host set a = nat_eq a.host_id host && nat_eq a.policy_set_id set

module _ (c : Crates) (stored : ℕ → ℕ) (now : ℕ) (ip_text : Option String) (auth : AuthUser) where
  policy_event : String → ℕ → ℕ → AuditEvent
  policy_event action set host = record {
    action = action;
    actor_user_id = some auth.user_id;
    actor_username = some auth.username;
    target_type = some "host";
    target_id = some (c.uuid_string host);
    details = c.json_object (("policy_set_id", text (c.uuid_string set)) ∷ []);
    ip_address = ip_text;
    request_id = none;
  }

  -- `INSERT … ON CONFLICT (host_id, policy_set_id) DO NOTHING`: the rows affected, and the table.
  insert_assignment : ℕ → ℕ → List Assignment → ℕ × List Assignment
  insert_assignment set host rows = if any (is_assignment host set) rows then (0, rows) else (
    1,
    rows ++ record { host_id = host; policy_set_id = set; assigned_by = some auth.user_id } ∷ [],
  )

  unfoldable pub assign_host : ℕ → ℕ → Db → ℕ × Db
  unfolding insert_assignment policy_event
  assign_host set host db =
      let (affected, rows) = insert_assignment set host db.host_policy_assignments in
      (
        affected,
        record db {
          host_policy_assignments = rows;
          audit_log = log_event c stored now (policy_event "policy_assigned" set host) db.audit_log;
        },
      )

  no_access : ℕ → AppError
  no_access host =
      forbidden
        (concat ("Operator " ∷ auth.username ∷ " cannot access host " ∷ c.uuid_string host ∷ []))

  -- The loop: each round is its own statement, so what earlier rounds wrote stays written.
  unfoldable pub assign_hosts : ℕ → List ℕ → ℕ → Db → Result ℕ AppError × Db
  unfolding no_access
  assign_hosts set [] assigned db = (ok assigned, db)
  assign_hosts set (host ∷ hosts) assigned db =
      let (affected, db') = assign_host set host db in
      let rest = assign_hosts set hosts (assigned + affected) db' in
      if can_access_host db.operator_host_groups db.host_groups auth host
      then rest
      else (err (no_access host), db)

  unfoldable pub assigned_response :
      ℕ → List ℕ → Result ℕ AppError × Db → Result AssignResponse AppError × Db
  assigned_response set hosts (err e, db) = (err e, db)
  assigned_response set hosts (ok n, db) =
      (ok (record { policy_set_id = set; assigned_count = n; host_ids = hosts }), db)

  unfoldable pub assign_checked : AssignRequest → Db → Result AssignResponse AppError × Db
  unfolding assigned_response
  assign_checked req db =
      let hosts = resolve_host_ids db req.host_ids req.group_ids in
      if is_empty hosts
      then (err (bad_request "No hosts selected"), db)
      else assigned_response req.policy_set_id hosts (assign_hosts req.policy_set_id hosts 0 db)

  unfoldable pub assign_policy_set : AssignRequest → Db → Result AssignResponse AppError × Db
  unfolding assign_checked
  assign_policy_set req db =
      let flagged =
        flagged_rule_ids_for_set db.set_rule_groups db.firewall_rules req.policy_set_id in
      if not (can_write auth.role)
      then (err (forbidden "Write access required"), db)
      else if not (is_admin auth.role) && not (is_empty flagged)
      then (
        err (
            conflict (
              concat (
                "Policy set contains flagged rules requiring admin approval: "
                ∷ join ", " (map c.uuid_string flagged)
                ∷ []))),
        db,
      )
      else assign_checked req db

  unfoldable pub unassign_host : ℕ → ℕ → Db → Db
  unfolding policy_event
  unassign_host set host db = record db {
    host_policy_assignments = keep (λ a. not (is_assignment host set a)) db.host_policy_assignments;
    audit_log = log_event c stored now (policy_event "policy_unassigned" set host) db.audit_log;
  }

  unfoldable pub unassign_hosts : ℕ → List ℕ → Db → Db
  unfolding unassign_host
  unassign_hosts set [] db = db
  unassign_hosts set (host ∷ hosts) db = unassign_hosts set hosts (unassign_host set host db)

  -- The number of hosts that the response names.
  unfoldable pub unassign_policy_set : AssignRequest → Db → Result ℕ AppError × Db
  unfolding unassign_hosts
  unassign_policy_set req db =
      let hosts = resolve_host_ids db req.host_ids req.group_ids in
      if can_write auth.role
      then (ok (length hosts), unassign_hosts req.policy_set_id hosts db)
      else (err (forbidden "Write access required"), db)
