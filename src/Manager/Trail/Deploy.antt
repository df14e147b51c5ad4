-- ===== src/Manager/Trail/Deploy.antt =====
-- The handlers of crates/fw-web/src/routes/hosts.rs, deployment.rs and agent_api.rs write the audit log
-- only by `log_event`.
use linux_host_firewall_mana.Prelude.{
  ℕ, ◌+◌, String, Bool, not, ◌&&◌, Option, none, some, List, [], ◌∷◌, ◌==◌, Result, ok, err, true,
  false, ◌≡◌, refl,
}
use linux_host_firewall_mana.Prelude.Lists.{any, is_empty, length}
use linux_host_firewall_mana.Crates.{Crates}
use linux_host_firewall_mana.Policy.{flagged_rule_ids_for_set}
use linux_host_firewall_mana.Auth.Rbac.{AuthUser, is_admin, can_write, can_access_host}
use linux_host_firewall_mana.Agent.Os.{CheckInResultRequest}
use linux_host_firewall_mana.Manager.Db.{Db, assigned_set}
use linux_host_firewall_mana.Manager.Handler.{audit}
use linux_host_firewall_mana.Manager.PolicySets.{has_set_id}
use linux_host_firewall_mana.Manager.Hosts.{delete_host, assign_one, unassign_one, has_host_id}
use linux_host_firewall_mana.Manager.Assign.{
  AppError, AssignRequest, assign_policy_set, assign_checked, assigned_response, assign_hosts,
  assign_host, unassign_policy_set, unassign_hosts, unassign_host, resolve_host_ids,
}
use linux_host_firewall_mana.Manager.CheckIn.{
  CheckInRequest, check_in, check_in_result, finish_action, note_mismatch, note_out_of_band,
  record_check_in, expected_hash, policy_rows, when,
}
use linux_host_firewall_mana.Manager.Trail.{
  same, logs, Logged-trans, Extends, if-Extends, ensure-Extends,
}

module _ (c : Crates) (stored : ℕ → ℕ) (now : ℕ) where
  when-Extends :
      (b : Bool) (f : Db → Db) (db0 db : Db)
      → Extends c stored db0 db
      → Extends c stored db0 (f db)
      → Extends c stored db0 (when c stored now b f db)
  when-Extends true f db0 db p q = q
  when-Extends false f db0 db p q = p

  pub check_in-Extends :
      (host : ℕ) (req : CheckInRequest) (db : Db)
      → Extends c stored db (check_in c stored now host req db).1
  unfolding check_in note_mismatch note_out_of_band record_check_in
  check_in-Extends host req db =
      let set = assigned_set host db.host_policy_assignments in
      let hash = req.rules_hash in
      let n = length (policy_rows db set) in
      let expected = expected_hash c stored now db set in
      let db1 = record_check_in c stored now host req db in
      let mismatch = note_mismatch c stored now host hash expected n in
      let db2 = when c stored now (not (hash == expected)) mismatch db1 in
      let here : Extends c stored db db2 =
        when-Extends (not (hash == expected)) mismatch db db1 same (logs now _ same) in
      when-Extends req.local_drift (note_out_of_band c stored now host hash n) db db2 here
        (logs now _ here)

  pub check_in_result-Extends :
      (host : ℕ) (req : CheckInResultRequest) (db : Db)
      → Extends c stored db (check_in_result c stored now host req db)
  unfolding check_in_result
  check_in_result-Extends host req db = of_action req.action_id
    where
      of_action :
          (action : Option ℕ) → Extends c stored db (finish_action c stored now host req action db)
      of_action none = same
      of_action (some id) = logs now _ same

module _ (c : Crates) (stored : ℕ → ℕ) (now : ℕ) (ip : Option String) (auth : AuthUser) where
  assign_hosts-Extends :
      (set : ℕ) (hosts : List ℕ) (n : ℕ) (db : Db)
      → Extends c stored db (assign_hosts c stored now ip auth set hosts n db).1
  unfolding assign_hosts assign_host
  assign_hosts-Extends set [] n db = same
  assign_hosts-Extends set (host ∷ hosts) n db =
      if-Extends c stored (can_access_host db.operator_host_groups db.host_groups auth host) db _ _
        (Logged-trans c stored (logs now _ same) (
          assign_hosts-Extends set hosts (n + (assign_host c stored now ip auth set host db).0)
            (assign_host c stored now ip auth set host db).1))
        same

  assigned_response_lem :
      (set : ℕ) (hosts : List ℕ) (r : Result ℕ AppError × Db)
      → (assigned_response c stored now ip auth set hosts r).1 ≡ r.1
  unfolding assigned_response
  assigned_response_lem set hosts (err e, db) = refl
  assigned_response_lem set hosts (ok n, db) = refl

  pub assign_policy_set-Extends :
      (req : AssignRequest) (db : Db)
      → Extends c stored db (assign_policy_set c stored now ip auth req db).1
  unfolding assign_policy_set assign_checked
  assign_policy_set-Extends req db =
      let set = req.policy_set_id in
      let hosts = resolve_host_ids db req.host_ids req.group_ids in
      let flagged = flagged_rule_ids_for_set db.set_rule_groups db.firewall_rules set in
      if-Extends c stored (not (can_write auth.role)) db _ _ same (
        if-Extends c stored (not (is_admin auth.role) && not (is_empty flagged)) db _ _ same (
          if-Extends c stored (is_empty hosts) db _ _ same
            (rw assigned_response_lem (assign_hosts-Extends set hosts 0 db))))

  unassign_hosts-Extends :
      (set : ℕ) (hosts : List ℕ) (db : Db)
      → Extends c stored db (unassign_hosts c stored now ip auth set hosts db)
  unfolding unassign_hosts unassign_host
  unassign_hosts-Extends set [] db = same
  unassign_hosts-Extends set (host ∷ hosts) db =
      Logged-trans c stored (logs now _ same)
        (unassign_hosts-Extends set hosts (unassign_host c stored now ip auth set host db))

  pub unassign_policy_set-Extends :
      (req : AssignRequest) (db : Db)
      → Extends c stored db (unassign_policy_set c stored now ip auth req db).1
  unfolding unassign_policy_set
  unassign_policy_set-Extends req db =
      if-Extends c stored (can_write auth.role) db _ _
        (unassign_hosts-Extends req.policy_set_id (resolve_host_ids db req.host_ids req.group_ids)
          db)
        same

module _ (c : Crates) (stored : ℕ → ℕ) (now : ℕ) (auth : AuthUser) where
  pub delete_host-Extends :
      (id : ℕ) (db : Db) → Extends c stored db (delete_host c stored now auth id db).1
  unfolding delete_host audit
  delete_host-Extends id db = ensure-Extends c stored (is_admin auth.role) _ db _ (logs now _ same)

  pub assign_one-Extends :
      (host set : ℕ) (db : Db) → Extends c stored db (assign_one c stored now auth host set db).1
  unfolding assign_one audit
  assign_one-Extends host set db =
      let flagged = flagged_rule_ids_for_set db.set_rule_groups db.firewall_rules set in
      ensure-Extends c stored (can_write auth.role) _ db _ (
        if-Extends c stored (not (is_admin auth.role) && not (is_empty flagged)) db _ _ same (
          ensure-Extends c stored
            (any (has_host_id host) db.hosts && any (has_set_id set) db.policy_sets) _ db _
            (logs now _ same)))

  pub unassign_one-Extends :
      (host set : ℕ) (db : Db) → Extends c stored db (unassign_one c stored now auth host set db).1
  unfolding unassign_one audit
  unassign_one-Extends host set db =
      ensure-Extends c stored (can_write auth.role) _ db _ (logs now _ same)
