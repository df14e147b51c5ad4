-- ===== src/Manager/CheckIn.antt =====
-- crates/fw-web/src/routes/agent_api.rs: the endpoints that an agent calls, for the host that its
-- client certificate names.
pub mod Converge
pub mod Delivery
pub mod Cycle
pub mod Reports
pub use linux_host_firewall_mana.Manager.Messages.{
  RuleRow, text_row, rule_to_dto, row_parts, CheckInRequest, ConfigUpdate, CheckInResponse,
  decode_request, decode_response,
}
use linux_host_firewall_mana.Prelude.{
  ℕ, String, Bool, true, false, not, ◌&&◌, ◌||◌, Option, none, some, List, [], ◌∷◌, ◌++◌, map, ◌==◌,
  nat_eq, ltb, if◌then◌else◌,
}
use linux_host_firewall_mana.Prelude.Int.{ℤ, int_lt, int_eq}
use linux_host_firewall_mana.Prelude.Lists.{length, is_empty, any, keep}
use linux_host_firewall_mana.Crates.{Crates, Json, text, flag, null}
use linux_host_firewall_mana.Models.{
  FirewallRule, FirewallDefaultPolicy, HostHealthStatus, RuleHashParts, action_str, direction_str,
  protocol_str, default_policy_str, compute_rules_hash,
}
use linux_host_firewall_mana.Policy.{rules_for_policy_set}
use linux_host_firewall_mana.Audit.{AuditEvent, log_event}
use linux_host_firewall_mana.Agent.Os
use linux_host_firewall_mana.Agent.Wire
use linux_host_firewall_mana.Agent.Wire.{RuleDto, PendingActionDto}
use linux_host_firewall_mana.Manager.Db.{
  HostRow, CheckInRow, PolicySetRow, DriftRow, DriftSource, check_in_mismatch, out_of_band,
  agent_report, ConfigOverride, PendingActionStatus, queued, delivered, executed, failed,
  PendingAction, Db, assigned_set,
}

unfoldable pub fetch_rules_for_policy_set : Db → ℕ → List RuleRow
fetch_rules_for_policy_set db set =
    map text_row (rules_for_policy_set db.set_rule_groups db.firewall_rules set)

-- `UPDATE hosts SET health_status = 'healthy', … WHERE id = $1`
abbrev mark_healthy : ℕ → ℕ → String → HostRow → HostRow
mark_healthy now host version h =
    if nat_eq h.id host
    then record h {
      health_status = HostHealthStatus.healthy;
      last_health_at = some now;
      agent_version = some version;
    }
    else h

abbrev policy_text : Option FirewallDefaultPolicy → Option String
policy_text none = none
policy_text (some p) = some (default_policy_str p)

find_defaults : ℕ → List PolicySetRow → Option String × Option String
find_defaults set [] = (none, none)
find_defaults set (p ∷ sets) =
    let next = find_defaults set sets in
    if nat_eq p.id set
    then (policy_text p.default_input_policy, policy_text p.default_output_policy)
    else next

unfoldable pub default_policies : Db → Option ℕ → Option String × Option String
unfolding find_defaults
default_policies db none = (none, none)
default_policies db (some set) = find_defaults set db.policy_sets

unfoldable pub policy_rows : Db → Option ℕ → List RuleRow
unfolding fetch_rules_for_policy_set
policy_rows db none = []
policy_rows db (some set) = fetch_rules_for_policy_set db set

find_override : ℕ → List ConfigOverride → Option ConfigUpdate
find_override host [] = none
find_override host (o ∷ rows) =
    let next = find_override host rows in
    if nat_eq o.host_id host
    then some (record {
      check_in_interval_secs = o.check_in_interval_secs;
      push_enabled = o.push_enabled;
      safe_mode_enabled = o.safe_mode_enabled;
      backend_override = o.backend_override;
      config_version = o.config_version;
    })
    else next

abbrev if_newer : ℤ → Option ConfigUpdate → Option ConfigUpdate
if_newer version none = none
if_newer version (some u) = if int_lt version u.config_version then some u else none

unfoldable pub config_for : Db → ℕ → ℤ → Option ConfigUpdate
unfolding find_override
config_for db host version = if_newer version (find_override host db.host_config_overrides)

abbrev pub is_queued : PendingActionStatus → Bool
is_queued queued = true
is_queued _ = false

-- `WHERE host_id = $1 AND status = 'queued' AND expires_at > NOW()`
abbrev pub is_due : ℕ → ℕ → PendingAction → Bool
is_due now host a = nat_eq a.host_id host && (is_queued a.status && ltb now a.expires_at)

-- `ORDER BY priority DESC, created_at`
unfoldable pub runs_before : PendingAction → PendingAction → Bool
runs_before a b =
    int_lt b.priority a.priority || int_eq a.priority b.priority && ltb a.created_at b.created_at

insert_action : PendingAction → List PendingAction → List PendingAction
unfolding runs_before
insert_action a [] = a ∷ []
insert_action a (b ∷ rows) =
    let later = b ∷ insert_action a rows in if runs_before b a then later else a ∷ b ∷ rows

unfoldable pub order_actions : List PendingAction → List PendingAction
unfolding insert_action
order_actions [] = []
order_actions (a ∷ rows) = insert_action a (order_actions rows)

unfoldable pub due_actions : ℕ → ℕ → List PendingAction → List PendingAction
unfolding order_actions
due_actions now host rows = order_actions (keep (is_due now host) rows)

abbrev action_dto : PendingAction → PendingActionDto
action_dto a = record {
  id = a.id;
  action_type = a.action_type;
  payload = a.payload;
  reason = a.reason;
}

-- `UPDATE pending_actions SET status = 'delivered' … WHERE id = ANY($1)`
abbrev deliver : ℕ → List ℕ → PendingAction → PendingAction
deliver now ids a =
    if any (λ id. nat_eq id a.id) ids
    then record a { status = delivered; delivered_at = some now }
    else a

-- A server event about a host or an action, with no actor.
abbrev system_event : String → String → String → String → AuditEvent
system_event action target_type target_id details = record {
  action = action;
  actor_user_id = none;
  actor_username = none;
  target_type = some target_type;
  target_id = some target_id;
  details = details;
  ip_address = none;
  request_id = none;
}

abbrev drift_row : ℕ → String → ℕ → DriftSource → DriftRow
drift_row host hash count source = record {
  host_id = host;
  snapshot_hash = hash;
  rule_count = count;
  source = source;
}

-- `c` for the crates, `stored` for what a time column keeps of a time, `now` for the clock.
module _ (c : Crates) (stored : ℕ → ℕ) (now : ℕ) where
  unfoldable pub expected_hash : Db → Option ℕ → String
  expected_hash db none = "empty"
  expected_hash db (some set) =
      compute_rules_hash c (map row_parts (fetch_rules_for_policy_set db set))

  unfoldable pub record_check_in : ℕ → CheckInRequest → Db → Db
  record_check_in host req db = record db {
    agent_check_ins =
        db.agent_check_ins
        ++ record {
          host_id = host;
          rules_hash = req.rules_hash;
          agent_version = req.agent_version;
          backend_type = req.backend_type;
          os_info = req.os_info;
          uptime_seconds = req.uptime_seconds;
          config_version = req.config_version;
          checked_in_at = stored now;
        }
          ∷ [];
    hosts = map (mark_healthy now host req.agent_version) db.hosts;
  }

  unfoldable pub note_mismatch : ℕ → String → String → ℕ → Db → Db
  note_mismatch host agent_hash expected count db = record db {
    drift_snapshots = db.drift_snapshots ++ drift_row host agent_hash count check_in_mismatch ∷ [];
    audit_log =
        log_event c stored now
          (system_event "drift_detected" "host" (c.uuid_string host) (
            c.json_object
              (("agent_hash", text agent_hash) ∷ ("expected_hash", text expected) ∷ [])))
          db.audit_log;
  }

  unfoldable pub note_out_of_band : ℕ → String → ℕ → Db → Db
  note_out_of_band host agent_hash count db = record db {
    drift_snapshots = db.drift_snapshots ++ drift_row host agent_hash count out_of_band ∷ [];
    audit_log =
        log_event c stored now
          (system_event "out_of_band_drift" "host" (c.uuid_string host)
            (c.json_object (("agent_hash", text agent_hash) ∷ [])))
          db.audit_log;
  }

  abbrev pub when : Bool → (Db → Db) → Db → Db
  when b f db = if b then f db else db

  -- The check-in: the response and the database after it.
  unfoldable pub check_in : ℕ → CheckInRequest → Db → CheckInResponse × Db
  unfolding record_check_in note_mismatch note_out_of_band
  check_in host req db =
      let set = assigned_set host db.host_policy_assignments in
      let rules = policy_rows db set in
      let expected = expected_hash db set in
      let changed = not (req.rules_hash == expected) in
      let due = due_actions now host db.pending_actions in
      let (input, output) = default_policies db set in
      let db1 = record_check_in host req db in
      let db2 = when changed (note_mismatch host req.rules_hash expected (length rules)) db1 in
      let db3 = when req.local_drift (note_out_of_band host req.rules_hash (length rules)) db2 in
      (
        record {
          rules_changed = changed;
          rules = map rule_to_dto rules;
          config = config_for db host req.config_version;
          pending_actions = map action_dto due;
          default_input_policy = input;
          default_output_policy = output;
        },
        record db3 { pending_actions = map (deliver now (map (λ a. a.id) due)) db.pending_actions },
      )

  -- `UPDATE pending_actions SET status = …, executed_at = NOW() WHERE id = $1`
  abbrev finish : ℕ → Bool → PendingAction → PendingAction
  finish id success a =
      if nat_eq a.id id
      then record a { status = if success then executed else failed; executed_at = some now }
      else a

  abbrev error_json : Option String → Json
  error_json none = null
  error_json (some e) = text e

  unfoldable pub finish_action : ℕ → Os.CheckInResultRequest → Option ℕ → Db → Db
  finish_action host req none db = db
  finish_action host req (some id) db = record db {
    pending_actions = map (finish id req.success) db.pending_actions;
    audit_log =
        log_event c stored now
          (system_event (if req.success then "rule_deployed" else "firewall_job_failed")
            "pending_action" (c.uuid_string id)
            (c.json_object (
              ("host_id", text (c.uuid_string host))
              ∷ ("success", flag req.success)
              ∷ ("error", error_json req.error_message)
              ∷ [])))
          db.audit_log;
  }

  -- The report of an apply or of an action.
  unfoldable pub check_in_result : ℕ → Os.CheckInResultRequest → Db → Db
  unfolding finish_action
  check_in_result host req db =
      let db1 = finish_action host req req.action_id db in
      record db1 {
        drift_snapshots =
            db1.drift_snapshots ++ drift_row host req.new_rules_hash 0 agent_report ∷ [];
      }

unfoldable pub get_policy : ℕ → Db → List RuleDto
get_policy host db = map rule_to_dto (policy_rows db (assigned_set host db.host_policy_assignments))
