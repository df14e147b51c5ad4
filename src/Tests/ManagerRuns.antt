-- ===== src/Tests/ManagerRuns.antt =====
-- The manager's theorems on a concrete database.
use linux_host_firewall_mana.Prelude.Lists.{any}
use linux_host_firewall_mana.Prelude.Text.{trim}
use linux_host_firewall_mana.Auth.Rbac.{resolve_client_ip, forwarded_ip, before_comma}
use linux_host_firewall_mana.Prelude.{inr}
use linux_host_firewall_mana.Auth.Rbac.Access.{resolve_client_ip-some, IsForwarded}
use linux_host_firewall_mana.Manager.Assign.Errors.{assign_policy_set_err}
use linux_host_firewall_mana.Prelude.{
  ℕ, ◌||◌, ◌&&◌, ◌≡◌, refl, ◌↔◌, ◌⊎◌, String, Bool, true, false, Option, none, some, List, [], ◌∷◌,
  map, arith, Result, ok,
}
use linux_host_firewall_mana.Prelude.Int.{pos, show_ℕ}
use linux_host_firewall_mana.Prelude.Text.{as_bytes}
use linux_host_firewall_mana.Prelude.Lists.{All, length}
use linux_host_firewall_mana.Models.{FirewallAction, compute_rules_hash}
use linux_host_firewall_mana.Crates.{v4}
use linux_host_firewall_mana.Policy.{
  flagged_rule_ids_for_set, Joined, join_rows, rules_for_policy_set,
}
use linux_host_firewall_mana.Policy.Order.{IsOrdered, count, rules_for_policy_set-IsOrdered}
use linux_host_firewall_mana.Agent.Backend.{FirewallBackend}
use linux_host_firewall_mana.Agent.Ufw
use linux_host_firewall_mana.Agent.Ufw.{ufw_backend}
use linux_host_firewall_mana.Agent.Apply.{
  apply_rules_from_dto, acquire_apply_lock, apply_rules, compile_and_apply, has_umbilical, settle,
  under_lock, manager_endpoint,
}
use linux_host_firewall_mana.Agent.SafeMode.{record_manager_contact, save_last_good}
use linux_host_firewall_mana.Agent.Protected.{
  check_rules_against_protected, violations, blocks_protected, exposes_protected, is_broad_src,
  overlaps_protected, find_overlap, nets_overlap,
}
use linux_host_firewall_mana.Models.{part_bytes}
use linux_host_firewall_mana.Prelude.Int.{to_le_bytes}
use linux_host_firewall_mana.Manager.CheckIn.{fetch_rules_for_policy_set, policy_rows, config_for}
use linux_host_firewall_mana.Agent.Cycle
use linux_host_firewall_mana.Manager.CheckIn.{decode_request}
use linux_host_firewall_mana.Manager.CheckIn.Cycle.{agent_after, after_check_in-converges}
use linux_host_firewall_mana.Policy.Flagged.{IsBroadAllow, OfSet, flagged_rule_ids_for_set-nil_iff}
use linux_host_firewall_mana.Audit.{
  AuditEvent, AuditRow, IntegrityResult, verify_integrity, mismatched, chain_hash,
}
use linux_host_firewall_mana.Audit.Chain.{verify_integrity-prefix}
use linux_host_firewall_mana.Auth.Rbac.{
  AccessClaims, AuthUser, RefreshTokenRow, Request, AuthConfig, admin, operator, is_admin,
  is_break_glass, can_write, can_access_host, require_auth,
}
use linux_host_firewall_mana.Auth.Rbac.Access.{
  HasToken, IsAdmitted, require_auth_ok, shares_group, can_access_host_lem,
}
use linux_host_firewall_mana.Agent.Os.{CheckInResultRequest}
use linux_host_firewall_mana.Agent.Wire.{dto_to_rule}
use linux_host_firewall_mana.Agent.State.{Disk}
use linux_host_firewall_mana.Agent.Cycle.{reported_rules_hash}
use linux_host_firewall_mana.Manager.Db.{Db, assigned_set, queued}
use linux_host_firewall_mana.Manager.CheckIn.{
  CheckInRequest, CheckInResponse, check_in, check_in_result, expected_hash, text_row, rule_to_dto,
}
use linux_host_firewall_mana.Manager.CheckIn.Converge.{check_in-converges, dto_to_rule-text_row}
use linux_host_firewall_mana.Manager.CheckIn.Delivery.{check_in-delivers_once}
use linux_host_firewall_mana.Manager.CheckIn.Reports.{IsSettled, check_in_result-settles}
use linux_host_firewall_mana.Manager.Assign.{
  AppError, AssignRequest, AssignResponse, assign_host, assign_hosts, assign_policy_set,
  unassign_policy_set, resolve_host_ids,
}
use linux_host_firewall_mana.Manager.Assign.Gate.{IsAssigned, assign_policy_set_ok}
use linux_host_firewall_mana.Manager.Assign.Unassign.{IsFree, unassign_policy_set_ok}
use linux_host_firewall_mana.Tests.{crates, calm, agent, rule}

-- Host 3 has policy set 8 with one rule and one queued action; host 4 has none.
abbrev pub db : Db
db = record {
  hosts = [];
  agent_check_ins = [];
  host_policy_assignments = record { host_id = 3; policy_set_id = 8; assigned_by = none } ∷ [];
  policy_sets = [];
  set_rule_groups = record { policy_set_id = 8; rule_group_id = 2; set_group_order = pos 0 } ∷ [];
  firewall_rules =
      record {
        rule = rule 5 FirewallAction.allow (some "192.168.0.0/16");
        rule_group_id = 2;
        group_order = pos 0;
      }
      ∷ [];
  drift_snapshots = [];
  host_config_overrides = [];
  pending_actions =
      record {
        id = 6;
        host_id = 3;
        action_type = "rollback";
        payload = "{}";
        reason = "";
        priority = pos 1;
        status = queued;
        created_at = 1;
        expires_at = 1000;
        delivered_at = none;
        executed_at = none;
      }
      ∷ [];
  audit_log = [];
  operator_host_groups = [];
  host_groups = record { host_id = 4; group_id = 1 } ∷ [];
  users = [];
  refresh_tokens = [];
  rule_groups = [];
  rule_policy_decisions = [];
  groups = [];
  enrollment_tokens = [];
  enrollment_requests = [];
  approved_enrollments = [];
  certificates = [];
  crl_counter = [];
  host_protected_cidrs = [];
  system_config = [];
}

abbrev pub request : String → Bool → CheckInRequest
request hash drift = record {
  rules_hash = hash;
  agent_version = "1.0.0";
  backend_type = "ufw";
  os_info = record { hostname = "host"; os = "linux"; arch = "x86_64"; container_runtime = none };
  uptime_seconds = pos 5;
  config_version = pos 1;
  local_drift = drift;
}

abbrev pub stored : ℕ → ℕ
stored t = t

abbrev answer : CheckInResponse × Db
answer = check_in crates stored 10 3 (request "" false) db

abbrev disk : Disk
disk = record agent.disk { last_good = some (map (dto_to_rule 11) answer.0.rules) }

abbrev second : CheckInRequest
second = request (reported_rules_hash crates disk) false

check_in-converges_example : (check_in crates stored 20 3 second answer.1).0.rules_changed ≡ false
unfolding assigned_set
check_in-converges_example =
    check_in-converges crates stored 10 20 11 3 8 (request "" false) second db disk refl refl refl

check_in-delivers_once_example :
    (check_in crates stored 20 3 second answer.1).0.pending_actions ≡ []
check_in-delivers_once_example =
    check_in-delivers_once crates stored 10 20 3 (request "" false) second db (omega arith)

-- A report on action 6 of host 3, sent by host 4.
abbrev foreign_report : CheckInResultRequest
foreign_report = record {
  host_id = 4;
  action_id = some 6;
  success = true;
  error_message = none;
  new_rules_hash = "";
}

check_in_result-settles_example :
    IsSettled 6 true (check_in_result crates stored 10 4 foreign_report db).pending_actions
check_in_result-settles_example =
    check_in_result-settles crates stored 10 4 6 foreign_report db refl

abbrev pub boss : AuthUser
boss = record {
  user_id = 1;
  username = "boss";
  role = admin;
  claims = record { sub = "1"; username = "boss"; role = "admin"; jti = "j" };
  ip = none;
}

abbrev wish : AssignRequest
wish = record { policy_set_id = 8; host_ids = 4 ∷ 3 ∷ []; group_ids = 1 ∷ [] }

abbrev assigned : AssignResponse
assigned = record { policy_set_id = 8; assigned_count = 1; host_ids = 3 ∷ 4 ∷ [] }

abbrev assigned_db : Db
assigned_db = (assign_policy_set crates stored 10 none boss wish db).1

assign_policy_set_ok_example :
    (can_write admin ≡ true)
    × ((is_admin admin ≡ true)
        ⊎ OfSet (λ rule. ¬ IsBroadAllow rule) 8 db.set_rule_groups db.firewall_rules)
    × (assigned.host_ids ≡ resolve_host_ids db wish.host_ids wish.group_ids)
    × (All
          (λ h. can_access_host db.operator_host_groups db.host_groups boss h ≡ true)
          assigned.host_ids
        × All (IsAssigned 8 assigned_db) assigned.host_ids)
unfolding assign_policy_set assign_hosts resolve_host_ids can_access_host assign_host
assign_policy_set_ok_example = assign_policy_set_ok crates stored 10 none boss wish db assigned refl

abbrev pub clerk : AuthUser
clerk = record boss { role = operator }

abbrev freed : Result ℕ AppError × Db
freed = unassign_policy_set crates stored 10 none clerk wish db

unassign_policy_set_ok_example :
    (freed.0 ≡ ok (length (resolve_host_ids db wish.host_ids wish.group_ids)))
    × All
        (IsFree crates stored 10 none clerk 8 freed.1)
        (resolve_host_ids db wish.host_ids wish.group_ids)
unassign_policy_set_ok_example = unassign_policy_set_ok crates stored 10 none clerk wish db refl

abbrev login : AuditEvent
login = record {
  action = "user_login";
  actor_user_id = none;
  actor_username = none;
  target_type = none;
  target_id = none;
  details = "{}";
  ip_address = none;
  request_id = none;
}

abbrev logged : String → ℕ → AuditRow
logged prev now = record {
  id = now;
  event = login;
  created_at = now;
  row_hash = chain_hash crates prev login now;
  prev_hash = prev;
}

abbrev first_row : AuditRow
first_row = logged "" 10

abbrev second_row : AuditRow
second_row = logged first_row.row_hash 11

verify_integrity-prefix_example :
    (r : IntegrityResult crates) × (verify_integrity crates (first_row ∷ []) ≡ ok r)
    × (r.verified ≡ true)
unfolding verify_integrity mismatched chain_hash show_ℕ as_bytes
verify_integrity-prefix_example =
    verify_integrity-prefix crates (first_row ∷ []) (second_row ∷ [])
      (record { verified = true; mismatched_rows = []; total_rows = 2 }) refl refl

abbrev parse_uuid : String → Option ℕ
parse_uuid s = some 1

abbrev validate : String → Option AccessClaims
validate token = some boss.claims

abbrev refresh_row : RefreshTokenRow
refresh_row = record { user_id = 1; token_hash = "h"; expires_at = 99; jti = "j"; revoked = false }

abbrev auth_config : AuthConfig crates
auth_config = record {
  ip_whitelist = (v4 167772160, 24) ∷ [];
  trusted_proxies = [];
  db = some (refresh_row ∷ []);
}

abbrev call : Request
call = record {
  authorization = some "Bearer x";
  x_forwarded_for = none;
  peer = some (v4 167772161);
}

require_auth_ok_example :
    HasToken crates parse_uuid validate auth_config call (record boss { ip = some (v4 167772161) })
    × IsAdmitted crates parse_uuid validate auth_config call
unfolding require_auth
require_auth_ok_example = require_auth_ok crates parse_uuid validate auth_config call _ refl

can_access_host_lem_example :
    can_access_host (record { user_id = 1; group_id = 1 } ∷ []) db.host_groups clerk 4
    ≡ is_admin operator
      || is_break_glass operator
      || (can_write operator
          && shares_group (record { user_id = 1; group_id = 1 } ∷ []) db.host_groups 1 4)
can_access_host_lem_example =
    can_access_host_lem (record { user_id = 1; group_id = 1 } ∷ []) db.host_groups clerk 4

flagged_rule_ids_for_set-nil_iff_example :
    (flagged_rule_ids_for_set db.set_rule_groups db.firewall_rules 8 ≡ [])
    ↔ OfSet (λ r. ¬ IsBroadAllow r) 8 db.set_rule_groups db.firewall_rules
flagged_rule_ids_for_set-nil_iff_example =
    flagged_rule_ids_for_set-nil_iff db.set_rule_groups db.firewall_rules 8

dto_to_rule-text_row_example :
    dto_to_rule 9 (rule_to_dto (text_row (rule 5 FirewallAction.deny none)))
    ≡ record (rule 5 FirewallAction.deny none) { comment = "ssh"; created_at = 9; updated_at = 9 }
dto_to_rule-text_row_example = dto_to_rule-text_row 9 (rule 5 FirewallAction.deny none)

-- UFW on the calm host, with an apply that is done at once.
abbrev backend : FirewallBackend
backend = record (ufw_backend crates calm) {
  apply = λ compiled h.
      (ok (record { applied = 1; failed = 0; snapshot_hash = "abc"; error = none }), h);
}

after_check_in-converges_example :
    (check_in crates stored 20 3
      (decode_request (
        Cycle.request crates calm backend 3 true
          (request "" false).os_info
          (agent_after crates stored 10 calm backend 3 8 (request "" false) db agent "live" false)))
      answer.1).0.rules_changed
    ≡ false
unfolding assigned_set check_in expected_hash compute_rules_hash show_ℕ fetch_rules_for_policy_set
    rules_for_policy_set part_bytes as_bytes to_le_bytes policy_rows apply_rules_from_dto
    check_rules_against_protected Cycle.update_config config_for record_manager_contact violations
    blocks_protected acquire_apply_lock apply_rules compile_and_apply has_umbilical settle
    under_lock exposes_protected is_broad_src manager_endpoint dto_to_rule Ufw.compile
    overlaps_protected find_overlap nets_overlap save_last_good
after_check_in-converges_example =
    after_check_in-converges crates stored 10 calm backend 3 8 (request "" false) db agent 20 "live"
      false true (request "" false).os_info "abc" refl refl refl refl (λ h. refl)

rules_for_policy_set-IsOrdered_example :
    (rows : List Joined) × IsOrdered rows
    × (rules_for_policy_set db.set_rule_groups db.firewall_rules 8 ≡ map (λ j. j.rule) rows)
    × ((p : Joined → Bool)
        → count p rows ≡ count p (join_rows 8 db.set_rule_groups db.firewall_rules))
rules_for_policy_set-IsOrdered_example =
    rules_for_policy_set-IsOrdered db.set_rule_groups db.firewall_rules 8

resolve_client_ip-some_example :
    (v4 167772161 ≡ v4 167772162)
    ⊎ ((any (λ net. crates.contains_ip net (v4 167772162)) ((v4 167772160, 24) ∷ []) ≡ true)
        × IsForwarded crates (some "10.0.0.1") (v4 167772161))
unfolding resolve_client_ip forwarded_ip trim before_comma
resolve_client_ip-some_example =
    resolve_client_ip-some crates (some "10.0.0.1") (v4 167772162) (v4 167772161)
      ((v4 167772160, 24) ∷ []) refl

abbrev nobody : AssignRequest
nobody = record { policy_set_id = 8; host_ids = []; group_ids = [] }

assign_policy_set_err_example : (assign_policy_set crates stored 10 none boss nobody db).1 ≡ db
unfolding assign_policy_set resolve_host_ids
assign_policy_set_err_example =
    assign_policy_set_err crates stored 10 none boss nobody db "No hosts selected" (inr refl)
