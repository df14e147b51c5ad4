-- ===== src/Manager/Db.antt =====
-- The tables of the manager that the modelled handlers read and write, and the queries they share.
-- A query fails only by a constraint that the handler's definition tests.
use linux_host_firewall_mana.Prelude.{
  ℕ, String, Bool, Option, none, some, List, [], ◌∷◌, nat_eq, if◌then◌else◌,
}
use linux_host_firewall_mana.Prelude.Int.{ℤ}
use linux_host_firewall_mana.Models.{FirewallDefaultPolicy, HostHealthStatus}
use linux_host_firewall_mana.Policy.{SetGroupRow, RuleRow}
use linux_host_firewall_mana.Audit.{AuditRow}
use linux_host_firewall_mana.Agent.Wire.{OsInfo}
use linux_host_firewall_mana.Auth.Rbac.{OperatorGroup, HostGroup, RefreshTokenRow}
use linux_host_firewall_mana.Manager.Tables.{
  UserRow, RuleGroupRow, RulePolicyDecision, GroupRow, EnrollmentToken, EnrollmentRequest,
  ApprovedEnrollment, Certificate, CrlCounter, ProtectedCidr, ConfigRow,
}

pub record HostRow : Type 0 where
  pub id : ℕ
  pub fqdn : String
  pub ip_address : String
  pub display_name : String
  pub os_name : Option String
  pub notes : String
  pub health_status : HostHealthStatus
  pub last_health_at : Option ℕ
  pub agent_version : Option String

pub record CheckInRow : Type 0 where
  pub host_id : ℕ
  pub rules_hash : String
  pub agent_version : String
  pub backend_type : String
  pub os_info : OsInfo
  pub uptime_seconds : ℤ
  pub config_version : ℤ
  pub checked_in_at : ℕ

pub record Assignment : Type 0 where
  pub host_id : ℕ
  pub policy_set_id : ℕ
  pub assigned_by : Option ℕ

pub record PolicySetRow : Type 0 where
  pub id : ℕ
  pub name : String
  pub description : String
  pub created_by : Option ℕ
  pub default_input_policy : Option FirewallDefaultPolicy
  pub default_output_policy : Option FirewallDefaultPolicy

pub data DriftSource : Type 0 where
  check_in_mismatch out_of_band agent_report : DriftSource

pub record DriftRow : Type 0 where
  pub host_id : ℕ
  pub snapshot_hash : String
  pub rule_count : ℕ
  pub source : DriftSource

pub record ConfigOverride : Type 0 where
  pub host_id : ℕ
  pub check_in_interval_secs : ℤ
  pub push_enabled : Bool
  pub safe_mode_enabled : Bool
  pub backend_override : Option String
  pub config_version : ℤ

pub data PendingActionStatus : Type 0 where
  queued pushing delivered executed failed expired : PendingActionStatus

pub record PendingAction : Type 0 where
  pub id : ℕ
  pub host_id : ℕ
  pub action_type : String
  pub payload : String
  pub reason : String
  pub priority : ℤ
  pub status : PendingActionStatus
  pub created_at : ℕ
  pub expires_at : ℕ
  pub delivered_at : Option ℕ
  pub executed_at : Option ℕ

pub record Db : Type 0 where
  pub hosts : List HostRow
  pub agent_check_ins : List CheckInRow
  pub host_policy_assignments : List Assignment
  pub policy_sets : List PolicySetRow
  pub set_rule_groups : List SetGroupRow
  pub firewall_rules : List RuleRow
  pub drift_snapshots : List DriftRow
  pub host_config_overrides : List ConfigOverride
  pub pending_actions : List PendingAction
  pub audit_log : List AuditRow
  pub operator_host_groups : List OperatorGroup
  pub host_groups : List HostGroup
  pub users : List UserRow
  pub refresh_tokens : List RefreshTokenRow
  pub rule_groups : List RuleGroupRow
  pub rule_policy_decisions : List RulePolicyDecision
  pub groups : List GroupRow
  pub enrollment_tokens : List EnrollmentToken
  pub enrollment_requests : List EnrollmentRequest
  pub approved_enrollments : List ApprovedEnrollment
  pub certificates : List Certificate
  pub crl_counter : List CrlCounter
  pub host_protected_cidrs : List ProtectedCidr
  pub system_config : List ConfigRow

-- `SELECT policy_set_id … WHERE host_id = $1`, the first row.
unfoldable pub assigned_set : ℕ → List Assignment → Option ℕ
assigned_set host [] = none
assigned_set host (a ∷ rows) =
    let next = assigned_set host rows in
    if nat_eq a.host_id host then some a.policy_set_id else next
