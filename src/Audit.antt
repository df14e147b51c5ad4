-- ===== src/Audit.antt =====
-- crates/fw-core/src/audit.rs: the hash-chained audit log and its verification.
pub mod Anchor
pub mod Chain
use linux_host_firewall_mana.Prelude.{
  ℕ, suc, ◌+◌, String, Bool, true, false, Option, none, some, List, [], ◌∷◌, ◌++◌, ◌==◌, ◌&&◌,
  if◌then◌else◌, is_some, Result, ok, err,
}
use linux_host_firewall_mana.Prelude.Lists.{length, is_empty, any}
use linux_host_firewall_mana.Prelude.Text.{as_bytes}
use linux_host_firewall_mana.Crates.{Crates, SqlType, text_type, jsonb_type, inet_type}

-- The labels of the `audit_action` type; the insert of any other label fails.
abbrev audit_actions : List String
audit_actions =
    "user_login" ∷ "user_logout" ∷ "user_login_failed" ∷ "user_created" ∷ "user_deleted"
    ∷ "user_updated" ∷ "host_registered" ∷ "host_removed" ∷ "group_created" ∷ "group_deleted"
    ∷ "group_membership_changed" ∷ "firewall_job_created" ∷ "firewall_job_cancelled"
    ∷ "firewall_job_rollback" ∷ "maintenance_window_created" ∷ "maintenance_window_updated"
    ∷ "maintenance_window_deleted" ∷ "certificate_issued" ∷ "certificate_renewed"
    ∷ "certificate_revoked" ∷ "certificate_downloaded" ∷ "config_changed" ∷ "discovery_scan_started"
    ∷ "audit_integrity_verified" ∷ "email_notification_sent" ∷ "firewall_job_completed"
    ∷ "firewall_job_failed" ∷ "maintenance_window_reminder" ∷ "rule_created" ∷ "rule_updated"
    ∷ "rule_deleted" ∷ "policy_set_created" ∷ "policy_set_changed" ∷ "policy_assigned"
    ∷ "policy_unassigned" ∷ "rule_deployed" ∷ "rule_rollback" ∷ "drift_detected" ∷ "backend_changed"
    ∷ "break_glass_used" ∷ "enrollment_token_issued" ∷ "enrollment_token_used"
    ∷ "enrollment_token_revoked" ∷ "host_enrolled" ∷ "ca_intermediate_issued"
    ∷ "ca_intermediate_revoked" ∷ "audit_anchor_mismatch" ∷ "policy_force_checkin" ∷ []

unfoldable pub is_audit_action : String → Bool
is_audit_action action = any (λ label. label == action) audit_actions

-- The arguments of `log_event`; the details are the JSON text.
pub record AuditEvent : Type 0 where
  pub action : String
  pub actor_user_id : Option ℕ
  pub actor_username : Option String
  pub target_type : Option String
  pub target_id : Option String
  pub details : String
  pub ip_address : Option String
  pub request_id : Option String

pub record AuditRow : Type 0 where
  pub id : ℕ
  pub event : AuditEvent
  pub open event use *
  pub created_at : ℕ
  pub row_hash : String
  pub prev_hash : String

-- An INET value that is not NULL does not decode as a string.
abbrev pub is_undecodable : AuditRow → Bool
is_undecodable row = is_some row.event.ip_address

abbrev opt_bytes : Option String → List ℕ
opt_bytes none = []
opt_bytes (some s) = as_bytes s

module _ (c : Crates) where
  abbrev uid_bytes : Option ℕ → List ℕ
  uid_bytes none = []
  uid_bytes (some uid) = as_bytes (c.uuid_string uid)

  -- What the hasher reads for a row behind the hash `prev`.
  unfoldable pub chain_input : String → AuditEvent → ℕ → List ℕ
  chain_input prev ev at =
      as_bytes prev
      ++ (as_bytes ev.action
          ++ (uid_bytes ev.actor_user_id
              ++ (opt_bytes ev.actor_username
                  ++ (opt_bytes ev.target_type
                      ++ (opt_bytes ev.target_id
                          ++ (as_bytes ev.details
                              ++ (opt_bytes ev.ip_address
                                  ++ (opt_bytes ev.request_id ++ as_bytes (c.rfc3339 at)))))))))

  unfoldable pub chain_hash : String → AuditEvent → ℕ → String
  unfolding chain_input
  chain_hash prev ev at = c.sha256_hex (chain_input prev ev at)

  -- The newest row's hash, or the empty text.
  unfoldable pub head_hash : String → List AuditRow → String
  head_hash prev [] = prev
  head_hash prev (row ∷ rows) = head_hash row.row_hash rows

  -- The statement's types: the details are bound as text to a JSONB column, the address as text to an
  -- INET column, whatever they hold.
  unfoldable pub is_insert_typed : Bool
  is_insert_typed =
      c.postgres.is_assignable text_type jsonb_type && c.postgres.is_assignable text_type inet_type

  -- The log is kept oldest first. The hash reads the clock's `now`; the row keeps what the database
  -- column stores of it. The error of a refused insert is dropped.
  unfoldable pub log_event : (ℕ → ℕ) → ℕ → AuditEvent → List AuditRow → List AuditRow
  unfolding head_hash chain_hash is_audit_action is_insert_typed
  log_event stored now ev log =
      let prev = head_hash "" log in
      let row : AuditRow = record {
        id = c.postgres.nextval now;
        event = ev;
        created_at = stored now;
        row_hash = chain_hash prev ev now;
        prev_hash = prev;
      } in
      if is_audit_action ev.action && is_insert_typed then log ++ row ∷ [] else log

  unfoldable pub mismatched : String → List AuditRow → List ℕ
  mismatched prev [] = []
  mismatched prev (row ∷ rows) =
      let rest = mismatched row.row_hash rows in
      if chain_hash prev row.event row.created_at == row.row_hash then rest else row.id ∷ rest

  pub record IntegrityResult : Type 0 where
    pub verified : Bool
    pub mismatched_rows : List ℕ
    pub total_rows : ℕ

  abbrev pub integrity_of : List AuditRow → IntegrityResult
  integrity_of rows =
      let found = mismatched "" rows in
      record { verified = is_empty found; mismatched_rows = found; total_rows = length rows }

  unfoldable pub verify_integrity : List AuditRow → Result IntegrityResult String
  verify_integrity rows =
      if any is_undecodable rows
      then err "column ip_address does not decode"
      else ok (integrity_of rows)
