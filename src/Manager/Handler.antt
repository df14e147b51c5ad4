-- ===== src/Manager/Handler.antt =====
-- What the handlers of crates/fw-web/src/routes share: the errors of crates/fw-core/src/error.rs, an
-- answer with the database behind it, and the audit record of a user's action.
use linux_host_firewall_mana.Prelude.{
  ℕ, String, Bool, Option, none, some, List, Result, ok, err, if◌then◌else◌,
}
use linux_host_firewall_mana.Crates.{Crates, Json}
use linux_host_firewall_mana.Audit.{AuditEvent, log_event}
use linux_host_firewall_mana.Auth.Rbac.{AuthUser, is_admin, can_write}
use linux_host_firewall_mana.Manager.Db.{Db}

-- `AppError`; the text of a database error is left out.
pub data AppError : Type 0 where
  not_found unauthorized forbidden bad_request conflict internal : String → AppError
  database : AppError

-- A handler's answer, and the state it leaves.
abbrev pub Answer : Type 0 → Type 0
Answer A = Result A AppError × Db

-- An early return in front of the rest of a handler.
abbrev pub ensure : {A : Type 0} → Bool → AppError → Db → Answer A → Answer A
ensure test e db rest = if test then rest else (err e, db)

-- `ok_or_else` on a looked-up row.
abbrev pub found : {A : Type 0} → Option A → String → Db → Answer A
found none message db = (err (not_found message), db)
found (some a) message db = (ok a, db)

abbrev pub admin_only : {A : Type 0} → AuthUser → Db → Answer A → Answer A
admin_only auth = ensure (is_admin auth.role) (forbidden "Admin role required")

abbrev pub writers_only : {A : Type 0} → AuthUser → Db → Answer A → Answer A
writers_only auth = ensure (can_write auth.role) (forbidden "Write access required")

module _ (c : Crates) (stored : ℕ → ℕ) (now : ℕ) where
  -- `auth.ip.map(|ip| ip.to_string())`
  abbrev pub client_ip : AuthUser → Option String
  client_ip auth = elim auth.ip [ none ↦ none | some ip ↦ some (c.ip_string ip) ]

  -- `log_event` for the signed-in user; its failure is ignored.
  unfoldable pub audit : AuthUser → String → String → String → List (String × Json) → Db → Db
  audit auth action target_type target_id details db =
      let ev : AuditEvent = record {
        action = action;
        actor_user_id = some auth.user_id;
        actor_username = some auth.username;
        target_type = some target_type;
        target_id = some target_id;
        details = c.json_object details;
        ip_address = client_ip auth;
        request_id = none;
      } in
      record db { audit_log = log_event c stored now ev db.audit_log }
