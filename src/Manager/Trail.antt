-- ===== src/Manager/Trail.antt =====
-- The audit log along a run of the manager: what the handlers of crates/fw-web/src/routes append to it
-- by `log_event`.
pub mod Enroll
pub mod Rules
pub mod Deploy
pub mod Accounts
pub mod Others
pub mod Run
use linux_host_firewall_mana.Prelude.{
  ℕ, String, ◌≡◌, refl, ◌&&◌, Bool, true, false, Option, none, some, List, [], ◌∷◌, ◌++◌, inl, inr,
  Bool-cases, if◌then◌else◌,
}
use linux_host_firewall_mana.Crates.{Crates, Json}
use linux_host_firewall_mana.Audit.{
  AuditEvent, AuditRow, is_audit_action, is_insert_typed, log_event,
}
use linux_host_firewall_mana.Auth.Rbac.{AuthUser}
use linux_host_firewall_mana.Manager.Db.{Db}
use linux_host_firewall_mana.Manager.Handler.{AppError, Answer, ensure, audit}

-- The second log is the first one with events recorded behind it.
pub data Logged (c : Crates) (stored : ℕ → ℕ) (l : List AuditRow) : List AuditRow → Type 0 where
  same : Logged c stored l l
  logs :
      (now : ℕ) (ev : AuditEvent) {m : List AuditRow}
      → Logged c stored l m
      → Logged c stored l (log_event c stored now ev m)

and_false : (b : Bool) → b && false ≡ false
and_false true = refl
and_false false = refl

module _ (c : Crates) (stored : ℕ → ℕ) where
  abbrev pub Extends : Db → Db → Type 0
  Extends db db' = Logged c stored db.audit_log db'.audit_log

  pub Logged-trans :
      {l m n : List AuditRow} → Logged c stored l m → Logged c stored m n → Logged c stored l n
  Logged-trans p same = p
  Logged-trans p (logs now ev q) = logs now ev (Logged-trans p q)

  pub if-Extends :
      {A : Type 0} (b : Bool) (db : Db) (x y : Answer A)
      → Extends db x.1
      → Extends db y.1
      → Extends db (if b then x else y).1
  if-Extends true db x y p q = p
  if-Extends false db x y p q = q

  pub ensure-Extends :
      {A : Type 0} (test : Bool) (e : AppError) (db : Db) (rest : Answer A)
      → Extends db rest.1
      → Extends db (ensure test e db rest).1
  ensure-Extends true e db rest p = p
  ensure-Extends false e db rest p = same

  pub audit-Extends :
      (now : ℕ) (auth : AuthUser) (action target_type target_id : String)
      (details : List (String × Json)) (db : Db)
      → Extends db (audit c stored now auth action target_type target_id details db)
  unfolding audit
  audit-Extends now auth action target_type target_id details db = logs now _ same

  -- Where the statement's types do not fit, recording leaves the log as it was.
  pub Logged-refused :
      {l m : List AuditRow} → is_insert_typed c ≡ false → Logged c stored l m → m ≡ l
  unfolding log_event
  Logged-refused refused same = refl
  Logged-refused refused (logs now ev {m} p) =
      rw (refused, and_false (is_audit_action ev.action)) (Logged-refused refused p)
