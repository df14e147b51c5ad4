-- ===== src/Manager/Enrollment.antt =====
-- crates/fw-web/src/routes/enrollment.rs: one-time tokens, enrollment requests, their approval, and
-- the agent's poll for its certificate.
pub mod Approve
pub mod Laws
pub mod Flow
use linux_host_firewall_mana.Prelude.{
  ℕ, ◌+◌, ◌*◌, ◌-◌, String, Bool, true, false, not, ◌&&◌, Option, none, some, List, [], ◌∷◌, ◌++◌,
  ◌==◌, nat_eq, ltb, if◌then◌else◌, Result, ok, err, unwrap_or, is_some,
}
use linux_host_firewall_mana.Prelude.Int.{ℤ, pos, negsuc, int_lt, show}
use linux_host_firewall_mana.Prelude.Lists.{any, find, keep, update_where}
use linux_host_firewall_mana.Prelude.Text.{concat, as_bytes}
use linux_host_firewall_mana.Crates.{Crates, text, integer, SerdeJson, Rcgen}
use linux_host_firewall_mana.Audit.{AuditEvent, log_event}
use linux_host_firewall_mana.Auth.Rbac.{AuthUser}
use linux_host_firewall_mana.Models.{pending}
use linux_host_firewall_mana.Ca.{SignedCert}
use linux_host_firewall_mana.Manager.Tables.{
  EnrollmentToken, EnrollmentRequest, ApprovedEnrollment, PkiBundle, Certificate, active,
}
use linux_host_firewall_mana.Manager.Db.{HostRow, ConfigOverride, Db}
use linux_host_firewall_mana.Manager.Handler.{
  AppError, not_found, bad_request, conflict, internal, Answer, ensure, admin_only, audit,
}

pub record SubmitEnrollmentRequest : Type 0 where
  pub token : String
  pub csr : String
  pub fqdn : String
  pub ip_address : String
  pub hostname : Option String
  pub os_name : Option String

pub record CreateTokenRequest : Type 0 where
  pub host_fqdn : String
  pub host_ip : Option String
  pub ttl_hours : Option ℤ

pub data EnrollmentStatus : Type 0 where
  approved : PkiBundle → ℕ → EnrollmentStatus
  waiting : EnrollmentStatus

abbrev pub hour : ℕ
hour = 3600000000000

abbrev pub has_hash : String → EnrollmentToken → Bool
has_hash hash t = t.token_hash == hash

abbrev pub is_polled_by : String → EnrollmentRequest → Bool
is_polled_by hash r = r.polling_token == hash

-- What the checks of `submit_enrollment` say of the token's row, if they refuse it.
unfoldable pub refused : ℕ → String → Option EnrollmentToken → Option String
refused now fqdn none = some "Invalid token"
refused now fqdn (some t) =
    if is_some t.used_at
    then some "Token already used"
    else if ltb t.expires_at now
    then some "Token expired"
    else if t.host_fqdn == fqdn
    then none
    else some "FQDN does not match token"

-- `INSERT … ON CONFLICT (machine_id) DO UPDATE SET polling_token, csr, created_at`
unfoldable pub upsert_request : EnrollmentRequest → List EnrollmentRequest → List EnrollmentRequest
upsert_request r rows =
    if any (λ q. q.machine_id == r.machine_id) rows
    then update_where (λ q. q.machine_id == r.machine_id)
        (λ q. record q { polling_token = r.polling_token; csr = r.csr; created_at = r.created_at })
        rows
    else rows ++ r ∷ []

abbrev pub token_digest : Crates → String → String
token_digest c token = c.sha256_hex (as_bytes token)

module _ (c : Crates) (stored : ℕ → ℕ) (now : ℕ) where
  enrollment_row : ℕ → String → SubmitEnrollmentRequest → EnrollmentRequest
  enrollment_row id polling_token req = record {
    id = id;
    machine_id = concat (req.fqdn ∷ "-" ∷ req.ip_address ∷ []);
    fqdn = req.fqdn;
    ip_address = req.ip_address;
    hostname = req.hostname;
    os_name = req.os_name;
    polling_token = token_digest c polling_token;
    csr = some req.csr;
    created_at = now;
    expires_at = now + 24 * hour;
  }

  token_used_event : SubmitEnrollmentRequest → AuditEvent
  token_used_event req = record {
    action = "enrollment_token_used";
    actor_user_id = none;
    actor_username = none;
    target_type = some "enrollment";
    target_id = some req.fqdn;
    details = c.json_object (("fqdn", text req.fqdn) ∷ ("ip", text req.ip_address) ∷ []);
    ip_address = some req.ip_address;
    request_id = none;
  }

  -- The writes behind the checks.
  unfoldable pub accept_enrollment : ℕ → String → SubmitEnrollmentRequest → Db → Db
  unfolding upsert_request enrollment_row token_used_event
  accept_enrollment id polling_token req db = record db {
    enrollment_tokens =
        update_where (has_hash (token_digest c req.token)) (λ t. record t { used_at = some now })
          db.enrollment_tokens;
    enrollment_requests =
        upsert_request (enrollment_row id polling_token req) db.enrollment_requests;
    audit_log = log_event c stored now (token_used_event req) db.audit_log;
  }

  -- `id` is the row's new uuid, `polling_token` the new polling token.
  unfoldable pub submit_enrollment : ℕ → String → SubmitEnrollmentRequest → Db → Answer String
  unfolding refused accept_enrollment
  submit_enrollment id polling_token req db =
      let row = find (has_hash (token_digest c req.token)) db.enrollment_tokens in
      elim (refused now req.fqdn row) [
        | some message ↦ (err (bad_request message), db)
        | none ↦ (ok polling_token, accept_enrollment id polling_token req db)
      ]

  unfoldable pub poll_request : String → Db → Answer EnrollmentStatus
  poll_request hash db =
      if any (λ r. is_polled_by hash r && ltb now r.expires_at) db.enrollment_requests
      then (ok waiting, db)
      else (err (not_found "Enrollment not found or expired"), db)

  -- The cache's entry is taken out before it is answered.
  unfoldable pub poll_enrollment_status : String → Db → Answer EnrollmentStatus
  unfolding poll_request
  poll_enrollment_status token db =
      let hash = token_digest c token in
      elim (find (λ e. e.polling_token == hash) db.approved_enrollments) [
        | some e ↦ (
          ok (approved e.pki_bundle e.host_id),
          record db {
            approved_enrollments =
                keep (λ a. not (a.polling_token == hash)) db.approved_enrollments;
          },
        )
        | none ↦ poll_request hash db
      ]

  unfoldable pub deny_enrollment : AuthUser → ℕ → Db → Answer Unit
  deny_enrollment auth id db = admin_only auth db (
    ok tt,
    record db { enrollment_requests = keep (λ r. not (nat_eq r.id id)) db.enrollment_requests },
  )

  -- `NOW() + ttl * INTERVAL '1 hour'`; a time before the epoch is kept as the epoch.
  abbrev in_hours : ℤ → ℕ
  in_hours (pos n) = now + n * hour
  in_hours (negsuc n) = now - (n + 1) * hour

  -- `token` is the new random text, which is the answer.
  unfoldable pub create_token : AuthUser → String → CreateTokenRequest → Db → Answer String
  unfolding audit
  create_token auth token req db =
      let ttl = unwrap_or req.ttl_hours (pos 24) in
      let row : EnrollmentToken = record {
        token_hash = token_digest c token;
        host_fqdn = req.host_fqdn;
        host_ip = req.host_ip;
        created_by = some auth.user_id;
        expires_at = in_hours ttl;
        used_at = none;
        revoked_at = none;
      } in
      admin_only auth db (
        ok token,
        audit c stored now auth "enrollment_token_issued" "enrollment" req.host_fqdn
            (("fqdn", text req.host_fqdn) ∷ ("ttl_hours", integer ttl) ∷ [])
            (record db { enrollment_tokens = db.enrollment_tokens ++ row ∷ [] }),
      )

  unfoldable pub revoke_token : AuthUser → String → Db → Answer Unit
  unfolding audit
  revoke_token auth hash db = admin_only auth db (
    ok tt,
    audit c stored now auth "enrollment_token_revoked" "enrollment" hash [] (record db {
      enrollment_tokens =
          update_where (has_hash hash) (λ t. record t { revoked_at = some now })
            db.enrollment_tokens;
    }),
  )
