-- ===== src/Manager/Trail/Enroll.antt =====
-- The handlers of crates/fw-web/src/routes/enrollment.rs write the audit log only by `log_event`.
use linux_host_firewall_mana.Prelude.{
  ℕ, String, inl, inr, Option-cases, Result-cases, ◌==◌, ◌&&◌, ltb,
}
use linux_host_firewall_mana.Prelude.Int.{ℤ}
use linux_host_firewall_mana.Prelude.Lists.{any, find}
use linux_host_firewall_mana.Crates.{Crates, SerdeJson, Rcgen}
use linux_host_firewall_mana.Auth.Rbac.{AuthUser, is_admin}
use linux_host_firewall_mana.Ca.{CertificateAuthority, sign_csr}
use linux_host_firewall_mana.Manager.Db.{Db}
use linux_host_firewall_mana.Manager.Tables.{EnrollmentRequest}
use linux_host_firewall_mana.Manager.Handler.{audit}
use linux_host_firewall_mana.Manager.Settings.{global_check_in_interval}
use linux_host_firewall_mana.Manager.Enrollment.{
  SubmitEnrollmentRequest, CreateTokenRequest, refused, has_hash, token_digest, submit_enrollment,
  accept_enrollment, poll_enrollment_status, poll_request, is_polled_by, deny_enrollment,
  create_token, revoke_token,
}
use linux_host_firewall_mana.Manager.Enrollment.Approve.{
  Draws, has_id, collides, approve_enrollment, approve_request, sign_request, insert_host,
  finish_enrollment,
}
use linux_host_firewall_mana.Manager.Trail.{same, logs, Extends, if-Extends, ensure-Extends}

module _ (c : Crates) (stored : ℕ → ℕ) (now : ℕ) where
  pub submit_enrollment-Extends :
      (id : ℕ) (polling_token : String) (req : SubmitEnrollmentRequest) (db : Db)
      → Extends c stored db (submit_enrollment c stored now id polling_token req db).1
  unfolding submit_enrollment accept_enrollment
  submit_enrollment-Extends id polling_token req db =
      let row = find (has_hash (token_digest c req.token)) db.enrollment_tokens in
      elim (Option-cases (refused now req.fqdn row)) [
        | inl fine ↦ rw (fine, submit_enrollment) (logs now _ same)
        | inr (message, bad) ↦ rw (bad, submit_enrollment) same
      ]

  pub poll_enrollment_status-Extends :
      (token : String) (db : Db)
      → Extends c stored db (poll_enrollment_status c stored now token db).1
  unfolding poll_enrollment_status poll_request
  poll_enrollment_status-Extends token db =
      let hash = token_digest c token in
      elim (Option-cases (find (λ e. e.polling_token == hash) db.approved_enrollments)) [
        | inr (e, hit) ↦ rw (hit, poll_enrollment_status) same
        | inl miss ↦
            rw (miss, poll_enrollment_status)
              (if-Extends c stored
                (any (λ r. is_polled_by hash r && ltb now r.expires_at) db.enrollment_requests) db _
                _ same same)
      ]

  pub deny_enrollment-Extends :
      (auth : AuthUser) (id : ℕ) (db : Db)
      → Extends c stored db (deny_enrollment c stored now auth id db).1
  unfolding deny_enrollment
  deny_enrollment-Extends auth id db = ensure-Extends c stored (is_admin auth.role) _ db _ same

  pub create_token-Extends :
      (auth : AuthUser) (token : String) (req : CreateTokenRequest) (db : Db)
      → Extends c stored db (create_token c stored now auth token req db).1
  unfolding create_token audit
  create_token-Extends auth token req db =
      ensure-Extends c stored (is_admin auth.role) _ db _ (logs now _ same)

  pub revoke_token-Extends :
      (auth : AuthUser) (hash : String) (db : Db)
      → Extends c stored db (revoke_token c stored now auth hash db).1
  unfolding revoke_token audit
  revoke_token-Extends auth hash db =
      ensure-Extends c stored (is_admin auth.role) _ db _ (logs now _ same)

  module _ (j : SerdeJson) (x : Rcgen) (ca : CertificateAuthority x) (auth : AuthUser)
      (d : Draws) where
    sign_request-Extends :
        (interval : ℤ) (r : EnrollmentRequest) (db : Db)
        → Extends c stored db (sign_request c j x ca stored now auth d interval r db).1
    unfolding sign_request finish_enrollment audit
    sign_request-Extends interval r db = elim (Option-cases r.csr) [
      | inl missing ↦ rw (missing, sign_request) same
      | inr (csr, given) ↦ elim (Result-cases (sign_csr x c now ca d.serial csr d.host_id)) [
        | inl (e, bad) ↦ rw (given, bad, sign_request) same
        | inr (signed, good) ↦ rw (given, good, sign_request) (logs now _ same)
      ]
    ]

    approve_request-Extends :
        (r : EnrollmentRequest) (db : Db)
        → Extends c stored db (approve_request c j x ca stored now auth d r db).1
    unfolding approve_request insert_host
    approve_request-Extends r db = if-Extends c stored (any (collides r) db.hosts) db _ _ same (
        sign_request-Extends (global_check_in_interval j db.system_config) r
          (insert_host d.host_id (global_check_in_interval j db.system_config) r db))

    pub approve_enrollment-Extends :
        (id : ℕ) (db : Db)
        → Extends c stored db (approve_enrollment c j x ca stored now auth d id db).1
    unfolding approve_enrollment
    approve_enrollment-Extends id db =
        ensure-Extends c stored (is_admin auth.role) _ db _
          (elim (Option-cases (find (has_id id) db.enrollment_requests)) [
            | inl missing ↦ rw missing same
            | inr (r, there) ↦ rw there (approve_request-Extends r db)
          ])
