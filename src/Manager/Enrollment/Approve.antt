-- ===== src/Manager/Enrollment/Approve.antt =====
-- crates/fw-web/src/routes/enrollment.rs, `approve_enrollment`: the host, its configuration, its
-- certificate, and the bundle that waits for the agent.
use linux_host_firewall_mana.Prelude.{
  ℕ, ◌+◌, ◌*◌, String, Bool, true, false, not, ◌&&◌, none, some, List, [], ◌∷◌, ◌++◌, ◌==◌, nat_eq,
  if◌then◌else◌, ok, err, unwrap_or,
}
use linux_host_firewall_mana.Prelude.Int.{ℤ, pos}
use linux_host_firewall_mana.Prelude.Lists.{any, find, keep}
use linux_host_firewall_mana.Prelude.Text.{concat, is_blank}
use linux_host_firewall_mana.Crates.{Crates, text, SerdeJson, Rcgen}
use linux_host_firewall_mana.Auth.Rbac.{AuthUser}
use linux_host_firewall_mana.Models.{HostHealthStatus}
use linux_host_firewall_mana.Ca.{
  SignedCert, CertificateAuthority, issuing_serial_hex, sign_csr, day,
}
use linux_host_firewall_mana.Manager.Tables.{
  EnrollmentRequest, ApprovedEnrollment, PkiBundle, Certificate, active,
}
use linux_host_firewall_mana.Manager.Db.{HostRow, ConfigOverride, Db}
use linux_host_firewall_mana.Manager.Handler.{
  not_found, bad_request, conflict, internal, Answer, admin_only, audit,
}
use linux_host_firewall_mana.Manager.Settings.{global_check_in_interval}

abbrev pub has_id : ℕ → EnrollmentRequest → Bool
has_id id r = nat_eq r.id id

abbrev pub collides : EnrollmentRequest → HostRow → Bool
collides r h = h.fqdn == r.fqdn && h.ip_address == r.ip_address

unfoldable pub new_host : ℕ → EnrollmentRequest → HostRow
new_host host_id r = record {
  id = host_id;
  fqdn = r.fqdn;
  ip_address = r.ip_address;
  display_name = unwrap_or r.hostname r.fqdn;
  os_name = some (unwrap_or r.os_name "unknown");
  notes = "";
  health_status = HostHealthStatus.pending;
  last_health_at = none;
  agent_version = none;
}

new_override : ℕ → ℤ → ConfigOverride
new_override host_id interval = record {
  host_id = host_id;
  check_in_interval_secs = interval;
  push_enabled = true;
  safe_mode_enabled = false;
  backend_override = none;
  config_version = pos 1;
}

-- `ON CONFLICT (host_id) DO NOTHING`
add_override : ConfigOverride → List ConfigOverride → List ConfigOverride
add_override o rows = if any (λ p. nat_eq p.host_id o.host_id) rows then rows else rows ++ o ∷ []

-- The two inserts that stand before the request's signing.
unfoldable pub insert_host : ℕ → ℤ → EnrollmentRequest → Db → Db
unfolding new_host new_override add_override
insert_host host_id interval r db = record db {
  hosts = db.hosts ++ new_host host_id r ∷ [];
  host_config_overrides = add_override (new_override host_id interval) db.host_config_overrides;
}

-- New random uuids, the clock, and the address that agents are told.
pub record Draws : Type 0 where
  pub host_id : ℕ
  pub serial : ℕ
  pub cert_id : ℕ
  pub manager_agent_url : String

module _ (c : Crates) (j : SerdeJson) (x : Rcgen) (ca : CertificateAuthority x) (stored : ℕ → ℕ)
    (now : ℕ) (auth : AuthUser) (d : Draws) where
  cert_row : SignedCert → Certificate
  cert_row signed = record {
    id = d.cert_id;
    host_id = some d.host_id;
    serial_number = signed.serial_hex;
    common_name = c.uuid_string d.host_id;
    status = active;
    issued_at = now;
    expires_at = now + 365 * day;
    revoked_at = none;
    cert_pem = signed.cert_pem;
    ca_tier = "leaf";
    issuer_serial =
        if is_blank (issuing_serial_hex x ca) then none else some (issuing_serial_hex x ca);
  }

  unfoldable pub bundle_for : ℤ → SignedCert → PkiBundle
  bundle_for interval signed = record {
    ca_chain = signed.ca_chain;
    server_cert = signed.cert_pem;
    crl_pem = signed.crl_pem;
    pull_config = some (record {
      check_in_interval_secs = interval;
      push_enabled = true;
      config_version = pos 1;
      manager_agent_url = d.manager_agent_url;
    });
  }

  -- The map's `insert` replaces an entry of the same key.
  unfoldable pub cache_bundle :
      String → PkiBundle → List ApprovedEnrollment → List ApprovedEnrollment
  cache_bundle key bundle entries =
      record { polling_token = key; pki_bundle = bundle; host_id = d.host_id; created_at = now }
      ∷ keep (λ e. not (e.polling_token == key)) entries

  -- What follows a signed certificate.
  unfoldable pub finish_enrollment : ℤ → EnrollmentRequest → SignedCert → Db → Db
  unfolding cert_row bundle_for cache_bundle audit
  finish_enrollment interval r signed db =
      audit c stored now auth "host_enrolled" "host" (c.uuid_string d.host_id)
        (("fqdn", text r.fqdn) ∷ ("ip", text r.ip_address) ∷ [])
        (record db {
          certificates = db.certificates ++ cert_row signed ∷ [];
          approved_enrollments =
              cache_bundle r.polling_token (bundle_for interval signed) db.approved_enrollments;
          enrollment_requests = keep (λ q. not (has_id r.id q)) db.enrollment_requests;
        })

  -- The request's signing, with the host already in the table.
  unfoldable pub sign_request : ℤ → EnrollmentRequest → Db → Answer (Unit {0})
  unfolding sign_csr finish_enrollment
  sign_request interval r db = elim r.csr [
    | none ↦ (err (bad_request "Enrollment request has no CSR"), db)
    | some csr ↦ elim (sign_csr x c now ca d.serial csr d.host_id) [
      | err e ↦ (err (internal (concat ("CA sign failed: " ∷ e ∷ []))), db)
      | ok signed ↦ (ok tt, finish_enrollment interval r signed db)
    ]
  ]

  unfoldable pub approve_request : EnrollmentRequest → Db → Answer (Unit {0})
  unfolding insert_host sign_request global_check_in_interval
  approve_request r db =
      let interval = global_check_in_interval j db.system_config in
      if any (collides r) db.hosts
      then (err (conflict "Host already registered"), db)
      else sign_request interval r (insert_host d.host_id interval r db)

  unfoldable pub approve_enrollment : ℕ → Db → Answer (Unit {0})
  unfolding approve_request
  approve_enrollment id db = admin_only auth db (elim (find (has_id id) db.enrollment_requests) [
    | none ↦ (err (not_found "Enrollment request not found"), db)
    | some r ↦ approve_request r db
  ])
