-- ===== src/Tests/RouteRuns.antt =====
-- The theorems on enrollment, hosts, rule groups and the audit trail at concrete requests.
use linux_host_firewall_mana.Prelude.{
  ℕ, ◌≡◌, refl, String, true, false, Option, none, some, [], ◌∷◌, ◌==◌, if◌then◌else◌, Result, ok,
  err,
}
use linux_host_firewall_mana.Prelude.Lists.{length}
use linux_host_firewall_mana.Prelude.Int.{pos, show_ℕ}
use linux_host_firewall_mana.Prelude.Text.{as_bytes, concat, join}
use linux_host_firewall_mana.Crates.{SerdeJson, Rcgen, Argon2}
use linux_host_firewall_mana.Audit.Anchor.{anchor_chain}
use linux_host_firewall_mana.Auth.Password.{CharClasses}
use linux_host_firewall_mana.Ca.{CertificateAuthority, SignedCert, sign_csr}
use linux_host_firewall_mana.Manager.Db.{Db}
use linux_host_firewall_mana.Manager.Tables.{EnrollmentToken, EnrollmentRequest}
use linux_host_firewall_mana.Manager.Handler.{bad_request, conflict, not_found}
use linux_host_firewall_mana.Manager.CheckIn.{check_in}
use linux_host_firewall_mana.Manager.Enrollment.{
  SubmitEnrollmentRequest, approved, refused, token_digest, submit_enrollment, revoke_token,
  poll_enrollment_status,
}
use linux_host_firewall_mana.Manager.Enrollment.Approve.{Draws, approve_enrollment, bundle_for}
use linux_host_firewall_mana.Manager.Enrollment.Laws.{
  submit_enrollment-single_use, submit_enrollment-revoked,
}
use linux_host_firewall_mana.Manager.Enrollment.Flow.{
  approve_enrollment-delivers, approve_enrollment-stuck,
}
use linux_host_firewall_mana.Manager.Settings.{NetText, global_check_in_interval}
use linux_host_firewall_mana.Manager.Trail.Run
use linux_host_firewall_mana.Manager.Trail.Run.{Run-unrecorded}
use linux_host_firewall_mana.Auth.Rbac.{AuthUser}
use linux_host_firewall_mana.Tests.{crates, postgres_laws}
use linux_host_firewall_mana.Tests.ManagerRuns.{db, boss, stored, request}

abbrev pub json : SerdeJson
json = record {
  Value = String;
  to_string = λ v. v;
  from_str = λ s. some s;
  get_i64 = λ key v. some (pos 60);
  get_str = λ key v. some v;
  of_strings = λ l. join "," l;
  of_string = λ s. s;
}

abbrev pub argon : Argon2
argon = record {
  hash_with = λ salt p. ok (concat (salt ∷ p ∷ []));
  verify = λ p hash. ok (p == hash);
}

abbrev classes : CharClasses
classes = record {
  is_uppercase = λ ch. true;
  is_lowercase = λ ch. true;
  is_alphanumeric = λ ch. false;
}

abbrev pub rcgen : Rcgen
rcgen = record {
  Issuer = String;
  Csr = String;
  parse_csr = λ pem. if pem == "" then err "no request" else ok pem;
  sign_cert = λ csr p issuer. ok (concat (issuer ∷ csr ∷ []));
  sign_crl = λ p issuer. ok issuer;
  hex_decode = λ s. some (7 ∷ []);
  hex_encode = λ bytes. "07";
}

abbrev pub authority : CertificateAuthority rcgen
authority = record { root = "root"; root_cert_pem = "pem"; issuing = none }

abbrev pub issue : ℕ → String → String → String → Result String String
issue id role name jti = ok jti

abbrev draws : Draws
draws = record { host_id = 9; serial = 5; cert_id = 6; manager_agent_url = "https://m:8443" }

abbrev token : EnrollmentToken
token = record {
  token_hash = token_digest crates "t";
  host_fqdn = "web";
  host_ip = none;
  created_by = none;
  expires_at = 50;
  used_at = none;
  revoked_at = none;
}

abbrev form : SubmitEnrollmentRequest
form = record {
  token = "t";
  csr = "csr";
  fqdn = "web";
  ip_address = "10.0.0.1";
  hostname = none;
  os_name = none;
}

abbrev with_token : Db
with_token = record db { enrollment_tokens = token ∷ [] }

submit_enrollment-single_use_example :
    submit_enrollment crates stored 9 2 "q" form
      (submit_enrollment crates stored 5 1 "p" form with_token).1
    ≡ (
      err (bad_request "Token already used"),
      (submit_enrollment crates stored 5 1 "p" form with_token).1,
    )
unfolding submit_enrollment refused as_bytes show_ℕ
submit_enrollment-single_use_example =
    submit_enrollment-single_use crates stored 5 9 1 2 "p" "q" "p" form form with_token refl refl

submit_enrollment-revoked_example :
    (submit_enrollment crates stored 5 1 "p" form
      (revoke_token crates stored 3 boss (token_digest crates "t") with_token).1).0
    ≡ (submit_enrollment crates stored 5 1 "p" form with_token).0
submit_enrollment-revoked_example =
    submit_enrollment-revoked crates stored 3 5 1 "p" boss form with_token

abbrev waiting_request : Option String → EnrollmentRequest
waiting_request csr = record {
  id = 1;
  machine_id = "web-10.0.0.1";
  fqdn = "web";
  ip_address = "10.0.0.1";
  hostname = none;
  os_name = none;
  polling_token = token_digest crates "p";
  csr = csr;
  created_at = 5;
  expires_at = 90;
}

abbrev requested : Option String → Db
requested csr = record db { enrollment_requests = waiting_request csr ∷ [] }

abbrev signed : SignedCert
signed = record { cert_pem = "rootcsr"; serial_hex = "07"; ca_chain = "pem" ∷ []; crl_pem = none }

abbrev approved_db : Db
approved_db =
    (approve_enrollment crates json rcgen authority stored 10 boss draws 1
      (requested (some "csr"))).1

approve_enrollment-delivers_example :
    ((poll_enrollment_status crates stored 11 "p" approved_db).0
      ≡ ok (
          approved
            (bundle_for crates json rcgen authority stored 10 boss draws
              (global_check_in_interval json [])
              signed)
            9))
    × ((poll_enrollment_status crates stored 12 "p"
          (poll_enrollment_status crates stored 11 "p" approved_db).1).0
        ≡ err (not_found "Enrollment not found or expired"))
unfolding sign_csr
approve_enrollment-delivers_example =
    approve_enrollment-delivers crates json rcgen authority stored 10 boss draws 1 11 12 "p" "csr"
      (waiting_request (some "csr")) signed (requested (some "csr")) refl refl refl refl refl refl
      refl

abbrev other_boss : AuthUser
other_boss = record boss { user_id = 7; username = "zoe" }

-- The second administrator comes later and draws other values.
abbrev other_draws : Draws
other_draws = record draws { host_id = 8; serial = 4 }

abbrev stuck_db : Db
stuck_db =
    (approve_enrollment crates json rcgen authority stored 10 boss draws 1 (requested none)).1

approve_enrollment-stuck_example :
    approve_enrollment crates json rcgen authority stored 30 other_boss other_draws 1 stuck_db
    ≡ (err (conflict "Host already registered"), stuck_db)
unfolding approve_enrollment
approve_enrollment-stuck_example =
    approve_enrollment-stuck crates json rcgen rcgen authority authority stored 10 30 boss
      other_boss draws other_draws 1 (waiting_request none)
      (bad_request "Enrollment request has no CSR") (requested none) refl refl refl refl refl

abbrev net_text : NetText crates
net_text = record { net_string = λ n. "10.0.0.0/8"; single = λ ip. (ip, 0) }

abbrev Runs : Db → Db → Type 0
Runs = Run.Run crates json argon classes rcgen authority issue net_text stored

-- A check-in, and the revocation of a token behind it.
abbrev run :
    Runs db
      (revoke_token crates stored 12 boss "h"
        (check_in crates stored 10 3 (request "" false) db).1).1
run =
    Run.Run.handles (Run.Run.handles Run.Run.idle (Run.Step.checks_in 10 3 (request "" false) db))
      (Run.Step.revokes_token 12 boss "h" (check_in crates stored 10 3 (request "" false) db).1)

Run-unrecorded_example :
    (length
        (revoke_token crates stored 12 boss "h"
          (check_in crates stored 10 3 (request "" false) db).1).1.audit_log
      ≡ length db.audit_log)
    × (db.audit_log ≡ []
        → anchor_chain 5 20
            (revoke_token crates stored 12 boss "h"
              (check_in crates stored 10 3 (request "" false) db).1).1.audit_log
            []
          ≡ [])
Run-unrecorded_example =
    Run-unrecorded crates json argon classes rcgen authority issue net_text stored 5 20 []
      postgres_laws run
