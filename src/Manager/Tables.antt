-- ===== src/Manager/Tables.antt =====
-- Rows of the manager's tables for users, rule groups, enrollment and certificates (src/migrations and
-- crates/fw-core/src/models.rs). Uuids are numbers, times are nanoseconds.
use linux_host_firewall_mana.Prelude.{ℕ, String, Bool, Option, List}
use linux_host_firewall_mana.Prelude.Int.{ℤ}
use linux_host_firewall_mana.Auth.Rbac.{UserRole}

pub data AuthProvider : Type 0 where
  local azure_sso keycloak oidc : AuthProvider

pub record UserRow : Type 0 where
  pub id : ℕ
  pub username : String
  pub display_name : String
  pub email : String
  pub role : UserRole
  pub auth_provider : AuthProvider
  pub password_hash : Option String
  pub mfa_enabled : Bool
  pub is_active : Bool
  pub force_password_reset : Bool
  pub last_login_at : Option ℕ
  pub failed_login_attempts : ℕ
  pub locked_until : Option ℕ

pub record RuleGroupRow : Type 0 where
  pub id : ℕ
  pub name : String
  pub description : String
  pub created_by : Option ℕ

pub data PolicyDecision : Type 0 where
  auto_approved flagged rejected approved_by_admin denied_by_admin : PolicyDecision

pub record RulePolicyDecision : Type 0 where
  pub rule_id : ℕ
  pub decision : PolicyDecision
  pub reason : String

pub record GroupRow : Type 0 where
  pub id : ℕ
  pub name : String
  pub description : String

pub record EnrollmentToken : Type 0 where
  pub token_hash : String
  pub host_fqdn : String
  pub host_ip : Option String
  pub created_by : Option ℕ
  pub expires_at : ℕ
  pub used_at : Option ℕ
  pub revoked_at : Option ℕ

-- `os_name` is `os_details.get("os_name")` as a text.
pub record EnrollmentRequest : Type 0 where
  pub id : ℕ
  pub machine_id : String
  pub fqdn : String
  pub ip_address : String
  pub hostname : Option String
  pub os_name : Option String
  pub polling_token : String
  pub csr : Option String
  pub created_at : ℕ
  pub expires_at : ℕ

pub record PullConfigBundle : Type 0 where
  pub check_in_interval_secs : ℤ
  pub push_enabled : Bool
  pub config_version : ℤ
  pub manager_agent_url : String

pub record PkiBundle : Type 0 where
  pub ca_chain : List String
  pub server_cert : String
  pub crl_pem : Option String
  pub pull_config : Option PullConfigBundle

-- An entry of the map `approved_enrollments`, with its key.
pub record ApprovedEnrollment : Type 0 where
  pub polling_token : String
  pub pki_bundle : PkiBundle
  pub host_id : ℕ
  pub created_at : ℕ

pub data CertStatus : Type 0 where
  active revoked expired : CertStatus

pub record Certificate : Type 0 where
  pub id : ℕ
  pub host_id : Option ℕ
  pub serial_number : String
  pub common_name : String
  pub status : CertStatus
  pub issued_at : ℕ
  pub expires_at : ℕ
  pub revoked_at : Option ℕ
  pub cert_pem : String
  pub ca_tier : String
  pub issuer_serial : Option String

pub record CrlCounter : Type 0 where
  pub issuer_key : String
  pub last_number : ℕ

pub record ProtectedCidr : Type 0 where
  pub host_id : ℕ
  pub cidr : String
  pub label : String
  pub created_by : Option ℕ

pub record ConfigRow : Type 0 where
  pub key : String
  pub value : String
