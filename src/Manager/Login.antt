-- ===== src/Manager/Login.antt =====
-- crates/fw-web/src/routes/auth.rs: login with its lockout, refresh, logout and the change of a
-- password.
pub mod Laws
use linux_host_firewall_mana.Prelude.{
  ℕ, ◌+◌, ◌*◌, String, Bool, true, false, not, ◌&&◌, Option, none, some, List, [], ◌∷◌, ◌++◌, ◌==◌,
  nat_eq, ltb, leb, if◌then◌else◌, Result, ok, err, unwrap_or,
}
use linux_host_firewall_mana.Prelude.Lists.{any, find, update_where}
use linux_host_firewall_mana.Prelude.Text.{concat}
use linux_host_firewall_mana.Crates.{Crates, Json, text, Argon2}
use linux_host_firewall_mana.Audit.{AuditEvent, log_event}
use linux_host_firewall_mana.Auth.Rbac.{AuthUser, UserRole, RefreshTokenRow, role_str}
use linux_host_firewall_mana.Auth.Password.{CharClasses, validate_password_strength, verified}
use linux_host_firewall_mana.Manager.Tables.{UserRow, AuthProvider}
use linux_host_firewall_mana.Manager.Db.{Db}
use linux_host_firewall_mana.Manager.Handler.{
  AppError, database, unauthorized, internal, not_found, bad_request, Answer, ensure, audit,
}

pub record LoginRequest : Type 0 where
  pub username : String
  pub password : String
  pub mfa_code : Option String

-- What the answers name of the user, as far as it comes from the tables.
pub record LoginResponse : Type 0 where
  pub access_token : String
  pub refresh_token : String
  pub user_id : ℕ
  pub username : String
  pub role : String

-- The random values of a login: the salt, the refresh token and the access token's id.
pub record LoginDraws : Type 0 where
  pub salt : String
  pub refresh_token : String
  pub jti : String

abbrev pub is_local : AuthProvider → Bool
is_local AuthProvider.local = true
is_local _ = false

abbrev pub minute : ℕ
minute = 60000000000

abbrev pub is_login : String → UserRow → Bool
is_login name u = u.username == name && is_local u.auth_provider

abbrev pub has_user_id : ℕ → UserRow → Bool
has_user_id id u = nat_eq u.id id

abbrev pub is_locked : ℕ → Option ℕ → Bool
is_locked now none = false
is_locked now (some until) = ltb now until

-- The statements behind a wrong password, the second one from the fifth failure on.
unfoldable pub count_failure : ℕ → UserRow → List UserRow → List UserRow
count_failure now u rows =
    let counted =
      update_where (has_user_id u.id)
        (λ r. record r { failed_login_attempts = r.failed_login_attempts + 1 }) rows in
    if leb 5 (u.failed_login_attempts + 1)
    then update_where (has_user_id u.id) (λ r. record r { locked_until = some (now + 30 * minute) })
        counted
    else counted

unfoldable pub reset_failures : ℕ → UserRow → List UserRow → List UserRow
reset_failures now u rows =
    update_where (has_user_id u.id)
      (λ r. record r { failed_login_attempts = 0; locked_until = none; last_login_at = some now })
      rows

module _ (c : Crates) (a : Argon2) (stored : ℕ → ℕ) (now : ℕ)
    (issue_access_token : ℕ → String → String → String → Result String String) where
  abbrev login_event : String → Option ℕ → String → ℕ → List (String × Json) → AuditEvent
  login_event action actor username user details = record {
    action = action;
    actor_user_id = actor;
    actor_username = some username;
    target_type = some "user";
    target_id = some (c.uuid_string user);
    details = c.json_object details;
    ip_address = none;
    request_id = none;
  }

  unfoldable pub login_failed : LoginRequest → UserRow → Db → Db
  unfolding count_failure
  login_failed req u db = record db {
    users = count_failure now u db.users;
    audit_log =
        log_event c stored now
          (login_event "user_login_failed" none req.username u.id
            (("reason", text "invalid_password") ∷ []))
          db.audit_log;
  }

  refresh_row : LoginDraws → UserRow → String → RefreshTokenRow
  refresh_row d u hash = record {
    user_id = u.id;
    token_hash = hash;
    expires_at = now + 60 * minute;
    jti = d.jti;
    revoked = false;
  }

  unfoldable pub logged_in : LoginDraws → UserRow → String → Db → Db
  unfolding refresh_row
  logged_in d u hash db = record db {
    refresh_tokens = db.refresh_tokens ++ refresh_row d u hash ∷ [];
    audit_log =
        log_event c stored now (login_event "user_login" (some u.id) u.username u.id [])
          db.audit_log;
  }

  -- Behind the right password: the counters are reset, then the tokens are made.
  unfoldable pub sign_in : LoginDraws → UserRow → Db → Answer LoginResponse
  unfolding reset_failures logged_in
  sign_in d u db =
      let db' = record db { users = reset_failures now u db.users } in
      elim (issue_access_token u.id (role_str u.role) u.username d.jti) [
        | err e ↦ (err (internal e), db')
        | ok access ↦ elim (a.hash_with d.salt d.refresh_token) [
          | err e ↦ (err (internal e), db')
          | ok hash ↦ (
            ok (record {
              access_token = access;
              refresh_token = d.refresh_token;
              user_id = u.id;
              username = u.username;
              role = role_str u.role;
            }),
            logged_in d u hash db',
          )
        ]
      ]

  -- No row stands for a row that is not active.
  unfoldable pub login : LoginDraws → LoginRequest → Db → Answer LoginResponse
  unfolding login_failed sign_in
  login d req db = elim (find (is_login req.username) db.users) [
    | none ↦ (err (unauthorized "Invalid credentials"), db)
    | some u ↦
        if not u.is_active
        then (err (unauthorized "Invalid credentials"), db)
        else if is_locked now u.locked_until
        then (err (unauthorized "Account locked"), db)
        else if verified a req.password (unwrap_or u.password_hash "")
        then sign_in d u db
        else (err (unauthorized "Invalid credentials"), login_failed req u db)
  ]

  -- `rt.token_hash = $1 AND rt.revoked = FALSE AND rt.expires_at > NOW()`
  abbrev pub is_live_token : String → RefreshTokenRow → Bool
  is_live_token hash r = r.token_hash == hash && (not r.revoked && ltb now r.expires_at)

  unfoldable pub refresh_user : LoginDraws → String → String → UserRow → Db → Answer LoginResponse
  refresh_user d token hash u db =
      elim (issue_access_token u.id (role_str u.role) u.username d.jti) [
        | err e ↦ (err (internal e), db)
        | ok access ↦ (
          ok (record {
            access_token = access;
            refresh_token = token;
            user_id = u.id;
            username = u.username;
            role = role_str u.role;
          }),
          record db {
            refresh_tokens =
                update_where (λ r. r.token_hash == hash) (λ r. record r { jti = d.jti })
                  db.refresh_tokens;
          },
        )
      ]

  unfoldable pub refresh_row_user :
      LoginDraws → String → String → Option RefreshTokenRow → Db → Answer LoginResponse
  unfolding refresh_user
  refresh_row_user d token hash none db = (err (unauthorized "Invalid refresh token"), db)
  refresh_row_user d token hash (some r) db = elim (find (has_user_id r.user_id) db.users) [
    | none ↦ (err (unauthorized "Invalid refresh token"), db)
    | some u ↦ refresh_user d token hash u db
  ]

  -- The presented token is hashed with a new salt.
  unfoldable pub refresh_token : LoginDraws → String → Db → Answer LoginResponse
  unfolding refresh_row_user
  refresh_token d token db = elim (a.hash_with d.salt token) [
    | err e ↦ (err (internal e), db)
    | ok hash ↦ refresh_row_user d token hash (find (is_live_token hash) db.refresh_tokens) db
  ]

  unfoldable pub logout : LoginDraws → AuthUser → String → Db → Answer (Unit {0})
  unfolding audit
  logout d auth token db = elim (a.hash_with d.salt token) [
    | err e ↦ (err (internal e), db)
    | ok hash ↦ (
      ok tt,
      audit c stored now auth "user_logout" "user" (c.uuid_string auth.user_id) [] (record db {
        refresh_tokens =
            update_where (λ r. r.token_hash == hash) (λ r. record r { revoked = true })
              db.refresh_tokens;
      }),
    )
  ]

  unfoldable pub set_password : String → String → ℕ → Db → Answer (Unit {0})
  set_password salt new id db = elim (a.hash_with salt new) [
    | err e ↦ (err (internal e), db)
    | ok hash ↦ (
      ok tt,
      record db {
        users =
            update_where (has_user_id id)
              (λ u. record u { password_hash = some hash; force_password_reset = false }) db.users;
      },
    )
  ]

  unfoldable pub change_password :
      CharClasses → String → AuthUser → String → String → Db → Answer (Unit {0})
  unfolding validate_password_strength set_password
  -- A password that is NULL does not decode.
  change_password classes salt auth current new db = elim (validate_password_strength classes new) [
    | err weak ↦ (err (bad_request (concat ("Weak password: " ∷ weak ∷ []))), db)
    | ok _ ↦ elim (find (has_user_id auth.user_id) db.users) [
      | none ↦ (err (not_found "User not found"), db)
      | some u ↦ elim u.password_hash [
        | none ↦ (err database, db)
        | some old ↦
            if verified a current old
            then set_password salt new auth.user_id db
            else (err (unauthorized "Invalid current password"), db)
      ]
    ]
  ]
