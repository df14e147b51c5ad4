-- ===== src/Manager/Trail/Accounts.antt =====
-- The handlers of crates/fw-web/src/routes/auth.rs, users.rs, certificates.rs and settings.rs write
-- the audit log only by `log_event`, but for the deletion of a user.
use linux_host_firewall_mana.Prelude.{
  ℕ, String, ◌≡◌, refl, not, ◌&&◌, ◌||◌, Option, none, some, inl, inr, Option-cases, Result,
  Result-cases, ◌==◌, unwrap_or,
}
use linux_host_firewall_mana.Prelude.Lists.{any, find}
use linux_host_firewall_mana.Crates.{Crates, SerdeJson, Argon2}
use linux_host_firewall_mana.Auth.Rbac.{AuthUser, RefreshTokenRow, is_admin, role_str}
use linux_host_firewall_mana.Auth.Password.{CharClasses, validate_password_strength, verified}
use linux_host_firewall_mana.Manager.Db.{Db}
use linux_host_firewall_mana.Manager.Tables.{UserRow}
use linux_host_firewall_mana.Manager.Handler.{audit}
use linux_host_firewall_mana.Manager.Login.{
  LoginDraws, LoginRequest, login, sign_in, login_failed, logged_in, is_locked, is_login,
  has_user_id, is_live_token, refresh_token, refresh_row_user, refresh_user, logout,
}
use linux_host_firewall_mana.Manager.Users.{
  CreateUserRequest, UpdateUserRequest, create_user, insert_user, update_user, changed_user,
  revoke_cert, has_cert_id,
}
use linux_host_firewall_mana.Manager.Settings.{
  UpdateSettingsRequest, update_settings, set_section, set_config, set_polling, interval_of_value,
}
use linux_host_firewall_mana.Manager.Trail.{same, logs, Extends, if-Extends, ensure-Extends}

module _ (c : Crates) (a : Argon2) (stored : ℕ → ℕ) (now : ℕ)
    (issue : ℕ → String → String → String → Result String String) where
  sign_in-Extends :
      (d : LoginDraws) (u : UserRow) (db : Db)
      → Extends c stored db (sign_in c a stored now issue d u db).1
  unfolding sign_in logged_in
  sign_in-Extends d u db = elim (Result-cases (issue u.id (role_str u.role) u.username d.jti)) [
    | inl (e, bad) ↦ rw (bad, sign_in) same
    | inr (access, good) ↦ elim (Result-cases (a.hash_with d.salt d.refresh_token)) [
      | inl (e, bad) ↦ rw (good, bad, sign_in) same
      | inr (hash, hashed) ↦ rw (good, hashed, sign_in) (logs now _ same)
    ]
  ]

  pub login-Extends :
      (d : LoginDraws) (req : LoginRequest) (db : Db)
      → Extends c stored db (login c a stored now issue d req db).1
  unfolding login login_failed
  login-Extends d req db = elim (Option-cases (find (is_login req.username) db.users)) [
    | inl missing ↦ rw (missing, login) same
    | inr (u, there) ↦
        rw (there, login)
          (if-Extends c stored (not u.is_active) db _ _ same (
            if-Extends c stored (is_locked now u.locked_until) db _ _ same (
              if-Extends c stored (verified a req.password (unwrap_or u.password_hash "")) db _ _
                (sign_in-Extends d u db) (logs now _ same))))
  ]

  refresh_user-Extends :
      (d : LoginDraws) (token hash : String) (u : UserRow) (db : Db)
      → Extends c stored db (refresh_user c a stored now issue d token hash u db).1
  unfolding refresh_user
  refresh_user-Extends d token hash u db =
      elim (Result-cases (issue u.id (role_str u.role) u.username d.jti)) [
        | inl (e, bad) ↦ rw (bad, refresh_user) same
        | inr (access, good) ↦ rw (good, refresh_user) same
      ]

  refresh_row_user-Extends :
      (d : LoginDraws) (token hash : String) (row : Option RefreshTokenRow) (db : Db)
      → Extends c stored db (refresh_row_user c a stored now issue d token hash row db).1
  unfolding refresh_row_user
  refresh_row_user-Extends d token hash none db = same
  refresh_row_user-Extends d token hash (some r) db =
      elim (Option-cases (find (has_user_id r.user_id) db.users)) [
        | inl missing ↦ rw (missing, refresh_row_user) same
        | inr (u, there) ↦ rw (there, refresh_row_user) (refresh_user-Extends d token hash u db)
      ]

  pub refresh_token-Extends :
      (d : LoginDraws) (token : String) (db : Db)
      → Extends c stored db (refresh_token c a stored now issue d token db).1
  unfolding refresh_token
  refresh_token-Extends d token db = elim (Result-cases (a.hash_with d.salt token)) [
    | inl (e, bad) ↦ rw (bad, refresh_token) same
    | inr (hash, good) ↦
        rw (good, refresh_token)
          (refresh_row_user-Extends d token hash
            (find (is_live_token c a stored now issue hash) db.refresh_tokens) db)
  ]

  pub logout-Extends :
      (d : LoginDraws) (auth : AuthUser) (token : String) (db : Db)
      → Extends c stored db (logout c a stored now issue d auth token db).1
  unfolding logout audit
  logout-Extends d auth token db = elim (Result-cases (a.hash_with d.salt token)) [
    | inl (e, bad) ↦ rw (bad, logout) same
    | inr (hash, good) ↦ rw (good, logout) (logs now _ same)
  ]

module _ (c : Crates) (a : Argon2) (classes : CharClasses) (stored : ℕ → ℕ) (now : ℕ)
    (auth : AuthUser) where
  insert_user-Extends :
      (id : ℕ) (hash : String) (req : CreateUserRequest) (db : Db)
      → Extends c stored db (insert_user c stored now auth id hash req db).1
  unfolding insert_user audit
  insert_user-Extends id hash req db =
      ensure-Extends c stored
        (not (any (λ u. u.username == req.username || u.email == req.email) db.users)) _ db _
        (logs now _ same)

  pub create_user-Extends :
      (id : ℕ) (salt : String) (req : CreateUserRequest) (db : Db)
      → Extends c stored db (create_user c stored now auth classes a id salt req db).1
  unfolding create_user
  create_user-Extends id salt req db =
      ensure-Extends c stored (is_admin auth.role) _ db _
        (elim (Result-cases (validate_password_strength classes req.password)) [
          | inl (e, weak) ↦ rw weak same
          | inr (fine, strong) ↦ elim (Result-cases (a.hash_with salt req.password)) [
            | inl (e, bad) ↦ rw (strong, bad) same
            | inr (hash, good) ↦ rw (strong, good) (insert_user-Extends id hash req db)
          ]
        ])

  pub update_user-Extends :
      (id : ℕ) (req : UpdateUserRequest) (db : Db)
      → Extends c stored db (update_user c stored now auth id req db).1
  unfolding update_user audit
  update_user-Extends id req db =
      ensure-Extends c stored (is_admin auth.role) _ db _
        (elim (Option-cases (find (has_user_id id) db.users)) [
          | inl missing ↦ rw missing same
          | inr (u, there) ↦ rw there (
              ensure-Extends c stored
                (not (
                  any (λ o. not (has_user_id id o) && o.email == (changed_user req u).email)
                    db.users))
                _ db _ (logs now _ same))
        ])

  pub revoke_cert-Extends :
      (id : ℕ) (db : Db) → Extends c stored db (revoke_cert c stored now auth id db).1
  unfolding revoke_cert audit
  revoke_cert-Extends id db =
      ensure-Extends c stored (is_admin auth.role) _ db _
        (ensure-Extends c stored (any (has_cert_id id) db.certificates) _ db _ (logs now _ same))

set_section_log :
    (j : SerdeJson) (key : String) (v : Option j.Value) (db : Db)
    → (set_section j key v db).audit_log ≡ db.audit_log
unfolding set_section set_config
set_section_log j key none db = refl
set_section_log j key (some v) db = refl

set_polling_log :
    (j : SerdeJson) (v : Option j.Value) (db : Db) → (set_polling j v db).audit_log ≡ db.audit_log
unfolding set_polling set_config
set_polling_log j none db = refl
set_polling_log j (some v) db = elim (Option-cases (interval_of_value j v)) [
  | inl missing ↦ rw (missing, set_polling) refl
  | inr (n, there) ↦ rw (there, set_polling) refl
]

pub update_settings-Extends :
    (j : SerdeJson) (c : Crates) (stored : ℕ → ℕ) (now : ℕ) (auth : AuthUser)
    (req : UpdateSettingsRequest j) (db : Db)
    → Extends c stored db (update_settings j c stored now auth req db).1
unfolding update_settings audit
update_settings-Extends j c stored now auth req db =
    ensure-Extends c stored (is_admin auth.role) _ db _ (
      rw
        (
          set_section_log, set_section_log, set_polling_log, set_section_log, set_section_log,
          set_section_log,
        )
        (logs now _ same))
