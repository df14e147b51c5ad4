-- ===== src/Manager/Users.antt =====
-- crates/fw-web/src/routes/users.rs and certificates.rs: the accounts of the manager, and the
-- revocation of a certificate.
use linux_host_firewall_mana.Prelude.{
  ℕ, String, Bool, true, false, not, ◌&&◌, ◌||◌, Option, none, some, List, [], ◌∷◌, ◌++◌, map, ◌==◌,
  nat_eq, if◌then◌else◌, ok, err, unwrap_or,
}
use linux_host_firewall_mana.Prelude.Lists.{any, find, keep, update_where}
use linux_host_firewall_mana.Prelude.Text.{concat}
use linux_host_firewall_mana.Crates.{Crates, text, Argon2}
use linux_host_firewall_mana.Audit.{AuditRow}
use linux_host_firewall_mana.Auth.Rbac.{AuthUser, UserRole}
use linux_host_firewall_mana.Auth.Password.{CharClasses, validate_password_strength}
use linux_host_firewall_mana.Manager.Tables.{
  UserRow, AuthProvider, Certificate, CertStatus, RuleGroupRow, ProtectedCidr,
}
use linux_host_firewall_mana.Policy.{RuleRow}
use linux_host_firewall_mana.Manager.Db.{Assignment, PolicySetRow, Db}
use linux_host_firewall_mana.Manager.Handler.{
  AppError, not_found, bad_request, internal, Answer, ensure, admin_only, audit,
}
use linux_host_firewall_mana.Manager.Login.{has_user_id}

pub record CreateUserRequest : Type 0 where
  pub username : String
  pub display_name : String
  pub email : String
  pub role : UserRole
  pub password : String

pub record UpdateUserRequest : Type 0 where
  pub display_name : Option String
  pub email : Option String
  pub role : Option UserRole
  pub is_active : Option Bool

unfoldable pub changed_user : UpdateUserRequest → UserRow → UserRow
changed_user req u = record u {
  display_name = unwrap_or req.display_name u.display_name;
  email = unwrap_or req.email u.email;
  role = unwrap_or req.role u.role;
  is_active = unwrap_or req.is_active u.is_active;
}

-- The columns that the insert leaves out have their defaults.
unfoldable pub new_user : ℕ → String → CreateUserRequest → UserRow
new_user id hash req = record {
  id = id;
  username = req.username;
  display_name = req.display_name;
  email = req.email;
  role = req.role;
  auth_provider = AuthProvider.local;
  password_hash = some hash;
  mfa_enabled = false;
  is_active = true;
  force_password_reset = false;
  last_login_at = none;
  failed_login_attempts = 0;
  locked_until = none;
}

abbrev pub has_cert_id : ℕ → Certificate → Bool
has_cert_id id cert = nat_eq cert.id id

-- `ON DELETE SET NULL`
abbrev pub is_user : ℕ → Option ℕ → Bool
is_user id none = false
is_user id (some u) = nat_eq u id

abbrev pub unset : ℕ → Option ℕ → Option ℕ
unset id u = if is_user id u then none else u

abbrev pub acted : ℕ → AuditRow → Bool
acted id row = is_user id row.event.actor_user_id

unfoldable pub forget_actor : ℕ → List AuditRow → List AuditRow
forget_actor id rows =
    update_where (acted id)
      (λ row. record row { event = record row.event { actor_user_id = none } }) rows

-- The rows that refer to a deleted user: some go with it, the others lose the reference.
unfoldable pub forget_user : ℕ → Db → Db
unfolding forget_actor
forget_user id db = record db {
  users = keep (λ u. not (has_user_id id u)) db.users;
  refresh_tokens = keep (λ r. not (nat_eq r.user_id id)) db.refresh_tokens;
  operator_host_groups = keep (λ o. not (nat_eq o.user_id id)) db.operator_host_groups;
  audit_log = forget_actor id db.audit_log;
  firewall_rules =
      map
        (λ (r : RuleRow). record r {
          rule = record r.rule { created_by = unset id r.rule.created_by };
        })
        db.firewall_rules;
  policy_sets =
      map (λ (p : PolicySetRow). record p { created_by = unset id p.created_by }) db.policy_sets;
  rule_groups =
      map (λ (g : RuleGroupRow). record g { created_by = unset id g.created_by }) db.rule_groups;
  host_policy_assignments =
      map (λ (a : Assignment). record a { assigned_by = unset id a.assigned_by })
        db.host_policy_assignments;
  enrollment_tokens = keep (λ t. not (is_user id t.created_by)) db.enrollment_tokens;
  host_protected_cidrs =
      map (λ (q : ProtectedCidr). record q { created_by = unset id q.created_by })
        db.host_protected_cidrs;
}

module _ (c : Crates) (stored : ℕ → ℕ) (now : ℕ) (auth : AuthUser) where
  -- The names are UNIQUE.
  unfoldable pub insert_user : ℕ → String → CreateUserRequest → Db → Answer UserRow
  unfolding new_user audit
  insert_user id hash req db =
      ensure (not (any (λ u. u.username == req.username || u.email == req.email) db.users))
        AppError.database db
        (
          ok (new_user id hash req),
          audit c stored now auth "user_created" "user" (c.uuid_string id)
              (("username", text req.username) ∷ [])
              (record db { users = db.users ++ new_user id hash req ∷ [] }),
        )

  -- `id` is the new uuid, `salt` the random salt.
  unfoldable pub create_user :
      CharClasses → Argon2 → ℕ → String → CreateUserRequest → Db → Answer UserRow
  unfolding validate_password_strength insert_user
  create_user classes a id salt req db =
      admin_only auth db (elim (validate_password_strength classes req.password) [
        | err weak ↦ (err (bad_request (concat ("Weak password: " ∷ weak ∷ []))), db)
        | ok _ ↦ elim (a.hash_with salt req.password) [
          | err e ↦ (err (internal e), db)
          | ok hash ↦ insert_user id hash req db
        ]
      ])

  unfoldable pub update_user : ℕ → UpdateUserRequest → Db → Answer UserRow
  unfolding changed_user audit
  update_user id req db = admin_only auth db (elim (find (has_user_id id) db.users) [
    | none ↦ (err (not_found "User not found"), db)
    | some u ↦
        ensure
          (not
            (any (λ o. not (has_user_id id o) && o.email == (changed_user req u).email) db.users))
          AppError.database db
          (
            ok (changed_user req u),
            audit c stored now auth "user_updated" "user" (c.uuid_string id) []
                (record db { users = update_where (has_user_id id) (changed_user req) db.users }),
          )
  ])

  -- The record of a user's own deletion names a user that is no more: its insert fails.
  unfoldable pub delete_user : ℕ → Db → Answer (Unit {0})
  unfolding audit
  delete_user id db =
      let left = forget_user id db in
      admin_only auth db (
        ok tt,
        if nat_eq id auth.user_id
            then left
            else (audit c stored now auth "user_deleted" "user" (c.uuid_string id) [] left),
      )

  -- The listener's new revocation lists, which follow, are made from the tables as they are then.
  unfoldable pub revoke_cert : ℕ → Db → Answer (Unit {0})
  unfolding audit
  revoke_cert id db = admin_only auth db (
      ensure (any (has_cert_id id) db.certificates) (not_found "Certificate not found") db (
        ok tt,
        audit c stored now auth "certificate_revoked" "certificate" (c.uuid_string id) []
            (record db {
              certificates =
                  update_where (has_cert_id id)
                    (λ r. record r { status = CertStatus.revoked; revoked_at = some now })
                    db.certificates;
            }),
      ))
