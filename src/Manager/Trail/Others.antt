-- ===== src/Manager/Trail/Others.antt =====
-- The handlers of crates/fw-web/src/routes that record nothing, the settings that are recorded, and the
-- deletion of a user, against the audit log.
use linux_host_firewall_mana.Prelude.{
  ℕ, String, ◌≡◌, refl, ap, suc, ◌∙◌, true, false, not, ◌&&◌, ◌||◌, Option, List, [], ◌∷◌, ◌==◌,
  inl, inr, Bool-cases, Option-cases, Result-cases, Result, unwrap_or, nat_eq,
}
use linux_host_firewall_mana.Prelude.Lists.{any, find, is_empty, length}
use linux_host_firewall_mana.Crates.{Crates, SerdeJson, Argon2, v4, text_type, inet_type}
use linux_host_firewall_mana.Audit.{AuditRow, is_insert_typed}
use linux_host_firewall_mana.Auth.Rbac.{AuthUser, AuthConfig, is_admin, can_write}
use linux_host_firewall_mana.Auth.Password.{CharClasses, validate_password_strength, verified}
use linux_host_firewall_mana.Manager.Db.{Db}
use linux_host_firewall_mana.Manager.Handler.{audit}
use linux_host_firewall_mana.Manager.Settings.{
  NetText, covers, update_config, validate_entries, save_whitelist, put_ip_whitelist,
  put_trusted_proxies,
}
use linux_host_firewall_mana.Manager.Login.{has_user_id, set_password, change_password}
use linux_host_firewall_mana.Manager.Hosts.{
  has_host_id, has_host_group, update_host, add_protected_cidr, create_group, delete_group,
  add_host_to_group, remove_host_from_group,
}
use linux_host_firewall_mana.Manager.Users.{forget_actor, forget_user, delete_user}
use linux_host_firewall_mana.Manager.Trail.{
  Logged, same, logs, Extends, Logged-refused, ensure-Extends,
}

module _ (c : Crates) (stored : ℕ → ℕ) (now : ℕ) (auth : AuthUser) where
  pub update_config-Extends :
      (j : SerdeJson) (section : String) (db : Db)
      → Extends c stored db (update_config j c stored now section auth db).1
  unfolding update_config audit
  update_config-Extends j section db =
      ensure-Extends c stored (is_admin auth.role) _ db _ (logs now _ same)

  module _ (n : NetText c) (j : SerdeJson) where
    save_whitelist-Extends :
        (entries : List String) (db : Db) (a : AuthConfig c)
        → Extends c stored db (save_whitelist c n j stored now auth entries (db, a)).1.0
    unfolding save_whitelist audit
    save_whitelist-Extends entries db a =
        elim (Bool-cases
          (is_empty entries || any (covers c n (unwrap_or auth.ip (v4 0))) entries)) [
            | inl fine ↦ rw fine (logs now _ same)
            | inr locked ↦ rw locked same
          ]

    pub put_ip_whitelist-Extends :
        (entries : List String) (db : Db) (a : AuthConfig c)
        → Extends c stored db (put_ip_whitelist c n j stored now auth entries (db, a)).1.0
    unfolding put_ip_whitelist
    put_ip_whitelist-Extends entries db a = elim (Bool-cases (is_admin auth.role)) [
      | inr clerk ↦ rw clerk same
      | inl boss ↦ elim (Result-cases (validate_entries c n entries)) [
        | inl (bad, e) ↦ rw (boss, e) same
        | inr (good, e) ↦ rw (boss, e) (save_whitelist-Extends good db a)
      ]
    ]

    pub put_trusted_proxies-Extends :
        (entries : List String) (db : Db) (a : AuthConfig c)
        → Extends c stored db (put_trusted_proxies c n j stored now auth entries (db, a)).1.0
    unfolding put_trusted_proxies
    put_trusted_proxies-Extends entries db a = elim (Bool-cases (is_admin auth.role)) [
      | inr clerk ↦ rw clerk same
      | inl boss ↦ elim (Result-cases (validate_entries c n entries)) [
        | inl (bad, e) ↦ rw (boss, e) same
        | inr (good, e) ↦ rw (boss, e) same
      ]
    ]

  pub change_password-Extends :
      (a : Argon2) (issue : ℕ → String → String → String → Result String String)
      (classes : CharClasses) (salt old new : String) (db : Db)
      → Extends c stored db (change_password c a stored now issue classes salt auth old new db).1
  unfolding change_password set_password
  change_password-Extends a issue classes salt old new db =
      elim (Result-cases (validate_password_strength classes new)) [
        | inl (weak, e) ↦ rw (change_password, e) same
        | inr (fine, e) ↦ elim (Option-cases (find (has_user_id auth.user_id) db.users)) [
          | inl missing ↦ rw (change_password, e, missing) same
          | inr (u, there) ↦ elim (Option-cases u.password_hash) [
            | inl none ↦ rw (change_password, e, there, none) same
            | inr (hash, known) ↦ elim (Bool-cases (verified a old hash)) [
              | inr wrong ↦ rw (change_password, e, there, known, wrong) same
              | inl right ↦ elim (Result-cases (a.hash_with salt new)) [
                | inl (bad, f) ↦ rw (change_password, e, there, known, right, set_password, f) same
                | inr (new_hash, f) ↦
                    rw (change_password, e, there, known, right, set_password, f) same
              ]
            ]
          ]
        ]
      ]

  pub update_host-Extends :
      (id : ℕ) (name notes : Option String) (db : Db)
      → Extends c stored db (update_host auth id name notes db).1
  unfolding update_host
  update_host-Extends id name notes db =
      ensure-Extends c stored (can_write auth.role) _ db _
        (elim (Option-cases (find (has_host_id id) db.hosts)) [
          | inl missing ↦ rw missing same
          | inr (h, there) ↦ rw there same
        ])

  pub add_protected_cidr-Extends :
      (id : ℕ) (cidr : String) (label : Option String) (db : Db)
      → Extends c stored db (add_protected_cidr c auth id cidr label db).1
  unfolding add_protected_cidr
  add_protected_cidr-Extends id cidr label db =
      ensure-Extends c stored (is_admin auth.role) _ db _ (
        ensure-Extends c stored
          (c.postgres.is_assignable text_type inet_type && any (has_host_id id) db.hosts) _ db _
          same)

  pub create_group-Extends :
      (id : ℕ) (name : String) (text : Option String) (db : Db)
      → Extends c stored db (create_group auth id name text db).1
  unfolding create_group
  create_group-Extends id name text db =
      ensure-Extends c stored (can_write auth.role) _ db _
        (ensure-Extends c stored (not (any (λ g. g.name == name) db.groups)) _ db _ same)

  pub delete_group-Extends : (id : ℕ) (db : Db) → Extends c stored db (delete_group auth id db).1
  unfolding delete_group
  delete_group-Extends id db = ensure-Extends c stored (is_admin auth.role) _ db _ same

  pub add_host_to_group-Extends :
      (group host : ℕ) (db : Db) → Extends c stored db (add_host_to_group auth group host db).1
  unfolding add_host_to_group
  add_host_to_group-Extends group host db = ensure-Extends c stored (can_write auth.role) _ db _ (
      ensure-Extends c stored
        (any (has_host_id host) db.hosts && any (has_host_group group) db.groups) _ db _ same)

  pub remove_host_from_group-Extends :
      (group host : ℕ) (db : Db) → Extends c stored db (remove_host_from_group auth group host db).1
  unfolding remove_host_from_group
  remove_host_from_group-Extends group host db =
      ensure-Extends c stored (can_write auth.role) _ db _ same

  length-forget_actor :
      (id : ℕ) (rows : List AuditRow) → length (forget_actor id rows) ≡ length rows
  unfolding forget_actor
  length-forget_actor id [] = refl
  length-forget_actor id (row ∷ rows) = ap suc (length-forget_actor id rows)

  -- The deletion of a user, behind the rows that lose their user.
  delete_user-Logged :
      (id : ℕ) (db : Db)
      → is_admin auth.role ≡ true
      → Logged c stored
          (forget_actor id db.audit_log)
          (delete_user c stored now auth id db).1.audit_log
  unfolding delete_user forget_user audit
  delete_user-Logged id db boss = elim (Bool-cases (nat_eq id auth.user_id)) [
    | inl own ↦ rw (boss, own) same
    | inr other ↦ rw (boss, other) (logs now _ same)
  ]

  pub length-delete_user :
      (id : ℕ) (db : Db)
      → is_insert_typed c ≡ false
      → length (delete_user c stored now auth id db).1.audit_log ≡ length db.audit_log
  unfolding delete_user
  length-delete_user id db refused = elim (Bool-cases (is_admin auth.role)) [
    | inr clerk ↦ rw clerk refl
    | inl boss ↦
        ap length (Logged-refused c stored refused (delete_user-Logged id db boss))
        ∙ length-forget_actor id db.audit_log
  ]
