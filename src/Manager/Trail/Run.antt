-- ===== src/Manager/Trail/Run.antt =====
-- A run of the manager: handlers of crates/fw-web/src/routes one after the other, and what it leaves
-- of the audit log.
use linux_host_firewall_mana.Prelude.{
  ℕ, String, ◌≡◌, refl, ap, ◌∙◌, false, Option, List, [], ◌∷◌, Result,
}
use linux_host_firewall_mana.Prelude.Int.{ℤ}
use linux_host_firewall_mana.Crates.{Crates, SerdeJson, Rcgen, Argon2, PostgresLaws}
use linux_host_firewall_mana.Audit.{AuditRow, is_insert_typed}
use linux_host_firewall_mana.Audit.Anchor.{AuditAnchor, anchor_chain}
use linux_host_firewall_mana.Prelude.Lists.{length}
use linux_host_firewall_mana.Auth.Rbac.{AuthUser, AuthConfig}
use linux_host_firewall_mana.Auth.Password.{CharClasses}
use linux_host_firewall_mana.Ca.{CertificateAuthority}
use linux_host_firewall_mana.Agent.Os.{CheckInResultRequest}
use linux_host_firewall_mana.Manager.Db.{Db}
use linux_host_firewall_mana.Manager.CheckIn.{CheckInRequest, check_in, check_in_result}
use linux_host_firewall_mana.Manager.Assign.{AssignRequest, assign_policy_set, unassign_policy_set}
use linux_host_firewall_mana.Manager.Enrollment.{
  SubmitEnrollmentRequest, CreateTokenRequest, submit_enrollment, poll_enrollment_status,
  deny_enrollment, create_token, revoke_token,
}
use linux_host_firewall_mana.Manager.Enrollment.Approve.{Draws, approve_enrollment}
use linux_host_firewall_mana.Manager.Login.{
  LoginDraws, LoginRequest, login, refresh_token, logout, change_password,
}
use linux_host_firewall_mana.Manager.Users.{
  CreateUserRequest, UpdateUserRequest, create_user, update_user, delete_user, revoke_cert,
}
use linux_host_firewall_mana.Manager.Settings.{
  UpdateSettingsRequest, NetText, update_settings, update_config, put_ip_whitelist,
  put_trusted_proxies,
}
use linux_host_firewall_mana.Manager.Stale.{detect_stale_agents}
use linux_host_firewall_mana.Manager.Rules.{UpdateRuleRequest, update_rule, delete_rule}
use linux_host_firewall_mana.Manager.RuleGroups.{
  CreateRuleInGroupRequest, create_rule_in_group, reorder_group_rules, create_rule_group,
  update_rule_group, delete_rule_group,
}
use linux_host_firewall_mana.Manager.PolicySets.{
  CreatePolicySetRequest, UpdatePolicySetRequest, create_policy_set, update_policy_set,
  delete_policy_set, add_group_to_set, remove_group_from_set, reorder_groups,
}
use linux_host_firewall_mana.Manager.Hosts.{
  delete_host, assign_one, unassign_one, update_host, add_protected_cidr, create_group,
  delete_group, add_host_to_group, remove_host_from_group,
}
use linux_host_firewall_mana.Manager.Trail.{Logged, Logged-refused}
use linux_host_firewall_mana.Manager.Trail.Others.{
  update_config-Extends, put_ip_whitelist-Extends, put_trusted_proxies-Extends,
  change_password-Extends, update_host-Extends, add_protected_cidr-Extends, create_group-Extends,
  delete_group-Extends, add_host_to_group-Extends, remove_host_from_group-Extends,
  length-delete_user,
}
use linux_host_firewall_mana.Manager.Trail.Enroll.{
  submit_enrollment-Extends, poll_enrollment_status-Extends, deny_enrollment-Extends,
  create_token-Extends, revoke_token-Extends, approve_enrollment-Extends,
}
use linux_host_firewall_mana.Manager.Trail.Accounts.{
  login-Extends, refresh_token-Extends, logout-Extends, create_user-Extends, update_user-Extends,
  revoke_cert-Extends, update_settings-Extends,
}
use linux_host_firewall_mana.Manager.Trail.Rules.{
  update_rule-Extends, delete_rule-Extends, create_rule_in_group-Extends,
  reorder_group_rules-Extends, create_rule_group-Extends, update_rule_group-Extends,
  delete_rule_group-Extends, create_policy_set-Extends, update_policy_set-Extends,
  delete_policy_set-Extends, add_group_to_set-Extends, remove_group_from_set-Extends,
  reorder_groups-Extends,
}
use linux_host_firewall_mana.Manager.Trail.Deploy.{
  check_in-Extends, check_in_result-Extends, assign_policy_set-Extends, unassign_policy_set-Extends,
  delete_host-Extends, assign_one-Extends, unassign_one-Extends,
}

nil_of_length : (rows : List AuditRow) → length rows ≡ 0 → rows ≡ []
nil_of_length [] h = refl
nil_of_length (row ∷ rows) h = cc

-- The third-party code, the signing authority and the token signer are the same along a run.
module _ (c : Crates) (j : SerdeJson) (a : Argon2) (classes : CharClasses) (x : Rcgen)
    (ca : CertificateAuthority x) (issue : ℕ → String → String → String → Result String String)
    (n : NetText c) (stored : ℕ → ℕ) where
  -- One request, or one round of the worker that refreshes the hosts' health: its clock, its user, its
  -- random values and its body are any.
  pub data Step : Db → Db → Type 0 where
    submits :
        (now id : ℕ) (polling_token : String) (req : SubmitEnrollmentRequest) (db : Db)
        → Step db (submit_enrollment c stored now id polling_token req db).1
    polls :
        (now : ℕ) (token : String) (db : Db)
        → Step db (poll_enrollment_status c stored now token db).1
    denies :
        (now : ℕ) (auth : AuthUser) (id : ℕ) (db : Db)
        → Step db (deny_enrollment c stored now auth id db).1
    issues_token :
        (now : ℕ) (auth : AuthUser) (token : String) (req : CreateTokenRequest) (db : Db)
        → Step db (create_token c stored now auth token req db).1
    revokes_token :
        (now : ℕ) (auth : AuthUser) (hash : String) (db : Db)
        → Step db (revoke_token c stored now auth hash db).1
    approves :
        (now : ℕ) (auth : AuthUser) (d : Draws) (id : ℕ) (db : Db)
        → Step db (approve_enrollment c j x ca stored now auth d id db).1
    logs_in :
        (now : ℕ) (d : LoginDraws) (req : LoginRequest) (db : Db)
        → Step db (login c a stored now issue d req db).1
    refreshes :
        (now : ℕ) (d : LoginDraws) (token : String) (db : Db)
        → Step db (refresh_token c a stored now issue d token db).1
    logs_out :
        (now : ℕ) (d : LoginDraws) (auth : AuthUser) (token : String) (db : Db)
        → Step db (logout c a stored now issue d auth token db).1
    creates_user :
        (now : ℕ) (auth : AuthUser) (id : ℕ) (salt : String) (req : CreateUserRequest) (db : Db)
        → Step db (create_user c stored now auth classes a id salt req db).1
    updates_user :
        (now : ℕ) (auth : AuthUser) (id : ℕ) (req : UpdateUserRequest) (db : Db)
        → Step db (update_user c stored now auth id req db).1
    revokes_cert :
        (now : ℕ) (auth : AuthUser) (id : ℕ) (db : Db)
        → Step db (revoke_cert c stored now auth id db).1
    updates_settings :
        (now : ℕ) (auth : AuthUser) (req : UpdateSettingsRequest j) (db : Db)
        → Step db (update_settings j c stored now auth req db).1
    updates_rule :
        (now : ℕ) (auth : AuthUser) (id : ℕ) (req : UpdateRuleRequest) (db : Db)
        → Step db (update_rule c stored now auth id req db).1
    deletes_rule :
        (now : ℕ) (auth : AuthUser) (id : ℕ) (db : Db)
        → Step db (delete_rule c stored now auth id db).1
    creates_rule :
        (now : ℕ) (auth : AuthUser) (id group : ℕ) (req : CreateRuleInGroupRequest) (db : Db)
        → Step db (create_rule_in_group c stored now auth id group req db).1
    reorders_rules :
        (now : ℕ) (auth : AuthUser) (group : ℕ) (ids : List ℕ) (db : Db)
        → Step db (reorder_group_rules c stored now auth group ids db).1
    creates_group :
        (now : ℕ) (auth : AuthUser) (id : ℕ) (name : String) (text : Option String) (db : Db)
        → Step db (create_rule_group c stored now auth id name text db).1
    updates_group :
        (now : ℕ) (auth : AuthUser) (id : ℕ) (name text : Option String) (db : Db)
        → Step db (update_rule_group c stored now auth id name text db).1
    deletes_group :
        (now : ℕ) (auth : AuthUser) (id : ℕ) (db : Db)
        → Step db (delete_rule_group c stored now auth id db).1
    creates_set :
        (now : ℕ) (auth : AuthUser) (id : ℕ) (req : CreatePolicySetRequest) (db : Db)
        → Step db (create_policy_set c stored now auth id req db).1
    updates_set :
        (now : ℕ) (auth : AuthUser) (id : ℕ) (req : UpdatePolicySetRequest) (db : Db)
        → Step db (update_policy_set c stored now auth id req db).1
    deletes_set :
        (now : ℕ) (auth : AuthUser) (id : ℕ) (db : Db)
        → Step db (delete_policy_set c stored now auth id db).1
    includes_group :
        (now : ℕ) (auth : AuthUser) (id group : ℕ) (order : Option ℤ) (db : Db)
        → Step db (add_group_to_set c stored now auth id group order db).1
    removes_group :
        (now : ℕ) (auth : AuthUser) (id group : ℕ) (db : Db)
        → Step db (remove_group_from_set c stored now auth id group db).1
    reorders_groups :
        (now : ℕ) (auth : AuthUser) (id : ℕ) (groups : List ℕ) (db : Db)
        → Step db (reorder_groups c stored now auth id groups db).1
    deletes_host :
        (now : ℕ) (auth : AuthUser) (id : ℕ) (db : Db)
        → Step db (delete_host c stored now auth id db).1
    assigns_one :
        (now : ℕ) (auth : AuthUser) (host set : ℕ) (db : Db)
        → Step db (assign_one c stored now auth host set db).1
    unassigns_one :
        (now : ℕ) (auth : AuthUser) (host set : ℕ) (db : Db)
        → Step db (unassign_one c stored now auth host set db).1
    assigns :
        (now : ℕ) (ip : Option String) (auth : AuthUser) (req : AssignRequest) (db : Db)
        → Step db (assign_policy_set c stored now ip auth req db).1
    unassigns :
        (now : ℕ) (ip : Option String) (auth : AuthUser) (req : AssignRequest) (db : Db)
        → Step db (unassign_policy_set c stored now ip auth req db).1
    checks_in :
        (now host : ℕ) (req : CheckInRequest) (db : Db)
        → Step db (check_in c stored now host req db).1
    reports :
        (now host : ℕ) (req : CheckInResultRequest) (db : Db)
        → Step db (check_in_result c stored now host req db)
    deletes_user :
        (now : ℕ) (auth : AuthUser) (id : ℕ) (db : Db)
        → Step db (delete_user c stored now auth id db).1
    updates_config :
        (now : ℕ) (auth : AuthUser) (section : String) (db : Db)
        → Step db (update_config j c stored now section auth db).1
    puts_ip_whitelist :
        (now : ℕ) (auth : AuthUser) (entries : List String) (db : Db) (live : AuthConfig c)
        → Step db (put_ip_whitelist c n j stored now auth entries (db, live)).1.0
    puts_trusted_proxies :
        (now : ℕ) (auth : AuthUser) (entries : List String) (db : Db) (live : AuthConfig c)
        → Step db (put_trusted_proxies c n j stored now auth entries (db, live)).1.0
    changes_password :
        (now : ℕ) (auth : AuthUser) (salt old new : String) (db : Db)
        → Step db (change_password c a stored now issue classes salt auth old new db).1
    updates_host :
        (auth : AuthUser) (id : ℕ) (name notes : Option String) (db : Db)
        → Step db (update_host auth id name notes db).1
    protects :
        (auth : AuthUser) (id : ℕ) (cidr : String) (label : Option String) (db : Db)
        → Step db (add_protected_cidr c auth id cidr label db).1
    creates_host_group :
        (auth : AuthUser) (id : ℕ) (name : String) (text : Option String) (db : Db)
        → Step db (create_group auth id name text db).1
    deletes_host_group : (auth : AuthUser) (id : ℕ) (db : Db) → Step db (delete_group auth id db).1
    adds_host :
        (auth : AuthUser) (group host : ℕ) (db : Db)
        → Step db (add_host_to_group auth group host db).1
    removes_host :
        (auth : AuthUser) (group host : ℕ) (db : Db)
        → Step db (remove_host_from_group auth group host db).1
    detects_stale : (now : ℕ) (db : Db) → Step db (detect_stale_agents now db)

  pub data Run (start : Db) : Db → Type 0 where
    idle : Run start start
    handles : {db db' : Db} → Run start db → Step db db' → Run start db'

  kept :
      {l m : List AuditRow} → is_insert_typed c ≡ false → Logged c stored l m → length m ≡ length l
  kept refused e = ap length (Logged-refused c stored refused e)

  length-Step :
      {db db' : Db}
      → is_insert_typed c ≡ false
      → Step db db'
      → length db'.audit_log ≡ length db.audit_log
  unfolding detect_stale_agents
  length-Step refused (submits now id polling_token req db) =
      kept refused (submit_enrollment-Extends c stored now id polling_token req db)
  length-Step refused (polls now token db) =
      kept refused (poll_enrollment_status-Extends c stored now token db)
  length-Step refused (denies now auth id db) =
      kept refused (deny_enrollment-Extends c stored now auth id db)
  length-Step refused (issues_token now auth token req db) =
      kept refused (create_token-Extends c stored now auth token req db)
  length-Step refused (revokes_token now auth hash db) =
      kept refused (revoke_token-Extends c stored now auth hash db)
  length-Step refused (approves now auth d id db) =
      kept refused (approve_enrollment-Extends c stored now j x ca auth d id db)
  length-Step refused (logs_in now d req db) =
      kept refused (login-Extends c a stored now issue d req db)
  length-Step refused (refreshes now d token db) =
      kept refused (refresh_token-Extends c a stored now issue d token db)
  length-Step refused (logs_out now d auth token db) =
      kept refused (logout-Extends c a stored now issue d auth token db)
  length-Step refused (creates_user now auth id salt req db) =
      kept refused (create_user-Extends c a classes stored now auth id salt req db)
  length-Step refused (updates_user now auth id req db) =
      kept refused (update_user-Extends c a classes stored now auth id req db)
  length-Step refused (revokes_cert now auth id db) =
      kept refused (revoke_cert-Extends c a classes stored now auth id db)
  length-Step refused (updates_settings now auth req db) =
      kept refused (update_settings-Extends j c stored now auth req db)
  length-Step refused (updates_rule now auth id req db) =
      kept refused (update_rule-Extends c stored now auth id req db)
  length-Step refused (deletes_rule now auth id db) =
      kept refused (delete_rule-Extends c stored now auth id db)
  length-Step refused (creates_rule now auth id group req db) =
      kept refused (create_rule_in_group-Extends c stored now auth id group req db)
  length-Step refused (reorders_rules now auth group ids db) =
      kept refused (reorder_group_rules-Extends c stored now auth group ids db)
  length-Step refused (creates_group now auth id name text db) =
      kept refused (create_rule_group-Extends c stored now auth id name text db)
  length-Step refused (updates_group now auth id name text db) =
      kept refused (update_rule_group-Extends c stored now auth id name text db)
  length-Step refused (deletes_group now auth id db) =
      kept refused (delete_rule_group-Extends c stored now auth id db)
  length-Step refused (creates_set now auth id req db) =
      kept refused (create_policy_set-Extends c stored now auth id req db)
  length-Step refused (updates_set now auth id req db) =
      kept refused (update_policy_set-Extends c stored now auth id req db)
  length-Step refused (deletes_set now auth id db) =
      kept refused (delete_policy_set-Extends c stored now auth id db)
  length-Step refused (includes_group now auth id group order db) =
      kept refused (add_group_to_set-Extends c stored now auth id group order db)
  length-Step refused (removes_group now auth id group db) =
      kept refused (remove_group_from_set-Extends c stored now auth id group db)
  length-Step refused (reorders_groups now auth id groups db) =
      kept refused (reorder_groups-Extends c stored now auth id groups db)
  length-Step refused (deletes_host now auth id db) =
      kept refused (delete_host-Extends c stored now auth id db)
  length-Step refused (assigns_one now auth host set db) =
      kept refused (assign_one-Extends c stored now auth host set db)
  length-Step refused (unassigns_one now auth host set db) =
      kept refused (unassign_one-Extends c stored now auth host set db)
  length-Step refused (assigns now ip auth req db) =
      kept refused (assign_policy_set-Extends c stored now ip auth req db)
  length-Step refused (unassigns now ip auth req db) =
      kept refused (unassign_policy_set-Extends c stored now ip auth req db)
  length-Step refused (checks_in now host req db) =
      kept refused (check_in-Extends c stored now host req db)
  length-Step refused (reports now host req db) =
      kept refused (check_in_result-Extends c stored now host req db)
  length-Step refused (updates_config now auth section db) =
      kept refused (update_config-Extends c stored now auth j section db)
  length-Step refused (puts_ip_whitelist now auth entries db live) =
      kept refused (put_ip_whitelist-Extends c stored now auth n j entries db live)
  length-Step refused (puts_trusted_proxies now auth entries db live) =
      kept refused (put_trusted_proxies-Extends c stored now auth n j entries db live)
  length-Step refused (changes_password now auth salt old new db) =
      kept refused (change_password-Extends c stored now auth a issue classes salt old new db)
  length-Step refused (updates_host auth id name notes db) =
      kept refused (update_host-Extends c stored 0 auth id name notes db)
  length-Step refused (protects auth id cidr label db) =
      kept refused (add_protected_cidr-Extends c stored 0 auth id cidr label db)
  length-Step refused (creates_host_group auth id name text db) =
      kept refused (create_group-Extends c stored 0 auth id name text db)
  length-Step refused (deletes_host_group auth id db) =
      kept refused (delete_group-Extends c stored 0 auth id db)
  length-Step refused (adds_host auth group host db) =
      kept refused (add_host_to_group-Extends c stored 0 auth group host db)
  length-Step refused (removes_host auth group host db) =
      kept refused (remove_host_from_group-Extends c stored 0 auth group host db)
  length-Step refused (deletes_user now auth id db) =
      length-delete_user c stored now auth id db refused
  length-Step refused (detects_stale now db) = refl

  length-Run :
      {db db' : Db}
      → is_insert_typed c ≡ false
      → Run db db'
      → length db'.audit_log ≡ length db.audit_log
  length-Run refused idle = refl
  length-Run refused (handles run step) = length-Step refused step ∙ length-Run refused run

  -- The audit log records nothing: along any sequence of the requests and worker rounds of `Step`, by
  -- whichever users, with whatever bodies and at whatever times, the log keeps its number of rows, and
  -- a log that is empty at the start gives the worker nothing to anchor at the end.
  pub Run-unrecorded :
      {db db' : Db} (id now : ℕ) (anchors : List AuditAnchor)
      → PostgresLaws c.postgres
      → Run db db'
      → (length db'.audit_log ≡ length db.audit_log)
        × (db.audit_log ≡ [] → anchor_chain id now db'.audit_log anchors ≡ anchors)
  unfolding anchor_chain is_insert_typed
  Run-unrecorded {db} {db'} id now anchors laws run =
      let refused : is_insert_typed c ≡ false = rw (is_insert_typed, laws.no_jsonb) refl in
      let e = length-Run refused run in
      (e, λ empty. rw (nil_of_length db'.audit_log (e ∙ ap length empty)) refl)
