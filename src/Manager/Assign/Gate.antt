-- ===== src/Manager/Assign/Gate.antt =====
-- The gates of `assign_policy_set` of crates/fw-web/src/routes/deployment.rs.
use mathlib.Core.Path.{subst}
use linux_host_firewall_mana.Prelude.{
  ℕ, ◌+◌, String, ◌≡◌, refl, sym, ap, ◌∙◌, ◌⊎◌, inl, inr, true, false, Option, List, [], ◌∷◌, arith,
  Bool-cases, Result, ok, err,
}
use linux_host_firewall_mana.Prelude.Lists.{All, any, any-append, is_empty}
use linux_host_firewall_mana.Crates.{Crates}
use linux_host_firewall_mana.Policy.{flagged_rule_ids_for_set}
use linux_host_firewall_mana.Policy.Flagged.{IsBroadAllow, OfSet, flagged_rule_ids_for_set-nil_iff}
use linux_host_firewall_mana.Auth.Rbac.{AuthUser, is_admin, can_write, can_access_host}
use linux_host_firewall_mana.Manager.Db.{Assignment, Db}
use linux_host_firewall_mana.Manager.Assign.{
  AppError, AssignRequest, AssignResponse, resolve_host_ids, is_assignment, insert_assignment,
  assign_host, assign_hosts, assigned_response, assign_checked, assign_policy_set,
}

-- The set is assigned to the host.
abbrev pub IsAssigned : ℕ → Db → ℕ → Type 0
IsAssigned set db host = any (is_assignment host set) db.host_policy_assignments ≡ true

module _ (c : Crates) (stored : ℕ → ℕ) (now : ℕ) (ip_text : Option String) (auth : AuthUser) where
  insert-keeps :
      (set host h : ℕ) (rows : List Assignment)
      → any (is_assignment h set) rows ≡ true
      → any (is_assignment h set) (insert_assignment c stored now ip_text auth set host rows).1
        ≡ true
  unfolding insert_assignment
  insert-keeps set host h rows a = ground (
    arith,
    any-append (is_assignment h set) rows (
        record { host_id = host; policy_set_id = set; assigned_by = Option.some auth.user_id }
        ∷ []),
  )

  insert-adds :
      (set host : ℕ) (rows : List Assignment)
      → any (is_assignment host set) (insert_assignment c stored now ip_text auth set host rows).1
        ≡ true
  unfolding insert_assignment
  insert-adds set host rows = ground (
    arith,
    any-append (is_assignment host set) rows (
        record { host_id = host; policy_set_id = set; assigned_by = Option.some auth.user_id }
        ∷ []),
  )

  abbrev run : ℕ → List ℕ → ℕ → Db → Result ℕ AppError × Db
  run = assign_hosts c stored now ip_text auth

  assign_hosts-keeps :
      (set h : ℕ) (hosts : List ℕ) (n : ℕ) (db : Db)
      → IsAssigned set db h
      → IsAssigned set (run set hosts n db).1 h
  unfolding assign_hosts assign_host
  assign_hosts-keeps set h [] n db a = a
  assign_hosts-keeps set h (host ∷ hosts) n db a =
      elim (Bool-cases (can_access_host db.operator_host_groups db.host_groups auth host)) [
        | inl may ↦ rw may (
            assign_hosts-keeps set h hosts _ _
              (insert-keeps set host h db.host_policy_assignments a))
        | inr denied ↦ rw denied a
      ]

  -- A round on a host that the user may act on.
  assign_hosts-cons :
      (set host : ℕ) (hosts : List ℕ) (n : ℕ) (db : Db)
      → can_access_host db.operator_host_groups db.host_groups auth host ≡ true
      → run set (host ∷ hosts) n db
        ≡ run set hosts
            (n + (assign_host c stored now ip_text auth set host db).0)
            (assign_host c stored now ip_text auth set host db).1
  unfolding assign_hosts
  assign_hosts-cons set host hosts n db may = rw may

  assign_hosts-denied :
      (set host : ℕ) (hosts : List ℕ) (n m : ℕ) (db : Db)
      → can_access_host db.operator_host_groups db.host_groups auth host ≡ false
      → ¬ ((run set (host ∷ hosts) n db).0 ≡ ok m)
  unfolding assign_hosts
  assign_hosts-denied set host hosts n m db denied e = ground arith

  assign_hosts_ok :
      (set : ℕ) (hosts : List ℕ) (n m : ℕ) (db : Db)
      → (run set hosts n db).0 ≡ ok m
      → All (λ h. can_access_host db.operator_host_groups db.host_groups auth h ≡ true) hosts
        × All (IsAssigned set (run set hosts n db).1) hosts
  unfolding assign_host
  assign_hosts_ok set [] n m db e = (tt, tt)
  assign_hosts_ok set (host ∷ hosts) n m db e =
      elim (Bool-cases (can_access_host db.operator_host_groups db.host_groups auth host)) [
        | inl may ↦
            let step = assign_hosts-cons set host hosts n db may in
            let next = (assign_host c stored now ip_text auth set host db).1 in
            let (access, written) =
              assign_hosts_ok set hosts _ m next (ap (λ o. o.0) (sym step) ∙ e) in
            let mine =
              assign_hosts-keeps set host hosts _ next
                (insert-adds set host db.host_policy_assignments) in
            (
              (may, access),
              subst
                  (λ (o : Result ℕ AppError × Db).
                    IsAssigned set o.1 host × All (IsAssigned set o.1) hosts)
                  (sym step) (mine, written),
            )
        | inr denied ↦ absurd (assign_hosts-denied set host hosts n m db denied e)
      ]

  response_ok :
      (set : ℕ) (hosts : List ℕ) (out : Result ℕ AppError × Db) (r : AssignResponse)
      → (assigned_response c stored now ip_text auth set hosts out).0 ≡ ok r
      → (n : ℕ) × (out.0 ≡ ok n)
        × (r.host_ids ≡ hosts)
        × ((assigned_response c stored now ip_text auth set hosts out).1 ≡ out.1)
  unfolding assigned_response
  response_ok set hosts (ok n, db) r e = (n, refl, ground arith, refl)
  response_ok set hosts (err f, db) r e = cc

  -- What a success says of the hosts that it names.
  abbrev Settled : ℕ → List ℕ → Db → Db → Type 0
  Settled set hosts db db' =
      All (λ h. can_access_host db.operator_host_groups db.host_groups auth h ≡ true) hosts
      × All (IsAssigned set db') hosts

  assign_checked_ok :
      (req : AssignRequest) (db : Db) (r : AssignResponse)
      → (assign_checked c stored now ip_text auth req db).0 ≡ ok r
      → (r.host_ids ≡ resolve_host_ids db req.host_ids req.group_ids)
        × Settled req.policy_set_id r.host_ids db
            (assign_checked c stored now ip_text auth req db).1
  unfolding assign_checked
  assign_checked_ok req db r e =
      let hosts = resolve_host_ids db req.host_ids req.group_ids in
      elim (Bool-cases (is_empty hosts)) [
        | inl none_selected ↦ cc (none_selected, e)
        | inr selected ↦
            let (n, done, same, out) =
              response_ok req.policy_set_id hosts (run req.policy_set_id hosts 0 db) r
                (rw selected at e) in
            rw selected (same, rw (same, out) (assign_hosts_ok req.policy_set_id hosts 0 n db done))
      ]

  abbrev flagged : AssignRequest → Db → List ℕ
  flagged req db = flagged_rule_ids_for_set db.set_rule_groups db.firewall_rules req.policy_set_id

  nil_of_is_empty : (ids : List ℕ) → is_empty ids ≡ true → ids ≡ []
  nil_of_is_empty [] h = refl
  nil_of_is_empty (x ∷ ids) h = cc

  -- Past the two gates the request is handled by `assign_checked`.
  gates :
      (req : AssignRequest) (db : Db) (r : AssignResponse)
      → (assign_policy_set c stored now ip_text auth req db).0 ≡ ok r
      → (can_write auth.role ≡ true)
        × ((is_admin auth.role ≡ true) ⊎ (is_empty (flagged req db) ≡ true))
        × (assign_policy_set c stored now ip_text auth req db
            ≡ assign_checked c stored now ip_text auth req db)
  unfolding assign_policy_set
  gates req db r e = elim (Bool-cases (can_write auth.role)) [
    | inr reader ↦ cc (reader, e)
    | inl writer ↦ elim (Bool-cases (is_admin auth.role)) [
      | inl boss ↦ (writer, inl boss, rw (writer, boss))
      | inr plain ↦ elim (Bool-cases (is_empty (flagged req db))) [
        | inl clear ↦ (writer, inr clear, rw (writer, plain, clear))
        | inr broad ↦ cc (writer, plain, broad, e)
      ]
    ]
  ]

  -- A successful assignment: the user's role may write; the user is an admin, or no rule of a group
  -- in the set is a broad allow rule; the answer names the requested hosts with those of the
  -- requested groups; the user may act on every one of them; and in the database afterwards the set
  -- is assigned to each.
  pub assign_policy_set_ok :
      (req : AssignRequest) (db : Db) (r : AssignResponse)
      → (assign_policy_set c stored now ip_text auth req db).0 ≡ ok r
      → (can_write auth.role ≡ true)
        × ((is_admin auth.role ≡ true)
            ⊎ OfSet
                (λ rule. ¬ IsBroadAllow rule)
                req.policy_set_id
                db.set_rule_groups
                db.firewall_rules)
        × (r.host_ids ≡ resolve_host_ids db req.host_ids req.group_ids)
        × Settled req.policy_set_id r.host_ids db
            (assign_policy_set c stored now ip_text auth req db).1
  assign_policy_set_ok req db r e =
      let (writer, gate, same) = gates req db r e in
      let (named, settled) = assign_checked_ok req db r (ap (λ o. o.0) (sym same) ∙ e) in
      let narrow =
        flagged_rule_ids_for_set-nil_iff db.set_rule_groups db.firewall_rules req.policy_set_id in
      (
        writer,
        elim gate [ inl boss ↦ inl boss | inr clear ↦ inr (narrow.0 (nil_of_is_empty _ clear)) ],
        named,
        subst
            (λ (o : Result AssignResponse AppError × Db).
              Settled req.policy_set_id r.host_ids db o.1)
            (sym same) settled,
      )
