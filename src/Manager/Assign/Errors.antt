-- ===== src/Manager/Assign/Errors.antt =====
-- The errors of `assign_policy_set` of crates/fw-web/src/routes/deployment.rs.
use linux_host_firewall_mana.Prelude.{
  ℕ, String, ◌≡◌, refl, ◌⊎◌, inl, inr, Option, List, [], ◌∷◌, Bool-cases, Result, ok, err,
}
use linux_host_firewall_mana.Prelude.Lists.{is_empty}
use linux_host_firewall_mana.Crates.{Crates}
use linux_host_firewall_mana.Policy.{flagged_rule_ids_for_set}
use linux_host_firewall_mana.Auth.Rbac.{AuthUser, is_admin, can_write, can_access_host}
use linux_host_firewall_mana.Manager.Db.{Db}
use linux_host_firewall_mana.Manager.Assign.{
  AppError, forbidden, conflict, bad_request, AssignRequest, AssignResponse, resolve_host_ids,
  no_access, assign_hosts, assigned_response, assign_checked, assign_policy_set,
}

module _ (c : Crates) (stored : ℕ → ℕ) (now : ℕ) (ip_text : Option String) (auth : AuthUser) where
  -- A success, or a refusal of access.
  abbrev Ended : Result ℕ AppError → Type 0
  Ended o = ((n : ℕ) × (o ≡ ok n)) ⊎ ((m : String) × (o ≡ err (forbidden m)))

  assign_hosts-Ended :
      (set : ℕ) (hosts : List ℕ) (n : ℕ) (db : Db)
      → Ended (assign_hosts c stored now ip_text auth set hosts n db).0
  unfolding assign_hosts no_access
  assign_hosts-Ended set [] n db = inl (n, refl)
  assign_hosts-Ended set (host ∷ hosts) n db =
      elim (Bool-cases (can_access_host db.operator_host_groups db.host_groups auth host)) [
        | inl may ↦ rw may (assign_hosts-Ended set hosts _ _)
        | inr denied ↦ rw denied (inr (_, refl))
      ]

  -- The answer, unless the database is unchanged, is a success or a refusal of access.
  abbrev Settled : Db → Result AssignResponse AppError × Db → Type 0
  Settled db out =
      (out.1 ≡ db)
      ⊎ (((r : AssignResponse) × (out.0 ≡ ok r)) ⊎ ((m : String) × (out.0 ≡ err (forbidden m))))

  response-Settled :
      (set : ℕ) (hosts : List ℕ) (db : Db) (out : Result ℕ AppError × Db)
      → Ended out.0
      → Settled db (assigned_response c stored now ip_text auth set hosts out)
  unfolding assigned_response
  response-Settled set hosts db (ok n, db') h = inr (inl (_, refl))
  response-Settled set hosts db (err e, db') (inl (n, h)) = cc
  response-Settled set hosts db (err e, db') (inr (m, h)) = inr (inr (m, cc (h)))

  checked-Settled :
      (req : AssignRequest) (db : Db) → Settled db (assign_checked c stored now ip_text auth req db)
  unfolding assign_checked
  checked-Settled req db =
      let hosts = resolve_host_ids db req.host_ids req.group_ids in
      elim (Bool-cases (is_empty hosts)) [
        | inl blank ↦ rw blank (inl refl)
        | inr selected ↦ rw selected (
            response-Settled req.policy_set_id hosts db _
              (assign_hosts-Ended req.policy_set_id hosts 0 db))
      ]

  request-Settled :
      (req : AssignRequest) (db : Db)
      → Settled db (assign_policy_set c stored now ip_text auth req db)
  unfolding assign_policy_set
  request-Settled req db = elim (Bool-cases (can_write auth.role)) [
    | inr reader ↦ rw reader (inl refl)
    | inl writer ↦ elim (Bool-cases (is_admin auth.role)) [
      | inl boss ↦ rw (writer, boss) (checked-Settled req db)
      | inr plain ↦
          elim (Bool-cases (
            is_empty
              (flagged_rule_ids_for_set db.set_rule_groups db.firewall_rules req.policy_set_id))) [
                | inl clear ↦ rw (writer, plain, clear) (checked-Settled req db)
                | inr broad ↦ rw (writer, plain, broad) (inl refl)
              ]
    ]
  ]

  -- A request that is answered with a conflict, for its flagged rules, or as a bad request, for
  -- naming no host, has changed nothing in the database: no assignment and no audit entry.
  pub assign_policy_set_err :
      (req : AssignRequest) (db : Db) (m : String)
      → ((assign_policy_set c stored now ip_text auth req db).0 ≡ err (conflict m))
        ⊎ ((assign_policy_set c stored now ip_text auth req db).0 ≡ err (bad_request m))
      → (assign_policy_set c stored now ip_text auth req db).1 ≡ db
  assign_policy_set_err req db m failure = elim (request-Settled req db) [
    | inl same ↦ same
    | inr (inl (r, done)) ↦ elim failure [ inl e ↦ cc (done, e) | inr e ↦ cc (done, e) ]
    | inr (inr (w, refused)) ↦ elim failure [ inl e ↦ cc (refused, e) | inr e ↦ cc (refused, e) ]
  ]
