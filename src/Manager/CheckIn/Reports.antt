-- ===== src/Manager/CheckIn/Reports.antt =====
-- What the agent endpoints of crates/fw-web/src/routes/agent_api.rs write about a host.
use linux_host_firewall_mana.Prelude.{
  ℕ, ◌≡◌, refl, Bool, some, List, [], ◌∷◌, map, nat_eq, eq_iff, if◌then◌else◌, Bool-cases, inl, inr,
}
use linux_host_firewall_mana.Prelude.Lists.{All, keep}
use linux_host_firewall_mana.Crates.{Crates}
use linux_host_firewall_mana.Audit.{is_audit_action, log_event}
use linux_host_firewall_mana.Agent.Os.{CheckInResultRequest}
use linux_host_firewall_mana.Manager.Db.{PendingAction, executed, failed, Db, assigned_set}
use linux_host_firewall_mana.Manager.CheckIn.{
  CheckInRequest, record_check_in, note_out_of_band, expected_hash, check_in, finish_action,
  check_in_result,
}

-- What `finish` makes of a row.
abbrev finished : ℕ → ℕ → Bool → PendingAction → PendingAction
finished now id success a =
    if nat_eq a.id id
    then record a { status = if success then executed else failed; executed_at = some now }
    else a

-- Every action with the id has the status that a report of `success` gives.
abbrev pub IsSettled : ℕ → Bool → List PendingAction → Type 0
IsSettled id success rows =
    All (λ a. a.status ≡ (if success then executed else failed)) (keep (λ a. nat_eq a.id id) rows)

settled :
    (now id : ℕ) (success : Bool) (rows : List PendingAction)
    → IsSettled id success (map (finished now id success) rows)
settled now id success [] = tt
settled now id success (a ∷ rows) = elim (Bool-cases (nat_eq a.id id)) [
  | inl mine ↦ rw (mine, mine) (refl, settled now id success rows)
  | inr other ↦ rw (other, other) (settled now id success rows)
]

module _ (c : Crates) (stored : ℕ → ℕ) (now : ℕ) where
  -- A report on an action, by any host, settles every action with that id, whichever host the action
  -- is queued for: executed on success and failed otherwise.
  pub check_in_result-settles :
      (host id : ℕ) (req : CheckInResultRequest) (db : Db)
      → req.action_id ≡ some id
      → IsSettled id req.success (check_in_result c stored now host req db).pending_actions
  unfolding check_in_result finish_action
  check_in_result-settles host id req db given =
      rw given (settled now id req.success db.pending_actions)

  -- A check-in with the expected hash leaves the audit log as it was, also when it reports local
  -- drift.
  pub check_in-unlogged :
      (host : ℕ) (req : CheckInRequest) (db : Db)
      → req.rules_hash
        ≡ expected_hash c stored now db (assigned_set host db.host_policy_assignments)
      → (check_in c stored now host req db).1.audit_log ≡ db.audit_log
  unfolding check_in record_check_in note_out_of_band log_event is_audit_action
  check_in-unlogged host req db same =
      let test = (eq_iff req.rules_hash _).1 same in
      elim (Bool-cases req.local_drift) [
        | inl drifted ↦ rw (test, drifted) refl
        | inr calm ↦ rw (test, calm) refl
      ]
