-- ===== src/Agent/Cycle/Keeps.antt =====
-- What the agent has saved after a cycle of crates/fw-agent/src/pull_loop.rs that applied a ruleset.
use linux_host_firewall_mana.Prelude.{
  ℕ, String, ◌≡◌, refl, ap, ◌∙◌, inl, inr, Bool, true, false, Option, none, some, List, [], ◌∷◌,
  map, arith, Bool-cases, Result, ok, err,
}
use linux_host_firewall_mana.Prelude.Lists.{is_empty}
use linux_host_firewall_mana.Crates.{Crates}
use linux_host_firewall_mana.Agent.Os.{Event, Env}
use linux_host_firewall_mana.Agent.Backend.{FirewallBackend}
use linux_host_firewall_mana.Agent.State.{LastDefaults, Agent}
use linux_host_firewall_mana.Agent.SafeMode.{
  record_manager_contact, save_last_defaults, save_expected_hash,
}
use linux_host_firewall_mana.Agent.Replay.{already_executed, record_executed}
use linux_host_firewall_mana.Agent.Wire.{PendingActionDto, CheckInResponse, dto_to_rule}
use linux_host_firewall_mana.Agent.Apply.{apply_rules_from_dto, execute_pending_action}
use linux_host_firewall_mana.Agent.Apply.Gate.{last_good_path, apply_rules_saves}
use linux_host_firewall_mana.Agent.Cycle.{
  update_config, report, defaults_of, context, endpoint_or_empty, apply_step, after_apply, remember,
  pending_action, pending_actions, after_check_in,
}

module _ (c : Crates) (e : Env) (backend : FirewallBackend) where
  execute-disk :
      (action : PendingActionDto) (s : Agent)
      → (execute_pending_action backend action s).1.disk ≡ s.disk
  unfolding execute_pending_action
  execute-disk action s = ground arith

  remember-last_good :
      (id : String) (o : Bool × Option String) (s : Agent)
      → (remember c e backend id o s).1.disk.last_good ≡ s.disk.last_good
  unfolding remember record_executed
  remember-last_good id (success, message) s = ground arith

  pending_action-last_good :
      (host_id : ℕ) (live_hash : String) (action : PendingActionDto) (s : Agent)
      → (pending_action c e backend host_id live_hash action s).1.disk.last_good ≡ s.disk.last_good
  unfolding pending_action report
  pending_action-last_good host_id live_hash action s =
      elim (Bool-cases (already_executed (c.uuid_string action.id) s.disk)) [
        | inl seen ↦ rw seen refl
        | inr fresh ↦ rw fresh (
            remember-last_good _ (execute_pending_action backend action s).0
              (execute_pending_action backend action s).1
            ∙ ap (λ d. d.last_good) (execute-disk action s))
      ]

  pending_actions-last_good :
      (host_id : ℕ) (live_hash : String) (actions : List PendingActionDto) (s : Agent)
      → (pending_actions c e backend host_id live_hash actions s).1.disk.last_good
        ≡ s.disk.last_good
  unfolding pending_actions
  pending_actions-last_good host_id live_hash [] s = refl
  pending_actions-last_good host_id live_hash (action ∷ actions) s =
      pending_actions-last_good host_id live_hash actions _
      ∙ pending_action-last_good host_id live_hash action s

  after_apply-last_good :
      (host_id : ℕ) (live_hash : String) (o : Option (Result String String) × LastDefaults)
      (s : Agent)
      → (after_apply c e backend host_id live_hash o s).1.disk.last_good ≡ s.disk.last_good
  unfolding after_apply save_expected_hash save_last_defaults report
  after_apply-last_good host_id live_hash (none, d) s = refl
  after_apply-last_good host_id live_hash (some (err f), d) s = refl
  after_apply-last_good host_id live_hash (some (ok h), d) s = ground arith

  -- The agent once the contact and the new configuration are noted.
  abbrev pub configured : CheckInResponse → Agent → Agent
  configured r s = (update_config e r.config (record_manager_contact e s).1).1

  -- The apply of the cycle.
  abbrev pub applied : CheckInResponse → Agent → Result String String × Agent
  applied r s =
      let s' = configured r s in
      apply_rules_from_dto c e backend r.rules s'.config.protected_cidrs
        (context (endpoint_or_empty c e backend s') (defaults_of r)) s'

  step_lem :
      (r : CheckInResponse) (drift : Bool) (s : Agent)
      → r.rules_changed ≡ true
      → is_empty r.rules ≡ false
      → (apply_step c e backend r drift (configured r s)).1 ≡ (applied r s).1
  unfolding apply_step
  step_lem r drift s changed listed = rw (listed, changed) refl

  applied_lem :
      (r : CheckInResponse) (s : Agent) (hash : String)
      → (applied r s).0 ≡ ok hash
      → ((h : List Event) → e.writable h last_good_path ≡ true)
      → (applied r s).1.disk.last_good
        ≡ some (map (dto_to_rule (e.now_utc (configured r s).history)) r.rules)
  unfolding apply_rules_from_dto
  applied_lem r s hash done free =
      ap (λ a. a.disk.last_good) (apply_rules_saves c e backend _ _ _ _ hash done free)

  -- A check-in whose answer changes the rules and lists some, with an apply that succeeds and a
  -- ruleset file that can be written: after the whole rest of the cycle, pending actions included, the
  -- saved ruleset is what the answer listed.
  pub after_check_in-saves :
      (host_id : ℕ) (live_hash : String) (drift : Bool) (r : CheckInResponse) (s : Agent)
      (hash : String)
      → r.rules_changed ≡ true
      → is_empty r.rules ≡ false
      → (applied r s).0 ≡ ok hash
      → ((h : List Event) → e.writable h last_good_path ≡ true)
      → (after_check_in c e backend host_id live_hash drift r s).1.disk.last_good
        ≡ some (map (dto_to_rule (e.now_utc (configured r s).history)) r.rules)
  unfolding after_check_in
  after_check_in-saves host_id live_hash drift r s hash changed listed done free =
      pending_actions-last_good host_id live_hash r.pending_actions _
      ∙ (after_apply-last_good host_id live_hash _ _
          ∙ (ap (λ a. a.disk.last_good) (step_lem r drift s changed listed)
              ∙ applied_lem r s hash done free))
