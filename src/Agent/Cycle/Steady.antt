-- ===== src/Agent/Cycle/Steady.antt =====
-- The quiet branches of a pull cycle, and the pending actions, of crates/fw-agent/src/pull_loop.rs.
use linux_host_firewall_mana.Prelude.{
  ℕ, String, ◌≡◌, refl, ◌⊎◌, inl, inr, true, false, ◌||◌, none, [], ◌∷◌, ◌==◌, ltb, arith,
  Bool-cases,
}
use linux_host_firewall_mana.Prelude.Lists.{is_empty}
use linux_host_firewall_mana.Crates.{Crates}
use linux_host_firewall_mana.Agent.Os.{Env, report_result}
use linux_host_firewall_mana.Agent.Backend.{FirewallBackend}
use linux_host_firewall_mana.Agent.State.{Agent}
use linux_host_firewall_mana.Agent.SafeMode.{record_manager_contact, check, check_at, elapsed_secs}
use linux_host_firewall_mana.Agent.Replay.{already_executed}
use linux_host_firewall_mana.Agent.Wire.{PendingActionDto, CheckInResponse}
use linux_host_firewall_mana.Agent.Apply.{execute_pending_action}
use linux_host_firewall_mana.Agent.Cycle.{
  update_config, report, cached_defaults, defaults_changed, apply_step, after_apply, action_report,
  pending_action, pending_actions, after_check_in, unreachable,
}

module _ (c : Crates) (e : Env) (backend : FirewallBackend) where
  apply_step-quiet :
      (r : CheckInResponse) (s : Agent)
      → r.rules_changed ≡ false
      → defaults_changed (cached_defaults s) r ≡ false
      → apply_step c e backend r false s ≡ ((none, cached_defaults s), s)
  unfolding apply_step
  apply_step-quiet r s same kept = elim (Bool-cases (is_empty r.rules)) [
    | inl blank ↦ rw blank refl
    | inr listed ↦ rw (listed, same, kept) refl
  ]

  -- A manager that answers that nothing changed, with the cached default policies, no configuration
  -- and no action, to an agent without local drift: the contact is noted in the safe-mode timer and
  -- nothing else changes. No command runs, no report is sent and no file is written.
  pub after_check_in-steady :
      (host_id : ℕ) (live_hash : String) (r : CheckInResponse) (s : Agent)
      → r.rules_changed ≡ false
      → defaults_changed (cached_defaults s) r ≡ false
      → r.config ≡ none
      → r.pending_actions ≡ []
      → (after_check_in c e backend host_id live_hash false r s).1 ≡ (record_manager_contact e s).1
  unfolding after_check_in update_config after_apply pending_actions record_manager_contact
      apply_step
  after_check_in-steady host_id live_hash r s same kept plain none_due =
      let contacted = (record_manager_contact e s).1 in
      simp (plain, none_due, apply_step-quiet r contacted same kept)

  -- A pending action that the replay cache holds: the only effect is one report of success, and
  -- nothing is executed.
  pub pending_action-replayed :
      (host_id : ℕ) (live_hash : String) (action : PendingActionDto) (s : Agent)
      → already_executed (c.uuid_string action.id) s.disk ≡ true
      → (pending_action c e backend host_id live_hash action s).1 ≡ record s {
        history =
            report_result (action_report c e backend host_id live_hash action (true, none))
            ∷ s.history;
      }
  unfolding pending_action report
  pending_action-replayed host_id live_hash action s seen = rw seen refl

  -- An action of any type but "rollback" does nothing to the agent or the host. It is acknowledged as
  -- a success exactly for the other five known types.
  pub execute_pending_action-inert :
      (action : PendingActionDto) (s : Agent)
      → (action.action_type == "rollback") ≡ false
      → ((execute_pending_action backend action s).1 ≡ s)
        × ((execute_pending_action backend action s).0.0
            ≡ (action.action_type == "safe_mode_on")
              || ((action.action_type == "safe_mode_off")
                  || ((action.action_type == "reload_config")
                      || ((action.action_type == "agent_upgrade")
                          || (action.action_type == "apply_rules")))))
  unfolding execute_pending_action
  execute_pending_action-inert action s other = (ground arith, ground arith)

  -- A check-in that fails before the safe-mode timeout is over, or with safe mode off, changes
  -- nothing: the ruleset that is in force stays.
  pub unreachable-waits :
      (s : Agent)
      → (s.config.safe_mode_enabled ≡ false)
        ⊎ (ltb s.safe_mode.timeout_secs
              (elapsed_secs (e.seconds s.history) s.safe_mode.last_manager_contact)
            ≡ false)
      → (unreachable c e backend s).1 ≡ s
  unfolding unreachable check check_at
  unreachable-waits s (inl off) = rw off refl
  unreachable-waits s (inr early) = elim (Bool-cases s.config.safe_mode_enabled) [
    | inl on ↦ rw (on, early) refl
    | inr off ↦ rw off refl
  ]
