-- ===== src/Agent/SafeMode.antt =====
-- crates/fw-agent/src/safe_mode.rs and drift.rs: the safe-mode timer, and the cached files that a
-- revert, a self-heal and drift detection read.
use linux_host_firewall_mana.Prelude.{
  ℕ, ◌-◌, String, Bool, true, false, Option, none, some, List, ltb, if◌then◌else◌,
}
use linux_host_firewall_mana.Prelude.Text.{trim, is_blank}
use linux_host_firewall_mana.Models.{FirewallRule}
use linux_host_firewall_mana.Agent.Os.{Env}
use linux_host_firewall_mana.Agent.State.{LastDefaults, Disk, SafeModeState, Agent, Act}

-- `SafeModeState::new` at a time.
unfoldable pub new_state : ℕ → ℕ → SafeModeState
new_state now timeout_secs = record {
  last_manager_contact = some now;
  safe_mode_active = false;
  timeout_secs = timeout_secs;
}

abbrev pub elapsed_secs : ℕ → Option ℕ → ℕ
elapsed_secs now none = 0
elapsed_secs now (some t) = now - t

-- The timeout has passed; the flag is raised and never lowered here.
unfoldable pub check_at : ℕ → SafeModeState → Bool × SafeModeState
check_at now m =
    if ltb m.timeout_secs (elapsed_secs now m.last_manager_contact)
    then (true, record m { safe_mode_active = true })
    else (false, m)

abbrev pub default_defaults : LastDefaults
default_defaults = record { default_input_policy = none; default_output_policy = none }

abbrev clean_hash : Option String → Option String
clean_hash none = none
clean_hash (some s) = if is_blank (trim s) then none else some (trim s)

-- `load_expected_hash`: trimmed, and an empty file is no hash.
unfoldable pub load_expected_hash : Disk → Option String
load_expected_hash d = clean_hash d.expected_hash

module _ (e : Env) where
  unfoldable pub record_manager_contact : Act (Unit {0})
  record_manager_contact s = (
    tt,
    record s {
      safe_mode = record s.safe_mode {
        last_manager_contact = some (e.seconds s.history);
        safe_mode_active = false;
      };
    },
  )

  unfoldable pub check : Act Bool
  unfolding check_at
  check s =
      let (active, m) = check_at (e.seconds s.history) s.safe_mode in
      (active, record s { safe_mode = m })

  -- A write to a file of the agent; the callers drop its error. A write that fails has not opened the
  -- file, or has left a beginning of the text, in place of the file or, where it appends, behind it.
  abbrev pub write : String → (Disk → Disk) → (String → Disk → Disk) → Act (Unit {0})
  write path f cut s =
      let failed : Agent = elim (e.left s.history path) [
        | none ↦ s
        | some part ↦ record s { disk = cut part s.disk }
      ] in
      (tt, if e.writable s.history path then record s { disk = f s.disk } else failed)

  -- A beginning of the JSON text does not parse.
  unfoldable pub save_last_good : List FirewallRule → Act (Unit {0})
  save_last_good rules =
      write "/var/lib/firewall-agent/last_good.rules.json"
        (λ d. record d { last_good = some rules }) (λ part d. record d { last_good = none })

  unfoldable pub save_last_defaults : LastDefaults → Act (Unit {0})
  save_last_defaults defaults =
      write "/var/lib/firewall-agent/last_defaults.json"
        (λ d. record d { last_defaults = some defaults })
        (λ part d. record d { last_defaults = none })

  unfoldable pub save_expected_hash : String → Act (Unit {0})
  save_expected_hash hash =
      write "/var/lib/firewall-agent/expected_hash" (λ d. record d { expected_hash = some hash })
        (λ part d. record d { expected_hash = some part })
