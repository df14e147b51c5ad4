-- ===== src/Agent/Cycle.antt =====
-- `run_pull_cycle` and the wait of crates/fw-agent/src/pull_loop.rs.
pub mod Waits
pub mod Revert
pub mod Keeps
pub mod Steady
use Prim.Native.Nat.{max}
use linux_host_firewall_mana.Prelude.{
  ℕ, String, Bool, true, false, not, ◌&&◌, ◌||◌, Option, none, some, List, [], ◌∷◌, map, ◌==◌,
  if◌then◌else◌, Result, ok, err, option_eq, unwrap_or,
}
use linux_host_firewall_mana.Prelude.Int.{as_u32}
use linux_host_firewall_mana.Prelude.Lists.{is_empty}
use linux_host_firewall_mana.Prelude.Text.{trim}
use linux_host_firewall_mana.Crates.{Crates}
use linux_host_firewall_mana.Models.{FirewallRule, compute_rules_hash}
use linux_host_firewall_mana.Agent.Os
use linux_host_firewall_mana.Agent.Os.{
  CheckInResultRequest, spawn, report_result, Output, done, failed, Env, Os,
}
use linux_host_firewall_mana.Agent.Backend.{
  BackendError, ApplyContext, NormalizedSnapshot, BackendStatus, FirewallBackend,
  detect_container_runtime,
}
use linux_host_firewall_mana.Agent.State.{
  LastDefaults, Disk, Agent, Act, ◌>>=◌, ◌>>◌, pure, lift, gets,
}
use linux_host_firewall_mana.Agent.SafeMode.{
  record_manager_contact, check, default_defaults, load_expected_hash, write, save_last_defaults,
  save_expected_hash,
}
use linux_host_firewall_mana.Agent.Replay.{already_executed, record_executed}
use linux_host_firewall_mana.Agent.Wire.{
  ConfigUpdate, PendingActionDto, OsInfo, CheckInRequest, CheckInResponse, rule_parts,
}
use linux_host_firewall_mana.Agent.Apply.{
  manager_endpoint, apply_rules, apply_rules_from_dto, execute_pending_action,
}

-- The seconds that the loop asks to wait, and the seconds that the wait lasts when no event arrives.
unfoldable pub wait_secs : Bool → ℕ → ℕ
wait_secs local_drift interval_secs = if local_drift then 30 else interval_secs

unfoldable pub sleep_secs : ℕ → ℕ
sleep_secs interval_secs = max interval_secs 60

unfoldable pub local_drift : Disk → String → Bool
unfolding load_expected_hash
local_drift d live_hash = elim (load_expected_hash d) [
  | none ↦ false
  | some expected ↦ not (expected == live_hash)
]

unfoldable pub reported_rules_hash : Crates → Disk → String
reported_rules_hash c d = elim d.last_good [
  | none ↦ ""
  | some applied ↦ compute_rules_hash c (map rule_parts applied)
]

abbrev pub defaults_of : CheckInResponse → LastDefaults
defaults_of r = record {
  default_input_policy = r.default_input_policy;
  default_output_policy = r.default_output_policy;
}

unfoldable pub defaults_changed : LastDefaults → CheckInResponse → Bool
defaults_changed cached r =
    not (option_eq cached.default_input_policy r.default_input_policy)
    || not (option_eq cached.default_output_policy r.default_output_policy)

abbrev pub context : String × ℕ → LastDefaults → ApplyContext
context (ip, port) d = record {
  manager_ip = ip;
  manager_port = port;
  default_input_policy = d.default_input_policy;
  default_output_policy = d.default_output_policy;
}

abbrev pub cached_defaults : Agent → LastDefaults
cached_defaults s = unwrap_or s.disk.last_defaults default_defaults

abbrev hostname_of : Output → String
hostname_of (done success out warnings) = trim out
hostname_of (failed f) = "unknown"

module _ (e : Env) where
  gather_os_info : Os OsInfo
  unfolding detect_container_runtime trim
  gather_os_info h =
      let (runtime, h') = detect_container_runtime e h in
      (
        record {
          hostname = hostname_of (e.output h' "hostname" []);
          os = "linux";
          arch = e.arch;
          container_runtime = runtime;
        },
        spawn "hostname" [] ∷ h',
      )

  unfoldable pub report : CheckInResultRequest → Act (Unit {0})
  report req s = (tt, record s { history = report_result req ∷ s.history })

  -- 4. A configuration update from the manager. A file that is cut short is taken not to parse.
  unfoldable pub update_config : Option ConfigUpdate → Act (Unit {0})
  update_config none s = (tt, s)
  update_config (some u) s =
      let interval = as_u32 u.check_in_interval_secs in
      let cfg = record s.config {
        safe_mode_enabled = u.safe_mode_enabled;
        pull = record s.config.pull {
          check_in_interval_secs = interval;
          config_version = u.config_version;
        };
      } in
      write e "/etc/firewall-agent/config.toml" (λ d. record d { config_toml = some cfg })
        (λ part d. record d { config_toml = none })
        (record s { interval_secs = interval; config_version = u.config_version; config = cfg })

module _ (c : Crates) (e : Env) (backend : FirewallBackend) where
  -- The last applied rules with the cached defaults, if there are any.
  unfoldable pub reapply_last_good : String × ℕ → Agent → Option (Act (Result String String))
  reapply_last_good endpoint s = elim s.disk.last_good [
    | none ↦ none
    | some last_good ↦
        if is_empty last_good
        then none
        else some (
            apply_rules c e backend last_good s.config.protected_cidrs
              (context endpoint (cached_defaults s)))
  ]

  -- Run an optional apply and drop its outcome, which is only logged.
  abbrev try : Option (Act (Result String String)) → Act (Unit {0})
  try none s = (tt, s)
  try (some m) s = let (r, s') = m s in (tt, s')

  -- Safe mode: back to the last known good ruleset, unless the manager's address is unusable.
  unfoldable pub revert : Act (Unit {0})
  unfolding reapply_last_good
  revert s = elim (manager_endpoint c s.config.pull.manager_agent_url) [
    | err f ↦ (tt, s)
    | ok endpoint ↦ try (reapply_last_good endpoint s) s
  ]

  -- The check-in failed.
  unfoldable pub unreachable : Act (Unit {0})
  unfolding check revert
  unreachable s =
      if s.config.safe_mode_enabled
      then (check e >>= λ expired. if expired then revert else pure tt) s
      else (tt, s)

  -- The endpoint of the configured URL; the empty address is refused by `apply_rules`.
  abbrev pub endpoint_or_empty : Agent → String × ℕ
  endpoint_or_empty s = elim (manager_endpoint c s.config.pull.manager_agent_url) [
    | ok endpoint ↦ endpoint
    | err f ↦ ("", 0)
  ]

  -- 5. The one apply of the cycle, if any, with the defaults that it puts in force.
  unfoldable pub apply_step :
      CheckInResponse → Bool → Act (Option (Result String String) × LastDefaults)
  unfolding defaults_changed reapply_last_good
  apply_step r drift s =
      if not (is_empty r.rules) && (r.rules_changed || defaults_changed (cached_defaults s) r)
      then (apply_rules_from_dto c e backend r.rules s.config.protected_cidrs
              (context (endpoint_or_empty s) (defaults_of r))
            >>= λ result. pure (some result, defaults_of r))
          s
      else if drift
      then elim (reapply_last_good (endpoint_or_empty s) s) [
        | none ↦ ((none, cached_defaults s), s)
        | some m ↦ (m >>= λ result. pure (some result, cached_defaults s)) s
      ]
      else ((none, cached_defaults s), s)

  -- Persist and report the outcome of the apply.
  unfoldable pub after_apply :
      ℕ → String → Option (Result String String) × LastDefaults → Act (Unit {0})
  unfolding save_expected_hash save_last_defaults report
  after_apply host_id live_hash (none, defaults) = pure tt
  after_apply host_id live_hash (some (ok new_hash), defaults) = do
    save_expected_hash e new_hash
    save_last_defaults e defaults
    report e (record {
      host_id = host_id;
      action_id = none;
      success = true;
      error_message = none;
      new_rules_hash = new_hash;
    })
  after_apply host_id live_hash (some (err f), defaults) = report e (record {
    host_id = host_id;
    action_id = none;
    success = false;
    error_message = some f;
    new_rules_hash = live_hash;
  })

  abbrev pub action_report :
      ℕ → String → PendingActionDto → Bool × Option String → CheckInResultRequest
  action_report host_id live_hash action (success, message) = record {
    host_id = host_id;
    action_id = some action.id;
    success = success;
    error_message = message;
    new_rules_hash = live_hash;
  }

  remember : String → Bool × Option String → Act (Unit {0})
  unfolding record_executed
  remember action_id (success, message) = if success then record_executed e action_id else pure tt

  -- 6. One pending action: a replay is acknowledged and not executed.
  unfoldable pub pending_action : ℕ → String → PendingActionDto → Act (Unit {0})
  unfolding report remember already_executed
  pending_action host_id live_hash action s =
      if already_executed (c.uuid_string action.id) s.disk
      then report e (action_report host_id live_hash action (true, none)) s
      else (do
        outcome ← execute_pending_action backend action
        remember (c.uuid_string action.id) outcome
        report e (action_report host_id live_hash action outcome))
          s

  unfoldable pub pending_actions : ℕ → String → List PendingActionDto → Act (Unit {0})
  pending_actions host_id live_hash [] = pure tt
  pending_actions host_id live_hash (action ∷ actions) = do
    pending_action host_id live_hash action
    pending_actions host_id live_hash actions

  -- The manager answered.
  unfoldable pub after_check_in : ℕ → String → Bool → CheckInResponse → Act (Unit {0})
  after_check_in host_id live_hash drift r = do
    record_manager_contact e
    update_config e r.config
    outcome ← apply_step r drift
    after_apply host_id live_hash outcome
    pending_actions host_id live_hash r.pending_actions

  -- The request of the cycle, from the state after the snapshot and the status.
  abbrev pub request : ℕ → Bool → OsInfo → Agent → CheckInRequest
  request host_id drift os_info s = record {
    host_id = host_id;
    rules_hash = reported_rules_hash c s.disk;
    agent_version = e.agent_version;
    backend_type = backend.name;
    os_info = os_info;
    uptime_seconds = e.uptime_seconds s.history;
    config_version = s.config_version;
    local_drift = drift;
    agent_binary_hash = e.agent_binary_hash;
  }

  unfoldable pub contact :
      (CheckInRequest → Result CheckInResponse String) → ℕ → String → Act (Result Bool String)
  unfolding gather_os_info
  contact check_in host_id live_hash = do
    drift ← gets (λ s. local_drift s.disk live_hash)
    os_info ← lift (gather_os_info e)
    answer ← gets (λ s. check_in (request host_id drift os_info s))
    elim answer [
      | ok r ↦ after_check_in host_id live_hash drift r >> pure (ok drift)
      | err f ↦ unreachable >> pure (ok false)
    ]

  after_status :
      (CheckInRequest → Result CheckInResponse String)
      → ℕ
      → String
      → Result BackendStatus BackendError
      → Act (Result Bool String)
  unfolding contact
  after_status check_in host_id live_hash (err f) = pure (err "Failed to get backend status")
  after_status check_in host_id live_hash (ok status) = contact check_in host_id live_hash

  after_snapshot :
      (CheckInRequest → Result CheckInResponse String)
      → ℕ
      → Result NormalizedSnapshot BackendError
      → Act (Result Bool String)
  unfolding after_status
  after_snapshot check_in host_id (err f) = pure (err "Failed to get backend snapshot")
  after_snapshot check_in host_id (ok snapshot) =
      lift backend.status >>= after_status check_in host_id snapshot.hash

  -- One cycle, against the manager that answers `check_in`.
  unfoldable pub run_pull_cycle :
      (CheckInRequest → Result CheckInResponse String) → ℕ → Act (Result Bool String)
  unfolding after_snapshot
  run_pull_cycle check_in host_id = lift backend.snapshot >>= after_snapshot check_in host_id

  abbrev drift_or_false : Result Bool String → Bool
  drift_or_false (ok drift) = drift
  drift_or_false (err f) = false

  -- `run_pull_loop` over the managers that the rounds meet: the longest wait after each cycle.
  unfoldable pub run_pull_loop :
      List (CheckInRequest → Result CheckInResponse String) → ℕ → Act (List ℕ)
  unfolding run_pull_cycle wait_secs sleep_secs
  run_pull_loop [] host_id s = ([], s)
  run_pull_loop (check_in ∷ rounds) host_id s =
      let (result, s') = run_pull_cycle check_in host_id s in
      let wait = sleep_secs (wait_secs (drift_or_false result) s'.interval_secs) in
      let (waits, s'') = run_pull_loop rounds host_id s' in (wait ∷ waits, s'')
