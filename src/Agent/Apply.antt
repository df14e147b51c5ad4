-- ===== src/Agent/Apply.antt =====
-- `apply_rules`, `manager_endpoint` and `execute_pending_action` of crates/fw-agent/src/pull_loop.rs.
pub mod Gate
use linux_host_firewall_mana.Prelude.{
  ℕ, String, Bool, true, false, ◌||◌, Option, none, some, List, [], ◌∷◌, map, ◌==◌, ltb,
  if◌then◌else◌, Result, ok, err,
}
use linux_host_firewall_mana.Prelude.Int.{show_ℕ}
use linux_host_firewall_mana.Prelude.Text.{concat, join}
use linux_host_firewall_mana.Crates.{Crates, Url}
use linux_host_firewall_mana.Models.{FirewallRule}
use linux_host_firewall_mana.Agent.Protected.{is_unspecified, check_rules_against_protected}
use linux_host_firewall_mana.Agent.Os.{Env, take_lock}
use linux_host_firewall_mana.Agent.Backend.{
  BackendError, error_text, CompiledRules, ApplyContext, ApplyResult, FirewallBackend,
}
use linux_host_firewall_mana.Agent.State.{Agent, Act, ◌>>=◌, ◌>>◌, pure, lift}
use linux_host_firewall_mana.Agent.SafeMode.{save_last_good}
use linux_host_firewall_mana.Agent.Wire.{RuleDto, PendingActionDto, dto_to_rule}

module _ (c : Crates) where
  abbrev endpoint_of : String → ℕ → Result (String × ℕ) String
  endpoint_of host port = elim (c.parse_ip host) [
    | none ↦ err (
        concat (
          "manager_agent_url host is not an IP (got " ∷ host
          ∷ "); re-enroll with an IP manager address" ∷ []))
    | some ip ↦
        if is_unspecified ip
        then err (
            concat (
              "manager_agent_url is an unspecified address ("
              ∷ c.ip_string ip
              ∷ "); re-enroll with a specific IP"
              ∷ []))
        else ok (c.ip_string ip, port)
  ]

  abbrev endpoint_of_url : Url → Result (String × ℕ) String
  endpoint_of_url parsed = elim parsed.host [
    | none ↦ err "manager_agent_url has no host"
    | some host ↦ elim parsed.port [
      | none ↦ err "manager_agent_url has no port"
      | some port ↦ endpoint_of host port
    ]
  ]

  unfoldable pub manager_endpoint : String → Result (String × ℕ) String
  manager_endpoint manager_url = elim (c.parse_url manager_url) [
    | err e ↦ err (concat ("invalid manager_agent_url: " ∷ e ∷ []))
    | ok parsed ↦ endpoint_of_url parsed
  ]

  -- The address of the context parses and is no bind address.
  unfoldable pub has_umbilical : ApplyContext → Bool
  has_umbilical ctx = elim (c.parse_ip ctx.manager_ip) [
    | none ↦ false
    | some ip ↦ if is_unspecified ip then false else true
  ]

module _ (e : Env) where
  unfoldable pub acquire_apply_lock : Act (Option String)
  acquire_apply_lock s = (e.lock_error s.history, record s { history = take_lock ∷ s.history })

  -- Only the count of failed commands makes an apply fail.
  unfoldable pub settle :
      List FirewallRule → Result ApplyResult BackendError → Act (Result String String)
  unfolding save_last_good show_ℕ
  settle rules (err f) = pure (err (concat ("Apply failed: " ∷ error_text f ∷ [])))
  settle rules (ok result) =
      if ltb 0 result.failed
      then pure (err (concat (show_ℕ result.failed ∷ " rules failed to apply" ∷ [])))
      else (save_last_good e rules >> pure (ok result.snapshot_hash))

  unfoldable pub compile_and_apply :
      FirewallBackend
      → List FirewallRule
      → Result CompiledRules BackendError
      → Act (Result String String)
  unfolding settle
  compile_and_apply backend rules (err f) =
      pure (err (concat ("Compile failed: " ∷ error_text f ∷ [])))
  compile_and_apply backend rules (ok compiled) = lift (backend.apply compiled) >>= settle rules

  unfoldable pub under_lock :
      FirewallBackend
      → List FirewallRule
      → ApplyContext
      → Option String
      → Act (Result String String)
  unfolding compile_and_apply
  under_lock backend rules ctx (some f) = pure (err (concat ("acquire apply lock: " ∷ f ∷ [])))
  under_lock backend rules ctx none = compile_and_apply backend rules (backend.compile rules ctx)

module _ (c : Crates) (e : Env) (backend : FirewallBackend) where
  unfoldable pub apply_rules :
      List FirewallRule → List String → ApplyContext → Act (Result String String)
  unfolding acquire_apply_lock under_lock
  apply_rules rules protected_cidrs ctx =
      elim (check_rules_against_protected c rules protected_cidrs) [
        | err found ↦ pure (err (concat ("protected CIDR violations: " ∷ join "; " found ∷ [])))
        | ok _ ↦
            if has_umbilical c ctx
            then (acquire_apply_lock e >>= under_lock e backend rules ctx)
            else pure (
                err (
                  concat (
                    "cannot establish manager umbilical: manager_ip is not a specific IP (got \""
                    ∷ ctx.manager_ip
                    ∷ "\") — refusing to apply; re-enroll with an IP manager address" ∷ [])))
      ]

  unfoldable pub apply_rules_from_dto :
      List RuleDto → List String → ApplyContext → Act (Result String String)
  unfolding apply_rules
  apply_rules_from_dto dtos protected_cidrs ctx s =
      apply_rules (map (dto_to_rule (e.now_utc s.history)) dtos) protected_cidrs ctx s

abbrev pub rollback_outcome : Result (Unit {0}) BackendError → Bool × Option String
rollback_outcome (ok _) = (true, none)
rollback_outcome (err f) = (false, some (error_text f))

module _ (backend : FirewallBackend) where
  unfoldable pub execute_pending_action : PendingActionDto → Act (Bool × Option String)
  execute_pending_action action =
      if action.action_type == "rollback"
      then (lift backend.reset >>= λ r. pure (rollback_outcome r))
      else if action.action_type == "safe_mode_on"
      then pure (true, none)
      else if action.action_type == "safe_mode_off"
      then pure (true, none)
      else if action.action_type == "reload_config"
      then pure (true, none)
      else if action.action_type == "agent_upgrade"
      then pure (true, none)
      else if action.action_type == "apply_rules"
      then pure (true, none)
      else pure (false, some (concat ("Unknown action type: " ∷ action.action_type ∷ [])))
