-- ===== src/Tests/AgentRuns.antt =====
-- The agent's theorems on a concrete host.
use linux_host_firewall_mana.Crates.{v4}
use linux_host_firewall_mana.Agent.Protected.Overlap.{Meet, nets_overlap_iff}
use linux_host_firewall_mana.Agent.Backend.{run_commands, start_tally}
use linux_host_firewall_mana.Agent.Backend.Counts.{run_commands_counts}
use linux_host_firewall_mana.Agent.Apply.Gate.{apply_rules_saves}
use linux_host_firewall_mana.Prelude.{
  ◌+◌, ◌≤◌, ◌≡◌, refl, ◌↔◌, inr, String, true, false, none, some, List, [], ◌∷◌, ok,
}
use linux_host_firewall_mana.Prelude.Lists.{All, length}
use linux_host_firewall_mana.Models.{FirewallAction, FirewallRule}
use linux_host_firewall_mana.Agent.Os.{failed, Env}
use linux_host_firewall_mana.Agent.Backend.{ApplyContext, FirewallBackend}
use linux_host_firewall_mana.Agent.Protected.{
  nets_overlap, check_rules_against_protected, violations, blocks_protected, overlaps_protected,
  find_overlap, exposes_protected,
}
use linux_host_firewall_mana.Agent.Protected.Check.{IsSafe, check_rules_against_protected_iff}
use linux_host_firewall_mana.Agent.State.{Agent}
use linux_host_firewall_mana.Agent.Ufw
use linux_host_firewall_mana.Agent.Ufw.{ufw_force_reset, ufw_backend}
use linux_host_firewall_mana.Agent.Ufw.Failure.{ufw_force_reset_bounds, apply_rules-no_ufw}
use linux_host_firewall_mana.Agent.Wire.{PendingActionDto, CheckInResponse}
use linux_host_firewall_mana.Agent.Apply.{
  has_umbilical, acquire_apply_lock, under_lock, compile_and_apply, apply_rules,
}
use linux_host_firewall_mana.Agent.Apply.Gate.{apply_rules_err, apply_rules_ok, apply_rules_refused}
use linux_host_firewall_mana.Agent.Cycle.{unreachable, run_pull_loop}
use linux_host_firewall_mana.Agent.Cycle.Revert.{IsKept, unreachable-IsKept}
use linux_host_firewall_mana.Agent.Cycle.Waits.{run_pull_loop_waits}
use linux_host_firewall_mana.Tests.{crates, crates_laws, calm, agent, rule}

abbrev protected : List String
protected = "10.0.0.0/8" ∷ []

abbrev rules : List FirewallRule
rules = rule 5 FirewallAction.deny (some "192.168.0.0/16") ∷ []

abbrev bad_rules : List FirewallRule
bad_rules = rule 5 FirewallAction.deny (some "10.1.0.0/16") ∷ []

check_rules_against_protected_iff_example :
    (check_rules_against_protected crates rules protected ≡ ok tt)
    ↔ All (IsSafe crates crates_laws protected) rules
check_rules_against_protected_iff_example =
    check_rules_against_protected_iff crates crates_laws rules protected

abbrev ctx : ApplyContext
ctx = record {
  manager_ip = "10.0.0.1";
  manager_port = 443;
  default_input_policy = some "deny";
  default_output_policy = none;
}

-- UFW with an apply that is done at once.
abbrev backend : FirewallBackend
backend = record (ufw_backend crates calm) {
  apply = λ compiled h.
      (ok (record { applied = 1; failed = 0; snapshot_hash = "abc"; error = none }), h);
}

apply_rules_ok_example :
    All (IsSafe crates crates_laws protected) rules × (has_umbilical crates ctx ≡ true)
unfolding apply_rules acquire_apply_lock under_lock compile_and_apply check_rules_against_protected
    has_umbilical violations blocks_protected overlaps_protected find_overlap nets_overlap
    exposes_protected Ufw.compile
apply_rules_ok_example =
    apply_rules_ok crates calm backend crates_laws rules protected ctx agent "abc" refl

abbrev busy : Env
busy = record calm { lock_error = λ h. some "held" }

apply_rules_err_example :
    (apply_rules crates busy backend rules protected ctx agent).1 ≡ record agent {
      history = (apply_rules crates busy backend rules protected ctx agent).1.history;
    }
unfolding apply_rules acquire_apply_lock under_lock compile_and_apply check_rules_against_protected
    has_umbilical violations blocks_protected overlaps_protected find_overlap nets_overlap
    exposes_protected Ufw.compile
apply_rules_err_example =
    apply_rules_err crates busy backend rules protected ctx agent "acquire apply lock: held" refl

abbrev no_manager : ApplyContext
no_manager = record ctx { manager_ip = "0.0.0.0" }

apply_rules_refused_example :
    (apply_rules crates calm backend bad_rules protected no_manager agent).1 ≡ agent
unfolding has_umbilical
apply_rules_refused_example =
    apply_rules_refused crates calm backend crates_laws bad_rules protected no_manager agent
      (inr refl)

ufw_force_reset_bounds_example : length (ufw_force_reset crates calm []).1 ≤ 0 + 17
ufw_force_reset_bounds_example = ufw_force_reset_bounds crates calm []

abbrev no_ufw : Env
no_ufw = record calm { output = λ h cmd args. failed "No such file or directory" }

apply_rules-no_ufw_example :
    (apply_rules crates no_ufw (ufw_backend crates no_ufw) rules protected ctx agent).0 ≡ ok ""
unfolding has_umbilical check_rules_against_protected Ufw.collided_ufw_backup violations
    blocks_protected overlaps_protected find_overlap nets_overlap exposes_protected
apply_rules-no_ufw_example =
    apply_rules-no_ufw crates no_ufw "No such file or directory" (λ h args. refl) refl rules
      protected ctx agent (λ h. refl) refl refl

abbrev quiet : CheckInResponse
quiet = record {
  rules_changed = false;
  rules = [];
  config = none;
  pending_actions = [];
  default_input_policy = none;
  default_output_policy = none;
}

abbrev rollback : PendingActionDto
rollback = record { id = 4; action_type = "rollback"; payload = "{}"; reason = "" }

run_pull_loop_waits_example :
    (length (run_pull_loop crates calm backend ((λ r. ok quiet) ∷ []) 3 agent).0 ≡ 1)
    × All (λ w. 60 ≤ w) (run_pull_loop crates calm backend ((λ r. ok quiet) ∷ []) 3 agent).0
run_pull_loop_waits_example = run_pull_loop_waits crates calm backend ((λ r. ok quiet) ∷ []) 3 agent

-- The manager was last heard of long ago.
abbrev lost : Agent
lost = record agent {
  disk = record agent.disk { last_good = some rules };
  safe_mode = record agent.safe_mode { last_manager_contact = some 0 };
}

-- The ruleset file is cut short by the write.
abbrev full_disk : Env
full_disk = record calm { writable = λ h path. false; left = λ h path. some "" }

unreachable-IsKept_example :
    IsKept crates full_disk backend lost (unreachable crates full_disk backend lost).1
unreachable-IsKept_example = unreachable-IsKept crates full_disk backend lost

nets_overlap_iff_example :
    (nets_overlap crates (v4 167837696, 16) (v4 167772160, 24) ≡ true)
    ↔ Meet crates crates_laws (v4 167837696, 16) (v4 167772160, 24)
nets_overlap_iff_example = nets_overlap_iff crates crates_laws (v4 167837696, 16) (v4 167772160, 24)

apply_rules_saves_example :
    (apply_rules crates calm backend rules protected ctx agent).1 ≡ record agent {
      history = (apply_rules crates calm backend rules protected ctx agent).1.history;
      disk = record agent.disk { last_good = some rules };
    }
unfolding apply_rules acquire_apply_lock under_lock compile_and_apply check_rules_against_protected
    has_umbilical violations blocks_protected overlaps_protected find_overlap nets_overlap
    exposes_protected Ufw.compile
apply_rules_saves_example =
    apply_rules_saves crates calm backend rules protected ctx agent "abc" refl (λ h. refl)

run_commands_counts_example :
    ((run_commands crates calm ("a" ∷ "b" ∷ []) start_tally []).0.applied
        + (run_commands crates calm ("a" ∷ "b" ∷ []) start_tally []).0.failed
      ≡ 2)
    × (length (run_commands crates calm ("a" ∷ "b" ∷ []) start_tally []).0.errors
        ≡ (run_commands crates calm ("a" ∷ "b" ∷ []) start_tally []).0.failed)
run_commands_counts_example = run_commands_counts crates calm ("a" ∷ "b" ∷ []) []
