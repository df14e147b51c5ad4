-- ===== src/Agent/Cycle/Waits.antt =====
-- How long the loop of crates/fw-agent/src/pull_loop.rs waits.
use linux_host_firewall_mana.Prelude.{ℕ, String, ◌≡◌, ◌≤◌, refl, List, [], ◌∷◌, arith, Result}
use linux_host_firewall_mana.Prelude.Lists.{All, length}
use linux_host_firewall_mana.Crates.{Crates}
use linux_host_firewall_mana.Agent.Os.{Env}
use linux_host_firewall_mana.Agent.Backend.{FirewallBackend}
use linux_host_firewall_mana.Agent.State.{Agent}
use linux_host_firewall_mana.Agent.Wire.{CheckInRequest, CheckInResponse}
use linux_host_firewall_mana.Agent.Cycle.{sleep_secs, run_pull_loop}

at_least_a_minute : (n : ℕ) → 60 ≤ sleep_secs n
unfolding sleep_secs
at_least_a_minute n = ground arith

-- Whatever the managers of the rounds answer and whatever the host does, the loop ends each round with
-- one wait, and every wait may last 60 seconds or more: also after local drift, when the loop asks to
-- check in again in 30 seconds.
pub run_pull_loop_waits :
    (c : Crates) (e : Env) (backend : FirewallBackend)
    (rounds : List (CheckInRequest → Result CheckInResponse String)) (host_id : ℕ) (s : Agent)
    → (length (run_pull_loop c e backend rounds host_id s).0 ≡ length rounds)
      × All (λ w. 60 ≤ w) (run_pull_loop c e backend rounds host_id s).0
unfolding run_pull_loop
run_pull_loop_waits c e backend [] host_id s = (refl, tt)
run_pull_loop_waits c e backend (round ∷ rounds) host_id s =
    let rest = run_pull_loop_waits c e backend rounds host_id _ in
    (omega (arith, rest.0), (at_least_a_minute _, rest.1))
