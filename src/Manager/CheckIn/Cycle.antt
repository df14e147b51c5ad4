-- ===== src/Manager/CheckIn/Cycle.antt =====
-- The agent of crates/fw-agent/src/pull_loop.rs against the manager of
-- crates/fw-web/src/routes/agent_api.rs.
use linux_host_firewall_mana.Prelude.{ℕ, String, ◌≡◌, refl, Bool, true, false, some, List, ok}
use linux_host_firewall_mana.Prelude.Lists.{is_empty}
use linux_host_firewall_mana.Crates.{Crates}
use linux_host_firewall_mana.Agent.Os.{Event, Env}
use linux_host_firewall_mana.Agent.Backend.{FirewallBackend}
use linux_host_firewall_mana.Agent.State.{Agent}
use linux_host_firewall_mana.Agent.Wire.{OsInfo}
use linux_host_firewall_mana.Agent.Apply.Gate.{last_good_path}
use linux_host_firewall_mana.Agent.Cycle.{request, after_check_in}
use linux_host_firewall_mana.Agent.Cycle.Keeps.{configured, applied, after_check_in-saves}
use linux_host_firewall_mana.Manager.Db.{Db, assigned_set}
use linux_host_firewall_mana.Manager.CheckIn.{
  CheckInRequest, CheckInResponse, check_in, decode_request, decode_response,
}
use linux_host_firewall_mana.Manager.CheckIn.Converge.{check_in-converges}

-- `c` and the clock are shared by both sides; `first` is any request of the host.
module _ (c : Crates) (stored : ℕ → ℕ) (now : ℕ) (e : Env) (backend : FirewallBackend)
    (host set : ℕ) (first : CheckInRequest) (db : Db) (s : Agent) where
  abbrev pub answer : CheckInResponse × Db
  answer = check_in c stored now host first db

  -- The agent after it has worked on the answer.
  abbrev pub agent_after : String → Bool → Agent
  agent_after live_hash drift =
      (after_check_in c e backend host live_hash drift (decode_response answer.0) s).1

  -- A host has a policy set, its check-in is answered with changed rules, at least one, and applying
  -- them succeeds where the ruleset file can be written. Then the request that the agent builds in its
  -- next cycle, whenever that is and whatever it reports of drift and of the host, is answered that no
  -- rule changed.
  pub after_check_in-converges :
      (later : ℕ) (live_hash : String) (drift drift' : Bool) (os_info : OsInfo) (hash : String)
      → assigned_set host db.host_policy_assignments ≡ some set
      → answer.0.rules_changed ≡ true
      → is_empty answer.0.rules ≡ false
      → (applied c e backend (decode_response answer.0) s).0 ≡ ok hash
      → ((h : List Event) → e.writable h last_good_path ≡ true)
      → (check_in c stored later host
          (decode_request (request c e backend host drift' os_info (agent_after live_hash drift)))
          answer.1).0.rules_changed
        ≡ false
  after_check_in-converges later live_hash drift drift' os_info hash assigned changed listed done
        free =
      check_in-converges c stored now later
        (e.now_utc (configured c e backend (decode_response answer.0) s).history) host set first _
        db (agent_after live_hash drift).disk assigned
        (after_check_in-saves c e backend host live_hash drift (decode_response answer.0) s hash
          changed listed done free)
        refl
