-- ===== src/Agent/State.antt =====
-- What the agent keeps: its configuration (crates/fw-agent/src/config.rs), the files under
-- /var/lib/firewall-agent, the safe-mode state, and the loop's own variables.
use linux_host_firewall_mana.Prelude.{ℕ, String, Bool, Option, List}
use linux_host_firewall_mana.Prelude.Int.{ℤ}
use linux_host_firewall_mana.Models.{FirewallRule}
use linux_host_firewall_mana.Agent.Os.{Event, Os}

pub record PullConfig : Type 0 where
  pub check_in_interval_secs : ℕ
  pub manager_agent_url : String
  pub config_version : ℤ

pub record AgentConfig : Type 0 where
  pub manager_url : String
  pub fqdn : String
  pub host_id : Option String
  pub cert_dir : String
  pub config_dir : String
  pub log_dir : String
  pub safe_mode_enabled : Bool
  pub safe_mode_timeout_secs : ℕ
  pub protected_cidrs : List String
  pub pull : PullConfig

pub record LastDefaults : Type 0 where
  pub default_input_policy : Option String
  pub default_output_policy : Option String

-- The files, each with what reading it gives: absent and unreadable are both `none`. A JSON or TOML
-- file is the value that it holds.
pub record Disk : Type 0 where
  pub executed_actions : Option String
  pub last_good : Option (List FirewallRule)
  pub last_defaults : Option LastDefaults
  pub expected_hash : Option String
  pub config_toml : Option AgentConfig

pub record SafeModeState : Type 0 where
  pub last_manager_contact : Option ℕ
  pub safe_mode_active : Bool
  pub timeout_secs : ℕ

pub record Agent : Type 0 where
  pub history : List Event
  pub disk : Disk
  pub config : AgentConfig
  pub safe_mode : SafeModeState
  pub interval_secs : ℕ
  pub config_version : ℤ

-- An action of the agent.
abbrev pub Act : Type 0 → Type 0
Act A = Agent → A × Agent

infixl 5 ◌>>=◌ ◌>>◌
abbrev pub ◌>>=◌ : {A B : Type 0} → Act A → (A → Act B) → Act B
◌>>=◌ m f s = let (a, s') = m s in f a s'

abbrev pub ◌>>◌ : {A B : Type 0} → Act A → Act B → Act B
m >> k = m >>= λ _. k

abbrev pub pure : {A : Type 0} → A → Act A
pure a s = (a, s)

abbrev pub lift : {A : Type 0} → Os A → Act A
lift m s = let (a, h) = m s.history in (a, record s { history = h })

abbrev pub gets : {A : Type 0} → (Agent → A) → Act A
gets f s = (f s, s)
