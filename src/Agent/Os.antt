-- ===== src/Agent/Os.antt =====
-- The agent's outside: processes, files of other programs, the apply lock and the clock. What the
-- outside answers is any function of what has happened so far, so a run covers every sequence of
-- answers; each action is recorded, the newest first.
use linux_host_firewall_mana.Prelude.Int.{ℤ}
use linux_host_firewall_mana.Prelude.{ℕ, String, Bool, Option, List}

-- A report to the manager: `CheckInResultRequest` of crates/fw-agent/src/pull_client.rs.
pub record CheckInResultRequest : Type 0 where
  pub host_id : ℕ
  pub action_id : Option ℕ
  pub success : Bool
  pub error_message : Option String
  pub new_rules_hash : String

pub data Event : Type 0 where
  spawn : String → List String → Event
  remove_file : String → Event
  take_lock : Event
  report_result : CheckInResultRequest → Event

-- `Command::output`: the exit status with both streams, or the error of the spawn.
pub data Output : Type 0 where
  done : Bool → String → String → Output
  failed : String → Output

pub record Env : Type 0 where
  pub output : List Event → String → List String → Output
  pub removed : List Event → String → Bool
  pub lock_error : List Event → Option String
  pub path_exists : List Event → String → Bool
  pub env_var : String → Option String
  pub seconds : List Event → ℕ
  pub now_utc : List Event → ℕ
  pub writable : List Event → String → Bool
  pub left : List Event → String → Option String
  pub uptime_seconds : List Event → ℤ
  pub arch : String
  pub agent_version : String
  pub agent_binary_hash : Option String

abbrev pub Os : Type 0 → Type 0
Os A = List Event → A × List Event

infixl 5 ◌>>=◌ ◌>>◌
abbrev pub ◌>>=◌ : {A B : Type 0} → Os A → (A → Os B) → Os B
◌>>=◌ m f h = let (a, h') = m h in f a h'

abbrev pub ◌>>◌ : {A B : Type 0} → Os A → Os B → Os B
m >> k = m >>= λ _. k

abbrev pub pure : {A : Type 0} → A → Os A
pure a h = (a, h)
