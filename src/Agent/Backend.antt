-- ===== src/Agent/Backend.antt =====
-- crates/fw-agent/src/backend/mod.rs: the backend trait, running a command, and what both backends
-- share.
pub mod Counts
use linux_host_firewall_mana.Prelude.{
  ℕ, ◌+◌, String, Bool, true, false, ◌||◌, ◌&&◌, Option, none, some, List, [], ◌∷◌, ◌++◌, map,
  is_some, if◌then◌else◌, Result, ok, err,
}
use linux_host_firewall_mana.Prelude.Lists.{is_empty}
use linux_host_firewall_mana.Prelude.Text.{concat, join, as_bytes}
use Prim.Native.Nat.{Ordering}
use Prim.Native.String.{compare}
use linux_host_firewall_mana.Crates.{Crates}
use linux_host_firewall_mana.Models.{FirewallRule}
use linux_host_firewall_mana.Agent.Os.{
  Event, spawn, Output, done, failed, Env, Os, ◌>>=◌, ◌>>◌, pure,
}

pub data BackendError : Type 0 where
  command_failed : String → BackendError
  io : String → BackendError

-- `Display`
abbrev pub error_text : BackendError → String
error_text (command_failed s) = concat ("command failed: " ∷ s ∷ [])
error_text (io s) = concat ("io error: " ∷ s ∷ [])

pub record CompiledRules : Type 0 where
  pub commands : List String

pub record ApplyContext : Type 0 where
  pub manager_ip : String
  pub manager_port : ℕ
  pub default_input_policy : Option String
  pub default_output_policy : Option String

pub record ApplyResult : Type 0 where
  pub applied : ℕ
  pub failed : ℕ
  pub snapshot_hash : String
  pub error : Option String

pub record NormalizedSnapshot : Type 0 where
  pub rules : List String
  pub hash : String

pub record BackendStatus : Type 0 where
  pub active : Bool
  pub default_policy_in : String
  pub default_policy_out : String

-- The trait: `compile` is pure, the other methods act on the host.
pub record FirewallBackend : Type 0 where
  pub name : String
  pub compile : List FirewallRule → ApplyContext → Result CompiledRules BackendError
  pub apply : CompiledRules → Os (Result ApplyResult BackendError)
  pub snapshot : Os (Result NormalizedSnapshot BackendError)
  pub reset : Os (Result (Unit {0}) BackendError)
  pub status : Os (Result BackendStatus BackendError)

-- The triple that `run_cmd` returns.
pub record Ran : Type 0 where
  pub ok : Bool
  pub stdout : String
  pub stderr : String

abbrev pub ran : Output → Ran
ran (done success out warnings) = record { ok = success; stdout = out; stderr = warnings }
ran (failed e) = record { ok = false; stdout = ""; stderr = e }

module _ (e : Env) where
  unfoldable pub run_cmd : String → List String → Os Ran
  run_cmd cmd args h = (ran (e.output h cmd args), spawn cmd args ∷ h)

  unfoldable pub which : String → Os Bool
  unfolding run_cmd
  which cmd = do r ← run_cmd "which" (cmd ∷ []); pure r.ok

  -- `container_detect::detect_container_runtime`
  unfoldable pub detect_container_runtime : Os (Option String)
  unfolding which
  detect_container_runtime h =
      if e.path_exists h "/var/run/docker.sock"
      then (some "docker", h)
      else let (podman, h') = which "podman" h in
        if podman
        then (some "podman", h')
        else if is_some (e.env_var "KUBERNETES_SERVICE_HOST")
        then (some "kubernetes", h')
        else if e.path_exists h' "/run/containerd/containerd.sock"
        then (some "containerd", h')
        else (none, h')

-- The counters of `apply` and its error lines, in order.
pub record Tally : Type 0 where
  pub applied : ℕ
  pub failed : ℕ
  pub errors : List String

abbrev pub start_tally : Tally
start_tally = record { applied = 0; failed = 0; errors = [] }

abbrev fail_with : Tally → String → Tally
fail_with t line = record t { failed = t.failed + 1; errors = t.errors ++ line ∷ [] }

abbrev pub count_run : String → Ran → Tally → Tally
count_run cmd r t =
    if r.ok
    then record t { applied = t.applied + 1 }
    else fail_with t (concat (cmd ∷ ": " ∷ r.stderr ∷ []))

module _ (c : Crates) (e : Env) where
  -- One command: split it into words, run the first with the others.
  run_words : String → Option (List String) → Tally → Os Tally
  unfolding run_cmd
  run_words cmd none t h = (fail_with t (concat (cmd ∷ ": malformed command" ∷ [])), h)
  run_words cmd (some []) t h = (fail_with t (concat (cmd ∷ ": malformed command" ∷ [])), h)
  run_words cmd (some (program ∷ args)) t h =
      let (r, h') = run_cmd e program args h in (count_run cmd r t, h')

  unfoldable pub run_command : String → Tally → Os Tally
  unfolding run_words
  run_command cmd t = run_words cmd (c.shlex_split cmd) t

  -- The loop over the compiled commands: a failure is counted, and the loop goes on.
  unfoldable pub run_commands : List String → Tally → Os Tally
  run_commands [] t h = (t, h)
  run_commands (cmd ∷ cmds) t h = let (t', h') = run_command cmd t h in run_commands cmds t' h'

  -- `lines.sort()`: by code points, which is the order of the UTF-8 bytes.
  unfoldable pub insert_line : String → List String → List String
  insert_line a [] = a ∷ []
  insert_line a (b ∷ ls) = elim (compare a b) [
    | Ordering.gt ↦ b ∷ insert_line a ls
    | _ ↦ a ∷ b ∷ ls
  ]

  unfoldable pub sort_lines : List String → List String
  unfolding insert_line
  sort_lines [] = []
  sort_lines (a ∷ ls) = insert_line a (sort_lines ls)

  lines_bytes : List String → List ℕ
  lines_bytes [] = []
  lines_bytes (l ∷ ls) = as_bytes l ++ (10 ∷ lines_bytes ls)

  unfoldable pub snapshot_of : List String → NormalizedSnapshot
  unfolding sort_lines lines_bytes
  snapshot_of ls =
      let sorted = sort_lines ls in
      record { rules = sorted; hash = c.sha256_hex (lines_bytes sorted) }

abbrev pub no_snapshot : NormalizedSnapshot
no_snapshot = record { rules = []; hash = "" }

abbrev pub apply_result : Tally → String → ApplyResult
apply_result t hash = record {
  applied = t.applied;
  failed = t.failed;
  snapshot_hash = hash;
  error = if is_empty t.errors then none else some (join "; " t.errors);
}
