-- ===== src/Agent/Ufw.antt =====
-- The UFW backend of crates/fw-agent/src/backend/mod.rs.
pub mod Failure
use linux_host_firewall_mana.Prelude.{
  ℕ, zero, suc, String, Bool, true, false, not, ◌&&◌, Option, none, some, List, [], ◌∷◌, ◌++◌, map,
  ◌==◌, if◌then◌else◌, Result, ok, err, unwrap_or,
}
use linux_host_firewall_mana.Prelude.Int.{ℤ, int_eq, show, show_ℕ}
use linux_host_firewall_mana.Prelude.Lists.{keep}
use linux_host_firewall_mana.Prelude.Text.{
  concat, trim, lines, is_blank, strip_prefix, strip_suffix, contains, after_bracket, drop_quotes,
}
use linux_host_firewall_mana.Crates.{Crates}
use linux_host_firewall_mana.Models.{
  FirewallRule, FirewallAction, action_str, is_out, is_any_protocol, protocol_str,
}
use linux_host_firewall_mana.Agent.Os.{Env, remove_file, Os, ◌>>=◌, ◌>>◌, pure}
use linux_host_firewall_mana.Agent.Backend.{
  BackendError, command_failed, CompiledRules, ApplyContext, ApplyResult, NormalizedSnapshot,
  BackendStatus, FirewallBackend, Ran, run_cmd, detect_container_runtime, Tally, start_tally,
  run_commands, snapshot_of, no_snapshot, apply_result,
}

unfoldable pub port_range : Option ℤ → Option ℤ → Option String
unfolding show
port_range (some s) (some e) =
    if int_eq s e then some (show s) else some (concat (show s ∷ ":" ∷ show e ∷ []))
port_range (some s) none = some (show s)
port_range none _ = none

-- A clause that is there only with its argument.
abbrev pub clause : String → Option String → String
clause keyword none = ""
clause keyword (some arg) = concat (keyword ∷ arg ∷ [])

abbrev pub interface : FirewallRule → Option String
interface rule = if is_out rule.direction then rule.interface_out else rule.interface_in

unfoldable pub compile_ufw_rule : FirewallRule → String
unfolding port_range drop_quotes
compile_ufw_rule rule = concat (
    "ufw "
    ∷ action_str rule.action
    ∷ (if is_out rule.direction then " out" else "")
    ∷ (if rule.log then " log" else "")
    ∷ clause " on " (interface rule)
    ∷ (if is_any_protocol rule.protocol
        then ""
        else concat (" proto " ∷ protocol_str rule.protocol ∷ []))
    ∷ " from "
    ∷ unwrap_or rule.src_cidr "any"
    ∷ clause " port " (port_range rule.src_port_start rule.src_port_end)
    ∷ " to "
    ∷ unwrap_or rule.dst_cidr "any"
    ∷ clause " port " (port_range rule.dst_port_start rule.dst_port_end)
    ∷ (if is_blank rule.comment
        then ""
        else concat (" comment '" ∷ drop_quotes rule.comment ∷ "'" ∷ []))
    ∷ [])

-- The outbound allow to the manager.
unfoldable pub umbilical : ApplyContext → String
umbilical ctx = concat (
    "ufw allow out from any to "
    ∷ ctx.manager_ip
    ∷ " port "
    ∷ show_ℕ ctx.manager_port
    ∷ " proto tcp comment 'fw-mgr-umbilical'"
    ∷ [])

abbrev pub default_command : String → Option String → List String
default_command direction none = []
default_command direction (some p) = concat ("ufw default " ∷ p ∷ " " ∷ direction ∷ []) ∷ []

unfoldable pub compile : List FirewallRule → ApplyContext → Result CompiledRules BackendError
compile rules ctx = ok (record {
  commands =
      umbilical ctx
      ∷ (default_command "incoming" ctx.default_input_policy
          ++ (default_command "outgoing" ctx.default_output_policy ++ map compile_ufw_rule rules));
})

abbrev first_some : Option String → Option String → Option String
first_some none next = next
first_some (some s) next = some s

abbrev backup_of : Option String → Option String
backup_of none = none
backup_of (some s) = strip_suffix "' already exists. Aborting" s

find_backup : List String → Option String
find_backup [] = none
find_backup (l ∷ ls) = first_some (backup_of (strip_prefix "ERROR: '" (trim l))) (find_backup ls)

unfoldable pub collided_ufw_backup : String → Option String
unfolding find_backup strip_prefix strip_suffix trim lines
collided_ufw_backup stderr = find_backup (lines stderr)

skip_two : List String → List String
skip_two (a ∷ b ∷ ls) = ls
skip_two _ = []

-- "[ N ] text" without its number.
strip_number : String → String
strip_number l =
    let trimmed = trim l in elim (after_bracket trimmed) [ none ↦ trimmed | some rest ↦ trim rest ]

unfoldable pub rule_lines : String → List String
unfolding skip_two strip_number lines trim after_bracket
rule_lines stdout = keep (λ l. not (is_blank l)) (map strip_number (skip_two (lines stdout)))

module _ (c : Crates) (e : Env) where
  abbrev run : List String → Os Ran
  run args = run_cmd e "ufw" args

  -- The rounds left; the last result stands when a round gives up.
  unfoldable pub retry_reset : ℕ → Ran → Os Ran
  retry_reset zero r h = (r, h)
  retry_reset (suc rounds) r h = elim r.ok [
    | true ↦ (r, h)
    | false ↦ elim (collided_ufw_backup r.stderr) [
      | none ↦ (r, h)
      | some backup ↦ elim (e.removed h backup) [
        | false ↦ (r, remove_file backup ∷ h)
        | true ↦
            let (r', h') = run ("--force" ∷ "reset" ∷ []) (remove_file backup ∷ h) in
            retry_reset rounds r' h'
      ]
    ]
  ]

  unfoldable pub ufw_force_reset : Os Ran
  unfolding retry_reset
  ufw_force_reset = do r ← run ("--force" ∷ "reset" ∷ []); retry_reset 8 r

  unfoldable pub snapshot : Os (Result NormalizedSnapshot BackendError)
  unfolding run_cmd rule_lines snapshot_of
  snapshot = do
    r ← run ("status" ∷ "numbered" ∷ [])
    pure (ok (if r.ok then snapshot_of c e (rule_lines r.stdout) else no_snapshot))

  abbrev pub failed_result : String → String → ApplyResult
  failed_result what stderr = record {
    applied = 0;
    failed = 0;
    snapshot_hash = "";
    error = some (concat (what ∷ stderr ∷ []));
  }

  -- Replay the commands, reload, and hash the live rules.
  unfoldable pub replay : List String → Os (Result ApplyResult BackendError)
  replay commands = do
    t ← run_commands c e commands start_tally
    run ("reload" ∷ [])
    s ← snapshot
    pure (elim s [ err f ↦ err f | ok live ↦ ok (apply_result t live.hash) ])

  after_enable : CompiledRules → Ran → Os (Result ApplyResult BackendError)
  after_enable compiled r =
      if r.ok
      then replay compiled.commands
      else pure (ok (failed_result "ufw enable failed: " r.stderr))

  after_reset : CompiledRules → Ran → Os (Result ApplyResult BackendError)
  unfolding after_enable
  after_reset compiled r =
      if r.ok
      then (run ("--force" ∷ "enable" ∷ []) >>= after_enable compiled)
      else pure (ok (failed_result "ufw reset failed: " r.stderr))

  unfoldable pub apply : CompiledRules → Os (Result ApplyResult BackendError)
  unfolding after_reset replay
  apply compiled = do detect_container_runtime e; r ← ufw_force_reset; after_reset compiled r

  unfoldable pub reset : Os (Result (Unit {0}) BackendError)
  unfolding ufw_force_reset
  reset = do r ← ufw_force_reset; pure (if r.ok then ok tt else err (command_failed r.stderr))

  unfoldable pub status : Os (Result BackendStatus BackendError)
  unfolding contains run_cmd
  status = do
    r ← run ("status" ∷ "verbose" ∷ [])
    pure (
        ok (record {
          active = r.ok && contains "Status: active" r.stdout;
          default_policy_in = if contains "deny (incoming)" r.stdout then "deny" else "allow";
          default_policy_out = if contains "allow (outgoing)" r.stdout then "allow" else "deny";
        }))

  abbrev pub ufw_backend : FirewallBackend
  ufw_backend = record {
    name = "ufw";
    compile = compile;
    apply = apply;
    snapshot = snapshot;
    reset = reset;
    status = status;
  }
