-- ===== src/Agent/Firewalld.antt =====
-- The firewalld backend of crates/fw-agent/src/backend/mod.rs.
use linux_host_firewall_mana.Prelude.{
  String, not, ◌&&◌, none, some, List, [], ◌∷◌, map, ◌==◌, if◌then◌else◌, Result, ok, err,
  unwrap_or,
}
use linux_host_firewall_mana.Prelude.Int.{show}
use linux_host_firewall_mana.Prelude.Lists.{keep}
use linux_host_firewall_mana.Prelude.Text.{concat, trim, lines, is_blank, contains}
use linux_host_firewall_mana.Crates.{Crates}
use linux_host_firewall_mana.Models.{
  FirewallRule, FirewallAction, limit, masquerade, FirewallProtocol, is_any_protocol, protocol_str,
}
use linux_host_firewall_mana.Agent.Os.{Env, Os, ◌>>=◌, ◌>>◌, pure}
use linux_host_firewall_mana.Agent.Backend.{
  BackendError, command_failed, CompiledRules, ApplyContext, ApplyResult, NormalizedSnapshot,
  BackendStatus, FirewallBackend, Ran, run_cmd, start_tally, run_commands, snapshot_of, no_snapshot,
  apply_result,
}

abbrev pub rich_action : FirewallAction → String
rich_action FirewallAction.allow = "accept"
rich_action FirewallAction.deny = "drop"
rich_action FirewallAction.reject = "reject"
rich_action limit = "accept"
rich_action masquerade = "masquerade"

abbrev pub rich_protocol : FirewallProtocol → String
rich_protocol p = if is_any_protocol p then "all" else protocol_str p

unfoldable pub compile_firewalld_rule : FirewallRule → String
compile_firewalld_rule rule = elim rule.dst_port_start [
  | none ↦ concat (
      "firewall-cmd --permanent --add-rich-rule='rule family=ipv4 source address=\""
      ∷ unwrap_or rule.src_cidr "0.0.0.0/0"
      ∷ "\" "
      ∷ rich_action rule.action
      ∷ "'"
      ∷ [])
  | some port ↦ concat (
      "firewall-cmd --permanent --add-rich-rule='rule family=ipv4 source address=\""
      ∷ unwrap_or rule.src_cidr "0.0.0.0/0"
      ∷ "\" port port=\""
      ∷ show port
      ∷ "\" protocol=\""
      ∷ rich_protocol rule.protocol
      ∷ "\" "
      ∷ rich_action rule.action
      ∷ "'"
      ∷ [])
]

-- The context is accepted and unused.
unfoldable pub compile : List FirewallRule → ApplyContext → Result CompiledRules BackendError
compile rules ctx = ok (record { commands = map compile_firewalld_rule rules })

module _ (c : Crates) (e : Env) where
  abbrev run : List String → Os Ran
  run args = run_cmd e "firewall-cmd" args

  unfoldable pub snapshot : Os (Result NormalizedSnapshot BackendError)
  unfolding run_cmd snapshot_of lines trim
  snapshot = do
    r ← run ("--list-all" ∷ [])
    pure (
        ok (
          if r.ok
          then snapshot_of c e (keep (λ l. not (is_blank l)) (map trim (lines r.stdout)))
          else no_snapshot))

  -- Additive: no reset before the commands.
  unfoldable pub apply : CompiledRules → Os (Result ApplyResult BackendError)
  apply compiled = do
    t ← run_commands c e compiled.commands start_tally
    run ("--reload" ∷ [])
    s ← snapshot
    pure (elim s [ err f ↦ err f | ok live ↦ ok (apply_result t live.hash) ])

  -- NO_DEFAULTS counts as success.
  finish_reset : Ran → Os (Result (Unit {0}) BackendError)
  finish_reset r =
      if not r.ok && not (contains "NO_DEFAULTS" r.stderr)
      then pure (err (command_failed r.stderr))
      else (run ("--reload" ∷ []) >> pure (ok tt))

  unfoldable pub reset : Os (Result (Unit {0}) BackendError)
  unfolding finish_reset contains
  reset = do r ← run ("--permanent" ∷ "--load-zone-defaults=public" ∷ []); finish_reset r

  unfoldable pub status : Os (Result BackendStatus BackendError)
  status = do
    r ← run ("--state" ∷ [])
    zone ← run ("--get-default-zone" ∷ [])
    let default_zone = if zone.ok then trim zone.stdout else "public"
    pure (
        ok (record {
          active = r.ok && trim r.stdout == "running";
          default_policy_in = default_zone;
          default_policy_out = default_zone;
        }))

  abbrev pub firewalld_backend : FirewallBackend
  firewalld_backend = record {
    name = "firewalld";
    compile = compile;
    apply = apply;
    snapshot = snapshot;
    reset = reset;
    status = status;
  }
