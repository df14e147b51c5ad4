-- ===== src/Agent/Replay.antt =====
-- crates/fw-agent/src/replay_cache.rs: the actions already executed, one uuid to a line.
use linux_host_firewall_mana.Prelude.{
  String, Bool, false, Option, none, some, [], ◌∷◌, ◌==◌, unwrap_or,
}
use linux_host_firewall_mana.Prelude.Lists.{any}
use linux_host_firewall_mana.Prelude.Text.{concat, trim, lines}
use linux_host_firewall_mana.Agent.Os.{Env}
use linux_host_firewall_mana.Agent.State.{Disk, Act}
use linux_host_firewall_mana.Agent.SafeMode.{write}

unfoldable pub already_executed_in : Option String → String → Bool
already_executed_in none action_id = false
already_executed_in (some content) action_id = any (λ line. trim line == action_id) (lines content)

unfoldable pub append_line : Option String → String → String
append_line file action_id = concat (unwrap_or file "" ∷ action_id ∷ "\n" ∷ [])

unfoldable pub already_executed : String → Disk → Bool
unfolding already_executed_in
already_executed action_id d = already_executed_in d.executed_actions action_id

module _ (e : Env) where
  unfoldable pub record_executed : String → Act (Unit {0})
  unfolding append_line
  record_executed action_id =
      write e "/var/lib/firewall-agent/executed_actions.log"
        (λ d. record d { executed_actions = some (append_line d.executed_actions action_id) })
        (λ part d. record d {
          executed_actions = some (concat (unwrap_or d.executed_actions "" ∷ part ∷ []));
        })
