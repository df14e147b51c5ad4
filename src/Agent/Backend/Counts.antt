-- ===== src/Agent/Backend/Counts.antt =====
-- The counters of the command loop of crates/fw-agent/src/backend/mod.rs.
use linux_host_firewall_mana.Prelude.{
  ℕ, ◌+◌, String, ◌≡◌, Option, none, some, List, [], ◌∷◌, arith, Bool-cases, inl, inr,
}
use linux_host_firewall_mana.Prelude.Lists.{length, length-append}
use linux_host_firewall_mana.Crates.{Crates}
use linux_host_firewall_mana.Agent.Os.{Event, Env}
use linux_host_firewall_mana.Agent.Backend.{
  Ran, run_cmd, Tally, start_tally, fail_with, count_run, run_words, run_command, run_commands,
}

-- One more command was counted, and every failure has its line.
abbrev Counted : ℕ → Tally → Tally → Type 0
Counted n t t' =
    (t'.applied + t'.failed ≡ n + (t.applied + t.failed))
    × (length t'.errors + t.failed ≡ t'.failed + length t.errors)

fail_with-Counted : (t : Tally) (line : String) → Counted 1 t (fail_with t line)
fail_with-Counted t line = (omega arith, omega (arith, length-append t.errors (line ∷ [])))

count_run-Counted : (cmd : String) (r : Ran) (t : Tally) → Counted 1 t (count_run cmd r t)
count_run-Counted cmd r t = elim (Bool-cases r.ok) [
  | inl fine ↦ rw fine (omega arith, omega arith)
  | inr broken ↦ rw broken (fail_with-Counted t _)
]

module _ (c : Crates) (e : Env) where
  run_words-Counted :
      (cmd : String) (ws : Option (List String)) (t : Tally) (h : List Event)
      → Counted 1 t (run_words c e cmd ws t h).0
  unfolding run_words
  run_words-Counted cmd none t h = fail_with-Counted t _
  run_words-Counted cmd (some []) t h = fail_with-Counted t _
  run_words-Counted cmd (some (program ∷ args)) t h =
      count_run-Counted cmd (run_cmd e program args h).0 t

  run_command-Counted :
      (cmd : String) (t : Tally) (h : List Event) → Counted 1 t (run_command c e cmd t h).0
  unfolding run_command
  run_command-Counted cmd t h = run_words-Counted cmd (c.shlex_split cmd) t h

  run_commands-Counted :
      (cmds : List String) (t : Tally) (h : List Event)
      → Counted (length cmds) t (run_commands c e cmds t h).0
  unfolding run_commands
  run_commands-Counted [] t h = (omega arith, omega arith)
  run_commands-Counted (cmd ∷ cmds) t h =
      let one = run_command-Counted cmd t h in
      let next = run_command c e cmd t h in
      let rest = run_commands-Counted cmds next.0 next.1 in
      (omega (arith, one.0, rest.0), omega (arith, one.1, rest.1))

  -- The command loop counts every command once, as applied or as failed, and has one error line for
  -- each failure, whatever the commands answer and however they split into words.
  pub run_commands_counts :
      (cmds : List String) (h : List Event)
      → let t = (run_commands c e cmds start_tally h).0 in
        (t.applied + t.failed ≡ length cmds) × (length t.errors ≡ t.failed)
  run_commands_counts cmds h =
      let all = run_commands-Counted cmds start_tally h in
      (omega (arith, all.0), omega (arith, all.1))
