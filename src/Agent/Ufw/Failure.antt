-- ===== src/Agent/Ufw/Failure.antt =====
-- What the UFW backend of crates/fw-agent/src/backend/mod.rs answers when `ufw` does not work.
use linux_host_firewall_mana.Prelude.{
  ℕ, zero, suc, ◌+◌, ◌*◌, ◌≤◌, String, ◌≡◌, refl, inl, inr, true, false, none, List, arith,
  Bool-cases, Option-cases, ok,
}
use linux_host_firewall_mana.Prelude.Lists.{length}
use linux_host_firewall_mana.Crates.{Crates}
use linux_host_firewall_mana.Models.{FirewallRule}
use linux_host_firewall_mana.Agent.Os.{Event, failed, Env}
use linux_host_firewall_mana.Agent.Backend.{ApplyContext, Ran, run_cmd, detect_container_runtime}
use linux_host_firewall_mana.Agent.State.{Agent}
use linux_host_firewall_mana.Agent.Protected.{check_rules_against_protected}
use linux_host_firewall_mana.Agent.Apply.{
  has_umbilical, acquire_apply_lock, settle, compile_and_apply, under_lock, apply_rules,
}
use linux_host_firewall_mana.Agent.Ufw.{
  compile, collided_ufw_backup, retry_reset, ufw_force_reset, after_reset, apply, ufw_backend,
  failed_result,
}

module _ (c : Crates) (e : Env) where
  retry_reset_bounds :
      (rounds : ℕ) (r : Ran) (h : List Event)
      → length (retry_reset c e rounds r h).1 ≤ length h + 2 * rounds
  unfolding retry_reset run_cmd
  retry_reset_bounds zero r h = omega arith
  retry_reset_bounds (suc rounds) r h = elim (Bool-cases r.ok) [
    | inl fine ↦ rw fine (omega arith)
    | inr broken ↦ elim (Option-cases (collided_ufw_backup r.stderr)) [
      | inl other ↦ rw (broken, retry_reset, other) (omega arith)
      | inr (backup, hit) ↦ elim (Bool-cases (e.removed h backup)) [
        | inr stuck ↦ rw (broken, retry_reset, hit, stuck) (omega arith)
        | inl gone ↦
            rw (broken, retry_reset, hit, gone) (omega (arith, retry_reset_bounds rounds _ _))
      ]
    ]
  ]

  -- A reset ends after at most nine runs of `ufw` and eight removals of a backup file, whatever they
  -- answer.
  pub ufw_force_reset_bounds : (h : List Event) → length (ufw_force_reset c e h).1 ≤ length h + 17
  unfolding ufw_force_reset run_cmd
  ufw_force_reset_bounds h = omega (arith, retry_reset_bounds 8 _ _)

  retry_reset-other :
      (rounds : ℕ) (r : Ran) (h : List Event)
      → collided_ufw_backup r.stderr ≡ none
      → (retry_reset c e rounds r h).0 ≡ r
  unfolding retry_reset
  retry_reset-other zero r h other = refl
  retry_reset-other (suc rounds) r h other = elim (Bool-cases r.ok) [
    | inl fine ↦ rw (fine, retry_reset) (cc (fine))
    | inr broken ↦ rw (broken, retry_reset, other) (cc (broken))
  ]

  module _ (message : String)
      (broken : (h : List Event) (args : List String) → e.output h "ufw" args ≡ failed message)
      (other : collided_ufw_backup message ≡ none) where
    reset_failed :
        (h : List Event)
        → (ufw_force_reset c e h).0 ≡ record { ok = false; stdout = ""; stderr = message }
    unfolding ufw_force_reset run_cmd
    reset_failed h = rw (broken h) (retry_reset-other 8 _ _ other)

    apply_failed :
        (cmds : _) (h : List Event)
        → (apply c e cmds h).0 ≡ ok (failed_result c e "ufw reset failed: " message)
    unfolding apply after_reset
    apply_failed cmds h = rw (reset_failed (detect_container_runtime e h).1) refl

    -- Where every run of `ufw` fails to start, with a message about no backup file, and the lock is
    -- free: for rules that pass the check of protected networks and a usable manager address, applying
    -- them is reported as a success, with the empty hash.
    pub apply_rules-no_ufw :
        (rules : List FirewallRule) (cidrs : List String) (ctx : ApplyContext) (s : Agent)
        → ((h : List Event) → e.lock_error h ≡ none)
        → check_rules_against_protected c rules cidrs ≡ ok tt
        → has_umbilical c ctx ≡ true
        → (apply_rules c e (ufw_backend c e) rules cidrs ctx s).0 ≡ ok ""
    unfolding apply_rules acquire_apply_lock under_lock compile_and_apply compile settle
    apply_rules-no_ufw rules cidrs ctx s free clear tied =
        rw (clear, apply_rules, tied, free s.history, apply_failed) refl
