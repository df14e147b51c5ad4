-- ===== src/Agent/Cycle/Revert.antt =====
-- What the safe-mode revert of crates/fw-agent/src/pull_loop.rs keeps.
use linux_host_firewall_mana.Prelude.{
  ℕ, String, ◌≡◌, refl, ap, ◌∙◌, ◌⊎◌, inl, inr, true, false, none, some, List, arith, ltb,
  Bool-cases, Option-cases, Result, ok, err,
}
use linux_host_firewall_mana.Prelude.Lists.{is_empty}
use linux_host_firewall_mana.Crates.{Crates}
use linux_host_firewall_mana.Models.{FirewallRule}
use linux_host_firewall_mana.Agent.Os.{Env}
use linux_host_firewall_mana.Agent.Backend.{FirewallBackend}
use linux_host_firewall_mana.Agent.State.{Agent}
use linux_host_firewall_mana.Agent.SafeMode.{elapsed_secs, check, check_at}
use linux_host_firewall_mana.Agent.Apply.{manager_endpoint, apply_rules}
use linux_host_firewall_mana.Agent.Apply.Gate.{Touched, apply_rules-Touched}
use linux_host_firewall_mana.Agent.Cycle.{
  cached_defaults, context, try, reapply_last_good, revert, unreachable,
}

module _ (c : Crates) (e : Env) (backend : FirewallBackend) where
  -- The files and the configuration are the same, but that the saved ruleset may be lost.
  abbrev pub IsKept : Agent → Agent → Type 0
  IsKept s s' =
      ((s'.disk ≡ s.disk) ⊎ (s'.disk ≡ record s.disk { last_good = none }))
      × (s'.config ≡ s.config)
      × (s'.interval_secs ≡ s.interval_secs)
      × (s'.config_version ≡ s.config_version)

  IsKept-of_Touched :
      (rules : List FirewallRule) (s s' : Agent)
      → s.disk.last_good ≡ some rules
      → Touched c e backend rules s s'
      → IsKept s s'
  IsKept-of_Touched rules s s' saved (inl same) = (
    inl (ap (λ a. a.disk) same),
    ap (λ a. a.config) same,
    ap (λ a. a.interval_secs) same,
    ap (λ a. a.config_version) same,
  )
  IsKept-of_Touched rules s s' saved (inr (inl again)) = (
    inl (ap (λ a. a.disk) again ∙ rw⁻¹ saved refl),
    ap (λ a. a.config) again,
    ap (λ a. a.interval_secs) again,
    ap (λ a. a.config_version) again,
  )
  IsKept-of_Touched rules s s' saved (inr (inr lost)) = (
    inr (ap (λ a. a.disk) lost),
    ap (λ a. a.config) lost,
    ap (λ a. a.interval_secs) lost,
    ap (λ a. a.config_version) lost,
  )

  try-IsKept :
      (endpoint : String × ℕ) (s : Agent)
      → IsKept s (try c e backend (reapply_last_good c e backend endpoint s) s).1
  unfolding reapply_last_good
  try-IsKept endpoint s = elim (Option-cases s.disk.last_good) [
    | inl nothing ↦
        let step : reapply_last_good c e backend endpoint s ≡ none = ground arith in
        rw step (inl refl, refl, refl, refl)
    | inr (rules, saved) ↦ elim (Bool-cases (is_empty rules)) [
      | inl blank ↦
          let step : reapply_last_good c e backend endpoint s ≡ none = ground arith in
          rw step (inl refl, refl, refl, refl)
      | inr listed ↦
          let ctx = context endpoint (cached_defaults s) in
          let step : reapply_last_good c e backend endpoint s
              ≡ some (apply_rules c e backend rules s.config.protected_cidrs ctx) =
            ground arith in
          rw step (
            IsKept-of_Touched rules s _ saved
              (apply_rules-Touched c e backend rules s.config.protected_cidrs ctx s))
    ]
  ]

  revert-IsKept : (s : Agent) → IsKept s (revert c e backend s).1
  unfolding revert
  revert-IsKept s = go (manager_endpoint c s.config.pull.manager_agent_url) refl
    where
      go :
          (o : Result (String × ℕ) String)
          → manager_endpoint c s.config.pull.manager_agent_url ≡ o
          → IsKept s (revert c e backend s).1
      go (err f) eq = rw (eq, revert) (inl refl, refl, refl, refl)
      go (ok endpoint) eq = rw (eq, revert) (try-IsKept endpoint s)

  -- A check-in that fails leaves the agent's configuration, its interval and its files as they were,
  -- whether or not the last known good ruleset is applied again, and however that ends, with one
  -- exception: the file of that ruleset, whose writing back may have failed and left no ruleset.
  pub unreachable-IsKept : (s : Agent) → IsKept s (unreachable c e backend s).1
  unfolding unreachable check check_at
  unreachable-IsKept s = elim (Bool-cases s.config.safe_mode_enabled) [
    | inr off ↦ simp off (inl refl, refl, refl, refl)
    | inl on ↦
        elim (Bool-cases (
          ltb s.safe_mode.timeout_secs
            (elapsed_secs (e.seconds s.history) s.safe_mode.last_manager_contact))) [
              | inl late ↦
                  simp (on, late)
                    (revert-IsKept
                      (record s { safe_mode = record s.safe_mode { safe_mode_active = true } }))
              | inr early ↦ simp (on, early) (inl refl, refl, refl, refl)
            ]
  ]

  -- Safe mode on, the timeout over, a usable manager address and a saved ruleset of at least one rule:
  -- a failed check-in applies the saved ruleset, with the cached default policies, and leaves what that
  -- apply leaves, with the safe-mode flag raised.
  pub unreachable-reverts :
      (s : Agent) (endpoint : String × ℕ) (rules : List FirewallRule)
      → s.config.safe_mode_enabled ≡ true
      → ltb s.safe_mode.timeout_secs
          (elapsed_secs (e.seconds s.history) s.safe_mode.last_manager_contact)
        ≡ true
      → manager_endpoint c s.config.pull.manager_agent_url ≡ ok endpoint
      → s.disk.last_good ≡ some rules
      → is_empty rules ≡ false
      → (unreachable c e backend s).1
        ≡ (apply_rules c e backend rules s.config.protected_cidrs
            (context endpoint (cached_defaults s))
            (record s { safe_mode = record s.safe_mode { safe_mode_active = true } })).1
  unfolding unreachable check check_at revert reapply_last_good
  unreachable-reverts s endpoint rules on late known saved listed =
      let s' : Agent = record s { safe_mode = record s.safe_mode { safe_mode_active = true } } in
      let step : reapply_last_good c e backend endpoint s'
          ≡ some (
              apply_rules c e backend rules s.config.protected_cidrs
                (context endpoint (cached_defaults s))) =
        ground arith in
      let first : (unreachable c e backend s).1 ≡ (revert c e backend s').1 =
        simp (on, late) refl in
      first ∙ rw (known, revert, step) refl
