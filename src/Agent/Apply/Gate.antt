-- ===== src/Agent/Apply/Gate.antt =====
-- What `apply_rules` of crates/fw-agent/src/pull_loop.rs lets reach the host, and what it keeps.
use linux_host_firewall_mana.Prelude.{
  String, ◌≡◌, refl, ◌⊎◌, inl, inr, true, false, Option, none, some, List, Bool-cases, Option-cases,
  ltb, Result, ok, err,
}
use linux_host_firewall_mana.Prelude.Lists.{All}
use linux_host_firewall_mana.Crates.{Crates, NetLaws}
use linux_host_firewall_mana.Models.{FirewallRule}
use linux_host_firewall_mana.Agent.Os.{Event, Env}
use linux_host_firewall_mana.Agent.Backend.{
  BackendError, CompiledRules, ApplyContext, ApplyResult, FirewallBackend,
}
use linux_host_firewall_mana.Agent.State.{Agent}
use linux_host_firewall_mana.Agent.SafeMode.{save_last_good}
use linux_host_firewall_mana.Agent.Protected.{check_rules_against_protected}
use linux_host_firewall_mana.Agent.Protected.Check.{IsSafe, check_rules_against_protected_iff}
use linux_host_firewall_mana.Agent.Apply.{
  has_umbilical, acquire_apply_lock, settle, compile_and_apply, under_lock, apply_rules,
}

abbrev pub last_good_path : String
last_good_path = "/var/lib/firewall-agent/last_good.rules.json"

-- The outcome of a check with nothing to say on success.
check-cases :
    (o : Result (Unit {0}) (List String)) → (o ≡ ok tt) ⊎ ((found : List String) × (o ≡ err found))
check-cases (ok tt) = inl refl
check-cases (err found) = inr (found, refl)

module _ (c : Crates) (e : Env) (backend : FirewallBackend) where
  -- The same agent but for the history, or with the rules saved, or with the saved rules lost in a
  -- write that failed.
  abbrev pub Touched : List FirewallRule → Agent → Agent → Type 0
  Touched rules s s' =
      (s' ≡ record s { history = s'.history })
      ⊎ ((s' ≡ record s { history = s'.history; disk = record s.disk { last_good = some rules } })
          ⊎ (s' ≡ record s { history = s'.history; disk = record s.disk { last_good = none } }))

  -- What an apply may change: nothing of the agent but the history of its actions, unless it
  -- succeeds, and then the saved ruleset.
  abbrev Outcome : List FirewallRule → Agent → Result String String × Agent → Type 0
  Outcome rules s out =
      ((f : String) → out.0 ≡ err f → out.1 ≡ record s { history = out.1.history })
      × ((hash : String)
          → out.0 ≡ ok hash
          → ((h : List Event) → e.writable h last_good_path ≡ true)
          → out.1
            ≡ record s { history = out.1.history; disk = record s.disk { last_good = some rules } })
      × Touched rules s out.1

  settle_lem :
      (rules : List FirewallRule) (r : Result ApplyResult BackendError) (s : Agent)
      → Outcome rules s (settle e rules r s)
  unfolding settle save_last_good
  settle_lem rules (err f) s = (λ g h. refl, λ hash h w. cc (h), inl refl)
  settle_lem rules (ok result) s = elim (Bool-cases (ltb 0 result.failed)) [
    | inl broken ↦ rw broken (λ g h. refl, λ hash h w. cc (h), inl refl)
    | inr fine ↦ rw fine (
      λ g h. cc (h),
      λ hash h w. rw (w s.history) refl,
      elim (Bool-cases (e.writable s.history last_good_path)) [
        | inl free ↦ rw free (inr (inl refl))
        | inr full ↦ elim (Option-cases (e.left s.history last_good_path)) [
          | inl unopened ↦ rw (full, unopened) (inl refl)
          | inr (part, cut) ↦ rw (full, cut) (inr (inr refl))
        ]
      ],
    )
  ]

  compile_and_apply_lem :
      (rules : List FirewallRule) (r : Result CompiledRules BackendError) (s : Agent)
      → Outcome rules s (compile_and_apply e backend rules r s)
  unfolding compile_and_apply
  compile_and_apply_lem rules (err f) s = (λ g h. refl, λ hash h w. cc (h), inl refl)
  compile_and_apply_lem rules (ok compiled) s =
      settle_lem rules (backend.apply compiled s.history).0
        (record s { history = (backend.apply compiled s.history).1 })

  under_lock_lem :
      (rules : List FirewallRule) (ctx : ApplyContext) (o : Option String) (s : Agent)
      → Outcome rules s (under_lock e backend rules ctx o s)
  unfolding under_lock
  under_lock_lem rules ctx (some f) s = (λ g h. refl, λ hash h w. cc (h), inl refl)
  under_lock_lem rules ctx none s = compile_and_apply_lem rules (backend.compile rules ctx) s

  apply_rules_lem :
      (rules : List FirewallRule) (cidrs : List String) (ctx : ApplyContext) (s : Agent)
      → Outcome rules s (apply_rules c e backend rules cidrs ctx s)
  unfolding apply_rules acquire_apply_lock
  apply_rules_lem rules cidrs ctx s =
      elim (check-cases (check_rules_against_protected c rules cidrs)) [
        | inr (found, refused) ↦
            rw (refused, apply_rules) (λ g h. refl, λ hash h w. cc (h), inl refl)
        | inl clear ↦ elim (Bool-cases (has_umbilical c ctx)) [
          | inr severed ↦
              rw (clear, apply_rules, severed) (λ g h. refl, λ hash h w. cc (h), inl refl)
          | inl tied ↦
              rw (clear, apply_rules, tied)
                (under_lock_lem rules ctx (e.lock_error s.history) (acquire_apply_lock e s).1)
        ]
      ]

  -- An apply that answers an error, whatever failed, leaves the agent's files, configuration, timers
  -- and cached defaults as they were: only the record of what ran on the host has grown.
  pub apply_rules_err :
      (rules : List FirewallRule) (cidrs : List String) (ctx : ApplyContext) (s : Agent)
      (f : String)
      → (apply_rules c e backend rules cidrs ctx s).0 ≡ err f
      → (apply_rules c e backend rules cidrs ctx s).1
        ≡ record s { history = (apply_rules c e backend rules cidrs ctx s).1.history }
  apply_rules_err rules cidrs ctx s f failure = (apply_rules_lem rules cidrs ctx s).0 f failure

  pub apply_rules-Touched :
      (rules : List FirewallRule) (cidrs : List String) (ctx : ApplyContext) (s : Agent)
      → Touched rules s (apply_rules c e backend rules cidrs ctx s).1
  apply_rules-Touched rules cidrs ctx s = (apply_rules_lem rules cidrs ctx s).2

  -- An apply that succeeds, where the ruleset file can be written, saves exactly the rules that it was
  -- given, and changes no other file, setting or timer.
  pub apply_rules_saves :
      (rules : List FirewallRule) (cidrs : List String) (ctx : ApplyContext) (s : Agent)
      (hash : String)
      → (apply_rules c e backend rules cidrs ctx s).0 ≡ ok hash
      → ((h : List Event) → e.writable h last_good_path ≡ true)
      → (apply_rules c e backend rules cidrs ctx s).1 ≡ record s {
        history = (apply_rules c e backend rules cidrs ctx s).1.history;
        disk = record s.disk { last_good = some rules };
      }
  apply_rules_saves rules cidrs ctx s hash done free =
      (apply_rules_lem rules cidrs ctx s).1 hash done free

  module _ (laws : NetLaws c) where
    -- A ruleset that is applied is safe for the protected networks, each rule of it, and the manager's
    -- address is a specific IP address.
    pub apply_rules_ok :
        (rules : List FirewallRule) (cidrs : List String) (ctx : ApplyContext) (s : Agent)
        (hash : String)
        → (apply_rules c e backend rules cidrs ctx s).0 ≡ ok hash
        → All (IsSafe c laws cidrs) rules × (has_umbilical c ctx ≡ true)
    unfolding apply_rules
    apply_rules_ok rules cidrs ctx s hash done =
        elim (check-cases (check_rules_against_protected c rules cidrs)) [
          | inr (found, refused) ↦ cc (refused, done)
          | inl clear ↦ elim (Bool-cases (has_umbilical c ctx)) [
            | inr severed ↦ cc (clear, severed, done)
            | inl tied ↦ ((check_rules_against_protected_iff c laws rules cidrs).0 clear, tied)
          ]
        ]

    -- With an unsafe rule, or with no specific IP address of the manager, nothing happens: no command
    -- runs, the lock is not taken and no file changes.
    pub apply_rules_refused :
        (rules : List FirewallRule) (cidrs : List String) (ctx : ApplyContext) (s : Agent)
        → (¬ All (IsSafe c laws cidrs) rules) ⊎ (has_umbilical c ctx ≡ false)
        → (apply_rules c e backend rules cidrs ctx s).1 ≡ s
    unfolding apply_rules
    apply_rules_refused rules cidrs ctx s why =
        elim (check-cases (check_rules_against_protected c rules cidrs)) [
          | inr (found, refused) ↦ rw (refused, apply_rules) refl
          | inl clear ↦ elim why [
            | inl unsafe ↦
                absurd (unsafe ((check_rules_against_protected_iff c laws rules cidrs).0 clear))
            | inr severed ↦ rw (clear, apply_rules, severed) refl
          ]
        ]
