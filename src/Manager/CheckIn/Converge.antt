-- ===== src/Manager/CheckIn/Converge.antt =====
-- The hash of a ruleset on its way from the manager (crates/fw-web/src/routes/agent_api.rs) to the
-- agent (crates/fw-agent/src/pull_loop.rs) and back.
use linux_host_firewall_mana.Prelude.{
  ℕ, suc, ◌≡◌, refl, sym, ap, ◌∙◌, true, false, none, some, Option, List, [], ◌∷◌, map, ◌==◌, not,
  eq_iff, arith,
}
use linux_host_firewall_mana.Prelude.Lists.{length, length-append}
use linux_host_firewall_mana.Crates.{Crates}
use linux_host_firewall_mana.Models.{
  FirewallAction, FirewallDirection, FirewallProtocol, FirewallRule, action_str, direction_str,
  protocol_str, compute_rules_hash,
}
use linux_host_firewall_mana.Agent.Wire.{
  parse_action, parse_direction, parse_protocol, dto_to_rule, rule_parts,
}
use linux_host_firewall_mana.Agent.State.{Disk}
use linux_host_firewall_mana.Agent.Cycle.{reported_rules_hash}
use linux_host_firewall_mana.Manager.Db.{Db, assigned_set}
use linux_host_firewall_mana.Manager.CheckIn.{
  CheckInRequest, text_row, row_parts, rule_to_dto, fetch_rules_for_policy_set, policy_rows,
  expected_hash, check_in,
}

parse-action_str : (a : FirewallAction) → parse_action (action_str a) ≡ a
unfolding parse_action
parse-action_str FirewallAction.allow = refl
parse-action_str _ = refl

parse-direction_str : (d : FirewallDirection) → parse_direction (direction_str d) ≡ d
unfolding parse_direction
parse-direction_str FirewallDirection.out = refl
parse-direction_str _ = refl

parse-protocol_str : (p : FirewallProtocol) → parse_protocol (protocol_str p) ≡ p
unfolding parse_protocol
parse-protocol_str FirewallProtocol.any = refl
parse-protocol_str _ = refl

-- Over the wire and back, a rule keeps all that is hashed and all that is compiled to a command but
-- its comment, which becomes the rule's name.
pub dto_to_rule-text_row :
    (t : ℕ) (r : FirewallRule)
    → dto_to_rule t (rule_to_dto (text_row r)) ≡ record r {
      description = "";
      comment = r.name;
      created_by = none;
      created_at = t;
      updated_at = t;
    }
unfolding dto_to_rule
dto_to_rule-text_row t r =
    cc (parse-action_str r.action, parse-direction_str r.direction, parse-protocol_str r.protocol)

parts-dto_to_rule :
    (t : ℕ) (r : FirewallRule)
    → rule_parts (dto_to_rule t (rule_to_dto (text_row r))) ≡ row_parts (text_row r)
parts-dto_to_rule t r = ap rule_parts (dto_to_rule-text_row t r)

map_parts :
    (t : ℕ) (rules : List FirewallRule)
    → map rule_parts (map (dto_to_rule t) (map rule_to_dto (map text_row rules)))
      ≡ map row_parts (map text_row rules)
map_parts t [] = refl
map_parts t (r ∷ rules) = cc (parts-dto_to_rule t r, map_parts t rules)

module _ (c : Crates) (stored : ℕ → ℕ) (now : ℕ) where
  abbrev after : ℕ → CheckInRequest → Db → Db
  after host req db = (check_in c stored now host req db).1

  -- A check-in leaves the policy tables alone.
  same_policy :
      (host : ℕ) (req : CheckInRequest) (db : Db)
      → ((after host req db).host_policy_assignments ≡ db.host_policy_assignments)
        × ((after host req db).set_rule_groups ≡ db.set_rule_groups)
        × ((after host req db).firewall_rules ≡ db.firewall_rules)
  unfolding check_in
  same_policy host req db = (ground arith, ground arith, ground arith)

  expected-after :
      (host : ℕ) (req : CheckInRequest) (db : Db) (set : Option ℕ)
      → expected_hash c stored now (after host req db) set ≡ expected_hash c stored now db set
  unfolding expected_hash fetch_rules_for_policy_set
  expected-after host req db none = refl
  expected-after host req db (some set) =
      let (_, groups, rules) = same_policy host req db in cc (groups, rules)

  changed_lem :
      (host : ℕ) (req : CheckInRequest) (db : Db)
      → (check_in c stored now host req db).0.rules_changed
        ≡ not (
            req.rules_hash
            == expected_hash c stored now db (assigned_set host db.host_policy_assignments))
  unfolding check_in
  changed_lem host req db = refl

  rules_lem :
      (host : ℕ) (req : CheckInRequest) (db : Db)
      → (check_in c stored now host req db).0.rules
        ≡ map rule_to_dto (policy_rows db (assigned_set host db.host_policy_assignments))
  unfolding check_in
  rules_lem host req db = refl

  reported_lem :
      (t set : ℕ) (db : Db) (d : Disk)
      → d.last_good ≡ some (map (dto_to_rule t) (map rule_to_dto (policy_rows db (some set))))
      → reported_rules_hash c d ≡ expected_hash c stored now db (some set)
  unfolding reported_rules_hash expected_hash policy_rows fetch_rules_for_policy_set
  reported_lem t set db d saved =
      rw (saved, reported_rules_hash) (ap (compute_rules_hash c) (map_parts t _))

-- Convergence: a host has an assigned policy set and checks in; the agent keeps the rules of the
-- answer as its last applied ruleset. Whatever its next request says besides the hash that the agent
-- computes from that ruleset, and whenever it comes, the manager answers that no rule changed.
pub check_in-converges :
    (c : Crates) (stored : ℕ → ℕ) (now later t host set : ℕ) (first next : CheckInRequest) (db : Db)
    (d : Disk)
    → assigned_set host db.host_policy_assignments ≡ some set
    → d.last_good ≡ some (map (dto_to_rule t) (check_in c stored now host first db).0.rules)
    → next.rules_hash ≡ reported_rules_hash c d
    → (check_in c stored later host next (check_in c stored now host first db).1).0.rules_changed
      ≡ false
unfolding expected_hash
check_in-converges c stored now later t host set first next db d assigned saved hash =
    let db' = (check_in c stored now host first db).1 in
    let (kept, _, _) = same_policy c stored now host first db in
    let still : assigned_set host db'.host_policy_assignments ≡ some set =
      ap (assigned_set host) kept ∙ assigned in
    let rules = rules_lem c stored now host first db in
    let saved' : d.last_good
        ≡ some (map (dto_to_rule t) (map rule_to_dto (policy_rows db (some set)))) =
      rw (rules, assigned) at saved in
    let told = reported_lem c stored now t set db d saved' in
    let same : next.rules_hash ≡ expected_hash c stored later db' (some set) =
      hash ∙ (told ∙ sym (expected-after c stored now host first db (some set))) in
    changed_lem c stored later host next db'
    ∙ ap (λ o. not (next.rules_hash == expected_hash c stored later db' o)) still
    ∙ ap not ((eq_iff _ _).1 same)

-- A host that no policy set is assigned to and that never applied one, with no drift of its own: the
-- manager answers that its rules changed, sends none, and records one more drift snapshot, at every
-- check-in with the hash that the agent reports.
pub check_in-unassigned :
    (c : Crates) (stored : ℕ → ℕ) (now host : ℕ) (req : CheckInRequest) (db : Db) (d : Disk)
    → assigned_set host db.host_policy_assignments ≡ none
    → d.last_good ≡ none
    → req.rules_hash ≡ reported_rules_hash c d
    → req.local_drift ≡ false
    → ((check_in c stored now host req db).0.rules_changed ≡ true)
      × ((check_in c stored now host req db).0.rules ≡ [])
      × (length (check_in c stored now host req db).1.drift_snapshots
          ≡ suc (length db.drift_snapshots))
unfolding check_in reported_rules_hash expected_hash policy_rows
check_in-unassigned c stored now host req db d unassigned never hash calm =
    let blank : req.rules_hash ≡ "" = hash ∙ rw (never, reported_rules_hash) in
    rw (unassigned, blank, calm) (refl, refl, length-append db.drift_snapshots _ ∙ omega arith)
