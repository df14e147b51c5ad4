-- ===== src/Agent/Protected/Check.antt =====
-- What the check of crates/fw-agent/src/protected_cidrs.rs lets through.
use mathlib.Core.Path.{subst}
use linux_host_firewall_mana.Prelude.{
  String, ◌≡◌, refl, sym, ◌∙◌, ◌↔◌, inl, inr, true, Option, none, some, List, [], ◌∷◌, ◌++◌, arith,
  Bool-cases, Option-cases, ok,
}
use linux_host_firewall_mana.Prelude.Lists.{All}
use linux_host_firewall_mana.Crates.{Crates, NetLaws}
use linux_host_firewall_mana.Models.{FirewallRule, is_allow, is_blocking}
use linux_host_firewall_mana.Agent.Protected.{
  is_broad_src, nets_overlap, find_overlap, overlaps_protected, overlap_of, report,
  blocks_protected, exposes_protected, violations, check_rules_against_protected,
}
use linux_host_firewall_mana.Agent.Protected.Overlap.{Meet, nets_overlap_iff}

append-nil_parts : (xs ys : List String) → (xs ++ ys) ≡ [] → (xs ≡ []) × (ys ≡ [])
append-nil_parts [] ys h = (refl, h)
append-nil_parts (x ∷ xs) ys h = cc

module _ (c : Crates) (laws : NetLaws c) where
  -- No address of the network lies in a protected network that parses.
  abbrev pub ClearOf : List String → c.IpNet → Type 0
  ClearOf cidrs net = All (λ p. (m : c.IpNet) → c.parse_net p ≡ some m → ¬ Meet c laws net m) cidrs

  -- So for the network that an optional CIDR text stands for, if there is one.
  abbrev pub IsApart : List String → Option String → Type 0
  IsApart cidrs o =
      (s : String) (net : c.IpNet) → o ≡ some s → c.parse_net s ≡ some net → ClearOf cidrs net

  -- The rule neither blocks an address of a protected network by its source, nor opens one as its
  -- destination to every source.
  pub record IsSafe (cidrs : List String) (r : FirewallRule) : Type 0 where
    pub blocks_none : is_blocking r.action ≡ true → IsApart cidrs r.src_cidr
    pub exposes_none :
        is_allow r.action ≡ true → is_broad_src r.src_cidr ≡ true → IsApart cidrs r.dst_cidr

  find_overlap-none_iff :
      (net : c.IpNet) (cidrs : List String) → (find_overlap c net cidrs ≡ none) ↔ ClearOf cidrs net
  unfolding find_overlap
  find_overlap-none_iff net [] = (λ h. tt, λ h. refl)
  find_overlap-none_iff net (p ∷ cidrs) = elim (Option-cases (c.parse_net p)) [
    | inl bad ↦
        rw (bad, find_overlap)
          (
            λ h. ((λ m e. cc), (find_overlap-none_iff net cidrs).0 h),
            λ h. (find_overlap-none_iff net cidrs).1 h.1,
          )
    | inr (m, good) ↦ elim (Bool-cases (nets_overlap c net m)) [
      | inl hit ↦
          (λ h. cc (good, hit, h), λ h. absurd (h.0 m good ((nets_overlap_iff c laws net m).0 hit)))
      | inr miss ↦
          let step : find_overlap c net (p ∷ cidrs) ≡ find_overlap c net cidrs = ground arith in
          (
            λ h. (
              (λ m' e meet. cc (good, e, miss, (nets_overlap_iff c laws net m').1 meet)),
              (find_overlap-none_iff net cidrs).0 (sym step ∙ h),
            ),
            λ h. step ∙ (find_overlap-none_iff net cidrs).1 h.1,
          )
    ]
  ]

  overlaps-none_iff :
      (cidrs : List String) (o : Option String) → (overlap_of c o cidrs ≡ none) ↔ IsApart cidrs o
  unfolding overlaps_protected
  overlaps-none_iff cidrs none = (λ h s net e p. cc, λ h. refl)
  overlaps-none_iff cidrs (some s) = elim (Option-cases (c.parse_net s)) [
    | inl bad ↦ rw (bad, overlaps_protected) (λ h s' net e p. cc (e, p, bad), λ h. refl)
    | inr (net, good) ↦
        let step : overlap_of c (some s) cidrs ≡ find_overlap c net cidrs =
          rw (good, overlaps_protected) in
        let exact = find_overlap-none_iff net cidrs in
        (
          λ h s' net' e p.
              let same : net ≡ net' = cc (good, e, p) in
              subst (ClearOf cidrs) same (exact.0 (sym step ∙ h)),
          λ h. step ∙ exact.1 (h s net refl good),
        )
  ]

  report-nil_iff :
      (message : String → String) (o : Option String) → (report c message o ≡ []) ↔ (o ≡ none)
  report-nil_iff message none = (λ h. refl, λ h. refl)
  report-nil_iff message (some p) = (λ h. cc, λ h. cc)

  blocks-nil_iff :
      (cidrs : List String) (r : FirewallRule)
      → (blocks_protected c r cidrs ≡ []) ↔ (is_blocking r.action ≡ true → IsApart cidrs r.src_cidr)
  unfolding blocks_protected
  blocks-nil_iff cidrs r = elim (Bool-cases (is_blocking r.action)) [
    | inl blocking ↦
        let exact = overlaps-none_iff cidrs r.src_cidr in
        rw blocking (
          (λ h _. exact.0 ((report-nil_iff _ _).0 h)),
          (λ h. (report-nil_iff _ _).1 (exact.1 (h refl))),
        )
    | inr open_ ↦ rw open_ (λ h e. cc (e), λ h. refl)
  ]

  exposes-nil_iff :
      (cidrs : List String) (r : FirewallRule)
      → (exposes_protected c r cidrs ≡ [])
        ↔ (is_allow r.action ≡ true → is_broad_src r.src_cidr ≡ true → IsApart cidrs r.dst_cidr)
  unfolding exposes_protected
  exposes-nil_iff cidrs r = elim (Bool-cases (is_allow r.action)) [
    | inr other ↦ rw other (λ h e. cc (e), λ h. refl)
    | inl allow ↦ elim (Bool-cases (is_broad_src r.src_cidr)) [
      | inr narrow ↦ rw (allow, narrow) (λ h _ e. cc (e), λ h. refl)
      | inl broad ↦
          let exact = overlaps-none_iff cidrs r.dst_cidr in
          rw (allow, broad)
            (
              (λ h _ _. exact.0 ((report-nil_iff _ _).0 h)),
              (λ h. (report-nil_iff _ _).1 (exact.1 (h refl refl))),
            )
    ]
  ]

  violations-nil_iff :
      (cidrs : List String) (rules : List FirewallRule)
      → (violations c rules cidrs ≡ []) ↔ All (IsSafe cidrs) rules
  unfolding violations
  violations-nil_iff cidrs [] = (λ h. tt, λ h. refl)
  violations-nil_iff cidrs (r ∷ rules) =
      let blocks = blocks-nil_iff cidrs r in
      let exposes = exposes-nil_iff cidrs r in
      let rest = violations-nil_iff cidrs rules in
      (
        λ h.
            let (b, h') = append-nil_parts _ _ h in
            let (x, r') = append-nil_parts _ _ h' in
            (record { blocks_none = blocks.0 b; exposes_none = exposes.0 x }, rest.0 r'),
        λ h. cc (blocks.1 h.0.blocks_none, exposes.1 h.0.exposes_none, rest.1 h.1),
      )

  -- A ruleset passes the check exactly when every rule in it is safe: a deny or reject rule whose
  -- source parses shares no address with a protected network that parses, and an allow rule from a
  -- broad source has no such destination.
  pub check_rules_against_protected_iff :
      (rules : List FirewallRule) (cidrs : List String)
      → (check_rules_against_protected c rules cidrs ≡ ok tt) ↔ All (IsSafe cidrs) rules
  unfolding check_rules_against_protected
  check_rules_against_protected_iff rules [] = (λ h. all_safe rules, λ h. refl)
    where
      all_safe : (rules : List FirewallRule) → All (IsSafe []) rules
      all_safe [] = tt
      all_safe (r ∷ rules) = (
        record { blocks_none = λ _ s net _ _. tt; exposes_none = λ _ _ s net _ _. tt },
        all_safe rules,
      )
  check_rules_against_protected_iff rules (p ∷ cidrs) =
      let exact = violations-nil_iff (p ∷ cidrs) rules in
      (λ h. exact.0 (ground arith), λ h. rw (exact.1 h))
