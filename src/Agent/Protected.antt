-- ===== src/Agent/Protected.antt =====
-- crates/fw-agent/src/protected_cidrs.rs: rules that would lock the manager out, and the manager URL
-- as an address literal.
pub mod Overlap
pub mod Check
use linux_host_firewall_mana.Prelude.{
  ℕ, String, Bool, true, false, not, ◌&&◌, ◌||◌, Option, none, some, List, [], ◌∷◌, ◌++◌, ◌==◌,
  nat_eq, if◌then◌else◌, Result, ok, err,
}
use linux_host_firewall_mana.Prelude.Int.{show_ℕ}
use linux_host_firewall_mana.Prelude.Lists.{is_empty}
use linux_host_firewall_mana.Prelude.Text.{concat, trim, is_blank}
use linux_host_firewall_mana.Crates.{Crates, Url, IpAddr, v4, v6, is_ipv4, value}
use linux_host_firewall_mana.Models.{FirewallRule, is_allow, is_blocking, action_str}

-- No source, or a text for the network of all addresses, white space aside.
unfoldable pub is_broad_src : Option String → Bool
unfolding trim
is_broad_src none = true
is_broad_src (some s) =
    let t = trim s in is_blank t || t == "0.0.0.0/0" || t == "::/0" || t == "0.0.0.0" || t == "::"

-- `IpAddr::is_unspecified`
abbrev pub is_unspecified : IpAddr → Bool
is_unspecified ip = nat_eq (value ip) 0

module _ (c : Crates) where
  unfoldable pub nets_overlap : c.IpNet → c.IpNet → Bool
  nets_overlap rule_net protected_net =
      if is_ipv4 (c.network rule_net)
      then is_ipv4 (c.network protected_net)
        && (c.contains_ip rule_net (c.network protected_net)
            || c.contains_ip protected_net (c.network rule_net))
      else not (is_ipv4 (c.network protected_net))
        && (c.contains_ip rule_net (c.network protected_net)
            || c.contains_ip protected_net (c.network rule_net))

  -- The loop: an entry that does not parse is passed over.
  unfoldable pub find_overlap : c.IpNet → List String → Option String
  find_overlap rule_net [] = none
  find_overlap rule_net (protected ∷ rest) =
      let next = find_overlap rule_net rest in
      elim (c.parse_net protected) [
        | none ↦ next
        | some protected_net ↦ if nets_overlap rule_net protected_net then some protected else next
      ]

  unfoldable pub overlaps_protected : String → List String → Option String
  overlaps_protected cidr protected_cidrs = elim (c.parse_net cidr) [
    | none ↦ none
    | some rule_net ↦ find_overlap rule_net protected_cidrs
  ]

  abbrev pub overlap_of : Option String → List String → Option String
  overlap_of none protected_cidrs = none
  overlap_of (some cidr) protected_cidrs = overlaps_protected cidr protected_cidrs

  abbrev pub report : (String → String) → Option String → List String
  report message none = []
  report message (some p) = message p ∷ []

  -- (1) a deny or reject rule whose source covers a protected network
  unfoldable pub blocks_protected : FirewallRule → List String → List String
  blocks_protected rule protected_cidrs =
      if is_blocking rule.action
      then report
          (λ p. concat (
            "Rule '"
            ∷ rule.name
            ∷ "' would block protected CIDR "
            ∷ p
            ∷ " ("
            ∷ action_str rule.action
            ∷ ")"
            ∷ []))
          (overlap_of rule.src_cidr protected_cidrs)
      else []

  -- (2) an allow rule from a broad source to a protected destination
  unfoldable pub exposes_protected : FirewallRule → List String → List String
  exposes_protected rule protected_cidrs =
      if is_allow rule.action && is_broad_src rule.src_cidr
      then report
          (λ p.
            concat ("Rule '" ∷ rule.name ∷ "' allows broad traffic to protected CIDR " ∷ p ∷ []))
          (overlap_of rule.dst_cidr protected_cidrs)
      else []

  unfoldable pub violations : List FirewallRule → List String → List String
  violations [] protected_cidrs = []
  violations (rule ∷ rules) protected_cidrs =
      blocks_protected rule protected_cidrs
      ++ (exposes_protected rule protected_cidrs ++ violations rules protected_cidrs)

  unfoldable pub check_rules_against_protected :
      List FirewallRule → List String → Result (Unit {0}) (List String)
  check_rules_against_protected rules protected_cidrs =
      let found = violations rules protected_cidrs in
      if is_empty protected_cidrs then ok tt else if is_empty found then ok tt else err found

  -- The first usable address that the host name resolves to.
  first_specified : List IpAddr → Option IpAddr
  first_specified [] = none
  first_specified (ip ∷ ips) =
      let next = first_specified ips in if is_unspecified ip then next else some ip

  -- Bracket IPv6 literals in the authority component.
  host_repr : IpAddr → String
  host_repr (v6 n) = concat ("[" ∷ c.ip_string (v6 n) ∷ "]" ∷ [])
  host_repr (v4 n) = c.ip_string (v4 n)

  finish_url : String → ℕ → IpAddr → Result String String
  unfolding host_repr show_ℕ
  finish_url scheme port ip =
      if is_unspecified ip
      then err (
          concat (
            "manager address must be a specific IP, got "
            ∷ c.ip_string ip
            ∷ " — set the manager server.host to a real address, not a bind address"
            ∷ []))
      else ok (concat (scheme ∷ "://" ∷ host_repr ip ∷ ":" ∷ show_ℕ port ∷ []))

  -- `to_socket_addrs` of the host name: a list of addresses, or the resolver's error.
  resolve : (String → Result (List IpAddr) String) → String → ℕ → Result IpAddr String
  unfolding first_specified show_ℕ
  resolve to_socket_addrs host port = elim (c.parse_ip host) [
    | some ip ↦ ok ip
    | none ↦ elim (to_socket_addrs (concat (host ∷ ":" ∷ show_ℕ port ∷ []))) [
      | err e ↦ err (concat ("failed to resolve manager hostname " ∷ host ∷ ": " ∷ e ∷ []))
      | ok ips ↦ elim (first_specified ips) [
        | some ip ↦ ok ip
        | none ↦ err (concat ("manager hostname " ∷ host ∷ " resolved to no usable IP" ∷ []))
      ]
    ]
  ]

  with_host_port : (String → Result (List IpAddr) String) → Url → Result String String
  unfolding resolve finish_url
  with_host_port to_socket_addrs parsed = elim parsed.host [
    | none ↦ err "manager URL has no host"
    | some host ↦ elim parsed.port [
      | none ↦ err "manager URL has no port"
      | some port ↦ elim (resolve to_socket_addrs host port) [
        | err e ↦ err e
        | ok ip ↦ finish_url parsed.scheme port ip
      ]
    ]
  ]

  unfoldable pub normalize_manager_url_to_ip :
      (String → Result (List IpAddr) String) → String → Result String String
  unfolding with_host_port
  normalize_manager_url_to_ip to_socket_addrs raw = elim (c.parse_url raw) [
    | err e ↦ err (concat ("invalid manager URL: " ∷ e ∷ []))
    | ok parsed ↦
        if parsed.scheme == "https" || parsed.scheme == "http"
        then with_host_port to_socket_addrs parsed
        else err (concat ("unsupported manager URL scheme: " ∷ parsed.scheme ∷ []))
  ]
