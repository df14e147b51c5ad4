-- ===== src/Auth/Rbac/Access.antt =====
-- What the checks of crates/fw-auth/src/rbac.rs let through.
use linux_host_firewall_mana.Prelude.{
  none, ℕ, ◌+◌, String, ◌≡◌, refl, sym, ap, ◌∙◌, ◌⊎◌, inl, inr, Bool, true, false, ◌&&◌, ◌||◌,
  Option, some, List, [], ◌∷◌, ◌==◌, nat_eq, ltb, arith, Bool-cases, Option-cases, ok,
}
use linux_host_firewall_mana.Prelude.Lists.{length, is_empty, any, keep}
use linux_host_firewall_mana.Crates.{Crates, IpAddr}
use linux_host_firewall_mana.Prelude.Text.{trim}
use linux_host_firewall_mana.Auth.Rbac.{
  before_comma, forwarded_ip, parse_role, is_admin, can_write, is_break_glass, AccessClaims,
  AuthUser, Request, RefreshTokenRow, AuthConfig, is_ip_allowed, resolve_client_ip, is_jti_revoked,
  revoked_by, bearer, identify, with_token, check_token, require_auth, OperatorGroup, HostGroup,
  count_access, can_access_host,
}

-- A token whose id has no row counts as revoked.
pub is_jti_revoked_unknown :
    (rows : List RefreshTokenRow) (jti : String)
    → any (λ row. row.jti == jti) rows ≡ false
    → is_jti_revoked rows jti ≡ true
unfolding is_jti_revoked
is_jti_revoked_unknown [] jti h = refl
is_jti_revoked_unknown (row ∷ rows) jti h = elim (Bool-cases (row.jti == jti)) [
  | inl hit ↦ cc (hit, h)
  | inr miss ↦ rw miss (is_jti_revoked_unknown rows jti (rw miss at h))
]

module _ (c : Crates) where
  -- The first address of the header's text is `ip`.
  abbrev pub IsForwarded : Option String → IpAddr → Type 0
  IsForwarded header ip =
      (text : String) × (header ≡ some text) × (c.parse_ip (trim (before_comma text)) ≡ some ip)

  forwarded_ip-IsForwarded :
      (header : Option String) (ip : IpAddr)
      → forwarded_ip c header ≡ some ip
      → IsForwarded header ip
  unfolding forwarded_ip
  forwarded_ip-IsForwarded none ip h = cc
  forwarded_ip-IsForwarded (some text) ip h = (text, refl, h)

  -- The client address of a connection from `peer` is `peer`, or it is the first address of the
  -- forwarded header, and then `peer` lies in a trusted network: no other peer can choose the address
  -- that it is judged by.
  pub resolve_client_ip-some :
      (header : Option String) (peer ip : IpAddr) (trusted : List c.IpNet)
      → resolve_client_ip c header (some peer) trusted ≡ some ip
      → (ip ≡ peer) ⊎ ((any (λ net. c.contains_ip net peer) trusted ≡ true) × IsForwarded header ip)
  unfolding resolve_client_ip
  resolve_client_ip-some header peer ip trusted h =
      elim (Bool-cases (any (λ net. c.contains_ip net peer) trusted)) [
        | inr stranger ↦ inl (ground arith)
        | inl proxy ↦ elim (Option-cases (forwarded_ip c header)) [
          | inl missing ↦ inl (ground arith)
          | inr (first, given) ↦
              let same : first ≡ ip = ground arith in
              inr (proxy, forwarded_ip-IsForwarded header ip (given ∙ ap some same))
        ]
      ]

module _ (c : Crates) (parse_uuid : String → Option ℕ)
    (validate_access_token : String → Option AccessClaims) where
  -- The token that the user stands for.
  abbrev pub HasToken : AuthConfig c → Request → AuthUser → Type 0
  HasToken a req u =
      (token : String) × (claims : AccessClaims) × (bearer req.authorization ≡ some token)
      × (validate_access_token token ≡ some claims)
      × (revoked_by a.db claims.jti ≡ false)
      × (parse_role claims.role ≡ some u.role)
      × (u.claims ≡ claims)

  identify_ok :
      (claims : AccessClaims) (peer : Option IpAddr) (u : AuthUser)
      → identify parse_uuid claims peer ≡ ok u
      → (parse_role claims.role ≡ some u.role) × (u.claims ≡ claims)
  unfolding identify
  identify_ok claims peer u e = elim (Option-cases (parse_role claims.role)) [
    | inl bad ↦ cc (bad, e)
    | inr (role, good) ↦ (ground arith, ground arith)
  ]

  check_token_ok :
      (a : AuthConfig c) (req : Request) (u : AuthUser)
      → check_token c parse_uuid validate_access_token a req ≡ ok u
      → HasToken a req u
  unfolding check_token with_token
  check_token_ok a req u e = elim (Option-cases (bearer req.authorization)) [
    | inl missing ↦ cc (missing, e)
    | inr (token, given) ↦ elim (Option-cases (validate_access_token token)) [
      | inl invalid ↦ cc (given, invalid, e)
      | inr (claims, valid) ↦ elim (Bool-cases (revoked_by a.db claims.jti)) [
        | inl revoked ↦ cc (given, valid, revoked, e)
        | inr live ↦
            let step : check_token c parse_uuid validate_access_token a req
                ≡ identify parse_uuid claims req.peer =
              rw (given, check_token, valid, with_token, live) refl in
            let found = identify_ok claims req.peer u (sym step ∙ e) in
            (token, claims, given, valid, live, found.0, found.1)
      ]
    ]
  ]

  -- The address that the whitelist admits, when there is one.
  abbrev pub IsAdmitted : AuthConfig c → Request → Type 0
  IsAdmitted a req =
      (a.ip_whitelist ≡ [])
      ⊎ ((ip : IpAddr) × (resolve_client_ip c req.x_forwarded_for req.peer a.trusted_proxies
            ≡ some ip)
          × (any (λ net. c.contains_ip net ip) a.ip_whitelist ≡ true))

  nil_of_is_empty : (nets : List c.IpNet) → is_empty nets ≡ true → nets ≡ []
  nil_of_is_empty [] h = refl
  nil_of_is_empty (x ∷ nets) h = cc

  -- A request that reaches its handler as the user `u` carries a bearer token that validates, names
  -- `u`'s role and, where the token table is configured, is not revoked in it; and the whitelist is
  -- empty or holds the client's address.
  pub require_auth_ok :
      (a : AuthConfig c) (req : Request) (u : AuthUser)
      → require_auth c parse_uuid validate_access_token a req ≡ ok u
      → HasToken a req u × IsAdmitted a req
  unfolding require_auth is_ip_allowed
  require_auth_ok a req u e = elim (Bool-cases (is_empty a.ip_whitelist)) [
    | inl all ↦ (check_token_ok a req u (rw all at e), inl (nil_of_is_empty _ all))
    | inr listed ↦
        elim (Option-cases (resolve_client_ip c req.x_forwarded_for req.peer a.trusted_proxies)) [
          | inl unknown ↦ cc (listed, unknown, e)
          | inr (ip, known) ↦ elim (Bool-cases (any (λ net. c.contains_ip net ip) a.ip_whitelist)) [
            | inr outside ↦ cc (listed, known, outside, e)
            | inl inside ↦
                let step : require_auth c parse_uuid validate_access_token a req
                    ≡ check_token c parse_uuid validate_access_token a req =
                  ground arith in
                (check_token_ok a req u (sym step ∙ e), inr (ip, known, inside))
          ]
        ]
  ]

-- The user shares a group with the host.
abbrev pub shares_group : List OperatorGroup → List HostGroup → ℕ → ℕ → Bool
shares_group operators groups user host =
    any
      (λ o.
        nat_eq o.user_id user
        && any (λ hg. nat_eq hg.group_id o.group_id && nat_eq hg.host_id host) groups)
      operators

positive-keep :
    (p : HostGroup → Bool) (rows : List HostGroup) (n : ℕ)
    → ltb 0 (length (keep p rows) + n) ≡ any p rows || ltb 0 n
positive-keep p [] n = ground arith
positive-keep p (row ∷ rows) n = elim (Bool-cases (p row)) [
  | inl hit ↦ rw hit (ground arith)
  | inr miss ↦ rw miss (positive-keep p rows n)
]

count_access-positive :
    (user host : ℕ) (operators : List OperatorGroup) (groups : List HostGroup)
    → ltb 0 (count_access user host operators groups) ≡ shares_group operators groups user host
unfolding count_access
count_access-positive user host [] groups = refl
count_access-positive user host (o ∷ operators) groups = elim (Bool-cases (nat_eq o.user_id user)) [
  | inl mine ↦ rw mine (
      positive-keep (λ hg. nat_eq hg.group_id o.group_id && nat_eq hg.host_id host) groups _
      ∙ ap (λ b. any (λ hg. nat_eq hg.group_id o.group_id && nat_eq hg.host_id host) groups || b)
          (count_access-positive user host operators groups))
  | inr other ↦ rw other (count_access-positive user host operators groups)
]

-- Access to a host: admins and break-glass operators have it to every host, an operator exactly to
-- the hosts with which some group is shared, and a reporter to none.
pub can_access_host_lem :
    (operators : List OperatorGroup) (groups : List HostGroup) (u : AuthUser) (host : ℕ)
    → can_access_host operators groups u host
      ≡ is_admin u.role
        || is_break_glass u.role
        || (can_write u.role && shares_group operators groups u.user_id host)
unfolding can_access_host
can_access_host_lem operators groups u host =
    ground (arith, count_access-positive u.user_id host operators groups)
