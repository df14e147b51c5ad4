-- ===== src/Auth/Rbac.antt =====
-- crates/fw-auth/src/rbac.rs: roles, the client address behind trusted proxies, the authentication
-- middleware, and which hosts a user may act on.
pub mod Access
use Prim.Native.Char.{code}
use Prim.Native.String
use linux_host_firewall_mana.Prelude.{
  ℕ, String, Bool, true, false, not, ◌&&◌, ◌||◌, ◌+◌, Option, none, some, List, [], ◌∷◌, ◌++◌, ◌==◌,
  nat_eq, ltb, if◌then◌else◌, Result, ok, err, unwrap_or,
}
use linux_host_firewall_mana.Prelude.Lists.{length, is_empty, any, keep}
use linux_host_firewall_mana.Prelude.Text.{trim, strip_prefix}
use linux_host_firewall_mana.Crates.{Crates, IpAddr}

pub data UserRole : Type 0 where
  admin operator reporter break_glass_operator : UserRole

unfoldable pub parse_role : String → Option UserRole
parse_role s =
    if s == "admin"
    then some admin
    else if s == "operator"
    then some operator
    else if s == "reporter"
    then some reporter
    else if s == "break_glass_operator"
    then some break_glass_operator
    else none

abbrev pub role_str : UserRole → String
role_str admin = "admin"
role_str operator = "operator"
role_str reporter = "reporter"
role_str break_glass_operator = "break_glass_operator"

abbrev pub is_admin : UserRole → Bool
is_admin admin = true
is_admin _ = false

abbrev pub can_write : UserRole → Bool
can_write reporter = false
can_write _ = true

abbrev pub is_break_glass : UserRole → Bool
is_break_glass break_glass_operator = true
is_break_glass _ = false

-- The claims of an access token that the middleware reads.
pub record AccessClaims : Type 0 where
  pub sub : String
  pub username : String
  pub role : String
  pub jti : String

pub record AuthUser : Type 0 where
  pub user_id : ℕ
  pub username : String
  pub role : UserRole
  pub claims : AccessClaims
  pub ip : Option IpAddr

-- The headers that are read, and the peer address of the connection.
pub record Request : Type 0 where
  pub authorization : Option String
  pub x_forwarded_for : Option String
  pub peer : Option IpAddr

pub record RefreshTokenRow : Type 0 where
  pub user_id : ℕ
  pub token_hash : String
  pub expires_at : ℕ
  pub jti : String
  pub revoked : Bool

-- What a middleware answers in place of the handler: 401 or 403 with its message.
pub data Denial : Type 0 where
  unauthorized forbidden forbidden_ip : String → Denial

-- `s.split(',').next()`
unfoldable pub before_comma : String → String
before_comma String.[] = ""
before_comma (String.◌∷◌ ch s) =
    let rest = before_comma s in if nat_eq (code ch) 44 then "" else String.◌∷◌ ch rest

module _ (c : Crates) where
  -- The token check (`validate_access_token`) and the uuid parser are arguments of the middleware; the
  -- networks are those that parsed.
  pub record AuthConfig : Type 0 where
    pub ip_whitelist : List c.IpNet
    pub trusted_proxies : List c.IpNet
    pub db : Option (List RefreshTokenRow)

  unfoldable pub parse_nets : List String → List c.IpNet
  parse_nets [] = []
  parse_nets (cidr ∷ cidrs) =
      let rest = parse_nets cidrs in elim (c.parse_net cidr) [ none ↦ rest | some net ↦ net ∷ rest ]

  -- `AuthConfig::new`, `update_ip_whitelist` and `update_trusted_proxies`.
  unfoldable pub new_config : List String → List String → Option (List RefreshTokenRow) → AuthConfig
  unfolding parse_nets
  new_config whitelist proxies db = record {
    ip_whitelist = parse_nets whitelist;
    trusted_proxies = parse_nets proxies;
    db = db;
  }

  unfoldable pub update_ip_whitelist : List String → AuthConfig → AuthConfig
  unfolding parse_nets
  update_ip_whitelist entries a = record a { ip_whitelist = parse_nets entries }

  unfoldable pub update_trusted_proxies : List String → AuthConfig → AuthConfig
  unfolding parse_nets
  update_trusted_proxies entries a = record a { trusted_proxies = parse_nets entries }

  unfoldable pub is_ip_allowed : AuthConfig → IpAddr → Bool
  is_ip_allowed a ip = is_empty a.ip_whitelist || any (λ net. c.contains_ip net ip) a.ip_whitelist

  unfoldable pub forwarded_ip : Option String → Option IpAddr
  unfolding before_comma trim
  forwarded_ip none = none
  forwarded_ip (some xff) = c.parse_ip (trim (before_comma xff))

  abbrev or_peer : Option IpAddr → IpAddr → IpAddr
  or_peer none peer = peer
  or_peer (some ip) peer = ip

  unfoldable pub resolve_client_ip : Option String → Option IpAddr → List c.IpNet → Option IpAddr
  unfolding forwarded_ip
  resolve_client_ip xff none trusted = none
  resolve_client_ip xff (some peer) trusted =
      if any (λ net. c.contains_ip net peer) trusted
      then some (or_peer (forwarded_ip xff) peer)
      else some peer

-- `is_jti_revoked`: no row counts as revoked.
unfoldable pub is_jti_revoked : List RefreshTokenRow → String → Bool
is_jti_revoked [] jti = true
is_jti_revoked (row ∷ rows) jti =
    let next = is_jti_revoked rows jti in if row.jti == jti then row.revoked else next

abbrev pub revoked_by : Option (List RefreshTokenRow) → String → Bool
revoked_by none jti = false
revoked_by (some rows) jti = is_jti_revoked rows jti

abbrev bearer : Option String → Option String
bearer none = none
bearer (some h) = strip_prefix "Bearer " h

-- `role.parse_role` and the rest of `require_auth` behind the checks.
identify : (String → Option ℕ) → AccessClaims → Option IpAddr → Result AuthUser Denial
unfolding parse_role
identify parse_uuid claims peer = elim (parse_role claims.role) [
  | none ↦ err (unauthorized "Invalid role in token")
  | some role ↦ ok (record {
    user_id = unwrap_or (parse_uuid claims.sub) 0;
    username = claims.username;
    role = role;
    claims = claims;
    ip = peer;
  })
]

module _ (c : Crates) (parse_uuid : String → Option ℕ)
    (validate_access_token : String → Option AccessClaims) where
  with_token : AuthConfig c → Request → String → Result AuthUser Denial
  unfolding identify is_jti_revoked
  with_token a req token = elim (validate_access_token token) [
    | none ↦ err (unauthorized "Invalid token")
    | some claims ↦
        if revoked_by a.db claims.jti
        then err (unauthorized "Token revoked")
        else identify parse_uuid claims req.peer
  ]

  check_token : AuthConfig c → Request → Result AuthUser Denial
  unfolding with_token strip_prefix
  check_token a req = elim (bearer req.authorization) [
    | none ↦ err (unauthorized "Missing authorization token")
    | some token ↦ with_token a req token
  ]

  -- The user that the handler gets, or the answer in its place.
  unfoldable pub require_auth : AuthConfig c → Request → Result AuthUser Denial
  unfolding check_token resolve_client_ip is_ip_allowed
  require_auth a req =
      if is_empty a.ip_whitelist
      then check_token a req
      else elim (resolve_client_ip c req.x_forwarded_for req.peer a.trusted_proxies) [
        | none ↦ err (forbidden_ip "Client IP could not be determined")
        | some ip ↦
            if is_ip_allowed c a ip then check_token a req else err (forbidden_ip "Access denied")
      ]

unfoldable pub require_admin : Option AuthUser → Result AuthUser Denial
require_admin none = err (unauthorized "Authentication required")
require_admin (some u) = if is_admin u.role then ok u else err (forbidden "Admin role required")

-- Rows of `operator_host_groups` and `host_groups`.
pub record OperatorGroup : Type 0 where
  pub user_id : ℕ
  pub group_id : ℕ

pub record HostGroup : Type 0 where
  pub host_id : ℕ
  pub group_id : ℕ

-- The join's row count for one membership of the user.
abbrev host_rows : ℕ → ℕ → List HostGroup → List HostGroup
host_rows host group groups = keep (λ hg. nat_eq hg.group_id group && nat_eq hg.host_id host) groups

unfoldable pub count_access : ℕ → ℕ → List OperatorGroup → List HostGroup → ℕ
count_access user host [] groups = 0
count_access user host (o ∷ os) groups =
    let rest = count_access user host os groups in
    if nat_eq o.user_id user then length (host_rows host o.group_id groups) + rest else rest

unfoldable pub can_access_host : List OperatorGroup → List HostGroup → AuthUser → ℕ → Bool
unfolding count_access
can_access_host operators groups user host =
    if is_admin user.role || is_break_glass user.role
    then true
    else if not (can_write user.role)
    then false
    else ltb 0 (count_access user.user_id host operators groups)
