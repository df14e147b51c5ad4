-- ===== src/Crates.antt =====
-- What the program takes from third-party crates and from the address parsers of the standard
-- library: `ipnet`, `sha2` with `hex`, `uuid`, `shlex`, `url`, `IpAddr`'s text form, `serde_json`'s
-- values, `argon2`, the token signer, and what PostgreSQL says of a statement's types and names. They
-- are parameters of the definitions that call them; what a theorem relies on is a named hypothesis.
use linux_host_firewall_mana.Prelude.{
  ℕ, ◌/◌, ◌^◌, ◌≡◌, ◌↔◌, String, Bool, true, false, Option, List, [], ◌∷◌, Result, ok,
}
use linux_host_firewall_mana.Prelude.Int.{ℤ}

-- `std::net::IpAddr`: a 32-bit or a 128-bit number.
pub data IpAddr : Type 0 where
  v4 : ℕ → IpAddr
  v6 : ℕ → IpAddr

abbrev pub is_ipv4 : IpAddr → Bool
is_ipv4 (v4 n) = Bool.true
is_ipv4 (v6 n) = Bool.false

abbrev pub value : IpAddr → ℕ
value (v4 n) = n
value (v6 n) = n

-- A parsed `url::Url`, as far as it is read: `host_str` and `port_or_known_default`.
pub record Url : Type 0 where
  pub scheme : String
  pub host : Option String
  pub port : Option ℕ

-- The values of a flat JSON object, as `serde_json::json!` is used for audit details.
pub data Json : Type 0 where
  text : String → Json
  flag : Bool → Json
  number : ℕ → Json
  integer : ℤ → Json
  null : Json

-- The types of columns and of bound values: a Rust string is bound as `text`.
pub data SqlType : Type 0 where
  text_type inet_type jsonb_type policy_decision_type : SqlType

-- PostgreSQL on a statement: whether a value of the first type may be assigned to a column of the
-- second without a cast, whether a column's bare name is clear where these tables are visible, and the
-- value that a sequence gives out at a time.
pub record Postgres : Type 0 where
  pub is_assignable : SqlType → SqlType → Bool
  pub is_clear : String → List String → Bool
  pub nextval : ℕ → ℕ

-- Text is assigned to no column of another of these types; in `DO UPDATE` the row of the table and the
-- row `excluded` are both visible, and a bare column name that both have is ambiguous.
pub record PostgresLaws (pg : Postgres) : Type 0 where
  pub no_inet : pg.is_assignable text_type inet_type ≡ false
  pub no_jsonb : pg.is_assignable text_type jsonb_type ≡ false
  pub no_decision : pg.is_assignable text_type policy_decision_type ≡ false
  pub ambiguous : (table : String) → pg.is_clear "last_number" (table ∷ "excluded" ∷ []) ≡ false

pub record Crates : Type 1 where
  pub postgres : Postgres
  pub IpNet : Type 0
  pub parse_net : String → Option IpNet
  pub network : IpNet → IpAddr
  pub contains_ip : IpNet → IpAddr → Bool
  pub parse_ip : String → Option IpAddr
  pub ip_string : IpAddr → String
  pub sha256_hex : List ℕ → String
  pub uuid_bytes : ℕ → List ℕ
  pub uuid_string : ℕ → String
  pub shlex_split : String → Option (List String)
  pub parse_url : String → Result Url String
  pub json_object : List (String × Json) → String
  pub rfc3339 : ℕ → String

-- `ipnet`: a network holds the addresses of its family that agree with its network address above
-- the host bits, and the network address has no host bit set (`same_prefix` at that address).
pub record NetLaws (c : Crates) : Type 0 where
  pub host_bits : c.IpNet → ℕ
  pub contains_iff :
      (n : c.IpNet) (ip : IpAddr)
      → (c.contains_ip n ip ≡ true) ↔ (
          (is_ipv4 ip ≡ is_ipv4 (c.network n))
          × (value ip / 2 ^ host_bits n ≡ value (c.network n) / 2 ^ host_bits n))

-- `serde_json::Value`, as far as it is read: `get(key)` with `as_i64` or `as_str`.
pub record SerdeJson : Type 1 where
  pub Value : Type 0
  pub to_string : Value → String
  pub from_str : String → Option Value
  pub get_i64 : String → Value → Option ℤ
  pub get_str : String → Value → Option String
  pub of_strings : List String → Value
  pub of_string : String → Value

-- `argon2`: a hash of a password with a salt, and its test against such a hash.
pub record Argon2 : Type 0 where
  pub hash_with : String → String → Result String String
  pub verify : String → String → Result Bool String

-- The text of a hash names the salt that it was made with.
pub record Argon2Laws (a : Argon2) : Type 0 where
  pub salted :
      (s s' password password' hash : String)
      → a.hash_with s password ≡ ok hash
      → a.hash_with s' password' ≡ ok hash
      → s ≡ s'

-- `rcgen`, and `hex::decode`: a signing request is parsed with the proof that its key is held, then
-- signed with a subject and a serial number of the caller's; a revocation list is signed likewise.
pub record CertParams : Type 0 where
  pub common_name : String
  pub serial_number : List ℕ
  pub not_before : ℕ
  pub not_after : ℕ

pub record RevokedCert : Type 0 where
  pub serial_number : List ℕ
  pub revocation_time : ℕ

pub record CrlParams : Type 0 where
  pub this_update : ℕ
  pub next_update : ℕ
  pub crl_number : ℕ
  pub revoked_certs : List RevokedCert

pub record Rcgen : Type 1 where
  pub Issuer : Type 0
  pub Csr : Type 0
  pub parse_csr : String → Result Csr String
  pub sign_cert : Csr → CertParams → Issuer → Result String String
  pub sign_crl : CrlParams → Issuer → Result String String
  pub hex_decode : String → Option (List ℕ)
  pub hex_encode : List ℕ → String
