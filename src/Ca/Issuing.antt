-- ===== src/Ca/Issuing.antt =====
-- crates/fw-ca/src/ca.rs, `with_issuing_ca` and `split_pem_chain`: an imported authority is checked
-- before it issues anything.
pub mod Laws
use linux_host_firewall_mana.Prelude.{
  ℕ, ◌+◌, String, Bool, true, false, not, ◌≡◌, refl, ap, ◌∙◌, sym, inl, inr, Bool-cases, Option,
  none, some, List, [], ◌∷◌, ◌==◌, eq_iff, ltb, if◌then◌else◌, Result, ok, err, arith,
}
use linux_host_firewall_mana.Prelude.Int.{show_ℕ}
use linux_host_firewall_mana.Prelude.Text.{concat, lines, contains}
use linux_host_firewall_mana.Prelude.Lists.{All}
use linux_host_firewall_mana.Crates.{Rcgen}
use linux_host_firewall_mana.Ca.{CertificateAuthority, IssuingCa}

-- `x509_parser`, as far as a certificate is read; names and keys are their raw bytes.
pub record X509 : Type 0 where
  pub issuer : String
  pub subject : String
  pub not_before : ℕ
  pub not_after : ℕ
  pub is_ca : Bool
  pub key_usage : Option (Bool × Bool)
  pub subject_pki : String
  pub raw_serial : List ℕ
  pub common_name : String

-- One PEM block per certificate of a bundle.
split_blocks : String → List String → List String
unfolding contains
split_blocks current [] = []
split_blocks current (line ∷ rest) =
    let block = concat (current ∷ line ∷ "\n" ∷ []) in
    if contains "-----END CERTIFICATE-----" line
    then block ∷ split_blocks "" rest
    else split_blocks block rest

unfoldable pub split_pem_chain : String → List String
unfolding split_blocks lines
split_pem_chain bundle = split_blocks "" (lines bundle)

-- What speaks against the key usage, or else against the key.
unfoldable pub refuse_usage : String → String → Option (Bool × Bool) → Option String
refuse_usage key_spki subject_pki none =
    some "issuing CA cert has no keyUsage extension — cannot sign certs"
refuse_usage key_spki subject_pki (some (cert_sign, crl_sign)) =
    if not cert_sign
    then some "issuing CA cert keyUsage lacks keyCertSign — cannot sign agent certs"
    else if not crl_sign
    then some "issuing CA cert keyUsage lacks cRLSign"
    else if key_spki == subject_pki
    then none
    else some "issuing CA key does not match the sub-CA certificate"

-- The first check that fails on the sub-CA's own certificate.
unfoldable pub refuse_sub : ℕ → String → X509 → Option String
unfolding refuse_usage
refuse_sub now key_spki cert =
    if ltb now cert.not_before
    then some "issuing CA cert is not yet valid"
    else if ltb cert.not_after now
    then some "issuing CA cert is expired"
    else if not cert.is_ca
    then some "issuing CA cert is not a CA (basicConstraints CA:true missing)"
    else refuse_usage key_spki cert.subject_pki cert.key_usage

-- The certificates above the sub-CA: each parses and is valid now.
unfoldable pub parse_upstream :
    (String → Result X509 String) → ℕ → ℕ → List String → Result (List X509) String
parse_upstream parse now i [] = ok []
parse_upstream parse now i (pem ∷ pems) =
    let rest = parse_upstream parse now (i + 1) pems in
    elim (parse pem) [
      | err e ↦ err e
      | ok cert ↦
          if ltb now cert.not_before
          then err (concat ("chain cert #" ∷ show_ℕ i ∷ " is not yet valid" ∷ []))
          else if ltb cert.not_after now
          then err (concat ("chain cert #" ∷ show_ℕ i ∷ " is expired" ∷ []))
          else elim rest [ err e ↦ err e | ok certs ↦ ok (cert ∷ certs) ]
    ]

-- Each issuer is the next subject; the last certificate's is its own.
unfoldable pub refuse_links : ℕ → List X509 → Option String
refuse_links i [] = none
refuse_links i (cert ∷ []) =
    if cert.issuer == cert.subject
    then none
    else some "issuing CA chain does not terminate in a self-signed root"
refuse_links i (cert ∷ next ∷ certs) =
    let rest = refuse_links (i + 1) (next ∷ certs) in
    if cert.issuer == next.subject
    then rest
    else some (concat ("issuing CA chain is broken at cert #" ∷ show_ℕ i ∷ []))

module _ (x : Rcgen) (parse_x509 : String → Result X509 String)
    (key_of : String → Result String String)
    (issuer_of : String → String → Result x.Issuer String) where
  unfoldable pub make_issuing :
      String
      → List String
      → X509
      → String
      → CertificateAuthority x
      → Result (CertificateAuthority x) String
  make_issuing sub_pem chain sub key_pem ca = elim (issuer_of sub_pem key_pem) [
    | err e ↦ err e
    | ok issuer ↦ ok (record ca {
      issuing = some (record {
        issuer = issuer;
        chain_pems = chain;
        serial_hex = x.hex_encode sub.raw_serial;
        subject_cn = sub.common_name;
      });
    })
  ]

  unfoldable pub check_chain :
      ℕ
      → String
      → List String
      → X509
      → String
      → CertificateAuthority x
      → Result (CertificateAuthority x) String
  unfolding parse_upstream refuse_links make_issuing
  check_chain now sub_pem upstream sub key_pem ca =
      elim (parse_upstream parse_x509 now 1 upstream) [
        | err e ↦ err e
        | ok certs ↦ elim (refuse_links 0 (sub ∷ certs)) [
          | some e ↦ err e
          | none ↦ make_issuing sub_pem (sub_pem ∷ upstream) sub key_pem ca
        ]
      ]

  unfoldable pub check_sub :
      ℕ
      → String
      → String
      → List String
      → String
      → CertificateAuthority x
      → Result (CertificateAuthority x) String
  unfolding refuse_sub check_chain
  check_sub now spki sub_pem upstream key_pem ca = elim (parse_x509 sub_pem) [
    | err e ↦ err e
    | ok sub ↦ elim (refuse_sub now spki sub) [
      | some e ↦ err e
      | none ↦ check_chain now sub_pem upstream sub key_pem ca
    ]
  ]

  -- `chain_pem` and `key_pem` are the contents of the two files; `key_of` is the key's public half.
  unfoldable pub with_issuing_ca :
      ℕ → String → String → CertificateAuthority x → Result (CertificateAuthority x) String
  unfolding split_pem_chain check_sub
  with_issuing_ca now chain_pem key_pem ca = elim (key_of key_pem) [
    | err e ↦ err e
    | ok spki ↦ elim (split_pem_chain chain_pem) [
      | [] ↦ err "no certificate in the chain file"
      | sub_pem ∷ upstream ↦ check_sub now spki sub_pem upstream key_pem ca
    ]
  ]
