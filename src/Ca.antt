-- ===== src/Ca.antt =====
-- crates/fw-ca/src/ca.rs: the certificate authority and the signing of an agent's request.
pub mod Crl
pub mod Issuing
use linux_host_firewall_mana.Prelude.{
  ℕ, ◌+◌, ◌-◌, ◌*◌, String, Option, none, some, List, [], ◌∷◌, Result, ok, err,
}
use linux_host_firewall_mana.Crates.{Crates, Rcgen, CertParams}

pub record SignedCert : Type 0 where
  pub cert_pem : String
  pub serial_hex : String
  pub ca_chain : List String
  pub crl_pem : Option String

abbrev pub day : ℕ
day = 86400000000000

module _ (x : Rcgen) where
  pub record IssuingCa : Type 0 where
    pub issuer : x.Issuer
    pub chain_pems : List String
    pub serial_hex : String
    pub subject_cn : String

  pub record CertificateAuthority : Type 0 where
    pub root : x.Issuer
    pub root_cert_pem : String
    pub issuing : Option IssuingCa

  abbrev pub current_issuer : CertificateAuthority → x.Issuer
  current_issuer ca = elim ca.issuing [ none ↦ ca.root | some sub ↦ sub.issuer ]

  abbrev pub issuing_serial_hex : CertificateAuthority → String
  issuing_serial_hex ca = elim ca.issuing [ none ↦ "" | some sub ↦ sub.serial_hex ]

  abbrev pub ca_chain_for_agents : CertificateAuthority → List String
  ca_chain_for_agents ca = elim ca.issuing [
    | none ↦ ca.root_cert_pem ∷ []
    | some sub ↦ sub.chain_pems
  ]

  unfoldable pub verification_anchors : CertificateAuthority → List String
  verification_anchors ca = elim ca.issuing [
    | none ↦ ca.root_cert_pem ∷ []
    | some sub ↦ ca.root_cert_pem ∷ sub.chain_pems
  ]

  -- `serial` is the new random uuid; the subject becomes the host's id.
  unfoldable pub sign_csr :
      Crates → ℕ → CertificateAuthority → ℕ → String → ℕ → Result SignedCert String
  sign_csr c now ca serial csr_pem host_id = elim (x.parse_csr csr_pem) [
    | err e ↦ err e
    | ok csr ↦
        let params : CertParams = record {
          common_name = c.uuid_string host_id;
          serial_number = c.uuid_bytes serial;
          not_before = now - day;
          not_after = now + 365 * day;
        } in
        elim (x.sign_cert csr params (current_issuer ca)) [
          | err e ↦ err e
          | ok pem ↦ ok (record {
            cert_pem = pem;
            serial_hex = x.hex_encode (c.uuid_bytes serial);
            ca_chain = ca_chain_for_agents ca;
            crl_pem = none;
          })
        ]
  ]
