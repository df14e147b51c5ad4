-- ===== src/Ca/Crl.antt =====
-- crates/fw-ca/src/ca.rs, `generate_crls`: the revocation lists of the root and of the issuing
-- authority.
pub mod Laws
use linux_host_firewall_mana.Prelude.{
  ℕ, ◌+◌, ◌/◌, String, Bool, true, false, ◌&&◌, Option, none, some, List, [], ◌∷◌, ◌++◌, ◌==◌, ltb,
  if◌then◌else◌, Result, ok, err, is_some, option_eq, unwrap_or,
}
use linux_host_firewall_mana.Prelude.Lists.{find, keep, update_where}
use linux_host_firewall_mana.Prelude.Text.{trim}
use linux_host_firewall_mana.Crates.{Postgres, Rcgen, RevokedCert, CrlParams}
use linux_host_firewall_mana.Manager.Tables.{Certificate, CertStatus, CrlCounter}
use linux_host_firewall_mana.Ca.{CertificateAuthority, current_issuer, day}

abbrev pub is_revoked : CertStatus → Bool
is_revoked CertStatus.revoked = true
is_revoked _ = false

-- The row that the upsert leaves of an issuer's counter, and the table with it.
unfoldable pub counted : String → List CrlCounter → ℕ × List CrlCounter
counted key rows = elim (find (λ r. r.issuer_key == key) rows) [
  | none ↦ (1, rows ++ record { issuer_key = key; last_number = 1 } ∷ [])
  | some r ↦ (
    r.last_number + 1,
    update_where (λ r. r.issuer_key == key) (λ r. record r { last_number = r.last_number + 1 })
        rows,
  )
]

-- The upsert's `DO UPDATE SET last_number = last_number + 1`, if its bare column name is clear.
unfoldable pub next_number : Postgres → String → List CrlCounter → Option (ℕ × List CrlCounter)
unfolding counted
next_number pg key rows =
    if pg.is_clear "last_number" ("crl_counter" ∷ "excluded" ∷ [])
    then some (counted key rows)
    else none

-- The condition of the query.
unfoldable pub is_listed : ℕ → Certificate → Bool
is_listed now cert = is_revoked cert.status && (is_some cert.revoked_at && ltb now cert.expires_at)

abbrev pub revoked_ns : Certificate → ℕ
revoked_ns cert = unwrap_or cert.revoked_at 0

-- `ORDER BY revoked_at ASC`
unfoldable pub insert_cert : Certificate → List Certificate → List Certificate
insert_cert a [] = a ∷ []
insert_cert a (b ∷ certs) =
    let later = b ∷ insert_cert a certs in
    if ltb (revoked_ns b) (revoked_ns a) then later else a ∷ b ∷ certs

unfoldable pub order_by_revoked : List Certificate → List Certificate
unfolding insert_cert
order_by_revoked [] = []
order_by_revoked (a ∷ certs) = insert_cert a (order_by_revoked certs)

module _ (x : Rcgen) where
  abbrev pub in_issuing_group : CertificateAuthority x → Certificate → Bool
  in_issuing_group ca cert = elim ca.issuing [
    | none ↦ false
    | some sub ↦ option_eq cert.issuer_serial (some sub.serial_hex)
  ]

  abbrev pub revoked_params : List ℕ → Certificate → RevokedCert
  revoked_params serial cert = record {
    serial_number = serial;
    revocation_time = revoked_ns cert / 1000000000;
  }

  abbrev pub Groups : Type 0
  Groups = List RevokedCert × List RevokedCert

  abbrev pub add_to_group : Bool → RevokedCert → Result Groups String → Result Groups String
  add_to_group issuing r (err e) = err e
  add_to_group true r (ok (root, subs)) = ok (root, r ∷ subs)
  add_to_group false r (ok (root, subs)) = ok (r ∷ root, subs)

  -- The loop over the rows: the revocations of the root, and those of the issuing authority.
  unfoldable pub group_revoked : CertificateAuthority x → List Certificate → Result Groups String
  group_revoked ca [] = ok ([], [])
  group_revoked ca (cert ∷ certs) =
      let rest = group_revoked ca certs in
      elim (x.hex_decode (trim cert.serial_number)) [
        | none ↦ err "serial_number hex"
        | some serial ↦ add_to_group (in_issuing_group ca cert) (revoked_params serial cert) rest
      ]

module _ (pg : Postgres) (x : Rcgen) where
  -- A group's list, if the group is not empty, with the counter behind it.
  unfoldable pub crl_of :
      ℕ
      → x.Issuer
      → String
      → List RevokedCert
      → List CrlCounter
      → Result (List String) String × List CrlCounter
  unfolding next_number
  crl_of now issuer key [] counters = (ok [], counters)
  crl_of now issuer key (r ∷ revoked) counters = elim (next_number pg key counters) [
    | none ↦ (err "column reference is ambiguous", counters)
    | some (number, counters') ↦
        let params : CrlParams = record {
          this_update = now;
          next_update = now + day;
          crl_number = number;
          revoked_certs = r ∷ revoked;
        } in
        elim (x.sign_crl params issuer) [
          | err e ↦ (err e, counters')
          | ok pem ↦ (ok (pem ∷ []), counters')
        ]
  ]

  -- The lists of both groups; the second is not made when the first fails.
  unfoldable pub crls_of_groups :
      ℕ
      → CertificateAuthority x
      → Groups x
      → List CrlCounter
      → Result (List String) String × List CrlCounter
  unfolding crl_of
  crls_of_groups now ca (root, subs) counters =
      let (first, counters') = crl_of now ca.root "root" root counters in
      let (second, counters'') = crl_of now (current_issuer x ca) "issuing" subs counters' in
      elim first [
        | err e ↦ (err e, counters')
        | ok a ↦ elim second [ err e ↦ (err e, counters'') | ok b ↦ (ok (a ++ b), counters'') ]
      ]

  unfoldable pub generate_crls :
      ℕ
      → CertificateAuthority x
      → List Certificate
      → List CrlCounter
      → Result (List String) String × List CrlCounter
  unfolding is_listed order_by_revoked group_revoked crls_of_groups
  generate_crls now ca certs counters =
      elim (group_revoked x ca (order_by_revoked (keep (is_listed now) certs))) [
        | err e ↦ (err e, counters)
        | ok groups ↦ crls_of_groups now ca groups counters
      ]
