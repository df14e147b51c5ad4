-- ===== src/Ca/Crl/Laws.antt =====
-- What the generation of revocation lists in crates/fw-ca/src/ca.rs comes to on PostgreSQL.
use linux_host_firewall_mana.Prelude.{
  ℕ, String, ◌≡◌, refl, ap, Bool, true, false, List, [], ◌∷◌, inl, inr, Bool-cases, Option-cases,
  Result-cases, Result, ok, err, ltb,
}
use linux_host_firewall_mana.Prelude.Lists.{any, is_empty, keep}
use linux_host_firewall_mana.Prelude.Text.{trim}
use linux_host_firewall_mana.Crates.{Postgres, PostgresLaws, Rcgen, RevokedCert}
use linux_host_firewall_mana.Manager.Tables.{Certificate, CrlCounter}
use linux_host_firewall_mana.Ca.{CertificateAuthority, current_issuer}
use linux_host_firewall_mana.Ca.Crl.{
  is_listed, insert_cert, order_by_revoked, in_issuing_group, group_revoked, Groups, revoked_params,
  add_to_group, revoked_ns, next_number, crl_of, crls_of_groups, generate_crls,
}

filled-insert_cert :
    (a : Certificate) (certs : List Certificate) → is_empty (insert_cert a certs) ≡ false
unfolding insert_cert
filled-insert_cert a [] = refl
filled-insert_cert a (b ∷ certs) = elim (Bool-cases (ltb (revoked_ns b) (revoked_ns a))) [
  | inl later ↦ rw later refl
  | inr first ↦ rw first refl
]

filled-order_by_revoked :
    (p : Certificate → Bool) (certs : List Certificate)
    → any p certs ≡ true
    → is_empty (order_by_revoked (keep p certs)) ≡ false
unfolding order_by_revoked
filled-order_by_revoked p [] h = cc
filled-order_by_revoked p (a ∷ certs) h = elim (Bool-cases (p a)) [
  | inl here ↦ rw here (filled-insert_cert a (order_by_revoked (keep p certs)))
  | inr later ↦ rw later (filled-order_by_revoked p certs (rw later at h))
]

keep-nil :
    (p : Certificate → Bool) (certs : List Certificate) → any p certs ≡ false → keep p certs ≡ []
keep-nil p [] h = refl
keep-nil p (a ∷ certs) h = elim (Bool-cases (p a)) [
  | inl here ↦ true_false (rw here at h)
  | inr later ↦ rw later (keep-nil p certs (rw later at h))
]
  where
    true_false : {A : Type 0} → true ≡ false → A
    true_false e = cc

module _ (x : Rcgen) where
  -- One of the two groups has an entry.
  abbrev IsFilled : Result (Groups x) String → Type 0
  IsFilled (err e) = Unit
  IsFilled (ok (r ∷ root, subs)) = Unit
  IsFilled (ok ([], r ∷ subs)) = Unit
  IsFilled (ok ([], [])) = true ≡ false

  IsFilled-add_to_group :
      (b : Bool) (r : RevokedCert) (rest : Result (Groups x) String)
      → IsFilled (add_to_group x b r rest)
  IsFilled-add_to_group b r (err e) = tt
  IsFilled-add_to_group false r (ok (root, subs)) = tt
  IsFilled-add_to_group true r (ok ([], subs)) = tt
  IsFilled-add_to_group true r (ok (s ∷ root, subs)) = tt

  IsFilled-group_revoked :
      (ca : CertificateAuthority x) (certs : List Certificate)
      → is_empty certs ≡ false
      → IsFilled (group_revoked x ca certs)
  unfolding group_revoked
  IsFilled-group_revoked ca [] h = cc
  IsFilled-group_revoked ca (cert ∷ certs) h =
      elim (Option-cases (x.hex_decode (trim cert.serial_number))) [
        | inl bad ↦ rw (group_revoked, bad) tt
        | inr (serial, good) ↦
            rw (group_revoked, good)
              (IsFilled-add_to_group (in_issuing_group x ca cert) (revoked_params x serial cert)
                (group_revoked x ca certs))
      ]

module _ (pg : Postgres) (x : Rcgen) (laws : PostgresLaws pg) where
  -- The answer is an error, and no counter has moved.
  abbrev IsRefused : List CrlCounter → Result (List String) String × List CrlCounter → Type 0
  IsRefused counters answer = (e : String) × (answer ≡ (err e, counters))

  crl_of_err :
      (now : ℕ) (issuer : x.Issuer) (key : String) (r : RevokedCert) (rs : List RevokedCert)
      (counters : List CrlCounter)
      → crl_of pg x now issuer key (r ∷ rs) counters
        ≡ (err "column reference is ambiguous", counters)
  unfolding crl_of next_number
  crl_of_err now issuer key r rs counters = rw (crl_of, laws.ambiguous) refl

  crls_of_groups_err :
      (now : ℕ) (ca : CertificateAuthority x) (groups : Groups x) (counters : List CrlCounter)
      → IsFilled x (ok groups)
      → IsRefused counters (crls_of_groups pg x now ca groups counters)
  unfolding crls_of_groups crl_of
  crls_of_groups_err now ca ([], []) counters h = cc
  crls_of_groups_err now ca (r ∷ root, subs) counters h =
      let first = crl_of_err now ca.root "root" r root counters in
      (
        "column reference is ambiguous",
        rw (crls_of_groups, first)
            (ap
              (λ (p : Result (List String) String × List CrlCounter).
                (err "column reference is ambiguous", p.1))
              first),
      )
  crls_of_groups_err now ca ([], r ∷ subs) counters h =
      let second = crl_of_err now (current_issuer x ca) "issuing" r subs counters in
      (
        "column reference is ambiguous",
        rw (crls_of_groups, second)
            (ap
              (λ (p : Result (List String) String × List CrlCounter).
                (err "column reference is ambiguous", p.1))
              second),
      )

  -- Once a certificate that has not expired is revoked, no revocation list is made any more, neither
  -- for the root nor for the issuing authority, and no counter moves; until then there is none to make.
  pub generate_crls-refused :
      (now : ℕ) (ca : CertificateAuthority x) (certs : List Certificate)
      (counters : List CrlCounter)
      → (any (is_listed now) certs ≡ true
          → (e : String) × (generate_crls pg x now ca certs counters ≡ (err e, counters)))
        × (any (is_listed now) certs ≡ false
            → generate_crls pg x now ca certs counters ≡ (ok [], counters))
  unfolding generate_crls order_by_revoked group_revoked crls_of_groups crl_of
  generate_crls-refused now ca certs counters = (
    λ revoked.
        let rows = order_by_revoked (keep (is_listed now) certs) in
        let filled =
          IsFilled-group_revoked x ca rows
            (filled-order_by_revoked (is_listed now) certs revoked) in
        elim (Result-cases (group_revoked x ca rows)) [
          | inl (e, bad) ↦ (e, rw (generate_crls, bad) refl)
          | inr (groups, good) ↦
              let (e, refused) = crls_of_groups_err now ca groups counters (rw good at filled) in
              (e, rw (generate_crls, good, refused) refl)
        ],
    λ fresh. rw (generate_crls, keep-nil (is_listed now) certs fresh) refl,
  )
