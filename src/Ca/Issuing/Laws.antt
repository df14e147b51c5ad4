-- ===== src/Ca/Issuing/Laws.antt =====
-- What an imported authority of crates/fw-ca/src/ca.rs is known to be.
use linux_host_firewall_mana.Prelude.{
  ℕ, ◌+◌, String, ◌≡◌, refl, sym, Bool, true, false, Option, none, some, List, [], ◌∷◌, ◌==◌,
  eq_iff, inl, inr, Bool-cases, Option-cases, Result-cases, Result, ok, err, ltb,
}
use linux_host_firewall_mana.Prelude.Lists.{All}
use linux_host_firewall_mana.Crates.{Rcgen}
use linux_host_firewall_mana.Ca.{CertificateAuthority}
use linux_host_firewall_mana.Ca.Issuing.{
  X509, refuse_usage, refuse_sub, parse_upstream, refuse_links, split_pem_chain, with_issuing_ca,
  check_sub, check_chain,
}

-- Each certificate is issued by the next one, and the last one by itself.
abbrev pub IsChain : List X509 → Type 0
IsChain [] = Unit
IsChain (cert ∷ []) = cert.issuer ≡ cert.subject
IsChain (cert ∷ next ∷ certs) = (cert.issuer ≡ next.subject) × IsChain (next ∷ certs)

no_ok :
    {A : Type 0} {G : Type 0} (e : String) (g : G) → ◌≡◌ {A = Result G String} (err e) (ok g) → A
no_ok e g h = cc

ok_inj : (a b : List X509) → ◌≡◌ {A = Result (List X509) String} (ok a) (ok b) → a ≡ b
ok_inj a b h = cc

some_none : {A : Type 0} (s : String) → some s ≡ none → A
some_none s h = cc

pub refuse_links-IsChain : (i : ℕ) (certs : List X509) → refuse_links i certs ≡ none → IsChain certs
unfolding refuse_links
refuse_links-IsChain i [] h = tt
refuse_links-IsChain i (cert ∷ []) h = elim (Bool-cases (cert.issuer == cert.subject)) [
  | inl own ↦ (eq_iff _ _).0 own
  | inr other ↦ some_none _ (rw other at h)
]
refuse_links-IsChain i (cert ∷ next ∷ certs) h = elim (Bool-cases (cert.issuer == next.subject)) [
  | inl linked ↦
      ((eq_iff _ _).0 linked, refuse_links-IsChain (i + 1) (next ∷ certs) (rw linked at h))
  | inr broken ↦ some_none _ (rw broken at h)
]

-- The time of the import lies in the certificate's period.
abbrev pub IsCurrent : ℕ → X509 → Type 0
IsCurrent now cert = (ltb now cert.not_before ≡ false) × (ltb cert.not_after now ≡ false)

parse_upstream-All :
    (parse : String → Result X509 String) (now i : ℕ) (pems : List String) (certs : List X509)
    → parse_upstream parse now i pems ≡ ok certs
    → All (IsCurrent now) certs
unfolding parse_upstream
parse_upstream-All parse now i [] [] h = tt
parse_upstream-All parse now i [] (cert ∷ certs) h = cc
parse_upstream-All parse now i (pem ∷ pems) certs h = elim (Result-cases (parse pem)) [
  | inl (e, bad) ↦ no_ok _ _ (rw (parse_upstream, bad) at h)
  | inr (cert, parsed) ↦ elim (Bool-cases (ltb now cert.not_before)) [
    | inl early ↦ no_ok _ _ (rw (parse_upstream, parsed, early) at h)
    | inr started ↦ elim (Bool-cases (ltb cert.not_after now)) [
      | inl late ↦ no_ok _ _ (rw (parse_upstream, parsed, started, late) at h)
      | inr valid ↦ elim (Result-cases (parse_upstream parse now (i + 1) pems)) [
        | inl (e, bad) ↦ no_ok _ _ (rw (parse_upstream, parsed, started, valid, bad) at h)
        | inr (rest, more) ↦
            rw (sym (ok_inj _ _ (rw (parse_upstream, parsed, started, valid, more) at h)))
              ((started, valid), parse_upstream-All parse now (i + 1) pems rest more)
      ]
    ]
  ]
]

-- A CA certificate that is valid now and may sign certificates and revocation lists.
abbrev pub IsSigner : ℕ → X509 → Type 0
IsSigner now cert =
    (ltb now cert.not_before ≡ false)
    × (ltb cert.not_after now ≡ false)
    × (cert.is_ca ≡ true)
    × (cert.key_usage ≡ some (true, true))

refuse_usage-none :
    (spki pki : String) (usage : Option (Bool × Bool))
    → refuse_usage spki pki usage ≡ none
    → (usage ≡ some (true, true)) × (spki ≡ pki)
unfolding refuse_usage
refuse_usage-none spki pki none h = cc
refuse_usage-none spki pki (some (false, crl)) h = cc
refuse_usage-none spki pki (some (true, false)) h = cc
refuse_usage-none spki pki (some (true, true)) h = elim (Bool-cases (spki == pki)) [
  | inl same ↦ (refl, (eq_iff _ _).0 same)
  | inr other ↦ some_none _ (rw (refuse_usage, other) at h)
]

refuse_sub-IsSigner :
    (now : ℕ) (spki : String) (cert : X509)
    → refuse_sub now spki cert ≡ none
    → IsSigner now cert × (spki ≡ cert.subject_pki)
unfolding refuse_sub
refuse_sub-IsSigner now spki cert h = elim (Bool-cases (ltb now cert.not_before)) [
  | inl early ↦ some_none _ (rw (refuse_sub, early) at h)
  | inr started ↦ elim (Bool-cases (ltb cert.not_after now)) [
    | inl late ↦ some_none _ (rw (refuse_sub, started, late) at h)
    | inr valid ↦ elim (Bool-cases cert.is_ca) [
      | inr leaf ↦ some_none _ (rw (refuse_sub, started, valid, leaf) at h)
      | inl ca ↦
          let (usage, key) =
            refuse_usage-none spki cert.subject_pki cert.key_usage
              (rw (refuse_sub, started, valid, ca) at h) in
          ((started, valid, ca, usage), key)
    ]
  ]
]

module _ (x : Rcgen) (parse_x509 : String → Result X509 String)
    (key_of : String → Result String String)
    (issuer_of : String → String → Result x.Issuer String) where
  -- The first certificate may sign now and has the key, and the certificates chain.
  abbrev pub IsFit : ℕ → String → String → List String → Type 0
  IsFit now spki sub_pem upstream =
      (sub : X509) × (certs : List X509) × (parse_x509 sub_pem ≡ ok sub)
      × (parse_upstream parse_x509 now 1 upstream ≡ ok certs)
      × (IsSigner now sub × (spki ≡ sub.subject_pki))
      × All (IsCurrent now) certs
      × IsChain (sub ∷ certs)

  check_chain_ok :
      (now : ℕ) (sub_pem : String) (upstream : List String) (sub : X509) (key_pem : String)
      (ca ca' : CertificateAuthority x)
      → check_chain x parse_x509 key_of issuer_of now sub_pem upstream sub key_pem ca ≡ ok ca'
      → (certs : List X509) × (parse_upstream parse_x509 now 1 upstream ≡ ok certs)
        × IsChain (sub ∷ certs)
  unfolding check_chain
  check_chain_ok now sub_pem upstream sub key_pem ca ca' h =
      elim (Result-cases (parse_upstream parse_x509 now 1 upstream)) [
        | inl (e, bad) ↦ no_ok _ _ (rw (check_chain, bad) at h)
        | inr (certs, parsed) ↦ elim (Option-cases (refuse_links 0 (sub ∷ certs))) [
          | inr (e, bad) ↦ no_ok _ _ (rw (check_chain, parsed, bad) at h)
          | inl linked ↦ (certs, parsed, refuse_links-IsChain 0 (sub ∷ certs) linked)
        ]
      ]

  check_sub_ok :
      (now : ℕ) (spki sub_pem : String) (upstream : List String) (key_pem : String)
      (ca ca' : CertificateAuthority x)
      → check_sub x parse_x509 key_of issuer_of now spki sub_pem upstream key_pem ca ≡ ok ca'
      → IsFit now spki sub_pem upstream
  unfolding check_sub
  check_sub_ok now spki sub_pem upstream key_pem ca ca' h =
      elim (Result-cases (parse_x509 sub_pem)) [
        | inl (e, bad) ↦ no_ok _ _ (rw (check_sub, bad) at h)
        | inr (sub, parsed) ↦ elim (Option-cases (refuse_sub now spki sub)) [
          | inr (e, bad) ↦ no_ok _ _ (rw (check_sub, parsed, bad) at h)
          | inl fine ↦
              let (certs, above, chained) =
                check_chain_ok now sub_pem upstream sub key_pem ca ca'
                  (rw (check_sub, parsed, fine) at h) in
              (
                sub,
                certs,
                parsed,
                above,
                refuse_sub-IsSigner now spki sub fine,
                parse_upstream-All parse_x509 now 1 upstream certs above,
                chained,
              )
        ]
      ]

  -- An authority that is imported is fit to issue: the first certificate of its file is a CA
  -- certificate that is valid now, may sign certificates and revocation lists and belongs to the key;
  -- the others are valid now, and each is the issuer of the one before it by name, up to the last,
  -- which is its own issuer.
  pub with_issuing_ca_ok :
      (now : ℕ) (chain_pem key_pem sub_pem : String) (upstream : List String)
      (ca ca' : CertificateAuthority x)
      → split_pem_chain chain_pem ≡ sub_pem ∷ upstream
      → with_issuing_ca x parse_x509 key_of issuer_of now chain_pem key_pem ca ≡ ok ca'
      → (spki : String) × (key_of key_pem ≡ ok spki) × IsFit now spki sub_pem upstream
  unfolding with_issuing_ca
  with_issuing_ca_ok now chain_pem key_pem sub_pem upstream ca ca' blocks h =
      elim (Result-cases (key_of key_pem)) [
        | inl (e, bad) ↦ no_ok _ _ (rw (with_issuing_ca, bad) at h)
        | inr (spki, key) ↦ (
          spki,
          key,
          check_sub_ok now spki sub_pem upstream key_pem ca ca'
              (rw (with_issuing_ca, key, blocks) at h),
        )
      ]
