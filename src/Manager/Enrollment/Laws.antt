-- ===== src/Manager/Enrollment/Laws.antt =====
-- What crates/fw-web/src/routes/enrollment.rs guarantees of tokens, requests and bundles.
use linux_host_firewall_mana.Prelude.{
  ℕ, String, ◌≡◌, refl, sym, ◌∙◌, ap, true, Option, none, some, List, inl, inr, Bool-cases,
  Option-cases, ok, err,
}
use linux_host_firewall_mana.Prelude.Lists.{
  find, update_where, find-update_where, find-update_where-none,
}
use linux_host_firewall_mana.Crates.{Crates}
use linux_host_firewall_mana.Auth.Rbac.{AuthUser, is_admin}
use linux_host_firewall_mana.Manager.Db.{Db}
use linux_host_firewall_mana.Manager.Tables.{EnrollmentToken}
use linux_host_firewall_mana.Manager.Handler.{bad_request, audit}
use linux_host_firewall_mana.Manager.Enrollment.{
  SubmitEnrollmentRequest, refused, has_hash, token_digest, submit_enrollment, accept_enrollment,
  revoke_token,
}

no_token :
    {A : Type 0} (now : ℕ) (fqdn : String) (row : Option EnrollmentToken)
    → row ≡ none
    → refused now fqdn row ≡ none
    → A
unfolding refused
no_token now fqdn none h fine = cc
no_token now fqdn (some t) h fine = cc

refused-used :
    (now at : ℕ) (fqdn : String) (t : EnrollmentToken)
    → refused now fqdn (some (record t { used_at = some at })) ≡ some "Token already used"
unfolding refused
refused-used now at fqdn t = refl

module _ (c : Crates) (stored : ℕ → ℕ) where
  abbrev token_of : String → Db → Option EnrollmentToken
  token_of token db = find (has_hash (token_digest c token)) db.enrollment_tokens

  submit_enrollment_err :
      (now id : ℕ) (p message : String) (req : SubmitEnrollmentRequest) (db : Db)
      → refused now req.fqdn (token_of req.token db) ≡ some message
      → submit_enrollment c stored now id p req db ≡ (err (bad_request message), db)
  unfolding submit_enrollment
  submit_enrollment_err now id p message req db bad = rw (bad, submit_enrollment) refl

  submit_enrollment_ok :
      (now id : ℕ) (p : String) (req : SubmitEnrollmentRequest) (db : Db)
      → refused now req.fqdn (token_of req.token db) ≡ none
      → submit_enrollment c stored now id p req db
        ≡ (ok p, accept_enrollment c stored now id p req db)
  unfolding submit_enrollment
  submit_enrollment_ok now id p req db fine = rw (fine, submit_enrollment) refl

  -- An accepted submission names a token that is there and that nothing speaks against.
  accepted_token :
      (now id : ℕ) (p answer : String) (req : SubmitEnrollmentRequest) (db : Db)
      → (submit_enrollment c stored now id p req db).0 ≡ ok answer
      → (refused now req.fqdn (token_of req.token db) ≡ none)
        × (t : EnrollmentToken) × (token_of req.token db ≡ some t)
  accepted_token now id p answer req db h =
      elim (Option-cases (refused now req.fqdn (token_of req.token db))) [
        | inr (message, bad) ↦ let e = submit_enrollment_err now id p message req db bad in cc
        | inl fine ↦ elim (Option-cases (token_of req.token db)) [
          | inr (t, there) ↦ (fine, t, there)
          | inl missing ↦ no_token now req.fqdn _ missing fine
        ]
      ]

  used :
      (now id : ℕ) (p : String) (req : SubmitEnrollmentRequest) (db : Db) (t : EnrollmentToken)
      → token_of req.token db ≡ some t
      → token_of req.token (accept_enrollment c stored now id p req db)
        ≡ some (record t { used_at = some now })
  unfolding accept_enrollment
  used now id p req db t there =
      find-update_where (has_hash (token_digest c req.token))
        (λ (a : EnrollmentToken). record a { used_at = some now }) db.enrollment_tokens t
        (λ a. refl) there

  -- A token that a submission was accepted with is refused from then on, whoever presents it, for
  -- whatever host and at whatever time, and nothing is written.
  pub submit_enrollment-single_use :
      (now now2 id id2 : ℕ) (p p2 answer : String) (req req2 : SubmitEnrollmentRequest) (db : Db)
      → req2.token ≡ req.token
      → (submit_enrollment c stored now id p req db).0 ≡ ok answer
      → submit_enrollment c stored now2 id2 p2 req2 (submit_enrollment c stored now id p req db).1
        ≡ (err (bad_request "Token already used"), (submit_enrollment c stored now id p req db).1)
  submit_enrollment-single_use now now2 id id2 p p2 answer req req2 db same h =
      let (fine, t, there) = accepted_token now id p answer req db h in
      let first = submit_enrollment_ok now id p req db fine in
      rw first (
        submit_enrollment_err now2 id2 p2 "Token already used" req2 _
          (rw (same, used now id p req db t there) (refused-used now2 now req2.fqdn t)))

  revoked-refused :
      (now now2 : ℕ) (fqdn : String) (row : Option EnrollmentToken) (hash : String)
      (rows : List EnrollmentToken)
      → find (has_hash hash) rows ≡ row
      → refused now2 fqdn (
          find (has_hash hash) (
            update_where
              (has_hash hash)
              (λ (a : EnrollmentToken). record a { revoked_at = some now })
              rows))
        ≡ refused now2 fqdn row
  unfolding refused
  revoked-refused now now2 fqdn none hash rows h =
      rw
        (find-update_where-none (has_hash hash)
          (λ (a : EnrollmentToken). record a { revoked_at = some now }) rows h)
        refl
  revoked-refused now now2 fqdn (some t) hash rows h =
      rw
        (find-update_where (has_hash hash)
          (λ (a : EnrollmentToken). record a { revoked_at = some now }) rows t (λ a. refl) h)
        refl

  revoked-token :
      (now now2 : ℕ) (auth : AuthUser) (req : SubmitEnrollmentRequest) (db : Db)
      → is_admin auth.role ≡ true
      → refused now2 req.fqdn
          (token_of req.token (revoke_token c stored now auth (token_digest c req.token) db).1)
        ≡ refused now2 req.fqdn (token_of req.token db)
  unfolding revoke_token audit
  revoked-token now now2 auth req db boss =
      rw boss
        (revoked-refused now now2 req.fqdn _ (token_digest c req.token) db.enrollment_tokens refl)

  -- Revoking a token changes no answer that its presentation gets, before or after: an unused token
  -- that an administrator has revoked still enrolls its host.
  pub submit_enrollment-revoked :
      (now now2 id : ℕ) (p : String) (auth : AuthUser) (req : SubmitEnrollmentRequest) (db : Db)
      → (submit_enrollment c stored now2 id p req
          (revoke_token c stored now auth (token_digest c req.token) db).1).0
        ≡ (submit_enrollment c stored now2 id p req db).0
  unfolding revoke_token submit_enrollment
  submit_enrollment-revoked now now2 id p auth req db = elim (Bool-cases (is_admin auth.role)) [
    | inr clerk ↦ rw (revoke_token, clerk) refl
    | inl boss ↦
        let after = (revoke_token c stored now auth (token_digest c req.token) db).1 in
        let e = revoked-token now now2 auth req db boss in
        elim (Option-cases (refused now2 req.fqdn (token_of req.token db))) [
          | inl fine ↦
              ap (λ r. r.0) (submit_enrollment_ok now2 id p req after (e ∙ fine))
              ∙ sym (ap (λ r. r.0) (submit_enrollment_ok now2 id p req db fine))
          | inr (m, bad) ↦
              ap (λ r. r.0) (submit_enrollment_err now2 id p m req after (e ∙ bad))
              ∙ sym (ap (λ r. r.0) (submit_enrollment_err now2 id p m req db bad))
        ]
  ]
