-- ===== src/Manager/Enrollment/Flow.antt =====
-- From the approval of an enrollment request to the agent's certificate
-- (crates/fw-web/src/routes/enrollment.rs).
use linux_host_firewall_mana.Prelude.{
  ℕ, String, ◌≡◌, refl, sym, ◌∙◌, ap, Bool, true, false, not, ◌&&◌, ltb, Result-cases, none, some,
  List, [], ◌∷◌, ◌==◌, eq_iff, inl, inr, Bool-cases, Option-cases, ok, err,
}
use linux_host_firewall_mana.Prelude.Int.{ℤ}
use linux_host_firewall_mana.Prelude.Lists.{any, any-append, find, keep}
use linux_host_firewall_mana.Crates.{Crates, SerdeJson, Rcgen}
use linux_host_firewall_mana.Auth.Rbac.{AuthUser, is_admin}
use linux_host_firewall_mana.Ca.{CertificateAuthority, SignedCert, sign_csr}
use linux_host_firewall_mana.Manager.Db.{Db}
use linux_host_firewall_mana.Manager.Tables.{EnrollmentRequest, ApprovedEnrollment}
use linux_host_firewall_mana.Manager.Handler.{AppError, conflict, not_found, audit}
use linux_host_firewall_mana.Manager.Settings.{global_check_in_interval}
use linux_host_firewall_mana.Manager.Enrollment.{
  approved, token_digest, is_polled_by, poll_enrollment_status, poll_request,
}
use linux_host_firewall_mana.Manager.Enrollment.Approve.{
  Draws, has_id, collides, approve_enrollment, approve_request, sign_request, insert_host,
  finish_enrollment, bundle_for, cache_bundle, new_host,
}

any-keep-not : {A : Type 0} (p : A → Bool) (xs : List A) → any p (keep (λ x. not (p x)) xs) ≡ false
any-keep-not p [] = refl
any-keep-not p (x ∷ xs) = elim (Bool-cases (p x)) [
  | inl gone ↦ rw gone (any-keep-not p xs)
  | inr stays ↦ rw (stays, stays) (any-keep-not p xs)
]

find-any : {A : Type 0} (p : A → Bool) (xs : List A) → any p xs ≡ false → find p xs ≡ none
find-any p [] h = refl
find-any p (x ∷ xs) h = elim (Bool-cases (p x)) [
  | inl here ↦ cc
  | inr later ↦ rw later (find-any p xs (rw later at h))
]

any-keep_and :
    {A : Type 0} (k p q : A → Bool) (xs : List A)
    → any (λ x. k x && p x) xs ≡ false
    → any (λ x. p x && q x) (keep k xs) ≡ false
any-keep_and k p q [] h = refl
any-keep_and k p q (x ∷ xs) h = elim (Bool-cases (k x)) [
  | inr gone ↦ rw gone (any-keep_and k p q xs (rw gone at h))
  | inl stays ↦ elim (Bool-cases (p x)) [
    | inl bad ↦ absurd_true (any (λ x. k x && p x) xs) (rw (stays, bad) at h)
    | inr fine ↦ rw (stays, fine) (any-keep_and k p q xs (rw (stays, fine) at h))
  ]
]
  where
    absurd_true : {B : Type 0} (b : Bool) → true ≡ false → B
    absurd_true b e = cc

module _ (c : Crates) (stored : ℕ → ℕ) where
  poll_hit :
      (t : ℕ) (token : String) (e : ApprovedEnrollment) (db : Db)
      → find (λ e. e.polling_token == token_digest c token) db.approved_enrollments ≡ some e
      → poll_enrollment_status c stored t token db ≡ (
        ok (approved e.pki_bundle e.host_id),
        record db {
          approved_enrollments =
              keep (λ a. not (a.polling_token == token_digest c token)) db.approved_enrollments;
        },
      )
  unfolding poll_enrollment_status
  poll_hit t token e db hit = rw (hit, poll_enrollment_status) refl

  poll_gone :
      (t : ℕ) (token : String) (db : Db)
      → find (λ e. e.polling_token == token_digest c token) db.approved_enrollments ≡ none
      → any
          (λ r. is_polled_by (token_digest c token) r && ltb t r.expires_at)
          db.enrollment_requests
        ≡ false
      → (poll_enrollment_status c stored t token db).0
        ≡ err (not_found "Enrollment not found or expired")
  unfolding poll_enrollment_status poll_request
  poll_gone t token db miss none_left = rw (miss, poll_enrollment_status, none_left) refl

module _ (c : Crates) (j : SerdeJson) (x : Rcgen) (ca : CertificateAuthority x) (stored : ℕ → ℕ)
    (now : ℕ) (auth : AuthUser) (d : Draws) where
  -- An approval by an administrator of a request that exists and whose host is new.
  approve_enrollment_step :
      (id : ℕ) (r : EnrollmentRequest) (db : Db)
      → is_admin auth.role ≡ true
      → find (has_id id) db.enrollment_requests ≡ some r
      → any (collides r) db.hosts ≡ false
      → approve_enrollment c j x ca stored now auth d id db
        ≡ sign_request c j x ca stored now auth d
            (global_check_in_interval j db.system_config)
            r
            (insert_host d.host_id (global_check_in_interval j db.system_config) r db)
  unfolding approve_enrollment approve_request
  approve_enrollment_step id r db boss there new = rw (boss, there, new) refl

  sign_request_ok :
      (interval : ℤ) (r : EnrollmentRequest) (csr : String) (signed : SignedCert) (db : Db)
      → r.csr ≡ some csr
      → sign_csr x c now ca d.serial csr d.host_id ≡ ok signed
      → sign_request c j x ca stored now auth d interval r db
        ≡ (ok tt, finish_enrollment c j x ca stored now auth d interval r signed db)
  unfolding sign_request
  sign_request_ok interval r csr signed db given good = rw (given, sign_request, good) refl

  -- A signing that fails writes nothing.
  sign_request_err :
      (interval : ℤ) (r : EnrollmentRequest) (e : AppError) (db : Db)
      → (sign_request c j x ca stored now auth d interval r db).0 ≡ err e
      → (sign_request c j x ca stored now auth d interval r db).1 ≡ db
  unfolding sign_request
  sign_request_err interval r e db failed = elim (Option-cases r.csr) [
    | inl missing ↦ rw (missing, sign_request) refl
    | inr (csr, given) ↦ elim (Result-cases (sign_csr x c now ca d.serial csr d.host_id)) [
      | inl (bad, e) ↦ rw (given, sign_request, e) refl
      | inr (signed, good) ↦ let done = sign_request_ok interval r csr signed db given good in cc
    ]
  ]

  abbrev interval : Db → ℤ
  interval db = global_check_in_interval j db.system_config

  approve_enrollment_taken :
      (id : ℕ) (r : EnrollmentRequest) (db : Db)
      → is_admin auth.role ≡ true
      → find (has_id id) db.enrollment_requests ≡ some r
      → any (collides r) db.hosts ≡ true
      → approve_enrollment c j x ca stored now auth d id db
        ≡ (err (conflict "Host already registered"), db)
  unfolding approve_enrollment approve_request
  approve_enrollment_taken id r db boss there taken = rw (boss, there, taken) refl

  -- An approved request hands out its certificate: once an administrator approves a request of a new
  -- host whose signing request is signed, the agent's next poll, however late, gets the signed
  -- certificate with the new host's id, and the poll after that gets no bundle any more but 404.
  pub approve_enrollment-delivers :
      (id t2 t3 : ℕ) (token csr : String) (r : EnrollmentRequest) (signed : SignedCert) (db : Db)
      → is_admin auth.role ≡ true
      → find (has_id id) db.enrollment_requests ≡ some r
      → any (collides r) db.hosts ≡ false
      → r.polling_token ≡ token_digest c token
      → any (λ q. not (has_id r.id q) && q.polling_token == r.polling_token) db.enrollment_requests
        ≡ false
      → r.csr ≡ some csr
      → sign_csr x c now ca d.serial csr d.host_id ≡ ok signed
      → let db' = (approve_enrollment c j x ca stored now auth d id db).1 in
        let polled = poll_enrollment_status c stored t2 token db' in
        (polled.0
          ≡ ok (
              approved
                (bundle_for c j x ca stored now auth d
                  (global_check_in_interval j db.system_config)
                  signed)
                d.host_id))
        × ((poll_enrollment_status c stored t3 token polled.1).0
            ≡ err (not_found "Enrollment not found or expired"))
  unfolding finish_enrollment insert_host cache_bundle audit
  approve_enrollment-delivers id t2 t3 token csr r signed db boss there new digest alone given
        good =
      let n = interval db in
      let db1 = insert_host d.host_id n r db in
      let db2 = finish_enrollment c j x ca stored now auth d n r signed db1 in
      let done : (approve_enrollment c j x ca stored now auth d id db).1 ≡ db2 =
        ap (λ a. a.1)
          (approve_enrollment_step id r db boss there new
            ∙ sign_request_ok n r csr signed db1 given good) in
      let key : (r.polling_token == token_digest c token) ≡ true = (eq_iff _ _).1 digest in
      let entry : ApprovedEnrollment = record {
        polling_token = r.polling_token;
        pki_bundle = bundle_for c j x ca stored now auth d n signed;
        host_id = d.host_id;
        created_at = now;
      } in
      let first = poll_hit c stored t2 token entry db2 (rw key refl) in
      let is_key = λ (a : ApprovedEnrollment). a.polling_token == token_digest c token in
      let no_entry =
        find-any is_key (keep (λ a. not (is_key a)) db2.approved_enrollments)
          (any-keep-not is_key db2.approved_enrollments) in
      let no_request =
        any-keep_and (λ q. not (has_id r.id q)) (is_polled_by (token_digest c token))
          (λ q. ltb t3 q.expires_at) db.enrollment_requests (rw digest at alone) in
      rw (done, first) (refl, poll_gone c stored t3 token _ no_entry no_request)

  -- A failed approval leaves the request and the host.
  failed-leaves :
      (id : ℕ) (r : EnrollmentRequest) (e : AppError) (db : Db)
      → find (has_id id) db.enrollment_requests ≡ some r
      → any (collides r) db.hosts ≡ false
      → is_admin auth.role ≡ true
      → (approve_enrollment c j x ca stored now auth d id db).0 ≡ err e
      → let db' = (approve_enrollment c j x ca stored now auth d id db).1 in
        (find (has_id id) db'.enrollment_requests ≡ some r) × (any (collides r) db'.hosts ≡ true)
  unfolding insert_host new_host
  failed-leaves id r e db there new boss failed =
      let n = interval db in
      let db1 = insert_host d.host_id n r db in
      let step = approve_enrollment_step id r db boss there new in
      let kept : (approve_enrollment c j x ca stored now auth d id db).1 ≡ db1 =
        ap (λ a. a.1) step ∙ sign_request_err n r e db1 (sym (ap (λ a. a.0) step) ∙ failed) in
      let fqdn : (r.fqdn == r.fqdn) ≡ true = (eq_iff _ _).1 refl in
      let ip : (r.ip_address == r.ip_address) ≡ true = (eq_iff _ _).1 refl in
      let taken : any (collides r) db1.hosts ≡ true =
        any-append (collides r) db.hosts (new_host d.host_id r ∷ []) ∙ rw (new, fqdn, ip) refl in
      rw kept (there, taken)

-- An approval that fails at the signing leaves the host in the table, so that the same request cannot
-- be approved any more: the next attempt, by any administrator, at any time, with any random values and
-- any signing authority, is refused as a duplicate.
pub approve_enrollment-stuck :
    (c : Crates) (j : SerdeJson) (x x2 : Rcgen) (ca : CertificateAuthority x)
    (ca2 : CertificateAuthority x2) (stored : ℕ → ℕ) (now later : ℕ) (auth auth2 : AuthUser)
    (d d2 : Draws) (id : ℕ) (r : EnrollmentRequest) (e : AppError) (db : Db)
    → find (has_id id) db.enrollment_requests ≡ some r
    → any (collides r) db.hosts ≡ false
    → is_admin auth.role ≡ true
    → is_admin auth2.role ≡ true
    → (approve_enrollment c j x ca stored now auth d id db).0 ≡ err e
    → (approve_enrollment c j x2 ca2 stored later auth2 d2 id
        (approve_enrollment c j x ca stored now auth d id db).1)
      ≡ (
        err (conflict "Host already registered"),
        (approve_enrollment c j x ca stored now auth d id db).1,
      )
approve_enrollment-stuck c j x x2 ca ca2 stored now later auth auth2 d d2 id r e db there new boss
      boss2 failed =
    let (still, taken) = failed-leaves c j x ca stored now auth d id r e db there new boss failed in
    approve_enrollment_taken c j x2 ca2 stored later auth2 d2 id r _ boss2 still taken
