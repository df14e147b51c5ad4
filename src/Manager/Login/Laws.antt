-- ===== src/Manager/Login/Laws.antt =====
-- Lockout, refresh and logout of crates/fw-web/src/routes/auth.rs.
use linux_host_firewall_mana.Prelude.{
  ℕ, ◌+◌, ◌*◌, ◌≤◌, ◌<◌, String, eq_iff, ◌≡◌, refl, ap, true, false, none, some, List, [], ◌∷◌,
  ◌++◌, ◌==◌, inl, inr, Bool-cases, Option-cases, Result-cases, Result, ok, err, arith, leb,
  unwrap_or,
}
use linux_host_firewall_mana.Prelude.Lists.{All, any, find, update_where}
use linux_host_firewall_mana.Crates.{Crates, Argon2, Argon2Laws}
use linux_host_firewall_mana.Auth.Rbac.{AuthUser, RefreshTokenRow, role_str}
use linux_host_firewall_mana.Auth.Password.{verified}
use linux_host_firewall_mana.Manager.Db.{Db}
use linux_host_firewall_mana.Manager.Tables.{UserRow}
use linux_host_firewall_mana.Manager.Handler.{unauthorized, audit}
use linux_host_firewall_mana.Manager.Login.{
  LoginDraws, LoginRequest, is_login, has_user_id, is_locked, minute, count_failure, login_failed,
  login, sign_in, logged_in, is_live_token, refresh_token, refresh_row_user, logout,
}

All-append :
    (P : RefreshTokenRow → Type 0) (rows more : List RefreshTokenRow)
    → All P rows
    → All P more
    → All P (rows ++ more)
All-append P [] more h k = k
All-append P (r ∷ rows) more h k = (h.0, All-append P rows more h.1 k)

-- The query by name finds the row that the update by id changes.
find-by_other :
    (name : String) (u : UserRow) (f : UserRow → UserRow) (rows : List UserRow)
    → ((r : UserRow) → is_login name (f r) ≡ is_login name r)
    → find (is_login name) rows ≡ some u
    → find (is_login name) (update_where (has_user_id u.id) f rows) ≡ some (f u)
find-by_other name u f [] keeps h = cc
find-by_other name u f (r ∷ rows) keeps h = elim (Bool-cases (is_login name r)) [
  | inl here ↦
      let e : r ≡ u = some_inj _ _ (rw here at h) in
      let me : has_user_id u.id r ≡ true = rw e (ground arith) in
      rw (me, keeps, here) (ap some (ap f e))
  | inr later ↦ elim (Bool-cases (has_user_id u.id r)) [
    | inl twin ↦ rw (twin, keeps, later) (find-by_other name u f rows keeps (rw later at h))
    | inr other ↦ rw (other, later) (find-by_other name u f rows keeps (rw later at h))
  ]
]
  where
    some_inj : {B : Type 0} (a b : B) → some a ≡ some b → a ≡ b
    some_inj a b e = cc

module _ (c : Crates) (a : Argon2) (stored : ℕ → ℕ)
    (issue : ℕ → String → String → String → Result String String) where
  login_wrong :
      (now : ℕ) (d : LoginDraws) (req : LoginRequest) (u : UserRow) (db : Db)
      → find (is_login req.username) db.users ≡ some u
      → u.is_active ≡ true
      → is_locked now u.locked_until ≡ false
      → verified a req.password (unwrap_or u.password_hash "") ≡ false
      → login c a stored now issue d req db
        ≡ (err (unauthorized "Invalid credentials"), login_failed c a stored now issue req u db)
  unfolding login
  login_wrong now d req u db there active unlocked wrong =
      rw (there, login, active, unlocked, wrong) refl

  login_locked :
      (now : ℕ) (d : LoginDraws) (req : LoginRequest) (u : UserRow) (db : Db)
      → find (is_login req.username) db.users ≡ some u
      → u.is_active ≡ true
      → is_locked now u.locked_until ≡ true
      → login c a stored now issue d req db ≡ (err (unauthorized "Account locked"), db)
  unfolding login
  login_locked now d req u db there active locked = rw (there, login, active, locked) refl

  locked_row : ℕ → UserRow → UserRow
  locked_row now u = record u {
    failed_login_attempts = u.failed_login_attempts + 1;
    locked_until = some (now + 30 * minute);
  }

  failed_row :
      (now : ℕ) (req : LoginRequest) (u : UserRow) (db : Db)
      → find (is_login req.username) db.users ≡ some u
      → 4 ≤ u.failed_login_attempts
      → find (is_login req.username) (login_failed c a stored now issue req u db).users
        ≡ some (locked_row now u)
  unfolding login_failed count_failure locked_row
  failed_row now req u db there many =
      let fifth : leb 5 (u.failed_login_attempts + 1) ≡ true = ground arith in
      let add = λ (r : UserRow). record r { failed_login_attempts = r.failed_login_attempts + 1 } in
      let lock = λ (r : UserRow). record r { locked_until = some (now + 30 * minute) } in
      rw fifth (
        find-by_other req.username (add u) lock (update_where (has_user_id u.id) add db.users)
          (λ r. refl) (find-by_other req.username u add db.users (λ r. refl) there))

  -- The fifth wrong password in a row locks the account: until 30 minutes later every login for that
  -- name is answered with "Account locked", the right password's as well, and changes nothing.
  pub login-locks :
      (now later : ℕ) (d d2 : LoginDraws) (req req2 : LoginRequest) (u : UserRow) (db : Db)
      → find (is_login req.username) db.users ≡ some u
      → u.is_active ≡ true
      → is_locked now u.locked_until ≡ false
      → verified a req.password (unwrap_or u.password_hash "") ≡ false
      → 4 ≤ u.failed_login_attempts
      → req2.username ≡ req.username
      → later < now + 30 * minute
      → login c a stored later issue d2 req2 (login c a stored now issue d req db).1
        ≡ (err (unauthorized "Account locked"), (login c a stored now issue d req db).1)
  unfolding locked_row
  login-locks now later d d2 req req2 u db there active unlocked wrong many name soon =
      rw (login_wrong now d req u db there active unlocked wrong) (
        login_locked later d2 req2 (locked_row now u) _
          (rw name (failed_row now req u db there many)) active (ground arith))

  update_where-none :
      (hash : String) (f : RefreshTokenRow → RefreshTokenRow) (rows : List RefreshTokenRow)
      → any (λ r. r.token_hash == hash) rows ≡ false
      → update_where (λ r. r.token_hash == hash) f rows ≡ rows
  update_where-none hash f [] h = refl
  update_where-none hash f (r ∷ rows) h = elim (Bool-cases (r.token_hash == hash)) [
    | inl here ↦ cc
    | inr other ↦ rw other (ap (λ l. r ∷ l) (update_where-none hash f rows (rw other at h)))
  ]

  find-live_none :
      (now : ℕ) (hash : String) (rows : List RefreshTokenRow)
      → any (λ r. r.token_hash == hash) rows ≡ false
      → find (is_live_token c a stored now issue hash) rows ≡ none
  find-live_none now hash [] h = refl
  find-live_none now hash (r ∷ rows) h = elim (Bool-cases (r.token_hash == hash)) [
    | inl here ↦ cc
    | inr other ↦ rw other (find-live_none now hash rows (rw other at h))
  ]

  -- The stored hash was made with another salt.
  abbrev pub IsSalted : String → RefreshTokenRow → Type 0
  IsSalted salt r = (s token : String) × (a.hash_with s token ≡ ok r.token_hash) × (s ≡ salt → ⊥)

  other_salt :
      (salt token hash : String) (rows : List RefreshTokenRow)
      → Argon2Laws a
      → a.hash_with salt token ≡ ok hash
      → All (IsSalted salt) rows
      → any (λ r. r.token_hash == hash) rows ≡ false
  other_salt salt token hash [] laws hashed h = refl
  other_salt salt token hash (r ∷ rows) laws hashed ((s, t, made, other), h) =
      elim (Bool-cases (r.token_hash == hash)) [
        | inr apart ↦ rw apart (other_salt salt token hash rows laws hashed h)
        | inl here ↦
            let e = (eq_iff r.token_hash hash).0 here in
            absurd (other (laws.salted s salt t token hash (rw e at made) hashed))
      ]

  -- The salt of a login that issues a token is the one that the stored hash is made with.
  sign_in-IsSalted :
      (now : ℕ) (d : LoginDraws) (salt : String) (u : UserRow) (db : Db)
      → (d.salt ≡ salt → ⊥)
      → All (IsSalted salt) db.refresh_tokens
      → All (IsSalted salt) (sign_in c a stored now issue d u db).1.refresh_tokens
  unfolding sign_in logged_in
  sign_in-IsSalted now d salt u db fresh old =
      elim (Result-cases (issue u.id (role_str u.role) u.username d.jti)) [
        | inl (e, bad) ↦ rw (sign_in, bad) old
        | inr (access, good) ↦ elim (Result-cases (a.hash_with d.salt d.refresh_token)) [
          | inl (e, bad) ↦ rw (sign_in, good, bad) old
          | inr (hash, made) ↦
              rw (sign_in, good, made)
                (All-append (IsSalted salt) db.refresh_tokens _ old
                  ((d.salt, d.refresh_token, made, fresh), tt))
        ]
      ]

  login-IsSalted :
      (now : ℕ) (d : LoginDraws) (salt : String) (req : LoginRequest) (db : Db)
      → (d.salt ≡ salt → ⊥)
      → All (IsSalted salt) db.refresh_tokens
      → All (IsSalted salt) (login c a stored now issue d req db).1.refresh_tokens
  unfolding login login_failed
  login-IsSalted now d salt req db fresh old =
      elim (Option-cases (find (is_login req.username) db.users)) [
        | inl missing ↦ rw (login, missing) old
        | inr (u, there) ↦ elim (Bool-cases u.is_active) [
          | inr inactive ↦ rw (login, there, inactive) old
          | inl active ↦ elim (Bool-cases (is_locked now u.locked_until)) [
            | inl locked ↦ rw (login, there, active, locked) old
            | inr unlocked ↦
                elim (Bool-cases (verified a req.password (unwrap_or u.password_hash ""))) [
                  | inl right ↦
                      rw (login, there, active, unlocked, right)
                        (sign_in-IsSalted now d salt u db fresh old)
                  | inr wrong ↦ rw (login, there, active, unlocked, wrong) old
                ]
          ]
        ]
      ]

  -- No login can be refreshed or revoked: whatever a login answers, a refresh or a logout that hashes
  -- the token with a salt that neither this login nor any stored hash was made with finds no row. The
  -- refresh of any token, the login's own as well, is refused, and the logout leaves every stored token
  -- as valid as it was.
  pub login-refresh_token-refused :
      (now later : ℕ) (d d2 : LoginDraws) (auth : AuthUser) (req : LoginRequest)
      (token hash : String) (db : Db)
      → Argon2Laws a
      → (d.salt ≡ d2.salt → ⊥)
      → All (IsSalted d2.salt) db.refresh_tokens
      → a.hash_with d2.salt token ≡ ok hash
      → let db' = (login c a stored now issue d req db).1 in
        (refresh_token c a stored later issue d2 token db'
          ≡ (err (unauthorized "Invalid refresh token"), db'))
        × ((logout c a stored later issue d2 auth token db').1.refresh_tokens ≡ db'.refresh_tokens)
  unfolding refresh_token refresh_row_user logout audit
  login-refresh_token-refused now later d d2 auth req token hash db laws fresh old hashed =
      let db' = (login c a stored now issue d req db).1 in
      let none_made =
        other_salt d2.salt token hash db'.refresh_tokens laws hashed
          (login-IsSalted now d d2.salt req db fresh old) in
      (
        rw (refresh_token, hashed, find-live_none later hash db'.refresh_tokens none_made) refl,
        rw (logout, hashed)
            (update_where-none hash (λ r. record r { revoked = true }) db'.refresh_tokens
              none_made),
      )
