-- ===== src/Audit/Chain.antt =====
-- What the hash chain of crates/fw-core/src/audit.rs keeps, and what it does not notice.
use linux_host_firewall_mana.Prelude.{
  ℕ, String, ◌≡◌, refl, sym, ap, ◌∙◌, true, false, List, [], ◌∷◌, ◌++◌, ◌==◌, is_some, Bool-cases,
  inl, inr, Result, ok, err,
}
use linux_host_firewall_mana.Prelude.Lists.{any, is_empty}
use linux_host_firewall_mana.Crates.{Crates}
use linux_host_firewall_mana.Audit.{
  AuditRow, IntegrityResult, integrity_of, chain_hash, head_hash, is_undecodable, mismatched,
  verify_integrity,
}

front_nil : (xs ys : List ℕ) → is_empty (xs ++ ys) ≡ true → is_empty xs ≡ true
front_nil [] ys h = refl
front_nil (x ∷ xs) ys h = h

true_false : {A : Type 0} → true ≡ false → A
true_false h = cc

no_ok :
    {A : Type 0} {G : Type 0} (e : String) (g : G) → ◌≡◌ {A = Result G String} (err e) (ok g) → A
no_ok e g h = cc

ok_inj : {G : Type 0} (a b : G) → ◌≡◌ {A = Result G String} (ok a) (ok b) → b ≡ a
ok_inj a b h = cc

module _ (c : Crates) where
  mismatched-append :
      (prev : String) (xs ys : List AuditRow)
      → mismatched c prev (xs ++ ys) ≡ mismatched c prev xs ++ mismatched c (head_hash c prev xs) ys
  unfolding mismatched head_hash
  mismatched-append prev [] ys = refl
  mismatched-append prev (row ∷ xs) ys =
      elim (Bool-cases (chain_hash c prev row.event row.created_at == row.row_hash)) [
        | inl good ↦ rw good (mismatched-append row.row_hash xs ys)
        | inr bad ↦ rw bad (ap (λ ids. row.id ∷ ids) (mismatched-append row.row_hash xs ys))
      ]

  any-front :
      (xs ys : List AuditRow)
      → any is_undecodable (xs ++ ys) ≡ false
      → any is_undecodable xs ≡ false
  any-front [] ys h = refl
  any-front (row ∷ xs) ys h = elim (Bool-cases (is_some row.event.ip_address)) [
    | inl bad ↦ true_false (rw bad at h)
    | inr fine ↦ rw fine (any-front xs ys (rw fine at h))
  ]

  verify_integrity_ok :
      (rows : List AuditRow) (r : IntegrityResult c)
      → verify_integrity c rows ≡ ok r
      → (any is_undecodable rows ≡ false) × (r.verified ≡ is_empty (mismatched c "" rows))
  unfolding verify_integrity
  verify_integrity_ok rows r h = elim (Bool-cases (any is_undecodable rows)) [
    | inl bad ↦ no_ok _ _ (rw (verify_integrity, bad) at h)
    | inr fine ↦ (fine, ap (λ i. i.verified) (ok_inj _ _ (rw (verify_integrity, fine) at h)))
  ]

  -- A log without its newest rows: when the whole log is read and verified, so is what is left after
  -- any number of rows were removed from the end.
  pub verify_integrity-prefix :
      (kept removed : List AuditRow) (r : IntegrityResult c)
      → verify_integrity c (kept ++ removed) ≡ ok r
      → r.verified ≡ true
      → (r' : IntegrityResult c) × (verify_integrity c kept ≡ ok r') × (r'.verified ≡ true)
  unfolding verify_integrity
  verify_integrity-prefix kept removed r h good =
      let (fine, e) = verify_integrity_ok (kept ++ removed) r h in
      (
        integrity_of c kept,
        rw (verify_integrity, any-front kept removed fine) refl,
        front_nil (mismatched c "" kept) _
            (ap is_empty (sym (mismatched-append "" kept removed)) ∙ (sym e ∙ good)),
      )
