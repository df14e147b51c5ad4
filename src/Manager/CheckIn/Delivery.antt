-- ===== src/Manager/CheckIn/Delivery.antt =====
-- What a check-in does with the queued actions of its host.
use linux_host_firewall_mana.Prelude.{
  ℕ, ◌≤◌, ◌≡◌, refl, ap, ◌∙◌, Bool, true, false, ◌||◌, List, [], ◌∷◌, map, nat_eq, arith,
  Bool-cases, inl, inr,
}
use linux_host_firewall_mana.Prelude.Lists.{All, All-imp, any, keep}
use linux_host_firewall_mana.Crates.{Crates}
use linux_host_firewall_mana.Manager.Db.{PendingAction, Db}
use linux_host_firewall_mana.Manager.CheckIn.{
  CheckInRequest, is_due, runs_before, insert_action, order_actions, due_actions, deliver,
  action_dto, check_in,
}

any-or : (b p q : Bool) → (b || (p || q)) ≡ (p || (b || q))
any-or b p q = ground arith

module _ (p : PendingAction → Bool) where
  any-insert_action :
      (a : PendingAction) (rows : List PendingAction)
      → any p (insert_action a rows) ≡ p a || any p rows
  unfolding insert_action
  any-insert_action a [] = refl
  any-insert_action a (b ∷ rows) = elim (Bool-cases (runs_before b a)) [
    | inl later ↦ rw (later, any-insert_action a rows) (any-or (p b) (p a) (any p rows))
    | inr here ↦ rw here
  ]

  any-order_actions : (rows : List PendingAction) → any p (order_actions rows) ≡ any p rows
  unfolding order_actions
  any-order_actions [] = refl
  any-order_actions (a ∷ rows) =
      any-insert_action a (order_actions rows) ∙ ap (λ b. p a || b) (any-order_actions rows)

any-ids :
    (id : ℕ) (rows : List PendingAction)
    → any (λ i. nat_eq i id) (map (λ a. a.id) rows) ≡ any (λ a. nat_eq a.id id) rows
any-ids id [] = refl
any-ids id (a ∷ rows) = ap (λ b. nat_eq a.id id || b) (any-ids id rows)

abbrev due_ids : ℕ → ℕ → List PendingAction → List ℕ
due_ids now host rows = map (λ a. a.id) (due_actions now host rows)

ids_lem :
    (now host id : ℕ) (rows : List PendingAction)
    → any (λ i. nat_eq i id) (due_ids now host rows)
      ≡ any (λ a. nat_eq a.id id) (keep (is_due now host) rows)
unfolding due_actions
ids_lem now host id rows =
    any-ids id (due_actions now host rows)
    ∙ any-order_actions (λ a. nat_eq a.id id) (keep (is_due now host) rows)

-- Every action that is due is among those kept.
module _ (now host : ℕ) where
  abbrev IsListed : List PendingAction → PendingAction → Type 0
  IsListed rows a =
      is_due now host a ≡ true → any (λ b. nat_eq b.id a.id) (keep (is_due now host) rows) ≡ true

  IsListed-cons :
      (b : PendingAction) (rows : List PendingAction) (a : PendingAction)
      → IsListed rows a
      → IsListed (b ∷ rows) a
  IsListed-cons b rows a h due = ground (arith, h due)

  keep-IsListed : (rows : List PendingAction) → All (IsListed rows) rows
  keep-IsListed [] = tt
  keep-IsListed (a ∷ rows) =
      ((λ due. ground arith), All-imp (IsListed-cons a rows) rows (keep-IsListed rows))

  not_due_later :
      (later : ℕ) (ids : List ℕ) (a : PendingAction)
      → now ≤ later
      → (is_due now host a ≡ true → any (λ i. nat_eq i a.id) ids ≡ true)
      → is_due later host (deliver now ids a) ≡ false
  not_due_later later ids a le listed = ground arith

  none_due :
      (later : ℕ) (ids : List ℕ) (rows : List PendingAction)
      → now ≤ later
      → All (λ a. is_due now host a ≡ true → any (λ i. nat_eq i a.id) ids ≡ true) rows
      → keep (is_due later host) (map (deliver now ids) rows) ≡ []
  none_due later ids [] le h = refl
  none_due later ids (a ∷ rows) le h =
      rw (not_due_later later ids a le h.0) (none_due later ids rows le h.1)

  rows_once :
      (later : ℕ) (rows : List PendingAction)
      → now ≤ later
      → due_actions later host (map (deliver now (due_ids now host rows)) rows) ≡ []
  unfolding due_actions
  rows_once later rows le = ap order_actions (
      none_due later (due_ids now host rows) rows le
        (All-imp (λ a h due. ids_lem now host a.id rows ∙ h due) rows (keep-IsListed rows)))

-- At most once: on the database that a check-in left, the next check-in of the same host, at the same
-- time or later, is given no action, whatever both requests say and whatever was queued before.
pub check_in-delivers_once :
    (c : Crates) (stored : ℕ → ℕ) (now later host : ℕ) (first next : CheckInRequest) (db : Db)
    → now ≤ later
    → (check_in c stored later host next (check_in c stored now host first db).1).0.pending_actions
      ≡ []
unfolding check_in
check_in-delivers_once c stored now later host first next db le =
    ap (map action_dto) (rows_once now host later db.pending_actions le)
