-- ===== src/Policy/Order.antt =====
-- The order in which crates/fw-core/src/policy.rs lists the rules of a policy set.
use linux_host_firewall_mana.Prelude.{
  ℕ, suc, ◌≡◌, refl, ap, ◌∙◌, inl, inr, Bool, true, false, List, [], ◌∷◌, map, arith, Bool-cases,
}
use linux_host_firewall_mana.Prelude.Int.{ℤ, pos, negsuc, int_lt, int_eq}
use linux_host_firewall_mana.Prelude.Lists.{length, keep}
use linux_host_firewall_mana.Policy.{
  SetGroupRow, RuleRow, Joined, comes_before, insert, order_by, join_rows, rules_for_policy_set,
}

int_lt_asym : (a b : ℤ) → int_lt a b ≡ true → (int_lt b a ≡ false) × (int_eq b a ≡ false)
int_lt_asym (pos a) (pos b) h = (ground arith, ground arith)
int_lt_asym (negsuc a) (negsuc b) h = (ground arith, ground arith)
int_lt_asym (pos a) (negsuc b) h = cc
int_lt_asym (negsuc a) (pos b) h = (refl, refl)

int_eq_lt : (a b : ℤ) → int_eq a b ≡ true → int_lt b a ≡ false
int_eq_lt (pos a) (pos b) h = ground arith
int_eq_lt (negsuc a) (negsuc b) h = ground arith
int_eq_lt (pos a) (negsuc b) h = cc
int_eq_lt (negsuc a) (pos b) h = cc

asym : (a b : Joined) → comes_before a b ≡ true → comes_before b a ≡ false
unfolding comes_before
asym a b h = ground (
  arith,
  int_lt_asym a.set_group_order b.set_group_order,
  int_eq_lt a.set_group_order b.set_group_order,
  int_lt_asym a.group_order b.group_order,
  int_eq_lt a.group_order b.group_order,
  int_lt_asym a.rule.priority b.rule.priority,
)

-- No row comes before the row ahead of it.
abbrev pub IsOrdered : List Joined → Type 0
IsOrdered [] = Unit
IsOrdered (a ∷ []) = Unit
IsOrdered (a ∷ b ∷ rows) = (comes_before b a ≡ false) × IsOrdered (b ∷ rows)

insert-IsOrdered : (a : Joined) (rows : List Joined) → IsOrdered rows → IsOrdered (insert a rows)
unfolding insert
insert-IsOrdered a [] h = tt
insert-IsOrdered a (b ∷ []) h = elim (Bool-cases (comes_before b a)) [
  | inl later ↦ rw later (asym b a later, tt)
  | inr here ↦ rw here (here, tt)
]
insert-IsOrdered a (b ∷ d ∷ rows) h = elim (Bool-cases (comes_before b a)) [
  | inr here ↦ rw here (here, h)
  | inl later ↦ elim (Bool-cases (comes_before d a)) [
    | inl more ↦
        let rest : IsOrdered (d ∷ insert a rows) =
          rw (more, insert) at (insert-IsOrdered a (d ∷ rows) h.1) in
        rw (later, more) (h.0, rest)
    | inr stop ↦ rw (later, stop) (asym b a later, (stop, h.1))
  ]
]

order_by-IsOrdered : (rows : List Joined) → IsOrdered (order_by rows)
unfolding order_by
order_by-IsOrdered [] = tt
order_by-IsOrdered (a ∷ rows) = insert-IsOrdered a (order_by rows) (order_by-IsOrdered rows)

-- The rows that `p` holds of, counted.
abbrev pub count : (Joined → Bool) → List Joined → ℕ
count p rows = length (keep p rows)

count-swap :
    (p : Joined → Bool) (a b : Joined) (rows : List Joined)
    → count p (b ∷ a ∷ rows) ≡ count p (a ∷ b ∷ rows)
count-swap p a b rows = ground arith

count-cons :
    (p : Joined → Bool) (b : Joined) (xs ys : List Joined)
    → count p xs ≡ count p ys
    → count p (b ∷ xs) ≡ count p (b ∷ ys)
count-cons p b xs ys h = elim (Bool-cases (p b)) [
  | inl holds ↦ rw holds (ap suc h)
  | inr fails ↦ rw fails h
]

count-insert :
    (p : Joined → Bool) (a : Joined) (rows : List Joined)
    → count p (insert a rows) ≡ count p (a ∷ rows)
unfolding insert
count-insert p a [] = refl
count-insert p a (b ∷ rows) = elim (Bool-cases (comes_before b a)) [
  | inl later ↦
      rw later
        (count-cons p b (insert a rows) (a ∷ rows) (count-insert p a rows) ∙ count-swap p a b rows)
  | inr here ↦ rw here refl
]

count-order_by : (p : Joined → Bool) (rows : List Joined) → count p (order_by rows) ≡ count p rows
unfolding order_by
count-order_by p [] = refl
count-order_by p (a ∷ rows) =
    count-insert p a (order_by rows) ∙ count-cons p a (order_by rows) rows (count-order_by p rows)

-- The rules of a policy set are those of a list of rows in which none comes before the one ahead of
-- it, by the order of the group in the set, then of the rule in the group, then by priority; the rows
-- are the joined rows, none lost and none repeated: of both lists every test holds equally often.
pub rules_for_policy_set-IsOrdered :
    (groups : List SetGroupRow) (rules : List RuleRow) (set : ℕ)
    → (rows : List Joined) × IsOrdered rows
      × (rules_for_policy_set groups rules set ≡ map (λ j. j.rule) rows)
      × ((p : Joined → Bool) → count p rows ≡ count p (join_rows set groups rules))
unfolding rules_for_policy_set
rules_for_policy_set-IsOrdered groups rules set =
    let joined = join_rows set groups rules in
    (order_by joined, order_by-IsOrdered joined, refl, λ p. count-order_by p joined)
