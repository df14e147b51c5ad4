-- ===== src/Prelude/Lists.antt =====
-- List helpers over the native numbers, and the predicates that proofs use.
use Prim.Native.Nat.{ℕ, suc, ◌+◌}
use mathlib.Core.Path.{◌≡◌, refl, ap}
use mathlib.Core.Logic.{◌⊎◌, inl, inr}
use mathlib.Core.Bool.{Bool, true, false, ◌||◌}
use mathlib.Core.Option.{Option, none, some}
use mathlib.Core.List.{List, [], ◌∷◌, ◌++◌, map}
use native.Mathlib.Omega.{arith}

module _ {ℓ} {A : Type ℓ} where
  abbrev pub length : List A → ℕ
  length [] = 0
  length (x ∷ xs) = suc (length xs)

  abbrev pub is_empty : List A → Bool
  is_empty [] = true
  is_empty (x ∷ xs) = false

  abbrev pub any : (A → Bool) → List A → Bool
  any p [] = false
  any p (x ∷ xs) = p x || any p xs

  abbrev choose : Bool → List A → List A → List A
  choose true xs ys = xs
  choose false xs ys = ys

  -- `iter().filter(p)`
  abbrev pub keep : (A → Bool) → List A → List A
  keep p [] = []
  keep p (x ∷ xs) = let rest = keep p xs in choose (p x) (x ∷ rest) rest

  -- The first row that a query's condition selects.
  abbrev pick : Bool → A → Option A → Option A
  pick true x rest = some x
  pick false x rest = rest

  abbrev pub find : (A → Bool) → List A → Option A
  find p [] = none
  find p (x ∷ xs) = let rest = find p xs in pick (p x) x rest

  abbrev change : Bool → (A → A) → A → A
  change true f x = f x
  change false f x = x

  -- `UPDATE … SET f WHERE p`
  abbrev pub update_where : (A → Bool) → (A → A) → List A → List A
  update_where p f [] = []
  update_where p f (x ∷ xs) = change (p x) f x ∷ update_where p f xs

  pub length-append : (xs ys : List A) → length (xs ++ ys) ≡ length xs + length ys
  length-append [] ys = omega arith
  length-append (x ∷ xs) ys = omega (arith, length-append xs ys)

pub length-map {ℓ κ} :
    {A : Type ℓ} {B : Type κ} (f : A → B) (xs : List A) → length (map f xs) ≡ length xs
length-map f [] = refl
length-map f (x ∷ xs) = ap suc (length-map f xs)

-- `P` of every element.
abbrev pub All {ℓ κ} : {A : Type ℓ} → (A → Type κ) → List A → Type κ
All P [] = Unit
All P (x ∷ xs) = P x × All P xs

pub any-append {ℓ} :
    {A : Type ℓ} (p : A → Bool) (xs ys : List A) → any p (xs ++ ys) ≡ any p xs || any p ys
any-append p [] ys = refl
any-append p (x ∷ xs) ys = ground (arith, any-append p xs ys)

pub All-imp {ℓ κ μ} :
    {A : Type ℓ} {P : A → Type κ} {Q : A → Type μ}
    → ((a : A) → P a → Q a)
    → (xs : List A) → All P xs
    → All Q xs
All-imp f [] h = tt
All-imp f (x ∷ xs) h = (f x h.0, All-imp f xs h.1)

cases : (b : Bool) → (b ≡ true) ⊎ (b ≡ false)
cases true = inl refl
cases false = inr refl

-- The first selected row behind an update of the selected rows.
pub find-update_where :
    {A : Type 0} (p : A → Bool) (f : A → A) (xs : List A) (x : A)
    → ((a : A) → p (f a) ≡ p a)
    → find p xs ≡ some x
    → find p (update_where p f xs) ≡ some (f x)
find-update_where p f [] x keeps h = cc
find-update_where p f (y ∷ ys) x keeps h = elim (cases (p y)) [
  | inl here ↦ rw (here, keeps, here) (ap some (ap f (some_inj _ _ (rw here at h))))
  | inr later ↦ rw (later, later) (find-update_where p f ys x keeps (rw later at h))
]
  where
    some_inj : {B : Type 0} (a b : B) → some a ≡ some b → a ≡ b
    some_inj a b e = cc

pub find-update_where-none :
    {A : Type 0} (p : A → Bool) (f : A → A) (xs : List A)
    → find p xs ≡ none
    → find p (update_where p f xs) ≡ none
find-update_where-none p f [] h = refl
find-update_where-none p f (y ∷ ys) h = elim (cases (p y)) [
  | inl here ↦ some_none _ (rw here at h)
  | inr later ↦ rw (later, later) (find-update_where-none p f ys (rw later at h))
]
  where
    some_none : {B C : Type 0} (b : B) → some b ≡ none → C
    some_none b e = cc
