-- ===== src/Prelude/Int.antt =====
-- Signed 32-bit integers, as the integers they stand for, with `Display`, `to_le_bytes` and `as u32`.
use Prim.Native.Nat.{ℕ, zero, suc, ◌+◌, ◌-◌, ◌/◌, ◌%◌, ◌^◌, compare, Ordering}
use Prim.Native.String
use Prim.Native.String.{String}
use mathlib.Core.Path.{◌≡◌, refl}
use mathlib.Core.Bool.{Bool, true, false}
use mathlib.Core.List.{List, [], ◌∷◌}

-- `negsuc n` is -(n + 1).
pub data ℤ : Type 0 where
  pos : ℕ → ℤ
  negsuc : ℕ → ℤ

abbrev pub int_eq : ℤ → ℤ → Bool
int_eq (pos a) (pos b) = elim (compare a b) [ Ordering.eq ↦ true | _ ↦ false ]
int_eq (negsuc a) (negsuc b) = elim (compare a b) [ Ordering.eq ↦ true | _ ↦ false ]
int_eq (pos a) (negsuc b) = false
int_eq (negsuc a) (pos b) = false

-- a < b
abbrev pub int_lt : ℤ → ℤ → Bool
int_lt (pos a) (pos b) = elim (compare a b) [ Ordering.lt ↦ true | _ ↦ false ]
int_lt (negsuc a) (negsuc b) = elim (compare b a) [ Ordering.lt ↦ true | _ ↦ false ]
int_lt (pos a) (negsuc b) = false
int_lt (negsuc a) (pos b) = true

pick : List String → ℕ → String
pick [] n = ""
pick (d ∷ ds) zero = d
pick (d ∷ ds) (suc n) = pick ds n

digit : ℕ → String
unfolding pick
digit = pick ("0" ∷ "1" ∷ "2" ∷ "3" ∷ "4" ∷ "5" ∷ "6" ∷ "7" ∷ "8" ∷ "9" ∷ [])

-- A division for each digit; the number itself is enough fuel.
decimal : ℕ → ℕ → String
unfolding digit
decimal zero n = digit (n % 10)
decimal (suc fuel) n = elim (compare n 10) [
  | Ordering.lt ↦ digit n
  | _ ↦ String.◌++◌ (decimal fuel (n / 10)) (digit (n % 10))
]

unfoldable pub show_ℕ : ℕ → String
unfolding decimal
show_ℕ n = decimal n n

unfoldable pub show : ℤ → String
unfolding show_ℕ
show (pos n) = show_ℕ n
show (negsuc n) = String.◌++◌ "-" (show_ℕ (n + 1))

-- `as u32`
abbrev pub as_u32 : ℤ → ℕ
as_u32 (pos n) = n % 2 ^ 32
as_u32 (negsuc n) = 2 ^ 32 - 1 - n % 2 ^ 32

le_bytes : ℕ → List ℕ
le_bytes n = n % 256 ∷ n / 256 % 256 ∷ n / 65536 % 256 ∷ n / 16777216 % 256 ∷ []

unfoldable pub to_le_bytes : ℤ → List ℕ
unfolding le_bytes
to_le_bytes n = le_bytes (as_u32 n)

show_port : show (pos 8443) ≡ "8443"
unfolding show
show_port = refl

show_minus : show (negsuc 9) ≡ "-10"
unfolding show
show_minus = refl
