-- ===== src/Prelude/Text.antt =====
-- Text operations of Rust's standard library that the program calls: concatenation, `join`, `trim`,
-- `lines`, `contains`, and the UTF-8 bytes that the hash functions read.
use Prim.Native.Nat.{ℕ, ◌+◌, ◌/◌, ◌%◌}
use Prim.Native.Char.{Char, code}
use Prim.Native.String
use Prim.Native.String.{String}
use Prim.Native.Nat.{compare, Ordering}
use mathlib.Core.Bool.{Bool, true, false, ◌||◌}
use mathlib.Core.List.{List, [], ◌∷◌, ◌++◌}
use mathlib.Core.Option.{Option, none, some}

-- `format!`: the pieces one after the other.
abbrev pub concat : List String → String
concat [] = ""
concat (s ∷ ss) = String.◌++◌ s (concat ss)

-- `parts.join(sep)`
pub join : String → List String → String
join sep [] = ""
join sep (s ∷ []) = s
join sep (s ∷ t ∷ ss) = String.◌++◌ s (String.◌++◌ sep (join sep (t ∷ ss)))

abbrev pub is_blank : String → Bool
is_blank String.[] = true
is_blank (String.◌∷◌ c s) = false

-- `char::is_whitespace` (Unicode White_Space).
abbrev between : ℕ → ℕ → ℕ → Bool
between lo hi c = elim (compare c lo) [
  | Ordering.lt ↦ false
  | _ ↦ elim (compare c hi) [ Ordering.gt ↦ false | _ ↦ true ]
]

unfoldable pub is_whitespace : ℕ → Bool
is_whitespace c =
    between 9 13 c
    || between 32 32 c
    || between 133 133 c
    || between 160 160 c
    || between 5760 5760 c
    || between 8192 8202 c
    || between 8232 8233 c
    || between 8239 8239 c
    || between 8287 8287 c
    || between 12288 12288 c

unfoldable pub trim_start : String → String
unfolding is_whitespace
trim_start String.[] = ""
trim_start (String.◌∷◌ c s) = elim (is_whitespace (code c)) [
  | true ↦ trim_start s
  | false ↦ String.◌∷◌ c s
]

-- Trailing white space goes: a character stays if it or a later one is no white space.
cons_unless : Bool → Char → String → String
cons_unless w c String.[] = elim w [ true ↦ "" | false ↦ String.◌∷◌ c "" ]
cons_unless w c (String.◌∷◌ d s) = String.◌∷◌ c (String.◌∷◌ d s)

unfoldable pub trim_end : String → String
unfolding is_whitespace cons_unless
trim_end String.[] = ""
trim_end (String.◌∷◌ c s) = cons_unless (is_whitespace (code c)) c (trim_end s)

unfoldable pub trim : String → String
unfolding trim_start trim_end
trim s = trim_end (trim_start s)

-- `str::lines`: split at newlines, a carriage return before one dropped, no last empty line.
drop_cr : String → String
drop_cr String.[] = ""
drop_cr (String.◌∷◌ c String.[]) = elim (between 13 13 (code c)) [
  | true ↦ ""
  | false ↦ String.◌∷◌ c ""
]
drop_cr (String.◌∷◌ c (String.◌∷◌ d s)) = String.◌∷◌ c (drop_cr (String.◌∷◌ d s))

last_line : String → List String
last_line String.[] = []
last_line (String.◌∷◌ c s) = String.◌∷◌ c s ∷ []

lines_from : String → String → List String
unfolding drop_cr last_line
lines_from cur String.[] = last_line cur
lines_from cur (String.◌∷◌ c s) = elim (between 10 10 (code c)) [
  | true ↦ drop_cr cur ∷ lines_from "" s
  | false ↦ lines_from (String.◌++◌ cur (String.◌∷◌ c "")) s
]

unfoldable pub lines : String → List String
unfolding lines_from
lines s = lines_from "" s

-- `strip_prefix` and `strip_suffix`, both by the whole text.
unfoldable pub strip_prefix : String → String → Option String
strip_prefix String.[] s = some s
strip_prefix (String.◌∷◌ p ps) String.[] = none
strip_prefix (String.◌∷◌ p ps) (String.◌∷◌ c s) = elim (compare (code p) (code c)) [
  | Ordering.eq ↦ strip_prefix ps s
  | _ ↦ none
]

add_front : Char → Option String → Option String
add_front c none = none
add_front c (some s) = some (String.◌∷◌ c s)

unfoldable pub strip_suffix : String → String → Option String
unfolding add_front
strip_suffix suffix String.[] = elim (String.compare suffix "") [ Ordering.eq ↦ some "" | _ ↦ none ]
strip_suffix suffix (String.◌∷◌ c s) = elim (String.compare suffix (String.◌∷◌ c s)) [
  | Ordering.eq ↦ some ""
  | _ ↦ add_front c (strip_suffix suffix s)
]

starts : Option String → Bool
starts none = false
starts (some s) = true

-- `s.contains(part)`
unfoldable pub contains : String → String → Bool
unfolding strip_prefix starts
contains part String.[] = starts (strip_prefix part "")
contains part (String.◌∷◌ c s) = starts (strip_prefix part (String.◌∷◌ c s)) || contains part s

-- `s.find(']')` and the rest behind it.
unfoldable pub after_bracket : String → Option String
after_bracket String.[] = none
after_bracket (String.◌∷◌ c s) = elim (compare (code c) 93) [
  | Ordering.eq ↦ some s
  | _ ↦ after_bracket s
]

-- `s.replace('\'', "")`
unfoldable pub drop_quotes : String → String
drop_quotes String.[] = ""
drop_quotes (String.◌∷◌ c s) = elim (compare (code c) 39) [
  | Ordering.eq ↦ drop_quotes s
  | _ ↦ String.◌∷◌ c (drop_quotes s)
]

-- `as_bytes`: UTF-8.
utf8 : ℕ → List ℕ
utf8 c = elim (compare c 128) [
  | Ordering.lt ↦ c ∷ []
  | _ ↦ elim (compare c 2048) [
    | Ordering.lt ↦ (192 + c / 64) ∷ (128 + c % 64) ∷ []
    | _ ↦ elim (compare c 65536) [
      | Ordering.lt ↦ (224 + c / 4096) ∷ (128 + c / 64 % 64) ∷ (128 + c % 64) ∷ []
      | _ ↦ (240 + c / 262144) ∷ (128 + c / 4096 % 64) ∷ (128 + c / 64 % 64) ∷ (128 + c % 64) ∷ []
    ]
  ]
]

unfoldable pub as_bytes : String → List ℕ
unfolding utf8
as_bytes String.[] = []
as_bytes (String.◌∷◌ c s) = utf8 (code c) ++ as_bytes s
