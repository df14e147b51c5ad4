-- ===== src/Auth/Password.antt =====
-- crates/fw-auth/src/password.rs: the strength of a new password, and its hash.
use Prim.Native.Char.{code}
use linux_host_firewall_mana.Prelude.{
  ℕ, String, Bool, false, not, ◌&&◌, List, [], ◌∷◌, ltb, leb, if◌then◌else◌, Result, ok, err,
}
use linux_host_firewall_mana.Prelude.Lists.{any, length}
use linux_host_firewall_mana.Prelude.Text.{as_bytes}
use linux_host_firewall_mana.Crates.{Argon2}

-- The Unicode classes of `char`.
pub record CharClasses : Type 0 where
  pub is_uppercase : ℕ → Bool
  pub is_lowercase : ℕ → Bool
  pub is_alphanumeric : ℕ → Bool

-- `s.chars()`
unfoldable pub chars : String → List ℕ
chars String.[] = []
chars (String.◌∷◌ ch s) = code ch ∷ chars s

abbrev pub is_ascii_digit : ℕ → Bool
is_ascii_digit ch = leb 48 ch && leb ch 57

abbrev pub is_special : CharClasses → ℕ → Bool
is_special u ch = not (u.is_alphanumeric ch) && ltb ch 128

-- `PasswordError::Weak` with its text.
unfoldable pub validate_password_strength : CharClasses → String → Result (Unit {0}) String
unfolding chars as_bytes
validate_password_strength u password =
    if ltb (length (as_bytes password)) 8
    then err "must be at least 8 characters"
    else if not (any u.is_uppercase (chars password))
    then err "must contain an uppercase letter"
    else if not (any u.is_lowercase (chars password))
    then err "must contain a lowercase letter"
    else if not (any is_ascii_digit (chars password))
    then err "must contain a digit"
    else if not (any (is_special u) (chars password))
    then err "must contain a special character"
    else ok tt

-- `verify_password(..).unwrap_or(false)`
abbrev pub verified : Argon2 → String → String → Bool
verified a password hash = elim (a.verify password hash) [ err e ↦ false | ok v ↦ v ]
