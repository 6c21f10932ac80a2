-- ===== src/Base/Unicode.antt =====
-- The facts of Python's Unicode tables that `str.lower`, `\w`, `\d` and `\s` use. The tables are
-- a parameter; `IsAscii` states what they say of the ASCII code points.
use pricewatch.Base.{ℕ, ◌+◌, ◌-◌, ◌<◌, ◌≡◌, Bool, ◌&&◌, ◌||◌, Option, none, some}
use pricewatch.Base.{All, map, Text, leb, ◌==◌, if◌then◌else◌}

abbrev pub in_range : ℕ → ℕ → ℕ → Bool
in_range lo hi c = leb lo c && leb c hi

abbrev pub is_upper : ℕ → Bool
is_upper = in_range b'A' b'Z'

abbrev pub is_lower : ℕ → Bool
is_lower = in_range b'a' b'z'

abbrev pub is_digit : ℕ → Bool
is_digit = in_range b'0' b'9'

-- `[A-Za-z0-9]`
abbrev pub is_alnum : ℕ → Bool
is_alnum c = is_upper c || is_lower c || is_digit c

-- The lower-case form of an ASCII code point.
abbrev pub lower_code : ℕ → ℕ
lower_code c = if is_upper c then c + 32 else c

pub record Unicode : Type 0 where
  -- `str.lower`
  pub lower : Text → Text
  -- `\w`: alphanumeric or the underscore
  pub is_word : ℕ → Bool
  -- `\s`
  pub is_space : ℕ → Bool
  -- the value of a decimal digit: `\d` matches where there is one, and `int` reads it
  pub decimal : ℕ → Option ℕ

-- Below 128 the tables are those of ASCII.
pub record IsAscii (u : Unicode) : Type 0 where
  pub lower_ascii : (s : Text) → All (λ c. c < 128) s → u.lower s ≡ map lower_code s
  pub word_ascii : (c : ℕ) → c < 128 → u.is_word c ≡ is_alnum c || (c == b'_')
  pub space_ascii : (c : ℕ) → c < 128 → u.is_space c ≡ in_range 9 13 c || in_range 28 32 c
  pub decimal_ascii : (c : ℕ) → c < 128 → u.decimal c ≡ (if is_digit c then some (c - 48) else none)

-- The tables of ASCII alone, for tests.
abbrev pub ascii : Unicode
ascii = record {
  lower = map lower_code;
  is_word = λ c. is_alnum c || (c == b'_');
  is_space = λ c. in_range 9 13 c || in_range 28 32 c;
  decimal = λ c. if is_digit c then some (c - 48) else none;
}
