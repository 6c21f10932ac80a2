-- ===== src/Redaction/Patterns.antt =====
-- The value-based rule of src/pricewatch/redaction.py: `_TEXT_PATTERNS` and `redact_text`.
use pricewatch.Base.{
  ℕ, ◌-◌, Bool, ◌&&◌, ◌||◌, Option, none, some, List, [], ◌∷◌, ◌++◌, Text, codes, map, any, ◌==◌,
  length, take, is_some, if◌then◌else◌, String,
}
use pricewatch.Base.Unicode.{Unicode, is_upper, is_lower, is_digit, is_alnum, in_range}
use pricewatch.Redaction.Matcher.{
  stop, mark, one, each_of, repeat, optional, alternative, boundary, Finder, sub,
}

-- `REDACTED`
abbrev pub redacted : Text
redacted = codes "[REDACTED]"

-- `[A-Za-z]`
abbrev pub is_letter : ℕ → Bool
is_letter c = is_upper c || is_lower c

-- `[A-Z]` or `[a-z]` under `(?i)`, where Python also takes the letters U+0130, U+0131, U+017F and
-- U+212A, which fold to ASCII letters.
abbrev pub is_letter_i : ℕ → Bool
is_letter_i c = is_letter c || (c == 0x130) || (c == 0x131) || (c == 0x17f) || (c == 0x212a)

abbrev pub upper_of : ℕ → ℕ
upper_of c = if is_lower c then c - 32 else c

-- A lower-case literal letter under `(?i)`: `k` matches U+212A too, `s` U+017F and `i` U+0130 and
-- U+0131.
abbrev pub is_code_i : ℕ → ℕ → Bool
is_code_i d c =
    (c == d)
    || (c == upper_of d)
    || ((d == b'k') && (c == 0x212a))
    || ((d == b's') && (c == 0x17f))
    || ((d == b'i') && ((c == 0x130) || (c == 0x131)))

abbrev literal : String → List (ℕ → Bool)
literal t = map (λ d c. c == d) (codes t)

abbrev literal_i : String → List (ℕ → Bool)
literal_i t = map is_code_i (codes t)

-- A code point of a text.
abbrev one_of : String → ℕ → Bool
one_of t c = any (λ d. c == d) (codes t)

-- A match, replaced by `REDACTED`.
abbrev pub whole : Text → Option (List Text) → Option (Text × ℕ)
whole s (some (rest ∷ [])) = some (redacted, length s - length rest)
whole s _ = none

-- `_replace_kv`: the first group, and `=` and `REDACTED`.
unfoldable pub replace_kv : Text → Option (List Text) → Option (Text × ℕ)
replace_kv s (some (behind_key ∷ rest ∷ [])) =
    some (take (length s - length behind_key) s ++ codes "=" ++ redacted, length s - length rest)
replace_kv s _ = none

-- `[A-Za-z0-9_-]`
abbrev is_url64 : ℕ → Bool
is_url64 c = is_alnum c || one_of "_-" c

module _ (u : Unicode) where
  unfoldable pub jwt : Finder
  jwt p s = whole s (
      boundary u
        (each_of (literal "eyJ") (
          repeat is_url64 6 none (
            one (λ c. c == b'.')
              (repeat is_url64 4 none
                (optional (λ k. one (λ c. c == b'.') (repeat is_url64 0 none k)) stop)))))
        p s)

  unfoldable pub bearer : Finder
  bearer p s = whole s (
      boundary u
        (alternative (each_of (literal_i "bearer"))
          (alternative (each_of (literal_i "basic")) (each_of (literal_i "token")))
          (repeat u.is_space 1 none
            (repeat (λ c. is_letter_i c || is_digit c || one_of "._~+/=-" c) 8 none stop)))
        p s)

  unfoldable pub kv : Finder
  kv p s = replace_kv s (
      boundary u
        (repeat is_url64 2 none (
          mark (
            one (λ c. c == b'=')
              (repeat (λ c. is_alnum c || one_of "%._~+/-" c) 16 none
                (repeat (λ c. c == b'=') 0 none stop)))))
        p s)

  unfoldable pub hex : Finder
  hex p s = whole s (
      boundary u
        (repeat (λ c. is_digit c || in_range b'a' b'f' c || in_range b'A' b'F' c) 32 none
          (boundary u stop))
        p s)

  unfoldable pub b64 : Finder
  b64 p s = whole s (
      boundary u
        (repeat (λ c. is_alnum c || one_of "+/" c) 40 none
          (repeat (λ c. c == b'=') 0 (some 2) (boundary u stop)))
        p s)

  unfoldable pub email : Finder
  email p s = whole s (
      boundary u
        (repeat (λ c. is_alnum c || one_of "._%+-" c) 1 none
          (one (λ c. c == b'@')
            (repeat (λ c. is_alnum c || one_of ".-" c) 1 none
              (one (λ c. c == b'.') (repeat is_letter 2 none (boundary u stop))))))
        p s)

  -- `\d`
  abbrev is_decimal : ℕ → Bool
  is_decimal c = is_some (u.decimal c)

  unfoldable pub postcode : Finder
  postcode p s = whole s (
      boundary u
        (repeat is_letter_i 1 (some 2) (
          one is_decimal (
            repeat (λ c. is_letter_i c || is_decimal c) 0 (some 1)
              (repeat u.is_space 0 (some 1)
                (one is_decimal (repeat is_letter_i 2 (some 2) (boundary u stop)))))))
        p s)

  -- `redact_text`: the patterns of `_TEXT_PATTERNS`, in their order.
  unfoldable pub redact_text : Text → Text
  redact_text text =
      sub postcode (sub email (sub b64 (sub hex (sub kv (sub bearer (sub jwt text))))))
