-- ===== src/Redaction/Value.antt =====
-- `redact` of src/pricewatch/redaction.py, on values of nested containers. A value is a finite
-- tree. A set is the sequence in which it is walked; equal elements of the result are not merged,
-- and the `TypeError` of an element that cannot be hashed (a `frozenset` in a set) is not modelled.
use pricewatch.Base.{
  text_eq, some, none, Option, ℕ, zero, suc, ◌+◌, ◌/◌, ◌%◌, Bool, false, [], ◌∷◌, ◌++◌, Text, codes,
  ltb, if◌then◌else◌,
}
use pricewatch.Base.Unicode.{Unicode}
use pricewatch.Base.Int.{ℤ}
use pricewatch.Redaction.Keys.{is_sensitive_key}
use pricewatch.Redaction.Patterns.{redacted, redact_text}

-- A key of a mapping: a `str`, or another hashable object, which is only passed on.
pub data Key : Type 0 where
  str_key : Text → Key
  other_key : ℕ → Key

mutual
  pub data Value : Type 0 where
    null : Value
    bool : Bool → Value
    int : ℤ → Value
    -- a float, by the 64 bits of its pattern
    float : ℕ → Value
    str : Text → Value
    -- `bytes` and `bytearray`, by their lengths
    bytes : ℕ → Value
    mapping : Entries → Value
    -- `set` and `frozenset`
    set : Items → Value
    list : Items → Value
    tuple : Items → Value
    -- any other object, by its `repr`
    object : Text → Value

  pub data Items : Type 0 where
    nil : Items
    cons : Value → Items → Items

  pub data Entries : Type 0 where
    end : Entries
    entry : Key → Value → Entries → Entries

-- `str` of a natural number; the fuel is the number of digits tried.
unfoldable pub decimal_from : ℕ → ℕ → Text → Text
decimal_from zero n acc = acc
decimal_from (suc fuel) n acc =
    let rest = decimal_from fuel (n / 10) ((48 + n % 10) ∷ acc) in
    if ltb n 10 then (48 + n) ∷ acc else rest

unfoldable pub decimal : ℕ → Text
unfolding decimal_from
decimal n = decimal_from (suc n) n []

-- `MAX_DEPTH`
abbrev pub max_depth : ℕ
max_depth = 12

abbrev pub bytes_notice : ℕ → Text
bytes_notice n = codes "[REDACTED " ++ decimal n ++ codes " bytes]"

-- The value of a key in a mapping.
unfoldable pub get_entry : Text → Entries → Option Value
get_entry k end = none
get_entry k (entry (str_key j) v es) = if text_eq j k then some v else get_entry k es
get_entry k (entry (other_key n) v es) = get_entry k es

module _ (u : Unicode) where
  -- The test of a mapping's key.
  unfoldable pub redacts_key : Key → Bool
  redacts_key (str_key k) = is_sensitive_key u k
  redacts_key (other_key k) = false

  -- `redact`. Its depth is an argument, and each value of a mapping whose key is sensitive is
  -- replaced whole.
  unfoldable mutual
    pub redact : ℕ → Value → Value
    redact d null = if ltb max_depth d then str redacted else null
    redact d (bool b) = if ltb max_depth d then str redacted else bool b
    redact d (int n) = if ltb max_depth d then str redacted else int n
    redact d (float x) = if ltb max_depth d then str redacted else float x
    redact d (str t) = if ltb max_depth d then str redacted else str (redact_text u t)
    redact d (bytes n) = if ltb max_depth d then str redacted else str (bytes_notice n)
    redact d (mapping es) =
        if ltb max_depth d then str redacted else mapping (redact_entries (d + 1) es)
    redact d (set xs) = if ltb max_depth d then str redacted else set (redact_items (d + 1) xs)
    redact d (list xs) = if ltb max_depth d then str redacted else list (redact_items (d + 1) xs)
    redact d (tuple xs) = if ltb max_depth d then str redacted else tuple (redact_items (d + 1) xs)
    redact d (object r) = if ltb max_depth d then str redacted else str (redact_text u r)

    pub redact_items : ℕ → Items → Items
    redact_items d nil = nil
    redact_items d (cons x xs) = cons (redact d x) (redact_items d xs)

    pub redact_entries : ℕ → Entries → Entries
    redact_entries d end = end
    redact_entries d (entry k x es) =
        entry k (if redacts_key k then str redacted else redact d x) (redact_entries d es)
