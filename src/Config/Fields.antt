-- ===== src/Config/Fields.antt =====
-- The constraints that the fields of src/pricewatch/config.py declare: ranges, the pattern of
-- names, and the https test. pydantic's conversion of a TOML value to a field's type stands
-- outside: a raw table holds values of the declared types, and the keys that no field has.
use pricewatch.Base.{
  ℕ, suc, Bool, true, false, ◌&&◌, ◌||◌, Option, none, some, List, [], ◌∷◌, ◌++◌, Text, codes, leb,
  ◌==◌, length, all, starts_with, map,
}
use pricewatch.Base.Unicode.{is_lower, is_digit}
use pricewatch.Errors.{Part, key, index}
use pricewatch.Base.Int.{ℤ, leb_ℤ}

-- Where a problem lies: `error["loc"]`, of keys and of indices into arrays.
abbrev pub Location : Type 0
Location = List Part

-- The problems of one table, each with its place. A table is valid if there are none.
abbrev pub Problems : Type 0
Problems = List Location

abbrev pub check : Bool → Location → Problems
check true loc = []
check false loc = loc ∷ []

-- `[a-z0-9]`
unfoldable pub is_name_start : ℕ → Bool
is_name_start c = is_lower c || is_digit c

-- `[a-z0-9_-]`
unfoldable pub is_name_part : ℕ → Bool
is_name_part c = is_lower c || is_digit c || (c == b'_') || (c == b'-')

-- `^[a-z0-9][a-z0-9_-]{0,63}$`, in pydantic's syntax, where `$` is the end of the text.
unfoldable pub is_name : Text → Bool
unfolding is_name_start is_name_part
is_name [] = false
is_name (c ∷ s) = is_name_start c && all is_name_part s && leb (length s) 63

-- `Field(ge=lo)`
unfoldable pub at_least : ℤ → ℤ → Bool
at_least lo x = leb_ℤ lo x

-- `Field(ge=lo, le=hi)`
unfoldable pub within : ℤ → ℤ → ℤ → Bool
within lo hi x = leb_ℤ lo x && leb_ℤ x hi

-- `AccountConfig._https_only`
unfoldable pub https_only : Option Text → Bool
unfolding starts_with
https_only none = true
https_only (some url) = starts_with url (codes "https://")

-- `extra="forbid"`: each key that no field has is a problem.
unfoldable pub forbid : List Text → Problems
forbid = map (λ k. key k ∷ [])

-- `default=` and `default_factory=`
abbrev pub or_default {ℓ} : {A : Type ℓ} → Option A → A → A
or_default none d = d
or_default (some x) d = x

-- The problems of a table that stands under a key.
abbrev pub under : Part → Problems → Problems
under part = map (λ loc. part ∷ loc)

-- The problems of the tables of an array, from an index on.
abbrev pub each {ℓ} : {A : Type ℓ} → (A → Problems) → ℕ → List A → Problems
each problems i [] = []
each problems i (x ∷ xs) = under (index i) (problems x) ++ each problems (suc i) xs
