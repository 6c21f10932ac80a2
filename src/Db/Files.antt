-- ===== src/Db/Files.antt =====
-- The migration files of src/pricewatch/db/__init__.py: `Migration`, `_MIGRATION_FILENAME`,
-- `_load_migrations` and `latest_available_version`. The directory's listing is an argument.
use pricewatch.Base.{
  ℕ, ◌+◌, ◌*◌, Bool, false, ◌&&◌, ◌||◌, Option, none, some, List, [], ◌∷◌, ◌++◌, map, Text, codes,
  text_eq, ends_with, leb, ◌==◌, any, is_empty, not, if◌then◌else◌,
}
use pricewatch.Base.Unicode.{Unicode, is_lower, is_digit}
use pricewatch.Base.Sort.{sort}
use pricewatch.Errors.{Result, ok, err, bad_filename, duplicate_versions, ◌>>=◌}

pub record Migration : Type 0 where
  pub version : ℕ
  pub name : Text
  pub sql : Text

-- An entry of the directory `migrations`: its name and its text.
pub record FileEntry : Type 0 where
  pub name : Text
  pub text : Text

-- `[a-z0-9_]`
unfoldable pub is_name_char : ℕ → Bool
is_name_char c = is_lower c || is_digit c || (c == b'_')

-- The longest run of such characters, and what follows it.
unfoldable pub name_run : Text → Text × Text
unfolding is_name_char
name_run [] = ([], [])
name_run (c ∷ s) =
    let (run, rest) = name_run s in if is_name_char c then (c ∷ run, rest) else ([], c ∷ s)

-- `\.sql$`: in Python `$` matches before a final line feed too.
unfoldable pub sql_suffix : Text → Bool
unfolding text_eq
sql_suffix s = text_eq s (codes ".sql") || text_eq s (codes ".sql" ++ 10 ∷ [])

-- `([a-z0-9_]+)\.sql$`. The run has no dot in it, so a shorter one does not match.
unfoldable pub match_name : Text → Option Text
unfolding name_run sql_suffix
match_name s =
    let (run, rest) = name_run s in if not (is_empty run) && sql_suffix rest then some run else none

abbrev pub version_le : Migration → Migration → Bool
version_le a b = leb a.version b.version

abbrev pub versions : List Migration → List ℕ
versions = map (λ m. m.version)

-- `len(set(xs)) != len(xs)`: some value occurs again.
unfoldable pub has_duplicates : List ℕ → Bool
has_duplicates [] = false
has_duplicates (x ∷ xs) = any (λ y. x == y) xs || has_duplicates xs

-- `available[-1].version if available else 0`
unfoldable pub last_version : List Migration → ℕ
last_version [] = 0
last_version (m ∷ []) = m.version
last_version (m ∷ n ∷ ms) = last_version (n ∷ ms)

-- `int` of three decimal digits.
unfoldable pub number : Option ℕ → Option ℕ → Option ℕ → Option ℕ
number (some a) (some b) (some c) = some (100 * a + 10 * b + c)
number _ _ _ = none

unfoldable pub version_and_name : Option ℕ → Option Text → Option (ℕ × Text)
version_and_name (some v) (some name) = some (v, name)
version_and_name _ _ = none

module _ (u : Unicode) where
  -- `_MIGRATION_FILENAME.match`, with `int` of the first group.
  unfoldable pub match_filename : Text → Option (ℕ × Text)
  unfolding match_name number version_and_name
  match_filename (a ∷ b ∷ c ∷ d ∷ s) =
      if d == b'_'
      then version_and_name (number (u.decimal a) (u.decimal b) (u.decimal c)) (match_name s)
      else none
  match_filename _ = none

  -- The loop over `root.iterdir()`.
  unfoldable pub scan : List FileEntry → Result (List Migration)
  unfolding match_filename ends_with
  scan [] = ok []
  scan (f ∷ fs) =
      let rest = scan fs in
      if not (ends_with f.name (codes ".sql")) then rest else elim (match_filename f.name) [
        | none ↦ err (bad_filename f.name)
        | some (v, n) ↦ rest >>= λ ms. ok (record { version = v; name = n; sql = f.text } ∷ ms)
      ]

  unfoldable pub load_migrations : List FileEntry → Result (List Migration)
  load_migrations fs = scan fs >>= λ found.
      let available = sort version_le found in
      if has_duplicates (versions available)
      then err (duplicate_versions (versions available))
      else ok available

  unfoldable pub latest_available_version : List FileEntry → Result ℕ
  latest_available_version fs = load_migrations fs >>= λ available. ok (last_version available)
