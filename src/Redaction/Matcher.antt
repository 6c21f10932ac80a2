-- ===== src/Redaction/Matcher.antt =====
-- Python's regular expressions as backtracking matchers, and `Pattern.sub`, as
-- src/pricewatch/redaction.py uses them. A matcher is given the code point before the place, the
-- text from there on, and what must match behind it; it tries the greedy choices first.
use pricewatch.Base.{
  ℕ, zero, suc, ◌-◌, ◌≡◌, refl, Bool, true, false, ◌&&◌, not, Option, none, some, List, [], ◌∷◌,
  ◌++◌, Text, arith, ◌==◌, ltb, if◌then◌else◌,
}
use pricewatch.Base.Unicode.{Unicode}

-- What must match behind a place. A success is the list of the texts that were left at the marked
-- places and at the end.
abbrev pub Next : Type 0
Next = Option ℕ → Text → Option (List Text)

-- The end of a pattern.
unfoldable pub stop : Next
stop p s = some (s ∷ [])

abbrev add_mark : Text → Option (List Text) → Option (List Text)
add_mark s none = none
add_mark s (some rests) = some (s ∷ rests)

-- The end of a group.
unfoldable pub mark : Next → Next
mark k p s = add_mark s (k p s)

-- One code point of a class.
unfoldable pub one : (ℕ → Bool) → Next → Next
one cls k p [] = none
one cls k p (c ∷ s) = if cls c then k (some c) s else none

-- Code points in a row, as in a literal.
unfoldable pub each_of : List (ℕ → Bool) → Next → Next
unfolding one
each_of [] k = k
each_of (cls ∷ more) k = one cls (each_of more k)

abbrev room : Option ℕ → Bool
room none = true
room (some hi) = ltb 0 hi

abbrev pub less_of : Option ℕ → Option ℕ
less_of none = none
less_of (some hi) = some (hi - 1)

-- `cls{lo,hi}` or, without an upper bound, `cls{lo,}`: as many as there are, then fewer.
unfoldable pub repeat : (ℕ → Bool) → ℕ → Option ℕ → Next → Next
repeat cls lo hi k p [] = if lo == 0 then k p [] else none
repeat cls lo hi k p (c ∷ s) =
    let more = repeat cls (lo - 1) (less_of hi) k (some c) s in
    let here = k p (c ∷ s) in
    let fewer = if lo == 0 then here else none in
    if cls c && room hi then elim more [ some r ↦ some r | none ↦ fewer ] else fewer

-- `(?:m)?`, which first tries to match.
unfoldable pub optional : (Next → Next) → Next → Next
optional m k p s = let absent = k p s in elim (m k p s) [ some r ↦ some r | none ↦ absent ]

-- `m|n`
unfoldable pub alternative : (Next → Next) → (Next → Next) → Next → Next
alternative m n k p s = let second = n k p s in elim (m k p s) [ some r ↦ some r | none ↦ second ]

module _ (u : Unicode) where
  abbrev word_at : Option ℕ → Bool
  word_at none = false
  word_at (some c) = u.is_word c

  abbrev first : Text → Option ℕ
  first [] = none
  first (c ∷ s) = some c

  abbrev differ : Bool → Bool → Bool
  differ true b = not b
  differ false b = b

  -- `\b`
  unfoldable pub boundary : Next → Next
  boundary k p s = if differ (word_at p) (word_at (first s)) then k p s else none

-- Where a pattern matches: what replaces the match, and the match's length.
abbrev pub Finder : Type 0
Finder = Option ℕ → Text → Option (Text × ℕ)

-- The walk of `Pattern.sub` over a text. After a match its code points are skipped.
unfoldable pub sub_from : Finder → ℕ → Option ℕ → Text → Text
sub_from find skip p [] = []
sub_from find (suc skip) p (c ∷ s) = sub_from find skip (some c) s
sub_from find zero p (c ∷ s) =
    let kept = sub_from find zero (some c) s in
    elim (find p (c ∷ s)) [
      | none ↦ c ∷ kept
      | some (out, n) ↦ out ++ sub_from find (n - 1) (some c) s
    ]

-- `pattern.sub(replacement, text)`
unfoldable pub sub : Finder → Text → Text
unfolding sub_from
sub find text = sub_from find zero none text

-- A text in which a pattern matches nowhere.
abbrev pub Nowhere : Finder → Option ℕ → Text → Type 0
Nowhere find p [] = Unit
Nowhere find p (c ∷ s) = (find p (c ∷ s) ≡ none) × Nowhere find (some c) s

pub sub-Nowhere :
    (find : Finder) (p : Option ℕ) (s : Text) → Nowhere find p s → sub_from find zero p s ≡ s
unfolding sub_from
sub-Nowhere find p [] h = refl
sub-Nowhere find p (c ∷ s) h = ground (arith, sub-Nowhere find (some c) s h.1)
