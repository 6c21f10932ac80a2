-- ===== src/Session/Stored.antt =====
-- `StoredSession` of src/pricewatch/session/store.py. A cookie has the two members that the code
-- reads, and Python's floats are a parameter: their order, zero and the default `-1`.
use pricewatch.Base.{
  ◌≡◌, Bool, true, false, Option, none, some, List, [], ◌∷◌, ◌++◌, Text, map, filter, length,
  text_le, is_empty, ◌==◌, if◌then◌else◌,
}
use pricewatch.Base.Sort.{sort}

-- The floats that the code compares.
pub record Floats : Type 1 where
  pub F : Type 0
  pub zero_float : F
  -- `SESSION_COOKIE_EXPIRY`, as a float
  pub session_cookie_expiry : F
  pub lt : F → F → Bool
  pub le : F → F → Bool

-- The order of the floats that are no NaN.
pub record IsLinear (fl : Floats) : Type 0 where
  pub le_of_lt : (a b : fl.F) → fl.lt a b ≡ true → fl.le a b ≡ true
  pub le_of_not_lt : (a b : fl.F) → fl.lt a b ≡ false → fl.le b a ≡ true
  pub le_refl : (a : fl.F) → fl.le a a ≡ true
  pub le_trans : (a b c : fl.F) → fl.le a b ≡ true → fl.le b c ≡ true → fl.le a c ≡ true

module _ (fl : Floats) where
  open fl use {F, zero_float, session_cookie_expiry, lt, le}

  -- `c.get("name", "")` and `c.get("expires")`
  pub record Cookie : Type 0 where
    pub name : Text
    pub expires : Option F

  pub record Origin : Type 0 where
    pub origin : Text
    -- the names of its localStorage entries
    pub local_storage : List Text

  pub record StoredSession : Type 0 where
    pub account : Text
    pub captured_at : Text
    pub cookies : List Cookie
    pub origins : List Origin

  abbrev pub expiry : Cookie → F
  expiry c = elim c.expires [ none ↦ session_cookie_expiry | some e ↦ e ]

  unfoldable pub cookie_names : StoredSession → List Text
  unfolding sort
  cookie_names s = sort text_le (map (λ c. c.name) s.cookies)

  unfoldable pub origin_urls : StoredSession → List Text
  unfolding sort
  origin_urls s = sort text_le (map (λ o. o.origin) s.origins)

  -- The loop over `self.origins`.
  unfoldable pub all_local_storage : List Origin → List Text
  all_local_storage [] = []
  all_local_storage (o ∷ os) = o.local_storage ++ all_local_storage os

  unfoldable pub local_storage_keys : StoredSession → List Text
  unfolding sort all_local_storage
  local_storage_keys s = sort text_le (all_local_storage s.origins)

  -- `float(c.get("expires", SESSION_COOKIE_EXPIRY)) > 0`
  unfoldable pub is_persistent : Cookie → Bool
  is_persistent c = lt zero_float (expiry c)

  unfoldable pub persistent_cookies : StoredSession → List Cookie
  persistent_cookies s = filter is_persistent s.cookies

  -- `min` of a list that is not empty: the first of the smallest.
  unfoldable pub minimum : F → List F → F
  minimum m [] = m
  minimum m (x ∷ xs) = minimum (if lt x m then x else m) xs

  unfoldable pub earliest : List F → Option F
  unfolding minimum
  earliest [] = none
  earliest (x ∷ xs) = some (minimum x xs)

  -- `earliest_expiry`, as the number that `fromtimestamp` is given.
  unfoldable pub earliest_expiry : StoredSession → Option F
  unfolding earliest
  earliest_expiry s = earliest (map expiry (persistent_cookies s))

  abbrev pub has_expired : F → Cookie → Bool
  has_expired moment c = le (expiry c) moment

  unfoldable pub expired_cookie_names : F → StoredSession → List Text
  unfolding sort
  expired_cookie_names moment s =
      sort text_le (map (λ c. c.name) (filter (has_expired moment) (persistent_cookies s)))

  unfoldable pub is_probably_stale : F → StoredSession → Bool
  is_probably_stale moment s =
      if is_empty (persistent_cookies s)
      then false
      else length (expired_cookie_names moment s) == length (persistent_cookies s)
