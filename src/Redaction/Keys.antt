-- ===== src/Redaction/Keys.antt =====
-- The key-based rule of src/pricewatch/redaction.py: `_normalise_key` and `is_sensitive_key`.
use pricewatch.Base.{
  ℕ, ◌≡◌, Bool, true, false, ◌||◌, not, List, [], ◌∷◌, ◌++◌, Text, codes, arith, any, mem, contains,
  filter, map, ◌==◌, if◌then◌else◌, ap,
}
use pricewatch.Base.Unicode.{Unicode}

-- `_SENSITIVE_KEY_PARTS`
unfoldable pub sensitive_key_parts : List Text
sensitive_key_parts = map codes (
    "auth" ∷ "apikey" ∷ "bearer" ∷ "cookie" ∷ "credential" ∷ "csrf" ∷ "jsessionid" ∷ "jwt" ∷ "nonce"
    ∷ "password" ∷ "passwd" ∷ "privatekey" ∷ "pwd" ∷ "refreshtoken" ∷ "secret" ∷ "session"
    ∷ "sessionid" ∷ "setcookie" ∷ "signature" ∷ "token" ∷ "xsrf" ∷ [])

-- `_KEY_ALLOWLIST`
unfoldable pub key_allowlist : List Text
key_allowlist = map codes (
    "authenticated" ∷ "cookiecount" ∷ "cookienames" ∷ "cookiepolicy" ∷ "hastoken"
    ∷ "localstoragekeys" ∷ "sessioncapturedat" ∷ "sessionexpiresat" ∷ "sessionsource"
    ∷ "sessionstate" ∷ "sessionstatus" ∷ "tokenenv" ∷ "tokenexpiresat" ∷ "tokennames" ∷ [])

-- The test of `is_sensitive_key` on a normalised key.
unfoldable pub is_sensitive_probe : Text → Bool
unfolding contains mem sensitive_key_parts key_allowlist
is_sensitive_probe probe =
    if mem probe key_allowlist then false else any (λ part. contains probe part) sensitive_key_parts

module _ (u : Unicode) where
  -- `[-_\s.]`
  abbrev pub is_separator : ℕ → Bool
  is_separator c = (c == b'-') || (c == b'_') || u.is_space c || (c == b'.')

  -- `_KEY_SEPARATORS.sub("", key).lower()`: every run of separators goes.
  unfoldable pub normalise_key : Text → Text
  normalise_key key = u.lower (filter (λ c. not (is_separator c)) key)

  unfoldable pub is_sensitive_key : Text → Bool
  unfolding normalise_key is_sensitive_probe
  is_sensitive_key key = is_sensitive_probe (normalise_key key)

  filter-separator :
      (a b : Text) (c : ℕ)
      → is_separator c ≡ true
      → filter (λ c. not (is_separator c)) (a ++ c ∷ b)
        ≡ filter (λ c. not (is_separator c)) (a ++ b)
  filter-separator [] b c h = ground arith
  filter-separator (d ∷ a) b c h = ground (arith, filter-separator a b c h)

  -- A separator anywhere in a key changes nothing: "api_key", "api-key" and "apikey" are one.
  is_sensitive_key-separator :
      (a b : Text) (c : ℕ)
      → is_separator c ≡ true
      → is_sensitive_key (a ++ c ∷ b) ≡ is_sensitive_key (a ++ b)
  unfolding is_sensitive_key
  is_sensitive_key-separator a b c h =
      ap (λ k. is_sensitive_probe (u.lower k)) (filter-separator a b c h)
