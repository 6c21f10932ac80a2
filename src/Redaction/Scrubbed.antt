-- ===== src/Redaction/Scrubbed.antt =====
-- What `redact` of src/pricewatch/redaction.py guarantees of its result.
use pricewatch.Base.{
  ℕ, ◌+◌, ◌≡◌, refl, ◌⊎◌, inl, inr, Bool, true, false, List, [], ◌∷◌, Text, ltb, if◌then◌else◌,
}
use pricewatch.Base.Int.{ℤ}
use pricewatch.Base.Unicode.{Unicode}
use pricewatch.Redaction.Patterns.{
  redacted, redact_text, jwt, bearer, kv, hex, b64, email, postcode,
}
use pricewatch.Redaction.Matcher.{sub}
use pricewatch.Redaction.Value.{
  Key, Value, Items, Entries, null, bool, int, float, str, bytes, mapping, set, list, tuple, object,
  nil, cons, end, entry, max_depth, bytes_notice, redacts_key, redact, redact_items, redact_entries,
}

-- The keys of a mapping, in order.
abbrev pub keys : Entries → List Key
keys end = []
keys (entry k x es) = k ∷ keys es

module _ (u : Unicode) where
  -- What the seven patterns make of a text, each substituted in what the one before it leaves.
  abbrev pub Substituted : Text → Text → Type 0
  Substituted s t =
      t
      ≡ sub (postcode u)
          (sub (email u) (sub (b64 u) (sub (hex u) (sub (kv u) (sub (bearer u) (sub (jwt u) s))))))

  -- A text that may stand in a result.
  abbrev pub IsScrubbedText : Text → Type 0
  IsScrubbedText t =
      (t ≡ redacted) ⊎ (((s : Text) × Substituted s t) ⊎ ((n : ℕ) × (t ≡ bytes_notice n)))

  -- A value with no bytes and no object in it, in which each text is scrubbed and each value of a
  -- sensitive key is `REDACTED`. Nothing is asked of the keys, which the code leaves as they are.
  mutual
    pub data IsScrubbed : Value → Type 0 where
      null_ok : IsScrubbed null
      bool_ok : (b : Bool) → IsScrubbed (bool b)
      int_ok : (n : ℤ) → IsScrubbed (int n)
      float_ok : (x : ℕ) → IsScrubbed (float x)
      str_ok : (t : Text) → IsScrubbedText t → IsScrubbed (str t)
      mapping_ok : (es : Entries) → AreScrubbedEntries es → IsScrubbed (mapping es)
      set_ok : (xs : Items) → AreScrubbed xs → IsScrubbed (set xs)
      list_ok : (xs : Items) → AreScrubbed xs → IsScrubbed (list xs)
      tuple_ok : (xs : Items) → AreScrubbed xs → IsScrubbed (tuple xs)

    pub data AreScrubbed : Items → Type 0 where
      nil_ok : AreScrubbed nil
      cons_ok : (x : Value) (xs : Items) → IsScrubbed x → AreScrubbed xs → AreScrubbed (cons x xs)

    pub data AreScrubbedEntries : Entries → Type 0 where
      end_ok : AreScrubbedEntries end
      entry_ok :
          (k : Key) (x : Value) (es : Entries)
          → (redacts_key u k ≡ true → x ≡ str redacted)
          → IsScrubbed x
          → AreScrubbedEntries es
          → AreScrubbedEntries (entry k x es)

  redact_text-Substituted : (s : Text) → Substituted s (redact_text u s)
  unfolding redact_text
  redact_text-Substituted s = refl

  redacted_ok : IsScrubbed (str redacted)
  redacted_ok = str_ok redacted (inl refl)

  choose : (b : Bool) (x y : Value) → IsScrubbed x → IsScrubbed y → IsScrubbed (if b then x else y)
  choose true x y h k = h
  choose false x y h k = k

  replaced : (b : Bool) (x : Value) → b ≡ true → (if b then str redacted else x) ≡ str redacted
  replaced true x h = refl
  replaced false x h = absurd (cc h)

  mutual
    unfolding redact

    redact-ok : (d : ℕ) (v : Value) → IsScrubbed (redact u d v)
    redact-ok d null = choose (ltb max_depth d) _ _ redacted_ok null_ok
    redact-ok d (bool b) = choose (ltb max_depth d) _ _ redacted_ok (bool_ok b)
    redact-ok d (int n) = choose (ltb max_depth d) _ _ redacted_ok (int_ok n)
    redact-ok d (float x) = choose (ltb max_depth d) _ _ redacted_ok (float_ok x)
    redact-ok d (str t) =
        choose (ltb max_depth d) _ _ redacted_ok
          (str_ok (redact_text u t) (inr (inl (t, redact_text-Substituted t))))
    redact-ok d (bytes n) =
        choose (ltb max_depth d) _ _ redacted_ok (str_ok (bytes_notice n) (inr (inr (n, refl))))
    redact-ok d (mapping es) =
        choose (ltb max_depth d) _ _ redacted_ok (mapping_ok _ (redact_entries-ok (d + 1) es))
    redact-ok d (set xs) =
        choose (ltb max_depth d) _ _ redacted_ok (set_ok _ (redact_items-ok (d + 1) xs))
    redact-ok d (list xs) =
        choose (ltb max_depth d) _ _ redacted_ok (list_ok _ (redact_items-ok (d + 1) xs))
    redact-ok d (tuple xs) =
        choose (ltb max_depth d) _ _ redacted_ok (tuple_ok _ (redact_items-ok (d + 1) xs))
    redact-ok d (object r) =
        choose (ltb max_depth d) _ _ redacted_ok
          (str_ok (redact_text u r) (inr (inl (r, redact_text-Substituted r))))

    redact_items-ok : (d : ℕ) (xs : Items) → AreScrubbed (redact_items u d xs)
    redact_items-ok d nil = nil_ok
    redact_items-ok d (cons x xs) = cons_ok _ _ (redact-ok d x) (redact_items-ok d xs)

    redact_entries-ok : (d : ℕ) (es : Entries) → AreScrubbedEntries (redact_entries u d es)
    redact_entries-ok d end = end_ok
    redact_entries-ok d (entry k x es) =
        entry_ok k _ _ (replaced (redacts_key u k) (redact u d x))
          (choose (redacts_key u k) _ _ redacted_ok (redact-ok d x)) (redact_entries-ok d es)

  -- Whatever value is redacted: the keys of its mappings aside, of which nothing is said, the result
  -- holds no bytes and no object, each text in it is what the seven patterns, substituted one after
  -- another, make of some text, or the mark `[REDACTED]`, or a notice of a number of bytes, and each
  -- value under a sensitive key is the mark.
  pub redact-IsScrubbed : (d : ℕ) (v : Value) → IsScrubbed (redact u d v)
  redact-IsScrubbed d v = redact-ok d v
