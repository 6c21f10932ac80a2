-- ===== src/Redaction/Shape.antt =====
-- What `redact` of src/pricewatch/redaction.py keeps of a value's structure, and how deep its result
-- may be.
use Prim.Native.Nat.{max}
use pricewatch.Base.{
  ℕ, suc, ◌+◌, ◌-◌, ◌≤◌, ◌≡◌, refl, false, List, ◌∷◌, arith, ltb, ap, Bool-cases, inl, inr, not_ltb,
  if◌then◌else◌,
}
use pricewatch.Base.Unicode.{Unicode}
use pricewatch.Redaction.Patterns.{redacted}
use pricewatch.Redaction.Value.{
  Key, Value, Items, Entries, null, bool, int, float, str, bytes, mapping, set, list, tuple, object,
  nil, cons, end, entry, max_depth, redact, redact_items, redact_entries,
}
use pricewatch.Redaction.Scrubbed.{keys}

-- How many containers stand inside one another.
unfoldable mutual
  pub nesting : Value → ℕ
  nesting (mapping es) = suc (nesting_entries es)
  nesting (set xs) = suc (nesting_items xs)
  nesting (list xs) = suc (nesting_items xs)
  nesting (tuple xs) = suc (nesting_items xs)
  nesting _ = 0

  pub nesting_items : Items → ℕ
  nesting_items nil = 0
  nesting_items (cons x xs) = max (nesting x) (nesting_items xs)

  pub nesting_entries : Entries → ℕ
  nesting_entries end = 0
  nesting_entries (entry k x es) = max (nesting x) (nesting_entries es)

-- The number of elements.
abbrev pub count : Items → ℕ
count nil = 0
count (cons x xs) = suc (count xs)

at_depth :
    (d : ℕ) (v : Value)
    → (ltb max_depth d ≡ false → nesting v ≤ suc max_depth - d)
    → nesting (if ltb max_depth d then str redacted else v) ≤ suc max_depth - d
unfolding nesting
at_depth d v h = elim (Bool-cases (ltb max_depth d)) [
  | inl e ↦ rw e (omega arith)
  | inr e ↦ rw e (h e)
]

one_deeper :
    (d n : ℕ) → n ≤ suc max_depth - (d + 1) → ltb max_depth d ≡ false → suc n ≤ suc max_depth - d
one_deeper d n h e = omega (arith, not_ltb max_depth d e)

module _ (u : Unicode) where
  mutual
    unfolding redact nesting

    nesting-bound : (d : ℕ) (v : Value) → nesting (redact u d v) ≤ suc max_depth - d
    nesting-bound d null = at_depth d null (λ _. omega arith)
    nesting-bound d (bool b) = at_depth d (bool b) (λ _. omega arith)
    nesting-bound d (int n) = at_depth d (int n) (λ _. omega arith)
    nesting-bound d (float x) = at_depth d (float x) (λ _. omega arith)
    nesting-bound d (str t) = at_depth d (str _) (λ _. omega arith)
    nesting-bound d (bytes n) = at_depth d (str _) (λ _. omega arith)
    nesting-bound d (mapping es) =
        at_depth d (mapping _) (one_deeper d _ (nesting_entries-bound (d + 1) es))
    nesting-bound d (set xs) = at_depth d (set _) (one_deeper d _ (nesting_items-bound (d + 1) xs))
    nesting-bound d (list xs) =
        at_depth d (list _) (one_deeper d _ (nesting_items-bound (d + 1) xs))
    nesting-bound d (tuple xs) =
        at_depth d (tuple _) (one_deeper d _ (nesting_items-bound (d + 1) xs))
    nesting-bound d (object r) = at_depth d (str _) (λ _. omega arith)

    nesting_items-bound :
        (d : ℕ) (xs : Items) → nesting_items (redact_items u d xs) ≤ suc max_depth - d
    nesting_items-bound d nil = omega arith
    nesting_items-bound d (cons x xs) = omega (arith, nesting-bound d x, nesting_items-bound d xs)

    nesting_entries-bound :
        (d : ℕ) (es : Entries) → nesting_entries (redact_entries u d es) ≤ suc max_depth - d
    nesting_entries-bound d end = omega arith
    nesting_entries-bound d (entry k x es) =
        ground (arith, nesting-bound d x, nesting_entries-bound d es)

  -- However deep a value is, its redaction nests at most 13 containers.
  pub redact-nesting : (v : Value) → nesting (redact u 0 v) ≤ 13
  redact-nesting v = nesting-bound 0 v

  keys-redact_entries : (d : ℕ) (es : Entries) → keys (redact_entries u d es) ≡ keys es
  unfolding redact
  keys-redact_entries d end = refl
  keys-redact_entries d (entry k x es) = ap (λ (l : List Key). k ∷ l) (keys-redact_entries d es)

  count-redact_items : (d : ℕ) (xs : Items) → count (redact_items u d xs) ≡ count xs
  unfolding redact
  count-redact_items d nil = refl
  count-redact_items d (cons x xs) = ap suc (count-redact_items d xs)

  -- Down to the greatest depth, a mapping stays a mapping with the same keys in the same order, and
  -- a list and a tuple stay a list and a tuple with as many elements.
  pub redact_containers :
      (d : ℕ) (es : Entries) (xs : Items)
      → d ≤ max_depth
      → ((es' : Entries) × (redact u d (mapping es) ≡ mapping es') × (keys es' ≡ keys es))
        × ((xs' : Items) × (redact u d (list xs) ≡ list xs')
            × (redact u d (tuple xs) ≡ tuple xs')
            × (count xs' ≡ count xs))
  unfolding redact
  redact_containers d es xs h = (
    (redact_entries u (d + 1) es, ground arith, keys-redact_entries (d + 1) es),
    (redact_items u (d + 1) xs, ground arith, ground arith, count-redact_items (d + 1) xs),
  )
