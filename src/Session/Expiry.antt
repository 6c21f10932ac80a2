-- ===== src/Session/Expiry.antt =====
-- What the expiry dates of a session in src/pricewatch/session/store.py decide.
use pricewatch.Base.{
  ◌≡◌, refl, ◌↔◌, Bool, true, false, some, List, [], ◌∷◌, arith, map, filter, length, length-filter,
  length-map, text_le, is_empty, ◌==◌, All, Bool-cases, inl, inr, if◌then◌else◌, ◌∙◌, all,
}
use pricewatch.Base.Sort.{length-sort}
use mathlib.Core.Option.{some-injective}
use mathlib.Core.Path.{subst}
use pricewatch.Session.Stored.{
  Floats, IsLinear, Cookie, StoredSession, expiry, persistent_cookies, minimum, earliest,
  earliest_expiry, has_expired, expired_cookie_names, is_probably_stale,
}

filter-all {ℓ} :
    {A : Type ℓ} (p : A → Bool) (xs : List A)
    → ((length (filter p xs) == length xs) ≡ true) ↔ (all p xs ≡ true)
filter-all p [] = (λ h. refl, λ h. refl)
filter-all p (x ∷ xs) = elim (Bool-cases (p x)) [
  | inl e ↦ ground (arith, filter-all p xs)
  | inr e ↦ ground (arith, length-filter p xs)
]

module _ (fl : Floats) where
  open fl use {F, lt, le}

  names-length :
      (moment : F) (s : StoredSession fl)
      → length (expired_cookie_names fl moment s)
        ≡ length (filter (has_expired fl moment) (persistent_cookies fl s))
  unfolding expired_cookie_names
  names-length moment s =
      length-sort text_le
        (map (λ c. c.name) (filter (has_expired fl moment) (persistent_cookies fl s)))
      ∙ length-map (filter (has_expired fl moment) (persistent_cookies fl s)) (λ c. c.name)

  -- A session is probably stale exactly when it has a persistent cookie and every persistent
  -- cookie has expired.
  is_probably_stale_iff :
      (moment : F) (s : StoredSession fl)
      → (is_probably_stale fl moment s ≡ true) ↔ (
          (is_empty (persistent_cookies fl s) ≡ false)
          × (all (has_expired fl moment) (persistent_cookies fl s) ≡ true))
  unfolding is_probably_stale
  is_probably_stale_iff moment s =
      ground
        (arith, names-length moment s, filter-all (has_expired fl moment) (persistent_cookies fl s))

  module _ (linear : IsLinear fl) where
    smaller-le :
        (m x : F)
        → (le (if lt x m then x else m) m ≡ true) × (le (if lt x m then x else m) x ≡ true)
    smaller-le m x = elim (Bool-cases (lt x m)) [
      | inl e ↦ rw e (linear.le_of_lt x m e, linear.le_refl x)
      | inr e ↦ rw e (linear.le_refl m, linear.le_of_not_lt x m e)
    ]

    minimum-le :
        (m : F) (xs : List F)
        → (le (minimum fl m xs) m ≡ true) × All (λ x. le (minimum fl m xs) x ≡ true) xs
    unfolding minimum
    minimum-le m [] = (linear.le_refl m, tt)
    minimum-le m (x ∷ xs) =
        let y = if lt x m then x else m in
        let (first, rest) = minimum-le y xs in
        (
          linear.le_trans _ y m first ((smaller-le m x).0),
          (linear.le_trans _ y x first ((smaller-le m x).1), rest),
        )

    earliest-le : (e : F) (xs : List F) → earliest fl xs ≡ some e → All (λ x. le e x ≡ true) xs
    unfolding earliest
    earliest-le e [] h = tt
    earliest-le e (x ∷ xs) h =
        let same : minimum fl x xs ≡ e = some-injective _ _ h in
        subst (λ m. All (λ y. le m y ≡ true) (x ∷ xs)) same (minimum-le x xs)

    none_expired :
        (moment e : F) (cs : List (Cookie fl))
        → le e moment ≡ false
        → All (λ x. le e x ≡ true) (map (expiry fl) cs)
        → filter (has_expired fl moment) cs ≡ []
    none_expired moment e [] h k = refl
    none_expired moment e (c ∷ cs) h k = elim (Bool-cases (has_expired fl moment c)) [
      | inl x ↦ absurd (cc (linear.le_trans e (expiry fl c) moment k.0 x, h))
      | inr x ↦ rw x (none_expired moment e cs h k.1)
    ]

    -- Before the earliest expiry of a session no cookie of it has expired, and it is not stale.
    earliest_expiry-fresh :
        (moment e : F) (s : StoredSession fl)
        → earliest_expiry fl s ≡ some e
        → le e moment ≡ false
        → (expired_cookie_names fl moment s ≡ []) × (is_probably_stale fl moment s ≡ false)
    unfolding earliest_expiry expired_cookie_names is_probably_stale
    earliest_expiry-fresh moment e s h k =
        let gone : filter (has_expired fl moment) (persistent_cookies fl s) ≡ [] =
          none_expired moment e (persistent_cookies fl s) k
            (earliest-le e (map (expiry fl) (persistent_cookies fl s)) h) in
        (rw gone refl, rw gone (not_stale (persistent_cookies fl s)))
      where
        not_stale :
            (cs : List (Cookie fl)) → (if is_empty cs then false else 0 == length cs) ≡ false
        not_stale [] = refl
        not_stale (c ∷ cs) = ground arith
