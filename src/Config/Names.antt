-- ===== src/Config/Names.antt =====
-- Names of accounts and notifiers in src/pricewatch/config.py: what the pattern and the test for
-- duplicates give, and `Config.account`.
use pricewatch.Base.{
  ℕ, ◌≡◌, refl, ◌≢◌, ◌≤◌, Bool, true, false, Option, none, some, List, [], ◌∷◌, Text, arith, All,
  All-map, Bool-cases, inl, inr, text_eq, text_eq_iff, text_eq_refl, text_le, length, is_empty,
  filter, map, ltb, all, sym, ◌∙◌, subst,
}
use mathlib.Core.Option.{some-injective}
use pricewatch.Base.Sort.{is_empty-sort}
use pricewatch.Errors.{Result, ok, err, no_such_account}
use pricewatch.Config.Fields.{is_name, is_name_part}
use pricewatch.Config.Model.{AccountConfig, Config, find_account, account}
use pricewatch.Config.Load.{count, distinct, duplicates}

-- No text stands twice.
abbrev pub Nodup : List Text → Type 0
Nodup [] = Unit
Nodup (t ∷ ts) = All (λ s. s ≢ t) ts × Nodup ts

is_empty-distinct : (ts : List Text) → is_empty (distinct ts) ≡ is_empty ts
unfolding distinct
is_empty-distinct [] = refl
is_empty-distinct (t ∷ ts) = refl

All-empty_filter :
    (p : Text → Bool) (ts : List Text) → is_empty (filter p ts) ≡ true → All (λ t. p t ≡ false) ts
All-empty_filter p [] h = tt
All-empty_filter p (t ∷ ts) h = elim (Bool-cases (p t)) [
  | inl e ↦ absurd (ground arith)
  | inr e ↦ (e, All-empty_filter p ts (rw e at h))
]

-- A text that is counted zero times stands nowhere.
count-zero : (t : Text) (ts : List Text) → count t ts ≤ 0 → All (λ s. s ≢ t) ts
unfolding count
count-zero t [] h = tt
count-zero t (s ∷ ts) h =
    (λ e. ground (arith, text_eq_iff s t), count-zero t ts (ground (arith, text_eq_iff s t)))

Nodup-of_counts : (ts : List Text) → All (λ t. count t ts ≤ 1) ts → Nodup ts
unfolding count
Nodup-of_counts [] h = tt
Nodup-of_counts (t ∷ ts) h = (
  count-zero t ts (ground (arith, h.0, text_eq_refl t)),
  Nodup-of_counts ts (All-map (λ s k. ground arith) ts h.1),
)

-- `_unique_names` lets pass only names that are pairwise different.
pub duplicates-Nodup : (ts : List Text) → is_empty (duplicates ts) ≡ true → Nodup ts
unfolding duplicates
duplicates-Nodup ts h =
    let p : Text → Bool = λ n. ltb 1 (count n ts) in
    let e : is_empty (filter p ts) ≡ true =
      sym (is_empty-distinct (filter p ts))
      ∙ sym (is_empty-sort text_le (distinct (filter p ts)))
      ∙ h in
    Nodup-of_counts ts (All-map (λ t k. ground arith) ts (All-empty_filter p ts e))

-- What a name is good for as a file name: it is not empty, has at most 64 characters, and none of
-- them is a slash or a dot.
abbrev pub IsSafe : Text → Type 0
IsSafe s = (s ≢ []) × (length s ≤ 64) × All (λ c. (c ≢ b'/') × (c ≢ b'.')) s

name_part_safe : (c : ℕ) → is_name_part c ≡ true → (c ≢ b'/') × (c ≢ b'.')
unfolding is_name_part
name_part_safe c h = (ground arith, ground arith)

all-All : (s : Text) → all is_name_part s ≡ true → All (λ c. (c ≢ b'/') × (c ≢ b'.')) s
all-All [] h = tt
all-All (c ∷ s) h = (name_part_safe c (ground arith), all-All s (ground arith))

-- A name that the pattern admits is safe as the name of a file or a directory.
pub is_name-IsSafe : (s : Text) → is_name s ≡ true → IsSafe s
unfolding is_name
is_name-IsSafe [] h = absurd (cc h)
is_name-IsSafe (c ∷ s) h = (
  λ e. cc e,
  ground arith,
  (name_part_safe c (unfold is_name_part in ground arith), all-All s (ground arith)),
)

-- An account of the list.
pub data HasAccount (a : AccountConfig) : List AccountConfig → Type 0 where
  here : {rest : List AccountConfig} → HasAccount a (a ∷ rest)
  later :
      {b : AccountConfig} {rest : List AccountConfig} → HasAccount a rest → HasAccount a (b ∷ rest)

abbrev pub names : List AccountConfig → List Text
names = map (λ a. a.name)

All-HasAccount :
    (P : Text → Type 0) (a : AccountConfig) {rest : List AccountConfig}
    → HasAccount a rest
    → All P (names rest)
    → P a.name
All-HasAccount P a here h = h.0
All-HasAccount P a (later w) h = All-HasAccount P a w h.1

pub find_account-HasAccount :
    (a : AccountConfig) {rest : List AccountConfig}
    → HasAccount a rest
    → Nodup (names rest)
    → find_account a.name rest ≡ some a
unfolding find_account
find_account-HasAccount a here h = rw (text_eq_refl a.name)
find_account-HasAccount a (later {b = b} w) h = ground (
  arith,
  find_account-HasAccount a w h.1,
  All-HasAccount (λ s. s ≢ b.name) a w h.0,
  text_eq_iff b.name a.name,
)

-- Where no name stands twice, each account is found by its own name.
pub All-find_account :
    (accounts : List AccountConfig)
    → Nodup (names accounts)
    → All (λ a. find_account a.name accounts ≡ some a) accounts
unfolding find_account
All-find_account [] h = tt
All-find_account (a ∷ rest) h =
    (rw (text_eq_refl a.name), All-behind rest (All-find_account rest h.1) h.0)
  where
    All-behind :
        (bs : List AccountConfig)
        → All (λ b. find_account b.name rest ≡ some b) bs
        → All (λ s. s ≢ a.name) (names bs)
        → All (λ b. find_account b.name (a ∷ rest) ≡ some b) bs
    All-behind [] f h = tt
    All-behind (b ∷ bs) f h =
        (ground (arith, f.0, h.0, text_eq_iff a.name b.name), All-behind bs f.1 h.1)

find_account-some :
    (n : Text) (a : AccountConfig) (rest : List AccountConfig)
    → find_account n rest ≡ some a
    → (a.name ≡ n) × HasAccount a rest
unfolding find_account
find_account-some n a [] h = absurd (cc h)
find_account-some n a (b ∷ rest) h = elim (Bool-cases (text_eq b.name n)) [
  | inl e ↦
      let q : some b ≡ some a = rw e at h in
      (
        ground (arith, text_eq_iff b.name n),
        subst (λ x. HasAccount x (b ∷ rest)) (some-injective b a q) here,
      )
  | inr e ↦ let (same, has) = find_account-some n a rest (rw e at h) in (same, later has)
]

find_account-none :
    (n : Text) (rest : List AccountConfig)
    → find_account n rest ≡ none
    → All (λ s. s ≢ n) (names rest)
unfolding find_account
find_account-none n [] h = tt
find_account-none n (b ∷ rest) h =
    (ground (arith, text_eq_iff b.name n), find_account-none n rest (ground arith))

-- What a lookup by name may give.
abbrev pub Finds : Config → Text → Result AccountConfig → Type 0
Finds c n (ok a) = (a.name ≡ n) × HasAccount a c.accounts
Finds c n (err e) = (e ≡ no_such_account n) × All (λ s. s ≢ n) (names c.accounts)

-- `Config.account` returns a configured account of that name, or raises "no account named" for
-- that name where no configured account has it.
pub account-Finds : (c : Config) (n : Text) → Finds c n (account c n)
unfolding account
account-Finds c n = go (find_account n c.accounts) refl
  where
    go : (o : Option AccountConfig) → find_account n c.accounts ≡ o → Finds c n (account c n)
    go none h = rw (h, account) (refl, find_account-none n c.accounts h)
    go (some a) h = rw (h, account) (find_account-some n a c.accounts h)
