-- ===== src/Redaction/Preserved.antt =====
-- Texts that `redact_text` of src/pricewatch/redaction.py leaves alone.
use pricewatch.Base.{
  ℕ, ◌-◌, ◌≡◌, refl, ◌<◌, ◌∙◌, ap, Bool, true, false, Option, none, some, List, [], ◌∷◌, Text,
  arith, any, ◌==◌, length, Bool-cases, inl, inr,
}
use pricewatch.Base.{==_iff, codes, map}
use pricewatch.Base.{==_iff, codes, map}
use pricewatch.Base.Unicode.{Unicode}
use pricewatch.Redaction.Matcher.{
  Next, mark, one, each_of, repeat, alternative, boundary, less_of, Finder, sub, Nowhere,
  sub-Nowhere,
}
use pricewatch.Redaction.Patterns.{
  is_letter, is_letter_i, is_code_i, whole, replace_kv, jwt, bearer, kv, hex, b64, email, postcode,
  redact_text,
}

-- A text with no letter (nor one of the four that fold to an ASCII letter) and fewer than 16 code
-- points.
abbrev pub IsNumeric : Text → Type 0
IsNumeric s = (any is_letter_i s ≡ false) × (length s < 16)

IsNumeric-tail : (c : ℕ) (s : Text) → IsNumeric (c ∷ s) → IsNumeric s
IsNumeric-tail c s h = (ground arith, omega arith)

-- What must match behind a place fails on all such texts.
abbrev Fails : Next → Type 0
Fails k = (p : Option ℕ) (s : Text) → IsNumeric s → k p s ≡ none

one-Fails : (cls : ℕ → Bool) (k : Next) → Fails k → Fails (one cls k)
unfolding one
one-Fails cls k f p [] h = refl
one-Fails cls k f p (c ∷ s) h = ground (arith, f (some c) s (IsNumeric-tail c s h))

-- A class of letters matches nothing there.
one-Fails_letter :
    (cls : ℕ → Bool) (k : Next)
    → ((c : ℕ) → cls c ≡ true → is_letter_i c ≡ true)
    → Fails (one cls k)
unfolding one
one-Fails_letter cls k l p [] h = refl
one-Fails_letter cls k l p (c ∷ s) h = elim (Bool-cases (cls c)) [
  | inl e ↦ absurd (ground (arith, l c e))
  | inr e ↦ rw e
]

repeat-Fails :
    (cls : ℕ → Bool) (lo : ℕ) (hi : Option ℕ) (k : Next) → Fails k → Fails (repeat cls lo hi k)
unfolding repeat
repeat-Fails cls lo hi k f p [] h = ground (arith, f p [] h)
repeat-Fails cls lo hi k f p (c ∷ s) h = ground (
  arith,
  f p (c ∷ s) h,
  repeat-Fails cls (lo - 1) (less_of hi) k f (some c) s (IsNumeric-tail c s h),
)

repeat-Fails_letter :
    (cls : ℕ → Bool) (lo : ℕ) (hi : Option ℕ) (k : Next)
    → ((c : ℕ) → cls c ≡ true → is_letter_i c ≡ true)
    → 0 < lo
    → Fails (repeat cls lo hi k)
unfolding repeat
repeat-Fails_letter cls lo hi k l z p [] h = ground arith
repeat-Fails_letter cls lo hi k l z p (c ∷ s) h = elim (Bool-cases (cls c)) [
  | inl e ↦ absurd (ground (arith, l c e))
  | inr e ↦ ground arith
]

-- More code points are asked for than there are.
repeat-too_few :
    (cls : ℕ → Bool) (lo : ℕ) (hi : Option ℕ) (k : Next) (p : Option ℕ) (s : Text)
    → length s < lo
    → repeat cls lo hi k p s ≡ none
unfolding repeat
repeat-too_few cls lo hi k p [] h = ground arith
repeat-too_few cls lo hi k p (c ∷ s) h =
    ground (arith, repeat-too_few cls (lo - 1) (less_of hi) k (some c) s (omega arith))

boundary-Fails : (u : Unicode) (k : Next) → Fails k → Fails (boundary u k)
unfolding boundary
boundary-Fails u k f p s h = ground (arith, f p s h)

mark-Fails : (k : Next) → Fails k → Fails (mark k)
unfolding mark
mark-Fails k f p s h = ground (arith, f p s h)

alternative-Fails :
    (m n : Next → Next) (k : Next) → Fails (m k) → Fails (n k) → Fails (alternative m n k)
unfolding alternative
alternative-Fails m n k f g p s h = ground (arith, f p s h, g p s h)

-- A finder that finds nothing in such texts.
abbrev Blind : Finder → Type 0
Blind find = (p : Option ℕ) (s : Text) → IsNumeric s → find p s ≡ none

Nowhere-of :
    (find : Finder) → Blind find → (p : Option ℕ) (s : Text) → IsNumeric s → Nowhere find p s
Nowhere-of find b p [] h = tt
Nowhere-of find b p (c ∷ s) h = (b p (c ∷ s) h, Nowhere-of find b (some c) s (IsNumeric-tail c s h))

sub-Blind : (find : Finder) (s : Text) → Blind find → IsNumeric s → sub find s ≡ s
unfolding sub
sub-Blind find s b h = sub-Nowhere find none s (Nowhere-of find b none s h)

code_letter : (d c : ℕ) → is_letter d ≡ true → is_code_i d c ≡ true → is_letter_i c ≡ true
code_letter d c h e = ground arith

each_of-Fails :
    (cls : ℕ → Bool) (more : List (ℕ → Bool)) (k : Next)
    → ((c : ℕ) → cls c ≡ true → is_letter_i c ≡ true)
    → Fails (each_of (cls ∷ more) k)
unfolding each_of
each_of-Fails cls more k l = one-Fails_letter cls (each_of more k) l

literal_i-Fails :
    (d : ℕ) (ds : Text) (k : Next) → is_letter d ≡ true → Fails (each_of (map is_code_i (d ∷ ds)) k)
literal_i-Fails d ds k h =
    each_of-Fails (is_code_i d) (map is_code_i ds) k (λ c e. code_letter d c h e)

module _ (u : Unicode) where
  jwt-Blind : Blind (jwt u)
  unfolding jwt
  jwt-Blind p s h = ap (whole s) (
      boundary-Fails u _ (each_of-Fails (λ c. c == b'e') _ _ (λ c e. ground (arith, ==_iff c b'e')))
        p s h)

  bearer-Blind : Blind (bearer u)
  unfolding bearer
  bearer-Blind p s h = ap (whole s) (
      boundary-Fails u _
        (alternative-Fails _ _ _ (literal_i-Fails b'b' (codes "earer") _ refl) (
          alternative-Fails _ _ _ (literal_i-Fails b'b' (codes "asic") _ refl)
            (literal_i-Fails b't' (codes "oken") _ refl)))
        p s h)

  kv-Blind : Blind (kv u)
  unfolding kv
  kv-Blind p s h =
      ap (replace_kv s) (
        boundary-Fails u _
          (repeat-Fails _ 2 none _
            (mark-Fails _ (one-Fails _ _ (λ q t k. repeat-too_few _ 16 none _ q t k.1))))
          p s h)
      ∙ replace-none s
    where
      replace-none : (s : Text) → replace_kv s none ≡ none
      replace-none s = unfold replace_kv in refl

  hex-Blind : Blind (hex u)
  unfolding hex
  hex-Blind p s h =
      ap (whole s)
        (boundary-Fails u _ (λ q t k. repeat-too_few _ 32 none _ q t (omega (arith, k.1))) p s h)

  b64-Blind : Blind (b64 u)
  unfolding b64
  b64-Blind p s h =
      ap (whole s)
        (boundary-Fails u _ (λ q t k. repeat-too_few _ 40 none _ q t (omega (arith, k.1))) p s h)

  email-Blind : Blind (email u)
  unfolding email
  email-Blind p s h = ap (whole s) (
      boundary-Fails u _
        (repeat-Fails _ 1 none _ (
          one-Fails _ _ (
            repeat-Fails _ 1 none _ (
              one-Fails _ _ (repeat-Fails_letter _ 2 none _ (λ c e. ground arith) (omega arith))))))
        p s h)

  postcode-Blind : Blind (postcode u)
  unfolding postcode
  postcode-Blind p s h =
      ap (whole s)
        (boundary-Fails u _ (repeat-Fails_letter _ 1 (some 2) _ (λ c e. e) (omega arith)) p s h)

  -- A text of fewer than 16 code points with no letter in it, such as a price or a short number,
  -- is not changed.
  pub redact_text-IsNumeric : (s : Text) → IsNumeric s → redact_text u s ≡ s
  unfolding redact_text
  redact_text-IsNumeric s h =
      rw
        (
          sub-Blind (jwt u) s jwt-Blind h,
          sub-Blind (bearer u) s bearer-Blind h,
          sub-Blind (kv u) s kv-Blind h,
          sub-Blind (hex u) s hex-Blind h,
          sub-Blind (b64 u) s b64-Blind h,
          sub-Blind (email u) s email-Blind h,
        )
        (sub-Blind (postcode u) s postcode-Blind h)
