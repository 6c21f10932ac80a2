-- ===== src/Adapters/Results.antt =====
-- `SavedItem` and `SavedItemsResult` of src/pricewatch/adapters/base.py, which check themselves when
-- they are made.
use pricewatch.Base.{
  ◌≡◌, refl, ◌≢◌, ◌⊎◌, inl, inr, Bool, true, false, ◌&&◌, not, Option, List, [], ◌∷◌, Text, arith,
  all, is_empty, length, ◌==◌, Bool-cases, if◌then◌else◌,
}
use pricewatch.Base.Int.{ℤ, pos, leb_ℤ, ◌≤ℤ◌}
use pricewatch.Base.Unicode.{Unicode}
use pricewatch.Errors.{Result, ok, err, no_external_id, negative_price, bad_currency, no_identity}
use pricewatch.Accounts.Table.{ExecMode}

pub record SavedItem : Type 0 where
  pub external_id : Text
  pub title : Text
  pub price : ℤ
  pub currency : Text
  pub variant_id : Text
  pub variant_label : Option Text
  pub rrp : Option ℤ
  pub in_stock : Option Bool
  pub url : Option Text
  pub image_url : Option Text

-- `SavedItem.__post_init__`: the item, or the first check that fails.
unfoldable pub make_item : SavedItem → Result SavedItem
make_item i =
    if is_empty i.external_id
    then err no_external_id
    else if not (leb_ℤ (pos 0) i.price)
    then err (negative_price i.external_id)
    else if not (length i.currency == 3)
    then err (bad_currency i.external_id)
    else ok i

pub record SavedItemsResult : Type 0 where
  pub identity : Text
  pub items : List SavedItem
  pub exec_mode : ExecMode
  pub raw : Text
  pub extra_lookups : ℤ

-- `SavedItemsResult.is_empty`
unfoldable pub is_empty_result : SavedItemsResult → Bool
is_empty_result r = is_empty r.items

module _ (u : Unicode) where
  -- `s.lstrip()`
  unfoldable pub lstrip : Text → Text
  lstrip [] = []
  lstrip (c ∷ s) = let rest = lstrip s in if u.is_space c then rest else c ∷ s

  -- `s.rstrip()`
  unfoldable pub rstrip : Text → Text
  rstrip [] = []
  rstrip (c ∷ s) = let rest = rstrip s in if u.is_space c && is_empty rest then [] else c ∷ rest

  -- `s.strip()`
  unfoldable pub strip : Text → Text
  unfolding lstrip rstrip
  strip s = rstrip (lstrip s)

  -- `SavedItemsResult.__post_init__`
  unfoldable pub make_result : SavedItemsResult → Result SavedItemsResult
  make_result r = if is_empty (strip r.identity) then err no_identity else ok r

  rstrip-blank : (s : Text) → is_empty (rstrip s) ≡ all u.is_space s
  unfolding rstrip
  rstrip-blank [] = refl
  rstrip-blank (c ∷ s) = ground (arith, rstrip-blank s)

  strip-blank : (s : Text) → is_empty (strip s) ≡ all u.is_space s
  unfolding strip
  strip-blank [] = refl
  strip-blank (c ∷ s) = elim (Bool-cases (u.is_space c)) [
    | inl e ↦ rw e (strip-blank s)
    | inr e ↦ ground (arith, rstrip-blank (c ∷ s))
  ]

  -- What making a result may give.
  abbrev pub Authenticates : SavedItemsResult → Result SavedItemsResult → Type 0
  Authenticates r (ok r') = (r' ≡ r) × (all u.is_space r.identity ≡ false)
  Authenticates r (err e) = (e ≡ no_identity) × (all u.is_space r.identity ≡ true)

  -- A result is made, as it is given, where its identity is not blank, also with no items, and is
  -- refused as having no identity where it is blank, whatever its items.
  make_result-Authenticates : (r : SavedItemsResult) → Authenticates r (make_result r)
  unfolding make_result
  make_result-Authenticates r = elim (Bool-cases (is_empty (strip r.identity))) [
    | inl e ↦ rw e (refl, ground (arith, strip-blank r.identity))
    | inr e ↦ rw e (refl, ground (arith, strip-blank r.identity))
  ]

-- What making an item may give.
abbrev pub Checked : SavedItem → Result SavedItem → Type 0
Checked i (ok i') = (i' ≡ i) × (i.external_id ≢ []) × (pos 0 ≤ℤ i.price) × (length i.currency ≡ 3)
Checked i (err e) =
    ((e ≡ no_external_id) × (i.external_id ≡ []))
    ⊎ (((e ≡ negative_price i.external_id) × (i.external_id ≢ []) × ¬ (pos 0 ≤ℤ i.price))
        ⊎ ((e ≡ bad_currency i.external_id)
            × (i.external_id ≢ [])
            × (pos 0 ≤ℤ i.price)
            × (length i.currency ≢ 3)))

-- An item is made, as it is given, exactly with an id, a price that is not negative and a currency
-- of three characters; else the first of these that fails is reported.
make_item-Checked : (i : SavedItem) → Checked i (make_item i)
unfolding make_item
make_item-Checked i = ground arith
