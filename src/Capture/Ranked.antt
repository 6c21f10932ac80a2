-- ===== src/Capture/Ranked.antt =====
-- The rows of a summary in src/pricewatch/capture.py: their order, and what they add up to.
use pricewatch.Base.{
  all, is_some, ℕ, ◌+◌, ◌≡◌, refl, Bool, true, false, List, [], ◌∷◌, arith, map, length, ◌∙◌,
  Option, none, some, Text, if◌then◌else◌,
}
use pricewatch.Base.Sort.{sort, sort-IsSorted, IsSorted, insert}
use pricewatch.Base.Dict.{Dict}
use pricewatch.Redaction.Value.{Value}
use pricewatch.Capture.Summary.{
  Endpoint, endpoint_eq, endpoint_key, EndpointStats, Seen, group, Row, row, row_le, rows_of, seen,
  seen_all, summary, both,
}
use pricewatch.Capture.Summarised.{
  dict_calls, dict_calls-group, calls_of, calls_of-group, of_endpoint,
}

-- The calls of all rows.
abbrev pub total_calls : List Row → ℕ
total_calls [] = 0
total_calls (r ∷ rs) = r.calls + total_calls rs

-- The calls of the rows of an endpoint.
abbrev pub row_calls : Endpoint → List Row → ℕ
row_calls e [] = 0
row_calls e (r ∷ rs) = (if endpoint_eq r.endpoint e then r.calls else 0) + row_calls e rs

row_calls-insert :
    (e : Endpoint) (r : Row) (rs : List Row)
    → row_calls e (insert row_le r rs) ≡ row_calls e (r ∷ rs)
unfolding insert
row_calls-insert e r [] = refl
row_calls-insert e r (x ∷ rs) = ground (arith, row_calls-insert e r rs)

row_calls-sort : (e : Endpoint) (rs : List Row) → row_calls e (sort row_le rs) ≡ row_calls e rs
unfolding sort
row_calls-sort e [] = refl
row_calls-sort e (r ∷ rs) =
    omega (arith, row_calls-insert e r (sort row_le rs), row_calls-sort e rs)

row_calls-rows :
    (e : Endpoint) (d : Dict Endpoint EndpointStats) → row_calls e (map row d) ≡ calls_of e d
unfolding row
row_calls-rows e [] = refl
row_calls-rows e ((k, t) ∷ d) = omega (arith, row_calls-rows e d)

row_calls-rows_of :
    (e : Endpoint) (ss : List Seen) → row_calls e (rows_of ss) ≡ length (of_endpoint e ss)
unfolding rows_of
row_calls-rows_of e ss = omega (
  arith,
  row_calls-sort e (map row (group [] ss)),
  row_calls-rows e (group [] ss),
  calls_of-group e [] ss,
)

total_calls-insert :
    (r : Row) (rs : List Row) → total_calls (insert row_le r rs) ≡ r.calls + total_calls rs
unfolding insert
total_calls-insert r [] = refl
total_calls-insert r (x ∷ rs) = ground (arith, total_calls-insert r rs)

total_calls-sort : (rs : List Row) → total_calls (sort row_le rs) ≡ total_calls rs
unfolding sort
total_calls-sort [] = refl
total_calls-sort (r ∷ rs) =
    omega (arith, total_calls-insert r (sort row_le rs), total_calls-sort rs)

total_calls-rows : (d : Dict Endpoint EndpointStats) → total_calls (map row d) ≡ dict_calls d
unfolding row
total_calls-rows [] = refl
total_calls-rows ((e, t) ∷ d) = omega (arith, total_calls-rows d)

row_le_total : (a b : Row) → row_le a b ≡ false → row_le b a ≡ true
row_le_total a b h = ground arith

row_le_trans : (a b c : Row) → row_le a b ≡ true → row_le b c ≡ true → row_le a c ≡ true
row_le_trans a b c h k = ground arith

-- The order of the rows, and their calls.
rows_of_complete :
    (ss : List Seen) → IsSorted row_le (rows_of ss) × (total_calls (rows_of ss) ≡ length ss)
unfolding rows_of
rows_of_complete ss = (
  sort-IsSorted row_le row_le_total row_le_trans (map row (group [] ss)),
  omega (
    arith,
    total_calls-sort (map row (group [] ss)),
    total_calls-rows (group [] ss),
    dict_calls-group [] ss,
  ),
)

module _ (urlsplit : Text → Option (Text × Text)) where
  abbrev pub is_split : Value → Bool
  is_split v = is_some (seen urlsplit v)

  -- What reading the exchanges gives.
  abbrev Reads : List Value → Option (List Seen) → Type 0
  Reads vs (some ss) = (length ss ≡ length vs) × (all is_split vs ≡ true)
  Reads vs none = all is_split vs ≡ false

  both-Reads :
      (v : Value) (vs : List Value) (o : Option Seen) (os : Option (List Seen))
      → seen urlsplit v ≡ o
      → Reads vs os
      → Reads (v ∷ vs) (both o os)
  both-Reads v vs none os h r = ground arith
  both-Reads v vs (some s) none h r = ground arith
  both-Reads v vs (some s) (some ss) h r = ground arith

  seen_all-Reads : (vs : List Value) → Reads vs (seen_all urlsplit vs)
  unfolding seen_all
  seen_all-Reads [] = (refl, refl)
  seen_all-Reads (v ∷ vs) =
      both-Reads v vs (seen urlsplit v) (seen_all urlsplit vs) refl (seen_all-Reads vs)

  -- What a summary is, by how it ends.
  abbrev pub IsRanked : List Value → Option (List Row) → Type 0
  IsRanked vs (some rows) =
      IsSorted row_le rows
      × (total_calls rows ≡ length vs)
      × (all is_split vs ≡ true)
      × ((ss : List Seen) × (seen_all urlsplit vs ≡ some ss)
          × ((e : Endpoint) → row_calls e rows ≡ length (of_endpoint e ss)))
  IsRanked vs none = all is_split vs ≡ false

  pub summary-IsRanked : (vs : List Value) → IsRanked vs (summary urlsplit vs)
  unfolding summary
  summary-IsRanked vs = go (seen_all urlsplit vs) refl (seen_all-Reads vs)
    where
      go :
          (o : Option (List Seen))
          → seen_all urlsplit vs ≡ o
          → Reads vs o
          → IsRanked vs (elim o [ none ↦ none | some ss ↦ some (rows_of ss) ])
      go none at r = r
      go (some ss) at (same, split) =
          let (order, total) = rows_of_complete ss in
          (order, total ∙ same, split, (ss, at, λ e. row_calls-rows_of e ss))
