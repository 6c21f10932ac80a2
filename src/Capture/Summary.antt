-- ===== src/Capture/Summary.antt =====
-- `CaptureRecorder.summary` of src/pricewatch/capture.py. `urlsplit` is a parameter; it raises
-- `ValueError` on some texts.
use pricewatch.Base.{
  ℕ, ◌+◌, ◌≡◌, ◌↔◌, Bool, true, false, ◌&&◌, ◌||◌, Option, none, some, List, [], ◌∷◌, Text, codes,
  arith, map, length, leb, ◌==◌, text_eq, text_eq_iff, max, if◌then◌else◌,
}
use pricewatch.Base.Sort.{sort}
use pricewatch.Base.Dict.{Key, Dict, lookup, insert}
use pricewatch.Base.Int.{pos}
use pricewatch.Redaction.Value.{get_entry, Value, int, str, mapping}

unfoldable pub get_field : Text → Value → Option Value
unfolding get_entry
get_field k (mapping es) = get_entry k es
get_field k v = none

-- The text of a field. The recorder makes each of these fields a text; a missing body is `None`,
-- for which the code takes the empty text.
unfoldable pub text_field : Text → Value → Text
unfolding get_field
text_field k v = elim (get_field k v) [ some (str t) ↦ t | _ ↦ [] ]

unfoldable pub status_field : Value → ℕ
unfolding get_field
status_field v = elim (get_field (codes "status") v) [ some (int (pos n)) ↦ n | _ ↦ 0 ]

-- `(method, netloc, path)`
pub record Endpoint : Type 0 where
  pub method : Text
  pub host : Text
  pub path : Text

abbrev pub endpoint_eq : Endpoint → Endpoint → Bool
endpoint_eq a b = text_eq a.method b.method && text_eq a.host b.host && text_eq a.path b.path

pub endpoint_eq_iff : (a b : Endpoint) → (endpoint_eq a b ≡ true) ↔ (a ≡ b)
endpoint_eq_iff a b =
    ground
      (arith, text_eq_iff a.method b.method, text_eq_iff a.host b.host, text_eq_iff a.path b.path)

instance abbrev pub endpoint_key : Key Endpoint
endpoint_key = record { eq = endpoint_eq; eq_iff = endpoint_eq_iff }

-- `_EndpointStats`; a set of statuses is the list of its elements.
pub record EndpointStats : Type 0 where
  pub calls : ℕ
  pub statuses : List ℕ
  pub is_json : Bool
  pub max_body_bytes : ℕ

abbrev pub new_stats : EndpointStats
new_stats = record { calls = 0; statuses = []; is_json = false; max_body_bytes = 0 }

abbrev pub mem_ℕ : ℕ → List ℕ → Bool
mem_ℕ n [] = false
mem_ℕ n (m ∷ ms) = (m == n) || mem_ℕ n ms

-- `set.add`
abbrev pub add : ℕ → List ℕ → List ℕ
add n ms = if mem_ℕ n ms then ms else n ∷ ms

-- What the loop reads of an exchange.
pub record Seen : Type 0 where
  pub endpoint : Endpoint
  pub status : ℕ
  pub json : Bool
  pub size : ℕ

-- The body of the loop, on the stats of the exchange's endpoint.
unfoldable pub tally : Seen → EndpointStats → EndpointStats
tally s t = record {
  calls = t.calls + 1;
  statuses = add s.status t.statuses;
  is_json = s.json || t.is_json;
  max_body_bytes = max t.max_body_bytes s.size;
}

abbrev pub or_new : Option EndpointStats → EndpointStats
or_new none = new_stats
or_new (some t) = t

-- The loop over what it reads; `setdefault` gives the stats that are there or new ones.
unfoldable pub group : Dict Endpoint EndpointStats → List Seen → Dict Endpoint EndpointStats
unfolding insert lookup tally
group d [] = d
group d (s ∷ ss) = group (insert s.endpoint (tally s (or_new (lookup s.endpoint d))) d) ss

pub record Row : Type 0 where
  pub endpoint : Endpoint
  pub calls : ℕ
  pub statuses : List ℕ
  pub json : Bool
  pub max_body_bytes : ℕ

unfoldable pub row : Endpoint × EndpointStats → Row
unfolding sort
row (e, t) = record {
  endpoint = e;
  calls = t.calls;
  statuses = sort leb t.statuses;
  json = t.is_json;
  max_body_bytes = t.max_body_bytes;
}

-- The comparison of the keys `(not json, -max_body_bytes)`.
abbrev pub row_le : Row → Row → Bool
row_le a b =
    if a.json
    then (if b.json then leb b.max_body_bytes a.max_body_bytes else true)
    else if b.json
    then false
    else leb b.max_body_bytes a.max_body_bytes

unfoldable pub rows_of : List Seen → List Row
unfolding group row sort
rows_of ss = sort row_le (map row (group [] ss))

abbrev pub both : Option Seen → Option (List Seen) → Option (List Seen)
both none o = none
both (some s) none = none
both (some s) (some ss) = some (s ∷ ss)

module _ (urlsplit : Text → Option (Text × Text)) where
  -- What is read of one exchange; nothing when `urlsplit` raises.
  unfoldable pub seen : Value → Option Seen
  unfolding text_field status_field
  seen v = elim (urlsplit (text_field (codes "url") v)) [
    | none ↦ none
    | some (netloc, path) ↦ some (record {
      endpoint = record { method = text_field (codes "method") v; host = netloc; path = path };
      status = status_field v;
      json = text_eq (text_field (codes "response_body_format") v) (codes "json");
      size = length (text_field (codes "response_body") v);
    })
  ]

  unfoldable pub seen_all : List Value → Option (List Seen)
  unfolding seen
  seen_all [] = some []
  seen_all (v ∷ vs) = both (seen v) (seen_all vs)

  -- `summary`; nothing when it raises.
  unfoldable pub summary : List Value → Option (List Row)
  unfolding seen_all rows_of
  summary vs = elim (seen_all vs) [ none ↦ none | some ss ↦ some (rows_of ss) ]
