-- ===== src/Capture/Summarised.antt =====
-- What the summary of a capture in src/pricewatch/capture.py says of its exchanges.
use pricewatch.Base.{
  subst, ℕ, ◌+◌, ◌≡◌, refl, Bool, true, false, ◌||◌, Option, none, some, List, [], ◌∷◌, arith,
  filter, length, any, ◌==◌, ==_iff, max, if◌then◌else◌, ap, sym, ◌∙◌, Bool-cases, inl, inr,
}
use pricewatch.Base.Dict.{Dict, lookup, insert, lookup-insert}
use pricewatch.Capture.Summary.{
  Endpoint, endpoint_eq, endpoint_eq_iff, endpoint_key, EndpointStats, new_stats, mem_ℕ, Seen,
  tally, or_new, group,
}

-- The exchanges of an endpoint.
abbrev pub of_endpoint : Endpoint → List Seen → List Seen
of_endpoint e = filter (λ s. endpoint_eq s.endpoint e)

abbrev pub largest : List Seen → ℕ
largest [] = 0
largest (s ∷ ss) = max s.size (largest ss)

-- These stats are those of these exchanges.
pub record Tallies (ss : List Seen) (t : EndpointStats) : Type 0 where
  pub counted : t.calls ≡ length ss
  pub some_json : t.is_json ≡ any (λ s. s.json) ss
  pub greatest : t.max_body_bytes ≡ largest ss
  pub each_status : (n : ℕ) → mem_ℕ n t.statuses ≡ any (λ s. s.status == n) ss

-- The stats after some exchanges more.
abbrev onto : Option EndpointStats → List Seen → Option EndpointStats
onto o [] = o
onto o (s ∷ ss) = onto (some (tally s (or_new o))) ss

onto_same :
    (e : Endpoint) (s : Seen) (d : Dict Endpoint EndpointStats) (b : Bool) (ss : List Seen)
    → endpoint_eq s.endpoint e ≡ b
    → onto (if b then some (tally s (or_new (lookup s.endpoint d))) else lookup e d) ss
      ≡ onto (lookup e d) (if b then s ∷ ss else ss)
onto_same e s d true ss h =
    ap (λ k. onto (some (tally s (or_new (lookup k d)))) ss) ((endpoint_eq_iff s.endpoint e).0 h)
onto_same e s d false ss h = refl

lookup-group :
    (e : Endpoint) (d : Dict Endpoint EndpointStats) (ss : List Seen)
    → lookup e (group d ss) ≡ onto (lookup e d) (of_endpoint e ss)
unfolding group
lookup-group e d [] = refl
lookup-group e d (s ∷ ss) =
    let v = tally s (or_new (lookup s.endpoint d)) in
    lookup-group e (insert s.endpoint v d) ss
    ∙ ap (λ o. onto o (of_endpoint e ss)) (lookup-insert e s.endpoint v d)
    ∙ onto_same e s d (endpoint_eq s.endpoint e) (of_endpoint e ss) refl

-- What further exchanges add to stats.
record Adds (t : EndpointStats) (ss : List Seen) (t' : EndpointStats) : Type 0 where
  pub calls_grow : t'.calls ≡ t.calls + length ss
  pub json_grows : t'.is_json ≡ (any (λ s. s.json) ss || t.is_json)
  pub size_grows : t'.max_body_bytes ≡ max t.max_body_bytes (largest ss)
  pub statuses_grow :
      (n : ℕ) → mem_ℕ n t'.statuses ≡ (any (λ s. s.status == n) ss || mem_ℕ n t.statuses)

tally-Adds : (t : EndpointStats) (s : Seen) → Adds t (s ∷ []) (tally s t)
unfolding tally
tally-Adds t s = record {
  calls_grow = omega arith;
  json_grows = ground arith;
  size_grows = omega arith;
  statuses_grow = λ n. ground (arith, ==_iff s.status n);
}

Adds-cons :
    (t t1 t2 : EndpointStats) (s : Seen) (ss : List Seen)
    → Adds t (s ∷ []) t1
    → Adds t1 ss t2
    → Adds t (s ∷ ss) t2
Adds-cons t t1 t2 s ss f g = record {
  calls_grow = omega (arith, f.calls_grow, g.calls_grow);
  json_grows = ground (arith, f.json_grows, g.json_grows);
  size_grows = omega (arith, f.size_grows, g.size_grows);
  statuses_grow = λ n. ground (arith, f.statuses_grow n, g.statuses_grow n);
}

onto-Adds :
    (t : EndpointStats) (ss : List Seen)
    → (t' : EndpointStats) × (onto (some t) ss ≡ some t') × Adds t ss t'
onto-Adds t [] = (
  t,
  refl,
  record {
    calls_grow = omega arith;
    json_grows = ground arith;
    size_grows = omega arith;
    statuses_grow = λ n. refl;
  },
)
onto-Adds t (s ∷ ss) =
    let (t', same, adds) = onto-Adds (tally s t) ss in
    (t', same, Adds-cons t (tally s t) t' s ss (tally-Adds t s) adds)

-- What the summary has for the exchanges of one endpoint.
abbrev pub Describes : List Seen → Option EndpointStats → Type 0
Describes ss none = ss ≡ []
Describes ss (some t) = Tallies ss t

onto-Describes : (ss : List Seen) → Describes ss (onto none ss)
onto-Describes [] = refl
onto-Describes (s ∷ ss) =
    let (t', same, adds) = onto-Adds (tally s new_stats) ss in
    let all = Adds-cons new_stats (tally s new_stats) t' s ss (tally-Adds new_stats s) adds in
    subst (Describes (s ∷ ss)) (sym same) (record {
      counted = omega (arith, all.calls_grow);
      some_json = all.json_grows ∙ ground arith;
      greatest = all.size_grows ∙ omega arith;
      each_status = λ n. all.statuses_grow n ∙ ground arith;
    })

-- Grouping agrees with counting: an endpoint with no exchange has no stats, and one with
-- exchanges has their number, whether one of them was JSON, the greatest size of a body, and
-- exactly the statuses that they had.
pub group-Describes :
    (e : Endpoint) (ss : List Seen) → Describes (of_endpoint e ss) (lookup e (group [] ss))
unfolding lookup
group-Describes e ss =
    subst (Describes (of_endpoint e ss)) (sym (lookup-group e [] ss))
      (onto-Describes (of_endpoint e ss))

-- The calls of all endpoints.
abbrev pub dict_calls : Dict Endpoint EndpointStats → ℕ
dict_calls [] = 0
dict_calls ((e, t) ∷ d) = t.calls + dict_calls d

abbrev calls_at : Option EndpointStats → ℕ
calls_at none = 0
calls_at (some t) = t.calls

dict_calls-insert :
    (e : Endpoint) (t : EndpointStats) (d : Dict Endpoint EndpointStats)
    → dict_calls (insert e t d) + calls_at (lookup e d) ≡ dict_calls d + t.calls
unfolding insert lookup
dict_calls-insert e t [] = omega arith
dict_calls-insert e t ((k, w) ∷ d) = ground (arith, dict_calls-insert e t d)

pub dict_calls-group :
    (d : Dict Endpoint EndpointStats) (ss : List Seen)
    → dict_calls (group d ss) ≡ dict_calls d + length ss
unfolding group tally
dict_calls-group d [] = omega arith
dict_calls-group d (s ∷ ss) =
    let t = or_new (lookup s.endpoint d) in
    omega (
      arith,
      dict_calls-group (insert s.endpoint (tally s t) d) ss,
      dict_calls-insert s.endpoint (tally s t) d,
      calls_or_new (lookup s.endpoint d),
    )
  where
    calls_or_new : (o : Option EndpointStats) → (or_new o).calls ≡ calls_at o
    calls_or_new none = refl
    calls_or_new (some t) = refl

-- The calls that a dict has for an endpoint, over all its entries.
abbrev pub calls_of : Endpoint → Dict Endpoint EndpointStats → ℕ
calls_of e [] = 0
calls_of e ((k, t) ∷ d) = (if endpoint_eq k e then t.calls else 0) + calls_of e d

calls_of-insert :
    (e k : Endpoint) (t : EndpointStats) (d : Dict Endpoint EndpointStats)
    → calls_of e (insert k t d) + (if endpoint_eq k e then calls_at (lookup k d) else 0)
      ≡ calls_of e d + (if endpoint_eq k e then t.calls else 0)
unfolding insert lookup
calls_of-insert e k t [] = ground arith
calls_of-insert e k t ((j, w) ∷ d) = elim (Bool-cases (endpoint_eq j k)) [
  | inl h ↦ let same : j ≡ k = (endpoint_eq_iff j k).0 h in rw (h, same) (ground arith)
  | inr h ↦ rw h (ground (arith, calls_of-insert e k t d))
]

calls_or_new : (o : Option EndpointStats) → (or_new o).calls ≡ calls_at o
calls_or_new none = refl
calls_or_new (some t) = refl

-- An endpoint has as many calls in a group as it has exchanges.
pub calls_of-group :
    (e : Endpoint) (d : Dict Endpoint EndpointStats) (ss : List Seen)
    → calls_of e (group d ss) ≡ calls_of e d + length (of_endpoint e ss)
unfolding group tally
calls_of-group e d [] = omega arith
calls_of-group e d (s ∷ ss) =
    let t = or_new (lookup s.endpoint d) in
    ground (
      arith,
      calls_of-group e (insert s.endpoint (tally s t) d) ss,
      calls_of-insert e s.endpoint (tally s t) d,
      calls_or_new (lookup s.endpoint d),
    )
