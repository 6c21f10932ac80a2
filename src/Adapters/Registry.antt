-- ===== src/Adapters/Registry.antt =====
-- `AdapterRegistry` of src/pricewatch/adapters/base.py. An adapter is what its site module makes
-- it; the registry reads only its site id.
use pricewatch.Base.{
  ◌≡◌, ◌≢◌, Bool, true, false, none, some, Text, arith, is_some, text_eq_iff, text_eq_refl,
  if◌then◌else◌,
}
use pricewatch.Base.Dict.{Dict, text_key, lookup, insert, erase, lookup-insert, lookup-erase}
use pricewatch.Errors.{Result, ok, err, already_registered, no_adapter}

module _ {Adapter : Type 0} where
  -- `site_id in self._adapters`
  unfoldable pub available : Dict Text Adapter → Text → Bool
  available adapters site_id = is_some (lookup site_id adapters)

  unfoldable pub get : Dict Text Adapter → Text → Result Adapter
  get adapters site_id = elim (lookup site_id adapters) [
    | some a ↦ ok a
    | none ↦ err (no_adapter site_id)
  ]

  unfoldable pub unregister : Text → Dict Text Adapter → Dict Text Adapter
  unregister = erase

module _ {Adapter : Type 0} (site_id_of : Adapter → Text) where
  unfoldable pub register : Adapter → Dict Text Adapter → Result (Unit {0}) × Dict Text Adapter
  unfolding available
  register adapter adapters =
      if available adapters (site_id_of adapter)
      then (err (already_registered (site_id_of adapter)), adapters)
      else (ok tt, insert (site_id_of adapter) adapter adapters)

  -- What a registration may do, seen at its own site and at another.
  abbrev pub Registers :
      Adapter → Text → Dict Text Adapter → Result (Unit {0}) × Dict Text Adapter → Type 0
  Registers a other old (ok _, new) =
      (available old (site_id_of a) ≡ false)
      × (get new (site_id_of a) ≡ ok a)
      × (get new other ≡ get old other)
  Registers a other old (err e, new) =
      (available old (site_id_of a) ≡ true) × (e ≡ already_registered (site_id_of a)) × (new ≡ old)

  -- Registering an adapter for a site that has none makes `get` return it for that site and
  -- changes no other site; for a site that has one it raises, and the registry is as it was.
  register-Registers :
      (a : Adapter) (adapters : Dict Text Adapter) (other : Text)
      → other ≢ site_id_of a
      → Registers a other adapters (register a adapters)
  unfolding register get available
  register-Registers a adapters other h =
      let s = site_id_of a in
      ground (
        arith,
        lookup-insert s s a adapters,
        text_eq_refl s,
        lookup-insert other s a adapters,
        text_eq_iff s other,
      )

-- Unregistering a site makes `get` raise "no adapter" for it and changes no other site.
get-unregister :
    {Adapter : Type 0} (adapters : Dict Text Adapter) (site other : Text)
    → other ≢ site
    → (get (unregister site adapters) site ≡ err (no_adapter site))
      × (get (unregister site adapters) other ≡ get adapters other)
unfolding get unregister
get-unregister adapters site other h = (
  ground (arith, lookup-erase site site adapters, text_eq_refl site),
  ground (arith, lookup-erase other site adapters, text_eq_iff site other),
)
