-- ===== src/Adapters/Sites.antt =====
-- The sites that src/pricewatch/adapters knows of, and those that it has an adapter for.
use pricewatch.Base.{Option, none, List, [], ◌∷◌, ◌++◌, Text, codes, map, text_le}
use pricewatch.Base.Sort.{sort}
use pricewatch.Base.Dict.{Dict}

pub record SiteProfile : Type 0 where
  pub site_id : Text
  pub display_name : Text
  pub home_url : Option Text
  pub notes : Text

-- `AdapterRegistry.site_ids`
unfoldable pub site_ids : {Adapter : Type 0} → Dict Text Adapter → List Text
unfolding sort
site_ids adapters = sort text_le (map (λ e. e.0) adapters)

-- `KNOWN_SITES`
abbrev pub known_sites : Dict Text SiteProfile
known_sites =
    (
      codes "asos",
      record {
        site_id = codes "asos";
        display_name = codes "ASOS";
        home_url = none;
        notes =
            codes "Fronted by a bot-management layer whose cookies are tied to the TLS "
            ++ codes "fingerprint that earned them, and account identity is expected to involve a "
            ++ codes "token in localStorage rather than cookies alone. Whether the HTTP fast path "
            ++ codes "is usable is an open question that only a capture can settle.";
      },
    )
    ∷ (
      codes "freepeople",
      record {
        site_id = codes "freepeople";
        display_name = codes "Free People";
        home_url = none;
        notes = codes "Lighter protection expected than ASOS; session-cookie replay is plausible.";
      },
    )
    ∷ []
