-- ===== src/Logging/Emitted.antt =====
-- What the renderers of src/pricewatch/logging.py get to see.
use pricewatch.Base.{
  ◌≡◌, refl, ◌≢◌, Bool, true, false, Option, none, some, Text, codes, ltb, if◌then◌else◌, text_eq,
  text_eq_iff, subst, sym,
}
use pricewatch.Base.Unicode.{Unicode}
use pricewatch.Config.Model.{LogLevel}
use pricewatch.Redaction.Keys.{is_sensitive_key}
use pricewatch.Redaction.Patterns.{redacted}
use pricewatch.Redaction.Value.{
  Value, Entries, str, mapping, end, str_key, other_key, redact, redacts_key, get_entry,
}
use pricewatch.Redaction.Scrubbed.{
  IsScrubbed, AreScrubbedEntries, end_ok, entry_ok, mapping_ok, redact-IsScrubbed,
}
use pricewatch.Logging.{
  Structlog, redaction_processor, level_number, configure_logging, run_chain, emit, entries_of,
}

module _ (u : Unicode) where
  -- A value under a key shows nothing that redaction takes out.
  abbrev pub ShowsNothing : Text → Option Value → Type 0
  ShowsNothing k none = Unit
  ShowsNothing k (some v) = IsScrubbed u v × (is_sensitive_key u k ≡ true → v ≡ str redacted)

  get_entry-ShowsNothing :
      (k : Text) (es : Entries) → AreScrubbedEntries u es → ShowsNothing k (get_entry k es)
  unfolding get_entry redacts_key
  get_entry-ShowsNothing k end end_ok = tt
  get_entry-ShowsNothing k _ (entry_ok (other_key n) v es r s rest) =
      get_entry-ShowsNothing k es rest
  get_entry-ShowsNothing k _ (entry_ok (str_key j) v es r s rest) =
      go (get_entry-ShowsNothing k es rest) (text_eq j k) refl
    where
      go :
          ShowsNothing k (get_entry k es)
          → (b : Bool) → text_eq j k ≡ b
          → ShowsNothing k (if b then some v else get_entry k es)
      go later true e =
          (s, subst (λ i. is_sensitive_key u i ≡ true → v ≡ str redacted) ((text_eq_iff j k).0 e) r)
      go later false e = later

  entries_of-scrubbed : (v : Value) → IsScrubbed u v → AreScrubbedEntries u (entries_of v)
  entries_of-scrubbed v (mapping_ok es h) = h
  entries_of-scrubbed v _ = end_ok

  redaction_processor-ShowsNothing :
      (k : Text) (es : Entries) → ShowsNothing k (get_entry k (redaction_processor u es))
  unfolding redaction_processor
  redaction_processor-ShowsNothing k es =
      get_entry-ShowsNothing k _
        (entries_of-scrubbed (redact u 0 (mapping es)) (redact-IsScrubbed u 0 (mapping es)))

  module _ (s : Structlog) where
    -- What a call of a logging method writes.
    abbrev pub Emits : (level method : LogLevel) → Option Bool → Bool → Option Text → Type 0
    Emits level method force_json isatty none =
        ltb (level_number method) (level_number level) ≡ true
    Emits level method force_json isatty (some t) =
        (ltb (level_number method) (level_number level) ≡ false)
        × ((seen : Entries) × (t ≡ (configure_logging s u level force_json isatty).renderer seen)
            × ((k : Text) → k ≢ codes "timestamp" → ShowsNothing k (get_entry k seen)))

    -- A call below the configured level writes nothing. Any other writes what the renderer makes of
    -- a dictionary in which, under each key but the time stamp's, the value is scrubbed, and is
    -- `REDACTED` where the key is sensitive: whatever the caller and structlog's processors have put
    -- there. The time stamper changes no other key.
    pub emit-Emits :
        (level method : LogLevel) (force_json : Option Bool) (isatty : Bool) (es : Entries)
        → ((k : Text) (d : Entries)
            → k ≢ codes "timestamp"
            → get_entry k (s.add_timestamp d) ≡ get_entry k d)
        → Emits level method force_json isatty
            (emit (configure_logging s u level force_json isatty) method es)
    unfolding emit run_chain configure_logging
    emit-Emits level method force_json isatty es only =
        go (ltb (level_number method) (level_number level)) refl
      where
        before : Entries
        before = s.format_exc_info (s.stack_info (s.add_log_level (s.merge_contextvars es)))

        go :
            (b : Bool)
            → ltb (level_number method) (level_number level) ≡ b
            → Emits level method force_json isatty (
                if b
                then none
                else some (
                    (configure_logging s u level force_json isatty).renderer
                      (s.add_timestamp (redaction_processor u before))))
        go true e = e
        go false e = (
          e,
          (
            s.add_timestamp (redaction_processor u before),
            refl,
            λ k apart.
                subst (ShowsNothing k) (sym (only k (redaction_processor u before) apart))
                  (redaction_processor-ShowsNothing k before),
          ),
        )
