-- ===== src/Logging.antt =====
-- src/pricewatch/logging.py: the chain of processors, and what it emits. The processors of structlog
-- are parameters, as functions on the event dictionary.
use pricewatch.Base.{
  ℕ, ◌≡◌, Bool, true, false, not, Option, none, some, List, [], ◌∷◌, Text, codes, ltb,
  if◌then◌else◌,
}
use pricewatch.Base.Unicode.{Unicode}
use pricewatch.Config.Model.{LogLevel, debug, info, warning, error}
use pricewatch.Redaction.Value.{Value, Entries, mapping, end, redact}
pub mod Emitted
mod Tests

abbrev pub Processor : Type 0
Processor = Entries → Entries

pub record Structlog : Type 0 where
  pub merge_contextvars : Processor
  pub add_log_level : Processor
  pub stack_info : Processor
  pub format_exc_info : Processor
  pub add_timestamp : Processor
  pub json_renderer : Entries → Text
  pub console_renderer : (colors : Bool) → Entries → Text

abbrev pub entries_of : Value → Entries
entries_of (mapping es) = es
entries_of v = end

-- `redaction_processor`
unfoldable pub redaction_processor : Unicode → Processor
unfolding redact
redaction_processor u es = entries_of (redact u 0 (mapping es))

-- `logging.getLevelNamesMapping()`
unfoldable pub level_number : LogLevel → ℕ
level_number debug = 10
level_number info = 20
level_number warning = 30
level_number error = 40

pub record Configuration : Type 0 where
  pub processors : List Processor
  pub renderer : Entries → Text
  pub min_level : ℕ

module _ (s : Structlog) (u : Unicode) where
  -- `configure_logging`
  unfoldable pub configure_logging : LogLevel → Option Bool → (isatty : Bool) → Configuration
  unfolding redaction_processor level_number
  configure_logging level force_json isatty =
      let use_json : Bool = elim force_json [ none ↦ not isatty | some b ↦ b ] in
      record {
        processors =
            s.merge_contextvars
            ∷ s.add_log_level
            ∷ s.stack_info
            ∷ s.format_exc_info
            ∷ redaction_processor u
            ∷ s.add_timestamp
            ∷ [];
        renderer = if use_json then s.json_renderer else s.console_renderer isatty;
        min_level = level_number level;
      }

-- A chain passes the dictionary from processor to processor.
unfoldable pub run_chain : List Processor → Entries → Entries
run_chain [] es = es
run_chain (p ∷ ps) es = run_chain ps (p es)

-- What a call of a logging method writes: nothing below the level.
unfoldable pub emit : Configuration → LogLevel → Entries → Option Text
unfolding run_chain level_number
emit c method es =
    if ltb (level_number method) c.min_level
    then none
    else some (c.renderer (run_chain c.processors es))
