-- ===== src/Logging/Tests.antt =====
-- An event with a password in it, and the theorem at it.
use pricewatch.Base.{
  ◌≡◌, ◌≢◌, refl, true, none, [], Text, codes, text_eq, text_eq_iff, sym, Bool-cases, inl, inr,
}
use pricewatch.Base.Unicode.{ascii}
use pricewatch.Config.Model.{info, warning}
use pricewatch.Redaction.Value.{Entries, str, end, entry, str_key, get_entry}
use pricewatch.Logging.{Structlog, configure_logging, emit}
use pricewatch.Logging.Emitted.{Emits, emit-Emits}

abbrev stamped : Entries → Entries
stamped es = entry (str_key (codes "timestamp")) (str (codes "2026-01-01T00:00:00Z")) es

abbrev first_text : Entries → Text
first_text (entry k (str t) es) = t
first_text es = []

abbrev chain : Structlog
chain = record {
  merge_contextvars = λ es. es;
  add_log_level = λ es. entry (str_key (codes "level")) (str (codes "warning")) es;
  stack_info = λ es. es;
  format_exc_info = λ es. es;
  add_timestamp = stamped;
  json_renderer = first_text;
  console_renderer = λ colors. first_text;
}

abbrev event : Entries
event = entry (str_key (codes "password")) (str (codes "hunter2")) end

stamped_only :
    (k : Text) (es : Entries) → k ≢ codes "timestamp" → get_entry k (stamped es) ≡ get_entry k es
unfolding get_entry
stamped_only k es apart = elim (Bool-cases (text_eq (codes "timestamp") k)) [
  | inl e ↦ absurd (apart (sym ((text_eq_iff (codes "timestamp") k).0 e)))
  | inr e ↦ rw e refl
]

emit-Emits_example :
    Emits ascii chain info warning none true
      (emit (configure_logging chain ascii info none true) warning event)
emit-Emits_example = emit-Emits ascii chain info warning none true event stamped_only
