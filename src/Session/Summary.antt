-- ===== src/Session/Summary.antt =====
-- `StoredSession.summary` of src/pricewatch/session/store.py. How times are written is a parameter.
use pricewatch.Base.{ℕ, Option, none, some, List, Text, length}
use pricewatch.Session.Stored.{
  Floats, StoredSession, cookie_names, origin_urls, local_storage_keys, earliest_expiry,
}

pub record SessionSummary : Type 0 where
  pub account : Text
  pub session_captured_at : Text
  pub cookie_count : ℕ
  pub names : List Text
  pub origins : List Text
  pub storage_keys : List Text
  pub session_expires_at : Option Text

-- `isoformat(timespec="seconds")`, of the time of capture and of a number of seconds.
pub record Times (fl : Floats) : Type 0 where
  pub to_seconds : Text → Text
  pub from_timestamp : fl.F → Text

module _ {fl : Floats} (times : Times fl) where
  abbrev pub written_time : Option fl.F → Option Text
  written_time none = none
  written_time (some e) = some (times.from_timestamp e)

  unfoldable pub summary : StoredSession fl → SessionSummary
  unfolding cookie_names origin_urls local_storage_keys earliest_expiry
  summary s = record {
    account = s.account;
    session_captured_at = times.to_seconds s.captured_at;
    cookie_count = length s.cookies;
    names = cookie_names fl s;
    origins = origin_urls fl s;
    storage_keys = local_storage_keys fl s;
    session_expires_at = written_time (earliest_expiry fl s);
  }
