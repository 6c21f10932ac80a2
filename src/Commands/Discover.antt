-- ===== src/Commands/Discover.antt =====
-- `run_discover` of src/pricewatch/commands/discover.py. The browser is what it answers: whether the
-- page opens, the responses that arrive until the context closes, and the operator's reply.
use pricewatch.Base.{
  ℕ, Bool, not, Option, none, some, List, [], ◌++◌, Text, codes, is_empty, length, if◌then◌else◌,
}
use pricewatch.Base.Unicode.{Unicode}
use pricewatch.Errors.{Result, ok, err, cancelled, nothing_recorded, other, ◌>>=◌}
use pricewatch.Session.Files.{Disk}
use pricewatch.Session.Lock.{Attempt, acquire}
use pricewatch.Capture.Recorder.{Decoder, Response, Recorder, max_exchanges, browse}
use pricewatch.Capture.Summary.{Row, summary}
use pricewatch.Capture.Document.{Capture, Writing, write}

-- What stands outside: Python's Unicode tables, JSON and UTF-8, and `urlsplit`.
pub record Tools : Type 0 where
  pub unicode : Unicode
  pub decoder : Decoder
  pub encode : Text → List ℕ
  pub urlsplit : Text → Option (Text × Text)

-- What the world answers while the command runs.
pub record Browsing : Type 0 where
  pub attempts : List Attempt
  pub deadline : ℕ
  -- launching the browser and going to the page
  pub page : Result (Unit {0})
  pub responses : List Response
  pub confirmed : Bool
  -- `utcnow().strftime("%Y%m%dT%H%M%SZ")`
  pub stamp : Text
  pub capture : Capture
  pub writing : Writing

pub record DiscoverResult : Type 0 where
  pub account : Text
  pub capture_path : Text
  pub exchange_count : ℕ
  pub skipped : ℕ
  pub summary : List Row

-- `CaptureRecorder()`
abbrev pub new_recorder : Recorder
new_recorder = record { max_exchanges = max_exchanges; exchanges = []; skipped = 0 }

-- `_default_path`, below `captures_dir`.
unfoldable pub default_path : Text → Text → Text → Text
default_path captures_dir account stamp =
    captures_dir ++ codes "/" ++ account ++ codes "-" ++ stamp ++ codes ".json"

abbrev pub path_or : Option Text → Text → Text
path_or (some path) default = path
path_or none default = default

-- How the summary ends the command.
abbrev pub reported : Text → Text → Recorder → Option (List Row) → Result DiscoverResult
reported account path c none = err other
reported account path c (some rows) = ok (record {
  account = account;
  capture_path = path;
  exchange_count = length c.exchanges;
  skipped = c.skipped;
  summary = rows;
})

module _ (t : Tools) (account captures_dir : Text) (out_path : Option Text) (w : Browsing) where
  unfoldable pub target_path : Text
  unfolding default_path
  target_path = path_or out_path (default_path captures_dir account w.stamp)

  -- What the recorder holds when the context has closed.
  unfoldable pub recorded : Recorder
  unfolding browse
  recorded = browse t.unicode t.decoder w.responses new_recorder

  -- What follows the browser.
  unfoldable pub finish_discover : Recorder → Disk → Result DiscoverResult × Disk
  unfolding write summary
  finish_discover c disk =
      if is_empty c.exchanges
      then (err nothing_recorded, disk)
      else (let (r, disk') = write t.decoder t.encode target_path w.capture c w.writing disk in
          (r >>= λ _. reported account target_path c (summary t.urlsplit c.exchanges), disk'))

  -- What is done under the lock, once it is decided who has it.
  unfoldable pub discover_under :
      Option (Result (Unit {0})) → Disk → Option (Result DiscoverResult) × Disk
  unfolding finish_discover recorded
  discover_under none disk = (none, disk)
  discover_under (some (err e)) disk = (some (err e), disk)
  discover_under (some (ok _)) disk = elim w.page [
    | err e ↦ (some (err e), disk)
    | ok _ ↦
        if not w.confirmed
        then (some (err cancelled), disk)
        else let (r, disk') = finish_discover recorded disk in (some r, disk')
  ]

  -- `run_discover`; nothing while it still waits for the lock.
  unfoldable pub run_discover : Text → Disk → Option (Result DiscoverResult) × Disk
  unfolding discover_under acquire
  run_discover holder disk = discover_under (acquire holder w.deadline w.attempts) disk
