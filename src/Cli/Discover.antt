-- ===== src/Cli/Discover.antt =====
-- The command `discover` of src/pricewatch/cli.py, once the config is loaded.
use pricewatch.Base.{
  ℕ, zero, Option, some, List, [], ◌∷◌, ◌++◌, Text, codes, map, take, if◌then◌else◌,
}
use mathlib.Core.Option
use pricewatch.Redaction.Value.{decimal}
use pricewatch.Errors.{Result, ok, err}
use pricewatch.Config.Model.{Config, account}
use pricewatch.Session.Crypto.{Fernet, load_or_create}
use pricewatch.Session.Files.{Disk}
use pricewatch.Capture.Summary.{Row}
use pricewatch.Commands.Discover.{Tools, Browsing, DiscoverResult, run_discover}
use pricewatch.Cli.Output.{Line, out, Printed, finished, raises, pad_left, pad_right}
use pricewatch.Cli.Session.{Files}

-- `",".join(…)`
unfoldable pub join_statuses : List ℕ → Text
unfolding decimal
join_statuses [] = []
join_statuses (n ∷ []) = decimal n
join_statuses (n ∷ m ∷ ns) = decimal n ++ codes "," ++ join_statuses (m ∷ ns)

-- The line of an endpoint.
unfoldable pub row_line : Row → Line
unfolding join_statuses decimal
row_line r = out (
    codes "  "
    ++ pad_right 7 r.endpoint.method
    ++ codes " "
    ++ pad_right 10 (join_statuses r.statuses)
    ++ codes " "
    ++ pad_left 8 (decimal r.max_body_bytes)
    ++ codes "  "
    ++ pad_right 5 (if r.json then codes "yes" else codes "no")
    ++ codes " "
    ++ r.endpoint.host
    ++ r.endpoint.path)

abbrev pub skipped_lines : ℕ → List Line
skipped_lines zero = []
skipped_lines n = out (codes "  " ++ decimal n ++ codes " skipped (cap reached or unreadable)") ∷ []

abbrev pub endpoint_header : Text
endpoint_header =
    codes "  "
    ++ pad_right 7 (codes "METHOD")
    ++ codes " "
    ++ pad_right 10 (codes "STATUS")
    ++ codes " "
    ++ pad_left 8 (codes "BYTES")
    ++ codes "  "
    ++ pad_right 5 (codes "JSON")
    ++ codes " ENDPOINT"

abbrev pub opening_lines : List Line
opening_lines =
    out (codes "Navigate to your saved-items page in the browser window that opens.")
    ∷ out (codes "Everything it fetches is recorded and redacted as it arrives.")
    ∷ []

-- What is printed of the result.
unfoldable pub result_lines : DiscoverResult → List Line
unfolding decimal row_line
result_lines r =
    out (codes "capture written to " ++ r.capture_path)
    ∷ out (codes "  " ++ decimal r.exchange_count ++ codes " exchange(s) recorded")
    ∷ (skipped_lines r.skipped
        ++ out (codes "\nLikeliest saved-items endpoints first:")
          ∷ out endpoint_header
          ∷ (map row_line (take 15 r.summary)
              ++ (out (
                    codes "\nValues that looked like credentials or PII were removed at capture "
                    ++ codes "time; JSON keys and structure are intact. Review the file before "
                    ++ codes "sharing it.")
                  ∷ [])))

abbrev pub discover_printed : Result DiscoverResult → Printed
discover_printed (ok r) = record { lines = opening_lines ++ result_lines r; ending = finished }
discover_printed (err e) = record { lines = opening_lines; ending = raises e }

module _ (t : Tools) (f : Fernet) (generated : List ℕ) where
  -- `discover`; nothing when it still waits for the lock.
  unfoldable pub discover :
      (captures_dir : Text)
      → Option Text
      → Browsing
      → (holder : Text) → Text
      → Config
      → Files
      → Disk
      → Option Printed × (Files × Disk)
  unfolding account load_or_create run_discover result_lines
  discover captures_dir out_path w holder name config files captures = elim (account config name) [
    | err e ↦ (some (record { lines = []; ending = raises e }), (files, captures))
    | ok a ↦
        let (opened, keys) = load_or_create f generated files.keys in
        let files' = record files { keys = keys } in
        elim opened [
          | err e ↦ (some (record { lines = []; ending = raises e }), (files', captures))
          | ok crypto ↦
              let (r, captures') = run_discover t a.name captures_dir out_path w holder captures in
              (Option.map discover_printed r, (files', captures'))
        ]
  ]
