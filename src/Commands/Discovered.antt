-- ===== src/Commands/Discovered.antt =====
-- What a run of `run_discover` in src/pricewatch/commands/discover.py leaves behind.
use pricewatch.Base.{
  ◌⊎◌, text_eq, ◌≡◌, ◌≤◌, refl, Bool, true, false, not, Option, none, some, List, Text, arith,
  is_empty, length, if◌then◌else◌, All, all, Bool-cases, inl, inr, ◌∙◌, ℕ, take,
}
use pricewatch.Base.Dict.{lookup, text_key}
use pricewatch.Errors.{Result, ok, err, cancelled, other, ◌>>=◌}
use pricewatch.Redaction.Value.{Value}
use pricewatch.Redaction.Scrubbed.{IsScrubbed}
use pricewatch.Session.Files.{Disk, perform_all, perform, touched, put}
use pricewatch.Session.Stages.{start, written_self, lookup-write, lookup-touched}
use pricewatch.Session.Lock.{acquire}
use pricewatch.Capture.Recorder.{Recorder, max_exchanges}
use pricewatch.Capture.Recorded.{browse-IsSafe, IsSafe}
use pricewatch.Capture.Summary.{Row, summary}
use pricewatch.Capture.Ranked.{total_calls, IsRanked, summary-IsRanked, is_split}
use pricewatch.Capture.Document.{document, write, write_steps, Writing, whole, untouched, partial}
use pricewatch.Commands.Discover.{
  Tools, Browsing, DiscoverResult, new_recorder, target_path, recorded, reported, finish_discover,
  discover_under, run_discover,
}

module _ (t : Tools) (account captures_dir : Text) (out_path : Option Text) (w : Browsing) where
  abbrev pub exchanges : List Value
  exchanges = (recorded t account captures_dir out_path w).exchanges

  abbrev pub path_of : Text
  path_of = target_path t account captures_dir out_path w

  -- The document of the capture, as it stands in a file.
  abbrev pub document_bytes : List ℕ
  document_bytes =
      t.encode (t.decoder.dumps (document w.capture (recorded t account captures_dir out_path w)))

  -- These bytes of a capture are written: there are exchanges, not more than the cap and each
  -- scrubbed, the file holds the bytes, and a file that was not there before is private. No other
  -- file changes.
  pub record Captured (bytes : List ℕ) (disk disk' : Disk) : Type 0 where
    pub something : is_empty exchanges ≡ false
    pub capped : length exchanges ≤ max_exchanges
    pub scrubbed : All (IsScrubbed t.unicode) exchanges
    pub file :
        lookup path_of disk' ≡ some (record (start (lookup path_of disk)) { content = bytes })
    pub others : (p : Text) → text_eq path_of p ≡ false → lookup p disk' ≡ lookup p disk

  recorded-IsSafe :
      IsSafe t.unicode t.decoder max_exchanges (recorded t account captures_dir out_path w)
  unfolding recorded
  recorded-IsSafe =
      browse-IsSafe t.unicode t.decoder w.responses new_recorder (refl, omega arith, tt)

  put-Captured :
      (bytes : List ℕ) (disk : Disk)
      → is_empty exchanges ≡ false
      → Captured bytes disk (put path_of bytes (touched path_of (lookup path_of disk) disk))
  put-Captured bytes disk h =
      let (same, short, safe) = recorded-IsSafe in
      record {
        something = h;
        capped = short;
        scrubbed = safe;
        file = written_self path_of path_of bytes disk;
        others = λ p apart.
            lookup-write p path_of bytes (touched path_of (lookup path_of disk) disk) apart
            ∙ lookup-touched p path_of (lookup path_of disk) disk apart;
      }

  -- What a run may come to.
  abbrev pub Discovered : Disk → Option (Result DiscoverResult) × Disk → Type 0
  Discovered disk (none, disk') = disk' ≡ disk
  Discovered disk (some (err e), disk') =
      (disk' ≡ disk)
      ⊎ ((e ≡ other)
          × (((all (is_split t.urlsplit) exchanges ≡ false) × Captured document_bytes disk disk')
              ⊎ ((n : ℕ) × Captured (take n document_bytes) disk disk')))
  Discovered disk (some (ok r), disk') =
      (w.confirmed ≡ true)
      × (r.capture_path ≡ path_of)
      × (r.exchange_count ≡ length exchanges)
      × (total_calls r.summary ≡ r.exchange_count)
      × Captured document_bytes disk disk'

  reported-Discovered :
      (disk disk' : Disk) (o : Option (List Row))
      → w.confirmed ≡ true
      → Captured document_bytes disk disk'
      → IsRanked t.urlsplit exchanges o
      → Discovered disk
          (some (reported account path_of (recorded t account captures_dir out_path w) o), disk')
  reported-Discovered disk disk' none h c r = inr (refl, inl (r, c))
  reported-Discovered disk disk' (some rows) h c r = (h, refl, refl, r.1, c)

  finish-Discovered :
      (disk : Disk)
      → w.confirmed ≡ true
      → let done =
          finish_discover t account captures_dir out_path w
            (recorded t account captures_dir out_path w)
            disk in
        Discovered disk (some (done.0), done.1)
  unfolding finish_discover write write_steps perform_all perform
  finish-Discovered disk h = elim (Bool-cases (is_empty exchanges)) [
    | inl e ↦ rw e (inl refl)
    | inr e ↦ rw e (go w.writing e)
  ]
    where
      c : Recorder
      c = recorded t account captures_dir out_path w

      go :
          (x : Writing)
          → is_empty exchanges ≡ false
          → let (r, disk') = write t.decoder t.encode path_of w.capture c x disk in
            Discovered disk
              (some (r >>= λ _. reported account path_of c (summary t.urlsplit exchanges)), disk')
      go whole e =
          reported-Discovered disk _ (summary t.urlsplit exchanges) h
            (put-Captured document_bytes disk e) (summary-IsRanked t.urlsplit exchanges)
      go untouched e = inl refl
      go (partial n) e = inr (refl, inr (n, put-Captured (take n document_bytes) disk e))

  under-Discovered :
      (o : Option (Result (Unit {0}))) (disk : Disk)
      → Discovered disk (discover_under t account captures_dir out_path w o disk)
  unfolding discover_under
  under-Discovered none disk = refl
  under-Discovered (some (err e)) disk = inl refl
  under-Discovered (some (ok _)) disk = page w.page
    where
      confirm :
          (b : Bool)
          → w.confirmed ≡ b
          → Discovered disk (
              if not b
              then (some (err cancelled), disk)
              else let (r, disk') =
                  finish_discover t account captures_dir out_path w
                    (recorded t account captures_dir out_path w)
                    disk in
                (some r, disk'))
      confirm false h = inl refl
      confirm true h = finish-Discovered disk h

      page :
          (p : Result (Unit {0}))
          → Discovered disk (elim p [
            | err e ↦ (some (err e), disk)
            | ok _ ↦
                if not w.confirmed
                then (some (err cancelled), disk)
                else let (r, disk') =
                    finish_discover t account captures_dir out_path w
                      (recorded t account captures_dir out_path w)
                      disk in
                  (some r, disk')
          ])
      page (err e) = inl refl
      page (ok _) = confirm w.confirmed refl

  -- Of the files of the captures, those of the lock and of the browser's profile not counted: a
  -- `discover` that waits or raises changes none, except that it may raise in writing the capture,
  -- and then the file holds some first bytes of the document, or on an address that `urlsplit`
  -- refuses, and then the whole capture is written. One that returns was confirmed, has written the
  -- capture to the path that it reports, and the calls of its summary add up to the exchanges. What
  -- is written has at least one exchange and not more than the cap, each scrubbed; a new file is
  -- private, and no other file changes.
  pub run_discover-Discovered :
      (holder : Text) (disk : Disk)
      → Discovered disk (run_discover t account captures_dir out_path w holder disk)
  unfolding run_discover
  run_discover-Discovered holder disk = under-Discovered (acquire holder w.deadline w.attempts) disk
