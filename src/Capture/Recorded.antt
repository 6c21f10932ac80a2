-- ===== src/Capture/Recorded.antt =====
-- What the recorder of src/pricewatch/capture.py holds after any browse.
use pricewatch.Base.{
  ℕ, ◌+◌, ◌≤◌, ◌≡◌, refl, Bool, true, false, not, Option, none, some, List, [], ◌∷◌, Text, arith,
  All, All-append, filter, length, length-append, mem, leb, if◌then◌else◌,
}
use pricewatch.Base.Unicode.{Unicode}
use pricewatch.Redaction.Value.{Value, redact}
use pricewatch.Redaction.Scrubbed.{IsScrubbed, redact-IsScrubbed}
use pricewatch.Capture.Recorder.{
  Decoder, Response, Recorder, recorded_resource_types, read_body, append_exchange, record_read,
  or_skip, Body, exchange_of, record_response, on_response, browse,
}

-- The resource types that are recorded.
abbrev pub is_recorded : Response → Bool
is_recorded r = mem r.resource_type recorded_resource_types

module _ (u : Unicode) (d : Decoder) where
  -- What a handled response may do to a recorder.
  pub data Handled (r : Response) (c : Recorder) : Recorder → Type 0 where
    ignored : is_recorded r ≡ false → Handled r c c
    dropped : is_recorded r ≡ true → Handled r c (record c { skipped = c.skipped + 1 })
    appended :
        (v : Value)
        → is_recorded r ≡ true
        → leb c.max_exchanges (length c.exchanges) ≡ false
        → Handled r c (append_exchange u d v c)

  read-Handled :
      (r : Response) (b : Option Body) (p : Option (Option Text)) (c : Recorder)
      → is_recorded r ≡ true
      → leb c.max_exchanges (length c.exchanges) ≡ false
      → Handled r c (or_skip u d (record_read u d r b p c) c)
  unfolding record_read
  read-Handled r none p c h k = dropped h
  read-Handled r (some b) none c h k = dropped h
  read-Handled r (some b) (some p) c h k = appended (exchange_of u d r p b) h k

  guarded :
      (r : Response) (c : Recorder) (x y : Bool) (o : Option Recorder)
      → is_recorded r ≡ x
      → leb c.max_exchanges (length c.exchanges) ≡ y
      → (x ≡ true → y ≡ false → Handled r c (or_skip u d o c))
      → Handled r c (
          or_skip u d
            (if not x then some c else if y then some (record c { skipped = c.skipped + 1 }) else o)
            c)
  guarded r c false y o h k f = ignored h
  guarded r c true true o h k f = dropped h
  guarded r c true false o h k f = f refl refl

  -- Whatever the response is and whatever raises, handling it does one of three things: it is of a
  -- type that is not recorded and nothing changes; or it is counted as skipped; or, below the cap,
  -- one redacted exchange is appended.
  pub on_response-Handled : (r : Response) (c : Recorder) → Handled r c (on_response u d r c)
  unfolding on_response record_response
  on_response-Handled r c =
      guarded r c (is_recorded r) (leb c.max_exchanges (length c.exchanges))
        (record_read u d r (read_body u d r) r.post_data c) refl refl
        (read-Handled r (read_body u d r) r.post_data c)

  -- What holds of a recorder, at its cap.
  abbrev pub IsSafe : ℕ → Recorder → Type 0
  IsSafe bound c =
      (c.max_exchanges ≡ bound) × (length c.exchanges ≤ bound) × All (IsScrubbed u) c.exchanges

  Handled-IsSafe :
      (bound : ℕ) (r : Response) (c c' : Recorder)
      → Handled r c c'
      → IsSafe bound c
      → IsSafe bound c'
  unfolding append_exchange
  Handled-IsSafe bound r c c' (ignored h) safe = safe
  Handled-IsSafe bound r c c' (dropped h) safe = safe
  Handled-IsSafe bound r c c' (appended v h k) (same, short, scrubbed) = (
    same,
    ground (arith, length-append c.exchanges (redact u 0 v ∷ [])),
    All-append (IsScrubbed u) c.exchanges (redact u 0 v ∷ []) scrubbed
        (redact-IsScrubbed u 0 v, tt),
  )

  Handled-count :
      (r : Response) (c c' : Recorder)
      → Handled r c c'
      → length c'.exchanges + c'.skipped
        ≡ length c.exchanges + c.skipped + (if is_recorded r then 1 else 0)
  unfolding append_exchange
  Handled-count r c c' (ignored h) = rw h (omega arith)
  Handled-count r c c' (dropped h) = rw h (omega arith)
  Handled-count r c c' (appended v h k) =
      rw h (omega (arith, length-append c.exchanges (redact u 0 v ∷ [])))

  -- After any sequence of responses a recorder that was safe is safe: it holds no more exchanges
  -- than its cap, and in each, the keys of mappings aside, there are no bytes and no object, each
  -- text is what the seven patterns make of some text, or a mark, and each value under a sensitive
  -- key is the mark.
  pub browse-IsSafe :
      (rs : List Response) (c : Recorder)
      → IsSafe c.max_exchanges c
      → IsSafe c.max_exchanges (browse u d rs c)
  unfolding browse
  browse-IsSafe rs c safe = go c.max_exchanges rs c safe
    where
      go :
          (bound : ℕ) (rs : List Response) (c : Recorder)
          → IsSafe bound c
          → IsSafe bound (browse u d rs c)
      go bound [] c safe = safe
      go bound (r ∷ rs) c safe =
          go bound rs (on_response u d r c)
            (Handled-IsSafe bound r c _ (on_response-Handled r c) safe)

  -- After any sequence of responses, the exchanges recorded and skipped have grown by the number
  -- of responses of a recorded type: none is lost without being counted.
  pub browse-counts :
      (rs : List Response) (c : Recorder)
      → length ((browse u d rs c).exchanges) + (browse u d rs c).skipped
        ≡ length c.exchanges + c.skipped + length (filter is_recorded rs)
  unfolding browse
  browse-counts [] c = omega arith
  browse-counts (r ∷ rs) c = ground (
    arith,
    browse-counts rs (on_response u d r c),
    Handled-count r c (on_response u d r c) (on_response-Handled r c),
  )
