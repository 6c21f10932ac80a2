-- ===== src/Capture/Recorder.antt =====
-- `CaptureRecorder` of src/pricewatch/capture.py. Playwright's responses are records of what they
-- answer, and the decoding of JSON and UTF-8 is a parameter.
use pricewatch.Base.{
  ℕ, ◌+◌, ◌&&◌, Bool, false, not, Option, none, some, List, [], ◌∷◌, ◌++◌, Text, codes, contains,
  mem, length, take, ltb, leb, if◌then◌else◌,
}
use pricewatch.Base.Unicode.{Unicode}
use pricewatch.Base.Int.{pos}
use pricewatch.Redaction.Patterns.{redact_text}
use pricewatch.Redaction.Value.{
  str_key, Value, Entries, null, bool, int, str, mapping, end, entry, redact,
}

-- What `json.loads` does: a value, a `JSONDecodeError`, or another exception.
pub data Loaded : Type 0 where
  loaded : Value → Loaded
  malformed too_deep : Loaded

pub record Decoder : Type 0 where
  -- `bytes.decode("utf-8", errors="replace")`
  pub decode : List ℕ → Text
  pub loads : Text → Loaded
  -- `json.dumps(…, indent=2)`
  pub dumps : Value → Text

-- A response and its request. An outer `none` is a call that raises.
pub record Response : Type 0 where
  pub resource_type : Text
  pub method : Text
  pub url : Text
  pub post_data : Option (Option Text)
  pub request_headers : Option (List (Text × Text))
  pub status : ℕ
  pub response_headers : Option (List (Text × Text))
  pub content_type : Option (Option Text)
  pub body : Option (List ℕ)

-- `RECORDED_RESOURCE_TYPES`
abbrev pub recorded_resource_types : List Text
recorded_resource_types = codes "xhr" ∷ codes "fetch" ∷ codes "document" ∷ []

abbrev pub max_json_body_bytes : ℕ
max_json_body_bytes = 400000

abbrev pub max_text_body_bytes : ℕ
max_text_body_bytes = 40000

abbrev pub max_exchanges : ℕ
max_exchanges = 500

pub record Recorder : Type 0 where
  pub max_exchanges : ℕ
  pub exchanges : List Value
  pub skipped : ℕ

-- A body as it is recorded: the text, whether it was cut, and the format.
pub record Body : Type 0 where
  pub text : Option Text
  pub truncated : Bool
  pub format : Text

abbrev pub no_body : Body
no_body = record { text = none; truncated = false; format = codes "none" }

abbrev pub header_entries : List (Text × Text) → Entries
header_entries [] = end
header_entries ((k, v) ∷ hs) = entry (str_key k) (str v) (header_entries hs)

-- `_safe_headers`
unfoldable pub safe_headers : Option (List (Text × Text)) → Value
safe_headers none = mapping end
safe_headers (some hs) = mapping (header_entries hs)

abbrev pub text_or_null : Option Text → Value
text_or_null none = null
text_or_null (some t) = str t

module _ (u : Unicode) (d : Decoder) where
  unfoldable pub is_json : Option Text → Bool
  is_json none = false
  is_json (some t) = contains (u.lower t) (codes "json")

  abbrev pub limit_of : Bool → ℕ
  limit_of json = if json then max_json_body_bytes else max_text_body_bytes

  -- The body as text, once its structure cannot be read.
  unfoldable pub as_text : Bool → List ℕ → Body
  as_text json raw = record {
    text = some (redact_text u (d.decode (take (limit_of json) raw)));
    truncated = ltb (limit_of json) (length raw);
    format = if json then codes "json" else codes "text";
  }

  -- `_read_body` for a body that is not empty; nothing when it raises.
  unfoldable pub read_raw : Bool → List ℕ → Option Body
  unfolding as_text
  read_raw json raw =
      if json && not (ltb (limit_of json) (length raw))
      then elim (d.loads (d.decode (take (limit_of json) raw))) [
        | loaded v ↦ some (record {
          text = some (d.dumps (redact u 0 v));
          truncated = false;
          format = codes "json";
        })
        | malformed ↦ some (as_text json raw)
        | too_deep ↦ none
      ]
      else some (as_text json raw)

  -- `_read_body`
  unfoldable pub read_body : Response → Option Body
  unfolding read_raw is_json
  read_body r = elim r.content_type [
    | none ↦ none
    | some content_type ↦ elim r.body [
      | none ↦ some no_body
      | some [] ↦ some no_body
      | some (b ∷ bs) ↦ read_raw (is_json content_type) (b ∷ bs)
    ]
  ]

  -- The dictionary that `_record` makes.
  unfoldable pub exchange_of : Response → Option Text → Body → Value
  unfolding safe_headers
  exchange_of r post_data b = mapping (
      entry (str_key (codes "method")) (str r.method) (
        entry (str_key (codes "url")) (str r.url) (
          entry (str_key (codes "resource_type")) (str r.resource_type) (
            entry (str_key (codes "status")) (int (pos r.status)) (
              entry (str_key (codes "request_headers")) (safe_headers r.request_headers) (
                entry (str_key (codes "request_body")) (text_or_null post_data) (
                  entry (str_key (codes "response_headers")) (safe_headers r.response_headers) (
                    entry (str_key (codes "response_body")) (text_or_null b.text) (
                      entry (str_key (codes "response_body_truncated")) (bool b.truncated)
                        (entry (str_key (codes "response_body_format")) (str b.format) end))))))))))

  -- Appending an exchange, redacted.
  unfoldable pub append_exchange : Value → Recorder → Recorder
  append_exchange v c = record c { exchanges = c.exchanges ++ (redact u 0 v ∷ []) }

  -- The exchange of a body and the posted data is recorded; nothing when reading one of them
  -- raises.
  unfoldable pub record_read :
      Response → Option Body → Option (Option Text) → Recorder → Option Recorder
  unfolding exchange_of append_exchange
  record_read r none post_data c = none
  record_read r (some b) none c = none
  record_read r (some b) (some post_data) c = some (append_exchange (exchange_of r post_data b) c)

  -- `_record`
  unfoldable pub record_response : Response → Recorder → Option Recorder
  unfolding read_body record_read
  record_response r c =
      if not (mem r.resource_type recorded_resource_types)
      then some c
      else if leb c.max_exchanges (length c.exchanges)
      then some (record c { skipped = c.skipped + 1 })
      else record_read r (read_body r) r.post_data c

  -- An exception counts as a skipped exchange.
  abbrev pub or_skip : Option Recorder → Recorder → Recorder
  or_skip (some c') c = c'
  or_skip none c = record c { skipped = c.skipped + 1 }

  -- `_on_response`
  unfoldable pub on_response : Response → Recorder → Recorder
  unfolding record_response
  on_response r c = or_skip (record_response r c) c

  -- The handler on the responses of a browse, in order.
  unfoldable pub browse : List Response → Recorder → Recorder
  unfolding on_response
  browse [] c = c
  browse (r ∷ rs) c = browse rs (on_response r c)
