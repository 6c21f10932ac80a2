-- ===== src/Redaction/Tests.antt =====
-- Texts and keys of the repository's tests, scrubbed by the model, and the theorems at concrete
-- inputs.
use pricewatch.Base.{◌≡◌, refl, true, false, codes, arith, text_eq}
use pricewatch.Base.Unicode.{ascii}
use pricewatch.Base.{◌≤◌}
use pricewatch.Redaction.Value.{
  Value, str_key, other_key, str, bytes, mapping, list, nil, cons, end, entry, redact, redacts_key,
  decimal,
}
use pricewatch.Redaction.Scrubbed.{IsScrubbed, redact-IsScrubbed}
use pricewatch.Redaction.Shape.{nesting, redact-nesting}
use pricewatch.Redaction.Keys.{is_sensitive_key}
use pricewatch.Redaction.Patterns.{
  redact_text, jwt, bearer, kv, hex, b64, email, postcode, replace_kv,
}
use pricewatch.Redaction.Matcher.{sub, boundary, each_of, repeat, alternative, optional, mark, stop}
use pricewatch.Redaction.Preserved.{redact_text-IsNumeric}

api_key : is_sensitive_key ascii (codes "X-Api_Key") ≡ true
unfolding is_sensitive_key text_eq
api_key = refl

cookie_names : is_sensitive_key ascii (codes "cookie_names") ≡ false
unfolding is_sensitive_key text_eq
cookie_names = refl

scrubbed :
    redact_text ascii
      (codes "Authorization: Bearer abcdefgh12345678, mail a.b@example.co.uk to SW1A 1AA at 29.99")
    ≡ codes "Authorization: [REDACTED], mail [REDACTED] to [REDACTED] at 29.99"
unfolding redact_text sub jwt bearer kv hex b64 email postcode replace_kv boundary each_of repeat
    alternative optional mark stop
scrubbed = refl

pair :
    redact_text ascii (codes "https://x.test/?q=1&sid=0123456789abcdef")
    ≡ codes "https://x.test/?q=1&sid=[REDACTED]"
unfolding redact_text sub jwt bearer kv hex b64 email postcode replace_kv boundary each_of repeat
    alternative optional mark stop
pair = refl

-- The host of an address may come to stand in brackets.
bracketed_host :
    redact_text ascii (codes "https://jo@x.test/saved") ≡ codes "https://[REDACTED]/saved"
unfolding redact_text sub jwt bearer kv hex b64 email postcode replace_kv boundary each_of repeat
    alternative optional mark stop
bracketed_host = refl

token : redact_text ascii (codes "id eyJhbGciOi.eyJzdWIiOi.c2ln!") ≡ codes "id [REDACTED]!"
unfolding redact_text sub jwt bearer kv hex b64 email postcode replace_kv boundary each_of repeat
    alternative optional mark stop
token = refl

redact_text-IsNumeric_example : redact_text ascii (codes "£29.99 (-20%)") ≡ codes "£29.99 (-20%)"
redact_text-IsNumeric_example =
    redact_text-IsNumeric ascii (codes "£29.99 (-20%)") (refl, omega arith)

-- A JSON text keeps a short password: no pattern matches it.
json_password :
    redact_text ascii (codes "{\"user\":\"jo\",\"password\":\"hunter2\"}")
    ≡ codes "{\"user\":\"jo\",\"password\":\"hunter2\"}"
unfolding redact_text sub jwt bearer kv hex b64 email postcode replace_kv boundary each_of repeat
    alternative optional mark stop
json_password = refl

abbrev event : Value
event = mapping (
    entry (str_key (codes "cookie_names")) (list (cons (str (codes "sid")) nil)) (
      entry (str_key (codes "authorization")) (str (codes "x"))
        (entry (other_key 1) (bytes 12) end)))

event_redacted :
    redact ascii 0 event
    ≡ mapping (
        entry (str_key (codes "cookie_names")) (list (cons (str (codes "sid")) nil)) (
          entry
            (str_key (codes "authorization"))
            (str (codes "[REDACTED]"))
            (entry (other_key 1) (str (codes "[REDACTED 12 bytes]")) end)))
unfolding redact redacts_key is_sensitive_key text_eq decimal redact_text sub jwt bearer kv hex b64
    email postcode replace_kv boundary each_of repeat alternative optional mark stop
event_redacted = refl

redact-IsScrubbed_example : IsScrubbed ascii (redact ascii 0 event)
redact-IsScrubbed_example = redact-IsScrubbed ascii 0 event

redact-nesting_example : nesting (redact ascii 0 event) ≤ 13
redact-nesting_example = redact-nesting ascii event
