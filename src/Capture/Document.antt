-- ===== src/Capture/Document.antt =====
-- `CaptureRecorder.write` of src/pricewatch/capture.py: the document, and the file that holds it.
use pricewatch.Base.{ℕ, true, List, [], ◌∷◌, ◌++◌, Text, codes, length, take}
use pricewatch.Base.Int.{pos}
use pricewatch.Redaction.Value.{
  str_key, Value, Items, bool, int, str, mapping, list, nil, cons, end, entry,
}
use pricewatch.Session.Files.{Disk, Step, touch, write_bytes, perform_all, perform, put}
use pricewatch.Errors.{Result, ok, err, other}
use pricewatch.Capture.Recorder.{Decoder, Recorder}

abbrev pub items_of : List Value → Items
items_of [] = nil
items_of (v ∷ vs) = cons v (items_of vs)

-- What stands in the document beside the recorder's fields.
pub record Capture : Type 0 where
  pub version : Text
  pub account : Text
  pub site : Text
  pub captured_at : Text

abbrev pub capture_note : Text
capture_note =
    codes "Values that look like credentials or PII were removed at capture time. "
    ++ codes "JSON structure and field names are intact, which is what an adapter "
    ++ codes "needs. Check this file before sharing it."

unfoldable pub document : Capture → Recorder → Value
document m c = mapping (
    entry (str_key (codes "pricewatch_version")) (str m.version) (
      entry (str_key (codes "account")) (str m.account) (
        entry (str_key (codes "site")) (str m.site) (
          entry (str_key (codes "captured_at")) (str m.captured_at) (
            entry (str_key (codes "redacted")) (bool true) (
              entry (str_key (codes "note")) (str capture_note) (
                entry (str_key (codes "exchange_count")) (int (pos (length c.exchanges))) (
                  entry (str_key (codes "skipped")) (int (pos c.skipped))
                    (entry (str_key (codes "exchanges")) (list (items_of c.exchanges)) end)))))))))

-- How far a call of `write` gets: to its end; it raises and leaves the file as it was (the directory
-- cannot be made, the file cannot be created or opened); or it raises with the file made and this
-- many bytes in it (the text cannot be encoded, the disk is full).
pub data Writing : Type 0 where
  whole untouched : Writing
  partial : ℕ → Writing

module _ (d : Decoder) (encode : Text → List ℕ) where
  -- The calls of `write` that change the file; the text is encoded as UTF-8.
  unfoldable pub write_steps : Text → Capture → Recorder → List Step
  unfolding document
  write_steps path m c = touch path ∷ write_bytes path (encode (d.dumps (document m c))) ∷ []

  -- The calls of `write`, or those up to the one that raises.
  unfoldable pub write : Text → Capture → Recorder → Writing → Disk → Result (Unit {0}) × Disk
  unfolding write_steps document perform_all perform
  write path m c whole disk = (ok tt, perform_all (write_steps path m c) disk)
  write path m c untouched disk = (err other, disk)
  write path m c (partial n) disk =
      let bytes = encode (d.dumps (document m c)) in
      (err other, put path (take n bytes) (perform (touch path) disk))
