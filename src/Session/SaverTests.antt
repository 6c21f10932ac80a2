-- ===== src/Session/SaverTests.antt =====
-- Processes that save sessions at one time: of two accounts, and of one.
use pricewatch.Base.{◌≡◌, refl, ◌≢◌, ◌⊎◌, true, false, [], ◌∷◌, Text, codes, take, ap, text_eq}
use pricewatch.Base.Dict
use pricewatch.Errors.{ok, err, cannot_decrypt}
use pricewatch.Session.Stored.{StoredSession}
use pricewatch.Session.Crypto.{Bytes}
use pricewatch.Session.Files.{
  Disk, touch, write_bytes, replace, put, perform, save_steps, session_name, temp_name,
}
use pricewatch.Session.Store.{load, token_of}
use pricewatch.Session.Samples.{
  whole_floats, prefix_fernet, prefix_fernet-IsFernet, codec, codec-IsCodec, crypto, sample,
}
use pricewatch.Session.Savers.{Saver, does, writes, first, behind, Turns, no_turn, one_more}
use pricewatch.Session.Interleaved.{Turns-Atomic}

abbrev account : Text
account = codes "asos-uk"

abbrev fp_session : StoredSession whole_floats
fp_session = record sample { account = codes "fp" }

abbrev token : StoredSession whole_floats → Bytes
token s = token_of prefix_fernet codec crypto 9 s

abbrev starting : StoredSession whole_floats → Saver whole_floats
starting s = record { session = s; nonce = 9; left = save_steps s.account (token s) }

abbrev touched : StoredSession whole_floats → Saver whole_floats
touched s = record (starting s) {
  left =
      write_bytes (temp_name s.account) (token s)
      ∷ replace (temp_name s.account) (session_name s.account)
      ∷ [];
}

abbrev wrote : StoredSession whole_floats → Saver whole_floats
wrote s = record (starting s) { left = replace (temp_name s.account) (session_name s.account) ∷ [] }

abbrev saved : StoredSession whole_floats → Saver whole_floats
saved s = record (starting s) { left = [] }

abbrev disk1 : Disk
disk1 = perform (touch (temp_name (codes "fp"))) []

abbrev disk2 : Disk
disk2 = perform (touch (temp_name account)) disk1

abbrev disk3 : Disk
disk3 = put (temp_name account) (take 3 (token sample)) disk2

-- One has begun to write when the other has made its temporary file.
turns :
    Turns []
      (starting sample ∷ starting fp_session ∷ [])
      disk3
      (touched sample ∷ touched fp_session ∷ [])
unfolding save_steps
turns =
    one_more disk2 disk3 _ _
      (one_more disk1 disk2 _ _
        (one_more [] disk1 _ _ no_turn
          (behind _ _ _ _ _ (first _ _ _ _ _ (does (touch (temp_name (codes "fp"))) _ refl))))
        (first _ _ _ _ _ (does (touch (temp_name account)) _ refl)))
      (first _ _ _ _ _ (writes (temp_name account) (token sample) _ 3 refl))

apart : codes "fp" ≢ account
unfolding text_eq
apart e = let no : false ≡ true = ap (λ t. text_eq t account) e in absurd (cc no)

Turns-Atomic_example :
    (load prefix_fernet codec crypto account disk3 ≡ load prefix_fernet codec crypto account [])
    ⊎ ((s : StoredSession whole_floats) × (s.captured_at ≡ codes "2026-01-01")
        × (s.account ≡ account)
        × (load prefix_fernet codec crypto account disk3 ≡ ok s))
Turns-Atomic_example =
    Turns-Atomic prefix_fernet codec crypto prefix_fernet-IsFernet codec-IsCodec
      (λ s. s.captured_at ≡ codes "2026-01-01") account [] disk3
      (starting sample ∷ starting fp_session ∷ []) (touched sample ∷ touched fp_session ∷ [])
      ((apart, tt), (tt, tt)) (refl, (refl, tt)) (refl, (refl, tt)) turns

-- Two processes that save sessions of one account share the temporary file.
abbrev later : StoredSession whole_floats
later = record sample { captured_at = codes "2026-01-02" }

abbrev both1 : Disk
both1 = perform (touch (temp_name account)) []

abbrev both2 : Disk
both2 = perform (write_bytes (temp_name account) (token sample)) both1

abbrev both3 : Disk
both3 = perform (touch (temp_name account)) both2

abbrev both4 : Disk
both4 = put (temp_name account) (take 0 (token later)) both3

abbrev both5 : Disk
both5 = perform (replace (temp_name account) (session_name account)) both4

-- One may move the file into place that the other has only begun to write.
shared_turns :
    Turns [] (starting sample ∷ starting later ∷ []) both5 (saved sample ∷ touched later ∷ [])
unfolding save_steps
shared_turns =
    one_more both4 both5 _ _
      (one_more both3 both4 _ _
        (one_more both2 both3 _ _
          (one_more both1 both2 _ _
            (one_more [] both1 _ _ no_turn
              (first _ _ _ _ _ (does (touch (temp_name account)) _ refl)))
            (first _ _ _ _ _ (does (write_bytes (temp_name account) (token sample)) _ refl)))
          (behind _ _ _ _ _ (first _ _ _ _ _ (does (touch (temp_name account)) _ refl))))
        (behind _ _ _ _ _ (first _ _ _ _ _ (writes (temp_name account) (token later) _ 0 refl))))
      (first _ _ _ _ _ (does (replace (temp_name account) (session_name account)) _ refl))

shared_session : load prefix_fernet codec crypto account both5 ≡ err cannot_decrypt
unfolding load Dict.lookup text_eq perform Dict.insert temp_name Dict.erase
shared_session = refl
