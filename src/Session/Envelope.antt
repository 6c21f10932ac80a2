-- ===== src/Session/Envelope.antt =====
-- The envelope that `SessionStore.save` of src/pricewatch/session/store.py encrypts and that `load`
-- reads back, and `cookies` and `origins` of the storage state in it. What stands outside: `json`,
-- `datetime` (a time is a text that names it), and the members of a cookie or an origin that a
-- stored session holds.
use pricewatch.Base.{
  ℕ, true, Option, some, List, [], Text, codes, text_eq, ◌≡◌, refl, map, if◌then◌else◌, ◌∙◌, ap,
}
use pricewatch.Errors.{Result, ok, err, other, or_raise, ◌>>=◌}
use pricewatch.Session.Stored.{Floats, Cookie, Origin, StoredSession}
use pricewatch.Session.Crypto.{Bytes, Fernet, IsFernet, SessionCrypto}
use pricewatch.Session.Files.{Disk}
use pricewatch.Session.Store.{Codec, IsCodec, save, load}
use pricewatch.Session.Saved.{load-save}
use pricewatch.Session.Json.{
  Json, Members, text, array, object, end, member, items_of, values, get, has_keys_once,
  all_keys_once, members_once, values-items_of, items_of-once,
}

pub record Outside (fl : Floats) : Type 0 where
  -- `json.dumps(…).encode("utf-8")`, and `json.loads` of the decoded text, which may raise
  pub dumps : Json fl.F → Bytes
  pub loads : Bytes → Option (Json fl.F)
  pub isoformat : Text → Text
  pub fromisoformat : Text → Option Text
  -- `str` of what is no `str`
  pub str : Json fl.F → Text
  -- `dict` of what is no `dict`, which may raise
  pub dict : Json fl.F → Option (Members fl.F)
  -- a cookie and an origin as Playwright gives them, and what is read of one
  pub cookie_json : Cookie fl → Json fl.F
  pub read_cookie : Json fl.F → Cookie fl
  pub origin_json : Origin fl → Json fl.F
  pub read_origin : Json fl.F → Origin fl

-- JSON loads what it dumped, a time is read back from its ISO form, and a cookie and an origin have
-- the members that they were given, each key once.
pub record IsOutside {fl : Floats} (o : Outside fl) : Type 0 where
  pub loads-dumps : (j : Json fl.F) → has_keys_once j ≡ true → o.loads (o.dumps j) ≡ some j
  pub fromisoformat-isoformat : (d : Text) → o.fromisoformat (o.isoformat d) ≡ some d
  pub read_cookie-cookie_json : (c : Cookie fl) → o.read_cookie (o.cookie_json c) ≡ c
  pub read_origin-origin_json : (p : Origin fl) → o.read_origin (o.origin_json p) ≡ p
  pub cookie_keys : (c : Cookie fl) → has_keys_once (o.cookie_json c) ≡ true
  pub origin_keys : (p : Origin fl) → has_keys_once (o.origin_json p) ≡ true

module _ {fl : Floats} (o : Outside fl) where
  -- `storage_state`, as Playwright gives it.
  unfoldable pub storage_state : List (Cookie fl) → List (Origin fl) → Members fl.F
  storage_state cookies origins =
      member (codes "cookies") (array (items_of (map o.cookie_json cookies)))
        (member (codes "origins") (array (items_of (map o.origin_json origins))) end)

  -- `self.storage_state.get(key, [])`, as a list if it is one.
  unfoldable pub listed : Text → Members fl.F → List (Json fl.F)
  unfolding get
  listed key m = elim (get key m) [ some (array js) ↦ values js | _ ↦ [] ]

  unfoldable pub cookies_in : Members fl.F → List (Cookie fl)
  unfolding listed
  cookies_in m = map o.read_cookie (listed (codes "cookies") m)

  unfoldable pub origins_in : Members fl.F → List (Origin fl)
  unfolding listed
  origins_in m = map o.read_origin (listed (codes "origins") m)

  -- `envelope` of `save`.
  unfoldable pub envelope : StoredSession fl → Json fl.F
  unfolding storage_state
  envelope s = object (
      member (codes "account") (text s.account) (
        member (codes "captured_at") (text (o.isoformat s.captured_at))
          (member (codes "storage_state") (object (storage_state s.cookies s.origins)) end)))

  -- `envelope[key]`
  unfoldable pub item_of : Text → Json fl.F → Result (Json fl.F)
  unfolding get
  item_of key (object m) = or_raise (get key m) other
  item_of key _ = err other

  unfoldable pub as_str : Json fl.F → Text
  as_str (text t) = t
  as_str j = o.str j

  unfoldable pub as_dict : Json fl.F → Result (Members fl.F)
  as_dict (object m) = ok m
  as_dict j = or_raise (o.dict j) other

  -- The session of `load`, from its envelope.
  unfoldable pub from_envelope : Json fl.F → Result (StoredSession fl)
  unfolding item_of as_str as_dict cookies_in origins_in
  from_envelope e = item_of (codes "account") e >>= λ account.
      item_of (codes "captured_at") e >>= λ at.
      or_raise (o.fromisoformat (as_str at)) other >>= λ captured_at.
      item_of (codes "storage_state") e >>= as_dict >>= λ state. ok (record {
        account = as_str account;
        captured_at = captured_at;
        cookies = cookies_in state;
        origins = origins_in state;
      })

  abbrev pub envelope_codec : Codec fl
  envelope_codec = record {
    dumps = λ s. o.dumps (envelope s);
    loads = λ b. or_raise (o.loads b) other >>= from_envelope;
  }

  module _ (lawful : IsOutside o) where
    envelope-once : (s : StoredSession fl) → has_keys_once (envelope s) ≡ true
    unfolding envelope storage_state has_keys_once all_keys_once members_once get text_eq
    envelope-once s =
        rw
          (
            items_of-once o.cookie_json o.read_cookie lawful.read_cookie-cookie_json
                lawful.cookie_keys s.cookies,
            items_of-once o.origin_json o.read_origin lawful.read_origin-origin_json
                lawful.origin_keys s.origins,
          )
          refl

    from_envelope-envelope : (s : StoredSession fl) → from_envelope (envelope s) ≡ ok s
    unfolding from_envelope envelope storage_state item_of as_str as_dict cookies_in origins_in
        listed get text_eq
    from_envelope-envelope s =
        rw
          (
            lawful.fromisoformat-isoformat s.captured_at,
            values-items_of o.cookie_json o.read_cookie lawful.read_cookie-cookie_json
                lawful.cookie_keys s.cookies,
            values-items_of o.origin_json o.read_origin lawful.read_origin-origin_json
                lawful.origin_keys s.origins,
          )
          refl

    pub envelope_codec-IsCodec : IsCodec fl envelope_codec
    envelope_codec-IsCodec s =
        ap (λ j. or_raise j other >>= from_envelope)
          (lawful.loads-dumps (envelope s) (envelope-once s))
        ∙ from_envelope-envelope s

    -- Loading after saving, through the envelope, gives the session that `save` returned, its
    -- account, time, cookies and origins, and every other account loads as before. Fernet decrypts
    -- what it encrypted with the same key, JSON loads what it dumped, a time is read back from its
    -- ISO form, and a cookie and an origin have the members that they were given, each key once.
    pub load-save_enveloped :
        (f : Fernet) (crypto : SessionCrypto) (n : ℕ) (now account name : Text)
        (cookies : List (Cookie fl)) (origins : List (Origin fl)) (disk : Disk)
        → IsFernet f
        → let saved = save f envelope_codec crypto n now account cookies origins disk in
          load f envelope_codec crypto name (saved.1)
          ≡ (if text_eq account name then ok (saved.0) else load f envelope_codec crypto name disk)
    load-save_enveloped f crypto n now account name cookies origins disk fernet =
        load-save f envelope_codec crypto fernet envelope_codec-IsCodec n now account name cookies
          origins disk
