-- ===== src/Commands/Login.antt =====
-- `run_login` of src/pricewatch/commands/login.py. The browser and the adapter are what they answer:
-- a sequence of probes, the exported state, and the operator's reply.
use pricewatch.Base.{
  ℕ, Bool, not, ◌&&◌, Option, none, some, List, [], ◌∷◌, ◌++◌, Text, codes, leb, length,
  if◌then◌else◌, is_some,
}
use pricewatch.Errors.{Result, ok, err, headless_needs_adapter, cancelled, sign_in_timeout}
use pricewatch.Accounts.Table.{Table, record_capture}
use pricewatch.Session.Stored.{Floats, Cookie, Origin, local_storage_keys}
use pricewatch.Session.Crypto.{Fernet, SessionCrypto}
use pricewatch.Session.Files.{Disk}
use pricewatch.Session.Store.{Codec, save}
use pricewatch.Session.Lock.{Attempt, acquire}

-- A turn of the polling loop: the answer of `probe_identity`, and the clock after it.
pub record Probe : Type 0 where
  pub answer : Result (Option Text)
  pub clock : ℕ

-- `_await_identity`; nothing when the probes run out and it still sleeps. An empty identity counts
-- as none.
unfoldable pub await_identity : ℕ → List Probe → Option (Result Text)
await_identity deadline [] = none
await_identity deadline (p ∷ ps) =
    let later = await_identity deadline ps in
    let again = if leb deadline p.clock then some (err sign_in_timeout) else later in
    elim p.answer [
      | err e ↦ some (err e)
      | ok none ↦ again
      | ok (some []) ↦ again
      | ok (some (c ∷ cs)) ↦ some (ok (c ∷ cs))
    ]

module _ (fl : Floats) where
  -- What the world answers while a login runs.
  pub record World : Type 0 where
    -- `registry.available`
    pub has_adapter : Bool
    pub attempts : List Attempt
    pub deadline : ℕ
    -- launching the browser and going to the page
    pub page : Result (Unit {0})
    pub probes : List Probe
    pub probe_deadline : ℕ
    pub confirmed : Bool
    -- `storage_state`
    pub exported : Result (List (Cookie fl) × List (Origin fl))
    pub nonce : ℕ
    pub saved_at : Text
    pub captured_at : Text
    -- what the UPDATE of `_record_capture` raises
    pub updated : Result (Unit {0})

  -- What a login changes.
  pub record Place : Type 0 where
    pub disk : Disk
    pub table : Table

  pub record LoginResult : Type 0 where
    pub account : Text
    pub identity : Option Text
    pub verified : Bool
    pub cookie_count : ℕ
    pub local_storage_count : ℕ

  -- `LoginResult.headline`; the identity of a verified result is there.
  unfoldable pub headline : LoginResult → Text
  headline r =
      if r.verified
      then codes "signed in as " ++ elim r.identity [ some t ↦ t | none ↦ codes "None" ]
      else codes "session saved but not verified (no adapter for this site yet)"

  -- `_require_operator_confirmation`
  unfoldable pub require_operator_confirmation : Bool → Result (Unit {0})
  require_operator_confirmation confirmed = if confirmed then ok tt else err cancelled

  -- Who signed in, as far as is known.
  unfoldable pub signed_in : World → Option (Result (Option Text))
  unfolding await_identity require_operator_confirmation
  signed_in w =
      if w.has_adapter
      then elim (await_identity w.probe_deadline w.probes) [
        | none ↦ none
        | some (ok t) ↦ some (ok (some t))
        | some (err e) ↦ some (err e)
      ]
      else elim (require_operator_confirmation w.confirmed) [
        | ok _ ↦ some (ok none)
        | err e ↦ some (err e)
      ]

  module _ (f : Fernet) (codec : Codec fl) (crypto : SessionCrypto) (account : Text)
      (w : World) where
    -- What follows the browser: the session is saved, and the capture is recorded.
    unfoldable pub finish_login :
        Option Text → List (Cookie fl) → List (Origin fl) → Place → LoginResult × Place
    unfolding save record_capture local_storage_keys
    finish_login identity cookies origins place =
        let (s, disk) = save f codec crypto w.nonce w.saved_at account cookies origins place.disk in
        (
          record {
            account = account;
            identity = identity;
            verified = is_some identity;
            cookie_count = length s.cookies;
            local_storage_count = length (local_storage_keys fl s);
          },
          record {
            disk = disk;
            table = record_capture w.captured_at account (is_some identity) place.table;
          },
        )

    -- Where the UPDATE raises, the session is saved and the table is as it was.
    abbrev pub unless_raised :
        Result (Unit {0}) → Place → LoginResult × Place → Option (Result LoginResult) × Place
    unless_raised (ok _) place (r, after) = (some (ok r), after)
    unless_raised (err e) place (r, after) = (some (err e), record after { table = place.table })

    unfoldable pub after_sign_in :
        Option (Result (Option Text)) → Place → Option (Result LoginResult) × Place
    unfolding finish_login
    after_sign_in none place = (none, place)
    after_sign_in (some (err e)) place = (some (err e), place)
    after_sign_in (some (ok identity)) place = elim w.exported [
      | err e ↦ (some (err e), place)
      | ok (cookies, origins) ↦
          unless_raised w.updated place (finish_login identity cookies origins place)
    ]

    -- What is done under the lock, once it is decided who has it.
    unfoldable pub after_lock :
        Option (Result (Unit {0})) → Place → Option (Result LoginResult) × Place
    unfolding after_sign_in signed_in
    after_lock none place = (none, place)
    after_lock (some (err e)) place = (some (err e), place)
    after_lock (some (ok _)) place = elim w.page [
      | err e ↦ (some (err e), place)
      | ok _ ↦ after_sign_in (signed_in w) place
    ]

    -- `run_login`; nothing when it still waits, for the lock or for an identity.
    unfoldable pub run_login : Text → Text → Bool → Place → Option (Result LoginResult) × Place
    unfolding after_lock acquire
    run_login holder site headless place =
        if headless && not w.has_adapter
        then (some (err (headless_needs_adapter site)), place)
        else after_lock (acquire holder w.deadline w.attempts) place
