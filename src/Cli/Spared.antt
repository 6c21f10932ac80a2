-- ===== src/Cli/Spared.antt =====
-- What each command of src/pricewatch/cli.py leaves of the stored sessions.
use mathlib.Core.Option
use pricewatch.Base.{ℕ, ◌≡◌, refl, Option, some, List, [], Text, ap}
use pricewatch.Errors.{Result, ok, err}
use pricewatch.Config.Model.{AccountConfig, Config, account}
use pricewatch.Session.Stored.{Floats}
use pricewatch.Session.Summary.{Times}
use pricewatch.Session.Crypto.{Fernet, SessionCrypto, KeyPlace, load_or_create}
use pricewatch.Session.Files.{Disk}
use pricewatch.Session.Store.{Codec, load, try_load}
use pricewatch.Commands.Discover.{Tools, Browsing, run_discover}
use pricewatch.Cli.Output.{Printed, raises}
use pricewatch.Cli.Session.{Files, stopped, status_of, session_status}
use pricewatch.Cli.Discover.{discover, discover_printed}

module _ {fl : Floats} (f : Fernet) (codec : Codec fl) (generated : List ℕ) (crypto : SessionCrypto)
    (other_name : Text) where
  -- The key is as before, and so is what loads for the other account.
  abbrev pub Spared : Files → Files → Type 0
  Spared files files' =
      (files'.keys ≡ files.keys)
      × (load f codec crypto other_name files'.disk ≡ load f codec crypto other_name files.disk)

  -- The key that is there loads, and stays.
  abbrev pub Opens : KeyPlace → Type 0
  Opens keys = load_or_create f generated keys ≡ (ok crypto, keys)

  pub status-Spared :
      (times : Times fl) (moment : fl.F) (name : Text) (config : Config) (files : Files)
      → Opens files.keys
      → Spared files ((session_status f codec generated times moment name config files).1)
  unfolding session_status
  status-Spared times moment name config files h =
      go (account config name) (load_or_create f generated files.keys) h
    where
      go :
          (x : Result AccountConfig) (o : Result SessionCrypto × KeyPlace)
          → o ≡ (ok crypto, files.keys)
          → let r : Printed × Files = elim x [
            | err e ↦ stopped e files
            | ok a ↦ elim o.0 [
              | err e ↦ stopped e (record files { keys = o.1 })
              | ok k ↦ (
                status_of f codec generated times moment a.name
                    (try_load f codec k a.name files.disk),
                record files { keys = o.1 },
              )
            ]
          ] in
            Spared files r.1
      go (err e) o p = (refl, refl)
      go (ok a) (err e, keys) p = (ap (λ q. q.1) p, refl)
      go (ok a) (ok k, keys) p = (ap (λ q. q.1) p, refl)

  pub discover-Spared :
      (t : Tools) (captures_dir : Text) (out_path : Option Text) (w : Browsing) (holder name : Text)
      (config : Config) (files : Files) (captures : Disk)
      → Opens files.keys
      → Spared files
          ((discover t f generated captures_dir out_path w holder name config files captures).1.0)
  unfolding discover
  discover-Spared t captures_dir out_path w holder name config files captures h =
      go (account config name) (load_or_create f generated files.keys) h
    where
      go :
          (x : Result AccountConfig) (o : Result SessionCrypto × KeyPlace)
          → o ≡ (ok crypto, files.keys)
          → let r : Option Printed × (Files × Disk) = elim x [
            | err e ↦ (some (record { lines = []; ending = raises e }), (files, captures))
            | ok a ↦ elim o.0 [
              | err e ↦ (
                some (record { lines = []; ending = raises e }),
                (record files { keys = o.1 }, captures),
              )
              | ok k ↦
                  let (r, captures') =
                    run_discover t a.name captures_dir out_path w holder captures in
                  (Option.map discover_printed r, (record files { keys = o.1 }, captures'))
            ]
          ] in
            Spared files r.1.0
      go (err e) o p = (refl, refl)
      go (ok a) (err e, keys) p = (ap (λ q. q.1) p, refl)
      go (ok a) (ok k, keys) p = (ap (λ q. q.1) p, refl)
