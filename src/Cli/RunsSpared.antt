-- ===== src/Cli/RunsSpared.antt =====
-- What any run of commands of src/pricewatch/cli.py leaves of the stored sessions.

use pricewatch.Base.{none, ℕ, ◌≡◌, refl, false, List, [], ◌∷◌, Text, sym, ◌∙◌, subst}
use pricewatch.Base.Unicode.{Unicode}
use pricewatch.Errors.{ok}
use pricewatch.Db.Connection.{Engine}
use pricewatch.Accounts.Transaction.{Accounts}
use pricewatch.Session.Stored.{Floats}
use pricewatch.Session.Crypto.{Fernet, IsFernet, SessionCrypto, KeyPlace, load_or_create}
use pricewatch.Session.Store.{Codec, IsCodec, load}
use pricewatch.Commands.Discover.{Tools}
use pricewatch.Base.{All}
use pricewatch.Accounts.Listing.{ItemRow}
use pricewatch.Cli.Runs.{
  Surroundings, State, Command, touches, init_run, db_version_run, db_upgrade_run, accounts_run,
  status_run, clear_run, login_run, discover_run, connected, run, run_all,
}
use pricewatch.Cli.Spared.{Spared, status-Spared, discover-Spared}
use pricewatch.Cli.ClearSpared.{clear-Spared}
use pricewatch.Cli.LoginSpared.{login-OnlyOwn}

-- The key that is there loads and stays, whatever a new one would be.
abbrev pub AlwaysOpens : Fernet → SessionCrypto → KeyPlace → Type 0
AlwaysOpens f crypto keys =
    (generated : List ℕ) → load_or_create f generated keys ≡ (ok crypto, keys)

module _ {fl : Floats} (t : Tools) (f : Fernet) (codec : Codec fl) (E : Engine)
    (sha256 : Text → Text) (u : Unicode) (accounts : Accounts E.Schema)
    (items : E.Schema → List ItemRow) (crypto : SessionCrypto) (name : Text) (lawful : IsFernet f)
    (is_codec : IsCodec fl codec) where
  run-Spared :
      (g : Surroundings) (c : Command fl) (s : State E)
      → touches name c ≡ false
      → AlwaysOpens f crypto s.files.keys
      → Spared f codec g.generated crypto name s.files
          ((run t f codec E sha256 u accounts items g c s).files)
  unfolding run touches
  run-Spared g init_run s h o = (refl, refl)
  run-Spared g db_version_run s h o = (refl, refl)
  run-Spared g db_upgrade_run s h o = (refl, refl)
  run-Spared g accounts_run s h o = (refl, refl)
  run-Spared g (status_run times moment n) s h o =
      status-Spared f codec g.generated crypto name times moment n g.config s.files (o g.generated)
  run-Spared g (clear_run agreed confirmed n) s h o =
      clear-Spared f codec g.generated crypto name E sha256 u accounts g.now g.shipped agreed
        confirmed n g.config s.files (connected t f codec E sha256 u accounts items g s)
        (o g.generated) h
  run-Spared g (login_run path_of w holder headless n) s h o =
      let (stays, loads) =
        login-OnlyOwn f codec g.generated crypto name E sha256 u accounts w lawful is_codec g.now
          g.shipped path_of holder headless n g.config s.files
          (connected t f codec E sha256 u accounts items g s) (o g.generated) in
      (stays, loads h)
  run-Spared g (discover_run captures_dir w holder n) s h o =
      discover-Spared f codec g.generated crypto name t captures_dir none w holder n g.config
        s.files s.captures (o g.generated)

  -- Whatever commands run, one after another, on one state directory and one database, which is a
  -- file of its own, each with any config of these, migration files, clock and answers, and however
  -- each ends: if none of them is a `login` or a `session clear` of this account, then its stored
  -- session loads as before, and the key is the one of before. At the start there is a key that
  -- loads, so that none is made. A `discover` has no `--out`: its capture goes into the directory
  -- of captures, which is apart from the sessions and the key. Fernet decrypts what it encrypted
  -- with the same key, and JSON loads what it dumped.
  pub run_all-spares :
      (runs : List (Surroundings × Command fl)) (s : State E)
      → All (λ r. touches name r.1 ≡ false) runs
      → AlwaysOpens f crypto s.files.keys
      → let files = (run_all t f codec E sha256 u accounts items runs s).files in
        (files.keys ≡ s.files.keys)
        × (load f codec crypto name files.disk ≡ load f codec crypto name s.files.disk)
  unfolding run_all
  run_all-spares [] s h o = (refl, refl)
  run_all-spares ((g, c) ∷ rest) s h o =
      let (stays, loads) = run-Spared g c s h.0 o in
      let (stay, load) =
        run_all-spares rest (run t f codec E sha256 u accounts items g c s) h.1
          (subst (AlwaysOpens f crypto) (sym stays) o) in
      (stay ∙ stays, load ∙ loads)
