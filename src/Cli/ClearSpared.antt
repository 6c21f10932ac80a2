-- ===== src/Cli/ClearSpared.antt =====
-- What `session clear` of src/pricewatch/cli.py makes of the sessions of other accounts.

use pricewatch.Base.{
  ℕ, ◌≡◌, refl, Bool, true, false, ◌||◌, not, Option, none, some, List, [], ◌∷◌, Text, codes, ap,
  sym, ◌∙◌, subst, if◌then◌else◌, text_eq,
}
use pricewatch.Base.Unicode.{Unicode}
use pricewatch.Errors.{Result, ok, err, other}
use pricewatch.Config.Model.{AccountConfig, Config, account}
use pricewatch.Config.Names.{Finds, account-Finds}
use pricewatch.Db.Files.{Migration, FileEntry}
use pricewatch.Db.Connection.{Engine, Conn}
use pricewatch.Accounts.Transaction.{Accounts}
use pricewatch.Session.Stored.{Floats}
use pricewatch.Session.Crypto.{Fernet, SessionCrypto, KeyPlace, load_or_create}
use pricewatch.Session.Tree.{Tree}
use pricewatch.Session.Files.{Disk}
use pricewatch.Session.Store.{Codec, load, delete}
use pricewatch.Session.Saved.{load-erase}
use pricewatch.Cli.Output.{out, Printed, exits}
use pricewatch.Cli.Session.{Files, stopped, clear_row, clear_files, session_clear}
use pricewatch.Cli.Spared.{Spared, Opens}

module _ {fl : Floats} (f : Fernet) (codec : Codec fl) (generated : List ℕ) (crypto : SessionCrypto)
    (other_name : Text) (E : Engine) (sha256 : Text → Text) (u : Unicode)
    (accounts : Accounts E.Schema) (now : Migration → Text) (fs : List FileEntry) where
  clear_files-Spared :
      (k : SessionCrypto) (name : Text) (files : Files) (c : Conn E)
      → text_eq name other_name ≡ false
      → let r = clear_files f codec generated E sha256 u accounts now fs k name files c in
        Spared f codec generated crypto other_name files r.1.0
  unfolding clear_files delete
  clear_files-Spared k name files c apart =
      go (delete f codec k name (files.disk, files.tree))
        (load-erase f codec crypto name other_name files.disk ∙ rw apart refl)
    where
      row : Printed × Conn E
      row = clear_row f codec generated E sha256 u accounts now fs name c

      go :
          (x : Disk × Option Tree)
          → load f codec crypto other_name x.0 ≡ load f codec crypto other_name files.disk
          → let r : Printed × (Files × Conn E) = elim x.1 [
            | none ↦ stopped other (record files { disk = x.0 }, c)
            | some tree ↦ (row.0, (record files { disk = x.0; tree = tree }, row.1))
          ] in
            Spared f codec generated crypto other_name files r.1.0
      go (disk, none) h = (refl, h)
      go (disk, some tree) h = (refl, h)

  pub clear-Spared :
      (agreed confirmed : Bool) (name : Text) (config : Config) (files : Files) (c : Conn E)
      → Opens f codec generated crypto other_name files.keys
      → text_eq name other_name ≡ false
      → let r =
          session_clear f codec generated E sha256 u accounts now fs agreed confirmed name config
            files c in
        Spared f codec generated crypto other_name files r.1.0
  unfolding session_clear
  clear-Spared agreed confirmed name config files c h apart =
      go (account config name) (load_or_create f generated files.keys) (agreed || confirmed)
        (account-Finds config name) h
    where
      go :
          (x : Result AccountConfig) (o : Result SessionCrypto × KeyPlace) (sure : Bool)
          → Finds config name x
          → o ≡ (ok crypto, files.keys)
          → let r : Printed × (Files × Conn E) = elim x [
            | err e ↦ stopped e (files, c)
            | ok a ↦ elim o.0 [
              | err e ↦ stopped e (record files { keys = o.1 }, c)
              | ok k ↦
                  if not sure
                  then (
                    record { lines = out (codes "cancelled") ∷ []; ending = exits 1 },
                    (record files { keys = o.1 }, c),
                  )
                  else clear_files f codec generated E sha256 u accounts now fs k a.name
                      (record files { keys = o.1 })
                      c
            ]
          ] in
            Spared f codec generated crypto other_name files r.1.0
      go (err e) o sure n p = (refl, refl)
      go (ok a) (err e, keys) sure n p = (ap (λ q. q.1) p, refl)
      go (ok a) (ok k, keys) false n p = (ap (λ q. q.1) p, refl)
      go (ok a) (ok k, keys) true n p =
          let (stays, loads) =
            clear_files-Spared k a.name (record files { keys = keys }) c
              (subst (λ m. text_eq m other_name ≡ false) (sym n.0) apart) in
          (stays ∙ ap (λ q. q.1) p, loads)
