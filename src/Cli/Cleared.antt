-- ===== src/Cli/Cleared.antt =====
-- What `session clear` of src/pricewatch/cli.py leaves, on every way that it may end.
use pricewatch.Base.{ℕ, ◌≡◌, true, false, Option, List, Text, text_eq, if◌then◌else◌}
use pricewatch.Base.Unicode.{Unicode}
use pricewatch.Errors.{err, session_not_found}
use pricewatch.Config.Model.{Config}
use pricewatch.Db.Files.{Migration, FileEntry}
use pricewatch.Db.Connection.{Engine, Conn}
use pricewatch.Accounts.Table.{forget_session}
use pricewatch.Accounts.Transaction.{Accounts, stored}
use pricewatch.Session.Stored.{Floats}
use pricewatch.Session.Crypto.{Fernet, KeyPlace, SessionCrypto}
use pricewatch.Session.Tree.{Tree}
use pricewatch.Session.Store.{Codec, load, profile_path}
use pricewatch.Session.Deleted.{without}
use pricewatch.Cli.Output.{Ending, finished, exits, raises}
use pricewatch.Cli.Opened.{opened}
use pricewatch.Cli.Session.{Files}

module _ {fl : Floats} (f : Fernet) (codec : Codec fl) (generated : List ℕ) (E : Engine)
    (sha256 : Text → Text) (u : Unicode) (accounts : Accounts E.Schema) where
  -- What the database part has done, from the connection that `open_database` gives.
  abbrev pub ClearedRow : Text → Conn E → Ending → Conn E → Type 0
  ClearedRow name opened finished c' =
      stored E accounts c' ≡ forget_session name (stored E accounts opened)
  ClearedRow name opened (raises e) c' = stored E accounts c' ≡ stored E accounts opened
  ClearedRow name opened (exits n) c' = true ≡ false

  module _ (fs : List FileEntry) (available : List Migration) (now : Migration → Text) where
    module _ (crypto : SessionCrypto) (name other_name : Text) (files : Files) (c : Conn E) where
      -- The account's session and profile are gone, and nothing else of the files.
      abbrev pub FilesGone : Files → Type 0
      FilesGone files' =
          (load f codec crypto other_name files'.disk ≡ (
            if text_eq name other_name
            then err (session_not_found other_name)
            else load f codec crypto other_name files.disk))
          × (files'.tree ≡ without (profile_path name) files.tree)

      -- What the command may come to, by its ending.
      abbrev pub Cleared : Ending → Files → Conn E → Type 0
      Cleared finished files' c' =
          FilesGone files'
          × (stored E accounts c'
              ≡ forget_session name (stored E accounts (opened E sha256 u fs available now c)))
      Cleared (raises e) files' c' =
          FilesGone files'
          × (stored E accounts c' ≡ stored E accounts (opened E sha256 u fs available now c))
      Cleared (exits n) files' c' =
          (n ≡ 1) × (files'.disk ≡ files.disk) × (files'.tree ≡ files.tree) × (c' ≡ c)

    module _ (crypto : SessionCrypto) (name other_name : Text) (files : Files) (c : Conn E) where
      abbrev with_keys : KeyPlace → Files
      with_keys keys = record files { keys = keys }
