-- ===== src/Lib.antt =====
-- pricewatch watches the saved items of shop accounts. This library models the parts of it that
-- decide something, each in the module named for it, and proves what they promise.
--
-- The parts and their files:
--
-- Config models src/pricewatch/config.py. Config/Raw is a document as TOML gives it, with the
-- bounds and shapes of the pydantic fields as the list of their problems; Config/Fields has the
-- tests of single values, Config/Secret is `SecretValue`, Config/Model the validated classes and
-- `Config.account`, Config/Load is `Config.load`. Config/Valid, Config/Loaded and Config/Names
-- prove.
--
-- Accounts models src/pricewatch/accounts.py and the statements on the table `accounts` in
-- src/pricewatch/commands/login.py and src/pricewatch/cli.py. Accounts/Table has the rows and one
-- function per statement, Accounts/Sync the loop of `sync_accounts`, Accounts/Listing is
-- `list_accounts`, Accounts/Transaction puts the sync into the transaction of the database.
-- Synced, Unique and Health prove.
--
-- Db models src/pricewatch/db/__init__.py. Db/Files is the loading of the migration files,
-- Db/Connection the connection with its transaction, Db/Runner `_apply`, `migrate` and
-- `open_database`. SQLite is the parameter `Engine`: what the SQL of a migration makes of a
-- schema, whole or in part, and whether a COMMIT is granted. The SHA-256 of a text is a
-- parameter. Atomic, Records, Recorded, Complete, Progress, Migrate, Order and Refusal prove.
-- Db/Processes has processes that migrate one database, a statement or a script at a time, as a
-- step relation; Db/Built, Db/Moved, Db/Interleaved, Db/Ends and Db/Advances prove.
--
-- Redaction models src/pricewatch/redaction.py. Redaction/Keys is `is_sensitive_key`,
-- Redaction/Matcher a small library of matchers that try alternatives in Python's order,
-- Redaction/Patterns the seven patterns and `redact_text`, Redaction/Value is `redact` on finite
-- trees. Preserved, Scrubbed and Shape prove. Python's Unicode tables are the parameter
-- `Unicode`.
--
-- Capture models src/pricewatch/capture.py, whose recorder passes each exchange through `redact`:
-- Capture/Recorder is `_on_response`, `_record` and `_read_body`, Capture/Summary is `summary`,
-- Capture/Document is `write`. Recorded, Summarised and Ranked prove. `urlsplit` is a parameter.
--
-- Session models src/pricewatch/session. Session/Stored is `StoredSession`, Session/Crypto the
-- key, Session/Files the directory and the file operations of `save`, with a step relation for a
-- run that stops at any of them, Session/Tree the directory tree with `_remove_tree`,
-- Session/Store is `SessionStore`, Session/Summary is `StoredSession.summary`, Session/Lock is
-- `profile_lock`. Expiry, Keys, Stages, Saved, Removed and Deleted prove; Session/Json has JSON
-- values, and Session/Envelope the envelope that is encrypted, with a proof; Session/Vault has
-- the map from accounts to sessions that the files stand for; Session/Savers has processes that
-- save at one time, a file operation at a time, and Acted and Interleaved prove. Fernet, JSON,
-- the writing of times and the order of floats are parameters; Session/Samples and
-- Session/JsonSamples fulfil them.
--
-- Adapters models src/pricewatch/adapters: the checks of items and results, the registry, and the
-- profiles of the known sites.
--
-- Browser models src/pricewatch/browser.py: the bracket around Chromium, whose launch is a
-- parameter.
--
-- Commands models src/pricewatch/commands: Commands/Login is `run_login` with `_await_identity`,
-- on the lock, the store and the table of accounts, and Commands/Discover is `run_discover`, on
-- the lock, the recorder and the file of the capture. Outcome, Others, Ends and Discovered prove.
--
-- Logging models src/pricewatch/logging.py: the chain of processors, of which
-- `redaction_processor` is one. structlog's processors are parameters. Logging/Emitted proves.
--
-- Cli models src/pricewatch/cli.py: each command as what it prints, what it changes and how it
-- ends, on the parts above. Cli/Output has the endings and `main`, Cli/Context `AppContext` with
-- the commands that need no more, and the directories of src/pricewatch/paths.py; Cli/Check is
-- `config check`, Cli/Database has `init`, `db version`, `db upgrade` and `accounts`, Cli/Session
-- `session status` and `session clear`, Cli/Login and Cli/Discover the commands of these names.
-- Checked, Initialised, Maintained, Opened, Cleared and SignedIn prove. Cli/Runs has runs of
-- commands, one after another, on one state directory and one database, as a function on their
-- state, in which a `discover` has no `--out`; RunsKept is about the database then, with Kept,
-- ClearKept and LoginKept for the commands, and RunsSpared and Lasting are about the sessions,
-- with Spared, ClearSpared and LoginSpared.
--
-- Errors has the exceptions, each by the place that raises it. Base has what the parts share:
-- texts as lists of code points, insertion sort, dictionaries in insertion order, Python's
-- integers.
--
-- A loop that waits is a recursion on the sequence of what the clock, the lock or the adapter
-- answers; it gives nothing when the sequence ends while it still sleeps, and theorems say when
-- it ends. The only fuel is that of the decimal digits of a number, which is the number itself
-- plus one, and a number has no more digits than that.
--
-- Not modelled: the texts of exceptions, which the commands take as a parameter, colours,
-- argument parsing, the making of the state directory by `init`, the clock, Playwright, what is
-- left of a profile whose removal raises, and the SQL of the shipped migrations. Paths below the
-- state directory are their names in it. That a time stamp is one that Python can represent is
-- assumed where it is written.
pub mod Base
pub mod Errors
pub mod Logging
pub mod Browser
pub mod Config
pub mod Accounts
pub mod Db
pub mod Redaction
pub mod Adapters
pub mod Session
pub mod Capture
pub mod Commands
pub mod Cli
