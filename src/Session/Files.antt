-- ===== src/Session/Files.antt =====
-- The files of `sessions/`, by their names, and the calls of `SessionStore.save` in
-- src/pricewatch/session/store.py that change them.
use pricewatch.Base.{
  ℕ, ◌≡◌, refl, ◌≢◌, true, false, Option, none, some, List, [], ◌∷◌, ◌++◌, Text, codes, arith,
  length, length-append, take, text_eq, ap,
}
use pricewatch.Base.Dict.{Dict, text_key, lookup, insert, erase}
use pricewatch.Session.Crypto.{Bytes, File, private_mode}

abbrev pub Disk : Type 0
Disk = Dict Text File

-- `session_path`, in the directory
unfoldable pub session_name : Text → Text
session_name account = account ++ codes ".json.enc"

-- `session_path(account).with_suffix(".tmp")`
unfoldable pub temp_name : Text → Text
temp_name account = account ++ codes ".json.tmp"

pub data Step : Type 0 where
  -- `path.touch(mode=0o600, exist_ok=True)`
  touch : Text → Step
  write_bytes : Text → Bytes → Step
  -- `src.replace(dst)`
  replace : Text → Text → Step

-- A file that writing creates has this mode, by the usual umask.
abbrev pub new_mode : ℕ
new_mode = 420

-- A file once its content is written.
abbrev pub written : Option File → Bytes → File
written (some f) bytes = record f { content = bytes }
written none bytes = record { mode = new_mode; content = bytes }

abbrev pub put : Text → Bytes → Disk → Disk
put path bytes disk = insert path (written (lookup path disk) bytes) disk

-- Touching the file at a path, given what is there.
abbrev pub touched : Text → Option File → Disk → Disk
touched path (some f) disk = disk
touched path none disk = insert path (record { mode = private_mode; content = [] }) disk

-- Moving a file, given what is there; without one `replace` raises.
abbrev pub moved : Text → Text → Option File → Disk → Disk
moved src dst (some f) disk = erase src (insert dst f disk)
moved src dst none disk = disk

-- A step that is done.
unfoldable pub perform : Step → Disk → Disk
perform (touch path) disk = touched path (lookup path disk) disk
perform (write_bytes path bytes) disk = put path bytes disk
perform (replace src dst) disk = moved src dst (lookup src disk) disk

unfoldable pub perform_all : List Step → Disk → Disk
unfolding perform
perform_all [] disk = disk
perform_all (s ∷ ss) disk = perform_all ss (perform s disk)

-- What the disk may be when the process stops somewhere in these steps, or a step raises: the
-- steps before are done, and of a write some bytes may be there.
pub data Reached : List Step → Disk → Disk → Type 0 where
  stopped : (ss : List Step) (disk : Disk) → Reached ss disk disk
  torn :
      (path : Text) (bytes : Bytes) (ss : List Step) (n : ℕ) (disk : Disk)
      → Reached (write_bytes path bytes ∷ ss) disk (put path (take n bytes) disk)
  next :
      (s : Step) (ss : List Step) (disk after : Disk)
      → Reached ss (perform s disk) after
      → Reached (s ∷ ss) disk after

-- The steps of `save`.
unfoldable pub save_steps : Text → Bytes → List Step
unfolding session_name temp_name
save_steps account token =
    touch (temp_name account)
    ∷ write_bytes (temp_name account) token
    ∷ replace (temp_name account) (session_name account)
    ∷ []

-- Two texts that end in texts of one length are equal only if those are.
ends-injective : (a b s t : Text) → length s ≡ length t → (a ++ s) ≡ (b ++ t) → (a ≡ b) × (s ≡ t)
ends-injective [] [] s t h e = (refl, e)
ends-injective [] (y ∷ b) s t h e = absurd (omega (arith, h, ap length e, length-append b t))
ends-injective (x ∷ a) [] s t h e = absurd (omega (arith, h, ap length e, length-append a s))
ends-injective (x ∷ a) (y ∷ b) s t h e = ground (arith, ends-injective a b s t h)

pub session_name-injective : (a b : Text) → session_name a ≡ session_name b → a ≡ b
unfolding session_name
session_name-injective a b e =
    let (same, _) = ends-injective a b (codes ".json.enc") (codes ".json.enc") refl e in same

pub temp_name-injective : (a b : Text) → temp_name a ≡ temp_name b → a ≡ b
unfolding temp_name
temp_name-injective a b e =
    let (same, _) = ends-injective a b (codes ".json.tmp") (codes ".json.tmp") refl e in same

differ : codes ".json.tmp" ≡ codes ".json.enc" → ⊥
unfolding text_eq
differ e = let apart : true ≡ false = ap (λ t. text_eq t (codes ".json.tmp")) e in absurd (cc apart)

-- A temporary file is no account's session.
pub temp-session : (a b : Text) → temp_name a ≢ session_name b
unfolding session_name temp_name
temp-session a b e =
    let (_, same) = ends-injective a b (codes ".json.tmp") (codes ".json.enc") refl e in differ same
