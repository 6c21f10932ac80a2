-- ===== src/Session/Store.antt =====
-- `SessionStore` of src/pricewatch/session/store.py. What it dumps before encrypting and loads after
-- decrypting is a parameter here; Envelope has that of the code.
use pricewatch.Session.Tree.{FilePath, Tree, dir, leads, kind_of, remove_tree}
use pricewatch.Base.{
  ◌∷◌, [], if◌then◌else◌, ◌++◌, codes, ℕ, ◌≡◌, Bool, Option, none, some, List, Text, is_some,
}
use pricewatch.Base.Dict.{text_key, lookup, erase}
use pricewatch.Errors.{Result, ok, err, ◌>>=◌, session_not_found}
use pricewatch.Session.Stored.{Floats, Cookie, Origin, StoredSession}
use pricewatch.Session.Crypto.{Bytes, File, Fernet, SessionCrypto, encrypt, decrypt}
use pricewatch.Session.Files.{Disk, perform_all, save_steps, session_name}

pub record Codec (fl : Floats) : Type 0 where
  pub dumps : StoredSession fl → Bytes
  pub loads : Bytes → Result (StoredSession fl)

-- What was dumped loads.
abbrev pub IsCodec : (fl : Floats) → Codec fl → Type 0
IsCodec fl c = (s : StoredSession fl) → c.loads (c.dumps s) ≡ ok s

-- `profiles_dir`, `profiles_dir / account` and `lock_path`, below the state directory.
abbrev pub profiles_path : FilePath
profiles_path = codes "profiles" ∷ []

abbrev pub profile_path : Text → FilePath
profile_path account = codes "profiles" ∷ account ∷ []

abbrev pub lock_file : Text → FilePath
lock_file account = codes "profiles" ∷ (account ++ codes ".lock") ∷ []

-- `mkdir(exist_ok=True)`, where the parent is there
unfoldable pub mkdir : FilePath → Tree → Tree
unfolding kind_of
mkdir p tree =
    if is_some (kind_of p tree) then tree else tree ++ (record { path = p; kind = dir } ∷ [])

-- `profile_dir`, which makes the directory and its parent
unfoldable pub profile_dir : Text → Tree → FilePath × Tree
unfolding mkdir
profile_dir account tree =
    (profile_path account, mkdir (profile_path account) (mkdir profiles_path tree))

-- `lock_path`
unfoldable pub lock_path : Text → Tree → FilePath × Tree
unfolding mkdir
lock_path account tree = (lock_file account, mkdir profiles_path tree)

module _ {fl : Floats} (f : Fernet) (codec : Codec fl) (crypto : SessionCrypto) where
  unfoldable pub exists : Text → Disk → Bool
  unfolding session_name
  exists account disk = is_some (lookup (session_name account) disk)

  -- The bytes that `save` writes; the number is the randomness of the encryption.
  unfoldable pub token_of : ℕ → StoredSession fl → Bytes
  unfolding encrypt
  token_of n s = encrypt f crypto n (codec.dumps s)

  -- `save`, at the time `captured_at`.
  unfoldable pub save :
      ℕ → Text → Text → List (Cookie fl) → List (Origin fl) → Disk → StoredSession fl × Disk
  unfolding save_steps perform_all token_of
  save n now account cookies origins disk =
      let s : StoredSession fl = record {
        account = account;
        captured_at = now;
        cookies = cookies;
        origins = origins;
      } in
      (s, perform_all (save_steps account (token_of n s)) disk)

  unfoldable pub decoded : File → Result (StoredSession fl)
  unfolding decrypt
  decoded file = decrypt f crypto file.content >>= codec.loads

  -- `load`, given the file that is there.
  unfoldable pub read_stored : Text → Option File → Result (StoredSession fl)
  unfolding decoded
  read_stored account none = err (session_not_found account)
  read_stored account (some file) = decoded file

  unfoldable pub load : Text → Disk → Result (StoredSession fl)
  unfolding session_name read_stored
  load account disk = read_stored account (lookup (session_name account) disk)

  unfoldable pub try_load : Text → Disk → Result (Option (StoredSession fl))
  unfolding load
  try_load account disk = elim (load account disk) [
    | ok s ↦ ok (some s)
    | err (session_not_found a) ↦ ok none
    | err e ↦ err e
  ]

  -- `delete`. Nothing stands for the tree where removing the profile raises.
  unfoldable pub delete : Text → Disk × Tree → Disk × Option Tree
  unfolding session_name kind_of remove_tree
  delete account (disk, tree) = (
    erase (session_name account) disk,
    if leads (kind_of (profile_path account) tree)
        then remove_tree (profile_path account) tree
        else some tree,
  )
