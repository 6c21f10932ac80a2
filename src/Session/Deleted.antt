-- ===== src/Session/Deleted.antt =====
-- What `SessionStore.delete` of src/pricewatch/session/store.py leaves.
use pricewatch.Base.{
  inl, inr, ◌≡◌, refl, ◌⊎◌, not, Option, none, some, Text, text_eq, filter, is_some, if◌then◌else◌,
}
use pricewatch.Errors.{err, session_not_found}
use pricewatch.Session.Stored.{Floats}
use pricewatch.Session.Crypto.{Fernet, SessionCrypto}
use pricewatch.Session.Tree.{FilePath, Kind, dir, Tree, is_prefix, leads, kind_of, remove_tree}
use pricewatch.Session.Removed.{remove_tree-removes}
use pricewatch.Session.Files.{Disk}
use pricewatch.Session.Store.{Codec, load, delete, profile_path}
use pricewatch.Session.Saved.{load-erase}

-- There is a directory, or nothing.
abbrev pub IsDirOrMissing : Option Kind → Type 0
IsDirOrMissing k = (k ≡ none) ⊎ (k ≡ some dir)

-- The tree without a directory that it may have.
abbrev pub without : FilePath → Tree → Tree
without root tree =
    if is_some (kind_of root tree) then filter (λ n. not (is_prefix root n.path)) tree else tree

module _ {fl : Floats} (f : Fernet) (codec : Codec fl) (crypto : SessionCrypto) where
  removed :
      (root : FilePath) (tree : Tree)
      → IsDirOrMissing (kind_of root tree)
      → (if leads (kind_of root tree) then remove_tree root tree else some tree)
        ≡ some (without root tree)
  removed root tree (inl e) = rw e refl
  removed root tree (inr e) = rw e (remove_tree-removes root tree e)

  -- Deleting an account whose profile is a directory or is missing does not raise: the account has
  -- no stored session and every other account loads as before; of the tree exactly the profile
  -- goes, with all that lies inside it.
  pub delete-Deletes :
      (account other : Text) (disk : Disk) (tree : Tree)
      → IsDirOrMissing (kind_of (profile_path account) tree)
      → let left = delete f codec crypto account (disk, tree) in
        (load f codec crypto other (left.0) ≡ (
          if text_eq account other
          then err (session_not_found other)
          else load f codec crypto other disk))
        × (left.1 ≡ some (without (profile_path account) tree))
  unfolding delete
  delete-Deletes account other disk tree h =
      (load-erase f codec crypto account other disk, removed (profile_path account) tree h)
