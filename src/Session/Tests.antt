-- ===== src/Session/Tests.antt =====
-- A stored session, its key, its files and its lock, and the theorems at them.
use pricewatch.Base.{
  filter, not, take, ℕ, ◌≡◌, ◌⊎◌, refl, none, some, List, [], ◌∷◌, Text, codes, text_eq,
  if◌then◌else◌,
}
use pricewatch.Base.Dict.{text_key}
use pricewatch.Errors.{ok}
use pricewatch.Session.Crypto.{strip_bytes, load_or_create}
use pricewatch.Session.Keys.{load_or_create-again, ComesFrom, load_or_create-comes}
use pricewatch.Session.Files.{
  Disk, Reached, stopped, torn, next, touch, replace, put, perform, save_steps, temp_name,
  session_name,
}
use pricewatch.Session.Store.{token_of, save, load, profile_path}
use pricewatch.Session.Saved.{save-Atomic}
use pricewatch.Session.Envelope.{envelope_codec, load-save_enveloped}
use pricewatch.Session.JsonSamples.{outside, outside-IsOutside}
use pricewatch.Session.Removed.{remove_tree-removes}
use pricewatch.Session.Tree.{Tree, dir, regular, symlink, dangling, remove_tree, kind_of, is_prefix}
use pricewatch.Session.Samples.{
  whole_floats, prefix_fernet, prefix_fernet-IsFernet, codec, codec-IsCodec, crypto, sample,
  fresh_cookie, shop,
}
use pricewatch.Base.Dict
use pricewatch.Base.Dict.{erase}
use pricewatch.Session.Vault.{
  Vault, saves, deletes, Represents, DoesAll, then_does, saving, deleting, none_left, AllowsAll,
  DoesAll-refines,
}

load_or_create-again_example :
    load_or_create prefix_fernet
      (codes "later")
      ((load_or_create prefix_fernet (codes "made") (record { env = none; key_file = none })).1)
    ≡ load_or_create prefix_fernet (codes "made") (record { env = none; key_file = none })
unfolding strip_bytes
load_or_create-again_example =
    load_or_create-again prefix_fernet (codes "made") (codes "later") refl none none

load_or_create-comes_example :
    let r = load_or_create prefix_fernet (codes "made") (record { env = none; key_file = none }) in
    ComesFrom prefix_fernet (r.1) (r.0)
unfolding strip_bytes
load_or_create-comes_example = load_or_create-comes prefix_fernet (codes "made") refl none none

-- An account with a stored session, and what saving a new one writes.
abbrev account : Text
account = codes "asos-uk"

abbrev token : List ℕ
token = token_of prefix_fernet codec crypto 9 sample

abbrev disk : Disk
disk = (session_name account, record { mode = 384; content = 1 ∷ [] }) ∷ []

-- The process stops while it writes, after five bytes.
abbrev torn_disk : Disk
torn_disk = put (temp_name account) (take 5 token) (perform (touch (temp_name account)) disk)

stops : Reached (save_steps account token) disk torn_disk
unfolding save_steps
stops = next (touch (temp_name account)) _ disk torn_disk (
    torn (temp_name account) token (replace (temp_name account) (session_name account) ∷ []) 5
      (perform (touch (temp_name account)) disk))

save-Atomic_example :
    (load prefix_fernet codec crypto account torn_disk
      ≡ load prefix_fernet codec crypto account disk)
    ⊎ ((account ≡ account) × (load prefix_fernet codec crypto account torn_disk ≡ ok sample))
save-Atomic_example =
    save-Atomic prefix_fernet codec crypto prefix_fernet-IsFernet codec-IsCodec 9 sample account
      account disk torn_disk stops

load-save_enveloped_example :
    let codec = envelope_codec outside in
    let saved =
      save prefix_fernet codec crypto 9
        (codes "2026-01-01")
        account
        (fresh_cookie ∷ [])
        (shop ∷ [])
        disk in
    load prefix_fernet codec crypto account (saved.1) ≡ (
      if text_eq account account
      then ok (saved.0)
      else load prefix_fernet codec crypto account disk)
load-save_enveloped_example =
    load-save_enveloped outside outside-IsOutside prefix_fernet crypto 9 (codes "2026-01-01")
      account account (fresh_cookie ∷ []) (shop ∷ []) disk prefix_fernet-IsFernet

-- A profile with a directory, a file in it and a link, beside another profile.
abbrev tree : Tree
tree =
    record { path = codes "profiles" ∷ []; kind = dir }
    ∷ record { path = profile_path account; kind = dir }
    ∷ record { path = codes "profiles" ∷ account ∷ codes "Default" ∷ []; kind = dir }
    ∷ record {
      path = codes "profiles" ∷ account ∷ codes "Default" ∷ codes "Cookies" ∷ [];
      kind = regular;
    }
    ∷ record { path = codes "profiles" ∷ account ∷ codes "SingletonLock" ∷ []; kind = symlink }
    ∷ record { path = codes "profiles" ∷ account ∷ codes "SingletonCookie" ∷ []; kind = dangling }
    ∷ record { path = profile_path (codes "fp"); kind = dir }
    ∷ []

tree_left :
    remove_tree (profile_path account) tree
    ≡ some (
        record { path = codes "profiles" ∷ []; kind = dir }
        ∷ record { path = profile_path (codes "fp"); kind = dir }
        ∷ [])
unfolding remove_tree text_eq
tree_left = refl

is_dir : kind_of (profile_path account) tree ≡ some dir
unfolding kind_of text_eq
is_dir = refl

remove_tree-removes_example :
    remove_tree (profile_path account) tree
    ≡ some (filter (λ n. not (is_prefix (profile_path account) n.path)) tree)
remove_tree-removes_example = remove_tree-removes (profile_path account) tree is_dir

abbrev no_sessions : Vault whole_floats
no_sessions a = none

empty-Represents : Represents prefix_fernet codec crypto no_sessions []
unfolding load Dict.lookup
empty-Represents a = refl

-- A save that stops before it has written anything, a save that ends, and a deletion.
calls :
    DoesAll prefix_fernet codec crypto
      (saves sample ∷ deletes account ∷ [])
      []
      (erase (session_name account) (perform (touch (temp_name account)) []))
unfolding save_steps
calls =
    then_does (saves sample) _ [] (perform (touch (temp_name account)) []) _
      (saving 9 sample [] _ (next (touch (temp_name account)) _ [] _ (stopped _ _)))
      (then_does (deletes account) [] _ _ _ (deleting account _) (none_left _))

DoesAll-refines_example :
    (w : Vault whole_floats) × AllowsAll whole_floats
      (saves sample ∷ deletes account ∷ [])
      no_sessions
      w
    × Represents prefix_fernet codec crypto w
        (erase (session_name account) (perform (touch (temp_name account)) []))
DoesAll-refines_example =
    DoesAll-refines prefix_fernet codec crypto prefix_fernet-IsFernet codec-IsCodec
      (saves sample ∷ deletes account ∷ []) no_sessions []
      (erase (session_name account) (perform (touch (temp_name account)) [])) empty-Represents calls
