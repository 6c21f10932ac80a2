-- ===== src/Session/Crypto.antt =====
-- src/pricewatch/session/crypto.py. `Fernet` is a parameter; bytes are lists of numbers.
use pricewatch.Base.{
  ℕ, ◌≡◌, ◌%◌, ◌||◌, ◌&&◌, Bool, Option, none, some, List, [], ◌∷◌, Text, all, is_empty, leb, ltb,
  ◌==◌, if◌then◌else◌,
}
use pricewatch.Errors.{
  or_raise, Result, ok, err, invalid_key, key_not_private, cannot_decrypt, other,
}

abbrev pub Bytes : Type 0
Bytes = List ℕ

-- `cryptography.fernet`. Encryption takes a number that stands for its random bytes and the time.
pub record Fernet : Type 0 where
  pub accepts : Bytes → Bool
  pub encrypt_with : Bytes → ℕ → Bytes → Bytes
  -- nothing for `InvalidToken`
  pub decrypt_with : Bytes → Bytes → Option Bytes

-- A token decrypts, with the key that made it, to what was encrypted.
pub record IsFernet (f : Fernet) : Type 0 where
  pub decrypt-encrypt :
      (k : Bytes) (n : ℕ) (p : Bytes) → f.decrypt_with k (f.encrypt_with k n p) ≡ some p

pub data Source : Type 0 where
  env_var key_path : Source

pub record SessionCrypto : Type 0 where
  pub key : Bytes
  pub source : Source

-- A file: the permission bits of its mode, and its content.
pub record File : Type 0 where
  pub mode : ℕ
  pub content : Bytes

-- What a key comes from: the environment variable and the key file.
pub record KeyPlace : Type 0 where
  pub env : Option Text
  pub key_file : Option File

abbrev pub is_space_byte : ℕ → Bool
is_space_byte c = (leb 9 c && leb c 13) || (c == 32)

unfoldable pub drop_spaces : Bytes → Bytes
drop_spaces [] = []
drop_spaces (c ∷ cs) = let rest = drop_spaces cs in if is_space_byte c then rest else c ∷ cs

unfoldable pub drop_last_spaces : Bytes → Bytes
drop_last_spaces [] = []
drop_last_spaces (c ∷ cs) =
    let rest = drop_last_spaces cs in if is_space_byte c && is_empty rest then [] else c ∷ rest

-- `bytes.strip`
unfoldable pub strip_bytes : Bytes → Bytes
unfolding drop_spaces drop_last_spaces
strip_bytes bs = drop_last_spaces (drop_spaces bs)

-- `0o600`
abbrev pub private_mode : ℕ
private_mode = 384

-- `_require_private`: the last six bits are those of the group and of the others.
unfoldable pub require_private : File → Result (Unit {0})
require_private f = if (f.mode % 64) == 0 then ok tt else err key_not_private

module _ (f : Fernet) where
  -- `SessionCrypto.__init__`
  unfoldable pub make_crypto : Bytes → Source → Result SessionCrypto
  make_crypto key source =
      if f.accepts key then ok (record { key = key; source = source }) else err invalid_key

  unfoldable pub from_env : Text → Result SessionCrypto
  unfolding make_crypto
  from_env t = if all (λ c. ltb c 128) t then make_crypto t env_var else err other

  unfoldable pub from_file : File → Result SessionCrypto
  unfolding make_crypto require_private strip_bytes
  from_file file = elim (require_private file) [
    | ok _ ↦ make_crypto (strip_bytes file.content) key_path
    | err e ↦ err e
  ]

  -- The branches for no environment variable; an empty one counts as none.
  unfoldable pub from_place : Bytes → KeyPlace → Result SessionCrypto × KeyPlace
  unfolding from_file make_crypto
  from_place generated place = elim place.key_file [
    | some file ↦ (from_file file, place)
    | none ↦ (
      make_crypto generated key_path,
      record place { key_file = some (record { mode = private_mode; content = generated }) },
    )
  ]

  -- `load_or_create`, given the key that `generate_key` would return.
  unfoldable pub load_or_create : Bytes → KeyPlace → Result SessionCrypto × KeyPlace
  unfolding from_env from_place
  load_or_create generated place = elim place.env [
    | none ↦ from_place generated place
    | some [] ↦ from_place generated place
    | some (c ∷ cs) ↦ (from_env (c ∷ cs), place)
  ]

  unfoldable pub encrypt : SessionCrypto → ℕ → Bytes → Bytes
  encrypt c n p = f.encrypt_with c.key n p

  unfoldable pub decrypt : SessionCrypto → Bytes → Result Bytes
  decrypt c token = or_raise (f.decrypt_with c.key token) cannot_decrypt
