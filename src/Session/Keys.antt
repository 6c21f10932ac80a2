-- ===== src/Session/Keys.antt =====
-- Where the key of a session comes from: what `load_or_create` in
-- src/pricewatch/session/crypto.py promises.
use pricewatch.Base.{
  ==_iff, subst, ◌≡◌, refl, ◌%◌, Bool, true, false, Option, none, some, [], ◌∷◌, Text, all, ltb,
  ◌==◌, if◌then◌else◌, ap, Bool-cases, inl, inr,
}
use pricewatch.Errors.{Result, ok, err, invalid_key, key_not_private}
use pricewatch.Session.Crypto.{
  Bytes, Fernet, env_var, key_path, SessionCrypto, File, KeyPlace, strip_bytes, private_mode,
  require_private, make_crypto, from_env, from_file, from_place, load_or_create,
}

module _ (f : Fernet) where
  created_again :
      (generated : Bytes)
      → strip_bytes generated ≡ generated
      → from_file f (record { mode = private_mode; content = generated })
        ≡ make_crypto f generated key_path
  unfolding from_file require_private
  created_again generated h = rw h refl

  module _ (generated later : Bytes) (stripped : strip_bytes generated ≡ generated) where
    again :
        (env : Option Text) (file : Option File)
        → from_place f later ((from_place f generated (record { env = env; key_file = file })).1)
          ≡ from_place f generated (record { env = env; key_file = file })
    unfolding from_place
    again env (some kept) = refl
    again env none =
        ap
          (λ r. (
            r,
            record {
              env = env;
              key_file = some (record { mode = private_mode; content = generated });
            },
          ))
          (created_again generated stripped)

    -- Loading the key a second time gives what the first time gave and changes no file, whatever
    -- key would be generated then: the key that the first time stores is used from then on. A
    -- generated key has no spaces at its ends.
    pub load_or_create-again :
        (env : Option Text) (file : Option File)
        → load_or_create f later
            ((load_or_create f generated (record { env = env; key_file = file })).1)
          ≡ load_or_create f generated (record { env = env; key_file = file })
    unfolding load_or_create from_place
    load_or_create-again none (some kept) = again none (some kept)
    load_or_create-again none none = again none none
    load_or_create-again (some []) (some kept) = again (some []) (some kept)
    load_or_create-again (some []) none = again (some []) none
    load_or_create-again (some (c ∷ cs)) file = refl

  -- Where a key comes from, and that it is usable.
  abbrev pub ComesFrom : KeyPlace → Result SessionCrypto → Type 0
  ComesFrom place (err e) = Unit
  ComesFrom place (ok c) = elim c.source [
    | env_var ↦ (place.env ≡ some c.key) × (f.accepts c.key ≡ true)
    | key_path ↦
        (file : File) × (place.key_file ≡ some file)
        × ((file.mode % 64) ≡ 0)
        × (strip_bytes file.content ≡ c.key)
        × (f.accepts c.key ≡ true)
  ]

  from_env-comes :
      (t : Text) (file : Option File)
      → ComesFrom (record { env = some t; key_file = file }) (from_env f t)
  unfolding from_env make_crypto
  from_env-comes t file = elim (Bool-cases (all (λ c. ltb c 128) t)) [
    | inl e ↦ rw e (elim (Bool-cases (f.accepts t)) [ inl a ↦ rw a (refl, a) | inr a ↦ rw a tt ])
    | inr e ↦ rw e tt
  ]

  private-zero : (file : File) → ((file.mode % 64) == 0) ≡ true → (file.mode % 64) ≡ 0
  private-zero file e = let (to, _) = ==_iff (file.mode % 64) 0 in to e

  abbrev checked : Bool → Result (Unit {0})
  checked b = if b then ok tt else err key_not_private

  tested :
      (env : Option Text) (file : File) (b a : Bool)
      → (b ≡ true → (file.mode % 64) ≡ 0)
      → (a ≡ true → f.accepts (strip_bytes file.content) ≡ true)
      → ComesFrom
          (record { env = env; key_file = some file })
          (elim (checked b) [
            | ok _ ↦
                if a
                then ok (record { key = strip_bytes file.content; source = key_path })
                else err invalid_key
            | err e ↦ err e
          ])
  tested env file true true h k = (file, refl, h refl, refl, k refl)
  tested env file true false h k = tt
  tested env file false a h k = tt

  from_file-comes :
      (env : Option Text) (file : File)
      → ComesFrom (record { env = env; key_file = some file }) (from_file f file)
  unfolding from_file make_crypto require_private
  from_file-comes env file =
      tested env file ((file.mode % 64) == 0) (f.accepts (strip_bytes file.content))
        (private-zero file) (λ h. h)

  module _ (generated : Bytes) (stripped : strip_bytes generated ≡ generated) where
    from_place-comes :
        (env : Option Text) (file : Option File)
        → let r = from_place f generated (record { env = env; key_file = file }) in
          ComesFrom (r.1) (r.0)
    unfolding from_place
    from_place-comes env (some file) = from_file-comes env file
    from_place-comes env none =
        let made : File = record { mode = private_mode; content = generated } in
        subst (ComesFrom (record { env = env; key_file = some made }))
          (created_again generated stripped) (from_file-comes env made)

    -- When a key is loaded or made, Fernet accepts it, and it is the environment variable's value
    -- or the stripped content of the key file as it is then, which neither the group nor others
    -- may read. A generated key has no spaces at its ends.
    pub load_or_create-comes :
        (env : Option Text) (file : Option File)
        → let r = load_or_create f generated (record { env = env; key_file = file }) in
          ComesFrom (r.1) (r.0)
    unfolding load_or_create
    load_or_create-comes none file = from_place-comes none file
    load_or_create-comes (some []) file = from_place-comes (some []) file
    load_or_create-comes (some (c ∷ cs)) file = from_env-comes (c ∷ cs) file
