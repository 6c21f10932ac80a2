-- ===== src/Session/Vault.antt =====
-- `SessionStore` of src/pricewatch/session/store.py as a map from accounts to sessions, and the
-- files that stand for it.
use pricewatch.Base.{
  ℕ, ◌≡◌, refl, ◌⊎◌, inl, inr, Bool, true, false, Option, none, some, List, [], ◌∷◌, Text, arith,
  text_eq, text_eq_iff, if◌then◌else◌, sym, ◌∙◌, Bool-cases, ap,
}
use pricewatch.Errors.{Result, ok, err, session_not_found}
use pricewatch.Base.Dict.{erase, text_key}
use pricewatch.Session.Stored.{Floats, StoredSession}
use pricewatch.Session.Crypto.{Fernet, IsFernet, SessionCrypto}
use pricewatch.Session.Files.{Disk, Reached, save_steps, session_name}
use pricewatch.Session.Store.{Codec, IsCodec, token_of, load}
use pricewatch.Session.Saved.{save-Atomic, load-erase}

module _ (fl : Floats) where
  abbrev pub Vault : Type 0
  Vault = Text → Option (StoredSession fl)

  pub data Call : Type 0 where
    saves : StoredSession fl → Call
    deletes : Text → Call

  abbrev pub stored_in : StoredSession fl → Vault → Vault
  stored_in s v a = if text_eq s.account a then some s else v a

  abbrev pub dropped_from : Text → Vault → Vault
  dropped_from account v a = if text_eq account a then none else v a

  -- What a call may do to the map; a save may also fail.
  pub data Allows : Call → Vault → Vault → Type 0 where
    failed : (s : StoredSession fl) (v : Vault) → Allows (saves s) v v
    stored : (s : StoredSession fl) (v : Vault) → Allows (saves s) v (stored_in s v)
    dropped : (a : Text) (v : Vault) → Allows (deletes a) v (dropped_from a v)

  pub data AllowsAll : List Call → Vault → Vault → Type 0 where
    done : (v : Vault) → AllowsAll [] v v
    then_allows :
        (c : Call) (cs : List Call) (v w x : Vault)
        → Allows c v w
        → AllowsAll cs w x
        → AllowsAll (c ∷ cs) v x

module _ {fl : Floats} (f : Fernet) (codec : Codec fl) (crypto : SessionCrypto) where
  -- What a call may do to the files: a save may stop at any point.
  pub data Does : Call fl → Disk → Disk → Type 0 where
    saving :
        (n : ℕ) (s : StoredSession fl) (disk after : Disk)
        → Reached (save_steps s.account (token_of f codec crypto n s)) disk after
        → Does (saves s) disk after
    deleting : (a : Text) (disk : Disk) → Does (deletes a) disk (erase (session_name a) disk)

  pub data DoesAll : List (Call fl) → Disk → Disk → Type 0 where
    none_left : (disk : Disk) → DoesAll [] disk disk
    then_does :
        (c : Call fl) (cs : List (Call fl)) (d e g : Disk)
        → Does c d e
        → DoesAll cs e g
        → DoesAll (c ∷ cs) d g

  abbrev pub answer : Text → Option (StoredSession fl) → Result (StoredSession fl)
  answer a none = err (session_not_found a)
  answer a (some s) = ok s

  -- Loading from the files answers as the map does.
  abbrev pub Represents : Vault fl → Disk → Type 0
  Represents v disk = (a : Text) → load f codec crypto a disk ≡ answer a (v a)

  module _ (lawful : IsFernet f) (is_codec : IsCodec fl codec) where
    -- What `Does` may come to at the map.
    abbrev Simulated : Call fl → Vault fl → Disk → Type 0
    Simulated c v after = (w : Vault fl) × Allows fl c v w × Represents w after

    stored-Represents :
        (s : StoredSession fl) (v : Vault fl) (disk after : Disk)
        → Represents v disk
        → load f codec crypto s.account after ≡ ok s
        → ((a : Text)
            → text_eq s.account a ≡ false
            → load f codec crypto a after ≡ load f codec crypto a disk)
        → Represents (stored_in fl s v) after
    stored-Represents s v disk after r new old a = elim (Bool-cases (text_eq s.account a)) [
      | inl e ↦
          rw e (ap (λ b. load f codec crypto b after) (sym ((text_eq_iff s.account a).0 e)) ∙ new)
      | inr e ↦ rw e (old a e ∙ r a)
    ]

    save-Simulated :
        (n : ℕ) (s : StoredSession fl) (v : Vault fl) (disk after : Disk)
        → Represents v disk
        → Reached (save_steps s.account (token_of f codec crypto n s)) disk after
        → Simulated (saves s) v after
    save-Simulated n s v disk after r steps = elim (at s.account) [
      | inl same ↦ (v, failed s v, λ a. unchanged a same ∙ r a)
      | inr (_, new) ↦ (stored_in fl s v, stored s v, stored-Represents s v disk after r new others)
    ]
      where
        at :
            (a : Text)
            → (load f codec crypto a after ≡ load f codec crypto a disk)
              ⊎ ((a ≡ s.account) × (load f codec crypto a after ≡ ok s))
        at a = save-Atomic f codec crypto lawful is_codec n s s.account a disk after steps

        others :
            (a : Text)
            → text_eq s.account a ≡ false
            → load f codec crypto a after ≡ load f codec crypto a disk
        others a apart = elim (at a) [
          | inl same ↦ same
          | inr (e, _) ↦ absurd (ground (arith, text_eq_iff s.account a))
        ]

        unchanged :
            (a : Text)
            → load f codec crypto s.account after ≡ load f codec crypto s.account disk
            → load f codec crypto a after ≡ load f codec crypto a disk
        unchanged a same = elim (at a) [ inl kept ↦ kept | inr (e, _) ↦ rw e same ]

    delete-Simulated :
        (a : Text) (v : Vault fl) (disk : Disk)
        → Represents v disk
        → Simulated (deletes a) v (erase (session_name a) disk)
    delete-Simulated a v disk r = (
      dropped_from fl a v,
      dropped a v,
      λ b. load-erase f codec crypto a b disk ∙ same b (text_eq a b),
    )
      where
        same :
            (b : Text) (x : Bool)
            → (if x then err (session_not_found b) else load f codec crypto b disk)
              ≡ answer b (if x then none else v b)
        same b true = refl
        same b false = r b

    Does-Simulated :
        (c : Call fl) (v : Vault fl) (disk after : Disk)
        → Represents v disk
        → Does c disk after
        → Simulated c v after
    Does-Simulated c v disk after r (saving n s d e steps) = save-Simulated n s v d e r steps
    Does-Simulated c v disk after r (deleting a d) = delete-Simulated a v d r

    -- Whatever saves and deletions run, each save stopping at any point: there is a run of the map,
    -- in which each save takes its effect whole or not at all, such that afterwards loading from
    -- the files answers for every account as the map does. Fernet decrypts what it encrypted with
    -- the same key, and JSON loads what it dumped.
    pub DoesAll-refines :
        (cs : List (Call fl)) (v : Vault fl) (disk after : Disk)
        → Represents v disk
        → DoesAll cs disk after
        → (w : Vault fl) × AllowsAll fl cs v w × Represents w after
    DoesAll-refines cs v disk after r (none_left d) = (v, done v, r)
    DoesAll-refines cs v disk after r (then_does c rest d e g first later) =
        let (w, allowed, represented) = Does-Simulated c v d e r first in
        let (x, rest_allowed, at_end) = DoesAll-refines rest w e g represented later in
        (x, then_allows c rest v w x allowed rest_allowed, at_end)
