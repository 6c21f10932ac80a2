-- ===== src/Session/Saved.antt =====
-- What saving a session leaves on the disk, at every point where it may stop.
use pricewatch.Base.{
  ℕ, ◌≡◌, refl, ◌⊎◌, inl, inr, Bool, true, false, Option, none, some, List, Text, arith,
  if◌then◌else◌, text_eq, text_eq_iff, ◌∙◌, ap,
}
use pricewatch.Base.Dict.{text_key, lookup, erase, lookup-erase}
use pricewatch.Errors.{ok, err, ◌>>=◌, session_not_found, or_raise, cannot_decrypt}
use pricewatch.Session.Stored.{Floats, Cookie, Origin, StoredSession}
use pricewatch.Session.Crypto.{File, Fernet, IsFernet, SessionCrypto, encrypt, decrypt}
use pricewatch.Session.Files.{
  Disk, Reached, written, perform, perform_all, save_steps, session_name, temp_name, temp-session,
}
use pricewatch.Session.Store.{Codec, IsCodec, token_of, save, decoded, read_stored, load}
use pricewatch.Session.Stages.{apart, start, lookup-done, stage_touch, session_name-eq}

module _ {fl : Floats} (f : Fernet) (codec : Codec fl) (crypto : SessionCrypto) where
  pub load-same :
      (a : Text) (d e : Disk)
      → lookup (session_name a) d ≡ lookup (session_name a) e
      → load f codec crypto a d ≡ load f codec crypto a e
  unfolding load
  load-same a d e h = ap (read_stored f codec crypto a) h

  module _ (lawful : IsFernet f) (is_codec : IsCodec fl codec) where
    pub decoded-token :
        (n : ℕ) (s : StoredSession fl) (file : File)
        → decoded f codec crypto (record file { content = token_of f codec crypto n s }) ≡ ok s
    unfolding decoded decrypt token_of encrypt
    decoded-token n s file =
        ap (λ o. or_raise o cannot_decrypt >>= codec.loads)
          (lawful.decrypt-encrypt crypto.key n (codec.dumps s))
        ∙ is_codec s

    read-choice :
        (b : Bool) (n : ℕ) (s : StoredSession fl) (file : File) (account : Text) (o : Option File)
        → read_stored f codec crypto account
            (if b then some (record file { content = token_of f codec crypto n s }) else o)
          ≡ (if b then ok s else read_stored f codec crypto account o)
    unfolding read_stored
    read-choice true n s file account o = decoded-token n s file
    read-choice false n s file account o = refl

    load-done :
        (n : ℕ) (s : StoredSession fl) (account other : Text) (disk : Disk)
        → load f codec crypto other
            (perform_all (save_steps account (token_of f codec crypto n s)) disk)
          ≡ (if text_eq account other then ok s else load f codec crypto other disk)
    unfolding load perform perform_all save_steps
    load-done n s account other disk =
        let t = temp_name account in
        let token = token_of f codec crypto n s in
        let old = lookup (session_name other) disk in
        ap (read_stored f codec crypto other) (
          lookup-done t (session_name account) token disk (session_name other)
            (apart _ _ (temp-session account other)))
        ∙ ap
            (λ b.
              read_stored f codec crypto other
                (if b then some (written (some (start (lookup t disk))) token) else old))
            (session_name-eq account other)
        ∙ read-choice (text_eq account other) n s (start (lookup t disk)) other old

    -- Wherever saving a session stops, each account's session loads as it did before, or the save
    -- is complete and it is the account's own: then it loads as what was saved. A session is never
    -- torn, and no other account's session changes. Fernet decrypts what it encrypted with the same
    -- key, and JSON loads what it dumped.
    pub save-Atomic :
        (n : ℕ) (s : StoredSession fl) (account other : Text) (disk after : Disk)
        → Reached (save_steps account (token_of f codec crypto n s)) disk after
        → (load f codec crypto other after ≡ load f codec crypto other disk)
          ⊎ ((other ≡ account) × (load f codec crypto other after ≡ ok s))
    unfolding save_steps
    save-Atomic n s account other disk after r =
        let t = temp_name account in
        let p = session_name other in
        elim (stage_touch t (session_name account) (token_of f codec crypto n s) p disk after
          (apart _ _ (temp-session account other)) r) [
            | inl same ↦ inl (load-same other after disk same)
            | inr done ↦ ground (
              arith,
              text_eq_iff account other,
              ap (load f codec crypto other) done,
              load-done n s account other disk,
            )
          ]

    -- Loading after saving gives the session that `save` returned, and every other account loads
    -- as before. Fernet decrypts what it encrypted with the same key, and JSON loads what it
    -- dumped.
    pub load-save :
        (n : ℕ) (now account other : Text) (cookies : List (Cookie fl)) (origins : List (Origin fl))
        (disk : Disk)
        → let saved = save f codec crypto n now account cookies origins disk in
          load f codec crypto other (saved.1)
          ≡ (if text_eq account other then ok (saved.0) else load f codec crypto other disk)
    unfolding save
    load-save n now account other cookies origins disk =
        load-done n
          (record { account = account; captured_at = now; cookies = cookies; origins = origins })
          account other disk

  pub load-erase :
      (account other : Text) (disk : Disk)
      → load f codec crypto other (erase (session_name account) disk) ≡ (
          if text_eq account other
          then err (session_not_found other)
          else load f codec crypto other disk)
  unfolding load read_stored
  load-erase account other disk =
      ap (read_stored f codec crypto other)
        (lookup-erase (session_name other) (session_name account) disk)
      ∙ ap
          (λ b.
            read_stored f codec crypto other (if b then none else lookup (session_name other) disk))
          (session_name-eq account other)
      ∙ missing (text_eq account other)
    where
      missing :
          (b : Bool)
          → read_stored f codec crypto other (if b then none else lookup (session_name other) disk)
            ≡ (if b
                then err (session_not_found other)
                else read_stored f codec crypto other (lookup (session_name other) disk))
      missing true = refl
      missing false = refl
