-- ===== src/Session/Acted.antt =====
-- What one file operation of a process does that saves a session, for
-- src/pricewatch/session/store.py.
use pricewatch.Base.{
  ◌≡◌, refl, ◌⊎◌, inl, inr, false, Option, none, some, [], ◌∷◌, Text, arith, text_eq, text_eq_refl,
  take, ap, sym, ◌∙◌, subst, if◌then◌else◌,
}
use pricewatch.Base.Dict.{text_key, lookup, lookup-insert}
use pricewatch.Errors.{ok}
use pricewatch.Session.Stored.{Floats}
use pricewatch.Session.Crypto.{Bytes, File, Fernet, IsFernet, SessionCrypto}
use pricewatch.Session.Files.{
  Disk, touch, write_bytes, replace, put, written, moved, perform, save_steps, session_name,
  temp_name, temp-session,
}
use pricewatch.Session.Store.{Codec, IsCodec, token_of, decoded, read_stored, load}
use pricewatch.Session.Saved.{decoded-token}
use pricewatch.Session.Stages.{apart, lookup-touched, lookup-write, lookup-moved}
use pricewatch.Session.Savers.{Saver, Acts, does, writes}

module _ {fl : Floats} (f : Fernet) (codec : Codec fl) (crypto : SessionCrypto) where
  abbrev pub token : Saver fl → Bytes
  token w = token_of f codec crypto w.nonce w.session

  abbrev pub temp : Saver fl → Text
  temp w = temp_name w.session.account

  abbrev pub path : Saver fl → Text
  path w = session_name w.session.account

  -- How far a process has come, and what its temporary file holds then.
  pub data Holds (d : Disk) (w : Saver fl) : Type 0 where
    at_touch : w.left ≡ save_steps w.session.account (token w) → Holds d w
    at_write : w.left ≡ write_bytes (temp w) (token w) ∷ replace (temp w) (path w) ∷ [] → Holds d w
    at_replace :
        (file : File)
        → w.left ≡ replace (temp w) (path w) ∷ []
        → lookup (temp w) d ≡ some file
        → file.content ≡ token w
        → Holds d w
    at_end : w.left ≡ [] → Holds d w

  -- What a process has done by one act.
  pub record Acted (d : Disk) (w : Saver fl) (d' : Disk) (w' : Saver fl) : Type 0 where
    pub same_session : w'.session ≡ w.session
    pub holds : Holds d' w'
    pub elsewhere :
        (p : Text)
        → text_eq (temp w) p ≡ false
        → text_eq (path w) p ≡ false
        → lookup p d' ≡ lookup p d
    pub own :
        (lookup (path w) d' ≡ lookup (path w) d)
        ⊎ (load f codec crypto w.session.account d' ≡ ok w.session)

  touch-Acted :
      (d : Disk) (w : Saver fl)
      → Acted d w
          (perform (touch (temp w)) d)
          (record w { left = write_bytes (temp w) (token w) ∷ replace (temp w) (path w) ∷ [] })
  unfolding perform
  touch-Acted d w = record {
    same_session = refl;
    holds = at_write refl;
    elsewhere = λ p h k. lookup-touched p (temp w) (lookup (temp w) d) d h;
    own = inl (
        lookup-touched (path w) (temp w) (lookup (temp w) d) d
          (apart _ _ (temp-session w.session.account w.session.account)));
  }

  content-written : (o : Option File) (bytes : Bytes) → (written o bytes).content ≡ bytes
  content-written none bytes = refl
  content-written (some g) bytes = refl

  write-Acted :
      (d : Disk) (w : Saver fl)
      → Acted d w
          (perform (write_bytes (temp w) (token w)) d)
          (record w { left = replace (temp w) (path w) ∷ [] })
  unfolding perform
  write-Acted d w = record {
    same_session = refl;
    holds =
        at_replace (written (lookup (temp w) d) (token w)) refl
          (ground (
            arith,
            text_eq_refl (temp w),
            lookup-insert (temp w) (temp w) (written (lookup (temp w) d) (token w)) d,
          ))
          (content-written (lookup (temp w) d) (token w));
    elsewhere = λ p h k. lookup-write p (temp w) (token w) d h;
    own = inl (
        lookup-write (path w) (temp w) (token w) d
          (apart _ _ (temp-session w.session.account w.session.account)));
  }

  part-Acted :
      (d : Disk) (w : Saver fl) (bytes : Bytes)
      → w.left ≡ write_bytes (temp w) (token w) ∷ replace (temp w) (path w) ∷ []
      → Acted d w (put (temp w) bytes d) w
  part-Acted d w bytes e = record {
    same_session = refl;
    holds = at_write e;
    elsewhere = λ p h k. lookup-write p (temp w) bytes d h;
    own = inl (
        lookup-write (path w) (temp w) bytes d
          (apart _ _ (temp-session w.session.account w.session.account)));
  }

  module _ (lawful : IsFernet f) (is_codec : IsCodec fl codec) where
    replace-Acted :
        (d : Disk) (w : Saver fl) (file : File)
        → lookup (temp w) d ≡ some file
        → file.content ≡ token w
        → Acted d w (perform (replace (temp w) (path w)) d) (record w { left = [] })
    unfolding perform load read_stored
    replace-Acted d w file e c =
        let clear = apart _ _ (temp-session w.session.account w.session.account) in
        let there : lookup (path w) (moved (temp w) (path w) (lookup (temp w) d) d) ≡ some file =
          lookup-moved (path w) (temp w) (path w) file d e clear
          ∙ ap (λ b. if b then some file else lookup (path w) d) (text_eq_refl (path w)) in
        record {
          same_session = refl;
          holds = at_end refl;
          elsewhere = λ p h k.
              lookup-moved p (temp w) (path w) file d e h
              ∙ ap (λ b. if b then some file else lookup p d) k;
          own = inr (
              ap (read_stored f codec crypto w.session.account) there
              ∙ ap (decoded f codec crypto) (λ i. record file { content = c i })
              ∙ decoded-token f codec crypto lawful is_codec w.nonce w.session file);
        }

    pub Acts-Acted : (d d' : Disk) (w w' : Saver fl) → Holds d w → Acts d w d' w' → Acted d w d' w'
    unfolding save_steps
    Acts-Acted d d' w w' (at_touch h) (does s ss e) =
        let p : s ≡ touch (temp w) = cc (h, e) in
        let q : ss ≡ write_bytes (temp w) (token w) ∷ replace (temp w) (path w) ∷ [] = cc (h, e) in
        subst (λ r. Acted d w (perform s d) (record w { left = r })) (sym q)
          (subst
            (λ r.
              Acted d w (perform r d) (record w {
                left = write_bytes (temp w) (token w) ∷ replace (temp w) (path w) ∷ [];
              }))
            (sym p) (touch-Acted d w))
    Acts-Acted d d' w w' (at_write h) (does s ss e) =
        let p : s ≡ write_bytes (temp w) (token w) = cc (h, e) in
        let q : ss ≡ replace (temp w) (path w) ∷ [] = cc (h, e) in
        subst (λ r. Acted d w (perform s d) (record w { left = r })) (sym q)
          (subst (λ r. Acted d w (perform r d) (record w { left = replace (temp w) (path w) ∷ [] }))
            (sym p) (write-Acted d w))
    Acts-Acted d d' w w' (at_replace file h there content) (does s ss e) =
        let p : s ≡ replace (temp w) (path w) = cc (h, e) in
        let q : ss ≡ [] = cc (h, e) in
        subst (λ r. Acted d w (perform s d) (record w { left = r })) (sym q)
          (subst (λ r. Acted d w (perform r d) (record w { left = [] })) (sym p)
            (replace-Acted d w file there content))
    Acts-Acted d d' w w' (at_end h) (does s ss e) = absurd (cc (h, e))
    Acts-Acted d d' w w' (at_touch h) (writes t bytes ss n e) = absurd (cc (h, e))
    Acts-Acted d d' w w' (at_write h) (writes t bytes ss n e) =
        let p : t ≡ temp w = cc (h, e) in
        subst (λ r. Acted d w (put r (take n bytes) d) w) (sym p) (part-Acted d w (take n bytes) h)
    Acts-Acted d d' w w' (at_replace file h there content) (writes t bytes ss n e) =
        absurd (cc (h, e))
    Acts-Acted d d' w w' (at_end h) (writes t bytes ss n e) = absurd (cc (h, e))
