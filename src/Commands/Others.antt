-- ===== src/Commands/Others.antt =====
-- What a run of `run_login` in src/pricewatch/commands/login.py makes of the sessions of other
-- accounts.
use pricewatch.Base.{
  ◌≡◌, refl, Bool, true, false, not, ◌&&◌, Option, none, some, List, Text, if◌then◌else◌, text_eq,
  ◌∙◌,
}
use pricewatch.Errors.{Result, ok, err, headless_needs_adapter}
use pricewatch.Session.Stored.{Floats, Cookie, Origin}
use pricewatch.Session.Crypto.{Fernet, IsFernet, SessionCrypto}
use pricewatch.Session.Store.{Codec, IsCodec, load}
use pricewatch.Session.Saved.{load-save}
use pricewatch.Session.Lock.{acquire}
use pricewatch.Commands.Login.{
  unless_raised, World, Place, LoginResult, signed_in, finish_login, after_sign_in, after_lock,
  run_login,
}

module _ {fl : Floats} (f : Fernet) (codec : Codec fl) (crypto : SessionCrypto)
    (account other : Text) (w : World fl) (place : Place fl) where
  -- The other account's session loads as before.
  abbrev Spares : Option (Result (LoginResult fl)) × Place fl → Type 0
  Spares x = load f codec crypto other x.1.disk ≡ load f codec crypto other place.disk

  module _ (lawful : IsFernet f) (is_codec : IsCodec fl codec)
      (apart : text_eq account other ≡ false) where
    finish-Spares :
        (identity : Option Text) (cookies : List (Cookie fl)) (origins : List (Origin fl))
        → let done = finish_login fl f codec crypto account w identity cookies origins place in
          load f codec crypto other done.1.disk ≡ load f codec crypto other place.disk
    unfolding finish_login
    finish-Spares identity cookies origins =
        load-save f codec crypto lawful is_codec w.nonce w.saved_at account other cookies origins
          place.disk
        ∙ rw apart refl

    raised-Spares :
        (updated : Result (Unit {0})) (done : LoginResult fl × Place fl)
        → load f codec crypto other done.1.disk ≡ load f codec crypto other place.disk
        → Spares (unless_raised fl f codec crypto account w updated place done)
    raised-Spares (ok t) (r, after) h = h
    raised-Spares (err e) (r, after) h = h

    exported-Spares :
        (identity : Option Text) (o : Result (List (Cookie fl) × List (Origin fl)))
        → Spares (elim o [
          | err e ↦ (some (err e), place)
          | ok (cookies, origins) ↦
              unless_raised fl f codec crypto account w w.updated place
                (finish_login fl f codec crypto account w identity cookies origins place)
        ])
    exported-Spares identity (err e) = refl
    exported-Spares identity (ok (cookies, origins)) =
        raised-Spares w.updated
          (finish_login fl f codec crypto account w identity cookies origins place)
          (finish-Spares identity cookies origins)

    sign_in-Spares :
        (o : Option (Result (Option Text)))
        → Spares (after_sign_in fl f codec crypto account w o place)
    unfolding after_sign_in
    sign_in-Spares none = refl
    sign_in-Spares (some (err e)) = refl
    sign_in-Spares (some (ok identity)) = exported-Spares identity w.exported

    lock-Spares :
        (o : Option (Result (Unit {0}))) → Spares (after_lock fl f codec crypto account w o place)
    unfolding after_lock
    lock-Spares none = refl
    lock-Spares (some (err e)) = refl
    lock-Spares (some (ok t)) = page w.page
      where
        page :
            (p : Result (Unit {0}))
            → Spares (elim p [
              | err e ↦ (some (err e), place)
              | ok _ ↦ after_sign_in fl f codec crypto account w (signed_in fl w) place
            ])
        page (err e) = refl
        page (ok t) = sign_in-Spares (signed_in fl w)

    -- However it ends, a login saves no session but its own account's.
    pub run_login-Spares :
        (holder site : Text) (headless : Bool)
        → Spares (run_login fl f codec crypto account w holder site headless place)
    unfolding run_login
    run_login-Spares holder site headless = guarded (headless && not w.has_adapter)
      where
        guarded :
            (b : Bool)
            → Spares (
                if b
                then (some (err (headless_needs_adapter site)), place)
                else after_lock fl f codec crypto account w
                    (acquire holder w.deadline w.attempts)
                    place)
        guarded true = refl
        guarded false = lock-Spares (acquire holder w.deadline w.attempts)
