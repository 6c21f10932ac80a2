-- ===== src/Commands/Outcome.antt =====
-- What a run of `run_login` in src/pricewatch/commands/login.py leaves behind.
use pricewatch.Base.{
  ◌⊎◌, inl, inr, ℕ, ◌≡◌, refl, Bool, true, false, not, ◌&&◌, Option, none, some, List, [], ◌∷◌,
  Text, leb, length, if◌then◌else◌, is_some, any, arith, text_eq_refl, ◌∙◌, ap, sym,
}
use pricewatch.Errors.{Result, ok, err, headless_needs_adapter, sign_in_timeout}
use pricewatch.Accounts.Table.{record_capture}
use pricewatch.Session.Stored.{Floats, Cookie, Origin, StoredSession, local_storage_keys}
use pricewatch.Session.Crypto.{Fernet, IsFernet, SessionCrypto}
use pricewatch.Session.Store.{Codec, IsCodec, save, load}
use pricewatch.Session.Saved.{load-save}
use pricewatch.Session.Lock.{acquire}
use pricewatch.Commands.Login.{
  unless_raised, Probe, await_identity, World, Place, LoginResult, signed_in, finish_login,
  after_sign_in, after_lock, run_login, require_operator_confirmation,
}

-- Polling for an identity ends at the latest with the first probe whose clock has reached the
-- deadline.
pub await_identity-ends :
    (deadline : ℕ) (probes : List Probe)
    → any (λ p. leb deadline p.clock) probes ≡ true
    → is_some (await_identity deadline probes) ≡ true
unfolding await_identity
await_identity-ends deadline [] h = absurd (cc h)
await_identity-ends deadline (p ∷ ps) h =
    settles p.answer (leb deadline p.clock) (await_identity deadline ps)
      (λ late. await_identity-ends deadline ps (ground arith))
  where
    settles :
        (answer : Result (Option Text)) (late : Bool) (later : Option (Result Text))
        → (late ≡ false → is_some later ≡ true)
        → is_some (elim answer [
          | err e ↦ some (err e)
          | ok none ↦ if late then some (err sign_in_timeout) else later
          | ok (some []) ↦ if late then some (err sign_in_timeout) else later
          | ok (some (c ∷ cs)) ↦ some (ok (c ∷ cs))
        ])
          ≡ true
    settles (err e) late later k = refl
    settles (ok none) late later k = ground arith
    settles (ok (some [])) late later k = ground arith
    settles (ok (some (c ∷ cs))) late later k = refl

module _ {fl : Floats} (f : Fernet) (codec : Codec fl) (crypto : SessionCrypto) (account : Text)
    (w : World fl) where
  -- What a login has done that has come to its end.
  abbrev pub Finished : Place fl → LoginResult fl → Place fl → Type 0
  Finished place r after =
      (r.verified ≡ w.has_adapter)
      × (r.verified ≡ is_some r.identity)
      × (after.table ≡ record_capture w.captured_at account r.verified place.table)
      × ((s : StoredSession fl) × (load f codec crypto account after.disk ≡ ok s)
          × (length s.cookies ≡ r.cookie_count)
          × (length (local_storage_keys fl s) ≡ r.local_storage_count))

  -- What a login may come to.
  abbrev pub LoggedIn : Place fl → Option (Result (LoginResult fl)) × Place fl → Type 0
  LoggedIn place (none, after) = after ≡ place
  LoggedIn place (some (err e), after) =
      (after ≡ place)
      ⊎ ((w.updated ≡ err e)
          × (after.table ≡ place.table)
          × ((s : StoredSession fl) × (load f codec crypto account after.disk ≡ ok s)))
  LoggedIn place (some (ok r), after) = (w.updated ≡ ok tt) × Finished place r after

  module _ (lawful : IsFernet f) (is_codec : IsCodec fl codec) where
    finish-Finished :
        (identity : Option Text) (cookies : List (Cookie fl)) (origins : List (Origin fl))
        (place : Place fl)
        → w.has_adapter ≡ is_some identity
        → let done = finish_login fl f codec crypto account w identity cookies origins place in
          Finished place (done.0) (done.1)
    unfolding finish_login
    finish-Finished identity cookies origins place h =
        let saved = save f codec crypto w.nonce w.saved_at account cookies origins place.disk in
        (
          sym h,
          refl,
          refl,
          (
            saved.0,
            load-save f codec crypto lawful is_codec w.nonce w.saved_at account account cookies
                  origins place.disk
                ∙ ap (λ b. if b then ok (saved.0) else load f codec crypto account place.disk)
                    (text_eq_refl account),
            refl,
            refl,
          ),
        )

    raised-LoggedIn :
        (place : Place fl) (updated : Result (Unit {0})) (done : LoginResult fl × Place fl)
        → w.updated ≡ updated
        → Finished place (done.0) (done.1)
        → LoggedIn place (unless_raised fl f codec crypto account w updated place done)
    raised-LoggedIn place (ok _) (r, after) h l = (h, l)
    raised-LoggedIn place (err e) (r, after) h (v, i, t, (s, loads, n, m)) =
        inr (h, refl, (s, loads))

    exported-LoggedIn :
        (identity : Option Text) (place : Place fl)
        (o : Result (List (Cookie fl) × List (Origin fl)))
        → w.has_adapter ≡ is_some identity
        → LoggedIn place (elim o [
          | err e ↦ (some (err e), place)
          | ok (cookies, origins) ↦
              unless_raised fl f codec crypto account w w.updated place
                (finish_login fl f codec crypto account w identity cookies origins place)
        ])
    exported-LoggedIn identity place (err e) h = inl refl
    exported-LoggedIn identity place (ok (cookies, origins)) h =
        raised-LoggedIn place w.updated
          (finish_login fl f codec crypto account w identity cookies origins place) refl
          (finish-Finished identity cookies origins place h)

    -- An identity is known only if there is an adapter to ask.
    abbrev Agrees : Option (Result (Option Text)) → Type 0
    Agrees none = Unit
    Agrees (some (err e)) = Unit
    Agrees (some (ok identity)) = w.has_adapter ≡ is_some identity

    signed_in-Agrees : Agrees (signed_in fl w)
    unfolding signed_in require_operator_confirmation
    signed_in-Agrees = go w.has_adapter (await_identity w.probe_deadline w.probes) w.confirmed refl
      where
        go :
            (b : Bool) (o : Option (Result Text)) (c : Bool)
            → w.has_adapter ≡ b
            → Agrees (
                if b
                then elim o [
                  | none ↦ none
                  | some (ok t) ↦ some (ok (some t))
                  | some (err e) ↦ some (err e)
                ]
                else elim (require_operator_confirmation fl c) [
                  | ok _ ↦ some (ok none)
                  | err e ↦ some (err e)
                ])
        go true none c h = tt
        go true (some (ok t)) c h = h
        go true (some (err e)) c h = tt
        go false o true h = h
        go false o false h = tt

    sign_in-LoggedIn :
        (o : Option (Result (Option Text))) (place : Place fl)
        → Agrees o
        → LoggedIn place (after_sign_in fl f codec crypto account w o place)
    unfolding after_sign_in
    sign_in-LoggedIn none place h = refl
    sign_in-LoggedIn (some (err e)) place h = inl refl
    sign_in-LoggedIn (some (ok identity)) place h = exported-LoggedIn identity place w.exported h

    lock-LoggedIn :
        (o : Option (Result (Unit {0}))) (place : Place fl)
        → LoggedIn place (after_lock fl f codec crypto account w o place)
    unfolding after_lock
    lock-LoggedIn none place = refl
    lock-LoggedIn (some (err e)) place = inl refl
    lock-LoggedIn (some (ok t)) place = page w.page
      where
        page :
            (p : Result (Unit {0}))
            → LoggedIn place (elim p [
              | err e ↦ (some (err e), place)
              | ok _ ↦ after_sign_in fl f codec crypto account w (signed_in fl w) place
            ])
        page (err e) = inl refl
        page (ok t) = sign_in-LoggedIn (signed_in fl w) place signed_in-Agrees

    pub run_login-LoggedIn :
        (holder site : Text) (headless : Bool) (place : Place fl)
        → LoggedIn place (run_login fl f codec crypto account w holder site headless place)
    unfolding run_login
    run_login-LoggedIn holder site headless place = guarded (headless && not w.has_adapter)
      where
        guarded :
            (b : Bool)
            → LoggedIn place (
                if b
                then (some (err (headless_needs_adapter site)), place)
                else after_lock fl f codec crypto account w
                    (acquire holder w.deadline w.attempts)
                    place)
        guarded true = inl refl
        guarded false = lock-LoggedIn (acquire holder w.deadline w.attempts) place
