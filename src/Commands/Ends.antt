-- ===== src/Commands/Ends.antt =====
-- When `run_login` of src/pricewatch/commands/login.py ends, and when it ends with a session.
use pricewatch.Base.{
  ℕ, ◌≡◌, refl, Bool, true, false, not, ◌&&◌, Option, none, some, List, [], ◌∷◌, ◌++◌, Text, leb,
  is_some, any, all, arith, ap, ◌∙◌, Bool-cases, inl, inr,
}
use pricewatch.Errors.{Result, ok, err}
use pricewatch.Session.Stored.{Floats, Cookie, Origin}
use pricewatch.Session.Crypto.{Fernet, SessionCrypto}
use pricewatch.Session.Store.{Codec}
use pricewatch.Session.Lock.{Attempt, taken, waits, acquire, acquire-ends, acquire-verdict, verdict}
use pricewatch.Commands.Login.{
  Probe, await_identity, World, Place, LoginResult, require_operator_confirmation, signed_in,
  finish_login, unless_raised, after_sign_in, after_lock, run_login,
}
use pricewatch.Commands.Outcome.{await_identity-ends}

-- The adapter knows of nobody yet, and the deadline has not come.
abbrev pub is_waiting : ℕ → Probe → Bool
is_waiting deadline p = elim p.answer [
  | ok none ↦ not (leb deadline p.clock)
  | ok (some []) ↦ not (leb deadline p.clock)
  | _ ↦ false
]

await_identity-found :
    (deadline clock c : ℕ) (cs : Text) (early later : List Probe)
    → all (is_waiting deadline) early ≡ true
    → await_identity deadline
        (early ++ (record { answer = ok (some (c ∷ cs)); clock = clock } ∷ later))
      ≡ some (ok (c ∷ cs))
unfolding await_identity
await_identity-found deadline clock c cs [] later h = refl
await_identity-found deadline clock c cs (p ∷ early) later h =
    ground (arith, await_identity-found deadline clock c cs early later)

module _ {fl : Floats} (f : Fernet) (codec : Codec fl) (crypto : SessionCrypto) (account : Text)
    (w : World fl) where
  unless_raised-some :
      (r : Result (Unit {0})) (place : Place fl) (x : LoginResult fl × Place fl)
      → is_some ((unless_raised fl f codec crypto account w r place x).0) ≡ true
  unless_raised-some (ok _) place x = refl
  unless_raised-some (err e) place x = refl

  after_sign_in-ends :
      (o : Option (Result (Option Text))) (place : Place fl)
      → is_some o ≡ true
      → is_some ((after_sign_in fl f codec crypto account w o place).0) ≡ true
  unfolding after_sign_in
  after_sign_in-ends none place h = absurd (cc h)
  after_sign_in-ends (some (err e)) place h = refl
  after_sign_in-ends (some (ok identity)) place h = go w.exported
    where
      go :
          (x : Result (List (Cookie fl) × List (Origin fl)))
          → let y : Option (Result (LoginResult fl)) × Place fl = elim x [
            | err e ↦ (some (err e), place)
            | ok (cookies, origins) ↦
                unless_raised fl f codec crypto account w w.updated place
                  (finish_login fl f codec crypto account w identity cookies origins place)
          ] in
            is_some (y.0) ≡ true
      go (err e) = refl
      go (ok (cookies, origins)) = unless_raised-some w.updated place _

  signed_in-ends :
      any (λ p. leb w.probe_deadline p.clock) w.probes ≡ true → is_some (signed_in fl w) ≡ true
  unfolding signed_in require_operator_confirmation
  signed_in-ends h = ground (arith, await_identity-ends w.probe_deadline w.probes h)

  after_lock-ends :
      (o : Option (Result (Unit {0}))) (place : Place fl)
      → is_some o ≡ true
      → is_some (signed_in fl w) ≡ true
      → is_some ((after_lock fl f codec crypto account w o place).0) ≡ true
  unfolding after_lock
  after_lock-ends none place h k = absurd (cc h)
  after_lock-ends (some (err e)) place h k = refl
  after_lock-ends (some (ok _)) place h k = go w.page
    where
      go :
          (p : Result (Unit {0}))
          → let y : Option (Result (LoginResult fl)) × Place fl = elim p [
            | err e ↦ (some (err e), place)
            | ok _ ↦ after_sign_in fl f codec crypto account w (signed_in fl w) place
          ] in
            is_some (y.0) ≡ true
      go (err e) = refl
      go (ok _) = after_sign_in-ends (signed_in fl w) place k

  -- A login does not wait for ever: where an attempt at the lock comes after the lock's deadline
  -- and a probe after the probes' deadline, it returns or raises.
  pub run_login-ends :
      (holder site : Text) (headless : Bool) (place : Place fl)
      → any (λ a. leb w.deadline a.clock) w.attempts ≡ true
      → any (λ p. leb w.probe_deadline p.clock) w.probes ≡ true
      → is_some ((run_login fl f codec crypto account w holder site headless place).0) ≡ true
  unfolding run_login
  run_login-ends holder site headless place h k =
      elim (Bool-cases (headless && not w.has_adapter)) [
        | inl e ↦ rw e refl
        | inr e ↦ rw e (
            after_lock-ends (acquire holder w.deadline w.attempts) place
              (acquire-ends holder w.deadline w.attempts h) (signed_in-ends k))
      ]

  after_lock-succeeds :
      (identity : Text) (cookies : List (Cookie fl)) (origins : List (Origin fl)) (place : Place fl)
      → w.page ≡ ok tt
      → signed_in fl w ≡ some (ok (some identity))
      → w.exported ≡ ok (cookies, origins)
      → w.updated ≡ ok tt
      → let (r, after) =
          finish_login fl f codec crypto account w (some identity) cookies origins place in
        after_lock fl f codec crypto account w (some (ok tt)) place ≡ (some (ok r), after)
  unfolding after_lock after_sign_in
  after_lock-succeeds identity cookies origins place p s e u = rw (p, s, e, u) refl

  -- A login succeeds where it can: if an attempt takes the lock after busy ones before the
  -- deadline, the page opens, a probe names somebody after probes before the deadline that name
  -- nobody, the state exports and the UPDATE goes through, then the run returns a verified result
  -- with that identity.
  pub run_login-succeeds :
      (holder site : Text) (headless : Bool) (place : Place fl) (busy : List Attempt)
      (free : Attempt) (attempts : List Attempt) (early : List Probe) (clock c : ℕ) (cs : Text)
      (later : List Probe) (cookies : List (Cookie fl)) (origins : List (Origin fl))
      → w.has_adapter ≡ true
      → w.attempts ≡ busy ++ (free ∷ attempts)
      → all (waits w.deadline) busy ≡ true
      → free.outcome ≡ taken
      → w.page ≡ ok tt
      → w.probes ≡ early ++ (record { answer = ok (some (c ∷ cs)); clock = clock } ∷ later)
      → all (is_waiting w.probe_deadline) early ≡ true
      → w.exported ≡ ok (cookies, origins)
      → w.updated ≡ ok tt
      → (r : LoginResult fl) × ((run_login fl f codec crypto account w holder site headless place).0
          ≡ some (ok r))
        × (r.verified ≡ true)
        × (r.identity ≡ some (c ∷ cs))
  unfolding run_login signed_in finish_login
  run_login-succeeds holder site headless place busy free attempts early clock c cs later cookies
        origins adapter a h t p q k e u =
      let (r, after) =
        finish_login fl f codec crypto account w (some (c ∷ cs)) cookies origins place in
      let locked : acquire holder w.deadline w.attempts ≡ some (ok tt) =
        ap (acquire holder w.deadline) a
        ∙ acquire-verdict holder w.deadline busy free attempts h (rw t refl)
        ∙ ap (λ o. some (verdict holder o)) t in
      let named : signed_in fl w ≡ some (ok (some (c ∷ cs))) =
        rw (adapter, q, await_identity-found w.probe_deadline clock c cs early later k) refl in
      let skipped : (headless && not w.has_adapter) ≡ false = ground arith in
      let ends = after_lock-succeeds (c ∷ cs) cookies origins place p named e u in
      (r, rw (skipped, locked) (ap (λ x. x.0) ends), refl, refl)
