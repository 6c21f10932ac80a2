-- ===== src/Session/Interleaved.antt =====
-- What processes that save sessions at one time leave, for src/pricewatch/session/store.py.
use pricewatch.Base.{
  ◌≡◌, refl, ◌≢◌, ◌⊎◌, inl, inr, false, List, [], ◌∷◌, Text, text_eq, text_eq_iff, Bool-cases, map,
  All, ap, sym, ◌∙◌, subst,
}
use pricewatch.Base.Dict.{text_key, lookup}
use pricewatch.Errors.{ok}
use pricewatch.Session.Stored.{Floats, StoredSession}
use pricewatch.Session.Crypto.{Fernet, IsFernet, SessionCrypto}
use pricewatch.Session.Files.{Disk, save_steps, session_name, temp_name, temp-session}
use pricewatch.Session.Store.{Codec, IsCodec, load}
use pricewatch.Session.Stages.{apart}
use pricewatch.Session.Files.{temp_name-injective}
use pricewatch.Base.{All-map}
use pricewatch.Session.Stages.{session_name-eq}
use pricewatch.Session.Saved.{load-same}
use pricewatch.Session.Savers.{Saver, Turn, first, behind, Turns, no_turn, one_more}
use pricewatch.Session.Acted.{
  token, temp, Holds, at_touch, at_write, at_replace, at_end, Acted, Acts-Acted,
}

module _ {fl : Floats} (f : Fernet) (codec : Codec fl) (crypto : SessionCrypto) where
  abbrev pub sessions : List (Saver fl) → List (StoredSession fl)
  sessions = map (λ w. w.session)

  -- They are sessions of different accounts.
  abbrev pub Different : List (StoredSession fl) → Type 0
  Different [] = Unit
  Different (s ∷ ss) = All (λ r. r.account ≢ s.account) ss × Different ss

  -- A path that is none of an account's.
  abbrev Clear : Text → StoredSession fl → Type 0
  Clear p s =
      (text_eq (temp_name s.account) p ≡ false) × (text_eq (session_name s.account) p ≡ false)

  -- The temporary file of an account is none of another's.
  temp-Clear : (r s : StoredSession fl) → r.account ≢ s.account → Clear (temp_name s.account) r
  temp-Clear r s h = (
    apart _ _ (λ e. h (temp_name-injective r.account s.account e)),
    apart _ _ (λ e. temp-session s.account r.account (sym e)),
  )

  session-Clear :
      (r : StoredSession fl) (other : Text)
      → text_eq r.account other ≡ false
      → Clear (session_name other) r
  session-Clear r other h =
      (apart _ _ (temp-session r.account other), session_name-eq r.account other ∙ h)

  -- What is held is held as long as the temporary file stays.
  Holds-kept :
      (d d' : Disk) (w : Saver fl)
      → lookup (temp f codec crypto w) d' ≡ lookup (temp f codec crypto w) d
      → Holds f codec crypto d w
      → Holds f codec crypto d' w
  Holds-kept d d' w e (at_touch h) = at_touch h
  Holds-kept d d' w e (at_write h) = at_write h
  Holds-kept d d' w e (at_replace file h there c) = at_replace file h (e ∙ there) c
  Holds-kept d d' w e (at_end h) = at_end h

  Holds-others :
      (d d' : Disk) (w w' : Saver fl) (ws : List (Saver fl))
      → Acted f codec crypto d w d' w'
      → All (λ r. r.account ≢ w.session.account) (sessions ws)
      → All (Holds f codec crypto d) ws
      → All (Holds f codec crypto d') ws
  Holds-others d d' w w' [] a h k = tt
  Holds-others d d' w w' (v ∷ ws) a h k =
      let (t, s) = temp-Clear w.session v.session (λ e. h.0 (sym e)) in
      (
        Holds-kept d d' v (a.elsewhere (temp f codec crypto v) t s) k.0,
        Holds-others d d' w w' ws a h.1 k.1,
      )

  module _ (lawful : IsFernet f) (is_codec : IsCodec fl codec) (P : StoredSession fl → Type 0)
      (other : Text) where
    -- The account's session is as it was, or one of those that are being saved, whole.
    abbrev AsBeforeOrSaved : Disk → Disk → Type 0
    AsBeforeOrSaved d d' =
        (load f codec crypto other d' ≡ load f codec crypto other d)
        ⊎ ((s : StoredSession fl) × P s
            × (s.account ≡ other)
            × (load f codec crypto other d' ≡ ok s))

    record Turned (d : Disk) (ws : List (Saver fl)) (d' : Disk) (ws' : List (Saver fl))
        : Type 0 where
      same_sessions : sessions ws' ≡ sessions ws
      elsewhere : (p : Text) → All (Clear p) (sessions ws) → lookup p d' ≡ lookup p d
      all_hold : All (Holds f codec crypto d') ws'
      result : AsBeforeOrSaved d d'

    Acted-result :
        (d d' : Disk) (w w' : Saver fl)
        → P w.session
        → Acted f codec crypto d w d' w'
        → AsBeforeOrSaved d d'
    Acted-result d d' w w' p a = elim (Bool-cases (text_eq w.session.account other)) [
      | inl e ↦
          let at : w.session.account ≡ other = (text_eq_iff w.session.account other).0 e in
          elim a.own [
            | inl same ↦ inl (
                load-same f codec crypto other d' d
                  (subst (λ n. lookup (session_name n) d' ≡ lookup (session_name n) d) at same))
            | inr loads ↦
                inr
                  (w.session, p, at, subst (λ n. load f codec crypto n d' ≡ ok w.session) at loads)
          ]
      | inr e ↦
          let (t, s) = session-Clear w.session other e in
          inl (load-same f codec crypto other d' d (a.elsewhere (session_name other) t s))
    ]

    Turn-Turned :
        (d d' : Disk) (ws ws' : List (Saver fl))
        → Different (sessions ws)
        → All P (sessions ws)
        → All (Holds f codec crypto d) ws
        → Turn d ws d' ws'
        → Turned d ws d' ws'
    Turn-Turned d d' ws ws' h p k (first e e' w w' vs act) =
        let a = Acts-Acted f codec crypto lawful is_codec e e' w w' k.0 act in
        record {
          same_sessions = ap (λ (s : StoredSession fl). s ∷ sessions vs) a.same_session;
          elsewhere = λ q c. a.elsewhere q c.0.0 c.0.1;
          all_hold = (a.holds, Holds-others e e' w w' vs a h.0 k.1);
          result = Acted-result e e' w w' p.0 a;
        }
    Turn-Turned d d' ws ws' h p k (behind e e' w vs vs' turn) =
        let t = Turn-Turned e e' vs vs' h.1 p.1 k.1 turn in
        record {
          same_sessions = ap (λ ss. w.session ∷ ss) t.same_sessions;
          elsewhere = λ q c. t.elsewhere q c.1;
          all_hold = (
            Holds-kept e e' w
                (t.elsewhere (temp f codec crypto w)
                  (All-map (λ r. temp-Clear r w.session) (sessions vs) h.0))
                k.0,
            t.all_hold,
          );
          result = t.result;
        }

    -- A process that has only started.
    abbrev pub Starting : Saver fl → Type 0
    Starting w = w.left ≡ save_steps w.session.account (token f codec crypto w)

    record ReachedBy (d : Disk) (ws : List (Saver fl)) (d' : Disk) (ws' : List (Saver fl))
        : Type 0 where
      same_sessions : sessions ws' ≡ sessions ws
      all_hold : All (Holds f codec crypto d') ws'
      result : AsBeforeOrSaved d d'

    Turns-ReachedBy :
        (d : Disk) (ws : List (Saver fl)) (d' : Disk) (ws' : List (Saver fl))
        → Different (sessions ws)
        → All P (sessions ws)
        → All (Holds f codec crypto d) ws
        → Turns d ws d' ws'
        → ReachedBy d ws d' ws'
    Turns-ReachedBy d ws d' ws' h p k no_turn = record {
      same_sessions = refl;
      all_hold = k;
      result = inl refl;
    }
    Turns-ReachedBy d ws d' ws' h p k (one_more e e' vs vs' turns turn) =
        let r = Turns-ReachedBy d ws e vs h p k turns in
        let t =
          Turn-Turned e e' vs vs' (subst Different (sym r.same_sessions) h)
            (subst (All P) (sym r.same_sessions) p) r.all_hold turn in
        record {
          same_sessions = t.same_sessions ∙ r.same_sessions;
          all_hold = t.all_hold;
          result = elim t.result [
            | inl same ↦ elim r.result [
              | inl before ↦ inl (same ∙ before)
              | inr (s, q, at, loads) ↦ inr (s, q, at, same ∙ loads)
            ]
            | inr saved ↦ inr saved
          ];
        }

    -- However the file operations of processes interleave that save sessions of different accounts,
    -- each with any part of a write done, and wherever each of them stops: an account's session
    -- loads as it did before, or as the whole session of that account that one of them saves. What
    -- holds of all sessions that are being saved is `P`. Fernet decrypts what it encrypted with the
    -- same key, and JSON loads what it dumped.
    pub Turns-Atomic :
        (d d' : Disk) (ws ws' : List (Saver fl))
        → Different (sessions ws)
        → All P (sessions ws)
        → All Starting ws
        → Turns d ws d' ws'
        → (load f codec crypto other d' ≡ load f codec crypto other d)
          ⊎ ((s : StoredSession fl) × P s
              × (s.account ≡ other)
              × (load f codec crypto other d' ≡ ok s))
    Turns-Atomic d d' ws ws' h p k turns =
        (Turns-ReachedBy d ws d' ws' h p (All-map (λ w e. at_touch e) ws k) turns).result
