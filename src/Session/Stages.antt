-- ===== src/Session/Stages.antt =====
-- What each path holds after the steps of `SessionStore.save` in src/pricewatch/session/store.py,
-- wherever they stop.
use pricewatch.Base.{
  ◌≡◌, refl, ◌≢◌, ◌⊎◌, inl, inr, false, Option, none, some, [], ◌∷◌, Text, arith, if◌then◌else◌,
  text_eq, text_eq_iff, text_eq_refl, take, ◌∙◌, ap,
}
use pricewatch.Base.Dict.{text_key, lookup, insert, lookup-insert, lookup-erase}
use pricewatch.Session.Crypto.{Bytes, File, private_mode}
use pricewatch.Session.Files.{
  Disk, Reached, stopped, torn, next, touch, write_bytes, replace, put, written, touched, moved,
  perform, perform_all, session_name, session_name-injective,
}

pub apart : (s t : Text) → s ≢ t → text_eq s t ≡ false
apart s t h = ground (arith, text_eq_iff s t)

pub lookup-touched :
    (p t : Text) (o : Option File) (disk : Disk)
    → text_eq t p ≡ false
    → lookup p (touched t o disk) ≡ lookup p disk
lookup-touched p t (some f) disk h = refl
lookup-touched p t none disk h =
    ground (arith, lookup-insert p t (record { mode = private_mode; content = [] }) disk)

pub lookup-write :
    (p t : Text) (bs : Bytes) (disk : Disk)
    → text_eq t p ≡ false
    → lookup p (put t bs disk) ≡ lookup p disk
lookup-write p t bs disk h = ground (arith, lookup-insert p t (written (lookup t disk) bs) disk)

-- The temporary file once it is touched.
abbrev pub start : Option File → File
start (some f) = f
start none = record { mode = private_mode; content = [] }

touched_self :
    (t : Text) (o : Option File) (disk : Disk)
    → lookup t disk ≡ o
    → lookup t (touched t o disk) ≡ some (start o)
touched_self t (some f) disk e = e
touched_self t none disk e =
    ground
      (arith, text_eq_refl t, lookup-insert t t (record { mode = private_mode; content = [] }) disk)

pub lookup-moved :
    (p t s : Text) (f : File) (disk : Disk)
    → lookup t disk ≡ some f
    → text_eq t p ≡ false
    → lookup p (moved t s (lookup t disk) disk) ≡ (if text_eq s p then some f else lookup p disk)
lookup-moved p t s f disk e h =
    ap (λ o. lookup p (moved t s o disk)) e
    ∙ ground (arith, lookup-erase p t (insert s f disk), lookup-insert p s f disk)

module _ (t s : Text) (token : Bytes) (disk : Disk) where
  abbrev d1 : Disk
  d1 = touched t (lookup t disk) disk

  abbrev d2 : Disk
  d2 = put t token d1

  pub written_self : lookup t d2 ≡ some (written (some (start (lookup t disk))) token)
  written_self =
      ground (arith, text_eq_refl t, lookup-insert t t (written (lookup t d1) token) d1)
      ∙ ap (λ o. some (written o token)) (touched_self t (lookup t disk) disk refl)

  -- What every path but the temporary one has at the end.
  pub lookup-done :
      (p : Text)
      → text_eq t p ≡ false
      → lookup p (moved t s (lookup t d2) d2) ≡ (
          if text_eq s p
          then some (written (some (start (lookup t disk))) token)
          else lookup p disk)
  lookup-done p h =
      lookup-moved p t s (written (some (start (lookup t disk))) token) d2 written_self h
      ∙ ap (λ o. if text_eq s p then some (written (some (start (lookup t disk))) token) else o)
          (lookup-write p t token d1 h ∙ lookup-touched p t (lookup t disk) disk h)

stage_replace :
    (t s : Text) (disk after : Disk)
    → Reached (replace t s ∷ []) disk after
    → (after ≡ disk) ⊎ (after ≡ perform (replace t s) disk)
stage_replace t s disk after (stopped ss d) = inl refl
stage_replace t s disk after (next st ss d e (stopped ss' d')) = inr refl

module _ (t s : Text) (token : Bytes) where
  stage_write :
      (p : Text) (disk after : Disk)
      → text_eq t p ≡ false
      → Reached (write_bytes t token ∷ replace t s ∷ []) disk after
      → (lookup p after ≡ lookup p disk)
        ⊎ (after ≡ perform (replace t s) (perform (write_bytes t token) disk))
  unfolding perform
  stage_write p disk after h (stopped ss d) = inl refl
  stage_write p disk after h (torn path bytes ss n d) = inl (lookup-write p t (take n token) disk h)
  stage_write p disk after h (next st ss d e r) = elim (stage_replace t s _ after r) [
    | inl same ↦ inl (ap (lookup p) same ∙ lookup-write p t token disk h)
    | inr done ↦ inr done
  ]

  pub stage_touch :
      (p : Text) (disk after : Disk)
      → text_eq t p ≡ false
      → Reached (touch t ∷ write_bytes t token ∷ replace t s ∷ []) disk after
      → (lookup p after ≡ lookup p disk)
        ⊎ (after ≡ perform_all (touch t ∷ write_bytes t token ∷ replace t s ∷ []) disk)
  unfolding perform perform_all
  stage_touch p disk after h (stopped ss d) = inl refl
  stage_touch p disk after h (next st ss d e r) = elim (stage_write p _ after h r) [
    | inl same ↦ inl (same ∙ lookup-touched p t (lookup t disk) disk h)
    | inr done ↦ inr done
  ]

pub session_name-eq : (a b : Text) → text_eq (session_name a) (session_name b) ≡ text_eq a b
session_name-eq a b =
    let onto : a ≡ b → session_name a ≡ session_name b = λ h. ap session_name h in
    ground (
      arith,
      text_eq_iff a b,
      text_eq_iff (session_name a) (session_name b),
      session_name-injective a b,
      onto,
    )
