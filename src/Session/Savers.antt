-- ===== src/Session/Savers.antt =====
-- Several processes that run `SessionStore.save` of src/pricewatch/session/store.py at one time, each
-- file operation between those of the others.
use pricewatch.Base.{ℕ, ◌≡◌, List, ◌∷◌, Text, take}
use pricewatch.Base.Dict.{text_key}
use pricewatch.Session.Stored.{Floats, StoredSession}
use pricewatch.Session.Crypto.{Bytes}
use pricewatch.Session.Files.{Disk, Step, write_bytes, put, perform}

-- A process that saves a session, with the operations that are left to do.
pub record Saver (fl : Floats) : Type 0 where
  pub session : StoredSession fl
  pub nonce : ℕ
  pub left : List Step

module _ {fl : Floats} where
  -- A process does its next operation, or so far a part of a write.
  pub data Acts (d : Disk) (w : Saver fl) : Disk → Saver fl → Type 0 where
    does :
        (s : Step) (ss : List Step)
        → w.left ≡ s ∷ ss
        → Acts d w (perform s d) (record w { left = ss })
    writes :
        (path : Text) (bytes : Bytes) (ss : List Step) (n : ℕ)
        → w.left ≡ write_bytes path bytes ∷ ss
        → Acts d w (put path (take n bytes) d) w

  -- One of the processes acts.
  pub data Turn : Disk → List (Saver fl) → Disk → List (Saver fl) → Type 0 where
    first :
        (d d' : Disk) (w w' : Saver fl) (ws : List (Saver fl))
        → Acts d w d' w'
        → Turn d (w ∷ ws) d' (w' ∷ ws)
    behind :
        (d d' : Disk) (w : Saver fl) (ws ws' : List (Saver fl))
        → Turn d ws d' ws'
        → Turn d (w ∷ ws) d' (w ∷ ws')

  -- Any number of turns; a process that stops has no further one.
  pub data Turns (d : Disk) (ws : List (Saver fl)) : Disk → List (Saver fl) → Type 0 where
    no_turn : Turns d ws d ws
    one_more :
        (d' d'' : Disk) (ws' ws'' : List (Saver fl))
        → Turns d ws d' ws'
        → Turn d' ws' d'' ws''
        → Turns d ws d'' ws''
