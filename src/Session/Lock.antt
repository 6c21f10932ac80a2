-- ===== src/Session/Lock.antt =====
-- `profile_lock` of src/pricewatch/session/lock.py. What `flock` and the clock answer is a sequence
-- of attempts.
use pricewatch.Base.{
  ℕ, ◌≡◌, Bool, true, false, not, ◌&&◌, Option, none, some, List, [], ◌∷◌, ◌++◌, Text, codes, arith,
  any, all, leb, if◌then◌else◌, is_some,
}
use pricewatch.Base.Unicode.{Unicode}
use pricewatch.Errors.{Result, ok, err, profile_busy, other}
use pricewatch.Redaction.Value.{decimal}
use pricewatch.Adapters.Results.{strip}

-- What `flock` does: it takes the lock, it raises EACCES or EAGAIN, or it raises another error.
pub data Outcome : Type 0 where
  taken busy broken : Outcome

-- One turn of the loop, with what `time.monotonic()` returns in it.
pub record Attempt : Type 0 where
  pub outcome : Outcome
  pub clock : ℕ

-- What the holder of the lock writes into the file.
unfoldable pub holder_line : (pid : ℕ) → (owner now : Text) → Text
unfolding decimal
holder_line pid owner now =
    codes "pid=" ++ decimal pid ++ codes " owner=" ++ owner ++ codes " since=" ++ now ++ codes "\n"

abbrev or_another : Text → Text
or_another [] = codes "another process"
or_another (c ∷ t) = c ∷ t

-- `_describe_holder`, with the content of the file, or nothing where reading it raises `OSError`.
unfoldable pub describe_holder : Unicode → Option Text → Text
unfolding strip
describe_holder u none = codes "another process"
describe_holder u (some content) = or_another (strip u content)

-- The loop of `profile_lock`, with what `_describe_holder` reads; nothing when the attempts run out
-- and it still sleeps.
unfoldable pub acquire : Text → ℕ → List Attempt → Option (Result (Unit {0}))
acquire holder deadline [] = none
acquire holder deadline (a ∷ rest) = elim a.outcome [
  | taken ↦ some (ok tt)
  | broken ↦ some (err other)
  | busy ↦
      let later = acquire holder deadline rest in
      if leb deadline a.clock then some (err (profile_busy holder)) else later
]

abbrev pub is_busy : Outcome → Bool
is_busy busy = true
is_busy o = false

-- The loop sleeps after this attempt.
abbrev pub waits : ℕ → Attempt → Bool
waits deadline a = is_busy a.outcome && not (leb deadline a.clock)

-- What the last turn of the loop gives.
abbrev pub verdict : Text → Outcome → Result (Unit {0})
verdict holder taken = ok tt
verdict holder broken = err other
verdict holder busy = err (profile_busy holder)

-- The lock file: whether this process holds the lock, and its content.
pub record LockFile : Type 0 where
  pub held : Bool
  pub content : Text

module _ {W A : Type 0} where
  -- The context manager around a block on the rest of the world: the content of the file is what
  -- it writes of itself, and both `finally` clauses run whatever the block does.
  unfoldable pub profile_lock :
      Text
      → Text
      → (LockFile → W → Result A × W)
      → Result (Unit {0})
      → LockFile
      → W
      → Result A × (LockFile × W)
  profile_lock holder owner block (err e) file w = (err e, (file, w))
  profile_lock holder owner block (ok _) file w =
      let (result, w') = block (record { held = true; content = owner }) w in
      (result, (record { held = false; content = [] }, w'))

module _ (holder : Text) (deadline : ℕ) where
  -- After attempts at which the loop waits, an attempt at which it does not wait decides: the lock
  -- is taken, another error goes through, or the deadline has passed and the profile is busy.
  pub acquire-verdict :
      (before : List Attempt) (a : Attempt) (after : List Attempt)
      → all (waits deadline) before ≡ true
      → waits deadline a ≡ false
      → acquire holder deadline (before ++ (a ∷ after)) ≡ some (verdict holder a.outcome)
  unfolding acquire
  acquire-verdict [] a after h k = ground arith
  acquire-verdict (b ∷ before) a after h k = ground (arith, acquire-verdict before a after)

  -- The loop ends at the latest with the first attempt whose clock has reached the deadline.
  pub acquire-ends :
      (turns : List Attempt)
      → any (λ a. leb deadline a.clock) turns ≡ true
      → is_some (acquire holder deadline turns) ≡ true
  unfolding acquire
  acquire-ends [] h = absurd (cc h)
  acquire-ends (a ∷ rest) h = ground (arith, acquire-ends rest)
