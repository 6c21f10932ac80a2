-- ===== src/Browser.antt =====
-- src/pricewatch/browser.py: the bracket around Chromium. Playwright is a parameter, as what a launch
-- gives on the rest of the world.
use pricewatch.Base.{
  ℕ, ◌≡◌, refl, Bool, true, false, not, ◌&&◌, ◌||◌, Option, none, some, [], ◌∷◌, ◌++◌, Text, codes,
  is_some, ◌==◌, if◌then◌else◌,
}
use pricewatch.Base.Unicode.{Unicode, in_range}
use pricewatch.Errors.{Result, err, browser_launch, other}
use pricewatch.Config.Secret.{Environment}

-- `environ.get(name)` as a condition: unset and empty are alike.
abbrev pub non_empty : Option Text → Option Text
non_empty none = none
non_empty (some []) = none
non_empty (some (c ∷ t)) = some (c ∷ t)

-- `EXECUTABLE_ENV_VAR`
abbrev pub executable_env_var : Text
executable_env_var = codes "PRICEWATCH_CHROMIUM_PATH"

unfoldable pub chromium_executable_path : Environment → Option Text
chromium_executable_path environ = non_empty (environ executable_env_var)

-- The arguments of `launch_persistent_context`.
pub record LaunchOptions : Type 0 where
  pub user_data_dir : Text
  pub headless : Bool
  pub executable_path : Option Text
  pub locale : Text
  pub timezone_id : Text
  pub viewport : ℕ × ℕ

unfoldable pub launch_options : Environment → Text → Bool → LaunchOptions
unfolding chromium_executable_path
launch_options environ profile_dir headless = record {
  user_data_dir = profile_dir;
  headless = headless;
  executable_path = chromium_executable_path environ;
  locale = codes "en-GB";
  timezone_id = codes "Europe/London";
  viewport = (1280, 900);
}

-- `str(exc)` and `repr(exc)`
pub record Exception : Type 0 where
  pub text : Text
  pub repr : Text

-- A code point at which `splitlines` breaks a line.
abbrev pub is_line_break : ℕ → Bool
is_line_break c = in_range 10 13 c || in_range 28 30 c || c == 133 || in_range 8232 8233 c

-- `strip()`, as far as the first line goes: what stands before the first other character.
unfoldable pub lstrip : Unicode → Text → Text
lstrip u [] = []
lstrip u (c ∷ t) = if u.is_space c then lstrip u t else c ∷ t

unfoldable pub rstrip : Unicode → Text → Text
rstrip u [] = []
rstrip u (c ∷ t) = elim (rstrip u t) [
  | [] ↦ if u.is_space c then [] else c ∷ []
  | d ∷ s ↦ c ∷ d ∷ s
]

unfoldable pub first_line : Text → Text
first_line [] = []
first_line (c ∷ t) = if is_line_break c then [] else c ∷ first_line t

-- The message of `_launch_hint`.
unfoldable pub launch_message : Unicode → Exception → Text
unfolding lstrip rstrip first_line
launch_message u exc = elim (rstrip u (lstrip u exc.text)) [
  | [] ↦ exc.repr
  | c ∷ t ↦ first_line (c ∷ t)
]

-- `_launch_hint`
unfoldable pub launch_hint : Environment → Unicode → Exception → Text
unfolding launch_message
launch_hint environ u exc =
    codes "could not start Chromium: "
    ++ launch_message u exc
    ++ codes "\nInstall the browser with `uv run playwright install chromium`, or point $"
    ++ executable_env_var
    ++ codes " at an existing Chromium or Chrome binary."
    ++ (if not (is_some (non_empty (environ (codes "DISPLAY"))))
          && not (is_some (non_empty (environ (codes "WAYLAND_DISPLAY"))))
        then codes "\nThere is no display set. A headed browser needs one: run under "
          ++ codes "`xvfb-run -a` on a headless host, or use --headless (which sites are "
          ++ codes "more likely to challenge)."
        else [])

-- What a launch does: it gives a context, it raises Playwright's error, or another.
pub data Launch : Type 0 where
  started : Launch
  refused : Exception → Launch
  broken : Launch

pub record Context : Type 0 where
  pub options : LaunchOptions
  pub default_timeout : Option ℕ
  pub is_open : Bool

abbrev pub new_context : LaunchOptions → ℕ → Context
new_context options timeout_ms = record {
  options = options;
  default_timeout = some timeout_ms;
  is_open = true;
}

module _ {W A : Type 0} (environ : Environment) (u : Unicode) (mkdir : Text → W → W)
    (launch : LaunchOptions → W → Launch × W) where
  -- `persistent_context` around a block on the rest of the world, with the context that it leaves.
  unfoldable pub persistent_context :
      Text → Bool → ℕ → (Context → W → Result A × W) → W → Result A × (Option Context × W)
  unfolding launch_options launch_hint
  persistent_context profile_dir headless timeout_ms block w =
      let options = launch_options environ profile_dir headless in
      let (launched, w') = launch options (mkdir profile_dir w) in
      elim launched [
        | refused exc ↦ (err (browser_launch (launch_hint environ u exc)), (none, w'))
        | broken ↦ (err other, (none, w'))
        | started ↦
            let context = new_context options timeout_ms in
            let (result, w'') = block context w' in
            (result, (some (record context { is_open = false }), w''))
      ]

  -- What a bracket may come to: no context is left open.
  abbrev pub Closes :
      Text
      → Bool
      → ℕ
      → (Context → W → Result A × W)
      → Launch × W
      → Result A × (Option Context × W)
      → Type 0
  Closes profile_dir headless timeout_ms block (started, w) (result, (o, w')) =
      let context = new_context (launch_options environ profile_dir headless) timeout_ms in
      (o ≡ some (record context { is_open = false })) × (block context w ≡ (result, w'))
  Closes profile_dir headless timeout_ms block (refused exc, w) (result, (o, w')) =
      (result ≡ err (browser_launch (launch_hint environ u exc))) × (o ≡ none) × (w' ≡ w)
  Closes profile_dir headless timeout_ms block (broken, w) (result, (o, w')) =
      (result ≡ err other) × (o ≡ none) × (w' ≡ w)

  -- The directory of the profile is made before the launch. A launch that fails leaves no context
  -- and runs no block. One that gives a context runs the block on it while it is open, passes on
  -- what the block returns or raises, and closes the context.
  pub persistent_context-Closes :
      (profile_dir : Text) (headless : Bool) (timeout_ms : ℕ) (block : Context → W → Result A × W)
      (w : W)
      → Closes profile_dir headless timeout_ms block
          (launch (launch_options environ profile_dir headless) (mkdir profile_dir w))
          (persistent_context profile_dir headless timeout_ms block w)
  unfolding persistent_context
  persistent_context-Closes profile_dir headless timeout_ms block w =
      go (launch (launch_options environ profile_dir headless) (mkdir profile_dir w))
    where
      context : Context
      context = new_context (launch_options environ profile_dir headless) timeout_ms

      go :
          (x : Launch × W)
          → let r : Result A × (Option Context × W) = elim x.0 [
            | refused exc ↦ (err (browser_launch (launch_hint environ u exc)), (none, x.1))
            | broken ↦ (err other, (none, x.1))
            | started ↦
                let (result, w'') = block context (x.1) in
                (result, (some (record context { is_open = false }), w''))
          ] in
            Closes profile_dir headless timeout_ms block x r
      go (started, w') = (refl, refl)
      go (refused exc, w') = (refl, refl, refl)
      go (broken, w') = (refl, refl, refl)
