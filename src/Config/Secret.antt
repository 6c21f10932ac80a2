-- ===== src/Config/Secret.antt =====
-- `SecretValue` of src/pricewatch/config.py: a secret is given literally or by the name of an
-- environment variable. The environment is an argument.
use pricewatch.Base.{
  ◌≡◌, refl, ◌≢◌, ◌⊎◌, inl, inr, Bool, true, false, not, Option, none, some, List, [], ◌∷◌, Text,
  is_some, is_empty, if◌then◌else◌,
}
use pricewatch.Errors.{Result, ok, err, env_unset, secret_without_source}
use pricewatch.Config.Fields.{Problems, check, forbid}

pub record SecretValue : Type 0 where
  pub value : Option Text
  pub env : Option Text

-- A secret as TOML gives it.
pub data RawSecret : Type 0 where
  bare : Text → RawSecret
  table : Option Text → Option Text → List Text → RawSecret

-- `_coerce_bare_string`
unfoldable pub secret_of : RawSecret → SecretValue
secret_of (bare t) = record { value = some t; env = none }
secret_of (table value env extra) = record { value = value; env = env }

abbrev bool_eq : Bool → Bool → Bool
bool_eq true b = b
bool_eq false b = not b

-- `_exactly_one_source` raises if `(self.value is None) == (self.env is None)`.
unfoldable pub exactly_one_source : SecretValue → Bool
exactly_one_source s = not (bool_eq (not (is_some s.value)) (not (is_some s.env)))

abbrev extra_keys : RawSecret → List Text
extra_keys (bare t) = []
extra_keys (table value env extra) = extra

-- The model validator runs once the fields are valid.
unfoldable pub secret_problems : RawSecret → Problems
unfolding exactly_one_source secret_of forbid
secret_problems raw =
    if is_empty (extra_keys raw)
    then check (exactly_one_source (secret_of raw)) []
    else forbid (extra_keys raw)

abbrev pub Environment : Type 0
Environment = Text → Option Text

-- `not resolved`: unset or empty.
abbrev env_value : Text → Option Text → Result Text
env_value name none = err (env_unset name)
env_value name (some []) = err (env_unset name)
env_value name (some (c ∷ t)) = ok (c ∷ t)

-- `SecretValue.resolve`
unfoldable pub resolve : Environment → SecretValue → Result Text
resolve environ s = elim s.value [
  | some v ↦ ok v
  | none ↦ elim s.env [
    | none ↦ err secret_without_source
    | some name ↦ env_value name (environ name)
  ]
]

-- What a call of `resolve` may give.
abbrev pub Resolves : Environment → SecretValue → Result Text → Type 0
Resolves environ s (ok t) =
    (s.value ≡ some t) ⊎ ((name : Text) × (s.env ≡ some name) × (environ name ≡ some t) × (t ≢ []))
Resolves environ s (err e) =
    (s.value ≡ none)
    × ((name : Text) × (s.env ≡ some name)
        × (e ≡ env_unset name)
        × ((environ name ≡ none) ⊎ (environ name ≡ some [])))

env_value-Resolves :
    (environ : Environment) (name : Text) (o : Option Text)
    → environ name ≡ o
    → Resolves environ (record { value = none; env = some name }) (env_value name o)
env_value-Resolves environ name none h = (refl, (name, refl, refl, inl h))
env_value-Resolves environ name (some []) h = (refl, (name, refl, refl, inr h))
env_value-Resolves environ name (some (c ∷ t)) h = inr (name, refl, h, λ e. cc e)

-- A secret that was validated resolves to its literal value, or to the value of its environment
-- variable, which is not empty; or it has no literal value, and the call raises "unset or empty"
-- for its variable, which is so. "Neither a literal value nor a reference" is never raised.
resolve-Resolves :
    (environ : Environment) (raw : RawSecret)
    → secret_problems raw ≡ []
    → Resolves environ (secret_of raw) (resolve environ (secret_of raw))
unfolding resolve secret_problems
resolve-Resolves environ (bare t) h = inl refl
resolve-Resolves environ (table (some v) none []) h = inl refl
resolve-Resolves environ (table none (some name) []) h =
    env_value-Resolves environ name (environ name) refl
resolve-Resolves environ (table (some v) (some name) []) h = absurd (cc h)
resolve-Resolves environ (table none none []) h = absurd (cc h)
resolve-Resolves environ (table v n (k ∷ ks)) h = absurd (cc h)
