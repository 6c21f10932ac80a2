-- ===== src/Session/Json.antt =====
-- What `json.loads` gives and `json.dumps` takes: Python's values as JSON has them, with the floats
-- as a parameter. A dict is the sequence of its members.
use pricewatch.Base.{
  Bool, true, Option, none, some, List, [], ◌∷◌, Text, text_eq, if◌then◌else◌, ◌&&◌, not, is_some,
  ◌≡◌, refl, map,
}

mutual
  pub data Json (F : Type 0) : Type 0 where
    null : Json F
    bool : Bool → Json F
    number : F → Json F
    text : Text → Json F
    array : Items F → Json F
    object : Members F → Json F

  pub data Items (F : Type 0) : Type 0 where
    nil : Items F
    cons : Json F → Items F → Items F

  pub data Members (F : Type 0) : Type 0 where
    end : Members F
    member : Text → Json F → Members F → Members F

module _ {F : Type 0} where
  abbrev pub items_of : List (Json F) → Items F
  items_of [] = nil
  items_of (j ∷ js) = cons j (items_of js)

  abbrev pub values : Items F → List (Json F)
  values nil = []
  values (cons j js) = j ∷ values js

  -- `dict.get`
  unfoldable pub get : Text → Members F → Option (Json F)
  get k end = none
  get k (member j v m) = if text_eq j k then some v else get k m

  -- No dict in a value has a key twice, as none of Python's has.
  unfoldable mutual
    pub has_keys_once : Json F → Bool
    has_keys_once null = true
    has_keys_once (bool b) = true
    has_keys_once (number x) = true
    has_keys_once (text t) = true
    has_keys_once (array js) = all_keys_once js
    has_keys_once (object m) = members_once m

    pub all_keys_once : Items F → Bool
    all_keys_once nil = true
    all_keys_once (cons j js) = has_keys_once j && all_keys_once js

    pub members_once : Members F → Bool
    members_once end = true
    members_once (member k v m) = not (is_some (get k m)) && (has_keys_once v && members_once m)

  -- A list of values, each written and read by functions of which the second undoes the first.
  module _ {A : Type 0} (json_of : A → Json F) (of_json : Json F → A)
      (back : (a : A) → of_json (json_of a) ≡ a)
      (once : (a : A) → has_keys_once (json_of a) ≡ true) where
    pub values-items_of : (xs : List A) → map of_json (values (items_of (map json_of xs))) ≡ xs
    values-items_of [] = refl
    values-items_of (x ∷ xs) = rw (back x, values-items_of xs) refl

    pub items_of-once : (xs : List A) → all_keys_once (items_of (map json_of xs)) ≡ true
    unfolding all_keys_once
    items_of-once [] = refl
    items_of-once (x ∷ xs) = rw (once x, items_of-once xs) refl
