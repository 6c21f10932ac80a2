-- ===== src/Session/JsonSamples.antt =====
-- A way to write JSON values as bytes and to read them back: operations on a stack of values.
use pricewatch.Base.{
  ℕ, zero, suc, ◌≡◌, refl, true, false, Option, none, some, List, [], ◌∷◌, Text, codes, text_eq,
  ◌∙◌, ap,
}
use pricewatch.Session.Crypto.{Bytes}
use pricewatch.Session.Stored.{Cookie}
use pricewatch.Session.Samples.{whole_floats}
use pricewatch.Session.Json.{
  Json, Items, Members, null, bool, number, text, array, object, nil, cons, end, member, get,
  values, has_keys_once, all_keys_once, members_once,
}
use pricewatch.Session.Envelope.{Outside, IsOutside}

data Cell : Type 0 where
  value : Json ℕ → Cell
  letters : Text → Cell
  several : Items ℕ → Cell
  fields : Members ℕ → Cell

-- An operation and its argument.
operate : ℕ → ℕ → List Cell → List Cell
operate zero n s = value null ∷ s
operate (suc zero) n s = value (bool false) ∷ s
operate (suc (suc zero)) n s = value (bool true) ∷ s
operate (suc (suc (suc zero))) n s = value (number n) ∷ s
operate (suc (suc (suc (suc zero)))) n s = letters [] ∷ s
operate (suc (suc (suc (suc (suc zero))))) n (letters t ∷ s) = letters (n ∷ t) ∷ s
operate (suc (suc (suc (suc (suc (suc zero)))))) n (letters t ∷ s) = value (text t) ∷ s
operate (suc (suc (suc (suc (suc (suc (suc zero))))))) n s = several nil ∷ s
operate (suc (suc (suc (suc (suc (suc (suc (suc zero)))))))) n (value j ∷ several js ∷ s) =
    several (cons j js) ∷ s
operate (suc (suc (suc (suc (suc (suc (suc (suc (suc zero))))))))) n (several js ∷ s) =
    value (array js) ∷ s
operate (suc (suc (suc (suc (suc (suc (suc (suc (suc (suc zero)))))))))) n s = fields end ∷ s
operate (suc (suc (suc (suc (suc (suc (suc (suc (suc (suc (suc zero))))))))))) n
      (letters k ∷ value v ∷ fields m ∷ s) =
    fields (member k v m) ∷ s
operate (suc (suc (suc (suc (suc (suc (suc (suc (suc (suc (suc (suc zero)))))))))))) n
      (fields m ∷ s) =
    value (object m) ∷ s
operate _ n s = s

read_cells : Bytes → List Cell → List Cell
unfolding operate
read_cells (k ∷ n ∷ bs) s = read_cells bs (operate k n s)
read_cells _ s = s

write_text : Text → Bytes → Bytes
write_text [] r = 4 ∷ 0 ∷ r
write_text (c ∷ cs) r = write_text cs (5 ∷ c ∷ r)

mutual
  write_json : Json ℕ → Bytes → Bytes
  write_json null r = 0 ∷ 0 ∷ r
  write_json (bool false) r = 1 ∷ 0 ∷ r
  write_json (bool true) r = 2 ∷ 0 ∷ r
  write_json (number n) r = 3 ∷ n ∷ r
  write_json (text t) r = write_text t (6 ∷ 0 ∷ r)
  write_json (array js) r = write_items js (9 ∷ 0 ∷ r)
  write_json (object m) r = write_members m (12 ∷ 0 ∷ r)

  write_items : Items ℕ → Bytes → Bytes
  write_items nil r = 7 ∷ 0 ∷ r
  write_items (cons j js) r = write_items js (write_json j (8 ∷ 0 ∷ r))

  write_members : Members ℕ → Bytes → Bytes
  write_members end r = 10 ∷ 0 ∷ r
  write_members (member k v m) r = write_members m (write_json v (write_text k (11 ∷ 0 ∷ r)))

read-write_text :
    (t : Text) (r : Bytes) (s : List Cell)
    → read_cells (write_text t r) s ≡ read_cells r (letters t ∷ s)
unfolding read_cells write_text
read-write_text [] r s = refl
read-write_text (c ∷ cs) r s = read-write_text cs (5 ∷ c ∷ r) s

mutual
  unfolding read_cells write_json write_items write_members

  read-write_json :
      (j : Json ℕ) (r : Bytes) (s : List Cell)
      → read_cells (write_json j r) s ≡ read_cells r (value j ∷ s)
  read-write_json null r s = refl
  read-write_json (bool false) r s = refl
  read-write_json (bool true) r s = refl
  read-write_json (number n) r s = refl
  read-write_json (text t) r s = read-write_text t (6 ∷ 0 ∷ r) s
  read-write_json (array js) r s = read-write_items js (9 ∷ 0 ∷ r) s
  read-write_json (object m) r s = read-write_members m (12 ∷ 0 ∷ r) s

  read-write_items :
      (js : Items ℕ) (r : Bytes) (s : List Cell)
      → read_cells (write_items js r) s ≡ read_cells r (several js ∷ s)
  read-write_items nil r s = refl
  read-write_items (cons j js) r s =
      read-write_items js (write_json j (8 ∷ 0 ∷ r)) s
      ∙ read-write_json j (8 ∷ 0 ∷ r) (several js ∷ s)

  read-write_members :
      (m : Members ℕ) (r : Bytes) (s : List Cell)
      → read_cells (write_members m r) s ≡ read_cells r (fields m ∷ s)
  read-write_members end r s = refl
  read-write_members (member k v m) r s =
      read-write_members m (write_json v (write_text k (11 ∷ 0 ∷ r))) s
      ∙ read-write_json v (write_text k (11 ∷ 0 ∷ r)) (fields m ∷ s)
      ∙ read-write_text k (11 ∷ 0 ∷ r) (value v ∷ fields m ∷ s)

abbrev top : List Cell → Option (Json ℕ)
top (value j ∷ s) = some j
top _ = none

abbrev text_or : Option (Json ℕ) → Text
text_or (some (text t)) = t
text_or _ = []

abbrev number_in : Option (Json ℕ) → Option ℕ
number_in (some (number n)) = some n
number_in _ = none

abbrev in_object : Text → Json ℕ → Option (Json ℕ)
in_object k (object m) = get k m
in_object k j = none

abbrev list_in : Option (Json ℕ) → List (Json ℕ)
list_in (some (array js)) = values js
list_in _ = []

abbrev expires_json : Option ℕ → Members ℕ
expires_json none = end
expires_json (some n) = member (codes "expires") (number n) end

abbrev texts : List Text → Items ℕ
texts [] = nil
texts (t ∷ ts) = cons (object (member (codes "name") (text t) end)) (texts ts)

abbrev names_in : List (Json ℕ) → List Text
names_in [] = []
names_in (j ∷ js) = text_or (in_object (codes "name") j) ∷ names_in js

pub outside : Outside whole_floats
unfolding read_cells write_json get
outside = record {
  dumps = λ j. write_json j [];
  loads = λ b. top (read_cells b []);
  isoformat = λ d. d;
  fromisoformat = some;
  str = λ j. [];
  dict = λ j. none;
  cookie_json = λ c. object (member (codes "name") (text c.name) (expires_json c.expires));
  read_cookie = λ j. record {
    name = text_or (in_object (codes "name") j);
    expires = number_in (in_object (codes "expires") j);
  };
  origin_json = λ p. object (
      member (codes "origin") (text p.origin)
        (member (codes "localStorage") (array (texts p.local_storage)) end));
  read_origin = λ j. record {
    origin = text_or (in_object (codes "origin") j);
    local_storage = names_in (list_in (in_object (codes "localStorage") j));
  };
}

names_in-texts : (ts : List Text) → names_in (values (texts ts)) ≡ ts
unfolding get text_eq
names_in-texts [] = refl
names_in-texts (t ∷ ts) = ap (λ us. t ∷ us) (names_in-texts ts)

texts-once : (ts : List Text) → all_keys_once (texts ts) ≡ true
unfolding all_keys_once has_keys_once members_once get
texts-once [] = refl
texts-once (t ∷ ts) = texts-once ts

read_same : (c : Cookie whole_floats) → outside.read_cookie (outside.cookie_json c) ≡ c
unfolding outside get text_eq
read_same c = go c.expires
  where
    go :
        (e : Option ℕ)
        → let c' : Cookie whole_floats = record { name = c.name; expires = e } in
          outside.read_cookie (outside.cookie_json c') ≡ c'
    go none = refl
    go (some n) = refl

written_once : (c : Cookie whole_floats) → has_keys_once (outside.cookie_json c) ≡ true
unfolding outside has_keys_once members_once get text_eq
written_once c = go c.expires
  where
    go :
        (e : Option ℕ)
        → has_keys_once (object (member (codes "name") (text c.name) (expires_json e))) ≡ true
    go none = refl
    go (some n) = refl

pub outside-IsOutside : IsOutside outside
unfolding outside get text_eq has_keys_once members_once
outside-IsOutside = record {
  loads-dumps = λ j h. ap top (read-write_json j [] []);
  fromisoformat-isoformat = λ d. refl;
  read_cookie-cookie_json = read_same;
  read_origin-origin_json = λ p.
      ap (λ ts. record { origin = p.origin; local_storage = ts }) (names_in-texts p.local_storage);
  cookie_keys = written_once;
  origin_keys = λ p. rw (texts-once p.local_storage) refl;
}
