-- ===== src/Db/Records.antt =====
-- The rows of `schema_migrations` read back as the dict of `_applied`.
use pricewatch.Base.{
  subst, ℕ, ◌≡◌, refl, true, false, none, List, [], ◌∷◌, ◌++◌, Text, any, ◌==◌, arith, map, filter,
  not, is_empty, leb, ==_iff, Bool-cases, inl, inr, ◌↔◌,
}
use pricewatch.Base.Dict.{Dict, nat_key, lookup, insert, lookup-insert}
use pricewatch.Db.Connection.{Row}
use pricewatch.Db.Runner.{add_rows, orphans_of}
use pricewatch.Db.Files.{Migration, versions}
use pricewatch.Base.Sort.{is_empty-sort}

pub add_rows-append :
    (d : Dict ℕ (Text × Text)) (rs : List Row) (r : Row)
    → add_rows d (rs ++ r ∷ []) ≡ insert r.version (r.name, r.checksum) (add_rows d rs)
unfolding add_rows
add_rows-append d [] r = refl
add_rows-append d (q ∷ rs) r = add_rows-append (insert q.version (q.name, q.checksum) d) rs r

-- A version that no row has is not in the dict.
pub lookup-add_rows_absent :
    (v : ℕ) (d : Dict ℕ (Text × Text)) (rs : List Row)
    → lookup v d ≡ none
    → any (λ q. q.version == v) rs ≡ false
    → lookup v (add_rows d rs) ≡ none
unfolding add_rows
lookup-add_rows_absent v d [] h k = h
lookup-add_rows_absent v d (q ∷ rs) h k =
    lookup-add_rows_absent v (insert q.version (q.name, q.checksum) d) rs
      (ground (arith, lookup-insert v q.version (q.name, q.checksum) d)) (ground arith)

-- The keys of a dict all stand in a list.
abbrev pub KeysIn : List ℕ → Dict ℕ (Text × Text) → Type 0
KeysIn vs [] = Unit
KeysIn vs ((k, _) ∷ d) = (any (λ w. w == k) vs ≡ true) × KeysIn vs d

pub insert-KeysIn :
    (vs : List ℕ) (k : ℕ) (x : Text × Text) (d : Dict ℕ (Text × Text))
    → any (λ w. w == k) vs ≡ true
    → KeysIn vs d
    → KeysIn vs (insert k x d)
unfolding insert
insert-KeysIn vs k x [] h q = (h, tt)
insert-KeysIn vs k x ((j, y) ∷ d) h q = elim (Bool-cases (j == k)) [
  | inl e ↦ rw e q
  | inr e ↦ rw e (q.0, insert-KeysIn vs k x d h q.1)
]

pub KeysIn-insert :
    (vs : List ℕ) (k : ℕ) (x : Text × Text) (d : Dict ℕ (Text × Text))
    → KeysIn vs (insert k x d)
    → (any (λ w. w == k) vs ≡ true) × KeysIn vs d
unfolding insert
KeysIn-insert vs k x [] h = h
KeysIn-insert vs k x ((j, y) ∷ d) h = elim (Bool-cases (j == k)) [
  | inl e ↦
      let h' : KeysIn vs ((j, x) ∷ d) = rw e at h in
      (subst (λ v. any (λ w. w == v) vs ≡ true) ((==_iff j k).0 e) h'.0, h')
  | inr e ↦
      let h' : KeysIn vs ((j, y) ∷ insert k x d) = rw e at h in
      let (here, rest) = KeysIn-insert vs k x d h'.1 in (here, (h'.0, rest))
]

KeysIn_iff :
    (vs : List ℕ) (d : Dict ℕ (Text × Text))
    → (is_empty (filter (λ v. not (any (λ w. w == v) vs)) (map (λ (v, _). v) d)) ≡ true)
      ↔ KeysIn vs d
KeysIn_iff vs [] = (λ h. tt, λ h. refl)
KeysIn_iff vs ((k, x) ∷ d) = elim (Bool-cases (any (λ w. w == k) vs)) [
  | inl e ↦ rw e (λ h. (refl, (KeysIn_iff vs d).0 h), λ h. (KeysIn_iff vs d).1 h.1)
  | inr e ↦ rw e (λ h. cc, λ h. cc)
]

-- There is no orphan exactly when every recorded version is one of the available ones.
pub orphans_of-KeysIn :
    (d : Dict ℕ (Text × Text)) (ms : List Migration)
    → (is_empty (orphans_of d ms) ≡ true) ↔ KeysIn (versions ms) d
unfolding orphans_of
orphans_of-KeysIn d ms = rw (is_empty-sort leb) (KeysIn_iff (versions ms) d)
