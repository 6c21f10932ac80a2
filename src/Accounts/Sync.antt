-- ===== src/Accounts/Sync.antt =====
-- `sync_accounts` of src/pricewatch/accounts.py, and the row that each name has after it.
use pricewatch.Base.{
  ℕ, ◌+◌, ◌≡◌, refl, ◌≢◌, Bool, false, not, Option, none, some, List, [], ◌∷◌, Text, arith, text_eq,
  text_eq_iff, mem, is_empty, All, Bool-cases, inl, inr, if◌then◌else◌, ◌∙◌, subst,
}
use pricewatch.Config.Model.{AccountConfig, find_account}
use pricewatch.Config.Names.{Nodup, names}
use pricewatch.Accounts.Table.{
  AccountRow, Table, new_row, set_config, upsert_at, upsert, max_id, disable_except, disable_all,
  find,
}

-- The loop over `config.accounts`.
unfoldable pub upsert_all : Text → List AccountConfig → Table → Table
upsert_all now [] rs = rs
upsert_all now (a ∷ rest) rs = upsert_all now rest (upsert now a rs)

-- The block of `sync_accounts` inside its transaction.
unfoldable pub sync_table : Text → List AccountConfig → Table → Table
unfolding upsert_all disable_except disable_all
sync_table now accounts rs =
    let upserted = upsert_all now accounts rs in
    if not (is_empty (names accounts))
    then disable_except (names accounts) upserted
    else disable_all upserted

-- The row of a name after the upsert of an account of that name.
abbrev pub upserted_row : Text → ℕ → AccountConfig → Option AccountRow → AccountRow
upserted_row now id a none = new_row now id a
upserted_row now id a (some r) = set_config a r

pub find-upsert_at :
    (n now : Text) (id : ℕ) (a : AccountConfig) (rs : Table)
    → find n (upsert_at now id a rs)
      ≡ (if text_eq a.name n then some (upserted_row now id a (find n rs)) else find n rs)
unfolding upsert_at find
find-upsert_at n now id a [] = ground arith
find-upsert_at n now id a (r ∷ rs) = ground (
  arith,
  find-upsert_at n now id a rs,
  text_eq_iff r.name a.name,
  text_eq_iff r.name n,
  text_eq_iff a.name n,
)

abbrev pub disabled : AccountRow → AccountRow
disabled r = record r { enabled = false }

abbrev pub keep_or_disable : Bool → Option AccountRow → Option AccountRow
keep_or_disable keep none = none
keep_or_disable keep (some r) = some (if keep then r else disabled r)

pub find-disable_except :
    (n : Text) (ns : List Text) (rs : Table)
    → find n (disable_except ns rs) ≡ keep_or_disable (mem n ns) (find n rs)
unfolding disable_except find
find-disable_except n ns [] = refl
find-disable_except n ns (r ∷ rs) = elim (Bool-cases (text_eq r.name n)) [
  | inl e ↦ ground (arith, text_eq_iff r.name n)
  | inr e ↦ ground (arith, find-disable_except n ns rs)
]

-- What the loop makes of the row of a name, by what is configured under it and what was there.
abbrev pub Upserted : Text → Option AccountConfig → Option AccountRow → Option AccountRow → Type 0
Upserted now none old new = new ≡ old
Upserted now (some a) none new = (id : ℕ) × (new ≡ some (new_row now id a))
Upserted now (some a) (some r) new = new ≡ some (set_config a r)

not_found :
    (n : Text) (rest : List AccountConfig)
    → All (λ s. s ≢ n) (names rest)
    → find_account n rest ≡ none
unfolding find_account
not_found n [] h = refl
not_found n (a ∷ rest) h = ground (arith, h.0, text_eq_iff a.name n, not_found n rest h.1)

upsert_hit :
    (n now : Text) (id : ℕ) (a : AccountConfig) (old new : Option AccountRow)
    → new ≡ some (upserted_row now id a old)
    → Upserted now (some a) old new
upsert_hit n now id a none new h = (id, h)
upsert_hit n now id a (some r) new h = h

pub find-upsert_all :
    (n now : Text) (accounts : List AccountConfig) (rs : Table)
    → Nodup (names accounts)
    → Upserted now (find_account n accounts) (find n rs) (find n (upsert_all now accounts rs))
unfolding upsert_all find_account upsert
find-upsert_all n now [] rs h = refl
find-upsert_all n now (a ∷ rest) rs h =
    let id = max_id rs + 1 in
    let ih = find-upsert_all n now rest (upsert_at now id a rs) h.1 in
    elim (Bool-cases (text_eq a.name n)) [
      | inl e ↦
          let absent : find_account n rest ≡ none =
            not_found n rest
              (subst (λ m. All (λ s. s ≢ m) (names rest)) ((text_eq_iff a.name n).0 e) h.0) in
          rw e (
            upsert_hit n now id a (find n rs) _
              (ground (arith, (rw absent at ih), find-upsert_at n now id a rs)))
      | inr e ↦ rw e (
          subst
            (λ o.
              Upserted now (find_account n rest) o
                (find n (upsert_all now rest (upsert_at now id a rs))))
            (find-upsert_at n now id a rs ∙ (rw e refl)) ih)
    ]
