-- ===== src/Accounts/Unique.antt =====
-- The constraints of the table `accounts`, on names and ids, and `sync_accounts` of
-- src/pricewatch/accounts.py.
use pricewatch.Base.{
  ℕ, ◌+◌, ◌≤◌, ◌<◌, ◌≡◌, refl, ◌≢◌, false, List, [], ◌∷◌, ◌++◌, Text, arith, text_eq, text_eq_iff,
  map, mem, All, All-map, Bool-cases, inl, inr, if◌then◌else◌, ap, ◌∙◌, sym,
}
use mathlib.Core.Path.{subst₂}
use mathlib.Core.List.{append-nil, append_assoc}
use pricewatch.Config.Model.{AccountConfig}
use pricewatch.Accounts.Table.{
  AccountRow, Table, upsert_at, upsert, max_id, disable_except, disable_all,
}
use pricewatch.Accounts.Sync.{upsert_all, sync_table}

-- `id INTEGER PRIMARY KEY` and `name TEXT NOT NULL UNIQUE`
abbrev pub IsUnique : Table → Type 0
IsUnique [] = Unit
IsUnique (r ∷ rs) = All (λ q. (q.id ≢ r.id) × (q.name ≢ r.name)) rs × IsUnique rs

abbrev pub identities : Table → List (ℕ × Text)
identities = map (λ r. (r.id, r.name))

All-le_max_id : (rs : Table) → All (λ q. q.id ≤ max_id rs) rs
unfolding max_id
All-le_max_id [] = tt
All-le_max_id (r ∷ rs) = (omega arith, All-map (λ q h. omega arith) rs (All-le_max_id rs))

All-upsert_at :
    (P : ℕ → Text → Type 0) (now : Text) (id : ℕ) (a : AccountConfig) (rs : Table)
    → P id a.name
    → All (λ q. P q.id q.name) rs
    → All (λ q. P q.id q.name) (upsert_at now id a rs)
unfolding upsert_at
All-upsert_at P now id a [] p h = (p, tt)
All-upsert_at P now id a (r ∷ rs) p h = elim (Bool-cases (text_eq r.name a.name)) [
  | inl e ↦ rw e (h.0, h.1)
  | inr e ↦ rw e (h.0, All-upsert_at P now id a rs p h.1)
]

upsert_at-IsUnique :
    (now : Text) (id : ℕ) (a : AccountConfig) (rs : Table)
    → All (λ q. q.id < id) rs
    → IsUnique rs
    → IsUnique (upsert_at now id a rs)
unfolding upsert_at
upsert_at-IsUnique now id a [] f u = (tt, tt)
upsert_at-IsUnique now id a (r ∷ rs) f u = elim (Bool-cases (text_eq r.name a.name)) [
  | inl e ↦ rw e (u.0, u.1)
  | inr e ↦ rw e (
    All-upsert_at (λ i n. (i ≢ r.id) × (n ≢ r.name)) now id a rs
        (omega (arith, f.0), λ q. ground (arith, text_eq_iff r.name a.name)) u.0,
    upsert_at-IsUnique now id a rs f.1 u.1,
  )
]

upsert_all-IsUnique :
    (now : Text) (accounts : List AccountConfig) (rs : Table)
    → IsUnique rs
    → IsUnique (upsert_all now accounts rs)
unfolding upsert_all upsert
upsert_all-IsUnique now [] rs u = u
upsert_all-IsUnique now (a ∷ rest) rs u =
    upsert_all-IsUnique now rest (upsert_at now (max_id rs + 1) a rs) (
      upsert_at-IsUnique now (max_id rs + 1) a rs
        (All-map (λ q h. omega arith) rs (All-le_max_id rs)) u)

module _ (f : AccountRow → AccountRow) (id : (r : AccountRow) → (f r).id ≡ r.id)
    (name : (r : AccountRow) → (f r).name ≡ r.name) where
  identities-map : (rs : Table) → identities (map f rs) ≡ identities rs
  identities-map [] = refl
  identities-map (r ∷ rs) = λ i. (id r i, name r i) ∷ identities-map rs i

  All-identities :
      (P : ℕ → Text → Type 0) (rs : Table)
      → All (λ q. P q.id q.name) rs
      → All (λ q. P q.id q.name) (map f rs)
  All-identities P [] h = tt
  All-identities P (r ∷ rs) h = (subst₂ P (sym (id r)) (sym (name r)) h.0, All-identities P rs h.1)

  pub map-IsUnique : (rs : Table) → IsUnique rs → IsUnique (map f rs)
  map-IsUnique [] u = tt
  map-IsUnique (r ∷ rs) u = (
    All-identities (λ i n. (i ≢ (f r).id) × (n ≢ (f r).name)) rs (rw (id r, name r) u.0),
    map-IsUnique rs u.1,
  )

-- `sync_accounts` keeps ids and names unique, whatever is configured.
pub sync_table-IsUnique :
    (now : Text) (accounts : List AccountConfig) (rs : Table)
    → IsUnique rs
    → IsUnique (sync_table now accounts rs)
unfolding sync_table disable_except disable_all
sync_table-IsUnique now [] rs u =
    map-IsUnique (λ r. record r { enabled = false }) (λ r. refl) (λ r. refl) (upsert_all now [] rs)
      (upsert_all-IsUnique now [] rs u)
sync_table-IsUnique now (a ∷ rest) rs u =
    map-IsUnique
      (λ r. if mem r.name (map (λ b. b.name) (a ∷ rest)) then r else record r { enabled = false })
      (λ r. ground arith) (λ r. ground arith) (upsert_all now (a ∷ rest) rs)
      (upsert_all-IsUnique now (a ∷ rest) rs u)

upsert_at-identities :
    (now : Text) (id : ℕ) (a : AccountConfig) (rs : Table)
    → (added : List (ℕ × Text)) × (identities (upsert_at now id a rs) ≡ identities rs ++ added)
unfolding upsert_at
upsert_at-identities now id a [] = ((id, a.name) ∷ [], refl)
upsert_at-identities now id a (r ∷ rs) = elim (Bool-cases (text_eq r.name a.name)) [
  | inl e ↦ ([], rw e (sym (append-nil (identities (r ∷ rs)))))
  | inr e ↦
      let (added, h) = upsert_at-identities now id a rs in
      (added, rw e (ap (λ (l : List (ℕ × Text)). (r.id, r.name) ∷ l) h))
]

upsert_all-identities :
    (now : Text) (accounts : List AccountConfig) (rs : Table)
    → (added : List (ℕ × Text)) × (identities (upsert_all now accounts rs) ≡ identities rs ++ added)
unfolding upsert_all upsert
upsert_all-identities now [] rs = ([], sym (append-nil (identities rs)))
upsert_all-identities now (a ∷ rest) rs =
    let id = max_id rs + 1 in
    let (x, h) = upsert_at-identities now id a rs in
    let (y, k) = upsert_all-identities now rest (upsert_at now id a rs) in
    (x ++ y, k ∙ ap (λ (l : List (ℕ × Text)). l ++ y) h ∙ append_assoc (identities rs) x y)

-- `sync_accounts` deletes no row and moves none: the rows of before come first, with their ids and
-- names, and new rows stand behind them.
sync_table-identities :
    (now : Text) (accounts : List AccountConfig) (rs : Table)
    → (added : List (ℕ × Text)) × (identities (sync_table now accounts rs) ≡ identities rs ++ added)
unfolding sync_table disable_except disable_all
sync_table-identities now [] rs =
    let (added, h) = upsert_all-identities now [] rs in
    (added, identities-map (λ r. record r { enabled = false }) (λ r. refl) (λ r. refl) _ ∙ h)
sync_table-identities now (a ∷ rest) rs =
    let (added, h) = upsert_all-identities now (a ∷ rest) rs in
    (
      added,
      identities-map
            (λ r.
              if mem r.name (map (λ b. b.name) (a ∷ rest)) then r else record r { enabled = false })
            (λ r. ground arith) (λ r. ground arith) _
          ∙ h,
    )
