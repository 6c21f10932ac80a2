-- ===== src/Accounts/Synced.antt =====
-- What `sync_accounts` of src/pricewatch/accounts.py makes of the table and of the state in its
-- rows.
use pricewatch.Base.{
  ℕ, ◌+◌, ◌≡◌, refl, Option, none, some, List, [], ◌∷◌, Text, arith, text_eq, mem, All, Bool-cases,
  inl, inr, if◌then◌else◌, ◌∙◌, ap, sym, subst, is_some,
}
use pricewatch.Config.Model.{AccountConfig, find_account}
use pricewatch.Config.Names.{Nodup, names, All-find_account}
use mathlib.Core.Option.{some-injective}
use pricewatch.Accounts.Table.{
  AccountRow, Table, new_row, set_config, upsert_at, upsert, max_id, disable_except, disable_all,
  find,
}
use pricewatch.Accounts.Sync.{
  upsert_all, sync_table, Upserted, disabled, keep_or_disable, find-disable_except, find-upsert_all,
}

-- The row of a name after a sync, by what is configured under it and the row of before.
abbrev pub Synced : Text → Option AccountConfig → Option AccountRow → Option AccountRow → Type 0
Synced now none none new = new ≡ none
Synced now none (some r) new = new ≡ some (disabled r)
Synced now (some a) none new = (id : ℕ) × (new ≡ some (new_row now id a))
Synced now (some a) (some r) new = new ≡ some (set_config a r)

mem-names :
    (n : Text) (accounts : List AccountConfig)
    → mem n (names accounts) ≡ is_some (find_account n accounts)
unfolding mem find_account
mem-names n [] = refl
mem-names n (a ∷ rest) = ground (arith, mem-names n rest)

-- Both branches of the last statement disable what is not configured.
sync_table-disable :
    (now : Text) (accounts : List AccountConfig) (rs : Table)
    → sync_table now accounts rs ≡ disable_except (names accounts) (upsert_all now accounts rs)
unfolding sync_table disable_except disable_all mem upsert_all
sync_table-disable now [] rs = refl
sync_table-disable now (a ∷ rest) rs = refl

Synced-of :
    (now : Text) (o : Option AccountConfig) (old new new' : Option AccountRow)
    → Upserted now o old new
    → new' ≡ keep_or_disable (is_some o) new
    → Synced now o old new'
Synced-of now none none new new' u e = ground arith
Synced-of now none (some r) new new' u e = ground arith
Synced-of now (some a) none new new' (id, u) e = (id, ground arith)
Synced-of now (some a) (some r) new new' u e = ground arith

-- After `sync_accounts` with names that are pairwise different: a configured account with a row
-- has that row with the configured site and enabled flag and nothing else changed; a configured
-- account without a row has a new one, of status unknown and with no history; a row that is not
-- configured is disabled and not changed otherwise; and no other name has a row.
pub sync_table-Synced :
    (now n : Text) (accounts : List AccountConfig) (rs : Table)
    → Nodup (names accounts)
    → Synced now (find_account n accounts) (find n rs) (find n (sync_table now accounts rs))
sync_table-Synced now n accounts rs h =
    Synced-of now (find_account n accounts) (find n rs) (find n (upsert_all now accounts rs)) _
      (find-upsert_all n now accounts rs h)
      (ap (find n) (sync_table-disable now accounts rs)
        ∙ find-disable_except n (names accounts) (upsert_all now accounts rs)
        ∙ ap (λ b. keep_or_disable b (find n (upsert_all now accounts rs))) (mem-names n accounts))

-- A table in which an account has its configured site and flag.
abbrev Agrees : Table → AccountConfig → Type 0
Agrees rs a = (r : AccountRow) × (find a.name rs ≡ some r) × (set_config a r ≡ r)

upsert_at-same :
    (now : Text) (id : ℕ) (a : AccountConfig) (rs : Table)
    → Agrees rs a
    → upsert_at now id a rs ≡ rs
unfolding upsert_at find
upsert_at-same now id a [] (r, f, e) = absurd (cc f)
upsert_at-same now id a (q ∷ rs) (r, f, e) = elim (Bool-cases (text_eq q.name a.name)) [
  | inl h ↦
      let same : q ≡ r = some-injective q r (rw h at f) in
      rw h (ap (λ (x : AccountRow). x ∷ rs) (subst (λ x. set_config a x ≡ x) (sym same) e))
  | inr h ↦ rw h (ap (λ (l : Table). q ∷ l) (upsert_at-same now id a rs (r, (rw h at f), e)))
]

upsert_all-same :
    (now : Text) (accounts : List AccountConfig) (rs : Table)
    → All (Agrees rs) accounts
    → upsert_all now accounts rs ≡ rs
unfolding upsert_all upsert
upsert_all-same now [] rs h = refl
upsert_all-same now (a ∷ rest) rs h =
    ap (upsert_all now rest) (upsert_at-same now (max_id rs + 1) a rs h.0)
    ∙ upsert_all-same now rest rs h.1

kept_twice :
    (ns : List Text) (r : AccountRow)
    → let keep : AccountRow → AccountRow = λ x. if mem x.name ns then x else disabled x in
      keep (keep r) ≡ keep r
kept_twice ns r = ground arith

disable_except-twice :
    (ns : List Text) (rs : Table) → disable_except ns (disable_except ns rs) ≡ disable_except ns rs
unfolding disable_except
disable_except-twice ns [] = refl
disable_except-twice ns (r ∷ rs) = λ i. kept_twice ns r i ∷ disable_except-twice ns rs i

-- A configured account agrees with a table in which it has been synced.
Agrees_of :
    (now : Text) (a : AccountConfig) (old new : Option AccountRow)
    → Synced now (some a) old new
    → (r : AccountRow) × (new ≡ some r) × (set_config a r ≡ r)
unfolding new_row
Agrees_of now a none new (id, e) = (new_row now id a, e, refl)
Agrees_of now a (some r) new e = (set_config a r, e, refl)

All-Agrees :
    (now : Text) (all rest : List AccountConfig) (rs : Table)
    → Nodup (names all)
    → All (λ a. find_account a.name all ≡ some a) rest
    → All (Agrees (sync_table now all rs)) rest
All-Agrees now all [] rs h k = tt
All-Agrees now all (a ∷ rest) rs h k = (
  Agrees_of now a (find a.name rs) (find a.name (sync_table now all rs)) (
      subst (λ o. Synced now o (find a.name rs) (find a.name (sync_table now all rs))) k.0
        (sync_table-Synced now a.name all rs h)),
  All-Agrees now all rest rs h k.1,
)

-- A second sync with the same config, whose names are pairwise different, at any later time
-- changes nothing.
pub sync_table-again :
    (now later : Text) (accounts : List AccountConfig) (rs : Table)
    → Nodup (names accounts)
    → sync_table later accounts (sync_table now accounts rs) ≡ sync_table now accounts rs
sync_table-again now later accounts rs h =
    let agree = All-Agrees now accounts accounts rs h (All-find_account accounts h) in
    sync_table-disable later accounts (sync_table now accounts rs)
    ∙ ap (disable_except (names accounts))
        (upsert_all-same later accounts (sync_table now accounts rs) agree)
    ∙ ap (disable_except (names accounts)) (sync_table-disable now accounts rs)
    ∙ disable_except-twice (names accounts) (upsert_all now accounts rs)
    ∙ sym (sync_table-disable now accounts rs)
