-- ===== src/Accounts/Health.antt =====
-- The health of an account's session in src/pricewatch/accounts.py, across the statements of
-- commands/login.py (`_record_capture`) and cli.py (`session clear`).
use pricewatch.Base.{
  ◌≡◌, refl, Bool, true, false, Option, none, some, List, [], ◌∷◌, Text, arith, text_eq,
  text_eq_iff, text_eq_refl, if◌then◌else◌, ap, ◌∙◌, ◌≢◌,
}
use pricewatch.Accounts.Table.{
  AccountRow, Table, find, captured, forgotten, update_where, record_capture, forget_session,
}
use pricewatch.Accounts.Listing.{ItemRow, state_of, needs_attention}

abbrev pub mapped : Bool → (AccountRow → AccountRow) → Option AccountRow → Option AccountRow
mapped hit f none = none
mapped hit f (some r) = some (if hit then f r else r)

find-update_where :
    (n name : Text) (f : AccountRow → AccountRow) (rs : Table)
    → ((r : AccountRow) → (f r).name ≡ r.name)
    → find n (update_where name f rs) ≡ mapped (text_eq n name) f (find n rs)
unfolding find update_where
find-update_where n name f [] h = refl
find-update_where n name f (r ∷ rs) h = ground (
  arith,
  find-update_where n name f rs h,
  h r,
  text_eq_iff r.name name,
  text_eq_iff r.name n,
  text_eq_iff n name,
)

abbrev alarm_of : List ItemRow → Option AccountRow → Bool
alarm_of items none = false
alarm_of items (some r) = needs_attention (state_of items r)

-- Whether the account of a name is one that needs attention.
abbrev pub alarm : List ItemRow → Text → Table → Bool
alarm items n rs = alarm_of items (find n rs)

alarm-update :
    (items : List ItemRow) (x n : Text) (f : AccountRow → AccountRow) (rs : Table)
    → ((r : AccountRow) → (f r).name ≡ r.name)
    → alarm items x (update_where n f rs) ≡ alarm_of items (mapped (text_eq x n) f (find x rs))
alarm-update items x n f rs h = ap (alarm_of items) (find-update_where x n f rs h)

captured-name : (now : Text) (v : Bool) (r : AccountRow) → (captured now v r).name ≡ r.name
unfolding captured
captured-name now true r = refl
captured-name now false r = refl

forgotten-name : (r : AccountRow) → (forgotten r).name ≡ r.name
unfolding forgotten
forgotten-name r = refl

module _ (items : List ItemRow) (now n : Text) (rs : Table) where
  -- For an account with a row: a verified capture of a session ends the alarm for its account, an unverified one leaves it as
  -- it was, and clearing the session raises it where the account is enabled.
  pub alarm_self :
      (r : AccountRow)
      → find n rs ≡ some r
      → (alarm items n (record_capture now n true rs) ≡ false)
        × (alarm items n (record_capture now n false rs) ≡ alarm items n rs)
        × (alarm items n (forget_session n rs) ≡ r.enabled)
  unfolding record_capture forget_session needs_attention state_of captured forgotten
  alarm_self r h = (
    alarm-update items n n (captured now true) rs (captured-name now true)
        ∙ ground (arith, text_eq_refl n),
    alarm-update items n n (captured now false) rs (captured-name now false)
        ∙ ground (arith, text_eq_refl n),
    alarm-update items n n forgotten rs forgotten-name ∙ ground (arith, text_eq_refl n),
  )

  -- No capture and no clearing of a session changes the alarm of another name.
  pub alarm_others :
      (m : Text) (verified : Bool)
      → m ≢ n
      → (alarm items m (record_capture now n verified rs) ≡ alarm items m rs)
        × (alarm items m (forget_session n rs) ≡ alarm items m rs)
  unfolding record_capture forget_session
  alarm_others m verified h = (
    alarm-update items m n (captured now verified) rs (captured-name now verified)
        ∙ ground (arith, text_eq_iff m n),
    alarm-update items m n forgotten rs forgotten-name ∙ ground (arith, text_eq_iff m n),
  )
