-- ===== src/Cli/Maintained.antt =====
-- What the maintenance commands of src/pricewatch/cli.py leave in the database, one after another.
use pricewatch.Base.{ℕ, ◌≡◌, refl, none, List, [], ◌∷◌, Text, codes, arith, ap, ◌∙◌}
use pricewatch.Base.Unicode.{Unicode}
use pricewatch.Base.Dict.{nat_key}
use pricewatch.Redaction.Value.{decimal}
use pricewatch.Errors.{Result, ok, err}
use pricewatch.Db.Files.{
  Migration, FileEntry, load_migrations, latest_available_version, last_version,
}
use pricewatch.Db.Connection.{Engine, Conn, rollback}
use pricewatch.Db.Runner.{migrate, current_version}
use pricewatch.Db.Migrate.{migrate-IsComplete}
use pricewatch.Db.Refusal.{migrate-current_version}
use pricewatch.Cli.Output.{out, Printed, finished}
use pricewatch.Cli.Database.{
  printed, then_print, applied_lines, pending_lines, close, db_upgrade, db_version,
}

-- Closing a connection with nothing open changes nothing.
pub rollback-closed : (E : Engine) (c : Conn E) → c.pending ≡ none → rollback E c ≡ c
unfolding rollback
rollback-closed E c h = ground arith

not_pending : (n : ℕ) → pending_lines n n ≡ out (decimal n) ∷ []
unfolding pending_lines
not_pending n = ground arith

module _ (E : Engine) (sha256 : Text → Text) (u : Unicode) (fs : List FileEntry)
    {available : List Migration} where
  db_version-latest :
      (c : Conn E)
      → load_migrations u fs ≡ ok available
      → c.pending ≡ none
      → current_version E c ≡ (latest_available_version u fs, c)
      → db_version E sha256 u fs c ≡ (printed (out (decimal (last_version available)) ∷ []), c)
  unfolding db_version latest_available_version
  db_version-latest c l h e =
      let n = last_version available in
      let latest : latest_available_version u fs ≡ ok n = ground arith in
      ap
        (λ x. close E sha256 u (
          then_print x λ applied c'.
            then_print (latest_available_version u fs, c')
              λ latest c''. (printed (pending_lines applied latest), c'')))
        (e ∙ ap (λ r. (r, c)) latest)
      ∙ ap
          (λ r.
            close E sha256 u
              (then_print (r, c) λ latest c''. (printed (pending_lines n latest), c'')))
          latest
      ∙ ap (λ ls. (printed ls, rollback E c)) (not_pending n)
      ∙ ap (λ d. (printed (out (decimal n) ∷ []), d)) (rollback-closed E c h)

  -- `db version` after a `db upgrade` that ended normally, on a connection with no open
  -- transaction, prints the latest version that the directory ships and no note of pending
  -- migrations, and changes nothing.
  pub db_upgrade-version :
      (now : Migration → Text) (c : Conn E)
      → load_migrations u fs ≡ ok available
      → c.pending ≡ none
      → ((db_upgrade E sha256 u now fs c).0).ending ≡ finished
      → let after = (db_upgrade E sha256 u now fs c).1 in
        db_version E sha256 u fs after
        ≡ (printed (out (decimal (last_version available)) ∷ []), after)
  unfolding db_upgrade
  db_upgrade-version now c l h = go (migrate E sha256 u now fs c) refl
    where
      print : List Migration → Conn E → Printed × Conn E
      print applied c' =
          (printed (applied_lines (codes "applied ") (codes "already up to date") applied), c')

      go :
          (x : Result (List Migration) × Conn E)
          → migrate E sha256 u now fs c ≡ x
          → ((close E sha256 u (then_print x print)).0).ending ≡ finished
          → db_version E sha256 u fs ((close E sha256 u (then_print x print)).1) ≡ (
            printed (out (decimal (last_version available)) ∷ []),
            (close E sha256 u (then_print x print)).1,
          )
      go (err x, c') e f = absurd (cc f)
      go (ok applied, c') e f =
          let complete = migrate-IsComplete E sha256 u fs now applied c c' l h e in
          rw (rollback-closed E c' complete.closed) (
            db_version-latest c' l complete.closed
              (migrate-current_version E sha256 u now fs applied available c c' l h e))
