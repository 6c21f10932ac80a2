-- ===== src/Cli/Output.antt =====
-- What a command of src/pricewatch/cli.py prints and how it ends, with the parts of Python's
-- formatting that the commands use. Colours are not modelled.
use pricewatch.Base.{ℕ, zero, suc, ◌-◌, true, false, List, [], ◌∷◌, ◌++◌, Text, codes, length}
use pricewatch.Base.Int.{ℤ, pos, negsuc}
use pricewatch.Redaction.Value.{decimal}
use pricewatch.Errors.{Error, is_pricewatch_error}

pub data Line : Type 0 where
  out : Text → Line
  -- to standard error
  note : Text → Line

-- How the body of a command ends: it returns, it raises `typer.Exit`, or it raises another
-- exception.
pub data Ending : Type 0 where
  finished : Ending
  exits : ℕ → Ending
  raises : Error → Ending

pub record Printed : Type 0 where
  pub lines : List Line
  pub ending : Ending

-- How the process ends.
pub data Process : Type 0 where
  exit_code : ℕ → Process
  -- with a traceback
  crashes : Error → Process

-- `main`, with the texts of the exceptions: a `PricewatchError` is printed, and is code 1.
unfoldable pub main : (Error → Text) → Printed → List Line × Process
unfolding is_pricewatch_error
main message p = elim p.ending [
  | finished ↦ (p.lines, exit_code 0)
  | exits n ↦ (p.lines, exit_code n)
  | raises e ↦ elim (is_pricewatch_error e) [
    | true ↦ (p.lines ++ (note (codes "error: " ++ message e) ∷ []), exit_code 1)
    | false ↦ (p.lines, crashes e)
  ]
]

-- `EXIT_NOT_IMPLEMENTED`
abbrev pub exit_not_implemented : ℕ
exit_not_implemented = 3

-- `_not_implemented`
unfoldable pub not_implemented : Text → ℕ → Text → Printed
not_implemented command phase needs = record {
  lines =
      note (
        codes "`pricewatch "
        ++ command
        ++ codes "` is not implemented yet (planned for phase "
        ++ decimal phase
        ++ codes ").\n"
        ++ needs)
      ∷ [];
  ending = exits exit_not_implemented;
}

-- `str` of an integer
unfoldable pub int_text : ℤ → Text
unfolding decimal
int_text (pos n) = decimal n
int_text (negsuc n) = codes "-" ++ decimal (suc n)

-- `", ".join(…)`
unfoldable pub join_comma : List Text → Text
join_comma [] = []
join_comma (t ∷ []) = t
join_comma (t ∷ s ∷ ts) = t ++ codes ", " ++ join_comma (s ∷ ts)

-- `text or default`
abbrev pub or_text : Text → Text → Text
or_text [] default = default
or_text (c ∷ t) default = c ∷ t

abbrev pub spaces : ℕ → Text
spaces zero = []
spaces (suc n) = b' ' ∷ spaces n

-- `{t:<n}` and `{t:>n}`
abbrev pub pad_right : ℕ → Text → Text
pad_right n t = t ++ spaces (n - length t)

abbrev pub pad_left : ℕ → Text → Text
pad_left n t = spaces (n - length t) ++ t
