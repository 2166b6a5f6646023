-- ===== src/Api/Analyzer.antt =====
-- pkg/parser/api/parser/analyzer.go: the first half of `Parse`, from the source of a file to its API.
pub mod Load
use zctl.Base.{ℕ, List, [], ◌∷◌, none, some, Text}
use zctl.Api.Scanner.{new_scanner}
use zctl.Api.Parser.{Parsed, parsed, nil, crashed, no_fuel, ParseError}
use zctl.Api.Parser.Stmts.{parse, new_parser}
use zctl.Api.Filter.{CheckError}
use zctl.Api.Checks.{Api, Converted, converted, refused, panicked, convert2_api}

-- `exits` is the `log.Fatalln` of `MustNewScanner`; `invalid` holds the errors of `CheckErrors`.
pub data Loaded : Type 0 where
  loaded : Api → Loaded
  invalid : List ParseError → Loaded
  duplicated : CheckError → Loaded
  exits : Loaded
  panics : Loaded
  unfinished : Loaded

abbrev pub of_converted : Converted → Loaded
of_converted (converted a) = loaded a
of_converted (refused e) = duplicated e
of_converted panicked = panics

-- `CheckErrors`, then `r` without errors.
abbrev pub check_errors : List ParseError → Loaded → Loaded
check_errors [] r = r
check_errors (e ∷ es) r = invalid (e ∷ es)

-- Without errors, `ast.Filename` of a nil tree is a panic. The push of the name on the new import
-- stack cannot fail.
abbrev pub after_parse : Text → Parsed (Unit {0}) → Loaded
after_parse filename (parsed a q) =
    check_errors q.errors (of_converted (convert2_api filename q.stmts))
after_parse filename (nil q) = check_errors q.errors panics
after_parse filename crashed = panics
after_parse filename no_fuel = unfinished

-- `base` is the base name of the absolute path `filename`.
unfoldable pub load_api : ℕ → (base filename source : Text) → Loaded
load_api f base filename source = elim (new_scanner base source) [
  | none ↦ exits
  | some s ↦ after_parse filename (parse f (new_parser s))
]
