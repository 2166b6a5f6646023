-- ===== src/Api/Analyzer/Load.antt =====
-- How a file is loaded: the ends of the parser and of `convert2API`, put together.
use zctl.Base.{
  ℕ, suc, ◌<◌, List, [], ◌∷◌, some, Text, ◌≡◌, ◌⊎◌, refl, inl, inr, length, arith, sym, subst,
}
use zctl.Api.Scanner.{Scanner, new_scanner}
use zctl.Api.Parser.{Parser, Parsed, parsed, nil, crashed, ParseError}
use zctl.Api.Parser.Stmts.{parse, new_parser}
use zctl.Api.Parser.Total.Ends.{EndsIn, value, no_value, panic, parse_ends}
use zctl.Api.Filter.{CheckError}
use zctl.Api.Checks.{Api, Converted, converted, refused, panicked, convert2_api}
use zctl.Api.Analyzer.{
  Loaded, loaded, invalid, duplicated, load_api, panics, of_converted, check_errors, after_parse,
}

-- How a load ends behind the end `r` of the parser. There is no end in which a nil tree is used.
pub data LoadEnds (filename : Text) (r : Parsed (Unit {0})) : Loaded → Type 0 where
  is_loaded :
      (q : Parser) (a : Api)
      → r ≡ parsed tt q
      → q.errors ≡ []
      → convert2_api filename q.stmts ≡ converted a
      → LoadEnds filename r (loaded a)
  is_duplicated :
      (q : Parser) (e : CheckError)
      → r ≡ parsed tt q
      → q.errors ≡ []
      → convert2_api filename q.stmts ≡ refused e
      → LoadEnds filename r (duplicated e)
  is_invalid :
      (q : Parser) (e : ParseError) (es : List ParseError)
      → (r ≡ parsed tt q) ⊎ (r ≡ nil q)
      → q.errors ≡ e ∷ es
      → LoadEnds filename r (invalid (e ∷ es))
  in_parse : r ≡ crashed → LoadEnds filename r panics
  in_convert :
      (q : Parser)
      → r ≡ parsed tt q
      → q.errors ≡ []
      → convert2_api filename q.stmts ≡ panicked
      → LoadEnds filename r panics

module _ (filename : Text) where
  converted_ends :
      (q : Parser) (c : Converted)
      → q.errors ≡ []
      → convert2_api filename q.stmts ≡ c
      → LoadEnds filename (parsed tt q) (of_converted c)
  converted_ends q (converted a) e h = is_loaded q a refl e h
  converted_ends q (refused x) e h = is_duplicated q x refl e h
  converted_ends q panicked e h = in_convert q refl e h

  parsed_ends :
      (q : Parser) (es : List ParseError)
      → q.errors ≡ es
      → LoadEnds filename
          (parsed tt q)
          (check_errors es (of_converted (convert2_api filename q.stmts)))
  parsed_ends q [] e = converted_ends q (convert2_api filename q.stmts) e refl
  parsed_ends q (x ∷ es) e = is_invalid q x es (inl refl) e

  nil_ends :
      (q : Parser) (es : List ParseError)
      → q.errors ≡ es
      → 0 < length es
      → LoadEnds filename (nil q) (check_errors es panics)
  nil_ends q [] e l = absurd (omega arith)
  nil_ends q (x ∷ es) e l = is_invalid q x es (inr refl) e

  after_parse_ends :
      {Done : Parser → Type 0} (r : Parsed (Unit {0}))
      → EndsIn r Done (λ q. 0 < length q.errors)
      → LoadEnds filename r (after_parse filename r)
  after_parse_ends r (value a q e d) =
      subst (λ x. LoadEnds filename x (after_parse filename x)) (sym e)
        (parsed_ends q q.errors refl)
  after_parse_ends r (no_value q e d) =
      subst (λ x. LoadEnds filename x (after_parse filename x)) (sym e) (nil_ends q q.errors refl d)
  after_parse_ends r (panic e) =
      subst (λ x. LoadEnds filename x (after_parse filename x)) (sym e) (in_parse refl)

-- The first half of `Parse` on a source that is not empty, with a round for each rune of it and two
-- more: it ends with an API that `convert2API` makes of a tree without errors, or with the errors
-- of the parser, of which there is one at least, or with a duplicate, or it panics in the parser or
-- in `convert2API`. It never goes on with the nil that the parser returns for a tree.
pub load_api_ends :
    (f : ℕ) (base filename source : Text) (s : Scanner)
    → new_scanner base source ≡ some s
    → suc (length source) < f
    → LoadEnds filename (parse f (new_parser s)) (load_api f base filename source)
unfolding load_api
load_api_ends f base filename source s h l =
    rw (h, load_api)
      (after_parse_ends filename (parse f (new_parser s)) (parse_ends f base source s h l))
