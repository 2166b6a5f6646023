-- ===== src/Api/Parser/Total/Ends.antt =====
-- pkg/parser/api/parser/parser.go: how a call of `Parse` ends.
use zctl.Api.Token.{ordinal}
use zctl.Base.{
  Bool, true, false, ℕ, zero, suc, ◌+◌, ◌≤◌, ◌<◌, [], ◌∷◌, some, Text, ◌≡◌, refl, subst, arith,
  length,
}
use zctl.Api.Scanner.{Scanner, new_scanner, read_rune}
use zctl.Api.Scanner.Invariant.{IsValid}
use zctl.Api.Scanner.Runs.{new_scanner-IsValid}
use zctl.Api.Parser.{
  Parser, Parsed, parsed, nil, crashed, no_fuel, continue, ◌>>=◌, branch, pure, starve,
  cur_token_is_not_eof, advance, type_eq,
}
use zctl.Api.Parser.Progress.{left, rank}
use zctl.Api.Parser.Rules.{Post}
use zctl.Api.Parser.Stmts.{parse, parse_stmt, stmt_loop, append_stmt, new_parser}
use zctl.Api.Parser.Total.Stmts.{Runs-parse, Eats-stmt}

-- The three ways in which a call can end, with what holds of the state that it ends in.
pub data EndsIn {A : Type 0} (r : Parsed A) (Done Failed : Parser → Type 0) : Type 0 where
  value : (a : A) (q : Parser) → r ≡ parsed a q → Done q → EndsIn r Done Failed
  no_value : (q : Parser) → r ≡ nil q → Failed q → EndsIn r Done Failed
  panic : r ≡ crashed → EndsIn r Done Failed

Post-EndsIn :
    {A : Type 0} (d : ℕ) (p : Parser) (r : Parsed A)
    → Post d p r
    → EndsIn r
        (λ q. IsValid q.scanner × (left q + d ≤ left p))
        (λ q. length p.errors < length q.errors)
Post-EndsIn d p (parsed a q) h = value a q refl (h.0, h.1)
Post-EndsIn d p (nil q) h = no_value q refl h
Post-EndsIn d p crashed h = panic refl
Post-EndsIn d p no_fuel h = absurd h

-- `parseStmt` with a round for each rune that is left: it returns a statement and has then read
-- at least one token, or returns nil and has recorded an error, or panics.
pub parse_stmt_ends :
    (f : ℕ) (p : Parser)
    → IsValid p.scanner
    → left p ≤ f
    → EndsIn
        (parse_stmt f p)
        (λ q. IsValid q.scanner × (left q < left p))
        (λ q. length p.errors < length q.errors)
parse_stmt_ends f p v l =
    let r = Post-EndsIn 1 p (parse_stmt f p) ((Eats-stmt f).at p v (omega arith)) in
    elim r [
      | value a q e d ↦ value a q e (d.0, omega (arith, d.1))
      | no_value q e d ↦ no_value q e d
      | panic e ↦ panic e
    ]

-- A value is returned at the end of the input.
abbrev AtEof : Parsed (Unit {0}) → Type 0
AtEof (parsed a q) = cur_token_is_not_eof q ≡ false
AtEof _ = Unit

continue-AtEof :
    {A : Type 0} (r : Parsed A) (k : A → Parser → Parsed (Unit {0}))
    → ((a : A) (q : Parser) → AtEof (k a q))
    → AtEof (continue r k)
continue-AtEof (parsed a q) k h = h a q
continue-AtEof (nil q) k h = tt
continue-AtEof crashed k h = tt
continue-AtEof no_fuel k h = tt

branch-AtEof :
    (b : Bool) (p : Parser) (r : Parsed (Unit {0}))
    → cur_token_is_not_eof p ≡ b
    → AtEof r
    → AtEof (elim b [ true ↦ r | false ↦ parsed tt p ])
branch-AtEof true p r e h = h
branch-AtEof false p r e h = e

stmt_loop-AtEof : (f : ℕ) (p : Parser) → AtEof (stmt_loop f p)
unfolding stmt_loop branch ◌>>=◌ pure starve
stmt_loop-AtEof zero p = tt
stmt_loop-AtEof (suc f) p = branch-AtEof (cur_token_is_not_eof p) p _ refl (
    continue-AtEof (parse_stmt f p) _ (λ s q.
      continue-AtEof (append_stmt s q) _
        (λ a r. continue-AtEof (advance r) _ (λ b t. stmt_loop-AtEof f t))))

parse-AtEof : (f : ℕ) (p : Parser) → AtEof (parse f p)
unfolding parse ◌>>=◌
parse-AtEof f p =
    continue-AtEof (advance p) _ (λ a q. continue-AtEof (advance q) _ (λ b r. stmt_loop-AtEof f r))

left-new_parser :
    (base source : Text) (s : Scanner)
    → new_scanner base source ≡ some s
    → left (new_parser s) ≤ suc (length source)
unfolding new_scanner read_rune rank type_eq ordinal
left-new_parser base [] s h = cc
left-new_parser base (c ∷ cs) s h = ground arith

-- `Parse` on the scanner of a source, with a round for each rune of it and two more: it reads on to
-- the end of the input and returns the tree, or returns nil with an error recorded, or panics.
pub parse_ends :
    (f : ℕ) (base source : Text) (s : Scanner)
    → new_scanner base source ≡ some s
    → suc (length source) < f
    → EndsIn
        (parse f (new_parser s))
        (λ q. cur_token_is_not_eof q ≡ false)
        (λ q. 0 < length q.errors)
parse_ends f base source s h l =
    let p = new_parser s in
    let v = new_scanner-IsValid base source s h in
    let r = (Runs-parse f).at p v (omega (arith, left-new_parser base source s h)) in
    elim (Post-EndsIn 0 p (parse f p) r) [
      | value a q e d ↦ value a q e (subst AtEof e (parse-AtEof f p))
      | no_value q e d ↦ no_value q e d
      | panic e ↦ panic e
    ]
