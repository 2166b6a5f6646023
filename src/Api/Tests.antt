-- ===== src/Api/Tests.antt =====
-- Runs of the lexer on small inputs, and the theorems of this part at concrete inputs.
use zctl.Base.{
  arith, false, ◌≢◌, ◌≤◌, text_mem, zero, suc, ℕ, List, [], ◌∷◌, Option, none, some, Text, codes,
  ◌≡◌, refl, text_eq,
}
use zctl.Base.Int.{pos, pos_part, negsuc, ◌-ℤ◌}
use zctl.Base.{IsAcyclic}
use zctl.Api.Scanner.Invariant.{Later}
use zctl.Api.Scanner.Invariant.{IsValid}
use zctl.Api.Scanner.Documents.{scan_document_closed}
use zctl.Api.Scanner.Behind.{rest}
use zctl.Api.Scanner.Strings.{scan_string_closed}
use zctl.Api.Scanner.Runs.{new_scanner-IsValid, Calls, here, next, token, Calls-safe}
use zctl.Api.Scanner.Total.Switch.{Steps, next_token-Steps}
use zctl.Api.Token.{
  document, dot, lbrace, rbrace, duration, comment, raw_string, eof, error, ident, TokenType, Token,
  type_string,
}
use zctl.Api.Scanner.{
  is_space, read_rune, peek_rune, line_count, new_position, position_at, token_from, new_token,
  illegal_token, assert_expected, mark_line, read_while, skip_loop, skip_white_space, Scanner,
  Scanned, scanned, failed, panicked, out_of_fuel, new_scanner,
}
use zctl.Api.Scanner.Literals.{
  scan_line_comment, string_loop, scan_string, document_loop, scan_document, finish_ident,
  scan_ident, at_word, scan_letter_set, at_letters, scan_at,
}
use zctl.Api.Scanner.Durations.{
  read_digits, scan_nanosecond, micro_rest, scan_microsecond, milli_rest, scan_millisecond,
  milli_only, second_rest, scan_second, minute_rest, scan_minute, scan_millisecond_or_minute,
  hour_rest, scan_hour, scan_duration, is_unit, int_rest, scan_int_or_duration,
}
use zctl.Api.Scanner.Next.{scan_slash, scan_dot, scan_other, scan_closing, scan_switch, next_token}

abbrev source : Text
source = codes "type A {\n b 15ms // c\n}"

-- The scanner that `NewScanner` makes of the source.
abbrev start : Scanner
start = record {
  filename = codes "a.api";
  size = 23;
  source = source;
  position = 0;
  read_position = 1;
  ch = b't';
  lines = negsuc 0 ∷ [];
}

start_new : new_scanner (codes "a.api") source ≡ some start
unfolding new_scanner read_rune
start_new = refl

abbrev behind : Scanned → Option Scanner
behind (scanned t s) = some s
behind (failed e s) = none
behind panicked = none
behind out_of_fuel = none

abbrev token_of : Scanned → Option Token
token_of (scanned t s) = some t
token_of (failed e s) = none
token_of panicked = none
token_of out_of_fuel = none

-- The types and texts of the tokens up to the end of the input, an error or a fault.
texts : ℕ → Scanner → List (TokenType × Text)
unfolding read_rune peek_rune line_count new_position position_at token_from new_token illegal_token
    assert_expected mark_line read_while skip_loop skip_white_space scan_line_comment string_loop
    scan_string document_loop scan_document finish_ident scan_ident at_word scan_letter_set
    at_letters scan_at read_digits scan_nanosecond micro_rest scan_microsecond milli_rest
    scan_millisecond milli_only second_rest scan_second minute_rest scan_minute
    scan_millisecond_or_minute hour_rest scan_hour scan_duration is_unit int_rest
    scan_int_or_duration scan_slash scan_dot scan_other scan_closing scan_switch next_token text_eq
    type_string ◌-ℤ◌
texts zero s = []
texts (suc n) s = elim (next_token s) [
  | scanned t s' ↦ elim t.type [ eof ↦ [] | _ ↦ (t.type, t.text) ∷ texts n s' ]
  | failed e s' ↦ (error, e.actual) ∷ []
  | panicked ↦ []
  | out_of_fuel ↦ []
]

source_texts :
    texts 9 start
    ≡ (ident, codes "type")
      ∷ (ident, codes "A")
      ∷ (lbrace, codes "{")
      ∷ (ident, codes "b")
      ∷ (duration, codes "15ms")
      ∷ (comment, codes "// c")
      ∷ (rbrace, codes "}")
      ∷ []
unfolding texts
source_texts = refl

-- Two `*` apart from the `/` close a document, and two dots are one token.
source_quirks :
    (texts 3 (record start { size = 9; source = codes "/** b / c"; ch = b'/' })
      ≡ (document, codes "/** b /") ∷ (ident, codes "c") ∷ [])
    × (texts 3 (record start { size = 3; source = codes "..a"; ch = b'.' })
        ≡ (dot, codes ".") ∷ (ident, codes "a") ∷ [])
unfolding texts
source_quirks = (refl, refl)

next_token-Steps_example :
    Later start (skip_white_space start)
    × (is_space (skip_white_space start).ch ≡ false)
    × Steps start (skip_white_space start) (next_token start)
next_token-Steps_example =
    next_token-Steps start (new_scanner-IsValid (codes "a.api") source start start_new)

-- The state behind the first token, `type`.
abbrev second : Scanner
second = record start { position = 4; read_position = 5; ch = b' ' }

first_call : Calls start second
unfolding texts
first_call = next here (
    token
      (record {
        type = ident;
        text = codes "type";
        position = record { filename = codes "a.api"; line = 1; column = pos 1 };
      })
      refl)

Calls-safe_example :
    (second.source ≡ start.source)
    × (start.position ≤ second.position)
    × (1 ≤ pos_part (new_position second second.position).column)
    × (next_token second ≢ panicked)
    × (next_token second ≢ out_of_fuel)
Calls-safe_example = Calls-safe (codes "a.api") source start start_new first_call

abbrev importing : List Text
importing = codes "a.api" ∷ codes "b.api" ∷ []

importing-IsAcyclic : IsAcyclic importing
unfolding text_mem text_eq
importing-IsAcyclic = (refl, (refl, tt))

-- A raw string over two lines, and one that is not closed.
abbrev quoted : Scanner
quoted = record start { size = 6; source = codes "`a\n`;b"; ch = b'`' }

quoted-IsValid : IsValid quoted
quoted-IsValid = record {
  size_is = refl;
  next_is = refl;
  ch_is = refl;
  has_line = omega arith;
  line_before = omega arith;
}

scan_string_closed_example :
    (t : Scanner) × (scan_string b'`' raw_string quoted
      ≡ scanned
          (record {
            type = raw_string;
            text = codes "`a\n`";
            position = new_position quoted quoted.position;
          })
          t)
    × (rest t ≡ codes ";b")
    × (t.lines ≡ quoted.lines)
scan_string_closed_example =
    scan_string_closed b'`' raw_string (codes "a\n") (codes ";b") quoted quoted-IsValid
      (refl, (refl, tt)) refl

-- A document whose star stands apart from the slash.
abbrev documented : Scanner
documented = record start { size = 9; source = codes "/*a* b/ c"; ch = b'/' }

scan_document_closed_example :
    (t : Scanner) × (scan_document documented
      ≡ scanned
          (record {
            type = document;
            text = codes "/*a* b/";
            position = new_position documented documented.position;
          })
          t)
    × (rest t ≡ codes " c")
    × (t.lines ≡ documented.lines)
scan_document_closed_example =
    scan_document_closed (codes "a") (codes " b") (codes " c") documented
      (record {
        size_is = refl;
        next_is = refl;
        ch_is = refl;
        has_line = omega arith;
        line_before = omega arith;
      })
      (refl, tt) (refl, (refl, tt)) refl
