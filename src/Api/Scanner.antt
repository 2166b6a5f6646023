-- ===== src/Api/Scanner.antt =====
-- pkg/parser/api/scanner/scanner.go: the state of a scanner and its primitive moves. The field
-- `data` of the source is `source` here. What the methods do to `*s` is in the state they return.
pub mod Invariant
pub mod Reading
pub mod Total
pub mod Runs
pub mod Behind
pub mod Strings
pub mod Documents
pub mod Literals
pub mod Durations
pub mod Next
use zctl.Base.{
  ℕ, zero, suc, ◌+◌, ◌-◌, Bool, true, false, ◌&&◌, ◌||◌, List, [], ◌∷◌, ◌++◌, Option, none, some,
  Text, leb, ◌==◌, if◌then◌else◌, length, get_or, take, drop, is_upper, is_lower,
}
use zctl.Base.Int.{ℤ, pos, negsuc, ◌-ℤ◌}
use zctl.Api.Token.{TokenType, Position, Token, new_illegal_token}

pub record Scanner : Type 0 where
  pub filename : Text
  pub size : ℕ
  pub source : Text
  pub position : ℕ
  pub read_position : ℕ
  pub ch : ℕ
  pub lines : List ℤ

-- The message of `assertExpected` and `assertExpectedString`, before `fmt` joins its parts.
pub record ScanError : Type 0 where
  pub at : Position
  pub expected : List Text
  pub actual : Text

-- What a scanning method ends in: a token, an error, a Go panic (a slice out of range), or, of the
-- model alone, a loop that was not given enough rounds.
pub data Scanned : Type 0 where
  scanned : Token → Scanner → Scanned
  failed : ScanError → Scanner → Scanned
  panicked : Scanned
  out_of_fuel : Scanned

-- `s.data[i]` behind the test that `readRune` and `peekRune` make.
abbrev pub rune_at : Scanner → ℕ → ℕ
rune_at s i = if leb s.size i then 0 else get_or s.source i 0

unfoldable pub read_rune : Scanner → Scanner
read_rune s = record s {
  ch = rune_at s s.read_position;
  position = s.read_position;
  read_position = s.read_position + 1;
}

unfoldable pub peek_rune : Scanner → ℕ
peek_rune s = rune_at s s.read_position

unfoldable pub line_count : Scanner → ℕ
line_count s = length s.lines

-- `s.lines[line-1]`
abbrev pub line_start : Scanner → ℤ
line_start s = get_or s.lines (length s.lines - 1) (pos 0)

unfoldable pub new_position : Scanner → ℕ → Position
unfolding line_count
new_position s p = record {
  filename = s.filename;
  line = line_count s;
  column = pos p -ℤ line_start s;
}

unfoldable pub position_at : Scanner → Position
position_at s = new_position s s.position

-- `s.data[lo:hi]`; `none` is the panic of a slice out of range.
abbrev pub slice : Scanner → ℕ → ℕ → Option Text
slice s lo hi =
    if leb lo hi && leb hi (length s.source) then some (take (hi - lo) (drop lo s.source)) else none

-- `Token{tp, string(s.data[start:s.position]), s.newPosition(start)}`
unfoldable pub token_from : TokenType → ℕ → Scanner → Scanned
token_from tp start s = elim (slice s start s.position) [
  | none ↦ panicked
  | some t ↦ scanned (record { type = tp; text = t; position = new_position s start }) s
]

unfoldable pub new_token : TokenType → Scanner → Scanned
new_token tp s =
    scanned (record { type = tp; text = s.ch ∷ []; position = position_at s }) (read_rune s)

unfoldable pub illegal_token : Scanner → Scanned
illegal_token s = scanned (new_illegal_token s.ch (new_position s s.position)) (read_rune s)

-- `return token.ErrorToken, s.assertExpectedString(actual, expected...)`
unfoldable pub assert_expected : Text → List Text → Scanner → Scanned
assert_expected actual expected s =
    failed (record { at = position_at s; expected = expected; actual = actual }) s

pub is_letter : ℕ → Bool
is_letter b = is_lower b || is_upper b

abbrev pub is_identifier_letter : ℕ → Bool
is_identifier_letter b = is_lower b || is_upper b || b == b'_'

-- The runes that `isWhiteSpace` answers true for.
abbrev pub is_space : ℕ → Bool
is_space b = b == b' ' || b == b'\t' || b == b'\r' || b == 12 || b == 11 || b == b'\n'

-- The effect of `isWhiteSpace` on `s.lines`, called with `s.ch`.
unfoldable pub mark_line : Scanner → Scanner
mark_line s = if s.ch == b'\n' then record s { lines = s.lines ++ pos s.position ∷ [] } else s

-- `for test(s.ch) { s.readRune() }`, of at most the given number of rounds.
unfoldable pub read_while : (ℕ → Bool) → ℕ → Scanner → Scanner
read_while test zero s = s
read_while test (suc f) s = elim (test s.ch) [ true ↦ read_while test f (read_rune s) | false ↦ s ]

-- A round of a loop leaves fewer runes to read, so one round more than the source has runes will do.
abbrev pub rounds : Scanner → ℕ
rounds s = suc s.size

unfoldable pub skip_loop : ℕ → Scanner → Scanner
skip_loop zero s = s
skip_loop (suc f) s = elim (is_space s.ch) [
  | true ↦ skip_loop f (read_rune (mark_line s))
  | false ↦ mark_line s
]

unfoldable pub skip_white_space : Scanner → Scanner
unfolding skip_loop
skip_white_space s = skip_loop (rounds s) s

-- `NewScanner` behind `readData`; `none` is the error for an empty input. `base` is
-- `filepath.Base(filename)`.
unfoldable pub new_scanner : Text → Text → Option Scanner
unfolding read_rune
new_scanner base [] = none
new_scanner base (c ∷ cs) = some (
    read_rune (record {
      filename = base;
      size = length (c ∷ cs);
      source = c ∷ cs;
      position = 0;
      read_position = 0;
      ch = 0;
      lines = negsuc 0 ∷ [];
    }))
