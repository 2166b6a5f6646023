-- ===== src/Api/Scanner/Next.antt =====
-- `NextToken` of pkg/parser/api/scanner/scanner.go.
use zctl.Base.{◌==◌, not, if◌then◌else◌, is_digit, codes}
use zctl.Api.Token.{
  eof_token, sub, mul, quo, assign, lparen, lbrack, lbrace, comma, dot, rparen, rbrace, rbrack,
  semicolon, colon, ellipsis, string, raw_string,
}
use zctl.Api.Scanner.{
  Scanner, Scanned, scanned, read_rune, peek_rune, new_position, new_token, illegal_token,
  is_identifier_letter, skip_white_space,
}
use zctl.Api.Scanner.Literals.{scan_line_comment, scan_string, scan_document, scan_ident, scan_at}
use zctl.Api.Scanner.Durations.{scan_int_or_duration}

-- `case '/'`
unfoldable pub scan_slash : Scanner → Scanned
scan_slash s =
    if peek_rune s == b'/'
    then scan_line_comment s
    else if peek_rune s == b'*'
    then scan_document s
    else new_token quo s

-- `case '.'`
unfoldable pub scan_dot : Scanner → Scanned
scan_dot s =
    let s1 = read_rune s in
    let s3 = read_rune (read_rune s1) in
    if not (peek_rune s == b'.')
    then new_token dot s
    else if not (peek_rune s1 == b'.')
    then new_token dot s1
    else scanned
        (record { type = ellipsis; text = codes "..."; position = new_position s3 s.position }) s3

-- `default`
unfoldable pub scan_other : Scanner → Scanned
scan_other s =
    if is_identifier_letter s.ch
    then scan_ident s
    else if is_digit s.ch
    then scan_int_or_duration s
    else illegal_token s

-- The closing and separating runes, with the cases below them in the `switch`.
unfoldable pub scan_closing : Scanner → Scanned
scan_closing s =
    if s.ch == b')'
    then new_token rparen s
    else if s.ch == b']'
    then new_token rbrack s
    else if s.ch == b'}'
    then new_token rbrace s
    else if s.ch == b';'
    then new_token semicolon s
    else if s.ch == b':'
    then new_token colon s
    else if s.ch == b'='
    then new_token assign s
    else if s.ch == b'@'
    then scan_at s
    else if s.ch == b'"'
    then scan_string b'"' string s
    else if s.ch == b'`'
    then scan_string b'`' raw_string s
    else if s.ch == 0
    then scanned eof_token s
    else scan_other s

-- The `switch s.ch` of `NextToken`.
unfoldable pub scan_switch : Scanner → Scanned
scan_switch s =
    if s.ch == b'/'
    then scan_slash s
    else if s.ch == b'-'
    then new_token sub s
    else if s.ch == b'*'
    then new_token mul s
    else if s.ch == b'('
    then new_token lparen s
    else if s.ch == b'['
    then new_token lbrack s
    else if s.ch == b'{'
    then new_token lbrace s
    else if s.ch == b','
    then new_token comma s
    else if s.ch == b'.'
    then scan_dot s
    else scan_closing s

unfoldable pub next_token : Scanner → Scanned
next_token s = scan_switch (skip_white_space s)
