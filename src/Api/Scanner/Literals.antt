-- ===== src/Api/Scanner/Literals.antt =====
-- The scanning methods for comments, documents, strings, identifiers and `@` words.
use zctl.Base.{
  ℕ, zero, suc, Bool, ◌&&◌, ◌||◌, not, [], ◌∷◌, Option, none, some, Text, codes, ◌==◌,
  if◌then◌else◌, is_digit, text_eq,
}
use zctl.Api.Token.{
  TokenType, eof, mul, quo, comment, document, ident, any, at_doc, at_handler, at_server,
  type_string,
}
use zctl.Api.Scanner.{
  Scanner, Scanned, scanned, panicked, out_of_fuel, read_rune, peek_rune, new_position, position_at,
  slice, token_from, assert_expected, is_letter, is_identifier_letter, read_while, rounds,
}
use zctl.Api.Token.{new_illegal_token}

pub data Mode : Type 0 where
  init_mode document_half_open document_open document_half_close document_close string_open
        string_close :
      Mode

unfoldable pub scan_line_comment : Scanner → Scanned
scan_line_comment s =
    token_from comment s.position (read_while (λ c. not (c == b'\n') && not (c == 0)) (rounds s) s)

-- The `case delim` of `scanString`: `again` goes on to `s.readRune()` in a mode.
abbrev pub on_delim : Mode → (Mode → Scanned) → Scanned → Scanned
on_delim init_mode again close = again string_open
on_delim string_open again close = close
on_delim m again close = again m

abbrev pub on_string_end : ℕ → TokenType → ℕ → Scanner → Mode → (Mode → Scanned) → Scanned
on_string_end delim tp start s init_mode again =
    assert_expected (type_string eof) (type_string tp ∷ []) s
on_string_end delim tp start s string_open again =
    assert_expected (type_string eof) ((delim ∷ []) ∷ []) s
on_string_end delim tp start s string_close again = token_from tp start s
on_string_end delim tp start s m again = again m

unfoldable pub string_loop : ℕ → TokenType → ℕ → ℕ → Mode → Scanner → Scanned
string_loop delim tp start zero m s = out_of_fuel
string_loop delim tp start (suc f) m s =
    let again = λ (m' : Mode). string_loop delim tp start f m' (read_rune s) in
    if s.ch == delim
    then on_delim m again (token_from tp start (read_rune s))
    else if s.ch == 0
    then on_string_end delim tp start s m again
    else again m

unfoldable pub scan_string : ℕ → TokenType → Scanner → Scanned
unfolding string_loop
scan_string delim tp s = string_loop delim tp s.position (rounds s) init_mode s

-- The `case '*'` of `scanDocument`: the mode in which it goes on.
abbrev pub on_star : Mode → Mode
on_star document_half_open = document_open
on_star document_open = document_half_close
on_star m = m

abbrev pub on_document_end : Scanner → Mode → (Mode → Scanned) → Scanned
on_document_end s init_mode again = assert_expected (type_string eof) (type_string mul ∷ []) s
on_document_end s document_half_open again =
    assert_expected (type_string eof) (type_string mul ∷ []) s
on_document_end s document_open again = assert_expected (type_string eof) (type_string mul ∷ []) s
on_document_end s document_half_close again =
    assert_expected (type_string eof) (type_string quo ∷ []) s
on_document_end s m again = again m

abbrev pub on_slash : ℕ → Scanner → Mode → (Mode → Scanned) → Scanned
on_slash start s init_mode again = again document_half_open
on_slash start s document_half_open again =
    assert_expected (type_string quo) (type_string mul ∷ []) s
on_slash start s document_half_close again = token_from document start (read_rune s)
on_slash start s m again = again m

unfoldable pub document_loop : ℕ → ℕ → Mode → Scanner → Scanned
document_loop start zero m s = out_of_fuel
document_loop start (suc f) m s =
    let again = λ (m' : Mode). document_loop start f m' (read_rune s) in
    if s.ch == b'*'
    then again (on_star m)
    else if s.ch == 0
    then on_document_end s m again
    else if s.ch == b'/'
    then on_slash start s m again
    else again m

unfoldable pub scan_document : Scanner → Scanned
unfolding document_loop
scan_document s = document_loop s.position (rounds s) init_mode s

abbrev pub is_identifier_rune : ℕ → Bool
is_identifier_rune c = is_identifier_letter c || is_digit c

abbrev pub interface_text : Text
interface_text = codes "interface"

-- The end of `scanIdent`, behind its loop.
unfoldable pub finish_ident : ℕ → Scanner → Scanned
finish_ident start s = elim (slice s start s.position) [
  | none ↦ panicked
  | some word ↦
      if text_eq word interface_text && s.ch == b'{' && peek_rune s == b'}'
      then token_from any start (read_rune (read_rune s))
      else scanned (record { type = ident; text = word; position = new_position s start }) s
]

unfoldable pub scan_ident : Scanner → Scanned
scan_ident s = finish_ident s.position (read_while is_identifier_rune (rounds s) s)

-- The `switch letters` of `scanAt`; `s` is the state behind the letters.
unfoldable pub at_word : ℕ → Scanner → Text → Scanned
at_word start s letters =
    if text_eq letters (codes "handler")
    then scanned
        (record { type = at_handler; text = codes "@handler"; position = new_position s start }) s
    else if text_eq letters (codes "server")
    then scanned
        (record { type = at_server; text = codes "@server"; position = new_position s start }) s
    else if text_eq letters (codes "doc")
    then scanned (record { type = at_doc; text = codes "@doc"; position = new_position s start }) s
    else assert_expected (b'@' ∷ letters)
        (type_string at_doc ∷ type_string at_handler ∷ type_string at_server ∷ []) s

-- `scanLetterSet`, with the state that it leaves.
unfoldable pub scan_letter_set : Scanner → Option Text × Scanner
unfolding is_letter
scan_letter_set s =
    let s' = read_while is_letter (rounds s) s in (slice s' s.position s'.position, s')

-- The word behind an `@`; no word is a panic.
unfoldable pub at_letters : ℕ → Option Text × Scanner → Scanned
at_letters start (none, s) = panicked
at_letters start (some letters, s) = at_word start s letters

unfoldable pub scan_at : Scanner → Scanned
unfolding is_letter
scan_at s =
    let peek = peek_rune s in
    if not (is_letter peek)
    then if peek == 0
      then scanned (new_illegal_token s.ch (position_at s)) s
      else assert_expected (peek ∷ []) (type_string ident ∷ []) s
    else at_letters s.position (scan_letter_set (read_rune s))
