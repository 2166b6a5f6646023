-- ===== src/Api/Scanner/Total/Literals.antt =====
-- Comments, documents, strings and identifiers end.
use zctl.Base.{
  Option-cases, ℕ, zero, suc, ◌+◌, ◌<◌, Bool, ◌≡◌, ◌≢◌, refl, true, false, ◌&&◌, arith, ◌==◌, inl,
  inr, Text, text_eq,
}
use zctl.Api.Token.{TokenType, comment, document, any}
use zctl.Api.Scanner.{Scanner, Scanned, read_rune, peek_rune, slice, assert_expected}
use zctl.Api.Scanner.Invariant.{Later, position-read_rune, size-read_rune}
use zctl.Api.Scanner.Reading.{
  Ends, Reading, Reading-begin, read_rune-Reading, token_from-Ends, Ends-if, not_zero, ne_zero,
}
use zctl.Api.Scanner.Literals.{
  Mode, document_half_open, document_open, document_half_close, string_open, scan_line_comment,
  string_loop, scan_string, on_star, on_slash, on_document_end, document_loop, scan_document,
  is_identifier_rune, finish_ident, scan_ident, interface_text,
}
use zctl.Api.Scanner.Total.Durations.{read_while-begin}

pub scan_line_comment-Ends :
    {b : Scanner} (s : Scanner)
    → Later b s
    → (s.ch == b'/') ≡ true
    → Ends b s.position (scan_line_comment s)
unfolding scan_line_comment
scan_line_comment-Ends s l h =
    token_from-Ends comment _ (read_while-begin _ s l refl (ground arith))

-- The modes of `scanDocument` behind its first rune.
abbrev is_open : Mode → Bool
is_open document_half_open = true
is_open document_open = true
is_open document_half_close = true
is_open _ = false

module _ {b : Scanner} {start : ℕ} where
  -- Behind the opening delimiter each round reads a rune, until the closing one or the end.
  string_loop-Ends :
      (delim : ℕ) (tp : TokenType) (f : ℕ) (s : Scanner)
      → delim ≢ 0
      → Reading b start s
      → s.size < s.position + f
      → Ends b start (string_loop delim tp start f string_open s)
  unfolding string_loop assert_expected
  string_loop-Ends delim tp zero s d r h = ground (arith, r.inside)
  string_loop-Ends delim tp (suc f) s d r h =
      Ends-if _ _ _ _ _ (λ e. token_from-Ends tp _ (read_rune-Reading s r (not_zero _ delim d e)))
        λ _.
          Ends-if _ _ _ _ _ (λ _. r.later)
            (λ e.
              string_loop-Ends delim tp f _ d (read_rune-Reading s r (ne_zero _ e))
                (omega (arith, position-read_rune s r.later.valid, size-read_rune s)))

  module _ (s : Scanner) (r : Reading b start s) where
    on_document_end-Ends :
        (m : Mode) (again : Mode → Scanned)
        → is_open m ≡ true
        → Ends b start (on_document_end s m again)
    unfolding assert_expected
    on_document_end-Ends document_half_open again o = r.later
    on_document_end-Ends document_open again o = r.later
    on_document_end-Ends document_half_close again o = r.later
    on_document_end-Ends _ again o = cc

    module _ (again : Mode → Scanned)
        (go_on : (m : Mode) → is_open m ≡ true → Ends b start (again m)) where
      on_slash-Ends :
          (m : Mode) → is_open m ≡ true → s.ch ≢ 0 → Ends b start (on_slash start s m again)
      unfolding assert_expected
      on_slash-Ends document_half_open o h = r.later
      on_slash-Ends document_open o h = go_on document_open refl
      on_slash-Ends document_half_close o h = token_from-Ends document _ (read_rune-Reading s r h)
      on_slash-Ends _ o h = cc

      on_star-Ends : (m : Mode) → is_open m ≡ true → Ends b start (again (on_star m))
      on_star-Ends document_half_open o = go_on document_open refl
      on_star-Ends document_open o = go_on document_half_close refl
      on_star-Ends document_half_close o = go_on document_half_close refl
      on_star-Ends _ o = cc

  document_loop-Ends :
      (f : ℕ) (m : Mode) (s : Scanner)
      → is_open m ≡ true
      → Reading b start s
      → s.size < s.position + f
      → Ends b start (document_loop start f m s)
  unfolding document_loop
  document_loop-Ends zero m s o r h = ground (arith, r.inside)
  document_loop-Ends (suc f) m s o r h =
      let go_on : s.ch ≢ 0
          → (m' : Mode) → is_open m' ≡ true
          → Ends b start (document_loop start f m' (read_rune s)) =
        λ nz m' o'.
          document_loop-Ends f m' (read_rune s) o' (read_rune-Reading s r nz)
            (omega (arith, position-read_rune s r.later.valid, size-read_rune s)) in
      Ends-if _ _ _ _ _ (λ e. on_star-Ends s r _ (go_on (not_zero _ b'*' (omega arith) e)) m o)
        (λ _.
          Ends-if _ _ _ _ _ (λ _. on_document_end-Ends s r m _ o)
            (λ z.
              Ends-if _ _ _ _ _ (λ _. on_slash-Ends s r _ (go_on (ne_zero _ z)) m o (ne_zero _ z))
                (λ _. go_on (ne_zero _ z) m o)))

pub scan_string-Ends :
    {b : Scanner} (delim : ℕ) (tp : TokenType) (s : Scanner)
    → Later b s
    → delim ≢ 0
    → (s.ch == delim) ≡ true
    → Ends b s.position (scan_string delim tp s)
unfolding scan_string
scan_string-Ends delim tp s l d h =
    let r = Reading-begin s l (not_zero _ delim d h) in
    rw (string_loop, h)
      (string_loop-Ends delim tp s.size (read_rune s) d r
        (omega (arith, position-read_rune s l.valid, size-read_rune s)))

pub scan_document-Ends :
    {b : Scanner} (s : Scanner)
    → Later b s
    → (s.ch == b'/') ≡ true
    → Ends b s.position (scan_document s)
unfolding scan_document
scan_document-Ends s l h =
    let r = Reading-begin s l (not_zero _ b'/' (omega arith) h) in
    Ends-if _ _ (s.ch == b'*') _ _ (λ e. absurd (ground arith))
      λ _.
        Ends-if _ _ (s.ch == 0) _ _ (λ e. absurd (ground arith))
          λ _.
            Ends-if _ _ (s.ch == b'/') _ _
              (λ _.
                document_loop-Ends s.size document_half_open (read_rune s) refl r
                  (omega (arith, position-read_rune s l.valid, size-read_rune s)))
              (λ e. absurd (ground arith))

-- What is read one rune ahead is the rune behind `read_rune`.
pub ch-read_rune : (s : Scanner) → (read_rune s).ch ≡ peek_rune s
unfolding read_rune peek_rune
ch-read_rune s = refl

abbrev ends_interface : Text → Scanner → Bool
ends_interface word s = text_eq word interface_text && s.ch == b'{' && peek_rune s == b'}'

interface-Reading :
    {b : Scanner} {start : ℕ} (word : Text) (s : Scanner)
    → Reading b start s
    → ends_interface word s ≡ true
    → Reading b start (read_rune (read_rune s))
interface-Reading word s r h =
    read_rune-Reading (read_rune s) (read_rune-Reading s r (ground arith))
      (ground (arith, ch-read_rune s))

finish_ident-Ends :
    {b : Scanner} {start : ℕ} (s : Scanner)
    → Reading b start s
    → Ends b start (finish_ident start s)
unfolding finish_ident
finish_ident-Ends {b} {start} s r = elim (Option-cases (slice s start s.position)) [
  | inl e ↦ absurd (ground (arith, r.later.valid.size_is, r.begun, r.inside))
  | inr (word, e) ↦
      rw (e, finish_ident)
        (Ends-if _ _ (ends_interface word s) _ _
          (λ h. token_from-Ends any _ (interface-Reading word s r h))
          (λ _. (r.later, r.begun, inr e)))
]

pub scan_ident-Ends :
    {b : Scanner} (s : Scanner)
    → Later b s
    → is_identifier_rune s.ch ≡ true
    → Ends b s.position (scan_ident s)
unfolding scan_ident
scan_ident-Ends s l h = finish_ident-Ends _ (read_while-begin is_identifier_rune s l refl h)
