-- ===== src/Api/Scanner/Total/Switch.antt =====
-- The `switch` of `NextToken`, and `NextToken` itself.
use zctl.Base.{
  ==_iff, codes, some, [], ℕ, ◌≡◌, ◌≢◌, refl, true, false, not, arith, ◌==◌, Bool-cases, inl, inr,
  ◌⊎◌, is_digit, ◌∙◌,
}
use zctl.Api.Token.{
  eof_token, new_illegal_token, sub, mul, quo, assign, lparen, lbrack, lbrace, comma, dot, rparen,
  rbrace, rbrack, semicolon, colon, string, raw_string,
}
use zctl.Api.Scanner.{
  Scanner, Scanned, scanned, read_rune, peek_rune, position_at, new_token, illegal_token, rounds,
  is_space, skip_white_space, is_letter, is_identifier_letter, slice,
}
use zctl.Api.Scanner.Invariant.{IsValid, Later, read_rune-Later}
use zctl.Api.Scanner.Reading.{
  Ends, Reading, Reading-begin, read_rune-Reading, new_token-Ends, Ends-if, not_zero, not-true,
  ne_zero,
}
use zctl.Api.Scanner.Literals.{scan_at}
use zctl.Api.Scanner.Next.{scan_slash, scan_dot, scan_other, scan_closing, scan_switch, next_token}
use zctl.Api.Scanner.Total.Literals.{
  ch-read_rune, scan_line_comment-Ends, scan_document-Ends, scan_ident-Ends, scan_string-Ends,
}
use zctl.Api.Scanner.Total.Durations.{scan_int_or_duration-Ends}
use zctl.Api.Scanner.Total.Next.{
  slice_next, slice_empty, skip_loop-Later, skip_loop-stops, lone_at, scan_at-Ends,
}

module _ {b : Scanner} (s : Scanner) (l : Later b s) where
  scan_slash-Ends : (s.ch == b'/') ≡ true → Ends b s.position (scan_slash s)
  unfolding scan_slash
  scan_slash-Ends h =
      Ends-if _ _ (peek_rune s == b'/') _ _ (λ _. scan_line_comment-Ends s l h)
        λ _.
          Ends-if _ _ (peek_rune s == b'*') _ _ (λ _. scan_document-Ends s l h)
            λ _. new_token-Ends quo s l (not_zero _ b'/' (omega arith) h)

  -- Behind a dot, a second and a third.
  two_dots-Ends :
      (s.ch == b'.') ≡ true
      → (peek_rune s == b'.') ≡ true
      → Reading b s.position (read_rune (read_rune s))
  two_dots-Ends h e =
      read_rune-Reading (read_rune s) (Reading-begin s l (not_zero _ b'.' (omega arith) h))
        (not_zero _ b'.' (omega arith) (rw (ch-read_rune s) e))

  ellipsis-Ends :
      (s.ch == b'.') ≡ true
      → (peek_rune s == b'.') ≡ true
      → (peek_rune (read_rune s) == b'.') ≡ true
      → let s3 = read_rune (read_rune (read_rune s)) in
        Reading b s.position s3 × (slice s3 s.position s3.position ≡ some (codes "..."))
  ellipsis-Ends h e f =
      let s1 = read_rune s in
      let s2 = read_rune s1 in
      let s3 = read_rune s2 in
      let e' : (s1.ch == b'.') ≡ true = rw (ch-read_rune s) e in
      let f' : (s2.ch == b'.') ≡ true = rw (ch-read_rune s1) f in
      let dot_ne : (c : ℕ) → (c == b'.') ≡ true → c ≢ 0 = λ c g. not_zero c b'.' (omega arith) g in
      let r2 = two_dots-Ends h e in
      let r3 = read_rune-Reading s2 r2 (dot_ne s2.ch f') in
      let l1 = read_rune-Later s l.valid in
      let l2 = read_rune-Later s1 l1.valid in
      let l3 = read_rune-Later s2 l2.valid in
      let last =
        slice_next s2 s3 [] s3.position l2.valid (dot_ne s2.ch f') l3.source_is
          (slice_empty s3 s3.position (omega (arith, r3.inside, r3.later.valid.size_is))) in
      let mid =
        slice_next s1 s3 _ s3.position l1.valid (dot_ne s1.ch e') (l3.source_is ∙ l2.source_is)
          last in
      let all =
        slice_next s s3 _ s3.position l.valid (dot_ne s.ch h)
          (l3.source_is ∙ l2.source_is ∙ l1.source_is) mid in
      (r3, all ∙ ground (arith))

  scan_dot-Ends : (s.ch == b'.') ≡ true → Ends b s.position (scan_dot s)
  unfolding scan_dot new_token
  scan_dot-Ends h =
      Ends-if _ _ (not (peek_rune s == b'.')) _ _
        (λ _. new_token-Ends dot s l (not_zero _ b'.' (omega arith) h))
        λ e.
          Ends-if _ _ (not (peek_rune (read_rune s) == b'.')) _ _
            (λ _. let r = two_dots-Ends h (not-true _ e) in (r.later, r.begun, inl refl))
            λ f.
              let (r, text) = ellipsis-Ends h (not-true _ e) (not-true _ f) in
              (r.later, r.begun, inr text)

  illegal-Ends : s.ch ≢ 0 → Ends b s.position (illegal_token s)
  unfolding illegal_token
  illegal-Ends h = let r = Reading-begin s l h in (r.later, r.begun, inl refl)

  scan_other-Ends : s.ch ≢ 0 → Ends b s.position (scan_other s)
  unfolding scan_other
  scan_other-Ends h =
      Ends-if _ _ (is_identifier_letter s.ch) _ _ (λ e. scan_ident-Ends s l (ground arith))
        λ _.
          Ends-if _ _ (is_digit s.ch) _ _ (λ e. scan_int_or_duration-Ends s l e) λ _. illegal-Ends h

  scan_closing-Ends : s.ch ≢ 0 → lone_at s ≡ false → Ends b s.position (scan_closing s)
  unfolding scan_closing
  scan_closing-Ends h n =
      Ends-if _ _ (s.ch == b')') _ _ (λ _. new_token-Ends rparen s l h)
        λ _.
          Ends-if _ _ (s.ch == b']') _ _ (λ _. new_token-Ends rbrack s l h)
            λ _.
              Ends-if _ _ (s.ch == b'}') _ _ (λ _. new_token-Ends rbrace s l h)
                λ _.
                  Ends-if _ _ (s.ch == b';') _ _ (λ _. new_token-Ends semicolon s l h)
                    λ _.
                      Ends-if _ _ (s.ch == b':') _ _ (λ _. new_token-Ends colon s l h)
                        λ _.
                          Ends-if _ _ (s.ch == b'=') _ _ (λ _. new_token-Ends assign s l h)
                            λ _.
                              Ends-if _ _ (s.ch == b'@') _ _ (λ e. scan_at-Ends s l e n)
                                λ _.
                                  Ends-if _ _ (s.ch == b'"') _ _
                                    (λ e. scan_string-Ends b'"' string s l (omega arith) e)
                                    λ _.
                                      Ends-if _ _ (s.ch == b'`') _ _
                                        (λ e. scan_string-Ends b'`' raw_string s l (omega arith) e)
                                        λ _.
                                          Ends-if _ _ (s.ch == 0) _ _ (λ e. absurd (ground arith))
                                            λ _. scan_other-Ends h

  scan_switch-Ends : s.ch ≢ 0 → lone_at s ≡ false → Ends b s.position (scan_switch s)
  unfolding scan_switch
  scan_switch-Ends h n = Ends-if _ _ (s.ch == b'/') _ _ scan_slash-Ends λ _.
      Ends-if _ _ (s.ch == b'-') _ _ (λ _. new_token-Ends sub s l h)
        λ _.
          Ends-if _ _ (s.ch == b'*') _ _ (λ _. new_token-Ends mul s l h)
            λ _.
              Ends-if _ _ (s.ch == b'(') _ _ (λ _. new_token-Ends lparen s l h)
                λ _.
                  Ends-if _ _ (s.ch == b'[') _ _ (λ _. new_token-Ends lbrack s l h)
                    λ _.
                      Ends-if _ _ (s.ch == b'{') _ _ (λ _. new_token-Ends lbrace s l h)
                        λ _.
                          Ends-if _ _ (s.ch == b',') _ _ (λ _. new_token-Ends comma s l h)
                            λ _.
                              Ends-if _ _ (s.ch == b'.') _ _ scan_dot-Ends
                                λ _. scan_closing-Ends h n

skip_white_space-Later : (s : Scanner) → IsValid s → Later s (skip_white_space s)
unfolding skip_white_space
skip_white_space-Later s v = skip_loop-Later (rounds s) s v

skip_white_space-stops : (s : Scanner) → IsValid s → is_space (skip_white_space s).ch ≡ false
unfolding skip_white_space
skip_white_space-stops s v = skip_loop-stops (rounds s) s v (omega arith)

scan_switch_eof : (s : Scanner) → s.ch ≡ 0 → scan_switch s ≡ scanned eof_token s
unfolding scan_switch scan_closing
scan_switch_eof s h = ground arith

scan_switch-lone_at :
    (s : Scanner)
    → lone_at s ≡ true
    → scan_switch s ≡ scanned (new_illegal_token s.ch (position_at s)) s
unfolding scan_switch scan_closing scan_at is_letter
scan_switch-lone_at s h = ground arith

-- The three ways in which a call of `NextToken` on `s` goes: with `w` the state behind the white
-- space, it is the end of the input, or an `@` with nothing behind it, or the call ends in a token or
-- an error.
abbrev pub Steps : Scanner → Scanner → Scanned → Type 0
Steps s w r =
    ((w.ch ≡ 0) × (r ≡ scanned eof_token w))
    ⊎ ((lone_at w ≡ true) × (r ≡ scanned (new_illegal_token w.ch (position_at w)) w))
    ⊎ ((lone_at w ≡ false) × (w.ch ≢ 0) × Ends s w.position r)

-- From a valid state s, with w the state behind the white space, which is not before s and has no
-- white space to come, NextToken neither panics nor runs out of rounds: at a zero rune it answers
-- EOF and stays at w; at an `@` with nothing behind it, an illegal token, and stays at w; elsewhere
-- it gives a token and goes on behind the position of w, the text of a token that is not illegal, a
-- dot or EOF being what was read from w on, or it gives an error in a valid state on the same input
-- that is not before s.
pub next_token-Steps :
    (s : Scanner)
    → IsValid s
    → Later s (skip_white_space s)
      × (is_space (skip_white_space s).ch ≡ false)
      × Steps s (skip_white_space s) (next_token s)
unfolding next_token
next_token-Steps s v =
    let w = skip_white_space s in
    let l = skip_white_space-Later s v in
    (
      l,
      skip_white_space-stops s v,
      elim (Bool-cases (w.ch == 0)) [
        | inl e ↦ let z = (==_iff w.ch 0).0 e in inl (z, scan_switch_eof w z)
        | inr nz ↦ elim (Bool-cases (lone_at w)) [
          | inl lone ↦ inr (inl (lone, scan_switch-lone_at w lone))
          | inr more ↦ inr (inr (more, ne_zero _ nz, scan_switch-Ends w l (ne_zero _ nz) more))
        ]
      ],
    )
