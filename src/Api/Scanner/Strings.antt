-- ===== src/Api/Scanner/Strings.antt =====
-- What `scanString` reads: up to the next delimiter, or an error at the end of the input.
use zctl.Base.{
  ℕ, zero, suc, ◌<◌, Bool, true, false, not, ◌&&◌, [], ◌∷◌, ◌++◌, Text, All, length, ◌==◌,
  length-append, append_assoc, append-nil, length-drop, ◌≡◌, ◌≢◌, refl, sym, ap, ◌∙◌, arith,
}
use zctl.Api.Token.{TokenType, eof, type_string}
use zctl.Api.Scanner.{Scanner, scanned, read_rune, token_from, assert_expected, new_position}
use zctl.Api.Scanner.Invariant.{IsValid}
use zctl.Api.Scanner.Literals.{init_mode, string_open, string_loop, scan_string}
use zctl.Api.Scanner.Behind.{
  rest, Behind, Behind-read_rune, Behind-trans, rest-cons, rest-nil, token_from-Behind,
}

-- Neither the delimiter nor the zero rune.
abbrev pub is_plain : ℕ → ℕ → Bool
is_plain delim c = not (c == delim) && not (c == 0)

abbrev pub IsPlain : ℕ → Text → Type 0
IsPlain delim = All (λ c. is_plain delim c ≡ true)

string_loop_step :
    (delim : ℕ) (tp : TokenType) (start f : ℕ) (s : Scanner)
    → (s.ch == delim) ≡ false
    → (s.ch == 0) ≡ false
    → string_loop delim tp start (suc f) string_open s
      ≡ string_loop delim tp start f string_open (read_rune s)
unfolding string_loop
string_loop_step delim tp start f s h k = ground (arith, h, k)

string_loop_begin :
    (delim : ℕ) (tp : TokenType) (start f : ℕ) (s : Scanner)
    → s.ch ≡ delim
    → string_loop delim tp start (suc f) init_mode s
      ≡ string_loop delim tp start f string_open (read_rune s)
unfolding string_loop
string_loop_begin delim tp start f s h = ground (arith, h)

string_loop_close :
    (delim : ℕ) (tp : TokenType) (start f : ℕ) (s : Scanner)
    → s.ch ≡ delim
    → string_loop delim tp start (suc f) string_open s ≡ token_from tp start (read_rune s)
unfolding string_loop
string_loop_close delim tp start f s h = ground (arith, h)

string_loop_open :
    (delim : ℕ) (tp : TokenType) (start f : ℕ) (s : Scanner)
    → delim ≢ 0
    → s.ch ≡ 0
    → string_loop delim tp start (suc f) string_open s
      ≡ assert_expected (type_string eof) ((delim ∷ []) ∷ []) s
unfolding string_loop
string_loop_open delim tp start f s d h = ground (arith, d, h)

-- The loop comes to the end of the runes that are plain.
string_loop-plain :
    (delim : ℕ) (tp : TokenType) (start : ℕ) (body tail : Text) (f : ℕ) (s : Scanner)
    → IsValid s
    → IsPlain delim body
    → rest s ≡ body ++ tail
    → length body < f
    → (t : Scanner) × (g : ℕ) × (string_loop delim tp start f string_open s
        ≡ string_loop delim tp start (suc g) string_open t)
      × Behind s (length body) t
      × (rest t ≡ tail)
unfolding string_loop
string_loop-plain delim tp start body tail zero s v a h l = absurd (omega (arith, l))
string_loop-plain delim tp start [] tail (suc f) s v a h l = (
  s,
  f,
  refl,
  record {
    valid = v;
    source_is = refl;
    filename_is = refl;
    lines_are = refl;
    position_is = omega arith;
  },
  h,
)
string_loop-plain delim tp start (c ∷ body) tail (suc f) s v a h l =
    let r = rest-cons s c (body ++ tail) v h in
    let b = Behind-read_rune s v in
    let (t, g, e, k, m) =
      string_loop-plain delim tp start body tail f (read_rune s) b.valid a.1 r.1
        (omega (arith, l)) in
    let e1 : (s.ch == delim) ≡ false = ground (arith, r.0, a.0) in
    let e2 : (s.ch == 0) ≡ false = ground (arith, r.0, a.0) in
    (
      t,
      g,
      string_loop_step delim tp start f s e1 e2 ∙ e,
      Behind-trans s (read_rune s) t 1 (length body) (suc (length body)) (omega arith) b k,
      m,
    )

-- Behind the opening delimiter and a plain body, `scanString` is in its loop, at what follows.
scan_string-plain :
    (delim : ℕ) (tp : TokenType) (body tail : Text) (s : Scanner)
    → IsValid s
    → IsPlain delim body
    → rest s ≡ delim ∷ (body ++ tail)
    → (t : Scanner) × (g : ℕ) × (scan_string delim tp s
        ≡ string_loop delim tp s.position (suc g) string_open t)
      × Behind s (suc (length body)) t
      × (rest t ≡ tail)
unfolding scan_string
scan_string-plain delim tp body tail s v a h =
    let r = rest-cons s delim (body ++ tail) v h in
    let b = Behind-read_rune s v in
    let n : length body < s.size =
      ground
        (arith, length-drop s.position s.source, v.size_is, ap length h, length-append body tail) in
    let (t, g, e, k, m) =
      string_loop-plain delim tp s.position body tail s.size (read_rune s) b.valid a r.1 n in
    (
      t,
      g,
      string_loop_begin delim tp s.position s.size s r.0 ∙ e,
      Behind-trans s (read_rune s) t 1 (length body) (suc (length body)) (omega arith) b k,
      m,
    )

-- On a valid state where the rest is a delimiter, a body without delimiters and zero runes, a
-- delimiter and a tail, `scanString` gives the token of the text up to the second delimiter, at the
-- position of the first, goes on at the tail, and has the lines it had.
pub scan_string_closed :
    (delim : ℕ) (tp : TokenType) (body tail : Text) (s : Scanner)
    → IsValid s
    → IsPlain delim body
    → rest s ≡ delim ∷ (body ++ (delim ∷ tail))
    → (t : Scanner) × (scan_string delim tp s
        ≡ scanned
            (record {
              type = tp;
              text = delim ∷ (body ++ (delim ∷ []));
              position = new_position s s.position;
            })
            t)
      × (rest t ≡ tail)
      × (t.lines ≡ s.lines)
scan_string_closed delim tp body tail s v a h =
    let (t, g, e, k, m) = scan_string-plain delim tp body (delim ∷ tail) s v a h in
    let r = rest-cons t delim tail k.valid m in
    let b =
      Behind-trans s t (read_rune t) (suc (length body)) 1 (suc (suc (length body))) (omega arith) k
        (Behind-read_rune t k.valid) in
    let whole : rest s ≡ (delim ∷ (body ++ delim ∷ [])) ++ tail =
      h ∙ ap (◌∷◌ delim) (sym (append_assoc body (delim ∷ []) tail)) in
    (
      read_rune t,
      e
          ∙ string_loop_close delim tp s.position g t r.0
          ∙ token_from-Behind tp s (read_rune t) (suc (length body)) (delim ∷ (body ++ delim ∷ []))
              tail v b whole (omega (arith, length-append body (delim ∷ []))),
      r.1,
      b.lines_are,
    )

-- On a valid state where the rest is a delimiter other than 0 and runes that are neither delimiters
-- nor 0, `scanString` fails at the end of the input: it expects the delimiter there.
pub scan_string_open :
    (delim : ℕ) (tp : TokenType) (body : Text) (s : Scanner)
    → IsValid s
    → delim ≢ 0
    → IsPlain delim body
    → rest s ≡ delim ∷ body
    → (t : Scanner) × (scan_string delim tp s
        ≡ assert_expected (type_string eof) ((delim ∷ []) ∷ []) t)
      × (rest t ≡ [])
scan_string_open delim tp body s v d a h =
    let (t, g, e, k, m) =
      scan_string-plain delim tp body [] s v a (h ∙ ap (◌∷◌ delim) (sym (append-nil body))) in
    (t, e ∙ string_loop_open delim tp s.position g t d (rest-nil t k.valid m), m)
