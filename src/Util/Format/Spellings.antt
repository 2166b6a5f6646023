-- ===== src/Util/Format/Spellings.antt =====
-- The spellings of `go` and `zero`, and the styles that the source reads off them.
use zctl.Base.{
  ℕ, ◌<◌, [], ◌∷◌, map, All, ◌∙◌, Option, none, if◌then◌else◌, some, Text, codes, text_eq, ◌≡◌,
  refl, arith,
}
use zctl.Util.Casing.{Casing, to_lower, to_upper, ascii_lower, ascii_upper}
use zctl.Util.Format.{Style, title, lower, upper, get_style}

abbrev pub go_in : Style → ℕ × ℕ
go_in lower = (b'g', b'o')
go_in upper = (b'G', b'O')
go_in title = (b'G', b'o')

abbrev pub zero_in : Style → ℕ × ℕ × ℕ × ℕ
zero_in lower = (b'z', b'e', b'r', b'o')
zero_in upper = (b'Z', b'E', b'R', b'O')
zero_in title = (b'Z', b'e', b'r', b'o')

abbrev pub go_text : Style → Text
go_text st = (go_in st).0 ∷ (go_in st).1 ∷ []

abbrev pub zero_text : Style → Text
zero_text st = (zero_in st).0 ∷ (zero_in st).1 ∷ (zero_in st).2 ∷ (zero_in st).3 ∷ []

-- The test of the styles, by what the flag is in lower case, in upper case and as a title.
unfoldable style_by : Text → Text → Text → Text → Option Style
style_by flag l c t =
    if text_eq flag l
    then some lower
    else if text_eq flag c
    then some upper
    else if text_eq flag t
    then some title
    else none

go_style : (st : Style) → style_by (go_text st) (codes "go") (codes "GO") (codes "Go") ≡ some st
unfolding style_by text_eq
go_style lower = refl
go_style upper = refl
go_style title = refl

zero_style :
    (st : Style) → style_by (zero_text st) (codes "zero") (codes "ZERO") (codes "Zero") ≡ some st
unfolding style_by text_eq
zero_style lower = refl
zero_style upper = refl
zero_style title = refl

module _ (u : Casing) where
  to_lower_ascii : (t : Text) → All (λ c. c < 128) t → to_lower u t ≡ map ascii_lower t
  to_lower_ascii [] a = refl
  to_lower_ascii (c ∷ t) a = rw (u.lower_ascii c a.0, to_lower_ascii t a.1) refl

  to_upper_ascii : (t : Text) → All (λ c. c < 128) t → to_upper u t ≡ map ascii_upper t
  to_upper_ascii [] a = refl
  to_upper_ascii (c ∷ t) a = rw (u.upper_ascii c a.0, to_upper_ascii t a.1) refl

  go_ascii : (st : Style) → All (λ c. c < 128) (go_text st)
  go_ascii lower = (omega arith, (omega arith, tt))
  go_ascii upper = (omega arith, (omega arith, tt))
  go_ascii title = (omega arith, (omega arith, tt))

  zero_ascii : (st : Style) → All (λ c. c < 128) (zero_text st)
  zero_ascii lower = (omega arith, (omega arith, (omega arith, (omega arith, tt))))
  zero_ascii upper = (omega arith, (omega arith, (omega arith, (omega arith, tt))))
  zero_ascii title = (omega arith, (omega arith, (omega arith, (omega arith, tt))))

  pub to_upper-go_in : (st : Style) → to_upper u (go_text st) ≡ codes "GO"
  to_upper-go_in lower = to_upper_ascii (go_text lower) (go_ascii lower)
  to_upper-go_in upper = to_upper_ascii (go_text upper) (go_ascii upper)
  to_upper-go_in title = to_upper_ascii (go_text title) (go_ascii title)

  pub to_upper-zero_in : (st : Style) → to_upper u (zero_text st) ≡ codes "ZERO"
  to_upper-zero_in lower = to_upper_ascii (zero_text lower) (zero_ascii lower)
  to_upper-zero_in upper = to_upper_ascii (zero_text upper) (zero_ascii upper)
  to_upper-zero_in title = to_upper_ascii (zero_text title) (zero_ascii title)

  to_lower-go_in : (st : Style) → to_lower u (go_text st) ≡ codes "go"
  to_lower-go_in lower = to_lower_ascii (go_text lower) (go_ascii lower)
  to_lower-go_in upper = to_lower_ascii (go_text upper) (go_ascii upper)
  to_lower-go_in title = to_lower_ascii (go_text title) (go_ascii title)

  to_lower-zero_in : (st : Style) → to_lower u (zero_text st) ≡ codes "zero"
  to_lower-zero_in lower = to_lower_ascii (zero_text lower) (zero_ascii lower)
  to_lower-zero_in upper = to_lower_ascii (zero_text upper) (zero_ascii upper)
  to_lower-zero_in title = to_lower_ascii (zero_text title) (zero_ascii title)

  module _ (title_of : Text → Text) where
    get_style-style_by :
        (flag l c t : Text)
        → to_lower u flag ≡ l
        → to_lower u l ≡ l
        → to_upper u l ≡ c
        → title_of l ≡ t
        → get_style u title_of flag ≡ style_by flag l c t
    unfolding get_style style_by
    get_style-style_by flag l c t a b d e = rw (a, b, d, e) refl

    pub get_style-go_in :
        (st : Style)
        → title_of (codes "go") ≡ codes "Go"
        → get_style u title_of (go_text st) ≡ some st
    get_style-go_in st h =
        get_style-style_by (go_text st) (codes "go") (codes "GO") (codes "Go") (to_lower-go_in st)
          (to_lower-go_in lower) (to_upper-go_in lower) h
        ∙ go_style st

    pub get_style-zero_in :
        (st : Style)
        → title_of (codes "zero") ≡ codes "Zero"
        → get_style u title_of (zero_text st) ≡ some st
    get_style-zero_in st h =
        get_style-style_by (zero_text st) (codes "zero") (codes "ZERO") (codes "Zero")
          (to_lower-zero_in st) (to_lower-zero_in lower) (to_upper-zero_in lower) h
        ∙ zero_style st
