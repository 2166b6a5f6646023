-- ===== src/Util/Name/Service.antt =====
-- Names made of service names: `ProtoPkg`, `DashName` and `ServiceGoIdent`.
use zctl.Base.{
  ℕ, zero, suc, ◌≤◌, ◌<◌, Bool, true, false, not, ◌&&◌, ◌||◌, List, [], ◌∷◌, ◌++◌, if◌then◌else◌,
  ◌==◌, Text, ◌≡◌, refl, sym, ap, ◌∙◌, arith, is_upper, is_lower, is_digit, append-nil,
  append_assoc, All, Bool-cases, length,
}
use zctl.Util.Stringx.{flush}
use zctl.Util.Name.{
  proto_pkg, is_separator, words_loop, go_words, service_go_ident, dash_runes, has_double_dash,
  halve_dashes, squeeze, trim_left, trim_right, dash_name, is_nonempty,
}

abbrev pub IsPkg : Text → Type 0
IsPkg = All (λ c. (is_lower c || is_digit c) ≡ true)

-- A proto package holds small letters and digits of ASCII, and nothing else.
pub proto_pkg-IsPkg : (s : Text) → IsPkg (proto_pkg s)
unfolding proto_pkg
proto_pkg-IsPkg [] = tt
proto_pkg-IsPkg (c ∷ s) = ground (arith, proto_pkg-IsPkg s)

proto_pkg_fixed : (s : Text) → IsPkg s → proto_pkg s ≡ s
unfolding proto_pkg
proto_pkg_fixed [] h = refl
proto_pkg_fixed (c ∷ s) h = ground (arith, proto_pkg_fixed s h.1)

-- A proto package is its own proto package.
pub proto_pkg_idem : (s : Text) → proto_pkg (proto_pkg s) ≡ proto_pkg s
proto_pkg_idem s = proto_pkg_fixed (proto_pkg s) (proto_pkg-IsPkg s)

length-halve_dashes : (s : Text) → length (halve_dashes s) ≤ length s
unfolding halve_dashes
length-halve_dashes [] = omega arith
length-halve_dashes (c ∷ []) = omega arith
length-halve_dashes (c ∷ d ∷ s) = ground (arith, length-halve_dashes s, length-halve_dashes (d ∷ s))

halve_dashes_shrinks : (s : Text) → has_double_dash s ≡ true → length (halve_dashes s) < length s
unfolding halve_dashes has_double_dash
halve_dashes_shrinks [] h = cc
halve_dashes_shrinks (c ∷ []) h = cc
halve_dashes_shrinks (c ∷ d ∷ s) h =
    ground (arith, length-halve_dashes s, halve_dashes_shrinks (d ∷ s))

-- The loop of `DashName` ends by its own test: a round per rune is enough.
squeeze-stops : (f : ℕ) (s : Text) → length s ≤ f → has_double_dash (squeeze f s) ≡ false
unfolding squeeze has_double_dash
squeeze-stops zero [] h = refl
squeeze-stops zero (c ∷ s) h = absurd (omega arith)
squeeze-stops (suc f) s h = ground (arith, squeeze-stops f (halve_dashes s), halve_dashes_shrinks s)

abbrev pub starts_dash : Text → Bool
starts_dash [] = false
starts_dash (c ∷ s) = c == b'-'

abbrev pub ends_dash : Text → Bool
ends_dash [] = false
ends_dash (c ∷ []) = c == b'-'
ends_dash (c ∷ d ∷ s) = ends_dash (d ∷ s)

trim_left-starts : (s : Text) → starts_dash (trim_left s) ≡ false
unfolding trim_left
trim_left-starts [] = refl
trim_left-starts (c ∷ s) = ground (arith, trim_left-starts s)

trim_left-single : (s : Text) → has_double_dash s ≡ false → has_double_dash (trim_left s) ≡ false
unfolding trim_left has_double_dash
trim_left-single [] h = refl
trim_left-single (c ∷ []) h = ground arith
trim_left-single (c ∷ d ∷ s) h = ground (arith, trim_left-single (d ∷ s))

trim_right-starts : (s : Text) → starts_dash s ≡ false → starts_dash (trim_right s) ≡ false
unfolding trim_right
trim_right-starts [] h = refl
trim_right-starts (c ∷ s) h = ground arith

-- A round of `trim_right`.
abbrev keep_rune : ℕ → Text → Text
keep_rune c t = if c == b'-' && not (is_nonempty t) then [] else c ∷ t

keep_rune-ends : (c : ℕ) (t : Text) → ends_dash t ≡ false → ends_dash (keep_rune c t) ≡ false
keep_rune-ends c [] h = ground arith
keep_rune-ends c (d ∷ t) h = ground arith

keep_rune-single :
    (c : ℕ) (t : Text)
    → has_double_dash t ≡ false
    → (c == b'-' && starts_dash t) ≡ false
    → has_double_dash (keep_rune c t) ≡ false
unfolding has_double_dash
keep_rune-single c [] h k = ground arith
keep_rune-single c (d ∷ t) h k = ground arith

trim_right-ends : (s : Text) → ends_dash (trim_right s) ≡ false
unfolding trim_right
trim_right-ends [] = refl
trim_right-ends (c ∷ s) = keep_rune-ends c (trim_right s) (trim_right-ends s)

has_double_dash-cons :
    (c : ℕ) (s : Text)
    → has_double_dash (c ∷ s) ≡ false
    → ((c == b'-' && starts_dash s) ≡ false) × (has_double_dash s ≡ false)
unfolding has_double_dash
has_double_dash-cons c [] h = (ground arith, refl)
has_double_dash-cons c (d ∷ s) h = ground arith

trim_right-single : (s : Text) → has_double_dash s ≡ false → has_double_dash (trim_right s) ≡ false
unfolding trim_right
trim_right-single [] h = h
trim_right-single (c ∷ s) h =
    let (front, back) = has_double_dash-cons c s h in
    keep_rune-single c (trim_right s) (trim_right-single s back)
      (ground (arith, trim_right-starts s, Bool-cases (starts_dash s)))

-- The result has no two dashes in a row, and neither begins nor ends with one.
pub dash_name_dashes :
    (s : Text)
    → (has_double_dash (dash_name s) ≡ false)
      × (starts_dash (dash_name s) ≡ false)
      × (ends_dash (dash_name s) ≡ false)
unfolding dash_name
dash_name_dashes s =
    let out = dash_runes 0 s in
    let once = squeeze (length out) out in
    let single = squeeze-stops (length out) out (omega arith) in
    (
      trim_right-single (trim_left once) (trim_left-single once single),
      trim_right-starts (trim_left once) (trim_left-starts once),
      trim_right-ends (trim_left once),
    )

flush_words : (current : Text) (words : List Text) → flush current words ≡ words ++ flush current []
unfolding flush
flush_words [] words = sym (append-nil words)
flush_words (c ∷ b) words = refl

cut_words :
    (cut : Bool) (current : Text) (words : List Text)
    → (if cut then flush current words else words) ≡ words ++ (if cut then flush current [] else [])
cut_words true current words = flush_words current words
cut_words false current words = sym (append-nil words)

words_loop_words :
    (s : Text) (prev : ℕ) (words : List Text) (current : Text)
    → words_loop prev words current s ≡ words ++ words_loop prev [] current s
unfolding words_loop
words_loop_words [] prev words current = flush_words current words
words_loop_words (r ∷ s) prev words current =
    let cut = is_separator r || (is_upper r && is_lower prev) in
    let buffer =
      if is_separator r
      then []
      else (if is_upper r && is_lower prev then [] else current) ++ r ∷ [] in
    words_loop_words s r (if cut then flush current words else words) buffer
    ∙ ap (λ w. w ++ words_loop r [] buffer s) (cut_words cut current words)
    ∙ append_assoc words (if cut then flush current [] else []) (words_loop r [] buffer s)
    ∙ ap (λ w. words ++ w)
        (sym (words_loop_words s r (if cut then flush current [] else []) buffer))

-- Behind a separator the words begin anew.
words_loop_separator :
    (a : Text) (prev : ℕ) (words : List Text) (current : Text) (sep : ℕ) (b : Text)
    → is_separator sep ≡ true
    → words_loop prev words current (a ++ sep ∷ b)
      ≡ words_loop sep (words_loop prev words current a) [] b
unfolding words_loop
words_loop_separator [] prev words current sep b h =
    ap
      (λ x.
        words_loop sep (if x || (is_upper sep && is_lower prev) then flush current words else words)
          (if x then [] else (if is_upper sep && is_lower prev then [] else current) ++ sep ∷ []) b)
      h
words_loop_separator (r ∷ a) prev words current sep b h = words_loop_separator a r _ _ sep b h

separator-not_lower : (c : ℕ) → is_separator c ≡ true → is_lower c ≡ false
separator-not_lower c h = ground arith

words_loop_prev :
    (b : Text) (sep : ℕ) → is_separator sep ≡ true → words_loop sep [] [] b ≡ words_loop 0 [] [] b
unfolding words_loop flush
words_loop_prev [] sep h = refl
words_loop_prev (r ∷ b) sep h =
    ap
      (λ x.
        words_loop r (if is_separator r || (is_upper r && x) then [] else [])
          (if is_separator r then [] else (if is_upper r && x then [] else []) ++ r ∷ []) b)
      (separator-not_lower sep h)

go_words-append : (ws vs : List Text) → go_words (ws ++ vs) ≡ go_words ws ++ go_words vs
unfolding go_words
go_words-append [] vs = refl
go_words-append (w ∷ ws) vs = simp (go_words-append ws vs, append_assoc)

-- Each separator, of the four, parts a service name into parts that are turned into Go words on
-- their own, and is dropped.
pub service_go_ident_separator :
    (a : Text) (sep : ℕ) (b : Text)
    → is_separator sep ≡ true
    → service_go_ident (a ++ sep ∷ b) ≡ service_go_ident a ++ service_go_ident b
unfolding service_go_ident
service_go_ident_separator a sep b h =
    ap go_words (
      words_loop_separator a 0 [] [] sep b h
      ∙ words_loop_words b sep (words_loop 0 [] [] a) []
      ∙ ap (λ w. words_loop 0 [] [] a ++ w) (words_loop_prev b sep h))
    ∙ go_words-append (words_loop 0 [] [] a) (words_loop 0 [] [] b)
