-- ===== src/Util/Safe.antt =====
-- util/string.go.
use zctl.Base.{
  ap, ◌∙◌, ℕ, Bool, true, false, not, ◌&&◌, ◌||◌, [], ◌∷◌, map, if◌then◌else◌, ◌≡◌, refl, arith,
  ◌==◌, leb, within, is_upper, is_lower, Text, All,
}
use zctl.Util.Casing.{Casing}

-- `isLetter`: the range from `A` to `z`.
abbrev pub is_letter : ℕ → Bool
is_letter r = leb b'A' r && leb r b'z'

abbrev pub is_number : ℕ → Bool
is_number r = leb b'0' r && leb r b'9'

abbrev pub is_safe_rune : ℕ → Bool
is_safe_rune r = is_letter r || is_number r || r == b'_'

abbrev safe_rune : ℕ → ℕ
safe_rune r = if is_safe_rune r then r else b'_'

-- The end of `SafeString`, on the mapped text.
unfoldable pub safe_head : Text → Text
safe_head [] = []
safe_head (r ∷ s) = if is_number r then b'_' ∷ r ∷ s else r ∷ s

unfoldable pub safe_string : Text → Text
unfolding safe_head
safe_string s = safe_head (map safe_rune s)

-- `TrimWhiteSpace`; 12 is the form feed.
abbrev pub is_trimmed : ℕ → Bool
is_trimmed c = c == b' ' || c == b'\t' || c == b'\n' || c == 12 || c == b'\r'

unfoldable pub trim_white_space : Text → Text
trim_white_space [] = []
trim_white_space (c ∷ s) = if is_trimmed c then trim_white_space s else c ∷ trim_white_space s

unfoldable pub is_empty_string_or_white_space : Text → Bool
unfolding trim_white_space
is_empty_string_or_white_space s = elim (trim_white_space s) [ [] ↦ true | c ∷ t ↦ false ]

-- `Title` and `Untitle` on a text whose first byte is a rune.
unfoldable pub title : Casing → Text → Text
title u [] = []
title u (c ∷ s) = u.upper c ∷ s

unfoldable pub untitle : Casing → Text → Text
untitle u [] = []
untitle u (c ∷ s) = u.lower c ∷ s

safe_rune-safe : (s : Text) → All (λ c. is_safe_rune c ≡ true) (map safe_rune s)
safe_rune-safe [] = tt
safe_rune-safe (c ∷ s) = (ground arith, safe_rune-safe s)

abbrev pub starts_number : Text → Bool
starts_number [] = false
starts_number (c ∷ s) = is_number c

safe_head-safe :
    (t : Text)
    → All (λ c. is_safe_rune c ≡ true) t
    → All (λ c. is_safe_rune c ≡ true) (safe_head t) × (starts_number (safe_head t) ≡ false)
unfolding safe_head
safe_head-safe [] h = (tt, refl)
safe_head-safe (c ∷ t) h = ground arith

-- What `SafeString` returns holds only runes that it takes for safe, and does not start with a
-- digit.
pub safe_string-safe :
    (s : Text)
    → All (λ c. is_safe_rune c ≡ true) (safe_string s) × (starts_number (safe_string s) ≡ false)
unfolding safe_string
safe_string-safe s = safe_head-safe (map safe_rune s) (safe_rune-safe s)

safe_head-fixed : (t : Text) → starts_number t ≡ false → safe_head t ≡ t
unfolding safe_head
safe_head-fixed [] h = refl
safe_head-fixed (c ∷ t) h = ground arith

map-safe_rune : (t : Text) → All (λ c. is_safe_rune c ≡ true) t → map safe_rune t ≡ t
map-safe_rune [] h = refl
map-safe_rune (c ∷ t) h = ground (arith, map-safe_rune t h.1)

-- The six signs between `Z` and `a`, which are no part of a Go identifier but for the underscore.
abbrev pub is_between : ℕ → Bool
is_between c = within 91 96 c && not (c == b'_')

abbrev pub Signs : Text → Type 0
Signs = All (λ c. (is_upper c || is_lower c || is_number c || c == b'_' || is_between c) ≡ true)

Signs-safe : (s : Text) → Signs s → All (λ c. is_safe_rune c ≡ true) s
Signs-safe [] h = tt
Signs-safe (c ∷ s) h = (ground arith, Signs-safe s h.1)

-- `SafeString` changes nothing in a text of ASCII letters, digits, underscores and of the signs
-- `[ \ ] ^` and the backquote, unless it starts with a digit: these signs stay in its result.
pub safe_string_unchanged : (s : Text) → Signs s → starts_number s ≡ false → safe_string s ≡ s
unfolding safe_string
safe_string_unchanged s h n = ap safe_head (map-safe_rune s (Signs-safe s h)) ∙ safe_head-fixed s n
