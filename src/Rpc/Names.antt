-- ===== src/Rpc/Names.antt =====
-- rpc/parser/parser.go: the Go names of proto names.
pub mod Camel
pub mod Sanitized
use zctl.Base.{
  ℕ, ◌-◌, Bool, false, not, ◌&&◌, ◌||◌, [], ◌∷◌, ◌++◌, map, if◌then◌else◌, ◌==◌, Text, is_lower,
  is_digit,
}

-- `i+1 < len(s) && isASCIILower(s[i+1])`, on what stands behind `i`.
abbrev pub head_is_lower : Text → Bool
head_is_lower [] = false
head_is_lower (c ∷ s) = is_lower c

-- The two loops of `CamelCase` as one: `inside` tells that the last rune was appended by the inner
-- loop or just before it, so that small letters are taken as they are. `c - 32` is `c ^ ' '` for
-- a small letter.
unfoldable pub camel_loop : Bool → Text → Text
camel_loop inside [] = []
camel_loop inside (c ∷ rest) =
    let keep = inside && is_lower c in
    let skip = not keep && c == b'_' && head_is_lower rest in
    (if skip then [] else (if not keep && is_lower c then c - 32 else c) ∷ [])
    ++ camel_loop (keep || (not skip && not (is_digit c))) rest

unfoldable pub camel_case : Text → Text
unfolding camel_loop
camel_case [] = []
camel_case (c ∷ s) = if c == b'_' then b'X' ∷ camel_loop false s else camel_loop false (c ∷ s)

-- What `GoSanitized` asks of `unicode` and `go/token`.
module _ (is_letter is_number : ℕ → Bool) (is_go_keyword : Text → Bool) where
  abbrev pub sanitized_rune : ℕ → ℕ
  sanitized_rune r = if is_letter r || is_number r then r else b'_'

  -- `unicode.IsLetter` of the first rune; that of an empty text is no letter.
  abbrev pub starts_with_letter : Text → Bool
  starts_with_letter [] = false
  starts_with_letter (r ∷ s) = is_letter r

  unfoldable pub sanitized_head : Text → Text
  sanitized_head s = if is_go_keyword s || not (starts_with_letter s) then b'_' ∷ s else s

  unfoldable pub go_sanitized : Text → Text
  unfolding sanitized_head
  go_sanitized s = sanitized_head (map sanitized_rune s)
