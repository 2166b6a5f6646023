-- ===== src/Rpc/Names/Sanitized.antt =====
-- `GoSanitized` gives Go identifiers.
use zctl.Base.{
  ℕ, Bool, true, false, not, ◌||◌, [], ◌∷◌, map, ◌==◌, Text, All, ◌≡◌, arith, Bool-cases, inl, inr,
}
use zctl.Rpc.Names.{sanitized_rune, starts_with_letter, sanitized_head, go_sanitized}

module _ (is_letter is_number : ℕ → Bool) (is_go_keyword : Text → Bool) where
  -- The runes of identifiers.
  abbrev is_identifier_rune : ℕ → Bool
  is_identifier_rune r = is_letter r || is_number r || r == b'_'

  -- The first runes of identifiers.
  abbrev starts_identifier : Text → Bool
  starts_identifier [] = false
  starts_identifier (r ∷ s) = is_letter r || r == b'_'

  -- Not empty, of letters, digits and `_`, with no digit at the start, and no keyword.
  abbrev pub IsIdentifier : Text → Type 0
  IsIdentifier s =
      (starts_identifier s ≡ true)
      × (is_go_keyword s ≡ false)
      × All (λ r. is_identifier_rune r ≡ true) s

  map-All :
      (s : Text)
      → All
          (λ r. is_identifier_rune r ≡ true)
          (map (sanitized_rune is_letter is_number is_go_keyword) s)
  map-All [] = tt
  map-All (r ∷ s) = (ground arith, map-All s)

  starts_letter :
      (s : Text)
      → starts_with_letter is_letter is_number is_go_keyword s ≡ true
      → starts_identifier s ≡ true
  starts_letter [] h = cc
  starts_letter (r ∷ s) h = ground (arith, h)

  sanitized_head-IsIdentifier :
      ((s : Text) → is_go_keyword (b'_' ∷ s) ≡ false)
      → (s : Text) → All (λ r. is_identifier_rune r ≡ true) s
      → IsIdentifier (sanitized_head is_letter is_number is_go_keyword s)
  unfolding sanitized_head
  sanitized_head-IsIdentifier k s a =
      elim (Bool-cases
        (is_go_keyword s || not (starts_with_letter is_letter is_number is_go_keyword s))) [
          | inl e ↦ rw e (ground arith, k s, (ground arith, a))
          | inr e ↦ rw e (starts_letter s (ground (arith, e)), ground (arith, e), a)
        ]

  -- Where no keyword begins with `_`, the result of `GoSanitized` is not empty, holds letters,
  -- digits and `_` only, does not start with a digit, and is no keyword.
  pub go_sanitized-IsIdentifier :
      ((s : Text) → is_go_keyword (b'_' ∷ s) ≡ false)
      → (s : Text) → IsIdentifier (go_sanitized is_letter is_number is_go_keyword s)
  unfolding go_sanitized
  go_sanitized-IsIdentifier k s =
      sanitized_head-IsIdentifier k (map (sanitized_rune is_letter is_number is_go_keyword) s)
        (map-All s)
