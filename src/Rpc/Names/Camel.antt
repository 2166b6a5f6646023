-- ===== src/Rpc/Names/Camel.antt =====
-- The form of what `CamelCase` gives, and that it leaves such a text as it is.
use zctl.Base.{
  ℕ, Bool, true, false, not, ◌&&◌, ◌||◌, [], ◌∷◌, ◌==◌, Text, is_lower, is_digit, ◌≡◌, refl, arith,
  Bool-cases, inl, inr,
}
use zctl.Rpc.Names.{head_is_lower, camel_loop, camel_case}

-- A small letter follows a rune that is neither a digit nor `_`; `after` tells that such a rune
-- stands before the text.
unfoldable pub is_camel_behind : Bool → Text → Bool
is_camel_behind after [] = true
is_camel_behind after (c ∷ s) =
    (after || not (is_lower c)) && is_camel_behind (not (c == b'_') && not (is_digit c)) s

starts_with_under : Text → Bool
starts_with_under [] = false
starts_with_under (c ∷ s) = c == b'_'

-- No small letter at the start, behind a digit or behind `_`, and no `_` at the start.
unfoldable pub is_camel : Text → Bool
unfolding is_camel_behind starts_with_under
is_camel s = is_camel_behind false s && not (starts_with_under s)

-- One round of the loop, by the kind of its rune.
small_round :
    (b inside : Bool) (c : ℕ) (s : Text)
    → is_lower c ≡ true
    → (b || not inside) ≡ true
    → is_camel_behind true (camel_loop true s) ≡ true
    → is_camel_behind b (camel_loop inside (c ∷ s)) ≡ true
unfolding camel_loop is_camel_behind
small_round b true c s e h ih = ground (arith, e, h, ih)
small_round b false c s e h ih = ground (arith, e, h, ih)

digit_round :
    (b inside : Bool) (c : ℕ) (s : Text)
    → is_digit c ≡ true
    → is_camel_behind false (camel_loop false s) ≡ true
    → is_camel_behind b (camel_loop inside (c ∷ s)) ≡ true
unfolding camel_loop is_camel_behind
digit_round b inside c s e ih = ground (arith, e, ih)

skip_round :
    (b inside : Bool) (c : ℕ) (s : Text)
    → (c == b'_') ≡ true
    → head_is_lower s ≡ true
    → is_camel_behind b (camel_loop false s) ≡ true
    → is_camel_behind b (camel_loop inside (c ∷ s)) ≡ true
unfolding camel_loop is_camel_behind
skip_round b inside c s u l ih = ground (arith, u, l, ih)

under_round :
    (b inside : Bool) (c : ℕ) (s : Text)
    → (c == b'_') ≡ true
    → head_is_lower s ≡ false
    → is_camel_behind false (camel_loop true s) ≡ true
    → is_camel_behind b (camel_loop inside (c ∷ s)) ≡ true
unfolding camel_loop is_camel_behind
under_round b inside c s u l ih = ground (arith, u, l, ih)

plain_round :
    (b inside : Bool) (c : ℕ) (s : Text)
    → is_lower c ≡ false
    → is_digit c ≡ false
    → (c == b'_') ≡ false
    → is_camel_behind true (camel_loop true s) ≡ true
    → is_camel_behind b (camel_loop inside (c ∷ s)) ≡ true
unfolding camel_loop is_camel_behind
plain_round b inside c s e d u ih = ground (arith, e, d, u, ih)

camel_loop_camel :
    (b inside : Bool) (s : Text)
    → (b || not inside || not (head_is_lower s)) ≡ true
    → is_camel_behind b (camel_loop inside s) ≡ true
unfolding camel_loop is_camel_behind
camel_loop_camel b inside [] h = refl
camel_loop_camel b inside (c ∷ s) h = elim (Bool-cases (is_lower c)) [
  | inl e ↦ small_round b inside c s e (ground (arith, e, h)) (camel_loop_camel true true s refl)
  | inr e ↦ elim (Bool-cases (is_digit c)) [
    | inl d ↦ digit_round b inside c s d (camel_loop_camel false false s refl)
    | inr d ↦ elim (Bool-cases (c == b'_')) [
      | inl u ↦ elim (Bool-cases (head_is_lower s)) [
        | inl l ↦ skip_round b inside c s u l (camel_loop_camel b false s (ground (arith, h)))
        | inr l ↦ under_round b inside c s u l (camel_loop_camel false true s (ground (arith, l)))
      ]
      | inr u ↦ plain_round b inside c s e d u (camel_loop_camel true true s refl)
    ]
  ]
]

is_camel_head : (s : Text) → is_camel_behind false s ≡ true → head_is_lower s ≡ false
unfolding is_camel_behind
is_camel_head [] h = refl
is_camel_head (c ∷ s) h = ground (arith, h)

camel_loop_fixed :
    (b inside : Bool) (s : Text)
    → is_camel_behind b s ≡ true
    → (not b || inside) ≡ true
    → camel_loop inside s ≡ s
unfolding camel_loop is_camel_behind
camel_loop_fixed b inside [] h k = refl
camel_loop_fixed b inside (c ∷ s) h k = ground (
  arith,
  camel_loop_fixed (not (c == b'_') && not (is_digit c)) true s,
  camel_loop_fixed (not (c == b'_') && not (is_digit c)) false s,
  is_camel_head s,
)

camel_case_camel : (s : Text) → is_camel (camel_case s) ≡ true
unfolding camel_case is_camel camel_loop is_camel_behind starts_with_under
camel_case_camel [] = refl
camel_case_camel (c ∷ s) =
    ground (arith, camel_loop_camel false false (c ∷ s), camel_loop_camel true false s)

camel_case_fixed : (s : Text) → is_camel s ≡ true → camel_case s ≡ s
unfolding camel_case is_camel starts_with_under
camel_case_fixed [] h = refl
camel_case_fixed (c ∷ s) h = ground (arith, h, camel_loop_fixed false false (c ∷ s))

-- `CamelCase` gives a text with no small letter at its start, behind a digit or behind `_`, and no
-- `_` at its start, and changes nothing when it is applied again.
pub camel_case_idem :
    (s : Text) → (is_camel (camel_case s) ≡ true) × (camel_case (camel_case s) ≡ camel_case s)
camel_case_idem s = (camel_case_camel s, camel_case_fixed (camel_case s) (camel_case_camel s))
