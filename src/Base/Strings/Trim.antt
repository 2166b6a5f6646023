-- ===== src/Base/Strings/Trim.antt =====
-- How the functions on strings work on texts that are put together.
use Prim.Native.Nat.{ℕ}
use mathlib.Core.Path.{◌≡◌, refl, ap}
use mathlib.Core.Logic.{inl, inr}
use mathlib.Core.Bool.{Bool, true, false, ◌&&◌}
use mathlib.Core.List.{[], ◌∷◌, ◌++◌}
use native.Mathlib.Omega.{arith}
use zctl.Base.Tests.{if◌then◌else◌, Bool-cases}
use zctl.Base.Lists.{All, take_while, drop_while}
use zctl.Base.Runes.{Text}
use zctl.Base.Strings.{is_empty, contains_rune, trim_right, trim_space}

-- Whether the text begins with a rune that passes the test.
abbrev pub starts : (ℕ → Bool) → Text → Bool
starts p [] = false
starts p (c ∷ s) = p c

module _ (p : ℕ → Bool) where
  pub take_while-append :
      (a s : Text) → All (λ c. p c ≡ true) a → starts p s ≡ false → take_while p (a ++ s) ≡ a
  take_while-append [] [] h n = refl
  take_while-append [] (c ∷ s) h n = ground (arith, n)
  take_while-append (c ∷ a) s h n = ground (arith, h.0, take_while-append a s h.1 n)

  pub drop_while-append :
      (a s : Text) → All (λ c. p c ≡ true) a → starts p s ≡ false → drop_while p (a ++ s) ≡ s
  drop_while-append [] [] h n = refl
  drop_while-append [] (c ∷ s) h n = ground (arith, n)
  drop_while-append (c ∷ a) s h n = ground (arith, h.0, drop_while-append a s h.1 n)

pub contains_rune-append :
    (c : ℕ) (a s : Text) → contains_rune c s ≡ true → contains_rune c (a ++ s) ≡ true
contains_rune-append c [] s h = h
contains_rune-append c (x ∷ a) s h = ground (arith, contains_rune-append c a s h)

module _ (is_space : ℕ → Bool) where
  pub trim_right-append :
      (a s : Text)
      → is_empty (trim_right is_space s) ≡ false
      → trim_right is_space (a ++ s) ≡ a ++ trim_right is_space s
  trim_right-append [] s h = refl
  trim_right-append (c ∷ a) s h = elim (Bool-cases (is_space c)) [
    | inl e ↦ filled c a s e h (trim_right-append a s h)
    | inr e ↦ rw (e, ◌&&◌, if◌then◌else◌) (ap (◌∷◌ c) (trim_right-append a s h))
  ]
    where
      filled :
          (c : ℕ) (a s : Text)
          → is_space c ≡ true
          → is_empty (trim_right is_space s) ≡ false
          → trim_right is_space (a ++ s) ≡ a ++ trim_right is_space s
          → trim_right is_space (c ∷ (a ++ s)) ≡ c ∷ (a ++ trim_right is_space s)
      filled c [] s e h i = rw (e, h, ◌&&◌, if◌then◌else◌) refl
      filled c (x ∷ a) s e h i = rw (e, i, ◌&&◌, if◌then◌else◌) refl

  pub trim_right-solid :
      (c : ℕ) (s : Text)
      → is_space c ≡ false
      → trim_right is_space (c ∷ s) ≡ c ∷ trim_right is_space s
  trim_right-solid c s h = rw (h, ◌&&◌, if◌then◌else◌) refl

  -- White space goes at the front, and what follows a solid end.
  pub trim_space-append :
      (a s : Text)
      → All (λ c. is_space c ≡ true) a
      → starts is_space s ≡ false
      → trim_space is_space (a ++ s) ≡ trim_right is_space s
  trim_space-append a s h n = ap (trim_right is_space) (drop_while-append is_space a s h n)
