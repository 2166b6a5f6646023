-- ===== src/Base/Runes.antt =====
-- Texts as lists of runes (code points): what `[]rune(s)` and `for _, r := range s` see.
use Prim.Native.Char.{code}
use Prim.Native.String.{String}
use Prim.Native.Nat.{ℕ}
use mathlib.Core.Path.{◌≡◌, refl}
use mathlib.Core.Logic.{◌↔◌}
use mathlib.Core.Bool.{Bool, true, false, ◌&&◌, ◌||◌}
use mathlib.Core.List.{List, [], ◌∷◌, ◌++◌}
use native.Mathlib.Omega.{arith}
use zctl.Base.Tests.{leb, ◌==◌}

abbrev pub Text : Type 0
Text = List ℕ

-- The code points of a literal.
abbrev pub codes : String → Text
codes String.[] = []
codes (String.◌∷◌ c s) = code c ∷ codes s

abbrev pub within : ℕ → ℕ → ℕ → Bool
within lo hi c = leb lo c && leb c hi

abbrev pub is_upper : ℕ → Bool
is_upper = within b'A' b'Z'

abbrev pub is_lower : ℕ → Bool
is_lower = within b'a' b'z'

abbrev pub is_digit : ℕ → Bool
is_digit = within b'0' b'9'

-- Go's `==` on strings.
unfoldable pub text_eq : Text → Text → Bool
text_eq [] [] = true
text_eq (x ∷ xs) (y ∷ ys) = x == y && text_eq xs ys
text_eq _ _ = false

pub text_eq_iff : (s t : Text) → (text_eq s t ≡ true) ↔ (s ≡ t)
unfolding text_eq
text_eq_iff (x ∷ xs) (y ∷ ys) = ground (arith, text_eq_iff xs ys)
text_eq_iff _ _ = ground arith

-- `strings.HasPrefix(s, prefix)`
abbrev pub has_prefix : Text → Text → Bool
has_prefix s [] = true
has_prefix [] (p ∷ ps) = false
has_prefix (c ∷ s) (p ∷ ps) = c == p && has_prefix s ps

-- Membership in a list of texts, as a test.
unfoldable pub text_mem : Text → List Text → Bool
unfolding text_eq
text_mem t [] = false
text_mem t (u ∷ us) = text_eq t u || text_mem t us

-- No text stands twice in the list.
abbrev pub IsAcyclic : List Text → Type 0
IsAcyclic [] = Unit {0}
IsAcyclic (x ∷ s) = (text_mem x s ≡ false) × IsAcyclic s

pub text_mem-append :
    (x p : Text) (s : List Text) → text_mem x (s ++ p ∷ []) ≡ (text_mem x s || text_eq x p)
unfolding text_mem
text_mem-append x p [] = ground arith
text_mem-append x p (y ∷ s) = ground (arith, text_mem-append x p s)

pub append-IsAcyclic :
    (p : Text) (s : List Text) → text_mem p s ≡ false → IsAcyclic s → IsAcyclic (s ++ p ∷ [])
unfolding text_mem
append-IsAcyclic p [] h a = (refl, tt)
append-IsAcyclic p (x ∷ s) h a =
    ground (arith, append-IsAcyclic p s, text_mem-append x p s, text_eq_iff p x, text_eq_iff x p)
