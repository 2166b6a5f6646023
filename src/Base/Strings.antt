-- ===== src/Base/Strings.antt =====
-- Go's package `strings` on runes, as far as the proto tools call it.
pub mod Trim
use Prim.Native.Nat.{ℕ, suc}
use mathlib.Core.Bool.{Bool, true, false, not, ◌&&◌}
use mathlib.Core.Option.{Option, none, some}
use mathlib.Core.List.{List, [], ◌∷◌}
use zctl.Base.Tests.{◌==◌, if◌then◌else◌}
use zctl.Base.Lists.{take_while, drop_while, drop}
use zctl.Base.Runes.{Text, has_prefix}

abbrev pub is_empty : Text → Bool
is_empty [] = true
is_empty (c ∷ s) = false

-- `strings.Count(s, string(c))`
abbrev pub count : ℕ → Text → ℕ
count c [] = 0
count c (x ∷ s) = let n = count c s in if x == c then suc n else n

-- `strings.Contains(s, string(c))`
abbrev pub contains_rune : ℕ → Text → Bool
contains_rune c [] = false
contains_rune c (x ∷ s) = let rest = contains_rune c s in if x == c then true else rest

-- `s[:strings.Index(s, string(c))]`, and all of `s` where the rune is not in it.
abbrev pub before : ℕ → Text → Text
before c s = take_while (λ x. not (x == c)) s

-- `s[strings.Index(s, string(c))+1:]`, where the rune is in it.
abbrev pub behind : ℕ → Text → Text
behind c s = drop 1 (drop_while (λ x. not (x == c)) s)

-- `strings.TrimSpace`, over `unicode.IsSpace`.
module _ (is_space : ℕ → Bool) where
  abbrev pub trim_right : Text → Text
  trim_right [] = []
  trim_right (c ∷ s) =
      let rest = trim_right s in if is_space c && is_empty rest then [] else c ∷ rest

  abbrev pub trim_space : Text → Text
  trim_space s = trim_right (drop_while is_space s)

abbrev pub put_front : ℕ → Option (Text × Text) → Option (Text × Text)
put_front c none = none
put_front c (some (a, b)) = some (c ∷ a, b)

-- `s[:i]` and `s[i:]` for `i` of `strings.Index(s, pattern)`; `none` where that is -1.
unfoldable pub split_at : Text → Text → Option (Text × Text)
split_at pattern [] = if has_prefix [] pattern then some ([], []) else none
split_at pattern (c ∷ s) =
    let rest = put_front c (split_at pattern s) in
    if has_prefix (c ∷ s) pattern then some ([], c ∷ s) else rest

abbrev pub put_line : ℕ → List Text → List Text
put_line c [] = (c ∷ []) ∷ []
put_line c (l ∷ ls) = (c ∷ l) ∷ ls

-- `strings.Split(s, "\n")`
unfoldable pub split_lines : Text → List Text
split_lines [] = [] ∷ []
split_lines (c ∷ s) = let rest = split_lines s in if c == b'\n' then [] ∷ rest else put_line c rest
