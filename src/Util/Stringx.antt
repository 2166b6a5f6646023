-- ===== src/Util/Stringx.antt =====
-- util/stringx/string.go.
use zctl.Base.{
  ℕ, Bool, true, false, ◌&&◌, ◌||◌, List, [], ◌∷◌, ◌++◌, map, if◌then◌else◌, ◌==◌, Text, is_upper,
  is_lower,
}
use zctl.Util.Casing.{Casing, to_lower}
use zctl.Util.Words.{join}

-- `WhiteSpace`; 12 and 11 are the form feed and the vertical tab.
abbrev pub white_space : List ℕ
white_space = b'\n' ∷ b'\t' ∷ 12 ∷ 11 ∷ b' ' ∷ []

unfoldable pub rune_mem : ℕ → List ℕ → Bool
rune_mem c [] = false
rune_mem c (r ∷ rs) = c == r || rune_mem c rs

-- The loop of `ContainsAny` behind its test for no runes.
unfoldable pub contains_rune : Text → List ℕ → Bool
unfolding rune_mem
contains_rune [] rs = false
contains_rune (c ∷ s) rs = rune_mem c rs || contains_rune s rs

unfoldable pub contains_any : Text → List ℕ → Bool
unfolding contains_rune
contains_any s [] = true
contains_any s (r ∷ rs) = contains_rune s (r ∷ rs)

unfoldable pub contains_white_space : Text → Bool
unfolding contains_any
contains_white_space s = contains_any s white_space

-- `IsWhiteSpace`, with `unicode.IsSpace` for the test.
unfoldable pub is_white_space : (ℕ → Bool) → Text → Bool
is_white_space space [] = true
is_white_space space (c ∷ s) = space c && is_white_space space s

-- `String.IsEmptyOrSpace`: `strings.TrimSpace` leaves nothing of a text exactly when all of it is
-- space.
unfoldable pub is_empty_or_space : (ℕ → Bool) → Text → Bool
unfolding is_white_space
is_empty_or_space space s = is_white_space space s

-- What `ToSnake` and `splitBy` do with a buffer that holds something.
unfoldable pub flush : Text → List Text → List Text
flush [] parts = parts
flush (c ∷ buffer) parts = parts ++ (c ∷ buffer) ∷ []

abbrev head_is_lower : Text → Bool
head_is_lower [] = false
head_is_lower (c ∷ s) = is_lower c

-- Whether `ToSnake` cuts before the rune `r`, which stands between `prev` and `rest`.
unfoldable pub snake_cut : ℕ → ℕ → Text → Bool
snake_cut prev r rest =
    is_upper r
    && (if is_lower prev || prev == b'_' then true else is_upper prev && head_is_lower rest)

module _ (u : Casing) where
  -- The loop of `ToSnake` from its second rune on.
  unfoldable pub snake_loop : ℕ → List Text → Text → Text → List Text
  unfolding snake_cut flush
  snake_loop prev parts buffer [] = flush (to_lower u buffer) parts
  snake_loop prev parts buffer (r ∷ rest) =
      let cut = snake_cut prev r rest in
      snake_loop r (if cut then flush (to_lower u buffer) parts else parts)
        ((if cut then [] else buffer) ++ r ∷ []) rest

  unfoldable pub snake_parts : Text → List Text
  unfolding snake_loop
  snake_parts [] = []
  snake_parts (r ∷ rest) = snake_loop r [] (r ∷ []) rest

  unfoldable pub to_snake : (ℕ → Bool) → Text → Text
  unfolding snake_parts is_empty_or_space join
  to_snake space s = if is_empty_or_space space s then s else join (snake_parts s) (b'_' ∷ [])

-- The loop of `splitBy`.
unfoldable pub split_loop : (ℕ → Bool) → Bool → List Text → Text → Text → List Text
unfolding flush
split_loop fn remove list buffer [] = flush buffer list
split_loop fn remove list buffer (r ∷ rest) =
    let hit = fn r in
    split_loop fn remove (if hit then flush buffer list else list)
      (if hit then (if remove then [] else r ∷ []) else buffer ++ r ∷ []) rest

unfoldable pub split_by : (ℕ → Bool) → (ℕ → Bool) → Bool → Text → List Text
unfolding split_loop is_empty_or_space
split_by space fn remove s = if is_empty_or_space space s then [] else split_loop fn remove [] [] s

-- `ToCamel`; `title` is `String.Title`.
unfoldable pub to_camel : (ℕ → Bool) → (Text → Text) → Text → Text
unfolding split_by join
to_camel space title s = join (map title (split_by space (λ r. r == b'_') true s)) []
