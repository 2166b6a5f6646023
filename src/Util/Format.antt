-- ===== src/Util/Format.antt =====
-- util/format/format.go: file names by a format such as `go_zero`. The source indexes the bytes of
-- the format; the model indexes its runes, which are the bytes of an ASCII format.
pub mod Parts
pub mod Spellings
pub mod Styles
pub mod Assembled
use zctl.Base.{
  ℕ, ◌+◌, ◌-◌, Bool, true, false, ◌&&◌, List, [], ◌∷◌, ◌++◌, map, Option, none, some, ltb,
  if◌then◌else◌, Text, codes, text_eq, has_prefix, take, drop, zero,
}
use zctl.Util.Casing.{Casing, to_lower, to_upper}
use zctl.Util.Words.{join}
use zctl.Util.Name.{split_ident, file_snake}

-- The styles but `unknown`, which comes with an error alone.
pub data Style : Type 0 where
  title lower upper : Style

pub record StyleFormat : Type 0 where
  pub before : Text
  pub through : Text
  pub after : Text
  pub go_style : Style
  pub zero_style : Style

abbrev pub shift : ℕ → Option ℕ → Option ℕ
shift n none = none
shift n (some i) = some (n + i)

-- `strings.Index(s, sep)`; `none` stands for -1.
unfoldable pub index_of : Text → Text → Option ℕ
index_of [] sep = elim (has_prefix [] sep) [ true ↦ some zero | false ↦ none ]
index_of (c ∷ s) sep = elim (has_prefix (c ∷ s) sep) [
  | true ↦ some zero
  | false ↦ shift 1 (index_of s sep)
]

-- `title_of` is `strings.Title`.
module _ (u : Casing) (title_of : Text → Text) where
  unfoldable pub get_style : Text → Option Style
  get_style flag =
      let compare = to_lower u flag in
      if text_eq flag (to_lower u compare)
      then some lower
      else if text_eq flag (to_upper u compare)
      then some upper
      else if text_eq flag (title_of compare)
      then some title
      else none

  unfoldable pub transfer_to : Text → Style → Text
  transfer_to s upper = to_upper u s
  transfer_to s lower = to_lower u s
  transfer_to s title = title_of s

  -- The loop of `doFormat`.
  unfoldable pub transfer_all : StyleFormat → List Text → List Text
  unfolding transfer_to
  transfer_all f [] = []
  transfer_all f (t ∷ ts) = transfer_to t f.go_style ∷ map (λ s. transfer_to s f.zero_style) ts

  unfoldable pub do_format : StyleFormat → Text → Text
  unfolding transfer_all
  do_format f content =
      f.before ++ (join (transfer_all f (split_ident content)) f.through ++ f.after)

  abbrev pub both_lower : Style → Style → Bool
  both_lower lower lower = true
  both_lower g z = false

  -- `FileNamingFormat` behind the styles.
  unfoldable pub apply_format : StyleFormat → Text → Text
  unfolding do_format
  apply_format f content =
      if both_lower f.go_style f.zero_style
        && text_eq f.through (codes "_")
        && text_eq f.before []
        && text_eq f.after []
      then file_snake u content
      else do_format f content

  -- `FileNamingFormat` behind the cutting of the format.
  unfoldable pub format_parts : Text → Text → Text → Text → Text → Text → Option Text
  unfolding get_style apply_format
  format_parts before go through zero_flag after content = elim (get_style go) [
    | none ↦ none
    | some g ↦ elim (get_style zero_flag) [
      | none ↦ none
      | some z ↦ some (
          apply_format
            (record {
              before = before;
              through = through;
              after = after;
              go_style = g;
              zero_style = z;
            })
            content)
    ]
  ]

  -- The cutting of the format at the places of `GO` and `ZERO`.
  unfoldable pub format_at : Option ℕ → Option ℕ → Text → Text → Option Text
  unfolding format_parts
  format_at none z format content = none
  format_at (some g) none format content = none
  format_at (some g) (some z) format content =
      if ltb z g
      then none
      else format_parts (take g format) (take 2 (drop g format))
          (take (z - (g + 2)) (drop (g + 2) format)) (take 4 (drop z format)) (drop (z + 4) format)
          content

  -- `none` stands for an error.
  unfoldable pub file_naming_format : Text → Text → Option Text
  unfolding format_at index_of
  file_naming_format format content =
      let upper_format = to_upper u format in
      format_at (index_of upper_format (codes "GO")) (index_of upper_format (codes "ZERO")) format
        content
