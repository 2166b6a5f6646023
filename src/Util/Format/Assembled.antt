-- ===== src/Util/Format/Assembled.antt =====
-- What `FileNamingFormat` does with a format that is put together from its parts.
use zctl.Base.{ℕ, List, map, refl, [], ◌∷◌, ◌++◌, some, Text, codes, ◌≡◌, ◌≢◌, ap, ◌∙◌}
use zctl.Util.Casing.{Casing, to_upper}
use zctl.Util.Words.{join}
use zctl.Util.Name.{split_ident}
use zctl.Util.Format.{
  Style, title, lower, upper, get_style, transfer_to, transfer_all, do_format, format_parts,
  file_naming_format,
}
use zctl.Util.Format.Parts.{
  IsNeutral, map-append, spelled, index_of-go, index_of-zero, assembled, format_at-cut,
}
use zctl.Util.Format.Spellings.{
  go_in, zero_in, to_upper-go_in, to_upper-zero_in, get_style-go_in, get_style-zero_in,
}
use zctl.Util.Format.Styles.{format_of, apply_format-do_format}

module _ (u : Casing) (title_of : Text → Text) where
  to_upper-assembled :
      (before through after : Text) (g o z e r q : ℕ)
      → to_upper u (g ∷ o ∷ []) ≡ codes "GO"
      → to_upper u (z ∷ e ∷ r ∷ q ∷ []) ≡ codes "ZERO"
      → to_upper u (assembled before (g, o) through (z, e, r, q) after)
        ≡ spelled u before through after
  to_upper-assembled before through after g o z e r q h k = cc (
    map-append u.upper before (g ∷ o ∷ (through ++ (z ∷ e ∷ r ∷ q ∷ after))),
    map-append u.upper through (z ∷ e ∷ r ∷ q ∷ after),
    h,
    k,
  )

  format_parts-do_format :
      (before go through flag after : Text) (gs zs : Style) (content : Text)
      → get_style u title_of go ≡ some gs
      → get_style u title_of flag ≡ some zs
      → split_ident content ≢ []
      → format_parts u title_of before go through flag after content
        ≡ some (do_format u title_of (format_of u title_of before through after gs zs) content)
  unfolding format_parts
  format_parts-do_format before go through flag after gs zs content h k n =
      rw (h, k, format_parts)
        (ap some (apply_format-do_format u title_of before through after gs zs content n))

  cut-do_format :
      (before through after : Text) (g o z e r q : ℕ) (gs zs : Style) (content : Text)
      → IsNeutral before
      → IsNeutral through
      → to_upper u (g ∷ o ∷ []) ≡ codes "GO"
      → to_upper u (z ∷ e ∷ r ∷ q ∷ []) ≡ codes "ZERO"
      → get_style u title_of (g ∷ o ∷ []) ≡ some gs
      → get_style u title_of (z ∷ e ∷ r ∷ q ∷ []) ≡ some zs
      → split_ident content ≢ []
      → file_naming_format u title_of (assembled before (g, o) through (z, e, r, q) after) content
        ≡ some (do_format u title_of (format_of u title_of before through after gs zs) content)
  unfolding file_naming_format
  cut-do_format before through after g o z e r q gs zs content a b h k gh zh n =
      rw
        (
          to_upper-assembled before through after g o z e r q h k,
          index_of-go u before through after a,
          index_of-zero u before through after a b,
        )
        (format_at-cut u title_of before through after g o z e r q content
          ∙ format_parts-do_format before (g ∷ o ∷ []) through (z ∷ e ∷ r ∷ q ∷ []) after gs zs
              content gh zh n)

  -- A word in a style.
  unfoldable pub styled : Style → Text → Text
  styled lower w = map u.lower w
  styled upper w = map u.upper w
  styled title w = title_of w

  transfer_to-styled : (s : Text) (st : Style) → transfer_to u title_of s st ≡ styled st s
  unfolding transfer_to styled
  transfer_to-styled s lower = refl
  transfer_to-styled s upper = refl
  transfer_to-styled s title = refl

  transfer_each :
      (st : Style) (ws : List Text) → map (λ s. transfer_to u title_of s st) ws ≡ map (styled st) ws
  transfer_each st [] = refl
  transfer_each st (w ∷ ws) = rw (transfer_to-styled w st, transfer_each st ws) refl

  do_format-styled :
      (before through after : Text) (gs zs : Style) (content w : Text) (ws : List Text)
      → split_ident content ≡ w ∷ ws
      → do_format u title_of (format_of u title_of before through after gs zs) content
        ≡ before ++ (join (styled gs w ∷ map (styled zs) ws) through ++ after)
  unfolding do_format transfer_all
  do_format-styled before through after gs zs content w ws h =
      rw (h, transfer_all, transfer_to-styled w gs, transfer_each zs ws) refl

  -- For a format made of `go` and `zero`, each spelled in a style, where the runes before `go` and
  -- between the two are ASCII and none of the letters g and z, for a content whose words are `w` and
  -- then `ws`, and where `strings.Title` turns go and zero into Go and Zero: `FileNamingFormat` puts
  -- what stands before `go`; the words, `w` in the style of `go` and the others in the style of
  -- `zero`, joined by what stands between the two; and what stands behind `zero`.
  pub file_naming_format-assembled :
      (before through after : Text) (gs zs : Style) (content w : Text) (ws : List Text)
      → IsNeutral before
      → IsNeutral through
      → split_ident content ≡ w ∷ ws
      → title_of (codes "go") ≡ codes "Go"
      → title_of (codes "zero") ≡ codes "Zero"
      → file_naming_format u title_of
          (assembled before (go_in gs) through (zero_in zs) after)
          content
        ≡ some (before ++ (join (styled gs w ∷ map (styled zs) ws) through ++ after))
  file_naming_format-assembled before through after gs zs content w ws a b h tg tz =
      let n : split_ident content ≢ [] = λ e. cc in
      cut-do_format before through after _ _ _ _ _ _ gs zs content a b (to_upper-go_in u gs)
        (to_upper-zero_in u zs) (get_style-go_in u title_of gs tg)
        (get_style-zero_in u title_of zs tz) n
      ∙ ap some (do_format-styled before through after gs zs content w ws h)
