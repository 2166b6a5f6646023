-- ===== src/Util/Format/Styles.antt =====
-- The format `go_zero` gives by its own way what the other way would give.
use zctl.Base.{
  Bool, true, ◌&&◌, List, [], ◌∷◌, ◌++◌, Text, codes, text_eq, text_eq_iff, append-nil, ◌≡◌, ◌≢◌,
  refl, sym, arith, Bool-cases, inl, inr,
}
use zctl.Util.Casing.{Casing}
use zctl.Util.Words.{join}
use zctl.Util.Name.{split_ident, file_snake, file_snake_of}
use zctl.Util.Format.{
  Style, title, lower, upper, StyleFormat, transfer_to, transfer_all, do_format, both_lower,
  apply_format,
}

module _ (u : Casing) (title_of : Text → Text) where
  abbrev pub format_of : Text → Text → Text → Style → Style → StyleFormat
  format_of before through after gs zs = record {
    before = before;
    through = through;
    after = after;
    go_style = gs;
    zero_style = zs;
  }

  -- The format `go_zero`.
  abbrev snake_format : StyleFormat
  snake_format = format_of [] (codes "_") [] lower lower

  file_snake_of-join :
      (content : Text) (ts : List Text)
      → ts ≢ []
      → file_snake_of u content ts
        ≡ join (transfer_all u title_of snake_format ts) (codes "_") ++ []
  unfolding file_snake_of transfer_all transfer_to
  file_snake_of-join content [] h = absurd (h refl)
  file_snake_of-join content (t ∷ ts) h = sym (append-nil _)

  file_snake-do_format :
      (content : Text)
      → split_ident content ≢ []
      → file_snake u content ≡ do_format u title_of snake_format content
  unfolding file_snake do_format
  file_snake-do_format content h = file_snake_of-join content (split_ident content) h

  both_lower_lem :
      (gs zs : Style) → both_lower u title_of gs zs ≡ true → (gs ≡ lower) × (zs ≡ lower)
  both_lower_lem lower lower h = (refl, refl)
  both_lower_lem lower upper h = cc
  both_lower_lem lower title h = cc
  both_lower_lem upper zs h = cc
  both_lower_lem title zs h = cc

  is_snake_format : Text → Text → Text → Style → Style → Bool
  is_snake_format before through after gs zs =
      both_lower u title_of gs zs
      && text_eq through (codes "_")
      && text_eq before []
      && text_eq after []

  pub apply_format-do_format :
      (before through after : Text) (gs zs : Style) (content : Text)
      → split_ident content ≢ []
      → apply_format u title_of (format_of before through after gs zs) content
        ≡ do_format u title_of (format_of before through after gs zs) content
  unfolding apply_format is_snake_format
  apply_format-do_format before through after gs zs content h =
      let test = is_snake_format before through after gs zs in
      elim (Bool-cases test) [
        | inl e ↦
            let p = both_lower_lem gs zs (ground (arith, e)) in
            let t : through ≡ codes "_" = (text_eq_iff through (codes "_")).0 (ground (arith, e)) in
            let b : before ≡ [] = (text_eq_iff before []).0 (ground (arith, e)) in
            let a : after ≡ [] = (text_eq_iff after []).0 (ground (arith, e)) in
            rw e (cc (file_snake-do_format content h, p.0, p.1, t, b, a))
        | inr e ↦ rw e refl
      ]
