-- ===== src/Rpc/Desc/Fields/Words.antt =====
-- Words in texts that are trimmed.
use zctl.Base.{ℕ, Bool, true, false, [], ◌∷◌, ◌++◌, Text, ◌≡◌, ap, ◌∙◌, arith, All}
use zctl.Base.Strings.{is_empty, trim_right, trim_space}
use zctl.Base.Strings.Trim.{starts, trim_right-append, trim_space-append}
use zctl.Rpc.Desc.Fields.{is_ident_rune}
use zctl.Rpc.Desc.Fields.Printed.{is_empty-append}

module _ (is_space : ℕ → Bool) where
  -- The text has an end that trimming keeps.
  abbrev pub Trims : Text → Text → Type 0
  Trims s t = (trim_right is_space s ≡ t) × (is_empty t ≡ false)

  pub Trims-append : (a s t : Text) → Trims s t → Trims (a ++ s) (a ++ t)
  Trims-append a s t h = (
    trim_right-append is_space a s (ap is_empty h.0 ∙ h.1) ∙ ap (◌++◌ a) h.0,
    is_empty-append a t h.1,
  )

  -- Trimming a part behind white space.
  pub trim_space-part :
      (a s t : Text)
      → All (λ c. is_space c ≡ true) a
      → starts is_space s ≡ false
      → Trims s t
      → trim_space is_space (a ++ s) ≡ t
  trim_space-part a s t h n k = trim_space-append is_space a s h n ∙ k.0

pub starts_ident :
    (w s : Text)
    → is_empty w ≡ false
    → All (λ c. is_ident_rune c ≡ true) w
    → starts is_ident_rune (w ++ s) ≡ true
starts_ident [] s e h = cc
starts_ident (c ∷ w) s e h = h.0

module _ (is_space : ℕ → Bool) (solid : (c : ℕ) → is_ident_rune c ≡ true → is_space c ≡ false) where
  -- Words and signs begin behind white space.
  pub starts-word :
      (w s : Text)
      → is_empty w ≡ false
      → All (λ c. is_ident_rune c ≡ true) w
      → starts is_space (w ++ s) ≡ false
  starts-word [] s e h = cc
  starts-word (c ∷ w) s e h = solid c h.0

  pub starts-spaces :
      (g s : Text)
      → All (λ c. is_space c ≡ true) g
      → starts is_ident_rune s ≡ false
      → starts is_ident_rune (g ++ s) ≡ false
  starts-spaces [] s h n = n
  starts-spaces (c ∷ g) s h n = ground (arith, solid c, h.0)
