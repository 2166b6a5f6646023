-- ===== src/Api/Token/Keywords.antt =====
-- The keyword table of pkg/parser/api/token/token.go against `Type.String` and `IsKeyword`.
use zctl.Base.{
  ◌≡◌, ◌↔◌, true, some, Text, text_eq, text_eq_iff, arith, inl, inr, Bool-cases, All, [], ◌∷◌,
  subst,
}
use zctl.Api.Token.{
  TokenType, token_bg, lookup_keyword, type_string, is_keyword, keywords, lookup, Table, of_type,
}

-- What an entry of the table has to satisfy.
abbrev Spelled : Text × TokenType → Type 0
Spelled (k, tp) = (is_keyword (of_type tp) ≡ true) × (type_string tp ≡ k)

keywords-Spelled : All Spelled keywords
unfolding type_string is_keyword
keywords-Spelled = ground arith

lookup-Spelled :
    (s : Text) (t : Table) (tp : TokenType) → All Spelled t → lookup s t ≡ some tp → Spelled (s, tp)
unfolding lookup
lookup-Spelled s [] tp a h = cc
lookup-Spelled s ((k, u) ∷ t) tp a h = elim (Bool-cases (text_eq s k)) [
  | inl same ↦ ground (arith, text_eq_iff s k)
  | inr differs ↦ lookup-Spelled s t tp a.1 (rw differs at h)
]

lookup_keyword-type_string :
    (tp : TokenType) → is_keyword (of_type tp) ≡ true → lookup_keyword (type_string tp) ≡ some tp
unfolding lookup_keyword is_keyword type_string
lookup_keyword-type_string token_bg h = ground arith
lookup_keyword-type_string _ h = ground arith

-- `LookupKeyword` finds a type exactly when `IsKeyword` holds of it (its iota lies strictly
-- between the two golang keyword marks) and the text is the one that `Type.String` gives it.
pub lookup_keyword_iff :
    (s : Text) (tp : TokenType)
    → (lookup_keyword s ≡ some tp) ↔ ((is_keyword (of_type tp) ≡ true) × (type_string tp ≡ s))
unfolding lookup_keyword
lookup_keyword_iff s tp = (
  (λ h. lookup-Spelled s keywords tp keywords-Spelled h),
  (λ h. subst (λ u. lookup_keyword u ≡ some tp) h.1 (lookup_keyword-type_string tp h.0)),
)
