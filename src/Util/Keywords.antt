-- ===== src/Util/Keywords.antt =====
-- util/string.go: the words that stand for Go's keywords.
use zctl.Base.{
  Bool, true, false, List, [], ◌∷◌, Option, none, some, Text, codes, text_eq, ◌≡◌, ◌⊎◌, inl, inr,
  refl, not, ◌&&◌, ap, ◌∙◌, subst, arith, Option-cases, Bool-cases, if◌then◌else◌,
}

unfoldable pub go_keyword : List (Text × Text)
go_keyword =
    (codes "var", codes "variable")
    ∷ (codes "const", codes "constant")
    ∷ (codes "package", codes "pkg")
    ∷ (codes "func", codes "function")
    ∷ (codes "return", codes "rtn")
    ∷ (codes "defer", codes "dfr")
    ∷ (codes "go", codes "goo")
    ∷ (codes "select", codes "slt")
    ∷ (codes "struct", codes "structure")
    ∷ (codes "interface", codes "itf")
    ∷ (codes "chan", codes "channel")
    ∷ (codes "type", codes "tp")
    ∷ (codes "map", codes "mp")
    ∷ (codes "range", codes "rg")
    ∷ (codes "break", codes "brk")
    ∷ (codes "case", codes "caz")
    ∷ (codes "continue", codes "ctn")
    ∷ (codes "for", codes "fr")
    ∷ (codes "fallthrough", codes "fth")
    ∷ (codes "else", codes "es")
    ∷ (codes "if", codes "ef")
    ∷ (codes "switch", codes "swt")
    ∷ (codes "goto", codes "gt")
    ∷ (codes "default", codes "dft")
    ∷ []

unfoldable pub lookup : Text → List (Text × Text) → Option Text
unfolding text_eq
lookup s [] = none
lookup s ((k, v) ∷ t) = if text_eq s k then some v else lookup s t

abbrev pub is_some : Option Text → Bool
is_some none = false
is_some (some v) = true

unfoldable pub is_golang_keyword : Text → Bool
unfolding lookup go_keyword
is_golang_keyword s = is_some (lookup s go_keyword)

-- `goKeyword[s]`, the empty text for a key that is not there.
abbrev or_empty : Option Text → Text
or_empty none = []
or_empty (some v) = v

unfoldable pub escape_golang_keyword : Text → Text
unfolding is_golang_keyword lookup go_keyword
escape_golang_keyword s = if is_golang_keyword s then or_empty (lookup s go_keyword) else s

-- No value of the table is a key.
unfoldable is_free : List (Text × Text) → Bool
unfolding is_golang_keyword
is_free [] = true
is_free ((k, v) ∷ t) = not (is_golang_keyword v) && is_free t

go_keyword_free : is_free go_keyword ≡ true
unfolding is_free is_golang_keyword go_keyword lookup text_eq
go_keyword_free = refl

lookup_free :
    (s v : Text) (t : List (Text × Text))
    → is_free t ≡ true
    → lookup s t ≡ some v
    → is_golang_keyword v ≡ false
unfolding lookup is_free
lookup_free s v [] a h = cc
lookup_free s v ((k, w) ∷ t) a h = elim (Bool-cases (text_eq s k)) [
  | inl e ↦
      let q : w ≡ v = ground (arith, e, h) in
      subst (λ x. is_golang_keyword x ≡ false) q (ground (arith, a))
  | inr e ↦ lookup_free s v t (ground (arith, a)) (ground (arith, e, h))
]

escape_none :
    (s : Text)
    → lookup s go_keyword ≡ none
    → (is_golang_keyword s ≡ false) × (escape_golang_keyword s ≡ s)
unfolding escape_golang_keyword is_golang_keyword
escape_none s h = (ap is_some h, rw h refl)

escape_some :
    (s v : Text)
    → lookup s go_keyword ≡ some v
    → (is_golang_keyword s ≡ true) × (escape_golang_keyword s ≡ v)
unfolding escape_golang_keyword is_golang_keyword
escape_some s v h = (ap is_some h, rw h refl)

-- The result of `EscapeGolangKeyword` is none of the keywords of its table, and it is the argument
-- where that is none of them.
pub escape_golang_keyword_free :
    (s : Text)
    → (is_golang_keyword (escape_golang_keyword s) ≡ false)
      × ((is_golang_keyword s ≡ true) ⊎ (escape_golang_keyword s ≡ s))
escape_golang_keyword_free s = elim (Option-cases (lookup s go_keyword)) [
  | inl e ↦ let p = escape_none s e in (ap is_golang_keyword p.1 ∙ p.0, inr p.1)
  | inr (v, e) ↦
      let p = escape_some s v e in
      (ap is_golang_keyword p.1 ∙ lookup_free s v go_keyword go_keyword_free e, inl p.0)
]
