-- ===== src/Api/Values.antt =====
-- The values of `key: value` pairs: `RawText` of pkg/parser/api/ast/ast.go, and `convertKV` and
-- `convertAtDoc` of pkg/parser/api/parser/analyzer.go.
pub mod Quoted
pub mod Last
pub mod Tests
use zctl.Base.{
  ℕ, Bool, false, List, [], ◌∷◌, Option, none, some, Text, ◌==◌, text_eq, if◌then◌else◌,
}
use zctl.Api.Ast.{KvExpr, AtDoc, at_doc_literal, at_doc_group}

-- `strings.TrimPrefix` and `strings.TrimSuffix` on a text of one rune.
abbrev pub trim_prefix : ℕ → Text → Text
trim_prefix c [] = []
trim_prefix c (x ∷ xs) = if x == c then xs else x ∷ xs

abbrev pub trim_suffix : ℕ → Text → Text
trim_suffix c [] = []
trim_suffix c (x ∷ []) = if x == c then [] else x ∷ []
trim_suffix c (x ∷ y ∷ ys) = x ∷ trim_suffix c (y ∷ ys)

abbrev pub starts_with : ℕ → Text → Bool
starts_with c [] = false
starts_with c (x ∷ xs) = x == c

-- `RawText` on the text of the token.
unfoldable pub raw_text : Text → Text
raw_text text =
    if starts_with b'`' text
    then trim_suffix b'`' (trim_prefix b'`' text)
    else if starts_with b'"' text
    then trim_suffix b'"' (trim_prefix b'"' text)
    else text

-- `m[key]` of a map whose latest entry comes first.
unfoldable pub property : Text → List (Text × Text) → Option Text
unfolding text_eq
property key [] = none
property key ((k, v) ∷ m) = if text_eq key k then some v else property key m

-- The key of a pair and the raw text of its value; `none` is a panic at a nil node.
abbrev pub pair_of : KvExpr → Option (Text × Text)
pair_of e = elim e.key [
  | none ↦ none
  | some k ↦ elim e.value [
    | none ↦ none
    | some v ↦ some (trim_suffix b':' k.tok.text, raw_text v.tok.text)
  ]
]

-- The loop of `convertKV`, on the map so far.
unfoldable pub kv_pairs : List KvExpr → List (Text × Text) → Option (List (Text × Text))
unfolding raw_text
kv_pairs [] m = some m
kv_pairs (e ∷ es) m = elim (pair_of e) [ none ↦ none | some p ↦ kv_pairs es (p ∷ m) ]

unfoldable pub convert_kv : List KvExpr → Option (List (Text × Text))
unfolding kv_pairs
convert_kv es = kv_pairs es []

-- The text and the properties of `spec.AtDoc`.
pub record SpecDoc : Type 0 where
  pub text : Text
  pub properties : List (Text × Text)

unfoldable pub convert_at_doc : AtDoc → Option SpecDoc
unfolding convert_kv
convert_at_doc (at_doc_literal k none) = none
convert_at_doc (at_doc_literal k (some v)) = some (record { text = v.tok.text; properties = [] })
convert_at_doc (at_doc_group b) = elim (convert_kv b.values) [
  | none ↦ none
  | some m ↦ some (record { text = []; properties = m })
]
