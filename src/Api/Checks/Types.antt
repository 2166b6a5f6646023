-- ===== src/Api/Checks/Types.antt =====
-- pkg/parser/api/parser/api.go: whether the types that are used are declared; and IsBaseType of
-- analyzer.go. `none` is a panic at a nil node.
use zctl.Base.{
  Bool, true, false, List, [], ◌∷◌, ◌++◌, map, Option, none, some, Text, codes, text_mem, ◌||◌,
}
use zctl.Api.Ast.{
  NodeRef, DataType, any_type, array_type, base_type, interface_type, map_type, pointer_type,
  slice_type, struct_type, ElemExprs, no_elems, elem, TypeExpr,
}
use zctl.Api.Filter.{CheckError, syntax, node_pos}
use zctl.Api.Checks.{Api, exprs_of}

abbrev pub kind : List Text
kind = map codes (
    "bool" ∷ "int" ∷ "int8" ∷ "int16" ∷ "int32" ∷ "int64" ∷ "uint" ∷ "uint8" ∷ "uint16" ∷ "uint32"
    ∷ "uint64" ∷ "uintptr" ∷ "float32" ∷ "float64" ∷ "complex64" ∷ "complex128" ∷ "string" ∷ "byte"
    ∷ "rune" ∷ "any" ∷ [])

unfoldable pub is_base_name : Text → Bool
unfolding text_mem
is_base_name text = text_mem text kind

-- `manager.add` of two results.
abbrev pub both : Option (List CheckError) → Option (List CheckError) → Option (List CheckError)
both none r = none
both (some es) none = none
both (some es) (some fs) = some (es ++ fs)

-- `case *ast.BaseDataType`
unfoldable pub check_base : List Text → NodeRef → Option (List CheckError)
unfolding is_base_name
check_base declared none = none
check_base declared (some n) = elim (is_base_name n.tok.text || text_mem n.tok.text declared) [
  | true ↦ some []
  | false ↦ some (syntax (node_pos n) (codes "unresolved type") n.tok.text ∷ [])
]

unfoldable mutual
  pub check_type_expr_context : List Text → DataType → Option (List CheckError)
  check_type_expr_context declared (array_type l n r t) = check_type_expr_context declared t
  check_type_expr_context declared (base_type b) = check_base declared b
  check_type_expr_context declared (map_type m l k r v) =
      both (check_type_expr_context declared k) (check_type_expr_context declared v)
  check_type_expr_context declared (pointer_type s t) = check_type_expr_context declared t
  check_type_expr_context declared (slice_type l r t) = check_type_expr_context declared t
  check_type_expr_context declared (struct_type l es r) = check_elements declared es
  check_type_expr_context declared (any_type n) = some []
  check_type_expr_context declared (interface_type n) = some []

  pub check_elements : List Text → ElemExprs → Option (List CheckError)
  check_elements declared no_elems = some []
  check_elements declared (elem ns t tag es) =
      both (check_type_expr_context declared t) (check_elements declared es)

-- `checkTypeContext`, on the expressions of the statements.
unfoldable pub check_exprs : List Text → List TypeExpr → Option (List CheckError)
unfolding check_type_expr_context
check_exprs declared [] = some []
check_exprs declared (e ∷ es) =
    both (check_type_expr_context declared e.data_type) (check_exprs declared es)

-- The keys of `typeMap`.
abbrev pub declared_names : List TypeExpr → Option (List Text)
declared_names [] = some []
declared_names (e ∷ es) = elim e.name [
  | none ↦ none
  | some n ↦ elim (declared_names es) [ none ↦ none | some ts ↦ some (n.tok.text ∷ ts) ]
]

unfoldable pub check_type_context : List Text → Api → Option (List CheckError)
unfolding check_exprs
check_type_context declared a = check_exprs declared (exprs_of a.type_stmt)

unfoldable pub check_type_declare_context : Api → Option (List CheckError)
unfolding check_type_context
check_type_declare_context a = elim (declared_names (exprs_of a.type_stmt)) [
  | none ↦ none
  | some ts ↦ check_type_context ts a
]
