-- ===== src/Api/Checks/Declared.antt =====
-- The check of declared types, against the names that the types of a file declare and are made of.
use zctl.Base.{
  List, [], ◌∷◌, ◌++◌, Option, none, some, Text, ◌≡◌, refl, sym, ap, ◌∙◌, append_assoc, append-nil,
  codes, map, text_mem, ◌||◌, if◌then◌else◌, Bool-cases, inl, inr, arith,
}
use zctl.Api.Ast.{
  NodeRef, DataType, any_type, array_type, base_type, interface_type, map_type, pointer_type,
  slice_type, struct_type, ElemExprs, no_elems, elem, TypeExpr, TokenNode, Stmt, type_literal,
  type_group,
}
use zctl.Api.Filter.{CheckError, syntax, node_pos}
use zctl.Api.Checks.{Api, exprs_of}
use zctl.Api.Checks.Types.{
  both, check_base, is_base_name, check_type_expr_context, check_elements, check_exprs,
  check_type_context, check_type_declare_context,
}
use zctl.Api.Checks.Names.{type_names, declared_names-exprs_of}

-- The nodes of the names that a data type is made of, from left to right.
unfoldable mutual
  pub uses : DataType → List NodeRef
  uses (array_type l n r t) = uses t
  uses (base_type b) = b ∷ []
  uses (map_type m l k r v) = uses k ++ uses v
  uses (pointer_type s t) = uses t
  uses (slice_type l r t) = uses t
  uses (struct_type l es r) = elements_uses es
  uses (any_type n) = []
  uses (interface_type n) = []

  pub elements_uses : ElemExprs → List NodeRef
  elements_uses no_elems = []
  elements_uses (elem ns t tag es) = uses t ++ elements_uses es

abbrev pub exprs_uses : List TypeExpr → List NodeRef
exprs_uses [] = []
exprs_uses (e ∷ es) = uses e.data_type ++ exprs_uses es

-- The results of `check_base` at a list of nodes, put together.
unfoldable check_nodes : List Text → List NodeRef → Option (List CheckError)
check_nodes declared [] = some []
check_nodes declared (n ∷ ns) = both (check_base declared n) (check_nodes declared ns)

both_nil : (r : Option (List CheckError)) → both (some []) r ≡ r
both_nil none = refl
both_nil (some es) = refl

both_assoc : (q r s : Option (List CheckError)) → both (both q r) s ≡ both q (both r s)
both_assoc none r s = refl
both_assoc (some es) none s = refl
both_assoc (some es) (some fs) none = refl
both_assoc (some es) (some fs) (some gs) = ap some (append_assoc es fs gs)

both-nil : (r : Option (List CheckError)) → both r (some []) ≡ r
both-nil none = refl
both-nil (some es) = ap some (append-nil es)

check_nodes-append :
    (declared : List Text) (ns ms : List NodeRef)
    → check_nodes declared (ns ++ ms) ≡ both (check_nodes declared ns) (check_nodes declared ms)
unfolding check_nodes
check_nodes-append declared [] ms = sym (both_nil (check_nodes declared ms))
check_nodes-append declared (n ∷ ns) ms =
    ap (both (check_base declared n)) (check_nodes-append declared ns ms)
    ∙ sym (both_assoc (check_base declared n) (check_nodes declared ns) (check_nodes declared ms))

mutual
  unfolding check_type_expr_context check_elements uses elements_uses check_nodes

  check-uses :
      (declared : List Text) (t : DataType)
      → check_type_expr_context declared t ≡ check_nodes declared (uses t)
  check-uses declared (array_type l n r t) = check-uses declared t
  check-uses declared (base_type b) = sym (both-nil (check_base declared b))
  check-uses declared (map_type m l k r v) =
      rw
        (
          check_nodes-append declared (uses k) (uses v),
          sym (check-uses declared k),
          sym (check-uses declared v),
        )
        refl
  check-uses declared (pointer_type s t) = check-uses declared t
  check-uses declared (slice_type l r t) = check-uses declared t
  check-uses declared (struct_type l es r) = check_elements-uses declared es
  check-uses declared (any_type n) = refl
  check-uses declared (interface_type n) = refl

  check_elements-uses :
      (declared : List Text) (es : ElemExprs)
      → check_elements declared es ≡ check_nodes declared (elements_uses es)
  check_elements-uses declared no_elems = refl
  check_elements-uses declared (elem ns t tag es) =
      rw
        (
          check_nodes-append declared (uses t) (elements_uses es),
          sym (check-uses declared t),
          sym (check_elements-uses declared es),
        )
        refl

check_exprs-uses :
    (declared : List Text) (es : List TypeExpr)
    → check_exprs declared es ≡ check_nodes declared (exprs_uses es)
unfolding check_exprs check_nodes
check_exprs-uses declared [] = refl
check_exprs-uses declared (e ∷ es) =
    rw
      (
        check_nodes-append declared (uses e.data_type) (exprs_uses es),
        sym (check-uses declared e.data_type),
        sym (check_exprs-uses declared es),
      )
      refl

-- The nodes of the names that the types of the statements are made of: those of the type literals
-- and of the members of type groups.
unfoldable pub used_names : List Stmt → List NodeRef
unfolding uses
used_names [] = []
used_names (type_literal k e ∷ ss) = uses e.data_type ++ used_names ss
used_names (type_group k l es r ∷ ss) = exprs_uses es ++ used_names ss
used_names (s ∷ ss) = used_names ss

exprs_uses-append : (es fs : List TypeExpr) → exprs_uses (es ++ fs) ≡ exprs_uses es ++ exprs_uses fs
exprs_uses-append [] fs = refl
exprs_uses-append (e ∷ es) fs =
    ap (◌++◌ (uses e.data_type)) (exprs_uses-append es fs)
    ∙ sym (append_assoc (uses e.data_type) (exprs_uses es) (exprs_uses fs))

exprs_uses-exprs_of : (ss : List Stmt) → exprs_uses (exprs_of ss) ≡ used_names ss
unfolding used_names
exprs_uses-exprs_of [] = refl
exprs_uses-exprs_of (type_literal k e ∷ ss) = ap (◌++◌ (uses e.data_type)) (exprs_uses-exprs_of ss)
exprs_uses-exprs_of (type_group k l es r ∷ ss) =
    exprs_uses-append es (exprs_of ss) ∙ ap (◌++◌ (exprs_uses es)) (exprs_uses-exprs_of ss)
exprs_uses-exprs_of (s ∷ ss) = exprs_uses-exprs_of ss

-- The names of types that every file has.
abbrev pub base_types : List Text
base_types = map codes (
    "bool" ∷ "int" ∷ "int8" ∷ "int16" ∷ "int32" ∷ "int64" ∷ "uint" ∷ "uint8" ∷ "uint16" ∷ "uint32"
    ∷ "uint64" ∷ "uintptr" ∷ "float32" ∷ "float64" ∷ "complex64" ∷ "complex128" ∷ "string" ∷ "byte"
    ∷ "rune" ∷ "any" ∷ [])

-- One error at each node whose name is neither that of a base type nor declared.
unfoldable pub unresolved : List Text → List TokenNode → List CheckError
unresolved declared [] = []
unresolved declared (n ∷ ns) =
    let rest = unresolved declared ns in
    if text_mem n.tok.text (base_types ++ declared)
    then rest
    else syntax (node_pos n) (codes "unresolved type") n.tok.text ∷ rest

text_mem-append :
    (t : Text) (xs ys : List Text) → text_mem t (xs ++ ys) ≡ (text_mem t xs || text_mem t ys)
unfolding text_mem
text_mem-append t [] ys = refl
text_mem-append t (x ∷ xs) ys = ground (arith, text_mem-append t xs ys)

check_base-unresolved :
    (declared : List Text) (n : TokenNode) (es : List CheckError)
    → both (check_base declared (some n)) (some es)
      ≡ some (
          if text_mem n.tok.text (base_types ++ declared)
          then es
          else syntax (node_pos n) (codes "unresolved type") n.tok.text ∷ es)
unfolding check_base is_base_name
check_base-unresolved declared n es =
    rw (text_mem-append n.tok.text base_types declared)
      (elim (Bool-cases (text_mem n.tok.text base_types || text_mem n.tok.text declared)) [
        | inl e ↦ rw (e, check_base, if◌then◌else◌) refl
        | inr e ↦ rw (e, check_base, if◌then◌else◌) refl
      ])

check_nodes-unresolved :
    (declared : List Text) (ns : List TokenNode)
    → check_nodes declared (map some ns) ≡ some (unresolved declared ns)
unfolding check_nodes unresolved
check_nodes-unresolved declared [] = refl
check_nodes-unresolved declared (n ∷ ns) =
    ap (both (check_base declared (some n))) (check_nodes-unresolved declared ns)
    ∙ check_base-unresolved declared n (unresolved declared ns)

-- Where no name of a type is nil, declared or used, `checkTypeDeclareContext` reports, from left to
-- right, each name that a type of the file is made of, in a literal or in a group, and that neither
-- is the name of a base type nor is declared by a literal or a group, and nothing else.
pub check_type_declare_context-unresolved :
    (a : Api) (declared used : List TokenNode)
    → type_names a.type_stmt ≡ map some declared
    → used_names a.type_stmt ≡ map some used
    → check_type_declare_context a ≡ some (unresolved (map (λ n. n.tok.text) declared) used)
unfolding check_type_declare_context check_type_context
check_type_declare_context-unresolved a declared used h k =
    rw (declared_names-exprs_of a.type_stmt declared h, check_type_declare_context)
      (check_exprs-uses (map (λ n. n.tok.text) declared) (exprs_of a.type_stmt)
        ∙ ap (check_nodes (map (λ n. n.tok.text) declared)) (exprs_uses-exprs_of a.type_stmt ∙ k)
        ∙ check_nodes-unresolved (map (λ n. n.tok.text) declared) used)
