-- ===== src/Api/Checks/Twice.antt =====
-- The checks for declarations that stand twice, on trees without nil nodes.
use zctl.Base.{Bool, List, Option, none, some, map, Text, codes, ◌≡◌, ap, ◌∙◌}
use zctl.Api.Ast.{TokenNode}
use zctl.Api.Filter.{CheckError, check, add_check_item}
use zctl.Api.Filter.Duplicates.{is_empty, is_unambiguous, check_node_with_prefix-is_unambiguous}
use zctl.Api.Checks.{Api, errors_of, check_import_stmt, check_type_stmt}
use zctl.Api.Checks.Names.{
  type_names, import_paths, names_of-exprs_of, imported_values-import_paths,
}

-- Whether a check finds no error; none for a panic.
abbrev pub passes : Option (List CheckError) → Option Bool
passes none = none
passes (some es) = some (is_empty es)

passes-check :
    (filename name : Text) (ns : List TokenNode)
    → passes (errors_of (check (map some ns) (add_check_item filename name)))
      ≡ some (is_unambiguous ns)
unfolding check
passes-check filename name ns =
    let (b, e, u) = check_node_with_prefix-is_unambiguous filename filename name ns in
    ap (λ r. passes (errors_of r)) e ∙ ap some u

-- Where no name of a type and no import value is nil, `checkTypeStmt` finds no error exactly when no
-- name of a type stands at two positions, be it declared by a literal or in a group, and
-- `checkImportStmt` exactly when no value of an import literal or group does.
pub check_type_stmt-passes :
    (a : Api) (types imports : List TokenNode)
    → type_names a.type_stmt ≡ map some types
    → import_paths a.import_stmt ≡ map some imports
    → (passes (check_type_stmt a) ≡ some (is_unambiguous types))
      × (passes (check_import_stmt a) ≡ some (is_unambiguous imports))
unfolding check_type_stmt check_import_stmt
check_type_stmt-passes a types imports h k = (
  ap (λ ns. passes (errors_of (check ns (add_check_item a.filename (codes "type expression")))))
        (names_of-exprs_of a.type_stmt ∙ h)
      ∙ passes-check a.filename _ types,
  ap
        (λ ns.
          passes
            (errors_of (check ns (add_check_item a.filename (codes "import value expression")))))
        (imported_values-import_paths a.import_stmt ∙ k)
      ∙ passes-check a.filename _ imports,
)
