-- ===== src/Api/Checks.antt =====
-- pkg/parser/api/parser/api.go: what a file declares, and the checks of it.
pub mod Types
pub mod Convert
pub mod Names
pub mod Declared
pub mod Twice
pub mod Tests
use zctl.Base.{Bool, true, false, List, [], ◌∷◌, ◌++◌, Option, none, some, Text, codes}
use zctl.Base.Int.{pos}
use zctl.Api.Token.{TokenType, ident, assign, string}
use zctl.Api.Ast.{
  NodeRef, TypeExpr, KvExpr, KvBlock, ServiceStmt, Stmt, comment_stmt, syntax_stmt, info_stmt,
  import_literal, import_group, type_literal, type_group, service_stmt,
}
use zctl.Api.Filter.{CheckError, duplicate, syntax, FilterBuilder, check, add_check_item, node_pos}

pub record SyntaxStmt : Type 0 where
  pub syntax : NodeRef
  pub assign : NodeRef
  pub value : NodeRef

-- Statements of an interface type are a list of `Stmt`.
pub record Api : Type 0 where
  pub filename : Text
  pub syntax : SyntaxStmt
  pub info : Option KvBlock
  pub import_stmt : List Stmt
  pub type_stmt : List Stmt
  pub service_stmts : List ServiceStmt

-- What `convert2API` ends in.
pub data Converted : Type 0 where
  converted : Api → Converted
  refused : CheckError → Converted
  panicked : Converted

abbrev made : TokenType → Text → NodeRef
made tp text = some (record {
  head = [];
  tok = record {
    type = tp;
    text = text;
    position = record { filename = []; line = 0; column = pos 0 };
  };
  leading = [];
})

-- `syntax = "v1"`, where the first statement is no syntax statement.
abbrev pub syntax_of : Stmt → SyntaxStmt
syntax_of (syntax_stmt k a v) = record { syntax = k; assign = a; value = v }
syntax_of s = record {
  syntax = made ident (codes "syntax");
  assign = made assign (codes "=");
  value = made string (codes "\"v1\"");
}

-- The error at the statement that begins with a node.
abbrev pub duplicate_at : NodeRef → Text → Converted
duplicate_at none what = panicked
duplicate_at (some n) what = refused (duplicate (node_pos n) what)

-- The loop of `convert2API`.
unfoldable pub convert_loop : List Stmt → (has_syntax has_info : Bool) → Api → Converted
convert_loop [] hs hi a = converted a
convert_loop (syntax_stmt k e v ∷ ss) true hi a =
    duplicate_at k (codes "duplicate syntax statement")
convert_loop (syntax_stmt k e v ∷ ss) false hi a = convert_loop ss true hi a
convert_loop (info_stmt b ∷ ss) hs hi a = elim a.info [
  | none ↦ convert_loop ss hs true (record a { info = some b })
  | some c ↦ elim hi [
    | true ↦ duplicate_at b.keyword (codes "duplicate info statement")
    | false ↦ convert_loop ss hs false (record a { info = some b })
  ]
]
convert_loop (import_literal k v ∷ ss) hs hi a =
    convert_loop ss hs hi (record a { import_stmt = a.import_stmt ++ import_literal k v ∷ [] })
convert_loop (import_group k l vs r ∷ ss) hs hi a =
    convert_loop ss hs hi (record a { import_stmt = a.import_stmt ++ import_group k l vs r ∷ [] })
convert_loop (type_literal k e ∷ ss) hs hi a =
    convert_loop ss hs hi (record a { type_stmt = a.type_stmt ++ type_literal k e ∷ [] })
convert_loop (type_group k l es r ∷ ss) hs hi a =
    convert_loop ss hs hi (record a { type_stmt = a.type_stmt ++ type_group k l es r ∷ [] })
convert_loop (service_stmt s ∷ ss) hs hi a =
    convert_loop ss hs hi (record a { service_stmts = a.service_stmts ++ s ∷ [] })
convert_loop (comment_stmt c ∷ ss) hs hi a = convert_loop ss hs hi a

abbrev pub new_api : Text → Stmt → Api
new_api filename s = record {
  filename = filename;
  syntax = syntax_of s;
  info = none;
  import_stmt = [];
  type_stmt = [];
  service_stmts = [];
}

-- `a.Stmts[0]` of no statements is a panic.
unfoldable pub convert2_api : Text → List Stmt → Converted
unfolding convert_loop
convert2_api filename [] = panicked
convert2_api filename (s ∷ ss) = convert_loop (s ∷ ss) false false (new_api filename s)

abbrev pub errors_of : Option FilterBuilder → Option (List CheckError)
errors_of none = none
errors_of (some b) = some b.errors

-- The nodes that the loop of `checkImportStmt` hands to `check`.
abbrev pub imported_values : List Stmt → List NodeRef
imported_values [] = []
imported_values (import_literal k v ∷ ss) = v ∷ imported_values ss
imported_values (import_group k l vs r ∷ ss) = vs ++ imported_values ss
imported_values (s ∷ ss) = imported_values ss

unfoldable pub check_import_stmt : Api → Option (List CheckError)
check_import_stmt a = errors_of (
    check (imported_values a.import_stmt)
      (add_check_item a.filename (codes "import value expression")))

abbrev pub info_keys : List KvExpr → List NodeRef
info_keys [] = []
info_keys (v ∷ vs) = v.key ∷ info_keys vs

unfoldable pub check_info_stmt : Api → Option (List CheckError)
check_info_stmt a = elim a.info [
  | none ↦ some []
  | some b ↦
      errors_of
        (check (info_keys b.values) (add_check_item a.filename (codes "info key expression")))
]

-- The expressions that the loops over `api.TypeStmt` visit.
abbrev pub exprs_of : List Stmt → List TypeExpr
exprs_of [] = []
exprs_of (type_literal k e ∷ ss) = e ∷ exprs_of ss
exprs_of (type_group k l es r ∷ ss) = es ++ exprs_of ss
exprs_of (s ∷ ss) = exprs_of ss

abbrev pub names_of : List TypeExpr → List NodeRef
names_of [] = []
names_of (e ∷ es) = e.name ∷ names_of es

unfoldable pub check_type_stmt : Api → Option (List CheckError)
check_type_stmt a =
    errors_of (
      check (names_of (exprs_of a.type_stmt)) (add_check_item a.filename (codes "type expression")))
