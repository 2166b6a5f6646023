-- ===== src/Api/Checks/Tests.antt =====
-- The checks and the load of small files, and the theorems on them at concrete inputs.
use zctl.Base.{
  ℕ, true, false, text_mem, [], ◌∷◌, none, some, Text, codes, ◌≡◌, refl, arith, text_eq,
}
use zctl.Base.Int.{pos, negsuc}
use zctl.Api.Token.{ident}
use zctl.Api.Scanner.{Scanner, new_scanner, read_rune}
use zctl.Api.Parser.Stmts.{parse, new_parser}
use zctl.Api.Ast.{
  TokenNode, base_type, slice_type, struct_type, elem, no_elems, Stmt, TypeExpr, type_literal,
  type_group, import_group, syntax_stmt, info_stmt, import_literal, KvBlock,
}
use zctl.Api.Filter.{
  FilterBuilder, syntax, node_pos, check_node_with_prefix, add_check_item, position_eq,
}
use zctl.Api.Filter.Duplicates.{is_empty, is_unambiguous, check_node_with_prefix-is_unambiguous}
use zctl.Api.Checks.{Api, convert2_api, panicked, syntax_of, check_type_stmt, check_import_stmt}
use zctl.Api.Checks.Convert.{api_of, convert2_api-collected}
use zctl.Api.Checks.Types.{check_type_declare_context}
use zctl.Api.Checks.Declared.{used_names, unresolved, check_type_declare_context-unresolved}
use zctl.Api.Checks.Names.{type_names, import_paths}
use zctl.Api.Checks.Twice.{passes, check_type_stmt-passes}
use zctl.Api.Analyzer.{load_api}
use zctl.Api.Analyzer.Load.{LoadEnds, load_api_ends}

abbrev node : Text → ℕ → TokenNode
node t line = record {
  head = [];
  tok = record {
    type = ident;
    text = t;
    position = record { filename = codes "a.api"; line = line; column = pos 6 };
  };
  leading = [];
}

abbrev a_one : TokenNode
a_one = node (codes "A") 1

abbrev a_two : TokenNode
a_two = node (codes "A") 2

is_unambiguous_two : is_unambiguous (a_one ∷ a_two ∷ []) ≡ false
unfolding is_unambiguous text_eq position_eq
is_unambiguous_two = refl

check_node_with_prefix-is_unambiguous_example :
    (b : FilterBuilder) × (check_node_with_prefix
        (codes "group")
        (some a_one ∷ some a_two ∷ [])
        (add_check_item (codes "a.api") (codes "handler expression"))
      ≡ some b)
    × (is_empty b.errors ≡ is_unambiguous (a_one ∷ a_two ∷ []))
check_node_with_prefix-is_unambiguous_example =
    check_node_with_prefix-is_unambiguous (codes "group") (codes "a.api")
      (codes "handler expression") (a_one ∷ a_two ∷ [])

abbrev info : KvBlock
info = record { keyword = some (node (codes "info") 2); lparen = none; values = []; rparen = none }

-- `type A { B []C }`
abbrev expr_a : TokenNode → TypeExpr
expr_a n = record {
  name = some n;
  assign = none;
  data_type =
      struct_type none
        (elem (some (node (codes "B") 1) ∷ [])
          (slice_type none none (base_type (some (node (codes "C") 1)))) none no_elems)
        none;
}

abbrev type_a : TokenNode → Stmt
type_a n = type_literal none (expr_a n)

abbrev syntax_v1 : Stmt
syntax_v1 = syntax_stmt none none (some (node (codes "\"v1\"") 1))

abbrev import_b : Stmt
import_b = import_literal none (some (node (codes "\"b.api\"") 1))

convert2_api_two :
    api_of (convert2_api (codes "a.api") (info_stmt info ∷ info_stmt info ∷ [])) ≡ none
unfolding convert2_api
convert2_api_two = refl

convert2_api_empty : convert2_api (codes "a.api") [] ≡ panicked
unfolding convert2_api
convert2_api_empty = refl

abbrev api : Api
api = record {
  filename = codes "a.api";
  syntax = syntax_of syntax_v1;
  info = some info;
  import_stmt = import_b ∷ [];
  type_stmt = type_a a_one ∷ type_a a_two ∷ [];
  service_stmts = [];
}

convert2_api-collected_example :
    api_of (
      convert2_api
        (codes "a.api")
        (syntax_v1 ∷ info_stmt info ∷ import_b ∷ type_a a_one ∷ type_a a_two ∷ []))
    ≡ some api
convert2_api-collected_example =
    convert2_api-collected (codes "a.api") syntax_v1
      (info_stmt info ∷ import_b ∷ type_a a_one ∷ type_a a_two ∷ [])

-- `type ( A { B []C }, D int )` and again `type A { B []C }`, behind `import ( "b.api" )`
abbrev grouped : Api
grouped = record api {
  import_stmt = import_group none none (some (node (codes "\"b.api\"") 1) ∷ []) none ∷ [];
  type_stmt =
      type_group none none
        (expr_a a_one
          ∷ record {
            name = some (node (codes "D") 2);
            assign = none;
            data_type = base_type (some (node (codes "int") 2));
          }
          ∷ [])
        none
      ∷ type_a a_two
      ∷ [];
}

abbrev use_of_c : TokenNode
use_of_c = node (codes "C") 1

check_type_declare_context-unresolved_example :
    check_type_declare_context grouped
    ≡ some (
        syntax (node_pos use_of_c) (codes "unresolved type") (codes "C")
        ∷ syntax (node_pos use_of_c) (codes "unresolved type") (codes "C")
        ∷ [])
unfolding type_names used_names unresolved text_mem
check_type_declare_context-unresolved_example =
    check_type_declare_context-unresolved grouped (a_one ∷ node (codes "D") 2 ∷ a_two ∷ [])
      (use_of_c ∷ node (codes "int") 2 ∷ use_of_c ∷ []) refl refl

-- `A` stands twice, once in a group.
check_type_stmt-passes_example :
    (passes (check_type_stmt grouped) ≡ some false)
    × (passes (check_import_stmt grouped) ≡ some true)
unfolding type_names import_paths is_unambiguous position_eq text_eq
check_type_stmt-passes_example =
    check_type_stmt-passes grouped (a_one ∷ node (codes "D") 2 ∷ a_two ∷ [])
      (node (codes "\"b.api\"") 1 ∷ []) refl refl

abbrev fields_scanner : Scanner
fields_scanner = record {
  filename = codes "a.api";
  size = 2;
  source = codes "{}";
  position = 0;
  read_position = 1;
  ch = b'{';
  lines = negsuc 0 ∷ [];
}

fields_new : new_scanner (codes "a.api") (codes "{}") ≡ some fields_scanner
unfolding new_scanner read_rune
fields_new = refl

load_api_ends_example :
    LoadEnds
      (codes "/b/a.api")
      (parse 4 (new_parser fields_scanner))
      (load_api 4 (codes "a.api") (codes "/b/a.api") (codes "{}"))
load_api_ends_example =
    load_api_ends 4 (codes "a.api") (codes "/b/a.api") (codes "{}") fields_scanner fields_new
      (ground arith)
