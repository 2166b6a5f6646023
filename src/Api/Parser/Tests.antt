-- ===== src/Api/Parser/Tests.antt =====
-- Runs of the parser on small sources, and its theorems at concrete inputs.
use zctl.Base.{
  ℕ, ◌⊎◌, ◌≤◌, ◌<◌, suc, false, arith, [], ◌∷◌, none, some, Text, codes, ◌≡◌, refl, text_eq, length,
}
use zctl.Base.Int.{pos, negsuc, ◌-ℤ◌}
use zctl.Api.Token.{Token, TokenType, ident, ordinal, type_string, is_one_of, lookup_keyword}
use zctl.Api.Scanner.{ScanError}
use zctl.Api.Scanner.Invariant.{IsValid}
use zctl.Api.Scanner.Runs.{new_scanner-IsValid}
use zctl.Api.Parser.Progress.{left, rank}
use zctl.Api.Parser.Safety.{HasNode, advance_safe}
use zctl.Api.Parser.Total.Ends.{EndsIn, parse_ends, parse_stmt_ends}
use zctl.Api.Parser.{Parser, Parsed, parsed, nil, crashed, no_fuel, scan_failed}
use zctl.Api.Parser.Stmts.{new_parser}
use zctl.Api.Scanner.{
  read_rune, peek_rune, line_count, new_position, position_at, token_from, new_token, illegal_token,
  assert_expected, mark_line, read_while, skip_loop, skip_white_space, Scanner, new_scanner,
}
use zctl.Api.Scanner.Literals.{
  scan_line_comment, string_loop, scan_string, document_loop, scan_document, finish_ident,
  scan_ident, at_word, scan_letter_set, at_letters, scan_at,
}
use zctl.Api.Scanner.Durations.{
  read_digits, scan_nanosecond, micro_rest, scan_microsecond, milli_rest, scan_millisecond,
  milli_only, second_rest, scan_second, minute_rest, scan_minute, scan_millisecond_or_minute,
  hour_rest, scan_hour, scan_duration, is_unit, int_rest, scan_int_or_duration,
}
use zctl.Api.Scanner.Next.{scan_slash, scan_dot, scan_other, scan_closing, scan_switch, next_token}
use zctl.Api.Parser.{
  ◌>>=◌, pure, starve, crash, fail, branch, gets, ignore, type_eq, token_eq, get_node, set_leading,
  matches, cur_token_is, peek_token_is, peek_token_is_not, cur_token_is_not_eof, comment_loop,
  with_leading, take_peek, read_peek, next_from, advance, peek_error, expect_peek_token,
  not_expect_peek_token, advance_if_peek_token_is, cur_token_node, deref_cur_token_node,
  refuse_keyword,
}
use zctl.Api.Parser.Types.{
  parse_any_data_type, parse_interface_data_type, elem_names, embedded, elem_tag,
  parse_pointer_data_type, parse_map_data_type, parse_array_data_type, parse_slice_data_type,
  elem_type, parse_elem_expr, parse_elem_expr_list, parse_struct_data_type, parse_bracketed,
  parse_named, data_type_switch, parse_data_type, optional_assign, parse_type_expr, type_exprs,
  parse_type_expr_list, parse_type_literal_stmt, parse_type_group_stmt, parse_type_stmt,
}
use zctl.Api.Parser.Values.{
  parse_kv_expression, path_part, path_loop, joined_loop, single_value, slash_value, name_value,
  at_server_value, parse_at_server_kv_expression, kv_loop, kv_block, parse_info_stmt,
  parse_at_server_stmt, parse_at_doc_group_stmt, parse_at_doc_literal_stmt, parse_at_doc_stmt,
}
use zctl.Api.Parser.Routes.{
  parse_body_expr, parse_body_stmt, path_item_loop, parse_path_item,
  not_expect_peek_token_got_comment, path_colon, path_tokens, path_expr, parse_path_expr,
  route_request, route_response, optional_semicolon, parse_route_stmt,
}
use zctl.Api.Parser.Services.{
  parse_at_handler_stmt, item_doc, parse_service_item_stmt, parse_service_items_stmt, name_suffix,
  parse_service_name_expr, service_at_server, parse_service,
}
use zctl.Api.Parser.Stmts.{
  parse_syntax_stmt, parse_import_literal_stmt, import_values, parse_import_group_stmt,
  parse_import_stmt, parse_service_stmt, parse_ident_stmt, parse_stmt, append_stmt, stmt_loop,
  parse,
}

-- How the parse of a source ends: with the number of its statements, with that of its errors, or
-- in a panic.
data Outcome : Type 0 where
  tree : ℕ → Outcome
  errors : ℕ → Outcome
  panic : Outcome
  unfinished : Outcome

abbrev outcome_of : {A : Type 0} → Parsed A → Outcome
outcome_of (parsed a q) = tree (length q.stmts)
outcome_of (nil q) = errors (length q.errors)
outcome_of crashed = panic
outcome_of no_fuel = unfinished

run : Text → Outcome
unfolding ◌>>=◌ pure starve crash fail branch gets ignore type_eq token_eq get_node set_leading
    matches cur_token_is peek_token_is peek_token_is_not cur_token_is_not_eof comment_loop
    with_leading take_peek read_peek next_from advance peek_error expect_peek_token
    not_expect_peek_token advance_if_peek_token_is cur_token_node deref_cur_token_node
    refuse_keyword parse_any_data_type parse_interface_data_type elem_names embedded elem_tag
    parse_pointer_data_type parse_map_data_type parse_array_data_type parse_slice_data_type
    elem_type parse_elem_expr parse_elem_expr_list parse_struct_data_type parse_bracketed
    parse_named data_type_switch parse_data_type optional_assign parse_type_expr type_exprs
    parse_type_expr_list parse_type_literal_stmt parse_type_group_stmt parse_type_stmt
    parse_kv_expression path_part path_loop joined_loop single_value slash_value name_value
    at_server_value parse_at_server_kv_expression kv_loop kv_block parse_info_stmt
    parse_at_server_stmt parse_at_doc_group_stmt parse_at_doc_literal_stmt parse_at_doc_stmt
    parse_body_expr parse_body_stmt path_item_loop parse_path_item not_expect_peek_token_got_comment
    path_colon path_tokens path_expr parse_path_expr route_request route_response optional_semicolon
    parse_route_stmt parse_at_handler_stmt item_doc parse_service_item_stmt parse_service_items_stmt
    name_suffix parse_service_name_expr service_at_server parse_service parse_syntax_stmt
    parse_import_literal_stmt import_values parse_import_group_stmt parse_import_stmt
    parse_service_stmt parse_ident_stmt parse_stmt append_stmt stmt_loop parse read_rune peek_rune
    line_count new_position position_at token_from new_token illegal_token assert_expected mark_line
    read_while skip_loop skip_white_space scan_line_comment string_loop scan_string document_loop
    scan_document finish_ident scan_ident at_word scan_letter_set at_letters scan_at read_digits
    scan_nanosecond micro_rest scan_microsecond milli_rest scan_millisecond milli_only second_rest
    scan_second minute_rest scan_minute scan_millisecond_or_minute hour_rest scan_hour scan_duration
    is_unit int_rest scan_int_or_duration scan_slash scan_dot scan_other scan_closing scan_switch
    next_token text_eq type_string ◌-ℤ◌ ordinal new_scanner is_one_of lookup_keyword
run t = elim (new_scanner (codes "a.api") t) [
  | none ↦ unfinished
  | some s ↦ outcome_of (parse (suc (suc (length t))) (new_parser s))
]

run_syntax : run (codes "syntax = \"v1\"\ntype A {\n B []*C // d\n}") ≡ tree 2
unfolding run
run_syntax = refl

run_service : run (codes "service a-api {\n@handler b\nget /c/:d (E) returns (F)\n}") ≡ tree 1
unfolding run
run_service = refl

run_crash : run (codes "service a {\n@handler b\nget (C)\n}") ≡ panic
unfolding run
run_crash = refl

-- An item may have neither a handler's name nor a route.
run_bare_handler : run (codes "service a {\n@handler\n}") ≡ tree 1
unfolding run new_scanner is_one_of
run_bare_handler = refl

-- A file of white space is a tree without statements.
run_blank : run (codes "\n ") ≡ tree 0
unfolding run new_scanner
run_blank = refl

run_error : run (codes "service a {\n@handler b\nget /c/ d\n") ≡ errors 1
unfolding run
run_error = refl

-- A parser behind `type A`, with `{}` left.
abbrev fields : Text
fields = codes "{}"

abbrev fields_scanner : Scanner
fields_scanner = record {
  filename = codes "a.api";
  size = 2;
  source = fields;
  position = 0;
  read_position = 1;
  ch = b'{';
  lines = negsuc 0 ∷ [];
}

fields_new : new_scanner (codes "a.api") fields ≡ some fields_scanner
unfolding new_scanner read_rune
fields_new = refl

abbrev name_token : Text → Token
name_token t = record {
  type = ident;
  text = t;
  position = record { filename = codes "a.api"; line = 1; column = pos 1 };
}

abbrev behind_name : Parser
behind_name = record (new_parser fields_scanner) {
  cur_tok = name_token (codes "type");
  peek_tok = name_token (codes "A");
}

fields_IsValid : IsValid fields_scanner
fields_IsValid = new_scanner-IsValid (codes "a.api") fields fields_scanner fields_new

parse_ends_example :
    EndsIn
      (parse 4 (new_parser fields_scanner))
      (λ q. cur_token_is_not_eof q ≡ false)
      (λ q. 0 < length q.errors)
parse_ends_example = parse_ends 4 (codes "a.api") fields fields_scanner fields_new (ground arith)

left-behind_name : left behind_name ≤ 3
unfolding rank type_eq ordinal
left-behind_name = ground arith

parse_stmt_ends_example :
    EndsIn
      (parse_stmt 3 behind_name)
      (λ q. IsValid q.scanner × (left q < left behind_name))
      (λ q. length behind_name.errors < length q.errors)
parse_stmt_ends_example = parse_stmt_ends 3 behind_name fields_IsValid left-behind_name

behind_name_reads : outcome_of (parse_stmt 3 behind_name) ≡ tree 0
unfolding run is_one_of lookup_keyword
behind_name_reads = refl

advance_safe_example :
    ((q : Parser) × (advance behind_name ≡ parsed tt q)
      × (q.cur_tok ≡ name_token (codes "A"))
      × HasNode q
      × (q.errors ≡ []))
    ⊎ ((e : ScanError) × (q : Parser) × (advance behind_name ≡ nil q)
        × (q.errors ≡ scan_failed e ∷ []))
advance_safe_example = advance_safe behind_name fields_IsValid

-- Behind `get`, with `(` next.
abbrev at_body : Parser
at_body = record (new_parser fields_scanner) {
  cur_tok = name_token (codes "get");
  peek_tok = record (name_token (codes "(")) { type = TokenType.lparen };
}

-- A route without a path.
parse_path_expr_empty : parse_path_expr 3 at_body ≡ crashed
unfolding parse_path_expr path_tokens path_expr branch ◌>>=◌ pure crash peek_token_is
    peek_token_is_not matches type_eq ordinal cur_token_is_not_eof
parse_path_expr_empty = refl
