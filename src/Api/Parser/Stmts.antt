-- ===== src/Api/Parser/Stmts.antt =====
-- pkg/parser/api/parser/parser.go: the statements of a file, and `Parse`.
use zctl.Base.Int.{pos}
use zctl.Base.{ℕ, zero, suc, Bool, List, [], ◌∷◌, ◌++◌, Text, codes}
use zctl.Api.Token.{
  Token, token_bg, ident, string, assign, lparen, rparen, at_server, type_kw, type_string,
  is_one_of,
}
use zctl.Api.Scanner.{Scanner}
use zctl.Api.Ast.{NodeRef, Stmt, syntax_stmt, info_stmt, import_literal, import_group, service_stmt}
use zctl.Api.Parser.{
  Parser, Parse, parsed, ParseError, syntax_error, unexpected_token, is_type, is_text, ◌>>=◌, ◌>>◌,
  pure, starve, fail, branch, cur_token_is, peek_token_is, cur_token_is_not_eof, advance,
  not_expect_peek_token, advance_if_peek_token_is, cur_token_node,
}
use zctl.Api.Parser.Types.{before, parse_type_stmt}
use zctl.Api.Parser.Values.{parse_info_stmt}
use zctl.Api.Parser.Services.{service_text, parse_service}

unfoldable pub parse_syntax_stmt : Parse Stmt
parse_syntax_stmt = do
  k ← cur_token_node
  advance_if_peek_token_is (is_type assign ∷ [])
  a ← cur_token_node
  advance_if_peek_token_is (is_type string ∷ [])
  v ← cur_token_node
  pure (syntax_stmt k a v)

unfoldable pub parse_import_literal_stmt : Parse Stmt
parse_import_literal_stmt = do
  k ← cur_token_node
  advance_if_peek_token_is (is_type string ∷ [])
  v ← cur_token_node
  pure (import_literal k v)

-- The loop of `parseImportGroupStmt`.
unfoldable pub import_values : ℕ → Parse (List NodeRef)
import_values zero = starve
import_values (suc f) =
    branch (before (is_type rparen ∷ []))
      (do
        advance_if_peek_token_is (is_type string ∷ [])
        v ← cur_token_node
        not_expect_peek_token (is_type rparen ∷ is_type string ∷ [])
        vs ← import_values f
        pure (v ∷ vs))
      (pure [])

unfoldable pub parse_import_group_stmt : ℕ → Parse Stmt
unfolding import_values
parse_import_group_stmt f = do
  k ← cur_token_node
  advance_if_peek_token_is (is_type lparen ∷ [])
  l ← cur_token_node
  vs ← import_values f
  advance_if_peek_token_is (is_type rparen ∷ [])
  r ← cur_token_node
  pure (import_group k l vs r)

unfoldable pub parse_import_stmt : ℕ → Parse Stmt
unfolding parse_import_group_stmt parse_import_literal_stmt
parse_import_stmt f = do
  not_expect_peek_token (is_type lparen ∷ is_type string ∷ [])
  branch (peek_token_is (is_type lparen ∷ [])) (parse_import_group_stmt f) parse_import_literal_stmt

-- `p.curTok.Is(text)`
abbrev cur_tok_is : Text → Parser → Bool
cur_tok_is t p = is_one_of p.cur_tok (t ∷ [])

abbrev statement_error : Parser → ParseError
statement_error p =
    syntax_error p.cur_tok.position []
      (is_text (codes "syntax") ∷ is_text (codes "info") ∷ service_text ∷ is_type type_kw ∷ [])
      (type_string p.cur_tok.type)

-- The error of the `default` branch names the token behind the current one.
abbrev default_error : Parser → ParseError
default_error p = unexpected_token p.cur_tok.position p.peek_tok.text

unfoldable pub parse_service_stmt : ℕ → Parse Stmt
parse_service_stmt f = do s ← parse_service f; pure (service_stmt s)

-- `case token.IDENT` of `parseStmt`
unfoldable pub parse_ident_stmt : ℕ → Parse Stmt
unfolding parse_syntax_stmt parse_service_stmt parse_import_stmt
parse_ident_stmt f = branch (cur_tok_is (codes "syntax")) parse_syntax_stmt (
    branch (cur_tok_is (codes "info")) (do b ← parse_info_stmt f; pure (info_stmt b))
      (branch (cur_tok_is (codes "service")) (parse_service_stmt f) (
        branch (cur_tok_is (codes "type")) (parse_type_stmt f)
          (branch (cur_tok_is (codes "import")) (parse_import_stmt f) (fail statement_error)))))

unfoldable pub parse_stmt : ℕ → Parse Stmt
unfolding parse_ident_stmt
parse_stmt f =
    branch (cur_token_is (is_type ident ∷ [])) (parse_ident_stmt f)
      (branch (cur_token_is (is_type at_server ∷ [])) (parse_service_stmt f) (fail default_error))

-- `p.appendStmt(stmt)`
unfoldable pub append_stmt : Stmt → Parse (Unit {0})
append_stmt s p = parsed tt (record p { stmts = p.stmts ++ s ∷ [] })

-- The loop of `Parse`.
unfoldable pub stmt_loop : ℕ → Parse (Unit {0})
unfolding parse_stmt append_stmt
stmt_loop zero = starve
stmt_loop (suc f) =
    branch cur_token_is_not_eof (do s ← parse_stmt f; append_stmt s; advance; stmt_loop f) (pure tt)

-- `Parse`, whose statements are those of the state that it ends in.
unfoldable pub parse : ℕ → Parse (Unit {0})
unfolding stmt_loop
parse f = do advance; advance; stmt_loop f

-- The zero value of `Token`.
abbrev zero_token : Token
zero_token = record {
  type = token_bg;
  text = [];
  position = record { filename = []; line = 0; column = pos 0 };
}

-- `New` behind `scanner.MustNewScanner`.
abbrev pub new_parser : Scanner → Parser
new_parser s = record {
  scanner = s;
  errors = [];
  cur_tok = zero_token;
  peek_tok = zero_token;
  head_comment_group = [];
  stmts = [];
  node = [];
}
