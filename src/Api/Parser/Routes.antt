-- ===== src/Api/Parser/Routes.antt =====
-- pkg/parser/api/parser/parser.go: routes, their paths and bodies.
use zctl.Base.{ℕ, zero, suc, List, [], ◌∷◌, ◌++◌, Option, none, some, Text, codes, map}
use zctl.Api.Token.{
  Token, ident, path, colon, quo, int, sub, dot, rparen, lparen, lbrack, rbrack, rbrace, mul,
  semicolon, eof, at_doc, at_handler, type_string,
}
use zctl.Api.Ast.{NodeRef, BodyExpr, BodyStmt, RouteStmt}
use zctl.Api.Parser.{
  Parser, Parse, ParseError, syntax_error, Expected, is_type, is_text, ◌>>=◌, ◌>>◌, pure, starve,
  crash, fail, branch, ignore, peek_token_is, advance, peek_error, not_expect_peek_token,
  advance_if_peek_token_is, cur_token_node, deref_cur_token_node,
}
use zctl.Api.Parser.Types.{before}
use zctl.Api.Parser.Values.{cur_tok, made_node}

-- token.Returns
abbrev pub returns_text : Expected
returns_text = is_text (codes "returns")

-- token.HttpMethods
abbrev pub http_methods : List Expected
http_methods =
    map (λ s. is_text (codes s))
      ("get" ∷ "head" ∷ "post" ∷ "put" ∷ "patch" ∷ "delete" ∷ "connect" ∷ "options" ∷ "trace" ∷ [])

-- What may stand behind a path.
abbrev pub path_ends : List Expected
path_ends =
    is_type lparen
    ∷ returns_text
    ∷ is_type at_doc
    ∷ is_type at_handler
    ∷ is_type semicolon
    ∷ is_type rbrace
    ∷ []

unfoldable pub parse_body_expr : Parse BodyExpr
parse_body_expr =
    branch (peek_token_is (is_type lbrack ∷ []))
      (do
        advance
        l ← cur_token_node
        advance_if_peek_token_is (is_type rbrack ∷ [])
        r ← cur_token_node
        branch (peek_token_is (is_type mul ∷ []))
            (do
              advance
              s ← cur_token_node
              advance_if_peek_token_is (is_type ident ∷ [])
              v ← cur_token_node
              pure (record { lbrack = l; rbrack = r; star = s; value = v }))
            (branch (peek_token_is (is_type ident ∷ []))
              (do
                advance
                v ← cur_token_node
                pure (record { lbrack = l; rbrack = r; star = none; value = v }))
              (fail (peek_error (is_type mul ∷ is_type ident ∷ [])))))
      (branch (peek_token_is (is_type mul ∷ []))
        (do
          advance
          s ← cur_token_node
          advance_if_peek_token_is (is_type ident ∷ [])
          v ← cur_token_node
          pure (record { lbrack = none; rbrack = none; star = s; value = v }))
        (branch (peek_token_is (is_type ident ∷ []))
          (do
            advance
            v ← cur_token_node
            pure (record { lbrack = none; rbrack = none; star = none; value = v }))
          (fail (peek_error (is_type lbrack ∷ is_type mul ∷ is_type ident ∷ [])))))

unfoldable pub parse_body_stmt : Parse BodyStmt
unfolding parse_body_expr
parse_body_stmt = do
  advance_if_peek_token_is (is_type lparen ∷ [])
  l ← cur_token_node
  branch (peek_token_is (is_type rparen ∷ []))
      (do advance; r ← cur_token_node; pure (record { lparen = l; body = none; rparen = r }))
      (do
        b ← parse_body_expr
        advance_if_peek_token_is (is_type rparen ∷ [])
        r ← cur_token_node
        pure (record { lparen = l; body = some b; rparen = r }))

-- The loop of `parsePathItem`. Its `else` tests once more for the ends of a path.
unfoldable pub path_item_loop : ℕ → Parse (List Token)
path_item_loop zero = starve
path_item_loop (suc f) =
    branch
      (before (
        is_type quo
        ∷ is_type lparen
        ∷ returns_text
        ∷ is_type at_doc
        ∷ is_type at_handler
        ∷ is_type rbrace
        ∷ is_type semicolon
        ∷ is_type eof
        ∷ []))
      (branch (peek_token_is (is_type sub ∷ is_type dot ∷ []))
        (do
          advance
          s ← cur_tok
          advance_if_peek_token_is (is_type ident ∷ [])
          t ← cur_tok
          ts ← path_item_loop f
          pure (s ∷ t ∷ ts))
        (branch (peek_token_is path_ends) (pure []) (do
          advance_if_peek_token_is (is_type ident ∷ [])
          t ← cur_tok
          ts ← path_item_loop f
          pure (t ∷ ts))))
      (pure [])

unfoldable pub parse_path_item : ℕ → Parse (List Token)
unfolding path_item_loop
parse_path_item f = do
  advance_if_peek_token_is (is_type ident ∷ is_type int ∷ [])
  t ← cur_tok
  ts ← path_item_loop f
  pure (t ∷ ts)

-- `notExpectPeekTokenGotComment` on the leading comments of the current token.
abbrev comment_error : List Expected → Token → Parser → ParseError
comment_error es c p = syntax_error p.peek_tok.position [] es (type_string c.type)

abbrev pub refuse_comment : List Expected → List Token → Parse (Unit {0})
refuse_comment es [] = pure tt
refuse_comment es (c ∷ cs) = fail (comment_error es c)

unfoldable pub not_expect_peek_token_got_comment : List Expected → Parse (Unit {0})
not_expect_peek_token_got_comment es = do n ← deref_cur_token_node; refuse_comment es n.leading

-- `if p.peekTokenIs(token.COLON) { … }` of `parsePathExpr`
unfoldable pub path_colon : Parse (List Token)
path_colon =
    branch (peek_token_is (is_type colon ∷ [])) (do advance; t ← cur_tok; pure (t ∷ [])) (pure [])

-- The loop of `parsePathExpr`: the tokens of the path.
unfoldable pub path_tokens : ℕ → Parse (List Token)
unfolding parse_path_item not_expect_peek_token_got_comment path_colon
path_tokens zero = starve
path_tokens (suc f) =
    branch (before path_ends)
      (do
        advance_if_peek_token_is (is_type quo ∷ [])
        slash ← cur_tok
        branch (peek_token_is path_ends) (pure (slash ∷ [])) (do
          not_expect_peek_token_got_comment (is_type colon ∷ is_type ident ∷ is_type int ∷ [])
          not_expect_peek_token (is_type colon ∷ is_type ident ∷ is_type int ∷ [])
          not_expect_peek_token_got_comment (is_type colon ∷ [])
          cs ← path_colon
          ts ← parse_path_item f
          not_expect_peek_token (is_type quo ∷ path_ends)
          more ← path_tokens f
          pure (slash ∷ (cs ++ (ts ++ more)))))
      (pure [])

abbrev pub joined_texts : List Token → Text
joined_texts [] = []
joined_texts (t ∷ ts) = t.text ++ joined_texts ts

-- The end of `parsePathExpr`, where `values[0]` of no values is a panic.
unfoldable pub path_expr : List Token → Parse NodeRef
path_expr [] = crash
path_expr (t ∷ ts) = do
  n ← deref_cur_token_node
  pure (
      made_node (record { type = path; text = joined_texts (t ∷ ts); position = t.position })
        n.leading)

unfoldable pub parse_path_expr : ℕ → Parse NodeRef
unfolding path_tokens path_expr
parse_path_expr f = do ts ← path_tokens f; path_expr ts

-- `if p.peekTokenIs(token.LPAREN) { … }` of `parseRouteStmt`
unfoldable pub route_request : Parse (Option BodyStmt)
unfolding parse_body_stmt
route_request =
    branch (peek_token_is (is_type lparen ∷ [])) (do b ← parse_body_stmt; pure (some b)) (pure none)

unfoldable pub route_response : Parse (NodeRef × Option BodyStmt)
unfolding parse_body_stmt
route_response =
    branch (peek_token_is (returns_text ∷ []))
      (do advance; r ← cur_token_node; b ← parse_body_stmt; pure (r, some b)) (pure (none, none))

-- `if p.peekTokenIs(token.SEMICOLON) { p.nextToken() }`
unfoldable pub optional_semicolon : Parse (Unit {0})
optional_semicolon =
    branch (peek_token_is (is_type semicolon ∷ [])) (ignore advance >> pure tt) (pure tt)

abbrev bare_route : NodeRef → NodeRef → RouteStmt
bare_route m e = record { method = m; path = e; request = none; returns = none; response = none }

unfoldable pub parse_route_stmt : ℕ → Parse RouteStmt
unfolding parse_path_expr route_request route_response optional_semicolon
parse_route_stmt f = do
  advance_if_peek_token_is http_methods
  m ← cur_token_node
  e ← parse_path_expr f
  branch (peek_token_is (is_type at_doc ∷ is_type at_handler ∷ is_type rbrace ∷ []))
      (pure (bare_route m e))
      (branch (peek_token_is (is_type semicolon ∷ [])) (do ignore advance; pure (bare_route m e))
        (do
          not_expect_peek_token (returns_text ∷ is_type lparen ∷ [])
          request ← route_request
          not_expect_peek_token (
              returns_text
              ∷ is_type at_doc
              ∷ is_type at_handler
              ∷ is_type rbrace
              ∷ is_type semicolon
              ∷ [])
          (r, response) ← route_response
          optional_semicolon
          pure (record {
            method = m;
            path = e;
            request = request;
            returns = r;
            response = response;
          })))
