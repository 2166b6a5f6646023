-- ===== src/Api/Parser/Services.antt =====
-- pkg/parser/api/parser/parser.go: services and their items.
use zctl.Base.{ℕ, zero, suc, List, [], ◌∷◌, ◌++◌, Option, none, some, Text, codes}
use zctl.Api.Token.{ident, sub, lbrace, rbrace, at_doc, at_handler, at_server}
use zctl.Api.Ast.{NodeRef, KvBlock, AtDoc, AtHandler, ServiceItem, ServiceStmt}
use zctl.Api.Parser.{
  Parse, Expected, is_type, is_text, ◌>>=◌, ◌>>◌, pure, starve, branch, cur_token_is, peek_token_is,
  advance, expect_peek_token, not_expect_peek_token, advance_if_peek_token_is, cur_token_node,
  deref_cur_token_node,
}
use zctl.Api.Parser.Types.{before}
use zctl.Api.Parser.Values.{cur_tok, made_node, parse_at_doc_stmt, parse_at_server_stmt}
use zctl.Api.Parser.Routes.{parse_route_stmt}

-- token.Service and `idAPI`
abbrev pub service_text : Expected
service_text = is_text (codes "service")

abbrev pub api_text : Expected
api_text = is_text (codes "api")

unfoldable pub parse_at_handler_stmt : Parse AtHandler
parse_at_handler_stmt = do
  k ← cur_token_node
  advance_if_peek_token_is (is_type ident ∷ [])
  n ← cur_token_node
  pure (record { at_handler = k; name = n })

-- `if p.peekTokenIs(token.AT_DOC) { … }` of `parseServiceItemStmt`
unfoldable pub item_doc : ℕ → Parse (Option AtDoc)
item_doc f =
    branch (peek_token_is (is_type at_doc ∷ []))
      (do advance; d ← parse_at_doc_stmt f; pure (some d)) (pure none)

unfoldable pub parse_service_item_stmt : ℕ → Parse ServiceItem
unfolding item_doc parse_at_handler_stmt parse_route_stmt
parse_service_item_stmt f = do
  d ← item_doc f
  advance_if_peek_token_is (is_type at_handler ∷ is_type rbrace ∷ [])
  branch (peek_token_is (is_type rbrace ∷ []))
      (pure (record { at_doc = d; at_handler = none; route = none }))
      (do
        h ← parse_at_handler_stmt
        r ← parse_route_stmt f
        pure (record { at_doc = d; at_handler = some h; route = some r }))

unfoldable pub parse_service_items_stmt : ℕ → Parse (List ServiceItem)
unfolding parse_service_item_stmt
parse_service_items_stmt zero = starve
parse_service_items_stmt (suc f) =
    branch (before (is_type rbrace ∷ []))
      (do
        i ← parse_service_item_stmt f
        branch (peek_token_is (is_type rbrace ∷ [])) (pure (i ∷ [])) (do
          not_expect_peek_token (is_type at_doc ∷ is_type at_handler ∷ is_type rbrace ∷ [])
          is ← parse_service_items_stmt f
          pure (i ∷ is)))
      (pure [])

-- The text of a service's name behind its first token.
unfoldable pub name_suffix : Parse Text
name_suffix =
    branch (peek_token_is (is_type sub ∷ []))
      (do
        advance
        s ← cur_tok
        expect_peek_token (api_text ∷ [])
        advance
        a ← cur_tok
        pure (s.text ++ a.text))
      (pure [])

unfoldable pub parse_service_name_expr : Parse NodeRef
unfolding name_suffix
parse_service_name_expr = do
  t ← cur_tok
  suffix ← name_suffix
  n ← deref_cur_token_node
  pure (
      made_node (record { type = ident; text = t.text ++ suffix; position = t.position }) n.leading)

-- `if p.curTokenIs(token.AT_SERVER) { … }` of `parseService`
unfoldable pub service_at_server : ℕ → Parse (Option KvBlock)
service_at_server f =
    branch (cur_token_is (is_type at_server ∷ []))
      (do b ← parse_at_server_stmt f; advance_if_peek_token_is (service_text ∷ []); pure (some b))
      (pure none)

unfoldable pub parse_service : ℕ → Parse ServiceStmt
unfolding service_at_server parse_service_name_expr parse_service_items_stmt
parse_service f = do
  a ← service_at_server f
  k ← cur_token_node
  advance_if_peek_token_is (is_type ident ∷ [])
  n ← parse_service_name_expr
  advance_if_peek_token_is (is_type lbrace ∷ [])
  l ← cur_token_node
  items ← parse_service_items_stmt f
  advance_if_peek_token_is (is_type rbrace ∷ [])
  r ← cur_token_node
  pure (record { at_server = a; service = k; name = n; lbrace = l; routes = items; rbrace = r })
