-- ===== src/Api/Parser/Values.antt =====
-- pkg/parser/api/parser/parser.go: `info`, `@doc` and `@server` blocks and their pairs.
use zctl.Base.{ℕ, zero, suc, List, [], ◌∷◌, ◌++◌, some, Text}
use zctl.Api.Token.{
  TokenType, Token, token_bg, ident, path, colon, quo, duration, int, string, raw_string, comma,
  sub, rparen, lparen,
}
use zctl.Api.Ast.{NodeRef, KvExpr, KvBlock, AtDoc, at_doc_literal, at_doc_group}
use zctl.Api.Parser.{
  Parse, is_type, ◌>>=◌, ◌>>◌, pure, starve, branch, gets, peek_token_is, advance,
  not_expect_peek_token, advance_if_peek_token_is, cur_token_node, deref_cur_token_node,
}
use zctl.Api.Parser.Types.{before}

abbrev pub cur_tok : Parse Token
cur_tok = gets (λ p. p.cur_tok)

-- `ast.NewTokenNode(tok)` with a leading comment group.
abbrev pub made_node : Token → List Token → NodeRef
made_node t cs = some (record { head = []; tok = t; leading = cs })

unfoldable pub parse_kv_expression : Parse KvExpr
parse_kv_expression = do
  advance_if_peek_token_is (is_type ident ∷ [])
  k ← cur_token_node
  advance_if_peek_token_is (is_type colon ∷ [])
  c ← cur_token_node
  advance_if_peek_token_is (is_type string ∷ is_type raw_string ∷ is_type ident ∷ [])
  v ← cur_token_node
  pure (record { key = k; colon = c; value = v })

-- A path's next part, behind its slash: a name, or two names with a dash.
unfoldable pub path_part : Parse Text
path_part = do
  advance_if_peek_token_is (is_type ident ∷ [])
  t ← cur_tok
  branch (peek_token_is (is_type sub ∷ []))
      (do
        advance
        s ← cur_tok
        advance_if_peek_token_is (is_type ident ∷ [])
        u ← cur_tok
        pure (t.text ++ (s.text ++ u.text)))
      (pure t.text)

-- `token.Token{Text: text, Position: t.Position}`, whose type is the zero of `Type`.
abbrev pub with_text : Token → Text → Token
with_text t text = record { type = token_bg; text = text; position = t.position }

-- The last lines of `parseAtServerKVExpression`.
abbrev pub path_node : Token → List Token → NodeRef
path_node t cs = made_node (record t { type = path }) cs

-- `for { if p.peekTokenIs(token.QUO) { … } else { break } }`, on the value and its comments.
unfoldable pub path_loop : ℕ → Token → List Token → Parse NodeRef
unfolding path_part
path_loop zero t cs = starve
path_loop (suc f) t cs =
    branch (peek_token_is (is_type quo ∷ []))
      (do
        advance
        slash ← cur_tok
        part ← path_part
        n ← deref_cur_token_node
        path_loop f (with_text t (t.text ++ (slash.text ++ part))) n.leading)
      (pure (path_node t cs))

-- The loops over `,` and `-` between names: one body for the two separators.
unfoldable pub joined_loop : TokenType → ℕ → Token → List Token → Parse NodeRef
joined_loop sep zero t cs = starve
joined_loop sep (suc f) t cs =
    branch (peek_token_is (is_type sep ∷ []))
      (do
        advance
        s ← cur_tok
        advance_if_peek_token_is (is_type ident ∷ [])
        id ← cur_tok
        n ← deref_cur_token_node
        joined_loop sep f (with_text t (t.text ++ (s.text ++ id.text))) n.leading)
      (pure (path_node t cs))

-- A value of one token, such as a duration.
unfoldable pub single_value : Parse NodeRef
single_value = do advance; t ← cur_tok; n ← deref_cur_token_node; pure (made_node t n.leading)

unfoldable pub slash_value : ℕ → Parse NodeRef
unfolding path_part path_loop
slash_value f = do
  advance
  slash ← cur_tok
  part ← path_part
  n ← deref_cur_token_node
  path_loop f (with_text slash (slash.text ++ part)) n.leading

unfoldable pub name_value : ℕ → Parse NodeRef
unfolding joined_loop path_loop
name_value f = do
  advance_if_peek_token_is (is_type ident ∷ [])
  t ← cur_tok
  n ← deref_cur_token_node
  branch (peek_token_is (is_type comma ∷ [])) (joined_loop comma f t n.leading) (
      branch (peek_token_is (is_type sub ∷ [])) (joined_loop sub f t n.leading)
        (path_loop f t n.leading))

unfoldable pub at_server_value : ℕ → Parse NodeRef
unfolding slash_value name_value single_value
at_server_value f = branch (peek_token_is (is_type quo ∷ [])) (slash_value f) (
    branch (peek_token_is (is_type duration ∷ [])) single_value (
      branch (peek_token_is (is_type int ∷ [])) single_value
        (branch (peek_token_is (is_type string ∷ [])) single_value (name_value f))))

unfoldable pub parse_at_server_kv_expression : ℕ → Parse KvExpr
unfolding at_server_value
parse_at_server_kv_expression f = do
  advance_if_peek_token_is (is_type ident ∷ is_type rparen ∷ [])
  k ← cur_token_node
  advance_if_peek_token_is (is_type colon ∷ [])
  c ← cur_token_node
  not_expect_peek_token
      (is_type quo ∷ is_type duration ∷ is_type ident ∷ is_type int ∷ is_type string ∷ [])
  v ← at_server_value f
  pure (record { key = k; colon = c; value = v })

-- The loop over the pairs of a block.
unfoldable pub kv_loop : (ℕ → Parse KvExpr) → ℕ → Parse (List KvExpr)
kv_loop item zero = starve
kv_loop item (suc f) =
    branch (before (is_type rparen ∷ []))
      (do
        e ← item f
        not_expect_peek_token (is_type rparen ∷ is_type ident ∷ [])
        es ← kv_loop item f
        pure (e ∷ es))
      (pure [])

-- `parseInfoStmt`, `parseAtServerStmt` and `parseAtDocGroupStmt` differ in their pairs alone.
unfoldable pub kv_block : (ℕ → Parse KvExpr) → ℕ → Parse KvBlock
unfolding kv_loop
kv_block item f = do
  k ← cur_token_node
  advance_if_peek_token_is (is_type lparen ∷ [])
  l ← cur_token_node
  es ← kv_loop item f
  advance_if_peek_token_is (is_type rparen ∷ [])
  r ← cur_token_node
  pure (record { keyword = k; lparen = l; values = es; rparen = r })

unfoldable pub parse_info_stmt : ℕ → Parse KvBlock
unfolding kv_block parse_kv_expression
parse_info_stmt f = kv_block (λ g. parse_kv_expression) f

unfoldable pub parse_at_server_stmt : ℕ → Parse KvBlock
unfolding kv_block parse_at_server_kv_expression
parse_at_server_stmt f = kv_block parse_at_server_kv_expression f

unfoldable pub parse_at_doc_group_stmt : ℕ → Parse AtDoc
unfolding kv_block parse_kv_expression
parse_at_doc_group_stmt f = do b ← kv_block (λ g. parse_kv_expression) f; pure (at_doc_group b)

unfoldable pub parse_at_doc_literal_stmt : Parse AtDoc
parse_at_doc_literal_stmt = do
  k ← cur_token_node
  advance_if_peek_token_is (is_type string ∷ [])
  v ← cur_token_node
  pure (at_doc_literal k v)

unfoldable pub parse_at_doc_stmt : ℕ → Parse AtDoc
unfolding parse_at_doc_group_stmt parse_at_doc_literal_stmt
parse_at_doc_stmt f = do
  not_expect_peek_token (is_type lparen ∷ is_type string ∷ [])
  branch (peek_token_is (is_type lparen ∷ [])) (parse_at_doc_group_stmt f) parse_at_doc_literal_stmt
