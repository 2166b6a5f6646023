-- ===== src/Api/Parser/Types.antt =====
-- pkg/parser/api/parser/parser.go: data types and type statements.
use zctl.Base.{◌&&◌, ℕ, zero, suc, Bool, ◌||◌, List, [], ◌∷◌, none, codes, ltb}
use zctl.Api.Token.{
  mul, ident, rbrack, lbrack, lbrace, rbrace, lparen, rparen, comma, assign, any, int, ellipsis,
  raw_string, eof,
}
use zctl.Api.Ast.{
  NodeRef, DataType, any_type, array_type, base_type, interface_type, map_type, pointer_type,
  slice_type, struct_type, ElemExprs, no_elems, elem, TypeExpr, Stmt, type_literal, type_group,
}
use zctl.Api.Parser.{
  Parser, Parse, Expected, is_type, is_text, ◌>>=◌, ◌>>◌, pure, starve, fail, branch, cur_token_is,
  peek_token_is, peek_token_is_not, cur_token_is_not_eof, advance, peek_error, expect_peek_token,
  not_expect_peek_token, advance_if_peek_token_is, cur_token_node, refuse_keyword,
}

-- token.Any, token.MapKeyword
abbrev pub any_text : Expected
any_text = is_text (codes "any")

abbrev pub map_text : Expected
map_text = is_text (codes "map")

-- The condition of the loops that end at a closing token.
abbrev pub before : List Expected → Parser → Bool
before es p = cur_token_is_not_eof p && peek_token_is_not es p

unfoldable pub parse_any_data_type : Parse DataType
parse_any_data_type = do advance; n ← cur_token_node; pure (any_type n)

unfoldable pub parse_interface_data_type : Parse DataType
parse_interface_data_type = do advance; n ← cur_token_node; pure (interface_type n)

-- `for p.peekTokenIs(token.COMMA)` of `parseElemExpr`
unfoldable pub elem_names : ℕ → Parse (List NodeRef)
elem_names zero = starve
elem_names (suc f) =
    branch (peek_token_is (is_type comma ∷ []))
      (do
        advance
        advance_if_peek_token_is (is_type ident ∷ [])
        refuse_keyword
        n ← cur_token_node
        ns ← elem_names f
        pure (n ∷ ns))
      (pure [])

-- The data type of an element that is an embedded name.
unfoldable pub embedded : Parse DataType
embedded =
    branch (cur_token_is (any_text ∷ [])) (do n ← cur_token_node; pure (any_type n))
      (do n ← cur_token_node; pure (base_type n))

abbrev pub is_embedded : Parser → Bool
is_embedded p =
    ltb p.cur_tok.position.line p.peek_tok.position.line
    || peek_token_is (is_type raw_string ∷ []) p

unfoldable pub elem_tag : Parse NodeRef
elem_tag = branch (peek_token_is (is_type raw_string ∷ [])) (do advance; cur_token_node) (pure none)

-- The methods that parse a data type within another take the parser of data types, `rec`.
module _ (rec : Parse DataType) where
  unfoldable pub parse_pointer_data_type : Parse DataType
  parse_pointer_data_type = do
    advance
    star ← cur_token_node
    not_expect_peek_token (is_type ident ∷ is_type lbrack ∷ is_type any ∷ is_type mul ∷ [])
    t ← rec
    pure (pointer_type star t)

  unfoldable pub parse_map_data_type : Parse DataType
  parse_map_data_type = do
    advance
    m ← cur_token_node
    advance_if_peek_token_is (is_type lbrack ∷ [])
    l ← cur_token_node
    key ← rec
    advance_if_peek_token_is (is_type rbrack ∷ [])
    r ← cur_token_node
    value ← rec
    pure (map_type m l key r value)

  unfoldable pub parse_array_data_type : Parse DataType
  parse_array_data_type = do
    l ← cur_token_node
    advance
    n ← cur_token_node
    advance_if_peek_token_is (is_type rbrack ∷ [])
    r ← cur_token_node
    t ← rec
    pure (array_type l n r t)

  unfoldable pub parse_slice_data_type : Parse DataType
  parse_slice_data_type = do
    l ← cur_token_node
    advance_if_peek_token_is (is_type rbrack ∷ [])
    r ← cur_token_node
    t ← rec
    pure (slice_type l r t)

  -- The names and the data type of an element, behind its first token.
  unfoldable pub elem_type : ℕ → Parse (List NodeRef × DataType)
  unfolding embedded elem_names
  elem_type f =
      branch (cur_token_is (is_type mul ∷ []))
        (do
          star ← cur_token_node
          advance_if_peek_token_is (is_type ident ∷ [])
          t ← embedded
          pure ([], pointer_type star t))
        (branch is_embedded (do t ← embedded; pure ([], t))
          (do
            n ← cur_token_node
            not_expect_peek_token (
                is_type comma
                ∷ is_type ident
                ∷ is_type lbrack
                ∷ is_type any
                ∷ is_type mul
                ∷ is_type lbrace
                ∷ [])
            ns ← elem_names f
            t ← rec
            pure (n ∷ ns, t)))

  -- `parseElemExpr`: its names, data type and tag.
  unfoldable pub parse_elem_expr : ℕ → Parse (List NodeRef × DataType × NodeRef)
  unfolding elem_type elem_tag
  parse_elem_expr f = do
    advance_if_peek_token_is (is_type ident ∷ is_type mul ∷ [])
    refuse_keyword
    (ns, t) ← elem_type f
    not_expect_peek_token (is_type raw_string ∷ is_type mul ∷ is_type ident ∷ is_type rbrace ∷ [])
    tag ← elem_tag
    pure (ns, t, tag)

  unfoldable pub parse_elem_expr_list : ℕ → Parse ElemExprs
  unfolding parse_elem_expr
  parse_elem_expr_list zero = starve
  parse_elem_expr_list (suc f) =
      branch (before (is_type rbrace ∷ is_type eof ∷ []))
        (do
          not_expect_peek_token (is_type ident ∷ is_type mul ∷ is_type rbrace ∷ [])
          (ns, t, tag) ← parse_elem_expr f
          not_expect_peek_token (is_type ident ∷ is_type mul ∷ is_type rbrace ∷ [])
          es ← parse_elem_expr_list f
          pure (elem ns t tag es))
        (pure no_elems)

  unfoldable pub parse_struct_data_type : ℕ → Parse DataType
  unfolding parse_elem_expr_list
  parse_struct_data_type f = do
    advance
    l ← cur_token_node
    not_expect_peek_token (is_type ident ∷ is_type mul ∷ is_type rbrace ∷ [])
    es ← parse_elem_expr_list f
    advance_if_peek_token_is (is_type rbrace ∷ [])
    r ← cur_token_node
    pure (struct_type l es r)

  -- `case p.peekTokenIs(token.LBRACK)` of `parseDataType`
  unfoldable pub parse_bracketed : Parse DataType
  unfolding parse_slice_data_type parse_array_data_type
  parse_bracketed = do
    advance
    branch (peek_token_is (is_type rbrack ∷ [])) parse_slice_data_type (
        branch (peek_token_is (is_type int ∷ is_type ellipsis ∷ [])) parse_array_data_type
          (fail (peek_error (is_type rbrack ∷ is_type int ∷ is_type ellipsis ∷ []))))

  -- `case p.peekTokenIs(token.IDENT)`
  unfoldable pub parse_named : Parse DataType
  unfolding parse_map_data_type
  parse_named =
      branch (peek_token_is (map_text ∷ [])) parse_map_data_type
        (do advance; refuse_keyword; n ← cur_token_node; pure (base_type n))

  -- The `switch` of `parseDataType`.
  unfoldable pub data_type_switch : ℕ → Parse DataType
  unfolding parse_bracketed parse_named parse_struct_data_type parse_any_data_type
      parse_interface_data_type parse_pointer_data_type
  data_type_switch f = branch (peek_token_is (any_text ∷ [])) parse_any_data_type (
      branch (peek_token_is (is_type lbrace ∷ [])) (parse_struct_data_type f) (
        branch (peek_token_is (is_type ident ∷ [])) parse_named (
          branch (peek_token_is (is_type lbrack ∷ [])) parse_bracketed (
            branch (peek_token_is (is_type any ∷ [])) parse_interface_data_type (
              branch (peek_token_is (is_type mul ∷ [])) parse_pointer_data_type (
                fail (
                  peek_error (
                    is_type ident
                    ∷ is_type lbrack
                    ∷ is_type any
                    ∷ is_type mul
                    ∷ is_type lbrace
                    ∷ []))))))))

-- The fuel bounds the depth of a data type.
unfoldable pub parse_data_type : ℕ → Parse DataType
unfolding data_type_switch
parse_data_type zero = starve
parse_data_type (suc f) = data_type_switch (parse_data_type f) f

-- `token '='` of `parseTypeExpr`
unfoldable pub optional_assign : Parse NodeRef
optional_assign =
    branch (peek_token_is (is_type assign ∷ [])) (do advance; cur_token_node) (pure none)

unfoldable pub parse_type_expr : ℕ → Parse TypeExpr
unfolding parse_data_type optional_assign
parse_type_expr f = do
  advance_if_peek_token_is (is_type ident ∷ [])
  refuse_keyword
  n ← cur_token_node
  a ← optional_assign
  t ← parse_data_type f
  pure (record { name = n; assign = a; data_type = t })

-- The loop of `parseTypeExprList`.
unfoldable pub type_exprs : ℕ → Parse (List TypeExpr)
unfolding parse_type_expr
type_exprs zero = starve
type_exprs (suc f) =
    branch (before (is_type rparen ∷ is_type eof ∷ []))
      (do
        e ← parse_type_expr f
        expect_peek_token (is_type ident ∷ is_type rparen ∷ [])
        es ← type_exprs f
        pure (e ∷ es))
      (pure [])

unfoldable pub parse_type_expr_list : ℕ → Parse (List TypeExpr)
unfolding type_exprs
parse_type_expr_list f = do expect_peek_token (is_type ident ∷ is_type rparen ∷ []); type_exprs f

unfoldable pub parse_type_literal_stmt : ℕ → Parse Stmt
unfolding parse_type_expr
parse_type_literal_stmt f = do k ← cur_token_node; e ← parse_type_expr f; pure (type_literal k e)

unfoldable pub parse_type_group_stmt : ℕ → Parse Stmt
unfolding parse_type_expr_list
parse_type_group_stmt f = do
  k ← cur_token_node
  advance
  l ← cur_token_node
  es ← parse_type_expr_list f
  advance_if_peek_token_is (is_type rparen ∷ [])
  r ← cur_token_node
  pure (type_group k l es r)

unfoldable pub parse_type_stmt : ℕ → Parse Stmt
unfolding parse_type_group_stmt parse_type_literal_stmt
parse_type_stmt f = branch (peek_token_is (is_type lparen ∷ [])) (parse_type_group_stmt f) (
    branch (peek_token_is (is_type ident ∷ [])) (parse_type_literal_stmt f)
      (fail (peek_error (is_type lparen ∷ is_type ident ∷ []))))
