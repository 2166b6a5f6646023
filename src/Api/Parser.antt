-- ===== src/Api/Parser.antt =====
-- pkg/parser/api/parser/parser.go: the state of the parser and the methods on its tokens.
pub mod Types
pub mod Values
pub mod Routes
pub mod Services
pub mod Stmts
pub mod Progress
pub mod Rules
pub mod Total
pub mod Safety
pub mod Tests
use zctl.Base.{
  ℕ, zero, suc, Bool, true, false, not, ◌&&◌, ◌||◌, List, [], ◌∷◌, ◌++◌, Option, none, some, Text,
  ◌==◌, if◌then◌else◌, text_eq,
}
use zctl.Base.Int.{ℤ, pos, negsuc}
use zctl.Api.Token.{
  TokenType, Token, Position, token_bg, illegal, eof, comment, document, ordinal, type_string,
  lookup_keyword, error_token,
}
use zctl.Api.Scanner.{Scanner, Scanned, ScanError, scanned, failed, panicked, out_of_fuel, rounds}
use zctl.Api.Scanner.Next.{next_token}
use zctl.Api.Ast.{TokenNode, NodeRef, Stmt, comment_stmt}

-- What a variadic `expected ...interface{}` holds: token types and texts.
pub data Expected : Type 0 where
  is_type : TokenType → Expected
  is_text : Text → Expected

-- The errors before `fmt` joins their parts. At the end of the input a column is moved by the bytes
-- of the text `behind`.
pub data ParseError : Type 0 where
  scan_failed : ScanError → ParseError
  syntax_error : (at : Position) → (behind : Text) → List Expected → (got : Text) → ParseError
  unexpected_token : Position → Text → ParseError

-- `node`, the map from tokens to their nodes, has its latest entry first; `stmts` are those of `api`.
pub record Parser : Type 0 where
  pub scanner : Scanner
  pub errors : List ParseError
  pub cur_tok : Token
  pub peek_tok : Token
  pub head_comment_group : List Token
  pub stmts : List Stmt
  pub node : List TokenNode

-- What a parsing method ends in: a value; nil or false; a Go panic; or, of the model alone, a loop
-- or a recursion that was not given enough rounds.
pub data Parsed (A : Type 0) : Type 0 where
  parsed : A → Parser → Parsed A
  nil : Parser → Parsed A
  crashed : Parsed A
  no_fuel : Parsed A

abbrev pub Parse : Type 0 → Type 0
Parse A = Parser → Parsed A

module _ {A B : Type 0} where
  abbrev pub continue : Parsed A → (A → Parse B) → Parsed B
  continue (parsed a p) k = k a p
  continue (nil p) k = nil p
  continue crashed k = crashed
  continue no_fuel k = no_fuel

  -- `x := m(); if x == nil { return nil }`
  infixl 5 ◌>>=◌ ◌>>◌
  unfoldable pub ◌>>=◌ : Parse A → (A → Parse B) → Parse B
  ◌>>=◌ m k p = continue (m p) k

  abbrev pub ◌>>◌ : Parse A → Parse B → Parse B
  m >> k = m >>= λ _. k

module _ {A : Type 0} where
  unfoldable pub pure : A → Parse A
  pure a p = parsed a p

  unfoldable pub starve : Parse A
  starve p = no_fuel

  unfoldable pub crash : Parse A
  crash p = crashed

  -- An error is recorded and nil returned.
  unfoldable pub fail : (Parser → ParseError) → Parse A
  fail e p = nil (record p { errors = p.errors ++ e p ∷ [] })

  unfoldable pub branch : (Parser → Bool) → Parse A → Parse A → Parse A
  branch test m k p = elim (test p) [ true ↦ m p | false ↦ k p ]

unfoldable pub gets : {A : Type 0} → (Parser → A) → Parse A
gets f p = parsed (f p) p

-- A call whose result the caller drops.
abbrev pub drop_result : Parsed (Unit {0}) → Parsed (Unit {0})
drop_result (parsed a p) = parsed tt p
drop_result (nil p) = parsed tt p
drop_result crashed = crashed
drop_result no_fuel = no_fuel

unfoldable pub ignore : Parse (Unit {0}) → Parse (Unit {0})
ignore m p = drop_result (m p)

unfoldable pub type_eq : TokenType → TokenType → Bool
unfolding ordinal
type_eq s t = ordinal s == ordinal t

abbrev pub ℤ_eq : ℤ → ℤ → Bool
ℤ_eq (pos a) (pos b) = a == b
ℤ_eq (negsuc a) (negsuc b) = a == b
ℤ_eq _ _ = false

-- Go's `==` on tokens, by which the map `node` finds its keys.
unfoldable pub token_eq : Token → Token → Bool
unfolding type_eq text_eq
token_eq s t =
    type_eq s.type t.type
    && text_eq s.text t.text
    && text_eq s.position.filename t.position.filename
    && s.position.line == t.position.line
    && ℤ_eq s.position.column t.position.column

unfoldable pub get_node : Token → List TokenNode → NodeRef
unfolding token_eq
get_node t [] = none
get_node t (n ∷ ns) = if token_eq t n.tok then some n else get_node t ns

-- `SetLeadingCommentGroup` through the pointer in the map; nil is a panic.
unfoldable pub set_leading : Token → List Token → List TokenNode → Option (List TokenNode)
unfolding token_eq
set_leading t cs [] = none
set_leading t cs (n ∷ ns) = elim (token_eq t n.tok) [
  | true ↦ some (record n { leading = cs } ∷ ns)
  | false ↦ elim (set_leading t cs ns) [ none ↦ none | some ms ↦ some (n ∷ ms) ]
]

unfoldable pub matches : Token → List Expected → Bool
unfolding type_eq text_eq
matches t [] = false
matches t (is_type tp ∷ es) = type_eq t.type tp || matches t es
matches t (is_text s ∷ es) = text_eq t.text s || matches t es

unfoldable pub cur_token_is : List Expected → Parser → Bool
cur_token_is es p = matches p.cur_tok es

unfoldable pub peek_token_is : List Expected → Parser → Bool
peek_token_is es p = matches p.peek_tok es

unfoldable pub peek_token_is_not : List Expected → Parser → Bool
peek_token_is_not es p = not (matches p.peek_tok es)

unfoldable pub cur_token_is_not_eof : Parser → Bool
unfolding type_eq
cur_token_is_not_eof p = not (type_eq p.cur_tok.type eof)

abbrev pub is_comment : Token → Bool
is_comment t = type_eq t.type comment || type_eq t.type document

-- What the loop over comments of `nextToken` leaves: the token and the scanner behind the comments,
-- those of the line of the current token, and those before the next token.
pub data Commented : Type 0 where
  behind_comments : Token → Scanner → (leading head : List Token) → Commented
  comments_failed : ScanError → Scanner → (head : List Token) → Commented
  comments_crashed : Commented
  comments_starved : Commented

-- `line` is none for -1.
abbrev pub same_line : Token → Option ℕ → Bool
same_line t none = false
same_line t (some l) = t.position.line == l

unfoldable pub comment_loop : ℕ → Option ℕ → Scanned → List Token → List Token → Commented
unfolding type_eq
comment_loop zero line r leading head = comments_starved
comment_loop (suc f) line (scanned t s) leading head = elim (is_comment t) [
  | true ↦ elim (same_line t line) [
    | true ↦ comment_loop f line (next_token s) (leading ++ t ∷ []) head
    | false ↦ comment_loop f line (next_token s) leading (head ++ t ∷ [])
  ]
  | false ↦ behind_comments t s leading head
]
comment_loop (suc f) line (failed e s) leading head = comments_failed e s head
comment_loop (suc f) line panicked leading head = comments_crashed
comment_loop (suc f) line out_of_fuel leading head = comments_starved

-- The end of `nextToken`: the leading comments are put into the node of the current token.
unfoldable pub with_leading : List Token → Parser → Parsed (Unit {0})
unfolding set_leading
with_leading [] p = parsed tt p
with_leading (c ∷ cs) p = elim (set_leading p.cur_tok (c ∷ cs) p.node) [
  | none ↦ crashed
  | some ns ↦ parsed tt (record p { node = ns })
]

unfoldable pub take_peek : Parser → Commented → Parsed (Unit {0})
unfolding with_leading
take_peek p (behind_comments t s leading head) =
    with_leading leading (record p { peek_tok = t; scanner = s; head_comment_group = head })
take_peek p (comments_failed e s head) = nil (record p {
  peek_tok = error_token;
  scanner = s;
  head_comment_group = head;
  errors = p.errors ++ scan_failed e ∷ [];
})
take_peek p comments_crashed = crashed
take_peek p comments_starved = no_fuel

-- `nextToken` behind its first branches, with the line of the current token.
unfoldable pub read_peek : Option ℕ → Parser → Parsed (Unit {0})
unfolding take_peek comment_loop
read_peek line p =
    take_peek p
      (comment_loop (suc (rounds p.scanner)) line (next_token p.scanner) [] p.head_comment_group)

abbrev comment_stmts : List Token → List Stmt
comment_stmts [] = []
comment_stmts (c ∷ cs) = comment_stmt c ∷ comment_stmts cs

-- `nextToken` on the state whose current token is the one peeked at before.
unfoldable pub next_from : Parser → Parsed (Unit {0})
unfolding read_peek type_eq
next_from p =
    if type_eq p.cur_tok.type token_bg
    then read_peek none p
    else if type_eq p.cur_tok.type eof
    then parsed tt (record p {
      stmts = p.stmts ++ comment_stmts p.head_comment_group;
      head_comment_group = [];
    })
    else read_peek (some p.cur_tok.position.line) (record p {
      node = record { head = p.head_comment_group; tok = p.cur_tok; leading = [] } ∷ p.node;
      head_comment_group = [];
    })

-- `nextToken`, with nil for false.
unfoldable pub advance : Parse (Unit {0})
unfolding next_from
advance p = next_from (record p { cur_tok = p.peek_tok })

-- The error of `expectPeekToken` and `notExpectPeekToken`.
unfoldable pub peek_error : List Expected → Parser → ParseError
unfolding type_eq
peek_error es p =
    let got =
      if type_eq p.peek_tok.type illegal then p.peek_tok.text else type_string p.peek_tok.type in
    if type_eq p.peek_tok.type eof
    then syntax_error p.cur_tok.position p.cur_tok.text es got
    else syntax_error p.peek_tok.position [] es got

unfoldable pub expect_peek_token : List Expected → Parse (Unit {0})
unfolding peek_token_is peek_error
expect_peek_token es = branch (peek_token_is es) (pure tt) (fail (peek_error es))

-- `if p.notExpectPeekToken(…) { return nil }`
unfoldable pub not_expect_peek_token : List Expected → Parse (Unit {0})
unfolding peek_token_is_not peek_error
not_expect_peek_token es = branch (peek_token_is_not es) (fail (peek_error es)) (pure tt)

unfoldable pub advance_if_peek_token_is : List Expected → Parse (Unit {0})
unfolding expect_peek_token advance
advance_if_peek_token_is es = expect_peek_token es >> advance

unfoldable pub cur_token_node : Parse NodeRef
unfolding get_node
cur_token_node p = parsed (get_node p.cur_tok p.node) p

-- `curTokenNode()` where a field of the node is read.
abbrev pub or_crash : NodeRef → Parse TokenNode
or_crash none = crash
or_crash (some n) = pure n

unfoldable pub deref_cur_token_node : Parse TokenNode
unfolding cur_token_node
deref_cur_token_node = cur_token_node >>= or_crash

abbrev pub keyword_error : TokenType → Parser → ParseError
keyword_error tp p =
    syntax_error p.cur_tok.position [] (is_type TokenType.ident ∷ []) (type_string tp)

abbrev pub refuse : Option TokenType → Parse (Unit {0})
refuse none = pure tt
refuse (some tp) = fail (keyword_error tp)

-- `if p.curTokenIsKeyword() { return nil }`
unfoldable pub refuse_keyword : Parse (Unit {0})
refuse_keyword = gets (λ p. lookup_keyword p.cur_tok.text) >>= refuse
