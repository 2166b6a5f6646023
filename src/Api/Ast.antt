-- ===== src/Api/Ast.antt =====
-- pkg/parser/api/ast: the tree that the parser builds. A pointer to a token node is a `NodeRef`,
-- whose `none` is nil; a comment statement is its token.
use zctl.Base.{List, Option}
use zctl.Api.Token.{Token}

-- `HeadCommentGroup` and `LeadingCommentGroup` are the comments before a token and behind it in
-- its line.
pub record TokenNode : Type 0 where
  pub head : List Token
  pub tok : Token
  pub leading : List Token

abbrev pub NodeRef : Type 0
NodeRef = Option TokenNode

-- `ElemExprs` is the list of `ElemExpr`, with names, data type and tag of each.
mutual
  pub data DataType : Type 0 where
    any_type : NodeRef → DataType
    -- `[`, the length, `]`
    array_type : NodeRef → NodeRef → NodeRef → DataType → DataType
    base_type : NodeRef → DataType
    interface_type : NodeRef → DataType
    -- `map`, `[`, the key, `]`, the value
    map_type : NodeRef → NodeRef → DataType → NodeRef → DataType → DataType
    pointer_type : NodeRef → DataType → DataType
    slice_type : NodeRef → NodeRef → DataType → DataType
    struct_type : NodeRef → ElemExprs → NodeRef → DataType

  pub data ElemExprs : Type 0 where
    no_elems : ElemExprs
    elem : List NodeRef → DataType → NodeRef → ElemExprs → ElemExprs

pub record TypeExpr : Type 0 where
  pub name : NodeRef
  pub assign : NodeRef
  pub data_type : DataType

pub record KvExpr : Type 0 where
  pub key : NodeRef
  pub colon : NodeRef
  pub value : NodeRef

-- An `info` or `@server` block: its keyword, `(`, the pairs, `)`.
pub record KvBlock : Type 0 where
  pub keyword : NodeRef
  pub lparen : NodeRef
  pub values : List KvExpr
  pub rparen : NodeRef

pub data AtDoc : Type 0 where
  at_doc_literal : NodeRef → NodeRef → AtDoc
  at_doc_group : KvBlock → AtDoc

pub record AtHandler : Type 0 where
  pub at_handler : NodeRef
  pub name : NodeRef

pub record BodyExpr : Type 0 where
  pub lbrack : NodeRef
  pub rbrack : NodeRef
  pub star : NodeRef
  pub value : NodeRef

pub record BodyStmt : Type 0 where
  pub lparen : NodeRef
  pub body : Option BodyExpr
  pub rparen : NodeRef

pub record RouteStmt : Type 0 where
  pub method : NodeRef
  pub path : NodeRef
  pub request : Option BodyStmt
  pub returns : NodeRef
  pub response : Option BodyStmt

pub record ServiceItem : Type 0 where
  pub at_doc : Option AtDoc
  pub at_handler : Option AtHandler
  pub route : Option RouteStmt

pub record ServiceStmt : Type 0 where
  pub at_server : Option KvBlock
  pub service : NodeRef
  pub name : NodeRef
  pub lbrace : NodeRef
  pub routes : List ServiceItem
  pub rbrace : NodeRef

pub data Stmt : Type 0 where
  comment_stmt : Token → Stmt
  -- `syntax`, `=`, the value
  syntax_stmt : NodeRef → NodeRef → NodeRef → Stmt
  info_stmt : KvBlock → Stmt
  import_literal : NodeRef → NodeRef → Stmt
  -- `import`, `(`, the values, `)`
  import_group : NodeRef → NodeRef → List NodeRef → NodeRef → Stmt
  type_literal : NodeRef → TypeExpr → Stmt
  type_group : NodeRef → NodeRef → List TypeExpr → NodeRef → Stmt
  service_stmt : ServiceStmt → Stmt
