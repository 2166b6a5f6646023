-- ===== src/Api/Filter.antt =====
-- pkg/parser/api/parser/filter.go: the test for declarations that stand twice.
pub mod Duplicates
use zctl.Base.{
  Bool, true, ◌&&◌, List, [], ◌∷◌, ◌++◌, Option, none, some, Text, ◌==◌, text_eq, if◌then◌else◌,
}
use zctl.Api.Token.{Token, Position}
use zctl.Api.Ast.{TokenNode, NodeRef}
use zctl.Api.Parser.{ℤ_eq}

-- `ast.SyntaxError` and `ast.DuplicateStmtError` before `fmt` joins their parts; `what` is the
-- message, `of` the name in it.
pub data CheckError : Type 0 where
  duplicate : (at : Position) → (what : Text) → CheckError
  syntax : (at : Position) → (what of : Text) → CheckError

-- `m` has its latest entry first; `errors` are those of the error manager.
pub record FilterBuilder : Type 0 where
  pub filename : Text
  pub m : List (Text × Position)
  pub check_expr_name : Text
  pub errors : List CheckError

-- Go's `==` on positions.
unfoldable pub position_eq : Position → Position → Bool
unfolding text_eq
position_eq p q = text_eq p.filename q.filename && p.line == q.line && ℤ_eq p.column q.column

unfoldable pub find_position : Text → List (Text × Position) → Option Position
unfolding text_eq
find_position key [] = none
find_position key ((k, p) ∷ m) = if text_eq key k then some p else find_position key m

-- `TokenNode.Pos`
abbrev pub node_pos_of : List Token → Token → Position
node_pos_of [] t = t.position
node_pos_of (c ∷ cs) t = c.position

abbrev pub node_pos : TokenNode → Position
node_pos n = node_pos_of n.head n.tok

-- `fmt.Sprintf("%s/%s", prefix, text)`
abbrev pub joined : Text → Text → Text
joined prefix text = prefix ++ b'/' ∷ text

-- Not `ok && pos != node.Token.Position`
abbrev pub fits : Option Position → Position → Bool
fits none p = true
fits (some q) p = position_eq q p

-- `pos, ok := b.m[text]`
unfoldable pub is_fresh : List (Text × Position) → Text → Position → Bool
unfolding position_eq find_position
is_fresh m key p = fits (find_position key m) p

-- The body of the loop of `check` and of `checkNodeWithPrefix`.
unfoldable pub check_node : Text → TokenNode → FilterBuilder → FilterBuilder
unfolding is_fresh
check_node prefix n b =
    let key = joined prefix n.tok.text in
    if is_fresh b.m key n.tok.position
    then record b { m = (key, n.tok.position) ∷ b.m }
    else record b { errors = b.errors ++ duplicate (node_pos n) b.check_expr_name ∷ [] }

-- `none` is a panic: a node of the list is nil.
unfoldable pub check_node_with_prefix : Text → List NodeRef → FilterBuilder → Option FilterBuilder
unfolding check_node
check_node_with_prefix prefix [] b = some b
check_node_with_prefix prefix (none ∷ ns) b = none
check_node_with_prefix prefix (some n ∷ ns) b =
    check_node_with_prefix prefix ns (check_node prefix n b)

unfoldable pub check : List NodeRef → FilterBuilder → Option FilterBuilder
unfolding check_node_with_prefix
check ns b = check_node_with_prefix b.filename ns b

-- `addCheckItem`
abbrev pub add_check_item : Text → Text → FilterBuilder
add_check_item filename name = record {
  filename = filename;
  m = [];
  check_expr_name = name;
  errors = [];
}
