-- ===== src/Api/Imports.antt =====
-- pkg/parser/api/parser/api.go: the .api files that a file imports, and their merge into it.
pub mod Leaves
pub mod Returns
pub mod Tests
use zctl.Base.{
  ℕ, zero, suc, List, [], ◌∷◌, ◌++◌, Option, none, some, Text, ◌==◌, if◌then◌else◌, text_mem,
  text_eq, length,
}
use zctl.Util.Safe.{is_empty_string_or_white_space}
use zctl.Api.Token.{Token, Position}
use zctl.Api.Ast.{TokenNode, NodeRef}
use zctl.Api.ImportStack.{push, pop}
use zctl.Api.Parser.{ParseError}
use zctl.Api.Filter.{CheckError, node_pos}
use zctl.Api.Checks.{Api, imported_values}
use zctl.Api.Analyzer.{Loaded, loaded, invalid, duplicated, exits, panics, unfinished, load_api}

-- The file system and the path functions: `base` and `join` are `filepath.Base` and the join of a
-- relative path to the folder of a file; `order` is the order in which Go walks over a map.
pub record Files : Type 0 where
  pub content : Text → Text
  pub base : Text → Text
  pub join : (filename : Text) → Text → Text
  pub order : List (Text × Token) → List (Text × Token)

pub data ImportError : Type 0 where
  cyclic : (at : Position) → ImportError
  not_parsed : List ParseError → ImportError
  not_converted : CheckError → ImportError
  mixed_syntax : (at : Position) → (expected got : Text) → ImportError

-- The import stack and the set of the files imported so far, which all files share.
pub record Importing : Type 0 where
  pub manager : List Text
  pub set : List Text

pub data Imported (A : Type 0) : Type 0 where
  imported : A → Importing → Imported A
  rejected : ImportError → Imported A
  exited : Imported A
  panicked : Imported A
  no_fuel : Imported A

module _ {A B : Type 0} where
  abbrev pub then_import : Imported A → (A → Importing → Imported B) → Imported B
  then_import (imported a st) k = k a st
  then_import (rejected e) k = rejected e
  then_import exited k = exited
  then_import panicked k = panicked
  then_import no_fuel k = no_fuel

-- `strings.ReplaceAll(text, "\"", "")`
abbrev pub unquoted : Text → Text
unquoted [] = []
unquoted (c ∷ cs) = if c == b'"' then unquoted cs else c ∷ unquoted cs

-- `importValueSet[path] = tok`
unfoldable pub put_token : Text → Token → List (Text × Token) → List (Text × Token)
unfolding text_eq
put_token path tok [] = (path, tok) ∷ []
put_token path tok ((p, t) ∷ m) =
    if text_eq path p then (path, tok) ∷ m else (p, t) ∷ put_token path tok m

-- `none` is a panic at a nil node.
unfoldable pub import_value_set : List NodeRef → List (Text × Token) → Option (List (Text × Token))
unfolding put_token
import_value_set [] m = some m
import_value_set (none ∷ ns) m = none
import_value_set (some n ∷ ns) m = import_value_set ns (put_token (unquoted n.tok.text) n.tok m)

abbrev pub of_loaded : Loaded → Importing → Imported Api
of_loaded (loaded a) st = imported a st
of_loaded (invalid es) st = rejected (not_parsed es)
of_loaded (duplicated e) st = rejected (not_converted e)
of_loaded exits st = exited
of_loaded panics st = panicked
of_loaded unfinished st = no_fuel

-- `New`, `Parse`, `CheckErrors` and `convert2API` on a file, with rounds enough for its text.
abbrev pub load_file : Files → Text → Loaded
load_file files path =
    load_api (suc (suc (length (files.content path)))) (files.base path) path (files.content path)

-- `api.importManager.Pop()`
abbrev pub pop_then : {A : Type 0} → A → Importing → Imported A
pop_then a st = elim (pop st.manager) [
  | none ↦ panicked
  | some m ↦ imported a (record st { manager = m })
]

-- The body of the loop of `parseImportedAPI` behind the push; `rec` is `parseReverse`.
unfoldable pub import_new :
    (Api → Importing → Imported Api) → Files → Text → Importing → Imported (List Api)
import_new rec files path st =
    if text_mem path st.set
    then pop_then [] st
    else then_import (of_loaded (load_file files path) (record st { set = path ∷ st.set }))
        (λ nested new. then_import (rec nested new) (λ merged old. pop_then (merged ∷ []) old))

unfoldable pub import_one :
    (Api → Importing → Imported Api) → Files → Text → Token → Importing → Imported (List Api)
unfolding push import_new
import_one rec files path tok st = elim (push path st.manager) [
  | none ↦ rejected (cyclic tok.position)
  | some m ↦ import_new rec files path (record st { manager = m })
]

unfoldable pub import_loop :
    (Api → Importing → Imported Api)
    → Files
    → Text
    → List (Text × Token)
    → Importing
    → Imported (List Api)
unfolding import_one
import_loop rec files filename [] st = imported [] st
import_loop rec files filename ((p, tok) ∷ m) st =
    then_import (import_one rec files (files.join filename p) tok st) (λ one new.
      then_import (import_loop rec files filename m new) (λ more old. imported (one ++ more) old))

unfoldable pub parse_imported_api :
    (Api → Importing → Imported Api) → Files → Api → Importing → Imported (List Api)
unfolding import_loop import_value_set
parse_imported_api rec files a st = elim (import_value_set (imported_values a.import_stmt) []) [
  | none ↦ panicked
  | some m ↦ import_loop rec files a.filename (files.order m) st
]

-- `strings.Join(list, sep)` with a separator of one rune.
abbrev pub joined_by : ℕ → List Text → Text
joined_by sep [] = []
joined_by sep (t ∷ []) = t
joined_by sep (t ∷ u ∷ ts) = t ++ sep ∷ joined_by sep (u ∷ ts)

-- `CommentGroup.List`
abbrev pub comment_list : List Token → List Text
comment_list [] = []
comment_list (c ∷ cs) =
    if is_empty_string_or_white_space c.text then comment_list cs else c.text ∷ comment_list cs

abbrev with_comments : Text → List Text → Text
with_comments text [] = text
with_comments text (c ∷ cs) = text ++ b' ' ∷ joined_by b' ' (c ∷ cs)

abbrev token_texts : List Token → List Text
token_texts [] = []
token_texts (c ∷ cs) = c.text ∷ token_texts cs

-- `TokenNode.Format` without a prefix.
unfoldable pub node_format : TokenNode → Text
unfolding is_empty_string_or_white_space
node_format n =
    joined_by b'\n' (token_texts n.head ++ with_comments n.tok.text (comment_list n.leading) ∷ [])

unfoldable pub merge_api : Api → Api → Importing → Imported Api
unfolding node_format text_eq
merge_api a b st = elim a.syntax.value [
  | none ↦ panicked
  | some v ↦ elim b.syntax.value [
    | none ↦ panicked
    | some w ↦
        if text_eq (node_format v) (node_format w)
        then imported
            (record a {
              type_stmt = a.type_stmt ++ b.type_stmt;
              service_stmts = a.service_stmts ++ b.service_stmts;
            })
            st
        else rejected (mixed_syntax (node_pos w) (node_format v) (node_format w))
  ]
]

unfoldable pub merge_all : Api → List Api → Importing → Imported Api
unfolding merge_api
merge_all a [] st = imported a st
merge_all a (b ∷ bs) st = then_import (merge_api a b st) (λ c new. merge_all c bs new)

-- The fuel bounds how deep imports stand in one another.
unfoldable pub parse_reverse : ℕ → Files → Api → Importing → Imported Api
unfolding parse_imported_api merge_all
parse_reverse zero files a st = no_fuel
parse_reverse (suc f) files a st =
    then_import (parse_imported_api (parse_reverse f files) files a st)
      (λ list new. merge_all a list new)
