-- ===== src/Api/Checks/Names.antt =====
-- What a file declares and imports, read off its statements: the names of the type literals and of
-- the members of type groups, and the values of the import literals and groups.
use zctl.Base.{List, [], ◌∷◌, ◌++◌, map, some, ◌≡◌, refl, ap, ◌∙◌}
use zctl.Api.Ast.{
  NodeRef, TokenNode, TypeExpr, Stmt, import_literal, import_group, type_literal, type_group,
}
use zctl.Api.Checks.{exprs_of, names_of, imported_values}
use zctl.Api.Checks.Types.{declared_names}

unfoldable pub type_names : List Stmt → List NodeRef
type_names [] = []
type_names (type_literal k e ∷ ss) = e.name ∷ type_names ss
type_names (type_group k l es r ∷ ss) = map (λ e. e.name) es ++ type_names ss
type_names (s ∷ ss) = type_names ss

unfoldable pub import_paths : List Stmt → List NodeRef
import_paths [] = []
import_paths (import_literal k v ∷ ss) = v ∷ import_paths ss
import_paths (import_group k l vs r ∷ ss) = vs ++ import_paths ss
import_paths (s ∷ ss) = import_paths ss

names_of-append :
    (es fs : List TypeExpr) → names_of (es ++ fs) ≡ map (λ e. e.name) es ++ names_of fs
names_of-append [] fs = refl
names_of-append (e ∷ es) fs = ap (◌∷◌ e.name) (names_of-append es fs)

pub names_of-exprs_of : (ss : List Stmt) → names_of (exprs_of ss) ≡ type_names ss
unfolding type_names
names_of-exprs_of [] = refl
names_of-exprs_of (type_literal k e ∷ ss) = ap (◌∷◌ e.name) (names_of-exprs_of ss)
names_of-exprs_of (type_group k l es r ∷ ss) =
    names_of-append es (exprs_of ss) ∙ ap (◌++◌ (map (λ e. e.name) es)) (names_of-exprs_of ss)
names_of-exprs_of (s ∷ ss) = names_of-exprs_of ss

pub imported_values-import_paths : (ss : List Stmt) → imported_values ss ≡ import_paths ss
unfolding import_paths
imported_values-import_paths [] = refl
imported_values-import_paths (import_literal k v ∷ ss) =
    ap (◌∷◌ v) (imported_values-import_paths ss)
imported_values-import_paths (import_group k l vs r ∷ ss) =
    ap (◌++◌ vs) (imported_values-import_paths ss)
imported_values-import_paths (s ∷ ss) = imported_values-import_paths ss

declared_names-some :
    (es : List TypeExpr) (ns : List TokenNode)
    → names_of es ≡ map some ns
    → declared_names es ≡ some (map (λ n. n.tok.text) ns)
declared_names-some [] [] h = refl
declared_names-some [] (n ∷ ns) h = cc
declared_names-some (e ∷ es) [] h = cc
declared_names-some (e ∷ es) (n ∷ ns) h =
    let p : e.name ≡ some n = cc in
    let q : names_of es ≡ map some ns = cc in rw (p, declared_names-some es ns q) refl

-- The keys of `typeMap` are the names of the types, where none is nil.
pub declared_names-exprs_of :
    (ss : List Stmt) (ns : List TokenNode)
    → type_names ss ≡ map some ns
    → declared_names (exprs_of ss) ≡ some (map (λ n. n.tok.text) ns)
declared_names-exprs_of ss ns h = declared_names-some (exprs_of ss) ns (names_of-exprs_of ss ∙ h)
