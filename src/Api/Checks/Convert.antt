-- ===== src/Api/Checks/Convert.antt =====
-- What `convert2API` accepts and collects.
use zctl.Base.{
  ℕ, suc, Bool, true, false, ◌&&◌, List, [], ◌∷◌, ◌++◌, Option, none, some, Text, leb,
  if◌then◌else◌, ◌≡◌, ◌∙◌, refl, arith, append_assoc, append-nil, length,
}
use zctl.Api.Ast.{
  KvBlock, ServiceStmt, Stmt, comment_stmt, syntax_stmt, info_stmt, import_literal, import_group,
  type_literal, type_group, service_stmt, NodeRef,
}
use zctl.Api.Checks.{
  Api, Converted, converted, refused, panicked, convert_loop, convert2_api, syntax_of, new_api,
  duplicate_at,
}

abbrev pub api_of : Converted → Option Api
api_of (converted a) = some a
api_of (refused e) = none
api_of panicked = none

abbrev pub syntax_count : List Stmt → ℕ
syntax_count [] = 0
syntax_count (syntax_stmt k a v ∷ ss) = suc (syntax_count ss)
syntax_count (s ∷ ss) = syntax_count ss

abbrev pub infos : List Stmt → List KvBlock
infos [] = []
infos (info_stmt b ∷ ss) = b ∷ infos ss
infos (s ∷ ss) = infos ss

abbrev pub imports : List Stmt → List Stmt
imports [] = []
imports (import_literal k v ∷ ss) = import_literal k v ∷ imports ss
imports (import_group k l vs r ∷ ss) = import_group k l vs r ∷ imports ss
imports (s ∷ ss) = imports ss

abbrev pub types : List Stmt → List Stmt
types [] = []
types (type_literal k e ∷ ss) = type_literal k e ∷ types ss
types (type_group k l es r ∷ ss) = type_group k l es r ∷ types ss
types (s ∷ ss) = types ss

abbrev pub services : List Stmt → List ServiceStmt
services [] = []
services (service_stmt s ∷ ss) = s ∷ services ss
services (s ∷ ss) = services ss

-- `t` with what the loop adds, where there is an info statement in one of the two at most.
abbrev extend : Api → List KvBlock → List Stmt → Api
extend a is ss = record a {
  info = elim is [ [] ↦ a.info | b ∷ bs ↦ some b ];
  import_stmt = a.import_stmt ++ imports ss;
  type_stmt = a.type_stmt ++ types ss;
  service_stmts = a.service_stmts ++ services ss;
}

-- A count, with one that was seen before.
abbrev counted : Bool → ℕ → ℕ
counted true n = suc n
counted false n = n

abbrev has_some : Option KvBlock → Bool
has_some none = false
has_some (some b) = true

api_of-duplicate_at : (k : NodeRef) (what : Text) → api_of (duplicate_at k what) ≡ none
api_of-duplicate_at none what = refl
api_of-duplicate_at (some n) what = refl

-- What the loop should come to.
abbrev goal : List Stmt → Bool → Option KvBlock → Api → Option Api
goal ss hs i a =
    if leb (counted hs (syntax_count ss)) 1 && leb (counted (has_some i) (length (infos ss))) 1
    then some (extend (record a { info = i }) (infos ss) ss)
    else none

leb_over : (n : ℕ) → leb (suc (suc n)) 1 ≡ false
leb_over n = ground arith

and_false : (b : Bool) → (b && false) ≡ false
and_false true = refl
and_false false = refl

-- Where there is one info statement at most, it does not matter when it was seen.
first_info :
    (t : Bool) (is : List KvBlock) (b : KvBlock) (a : Api) (ss : List Stmt)
    → (if t && leb (suc (length is)) 1
        then some (extend (record a { info = some b }) is ss)
        else none)
      ≡ (if t && leb (suc (length is)) 1 then some (extend a (b ∷ is) ss) else none)
first_info t [] b a ss = refl
first_info t (c ∷ cs) b a ss = rw (leb_over (length cs), and_false t) refl

api_of-convert_loop :
    (ss : List Stmt) (hs : Bool) (i : Option KvBlock) (a : Api)
    → api_of (convert_loop ss hs (has_some i) (record a { info = i })) ≡ goal ss hs i a
unfolding convert_loop
api_of-convert_loop [] true none a =
    rw (append-nil a.import_stmt, append-nil a.type_stmt, append-nil a.service_stmts) refl
api_of-convert_loop [] true (some b) a =
    rw (append-nil a.import_stmt, append-nil a.type_stmt, append-nil a.service_stmts) refl
api_of-convert_loop [] false none a =
    rw (append-nil a.import_stmt, append-nil a.type_stmt, append-nil a.service_stmts) refl
api_of-convert_loop [] false (some b) a =
    rw (append-nil a.import_stmt, append-nil a.type_stmt, append-nil a.service_stmts) refl
api_of-convert_loop (syntax_stmt k e v ∷ ss) true i a =
    rw (api_of-duplicate_at k, leb_over (syntax_count ss)) refl
api_of-convert_loop (syntax_stmt k e v ∷ ss) false i a = api_of-convert_loop ss true i a
api_of-convert_loop (info_stmt b ∷ ss) hs none a =
    let ih = api_of-convert_loop ss hs (some b) a in
    ih
    ∙ first_info (leb (counted hs (syntax_count ss)) 1) (infos ss) b (record a { info = none }) ss
api_of-convert_loop (info_stmt b ∷ ss) hs (some c) a =
    rw
      (
        api_of-duplicate_at b.keyword,
        leb_over (length (infos ss)),
        and_false (leb (counted hs (syntax_count ss)) 1),
      )
      refl
api_of-convert_loop (import_literal k v ∷ ss) hs i a =
    let t = import_literal k v in
    let ih = api_of-convert_loop ss hs i (record a { import_stmt = a.import_stmt ++ t ∷ [] }) in
    rw (ih, append_assoc a.import_stmt (t ∷ []) (imports ss)) refl
api_of-convert_loop (import_group k l vs r ∷ ss) hs i a =
    let t = import_group k l vs r in
    let ih = api_of-convert_loop ss hs i (record a { import_stmt = a.import_stmt ++ t ∷ [] }) in
    rw (ih, append_assoc a.import_stmt (t ∷ []) (imports ss)) refl
api_of-convert_loop (type_literal k e ∷ ss) hs i a =
    let t = type_literal k e in
    let ih = api_of-convert_loop ss hs i (record a { type_stmt = a.type_stmt ++ t ∷ [] }) in
    rw (ih, append_assoc a.type_stmt (t ∷ []) (types ss)) refl
api_of-convert_loop (type_group k l es r ∷ ss) hs i a =
    let t = type_group k l es r in
    let ih = api_of-convert_loop ss hs i (record a { type_stmt = a.type_stmt ++ t ∷ [] }) in
    rw (ih, append_assoc a.type_stmt (t ∷ []) (types ss)) refl
api_of-convert_loop (service_stmt s ∷ ss) hs i a =
    let ih = api_of-convert_loop ss hs i (record a { service_stmts = a.service_stmts ++ s ∷ [] }) in
    rw (ih, append_assoc a.service_stmts (s ∷ []) (services ss)) refl
api_of-convert_loop (comment_stmt c ∷ ss) hs i a = api_of-convert_loop ss hs i a

-- `convert2API` on statements, of which there is one at least, succeeds exactly when there are no
-- two syntax statements and no two info statements among them; the result then has the syntax of
-- the first statement, the info statement, and the imports, types and services in their order.
pub convert2_api-collected :
    (filename : Text) (s : Stmt) (ss : List Stmt)
    → api_of (convert2_api filename (s ∷ ss)) ≡ (
        if leb (syntax_count (s ∷ ss)) 1 && leb (length (infos (s ∷ ss))) 1
        then some (record {
          filename = filename;
          syntax = syntax_of s;
          info = elim (infos (s ∷ ss)) [ [] ↦ none | b ∷ bs ↦ some b ];
          import_stmt = imports (s ∷ ss);
          type_stmt = types (s ∷ ss);
          service_stmts = services (s ∷ ss);
        })
        else none)
unfolding convert2_api
convert2_api-collected filename s ss = api_of-convert_loop (s ∷ ss) false none (new_api filename s)
