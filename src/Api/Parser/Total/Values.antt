-- ===== src/Api/Parser/Total/Values.antt =====
-- Blocks of pairs keep the rules of parsing methods.
use zctl.Base.{ℕ, zero, suc, ◌≡◌, true, List, [], ◌∷◌, refl}
use zctl.Api.Token.{TokenType, Token, sub, comma}
use zctl.Api.Ast.{KvExpr}
use zctl.Api.Parser.{Parse, is_type}
use zctl.Api.Parser.Rules.{
  Runs, Eats, Runs-Eats, Runs-zero, Eats-bind, Eats-bind_later, Runs-bind-Eats, Runs-peek,
  Eats-advance_if, Runs-branch, parse_rules, is_solid,
}
use zctl.Api.Parser.Values.{
  parse_kv_expression, path_part, path_loop, joined_loop, single_value, slash_value, name_value,
  at_server_value, parse_at_server_kv_expression, kv_loop, kv_block, parse_info_stmt,
  parse_at_server_stmt, parse_at_doc_group_stmt, parse_at_doc_literal_stmt, parse_at_doc_stmt,
}

Eats-kv : (n : ℕ) → Eats (suc n) parse_kv_expression
unfolding parse_kv_expression
Eats-kv n =
    Eats-bind n _ _ (Eats-advance_if (suc n) _ refl) (λ _. search parse_rules depth 20 fits 3000)

Runs-path_part : (n : ℕ) → Runs n path_part
unfolding path_part
Runs-path_part n = search parse_rules depth 20 fits 3000

Runs-path_loop : (n : ℕ) (t : Token) (cs : List Token) → Runs n (path_loop n t cs)
unfolding path_loop
Runs-path_loop zero t cs = Runs-zero _
Runs-path_loop (suc n) t cs =
    let more = Runs-path_loop n in
    let part = Runs-path_part n in
    Runs-peek n _ refl _ _ (λ _. search (parse_rules, more) depth 20 fits 3000) (search parse_rules)

Runs-joined_loop :
    (sep : TokenType)
    → is_solid (is_type sep ∷ []) ≡ true
    → (n : ℕ) (t : Token) (cs : List Token) → Runs n (joined_loop sep n t cs)
unfolding joined_loop
Runs-joined_loop sep h zero t cs = Runs-zero _
Runs-joined_loop sep h (suc n) t cs =
    let more = Runs-joined_loop sep h n in
    Runs-peek n _ h _ _ (λ _. search (parse_rules, more) depth 20 fits 3000) (search parse_rules)

Runs-single_value : (n : ℕ) → Runs n single_value
unfolding single_value
Runs-single_value n = search parse_rules depth 20 fits 3000

Runs-value : (n : ℕ) → Runs n (at_server_value n)
unfolding at_server_value slash_value name_value
Runs-value n =
    let single = Runs-single_value n in
    let loops = Runs-path_loop n in
    let commas = Runs-joined_loop comma refl n in
    let subs = Runs-joined_loop sub refl n in
    let part = Runs-path_part n in search (parse_rules, loops, commas, subs) depth 20 fits 5000

Eats-at_server_kv : (n : ℕ) → Eats (suc n) (parse_at_server_kv_expression n)
unfolding parse_at_server_kv_expression
Eats-at_server_kv n =
    let value = Runs-value n in
    Eats-bind n _ _ (Eats-advance_if (suc n) _ refl) (λ _. search parse_rules depth 20 fits 3000)

Runs-kv_loop :
    (item : ℕ → Parse KvExpr)
    → ((n : ℕ) → Eats (suc n) (item n))
    → (n : ℕ) → Runs n (kv_loop item n)
unfolding kv_loop
Runs-kv_loop item h zero = Runs-zero _
Runs-kv_loop item h (suc n) =
    let more = Runs-kv_loop item h n in
    Runs-branch (suc n) _ _ _
      (Runs-bind-Eats n _ _ (h n) (λ _. search parse_rules depth 20 fits 3000)) (search parse_rules)

Eats-kv_block :
    (item : ℕ → Parse KvExpr)
    → ((n : ℕ) → Eats (suc n) (item n))
    → (n : ℕ) → Eats (suc n) (kv_block item n)
unfolding kv_block
Eats-kv_block item h n =
    let pairs = Runs-kv_loop item h n in
    Eats-bind_later (suc n) _ _ (search parse_rules) (λ _.
      Eats-bind n _ _ (Eats-advance_if (suc n) _ refl) (λ _. search parse_rules depth 20 fits 3000))

pub Eats-info : (n : ℕ) → Eats (suc n) (parse_info_stmt n)
unfolding parse_info_stmt
Eats-info n = Eats-kv_block (λ g. parse_kv_expression) Eats-kv n

pub Eats-at_server : (n : ℕ) → Eats (suc n) (parse_at_server_stmt n)
unfolding parse_at_server_stmt
Eats-at_server n = Eats-kv_block parse_at_server_kv_expression Eats-at_server_kv n

pub Runs-at_doc : (n : ℕ) → Runs (suc n) (parse_at_doc_stmt n)
unfolding parse_at_doc_stmt parse_at_doc_group_stmt parse_at_doc_literal_stmt
Runs-at_doc n =
    let block = Runs-Eats (suc n) _ (Eats-kv_block (λ g. parse_kv_expression) Eats-kv n) in
    search parse_rules depth 20 fits 3000
