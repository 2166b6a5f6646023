-- ===== src/Api/Parser/Total/Stmts.antt =====
-- The statements of a file keep the rules of parsing methods, and so does `Parse`.
use zctl.Base.{ℕ, zero, suc, refl, arith}
use zctl.Api.Ast.{Stmt}
use zctl.Api.Parser.Rules.{
  Runs, Eats, Runs-zero, Eats-bind, Eats-bind_later, Runs-bind-Eats, Eats-branch, Eats-fail,
  Eats-advance_if, Runs-branch, parse_rules,
}
use zctl.Api.Parser.Stmts.{
  parse_syntax_stmt, parse_import_literal_stmt, import_values, parse_import_group_stmt,
  parse_import_stmt, parse_service_stmt, parse_ident_stmt, parse_stmt, append_stmt, stmt_loop,
  parse,
}
use zctl.Api.Parser.Total.Types.{Eats-type_stmt}
use zctl.Api.Parser.Total.Values.{Eats-info}
use zctl.Api.Parser.Total.Services.{Eats-service}

Eats-syntax : (n : ℕ) → Eats (suc n) parse_syntax_stmt
unfolding parse_syntax_stmt
Eats-syntax n = Eats-bind_later (suc n) _ _ (search parse_rules) (λ _.
    Eats-bind n _ _ (Eats-advance_if (suc n) _ refl) (λ _. search parse_rules depth 20 fits 3000))

Runs-import_values : (n : ℕ) → Runs n (import_values n)
unfolding import_values
Runs-import_values zero = Runs-zero _
Runs-import_values (suc n) =
    let more = Runs-import_values n in
    Runs-branch (suc n) _ _ _
      (Runs-bind-Eats n _ _ (Eats-advance_if (suc n) _ refl)
        (λ _. search parse_rules depth 20 fits 3000))
      (search parse_rules)

Eats-import_literal : (n : ℕ) → Eats (suc n) parse_import_literal_stmt
unfolding parse_import_literal_stmt
Eats-import_literal n = Eats-bind_later (suc n) _ _ (search parse_rules) (λ _.
    Eats-bind n _ _ (Eats-advance_if (suc n) _ refl) (λ _. search parse_rules depth 20 fits 3000))

Eats-import_group : (n : ℕ) → Eats (suc n) (parse_import_group_stmt n)
unfolding parse_import_group_stmt
Eats-import_group n =
    let values = Runs-import_values n in
    Eats-bind_later (suc n) _ _ (search parse_rules) (λ _.
      Eats-bind n _ _ (Eats-advance_if (suc n) _ refl) (λ _. search parse_rules depth 20 fits 3000))

Eats-import : (n : ℕ) → Eats (suc n) (parse_import_stmt n)
unfolding parse_import_stmt
Eats-import n =
    Eats-bind_later (suc n) _ _ (search parse_rules)
      (λ _. Eats-branch (suc n) _ _ _ (Eats-import_group n) (Eats-import_literal n))

Eats-service_stmt : (n : ℕ) → Eats (suc n) (parse_service_stmt n)
unfolding parse_service_stmt
Eats-service_stmt n = Eats-bind n _ _ (Eats-service n) (λ _. search parse_rules)

Eats-ident : (n : ℕ) → Eats (suc n) (parse_ident_stmt n)
unfolding parse_ident_stmt
Eats-ident n = Eats-branch (suc n) _ _ _ (Eats-syntax n) (
    Eats-branch (suc n) _ _ _ (Eats-bind n _ _ (Eats-info n) (λ _. search parse_rules)) (
      Eats-branch (suc n) _ _ _ (Eats-service_stmt n) (
        Eats-branch (suc n) _ _ _ (Eats-type_stmt n)
          (Eats-branch (suc n) _ _ _ (Eats-import n) (Eats-fail (suc n) _)))))

pub Eats-stmt : (n : ℕ) → Eats (suc n) (parse_stmt n)
unfolding parse_stmt
Eats-stmt n =
    Eats-branch (suc n) _ _ _ (Eats-ident n)
      (Eats-branch (suc n) _ _ _ (Eats-service_stmt n) (Eats-fail (suc n) _))

Runs-append : (n : ℕ) (s : Stmt) → Runs n (append_stmt s)
unfolding append_stmt
Runs-append n s = record { at = λ p v l. (v, omega arith, omega arith) }

Runs-stmt_loop : (n : ℕ) → Runs n (stmt_loop n)
unfolding stmt_loop
Runs-stmt_loop zero = Runs-zero _
Runs-stmt_loop (suc n) =
    let more = Runs-stmt_loop n in
    let append = Runs-append n in
    Runs-branch (suc n) _ _ _
      (Runs-bind-Eats n _ _ (Eats-stmt n) (λ _. search parse_rules depth 20 fits 3000))
      (search parse_rules)

pub Runs-parse : (n : ℕ) → Runs n (parse n)
unfolding parse
Runs-parse n = let loop = Runs-stmt_loop n in search parse_rules depth 20 fits 3000
