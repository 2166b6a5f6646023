-- ===== src/Api/Parser/Total/Services.antt =====
-- Services and routes keep the rules of parsing methods.
use zctl.Base.{ℕ, zero, suc, List, [], ◌∷◌, refl}
use zctl.Api.Token.{Token}
use zctl.Api.Parser.{Expected}
use zctl.Api.Parser.Rules.{
  Runs, Eats, Runs-Eats, Runs-zero, Runs-pure, Runs-crash, Runs-fail, Eats-bind, Eats-bind_later,
  Runs-bind, Runs-bind-Eats, Runs-peek, Eats-advance_if, Runs-branch, parse_rules, Runs-deref,
  Runs-peek_ignore,
}
use zctl.Api.Parser.Routes.{
  parse_body_expr, parse_body_stmt, path_item_loop, parse_path_item, refuse_comment,
  not_expect_peek_token_got_comment, path_colon, path_tokens, path_expr, parse_path_expr,
  route_request, route_response, optional_semicolon, parse_route_stmt,
}
use zctl.Api.Parser.Services.{
  parse_at_handler_stmt, item_doc, parse_service_item_stmt, parse_service_items_stmt, name_suffix,
  parse_service_name_expr, service_at_server, parse_service,
}
use zctl.Api.Parser.Total.Values.{Eats-at_server, Runs-at_doc}

Runs-body_expr : (n : ℕ) → Runs n parse_body_expr
unfolding parse_body_expr
Runs-body_expr n = search parse_rules depth 20 fits 5000

Runs-body : (n : ℕ) → Runs n parse_body_stmt
unfolding parse_body_stmt
Runs-body n = let expr = Runs-body_expr n in search parse_rules depth 20 fits 3000

Runs-path_item_loop : (n : ℕ) → Runs n (path_item_loop n)
unfolding path_item_loop
Runs-path_item_loop zero = Runs-zero _
Runs-path_item_loop (suc n) =
    let more = Runs-path_item_loop n in
    Runs-branch (suc n) _ _ _
      (Runs-peek n _ refl _ _ (λ _. search parse_rules depth 20 fits 3000)
        (Runs-branch (suc n) _ _ _ (search parse_rules) (
          Runs-bind-Eats n _ _ (Eats-advance_if (suc n) _ refl)
            (λ _. search parse_rules depth 20 fits 3000))))
      (search parse_rules)

Runs-path_item : (n : ℕ) → Runs n (parse_path_item n)
unfolding parse_path_item
Runs-path_item n = let more = Runs-path_item_loop n in search parse_rules depth 20 fits 3000

Runs-refuse_comment : (n : ℕ) (es : List Expected) (cs : List Token) → Runs n (refuse_comment es cs)
Runs-refuse_comment n es [] = Runs-pure n tt
Runs-refuse_comment n es (c ∷ cs) = Runs-fail n _

Runs-got_comment : (n : ℕ) (es : List Expected) → Runs n (not_expect_peek_token_got_comment es)
unfolding not_expect_peek_token_got_comment
Runs-got_comment n es = Runs-bind n _ _ (Runs-deref n) (λ t. Runs-refuse_comment n es t.leading)

Runs-path_colon : (n : ℕ) → Runs n path_colon
unfolding path_colon
Runs-path_colon n = search parse_rules depth 20 fits 3000

Runs-path_tokens : (n : ℕ) → Runs n (path_tokens n)
unfolding path_tokens
Runs-path_tokens zero = Runs-zero _
Runs-path_tokens (suc n) =
    let more = Runs-path_tokens n in
    let item = Runs-path_item n in
    let colon = Runs-path_colon n in
    let comments = Runs-got_comment n in
    Runs-branch (suc n) _ _ _
      (Runs-bind-Eats n _ _ (Eats-advance_if (suc n) _ refl)
        (λ _. search (parse_rules, comments) depth 20 fits 5000))
      (search parse_rules)

Runs-path_end : (n : ℕ) (ts : List Token) → Runs n (path_expr ts)
unfolding path_expr
Runs-path_end n [] = Runs-crash n
Runs-path_end n (t ∷ ts) = search parse_rules depth 20 fits 3000

Runs-path : (n : ℕ) → Runs n (parse_path_expr n)
unfolding parse_path_expr
Runs-path n = Runs-bind n _ _ (Runs-path_tokens n) (Runs-path_end n)

Runs-request : (n : ℕ) → Runs n route_request
unfolding route_request
Runs-request n = let body = Runs-body n in search parse_rules depth 20 fits 3000

Runs-response : (n : ℕ) → Runs n route_response
unfolding route_response
Runs-response n = let body = Runs-body n in search parse_rules depth 20 fits 3000

Runs-route : (n : ℕ) → Runs n (parse_route_stmt n)
unfolding parse_route_stmt optional_semicolon
Runs-route n =
    let path = Runs-path n in
    let request = Runs-request n in
    let response = Runs-response n in search (parse_rules, Runs-peek_ignore) depth 20 fits 5000

Runs-handler : (n : ℕ) → Runs n parse_at_handler_stmt
unfolding parse_at_handler_stmt
Runs-handler n = search parse_rules depth 20 fits 3000

Runs-item_doc : (n : ℕ) → Runs (suc n) (item_doc n)
unfolding item_doc
Runs-item_doc n = let doc = Runs-at_doc n in search parse_rules depth 20 fits 3000

Eats-item : (n : ℕ) → Eats (suc n) (parse_service_item_stmt n)
unfolding parse_service_item_stmt
Eats-item n =
    let route = Runs-route n in
    let handler = Runs-handler n in
    Eats-bind_later (suc n) _ _ (Runs-item_doc n) (λ _.
      Eats-bind n _ _ (Eats-advance_if (suc n) _ refl) (λ _. search parse_rules depth 20 fits 3000))

Runs-items : (n : ℕ) → Runs n (parse_service_items_stmt n)
unfolding parse_service_items_stmt
Runs-items zero = Runs-zero _
Runs-items (suc n) =
    let more = Runs-items n in
    Runs-branch (suc n) _ _ _
      (Runs-bind-Eats n _ _ (Eats-item n) (λ _. search parse_rules depth 20 fits 3000))
      (search parse_rules)

Runs-suffix : (n : ℕ) → Runs n name_suffix
unfolding name_suffix
Runs-suffix n = search parse_rules depth 20 fits 3000

Runs-service_name : (n : ℕ) → Runs n parse_service_name_expr
unfolding parse_service_name_expr
Runs-service_name n = let suffix = Runs-suffix n in search parse_rules depth 20 fits 3000

Runs-service_at_server : (n : ℕ) → Runs (suc n) (service_at_server n)
unfolding service_at_server
Runs-service_at_server n =
    let block = Runs-Eats (suc n) _ (Eats-at_server n) in search parse_rules depth 20 fits 3000

pub Eats-service : (n : ℕ) → Eats (suc n) (parse_service n)
unfolding parse_service
Eats-service n =
    let items = Runs-items n in
    let name = Runs-service_name n in
    Eats-bind_later (suc n) _ _ (Runs-service_at_server n) (λ _.
      Eats-bind_later (suc n) _ _ (search parse_rules) (λ _.
        Eats-bind n _ _ (Eats-advance_if (suc n) _ refl)
          (λ _. search parse_rules depth 20 fits 3000)))
