-- ===== src/Api/Parser/Total/Types.antt =====
-- Data types and type statements keep the rules of parsing methods.
use zctl.Base.{ℕ, zero, suc, refl}
use zctl.Api.Ast.{DataType}
use zctl.Api.Parser.{Parse}
use zctl.Api.Parser.Rules.{
  Runs, Eats, Runs-zero, Eats-bind, Eats-bind_later, Runs-bind, Runs-bind-Eats, Eats-branch,
  Runs-peek, Eats-fail, Eats-advance_if, Runs-branch, Runs-pred, Eats-peek_node, parse_rules,
}
use zctl.Api.Parser.Types.{
  parse_any_data_type, parse_interface_data_type, parse_pointer_data_type, parse_map_data_type,
  parse_array_data_type, parse_slice_data_type, elem_names, embedded, elem_type, elem_tag,
  parse_elem_expr, parse_elem_expr_list, parse_struct_data_type, parse_bracketed, parse_named,
  data_type_switch, parse_data_type, optional_assign, parse_type_expr, type_exprs,
  parse_type_expr_list, parse_type_literal_stmt, parse_type_group_stmt, parse_type_stmt,
}

Runs-embedded : (n : ℕ) → Runs n embedded
unfolding embedded
Runs-embedded n = search parse_rules

Runs-elem_tag : (n : ℕ) → Runs n elem_tag
unfolding elem_tag
Runs-elem_tag n = search parse_rules

Runs-any : (n : ℕ) → Runs n parse_any_data_type
unfolding parse_any_data_type
Runs-any n = search parse_rules

Runs-interface : (n : ℕ) → Runs n parse_interface_data_type
unfolding parse_interface_data_type
Runs-interface n = search parse_rules

Runs-elem_names : (n : ℕ) → Runs n (elem_names n)
unfolding elem_names
Runs-elem_names zero = Runs-zero _
Runs-elem_names (suc n) =
    let h = Runs-elem_names n in
    Runs-peek n _ refl _ _ (λ _. search (parse_rules) depth 20 fits 3000) (search parse_rules)

module _ (rec : Parse DataType) where
  Runs-elem_type : (n : ℕ) → Runs n rec → Runs n (elem_type rec n)
  unfolding elem_type
  Runs-elem_type n h =
      let names = Runs-elem_names n in
      let embeds = Runs-embedded n in search parse_rules depth 20 fits 3000

  Eats-elem_expr : (n : ℕ) → Runs n rec → Eats (suc n) (parse_elem_expr rec n)
  unfolding parse_elem_expr
  Eats-elem_expr n h =
      let types = Runs-elem_type n h in
      let tags = Runs-elem_tag n in
      Eats-bind n _ _ (Eats-advance_if (suc n) _ refl) (λ _. search parse_rules depth 20 fits 3000)

  Runs-elem_exprs : (n : ℕ) → Runs n rec → Runs n (parse_elem_expr_list rec n)
  unfolding parse_elem_expr_list
  Runs-elem_exprs zero h = Runs-zero _
  Runs-elem_exprs (suc n) h =
      let item = Eats-elem_expr n (Runs-pred n rec h) in
      let more = Runs-elem_exprs n (Runs-pred n rec h) in
      Runs-branch (suc n) _ _ _
        (Runs-bind (suc n) _ _ (search parse_rules)
          (λ _. Runs-bind-Eats n _ _ item (λ _. search parse_rules depth 20 fits 3000)))
        (search parse_rules)

  module _ (n : ℕ) (h : Runs n rec) where
    Runs-slice : Runs (suc n) (parse_slice_data_type rec)
    unfolding parse_slice_data_type
    Runs-slice = Runs-bind (suc n) _ _ (search parse_rules) (λ _.
        Runs-bind-Eats n _ _ (Eats-advance_if (suc n) _ refl)
          (λ _. search parse_rules depth 20 fits 3000))

    Runs-array : Runs (suc n) (parse_array_data_type rec)
    unfolding parse_array_data_type
    Runs-array = Runs-bind (suc n) _ _ (search parse_rules) (λ _.
        Runs-bind (suc n) _ _ (search parse_rules) (λ _.
          Runs-bind (suc n) _ _ (search parse_rules) (λ _.
            Runs-bind-Eats n _ _ (Eats-advance_if (suc n) _ refl)
              (λ _. search parse_rules depth 20 fits 3000))))

    Runs-map : Runs (suc n) (parse_map_data_type rec)
    unfolding parse_map_data_type
    Runs-map = Runs-bind (suc n) _ _ (search parse_rules) (λ _.
        Runs-bind (suc n) _ _ (search parse_rules) (λ _.
          Runs-bind-Eats n _ _ (Eats-advance_if (suc n) _ refl)
            (λ _. search parse_rules depth 20 fits 3000)))

    Runs-bracketed : Runs (suc n) (parse_bracketed rec)
    unfolding parse_bracketed
    Runs-bracketed =
        let slices = Runs-slice in let arrays = Runs-array in search parse_rules depth 20 fits 3000

    Runs-named : Runs (suc n) (parse_named rec)
    unfolding parse_named
    Runs-named = let maps = Runs-map in search parse_rules depth 20 fits 3000

    Runs-switch : Runs (suc n) (data_type_switch rec n)
    unfolding data_type_switch parse_struct_data_type parse_pointer_data_type
    Runs-switch =
        let elems = Runs-elem_exprs n h in
        Runs-branch (suc n) _ _ _ (Runs-any (suc n)) (
          Runs-peek n _ refl _ _ (λ _. search parse_rules depth 20 fits 3000)
            (Runs-branch (suc n) _ _ _ Runs-named (
              Runs-branch (suc n) _ _ _ Runs-bracketed (
                Runs-branch (suc n) _ _ _ (Runs-interface (suc n)) (
                  Runs-peek n _ refl _ _ (λ _. search parse_rules depth 20 fits 3000)
                    (search parse_rules))))))

Runs-data_type : (n : ℕ) → Runs n (parse_data_type n)
unfolding parse_data_type
Runs-data_type zero = Runs-zero _
Runs-data_type (suc n) = Runs-switch (parse_data_type n) n (Runs-data_type n)

Runs-assign : (n : ℕ) → Runs n optional_assign
unfolding optional_assign
Runs-assign n = search parse_rules

Eats-type_expr : (n : ℕ) → Eats (suc n) (parse_type_expr n)
unfolding parse_type_expr
Eats-type_expr n =
    let types = Runs-data_type n in
    let assigns = Runs-assign n in
    Eats-bind n _ _ (Eats-advance_if (suc n) _ refl) (λ _. search parse_rules depth 20 fits 3000)

Runs-type_exprs : (n : ℕ) → Runs n (type_exprs n)
unfolding type_exprs
Runs-type_exprs zero = Runs-zero _
Runs-type_exprs (suc n) =
    let more = Runs-type_exprs n in
    Runs-branch (suc n) _ _ _
      (Runs-bind-Eats n _ _ (Eats-type_expr n) (λ _. search parse_rules depth 20 fits 3000))
      (search parse_rules)

Eats-type_literal : (n : ℕ) → Eats (suc n) (parse_type_literal_stmt n)
unfolding parse_type_literal_stmt
Eats-type_literal n =
    Eats-bind_later (suc n) _ _ (search parse_rules)
      (λ _. Eats-bind n _ _ (Eats-type_expr n) (λ _. search parse_rules))

pub Eats-type_stmt : (n : ℕ) → Eats (suc n) (parse_type_stmt n)
unfolding parse_type_stmt parse_type_group_stmt parse_type_expr_list
Eats-type_stmt n =
    let exprs = Runs-type_exprs n in
    Eats-peek_node n _ refl _ _ (λ r _. search parse_rules depth 20 fits 3000)
      (Eats-branch (suc n) _ _ _ (Eats-type_literal n) (Eats-fail (suc n) _))
