-- ===== src/Api/Filter/Duplicates.antt =====
-- The filter against a plain test of all pairs.
use zctl.Base.{
  Bool, true, false, not, ◌&&◌, ◌||◌, List, [], ◌∷◌, ◌++◌, Option, none, some, Text, text_eq,
  text_eq_iff, ◌≡◌, refl, ◌∙◌, ap, arith, inl, inr, Bool-cases, map,
}
use zctl.Base.Int.{ℤ, pos, negsuc}
use zctl.Api.Token.{Position}
use zctl.Api.Ast.{TokenNode}
use zctl.Api.Parser.{ℤ_eq}
use zctl.Api.Filter.{
  FilterBuilder, CheckError, position_eq, find_position, joined, fits, is_fresh, check_node,
  check_node_with_prefix, add_check_item,
}

-- Two nodes with one text stand at one position.
abbrev agrees : TokenNode → TokenNode → Bool
agrees n k = not (text_eq k.tok.text n.tok.text) || position_eq n.tok.position k.tok.position

abbrev agrees_all : TokenNode → List TokenNode → Bool
agrees_all n [] = true
agrees_all n (k ∷ ks) = agrees n k && agrees_all n ks

-- No two nodes have one text at two positions.
unfoldable pub is_unambiguous : List TokenNode → Bool
is_unambiguous [] = true
is_unambiguous (n ∷ ns) = agrees_all n ns && is_unambiguous ns

ℤ_eq_sound : (y z : ℤ) → ℤ_eq y z ≡ true → y ≡ z
ℤ_eq_sound (pos a) (pos b) h = ground arith
ℤ_eq_sound (negsuc a) (negsuc b) h = ground arith
ℤ_eq_sound (pos a) (negsuc b) h = cc
ℤ_eq_sound (negsuc a) (pos b) h = cc

position_ext :
    (p q : Position) → p.filename ≡ q.filename → p.line ≡ q.line → p.column ≡ q.column → p ≡ q
position_ext p q e f g = cc

position_eq_sound : (p q : Position) → position_eq p q ≡ true → p ≡ q
unfolding position_eq
position_eq_sound p q h =
    let a : text_eq p.filename q.filename ≡ true = ground (arith, h) in
    let b : p.line ≡ q.line = ground (arith, h) in
    let c : ℤ_eq p.column q.column ≡ true = ground (arith, h) in
    position_ext p q ((text_eq_iff p.filename q.filename).0 a) b (ℤ_eq_sound p.column q.column c)

joined-injective : (prefix s t : Text) → text_eq (joined prefix s) (joined prefix t) ≡ text_eq s t
unfolding text_eq
joined-injective [] s t = ground arith
joined-injective (c ∷ cs) s t = ground (arith, joined-injective cs s t)

fits_again :
    (o : Option Position) (p q : Position)
    → fits o p ≡ true
    → position_eq p q ≡ (fits o q && position_eq p q)
fits_again none p q h = refl
fits_again (some r) p q h = rw (position_eq_sound r p h) ground arith

-- What a new entry changes for the nodes to come.
is_fresh_next :
    (prefix : Text) (m : List (Text × Position)) (n k : TokenNode)
    → is_fresh m (joined prefix n.tok.text) n.tok.position ≡ true
    → is_fresh
        ((joined prefix n.tok.text, n.tok.position) ∷ m)
        (joined prefix k.tok.text)
        k.tok.position
      ≡ (is_fresh m (joined prefix k.tok.text) k.tok.position && agrees n k)
unfolding is_fresh find_position
is_fresh_next prefix m n k h =
    let j = joined-injective prefix k.tok.text n.tok.text in
    elim (Bool-cases (text_eq k.tok.text n.tok.text)) [
      | inl e ↦
          let x = (text_eq_iff k.tok.text n.tok.text).0 e in
          let y =
            fits_again (find_position (joined prefix n.tok.text) m) n.tok.position k.tok.position
              h in
          rw (j, e, x) y
      | inr e ↦ rw (j, e) ground (arith, e)
    ]

-- The builder behind a list of nodes that are not nil.
check_nodes : Text → List TokenNode → FilterBuilder → FilterBuilder
check_nodes prefix [] b = b
check_nodes prefix (n ∷ ns) b = check_nodes prefix ns (check_node prefix n b)

module _ (prefix : Text) where
  fresh_all : List (Text × Position) → List TokenNode → Bool
  fresh_all m [] = true
  fresh_all m (n ∷ ns) = is_fresh m (joined prefix n.tok.text) n.tok.position && fresh_all m ns

  abbrev entry : TokenNode → Text × Position
  entry n = (joined prefix n.tok.text, n.tok.position)

  fresh_all_next :
      (m : List (Text × Position)) (n : TokenNode) (ns : List TokenNode)
      → is_fresh m (joined prefix n.tok.text) n.tok.position ≡ true
      → fresh_all (entry n ∷ m) ns ≡ (fresh_all m ns && agrees_all n ns)
  unfolding fresh_all
  fresh_all_next m n [] h = refl
  fresh_all_next m n (k ∷ ks) h =
      rw (is_fresh_next prefix m n k h, fresh_all_next m n ks h) ground arith

  -- No error comes of the nodes.
  clean : List (Text × Position) → List TokenNode → Bool
  clean m [] = true
  clean m (n ∷ ns) = is_fresh m (joined prefix n.tok.text) n.tok.position && clean (entry n ∷ m) ns

  clean_pairs :
      (m : List (Text × Position)) (ns : List TokenNode)
      → clean m ns ≡ (fresh_all m ns && is_unambiguous ns)
  unfolding clean fresh_all is_unambiguous
  clean_pairs m [] = refl
  clean_pairs m (n ∷ ns) =
      elim (Bool-cases (is_fresh m (joined prefix n.tok.text) n.tok.position)) [
        | inl e ↦ rw (e, clean_pairs (entry n ∷ m) ns, fresh_all_next m n ns e) ground arith
        | inr e ↦ rw e refl
      ]

  fresh_all_nil : (ns : List TokenNode) → fresh_all [] ns ≡ true
  unfolding fresh_all is_fresh find_position
  fresh_all_nil [] = refl
  fresh_all_nil (n ∷ ns) = fresh_all_nil ns

abbrev pub is_empty : List CheckError → Bool
is_empty [] = true
is_empty (e ∷ es) = false

is_empty-append : (es : List CheckError) (e : CheckError) → is_empty (es ++ e ∷ []) ≡ false
is_empty-append [] e = refl
is_empty-append (x ∷ es) e = refl

check_nodes-clean :
    (prefix : Text) (ns : List TokenNode) (b : FilterBuilder)
    → is_empty (check_nodes prefix ns b).errors ≡ (is_empty b.errors && clean prefix b.m ns)
unfolding check_nodes clean check_node
check_nodes-clean prefix [] b = ground arith
check_nodes-clean prefix (n ∷ ns) b =
    let ih = check_nodes-clean prefix ns in
    elim (Bool-cases (is_fresh b.m (joined prefix n.tok.text) n.tok.position)) [
      | inl e ↦ rw (ih, check_node, e) refl
      | inr e ↦ rw (ih, check_node, e, is_empty-append b.errors) ground arith
    ]

check_node_with_prefix-map :
    (prefix : Text) (ns : List TokenNode) (b : FilterBuilder)
    → check_node_with_prefix prefix (map some ns) b ≡ some (check_nodes prefix ns b)
unfolding check_node_with_prefix check_nodes
check_node_with_prefix-map prefix [] b = refl
check_node_with_prefix-map prefix (n ∷ ns) b =
    check_node_with_prefix-map prefix ns (check_node prefix n b)

-- `checkNodeWithPrefix` on a new builder and nodes that are not nil adds an error exactly when two
-- of the nodes have one text and stand at two positions, whatever the prefix.
pub check_node_with_prefix-is_unambiguous :
    (prefix filename name : Text) (ns : List TokenNode)
    → (b : FilterBuilder) × (check_node_with_prefix prefix
          (map some ns)
          (add_check_item filename name)
        ≡ some b)
      × (is_empty b.errors ≡ is_unambiguous ns)
check_node_with_prefix-is_unambiguous prefix filename name ns =
    let b = add_check_item filename name in
    let c = check_nodes-clean prefix ns b in
    let d = clean_pairs prefix [] ns in
    (
      check_nodes prefix ns b,
      check_node_with_prefix-map prefix ns b,
      c ∙ d ∙ ap (λ x. x && is_unambiguous ns) (fresh_all_nil prefix ns),
    )
