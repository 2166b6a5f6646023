-- ===== src/Api/Parser/Safety.antt =====
-- pkg/parser/api/parser/parser.go: `nextToken` does not panic, since the current token has a node.
use zctl.Base.{
  ℕ, zero, suc, true, List, [], ◌∷◌, ◌++◌, Option, some, none, Text, ◌≡◌, refl, sym, subst, arith,
  inl, inr, text_eq, text_eq_iff, Bool-cases, ◌⊎◌,
}
use zctl.Base.Int.{ℤ, pos, negsuc}
use zctl.Api.Token.{Token, token_bg, eof}
use zctl.Api.Ast.{TokenNode}
use zctl.Api.Scanner.{ScanError, Scanned, scanned, failed, panicked, out_of_fuel, rounds}
use zctl.Api.Scanner.Invariant.{IsValid}
use zctl.Api.Scanner.Next.{next_token}
use zctl.Api.Parser.{
  Parser, ParseError, Parsed, parsed, nil, crashed, no_fuel, Commented, behind_comments,
  comments_failed, scan_failed, comments_crashed, comments_starved, comment_loop, set_leading,
  get_node, token_eq, type_eq, with_leading, take_peek, read_peek, next_from, advance, ℤ_eq,
  is_comment,
}
use zctl.Api.Parser.Progress.{room, next_token-Within, comment_loop-Settled, Settled}

ℤ_eq_refl : (z : ℤ) → ℤ_eq z z ≡ true
ℤ_eq_refl (pos n) = ground arith
ℤ_eq_refl (negsuc n) = ground arith

text_eq_refl : (t : Text) → text_eq t t ≡ true
text_eq_refl t = (text_eq_iff t t).1 refl

token_eq_refl : (t : Token) → token_eq t t ≡ true
unfolding token_eq type_eq
token_eq_refl t =
    let a = text_eq_refl t.text in
    let b = text_eq_refl t.position.filename in
    let c = ℤ_eq_refl t.position.column in ground (arith, a, b, c)

-- The current token is the head or the end of a file, or has a node.
unfoldable pub HasNode : Parser → Type 0
HasNode p =
    (type_eq p.cur_tok.type token_bg ≡ true)
    ⊎ (type_eq p.cur_tok.type eof ≡ true)
    ⊎ ((n : TokenNode) × (get_node p.cur_tok p.node ≡ some n))

-- What `nextToken` comes to when the token peeked at before was `t`.
abbrev Advanced : Token → List ParseError → Parsed (Unit {0}) → Type 0
Advanced t es (parsed a q) = (q.cur_tok ≡ t) × HasNode q × (q.errors ≡ es)
Advanced t es (nil q) = (e : ScanError) × (q.errors ≡ es ++ scan_failed e ∷ [])
Advanced t es crashed = ⊥
Advanced t es no_fuel = ⊥

-- The node of the current token is the latest of the map.
abbrev IsHeaded : Parser → Type 0
IsHeaded p = (n : TokenNode) × (ns : List TokenNode) × (p.node ≡ n ∷ ns) × (n.tok ≡ p.cur_tok)

get_node_head : (n : TokenNode) (ns : List TokenNode) → get_node n.tok (n ∷ ns) ≡ some n
unfolding get_node
get_node_head n ns = rw (token_eq_refl n.tok, get_node) refl

set_leading_head :
    (n : TokenNode) (ns : List TokenNode) (cs : List Token)
    → set_leading n.tok cs (n ∷ ns) ≡ some (record n { leading = cs } ∷ ns)
unfolding set_leading
set_leading_head n ns cs = rw (token_eq_refl n.tok, set_leading) refl

set_leading_headed :
    (n : TokenNode) (ns : List TokenNode) (cs : List Token) (p : Parser)
    → p.node ≡ n ∷ ns
    → n.tok ≡ p.cur_tok
    → set_leading p.cur_tok cs p.node ≡ some (record n { leading = cs } ∷ ns)
set_leading_headed n ns cs p e f = cc (set_leading_head n ns cs)

get_node_headed :
    (n : TokenNode) (ns : List TokenNode) (p : Parser)
    → p.node ≡ n ∷ ns
    → n.tok ≡ p.cur_tok
    → get_node p.cur_tok p.node ≡ some n
get_node_headed n ns p e f = cc (get_node_head n ns)

IsHeaded-HasNode : (p : Parser) → IsHeaded p → HasNode p
unfolding HasNode
IsHeaded-HasNode p (n, ns, e, f) = inr (inr (n, get_node_headed n ns p e f))

with_leading-Advanced :
    (cs : List Token) (p : Parser)
    → HasNode p
    → (cs ≡ []) ⊎ IsHeaded p
    → Advanced p.cur_tok p.errors (with_leading cs p)
unfolding with_leading
with_leading-Advanced [] p h k = (refl, h, refl)
with_leading-Advanced (c ∷ cs) p h (inl e) = cc
with_leading-Advanced (c ∷ cs) p h (inr (n, ns, e, f)) =
    let m = record n { leading = c ∷ cs } in
    rw (set_leading_headed n ns (c ∷ cs) p e f, with_leading)
      (refl, IsHeaded-HasNode (record p { node = m ∷ ns }) (m, ns, refl, f), refl)

-- Comments come into the node of the current token only where there is one.
abbrev Led : Parser → Commented → Type 0
Led p (behind_comments t s leading head) = (leading ≡ []) ⊎ IsHeaded p
Led p _ = Unit

comment_loop-Led :
    (p : Parser) (f : ℕ) (r : Scanned) (head : List Token) → Led p (comment_loop f none r [] head)
unfolding comment_loop
comment_loop-Led p zero r head = tt
comment_loop-Led p (suc f) (scanned t s) head = elim (Bool-cases (is_comment t)) [
  | inl e ↦ rw (e, comment_loop) (comment_loop-Led p f (next_token s) (head ++ t ∷ []))
  | inr e ↦ rw (e, comment_loop) (inl refl)
]
comment_loop-Led p (suc f) (failed e s) head = tt
comment_loop-Led p (suc f) panicked head = tt
comment_loop-Led p (suc f) out_of_fuel head = tt

IsHeaded-Led : (p : Parser) (c : Commented) → IsHeaded p → Led p c
IsHeaded-Led p (behind_comments t s leading head) h = inr h
IsHeaded-Led p (comments_failed e s head) h = tt
IsHeaded-Led p comments_crashed h = tt
IsHeaded-Led p comments_starved h = tt

take_peek-Advanced :
    (n : ℕ) (p : Parser) (c : Commented)
    → Settled n c
    → Led p c
    → HasNode p
    → Advanced p.cur_tok p.errors (take_peek p c)
unfolding take_peek HasNode
take_peek-Advanced n p (behind_comments t s leading head) w l h =
    with_leading-Advanced leading
      (record p { peek_tok = t; scanner = s; head_comment_group = head }) h l
take_peek-Advanced n p (comments_failed e s head) w l h = (e, refl)
take_peek-Advanced n p comments_crashed w l h = w
take_peek-Advanced n p comments_starved w l h = w

read_peek-Advanced :
    (line : Option ℕ) (p : Parser)
    → IsValid p.scanner
    → HasNode p
    → (line ≡ none) ⊎ IsHeaded p
    → Advanced p.cur_tok p.errors (read_peek line p)
unfolding read_peek
read_peek-Advanced line p v h k =
    let loop = λ (l : Option ℕ).
      comment_loop (suc (rounds p.scanner)) l (next_token p.scanner) [] p.head_comment_group in
    let w =
      comment_loop-Settled (suc (rounds p.scanner)) (room p.scanner) line (next_token p.scanner) []
        p.head_comment_group (omega arith) (next_token-Within p.scanner v) in
    let led = elim k as (λ _. Led p (loop line)) [
      | inl e ↦
          subst (λ l. Led p (loop l)) (sym e)
            (comment_loop-Led p (suc (rounds p.scanner)) (next_token p.scanner)
              p.head_comment_group)
      | inr g ↦ IsHeaded-Led p (loop line) g
    ] in
    take_peek-Advanced (room p.scanner) p (loop line) w led h

advance-Advanced : (p : Parser) → IsValid p.scanner → Advanced p.peek_tok p.errors (advance p)
unfolding advance next_from HasNode
advance-Advanced p v =
    let q = record p { cur_tok = p.peek_tok } in
    elim (Bool-cases (type_eq p.peek_tok.type token_bg)) [
      | inl e ↦ rw (e, advance, next_from) (read_peek-Advanced none q v (inl e) (inl refl))
      | inr e ↦ elim (Bool-cases (type_eq p.peek_tok.type eof)) [
        | inl z ↦ rw (e, z, advance, next_from) (refl, inr (inl z), refl)
        | inr z ↦
            let n : TokenNode = record {
              head = p.head_comment_group;
              tok = p.peek_tok;
              leading = [];
            } in
            let r = record q { node = n ∷ p.node; head_comment_group = [] } in
            let h : IsHeaded r = (n, p.node, refl, refl) in
            rw (e, z, advance, next_from)
              (read_peek-Advanced (some p.peek_tok.position.line) r v (IsHeaded-HasNode r h)
                (inr h))
      ]
    ]

Advanced-cases :
    (t : Token) (es : List ParseError) (r : Parsed (Unit {0}))
    → Advanced t es r
    → ((q : Parser) × (r ≡ parsed tt q) × (q.cur_tok ≡ t) × HasNode q × (q.errors ≡ es))
      ⊎ ((e : ScanError) × (q : Parser) × (r ≡ nil q) × (q.errors ≡ es ++ scan_failed e ∷ []))
Advanced-cases t es (parsed tt q) (c, h, e) = inl (q, refl, c, h, e)
Advanced-cases t es (nil q) (e, h) = inr (e, q, refl, h)
Advanced-cases t es crashed h = absurd h
Advanced-cases t es no_fuel h = absurd h

-- `nextToken` on a valid scanner takes the token peeked at for the current one, which has a node
-- unless it is the head or the end of a file, and keeps the errors; or it adds the one error of the
-- scanner and returns false. It neither panics nor runs on.
pub advance_safe :
    (p : Parser)
    → IsValid p.scanner
    → ((q : Parser) × (advance p ≡ parsed tt q)
        × (q.cur_tok ≡ p.peek_tok)
        × HasNode q
        × (q.errors ≡ p.errors))
      ⊎ ((e : ScanError) × (q : Parser) × (advance p ≡ nil q)
          × (q.errors ≡ p.errors ++ scan_failed e ∷ []))
advance_safe p v = Advanced-cases p.peek_tok p.errors (advance p) (advance-Advanced p v)
