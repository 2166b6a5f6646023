-- ===== src/Api/Parser/Rules/Tokens.antt =====
-- The rules for the methods on tokens.
use zctl.Base.{
  ℕ, suc, ◌+◌, ◌≤◌, ◌<◌, Bool, true, false, ◌&&◌, List, [], ◌∷◌, Option, none, some, ◌≡◌, refl, ap,
  arith, length, length-append,
}
use zctl.Api.Token.{TokenType, Token, illegal, eof, ordinal}
use zctl.Api.Ast.{NodeRef}
use zctl.Api.Scanner.Invariant.{IsValid}
use zctl.Api.Parser.{
  Parser, Parse, Parsed, parsed, nil, crashed, no_fuel, Expected, is_type, is_text, continue, ◌>>=◌,
  pure, fail, branch, ignore, drop_result, matches, peek_token_is, advance, peek_error,
  expect_peek_token, not_expect_peek_token, advance_if_peek_token_is, cur_token_node, get_node,
  deref_cur_token_node, or_crash, refuse, refuse_keyword, type_eq,
}
use zctl.Api.Parser.Progress.{rank, room, left, Stepped, advance-Stepped, advance-Stepped_any}
use zctl.Api.Parser.Rules.Build.{
  Post, Runs, Eats, Runs-zero, Runs-pure, Runs-gets, Runs-crash, Runs-fail, Runs-branch, Runs-bind,
  Post-branch, Post-continue, Post-weaken,
}

-- The types of tokens that can be read past.
abbrev pub is_readable : TokenType → Bool
is_readable eof = false
is_readable illegal = false
is_readable _ = true

readable_ordinal :
    (tp : TokenType)
    → is_readable tp ≡ true
    → (type_eq tp eof ≡ false) × (type_eq tp illegal ≡ false)
unfolding type_eq ordinal
readable_ordinal eof h = cc
readable_ordinal illegal h = cc
readable_ordinal _ h = (refl, refl)

abbrev pub is_solid : List Expected → Bool
is_solid [] = true
is_solid (is_type tp ∷ es) = is_readable tp && is_solid es
is_solid (is_text t ∷ es) = false

solid_rank :
    (t : Token) (es : List Expected) → is_solid es ≡ true → matches t es ≡ true → rank t ≡ 1
unfolding matches rank type_eq
solid_rank t [] s h = cc
solid_rank t (is_type tp ∷ es) s h = ground (arith, solid_rank t es, readable_ordinal tp)
solid_rank t (is_text x ∷ es) s h = cc

Stepped-Post :
    (n d : ℕ) (p : Parser) (r : Parsed (Unit {0})) → n + d ≤ left p → Stepped n p r → Post d p r
Stepped-Post n d p (parsed a q) l (v, k, e) = (v, omega arith, omega (arith, ap length e))
Stepped-Post n d p (nil q) l h = h.2
Stepped-Post n d p crashed l h = h
Stepped-Post n d p no_fuel l h = h

pub Runs-advance : (n : ℕ) → Runs n advance
Runs-advance n = record {
  at = λ p v l. Stepped-Post (left p) 0 p (advance p) (omega arith) (advance-Stepped_any p v);
}

advance_solid : (p : Parser) → IsValid p.scanner → rank p.peek_tok ≡ 1 → Post 1 p (advance p)
advance_solid p v h =
    Stepped-Post (room p.scanner) 1 p (advance p) (omega arith) (advance-Stepped p v h)

-- A token is seen, and read past.
module _ {A : Type 0} (n : ℕ) (es : List Expected) (solid : is_solid es ≡ true) where
  peek_branch_at :
      (k : Unit {0} → Parse A) (other : Parse A)
      → ((a : Unit {0}) → Runs n (k a))
      → Eats (suc n) other
      → (p : Parser) → IsValid p.scanner
      → left p < suc n
      → Post 1 p (branch (peek_token_is es) (advance >>= k) other p)
  unfolding branch ◌>>=◌ peek_token_is
  peek_branch_at k other f g p v l =
      Post-branch 1 p (matches p.peek_tok es) _ (other p)
        (λ e.
          Post-continue 1 0 p (advance p) k (advance_solid p v (solid_rank p.peek_tok es solid e))
            (λ a q w t. (f a).at q w (omega arith)))
        (λ e. g.at p v l)

  pub Eats-peek :
      (k : Unit {0} → Parse A) (other : Parse A)
      → ((a : Unit {0}) → Runs n (k a))
      → Eats (suc n) other
      → Eats (suc n) (branch (peek_token_is es) (advance >>= k) other)
  Eats-peek k other f g = record { at = peek_branch_at k other f g }

  Runs-branch_at :
      (k : Unit {0} → Parse A) (other : Parse A)
      → ((a : Unit {0}) → Runs n (k a))
      → Runs (suc n) other
      → (p : Parser) → IsValid p.scanner
      → left p < suc n
      → Post 0 p (branch (peek_token_is es) (advance >>= k) other p)
  unfolding branch ◌>>=◌ peek_token_is
  Runs-branch_at k other f g p v l =
      Post-branch 0 p (matches p.peek_tok es) _ (other p)
        (λ e. Post-weaken p _ (
          Post-continue 1 0 p (advance p) k (advance_solid p v (solid_rank p.peek_tok es solid e))
            (λ a q w t. (f a).at q w (omega arith))))
        (λ e. g.at p v l)

  pub Runs-peek :
      (k : Unit {0} → Parse A) (other : Parse A)
      → ((a : Unit {0}) → Runs n (k a))
      → Runs (suc n) other
      → Runs (suc n) (branch (peek_token_is es) (advance >>= k) other)
  Runs-peek k other f g = record { at = Runs-branch_at k other f g }

-- The same behind a look at the current node.
module _ {A : Type 0} (n : ℕ) (es : List Expected) (solid : is_solid es ≡ true) where
  pub Eats-peek_node :
      (k : NodeRef → Unit {0} → Parse A) (other : Parse A)
      → ((r : NodeRef) (a : Unit {0}) → Runs n (k r a))
      → Eats (suc n) other
      → Eats (suc n) (branch (peek_token_is es) (cur_token_node >>= λ r. advance >>= k r) other)
  unfolding branch ◌>>=◌ peek_token_is cur_token_node
  Eats-peek_node k other f g = record {
    at = λ p v l.
        Post-branch 1 p (matches p.peek_tok es) _ (other p)
          (λ e.
            Post-continue 1 0 p (advance p) (k (get_node p.cur_tok p.node))
              (advance_solid p v (solid_rank p.peek_tok es solid e))
              (λ a q w t. (f (get_node p.cur_tok p.node) a).at q w (omega arith)))
          (λ e. g.at p v l);
  }

pub Runs-pred : {A : Type 0} (n : ℕ) (m : Parse A) → Runs (suc n) m → Runs n m
Runs-pred n m r = record { at = λ p v l. r.at p v (omega arith) }

pub Runs-expect : (n : ℕ) (es : List Expected) → Runs n (expect_peek_token es)
unfolding expect_peek_token
Runs-expect n es = Runs-branch n _ _ _ (Runs-pure n tt) (Runs-fail n _)

pub Runs-not_expect : (n : ℕ) (es : List Expected) → Runs n (not_expect_peek_token es)
unfolding not_expect_peek_token
Runs-not_expect n es = Runs-branch n _ _ _ (Runs-fail n _) (Runs-pure n tt)

pub Runs-advance_if : (n : ℕ) (es : List Expected) → Runs n (advance_if_peek_token_is es)
unfolding advance_if_peek_token_is
Runs-advance_if n es =
    Runs-bind n (expect_peek_token es) (λ _. advance) (Runs-expect n es) (λ _. Runs-advance n)

advance_when :
    (b : Bool) (p q : Parser)
    → IsValid p.scanner
    → length p.errors < length q.errors
    → (b ≡ true → rank p.peek_tok ≡ 1)
    → Post 1 p (continue (elim b [ true ↦ parsed tt p | false ↦ nil q ]) (λ _. advance))
advance_when true p q v e h = advance_solid p v (h refl)
advance_when false p q v e h = e

pub Eats-advance_if :
    (n : ℕ) (es : List Expected) → is_solid es ≡ true → Eats n (advance_if_peek_token_is es)
unfolding advance_if_peek_token_is expect_peek_token branch ◌>>=◌ pure fail peek_token_is
Eats-advance_if n es s = record {
  at = λ p v l.
      advance_when (matches p.peek_tok es) p _ v
        (omega (arith, length-append p.errors (peek_error es p ∷ []))) (solid_rank p.peek_tok es s);
}

pub Runs-node : (n : ℕ) → Runs n cur_token_node
unfolding cur_token_node
Runs-node n = record { at = λ p v l. (v, omega arith, omega arith) }

Runs-or_crash : (n : ℕ) (r : NodeRef) → Runs n (or_crash r)
Runs-or_crash n none = Runs-crash n
Runs-or_crash n (some t) = Runs-pure n t

pub Runs-deref : (n : ℕ) → Runs n deref_cur_token_node
unfolding deref_cur_token_node
Runs-deref n = Runs-bind n cur_token_node or_crash (Runs-node n) (Runs-or_crash n)

Runs-refuse : (n : ℕ) (o : Option TokenType) → Runs n (refuse o)
Runs-refuse n none = Runs-pure n tt
Runs-refuse n (some tp) = Runs-fail n _

pub Runs-refuse_keyword : (n : ℕ) → Runs n refuse_keyword
unfolding refuse_keyword
Runs-refuse_keyword n = Runs-bind n _ refuse (Runs-gets n _) (Runs-refuse n)

ignored_Post :
    (p : Parser) (r : Parsed (Unit {0}))
    → rank p.peek_tok ≡ 1
    → Stepped (room p.scanner) p r
    → Post 0 p (drop_result r)
ignored_Post p (parsed a q) h (v, l, e) = (v, omega arith, omega (arith, ap length e))
ignored_Post p (nil q) h (v, l, e) = (v, omega arith, omega arith)
ignored_Post p crashed h s = s
ignored_Post p no_fuel h s = s

-- A token is seen, and a call that reads past it has its result dropped.
pub Runs-peek_ignore :
    {A : Type 0} (n : ℕ) (es : List Expected)
    → is_solid es ≡ true
    → (k : Unit {0} → Parse A) (other : Parse A) → ((a : Unit {0}) → Runs n (k a))
    → Runs n other
    → Runs n (branch (peek_token_is es) (ignore advance >>= k) other)
unfolding branch ◌>>=◌ peek_token_is ignore
Runs-peek_ignore n es solid k other f g = record {
  at = λ p v l.
      Post-branch 0 p (matches p.peek_tok es) _ (other p)
        (λ e.
          let r = solid_rank p.peek_tok es solid e in
          Post-continue 0 0 p (drop_result (advance p)) k
            (ignored_Post p (advance p) r (advance-Stepped p v r))
            (λ a q w t. (f a).at q w (omega arith)))
        (λ e. g.at p v l);
}

pub ruleset parse_rules = (
  Runs-pure, Runs-gets, Runs-fail, Runs-crash, Runs-branch, Runs-bind, Runs-advance, Runs-expect,
  Runs-not_expect, Runs-advance_if, Runs-node, Runs-deref, Runs-refuse_keyword, Runs-zero,
)
