-- ===== src/Api/Parser/Progress.antt =====
-- How much of the input the parser has left, and that `nextToken` leaves less.
use zctl.Base.{
  ℕ, zero, suc, ◌+◌, ◌-◌, ◌≤◌, ◌<◌, Bool, true, false, ◌||◌, List, [], ◌∷◌, ◌++◌, Option, none,
  some, ◌≡◌, ◌≢◌, refl, sym, subst, arith, inl, inr, length, length-append, if◌then◌else◌,
  Option-cases, Bool-cases,
}
use zctl.Api.Token.{Token, illegal, eof, comment, document, token_bg, ordinal}
use zctl.Api.Scanner.{
  Scanner, Scanned, scanned, failed, panicked, out_of_fuel, rounds, skip_white_space,
}
use zctl.Api.Scanner.Invariant.{IsValid, Later, position-lt-size}
use zctl.Api.Scanner.Next.{next_token}
use zctl.Api.Scanner.Reading.{Ends}
use zctl.Api.Scanner.Total.Switch.{next_token-Steps}
use zctl.Api.Parser.{
  Parser, Parsed, parsed, nil, crashed, no_fuel, Commented, behind_comments, comments_failed,
  comments_crashed, comments_starved, comment_loop, same_line, set_leading, scan_failed,
  with_leading, take_peek, read_peek, next_from, advance, type_eq,
}

-- A token of the types that the scanner can give without reading a rune.
abbrev pub is_stalled : Token → Bool
is_stalled t = type_eq t.type eof || type_eq t.type illegal

unfoldable pub rank : Token → ℕ
unfolding type_eq
rank t = if is_stalled t then 0 else 1

-- The runes that are not read.
abbrev pub room : Scanner → ℕ
room s = s.size - s.position

-- The token peeked at counts too.
abbrev pub left : Parser → ℕ
left p = rank p.peek_tok + room p.scanner

-- What a call of `NextToken` leaves within a bound.
abbrev pub Within : ℕ → Scanned → Type 0
Within n (scanned t s) = IsValid s × (rank t + room s ≤ n)
Within n (failed e s) = IsValid s × (room s ≤ n)
Within n panicked = ⊥
Within n out_of_fuel = ⊥

Ends-Within :
    (s w : Scanner) (r : Scanned) → Later s w → w.ch ≢ 0 → Ends s w.position r → Within (room s) r
unfolding rank
Ends-Within s w (scanned t s') l z (m, k, c) =
    (m.valid, ground (arith, position-lt-size w l.valid z, l.size_is, m.size_is, l.moved))
Ends-Within s w (failed e s') l z m = (m.valid, omega (arith, m.size_is, m.moved))
Ends-Within s w panicked l z m = m
Ends-Within s w out_of_fuel l z m = m

pub next_token-Within : (s : Scanner) → IsValid s → Within (room s) (next_token s)
unfolding rank type_eq ordinal
next_token-Within s v =
    let (l, e, steps) = next_token-Steps s v in
    let w = skip_white_space s in
    elim steps [
      | inl (z, q) ↦ subst (Within (room s)) (sym q) (l.valid, omega (arith, l.size_is, l.moved))
      | inr (inl (z, q)) ↦
          subst (Within (room s)) (sym q) (l.valid, omega (arith, l.size_is, l.moved))
      | inr (inr (n, z, ends)) ↦ Ends-Within s w (next_token s) l z ends
    ]

-- The same of the comments read on the way.
abbrev pub Settled : ℕ → Commented → Type 0
Settled n (behind_comments t s leading head) = IsValid s × (rank t + room s ≤ n)
Settled n (comments_failed e s head) = IsValid s × (room s ≤ n)
Settled n comments_crashed = ⊥
Settled n comments_starved = ⊥

rank_le : (t : Token) → rank t ≤ 1
unfolding rank
rank_le t = ground arith

comment_rank : (t : Token) → (type_eq t.type comment || type_eq t.type document) ≡ true → rank t ≡ 1
unfolding rank type_eq ordinal
comment_rank t h = ground arith

Within-mono : (m n : ℕ) (r : Scanned) → m ≤ n → Within m r → Within n r
Within-mono m n (scanned t s) l (v, k) = (v, omega arith)
Within-mono m n (failed e s) l (v, k) = (v, omega arith)
Within-mono m n panicked l w = w
Within-mono m n out_of_fuel l w = w

Settled-mono : (m n : ℕ) (c : Commented) → m ≤ n → Settled m c → Settled n c
Settled-mono m n (behind_comments t s leading head) l (v, k) = (v, omega arith)
Settled-mono m n (comments_failed e s head) l (v, k) = (v, omega arith)
Settled-mono m n comments_crashed l w = w
Settled-mono m n comments_starved l w = w

pub comment_loop-Settled :
    (f n : ℕ) (line : Option ℕ) (r : Scanned) (leading head : List Token)
    → n < f
    → Within n r
    → Settled n (comment_loop f line r leading head)
unfolding comment_loop
comment_loop-Settled zero n line r leading head l w = absurd (omega arith)
comment_loop-Settled (suc f) n line (failed e s) leading head l w = w
comment_loop-Settled (suc f) n line panicked leading head l w = absurd w
comment_loop-Settled (suc f) n line out_of_fuel leading head l w = absurd w
comment_loop-Settled (suc f) n line (scanned t s) leading head l (v, k) =
    elim (Bool-cases (type_eq t.type comment || type_eq t.type document)) [
      | inr e ↦ rw (e, comment_loop) (v, k)
      | inl e ↦
          let c = comment_rank t e in
          let step = λ (ls hs : List Token).
            Settled-mono (room s) n (comment_loop f line (next_token s) ls hs) (omega (arith, c)) (
              comment_loop-Settled f (room s) line (next_token s) ls hs (omega (arith, c))
                (next_token-Within s v)) in
          elim (Bool-cases (same_line t line)) [
            | inl q ↦ rw (e, q, comment_loop) (step (leading ++ t ∷ []) head)
            | inr q ↦ rw (e, q, comment_loop) (step leading (head ++ t ∷ []))
          ]
    ]

rank_eof : (t : Token) → type_eq t.type eof ≡ true → rank t ≢ 1
unfolding rank
rank_eof t h e = ground (arith, h, e)

-- What a step of the parser comes to: within the bound, with more errors where it returns nil.
abbrev pub Stepped : ℕ → Parser → Parsed (Unit {0}) → Type 0
Stepped n p (parsed a q) = IsValid q.scanner × (left q ≤ n) × (q.errors ≡ p.errors)
Stepped n p (nil q) = IsValid q.scanner × (left q ≤ suc n) × (length p.errors < length q.errors)
Stepped n p crashed = Unit
Stepped n p no_fuel = ⊥

with_leading-Stepped :
    (n : ℕ) (leading : List Token) (p q : Parser)
    → IsValid q.scanner
    → left q ≤ n
    → q.errors ≡ p.errors
    → Stepped n p (with_leading leading q)
unfolding with_leading
with_leading-Stepped n [] p q v l e = (v, l, e)
with_leading-Stepped n (c ∷ cs) p q v l e =
    elim (Option-cases (set_leading q.cur_tok (c ∷ cs) q.node)) [
      | inl k ↦ rw (k, with_leading) tt
      | inr (ns, k) ↦ rw (k, with_leading) (v, l, e)
    ]

take_peek-Stepped : (n : ℕ) (p : Parser) (c : Commented) → Settled n c → Stepped n p (take_peek p c)
unfolding take_peek rank type_eq ordinal
take_peek-Stepped n p (behind_comments t s leading head) (v, l) =
    with_leading-Stepped n leading p
      (record p { peek_tok = t; scanner = s; head_comment_group = head }) v l refl
take_peek-Stepped n p (comments_failed e s head) (v, l) =
    (v, omega (arith, l), omega (arith, length-append p.errors (scan_failed e ∷ [])))
take_peek-Stepped n p comments_crashed h = tt
take_peek-Stepped n p comments_starved h = h

read_peek-Stepped :
    (line : Option ℕ) (p : Parser)
    → IsValid p.scanner
    → Stepped (room p.scanner) p (read_peek line p)
unfolding read_peek
read_peek-Stepped line p v = take_peek-Stepped (room p.scanner) p _ (
    comment_loop-Settled (suc (rounds p.scanner)) (room p.scanner) line (next_token p.scanner) []
      p.head_comment_group (omega arith) (next_token-Within p.scanner v))

-- The test of a token's type, against what it decides.
pub step-if :
    (b : Bool) (n : ℕ) (p : Parser) (x y : Parsed (Unit {0}))
    → (b ≡ true → Stepped n p x)
    → (b ≡ false → Stepped n p y)
    → Stepped n p (if b then x else y)
step-if true n p x y f g = f refl
step-if false n p x y f g = g refl

-- `nextToken` behind a token that can be read past.
pub advance-Stepped :
    (p : Parser) → IsValid p.scanner → rank p.peek_tok ≡ 1 → Stepped (room p.scanner) p (advance p)
unfolding advance next_from
advance-Stepped p v h =
    step-if (type_eq p.peek_tok.type token_bg) _ p _ _
      (λ e. read_peek-Stepped none (record p { cur_tok = p.peek_tok }) v)
      (λ e.
        step-if (type_eq p.peek_tok.type eof) _ p _ _ (λ z. absurd (rank_eof p.peek_tok z h))
          (λ z.
            read_peek-Stepped (some p.peek_tok.position.line)
              (record p {
                cur_tok = p.peek_tok;
                node =
                    record { head = p.head_comment_group; tok = p.peek_tok; leading = [] } ∷ p.node;
                head_comment_group = [];
              })
              v))

Stepped-mono :
    (m n : ℕ) (p : Parser) (r : Parsed (Unit {0})) → m ≤ n → Stepped m p r → Stepped n p r
Stepped-mono m n p (parsed a q) l (v, k, e) = (v, omega arith, e)
Stepped-mono m n p (nil q) l (v, k, e) = (v, omega arith, e)
Stepped-mono m n p crashed l h = h
Stepped-mono m n p no_fuel l h = h

-- `nextToken` in any state.
pub advance-Stepped_any : (p : Parser) → IsValid p.scanner → Stepped (left p) p (advance p)
unfolding advance next_from
advance-Stepped_any p v =
    step-if (type_eq p.peek_tok.type token_bg) _ p _ _
      (λ e.
        Stepped-mono (room p.scanner) (left p) p _ (omega arith)
          (read_peek-Stepped none (record p { cur_tok = p.peek_tok }) v))
      (λ e.
        step-if (type_eq p.peek_tok.type eof) _ p _ _ (λ z. (v, omega arith, refl))
          (λ z. Stepped-mono (room p.scanner) (left p) p _ (omega arith) (
            read_peek-Stepped (some p.peek_tok.position.line)
              (record p {
                cur_tok = p.peek_tok;
                node =
                    record { head = p.head_comment_group; tok = p.peek_tok; leading = [] } ∷ p.node;
                head_comment_group = [];
              })
              v)))
