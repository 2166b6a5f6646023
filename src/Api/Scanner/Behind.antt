-- ===== src/Api/Scanner/Behind.antt =====
-- States of one scan, by what is left to read.
use zctl.Base.{
  ℕ, zero, suc, ◌+◌, ◌-◌, ◌≤◌, ◌<◌, true, ◌&&◌, [], ◌∷◌, ◌++◌, Text, length, take, drop, get_or,
  leb, length-append, take-length-append, length-drop, ◌≡◌, refl, ap, ◌∙◌, arith,
}
use zctl.Api.Token.{TokenType}
use zctl.Api.Scanner.{Scanner, scanned, read_rune, token_from, new_position, line_count}
use zctl.Api.Scanner.Invariant.{IsValid, read_rune-Later}

-- What stands from the position on.
abbrev pub rest : Scanner → Text
rest s = drop s.position s.source

-- `t` is `s` behind so many more runes, with the same lines.
pub record Behind (s : Scanner) (n : ℕ) (t : Scanner) : Type 0 where
  pub valid : IsValid t
  pub source_is : t.source ≡ s.source
  pub filename_is : t.filename ≡ s.filename
  pub lines_are : t.lines ≡ s.lines
  pub position_is : t.position ≡ s.position + n

pub Behind-read_rune : (s : Scanner) → IsValid s → Behind s 1 (read_rune s)
unfolding read_rune
Behind-read_rune s v = ground (arith, read_rune-Later s v)

pub Behind-trans :
    (s t u : Scanner) (m n k : ℕ) → k ≡ m + n → Behind s m t → Behind t n u → Behind s k u
Behind-trans s t u m n k e p q = record {
  valid = q.valid;
  source_is = q.source_is ∙ p.source_is;
  filename_is = q.filename_is ∙ p.filename_is;
  lines_are = q.lines_are ∙ p.lines_are;
  position_is = omega (arith, p.position_is, q.position_is, e);
}

drop-cons :
    (i : ℕ) (xs : Text) (c : ℕ) (t : Text)
    → drop i xs ≡ c ∷ t
    → (i < length xs) × (get_or xs i 0 ≡ c) × (drop (i + 1) xs ≡ t)
drop-cons zero [] c t h = cc
drop-cons zero (x ∷ xs) c t h = (omega arith, ground (arith, h), ground (arith, h))
drop-cons (suc i) [] c t h = cc
drop-cons (suc i) (x ∷ xs) c t h =
    let r = drop-cons i xs c t h in
    let e : suc i + 1 ≡ suc (i + 1) = omega arith in
    (omega (arith, r.0), r.1, ap (λ n. drop n (x ∷ xs)) e ∙ r.2)

drop-nil : (i : ℕ) (xs : Text) → drop i xs ≡ [] → length xs ≤ i
drop-nil zero [] h = omega arith
drop-nil zero (x ∷ xs) h = cc
drop-nil (suc i) [] h = omega arith
drop-nil (suc i) (x ∷ xs) h = omega (arith, drop-nil i xs h)

-- Where runes are left, the first of them is the current one.
pub rest-cons :
    (s : Scanner) (c : ℕ) (t : Text)
    → IsValid s
    → rest s ≡ c ∷ t
    → (s.ch ≡ c) × (rest (read_rune s) ≡ t)
unfolding read_rune
rest-cons s c t v h =
    let r = drop-cons s.position s.source c t h in
    (ground (arith, r.0, r.1, v.ch_is, v.size_is), ap (λ n. drop n s.source) v.next_is ∙ r.2)

pub rest-nil : (s : Scanner) → IsValid s → rest s ≡ [] → s.ch ≡ 0
rest-nil s v h = ground (arith, drop-nil s.position s.source h, v.ch_is, v.size_is)

-- The token of the runes between two states.
pub token_from-Behind :
    (tp : TokenType) (s t : Scanner) (n : ℕ) (text more : Text)
    → IsValid s
    → Behind s (suc n) t
    → rest s ≡ text ++ more
    → length text ≡ suc n
    → token_from tp s.position t
      ≡ scanned (record { type = tp; text = text; position = new_position s s.position }) t
unfolding token_from new_position line_count
token_from-Behind tp s t n text more v b h l =
    let d : drop s.position t.source ≡ text ++ more = ap (drop s.position) b.source_is ∙ h in
    let k : t.position - s.position ≡ length text = omega (arith, b.position_is, l) in
    let x : take (t.position - s.position) (drop s.position t.source) ≡ text =
      ap (λ i. take i (drop s.position t.source)) k
      ∙ ap (take (length text)) d
      ∙ take-length-append text more in
    let test : (leb s.position t.position && leb t.position (length t.source)) ≡ true = ground (
      arith,
      length-drop s.position t.source,
      ap length d,
      length-append text more,
      l,
      b.position_is,
    ) in
    rw (test, x, b.filename_is, b.lines_are, token_from) refl
