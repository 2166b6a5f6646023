-- ===== src/Api/Scanner/Total/Next.antt =====
-- `NextToken`, case by case.
use zctl.Base.{
  subst, ==_iff, ap, ◌∙◌, ℕ, zero, suc, ◌+◌, ◌-◌, ◌≤◌, ◌<◌, Bool, ◌≡◌, ◌≢◌, refl, true, false, not,
  ◌&&◌, arith, ◌==◌, Bool-cases, inl, inr, some, Text, [], ◌∷◌, codes, get_or, take, drop, length,
  Option-cases, text_eq_iff,
}
use zctl.Api.Scanner.{
  Scanner, read_rune, peek_rune, read_while, rounds, slice, assert_expected, is_letter, is_space,
  mark_line, skip_loop,
}
use zctl.Api.Scanner.Invariant.{
  read_while-Later, IsValid, Later, Later-refl, Later-trans, read_rune-Later, position-read_rune,
  read_rune-mark_line-Later,
}
use zctl.Api.Scanner.Reading.{Ends, Reading-begin, read_while-Reading, Ends-if, not_zero}
use zctl.Api.Scanner.Literals.{scan_at, at_letters, at_word, scan_letter_set}

mark_line_other : (s : Scanner) → is_space s.ch ≡ false → mark_line s ≡ s
unfolding mark_line
mark_line_other s h = ground arith

pub skip_loop-Later : (f : ℕ) (s : Scanner) → IsValid s → Later s (skip_loop f s)
unfolding skip_loop
skip_loop-Later zero s v = Later-refl v
skip_loop-Later (suc f) s v = elim (Bool-cases (is_space s.ch)) [
  | inl more ↦
      let l = read_rune-mark_line-Later s v in
      rw (more, skip_loop) (Later-trans l (skip_loop-Later f _ l.valid))
  | inr done ↦ rw (done, skip_loop) (rw (mark_line_other s done) (Later-refl v))
]

pub skip_loop-stops :
    (f : ℕ) (s : Scanner)
    → IsValid s
    → s.size < s.position + f
    → is_space (skip_loop f s).ch ≡ false
unfolding skip_loop
skip_loop-stops zero s v h = ground arith
skip_loop-stops (suc f) s v h = elim (Bool-cases (is_space s.ch)) [
  | inl more ↦
      rw (more, skip_loop)
        (skip_loop-stops f _ (read_rune-mark_line-Later s v).valid
          (unfold read_rune mark_line in ground arith))
  | inr done ↦ rw (done, skip_loop) (rw (mark_line_other s done) done)
]

-- An `@` with nothing behind it.
abbrev pub lone_at : Scanner → Bool
lone_at s = s.ch == b'@' && peek_rune s == 0

take-drop_cons :
    (xs : Text) (i n : ℕ)
    → i < length xs
    → take (suc n) (drop i xs) ≡ get_or xs i 0 ∷ take n (drop (i + 1) xs)
take-drop_cons [] i n h = elim h [ ]
take-drop_cons (x ∷ xs) zero n h = refl
take-drop_cons (x ∷ xs) (suc i) n h = ground (arith, take-drop_cons xs i n)

slice_in :
    (u : Scanner) (lo hi : ℕ)
    → lo ≤ hi
    → hi ≤ length u.source
    → slice u lo hi ≡ some (take (hi - lo) (drop lo u.source))
slice_in u lo hi h k = ground arith

slice-some :
    (u : Scanner) (lo hi : ℕ) (t : Text)
    → slice u lo hi ≡ some t
    → (lo ≤ hi) × (hi ≤ length u.source) × (take (hi - lo) (drop lo u.source) ≡ t)
slice-some u lo hi t e = ground arith

ch-get_or : (s : Scanner) → IsValid s → s.ch ≢ 0 → get_or s.source s.position 0 ≡ s.ch
ch-get_or s v h = ground arith

-- A slice that starts one rune earlier, on a later state of the same input.
slice_cons :
    (s u : Scanner) (t : Text) (p : ℕ)
    → IsValid s
    → s.ch ≢ 0
    → u.source ≡ s.source
    → slice u (s.position + 1) p ≡ some t
    → slice u s.position p ≡ some (s.ch ∷ t)
slice_cons s u t p v h k e =
    let parts = slice-some u (s.position + 1) p t e in
    let q : p - s.position ≡ suc (p - (s.position + 1)) = omega arith in
    let lt : s.position < length u.source = omega arith in
    let front : get_or u.source s.position 0 ≡ s.ch = rw k (ch-get_or s v h) in
    slice_in u s.position p (omega arith) parts.1
    ∙ ap some
        (rw q (take-drop_cons u.source s.position (p - (s.position + 1)) lt ∙ cc (front, parts.2)))

pub slice_next :
    (s u : Scanner) (t : Text) (p : ℕ)
    → IsValid s
    → s.ch ≢ 0
    → u.source ≡ s.source
    → slice u (read_rune s).position p ≡ some t
    → slice u s.position p ≡ some (s.ch ∷ t)
slice_next s u t p v h k e =
    slice_cons s u t p v h k (subst (λ q. slice u q p ≡ some t) (position-read_rune s v) e)

pub slice_empty : (u : Scanner) (p : ℕ) → p ≤ length u.source → slice u p p ≡ some []
slice_empty u p h =
    let e : p - p ≡ 0 = omega arith in
    slice_in u p p (omega arith) h ∙ ap (λ n. some (take n (drop p u.source))) e

at_word-Ends :
    {b : Scanner} {start : ℕ} (s : Scanner) (letters : Text)
    → Later b s
    → start < s.position
    → slice s start s.position ≡ some (b'@' ∷ letters)
    → Ends b start (at_word start s letters)
unfolding at_word assert_expected
at_word-Ends s letters l h e = ground (
  arith,
  text_eq_iff letters (codes "handler"),
  text_eq_iff letters (codes "server"),
  text_eq_iff letters (codes "doc"),
)

pub scan_at-Ends :
    {b : Scanner} (s : Scanner)
    → Later b s
    → (s.ch == b'@') ≡ true
    → lone_at s ≡ false
    → Ends b s.position (scan_at s)
unfolding scan_at assert_expected scan_letter_set at_letters
scan_at-Ends s l h n =
    let s1 = read_rune s in
    let s2 = read_while is_letter (rounds s1) s1 in
    let nz : s.ch ≢ 0 = not_zero s.ch b'@' (omega arith) h in
    let r1 = Reading-begin s l nz in
    let r2 = read_while-Reading is_letter (rounds s1) s1 (unfold is_letter in refl) r1 in
    let l2 = read_while-Later is_letter (rounds s1) s1 r1.later.valid in
    let sl : (t : Text)
        → slice s2 s1.position s2.position ≡ some t
        → slice s2 s.position s2.position ≡ some (b'@' ∷ t) =
      λ t e.
        slice_next s s2 t s2.position l.valid nz
          (l2.source_is ∙ (read_rune-Later s l.valid).source_is) e
        ∙ ap (λ (c : ℕ). some (c ∷ t)) ((==_iff s.ch b'@').0 h) in
    Ends-if _ _ (not (is_letter (peek_rune s))) _ _
      (λ _. Ends-if _ _ (peek_rune s == 0) _ _ (λ z. absurd (ground arith)) (λ _. l))
      (λ _. elim (Option-cases (slice s2 s1.position s2.position)) [
        | inl e ↦ absurd (ground (arith, l2.moved, r2.inside, r2.later.valid.size_is))
        | inr (letters, e) ↦
            rw (e, at_letters) (at_word-Ends s2 letters r2.later r2.begun (sl letters e))
      ])
