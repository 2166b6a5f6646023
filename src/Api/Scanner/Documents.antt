-- ===== src/Api/Scanner/Documents.antt =====
-- What `scanDocument` takes for the end of a document.
use zctl.Base.{
  Bool, ℕ, zero, suc, ◌+◌, ◌-◌, true, not, ◌&&◌, [], ◌∷◌, ◌++◌, Text, All, length, ◌==◌,
  length-append, length-drop, append_assoc, ◌≡◌, refl, ap, ◌∙◌, arith,
}
use zctl.Api.Token.{document}
use zctl.Api.Scanner.{Scanner, scanned, read_rune, token_from, new_position}
use zctl.Api.Scanner.Invariant.{IsValid}
use zctl.Api.Scanner.Behind.{
  rest, Behind, Behind-read_rune, Behind-trans, rest-cons, token_from-Behind,
}
use zctl.Api.Scanner.Literals.{
  Mode, init_mode, document_half_open, document_open, document_half_close, on_star, document_loop,
  scan_document,
}

-- No star, no slash and not the zero rune.
abbrev pub is_inner : ℕ → Bool
is_inner c = not (c == b'*') && not (c == b'/') && not (c == 0)

abbrev pub IsInner : Text → Type 0
IsInner = All (λ c. is_inner c ≡ true)

inner_step :
    (start f : ℕ) (m : Mode) (s : Scanner)
    → is_inner s.ch ≡ true
    → document_loop start (suc f) m s ≡ document_loop start f m (read_rune s)
unfolding document_loop
inner_step start f m s h = ground (arith, h)

star_step :
    (start f : ℕ) (m : Mode) (s : Scanner)
    → s.ch ≡ b'*'
    → document_loop start (suc f) m s ≡ document_loop start f (on_star m) (read_rune s)
unfolding document_loop
star_step start f m s h = ground (arith, h)

begin_step :
    (start f : ℕ) (s : Scanner)
    → s.ch ≡ b'/'
    → document_loop start (suc f) init_mode s
      ≡ document_loop start f document_half_open (read_rune s)
unfolding document_loop
begin_step start f s h = ground (arith, h)

close_step :
    (start f : ℕ) (s : Scanner)
    → s.ch ≡ b'/'
    → document_loop start (suc f) document_half_close s ≡ token_from document start (read_rune s)
unfolding document_loop
close_step start f s h = ground (arith, h)

-- The loop comes to the end of the inner runes in its mode.
document_loop-inner :
    (start : ℕ) (m : Mode) (body tail : Text) (f k : ℕ) (s : Scanner)
    → IsValid s
    → IsInner body
    → rest s ≡ body ++ tail
    → f ≡ length body + k
    → (t : Scanner) × (document_loop start f m s ≡ document_loop start k m t)
      × Behind s (length body) t
      × (rest t ≡ tail)
document_loop-inner start m [] tail f k s v a h e = (
  s,
  ap (λ i. document_loop start i m s) (omega (arith, e)),
  record {
    valid = v;
    source_is = refl;
    filename_is = refl;
    lines_are = refl;
    position_is = omega arith;
  },
  h,
)
document_loop-inner start m (c ∷ body) tail zero k s v a h e = absurd (omega (arith, e))
document_loop-inner start m (c ∷ body) tail (suc f) k s v a h e =
    let r = rest-cons s c (body ++ tail) v h in
    let b = Behind-read_rune s v in
    let (t, p, q, n) =
      document_loop-inner start m body tail f k (read_rune s) b.valid a.1 r.1 (omega (arith, e)) in
    (
      t,
      inner_step start f m s (ground (arith, r.0, a.0)) ∙ p,
      Behind-trans s (read_rune s) t 1 (length body) (suc (length body)) (omega arith) b q,
      n,
    )

-- A star, inner runes, and what is behind them: one stage of a document.
star-inner :
    (start : ℕ) (m : Mode) (body tail : Text) (k : ℕ) (s : Scanner)
    → IsValid s
    → IsInner body
    → rest s ≡ b'*' ∷ (body ++ tail)
    → (t : Scanner) × (document_loop start (suc (length body + k)) m s
        ≡ document_loop start k (on_star m) t)
      × Behind s (suc (length body)) t
      × (rest t ≡ tail)
star-inner start m body tail k s v a h =
    let r = rest-cons s b'*' (body ++ tail) v h in
    let b = Behind-read_rune s v in
    let (t, p, q, n) =
      document_loop-inner start (on_star m) body tail (length body + k) k (read_rune s) b.valid a
        r.1 refl in
    (
      t,
      star_step start (length body + k) m s r.0 ∙ p,
      Behind-trans s (read_rune s) t 1 (length body) (suc (length body)) (omega arith) b q,
      n,
    )

-- From `/*` to the slash behind the next star, whatever stands between the two.
abbrev pub closed_text : Text → Text → Text
closed_text a b = b'/' ∷ b'*' ∷ (a ++ (b'*' ∷ (b ++ (b'/' ∷ []))))

closed_text-append :
    (a b tail : Text) → b'/' ∷ b'*' ∷ (a ++ (b'*' ∷ (b ++ (b'/' ∷ tail)))) ≡ closed_text a b ++ tail
closed_text-append a b tail =
    simp (append_assoc a (b'*' ∷ (b ++ (b'/' ∷ []))) tail, append_assoc b (b'/' ∷ []) tail) refl

length-closed_text : (a b : Text) → length (closed_text a b) ≡ length a + length b + 4
length-closed_text a b =
    omega (arith, length-append a (b'*' ∷ (b ++ (b'/' ∷ []))), length-append b (b'/' ∷ []))

-- On a valid state, where the rest is `/*`, runes, a star, runes, a slash and a tail, and the runes
-- are no stars, slashes or zero runes: `scanDocument` gives the document up to the slash, at the
-- position of its first rune, goes on at the tail, and has the lines it had. The second runes need
-- not be empty, so the slash need not stand right behind the star.
pub scan_document_closed :
    (a b tail : Text) (s : Scanner)
    → IsValid s
    → IsInner a
    → IsInner b
    → rest s ≡ b'/' ∷ b'*' ∷ (a ++ (b'*' ∷ (b ++ (b'/' ∷ tail))))
    → (t : Scanner) × (scan_document s
        ≡ scanned
            (record {
              type = document;
              text = closed_text a b;
              position = new_position s s.position;
            })
            t)
      × (rest t ≡ tail)
      × (t.lines ≡ s.lines)
unfolding scan_document
scan_document_closed a b tail s v ia ib h =
    let start = s.position in
    let whole : rest s ≡ closed_text a b ++ tail = h ∙ closed_text-append a b tail in
    let len = length-closed_text a b in
    let g = s.size - (length a + length b + 3) in
    let room : s.size ≡ suc (length a + suc (length b + suc g)) = omega (
      arith,
      length-drop start s.source,
      v.size_is,
      ap length whole,
      length-append (closed_text a b) tail,
      len,
    ) in
    let r = rest-cons s b'/' _ v h in
    let p0 = Behind-read_rune s v in
    let (t1, e1, p1, n1) =
      star-inner start document_half_open a (b'*' ∷ (b ++ (b'/' ∷ tail))) (suc (length b + suc g))
        (read_rune s) p0.valid ia r.1 in
    let (t2, e2, p2, n2) =
      star-inner start document_open b (b'/' ∷ tail) (suc g) t1 p1.valid ib n1 in
    let r3 = rest-cons t2 b'/' tail p2.valid n2 in
    let p3 = Behind-read_rune t2 p2.valid in
    let q1 =
      Behind-trans s (read_rune s) t1 1 (suc (length a)) (2 + length a) (omega arith) p0 p1 in
    let q2 =
      Behind-trans s t1 t2 (2 + length a) (suc (length b)) (3 + length a + length b) (omega arith)
        q1 p2 in
    let q3 =
      Behind-trans s t2 (read_rune t2) (3 + length a + length b) 1 (suc (3 + length a + length b))
        (omega arith) q2 p3 in
    (
      read_rune t2,
      begin_step start s.size s r.0
          ∙ ap (λ f. document_loop start f document_half_open (read_rune s)) room
          ∙ e1
          ∙ e2
          ∙ close_step start g t2 r3.0
          ∙ token_from-Behind document s (read_rune t2) (3 + length a + length b) (closed_text a b)
              tail v q3 whole (omega (arith, len)),
      r3.1,
      q3.lines_are,
    )
