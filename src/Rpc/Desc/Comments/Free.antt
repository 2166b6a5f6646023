-- ===== src/Rpc/Desc/Comments/Free.antt =====
-- stripBlockComments leaves no opening of a comment.
use zctl.Base.{
  ℕ, zero, suc, ◌≤◌, ◌<◌, true, false, [], ◌∷◌, ◌++◌, Option, none, some, Text, codes, length, drop,
  has_prefix, ◌≡◌, refl, ap, subst, arith, Bool-cases, Option-cases, inl, inr, length-append,
  length-drop,
}
use zctl.Base.Strings.{split_at}
use zctl.Rpc.Desc.Comments.{
  close_comment, Round, returned, again, after_open, cut_comment, after_round, strip_round,
  strip_loop, strip_block_comments,
}

-- The parts of a text at a pattern: together the text, and the second begins with the pattern.
split_at-parts :
    (pat s a b : Text) → split_at pat s ≡ some (a, b) → (a ++ b ≡ s) × (has_prefix b pat ≡ true)
unfolding split_at
split_at-parts pat [] a b h = elim (Bool-cases (has_prefix [] pat)) [
  | inl e ↦ ground (arith, h, e)
  | inr e ↦ ground (arith, h, e)
]
split_at-parts pat (c ∷ s) a b h = elim (Bool-cases (has_prefix (c ∷ s) pat)) [
  | inl e ↦ ground (arith, h, e)
  | inr e ↦ elim (Option-cases (split_at pat s)) [
    | inl n ↦ ground (arith, h, e, n)
    | inr ((x, y), n) ↦ let k = split_at-parts pat s x y n in ground (arith, h, e, n, k)
  ]
]

has_prefix-length : (s p : Text) → has_prefix s p ≡ true → length p ≤ length s
has_prefix-length s [] h = omega arith
has_prefix-length [] (x ∷ p) h = cc
has_prefix-length (c ∷ s) (x ∷ p) h = ground (arith, h, has_prefix-length s p)

-- What is left behind the end of a comment is shorter than the comment and it.
close_comment-length :
    (b rest : Text)
    → has_prefix b (codes "/*") ≡ true
    → close_comment b ≡ some rest
    → length rest < length b
unfolding close_comment
close_comment-length b rest h e = elim (Option-cases (split_at (codes "*/") b)) [
  | inl n ↦ ground (arith, e, n)
  | inr ((x, y), n) ↦
      let k = split_at-parts (codes "*/") b x y n in
      let q : drop 2 y ≡ rest = ground (arith, e, n) in
      ground (
        arith,
        ap length k.0,
        length-append x y,
        ap length q,
        length-drop 2 y,
        has_prefix-length y (codes "*/") k.1,
        has_prefix-length b (codes "/*") h,
      )
]

has_prefix-append : (s p t : Text) → has_prefix s p ≡ true → has_prefix (s ++ t) p ≡ true
has_prefix-append [] [] t h = refl
has_prefix-append [] (x ∷ p) t h = cc
has_prefix-append (c ∷ s) [] t h = refl
has_prefix-append (c ∷ s) (x ∷ p) t h = ground (arith, h, has_prefix-append s p t)

-- The part before the first opening has none.
split_at-front :
    (s a b : Text) → split_at (codes "/*") s ≡ some (a, b) → split_at (codes "/*") a ≡ none
unfolding split_at
split_at-front [] a b h = ground (arith, h)
split_at-front (c ∷ s) a b h = elim (Bool-cases (has_prefix (c ∷ s) (codes "/*"))) [
  | inl e ↦
      let q : [] ≡ a = ground (arith, h, e) in subst (λ t. split_at (codes "/*") t ≡ none) q refl
  | inr e ↦ elim (Option-cases (split_at (codes "/*") s)) [
    | inl n ↦ ground (arith, h, e, n)
    | inr ((x, y), n) ↦
        let q : c ∷ x ≡ a = ground (arith, h, e, n) in
        let k = split_at-front s x y n in
        let f : has_prefix (c ∷ x) (codes "/*") ≡ false = ground (
          arith,
          e,
          has_prefix-append (c ∷ x) (codes "/*") y,
          (split_at-parts (codes "/*") s x y n).0,
        ) in
        subst (λ t. split_at (codes "/*") t ≡ none) q (rw (f, k) refl)
  ]
]

-- What a round does to a text: it ends without an opening, or goes on with a shorter text.
abbrev Clears : Text → Round → Type 0
Clears s (returned t) = split_at (codes "/*") t ≡ none
Clears s (again t) = length t < length s

after_open-Clears :
    (s a b : Text) (o : Option Text)
    → split_at (codes "/*") s ≡ some (a, b)
    → close_comment b ≡ o
    → Clears s (after_open a o)
after_open-Clears s a b none n m = split_at-front s a b n
after_open-Clears s a b (some rest) n m =
    let k = split_at-parts (codes "/*") s a b n in
    ground (
      arith,
      ap length k.0,
      length-append a b,
      length-append a rest,
      close_comment-length b rest k.1 m,
    )

cut_comment-Clears :
    (s : Text) (o : Option (Text × Text)) → split_at (codes "/*") s ≡ o → Clears s (cut_comment s o)
cut_comment-Clears s none n = n
cut_comment-Clears s (some (a, b)) n = after_open-Clears s a b (close_comment b) n refl

after_round_free :
    (s : Text) (rec : Text → Text) (r : Round)
    → ((t : Text) → length t < length s → split_at (codes "/*") (rec t) ≡ none)
    → Clears s r
    → split_at (codes "/*") (after_round rec r) ≡ none
after_round_free s rec (returned t) k h = h
after_round_free s rec (again t) k h = k t h

strip_loop_free : (n : ℕ) (s : Text) → length s ≤ n → split_at (codes "/*") (strip_loop n s) ≡ none
unfolding strip_loop strip_round
strip_loop_free zero [] l = unfold split_at in refl
strip_loop_free zero (c ∷ s) l = absurd (omega (arith, l))
strip_loop_free (suc n) s l =
    after_round_free s (strip_loop n) (strip_round s)
      (λ t m. strip_loop_free n t (omega (arith, l, m)))
      (cut_comment-Clears s (split_at (codes "/*") s) refl)

-- In what stripBlockComments leaves of a text, no comment is opened.
pub strip_block_comments_free : (s : Text) → split_at (codes "/*") (strip_block_comments s) ≡ none
unfolding strip_block_comments
strip_block_comments_free s = strip_loop_free (length s) s (omega arith)
