-- ===== src/Util/Name/Split.antt =====
-- `splitIdent`: what its tokens are made of.
use zctl.Base.{
  ℕ, Bool, true, false, not, ◌&&◌, ◌||◌, List, [], ◌∷◌, ◌++◌, if◌then◌else◌, ◌==◌, Text, ◌≡◌, ◌≢◌,
  refl, sym, ap, ◌∙◌, is_upper, append-nil, append_assoc, All, All-append,
}
use zctl.Util.Words.{keep, concat, concat-append}
use zctl.Util.Stringx.{flush}
use zctl.Util.Name.{split_loop, split_ident, is_nonempty, word_begins}

abbrev pub is_letterlike : ℕ → Bool
is_letterlike c = not (c == b'_')

concat-flush :
    (buffer : Text) (list : List Text) → concat (flush buffer list) ≡ concat list ++ buffer
unfolding flush concat
concat-flush [] list = sym (append-nil _)
concat-flush (c ∷ b) list =
    concat-append list ((c ∷ b) ∷ []) ∙ ap (λ t. concat list ++ t) (append-nil (c ∷ b))

-- One round moves runes from the input to the buffer or the list, and drops an underscore.
abbrev pub next_list : Bool → Bool → Text → List Text → List Text
next_list under cut buffer list = if under || cut then flush buffer list else list

abbrev pub next_buffer : Bool → Bool → Text → ℕ → Text
next_buffer under cut buffer r = if under then [] else (if cut then [] else buffer) ++ r ∷ []

concat_round :
    (under cut : Bool) (buffer : Text) (list : List Text) (r : ℕ) (rest : Text)
    → concat (next_list under cut buffer list) ++ (next_buffer under cut buffer r ++ rest)
      ≡ concat list ++ (buffer ++ (if not under then r ∷ rest else rest))
concat_round true cut buffer list r rest = rw concat-flush (append_assoc (concat list) buffer rest)
concat_round false true buffer list r rest =
    rw concat-flush (append_assoc (concat list) buffer (r ∷ rest))
concat_round false false buffer list r rest =
    ap (λ t. concat list ++ t) (append_assoc buffer (r ∷ []) rest)

concat-split_loop :
    (s : Text) (prev : ℕ) (list : List Text) (buffer : Text)
    → concat (split_loop prev list buffer s) ≡ concat list ++ (buffer ++ keep is_letterlike s)
unfolding split_loop keep
concat-split_loop [] prev list buffer =
    concat-flush buffer list ∙ ap (λ t. concat list ++ t) (sym (append-nil buffer))
concat-split_loop (r ∷ s) prev list buffer =
    let cut = is_upper r && is_nonempty buffer && word_begins prev s in
    concat-split_loop s r (next_list (r == b'_') cut buffer list)
      (next_buffer (r == b'_') cut buffer r)
    ∙ concat_round (r == b'_') cut buffer list r (keep is_letterlike s)

-- The tokens, one after the other, spell the identifier without its underscores.
pub concat-split_ident : (s : Text) → concat (split_ident s) ≡ keep is_letterlike s
unfolding split_ident concat
concat-split_ident s = concat-split_loop s 0 [] []

-- A token: not empty, and without an underscore.
abbrev pub IsToken : Text → Type 0
IsToken t = (t ≢ []) × All (λ c. (c == b'_') ≡ false) t

flush-All :
    (buffer : Text) (list : List Text)
    → All (λ c. (c == b'_') ≡ false) buffer
    → All IsToken list
    → All IsToken (flush buffer list)
unfolding flush
flush-All [] list h l = l
flush-All (c ∷ b) list h l = All-append IsToken list ((c ∷ b) ∷ []) l (((λ e. cc), h), tt)

next_list-All :
    (under cut : Bool) (buffer : Text) (list : List Text)
    → All (λ c. (c == b'_') ≡ false) buffer
    → All IsToken list
    → All IsToken (next_list under cut buffer list)
next_list-All true cut buffer list h l = flush-All buffer list h l
next_list-All false true buffer list h l = flush-All buffer list h l
next_list-All false false buffer list h l = l

next_buffer-All :
    (under cut : Bool) (buffer : Text) (r : ℕ)
    → (r == b'_') ≡ under
    → All (λ c. (c == b'_') ≡ false) buffer
    → All (λ c. (c == b'_') ≡ false) (next_buffer under cut buffer r)
next_buffer-All true cut buffer r e h = tt
next_buffer-All false true buffer r e h = (e, tt)
next_buffer-All false false buffer r e h = All-append _ buffer (r ∷ []) h (e, tt)

split_loop-All :
    (s : Text) (prev : ℕ) (list : List Text) (buffer : Text)
    → All (λ c. (c == b'_') ≡ false) buffer
    → All IsToken list
    → All IsToken (split_loop prev list buffer s)
unfolding split_loop
split_loop-All [] prev list buffer h l = flush-All buffer list h l
split_loop-All (r ∷ s) prev list buffer h l =
    let cut = is_upper r && is_nonempty buffer && word_begins prev s in
    split_loop-All s r _ _ (next_buffer-All (r == b'_') cut buffer r refl h)
      (next_list-All (r == b'_') cut buffer list h l)

-- Every token of `splitIdent` is a token.
pub split_ident-All : (s : Text) → All IsToken (split_ident s)
unfolding split_ident
split_ident-All s = split_loop-All s 0 [] [] tt tt
