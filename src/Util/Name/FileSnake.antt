-- ===== src/Util/Name/FileSnake.antt =====
-- `FileSnake` settles after one round.
use zctl.Base.{
  ℕ, Bool, true, false, ◌&&◌, List, [], ◌∷◌, ◌++◌, map, if◌then◌else◌, ◌==◌, Text, ◌≡◌, ◌≢◌, refl,
  sym, ap, ◌∙◌, arith, is_upper, append-nil, append_assoc, All, All-append,
}
use zctl.Util.Casing.{Casing, to_lower}
use zctl.Util.Words.{join, keep, concat}
use zctl.Util.Stringx.{flush}
use zctl.Util.Name.{split_loop, split_ident, file_snake, file_snake_of, is_nonempty, word_begins}
use zctl.Util.Name.Split.{
  next_list, next_buffer, IsToken, split_ident-All, concat-split_ident, is_letterlike,
}

abbrev IsSmall : Text → Type 0
IsSmall = All (λ c. is_upper c ≡ false)

abbrev HasNoUnder : Text → Type 0
HasNoUnder = All (λ c. (c == b'_') ≡ false)

-- Where there are no capitals, only the underscores part.
plain_split : List Text → Text → Text → List Text
plain_split list buffer [] = flush buffer list
plain_split list buffer (r ∷ rest) =
    let under = r == b'_' in
    plain_split (if under then flush buffer list else list) (if under then [] else buffer ++ r ∷ [])
      rest

and_false : (b c : Bool) → b ≡ false → (b && c) ≡ false
and_false b c h = ground arith

next_list_uncut :
    (under : Bool) (buffer : Text) (list : List Text)
    → next_list under false buffer list ≡ (if under then flush buffer list else list)
next_list_uncut true buffer list = refl
next_list_uncut false buffer list = refl

split_loop_small :
    (s : Text) (prev : ℕ) (list : List Text) (buffer : Text)
    → IsSmall s
    → split_loop prev list buffer s ≡ plain_split list buffer s
unfolding split_loop plain_split
split_loop_small [] prev list buffer h = refl
split_loop_small (r ∷ s) prev list buffer h =
    let under = r == b'_' in
    ap (λ cut. split_loop r (next_list under cut buffer list) (next_buffer under cut buffer r) s)
      (and_false (is_upper r && is_nonempty buffer) (word_begins prev s)
        (and_false (is_upper r) (is_nonempty buffer) h.0))
    ∙ ap (λ l. split_loop r l (next_buffer under false buffer r) s)
        (next_list_uncut under buffer list)
    ∙ split_loop_small s r _ _ h.1

plain_split_word :
    (w : Text) (list : List Text) (buffer rest : Text)
    → HasNoUnder w
    → plain_split list buffer (w ++ rest) ≡ plain_split list (buffer ++ w) rest
unfolding plain_split
plain_split_word [] list buffer rest h = ap (λ b. plain_split list b rest) (sym (append-nil buffer))
plain_split_word (c ∷ w) list buffer rest h =
    ap
      (λ u.
        plain_split (if u then flush buffer list else list) (if u then [] else buffer ++ c ∷ [])
          (w ++ rest))
      h.0
    ∙ plain_split_word w list (buffer ++ c ∷ []) rest h.1
    ∙ ap (λ b. plain_split list b rest) (append_assoc buffer (c ∷ []) w)

flush_token : (w : Text) (list : List Text) → w ≢ [] → flush w list ≡ list ++ w ∷ []
unfolding flush
flush_token [] list h = absurd (h refl)
flush_token (c ∷ w) list h = refl

plain_split-join :
    (ws : List Text) (list : List Text)
    → All IsToken ws
    → plain_split list [] (join ws (b'_' ∷ [])) ≡ list ++ ws
unfolding plain_split join flush
plain_split-join [] list h = sym (append-nil list)
plain_split-join (w ∷ []) list h =
    ap (plain_split list []) (sym (append-nil w))
    ∙ plain_split_word w list [] [] h.0.1
    ∙ flush_token w list h.0.0
plain_split-join (w ∷ v ∷ ws) list h =
    plain_split_word w list [] (b'_' ∷ join (v ∷ ws) (b'_' ∷ [])) h.0.1
    ∙ plain_split-join (v ∷ ws) (flush w list) h.1
    ∙ ap (λ l. l ++ v ∷ ws) (flush_token w list h.0.0)
    ∙ append_assoc list (w ∷ []) (v ∷ ws)

module _ (u : Casing) where
  lower_under : (c : ℕ) → (c == b'_') ≡ false → (u.lower c == b'_') ≡ false
  lower_under c h = ground (arith, u.lower_ascii c, u.lower_sign c)

  to_lower-HasNoUnder : (t : Text) → HasNoUnder t → HasNoUnder (to_lower u t)
  to_lower-HasNoUnder [] h = tt
  to_lower-HasNoUnder (c ∷ t) h = (lower_under c h.0, to_lower-HasNoUnder t h.1)

  to_lower-IsToken : (t : Text) → IsToken t → IsToken (to_lower u t)
  to_lower-IsToken [] h = absurd (h.0 refl)
  to_lower-IsToken (c ∷ t) h = ((λ e. cc), to_lower-HasNoUnder (c ∷ t) h.1)

  to_lower-IsSmall : (t : Text) → IsSmall (to_lower u t)
  to_lower-IsSmall [] = tt
  to_lower-IsSmall (c ∷ t) = (u.lower_not_upper c, to_lower-IsSmall t)

  to_lower_idem : (t : Text) → to_lower u (to_lower u t) ≡ to_lower u t
  to_lower_idem [] = refl
  to_lower_idem (c ∷ t) = cc (u.lower_idem c, to_lower_idem t)

  map-to_lower-All : (ts : List Text) → All IsToken ts → All IsToken (map (to_lower u) ts)
  map-to_lower-All [] h = tt
  map-to_lower-All (t ∷ ts) h = (to_lower-IsToken t h.0, map-to_lower-All ts h.1)

  map-to_lower_idem :
      (ts : List Text) → map (to_lower u) (map (to_lower u) ts) ≡ map (to_lower u) ts
  map-to_lower_idem [] = refl
  map-to_lower_idem (t ∷ ts) = cc (to_lower_idem t, map-to_lower_idem ts)

  join-IsSmall : (ts : List Text) → IsSmall (join (map (to_lower u) ts) (b'_' ∷ []))
  unfolding join
  join-IsSmall [] = tt
  join-IsSmall (t ∷ []) = to_lower-IsSmall t
  join-IsSmall (t ∷ v ∷ ts) =
      All-append _ (to_lower u t) _ (to_lower-IsSmall t) (refl, join-IsSmall (v ∷ ts))

  -- Underscores alone have no lower case.
  to_lower_unders : (s : Text) → keep is_letterlike s ≡ [] → to_lower u s ≡ s
  unfolding keep
  to_lower_unders [] h = refl
  to_lower_unders (c ∷ s) h = ground (arith, to_lower_unders s, u.lower_ascii c)

  -- `splitIdent` takes a joined list of lowered tokens apart again.
  split_ident-join :
      (ts : List Text)
      → All IsToken ts
      → split_ident (join (map (to_lower u) ts) (b'_' ∷ [])) ≡ map (to_lower u) ts
  unfolding split_ident
  split_ident-join ts h =
      split_loop_small _ 0 [] [] (join-IsSmall ts)
      ∙ plain_split-join (map (to_lower u) ts) [] (map-to_lower-All ts h)

  file_snake_of_idem :
      (s : Text) (ts : List Text)
      → split_ident s ≡ ts
      → All IsToken ts
      → file_snake u (file_snake_of u s ts) ≡ file_snake_of u s ts
  unfolding file_snake file_snake_of concat
  file_snake_of_idem s [] e h =
      let same : to_lower u s ≡ s = to_lower_unders s (sym (concat-split_ident s) ∙ ap concat e) in
      rw same (rw e same)
  file_snake_of_idem s (t ∷ ts) e h =
      ap (file_snake_of u (join (map (to_lower u) (t ∷ ts)) (b'_' ∷ [])))
        (split_ident-join (t ∷ ts) h)
      ∙ ap (λ ws. join ws (b'_' ∷ [])) (map-to_lower_idem (t ∷ ts))

-- A file name is its own file name: applying `FileSnake` twice is applying it once.
pub file_snake_idem : (u : Casing) (s : Text) → file_snake u (file_snake u s) ≡ file_snake u s
unfolding file_snake
file_snake_idem u s = file_snake_of_idem u s (split_ident s) refl (split_ident-All s)
