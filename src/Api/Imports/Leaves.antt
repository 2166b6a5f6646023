-- ===== src/Api/Imports/Leaves.antt =====
-- What each part of the walk over imports comes to: it ends, and leaves the import stack as it was.
use zctl.Base.{
  ℕ, suc, ◌<◌, true, List, [], ◌∷◌, ◌++◌, some, Text, ◌≡◌, ◌≢◌, refl, ◌∙◌, arith, inl, inr, length,
  Bool-cases, Option-cases, text_mem, text_eq,
}
use zctl.Api.ImportStack.{push, pop-append}
use zctl.Api.Scanner.{new_scanner}
use zctl.Api.Parser.{Parsed}
use zctl.Api.Parser.Stmts.{parse, new_parser}
use zctl.Api.Checks.{Api}
use zctl.Api.Analyzer.{Loaded, loaded, invalid, duplicated, exits, panics, unfinished, load_api}
use zctl.Api.Analyzer.Load.{
  LoadEnds, is_loaded, is_duplicated, is_invalid, in_parse, in_convert, load_api_ends,
}
use zctl.Api.Imports.{
  Importing, Imported, imported, rejected, exited, panicked, no_fuel, then_import, of_loaded,
  pop_then, merge_api, merge_all, node_format,
}

-- A load that came to an end.
abbrev pub IsEnd : Loaded → Type 0
IsEnd unfinished = ⊥
IsEnd _ = Unit

pub LoadEnds-IsEnd :
    (filename : Text) (r : Parsed (Unit {0})) (x : Loaded) → LoadEnds filename r x → IsEnd x
LoadEnds-IsEnd filename r x (is_loaded q a e h c) = tt
LoadEnds-IsEnd filename r x (is_duplicated q e h k c) = tt
LoadEnds-IsEnd filename r x (is_invalid q e es h k) = tt
LoadEnds-IsEnd filename r x (in_parse h) = tt
LoadEnds-IsEnd filename r x (in_convert q h e c) = tt

pub load_api-IsEnd :
    (f : ℕ) (base filename source : Text)
    → suc (length source) < f
    → IsEnd (load_api f base filename source)
unfolding load_api
load_api-IsEnd f base filename source l = elim (Option-cases (new_scanner base source)) [
  | inl e ↦ rw (e, load_api) tt
  | inr (s, e) ↦
      LoadEnds-IsEnd filename (parse f (new_parser s)) _
        (load_api_ends f base filename source s e l)
]

pub loaded_source :
    (f : ℕ) (base filename source : Text) (a : Api)
    → load_api f base filename source ≡ loaded a
    → source ≢ []
unfolding load_api new_scanner
loaded_source f base filename [] a h = λ e. cc
loaded_source f base filename (c ∷ cs) a h = λ e. cc

-- What a walk from a state comes to: it ends, and where it ends well, the stack is the one before,
-- and no file has left the set.
abbrev pub Leaves : {A : Type 0} → List Text → List Text → Imported A → Type 0
Leaves manager set (imported a st) =
    (st.manager ≡ manager) × ((x : Text) → text_mem x set ≡ true → text_mem x st.set ≡ true)
Leaves manager set no_fuel = ⊥
Leaves manager set _ = Unit

-- No member of the first list is missing in the second.
abbrev pub Kept : List Text → List Text → Type 0
Kept set new = (x : Text) → text_mem x set ≡ true → text_mem x new ≡ true

pub then_import-Leaves :
    {A B : Type 0} (m n s t : List Text) (r : Imported A) (k : A → Importing → Imported B)
    → Leaves n t r
    → ((a : A) (st : Importing) → st.manager ≡ n → Kept t st.set → Leaves m s (k a st))
    → Leaves m s (then_import r k)
then_import-Leaves m n s t (imported a st) k h f = f a st h.0 h.1
then_import-Leaves m n s t (rejected e) k h f = tt
then_import-Leaves m n s t exited k h f = tt
then_import-Leaves m n s t panicked k h f = tt
then_import-Leaves m n s t no_fuel k h f = h

pub Leaves-weaken :
    {A : Type 0} (m n s t : List Text) (r : Imported A)
    → Leaves n t r
    → n ≡ m
    → Kept s t
    → Leaves m s r
Leaves-weaken m n s t (imported a st) h e k = (h.0 ∙ e, λ x b. h.1 x (k x b))
Leaves-weaken m n s t (rejected e) h q k = tt
Leaves-weaken m n s t exited h e k = tt
Leaves-weaken m n s t panicked h e k = tt
Leaves-weaken m n s t no_fuel h e k = h

pub of_loaded-Leaves :
    {B : Type 0} (m s : List Text) (st : Importing) (r : Loaded) (k : Api → Importing → Imported B)
    → IsEnd r
    → ((a : Api) → r ≡ loaded a → Leaves m s (k a st))
    → Leaves m s (then_import (of_loaded r st) k)
of_loaded-Leaves m s st (loaded a) k h f = f a refl
of_loaded-Leaves m s st (invalid es) k h f = tt
of_loaded-Leaves m s st (duplicated e) k h f = tt
of_loaded-Leaves m s st exits k h f = tt
of_loaded-Leaves m s st panics k h f = tt
of_loaded-Leaves m s st unfinished k h f = h

pub pop_then-Leaves :
    {A : Type 0} (a : A) (p : Text) (m s : List Text) (st : Importing)
    → st.manager ≡ m ++ p ∷ []
    → Kept s st.set
    → Leaves m s (pop_then a st)
pop_then-Leaves a p m s st h k = rw (pop_then, h, pop-append p m) (refl, k)

pub push-some : (p : Text) (s m : List Text) → push p s ≡ some m → m ≡ s ++ p ∷ []
unfolding push
push-some p s m h = ground arith

pub Kept-cons : (p : Text) (s : List Text) → Kept s (p ∷ s)
unfolding text_mem
Kept-cons p s x h = ground (arith, h)

merge_api-Leaves : (a b : Api) (st : Importing) → Leaves st.manager st.set (merge_api a b st)
unfolding merge_api
merge_api-Leaves a b st = elim (Option-cases a.syntax.value) [
  | inl e ↦ rw (merge_api, e) tt
  | inr (v, e) ↦ elim (Option-cases b.syntax.value) [
    | inl g ↦ rw (merge_api, e, g) tt
    | inr (w, g) ↦ elim (Bool-cases (text_eq (node_format v) (node_format w))) [
      | inl q ↦ rw (merge_api, e, g, q) (refl, λ x b. b)
      | inr q ↦ rw (merge_api, e, g, q) tt
    ]
  ]
]

pub merge_all-Leaves :
    (a : Api) (bs : List Api) (st : Importing) → Leaves st.manager st.set (merge_all a bs st)
unfolding merge_all
merge_all-Leaves a [] st = (refl, λ x b. b)
merge_all-Leaves a (b ∷ bs) st =
    then_import-Leaves st.manager st.manager st.set st.set (merge_api a b st) _
      (merge_api-Leaves a b st)
      (λ c new f g.
        Leaves-weaken st.manager new.manager st.set new.set (merge_all c bs new)
          (merge_all-Leaves c bs new) f g)
