-- ===== src/Api/Imports/Returns.antt =====
-- The imports of a file come to an end, and leave the import stack as it was.
use zctl.Base.{
  ℕ, zero, suc, ◌≤◌, ◌<◌, true, List, [], ◌∷◌, ◌++◌, Text, ◌≡◌, ◌≢◌, ◌⊎◌, refl, ◌∙◌, arith, inl,
  inr, length, Bool-cases, Option-cases, text_mem,
}
use zctl.Base.Remaining.{remaining, remaining_kept, remaining-cons, remaining-length}
use zctl.Api.Token.{Token}
use zctl.Api.ImportStack.{push}
use zctl.Api.Checks.{Api, imported_values}
use zctl.Api.Imports.{
  Files, Importing, Imported, imported, rejected, exited, panicked, no_fuel, load_file, import_new,
  import_one, import_loop, parse_imported_api, merge_all, ImportError, parse_reverse,
  import_value_set,
}
use zctl.Api.Imports.Leaves.{
  Kept, Leaves, load_api-IsEnd, loaded_source, then_import-Leaves, Leaves-weaken, of_loaded-Leaves,
  pop_then-Leaves, push-some, Kept-cons, merge_all-Leaves,
}

module _ (files : Files) (us : List Text) where
  -- The files with a text are those of the list.
  abbrev pub IsWithin : Type 0
  IsWithin = (p : Text) → files.content p ≢ [] → text_mem p us ≡ true

  module _ (n : ℕ) (rec : Api → Importing → Imported Api)
      (ends : (a : Api) (st : Importing)
        → remaining us st.set < n
        → Leaves st.manager st.set (rec a st))
      (within : IsWithin) where
    import_new-Leaves :
        (path : Text) (m : List Text) (st : Importing)
        → st.manager ≡ m ++ path ∷ []
        → remaining us st.set ≤ n
        → Leaves m st.set (import_new rec files path st)
    unfolding import_new
    import_new-Leaves path m st h l = elim (Bool-cases (text_mem path st.set)) [
      | inl e ↦ rw (e, import_new) (pop_then-Leaves [] path m st.set st h (λ x b. b))
      | inr e ↦
          let new : Importing = record st { set = path ∷ st.set } in
          let kept : Kept st.set new.set = Kept-cons path st.set in
          rw (e, import_new)
            (of_loaded-Leaves m st.set new (load_file files path) _
              (load_api-IsEnd _ (files.base path) path (files.content path) (omega arith))
              (λ a q.
                let less =
                  remaining-cons path us st.set
                    (within path (loaded_source _ _ path (files.content path) a q)) e in
                then_import-Leaves m new.manager st.set new.set (rec a new) _
                  (ends a new (omega (arith, less)))
                  (λ b old f g.
                    pop_then-Leaves (b ∷ []) path m st.set old (f ∙ h) (λ x y. g x (kept x y)))))
    ]

    import_one-Leaves :
        (path : Text) (tok : Token) (st : Importing)
        → remaining us st.set ≤ n
        → Leaves st.manager st.set (import_one rec files path tok st)
    unfolding import_one
    import_one-Leaves path tok st l = elim (Option-cases (push path st.manager)) [
      | inl e ↦ rw (e, import_one) tt
      | inr (m, e) ↦
          rw (e, import_one)
            (import_new-Leaves path st.manager (record st { manager = m })
              (push-some path st.manager m e) l)
    ]

    import_loop-Leaves :
        (filename : Text) (m : List (Text × Token)) (st : Importing)
        → remaining us st.set ≤ n
        → Leaves st.manager st.set (import_loop rec files filename m st)
    unfolding import_loop
    import_loop-Leaves filename [] st l = (refl, λ x b. b)
    import_loop-Leaves filename ((p, tok) ∷ m) st l =
        then_import-Leaves st.manager st.manager st.set st.set _ _
          (import_one-Leaves (files.join filename p) tok st l)
          (λ one new f g.
            Leaves-weaken st.manager new.manager st.set new.set _
              (then_import-Leaves new.manager new.manager new.set new.set _ _
                (import_loop-Leaves filename m new
                  (omega (arith, l, remaining_kept us st.set new.set g)))
                (λ more old q k. (q, k)))
              f g)

    parse_imported_api-Leaves :
        (a : Api) (st : Importing)
        → remaining us st.set ≤ n
        → Leaves st.manager st.set (parse_imported_api rec files a st)
    unfolding parse_imported_api
    parse_imported_api-Leaves a st l =
        elim (Option-cases (import_value_set (imported_values a.import_stmt) [])) [
          | inl e ↦ rw (e, parse_imported_api) tt
          | inr (m, e) ↦
              rw (e, parse_imported_api) (import_loop-Leaves a.filename (files.order m) st l)
        ]

  parse_reverse-Leaves :
      IsWithin
      → (f : ℕ) (a : Api) (st : Importing) → remaining us st.set < f
      → Leaves st.manager st.set (parse_reverse f files a st)
  unfolding parse_reverse
  parse_reverse-Leaves within zero a st l = absurd (omega arith)
  parse_reverse-Leaves within (suc f) a st l =
      then_import-Leaves st.manager st.manager st.set st.set _ _
        (parse_imported_api-Leaves f (parse_reverse f files) (parse_reverse-Leaves within f) within
          a st (omega arith))
        (λ bs new g k.
          Leaves-weaken st.manager new.manager st.set new.set (merge_all a bs new)
            (merge_all-Leaves a bs new) g k)

Leaves-cases :
    (m s : List Text) (r : Imported Api)
    → Leaves m s r
    → ((b : Api) × (new : Importing) × (r ≡ imported b new) × (new.manager ≡ m))
      ⊎ ((e : ImportError) × (r ≡ rejected e))
      ⊎ (r ≡ exited)
      ⊎ (r ≡ panicked)
Leaves-cases m s (imported b new) h = inl (b, new, refl, h.0)
Leaves-cases m s (rejected e) h = inr (inl (e, refl))
Leaves-cases m s exited h = inr (inr (inl refl))
Leaves-cases m s panicked h = inr (inr (inr refl))
Leaves-cases m s no_fuel h = absurd h

-- Where the files with a text are those of a list, and the fuel is more than its length,
-- `parseReverse` comes to an end on every file, whatever imports what: it answers with a merged API
-- and has the import stack as it was, or with an error, or the process exits, or it panics.
pub parse_reverse_ends :
    (files : Files) (us : List Text)
    → IsWithin files us
    → (f : ℕ) (a : Api) (st : Importing) → length us < f
    → ((b : Api) × (new : Importing) × (parse_reverse f files a st ≡ imported b new)
        × (new.manager ≡ st.manager))
      ⊎ ((e : ImportError) × (parse_reverse f files a st ≡ rejected e))
      ⊎ (parse_reverse f files a st ≡ exited)
      ⊎ (parse_reverse f files a st ≡ panicked)
parse_reverse_ends files us within f a st l =
    Leaves-cases st.manager st.set _
      (parse_reverse-Leaves files us within f a st (omega (arith, remaining-length us st.set)))
