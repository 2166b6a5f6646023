-- ===== src/Rpc/Imports/Result.antt =====
-- What `ResolveImports` answers with.
use zctl.Base.{
  ℕ, ◌<◌, ◌⊎◌, none, some, refl, length, Option-cases, true, List, [], ◌∷◌, Text, ◌≡◌, ◌≢◌, ◌↔◌,
  arith, inl, inr, Bool-cases, text_eq, text_mem, text_eq_iff, subst, sym, ap, IsAcyclic,
}
use zctl.Rpc.Imports.{
  Files, Visit, Walked, done, failed, out_of_fuel, collect_imports, resolve_from, resolve_imports,
}
use zctl.Rpc.Imports.Reach.{Ensures, Reach, here, there}
use zctl.Rpc.Imports.Found.{Fault, IsFound, collect_imports-Found, start-IsFound}
use zctl.Rpc.Imports.Closed.{IsClosed, Entered, collect_imports-Entered}
use zctl.Base.Remaining.{remaining_single}
use zctl.Rpc.Imports.Total.{IsWithin, collect_imports_returns}

module _ (files : Files) (proto_paths : List Text) where
  abbrev start : Text → Visit
  start src = record { visited = src ∷ []; result = [] }

  Reach-visited :
      (src x : Text) (w : Visit)
      → Entered files proto_paths src (start src) w
      → Reach files proto_paths src x
      → text_mem x w.visited ≡ true
  unfolding text_mem
  Reach-visited src x w e here = e.0.kept src (ground (arith, text_eq_iff src src))
  Reach-visited src x w e (there {b} fs r p n) =
      let m = Reach-visited src b w e r in
      elim (Bool-cases (text_eq b src)) [
        | inl q ↦
            subst (λ y. IsClosed files proto_paths y w) (sym ((text_eq_iff b src).0 q)) e.1 fs p x n
        | inr q ↦ e.0.closed b m (ground (arith, q)) fs p x n
      ]

  -- The paths of the result: each once, and exactly those that the source reaches, without itself.
  abbrev pub IsExact : Text → List Text → Type 0
  IsExact src result =
      IsAcyclic result
      × ((x : Text) → (text_mem x result ≡ true) ↔ (Reach files proto_paths src x × (x ≢ src)))

  result-IsExact :
      (src : Text) (w : Visit)
      → IsFound files proto_paths src w
      → Entered files proto_paths src (start src) w
      → IsExact src w.result
  result-IsExact src w i e = (
    i.acyclic,
    λ x. (
      (λ h. (
        i.reached x (ground (arith, i.split x, h)),
        λ q. let k = subst (λ y. text_mem y w.result ≡ true) q h in cc (k, i.apart),
      )),
      λ (r, n).
          let m = Reach-visited src x w e r in ground (arith, m, i.split x, text_eq_iff x src, n),
    ),
  )

  -- A walk from `src` fails for a file that cannot be read, or has the exact result.
  abbrev pub Answers : Text → Walked → Type 0
  Answers src r =
      ((r ≡ failed) × Fault files proto_paths src)
      ⊎ ((v : Visit) × (r ≡ done v) × IsExact src v.result)

  walked-Answers :
      (src : Text) (r : Walked)
      → r ≢ out_of_fuel
      → Ensures (IsFound files proto_paths src) (Fault files proto_paths src) r
      → Ensures (Entered files proto_paths src (start src)) Unit r
      → Answers src r
  walked-Answers src (done v) n i e = inr (v, refl, result-IsExact src v i e)
  walked-Answers src failed n i e = inl (refl, i)
  walked-Answers src out_of_fuel n i e = absurd (n refl)

  -- Where the imports that are found stand for files of a list, and the fuel is more than its
  -- length: either `filepath.Abs` of the source fails, and so does `ResolveImports`; or
  -- `ResolveImports` fails, and the source reaches a file whose imports cannot be read; or it
  -- answers with every file that the source reaches, but the source itself, once.
  pub resolve_imports-Answers :
      (us : List Text) (fuel : ℕ) (src : Text)
      → IsWithin files proto_paths us
      → length us < fuel
      → ((files.abs src ≡ none) × (resolve_imports files proto_paths fuel src ≡ failed))
        ⊎ ((a : Text) × (files.abs src ≡ some a)
            × Answers a (resolve_imports files proto_paths fuel src))
  unfolding resolve_imports resolve_from
  resolve_imports-Answers us fuel src i l = elim (Option-cases (files.abs src)) [
    | inl e ↦ inl (e, ap (resolve_from files proto_paths fuel) e)
    | inr (a, e) ↦ inr (
      a,
      e,
      subst (λ o. Answers a (resolve_from files proto_paths fuel o)) (sym e)
          (walked-Answers a (collect_imports files proto_paths fuel a (start a))
            (collect_imports_returns files proto_paths us fuel a (start a) i
              (remaining_single us a fuel l))
            (collect_imports-Found files proto_paths a fuel a (start a) here
              (start-IsFound files proto_paths a))
            (collect_imports-Entered files proto_paths fuel a (start a))),
    )
  ]
