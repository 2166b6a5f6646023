-- ===== src/Rpc/Imports/Total.antt =====
-- The walk over imports returns when the fuel is more than the number of files that imports can
-- stand for, and what `ResolveImports` then answers with.
use zctl.Base.{
  ℕ, zero, suc, ◌≤◌, ◌<◌, true, List, [], ◌∷◌, Option, none, some, Text, ◌≡◌, ◌≢◌, refl, arith, inl,
  inr, Bool-cases, Option-cases, text_mem,
}
use zctl.Base.Remaining.{remaining, remaining_kept, remaining-cons}
use zctl.Rpc.Imports.{
  Files, Visit, Walked, done, failed, out_of_fuel, and_then, mark, visit_import, target,
  walk_imports, collect_imports,
}
use zctl.Rpc.Imports.Reach.{Ensures}
use zctl.Rpc.Imports.Closed.{Entered, Targets, visit_import-Targets, collect_imports-Entered}

and_then_returns :
    (P : Visit → Type 0) (r : Walked) (next : Visit → Walked)
    → Ensures P Unit r
    → r ≢ out_of_fuel
    → ((v : Visit) → P v → next v ≢ out_of_fuel)
    → and_then r next ≢ out_of_fuel
and_then_returns P (done v) next h n k = k v h
and_then_returns P failed next h n k = λ e. cc
and_then_returns P out_of_fuel next h n k = n

module _ (files : Files) (proto_paths : List Text) (us : List Text) where
  -- Every import that is looked up and found stands for a file of the list.
  abbrev pub IsWithin : Type 0
  IsWithin = (filename b : Text) → target files proto_paths filename ≡ some b → text_mem b us ≡ true

  visit_import_returns :
      (n : ℕ) (rec : Text → Visit → Walked)
      → ((b : Text) (v : Visit) → remaining us v.visited < n → rec b v ≢ out_of_fuel)
      → (o : Option Text) → ((b : Text) → o ≡ some b → text_mem b us ≡ true)
      → (v : Visit) → remaining us v.visited ≤ n
      → visit_import rec o v ≢ out_of_fuel
  visit_import_returns n rec h none i v l = λ e. cc
  visit_import_returns n rec h (some b) i v l = elim (Bool-cases (text_mem b v.visited)) [
    | inl e ↦ rw (e, visit_import) (λ p. cc)
    | inr e ↦
        rw (e, visit_import)
          (h b (mark b v) (omega (arith, l, remaining-cons b us v.visited (i b refl) e)))
  ]

  walk_imports_returns :
      (n : ℕ) (rec : Text → Visit → Walked)
      → ((b : Text) (v : Visit) → remaining us v.visited < n → rec b v ≢ out_of_fuel)
      → ((b : Text) (v : Visit) → Ensures (Entered files proto_paths b v) Unit (rec b v))
      → IsWithin
      → (fs : List Text) (v : Visit) → remaining us v.visited ≤ n
      → walk_imports files proto_paths rec fs v ≢ out_of_fuel
  unfolding walk_imports
  walk_imports_returns n rec h g i [] v l = λ e. cc
  walk_imports_returns n rec h g i (f ∷ fs) v l =
      let o = target files proto_paths f in
      and_then_returns (Targets files proto_paths o v) (visit_import rec o v) _
        (visit_import-Targets files proto_paths rec g o v)
        (visit_import_returns n rec h o (i f) v l)
        (λ u t.
          walk_imports_returns n rec h g i fs u
            (omega (arith, l, remaining_kept us v.visited u.visited t.0.kept)))

  pub collect_imports_returns :
      (fuel : ℕ) (src : Text) (v : Visit)
      → IsWithin
      → remaining us v.visited < fuel
      → collect_imports files proto_paths fuel src v ≢ out_of_fuel
  unfolding collect_imports
  collect_imports_returns zero src v i l = absurd (omega (arith, l))
  collect_imports_returns (suc fuel) src v i l = elim (Option-cases (files.imports_of src)) [
    | inl e ↦ rw (e, collect_imports) (λ p. cc)
    | inr (fs, e) ↦
        rw (e, collect_imports)
          (walk_imports_returns fuel (collect_imports files proto_paths fuel)
            (λ b w k. collect_imports_returns fuel b w i k)
            (collect_imports-Entered files proto_paths fuel) i fs v (omega (arith, l)))
  ]
