-- ===== src/Rpc/Imports/Closed.antt =====
-- What the walk over imports leaves out: nothing. A file that it has entered has all its imports
-- in the visited set at the end.
use zctl.Base.{
  ℕ, zero, suc, true, false, List, [], ◌∷◌, Option, none, some, Text, ◌≡◌, arith, inl, inr,
  Bool-cases, Option-cases, text_eq, text_mem, text_eq_iff, subst, sym,
}
use zctl.Rpc.Imports.{
  Files, Visit, Walked, mark, visit_import, target, walk_imports, collect_imports,
}
use zctl.Rpc.Imports.Reach.{Names, Ensures, and_then-Ensures, Ensures-weaken}

module _ (files : Files) (proto_paths : List Text) where
  -- Every file that `x` imports is visited.
  abbrev pub IsClosed : Text → Visit → Type 0
  IsClosed x w =
      (fs : List Text)
      → files.imports_of x ≡ some fs
      → (c : Text) → Names files proto_paths fs c
      → text_mem c w.visited ≡ true

  -- The visited set has grown from `v` to `w`, by files whose imports are visited.
  pub record Grown (v w : Visit) : Type 0 where
    pub kept : (x : Text) → text_mem x v.visited ≡ true → text_mem x w.visited ≡ true
    pub closed :
        (x : Text) → text_mem x w.visited ≡ true → text_mem x v.visited ≡ false → IsClosed x w

  Grown-refl : (v : Visit) → Grown v v
  Grown-refl v = record { kept = λ x h. h; closed = λ x h n. cc }

  IsClosed-kept : (x : Text) (u w : Visit) → Grown u w → IsClosed x u → IsClosed x w
  IsClosed-kept x u w g h = λ fs e c n. g.kept c (h fs e c n)

  Grown-trans : (v u w : Visit) → Grown v u → Grown u w → Grown v w
  Grown-trans v u w g h = record {
    kept = λ x m. h.kept x (g.kept x m);
    closed = λ x m n. elim (Bool-cases (text_mem x u.visited)) [
      | inl e ↦ IsClosed-kept x u w h (g.closed x e n)
      | inr e ↦ h.closed x m e
    ];
  }

  Grown-mark :
      (b : Text) (v w : Visit)
      → Grown (mark b v) w
      → IsClosed b w
      → Grown v w × (text_mem b w.visited ≡ true)
  unfolding text_mem
  Grown-mark b v w g h = (
    record {
      kept = λ x m. g.kept x (ground (arith, m));
      closed = λ x m n. elim (Bool-cases (text_eq x b)) [
        | inl e ↦ subst (λ y. IsClosed y w) (sym ((text_eq_iff x b).0 e)) h
        | inr e ↦ g.closed x m (ground (arith, e, n))
      ];
    },
    g.kept b (ground (arith, text_eq_iff b b)),
  )

  -- What a call of `collectImports` in a state leads to.
  abbrev pub Entered : Text → Visit → Visit → Type 0
  Entered src v w = Grown v w × IsClosed src w

  abbrev pub Targets : Option Text → Visit → Visit → Type 0
  Targets o v w = Grown v w × ((c : Text) → o ≡ some c → text_mem c w.visited ≡ true)

  abbrev Listed : List Text → Visit → Visit → Type 0
  Listed fs v w =
      Grown v w × ((c : Text) → Names files proto_paths fs c → text_mem c w.visited ≡ true)

  pub visit_import-Targets :
      (rec : Text → Visit → Walked)
      → ((b : Text) (v : Visit) → Ensures (Entered b v) Unit (rec b v))
      → (o : Option Text) (v : Visit) → Ensures (Targets o v) Unit (visit_import rec o v)
  visit_import-Targets rec h none v = (Grown-refl v, λ c e. cc)
  visit_import-Targets rec h (some b) v = elim (Bool-cases (text_mem b v.visited)) [
    | inl e ↦ rw (e, Ensures) (Grown-refl v, λ c p. cc)
    | inr e ↦
        rw (e, Ensures)
          (Ensures-weaken (Entered b (mark b v)) (Targets (some b) v) Unit (rec b (mark b v))
            (λ w m. let g = Grown-mark b v w m.0 m.1 in (g.0, λ c p. cc (g.1))) (h b (mark b v)))
  ]

  Listed-cons :
      (f : Text) (fs : List Text) (v u w : Visit)
      → Targets (target files proto_paths f) v u
      → Listed fs u w
      → Listed (f ∷ fs) v w
  Listed-cons f fs v u w t l =
      (Grown-trans v u w t.0 l.0, λ c n. elim n [ inl e ↦ l.0.kept c (t.1 c e) | inr m ↦ l.1 c m ])

  Listed-Closed :
      (src : Text) (fs : List Text) (w : Visit)
      → files.imports_of src ≡ some fs
      → ((c : Text) → Names files proto_paths fs c → text_mem c w.visited ≡ true)
      → IsClosed src w
  Listed-Closed src fs w e h =
      λ gs p c n. let q : gs ≡ fs = cc in h c (subst (λ ys. Names files proto_paths ys c) q n)

  walk_imports-Listed :
      (rec : Text → Visit → Walked)
      → ((b : Text) (v : Visit) → Ensures (Entered b v) Unit (rec b v))
      → (fs : List Text) (v : Visit)
      → Ensures (Listed fs v) Unit (walk_imports files proto_paths rec fs v)
  unfolding walk_imports
  walk_imports-Listed rec h [] v = (Grown-refl v, λ c n. absurd n)
  walk_imports-Listed rec h (f ∷ fs) v =
      and_then-Ensures (Targets (target files proto_paths f) v) (Listed (f ∷ fs) v) Unit
        (visit_import rec (target files proto_paths f) v) _
        (visit_import-Targets rec h (target files proto_paths f) v)
        (λ u t.
          Ensures-weaken (Listed fs u) (Listed (f ∷ fs) v) Unit
            (walk_imports files proto_paths rec fs u) (λ w l. Listed-cons f fs v u w t l)
            (walk_imports-Listed rec h fs u))

  pub collect_imports-Entered :
      (fuel : ℕ) (src : Text) (v : Visit)
      → Ensures (Entered src v) Unit (collect_imports files proto_paths fuel src v)
  unfolding collect_imports
  collect_imports-Entered zero src v = tt
  collect_imports-Entered (suc fuel) src v = elim (Option-cases (files.imports_of src)) [
    | inl e ↦ rw (e, Ensures) tt
    | inr (fs, e) ↦
        rw (e, Ensures)
          (Ensures-weaken (Listed fs v) (Entered src v) Unit
            (walk_imports files proto_paths (collect_imports files proto_paths fuel) fs v)
            (λ w l. (l.0, Listed-Closed src fs w e l.1))
            (walk_imports-Listed (collect_imports files proto_paths fuel)
              (collect_imports-Entered fuel) fs v))
  ]
