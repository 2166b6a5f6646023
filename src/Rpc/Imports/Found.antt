-- ===== src/Rpc/Imports/Found.antt =====
-- What the walk over imports finds: files that the root reaches, each once.
use zctl.Base.{
  ℕ, zero, suc, true, false, ◌||◌, List, [], ◌∷◌, Option, none, some, Text, ◌≡◌, refl, arith, inl,
  inr, Bool-cases, Option-cases, IsAcyclic, text_eq, text_mem, text_eq_iff, text_mem-append,
  append-IsAcyclic, subst, sym,
}
use zctl.Rpc.Imports.{
  Files, Visit, Walked, mark, visit_import, target, walk_imports, collect_imports,
}
use zctl.Rpc.Imports.Reach.{Names, Reach, here, there, Ensures, and_then-Ensures}

module _ (files : Files) (proto_paths : List Text) (root : Text) where
  -- A file that the root reaches and that cannot be read or parsed.
  abbrev pub Fault : Type 0
  Fault = (x : Text) × Reach files proto_paths root x × (files.imports_of x ≡ none)

  -- The visited files are the result and the root; the root reaches them, and none stands twice.
  pub record IsFound (v : Visit) : Type 0 where
    pub reached : (x : Text) → text_mem x v.visited ≡ true → Reach files proto_paths root x
    pub split : (x : Text) → text_mem x v.visited ≡ (text_mem x v.result || text_eq x root)
    pub acyclic : IsAcyclic v.result
    pub apart : text_mem root v.result ≡ false

  mark-reached :
      (b x : Text) (v : Visit)
      → IsFound v
      → Reach files proto_paths root b
      → text_mem x (b ∷ v.visited) ≡ true
      → Reach files proto_paths root x
  unfolding text_mem
  mark-reached b x v i r h = elim (Bool-cases (text_eq x b)) [
    | inl e ↦ subst (Reach files proto_paths root) (sym ((text_eq_iff x b).0 e)) r
    | inr e ↦ i.reached x (ground (arith, e, h))
  ]

  mark-IsFound :
      (b : Text) (v : Visit)
      → IsFound v
      → text_mem b v.visited ≡ false
      → Reach files proto_paths root b
      → IsFound (mark b v)
  unfolding text_mem
  mark-IsFound b v i e r = record {
    reached = λ x. mark-reached b x v i r;
    split = λ x. ground (arith, text_mem-append x b v.result, i.split x);
    acyclic = append-IsAcyclic b v.result (ground (arith, i.split b, e)) i.acyclic;
    apart = ground (
      arith,
      text_mem-append root b v.result,
      i.apart,
      i.split b,
      e,
      text_eq_iff root b,
      text_eq_iff b root,
    );
  }

  visit_import-Found :
      (rec : Text → Visit → Walked)
      → ((b : Text) (v : Visit)
          → Reach files proto_paths root b
          → IsFound v
          → Ensures IsFound Fault (rec b v))
      → (o : Option Text) → ((c : Text) → o ≡ some c → Reach files proto_paths root c)
      → (v : Visit) → IsFound v
      → Ensures IsFound Fault (visit_import rec o v)
  visit_import-Found rec h none r v i = i
  visit_import-Found rec h (some b) r v i = elim (Bool-cases (text_mem b v.visited)) [
    | inl e ↦ rw (e, Ensures) i
    | inr e ↦ rw (e, Ensures) (h b (mark b v) (r b refl) (mark-IsFound b v i e (r b refl)))
  ]

  walk_imports-Found :
      (rec : Text → Visit → Walked)
      → ((b : Text) (v : Visit)
          → Reach files proto_paths root b
          → IsFound v
          → Ensures IsFound Fault (rec b v))
      → (fs : List Text)
      → ((c : Text) → Names files proto_paths fs c → Reach files proto_paths root c)
      → (v : Visit) → IsFound v
      → Ensures IsFound Fault (walk_imports files proto_paths rec fs v)
  unfolding walk_imports
  walk_imports-Found rec h [] r v i = i
  walk_imports-Found rec h (f ∷ fs) r v i =
      and_then-Ensures IsFound IsFound Fault (visit_import rec (target files proto_paths f) v) _
        (visit_import-Found rec h (target files proto_paths f) (λ c e. r c (inl e)) v i)
        (walk_imports-Found rec h fs (λ c n. r c (inr n)))

  pub collect_imports-Found :
      (fuel : ℕ) (src : Text) (v : Visit)
      → Reach files proto_paths root src
      → IsFound v
      → Ensures IsFound Fault (collect_imports files proto_paths fuel src v)
  unfolding collect_imports
  collect_imports-Found zero src v r i = tt
  collect_imports-Found (suc fuel) src v r i = elim (Option-cases (files.imports_of src)) [
    | inl e ↦ rw (e, Ensures) (src, r, e)
    | inr (fs, e) ↦
        rw (e, Ensures)
          (walk_imports-Found (collect_imports files proto_paths fuel) (collect_imports-Found fuel)
            fs (λ c n. there fs r e n) v i)
  ]

  pub start-IsFound : IsFound (record { visited = root ∷ []; result = [] })
  unfolding text_mem
  start-IsFound = record {
    reached = λ x h.
        subst (Reach files proto_paths root) (sym ((text_eq_iff x root).0 (ground (arith, h))))
          here;
    split = λ x. ground arith;
    acyclic = tt;
    apart = refl;
  }
