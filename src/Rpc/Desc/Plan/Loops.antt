-- ===== src/Rpc/Desc/Plan/Loops.antt =====
-- What the loops of addSchema keep: the rpcs that are new, with every message that they need.
use zctl.Base.{
  Bool, true, false, not, ◌||◌, List, [], ◌∷◌, ◌++◌, Option, none, some, Text, text_mem,
  text_eq_iff, if◌then◌else◌, ◌≡◌, refl, sym, subst, ◌∙◌, arith, Bool-cases, inl, inr, ◌⊎◌, All,
  All-append, append-nil, append_assoc, All-map, All-both,
}
use zctl.Rpc.Desc.Fields.{is_base_proto_message}
use zctl.Rpc.Desc.Scan.{MessageInfo, Index, find}
use zctl.Rpc.Desc.Plan.{
  MessageBlock, RpcEntry, expected_msg, differs, Filtered, keep_import, has_mismatch, sort_deps,
  filter_rpc, filter_rpcs,
}

-- The sets have grown.
record Grows (s t : Filtered) : Type 0 where
  needed : (p : Text) → text_mem p s.needed ≡ true → text_mem p t.needed ≡ true
  imports : (p : Text) → text_mem p s.imports ≡ true → text_mem p t.imports ≡ true

Grows-trans : (s t u : Filtered) → Grows s t → Grows t u → Grows s u
Grows-trans s t u g h = record {
  needed = λ p m. h.needed p (g.needed p m);
  imports = λ p m. h.imports p (g.imports p m);
}

module _ (index : Index) (messages : List MessageBlock) where
  -- The message is not there with other fields than the schema has, or is one of base.proto.
  abbrev pub agrees : Text → Bool
  agrees dep =
      is_base_proto_message dep
      || not (differs (expected_msg dep messages) (find dep index.messages))

  -- The message is one of base.proto, or its file is among the imports, or it is needed.
  abbrev pub Served : Filtered → Text → Type 0
  Served s dep =
      (is_base_proto_message dep ≡ true)
      ⊎ (((info : MessageInfo) × (find dep index.messages ≡ some info)
            × (text_mem info.rel_path s.imports ≡ true))
          ⊎ ((find dep index.messages ≡ none) × (text_mem dep s.needed ≡ true)))

  Served-Grows : (s t : Filtered) (dep : Text) → Grows s t → Served s dep → Served t dep
  Served-Grows s t dep g (inl b) = inl b
  Served-Grows s t dep g (inr (inl (info, e, m))) = inr (inl (info, e, g.imports info.rel_path m))
  Served-Grows s t dep g (inr (inr (e, m))) = inr (inr (e, g.needed dep m))

  keep_import-Grows :
      (o : Option MessageInfo) (dep : Text) (s : Filtered) → Grows s (keep_import o dep s)
  unfolding text_mem
  keep_import-Grows none dep s = record { needed = λ p m. ground (arith, m); imports = λ p m. m }
  keep_import-Grows (some info) dep s = record {
    needed = λ p m. m;
    imports = λ p m. ground (arith, m);
  }

  keep_import-Served :
      (dep : Text) (s : Filtered) (o : Option MessageInfo)
      → find dep index.messages ≡ o
      → Served (keep_import o dep s) dep
  unfolding text_mem
  keep_import-Served dep s none e = inr (inr (e, ground (arith, text_eq_iff dep dep)))
  keep_import-Served dep s (some info) e =
      inr (inl (info, e, ground (arith, text_eq_iff info.rel_path info.rel_path)))

  abbrev with_dep : Text → Filtered → Filtered
  with_dep dep s =
      if is_base_proto_message dep then s else keep_import (find dep index.messages) dep s

  with_dep-Served :
      (dep : Text) (s : Filtered) → Grows s (with_dep dep s) × Served (with_dep dep s) dep
  with_dep-Served dep s = elim (Bool-cases (is_base_proto_message dep)) [
    | inl b ↦
        let e : s ≡ with_dep dep s = rw (b, if◌then◌else◌) refl in
        subst (λ t. Grows s t × Served t dep) e
          (record { needed = λ p m. m; imports = λ p m. m }, inl b)
    | inr b ↦
        let t = keep_import (find dep index.messages) dep s in
        let e : t ≡ with_dep dep s = rw (b, if◌then◌else◌) refl in
        subst (λ t. Grows s t × Served t dep) e
          (
            keep_import-Grows (find dep index.messages) dep s,
            keep_import-Served dep s (find dep index.messages) refl,
          )
  ]

  sort_deps-Served :
      (deps : List Text) (s : Filtered)
      → Grows s (sort_deps index messages deps s)
        × All (Served (sort_deps index messages deps s)) deps
        × ((sort_deps index messages deps s).kept ≡ s.kept)
  unfolding sort_deps
  sort_deps-Served [] s = (record { needed = λ p m. m; imports = λ p m. m }, tt, refl)
  sort_deps-Served (dep ∷ deps) s =
      let w = with_dep-Served dep s in
      let h = sort_deps-Served deps (with_dep dep s) in
      (
        Grows-trans s (with_dep dep s) _ w.0 h.0,
        (Served-Grows (with_dep dep s) _ dep h.0 w.1, h.1),
        h.2 ∙ ground arith,
      )

  has_mismatch-agrees :
      (deps : List Text)
      → has_mismatch index messages deps ≡ false
      → All (λ dep. agrees dep ≡ true) deps
  unfolding has_mismatch
  has_mismatch-agrees [] h = tt
  has_mismatch-agrees (dep ∷ deps) h =
      (ground (arith, h), has_mismatch-agrees deps (ground (arith, h)))

  -- The rpc is new, and each message that it needs agrees and is served.
  abbrev pub Good : List Text → Filtered → RpcEntry → Type 0
  Good existing s r =
      (text_mem r.method existing ≡ false) × All (λ dep. (agrees dep ≡ true) × Served s dep) r.deps

  Good-Grows :
      (existing : List Text) (s t : Filtered) (r : RpcEntry)
      → Grows s t
      → Good existing s r
      → Good existing t r
  Good-Grows existing s t r g h = (
    h.0,
    All-map (λ dep. (agrees dep ≡ true) × Served s dep) (λ dep. (agrees dep ≡ true) × Served t dep)
        (λ dep k. (k.0, Served-Grows s t dep g k.1)) r.deps h.1,
  )

  filter_rpc-Good :
      (existing : List Text) (r : RpcEntry) (s : Filtered)
      → All (Good existing s) s.kept
      → All
          (Good existing (filter_rpc index messages existing r s))
          (filter_rpc index messages existing r s).kept
  unfolding filter_rpc
  filter_rpc-Good existing r s h = elim (Bool-cases (text_mem r.method existing)) [
    | inl e ↦ rw (e, if◌then◌else◌) h
    | inr e ↦ elim (Bool-cases (has_mismatch index messages r.deps)) [
      | inl m ↦ rw (e, m, if◌then◌else◌) h
      | inr m ↦
          let t = sort_deps index messages r.deps s in
          let k = sort_deps-Served r.deps s in
          let u : Filtered = record t { kept = t.kept ++ r ∷ [] } in
          let grown : Grows s u = record { needed = k.0.needed; imports = k.0.imports } in
          let old =
            All-map (Good existing s) (Good existing u) (λ q. Good-Grows existing s u q grown)
              s.kept h in
          let old_kept = subst (All (Good existing u)) (sym k.2) old in
          let new : Good existing u r = (
            e,
            All-both (λ dep. agrees dep ≡ true) (Served t) r.deps (has_mismatch-agrees r.deps m)
                k.1,
          ) in
          rw (e, m, if◌then◌else◌) (All-append (Good existing u) t.kept (r ∷ []) old_kept (new, tt))
    ]
  ]

  pub filter_rpcs-Good :
      (existing : List Text) (rs : List RpcEntry) (s : Filtered)
      → All (Good existing s) s.kept
      → All
          (Good existing (filter_rpcs index messages existing rs s))
          (filter_rpcs index messages existing rs s).kept
  unfolding filter_rpcs
  filter_rpcs-Good existing [] s h = h
  filter_rpcs-Good existing (r ∷ rs) s h =
      filter_rpcs-Good existing rs (filter_rpc index messages existing r s)
        (filter_rpc-Good existing r s h)

  -- The rpcs that are new and have no message that is there with other fields.
  unfoldable pub accepted : List Text → List RpcEntry → List RpcEntry
  accepted existing [] = []
  accepted existing (r ∷ rs) =
      let rest = accepted existing rs in
      if text_mem r.method existing || has_mismatch index messages r.deps then rest else r ∷ rest

  filter_rpc-kept :
      (existing : List Text) (r : RpcEntry) (s : Filtered)
      → (filter_rpc index messages existing r s).kept ≡ (
          if text_mem r.method existing || has_mismatch index messages r.deps
          then s.kept
          else s.kept ++ r ∷ [])
  unfolding filter_rpc
  filter_rpc-kept existing r s = ground (arith, (sort_deps-Served r.deps s).2)

  pub filter_rpcs-kept :
      (existing : List Text) (rs : List RpcEntry) (s : Filtered)
      → (filter_rpcs index messages existing rs s).kept ≡ s.kept ++ accepted existing rs
  unfolding filter_rpcs accepted
  filter_rpcs-kept existing [] s = sym (append-nil s.kept)
  filter_rpcs-kept existing (r ∷ rs) s =
      filter_rpcs-kept existing rs (filter_rpc index messages existing r s)
      ∙ elim (Bool-cases (text_mem r.method existing || has_mismatch index messages r.deps)) [
        | inl b ↦
            let k : (filter_rpc index messages existing r s).kept ≡ s.kept =
              filter_rpc-kept existing r s ∙ rw (b, if◌then◌else◌) refl in
            rw (b, k, if◌then◌else◌) refl
        | inr b ↦
            let k : (filter_rpc index messages existing r s).kept ≡ s.kept ++ r ∷ [] =
              filter_rpc-kept existing r s ∙ rw (b, if◌then◌else◌) refl in
            rw (b, k, if◌then◌else◌) (append_assoc s.kept (r ∷ []) (accepted existing rs))
      ]
