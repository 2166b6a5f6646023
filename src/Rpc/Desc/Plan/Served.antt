-- ===== src/Rpc/Desc/Plan/Served.antt =====
-- What a plan of addSchema holds: rpcs that are new, with every message that they need.
use zctl.Base.{
  Bool, true, false, ◌||◌, List, [], none, some, Text, text_eq, text_mem, if◌then◌else◌, ◌≡◌, sym,
  ap, subst, ◌∙◌, arith, Bool-cases, inl, inr, ◌⊎◌, All, All-map,
}
use zctl.Rpc.Merge.{sort_texts}
use zctl.Rpc.Desc.Fields.{is_base_proto_message}
use zctl.Rpc.Desc.Scan.{MessageInfo, Index, find, is_nil}
use zctl.Rpc.Desc.Plan.{
  MessageBlock, RpcEntry, FullProtoSet, ProtoFilePlan, Filtered, kept_messages, without_self, keys,
  filter_rpcs, rpcs_of, plan_of, schema_file_plan,
}
use zctl.Rpc.Desc.Plan.Sets.{
  text_mem-sort_texts, text_mem-without_self, text_mem-keys, has_block, has_block-kept_messages,
}
use zctl.Rpc.Desc.Plan.Loops.{agrees, Served, Good, filter_rpcs-Good, accepted, filter_rpcs-kept}

module _ (index : Index) (messages : List MessageBlock) where
  -- What a plan has for a message that an rpc needs: it is one of base.proto; or the index has it,
  -- and the plan imports its file, unless that is the file of the plan; or the index does not have
  -- it, and the plan has a block for it, if the schema has.
  abbrev pub Provided : Text → ProtoFilePlan → Text → Type 0
  Provided self_rel plan dep =
      (is_base_proto_message dep ≡ true)
      ⊎ (((info : MessageInfo) × (find dep index.messages ≡ some info)
            × ((text_mem info.rel_path plan.imports || text_eq info.rel_path self_rel) ≡ true))
          ⊎ ((find dep index.messages ≡ none)
              × (has_block dep plan.messages ≡ has_block dep messages)))

  -- The rpc is new in its service, and each message that it needs agrees and is provided.
  abbrev pub IsComplete : List Text → Text → ProtoFilePlan → RpcEntry → Type 0
  IsComplete existing self_rel plan r =
      (text_mem r.method existing ≡ false)
      × All (λ dep. (agrees index messages dep ≡ true) × Provided self_rel plan dep) r.deps

  Served-Provided :
      (self_rel : Text) (s : Filtered) (plan : ProtoFilePlan) (dep : Text)
      → plan.imports ≡ sort_texts (without_self self_rel (keys s.imports))
      → plan.messages ≡ kept_messages s.needed messages
      → Served index messages s dep
      → Provided self_rel plan dep
  Served-Provided self_rel s plan dep i m (inl b) = inl b
  Served-Provided self_rel s plan dep i m (inr (inl (info, e, k))) = inr (
      inl (
        info,
        e,
        ground (
          arith,
          k,
          ap (text_mem info.rel_path) i,
          text_mem-sort_texts info.rel_path (without_self self_rel (keys s.imports)),
          text_mem-without_self info.rel_path self_rel (keys s.imports),
          text_mem-keys info.rel_path s.imports,
        ),
      ))
  Served-Provided self_rel s plan dep i m (inr (inr (e, k))) = inr (
      inr
        (e, ground (arith, k, ap (has_block dep) m, has_block-kept_messages dep s.needed messages)))

  plan_of-IsComplete :
      (existing : List Text) (abs_path self_rel model_name : Text) (s : Filtered)
      (plan : ProtoFilePlan)
      → All (Good index messages existing s) s.kept
      → plan_of abs_path self_rel model_name messages s ≡ some plan
      → All (IsComplete existing self_rel plan) plan.rpcs
  unfolding plan_of
  plan_of-IsComplete existing abs_path self_rel model_name s plan h e =
      let i : plan.imports ≡ sort_texts (without_self self_rel (keys s.imports)) =
        ground (arith, e) in
      let m : plan.messages ≡ kept_messages s.needed messages = ground (arith, e) in
      let k : s.kept ≡ plan.rpcs = ground (arith, e) in
      subst (All (IsComplete existing self_rel plan)) k (
        All-map (Good index messages existing s) (IsComplete existing self_rel plan)
          (λ r g. (
            g.0,
            All-map (λ dep. (agrees index messages dep ≡ true) × Served index messages s dep)
                (λ dep. (agrees index messages dep ≡ true) × Provided self_rel plan dep)
                (λ dep q. (q.0, Served-Provided self_rel s plan dep i m q.1)) r.deps g.1,
          ))
          s.kept h)

plan_of-rpcs :
    (abs_path self_rel model_name : Text) (messages : List MessageBlock) (s : Filtered)
    (plan : ProtoFilePlan)
    → plan_of abs_path self_rel model_name messages s ≡ some plan
    → s.kept ≡ plan.rpcs
unfolding plan_of
plan_of-rpcs abs_path self_rel model_name messages s plan e = ground (arith, e)

-- The rpcs of a plan that addSchema makes are those of the schema that are new in the service and
-- need no message that is there with other fields than the schema has. Each message that one of
-- them needs is one of base.proto, or stands in a file that the plan imports or in the file of the
-- plan, or is not there, and the plan has a block for it, if the schema has.
pub schema_file_plan-IsComplete :
    (index : Index) (service_name abs_path self_rel model_name : Text)
    (dao_pre_existed file_exists : Bool) (full : FullProtoSet) (plan : ProtoFilePlan)
    → schema_file_plan index service_name abs_path self_rel model_name dao_pre_existed file_exists
        full
      ≡ some plan
    → (plan.rpcs ≡ accepted index full.messages (rpcs_of (find service_name index.rpcs)) full.rpcs)
      × All
          (IsComplete index full.messages (rpcs_of (find service_name index.rpcs)) self_rel plan)
          plan.rpcs
unfolding schema_file_plan
schema_file_plan-IsComplete index service_name abs_path self_rel model_name dao file full plan e =
    elim (Bool-cases (dao || file || is_nil full.rpcs)) [
      | inl b ↦ ground (arith, e, b)
      | inr b ↦
          let existing = rpcs_of (find service_name index.rpcs) in
          let start : Filtered = record { kept = []; needed = []; imports = [] } in
          let s = filter_rpcs index full.messages existing full.rpcs start in
          let p = rw (b, if◌then◌else◌) at e in
          (
            sym (plan_of-rpcs abs_path self_rel model_name full.messages s plan p)
                ∙ filter_rpcs-kept index full.messages existing full.rpcs start,
            plan_of-IsComplete index full.messages existing abs_path self_rel model_name s plan
                (filter_rpcs-Good index full.messages existing full.rpcs start tt) p,
          )
    ]
