-- ===== src/Rpc/Desc/Plan.antt =====
-- rpc/generator/ent/gen.go: addSchema, which decides what the desc proto of a schema holds, by the
-- index of the protos that are there. What buildFullProtoEntries makes of a schema is an argument,
-- and so are the paths, which are taken to have slashes.
pub mod Sets
pub mod Loops
pub mod Served
mod Tests
use zctl.Base.{
  Bool, true, false, not, ◌||◌, List, [], ◌∷◌, ◌++◌, Option, none, some, Text, text_eq, text_mem,
  if◌then◌else◌,
}
use zctl.Rpc.Merge.{sort_texts}
use zctl.Rpc.Desc.Fields.{FieldSig, message_fields_equal, is_base_proto_message}
use zctl.Rpc.Desc.Scan.{MessageInfo, Index, find, is_nil}

-- `protoMessageBlock`
pub record MessageBlock : Type 0 where
  pub name : Text
  pub comment : Text
  pub body : Text
  pub fields : List FieldSig

-- `protoRPCEntry`
pub record RpcEntry : Type 0 where
  pub method : Text
  pub req : Text
  pub resp : Text
  pub comment : Text
  pub deps : List Text

-- `fullProtoSet`
pub record FullProtoSet : Type 0 where
  pub messages : List MessageBlock
  pub rpcs : List RpcEntry

-- `protoFilePlan`
pub record ProtoFilePlan : Type 0 where
  pub abs_path : Text
  pub model_name : Text
  pub messages : List MessageBlock
  pub rpcs : List RpcEntry
  pub imports : List Text

abbrev pub this_or : MessageBlock → Text → Option MessageBlock → Option MessageBlock
this_or m name (some later) = some later
this_or m name none = if text_eq m.name name then some m else none

-- `expectedMsg[name]`: the last block with the name.
unfoldable pub expected_msg : Text → List MessageBlock → Option MessageBlock
expected_msg name [] = none
expected_msg name (m ∷ ms) = this_or m name (expected_msg name ms)

-- Whether a message is there with other fields than the schema has.
unfoldable pub differs : Option MessageBlock → Option MessageInfo → Bool
differs none existing = false
differs (some expected) none = false
differs (some expected) (some existing) = not (message_fields_equal expected.fields existing.fields)

-- The kept rpcs, `neededLocalMsg` and `importPaths`, as the lists of their keys.
pub record Filtered : Type 0 where
  pub kept : List RpcEntry
  pub needed : List Text
  pub imports : List Text

abbrev pub keep_import : Option MessageInfo → Text → Filtered → Filtered
keep_import none dep s = record s { needed = dep ∷ s.needed }
keep_import (some existing) dep s = record s { imports = existing.rel_path ∷ s.imports }

-- The blocks of the messages that the file has to define.
unfoldable pub kept_messages : List Text → List MessageBlock → List MessageBlock
kept_messages needed [] = []
kept_messages needed (m ∷ ms) =
    let rest = kept_messages needed ms in if text_mem m.name needed then m ∷ rest else rest

unfoldable pub without_self : Text → List Text → List Text
without_self self [] = []
without_self self (p ∷ ps) =
    let rest = without_self self ps in if text_eq p self then rest else p ∷ rest

-- The keys of a map, each once.
unfoldable pub keys : List Text → List Text
keys [] = []
keys (p ∷ ps) = let rest = keys ps in if text_mem p ps then rest else p ∷ rest

module _ (index : Index) (messages : List MessageBlock) where
  -- `mismatch != ""` behind the loop over the dependencies.
  unfoldable pub has_mismatch : List Text → Bool
  unfolding differs
  has_mismatch [] = false
  has_mismatch (dep ∷ deps) =
      let rest = has_mismatch deps in
      if is_base_proto_message dep
      then rest
      else if differs (expected_msg dep messages) (find dep index.messages)
      then true
      else rest

  -- The second loop over the dependencies.
  unfoldable pub sort_deps : List Text → Filtered → Filtered
  sort_deps [] s = s
  sort_deps (dep ∷ deps) s =
      sort_deps deps
        (if is_base_proto_message dep then s else keep_import (find dep index.messages) dep s)

  unfoldable pub filter_rpc : List Text → RpcEntry → Filtered → Filtered
  unfolding has_mismatch sort_deps
  filter_rpc existing r s =
      if text_mem r.method existing
      then s
      else if has_mismatch r.deps
      then s
      else (let t = sort_deps r.deps s in record t { kept = t.kept ++ r ∷ [] })

  unfoldable pub filter_rpcs : List Text → List RpcEntry → Filtered → Filtered
  unfolding filter_rpc
  filter_rpcs existing [] s = s
  filter_rpcs existing (r ∷ rs) s = filter_rpcs existing rs (filter_rpc existing r s)

-- `p.existingRPCsByService[serviceName]`; a nil map has no keys.
abbrev pub rpcs_of : Option (List Text) → List Text
rpcs_of none = []
rpcs_of (some ms) = ms

-- The plan that the filtered rpcs make, unless there are none.
unfoldable pub plan_of : Text → Text → Text → List MessageBlock → Filtered → Option ProtoFilePlan
unfolding kept_messages without_self keys
plan_of abs_path self_rel model_name messages s =
    if is_nil s.kept
    then none
    else some (record {
      abs_path = abs_path;
      model_name = model_name;
      messages = kept_messages s.needed messages;
      rpcs = s.kept;
      imports = sort_texts (without_self self_rel (keys s.imports));
    })

-- The plan that `addSchema` makes for a file. Its two gates are whether the DAO was there before
-- and whether the file is.
unfoldable pub schema_file_plan :
    Index → Text → Text → Text → Text → Bool → Bool → FullProtoSet → Option ProtoFilePlan
unfolding filter_rpcs plan_of
schema_file_plan index service_name abs_path self_rel model_name dao_pre_existed file_exists full =
    if dao_pre_existed || file_exists || is_nil full.rpcs
    then none
    else plan_of abs_path self_rel model_name full.messages (
        filter_rpcs index full.messages (rpcs_of (find service_name index.rpcs)) full.rpcs
          (record { kept = []; needed = []; imports = [] }))

-- The parts of `descPlan` that `addSchema` changes: the plans by directory and file name, and the
-- groups by model.
pub record DescPlan : Type 0 where
  pub dirs : List (Text × List (Text × ProtoFilePlan))
  pub schema_target_group : List (Text × Text)

-- A map with the value put at the key.
unfoldable pub put_at {ℓ} : {A : Type ℓ} → Text → A → List (Text × A) → List (Text × A)
put_at key v [] = (key, v) ∷ []
put_at key v ((k, w) ∷ m) =
    let rest = put_at key v m in if text_eq k key then (k, v) ∷ m else (k, w) ∷ rest

abbrev pub files_of : Option (List (Text × ProtoFilePlan)) → List (Text × ProtoFilePlan)
files_of none = []
files_of (some files) = files

abbrev pub put_plan : Text → Text → Option ProtoFilePlan → DescPlan → DescPlan
put_plan dir_abs file_name none p = p
put_plan dir_abs file_name (some fp) p = record p {
  dirs = put_at dir_abs (put_at file_name fp (files_of (find dir_abs p.dirs))) p.dirs;
}

-- `addSchema`: the group of the model is put down whatever happens, and the plan, if there is one,
-- under its directory and file name.
unfoldable pub add_schema :
    Index
    → Text
    → Text
    → Text
    → Text
    → Text
    → Text
    → Text
    → Bool
    → Bool
    → FullProtoSet
    → DescPlan
    → DescPlan
unfolding schema_file_plan put_at
add_schema index service_name dir_abs file_name abs_path self_rel model_name target_group
      dao_pre_existed file_exists full p =
    put_plan dir_abs file_name
      (schema_file_plan index service_name abs_path self_rel model_name dao_pre_existed file_exists
        full)
      (record p { schema_target_group = put_at model_name target_group p.schema_target_group })
