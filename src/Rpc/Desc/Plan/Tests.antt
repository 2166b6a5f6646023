-- ===== src/Rpc/Desc/Plan/Tests.antt =====
-- The plan of a small schema, over an index that has one of its messages.
use zctl.Base.{false, [], ◌∷◌, some, Text, codes, ◌≡◌, refl, All, text_eq, text_mem}
use zctl.Rpc.Desc.Fields.{
  FieldSig, signed_key, insert_sig, sort_field_sigs_by_tag, sig_eq, sigs_equal,
  message_fields_equal, is_base_proto_message,
}
use zctl.Rpc.Desc.Scan.{Index, find}
use zctl.Rpc.Merge.{text_ltb, insert_text, sort_texts}
use zctl.Rpc.Desc.Plan.{
  FullProtoSet, ProtoFilePlan, MessageBlock, RpcEntry, expected_msg, differs, kept_messages,
  without_self, keys, has_mismatch, sort_deps, filter_rpc, filter_rpcs, rpcs_of, plan_of,
  schema_file_plan,
}
use zctl.Rpc.Desc.Plan.{add_schema, put_at, put_plan}
use zctl.Rpc.Desc.Plan.Loops.{accepted}
use zctl.Rpc.Desc.Plan.Served.{IsComplete, schema_file_plan-IsComplete}

abbrev id : FieldSig
id = record { modifier = []; type_name = codes "uint64"; name = codes "id"; tag = 1 }

abbrev block : Text → MessageBlock
block name = record {
  name = name;
  comment = [];
  body = codes "  uint64 id = 1;\n";
  fields = id ∷ [];
}

abbrev entry : Text → RpcEntry
entry method = record {
  method = method;
  req = codes "Req";
  resp = codes "Info";
  comment = [];
  deps = codes "Req" ∷ codes "Info" ∷ codes "Empty" ∷ [];
}

abbrev index : Index
index = record {
  rpcs = (codes "S", codes "Old" ∷ []) ∷ [];
  messages = (codes "Info", record { rel_path = codes "b.proto"; fields = id ∷ [] }) ∷ [];
}

abbrev full : FullProtoSet
full = record {
  messages = block (codes "Info") ∷ block (codes "Req") ∷ [];
  rpcs = entry (codes "Old") ∷ entry (codes "Get") ∷ [];
}

abbrev plan : ProtoFilePlan
plan = record {
  abs_path = codes "/d/a.proto";
  model_name = codes "A";
  messages = block (codes "Req") ∷ [];
  rpcs = entry (codes "Get") ∷ [];
  imports = codes "b.proto" ∷ [];
}

schema_file_plan-plan :
    schema_file_plan index
      (codes "S")
      (codes "/d/a.proto")
      (codes "a.proto")
      (codes "A")
      false
      false
      full
    ≡ some plan
unfolding schema_file_plan filter_rpcs filter_rpc has_mismatch sort_deps plan_of kept_messages
    without_self keys sort_texts insert_text text_ltb expected_msg differs message_fields_equal
    sigs_equal sig_eq sort_field_sigs_by_tag insert_sig signed_key is_base_proto_message find
    text_mem text_eq
schema_file_plan-plan = refl

schema_file_plan-IsComplete_example :
    (plan.rpcs ≡ accepted index full.messages (rpcs_of (find (codes "S") index.rpcs)) full.rpcs)
    × All
        (IsComplete index full.messages
          (rpcs_of (find (codes "S") index.rpcs))
          (codes "a.proto")
          plan)
        plan.rpcs
schema_file_plan-IsComplete_example =
    schema_file_plan-IsComplete index (codes "S") (codes "/d/a.proto") (codes "a.proto") (codes "A")
      false false full plan schema_file_plan-plan

add_schema_runs :
    add_schema index
      (codes "S")
      (codes "/d")
      (codes "a.proto")
      (codes "/d/a.proto")
      (codes "a.proto")
      (codes "A")
      (codes "g")
      false
      false
      full
      (record { dirs = []; schema_target_group = [] })
    ≡ record {
      dirs = (codes "/d", (codes "a.proto", plan) ∷ []) ∷ [];
      schema_target_group = (codes "A", codes "g") ∷ [];
    }
unfolding add_schema put_at find
add_schema_runs = rw (schema_file_plan-plan, put_plan) refl
