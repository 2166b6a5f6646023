-- ===== src/Rpc/TypeRef.antt =====
-- rpc/generator/typeref.go: the Go types of the requests and responses of a proto service.
pub mod Agreement
use zctl.Base.{
  Text, codes, List, [], ◌∷◌, ◌++◌, Option, none, some, not, if◌then◌else◌, text_eq, has_prefix,
  drop, length,
}
use Prim.Native.String.{String}
use zctl.Base.Strings.{contains_rune, before, behind}
use zctl.Rpc.Names.{camel_case}

-- `rpcTypeRef`
pub record RpcTypeRef : Type 0 where
  pub go_ref : Text
  pub import_path : Text

-- `ImportedProto` of rpc/parser/import.go.
pub record ImportedProto : Type 0 where
  pub src : Text
  pub proto_package : Text
  pub go_package : Text
  pub pb_package : Text

-- What `resolveCallTypeRef` returns: the name in a signature, the alias to declare and the import
-- to add, each empty where there is none.
pub record CallTypeRef : Type 0 where
  pub type_name : Text
  pub alias_entry : Text
  pub import_path : Text

-- A row of `googleWKTTable`: each of them names a type of the package in the path.
abbrev well_known : String → String → Text × RpcTypeRef
well_known name pkg = (
  codes name,
  record {
    go_ref = codes pkg ++ b'.' ∷ codes name;
    import_path = codes "google.golang.org/protobuf/types/known/" ++ codes pkg;
  },
)

abbrev google_wkt_table : List (Text × RpcTypeRef)
google_wkt_table =
    well_known "Empty" "emptypb"
    ∷ well_known "Timestamp" "timestamppb"
    ∷ well_known "Duration" "durationpb"
    ∷ well_known "Any" "anypb"
    ∷ well_known "StringValue" "wrapperspb"
    ∷ well_known "Int32Value" "wrapperspb"
    ∷ well_known "Int64Value" "wrapperspb"
    ∷ well_known "BoolValue" "wrapperspb"
    ∷ well_known "BytesValue" "wrapperspb"
    ∷ well_known "FloatValue" "wrapperspb"
    ∷ well_known "DoubleValue" "wrapperspb"
    ∷ well_known "UInt32Value" "wrapperspb"
    ∷ well_known "UInt64Value" "wrapperspb"
    ∷ well_known "Struct" "structpb"
    ∷ well_known "Value" "structpb"
    ∷ well_known "ListValue" "structpb"
    ∷ well_known "FieldMask" "fieldmaskpb"
    ∷ []

unfoldable pub wkt_lookup : Text → List (Text × RpcTypeRef) → RpcTypeRef
wkt_lookup type_name [] = record { go_ref = codes "interface{}"; import_path = [] }
wkt_lookup type_name ((name, ref) ∷ rows) =
    let rest = wkt_lookup type_name rows in if text_eq name type_name then ref else rest

unfoldable pub resolve_google_wkt : Text → RpcTypeRef
resolve_google_wkt type_name = wkt_lookup type_name google_wkt_table

abbrev pub google_prefix : Text
google_prefix = codes "google.protobuf."

-- `fmt.Sprintf("%s.%s", pkg, name)`
abbrev pub dotted : Text → Text → Text
dotted pkg name = pkg ++ b'.' ∷ name

module _ (main_pb_package main_go_package : Text) (pkg_map : Text → Option ImportedProto) where
  -- Behind the lookup of the package of a dotted name.
  unfoldable pub imported_rpc_ref : Text → Option ImportedProto → RpcTypeRef
  imported_rpc_ref proto_type none = record {
    go_ref = dotted main_pb_package (camel_case proto_type);
    import_path = [];
  }
  imported_rpc_ref proto_type (some imp) =
      let camel_type = camel_case (behind b'.' proto_type) in
      if text_eq imp.go_package main_go_package
      then record { go_ref = dotted main_pb_package camel_type; import_path = [] }
      else record { go_ref = dotted imp.pb_package camel_type; import_path = imp.go_package }

  unfoldable pub resolve_rpc_type_ref : Text → RpcTypeRef
  unfolding imported_rpc_ref
  resolve_rpc_type_ref proto_type =
      if not (contains_rune b'.' proto_type)
      then record { go_ref = dotted main_pb_package (camel_case proto_type); import_path = [] }
      else if has_prefix proto_type google_prefix
      then resolve_google_wkt (drop (length google_prefix) proto_type)
      else imported_rpc_ref proto_type (pkg_map (before b'.' proto_type))

  -- A type that stands under its own name, with nothing to declare or import.
  abbrev plain_call_ref : Text → CallTypeRef
  plain_call_ref name = record { type_name = name; alias_entry = []; import_path = [] }

  abbrev google_call_ref : RpcTypeRef → CallTypeRef
  google_call_ref ref = record {
    type_name = ref.go_ref;
    alias_entry = [];
    import_path = ref.import_path;
  }

  unfoldable pub imported_call_ref : Text → Option ImportedProto → CallTypeRef
  imported_call_ref proto_type none = plain_call_ref (camel_case proto_type)
  imported_call_ref proto_type (some imp) =
      let camel_type = camel_case (behind b'.' proto_type) in
      if text_eq imp.go_package main_go_package
      then record {
        type_name = camel_type;
        alias_entry = camel_type ++ codes " = " ++ dotted main_pb_package camel_type;
        import_path = [];
      }
      else record {
        type_name = dotted imp.pb_package camel_type;
        alias_entry = [];
        import_path = imp.go_package;
      }

  unfoldable pub resolve_call_type_ref : Text → CallTypeRef
  unfolding imported_call_ref
  resolve_call_type_ref proto_type =
      if not (contains_rune b'.' proto_type)
      then plain_call_ref (camel_case proto_type)
      else if has_prefix proto_type google_prefix
      then google_call_ref (resolve_google_wkt (drop (length google_prefix) proto_type))
      else imported_call_ref proto_type (pkg_map (before b'.' proto_type))
