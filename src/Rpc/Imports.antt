-- ===== src/Rpc/Imports.antt =====
-- rpc/parser/import.go: the walk over the imports of a proto file. The maps and slices that
-- `collectImports` fills through pointers are the state that it hands on here.
pub mod Reach
pub mod Found
pub mod Closed
pub mod Total
pub mod Result
use zctl.Base.{
  has_prefix, ℕ, zero, suc, Bool, true, false, ◌||◌, List, [], ◌∷◌, ◌++◌, Option, none, some, Text,
  codes, text_mem,
}

-- What the walk asks of the file system and of the proto parser.
pub record Files : Type 0 where
  -- `parseImportFilenames`; `none` is its error.
  pub imports_of : Text → Option (List Text)
  -- `filepath.Join`
  pub join : Text → Text → Text
  -- `os.Stat` without an error
  pub exists : Text → Bool
  -- `filepath.Abs`; `none` is its error.
  pub abs : Text → Option Text

unfoldable pub is_well_known_proto : Text → Bool
is_well_known_proto filename =
    has_prefix filename (codes "google/")
    || has_prefix filename (codes "buf/")
    || has_prefix filename (codes "protoc-gen-openapiv2/")

-- The visited set, which only grows, and the result so far.
pub record Visit : Type 0 where
  pub visited : List Text
  pub result : List Text

pub data Walked : Type 0 where
  done : Visit → Walked
  failed : Walked
  out_of_fuel : Walked

abbrev pub mark : Text → Visit → Visit
mark abs v = record { visited = abs ∷ v.visited; result = v.result ++ abs ∷ [] }

abbrev pub and_then : Walked → (Visit → Walked) → Walked
and_then (done v) next = next v
and_then failed next = failed
and_then out_of_fuel next = out_of_fuel

-- The loop body behind the lookup: `rec` is the recursive call of `collectImports`.
abbrev pub visit_import : (Text → Visit → Walked) → Option Text → Visit → Walked
visit_import rec none v = done v
visit_import rec (some abs) v = elim (text_mem abs v.visited) [
  | true ↦ done v
  | false ↦ rec abs (mark abs v)
]

module _ (files : Files) (proto_paths : List Text) where
  unfoldable pub lookup_in : Text → List Text → Option Text
  lookup_in filename [] = none
  lookup_in filename (dir ∷ dirs) = elim (files.exists (files.join dir filename)) [
    | true ↦ files.abs (files.join dir filename)
    | false ↦ lookup_in filename dirs
  ]

  unfoldable pub lookup_proto_file : Text → Option Text
  unfolding lookup_in
  lookup_proto_file filename = lookup_in filename proto_paths

  -- The file that an import stands for; `none` where the loop goes on without it.
  unfoldable pub target : Text → Option Text
  unfolding is_well_known_proto lookup_proto_file
  target filename = elim (is_well_known_proto filename) [
    | true ↦ none
    | false ↦ lookup_proto_file filename
  ]

  unfoldable pub walk_imports : (Text → Visit → Walked) → List Text → Visit → Walked
  walk_imports rec [] v = done v
  walk_imports rec (f ∷ fs) v = and_then (visit_import rec (target f) v) (walk_imports rec fs)

  -- The fuel bounds the depth of the recursion.
  unfoldable pub collect_imports : ℕ → Text → Visit → Walked
  collect_imports zero src v = out_of_fuel
  collect_imports (suc fuel) src v = elim (files.imports_of src) [
    | none ↦ failed
    | some fs ↦ walk_imports (collect_imports fuel) fs v
  ]

  -- Behind `filepath.Abs`, with the source in the visited set.
  unfoldable pub resolve_from : ℕ → Option Text → Walked
  resolve_from fuel none = failed
  resolve_from fuel (some src) =
      collect_imports fuel src (record { visited = src ∷ []; result = [] })

  -- `ResolveImports`: the `result` of the state that it ends in.
  unfoldable pub resolve_imports : ℕ → Text → Walked
  resolve_imports fuel src = resolve_from fuel (files.abs src)
