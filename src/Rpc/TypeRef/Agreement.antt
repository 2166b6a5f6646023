-- ===== src/Rpc/TypeRef/Agreement.antt =====
-- The two resolvers of proto types agree on the Go type that they name.
use zctl.Base.{
  Text, codes, [], ◌++◌, Option, none, some, if◌then◌else◌, text_eq, has_prefix, ◌≡◌, refl, ◌⊎◌,
  inl, inr, Bool-cases,
}
use zctl.Base.Strings.{contains_rune, before}
use zctl.Rpc.TypeRef.{
  RpcTypeRef, CallTypeRef, ImportedProto, dotted, google_prefix, imported_rpc_ref,
  resolve_rpc_type_ref, imported_call_ref, resolve_call_type_ref,
}

-- Both import the same package. The name in the signature is the qualified one, with no alias; or
-- it is the qualified one without the package of the service, nothing is imported, and an alias,
-- where there is one, declares the name as the qualified one.
abbrev pub Agree : Text → RpcTypeRef → CallTypeRef → Type 0
Agree main ref call =
    (ref.import_path ≡ call.import_path)
    × (((call.type_name ≡ ref.go_ref) × (call.alias_entry ≡ []))
        ⊎ ((ref.go_ref ≡ dotted main call.type_name)
            × (call.import_path ≡ [])
            × ((call.alias_entry ≡ [])
                ⊎ (call.alias_entry ≡ call.type_name ++ codes " = " ++ ref.go_ref))))

module _ (main_pb_package main_go_package : Text) (pkg_map : Text → Option ImportedProto) where
  imported_ref-Agree :
      (t : Text) (o : Option ImportedProto)
      → Agree main_pb_package
          (imported_rpc_ref main_pb_package main_go_package pkg_map t o)
          (imported_call_ref main_pb_package main_go_package pkg_map t o)
  unfolding imported_rpc_ref imported_call_ref
  imported_ref-Agree t none = (refl, inr (refl, refl, inl refl))
  imported_ref-Agree t (some imp) = elim (Bool-cases (text_eq imp.go_package main_go_package)) [
    | inl e ↦ rw (e, if◌then◌else◌) (refl, inr (refl, refl, inr refl))
    | inr e ↦ rw (e, if◌then◌else◌) (refl, inl (refl, refl))
  ]

  -- For every proto type, resolveRPCTypeRef and resolveCallTypeRef import the same package, and the
  -- name in the signature is the qualified name, with no alias, or is the one that, behind the
  -- package of the service, makes the qualified name; then nothing is imported, and an alias, where
  -- there is one, declares the name as the qualified one.
  pub resolve_rpc_type_ref-Agree :
      (t : Text)
      → Agree main_pb_package
          (resolve_rpc_type_ref main_pb_package main_go_package pkg_map t)
          (resolve_call_type_ref main_pb_package main_go_package pkg_map t)
  unfolding resolve_rpc_type_ref resolve_call_type_ref
  resolve_rpc_type_ref-Agree t = elim (Bool-cases (contains_rune b'.' t)) [
    | inr e ↦ rw (e, if◌then◌else◌) (refl, inr (refl, refl, inl refl))
    | inl e ↦ elim (Bool-cases (has_prefix t google_prefix)) [
      | inl p ↦ rw (e, p, if◌then◌else◌) (refl, inl (refl, refl))
      | inr p ↦ rw (e, p, if◌then◌else◌) (imported_ref-Agree t (pkg_map (before b'.' t)))
    ]
  ]
