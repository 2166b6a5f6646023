-- ===== src/Rpc/Tests.antt =====
-- Three files that import each other in a ring, some names, and the theorems of this part at them.
use zctl.Base.{
  ℕ, Bool, false, is_lower, is_upper, is_digit, ◌||◌, true, List, [], ◌∷◌, ◌++◌, Option, none, some,
  Text, codes, ◌≡◌, refl, ◌⊎◌, inl, inr, text_eq, text_mem, if◌then◌else◌, Bool-cases, arith,
}
use zctl.Rpc.Imports.{
  Files, done, failed, is_well_known_proto, lookup_in, lookup_proto_file, target, walk_imports,
  collect_imports, resolve_from, resolve_imports,
}
use zctl.Rpc.Names.{camel_loop, camel_case, sanitized_head, go_sanitized}
use zctl.Rpc.Names.Camel.{is_camel, camel_case_idem}
use zctl.Rpc.Names.Sanitized.{IsIdentifier, go_sanitized-IsIdentifier}
use zctl.Rpc.TypeRef.{ImportedProto, resolve_rpc_type_ref, resolve_call_type_ref}
use zctl.Rpc.TypeRef.Agreement.{Agree, resolve_rpc_type_ref-Agree}
use zctl.Rpc.Imports.Total.{IsWithin}
use zctl.Rpc.Imports.Result.{Answers, resolve_imports-Answers}

abbrev present : List Text
present = codes "p/a" ∷ codes "p/b" ∷ codes "p/c" ∷ []

-- The imports of a file by its last rune.
imports : Text → Option (List Text)
unfolding text_eq
imports t =
    if text_eq t (codes "p/a")
    then some (codes "b" ∷ codes "google/any" ∷ codes "c" ∷ [])
    else if text_eq t (codes "p/b")
    then some (codes "c" ∷ codes "absent" ∷ [])
    else if text_eq t (codes "p/c")
    then some (codes "a" ∷ codes "b" ∷ [])
    else none

unfoldable absolute : Text → Option Text
absolute t = some t

abbrev ring : Files
ring = record {
  imports_of = imports;
  join = λ dir f. dir ++ b'/' ∷ f;
  exists = λ t. text_mem t present;
  abs = absolute;
}

abbrev paths : List Text
paths = codes "q" ∷ codes "p" ∷ []

ring_result :
    resolve_imports ring paths 4 (codes "p/a")
    ≡ done (record {
      visited = codes "p/c" ∷ codes "p/b" ∷ codes "p/a" ∷ [];
      result = codes "p/b" ∷ codes "p/c" ∷ [];
    })
unfolding resolve_imports resolve_from collect_imports walk_imports target lookup_proto_file
    lookup_in is_well_known_proto imports text_mem text_eq absolute
ring_result = refl

lookup_in-ring :
    (f b : Text) (dirs : List Text)
    → lookup_in ring paths f dirs ≡ some b
    → text_mem b present ≡ true
unfolding lookup_in absolute
lookup_in-ring f b [] h = cc
lookup_in-ring f b (dir ∷ dirs) h = elim (Bool-cases (text_mem (dir ++ b'/' ∷ f) present)) [
  | inl e ↦ ground (arith, h, e)
  | inr e ↦ lookup_in-ring f b dirs (ground (arith, h, e))
]

ring-IsWithin : IsWithin ring paths present
unfolding target lookup_proto_file
ring-IsWithin f b h = elim (Bool-cases (is_well_known_proto f)) [
  | inl e ↦ ground (arith, h, e)
  | inr e ↦ lookup_in-ring f b paths (ground (arith, h, e))
]

resolve_imports-Answers_example :
    ((ring.abs (codes "p/a") ≡ none) × (resolve_imports ring paths 4 (codes "p/a") ≡ failed))
    ⊎ ((a : Text) × (ring.abs (codes "p/a") ≡ some a)
        × Answers ring paths a (resolve_imports ring paths 4 (codes "p/a")))
resolve_imports-Answers_example =
    resolve_imports-Answers ring paths present 4 (codes "p/a") ring-IsWithin (omega arith)

camel_case_runs :
    (camel_case (codes "_my_field_name_2") ≡ codes "XMyFieldName_2")
    × (camel_case (codes "a1b_C") ≡ codes "A1B_C")
unfolding camel_case camel_loop
camel_case_runs = (refl, refl)

camel_case_idem_example :
    (is_camel (camel_case (codes "_a1b_c")) ≡ true)
    × (camel_case (camel_case (codes "_a1b_c")) ≡ camel_case (codes "_a1b_c"))
camel_case_idem_example = camel_case_idem (codes "_a1b_c")

abbrev is_ascii_letter : ℕ → Bool
is_ascii_letter c = is_lower c || is_upper c

-- `type` stands for all keywords.
unfoldable is_type_keyword : Text → Bool
is_type_keyword t = text_eq t (codes "type")

no_keyword : (s : Text) → is_type_keyword (b'_' ∷ s) ≡ false
unfolding is_type_keyword text_eq
no_keyword s = refl

go_sanitized_runs :
    (go_sanitized is_ascii_letter is_digit is_type_keyword (codes "type") ≡ codes "_type")
    × (go_sanitized is_ascii_letter is_digit is_type_keyword (codes "2-a") ≡ codes "_2_a")
unfolding go_sanitized sanitized_head is_type_keyword text_eq
go_sanitized_runs = (refl, refl)

go_sanitized-IsIdentifier_example :
    IsIdentifier is_ascii_letter is_digit is_type_keyword
      (go_sanitized is_ascii_letter is_digit is_type_keyword (codes "2-a"))
go_sanitized-IsIdentifier_example =
    go_sanitized-IsIdentifier is_ascii_letter is_digit is_type_keyword no_keyword (codes "2-a")

-- `ext` is the one proto package that is imported.
abbrev ext : Text → Option ImportedProto
ext p =
    if text_eq p (codes "ext")
    then some (record {
      src = codes "/ext.proto";
      proto_package = codes "ext";
      go_package = codes "m/ext";
      pb_package = codes "ext";
    })
    else none

resolve_rpc_type_ref-Agree_example :
    Agree
      (codes "pb")
      (resolve_rpc_type_ref (codes "pb") (codes "m/pb") ext (codes "ext.my_req"))
      (resolve_call_type_ref (codes "pb") (codes "m/pb") ext (codes "ext.my_req"))
resolve_rpc_type_ref-Agree_example =
    resolve_rpc_type_ref-Agree (codes "pb") (codes "m/pb") ext (codes "ext.my_req")
