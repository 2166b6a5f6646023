-- ===== src/Rpc/Desc/Scan/Grammar.antt =====
-- The lines of a proto that the scan is made for, as a grammar: what stands in them, and the index
-- that they make of another.
use zctl.Base.{ℕ, Bool, true, false, List, [], ◌∷◌, ◌++◌, Text, codes, text_eq, ◌≡◌}
use zctl.Base.Strings.Trim.{starts}
use zctl.Rpc.Desc.Fields.{FieldSig, is_ident_rune}
use zctl.Rpc.Desc.Fields.Printed.{FieldLine, print_field_line, IsField, field_of, IsWord}
use zctl.Rpc.Desc.Scan.{Index, add_service, add_message}
use zctl.Rpc.Desc.Scan.Blocks.{is_silent, trimmed, named_rpc}

module _ (is_space : ℕ → Bool) (rel_path : Text) where
  -- The lines behind the opening of a message, up to the rest behind its closing brace, with its
  -- fields.
  pub data Body : List Text → List Text → List FieldSig → Type 0 where
    close : {raw : Text} {ls : List Text} → trimmed is_space raw ≡ codes "}" → Body (raw ∷ ls) ls []
    blank :
        {raw : Text} {ls rest : List Text} {fields : List FieldSig}
        → trimmed is_space raw ≡ []
        → Body ls rest fields
        → Body (raw ∷ ls) rest fields
    field :
        {raw : Text} {ls rest : List Text} {fields : List FieldSig} (l : FieldLine)
        → trimmed is_space raw ≡ print_field_line l
        → l.lead ≡ []
        → IsField is_space l
        → text_eq l.type_name (codes "message") ≡ false
        → Body ls rest fields
        → Body (raw ∷ ls) rest (field_of l ∷ fields)

  -- The lines behind the opening of a service, up to the rest behind its closing brace, with what
  -- its rpcs make of the index.
  pub data Rpcs (service : Text) : List Text → List Text → Index → Index → Type 0 where
    close :
        {raw : Text} {ls : List Text} {i : Index}
        → trimmed is_space raw ≡ codes "}"
        → Rpcs service (raw ∷ ls) ls i i
    blank :
        {raw : Text} {ls rest : List Text} {i j : Index}
        → trimmed is_space raw ≡ []
        → Rpcs service ls rest i j
        → Rpcs service (raw ∷ ls) rest i j
    rpc :
        {raw : Text} {ls rest : List Text} {i j : Index} (name s : Text)
        → trimmed is_space raw ≡ codes "rpc " ++ (name ++ (s ++ b';' ∷ []))
        → IsWord name
        → starts is_ident_rune (s ++ b';' ∷ []) ≡ false
        → Rpcs service ls rest (named_rpc service name i) j
        → Rpcs service (raw ∷ ls) rest i j

  -- The lines of a file, and what its messages and services make of the index.
  pub data Protos : List Text → Index → Index → Type 0 where
    done : {i : Index} → Protos [] i i
    silent :
        {raw : Text} {ls : List Text} {i j : Index}
        → is_silent (trimmed is_space raw) ≡ true
        → Protos ls i j
        → Protos (raw ∷ ls) i j
    message :
        {raw : Text} {ls rest : List Text} {i j : Index} (name : Text) (fields : List FieldSig)
        → trimmed is_space raw ≡ codes "message " ++ (name ++ codes " {")
        → IsWord name
        → Body ls rest fields
        → Protos rest (add_message rel_path name fields i) j
        → Protos (raw ∷ ls) i j
    service :
        {raw : Text} {ls rest : List Text} {i k j : Index} (name : Text)
        → trimmed is_space raw ≡ codes "service " ++ (name ++ codes " {")
        → IsWord name
        → Rpcs name ls rest (record i { rpcs = add_service name i.rpcs }) k
        → Protos rest k j
        → Protos (raw ∷ ls) i j
