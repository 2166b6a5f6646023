-- ===== src/Api/Imports/Tests.antt =====
-- Imports of small files, and the theorem on them at a concrete input.
use zctl.Base.{
  [], ◌∷◌, none, some, Text, codes, ◌≡◌, ◌⊎◌, refl, arith, text_eq, text_mem, if◌then◌else◌,
  Bool-cases, inl, inr,
}
use zctl.Base.Int.{pos}
use zctl.Api.Token.{string}
use zctl.Api.Ast.{TokenNode, import_literal}
use zctl.Api.Checks.{Api}
use zctl.Api.Imports.{
  Files, Importing, imported, rejected, exited, panicked, ImportError, parse_reverse,
}
use zctl.Api.Imports.Returns.{IsWithin, parse_reverse_ends}

-- Two files, of which `b.api` imports itself.
abbrev files : Files
files = record {
  content = λ p. if text_eq p (codes "b.api") then codes "import \"b.api\"" else [];
  base = λ p. p;
  join = λ filename p. p;
  order = λ m. m;
}

files-IsWithin : IsWithin files (codes "b.api" ∷ [])
unfolding text_mem
files-IsWithin p h = elim (Bool-cases (text_eq p (codes "b.api"))) [
  | inl e ↦ ground (arith, e)
  | inr e ↦ absurd (h (rw e refl))
]

abbrev node : Text → TokenNode
node t = record {
  head = [];
  tok = record {
    type = string;
    text = t;
    position = record { filename = codes "a.api"; line = 1; column = pos 8 };
  };
  leading = [];
}

abbrev main : Api
main = record {
  filename = codes "a.api";
  syntax = record { syntax = none; assign = none; value = some (node (codes "\"v1\"")) };
  info = none;
  import_stmt = import_literal none (some (node (codes "\"b.api\""))) ∷ [];
  type_stmt = [];
  service_stmts = [];
}

abbrev start : Importing
start = record { manager = codes "a.api" ∷ []; set = [] }

parse_reverse_ends_example :
    ((b : Api) × (new : Importing) × (parse_reverse 2 files main start ≡ imported b new)
      × (new.manager ≡ start.manager))
    ⊎ ((e : ImportError) × (parse_reverse 2 files main start ≡ rejected e))
    ⊎ (parse_reverse 2 files main start ≡ exited)
    ⊎ (parse_reverse 2 files main start ≡ panicked)
parse_reverse_ends_example =
    parse_reverse_ends files (codes "b.api" ∷ []) files-IsWithin 2 main start (ground arith)
