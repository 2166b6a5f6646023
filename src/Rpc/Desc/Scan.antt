-- ===== src/Rpc/Desc/Scan.antt =====
-- rpc/generator/ent/gen.go: the scan of a proto for the rpcs of its services and the fields of its
-- messages.
pub mod Kept
pub mod Total
pub mod Blocks
pub mod Forgotten
pub mod Grammar
pub mod Lines
pub mod Reads
use zctl.Base.{
  ℕ, zero, suc, Bool, true, false, not, ◌&&◌, List, [], ◌∷◌, ◌++◌, Option, none, some, Text, codes,
  if◌then◌else◌, ◌==◌, length, drop, has_prefix, text_eq,
}
use zctl.Base.Strings.{is_empty, contains_rune, behind, trim_space, split_lines}
use zctl.Rpc.Desc.Fields.{FieldSig, split_ident, parse_proto_field_line, sort_field_sigs_by_tag}
use zctl.Rpc.Desc.Comments.{strip_line_comment, strip_block_comments}

-- `existingMessageInfo`
pub record MessageInfo : Type 0 where
  pub rel_path : Text
  pub fields : List FieldSig

-- The two maps that the scan fills: the rpcs of each service, and the messages.
pub record Index : Type 0 where
  pub rpcs : List (Text × List Text)
  pub messages : List (Text × MessageInfo)

-- `frame`, by its kind.
pub data Frame : Type 0 where
  service : Text → Frame
  message : Text → List FieldSig → Frame

-- The variables of `parseProtoFile`; the top of the stack stands first.
pub record Scan : Type 0 where
  pub stack : List Frame
  pub current_service : Text
  pub index : Index

-- How a line ends; writing into the map of a service that is not there is a panic.
pub data Scanned : Type 0 where
  scanned : Scan → Scanned
  panicked : Scanned
  out_of_fuel : Scanned

unfoldable pub find {ℓ} : {A : Type ℓ} → Text → List (Text × A) → Option A
find key [] = none
find key ((k, v) ∷ m) = let rest = find key m in if text_eq k key then some v else rest

abbrev pub is_some {ℓ} : {A : Type ℓ} → Option A → Bool
is_some none = false
is_some (some a) = true

-- `if _, ok := rpcs[name]; !ok { rpcs[name] = make(map[string]bool) }`
unfoldable pub add_service : Text → List (Text × List Text) → List (Text × List Text)
add_service name rpcs = if is_some (find name rpcs) then rpcs else (name, []) ∷ rpcs

-- `rpcs[currentService][name] = true`
unfoldable pub add_rpc : Text → Text → List (Text × List Text) → List (Text × List Text)
add_rpc current name [] = []
add_rpc current name ((k, methods) ∷ rpcs) =
    let rest = add_rpc current name rpcs in
    if text_eq k current then (k, name ∷ methods) ∷ rpcs else (k, methods) ∷ rest

abbrev pub set_rpcs : List (Text × List Text) → Scan → Scan
set_rpcs rpcs st = record st { index = record st.index { rpcs = rpcs } }

unfoldable pub open_service : Text → Scan → Scan
open_service name st = if is_empty name then st else record {
  stack = service name ∷ st.stack;
  current_service = name;
  index = record st.index { rpcs = add_service name st.index.rpcs };
}

unfoldable pub open_message : Text → Scan → Scan
open_message name st =
    if is_empty name then st else record st { stack = message name [] ∷ st.stack }

abbrev pub is_nil {ℓ} : {A : Type ℓ} → List A → Bool
is_nil [] = true
is_nil (x ∷ xs) = false

-- What one round of the loop over a line does: `continue` at another place of it, or `break`.
pub data Next : Type 0 where
  go : Text → Scan → Next
  stop : Scanned → Next

-- `i += idx + 1` for the `{` of the rest of the line, or `break`.
unfoldable pub skip_brace : Text → Scan → Next
skip_brace s st = if contains_rune b'{' s then go (behind b'{' s) st else stop (scanned st)

-- The entry of a message that is closed at the top level, unless there is one by its name.
unfoldable pub add_message : Text → Text → List FieldSig → Index → Index
add_message rel_path name fields index =
    if is_some (find name index.messages) then index else record index {
      messages =
          (name, record { rel_path = rel_path; fields = sort_field_sigs_by_tag fields })
          ∷ index.messages;
    }

-- The rpc is put into the map of the service, if it has a name.
unfoldable pub record_rpc : Text → Scan → Scanned
record_rpc name st =
    if is_empty name
    then scanned st
    else if is_some (find st.current_service st.index.rpcs)
    then scanned (set_rpcs (add_rpc st.current_service name st.index.rpcs) st)
    else panicked

abbrev pub add_sig : Option FieldSig → List FieldSig → List FieldSig
add_sig none fields = fields
add_sig (some sig) fields = fields ++ sig ∷ []

abbrev pub and_then : Scanned → (Scan → Scanned) → Scanned
and_then (scanned st) next = next st
and_then panicked next = panicked
and_then out_of_fuel next = out_of_fuel

abbrev pub after_step : (Text → Scan → Scanned) → Next → Scanned
after_step rec (go s st) = rec s st
after_step rec (stop r) = r

module _ (is_space : ℕ → Bool) (rel_path : Text) where
  unfoldable pub pop_frame : List Frame → Scan → Scan
  unfolding add_message
  pop_frame [] st = st
  pop_frame (service name ∷ fs) st = record st { stack = fs; current_service = [] }
  pop_frame (message name fields ∷ fs) st = record st {
    stack = fs;
    index = if is_nil fs then add_message rel_path name fields st.index else st.index;
  }

  -- `pop()`
  unfoldable pub pop : Scan → Scan
  unfolding pop_frame
  pop st = pop_frame st.stack st

  -- The identifier behind a keyword.
  abbrev pub name_behind : ℕ → Text → Text
  name_behind n s = (split_ident (trim_space is_space (drop n s))).0

  -- The rest of the line is a field where the top is a message; else the loop moves on by a byte.
  unfoldable pub field_or_next : List Frame → ℕ → Text → Scan → Next
  field_or_next (message name fields ∷ fs) c s st = stop (
      scanned (record st {
        stack = message name (add_sig (parse_proto_field_line is_space (c ∷ s)) fields) ∷ fs;
      }))
  field_or_next (service name ∷ fs) c s st = go s st
  field_or_next [] c s st = go s st

  -- The body of the loop at the rest of a line.
  unfoldable pub step : Text → Scan → Next
  unfolding pop open_service open_message skip_brace record_rpc field_or_next
  step [] st = stop (scanned st)
  step (c ∷ s) st =
      if c == b'}'
      then go s (pop st)
      else if has_prefix (c ∷ s) (codes "service ") && is_nil st.stack
      then skip_brace (c ∷ s) (open_service (name_behind 8 (c ∷ s)) st)
      else if has_prefix (c ∷ s) (codes "message ")
      then skip_brace (c ∷ s) (open_message (name_behind 8 (c ∷ s)) st)
      else if not (is_empty st.current_service) && has_prefix (c ∷ s) (codes "rpc ")
      then stop (record_rpc (name_behind 4 (c ∷ s)) st)
      else field_or_next st.stack c s st

  -- `for i < len(line)`: each round but the last leaves less of the line.
  unfoldable pub line_loop : ℕ → Text → Scan → Scanned
  unfolding step
  line_loop zero s st = out_of_fuel
  line_loop (suc n) s st = after_step (line_loop n) (step s st)

  unfoldable pub scan_line : Text → Scan → Scanned
  unfolding line_loop strip_line_comment
  scan_line raw st =
      let line = trim_space is_space (strip_line_comment raw) in
      if is_empty line then scanned st else line_loop (suc (length line)) line st

  unfoldable pub scan_lines : List Text → Scan → Scanned
  unfolding scan_line
  scan_lines [] st = scanned st
  scan_lines (l ∷ ls) st = and_then (scan_line l st) (scan_lines ls)

  -- `parseProtoFile`; the index is that of the state that it ends in.
  unfoldable pub parse_proto_file : Text → Index → Scanned
  unfolding scan_lines strip_block_comments
  parse_proto_file text index =
      scan_lines (split_lines (strip_block_comments text))
        (record { stack = []; current_service = []; index = index })
