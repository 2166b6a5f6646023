-- ===== src/Rpc/Merge.antt =====
-- rpc/generator/mergeproto.go: the protos of desc/ merged into one. The builders and the set of
-- imports that MergeDescProtos fills are the state that the lines are merged into.
pub mod Lines
pub mod Services
mod Tests
use zctl.Base.{
  ℕ, ◌+◌, Bool, true, false, not, ◌&&◌, ◌||◌, List, [], ◌∷◌, ◌++◌, Text, codes, if◌then◌else◌, ltb,
  ◌==◌, has_prefix, text_eq, text_mem,
}
use zctl.Base.Int.{ℤ, pos, pos_part, neg_part, sub_ℕ}
use zctl.Base.Strings.{is_empty, count, trim_space}

-- `messageLines`, `rpcLines`, and `importSet` as the list of its keys.
pub record Merged : Type 0 where
  pub message_lines : Text
  pub rpc_lines : Text
  pub import_set : List Text

-- With the variables of the loop over the lines of a file.
pub record FileMerge : Type 0 where
  pub in_service : Bool
  pub brace_depth : ℤ
  pub rpc_brace_depth : ℤ
  pub out : Merged

-- `d + strings.Count(line, "{") - strings.Count(line, "}")`
abbrev pub shift_depth : ℤ → Text → ℤ
shift_depth d line = sub_ℕ (pos_part d + count b'{' line) (neg_part d + count b'}' line)

-- `d > 0`
abbrev pub is_positive : ℤ → Bool
is_positive d = ltb 0 (pos_part d)

abbrev pub write_message : Text → Merged → Merged
write_message line out = record out { message_lines = out.message_lines ++ (line ++ codes "\n") }

abbrev pub write_rpc : Text → Merged → Merged
write_rpc line out = record out { rpc_lines = out.rpc_lines ++ (line ++ codes "\n") }

unfoldable pub put_import : Text → Merged → Merged
put_import line out =
    if text_mem line out.import_set then out else record out { import_set = line ∷ out.import_set }

-- The four regular expressions, as tests on trimmed lines, and `unicode.IsSpace`.
pub record Patterns : Type 0 where
  pub header_skip : Text → Bool
  pub import_re : Text → Bool
  pub service_re : Text → Bool
  pub rpc_re : Text → Bool
  pub is_space : ℕ → Bool

module _ (patterns : Patterns) (rel_path : Text) where
  abbrev pub trimmed : Text → Text
  trimmed line = trim_space patterns.is_space line

  -- A line in the block of an rpc.
  abbrev pub block_line : Text → FileMerge → FileMerge
  block_line line st =
      let d = shift_depth st.rpc_brace_depth (trimmed line) in
      record st {
        out = write_rpc line st.out;
        rpc_brace_depth = if is_positive d then d else pos 0;
      }

  -- An rpc, a comment or a blank line of a service; other lines are left out.
  abbrev pub item_line : Text → FileMerge → FileMerge
  item_line line st =
      if patterns.rpc_re (trimmed line)
      then record st {
        out = write_rpc line st.out;
        rpc_brace_depth =
            if is_positive (shift_depth (pos 0) (trimmed line))
            then shift_depth (pos 0) (trimmed line)
            else st.rpc_brace_depth;
      }
      else if has_prefix (trimmed line) (codes "//") || is_empty (trimmed line)
      then record st { out = write_rpc line st.out }
      else st

  unfoldable pub service_line : Text → FileMerge → FileMerge
  service_line line st =
      if is_positive st.rpc_brace_depth
      then block_line line st
      else (let d = shift_depth st.brace_depth (trimmed line) in
          if not (is_positive d)
          then record st { in_service = false; brace_depth = d }
          else item_line line (record st { brace_depth = d }))

  abbrev pub open_service : Text → FileMerge → FileMerge
  open_service line st = record st {
    in_service = true;
    brace_depth = shift_depth (pos 0) (trimmed line);
    out = record st.out {
      rpc_lines =
          st.out.rpc_lines ++ (codes "\n  // ---- from desc/" ++ (rel_path ++ codes " ----\n"));
    };
  }

  -- The body of the loop over the lines of a file.
  unfoldable pub merge_line : Text → FileMerge → FileMerge
  unfolding service_line put_import
  merge_line line st =
      if patterns.header_skip (trimmed line)
      then st
      else if patterns.import_re (trimmed line)
      then record st { out = put_import (trimmed line) st.out }
      else if patterns.service_re (trimmed line)
      then open_service line st
      else if st.in_service
      then service_line line st
      else record st { out = write_message line st.out }

  unfoldable pub merge_lines : List Text → FileMerge → FileMerge
  unfolding merge_line
  merge_lines [] st = st
  merge_lines (l ∷ ls) st = merge_lines ls (merge_line l st)

  -- A file, by the lines that `bufio.Scanner` gives of it.
  unfoldable pub merge_file : List Text → Merged → Merged
  unfolding merge_lines
  merge_file ls out =
      write_message []
        (merge_lines ls (record {
          in_service = false;
          brace_depth = pos 0;
          rpc_brace_depth = pos 0;
          out = record out {
            message_lines =
                out.message_lines
                ++ (codes "// ---- from desc/" ++ (rel_path ++ codes " ----\n\n"));
          };
        })).out

-- `<` on strings
unfoldable pub text_ltb : Text → Text → Bool
text_ltb s [] = false
text_ltb [] (y ∷ t) = true
text_ltb (x ∷ s) (y ∷ t) = let rest = text_ltb s t in if x == y then rest else ltb x y

unfoldable pub insert_text : Text → List Text → List Text
unfolding text_ltb
insert_text t [] = t ∷ []
insert_text t (u ∷ us) =
    let rest = insert_text t us in if text_ltb u t then u ∷ rest else t ∷ (u ∷ us)

-- `sort.Strings`
unfoldable pub sort_texts : List Text → List Text
unfolding insert_text
sort_texts [] = []
sort_texts (t ∷ ts) = insert_text t (sort_texts ts)

-- The order of the files: by whether they are not `base.proto`, then by their paths.
unfoldable pub comes_before : (Text → Text) → Text → Text → Bool
unfolding text_ltb
comes_before base p q =
    let b = text_eq (base p) (codes "base.proto") in
    let c = text_eq (base q) (codes "base.proto") in
    if b && not c then true else if not b && c then false else text_ltb p q

unfoldable pub merge_files : Patterns → List (Text × List Text) → Merged → Merged
unfolding merge_file
merge_files patterns [] out = out
merge_files patterns ((rel_path, ls) ∷ files) out =
    merge_files patterns files (merge_file patterns rel_path ls out)

unfoldable pub import_lines : List Text → Text
import_lines [] = []
import_lines (i ∷ is) = i ++ (codes "\n" ++ import_lines is)

-- The imports of the merged proto, in order, with a blank line behind them.
unfoldable pub import_block : List Text → Text
unfolding sort_texts import_lines
import_block [] = []
import_block (i ∷ is) = import_lines (sort_texts (i ∷ is)) ++ codes "\n"

-- What follows the banner of the merged proto, for its package and its service.
unfoldable pub merged_proto : Text → Text → Merged → Text
unfolding import_block
merged_proto proto_pkg svc_go out =
    codes "syntax = \"proto3\";\n\npackage "
    ++ (proto_pkg
        ++ (codes ";\noption go_package = \"./"
            ++ (proto_pkg
                ++ (codes "\";\n\n"
                    ++ (import_block out.import_set
                        ++ (out.message_lines
                            ++ (codes "service "
                                ++ (svc_go
                                    ++ (codes " {\n" ++ (out.rpc_lines ++ codes "}\n"))))))))))
