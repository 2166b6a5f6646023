-- ===== src/Rpc/Merge/Tests.antt =====
-- Two small services, merged.
use zctl.Base.{
  ◌||◌, List, [], ◌∷◌, Text, codes, has_prefix, ◌≡◌, refl, true, false, text_eq, text_mem, ◌==◌,
}
use zctl.Rpc.Merge.{
  merged_proto, import_block, import_lines, sort_texts, insert_text, text_ltb, merge_files,
  merge_file, comes_before, Merged, Patterns, open_service, service_line, put_import, merge_line,
  merge_lines,
}
use zctl.Rpc.Merge.Lines.{outside, write_rpcs, IsOpening, IsRpc, IsClosing, StaysOpen}
use zctl.Rpc.Merge.Services.{merge_lines_flat, merge_lines_lost}

-- The patterns by their first words.
abbrev by_word : Patterns
by_word = record {
  header_skip = λ t. has_prefix t (codes "syntax") || has_prefix t (codes "package");
  import_re = λ t. has_prefix t (codes "import ");
  service_re = λ t. has_prefix t (codes "service ");
  rpc_re = λ t. has_prefix t (codes "rpc ");
  is_space = λ c. c == b' ';
}

abbrev empty : Merged
empty = record { message_lines = []; rpc_lines = []; import_set = [] }

abbrev opening : Text
opening = codes "service S {"

abbrev flat_rpc : Text
flat_rpc = codes "  rpc Get(A) returns (A) {}"

abbrev block_rpc : Text
block_rpc = codes "  rpc Get(A) returns (A) {"

abbrev closing : Text
closing = codes "}"

abbrev message_lines : List Text
message_lines = codes "message A {" ∷ codes "  int64 id = 1;" ∷ codes "}" ∷ []

plain_opening : IsOpening by_word (codes "a") opening
plain_opening = record { no_header = refl; no_import = refl; service = refl; braces = (refl, refl) }

flat_rpc-IsRpc : IsRpc by_word (codes "a") 1 1 flat_rpc
flat_rpc-IsRpc = record {
  plain = record { no_header = refl; no_import = refl; no_service = refl };
  rpc = refl;
  braces = (refl, refl);
}

block_rpc-IsRpc : IsRpc by_word (codes "a") 1 0 block_rpc
block_rpc-IsRpc = record {
  plain = record { no_header = refl; no_import = refl; no_service = refl };
  rpc = refl;
  braces = (refl, refl);
}

closing-IsClosing : IsClosing by_word (codes "a") closing
closing-IsClosing = record {
  plain = record { no_header = refl; no_import = refl; no_service = refl };
  no_rpc = refl;
  braces = (refl, refl);
  no_comment = refl;
  filled = refl;
}

message_lines-StaysOpen : StaysOpen by_word (codes "a") 0 message_lines
message_lines-StaysOpen =
    StaysOpen.next 1 (record { no_header = refl; no_import = refl; no_service = refl }) refl refl
      (StaysOpen.next 1 (record { no_header = refl; no_import = refl; no_service = refl }) refl refl
        (StaysOpen.next 0 (record { no_header = refl; no_import = refl; no_service = refl }) refl
          refl StaysOpen.done))

merge_lines_flat_example :
    merge_lines by_word (codes "a") (opening ∷ (flat_rpc ∷ closing ∷ message_lines)) (outside empty)
    ≡ merge_lines by_word (codes "a") message_lines (
        outside (
          write_rpcs
            (flat_rpc ∷ [])
            (open_service by_word (codes "a") opening (outside empty)).out))
merge_lines_flat_example =
    merge_lines_flat by_word (codes "a") opening closing (flat_rpc ∷ []) message_lines empty
      plain_opening ((1, flat_rpc-IsRpc), tt) closing-IsClosing

merge_lines_lost_example :
    (merge_lines by_word
      (codes "a")
      (opening ∷ block_rpc ∷ closing ∷ closing ∷ message_lines)
      (outside empty)).out.message_lines
    ≡ []
merge_lines_lost_example =
    merge_lines_lost by_word (codes "a") opening block_rpc closing closing message_lines empty
      plain_opening block_rpc-IsRpc closing-IsClosing closing-IsClosing message_lines-StaysOpen

-- The messages behind the one service are written, behind the other they are not.
merge_lines_runs :
    ((merge_lines by_word
        (codes "a")
        (opening ∷ (flat_rpc ∷ closing ∷ message_lines))
        (outside empty)).out.message_lines
      ≡ codes "message A {\n  int64 id = 1;\n}\n")
    × ((merge_lines by_word
          (codes "a")
          (opening ∷ block_rpc ∷ closing ∷ closing ∷ message_lines)
          (outside empty)).out.message_lines
        ≡ [])
unfolding merge_lines merge_line service_line put_import
merge_lines_runs = (refl, refl)

abbrev service_file : List Text
service_file =
    codes "syntax = x;" ∷ codes "import b;" ∷ codes "service S {" ∷ flat_rpc ∷ codes "}" ∷ []

-- Two files: the imports of both stand once each, in order.
merge_files_runs :
    merged_proto (codes "p") (codes "P") (
      merge_files by_word
        ((codes "a.proto", service_file)
          ∷ (codes "b.proto", codes "import a;" ∷ codes "import b;" ∷ [])
          ∷ [])
        empty)
    ≡ codes
        "syntax = \"proto3\";\n\npackage p;\noption go_package = \"./p\";\n\nimport a;\nimport b;\n\n// ---- from desc/a.proto ----\n\n\n// ---- from desc/b.proto ----\n\n\nservice P {\n\n  // ---- from desc/a.proto ----\n  rpc Get(A) returns (A) {}\n}\n"
unfolding merged_proto import_block import_lines sort_texts insert_text text_ltb merge_files
    merge_file merge_lines merge_line service_line put_import text_mem text_eq
merge_files_runs = refl

comes_before_runs :
    (comes_before (λ p. p) (codes "base.proto") (codes "a.proto") ≡ true)
    × (comes_before (λ p. p) (codes "b.proto") (codes "a.proto") ≡ false)
unfolding comes_before text_ltb text_eq
comes_before_runs = (refl, refl)
