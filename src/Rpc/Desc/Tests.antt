-- ===== src/Rpc/Desc/Tests.antt =====
-- A small proto, some fields, and the theorems of this part at them.
use mathlib.Core.List.{Perm}
use zctl.Base.{
  ℕ, Bool, true, false, ◌||◌, List, [], ◌∷◌, none, some, Text, codes, ◌≡◌, refl, arith, ◌==◌, ◌↔◌,
  text_eq, text_mem, text_eq_iff, has_prefix, not, ◌&&◌, ◌⊎◌, inl, inr,
}
use zctl.Base.Strings.{split_at, split_lines, before}
use zctl.Rpc.Desc.Tracker.{Disk, stat, rollback, longest_first}
use zctl.Rpc.Desc.Tracker.Deepest.{IsDescending, longest_first-IsDescending}
use zctl.Rpc.Desc.Tracker.Restores.{under_roots, tracked, OnlyAdds, rollback-files_restored}
use zctl.Rpc.Desc.Comments.{
  strip_line_comment, close_comment, strip_round, strip_loop, strip_block_comments,
}
use zctl.Rpc.Desc.Comments.Free.{strip_block_comments_free}
use zctl.Rpc.Desc.Fields.{
  FieldSig, is_ident_rune, parse_proto_field_line, message_fields_equal, signed_key,
}
use zctl.Rpc.Desc.Fields.Same.{message_fields_equal-Perm}
use zctl.Rpc.Desc.Fields.Printed.{FieldLine, optional, print_field_line, IsField, field_of}
use zctl.Rpc.Desc.Fields.Reading.{parse_proto_field_line-print}
use zctl.Rpc.Desc.Scan.{
  Index, Scan, scanned, find, scan_lines, parse_proto_file, add_service, add_message, add_rpc,
}
use zctl.Rpc.Desc.Scan.Kept.{Kept}
use zctl.Rpc.Desc.Scan.Total.{parse_proto_file-Kept}
use zctl.Rpc.Desc.Scan.Blocks.{outside, inside, named_rpc, is_silent}
use zctl.Rpc.Desc.Scan.Forgotten.{is_idle, is_content, scan_lines_forgotten}
use zctl.Rpc.Desc.Scan.Grammar.{Body, Rpcs, Protos}
use zctl.Rpc.Desc.Scan.Reads.{parse_proto_file-Protos}

abbrev is_blank : ℕ → Bool
is_blank c = c == b' ' || c == b'\t'

word_solid : (c : ℕ) → is_ident_rune c ≡ true → is_blank c ≡ false
word_solid c h = ground (arith, h)

-- `optional int64 id = 7;`
abbrev id_line : FieldLine
id_line = record {
  lead = [];
  modifier = optional;
  type_name = codes "int64";
  gap = codes " ";
  name = codes "id";
  left = codes " ";
  right = codes " ";
  digits = codes "7";
  options = [];
  tail = [];
}

id_line-IsField : IsField is_blank id_line
unfolding text_eq
id_line-IsField = record {
  lead_space = tt;
  gap_space = (refl, tt);
  gap_filled = refl;
  left_space = (refl, tt);
  right_space = (refl, tt);
  type_word = (refl, (refl, (refl, (refl, (refl, (refl, tt))))));
  name_word = (refl, (refl, (refl, tt)));
  digits_filled = refl;
  digits_digits = (refl, tt);
  options_start = refl;
  not_optional = refl;
  not_repeated = refl;
  not_required = refl;
}

parse_proto_field_line-print_example :
    parse_proto_field_line is_blank (print_field_line id_line) ≡ some (field_of id_line)
parse_proto_field_line-print_example =
    parse_proto_field_line-print is_blank word_solid refl refl id_line id_line-IsField

strip_block_comments_free_example :
    split_at (codes "/*") (strip_block_comments (codes "a /* b */ c /* d")) ≡ none
strip_block_comments_free_example = strip_block_comments_free (codes "a /* b */ c /* d")

abbrev sig : ℕ → FieldSig
sig n = record { modifier = []; type_name = codes "int64"; name = codes "id"; tag = n }

message_fields_equal-Perm_example :
    (message_fields_equal (sig 1 ∷ sig 2 ∷ []) (sig 2 ∷ sig 1 ∷ []) ≡ true)
    ↔ Perm (sig 1 ∷ sig 2 ∷ []) (sig 2 ∷ sig 1 ∷ [])
unfolding signed_key
message_fields_equal-Perm_example =
    message_fields_equal-Perm (sig 1 ∷ sig 2 ∷ []) (sig 2 ∷ sig 1 ∷ [])
      ((omega arith, tt), (tt, tt))

abbrev sample : Text
sample =
    codes
      "syntax = x;\nmessage A {\n  optional int64 id = 7; // key\n}\nservice S {\n  rpc Get (A) returns (A);\n}"

abbrev nothing : Index
nothing = record { rpcs = []; messages = [] }

abbrev seen : Index
seen =
    named_rpc (codes "S") (codes "Get")
      (record (add_message (codes "a.proto") (codes "A") (field_of id_line ∷ []) nothing) {
        rpcs = add_service (codes "S") [];
      })

parse_proto_file-Kept_example :
    (st : Scan) × (parse_proto_file is_blank (codes "a.proto") sample nothing ≡ scanned st)
    × Kept nothing st.index
parse_proto_file-Kept_example = parse_proto_file-Kept is_blank (codes "a.proto") sample nothing

sample-Protos :
    Protos is_blank (codes "a.proto") (split_lines (strip_block_comments sample)) nothing seen
unfolding strip_block_comments strip_loop strip_round close_comment split_lines split_at
    strip_line_comment is_silent text_eq add_message find
sample-Protos = Protos.silent refl (
    Protos.message (codes "A") (field_of id_line ∷ []) refl (refl, (refl, tt))
      (Body.field id_line refl refl id_line-IsField refl (Body.close refl))
      (Protos.service (codes "S") refl (refl, (refl, tt))
        (Rpcs.rpc (codes "Get") (codes " (A) returns (A)") refl (refl, (refl, (refl, (refl, tt))))
          refl (Rpcs.close refl))
        Protos.done))

parse_proto_file-Protos_example :
    parse_proto_file is_blank (codes "a.proto") sample nothing ≡ scanned (outside seen)
parse_proto_file-Protos_example =
    parse_proto_file-Protos is_blank word_solid refl refl refl (codes "a.proto") sample nothing seen
      sample-Protos

-- An rpc with a block in which options of HTTP stand, another rpc, and the end of the service: the
-- second rpc is not recorded.
scan_lines_forgotten_example :
    scan_lines is_blank
      (codes "a.proto")
      (codes "rpc Get (A) returns (A) {"
        ∷ codes "  option (google.api.http) = {"
        ∷ codes "    get: \"/a\""
        ∷ codes "  };"
        ∷ codes "}"
        ∷ codes "rpc List (A) returns (A);"
        ∷ codes "}"
        ∷ [])
      (inside (codes "S") b'S' [] (record nothing { rpcs = (codes "S", []) ∷ [] }))
    ≡ scanned (outside (record nothing { rpcs = (codes "S", codes "Get" ∷ []) ∷ [] }))
unfolding strip_line_comment split_at is_idle is_content find text_eq add_rpc
scan_lines_forgotten_example =
    scan_lines_forgotten is_blank (codes "a.proto") (codes "S") (codes "Get (A) returns (A) ")
      (codes "rpc Get (A) returns (A) {") (codes "  };") (codes ";")
      (codes "  option (google.api.http) = {" ∷ codes "    get: \"/a\"" ∷ [])
      (codes "}" ∷ codes "rpc List (A) returns (A);" ∷ codes "}" ∷ []) b'S' []
      (record nothing { rpcs = (codes "S", []) ∷ [] }) refl refl (refl, (refl, tt)) refl refl
      (refl, (refl, (refl, tt)))

-- A run that adds a file under the root and one beside it.
abbrev disk_before : Disk
disk_before = record { files = codes "r/a" ∷ []; dirs = codes "r" ∷ [] }

abbrev disk_after : Disk
disk_after = record { files = codes "r/a" ∷ codes "r/b" ∷ codes "x" ∷ []; dirs = codes "r" ∷ [] }

abbrev below : Text → Text → Bool
below root p = has_prefix p root

abbrev anything : Text → Bool
anything p = true

abbrev as_is : List Text → List Text
as_is ps = ps

added :
    (p : Text)
    → text_mem p disk_after.files ≡ true
    → text_mem p disk_before.files ≡ false
    → (p ≡ codes "r/b") ⊎ (p ≡ codes "x")
unfolding text_mem
added p h n = ground (arith, h, n, text_eq_iff p (codes "r/b"), text_eq_iff p (codes "x"))

added-covered :
    (p : Text)
    → (p ≡ codes "r/b") ⊎ (p ≡ codes "x")
    → (under_roots below (before b'/') anything as_is p (codes "r" ∷ [])
        || text_mem p (codes "x" ∷ []) && not (stat p disk_before))
      ≡ true
unfolding under_roots text_mem stat text_eq
added-covered p (inl e) = rw e refl
added-covered p (inr e) = rw e refl

run-OnlyAdds :
    OnlyAdds below
      (before b'/')
      anything
      as_is
      (codes "r" ∷ [])
      (codes "x" ∷ [])
      disk_before
      disk_after
run-OnlyAdds = record {
  kept = λ p h. unfold text_mem in ground (arith, h);
  deletable = λ p h n. refl;
  covered = λ p h n. added-covered p (added p h n);
}

rollback-files_restored_example :
    text_mem
      (codes "x")
      (rollback below
        (before b'/')
        anything
        as_is
        (tracked below (before b'/') anything as_is (codes "r" ∷ []) (codes "x" ∷ []) disk_before)
        disk_after).files
    ≡ text_mem (codes "x") disk_before.files
rollback-files_restored_example =
    rollback-files_restored below (before b'/') anything as_is (codes "r" ∷ []) (codes "x" ∷ [])
      disk_before disk_after run-OnlyAdds (codes "x")

-- The path of two runes has three bytes.
longest_first_bytes :
    longest_first (codes "a" ∷ codes "bc" ∷ (b'a' ∷ 233 ∷ []) ∷ [])
    ≡ (b'a' ∷ 233 ∷ []) ∷ codes "bc" ∷ codes "a" ∷ []
unfolding longest_first
longest_first_bytes = refl

longest_first-IsDescending_example :
    Perm
      (longest_first (codes "a" ∷ codes "a/b" ∷ codes "a/b/c" ∷ []))
      (codes "a" ∷ codes "a/b" ∷ codes "a/b/c" ∷ [])
    × IsDescending (longest_first (codes "a" ∷ codes "a/b" ∷ codes "a/b/c" ∷ []))
longest_first-IsDescending_example =
    longest_first-IsDescending (codes "a" ∷ codes "a/b" ∷ codes "a/b/c" ∷ [])
