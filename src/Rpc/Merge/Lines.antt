-- ===== src/Rpc/Merge/Lines.antt =====
-- What the merge of protos makes of single lines of services.
use zctl.Base.{
  ℕ, suc, ◌+◌, true, false, not, ◌||◌, List, [], ◌∷◌, Text, codes, if◌then◌else◌, ltb, has_prefix,
  ◌≡◌, refl, ◌∙◌, arith,
}
use zctl.Base.Int.{ℤ, pos, sub_ℕ}
use zctl.Base.Strings.{is_empty, count}
use zctl.Rpc.Merge.{
  Merged, FileMerge, shift_depth, write_rpc, Patterns, trimmed, service_line, open_service,
  merge_line,
}

-- Between the services of a file, and in one with some blocks open.
abbrev pub outside : Merged → FileMerge
outside out = record { in_service = false; brace_depth = pos 0; rpc_brace_depth = pos 0; out = out }

abbrev pub inside : ℕ → Merged → FileMerge
inside n out = record {
  in_service = true;
  brace_depth = pos (suc n);
  rpc_brace_depth = pos 0;
  out = out;
}

abbrev pub write_rpcs : List Text → Merged → Merged
write_rpcs [] out = out
write_rpcs (l ∷ ls) out = write_rpcs ls (write_rpc l out)

sub_ℕ-same : (n k : ℕ) → sub_ℕ (suc n + k) k ≡ pos (suc n)
sub_ℕ-same n k = ground arith

sub_ℕ-zero : (k : ℕ) → sub_ℕ (0 + k) k ≡ pos 0
sub_ℕ-zero k = ground arith

sub_ℕ-one : (n : ℕ) → sub_ℕ (suc n + 1) 0 ≡ pos (suc (suc n))
sub_ℕ-one n = ground arith

sub_ℕ-down : (n : ℕ) → sub_ℕ (suc (suc n) + 0) 1 ≡ pos (suc n)
sub_ℕ-down n = ground arith

module _ (patterns : Patterns) (rel_path : Text) where
  -- The line is no header, no import and no opening of a service.
  pub record IsPlain (line : Text) : Type 0 where
    pub no_header : patterns.header_skip (trimmed patterns rel_path line) ≡ false
    pub no_import : patterns.import_re (trimmed patterns rel_path line) ≡ false
    pub no_service : patterns.service_re (trimmed patterns rel_path line) ≡ false

  -- The line has so many opening and closing braces.
  abbrev pub HasBraces : ℕ → ℕ → Text → Type 0
  HasBraces opening closing line =
      (count b'{' (trimmed patterns rel_path line) ≡ opening)
      × (count b'}' (trimmed patterns rel_path line) ≡ closing)

  -- A line that opens a service and no more.
  pub record IsOpening (line : Text) : Type 0 where
    pub no_header : patterns.header_skip (trimmed patterns rel_path line) ≡ false
    pub no_import : patterns.import_re (trimmed patterns rel_path line) ≡ false
    pub service : patterns.service_re (trimmed patterns rel_path line) ≡ true
    pub braces : HasBraces 1 0 line

  -- An rpc with the braces.
  pub record IsRpc (opening closing : ℕ) (line : Text) : Type 0 where
    pub plain : IsPlain line
    pub rpc : patterns.rpc_re (trimmed patterns rel_path line) ≡ true
    pub braces : HasBraces opening closing line

  -- A line that closes a block and holds neither an rpc nor a comment.
  pub record IsClosing (line : Text) : Type 0 where
    pub plain : IsPlain line
    pub no_rpc : patterns.rpc_re (trimmed patterns rel_path line) ≡ false
    pub braces : HasBraces 0 1 line
    pub no_comment : has_prefix (trimmed patterns rel_path line) (codes "//") ≡ false
    pub filled : is_empty (trimmed patterns rel_path line) ≡ false

  -- Lines without services and rpcs in which more blocks are open than are closed, up to each line.
  pub data StaysOpen : ℕ → List Text → Type 0 where
    done : {n : ℕ} → StaysOpen n []
    next :
        {n : ℕ} {line : Text} {ls : List Text} (m : ℕ)
        → IsPlain line
        → patterns.rpc_re (trimmed patterns rel_path line) ≡ false
        → shift_depth (pos (suc n)) (trimmed patterns rel_path line) ≡ pos (suc m)
        → StaysOpen m ls
        → StaysOpen n (line ∷ ls)

  shift_depth-braces :
      (n opening closing : ℕ) (line : Text)
      → HasBraces opening closing line
      → shift_depth (pos n) (trimmed patterns rel_path line) ≡ sub_ℕ (n + opening) closing
  shift_depth-braces n opening closing line h = ground (arith, h.0, h.1)

  pub ltb_zero : (n : ℕ) → ltb 0 (suc n) ≡ true
  ltb_zero n = ground arith

  pub merge_line-service :
      (line : Text) (n : ℕ) (d : ℤ) (out : Merged)
      → IsPlain line
      → merge_line patterns rel_path line (record (inside n out) { rpc_brace_depth = d })
        ≡ service_line patterns rel_path line (record (inside n out) { rpc_brace_depth = d })
  unfolding merge_line
  merge_line-service line n d out h =
      rw (h.no_header, h.no_import, h.no_service, if◌then◌else◌) refl

  pub merge_line-open :
      (line : Text) (out : Merged)
      → IsOpening line
      → merge_line patterns rel_path line (outside out)
        ≡ inside 0 (open_service patterns rel_path line (outside out)).out
  unfolding merge_line
  merge_line-open line out h =
      rw
        (
          h.no_header,
          h.no_import,
          h.service,
          if◌then◌else◌,
          shift_depth-braces 0 1 0 line h.braces,
          sub_ℕ,
        )
        refl

  -- An rpc on one line is written, and the service goes on as it was.
  pub merge_line-flat :
      (line : Text) (k n : ℕ) (out : Merged)
      → IsRpc k k line
      → merge_line patterns rel_path line (inside n out) ≡ inside n (write_rpc line out)
  merge_line-flat line k n out h =
      merge_line-service line n (pos 0) out h.plain
      ∙ unfold service_line in
        rw
          (
            shift_depth-braces (suc n) k k line h.braces ∙ sub_ℕ-same n k,
            shift_depth-braces 0 k k line h.braces ∙ sub_ℕ-zero k,
            ltb_zero n,
            h.rpc,
            if◌then◌else◌,
            not,
          )
          refl

  -- An rpc with a block is written, and both depths count its brace.
  pub merge_line-block :
      (line : Text) (n : ℕ) (out : Merged)
      → IsRpc 1 0 line
      → merge_line patterns rel_path line (inside n out)
        ≡ record (inside (suc n) (write_rpc line out)) { rpc_brace_depth = pos 1 }
  merge_line-block line n out h =
      merge_line-service line n (pos 0) out h.plain
      ∙ unfold service_line in
        rw
          (
            shift_depth-braces (suc n) 1 0 line h.braces ∙ sub_ℕ-one n,
            shift_depth-braces 0 1 0 line h.braces,
            ltb_zero (suc n),
            h.rpc,
            if◌then◌else◌,
            not,
          )
          refl

  -- The brace that closes the block of an rpc is written, and only one depth counts it.
  pub merge_line-block_end :
      (line : Text) (n : ℕ) (out : Merged)
      → IsClosing line
      → merge_line patterns rel_path line (record (inside n out) { rpc_brace_depth = pos 1 })
        ≡ inside n (write_rpc line out)
  merge_line-block_end line n out h =
      merge_line-service line n (pos 1) out h.plain
      ∙ unfold service_line in rw (shift_depth-braces 1 0 1 line h.braces, if◌then◌else◌) refl

  -- A brace that closes a block with others open.
  pub merge_line-inner_end :
      (line : Text) (n : ℕ) (out : Merged)
      → IsClosing line
      → merge_line patterns rel_path line (inside (suc n) out) ≡ inside n out
  merge_line-inner_end line n out h =
      merge_line-service line (suc n) (pos 0) out h.plain
      ∙ unfold service_line in
        rw
          (
            shift_depth-braces (suc (suc n)) 0 1 line h.braces ∙ sub_ℕ-down n,
            ltb_zero n,
            h.no_rpc,
            h.no_comment,
            h.filled,
            if◌then◌else◌,
            not,
            ◌||◌,
          )
          refl

  -- The brace that closes the service.
  pub merge_line-end :
      (line : Text) (out : Merged)
      → IsClosing line
      → merge_line patterns rel_path line (inside 0 out) ≡ outside out
  merge_line-end line out h =
      merge_line-service line 0 (pos 0) out h.plain
      ∙ unfold service_line in rw (shift_depth-braces 1 0 1 line h.braces, if◌then◌else◌, not) refl
