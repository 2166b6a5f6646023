-- ===== src/Rpc/Merge/Services.antt =====
-- What the merge of protos makes of the services in them.
use zctl.Base.{
  ℕ, suc, false, not, ◌||◌, List, [], ◌∷◌, ◌++◌, Text, codes, if◌then◌else◌, has_prefix, All, ◌≡◌,
  refl, ap, ◌∙◌, Bool-cases, inl, inr,
}
use zctl.Base.Int.{pos}
use zctl.Base.Strings.{is_empty}
use zctl.Rpc.Merge.{
  Merged, shift_depth, write_rpc, Patterns, trimmed, item_line, service_line, open_service,
  merge_line, merge_lines,
}
use zctl.Rpc.Merge.Lines.{
  outside, inside, write_rpcs, IsPlain, IsOpening, IsRpc, IsClosing, StaysOpen, merge_line-service,
  merge_line-open, merge_line-flat, merge_line-block, merge_line-block_end, merge_line-inner_end,
  merge_line-end, ltb_zero,
}

module _ (patterns : Patterns) (rel_path : Text) where
  merge_lines-flat :
      (rs rest : List Text) (n : ℕ) (out : Merged)
      → All (λ r. (k : ℕ) × IsRpc patterns rel_path k k r) rs
      → merge_lines patterns rel_path (rs ++ rest) (inside n out)
        ≡ merge_lines patterns rel_path rest (inside n (write_rpcs rs out))
  unfolding merge_lines
  merge_lines-flat [] rest n out h = refl
  merge_lines-flat (r ∷ rs) rest n out h =
      ap (merge_lines patterns rel_path (rs ++ rest))
        (merge_line-flat patterns rel_path r h.0.0 n out h.0.1)
      ∙ merge_lines-flat rs rest n (write_rpc r out) h.1

  -- A service whose rpcs stand on a line each, with as many closing as opening braces in it: every
  -- rpc is written to the rpcs, nothing to the messages, and the merge goes on behind the service.
  pub merge_lines_flat :
      (svc end : Text) (rs rest : List Text) (out : Merged)
      → IsOpening patterns rel_path svc
      → All (λ r. (k : ℕ) × IsRpc patterns rel_path k k r) rs
      → IsClosing patterns rel_path end
      → merge_lines patterns rel_path (svc ∷ (rs ++ end ∷ rest)) (outside out)
        ≡ merge_lines patterns rel_path rest
            (outside (write_rpcs rs (open_service patterns rel_path svc (outside out)).out))
  unfolding merge_lines
  merge_lines_flat svc end rs rest out o h c =
      let opened = (open_service patterns rel_path svc (outside out)).out in
      ap (merge_lines patterns rel_path (rs ++ end ∷ rest))
        (merge_line-open patterns rel_path svc out o)
      ∙ merge_lines-flat rs (end ∷ rest) 0 opened h
      ∙ ap (merge_lines patterns rel_path rest)
          (merge_line-end patterns rel_path end (write_rpcs rs opened) c)

  item_line-messages :
      (line : Text) (n : ℕ) (out : Merged)
      → patterns.rpc_re (trimmed patterns rel_path line) ≡ false
      → (out' : Merged) × (item_line patterns rel_path line (inside n out) ≡ inside n out')
        × (out'.message_lines ≡ out.message_lines)
  item_line-messages line n out h =
      elim (Bool-cases (
        has_prefix (trimmed patterns rel_path line) (codes "//")
        || is_empty (trimmed patterns rel_path line))) [
          | inl e ↦ (write_rpc line out, rw (h, e, if◌then◌else◌) refl, refl)
          | inr e ↦ (out, rw (h, e, if◌then◌else◌) refl, refl)
        ]

  merge_line-stays :
      (line : Text) (n m : ℕ) (out : Merged)
      → IsPlain patterns rel_path line
      → patterns.rpc_re (trimmed patterns rel_path line) ≡ false
      → shift_depth (pos (suc n)) (trimmed patterns rel_path line) ≡ pos (suc m)
      → merge_line patterns rel_path line (inside n out)
        ≡ item_line patterns rel_path line (inside m out)
  merge_line-stays line n m out p r d =
      merge_line-service patterns rel_path line n (pos 0) out p
      ∙ unfold service_line in rw (d, ltb_zero patterns rel_path m, if◌then◌else◌, not) refl

  merge_lines-StaysOpen :
      (n : ℕ) {ls : List Text} (out : Merged)
      → StaysOpen patterns rel_path n ls
      → (merge_lines patterns rel_path ls (inside n out)).out.message_lines ≡ out.message_lines
  unfolding merge_lines
  merge_lines-StaysOpen n out StaysOpen.done = refl
  merge_lines-StaysOpen n out (StaysOpen.next {line = line} {ls = ls} m p r d s) =
      let i = item_line-messages line m out r in
      ap (λ st. (merge_lines patterns rel_path ls st).out.message_lines)
        (merge_line-stays line n m out p r d ∙ i.1)
      ∙ merge_lines-StaysOpen m i.0 s
      ∙ i.2

  -- A service that has an rpc with a block, the brace that closes the block, and the brace that
  -- closes the service: of the lines behind it, where they hold no header, import, service or rpc
  -- and close no more blocks than they open, none is written to the messages.
  pub merge_lines_lost :
      (svc rpc block_end end : Text) (ls : List Text) (out : Merged)
      → IsOpening patterns rel_path svc
      → IsRpc patterns rel_path 1 0 rpc
      → IsClosing patterns rel_path block_end
      → IsClosing patterns rel_path end
      → StaysOpen patterns rel_path 0 ls
      → (merge_lines patterns rel_path
          (svc ∷ rpc ∷ block_end ∷ end ∷ ls)
          (outside out)).out.message_lines
        ≡ out.message_lines
  unfolding merge_lines
  merge_lines_lost svc rpc block_end end ls out o r b c s =
      let opened = (open_service patterns rel_path svc (outside out)).out in
      let written = write_rpc rpc opened in
      ap (λ st. (merge_lines patterns rel_path (rpc ∷ block_end ∷ end ∷ ls) st).out.message_lines)
        (merge_line-open patterns rel_path svc out o)
      ∙ ap (λ st. (merge_lines patterns rel_path (block_end ∷ end ∷ ls) st).out.message_lines)
          (merge_line-block patterns rel_path rpc 0 opened r)
      ∙ ap (λ st. (merge_lines patterns rel_path (end ∷ ls) st).out.message_lines)
          (merge_line-block_end patterns rel_path block_end 1 written b)
      ∙ ap (λ st. (merge_lines patterns rel_path ls st).out.message_lines)
          (merge_line-inner_end patterns rel_path end 0 (write_rpc block_end written) c)
      ∙ merge_lines-StaysOpen 0 (write_rpc block_end written) s
