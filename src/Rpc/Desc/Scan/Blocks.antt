-- ===== src/Rpc/Desc/Scan/Blocks.antt =====
-- The lines of a service, and the lines without effect.
use zctl.Base.{
  ℕ, zero, suc, ◌<◌, Bool, true, false, not, ◌&&◌, [], ◌∷◌, ◌++◌, Text, codes, length, has_prefix,
  ◌≡◌, refl, ap, ◌∙◌, arith, inl, inr, Bool-cases, if◌then◌else◌, ◌==◌,
}
use zctl.Base.Strings.{is_empty, trim_space}
use zctl.Rpc.Desc.Comments.{strip_line_comment}
use zctl.Rpc.Desc.Scan.{
  Index, service, Scan, scanned, find, is_some, name_behind, record_rpc, add_rpc, field_or_next, go,
  step, after_step, line_loop, scan_line, pop, pop_frame,
}

-- At no place of the line does a block end, or a service or a message begin.
unfoldable pub is_silent : Text → Bool
is_silent [] = true
is_silent (c ∷ s) =
    not (c == b'}')
    && not (has_prefix (c ∷ s) (codes "service "))
    && not (has_prefix (c ∷ s) (codes "message "))
    && is_silent s

none_of :
    (a b c d : Bool)
    → (not a && not b && not c && d) ≡ true
    → (a ≡ false) × (b ≡ false) × (c ≡ false) × (d ≡ true)
none_of false false false d h = (refl, refl, refl, h)
none_of true b c d h = cc
none_of false true c d h = cc
none_of false false true d h = cc

is_silent-parts :
    (c : ℕ) (s : Text)
    → is_silent (c ∷ s) ≡ true
    → ((c == b'}') ≡ false)
      × (has_prefix (c ∷ s) (codes "service ") ≡ false)
      × (has_prefix (c ∷ s) (codes "message ") ≡ false)
      × (is_silent s ≡ true)
unfolding is_silent
is_silent-parts c s h =
    none_of (c == b'}') (has_prefix (c ∷ s) (codes "service "))
      (has_prefix (c ∷ s) (codes "message ")) (is_silent s) h

-- The states between and in services.
abbrev pub outside : Index → Scan
outside index = record { stack = []; current_service = []; index = index }

abbrev pub inside : Text → ℕ → Text → Index → Scan
inside name c cs index = record {
  stack = service name ∷ [];
  current_service = c ∷ cs;
  index = index;
}

-- The index with the rpc in the map of the service; a line without a name adds nothing.
abbrev pub named_rpc : Text → Text → Index → Index
named_rpc current [] index = index
named_rpc current (x ∷ name) index = record index { rpcs = add_rpc current (x ∷ name) index.rpcs }

-- The line as it is scanned.
abbrev pub trimmed : (ℕ → Bool) → Text → Text
trimmed is_space raw = trim_space is_space (strip_line_comment raw)

module _ (is_space : ℕ → Bool) (rel_path : Text) where
  step-silent :
      (c : ℕ) (s : Text) (index : Index)
      → is_silent (c ∷ s) ≡ true
      → step is_space rel_path (c ∷ s) (outside index) ≡ go s (outside index)
  unfolding step field_or_next
  step-silent c s index h =
      let k = is_silent-parts c s h in rw (k.0, k.1, k.2, if◌then◌else◌, ◌&&◌) refl

  line_loop-silent :
      (n : ℕ) (s : Text) (index : Index)
      → length s < n
      → is_silent s ≡ true
      → line_loop is_space rel_path n s (outside index) ≡ scanned (outside index)
  unfolding line_loop is_silent
  line_loop-silent zero s index l h = absurd (omega (arith, l))
  line_loop-silent (suc n) [] index l h = unfold step in refl
  line_loop-silent (suc n) (c ∷ s) index l h =
      ap (after_step (line_loop is_space rel_path n)) (step-silent c s index h)
      ∙ line_loop-silent n s index (omega (arith, l)) (is_silent-parts c s h).3

  pub record_rpc-named :
      (name rpc : Text) (c : ℕ) (cs : Text) (index : Index)
      → is_some (find (c ∷ cs) index.rpcs) ≡ true
      → record_rpc rpc (inside name c cs index)
        ≡ scanned (inside name c cs (named_rpc (c ∷ cs) rpc index))
  unfolding record_rpc
  record_rpc-named name [] c cs index h = refl
  record_rpc-named name (x ∷ rpc) c cs index h = rw (h, if◌then◌else◌) refl

  -- A line that begins with `rpc ` is put into the map of its service, however it ends.
  pub scan_line-rpc :
      (name s raw : Text) (c : ℕ) (cs : Text) (index : Index)
      → trimmed is_space raw ≡ codes "rpc " ++ s
      → scan_line is_space rel_path raw (inside name c cs index)
        ≡ record_rpc (name_behind is_space rel_path 4 (codes "rpc " ++ s)) (inside name c cs index)
  unfolding scan_line line_loop step
  scan_line-rpc name s raw c cs index e = rw e refl

  -- A line with a closing brace alone leaves the service.
  pub scan_line-close :
      (name raw : Text) (c : ℕ) (cs : Text) (index : Index)
      → trimmed is_space raw ≡ codes "}"
      → scan_line is_space rel_path raw (inside name c cs index) ≡ scanned (outside index)
  unfolding scan_line line_loop step pop pop_frame
  scan_line-close name raw c cs index e = rw e refl

  pub scan_line-silent :
      (raw : Text) (index : Index)
      → is_silent (trimmed is_space raw) ≡ true
      → scan_line is_space rel_path raw (outside index) ≡ scanned (outside index)
  unfolding scan_line
  scan_line-silent raw index h = elim (Bool-cases (is_empty (trimmed is_space raw))) [
    | inl e ↦ rw (e, if◌then◌else◌) refl
    | inr e ↦
        rw (e, if◌then◌else◌)
          (line_loop-silent (suc (length (trimmed is_space raw))) (trimmed is_space raw) index
            (omega arith) h)
  ]
