-- ===== src/Rpc/Desc/Scan/Forgotten.antt =====
-- What the scan makes of an rpc with a block behind it.
use zctl.Base.{
  ℕ, zero, suc, ◌<◌, Bool, true, false, not, ◌&&◌, List, [], ◌∷◌, ◌++◌, Text, codes, length,
  has_prefix, ◌≡◌, refl, sym, ap, ◌∙◌, arith, inl, inr, Bool-cases, if◌then◌else◌, ◌==◌, All,
  append-nil,
}
use zctl.Base.Strings.{is_empty}
use zctl.Rpc.Desc.Scan.{
  Index, Scan, scanned, find, is_some, name_behind, field_or_next, go, step, after_step, line_loop,
  scan_line, and_then, scan_lines, pop, pop_frame,
}
use zctl.Rpc.Desc.Scan.Blocks.{outside, inside, named_rpc, trimmed, record_rpc-named, scan_line-rpc}

-- At no place of the line does a service or a message begin; braces may close.
unfoldable pub is_idle : Text → Bool
is_idle [] = true
is_idle (c ∷ s) =
    not (has_prefix (c ∷ s) (codes "service "))
    && not (has_prefix (c ∷ s) (codes "message "))
    && is_idle s

-- At no place of the line does a brace close, or a message or an rpc begin.
unfoldable pub is_content : Text → Bool
is_content [] = true
is_content (c ∷ s) =
    not (c == b'}')
    && not (has_prefix (c ∷ s) (codes "message "))
    && not (has_prefix (c ∷ s) (codes "rpc "))
    && is_content s

none_of_two : (a b c : Bool) → (not a && not b && c) ≡ true → (a ≡ false) × (b ≡ false) × (c ≡ true)
none_of_two false false c h = (refl, refl, h)
none_of_two true b c h = cc
none_of_two false true c h = cc

none_of_three :
    (a b c d : Bool)
    → (not a && not b && not c && d) ≡ true
    → (a ≡ false) × (b ≡ false) × (c ≡ false) × (d ≡ true)
none_of_three false b c d h = let (p, q, r) = none_of_two b c d h in (refl, p, q, r)
none_of_three true b c d h = cc

module _ (is_space : ℕ → Bool) (rel_path : Text) where
  -- The loop over a line moves on by a rune each round, as long as a test says so of what is left.
  module _ (test : Text → Bool) (st : Scan)
      (moves : (c : ℕ) (s : Text)
        → test (c ∷ s) ≡ true
        → (step is_space rel_path (c ∷ s) st ≡ go s st) × (test s ≡ true)) where
    line_loop-moves :
        (n : ℕ) (s : Text)
        → length s < n
        → test s ≡ true
        → line_loop is_space rel_path n s st ≡ scanned st
    unfolding line_loop
    line_loop-moves zero s l h = absurd (omega (arith, l))
    line_loop-moves (suc n) [] l h = unfold step in refl
    line_loop-moves (suc n) (c ∷ s) l h =
        let (e, k) = moves c s h in
        ap (after_step (line_loop is_space rel_path n)) e ∙ line_loop-moves n s (omega (arith, l)) k

    scan_line-moves :
        (raw : Text)
        → test (trimmed is_space raw) ≡ true
        → scan_line is_space rel_path raw st ≡ scanned st
    unfolding scan_line
    scan_line-moves raw h = elim (Bool-cases (is_empty (trimmed is_space raw))) [
      | inl e ↦ rw (e, if◌then◌else◌) refl
      | inr e ↦
          rw (e, if◌then◌else◌)
            (line_loop-moves (suc (length (trimmed is_space raw))) (trimmed is_space raw)
              (omega arith) h)
    ]

    scan_lines-moves :
        (ls rest : List Text)
        → All (λ l. test (trimmed is_space l) ≡ true) ls
        → scan_lines is_space rel_path (ls ++ rest) st ≡ scan_lines is_space rel_path rest st
    unfolding scan_lines
    scan_lines-moves [] rest a = refl
    scan_lines-moves (l ∷ ls) rest a =
        rw (scan_line-moves l a.0, and_then) (scan_lines-moves ls rest a.1)

  idle-moves :
      (index : Index) (c : ℕ) (s : Text)
      → is_idle (c ∷ s) ≡ true
      → (step is_space rel_path (c ∷ s) (outside index) ≡ go s (outside index)) × (is_idle s ≡ true)
  unfolding is_idle step pop pop_frame field_or_next
  idle-moves index c s h =
      let service = has_prefix (c ∷ s) (codes "service ") in
      let message = has_prefix (c ∷ s) (codes "message ") in
      let (p, q, r) = none_of_two service message (is_idle s) h in
      (
        elim (Bool-cases (c == b'}')) [
          | inl e ↦ rw (e, if◌then◌else◌) refl
          | inr e ↦ rw (e, p, q, if◌then◌else◌, ◌&&◌) refl
        ],
        r,
      )

  content-moves :
      (name : Text) (c' : ℕ) (cs : Text) (index : Index) (c : ℕ) (s : Text)
      → is_content (c ∷ s) ≡ true
      → (step is_space rel_path (c ∷ s) (inside name c' cs index) ≡ go s (inside name c' cs index))
        × (is_content s ≡ true)
  unfolding is_content step field_or_next
  content-moves name c' cs index c s h =
      let message = has_prefix (c ∷ s) (codes "message ") in
      let rpc = has_prefix (c ∷ s) (codes "rpc ") in
      let (b, q, r, t) = none_of_three (c == b'}') message rpc (is_content s) h in
      (
        elim (Bool-cases (has_prefix (c ∷ s) (codes "service "))) [
          | inl e ↦ rw (b, e, q, r, if◌then◌else◌, ◌&&◌) refl
          | inr e ↦ rw (b, e, q, r, if◌then◌else◌, ◌&&◌) refl
        ],
        t,
      )

  -- A line that begins with a closing brace leaves the service.
  scan_line-closed :
      (name raw tail : Text) (c : ℕ) (cs : Text) (index : Index)
      → trimmed is_space raw ≡ b'}' ∷ tail
      → is_idle tail ≡ true
      → scan_line is_space rel_path raw (inside name c cs index) ≡ scanned (outside index)
  unfolding scan_line line_loop step pop pop_frame
  scan_line-closed name raw tail c cs index e h = rw e (
      line_loop-moves is_idle (outside index) (idle-moves index) (suc (length tail)) tail
        (omega arith) h)

  -- In a service, an rpc line that ends in an opening brace; lines of its block, in which no brace
  -- closes and no message or rpc begins; a line that begins with a closing brace, and further lines,
  -- in all of which no service or message begins, though rpcs may, and braces close: of all these
  -- lines the scan records the first rpc alone, and it is no longer in the service behind them.
  pub scan_lines_forgotten :
      (name s raw close tail : Text) (block later : List Text) (c : ℕ) (cs : Text) (index : Index)
      → is_some (find (c ∷ cs) index.rpcs) ≡ true
      → trimmed is_space raw ≡ codes "rpc " ++ (s ++ codes "{")
      → All (λ l. is_content (trimmed is_space l) ≡ true) block
      → trimmed is_space close ≡ b'}' ∷ tail
      → is_idle tail ≡ true
      → All (λ l. is_idle (trimmed is_space l) ≡ true) later
      → scan_lines is_space rel_path (raw ∷ (block ++ close ∷ later)) (inside name c cs index)
        ≡ scanned (
            outside (
              named_rpc
                (c ∷ cs)
                (name_behind is_space rel_path 4 (codes "rpc " ++ (s ++ codes "{")))
                index))
  unfolding scan_lines
  scan_lines_forgotten name s raw close tail block later c cs index k e b d t h =
      let rpc = name_behind is_space rel_path 4 (codes "rpc " ++ (s ++ codes "{")) in
      let i = named_rpc (c ∷ cs) rpc index in
      rw
        (
          scan_line-rpc is_space rel_path name (s ++ codes "{") raw c cs index e,
          record_rpc-named is_space rel_path name rpc c cs index k,
          and_then,
          scan_lines-moves is_content (inside name c cs i) (content-moves name c cs i) block
              (close ∷ later) b,
        )
        (rw (scan_line-closed name close tail c cs i d t, and_then)
          (ap (λ ls. scan_lines is_space rel_path ls (outside i)) (sym (append-nil later))
            ∙ scan_lines-moves is_idle (outside i) (idle-moves i) later [] h))
