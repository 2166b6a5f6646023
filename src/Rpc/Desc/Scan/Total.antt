-- ===== src/Rpc/Desc/Scan/Total.antt =====
-- The scan of a proto comes to an end on every text, without a panic.
use zctl.Base.{
  ℕ, zero, suc, ◌<◌, Bool, true, false, not, ◌&&◌, List, [], ◌∷◌, Text, codes, length, has_prefix,
  ◌≡◌, refl, arith, inl, inr, ◌⊎◌, Bool-cases, if◌then◌else◌, ◌==◌,
}
use zctl.Base.Strings.{is_empty, contains_rune, behind, trim_space}
use zctl.Rpc.Desc.Comments.{strip_line_comment}
use zctl.Rpc.Desc.Scan.{
  Index, Frame, service, message, Scan, Scanned, scanned, panicked, out_of_fuel, find, is_some,
  is_nil, open_service, open_message, Next, go, stop, skip_brace, add_message, pop_frame, pop,
  name_behind, record_rpc, field_or_next, step, after_step, line_loop, scan_line, and_then,
  scan_lines, parse_proto_file,
}
use zctl.Rpc.Desc.Scan.Kept.{
  Kept, Kept-refl, Kept-trans, add_service-Kept, add_service-find, add_rpc-Kept, add_message-Kept,
}

-- The current service, if there is one, has a map for its rpcs.
abbrev pub IsKnown : Scan → Type 0
IsKnown st =
    (is_empty st.current_service ≡ true) ⊎ (is_some (find st.current_service st.index.rpcs) ≡ true)

-- A valid state, which has what the index has.
abbrev pub Extends : Index → Scan → Type 0
Extends i st = IsKnown st × Kept i st.index

-- The scan has ended in such a state, neither in a panic nor out of rounds.
abbrev Ends : Index → Scanned → Type 0
Ends i (scanned st) = Extends i st
Ends i panicked = ⊥
Ends i out_of_fuel = ⊥

-- A round goes on with less than `n` runes, or ends the line.
abbrev Moves : ℕ → Index → Next → Type 0
Moves n i (go s st) = (length s < n) × Extends i st
Moves n i (stop r) = Ends i r

length-behind : (c : ℕ) (s : Text) → contains_rune c s ≡ true → length (behind c s) < length s
length-behind c [] h = cc
length-behind c (x ∷ s) h = ground (arith, h, length-behind c s)

skip_brace-Moves :
    (s : Text) (i : Index) (st : Scan) → Extends i st → Moves (length s) i (skip_brace s st)
unfolding skip_brace
skip_brace-Moves s i st h = elim (Bool-cases (contains_rune b'{' s)) [
  | inl e ↦ rw (e, if◌then◌else◌, Moves) (length-behind b'{' s e, h)
  | inr e ↦ rw (e, if◌then◌else◌, Moves, Ends) h
]

open_service-Extends :
    (name : Text) (st : Scan) → IsKnown st → Extends st.index (open_service name st)
unfolding open_service
open_service-Extends [] st h = (h, Kept-refl st.index)
open_service-Extends (c ∷ name) st h =
    (inr (add_service-find (c ∷ name) st.index.rpcs), add_service-Kept (c ∷ name) st.index)

open_message-Extends :
    (name : Text) (st : Scan) → IsKnown st → Extends st.index (open_message name st)
unfolding open_message
open_message-Extends [] st h = (h, Kept-refl st.index)
open_message-Extends (c ∷ name) st h = (h, Kept-refl st.index)

Extends-trans :
    (i : Index) (st next : Scan) → Kept i st.index → Extends st.index next → Extends i next
Extends-trans i st next k h = (h.0, Kept-trans i st.index next.index k h.1)

Ends-trans : (i : Index) (st : Scan) (r : Scanned) → Kept i st.index → Ends st.index r → Ends i r
Ends-trans i st (scanned next) k h = Extends-trans i st next k h
Ends-trans i st panicked k h = absurd h
Ends-trans i st out_of_fuel k h = absurd h

after_step-Ends :
    (n : ℕ) (i : Index) (x : Next) (rec : Text → Scan → Scanned)
    → ((s : Text) (st : Scan) → length s < n → IsKnown st → Ends st.index (rec s st))
    → Moves n i x
    → Ends i (after_step rec x)
after_step-Ends n i (stop r) rec k m = m
after_step-Ends n i (go s st) rec k m = Ends-trans i st _ m.1.1 (k s st m.0 m.1.0)

module _ (is_space : ℕ → Bool) (rel_path : Text) where
  closed-Extends :
      (name : Text) (fields : List _) (fs : List Frame) (st : Scan)
      → IsKnown st
      → Extends st.index (pop_frame is_space rel_path (message name fields ∷ fs) st)
  unfolding pop_frame add_message
  closed-Extends name fields (f ∷ fs) st h = (h, Kept-refl st.index)
  closed-Extends name fields [] st h = elim (Bool-cases (is_some (find name st.index.messages))) [
    | inl e ↦ rw (e, if◌then◌else◌) (h, Kept-refl st.index)
    | inr e ↦ (rw (e, if◌then◌else◌) h, add_message-Kept rel_path name fields st.index)
  ]

  pop_frame-Extends :
      (fs : List Frame) (st : Scan)
      → IsKnown st
      → Extends st.index (pop_frame is_space rel_path fs st)
  unfolding pop_frame
  pop_frame-Extends [] st h = (h, Kept-refl st.index)
  pop_frame-Extends (service name ∷ fs) st h = (inl refl, Kept-refl st.index)
  pop_frame-Extends (message name fields ∷ fs) st h = closed-Extends name fields fs st h

  field_or_next-Moves :
      (fs : List Frame) (c : ℕ) (s : Text) (st : Scan)
      → IsKnown st
      → Moves (suc (length s)) st.index (field_or_next is_space rel_path fs c s st)
  unfolding field_or_next
  field_or_next-Moves [] c s st h = (omega arith, (h, Kept-refl st.index))
  field_or_next-Moves (service name ∷ fs) c s st h = (omega arith, (h, Kept-refl st.index))
  field_or_next-Moves (message name fields ∷ fs) c s st h = (h, Kept-refl st.index)

  record_rpc-Ends :
      (name : Text) (st : Scan)
      → is_some (find st.current_service st.index.rpcs) ≡ true
      → Ends st.index (record_rpc name st)
  unfolding record_rpc
  record_rpc-Ends [] st h = (inr h, Kept-refl st.index)
  record_rpc-Ends (c ∷ name) st h =
      let k = add_rpc-Kept st.current_service (c ∷ name) st.index in
      rw (h, if◌then◌else◌, Ends) (inr (k.services st.current_service h), k)

  known-rpcs :
      (st : Scan)
      → IsKnown st
      → is_empty st.current_service ≡ false
      → is_some (find st.current_service st.index.rpcs) ≡ true
  known-rpcs st (inl e) n = cc
  known-rpcs st (inr e) n = e

  rpc_or_field-Moves :
      (c : ℕ) (s : Text) (st : Scan)
      → IsKnown st
      → Moves (suc (length s)) st.index (
          if not (is_empty st.current_service) && has_prefix (c ∷ s) (codes "rpc ")
          then stop (record_rpc (name_behind is_space rel_path 4 (c ∷ s)) st)
          else field_or_next is_space rel_path st.stack c s st)
  rpc_or_field-Moves c s st h = elim (Bool-cases (is_empty st.current_service)) [
    | inl e ↦ rw (e, not, ◌&&◌, if◌then◌else◌) (field_or_next-Moves st.stack c s st h)
    | inr e ↦ elim (Bool-cases (has_prefix (c ∷ s) (codes "rpc "))) [
      | inl p ↦
          rw (e, p, not, ◌&&◌, if◌then◌else◌)
            (record_rpc-Ends (name_behind is_space rel_path 4 (c ∷ s)) st (known-rpcs st h e))
      | inr p ↦ rw (e, p, not, ◌&&◌, if◌then◌else◌) (field_or_next-Moves st.stack c s st h)
    ]
  ]

  step-Moves :
      (c : ℕ) (s : Text) (st : Scan)
      → IsKnown st
      → Moves (suc (length s)) st.index (step is_space rel_path (c ∷ s) st)
  unfolding step pop
  step-Moves c s st h = elim (Bool-cases (c == b'}')) [
    | inl e ↦ rw (e, if◌then◌else◌, Moves) (omega arith, pop_frame-Extends st.stack st h)
    | inr e ↦ elim (Bool-cases (has_prefix (c ∷ s) (codes "service ") && is_nil st.stack)) [
      | inl p ↦
          rw (e, p, if◌then◌else◌)
            (skip_brace-Moves (c ∷ s) st.index _
              (open_service-Extends (name_behind is_space rel_path 8 (c ∷ s)) st h))
      | inr p ↦ elim (Bool-cases (has_prefix (c ∷ s) (codes "message "))) [
        | inl q ↦
            rw (e, p, q, if◌then◌else◌)
              (skip_brace-Moves (c ∷ s) st.index _
                (open_message-Extends (name_behind is_space rel_path 8 (c ∷ s)) st h))
        | inr q ↦ rw (e, p, q, if◌then◌else◌) (rpc_or_field-Moves c s st h)
      ]
    ]
  ]

  line_loop-Ends :
      (n : ℕ) (s : Text) (st : Scan)
      → length s < n
      → IsKnown st
      → Ends st.index (line_loop is_space rel_path n s st)
  unfolding line_loop
  line_loop-Ends zero s st l h = omega arith
  line_loop-Ends (suc n) [] st l h = unfold step in (h, Kept-refl st.index)
  line_loop-Ends (suc n) (c ∷ s) st l h =
      after_step-Ends (suc (length s)) st.index _ (line_loop is_space rel_path n)
        (λ t next m k. line_loop-Ends n t next (omega (arith, l, m)) k) (step-Moves c s st h)

  scan_line-Ends :
      (raw : Text) (st : Scan) → IsKnown st → Ends st.index (scan_line is_space rel_path raw st)
  unfolding scan_line
  scan_line-Ends raw st h =
      let line = trim_space is_space (strip_line_comment raw) in
      elim (Bool-cases (is_empty line)) [
        | inl e ↦ rw (e, if◌then◌else◌) (h, Kept-refl st.index)
        | inr e ↦ rw (e, if◌then◌else◌) (line_loop-Ends (suc (length line)) line st (omega arith) h)
      ]

  and_then-Ends :
      (i : Index) (r : Scanned) (next : Scan → Scanned)
      → Ends i r
      → ((st : Scan) → IsKnown st → Ends st.index (next st))
      → Ends i (and_then r next)
  and_then-Ends i (scanned st) next h k = Ends-trans i st (next st) h.1 (k st h.0)
  and_then-Ends i panicked next h k = h
  and_then-Ends i out_of_fuel next h k = h

  pub scan_lines-Ends :
      (ls : List Text) (st : Scan) → IsKnown st → Ends st.index (scan_lines is_space rel_path ls st)
  unfolding scan_lines
  scan_lines-Ends [] st h = (h, Kept-refl st.index)
  scan_lines-Ends (l ∷ ls) st h =
      and_then-Ends st.index _ _ (scan_line-Ends l st h) (λ next k. scan_lines-Ends ls next k)

  Ends-scanned :
      (i : Index) (r : Scanned) → Ends i r → (st : Scan) × (r ≡ scanned st) × Kept i st.index
  Ends-scanned i (scanned st) h = (st, refl, h.1)
  Ends-scanned i panicked h = absurd h
  Ends-scanned i out_of_fuel h = absurd h

  -- On every text and index, parseProtoFile ends without a panic, and each service, rpc and message
  -- of the index is still there, the messages with the fields and the path they had.
  pub parse_proto_file-Kept :
      (text : Text) (index : Index)
      → (st : Scan) × (parse_proto_file is_space rel_path text index ≡ scanned st)
        × Kept index st.index
  unfolding parse_proto_file
  parse_proto_file-Kept text index = Ends-scanned index _ (scan_lines-Ends _ _ (inl refl))
