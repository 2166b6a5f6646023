-- ===== src/Rpc/Desc/Scan/Lines.antt =====
-- The scan of single lines of protos.
use zctl.Base.{
  ℕ, suc, Bool, true, false, ◌&&◌, List, [], ◌∷◌, ◌++◌, some, Text, codes, ◌≡◌, refl, ap, ◌∙◌,
  arith, length, has_prefix, All, take_while, ◌==◌, if◌then◌else◌, inl, inr, Bool-cases,
}
use zctl.Base.Strings.{is_empty, behind, trim_space}
use zctl.Base.Strings.Trim.{starts, take_while-append, contains_rune-append, trim_right-solid}
use zctl.Rpc.Desc.Fields.{FieldSig, is_ident_rune, parse_proto_field_line}
use zctl.Rpc.Desc.Fields.Printed.{IsWord}
use zctl.Rpc.Desc.Fields.Words.{Trims, Trims-append, trim_space-part, starts-word}
use zctl.Rpc.Desc.Scan.{
  Index, Scan, service, message, scanned, pop, pop_frame, add_service, add_message, open_service,
  open_message, skip_brace, field_or_next, step, line_loop, scan_line,
}
use zctl.Rpc.Desc.Scan.Blocks.{trimmed, outside}

-- In a message at the top level, with the fields so far.
abbrev pub within_message : Text → List FieldSig → Index → Scan
within_message name fields index = record {
  stack = message name fields ∷ [];
  current_service = [];
  index = index;
}

module _ (is_space : ℕ → Bool) (solid : (c : ℕ) → is_ident_rune c ≡ true → is_space c ≡ false) where
  -- The name behind a keyword, before what is no part of it and has a solid end.
  pub name-part :
      (w s t : Text)
      → IsWord w
      → starts is_ident_rune t ≡ false
      → Trims is_space s t
      → take_while is_ident_rune (trim_space is_space (w ++ s)) ≡ w
  name-part w s t k n h =
      ap (take_while is_ident_rune) (
        trim_space-part is_space [] (w ++ s) (w ++ t) tt (starts-word is_space solid w s k.0 k.1)
          (Trims-append is_space w s t h))
      ∙ take_while-append is_ident_rune w t k.1 n

behind-brace : (w : Text) → All (λ c. is_ident_rune c ≡ true) w → behind b'{' (w ++ codes " {") ≡ []
behind-brace [] h = refl
behind-brace (c ∷ w) h = ground (arith, h.0, behind-brace w h.1)

module _ (is_space : ℕ → Bool) (solid : (c : ℕ) → is_ident_rune c ≡ true → is_space c ≡ false)
    (solid_open : is_space b'{' ≡ false) (rel_path : Text) where
  open_name :
      (w : Text) → IsWord w → take_while is_ident_rune (trim_space is_space (w ++ codes " {")) ≡ w
  open_name w k = name-part is_space solid w (codes " {") (codes " {") k refl (
      Trims-append is_space (codes " ") (codes "{") (codes "{")
        (trim_right-solid is_space b'{' [] solid_open, refl))

  line_loop-message :
      (n : ℕ) (w : Text) (index : Index)
      → IsWord w
      → line_loop is_space rel_path
          (suc (suc n))
          (codes "message " ++ (w ++ codes " {"))
          (outside index)
        ≡ scanned (within_message w [] index)
  unfolding line_loop step skip_brace open_message
  line_loop-message n w index k =
      rw
        (
          open_name w k,
          k.0,
          contains_rune-append b'{' w (codes " {") refl,
          behind-brace w k.1,
          if◌then◌else◌,
        )
        refl

  line_loop-service :
      (n : ℕ) (w : Text) (index : Index)
      → IsWord w
      → line_loop is_space rel_path
          (suc (suc n))
          (codes "service " ++ (w ++ codes " {"))
          (outside index)
        ≡ scanned (record {
          stack = service w ∷ [];
          current_service = w;
          index = record index { rpcs = add_service w index.rpcs };
        })
  unfolding line_loop step skip_brace open_service
  line_loop-service n w index k =
      rw
        (
          open_name w k,
          k.0,
          contains_rune-append b'{' w (codes " {") refl,
          behind-brace w k.1,
          if◌then◌else◌,
        )
        refl

  pub scan_line-message :
      (raw w : Text) (index : Index)
      → trimmed is_space raw ≡ codes "message " ++ (w ++ codes " {")
      → IsWord w
      → scan_line is_space rel_path raw (outside index) ≡ scanned (within_message w [] index)
  unfolding scan_line
  scan_line-message raw w index e k =
      rw e (line_loop-message (length (codes "essage " ++ (w ++ codes " {"))) w index k)

  pub scan_line-blank :
      (raw : Text) (st : Scan)
      → trimmed is_space raw ≡ []
      → scan_line is_space rel_path raw st ≡ scanned st
  unfolding scan_line
  scan_line-blank raw st e = rw e refl

  pub scan_line-end :
      (raw name : Text) (fields : List FieldSig) (index : Index)
      → trimmed is_space raw ≡ codes "}"
      → scan_line is_space rel_path raw (within_message name fields index)
        ≡ scanned (outside (add_message rel_path name fields index))
  unfolding scan_line line_loop step pop pop_frame
  scan_line-end raw name fields index e = rw e refl

  -- A line of a message that begins with a word, and not with its keyword, is a field of it.
  line_loop-field :
      (n : ℕ) (t name : Text) (fields : List FieldSig) (sig : FieldSig) (index : Index)
      → starts is_ident_rune t ≡ true
      → has_prefix t (codes "message ") ≡ false
      → parse_proto_field_line is_space t ≡ some sig
      → line_loop is_space rel_path (suc n) t (within_message name fields index)
        ≡ scanned (within_message name (fields ++ sig ∷ []) index)
  unfolding line_loop step field_or_next
  line_loop-field n [] name fields sig index a m p = cc
  line_loop-field n (c ∷ s) name fields sig index a m p =
      let q : (c == b'}') ≡ false = ground (arith, a) in
      elim (Bool-cases (has_prefix (c ∷ s) (codes "service "))) [
        | inl e ↦ rw (q, m, e, p, if◌then◌else◌, ◌&&◌) refl
        | inr e ↦ rw (q, m, e, p, if◌then◌else◌, ◌&&◌) refl
      ]

  pub scan_line-service :
      (raw w : Text) (index : Index)
      → trimmed is_space raw ≡ codes "service " ++ (w ++ codes " {")
      → IsWord w
      → scan_line is_space rel_path raw (outside index)
        ≡ scanned (record {
          stack = service w ∷ [];
          current_service = w;
          index = record index { rpcs = add_service w index.rpcs };
        })
  unfolding scan_line
  scan_line-service raw w index e k =
      rw e (line_loop-service (length (codes "ervice " ++ (w ++ codes " {"))) w index k)

  starts-filled : (t : Text) → starts is_ident_rune t ≡ true → is_empty t ≡ false
  starts-filled [] h = cc
  starts-filled (c ∷ t) h = refl

  pub scan_line-word :
      (raw t name : Text) (fields : List FieldSig) (sig : FieldSig) (index : Index)
      → trimmed is_space raw ≡ t
      → starts is_ident_rune t ≡ true
      → has_prefix t (codes "message ") ≡ false
      → parse_proto_field_line is_space t ≡ some sig
      → scan_line is_space rel_path raw (within_message name fields index)
        ≡ scanned (within_message name (fields ++ sig ∷ []) index)
  unfolding scan_line
  scan_line-word raw t name fields sig index e a m p =
      rw (e, starts-filled t a, if◌then◌else◌)
        (line_loop-field (length t) t name fields sig index a m p)
