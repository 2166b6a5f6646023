-- ===== src/Rpc/Desc/Scan/Reads.antt =====
-- The scan reads a proto that has the grammar as the index that the grammar gives.
use zctl.Base.{
  ℕ, Bool, true, false, List, [], ◌∷◌, ◌++◌, Text, codes, text_eq, ◌≡◌, refl, sym, ap, append-nil,
  append_assoc, ◌∙◌, has_prefix,
}
use zctl.Base.Strings.{split_lines}
use zctl.Base.Strings.Trim.{starts, trim_right-solid}
use zctl.Rpc.Desc.Comments.{strip_block_comments}
use zctl.Rpc.Desc.Fields.{FieldSig, is_ident_rune}
use zctl.Rpc.Desc.Fields.Printed.{
  FieldLine, print_field_line, IsField, field_of, IsWord, modifier_prefix, type_part,
}
use zctl.Rpc.Desc.Fields.Words.{Trims-append}
use zctl.Rpc.Desc.Fields.Reading.{starts-part, has_prefix-message, parse_proto_field_line-print}
use zctl.Rpc.Desc.Scan.{
  Index, scanned, find, is_some, add_service, add_message, record_rpc, scan_line, and_then,
  scan_lines, parse_proto_file,
}
use zctl.Rpc.Desc.Scan.Kept.{add_service-find, add_rpc-Kept}
use zctl.Rpc.Desc.Scan.Blocks.{
  trimmed, outside, inside, named_rpc, record_rpc-named, scan_line-rpc, scan_line-close,
  scan_line-silent,
}
use zctl.Rpc.Desc.Scan.Grammar.{Body, Rpcs, Protos}
use zctl.Rpc.Desc.Scan.Lines.{
  within_message, name-part, scan_line-message, scan_line-blank, scan_line-end, scan_line-service,
  scan_line-word,
}

module _ (is_space : ℕ → Bool) (solid : (c : ℕ) → is_ident_rune c ≡ true → is_space c ≡ false)
    (solid_open : is_space b'{' ≡ false) (solid_assign : is_space b'=' ≡ false)
    (solid_end : is_space b';' ≡ false) (rel_path : Text) where
  scan_line-field :
      (raw : Text) (l : FieldLine) (name : Text) (fields : List FieldSig) (index : Index)
      → trimmed is_space raw ≡ print_field_line l
      → l.lead ≡ []
      → IsField is_space l
      → text_eq l.type_name (codes "message") ≡ false
      → scan_line is_space rel_path raw (within_message name fields index)
        ≡ scanned (within_message name (fields ++ field_of l ∷ []) index)
  scan_line-field raw l name fields index e d f n =
      let t = print_field_line l in
      scan_line-word is_space solid solid_open rel_path raw t name fields (field_of l) index e
        (ap (λ a. starts is_ident_rune (a ++ (modifier_prefix l.modifier ++ type_part l l.tail))) d
          ∙ starts-part is_space solid solid_assign solid_end l f l.tail)
        (ap
            (λ a.
              has_prefix (a ++ (modifier_prefix l.modifier ++ type_part l l.tail))
                (codes "message "))
            d
          ∙ has_prefix-message is_space solid solid_assign solid_end l f l.tail n)
        (parse_proto_field_line-print is_space solid solid_assign solid_end l f)

  scan_lines-Body :
      {ls rest : List Text} {fields : List FieldSig} (name : Text) (acc : List FieldSig)
      (index : Index)
      → Body is_space rel_path ls rest fields
      → scan_lines is_space rel_path ls (within_message name acc index)
        ≡ scan_lines is_space rel_path rest
            (outside (add_message rel_path name (acc ++ fields) index))
  unfolding scan_lines
  scan_lines-Body {rest = rest} name acc index (Body.close {raw = raw} e) =
      rw (scan_line-end is_space solid solid_open rel_path raw name acc index e, and_then)
        (ap (λ fs. scan_lines is_space rel_path rest (outside (add_message rel_path name fs index)))
          (sym (append-nil acc)))
  scan_lines-Body name acc index (Body.blank {raw = raw} e b) =
      rw (scan_line-blank is_space solid solid_open rel_path raw _ e, and_then)
        (scan_lines-Body name acc index b)
  scan_lines-Body {rest = rest} name acc index
        (Body.field {raw = raw} {fields = fields} l e d f n b) =
      rw (scan_line-field raw l name acc index e d f n, and_then)
        (scan_lines-Body name (acc ++ field_of l ∷ []) index b
          ∙ ap
              (λ fs.
                scan_lines is_space rel_path rest (outside (add_message rel_path name fs index)))
              (append_assoc acc (field_of l ∷ []) fields))

  named_rpc-known :
      (current m : Text) (index : Index)
      → is_some (find current index.rpcs) ≡ true
      → is_some (find current (named_rpc current m index).rpcs) ≡ true
  named_rpc-known current [] index h = h
  named_rpc-known current (x ∷ m) index h = (add_rpc-Kept current (x ∷ m) index).services current h

  scan_line-named :
      (raw m s : Text) (c : ℕ) (cs : Text) (index : Index)
      → trimmed is_space raw ≡ codes "rpc " ++ (m ++ (s ++ b';' ∷ []))
      → IsWord m
      → starts is_ident_rune (s ++ b';' ∷ []) ≡ false
      → is_some (find (c ∷ cs) index.rpcs) ≡ true
      → scan_line is_space rel_path raw (inside (c ∷ cs) c cs index)
        ≡ scanned (inside (c ∷ cs) c cs (named_rpc (c ∷ cs) m index))
  scan_line-named raw m s c cs index e k n h =
      let end = trim_right-solid is_space b';' [] solid_end in
      scan_line-rpc is_space rel_path (c ∷ cs) (m ++ (s ++ b';' ∷ [])) raw c cs index e
      ∙ ap (λ w. record_rpc w (inside (c ∷ cs) c cs index))
          (name-part is_space solid m (s ++ b';' ∷ []) (s ++ b';' ∷ []) k n
            (Trims-append is_space s (b';' ∷ []) (b';' ∷ []) (end, refl)))
      ∙ record_rpc-named is_space rel_path (c ∷ cs) m c cs index h

  scan_lines-Rpcs :
      (c : ℕ) (cs : Text) {ls rest : List Text} {i j : Index}
      → Rpcs is_space rel_path (c ∷ cs) ls rest i j
      → is_some (find (c ∷ cs) i.rpcs) ≡ true
      → scan_lines is_space rel_path ls (inside (c ∷ cs) c cs i)
        ≡ scan_lines is_space rel_path rest (outside j)
  unfolding scan_lines
  scan_lines-Rpcs c cs (Rpcs.close {raw = raw} {i = i} e) h =
      rw (scan_line-close is_space rel_path (c ∷ cs) raw c cs i e, and_then) refl
  scan_lines-Rpcs c cs (Rpcs.blank {raw = raw} e b) h =
      rw (scan_line-blank is_space solid solid_open rel_path raw _ e, and_then)
        (scan_lines-Rpcs c cs b h)
  scan_lines-Rpcs c cs (Rpcs.rpc {raw = raw} {i = i} m s e k n b) h =
      rw (scan_line-named raw m s c cs i e k n h, and_then)
        (scan_lines-Rpcs c cs b (named_rpc-known (c ∷ cs) m i h))

  scan_lines-service :
      {ls rest : List Text} {k : Index} (raw name : Text) (i : Index)
      → trimmed is_space raw ≡ codes "service " ++ (name ++ codes " {")
      → IsWord name
      → Rpcs is_space rel_path name ls rest (record i { rpcs = add_service name i.rpcs }) k
      → scan_lines is_space rel_path (raw ∷ ls) (outside i)
        ≡ scan_lines is_space rel_path rest (outside k)
  unfolding scan_lines
  scan_lines-service raw [] i e w b = cc
  scan_lines-service raw (c ∷ cs) i e w b =
      rw (scan_line-service is_space solid solid_open rel_path raw (c ∷ cs) i e w, and_then)
        (scan_lines-Rpcs c cs b (add_service-find (c ∷ cs) i.rpcs))

  scan_lines-Protos :
      {ls : List Text} {i j : Index}
      → Protos is_space rel_path ls i j
      → scan_lines is_space rel_path ls (outside i) ≡ scanned (outside j)
  unfolding scan_lines
  scan_lines-Protos Protos.done = refl
  scan_lines-Protos (Protos.silent {raw = raw} {i = i} h p) =
      rw (scan_line-silent is_space rel_path raw i h, and_then) (scan_lines-Protos p)
  scan_lines-Protos (Protos.message {raw = raw} {i = i} name fields e w b p) =
      rw (scan_line-message is_space solid solid_open rel_path raw name i e w, and_then)
        (scan_lines-Body name [] i b ∙ scan_lines-Protos p)
  scan_lines-Protos (Protos.service {raw = raw} {i = i} name e w b p) =
      scan_lines-service raw name i e w b ∙ scan_lines-Protos p

  -- Where the runes of identifiers and the signs `{`, `=` and `;` are no white space, and the lines
  -- of a text without its block comments have the grammar of protos, parseProtoFile ends with the
  -- index that the grammar gives.
  pub parse_proto_file-Protos :
      (text : Text) (i j : Index)
      → Protos is_space rel_path (split_lines (strip_block_comments text)) i j
      → parse_proto_file is_space rel_path text i ≡ scanned (outside j)
  unfolding parse_proto_file
  parse_proto_file-Protos text i j p = scan_lines-Protos p
