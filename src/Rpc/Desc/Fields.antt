-- ===== src/Rpc/Desc/Fields.antt =====
-- rpc/generator/ent/gen.go: the signatures of message fields, read from the lines of a proto and
-- compared between two definitions of a message.
pub mod Same
pub mod Printed
pub mod Words
pub mod Reading
use zctl.Base.{
  ℕ, ◌+◌, ◌-◌, ◌*◌, ◌%◌, Bool, true, false, not, ◌&&◌, ◌||◌, List, [], ◌∷◌, Option, none, some,
  Text, codes, if◌then◌else◌, ltb, ◌==◌, length, drop, take_while, drop_while, has_prefix, text_eq,
  is_upper, is_lower, is_digit,
}
use zctl.Base.Strings.{is_empty, contains_rune, trim_space}

-- `protoFieldSig`; the tag is a 64-bit word.
pub record FieldSig : Type 0 where
  pub modifier : Text
  pub type_name : Text
  pub name : Text
  pub tag : ℕ

-- The bytes of identifiers.
abbrev pub is_ident_rune : ℕ → Bool
is_ident_rune c = is_lower c || is_upper c || is_digit c || c == b'_'

-- `splitIdent`
abbrev pub split_ident : Text → Text × Text
split_ident s = (take_while is_ident_rune s, drop_while is_ident_rune s)

-- `tag = tag*10 + int(rest[k]-'0')` over the digits, as words.
unfoldable pub tag_loop : ℕ → Text → ℕ
tag_loop tag [] = tag
tag_loop tag (c ∷ s) = tag_loop ((tag * 10 + (c - b'0')) % 18_446_744_073_709_551_616) s

-- The modifier of a field line, and the line behind it.
unfoldable pub take_modifier : Text → Text × Text
take_modifier line =
    if has_prefix line (codes "optional ")
    then (codes "optional", drop 9 line)
    else if has_prefix line (codes "repeated ")
    then (codes "repeated", drop 9 line)
    else if has_prefix line (codes "required ")
    then (codes "required", drop 9 line)
    else ([], line)

unfoldable pub parse_tag : Text → Text → Text → Text → Option FieldSig
parse_tag modifier type_name name rest =
    let digits = take_while is_digit rest in
    if is_empty digits
    then none
    else some (record {
      modifier = modifier;
      type_name = type_name;
      name = name;
      tag = tag_loop 0 digits;
    })

module _ (is_space : ℕ → Bool) where
  -- `!strings.HasPrefix(rest, "=")`, and what follows the sign.
  unfoldable pub parse_assign : Text → Text → Text → Text → Option FieldSig
  parse_assign modifier type_name name [] = none
  parse_assign modifier type_name name (c ∷ rest) =
      if c == b'=' then parse_tag modifier type_name name (trim_space is_space rest) else none

  unfoldable pub parse_name : Text → Text → Text → Option FieldSig
  parse_name modifier type_name rest =
      let ident = split_ident rest in
      if is_empty ident.0
      then none
      else parse_assign modifier type_name ident.0 (trim_space is_space ident.1)

  unfoldable pub parse_type : Text → Text → Option FieldSig
  parse_type modifier line =
      let ident = split_ident line in
      if is_empty ident.0 then none else parse_name modifier ident.0 (trim_space is_space ident.1)

  unfoldable pub parse_trimmed : Text → Option FieldSig
  parse_trimmed line =
      if is_empty line
      then none
      else if not (contains_rune b'=' line) || not (contains_rune b';' line)
      then none
      else let m = take_modifier line in parse_type m.0 (trim_space is_space m.1)

  unfoldable pub parse_proto_field_line : Text → Option FieldSig
  unfolding parse_trimmed
  parse_proto_field_line line = parse_trimmed (trim_space is_space line)

-- The order of words as Go's `int`: the words from 2 ^ 63 on are negative.
unfoldable pub signed_key : FieldSig → ℕ
signed_key f = (f.tag + 9_223_372_036_854_775_808) % 18_446_744_073_709_551_616

-- The field goes before the first one whose tag is not smaller.
unfoldable pub insert_sig : FieldSig → List FieldSig → List FieldSig
insert_sig f [] = f ∷ []
insert_sig f (g ∷ fs) =
    let rest = insert_sig f fs in
    if ltb (signed_key g) (signed_key f) then g ∷ rest else f ∷ (g ∷ fs)

-- `sortFieldSigsByTag`: the one stable order.
unfoldable pub sort_field_sigs_by_tag : List FieldSig → List FieldSig
sort_field_sigs_by_tag [] = []
sort_field_sigs_by_tag (f ∷ fs) = insert_sig f (sort_field_sigs_by_tag fs)

unfoldable pub sig_eq : FieldSig → FieldSig → Bool
sig_eq f g =
    text_eq f.modifier g.modifier
    && text_eq f.type_name g.type_name
    && text_eq f.name g.name
    && f.tag == g.tag

-- The loop of `messageFieldsEqual`, over lists of one length.
unfoldable pub sigs_equal : List FieldSig → List FieldSig → Bool
sigs_equal [] gs = true
sigs_equal (f ∷ fs) [] = false
sigs_equal (f ∷ fs) (g ∷ gs) = sig_eq f g && sigs_equal fs gs

unfoldable pub message_fields_equal : List FieldSig → List FieldSig → Bool
message_fields_equal a b =
    if not (length a == length b)
    then false
    else sigs_equal (sort_field_sigs_by_tag a) (sort_field_sigs_by_tag b)

-- `isBaseProtoMessage`
unfoldable pub is_base_proto_message : Text → Bool
is_base_proto_message name =
    text_eq name (codes "Empty")
    || text_eq name (codes "PageInfo")
    || text_eq name (codes "BaseIDReq")
    || text_eq name (codes "BaseUUIDReq")
