-- ===== src/Rpc/Desc/Fields/Reading.antt =====
-- What parseProtoFieldLine reads of a field line that is put together from its parts.
use zctl.Base.{
  ℕ, Bool, true, false, not, ◌||◌, [], ◌∷◌, ◌++◌, some, Text, codes, ◌≡◌, refl, ap, ◌∙◌, arith, All,
  has_prefix, text_eq, is_digit, if◌then◌else◌,
}
use zctl.Base.Strings.{is_empty, contains_rune, trim_right}
use zctl.Base.Strings.Trim.{
  starts, take_while-append, drop_while-append, contains_rune-append, trim_right-solid,
}
use zctl.Rpc.Desc.Fields.{
  is_ident_rune, take_modifier, parse_tag, parse_assign, parse_name, parse_type, parse_trimmed,
  parse_proto_field_line,
}
use zctl.Rpc.Desc.Fields.Printed.{
  plain, optional, repeated, required, modifier_text, modifier_prefix, FieldLine, tag_part,
  assign_part, name_part, type_part, print_field_line, tag_loop-decimal, has_prefix-keyword,
  is_empty-append, digits-All, IsField, field_of,
}
use zctl.Rpc.Desc.Fields.Words.{
  Trims, Trims-append, trim_space-part, starts-word, starts_ident, starts-spaces,
}

module _ (is_space : ℕ → Bool) (solid : (c : ℕ) → is_ident_rune c ≡ true → is_space c ≡ false)
    (solid_assign : is_space b'=' ≡ false) (solid_end : is_space b';' ≡ false) where
  tag_part-Trims :
      (l : FieldLine) (t : Text)
      → Trims is_space (tag_part l t) (tag_part l (trim_right is_space t))
  tag_part-Trims l t =
      Trims-append is_space l.digits _ _
        (Trims-append is_space l.options _ _ (trim_right-solid is_space b';' t solid_end, refl))

  name_part-Trims :
      (l : FieldLine) (t : Text)
      → Trims is_space (name_part l t) (name_part l (trim_right is_space t))
  name_part-Trims l t = Trims-append is_space l.name _ _ (
      Trims-append is_space l.left _ _
        (Trims-append is_space (b'=' ∷ l.right) _ _ (tag_part-Trims l t)))

  module _ (l : FieldLine) (f : IsField is_space l) where
    options-start : (t : Text) → starts is_digit (l.options ++ b';' ∷ t) ≡ false
    options-start t =
        elim l.options
            as (λ o. starts is_digit o ≡ false → starts is_digit (o ++ b';' ∷ t) ≡ false) [
              | [] ↦ λ h. refl
              | c ∷ o ↦ λ h. h
            ]
          f.options_start

    parse_tag-part :
        (t : Text)
        → parse_tag (modifier_text l.modifier) l.type_name l.name (tag_part l t) ≡ some (field_of l)
    unfolding parse_tag
    parse_tag-part t =
        rw
          (
            take_while-append is_digit l.digits (l.options ++ b';' ∷ t) f.digits_digits
                (options-start t),
            f.digits_filled,
            if◌then◌else◌,
          )
          (ap
            (λ n. some (record {
              modifier = modifier_text l.modifier;
              type_name = l.type_name;
              name = l.name;
              tag = n;
            }))
            (tag_loop-decimal 0 l.digits))

    parse_assign-part :
        (t : Text)
        → parse_assign is_space (modifier_text l.modifier) l.type_name l.name (assign_part l t)
          ≡ some (field_of l)
    unfolding parse_assign
    parse_assign-part t =
        ap (parse_tag (modifier_text l.modifier) l.type_name l.name) (
          trim_space-part is_space l.right (tag_part l t) _ f.right_space
            (starts-word is_space solid l.digits _ f.digits_filled
              (digits-All l.digits f.digits_digits))
            (tag_part-Trims l t))
        ∙ parse_tag-part (trim_right is_space t)

    parse_name-part :
        (t : Text)
        → parse_name is_space (modifier_text l.modifier) l.type_name (name_part l t)
          ≡ some (field_of l)
    unfolding parse_name
    parse_name-part t =
        let s = starts-spaces is_space solid l.left (assign_part l t) f.left_space refl in
        rw
          (
            take_while-append is_ident_rune l.name (l.left ++ assign_part l t) f.name_word.1 s,
            drop_while-append is_ident_rune l.name (l.left ++ assign_part l t) f.name_word.1 s,
            f.name_word.0,
            if◌then◌else◌,
          )
          (ap (parse_assign is_space (modifier_text l.modifier) l.type_name l.name) (
              trim_space-part is_space l.left (assign_part l t) _ f.left_space solid_assign
                (Trims-append is_space (b'=' ∷ l.right) _ _ (tag_part-Trims l t)))
            ∙ parse_assign-part (trim_right is_space t))

    gap-start : (s : Text) → starts is_ident_rune (l.gap ++ s) ≡ false
    gap-start s =
        elim l.gap
            as (λ g.
              is_empty g ≡ false
              → All (λ c. is_space c ≡ true) g
              → starts is_ident_rune (g ++ s) ≡ false) [
                | [] ↦ λ e h. cc
                | c ∷ g ↦ λ e h. ground (arith, solid c, h.0)
              ]
          f.gap_filled f.gap_space

    parse_type-part :
        (t : Text)
        → parse_type is_space (modifier_text l.modifier) (type_part l t) ≡ some (field_of l)
    unfolding parse_type
    parse_type-part t =
        let s = gap-start (name_part l t) in
        rw
          (
            take_while-append is_ident_rune l.type_name (l.gap ++ name_part l t) f.type_word.1 s,
            drop_while-append is_ident_rune l.type_name (l.gap ++ name_part l t) f.type_word.1 s,
            f.type_word.0,
            if◌then◌else◌,
          )
          (ap (parse_name is_space (modifier_text l.modifier) l.type_name) (
              trim_space-part is_space l.gap (name_part l t) _ f.gap_space
                (starts-word is_space solid l.name _ f.name_word.0 f.name_word.1)
                (name_part-Trims l t))
            ∙ parse_name-part (trim_right is_space t))

    gap-keyword :
        (k s : Text)
        → All (λ c. is_ident_rune c ≡ true) k
        → text_eq l.type_name k ≡ false
        → has_prefix (l.type_name ++ (l.gap ++ s)) (k ++ b' ' ∷ []) ≡ false
    gap-keyword k s hk n =
        elim l.gap
            as (λ g.
              is_empty g ≡ false
              → All (λ c. is_space c ≡ true) g
              → has_prefix (l.type_name ++ (g ++ s)) (k ++ b' ' ∷ []) ≡ false) [
                | [] ↦ λ e h. cc
                | c ∷ g ↦ λ e h.
                    has_prefix-keyword l.type_name k c (g ++ s) f.type_word.1 hk
                      (ground (arith, solid c, h.0)) n
              ]
          f.gap_filled f.gap_space

    -- Such a line begins with a word, and not with the keyword of a message.
    pub starts-part :
        (t : Text) → starts is_ident_rune (modifier_prefix l.modifier ++ type_part l t) ≡ true
    starts-part t =
        elim l.modifier as (λ m. starts is_ident_rune (modifier_prefix m ++ type_part l t) ≡ true) [
          | plain ↦ starts_ident l.type_name _ f.type_word.0 f.type_word.1
          | optional ↦ refl
          | repeated ↦ refl
          | required ↦ refl
        ]

    pub has_prefix-message :
        (t : Text)
        → text_eq l.type_name (codes "message") ≡ false
        → has_prefix (modifier_prefix l.modifier ++ type_part l t) (codes "message ") ≡ false
    has_prefix-message t n =
        elim l.modifier
          as (λ m. has_prefix (modifier_prefix m ++ type_part l t) (codes "message ") ≡ false) [
            | plain ↦ gap-keyword (codes "message") (name_part l t) (ground arith) n
            | optional ↦ refl
            | repeated ↦ refl
            | required ↦ refl
          ]

    take_modifier-part :
        (t : Text)
        → take_modifier (modifier_prefix l.modifier ++ type_part l t)
          ≡ (modifier_text l.modifier, type_part l t)
    unfolding take_modifier
    take_modifier-part t =
        elim l.modifier
          as (λ m.
            take_modifier (modifier_prefix m ++ type_part l t) ≡ (modifier_text m, type_part l t)) [
              | plain ↦
                  let o : has_prefix (type_part l t) (codes "optional ") ≡ false =
                    gap-keyword (codes "optional") (name_part l t) (ground arith) f.not_optional in
                  let r : has_prefix (type_part l t) (codes "repeated ") ≡ false =
                    gap-keyword (codes "repeated") (name_part l t) (ground arith) f.not_repeated in
                  let q : has_prefix (type_part l t) (codes "required ") ≡ false =
                    gap-keyword (codes "required") (name_part l t) (ground arith) f.not_required in
                  rw (o, r, q, if◌then◌else◌) refl
              | optional ↦ refl
              | repeated ↦ refl
              | required ↦ refl
            ]

    modifier-starts :
        (s : Text) → starts is_space (modifier_prefix l.modifier ++ (l.type_name ++ s)) ≡ false
    modifier-starts s =
        elim l.modifier
          as (λ m. starts is_space (modifier_prefix m ++ (l.type_name ++ s)) ≡ false) [
            | plain ↦ starts-word is_space solid l.type_name s f.type_word.0 f.type_word.1
            | optional ↦ solid b'o' refl
            | repeated ↦ solid b'r' refl
            | required ↦ solid b'r' refl
          ]

    assign_part-within :
        (P : Text → Type 0)
        → ((a s : Text) → P s → P (a ++ s))
        → (t : Text) → P (assign_part l t)
        → P (modifier_prefix l.modifier ++ type_part l t)
    assign_part-within P k t h =
        k (modifier_prefix l.modifier) _ (k l.type_name _ (k l.gap _ (k l.name _ (k l.left _ h))))

    parse_trimmed-part :
        (t : Text)
        → parse_trimmed is_space (modifier_prefix l.modifier ++ type_part l t) ≡ some (field_of l)
    unfolding parse_trimmed
    parse_trimmed-part t =
        rw
          (
            assign_part-within (λ s. is_empty s ≡ false) is_empty-append t refl,
            assign_part-within (λ s. contains_rune b'=' s ≡ true) (contains_rune-append b'=') t
                refl,
            assign_part-within (λ s. contains_rune b';' s ≡ true) (contains_rune-append b';') t
                (contains_rune-append b';' (b'=' ∷ l.right) _ (
                  contains_rune-append b';' l.digits _
                    (contains_rune-append b';' l.options (b';' ∷ t) refl))),
            take_modifier-part t,
            not,
            ◌||◌,
            if◌then◌else◌,
          )
          (ap (parse_type is_space (modifier_text l.modifier)) (
              trim_space-part is_space [] (type_part l t) _ tt
                (starts-word is_space solid l.type_name _ f.type_word.0 f.type_word.1)
                (Trims-append is_space l.type_name _ _
                  (Trims-append is_space l.gap _ _ (name_part-Trims l t))))
            ∙ parse_type-part (trim_right is_space t))

  -- Where the runes of identifiers, `=` and `;` are no white space, parseProtoFieldLine reads a
  -- field line as the field that it was put together from; the tag is the number of the digits, up
  -- to multiples of 2 ^ 64.
  pub parse_proto_field_line-print :
      (l : FieldLine)
      → IsField is_space l
      → parse_proto_field_line is_space (print_field_line l) ≡ some (field_of l)
  unfolding parse_proto_field_line
  parse_proto_field_line-print l f =
      ap (parse_trimmed is_space) (
        trim_space-part is_space l.lead (modifier_prefix l.modifier ++ type_part l l.tail) _
          f.lead_space (modifier-starts l f _)
          (Trims-append is_space (modifier_prefix l.modifier) _ _ (
            Trims-append is_space l.type_name _ _
              (Trims-append is_space l.gap _ _ (name_part-Trims l l.tail)))))
      ∙ parse_trimmed-part l f (trim_right is_space l.tail)
