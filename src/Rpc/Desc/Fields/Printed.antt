-- ===== src/Rpc/Desc/Fields/Printed.antt =====
-- Field lines that are put together from their parts, and when such a line is a field.
use zctl.Base.{
  ℕ, ◌+◌, ◌-◌, ◌*◌, ◌%◌, Bool, true, false, [], ◌∷◌, ◌++◌, Text, codes, ◌≡◌, refl, ap, ◌∙◌, arith,
  All, has_prefix, text_eq, is_digit,
}
use zctl.Base.Strings.{is_empty}
use zctl.Base.Strings.Trim.{starts}
use zctl.Rpc.Desc.Fields.{FieldSig, is_ident_rune, tag_loop}

pub data Modifier : Type 0 where
  plain : Modifier
  optional : Modifier
  repeated : Modifier
  required : Modifier

abbrev pub modifier_text : Modifier → Text
modifier_text plain = []
modifier_text optional = codes "optional"
modifier_text repeated = codes "repeated"
modifier_text required = codes "required"

abbrev pub modifier_prefix : Modifier → Text
modifier_prefix plain = []
modifier_prefix optional = codes "optional "
modifier_prefix repeated = codes "repeated "
modifier_prefix required = codes "required "

-- `<lead>[optional |repeated |required ]<type><gap><name><left>=<right><digits><options>;<tail>`
pub record FieldLine : Type 0 where
  pub lead : Text
  pub modifier : Modifier
  pub type_name : Text
  pub gap : Text
  pub name : Text
  pub left : Text
  pub right : Text
  pub digits : Text
  pub options : Text
  pub tail : Text

abbrev pub tag_part : FieldLine → Text → Text
tag_part l t = l.digits ++ (l.options ++ b';' ∷ t)

abbrev pub assign_part : FieldLine → Text → Text
assign_part l t = b'=' ∷ (l.right ++ tag_part l t)

abbrev pub name_part : FieldLine → Text → Text
name_part l t = l.name ++ (l.left ++ assign_part l t)

abbrev pub type_part : FieldLine → Text → Text
type_part l t = l.type_name ++ (l.gap ++ name_part l t)

abbrev pub print_field_line : FieldLine → Text
print_field_line l = l.lead ++ (modifier_prefix l.modifier ++ type_part l l.tail)

-- The number that the digits stand for behind another, without a bound.
unfoldable pub decimal : ℕ → Text → ℕ
decimal n [] = n
decimal n (c ∷ s) = decimal (n * 10 + (c - b'0')) s

-- The loop over the digits wraps around at 2 ^ 64, and does nothing else to the number.
pub tag_loop-decimal :
    (n : ℕ) (s : Text)
    → tag_loop (n % 18_446_744_073_709_551_616) s ≡ decimal n s % 18_446_744_073_709_551_616
unfolding tag_loop decimal
tag_loop-decimal n [] = refl
tag_loop-decimal n (c ∷ s) =
    ap (λ k. tag_loop k s) (omega arith) ∙ tag_loop-decimal (n * 10 + (c - b'0')) s

abbrev pub IsWord : Text → Type 0
IsWord w = (is_empty w ≡ false) × All (λ c. is_ident_rune c ≡ true) w

-- What tells an identifier from a keyword with a blank behind it.
pub has_prefix-keyword :
    (a k : Text) (g : ℕ) (s : Text)
    → All (λ c. is_ident_rune c ≡ true) a
    → All (λ c. is_ident_rune c ≡ true) k
    → is_ident_rune g ≡ false
    → text_eq a k ≡ false
    → has_prefix (a ++ g ∷ s) (k ++ b' ' ∷ []) ≡ false
unfolding text_eq
has_prefix-keyword [] [] g s ha hk hg n = cc
has_prefix-keyword [] (x ∷ k) g s ha hk hg n = ground (arith, hg, hk.0)
has_prefix-keyword (c ∷ a) [] g s ha hk hg n = ground (arith, ha.0)
has_prefix-keyword (c ∷ a) (x ∷ k) g s ha hk hg n =
    ground (arith, n, has_prefix-keyword a k g s ha.1 hk.1 hg)

pub is_empty-append : (a s : Text) → is_empty s ≡ false → is_empty (a ++ s) ≡ false
is_empty-append [] s h = h
is_empty-append (c ∷ a) s h = refl

pub digits-All : (s : Text) → All (λ c. is_digit c ≡ true) s → All (λ c. is_ident_rune c ≡ true) s
digits-All [] h = tt
digits-All (c ∷ s) h = (ground (arith, h.0), digits-All s h.1)

module _ (is_space : ℕ → Bool) where
  -- What a line needs to be one field: spaces where it has gaps, words that are identifiers, digits
  -- that end before the options, and a type that is not read as a modifier.
  pub record IsField (l : FieldLine) : Type 0 where
    pub lead_space : All (λ c. is_space c ≡ true) l.lead
    pub gap_space : All (λ c. is_space c ≡ true) l.gap
    pub gap_filled : is_empty l.gap ≡ false
    pub left_space : All (λ c. is_space c ≡ true) l.left
    pub right_space : All (λ c. is_space c ≡ true) l.right
    pub type_word : IsWord l.type_name
    pub name_word : IsWord l.name
    pub digits_filled : is_empty l.digits ≡ false
    pub digits_digits : All (λ c. is_digit c ≡ true) l.digits
    pub options_start : starts is_digit l.options ≡ false
    pub not_optional : text_eq l.type_name (codes "optional") ≡ false
    pub not_repeated : text_eq l.type_name (codes "repeated") ≡ false
    pub not_required : text_eq l.type_name (codes "required") ≡ false

-- The field that the line stands for.
abbrev pub field_of : FieldLine → FieldSig
field_of l = record {
  modifier = modifier_text l.modifier;
  type_name = l.type_name;
  name = l.name;
  tag = decimal 0 l.digits % 18_446_744_073_709_551_616;
}
