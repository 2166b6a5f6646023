-- ===== src/Api/Values/Last.antt =====
-- `convertKV` keeps the last value of each key.
use zctl.Base.{
  Bool, false, ◌||◌, ◌++◌, List, [], ◌∷◌, Option, none, some, Text, codes, text_eq, if◌then◌else◌,
  ◌≡◌, refl, ap, ◌∙◌, Bool-cases, inl, inr, ◌==◌, arith,
}
use zctl.Api.Ast.{TokenNode, KvExpr}
use zctl.Api.Values.{property, pair_of, kv_pairs, convert_kv, raw_text, trim_suffix}
use zctl.Api.Values.Quoted.{trim_suffix-append, raw_text-quoted}

-- A value, by how it is written: between quotes, between backquotes, or bare.
pub data Value : Type 0 where
  quoted raw bare : Text → Value

-- What is written for a value.
unfoldable pub written : Value → Text
written (quoted body) = b'"' ∷ (body ++ b'"' ∷ [])
written (raw body) = b'`' ∷ (body ++ b'`' ∷ [])
written (bare text) = text

unfoldable pub contents : Value → Text
contents (quoted body) = body
contents (raw body) = body
contents (bare text) = text

-- A bare value begins with no quote.
unfoldable pub begins_quoted : Value → Bool
begins_quoted (bare (c ∷ cs)) = c == b'"' || c == b'`'
begins_quoted v = false

pub record Entry : Type 0 where
  pub name : Text
  pub colon : Bool
  pub value : Value

-- What is written for the key: the name, with or without a colon.
unfoldable pub written_key : Entry → Text
written_key p = if p.colon then p.name ++ codes ":" else p.name

unfoldable pub ends_in_colon : Text → Bool
ends_in_colon [] = false
ends_in_colon (c ∷ []) = c == b':'
ends_in_colon (c ∷ d ∷ ds) = ends_in_colon (d ∷ ds)

-- The pair has nodes for its key and its value, with what is written for them.
pub record Prints (e : KvExpr) (p : Entry) : Type 0 where
  pub key : TokenNode
  pub value : TokenNode
  pub key_is : e.key ≡ some key
  pub value_is : e.value ≡ some value
  pub key_text : key.tok.text ≡ written_key p
  pub value_text : value.tok.text ≡ written p.value
  pub name_is : ends_in_colon p.name ≡ false
  pub plain : begins_quoted p.value ≡ false

pub data PrintsAll : List KvExpr → List Entry → Type 0 where
  done : PrintsAll [] []
  more :
      {e : KvExpr} {p : Entry} {es : List KvExpr} {ps : List Entry}
      → Prints e p
      → PrintsAll es ps
      → PrintsAll (e ∷ es) (p ∷ ps)

abbrev pub or_else {ℓ} : {A : Type ℓ} → Option A → Option A → Option A
or_else none o = o
or_else (some a) o = some a

-- The contents of the last entry with a name.
unfoldable pub last_value : Text → List Entry → Option Text
last_value key [] = none
last_value key (p ∷ ps) =
    or_else (last_value key ps) (if text_eq key p.name then some (contents p.value) else none)

-- What a map holds at a key; none for a panic in place of the map.
abbrev pub property_in : Text → Option (List (Text × Text)) → Option (Option Text)
property_in key none = none
property_in key (some m) = some (property key m)

raw_text-written : (v : Value) → begins_quoted v ≡ false → raw_text (written v) ≡ contents v
unfolding raw_text written contents begins_quoted
raw_text-written (quoted body) h = raw_text-quoted b'"' body (inl refl)
raw_text-written (raw body) h = raw_text-quoted b'`' body (inr refl)
raw_text-written (bare []) h = refl
raw_text-written (bare (c ∷ cs)) h = ground (arith, h)

trim_suffix-kept : (t : Text) → ends_in_colon t ≡ false → trim_suffix b':' t ≡ t
unfolding ends_in_colon
trim_suffix-kept [] h = refl
trim_suffix-kept (c ∷ []) h = rw (h, if◌then◌else◌) refl
trim_suffix-kept (c ∷ d ∷ ds) h = ap (◌∷◌ c) (trim_suffix-kept (d ∷ ds) h)

trim_suffix-written_key :
    (p : Entry) → ends_in_colon p.name ≡ false → trim_suffix b':' (written_key p) ≡ p.name
unfolding written_key
trim_suffix-written_key p h = elim (Bool-cases p.colon) [
  | inl e ↦ rw (e, if◌then◌else◌) (trim_suffix-append b':' p.name)
  | inr e ↦ rw (e, if◌then◌else◌) (trim_suffix-kept p.name h)
]

pair_of-Prints : (e : KvExpr) (p : Entry) → Prints e p → pair_of e ≡ some (p.name, contents p.value)
pair_of-Prints e p r =
    rw
      (
        r.key_is,
        r.value_is,
        r.key_text,
        r.value_text,
        trim_suffix-written_key p r.name_is,
        raw_text-written p.value r.plain,
      )
      refl

or_else-found :
    (key name value : Text) (o : Option Text) (m : List (Text × Text))
    → or_else o (property key ((name, value) ∷ m))
      ≡ or_else (or_else o (if text_eq key name then some value else none)) (property key m)
unfolding property
or_else-found key name value (some v) m = refl
or_else-found key name value none m = elim (Bool-cases (text_eq key name)) [
  | inl e ↦ rw (e, if◌then◌else◌) refl
  | inr e ↦ rw (e, if◌then◌else◌) refl
]

property-kv_pairs :
    (key : Text) {es : List KvExpr} {ps : List Entry} (m : List (Text × Text))
    → PrintsAll es ps
    → property_in key (kv_pairs es m) ≡ some (or_else (last_value key ps) (property key m))
unfolding kv_pairs last_value
property-kv_pairs key m done = refl
property-kv_pairs key m (more {e} {p} {es} {ps} r rs) =
    rw (pair_of-Prints e p r, kv_pairs)
      (property-kv_pairs key ((p.name, contents p.value) ∷ m) rs
        ∙ ap some (or_else-found key p.name (contents p.value) (last_value key ps) m))

or_else-none : (o : Option Text) → or_else o none ≡ o
or_else-none none = refl
or_else-none (some t) = refl

-- For pairs whose keys are names, with or without a colon behind them, and whose values are written
-- in quotes, in backquotes or bare, `convertKV` does not panic, and its map has at each key what
-- stands in the value of the last pair with that name, its quotes taken off, and nothing where there
-- is none.
pub property-convert_kv :
    (key : Text) (es : List KvExpr) (ps : List Entry)
    → PrintsAll es ps
    → property_in key (convert_kv es) ≡ some (last_value key ps)
unfolding convert_kv property
property-convert_kv key es ps h =
    property-kv_pairs key [] h ∙ ap some (or_else-none (last_value key ps))
