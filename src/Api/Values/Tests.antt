-- ===== src/Api/Values/Tests.antt =====
-- Values of pairs at concrete inputs.
use zctl.Base.{[], ◌∷◌, false, true, Bool, none, some, Text, codes, ◌≡◌, refl, inl, text_eq}
use zctl.Base.Int.{pos, negsuc}
use zctl.Api.Token.{TokenType, Token, string, ident}
use zctl.Api.Ast.{TokenNode, KvExpr}
use zctl.Api.Scanner.{Scanner, scanned, new_scanner, read_rune}
use zctl.Api.Scanner.Runs.{new_scanner-IsValid}
use zctl.Api.Scanner.Behind.{rest}
use zctl.Api.Scanner.Literals.{scan_string}
use zctl.Api.Values.{raw_text, convert_kv}
use zctl.Api.Values.Quoted.{raw_text-scan_string}
use zctl.Api.Values.Last.{
  Value, quoted, raw, bare, written, contents, begins_quoted, Entry, Prints, PrintsAll, last_value,
  written_key, ends_in_colon, property_in, property-convert_kv,
}

abbrev b_scanner : Scanner
b_scanner = record {
  filename = codes "a.api";
  size = 4;
  source = codes "\"b\")";
  position = 0;
  read_position = 1;
  ch = b'"';
  lines = negsuc 0 ∷ [];
}

quoted_new : new_scanner (codes "a.api") (codes "\"b\")") ≡ some b_scanner
unfolding new_scanner read_rune
quoted_new = refl

raw_text-scan_string_example :
    (t : Token) × (u : Scanner) × (scan_string b'"' string b_scanner ≡ scanned t u)
    × (raw_text t.text ≡ codes "b")
    × (rest u ≡ codes ")")
raw_text-scan_string_example =
    raw_text-scan_string b'"' string (codes "b") (codes ")") b_scanner
      (new_scanner-IsValid (codes "a.api") (codes "\"b\")") b_scanner quoted_new) (inl refl)
      (refl, tt) refl

abbrev node : TokenType → Text → TokenNode
node tp t = record {
  head = [];
  tok = record {
    type = tp;
    text = t;
    position = record { filename = codes "a.api"; line = 1; column = pos 1 };
  };
  leading = [];
}

-- `group: "a"`
abbrev pair : Text → Text → KvExpr
pair k v = record { key = some (node ident k); colon = none; value = some (node string v) }

pair-Prints :
    (p : Entry)
    → ends_in_colon p.name ≡ false
    → begins_quoted p.value ≡ false
    → Prints (pair (written_key p) (written p.value)) p
pair-Prints p n h = record {
  key = node ident (written_key p);
  value = node string (written p.value);
  key_is = refl;
  value_is = refl;
  key_text = refl;
  value_text = refl;
  name_is = n;
  plain = h;
}

abbrev entry : Text → Bool → Value → Entry
entry name colon v = record { name = name; colon = colon; value = v }

-- `(group: "a" prefix: b group: `c`)`, one key with its colon
property-convert_kv_example :
    property_in (codes "group") (
      convert_kv (
        pair (codes "group") (codes "\"a\"")
        ∷ pair (codes "prefix") (codes "b")
        ∷ pair (codes "group:") (codes "`c`")
        ∷ []))
    ≡ some (some (codes "c"))
unfolding text_eq written contents begins_quoted last_value written_key ends_in_colon
property-convert_kv_example =
    property-convert_kv (codes "group")
      (pair (codes "group") (codes "\"a\"")
        ∷ pair (codes "prefix") (codes "b")
        ∷ pair (codes "group:") (codes "`c`")
        ∷ [])
      (entry (codes "group") false (quoted (codes "a"))
        ∷ entry (codes "prefix") false (bare (codes "b"))
        ∷ entry (codes "group") true (raw (codes "c"))
        ∷ [])
      (PrintsAll.more (pair-Prints (entry (codes "group") false (quoted (codes "a"))) refl refl) (
        PrintsAll.more (pair-Prints (entry (codes "prefix") false (bare (codes "b"))) refl refl) (
          PrintsAll.more (pair-Prints (entry (codes "group") true (raw (codes "c"))) refl refl)
            PrintsAll.done)))
