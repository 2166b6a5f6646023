-- ===== src/Util/Name.antt =====
-- util/name/naming.go: the one place where identifiers become file, package and Go names.
pub mod Service
pub mod Split
pub mod FileSnake
use zctl.Base.{
  ℕ, ◌+◌, ◌-◌, Bool, true, false, not, ◌&&◌, ◌||◌, List, [], ◌∷◌, ◌++◌, map, if◌then◌else◌, ◌==◌,
  Text, codes, is_upper, is_lower, is_digit, text_eq, length, zero, suc,
}
use zctl.Util.Casing.{Casing, to_lower, to_upper}
use zctl.Util.Words.{join}
use zctl.Util.Stringx.{flush}

-- `NamingStyle` and its constants.
abbrev pub naming_lower : Text
naming_lower = codes "lower"

abbrev pub naming_camel : Text
naming_camel = codes "camel"

abbrev pub naming_snake : Text
naming_snake = codes "snake"

abbrev or_lower : Text → Text
or_lower [] = naming_lower
or_lower (c ∷ s) = c ∷ s

unfoldable pub is_naming_valid : Text → Text × Bool
is_naming_valid style =
    let style' = or_lower style in
    if text_eq style' naming_lower || text_eq style' naming_camel || text_eq style' naming_snake
    then (style', true)
    else ([], false)

-- `FormatFilename`, over `stringx.From(filename).ToCamel()` and `.ToSnake()`.
unfoldable pub format_filename : Casing → (Text → Text) → (Text → Text) → Text → Text → Text
format_filename u camel snake filename style =
    if text_eq style naming_camel
    then camel filename
    else if text_eq style naming_snake
    then snake filename
    else to_lower u (camel filename)

-- `runes[i+1] >= 'a' && runes[i+1] <= 'z'`, with the bound, on the runes behind `i`.
abbrev pub next_is_lower : Text → Bool
next_is_lower [] = false
next_is_lower (n ∷ rest) = is_lower n

abbrev ends_word : Text → Bool
ends_word [] = true
ends_word (c ∷ rest) = c == b'_' || is_upper c

-- `nextIsS && afterS`
abbrev pub is_plural : Text → Bool
is_plural [] = false
is_plural (n ∷ rest) = n == b's' && ends_word rest

-- Whether `splitIdent` flushes before a capital, behind `prev` and before `rest`.
unfoldable pub word_begins : ℕ → Text → Bool
word_begins prev rest =
    if is_lower prev then true else is_upper prev && next_is_lower rest && not (is_plural rest)

-- `buffer.Len() > 0`
abbrev pub is_nonempty : Text → Bool
is_nonempty [] = false
is_nonempty (c ∷ s) = true

-- The loop of `splitIdent`; `prev` is the rune before the rest, if there is one.
unfoldable pub split_loop : ℕ → List Text → Text → Text → List Text
split_loop prev list buffer [] = flush buffer list
split_loop prev list buffer (r ∷ rest) =
    let cut = is_upper r && is_nonempty buffer && word_begins prev rest in
    let under = r == b'_' in
    split_loop r (if under || cut then flush buffer list else list)
      (if under then [] else (if cut then [] else buffer) ++ r ∷ []) rest

unfoldable pub split_ident : Text → List Text
unfolding split_loop flush word_begins
split_ident content = split_loop 0 [] [] content

-- `FileSnake` on the tokens of `splitIdent`, whose error is always nil.
unfoldable pub file_snake_of : Casing → Text → List Text → Text
unfolding join
file_snake_of u s [] = to_lower u s
file_snake_of u s (t ∷ ts) = join (map (to_lower u) (t ∷ ts)) (b'_' ∷ [])

unfoldable pub file_snake : Casing → Text → Text
unfolding file_snake_of split_ident
file_snake u s = file_snake_of u s (split_ident s)

unfoldable pub rpc_logic_file_name : Casing → Text → Text
rpc_logic_file_name u rpc_name = file_snake u (rpc_name ++ codes "_logic")

unfoldable pub rpc_server_file_name : Casing → Text → Text
rpc_server_file_name u service_name = file_snake u (service_name ++ codes "_server")

unfoldable pub rpc_call_file_name : Casing → Text → Text
rpc_call_file_name u service_name = file_snake u service_name

-- `DirName`, `PkgName` and `EntPkg` have one body.
unfoldable pub dir_name : Casing → Text → Text
dir_name u s = to_lower u s

unfoldable pub pkg_name : Casing → Text → Text
pkg_name u s = to_lower u s

unfoldable pub ent_pkg : Casing → Text → Text
ent_pkg u s = to_lower u s

unfoldable pub proto_pkg : Text → Text
proto_pkg [] = []
proto_pkg (r ∷ s) =
    if is_upper r
    then (r + 32) ∷ proto_pkg s
    else if is_lower r || is_digit r
    then r ∷ proto_pkg s
    else proto_pkg s

-- The runes that part the words of a service name.
abbrev pub is_separator : ℕ → Bool
is_separator r = r == b'-' || r == b'_' || r == b' ' || r == b'.'

-- The first loop of `ServiceGoIdent`.
unfoldable pub words_loop : ℕ → List Text → Text → Text → List Text
unfolding flush
words_loop prev words current [] = flush current words
words_loop prev words current (r ∷ rest) =
    let separates = is_separator r in
    let cut = is_upper r && is_lower prev in
    words_loop r (if separates || cut then flush current words else words)
      (if separates then [] else (if cut then [] else current) ++ r ∷ []) rest

abbrev pub capital : ℕ → ℕ
capital c = if is_lower c then c - 32 else c

abbrev pub small : ℕ → ℕ
small c = if is_upper c then c + 32 else c

-- The second loop: the first rune of a word as a capital, the others as small letters.
unfoldable pub go_word : Text → Text
go_word [] = []
go_word (c ∷ w) = capital c ∷ map small w

unfoldable pub go_words : List Text → Text
unfolding go_word
go_words [] = []
go_words (w ∷ ws) = go_word w ++ go_words ws

unfoldable pub service_go_ident : Text → Text
unfolding words_loop go_words
service_go_ident s = go_words (words_loop 0 [] [] s)

-- The loop of `DashName`.
unfoldable pub dash_runes : ℕ → Text → Text
dash_runes prev [] = []
dash_runes prev (r ∷ rest) =
    (if is_separator r
      then b'-' ∷ []
      else if is_upper r
      then (if is_lower prev then b'-' ∷ (r + 32) ∷ [] else (r + 32) ∷ [])
      else r ∷ [])
    ++ dash_runes r rest

-- `strings.Contains(out, "--")`
unfoldable pub has_double_dash : Text → Bool
has_double_dash [] = false
has_double_dash (c ∷ []) = false
has_double_dash (c ∷ d ∷ s) = (c == b'-' && d == b'-') || has_double_dash (d ∷ s)

-- `strings.ReplaceAll(out, "--", "-")`
unfoldable pub halve_dashes : Text → Text
halve_dashes [] = []
halve_dashes (c ∷ []) = c ∷ []
halve_dashes (c ∷ d ∷ s) =
    let pair = b'-' ∷ halve_dashes s in
    let other = c ∷ halve_dashes (d ∷ s) in if c == b'-' && d == b'-' then pair else other

-- `for strings.Contains(out, "--") { … }`, of at most so many rounds.
unfoldable pub squeeze : ℕ → Text → Text
squeeze zero s = s
squeeze (suc f) s = elim (has_double_dash s) [ true ↦ squeeze f (halve_dashes s) | false ↦ s ]

-- `strings.Trim(out, "-")`: from the left, then from the right.
unfoldable pub trim_left : Text → Text
trim_left [] = []
trim_left (c ∷ s) = let rest = trim_left s in if c == b'-' then rest else c ∷ s

unfoldable pub trim_right : Text → Text
trim_right [] = []
trim_right (c ∷ s) = if c == b'-' && not (is_nonempty (trim_right s)) then [] else c ∷ trim_right s

unfoldable pub dash_name : Text → Text
unfolding dash_runes has_double_dash halve_dashes squeeze trim_left trim_right
dash_name s = let out = dash_runes 0 s in trim_right (trim_left (squeeze (length out) out))

-- `strings.ReplaceAll(_, "-", "_")`
abbrev pub dash_to_under : ℕ → ℕ
dash_to_under c = if c == b'-' then b'_' else c

unfoldable pub env_var_name : Casing → Text → Text
env_var_name u s = to_upper u (map dash_to_under (dash_name s))

-- `LowerCamel` on an ASCII first byte; `s[:1]` of another is cut inside a rune.
unfoldable pub lower_camel : Casing → Text → Text
lower_camel u [] = []
lower_camel u (c ∷ s) = u.lower c ∷ s
