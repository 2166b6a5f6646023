-- ===== src/Api/Token.antt =====
-- pkg/parser/api/token: token types in the order of their iota, positions, tokens and the tables.
-- A golang keyword type carries the suffix `_kw`, since `if`, `else` and `package` are taken here.
pub mod Keywords
use zctl.Base.{
  ℕ, Bool, ◌&&◌, Option, none, some, List, [], ◌∷◌, map, Text, codes, ltb, text_eq, text_mem,
  if◌then◌else◌,
}
use zctl.Base.Int.{ℤ, pos}

pub data TokenType : Type 0 where
  token_bg error illegal eof comment document literal_beg ident : TokenType
  int duration string raw_string path literal_end operator_beg sub : TokenType
  mul quo assign lparen lbrack lbrace comma dot : TokenType
  rparen rbrace rbrack semicolon colon ellipsis operator_end golang_keyword_beg : TokenType
  break_kw case_kw chan_kw const_kw continue_kw default_kw defer_kw else_kw : TokenType
  fallthrough_kw for_kw func_kw go_kw goto_kw if_kw import_kw interface_kw : TokenType
  map_kw package_kw range_kw return_kw select_kw struct_kw switch_kw type_kw : TokenType
  var_kw golang_keyword_end api_keyword_bg at_doc at_handler at_server any api_keyword_end :
      TokenType
  token_end : TokenType

-- The value that iota gives the constant.
unfoldable pub ordinal : TokenType → ℕ
ordinal token_bg = 0
ordinal error = 1
ordinal illegal = 2
ordinal eof = 3
ordinal comment = 4
ordinal document = 5
ordinal literal_beg = 6
ordinal ident = 7
ordinal int = 8
ordinal duration = 9
ordinal string = 10
ordinal raw_string = 11
ordinal path = 12
ordinal literal_end = 13
ordinal operator_beg = 14
ordinal sub = 15
ordinal mul = 16
ordinal quo = 17
ordinal assign = 18
ordinal lparen = 19
ordinal lbrack = 20
ordinal lbrace = 21
ordinal comma = 22
ordinal dot = 23
ordinal rparen = 24
ordinal rbrace = 25
ordinal rbrack = 26
ordinal semicolon = 27
ordinal colon = 28
ordinal ellipsis = 29
ordinal operator_end = 30
ordinal golang_keyword_beg = 31
ordinal break_kw = 32
ordinal case_kw = 33
ordinal chan_kw = 34
ordinal const_kw = 35
ordinal continue_kw = 36
ordinal default_kw = 37
ordinal defer_kw = 38
ordinal else_kw = 39
ordinal fallthrough_kw = 40
ordinal for_kw = 41
ordinal func_kw = 42
ordinal go_kw = 43
ordinal goto_kw = 44
ordinal if_kw = 45
ordinal import_kw = 46
ordinal interface_kw = 47
ordinal map_kw = 48
ordinal package_kw = 49
ordinal range_kw = 50
ordinal return_kw = 51
ordinal select_kw = 52
ordinal struct_kw = 53
ordinal switch_kw = 54
ordinal type_kw = 55
ordinal var_kw = 56
ordinal golang_keyword_end = 57
ordinal api_keyword_bg = 58
ordinal at_doc = 59
ordinal at_handler = 60
ordinal at_server = 61
ordinal any = 62
ordinal api_keyword_end = 63
ordinal token_end = 64

-- `Type.String`: the table `tokens`, in which a type without an entry has the empty text.
unfoldable pub type_string : TokenType → Text
type_string token_bg = []
type_string error = []
type_string illegal = codes "ILLEGAL"
type_string eof = codes "EOF"
type_string comment = codes "COMMENT"
type_string document = codes "DOCUMENT"
type_string literal_beg = []
type_string ident = codes "IDENT"
type_string int = codes "INT"
type_string duration = codes "DURATION"
type_string string = codes "STRING"
type_string raw_string = codes "RAW_STRING"
type_string path = codes "PATH"
type_string literal_end = []
type_string operator_beg = []
type_string sub = codes "-"
type_string mul = codes "*"
type_string quo = codes "/"
type_string assign = codes "="
type_string lparen = codes "("
type_string lbrack = codes "["
type_string lbrace = codes "{"
type_string comma = codes ","
type_string dot = codes "."
type_string rparen = codes ")"
type_string rbrace = codes "}"
type_string rbrack = codes "]"
type_string semicolon = codes ";"
type_string colon = codes ":"
type_string ellipsis = codes "..."
type_string operator_end = []
type_string golang_keyword_beg = []
type_string break_kw = codes "break"
type_string case_kw = codes "case"
type_string chan_kw = codes "chan"
type_string const_kw = codes "const"
type_string continue_kw = codes "continue"
type_string default_kw = codes "default"
type_string defer_kw = codes "defer"
type_string else_kw = codes "else"
type_string fallthrough_kw = codes "fallthrough"
type_string for_kw = codes "for"
type_string func_kw = codes "func"
type_string go_kw = codes "go"
type_string goto_kw = codes "goto"
type_string if_kw = codes "if"
type_string import_kw = codes "import"
type_string interface_kw = codes "interface"
type_string map_kw = codes "map"
type_string package_kw = codes "package"
type_string range_kw = codes "range"
type_string return_kw = codes "return"
type_string select_kw = codes "select"
type_string struct_kw = codes "struct"
type_string switch_kw = codes "switch"
type_string type_kw = codes "type"
type_string var_kw = codes "var"
type_string golang_keyword_end = []
type_string api_keyword_bg = []
type_string at_doc = codes "@doc"
type_string at_handler = codes "@handler"
type_string at_server = codes "@server"
type_string any = codes "interface{}"
type_string api_keyword_end = []
type_string token_end = []

pub record Position : Type 0 where
  pub filename : Text
  pub line : ℕ
  pub column : ℤ

pub record Token : Type 0 where
  pub type : TokenType
  pub text : Text
  pub position : Position

abbrev zero_position : Position
zero_position = record { filename = []; line = 0; column = pos 0 }

-- `EofToken`; its text and position are the zero values.
abbrev pub eof_token : Token
eof_token = record { type = eof; text = []; position = zero_position }

abbrev pub error_token : Token
error_token = record { type = error; text = []; position = zero_position }

-- A token of a type, with nothing else set.
abbrev pub of_type : TokenType → Token
of_type tp = record { type = tp; text = []; position = zero_position }

pub fork : Token → TokenType → Token
fork t tp = record { type = tp; text = t.text; position = t.position }

-- `NewIllegalToken`
abbrev pub new_illegal_token : ℕ → Position → Token
new_illegal_token b p = record { type = illegal; text = b ∷ []; position = p }

abbrev pub Table : Type 0
Table = List (Text × TokenType)

-- The map `keywords`.
abbrev pub keywords : Table
keywords =
    (codes "break", break_kw)
    ∷ (codes "case", case_kw)
    ∷ (codes "chan", chan_kw)
    ∷ (codes "const", const_kw)
    ∷ (codes "continue", continue_kw)
    ∷ (codes "default", default_kw)
    ∷ (codes "defer", defer_kw)
    ∷ (codes "else", else_kw)
    ∷ (codes "fallthrough", fallthrough_kw)
    ∷ (codes "for", for_kw)
    ∷ (codes "func", func_kw)
    ∷ (codes "go", go_kw)
    ∷ (codes "goto", goto_kw)
    ∷ (codes "if", if_kw)
    ∷ (codes "import", import_kw)
    ∷ (codes "interface", interface_kw)
    ∷ (codes "map", map_kw)
    ∷ (codes "package", package_kw)
    ∷ (codes "range", range_kw)
    ∷ (codes "return", return_kw)
    ∷ (codes "select", select_kw)
    ∷ (codes "struct", struct_kw)
    ∷ (codes "switch", switch_kw)
    ∷ (codes "type", type_kw)
    ∷ (codes "var", var_kw)
    ∷ []

unfoldable pub lookup : Text → Table → Option TokenType
unfolding text_eq
lookup s [] = none
lookup s ((k, tp) ∷ rest) = if text_eq s k then some tp else lookup s rest

unfoldable pub lookup_keyword : Text → Option TokenType
unfolding lookup
lookup_keyword s = lookup s keywords

-- `Token.IsKeyword`
unfoldable pub is_keyword : Token → Bool
unfolding ordinal
is_keyword t =
    ltb (ordinal golang_keyword_beg) (ordinal t.type)
    && ltb (ordinal t.type) (ordinal golang_keyword_end)

abbrev base_data_type : List Text
base_data_type = map codes (
    "bool" ∷ "uint8" ∷ "uint16" ∷ "uint32" ∷ "uint64" ∷ "int8" ∷ "int16" ∷ "int32" ∷ "int64"
    ∷ "float32" ∷ "float64" ∷ "complex64" ∷ "complex128" ∷ "string" ∷ "int" ∷ "uint" ∷ "uintptr"
    ∷ "byte" ∷ "rune" ∷ "any" ∷ [])

abbrev http_method : List Text
http_method =
    map codes
      ("get" ∷ "head" ∷ "post" ∷ "put" ∷ "patch" ∷ "delete" ∷ "connect" ∷ "options" ∷ "trace" ∷ [])

-- `Token.IsBaseType`
unfoldable pub is_base_type : Token → Bool
unfolding text_mem
is_base_type t = text_mem t.text base_data_type

-- `Token.IsHttpMethod`
unfoldable pub is_http_method : Token → Bool
unfolding text_mem
is_http_method t = text_mem t.text http_method

-- `Token.Is`
unfoldable pub is_one_of : Token → List Text → Bool
unfolding text_mem
is_one_of t texts = text_mem t.text texts
