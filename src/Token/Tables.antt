-- ===== src/Token/Tables.antt =====
-- The tables of pkg/parser/api/token/token.go, and the lookups in them.
use goctl.Base.{
  Bool, ◌&&◌, ◌||◌, List, [], ◌∷◌, Option, none, some, Text, codes, ltb, leb, get_or, text_eq,
  if◌then◌else◌,
}
use goctl.Token.Kind.{
  TokenType, token_bg, token_end, break_kw, case_kw, chan_kw, const_kw, continue_kw, default_kw,
  defer_kw, else_kw, fallthrough_kw, for_kw, func_kw, go_kw, goto_kw, if_kw, import_kw,
  interface_kw, map_kw, package_kw, range_kw, return_kw, select_kw, struct_kw, switch_kw, type_kw,
  var_kw,
}

-- `tokens`: one text for each type, empty where the array literal names none.
abbrev pub tokens : List Text
tokens =
    codes ""
    ∷ codes ""
    ∷ codes "ILLEGAL"
    ∷ codes "EOF"
    ∷ codes "COMMENT"
    ∷ codes "DOCUMENT"
    ∷ codes ""
    ∷ codes "IDENT"
    ∷ codes "INT"
    ∷ codes "DURATION"
    ∷ codes "STRING"
    ∷ codes "RAW_STRING"
    ∷ codes "PATH"
    ∷ codes "KEY"
    ∷ codes ""
    ∷ codes ""
    ∷ codes "-"
    ∷ codes "*"
    ∷ codes "/"
    ∷ codes "="
    ∷ codes "("
    ∷ codes "["
    ∷ codes "{"
    ∷ codes ","
    ∷ codes "."
    ∷ codes ")"
    ∷ codes "}"
    ∷ codes "]"
    ∷ codes ";"
    ∷ codes ":"
    ∷ codes "..."
    ∷ codes ""
    ∷ codes ""
    ∷ codes "break"
    ∷ codes "case"
    ∷ codes "chan"
    ∷ codes "const"
    ∷ codes "continue"
    ∷ codes "default"
    ∷ codes "defer"
    ∷ codes "else"
    ∷ codes "fallthrough"
    ∷ codes "for"
    ∷ codes "func"
    ∷ codes "go"
    ∷ codes "goto"
    ∷ codes "if"
    ∷ codes "import"
    ∷ codes "interface"
    ∷ codes "map"
    ∷ codes "package"
    ∷ codes "range"
    ∷ codes "return"
    ∷ codes "select"
    ∷ codes "struct"
    ∷ codes "switch"
    ∷ codes "type"
    ∷ codes "var"
    ∷ codes ""
    ∷ codes ""
    ∷ codes "@doc"
    ∷ codes "@handler"
    ∷ codes "@server"
    ∷ codes "interface{}"
    ∷ codes ""
    ∷ []

-- `Type.String`.
unfoldable pub type_string : TokenType → Text
type_string t = if leb token_bg t && ltb t token_end then get_or tokens t [] else []

-- `keywords`.
abbrev pub keywords : List (Text × TokenType)
keywords =
    (codes "break", break_kw)
    ∷ (codes "case", case_kw)
    ∷ (codes "chan", chan_kw)
    ∷ (codes "const", const_kw)
    ∷ (codes "continue", continue_kw)
    ∷ (codes "default", default_kw)
    ∷ (codes "defer", defer_kw)
    ∷ (codes "else", else_kw)
    ∷ (codes "fallthrough", fallthrough_kw)
    ∷ (codes "for", for_kw)
    ∷ (codes "func", func_kw)
    ∷ (codes "go", go_kw)
    ∷ (codes "goto", goto_kw)
    ∷ (codes "if", if_kw)
    ∷ (codes "import", import_kw)
    ∷ (codes "interface", interface_kw)
    ∷ (codes "map", map_kw)
    ∷ (codes "package", package_kw)
    ∷ (codes "range", range_kw)
    ∷ (codes "return", return_kw)
    ∷ (codes "select", select_kw)
    ∷ (codes "struct", struct_kw)
    ∷ (codes "switch", switch_kw)
    ∷ (codes "type", type_kw)
    ∷ (codes "var", var_kw)
    ∷ []

-- The lookup in a map literal.
unfoldable pub lookup_text : List (Text × TokenType) → Text → Option TokenType
unfolding text_eq
lookup_text [] s = none
lookup_text ((k, t) ∷ m) s = if text_eq k s then some t else lookup_text m s

unfoldable pub lookup_keyword : Text → Option TokenType
unfolding lookup_text
lookup_keyword s = lookup_text keywords s

-- Is a text a key of a map literal with no values?
unfoldable pub has_text : List Text → Text → Bool
unfolding text_eq
has_text [] s = Bool.false
has_text (k ∷ m) s = text_eq k s || has_text m s

abbrev pub http_methods : List Text
http_methods =
    codes "get"
    ∷ codes "head"
    ∷ codes "post"
    ∷ codes "put"
    ∷ codes "patch"
    ∷ codes "delete"
    ∷ codes "connect"
    ∷ codes "options"
    ∷ codes "trace"
    ∷ []

abbrev pub base_data_types : List Text
base_data_types =
    codes "bool"
    ∷ codes "uint8"
    ∷ codes "uint16"
    ∷ codes "uint32"
    ∷ codes "uint64"
    ∷ codes "int8"
    ∷ codes "int16"
    ∷ codes "int32"
    ∷ codes "int64"
    ∷ codes "float32"
    ∷ codes "float64"
    ∷ codes "complex64"
    ∷ codes "complex128"
    ∷ codes "string"
    ∷ codes "int"
    ∷ codes "uint"
    ∷ codes "uintptr"
    ∷ codes "byte"
    ∷ codes "rune"
    ∷ codes "any"
    ∷ []
