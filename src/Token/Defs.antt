-- ===== src/Token/Defs.antt =====
-- pkg/parser/api/token/position.go and the token of pkg/parser/api/token/token.go.
use goctl.Base.{
  ℕ, Bool, false, not, ◌&&◌, ◌||◌, List, [], ◌∷◌, Text, codes, ltb, ◌==◌, text_eq, if◌then◌else◌,
}
use goctl.Token.Kind.{
  TokenType, token_bg, eof, error, illegal, string, raw_string, comment, document,
  golang_keyword_beg, golang_keyword_end,
}
use goctl.Token.Tables.{http_methods, base_data_types, has_text}

pub record Position : Type 0 where
  pub filename : Text
  pub line : ℕ
  pub column : ℕ

abbrev pub zero_position : Position
zero_position = record { filename = []; line = 0; column = 0 }

pub record Token : Type 0 where
  pub type : TokenType
  pub text : Text
  pub position : Position

abbrev pub eof_token : Token
eof_token = record { type = eof; text = []; position = zero_position }

abbrev pub error_token : Token
error_token = record { type = error; text = []; position = zero_position }

-- `NewIllegalToken`.
abbrev pub new_illegal_token : ℕ → Position → Token
new_illegal_token b pos = record { type = illegal; text = b ∷ []; position = pos }

abbrev pub fork : Token → TokenType → Token
fork t tp = record t { type = tp }

-- `util.TrimWhiteSpace` of util/string.go: the replacer deletes these five characters.
unfoldable pub trim_white_space : Text → Text
trim_white_space [] = []
trim_white_space (c ∷ s) =
    let rest = trim_white_space s in
    if c == b' ' || c == b'\t' || c == b'\n' || c == 12 || c == b'\r' then rest else c ∷ rest

unfoldable pub is_empty_string : Token → Bool
unfolding trim_white_space text_eq
is_empty_string t =
    if not (t.type == string) && not (t.type == raw_string)
    then false
    else text_eq (trim_white_space t.text) (codes "\"\"")
      || text_eq (trim_white_space t.text) (codes "``")

abbrev pub is_type : Token → TokenType → Bool
is_type t tp = t.type == tp

abbrev pub is_comment : Token → Bool
is_comment t = is_type t comment

abbrev pub is_document : Token → Bool
is_document t = is_type t document

abbrev pub line : Token → ℕ
line t = t.position.line

-- `Valid`.
abbrev pub is_valid : Token → Bool
is_valid t = not (t.type == token_bg)

unfoldable pub is_keyword : Token → Bool
is_keyword t = ltb golang_keyword_beg t.type && ltb t.type golang_keyword_end

unfoldable pub is_base_type : Token → Bool
unfolding has_text
is_base_type t = has_text base_data_types t.text

unfoldable pub is_http_method : Token → Bool
unfolding has_text
is_http_method t = has_text http_methods t.text

-- `Is`: is the text one of the list?
unfoldable pub is_one_of : Token → List Text → Bool
unfolding text_eq
is_one_of t [] = false
is_one_of t (v ∷ vs) = text_eq t.text v || is_one_of t vs

-- Go's == on positions and on tokens, field by field.
unfoldable pub position_eq : Position → Position → Bool
unfolding text_eq
position_eq p q = text_eq p.filename q.filename && p.line == q.line && p.column == q.column

unfoldable pub token_eq : Token → Token → Bool
unfolding text_eq position_eq
token_eq a b = a.type == b.type && text_eq a.text b.text && position_eq a.position b.position
