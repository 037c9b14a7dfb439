-- ===== src/Scanner/State.antt =====
-- The scanner of pkg/parser/api/scanner/scanner.go, its character classes and its moves.
use goctl.Base.{
  ℕ, zero, suc, ◌+◌, ◌-◌, Bool, true, false, ◌&&◌, ◌||◌, List, [], ◌∷◌, ◌++◌, Text, leb, ◌==◌,
  if◌then◌else◌, length, get_or, last_or, slice,
}
use goctl.Token.Defs.{Position, Token, new_illegal_token}
use goctl.Token.Kind.{TokenType}

-- `runes` is the field `data`. An entry of `lines` is the source's entry plus one, since the source
-- begins with -1: it is the position behind a newline, where the next line starts.
pub record Scanner : Type 0 where
  pub filename : Text
  pub size : ℕ
  pub runes : Text
  pub position : ℕ
  pub read_position : ℕ
  pub ch : ℕ
  pub lines : List ℕ

unfoldable pub is_digit : ℕ → Bool
is_digit b = leb b'0' b && leb b b'9'

unfoldable pub is_letter : ℕ → Bool
is_letter b = leb b'a' b && leb b b'z' || leb b'A' b && leb b b'Z'

unfoldable pub is_identifier_letter : ℕ → Bool
unfolding is_letter
is_identifier_letter b = if is_letter b then true else b == b'_'

unfoldable pub read_rune : Scanner → Scanner
read_rune s = record s {
  ch = if leb s.size s.read_position then 0 else get_or s.runes s.read_position 0;
  position = s.read_position;
  read_position = s.read_position + 1;
}

unfoldable pub peek_rune : Scanner → ℕ
peek_rune s = if leb s.size s.read_position then 0 else get_or s.runes s.read_position 0

abbrev pub line_count : Scanner → ℕ
line_count s = length s.lines

-- The column is `position - s.lines[line-1]`, with the entry's shift by one undone.
unfoldable pub new_position : Scanner → ℕ → Position
new_position s position = record {
  filename = s.filename;
  line = line_count s;
  column = position + 1 - last_or s.lines 0;
}

abbrev pub position_at : Scanner → Position
position_at s = new_position s s.position

-- A token with the text from `position` up to the current rune.
abbrev pub token_from : TokenType → ℕ → Scanner → Token
token_from tp position s = record {
  type = tp;
  text = slice s.runes position s.position;
  position = new_position s position;
}

unfoldable pub new_token : TokenType → Scanner → Token × Scanner
new_token tp s = (record { type = tp; text = s.ch ∷ []; position = position_at s }, read_rune s)

unfoldable pub illegal_token : Scanner → Token × Scanner
illegal_token s = (new_illegal_token s.ch (position_at s), read_rune s)

-- `isWhiteSpace`, with its write to `lines` at a newline.
unfoldable pub is_white_space : ℕ → Bool
is_white_space b = b == b' ' || b == b'\t' || b == b'\r' || b == 12 || b == 11 || b == b'\n'

unfoldable pub note_line : Scanner → Scanner
note_line s = record s {
  lines = if s.ch == b'\n' then s.lines ++ (s.position + 1) ∷ [] else s.lines;
}

unfoldable pub skip_white_space : ℕ → Scanner → Scanner
unfolding is_white_space note_line
skip_white_space zero s = s
skip_white_space (suc fuel) s = elim (is_white_space s.ch) [
  | true ↦ skip_white_space fuel (read_rune (note_line s))
  | false ↦ note_line s
]

-- `for test(s.ch) { s.readRune() }`.
unfoldable pub read_while : (ℕ → Bool) → ℕ → Scanner → Scanner
read_while test zero s = s
read_while test (suc fuel) s = elim (test s.ch) [
  | true ↦ read_while test fuel (read_rune s)
  | false ↦ s
]

-- One round for each rune and one for the end.
abbrev pub rounds : Scanner → ℕ
rounds s = suc s.size
