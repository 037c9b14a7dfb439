-- ===== src/Scanner/Next.antt =====
-- `NextToken` and `NewScanner` of pkg/parser/api/scanner/scanner.go.
use goctl.Base.{ℕ, not, [], ◌∷◌, Option, none, some, Text, codes, ◌==◌, if◌then◌else◌, length}
use goctl.Scanner.Duration.{scan_int_or_duration}
use goctl.Scanner.Quoted.{Scan, ok, done, scan_string, scan_document, scan_at}
use goctl.Scanner.State.{
  Scanner, is_digit, is_identifier_letter, read_rune, peek_rune, new_position, new_token,
  illegal_token, skip_white_space, rounds,
}
use goctl.Scanner.Words.{scan_ident, scan_line_comment}
use goctl.Token.Defs.{eof_token}
use goctl.Token.Kind.{
  TokenType, quo, sub, mul, lparen, lbrack, lbrace, comma, dot, rparen, rbrack, rbrace, semicolon,
  colon, assign, ellipsis, string, raw_string,
}

-- The case of `/`.
unfoldable pub scan_slash : Scanner → Scan
scan_slash s =
    if peek_rune s == b'/'
    then done (scan_line_comment s)
    else if peek_rune s == b'*'
    then scan_document s
    else done (new_token quo s)

-- The case of `.`.
unfoldable pub scan_dot : Scanner → Scan
scan_dot s =
    let s1 = read_rune s in
    let s3 = read_rune (read_rune s1) in
    if not (peek_rune s == b'.')
    then done (new_token dot s)
    else if not (peek_rune s1 == b'.')
    then done (new_token dot s1)
    else ok (record { type = ellipsis; text = codes "..."; position = new_position s3 s.position })
        s3

-- The cases that make a token of one rune.
unfoldable pub punctuation : ℕ → Option TokenType
punctuation c =
    if c == b'-'
    then some sub
    else if c == b'*'
    then some mul
    else if c == b'('
    then some lparen
    else if c == b'['
    then some lbrack
    else if c == b'{'
    then some lbrace
    else if c == b','
    then some comma
    else if c == b')'
    then some rparen
    else if c == b']'
    then some rbrack
    else if c == b'}'
    then some rbrace
    else if c == b';'
    then some semicolon
    else if c == b':'
    then some colon
    else if c == b'='
    then some assign
    else none

-- The default case.
unfoldable pub scan_other : Scanner → Scan
scan_other s =
    if is_identifier_letter s.ch
    then done (scan_ident s)
    else if is_digit s.ch
    then done (scan_int_or_duration s)
    else done (illegal_token s)

unfoldable pub scan_token : Scanner → Scan
scan_token s =
    if s.ch == b'/'
    then scan_slash s
    else if s.ch == b'.'
    then scan_dot s
    else if s.ch == b'@'
    then scan_at s
    else if s.ch == b'"'
    then scan_string b'"' string s
    else if s.ch == b'`'
    then scan_string b'`' raw_string s
    else if s.ch == 0
    then ok eof_token s
    else elim (punctuation s.ch) [ some tp ↦ done (new_token tp s) | none ↦ scan_other s ]

unfoldable pub next_token : Scanner → Scan
next_token s = scan_token (skip_white_space (rounds s) s)

-- `NewScanner` behind the reading of the file: `none` is `missingInput`. `filename` is already
-- the base name.
unfoldable pub new_scanner : Text → Text → Option Scanner
new_scanner filename [] = none
new_scanner filename (c ∷ cs) = some (
    read_rune (record {
      filename = filename;
      size = length (c ∷ cs);
      runes = c ∷ cs;
      position = 0;
      read_position = 0;
      ch = 0;
      lines = 0 ∷ [];
    }))
