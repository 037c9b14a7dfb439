-- ===== src/Scanner/Words.antt =====
-- Line comments, names and letter sets of pkg/parser/api/scanner/scanner.go.
use goctl.Base.{ℕ, Bool, not, ◌&&◌, ◌||◌, Text, codes, ◌==◌, if◌then◌else◌, text_eq, slice}
use goctl.Scanner.State.{
  Scanner, is_digit, is_letter, is_identifier_letter, read_rune, peek_rune, token_from, read_while,
  rounds,
}
use goctl.Token.Defs.{Token}
use goctl.Token.Kind.{ident, key, any, comment}

unfoldable pub is_ident_rune : ℕ → Bool
unfolding is_identifier_letter is_digit
is_ident_rune b = is_identifier_letter b || is_digit b

unfoldable pub in_line : ℕ → Bool
in_line b = not (b == b'\n') && not (b == 0)

-- `scanIdent` from the rune behind the name, which starts at `position`.
unfoldable pub end_ident : ℕ → Scanner → Token × Scanner
end_ident position s =
    if s.ch == b':'
    then (token_from key position (read_rune s), read_rune s)
    else if text_eq (slice s.runes position s.position) (codes "interface")
        && s.ch == b'{'
        && peek_rune s == b'}'
    then (token_from any position (read_rune (read_rune s)), read_rune (read_rune s))
    else (token_from ident position s, s)

unfoldable pub scan_ident : Scanner → Token × Scanner
scan_ident s = end_ident s.position (read_while is_ident_rune (rounds s) s)

unfoldable pub scan_letter_set : Scanner → Text × Scanner
scan_letter_set s =
    let s' = read_while is_letter (rounds s) s in (slice s'.runes s.position s'.position, s')

unfoldable pub scan_line_comment : Scanner → Token × Scanner
scan_line_comment s =
    let s' = read_while in_line (rounds s) s in (token_from comment s.position s', s')
