-- ===== src/Scanner/Quoted.antt =====
-- Strings, documents and `@` words of pkg/parser/api/scanner/scanner.go, and the scanner's errors.
use goctl.Base.{ℕ, zero, suc, not, List, [], ◌∷◌, Text, codes, ◌==◌, if◌then◌else◌, text_eq}
use goctl.Scanner.State.{
  Scanner, is_letter, read_rune, peek_rune, new_position, position_at, token_from,
}
use goctl.Scanner.Words.{scan_letter_set}
use goctl.Token.Defs.{Position, Token, new_illegal_token}
use goctl.Token.Kind.{TokenType, document, ident, eof, mul, quo, at_doc, at_handler, at_server}
use goctl.Token.Tables.{type_string}

-- The parts from which `assertExpected` and `assertExpectedString` print their message.
pub record ScanError : Type 0 where
  pub position : Position
  pub expected : List Text
  pub actual : Text

-- What a call returns. `diverged` says that a loop was cut off by its fuel.
pub data Scan : Type 0 where
  ok : Token → Scanner → Scan
  err : ScanError → Scanner → Scan
  diverged : Scan

abbrev pub done : Token × Scanner → Scan
done (t, s) = ok t s

abbrev pub assert_expected_string : Scanner → Text → List Text → Scan
assert_expected_string s actual expected =
    err (record { position = position_at s; expected = expected; actual = actual }) s

unfoldable pub assert_expected : Scanner → TokenType → TokenType → Scan
unfolding type_string
assert_expected s actual expected =
    assert_expected_string s (type_string actual) (type_string expected ∷ [])

pub data Mode : Type 0 where
  init_mode : Mode
  document_half_open document_open document_half_close document_close : Mode
  string_open string_close : Mode

-- What one round of a loop does: read a rune and go on in a mode, or return.
pub data Round : Type 0 where
  again : Mode → Round
  return : Scan → Round

unfoldable pub scan_loop : (Mode → Scanner → Round) → ℕ → Mode → Scanner → Scan
scan_loop round zero m s = diverged
scan_loop round (suc fuel) m s = elim (round m s) [
  | again m' ↦ scan_loop round fuel m' (read_rune s)
  | return r ↦ r
]

module _ (delim : ℕ) (tp : TokenType) (position : ℕ) where
  -- The case of the delimiter.
  unfoldable pub string_delim : Mode → Scanner → Round
  string_delim init_mode s = again string_open
  string_delim string_open s = return (ok (token_from tp position (read_rune s)) (read_rune s))
  string_delim m s = again m

  -- The case of the end of the input.
  unfoldable pub string_end : Mode → Scanner → Round
  unfolding assert_expected
  string_end init_mode s = return (assert_expected s eof tp)
  string_end string_open s = return (assert_expected_string s (codes "EOF") ((delim ∷ []) ∷ []))
  string_end string_close s = return (ok (token_from tp position s) s)
  string_end m s = again m

  unfoldable pub string_round : Mode → Scanner → Round
  unfolding string_delim string_end
  string_round m s =
      if s.ch == delim then string_delim m s else if s.ch == 0 then string_end m s else again m

unfoldable pub scan_string : ℕ → TokenType → Scanner → Scan
scan_string delim tp s = scan_loop (string_round delim tp s.position) (suc (suc s.size)) init_mode s

unfoldable pub document_star : Mode → Mode
document_star document_half_open = document_open
document_star document_open = document_half_close
document_star m = m

unfoldable pub document_end : Mode → Scanner → Round
unfolding assert_expected
document_end init_mode s = return (assert_expected s eof mul)
document_end document_half_open s = return (assert_expected s eof mul)
document_end document_open s = return (assert_expected s eof mul)
document_end document_half_close s = return (assert_expected s eof quo)
document_end m s = again m

unfoldable pub document_slash : ℕ → Mode → Scanner → Round
unfolding assert_expected
document_slash position init_mode s = again document_half_open
document_slash position document_half_open s = return (assert_expected s quo mul)
document_slash position document_half_close s =
    return (ok (token_from document position (read_rune s)) (read_rune s))
document_slash position m s = again m

unfoldable pub document_round : ℕ → Mode → Scanner → Round
unfolding document_star document_end document_slash
document_round position m s =
    if s.ch == b'*'
    then again (document_star m)
    else if s.ch == 0
    then document_end m s
    else if s.ch == b'/'
    then document_slash position m s
    else again m

unfoldable pub scan_document : Scanner → Scan
scan_document s = scan_loop (document_round s.position) (suc (suc s.size)) init_mode s

-- The switch of `scanAt` on the letters behind the `@` at `position`.
unfoldable pub at_word : ℕ → Text → Scanner → Scan
unfolding text_eq type_string
at_word position letters s =
    if text_eq letters (codes "handler")
    then ok
        (record { type = at_handler; text = codes "@handler"; position = new_position s position })
        s
    else if text_eq letters (codes "server")
    then ok
        (record { type = at_server; text = codes "@server"; position = new_position s position }) s
    else if text_eq letters (codes "doc")
    then ok (record { type = at_doc; text = codes "@doc"; position = new_position s position }) s
    else assert_expected_string s (b'@' ∷ letters)
        (type_string at_doc ∷ type_string at_handler ∷ type_string at_server ∷ [])

unfoldable pub scan_at : Scanner → Scan
unfolding type_string
scan_at s =
    let (letters, s') = scan_letter_set (read_rune s) in
    if not (is_letter (peek_rune s))
    then if peek_rune s == 0
      then ok (new_illegal_token s.ch (position_at s)) s
      else assert_expected_string s (peek_rune s ∷ []) (type_string ident ∷ [])
    else at_word s.position letters s'
