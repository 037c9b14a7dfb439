-- ===== src/Parser/Tokens.antt =====
-- The tests and moves over tokens of pkg/parser/api/parser/parser.go.
use goctl.Base.{
  ℕ, zero, suc, ◌+◌, Bool, false, not, ◌&&◌, ◌||◌, List, [], ◌∷◌, ◌++◌, Option, none, some, Text,
  ◌==◌, if◌then◌else◌, ltb, text_eq,
}
use mathlib.Core.List.{map}
use goctl.Ast.{Node, comment_stmt}
use goctl.Parser.State.{
  Expected, kind, word, ParseError, scan_error, syntax_error, Parser, M, pure, out_of_fuel, crash,
  fail_with, gets, set_scanner, set_cur, set_peek, set_head_comments, append_stmts, put_node,
  node_of, ◌>>=◌, ◌>>◌,
}
use goctl.Scanner.Next.{next_token}
use goctl.Scanner.Quoted as Quoted
use goctl.Token.Defs.{Token, error_token, is_valid, fork, line}
use goctl.Token.Kind.{eof, illegal, comment, document, ident}
use goctl.Token.Tables.{type_string, lookup_keyword}

unfoldable pub matches : Expected → Token → Bool
unfolding text_eq
matches (kind t) tok = tok.type == t
matches (word s) tok = text_eq tok.text s

unfoldable pub matches_any : List Expected → Token → Bool
unfolding matches
matches_any [] tok = false
matches_any (e ∷ es) tok = matches e tok || matches_any es tok

-- `peekTokenIs`, and `not` of `peekTokenIsNot`.
abbrev pub peek_is : List Expected → M Bool
peek_is es = gets λ p. matches_any es p.peek

abbrev pub cur_is : List Expected → M Bool
cur_is es = gets λ p. matches_any es p.cur

abbrev pub cur_token_node : M Node
cur_token_node = gets λ p. node_of p.cur p.nodes

abbrev pub cur_token : M Token
cur_token = gets λ p. p.cur

-- The test of the loops: `curTokenIsNotEof() && peekTokenIsNot(...)`.
abbrev pub goes_on : List Expected → M Bool
goes_on es = gets λ p. not (p.cur.type == eof) && not (matches_any es p.peek)

-- The length of a text in bytes of UTF-8.
unfoldable pub byte_len : Text → ℕ
byte_len [] = 0
byte_len (c ∷ s) =
    (if ltb c 0x80 then 1 else if ltb c 0x800 then 2 else if ltb c 0x10000 then 3 else 4)
    + byte_len s

-- The error of `expectPeekToken` and of `notExpectPeekToken`.
unfoldable pub peek_error : List Expected → Parser → ParseError
unfolding byte_len type_string
peek_error es p =
    let got = if p.peek.type == illegal then p.peek.text else type_string p.peek.type in
    let at = p.cur.position in
    syntax_error
      (if p.peek.type == eof
        then record at { column = at.column + byte_len p.cur.text }
        else p.peek.position)
      es got

-- Go on if the next token is expected; otherwise add an error and return nil.
unfoldable pub expect_peek : List Expected → M (Unit {0})
unfolding peek_error
expect_peek es = do
  p ← gets λ p. p
  if matches_any es p.peek then pure tt else fail_with (peek_error es p)

-- `expectIdentError`, and then the nil that its callers return.
unfoldable pub fail_ident {ℓ} : {A : Type ℓ} → Token → List Expected → M A
unfolding type_string
fail_ident tok es = fail_with (syntax_error tok.position es (type_string tok.type))

-- `if p.curTokenIsKeyword() { return nil }`.
unfoldable pub refuse_keyword : M (Unit {0})
refuse_keyword = do
  tok ← cur_token
  elim (lookup_keyword tok.text) [
    | some tp ↦ fail_ident (fork tok tp) (kind ident ∷ [])
    | none ↦ pure tt
  ]

-- `p.peekTok, err = p.s.NextToken()`.
unfoldable pub scan_peek : M (Unit {0})
scan_peek = do
  p ← gets λ p. p
  elim (next_token p.scanner) [
    | Quoted.ok t s ↦ do set_scanner s; set_peek t
    | Quoted.err e s ↦ do set_scanner s; set_peek error_token; fail_with (scan_error e)
    | Quoted.diverged ↦ out_of_fuel
  ]

abbrev pub same_line : Option ℕ → Token → Bool
same_line none t = false
same_line (some l) t = line t == l

-- The loop over comments; `leading` are those on the line of the current token.
unfoldable pub skip_comments : ℕ → Option ℕ → List Token → M (List Token)
skip_comments zero l leading = out_of_fuel
skip_comments (suc fuel) l leading = do
  p ← gets λ p. p
  if p.peek.type == comment || p.peek.type == document
      then if same_line l p.peek
        then (do scan_peek; skip_comments fuel l (leading ++ p.peek ∷ []))
        else (do
          set_head_comments (p.head_comment_group ++ p.peek ∷ [])
          scan_peek
          skip_comments fuel l leading)
      else pure leading

-- The node of the current token is made, with the comments in front of it.
unfoldable pub make_node : M (Unit {0})
make_node = do
  p ← gets λ p. p
  put_node p.cur
      (record { token = p.cur; head_comments = p.head_comment_group; leading_comments = [] })
  set_head_comments []

-- `curTokenNode().SetLeadingCommentGroup`: a nil node would panic.
unfoldable pub set_leading : List Token → M (Unit {0})
set_leading [] = pure tt
set_leading (c ∷ cs) = do
  p ← gets λ p. p
  elim (node_of p.cur p.nodes) [
    | none ↦ crash
    | some n ↦ put_node p.cur (record n { leading_comments = c ∷ cs })
  ]

-- `nextToken`, as an action that fails where it returns false.
unfoldable pub advance : M (Unit {0})
advance = do
  p ← gets λ p. p
  set_cur p.peek
  if is_valid p.peek && p.peek.type == eof
      then (do append_stmts (map comment_stmt p.head_comment_group); set_head_comments [])
      else (do
        (if is_valid p.peek then make_node else pure tt)
        scan_peek
        leading ←
            skip_comments (suc (suc p.scanner.size))
              (if is_valid p.peek then some (line p.peek) else none) []
        set_leading leading)

-- `advanceIfPeekTokenIs`.
unfoldable pub advance_if : List Expected → M (Unit {0})
advance_if es = do expect_peek es; advance

-- `if p.notExpectPeekTokenGotComment(p.curTokenNode().PeekFirstLeadingComment(), ...)`: nil where
-- the current token has a comment behind it. A nil node would panic.
unfoldable pub refuse_comment : List Expected → M (Unit {0})
unfolding type_string
refuse_comment es = do
  p ← gets λ p. p
  elim (node_of p.cur p.nodes) [
    | none ↦ crash
    | some n ↦ elim n.leading_comments [
      | [] ↦ pure tt
      | c ∷ cs ↦ fail_with (syntax_error p.peek.position es (type_string c.type))
    ]
  ]
