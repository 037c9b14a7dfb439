-- ===== src/Parser/Routes.antt =====
-- Routes, bodies and paths of pkg/parser/api/parser/parser.go.
use goctl.Base.{ℕ, zero, suc, List, [], ◌∷◌, ◌++◌, Option, none, some, Text, codes, if◌then◌else◌}
use goctl.Ast.{Node, BodyExpr, BodyStmt, RouteStmt}
use goctl.Parser.State
use goctl.Parser.State.{
  Expected, kind, word, Parser, M, pure, out_of_fuel, crash, fail_with, gets, ◌>>=◌, ◌>>◌,
}
use goctl.Parser.Tokens.{
  matches_any, peek_is, cur_token_node, cur_token, goes_on, expect_peek, advance, advance_if,
  refuse_comment, peek_error,
}
use goctl.Token.Defs.{Token}
use goctl.Token.Kind.{
  eof, ident, int, path, lparen, lbrack, rbrace, rbrack, rparen, mul, quo, sub, colon, semicolon,
  at_doc, at_handler,
}

abbrev pub returns_word : Expected
returns_word = word (codes "returns")

-- The tokens behind a path.
abbrev pub path_end : List Expected
path_end =
    kind lparen ∷ returns_word ∷ kind at_doc ∷ kind at_handler ∷ kind semicolon ∷ kind rbrace ∷ []

abbrev pub item_end : List Expected
item_end =
    kind quo
    ∷ kind lparen
    ∷ returns_word
    ∷ kind at_doc
    ∷ kind at_handler
    ∷ kind rbrace
    ∷ kind semicolon
    ∷ kind eof
    ∷ []

-- `node.SetLeadingCommentGroup(p.curTokenNode().LeadingCommentGroup)` on a new node for `tok`.
unfoldable pub node_with_comments : Token → M Node
node_with_comments tok = do
  node ← cur_token_node
  elim node [
    | none ↦ crash
    | some n ↦
        pure
          (some (record { token = tok; head_comments = []; leading_comments = n.leading_comments }))
  ]

-- The loop of `parsePathItem`.
unfoldable pub parse_path_tokens : ℕ → List Token → M (List Token)
parse_path_tokens zero tokens = out_of_fuel
parse_path_tokens (suc fuel) tokens = do
  more ← goes_on item_end
  dashed ← peek_is (kind sub ∷ [])
  ended ← peek_is path_end
  if more
      then if dashed
        then (do
          advance
          dash ← cur_token
          advance_if (kind ident ∷ [])
          tok ← cur_token
          parse_path_tokens fuel (tokens ++ dash ∷ tok ∷ []))
        else if ended
        then pure tokens
        else (do
          advance_if (kind ident ∷ [])
          tok ← cur_token
          parse_path_tokens fuel (tokens ++ tok ∷ []))
      else pure tokens

unfoldable pub parse_path_item : ℕ → M (List Token)
parse_path_item fuel = do
  advance_if (kind ident ∷ kind int ∷ [])
  tok ← cur_token
  parse_path_tokens fuel (tok ∷ [])

-- The `:` of a path parameter.
unfoldable pub parse_colon : List Token → M (List Token)
parse_colon values = do
  named ← peek_is (kind colon ∷ [])
  if named then (do advance; tok ← cur_token; pure (values ++ tok ∷ [])) else pure values

-- The part of a round of `parsePathExpr` behind the slash.
unfoldable pub parse_path_part : ℕ → List Token → M (List Token)
parse_path_part fuel values = do
  refuse_comment (kind colon ∷ kind ident ∷ kind int ∷ [])
  expect_peek (kind colon ∷ kind ident ∷ kind int ∷ [])
  refuse_comment (kind colon ∷ [])
  values' ← parse_colon values
  item ← parse_path_item fuel
  expect_peek (kind quo ∷ path_end)
  pure (values' ++ item)

unfoldable pub parse_path_values : ℕ → List Token → M (List Token)
parse_path_values zero values = out_of_fuel
parse_path_values (suc fuel) values = do
  more ← goes_on path_end
  if more
      then (do
        advance_if (kind quo ∷ [])
        tok ← cur_token
        ended ← peek_is path_end
        if ended then pure (values ++ tok ∷ []) else (do
          values' ← parse_path_part fuel (values ++ tok ∷ [])
          parse_path_values fuel values'))
      else pure values

unfoldable pub join_texts : List Token → Text
join_texts [] = []
join_texts (t ∷ ts) = t.text ++ join_texts ts

-- The node of the path. `values[0].Position` panics if there is no token.
unfoldable pub path_node : List Token → M Node
path_node [] = crash
path_node (t ∷ ts) =
    node_with_comments (record { type = path; text = join_texts (t ∷ ts); position = t.position })

unfoldable pub parse_path_expr : ℕ → M Node
parse_path_expr fuel = do values ← parse_path_values fuel []; path_node values

-- A name as a body, behind what stands in front of it.
unfoldable pub parse_body_name : Node → Node → Node → M BodyExpr
parse_body_name lbrack_node rbrack_node star = do
  advance_if (kind ident ∷ [])
  value ← cur_token_node
  pure (record { lbrack = lbrack_node; rbrack = rbrack_node; star = star; value = value })

-- A pointer to a name, or a name; `expected` is what the error says.
unfoldable pub parse_body_value : Node → Node → List Expected → M BodyExpr
parse_body_value lbrack_node rbrack_node expected = do
  p ← gets λ p. p
  if matches_any (kind mul ∷ []) p.peek
      then (do advance; star ← cur_token_node; parse_body_name lbrack_node rbrack_node star)
      else if matches_any (kind ident ∷ []) p.peek
      then (do
        advance
        value ← cur_token_node
        pure (record { lbrack = lbrack_node; rbrack = rbrack_node; star = none; value = value }))
      else fail_with (peek_error expected p)

unfoldable pub parse_body_expr : M BodyExpr
parse_body_expr = do
  array ← peek_is (kind lbrack ∷ [])
  if array
      then (do
        advance
        lbrack_node ← cur_token_node
        advance_if (kind rbrack ∷ [])
        rbrack_node ← cur_token_node
        parse_body_value lbrack_node rbrack_node (kind mul ∷ kind ident ∷ []))
      else parse_body_value none none (kind lbrack ∷ kind mul ∷ kind ident ∷ [])

unfoldable pub parse_body_stmt : M BodyStmt
parse_body_stmt = do
  advance_if (kind lparen ∷ [])
  lparen_node ← cur_token_node
  empty ← peek_is (kind rparen ∷ [])
  if empty
      then (do
        advance
        rparen_node ← cur_token_node
        pure (record { lparen = lparen_node; body = none; rparen = rparen_node }))
      else (do
        expr ← parse_body_expr
        advance_if (kind rparen ∷ [])
        rparen_node ← cur_token_node
        pure (record { lparen = lparen_node; body = some expr; rparen = rparen_node }))

abbrev pub http_method_words : List Expected
http_method_words =
    word (codes "get")
    ∷ word (codes "head")
    ∷ word (codes "post")
    ∷ word (codes "put")
    ∷ word (codes "patch")
    ∷ word (codes "delete")
    ∷ word (codes "connect")
    ∷ word (codes "options")
    ∷ word (codes "trace")
    ∷ []

-- `if p.peekTokenIs(token.SEMICOLON) { p.nextToken() }`: the result of the call is dropped, its
-- error stays.
unfoldable pub ignore : M (Unit {0}) → M (Unit {0})
ignore m p = elim (m p) [
  | State.done a q ↦ State.done tt q
  | State.fail q ↦ State.done tt q
  | State.panic ↦ State.panic
  | State.diverged ↦ State.diverged
]

unfoldable pub skip_semicolon : M (Unit {0})
skip_semicolon = do semi ← peek_is (kind semicolon ∷ []); if semi then ignore advance else pure tt

unfoldable pub parse_request : M (Option BodyStmt)
parse_request = do
  here ← peek_is (kind lparen ∷ [])
  if here then (do body ← parse_body_stmt; pure (some body)) else pure none

unfoldable pub parse_response : M (Node × Option BodyStmt)
parse_response = do
  here ← peek_is (returns_word ∷ [])
  if here
      then (do advance; node ← cur_token_node; body ← parse_body_stmt; pure (node, some body))
      else pure (none, none)

-- What follows the path of a route.
unfoldable pub parse_route_bodies : Node → Node → M RouteStmt
parse_route_bodies method path_expr = do
  expect_peek (returns_word ∷ kind lparen ∷ [])
  request ← parse_request
  expect_peek (returns_word ∷ kind at_doc ∷ kind at_handler ∷ kind rbrace ∷ kind semicolon ∷ [])
  response ← parse_response
  skip_semicolon
  pure (record {
    method = method;
    path = path_expr;
    request = request;
    returns = response.0;
    response = response.1;
  })

unfoldable pub parse_route_stmt : ℕ → M RouteStmt
parse_route_stmt fuel = do
  advance_if http_method_words
  method ← cur_token_node
  path_expr ← parse_path_expr fuel
  p ← gets λ p. p
  let bare : RouteStmt = record {
    method = method;
    path = path_expr;
    request = none;
    returns = none;
    response = none;
  }
  if matches_any (kind at_doc ∷ kind at_handler ∷ kind rbrace ∷ []) p.peek
      then pure bare
      else if matches_any (kind semicolon ∷ []) p.peek
      then (do ignore advance; pure bare)
      else parse_route_bodies method path_expr
