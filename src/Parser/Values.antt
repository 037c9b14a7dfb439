-- ===== src/Parser/Values.antt =====
-- Key-value expressions of pkg/parser/api/parser/parser.go.
use goctl.Base.{ℕ, zero, suc, List, [], ◌∷◌, ◌++◌, none, some, Text, codes, if◌then◌else◌, text_eq}
use goctl.Ast.{Node, KvExpr}
use goctl.Parser.State.{Expected, kind, M, pure, out_of_fuel, crash, gets, ◌>>=◌, ◌>>◌}
use goctl.Parser.Tokens.{
  matches_any, peek_is, cur_token_node, cur_token, goes_on, expect_peek, advance, advance_if,
}
use goctl.Parser.Routes.{node_with_comments}
use goctl.Token.Defs.{Position}
use goctl.Token.Kind.{TokenType, ident, int, path, duration, string, key, rparen, quo, sub, comma}

-- A name behind the current separator: both texts.
unfoldable pub parse_separated : M Text
parse_separated = do
  sep ← cur_token
  advance_if (kind ident ∷ [])
  tok ← cur_token
  pure (sep.text ++ tok.text)

-- `/name` or `/name-name` from the slash on.
unfoldable pub parse_slash_part : M Text
parse_slash_part = do
  part ← parse_separated
  dashed ← peek_is (kind sub ∷ [])
  if dashed then (do advance; rest ← parse_separated; pure (part ++ rest)) else pure part

-- The loops over `,name`, `-name` and `/name`.
unfoldable pub parse_list : ℕ → TokenType → Text → M Text
parse_list zero sep text = out_of_fuel
parse_list (suc fuel) sep text = do
  more ← peek_is (kind sep ∷ [])
  if more
      then (do advance; part ← parse_separated; parse_list fuel sep (text ++ part))
      else pure text

unfoldable pub parse_slash_parts : ℕ → Text → M Text
parse_slash_parts zero text = out_of_fuel
parse_slash_parts (suc fuel) text = do
  more ← peek_is (kind quo ∷ [])
  if more
      then (do advance; part ← parse_slash_part; parse_slash_parts fuel (text ++ part))
      else pure text

-- A value whose text was joined: a path token at the first token's position. Its comments are
-- those of the current token.
unfoldable pub path_value : Text → Position → M Node
path_value text position =
    node_with_comments (record { type = path; text = text; position = position })

-- The next token as the value.
unfoldable pub parse_token_value : M Node
parse_token_value = do advance; tok ← cur_token; node_with_comments tok

unfoldable pub parse_quo_value : ℕ → M Node
parse_quo_value fuel = do
  advance
  slash ← cur_token
  part ← parse_slash_part
  text ← parse_slash_parts fuel part
  path_value text slash.position

-- A string is a value of the key `summary:` alone.
unfoldable pub parse_string_value : Node → M Node
unfolding text_eq
parse_string_value none = crash
parse_string_value (some k) =
    if text_eq k.token.text (codes "summary:")
    then parse_token_value
    else (do expect_peek (kind quo ∷ kind duration ∷ kind ident ∷ kind int ∷ []); parse_token_value)

-- A name, and what is joined to it: names behind commas, or behind dashes, or slash parts.
unfoldable pub parse_ident_value : ℕ → M Node
parse_ident_value fuel = do
  advance_if (kind ident ∷ [])
  p ← gets λ p. p
  let tok = p.cur
  text ←
      if matches_any (kind comma ∷ []) p.peek
      then parse_list fuel comma tok.text
      else if matches_any (kind sub ∷ []) p.peek
      then parse_list fuel sub tok.text
      else parse_slash_parts fuel tok.text
  path_value text tok.position

abbrev pub value_start : List Expected
value_start = kind quo ∷ kind duration ∷ kind ident ∷ kind int ∷ kind string ∷ []

unfoldable pub parse_at_server_value : ℕ → Node → M Node
parse_at_server_value fuel key_node = do
  expect_peek value_start
  p ← gets λ p. p
  if matches_any (kind quo ∷ []) p.peek
      then parse_quo_value fuel
      else if matches_any (kind duration ∷ []) p.peek
      then parse_token_value
      else if matches_any (kind int ∷ []) p.peek
      then parse_token_value
      else if matches_any (kind string ∷ []) p.peek
      then parse_string_value key_node
      else parse_ident_value fuel

unfoldable pub parse_at_server_kv : ℕ → M KvExpr
parse_at_server_kv fuel = do
  advance_if (kind key ∷ kind rparen ∷ [])
  key_node ← cur_token_node
  value ← parse_at_server_value fuel key_node
  pure (record { key = key_node; value = value })

unfoldable pub parse_kv_expression : M KvExpr
parse_kv_expression = do
  advance_if (kind key ∷ [])
  key_node ← cur_token_node
  advance_if (kind string ∷ [])
  value ← cur_token_node
  pure (record { key = key_node; value = value })

-- The loops over the expressions of a group, up to `)`.
unfoldable pub parse_kv_group : M KvExpr → ℕ → List KvExpr → M (List KvExpr)
parse_kv_group parse_one zero exprs = out_of_fuel
parse_kv_group parse_one (suc fuel) exprs = do
  more ← goes_on (kind rparen ∷ [])
  if more
      then (do
        expr ← parse_one
        expect_peek (kind rparen ∷ kind key ∷ [])
        parse_kv_group parse_one fuel (exprs ++ expr ∷ []))
      else pure exprs
