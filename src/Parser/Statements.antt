-- ===== src/Parser/Statements.antt =====
-- Services, imports, info and syntax statements of pkg/parser/api/parser/parser.go, and `Parse`.
use goctl.Base.{
  ℕ, zero, suc, List, [], ◌∷◌, ◌++◌, Option, none, some, Text, codes, ◌==◌, if◌then◌else◌,
}
use goctl.Ast.{
  Node, AtDocStmt, doc_literal, doc_group, AtHandlerStmt, AtServerStmt, ServiceItemStmt, Stmt,
  syntax_stmt, info_stmt, service_stmt, import_literal, import_group,
}
use goctl.Parser.State.{
  kind, word, unexpected_token, Parser, M, pure, out_of_fuel, fail_with, gets, append_stmts, ◌>>=◌,
  ◌>>◌,
}
use goctl.Parser.Tokens.{
  peek_is, cur_is, cur_token_node, cur_token, goes_on, expect_peek, fail_ident, advance, advance_if,
}
use goctl.Parser.Routes.{node_with_comments, parse_route_stmt}
use goctl.Parser.Types.{parse_type_stmt}
use goctl.Parser.Values.{parse_at_server_kv, parse_kv_expression, parse_kv_group}
use goctl.Scanner.State.{Scanner}
use goctl.Token.Defs.{zero_position, is_one_of}
use goctl.Token.Kind.{
  eof, ident, string, lparen, rparen, lbrace, rbrace, sub, assign, type_kw, at_doc, at_handler,
  at_server, token_bg,
}

-- The text of a service name: the current token, and `-api` if it follows.
unfoldable pub parse_service_text : M Text
parse_service_text = do
  name ← cur_token
  dashed ← peek_is (kind sub ∷ [])
  if dashed
      then (do
        advance
        dash ← cur_token
        expect_peek (word (codes "api") ∷ [])
        advance
        api ← cur_token
        pure (name.text ++ dash.text ++ api.text))
      else pure name.text

unfoldable pub parse_service_name_expr : M Node
parse_service_name_expr = do
  name ← cur_token
  text ← parse_service_text
  node_with_comments (record { type = ident; text = text; position = name.position })

unfoldable pub parse_at_doc_group_stmt : ℕ → M AtDocStmt
parse_at_doc_group_stmt fuel = do
  node ← cur_token_node
  advance_if (kind lparen ∷ [])
  lparen_node ← cur_token_node
  values ← parse_kv_group parse_kv_expression fuel []
  advance_if (kind rparen ∷ [])
  rparen_node ← cur_token_node
  pure (doc_group node lparen_node values rparen_node)

unfoldable pub parse_at_doc_literal_stmt : M AtDocStmt
parse_at_doc_literal_stmt = do
  node ← cur_token_node
  advance_if (kind string ∷ [])
  value ← cur_token_node
  pure (doc_literal node value)

unfoldable pub parse_at_doc_stmt : ℕ → M AtDocStmt
parse_at_doc_stmt fuel = do
  expect_peek (kind lparen ∷ kind string ∷ [])
  group ← peek_is (kind lparen ∷ [])
  if group then parse_at_doc_group_stmt fuel else parse_at_doc_literal_stmt

unfoldable pub parse_at_handler_stmt : M AtHandlerStmt
parse_at_handler_stmt = do
  node ← cur_token_node
  advance_if (kind ident ∷ [])
  name ← cur_token_node
  pure (record { at_handler = node; name = name })

unfoldable pub parse_at_server_stmt : ℕ → M AtServerStmt
parse_at_server_stmt fuel = do
  node ← cur_token_node
  advance_if (kind lparen ∷ [])
  lparen_node ← cur_token_node
  values ← parse_kv_group (parse_at_server_kv fuel) fuel []
  advance_if (kind rparen ∷ [])
  rparen_node ← cur_token_node
  pure (record { at_server = node; lparen = lparen_node; values = values; rparen = rparen_node })

unfoldable pub parse_item_doc : ℕ → M (Option AtDocStmt)
parse_item_doc fuel = do
  here ← peek_is (kind at_doc ∷ [])
  if here then (do advance; doc ← parse_at_doc_stmt fuel; pure (some doc)) else pure none

unfoldable pub parse_service_item_stmt : ℕ → M ServiceItemStmt
parse_service_item_stmt fuel = do
  doc ← parse_item_doc fuel
  advance_if (kind at_handler ∷ kind rbrace ∷ [])
  closed ← peek_is (kind rbrace ∷ [])
  if closed then pure (record { at_doc = doc; at_handler = none; route = none }) else (do
    handler ← parse_at_handler_stmt
    route ← parse_route_stmt fuel
    pure (record { at_doc = doc; at_handler = some handler; route = some route }))

unfoldable pub parse_service_items : ℕ → List ServiceItemStmt → M (List ServiceItemStmt)
parse_service_items zero items = out_of_fuel
parse_service_items (suc fuel) items = do
  more ← goes_on (kind rbrace ∷ [])
  if more
      then (do
        item ← parse_service_item_stmt fuel
        closed ← peek_is (kind rbrace ∷ [])
        if closed then pure (items ++ item ∷ []) else (do
          expect_peek (kind at_doc ∷ kind at_handler ∷ kind rbrace ∷ [])
          parse_service_items fuel (items ++ item ∷ [])))
      else pure items

-- The `@server` group in front of a service.
unfoldable pub parse_service_server : ℕ → M (Option AtServerStmt)
parse_service_server fuel = do
  here ← cur_is (kind at_server ∷ [])
  if here
      then (do
        server ← parse_at_server_stmt fuel
        advance_if (word (codes "service") ∷ [])
        pure (some server))
      else pure none

unfoldable pub parse_service : ℕ → M Stmt
parse_service fuel = do
  server ← parse_service_server fuel
  service ← cur_token_node
  advance_if (kind ident ∷ [])
  name ← parse_service_name_expr
  advance_if (kind lbrace ∷ [])
  lbrace_node ← cur_token_node
  routes ← parse_service_items fuel []
  advance_if (kind rbrace ∷ [])
  rbrace_node ← cur_token_node
  pure (
      service_stmt (record {
        at_server = server;
        service = service;
        name = name;
        lbrace = lbrace_node;
        routes = routes;
        rbrace = rbrace_node;
      }))

unfoldable pub parse_import_values : ℕ → List Node → M (List Node)
parse_import_values zero values = out_of_fuel
parse_import_values (suc fuel) values = do
  more ← goes_on (kind rparen ∷ [])
  if more
      then (do
        advance_if (kind string ∷ [])
        node ← cur_token_node
        expect_peek (kind rparen ∷ kind string ∷ [])
        parse_import_values fuel (values ++ node ∷ []))
      else pure values

unfoldable pub parse_import_literal_stmt : M Stmt
parse_import_literal_stmt = do
  node ← cur_token_node
  advance_if (kind string ∷ [])
  value ← cur_token_node
  pure (import_literal node value)

unfoldable pub parse_import_group_stmt : ℕ → M Stmt
parse_import_group_stmt fuel = do
  node ← cur_token_node
  advance_if (kind lparen ∷ [])
  lparen_node ← cur_token_node
  values ← parse_import_values fuel []
  advance_if (kind rparen ∷ [])
  rparen_node ← cur_token_node
  pure (import_group node lparen_node values rparen_node)

unfoldable pub parse_import_stmt : ℕ → M Stmt
parse_import_stmt fuel = do
  expect_peek (kind lparen ∷ kind string ∷ [])
  group ← peek_is (kind lparen ∷ [])
  if group then parse_import_group_stmt fuel else parse_import_literal_stmt

unfoldable pub parse_info_stmt : ℕ → M Stmt
parse_info_stmt fuel = do
  node ← cur_token_node
  advance_if (kind lparen ∷ [])
  lparen_node ← cur_token_node
  values ← parse_kv_group parse_kv_expression fuel []
  advance_if (kind rparen ∷ [])
  rparen_node ← cur_token_node
  pure (info_stmt node lparen_node values rparen_node)

unfoldable pub parse_syntax_stmt : M Stmt
parse_syntax_stmt = do
  node ← cur_token_node
  advance_if (kind assign ∷ [])
  assign_node ← cur_token_node
  advance_if (kind string ∷ [])
  value ← cur_token_node
  pure (syntax_stmt node assign_node value)

-- A statement that begins with a name.
unfoldable pub parse_ident_stmt : ℕ → M Stmt
unfolding is_one_of
parse_ident_stmt fuel = do
  tok ← cur_token
  if is_one_of tok (codes "syntax" ∷ [])
      then parse_syntax_stmt
      else if is_one_of tok (codes "info" ∷ [])
      then parse_info_stmt fuel
      else if is_one_of tok (codes "service" ∷ [])
      then parse_service fuel
      else if is_one_of tok (codes "type" ∷ [])
      then parse_type_stmt fuel
      else if is_one_of tok (codes "import" ∷ [])
      then parse_import_stmt fuel
      else fail_ident tok
          (word (codes "syntax") ∷ word (codes "info") ∷ word (codes "service") ∷ kind type_kw ∷ [])

unfoldable pub parse_stmt : ℕ → M Stmt
parse_stmt fuel = do
  p ← gets λ p. p
  if p.cur.type == ident
      then parse_ident_stmt fuel
      else if p.cur.type == at_server
      then parse_service fuel
      else fail_with (unexpected_token p.cur.position p.peek.text)

unfoldable pub parse_stmts : ℕ → M (Unit {0})
parse_stmts zero = out_of_fuel
parse_stmts (suc fuel) = do
  p ← gets λ p. p
  if p.cur.type == eof
      then pure tt
      else (do stmt ← parse_stmt fuel; append_stmts (stmt ∷ []); advance; parse_stmts fuel)

-- `Parse`, which returns `p.api`: the statements of the state.
unfoldable pub parse : ℕ → M (List Stmt)
parse fuel = do advance; advance; parse_stmts fuel; gets λ p. p.statements

-- `New`, over a scanner.
abbrev pub new_parser : Scanner → Parser
new_parser s = record {
  scanner = s;
  errors = [];
  cur = record { type = token_bg; text = []; position = zero_position };
  peek = record { type = token_bg; text = []; position = zero_position };
  head_comment_group = [];
  statements = [];
  nodes = [];
}
