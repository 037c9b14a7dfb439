-- ===== src/Parser/RouteReports.antt =====
-- Routes, values and statements of pkg/parser/api/parser/parser.go and `Parse`: the
-- errors.
use goctl.Base.{ℕ, zero, suc, List, [], ◌∷◌, Text, none, some}
use goctl.Ast.{Node, KvExpr, ServiceItemStmt}
use goctl.Parser.Reports.{
  Reports, Reports-fuel, Reports-crash, Reports-pure, Reports-bind, Reports-gets, Good,
}
use goctl.Parser.Routes.{
  node_with_comments, parse_path_tokens, parse_path_item, parse_colon, parse_path_part,
  parse_path_values, path_node, parse_path_expr, parse_body_name, parse_body_value, parse_body_expr,
  parse_body_stmt, ignore, skip_semicolon, parse_request, parse_response, parse_route_bodies,
  parse_route_stmt,
}
use goctl.Parser.State.{Parser, Result, M, crash, done, fail, panic, diverged}
use goctl.Parser.Statements.{
  parse_service_text, parse_service_name_expr, parse_at_doc_group_stmt, parse_at_doc_literal_stmt,
  parse_at_doc_stmt, parse_at_handler_stmt, parse_at_server_stmt, parse_item_doc,
  parse_service_item_stmt, parse_service_items, parse_service_server, parse_service,
  parse_import_values, parse_import_literal_stmt, parse_import_group_stmt, parse_import_stmt,
  parse_info_stmt, parse_syntax_stmt, parse_ident_stmt, parse_stmt, parse_stmts, parse,
}
use goctl.Parser.TokenReports.{token_rules, by_option}
use goctl.Parser.TypeReports.{type_stmt-Reports}
use goctl.Parser.Values.{
  parse_separated, parse_slash_part, parse_list, parse_slash_parts, path_value, parse_token_value,
  parse_quo_value, parse_string_value, parse_ident_value, parse_at_server_value, parse_at_server_kv,
  parse_kv_expression, parse_kv_group,
}
use goctl.Token.Defs.{Token}
use goctl.Token.Kind.{TokenType}

node_with_comments-Reports : (tok : Token) → Reports (node_with_comments tok)
unfolding node_with_comments
node_with_comments-Reports tok =
    Reports-bind (Reports-gets _) λ node. by_option node _ crash (λ n. Reports-pure _) Reports-crash

path_tokens-Reports : (n : ℕ) (ts : List Token) → Reports (parse_path_tokens n ts)
unfolding parse_path_tokens
path_tokens-Reports zero ts = Reports-fuel
path_tokens-Reports (suc n) ts = let ih = path_tokens-Reports n in search (token_rules, ih) depth 40

path_part-Reports : (n : ℕ) (ts : List Token) → Reports (parse_path_part n ts)
unfolding parse_path_part parse_path_item parse_colon
path_part-Reports n ts = search (token_rules, path_tokens-Reports) depth 40

path_values-Reports : (n : ℕ) (ts : List Token) → Reports (parse_path_values n ts)
unfolding parse_path_values
path_values-Reports zero ts = Reports-fuel
path_values-Reports (suc n) ts =
    let ih = path_values-Reports n in search (token_rules, path_part-Reports, ih) depth 40

path_node-Reports : (ts : List Token) → Reports (path_node ts)
unfolding path_node
path_node-Reports [] = Reports-crash
path_node-Reports (t ∷ ts) = node_with_comments-Reports _

path_expr-Reports : (n : ℕ) → Reports (parse_path_expr n)
unfolding parse_path_expr
path_expr-Reports n = Reports-bind (path_values-Reports n []) path_node-Reports

body_stmt-Reports : Reports parse_body_stmt
unfolding parse_body_stmt parse_body_expr parse_body_value parse_body_name
body_stmt-Reports = search token_rules depth 60

Good-ignore :
    (p : Parser) (r : Result (Unit {0}))
    → Good p r
    → Good p
        (elim r [ done a q ↦ done tt q | fail q ↦ done tt q | panic ↦ panic | diverged ↦ diverged ])
Good-ignore p (done a q) g = g
Good-ignore p (fail q) g = record { added = g.first ∷ g.others; all = g.all }
Good-ignore p panic g = tt
Good-ignore p diverged g = tt

ignore-Reports : {m : M (Unit {0})} → Reports m → Reports (ignore m)
unfolding ignore
ignore-Reports {m} r = record { at = λ p. Good-ignore p (m p) (r.at p) }

route_bodies-Reports : (a b : Node) → Reports (parse_route_bodies a b)
unfolding parse_route_bodies parse_request parse_response skip_semicolon
route_bodies-Reports a b = search (token_rules, body_stmt-Reports, ignore-Reports) depth 60

route_stmt-Reports : (n : ℕ) → Reports (parse_route_stmt n)
unfolding parse_route_stmt
route_stmt-Reports n =
    search (token_rules, path_expr-Reports, route_bodies-Reports, ignore-Reports) depth 60

list-Reports : (n : ℕ) (tp : TokenType) (text : Text) → Reports (parse_list n tp text)
unfolding parse_list parse_separated
list-Reports zero tp text = Reports-fuel
list-Reports (suc n) tp text = let ih = list-Reports n tp in search (token_rules, ih) depth 40

slash_part-Reports : Reports parse_slash_part
unfolding parse_slash_part parse_separated
slash_part-Reports = search token_rules depth 40

slash_parts-Reports : (n : ℕ) (text : Text) → Reports (parse_slash_parts n text)
unfolding parse_slash_parts
slash_parts-Reports zero text = Reports-fuel
slash_parts-Reports (suc n) text =
    let ih = slash_parts-Reports n in search (token_rules, slash_part-Reports, ih) depth 40

token_value-Reports : Reports parse_token_value
unfolding parse_token_value
token_value-Reports = search (token_rules, node_with_comments-Reports) depth 40

string_value-Reports : (k : Node) → Reports (parse_string_value k)
unfolding parse_string_value
string_value-Reports none = Reports-crash
string_value-Reports (some k) = search (token_rules, token_value-Reports) depth 40

at_server_kv-Reports : (n : ℕ) → Reports (parse_at_server_kv n)
unfolding parse_at_server_kv parse_at_server_value parse_quo_value parse_ident_value path_value
at_server_kv-Reports n =
    search
      (
        token_rules, node_with_comments-Reports, list-Reports, slash_part-Reports,
        slash_parts-Reports, token_value-Reports, string_value-Reports,
      )
      depth 60

kv_expression-Reports : Reports parse_kv_expression
unfolding parse_kv_expression
kv_expression-Reports = search token_rules depth 40

kv_group-Reports :
    (m : M KvExpr) (n : ℕ) (es : List KvExpr) → Reports m → Reports (parse_kv_group m n es)
unfolding parse_kv_group
kv_group-Reports m zero es r = Reports-fuel
kv_group-Reports m (suc n) es r =
    let ih = λ (l : List KvExpr). kv_group-Reports m n l r in search (token_rules, ih) depth 40

at_doc_stmt-Reports : (n : ℕ) → Reports (parse_at_doc_stmt n)
unfolding parse_at_doc_stmt parse_at_doc_group_stmt parse_at_doc_literal_stmt
at_doc_stmt-Reports n = search (token_rules, kv_group-Reports, kv_expression-Reports) depth 60

at_server_stmt-Reports : (n : ℕ) → Reports (parse_at_server_stmt n)
unfolding parse_at_server_stmt
at_server_stmt-Reports n = search (token_rules, kv_group-Reports, at_server_kv-Reports) depth 60

service_item-Reports : (n : ℕ) → Reports (parse_service_item_stmt n)
unfolding parse_service_item_stmt parse_item_doc parse_at_handler_stmt
service_item-Reports n = search (token_rules, at_doc_stmt-Reports, route_stmt-Reports) depth 60

service_items-Reports : (n : ℕ) (is : List ServiceItemStmt) → Reports (parse_service_items n is)
unfolding parse_service_items
service_items-Reports zero is = Reports-fuel
service_items-Reports (suc n) is =
    let ih = service_items-Reports n in search (token_rules, service_item-Reports, ih) depth 40

service-Reports : (n : ℕ) → Reports (parse_service n)
unfolding parse_service parse_service_server parse_service_name_expr parse_service_text
service-Reports n =
    search (token_rules, at_server_stmt-Reports, node_with_comments-Reports, service_items-Reports)
      depth 80

import_values-Reports : (n : ℕ) (vs : List Node) → Reports (parse_import_values n vs)
unfolding parse_import_values
import_values-Reports zero vs = Reports-fuel
import_values-Reports (suc n) vs =
    let ih = import_values-Reports n in search (token_rules, ih) depth 40

import_stmt-Reports : (n : ℕ) → Reports (parse_import_stmt n)
unfolding parse_import_stmt parse_import_group_stmt parse_import_literal_stmt
import_stmt-Reports n = search (token_rules, import_values-Reports) depth 60

info_stmt-Reports : (n : ℕ) → Reports (parse_info_stmt n)
unfolding parse_info_stmt
info_stmt-Reports n = search (token_rules, kv_group-Reports, kv_expression-Reports) depth 60

syntax_stmt-Reports : Reports parse_syntax_stmt
unfolding parse_syntax_stmt
syntax_stmt-Reports = search token_rules depth 60

stmt-Reports : (n : ℕ) → Reports (parse_stmt n)
unfolding parse_stmt parse_ident_stmt
stmt-Reports n =
    search
      (
        token_rules, syntax_stmt-Reports, info_stmt-Reports, service-Reports, type_stmt-Reports,
        import_stmt-Reports,
      )
      depth 60

stmts-Reports : (n : ℕ) → Reports (parse_stmts n)
unfolding parse_stmts
stmts-Reports zero = Reports-fuel
stmts-Reports (suc n) =
    let ih : Reports (parse_stmts n) = stmts-Reports n in
    search (token_rules, stmt-Reports) depth 60

whole-Reports : (n : ℕ) → Reports (parse n)
unfolding parse
whole-Reports n = search (token_rules, stmts-Reports) depth 60

-- With any fuel and from any state, where `Parse` returns a tree the errors it had before are still
-- there in front, and where it returns nil there is at least one more behind them. Nothing is said
-- of a run that panics or is cut off by its fuel.
pub parse_reports : (n : ℕ) (p : Parser) → Good p (parse n p)
parse_reports n p = (whole-Reports n).at p
