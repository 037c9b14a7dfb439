-- ===== src/Parser/Ends.antt =====
-- The statements of pkg/parser/api/parser/parser.go, and `Parse`: what they read, and their fuel.
use goctl.Base.{ℕ, zero, suc, ◌+◌, ◌<◌, ◌≡◌, ◌≢◌, ap, List, some, Text, arith, length}
use goctl.Ast.{Node, KvExpr, ServiceItemStmt}
use goctl.Parser.Measure.{After, Takes, Takes-none, Takes-bind}
use goctl.Parser.Moves.{move_rules, keep_rules}
use goctl.Parser.RouteEnds.{
  node_with_comments-Takes, kv_expression-Eats, route_stmt-Takes, at_server_kv-Eats, kv_group-Takes,
}
use goctl.Parser.State.{Result, diverged}
use goctl.Parser.Statements.{
  parse_service_text, parse_service_name_expr, parse_at_doc_group_stmt, parse_at_doc_literal_stmt,
  parse_at_doc_stmt, parse_at_handler_stmt, parse_at_server_stmt, parse_item_doc,
  parse_service_item_stmt, parse_service_items, parse_service_server, parse_service,
  parse_import_values, parse_import_literal_stmt, parse_import_group_stmt, parse_import_stmt,
  parse_info_stmt, parse_syntax_stmt, parse_ident_stmt, parse_stmt, parse_stmts, parse, new_parser,
}
use goctl.Parser.TypeEnds.{type_stmt-Eats}
use goctl.Parser.Values.{parse_kv_expression, parse_at_server_kv, parse_kv_group}
use goctl.Scanner.Next.{new_scanner}
use goctl.Scanner.Progress.{new_scanner-IsValid}
use goctl.Scanner.State.{Scanner}

kv_expressions-Takes :
    (k : ℕ) (es : List KvExpr) → Takes k k (parse_kv_group parse_kv_expression k es)
kv_expressions-Takes k es = kv_group-Takes parse_kv_expression k es λ j h. kv_expression-Eats

at_server_kvs-Takes :
    (k : ℕ) (es : List KvExpr) → Takes k k (parse_kv_group (parse_at_server_kv k) k es)
at_server_kvs-Takes k es =
    kv_group-Takes (parse_at_server_kv k) k es λ j h. at_server_kv-Eats k j (omega (arith, h))

at_doc_stmt-Eats : (k : ℕ) → Takes (suc k) k (parse_at_doc_stmt k)
unfolding parse_at_doc_stmt parse_at_doc_group_stmt parse_at_doc_literal_stmt
at_doc_stmt-Eats k = search (move_rules, kv_expressions-Takes) depth 30

at_server_stmt-Eats : (k : ℕ) → Takes (suc k) k (parse_at_server_stmt k)
unfolding parse_at_server_stmt
at_server_stmt-Eats k = search (move_rules, at_server_kvs-Takes) depth 30

service_item-Eats : (k : ℕ) → Takes (suc k) k (parse_service_item_stmt k)
unfolding parse_service_item_stmt parse_item_doc parse_at_handler_stmt
service_item-Eats k = search (move_rules, at_doc_stmt-Eats, route_stmt-Takes) depth 40

service_items-Takes : (k : ℕ) (is : List ServiceItemStmt) → Takes k k (parse_service_items k is)
unfolding parse_service_items
service_items-Takes zero is = Takes-none _ _
service_items-Takes (suc n) is =
    let ih = service_items-Takes n in search (move_rules, service_item-Eats, ih) depth 30

service_text-Takes : {k : ℕ} → Takes k k parse_service_text
unfolding parse_service_text
service_text-Takes = search keep_rules depth 30

service_name-Takes : {k : ℕ} → Takes k k parse_service_name_expr
unfolding parse_service_name_expr
service_name-Takes = search (keep_rules, service_text-Takes, node_with_comments-Takes) depth 30

service_server-Takes : (k : ℕ) → Takes (suc k) (suc k) (parse_service_server k)
unfolding parse_service_server
service_server-Takes k = search (move_rules, at_server_stmt-Eats) depth 30

service-Eats : (k : ℕ) → Takes (suc k) k (parse_service k)
unfolding parse_service
service-Eats k =
    Takes-bind (service_server-Takes k)
      λ server. search (move_rules, service_name-Takes, service_items-Takes) depth 40

import_values-Takes : (k : ℕ) (vs : List Node) → Takes k k (parse_import_values k vs)
unfolding parse_import_values
import_values-Takes zero vs = Takes-none _ _
import_values-Takes (suc n) vs = let ih = import_values-Takes n in search (move_rules, ih) depth 30

import_stmt-Eats : (k : ℕ) → Takes (suc k) k (parse_import_stmt k)
unfolding parse_import_stmt parse_import_group_stmt parse_import_literal_stmt
import_stmt-Eats k = search (move_rules, import_values-Takes) depth 40

info_stmt-Eats : (k : ℕ) → Takes (suc k) k (parse_info_stmt k)
unfolding parse_info_stmt
info_stmt-Eats k = search (move_rules, kv_expressions-Takes) depth 40

syntax_stmt-Eats : {k : ℕ} → Takes (suc k) k parse_syntax_stmt
unfolding parse_syntax_stmt
syntax_stmt-Eats = search move_rules depth 40

stmt-Eats : (k : ℕ) → Takes (suc k) k (parse_stmt k)
unfolding parse_stmt parse_ident_stmt
stmt-Eats k =
    search
      (move_rules, syntax_stmt-Eats, info_stmt-Eats, service-Eats, type_stmt-Eats, import_stmt-Eats)
      depth 40

stmts-Takes : (k : ℕ) → Takes k k (parse_stmts k)
unfolding parse_stmts
stmts-Takes zero = Takes-none _ _
stmts-Takes (suc n) =
    let ih : Takes n n (parse_stmts n) = stmts-Takes n in search (move_rules, stmt-Eats) depth 30

whole-Takes : (k : ℕ) → Takes k k (parse k)
unfolding parse
whole-Takes k = search (keep_rules, stmts-Takes) depth 30

After-over : {A : Type 0} (j k : ℕ) (r : Result A) → After j k r → r ≢ diverged
After-over j k r g e = absurd (rw e at g)

-- On a scanner that `NewScanner` returns for a text, `Parse` with any fuel above the length of the
-- text plus two ends: no loop and no nested data type of it is cut off, whatever the text is. It
-- returns a tree, returns nil, or panics.
pub parse_over :
    (filename text : Text) {s : Scanner} (n : ℕ)
    → new_scanner filename text ≡ some s
    → length text + 2 < n
    → parse n (new_parser s) ≢ diverged
parse_over filename text {s} n e h =
    let v = new_scanner-IsValid filename text e in
    After-over n n (parse n (new_parser s))
      ((whole-Takes n).at (new_parser s) v.0 (rw (v.2) (omega (arith, v.0.sized, ap length v.1))))
