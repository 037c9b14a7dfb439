-- ===== src/Parser/RouteEnds.antt =====
-- Routes and key-value expressions of pkg/parser/api/parser/parser.go: what they read,
-- and their fuel.
use goctl.Base.{ℕ, zero, suc, ◌≤◌, ◌<◌, List, [], ◌∷◌, Text, none, some, arith}
use goctl.Ast.{Node, KvExpr}
use goctl.Parser.Measure.{
  After, Takes, Takes-none, Takes-crash, Takes-gets, Takes-option, Takes-bind, Takes-eat,
  Takes-pure, Takes-weaken,
}
use goctl.Parser.Moves.{move_rules, keep_rules, advance_if-Takes}
use goctl.Parser.Routes.{
  node_with_comments, parse_path_tokens, parse_path_item, parse_colon, parse_path_part,
  parse_path_values, path_node, parse_path_expr, parse_body_name, parse_body_value, parse_body_expr,
  parse_body_stmt, ignore, skip_semicolon, parse_request, parse_response, parse_route_bodies,
  parse_route_stmt,
}
use goctl.Parser.State.{Expected, Result, done, fail, panic, diverged, M, crash}
use goctl.Parser.Tokens.{advance_if}
use goctl.Parser.Values.{
  parse_separated, parse_slash_part, parse_list, parse_slash_parts, path_value, parse_token_value,
  parse_quo_value, parse_string_value, parse_ident_value, parse_at_server_value, parse_at_server_kv,
  parse_kv_expression, parse_kv_group,
}
use goctl.Token.Defs.{Token}
use goctl.Token.Kind.{TokenType}

pub node_with_comments-Takes : {k : ℕ} (tok : Token) → Takes k k (node_with_comments tok)
unfolding node_with_comments
node_with_comments-Takes tok =
    Takes-bind (Takes-gets _) λ n. Takes-option n _ crash (λ t. Takes-pure _) Takes-crash

separated-Eats : {k : ℕ} → Takes (suc k) k parse_separated
unfolding parse_separated
separated-Eats = search move_rules depth 12

pub kv_expression-Eats : {k : ℕ} → Takes (suc k) k parse_kv_expression
unfolding parse_kv_expression
kv_expression-Eats = search move_rules depth 12

path_tokens-Takes : (k : ℕ) (ts : List Token) → Takes k k (parse_path_tokens k ts)
unfolding parse_path_tokens
path_tokens-Takes zero ts = Takes-none _ _
path_tokens-Takes (suc n) ts = let ih = path_tokens-Takes n in search (move_rules, ih) depth 16

path_part-Takes : (k : ℕ) (ts : List Token) → Takes k k (parse_path_part k ts)
unfolding parse_path_part parse_path_item parse_colon
path_part-Takes k ts = search (move_rules, path_tokens-Takes) depth 24

path_values-Takes : (k : ℕ) (ts : List Token) → Takes k k (parse_path_values k ts)
unfolding parse_path_values
path_values-Takes zero ts = Takes-none _ _
path_values-Takes (suc n) ts =
    let ih = path_values-Takes n in search (move_rules, path_part-Takes, ih) depth 16

path_node-Takes : {k : ℕ} (ts : List Token) → Takes k k (path_node ts)
unfolding path_node
path_node-Takes [] = Takes-crash
path_node-Takes (t ∷ ts) = node_with_comments-Takes _

path_expr-Takes : (k : ℕ) → Takes k k (parse_path_expr k)
unfolding parse_path_expr
path_expr-Takes k = Takes-bind (path_values-Takes k []) path_node-Takes

body_stmt-Takes : {k : ℕ} → Takes k k parse_body_stmt
unfolding parse_body_stmt parse_body_expr parse_body_value parse_body_name
body_stmt-Takes = search move_rules depth 40

After-ignore :
    (k : ℕ) (r : Result (Unit {0}))
    → After k k r
    → After k k
        (elim r [ done a q ↦ done tt q | fail q ↦ done tt q | panic ↦ panic | diverged ↦ diverged ])
After-ignore k (done a q) g = g
After-ignore k (fail q) g = g
After-ignore k panic g = tt
After-ignore k diverged g = g

ignore-Takes : {k : ℕ} {m : M (Unit {0})} → Takes k k m → Takes k k (ignore m)
unfolding ignore
ignore-Takes {k} {m} r = record { at = λ p v h. After-ignore k (m p) (r.at p v h) }

route_bodies-Takes : {k : ℕ} (a b : Node) → Takes k k (parse_route_bodies a b)
unfolding parse_route_bodies parse_request parse_response skip_semicolon
route_bodies-Takes a b = search (move_rules, body_stmt-Takes, ignore-Takes) depth 40

pub route_stmt-Takes : (k : ℕ) → Takes k k (parse_route_stmt k)
unfolding parse_route_stmt
route_stmt-Takes k = search (move_rules, path_expr-Takes, route_bodies-Takes, ignore-Takes) depth 30

list-Takes : (n k : ℕ) (tp : TokenType) (text : Text) → k ≤ n → Takes k k (parse_list n tp text)
unfolding parse_list
list-Takes n zero tp text h = Takes-none _ _
list-Takes zero (suc k) tp text h = absurd (omega arith)
list-Takes (suc n) (suc k) tp text h =
    let ih : (t : Text) → Takes k k (parse_list n tp t) = λ t. list-Takes n k tp t (omega arith) in
    search (move_rules, separated-Eats) depth 20

separated-Takes : {k : ℕ} → Takes k k parse_separated
unfolding parse_separated
separated-Takes = search keep_rules depth 12

slash_part-Eats : {k : ℕ} → Takes (suc k) k parse_slash_part
unfolding parse_slash_part
slash_part-Eats = Takes-eat separated-Eats λ part. search (keep_rules, separated-Takes) depth 20

slash_parts-Takes : (n k : ℕ) (text : Text) → k ≤ n → Takes k k (parse_slash_parts n text)
unfolding parse_slash_parts
slash_parts-Takes n zero text h = Takes-none _ _
slash_parts-Takes zero (suc k) text h = absurd (omega arith)
slash_parts-Takes (suc n) (suc k) text h =
    let ih : (t : Text) → Takes k k (parse_slash_parts n t) =
      λ t. slash_parts-Takes n k t (omega arith) in
    search (move_rules, slash_part-Eats) depth 20

token_value-Takes : {k : ℕ} → Takes k k parse_token_value
unfolding parse_token_value
token_value-Takes = search (move_rules, node_with_comments-Takes) depth 20

string_value-Takes : {k : ℕ} (n : Node) → Takes k k (parse_string_value n)
unfolding parse_string_value
string_value-Takes none = Takes-crash
string_value-Takes (some k) = search (move_rules, token_value-Takes) depth 20

at_server_value-Takes :
    (n k : ℕ) (key_node : Node) → k ≤ n → Takes k k (parse_at_server_value n key_node)
unfolding parse_at_server_value parse_quo_value parse_ident_value path_value
at_server_value-Takes n zero key_node h = Takes-none _ _
at_server_value-Takes n (suc k) key_node h =
    let list : (tp : TokenType) (t : Text) → Takes (suc k) (suc k) (parse_list n tp t) =
      λ tp t. list-Takes n (suc k) tp t h in
    let parts : (t : Text) → Takes (suc k) (suc k) (parse_slash_parts n t) =
      λ t. slash_parts-Takes n (suc k) t h in
    let part : Takes (suc k) (suc k) parse_slash_part = Takes-weaken slash_part-Eats in
    let start : (es : List Expected) → Takes (suc k) (suc k) (advance_if es) =
      λ es. advance_if-Takes es in
    search (keep_rules, node_with_comments-Takes, token_value-Takes, string_value-Takes) depth 40

pub at_server_kv-Eats : (n k : ℕ) → k ≤ n → Takes (suc k) k (parse_at_server_kv n)
unfolding parse_at_server_kv
at_server_kv-Eats n k h =
    let value : (key_node : Node) → Takes k k (parse_at_server_value n key_node) =
      λ key_node. at_server_value-Takes n k key_node h in
    search move_rules depth 20

pub kv_group-Takes :
    (m : M KvExpr) (n : ℕ) (es : List KvExpr)
    → ((k : ℕ) → k < n → Takes (suc k) k m)
    → Takes n n (parse_kv_group m n es)
unfolding parse_kv_group
kv_group-Takes m zero es r = Takes-none _ _
kv_group-Takes m (suc n) es r =
    let one : Takes (suc n) n m = r n (omega arith) in
    let ih : (l : List KvExpr) → Takes n n (parse_kv_group m n l) =
      λ l. kv_group-Takes m n l (λ k h. r k (omega (arith, h))) in
    search move_rules depth 20
