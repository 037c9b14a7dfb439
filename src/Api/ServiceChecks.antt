-- ===== src/Api/ServiceChecks.antt =====
-- `checkServiceStmt` of pkg/parser/api/parser/api.go. The text of a route or of a service name,
-- which the `Writer` prints through text/tabwriter, is a parameter.
use goctl.Api.Convert.{Api}
use goctl.Api.Errors.{Problem, Run, returns, multiple_service_name, ◌>>=◌, deref}
use goctl.Api.Filter.{FilterBuilder, find, new_builder, check, check_node_with_prefix, filter_error}
use goctl.Ast.{TokenNode, KvExpr, RouteStmt, AtServerStmt, ServiceItemStmt, ServiceStmt}
use goctl.Ast.Nodes.{new_token_node, pos}
use goctl.Base.{not, List, [], ◌∷◌, ◌++◌, Option, none, some, Text, codes, if◌then◌else◌, text_eq}
use goctl.Token.Kind.{token_bg}

-- `getAtServerValue`.
unfoldable pub server_value : List KvExpr → Text → Run Text
unfolding text_eq
server_value [] key = returns []
server_value (kv ∷ kvs) key = deref kv.key >>= λ k.
    if text_eq k.token.text key
    then (deref kv.value >>= λ v. returns v.token.text)
    else server_value kvs key

unfoldable pub get_at_server_value : Option AtServerStmt → Text → Run Text
unfolding server_value
get_at_server_value none key = returns []
get_at_server_value (some s) key = server_value s.values key

unfoldable pub trim_api_suffix : Text → Text
unfolding text_eq
trim_api_suffix [] = []
trim_api_suffix (c ∷ s) =
    let rest = trim_api_suffix s in if text_eq (c ∷ s) (codes "-api") then [] else c ∷ rest

module _ (route_text : RouteStmt → Text) (name_text : TokenNode → Text) where
  abbrev pub path_node : Text → RouteStmt → TokenNode → TokenNode
  path_node prefix r method = new_token_node (record {
    type = token_bg;
    text = codes "[" ++ (prefix ++ (codes "]:" ++ route_text r));
    position = pos method;
  })

  -- One round of the loop over the routes of a service, with the checkers of handlers and of paths.
  unfoldable pub check_item :
      Text
      → Text
      → ServiceItemStmt
      → FilterBuilder × FilterBuilder
      → Run (FilterBuilder × FilterBuilder)
  unfolding check check_node_with_prefix
  check_item prefix group item (handlers, paths) = do
    h ← deref item.at_handler
    handlers' ← check_node_with_prefix group (h.name ∷ []) handlers
    r ← deref item.route
    method ← deref r.method
    paths' ← check (some (path_node prefix r method) ∷ []) paths
    returns (handlers', paths')

  unfoldable pub check_routes :
      Text
      → Text
      → List ServiceItemStmt
      → FilterBuilder × FilterBuilder
      → Run (FilterBuilder × FilterBuilder)
  unfolding check_item
  check_routes prefix group [] bs = returns bs
  check_routes prefix group (item ∷ items) bs = do
    bs' ← check_item prefix group item bs
    check_routes prefix group items bs'

  -- `serviceName` is the map of the names met, with the errors of `serviceNameChecker`.
  unfoldable pub check_service_name :
      TokenNode → List (Text × Text) × List Problem → List (Text × Text) × List Problem
  unfolding find text_eq
  check_service_name t (names, errors) =
      let name = trim_api_suffix (name_text t) in
      elim (find name names) [
        | none ↦ ((name, name) ∷ names, errors)
        | some sn ↦
            if not (text_eq sn name)
            then (names, errors ++ multiple_service_name (pos t) ∷ [])
            else (names, errors)
      ]

  unfoldable pub check_services :
      List ServiceStmt
      → List (Text × Text) × List Problem
      → FilterBuilder × FilterBuilder
      → Run (List Problem × FilterBuilder × FilterBuilder)
  unfolding check_service_name get_at_server_value check_routes
  check_services [] (names, errors) (handlers, paths) = returns (errors, handlers, paths)
  check_services (s ∷ ss) met bs = do
    t ← deref s.name
    prefix ← get_at_server_value s.at_server (codes "prefix:")
    group ← get_at_server_value s.at_server (codes "group:")
    bs' ← check_routes prefix group s.routes bs
    check_services ss (check_service_name t met) bs'

  unfoldable pub check_service_stmt : Api → Run (Unit {0})
  unfolding check_services filter_error
  check_service_stmt api = do
    let names = new_builder api.filename (codes "service name expression")
    (errors, handlers, paths) ←
        check_services api.service_stmts ([], [])
          (
            new_builder api.filename (codes "handler expression"),
            new_builder api.filename (codes "path expression"),
          )
    filter_error (record names { error_manager = errors } ∷ handlers ∷ paths ∷ [])
