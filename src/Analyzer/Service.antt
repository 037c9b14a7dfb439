-- ===== src/Analyzer/Service.antt =====
-- `fillService`, `fillRouteType`, `convertKV`, `convertAtDoc` and `fillInfo` of
-- pkg/parser/api/parser/analyzer.go. The texts that the `Writer` prints are parameters.
use goctl.Analyzer.Fill.{lookup_struct, get_type}
use goctl.Analyzer.Spec.{SpecType}
use goctl.Api.Errors.{Run, returns, fails, refused, many_service_names, ◌>>=◌, deref}
use goctl.Ast.{
  TokenNode, Node, KvExpr, BodyExpr, BodyStmt, AtDocStmt, doc_literal, doc_group, AtHandlerStmt,
  AtServerStmt, ServiceItemStmt, ServiceStmt,
}
use goctl.Ast.Nodes.{raw_text, trim_last}
use goctl.Base.{
  Bool, true, false, not, ◌&&◌, List, [], ◌∷◌, Option, none, some, Text, codes, text_eq,
  if◌then◌else◌,
}

-- A Go map of texts, with one entry for each key.
abbrev pub Properties : Type 0
Properties = List (Text × Text)

pub record AtDoc : Type 0 where
  pub properties : Properties
  pub text : Text

-- `Route` of api/spec/spec.go, without documents and comments.
pub record Route : Type 0 where
  pub method : Text
  pub path : Text
  pub request_type : Option SpecType
  pub response_type : Option SpecType
  pub handler : Text
  pub at_doc : AtDoc

pub record Group : Type 0 where
  pub annotation : Properties
  pub routes : List Route

unfoldable pub put_property : Text → Text → Properties → Properties
unfolding text_eq
put_property k v [] = (k, v) ∷ []
put_property k v ((j, w) ∷ m) = if text_eq j k then (j, v) ∷ m else (j, w) ∷ put_property k v m

-- `convertKV`, the loop with its map.
unfoldable pub convert_kv : List KvExpr → Properties → Run Properties
unfolding put_property raw_text trim_last text_eq
convert_kv [] m = returns m
convert_kv (kv ∷ kvs) m = do
  k ← deref kv.key
  v ← deref kv.value
  let key = trim_last b':' k.token.text
  let value = if text_eq key (codes "summary") then raw_text v else v.token.text
  convert_kv kvs (put_property key value m)

-- The properties of `fillInfo`, before the keys are put in title case.
unfoldable pub info_properties : List KvExpr → Properties → Run Properties
unfolding put_property raw_text trim_last
info_properties [] m = returns m
info_properties (kv ∷ kvs) m = do
  k ← deref kv.key
  v ← deref kv.value
  info_properties kvs (put_property (trim_last b':' k.token.text) (raw_text v) m)

abbrev pub no_doc : AtDoc
no_doc = record { properties = []; text = [] }

unfoldable pub convert_at_doc : Option AtDocStmt → Run AtDoc
unfolding convert_kv
convert_at_doc none = returns no_doc
convert_at_doc (some (doc_literal d v)) =
    deref v >>= λ t. returns (record no_doc { text = t.token.text })
convert_at_doc (some (doc_group d l kvs r)) =
    convert_kv kvs [] >>= λ m. returns (record no_doc { properties = m })

abbrev handler_text : Option AtHandlerStmt → Run Text
handler_text none = returns []
handler_text (some h) = deref h.name >>= λ t. returns t.token.text

abbrev pub annotation_of : Option AtServerStmt → Run Properties
annotation_of none = returns []
annotation_of (some s) = convert_kv s.values []

abbrev body_of : Option BodyStmt → Option BodyExpr
body_of none = none
body_of (some b) = b.body

module _ (body_text : BodyExpr → Text) (name_text : TokenNode → Text) (ts : List SpecType) where
  unfoldable pub body_type : Option BodyExpr → Bool → Run (Option SpecType)
  unfolding get_type
  body_type none req = returns none
  body_type (some b) req = get_type body_text ts b req >>= λ t. returns (some t)

  -- One of the two tests of `fillRouteType`.
  unfoldable pub fill_route_type : Option SpecType → Run (Option SpecType)
  unfolding lookup_struct
  fill_route_type none = returns none
  fill_route_type (some t) = lookup_struct ts t >>= λ u. returns (some u)

  -- The route of one item.
  unfoldable pub fill_route : ServiceItemStmt → Run Route
  unfolding convert_at_doc body_type fill_route_type
  fill_route item = do
    r ← deref item.route
    method ← deref r.method
    path ← deref r.path
    doc ← convert_at_doc item.at_doc
    handler ← handler_text item.at_handler
    request ← body_type (body_of r.request) true
    response ← body_type (body_of r.response) false
    request' ← fill_route_type request
    response' ← fill_route_type response
    returns (record {
      method = method.token.text;
      path = path.token.text;
      request_type = request';
      response_type = response';
      handler = handler;
      at_doc = doc;
    })

  -- The name of the service of a route, against the name so far.
  unfoldable pub agree_name : Node → Text → Run Text
  unfolding text_eq
  agree_name n name = deref n >>= λ t.
      if not (text_eq name []) && not (text_eq name (name_text t))
      then fails (refused (many_service_names (name_text t) name) ∷ [])
      else returns (name_text t)

  unfoldable pub fill_routes : Node → List ServiceItemStmt → Text → Run (List Route × Text)
  unfolding fill_route agree_name
  fill_routes n [] name = returns ([], name)
  fill_routes n (item ∷ items) name = do
    route ← fill_route item
    name' ← agree_name n name
    (routes, last) ← fill_routes n items name'
    returns (route ∷ routes, last)

  unfoldable pub fill_service : List ServiceStmt → Text → Run (List Group × Text)
  unfolding fill_routes
  fill_service [] name = returns ([], name)
  fill_service (s ∷ ss) name = do
    m ← annotation_of s.at_server
    (routes, name') ← fill_routes s.name s.routes name
    (groups, last) ← fill_service ss name'
    returns (record { annotation = m; routes = routes } ∷ groups, last)
