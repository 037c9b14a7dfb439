-- ===== src/Tests/Checks.antt =====
-- The checks of pkg/parser/api/parser/api.go on small files.
use goctl.Analyzer.Kind.{is_base_type}
use goctl.Api.Checks.{
  check_import_stmt, check_info_stmt, check_type_stmt, check_type_declare_context,
  check_type_context, check_type_stmts, check_type_expr, check_exprs, import_nodes, type_names,
  texts_of,
}
use goctl.Api.ServiceChecks.{check_service_stmt, check_services, trim_api_suffix}
use goctl.Api.Convert.{Api, convert2api, default_syntax, first_syntax}
use goctl.Api.Duplicates.{check_stmts_iff, info_keys}
use goctl.Api.Errors.{
  Problem, returns, fails, panics, duplicate_stmt, unresolved_type, ◌>>=◌, error,
}
use goctl.Api.Filter.{FilterBuilder, new_builder}
use goctl.Api.Gather.{
  convert2api_iff, count_syntax, count_info, is_import, is_type_stmt, only, services_of, info_of,
}
use goctl.Api.Import.{FilePath, Imports, parse_reverse}
use goctl.Api.Resolve.{names_in_stmts, problems, check_type_declare_context-problems}
use goctl.Api.SelfCheck.{self_check, self_check-IsChecked, IsChecked}
use goctl.Api.Services.{check_service_stmt_incomplete, check_services_names}
use goctl.Api.Filtered.{AllUnique}
use goctl.Ast.{
  TokenNode, TypeExpr, RouteStmt, ServiceItemStmt, ServiceStmt, Stmt, base_type, slice_type,
  struct_type, no_elems, elem, type_literal, type_group, import_literal,
}
use goctl.Ast.Nodes.{new_token_node, pos}
use goctl.Base.{false, ℕ, ◌≤◌, ◌≡◌, ◌↔◌, refl, inl, List, [], ◌∷◌, Option, none, some, Text, codes}
use goctl.Token.Defs.{Token}
use goctl.Token.Kind.{ident}
use goctl.Token.Tables.{has_text}

abbrev tok_at : Text → ℕ → TokenNode
tok_at s l = new_token_node (record {
  type = ident;
  text = s;
  position = record { filename = codes "a.api"; line = l; column = 1 };
})

-- type Req { Next []Req; Id Uid }, on line 1, and type Req { } on line 4.
abbrev req : TypeExpr
req = record {
  name = some (tok_at (codes "Req") 1);
  assign = none;
  data_type =
      struct_type none
        (elem (some (tok_at (codes "Next") 2) ∷ [])
          (slice_type none none (base_type (some (tok_at (codes "Req") 2)))) none
          (elem (some (tok_at (codes "Id") 3) ∷ []) (base_type (some (tok_at (codes "Uid") 3))) none
            no_elems))
        none;
}

abbrev again : TypeExpr
again = record {
  name = some (tok_at (codes "Req") 4);
  assign = none;
  data_type = struct_type none no_elems none;
}

-- A route without a handler.
abbrev bare_item : ServiceItemStmt
bare_item = record { at_doc = none; at_handler = none; route = none }

abbrev service_with : List ServiceItemStmt → ServiceStmt
service_with items = record {
  at_server = none;
  service = none;
  name = some (tok_at (codes "shop-api") 5);
  lbrace = none;
  routes = items;
  rbrace = none;
}

abbrev other_service : ServiceStmt
other_service = record (service_with []) { name = some (tok_at (codes "other") 9) }

abbrev small : Api
small = record {
  filename = codes "a.api";
  syntax = default_syntax;
  info = some (record {
    info = none;
    lparen = none;
    values = record { key = some (tok_at (codes "title:") 2); value = none } ∷ [];
    rparen = none;
  });
  import_stmt = import_literal none (some (tok_at (codes "\"b.api\"") 3)) ∷ [];
  type_stmt = type_literal none req ∷ type_group none none (again ∷ []) none ∷ [];
  service_stmts = service_with (bare_item ∷ []) ∷ [];
}

abbrev route_text : RouteStmt → Text
route_text r = codes "get /"

abbrev name_text : TokenNode → Text
name_text t = t.token.text

-- `Req` is declared twice, at two places.
duplicate_type :
    check_type_stmt small
    ≡ fails (
        duplicate_stmt
          (record { filename = codes "a.api"; line = 4; column = 1 })
          (codes "duplicate type expression")
        ∷ [])
unfolding check_type_stmt
duplicate_type = refl

-- `Uid` is not declared.
unresolved :
    check_type_declare_context small
    ≡ fails (
        unresolved_type (record { filename = codes "a.api"; line = 3; column = 1 }) (codes "Uid")
        ∷ [])
unfolding check_type_declare_context check_type_context check_type_stmts check_type_expr
    is_base_type check_exprs has_text pos
unresolved = refl

check_stmts_iff_example :
    ((check_import_stmt small ≡ returns tt) ↔ AllUnique (import_nodes small.import_stmt))
    × ((check_info_stmt small ≡ returns tt) ↔ AllUnique (info_keys small.info))
    × ((check_type_stmt small ≡ returns tt) ↔ AllUnique (type_names small.type_stmt))
check_stmts_iff_example = check_stmts_iff small

check_type_declare_context-problems_example : check_type_declare_context small ≡ (
    texts_of (type_names small.type_stmt) >>= λ ds.
    problems ds (names_in_stmts small.type_stmt) >>= error)
check_type_declare_context-problems_example = check_type_declare_context-problems small

check_service_stmt_incomplete_example : check_service_stmt route_text name_text small ≡ panics
check_service_stmt_incomplete_example =
    check_service_stmt_incomplete route_text name_text small (inl (inl (inl refl)))

abbrev fresh : FilterBuilder × FilterBuilder
fresh = (new_builder [] [], new_builder [] [])

-- Two services of different names are accepted.
check_services_names_example : ◌≡◌ {A = List Problem} [] []
unfolding check_services trim_api_suffix
check_services_names_example =
    check_services_names route_text name_text (service_with [] ∷ other_service ∷ []) fresh
      {res = ([], fresh.0, fresh.1)} refl

convert2api_iff_example :
    (convert2api (codes "a.api") small.type_stmt
      ≡ returns (record small { info = none; import_stmt = []; service_stmts = [] }))
    ↔ ((count_syntax small.type_stmt ≤ 1)
        × (count_info small.type_stmt ≤ 1)
        × (record small { info = none; import_stmt = []; service_stmts = [] } ≡ record {
          filename = codes "a.api";
          syntax = first_syntax (type_literal none req);
          info = info_of small.type_stmt;
          import_stmt = only is_import small.type_stmt;
          type_stmt = only is_type_stmt small.type_stmt;
          service_stmts = services_of small.type_stmt;
        }))
convert2api_iff_example =
    convert2api_iff (codes "a.api") (type_literal none req)
      (type_group none none (again ∷ []) none ∷ [])
      (record small { info = none; import_stmt = []; service_stmts = [] })

-- type Uid { }, in b.api.
abbrev uid_stmt : Stmt
uid_stmt = type_literal none (record {
  name = some (tok_at (codes "Uid") 1);
  assign = none;
  data_type = struct_type none no_elems none;
})

abbrev load : Text → Option (Text × List Stmt)
load path = some (codes "b.api", uid_stmt ∷ [])

-- Files without folders.
abbrev paths : FilePath
paths = record { is_abs = λ p. false; dir = λ f. codes "."; join = λ d p. p }

abbrev in_order : List (Text × Token) → List (Text × Token)
in_order m = m

abbrev start : Imports
start = record { stack = codes "a.api" ∷ []; set = [] }

abbrev clean : Api
clean = record small { type_stmt = type_literal none req ∷ []; service_stmts = [] }

abbrev merged : Api × Imports
merged = (
  record clean { type_stmt = type_literal none req ∷ uid_stmt ∷ [] },
  record start { set = codes "b.api" ∷ [] },
)

self_check-IsChecked_example :
    (parse_reverse load paths in_order 2 clean start ≡ returns merged) × IsChecked merged.0
unfolding self_check is_base_type check_type_context check_type_stmts check_type_expr has_text
self_check-IsChecked_example =
    self_check-IsChecked load paths in_order route_text name_text 2 clean start merged refl
