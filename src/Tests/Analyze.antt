-- ===== src/Tests/Analyze.antt =====
-- The analyzer of pkg/parser/api/parser/analyzer.go on small files.
use goctl.Analyzer.Convert.{ast_type_to_spec}
use goctl.Analyzer.Fill.{exprs_of, fill_type_exprs, fill_types}
use goctl.Analyzer.Formed.{IsFormed, ast_type_to_spec-IsFormed}
use goctl.Analyzer.Kind.{is_base_type}
use goctl.Analyzer.Resolved.{fill_types-returns}
use goctl.Analyzer.Service.{Group, fill_service, no_doc}
use goctl.Analyzer.ServiceName.{HasName, fill_service_names}
use goctl.Analyzer.Spec.{
  SpecType, define_struct, array_of, pointer_to, primitive_type, no_members, member,
}
use goctl.Api.Checks.{import_nodes, type_names, texts_of}
use goctl.Api.Convert.{Api, default_syntax}
use goctl.Api.Errors.{returns}
use goctl.Api.Post.{Post}
use goctl.Api.Resolve.{names_in_stmts}
use goctl.Api.SelfCheck.{IsChecked}
use goctl.Ast.{
  TokenNode, DataType, BodyExpr, ServiceItemStmt, ServiceStmt, base_type, slice_type, pointer_type,
  struct_type, no_elems, elem, type_literal,
}
use goctl.Ast.Nodes.{new_token_node, contains_struct, join}
use goctl.Base.{ℕ, ◌≡◌, refl, ◌⊎◌, inl, inr, false, List, [], ◌∷◌, none, some, Text, codes, All}
use goctl.Token.Kind.{ident}
use goctl.Token.Tables.{has_text}

abbrev word_at : Text → ℕ → TokenNode
word_at s l = new_token_node (record {
  type = ident;
  text = s;
  position = record { filename = codes "a.api"; line = l; column = 1 };
})

-- type Req { Next Req; Tags []*string }
abbrev fields : DataType
fields =
    struct_type none
      (elem (some (word_at (codes "Next") 2) ∷ []) (base_type (some (word_at (codes "Req") 2))) none
        (elem (some (word_at (codes "Tags") 3) ∷ [])
          (slice_type none none (pointer_type none (base_type (some (word_at (codes "string") 3)))))
          none no_elems))
      none

abbrev file : Api
file = record {
  filename = codes "a.api";
  syntax = default_syntax;
  info = none;
  import_stmt = [];
  type_stmt =
      type_literal none
        (record { name = some (word_at (codes "Req") 1); assign = none; data_type = fields })
      ∷ [];
  service_stmts = [];
}

abbrev written : DataType → Text
written d = codes "T"

abbrev req_type : SpecType
req_type = define_struct (codes "Req") (
    member (codes "Next") (define_struct (codes "Req") no_members) [] false (
      member (codes "Tags")
        (array_of (codes "T") (pointer_to (codes "T") (primitive_type (codes "string")))) [] false
        no_members))

ast_type_to_spec-IsFormed_example : Post IsFormed (ast_type_to_spec written fields)
ast_type_to_spec-IsFormed_example = ast_type_to_spec-IsFormed written fields

file-IsChecked : IsChecked file
unfolding is_base_type texts_of import_nodes type_names names_in_stmts has_text
file-IsChecked = (
  ([], refl, tt),
  ([], refl, tt),
  (word_at (codes "Req") 1 ∷ [], refl, (tt, tt)),
  (
    codes "Req" ∷ [],
    refl,
    ((word_at (codes "Req") 2, refl, inr refl), ((word_at (codes "string") 3, refl, inl refl), tt)),
  ),
)

fill_types-returns_example : (us : List SpecType) × (fill_types written file ≡ returns us)
unfolding fill_type_exprs exprs_of is_base_type contains_struct join
fill_types-returns_example = fill_types-returns written file (req_type ∷ []) file-IsChecked refl

-- get /ping, with the handler `ping`.
abbrev ping : ServiceItemStmt
ping = record {
  at_doc = none;
  at_handler = some (record { at_handler = none; name = some (word_at (codes "ping") 6) });
  route = some (record {
    method = some (word_at (codes "get") 7);
    path = some (word_at (codes "/ping") 7);
    request = none;
    returns = none;
    response = none;
  });
}

abbrev shop : ServiceStmt
shop = record {
  at_server = none;
  service = none;
  name = some (word_at (codes "shop") 5);
  lbrace = none;
  routes = ping ∷ [];
  rbrace = none;
}

abbrev ping_group : Group
ping_group = record {
  annotation = [];
  routes =
      record {
        method = codes "get";
        path = codes "/ping";
        request_type = none;
        response_type = none;
        handler = codes "ping";
        at_doc = no_doc;
      }
      ∷ [];
}

abbrev body_text : BodyExpr → Text
body_text b = codes "T"

abbrev name_text : TokenNode → Text
name_text t = t.token.text

fill_service_names_example :
    All
      (λ s. (s.routes ≡ []) ⊎ HasName body_text name_text [] s.name (codes "shop"))
      (shop ∷ shop ∷ [])
unfolding fill_service
fill_service_names_example =
    fill_service_names body_text name_text [] (shop ∷ shop ∷ [])
      (ping_group ∷ ping_group ∷ [], codes "shop") refl
