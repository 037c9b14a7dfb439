-- ===== src/Api/Duplicates.antt =====
-- The checks for duplicates in pkg/parser/api/parser/api.go report exactly the texts that stand at
-- two places.
use mathlib.Core.Path.{fun_ext}
use goctl.Api.Checks.{
  import_nodes, expr_names, type_names, check_imports, check_import_stmt, check_keys,
  check_info_stmt, check_expr_list, check_types, check_type_stmt,
}
use goctl.Api.Convert.{Api, InfoStmt}
use goctl.Api.Errors.{returns}
use goctl.Api.Filter.{FilterBuilder, check_node_with_prefix, check}
use goctl.Api.Filtered.{AllUnique, check-append, check-AllUnique}
use goctl.Ast.{
  Node, TypeExpr, KvExpr, Stmt, type_literal, type_group, syntax_stmt, info_stmt, service_stmt,
  import_literal, import_group, comment_stmt,
}
use goctl.Base.{◌≡◌, refl, ◌↔◌, List, [], ◌∷◌, Option, none, some}

check_imports-check :
    (ss : List Stmt) (b : FilterBuilder) → check_imports ss b ≡ check (import_nodes ss) b
unfolding check_imports import_nodes
check_imports-check [] b = unfold check check_node_with_prefix in refl
check_imports-check (import_literal i v ∷ ss) b =
    rw (fun_ext (check_imports-check ss)) (check-append (v ∷ []) (import_nodes ss) b)
check_imports-check (import_group i l vs r ∷ ss) b =
    rw (fun_ext (check_imports-check ss)) (check-append vs (import_nodes ss) b)
check_imports-check (syntax_stmt _ _ _ ∷ ss) b = check_imports-check ss b
check_imports-check (info_stmt _ _ _ _ ∷ ss) b = check_imports-check ss b
check_imports-check (service_stmt _ ∷ ss) b = check_imports-check ss b
check_imports-check (type_literal _ _ ∷ ss) b = check_imports-check ss b
check_imports-check (type_group _ _ _ _ ∷ ss) b = check_imports-check ss b
check_imports-check (comment_stmt _ ∷ ss) b = check_imports-check ss b

check_expr_list-check :
    (es : List TypeExpr) (b : FilterBuilder) → check_expr_list es b ≡ check (expr_names es) b
unfolding check_expr_list expr_names
check_expr_list-check [] b = unfold check check_node_with_prefix in refl
check_expr_list-check (e ∷ es) b =
    rw (fun_ext (check_expr_list-check es)) (check-append (e.name ∷ []) (expr_names es) b)

check_types-check :
    (ss : List Stmt) (b : FilterBuilder) → check_types ss b ≡ check (type_names ss) b
unfolding check_types type_names
check_types-check [] b = unfold check check_node_with_prefix in refl
check_types-check (type_literal n e ∷ ss) b =
    rw (fun_ext (check_types-check ss)) (check-append (e.name ∷ []) (type_names ss) b)
check_types-check (type_group n l es r ∷ ss) b =
    rw (fun_ext (check_types-check ss), check_expr_list-check es b)
      (check-append (expr_names es) (type_names ss) b)
check_types-check (syntax_stmt _ _ _ ∷ ss) b = check_types-check ss b
check_types-check (info_stmt _ _ _ _ ∷ ss) b = check_types-check ss b
check_types-check (service_stmt _ ∷ ss) b = check_types-check ss b
check_types-check (import_literal _ _ ∷ ss) b = check_types-check ss b
check_types-check (import_group _ _ _ _ ∷ ss) b = check_types-check ss b
check_types-check (comment_stmt _ ∷ ss) b = check_types-check ss b

abbrev pub keys_of : List KvExpr → List Node
keys_of [] = []
keys_of (kv ∷ kvs) = kv.key ∷ keys_of kvs

check_keys-check :
    (kvs : List KvExpr) (b : FilterBuilder) → check_keys kvs b ≡ check (keys_of kvs) b
unfolding check_keys
check_keys-check [] b = unfold check check_node_with_prefix in refl
check_keys-check (kv ∷ kvs) b =
    rw (fun_ext (check_keys-check kvs)) (check-append (kv.key ∷ []) (keys_of kvs) b)

pub check_import_stmt_iff :
    (api : Api) → (check_import_stmt api ≡ returns tt) ↔ AllUnique (import_nodes api.import_stmt)
unfolding check_import_stmt
check_import_stmt_iff api =
    rw (fun_ext (check_imports-check api.import_stmt)) (check-AllUnique _ _ _)

pub check_type_stmt_iff :
    (api : Api) → (check_type_stmt api ≡ returns tt) ↔ AllUnique (type_names api.type_stmt)
unfolding check_type_stmt
check_type_stmt_iff api = rw (fun_ext (check_types-check api.type_stmt)) (check-AllUnique _ _ _)

-- The keys of the info statement, if there is one.
abbrev pub info_keys : Option InfoStmt → List Node
info_keys none = []
info_keys (some i) = keys_of i.values

check_info_stmt-by_info :
    (api : Api) (o : Option InfoStmt)
    → api.info ≡ o
    → (check_info_stmt api ≡ returns tt) ↔ AllUnique (info_keys o)
unfolding check_info_stmt
check_info_stmt-by_info api none h = rw (h, check_info_stmt) (λ _. ([], refl, tt), λ _. refl)
check_info_stmt-by_info api (some i) h =
    rw (h, check_info_stmt, fun_ext (check_keys-check i.values)) (check-AllUnique _ _ _)

pub check_info_stmt_iff :
    (api : Api) → (check_info_stmt api ≡ returns tt) ↔ AllUnique (info_keys api.info)
check_info_stmt_iff api = check_info_stmt-by_info api api.info refl

-- `checkImportStmt`, `checkInfoStmt` and `checkTypeStmt` each return nil exactly if the nodes that
-- they check, those of the imported paths, of the info keys and of the type names, are not nil and
-- no text stands at two different places among them.
pub check_stmts_iff :
    (api : Api)
    → ((check_import_stmt api ≡ returns tt) ↔ AllUnique (import_nodes api.import_stmt))
      × ((check_info_stmt api ≡ returns tt) ↔ AllUnique (info_keys api.info))
      × ((check_type_stmt api ≡ returns tt) ↔ AllUnique (type_names api.type_stmt))
check_stmts_iff api = (check_import_stmt_iff api, check_info_stmt_iff api, check_type_stmt_iff api)
