-- ===== src/Api/Checks.antt =====
-- The checks of the imports, the info statement and the types of a file in
-- pkg/parser/api/parser/api.go.
use goctl.Analyzer.Kind.{is_base_type}
use goctl.Api.Convert.{Api}
use goctl.Api.Errors.{Problem, Run, returns, fails, unresolved_type, ◌>>=◌, deref, add, error}
use goctl.Api.Filter.{FilterBuilder, new_builder, check, filter_error}
use goctl.Ast.{
  Node, DataType, Elems, any_type, array_type, base_type, interface_type, map_type, pointer_type,
  slice_type, struct_type, no_elems, elem, TypeExpr, KvExpr, Stmt, type_literal, type_group,
  import_literal, import_group,
}
use goctl.Ast.Nodes.{pos}
use goctl.Base.{List, [], ◌∷◌, ◌++◌, none, some, Text, codes, if◌then◌else◌}
use goctl.Token.Tables.{has_text}

-- The nodes that the checks pass to the builder, in the order of the calls.
unfoldable pub import_nodes : List Stmt → List Node
import_nodes [] = []
import_nodes (import_literal i v ∷ ss) = v ∷ import_nodes ss
import_nodes (import_group i l vs r ∷ ss) = vs ++ import_nodes ss
import_nodes (_ ∷ ss) = import_nodes ss

unfoldable pub expr_names : List TypeExpr → List Node
expr_names [] = []
expr_names (e ∷ es) = e.name ∷ expr_names es

unfoldable pub type_names : List Stmt → List Node
unfolding expr_names
type_names [] = []
type_names (type_literal n e ∷ ss) = e.name ∷ type_names ss
type_names (type_group n l es r ∷ ss) = expr_names es ++ type_names ss
type_names (_ ∷ ss) = type_names ss

unfoldable pub check_imports : List Stmt → FilterBuilder → Run FilterBuilder
unfolding check
check_imports [] b = returns b
check_imports (import_literal i v ∷ ss) b = do b' ← check (v ∷ []) b; check_imports ss b'
check_imports (import_group i l vs r ∷ ss) b = do b' ← check vs b; check_imports ss b'
check_imports (_ ∷ ss) b = check_imports ss b

unfoldable pub check_import_stmt : Api → Run (Unit {0})
unfolding check_imports filter_error
check_import_stmt api = do
  b ← check_imports api.import_stmt (new_builder api.filename (codes "import value expression"))
  filter_error (b ∷ [])

unfoldable pub check_keys : List KvExpr → FilterBuilder → Run FilterBuilder
unfolding check
check_keys [] b = returns b
check_keys (kv ∷ kvs) b = do b' ← check (kv.key ∷ []) b; check_keys kvs b'

unfoldable pub check_info_stmt : Api → Run (Unit {0})
unfolding check_keys filter_error
check_info_stmt api = elim api.info [
  | none ↦ returns tt
  | some i ↦ (do
    b ← check_keys i.values (new_builder api.filename (codes "info key expression"))
    filter_error (b ∷ []))
]

unfoldable pub check_expr_list : List TypeExpr → FilterBuilder → Run FilterBuilder
unfolding check
check_expr_list [] b = returns b
check_expr_list (e ∷ es) b = do b' ← check (e.name ∷ []) b; check_expr_list es b'

unfoldable pub check_types : List Stmt → FilterBuilder → Run FilterBuilder
unfolding check check_expr_list
check_types [] b = returns b
check_types (type_literal n e ∷ ss) b = do b' ← check (e.name ∷ []) b; check_types ss b'
check_types (type_group n l es r ∷ ss) b = do b' ← check_expr_list es b; check_types ss b'
check_types (_ ∷ ss) b = check_types ss b

unfoldable pub check_type_stmt : Api → Run (Unit {0})
unfolding check_types filter_error
check_type_stmt api = do
  b ← check_types api.type_stmt (new_builder api.filename (codes "type expression"))
  filter_error (b ∷ [])

-- `checkTypeExprContext`, its errors added one by one.
unfoldable mutual
  pub check_type_expr : List Text → DataType → Run (Unit {0})
  check_type_expr ds (any_type _) = returns tt
  check_type_expr ds (array_type _ _ _ d) = check_type_expr ds d
  check_type_expr ds (base_type n) = deref n >>= λ t.
      if is_base_type t.token.text
      then returns tt
      else if has_text ds t.token.text
      then returns tt
      else fails (unresolved_type (pos t) t.token.text ∷ [])
  check_type_expr ds (interface_type _) = returns tt
  check_type_expr ds (map_type _ _ k _ v) = do
    e ← add [] (check_type_expr ds k)
    e' ← add e (check_type_expr ds v)
    error e'
  check_type_expr ds (pointer_type _ d) = check_type_expr ds d
  check_type_expr ds (slice_type _ _ d) = check_type_expr ds d
  check_type_expr ds (struct_type _ es _) = do e ← check_elems ds es []; error e

  pub check_elems : List Text → Elems → List Problem → Run (List Problem)
  check_elems ds no_elems e = returns e
  check_elems ds (elem _ d _ es) e = do e' ← add e (check_type_expr ds d); check_elems ds es e'

unfoldable pub check_exprs : List Text → List TypeExpr → List Problem → Run (List Problem)
unfolding check_type_expr add
check_exprs ds [] e = returns e
check_exprs ds (x ∷ xs) e = do e' ← add e (check_type_expr ds x.data_type); check_exprs ds xs e'

unfoldable pub check_type_stmts : List Text → List Stmt → List Problem → Run (List Problem)
unfolding check_type_expr check_exprs add
check_type_stmts ds [] e = returns e
check_type_stmts ds (type_literal n x ∷ ss) e = do
  e' ← add e (check_type_expr ds x.data_type)
  check_type_stmts ds ss e'
check_type_stmts ds (type_group n l xs r ∷ ss) e = do
  e' ← check_exprs ds xs e
  check_type_stmts ds ss e'
check_type_stmts ds (_ ∷ ss) e = check_type_stmts ds ss e

-- `checkTypeContext`.
unfoldable pub check_type_context : List Text → List Stmt → Run (Unit {0})
unfolding check_type_stmts error
check_type_context ds ss = do e ← check_type_stmts ds ss []; error e

-- The keys of `typeMap`.
unfoldable pub texts_of : List Node → Run (List Text)
texts_of [] = returns []
texts_of (n ∷ ns) = do t ← deref n; ts ← texts_of ns; returns (t.token.text ∷ ts)

-- `checkTypeDeclareContext`.
unfoldable pub check_type_declare_context : Api → Run (Unit {0})
unfolding type_names texts_of check_type_context
check_type_declare_context api = do
  ds ← texts_of (type_names api.type_stmt)
  check_type_context ds api.type_stmt
