-- ===== src/Api/Convert.antt =====
-- The `API` of pkg/parser/api/parser/api.go and `convert2API`.
use goctl.Api.Errors.{Run, returns, fails, panics, duplicate_stmt, ◌>>=◌, deref}
use goctl.Ast.{
  Node, KvExpr, ServiceStmt, Stmt, syntax_stmt, info_stmt, service_stmt, type_literal, type_group,
  import_literal, import_group, comment_stmt,
}
use goctl.Ast.Nodes.{new_token_node, pos}
use goctl.Base.{
  Bool, true, false, List, [], ◌∷◌, ◌++◌, Option, none, some, Text, codes, if◌then◌else◌,
}
use goctl.Token.Defs.{zero_position}
use goctl.Token.Kind.{TokenType, ident, assign, string}

pub record SyntaxStmt : Type 0 where
  pub syntax : Node
  pub assign : Node
  pub value : Node

pub record InfoStmt : Type 0 where
  pub info : Node
  pub lparen : Node
  pub values : List KvExpr
  pub rparen : Node

-- The stack and the set of imported files, which all the files of one run share, are the state of
-- Api/Import.
pub record Api : Type 0 where
  pub filename : Text
  pub syntax : SyntaxStmt
  pub info : Option InfoStmt
  pub import_stmt : List Stmt
  pub type_stmt : List Stmt
  pub service_stmts : List ServiceStmt

abbrev text_node : TokenType → Text → Node
text_node k s = some (new_token_node (record { type = k; text = s; position = zero_position }))

abbrev pub default_syntax : SyntaxStmt
default_syntax = record {
  syntax = text_node ident (codes "syntax");
  assign = text_node assign (codes "=");
  value = text_node string (codes "\"v1\"");
}

-- The type assertion on the first statement.
abbrev pub first_syntax : Stmt → SyntaxStmt
first_syntax (syntax_stmt s a v) = record { syntax = s; assign = a; value = v }
first_syntax _ = default_syntax

unfoldable pub duplicate {ℓ} : {A : Type ℓ} → Node → Text → Run A
duplicate n msg = do t ← deref n; fails (duplicate_stmt (pos t) msg ∷ [])

abbrev pub is_set : Option InfoStmt → Bool
is_set none = false
is_set (some _) = true

-- The loop over the statements, with `hasSyntax` and `hasInfo`.
unfoldable pub convert_stmts : List Stmt → Bool → Bool → Api → Run Api
unfolding duplicate
convert_stmts [] has_syntax has_info api = returns api
convert_stmts (syntax_stmt s a v ∷ ss) has_syntax has_info api =
    let rest = convert_stmts ss true has_info api in
    if has_syntax then duplicate s (codes "duplicate syntax statement") else rest
convert_stmts (info_stmt n l kvs r ∷ ss) has_syntax has_info api =
    let set = record api {
      info = some (record { info = n; lparen = l; values = kvs; rparen = r });
    } in
    let rest = convert_stmts ss has_syntax (if is_set api.info then has_info else true) set in
    if is_set api.info
    then (if has_info then duplicate n (codes "duplicate info statement") else rest)
    else rest
convert_stmts (import_literal i v ∷ ss) has_syntax has_info api =
    convert_stmts ss has_syntax has_info
      (record api { import_stmt = api.import_stmt ++ import_literal i v ∷ [] })
convert_stmts (import_group i l vs r ∷ ss) has_syntax has_info api =
    convert_stmts ss has_syntax has_info
      (record api { import_stmt = api.import_stmt ++ import_group i l vs r ∷ [] })
convert_stmts (type_literal n e ∷ ss) has_syntax has_info api =
    convert_stmts ss has_syntax has_info
      (record api { type_stmt = api.type_stmt ++ type_literal n e ∷ [] })
convert_stmts (type_group n l es r ∷ ss) has_syntax has_info api =
    convert_stmts ss has_syntax has_info
      (record api { type_stmt = api.type_stmt ++ type_group n l es r ∷ [] })
convert_stmts (service_stmt s ∷ ss) has_syntax has_info api =
    convert_stmts ss has_syntax has_info
      (record api { service_stmts = api.service_stmts ++ s ∷ [] })
convert_stmts (comment_stmt c ∷ ss) has_syntax has_info api =
    convert_stmts ss has_syntax has_info api

-- `convert2API`. A file with no statement panics at `a.Stmts[0]`.
unfoldable pub convert2api : Text → List Stmt → Run Api
unfolding convert_stmts
convert2api filename [] = panics
convert2api filename (one ∷ ss) = convert_stmts (one ∷ ss) false false (record {
  filename = filename;
  syntax = first_syntax one;
  info = none;
  import_stmt = [];
  type_stmt = [];
  service_stmts = [];
})
