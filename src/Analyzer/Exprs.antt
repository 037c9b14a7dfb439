-- ===== src/Analyzer/Exprs.antt =====
-- The names of the statements are those of the type expressions that `fillTypes` of
-- pkg/parser/api/parser/analyzer.go walks over.
use goctl.Analyzer.Fill.{exprs_of}
use goctl.Api.Checks.{expr_names, type_names}
use goctl.Api.Resolve.{names_in, names_in_exprs, names_in_stmts}
use goctl.Ast.{
  TypeExpr, Stmt, type_literal, type_group, syntax_stmt, info_stmt, service_stmt, import_literal,
  import_group, comment_stmt,
}
use goctl.Base.{◌≡◌, refl, sym, ap, List, [], ◌∷◌, ◌++◌, append_assoc}

expr_names-append : (xs ys : List TypeExpr) → expr_names (xs ++ ys) ≡ expr_names xs ++ expr_names ys
unfolding expr_names
expr_names-append [] ys = refl
expr_names-append (x ∷ xs) ys = ap (◌∷◌ x.name) (expr_names-append xs ys)

pub type_names-exprs_of : (ss : List Stmt) → type_names ss ≡ expr_names (exprs_of ss)
unfolding type_names exprs_of expr_names
type_names-exprs_of [] = refl
type_names-exprs_of (type_literal n x ∷ ss) = ap (◌∷◌ x.name) (type_names-exprs_of ss)
type_names-exprs_of (type_group n l xs r ∷ ss) =
    rw (type_names-exprs_of ss) (sym (expr_names-append xs (exprs_of ss)))
type_names-exprs_of (syntax_stmt _ _ _ ∷ ss) = type_names-exprs_of ss
type_names-exprs_of (info_stmt _ _ _ _ ∷ ss) = type_names-exprs_of ss
type_names-exprs_of (service_stmt _ ∷ ss) = type_names-exprs_of ss
type_names-exprs_of (import_literal _ _ ∷ ss) = type_names-exprs_of ss
type_names-exprs_of (import_group _ _ _ _ ∷ ss) = type_names-exprs_of ss
type_names-exprs_of (comment_stmt _ ∷ ss) = type_names-exprs_of ss

names_in_exprs-append :
    (xs ys : List TypeExpr) → names_in_exprs (xs ++ ys) ≡ names_in_exprs xs ++ names_in_exprs ys
unfolding names_in_exprs
names_in_exprs-append [] ys = refl
names_in_exprs-append (x ∷ xs) ys = simp (names_in_exprs-append xs ys, append_assoc)

pub names_in_stmts-exprs_of : (ss : List Stmt) → names_in_stmts ss ≡ names_in_exprs (exprs_of ss)
unfolding names_in_stmts exprs_of names_in_exprs
names_in_stmts-exprs_of [] = refl
names_in_stmts-exprs_of (type_literal n x ∷ ss) =
    ap (λ ns. names_in x.data_type ++ ns) (names_in_stmts-exprs_of ss)
names_in_stmts-exprs_of (type_group n l xs r ∷ ss) =
    rw (names_in_stmts-exprs_of ss) (sym (names_in_exprs-append xs (exprs_of ss)))
names_in_stmts-exprs_of (syntax_stmt _ _ _ ∷ ss) = names_in_stmts-exprs_of ss
names_in_stmts-exprs_of (info_stmt _ _ _ _ ∷ ss) = names_in_stmts-exprs_of ss
names_in_stmts-exprs_of (service_stmt _ ∷ ss) = names_in_stmts-exprs_of ss
names_in_stmts-exprs_of (import_literal _ _ ∷ ss) = names_in_stmts-exprs_of ss
names_in_stmts-exprs_of (import_group _ _ _ _ ∷ ss) = names_in_stmts-exprs_of ss
names_in_stmts-exprs_of (comment_stmt _ ∷ ss) = names_in_stmts-exprs_of ss
