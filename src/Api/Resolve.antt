-- ===== src/Api/Resolve.antt =====
-- The resolution of type names in pkg/parser/api/parser/api.go, against the list of the names.
use goctl.Analyzer.Kind.{is_base_type}
use goctl.Api.Checks.{
  check_type_expr, check_elems, check_exprs, check_type_stmts, check_type_context, texts_of,
  type_names, check_type_declare_context,
}
use goctl.Api.Convert.{Api}
use goctl.Api.Errors.{Problem, Run, returns, panics, unresolved_type, ◌>>=◌, deref, add, error}
use goctl.Api.Laws.{bind_assoc, bind-returns, add-error}
use goctl.Ast.{
  TokenNode, Node, DataType, Elems, any_type, array_type, base_type, interface_type, map_type,
  pointer_type, slice_type, struct_type, no_elems, elem, TypeExpr, Stmt, type_literal, type_group,
  syntax_stmt, info_stmt, service_stmt, import_literal, import_group, comment_stmt,
}
use goctl.Ast.Nodes.{pos}
use goctl.Base.{
  ◌≡◌, refl, sym, ◌⊎◌, Bool-cases, inl, inr, ◌||◌, List, [], ◌∷◌, ◌++◌, append-nil, append_assoc,
  none, some, Text, if◌then◌else◌,
}
use goctl.Token.Tables.{has_text}

-- The names that a type is made of, from left to right.
unfoldable mutual
  pub names_in : DataType → List Node
  names_in (any_type _) = []
  names_in (array_type _ _ _ d) = names_in d
  names_in (base_type n) = n ∷ []
  names_in (interface_type _) = []
  names_in (map_type _ _ k _ v) = names_in k ++ names_in v
  names_in (pointer_type _ d) = names_in d
  names_in (slice_type _ _ d) = names_in d
  names_in (struct_type _ es _) = names_in_elems es

  pub names_in_elems : Elems → List Node
  names_in_elems no_elems = []
  names_in_elems (elem _ d _ es) = names_in d ++ names_in_elems es

unfoldable pub names_in_exprs : List TypeExpr → List Node
unfolding names_in
names_in_exprs [] = []
names_in_exprs (x ∷ xs) = names_in x.data_type ++ names_in_exprs xs

unfoldable pub names_in_stmts : List Stmt → List Node
unfolding names_in names_in_exprs
names_in_stmts [] = []
names_in_stmts (type_literal n x ∷ ss) = names_in x.data_type ++ names_in_stmts ss
names_in_stmts (type_group n l xs r ∷ ss) = names_in_exprs xs ++ names_in_stmts ss
names_in_stmts (_ ∷ ss) = names_in_stmts ss

-- The problem with a name that is neither a base type nor declared.
unfoldable pub problem_with : List Text → TokenNode → List Problem
problem_with ds t =
    if is_base_type t.token.text || has_text ds t.token.text
    then []
    else unresolved_type (pos t) t.token.text ∷ []

-- The problems with all the names of a list, in its order; a nil name panics.
unfoldable pub problems : List Text → List Node → Run (List Problem)
unfolding problem_with
problems ds [] = returns []
problems ds (n ∷ ns) = deref n >>= λ t. problems ds ns >>= λ ps. returns (problem_with ds t ++ ps)

problems-append :
    (ds : List Text) (xs ys : List Node)
    → problems ds (xs ++ ys)
      ≡ (problems ds xs >>= λ ps. problems ds ys >>= λ qs. returns (ps ++ qs))
unfolding problems
problems-append ds [] ys = sym (bind-returns (problems ds ys))
problems-append ds (none ∷ xs) ys = refl
problems-append ds (some t ∷ xs) ys = simp (problems-append ds xs ys, bind_assoc, append_assoc)

pub problems-cases :
    (ds : List Text) (ns : List Node)
    → ((ps : List Problem) × (problems ds ns ≡ returns ps)) ⊎ (problems ds ns ≡ panics)
unfolding problems
problems-cases ds [] = inl ([], refl)
problems-cases ds (none ∷ ns) = inr refl
problems-cases ds (some t ∷ ns) = elim (problems-cases ds ns) [
  | inl (ps, e) ↦ inl (problem_with ds t ++ ps, rw e refl)
  | inr e ↦ inr (rw e refl)
]

add-problems :
    (ds : List Text) (ns : List Node) (e : List Problem)
    → add e (problems ds ns >>= error) ≡ (problems ds ns >>= λ ps. returns (e ++ ps))
unfolding add
add-problems ds ns e = elim (problems-cases ds ns) [
  | inl (ps, h) ↦ rw h (add-error e ps)
  | inr h ↦ rw h refl
]

-- Adding the problems with a type to those before.
add-type :
    (ds : List Text) (ns : List Node) (e : List Problem) (m : Run (Unit {0}))
    → m ≡ (problems ds ns >>= error)
    → add e m ≡ (problems ds ns >>= λ ps. returns (e ++ ps))
add-type ds ns e m h = rw h (add-problems ds ns e)

base_name-problems :
    (ds : List Text) (t : TokenNode)
    → check_type_expr ds (base_type (some t)) ≡ error (problem_with ds t ++ [])
unfolding check_type_expr error problem_with
base_name-problems ds t = elim (Bool-cases (is_base_type t.token.text)) [
  | inl e ↦ rw e refl
  | inr e ↦ elim (Bool-cases (has_text ds t.token.text)) [
    | inl f ↦ rw (e, f) refl
    | inr f ↦ rw (e, f) refl
  ]
]

mutual
  unfolding check_type_expr names_in problems error

  check_type_expr-problems :
      (ds : List Text) (d : DataType) → check_type_expr ds d ≡ (problems ds (names_in d) >>= error)
  check_type_expr-problems ds (any_type n) = refl
  check_type_expr-problems ds (array_type _ _ _ d) = check_type_expr-problems ds d
  check_type_expr-problems ds (base_type none) = refl
  check_type_expr-problems ds (base_type (some t)) = base_name-problems ds t
  check_type_expr-problems ds (interface_type _) = refl
  check_type_expr-problems ds (map_type _ _ k _ v) =
      let first = add-type ds (names_in k) [] _ (check_type_expr-problems ds k) in
      let second : (e : List Problem)
          → add e (check_type_expr ds v) ≡ (problems ds (names_in v) >>= λ ps. returns (e ++ ps)) =
        λ e. add-type ds (names_in v) e _ (check_type_expr-problems ds v) in
      simp (first, second, problems-append, bind_assoc)
  check_type_expr-problems ds (pointer_type _ d) = check_type_expr-problems ds d
  check_type_expr-problems ds (slice_type _ _ d) = check_type_expr-problems ds d
  check_type_expr-problems ds (struct_type _ es _) =
      rw (check_elems-problems ds es [])
        (bind_assoc (problems ds (names_in_elems es)) (λ ps. returns ps) error)

  check_elems-problems :
      (ds : List Text) (es : Elems) (e : List Problem)
      → check_elems ds es e ≡ (problems ds (names_in_elems es) >>= λ ps. returns (e ++ ps))
  check_elems-problems ds no_elems e = rw (append-nil e) refl
  check_elems-problems ds (elem _ d _ es) e =
      let first = add-type ds (names_in d) e _ (check_type_expr-problems ds d) in
      let rest = check_elems-problems ds es in
      simp (first, rest, problems-append, bind_assoc, append_assoc)

check_exprs-problems :
    (ds : List Text) (xs : List TypeExpr) (e : List Problem)
    → check_exprs ds xs e ≡ (problems ds (names_in_exprs xs) >>= λ ps. returns (e ++ ps))
unfolding check_exprs names_in_exprs problems
check_exprs-problems ds [] e = rw (append-nil e) refl
check_exprs-problems ds (x ∷ xs) e =
    let first = add-type ds (names_in x.data_type) e _ (check_type_expr-problems ds x.data_type) in
    let rest = check_exprs-problems ds xs in
    simp (first, rest, problems-append, bind_assoc, append_assoc)

check_type_stmts-problems :
    (ds : List Text) (ss : List Stmt) (e : List Problem)
    → check_type_stmts ds ss e ≡ (problems ds (names_in_stmts ss) >>= λ ps. returns (e ++ ps))
unfolding check_type_stmts names_in_stmts problems
check_type_stmts-problems ds [] e = rw (append-nil e) refl
check_type_stmts-problems ds (type_literal n x ∷ ss) e =
    let first = add-type ds (names_in x.data_type) e _ (check_type_expr-problems ds x.data_type) in
    let rest = check_type_stmts-problems ds ss in
    simp (first, rest, problems-append, bind_assoc, append_assoc)
check_type_stmts-problems ds (type_group n l xs r ∷ ss) e =
    let first = check_exprs-problems ds xs in
    let rest = check_type_stmts-problems ds ss in
    simp (first, rest, problems-append, bind_assoc, append_assoc)
check_type_stmts-problems ds (syntax_stmt _ _ _ ∷ ss) e = check_type_stmts-problems ds ss e
check_type_stmts-problems ds (info_stmt _ _ _ _ ∷ ss) e = check_type_stmts-problems ds ss e
check_type_stmts-problems ds (service_stmt _ ∷ ss) e = check_type_stmts-problems ds ss e
check_type_stmts-problems ds (import_literal _ _ ∷ ss) e = check_type_stmts-problems ds ss e
check_type_stmts-problems ds (import_group _ _ _ _ ∷ ss) e = check_type_stmts-problems ds ss e
check_type_stmts-problems ds (comment_stmt _ ∷ ss) e = check_type_stmts-problems ds ss e

check_type_context-problems :
    (ds : List Text) (ss : List Stmt)
    → check_type_context ds ss ≡ (problems ds (names_in_stmts ss) >>= error)
unfolding check_type_context
check_type_context-problems ds ss =
    rw (check_type_stmts-problems ds ss [])
      (bind_assoc (problems ds (names_in_stmts ss)) (λ ps. returns ps) error)

-- `checkTypeDeclareContext` reports one error for each occurrence, in a type of the file, of a name
-- that is neither a base type nor declared in the file, in the order of the source and nothing
-- else: it returns nil if there is none, and panics if a name is nil.
pub check_type_declare_context-problems :
    (api : Api)
    → check_type_declare_context api ≡ (
        texts_of (type_names api.type_stmt) >>= λ ds.
        problems ds (names_in_stmts api.type_stmt) >>= error)
unfolding check_type_declare_context
check_type_declare_context-problems api = simp check_type_context-problems
