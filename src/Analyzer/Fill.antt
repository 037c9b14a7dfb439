-- ===== src/Analyzer/Fill.antt =====
-- `fillTypes`, `fillTypeExpr`, `findDefinedType` and `getType` of
-- pkg/parser/api/parser/analyzer.go.
use goctl.Analyzer.Convert.{members_of}
use goctl.Analyzer.Kind.{is_base_type}
use goctl.Analyzer.Spec.{
  SpecType, Members, primitive_type, define_struct, array_of, pointer_to, no_members, member,
}
use goctl.Api.Convert.{Api}
use goctl.Api.Errors.{
  expected_struct, unknown_type, not_defined, body_not_struct, Run, returns, fails, refused, ◌>>=◌,
  deref,
}
use goctl.Ast.{Node, DataType, struct_type, TypeExpr, BodyExpr, Stmt, type_literal, type_group}
use goctl.Base.{
  Bool, true, false, ◌&&◌, List, [], ◌∷◌, ◌++◌, none, some, Text, text_eq, if◌then◌else◌,
}

-- The type expressions of the statements, in the order of the loops.
unfoldable pub exprs_of : List Stmt → List TypeExpr
exprs_of [] = []
exprs_of (type_literal n x ∷ ss) = x ∷ exprs_of ss
exprs_of (type_group n l xs r ∷ ss) = xs ++ exprs_of ss
exprs_of (_ ∷ ss) = exprs_of ss

-- `findDefinedType`.
unfoldable pub find_defined_type : Text → List SpecType → Run SpecType
unfolding text_eq
find_defined_type name [] = fails (refused (not_defined name) ∷ [])
find_defined_type name (define_struct r ms ∷ ts) =
    let rest = find_defined_type name ts in
    if text_eq r name then returns (define_struct r ms) else rest
find_defined_type name (_ ∷ ts) = find_defined_type name ts

-- A type that is the name of a struct is replaced by that struct.
unfoldable pub lookup_struct : List SpecType → SpecType → Run SpecType
unfolding find_defined_type
lookup_struct ts (define_struct r ms) = find_defined_type r ts
lookup_struct ts t = returns t

-- The loop over the members of a struct in `fillTypes`.
unfoldable pub fill_members : List SpecType → Members → Run Members
unfolding lookup_struct
fill_members ts no_members = returns no_members
fill_members ts (member n t tag b ms) = do
  t' ← lookup_struct ts t
  ms' ← fill_members ts ms
  returns (member n t' tag b ms')

-- The second loop of `fillTypes`.
unfoldable pub fill_structs : List SpecType → List SpecType → Run (List SpecType)
unfolding fill_members
fill_structs ts [] = returns []
fill_structs ts (define_struct r ms ∷ us) = do
  ms' ← fill_members ts ms
  us' ← fill_structs ts us
  returns (define_struct r ms' ∷ us')
fill_structs ts (_ ∷ us) = fails (refused unknown_type ∷ [])

module _ (written : DataType → Text) where
  -- `fillTypeExpr`, by its switch on the data type.
  unfoldable pub fill_data_type : Node → DataType → Run SpecType
  unfolding members_of
  fill_data_type n (struct_type l es r) = do
    ms ← members_of written es
    t ← deref n
    returns (define_struct t.token.text ms)
  fill_data_type n _ = deref n >>= λ t. fails (refused expected_struct ∷ [])

  unfoldable pub fill_type_expr : TypeExpr → Run SpecType
  unfolding fill_data_type
  fill_type_expr x = fill_data_type x.name x.data_type

  -- The first loop of `fillTypes`.
  unfoldable pub fill_type_exprs : List TypeExpr → Run (List SpecType)
  unfolding fill_type_expr
  fill_type_exprs [] = returns []
  fill_type_exprs (x ∷ xs) = do t ← fill_type_expr x; ts ← fill_type_exprs xs; returns (t ∷ ts)

  unfoldable pub fill_types : Api → Run (List SpecType)
  unfolding exprs_of fill_type_exprs fill_structs
  fill_types api = do ts ← fill_type_exprs (exprs_of api.type_stmt); fill_structs ts ts

abbrev is_there : Node → Bool
is_there none = false
is_there (some t) = true

-- `getType`, with the printed body as a parameter.
unfoldable pub get_type : (BodyExpr → Text) → List SpecType → BodyExpr → Bool → Run SpecType
unfolding is_base_type find_defined_type
get_type body_text ts body req =
    if req && is_there body.lbrack
    then fails (refused body_not_struct ∷ [])
    else (deref body.value >>= λ v.
        (if is_base_type v.token.text
          then returns (primitive_type v.token.text)
          else find_defined_type v.token.text ts)
        >>= λ t. returns (
            if is_there body.star
            then pointer_to (body_text body) t
            else (if is_there body.lbrack then array_of (body_text body) t else t)))
