-- ===== src/Parser/TypeReports.antt =====
-- The type expressions of pkg/parser/api/parser/parser.go: the errors.
use goctl.Base.{ℕ, zero, suc, List}
use goctl.Ast.{Node, DataType, Elems, TypeExpr}
use goctl.Parser.Reports.{Reports, Reports-fuel}
use goctl.Parser.State.{M}
use goctl.Parser.TokenReports.{token_rules}
use goctl.Parser.Types.{
  named_type, parse_any_data_type, parse_interface_data_type, parse_base_data_type, parse_names,
  parse_pointer_data_type, parse_map_data_type, parse_array_data_type, parse_slice_data_type,
  parse_elem_pointer, parse_elem_named, parse_elem_body, parse_elem_expr, parse_elem_expr_list,
  parse_struct_data_type, parse_bracket_data_type, parse_data_type, parse_type_expr,
  parse_type_exprs, parse_type_expr_list, parse_type_literal_stmt, parse_type_group_stmt,
  parse_type_stmt,
}

named_type-Reports : Reports named_type
unfolding named_type
named_type-Reports = search token_rules depth 20

any-Reports : Reports parse_any_data_type
unfolding parse_any_data_type
any-Reports = search token_rules depth 20

interface-Reports : Reports parse_interface_data_type
unfolding parse_interface_data_type
interface-Reports = search token_rules depth 20

base-Reports : Reports parse_base_data_type
unfolding parse_base_data_type
base-Reports = search token_rules depth 20

names-Reports : (n : ℕ) (names : List Node) → Reports (parse_names n names)
unfolding parse_names
names-Reports zero names = Reports-fuel
names-Reports (suc n) names = let ih = names-Reports n in search (token_rules, ih) depth 30

module _ {dt : M DataType} (r : Reports dt) where
  pointer-Reports : Reports (parse_pointer_data_type dt)
  unfolding parse_pointer_data_type
  pointer-Reports = search token_rules depth 30

  map-Reports : Reports (parse_map_data_type dt)
  unfolding parse_map_data_type
  map-Reports = search token_rules depth 40

  array-Reports : Reports (parse_array_data_type dt)
  unfolding parse_array_data_type
  array-Reports = search token_rules depth 40

  slice-Reports : Reports (parse_slice_data_type dt)
  unfolding parse_slice_data_type
  slice-Reports = search token_rules depth 40

  elem_pointer-Reports : Reports (parse_elem_pointer)
  unfolding parse_elem_pointer
  elem_pointer-Reports = search (token_rules, named_type-Reports) depth 40

  elem_named-Reports : (n : ℕ) → Reports (parse_elem_named dt n)
  unfolding parse_elem_named
  elem_named-Reports n = search (token_rules, names-Reports) depth 40

  elem_body-Reports : (n : ℕ) → Reports (parse_elem_body dt n)
  unfolding parse_elem_body
  elem_body-Reports n =
      search (token_rules, elem_pointer-Reports, named_type-Reports, elem_named-Reports) depth 40

  elem_expr-Reports : (n : ℕ) (elems : Elems) → Reports (parse_elem_expr dt n elems)
  unfolding parse_elem_expr
  elem_expr-Reports n elems = search (token_rules, elem_body-Reports) depth 40

  elem_list-Reports : (n : ℕ) (elems : Elems) → Reports (parse_elem_expr_list dt n elems)
  unfolding parse_elem_expr_list
  elem_list-Reports zero elems = Reports-fuel
  elem_list-Reports (suc n) elems =
      let ih = elem_list-Reports n in search (token_rules, elem_expr-Reports, ih) depth 40

  struct-Reports : (n : ℕ) → Reports (parse_struct_data_type dt n)
  unfolding parse_struct_data_type
  struct-Reports n = search (token_rules, elem_list-Reports) depth 40

  bracket-Reports : Reports (parse_bracket_data_type dt)
  unfolding parse_bracket_data_type
  bracket-Reports = search (token_rules, slice-Reports, array-Reports) depth 40

pub data_type-Reports : (n : ℕ) → Reports (parse_data_type n)
unfolding parse_data_type
data_type-Reports zero = Reports-fuel
data_type-Reports (suc n) =
    let ih : Reports (parse_data_type n) = data_type-Reports n in
    search
      (
        token_rules, any-Reports, interface-Reports, base-Reports, pointer-Reports, map-Reports,
        struct-Reports, bracket-Reports,
      )
      depth 40

type_expr-Reports : (n : ℕ) → Reports (parse_type_expr n)
unfolding parse_type_expr
type_expr-Reports n = search (token_rules, data_type-Reports) depth 40

type_exprs-Reports : (n : ℕ) (es : List TypeExpr) → Reports (parse_type_exprs n es)
unfolding parse_type_exprs
type_exprs-Reports zero es = Reports-fuel
type_exprs-Reports (suc n) es =
    let ih = type_exprs-Reports n in search (token_rules, type_expr-Reports, ih) depth 40

pub type_stmt-Reports : (n : ℕ) → Reports (parse_type_stmt n)
unfolding parse_type_stmt parse_type_group_stmt parse_type_literal_stmt parse_type_expr_list
type_stmt-Reports n = search (token_rules, type_expr-Reports, type_exprs-Reports) depth 40
