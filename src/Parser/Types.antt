-- ===== src/Parser/Types.antt =====
-- The type expressions of pkg/parser/api/parser/parser.go. Each loop and each nested data type takes
-- one unit of fuel.
use goctl.Base.{ℕ, zero, suc, ◌||◌, List, [], ◌∷◌, ◌++◌, none, codes, ◌==◌, if◌then◌else◌, ltb}
use goctl.Ast.{
  Node, DataType, any_type, array_type, base_type, interface_type, map_type, pointer_type,
  slice_type, struct_type, Elems, no_elems, elem, TypeExpr, Stmt, type_literal, type_group,
}
use goctl.Parser.State.{Expected, kind, word, M, pure, out_of_fuel, fail_with, gets, ◌>>=◌, ◌>>◌}
use goctl.Parser.Tokens.{
  matches_any, peek_is, cur_is, cur_token_node, goes_on, expect_peek, refuse_keyword, advance,
  advance_if, peek_error,
}
use goctl.Token.Defs.{line}
use goctl.Token.Kind.{
  eof, ident, int, raw_string, lparen, lbrack, lbrace, rbrace, rbrack, rparen, comma, mul, ellipsis,
  assign, any,
}

-- `append` at the end of an element list.
unfoldable pub append_elem : Elems → List Node → DataType → Node → Elems
append_elem no_elems names tp tag = elem names tp tag no_elems
append_elem (elem ns t g rest) names tp tag = elem ns t g (append_elem rest names tp tag)

abbrev pub any_word : List Expected
any_word = word (codes "any") ∷ []

-- A name as a data type: `any` or a base type.
unfoldable pub named_type : M DataType
named_type = do
  is_any ← cur_is any_word
  node ← cur_token_node
  pure (if is_any then any_type node else base_type node)

unfoldable pub parse_any_data_type : M DataType
parse_any_data_type = do advance; node ← cur_token_node; pure (any_type node)

unfoldable pub parse_interface_data_type : M DataType
parse_interface_data_type = do advance; node ← cur_token_node; pure (interface_type node)

unfoldable pub parse_base_data_type : M DataType
parse_base_data_type = do advance; refuse_keyword; node ← cur_token_node; pure (base_type node)

-- The loop over further names behind a comma.
unfoldable pub parse_names : ℕ → List Node → M (List Node)
parse_names zero names = out_of_fuel
parse_names (suc fuel) names = do
  more ← peek_is (kind comma ∷ [])
  if more
      then (do
        advance
        advance_if (kind ident ∷ [])
        refuse_keyword
        node ← cur_token_node
        parse_names fuel (names ++ node ∷ []))
      else pure names

-- The pointer form of `parseElemExpr`.
unfoldable pub parse_elem_pointer : M (List Node × DataType)
parse_elem_pointer = do
  star ← cur_token_node
  advance_if (kind ident ∷ [])
  dt ← named_type
  pure ([], pointer_type star dt)

abbrev pub elem_start : List Expected
elem_start = kind ident ∷ kind mul ∷ kind rbrace ∷ []

module _ (data_type : M DataType) where
  unfoldable pub parse_pointer_data_type : M DataType
  parse_pointer_data_type = do
    advance
    star ← cur_token_node
    expect_peek (kind ident ∷ kind lbrack ∷ kind any ∷ kind mul ∷ [])
    dt ← data_type
    pure (pointer_type star dt)

  unfoldable pub parse_map_data_type : M DataType
  parse_map_data_type = do
    advance
    map_node ← cur_token_node
    advance_if (kind lbrack ∷ [])
    lbrack_node ← cur_token_node
    key ← data_type
    advance_if (kind rbrack ∷ [])
    rbrack_node ← cur_token_node
    value ← data_type
    pure (map_type map_node lbrack_node key rbrack_node value)

  unfoldable pub parse_array_data_type : M DataType
  parse_array_data_type = do
    lbrack_node ← cur_token_node
    advance
    length_node ← cur_token_node
    advance_if (kind rbrack ∷ [])
    rbrack_node ← cur_token_node
    dt ← data_type
    pure (array_type lbrack_node length_node rbrack_node dt)

  unfoldable pub parse_slice_data_type : M DataType
  parse_slice_data_type = do
    lbrack_node ← cur_token_node
    advance_if (kind rbrack ∷ [])
    rbrack_node ← cur_token_node
    dt ← data_type
    pure (slice_type lbrack_node rbrack_node dt)

  -- Two more forms: names with their type, and a choice of the three.
  unfoldable pub parse_elem_named : ℕ → M (List Node × DataType)
  parse_elem_named fuel = do
    node ← cur_token_node
    expect_peek (kind comma ∷ kind ident ∷ kind lbrack ∷ kind any ∷ kind mul ∷ kind lbrace ∷ [])
    names ← parse_names fuel (node ∷ [])
    dt ← data_type
    pure (names, dt)

  unfoldable pub parse_elem_body : ℕ → M (List Node × DataType)
  parse_elem_body fuel = do
    p ← gets λ p. p
    if p.cur.type == mul
        then parse_elem_pointer
        else if ltb (line p.cur) (line p.peek) || p.peek.type == raw_string
        then (do dt ← named_type; pure ([], dt))
        else parse_elem_named fuel

  -- `parseElemExpr`, which adds its element to a list.
  unfoldable pub parse_elem_expr : ℕ → Elems → M Elems
  parse_elem_expr fuel elems = do
    advance_if (kind ident ∷ kind mul ∷ [])
    refuse_keyword
    body ← parse_elem_body fuel
    expect_peek (kind raw_string ∷ kind mul ∷ kind ident ∷ kind rbrace ∷ [])
    tagged ← peek_is (kind raw_string ∷ [])
    if tagged
        then (do advance; tag ← cur_token_node; pure (append_elem elems body.0 body.1 tag))
        else pure (append_elem elems body.0 body.1 none)

  unfoldable pub parse_elem_expr_list : ℕ → Elems → M Elems
  parse_elem_expr_list zero elems = out_of_fuel
  parse_elem_expr_list (suc fuel) elems = do
    more ← goes_on (kind rbrace ∷ kind eof ∷ [])
    if more
        then (do
          expect_peek elem_start
          elems' ← parse_elem_expr fuel elems
          expect_peek elem_start
          parse_elem_expr_list fuel elems')
        else pure elems

  unfoldable pub parse_struct_data_type : ℕ → M DataType
  parse_struct_data_type fuel = do
    advance
    lbrace_node ← cur_token_node
    expect_peek elem_start
    elems ← parse_elem_expr_list fuel no_elems
    advance_if (kind rbrace ∷ [])
    rbrace_node ← cur_token_node
    pure (struct_type lbrace_node elems rbrace_node)

  -- The case of `[`.
  unfoldable pub parse_bracket_data_type : M DataType
  parse_bracket_data_type = do
    advance
    p ← gets λ p. p
    if matches_any (kind rbrack ∷ []) p.peek
        then parse_slice_data_type
        else if matches_any (kind int ∷ kind ellipsis ∷ []) p.peek
        then parse_array_data_type
        else fail_with (peek_error (kind rbrack ∷ kind int ∷ kind ellipsis ∷ []) p)

unfoldable pub parse_data_type : ℕ → M DataType
parse_data_type zero = out_of_fuel
parse_data_type (suc fuel) = do
  p ← gets λ p. p
  if matches_any any_word p.peek
      then parse_any_data_type
      else if matches_any (kind lbrace ∷ []) p.peek
      then parse_struct_data_type (parse_data_type fuel) fuel
      else if matches_any (kind ident ∷ []) p.peek
      then if matches_any (word (codes "map") ∷ []) p.peek
        then parse_map_data_type (parse_data_type fuel)
        else parse_base_data_type
      else if matches_any (kind lbrack ∷ []) p.peek
      then parse_bracket_data_type (parse_data_type fuel)
      else if matches_any (kind any ∷ []) p.peek
      then parse_interface_data_type
      else if matches_any (kind mul ∷ []) p.peek
      then parse_pointer_data_type (parse_data_type fuel)
      else fail_with
          (peek_error (kind ident ∷ kind lbrack ∷ kind any ∷ kind mul ∷ kind lbrace ∷ []) p)

unfoldable pub parse_type_expr : ℕ → M TypeExpr
parse_type_expr fuel = do
  advance_if (kind ident ∷ [])
  refuse_keyword
  name ← cur_token_node
  assigned ← peek_is (kind assign ∷ [])
  assign_node ← if assigned then (do advance; cur_token_node) else pure none
  dt ← parse_data_type fuel
  pure (record { name = name; assign = assign_node; data_type = dt })

unfoldable pub parse_type_exprs : ℕ → List TypeExpr → M (List TypeExpr)
parse_type_exprs zero exprs = out_of_fuel
parse_type_exprs (suc fuel) exprs = do
  more ← goes_on (kind rparen ∷ kind eof ∷ [])
  if more
      then (do
        expr ← parse_type_expr fuel
        expect_peek (kind ident ∷ kind rparen ∷ [])
        parse_type_exprs fuel (exprs ++ expr ∷ []))
      else pure exprs

unfoldable pub parse_type_expr_list : ℕ → M (List TypeExpr)
parse_type_expr_list fuel = do expect_peek (kind ident ∷ kind rparen ∷ []); parse_type_exprs fuel []

unfoldable pub parse_type_literal_stmt : ℕ → M Stmt
parse_type_literal_stmt fuel = do
  node ← cur_token_node
  expr ← parse_type_expr fuel
  pure (type_literal node expr)

unfoldable pub parse_type_group_stmt : ℕ → M Stmt
parse_type_group_stmt fuel = do
  node ← cur_token_node
  advance
  lparen_node ← cur_token_node
  exprs ← parse_type_expr_list fuel
  advance_if (kind rparen ∷ [])
  rparen_node ← cur_token_node
  pure (type_group node lparen_node exprs rparen_node)

unfoldable pub parse_type_stmt : ℕ → M Stmt
parse_type_stmt fuel = do
  p ← gets λ p. p
  if matches_any (kind lparen ∷ []) p.peek
      then parse_type_group_stmt fuel
      else if matches_any (kind ident ∷ []) p.peek
      then parse_type_literal_stmt fuel
      else fail_with (peek_error (kind lparen ∷ kind ident ∷ []) p)
