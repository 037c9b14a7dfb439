-- ===== src/Parser/TypeEnds.antt =====
-- The type expressions of pkg/parser/api/parser/parser.go: what they read, and their
-- fuel.
use goctl.Base.{
  codes, ℕ, zero, suc, ◌≤◌, ◌<◌, ◌≡◌, refl, Bool, true, false, List, [], ◌∷◌, if◌then◌else◌, arith,
}
use goctl.Ast.{Node, DataType, Elems, TypeExpr, Stmt}
use goctl.Parser.Measure.{
  left, After, Takes, Takes-none, Takes-weaken, Takes-fail_with, After-mono, After-bind,
  After-widen,
}
use goctl.Parser.Advance.{advance-After}
use goctl.Parser.Moves.{move_rules, keep_rules, all_real, matches_any-weight}
use goctl.Parser.State.{Expected, kind, word, Parser, M, fail_with, gets, ◌>>=◌, ◌>>◌}
use goctl.Parser.Tokens.{matches_any, peek_error, advance}
use goctl.Parser.Types.{
  any_word, named_type, parse_any_data_type, parse_interface_data_type, parse_base_data_type,
  parse_names, parse_pointer_data_type, parse_map_data_type, parse_array_data_type,
  parse_slice_data_type, parse_elem_pointer, parse_elem_named, parse_elem_body, parse_elem_expr,
  parse_elem_expr_list, parse_struct_data_type, parse_bracket_data_type, parse_data_type,
  parse_type_expr, parse_type_exprs, parse_type_expr_list, parse_type_literal_stmt,
  parse_type_group_stmt, parse_type_stmt,
}
use goctl.Scanner.Valid.{IsValid}
use goctl.Token.Kind.{ident, lbrack, lbrace, any, mul, lparen}

named_type-Takes : {k : ℕ} → Takes k k named_type
unfolding named_type
named_type-Takes = search keep_rules depth 20

any-Takes : {k : ℕ} → Takes k k parse_any_data_type
unfolding parse_any_data_type
any-Takes = search keep_rules depth 20

interface-Takes : {k : ℕ} → Takes k k parse_interface_data_type
unfolding parse_interface_data_type
interface-Takes = search keep_rules depth 20

base-Takes : {k : ℕ} → Takes k k parse_base_data_type
unfolding parse_base_data_type
base-Takes = search keep_rules depth 20

names-Takes : (n k : ℕ) (names : List Node) → k ≤ n → Takes k k (parse_names n names)
unfolding parse_names
names-Takes n zero names h = Takes-none _ _
names-Takes zero (suc k) names h = absurd (omega arith)
names-Takes (suc n) (suc k) names h =
    let ih : (l : List Node) → Takes k k (parse_names n l) = λ l. names-Takes n k l (omega arith) in
    search move_rules depth 20

elem_pointer-Takes : {k : ℕ} → Takes k k parse_elem_pointer
unfolding parse_elem_pointer
elem_pointer-Takes = search (keep_rules, named_type-Takes) depth 20

-- Where the next token is one of `es`, moving over it reads it.
advance_on :
    {A : Type 0} (es : List Expected) (k : ℕ) (m : M A) (p : Parser)
    → all_real es ≡ true
    → matches_any es p.peek ≡ true
    → IsValid p.scanner
    → left p < suc k
    → Takes k k m
    → After (suc k) k ((advance >> m) p)
advance_on es k m p a e v h r =
    After-bind advance (λ _. m) (suc k) k k p
      (After-widen (suc k) k k (advance p) (omega arith)
        (advance-After k p v (omega (arith, matches_any-weight es p.peek a e))))
      λ x q w l. After-widen (suc k) k k (m q) (omega arith) (r.at q w l)

module _ (dt : M DataType) where
  map-Eats : (k : ℕ) → Takes k k dt → Takes (suc k) k (parse_map_data_type dt)
  unfolding parse_map_data_type
  map-Eats k r = search move_rules depth 20

  array-Eats : (k : ℕ) → Takes k k dt → Takes (suc k) k (parse_array_data_type dt)
  unfolding parse_array_data_type
  array-Eats k r = search move_rules depth 20

  slice-Eats : (k : ℕ) → Takes k k dt → Takes (suc k) k (parse_slice_data_type dt)
  unfolding parse_slice_data_type
  slice-Eats k r = search move_rules depth 20

  bracket-Eats : (k : ℕ) → Takes k k dt → Takes (suc k) k (parse_bracket_data_type dt)
  unfolding parse_bracket_data_type
  bracket-Eats k r =
      let slice = slice-Eats k r in let array = array-Eats k r in search move_rules depth 20

  elem_body-Takes : (n k : ℕ) → k ≤ n → Takes k k dt → Takes k k (parse_elem_body dt n)
  unfolding parse_elem_body parse_elem_named
  elem_body-Takes n k h r =
      let names : (l : List Node) → Takes k k (parse_names n l) = λ l. names-Takes n k l h in
      search (keep_rules, named_type-Takes, elem_pointer-Takes) depth 30

  elem_expr-Eats :
      (n k : ℕ) (elems : Elems)
      → k ≤ n
      → Takes k k dt
      → Takes (suc k) k (parse_elem_expr dt n elems)
  unfolding parse_elem_expr
  elem_expr-Eats n k elems h r =
      let body : Takes k k (parse_elem_body dt n) = elem_body-Takes n k h r in
      search move_rules depth 30

  elem_list-Takes :
      (n k : ℕ) (elems : Elems)
      → k ≤ n
      → ((j : ℕ) → j < k → Takes j j dt)
      → Takes k k (parse_elem_expr_list dt n elems)
  unfolding parse_elem_expr_list
  elem_list-Takes n zero elems h r = Takes-none _ _
  elem_list-Takes zero (suc k) elems h r = absurd (omega arith)
  elem_list-Takes (suc n) (suc k) elems h r =
      let ih : (l : Elems) → Takes k k (parse_elem_expr_list dt n l) =
        λ l. elem_list-Takes n k l (omega arith) λ j b. r j (omega (arith, b)) in
      let one : (l : Elems) → Takes (suc k) k (parse_elem_expr dt n l) =
        λ l. elem_expr-Eats n k l (omega arith) (r k (omega arith)) in
      search move_rules depth 30

  pointer_on :
      (k : ℕ) (p : Parser)
      → matches_any (kind mul ∷ []) p.peek ≡ true
      → IsValid p.scanner
      → left p < suc k
      → Takes k k dt
      → After (suc k) k (parse_pointer_data_type dt p)
  unfolding parse_pointer_data_type
  pointer_on k p e v h r = advance_on (kind mul ∷ []) k _ p refl e v h (search keep_rules depth 20)

  struct_on :
      (n k : ℕ) (p : Parser)
      → k ≤ n
      → matches_any (kind lbrace ∷ []) p.peek ≡ true
      → IsValid p.scanner
      → left p < suc k
      → ((j : ℕ) → j < k → Takes j j dt)
      → After (suc k) k (parse_struct_data_type dt n p)
  unfolding parse_struct_data_type
  struct_on n k p l e v h r =
      let elems : (es : Elems) → Takes k k (parse_elem_expr_list dt n es) =
        λ es. elem_list-Takes n k es l r in
      advance_on (kind lbrace ∷ []) k _ p refl e v h (search keep_rules depth 20)

After-test :
    {A : Type 0} (j k : ℕ) (b : Bool) (m n : M A) (p : Parser)
    → (b ≡ true → After j k (m p))
    → After j k (n p)
    → After j k ((if b then m else n) p)
After-test j k true m n p r s = r refl
After-test j k false m n p r s = s

pub data_type-Takes : (n k : ℕ) → k ≤ n → Takes k k (parse_data_type n)
unfolding parse_data_type gets ◌>>=◌
data_type-Takes n zero h = Takes-none _ _
data_type-Takes zero (suc k) h = absurd (omega arith)
data_type-Takes (suc n) (suc k) h = record {
  at = λ p v l.
      let dt = parse_data_type n in
      let r : Takes k k dt = data_type-Takes n k (omega arith) in
      let test = λ (b : Bool) (x y : M DataType). After-test (suc k) (suc k) b x y p in
      let eaten = λ (x : M DataType) (g : After (suc k) k (x p)). After-mono (suc k) k (x p) g in
      let failed : M DataType =
        fail_with
          (peek_error (kind ident ∷ kind lbrack ∷ kind any ∷ kind mul ∷ kind lbrace ∷ []) p) in
      let pointer : M DataType =
        if matches_any (kind mul ∷ []) p.peek then parse_pointer_data_type dt else failed in
      let others : M DataType =
        if matches_any (kind any ∷ []) p.peek then parse_interface_data_type else pointer in
      let arrays : M DataType =
        if matches_any (kind lbrack ∷ []) p.peek then parse_bracket_data_type dt else others in
      let names : M DataType =
        if matches_any (word (codes "map") ∷ []) p.peek
        then parse_map_data_type dt
        else parse_base_data_type in
      let unnamed : M DataType = if matches_any (kind ident ∷ []) p.peek then names else arrays in
      test (matches_any any_word p.peek) parse_any_data_type _ (λ _. any-Takes.at p v l)
        (test (matches_any (kind lbrace ∷ []) p.peek) (parse_struct_data_type dt n) unnamed
          (λ e.
            eaten (parse_struct_data_type dt n) (
              struct_on dt n k p (omega arith) e v l λ j b. data_type-Takes n j (omega (arith, b))))
          (test (matches_any (kind ident ∷ []) p.peek) names arrays
            (λ _.
              test (matches_any (word (codes "map") ∷ []) p.peek) (parse_map_data_type dt)
                parse_base_data_type (λ _. (Takes-weaken (map-Eats dt k r)).at p v l)
                (base-Takes.at p v l))
            (test (matches_any (kind lbrack ∷ []) p.peek) (parse_bracket_data_type dt) others
              (λ _. (Takes-weaken (bracket-Eats dt k r)).at p v l)
              (test (matches_any (kind any ∷ []) p.peek) parse_interface_data_type pointer
                (λ _. interface-Takes.at p v l)
                (test (matches_any (kind mul ∷ []) p.peek) (parse_pointer_data_type dt) failed
                  (λ e. eaten (parse_pointer_data_type dt) (pointer_on dt k p e v l r))
                  ((Takes-fail_with _).at p v l))))));
}

type_expr-Eats : (k : ℕ) → Takes (suc k) k (parse_type_expr k)
unfolding parse_type_expr
type_expr-Eats k =
    let dt : Takes k k (parse_data_type k) = data_type-Takes k k (omega arith) in
    search move_rules depth 30

type_exprs-Takes : (k : ℕ) (es : List TypeExpr) → Takes k k (parse_type_exprs k es)
unfolding parse_type_exprs
type_exprs-Takes zero es = Takes-none _ _
type_exprs-Takes (suc n) es =
    let ih = type_exprs-Takes n in search (move_rules, type_expr-Eats, ih) depth 20

type_group_on :
    (k : ℕ) (p : Parser)
    → matches_any (kind lparen ∷ []) p.peek ≡ true
    → IsValid p.scanner
    → left p < suc k
    → After (suc k) k (parse_type_group_stmt k p)
unfolding parse_type_group_stmt parse_type_expr_list gets ◌>>=◌
type_group_on k p e v h =
    advance_on (kind lparen ∷ []) k _ p refl e v h (search (keep_rules, type_exprs-Takes) depth 20)

type_literal-Eats : (k : ℕ) → Takes (suc k) k (parse_type_literal_stmt k)
unfolding parse_type_literal_stmt
type_literal-Eats k = search (move_rules, type_expr-Eats) depth 20

pub type_stmt-Eats : (k : ℕ) → Takes (suc k) k (parse_type_stmt k)
unfolding parse_type_stmt gets ◌>>=◌
type_stmt-Eats k = record {
  at = λ p v l.
      let literal : M Stmt =
        if matches_any (kind ident ∷ []) p.peek
        then parse_type_literal_stmt k
        else fail_with (peek_error (kind lparen ∷ kind ident ∷ []) p) in
      After-test (suc k) k (matches_any (kind lparen ∷ []) p.peek) (parse_type_group_stmt k) literal
        p (λ e. type_group_on k p e v l)
        (After-test (suc k) k (matches_any (kind ident ∷ []) p.peek) (parse_type_literal_stmt k)
          (fail_with (peek_error (kind lparen ∷ kind ident ∷ []) p)) p
          (λ _. (type_literal-Eats k).at p v l) ((Takes-fail_with _).at p v l));
}
