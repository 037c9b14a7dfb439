-- ===== src/Api/Filter.antt =====
-- pkg/parser/api/parser/filter.go.
use goctl.Api.Errors.{Problem, duplicate_stmt, Run, returns, ◌>>=◌, deref, add, error}
use goctl.Ast.{TokenNode, Node}
use goctl.Ast.Nodes.{pos}
use goctl.Base.{List, [], ◌∷◌, ◌++◌, Option, none, some, Text, codes, if◌then◌else◌, text_eq}
use goctl.Token.Defs.{Position, position_eq}

-- `m` is the map, the latest entry first.
pub record FilterBuilder : Type 0 where
  pub filename : Text
  pub m : List (Text × Position)
  pub check_expr_name : Text
  pub error_manager : List Problem

unfoldable pub find {ℓ} : {V : Type ℓ} → Text → List (Text × V) → Option V
unfolding text_eq
find k [] = none
find k ((j, v) ∷ m) = if text_eq j k then some v else find k m

abbrev pub new_builder : Text → Text → FilterBuilder
new_builder file name = record {
  filename = file;
  m = [];
  check_expr_name = name;
  error_manager = [];
}

abbrev pub key_of : Text → TokenNode → Text
key_of prefix t = prefix ++ (codes "/" ++ t.token.text)

abbrev pub mark : Text → TokenNode → FilterBuilder → FilterBuilder
mark prefix t b = record b { m = (key_of prefix t, t.token.position) ∷ b.m }

unfoldable pub refuse : TokenNode → FilterBuilder → FilterBuilder
unfolding pos
refuse t b = record b {
  error_manager =
      b.error_manager ++ duplicate_stmt (pos t) (codes "duplicate " ++ b.check_expr_name) ∷ [];
}

-- One round of `check` and of `checkNodeWithPrefix`.
unfoldable pub check_token : Text → TokenNode → FilterBuilder → FilterBuilder
unfolding find position_eq refuse
check_token prefix t b = elim (find (key_of prefix t) b.m) [
  | none ↦ mark prefix t b
  | some p ↦ if position_eq p t.token.position then mark prefix t b else refuse t b
]

unfoldable pub check_node_with_prefix : Text → List Node → FilterBuilder → Run FilterBuilder
unfolding check_token
check_node_with_prefix prefix [] b = returns b
check_node_with_prefix prefix (n ∷ ns) b = do
  t ← deref n
  check_node_with_prefix prefix ns (check_token prefix t b)

unfoldable pub check : List Node → FilterBuilder → Run FilterBuilder
unfolding check_node_with_prefix
check ns b = check_node_with_prefix b.filename ns b

-- `filter.error`, over the builders of the filter.
unfoldable pub filter_errors : List FilterBuilder → List Problem → Run (List Problem)
unfolding add error
filter_errors [] e = returns e
filter_errors (b ∷ bs) e = do e' ← add e (error b.error_manager); filter_errors bs e'

unfoldable pub filter_error : List FilterBuilder → Run (Unit {0})
unfolding filter_errors error
filter_error bs = do e ← filter_errors bs []; error e
