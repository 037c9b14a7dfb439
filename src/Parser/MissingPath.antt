-- ===== src/Parser/MissingPath.antt =====
-- `parsePathExpr` of pkg/parser/api/parser/parser.go where a route has no path.
use goctl.Base.{ℕ, suc, ◌≡◌, true, ◌==◌, Bool-cases, inl, inr}
use goctl.Parser.Routes.{path_end, parse_path_values, path_node, parse_path_expr}
use goctl.Parser.State.{Parser, panic, pure, crash, gets, ◌>>=◌}
use goctl.Parser.Tokens.{matches_any}
use goctl.Token.Kind.{eof}

-- If what follows the method of a route is already one of the tokens that end a path,
-- `parsePathExpr` panics, in every state and with any fuel but zero: it indexes an empty list of
-- tokens.
pub parse_path_expr_missing :
    (n : ℕ) (p : Parser) → matches_any path_end p.peek ≡ true → parse_path_expr (suc n) p ≡ panic
unfolding parse_path_expr parse_path_values path_node crash gets pure ◌>>=◌
parse_path_expr_missing n p h = elim (Bool-cases (p.cur.type == eof)) [
  | inl e ↦ rw (e, ◌>>=◌)
  | inr e ↦ rw (e, h, ◌>>=◌)
]
