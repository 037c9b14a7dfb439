-- ===== src/Tests/Parse.antt =====
-- The parser of pkg/parser/api/parser/parser.go on small files.
use goctl.Base.{◌≢◌, some, arith, ◌≡◌, refl, [], ◌∷◌, Text, codes, length}
use goctl.Parser.Ends.{parse_over}
use goctl.Parser.MissingPath.{parse_path_expr_missing}
use goctl.Parser.Reports.{Good}
use goctl.Parser.RouteReports.{parse_reports}
use goctl.Parser.Routes.{parse_path_expr}
use goctl.Parser.State.{Parser, panic, diverged}
use goctl.Parser.Statements.{new_parser, parse}
use goctl.Parser.Tokens.{matches_any}
use goctl.Scanner.Ahead.{first}
use goctl.Scanner.Next.{new_scanner}
use goctl.Scanner.State.{Scanner, read_rune}
use goctl.Token.Defs.{zero_position}
use goctl.Token.Kind.{ident, lparen}

abbrev start : Text → Scanner
start text = record {
  filename = codes "a.api";
  size = length text;
  runes = text;
  position = 0;
  read_position = 1;
  ch = first text;
  lines = 0 ∷ [];
}

-- Behind `get` in `get (Req)`.
abbrev no_path : Parser
no_path = record (new_parser (start (codes "Req)"))) {
  cur = record { type = ident; text = codes "get"; position = zero_position };
  peek = record { type = lparen; text = codes "("; position = zero_position };
}

parse_path_expr_missing_example : parse_path_expr 5 no_path ≡ panic
parse_path_expr_missing_example = parse_path_expr_missing 4 no_path (unfold matches_any in refl)

-- `type` with nothing behind it: nil and an error.
parse_reports_example :
    Good (new_parser (start (codes "type"))) (parse 9 (new_parser (start (codes "type"))))
parse_reports_example = parse_reports 9 (new_parser (start (codes "type")))

new_start : new_scanner (codes "a.api") (codes "type A {}") ≡ some (start (codes "type A {}"))
unfolding new_scanner read_rune
new_start = refl

parse_over_example : parse 12 (new_parser (start (codes "type A {}"))) ≢ diverged
parse_over_example = parse_over (codes "a.api") (codes "type A {}") 12 new_start (omega arith)
