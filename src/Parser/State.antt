-- ===== src/Parser/State.antt =====
-- The parser's state of pkg/parser/api/parser/parser.go, and the actions on it.
use goctl.Base.{List, [], ◌∷◌, ◌++◌, none, some, Text, if◌then◌else◌}
use goctl.Ast.{TokenNode, Node, Stmt}
use goctl.Scanner.Quoted.{ScanError}
use goctl.Scanner.State.{Scanner}
use goctl.Token.Defs.{Position, Token, token_eq}
use goctl.Token.Kind.{TokenType}

-- What is expected is a token type or the text of a token.
pub data Expected : Type 0 where
  kind : TokenType → Expected
  word : Text → Expected

-- The parts from which the messages are printed: what was expected where and what stood there.
pub data ParseError : Type 0 where
  scan_error : ScanError → ParseError
  syntax_error : Position → List Expected → Text → ParseError
  unexpected_token : Position → Text → ParseError

-- `nodes` is the map `node`, the latest entry first; `statements` is `api.Stmts`.
pub record Parser : Type 0 where
  pub scanner : Scanner
  pub errors : List ParseError
  pub cur : Token
  pub peek : Token
  pub head_comment_group : List Token
  pub statements : List Stmt
  pub nodes : List (Token × TokenNode)

-- A call returns a value, or nil or false; or it panics, or a loop was cut off by its fuel.
pub data Result {ℓ} (A : Type ℓ) : Type ℓ where
  done : A → Parser → Result A
  fail : Parser → Result A
  panic : Result A
  diverged : Result A

abbrev pub M {ℓ} : Type ℓ → Type ℓ
M A = Parser → Result A

module _ {ℓ} {A : Type ℓ} where
  unfoldable pub pure : A → M A
  pure a p = done a p

  -- `return nil` with no new error.
  unfoldable pub stop : M A
  stop p = fail p

  unfoldable pub out_of_fuel : M A
  out_of_fuel p = diverged

  unfoldable pub crash : M A
  crash p = panic

-- Adding an error and returning nil.
unfoldable pub fail_with {ℓ} : {A : Type ℓ} → ParseError → M A
fail_with e p = fail (record p { errors = p.errors ++ e ∷ [] })

unfoldable pub gets {ℓ} : {A : Type ℓ} → (Parser → A) → M A
gets f p = done (f p) p

-- A change of the state that leaves the errors alone.
unfoldable pub set_scanner : Scanner → M (Unit {0})
set_scanner s p = done tt (record p { scanner = s })

unfoldable pub set_cur : Token → M (Unit {0})
set_cur t p = done tt (record p { cur = t })

unfoldable pub set_peek : Token → M (Unit {0})
set_peek t p = done tt (record p { peek = t })

unfoldable pub set_head_comments : List Token → M (Unit {0})
set_head_comments cs p = done tt (record p { head_comment_group = cs })

unfoldable pub append_stmts : List Stmt → M (Unit {0})
append_stmts ss p = done tt (record p { statements = p.statements ++ ss })

unfoldable pub put_node : Token → TokenNode → M (Unit {0})
put_node t n p = done tt (record p { nodes = (t, n) ∷ p.nodes })

infixl 10 ◌>>=◌ ◌>>◌
unfoldable pub ◌>>=◌ {ℓ κ} : {A : Type ℓ} {B : Type κ} → M A → (A → M B) → M B
◌>>=◌ m f p = elim (m p) [
  | done a q ↦ f a q
  | fail q ↦ fail q
  | panic ↦ panic
  | diverged ↦ diverged
]

abbrev pub ◌>>◌ {ℓ κ} : {A : Type ℓ} {B : Type κ} → M A → M B → M B
m >> k = m >>= λ _. k

-- `p.node[tok]`.
unfoldable pub node_of : Token → List (Token × TokenNode) → Node
unfolding token_eq
node_of t [] = none
node_of t ((u, n) ∷ ns) = if token_eq u t then some n else node_of t ns
