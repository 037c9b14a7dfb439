-- ===== src/Api/Errors.antt =====
-- pkg/parser/api/parser/error.go, and the result of a Go function that may return an error or panic.
use goctl.Base.{List, [], ◌∷◌, ◌++◌, Option, none, some, Text}
use goctl.Token.Defs.{Position}

-- What the analyzer refuses, in analyzer.go.
pub data Refusal : Type 0 where
  unsupported_any : Refusal
  empty_struct : Refusal
  expected_literal : Refusal
  key_not_equal : Refusal
  value_has_struct : Refusal
  dynamic_length : Refusal
  array_has_struct : Refusal
  slice_has_struct : Refusal
  expected_struct : Refusal
  unknown_type : Refusal
  not_defined : Text → Refusal
  body_not_struct : Refusal
  many_service_names : Text → Text → Refusal

-- The errors of api.go, filter.go and analyzer.go, by the parts of their messages. Those of the
-- analyzer are without their positions.
pub data Problem : Type 0 where
  duplicate_stmt : Position → Text → Problem
  unresolved_type : Position → Text → Problem
  multiple_service_name : Position → Problem
  multiple_syntax : Position → Text → Text → Problem
  import_cycle : Position → Problem
  unparsed : Text → Problem
  refused : Refusal → Problem

-- A call returns a value, returns an error, panics, or is cut off by its fuel. The message of an
-- error of an `errorManager` joins the messages of all that were added, so that an error is the
-- list of the problems in it.
pub data Run {ℓ} (A : Type ℓ) : Type ℓ where
  returns : A → Run A
  fails : List Problem → Run A
  panics : Run A
  diverges : Run A

infixl 5 ◌>>=◌ ◌>>◌
abbrev pub ◌>>=◌ {ℓ κ} : {A : Type ℓ} {B : Type κ} → Run A → (A → Run B) → Run B
returns a >>= f = f a
fails e >>= f = fails e
panics >>= f = panics
diverges >>= f = diverges

abbrev pub ◌>>◌ {ℓ} : {B : Type ℓ} → Run (Unit {0}) → Run B → Run B
m >> k = m >>= λ _. k

-- Reading through a pointer.
abbrev pub deref {ℓ} : {A : Type ℓ} → Option A → Run A
deref none = panics
deref (some a) = returns a

-- `errorManager.add` of what a check returned, and `errorManager.error`.
unfoldable pub add : List Problem → Run (Unit {0}) → Run (List Problem)
add e (returns _) = returns e
add e (fails ps) = returns (e ++ ps)
add e panics = panics
add e diverges = diverges

unfoldable pub error : List Problem → Run (Unit {0})
error [] = returns tt
error (p ∷ ps) = fails (p ∷ ps)
