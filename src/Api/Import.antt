-- ===== src/Api/Import.antt =====
-- The walk over imported files in pkg/parser/api/parser/api.go: `mergeAPI`, `parseImportedAPI` and
-- `parseReverse`.
use goctl.Api.Convert.{Api, convert2api}
use goctl.Api.Errors.{
  Run, returns, fails, panics, diverges, multiple_syntax, import_cycle, unparsed, ◌>>=◌, deref,
}
use goctl.Ast.{Node, Stmt, import_literal, import_group}
use goctl.Ast.Nodes.{pos, format}
use goctl.Base.{
  Bool, ℕ, zero, suc, not, List, [], ◌∷◌, ◌++◌, Option, none, some, Text, ◌==◌, text_eq,
  if◌then◌else◌,
}
use goctl.ImportStack.{is_on, push, pop}
use goctl.Token.Defs.{Token}

-- What the files of one run share: `importManager` and `importSet`.
pub record Imports : Type 0 where
  pub stack : List Text
  pub set : List Text

-- `mergeAPI`.
unfoldable pub merge_api : Api → Api → Run Api
unfolding format text_eq pos
merge_api api other = deref api.syntax.value >>= λ v. deref other.syntax.value >>= λ w.
    if not (text_eq (format [] v) (format [] w))
    then fails (multiple_syntax (pos w) (format [] v) (format [] w) ∷ [])
    else returns (record api {
      type_stmt = api.type_stmt ++ other.type_stmt;
      service_stmts = api.service_stmts ++ other.service_stmts;
    })

-- The loop of `parseReverse`.
unfoldable pub merge_all : Api → List Api → Run Api
unfolding merge_api
merge_all api [] = returns api
merge_all api (other ∷ others) = do api' ← merge_api api other; merge_all api' others

-- `strings.ReplaceAll` of a double quote by nothing.
unfoldable pub drop_quotes : Text → Text
drop_quotes [] = []
drop_quotes (c ∷ s) = let rest = drop_quotes s in if c == b'"' then rest else c ∷ rest

-- A write to `importValueSet`: the map with one entry for each path.
unfoldable pub put_value : Text → Token → List (Text × Token) → List (Text × Token)
unfolding text_eq
put_value p t [] = (p, t) ∷ []
put_value p t ((q, u) ∷ m) = if text_eq q p then (q, t) ∷ m else (q, u) ∷ put_value p t m

unfoldable pub put_values : List Node → List (Text × Token) → Run (List (Text × Token))
unfolding put_value drop_quotes
put_values [] m = returns m
put_values (n ∷ ns) m = do
  t ← deref n
  put_values ns (put_value (drop_quotes t.token.text) t.token m)

unfoldable pub import_values : List Stmt → List (Text × Token) → Run (List (Text × Token))
unfolding put_values
import_values [] m = returns m
import_values (import_literal i v ∷ ss) m = do m' ← put_values (v ∷ []) m; import_values ss m'
import_values (import_group i l vs r ∷ ss) m = do m' ← put_values vs m; import_values ss m'
import_values (_ ∷ ss) m = import_values ss m

-- What is used of the package path/filepath: `IsAbs`, `Dir`, and `Join` of two paths.
pub record FilePath : Type 0 where
  pub is_abs : Text → Bool
  pub dir : Text → Text
  pub join : Text → Text → Text

-- The path of a file that the file of a name imports.
unfoldable pub resolve : FilePath → Text → Text → Text
resolve paths filename p =
    let dir = paths.dir filename in if not (paths.is_abs p) then paths.join dir p else p

-- A file is loaded by its path, as its name with the statements of its tree, or with errors; and the
-- map of the imports of a file is walked in some order.
module _ (load : Text → Option (Text × List Stmt)) (paths : FilePath)
    (order : List (Text × Token) → List (Text × Token)) where
  -- The reading of a file, up to the API made of it.
  unfoldable pub load_api : Text → Run Api
  unfolding convert2api
  load_api path = elim (load path) [
    | none ↦ fails (unparsed path ∷ [])
    | some (filename, stmts) ↦ convert2api filename stmts
  ]

  unfoldable pub pop_stack : Imports → Run Imports
  unfolding pop
  pop_stack st = elim (pop st.stack) [ none ↦ panics | some s ↦ returns (record st { stack = s }) ]

  -- One round of `parseImportedAPI`, which reads the imports of an imported file by `nested`.
  unfoldable pub import_file :
      (Api → Imports → Run (Api × Imports)) → Text → Token → Imports → Run (List Api × Imports)
  unfolding push is_on load_api pop_stack
  import_file nested path tok st = elim (push path st.stack).0 [
    | some e ↦ fails (import_cycle tok.position ∷ [])
    | none ↦
        let pushed = record st { stack = (push path st.stack).1 } in
        if is_on path st.set
        then (pop_stack pushed >>= λ st'. returns ([], st'))
        else (load_api path >>= λ api.
            nested api (record pushed { set = path ∷ pushed.set }) >>= λ r.
            pop_stack r.1 >>= λ st'. returns (r.0 ∷ [], st'))
  ]

  unfoldable pub import_files :
      (Api → Imports → Run (Api × Imports))
      → Text
      → List (Text × Token)
      → Imports
      → Run (List Api × Imports)
  unfolding import_file resolve
  import_files nested filename [] st = returns ([], st)
  import_files nested filename ((p, tok) ∷ ps) st = do
    (one, st') ← import_file nested (resolve paths filename p) tok st
    (others, st2) ← import_files nested filename ps st'
    returns (one ++ others, st2)

  -- `parseReverse`, with one unit of fuel for each file on the way down.
  unfoldable pub parse_reverse : ℕ → Api → Imports → Run (Api × Imports)
  unfolding import_values import_files merge_all
  parse_reverse zero api st = diverges
  parse_reverse (suc fuel) api st = do
    m ← import_values api.import_stmt []
    (others, st') ← import_files (parse_reverse fuel) api.filename (order m) st
    api' ← merge_all api others
    returns (api', st')
