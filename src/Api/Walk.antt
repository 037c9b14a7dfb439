-- ===== src/Api/Walk.antt =====
-- The walk over imported files in pkg/parser/api/parser/api.go ends, and leaves the import stack as
-- it was.
use goctl.Api.Convert.{Api, convert2api}
use goctl.Api.Errors.{Run, returns, fails, panics, diverges, unparsed}
use goctl.Api.Import.{
  FilePath, resolve, Imports, merge_all, import_values, load_api, pop_stack, import_file,
  import_files, parse_reverse,
}
use goctl.Ast.{Stmt}
use goctl.Api.Paths.{import_paths, keys, All-IsIn, IsIn-All, import_values-Keyed}
use goctl.Api.Post.{Post, Post-bind, Always, convert2api-Post}
use goctl.Base.{
  All, ℕ, zero, suc, ◌+◌, ◌≤◌, ◌<◌, ◌≡◌, refl, sym, ◌∙◌, inl, inr, true, false, Bool-cases, List,
  [], ◌∷◌, ◌++◌, Option, none, some, Text, text_eq_iff, if◌then◌else◌, arith,
}
use goctl.ImportStack.{is_on, push, pop-concat, import_cycle_not_allowed, IsIn}
use goctl.Token.Defs.{Token}
use goctl.Api.Merge.{Extends, merge_all-Extends}

-- How many of the files are not in the set.
abbrev pub missing : List Text → List Text → ℕ
missing [] set = 0
missing (u ∷ us) set = (if is_on u set then 0 else 1) + missing us set

missing-cons-le : (us set : List Text) (p : Text) → missing us (p ∷ set) ≤ missing us set
unfolding is_on
missing-cons-le [] set p = omega arith
missing-cons-le (u ∷ us) set p = ground (arith, missing-cons-le us set p)

missing-cons-lt :
    (us set : List Text) (p : Text)
    → IsIn p us
    → is_on p set ≡ false
    → missing us (p ∷ set) < missing us set
unfolding is_on
missing-cons-lt [] set p i e = absurd i
missing-cons-lt (u ∷ us) set p (inl h) e =
    let same = (text_eq_iff p u).1 (sym h) in
    rw (same, h, e) (ground (arith, missing-cons-le us set p))
missing-cons-lt (u ∷ us) set p (inr i) e = ground (arith, missing-cons-lt us set p i e)

-- From a state of the imports to another: the same stack, and no more files missing from the set.
abbrev pub Onward : List Text → Imports → Imports → Type 0
Onward us st st' = (st'.stack ≡ st.stack) × (missing us st'.set ≤ missing us st.set)

-- The imports of a file lead to files of a list.
abbrev pub LeadsTo : FilePath → List Text → Api → Type 0
LeadsTo paths us api =
    All (λ p. IsIn (resolve paths api.filename p) us) (import_paths api.import_stmt)

Post-returned : (m : Run Api) → Post Always m → Post (λ api. m ≡ returns api) m
Post-returned (returns api) h = refl
Post-returned (fails ps) h = tt
Post-returned panics h = tt
Post-returned diverges h = h

module _ (load : Text → Option (Text × List Stmt)) (paths : FilePath)
    (order : List (Text × Token) → List (Text × Token)) (us : List Text)
    (closed : (path : Text) (api : Api)
      → IsIn path us
      → load_api load paths order path ≡ returns api
      → LeadsTo paths us api)
    (visits : (m : List (Text × Token)) (p : Text)
      → IsIn p (keys (order m))
      → IsIn p (keys m)) where
  load_api-Post : (path : Text) → Post Always (load_api load paths order path)
  unfolding load_api
  load_api-Post path =
      elim (load path)
        as (λ o. Post Always (elim o [
          | none ↦ fails (unparsed path ∷ [])
          | some (filename, stmts) ↦ convert2api filename stmts
        ])) [ none ↦ tt | some (filename, stmts) ↦ convert2api-Post filename stmts ]

  abbrev Walks : (Api → Imports → Run (Api × Imports)) → ℕ → Type 0
  Walks nested n =
      (api : Api) (st : Imports)
      → LeadsTo paths us api
      → missing us st.set < n
      → Post (λ r. Extends api r.0 × Onward us st r.1) (nested api st)

  push-fresh :
      (path : Text) (s : List Text) → is_on path s ≡ false → push path s ≡ (none, s ++ path ∷ [])
  unfolding push
  push-fresh path s e = rw (e, push) refl

  push-cycle :
      (path : Text) (s : List Text)
      → is_on path s ≡ true
      → push path s ≡ (some import_cycle_not_allowed, s)
  unfolding push
  push-cycle path s e = rw (e, push) refl

  pop_stack-Onward :
      (path : Text) (st st' : Imports)
      → st'.stack ≡ st.stack ++ path ∷ []
      → missing us st'.set ≤ missing us st.set
      → Post (Onward us st) (pop_stack load paths order st')
  unfolding pop_stack
  pop_stack-Onward path st st' e l = rw (e, pop_stack, pop-concat path st.stack) (refl, l)

  import_file-Post :
      (nested : Api → Imports → Run (Api × Imports)) (n : ℕ) (path : Text) (tok : Token)
      (st : Imports)
      → Walks nested n
      → IsIn path us
      → missing us st.set < suc n
      → Post (λ r. Onward us st r.1) (import_file load paths order nested path tok st)
  unfolding import_file
  import_file-Post nested n path tok st w i m =
      let Walked : List Api × Imports → Type 0 = λ r. Onward us st r.1 in
      elim (Bool-cases (is_on path st.stack)) [
        | inl e ↦ rw (push-cycle path st.stack e, import_file) tt
        | inr e ↦ elim (Bool-cases (is_on path st.set)) [
          | inl f ↦
              let pushed : Imports = record st { stack = st.stack ++ path ∷ [] } in
              rw (push-fresh path st.stack e, import_file)
                (rw (push-fresh path st.stack e, f)
                  (Post-bind (Onward us st) (λ r. Onward us st r.1)
                    (pop_stack load paths order pushed) _
                    (pop_stack-Onward path st pushed refl (omega arith)) (λ st' o. o)))
          | inr f ↦
              let inner : Imports = record { stack = st.stack ++ path ∷ []; set = path ∷ st.set } in
              let less = missing-cons-lt us st.set path i f in
              rw (push-fresh path st.stack e, import_file)
                (rw (push-fresh path st.stack e, f)
                  (Post-bind (λ api. load_api load paths order path ≡ returns api) Walked
                    (load_api load paths order path) _
                    (Post-returned (load_api load paths order path) (load_api-Post path))
                    λ api loaded.
                      Post-bind (λ r. Extends api r.0 × Onward us inner r.1) Walked
                        (nested api inner) _ (w api inner (closed path api i loaded) (omega arith))
                        λ r o.
                          Post-bind (Onward us st) Walked (pop_stack load paths order r.1) _
                            (pop_stack-Onward path st r.1 o.1.0 (omega (arith, o.1.1)))
                            (λ st' q. q)))
        ]
      ]

  import_files-Post :
      (nested : Api → Imports → Run (Api × Imports)) (n : ℕ) (filename : Text)
      (ps : List (Text × Token)) (st : Imports)
      → Walks nested n
      → All (λ p. IsIn (resolve paths filename p) us) (keys ps)
      → missing us st.set < suc n
      → Post (λ r. Onward us st r.1) (import_files load paths order nested filename ps st)
  unfolding import_files
  import_files-Post nested n filename [] st w k m = (refl, omega arith)
  import_files-Post nested n filename ((p, tok) ∷ ps) st w k m =
      let Walked : List Api × Imports → Type 0 = λ r. Onward us st r.1 in
      let path = resolve paths filename p in
      Post-bind Walked Walked (import_file load paths order nested path tok st) _
        (import_file-Post nested n path tok st w k.0 m)
        λ r o.
          Post-bind (λ q. Onward us r.1 q.1) Walked
            (import_files load paths order nested filename ps r.1) _
            (import_files-Post nested n filename ps r.1 w k.1 (omega (arith, o.1)))
            (λ q o'. (o'.0 ∙ o.0, omega (arith, o.1, o'.1)))

  -- If the imports of the file, and those of every file of a list that loads, lead to files of the
  -- list, and the walk over a map meets keys of it only, then `parseReverse`, with more fuel than
  -- there are files of the list outside the set of imported files, is not cut off by its fuel.
  -- Where it returns, the import stack is as it was, no more files are outside the set than before,
  -- and the file keeps its name, syntax, info and imports, its types and services with others
  -- behind them.
  pub parse_reverse-Post :
      (fuel : ℕ) (api : Api) (st : Imports)
      → LeadsTo paths us api
      → missing us st.set < fuel
      → Post (λ r. Extends api r.0 × Onward us st r.1) (parse_reverse load paths order fuel api st)
  unfolding parse_reverse
  parse_reverse-Post zero api st k m = absurd (omega arith)
  parse_reverse-Post (suc fuel) api st k m =
      let Done : Api × Imports → Type 0 = λ r. Extends api r.0 × Onward us st r.1 in
      let Leads : Text → Type 0 = λ p. IsIn (resolve paths api.filename p) us in
      Post-bind (λ values. All Leads (keys values)) Done (import_values api.import_stmt []) _
        (import_values-Keyed Leads api.import_stmt [] k tt)
        λ values led.
          Post-bind (λ r. Onward us st r.1) Done
            (import_files load paths order (parse_reverse load paths order fuel) api.filename
              (order values) st)
            _
            (import_files-Post (parse_reverse load paths order fuel) fuel api.filename
              (order values) st (parse_reverse-Post fuel)
              (IsIn-All Leads (keys (order values))
                λ p i. All-IsIn Leads (keys values) led p (visits values p i))
              m)
            λ r o.
              Post-bind (Extends api) Done (merge_all api r.0) _ (merge_all-Extends api r.0)
                (λ api' x. (x, o))
