-- ===== src/Api/SelfCheck.antt =====
-- `SelfCheck` of pkg/parser/api/parser/api.go, and what a file that passes it has.
use mathlib.Core.Path.{subst}
use goctl.Analyzer.Kind.{is_base_type}
use goctl.Api.Checks.{
  check_import_stmt, check_info_stmt, check_type_stmt, check_type_declare_context, import_nodes,
  type_names, texts_of,
}
use goctl.Api.ServiceChecks.{check_service_stmt}
use goctl.Api.Convert.{Api}
use goctl.Api.Duplicates.{
  check_import_stmt_iff, check_type_stmt_iff, check_info_stmt_iff, info_keys,
}
use goctl.Api.Errors.{Problem, Run, returns, panics, ◌>>=◌, ◌>>◌, error}
use goctl.Api.Import.{FilePath, Imports, parse_reverse}
use goctl.Api.Laws.{error_iff, >>=-eq-returns, returns_cancel}
use goctl.Api.Resolve.{
  names_in_stmts, problems, problem_with, problems-cases, check_type_declare_context-problems,
}
use goctl.Api.Filtered.{AllUnique}
use goctl.Ast.{TokenNode, Node, RouteStmt, Stmt}
use goctl.Base.{
  ℕ, ◌≡◌, refl, ap, ◌∙◌, ◌⊎◌, inl, inr, true, Bool-cases, List, [], ◌∷◌, ◌++◌, Option, none, some,
  Text, All, arith,
}
use goctl.Token.Defs.{Token}
use goctl.Token.Tables.{has_text}

module _ (load : Text → Option (Text × List Stmt)) (paths : FilePath)
    (order : List (Text × Token) → List (Text × Token)) (route_text : RouteStmt → Text)
    (name_text : TokenNode → Text) where
  unfoldable pub self_check : ℕ → Api → Imports → Run (Api × Imports)
  unfolding parse_reverse check_import_stmt check_info_stmt check_type_stmt check_service_stmt
      check_type_declare_context
  self_check fuel api st = do
    (api', st') ← parse_reverse load paths order fuel api st
    check_import_stmt api'
    check_info_stmt api'
    check_type_stmt api'
    check_service_stmt route_text name_text api'
    check_type_declare_context api'
    returns (api', st')

-- A name is there, and is that of a base type or a declared one.
abbrev pub IsKnown : List Text → Node → Type 0
IsKnown ds n =
    (t : TokenNode) × (n ≡ some t)
    × ((is_base_type t.token.text ≡ true) ⊎ (has_text ds t.token.text ≡ true))

problem_with-empty :
    (ds : List Text) (t : TokenNode)
    → problem_with ds t ≡ []
    → (is_base_type t.token.text ≡ true) ⊎ (has_text ds t.token.text ≡ true)
unfolding problem_with
problem_with-empty ds t h = elim (Bool-cases (is_base_type t.token.text)) [
  | inl e ↦ inl e
  | inr e ↦ elim (Bool-cases (has_text ds t.token.text)) [ inl f ↦ inr f | inr f ↦ ground arith ]
]

append-nil_split {ℓ} : {A : Type ℓ} (xs ys : List A) → xs ++ ys ≡ [] → (xs ≡ []) × (ys ≡ [])
append-nil_split [] ys h = (refl, h)
append-nil_split (x ∷ xs) ys h = ground arith

problems-IsKnown :
    (ds : List Text) (ns : List Node) → problems ds ns ≡ returns [] → All (IsKnown ds) ns
unfolding problems
problems-IsKnown ds [] h = tt
problems-IsKnown ds (none ∷ ns) h = ground arith
problems-IsKnown ds (some t ∷ ns) h = elim (problems-cases ds ns) [
  | inl (ps, e) ↦
      let g : ◌≡◌ {A = Run (List Problem)} (returns (problem_with ds t ++ ps)) (returns []) =
        rw e at h in
      let s = append-nil_split (problem_with ds t) ps (cc) in
      ((t, refl, problem_with-empty ds t s.0), problems-IsKnown ds ns (e ∙ ap returns s.1))
  | inr e ↦ let g : ◌≡◌ {A = Run (List Problem)} panics (returns []) = rw e at h in ground arith
]

-- What the checks find in a file.
abbrev pub IsChecked : Api → Type 0
IsChecked api =
    AllUnique (import_nodes api.import_stmt)
    × AllUnique (info_keys api.info)
    × AllUnique (type_names api.type_stmt)
    × ((ds : List Text) × (texts_of (type_names api.type_stmt) ≡ returns ds)
        × All (IsKnown ds) (names_in_stmts api.type_stmt))

check_type_declare_context-IsKnown :
    (api : Api)
    → check_type_declare_context api ≡ returns tt
    → (ds : List Text) × (texts_of (type_names api.type_stmt) ≡ returns ds)
      × All (IsKnown ds) (names_in_stmts api.type_stmt)
check_type_declare_context-IsKnown api h =
    let (ds, e, r) =
      >>=-eq-returns (texts_of (type_names api.type_stmt)) _
        (rw (check_type_declare_context-problems api) at h) in
    let (ps, g, z) = >>=-eq-returns (problems ds (names_in_stmts api.type_stmt)) error r in
    (ds, e, problems-IsKnown ds _ (g ∙ ap returns ((error_iff ps).0 z)))

module _ (load : Text → Option (Text × List Stmt)) (paths : FilePath)
    (order : List (Text × Token) → List (Text × Token)) (route_text : RouteStmt → Text)
    (name_text : TokenNode → Text) where
  -- Where `SelfCheck` returns without an error, the file is the one that `parseReverse` made of it,
  -- and its imported paths, the keys of its info statement and its type names are each unique up to
  -- one place, and every name that a type of it uses is that of a base type or of a type that it
  -- declares.
  pub self_check-IsChecked :
      (fuel : ℕ) (api : Api) (st : Imports) (res : Api × Imports)
      → self_check load paths order route_text name_text fuel api st ≡ returns res
      → (parse_reverse load paths order fuel api st ≡ returns res) × IsChecked res.0
  unfolding self_check
  self_check-IsChecked fuel api st res h =
      let (r, e, h1) = >>=-eq-returns (parse_reverse load paths order fuel api st) _ h in
      let (u1, imports, h2) = >>=-eq-returns (check_import_stmt r.0) _ h1 in
      let (u2, infos, h3) = >>=-eq-returns (check_info_stmt r.0) _ h2 in
      let (u3, types, h4) = >>=-eq-returns (check_type_stmt r.0) _ h3 in
      let (u4, services, h5) = >>=-eq-returns (check_service_stmt route_text name_text r.0) _ h4 in
      let (u5, known, h6) = >>=-eq-returns (check_type_declare_context r.0) _ h5 in
      let facts : IsChecked r.0 = (
        (check_import_stmt_iff r.0).0 imports,
        (check_info_stmt_iff r.0).0 infos,
        (check_type_stmt_iff r.0).0 types,
        check_type_declare_context-IsKnown r.0 known,
      ) in
      let same = returns_cancel r res h6 in
      (e ∙ ap returns same, subst (λ q. IsChecked q.0) same facts)
