-- ===== src/Api/Gather.antt =====
-- What `convert2API` of pkg/parser/api/parser/api.go makes of the statements of a file.
use goctl.Api.Convert.{
  SyntaxStmt, InfoStmt, Api, first_syntax, is_set, duplicate, convert_stmts, convert2api,
}
use goctl.Api.Errors.{returns}
use goctl.Ast.{
  Node, ServiceStmt, Stmt, syntax_stmt, info_stmt, service_stmt, type_literal, type_group,
  import_literal, import_group, comment_stmt,
}
use goctl.Base.{
  ℕ, ◌+◌, ◌≤◌, ◌≡◌, ◌≢◌, sym, ap, ◌∙◌, ◌↔◌, ◌⊎◌, inl, inr, Bool, true, false, List, [], ◌∷◌, ◌++◌,
  append-nil, append_assoc, Option, none, some, Text, arith, if◌then◌else◌,
}

abbrev pub count_syntax : List Stmt → ℕ
count_syntax [] = 0
count_syntax (syntax_stmt _ _ _ ∷ ss) = count_syntax ss + 1
count_syntax (_ ∷ ss) = count_syntax ss

abbrev pub count_info : List Stmt → ℕ
count_info [] = 0
count_info (info_stmt _ _ _ _ ∷ ss) = count_info ss + 1
count_info (_ ∷ ss) = count_info ss

abbrev pub is_import : Stmt → Bool
is_import (import_literal _ _) = true
is_import (import_group _ _ _ _) = true
is_import _ = false

abbrev pub is_type_stmt : Stmt → Bool
is_type_stmt (type_literal _ _) = true
is_type_stmt (type_group _ _ _ _) = true
is_type_stmt _ = false

abbrev pub only : (Stmt → Bool) → List Stmt → List Stmt
only p [] = []
only p (s ∷ ss) = if p s then s ∷ only p ss else only p ss

abbrev pub services_of : List Stmt → List ServiceStmt
services_of [] = []
services_of (service_stmt s ∷ ss) = s ∷ services_of ss
services_of (_ ∷ ss) = services_of ss

-- The first info statement.
abbrev pub info_of : List Stmt → Option InfoStmt
info_of [] = none
info_of (info_stmt n l kvs r ∷ ss) =
    some (record { info = n; lparen = l; values = kvs; rparen = r })
info_of (_ ∷ ss) = info_of ss

abbrev or_else : Option InfoStmt → Option InfoStmt → Option InfoStmt
or_else none o = o
or_else (some i) o = some i

abbrev gathered : List Stmt → Api → Api
gathered ss api = record api {
  info = or_else api.info (info_of ss);
  import_stmt = api.import_stmt ++ only is_import ss;
  type_stmt = api.type_stmt ++ only is_type_stmt ss;
  service_stmts = api.service_stmts ++ services_of ss;
}

abbrev flag : Bool → ℕ
flag true = 1
flag false = 0

-- The loop returns what it has gathered, or there is a second statement of a kind.
abbrev Outcome : List Stmt → Bool → Api → Type 0
Outcome ss has_syntax api =
    let r = convert_stmts ss has_syntax (is_set api.info) api in
    ((count_syntax ss + flag has_syntax ≤ 1)
      × (count_info ss + flag (is_set api.info) ≤ 1)
      × (r ≡ returns (gathered ss api)))
    ⊎ ((¬ ((count_syntax ss + flag has_syntax ≤ 1) × (count_info ss + flag (is_set api.info) ≤ 1)))
        × ((a : Api) → r ≢ returns a))

duplicate-ne-returns : (n : Node) (msg : Text) (a : Api) → duplicate n msg ≢ returns a
unfolding duplicate
duplicate-ne-returns none msg a h = ground arith
duplicate-ne-returns (some t) msg a h = ground arith

flag_bound : (b : Bool) → 0 + flag b ≤ 1
flag_bound true = omega arith
flag_bound false = omega arith

-- The state of the loop by its fields.
abbrev state : Text → SyntaxStmt → Option InfoStmt → List Stmt → List Stmt → List ServiceStmt → Api
state f y o is ts vs = record {
  filename = f;
  syntax = y;
  info = o;
  import_stmt = is;
  type_stmt = ts;
  service_stmts = vs;
}

module _ (f : Text) (y : SyntaxStmt) where
  convert_stmts-Outcome :
      (ss : List Stmt) (h : Bool) (o : Option InfoStmt) (is ts : List Stmt) (vs : List ServiceStmt)
      → Outcome ss h (state f y o is ts vs)
  unfolding convert_stmts
  convert_stmts-Outcome [] h none is ts vs = inl (flag_bound h, omega arith, simp append-nil)
  convert_stmts-Outcome [] h (some i) is ts vs = inl (flag_bound h, omega arith, simp append-nil)
  convert_stmts-Outcome (syntax_stmt s a v ∷ ss) false o is ts vs =
      elim (convert_stmts-Outcome ss true o is ts vs) [
        | inl (a, b, e) ↦ inl (omega arith, b, e)
        | inr (n, d) ↦ inr (λ c. n (omega arith, c.1), d)
      ]
  convert_stmts-Outcome (syntax_stmt s a v ∷ ss) true o is ts vs =
      inr (λ c. omega arith, duplicate-ne-returns s _)
  convert_stmts-Outcome (info_stmt n l kvs r ∷ ss) h none is ts vs =
      let i : Option InfoStmt = some (record { info = n; lparen = l; values = kvs; rparen = r }) in
      elim (convert_stmts-Outcome ss h i is ts vs) [
        | inl (a, b, e) ↦ inl (a, omega arith, e)
        | inr (m, d) ↦ inr (λ c. m (c.0, omega arith), d)
      ]
  convert_stmts-Outcome (info_stmt n l kvs r ∷ ss) h (some i) is ts vs =
      inr (λ c. omega arith, duplicate-ne-returns n _)
  convert_stmts-Outcome (import_literal i v ∷ ss) h o is ts vs =
      elim (convert_stmts-Outcome ss h o (is ++ import_literal i v ∷ []) ts vs) [
        | inl (a, b, e) ↦ inl (a, b, simp (e, append_assoc))
        | inr d ↦ inr d
      ]
  convert_stmts-Outcome (import_group i l xs r ∷ ss) h o is ts vs =
      elim (convert_stmts-Outcome ss h o (is ++ import_group i l xs r ∷ []) ts vs) [
        | inl (a, b, e) ↦ inl (a, b, simp (e, append_assoc))
        | inr d ↦ inr d
      ]
  convert_stmts-Outcome (type_literal n x ∷ ss) h o is ts vs =
      elim (convert_stmts-Outcome ss h o is (ts ++ type_literal n x ∷ []) vs) [
        | inl (a, b, e) ↦ inl (a, b, simp (e, append_assoc))
        | inr d ↦ inr d
      ]
  convert_stmts-Outcome (type_group n l xs r ∷ ss) h o is ts vs =
      elim (convert_stmts-Outcome ss h o is (ts ++ type_group n l xs r ∷ []) vs) [
        | inl (a, b, e) ↦ inl (a, b, simp (e, append_assoc))
        | inr d ↦ inr d
      ]
  convert_stmts-Outcome (service_stmt s ∷ ss) h o is ts vs =
      elim (convert_stmts-Outcome ss h o is ts (vs ++ s ∷ [])) [
        | inl (a, b, e) ↦ inl (a, b, simp (e, append_assoc))
        | inr d ↦ inr d
      ]
  convert_stmts-Outcome (comment_stmt c ∷ ss) h o is ts vs = convert_stmts-Outcome ss h o is ts vs

-- On a file with at least one statement, `convert2API` returns an API exactly if there is at most
-- one syntax statement and at most one info statement, and that API has the first statement's
-- syntax (the default one if it is another statement), the info statement, and the imports, types
-- and services of the file in their order.
pub convert2api_iff :
    (filename : Text) (one : Stmt) (ss : List Stmt) (api : Api)
    → (convert2api filename (one ∷ ss) ≡ returns api) ↔ (
        (count_syntax (one ∷ ss) ≤ 1)
        × (count_info (one ∷ ss) ≤ 1)
        × (api ≡ record {
          filename = filename;
          syntax = first_syntax one;
          info = info_of (one ∷ ss);
          import_stmt = only is_import (one ∷ ss);
          type_stmt = only is_type_stmt (one ∷ ss);
          service_stmts = services_of (one ∷ ss);
        }))
unfolding convert2api
convert2api_iff filename one ss api =
    elim (convert_stmts-Outcome filename (first_syntax one) (one ∷ ss) false none [] [] []) [
      | inl (a, b, e) ↦
          (λ h. (omega arith, omega arith, let k = sym h ∙ e in cc), λ c. e ∙ ap returns (sym c.2))
      | inr (n, d) ↦ (λ h. absurd (d api h), λ c. absurd (n (omega arith, omega arith)))
    ]
