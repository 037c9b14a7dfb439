-- ===== src/Api/Post.antt =====
-- The functions of pkg/parser/api/parser/api.go that are not cut off by a fuel.
use goctl.Api.Convert.{Api, is_set, duplicate, convert_stmts, convert2api}
use goctl.Api.Errors.{Run, returns, fails, panics, diverges, ◌>>=◌, deref}
use goctl.Ast.{
  Node, Stmt, syntax_stmt, info_stmt, service_stmt, type_literal, type_group, import_literal,
  import_group, comment_stmt,
}
use goctl.Base.{Bool, true, false, Bool-cases, inl, inr, List, [], ◌∷◌, Option, none, some, Text}

-- A call is not cut off by its fuel, and what it returns satisfies `P`.
abbrev pub Post {ℓ} : {A : Type ℓ} → (A → Type 0) → Run A → Type 0
Post P (returns a) = P a
Post P (fails ps) = Unit
Post P panics = Unit
Post P diverges = ⊥

pub Post-bind {ℓ κ} :
    {A : Type ℓ} {B : Type κ} (P : A → Type 0) (Q : B → Type 0) (m : Run A) (f : A → Run B)
    → Post P m
    → ((a : A) → P a → Post Q (f a))
    → Post Q (m >>= f)
Post-bind P Q (returns a) f h k = k a h
Post-bind P Q (fails ps) f h k = tt
Post-bind P Q panics f h k = tt
Post-bind P Q diverges f h k = absurd h

pub Post-map {ℓ} :
    {A : Type ℓ} (P Q : A → Type 0) (m : Run A) → Post P m → ((a : A) → P a → Q a) → Post Q m
Post-map P Q (returns a) h k = k a h
Post-map P Q (fails ps) h k = tt
Post-map P Q panics h k = tt
Post-map P Q diverges h k = absurd h

abbrev pub Always {ℓ} : {A : Type ℓ} → A → Type 0
Always a = Unit

pub deref-Post {ℓ} : {A : Type ℓ} (o : Option A) → Post Always (deref o)
deref-Post none = tt
deref-Post (some a) = tt

duplicate-Post : (n : Node) (msg : Text) → Post {A = Api} Always (duplicate n msg)
unfolding duplicate
duplicate-Post none msg = tt
duplicate-Post (some t) msg = tt

pub convert_stmts-Post :
    (ss : List Stmt) (h i : Bool) (api : Api) → Post Always (convert_stmts ss h i api)
unfolding convert_stmts
convert_stmts-Post [] h i api = tt
convert_stmts-Post (syntax_stmt s a v ∷ ss) true i api = duplicate-Post s _
convert_stmts-Post (syntax_stmt s a v ∷ ss) false i api = convert_stmts-Post ss true i api
convert_stmts-Post (info_stmt n l kvs r ∷ ss) h i api = elim (Bool-cases (is_set api.info)) [
  | inl e ↦ elim (Bool-cases i) [
    | inl g ↦ rw (e, g) (duplicate-Post n _)
    | inr g ↦ rw (e, g) (convert_stmts-Post ss h _ _)
  ]
  | inr e ↦ rw e (convert_stmts-Post ss h _ _)
]
convert_stmts-Post (import_literal _ _ ∷ ss) h i api = convert_stmts-Post ss h i _
convert_stmts-Post (import_group _ _ _ _ ∷ ss) h i api = convert_stmts-Post ss h i _
convert_stmts-Post (service_stmt _ ∷ ss) h i api = convert_stmts-Post ss h i _
convert_stmts-Post (type_literal _ _ ∷ ss) h i api = convert_stmts-Post ss h i _
convert_stmts-Post (type_group _ _ _ _ ∷ ss) h i api = convert_stmts-Post ss h i _
convert_stmts-Post (comment_stmt _ ∷ ss) h i api = convert_stmts-Post ss h i api

pub convert2api-Post : (filename : Text) (ss : List Stmt) → Post Always (convert2api filename ss)
unfolding convert2api
convert2api-Post filename [] = tt
convert2api-Post filename (one ∷ ss) = convert_stmts-Post (one ∷ ss) false false _
