-- ===== src/Api/Answers.antt =====
-- The calls of `checkServiceStmt` of pkg/parser/api/parser/api.go return a value or panic.
use goctl.Api.ServiceChecks.{server_value, get_at_server_value}
use goctl.Api.Errors.{Run, returns, panics, ◌>>=◌, deref}
use goctl.Api.Filter.{FilterBuilder, check, check_node_with_prefix}
use goctl.Ast.{Node, KvExpr, AtServerStmt}
use goctl.Base.{
  ◌≡◌, refl, ◌⊎◌, inl, inr, Bool-cases, List, [], ◌∷◌, Option, none, some, Text, text_eq,
}

-- A call returns a value or panics.
abbrev pub Answers {ℓ} : {A : Type ℓ} → Run A → Type ℓ
Answers {A} m = ((a : A) × (m ≡ returns a)) ⊎ (m ≡ panics)

module _ {ℓ κ} {A : Type ℓ} {B : Type κ} (m : Run A) (f : A → Run B) (w : Answers m) where
  pub bind-panics : ((a : A) → f a ≡ panics) → (m >>= f) ≡ panics
  bind-panics h = elim w [ inl (a, e) ↦ rw e (h a) | inr e ↦ rw e refl ]

  pub bind-Answers : ((a : A) → Answers (f a)) → Answers (m >>= f)
  bind-Answers h = elim w [ inl (a, e) ↦ rw e (h a) | inr e ↦ rw e (inr refl) ]

pub deref-Answers {ℓ} : {A : Type ℓ} (o : Option A) → Answers (deref o)
deref-Answers none = inr refl
deref-Answers (some a) = inl (a, refl)

pub check_node_with_prefix-Answers :
    (prefix : Text) (ns : List Node) (b : FilterBuilder)
    → Answers (check_node_with_prefix prefix ns b)
unfolding check_node_with_prefix
check_node_with_prefix-Answers prefix [] b = inl (b, refl)
check_node_with_prefix-Answers prefix (none ∷ ns) b = inr refl
check_node_with_prefix-Answers prefix (some t ∷ ns) b = check_node_with_prefix-Answers prefix ns _

pub check-Answers : (ns : List Node) (b : FilterBuilder) → Answers (check ns b)
unfolding check
check-Answers ns b = check_node_with_prefix-Answers b.filename ns b

server_value-Answers : (kvs : List KvExpr) (key : Text) → Answers (server_value kvs key)
unfolding server_value
server_value-Answers [] key = inl ([], refl)
server_value-Answers (kv ∷ kvs) key = bind-Answers (deref kv.key) _ (deref-Answers kv.key) λ k.
    elim (Bool-cases (text_eq k.token.text key)) [
      | inl e ↦
          rw e
            (bind-Answers (deref kv.value) _ (deref-Answers kv.value) λ v. inl (v.token.text, refl))
      | inr e ↦ rw e (server_value-Answers kvs key)
    ]

pub get_at_server_value-Answers :
    (o : Option AtServerStmt) (key : Text) → Answers (get_at_server_value o key)
unfolding get_at_server_value
get_at_server_value-Answers none key = inl ([], refl)
get_at_server_value-Answers (some s) key = server_value-Answers s.values key
