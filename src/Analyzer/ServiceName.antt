-- ===== src/Analyzer/ServiceName.antt =====
-- The name of the service in pkg/parser/api/parser/analyzer.go, and the types of its routes.
use mathlib.Core.Path.{subst}
use goctl.Analyzer.Service.{
  Route, Group, annotation_of, fill_route, agree_name, fill_routes, fill_service,
}
use goctl.Analyzer.Spec.{SpecType}
use goctl.Api.Errors.{Run, returns, fails, refused, many_service_names}
use goctl.Api.Laws.{>>=-eq-returns, returns_cancel}
use goctl.Ast.{TokenNode, Node, BodyExpr, ServiceItemStmt, ServiceStmt}
use goctl.Base.{
  ◌≡◌, refl, sym, ap, ◌∙◌, ◌⊎◌, inl, inr, Bool-cases, List, [], ◌∷◌, none, some, Text, text_eq,
  text_eq_iff, All, arith,
}

-- A name that is not empty is kept.
abbrev pub Follows : Text → Text → Type 0
Follows a b = (a ≡ []) ⊎ (b ≡ a)

Follows-trans : (a b c : Text) → Follows a b → Follows b c → Follows a c
Follows-trans a b c (inl e) y = inl e
Follows-trans a b c (inr e) (inl f) = inl (sym e ∙ f)
Follows-trans a b c (inr e) (inr f) = inr (f ∙ e)

module _ (body_text : BodyExpr → Text) (name_text : TokenNode → Text) (ts : List SpecType) where
  -- The name of a service is there, and is empty or the last name.
  abbrev pub HasName : Node → Text → Type 0
  HasName n last = (t : TokenNode) × (n ≡ some t) × Follows (name_text t) last

  agree_name-Follows :
      (n : Node) (name name' : Text)
      → agree_name body_text name_text ts n name ≡ returns name'
      → Follows name name' × (t : TokenNode) × (n ≡ some t) × (name' ≡ name_text t)
  unfolding agree_name
  agree_name-Follows none name name' h = ground arith
  agree_name-Follows (some t) name name' h = elim (Bool-cases (text_eq name [])) [
    | inl e ↦
        let k : returns (name_text t) ≡ returns name' = rw e at h in
        let q = returns_cancel (name_text t) name' k in
        (inl ((text_eq_iff name []).0 e), t, refl, sym q)
    | inr e ↦ elim (Bool-cases (text_eq name (name_text t))) [
      | inl g ↦
          let k : returns (name_text t) ≡ returns name' = rw (e, g) at h in
          let q = returns_cancel (name_text t) name' k in
          (inr (sym q ∙ sym ((text_eq_iff name (name_text t)).0 g)), t, refl, sym q)
      | inr g ↦
          let k : ◌≡◌ {A = Run Text} (fails (refused (many_service_names (name_text t) name) ∷ []))
              (returns name') =
            rw (e, g) at h in
          ground arith
    ]
  ]

  fill_routes-HasName :
      (n : Node) (items : List ServiceItemStmt) (name : Text) (res : List Route × Text)
      → fill_routes body_text name_text ts n items name ≡ returns res
      → Follows name res.1 × ((items ≡ []) ⊎ HasName n res.1)
  unfolding fill_routes
  fill_routes-HasName n [] name res h =
      let q = returns_cancel ([], name) res h in
      (inr (ap (λ (r : List Route × Text). r.1) (sym q)), inl refl)
  fill_routes-HasName n (item ∷ items) name res h =
      let (route, e1, h1) = >>=-eq-returns (fill_route body_text name_text ts item) _ h in
      let (name', e2, h2) = >>=-eq-returns (agree_name body_text name_text ts n name) _ h1 in
      let (rest, e3, h3) = >>=-eq-returns (fill_routes body_text name_text ts n items name') _ h2 in
      let q = returns_cancel (route ∷ rest.0, rest.1) res h3 in
      let last : rest.1 ≡ res.1 = ap (λ (r : List Route × Text). r.1) q in
      let (first, t, there, same) = agree_name-Follows n name name' e2 in
      let (later, used) = fill_routes-HasName n items name' rest e3 in
      let f : Follows name' res.1 = rw last at later in
      (Follows-trans name name' res.1 first f, inr (t, there, rw same at f))

  fill_service-HasName :
      (ss : List ServiceStmt) (name : Text) (res : List Group × Text)
      → fill_service body_text name_text ts ss name ≡ returns res
      → Follows name res.1 × All (λ s. (s.routes ≡ []) ⊎ HasName s.name res.1) ss
  unfolding fill_service
  fill_service-HasName [] name res h =
      let q = returns_cancel ([], name) res h in
      (inr (ap (λ (r : List Group × Text). r.1) (sym q)), tt)
  fill_service-HasName (s ∷ ss) name res h =
      let (m, e1, h1) = >>=-eq-returns (annotation_of s.at_server) _ h in
      let (mid, e2, h2) =
        >>=-eq-returns (fill_routes body_text name_text ts s.name s.routes name) _ h1 in
      let (rest, e3, h3) = >>=-eq-returns (fill_service body_text name_text ts ss mid.1) _ h2 in
      let q = returns_cancel (record { annotation = m; routes = mid.0 } ∷ rest.0, rest.1) res h3 in
      let last : rest.1 ≡ res.1 = ap (λ (r : List Group × Text). r.1) q in
      let (first, used) = fill_routes-HasName s.name s.routes name mid e2 in
      let (later, others) = fill_service-HasName ss mid.1 rest e3 in
      let f : Follows mid.1 res.1 = rw last at later in
      (
        Follows-trans name mid.1 res.1 first f,
        (
          elim used [
            | inl e ↦ inl e
            | inr (t, there, g) ↦ inr (t, there, Follows-trans (name_text t) mid.1 res.1 g f)
          ],
          subst (λ l. All (λ s. (s.routes ≡ []) ⊎ HasName s.name l) ss) last others,
        ),
      )

  -- Where `fillService`, begun with no service name, returns, every service with a route prints its
  -- name as the last name, or as the empty text.
  pub fill_service_names :
      (ss : List ServiceStmt) (res : List Group × Text)
      → fill_service body_text name_text ts ss [] ≡ returns res
      → All (λ s. (s.routes ≡ []) ⊎ HasName s.name res.1) ss
  fill_service_names ss res h = (fill_service-HasName ss [] res h).1
