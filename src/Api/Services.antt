-- ===== src/Api/Services.antt =====
-- `checkServiceStmt` of pkg/parser/api/parser/api.go on services of several names and on items
-- without a handler or a route.
use goctl.Api.ServiceChecks.{
  get_at_server_value, path_node, trim_api_suffix, check_item, check_routes, check_service_name,
  check_services, check_service_stmt,
}
use goctl.Api.Convert.{Api}
use goctl.Api.Errors.{Problem, Run, returns, fails, panics, diverges, ◌>>=◌, deref}
use goctl.Api.Filter.{FilterBuilder, find, check, check_node_with_prefix, new_builder}
use goctl.Ast.{TokenNode, RouteStmt, ServiceItemStmt, ServiceStmt}
use goctl.Base.{
  ◌≡◌, refl, ◌⊎◌, inl, inr, Bool-cases, List, [], ◌∷◌, Option, none, some, Text, codes, text_eq,
  text_eq_iff, arith,
}
use goctl.Api.Answers.{
  Answers, bind-panics, bind-Answers, deref-Answers, check_node_with_prefix-Answers, check-Answers,
  get_at_server_value-Answers,
}

-- The problems with service names are those from before.
abbrev KeepsErrors : List Problem → Run (List Problem × FilterBuilder × FilterBuilder) → Type 0
KeepsErrors errors m =
    (res : List Problem × FilterBuilder × FilterBuilder) → m ≡ returns res → res.0 ≡ errors

KeepsErrors-bind {ℓ} :
    {A : Type ℓ} {errors : List Problem} (m : Run A)
    (f : A → Run (List Problem × FilterBuilder × FilterBuilder))
    → ((a : A) → KeepsErrors errors (f a))
    → KeepsErrors errors (m >>= f)
KeepsErrors-bind (returns a) f h res e = h a res e
KeepsErrors-bind (fails ps) f h res e = ground arith
KeepsErrors-bind panics f h res e = ground arith
KeepsErrors-bind diverges f h res e = ground arith

-- An item without a handler or without a route.
abbrev pub IsIncomplete : ServiceItemStmt → Type 0
IsIncomplete item = (item.at_handler ≡ none) ⊎ (item.route ≡ none)

abbrev pub SomeItem : (ServiceItemStmt → Type 0) → List ServiceItemStmt → Type 0
SomeItem P [] = ⊥
SomeItem P (item ∷ items) = P item ⊎ SomeItem P items

abbrev pub SomeService : (ServiceStmt → Type 0) → List ServiceStmt → Type 0
SomeService P [] = ⊥
SomeService P (s ∷ ss) = P s ⊎ SomeService P ss

abbrev IsSame : List (Text × Text) → Type 0
IsSame [] = Unit
IsSame ((k, v) ∷ m) = (k ≡ v) × IsSame m

find-IsSame : (k : Text) (m : List (Text × Text)) {v : Text} → IsSame m → find k m ≡ some v → v ≡ k
unfolding find
find-IsSame k [] s e = ground arith
find-IsSame k ((j, w) ∷ m) s e = elim (Bool-cases (text_eq j k)) [
  | inl h ↦
      let x = (text_eq_iff j k).0 h in
      let y : ◌≡◌ {A = Option Text} (some w) (some _) = rw h at e in let z = s.0 in cc
  | inr h ↦ find-IsSame k m s.1 (rw h at e)
]

module _ (route_text : RouteStmt → Text) (name_text : TokenNode → Text) where
  abbrev pub Builders : Type 0
  Builders = FilterBuilder × FilterBuilder

  check_item-Answers :
      (prefix group : Text) (item : ServiceItemStmt) (bs : Builders)
      → Answers (check_item route_text name_text prefix group item bs)
  unfolding check_item
  check_item-Answers prefix group item (handlers, paths) =
      bind-Answers (deref item.at_handler) _ (deref-Answers item.at_handler) λ h.
        bind-Answers (check_node_with_prefix group (h.name ∷ []) handlers) _
          (check_node_with_prefix-Answers group (h.name ∷ []) handlers)
          λ b. bind-Answers (deref item.route) _ (deref-Answers item.route) λ r.
            bind-Answers (deref r.method) _ (deref-Answers r.method) λ t.
              let path = some (path_node route_text name_text prefix r t) ∷ [] in
              bind-Answers (check path paths) _ (check-Answers path paths) λ p. inl ((b, p), refl)

  check_item-incomplete :
      (prefix group : Text) (item : ServiceItemStmt) (bs : Builders)
      → IsIncomplete item
      → check_item route_text name_text prefix group item bs ≡ panics
  unfolding check_item
  check_item-incomplete prefix group item (handlers, paths) (inl e) = rw e refl
  check_item-incomplete prefix group item (handlers, paths) (inr e) =
      bind-panics (deref item.at_handler) _ (deref-Answers item.at_handler) λ h.
        bind-panics (check_node_with_prefix group (h.name ∷ []) handlers) _
          (check_node_with_prefix-Answers group (h.name ∷ []) handlers) λ b. rw e refl

  check_routes-Answers :
      (prefix group : Text) (items : List ServiceItemStmt) (bs : Builders)
      → Answers (check_routes route_text name_text prefix group items bs)
  unfolding check_routes
  check_routes-Answers prefix group [] bs = inl (bs, refl)
  check_routes-Answers prefix group (item ∷ items) bs =
      bind-Answers (check_item route_text name_text prefix group item bs) _
        (check_item-Answers prefix group item bs) (check_routes-Answers prefix group items)

  check_routes-incomplete :
      (prefix group : Text) (items : List ServiceItemStmt) (bs : Builders)
      → SomeItem IsIncomplete items
      → check_routes route_text name_text prefix group items bs ≡ panics
  unfolding check_routes
  check_routes-incomplete prefix group [] bs i = absurd i
  check_routes-incomplete prefix group (item ∷ items) bs (inl i) =
      rw (check_item-incomplete prefix group item bs i) refl
  check_routes-incomplete prefix group (item ∷ items) bs (inr i) =
      bind-panics (check_item route_text name_text prefix group item bs) _
        (check_item-Answers prefix group item bs)
        (λ bs'. check_routes-incomplete prefix group items bs' i)

  check_services-incomplete :
      (ss : List ServiceStmt) (met : List (Text × Text) × List Problem) (bs : Builders)
      → SomeService (λ s. SomeItem IsIncomplete s.routes) ss
      → check_services route_text name_text ss met bs ≡ panics
  unfolding check_services
  check_services-incomplete [] met bs i = absurd i
  check_services-incomplete (s ∷ ss) met bs i =
      bind-panics (deref s.name) _ (deref-Answers s.name) λ t.
        bind-panics (get_at_server_value s.at_server (codes "prefix:")) _
          (get_at_server_value-Answers s.at_server _)
          λ prefix.
            bind-panics (get_at_server_value s.at_server (codes "group:")) _
              (get_at_server_value-Answers s.at_server _)
              λ group. elim i [
                | inl j ↦ rw (check_routes-incomplete prefix group s.routes bs j) refl
                | inr j ↦
                    bind-panics (check_routes route_text name_text prefix group s.routes bs) _
                      (check_routes-Answers prefix group s.routes bs)
                      (λ bs'. check_services-incomplete ss _ bs' j)
              ]

  -- If an item of some service has no handler or no route, `checkServiceStmt` panics, whatever else
  -- the file holds.
  pub check_service_stmt_incomplete :
      (api : Api)
      → SomeService (λ s. SomeItem IsIncomplete s.routes) api.service_stmts
      → check_service_stmt route_text name_text api ≡ panics
  unfolding check_service_stmt
  check_service_stmt_incomplete api i =
      rw
        (check_services-incomplete api.service_stmts ([], [])
          (
            new_builder api.filename (codes "handler expression"),
            new_builder api.filename (codes "path expression"),
          )
          i)
        refl

  check_service_name-by_find :
      (t : TokenNode) (names : List (Text × Text)) (errors : List Problem) (o : Option Text)
      → IsSame names
      → find (trim_api_suffix (name_text t)) names ≡ o
      → (m : List (Text × Text)) × (check_service_name route_text name_text t (names, errors)
          ≡ (m, errors))
        × IsSame m
  unfolding check_service_name
  check_service_name-by_find t names errors none s h =
      let name = trim_api_suffix (name_text t) in
      ((name, name) ∷ names, rw (h, check_service_name) refl, (refl, s))
  check_service_name-by_find t names errors (some v) s h =
      let same = (text_eq_iff v (trim_api_suffix (name_text t))).1 (find-IsSame _ names s h) in
      (names, rw (h, check_service_name, same) refl, s)

  check_services-names :
      (ss : List ServiceStmt) (names : List (Text × Text)) (errors : List Problem) (bs : Builders)
      → IsSame names
      → KeepsErrors errors (check_services route_text name_text ss (names, errors) bs)
  unfolding check_services
  check_services-names [] names errors bs s = λ res h. ground arith
  check_services-names (s ∷ ss) names errors bs same = KeepsErrors-bind (deref s.name) _ λ t.
      KeepsErrors-bind (get_at_server_value s.at_server (codes "prefix:")) _ λ prefix.
        KeepsErrors-bind (get_at_server_value s.at_server (codes "group:")) _ λ group.
          KeepsErrors-bind (check_routes route_text name_text prefix group s.routes bs) _ λ bs'.
            let (m, e, k) = check_service_name-by_find t names errors _ same refl in
            rw e (check_services-names ss m errors bs' k)

  -- However many names the services have, where the loop of `checkServiceStmt` over the services
  -- ends, it has reported no problem with a service name.
  pub check_services_names :
      (ss : List ServiceStmt) (bs : Builders) {res : List Problem × FilterBuilder × FilterBuilder}
      → check_services route_text name_text ss ([], []) bs ≡ returns res
      → res.0 ≡ []
  check_services_names ss bs h = check_services-names ss [] [] bs tt _ h
