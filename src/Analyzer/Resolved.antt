-- ===== src/Analyzer/Resolved.antt =====
-- In a file whose type names are known, `fillTypes` of pkg/parser/api/parser/analyzer.go finds the
-- struct of every member.
use goctl.Analyzer.Convert.{ast_type_to_spec, node_texts, members_of}
use goctl.Analyzer.Fill.{
  exprs_of, find_defined_type, lookup_struct, fill_members, fill_structs, fill_data_type,
  fill_type_expr, fill_type_exprs, fill_types,
}
use goctl.Analyzer.Formed.{Made, IsNamed, ast_type_to_spec-Made, node_texts-Post}
use goctl.Analyzer.Kind.{is_base_type}
use goctl.Analyzer.Spec.{
  SpecType, Members, primitive_type, define_struct, nested_struct, map_of, array_of, interface_of,
  pointer_to, no_members, member,
}
use goctl.Api.Checks.{expr_names, texts_of}
use goctl.Api.Convert.{Api}
use goctl.Api.Errors.{Run, returns, deref}
use goctl.Api.Laws.{>>=-eq-returns, returns_cancel}
use goctl.Api.Post.{Post, Post-bind, Always}
use goctl.Api.Resolve.{names_in, names_in_elems, names_in_exprs}
use goctl.Api.SelfCheck.{IsKnown, IsChecked}
use goctl.Ast.{
  TokenNode, Node, DataType, Elems, any_type, array_type, base_type, interface_type, map_type,
  pointer_type, slice_type, struct_type, no_elems, elem, TypeExpr,
}
use goctl.Base.{
  none, ◌≡◌, refl, sym, ap, ◌∙◌, inl, inr, true, Bool-cases, List, [], ◌∷◌, ◌++◌, some, Text, All,
  text_eq, arith,
}
use goctl.Token.Tables.{has_text}
use goctl.Analyzer.Exprs.{type_names-exprs_of, names_in_stmts-exprs_of}

-- A struct that is named is declared.
abbrev IsDeclared : List Text → SpecType → Type 0
IsDeclared ds (define_struct r ms) = has_text ds r ≡ true
IsDeclared ds _ = Unit

abbrev AreDeclared : List Text → Members → Type 0
AreDeclared ds no_members = Unit
AreDeclared ds (member n t tag b ms) = IsDeclared ds t × AreDeclared ds ms

-- The structs of these names, with members that are declared among `ds`.
abbrev Declares : List Text → List SpecType → List Text → Type 0
Declares ds [] [] = Unit
Declares ds (define_struct r ms ∷ ts) (name ∷ names) =
    (r ≡ name) × AreDeclared ds ms × Declares ds ts names
Declares ds _ _ = ⊥

module _ {ℓ κ} {A : Type ℓ} (P : A → Type κ) where
  All-append_split : (xs ys : List A) → All P (xs ++ ys) → All P xs × All P ys
  All-append_split [] ys h = (tt, h)
  All-append_split (x ∷ xs) ys h = let r = All-append_split xs ys h.1 in ((h.0, r.0), r.1)

named-IsDeclared :
    (ds : List Text) (d : DataType) (t : SpecType)
    → All (IsKnown ds) (names_in d)
    → IsNamed d t
    → IsDeclared ds t
unfolding names_in
named-IsDeclared ds d (define_struct r ms) h (t, e, f, g) =
    let k : All (IsKnown ds) (some t ∷ []) = rw e at h in
    let (u, same, known) = k.0 in
    let q : t ≡ u = cc in
    let w : u.token.text ≡ r = ap (λ (x : TokenNode). x.token.text) (sym q) ∙ f in
    elim known [ inl b ↦ let b' : is_base_type r ≡ true = rw w at b in cc | inr b ↦ rw w at b ]
named-IsDeclared ds d (primitive_type r) h n = tt
named-IsDeclared ds d (nested_struct r ms) h n = tt
named-IsDeclared ds d (map_of r k v) h n = tt
named-IsDeclared ds d (array_of r v) h n = tt
named-IsDeclared ds d (interface_of r) h n = tt
named-IsDeclared ds d (pointer_to r t) h n = tt

module _ (written : DataType → Text) (ds : List Text) where
  members_of-AreDeclared :
      (es : Elems)
      → All (IsKnown ds) (names_in_elems es)
      → Post (AreDeclared ds) (members_of written es)
  unfolding members_of names_in
  members_of-AreDeclared no_elems h = tt
  members_of-AreDeclared (elem ns d tag es) h =
      let s = All-append_split (IsKnown ds) (names_in d) (names_in_elems es) h in
      Post-bind Always (AreDeclared ds) (node_texts ns) _ (node_texts-Post ns) λ names _.
        Post-bind (Made d) (AreDeclared ds) (ast_type_to_spec written d) _
          (ast_type_to_spec-Made written d)
          λ t m.
            Post-bind (AreDeclared ds) (AreDeclared ds) (members_of written es) _
              (members_of-AreDeclared es s.1) λ ms k. (named-IsDeclared ds d t s.0 m.2, k)

  fill_data_type-Declares :
      (t : TokenNode) (d : DataType)
      → All (IsKnown ds) (names_in d)
      → Post (λ s. Declares ds (s ∷ []) (t.token.text ∷ [])) (fill_data_type written (some t) d)
  unfolding fill_data_type names_in
  fill_data_type-Declares t (struct_type l es r) h =
      Post-bind (AreDeclared ds) (λ s. Declares ds (s ∷ []) (t.token.text ∷ []))
        (members_of written es) _ (members_of-AreDeclared es h) λ ms m. (refl, m, tt)
  fill_data_type-Declares t (any_type _) h = tt
  fill_data_type-Declares t (array_type _ _ _ _) h = tt
  fill_data_type-Declares t (base_type _) h = tt
  fill_data_type-Declares t (interface_type _) h = tt
  fill_data_type-Declares t (map_type _ _ _ _ _) h = tt
  fill_data_type-Declares t (pointer_type _ _) h = tt
  fill_data_type-Declares t (slice_type _ _ _) h = tt

  Declares-cons :
      (s : SpecType) (name : Text) (ts : List SpecType) (names : List Text)
      → Declares ds (s ∷ []) (name ∷ [])
      → Declares ds ts names
      → Declares ds (s ∷ ts) (name ∷ names)
  Declares-cons (define_struct r ms) name ts names h k = (h.0, h.1, k)
  Declares-cons (primitive_type _) name ts names h k = absurd h
  Declares-cons (nested_struct _ _) name ts names h k = absurd h
  Declares-cons (map_of _ _ _) name ts names h k = absurd h
  Declares-cons (array_of _ _) name ts names h k = absurd h
  Declares-cons (interface_of _) name ts names h k = absurd h
  Declares-cons (pointer_to _ _) name ts names h k = absurd h

  deref-returns : (n : Node) (t : TokenNode) → deref n ≡ returns t → n ≡ some t
  deref-returns none t e = ground arith
  deref-returns (some u) t e = let q : u ≡ t = cc in ap some q

  fill_type_exprs-Declares :
      (xs : List TypeExpr) (names : List Text)
      → texts_of (expr_names xs) ≡ returns names
      → All (IsKnown ds) (names_in_exprs xs)
      → Post (λ ts. Declares ds ts names) (fill_type_exprs written xs)
  unfolding fill_type_exprs fill_type_expr texts_of expr_names names_in_exprs
  fill_type_exprs-Declares [] names e h = rw (sym (returns_cancel [] names e)) tt
  fill_type_exprs-Declares (x ∷ xs) names e h =
      let (t, et, e1) = >>=-eq-returns (deref x.name) _ e in
      let (rest, er, e2) = >>=-eq-returns (texts_of (expr_names xs)) _ e1 in
      let whole = returns_cancel (t.token.text ∷ rest) names e2 in
      let s = All-append_split (IsKnown ds) (names_in x.data_type) (names_in_exprs xs) h in
      rw (deref-returns x.name t et, sym whole)
        (Post-bind (λ u. Declares ds (u ∷ []) (t.token.text ∷ []))
          (λ ts. Declares ds ts (t.token.text ∷ rest)) (fill_data_type written (some t) x.data_type)
          _ (fill_data_type-Declares t x.data_type s.0)
          λ u k.
            Post-bind (λ ts. Declares ds ts rest) (λ ts. Declares ds ts (t.token.text ∷ rest))
              (fill_type_exprs written xs) _ (fill_type_exprs-Declares xs rest er s.1)
              λ ts k'. Declares-cons u t.token.text ts rest k k')

find_defined_type-returns :
    (ds : List Text) (ts : List SpecType) (names : List Text) (r : Text)
    → Declares ds ts names
    → has_text names r ≡ true
    → (t : SpecType) × (find_defined_type r ts ≡ returns t)
unfolding find_defined_type has_text
find_defined_type-returns ds [] [] r d h = ground arith
find_defined_type-returns ds [] (n ∷ ns) r d h = absurd d
find_defined_type-returns ds (define_struct q ms ∷ ts) [] r d h = absurd d
find_defined_type-returns ds (define_struct q ms ∷ ts) (n ∷ ns) r d h =
    elim (Bool-cases (text_eq q r)) [
      | inl e ↦ (define_struct q ms, rw e refl)
      | inr e ↦
          let k : has_text ns r ≡ true = ground (arith, ap (λ x. text_eq x r) d.0) in
          rw e (find_defined_type-returns ds ts ns r d.2 k)
    ]
find_defined_type-returns ds (primitive_type _ ∷ ts) ns r d h = absurd d
find_defined_type-returns ds (nested_struct _ _ ∷ ts) ns r d h = absurd d
find_defined_type-returns ds (map_of _ _ _ ∷ ts) ns r d h = absurd d
find_defined_type-returns ds (array_of _ _ ∷ ts) ns r d h = absurd d
find_defined_type-returns ds (interface_of _ ∷ ts) ns r d h = absurd d
find_defined_type-returns ds (pointer_to _ _ ∷ ts) ns r d h = absurd d

module _ (ds : List Text) (ts : List SpecType) (d : Declares ds ts ds) where
  lookup_struct-returns :
      (t : SpecType) → IsDeclared ds t → (u : SpecType) × (lookup_struct ts t ≡ returns u)
  unfolding lookup_struct
  lookup_struct-returns (define_struct r ms) h = find_defined_type-returns ds ts ds r d h
  lookup_struct-returns (primitive_type r) h = (primitive_type r, refl)
  lookup_struct-returns (nested_struct r ms) h = (nested_struct r ms, refl)
  lookup_struct-returns (map_of r k v) h = (map_of r k v, refl)
  lookup_struct-returns (array_of r v) h = (array_of r v, refl)
  lookup_struct-returns (interface_of r) h = (interface_of r, refl)
  lookup_struct-returns (pointer_to r t) h = (pointer_to r t, refl)

  fill_members-returns :
      (ms : Members) → AreDeclared ds ms → (ms' : Members) × (fill_members ts ms ≡ returns ms')
  unfolding fill_members
  fill_members-returns no_members h = (no_members, refl)
  fill_members-returns (member n t tag b ms) h =
      let (u, e) = lookup_struct-returns t h.0 in
      let (ms', e') = fill_members-returns ms h.1 in (member n u tag b ms', rw (e, e') refl)

  fill_structs-returns :
      (us : List SpecType) (names : List Text)
      → Declares ds us names
      → (vs : List SpecType) × (fill_structs ts us ≡ returns vs)
  unfolding fill_structs
  fill_structs-returns [] names h = ([], refl)
  fill_structs-returns (define_struct r ms ∷ us) [] h = absurd h
  fill_structs-returns (define_struct r ms ∷ us) (n ∷ names) h =
      let (ms', e) = fill_members-returns ms h.1 in
      let (vs, e') = fill_structs-returns us names h.2 in
      (define_struct r ms' ∷ vs, rw (e, e') refl)
  fill_structs-returns (primitive_type _ ∷ us) names h = absurd h
  fill_structs-returns (nested_struct _ _ ∷ us) names h = absurd h
  fill_structs-returns (map_of _ _ _ ∷ us) names h = absurd h
  fill_structs-returns (array_of _ _ ∷ us) names h = absurd h
  fill_structs-returns (interface_of _ ∷ us) names h = absurd h
  fill_structs-returns (pointer_to _ _ ∷ us) names h = absurd h

Post-returns {ℓ} :
    {A : Type ℓ} (P : A → Type 0) (m : Run A) (a : A) → Post P m → m ≡ returns a → P a
Post-returns P m a h e = let k : Post P (returns a) = rw e at h in k

-- For a file that has passed the checks, once the first loop of `fillTypes` has turned the type
-- expressions into structs, `fillTypes` returns: the struct of every member whose type is a name is
-- found.
pub fill_types-returns :
    (written : DataType → Text) (api : Api) (ts : List SpecType)
    → IsChecked api
    → fill_type_exprs written (exprs_of api.type_stmt) ≡ returns ts
    → (us : List SpecType) × (fill_types written api ≡ returns us)
unfolding fill_types
fill_types-returns written api ts c e =
    let (ds, named, known) = c.3 in
    let named' : texts_of (expr_names (exprs_of api.type_stmt)) ≡ returns ds =
      rw (type_names-exprs_of api.type_stmt) at named in
    let known' : All (IsKnown ds) (names_in_exprs (exprs_of api.type_stmt)) =
      rw (names_in_stmts-exprs_of api.type_stmt) at known in
    let d =
      Post-returns (λ us. Declares ds us ds) (fill_type_exprs written (exprs_of api.type_stmt)) ts
        (fill_type_exprs-Declares written ds (exprs_of api.type_stmt) ds named' known') e in
    rw e (fill_structs-returns ds ts d ts ds d)
