-- ===== src/Api/Paths.antt =====
-- The paths that the imports of a file in pkg/parser/api/parser/api.go lead to.
use goctl.Api.Import.{drop_quotes, put_value, put_values, import_values}
use goctl.Api.Post.{Post, Post-bind}
use goctl.Ast.{
  Node, Stmt, syntax_stmt, info_stmt, service_stmt, type_literal, type_group, import_literal,
  import_group, comment_stmt,
}
use goctl.Base.{refl, inl, inr, Bool-cases, List, [], ◌∷◌, ◌++◌, none, some, Text, All, text_eq}
use goctl.ImportStack.{IsIn}
use goctl.Token.Defs.{Token}

-- The imported paths, without their quotes.
abbrev pub node_paths : List Node → List Text
node_paths [] = []
node_paths (none ∷ ns) = node_paths ns
node_paths (some t ∷ ns) = drop_quotes t.token.text ∷ node_paths ns

abbrev pub import_paths : List Stmt → List Text
import_paths [] = []
import_paths (import_literal i v ∷ ss) = node_paths (v ∷ []) ++ import_paths ss
import_paths (import_group i l vs r ∷ ss) = node_paths vs ++ import_paths ss
import_paths (_ ∷ ss) = import_paths ss

abbrev pub keys : List (Text × Token) → List Text
keys [] = []
keys (e ∷ m) = e.0 ∷ keys m

module _ (P : Text → Type 0) where
  All-split : (xs ys : List Text) → All P (xs ++ ys) → All P xs × All P ys
  All-split [] ys h = (tt, h)
  All-split (x ∷ xs) ys h = let s = All-split xs ys h.1 in ((h.0, s.0), s.1)

  pub All-IsIn : (xs : List Text) → All P xs → (x : Text) → IsIn x xs → P x
  All-IsIn [] h x i = absurd i
  All-IsIn (y ∷ xs) h x (inl e) = rw (← e) h.0
  All-IsIn (y ∷ xs) h x (inr i) = All-IsIn xs h.1 x i

  pub IsIn-All : (xs : List Text) → ((x : Text) → IsIn x xs → P x) → All P xs
  IsIn-All [] f = tt
  IsIn-All (x ∷ xs) f = (f x (inl refl), IsIn-All xs λ y i. f y (inr i))

  put_value-All :
      (p : Text) (t : Token) (m : List (Text × Token))
      → P p
      → All P (keys m)
      → All P (keys (put_value p t m))
  unfolding put_value
  put_value-All p t [] h a = (h, tt)
  put_value-All p t ((q, u) ∷ m) h a = elim (Bool-cases (text_eq q p)) [
    | inl e ↦ rw e a
    | inr e ↦ rw e (a.0, put_value-All p t m h a.1)
  ]

  abbrev Keyed : List (Text × Token) → Type 0
  Keyed m = All P (keys m)

  put_values-Keyed :
      (ns : List Node) (m : List (Text × Token))
      → All P (node_paths ns)
      → Keyed m
      → Post Keyed (put_values ns m)
  unfolding put_values
  put_values-Keyed [] m h a = a
  put_values-Keyed (none ∷ ns) m h a = tt
  put_values-Keyed (some t ∷ ns) m h a =
      put_values-Keyed ns _ h.1 (put_value-All (drop_quotes t.token.text) t.token m h.0 a)

  pub import_values-Keyed :
      (ss : List Stmt) (m : List (Text × Token))
      → All P (import_paths ss)
      → Keyed m
      → Post Keyed (import_values ss m)
  unfolding import_values
  import_values-Keyed [] m h a = a
  import_values-Keyed (import_literal i v ∷ ss) m h a =
      let s = All-split (node_paths (v ∷ [])) (import_paths ss) h in
      Post-bind Keyed Keyed (put_values (v ∷ []) m) _ (put_values-Keyed (v ∷ []) m s.0 a)
        (λ m' a'. import_values-Keyed ss m' s.1 a')
  import_values-Keyed (import_group i l vs r ∷ ss) m h a =
      let s = All-split (node_paths vs) (import_paths ss) h in
      Post-bind Keyed Keyed (put_values vs m) _ (put_values-Keyed vs m s.0 a)
        (λ m' a'. import_values-Keyed ss m' s.1 a')
  import_values-Keyed (syntax_stmt _ _ _ ∷ ss) m h a = import_values-Keyed ss m h a
  import_values-Keyed (info_stmt _ _ _ _ ∷ ss) m h a = import_values-Keyed ss m h a
  import_values-Keyed (service_stmt _ ∷ ss) m h a = import_values-Keyed ss m h a
  import_values-Keyed (type_literal _ _ ∷ ss) m h a = import_values-Keyed ss m h a
  import_values-Keyed (type_group _ _ _ _ ∷ ss) m h a = import_values-Keyed ss m h a
  import_values-Keyed (comment_stmt _ ∷ ss) m h a = import_values-Keyed ss m h a
