-- ===== src/Tests/Imports.antt =====
-- The stack of import paths of pkg/parser/api/importstack/importstack.go.
use goctl.Base.{◌≡◌, ◌⊎◌, refl, List, [], ◌∷◌, none, some, Text, codes}
use goctl.ImportStack.{
  import_cycle_not_allowed, push, pop, is_on, is_on-not_IsIn, IsIn, IsDistinct, push_lem,
}

abbrev imports : List Text
imports = codes "a.api" ∷ codes "b.api" ∷ []

imports-IsDistinct : IsDistinct imports
imports-IsDistinct =
    (is_on-not_IsIn (codes "a.api") (codes "b.api" ∷ []) (unfold is_on in refl), (λ i. i, tt))

push_lem_example :
    (IsIn (codes "a.api") imports
      × (push (codes "a.api") imports ≡ (some import_cycle_not_allowed, imports)))
    ⊎ ((¬ IsIn (codes "a.api") imports)
        × ((push (codes "a.api") imports).0 ≡ none)
        × IsDistinct (push (codes "a.api") imports).1
        × (pop (push (codes "a.api") imports).1 ≡ some imports))
push_lem_example = push_lem (codes "a.api") imports imports-IsDistinct
