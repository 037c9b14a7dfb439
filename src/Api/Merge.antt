-- ===== src/Api/Merge.antt =====
-- What `mergeAPI` of pkg/parser/api/parser/api.go leaves of a file.
use goctl.Api.Convert.{Api}
use goctl.Api.Errors.{deref}
use goctl.Api.Import.{merge_api, merge_all}
use goctl.Ast.{ServiceStmt, Stmt}
use goctl.Api.Post.{Post, Post-bind, Post-map, Always, deref-Post}
use goctl.Ast.Nodes.{format}
use goctl.Base.{
  ◌≡◌, refl, sym, ap, ◌∙◌, inl, inr, Bool-cases, List, [], ◌∷◌, ◌++◌, append-nil, append_assoc,
  text_eq,
}

-- What a merge leaves of a file: types and services are only added behind.
pub record Extends (api api' : Api) : Type 0 where
  pub same_filename : api'.filename ≡ api.filename
  pub same_syntax : api'.syntax ≡ api.syntax
  pub same_info : api'.info ≡ api.info
  pub same_imports : api'.import_stmt ≡ api.import_stmt
  pub more_types : (ts : List Stmt) × (api'.type_stmt ≡ api.type_stmt ++ ts)
  pub more_services : (ss : List ServiceStmt) × (api'.service_stmts ≡ api.service_stmts ++ ss)

Extends-refl : (api : Api) → Extends api api
Extends-refl api = record {
  same_filename = refl;
  same_syntax = refl;
  same_info = refl;
  same_imports = refl;
  more_types = ([], sym (append-nil api.type_stmt));
  more_services = ([], sym (append-nil api.service_stmts));
}

Extends-trans : (a b c : Api) → Extends a b → Extends b c → Extends a c
Extends-trans a b c x y = record {
  same_filename = y.same_filename ∙ x.same_filename;
  same_syntax = y.same_syntax ∙ x.same_syntax;
  same_info = y.same_info ∙ x.same_info;
  same_imports = y.same_imports ∙ x.same_imports;
  more_types = (
    x.more_types.0 ++ y.more_types.0,
    y.more_types.1
        ∙ ap (λ zs. zs ++ y.more_types.0) x.more_types.1
        ∙ append_assoc a.type_stmt x.more_types.0 y.more_types.0,
  );
  more_services = (
    x.more_services.0 ++ y.more_services.0,
    y.more_services.1
        ∙ ap (λ zs. zs ++ y.more_services.0) x.more_services.1
        ∙ append_assoc a.service_stmts x.more_services.0 y.more_services.0,
  );
}

merge_api-Extends : (api other : Api) → Post (Extends api) (merge_api api other)
unfolding merge_api
merge_api-Extends api other =
    Post-bind Always (Extends api) (deref api.syntax.value) _ (deref-Post api.syntax.value) λ v x.
      Post-bind Always (Extends api) (deref other.syntax.value) _ (deref-Post other.syntax.value)
        λ w y. elim (Bool-cases (text_eq (format [] v) (format [] w))) [
          | inl e ↦ rw e (record {
            same_filename = refl;
            same_syntax = refl;
            same_info = refl;
            same_imports = refl;
            more_types = (other.type_stmt, refl);
            more_services = (other.service_stmts, refl);
          })
          | inr e ↦ rw e tt
        ]

pub merge_all-Extends : (api : Api) (others : List Api) → Post (Extends api) (merge_all api others)
unfolding merge_all
merge_all-Extends api [] = Extends-refl api
merge_all-Extends api (other ∷ others) =
    Post-bind (Extends api) (Extends api) (merge_api api other) _ (merge_api-Extends api other)
      λ b x.
        Post-map (Extends b) (Extends api) (merge_all b others) (merge_all-Extends b others)
          (λ c y. Extends-trans api b c x y)
