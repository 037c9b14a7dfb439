-- ===== src/Tests/Walk.antt =====
-- The walk over imported files in pkg/parser/api/parser/api.go, on three files of a folder.
use mathlib.Core.Path.{subst}
use goctl.Api.Convert.{Api, default_syntax}
use goctl.Api.Errors.{returns}
use goctl.Api.Import.{FilePath, drop_quotes, resolve, Imports, load_api, parse_reverse}
use goctl.Api.Laws.{returns_cancel}
use goctl.Api.Merge.{Extends}
use goctl.Api.Post.{Post}
use goctl.Api.Walk.{LeadsTo, Onward, parse_reverse-Post}
use goctl.Ast.{Stmt, import_literal, type_literal, struct_type, no_elems}
use goctl.Ast.Nodes.{new_token_node}
use goctl.Base.{
  ◌≡◌, refl, sym, ap, ◌∙◌, inl, inr, Bool, false, ◌||◌, List, [], ◌∷◌, ◌++◌, Option, none, some,
  Text, codes, ◌==◌, text_eq, if◌then◌else◌, arith,
}
use goctl.ImportStack.{is_on, IsIn}
use goctl.Token.Defs.{Token}
use goctl.Token.Kind.{string, ident}

abbrev has_slash : Text → Bool
has_slash [] = false
has_slash (c ∷ s) = c == b'/' || has_slash s

abbrev dir : Text → Text
dir [] = []
dir (c ∷ s) = if has_slash s then c ∷ dir s else []

abbrev is_abs : Text → Bool
is_abs [] = false
is_abs (c ∷ s) = c == b'/'

abbrev paths : FilePath
paths = record { is_abs = is_abs; dir = dir; join = λ d p. d ++ b'/' ∷ p }

abbrev import_of : Text → Stmt
import_of s = import_literal none (
    some (
      new_token_node (record {
        type = string;
        text = b'"' ∷ (s ++ b'"' ∷ []);
        position = record { filename = []; line = 1; column = 1 };
      })))

-- a.api imports b.api, and b.api imports c.api by its absolute path; c.api
-- declares a type.
abbrev file : Text → List Stmt → Api
file name ss = record {
  filename = name;
  syntax = default_syntax;
  info = none;
  import_stmt = ss;
  type_stmt = [];
  service_stmts = [];
}

abbrev a_api : Api
a_api = file (codes "/d/a.api") (import_of (codes "b.api") ∷ [])

abbrev b_api : Api
b_api = file (codes "/d/b.api") (import_of (codes "/d/c.api") ∷ [])

-- type Uid { }
abbrev uid_stmt : Stmt
uid_stmt = type_literal none (record {
  name = some (
      new_token_node (record {
        type = ident;
        text = codes "Uid";
        position = record { filename = []; line = 1; column = 6 };
      }));
  assign = none;
  data_type = struct_type none no_elems none;
})

abbrev c_api : Api
c_api = record (file (codes "/d/c.api") []) { type_stmt = uid_stmt ∷ [] }

abbrev load : Text → Option (Text × List Stmt)
load path =
    if text_eq path (codes "/d/b.api")
    then some (path, import_of (codes "/d/c.api") ∷ [])
    else if text_eq path (codes "/d/c.api")
    then some (path, uid_stmt ∷ [])
    else none

abbrev files : List Text
files = codes "/d/b.api" ∷ codes "/d/c.api" ∷ []

abbrev in_order : List (Text × Token) → List (Text × Token)
in_order m = m

a_api-LeadsTo : LeadsTo paths files a_api
unfolding resolve drop_quotes
a_api-LeadsTo = (inl refl, tt)

b_api-LeadsTo : LeadsTo paths files b_api
unfolding resolve drop_quotes
b_api-LeadsTo = (inr (inl refl), tt)

b_api-loaded : load_api load paths in_order (codes "/d/b.api") ≡ returns b_api
unfolding load_api text_eq
b_api-loaded = refl

c_api-loaded : load_api load paths in_order (codes "/d/c.api") ≡ returns c_api
unfolding load_api text_eq
c_api-loaded = refl

files-closed :
    (path : Text) (api : Api)
    → IsIn path files
    → load_api load paths in_order path ≡ returns api
    → LeadsTo paths files api
files-closed path api (inl e) h =
    let same : returns b_api ≡ returns api =
      sym b_api-loaded ∙ (ap (load_api load paths in_order) e ∙ h) in
    subst (LeadsTo paths files) (returns_cancel b_api api same) b_api-LeadsTo
files-closed path api (inr (inl e)) h =
    let same : returns c_api ≡ returns api =
      sym c_api-loaded ∙ (ap (load_api load paths in_order) e ∙ h) in
    subst (LeadsTo paths files) (returns_cancel c_api api same) tt
files-closed path api (inr (inr i)) h = absurd i

abbrev start : Imports
start = record { stack = codes "/d/a.api" ∷ []; set = [] }

-- The type of c.api ends up in a.api.
walked :
    parse_reverse load paths in_order 3 a_api start
    ≡ returns (
      record a_api { type_stmt = uid_stmt ∷ [] },
      record start { set = codes "/d/c.api" ∷ codes "/d/b.api" ∷ [] },
    )
unfolding parse_reverse
walked = refl

parse_reverse-Post_example :
    Post
      (λ r. Extends a_api r.0 × Onward files start r.1)
      (parse_reverse load paths in_order 3 a_api start)
unfolding is_on
parse_reverse-Post_example =
    parse_reverse-Post load paths in_order files files-closed (λ m p i. i) 3 a_api start
      a_api-LeadsTo (omega arith)
