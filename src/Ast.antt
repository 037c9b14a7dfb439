-- ===== src/Ast.antt =====
-- The syntax tree of pkg/parser/api/ast. A `Node` is a pointer to a token node, `none` where it is
-- nil; a token node holds its token with the comments before and behind it.
pub mod Nodes
use goctl.Base.{List, Option}
use goctl.Token.Defs.{Token}

pub record TokenNode : Type 0 where
  pub token : Token
  pub head_comments : List Token
  pub leading_comments : List Token

abbrev pub Node : Type 0
Node = Option TokenNode

-- `ElemExprList` is the type `Elems`, whose `elem` is an `ElemExpr` in front of a list.
mutual
  pub data DataType : Type 0 where
    any_type : Node → DataType
    array_type : Node → Node → Node → DataType → DataType
    base_type : Node → DataType
    interface_type : Node → DataType
    map_type : Node → Node → DataType → Node → DataType → DataType
    pointer_type : Node → DataType → DataType
    slice_type : Node → Node → DataType → DataType
    struct_type : Node → Elems → Node → DataType

  pub data Elems : Type 0 where
    no_elems : Elems
    elem : List Node → DataType → Node → Elems → Elems

pub record TypeExpr : Type 0 where
  pub name : Node
  pub assign : Node
  pub data_type : DataType

pub record KvExpr : Type 0 where
  pub key : Node
  pub value : Node

pub record BodyExpr : Type 0 where
  pub lbrack : Node
  pub rbrack : Node
  pub star : Node
  pub value : Node

pub record BodyStmt : Type 0 where
  pub lparen : Node
  pub body : Option BodyExpr
  pub rparen : Node

pub record RouteStmt : Type 0 where
  pub method : Node
  pub path : Node
  pub request : Option BodyStmt
  pub returns : Node
  pub response : Option BodyStmt

pub data AtDocStmt : Type 0 where
  doc_literal : Node → Node → AtDocStmt
  doc_group : Node → Node → List KvExpr → Node → AtDocStmt

pub record AtHandlerStmt : Type 0 where
  pub at_handler : Node
  pub name : Node

pub record AtServerStmt : Type 0 where
  pub at_server : Node
  pub lparen : Node
  pub values : List KvExpr
  pub rparen : Node

pub record ServiceItemStmt : Type 0 where
  pub at_doc : Option AtDocStmt
  pub at_handler : Option AtHandlerStmt
  pub route : Option RouteStmt

pub record ServiceStmt : Type 0 where
  pub at_server : Option AtServerStmt
  pub service : Node
  pub name : Node
  pub lbrace : Node
  pub routes : List ServiceItemStmt
  pub rbrace : Node

pub data Stmt : Type 0 where
  syntax_stmt : Node → Node → Node → Stmt
  info_stmt : Node → Node → List KvExpr → Node → Stmt
  service_stmt : ServiceStmt → Stmt
  type_literal : Node → TypeExpr → Stmt
  type_group : Node → Node → List TypeExpr → Node → Stmt
  import_literal : Node → Node → Stmt
  import_group : Node → Node → List Node → Node → Stmt
  comment_stmt : Token → Stmt
