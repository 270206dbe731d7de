-- ===== src/Ast.antt =====
-- The syntax tree (src/ast/ast.h). A child that the C may leave NULL is the constructor `missing`
-- or `none`. What the checker fills in later, `sem_type`, is not part of the tree here.
use slop.Base.{ℕ, List, Bool}
use slop.Lexer.Kind.{TokenKind}
use slop.Support.Diag.{SrcPos}
use slop.Support.StrView.{StrView}

-- `Type`: types as written.
pub data Syntax : Type 0 where
  missing : Syntax
  core_type : SrcPos → TokenKind → Syntax
  named_type : SrcPos → StrView → Syntax
  pointer_type : SrcPos → Syntax → Syntax
  array_type : SrcPos → Syntax → ℕ → Syntax

mutual
  pub data Expr : Type 0 where
    missing : Expr
    int_lit char_lit : SrcPos → ℕ → Expr
    float_lit string_lit : SrcPos → List ℕ → Expr
    bool_lit : SrcPos → Bool → Expr
    null_lit : SrcPos → Expr
    name : SrcPos → StrView → Expr
    unary : SrcPos → TokenKind → Expr → Expr
    binary : SrcPos → TokenKind → Expr → Expr → Expr
    call : SrcPos → Expr → Exprs → Expr
    index : SrcPos → Expr → Expr → Expr
    field : SrcPos → Expr → StrView → Expr
    cast : SrcPos → Expr → Syntax → Expr
    size_of : SrcPos → Syntax → Expr
    conv : SrcPos → Expr → Expr

  pub data Exprs : Type 0 where
    no_args : Exprs
    arg : Expr → Exprs → Exprs

pub record MatchLabel : Type 0 where
  pub pos : SrcPos
  pub is_wildcard : Bool
  pub value : Expr

mutual
  pub data Stmt : Type 0 where
    missing : Stmt
    block : SrcPos → Stmts → Stmt
    var : SrcPos → Bool → Syntax → StrView → Expr → Stmt
    if_stmt : SrcPos → Expr → Stmts → Stmt → Stmt
    while_stmt : SrcPos → Expr → Stmts → Stmt
    match_stmt : SrcPos → Expr → Arms → Stmt
    ret : SrcPos → Expr → Stmt
    break_stmt continue_stmt : SrcPos → Stmt
    expr_stmt : SrcPos → Expr → Stmt
    assign : SrcPos → Expr → TokenKind → Expr → Stmt
    empty : SrcPos → Stmt

  -- The statements of a `Block`, in order.
  pub data Stmts : Type 0 where
    stop : Stmts
    first : Stmt → Stmts → Stmts

  pub data Arms : Type 0 where
    no_arms : Arms
    arm : SrcPos → List MatchLabel → Stmt → Arms → Arms

pub record Param : Type 0 where
  pub pos : SrcPos
  pub is_mut : Bool
  pub type : Syntax
  pub name : StrView

-- The body's own position is left out.
pub record FnDecl : Type 0 where
  pub pos : SrcPos
  pub name : StrView
  pub params : List Param
  pub is_variadic : Bool
  pub ret : Syntax
  pub body : Stmts
  pub has_body : Bool

pub record Field : Type 0 where
  pub pos : SrcPos
  pub type : Syntax
  pub name : StrView

pub record EnumMember : Type 0 where
  pub pos : SrcPos
  pub name : StrView
  pub has_value : Bool
  pub value : ℕ

pub data Item : Type 0 where
  fn_item : SrcPos → FnDecl → Item
  struct_item : SrcPos → StrView → List Field → Item
  enum_item : SrcPos → StrView → TokenKind → List EnumMember → Item
  global_item : SrcPos → Bool → Syntax → StrView → Expr → Item
  extern_item : SrcPos → StrView → List FnDecl → Item
