-- ===== src/Sema/Check/Tree.antt =====
-- The tree that the checker fills in (`Expr` of src/ast/ast.h with its `sem_type`), and the
-- statements over it. An expression's `sem_type` is NULL until it is checked.
use slop.Base.{ℕ, suc, List, Bool, max, Option, none, some}
use slop.Lexer.Kind.{TokenKind}
use slop.Ast.{Syntax, Expr, Exprs}
use slop.Support.Diag.{SrcPos}
use slop.Support.StrView.{StrView}
use slop.Sema.Types.{TyRef}

mutual
  pub data Typed : Type 0 where
    null : Typed
    node : SrcPos → Option TyRef → Shape → Typed

  -- The kind of an expression, with the union's member.
  pub data Shape : Type 0 where
    int_lit char_lit : ℕ → Shape
    float_lit string_lit : List ℕ → Shape
    bool_lit : Bool → Shape
    null_lit : Shape
    name : StrView → Shape
    unary : TokenKind → Typed → Shape
    binary : TokenKind → Typed → Typed → Shape
    call : Typed → TypedArgs → Shape
    index : Typed → Typed → Shape
    field : Typed → StrView → Shape
    cast : Typed → Syntax → Shape
    size_of : Syntax → Shape
    conv : Typed → Shape

  pub data TypedArgs : Type 0 where
    no_args : TypedArgs
    arg : Typed → TypedArgs → TypedArgs

-- The tree as the parser left it.
unfoldable mutual
  pub enter : Expr → Typed
  enter Expr.missing = null
  enter (Expr.int_lit p n) = node p none (Shape.int_lit n)
  enter (Expr.char_lit p n) = node p none (Shape.char_lit n)
  enter (Expr.float_lit p t) = node p none (Shape.float_lit t)
  enter (Expr.string_lit p t) = node p none (Shape.string_lit t)
  enter (Expr.bool_lit p b) = node p none (Shape.bool_lit b)
  enter (Expr.null_lit p) = node p none Shape.null_lit
  enter (Expr.name p n) = node p none (Shape.name n)
  enter (Expr.unary p op x) = node p none (Shape.unary op (enter x))
  enter (Expr.binary p op l r) = node p none (Shape.binary op (enter l) (enter r))
  enter (Expr.call p c es) = node p none (Shape.call (enter c) (enter_args es))
  enter (Expr.index p b i) = node p none (Shape.index (enter b) (enter i))
  enter (Expr.field p b n) = node p none (Shape.field (enter b) n)
  enter (Expr.cast p x t) = node p none (Shape.cast (enter x) t)
  enter (Expr.size_of p t) = node p none (Shape.size_of t)
  enter (Expr.conv p x) = node p none (Shape.conv (enter x))

  pub enter_args : Exprs → TypedArgs
  enter_args Exprs.no_args = TypedArgs.no_args
  enter_args (Exprs.arg x es) = TypedArgs.arg (enter x) (enter_args es)

-- How deep a check goes: it does not look below a conversion.
unfoldable mutual
  pub height : Typed → ℕ
  height null = 0
  height (node p t x) = suc (height_shape x)

  pub height_shape : Shape → ℕ
  height_shape (Shape.unary op x) = height x
  height_shape (Shape.binary op l r) = max (height l) (height r)
  height_shape (Shape.call c es) = height_args es
  height_shape (Shape.index b i) = max (height b) (height i)
  height_shape (Shape.field b n) = height b
  height_shape (Shape.cast x t) = height x
  height_shape _ = 0

  pub height_args : TypedArgs → ℕ
  height_args TypedArgs.no_args = 0
  height_args (TypedArgs.arg x es) = max (height x) (height_args es)

-- `e->sem_type`, which C reads through the pointer.
abbrev pub sem_type : Typed → Option TyRef
sem_type null = none
sem_type (node p t x) = t

abbrev pub set_type : Typed → TyRef → Typed
set_type null t = null
set_type (node p u x) t = node p (some t) x

pub record TypedLabel : Type 0 where
  pub pos : SrcPos
  pub is_wildcard : Bool
  pub value : Typed

mutual
  pub data TypedStmt : Type 0 where
    missing : TypedStmt
    block : SrcPos → TypedStmts → TypedStmt
    var : SrcPos → Bool → Syntax → StrView → Typed → TypedStmt
    if_stmt : SrcPos → Typed → TypedStmts → TypedStmt → TypedStmt
    while_stmt : SrcPos → Typed → TypedStmts → TypedStmt
    match_stmt : SrcPos → Typed → TypedArms → TypedStmt
    ret : SrcPos → Typed → TypedStmt
    break_stmt continue_stmt : SrcPos → TypedStmt
    expr_stmt : SrcPos → Typed → TypedStmt
    assign : SrcPos → Typed → TokenKind → Typed → TypedStmt
    empty : SrcPos → TypedStmt

  pub data TypedStmts : Type 0 where
    stop : TypedStmts
    first : TypedStmt → TypedStmts → TypedStmts

  pub data TypedArms : Type 0 where
    no_arms : TypedArms
    arm : SrcPos → List TypedLabel → TypedStmt → TypedArms → TypedArms
