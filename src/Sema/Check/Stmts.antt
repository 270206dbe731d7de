-- ===== src/Sema/Check/Stmts.antt =====
-- Statements (src/sema/sema.c). An expression is entered with no types and checked once, by
-- `check_expr` on fuel for its height.
use slop.Base.{
  ℕ, ◌+◌, ◌-◌, List, [], ◌∷◌, Bool, true, false, ◌||◌, ◌&&◌, not, ◌==◌, if◌then◌else◌, Option, none,
  some,
}
use slop.Ast.{Expr, Syntax, Stmt, Stmts, Arms, MatchLabel}
use slop.Lexer.Kind.{TokenKind, kind_eq}
use slop.Support.Diag.{SrcPos}
use slop.Support.StrView.{StrView}
use slop.Sema.Types.{TyRef, ty_is_sized}
use slop.Sema.Types.Kind.{TyKind, is_kind, ty_is_integer, ty_is_bool}
use slop.Sema.Scope.{Sym, SymKind}
use slop.Sema.Convert.{assign_binop}
use slop.Sema.Check.State.{
  Check, ◌>>=◌, pure, skip, follow, gets, put, error, note, ty, core, poison, fails, find_global,
  sym_at, find_current, declare, scoped, sym_new,
}
use slop.Sema.Check.Tree.{
  Typed, null, node, Shape, enter, TypedLabel, TypedStmt, TypedStmts, TypedArms,
}
use slop.Sema.Check.Coerce.{can_assign, coerce, retype_untyped, is_poison, pos_of, assign_target}
use slop.Sema.Check.Layout.{resolve_laid}
use slop.Sema.Check.Ops.{check_binary_op}
use slop.Sema.Check.Exprs.{check_expr, check_value, or_poison}

-- An expression of the syntax tree, which must have a real type.
abbrev pub value_of : Expr → Check (Typed × TyRef)
value_of e = check_value check_expr (enter e)

unfoldable pub check_condition : Expr → Check Typed
unfolding check_expr enter core coerce
check_condition e = do
  r ← check_expr (enter e) none
  d ← ty r.1
  if is_kind d.kind TyKind.untyped_bool
      then (do t ← core TyKind.b8; y ← coerce r.0 t; pure y.0)
      else if not (ty_is_bool d.kind) && not (is_poison d)
      then (do pos ← follow (pos_of r.0); _ ← error pos; pure r.0)
      else pure r.0

-- The type of a variable, a value type or poison.
unfoldable pub var_type : SrcPos → Syntax → Check TyRef
unfolding resolve_laid fails
var_type pos written = do
  t ← resolve_laid written
  d ← ty t
  if not (ty_is_sized d) && not (is_poison d) then fails pos else pure t

abbrev pub is_absent : Expr → Bool
is_absent Expr.missing = true
is_absent _ = false

-- The initializer, which only a mutable variable may do without.
unfoldable pub check_init : SrcPos → Bool → Expr → TyRef → Check Typed
unfolding check_expr enter
check_init pos is_mut init t =
    if not (is_absent init)
    then (do r ← check_expr (enter init) (some t); pure r.0)
    else if not is_mut
    then (do _ ← error pos; pure null)
    else pure null

-- A new name of the innermost scope, unless it is there already.
unfoldable pub declare_new : Sym → Check (Unit {0})
declare_new sym = do
  old ← find_current sym.name
  elim old as (λ (_ : Option Sym). Check (Unit {0})) [
    | none ↦ declare sym
    | some o ↦ do _ ← error sym.pos; note o.pos
  ]

unfoldable pub check_var_decl : SrcPos → Bool → Syntax → StrView → Expr → Check TypedStmt
unfolding var_type check_init declare_new
check_var_decl pos is_mut written name init = do
  t ← var_type pos written
  e ← check_init pos is_mut init t
  _ ← declare_new (record (sym_new SymKind.local name pos) { type = some t; is_mut = is_mut })
  pure (TypedStmt.var pos is_mut written name e)

-- Where the scrutinee is no poison, the label's type must convert to its type.
unfoldable pub check_label_type : SrcPos → Option TyRef → TyRef → Check (Unit {0})
unfolding can_assign
check_label_type pos from want = do
  d ← ty want
  if is_poison d
      then skip
      else do t ← follow from; ok ← can_assign t want; if not ok then error pos else skip

-- Is the symbol the member of an enum?
abbrev pub member_of : Option Sym → Option Sym
member_of none = none
member_of (some sym) = elim sym.kind [ SymKind.enum_member ↦ some sym | _ ↦ none ]

abbrev pub label_sym : StrView → Check (Option Sym)
label_sym name = do
  o ← find_global name
  elim o as (λ (_ : Option ℕ). Check (Option Sym)) [
    | none ↦ pure none
    | some n ↦ do sym ← sym_at n; pure (some sym)
  ]

-- A label's value: the member of an enum, or a literal that takes the scrutinee's type.
unfoldable pub check_label_value : SrcPos → TyRef → Typed → Check Typed
unfolding find_global check_label_type core retype_untyped
check_label_value pos want null = pure null
check_label_value pos want (node at t (Shape.name n)) = do
  o ← label_sym n
  elim (member_of o) as (λ (_ : Option Sym). Check Typed) [
    | none ↦ do _ ← error pos; pure (node at t (Shape.name n))
    | some sym ↦ do _ ← check_label_type pos sym.type want; pure (node at sym.type (Shape.name n))
  ]
check_label_value pos want (node at t x) = do
  u ← core TyKind.untyped_int
  d ← ty want
  if is_poison d then pure (node at (some u) x) else retype_untyped (node at (some u) x) want

unfoldable pub check_label : TyRef → MatchLabel → Check TypedLabel
unfolding check_label_value enter
check_label want l = do
  v ← if l.is_wildcard then pure (enter l.value) else check_label_value l.pos want (enter l.value)
  pure (record { pos = l.pos; is_wildcard = l.is_wildcard; value = v })

unfoldable pub check_labels : TyRef → List MatchLabel → Check (List TypedLabel)
unfolding check_label
check_labels want [] = pure []
check_labels want (l ∷ ls) = do y ← check_label want l; ys ← check_labels want ls; pure (y ∷ ys)

-- What is matched: an integer, an enum, or poison.
unfoldable pub check_scrutinee : SrcPos → Expr → Check (Typed × TyRef)
unfolding check_value check_expr enter fails
check_scrutinee pos e = do
  r ← value_of e
  d ← ty r.1
  if not (is_poison d) && (not (ty_is_integer d.kind) && not (is_kind d.kind TyKind.enum))
      then (do bad ← fails pos; pure (r.0, bad))
      else pure r

-- The result type of the function that is checked.
unfoldable pub wanted : Check TyRef
unfolding poison
wanted = do
  fn ← gets (λ s. s.cur_fn)
  elim fn as (λ (_ : Option ℕ). Check TyRef) [
    | none ↦ poison
    | some n ↦ do sym ← sym_at n; or_poison sym.type
  ]

unfoldable pub check_return : SrcPos → Expr → Check Typed
unfolding wanted check_value check_expr enter
check_return pos e = do
  want ← wanted
  d ← ty want
  if is_absent e
      then (do
        _ ← if not (is_kind d.kind TyKind.void) && not (is_poison d) then error pos else skip
        pure null)
      else if is_kind d.kind TyKind.void
      then (do _ ← error pos; r ← value_of e; pure r.0)
      else (do r ← check_expr (enter e) (some want); pure r.0)

-- `break` and `continue`.
unfoldable pub check_jump : SrcPos → Check (Unit {0})
check_jump pos = do depth ← gets (λ s. s.loop_depth); if depth == 0 then error pos else skip

-- The result of a compound assignment must fit its target.
unfoldable pub check_fits : SrcPos → TyRef → TyRef → Check (Unit {0})
unfolding can_assign
check_fits pos result target = do
  d ← ty result
  want ← ty target
  if is_poison d || is_poison want
      then skip
      else do ok ← can_assign result target; if not ok then error pos else skip

unfoldable pub check_assign : SrcPos → Expr → TokenKind → Expr → Check TypedStmt
unfolding check_value check_expr enter assign_target check_binary_op check_fits
check_assign pos target op value = do
  v ← value_of target
  t ← assign_target v
  if kind_eq op TokenKind.eq
      then (do r ← check_expr (enter value) (some t.1); pure (TypedStmt.assign pos t.0 op r.0))
      else (do
        r ← check_expr (enter value) none
        p ← check_binary_op (assign_binop op) pos t.0 r.0
        _ ← check_fits pos p.1.1 t.1
        pure (TypedStmt.assign pos p.0 op p.1.0))

-- `m` as the body of a loop.
unfoldable pub in_loop {ℓ} : {A : Type ℓ} → Check A → Check A
in_loop m = do
  _ ← put (λ s. record s { loop_depth = s.loop_depth + 1 })
  a ← m
  _ ← put (λ s. record s { loop_depth = s.loop_depth - 1 })
  pure a

unfoldable mutual
  unfolding check_condition check_var_decl check_scrutinee check_labels check_return check_jump
      check_assign check_value check_expr enter in_loop scoped

  pub check_stmt : Stmt → Check TypedStmt
  check_stmt Stmt.missing = pure TypedStmt.missing
  check_stmt (Stmt.block pos b) = do y ← scoped (check_stmts b); pure (TypedStmt.block pos y)
  check_stmt (Stmt.var pos m t n e) = check_var_decl pos m t n e
  check_stmt (Stmt.if_stmt pos c b e) = do
    x ← check_condition c
    y ← scoped (check_stmts b)
    z ← check_stmt e
    pure (TypedStmt.if_stmt pos x y z)
  check_stmt (Stmt.while_stmt pos c b) = do
    x ← check_condition c
    y ← in_loop (scoped (check_stmts b))
    pure (TypedStmt.while_stmt pos x y)
  check_stmt (Stmt.match_stmt pos e arms) = do
    x ← check_scrutinee pos e
    y ← check_arms x.1 arms
    pure (TypedStmt.match_stmt pos x.0 y)
  check_stmt (Stmt.ret pos e) = do x ← check_return pos e; pure (TypedStmt.ret pos x)
  check_stmt (Stmt.break_stmt pos) = do _ ← check_jump pos; pure (TypedStmt.break_stmt pos)
  check_stmt (Stmt.continue_stmt pos) = do _ ← check_jump pos; pure (TypedStmt.continue_stmt pos)
  check_stmt (Stmt.expr_stmt pos e) = do x ← value_of e; pure (TypedStmt.expr_stmt pos x.0)
  check_stmt (Stmt.assign pos t op v) = check_assign pos t op v
  check_stmt (Stmt.empty pos) = pure (TypedStmt.empty pos)

  -- The loop of `check_block`.
  pub check_stmts : Stmts → Check TypedStmts
  check_stmts Stmts.stop = pure TypedStmts.stop
  check_stmts (Stmts.first s ss) = do
    y ← check_stmt s
    ys ← check_stmts ss
    pure (TypedStmts.first y ys)

  -- The loop over the arms of a match on a value of type `want`.
  pub check_arms : TyRef → Arms → Check TypedArms
  check_arms want Arms.no_arms = pure TypedArms.no_arms
  check_arms want (Arms.arm pos ls body rest) = do
    ys ← check_labels want ls
    y ← check_stmt body
    zs ← check_arms want rest
    pure (TypedArms.arm pos ys y zs)

unfoldable pub check_block : Stmts → Check TypedStmts
unfolding scoped check_stmts
check_block b = scoped (check_stmts b)
