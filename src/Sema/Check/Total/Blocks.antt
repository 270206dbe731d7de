-- ===== src/Sema/Check/Total/Blocks.antt =====
-- Statements and blocks (src/sema/sema.c): the check of a statement with no child missing returns,
-- closes the scopes and loops that it opens, and where it reports nothing leaves every expression
-- annotated.
use slop.Base.{suc, ◌≡◌, Bool, true, inl, inr, ◌⊎◌, sym, none, some, if◌then◌else◌}
use mathlib.Core.Path.{subst}
use slop.Ast.{Expr, Syntax, Stmt, Stmts, Arms}
use slop.Lexer.Kind.{TokenKind, kind_eq}
use slop.Parser.Stmts.{is_null_stmt}
use slop.Parser.Total.Exprs.{WholeExpr}
use slop.Parser.Total.Stmts.{WholeInit, WholeStmt, WholeStmts, WholeArms}
use slop.Support.Diag.{SrcPos}
use slop.Support.StrView.{StrView}
use slop.Sema.Types.{TyRef}
use slop.Sema.Convert.{assign_binop}
use slop.Sema.Check.State.{Sema, ◌>>=◌, pure, scoped}
use slop.Sema.Check.Tree.{Typed, TypedStmt, TypedStmts, TypedArms, height, enter}
use slop.Sema.Check.Exprs.{check_expr}
use slop.Sema.Check.Ops.{check_binary_op}
use slop.Sema.Check.Stmts.{
  check_fits, check_var_decl, check_assign, check_stmt, check_stmts, check_arms,
}
use slop.Sema.Check.Ready.{Good, Moves, Runs, Any, Then}
use slop.Sema.Check.Rules.{Runs-pure, Runs-bind, Runs-if}
use slop.Sema.Check.Whole.{AllTyped}
use slop.Sema.Check.Total.Coerce.{Marked, Same, assign_target-Runs}
use slop.Sema.Check.Total.Ops.{KeepsPair, AnnotatesPair, check_binary_op-Runs}
use slop.Sema.Check.Total.Check.{Entered, value_of-Runs, check_expr-Runs}
use slop.Sema.Check.Total.Scoped.{scoped-Restores, in_loop-Runs, declare_new-Runs}
use slop.Sema.Check.Total.Stmts.{
  Filled, AllLabelled, check_condition-Runs, var_type-Runs, check_init-Runs, check_labels-Runs,
  check_scrutinee-Runs, check_return-Runs, check_jump-Runs, check_fits-Runs,
}

-- Every expression of a statement has its type: an initializer or a value behind `return` may be
-- left out, and of a label the value's root alone is meant.
abbrev mutual
  pub AllStmt : TypedStmt → Type 0
  AllStmt TypedStmt.missing = Unit {0}
  AllStmt (TypedStmt.block pos b) = AllStmts b
  AllStmt (TypedStmt.var pos m t n e) = Filled e
  AllStmt (TypedStmt.if_stmt pos c b e) = AllTyped c × (AllStmts b × AllStmt e)
  AllStmt (TypedStmt.while_stmt pos c b) = AllTyped c × AllStmts b
  AllStmt (TypedStmt.match_stmt pos e arms) = AllTyped e × AllArms arms
  AllStmt (TypedStmt.ret pos e) = Filled e
  AllStmt (TypedStmt.break_stmt pos) = Unit {0}
  AllStmt (TypedStmt.continue_stmt pos) = Unit {0}
  AllStmt (TypedStmt.expr_stmt pos e) = AllTyped e
  AllStmt (TypedStmt.assign pos l op e) = AllTyped l × AllTyped e
  AllStmt (TypedStmt.empty pos) = Unit {0}

  pub AllStmts : TypedStmts → Type 0
  AllStmts TypedStmts.stop = Unit {0}
  AllStmts (TypedStmts.first s ss) = AllStmt s × AllStmts ss

  pub AllArms : TypedArms → Type 0
  AllArms TypedArms.no_arms = Unit {0}
  AllArms (TypedArms.arm pos ls s rest) = AllLabelled ls × (AllStmt s × AllArms rest)

check_var_decl-Runs :
    (pos : SrcPos) (m : Bool) (t : Syntax) (name : StrView) (e : Expr) {s : Sema}
    → Good s
    → WholeInit e
    → Runs Any AllStmt s (check_var_decl pos m t name e s)
unfolding check_var_decl
check_var_decl-Runs pos m t name e g h =
    Runs-bind Any Any _ _ (var_type-Runs pos t g) (λ q r mv _ _.
      Runs-bind Any Filled _ _ (check_init-Runs pos m e r mv.good h) (λ q1 y m1 _ w.
        Runs-bind Any Any _ _ (declare_new-Runs _ m1.good)
          (λ q2 u m2 _ _. Runs-pure m2.good tt (λ _ e1 _. w e1))))

-- The target after its own rule is the target.
check_assign-Runs :
    (pos : SrcPos) (l : Expr) (op : TokenKind) (e : Expr) {s : Sema}
    → Good s
    → WholeExpr l
    → WholeExpr e
    → Runs Any AllStmt s (check_assign pos l op e s)
unfolding check_assign
check_assign-Runs pos l op e {s} g hl he =
    Runs-bind (Entered l) (λ r. AllTyped r.0) _ _ (value_of-Runs l g hl)
      (λ q v m d w.
        Runs-bind (Same v.0) Any _ _
          (assign_target-Runs (suc (height (enter l))) v.0 v.1 m.good d.0 d.1)
          (λ q1 t m1 same _. after q q1 v t m m1 d w same))
  where
    after :
        (q q1 : Sema) (v t : Typed × TyRef)
        → Moves s q
        → Moves q q1
        → Entered l v
        → (q.diag.count ≡ s.diag.count → AllTyped v.0)
        → t.0 ≡ v.0
        → Runs Any (Then q q1 (Then s q AllStmt)) q1 (
            (if kind_eq op TokenKind.eq
                then (do
                  r ← check_expr (enter e) (some t.1)
                  pure (TypedStmt.assign pos t.0 op r.0))
                else (do
                  r ← check_expr (enter e) none
                  p ← check_binary_op (assign_binop op) pos t.0 r.0
                  _ ← check_fits pos p.1.1 t.1
                  pure (TypedStmt.assign pos p.0 op p.1.0)))
              q1)
    after q q1 v t m m1 d w same =
        let marked : Marked t.0 = subst Marked (sym same) d.1 in
        Runs-if (kind_eq op TokenKind.eq) _ _
          (λ _.
            Runs-bind (Entered e) (λ r. AllTyped r.0) _ _ (check_expr-Runs e (some t.1) m1.good he)
              (λ q2 r m2 _ k.
                Runs-pure m2.good tt (λ e2 e1 e0. (subst AllTyped (sym same) (w e0), k e2))))
          (λ _.
            Runs-bind (Entered e) (λ r. AllTyped r.0) _ _ (check_expr-Runs e none m1.good he)
              (λ q2 r m2 d2 k.
                Runs-bind (KeepsPair t.0 r.0) (AnnotatesPair t.0 r.0) _ _
                  (check_binary_op-Runs (assign_binop op) pos t.0 r.0 m2.good marked d2.1)
                  (λ q3 p m3 _ a.
                    Runs-bind Any Any _ _ (check_fits-Runs pos p.1.1 t.1 m3.good) (λ q4 u m4 _ _.
                      Runs-pure m4.good tt (λ _ e3 e2 e1 e0.
                        ((a e3).0 (subst AllTyped (sym same) (w e0)), (a e3).1 (k e2)))))))

-- An `else` that may be left out.
else_of-Runs :
    (st : Stmt) {s : Sema}
    → Good s
    → (WholeStmt st → Runs Any AllStmt s (check_stmt st s))
    → (is_null_stmt st ≡ true) ⊎ WholeStmt st
    → Runs Any AllStmt s (check_stmt st s)
unfolding check_stmt
else_of-Runs Stmt.missing g k h = Runs-pure g tt tt
else_of-Runs _ g k (inr w) = k w
else_of-Runs _ g k (inl e) = cc

mutual
  unfolding check_stmt

  pub check_stmt-Runs :
      (st : Stmt) {s : Sema} → Good s → WholeStmt st → Runs Any AllStmt s (check_stmt st s)
  check_stmt-Runs Stmt.missing g h = elim h [ ]
  check_stmt-Runs (Stmt.block pos b) g h =
      Runs-bind Any AllStmts _ _
        (scoped-Restores (check_stmts b) g (λ p gp. check_stmts-Runs b gp h)).runs
        (λ q y m _ w. Runs-pure m.good tt w)
  check_stmt-Runs (Stmt.var pos m t n e) g h = check_var_decl-Runs pos m t n e g h.1
  check_stmt-Runs (Stmt.if_stmt pos c b e) g h =
      Runs-bind Any AllTyped _ _ (check_condition-Runs c g h.0) (λ q x m _ w.
        Runs-bind Any AllStmts _ _
          (scoped-Restores (check_stmts b) m.good (λ p gp. check_stmts-Runs b gp h.1.0)).runs
          (λ q1 y m1 _ w1.
            Runs-bind Any AllStmt _ _
              (else_of-Runs e m1.good (λ k. check_stmt-Runs e m1.good k) h.1.1)
              (λ q2 z m2 _ w2. Runs-pure m2.good tt (λ e2 e1 e0. (w e0, (w1 e1, w2 e2))))))
  check_stmt-Runs (Stmt.while_stmt pos c b) g h =
      Runs-bind Any AllTyped _ _ (check_condition-Runs c g h.0) (λ q x m _ w.
        Runs-bind Any AllStmts _ _
          (in_loop-Runs (scoped (check_stmts b)) m.good (λ q1 g1.
            (scoped-Restores (check_stmts b) g1 (λ p gp. check_stmts-Runs b gp h.1)).runs))
          (λ q1 y m1 _ w1. Runs-pure m1.good tt (λ e1 e0. (w e0, w1 e1))))
  check_stmt-Runs (Stmt.match_stmt pos e arms) g h =
      Runs-bind Any (λ r. AllTyped r.0) _ _ (check_scrutinee-Runs pos e g h.0)
        (λ q x m _ w.
          Runs-bind Any AllArms _ _ (check_arms-Runs x.1 arms m.good h.1)
            (λ q1 y m1 _ w1. Runs-pure m1.good tt (λ e1 e0. (w e0, w1 e1))))
  check_stmt-Runs (Stmt.ret pos e) g h =
      Runs-bind Any Filled _ _ (check_return-Runs pos e g h) (λ q x m _ w. Runs-pure m.good tt w)
  check_stmt-Runs (Stmt.break_stmt pos) g h =
      Runs-bind Any Any _ _ (check_jump-Runs pos g) (λ q x m _ _. Runs-pure m.good tt (λ _. tt))
  check_stmt-Runs (Stmt.continue_stmt pos) g h =
      Runs-bind Any Any _ _ (check_jump-Runs pos g) (λ q x m _ _. Runs-pure m.good tt (λ _. tt))
  check_stmt-Runs (Stmt.expr_stmt pos e) g h =
      Runs-bind (Entered e) (λ r. AllTyped r.0) _ _ (value_of-Runs e g h)
        (λ q x m _ w. Runs-pure m.good tt w)
  check_stmt-Runs (Stmt.assign pos l op e) g h = check_assign-Runs pos l op e g h.0 h.1
  check_stmt-Runs (Stmt.empty pos) g h = Runs-pure g tt tt

  pub check_stmts-Runs :
      (ss : Stmts) {s : Sema} → Good s → WholeStmts ss → Runs Any AllStmts s (check_stmts ss s)
  check_stmts-Runs Stmts.stop g h = Runs-pure g tt tt
  check_stmts-Runs (Stmts.first st ss) g h =
      Runs-bind Any AllStmt _ _ (check_stmt-Runs st g h.0) (λ q y m _ w.
        Runs-bind Any AllStmts _ _ (check_stmts-Runs ss m.good h.1)
          (λ q1 ys m1 _ w1. Runs-pure m1.good tt (λ e1 e0. (w e0, w1 e1))))

  check_arms-Runs :
      (want : TyRef) (arms : Arms) {s : Sema}
      → Good s
      → WholeArms arms
      → Runs Any AllArms s (check_arms want arms s)
  check_arms-Runs want Arms.no_arms g h = Runs-pure g tt tt
  check_arms-Runs want (Arms.arm pos ls body rest) g h =
      Runs-bind Any AllLabelled _ _ (check_labels-Runs want ls g h.0) (λ q ys m _ w.
        Runs-bind Any AllStmt _ _ (check_stmt-Runs body m.good h.1.0) (λ q1 y m1 _ w1.
          Runs-bind Any AllArms _ _ (check_arms-Runs want rest m1.good h.1.1)
            (λ q2 zs m2 _ w2. Runs-pure m2.good tt (λ e2 e1 e0. (w e0, (w1 e1, w2 e2))))))
