-- ===== src/Parser/Total/Stmts.antt =====
-- Statements (src/parser/parser.c, `parse_block` to `parse_stmt`), over what `stmt` keeps.
use slop.Base.{◌≡◌, refl, List, [], ◌∷◌, true, false, inl, inr, ◌⊎◌}
use slop.Ast.{Expr, Stmt, Stmts, Arms, MatchLabel}
use slop.Lexer.Kind.{TokenKind, kind_eq}
use slop.Support.Diag.{SrcPos}
use slop.Parser.State.{Parser, cur}
use slop.Parser.Exprs.{is_missing}
use slop.Parser.Stmts.{
  is_null_stmt, is_null_type, pushed, parse_init, parse_var_decl, parse_return, parse_jump,
}
use slop.Parser.Runs.{IsReady, Runs, Any, Runs-pure, Runs-map, Runs-bind}
use slop.Parser.Rules.{
  Runs-here, Runs-at, Runs-if, Runs-advance, Runs-accept, Runs-expect_any, Runs-ident, accept-Runs,
}
use slop.Parser.Total.Types.{WholeType, null_type-not_whole, parse_type-Runs}
use slop.Parser.Total.Exprs.{WholeExpr}
use slop.Parser.Total.Ladder.{parse_expr-Runs}

-- An expression that may be left out.
abbrev pub WholeInit : Expr → Type 0
WholeInit e = (is_missing e ≡ true) ⊎ WholeExpr e

abbrev pub WholeLabels : List MatchLabel → Type 0
WholeLabels [] = Unit {0}
WholeLabels (l ∷ ls) = ((l.is_wildcard ≡ true) ⊎ WholeExpr l.value) × WholeLabels ls

-- A statement with no child missing that the grammar asks for.
abbrev mutual
  pub WholeStmt : Stmt → Type 0
  WholeStmt Stmt.missing = ⊥
  WholeStmt (Stmt.block pos ss) = WholeStmts ss
  WholeStmt (Stmt.var pos m t n e) = WholeType t × WholeInit e
  WholeStmt (Stmt.if_stmt pos c ss s) =
      WholeExpr c × (WholeStmts ss × ((is_null_stmt s ≡ true) ⊎ WholeStmt s))
  WholeStmt (Stmt.while_stmt pos c ss) = WholeExpr c × WholeStmts ss
  WholeStmt (Stmt.match_stmt pos e as') = WholeExpr e × WholeArms as'
  WholeStmt (Stmt.ret pos e) = WholeInit e
  WholeStmt (Stmt.break_stmt pos) = Unit {0}
  WholeStmt (Stmt.continue_stmt pos) = Unit {0}
  WholeStmt (Stmt.expr_stmt pos e) = WholeExpr e
  WholeStmt (Stmt.assign pos l op e) = WholeExpr l × WholeExpr e
  WholeStmt (Stmt.empty pos) = Unit {0}

  pub WholeStmts : Stmts → Type 0
  WholeStmts Stmts.stop = Unit {0}
  WholeStmts (Stmts.first s ss) = WholeStmt s × WholeStmts ss

  pub WholeArms : Arms → Type 0
  WholeArms Arms.no_arms = Unit {0}
  WholeArms (Arms.arm pos ls s as') = WholeLabels ls × (WholeStmt s × WholeArms as')

pub null_stmt-not_whole : (s : Stmt) → is_null_stmt s ≡ true → WholeStmt s → ⊥
null_stmt-not_whole Stmt.missing h w = w
null_stmt-not_whole _ h w = cc

pub pushed-Whole : (s : Stmt) (ss : Stmts) → WholeStmt s → WholeStmts ss → WholeStmts (pushed s ss)
pushed-Whole Stmt.missing ss w ws = ws
pushed-Whole _ ss w ws = (w, ws)

parse_init-Runs : {p : Parser} → IsReady p → Runs WholeInit p (parse_init p)
unfolding parse_init
parse_init-Runs r =
    Runs-accept TokenKind.eq _ refl r (λ q m s. Runs-map (λ e w _. inr w) (parse_expr-Runs m.ready))
      (Runs-pure r (inl refl))

pub parse_var_decl-Runs :
    {p : Parser}
    → IsReady p
    → kind_eq (cur p) TokenKind.eof ≡ false
    → Runs WholeStmt p (parse_var_decl p)
unfolding parse_var_decl
parse_var_decl-Runs {p} r h = Runs-here _ (
    Runs-advance _ r h (λ q m s.
      Runs-bind Any _ _ (accept-Runs TokenKind.kw_mut refl m.ready) (λ q1 is_mut m1 _.
        Runs-bind WholeType _ _ (parse_type-Runs m1.ready) (λ q2 t m2 w.
          Runs-if (is_null_type t) _ _
            (λ x. Runs-pure m2.ready (λ e. absurd (null_type-not_whole t x (w e))))
            (λ _.
              Runs-ident _ m2.ready
                (λ q3 v m3 s3. Runs-bind WholeInit _ _ (parse_init-Runs m3.ready) (λ q4 e m4 wi.
                  Runs-expect_any TokenKind.semi _ refl m4.ready
                    (λ q5 m5. Runs-pure m5.ready (λ _ e4 _ e2 _ _. (w e2, wi e4)))))
                (λ q3 m3 up. Runs-pure m3.ready tt))))))

pub parse_jump-Runs :
    (node : SrcPos → Stmt) {p : Parser}
    → IsReady p
    → kind_eq (cur p) TokenKind.eof ≡ false
    → ((pos : SrcPos) → WholeStmt (node pos))
    → Runs WholeStmt p (parse_jump node p)
unfolding parse_jump
parse_jump-Runs node r h w = Runs-here _ (
    Runs-advance _ r h (λ q m s.
      Runs-expect_any TokenKind.semi _ refl m.ready (λ q1 m1. Runs-pure m1.ready (λ _ _. w _))))

pub parse_return-Runs :
    {p : Parser}
    → IsReady p
    → kind_eq (cur p) TokenKind.eof ≡ false
    → Runs WholeStmt p (parse_return p)
unfolding parse_return
parse_return-Runs r h = Runs-here _ (
    Runs-advance _ r h (λ q m s. Runs-at TokenKind.semi _ (
      Runs-bind WholeInit _ _
        (Runs-if (kind_eq (cur q) TokenKind.semi) _ _ (λ _. Runs-pure m.ready (inl refl))
          (λ _. Runs-map (λ e w. inr w) (parse_expr-Runs m.ready)))
        (λ q1 e m1 w.
          Runs-expect_any TokenKind.semi _ refl m1.ready
            (λ q2 m2. Runs-pure m2.ready (λ _ e1 _. w e1))))))
