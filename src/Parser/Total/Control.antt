-- ===== src/Parser/Total/Control.antt =====
-- Blocks, conditionals and loops (src/parser/parser.c), over what `stmt` keeps.
use slop.Base.{ℕ, zero, suc, ◌+◌, ◌≤◌, ◌≡◌, refl, false, ◌||◌, inl, inr, arith, length}
use slop.Ast.{Stmt}
use slop.Lexer.Kind.{TokenKind, kind_eq}
use slop.Parser.State.{Parser, Parse, cur}
use slop.Parser.Recover.{sync_stmt}
use slop.Parser.Stmts.{
  is_null_stmt, block_loop, parse_block, parse_block_stmt, parse_if, parse_while,
}
use slop.Parser.Runs.{IsReady, Runs, Fits, Runs-pure, Runs-bind, some_token, two_tokens}
use slop.Parser.Rules.{
  other_kind, Runs-peek, Runs-here, Runs-left, Runs-if, Runs-advance, Runs-accept, Runs-expect,
  Runs-expect_any, Runs-error,
}
use slop.Parser.Total.Exprs.{WholeExpr}
use slop.Parser.Total.Ladder.{parse_expr-Runs}
use slop.Parser.Total.Recover.{sync_stmt-Runs}
use slop.Parser.Total.Progress.{Runs-round}
use slop.Parser.Total.Stmts.{WholeStmt, WholeStmts, pushed-Whole}

module _ {n : ℕ} (stmt : Parse Stmt) (h : Fits n WholeStmt stmt) where
  block_loop-Runs :
      (f : ℕ) {p : Parser}
      → IsReady p
      → length p.toks ≤ n
      → length p.toks ≤ f
      → Runs WholeStmts p (block_loop stmt f p)
  unfolding block_loop
  block_loop-Runs zero r l k = absurd (omega (arith, k, some_token r))
  block_loop-Runs (suc f) {p} r l k = Runs-peek _ (
      Runs-if (kind_eq (cur p) TokenKind.rbrace || kind_eq (cur p) TokenKind.eof) _ _
        (λ _. Runs-pure r tt)
        (λ e.
          Runs-round WholeStmt stmt is_null_stmt sync_stmt _ (two_tokens r (ground (arith, e)))
            (h p r l) (λ q r'. sync_stmt-Runs r')
            (λ q s m u w.
              Runs-bind WholeStmts _ _
                (block_loop-Runs f m.ready (omega (arith, l, u)) (omega (arith, k, u)))
                (λ q1 ss m1 w1. Runs-pure m1.ready (λ e1 e0. pushed-Whole s ss (w e0) (w1 e1))))))

  pub parse_block-Runs :
      {p : Parser} → IsReady p → length p.toks ≤ n + 1 → Runs WholeStmts p (parse_block stmt p)
  unfolding parse_block
  parse_block-Runs r l =
      Runs-expect TokenKind.lbrace _ refl r
        (λ q m s. Runs-left _ (
          Runs-bind WholeStmts _ _
            (block_loop-Runs (length q.toks) m.ready (omega (arith, l, s)) (omega arith))
            (λ q1 ss m1 w.
              Runs-expect_any TokenKind.rbrace _ refl m1.ready
                (λ q2 m2. Runs-pure m2.ready (λ _ e1 _. w e1)))))
        (λ q m up. Runs-pure m.ready tt)

  pub parse_block_stmt-Runs :
      {p : Parser} → IsReady p → length p.toks ≤ n + 1 → Runs WholeStmt p (parse_block_stmt stmt p)
  unfolding parse_block_stmt
  parse_block_stmt-Runs r l =
      Runs-here _
        (Runs-bind WholeStmts _ _ (parse_block-Runs r l) (λ q ss m w. Runs-pure m.ready (λ e. w e)))

  pub parse_if-Runs :
      (f : ℕ) {p : Parser}
      → IsReady p
      → length p.toks ≤ n + 1
      → length p.toks ≤ f
      → kind_eq (cur p) TokenKind.eof ≡ false
      → Runs WholeStmt p (parse_if stmt f p)
  unfolding parse_if
  parse_if-Runs zero r l k h' = absurd (omega (arith, k, some_token r))
  parse_if-Runs (suc f) r l k h' = Runs-here _ (
      Runs-advance _ r h' (λ q m s. Runs-bind WholeExpr _ _ (parse_expr-Runs m.ready) (λ q1 c m1 w1.
        Runs-bind WholeStmts _ _ (parse_block-Runs m1.ready (omega (arith, l, s, m1.shorter)))
          (λ q2 ss m2 w2.
            Runs-accept TokenKind.kw_else _ refl m2.ready
              (λ q3 m3 s3. Runs-peek _ (
                Runs-if (kind_eq (cur q3) TokenKind.kw_if) _ _
                  (λ e.
                    Runs-bind WholeStmt _ _
                      (parse_if-Runs f m3.ready (omega (arith, l, s, m1.shorter, m2.shorter, s3))
                        (omega (arith, k, s, m1.shorter, m2.shorter, s3))
                        (other_kind (cur q3) TokenKind.kw_if TokenKind.eof e refl))
                      (λ q4 x m4 w4.
                        Runs-pure m4.ready (λ e4 _ e2 e1 _. (w1 e1, (w2 e2, inr (w4 e4))))))
                  (λ _.
                    Runs-if (kind_eq (cur q3) TokenKind.lbrace) _ _
                      (λ _.
                        Runs-bind WholeStmt _ _
                          (parse_block_stmt-Runs m3.ready
                            (omega (arith, l, s, m1.shorter, m2.shorter, s3)))
                          (λ q4 x m4 w4.
                            Runs-pure m4.ready (λ e4 _ e2 e1 _. (w1 e1, (w2 e2, inr (w4 e4))))))
                      (λ _. Runs-error _ m3.ready (λ q4 m4 up. Runs-pure m4.ready tt)))))
              (Runs-pure m2.ready (λ e2 e1 _. (w1 e1, (w2 e2, inl refl))))))))

  pub parse_while-Runs :
      {p : Parser}
      → IsReady p
      → length p.toks ≤ n + 1
      → kind_eq (cur p) TokenKind.eof ≡ false
      → Runs WholeStmt p (parse_while stmt p)
  unfolding parse_while
  parse_while-Runs r l h' = Runs-here _ (
      Runs-advance _ r h' (λ q m s. Runs-bind WholeExpr _ _ (parse_expr-Runs m.ready) (λ q1 c m1 w1.
        Runs-bind WholeStmts _ _ (parse_block-Runs m1.ready (omega (arith, l, s, m1.shorter)))
          (λ q2 ss m2 w2. Runs-pure m2.ready (λ e2 e1 _. (w1 e1, w2 e2))))))
