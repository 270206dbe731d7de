-- ===== src/Parser/Total/Match.antt =====
-- `match`, the statements over an expression, and the recursion of statements
-- (src/parser/parser.c).
use slop.Base.{
  ℕ, zero, suc, ◌+◌, ◌≤◌, ◌≡◌, refl, [], ◌∷◌, true, false, ◌||◌, inl, inr, if_both, arith, length,
  Option, none, some, ◌⊎◌,
}
use slop.Ast.{Stmt, Arms, MatchLabel}
use slop.Lexer.Kind.{TokenKind, kind_eq}
use slop.Support.StrView.{strview_eq}
use slop.Parser.State.{Parser, Parse, ◌>>=◌, cur, head, tok_view, peek}
use slop.Parser.Recover.{sync_stmt}
use slop.Parser.Exprs.{is_missing}
use slop.Parser.Stmts.{
  is_assign_op, is_null_stmt, is_none, parse_label, labels_loop, Arm, parse_match_arm, pushed_arm,
  arms_loop, parse_match, parse_expr_stmt, stmt_switch, stmt_over, stmt_rounds, parse_stmt,
}
use slop.Parser.Runs.{IsReady, Runs, Fits, Runs-pure, Runs-bind, some_token, two_tokens}
use slop.Parser.Rules.{
  WholeSome, other_kind, Runs-peek, Runs-here, Runs-left, Runs-if, Runs-option, Runs-advance,
  Runs-accept, Runs-expect, Runs-expect_any, Runs-fail, Runs-limited,
}
use slop.Parser.Total.Exprs.{WholeExpr, is_missing-not_whole}
use slop.Parser.Total.Ladder.{parse_expr-Runs}
use slop.Parser.Total.Recover.{sync_stmt-Runs}
use slop.Parser.Total.Progress.{Runs-round}
use slop.Parser.Total.Stmts.{
  WholeLabels, WholeStmt, WholeArms, null_stmt-not_whole, parse_var_decl-Runs, parse_jump-Runs,
  parse_return-Runs,
}
use slop.Parser.Total.Control.{parse_block_stmt-Runs, parse_if-Runs, parse_while-Runs}

abbrev WholeLabel : MatchLabel → Type 0
WholeLabel l = (l.is_wildcard ≡ true) ⊎ WholeExpr l.value

abbrev WholeArm : Arm → Type 0
WholeArm (pos, ls, s) = WholeLabels ls × WholeStmt s

pushed_arm-Whole :
    (a : Option Arm) (as' : Arms)
    → WholeSome WholeArm a
    → WholeArms as'
    → WholeArms (pushed_arm a as')
pushed_arm-Whole none as' w ws = ws
pushed_arm-Whole (some (pos, ls, s)) as' w ws = (w.0, (w.1, ws))

parse_label-Runs : {p : Parser} → IsReady p → Runs (WholeSome WholeLabel) p (parse_label p)
unfolding parse_label
parse_label-Runs {p} r = Runs-here _ (
    Runs-peek _ (
      Runs-if (kind_eq (cur p) TokenKind.ident) _ _
        (λ e. Runs-advance _ r (other_kind (cur p) TokenKind.ident TokenKind.eof e refl) (λ q m s.
          Runs-pure m.ready (λ _.
            if_both WholeLabel (strview_eq (tok_view (head p.toks)) (b'_' ∷ [])) (λ _. inl refl)
              (λ _. inr tt))))
        (λ _.
          Runs-if (kind_eq (cur p) TokenKind.int) _ _
            (λ e.
              Runs-advance _ r (other_kind (cur p) TokenKind.int TokenKind.eof e refl)
                (λ q m s. Runs-pure m.ready (λ _. inr tt)))
            (λ _.
              Runs-if (kind_eq (cur p) TokenKind.char) _ _
                (λ e.
                  Runs-advance _ r (other_kind (cur p) TokenKind.char TokenKind.eof e refl)
                    (λ q m s. Runs-pure m.ready (λ _. inr tt)))
                (λ _. Runs-fail none r)))))

labels_loop-Runs :
    (f : ℕ) {p : Parser}
    → IsReady p
    → length p.toks ≤ f
    → Runs (WholeSome WholeLabels) p (labels_loop f p)
unfolding labels_loop
labels_loop-Runs zero r k = absurd (omega (arith, k, some_token r))
labels_loop-Runs (suc f) r k = Runs-bind (WholeSome WholeLabel) _ _ (parse_label-Runs r) (λ q o m w.
    Runs-option WholeLabel o _ _ w (λ x. Runs-pure m.ready (λ e. x e))
      (λ l wl.
        Runs-accept TokenKind.comma _ refl m.ready
          (λ q1 m1 s.
            Runs-bind (WholeSome WholeLabels) _ _
              (labels_loop-Runs f m1.ready (omega (arith, k, s, m.shorter)))
              (λ q2 rest m2 w2.
                Runs-option WholeLabels rest _ _ w2 (λ x. Runs-pure m2.ready (λ e2 _ _. x e2))
                  (λ ls wls. Runs-pure m2.ready (λ e2 _ e0. (wl e0, wls e2)))))
          (Runs-pure m.ready (λ e0. (wl e0, tt)))))

module _ {n : ℕ} (stmt : Parse Stmt) (h : Fits n WholeStmt stmt) where
  parse_match_arm-Runs :
      {p : Parser}
      → IsReady p
      → length p.toks ≤ n
      → Runs (WholeSome WholeArm) p (parse_match_arm stmt p)
  unfolding parse_match_arm
  parse_match_arm-Runs {p} r l = Runs-here _ (
      Runs-left _ (
        Runs-bind (WholeSome WholeLabels) _ _ (labels_loop-Runs (length p.toks) r (omega arith))
          (λ q o m w.
            Runs-option WholeLabels o _ _ w (λ x. Runs-pure m.ready (λ e. x e))
              (λ ls wls.
                Runs-expect TokenKind.fat_arrow _ refl m.ready
                  (λ q1 m1 s1.
                    Runs-bind WholeStmt _ _ (h q1 m1.ready (omega (arith, l, s1, m.shorter)))
                      (λ q2 s m2 w2. Runs-pure m2.ready (λ e2 _ e0.
                        if_both (WholeSome WholeArm) (is_null_stmt s)
                          (λ x. null_stmt-not_whole s x (w2 e2)) (λ _. (wls e0, w2 e2)))))
                  (λ q1 m1 up. Runs-pure m1.ready tt)))))

  arms_loop-Runs :
      (f : ℕ) {p : Parser}
      → IsReady p
      → length p.toks ≤ n
      → length p.toks ≤ f
      → Runs WholeArms p (arms_loop stmt f p)
  unfolding arms_loop
  arms_loop-Runs zero r l k = absurd (omega (arith, k, some_token r))
  arms_loop-Runs (suc f) {p} r l k = Runs-peek _ (
      Runs-if (kind_eq (cur p) TokenKind.rbrace || kind_eq (cur p) TokenKind.eof) _ _
        (λ _. Runs-pure r tt)
        (λ e.
          Runs-round (WholeSome WholeArm) (parse_match_arm stmt) is_none sync_stmt _
            (two_tokens r (ground (arith, e))) (parse_match_arm-Runs r l)
            (λ q r'. sync_stmt-Runs r')
            (λ q a m u w.
              Runs-bind WholeArms _ _
                (arms_loop-Runs f m.ready (omega (arith, l, u)) (omega (arith, k, u)))
                (λ q1 rest m1 w1.
                  Runs-pure m1.ready (λ e1 e0. pushed_arm-Whole a rest (w e0) (w1 e1))))))

  parse_match-Runs :
      {p : Parser}
      → IsReady p
      → length p.toks ≤ n + 1
      → kind_eq (cur p) TokenKind.eof ≡ false
      → Runs WholeStmt p (parse_match stmt p)
  unfolding parse_match
  parse_match-Runs r l h' = Runs-here _ (
      Runs-advance _ r h' (λ q m s. Runs-bind WholeExpr _ _ (parse_expr-Runs m.ready) (λ q1 c m1 w1.
        Runs-expect TokenKind.lbrace _ refl m1.ready
          (λ q2 m2 s2. Runs-left _ (
            Runs-bind WholeArms _ _
              (arms_loop-Runs (length q2.toks) m2.ready (omega (arith, l, s, m1.shorter, s2))
                (omega arith))
              (λ q3 arms m3 w3.
                Runs-expect_any TokenKind.rbrace _ refl m3.ready
                  (λ q4 m4. Runs-pure m4.ready (λ _ e3 _ e1 _. (w1 e1, w3 e3))))))
          (λ q2 m2 up. Runs-pure m2.ready tt))))

assign_op-not_eof : (k : TokenKind) → is_assign_op k ≡ true → kind_eq k TokenKind.eof ≡ false
assign_op-not_eof TokenKind.eof e = cc
assign_op-not_eof _ e = refl

parse_expr_stmt-Runs : {p : Parser} → IsReady p → Runs WholeStmt p (parse_expr_stmt p)
unfolding parse_expr_stmt
parse_expr_stmt-Runs r = Runs-here _ (
    Runs-bind WholeExpr _ _ (parse_expr-Runs r) (λ q e m w.
      Runs-if (is_missing e) _ _ (λ x. Runs-pure m.ready (λ e0. is_missing-not_whole e x (w e0)))
        (λ _. Runs-peek _ (
          Runs-if (is_assign_op (cur q)) _ _
            (λ o. Runs-here _ (
              Runs-advance _ m.ready (assign_op-not_eof (cur q) o) (λ q1 m1 s1.
                Runs-bind WholeExpr _ _ (parse_expr-Runs m1.ready) (λ q2 v m2 w2.
                  Runs-expect_any TokenKind.semi _ refl m2.ready
                    (λ q3 m3. Runs-pure m3.ready (λ _ e2 _ e0. (w e0, w2 e2)))))))
            (λ _.
              Runs-expect_any TokenKind.semi _ refl m.ready
                (λ q1 m1. Runs-pure m1.ready (λ _ e0. w e0)))))))

module _ {n : ℕ} (stmt : Parse Stmt) (h : Fits n WholeStmt stmt) where
  stmt_switch-Runs :
      {p : Parser}
      → IsReady p
      → length p.toks ≤ n + 1
      → Runs WholeStmt p (stmt_switch stmt (cur p) p)
  unfolding stmt_switch
  stmt_switch-Runs {p} r l =
      Runs-if (kind_eq (cur p) TokenKind.lbrace) _ _ (λ _. parse_block_stmt-Runs stmt h r l)
        (λ _.
          Runs-if (kind_eq (cur p) TokenKind.kw_let) _ _
            (λ e. parse_var_decl-Runs r (not_eof TokenKind.kw_let e refl))
            (λ _.
              Runs-if (kind_eq (cur p) TokenKind.kw_if) _ _
                (λ e. Runs-left _ (
                  parse_if-Runs stmt h (length p.toks) r l (omega arith)
                    (not_eof TokenKind.kw_if e refl)))
                (λ _.
                  Runs-if (kind_eq (cur p) TokenKind.kw_while) _ _
                    (λ e. parse_while-Runs stmt h r l (not_eof TokenKind.kw_while e refl))
                    (λ _.
                      Runs-if (kind_eq (cur p) TokenKind.kw_match) _ _
                        (λ e. parse_match-Runs stmt h r l (not_eof TokenKind.kw_match e refl))
                        (λ _.
                          Runs-if (kind_eq (cur p) TokenKind.kw_return) _ _
                            (λ e. parse_return-Runs r (not_eof TokenKind.kw_return e refl))
                            (λ _.
                              Runs-if (kind_eq (cur p) TokenKind.kw_break) _ _
                                (λ e.
                                  parse_jump-Runs Stmt.break_stmt r
                                    (not_eof TokenKind.kw_break e refl) (λ _. tt))
                                (λ _.
                                  Runs-if (kind_eq (cur p) TokenKind.kw_continue) _ _
                                    (λ e.
                                      parse_jump-Runs Stmt.continue_stmt r
                                        (not_eof TokenKind.kw_continue e refl) (λ _. tt))
                                    (λ _.
                                      Runs-if (kind_eq (cur p) TokenKind.semi) _ _
                                        (λ e. Runs-here _ (
                                          Runs-advance _ r (not_eof TokenKind.semi e refl)
                                            (λ q m s. Runs-pure m.ready (λ _. tt))))
                                        (λ _. parse_expr_stmt-Runs r)))))))))
    where
      not_eof :
          (k : TokenKind)
          → kind_eq (cur p) k ≡ true
          → kind_eq k TokenKind.eof ≡ false
          → kind_eq (cur p) TokenKind.eof ≡ false
      not_eof k e x = other_kind (cur p) k TokenKind.eof e x

  stmt_over-Fits : Fits (n + 1) WholeStmt (stmt_over stmt)
  unfolding stmt_over
  stmt_over-Fits p r l =
      Runs-limited Stmt.missing (peek >>= λ k. stmt_switch stmt k) r
        (λ q r' s. Runs-peek (stmt_switch stmt) (stmt_switch-Runs r' (omega (arith, l, s))))

-- Enough fuel for the tokens that are left.
stmt_rounds-Fits : (n : ℕ) → Fits n WholeStmt (stmt_rounds n)
unfolding stmt_rounds
stmt_rounds-Fits zero p r l = absurd (omega (arith, l, some_token r))
stmt_rounds-Fits (suc n) p r l =
    stmt_over-Fits (stmt_rounds n) (stmt_rounds-Fits n) p r (omega (arith, l))

pub parse_stmt-Runs : {p : Parser} → IsReady p → Runs WholeStmt p (parse_stmt p)
unfolding parse_stmt
parse_stmt-Runs {p} r = Runs-left _ (stmt_rounds-Fits (length p.toks) p r (omega arith))
