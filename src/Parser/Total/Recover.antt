-- ===== src/Parser/Total/Recover.antt =====
-- The recovery (src/parser/parser.c, `sync_stmt`, `sync_member`, `sync_item`).
use slop.Base.{ℕ, zero, suc, refl, ◌||◌, arith, length}
use slop.Lexer.Kind.{TokenKind, kind_eq}
use slop.Parser.State.{Parser, cur}
use slop.Parser.Recover.{
  starts_stmt, starts_item, sync_stmt_loop, sync_stmt, sync_member_loop, sync_member,
  sync_item_loop, sync_item,
}
use slop.Parser.Runs.{IsReady, Runs, Fits, Any, Runs-pure, Runs-map, some_token}
use slop.Parser.Rules.{Runs-peek, Runs-left, Runs-if, Runs-advance, Runs-accept}

sync_stmt_loop-Runs : (f : ℕ) → Fits f Any (sync_stmt_loop f)
unfolding sync_stmt_loop
sync_stmt_loop-Runs zero p r n = absurd (omega (arith, n, some_token r))
sync_stmt_loop-Runs (suc f) p r n = Runs-peek _ (
    Runs-if (kind_eq (cur p) TokenKind.eof) _ _ (λ e. Runs-pure r tt)
      (λ e.
        Runs-accept TokenKind.semi _ refl r (λ q m s. Runs-peek _ (Runs-pure m.ready (λ _. tt)))
          (Runs-peek _ (
            Runs-if (starts_stmt (cur p)) _ _ (λ _. Runs-pure r tt)
              (λ _. Runs-advance _ r e (λ q m s.
                Runs-map (λ a _ _. tt) (sync_stmt_loop-Runs f q m.ready (omega (arith, n, s)))))))))

pub sync_stmt-Runs : {p : Parser} → IsReady p → Runs Any p (sync_stmt p)
unfolding sync_stmt
sync_stmt-Runs {p} r = Runs-left _ (sync_stmt_loop-Runs (length p.toks) p r (omega arith))

sync_member_loop-Runs : (f : ℕ) → Fits f Any (sync_member_loop f)
unfolding sync_member_loop
sync_member_loop-Runs zero p r n = absurd (omega (arith, n, some_token r))
sync_member_loop-Runs (suc f) p r n = Runs-peek _ (
    Runs-if (kind_eq (cur p) TokenKind.eof) _ _ (λ e. Runs-pure r tt)
      (λ e.
        Runs-if (kind_eq (cur p) TokenKind.semi || kind_eq (cur p) TokenKind.comma) _ _
          (λ _. Runs-advance _ r e (λ q m s. Runs-pure m.ready (λ _. tt)))
          (λ _.
            Runs-if (kind_eq (cur p) TokenKind.rbrace) _ _ (λ _. Runs-pure r tt)
              (λ _. Runs-advance _ r e (λ q m s.
                Runs-map (λ a _ _. tt)
                  (sync_member_loop-Runs f q m.ready (omega (arith, n, s))))))))

pub sync_member-Runs : {p : Parser} → IsReady p → Runs Any p (sync_member p)
unfolding sync_member
sync_member-Runs {p} r = Runs-left _ (sync_member_loop-Runs (length p.toks) p r (omega arith))

sync_item_loop-Runs : (f : ℕ) → Fits f Any (sync_item_loop f)
unfolding sync_item_loop
sync_item_loop-Runs zero p r n = absurd (omega (arith, n, some_token r))
sync_item_loop-Runs (suc f) p r n = Runs-peek _ (
    Runs-if (kind_eq (cur p) TokenKind.eof || starts_item (cur p)) _ _ (λ _. Runs-pure r tt)
      (λ e.
        Runs-advance _ r (ground (arith, e)) (λ q m s.
          Runs-map (λ a _ _. tt) (sync_item_loop-Runs f q m.ready (omega (arith, n, s))))))

pub sync_item-Runs : {p : Parser} → IsReady p → Runs Any p (sync_item p)
unfolding sync_item
sync_item-Runs {p} r = Runs-left _ (sync_item_loop-Runs (length p.toks) p r (omega arith))
