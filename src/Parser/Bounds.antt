-- ===== src/Parser/Bounds.antt =====
-- What one call keeps of the parser's state (src/parser/parser.c).
use slop.Base.{
  ℕ, zero, suc, ◌≤◌, ◌<◌, ◌≡◌, refl, ap, true, false, ◌||◌, inl, inr, arith, if_both, length, ltb,
  Option, some, some_injective, ◌⊎◌, Bool, List, [], ◌++◌,
}
use mathlib.Core.Path.{subst}
use slop.Ast.{Expr, Stmt}
use slop.Lexer.Kind.{TokenKind, kind_eq}
use slop.Parser.State.{Parser, Parse, ◌>>=◌, cur, advance}
use slop.Lexer.State.{Token}
use slop.Parser.Recover.{starts_item, sync_item_loop, sync_item}
use slop.Parser.Exprs.{parse_expr}
use slop.Parser.Stmts.{parse_stmt}
use slop.Parser.Runs.{IsReady, Moves, Runs}
use slop.Parser.Invert.{bind-some, peek-some}
use slop.Parser.Total.Exprs.{WholeExpr}
use slop.Parser.Total.Ladder.{parse_expr-Runs}
use slop.Parser.Total.Stmts.{WholeStmt}
use slop.Parser.Total.Match.{parse_stmt-Runs}
use slop.Parser.Total.Recover.{sync_item-Runs}
use slop.Parser.Starts.{
  IsStart, NoStarts, Passed, Passed-trans, next_tokens-Passed, exit-IsStart, stay-IsStart,
}

-- The state behind a call: the depth is back, the position is not behind the old one, and no report
-- is taken back.
pub record Keeps (p q : Parser) : Type 0 where
  pub ready : IsReady q
  pub depth : q.depth ≡ p.depth
  pub shorter : length q.toks ≤ length p.toks
  pub count : p.diag.count ≤ q.diag.count

Moves-Keeps : {p q : Parser} → Moves p q → Keeps p q
Moves-Keeps m = record { ready = m.ready; depth = m.depth; shorter = m.shorter; count = m.count }

-- Either something was reported, or the result is whole.
Runs-or :
    {A : Type 0} (W : A → Type 0) (p : Parser) (o : Option (Parser × A))
    → Runs W p o
    → (r : Parser × A) × (o ≡ some r) × Keeps p r.0 × ((p.diag.count < r.0.diag.count) ⊎ W r.1)
Runs-or W p o r = (
  (r.next, r.result),
  r.run,
  Moves-Keeps r.moves,
  by_count (p.diag.count) (r.next.diag.count) r.moves.count r.whole,
)
  where
    by_count : {X : Type 0} (m n : ℕ) → m ≤ n → (n ≡ m → X) → (m < n) ⊎ X
    by_count {X = X} m n h f = by_test (ltb m n) refl
      where
        by_test : (b : Bool) → ltb m n ≡ b → (m < n) ⊎ X
        by_test true e = inl (ground (arith, e))
        by_test false e = inr (f (ground (arith, e, h)))

-- From every token of a closed list that is no error, within the nesting limit, `parse_expr`
-- returns. The depth is restored, the position does not move back, no report is taken back, and
-- either an error was reported or the expression has no missing child.
pub parse_expr-Keeps :
    (p : Parser)
    → IsReady p
    → (r : Parser × Expr) × (parse_expr p ≡ some r)
      × Keeps p r.0
      × ((p.diag.count < r.0.diag.count) ⊎ WholeExpr r.1)
parse_expr-Keeps p r = Runs-or WholeExpr p (parse_expr p) (parse_expr-Runs r)

-- From every token of a closed list that is no error, within the nesting limit, `parse_stmt`
-- returns. The depth is restored, the position does not move back, no report is taken back, and
-- either an error was reported or the statement has no missing child that the grammar asks for.
pub parse_stmt-Keeps :
    (p : Parser)
    → IsReady p
    → (r : Parser × Stmt) × (parse_stmt p ≡ some r)
      × Keeps p r.0
      × ((p.diag.count < r.0.diag.count) ⊎ WholeStmt r.1)
parse_stmt-Keeps p r = Runs-or WholeStmt p (parse_stmt p) (parse_stmt-Runs r)

-- `q` stands at a token that starts an item, or at the end, and no token from `p` to it starts one.
pub record AtItem (p q : Parser) : Type 0 where
  pub stop : (kind_eq (cur q) TokenKind.eof ≡ true) ⊎ IsStart (cur q)
  pub skipped : List Token
  pub split : p.toks ≡ skipped ++ q.toks
  pub none_starts : NoStarts skipped

sync_item_loop-AtItem :
    (f : ℕ) (p : Parser) (r : Parser × Unit {0}) → sync_item_loop f p ≡ some r → AtItem p r.0
unfolding sync_item_loop
sync_item_loop-AtItem zero p r h = cc
sync_item_loop-AtItem (suc f) p r h =
    if_both (λ (m : Parse (Unit {0})). m p ≡ some r → AtItem p r.0)
      (kind_eq (cur p) TokenKind.eof || starts_item (cur p))
      (λ e x.
        subst (AtItem p) (ap (λ y. y.0) (some_injective x))
          (record { stop = exit-IsStart p e; skipped = []; split = refl; none_starts = tt }))
      (λ e x.
        let (s, a, y) = bind-some advance _ p r x in
        behind s.0
          (subst (λ q. Passed p.toks q.toks) (ap (λ y. y.0) (some_injective a))
            (next_tokens-Passed p.toks p.diag (stay-IsStart p e)))
          (sync_item_loop-AtItem f s.0 r y))
      (peek-some _ p r h)
  where
    behind : (q : Parser) → Passed p.toks q.toks → AtItem q r.0 → AtItem p r.0
    behind q m a =
        let (xs, e, k) =
          Passed-trans p.toks q.toks r.0.toks m (a.skipped, a.split, a.none_starts) in
        record { stop = a.stop; skipped = xs; split = e; none_starts = k }

-- From every token of a closed list that is no error the recovery at item level returns, and it
-- leaves the parser at the first token that starts an item, or at the end of file where there is
-- none, with the state kept: no token that it steps over starts an item.
pub sync_item-AtItem :
    (p : Parser)
    → IsReady p
    → (r : Parser × Unit {0}) × (sync_item p ≡ some r) × Keeps p r.0 × AtItem p r.0
unfolding sync_item ◌>>=◌
sync_item-AtItem p r =
    let k = sync_item-Runs r in
    let at_item = sync_item_loop-AtItem (length p.toks) p (k.next, k.result) k.run in
    ((k.next, k.result), k.run, Moves-Keeps k.moves, at_item)
