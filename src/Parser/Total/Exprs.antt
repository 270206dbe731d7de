-- ===== src/Parser/Total/Exprs.antt =====
-- Postfix and primary expressions (src/parser/parser.c), over what `expr` keeps.
use slop.Base.{ℕ, zero, suc, ◌+◌, ◌≤◌, ◌≡◌, refl, List, true, false, arith, length}
use slop.Ast.{Expr, Exprs}
use slop.Lexer.Kind.{TokenKind, kind_eq}
use slop.Support.Diag.{SrcPos}
use slop.Parser.State.{Parser, Parse, cur}
use slop.Parser.Exprs.{
  is_prefix, is_missing, starts_literal, literal_node, parse_primary, args_loop, parse_args,
  parse_dot, postfix_loop, parse_postfix, parse_sizeof, parse_literal,
}
use slop.Parser.Runs.{IsReady, Runs, Fits, Runs-pure, Runs-map, Runs-bind, some_token}
use slop.Parser.Rules.{
  other_kind, Runs-peek, Runs-here, Runs-left, Runs-at, Runs-if, Runs-advance, Runs-accept,
  Runs-expect, Runs-expect_any, Runs-ident, Runs-fail,
}
use slop.Parser.Total.Types.{WholeType, parse_type-Runs}

-- An expression with no child missing. Its unary operators are those of the grammar, and it has no
-- conversion, which the checker alone makes.
abbrev mutual
  pub WholeExpr : Expr → Type 0
  WholeExpr Expr.missing = ⊥
  WholeExpr (Expr.int_lit pos n) = Unit {0}
  WholeExpr (Expr.char_lit pos n) = Unit {0}
  WholeExpr (Expr.float_lit pos s) = Unit {0}
  WholeExpr (Expr.string_lit pos s) = Unit {0}
  WholeExpr (Expr.bool_lit pos b) = Unit {0}
  WholeExpr (Expr.null_lit pos) = Unit {0}
  WholeExpr (Expr.name pos n) = Unit {0}
  WholeExpr (Expr.unary pos op e) = (is_prefix op ≡ true) × WholeExpr e
  WholeExpr (Expr.binary pos op l r) = WholeExpr l × WholeExpr r
  WholeExpr (Expr.call pos e es) = WholeExpr e × WholeArgs es
  WholeExpr (Expr.index pos e i) = WholeExpr e × WholeExpr i
  WholeExpr (Expr.field pos e n) = WholeExpr e
  WholeExpr (Expr.cast pos e t) = WholeExpr e × WholeType t
  WholeExpr (Expr.size_of pos t) = WholeType t
  WholeExpr (Expr.conv pos e) = ⊥

  pub WholeArgs : Exprs → Type 0
  WholeArgs Exprs.no_args = Unit {0}
  WholeArgs (Exprs.arg e es) = WholeExpr e × WholeArgs es

pub is_missing-not_whole : (e : Expr) → is_missing e ≡ true → WholeExpr e → ⊥
is_missing-not_whole Expr.missing h w = w
is_missing-not_whole _ h w = cc

literal_node-Whole :
    (pos : SrcPos) (k : TokenKind) (n : ℕ) (s t : List ℕ) → WholeExpr (literal_node pos k (n, s, t))
literal_node-Whole pos TokenKind.int n s t = tt
literal_node-Whole pos TokenKind.float n s t = tt
literal_node-Whole pos TokenKind.char n s t = tt
literal_node-Whole pos TokenKind.string n s t = tt
literal_node-Whole pos TokenKind.kw_true n s t = tt
literal_node-Whole pos TokenKind.kw_false n s t = tt
literal_node-Whole pos _ n s t = tt

literal-not_eof : (k : TokenKind) → starts_literal k ≡ true → kind_eq k TokenKind.eof ≡ false
literal-not_eof TokenKind.eof e = cc
literal-not_eof _ e = refl

-- Behind `sizeof`.
pub parse_sizeof-Runs :
    (pos : SrcPos) {p : Parser} → IsReady p → Runs WholeExpr p (parse_sizeof pos p)
unfolding parse_sizeof
parse_sizeof-Runs pos r =
    Runs-expect TokenKind.lparen _ refl r
      (λ q m s. Runs-bind WholeType _ _ (parse_type-Runs m.ready) (λ q1 t m1 w.
        Runs-expect_any TokenKind.rparen _ refl m1.ready
          (λ q2 m2. Runs-pure m2.ready (λ _ e1 _. w e1))))
      (λ q m up. Runs-pure m.ready tt)

parse_dot-Runs :
    (pos : SrcPos) (e : Expr) {p : Parser}
    → IsReady p
    → Runs (λ u. WholeExpr e → WholeExpr u) p (parse_dot pos e p)
unfolding parse_dot
parse_dot-Runs pos e r =
    Runs-accept TokenKind.kw_as _ refl r
      (λ q m s.
        Runs-expect TokenKind.lparen _ refl m.ready
          (λ q1 m1 s1. Runs-bind WholeType _ _ (parse_type-Runs m1.ready) (λ q2 t m2 w.
            Runs-expect_any TokenKind.rparen _ refl m2.ready
              (λ q3 m3. Runs-pure m3.ready (λ _ e2 _ _ x. (x, w e2)))))
          (λ q1 m1 up. Runs-pure m1.ready tt))
      (Runs-ident _ r (λ q v m s. Runs-pure m.ready (λ _ x. x)) (λ q m up. Runs-pure m.ready tt))

module _ {n : ℕ} (expr : Parse Expr) (h : Fits n WholeExpr expr) where
  args_loop-Runs :
      (f : ℕ) {p : Parser}
      → IsReady p
      → length p.toks ≤ n
      → length p.toks ≤ f
      → Runs WholeArgs p (args_loop expr f p)
  unfolding args_loop
  args_loop-Runs zero r l k = absurd (omega (arith, k, some_token r))
  args_loop-Runs (suc f) {p} r l k = Runs-bind WholeExpr _ _ (h p r l) (λ q e m w.
      Runs-accept TokenKind.comma _ refl m.ready
        (λ q1 m1 s.
          Runs-bind WholeArgs _ _
            (args_loop-Runs f m1.ready (omega (arith, l, s, m.shorter))
              (omega (arith, k, s, m.shorter)))
            (λ q2 rest m2 w2. Runs-pure m2.ready (λ e2 _ e0. (w e0, w2 e2))))
        (Runs-pure m.ready (λ e0. (w e0, tt))))

  parse_args-Runs :
      {p : Parser} → IsReady p → length p.toks ≤ n → Runs WholeArgs p (parse_args expr p)
  unfolding parse_args
  parse_args-Runs {p} r l = Runs-at TokenKind.rparen _ (
      Runs-if (kind_eq (cur p) TokenKind.rparen) _ _ (λ _. Runs-pure r tt)
        (λ _. Runs-left _ (args_loop-Runs (length p.toks) r l (omega arith))))

  postfix_loop-Runs :
      (f : ℕ) (e : Expr) {p : Parser}
      → IsReady p
      → length p.toks ≤ n + 1
      → length p.toks ≤ f
      → Runs (λ u. WholeExpr e → WholeExpr u) p (postfix_loop expr f e p)
  unfolding postfix_loop
  postfix_loop-Runs zero e r l k = absurd (omega (arith, k, some_token r))
  postfix_loop-Runs (suc f) e {p} r l k = Runs-here _ (
      Runs-accept TokenKind.lparen _ refl r
        (λ q m s.
          Runs-bind WholeArgs _ _ (parse_args-Runs m.ready (omega (arith, l, s))) (λ q1 es m1 w.
            Runs-expect_any TokenKind.rparen _ refl m1.ready (λ q2 m2.
              Runs-map (λ u g _ e1 _ x. g (x, w e1))
                (postfix_loop-Runs f (Expr.call _ e es) m2.ready
                  (omega (arith, l, s, m1.shorter, m2.shorter))
                  (omega (arith, k, s, m1.shorter, m2.shorter))))))
        (Runs-accept TokenKind.lbracket _ refl r
          (λ q m s. Runs-bind WholeExpr _ _ (h q m.ready (omega (arith, l, s))) (λ q1 i m1 w.
            Runs-expect_any TokenKind.rbracket _ refl m1.ready (λ q2 m2.
              Runs-map (λ u g _ e1 _ x. g (x, w e1))
                (postfix_loop-Runs f (Expr.index _ e i) m2.ready
                  (omega (arith, l, s, m1.shorter, m2.shorter))
                  (omega (arith, k, s, m1.shorter, m2.shorter))))))
          (Runs-accept TokenKind.dot _ refl r
            (λ q m s.
              Runs-bind (λ u. WholeExpr e → WholeExpr u) _ _ (parse_dot-Runs _ e m.ready)
                (λ q1 e' m1 w.
                  Runs-map (λ u g e1 _ x. g (w e1 x))
                    (postfix_loop-Runs f e' m1.ready (omega (arith, l, s, m1.shorter))
                      (omega (arith, k, s, m1.shorter)))))
            (Runs-pure r (λ x. x)))))

  parse_primary-Runs :
      {p : Parser} → IsReady p → length p.toks ≤ n + 1 → Runs WholeExpr p (parse_primary expr p)
  unfolding parse_primary
  parse_primary-Runs {p} r l = Runs-here _ (
      Runs-peek _ (
        Runs-if (starts_literal (cur p)) _ _
          (λ e.
            Runs-advance _ r (literal-not_eof (cur p) e)
              (λ q m s. Runs-pure m.ready (λ _. literal_node-Whole _ (cur p) _ _ _)))
          (λ _.
            Runs-if (kind_eq (cur p) TokenKind.ident) _ _
              (λ e.
                Runs-advance _ r (other_kind (cur p) TokenKind.ident TokenKind.eof e refl)
                  (λ q m s. Runs-pure m.ready (λ _. tt)))
              (λ _.
                Runs-if (kind_eq (cur p) TokenKind.lparen) _ _
                  (λ e.
                    Runs-advance _ r (other_kind (cur p) TokenKind.lparen TokenKind.eof e refl)
                      (λ q m s.
                        Runs-bind WholeExpr _ _ (h q m.ready (omega (arith, l, s))) (λ q1 x m1 w.
                          Runs-expect_any TokenKind.rparen _ refl m1.ready
                            (λ q2 m2. Runs-pure m2.ready (λ _ e1 _. w e1)))))
                  (λ _. Runs-fail Expr.missing r)))))

  pub parse_postfix-Runs :
      {p : Parser} → IsReady p → length p.toks ≤ n + 1 → Runs WholeExpr p (parse_postfix expr p)
  unfolding parse_postfix
  parse_postfix-Runs {p} r l = Runs-bind WholeExpr _ _ (parse_primary-Runs r l) (λ q e m w.
      Runs-if (is_missing e) _ _
        (λ x. Runs-pure m.ready (λ e0. absurd (is_missing-not_whole e x (w e0))))
        (λ _. Runs-left _ (
          Runs-map (λ u g e0. g (w e0))
            (postfix_loop-Runs (length q.toks) e m.ready (omega (arith, l, m.shorter))
              (omega arith)))))

-- A literal, or an error.
pub parse_literal-Runs : {p : Parser} → IsReady p → Runs WholeExpr p (parse_literal p)
unfolding parse_literal parse_primary
parse_literal-Runs {p} r = Runs-peek _ (
    Runs-if (starts_literal (cur p)) _ _
      (λ h. Runs-here _ (
        Runs-peek _ (
          Runs-if (starts_literal (cur p)) _ _
            (λ e.
              Runs-advance _ r (literal-not_eof (cur p) e)
                (λ q m s. Runs-pure m.ready (λ _. literal_node-Whole _ (cur p) _ _ _)))
            (λ e. cc))))
      (λ _. Runs-fail Expr.missing r))
