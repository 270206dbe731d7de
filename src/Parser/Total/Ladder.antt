-- ===== src/Parser/Total/Ladder.antt =====
-- The precedence ladder and the recursion of expressions (src/parser/parser.c, `parse_expr` to
-- `parse_unary`).
use slop.Base.{ℕ, zero, suc, ◌+◌, ◌≤◌, ◌≡◌, refl, Bool, true, false, arith, length}
use slop.Ast.{Expr}
use slop.Lexer.Kind.{TokenKind, kind_eq}
use slop.Parser.State.{Parser, Parse, cur}
use slop.Parser.Exprs.{
  is_mul, is_add, is_shift, is_relational, is_equality, is_one, is_prefix, binary_loop,
  binary_level, parse_mul, parse_add, parse_shift, parse_bitand, parse_bitxor, parse_bitor,
  parse_relational, parse_equality, parse_logical_and, parse_logical_or, expr_over, unary_over,
  parse_unary, parse_expr,
}
use slop.Parser.Runs.{IsReady, Runs, Fits, Runs-pure, Runs-map, Runs-bind, some_token}
use slop.Parser.Rules.{
  other_kind, Runs-peek, Runs-here, Runs-left, Runs-if, Runs-advance, Runs-limited,
}
use slop.Parser.Total.Exprs.{WholeExpr, parse_sizeof-Runs, parse_postfix-Runs}

-- No operator of a rung is the end of file.
abbrev IsOperator : (TokenKind → Bool) → Type 0
IsOperator is_op = (k : TokenKind) → is_op k ≡ true → kind_eq k TokenKind.eof ≡ false

prefix-not_eof : IsOperator is_prefix
prefix-not_eof TokenKind.eof e = cc
prefix-not_eof _ e = refl

one-IsOperator : (op : TokenKind) → kind_eq op TokenKind.eof ≡ false → IsOperator (is_one op)
one-IsOperator op h k e = other_kind k op TokenKind.eof e h

mul-IsOperator : IsOperator is_mul
mul-IsOperator TokenKind.eof e = cc
mul-IsOperator _ e = refl

add-IsOperator : IsOperator is_add
add-IsOperator TokenKind.eof e = cc
add-IsOperator _ e = refl

shift-IsOperator : IsOperator is_shift
shift-IsOperator TokenKind.eof e = cc
shift-IsOperator _ e = refl

relational-IsOperator : IsOperator is_relational
relational-IsOperator TokenKind.eof e = cc
relational-IsOperator _ e = refl

equality-IsOperator : IsOperator is_equality
equality-IsOperator TokenKind.eof e = cc
equality-IsOperator _ e = refl

module _ {n : ℕ} (is_op : TokenKind → Bool) (op_ok : IsOperator is_op) (operand : Parse Expr)
    (h : Fits n WholeExpr operand) where
  binary_loop-Runs :
      (f : ℕ) (lhs : Expr) {p : Parser}
      → IsReady p
      → length p.toks ≤ n
      → length p.toks ≤ f
      → Runs (λ u. WholeExpr lhs → WholeExpr u) p (binary_loop is_op operand f lhs p)
  unfolding binary_loop
  binary_loop-Runs zero lhs r l k = absurd (omega (arith, k, some_token r))
  binary_loop-Runs (suc f) lhs {p} r l k = Runs-peek _ (
      Runs-if (is_op (cur p)) _ _
        (λ e. Runs-here _ (
          Runs-advance _ r (op_ok (cur p) e) (λ q m s.
            Runs-bind WholeExpr _ _ (h q m.ready (omega (arith, l, s))) (λ q1 rhs m1 w.
              Runs-map (λ u g e1 _ x. g (x, w e1))
                (binary_loop-Runs f (Expr.binary _ _ lhs rhs) m1.ready
                  (omega (arith, l, s, m1.shorter)) (omega (arith, k, s, m1.shorter)))))))
        (λ _. Runs-pure r (λ x. x)))

  binary_level-Fits : Fits n WholeExpr (binary_level is_op operand)
  unfolding binary_level
  binary_level-Fits p r l = Runs-bind WholeExpr _ _ (h p r l) (λ q lhs m w. Runs-left _ (
      Runs-map (λ u g e0. g (w e0))
        (binary_loop-Runs (length q.toks) lhs m.ready (omega (arith, l, m.shorter)) (omega arith))))

module _ {n : ℕ} (unary : Parse Expr) (h : Fits n WholeExpr unary) where
  bitor-Fits : Fits n WholeExpr (parse_bitor unary)
  unfolding parse_mul parse_add parse_shift parse_bitand parse_bitxor parse_bitor
  bitor-Fits =
      let mul = binary_level-Fits is_mul mul-IsOperator _ h in
      let add = binary_level-Fits is_add add-IsOperator _ mul in
      let shift = binary_level-Fits is_shift shift-IsOperator _ add in
      let bitand = binary_level-Fits _ (one-IsOperator TokenKind.amp refl) _ shift in
      let bitxor = binary_level-Fits _ (one-IsOperator TokenKind.caret refl) _ bitand in
      binary_level-Fits _ (one-IsOperator TokenKind.pipe refl) _ bitxor

  logical_or-Fits : Fits n WholeExpr (parse_logical_or unary)
  unfolding parse_relational parse_equality parse_logical_and parse_logical_or
  logical_or-Fits =
      let rel = binary_level-Fits is_relational relational-IsOperator _ bitor-Fits in
      let eq = binary_level-Fits is_equality equality-IsOperator _ rel in
      let both = binary_level-Fits _ (one-IsOperator TokenKind.amp_amp refl) _ eq in
      binary_level-Fits _ (one-IsOperator TokenKind.pipe_pipe refl) _ both

  expr_over-Fits : Fits n WholeExpr (expr_over unary)
  unfolding expr_over
  expr_over-Fits p r l =
      Runs-limited Expr.missing (parse_logical_or unary) r
        (λ q r' s. logical_or-Fits q r' (omega (arith, l, s)))

  unary_over-Fits : Fits (n + 1) WholeExpr (unary_over unary)
  unfolding unary_over
  unary_over-Fits p r l = Runs-here _ (
      Runs-peek _ (
        Runs-if (is_prefix (cur p)) _ _
          (λ e. Runs-advance _ r (prefix-not_eof (cur p) e) (λ q m s.
            Runs-bind WholeExpr _ _ (h q m.ready (omega (arith, l, s)))
              (λ q1 x m1 w. Runs-pure m1.ready (λ e1 _. (e, w e1)))))
          (λ _.
            Runs-if (kind_eq (cur p) TokenKind.kw_sizeof) _ _
              (λ e.
                Runs-advance _ r (other_kind (cur p) TokenKind.kw_sizeof TokenKind.eof e refl)
                  (λ q m s. Runs-map (λ u w _. w) (parse_sizeof-Runs _ m.ready)))
              (λ _. parse_postfix-Runs (expr_over unary) expr_over-Fits r l))))

-- Enough fuel for the tokens that are left.
parse_unary-Fits : (n : ℕ) → Fits n WholeExpr (parse_unary n)
unfolding parse_unary
parse_unary-Fits zero p r l = absurd (omega (arith, l, some_token r))
parse_unary-Fits (suc n) p r l =
    unary_over-Fits (parse_unary n) (parse_unary-Fits n) p r (omega (arith, l))

pub parse_expr-Runs : {p : Parser} → IsReady p → Runs WholeExpr p (parse_expr p)
unfolding parse_expr
parse_expr-Runs {p} r = Runs-left _ (
    expr_over-Fits (parse_unary (length p.toks)) (parse_unary-Fits (length p.toks)) p r
      (omega arith))
