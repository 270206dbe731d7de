-- ===== src/Sema/Check/Total/Check.antt =====
-- The check of an expression (src/sema/sema.c): its fuel is enough, since no rule makes a tree
-- deeper.
use slop.Base.{ℕ, zero, suc, arith, Option, none, some, refl, ◌≡◌, true}
use slop.Ast.{Expr}
use slop.Parser.Total.Exprs.{WholeExpr}
use slop.Support.Diag.{SrcPos}
use slop.Sema.Types.{TyRef}
use slop.Sema.Types.Kind.{TyKind}
use slop.Sema.Check.State.{Sema}
use slop.Sema.Check.Tree.{null, node, Shape, height, enter, Typed}
use slop.Sema.Check.Exprs.{
  Checker, leaf, check_shape, check_over, check_on, check_expr, check_value,
}
use slop.Sema.Check.Stmts.{value_of}
use slop.Sema.Check.Ready.{is_core, Good, Runs, Any}
use slop.Sema.Check.Rules.{Runs-map, Runs-pure, Runs-bind, Runs-option, Runs-core}
use slop.Sema.Check.Whole.{
  Deep, DeepShape, DeepArgs, AllTyped, AllShape, AllArgs, BelowShape, BelowArgs, enter-Deep,
  enter-Below,
}
use slop.Sema.Check.Total.Types.{ptr_to-Runs}
use slop.Sema.Check.Total.Coerce.{coerce-Runs, settle-Runs}
use slop.Sema.Check.Total.Ops.{KeepsPair, AnnotatesPair, check_binary_op-Runs}
use slop.Sema.Check.Total.Leaves.{or_poison-Runs, check_name-Runs, check_sizeof-Runs}
use slop.Sema.Check.Total.Exprs.{
  GoodTree, Fills, Checks, check_unary-Runs, check_call-Runs, check_cast-Runs, check_index-Runs,
  check_field-Runs,
}

leaf-Runs :
    (n : ℕ) (x : Shape) (k : TyKind) {s : Sema}
    → is_core k ≡ true
    → Good s
    → DeepShape n x
    → AllShape x
    → Runs (λ r. DeepShape n r.0) (λ r. BelowShape x → AllShape r.0) s (leaf x k s)
unfolding leaf
leaf-Runs n x k c g d a = Runs-core k c _ g (λ t. Runs-pure g d (λ b. a))

-- The operand of a rule, with the shape around it.
module _ (n : ℕ) (check : Checker) (h : Checks n check) where
  pub check_shape-Runs :
      (pos : SrcPos) (old : Option TyRef) (x : Shape) {s : Sema}
      → Good s
      → DeepShape n x
      → Runs
          (λ r. DeepShape n r.0)
          (λ r. BelowShape x → AllShape r.0)
          s
          (check_shape check pos old x s)
  unfolding check_shape
  check_shape-Runs pos old (Shape.int_lit v) g d = leaf-Runs n _ _ refl g tt tt
  check_shape-Runs pos old (Shape.char_lit v) g d = leaf-Runs n _ _ refl g tt tt
  check_shape-Runs pos old (Shape.float_lit v) g d = leaf-Runs n _ _ refl g tt tt
  check_shape-Runs pos old (Shape.bool_lit v) g d = leaf-Runs n _ _ refl g tt tt
  check_shape-Runs pos old Shape.null_lit g d = leaf-Runs n _ _ refl g tt tt
  check_shape-Runs pos old (Shape.string_lit v) g d = Runs-core TyKind.u8 refl _ g (λ byte.
      Runs-bind Any Any _ _ (ptr_to-Runs byte g) (λ q t m _ _. Runs-pure m.good tt (λ _ _. tt)))
  check_shape-Runs pos old (Shape.name v) g d =
      Runs-bind Any Any _ _ (check_name-Runs pos v g) (λ q t m _ _. Runs-pure m.good tt (λ _ _. tt))
  check_shape-Runs pos old (Shape.unary op x) g d =
      Runs-bind (λ r. Deep n r.0) (Fills x) _ _ (check_unary-Runs n check h pos op x g d.0 d.1)
        (λ q r m v w. Runs-pure m.good (d.0, v) w)
  check_shape-Runs pos old (Shape.binary op l r) {s} g d =
      Runs-bind (GoodTree n) (Fills l) _ _ (h l none s g d.0) (λ q a m v w.
        Runs-bind (GoodTree n) (Fills r) _ _ (h r none q m.good d.1) (λ q1 b m1 v1 w1.
          Runs-bind (KeepsPair a.0 b.0) (AnnotatesPair a.0 b.0) _ _
            (check_binary_op-Runs op pos a.0 b.0 m1.good v.1 v1.1)
            (λ q2 c m2 k k1.
              Runs-pure m2.good (k.0.0 n v.0, k.1.0 n v1.0)
                (λ e2 e1 e f. ((k1 e2).0 (w e f.0), (k1 e2).1 (w1 e1 f.1))))))
  check_shape-Runs pos old (Shape.call c es) g d =
      Runs-bind (λ r. DeepArgs n r.0) (λ r. BelowArgs es → AllArgs r.0) _ _
        (check_call-Runs n check h pos c es g d) (λ q r m v w. Runs-pure m.good v w)
  check_shape-Runs pos old (Shape.index b i) g d = check_index-Runs n check h pos b i g d.0 d.1
  check_shape-Runs pos old (Shape.field b v) g d = check_field-Runs n check h pos b v g d
  check_shape-Runs pos old (Shape.cast x t) g d =
      Runs-bind (λ r. Deep n r.0) (Fills x) _ _ (check_cast-Runs n check h pos x t g d)
        (λ q r m v w. Runs-pure m.good v w)
  check_shape-Runs pos old (Shape.size_of t) g d =
      Runs-bind Any Any _ _ (check_sizeof-Runs pos t g)
        (λ q u m _ _. Runs-pure m.good tt (λ _ _. tt))
  check_shape-Runs pos old (Shape.conv x) g d =
      Runs-bind Any Any _ _ (or_poison-Runs old g) (λ q t m _ _. Runs-pure m.good tt (λ _ b. b))

  check_over-Checks : Checks (suc n) (check_over check)
  unfolding check_over
  check_over-Checks null expected s g d = elim d [ ]
  check_over-Checks (node pos old x) expected s g d =
      Runs-bind (λ r. DeepShape n r.0) (λ r. BelowShape x → AllShape r.0) _ _
        (check_shape-Runs pos old x g d)
        (λ q r m v w.
          Runs-option expected _ _ (λ _. Runs-pure m.good (v, tt) (λ e b. (tt, w e b)))
            (λ want _.
              Runs-map (λ a c. (c.0 (suc n) v, c.1 tt)) (λ a c k e b. k (tt, w e b))
                (coerce-Runs (node pos (some r.1) r.0) want m.good)))

pub check_on-Checks : (n : ℕ) → Checks n (check_on n)
unfolding check_on
check_on-Checks zero e expected s g d = elim d [ ]
check_on-Checks (suc n) e expected s g d =
    check_over-Checks n (check_on n) (check_on-Checks n) e expected s g d

-- The depth of a tree of the parser's.
abbrev pub Entered : Expr → Typed × TyRef → Type 0
Entered e = GoodTree (suc (height (enter e)))

-- A tree of the parser's with no child missing.
pub check_expr-Runs :
    (e : Expr) (expected : Option TyRef) {s : Sema}
    → Good s
    → WholeExpr e
    → Runs (Entered e) (λ r. AllTyped r.0) s (check_expr (enter e) expected s)
unfolding check_expr
check_expr-Runs e expected {s} g h =
    let n : ℕ = height (enter e) in
    Runs-map (λ a v. v) (λ a v w. w (enter-Below e h))
      (check_on-Checks (suc n) (enter e) expected s g (enter-Deep e n h (omega arith)))

-- The same where it must have a real type.
pub value_of-Runs :
    (e : Expr) {s : Sema}
    → Good s
    → WholeExpr e
    → Runs (Entered e) (λ r. AllTyped r.0) s (value_of e s)
unfolding check_value
value_of-Runs e g h =
    Runs-bind (Entered e) (λ r. AllTyped r.0) _ _ (check_expr-Runs e none g h)
      (λ q r m v w.
        Runs-map (λ a c. (c.0 (suc (height (enter e))) v.0, c.1 v.1)) (λ a c k e. k (w e))
          (settle-Runs r.0 r.1 m.good v.1))
