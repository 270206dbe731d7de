-- ===== src/Sema/Check/Total/Expected.antt =====
-- An expression that is checked against a type (src/sema/sema.c, `coerce`, `check_expr`): it has the
-- type, or a report was made.
use slop.Base.{ℕ, zero, suc, ◌≡◌, refl, ◌||◌, not, ◌==◌, none, some, arith}
use slop.Sema.Types.{TyRef, deref}
use slop.Sema.Types.Kind.{ty_is_untyped}
use slop.Sema.Convert.{assignable}
use slop.Sema.Check.State.{Sema}
use slop.Sema.Check.Tree.{Typed, null, node, height, enter}
use slop.Sema.Check.Coerce.{can_assign, is_poison, coerce}
use slop.Sema.Check.Ready.{Good, Runs, Any}
use slop.Sema.Check.Rules.{
  Runs-map, Runs-pure, Runs-bind, Runs-gets, Runs-if, Runs-error, poison-Runs,
}
use slop.Sema.Check.Whole.{Deep, DeepShape, AllTyped, AllShape, BelowShape, enter-Deep}
use slop.Ast.{Expr}
use slop.Parser.Total.Exprs.{WholeExpr}
use slop.Sema.Check.Exprs.{check_over, check_on, check_expr}
use slop.Sema.Check.Total.Coerce.{retype_untyped-Runs, Kept}
use slop.Sema.Check.Total.Check.{check_shape-Runs, check_on-Checks}

-- The type that is expected, where nothing was reported.
abbrev pub IsAt : TyRef → Typed × TyRef → Type 0
IsAt target r = r.1 ≡ target

coerce-IsAt :
    (e : Typed) (target : TyRef) {s : Sema} → Good s → Runs Any (IsAt target) s (coerce e target s)
unfolding coerce can_assign
coerce-IsAt null target g = Runs-pure g tt refl
coerce-IsAt (node p none x) target g = Runs-pure g tt refl
coerce-IsAt (node p (some from) x) target {s} g = Runs-gets _ _ (
    Runs-gets _ _ (
      Runs-if
        (from == target || (is_poison (deref s.types from) || is_poison (deref s.types target))) _ _
        (λ e. Runs-pure g tt refl)
        (λ e. Runs-gets _ _ (
          Runs-if (not (assignable s.types from target)) _ _
            (λ e. Runs-error p _ g (λ q m up.
              Runs-bind Any Any _ _ (poison-Runs m.good)
                (λ q1 bad m1 _ _. Runs-pure m1.good tt (λ _. tt))))
            (λ e.
              Runs-if (ty_is_untyped (deref s.types from).kind) _ _
                (λ e.
                  Runs-bind (Kept (node p (some from) x))
                    (λ r. AllTyped (node p (some from) x) → AllTyped r) _ _
                    (retype_untyped-Runs (node p (some from) x) target g)
                    (λ q y m k w. Runs-pure m.good tt (λ _. refl)))
                (λ e. Runs-pure g tt refl))))))

check_on-IsAt :
    (n : ℕ) (e : Typed) (want : TyRef) {s : Sema}
    → Good s
    → Deep n e
    → Runs Any (IsAt want) s (check_on n e (some want) s)
unfolding check_on check_over
check_on-IsAt zero e want g d = elim d [ ]
check_on-IsAt (suc n) null want g d = elim d [ ]
check_on-IsAt (suc n) (node pos old x) want g d =
    Runs-bind (λ r. DeepShape n r.0) (λ r. BelowShape x → AllShape r.0) _ _
      (check_shape-Runs n (check_on n) (check_on-Checks n) pos old x g d)
      (λ q r m v w.
        Runs-map (λ a c. c) (λ a c k _. k) (coerce-IsAt (node pos (some r.1) r.0) want m.good))

pub check_expr-IsAt :
    (e : Expr) (want : TyRef) {s : Sema}
    → Good s
    → WholeExpr e
    → Runs Any (IsAt want) s (check_expr (enter e) (some want) s)
unfolding check_expr
check_expr-IsAt e want g h =
    let n : ℕ = height (enter e) in
    check_on-IsAt (suc n) (enter e) want g (enter-Deep e n h (omega arith))
