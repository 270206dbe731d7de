-- ===== src/Sema/Check/Total/Leaves.antt =====
-- The parts of an expression's check that check no other expression (src/sema/sema.c) return.
use slop.Base.{Bool, ◌&&◌, not, arith, if◌then◌else◌, if_both, Option, none, some, refl}
use slop.Ast.{Syntax}
use slop.Support.Diag.{SrcPos}
use slop.Support.StrView.{StrView}
use slop.Sema.Types.{Ty, TyRef, deref, ty_field, ty_is_sized}
use slop.Sema.Types.Kind.{TyKind, is_kind, ty_is_integer}
use slop.Sema.Check.State.{Sema, Check, skip, error}
use slop.Sema.Check.Tree.{Typed}
use slop.Sema.Check.Coerce.{is_poison}
use slop.Sema.Check.Layout.{is_struct}
use slop.Sema.Check.Ops.{is_ptr}
use slop.Sema.Check.Exprs.{
  is_fn, or_poison, check_name, check_subscript, element_of, holder_of, field_of, check_sizeof,
}
use slop.Sema.Check.Ready.{Good, Runs, Any}
use slop.Sema.Check.Rules.{
  follow-Runs, Runs-Any, Runs-pure, Runs-bind, Runs-gets, Runs-if, Runs-option, Runs-error,
  Runs-core, Runs-Never, error-Runs, skip-Runs, core-Runs, poison-Runs, fails-Runs,
}
use slop.Sema.Check.Whole.{AllTyped}
use slop.Sema.Check.Total.Names.{find_sym-Runs}
use slop.Sema.Check.Total.Layout.{resolve_laid-Runs}
use slop.Sema.Check.Total.Coerce.{Coerced, Annotates, coerce-Runs}
use slop.Sema.Check.Total.Unary.{fails-Runs-Any, pointee-Runs}

pub or_poison-Runs : (o : Option TyRef) {s : Sema} → Good s → Runs Any Any s (or_poison o s)
or_poison-Runs none g = poison-Runs g
or_poison-Runs (some t) g = Runs-pure g tt tt

-- Only the report, or nothing.
pub report-Runs :
    (b : Bool) (pos : SrcPos) {s : Sema}
    → Good s
    → Runs Any Any s ((if b then error pos else skip) s)
report-Runs b pos g = Runs-if b _ _ (λ _. error-Runs pos g) (λ _. skip-Runs g)

pub check_name-Runs :
    (pos : SrcPos) (name : StrView) {s : Sema} → Good s → Runs Any Any s (check_name pos name s)
unfolding check_name
check_name-Runs pos name g = Runs-bind Any Any _ _ (find_sym-Runs name g) (λ q o m _ _.
    Runs-option o _ _ (λ _. Runs-Never (fails-Runs pos m.good))
      (λ sym _.
        Runs-if (is_fn sym.kind) _ _ (λ _. Runs-Never (fails-Runs pos m.good))
          (λ _. Runs-Any (λ a _. tt) (or_poison-Runs sym.type m.good))))

pub element_of-Runs :
    (pos : SrcPos) (t : TyRef) {s : Sema} → Good s → Runs Any Any s (element_of pos t s)
unfolding element_of
element_of-Runs pos t {s} g =
    let d : Ty = deref s.types t in
    Runs-gets _ _ (
      if_both (λ (m : Check TyRef). Runs Any Any s (m s)) (is_kind d.kind TyKind.array)
        (λ e. follow-Runs d.elem ((g.types.sound t).elem (ground (arith, e))) g)
        (λ e.
          if_both (λ (m : Check TyRef). Runs Any Any s (m s)) (is_ptr d)
            (λ e. pointee-Runs pos t g d (g.types.sound t) (ground (arith, e)))
            (λ e.
              Runs-if (is_poison d) _ _ (λ _. Runs-pure g tt tt) (λ _. fails-Runs-Any pos t g))))

pub holder_of-Runs : (t : TyRef) {s : Sema} → Good s → Runs Any Any s (holder_of t s)
unfolding holder_of
holder_of-Runs t {s} g =
    let d : Ty = deref s.types t in
    Runs-gets _ _ (
      if_both (λ (m : Check TyRef). Runs Any Any s (m s)) (is_ptr d)
        (λ e. follow-Runs d.elem ((g.types.sound t).elem (ground (arith, e))) g)
        (λ e. Runs-pure g tt tt))

pub field_of-Runs :
    (pos : SrcPos) (name : StrView) (t : TyRef) {s : Sema}
    → Good s
    → Runs Any Any s (field_of pos name t s)
unfolding field_of
field_of-Runs pos name t {s} g =
    let d : Ty = deref s.types t in
    Runs-gets _ _ (
      Runs-if (is_poison d) _ _ (λ _. Runs-pure g tt tt)
        (λ _.
          Runs-if (not (is_struct d)) _ _ (λ _. Runs-Never (fails-Runs pos g))
            (λ _.
              Runs-option (ty_field (some d) name) _ _ (λ _. Runs-Never (fails-Runs pos g))
                (λ f _. Runs-pure g tt tt))))

pub check_sizeof-Runs :
    (pos : SrcPos) (t : Syntax) {s : Sema} → Good s → Runs Any Any s (check_sizeof pos t s)
unfolding check_sizeof
check_sizeof-Runs pos t g = Runs-bind Any Any _ _ (resolve_laid-Runs t g) (λ q r m _ _.
    Runs-gets _ _ (
      Runs-bind Any Any _ _
        (report-Runs (not (ty_is_sized (deref q.types r)) && not (is_poison (deref q.types r))) pos
          m.good)
        (λ q1 u m1 _ _. Runs-Any (λ a _ _. tt) (core-Runs TyKind.u64 refl m1.good))))

pub check_subscript-Runs :
    (pos : SrcPos) (e : Typed) (t : TyRef) {s : Sema}
    → Good s
    → Runs (λ r. Coerced e (r, t)) (λ r. AllTyped e → AllTyped r) s (check_subscript pos (e, t) s)
unfolding check_subscript
check_subscript-Runs pos e t {s} g =
    let d : Ty = deref s.types t in
    Runs-gets _ _ (
      Runs-if (is_kind d.kind TyKind.untyped_int) _ _
        (λ _. Runs-core TyKind.i64 refl _ g (λ want.
          Runs-bind (Coerced e) (Annotates e) _ _ (coerce-Runs e want g)
            (λ q y m v w. Runs-pure m.good v w)))
        (λ _.
          Runs-if (not (ty_is_integer d.kind) && not (is_poison d)) _ _
            (λ _. Runs-error pos _ g (λ q m up. Runs-pure m.good ((λ n k. k), (λ k. k)) tt))
            (λ _. Runs-pure g ((λ n k. k), (λ k. k)) (λ k. k))))
