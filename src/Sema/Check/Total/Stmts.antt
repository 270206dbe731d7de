-- ===== src/Sema/Check/Total/Stmts.antt =====
-- The parts of statements (src/sema/sema.c): their check returns, and where it reports nothing
-- every expression in them is annotated.
use slop.Base.{
  ℕ, zero, suc, sym, arith, if_both, ◌≡◌, refl, List, [], ◌∷◌, Bool, true, false, ◌||◌, ◌&&◌, not,
  ◌==◌, ◌⊎◌, inl, inr, if◌then◌else◌, Option, none, some, length,
}
use slop.Ast.{Expr, Syntax, MatchLabel}
use slop.Parser.Total.Exprs.{WholeExpr}
use slop.Parser.Total.Stmts.{WholeInit, WholeLabels}
use slop.Support.Diag.{SrcPos}
use slop.Support.StrView.{StrView}
use slop.Sema.Types.{Ty, TyRef, deref, ty_is_sized}
use slop.Sema.Types.Kind.{TyKind, is_kind, ty_is_integer, ty_is_bool}
use slop.Sema.Scope.{Sym}
use slop.Sema.Convert.{assignable}
use slop.Sema.Check.State.{Sema, Check, ◌>>=◌, pure, poison, sym_at}
use slop.Sema.Check.Tree.{Typed, null, node, Shape, height, enter, TypedLabel}
use slop.Sema.Check.Coerce.{can_assign, is_poison, pos_of}
use slop.Sema.Check.Exprs.{or_poison}
use slop.Sema.Check.Stmts.{
  check_condition, var_type, is_absent, check_init, check_label_type, member_of, label_sym,
  check_label_value, check_label, check_labels, check_scrutinee, wanted, check_return, check_jump,
  check_fits,
}
use slop.Sema.Check.Ready.{IsSome, Good, Runs, Any, Then, Current}
use slop.Sema.Check.Rules.{
  Runs-map, Runs-pure, Runs-bind, Runs-gets, Runs-if, Runs-option, Runs-follow, Runs-error,
  Runs-core, Runs-Never, Never, skip-Runs, poison-Runs, fails-Runs,
}
use slop.Sema.Check.Whole.{AllTyped, Deep, enter-Deep}
use slop.Sema.Check.Total.Names.{Runs-find_global, Runs-sym_at, Within}
use slop.Sema.Check.Total.Layout.{resolve_laid-Runs}
use slop.Sema.Check.Total.Coerce.{
  Marked, Coerced, Annotates, retype_untyped-Runs, coerce-Runs, pos_of-IsSome,
}
use slop.Sema.Check.Total.Leaves.{or_poison-Runs, report-Runs}
use slop.Sema.Check.Total.Check.{Entered, value_of-Runs, check_expr-Runs}

-- A child that may be left out.
abbrev pub Filled : Typed → Type 0
Filled null = Unit {0}
Filled (node p t x) = AllTyped (node p t x)

AllTyped→Filled : (e : Typed) → AllTyped e → Filled e
AllTyped→Filled null h = tt
AllTyped→Filled (node p t x) h = h

pub check_condition-Runs :
    (e : Expr) {s : Sema} → Good s → WholeExpr e → Runs Any AllTyped s (check_condition e s)
unfolding check_condition
check_condition-Runs e g h =
    Runs-bind (Entered e) (λ r. AllTyped r.0) _ _ (check_expr-Runs e none g h)
      (λ q r m v w.
        let d : Ty = deref q.types r.1 in
        Runs-gets _ _ (
          Runs-if (is_kind d.kind TyKind.untyped_bool) _ _
            (λ _. Runs-core TyKind.b8 refl _ m.good (λ t.
              Runs-bind (Coerced r.0) (Annotates r.0) _ _ (coerce-Runs r.0 t m.good)
                (λ q1 y m1 c k. Runs-pure m1.good tt (λ e1 e. k e1 (w e)))))
            (λ _.
              Runs-if (not (ty_is_bool d.kind) && not (is_poison d)) _ _
                (λ _.
                  Runs-follow (pos_of r.0) _ (pos_of-IsSome r.0 v.1)
                    (λ pos _. Runs-error pos _ m.good (λ q1 m1 up. Runs-pure m1.good tt tt)))
                (λ _. Runs-pure m.good tt w))))

pub var_type-Runs :
    (pos : SrcPos) (t : Syntax) {s : Sema} → Good s → Runs Any Any s (var_type pos t s)
unfolding var_type
var_type-Runs pos t g = Runs-bind Any Any _ _ (resolve_laid-Runs t g) (λ q r m _ _.
    let d : Ty = deref q.types r in
    Runs-gets _ _ (
      Runs-if (not (ty_is_sized d) && not (is_poison d)) _ _
        (λ _. Runs-Never (fails-Runs pos m.good)) (λ _. Runs-pure m.good tt (λ _. tt))))

-- What is there is whole.
present : (e : Expr) → not (is_absent e) ≡ true → WholeInit e → WholeExpr e
present Expr.missing a w = cc
present _ a (inl e) = cc
present _ a (inr w) = w

pub check_init-Runs :
    (pos : SrcPos) (is_mut : Bool) (e : Expr) (t : TyRef) {s : Sema}
    → Good s
    → WholeInit e
    → Runs Any Filled s (check_init pos is_mut e t s)
unfolding check_init
check_init-Runs pos is_mut e t g h =
    Runs-if (not (is_absent e)) _ _
      (λ a.
        Runs-bind (Entered e) (λ r. AllTyped r.0) _ _ (check_expr-Runs e (some t) g (present e a h))
          (λ q r m v w. Runs-pure m.good tt (λ e. AllTyped→Filled r.0 (w e))))
      (λ _.
        Runs-if (not is_mut) _ _ (λ _. Runs-error pos _ g (λ q m up. Runs-pure m.good tt tt))
          (λ _. Runs-pure g tt tt))

-- A label's value: a wildcard has none, and any other one has its type.
abbrev pub Labelled : TypedLabel → Type 0
Labelled l = (l.is_wildcard ≡ true) ⊎ Marked l.value

abbrev pub AllLabelled : List TypedLabel → Type 0
AllLabelled [] = Unit {0}
AllLabelled (l ∷ ls) = Labelled l × AllLabelled ls

check_label_type-Runs :
    (pos : SrcPos) (from : Option TyRef) (want : TyRef) {s : Sema}
    → Good s
    → IsSome from
    → Runs Any Any s (check_label_type pos from want s)
unfolding check_label_type can_assign
check_label_type-Runs pos from want {s} g h = Runs-gets _ _ (
    Runs-if (is_poison (deref s.types want)) _ _ (λ _. skip-Runs g)
      (λ _.
        Runs-follow from _ h
          (λ t _. Runs-gets _ _ (report-Runs (not (assignable s.types t want)) pos g))))

-- The symbol that a label names.
label_sym-Runs :
    (name : StrView) {s : Sema}
    → Good s
    → Runs (λ o. (m : Sym) → member_of o ≡ some m → IsSome m.type) Any s (label_sym name s)
label_sym-Runs name {s} g = Runs-find_global name _ g found
  where
    found :
        (o : Option ℕ)
        → Within (length s.syms) o
        → Runs
            (λ o. (m : Sym) → member_of o ≡ some m → IsSome m.type)
            Any
            s
            ((elim o as (λ (_ : Option ℕ). Check (Option Sym)) [
              | none ↦ pure none
              | some n ↦ do sym ← sym_at n; pure (some sym)
            ])
              s)
    found none h = Runs-pure g (λ m e. cc) tt
    found (some n) h = Runs-sym_at n _ g h (λ sym k. Runs-pure g k tt)

check_label_value-Runs :
    (pos : SrcPos) (want : TyRef) (e : Typed) {s : Sema}
    → Good s
    → (n : ℕ) → Deep n e
    → Runs Any Marked s (check_label_value pos want e s)
unfolding check_label_value
check_label_value-Runs pos want null g zero d = elim d [ ]
check_label_value-Runs pos want null g (suc n) d = elim d [ ]
check_label_value-Runs pos want (node at t (Shape.name v)) g n d =
    Runs-bind (λ o. (m : Sym) → member_of o ≡ some m → IsSome m.type) Any _ _ (label_sym-Runs v g)
      (λ q o m k _.
        Runs-option (member_of o) _ _
          (λ _. Runs-error pos _ m.good (λ q1 m1 up. Runs-pure m1.good tt tt))
          (λ sym e.
            Runs-bind Any Any _ _ (check_label_type-Runs pos sym.type want m.good (k sym e))
              (λ q1 u m1 _ _. Runs-pure m1.good tt (λ _ _. k sym e))))
check_label_value-Runs pos want (node at t x) {s} g n d =
    Runs-core TyKind.untyped_int refl _ g (λ u. Runs-gets _ _ (
      Runs-if (is_poison (deref s.types want)) _ _ (λ _. Runs-pure g tt tt)
        (λ _.
          Runs-map (λ a v. tt) (λ a v w. v.1 tt)
            (retype_untyped-Runs (node at (some u) x) want g))))

check_label-Runs :
    (want : TyRef) (l : MatchLabel) {s : Sema}
    → Good s
    → (l.is_wildcard ≡ true) ⊎ WholeExpr l.value
    → Runs Any Labelled s (check_label want l s)
unfolding check_label
check_label-Runs want l {s} g h = by_kind l.is_wildcard refl
  where
    value : WholeExpr l.value → Runs Any Marked s (check_label_value l.pos want (enter l.value) s)
    value w =
        check_label_value-Runs l.pos want (enter l.value) g (suc (height (enter l.value)))
          (enter-Deep l.value _ w (omega arith))

    by_kind :
        (b : Bool)
        → b ≡ l.is_wildcard
        → Runs Any Labelled s (
            (do
              v ← if b then pure (enter l.value) else check_label_value l.pos want (enter l.value)
              pure (record { pos = l.pos; is_wildcard = l.is_wildcard; value = v }))
              s)
    by_kind true e =
        Runs-bind Any Any _ _ (Runs-pure g tt tt)
          (λ q v m _ _. Runs-pure m.good tt (λ _. inl (sym e)))
    by_kind false e =
        Runs-bind Any Marked _ _ (value (elim h [ inl x ↦ cc (e, x) | inr w ↦ w ]))
          (λ q v m _ k. Runs-pure m.good tt (λ e. inr (k e)))

pub check_labels-Runs :
    (want : TyRef) (ls : List MatchLabel) {s : Sema}
    → Good s
    → WholeLabels ls
    → Runs Any AllLabelled s (check_labels want ls s)
unfolding check_labels
check_labels-Runs want [] g h = Runs-pure g tt tt
check_labels-Runs want (l ∷ ls) g h =
    Runs-bind Any Labelled _ _ (check_label-Runs want l g h.0) (λ q y m _ w.
      Runs-bind Any AllLabelled _ _ (check_labels-Runs want ls m.good h.1)
        (λ q1 ys m1 _ w1. Runs-pure m1.good tt (λ e1 e. (w e, w1 e1))))

pub check_scrutinee-Runs :
    (pos : SrcPos) (e : Expr) {s : Sema}
    → Good s
    → WholeExpr e
    → Runs Any (λ r. AllTyped r.0) s (check_scrutinee pos e s)
unfolding check_scrutinee
check_scrutinee-Runs pos e g h =
    Runs-bind (Entered e) (λ r. AllTyped r.0) _ _ (value_of-Runs e g h)
      (λ q r m v w.
        let d : Ty = deref q.types r.1 in
        Runs-gets _ _ (
          Runs-if
            (not (is_poison d) && (not (ty_is_integer d.kind) && not (is_kind d.kind TyKind.enum)))
            _ _
            (λ _.
              Runs-bind Any Never _ _ (fails-Runs pos m.good)
                (λ q1 bad m1 _ x. Runs-pure m1.good tt (λ e. absurd (x e))))
            (λ _. Runs-pure m.good tt w)))

wanted-Runs : {s : Sema} → Good s → Runs Any Any s (wanted s)
unfolding wanted
wanted-Runs {s} g = Runs-gets _ _ (found s.cur_fn g.fn)
  where
    found :
        (o : Option ℕ)
        → Current o (length s.syms)
        → Runs Any Any s (
            (elim o as (λ (_ : Option ℕ). Check TyRef) [
              | none ↦ poison
              | some n ↦ do sym ← sym_at n; or_poison sym.type
            ])
              s)
    found none h = poison-Runs g
    found (some n) h = Runs-sym_at n _ g h (λ sym k. or_poison-Runs sym.type g)

pub check_return-Runs :
    (pos : SrcPos) (e : Expr) {s : Sema}
    → Good s
    → WholeInit e
    → Runs Any Filled s (check_return pos e s)
unfolding check_return
check_return-Runs pos e {s} g h = Runs-bind Any Any _ _ (wanted-Runs g) (λ q want m _ _.
    let d : Ty = deref q.types want in
    Runs-gets _ _ (
      if_both (λ (k : Check Typed). Runs Any (Then s q Filled) q (k q)) (is_absent e)
        (λ _.
          Runs-bind Any Any _ _
            (report-Runs (not (is_kind d.kind TyKind.void) && not (is_poison d)) pos m.good)
            (λ q1 u m1 _ _. Runs-pure m1.good tt (λ _ _. tt)))
        (λ a.
          let w = present e (rw a refl) h in
          Runs-if (is_kind d.kind TyKind.void) _ _
            (λ _. Runs-error pos _ m.good (λ q1 m1 up.
              Runs-bind (Entered e) (λ r. AllTyped r.0) _ _ (value_of-Runs e m1.good w)
                (λ q2 r m2 _ _. Runs-pure m2.good tt (λ _. tt))))
            (λ _.
              Runs-bind (Entered e) (λ r. AllTyped r.0) _ _ (check_expr-Runs e (some want) m.good w)
                (λ q1 r m1 v k. Runs-pure m1.good tt (λ e1 _. AllTyped→Filled r.0 (k e1)))))))

pub check_jump-Runs : (pos : SrcPos) {s : Sema} → Good s → Runs Any Any s (check_jump pos s)
unfolding check_jump
check_jump-Runs pos {s} g = Runs-gets _ _ (report-Runs (s.loop_depth == 0) pos g)

pub check_fits-Runs :
    (pos : SrcPos) (r t : TyRef) {s : Sema} → Good s → Runs Any Any s (check_fits pos r t s)
unfolding check_fits can_assign
check_fits-Runs pos r t {s} g = Runs-gets _ _ (
    Runs-gets _ _ (
      Runs-if (is_poison (deref s.types r) || is_poison (deref s.types t)) _ _ (λ _. skip-Runs g)
        (λ _. Runs-gets _ _ (report-Runs (not (assignable s.types r t)) pos g))))
