-- ===== src/Sema/Check/Total/Exprs.antt =====
-- Expressions (src/sema/sema.c): their check returns, and leaves the tree as deep as it was and,
-- where it reports nothing, annotated throughout.
use slop.Base.{
  ℕ, ◌≡◌, refl, sym, List, [], ◌∷◌, Bool, true, ◌&&◌, not, if◌then◌else◌, Option, none, some,
}
use mathlib.Core.Path.{subst}
use slop.Ast.{Syntax}
use slop.Lexer.Kind.{TokenKind}
use slop.Parser.Exprs.{is_prefix}
use slop.Support.Diag.{SrcPos}
use slop.Support.StrView.{StrView}
use slop.Sema.Types.{Ty, TyRef, deref, ty_is_sized}
use slop.Sema.Types.Kind.{TyKind, ty_is_untyped}
use slop.Sema.Scope.{Sym}
use slop.Sema.Convert.{assignable, cast_allowed}
use slop.Sema.Check.State.{Sema, Check, ◌>>=◌, pure, fails}
use slop.Sema.Check.Tree.{Typed, null, node, Shape, TypedArgs}
use slop.Sema.Check.Coerce.{can_assign, is_poison, pos_of}
use slop.Sema.Check.Exprs.{
  Checker, is_fn, check_value, check_unary, promoted, promote_vararg, check_param, check_args,
  args_len, wrong_count, call_of, no_call, call_named, check_call, cast_checked, check_cast,
  check_index, check_field,
}
use slop.Sema.Check.Ready.{is_core, Good, Runs, Any}
use slop.Sema.Check.Rules.{
  Runs-map, Runs-pure, Runs-bind, Runs-gets, Runs-if, Runs-option, Runs-follow, Runs-error,
  Runs-core, Runs-Never, Never, fails-Runs,
}
use slop.Sema.Check.Whole.{
  Deep, DeepShape, DeepArgs, AllTyped, AllShape, AllArgs, Below, BelowShape, BelowArgs,
  AllTyped→Below,
}
use slop.Sema.Check.Total.Names.{find_sym-Runs}
use slop.Sema.Check.Total.Layout.{resolve_laid-Runs, lay_out_struct-Runs}
use slop.Sema.Check.Total.Coerce.{
  Marked, Coerced, Annotates, Kept, retype_untyped-Runs, coerce-Runs, settle-Runs, pos_of-IsSome,
}
use slop.Sema.Check.Total.Unary.{
  check_negate-Runs, check_tilde-Runs, check_bang-Runs, check_star-Runs, check_address-Runs,
}
use slop.Sema.Check.Total.Leaves.{
  or_poison-Runs, report-Runs, element_of-Runs, holder_of-Runs, field_of-Runs, check_subscript-Runs,
}

-- A tree less than `n` deep whose root has its type.
abbrev pub GoodTree : ℕ → Typed × TyRef → Type 0
GoodTree n r = Deep n r.0 × Marked r.0

-- Where nothing is reported the tree is annotated throughout.
abbrev pub Fills : Typed → Typed × TyRef → Type 0
Fills e r = Below e → AllTyped r.0

-- A checker of the trees that are less than `n` deep.
abbrev pub Checks : ℕ → Checker → Type 0
Checks n check =
    (e : Typed) (expected : Option TyRef) (s : Sema)
    → Good s
    → Deep n e
    → Runs (GoodTree n) (Fills e) s (check e expected s)

promoted_core : (k l : TyKind) → promoted k ≡ some l → is_core l ≡ true
promoted_core TyKind.f32 TyKind.f64 e = refl
promoted_core TyKind.i8 TyKind.i32 e = refl
promoted_core TyKind.u8 TyKind.u32 e = refl
promoted_core _ TyKind.ptr e = cc
promoted_core _ TyKind.array e = cc
promoted_core _ TyKind.struct e = cc
promoted_core _ TyKind.enum e = cc
promoted_core _ _ e = refl

module _ (n : ℕ) (check : Checker) (h : Checks n check) where
  pub check_value-Runs :
      (e : Typed) {s : Sema}
      → Good s
      → Deep n e
      → Runs (GoodTree n) (Fills e) s (check_value check e s)
  unfolding check_value
  check_value-Runs e {s} g d = Runs-bind (GoodTree n) (Fills e) _ _ (h e none s g d) (λ q r m v w.
      Runs-map (λ a c. (c.0 n v.0, c.1 v.1)) (λ a c k e b. k (w e b))
        (settle-Runs r.0 r.1 m.good v.1))

  -- A checked operand under a rule for its type.
  plain-Runs :
      (x : Typed) (rule : TyRef → Check TyRef) {s : Sema}
      → Good s
      → Deep n x
      → ((t : TyRef) (q : Sema) → Good q → Runs Any Any q (rule t q))
      → Runs (λ r. Deep n r.0) (Fills x) s ((do r ← check x none; t ← rule r.1; pure (r.0, t)) s)
  plain-Runs x rule {s} g d k = Runs-bind (GoodTree n) (Fills x) _ _ (h x none s g d) (λ q r m v w.
      Runs-bind Any Any _ _ (k r.1 q m.good)
        (λ q1 t m1 _ _. Runs-pure m1.good v.0 (λ _ e b. w e b)))

  pub check_unary-Runs :
      (pos : SrcPos) (op : TokenKind) (x : Typed) {s : Sema}
      → Good s
      → is_prefix op ≡ true
      → Deep n x
      → Runs (λ r. Deep n r.0) (Fills x) s (check_unary check pos op x s)
  unfolding check_unary
  check_unary-Runs pos TokenKind.minus x g k d =
      plain-Runs x _ g d (λ t q gq. check_negate-Runs pos t gq)
  check_unary-Runs pos TokenKind.tilde x g k d =
      plain-Runs x _ g d (λ t q gq. check_tilde-Runs pos t gq)
  check_unary-Runs pos TokenKind.bang x g k d =
      plain-Runs x _ g d (λ t q gq. check_bang-Runs pos t gq)
  check_unary-Runs pos TokenKind.star x g k d =
      Runs-bind (GoodTree n) (Fills x) _ _ (check_value-Runs x g d) (λ q r m v w.
        Runs-bind Any Any _ _ (check_star-Runs pos r.1 m.good)
          (λ q1 t m1 _ _. Runs-pure m1.good v.0 (λ _ e b. w e b)))
  check_unary-Runs pos TokenKind.amp x g k d =
      Runs-bind (GoodTree n) (Fills x) _ _ (check_value-Runs x g d) (λ q r m v w.
        Runs-bind Any Any _ _ (check_address-Runs pos r.1 m.good r.0)
          (λ q1 t m1 _ _. Runs-pure m1.good v.0 (λ _ e b. w e b)))
  check_unary-Runs pos _ x g k d = cc

  promote_vararg-Runs :
      (x : Typed) {s : Sema}
      → Good s
      → Deep n x
      → Runs (Deep n) (λ y. Below x → AllTyped y) s (promote_vararg check x s)
  unfolding promote_vararg
  promote_vararg-Runs x g d =
      Runs-bind (GoodTree n) (Fills x) _ _ (check_value-Runs x g d) (λ q r m v w. Runs-gets _ _ (
        Runs-option (promoted (deref q.types r.1).kind) _ _ (λ _. Runs-pure m.good v.0 w)
          (λ k e. Runs-core k (promoted_core _ k e) _ m.good (λ t.
            Runs-bind (Coerced r.0) (Annotates r.0) _ _ (coerce-Runs r.0 t m.good)
              (λ q1 y m1 c k. Runs-pure m1.good (c.0 n v.0) (λ e1 e b. k e1 (w e b)))))))

  check_param-Runs :
      (x : Typed) (want : TyRef) {s : Sema}
      → Good s
      → Deep n x
      → Runs (Deep n) (λ y. Below x → AllTyped y) s (check_param check x want s)
  unfolding check_param can_assign
  check_param-Runs x want {s} g d =
      Runs-bind (GoodTree n) (Fills x) _ _ (h x none s g d) (λ q r m v w. Runs-gets _ _ (
        Runs-gets _ _ (
          Runs-if (not (is_poison (deref q.types r.1)) && not (assignable q.types r.1 want)) _ _
            (λ _.
              Runs-follow (pos_of r.0) _ (pos_of-IsSome r.0 v.1)
                (λ pos _. Runs-error pos _ m.good (λ q1 m1 up. Runs-pure m1.good v.0 tt)))
            (λ _.
              Runs-bind (Coerced r.0) (Annotates r.0) _ _ (coerce-Runs r.0 want m.good)
                (λ q1 y m1 c k. Runs-pure m1.good (c.0 n v.0) (λ e1 e b. k e1 (w e b)))))))

  check_args-Runs :
      (ps : List TyRef) (es : TypedArgs) {s : Sema}
      → Good s
      → DeepArgs n es
      → Runs (DeepArgs n) (λ ys. BelowArgs es → AllArgs ys) s (check_args check ps es s)
  unfolding check_args
  check_args-Runs ps TypedArgs.no_args g d = Runs-pure g tt (λ _. tt)
  check_args-Runs [] (TypedArgs.arg x es) g d =
      Runs-bind (Deep n) (λ y. Below x → AllTyped y) _ _ (promote_vararg-Runs x g d.0)
        (λ q y m v w.
          Runs-bind (DeepArgs n) (λ ys. BelowArgs es → AllArgs ys) _ _
            (check_args-Runs [] es m.good d.1)
            (λ q1 ys m1 v1 w1. Runs-pure m1.good (v, v1) (λ e1 e b. (w e b.0, w1 e1 b.1))))
  check_args-Runs (p ∷ ps) (TypedArgs.arg x es) g d =
      Runs-bind (Deep n) (λ y. Below x → AllTyped y) _ _ (check_param-Runs x p g d.0)
        (λ q y m v w.
          Runs-bind (DeepArgs n) (λ ys. BelowArgs es → AllArgs ys) _ _
            (check_args-Runs ps es m.good d.1)
            (λ q1 ys m1 v1 w1. Runs-pure m1.good (v, v1) (λ e1 e b. (w e b.0, w1 e1 b.1))))

  no_call-Runs :
      (pos : SrcPos) (es : TypedArgs) {s : Sema}
      → Good s
      → DeepArgs n es
      → Runs (λ r. DeepArgs n r.0) (λ r. BelowArgs es → AllArgs r.0) s (no_call pos es s)
  unfolding no_call
  no_call-Runs pos es g d =
      Runs-bind Any Never _ _ (fails-Runs pos g)
        (λ q bad m _ w. Runs-pure m.good d (λ e. absurd (w e)))

  call_of-Runs :
      (pos : SrcPos) (sym : Sym) (es : TypedArgs) {s : Sema}
      → Good s
      → DeepArgs n es
      → Runs (λ r. DeepArgs n r.0) (λ r. BelowArgs es → AllArgs r.0) s (call_of check pos sym es s)
  unfolding call_of
  call_of-Runs pos sym es g d =
      Runs-bind Any Any _ _ (report-Runs (wrong_count sym (args_len es)) pos g) (λ q u m _ _.
        Runs-bind (DeepArgs n) (λ ys. BelowArgs es → AllArgs ys) _ _
          (check_args-Runs sym.params es m.good d)
          (λ q1 ys m1 v w.
            Runs-bind Any Any _ _ (or_poison-Runs sym.type m1.good)
              (λ q2 t m2 _ _. Runs-pure m2.good v (λ e2 e1 e b. w e1 b))))

  call_named-Runs :
      (pos at : SrcPos) (name : StrView) (es : TypedArgs) {s : Sema}
      → Good s
      → DeepArgs n es
      → Runs
          (λ r. DeepArgs n r.0)
          (λ r. BelowArgs es → AllArgs r.0)
          s
          (call_named check pos at name es s)
  unfolding call_named
  call_named-Runs pos at name es g d = Runs-bind Any Any _ _ (find_sym-Runs name g) (λ q o m _ _.
      Runs-map (λ a v. v) (λ a v w _. w)
        (Runs-option o _ _ (λ _. no_call-Runs at es m.good d)
          (λ sym _.
            Runs-if (not (is_fn sym.kind)) _ _ (λ _. no_call-Runs at es m.good d)
              (λ _. call_of-Runs pos sym es m.good d))))

  pub check_call-Runs :
      (pos : SrcPos) (c : Typed) (es : TypedArgs) {s : Sema}
      → Good s
      → DeepArgs n es
      → Runs (λ r. DeepArgs n r.0) (λ r. BelowArgs es → AllArgs r.0) s (check_call check pos c es s)
  unfolding check_call
  check_call-Runs pos null es g d = no_call-Runs pos es g d
  check_call-Runs pos (node at t (Shape.name v)) es g d = call_named-Runs pos at v es g d
  check_call-Runs pos (node at t _) es g d = no_call-Runs pos es g d

  cast_checked-Runs :
      (pos : SrcPos) (target : TyRef) (v : Typed × TyRef) {s : Sema}
      → Good s
      → Runs (λ (r : Typed × TyRef). r.0 ≡ v.0) Any s (cast_checked check pos target v s)
  unfolding cast_checked
  cast_checked-Runs pos target v {s} g =
      let want : Ty = deref s.types target in
      Runs-gets _ _ (
        Runs-if (not (ty_is_sized want) && not (is_poison want)) _ _ failing (λ _.
          Runs-gets _ _ (
            Runs-if (not (cast_allowed s.types v.1 target)) _ _ failing
              (λ _. Runs-pure g refl tt))))
    where
      failing :
          {b : Bool}
          → b ≡ true
          → Runs (λ (r : Typed × TyRef). r.0 ≡ v.0) Any s ((do bad ← fails pos; pure (v.0, bad)) s)
      failing _ =
          Runs-bind Any Any _ _ (Runs-Never (fails-Runs pos g))
            (λ q bad m _ _. Runs-pure m.good refl (λ _. tt))

  -- The operand of a cast, checked once more where it is untyped.
  again-Runs :
      (x : Typed) (r : Typed × TyRef) (b : Bool) {s : Sema}
      → Good s
      → GoodTree n r
      → Runs
          (GoodTree n)
          (λ v. AllTyped r.0 → AllTyped v.0)
          s
          ((if b then check_value check r.0 else pure r) s)
  again-Runs x r b g d =
      Runs-if b _ _
        (λ _.
          Runs-map (λ a v. v) (λ a v w k. w (AllTyped→Below r.0 k)) (check_value-Runs r.0 g d.0))
        (λ _. Runs-pure g d (λ k. k))

  pub check_cast-Runs :
      (pos : SrcPos) (x : Typed) (to : Syntax) {s : Sema}
      → Good s
      → Deep n x
      → Runs (λ r. Deep n r.0) (Fills x) s (check_cast check pos x to s)
  unfolding check_cast can_assign
  check_cast-Runs pos x to {s} g d =
      Runs-bind Any Any _ _ (resolve_laid-Runs to g) (λ q target m _ _.
        Runs-bind (GoodTree n) (Fills x) _ _ (h x none q m.good d) (λ q1 r m1 v w.
          let untyped : Bool = ty_is_untyped (deref q1.types r.1).kind in
          Runs-gets _ _ (
            Runs-gets _ _ (
              Runs-if (untyped && assignable q1.types r.1 target) _ _
                (λ _.
                  Runs-bind (Kept r.0) (λ y. AllTyped r.0 → AllTyped y) _ _
                    (retype_untyped-Runs r.0 target m1.good)
                    (λ q2 y m2 k k1. Runs-pure m2.good (k.0 n v.0) (λ e2 e1 e b. k1 e2 (w e1 b))))
                (λ _.
                  Runs-bind (GoodTree n) (λ v. AllTyped r.0 → AllTyped v.0) _ _
                    (again-Runs x r untyped m1.good v)
                    (λ q2 a m2 v2 k2.
                      Runs-map (λ c same. subst (Deep n) (sym same) v2.0)
                        (λ c same _ e2 e1 e b. subst AllTyped (sym same) (k2 e2 (w e1 b)))
                        (cast_checked-Runs pos target a m2.good)))))))

  pub check_index-Runs :
      (pos : SrcPos) (b i : Typed) {s : Sema}
      → Good s
      → Deep n b
      → Deep n i
      → Runs
          (λ r. DeepShape n r.0)
          (λ r. BelowShape (Shape.index b i) → AllShape r.0)
          s
          (check_index check pos b i s)
  unfolding check_index
  check_index-Runs pos b i g d1 d2 =
      Runs-bind (GoodTree n) (Fills b) _ _ (check_value-Runs b g d1) (λ q x m v w.
        Runs-bind (GoodTree n) (Fills i) _ _ (h i none q m.good d2) (λ q1 y m1 v1 w1.
          Runs-bind (λ r. Coerced y.0 (r, y.1)) (λ r. AllTyped y.0 → AllTyped r) _ _
            (check_subscript-Runs pos y.0 y.1 m1.good)
            (λ q2 j m2 v2 w2.
              Runs-bind Any Any _ _ (element_of-Runs pos x.1 m2.good) (λ q3 t m3 _ _.
                Runs-pure m3.good (v.0, v2.0 n v1.0)
                  (λ _ e2 e1 e k. (w e k.0, w2 e2 (w1 e1 k.1)))))))

  pub check_field-Runs :
      (pos : SrcPos) (b : Typed) (name : StrView) {s : Sema}
      → Good s
      → Deep n b
      → Runs (λ r. DeepShape n r.0) (λ r. Below b → AllShape r.0) s (check_field check pos b name s)
  unfolding check_field
  check_field-Runs pos b name g d =
      Runs-bind (GoodTree n) (Fills b) _ _ (check_value-Runs b g d) (λ q x m v w.
        Runs-bind Any Any _ _ (holder_of-Runs x.1 m.good) (λ q1 t m1 _ _.
          Runs-bind Any Any _ _ (lay_out_struct-Runs t m1.good) (λ q2 u m2 _ _.
            Runs-bind Any Any _ _ (field_of-Runs pos name t m2.good)
              (λ q3 f m3 _ _. Runs-pure m3.good v.0 (λ _ _ _ e k. w e k)))))
