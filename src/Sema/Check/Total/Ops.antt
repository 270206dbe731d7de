-- ===== src/Sema/Check/Total/Ops.antt =====
-- The operators' rules (src/sema/sema.c) return, and keep what a conversion keeps of both operands.
use slop.Base.{ℕ, ◌≡◌, Bool, true, ◌||◌, ◌&&◌, not, ◌==◌, if◌then◌else◌, none, some, refl}
use slop.Lexer.Kind.{TokenKind}
use slop.Support.Diag.{SrcPos}
use slop.Sema.Types.{Ty, TyRef, deref}
use slop.Sema.Types.Kind.{TyKind, is_kind, ty_is_integer, ty_is_bool, ty_is_numeric}
use slop.Sema.Convert.{common_type, is_integerish}
use slop.Sema.Check.State.{Sema, ◌>>=◌, pure, core}
use slop.Sema.Check.Tree.{Typed, null, node}
use slop.Sema.Check.Coerce.{is_poison, coerce}
use slop.Sema.Check.Ops.{
  Pair, mismatch, coerce_both, is_ptr, is_null, check_logical, check_shift, is_comparable,
  check_compare, check_equality, check_common, check_switch, is_op, offset_type, check_binary_types,
  check_binary_op,
}
use slop.Sema.Check.Ready.{Good, Runs, Any, is_core}
use slop.Sema.Check.Rules.{
  Runs-map, Runs-pure, Runs-bind, Runs-gets, Runs-if, Runs-option, Runs-core, Runs-Never, core-Runs,
  poison-Runs, fails-Runs,
}
use slop.Sema.Check.Whole.{Deep, AllTyped}
use slop.Sema.Check.Total.Coerce.{Marked, Coerced, Annotates, coerce-Runs}

-- What is kept of both operands.
abbrev pub KeepsPair : Typed → Typed → Pair → Type 0
KeepsPair l r p = Coerced l (p.0, p.1.1) × Coerced r p.1

abbrev pub AnnotatesPair : Typed → Typed → Pair → Type 0
AnnotatesPair l r p = (AllTyped l → AllTyped p.0) × (AllTyped r → AllTyped p.1.0)

-- What a step that leaves an operand keeps of it.
abbrev untouched : (e : Typed) → (((n : ℕ) → Deep n e → Deep n e) × (Marked e → Marked e))
untouched e = ((λ n d. d), (λ h. h))

module _ (pos : SrcPos) (l r : Typed) where
  -- The operands as they were, and a type.
  plain-Runs :
      (t : TyRef) {s : Sema}
      → Good s
      → Runs (KeepsPair l r) (AnnotatesPair l r) s (some (s, (l, (r, t))))
  plain-Runs t g = Runs-pure g (untouched l, untouched r) ((λ h. h), (λ h. h))

  mismatch-Runs :
      {s : Sema} → Good s → Runs (KeepsPair l r) (AnnotatesPair l r) s (mismatch pos l r s)
  unfolding mismatch
  mismatch-Runs g =
      Runs-bind Any Any _ _ (Runs-Never (fails-Runs pos g))
        (λ q bad m _ _. Runs-map (λ a v. v) (λ a v w _. w) (plain-Runs bad m.good))

  truth-Runs :
      (k : TyKind) {s : Sema}
      → is_core k ≡ true
      → Good s
      → Runs (KeepsPair l r) (AnnotatesPair l r) s ((core k >>= λ t. pure (l, (r, t))) s)
  truth-Runs k c g = Runs-core k c _ g (λ t. plain-Runs t g)

  -- One operand is coerced.
  right-Runs :
      (want : TyRef) (k : TyKind) {s : Sema}
      → is_core k ≡ true
      → Good s
      → Runs
          (KeepsPair l r)
          (AnnotatesPair l r)
          s
          ((coerce r want >>= λ y. core k >>= λ t. pure (l, (y.0, t))) s)
  right-Runs want k c g =
      Runs-bind (Coerced r) (Annotates r) _ _ (coerce-Runs r want g) (λ q y m v w.
        Runs-core k c _ m.good (λ t. Runs-pure m.good (untouched l, v) (λ e. ((λ h. h), w e))))

  left-Runs :
      (want : TyRef) (k : TyKind) {s : Sema}
      → is_core k ≡ true
      → Good s
      → Runs
          (KeepsPair l r)
          (AnnotatesPair l r)
          s
          ((coerce l want >>= λ x. core k >>= λ t. pure (x.0, (r, t))) s)
  left-Runs want k c g =
      Runs-bind (Coerced l) (Annotates l) _ _ (coerce-Runs l want g) (λ q x m v w.
        Runs-core k c _ m.good (λ t. Runs-pure m.good (v, untouched r) (λ e. (w e, (λ h. h)))))

  right_as-Runs :
      (want a : TyRef) {s : Sema}
      → Good s
      → Runs (KeepsPair l r) (AnnotatesPair l r) s ((coerce r want >>= λ y. pure (l, (y.0, a))) s)
  right_as-Runs want a g =
      Runs-bind (Coerced r) (Annotates r) _ _ (coerce-Runs r want g)
        (λ q y m v w. Runs-pure m.good (untouched l, v) (λ e. ((λ h. h), w e)))

  left_as-Runs :
      (want a : TyRef) {s : Sema}
      → Good s
      → Runs (KeepsPair l r) (AnnotatesPair l r) s ((coerce l want >>= λ x. pure (x.0, (r, a))) s)
  left_as-Runs want a g =
      Runs-bind (Coerced l) (Annotates l) _ _ (coerce-Runs l want g)
        (λ q x m v w. Runs-pure m.good (v, untouched r) (λ e. (w e, (λ h. h))))

  coerce_both-Runs :
      (c result : TyRef) {s : Sema}
      → Good s
      → Runs (KeepsPair l r) (AnnotatesPair l r) s (coerce_both l r c result s)
  unfolding coerce_both
  coerce_both-Runs c result g =
      Runs-bind (Coerced l) (Annotates l) _ _ (coerce-Runs l c g) (λ q x m v w.
        Runs-bind (Coerced r) (Annotates r) _ _ (coerce-Runs r c m.good)
          (λ q1 y m1 v1 w1. Runs-pure m1.good (v, v1) (λ e1 e. (w e, w1 e1))))

  check_logical-Runs :
      (lt rt : Ty) {s : Sema}
      → Good s
      → Runs (KeepsPair l r) (AnnotatesPair l r) s (check_logical pos l r lt rt s)
  unfolding check_logical
  check_logical-Runs lt rt g =
      Runs-if (not (ty_is_bool lt.kind) && not (is_kind lt.kind TyKind.untyped_bool)) _ _
        (λ _. mismatch-Runs g)
        (λ _.
          Runs-if (not (ty_is_bool rt.kind) && not (is_kind rt.kind TyKind.untyped_bool)) _ _
            (λ _. mismatch-Runs g) (λ _. truth-Runs TyKind.untyped_bool refl g))

  check_shift-Runs :
      (a : TyRef) (lt rt : Ty) {s : Sema}
      → Good s
      → Runs (KeepsPair l r) (AnnotatesPair l r) s (check_shift pos l r a lt rt s)
  unfolding check_shift
  check_shift-Runs a lt rt g =
      Runs-if (not (is_integerish lt) || not (is_integerish rt)) _ _ (λ _. mismatch-Runs g)
        (λ _.
          Runs-if (is_kind rt.kind TyKind.untyped_int) _ _
            (λ _. Runs-core TyKind.i32 refl _ g (λ t. right_as-Runs t a g)) (λ _. plain-Runs a g))

  check_compare-Runs :
      (a b : TyRef) {s : Sema}
      → Good s
      → Runs (KeepsPair l r) (AnnotatesPair l r) s (check_compare pos l r a b s)
  unfolding check_compare
  check_compare-Runs a b {s} g = Runs-gets _ _ (
      Runs-option (common_type s.types a b) _ _ (λ _. mismatch-Runs g)
        (λ t _. Runs-gets _ _ (
          Runs-if (not (is_comparable (deref s.types t))) _ _ (λ _. mismatch-Runs g)
            (λ _.
              Runs-bind (KeepsPair l r) (AnnotatesPair l r) _ _ (coerce_both-Runs t t g)
                (λ q p m v w.
                  Runs-core TyKind.untyped_bool refl _ m.good (λ u. Runs-pure m.good v w))))))

  check_equality-Runs :
      (a b : TyRef) (lt rt : Ty) {s : Sema}
      → Good s
      → Runs (KeepsPair l r) (AnnotatesPair l r) s (check_equality pos l r a b lt rt s)
  unfolding check_equality
  check_equality-Runs a b lt rt g =
      Runs-if (is_ptr lt && is_null rt) _ _ (λ _. right-Runs a TyKind.untyped_bool refl g)
        (λ _.
          Runs-if (is_null lt && is_ptr rt) _ _ (λ _. left-Runs b TyKind.untyped_bool refl g)
            (λ _. check_compare-Runs a b g))

  check_common-Runs :
      (a b : TyRef) {s : Sema}
      → Good s
      → Runs (KeepsPair l r) (AnnotatesPair l r) s (check_common pos l r a b s)
  unfolding check_common
  check_common-Runs a b {s} g = Runs-gets _ _ (
      Runs-option (common_type s.types a b) _ _ (λ _. mismatch-Runs g)
        (λ t _. coerce_both-Runs t t g))

  bits-Runs :
      (a b : TyRef) (lt rt : Ty) {s : Sema}
      → Good s
      → Runs (KeepsPair l r) (AnnotatesPair l r) s (
          (if not (is_integerish lt) || not (is_integerish rt)
              then mismatch pos l r
              else check_common pos l r a b)
            s)
  bits-Runs a b lt rt g =
      Runs-if (not (is_integerish lt) || not (is_integerish rt)) _ _ (λ _. mismatch-Runs g)
        (λ _. check_common-Runs a b g)

  check_switch-Runs :
      (op : TokenKind) (a b : TyRef) (lt rt : Ty) {s : Sema}
      → Good s
      → Runs (KeepsPair l r) (AnnotatesPair l r) s (check_switch op pos l r a b lt rt s)
  unfolding check_switch
  check_switch-Runs TokenKind.amp_amp a b lt rt g = check_logical-Runs lt rt g
  check_switch-Runs TokenKind.pipe_pipe a b lt rt g = check_logical-Runs lt rt g
  check_switch-Runs TokenKind.shl a b lt rt g = check_shift-Runs a lt rt g
  check_switch-Runs TokenKind.shr a b lt rt g = check_shift-Runs a lt rt g
  check_switch-Runs TokenKind.eq_eq a b lt rt g = check_equality-Runs a b lt rt g
  check_switch-Runs TokenKind.bang_eq a b lt rt g = check_equality-Runs a b lt rt g
  check_switch-Runs TokenKind.lt a b lt rt g = check_compare-Runs a b g
  check_switch-Runs TokenKind.le a b lt rt g = check_compare-Runs a b g
  check_switch-Runs TokenKind.gt a b lt rt g = check_compare-Runs a b g
  check_switch-Runs TokenKind.ge a b lt rt g = check_compare-Runs a b g
  check_switch-Runs TokenKind.percent a b lt rt g = bits-Runs a b lt rt g
  check_switch-Runs TokenKind.amp a b lt rt g = bits-Runs a b lt rt g
  check_switch-Runs TokenKind.pipe a b lt rt g = bits-Runs a b lt rt g
  check_switch-Runs TokenKind.caret a b lt rt g = bits-Runs a b lt rt g
  check_switch-Runs _ a b lt rt g =
      Runs-if (not (ty_is_numeric lt.kind) || not (ty_is_numeric rt.kind)) _ _
        (λ _. mismatch-Runs g) (λ _. check_common-Runs a b g)

  offset_type-Runs : (t : Ty) (a : TyRef) {s : Sema} → Good s → Runs Any Any s (offset_type t a s)
  offset_type-Runs t a g =
      Runs-if (ty_is_integer t.kind) _ _ (λ _. Runs-pure g tt tt) (λ _. core-Runs TyKind.i64 refl g)

  pub check_binary_types-Runs :
      (op : TokenKind) (a b : TyRef) {s : Sema}
      → Good s
      → Runs (KeepsPair l r) (AnnotatesPair l r) s (check_binary_types op pos l r a b s)
  unfolding check_binary_types
  check_binary_types-Runs op a b {s} g =
      let lt : Ty = deref s.types a in
      let rt : Ty = deref s.types b in
      let adds : Bool = is_op op TokenKind.plus in
      let subs : Bool = is_op op TokenKind.minus in
      Runs-gets _ _ (
        Runs-gets _ _ (
          Runs-if (is_poison lt || is_poison rt) _ _
            (λ _.
              Runs-bind Any Any _ _ (poison-Runs g)
                (λ q bad m _ _. Runs-map (λ a v. v) (λ a v w _. w) (plain-Runs bad m.good)))
            (λ _.
              Runs-if ((adds || subs) && (is_ptr lt && is_integerish rt)) _ _
                (λ _.
                  Runs-bind Any Any _ _ (offset_type-Runs rt b g)
                    (λ q t m _ _. Runs-map (λ a v. v) (λ a v w _. w) (right_as-Runs t a m.good)))
                (λ _.
                  Runs-if (adds && (is_ptr rt && is_integerish lt)) _ _
                    (λ _.
                      Runs-bind Any Any _ _ (offset_type-Runs lt a g)
                        (λ q t m _ _. Runs-map (λ a v. v) (λ a v w _. w) (left_as-Runs t b m.good)))
                    (λ _.
                      Runs-if (subs && (is_ptr lt && is_ptr rt)) _ _
                        (λ _.
                          Runs-if (not (a == b)) _ _ (λ _. mismatch-Runs g)
                            (λ _. truth-Runs TyKind.i64 refl g))
                        (λ _. check_switch-Runs op a b lt rt g))))))

-- Operands that are checked: both have their types.
pub check_binary_op-Runs :
    (op : TokenKind) (pos : SrcPos) (l r : Typed) {s : Sema}
    → Good s
    → Marked l
    → Marked r
    → Runs (KeepsPair l r) (AnnotatesPair l r) s (check_binary_op op pos l r s)
unfolding check_binary_op
check_binary_op-Runs op pos null r g h k = elim h [ ]
check_binary_op-Runs op pos (node p t x) null g h k = elim k [ ]
check_binary_op-Runs op pos (node p none x) (node q u y) g h k = elim h [ ]
check_binary_op-Runs op pos (node p (some a) x) (node q none y) g h k = elim k [ ]
check_binary_op-Runs op pos (node p (some a) x) (node q (some b) y) g h k =
    check_binary_types-Runs pos _ _ op a b g
