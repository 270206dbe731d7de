-- ===== src/Sema/Check/Total/Coerce.antt =====
-- The conversions (src/sema/sema.c) return, keep the depth of the tree, and leave it annotated
-- where it was.
use slop.Base.{
  ℕ, zero, suc, ◌≡◌, refl, Bool, true, false, ◌||◌, ◌&&◌, not, ◌==◌, if◌then◌else◌, Option, none,
  some,
}
use slop.Lexer.Kind.{TokenKind, kind_eq}
use slop.Support.Diag.{SrcPos}
use slop.Sema.Types.{TyRef, deref, ty_int_fits}
use slop.Sema.Types.Kind.{TyKind, is_kind, ty_is_integer, ty_is_untyped}
use slop.Sema.Convert.{assignable, op_propagates}
use slop.Sema.Check.State.{Sema, Check, ◌>>=◌, pure, core, ptr_to, fails, follow}
use slop.Sema.Check.Tree.{Typed, null, node, Shape, sem_type}
use slop.Sema.Check.Coerce.{
  can_assign, retype_literal, retype_untyped, retype_shape, is_poison, coerce, is_char,
  default_type, settle, is_lvalue, is_pointer, lvalue_root, root_of, is_constant, pos_of,
  check_root, assign_target,
}
use slop.Sema.Check.Ready.{IsSome, Good, Runs, Any}
use slop.Sema.Check.Rules.{
  Runs-map, Runs-pure, Runs-bind, Runs-gets, Runs-if, Runs-option, Runs-follow, Runs-error,
  Runs-core, Runs-Never, error-Runs, note-Runs, skip-Runs, core-Runs, poison-Runs, fails-Runs,
}
use slop.Sema.Check.Whole.{Deep, DeepShape, AllTyped, AllShape}
use slop.Sema.Check.Total.Types.{ptr_to-Runs}
use slop.Sema.Check.Total.Names.{find_sym-Runs}

-- The root has its type.
abbrev pub Marked : Typed → Type 0
Marked e = IsSome (sem_type e)

retype_literal-Runs :
    (pos : SrcPos) (v : ℕ) (target : TyRef) {s : Sema}
    → Good s
    → Runs Any Any s (retype_literal pos v target s)
unfolding retype_literal
retype_literal-Runs pos v target {s} g = Runs-gets _ _ (
    Runs-if
      (ty_is_integer (deref s.types target).kind
        && not (ty_int_fits s.types (deref s.types target) v))
      _ _ (λ e. error-Runs pos g) (λ e. skip-Runs g))

-- What a retyping keeps of a tree.
abbrev pub Kept : Typed → Typed → Type 0
Kept e r = ((n : ℕ) → Deep n e → Deep n r) × (IsSome (sem_type e) → Marked r)

abbrev pub KeptShape : Shape → Shape → Type 0
KeptShape x y = (n : ℕ) → DeepShape n x → DeepShape n y

Deep-node :
    (n : ℕ) (p : SrcPos) (t u : Option TyRef) (x y : Shape)
    → KeptShape x y
    → Deep n (node p t x)
    → Deep n (node p u y)
Deep-node zero p t u x y k d = d
Deep-node (suc n) p t u x y k d = k n d

mutual
  unfolding retype_untyped

  pub retype_untyped-Runs :
      (e : Typed) (target : TyRef) {s : Sema}
      → Good s
      → Runs (Kept e) (λ r. AllTyped e → AllTyped r) s (retype_untyped e target s)
  retype_untyped-Runs null target g = Runs-pure g ((λ n d. d), (λ h. h)) (λ h. h)
  retype_untyped-Runs (node p t x) target g =
      Runs-bind (KeptShape x) (λ y. AllShape x → AllShape y) _ _ (retype_shape-Runs x p target g)
        (λ q y m k w.
          Runs-pure m.good ((λ n d. Deep-node n p t (some target) x y k d), (λ h. tt))
            (λ e h. (tt, w e h.1)))

  retype_shape-Runs :
      (x : Shape) (p : SrcPos) (target : TyRef) {s : Sema}
      → Good s
      → Runs (KeptShape x) (λ y. AllShape x → AllShape y) s (retype_shape x p target s)
  retype_shape-Runs (Shape.int_lit v) p target g =
      Runs-bind Any Any _ _ (retype_literal-Runs p v target g)
        (λ q u m _ _. Runs-pure m.good (λ n d. tt) (λ _ h. tt))
  retype_shape-Runs (Shape.char_lit v) p target g =
      Runs-bind Any Any _ _ (retype_literal-Runs p v target g)
        (λ q u m _ _. Runs-pure m.good (λ n d. tt) (λ _ h. tt))
  retype_shape-Runs (Shape.unary op x) p target g =
      Runs-if (kind_eq op TokenKind.minus || kind_eq op TokenKind.tilde) _ _
        (λ e.
          Runs-bind (Kept x) (λ y. AllTyped x → AllTyped y) _ _ (retype_untyped-Runs x target g)
            (λ q y m k w. Runs-pure m.good (λ n d. (d.0, k.0 n d.1)) (λ e h. w e h)))
        (λ e. Runs-pure g (λ n d. d) (λ h. h))
  retype_shape-Runs (Shape.binary op l r) p target g =
      Runs-if (op_propagates op) _ _
        (λ e.
          Runs-bind (Kept l) (λ y. AllTyped l → AllTyped y) _ _ (retype_untyped-Runs l target g)
            (λ q y m k w.
              Runs-bind (Kept r) (λ y. AllTyped r → AllTyped y) _ _
                (retype_untyped-Runs r target m.good)
                (λ q1 z m1 k1 w1.
                  Runs-pure m1.good (λ n d. (k.0 n d.0, k1.0 n d.1))
                    (λ e1 e h. (w e h.0, w1 e1 h.1)))))
        (λ e.
          Runs-if (kind_eq op TokenKind.shl || kind_eq op TokenKind.shr) _ _
            (λ e.
              Runs-bind (Kept l) (λ y. AllTyped l → AllTyped y) _ _ (retype_untyped-Runs l target g)
                (λ q y m k w. Runs-pure m.good (λ n d. (k.0 n d.0, d.1)) (λ e h. (w e h.0, h.1))))
            (λ e. Runs-pure g (λ n d. d) (λ h. h)))
  retype_shape-Runs (Shape.float_lit v) p target g = Runs-pure g (λ n d. d) (λ h. h)
  retype_shape-Runs (Shape.string_lit v) p target g = Runs-pure g (λ n d. d) (λ h. h)
  retype_shape-Runs (Shape.bool_lit v) p target g = Runs-pure g (λ n d. d) (λ h. h)
  retype_shape-Runs Shape.null_lit p target g = Runs-pure g (λ n d. d) (λ h. h)
  retype_shape-Runs (Shape.name v) p target g = Runs-pure g (λ n d. d) (λ h. h)
  retype_shape-Runs (Shape.call c es) p target g = Runs-pure g (λ n d. d) (λ h. h)
  retype_shape-Runs (Shape.index b i) p target g = Runs-pure g (λ n d. d) (λ h. h)
  retype_shape-Runs (Shape.field b v) p target g = Runs-pure g (λ n d. d) (λ h. h)
  retype_shape-Runs (Shape.cast x t) p target g = Runs-pure g (λ n d. d) (λ h. h)
  retype_shape-Runs (Shape.size_of t) p target g = Runs-pure g (λ n d. d) (λ h. h)
  retype_shape-Runs (Shape.conv x) p target g = Runs-pure g (λ n d. d) (λ h. h)

-- What a conversion keeps: the slot is as deep, annotated, and so below where it was.
abbrev pub Coerced : Typed → Typed × TyRef → Type 0
Coerced e r = ((n : ℕ) → Deep n e → Deep n r.0) × (Marked e → Marked r.0)

abbrev pub Annotates : Typed → Typed × TyRef → Type 0
Annotates e r = AllTyped e → AllTyped r.0

same-Coerced : (e : Typed) (t : TyRef) → Coerced e (e, t)
same-Coerced e t = ((λ n d. d), (λ h. h))

conv-Deep :
    (n : ℕ) (p : SrcPos) (t u : Option TyRef) (x : Shape) (y : Typed)
    → Deep n (node p t x)
    → Deep n (node p u (Shape.conv y))
conv-Deep zero p t u x y d = d
conv-Deep (suc n) p t u x y d = tt

pub coerce-Runs :
    (e : Typed) (target : TyRef) {s : Sema}
    → Good s
    → Runs (Coerced e) (Annotates e) s (coerce e target s)
unfolding coerce can_assign
coerce-Runs null target g = Runs-pure g (same-Coerced null target) (λ h. h)
coerce-Runs (node p none x) target g = Runs-pure g (same-Coerced (node p none x) target) (λ h. h)
coerce-Runs (node p (some from) x) target {s} g = Runs-gets _ _ (
    Runs-gets _ _ (
      Runs-if
        (from == target || (is_poison (deref s.types from) || is_poison (deref s.types target))) _ _
        (λ e. Runs-pure g (same-Coerced (node p (some from) x) target) (λ h. h))
        (λ e. Runs-gets _ _ (
          Runs-if (not (assignable s.types from target)) _ _
            (λ e. Runs-error p _ g (λ q m up.
              Runs-bind Any Any _ _ (poison-Runs m.good) (λ q1 bad m1 _ _.
                Runs-pure m1.good
                  ((λ n d. Deep-node n p (some from) (some bad) x x (λ k h. h) d), (λ h. tt))
                  (λ _. tt))))
            (λ e.
              Runs-if (ty_is_untyped (deref s.types from).kind) _ _
                (λ e.
                  Runs-bind (Kept (node p (some from) x))
                    (λ r. AllTyped (node p (some from) x) → AllTyped r) _ _
                    (retype_untyped-Runs (node p (some from) x) target g)
                    (λ q y m k w. Runs-pure m.good k w))
                (λ e.
                  Runs-pure g
                    (
                      (λ n d. conv-Deep n p (some from) (some target) x (node p (some from) x) d),
                      (λ h. tt),
                    )
                    (λ h. (tt, h))))))))

default_type-Runs : (e : Typed) {s : Sema} → Good s → Marked e → Runs Any Any s (default_type e s)
unfolding default_type
default_type-Runs e {s} g h =
    Runs-follow (sem_type e) _ h (λ t _. Runs-gets _ _ (by_kind t (deref s.types t).kind))
  where
    by_kind :
        (t : TyRef) (k : TyKind)
        → Runs Any Any s (
            (elim k as (λ (_ : TyKind). Check TyRef) [
              | TyKind.untyped_int ↦ if is_char e then core TyKind.u8 else core TyKind.i32
              | TyKind.untyped_float ↦ core TyKind.f64
              | TyKind.untyped_bool ↦ core TyKind.b8
              | TyKind.null ↦ do v ← core TyKind.void; ptr_to v
              | _ ↦ pure t
            ])
              s)
    by_kind t TyKind.untyped_int =
        Runs-if (is_char e) _ _ (λ _. core-Runs TyKind.u8 refl g) (λ _. core-Runs TyKind.i32 refl g)
    by_kind t TyKind.untyped_float = core-Runs TyKind.f64 refl g
    by_kind t TyKind.untyped_bool = core-Runs TyKind.b8 refl g
    by_kind t TyKind.null = Runs-core TyKind.void refl _ g (λ v. ptr_to-Runs v g)
    by_kind t _ = Runs-pure g tt tt

pub settle-Runs :
    (e : Typed) (t : TyRef) {s : Sema}
    → Good s
    → Marked e
    → Runs (Coerced e) (Annotates e) s (settle (e, t) s)
unfolding settle
settle-Runs e t {s} g h = Runs-gets _ _ (
    Runs-if (ty_is_untyped (deref s.types t).kind) _ _
      (λ _.
        Runs-bind Any Any _ _ (default_type-Runs e g h)
          (λ q want m _ _. Runs-map (λ a v. v) (λ a v w _. w) (coerce-Runs e want m.good)))
      (λ _. Runs-pure g (same-Coerced e t) (λ k. k)))

-- The walk to the variable goes down a tree without a missing child.
mutual
  unfolding lvalue_root is_pointer

  lvalue_root-Runs :
      (n : ℕ) (e : Typed) {s : Sema} → Good s → Deep n e → Runs Any Any s (lvalue_root e s)
  lvalue_root-Runs zero e g d = elim d [ ]
  lvalue_root-Runs (suc n) null g d = elim d [ ]
  lvalue_root-Runs (suc n) (node p t x) g d = root_of-Runs n x g d

  root_of-Runs :
      (n : ℕ) (x : Shape) {s : Sema} → Good s → DeepShape n x → Runs Any Any s (root_of x s)
  root_of-Runs n (Shape.name v) g d = find_sym-Runs v g
  root_of-Runs n (Shape.index b i) {s} g d = Runs-gets _ _ (
      Runs-if
        (elim (sem_type b) [ none ↦ false | some t ↦ is_kind (deref s.types t).kind TyKind.ptr ]) _
        _ (λ _. Runs-pure g tt tt) (λ _. lvalue_root-Runs n b g d.0))
  root_of-Runs n (Shape.field b v) {s} g d = Runs-gets _ _ (
      Runs-if
        (elim (sem_type b) [ none ↦ false | some t ↦ is_kind (deref s.types t).kind TyKind.ptr ]) _
        _ (λ _. Runs-pure g tt tt) (λ _. lvalue_root-Runs n b g d))
  root_of-Runs n (Shape.int_lit v) g d = Runs-pure g tt tt
  root_of-Runs n (Shape.char_lit v) g d = Runs-pure g tt tt
  root_of-Runs n (Shape.float_lit v) g d = Runs-pure g tt tt
  root_of-Runs n (Shape.string_lit v) g d = Runs-pure g tt tt
  root_of-Runs n (Shape.bool_lit v) g d = Runs-pure g tt tt
  root_of-Runs n Shape.null_lit g d = Runs-pure g tt tt
  root_of-Runs n (Shape.unary op x) g d = Runs-pure g tt tt
  root_of-Runs n (Shape.binary op l r) g d = Runs-pure g tt tt
  root_of-Runs n (Shape.call c es) g d = Runs-pure g tt tt
  root_of-Runs n (Shape.cast x t) g d = Runs-pure g tt tt
  root_of-Runs n (Shape.size_of t) g d = Runs-pure g tt tt
  root_of-Runs n (Shape.conv x) g d = Runs-pure g tt tt

check_root-Runs :
    (n : ℕ) (pos : SrcPos) (e : Typed) (t : TyRef) {s : Sema}
    → Good s
    → Deep n e
    → Runs Any Any s (check_root pos e t s)
unfolding check_root
check_root-Runs n pos e t g d = Runs-bind Any Any _ _ (lvalue_root-Runs n e g d) (λ q o m _ _.
    Runs-option o _ _ (λ _. Runs-pure m.good tt (λ _. tt))
      (λ sym _.
        Runs-if (is_constant sym.kind) _ _ (λ _. Runs-Never (fails-Runs pos m.good))
          (λ _.
            Runs-bind Any Any _ _
              (Runs-if (not sym.is_mut) _ _
                (λ _. Runs-error pos _ m.good (λ q1 m1 up. note-Runs sym.pos m1.good))
                (λ _. skip-Runs m.good))
              (λ q1 u m1 _ _. Runs-pure m1.good tt (λ _ _. tt)))))

pub pos_of-IsSome : (e : Typed) → Marked e → IsSome (pos_of e)
pos_of-IsSome null h = h
pos_of-IsSome (node p t x) h = tt

-- The target stays as it is.
abbrev pub Same : Typed → Typed × TyRef → Type 0
Same e r = r.0 ≡ e

pub assign_target-Runs :
    (n : ℕ) (e : Typed) (t : TyRef) {s : Sema}
    → Good s
    → Deep n e
    → Marked e
    → Runs (Same e) Any s (assign_target (e, t) s)
unfolding assign_target
assign_target-Runs n e t {s} g d h = Runs-gets _ _ (
    Runs-if (is_poison (deref s.types t)) _ _ (λ _. Runs-pure g refl tt)
      (λ _. Runs-if (not (is_lvalue e)) _ _ failing (λ _.
        Runs-if (is_kind (deref s.types t).kind TyKind.array) _ _ failing (λ _.
          Runs-follow (pos_of e) _ (pos_of-IsSome e h) (λ pos _.
            Runs-bind Any Any _ _ (check_root-Runs n pos e t g d)
              (λ q r m _ _. Runs-pure m.good refl (λ _. tt)))))))
  where
    failing :
        {b : Bool}
        → b ≡ true
        → Runs (Same e) Any s ((do pos ← follow (pos_of e); bad ← fails pos; pure (e, bad)) s)
    failing _ = Runs-follow (pos_of e) _ (pos_of-IsSome e h) (λ pos _.
        Runs-bind Any Any _ _ (Runs-Never (fails-Runs pos g))
          (λ q bad m _ _. Runs-pure m.good refl (λ _. tt)))
