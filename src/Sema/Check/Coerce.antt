-- ===== src/Sema/Check/Coerce.antt =====
-- Conversions on the tree (src/sema/sema.c): the retyping of untyped expressions, the insertion of
-- conversion nodes, the default types, and the variable behind an assignment's target. A result
-- with a tree is what the slot holds afterwards.
use slop.Base.{ℕ, Bool, true, false, ◌||◌, ◌&&◌, not, ◌==◌, if◌then◌else◌, Option, none, some}
use slop.Lexer.Kind.{TokenKind, kind_eq}
use slop.Support.Diag.{SrcPos}
use slop.Sema.Types.{Ty, TyRef, deref, ty_int_fits}
use slop.Sema.Types.Kind.{TyKind, is_kind, ty_is_integer, ty_is_untyped}
use slop.Sema.Scope.{Sym, SymKind}
use slop.Sema.Convert.{assignable, op_propagates}
use slop.Sema.Check.State.{
  Check, ◌>>=◌, pure, skip, follow, gets, error, note, ty, core, poison, fails, ptr_to, find_sym,
}
use slop.Sema.Check.Tree.{Typed, null, node, Shape, sem_type}

unfoldable pub can_assign : TyRef → TyRef → Check Bool
can_assign from to = gets (λ s. assignable s.types from to)

-- A literal that its integer type cannot hold is reported.
unfoldable pub retype_literal : SrcPos → ℕ → TyRef → Check (Unit {0})
retype_literal pos v target = do
  bad ← gets (λ s.
      ty_is_integer (deref s.types target).kind
      && not (ty_int_fits s.types (deref s.types target) v))
  if bad then error pos else skip

unfoldable mutual
  pub retype_untyped : Typed → TyRef → Check Typed
  retype_untyped null target = pure null
  retype_untyped (node pos t x) target = do
    y ← retype_shape x pos target
    pure (node pos (some target) y)

  -- The switch, which goes on below the operators that kept the expression untyped.
  pub retype_shape : Shape → SrcPos → TyRef → Check Shape
  retype_shape (Shape.int_lit v) pos target = do
    _ ← retype_literal pos v target
    pure (Shape.int_lit v)
  retype_shape (Shape.char_lit v) pos target = do
    _ ← retype_literal pos v target
    pure (Shape.char_lit v)
  retype_shape (Shape.unary op x) pos target =
      let below = retype_untyped x target in
      if kind_eq op TokenKind.minus || kind_eq op TokenKind.tilde
      then (do y ← below; pure (Shape.unary op y))
      else pure (Shape.unary op x)
  retype_shape (Shape.binary op l r) pos target =
      let left = retype_untyped l target in
      let right = retype_untyped r target in
      if op_propagates op
      then (do y ← left; z ← right; pure (Shape.binary op y z))
      else if kind_eq op TokenKind.shl || kind_eq op TokenKind.shr
      then (do y ← left; pure (Shape.binary op y r))
      else pure (Shape.binary op l r)
  retype_shape x pos target = pure x

abbrev pub is_poison : Ty → Bool
is_poison t = is_kind t.kind TyKind.poison

-- No caller passes NULL for the target.
unfoldable pub coerce : Typed → TyRef → Check (Typed × TyRef)
unfolding retype_untyped can_assign poison
coerce null target = pure (null, target)
coerce (node pos none x) target = pure (node pos none x, target)
coerce (node pos (some from) x) target = do
  d ← ty from
  want ← ty target
  if from == target || (is_poison d || is_poison want)
      then pure (node pos (some from) x, target)
      else do
        ok ← can_assign from target
        if not ok
            then (do _ ← error pos; bad ← poison; pure (node pos (some bad) x, bad))
            else if ty_is_untyped d.kind
            then (do e ← retype_untyped (node pos (some from) x) target; pure (e, target))
            else pure (node pos (some target) (Shape.conv (node pos (some from) x)), target)

unfoldable pub is_char : Typed → Bool
is_char (node pos t (Shape.char_lit v)) = true
is_char _ = false

-- The type that an untyped expression takes where nothing gave it a context.
unfoldable pub default_type : Typed → Check TyRef
unfolding is_char core ptr_to
default_type e = do
  t ← follow (sem_type e)
  d ← ty t
  elim d.kind as (λ (_ : TyKind). Check TyRef) [
    | TyKind.untyped_int ↦ if is_char e then core TyKind.u8 else core TyKind.i32
    | TyKind.untyped_float ↦ core TyKind.f64
    | TyKind.untyped_bool ↦ core TyKind.b8
    | TyKind.null ↦ do v ← core TyKind.void; ptr_to v
    | _ ↦ pure t
  ]

-- `check_value` behind its call of `check_expr`: the expression must have a real type.
unfoldable pub settle : Typed × TyRef → Check (Typed × TyRef)
unfolding coerce default_type
settle (e, t) = do
  d ← ty t
  if ty_is_untyped d.kind then (do want ← default_type e; coerce e want) else pure (e, t)

-- May the expression be assigned to, by its shape?
unfoldable pub is_lvalue : Typed → Bool
is_lvalue null = false
is_lvalue (node pos t x) = elim x [
  | Shape.name n ↦ true
  | Shape.index b i ↦ true
  | Shape.field b n ↦ true
  | Shape.unary op y ↦ kind_eq op TokenKind.star
  | _ ↦ false
]

-- Is the expression's type a pointer?
unfoldable pub is_pointer : Typed → Check Bool
is_pointer e =
    gets
      (λ s. elim (sem_type e) [ none ↦ false | some t ↦ is_kind (deref s.types t).kind TyKind.ptr ])

-- The variable that an assignment writes to; `none` behind a pointer.
unfoldable mutual
  pub lvalue_root : Typed → Check (Option Sym)
  lvalue_root null = follow none
  lvalue_root (node pos t x) = root_of x

  pub root_of : Shape → Check (Option Sym)
  root_of (Shape.name n) = find_sym n
  root_of (Shape.index base i) =
      let below = lvalue_root base in
      do behind ← is_pointer base; if behind then pure none else below
  root_of (Shape.field base n) =
      let below = lvalue_root base in
      do behind ← is_pointer base; if behind then pure none else below
  root_of _ = pure none

-- Functions and the members of enums are no variables.
abbrev pub is_constant : SymKind → Bool
is_constant SymKind.fn = true
is_constant SymKind.enum_member = true
is_constant _ = false

-- The position of a node, read through the pointer.
abbrev pub pos_of : Typed → Option SrcPos
pos_of null = none
pos_of (node pos t x) = some pos

-- What `check_assign_target` makes of its checked target.
unfoldable pub check_root : SrcPos → Typed → TyRef → Check TyRef
unfolding lvalue_root fails
check_root pos e t = do
  root ← lvalue_root e
  elim root as (λ (_ : Option Sym). Check TyRef) [
    | none ↦ pure t
    | some sym ↦
        if is_constant sym.kind
        then fails pos
        else (do _ ← if not sym.is_mut then (do _ ← error pos; note sym.pos) else skip; pure t)
  ]

unfoldable pub assign_target : Typed × TyRef → Check (Typed × TyRef)
unfolding is_lvalue check_root fails
assign_target (e, t) = do
  d ← ty t
  if is_poison d
      then pure (e, t)
      else if not (is_lvalue e)
      then (do pos ← follow (pos_of e); bad ← fails pos; pure (e, bad))
      else if is_kind d.kind TyKind.array
      then (do pos ← follow (pos_of e); bad ← fails pos; pure (e, bad))
      else (do pos ← follow (pos_of e); r ← check_root pos e t; pure (e, r))
