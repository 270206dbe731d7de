-- ===== src/Sema/Check/Exprs.antt =====
-- Expressions (src/sema/sema.c). Each rule takes the recursive call of `check_expr` as an
-- argument; `check_on` ties the knot on fuel, since a cast checks its operand twice.
use slop.Base.{
  ℕ, zero, suc, List, [], ◌∷◌, Bool, true, false, ◌||◌, ◌&&◌, not, ltb, if◌then◌else◌, length,
  Option, none, some,
}
use slop.Ast.{Syntax}
use slop.Lexer.Kind.{TokenKind}
use slop.Support.Diag.{SrcPos}
use slop.Support.StrView.{StrView}
use slop.Sema.Types.{TyRef, FieldSym, ty_field, ty_is_sized}
use slop.Sema.Types.Kind.{TyKind, is_kind, ty_is_integer, ty_is_untyped}
use slop.Sema.Scope.{Sym, SymKind}
use slop.Sema.Convert.{cast_allowed}
use slop.Sema.Check.State.{
  Check, ◌>>=◌, pure, skip, follow, out_of_fuel, gets, error, ty, core, poison, fails, ptr_to,
  find_sym,
}
use slop.Sema.Check.Tree.{Typed, null, node, Shape, TypedArgs, height}
use slop.Sema.Check.Coerce.{can_assign, coerce, settle, retype_untyped, is_poison, pos_of}
use slop.Sema.Check.Layout.{resolve_laid, lay_out, layout_struct, is_struct}
use slop.Sema.Check.Ops.{
  is_ptr, check_binary_op, check_negate, check_tilde, check_bang, check_star, check_address,
}

-- `check_expr`: the slot's expression and the expected type, NULL where there is none.
abbrev pub Checker : Type 0
Checker = Typed → Option TyRef → Check (Typed × TyRef)

abbrev pub is_fn : SymKind → Bool
is_fn SymKind.fn = true
is_fn _ = false

abbrev pub or_poison : Option TyRef → Check TyRef
or_poison none = poison
or_poison (some t) = pure t

unfoldable pub check_value : Checker → Typed → Check (Typed × TyRef)
unfolding settle
check_value check e = do r ← check e none; settle r

-- The operand as it is after its check, and the operator's type.
unfoldable pub check_unary : Checker → SrcPos → TokenKind → Typed → Check (Typed × TyRef)
unfolding check_value check_negate check_tilde check_bang check_star check_address poison
check_unary check pos op x =
    let plain : (TyRef → Check TyRef) → Check (Typed × TyRef) =
      λ rule. (do r ← check x none; t ← rule r.1; pure (r.0, t)) in
    elim op as (λ (_ : TokenKind). Check (Typed × TyRef)) [
      | TokenKind.minus ↦ plain (check_negate pos)
      | TokenKind.tilde ↦ plain (check_tilde pos)
      | TokenKind.bang ↦ plain (check_bang pos)
      | TokenKind.star ↦ do r ← check_value check x; t ← check_star pos r.1; pure (r.0, t)
      | TokenKind.amp ↦ do r ← check_value check x; t ← check_address pos r.0 r.1; pure (r.0, t)
      | _ ↦ do bad ← poison; pure (x, bad)
    ]

-- The type that a variable argument is promoted to.
abbrev pub promoted : TyKind → Option TyKind
promoted TyKind.f32 = some TyKind.f64
promoted TyKind.i8 = some TyKind.i32
promoted TyKind.u8 = some TyKind.u32
promoted _ = none

unfoldable pub promote_vararg : Checker → Typed → Check Typed
unfolding check_value coerce core
promote_vararg check x = do
  r ← check_value check x
  d ← ty r.1
  elim (promoted d.kind) as (λ (_ : Option TyKind). Check Typed) [
    | none ↦ pure r.0
    | some k ↦ do t ← core k; y ← coerce r.0 t; pure y.0
  ]

unfoldable pub check_param : Checker → Typed → TyRef → Check Typed
unfolding can_assign coerce
check_param check x want = do
  r ← check x none
  d ← ty r.1
  ok ← can_assign r.1 want
  if not (is_poison d) && not ok
      then (do pos ← follow (pos_of r.0); _ ← error pos; pure r.0)
      else (do y ← coerce r.0 want; pure y.0)

-- The arguments against the parameters that are left.
unfoldable pub check_args : Checker → List TyRef → TypedArgs → Check TypedArgs
unfolding check_param promote_vararg
check_args check ps TypedArgs.no_args = pure TypedArgs.no_args
check_args check [] (TypedArgs.arg x es) = do
  y ← promote_vararg check x
  rest ← check_args check [] es
  pure (TypedArgs.arg y rest)
check_args check (p ∷ ps) (TypedArgs.arg x es) = do
  y ← check_param check x p
  rest ← check_args check ps es
  pure (TypedArgs.arg y rest)

abbrev pub args_len : TypedArgs → ℕ
args_len TypedArgs.no_args = 0
args_len (TypedArgs.arg x es) = suc (args_len es)

-- Too few arguments, or too many.
abbrev pub wrong_count : Sym → ℕ → Bool
wrong_count sym n = ltb n (length sym.params) || (ltb (length sym.params) n && not sym.is_variadic)

unfoldable pub call_of : Checker → SrcPos → Sym → TypedArgs → Check (TypedArgs × TyRef)
unfolding check_args poison
call_of check pos sym es = do
  _ ← if wrong_count sym (args_len es) then error pos else skip
  ys ← check_args check sym.params es
  t ← or_poison sym.type
  pure (ys, t)

-- An error, and the arguments unchecked.
unfoldable pub no_call : SrcPos → TypedArgs → Check (TypedArgs × TyRef)
unfolding fails
no_call pos es = do bad ← fails pos; pure (es, bad)

unfoldable pub call_named :
    Checker → SrcPos → SrcPos → StrView → TypedArgs → Check (TypedArgs × TyRef)
unfolding find_sym no_call call_of
call_named check pos at name es = do
  o ← find_sym name
  elim o as (λ (_ : Option Sym). Check (TypedArgs × TyRef)) [
    | none ↦ no_call at es
    | some sym ↦ if not (is_fn sym.kind) then no_call at es else call_of check pos sym es
  ]

-- The callee is a name, and is not checked itself.
unfoldable pub check_call : Checker → SrcPos → Typed → TypedArgs → Check (TypedArgs × TyRef)
unfolding call_named no_call
check_call check pos null es = no_call pos es
check_call check pos (node at t (Shape.name n)) es = call_named check pos at n es
check_call check pos (node at t x) es = no_call pos es

-- A cast of an operand that was checked and does not become the target.
unfoldable pub cast_checked : Checker → SrcPos → TyRef → Typed × TyRef → Check (Typed × TyRef)
unfolding fails
cast_checked check pos target v = do
  want ← ty target
  if not (ty_is_sized want) && not (is_poison want)
      then (do bad ← fails pos; pure (v.0, bad))
      else do
        ok ← gets (λ s. cast_allowed s.types v.1 target)
        if not ok then (do bad ← fails pos; pure (v.0, bad)) else pure (v.0, target)

unfoldable pub check_cast : Checker → SrcPos → Typed → Syntax → Check (Typed × TyRef)
unfolding resolve_laid can_assign retype_untyped check_value cast_checked
check_cast check pos x to = do
  target ← resolve_laid to
  r ← check x none
  d ← ty r.1
  ok ← can_assign r.1 target
  if ty_is_untyped d.kind && ok then (do y ← retype_untyped r.0 target; pure (y, target)) else do
    v ← if ty_is_untyped d.kind then check_value check r.0 else pure r
    cast_checked check pos target v

-- A name is the variable or the member of an enum that it stands for.
unfoldable pub check_name : SrcPos → StrView → Check TyRef
unfolding find_sym fails poison
check_name pos name = do
  o ← find_sym name
  elim o as (λ (_ : Option Sym). Check TyRef) [
    | none ↦ fails pos
    | some sym ↦ if is_fn sym.kind then fails pos else or_poison sym.type
  ]

-- The index, as it is after its own rule.
unfoldable pub check_subscript : SrcPos → Typed × TyRef → Check Typed
unfolding core coerce
check_subscript pos (e, t) = do
  d ← ty t
  if is_kind d.kind TyKind.untyped_int
      then (do want ← core TyKind.i64; y ← coerce e want; pure y.0)
      else if not (ty_is_integer d.kind) && not (is_poison d)
      then (do _ ← error pos; pure e)
      else pure e

-- What an index reads.
unfoldable pub element_of : SrcPos → TyRef → Check TyRef
unfolding fails
element_of pos t = do
  d ← ty t
  if is_kind d.kind TyKind.array
      then follow d.elem
      else if is_ptr d
      then (do
        elem ← follow d.elem
        to ← ty elem
        if is_kind to.kind TyKind.void then fails pos else pure elem)
      else if is_poison d
      then pure t
      else fails pos

unfoldable pub check_index : Checker → SrcPos → Typed → Typed → Check (Shape × TyRef)
unfolding check_value check_subscript element_of
check_index check pos base i = do
  b ← check_value check base
  r ← check i none
  j ← check_subscript pos r
  t ← element_of pos b.1
  pure (Shape.index b.0 j, t)

-- The type that holds the fields: one pointer is stripped.
unfoldable pub holder_of : TyRef → Check TyRef
holder_of t = do d ← ty t; if is_ptr d then follow d.elem else pure t

unfoldable pub field_of : SrcPos → StrView → TyRef → Check TyRef
unfolding fails
field_of pos name t = do
  d ← ty t
  if is_poison d
      then pure t
      else if not (is_struct d)
      then fails pos
      else elim (ty_field (some d) name) as (λ (_ : Option FieldSym). Check TyRef) [
        | none ↦ fails pos
        | some f ↦ pure f.type
      ]

unfoldable pub check_field : Checker → SrcPos → Typed → StrView → Check (Shape × TyRef)
unfolding check_value holder_of lay_out layout_struct field_of
check_field check pos base name = do
  b ← check_value check base
  h ← holder_of b.1
  _ ← lay_out layout_struct h
  t ← field_of pos name h
  pure (Shape.field b.0 name, t)

unfoldable pub check_sizeof : SrcPos → Syntax → Check TyRef
unfolding resolve_laid core
check_sizeof pos of = do
  target ← resolve_laid of
  d ← ty target
  _ ← if not (ty_is_sized d) && not (is_poison d) then error pos else skip
  core TyKind.u64

-- A leaf of one of the core types.
unfoldable pub leaf : Shape → TyKind → Check (Shape × TyRef)
unfolding core
leaf x kind = do t ← core kind; pure (x, t)

-- The switch over the expression, whose own `sem_type` so far is `old`.
unfoldable pub check_shape : Checker → SrcPos → Option TyRef → Shape → Check (Shape × TyRef)
unfolding leaf core ptr_to poison check_name check_unary check_binary_op check_call check_index
    check_field check_cast check_sizeof
check_shape check pos old (Shape.int_lit v) = leaf (Shape.int_lit v) TyKind.untyped_int
check_shape check pos old (Shape.char_lit v) = leaf (Shape.char_lit v) TyKind.untyped_int
check_shape check pos old (Shape.float_lit v) = leaf (Shape.float_lit v) TyKind.untyped_float
check_shape check pos old (Shape.bool_lit b) = leaf (Shape.bool_lit b) TyKind.untyped_bool
check_shape check pos old Shape.null_lit = leaf Shape.null_lit TyKind.null
check_shape check pos old (Shape.string_lit v) = do
  byte ← core TyKind.u8
  t ← ptr_to byte
  pure (Shape.string_lit v, t)
check_shape check pos old (Shape.name n) = do t ← check_name pos n; pure (Shape.name n, t)
check_shape check pos old (Shape.unary op x) = do
  r ← check_unary check pos op x
  pure (Shape.unary op r.0, r.1)
check_shape check pos old (Shape.binary op l r) = do
  a ← check l none
  b ← check r none
  c ← check_binary_op op pos a.0 b.0
  pure (Shape.binary op c.0 c.1.0, c.1.1)
check_shape check pos old (Shape.call c es) = do
  r ← check_call check pos c es
  pure (Shape.call c r.0, r.1)
check_shape check pos old (Shape.index b i) = check_index check pos b i
check_shape check pos old (Shape.field b n) = check_field check pos b n
check_shape check pos old (Shape.cast x t) = do
  r ← check_cast check pos x t
  pure (Shape.cast r.0 t, r.1)
check_shape check pos old (Shape.size_of t) = do u ← check_sizeof pos t; pure (Shape.size_of t, u)
check_shape check pos old (Shape.conv x) = do t ← or_poison old; pure (Shape.conv x, t)

-- The expression with its type, coerced where one is expected.
unfoldable pub check_over : Checker → Checker
unfolding check_shape coerce poison
check_over check null expected = do bad ← poison; pure (null, bad)
check_over check (node pos old x) expected = do
  r ← check_shape check pos old x
  elim expected as (λ (_ : Option TyRef). Check (Typed × TyRef)) [
    | none ↦ pure (node pos (some r.1) r.0, r.1)
    | some want ↦ coerce (node pos (some r.1) r.0) want
  ]

unfoldable pub check_on : ℕ → Checker
unfolding check_over
check_on zero e expected = out_of_fuel
check_on (suc f) e expected = check_over (check_on f) e expected

unfoldable pub check_expr : Checker
unfolding check_on height
check_expr e expected = check_on (suc (height e)) e expected
