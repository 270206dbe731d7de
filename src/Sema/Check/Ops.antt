-- ===== src/Sema/Check/Ops.antt =====
-- The operators' rules (src/sema/sema.c), on operands that are checked. A result holds what the
-- slots hold afterwards, and the type.
use slop.Base.{Bool, ◌||◌, ◌&&◌, not, ◌==◌, if◌then◌else◌, Option, none, some}
use slop.Lexer.Kind.{TokenKind, kind_eq}
use slop.Support.Diag.{SrcPos}
use slop.Sema.Types.{Ty, TyRef}
use slop.Sema.Types.Kind.{TyKind, is_kind, ty_is_integer, ty_is_bool, ty_is_numeric, ty_is_signed}
use slop.Sema.Convert.{common_type, is_integerish}
use slop.Sema.Check.State.{Check, ◌>>=◌, pure, follow, gets, ty, core, poison, fails, ptr_to}
use slop.Sema.Check.Tree.{Typed, null, node}
use slop.Sema.Check.Coerce.{coerce, is_lvalue, is_poison}

-- Both operands and the type.
abbrev pub Pair : Type 0
Pair = Typed × (Typed × TyRef)

-- An error at the operator.
unfoldable pub mismatch : SrcPos → Typed → Typed → Check Pair
unfolding fails
mismatch pos l r = do bad ← fails pos; pure (l, (r, bad))

-- Both operands become `c`, and so does the result.
unfoldable pub coerce_both : Typed → Typed → TyRef → TyRef → Check Pair
unfolding coerce
coerce_both l r c result = do a ← coerce l c; b ← coerce r c; pure (a.0, (b.0, result))

abbrev pub is_ptr : Ty → Bool
is_ptr t = is_kind t.kind TyKind.ptr

abbrev pub is_null : Ty → Bool
is_null t = is_kind t.kind TyKind.null

-- `&&` and `||`.
unfoldable pub check_logical : SrcPos → Typed → Typed → Ty → Ty → Check Pair
unfolding mismatch core
check_logical pos l r lt rt =
    if not (ty_is_bool lt.kind) && not (is_kind lt.kind TyKind.untyped_bool)
    then mismatch pos l r
    else if not (ty_is_bool rt.kind) && not (is_kind rt.kind TyKind.untyped_bool)
    then mismatch pos l r
    else (do t ← core TyKind.untyped_bool; pure (l, (r, t)))

unfoldable pub check_shift : SrcPos → Typed → Typed → TyRef → Ty → Ty → Check Pair
unfolding mismatch core coerce
check_shift pos l r a lt rt =
    if not (is_integerish lt) || not (is_integerish rt)
    then mismatch pos l r
    else if is_kind rt.kind TyKind.untyped_int
    then (do t ← core TyKind.i32; y ← coerce r t; pure (l, (y.0, a)))
    else pure (l, (r, a))

-- May two values of the common type be compared?
abbrev pub is_comparable : Ty → Bool
is_comparable t = ty_is_numeric t.kind || (is_ptr t || is_kind t.kind TyKind.enum)

unfoldable pub check_compare : SrcPos → Typed → Typed → TyRef → TyRef → Check Pair
unfolding mismatch core coerce_both
check_compare pos l r a b = do
  c ← gets (λ s. common_type s.types a b)
  elim c as (λ (_ : Option TyRef). Check Pair) [
    | none ↦ mismatch pos l r
    | some t ↦ do
      d ← ty t
      if not (is_comparable d) then mismatch pos l r else do
        p ← coerce_both l r t t
        truth ← core TyKind.untyped_bool
        pure (p.0, (p.1.0, truth))
  ]

-- `==` and `!=`, where a pointer may be compared with `null`.
unfoldable pub check_equality : SrcPos → Typed → Typed → TyRef → TyRef → Ty → Ty → Check Pair
unfolding check_compare coerce core
check_equality pos l r a b lt rt =
    if is_ptr lt && is_null rt
    then (do y ← coerce r a; t ← core TyKind.untyped_bool; pure (l, (y.0, t)))
    else if is_null lt && is_ptr rt
    then (do x ← coerce l b; t ← core TyKind.untyped_bool; pure (x.0, (r, t)))
    else check_compare pos l r a b

-- The operators that give their operands' common type.
unfoldable pub check_common : SrcPos → Typed → Typed → TyRef → TyRef → Check Pair
unfolding mismatch coerce_both
check_common pos l r a b = do
  c ← gets (λ s. common_type s.types a b)
  elim c as (λ (_ : Option TyRef). Check Pair) [
    | none ↦ mismatch pos l r
    | some t ↦ coerce_both l r t t
  ]

-- The switch over the operator.
unfoldable pub check_switch :
    TokenKind → SrcPos → Typed → Typed → TyRef → TyRef → Ty → Ty → Check Pair
unfolding check_logical check_shift check_equality check_compare check_common mismatch
check_switch op pos l r a b lt rt =
    let bits : Check Pair =
      if not (is_integerish lt) || not (is_integerish rt)
      then mismatch pos l r
      else check_common pos l r a b in
    elim op as (λ (_ : TokenKind). Check Pair) [
      | TokenKind.amp_amp ↦ check_logical pos l r lt rt
      | TokenKind.pipe_pipe ↦ check_logical pos l r lt rt
      | TokenKind.shl ↦ check_shift pos l r a lt rt
      | TokenKind.shr ↦ check_shift pos l r a lt rt
      | TokenKind.eq_eq ↦ check_equality pos l r a b lt rt
      | TokenKind.bang_eq ↦ check_equality pos l r a b lt rt
      | TokenKind.lt ↦ check_compare pos l r a b
      | TokenKind.le ↦ check_compare pos l r a b
      | TokenKind.gt ↦ check_compare pos l r a b
      | TokenKind.ge ↦ check_compare pos l r a b
      | TokenKind.percent ↦ bits
      | TokenKind.amp ↦ bits
      | TokenKind.pipe ↦ bits
      | TokenKind.caret ↦ bits
      | _ ↦
          if not (ty_is_numeric lt.kind) || not (ty_is_numeric rt.kind)
          then mismatch pos l r
          else check_common pos l r a b
    ]

abbrev pub is_op : TokenKind → TokenKind → Bool
is_op op k = kind_eq op k

-- The type that an index added to a pointer takes.
abbrev pub offset_type : Ty → TyRef → Check TyRef
offset_type t r = if ty_is_integer t.kind then pure r else core TyKind.i64

-- A pointer and an offset: the scaling is the lowering's.
unfoldable pub check_binary_types : TokenKind → SrcPos → Typed → Typed → TyRef → TyRef → Check Pair
unfolding check_switch coerce core mismatch poison
check_binary_types op pos l r a b = do
  lt ← ty a
  rt ← ty b
  let adds = is_op op TokenKind.plus
  let subs = is_op op TokenKind.minus
  if is_poison lt || is_poison rt
      then (do bad ← poison; pure (l, (r, bad)))
      else if (adds || subs) && (is_ptr lt && is_integerish rt)
      then (do t ← offset_type rt b; y ← coerce r t; pure (l, (y.0, a)))
      else if adds && (is_ptr rt && is_integerish lt)
      then (do t ← offset_type lt a; x ← coerce l t; pure (x.0, (r, b)))
      else if subs && (is_ptr lt && is_ptr rt)
      then (if not (a == b) then mismatch pos l r else (do t ← core TyKind.i64; pure (l, (r, t))))
      else check_switch op pos l r a b lt rt

-- The operands' types, read through their pointers; NULL where one was never checked.
unfoldable pub check_binary_op : TokenKind → SrcPos → Typed → Typed → Check Pair
unfolding check_binary_types poison
check_binary_op op pos null r = follow none
check_binary_op op pos (node p t x) null = follow none
check_binary_op op pos (node p t x) (node q u y) = elim t as (λ (_ : Option TyRef). Check Pair) [
  | none ↦ do bad ← poison; pure (node p t x, (node q u y, bad))
  | some a ↦ elim u as (λ (_ : Option TyRef). Check Pair) [
    | none ↦ do bad ← poison; pure (node p t x, (node q u y, bad))
    | some b ↦ check_binary_types op pos (node p t x) (node q u y) a b
  ]
]

-- What a unary operator makes of its operand `e` of type `t`; a poisoned one passes.
abbrev pub unless_poison : TyRef → (Ty → Check TyRef) → Check TyRef
unless_poison t k = do d ← ty t; if is_poison d then pure t else k d

unfoldable pub check_negate : SrcPos → TyRef → Check TyRef
unfolding fails
check_negate pos t = unless_poison t (λ d.
    if not (ty_is_numeric d.kind)
    then fails pos
    else if ty_is_integer d.kind && not (ty_is_signed d.kind)
    then fails pos
    else pure t)

unfoldable pub check_tilde : SrcPos → TyRef → Check TyRef
unfolding fails
check_tilde pos t = unless_poison t (λ d. if not (is_integerish d) then fails pos else pure t)

unfoldable pub check_bang : SrcPos → TyRef → Check TyRef
unfolding fails core
check_bang pos t = unless_poison t (λ d.
    if not (ty_is_bool d.kind) && not (is_kind d.kind TyKind.untyped_bool)
    then fails pos
    else core TyKind.untyped_bool)

unfoldable pub check_star : SrcPos → TyRef → Check TyRef
unfolding fails
check_star pos t = unless_poison t (λ d. if not (is_ptr d) then fails pos else do
  elem ← follow d.elem
  to ← ty elem
  if is_kind to.kind TyKind.void then fails pos else pure elem)

unfoldable pub check_address : SrcPos → Typed → TyRef → Check TyRef
unfolding fails is_lvalue ptr_to
check_address pos e t = unless_poison t (λ d. if not (is_lvalue e) then fails pos else ptr_to t)
