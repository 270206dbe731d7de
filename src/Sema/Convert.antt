-- ===== src/Sema/Convert.antt =====
-- The conversion rules of the body checker (src/sema/sema.c): what converts implicitly, the common
-- type of two operands, and the tables of operators.
pub mod Widen
use slop.Base.{Bool, true, false, ◌&&◌, ◌||◌, ltb, ◌==◌, if◌then◌else◌, Option, none, some}
use slop.Lexer.Kind.{TokenKind}
use slop.Sema.Types.Kind.{
  TyKind, is_kind, ty_is_integer, ty_is_signed, ty_is_float, ty_is_bool, ty_is_numeric,
}
use slop.Ast.{Expr}
use slop.Sema.Types.{Ty, TyRef, TypeTable, deref, ty_core, ty_ptr}

-- `a == b` of two truth values.
abbrev pub same_bool : Bool → Bool → Bool
same_bool true b = b
same_bool false true = false
same_bool false false = true

-- The part of `assignable` behind the switch.
unfoldable pub assignable_real : Ty → Ty → Bool
assignable_real from to =
    if ty_is_integer from.kind && ty_is_integer to.kind
    then same_bool (ty_is_signed from.kind) (ty_is_signed to.kind) && ltb from.size to.size
    else if is_kind from.kind TyKind.f32 && is_kind to.kind TyKind.f64
    then true
    else if ty_is_bool from.kind && ty_is_bool to.kind
    then ltb from.size to.size
    else false

-- The switch of `assignable`, for a type that is no enum.
unfoldable pub assignable_kind : Ty → Ty → Bool
unfolding assignable_real
assignable_kind from to = elim from.kind [
  | TyKind.untyped_int ↦
      ty_is_integer to.kind || (ty_is_float to.kind || is_kind to.kind TyKind.untyped_float)
  | TyKind.untyped_float ↦ ty_is_float to.kind
  | TyKind.untyped_bool ↦ ty_is_bool to.kind
  | TyKind.null ↦ is_kind to.kind TyKind.ptr
  | _ ↦ assignable_real from to
]

-- The two tests in front of the switch.
unfoldable pub assignable_front : TypeTable → TyRef → TyRef → Bool → Bool
assignable_front table from to rest =
    if from == to
    then true
    else if is_kind (deref table from).kind TyKind.poison
        || is_kind (deref table to).kind TyKind.poison
    then true
    else rest

-- An enum asks its underlying type, which is a core type: the recursion is one step deep.
unfoldable pub assignable : TypeTable → TyRef → TyRef → Bool
unfolding assignable_front assignable_kind
assignable table from to = assignable_front table from to (elim (deref table from).kind [
  | TyKind.enum ↦ elim (deref table from).base [
    | none ↦ false
    | some b ↦ assignable_front table b to (assignable_kind (deref table b) (deref table to))
  ]
  | _ ↦ assignable_kind (deref table from) (deref table to)
])

unfoldable pub common_type : TypeTable → TyRef → TyRef → Option TyRef
common_type table a b =
    if a == b
    then some a
    else if assignable table a b
    then some b
    else if assignable table b a
    then some a
    else none

unfoldable pub op_propagates : TokenKind → Bool
op_propagates TokenKind.plus = true
op_propagates TokenKind.minus = true
op_propagates TokenKind.star = true
op_propagates TokenKind.slash = true
op_propagates TokenKind.percent = true
op_propagates TokenKind.amp = true
op_propagates TokenKind.pipe = true
op_propagates TokenKind.caret = true
op_propagates _ = false

unfoldable pub assign_binop : TokenKind → TokenKind
assign_binop TokenKind.plus_eq = TokenKind.plus
assign_binop TokenKind.minus_eq = TokenKind.minus
assign_binop TokenKind.star_eq = TokenKind.star
assign_binop TokenKind.slash_eq = TokenKind.slash
assign_binop TokenKind.percent_eq = TokenKind.percent
assign_binop TokenKind.amp_eq = TokenKind.amp
assign_binop TokenKind.pipe_eq = TokenKind.pipe
assign_binop TokenKind.caret_eq = TokenKind.caret
assign_binop TokenKind.shl_eq = TokenKind.shl
assign_binop TokenKind.shr_eq = TokenKind.shr
assign_binop _ = TokenKind.eq

unfoldable pub is_integerish : Ty → Bool
is_integerish t =
    ty_is_integer t.kind || (is_kind t.kind TyKind.untyped_int || is_kind t.kind TyKind.enum)

-- An enum stands for its underlying type.
unfoldable pub cast_kind : TypeTable → Ty → Ty
cast_kind table t = elim t.kind [
  | TyKind.enum ↦ elim t.base [ none ↦ t | some b ↦ deref table b ]
  | _ ↦ t
]

-- The tests of `cast_allowed` on what the enums stand for.
unfoldable pub cast_kinds : TyKind → TyKind → Bool
cast_kinds from to =
    if ty_is_numeric from && ty_is_numeric to
    then true
    else if (is_kind from TyKind.ptr || is_kind from TyKind.null) && is_kind to TyKind.ptr
    then true
    else if (ty_is_bool from || is_kind from TyKind.untyped_bool) && ty_is_numeric to
    then true
    else (ty_is_bool from || is_kind from TyKind.untyped_bool) && ty_is_bool to

unfoldable pub cast_allowed : TypeTable → TyRef → TyRef → Bool
unfolding cast_kind cast_kinds
cast_allowed table from to =
    if is_kind (deref table from).kind TyKind.poison
      || (is_kind (deref table to).kind TyKind.poison || (from == to))
    then true
    else cast_kinds (cast_kind table (deref table from)).kind
        (cast_kind table (deref table to)).kind
