-- ===== src/Sema/Types/Kind.antt =====
-- The kinds of resolved types and the tests on them (src/sema/types.h, types.c). The constructors
-- stand in the enumeration's order.
use slop.Base.{ℕ, Bool, true, false, ◌||◌, ◌==◌}

pub data TyKind : Type 0 where
  void i8 u8 i32 u32 i64 u64 f32 f64 b8 b32 b64 ptr array struct enum : TyKind
  untyped_int untyped_float untyped_bool null poison : TyKind

-- The enumerator's number.
abbrev pub ord : TyKind → ℕ
ord void = 0
ord i8 = 1
ord u8 = 2
ord i32 = 3
ord u32 = 4
ord i64 = 5
ord u64 = 6
ord f32 = 7
ord f64 = 8
ord b8 = 9
ord b32 = 10
ord b64 = 11
ord ptr = 12
ord array = 13
ord struct = 14
ord enum = 15
ord untyped_int = 16
ord untyped_float = 17
ord untyped_bool = 18
ord null = 19
ord poison = 20

abbrev pub is_kind : TyKind → TyKind → Bool
is_kind a b = ord a == ord b

abbrev pub ty_is_integer : TyKind → Bool
ty_is_integer i8 = true
ty_is_integer u8 = true
ty_is_integer i32 = true
ty_is_integer u32 = true
ty_is_integer i64 = true
ty_is_integer u64 = true
ty_is_integer _ = false

abbrev pub ty_is_signed : TyKind → Bool
ty_is_signed k = is_kind k i8 || (is_kind k i32 || is_kind k i64)

abbrev pub ty_is_float : TyKind → Bool
ty_is_float k = is_kind k f32 || is_kind k f64

abbrev pub ty_is_bool : TyKind → Bool
ty_is_bool k = is_kind k b8 || (is_kind k b32 || is_kind k b64)

abbrev pub ty_is_numeric : TyKind → Bool
ty_is_numeric k =
    ty_is_integer k || (ty_is_float k || (is_kind k untyped_int || is_kind k untyped_float))

abbrev pub ty_is_untyped : TyKind → Bool
ty_is_untyped k =
    is_kind k untyped_int || (is_kind k untyped_float || (is_kind k untyped_bool || is_kind k null))
