-- ===== src/Ir/Types.antt =====
-- The types of the IR (src/ir/ir.h, ir.c). A pointer has no pointee, so a type is a tree.
use slop.Base.{
  ℕ, ◌+◌, ◌-◌, ◌*◌, ◌/◌, ◌%◌, ◌^◌, List, Bool, true, false, ◌&&◌, ◌==◌, leb, ltb, if◌then◌else◌,
  bytes_eq,
}
use Prim.Native.Nat.{bit_and}

-- `IrType`, with the constructors of `IrTypeKind`. Sizes and lengths are words.
mutual
  pub data IrType : Type 0 where
    void_type : IrType
    int_type float_type : ℕ → IrType
    ptr_type : IrType
    array_type : IrType → ℕ → IrType
    struct_type : List ℕ → IrTypes → IrType

  pub data IrTypes : Type 0 where
    no_fields : IrTypes
    field : IrType → IrTypes → IrTypes

-- `ir_type_int`: widths outside the set get a type of their own.
abbrev pub ir_type_int : ℕ → IrType
ir_type_int bits = int_type bits

abbrev pub ir_type_float : ℕ → IrType
ir_type_float bits = if bits == 32 then float_type 32 else float_type 64

-- `(n + align - 1) & ~(align - 1)` in 32 bits.
unfoldable pub align_up32 : ℕ → ℕ → ℕ
align_up32 n align = bit_and ((n + align - 1) % 2 ^ 32) (2 ^ 32 - 1 - (align - 1))

abbrev pub int_bytes : ℕ → ℕ
int_bytes bits = if leb bits 8 then 1 else bits / 8

unfoldable mutual
  pub ir_type_align : IrType → ℕ
  ir_type_align void_type = 1
  ir_type_align (int_type bits) = int_bytes bits
  ir_type_align (float_type bits) = bits / 8
  ir_type_align ptr_type = 8
  ir_type_align (array_type elem n) = ir_type_align elem
  ir_type_align (struct_type name fs) = widest 1 fs

  -- The loop over the fields, from the alignment so far.
  pub widest : ℕ → IrTypes → ℕ
  widest a no_fields = a
  widest a (field t fs) = widest (if ltb a (ir_type_align t) then ir_type_align t else a) fs

unfoldable mutual
  pub ir_type_size : IrType → ℕ
  ir_type_size void_type = 0
  ir_type_size (int_type bits) = int_bytes bits
  ir_type_size (float_type bits) = bits / 8
  ir_type_size ptr_type = 8
  ir_type_size (array_type elem n) = ((n % 2 ^ 32) * ir_type_size elem) % 2 ^ 32
  ir_type_size (struct_type name fs) = align_up32 (fields_end 0 fs) (widest 1 fs)

  -- The end of the last field, from an offset.
  pub fields_end : ℕ → IrTypes → ℕ
  fields_end off no_fields = off
  fields_end off (field t fs) =
      fields_end ((align_up32 off (ir_type_align t) + ir_type_size t) % 2 ^ 32) fs

-- `types_equal`. Two names of one record are equal by the clauses too.
unfoldable pub types_equal : IrType → IrType → Bool
types_equal void_type void_type = true
types_equal (int_type a) (int_type b) = a == b
types_equal (float_type a) (float_type b) = a == b
types_equal ptr_type ptr_type = true
types_equal (array_type s m) (array_type t n) = (m == n) && types_equal s t
types_equal (struct_type a fs) (struct_type b gs) = bytes_eq a b
types_equal _ _ = false
