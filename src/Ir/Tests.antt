-- ===== src/Ir/Tests.antt =====
-- A function built and verified, and the theorems of the IR at concrete inputs.
use slop.Base.{ℕ, ◌≡◌, ◌↔◌, refl, List, [], ◌∷◌, true, false, arith, drop, inr, some, ◌%◌, inl}
use slop.Lexer.Kind.{codes}
use slop.Ir.Types.{
  ir_type_size, ir_type_align, int_type, ptr_type, struct_type, array_type, no_fields, field,
  types_equal,
}
use slop.Ir.Data.{IrValue, const_int, local, IrBlock, IrFunction, IrModule}
use slop.Ir.Module.{ir_module_new, ir_string}
use slop.Ir.Strings.{IsNumbered, Absent, string_names, numbered, ir_string-IsNumbered}
use slop.Ir.Aligned.{ir_type_size-ir_type_align}
use slop.Ir.Names.{fmt_name, read_decimal, fmt_name-read_decimal}
use slop.Ir.Builder.{IrBuilder, ir_build_alloca, ir_build_store, ir_build_ret}
use slop.Ir.Verify.{ir_verify}
use slop.Ir.WellFormed.{IsModule}
use slop.Ir.Accepts.{ir_verify_iff}
use slop.Ir.Same.{types_equal_iff}

-- One empty block.
abbrev start : IrBuilder
start = record {
  blocks = record { id = 0; instrs = [] } ∷ [];
  block = 0;
  next_temp = 0;
  next_id = 1;
}

abbrev seven : IrValue
seven = record { id = 90; kind = const_int; type = int_type 32; ival = 7; name = [] }

-- The slot that `alloca` makes.
abbrev slot : IrValue
slot = record { id = 1; kind = local; type = ptr_type; ival = 0; name = codes "x" }

-- `x = 7; return 7`
built : IrBuilder
unfolding ir_build_alloca ir_build_store ir_build_ret
built =
    ir_build_ret
      (ir_build_store (ir_build_alloca start (int_type 32) (some (codes "x"))).0 seven slot)
      (some seven)

main_fn : List IrBlock → IrFunction
main_fn bs = record {
  name = codes "main";
  ret = int_type 32;
  params = [];
  is_vararg = false;
  is_declaration = false;
  blocks = bs;
}

main_module : List IrBlock → IrModule
unfolding ir_module_new main_fn
main_module bs = record (ir_module_new (codes "m")) { functions = main_fn bs ∷ [] }

problems : ℕ
unfolding built ir_verify main_module
problems = ir_verify (main_module built.blocks)

problems_unfinished : ℕ
unfolding ir_verify main_module
problems_unfinished = ir_verify (main_module start.blocks)

built-verifies : problems ≡ 0
unfolding problems
built-verifies = refl

-- An empty block is not terminated.
empty-refused : problems_unfinished ≡ 1
unfolding problems_unfinished
empty-refused = refl

ir_verify_iff_example :
    (ir_verify (main_module built.blocks) ≡ 0) ↔ IsModule (main_module built.blocks)
ir_verify_iff_example = ir_verify_iff (main_module built.blocks)

types_equal_iff_example :
    (types_equal
        (array_type (struct_type (codes "S") no_fields) 3)
        (array_type (struct_type (codes "S") (field ptr_type no_fields)) 3)
      ≡ true)
    ↔ (array_type (struct_type (codes "S") no_fields) 3
        ≡ array_type (struct_type (codes "S") no_fields) 3)
types_equal_iff_example =
    types_equal_iff (array_type (struct_type (codes "S") no_fields) 3)
      (array_type (struct_type (codes "S") (field ptr_type no_fields)) 3)

fmt_name-read_decimal_example :
    read_decimal 0 (drop 1 (fmt_name (codes "t") 4294967295)) ≡ 4294967295
fmt_name-read_decimal_example = fmt_name-read_decimal (codes "t") 4294967295 (omega arith)

-- A module with one string constant.
one_string : IrModule
unfolding ir_module_new ir_string
one_string = (ir_string (ir_module_new (codes "m")) (codes "hi")).0

one_string-IsNumbered : IsNumbered one_string
unfolding one_string numbered string_names
one_string-IsNumbered = record { names = refl; word = omega arith }

ir_string-IsNumbered_example :
    IsNumbered (ir_string one_string (codes "ho")).0
    × Absent (ir_string one_string (codes "ho")).1.name (string_names one_string.globals)
ir_string-IsNumbered_example =
    ir_string-IsNumbered one_string (codes "ho") one_string-IsNumbered
      (unfold one_string in omega arith)

-- `struct { i8; i64*; i32[3] }`
ir_type_size-ir_type_align_example :
    ir_type_size (
        struct_type
          (codes "S")
          (field (int_type 8) (field ptr_type (field (array_type (int_type 32) 3) no_fields))))
      % ir_type_align (
          struct_type
            (codes "S")
            (field (int_type 8) (field ptr_type (field (array_type (int_type 32) 3) no_fields))))
    ≡ 0
ir_type_size-ir_type_align_example =
    ir_type_size-ir_type_align
      (struct_type (codes "S")
        (field (int_type 8) (field ptr_type (field (array_type (int_type 32) 3) no_fields))))
      (inr (inl refl), (tt, (inr (inr (inl refl)), tt)))
