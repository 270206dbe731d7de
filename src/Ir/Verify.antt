-- ===== src/Ir/Verify.antt =====
-- The verifier (src/ir/ir.c, `ir_verify`): the number of problems. The wording of a report is left
-- out. An operand that is not there would be a read out of bounds; it is `no_value`.
use slop.Base.{
  ℕ, ◌+◌, List, [], ◌∷◌, Bool, true, false, ◌&&◌, ◌||◌, not, ◌==◌, ltb, if◌then◌else◌, length,
  get_or, Option, none, some,
}
use slop.Ir.Types.{
  IrType, void_type, int_type, float_type, ptr_type, array_type, struct_type, ir_type_size,
  types_equal,
}
use slop.Ir.Data.{
  IrValue, undef, IrOpcode, Callee, IrInstr, IrBlock, IrFunction, IrModule, is_terminator,
}

abbrev pub no_value : IrValue
no_value = record { id = 0; kind = undef; type = void_type; ival = 0; name = [] }

abbrev pub arg : IrInstr → ℕ → IrValue
arg i n = get_or i.args n no_value

abbrev pub is_ptr : IrType → Bool
is_ptr ptr_type = true
is_ptr _ = false

abbrev pub is_int : IrType → Bool
is_int (int_type bits) = true
is_int _ = false

abbrev pub is_float : IrType → Bool
is_float (float_type bits) = true
is_float _ = false

abbrev pub is_i1 : IrType → Bool
is_i1 (int_type bits) = bits == 1
is_i1 _ = false

abbrev pub is_void : IrType → Bool
is_void void_type = true
is_void _ = false

abbrev pub is_aggregate : IrType → Bool
is_aggregate (array_type t n) = true
is_aggregate (struct_type n fs) = true
is_aggregate _ = false

-- One more problem where a test holds.
abbrev pub problem : Bool → ℕ
problem b = if b then 1 else 0

unfoldable pub block_in : List IrBlock → ℕ → Bool
block_in [] target = false
block_in (b ∷ bs) target = if b.id == target then true else block_in bs target

unfoldable pub block_in_function : IrFunction → Option ℕ → Bool
unfolding block_in
block_in_function f none = false
block_in_function f (some target) = block_in f.blocks target

abbrev pub defines : IrInstr → ℕ → Bool
defines i val = elim i.result [ none ↦ false | some r ↦ r.id == val ]

unfoldable pub find_in : List IrInstr → ℕ → Option IrInstr
find_in [] val = none
find_in (i ∷ is) val = if defines i val then some i else find_in is val

unfoldable pub find_block : List IrBlock → ℕ → Option IrInstr
unfolding find_in
find_block [] val = none
find_block (b ∷ bs) val = elim (find_in b.instrs val) [ none ↦ find_block bs val | some i ↦ some i ]

-- The instruction that produced a value.
unfoldable pub defining_instr : IrFunction → IrValue → Option IrInstr
unfolding find_block
defining_instr f val = find_block f.blocks val.id

abbrev pub is_alloca : IrOpcode → Bool
is_alloca IrOpcode.alloca = true
is_alloca _ = false

-- The slot is written wider than it was allocated.
unfoldable pub too_wide : IrInstr → Option IrType → Bool
unfolding ir_type_size
too_wide store none = false
too_wide store (some slot) =
    if is_aggregate slot then false else ltb (ir_type_size slot) (ir_type_size (arg store 0).type)

-- The check of a store whose destination the given instruction produced.
unfoldable pub slot_problem : IrInstr → Option IrInstr → ℕ
unfolding too_wide
slot_problem store none = 0
slot_problem store (some alloc) =
    if not (is_alloca alloc.op) then 0 else problem (too_wide store alloc.type_arg)

unfoldable pub verify_slot_store : IrFunction → IrInstr → ℕ
unfolding defining_instr slot_problem
verify_slot_store f store = slot_problem store (defining_instr f (arg store 1))

unfoldable pub verify_ret : IrFunction → IrInstr → ℕ
unfolding types_equal
verify_ret f i =
    if length i.args == 0
    then problem (not (is_void f.ret))
    else problem (not (types_equal (arg i 0).type f.ret))

unfoldable pub verify_call : IrInstr → Option Callee → ℕ
verify_call i none = 1
verify_call i (some fn) =
    if not fn.is_vararg && not (length i.args == fn.nparams)
    then 1
    else problem (fn.is_vararg && ltb (length i.args) fn.nparams)

-- The groups of the switch over the opcodes.
pub data Check : Type 0 where
  stored accessed integer floating compared chosen jumped returned called unchecked : Check

abbrev pub check_of : IrOpcode → Check
check_of IrOpcode.store = stored
check_of IrOpcode.load = accessed
check_of IrOpcode.gep = accessed
check_of IrOpcode.add = integer
check_of IrOpcode.sub = integer
check_of IrOpcode.mul = integer
check_of IrOpcode.sdiv = integer
check_of IrOpcode.udiv = integer
check_of IrOpcode.srem = integer
check_of IrOpcode.urem = integer
check_of IrOpcode.and = integer
check_of IrOpcode.or = integer
check_of IrOpcode.xor = integer
check_of IrOpcode.shl = integer
check_of IrOpcode.lshr = integer
check_of IrOpcode.ashr = integer
check_of IrOpcode.fadd = floating
check_of IrOpcode.fsub = floating
check_of IrOpcode.fmul = floating
check_of IrOpcode.fdiv = floating
check_of IrOpcode.frem = floating
check_of IrOpcode.icmp = compared
check_of IrOpcode.fcmp = compared
check_of IrOpcode.condbr = chosen
check_of IrOpcode.br = jumped
check_of IrOpcode.ret = returned
check_of IrOpcode.call = called
check_of _ = unchecked

unfoldable pub verify_check : Check → IrFunction → IrInstr → ℕ
unfolding verify_slot_store types_equal block_in_function verify_ret verify_call
verify_check stored f i = problem (not (is_ptr (arg i 1).type)) + verify_slot_store f i
verify_check accessed f i = problem (not (is_ptr (arg i 0).type))
verify_check integer f i =
    problem (not (types_equal (arg i 0).type (arg i 1).type))
    + problem (not (is_int (arg i 0).type))
verify_check floating f i = problem (not (is_float (arg i 0).type))
verify_check compared f i = problem (not (types_equal (arg i 0).type (arg i 1).type))
verify_check chosen f i =
    problem (not (is_i1 (arg i 0).type))
    + problem (not (block_in_function f i.dest) || not (block_in_function f i.dest2))
verify_check jumped f i = problem (not (block_in_function f i.dest))
verify_check returned f i = verify_ret f i
verify_check called f i = verify_call i i.fn
verify_check unchecked f i = 0

abbrev pub verify_instr : IrFunction → IrInstr → ℕ
verify_instr f i = verify_check (check_of i.op) f i

-- The instructions of a block, and whether a terminator was seen.
unfoldable pub verify_instrs : IrFunction → Bool → List IrInstr → ℕ
unfolding verify_check
verify_instrs f seen [] = if seen then 0 else 1
verify_instrs f seen (i ∷ is) =
    let rest = verify_instrs f (is_terminator i.op) is in
    if seen then 1 else verify_instr f i + rest

unfoldable pub verify_blocks : IrFunction → List IrBlock → ℕ
unfolding verify_instrs
verify_blocks f [] = 0
verify_blocks f (b ∷ bs) = verify_instrs f false b.instrs + verify_blocks f bs

unfoldable pub verify_function : IrFunction → ℕ
unfolding verify_blocks
verify_function f =
    if f.is_declaration
    then problem (not (length f.blocks == 0))
    else if length f.blocks == 0
    then 1
    else verify_blocks f f.blocks

unfoldable pub verify_functions : List IrFunction → ℕ
unfolding verify_function
verify_functions [] = 0
verify_functions (f ∷ fs) = verify_function f + verify_functions fs

unfoldable pub ir_verify : IrModule → ℕ
unfolding verify_functions
ir_verify m = verify_functions m.functions
