-- ===== src/Ir/Data.antt =====
-- Values, instructions, blocks and functions (src/ir/ir.h). The double of a constant is left out. A pointer
-- to a value or a block is its `id`. A list in C is a `List` in its order.
use slop.Base.{ℕ, List, [], ◌∷◌, Bool, true, false, Option}
use slop.Ir.Types.{IrType}

pub data IrValueKind : Type 0 where
  const_int const_fp const_null undef local global func : IrValueKind

pub record IrValue : Type 0 where
  pub id : ℕ
  pub kind : IrValueKind
  pub type : IrType
  pub ival : ℕ
  pub name : List ℕ

pub data IrOpcode : Type 0 where
  alloca load store gep : IrOpcode
  add sub mul sdiv udiv srem urem and or xor shl lshr ashr : IrOpcode
  fadd fsub fmul fdiv frem : IrOpcode
  icmp fcmp : IrOpcode
  trunc zext sext fptrunc fpext fptosi fptoui sitofp uitofp ptrtoint inttoptr : IrOpcode
  call ret br condbr unreachable : IrOpcode

pub data IrPred : Type 0 where
  icmp_eq icmp_ne icmp_slt icmp_sle icmp_sgt icmp_sge icmp_ult icmp_ule icmp_ugt icmp_uge : IrPred
  fcmp_oeq fcmp_one fcmp_olt fcmp_ole fcmp_ogt fcmp_oge : IrPred

pub data IrGepKind : Type 0 where
  gep_index gep_field : IrGepKind

-- What a call reads of its callee.
pub record Callee : Type 0 where
  pub name : List ℕ
  pub ret : IrType
  pub nparams : ℕ
  pub is_vararg : Bool

pub record IrInstr : Type 0 where
  pub op : IrOpcode
  pub result : Option IrValue
  pub args : List IrValue
  pub type_arg : Option IrType
  pub pred : IrPred
  pub gep : IrGepKind
  pub dest : Option ℕ
  pub dest2 : Option ℕ
  pub fn : Option Callee
  pub is_vararg_call : Bool

pub record IrBlock : Type 0 where
  pub id : ℕ
  pub instrs : List IrInstr

pub record IrFunction : Type 0 where
  pub name : List ℕ
  pub ret : IrType
  pub params : List IrValue
  pub is_vararg : Bool
  pub is_declaration : Bool
  pub blocks : List IrBlock

pub record IrGlobal : Type 0 where
  pub name : List ℕ
  pub type : IrType
  pub init : Option IrValue
  pub str : Option (List ℕ)
  pub is_const : Bool
  pub is_private : Bool
  pub is_external : Bool

-- The singletons of the primitive types are their constructors; `structs` are the names declared.
pub record IrModule : Type 0 where
  pub name : List ℕ
  pub globals : List IrGlobal
  pub functions : List IrFunction
  pub structs : List (List ℕ)
  pub next_string : ℕ
  pub next_id : ℕ

abbrev pub is_terminator : IrOpcode → Bool
is_terminator ret = true
is_terminator br = true
is_terminator condbr = true
is_terminator unreachable = true
is_terminator _ = false

-- Whether the last instruction is a terminator.
unfoldable pub is_terminated : List IrInstr → Bool
is_terminated [] = false
is_terminated (i ∷ []) = is_terminator i.op
is_terminated (i ∷ j ∷ is) = is_terminated (j ∷ is)

abbrev pub ir_block_is_terminated : IrBlock → Bool
ir_block_is_terminated b = is_terminated b.instrs
