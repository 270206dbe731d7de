-- ===== src/Ir/Builder.antt =====
-- The builder (src/ir/ir.c): instructions are appended to the current block of a function. `next_id`
-- is the address of the next value or block. `finish` is what the caller of `emit` writes into the
-- instruction.
use slop.Base.{
  ℕ, ◌+◌, ◌%◌, ◌^◌, List, [], ◌∷◌, ◌++◌, Bool, true, false, ◌==◌, if◌then◌else◌, Option, none, some,
}
use slop.Lexer.Kind.{codes}
use slop.Ir.Types.{IrType, void_type, int_type, ptr_type}
use slop.Ir.Data.{
  IrValue, const_int, local, IrOpcode, IrPred, icmp_eq, gep_index, gep_field, Callee, IrInstr,
  IrBlock,
}
use slop.Ir.Names.{fmt_name}

pub record IrBuilder : Type 0 where
  pub blocks : List IrBlock
  pub block : ℕ
  pub next_temp : ℕ
  pub next_id : ℕ

-- A block behind the others.
abbrev pub ir_block_new : IrBuilder → IrBuilder × ℕ
ir_block_new b = (
  record b {
    blocks = b.blocks ++ (record { id = b.next_id; instrs = [] } ∷ []);
    next_id = b.next_id + 1;
  },
  b.next_id,
)

abbrev pub ir_builder_position : IrBuilder → ℕ → IrBuilder
ir_builder_position b block = record b { block = block }

-- The block with an address gets one more instruction.
unfoldable pub append_to : ℕ → IrInstr → List IrBlock → List IrBlock
append_to id i [] = []
append_to id i (b ∷ bs) =
    if b.id == id then record b { instrs = b.instrs ++ (i ∷ []) } ∷ bs else b ∷ append_to id i bs

-- Whether an instruction of the type has a result.
abbrev pub has_result : Option IrType → Bool
has_result none = false
has_result (some void_type) = false
has_result (some t) = true

abbrev pub result_type : Option IrType → IrType
result_type none = void_type
result_type (some t) = t

-- `%t0`, `%t1`, ...
abbrev pub temp : IrBuilder → IrType → IrValue
temp b t = record {
  id = b.next_id;
  kind = local;
  type = t;
  ival = 0;
  name = fmt_name (codes "t") b.next_temp;
}

-- The instruction before its caller fills it in.
abbrev pub blank_instr : IrBuilder → IrOpcode → Option IrType → List IrValue → IrInstr
blank_instr b op t args = record {
  op = op;
  result = if has_result t then some (temp b (result_type t)) else none;
  args = args;
  type_arg = none;
  pred = icmp_eq;
  gep = gep_index;
  dest = none;
  dest2 = none;
  fn = none;
  is_vararg_call = false;
}

unfoldable pub emit :
    IrBuilder
    → IrOpcode
    → Option IrType
    → List IrValue
    → (IrInstr → IrInstr)
    → IrBuilder × Option IrValue
unfolding append_to
emit b op t args finish =
    let i : IrInstr = finish (blank_instr b op t args) in
    (
      record b {
        blocks = append_to b.block i b.blocks;
        next_temp = if has_result t then (b.next_temp + 1) % 2 ^ 32 else b.next_temp;
        next_id = if has_result t then b.next_id + 1 else b.next_id;
      },
      i.result,
    )

-- The result gets another name, if there is one.
abbrev pub renamed : Option (List ℕ) → Option IrValue → Option IrValue
renamed none r = r
renamed (some n) none = none
renamed (some n) (some v) = some (record v { name = n })

module _ (b : IrBuilder) where
  unfoldable pub ir_build_alloca : IrType → Option (List ℕ) → IrBuilder × Option IrValue
  unfolding emit
  ir_build_alloca t name =
      emit b IrOpcode.alloca (some ptr_type) []
        (λ i. record i { type_arg = some t; result = renamed name i.result })

  unfoldable pub ir_build_load : IrType → IrValue → IrBuilder × Option IrValue
  unfolding emit
  ir_build_load t ptr =
      emit b IrOpcode.load (some t) (ptr ∷ []) (λ i. record i { type_arg = some t })

  unfoldable pub ir_build_store : IrValue → IrValue → IrBuilder
  unfolding emit
  ir_build_store val ptr =
      (emit b IrOpcode.store none (val ∷ ptr ∷ []) (λ i. record i { type_arg = some val.type })).0

  unfoldable pub ir_build_gep_index : IrType → IrValue → IrValue → IrBuilder × Option IrValue
  unfolding emit
  ir_build_gep_index elem base index =
      emit b IrOpcode.gep (some ptr_type) (base ∷ index ∷ [])
        (λ i. record i { type_arg = some elem; gep = gep_index })

  unfoldable pub ir_build_gep_field : IrType → IrValue → ℕ → IrBuilder × Option IrValue
  unfolding emit
  ir_build_gep_field st base field =
      let index : IrValue = record {
        id = b.next_id;
        kind = const_int;
        type = int_type 32;
        ival = field;
        name = [];
      } in
      emit (record b { next_id = b.next_id + 1 }) IrOpcode.gep (some ptr_type) (base ∷ index ∷ [])
        (λ i. record i { type_arg = some st; gep = gep_field })

  unfoldable pub ir_build_binary : IrOpcode → IrValue → IrValue → IrBuilder × Option IrValue
  unfolding emit
  ir_build_binary op lhs rhs = emit b op (some lhs.type) (lhs ∷ rhs ∷ []) (λ i. i)

  unfoldable pub build_cmp : IrOpcode → IrPred → IrValue → IrValue → IrBuilder × Option IrValue
  unfolding emit
  build_cmp op p lhs rhs =
      emit b op (some (int_type 1)) (lhs ∷ rhs ∷ [])
        (λ i. record i { pred = p; type_arg = some lhs.type })

  unfoldable pub ir_build_icmp : IrPred → IrValue → IrValue → IrBuilder × Option IrValue
  unfolding build_cmp
  ir_build_icmp p lhs rhs = build_cmp IrOpcode.icmp p lhs rhs

  unfoldable pub ir_build_fcmp : IrPred → IrValue → IrValue → IrBuilder × Option IrValue
  unfolding build_cmp
  ir_build_fcmp p lhs rhs = build_cmp IrOpcode.fcmp p lhs rhs

  unfoldable pub ir_build_cast : IrOpcode → IrValue → IrType → IrBuilder × Option IrValue
  unfolding emit
  ir_build_cast op v to = emit b op (some to) (v ∷ []) (λ i. record i { type_arg = some v.type })

  unfoldable pub ir_build_call : Callee → List IrValue → IrBuilder × Option IrValue
  unfolding emit
  ir_build_call callee args = emit b IrOpcode.call (some callee.ret) args (λ i. record i {
    fn = some callee;
    type_arg = some callee.ret;
    is_vararg_call = callee.is_vararg;
  })

  unfoldable pub ir_build_ret : Option IrValue → IrBuilder
  unfolding emit
  ir_build_ret none = (emit b IrOpcode.ret none [] (λ i. record i { type_arg = some void_type })).0
  ir_build_ret (some v) =
      (emit b IrOpcode.ret none (v ∷ []) (λ i. record i { type_arg = some v.type })).0

  unfoldable pub ir_build_br : ℕ → IrBuilder
  unfolding emit
  ir_build_br dest = (emit b IrOpcode.br none [] (λ i. record i { dest = some dest })).0

  unfoldable pub ir_build_condbr : IrValue → ℕ → ℕ → IrBuilder
  unfolding emit
  ir_build_condbr cond t f =
      (emit b IrOpcode.condbr none (cond ∷ []) (λ i. record i { dest = some t; dest2 = some f })).0

  unfoldable pub ir_build_unreachable : IrBuilder
  unfolding emit
  ir_build_unreachable = (emit b IrOpcode.unreachable none [] (λ i. i)).0
