-- ===== src/Ir/WellFormed.antt =====
-- A well-formed module of the IR (src/ir/ir.h), said without the verifier.
use slop.Base.{ℕ, ◌≤◌, ◌≡◌, ◌⊎◌, List, [], ◌∷◌, ◌++◌, true, false, length, Option, none, some}
use slop.Ir.Types.{
  IrType, void_type, int_type, float_type, ptr_type, array_type, struct_type, ir_type_size,
}
use slop.Ir.Data.{IrValue, IrOpcode, Callee, IrInstr, IrBlock, IrFunction, IrModule}
use slop.Ir.Same.{shape}
use slop.Ir.Verify.{arg}

abbrev pub HasBlock : List IrBlock → ℕ → Type 0
HasBlock [] target = ⊥
HasBlock (b ∷ bs) target = (b.id ≡ target) ⊎ HasBlock bs target

-- A branch target is a block of the function.
abbrev pub IsTarget : IrFunction → Option ℕ → Type 0
IsTarget f none = ⊥
IsTarget f (some target) = HasBlock f.blocks target

-- No array and no struct.
abbrev pub IsScalar : IrType → Type 0
IsScalar (array_type t n) = ⊥
IsScalar (struct_type n fs) = ⊥
IsScalar _ = Unit {0}

abbrev pub Narrower : IrInstr → Option IrType → Type 0
Narrower store none = Unit {0}
Narrower store (some slot) = IsScalar slot → ir_type_size (arg store 0).type ≤ ir_type_size slot

-- Where the destination is an `alloca` of a scalar, the value is no wider.
abbrev pub FitsSlot : IrInstr → IrInstr → Type 0
FitsSlot store alloc = alloc.op ≡ IrOpcode.alloca → Narrower store alloc.type_arg

-- The value is the result of the instruction.
abbrev pub Defines : IrInstr → ℕ → Type 0
Defines i val = (r : IrValue) × (i.result ≡ some r) × (r.id ≡ val)

-- The first instruction that has the value as its result, where there is one, satisfies `P`.
abbrev pub First : List IrInstr → ℕ → (IrInstr → Type 0) → Type 0
First [] val P = Unit {0}
First (i ∷ is) val P = (Defines i val → P i) × (¬ Defines i val → First is val P)

-- The instructions of a function, block by block.
abbrev pub instrs_of : List IrBlock → List IrInstr
instrs_of [] = []
instrs_of (b ∷ bs) = b.instrs ++ instrs_of bs

abbrev pub Returns : IrFunction → IrInstr → Type 0
Returns f i =
    ((length i.args ≡ 0) × (f.ret ≡ void_type))
    ⊎ ((1 ≤ length i.args) × (shape (arg i 0).type ≡ shape f.ret))

abbrev pub Calls : IrInstr → Option Callee → Type 0
Calls i none = ⊥
Calls i (some fn) =
    ((fn.is_vararg ≡ false) × (length i.args ≡ fn.nparams))
    ⊎ ((fn.is_vararg ≡ true) × (fn.nparams ≤ length i.args))

-- The first two operands are integers of one type.
abbrev pub AreIntegers : IrInstr → Type 0
AreIntegers i =
    (shape (arg i 0).type ≡ shape (arg i 1).type) × ((bits : ℕ) × ((arg i 0).type ≡ int_type bits))

abbrev pub IsFloat : IrInstr → Type 0
IsFloat i = (bits : ℕ) × ((arg i 0).type ≡ float_type bits)

abbrev pub AreSame : IrInstr → Type 0
AreSame i = shape (arg i 0).type ≡ shape (arg i 1).type

-- An instruction whose operands have the types that its opcode asks for. Conversions, allocations
-- and `unreachable` ask for none.
abbrev pub IsTyped : IrOpcode → IrFunction → IrInstr → Type 0
IsTyped IrOpcode.store f i =
    ((arg i 1).type ≡ ptr_type) × First (instrs_of f.blocks) (arg i 1).id (FitsSlot i)
IsTyped IrOpcode.load f i = (arg i 0).type ≡ ptr_type
IsTyped IrOpcode.gep f i = (arg i 0).type ≡ ptr_type
IsTyped IrOpcode.add f i = AreIntegers i
IsTyped IrOpcode.sub f i = AreIntegers i
IsTyped IrOpcode.mul f i = AreIntegers i
IsTyped IrOpcode.sdiv f i = AreIntegers i
IsTyped IrOpcode.udiv f i = AreIntegers i
IsTyped IrOpcode.srem f i = AreIntegers i
IsTyped IrOpcode.urem f i = AreIntegers i
IsTyped IrOpcode.and f i = AreIntegers i
IsTyped IrOpcode.or f i = AreIntegers i
IsTyped IrOpcode.xor f i = AreIntegers i
IsTyped IrOpcode.shl f i = AreIntegers i
IsTyped IrOpcode.lshr f i = AreIntegers i
IsTyped IrOpcode.ashr f i = AreIntegers i
IsTyped IrOpcode.fadd f i = IsFloat i
IsTyped IrOpcode.fsub f i = IsFloat i
IsTyped IrOpcode.fmul f i = IsFloat i
IsTyped IrOpcode.fdiv f i = IsFloat i
IsTyped IrOpcode.frem f i = IsFloat i
IsTyped IrOpcode.icmp f i = AreSame i
IsTyped IrOpcode.fcmp f i = AreSame i
IsTyped IrOpcode.condbr f i =
    ((arg i 0).type ≡ int_type 1) × (IsTarget f i.dest × IsTarget f i.dest2)
IsTyped IrOpcode.br f i = IsTarget f i.dest
IsTyped IrOpcode.ret f i = Returns f i
IsTyped IrOpcode.call f i = Calls i i.fn
IsTyped _ f i = Unit {0}

-- The opcodes that end a block.
abbrev pub IsEnd : IrOpcode → Type 0
IsEnd IrOpcode.ret = Unit {0}
IsEnd IrOpcode.br = Unit {0}
IsEnd IrOpcode.condbr = Unit {0}
IsEnd IrOpcode.unreachable = Unit {0}
IsEnd _ = ⊥

abbrev pub AllTyped : IrFunction → List IrInstr → Type 0
AllTyped f [] = Unit {0}
AllTyped f (i ∷ is) = IsTyped i.op f i × AllTyped f is

abbrev pub Straight : List IrInstr → Type 0
Straight [] = Unit {0}
Straight (i ∷ is) = (¬ IsEnd i.op) × Straight is

-- Straight-line instructions and one terminator behind them.
pub record IsBlock (f : IrFunction) (is : List IrInstr) : Type 0 where
  pub body : List IrInstr
  pub end : IrInstr
  pub split : is ≡ body ++ (end ∷ [])
  pub straight : Straight body
  pub terminator : IsEnd end.op
  pub typed : AllTyped f is

abbrev pub AllBlocks : IrFunction → List IrBlock → Type 0
AllBlocks f [] = Unit {0}
AllBlocks f (b ∷ bs) = IsBlock f b.instrs × AllBlocks f bs

-- A declaration has no body; a definition has blocks, each of them well formed.
abbrev pub IsFunction : IrFunction → Type 0
IsFunction f =
    ((f.is_declaration ≡ true) × (f.blocks ≡ []))
    ⊎ ((f.is_declaration ≡ false) × ((1 ≤ length f.blocks) × AllBlocks f f.blocks))

abbrev pub AllFunctions : List IrFunction → Type 0
AllFunctions [] = Unit {0}
AllFunctions (f ∷ fs) = IsFunction f × AllFunctions fs

abbrev pub IsModule : IrModule → Type 0
IsModule m = AllFunctions m.functions
