-- ===== src/Ir/Operands.antt =====
-- The operands of one instruction (src/ir/ir.c, `verify_instr`): what passes is well formed.
use slop.Base.{
  ℕ, sym, ◌≤◌, ◌≡◌, ◌↔◌, refl, ap, List, [], ◌∷◌, true, false, not, length, if◌then◌else◌, Option,
  none, some, Bool, arith, if_both, ◌==◌, inl, inr, ltb, ◌+◌, ◌||◌, Bool-cases,
}
use slop.Ir.Types.{
  IrType, void_type, int_type, float_type, ptr_type, array_type, struct_type, ir_type_size,
  types_equal,
}
use slop.Ir.Data.{IrOpcode, Callee, IrInstr, IrBlock, IrFunction, is_terminator}
use slop.Ir.Verify.{
  arg, is_ptr, is_aggregate, is_alloca, problem, Check, stored, accessed, integer, floating,
  compared, chosen, jumped, returned, called, unchecked, is_int, is_float, is_i1, is_void, block_in,
  block_in_function, verify_slot_store, too_wide, slot_problem, verify_ret, verify_call,
  verify_check, check_of, defining_instr, find_block,
}
use slop.Ir.Same.{shape, types_equal_iff}
use mathlib.Core.Path.{subst}
use slop.Ir.WellFormed.{
  IsScalar, First, instrs_of, HasBlock, IsTarget, Narrower, FitsSlot, Returns, Calls, IsTyped,
  IsEnd, AreIntegers, IsFloat, AreSame,
}
use slop.Ir.Slot.{Found, first_iff, find_block-instrs_of}

ptr-only : (t : IrType) → problem (not (is_ptr t)) ≡ 0 → t ≡ ptr_type
ptr-only void_type h = cc
ptr-only (int_type b) h = cc
ptr-only (float_type b) h = cc
ptr-only ptr_type h = refl
ptr-only (array_type u n) h = cc
ptr-only (struct_type n fs) h = cc

int-only : (t : IrType) → problem (not (is_int t)) ≡ 0 → (bits : ℕ) × (t ≡ int_type bits)
int-only void_type h = cc
int-only (int_type b) h = (b, refl)
int-only (float_type b) h = cc
int-only ptr_type h = cc
int-only (array_type u n) h = cc
int-only (struct_type n fs) h = cc

float-only : (t : IrType) → problem (not (is_float t)) ≡ 0 → (bits : ℕ) × (t ≡ float_type bits)
float-only void_type h = cc
float-only (int_type b) h = cc
float-only (float_type b) h = (b, refl)
float-only ptr_type h = cc
float-only (array_type u n) h = cc
float-only (struct_type n fs) h = cc

i1-only : (t : IrType) → problem (not (is_i1 t)) ≡ 0 → t ≡ int_type 1
i1-only void_type h = cc
i1-only (int_type b) h = ap int_type (ground (arith, h))
i1-only (float_type b) h = cc
i1-only ptr_type h = cc
i1-only (array_type u n) h = cc
i1-only (struct_type n fs) h = cc

void-only : (t : IrType) → problem (not (is_void t)) ≡ 0 → t ≡ void_type
void-only void_type h = refl
void-only (int_type b) h = cc
void-only (float_type b) h = cc
void-only ptr_type h = cc
void-only (array_type u n) h = cc
void-only (struct_type n fs) h = cc

problem-true : (b : Bool) → problem (not b) ≡ 0 → b ≡ true
problem-true true h = refl
problem-true false h = cc

same-only : (s t : IrType) → problem (not (types_equal s t)) ≡ 0 → shape s ≡ shape t
same-only s t h = (types_equal_iff s t).0 (problem-true _ h)

block_in_iff : (bs : List IrBlock) (target : ℕ) → (block_in bs target ≡ true) ↔ HasBlock bs target
unfolding block_in
block_in_iff [] target = (λ h. cc, λ h. elim h [ ])
block_in_iff (b ∷ bs) target =
    let rest = block_in_iff bs target in
    if_both (λ x. (x ≡ true) ↔ HasBlock (b ∷ bs) target) (b.id == target)
      (λ e. (λ _. inl (ground (arith, e)), λ _. refl))
      (λ e. (
        λ h. inr (rest.0 h),
        λ h. elim h [ inl same ↦ absurd (ground (arith, e, same)) | inr more ↦ rest.1 more ],
      ))

block_in_function_iff :
    (f : IrFunction) (target : Option ℕ) → (block_in_function f target ≡ true) ↔ IsTarget f target
unfolding block_in_function
block_in_function_iff f none = (λ h. cc, λ h. elim h [ ])
block_in_function_iff f (some target) = block_in_iff f.blocks target

wider_iff :
    (b : Bool) (m n : ℕ) → (problem (if b then false else ltb m n) ≡ 0) ↔ (b ≡ false → n ≤ m)
wider_iff true m n = (λ h e. cc, λ _. refl)
wider_iff false m n = (λ h _. ground (arith, h), λ k. ground (arith, k refl))

alloca_iff : (op : IrOpcode) → (is_alloca op ≡ true) ↔ (op ≡ IrOpcode.alloca)
alloca_iff IrOpcode.alloca = (λ _. refl, λ _. refl)
alloca_iff _ = (λ h. cc, λ e. cc)

scalar_iff : (t : IrType) → (is_aggregate t ≡ false) ↔ IsScalar t
scalar_iff (array_type t n) = (λ h. cc, λ h. elim h [ ])
scalar_iff (struct_type n fs) = (λ h. cc, λ h. elim h [ ])
scalar_iff void_type = (λ _. tt, λ _. refl)
scalar_iff _ = (λ _. tt, λ _. refl)

guard_iff :
    (b : Bool) (n : ℕ) {X : Type 0}
    → ((n ≡ 0) ↔ X)
    → ((if not b then 0 else n) ≡ 0) ↔ (b ≡ true → X)
guard_iff true n w = (λ h _. w.0 h, λ k. w.1 (k refl))
guard_iff false n w = (λ h e. absurd (true-false e), λ _. refl)
  where
    true-false : false ≡ true → ⊥
    true-false e = cc

narrower_iff :
    (store : IrInstr) (s : Option IrType) → (problem (too_wide store s) ≡ 0) ↔ Narrower store s
unfolding too_wide
narrower_iff store none = (λ _. tt, λ _. refl)
narrower_iff store (some slot) =
    let w = wider_iff (is_aggregate slot) (ir_type_size slot) (ir_type_size (arg store 0).type) in
    let s = scalar_iff slot in (λ h x. w.0 h (s.1 x), λ k. w.1 (λ e. k (s.0 e)))

slot_iff :
    (store : IrInstr) (o : Option IrInstr) → (slot_problem store o ≡ 0) ↔ Found (FitsSlot store) o
unfolding slot_problem
slot_iff store none = (λ _. tt, λ _. refl)
slot_iff store (some alloc) =
    let g =
      guard_iff (is_alloca alloc.op) (problem (too_wide store alloc.type_arg))
        (narrower_iff store alloc.type_arg) in
    let a = alloca_iff alloc.op in (λ h x. g.0 h (a.1 x), λ k. g.1 (λ e. k (a.0 e)))

store_iff :
    (f : IrFunction) (i : IrInstr)
    → (verify_slot_store f i ≡ 0) ↔ First (instrs_of f.blocks) (arg i 1).id (FitsSlot i)
unfolding verify_slot_store defining_instr
store_iff f i =
    let e = find_block-instrs_of f.blocks (arg i 1).id in
    let s = slot_iff i (find_block f.blocks (arg i 1).id) in
    let w = first_iff (FitsSlot i) (instrs_of f.blocks) (arg i 1).id in
    (
      λ h. w.0 (subst (Found (FitsSlot i)) e (s.0 h)),
      λ h. s.1 (subst (Found (FitsSlot i)) (sym e) (w.1 h)),
    )

pub branch_iff :
    (b : Bool) (m n : ℕ) {X : Type 0}
    → (b ≡ true → (m ≡ 0) ↔ X)
    → (b ≡ false → (n ≡ 0) ↔ X)
    → ((if b then m else n) ≡ 0) ↔ X
branch_iff true m n x y = x refl
branch_iff false m n x y = y refl

ret_iff : (f : IrFunction) (i : IrInstr) → (verify_ret f i ≡ 0) ↔ Returns f i
unfolding verify_ret
ret_iff f i =
    branch_iff (length i.args == 0) _ _
      (λ e. (
        λ h. inl (ground (arith, e), void-only f.ret h),
        λ h. elim h [ inl x ↦ rw (x.1) refl | inr x ↦ absurd (ground (arith, e, x.0)) ],
      ))
      (λ e. (
        λ h. inr (ground (arith, e), same-only _ _ h),
        λ h. elim h [
          | inl x ↦ absurd (ground (arith, e, x.0))
          | inr x ↦ rw ((types_equal_iff _ _).1 (x.1)) refl
        ],
      ))

call_iff : (i : IrInstr) (fn : Option Callee) → (verify_call i fn ≡ 0) ↔ Calls i fn
unfolding verify_call
call_iff i none = (λ h. cc, λ h. elim h [ ])
call_iff i (some fn) = by_vararg fn.is_vararg refl
  where
    by_vararg : (b : Bool) → fn.is_vararg ≡ b → (verify_call i (some fn) ≡ 0) ↔ Calls i (some fn)
    by_vararg true e = (
      λ h. inr (e, ground (arith, e, h)),
      λ h. elim h [ inl x ↦ cc | inr x ↦ ground (arith, e, x.1) ],
    )
    by_vararg false e = (
      λ h. inl (e, ground (arith, e, h)),
      λ h. elim h [ inl x ↦ ground (arith, e, x.1) | inr x ↦ cc ],
    )

pub both-zero : (m n : ℕ) → m + n ≡ 0 → (m ≡ 0) × (n ≡ 0)
both-zero m n h = (omega (arith, h), omega (arith, h))

either_false : (a b : Bool) → problem (not a || not b) ≡ 0 → (a ≡ true) × (b ≡ true)
either_false true true h = (refl, refl)
either_false true false h = cc
either_false false b h = cc

-- What a group of the switch asks for.
abbrev Passes : Check → IrFunction → IrInstr → Type 0
Passes stored f i =
    ((arg i 1).type ≡ ptr_type) × First (instrs_of f.blocks) (arg i 1).id (FitsSlot i)
Passes accessed f i = (arg i 0).type ≡ ptr_type
Passes integer f i = AreIntegers i
Passes floating f i = IsFloat i
Passes compared f i = AreSame i
Passes chosen f i = ((arg i 0).type ≡ int_type 1) × (IsTarget f i.dest × IsTarget f i.dest2)
Passes jumped f i = IsTarget f i.dest
Passes returned f i = Returns f i
Passes called f i = Calls i i.fn
Passes unchecked f i = Unit {0}

typed : (c : Check) (f : IrFunction) (i : IrInstr) → verify_check c f i ≡ 0 → Passes c f i
unfolding verify_check
typed stored f i h = let (a, b) = both-zero _ _ h in (ptr-only _ a, (store_iff f i).0 b)
typed accessed f i h = ptr-only _ h
typed integer f i h = let (a, b) = both-zero _ _ h in (same-only _ _ a, int-only _ b)
typed floating f i h = float-only _ h
typed compared f i h = same-only _ _ h
typed chosen f i h =
    let (a, b) = both-zero _ _ h in
    let (c, d) = either_false _ _ b in
    (i1-only _ a, ((block_in_function_iff f i.dest).0 c, (block_in_function_iff f i.dest2).0 d))
typed jumped f i h = (block_in_function_iff f i.dest).0 (problem-true _ h)
typed returned f i h = (ret_iff f i).0 h
typed called f i h = (call_iff i i.fn).0 h
typed unchecked f i h = tt

untyped : (c : Check) (f : IrFunction) (i : IrInstr) → Passes c f i → verify_check c f i ≡ 0
unfolding verify_check
untyped stored f i h = rw (h.0, (store_iff f i).1 (h.1)) refl
untyped accessed f i h = rw h refl
untyped integer f i h = rw ((types_equal_iff _ _).1 h.0, h.1.1) refl
untyped floating f i h = rw (h.1) refl
untyped compared f i h = rw ((types_equal_iff _ _).1 h) refl
untyped chosen f i h =
    rw
      (h.0, (block_in_function_iff f i.dest).1 (h.1.0), (block_in_function_iff f i.dest2).1 (h.1.1))
      refl
untyped jumped f i h = rw ((block_in_function_iff f i.dest).1 h) refl
untyped returned f i h = (ret_iff f i).1 h
untyped called f i h = (call_iff i i.fn).1 h
untyped unchecked f i h = refl

-- One instruction passes exactly where it is typed by its opcode.
pub instr_iff :
    (op : IrOpcode) (f : IrFunction) (i : IrInstr)
    → (verify_check (check_of op) f i ≡ 0) ↔ IsTyped op f i
instr_iff IrOpcode.alloca f i = (typed unchecked f i, untyped unchecked f i)
instr_iff other f i = (typed (check_of other) f i, untyped (check_of other) f i)

pub is_terminator_iff : (op : IrOpcode) → (is_terminator op ≡ true) ↔ IsEnd op
is_terminator_iff IrOpcode.ret = (λ h. tt, λ h. refl)
is_terminator_iff IrOpcode.br = (λ h. tt, λ h. refl)
is_terminator_iff IrOpcode.condbr = (λ h. tt, λ h. refl)
is_terminator_iff IrOpcode.unreachable = (λ h. tt, λ h. refl)
is_terminator_iff _ = (λ h. cc, λ h. elim h [ ])

pub is_terminator-none : (op : IrOpcode) → is_terminator op ≡ false → ¬ IsEnd op
is_terminator-none op e h = cc ((is_terminator_iff op).1 h, e)

pub is_terminator-absent : (op : IrOpcode) → ¬ IsEnd op → is_terminator op ≡ false
is_terminator-absent op h = elim (Bool-cases (is_terminator op)) [
  | inl e ↦ absurd (h ((is_terminator_iff op).0 e))
  | inr e ↦ e
]
