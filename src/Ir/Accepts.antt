-- ===== src/Ir/Accepts.antt =====
-- What the verifier accepts (src/ir/ir.c, `ir_verify`).
use slop.Base.{
  ◌≡◌, ◌↔◌, refl, ap, List, [], ◌∷◌, ◌++◌, true, false, length, Bool, arith, ◌==◌, inl, inr, sym,
  suc,
}
use mathlib.Core.Path.{subst}
use slop.Ir.Data.{IrInstr, IrBlock, IrFunction, IrModule, is_terminator}
use slop.Ir.Verify.{verify_instrs, verify_blocks, verify_function, verify_functions, ir_verify}
use slop.Ir.WellFormed.{
  IsTyped, AllTyped, Straight, AllBlocks, IsFunction, IsModule, AllFunctions, IsBlock, IsEnd,
}
use slop.Ir.Operands.{
  branch_iff, both-zero, instr_iff, is_terminator_iff, is_terminator-none, is_terminator-absent,
}

one_zero : suc 0 ≡ 0 → ⊥
one_zero e = omega (arith, e)

-- A block whose instructions pass from an open start.
instrs-IsBlock : (f : IrFunction) (is : List IrInstr) → verify_instrs f false is ≡ 0 → IsBlock f is
unfolding verify_instrs
instrs-IsBlock f [] h = cc
instrs-IsBlock f (i ∷ is) h =
    let (a, b) = both-zero _ _ h in
    by_end (is_terminator i.op) refl is b ((instr_iff i.op f i).0 a) (λ x. instrs-IsBlock f is x)
  where
    by_end :
        (b : Bool)
        → is_terminator i.op ≡ b
        → (js : List IrInstr) → verify_instrs f (is_terminator i.op) js ≡ 0
        → IsTyped i.op f i
        → (verify_instrs f false js ≡ 0 → IsBlock f js)
        → IsBlock f (i ∷ js)
    by_end true e [] h t k = record {
      body = [];
      end = i;
      split = refl;
      straight = tt;
      terminator = (is_terminator_iff i.op).0 e;
      typed = (t, tt);
    }
    by_end true e (j ∷ js) h t k =
        absurd (one_zero (subst (λ b. verify_instrs f b (j ∷ js) ≡ 0) e h))
    by_end false e js h t k =
        let r = k (subst (λ b. verify_instrs f b js ≡ 0) e h) in
        record {
          body = i ∷ r.body;
          end = r.end;
          split = ap (λ x. i ∷ x) r.split;
          straight = (is_terminator-none i.op e, r.straight);
          terminator = r.terminator;
          typed = (t, r.typed);
        }

verify_instrs-blocks :
    (f : IrFunction) (body : List IrInstr) (end : IrInstr)
    → Straight body
    → IsEnd end.op
    → AllTyped f (body ++ (end ∷ []))
    → verify_instrs f false (body ++ (end ∷ [])) ≡ 0
unfolding verify_instrs
verify_instrs-blocks f [] end s t w =
    rw ((instr_iff end.op f end).1 (w.0), (is_terminator_iff end.op).1 t) refl
verify_instrs-blocks f (i ∷ body) end s t w =
    let rest = verify_instrs-blocks f body end (s.1) t (w.1) in
    rw ((instr_iff i.op f i).1 (w.0), is_terminator-absent i.op (s.0)) (omega (arith, rest))

pub verify_instrs_iff :
    (f : IrFunction) (is : List IrInstr) → (verify_instrs f false is ≡ 0) ↔ IsBlock f is
verify_instrs_iff f is = (
  instrs-IsBlock f is,
  λ b.
      subst (λ js. verify_instrs f false js ≡ 0) (sym b.split)
        (verify_instrs-blocks f b.body b.end b.straight b.terminator
          (subst (AllTyped f) b.split b.typed)),
)

verify_blocks_iff : (f : IrFunction) (bs : List IrBlock) → (verify_blocks f bs ≡ 0) ↔ AllBlocks f bs
unfolding verify_blocks
verify_blocks_iff f [] = (λ _. tt, λ _. refl)
verify_blocks_iff f (b ∷ bs) =
    let w = verify_instrs_iff f b.instrs in
    let ws = verify_blocks_iff f bs in
    (λ h. let (x, y) = both-zero _ _ h in (w.0 x, ws.0 y), λ h. rw (w.1 (h.0), ws.1 (h.1)) refl)

no_blocks : (bs : List IrBlock) → length bs ≡ 0 → bs ≡ []
no_blocks [] h = refl
no_blocks (b ∷ bs) h = absurd (omega (arith, h))

verify_function_iff : (f : IrFunction) → (verify_function f ≡ 0) ↔ IsFunction f
unfolding verify_function
verify_function_iff f =
    branch_iff f.is_declaration _ _
      (λ d. (
        λ h. inl (d, no_blocks f.blocks (ground (arith, h))),
        λ h. elim h [ inl x ↦ rw (x.1) refl | inr x ↦ absurd (cc) ],
      ))
      (λ d.
        branch_iff (length f.blocks == 0) _ _
          (λ e. (
            λ h. absurd (one_zero h),
            λ h. elim h [ inl x ↦ cc | inr x ↦ absurd (ground (arith, e, x.1.0)) ],
          ))
          (λ e. (
            λ h. inr (d, (ground (arith, e), (verify_blocks_iff f f.blocks).0 h)),
            λ h. elim h [ inl x ↦ cc | inr x ↦ (verify_blocks_iff f f.blocks).1 (x.1.1) ],
          )))

verify_functions_iff : (fs : List IrFunction) → (verify_functions fs ≡ 0) ↔ AllFunctions fs
unfolding verify_functions
verify_functions_iff [] = (λ _. tt, λ _. refl)
verify_functions_iff (f ∷ fs) =
    let w = verify_function_iff f in
    let ws = verify_functions_iff fs in
    (λ h. let (x, y) = both-zero _ _ h in (w.0 x, ws.0 y), λ h. rw (w.1 (h.0), ws.1 (h.1)) refl)

-- The verifier finds no problem exactly in the modules that are well formed: a declaration has no
-- body; a definition has blocks; a block is straight-line instructions and one terminator behind
-- them; the operands of an instruction have the types that its opcode asks for, a store into an
-- `alloca` of a scalar is no wider than it, branches go to blocks of the function, a return has the
-- function's type, and a call passes as many arguments as its callee takes.
pub ir_verify_iff : (m : IrModule) → (ir_verify m ≡ 0) ↔ IsModule m
unfolding ir_verify
ir_verify_iff m = verify_functions_iff m.functions
