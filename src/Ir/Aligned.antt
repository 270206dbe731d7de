-- ===== src/Ir/Aligned.antt =====
-- Sizes and alignments (src/ir/ir.c, `ir_type_size`, `ir_type_align`).
use Prim.Native.Nat.{bit_and}
use slop.Base.{
  ℕ, ◌+◌, ◌-◌, ◌*◌, ◌/◌, ◌%◌, ◌^◌, ◌<◌, ◌≡◌, ◌⊎◌, inl, inr, refl, ap, sym, arith, if_both, ltb,
}
use slop.Base.Bits.{bit_and_step, bit_and_mask}
use slop.Ir.Types.{
  IrType, IrTypes, void_type, int_type, float_type, ptr_type, array_type, struct_type, no_fields,
  field, align_up32, ir_type_align, widest, ir_type_size, fields_end,
}

-- The alignments that the widths of the language have.
abbrev IsAlign : ℕ → Type 0
IsAlign a = (a ≡ 1) ⊎ ((a ≡ 4) ⊎ (a ≡ 8))

-- A type of the widths that the language has.
abbrev mutual
  pub IsSized : IrType → Type 0
  IsSized void_type = Unit {0}
  IsSized (int_type bits) = (bits ≡ 1) ⊎ ((bits ≡ 8) ⊎ ((bits ≡ 32) ⊎ (bits ≡ 64)))
  IsSized (float_type bits) = (bits ≡ 32) ⊎ (bits ≡ 64)
  IsSized ptr_type = Unit {0}
  IsSized (array_type t n) = IsSized t
  IsSized (struct_type n fs) = AllSized fs

  pub AllSized : IrTypes → Type 0
  AllSized no_fields = Unit {0}
  AllSized (field t fs) = IsSized t × AllSized fs

clear_two : (x : ℕ) → x < 2 ^ 32 → bit_and x (2 ^ 32 - 4) ≡ x / 4 * 4
clear_two x h = omega (
  arith,
  bit_and_step x (2 ^ 32 - 4),
  bit_and_step (x / 2) (2 ^ 31 - 2),
  bit_and_mask 30 (x / 2 / 2),
)

clear_three : (x : ℕ) → x < 2 ^ 32 → bit_and x (2 ^ 32 - 8) ≡ x / 8 * 8
clear_three x h = omega (
  arith,
  bit_and_step x (2 ^ 32 - 8),
  bit_and_step (x / 2) (2 ^ 31 - 4),
  bit_and_step (x / 2 / 2) (2 ^ 30 - 2),
  bit_and_mask 29 (x / 2 / 2 / 2),
)

align_up32-multiple : (n a : ℕ) → IsAlign a → align_up32 n a % a ≡ 0
unfolding align_up32
align_up32-multiple n a (inl e) = rw e (omega arith)
align_up32-multiple n a (inr (inl e)) =
    rw e (omega (arith, clear_two ((n + 4 - 1) % 2 ^ 32) (omega arith)))
align_up32-multiple n a (inr (inr e)) =
    rw e (omega (arith, clear_three ((n + 8 - 1) % 2 ^ 32) (omega arith)))

mutual
  unfolding ir_type_align

  ir_type_align-IsAlign : (t : IrType) → IsSized t → IsAlign (ir_type_align t)
  ir_type_align-IsAlign void_type s = inl refl
  ir_type_align-IsAlign (int_type bits) (inl e) = rw e (inl refl)
  ir_type_align-IsAlign (int_type bits) (inr (inl e)) = rw e (inl refl)
  ir_type_align-IsAlign (int_type bits) (inr (inr (inl e))) = rw e (inr (inl refl))
  ir_type_align-IsAlign (int_type bits) (inr (inr (inr e))) = rw e (inr (inr refl))
  ir_type_align-IsAlign (float_type bits) (inl e) = rw e (inr (inl refl))
  ir_type_align-IsAlign (float_type bits) (inr e) = rw e (inr (inr refl))
  ir_type_align-IsAlign ptr_type s = inr (inr refl)
  ir_type_align-IsAlign (array_type t n) s = ir_type_align-IsAlign t s
  ir_type_align-IsAlign (struct_type n fs) s = widest-IsAlign 1 fs s (inl refl)

  widest-IsAlign : (a : ℕ) (fs : IrTypes) → AllSized fs → IsAlign a → IsAlign (widest a fs)
  widest-IsAlign a no_fields s h = h
  widest-IsAlign a (field t fs) s h =
      widest-IsAlign _ fs (s.1)
        (if_both IsAlign (ltb a (ir_type_align t)) (λ _. ir_type_align-IsAlign t (s.0)) (λ _. h))

-- A multiple of an alignment, taken any number of times in 32 bits, is one.
times-multiple : (n s a : ℕ) → IsAlign a → s % a ≡ 0 → ((n * s) % 2 ^ 32) % a ≡ 0
times-multiple n s a (inl e) h = rw e (omega arith)
times-multiple n s a (inr (inl e)) h =
    let four : s % 4 ≡ 0 = rw (sym e) h in
    let parts : s ≡ 4 * (s / 4) = omega arith in rw e (omega (arith, ap (λ (x : ℕ). n * x) parts))
times-multiple n s a (inr (inr e)) h =
    let eight : s % 8 ≡ 0 = rw (sym e) h in
    let parts : s ≡ 8 * (s / 8) = omega arith in rw e (omega (arith, ap (λ (x : ℕ). n * x) parts))

-- The size of a type of the widths that the language has is a multiple of its alignment, whatever
-- wraps in 32 bits.
pub ir_type_size-ir_type_align : (t : IrType) → IsSized t → ir_type_size t % ir_type_align t ≡ 0
unfolding ir_type_size ir_type_align
ir_type_size-ir_type_align void_type s = refl
ir_type_size-ir_type_align (int_type bits) (inl e) = rw e refl
ir_type_size-ir_type_align (int_type bits) (inr (inl e)) = rw e refl
ir_type_size-ir_type_align (int_type bits) (inr (inr (inl e))) = rw e refl
ir_type_size-ir_type_align (int_type bits) (inr (inr (inr e))) = rw e refl
ir_type_size-ir_type_align (float_type bits) (inl e) = rw e refl
ir_type_size-ir_type_align (float_type bits) (inr e) = rw e refl
ir_type_size-ir_type_align ptr_type s = refl
ir_type_size-ir_type_align (array_type t n) s =
    times-multiple (n % 2 ^ 32) (ir_type_size t) (ir_type_align t) (ir_type_align-IsAlign t s)
      (ir_type_size-ir_type_align t s)
ir_type_size-ir_type_align (struct_type n fs) s =
    align_up32-multiple (fields_end 0 fs) (widest 1 fs) (widest-IsAlign 1 fs s (inl refl))
