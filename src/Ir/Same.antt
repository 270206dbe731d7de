-- ===== src/Ir/Same.antt =====
-- `types_equal` (src/ir/ir.c), said without it.
use slop.Base.{◌≡◌, ◌↔◌, refl, ap, ◌∙◌, true, ◌==◌, and_split, bytes_eq_refl, bytes_eq_iff, arith}
use slop.Ir.Types.{
  IrType, void_type, int_type, float_type, ptr_type, array_type, struct_type, no_fields,
  types_equal,
}

-- A type with the bodies of its structs forgotten: a struct is its name.
abbrev pub shape : IrType → IrType
shape (array_type t n) = array_type (shape t) n
shape (struct_type n fs) = struct_type n no_fields
shape t = t

types_equal-shape : (s t : IrType) → types_equal s t ≡ types_equal (shape s) (shape t)
unfolding types_equal
types_equal-shape (array_type s m) (array_type t n) = rw (types_equal-shape s t) refl
types_equal-shape (array_type s m) _ = refl
types_equal-shape void_type (array_type t n) = refl
types_equal-shape void_type _ = refl
types_equal-shape (int_type b) (array_type t n) = refl
types_equal-shape (int_type b) _ = refl
types_equal-shape (float_type b) (array_type t n) = refl
types_equal-shape (float_type b) _ = refl
types_equal-shape ptr_type (array_type t n) = refl
types_equal-shape ptr_type _ = refl
types_equal-shape (struct_type a fs) (array_type t n) = refl
types_equal-shape (struct_type a fs) _ = refl

types_equal_refl : (t : IrType) → types_equal t t ≡ true
unfolding types_equal
types_equal_refl void_type = refl
types_equal_refl (int_type b) = ground arith
types_equal_refl (float_type b) = ground arith
types_equal_refl ptr_type = refl
types_equal_refl (array_type t n) = rw (types_equal_refl t) (ground arith)
types_equal_refl (struct_type n fs) = bytes_eq_refl n

same_shape : (s t : IrType) → types_equal s t ≡ true → shape s ≡ shape t
unfolding types_equal
same_shape void_type void_type h = refl
same_shape (int_type a) (int_type b) h = ap int_type (ground (arith, h))
same_shape (float_type a) (float_type b) h = ap float_type (ground (arith, h))
same_shape ptr_type ptr_type h = refl
same_shape (array_type s m) (array_type t n) h =
    let (a, b) = and_split (m == n) (types_equal s t) h in
    let lengths : m ≡ n = ground (arith, a) in rw (same_shape s t b, lengths) refl
same_shape (struct_type a fs) (struct_type b gs) h =
    ap (λ n. struct_type n no_fields) ((bytes_eq_iff a b).0 h)
same_shape _ _ h = cc

-- Two types compare equal exactly when they are the same with the bodies of structs forgotten.
pub types_equal_iff : (s t : IrType) → (types_equal s t ≡ true) ↔ (shape s ≡ shape t)
types_equal_iff s t = (
  same_shape s t,
  λ e. types_equal-shape s t ∙ (ap (λ u. types_equal u (shape t)) e ∙ types_equal_refl (shape t)),
)
