-- ===== src/Support/StrView.antt =====
-- Borrowed text slices (src/support/strview.h, strview.c). A slice is the `len` bytes at `data`;
-- the comparisons are written over those bytes. No caller makes a slice of negative length.
use slop.Base.{
  ℕ, zero, suc, ◌≡◌, refl, ◌↔◌, Bool, true, false, ◌&&◌, List, [], ◌∷◌, arith, length, ◌==◌,
  bytes_eq, bytes_eq_iff,
}

abbrev pub StrView : Type 0
StrView = List ℕ

-- `memcmp(a, b, n) == 0`; a read past the end of either text differs.
pub memcmp_eq : ℕ → List ℕ → List ℕ → Bool
memcmp_eq zero a b = true
memcmp_eq (suc n) (x ∷ a) (y ∷ b) = (x == y) && memcmp_eq n a b
memcmp_eq (suc n) _ _ = false

pub memcmp_eq-bytes :
    (a b : List ℕ) → ((length a == length b) && memcmp_eq (length a) a b) ≡ bytes_eq a b
unfolding memcmp_eq
memcmp_eq-bytes [] [] = refl
memcmp_eq-bytes (x ∷ a) (y ∷ b) = ground (arith, memcmp_eq-bytes a b)
memcmp_eq-bytes [] (y ∷ b) = ground arith
memcmp_eq-bytes (x ∷ a) [] = ground arith

-- `cstr` is given without its terminator.
pub strview_eq : StrView → List ℕ → Bool
strview_eq v cstr = (length v == length cstr) && memcmp_eq (length cstr) v cstr

pub strview_eq_view : StrView → StrView → Bool
strview_eq_view a b = (length a == length b) && memcmp_eq (length a) a b

pub strview_eq_view-bytes : (a b : StrView) → strview_eq_view a b ≡ bytes_eq a b
unfolding strview_eq_view
strview_eq_view-bytes a b = memcmp_eq-bytes a b

-- Two slices compare equal exactly when their bytes agree.
pub strview_eq_view_iff : (a b : StrView) → (strview_eq_view a b ≡ true) ↔ (a ≡ b)
strview_eq_view_iff a b = rw (strview_eq_view-bytes a b) (bytes_eq_iff a b)

memcmp_eq_comm_len :
    (a b : List ℕ) → ((length a == length b) && memcmp_eq (length b) a b) ≡ bytes_eq a b
unfolding memcmp_eq
memcmp_eq_comm_len [] [] = refl
memcmp_eq_comm_len (x ∷ a) (y ∷ b) = ground (arith, memcmp_eq_comm_len a b)
memcmp_eq_comm_len [] (y ∷ b) = ground arith
memcmp_eq_comm_len (x ∷ a) [] = ground arith

pub strview_eq-bytes : (v : StrView) (cstr : List ℕ) → strview_eq v cstr ≡ bytes_eq v cstr
unfolding strview_eq
strview_eq-bytes v cstr = memcmp_eq_comm_len v cstr
