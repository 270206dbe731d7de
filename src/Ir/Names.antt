-- ===== src/Ir/Names.antt =====
-- The names of temporaries (src/ir/ir.c, `fmt_name`): a prefix and a number in decimal. The
-- buffer of 32 bytes, which the prefixes that are used fit with room, is left out.
use slop.Base.{
  ℕ, zero, suc, ◌+◌, ◌-◌, ◌*◌, ◌/◌, ◌%◌, ◌^◌, ◌<◌, ◌≡◌, refl, ap, ◌∙◌, List, [], ◌∷◌, ◌++◌, ◌==◌,
  if◌then◌else◌, if_both, arith, length, drop,
}
use native.Mathlib.Nat.{pow-suc}

-- The digits, the last one first; a word of 32 bits has ten at most.
unfoldable pub digits_loop : ℕ → ℕ → List ℕ
digits_loop zero v = []
digits_loop (suc f) v =
    let rest = digits_loop f (v / 10) in
    let digit = 48 + v % 10 in if v / 10 == 0 then digit ∷ [] else digit ∷ rest

-- The loop that writes them in order.
unfoldable pub backwards : List ℕ → List ℕ → List ℕ
backwards [] acc = acc
backwards (d ∷ ds) acc = backwards ds (d ∷ acc)

unfoldable pub fmt_name : List ℕ → ℕ → List ℕ
unfolding digits_loop backwards
fmt_name prefix n = prefix ++ backwards (digits_loop 10 n) []

-- The number that decimal digits read as, behind `acc`.
unfoldable pub read_decimal : ℕ → List ℕ → ℕ
read_decimal acc [] = acc
read_decimal acc (c ∷ cs) = read_decimal (10 * acc + (c - 48)) cs

-- The same with the last digit first.
abbrev from_last : List ℕ → ℕ
from_last [] = 0
from_last (c ∷ cs) = (c - 48) + 10 * from_last cs

digits_loop-from_last : (f v : ℕ) → v < 10 ^ f → from_last (digits_loop f v) ≡ v
unfolding digits_loop
digits_loop-from_last zero v h = omega (arith, h)
digits_loop-from_last (suc f) v h =
    let up = pow-suc 10 f in
    let rest = digits_loop-from_last f (v / 10) (omega (arith, h, up)) in
    if_both (λ (ds : List ℕ). from_last ds ≡ v) (v / 10 == 0) (λ e. ground (arith, e))
      (λ e. omega (arith, rest))

backwards-read_decimal :
    (ds acc : List ℕ) → read_decimal 0 (backwards ds acc) ≡ read_decimal (from_last ds) acc
unfolding backwards read_decimal
backwards-read_decimal [] acc = refl
backwards-read_decimal (d ∷ ds) acc =
    backwards-read_decimal ds (d ∷ acc) ∙ ap (λ (k : ℕ). read_decimal k acc) (omega arith)

drop-prefix : (xs ys : List ℕ) → drop (length xs) (xs ++ ys) ≡ ys
drop-prefix [] ys = refl
drop-prefix (x ∷ xs) ys = drop-prefix xs ys

-- Behind its prefix the name of a 32-bit number reads as the number.
pub fmt_name-read_decimal :
    (prefix : List ℕ) (n : ℕ)
    → n < 2 ^ 32
    → read_decimal 0 (drop (length prefix) (fmt_name prefix n)) ≡ n
unfolding fmt_name read_decimal
fmt_name-read_decimal prefix n h =
    ap (λ (xs : List ℕ). read_decimal 0 xs) (drop-prefix prefix (backwards (digits_loop 10 n) []))
    ∙ (backwards-read_decimal (digits_loop 10 n) [] ∙ digits_loop-from_last 10 n (omega (arith, h)))
