-- ===== src/Base/Bits.antt =====
-- A mask of low bits is a remainder, at every width.
use Prim.Native.Nat.{
  ℕ, zero, suc, ◌+◌, ◌-◌, ◌*◌, ◌/◌, ◌%◌, ◌^◌, ◌<◌, min, bit_and, digits, bit_and-bitwise,
}
use mathlib.Core.Path.{◌≡◌, refl, ap, sym, ◌∙◌}
use native.Mathlib.Nat.{pow-suc, one-le-pow}
use native.Mathlib.Omega.{arith}

-- `bit_and` by its definition: the digits of both words, on fuel.
abbrev shared : ℕ → ℕ → ℕ → ℕ
shared fuel x y = digits (λ _. 0) min fuel x y

-- Nothing is shared with the word 0, on any fuel.
shared-zero : (fuel x : ℕ) → shared fuel x 0 ≡ 0
shared-zero zero x = refl
shared-zero (suc fuel) zero = refl
shared-zero (suc fuel) (suc x) = omega (arith, shared-zero fuel (suc x / 2))

pub bit_and-zero : (x : ℕ) → bit_and x 0 ≡ 0
bit_and-zero x = bit_and-bitwise x 0 ∙ shared-zero x x

-- Beyond the word itself fuel makes no difference.
shared_enough : (x y k j : ℕ) → x < suc k → x < suc j → shared j x y ≡ shared k x y
shared_enough zero y k j _ _ = idle j ∙ sym (idle k)
  where
    idle : (fuel : ℕ) → shared fuel 0 y ≡ 0
    idle zero = refl
    idle (suc fuel) = refl
shared_enough (suc x) y (suc k) (suc j) small small' =
    let halves : shared j (suc x / 2) (y / 2) ≡ shared k (suc x / 2) (y / 2) =
      shared_enough (suc x / 2) (y / 2) k j (omega arith) (omega arith) in
    omega (arith, halves)
shared_enough (suc x) y zero j small _ = absurd (omega (arith, small))
shared_enough (suc x) y (suc k) zero _ small' = absurd (omega (arith, small'))

-- The lowest bit apart, `bit_and` works on the halves.
pub bit_and_step : (x y : ℕ) → bit_and x y ≡ min (x % 2) (y % 2) + 2 * bit_and (x / 2) (y / 2)
bit_and_step x y = by_fuel x (bit_and-bitwise x y)
  where
    half : (x : ℕ) → shared x (suc x / 2) (y / 2) ≡ bit_and (suc x / 2) (y / 2)
    half x =
        shared_enough (suc x / 2) (y / 2) (suc x / 2) x (omega arith) (omega arith)
        ∙ sym (bit_and-bitwise (suc x / 2) (y / 2))

    by_fuel :
        (x : ℕ)
        → bit_and x y ≡ shared x x y
        → bit_and x y ≡ min (x % 2) (y % 2) + 2 * bit_and (x / 2) (y / 2)
    by_fuel zero e = omega (arith, e, bit_and-bitwise 0 (y / 2))
    by_fuel (suc x) e = omega (arith, e, half x)

double-pow : (q k : ℕ) → q * 2 ^ suc k ≡ 2 * (q * 2 ^ k)
double-pow q k = omega (arith, ap (λ (t : ℕ). q * t) (pow-suc 2 k))

bit_and-split : (k q r : ℕ) → r < 2 ^ k → bit_and (q * 2 ^ k + r) (2 ^ k - 1) ≡ r
bit_and-split zero q r fits = rw bit_and-zero (omega arith)
bit_and-split (suc k) q r fits = ground (
  arith,
  bit_and_step (q * 2 ^ suc k + r) (2 ^ suc k - 1),
  double-pow q k,
  pow-suc 2 k,
  one-le-pow k 2,
  bit_and-split k q (r / 2) (omega (arith, pow-suc 2 k)),
)

-- `x & (cap - 1)` for a power of two `cap`.
pub bit_and_mask : (k a : ℕ) → bit_and a (2 ^ k - 1) ≡ a % 2 ^ k
bit_and_mask k a = ground (arith, one-le-pow k 2, bit_and-split k (a / 2 ^ k) (a % 2 ^ k))
