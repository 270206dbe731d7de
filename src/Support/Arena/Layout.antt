-- ===== src/Support/Arena/Layout.antt =====
-- Allocations are aligned, lie inside their block and never overlap (src/support/arena.c).
use Prim.Native.Nat.{bit_and}
use slop.Base.{
  ℕ, suc, ◌+◌, ◌-◌, ◌*◌, ◌/◌, ◌%◌, ◌^◌, ◌≤◌, ◌<◌, ◌≡◌, arith, List, [], length, ◌∷◌, Bool-cases,
  if◌then◌else◌, ltb, ◌==◌, inl, inr, refl,
}
use slop.Base.Bits.{bit_and_step, bit_and_mask}
use slop.Support.Arena.{
  align_up, arena_align, need_of, Arena, make_room, arena_alloc, Block, block_new, Address,
}

-- Clearing the low four bits rounds down to a multiple of sixteen.
clear_low : (x : ℕ) → x < 2 ^ 64 → bit_and x (2 ^ 64 - 16) ≡ x / 16 * 16
clear_low x h = omega (
  arith,
  bit_and_step x (2 ^ 64 - 16),
  bit_and_step (x / 2) (2 ^ 63 - 8),
  bit_and_step (x / 2 / 2) (2 ^ 62 - 4),
  bit_and_step (x / 2 / 2 / 2) (2 ^ 61 - 2),
  bit_and_mask 60 (x / 2 / 2 / 2 / 2),
)

align_up-eq : (n : ℕ) → n < 2 ^ 64 - 16 → align_up n arena_align ≡ (n + 15) / 16 * 16
unfolding align_up
align_up-eq n h =
    let w : (n + 16 - 1) % 2 ^ 64 ≡ n + 15 = omega arith in rw w (clear_low (n + 15) (omega arith))

-- `align_up` is the least multiple of sixteen that is not below the size.
pub align_up_lem :
    (n : ℕ)
    → n < 2 ^ 64 - 16
    → (n ≤ align_up n arena_align)
      × (align_up n arena_align < n + 16)
      × (align_up n arena_align % 16 ≡ 0)
align_up_lem n h = omega (arith, align_up-eq n h)

-- An allocation takes at least its size and one unit, in units of sixteen.
pub need_of_lem :
    (n : ℕ)
    → n ≤ 2 ^ 62
    → (n ≤ need_of n) × (0 < need_of n) × (need_of n ≤ n + 16) × (need_of n % 16 ≡ 0)
unfolding need_of
need_of_lem n h = ground (arith, align_up_lem n)

-- Blocks stay far below the range of `size_t`, so that no sum wraps.
pub record IsValid (a : Arena) : Type 0 where
  pub size : a.block_size ≤ 2 ^ 62
  pub within : a.head.used ≤ a.head.cap
  pub cap : a.head.cap ≤ 2 ^ 62 + 16
  pub aligned : a.head.used % 16 ≡ 0

-- The bytes in use of the block with a number.
taken_in : List Block → ℕ → ℕ
taken_in [] b = 0
taken_in (x ∷ xs) b = if b == length xs then x.used else taken_in xs b

pub taken : Arena → ℕ → ℕ
unfolding taken_in
taken a b = taken_in (a.head ∷ a.next) b

taken_in_new : (xs : List Block) (b : ℕ) → length xs ≤ b → taken_in xs b ≡ 0
unfolding taken_in
taken_in_new [] b h = refl
taken_in_new (x ∷ xs) b h = ground (arith, taken_in_new xs b)

-- Room is made by a fresh block, and all blocks keep what they hold.
pub record Roomy (a r : Arena) (need : ℕ) : Type 0 where
  pub valid : IsValid r
  pub fits : r.head.used + need ≤ r.head.cap
  pub start : r.head.used ≡ taken a (length r.next)
  pub kept : (b : ℕ) → taken r b ≡ taken a b

make_room-Roomy :
    (a : Arena) (need : ℕ) → IsValid a → need ≤ 2 ^ 62 + 16 → Roomy a (make_room a need) need
unfolding make_room block_new taken
make_room-Roomy a need v h = elim (Bool-cases (ltb a.head.cap ((a.head.used + need) % 2 ^ 64))) [
  | inl over ↦ rw over (record {
    valid = ground arith;
    fits = ground arith;
    start = ground (arith, taken_in_new (a.head ∷ a.next) (suc (length a.next)));
    kept = λ b. ground (arith, taken_in_new (a.head ∷ a.next) b);
  })
  | inr under ↦
      rw under (record { valid = v; fits = ground arith; start = ground arith; kept = λ b. refl })
]

-- What one allocation does: its bytes begin where its block's used part ended, they are aligned
-- and lie inside the block, and the used part of no other block moves.
pub record Allocates (a : Arena) (size : ℕ) (r : Arena × Address) : Type 0 where
  pub valid : IsValid r.0
  pub aligned : r.1.offset % 16 ≡ 0
  pub here : r.1.block ≡ length r.0.next
  pub inside : r.1.offset + size ≤ r.0.head.cap
  pub start : r.1.offset ≡ taken a r.1.block
  pub past : r.1.offset + size ≤ taken r.0 r.1.block
  pub grows : (b : ℕ) → taken a b ≤ taken r.0 b

-- An allocation of at most 2 ^ 62 bytes from a valid arena is aligned, lies inside its block, begins
-- where the used part of the block ended and shrinks no used part; the arena stays valid.
pub arena_alloc-Allocates :
    (a : Arena) (size : ℕ) → IsValid a → size ≤ 2 ^ 62 → Allocates a size (arena_alloc a size)
unfolding arena_alloc taken
arena_alloc-Allocates a size v h =
    let need = need_of size in
    let n = need_of_lem size h in
    let g : Roomy a (make_room a need) need = make_room-Roomy a need v (omega (arith, n.2)) in
    let r = make_room a need in
    record {
      valid = (ground (arith, n, g.valid, g.fits));
      aligned = g.valid.aligned;
      here = refl;
      inside = omega (arith, n.0, g.fits);
      start = g.start;
      past = ground (arith, n, g.fits, g.valid);
      grows = λ b. ground (arith, n, g.fits, g.kept b, g.valid);
    }
